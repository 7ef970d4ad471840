-- ===== src/Registry/Hostnames/Defs.antt =====
-- internal/authapp/machine_hostnames.go: the operations on `machine_hostnames`.
use sandcastle_incus.Prelude.{
  ℕ, ◌-◌, Bool, true, false, not, ◌&&◌, ◌||◌, List, [], ◌∷◌, ◌++◌, if◌then◌else◌, Option, none,
  some, keep, find_first, length, ltb, Result, ok, err, ◌>>=◌, ◌>>◌, fail_if, map_err,
}
use sandcastle_incus.Prelude.Text.{Text, codes, teq, has_prefix, has_suffix, trim_space, to_lower}
use sandcastle_incus.Domain
use sandcastle_incus.Domain.{DomainError, is_nil}
use sandcastle_incus.Registry.Tables.{
  ProjectDomainClaim, MachineHostname, Db, InstallReservations, under, holds_claim, holds_hostname,
  insert_hostname, bare,
}
use sandcastle_incus.Registry.Scan.{
  HostnameConflict, HostnameClaimError, scan_machine_hostname_conflicts, load_install_reservations,
}
use sandcastle_incus.Registry.Claims.{list_zones, longest_zone, with_reservation_lock}

-- `253 - len("*.")`
abbrev pub machine_hostname_max_length : ℕ
machine_hostname_max_length = 253 - 2

-- `MachineHostnameError`, by its `Kind`.
pub data MachineHostnameError : Type 0 where
  no_zone : Text → List Text → Bool → MachineHostnameError
  too_long : Text → MachineHostnameError

pub data HostnameError : Type 0 where
  malformed : DomainError → HostnameError
  names_required : HostnameError
  not_claimable : MachineHostnameError → HostnameError
  already_held : MachineHostname → HostnameError
  conflict : HostnameClaimError → HostnameError
  not_held : Text → Text → Text → HostnameError

pub record ClaimMachineHostnameRequest : Type 0 where
  pub hostname : Text
  pub tenant : Text
  pub project : Text
  pub machine : Text
  pub user_key : Text
  pub auth_hostname : Text
  pub route_base_domain : Text
  pub admin_view : Bool
  pub dry_run : Bool

-- A leading `*.` is taken off, the rest is normalised, and it is put back.
unfoldable pub normalize_machine_hostname : Text → Result DomainError Text
normalize_machine_hostname value = do
  let wildcard = has_prefix (trim_space value) (codes "*.")
  name ← Domain.normalize_machine_hostname (bare (trim_space value))
  ok (if wildcard then codes "*." ++ name else name)

unfoldable pub validate_machine_hostname :
    Text → List Text → Bool → Result MachineHostnameError Text
validate_machine_hostname norm zones admin_view = do
  let zone = longest_zone norm [] zones
  fail_if (is_nil zone) (no_zone norm zones admin_view)
  fail_if (ltb machine_hostname_max_length (length norm)) (too_long norm)
  ok zone

-- `hostname = ? OR hostname LIKE '%.' || ?`, where LIKE does not see case.
unfoldable pub tunnel_reserves : Text → Text → Bool
tunnel_reserves norm hostname =
    teq hostname norm || has_suffix (to_lower hostname) (b'.' ∷ to_lower norm)

abbrev pub refuse_tunnel : Text → Option Text → Result HostnameError (Unit {0})
refuse_tunnel norm none = ok tt
refuse_tunnel norm (some tunnel) = err (
    conflict (record {
      hostname = norm;
      existing = tunnel;
      project = [];
      machine = [];
      class = HostnameConflict.exact;
      same_tenant = false;
    }))

abbrev pub refuse_held : Option MachineHostname → Result HostnameError (Unit {0})
refuse_held none = ok tt
refuse_held (some row) = err (already_held row)

-- The name lies below the Project Domain of its own project.
unfoldable pub below_own_domain : MachineHostname → ProjectDomainClaim → Bool
below_own_domain row c = holds_claim row.tenant row.project c && under (bare row.hostname) c.domain

-- It is the very name that the domain gives the machine.
unfoldable pub is_derived_name : MachineHostname → ProjectDomainClaim → Bool
is_derived_name row c = below_own_domain row c && teq row.hostname (row.machine ++ b'.' ∷ c.domain)

abbrev pub refuse_derived :
    MachineHostname → Option ProjectDomainClaim → Result HostnameError (Unit {0})
refuse_derived row none = ok tt
refuse_derived row (some c) = err (
    conflict (record {
      hostname = row.hostname;
      existing = c.domain;
      project = row.project;
      machine = [];
      class = HostnameConflict.domain;
      same_tenant = true;
    }))

-- A wildcard and another name of the same machine may coexist.
unfoldable pub may_coexist : MachineHostname → MachineHostname → Bool
may_coexist row e =
    holds_hostname row.tenant row.project row.machine e
    && ((has_prefix row.hostname (codes "*.") || has_prefix e.hostname (codes "*."))
        && not (teq (bare row.hostname) (bare e.hostname)))

abbrev pub as_conflict : Option HostnameClaimError → Result HostnameError (Unit {0})
as_conflict none = ok tt
as_conflict (some e) = err (conflict e)

-- A broken constraint is reported as a flat conflict.
abbrev pub or_conflict : MachineHostname → Option Db → Result HostnameError Db
or_conflict row (some db') = ok db'
or_conflict row none = err (
    conflict (record {
      hostname = row.hostname;
      existing = [];
      project = [];
      machine = [];
      class = HostnameConflict.exact;
      same_tenant = false;
    }))

-- The reservations that are left to scan.
unfoldable pub foreign_reservations : MachineHostname → InstallReservations → InstallReservations
foreign_reservations row reg = record reg {
  claims = keep (λ c. not (below_own_domain row c)) reg.claims;
  hostnames = keep (λ e. not (may_coexist row e)) reg.hostnames;
}

-- The write of a claim that met no conflict; a dry run makes none.
unfoldable pub write_hostname : Bool → MachineHostname → Db → Result HostnameError Db
write_hostname dry_run row db = if dry_run then ok db else or_conflict row (insert_hostname row db)

-- What runs under the write lock.
unfoldable pub claim_under_lock :
    ClaimMachineHostnameRequest → MachineHostname → Db → Result HostnameError Db
claim_under_lock req row db = do
  refuse_tunnel row.hostname (find_first (tunnel_reserves row.hostname) db.tunnels)
  let reg = load_install_reservations req.auth_hostname req.route_base_domain db
  refuse_held (
      find_first
        (λ e. teq e.hostname row.hostname && holds_hostname row.tenant row.project row.machine e)
        reg.hostnames)
  refuse_derived row (find_first (is_derived_name row) reg.claims)
  as_conflict
      (scan_machine_hostname_conflicts row.hostname row.tenant (foreign_reservations row reg))
  write_hostname req.dry_run row db

-- The row that a request asks for, once the request is valid; `now` is the clock's text.
unfoldable pub hostname_row :
    Text → ClaimMachineHostnameRequest → Db → Result HostnameError MachineHostname
hostname_row now req db = do
  norm ← map_err malformed (normalize_machine_hostname req.hostname)
  fail_if
      (is_nil (trim_space req.tenant)
        || (is_nil (trim_space req.project) || is_nil (trim_space req.machine)))
      names_required
  zone ← map_err not_claimable (validate_machine_hostname norm (list_zones db) req.admin_view)
  ok (record {
    hostname = norm;
    tenant = trim_space req.tenant;
    project = trim_space req.project;
    machine = trim_space req.machine;
    zone = zone;
    user_key = trim_space req.user_key;
    created_at = now;
  })

-- The part of `ClaimMachineHostname` behind the validation.
unfoldable pub reserve_hostname :
    ClaimMachineHostnameRequest
    → Result HostnameError MachineHostname
    → Db
    → Result HostnameError MachineHostname × Db
reserve_hostname req (err e) db = (err e, db)
reserve_hostname req (ok row) db =
    with_reservation_lock req.dry_run
      (λ conn. do db' ← claim_under_lock req row conn; ok (row, db')) db

-- `ClaimMachineHostname`
unfoldable pub claim_machine_hostname :
    Text → ClaimMachineHostnameRequest → Db → Result HostnameError MachineHostname × Db
claim_machine_hostname now req db = reserve_hostname req (hostname_row now req db) db
