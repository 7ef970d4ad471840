-- ===== src/Registry/Scan.antt =====
-- The conflict scans of project_domain_claims.go and machine_hostnames.go: the first reservation
-- that a candidate meets, and how the refusal is classed.
use sandcastle_incus.Prelude.{
  Bool, false, not, ◌&&◌, ◌||◌, List, [], ◌∷◌, if◌then◌else◌, Option, none, some, map,
}
use sandcastle_incus.Prelude.Text.{Text, teq}
use sandcastle_incus.Domain.{is_nil}
use sandcastle_incus.Registry.Tables.{
  ProjectDomainClaim, MachineHostname, Route, Db, order_by, under, holds_claim, bare,
  normalize_hostname, InstallReservations,
}

-- `DomainClaimConflict…`
pub data DomainConflict : Type 0 where
  exact ancestor descendant route install hostname : DomainConflict

pub record DomainClaimError : Type 0 where
  pub domain : Text
  pub existing : Text
  pub project : Text
  pub machine : Text
  pub class : DomainConflict
  pub same_tenant : Bool

-- `HostnameClaimConflict…`
pub data HostnameConflict : Type 0 where
  exact ancestor descendant domain route install : HostnameConflict

pub record HostnameClaimError : Type 0 where
  pub hostname : Text
  pub existing : Text
  pub project : Text
  pub machine : Text
  pub class : HostnameConflict
  pub same_tenant : Bool

-- The first refusal of two checks.
abbrev pub or_else {ℓ} : {A : Type ℓ} → Option A → Option A → Option A
or_else (some a) o = some a
or_else none o = o

-- The names of which `d` would be a parent, or that it equals, among normalised ones.
abbrev pub meets : Text → Text → Bool
meets name d = teq name d || under name d

unfoldable pub scan_names : Text → List Text → Option Text
scan_names d [] = none
scan_names d (name ∷ names) =
    if not (is_nil name) && meets name d then some name else scan_names d names

abbrev pub claim_refusal : Text → Text → ProjectDomainClaim → DomainConflict → DomainClaimError
claim_refusal d tenant c class = record {
  domain = d;
  existing = c.domain;
  project = c.project;
  machine = [];
  class = class;
  same_tenant = teq c.tenant tenant;
}

unfoldable pub scan_project_domain_claim_conflicts :
    Text → Text → Text → List ProjectDomainClaim → Option DomainClaimError
scan_project_domain_claim_conflicts d tenant project [] = none
scan_project_domain_claim_conflicts d tenant project (c ∷ claims) =
    let rest = scan_project_domain_claim_conflicts d tenant project claims in
    if holds_claim tenant project c
    then rest
    else if teq c.domain d
    then some (claim_refusal d tenant c DomainConflict.exact)
    else if under c.domain d
    then some (claim_refusal d tenant c DomainConflict.ancestor)
    else if under d c.domain
    then some (claim_refusal d tenant c DomainConflict.descendant)
    else rest

unfoldable pub scan_project_domain_hostname_conflicts :
    Text → Text → List MachineHostname → Option DomainClaimError
scan_project_domain_hostname_conflicts d tenant [] = none
scan_project_domain_hostname_conflicts d tenant (h ∷ hostnames) =
    if teq (bare h.hostname) d || (under (bare h.hostname) d || under d (bare h.hostname))
    then some (record {
      domain = d;
      existing = h.hostname;
      project = h.project;
      machine = h.machine;
      class = DomainConflict.hostname;
      same_tenant = teq h.tenant tenant;
    })
    else scan_project_domain_hostname_conflicts d tenant hostnames

-- The refusals that name no owner.
abbrev pub domain_reserved : Text → DomainConflict → Option Text → Option DomainClaimError
domain_reserved d class none = none
domain_reserved d class (some name) = some (record {
  domain = d;
  existing = name;
  project = [];
  machine = [];
  class = class;
  same_tenant = false;
})

unfoldable pub scan_project_domain_conflicts :
    Text → Text → Text → InstallReservations → Option DomainClaimError
scan_project_domain_conflicts d tenant project reg =
    or_else
      (domain_reserved d DomainConflict.install (
        scan_names d
          (normalize_hostname reg.auth_hostname ∷ normalize_hostname reg.route_base_domain ∷ [])))
      (or_else
        (domain_reserved d DomainConflict.route
          (scan_names d (map (λ r. bare (normalize_hostname r)) reg.routes)))
        (or_else (scan_project_domain_claim_conflicts d tenant project reg.claims)
          (scan_project_domain_hostname_conflicts d tenant reg.hostnames)))

-- The scan of the claims for a hostname `h` with no wildcard in front.
unfoldable pub scan_hostname_claims :
    Text → Text → List ProjectDomainClaim → Option HostnameClaimError
scan_hostname_claims h tenant [] = none
scan_hostname_claims h tenant (c ∷ claims) =
    if teq c.domain h || (under h c.domain || under c.domain h)
    then some (record {
      hostname = h;
      existing = c.domain;
      project = c.project;
      machine = [];
      class = HostnameConflict.domain;
      same_tenant = teq c.tenant tenant;
    })
    else scan_hostname_claims h tenant claims

abbrev pub hostname_refusal : Text → Text → MachineHostname → HostnameConflict → HostnameClaimError
hostname_refusal h tenant e class = record {
  hostname = h;
  existing = e.hostname;
  project = e.project;
  machine = e.machine;
  class = class;
  same_tenant = teq e.tenant tenant;
}

unfoldable pub scan_hostname_hostnames :
    Text → Text → List MachineHostname → Option HostnameClaimError
scan_hostname_hostnames h tenant [] = none
scan_hostname_hostnames h tenant (e ∷ hostnames) =
    let rest = scan_hostname_hostnames h tenant hostnames in
    if teq (bare e.hostname) h
    then some (hostname_refusal h tenant e HostnameConflict.exact)
    else if under (bare e.hostname) h
    then some (hostname_refusal h tenant e HostnameConflict.ancestor)
    else if under h (bare e.hostname)
    then some (hostname_refusal h tenant e HostnameConflict.descendant)
    else rest

abbrev pub hostname_reserved : Text → HostnameConflict → Option Text → Option HostnameClaimError
hostname_reserved h class none = none
hostname_reserved h class (some name) = some (record {
  hostname = h;
  existing = name;
  project = [];
  machine = [];
  class = class;
  same_tenant = false;
})

unfoldable pub scan_machine_hostname_conflicts :
    Text → Text → InstallReservations → Option HostnameClaimError
scan_machine_hostname_conflicts name tenant reg =
    let h = bare name in
    or_else
      (hostname_reserved h HostnameConflict.install (
        scan_names h
          (normalize_hostname reg.auth_hostname ∷ normalize_hostname reg.route_base_domain ∷ [])))
      (or_else
        (hostname_reserved h HostnameConflict.route
          (scan_names h (map (λ r. bare (normalize_hostname r)) reg.routes)))
        (or_else (scan_hostname_claims h tenant reg.claims)
          (scan_hostname_hostnames h tenant reg.hostnames)))

-- `loadInstallReservations`: claims and hostnames are read in the order of their names.
unfoldable pub load_install_reservations : Text → Text → Db → InstallReservations
load_install_reservations auth_hostname route_base_domain db = record {
  claims = order_by (λ (c : ProjectDomainClaim). c.domain) db.claims;
  hostnames = order_by (λ (h : MachineHostname). h.hostname) db.hostnames;
  routes = map (λ (r : Route). r.hostname) db.routes;
  auth_hostname = auth_hostname;
  route_base_domain = route_base_domain;
}
