-- ===== src/Registry/Hostnames/Release.antt =====
-- internal/authapp/machine_hostnames.go: listing, releasing and collecting Machine Public Hostnames, and
-- the reverse check of routes.
use sandcastle_incus.Prelude.{
  Bool, true, not, ◌&&◌, List, [], ◌∷◌, ◌++◌, if◌then◌else◌, Option, none, some, map, keep,
  find_first, exists, Result, ok, err,
}
use sandcastle_incus.Prelude.Text.{Text, teq, trim_space, to_lower}
use sandcastle_incus.Domain.{DomainError, is_nil}
use sandcastle_incus.Registry.Tables.{
  MachineHostname, Db, order_by, holds_hostname, bare, normalize_hostname,
}
use sandcastle_incus.Registry.Scan.{meets}
use sandcastle_incus.Registry.Claims.{LiveProjects, is_live, get_project_domain_claim}
use sandcastle_incus.Registry.Hostnames.Defs.{
  HostnameError, malformed, not_held, normalize_machine_hostname,
}

-- `MachineHostnamesOf`
unfoldable pub machine_hostnames_of : Text → Text → Text → Db → List MachineHostname
machine_hostnames_of tenant project machine db =
    order_by (λ (h : MachineHostname). h.hostname)
      (keep (holds_hostname (trim_space tenant) (trim_space project) (trim_space machine))
        db.hostnames)

-- `DELETE FROM machine_hostnames WHERE hostname = ?`
unfoldable pub delete_hostname : Text → Db → Db
delete_hostname hostname db = record db {
  hostnames = keep (λ h. not (teq h.hostname hostname)) db.hostnames;
}

unfoldable pub release_found :
    Text → Text → Text → Option MachineHostname → Db → Result HostnameError MachineHostname × Db
release_found norm project machine none db = (err (not_held norm project machine), db)
release_found norm project machine (some h) db = (ok h, delete_hostname norm db)

unfoldable pub release_named :
    Text → Text → Text → Result DomainError Text → Db → Result HostnameError MachineHostname × Db
release_named tenant project machine (err e) db = (err (malformed e), db)
release_named tenant project machine (ok norm) db =
    release_found norm (trim_space project) (trim_space machine)
      (find_first (λ h. teq h.hostname norm) (machine_hostnames_of tenant project machine db)) db

-- `ReleaseMachineHostname`
unfoldable pub release_machine_hostname :
    Text → Text → Text → Text → Db → Result HostnameError MachineHostname × Db
release_machine_hostname tenant project machine hostname db =
    release_named tenant project machine (normalize_machine_hostname hostname) db

-- The loop of a bulk release: the rows to be dropped go one by one, and are reported.
unfoldable pub drop_hostnames :
    (MachineHostname → Bool) → List MachineHostname → Db → List MachineHostname × Db
drop_hostnames doomed [] db = ([], db)
drop_hostnames doomed (h ∷ hostnames) db =
    let (dropped, db') =
      drop_hostnames doomed hostnames (if doomed h then delete_hostname h.hostname db else db) in
    (if doomed h then h ∷ dropped else dropped, db')

abbrev pub list_hostnames : Db → List MachineHostname
list_hostnames db = order_by (λ (h : MachineHostname). h.hostname) db.hostnames

-- `ReleaseMachineHostnamesOfProject`
unfoldable pub release_machine_hostnames_of_project : Text → Text → Db → List MachineHostname × Db
release_machine_hostnames_of_project tenant project db =
    drop_hostnames (λ h. teq h.tenant (trim_space tenant) && teq h.project (trim_space project))
      (list_hostnames db) db

-- The key of the live set, "tenant/project/machine".
abbrev pub machine_key : MachineHostname → Text
machine_key h = h.tenant ++ b'/' ∷ (h.project ++ b'/' ∷ h.machine)

-- The machine of the row is gone; `none` is a live set that could not be read.
unfoldable pub machine_is_gone : LiveProjects → Option (List Text) → MachineHostname → Bool
machine_is_gone live machines h = not (
    is_live live h.tenant h.project
    && elim machines [ none ↦ true | some keys ↦ exists (teq (machine_key h)) keys ])

-- `ReconcileMachineHostnames`
unfoldable pub reconcile_machine_hostnames :
    LiveProjects → Option (List Text) → Db → List MachineHostname × Db
reconcile_machine_hostnames [] machines db = ([], db)
reconcile_machine_hostnames (l ∷ live) machines db =
    drop_hostnames (machine_is_gone (l ∷ live) machines) (list_hostnames db) db

-- `RouteHostnameInsideMachineHostname`
unfoldable pub route_hostname_inside_machine_hostname : Text → Db → Option MachineHostname
route_hostname_inside_machine_hostname hostname db =
    let h = bare (normalize_hostname hostname) in
    if is_nil h then none else find_first (λ e. meets h (bare e.hostname)) (list_hostnames db)

-- `PublicHostnamesOfMachine`: the derived name and the explicit ones, sorted.
unfoldable pub public_hostnames_of_machine : Text → Text → Text → Db → List Text
public_hostnames_of_machine tenant project machine db =
    let derived : List Text = elim (get_project_domain_claim tenant project db) [
      | none ↦ []
      | some claim ↦ (to_lower (trim_space machine) ++ b'.' ∷ claim.domain) ∷ []
    ] in
    order_by (λ (n : Text). n)
      (derived
        ++ map (λ (h : MachineHostname). h.hostname)
            (machine_hostnames_of tenant project machine db))
