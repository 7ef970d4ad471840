-- ===== src/Registry/Routes/Defs.antt =====
-- internal/authapp/routes.go: the operations on `routes`. Ports are natural numbers: a negative
-- backend port, which Go's int has, is refused like 0.
use sandcastle_incus.Prelude.{
  ℕ, zero, suc, ◌+◌, ◌-◌, Bool, true, false, not, ◌&&◌, List, [], ◌∷◌, ◌++◌, if◌then◌else◌, Option,
  none, some, map, keep, find_first, exists, ◌==◌, Result, ok, err, ◌>>=◌, ◌>>◌, fail_if,
}
use sandcastle_incus.Prelude.Text.{Text, teq, trim_space}
use sandcastle_incus.Domain.{is_nil}
use sandcastle_incus.Registry.Tables.{
  ProjectDomainClaim, MachineHostname, Route, Db, order_by, normalize_hostname,
}
use sandcastle_incus.Registry.Claims.{route_hostname_inside_project_domain}
use sandcastle_incus.Registry.Hostnames.{route_hostname_inside_machine_hostname}

abbrev pub local_port_base : ℕ
local_port_base = 20000

abbrev pub local_port_ceiling : ℕ
local_port_ceiling = 30000

pub data RouteError : Type 0 where
  hostname_required tenant_required port_required : RouteError
  inside_project_domain : ProjectDomainClaim → RouteError
  inside_machine_hostname : MachineHostname → RouteError
  conflict : Route → Bool → RouteError
  no_free_port : RouteError
  duplicate : RouteError
  not_published foreign : Text → RouteError

-- `GetRoute`
unfoldable pub get_route : Text → Db → Option Route
get_route hostname db = find_first (λ r. teq r.hostname (normalize_hostname hostname)) db.routes

-- The loop over the ports: `left` counts those below the ceiling, from `port` on.
unfoldable pub first_free : List ℕ → ℕ → ℕ → Option ℕ
first_free used zero port = none
first_free used (suc left) port =
    let rest = first_free used left (port + 1) in
    if exists (λ p. p == port) used then rest else some port

-- `allocateLocalPort`
unfoldable pub allocate_local_port : Db → Option ℕ
allocate_local_port db =
    first_free (map (λ (r : Route). r.local_port) db.routes) (local_port_ceiling - local_port_base)
      local_port_base

unfoldable pub insert_route : Route → Db → Option Db
insert_route row db =
    if exists (λ r. teq r.hostname row.hostname) db.routes
    then none
    else some (record db { routes = db.routes ++ row ∷ [] })

-- The row as it will be stored, but for the local port.
unfoldable pub clean_route : Route → Route
clean_route r = record r {
  hostname = normalize_hostname r.hostname;
  tenant = trim_space r.tenant;
  project = trim_space r.project;
  machine = trim_space r.machine;
}

-- What a published hostname answers to a second request for it.
unfoldable pub republish : Route → Route → Result RouteError Route
republish route existing =
    if not (teq existing.tenant route.tenant)
    then err (conflict existing true)
    else if teq existing.project route.project
        && (teq existing.machine route.machine && existing.backend_port == route.backend_port)
    then ok existing
    else err (conflict existing false)

abbrev pub refuse_inside_domain : Option ProjectDomainClaim → Result RouteError (Unit {0})
refuse_inside_domain none = ok tt
refuse_inside_domain (some c) = err (inside_project_domain c)

abbrev pub refuse_inside_hostname : Option MachineHostname → Result RouteError (Unit {0})
refuse_inside_hostname none = ok tt
refuse_inside_hostname (some h) = err (inside_machine_hostname h)

abbrev pub port_or_full : Option ℕ → Result RouteError ℕ
port_or_full none = err no_free_port
port_or_full (some port) = ok port

abbrev pub or_duplicate : Option Db → Result RouteError Db
or_duplicate none = err duplicate
or_duplicate (some db') = ok db'

-- A hostname that is not published yet: the reverse scans, a port, the row.
unfoldable pub publish_new : Route → Db → Result RouteError Db
publish_new route db = do
  refuse_inside_domain (route_hostname_inside_project_domain route.hostname db)
  refuse_inside_hostname (route_hostname_inside_machine_hostname route.hostname db)
  port ← port_or_full (allocate_local_port db)
  or_duplicate (insert_route (record route { local_port = port }) db)

unfoldable pub check_route : Route → Result RouteError (Unit {0})
check_route route = do
  fail_if (is_nil route.hostname) hostname_required
  fail_if (is_nil route.tenant) tenant_required
  fail_if (route.backend_port == 0) port_required

-- The second lookup of `UpsertRoute`: where it finds nothing Go returns the zero `Route`.
unfoldable pub stored_route :
    Route → Result RouteError Db → Db → Result RouteError (Option Route) × Db
stored_route route (err e) db = (err e, db)
stored_route route (ok db') db = (ok (get_route route.hostname db'), db')

unfoldable pub upsert_found : Route → Option Route → Db → Result RouteError (Option Route) × Db
upsert_found route (some existing) db = (republish route existing >>= (λ r. ok (some r)), db)
upsert_found route none db = stored_route route (publish_new route db) db

unfoldable pub upsert_checked :
    Route → Result RouteError (Unit {0}) → Db → Result RouteError (Option Route) × Db
upsert_checked route (err e) db = (err e, db)
upsert_checked route (ok _) db = upsert_found route (get_route route.hostname db) db

-- `UpsertRoute`
unfoldable pub upsert_route : Route → Db → Result RouteError (Option Route) × Db
upsert_route request db =
    let route = clean_route request in upsert_checked route (check_route route) db

-- `RouteHostnameRegistered`
unfoldable pub route_hostname_registered : Text → Db → Bool
route_hostname_registered hostname db = elim (get_route hostname db) [
  | none ↦ false
  | some r ↦ true
]

-- `ListRoutes` and `ListRoutesByTenant`
unfoldable pub list_routes : Db → List Route
list_routes db = order_by (λ (r : Route). r.hostname) db.routes

unfoldable pub list_routes_by_tenant : Text → Db → List Route
list_routes_by_tenant tenant db =
    order_by (λ (r : Route). r.hostname) (keep (λ r. teq r.tenant (trim_space tenant)) db.routes)

-- `DELETE FROM routes WHERE hostname = ?`
unfoldable pub delete_route_row : Text → Db → Db
delete_route_row hostname db = record db {
  routes = keep (λ r. not (teq r.hostname hostname)) db.routes;
}

unfoldable pub delete_found : Text → Text → Option Route → Db → Result RouteError Route × Db
delete_found h tenant none db = (err (not_published h), db)
delete_found h tenant (some route) db =
    if not (is_nil tenant) && not (teq route.tenant tenant)
    then (err (foreign h), db)
    else (ok route, delete_route_row h db)

-- `DeleteRoute`: an empty tenant may delete any route.
unfoldable pub delete_route : Text → Text → Db → Result RouteError Route × Db
delete_route hostname tenant db =
    let h = normalize_hostname hostname in delete_found h (trim_space tenant) (get_route h db) db

-- `PruneRoute`
unfoldable pub prune_route : Text → Db → Db
prune_route hostname db = delete_route_row (normalize_hostname hostname) db
