-- ===== src/Registry/Preserve/Route.antt =====
-- Publishing a Public Route keeps the tables consistent.
use sandcastle_incus.Prelude.{
  ℕ, ◌≡◌, refl, sym, subst, true, false, inl, inr, List, [], ◌∷◌, ◌++◌, All, All-imp, All-append,
  All-of_exists_false, All-of_find_first-none, exists, Bool-cases, Option, none, some, Result, ok,
  err, >>=-eq-ok,
}
use sandcastle_incus.Prelude.Text.{teq}
use sandcastle_incus.Domain.{is_nil}
use sandcastle_incus.Registry.Tables.{
  ProjectDomainClaim, MachineHostname, Route, Db, bare, normalize_hostname,
}
use sandcastle_incus.Registry.Scan.{meets}
use sandcastle_incus.Registry.Claims.{route_hostname_inside_project_domain}
use sandcastle_incus.Registry.Hostnames.{route_hostname_inside_machine_hostname}
use sandcastle_incus.Registry.Routes.{
  RouteError, refuse_inside_domain, refuse_inside_hostname, port_or_full, allocate_local_port,
  or_duplicate, insert_route, publish_new, stored_route, upsert_found, upsert_checked, upsert_route,
  get_route, check_route, clean_route,
}
use sandcastle_incus.Registry.Sound.{All-of_order_by}
use sandcastle_incus.Registry.Invariant.{IsConsistent, RouteOutside}

some_eq {ℓ} : {A : Type ℓ} (x y : A) → some x ≡ some y → x ≡ y
some_eq x y h = cc

none_not_some {ℓ} : {A : Type ℓ} (x : A) → ¬ (none ≡ some x)
none_not_some x h = cc

-- The reverse scans: what they mean where they find nothing.
inside_domain_none :
    (r : Route) (db : Db)
    → route_hostname_inside_project_domain r.hostname db ≡ none
    → All (λ (c : ProjectDomainClaim). RouteOutside r c.domain) db.claims
unfolding route_hostname_inside_project_domain
inside_domain_none r db h =
    let name = bare (normalize_hostname r.hostname) in
    elim (Bool-cases (is_nil name)) [
      | inl e ↦ all db.claims e
      | inr e ↦
          All-imp _ _ db.claims (λ c out. inr out)
            (All-of_order_by _ (λ (c : ProjectDomainClaim). c.domain) db.claims
              (All-of_find_first-none (λ (c : ProjectDomainClaim). meets name c.domain) _
                (rw e at h)))
    ]
  where
    all :
        (cs : List ProjectDomainClaim)
        → is_nil (bare (normalize_hostname r.hostname)) ≡ true
        → All (λ (c : ProjectDomainClaim). RouteOutside r c.domain) cs
    all [] e = tt
    all (c ∷ cs) e = (inl e, all cs e)

inside_hostname_none :
    (r : Route) (db : Db)
    → route_hostname_inside_machine_hostname r.hostname db ≡ none
    → All (λ (h : MachineHostname). RouteOutside r (bare h.hostname)) db.hostnames
unfolding route_hostname_inside_machine_hostname
inside_hostname_none r db h =
    let name = bare (normalize_hostname r.hostname) in
    elim (Bool-cases (is_nil name)) [
      | inl e ↦ all db.hostnames e
      | inr e ↦
          All-imp _ _ db.hostnames (λ c out. inr out)
            (All-of_order_by _ (λ (c : MachineHostname). c.hostname) db.hostnames
              (All-of_find_first-none (λ (c : MachineHostname). meets name (bare c.hostname)) _
                (rw e at h)))
    ]
  where
    all :
        (hs : List MachineHostname)
        → is_nil (bare (normalize_hostname r.hostname)) ≡ true
        → All (λ (h : MachineHostname). RouteOutside r (bare h.hostname)) hs
    all [] e = tt
    all (c ∷ cs) e = (inl e, all cs e)

-- The route is new, and was written.
abbrev pub IsPublished : Route → Db → Db → Type 0
IsPublished row db db' =
    (db' ≡ record db { routes = db.routes ++ row ∷ [] })
    × All (λ (r : Route). teq r.hostname row.hostname ≡ false) db.routes

insert_route-some :
    (row : Route) (db : Db) {db' : Db} → insert_route row db ≡ some db' → IsPublished row db db'
unfolding insert_route
insert_route-some row db h =
    let taken = λ (e : Route). teq e.hostname row.hostname in
    elim (Bool-cases (exists taken db.routes)) [
      | inl e ↦ absurd (none_not_some _ (rw e at h))
      | inr e ↦ (sym (some_eq _ _ (rw e at h)), All-of_exists_false taken db.routes e)
    ]

or_duplicate_ok : (o : Option Db) {db' : Db} → or_duplicate o ≡ ok db' → o ≡ some db'
or_duplicate_ok (some x) h = cc
or_duplicate_ok none h = cc

outside_none :
    (o : Option ProjectDomainClaim) {u : Unit {0}} → refuse_inside_domain o ≡ ok u → o ≡ none
outside_none none h = refl
outside_none (some e) h = cc

outside_hostname_none :
    (o : Option MachineHostname) {u : Unit {0}} → refuse_inside_hostname o ≡ ok u → o ≡ none
outside_hostname_none none h = refl
outside_hostname_none (some e) h = cc

port_some : (o : Option ℕ) {port : ℕ} → port_or_full o ≡ ok port → o ≡ some port
port_some none h = cc
port_some (some p) h = cc

-- A route that is newly published is appended under a hostname that was not there, with the port
-- that the allocation returns, and lies outside every Project Domain and Machine Public Hostname.
pub publish_new_ok :
    (route : Route) (db : Db) {db' : Db}
    → publish_new route db ≡ ok db'
    → (port : ℕ) × (allocate_local_port db ≡ some port)
      × IsPublished (record route { local_port = port }) db db'
      × All (λ (c : ProjectDomainClaim). RouteOutside route c.domain) db.claims
      × All (λ (h : MachineHostname). RouteOutside route (bare h.hostname)) db.hostnames
unfolding publish_new
publish_new_ok route db h =
    let domain = route_hostname_inside_project_domain route.hostname db in
    let held = route_hostname_inside_machine_hostname route.hostname db in
    let (_, a, h₁) = >>=-eq-ok (refuse_inside_domain domain) _ h in
    let (_, b, h₂) = >>=-eq-ok (refuse_inside_hostname held) _ h₁ in
    let (port, c, h₃) = >>=-eq-ok (port_or_full (allocate_local_port db)) _ h₂ in
    (
      port,
      port_some _ c,
      insert_route-some (record route { local_port = port }) db (or_duplicate_ok _ h₃),
      inside_domain_none route db (outside_none domain a),
      inside_hostname_none route db (outside_hostname_none held b),
    )

pub publish_new-IsConsistent :
    (route : Route) (db : Db) {db' : Db}
    → publish_new route db ≡ ok db'
    → IsConsistent db
    → IsConsistent db'
publish_new-IsConsistent route db h safe =
    let (port, _, (written, _), claims, hostnames) = publish_new_ok route db h in
    subst IsConsistent (sym written) (record {
      claims_apart = safe.claims_apart;
      hostnames_apart = safe.hostnames_apart;
      outside = safe.outside;
      routes_claims = All-append _ db.routes _ safe.routes_claims (claims, tt);
      routes_hostnames = All-append _ db.routes _ safe.routes_hostnames (hostnames, tt);
    })

stored_route-IsConsistent :
    (route : Route) (r : Result RouteError Db) (db : Db)
    → publish_new route db ≡ r
    → IsConsistent db
    → IsConsistent (stored_route route r db).1
unfolding stored_route
stored_route-IsConsistent route (err e) db h safe = safe
stored_route-IsConsistent route (ok db') db h safe = publish_new-IsConsistent route db h safe

upsert_found-IsConsistent :
    (route : Route) (found : Option Route) (db : Db)
    → IsConsistent db
    → IsConsistent (upsert_found route found db).1
unfolding upsert_found
upsert_found-IsConsistent route (some existing) db safe = safe
upsert_found-IsConsistent route none db safe =
    stored_route-IsConsistent route (publish_new route db) db refl safe

upsert_checked-IsConsistent :
    (route : Route) (r : Result RouteError (Unit {0})) (db : Db)
    → IsConsistent db
    → IsConsistent (upsert_checked route r db).1
unfolding upsert_checked
upsert_checked-IsConsistent route (err e) db safe = safe
upsert_checked-IsConsistent route (ok u) db safe =
    upsert_found-IsConsistent route (get_route route.hostname db) db safe

-- UpsertRoute keeps a consistent registry consistent, on every branch.
pub upsert_route-IsConsistent :
    (request : Route) (db : Db) → IsConsistent db → IsConsistent (upsert_route request db).1
unfolding upsert_route
upsert_route-IsConsistent request db =
    upsert_checked-IsConsistent (clean_route request) (check_route (clean_route request)) db
