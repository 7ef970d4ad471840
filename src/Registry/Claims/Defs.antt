-- ===== src/Registry/Claims/Defs.antt =====
-- internal/authapp/project_domain_claims.go: the operations on `project_domain_claims`.
use sandcastle_incus.Prelude.{
  ℕ, ◌-◌, Bool, false, not, ◌&&◌, ◌||◌, List, [], ◌∷◌, if◌then◌else◌, Option, none, some, keep,
  find_first, exists, length, ltb, Result, ok, err, ◌>>=◌, ◌>>◌, fail_if, map_err,
}
use sandcastle_incus.Prelude.Text.{Text, teq, trim_space}
use sandcastle_incus.Domain.{DomainError, is_nil, normalize_project_domain}
use sandcastle_incus.Registry.Tables.{
  ProjectDomainClaim, Db, order_by, holds_claim, insert_claim, bare, normalize_hostname,
}
use sandcastle_incus.Registry.Scan.{
  DomainConflict, DomainClaimError, meets, scan_project_domain_conflicts, load_install_reservations,
}

-- `253 - len("*.") - 63 - len(".")`
abbrev pub project_domain_max_length : ℕ
project_domain_max_length = 253 - 2 - 63 - 1

-- `ProjectDomainError`, by its `Kind`.
pub data ProjectDomainError : Type 0 where
  no_zone : Text → List Text → Bool → ProjectDomainError
  apex : Text → Text → ProjectDomainError
  too_long : Text → ProjectDomainError

pub data ClaimError : Type 0 where
  malformed : DomainError → ClaimError
  names_required : ClaimError
  not_claimable : ProjectDomainError → ClaimError
  already_claimed : ProjectDomainClaim → ClaimError
  conflict : DomainClaimError → ClaimError

pub record ClaimProjectDomainRequest : Type 0 where
  pub domain : Text
  pub tenant : Text
  pub project : Text
  pub user_key : Text
  pub auth_hostname : Text
  pub route_base_domain : Text
  pub admin_view : Bool
  pub dry_run : Bool

-- The longest zone that covers a name; `zone` is the best one so far.
unfoldable pub longest_zone : Text → Text → List Text → Text
longest_zone norm zone [] = zone
longest_zone norm zone (z ∷ zones) =
    longest_zone norm (if meets norm z && ltb (length zone) (length z) then z else zone) zones

unfoldable pub validate_project_domain : Text → List Text → Bool → Result ProjectDomainError Text
validate_project_domain norm zones admin_view = do
  let zone = longest_zone norm [] zones
  fail_if (is_nil zone) (no_zone norm zones admin_view)
  fail_if (teq norm zone) (apex norm zone)
  fail_if (ltb project_domain_max_length (length norm)) (too_long norm)
  ok zone

-- How `withReservationLock` ends: an error and a dry run leave the tables as they were.
abbrev pub settle {ℓ κ} :
    {E : Type ℓ} {A : Type κ} → Bool → Result E (A × Db) → Db → Result E A × Db
settle dry_run (ok (a, db')) db = (ok a, if dry_run then db else db')
settle dry_run (err e) db = (err e, db)

-- `withReservationLock`
abbrev pub with_reservation_lock {ℓ κ} :
    {E : Type ℓ} {A : Type κ} → Bool → (Db → Result E (A × Db)) → Db → Result E A × Db
with_reservation_lock dry_run fn db = settle dry_run (fn db) db

-- The INSERT, with a broken constraint reported as a flat conflict.
abbrev pub insert_or_conflict : ProjectDomainClaim → Db → Result ClaimError Db
insert_or_conflict claim db = elim (insert_claim claim db) [
  | some db' ↦ ok db'
  | none ↦ err (
      conflict (record {
        domain = claim.domain;
        existing = [];
        project = [];
        machine = [];
        class = DomainConflict.exact;
        same_tenant = false;
      }))
]

-- `DELETE FROM project_domain_claims WHERE tenant = ? AND project = ?`
unfoldable pub delete_claim : Text → Text → Db → Db
delete_claim tenant project db = record db {
  claims = keep (λ c. not (holds_claim tenant project c)) db.claims;
}

abbrev pub drop_previous : Option ProjectDomainClaim → Text → Text → Db → Db
drop_previous none tenant project db = db
drop_previous (some prev) tenant project db = delete_claim tenant project db

abbrev pub refuse_same : Option ProjectDomainClaim → Text → Result ClaimError (Unit {0})
refuse_same none norm = ok tt
refuse_same (some prev) norm = fail_if (teq prev.domain norm) (already_claimed prev)

abbrev pub as_conflict : Option DomainClaimError → Result ClaimError (Unit {0})
as_conflict none = ok tt
as_conflict (some e) = err (conflict e)

-- The writes of a claim that met no conflict; a dry run makes none.
unfoldable pub write_claim :
    Bool → ProjectDomainClaim → Option ProjectDomainClaim → Db → Result ClaimError Db
write_claim dry_run claim previous db =
    if dry_run
    then ok db
    else insert_or_conflict claim (drop_previous previous claim.tenant claim.project db)

-- What runs under the write lock.
unfoldable pub claim_under_lock :
    ClaimProjectDomainRequest
    → ProjectDomainClaim
    → Db
    → Result ClaimError (Option ProjectDomainClaim × Db)
claim_under_lock req claim db = do
  let reg = load_install_reservations req.auth_hostname req.route_base_domain db
  let previous = find_first (holds_claim claim.tenant claim.project) reg.claims
  refuse_same previous claim.domain
  as_conflict (scan_project_domain_conflicts claim.domain claim.tenant claim.project reg)
  db' ← write_claim req.dry_run claim previous db
  ok (previous, db')

-- `listPublicDNSZoneNames`: `ORDER BY zone`
abbrev pub list_zones : Db → List Text
list_zones db = order_by (λ (z : Text). z) db.zones

-- The row that a request asks for, once the request is valid; `now` is the clock's text.
unfoldable pub claim_row :
    Text → ClaimProjectDomainRequest → Db → Result ClaimError ProjectDomainClaim
claim_row now req db = do
  norm ← map_err malformed (normalize_project_domain req.domain)
  fail_if (is_nil (trim_space req.tenant) || is_nil (trim_space req.project)) names_required
  zone ← map_err not_claimable (validate_project_domain norm (list_zones db) req.admin_view)
  ok (record {
    domain = norm;
    tenant = trim_space req.tenant;
    project = trim_space req.project;
    zone = zone;
    user_key = trim_space req.user_key;
    created_at = now;
  })

-- The part of `ClaimProjectDomain` behind the validation.
unfoldable pub reserve_claim :
    ClaimProjectDomainRequest
    → Result ClaimError ProjectDomainClaim
    → Db
    → Result ClaimError (ProjectDomainClaim × Option ProjectDomainClaim) × Db
reserve_claim req (err e) db = (err e, db)
reserve_claim req (ok claim) db =
    with_reservation_lock req.dry_run
      (λ conn. do (previous, db') ← claim_under_lock req claim conn; ok ((claim, previous), db')) db

-- `ClaimProjectDomain`: the new claim and the one it replaces.
unfoldable pub claim_project_domain :
    Text
    → ClaimProjectDomainRequest
    → Db
    → Result ClaimError (ProjectDomainClaim × Option ProjectDomainClaim) × Db
claim_project_domain now req db = reserve_claim req (claim_row now req db) db

-- `GetProjectDomainClaim`
unfoldable pub get_project_domain_claim : Text → Text → Db → Option ProjectDomainClaim
get_project_domain_claim tenant project db =
    find_first (holds_claim (trim_space tenant) (trim_space project)) db.claims

unfoldable pub release_claim_found : Option ProjectDomainClaim → Db → Option ProjectDomainClaim × Db
release_claim_found none db = (none, db)
release_claim_found (some claim) db = (some claim, delete_claim claim.tenant claim.project db)

-- `ReleaseProjectDomainClaim`
unfoldable pub release_project_domain_claim : Text → Text → Db → Option ProjectDomainClaim × Db
release_project_domain_claim tenant project db =
    release_claim_found (get_project_domain_claim tenant project db) db

-- `restoreProjectDomainClaim`: `INSERT OR IGNORE`
unfoldable pub restore_project_domain_claim : ProjectDomainClaim → Db → Db
restore_project_domain_claim claim db = elim (insert_claim claim db) [ none ↦ db | some db' ↦ db' ]

-- `RouteHostnameInsideProjectDomain`: the claimed domain that the route's hostname sits in.
unfoldable pub route_hostname_inside_project_domain : Text → Db → Option ProjectDomainClaim
route_hostname_inside_project_domain hostname db =
    let h = bare (normalize_hostname hostname) in
    if is_nil h
    then none
    else find_first (λ c. meets h c.domain)
        (order_by (λ (c : ProjectDomainClaim). c.domain) db.claims)

-- A Go map from tenants to the names of their live projects.
abbrev pub LiveProjects : Type 0
LiveProjects = List (Text × List Text)

unfoldable pub live_projects_of : Text → LiveProjects → List Text
live_projects_of tenant [] = []
live_projects_of tenant ((t, projects) ∷ live) =
    if teq t tenant then projects else live_projects_of tenant live

unfoldable pub is_live : LiveProjects → Text → Text → Bool
is_live live tenant project =
    exists (λ p. teq (trim_space p) project) (live_projects_of tenant live)

-- `DELETE FROM project_domain_claims WHERE domain = ?`
unfoldable pub delete_domain : Text → Db → Db
delete_domain domain db = record db { claims = keep (λ c. not (teq c.domain domain)) db.claims }

-- The loop of the garbage collector, over the claims as they were listed.
unfoldable pub drop_dead_claims :
    LiveProjects → List ProjectDomainClaim → Db → List ProjectDomainClaim × Db
drop_dead_claims live [] db = ([], db)
drop_dead_claims live (c ∷ claims) db =
    let kept = is_live live c.tenant c.project in
    let (dropped, db') =
      drop_dead_claims live claims (if kept then db else delete_domain c.domain db) in
    (if kept then dropped else c ∷ dropped, db')

-- `ReconcileProjectDomainClaims`: the dropped claims, for each of which `released` is called.
unfoldable pub reconcile_project_domain_claims : LiveProjects → Db → List ProjectDomainClaim × Db
reconcile_project_domain_claims [] db = ([], db)
reconcile_project_domain_claims (l ∷ live) db =
    drop_dead_claims (l ∷ live) (order_by (λ (c : ProjectDomainClaim). c.domain) db.claims) db
