-- ===== src/Registry/Preserve/Remove.antt =====
-- Releasing and garbage-collecting reservations keeps the tables consistent.
use sandcastle_incus.Prelude.{
  Bool, not, ◌&&◌, List, [], ◌∷◌, All-imp, All-keep, Pairwise-keep, keep, Option, none, some,
  Bool-cases, inl, inr, Result, ok, err,
}
use sandcastle_incus.Prelude.Text.{Text, teq, trim_space}
use sandcastle_incus.Domain.{DomainError, is_nil}
use sandcastle_incus.Registry.Tables.{
  ProjectDomainClaim, MachineHostname, Route, Db, bare, holds_claim, normalize_hostname,
}
use sandcastle_incus.Registry.Claims.{
  LiveProjects, is_live, get_project_domain_claim, delete_claim, release_claim_found,
  release_project_domain_claim, delete_domain, drop_dead_claims, reconcile_project_domain_claims,
}
use sandcastle_incus.Registry.Hostnames.{
  delete_hostname, drop_hostnames, list_hostnames, machine_is_gone,
  release_machine_hostnames_of_project, reconcile_machine_hostnames, release_found, release_named,
  release_machine_hostname, normalize_machine_hostname,
}
use sandcastle_incus.Registry.Routes.{delete_route_row, delete_found, delete_route, prune_route}
use sandcastle_incus.Registry.Invariant.{
  IsConsistent, ClaimsApart, HostnamesApart, Outside, RouteOutside,
}

module _ (db : Db) (safe : IsConsistent db) where
  keep_claims-IsConsistent :
      (p : ProjectDomainClaim → Bool) → IsConsistent (record db { claims = keep p db.claims })
  keep_claims-IsConsistent p = record {
    claims_apart = Pairwise-keep ClaimsApart p db.claims safe.claims_apart;
    hostnames_apart = safe.hostnames_apart;
    outside = All-imp _ _ db.hostnames (λ h. All-keep (Outside h) p db.claims) safe.outside;
    routes_claims =
        All-imp _ _ db.routes
          (λ r. All-keep (λ (c : ProjectDomainClaim). RouteOutside r c.domain) p db.claims)
          safe.routes_claims;
    routes_hostnames = safe.routes_hostnames;
  }

  keep_hostnames-IsConsistent :
      (p : MachineHostname → Bool) → IsConsistent (record db { hostnames = keep p db.hostnames })
  keep_hostnames-IsConsistent p = record {
    claims_apart = safe.claims_apart;
    hostnames_apart = Pairwise-keep HostnamesApart p db.hostnames safe.hostnames_apart;
    outside = All-keep _ p db.hostnames safe.outside;
    routes_claims = safe.routes_claims;
    routes_hostnames =
        All-imp _ _ db.routes
          (λ r. All-keep (λ (h : MachineHostname). RouteOutside r (bare h.hostname)) p db.hostnames)
          safe.routes_hostnames;
  }

  pub delete_route_row-IsConsistent :
      (hostname : Text) → IsConsistent (delete_route_row hostname db)
  unfolding delete_route_row
  delete_route_row-IsConsistent hostname =
      let p = λ (r : Route). not (teq r.hostname hostname) in
      record {
        claims_apart = safe.claims_apart;
        hostnames_apart = safe.hostnames_apart;
        outside = safe.outside;
        routes_claims = All-keep _ p db.routes safe.routes_claims;
        routes_hostnames = All-keep _ p db.routes safe.routes_hostnames;
      }

  pub delete_claim-IsConsistent :
      (tenant project : Text) → IsConsistent (delete_claim tenant project db)
  unfolding delete_claim
  delete_claim-IsConsistent tenant project =
      keep_claims-IsConsistent (λ c. not (holds_claim tenant project c))

  pub delete_domain-IsConsistent : (domain : Text) → IsConsistent (delete_domain domain db)
  unfolding delete_domain
  delete_domain-IsConsistent domain = keep_claims-IsConsistent (λ c. not (teq c.domain domain))

  pub delete_hostname-IsConsistent : (hostname : Text) → IsConsistent (delete_hostname hostname db)
  unfolding delete_hostname
  delete_hostname-IsConsistent hostname =
      keep_hostnames-IsConsistent (λ h. not (teq h.hostname hostname))

  release_found-IsConsistent :
      (o : Option ProjectDomainClaim) → IsConsistent (release_claim_found o db).1
  unfolding release_claim_found
  release_found-IsConsistent none = safe
  release_found-IsConsistent (some claim) = delete_claim-IsConsistent claim.tenant claim.project

-- Releasing a Project Domain.
pub release_project_domain_claim-IsConsistent :
    (tenant project : Text) (db : Db)
    → IsConsistent db
    → IsConsistent (release_project_domain_claim tenant project db).1
unfolding release_project_domain_claim
release_project_domain_claim-IsConsistent tenant project db safe =
    release_found-IsConsistent db safe (get_project_domain_claim tenant project db)

delete_found-IsConsistent :
    (h tenant : Text) (o : Option Route) (db : Db)
    → IsConsistent db
    → IsConsistent (delete_found h tenant o db).1
unfolding delete_found
delete_found-IsConsistent h tenant none db safe = safe
delete_found-IsConsistent h tenant (some route) db safe =
    elim (Bool-cases (not (is_nil tenant) && not (teq route.tenant tenant))) [
      | inl e ↦ rw e safe
      | inr e ↦ rw e (delete_route_row-IsConsistent db safe h)
    ]

pub delete_route-IsConsistent :
    (hostname tenant : Text) (db : Db)
    → IsConsistent db
    → IsConsistent (delete_route hostname tenant db).1
unfolding delete_route
delete_route-IsConsistent hostname tenant db safe =
    delete_found-IsConsistent (normalize_hostname hostname) (trim_space tenant) _ db safe

pub prune_route-IsConsistent :
    (hostname : Text) (db : Db) → IsConsistent db → IsConsistent (prune_route hostname db)
unfolding prune_route
prune_route-IsConsistent hostname db safe =
    delete_route_row-IsConsistent db safe (normalize_hostname hostname)

drop_dead_claims-IsConsistent :
    (live : LiveProjects) (claims : List ProjectDomainClaim) (db : Db)
    → IsConsistent db
    → IsConsistent (drop_dead_claims live claims db).1
unfolding drop_dead_claims
drop_dead_claims-IsConsistent live [] db safe = safe
drop_dead_claims-IsConsistent live (c ∷ claims) db safe =
    elim (Bool-cases (is_live live c.tenant c.project)) [
      | inl e ↦ rw e (drop_dead_claims-IsConsistent live claims db safe)
      | inr e ↦ rw e (
          drop_dead_claims-IsConsistent live claims (delete_domain c.domain db)
            (delete_domain-IsConsistent db safe c.domain))
    ]

-- The garbage collector of Project Domain claims keeps a consistent registry consistent.
pub reconcile_project_domain_claims-IsConsistent :
    (live : LiveProjects) (db : Db)
    → IsConsistent db
    → IsConsistent (reconcile_project_domain_claims live db).1
unfolding reconcile_project_domain_claims
reconcile_project_domain_claims-IsConsistent [] db safe = safe
reconcile_project_domain_claims-IsConsistent (l ∷ live) db safe =
    drop_dead_claims-IsConsistent (l ∷ live) _ db safe

drop_hostnames-IsConsistent :
    (doomed : MachineHostname → Bool) (hostnames : List MachineHostname) (db : Db)
    → IsConsistent db
    → IsConsistent (drop_hostnames doomed hostnames db).1
unfolding drop_hostnames
drop_hostnames-IsConsistent doomed [] db safe = safe
drop_hostnames-IsConsistent doomed (h ∷ hostnames) db safe = elim (Bool-cases (doomed h)) [
  | inl e ↦ rw e (
      drop_hostnames-IsConsistent doomed hostnames (delete_hostname h.hostname db)
        (delete_hostname-IsConsistent db safe h.hostname))
  | inr e ↦ rw e (drop_hostnames-IsConsistent doomed hostnames db safe)
]

pub release_machine_hostnames_of_project-IsConsistent :
    (tenant project : Text) (db : Db)
    → IsConsistent db
    → IsConsistent (release_machine_hostnames_of_project tenant project db).1
unfolding release_machine_hostnames_of_project
release_machine_hostnames_of_project-IsConsistent tenant project db safe =
    drop_hostnames-IsConsistent _ (list_hostnames db) db safe

-- The garbage collector of Machine Public Hostnames keeps a consistent registry consistent.
pub reconcile_machine_hostnames-IsConsistent :
    (live : LiveProjects) (machines : Option (List Text)) (db : Db)
    → IsConsistent db
    → IsConsistent (reconcile_machine_hostnames live machines db).1
unfolding reconcile_machine_hostnames
reconcile_machine_hostnames-IsConsistent [] machines db safe = safe
reconcile_machine_hostnames-IsConsistent (l ∷ live) machines db safe =
    drop_hostnames-IsConsistent (machine_is_gone (l ∷ live) machines) (list_hostnames db) db safe

release_row-IsConsistent :
    (norm project machine : Text) (o : Option MachineHostname) (db : Db)
    → IsConsistent db
    → IsConsistent (release_found norm project machine o db).1
unfolding release_found
release_row-IsConsistent norm project machine none db safe = safe
release_row-IsConsistent norm project machine (some h) db safe =
    delete_hostname-IsConsistent db safe norm

release_named-IsConsistent :
    (tenant project machine : Text) (r : Result DomainError Text) (db : Db)
    → IsConsistent db
    → IsConsistent (release_named tenant project machine r db).1
unfolding release_named
release_named-IsConsistent tenant project machine (err e) db safe = safe
release_named-IsConsistent tenant project machine (ok norm) db safe =
    release_row-IsConsistent norm (trim_space project) (trim_space machine) _ db safe

pub release_machine_hostname-IsConsistent :
    (tenant project machine hostname : Text) (db : Db)
    → IsConsistent db
    → IsConsistent (release_machine_hostname tenant project machine hostname db).1
unfolding release_machine_hostname
release_machine_hostname-IsConsistent tenant project machine hostname db safe =
    release_named-IsConsistent tenant project machine (normalize_machine_hostname hostname) db safe
