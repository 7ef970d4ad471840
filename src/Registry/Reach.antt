-- ===== src/Registry/Reach.antt =====
-- The registry as a transition system: the operations of the Auth App in any order.
use sandcastle_incus.Prelude.{List, [], Option, subst, sym}
use sandcastle_incus.Prelude.Text.{Text}
use sandcastle_incus.Registry.Tables.{ProjectDomainClaim, SuffixClaim, Route, Db}
use sandcastle_incus.Registry.Restore.{IsFreeFor, restore_project_domain_claim-IsConsistent}
use sandcastle_incus.Registry.Claims.{
  restore_project_domain_claim, ClaimProjectDomainRequest, LiveProjects, claim_project_domain,
  release_project_domain_claim, reconcile_project_domain_claims,
}
use sandcastle_incus.Registry.Hostnames.{
  ClaimMachineHostnameRequest, claim_machine_hostname, release_machine_hostname,
  release_machine_hostnames_of_project, reconcile_machine_hostnames,
}
use sandcastle_incus.Registry.Routes.{upsert_route, delete_route, prune_route}
use sandcastle_incus.Registry.Suffixes.{
  claim_dns_suffix, release_dns_suffix_claim, reconcile_dns_suffix_claims,
}
use sandcastle_incus.Registry.Suffixes.Laws.{
  KeepsSuffixes, claim_dns_suffix-Keeps, release_dns_suffix_claim-Keeps,
  reconcile_dns_suffix_claims-Keeps,
}
use sandcastle_incus.Registry.Invariant.{IsConsistent}
use sandcastle_incus.Registry.Preserve.Claim.{claim_project_domain-IsConsistent}
use sandcastle_incus.Registry.Preserve.Hostname.{claim_machine_hostname-IsConsistent}
use sandcastle_incus.Registry.Preserve.Route.{upsert_route-IsConsistent}
use sandcastle_incus.Registry.Preserve.Remove.{
  release_project_domain_claim-IsConsistent, reconcile_project_domain_claims-IsConsistent,
  release_machine_hostname-IsConsistent, release_machine_hostnames_of_project-IsConsistent,
  reconcile_machine_hostnames-IsConsistent, delete_route-IsConsistent, prune_route-IsConsistent,
}

-- One operation; `environment` stands for the tables that other parts of the Auth App write.
pub data Step : Db → Db → Type 0 where
  claim_domain :
      (db : Db) (now : Text) (req : ClaimProjectDomainRequest)
      → Step db (claim_project_domain now req db).1
  release_domain :
      (db : Db) (tenant project : Text) → Step db (release_project_domain_claim tenant project db).1
  restore_domain :
      (db : Db) (claim : ProjectDomainClaim) → Step db (restore_project_domain_claim claim db)
  collect_domains :
      (db : Db) (live : LiveProjects) → Step db (reconcile_project_domain_claims live db).1
  claim_hostname :
      (db : Db) (now : Text) (req : ClaimMachineHostnameRequest)
      → Step db (claim_machine_hostname now req db).1
  release_hostname :
      (db : Db) (tenant project machine hostname : Text)
      → Step db (release_machine_hostname tenant project machine hostname db).1
  release_project :
      (db : Db) (tenant project : Text)
      → Step db (release_machine_hostnames_of_project tenant project db).1
  collect_hostnames :
      (db : Db) (live : LiveProjects) (machines : Option (List Text))
      → Step db (reconcile_machine_hostnames live machines db).1
  publish : (db : Db) (request : Route) → Step db (upsert_route request db).1
  unpublish : (db : Db) (hostname tenant : Text) → Step db (delete_route hostname tenant db).1
  prune : (db : Db) (hostname : Text) → Step db (prune_route hostname db)
  claim_suffix :
      (db : Db) (suffix tenant user_key : Text)
      → Step db (claim_dns_suffix suffix tenant user_key db).1
  release_suffix : (db : Db) (tenant : Text) → Step db (release_dns_suffix_claim tenant db)
  collect_suffixes : (db : Db) (live : List Text) → Step db (reconcile_dns_suffix_claims live db).1
  environment :
      (db : Db) (zones tunnels : List Text)
      → Step db (record db { zones = zones; tunnels = tunnels })

pub data Reach (start : Db) : Db → Type 0 where
  here : Reach start start
  next : {db db' : Db} → Reach start db → Step db db' → Reach start db'

-- Where the step puts an old claim back, nothing was reserved against it meanwhile.
abbrev pub RestoresFree : {db db' : Db} → Step db db' → Type 0
RestoresFree (restore_domain db claim) = IsFreeFor claim db
RestoresFree step = Unit

-- Every claim that was put back on the way was free.
abbrev pub AlwaysRestoresFree : {start db : Db} → Reach start db → Type 0
AlwaysRestoresFree here = Unit
AlwaysRestoresFree (next r step) = AlwaysRestoresFree r × RestoresFree step

-- The database after its schema was created.
abbrev pub empty_db : Db
empty_db = record {
  zones = [];
  claims = [];
  hostnames = [];
  routes = [];
  tunnels = [];
  suffixes = [];
}

empty_db-IsConsistent : IsConsistent empty_db
empty_db-IsConsistent = record {
  claims_apart = tt;
  hostnames_apart = tt;
  outside = tt;
  routes_claims = tt;
  routes_hostnames = tt;
}

-- The invariant reads three of the tables only.
same_tables :
    (db : Db) (zones tunnels : List Text) (suffixes : List SuffixClaim)
    → IsConsistent db
    → IsConsistent (record db { zones = zones; tunnels = tunnels; suffixes = suffixes })
same_tables db zones tunnels suffixes safe = record {
  claims_apart = safe.claims_apart;
  hostnames_apart = safe.hostnames_apart;
  outside = safe.outside;
  routes_claims = safe.routes_claims;
  routes_hostnames = safe.routes_hostnames;
}

suffixes_only : (db db' : Db) → KeepsSuffixes db db' → IsConsistent db → IsConsistent db'
suffixes_only db db' keeps safe =
    subst IsConsistent (sym keeps.0) (same_tables db db.zones db.tunnels db'.suffixes safe)

Step-IsConsistent :
    {db db' : Db} (step : Step db db') → RestoresFree step → IsConsistent db → IsConsistent db'
Step-IsConsistent (restore_domain db claim) free safe =
    restore_project_domain_claim-IsConsistent claim db free safe
Step-IsConsistent (claim_domain db now req) free safe =
    claim_project_domain-IsConsistent now req db safe
Step-IsConsistent (release_domain db tenant project) free safe =
    release_project_domain_claim-IsConsistent tenant project db safe
Step-IsConsistent (collect_domains db live) free safe =
    reconcile_project_domain_claims-IsConsistent live db safe
Step-IsConsistent (claim_hostname db now req) free safe =
    claim_machine_hostname-IsConsistent now req db safe
Step-IsConsistent (release_hostname db tenant project machine hostname) free safe =
    release_machine_hostname-IsConsistent tenant project machine hostname db safe
Step-IsConsistent (release_project db tenant project) free safe =
    release_machine_hostnames_of_project-IsConsistent tenant project db safe
Step-IsConsistent (collect_hostnames db live machines) free safe =
    reconcile_machine_hostnames-IsConsistent live machines db safe
Step-IsConsistent (publish db request) free safe = upsert_route-IsConsistent request db safe
Step-IsConsistent (unpublish db hostname tenant) free safe =
    delete_route-IsConsistent hostname tenant db safe
Step-IsConsistent (prune db hostname) free safe = prune_route-IsConsistent hostname db safe
Step-IsConsistent (claim_suffix db suffix tenant user_key) free safe =
    suffixes_only db _ (claim_dns_suffix-Keeps suffix tenant user_key db) safe
Step-IsConsistent (release_suffix db tenant) free safe =
    suffixes_only db _ (release_dns_suffix_claim-Keeps tenant db) safe
Step-IsConsistent (collect_suffixes db live) free safe =
    suffixes_only db _ (reconcile_dns_suffix_claims-Keeps live db) safe
Step-IsConsistent (environment db zones tunnels) free safe =
    same_tables db zones tunnels db.suffixes safe

-- In every database that the claims, releases, restores, garbage collections, publications and
-- removals of Project Domains, Machine Public Hostnames, Public Routes and Tenant DNS Suffixes
-- reach from an empty one, in any order and with any changes of the zones and tunnels between, the
-- reservations are consistent (no two of them share a name, but for those that the program lets
-- coexist, and no route lies at or below a reserved name), where every restored Project Domain
-- claim found nothing reserved against it when it was put back.
pub Reach-IsConsistent :
    {db : Db} (reach : Reach empty_db db) → AlwaysRestoresFree reach → IsConsistent db
Reach-IsConsistent here free = empty_db-IsConsistent
Reach-IsConsistent (next r step) (before, free) =
    Step-IsConsistent step free (Reach-IsConsistent r before)
