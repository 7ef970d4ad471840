-- ===== src/Registry/Tests/Sample.antt =====
-- A small registry: one zone, one claim, one hostname, one route.
use sandcastle_incus.Prelude.{false, [], ◌∷◌}
use sandcastle_incus.Prelude.Text.{Text, codes}
use sandcastle_incus.Registry.Tables.{ProjectDomainClaim, Route, Db}
use sandcastle_incus.Registry.Claims.{
  ClaimProjectDomainRequest, LiveProjects, claim_project_domain, release_project_domain_claim,
  restore_project_domain_claim,
}
use sandcastle_incus.Registry.Hostnames.{ClaimMachineHostnameRequest, claim_machine_hostname}
use sandcastle_incus.Registry.Routes.{upsert_route}
use sandcastle_incus.Registry.Invariant.{IsConsistent}
use sandcastle_incus.Registry.Reach.{
  Reach, empty_db, here, next, claim_domain, release_domain, restore_domain, claim_hostname,
  publish, environment, Reach-IsConsistent,
}

abbrev pub zone_text : Text
zone_text = codes "ex.dev"

abbrev pub started : Db
started = record empty_db { zones = zone_text ∷ [] }

abbrev pub shop_request : ClaimProjectDomainRequest
shop_request = record {
  domain = codes " Shop.ex.dev. ";
  tenant = codes "ann";
  project = codes "web";
  user_key = codes "u1";
  auth_hostname = codes "auth.ex.dev";
  route_base_domain = codes "r.ex.dev";
  admin_view = false;
  dry_run = false;
}

abbrev pub shop_claim : ProjectDomainClaim
shop_claim = record {
  domain = codes "shop.ex.dev";
  tenant = codes "ann";
  project = codes "web";
  zone = zone_text;
  user_key = codes "u1";
  created_at = codes "now";
}

abbrev pub claimed : Db
claimed = (claim_project_domain (codes "now") shop_request started).1

abbrev pub host_request : ClaimMachineHostnameRequest
host_request = record {
  hostname = codes "*.api.ex.dev";
  tenant = codes "bob";
  project = codes "db";
  machine = codes "m1";
  user_key = codes "u2";
  auth_hostname = codes "auth.ex.dev";
  route_base_domain = codes "r.ex.dev";
  admin_view = false;
  dry_run = false;
}

abbrev pub held : Db
held = (claim_machine_hostname (codes "now") host_request claimed).1

abbrev pub blog_route : Route
blog_route = record {
  hostname = codes "blog.ex.dev";
  tenant = codes "bob";
  project = codes "db";
  machine = codes "m1";
  backend_port = 80;
  local_port = 0;
  created_at = codes "now";
}

abbrev pub published : Db
published = (upsert_route blog_route held).1

abbrev pub sample : Reach empty_db published
sample =
    next
      (next
        (next (next here (environment empty_db (zone_text ∷ []) []))
          (claim_domain started (codes "now") shop_request))
        (claim_hostname claimed (codes "now") host_request))
      (publish held blog_route)

-- The domain is given up and put back.
abbrev pub given_up : Db
given_up = (release_project_domain_claim (codes "ann") (codes "web") claimed).1

abbrev pub put_back : Db
put_back = restore_project_domain_claim shop_claim given_up

abbrev pub held_again : Db
held_again = (claim_machine_hostname (codes "now") host_request put_back).1

abbrev pub published_again : Db
published_again = (upsert_route blog_route held_again).1

abbrev pub sample_put_back : Reach empty_db published_again
sample_put_back =
    next
      (next
        (next
          (next
            (next (next here (environment empty_db (zone_text ∷ []) []))
              (claim_domain started (codes "now") shop_request))
            (release_domain claimed (codes "ann") (codes "web")))
          (restore_domain given_up shop_claim))
        (claim_hostname put_back (codes "now") host_request))
      (publish held_again blog_route)

abbrev pub live : LiveProjects
live = (codes "bob", codes "db" ∷ []) ∷ []

pub started-IsConsistent : IsConsistent started
started-IsConsistent =
    Reach-IsConsistent (next here (environment empty_db (zone_text ∷ []) [])) (tt, tt)

pub claimed-IsConsistent : IsConsistent claimed
claimed-IsConsistent =
    Reach-IsConsistent
      (next (next here (environment empty_db (zone_text ∷ []) []))
        (claim_domain started (codes "now") shop_request))
      ((tt, tt), tt)

pub held-IsConsistent : IsConsistent held
held-IsConsistent =
    Reach-IsConsistent
      (next
        (next (next here (environment empty_db (zone_text ∷ []) []))
          (claim_domain started (codes "now") shop_request))
        (claim_hostname claimed (codes "now") host_request))
      (((tt, tt), tt), tt)

pub published-IsConsistent : IsConsistent published
published-IsConsistent = Reach-IsConsistent sample ((((tt, tt), tt), tt), tt)
