-- ===== src/Registry/Tests/Safety.antt =====
-- The theorems on the consistency of the registry, on the small registry.
use sandcastle_incus.Prelude.Text.{
  codes, teq, has_suffix, trim_suffix, trim_prefix, trim_space, trim_left, trim_right, to_lower,
  has_prefix, split, contains_any,
}
use sandcastle_incus.Domain.{
  lower_trim, check_marks, marked_label, bad_label, normalize_project_domain, normalize_dns_name,
  validate_domain_labels,
}
use sandcastle_incus.Registry.Tables.{insert_claim, order_by, normalize_hostname, under}
use sandcastle_incus.Registry.Scan.{
  load_install_reservations, scan_project_domain_conflicts, scan_names,
  scan_project_domain_claim_conflicts, scan_project_domain_hostname_conflicts,
}
use sandcastle_incus.Registry.Restore.{IsFreeFor}
use sandcastle_incus.Registry.Claims.{
  release_project_domain_claim, claim_project_domain, claim_row, reserve_claim, claim_under_lock,
  validate_project_domain, longest_zone, get_project_domain_claim, release_claim_found,
  delete_claim, write_claim,
}
use sandcastle_incus.Registry.Hostnames.{release_machine_hostname}
use sandcastle_incus.Registry.Routes.{delete_route}
use sandcastle_incus.Registry.Invariant.{IsConsistent}
use sandcastle_incus.Registry.Reach.{Reach-IsConsistent}
use sandcastle_incus.Registry.Owners.{OneOwner, one_owner}
use sandcastle_incus.Registry.Preserve.Route.{upsert_route-IsConsistent}
use sandcastle_incus.Registry.Preserve.Remove.{
  release_project_domain_claim-IsConsistent, release_machine_hostname-IsConsistent,
  delete_route-IsConsistent,
}
use sandcastle_incus.Registry.Tests.Sample.{
  shop_claim, given_up, published_again, sample_put_back, held, blog_route, published,
  held-IsConsistent, published-IsConsistent,
}

given_up-IsFree : IsFreeFor shop_claim given_up
unfolding claim_project_domain claim_row reserve_claim claim_under_lock validate_project_domain
    longest_zone normalize_project_domain normalize_dns_name validate_domain_labels
    release_project_domain_claim get_project_domain_claim release_claim_found delete_claim
    load_install_reservations scan_project_domain_conflicts scan_names
    scan_project_domain_claim_conflicts scan_project_domain_hostname_conflicts write_claim
    insert_claim order_by normalize_hostname teq under has_suffix trim_suffix trim_prefix trim_space
    trim_left trim_right to_lower has_prefix split lower_trim check_marks marked_label contains_any
    bad_label
given_up-IsFree = record { claims = tt; hostnames = tt; routes = tt }

Reach-IsConsistent_example : IsConsistent published_again
Reach-IsConsistent_example =
    Reach-IsConsistent sample_put_back ((((((tt, tt), tt), tt), given_up-IsFree), tt), tt)

one_owner_example : OneOwner (codes "a.shop.ex.dev") published_again
one_owner_example =
    one_owner sample_put_back ((((((tt, tt), tt), tt), given_up-IsFree), tt), tt)
      (codes "a.shop.ex.dev")

upsert_route_example : IsConsistent published
upsert_route_example = upsert_route-IsConsistent blog_route held held-IsConsistent

release_project_domain_claim_example :
    IsConsistent (release_project_domain_claim (codes "ann") (codes "web") published).1
release_project_domain_claim_example =
    release_project_domain_claim-IsConsistent (codes "ann") (codes "web") published
      published-IsConsistent

release_machine_hostname_example :
    IsConsistent
      (release_machine_hostname
        (codes "bob")
        (codes "db")
        (codes "m1")
        (codes "*.api.ex.dev")
        published).1
release_machine_hostname_example =
    release_machine_hostname-IsConsistent (codes "bob") (codes "db") (codes "m1")
      (codes "*.api.ex.dev") published published-IsConsistent

delete_route_example : IsConsistent (delete_route (codes "blog.ex.dev") (codes "bob") published).1
delete_route_example =
    delete_route-IsConsistent (codes "blog.ex.dev") (codes "bob") published published-IsConsistent
