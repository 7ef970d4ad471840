-- ===== src/Registry/Tests/Runs.antt =====
-- What runs of the small registry write, and the theorems on single operations at such runs.
use sandcastle_incus.Prelude.{◌≡◌, refl, [], ◌∷◌, none, some, ok, ℕ, All}
use sandcastle_incus.Prelude.Text.{
  codes, teq, has_prefix, has_suffix, trim_prefix, trim_suffix, trim_space, trim_left, trim_right,
  to_lower,
}
use sandcastle_incus.Registry.Tables.{
  ProjectDomainClaim, MachineHostname, Db, order_by, insert_by, under, claim_collides, insert_claim,
  insert_hostname, normalize_hostname, bare,
}
use sandcastle_incus.Registry.Scan.{
  scan_names, scan_project_domain_claim_conflicts, scan_project_domain_hostname_conflicts,
  scan_project_domain_conflicts, scan_hostname_claims, scan_hostname_hostnames,
  scan_machine_hostname_conflicts, load_install_reservations,
}
use sandcastle_incus.Registry.Claims.{
  write_claim, delete_claim, restore_project_domain_claim, route_hostname_inside_project_domain,
}
use sandcastle_incus.Registry.Claims
use sandcastle_incus.Registry.Hostnames
use sandcastle_incus.Registry.Hostnames.{
  below_own_domain, is_derived_name, may_coexist, foreign_reservations, write_hostname,
  tunnel_reserves, route_hostname_inside_machine_hostname,
}
use sandcastle_incus.Registry.Routes.{publish_new, allocate_local_port, first_free, insert_route}
use sandcastle_incus.Registry.Suffixes.{
  claim_dns_suffix, claim_inserted, insert_suffix, suffix_collides, get_dns_suffix_claim_by_tenant,
  normalize_dns_suffix,
}
use sandcastle_incus.Registry.Suffixes.Laws.{
  KeepsSuffixes, claim_dns_suffix-Keeps, claim_dns_suffix_holds,
}
use sandcastle_incus.Registry.Invariant.{IsConsistent, RouteOutside}
use sandcastle_incus.Registry.Sound.{DomainClear, HostnameClear}
use sandcastle_incus.Registry.Preserve.Claim.{claim_granted, replace_claim}
use sandcastle_incus.Registry.Preserve.Hostname.{hostname_granted, IsAppended, TunnelApart}
use sandcastle_incus.Registry.Preserve.Route.{publish_new_ok, IsPublished}
use sandcastle_incus.Registry.Restore.{restore_breaks}
use sandcastle_incus.Registry.Tests.Sample.{
  zone_text, started, shop_request, shop_claim, host_request, blog_route,
}

abbrev host_row : MachineHostname
host_row = record {
  hostname = codes "*.api.ex.dev";
  tenant = codes "bob";
  project = codes "db";
  machine = codes "m1";
  zone = zone_text;
  user_key = codes "u2";
  created_at = codes "now";
}

abbrev with_claim : Db
with_claim = record started { claims = shop_claim ∷ [] }

abbrev with_hostname : Db
with_hostname = record with_claim { hostnames = host_row ∷ [] }

claim_run : Claims.claim_under_lock shop_request shop_claim started ≡ ok (none, with_claim)
unfolding Claims.claim_under_lock load_install_reservations scan_project_domain_conflicts scan_names
    scan_project_domain_claim_conflicts scan_project_domain_hostname_conflicts write_claim
    insert_claim order_by normalize_hostname teq under has_suffix trim_suffix trim_prefix trim_space
    trim_left trim_right to_lower has_prefix
claim_run = refl

claim_granted_example :
    (with_claim ≡ record started { claims = replace_claim shop_claim started.claims })
    × DomainClear shop_claim.domain shop_claim.tenant shop_claim.project
        (load_install_reservations (codes "auth.ex.dev") (codes "r.ex.dev") started)
claim_granted_example = claim_granted shop_request shop_claim started refl claim_run

hostname_run : Hostnames.claim_under_lock host_request host_row with_claim ≡ ok with_hostname
unfolding Hostnames.claim_under_lock load_install_reservations scan_machine_hostname_conflicts
    scan_names scan_hostname_claims scan_hostname_hostnames write_hostname insert_hostname order_by
    insert_by normalize_hostname teq under has_suffix trim_suffix trim_prefix trim_space trim_left
    trim_right to_lower has_prefix tunnel_reserves is_derived_name below_own_domain may_coexist
    foreign_reservations
hostname_run = refl

hostname_granted_example :
    IsAppended host_row with_claim with_hostname
    × HostnameClear (codes "api.ex.dev") (
        foreign_reservations host_row
          (load_install_reservations (codes "auth.ex.dev") (codes "r.ex.dev") with_claim))
    × All (TunnelApart host_row.hostname) with_claim.tunnels
unfolding trim_prefix
hostname_granted_example = hostname_granted host_request host_row with_claim refl hostname_run

publish_run :
    publish_new blog_route with_hostname
    ≡ ok (record with_hostname { routes = (record blog_route { local_port = 20000 }) ∷ [] })
unfolding publish_new allocate_local_port first_free insert_route
    route_hostname_inside_project_domain order_by insert_by route_hostname_inside_machine_hostname
    normalize_hostname teq under has_suffix trim_suffix trim_prefix trim_space trim_left trim_right
    to_lower has_prefix
publish_run = refl

publish_new_ok_example :
    (port : ℕ) × (allocate_local_port with_hostname ≡ some port)
    × IsPublished
        (record blog_route { local_port = port })
        with_hostname
        (record with_hostname { routes = (record blog_route { local_port = 20000 }) ∷ [] })
    × All (λ (c : ProjectDomainClaim). RouteOutside blog_route c.domain) with_hostname.claims
    × All
        (λ (h : MachineHostname). RouteOutside blog_route (bare h.hostname))
        with_hostname.hostnames
publish_new_ok_example = publish_new_ok blog_route with_hostname publish_run

suffix_run :
    (claim_dns_suffix (codes " Ann") (codes "ann ") (codes "u1") started).0 ≡ ok (codes "ann")
unfolding claim_dns_suffix claim_inserted normalize_dns_suffix insert_suffix suffix_collides teq
    trim_space trim_left trim_right to_lower
suffix_run = refl

claim_dns_suffix_holds_example :
    (codes "ann" ≡ normalize_dns_suffix (codes " Ann"))
    × (get_dns_suffix_claim_by_tenant
          (codes "ann ")
          (claim_dns_suffix (codes " Ann") (codes "ann ") (codes "u1") started).1
        ≡ some (codes "ann"))
claim_dns_suffix_holds_example =
    claim_dns_suffix_holds (codes " Ann") (codes "ann ") (codes "u1") started (codes "ann")
      suffix_run

claim_dns_suffix-Keeps_example :
    KeepsSuffixes started (claim_dns_suffix (codes "ann") (codes "ann") (codes "u1") started).1
claim_dns_suffix-Keeps_example =
    claim_dns_suffix-Keeps (codes "ann") (codes "ann") (codes "u1") started

-- The domain that was given up, and a name below it that another tenant claimed meanwhile.
abbrev below_claim : ProjectDomainClaim
below_claim = record shop_claim {
  domain = codes "a.shop.ex.dev";
  tenant = codes "eve";
  project = codes "p";
}

restore_breaks_example :
    ¬ IsConsistent
      (restore_project_domain_claim shop_claim (record started { claims = below_claim ∷ [] }))
unfolding claim_collides teq under has_suffix has_prefix
restore_breaks_example =
    restore_breaks shop_claim (record started { claims = below_claim ∷ [] }) refl refl
