-- ===== src/Naming/Tests.antt =====
-- The theorems on names, at concrete names.
use sandcastle_incus.Prelude.{◌≡◌, ◌≤◌, refl, length, ok}
use sandcastle_incus.Prelude.Text.{Text, codes, cut, trim_space}
use sandcastle_incus.Naming.Defs.{
  ProjectRef, every, safe_name, project_name, validate_tenant_name, validate_project_name,
  validate_project_ref, validate_incus_project_prefix, validate_incus_project_name,
  check_project_ref, parse_project_ref, show_project_ref,
}
use sandcastle_incus.Naming.Incus.{
  v2_tenant_infra_project_name, v2_project_name, v2_bridge_name, tenant_incus_project_name_checked,
}
use sandcastle_incus.Naming.Limits.{v2_bridge_name_short}
use sandcastle_incus.Naming.Projects.{
  v2_project_name_valid, v2_project_name_inj, v2_project_name_collides,
}
use sandcastle_incus.Naming.Refs.{parse-show_project_ref, show-parse_project_ref}

web_run : v2_project_name (codes "sc2 ") (codes "ann") (codes "web") ≡ ok (codes "sc2-ann-web")
unfolding v2_project_name v2_tenant_infra_project_name validate_incus_project_prefix
    validate_tenant_name validate_project_name safe_name project_name every trim_space
web_run = refl

v2_project_name_valid_example : validate_incus_project_name (codes "sc2-ann-web") ≡ ok tt
v2_project_name_valid_example =
    v2_project_name_valid (codes "sc2 ") (codes "ann") (codes "web") (codes "sc2-ann-web") web_run

v2_project_name_inj_example : codes "web" ≡ codes "web"
v2_project_name_inj_example =
    v2_project_name_inj (codes "sc2 ") (codes "ann") (codes "web") (codes "web")
      (codes "sc2-ann-web") web_run web_run

v2_project_name_collides_example :
    v2_tenant_infra_project_name (codes "sc2 ") (codes "ann-web") ≡ ok (codes "sc2-ann-web")
v2_project_name_collides_example =
    v2_project_name_collides (codes "sc2 ") (codes "ann") (codes "web") (codes "sc2-ann-web")
      web_run

-- A stand-in for the sum's digits.
abbrev digits : Text → Text
digits s = codes "0123456789abcdef0123456789abcdef01234567"

bridge_run :
    v2_bridge_name digits (codes "sc2") (codes "a-rather-long-handle")
    ≡ ok (codes "sc2-0123456789a")
unfolding v2_bridge_name v2_tenant_infra_project_name validate_incus_project_prefix
    validate_tenant_name safe_name every trim_space
bridge_run = refl

v2_bridge_name_short_example : length (codes "sc2-0123456789a") ≤ 15
v2_bridge_name_short_example =
    v2_bridge_name_short digits (codes "sc2") (codes "a-rather-long-handle")
      (codes "sc2-0123456789a") bridge_run

tenant_run :
    tenant_incus_project_name_checked (codes "sc") (codes "ann") (ok tt) ≡ ok (codes "sc-ann")
unfolding tenant_incus_project_name_checked validate_incus_project_prefix safe_name every trim_space
tenant_run = refl

abbrev ann_web : ProjectRef
ann_web = record { tenant = codes "ann"; project = codes "web" }

ann_web_valid : validate_project_ref ann_web ≡ ok tt
unfolding validate_project_ref validate_tenant_name validate_project_name safe_name project_name
    every trim_space
ann_web_valid = refl

parse-show_project_ref_example : parse_project_ref (show_project_ref ann_web) ≡ ok ann_web
unfolding trim_space
parse-show_project_ref_example = parse-show_project_ref ann_web ann_web_valid refl

parse_run : parse_project_ref (codes "ann/web") ≡ ok ann_web
unfolding parse_project_ref check_project_ref cut validate_project_ref validate_tenant_name
    validate_project_name safe_name project_name every trim_space
parse_run = refl

show-parse_project_ref_example : show_project_ref ann_web ≡ codes "ann/web"
unfolding trim_space
show-parse_project_ref_example = show-parse_project_ref (codes "ann/web") ann_web parse_run refl
