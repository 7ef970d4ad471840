-- ===== src/Domain/Tests.antt =====
-- The theorems on DNS names, at concrete names.
use sandcastle_incus.Prelude.{◌≡◌, ◌↔◌, refl, true, ok}
use sandcastle_incus.Prelude.Text.{
  codes, has_char, has_prefix, has_suffix, trim_suffix, trim_space, trim_left, trim_right, to_lower,
  contains_any, split,
}
use sandcastle_incus.Domain.Names.{
  lower_trim, lower_trim_dots, normalize_dns_name, check_marks, marked_label,
  validate_domain_labels, bad_label, normalize_project_domain, covered_by_project_certificate,
}
use sandcastle_incus.Domain.Shape.{IsDottedName}
use sandcastle_incus.Domain.Normal.{normalize_project_domain_iff}
use sandcastle_incus.Domain.Wildcard.{covered_iff, CoveredName}

shop_run : normalize_project_domain (codes " Shop.ex.dev. ") ≡ ok (codes "shop.ex.dev")
unfolding normalize_project_domain normalize_dns_name check_marks marked_label
    validate_domain_labels bad_label lower_trim has_char has_prefix has_suffix trim_suffix
    trim_space trim_left trim_right to_lower contains_any split
shop_run = refl

normalize_project_domain_iff_example :
    (normalize_project_domain (codes " Shop.ex.dev. ") ≡ ok (codes "shop.ex.dev")) ↔ (
      (codes "shop.ex.dev" ≡ lower_trim (codes " Shop.ex.dev. "))
      × IsDottedName (codes "shop.ex.dev"))
normalize_project_domain_iff_example =
    normalize_project_domain_iff (codes " Shop.ex.dev. ") (codes "shop.ex.dev")

covered_iff_example :
    (covered_by_project_certificate (codes "Api.shop.ex.dev") (codes "shop.ex.dev.") ≡ true)
    ↔ CoveredName
        (lower_trim_dots (codes "Api.shop.ex.dev"))
        (lower_trim_dots (codes "shop.ex.dev."))
covered_iff_example = covered_iff (codes "Api.shop.ex.dev") (codes "shop.ex.dev.")
