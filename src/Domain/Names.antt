-- ===== src/Domain/Names.antt =====
-- internal/domain/validate.go: the names that tenants and admins may ask for.
use sandcastle_incus.Prelude.{
  ℕ, Bool, true, false, not, ◌&&◌, ◌||◌, List, [], ◌∷◌, none, some, if◌then◌else◌, ltb, ◌==◌,
  exists, find_first, take, Result, ok, err, ◌>>◌, fail_if,
}
use sandcastle_incus.Prelude.Text.{
  Text, codes, has_prefix, has_suffix, trim_prefix, trim_suffix, to_lower, trim_space, trim_dots,
  has_char, contains_any, split,
}

-- The refusals; `invalid` and `required` carry what the message names.
pub data DomainError : Type 0 where
  required : Text → DomainError
  invalid : Text → Text → DomainError
  label_prefix : Text → Text → Text → DomainError
  one_label : Text → DomainError
  two_labels : Text → DomainError
  bad_policy : Text → Text → DomainError → DomainError
  special_use : Text → Text → DomainError
  public_tld : Text → DomainError
  admin_denied : Text → Text → DomainError

-- `part == ""`
abbrev pub is_nil : Text → Bool
is_nil [] = true
is_nil (c ∷ s) = false

-- The test on one rune of a label.
abbrev pub bad_rune : ℕ → Bool
bad_rune r = (ltb r b'a' || ltb b'z' r) && ((ltb r b'0' || ltb b'9' r) && not (r == b'-'))

unfoldable pub bad_label : Text → Bool
bad_label part =
    is_nil part
    || (has_prefix part (b'-' ∷ []) || (has_suffix part (b'-' ∷ []) || exists bad_rune part))

unfoldable pub validate_domain_labels : Text → Text → Text → Result DomainError (Unit {0})
validate_domain_labels domain original label = do
  fail_if (contains_any domain (codes "/ ")) (invalid label original)
  fail_if (exists bad_label (split b'.' domain)) (invalid label original)

-- `strings.TrimSuffix(strings.ToLower(strings.TrimSpace(value)), ".")`
unfoldable pub lower_trim : Text → Text
lower_trim value = trim_suffix (to_lower (trim_space value)) (codes ".")

unfoldable pub normalize_policy_suffix : Text → Result DomainError Text
normalize_policy_suffix value = do
  let suffix = trim_prefix (lower_trim value) (codes ".")
  fail_if (is_nil suffix) (required (codes "domain suffix"))
  validate_domain_labels suffix value (codes "domain suffix")
  ok suffix

unfoldable pub normalize_public_dns_zone : Text → Result DomainError Text
normalize_public_dns_zone value = do
  let zone = lower_trim value
  fail_if (is_nil zone) (required (codes "public DNS zone"))
  validate_domain_labels zone value (codes "public DNS zone")
  fail_if (not (has_char b'.' zone)) (two_labels value)
  ok zone

-- A label that starts with `_` or `*`.
unfoldable pub marked_label : Text → Bool
marked_label label = has_prefix label (codes "_") || has_prefix label (codes "*")

-- The loop over the labels of a Project Domain or a Machine Public Hostname.
unfoldable pub check_marks : Text → Text → List Text → Result DomainError (Unit {0})
check_marks kind value labels = elim (find_first marked_label labels) [
  | none ↦ ok tt
  | some label ↦ err (label_prefix kind value (take 1 label))
]

-- The text that `NormalizeProjectDomain` and `NormalizeMachineHostname` share, but for the kind.
unfoldable pub normalize_dns_name : Text → Text → Result DomainError Text
normalize_dns_name kind value = do
  let domain = lower_trim value
  fail_if (is_nil domain) (required kind)
  check_marks kind value (split b'.' domain)
  validate_domain_labels domain value kind
  ok domain

unfoldable pub normalize_project_domain : Text → Result DomainError Text
normalize_project_domain value = normalize_dns_name (codes "project domain") value

unfoldable pub normalize_machine_hostname : Text → Result DomainError Text
normalize_machine_hostname value = normalize_dns_name (codes "machine hostname") value

-- `strings.ToLower(strings.Trim(strings.TrimSpace(value), "."))`
unfoldable pub lower_trim_dots : Text → Text
lower_trim_dots value = to_lower (trim_dots (trim_space value))

-- internal/domain/project_certificate.go
unfoldable pub covered_by_project_certificate : Text → Text → Bool
covered_by_project_certificate hostname project_domain =
    let h = lower_trim_dots hostname in
    let d = lower_trim_dots project_domain in
    let label = trim_suffix h (b'.' ∷ d) in
    if is_nil d || not (has_suffix h (b'.' ∷ d))
    then false
    else not (is_nil label) && not (contains_any label (codes ".*"))
