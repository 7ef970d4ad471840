-- ===== src/Domain/Policy.antt =====
-- internal/domain/validate.go: the admin's policy on Tenant DNS Suffixes.
use sandcastle_incus.Prelude.{
  Bool, ◌||◌, List, [], ◌∷◌, Option, none, some, if◌then◌else◌, exists, find_first, Result, ok, err,
  ◌>>=◌, ◌>>◌, fail_if, map_err,
}
use sandcastle_incus.Prelude.Text.{Text, codes, has_suffix, has_char, trim_space, teq}
use sandcastle_incus.Domain.Names.{
  DomainError, required, one_label, bad_policy, special_use, public_tld, admin_denied, is_nil,
  lower_trim, validate_domain_labels, normalize_policy_suffix,
}

pub record Policy : Type 0 where
  pub allowed_suffixes : List Text
  pub denied_suffixes : List Text

-- `domain == suffix || strings.HasSuffix(domain, "."+suffix)`
unfoldable pub at_or_under : Text → Text → Bool
at_or_under name parent = teq name parent || has_suffix name (b'.' ∷ parent)

-- Blank entries are skipped, the rest is normalised in order.
unfoldable pub normalize_policy_suffixes : Text → List Text → Result DomainError (List Text)
normalize_policy_suffixes kind [] = ok []
normalize_policy_suffixes kind (s ∷ suffixes) =
    let rest = normalize_policy_suffixes kind suffixes in
    if is_nil (trim_space s)
    then rest
    else do n ← map_err (bad_policy kind s) (normalize_policy_suffix s); ns ← rest; ok (n ∷ ns)

unfoldable pub suffix_allowed : Text → List Text → Bool
suffix_allowed domain suffixes = exists (at_or_under domain) suffixes

-- The first name of the table, in the order in which it is walked.
unfoldable pub denied_special_use_domain : List Text → Text → Option Text
denied_special_use_domain special_use_names domain =
    find_first (at_or_under domain) special_use_names

module _ (special_use_names public_tlds : List Text) where
  -- The denials that the allow list lifts.
  unfoldable pub check_public : Text → List Text → Result DomainError (Unit {0})
  check_public suffix allowed =
      if suffix_allowed suffix allowed
      then ok tt
      else elim (denied_special_use_domain special_use_names suffix) [
        | some name ↦ err (special_use suffix name)
        | none ↦ fail_if (exists (teq suffix) public_tlds) (public_tld suffix)
      ]

  unfoldable pub check_denied : Text → List Text → Result DomainError (Unit {0})
  check_denied suffix denied = elim (find_first (at_or_under suffix) denied) [
    | some d ↦ err (admin_denied suffix d)
    | none ↦ ok tt
  ]

  unfoldable pub validate_tenant_dns_suffix : Text → Policy → Result DomainError Text
  validate_tenant_dns_suffix value policy = do
    let suffix = lower_trim value
    fail_if (is_nil suffix) (required (codes "tenant DNS suffix"))
    fail_if (has_char b'.' suffix) (one_label suffix)
    validate_domain_labels suffix value (codes "tenant DNS suffix")
    allowed ← normalize_policy_suffixes (codes "allowed") policy.allowed_suffixes
    denied ← normalize_policy_suffixes (codes "denied") policy.denied_suffixes
    check_public suffix allowed
    check_denied suffix denied
    ok suffix
