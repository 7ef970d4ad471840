-- ===== src/Naming/Limits.antt =====
-- internal/naming/naming.go and v2.go: the lengths of names, and the installation prefix.
use sandcastle_incus.Prelude.{
  ℕ, zero, suc, ◌≤◌, ◌≡◌, refl, sym, ◌∙◌, ap, subst, arith, true, false, ◌||◌, [], ◌∷◌, ◌++◌, inl,
  inr, Bool-cases, if◌then◌else◌, length, length-append, take, leb, ltb, Result, ok, >>=-eq-ok,
  fail_if-eq-ok,
}
use sandcastle_incus.Prelude.Text.{Text, codes, teq, trim_space, trim_space_idem}
use sandcastle_incus.Domain.{is_nil}
use sandcastle_incus.Naming.Defs.{
  NamingError, validate_incus_project_prefix, default_incus_project_prefix,
}
use sandcastle_incus.Naming.Incus.{
  v2_tenant_infra_project_name, v2_bridge_name, normalize_v2_prefix,
  tenant_incus_project_name_checked, v2_incus_project_prefix,
}
use sandcastle_incus.Naming.Projects.{ltb-false, ok_eq}

take_short : (n : ℕ) (s : Text) → length (take n s) ≤ n
take_short zero s = omega arith
take_short (suc n) [] = omega arith
take_short (suc n) (c ∷ s) = omega (arith, take_short n s)

leb_elim : (m n : ℕ) → leb m n ≡ true → m ≤ n
leb_elim m n h = ground arith

bridge_short :
    (infra hex : Text)
    → length (if leb (length infra) 15 then infra else codes "sc2-" ++ take 11 hex) ≤ 15
bridge_short infra hex = elim (Bool-cases (leb (length infra) 15)) [
  | inl e ↦ rw e (leb_elim _ _ e)
  | inr e ↦ rw e (omega (arith, take_short 11 hex))
]

-- A bridge name has at most 15 characters.
pub v2_bridge_name_short :
    (sha1_hex : Text → Text) (prefix tenant n : Text)
    → v2_bridge_name sha1_hex prefix tenant ≡ ok n
    → length n ≤ 15
unfolding v2_bridge_name
v2_bridge_name_short sha1_hex prefix tenant n h =
    let (infra, _, h₁) = >>=-eq-ok (v2_tenant_infra_project_name prefix tenant) _ h in
    subst (λ m. length m ≤ 15) (ok_eq _ _ h₁) (bridge_short infra (sha1_hex infra))

-- Whatever the caller checked, a tenant project name with the suffix -native has at most 63
-- characters.
pub tenant_project_name_short :
    (prefix tenant n : Text) (validated : Result NamingError (Unit {0}))
    → tenant_incus_project_name_checked prefix tenant validated ≡ ok n
    → length (n ++ codes "-native") ≤ 63
unfolding tenant_incus_project_name_checked
tenant_project_name_short prefix tenant n validated h =
    let name = trim_space prefix ++ b'-' ∷ tenant in
    let (_, _, h₁) = >>=-eq-ok (validate_incus_project_prefix (trim_space prefix)) _ h in
    let (_, _, h₂) = >>=-eq-ok validated _ h₁ in
    let (long, h₃) = fail_if-eq-ok (ltb 56 (length name)) _ _ h₂ in
    let room : length (name ++ codes "-native") ≤ 63 =
      omega (arith, length-append name (codes "-native"), ltb-false 56 (length name) long) in
    subst (λ m. length (m ++ codes "-native") ≤ 63) (ok_eq _ _ h₃) room

prefix_kept :
    (t : Text)
    → trim_space t ≡ t
    → is_nil t || teq t default_incus_project_prefix ≡ false
    → normalize_v2_prefix t ≡ t
unfolding normalize_v2_prefix
prefix_kept t clean h = rw (clean, h)

default_kept : normalize_v2_prefix v2_incus_project_prefix ≡ v2_incus_project_prefix
unfolding normalize_v2_prefix trim_space teq
default_kept = refl

-- Normalising an installation prefix twice is normalising it once.
pub normalize_v2_prefix_idem :
    (prefix : Text) → normalize_v2_prefix (normalize_v2_prefix prefix) ≡ normalize_v2_prefix prefix
unfolding normalize_v2_prefix
normalize_v2_prefix_idem prefix =
    elim (Bool-cases
      (is_nil (trim_space prefix) || teq (trim_space prefix) default_incus_project_prefix)) [
        | inl e ↦ ap normalize_v2_prefix (first e) ∙ default_kept ∙ sym (first e)
        | inr e ↦
            ap normalize_v2_prefix (second e)
            ∙ prefix_kept (trim_space prefix) (trim_space_idem prefix) e
            ∙ sym (second e)
      ]
  where
    first :
        is_nil (trim_space prefix) || teq (trim_space prefix) default_incus_project_prefix ≡ true
        → normalize_v2_prefix prefix ≡ v2_incus_project_prefix
    first e = rw e

    second :
        is_nil (trim_space prefix) || teq (trim_space prefix) default_incus_project_prefix ≡ false
        → normalize_v2_prefix prefix ≡ trim_space prefix
    second e = rw e
