-- ===== src/Naming/Projects.antt =====
-- internal/naming/v2.go: what the names of Incus projects promise.
use sandcastle_incus.Prelude.{
  ℕ, ◌≤◌, ◌≡◌, refl, sym, ◌∙◌, ap, subst, arith, Bool, true, false, not, [], ◌∷◌, ◌++◌, length,
  length-append, ltb, Result, ok, fail_if, >>=-eq-ok, fail_if-eq-ok,
}
use sandcastle_incus.Prelude.Text.{Text, trim_space, trim_space_idem}
use sandcastle_incus.Domain.{is_nil}
use sandcastle_incus.Naming.Defs.{
  NamingError, is_name_char, every, safe_name, project_name, validate_tenant_name,
  validate_project_name, validate_incus_project_prefix, validate_incus_project_name,
}
use sandcastle_incus.Naming.Incus.{v2_tenant_infra_project_name, v2_project_name}
use sandcastle_incus.Naming.Shape.{
  safe_name-IsName, project_name-IsName, safe_name-append, IsName-trim_space, IsName-is_nil,
}

fail_if_ok : (b : Bool) (e : NamingError) {u : Unit {0}} → fail_if b e ≡ ok u → b ≡ false
fail_if_ok true e h = cc
fail_if_ok false e h = refl

not-false : (b : Bool) → not b ≡ false → b ≡ true
not-false b h = ground arith

pub ltb-false : (m n : ℕ) → ltb m n ≡ false → n ≤ m
ltb-false m n h = ground arith

le-ltb : (m n : ℕ) → n ≤ m → ltb m n ≡ false
le-ltb m n h = ground arith

pub ok_eq : (a b : Text) → ◌≡◌ {A = Result NamingError Text} (ok a) (ok b) → a ≡ b
ok_eq a b h = cc

prefix_safe :
    (prefix : Text) {u : Unit {0}}
    → validate_incus_project_prefix prefix ≡ ok u
    → safe_name prefix ≡ true
unfolding validate_incus_project_prefix
prefix_safe prefix h =
    let (_, h₁) = fail_if-eq-ok (is_nil (trim_space prefix)) _ _ h in
    not-false _ (fail_if_ok _ _ h₁)

-- What an infra project name is made of.
abbrev pub IsInfraName : Text → Text → Text → Type 0
IsInfraName prefix tenant n =
    (n ≡ trim_space prefix ++ b'-' ∷ tenant)
    × (safe_name (trim_space prefix) ≡ true)
    × (safe_name tenant ≡ true)
    × (length n ≤ 63)

infra_ok :
    (prefix tenant n : Text)
    → v2_tenant_infra_project_name prefix tenant ≡ ok n
    → IsInfraName prefix tenant n
unfolding v2_tenant_infra_project_name validate_tenant_name
infra_ok prefix tenant n h =
    let (_, safe, h₁) = >>=-eq-ok (validate_incus_project_prefix (trim_space prefix)) _ h in
    let (bad, h₂) = fail_if-eq-ok (not (safe_name tenant)) _ _ h₁ in
    let (long, h₃) = fail_if-eq-ok (ltb 63 (length (trim_space prefix ++ b'-' ∷ tenant))) _ _ h₂ in
    let same = ok_eq _ _ h₃ in
    (
      sym same,
      prefix_safe (trim_space prefix) safe,
      not-false _ bad,
      subst (λ m. length m ≤ 63) same (ltb-false 63 _ long),
    )

-- What a project's name is made of.
project_ok :
    (prefix tenant project n : Text)
    → v2_project_name prefix tenant project ≡ ok n
    → (infra : Text) × (v2_tenant_infra_project_name prefix tenant ≡ ok infra)
      × (project_name project ≡ true)
      × (n ≡ infra ++ b'-' ∷ project)
      × (length n ≤ 63)
unfolding v2_project_name validate_project_name
project_ok prefix tenant project n h =
    let (infra, made, h₁) = >>=-eq-ok (v2_tenant_infra_project_name prefix tenant) _ h in
    let (bad, h₂) = fail_if-eq-ok (not (project_name project)) _ _ h₁ in
    let (long, h₃) = fail_if-eq-ok (ltb 63 (length (infra ++ b'-' ∷ project))) _ _ h₂ in
    let same = ok_eq _ _ h₃ in
    (infra, made, not-false _ bad, sym same, subst (λ m. length m ≤ 63) same (ltb-false 63 _ long))

dashed : (s : Text) → every is_name_char s ≡ true → every is_name_char (b'-' ∷ s) ≡ true
unfolding every
dashed s h = h

append_assoc : (a b c : Text) → (a ++ b) ++ c ≡ a ++ (b ++ c)
append_assoc [] b c = refl
append_assoc (x ∷ a) b c = ap (λ s. x ∷ s) (append_assoc a b c)

infra_safe : (prefix tenant n : Text) → IsInfraName prefix tenant n → safe_name n ≡ true
infra_safe prefix tenant n (made, safe, tenant_safe, short) =
    subst (λ m. safe_name m ≡ true) (sym made)
      (safe_name-append (trim_space prefix) (b'-' ∷ tenant) safe
        (dashed tenant (safe_name-IsName tenant tenant_safe).0)
        (subst (λ m. length m ≤ 63) made short))

project_safe :
    (prefix tenant project n : Text)
    → v2_project_name prefix tenant project ≡ ok n
    → safe_name n ≡ true
project_safe prefix tenant project n h =
    let (infra, made, good, same, short) = project_ok prefix tenant project n h in
    subst (λ m. safe_name m ≡ true) (sym same)
      (safe_name-append infra (b'-' ∷ project)
        (infra_safe prefix tenant infra (infra_ok prefix tenant infra made))
        (dashed project (project_name-IsName project good).0)
        (subst (λ m. length m ≤ 63) same short))

valid_of_safe : (n : Text) → safe_name n ≡ true → validate_incus_project_name n ≡ ok tt
unfolding validate_incus_project_name
valid_of_safe n safe =
    let shape = safe_name-IsName n safe in
    rw (IsName-trim_space n shape, IsName-is_nil n shape, safe)

-- Every name that V2ProjectName returns is a valid Incus project name.
pub v2_project_name_valid :
    (prefix tenant project n : Text)
    → v2_project_name prefix tenant project ≡ ok n
    → validate_incus_project_name n ≡ ok tt
v2_project_name_valid prefix tenant project n h =
    valid_of_safe n (project_safe prefix tenant project n h)

cancel : (a b c : Text) → a ++ b ≡ a ++ c → b ≡ c
cancel [] b c h = h
cancel (x ∷ a) b c h = cancel a b c (tail_eq (x ∷ (a ++ b)) (x ∷ (a ++ c)) h)
  where
    rest : Text → Text
    rest [] = []
    rest (d ∷ s) = s

    tail_eq : (s t : Text) → s ≡ t → rest s ≡ rest t
    tail_eq s t e = ap rest e

-- Two projects of one tenant that get the same Incus project name are the same project.
pub v2_project_name_inj :
    (prefix tenant p q n : Text)
    → v2_project_name prefix tenant p ≡ ok n
    → v2_project_name prefix tenant q ≡ ok n
    → p ≡ q
v2_project_name_inj prefix tenant p q n hp hq =
    let (infra, made, _, same, _) = project_ok prefix tenant p n hp in
    let (infra', made', _, same', _) = project_ok prefix tenant q n hq in
    let one : infra ≡ infra' = ok_eq infra infra' (sym made ∙ made') in
    cancel (b'-' ∷ []) p q
      (cancel infra (b'-' ∷ p) (b'-' ∷ q) (sym same ∙ same' ∙ ap (λ i. i ++ b'-' ∷ q) (sym one)))

infra_intro :
    (prefix tenant : Text)
    → safe_name (trim_space prefix) ≡ true
    → safe_name tenant ≡ true
    → length (trim_space prefix ++ b'-' ∷ tenant) ≤ 63
    → v2_tenant_infra_project_name prefix tenant ≡ ok (trim_space prefix ++ b'-' ∷ tenant)
unfolding v2_tenant_infra_project_name validate_tenant_name validate_incus_project_prefix
infra_intro prefix tenant safe tenant_safe short =
    let shape = safe_name-IsName (trim_space prefix) safe in
    rw (
      trim_space_idem prefix,
      IsName-is_nil (trim_space prefix) shape,
      safe,
      tenant_safe,
      le-ltb 63 _ short,
    )

-- When V2ProjectName names the project p of the tenant t, V2TenantInfraProjectName gives the same
-- name to the tenant t-p.
pub v2_project_name_collides :
    (prefix tenant project n : Text)
    → v2_project_name prefix tenant project ≡ ok n
    → v2_tenant_infra_project_name prefix (tenant ++ b'-' ∷ project) ≡ ok n
v2_project_name_collides prefix tenant project n h =
    let (infra, made, good, same, short) = project_ok prefix tenant project n h in
    let (whole, safe, tenant_safe, _) = infra_ok prefix tenant infra made in
    let t = trim_space prefix in
    let joined : n ≡ t ++ b'-' ∷ (tenant ++ b'-' ∷ project) =
      same
      ∙ ap (λ i. i ++ b'-' ∷ project) whole
      ∙ append_assoc t (b'-' ∷ tenant) (b'-' ∷ project) in
    let fits : length (t ++ b'-' ∷ (tenant ++ b'-' ∷ project)) ≤ 63 =
      subst (λ m. length m ≤ 63) joined short in
    infra_intro prefix (tenant ++ b'-' ∷ project) safe
      (safe_name-append tenant (b'-' ∷ project) tenant_safe
        (dashed project (project_name-IsName project good).0)
        (omega (arith, fits, length-append t (b'-' ∷ (tenant ++ b'-' ∷ project)))))
      fits
    ∙ ap ok (sym joined)
