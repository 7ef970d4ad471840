-- ===== src/Naming/Refs.antt =====
-- internal/naming/naming.go: references are printed and parsed back.
use sandcastle_incus.Prelude.{
  ℕ, ◌≡◌, refl, sym, ◌∙◌, ap, arith, true, false, [], ◌∷◌, ◌++◌, Option, none, some, inl, inr,
  Bool-cases, &&-eq-true, ◌==◌, Result, ok, err, >>=-eq-ok,
}
use sandcastle_incus.Prelude.Text.{Text, cut, trim_space}
use sandcastle_incus.Domain.{is_nil}
use sandcastle_incus.Naming.Defs.{
  NamingError, no_slash, ProjectRef, is_name_char, every, safe_name, validate_tenant_name,
  validate_project_name, validate_project_ref, check_project_ref, parse_project_ref,
  show_project_ref,
}
use sandcastle_incus.Naming.Shape.{safe_name-IsName}

not_slash : (c : ℕ) → is_name_char c ≡ true → (c == b'/') ≡ false
not_slash c h = ground arith

-- `Cut` parts a name and what follows the slash.
cut-append : (a b : Text) → every is_name_char a ≡ true → cut b'/' (a ++ b'/' ∷ b) ≡ some (a, b)
unfolding cut every
cut-append [] b h = refl
cut-append (c ∷ a) b h =
    let (hc, hs) = &&-eq-true (is_name_char c) (every is_name_char a) h in
    rw (not_slash c hc, cut-append a b hs)

eq_of_== : (c d : ℕ) → (c == d) ≡ true → c ≡ d
eq_of_== c d h = ground arith

-- What `Cut` returns, put together with the slash, is what it was given.
cut-some : (s a b : Text) → cut b'/' s ≡ some (a, b) → s ≡ a ++ b'/' ∷ b
unfolding cut
cut-some [] a b h = cc
cut-some (c ∷ s) a b h = elim (Bool-cases (c == b'/')) [
  | inl e ↦ here (eq_of_== c b'/' e) (rw e at h)
  | inr e ↦ later (cut-some s) (cut b'/' s) refl (rw e at h)
]
  where
    pair_eq : (p q : Text × Text) → some p ≡ some q → p ≡ q
    pair_eq p q e = cc

    none_not_some : (p : Text × Text) → ¬ (none ≡ some p)
    none_not_some p e = cc

    here :
        c ≡ b'/'
        → ◌≡◌ {A = Option (Text × Text)} (some ([], s)) (some (a, b))
        → c ∷ s ≡ a ++ b'/' ∷ b
    here e k =
        let same = pair_eq ([], s) (a, b) k in
        ap (λ d. d ∷ s) e ∙ ap (λ (p : Text × Text). p.0 ++ b'/' ∷ p.1) same

    later :
        ((a' b' : Text) → cut b'/' s ≡ some (a', b') → s ≡ a' ++ b'/' ∷ b')
        → (o : Option (Text × Text)) → cut b'/' s ≡ o
        → ◌≡◌ {A = Option (Text × Text)}
            (elim o as (λ _. Option (Text × Text)) [
              | none ↦ none
              | some (a', b') ↦ some (c ∷ a', b')
            ])
            (some (a, b))
        → c ∷ s ≡ a ++ b'/' ∷ b
    later rest none e k = absurd (none_not_some (a, b) k)
    later rest (some (a', b')) e k =
        let same = pair_eq (c ∷ a', b') (a, b) k in
        ap (λ t. c ∷ t) (rest a' b' e) ∙ ap (λ (p : Text × Text). p.0 ++ b'/' ∷ p.1) same

tenant_safe :
    (name : Text) {u : Unit {0}} → validate_tenant_name name ≡ ok u → safe_name name ≡ true
unfolding validate_tenant_name
tenant_safe name h = elim (Bool-cases (safe_name name)) [
  | inl e ↦ e
  | inr e ↦ absurd (refused _ (rw e at h))
]
  where
    refused :
        (e : NamingError) {u : Unit {0}}
        → ◌≡◌ {A = Result NamingError (Unit {0})} (err e) (ok u)
        → ⊥
    refused e k = cc

-- A valid project reference with a tenant is parsed back from its text.
pub parse-show_project_ref :
    (r : ProjectRef)
    → validate_project_ref r ≡ ok tt
    → is_nil (trim_space r.tenant) ≡ false
    → parse_project_ref (show_project_ref r) ≡ ok r
unfolding parse_project_ref show_project_ref check_project_ref validate_project_ref
parse-show_project_ref r valid named =
    let (_, tenant_valid, _) =
      >>=-eq-ok (validate_tenant_name r.tenant) (λ _. validate_project_name r.project)
        (rw named at valid) in
    rw
      (
        named,
        cut-append r.tenant r.project
            (safe_name-IsName r.tenant (tenant_safe r.tenant tenant_valid)).0,
      )
      (rw named (rw (rw named at valid)))

-- A text that is parsed to a project reference with a tenant is the text of that reference.
pub show-parse_project_ref :
    (value : Text) (r : ProjectRef)
    → parse_project_ref value ≡ ok r
    → is_nil (trim_space r.tenant) ≡ false
    → show_project_ref r ≡ value
unfolding parse_project_ref show_project_ref check_project_ref
show-parse_project_ref value r h named = rw named (parts (cut b'/' value) refl h)
  where
    refused : (e : NamingError) → ◌≡◌ {A = Result NamingError ProjectRef} (err e) (ok r) → ⊥
    refused e k = cc

    ref_eq : (p q : ProjectRef) → ◌≡◌ {A = Result NamingError ProjectRef} (ok p) (ok q) → p ≡ q
    ref_eq p q e = cc

    parts :
        (o : Option (Text × Text))
        → cut b'/' value ≡ o
        → check_project_ref o ≡ ok r
        → r.tenant ++ b'/' ∷ r.project ≡ value
    parts none e k = absurd (refused no_slash k)
    parts (some (tenant, project)) e k =
        let (_, _, k') =
          >>=-eq-ok (validate_project_ref (record { tenant = tenant; project = project })) _ k in
        ap (λ (p : ProjectRef). p.tenant ++ b'/' ∷ p.project)
          (sym (ref_eq (record { tenant = tenant; project = project }) r k'))
        ∙ sym (cut-some value tenant project e)
