-- ===== src/Domain/Normal.antt =====
-- The normalising functions accept exactly the dotted names, up to case, outer spaces and one dot.
use sandcastle_incus.Prelude.{
  ℕ, ◌≡◌, ◌↔◌, refl, subst, sym, Bool, true, false, not, List, [], ◌∷◌, ◌++◌, arith, All, All-imp,
  All-of_exists_false, exists_false_of_All, find_first-none_of_All, ok, fail_if, >>=-eq-ok,
}
use sandcastle_incus.Prelude.Text.{
  Text, codes, has_prefix, has_suffix, has_char, split, contains_any, split-append, All-of-split,
  to_lower_fixed, trim_space_fixed, trim_suffix_fixed, has_suffix-false, lower_char, is_space,
}
use sandcastle_incus.Domain.Names.{
  required, two_labels, is_nil, bad_label, validate_domain_labels, lower_trim, marked_label,
  check_marks, normalize_dns_name, normalize_project_domain, normalize_machine_hostname,
  normalize_public_dns_zone,
}
use sandcastle_incus.Domain.Shape.{
  IsNameChar, IsLabel, IsDottedName, IsLabel-of_bad_label, bad_label_of_IsLabel, IsNameChar-lower,
  IsNameChar-not_space,
}

-- A character of a dotted name.
abbrev IsDnsChar : ℕ → Type 0
IsDnsChar c = (lower_char c ≡ c) × (is_space c ≡ false) × (has_char c (codes "/ ") ≡ false)

IsNameChar-IsDnsChar : (c : ℕ) → IsNameChar c → IsDnsChar c
unfolding has_char
IsNameChar-IsDnsChar c h = (IsNameChar-lower c h, IsNameChar-not_space c h, ground arith)

dot-IsDnsChar : IsDnsChar b'.'
unfolding has_char
dot-IsDnsChar = (refl, refl, refl)

IsDottedName-chars : (d : Text) → IsDottedName d → All IsDnsChar d
IsDottedName-chars d h =
    All-of-split IsDnsChar b'.' dot-IsDnsChar d
      (All-imp _ _ (split b'.' d) (λ l hl. All-imp _ _ l IsNameChar-IsDnsChar hl.1) h)

All-right {ℓ κ} : {A : Type ℓ} (P : A → Type κ) (xs ys : List A) → All P (xs ++ ys) → All P ys
All-right P [] ys h = h
All-right P (x ∷ xs) ys h = All-right P xs ys h.1

-- The last label of a dotted name is not empty, so the name does not end in a dot.
IsDottedName-no_dot : (d : Text) → IsDottedName d → has_suffix d (codes ".") ≡ false
IsDottedName-no_dot d h = has_suffix-false d (codes ".") λ r e.
    let last : All IsLabel (split b'.' []) =
      All-right IsLabel (split b'.' r) (split b'.' []) (rw (e, split-append b'.' r []) at h) in
    unfold split in last.0.0 refl

pub lower_trim_fixed : (d : Text) → IsDottedName d → lower_trim d ≡ d
unfolding lower_trim
lower_trim_fixed d h =
    let chars = IsDottedName-chars d h in
    rw
      (
        trim_space_fixed d (All-imp _ _ d (λ c p. p.1) chars),
        to_lower_fixed d (All-imp _ _ d (λ c p. p.0) chars),
      )
      (trim_suffix_fixed d (codes ".") (IsDottedName-no_dot d h))

contains_any-false :
    (d chars : Text) → All (λ c. has_char c chars ≡ false) d → contains_any d chars ≡ false
unfolding contains_any
contains_any-false [] chars h = refl
contains_any-false (c ∷ d) chars h = rw h.0 (contains_any-false d chars h.1)

pub validate_complete :
    (d original label : Text) → IsDottedName d → validate_domain_labels d original label ≡ ok tt
unfolding validate_domain_labels
validate_complete d original label h = rw (
  contains_any-false d (codes "/ ") (All-imp _ _ d (λ c p. p.2) (IsDottedName-chars d h)),
  exists_false_of_All bad_label (split b'.' d) (All-imp _ _ (split b'.' d) bad_label_of_IsLabel h),
)

not-false : (b : Bool) → not b ≡ false → b ≡ true
not-false b h = ground arith

fail_if_ok {ℓ} : {E : Type ℓ} (b : Bool) (e : E) {u : Unit {0}} → fail_if b e ≡ ok u → b ≡ false
fail_if_ok true e h = cc
fail_if_ok false e h = refl

pub validate_sound :
    (d original label : Text) {u : Unit {0}}
    → validate_domain_labels d original label ≡ ok u
    → IsDottedName d
unfolding validate_domain_labels
validate_sound d original label h =
    let (_, _, e) = >>=-eq-ok (fail_if (contains_any d (codes "/ ")) _) _ h in
    All-imp _ _ (split b'.' d) IsLabel-of_bad_label
      (All-of_exists_false bad_label (split b'.' d) (fail_if_ok _ _ e))

marked_false : (l : Text) → IsLabel l → marked_label l ≡ false
unfolding marked_label has_prefix
marked_false [] h = refl
marked_false (c ∷ l) h = let first = h.1.0 in ground arith

pub check_marks_complete :
    (kind value d : Text) → IsDottedName d → check_marks kind value (split b'.' d) ≡ ok tt
unfolding check_marks
check_marks_complete kind value d h = rw (
  find_first-none_of_All marked_label (split b'.' d) (All-imp _ _ (split b'.' d) marked_false h),
  check_marks,
)

IsDottedName-is_nil : (d : Text) → IsDottedName d → is_nil d ≡ false
unfolding split
IsDottedName-is_nil [] h = absurd (h.0.0 refl)
IsDottedName-is_nil (c ∷ d) h = refl

pub normalize_complete :
    (kind d value : Text)
    → lower_trim value ≡ d
    → IsDottedName d
    → normalize_dns_name kind value ≡ ok d
unfolding normalize_dns_name
normalize_complete kind d value e h = rw (
  e,
  IsDottedName-is_nil d h,
  check_marks_complete kind value d h,
  validate_complete d value kind h,
)

pub normalize_sound :
    (kind value d : Text)
    → normalize_dns_name kind value ≡ ok d
    → (d ≡ lower_trim value) × IsDottedName d
unfolding normalize_dns_name
normalize_sound kind value d h =
    let name = lower_trim value in
    let (_, _, h₁) = >>=-eq-ok (fail_if (is_nil name) (required kind)) _ h in
    let (_, _, h₂) = >>=-eq-ok (check_marks kind value (split b'.' name)) _ h₁ in
    let (_, valid, h₃) = >>=-eq-ok (validate_domain_labels name value kind) _ h₂ in
    let same : name ≡ d = cc in
    (sym same, subst IsDottedName same (validate_sound name value kind valid))

-- A Project Domain is accepted as d exactly when d is the lower-case text without outer spaces and
-- one trailing dot, and the parts of d between dots are not empty, have lower-case letters, digits
-- and dashes only, and no dash at either end. A part may have any length: the bound of 63
-- characters on a DNS label is not checked here.
pub normalize_project_domain_iff :
    (value d : Text)
    → (normalize_project_domain value ≡ ok d) ↔ ((d ≡ lower_trim value) × IsDottedName d)
unfolding normalize_project_domain
normalize_project_domain_iff value d = (
  normalize_sound (codes "project domain") value d,
  λ h. normalize_complete (codes "project domain") d value (sym h.0) h.1,
)

-- What a Project Domain is normalised to is accepted and normalised to itself.
pub normalize_project_domain_idem :
    (value d : Text) → normalize_project_domain value ≡ ok d → normalize_project_domain d ≡ ok d
normalize_project_domain_idem value d h =
    let (_, name) = (normalize_project_domain_iff value d).0 h in
    (normalize_project_domain_iff d d).1 (sym (lower_trim_fixed d name), name)

-- A Machine Public Hostname without a wildcard is accepted as d exactly when d is the lower-case
-- text without outer spaces and one trailing dot, and d is a dotted name.
pub normalize_machine_hostname_iff :
    (value d : Text)
    → (normalize_machine_hostname value ≡ ok d) ↔ ((d ≡ lower_trim value) × IsDottedName d)
unfolding normalize_machine_hostname
normalize_machine_hostname_iff value d = (
  normalize_sound (codes "machine hostname") value d,
  λ h. normalize_complete (codes "machine hostname") d value (sym h.0) h.1,
)

-- A Public DNS Zone is accepted as d exactly when d is the lower-case text without outer spaces
-- and one trailing dot, d is a dotted name, and it has a dot.
pub normalize_public_dns_zone_iff :
    (value d : Text)
    → (normalize_public_dns_zone value ≡ ok d)
      ↔ ((d ≡ lower_trim value) × IsDottedName d × (has_char b'.' d ≡ true))
unfolding normalize_public_dns_zone
normalize_public_dns_zone_iff value d = (
  (λ h.
      let zone = lower_trim value in
      let (_, _, h₁) = >>=-eq-ok (fail_if (is_nil zone) (required (codes "public DNS zone"))) _ h in
      let (_, valid, h₂) =
        >>=-eq-ok (validate_domain_labels zone value (codes "public DNS zone")) _ h₁ in
      let (_, dotted, h₃) =
        >>=-eq-ok (fail_if (not (has_char b'.' zone)) (two_labels value)) _ h₂ in
      let same : zone ≡ d = cc in
      (
        sym same,
        subst IsDottedName same (validate_sound zone value (codes "public DNS zone") valid),
        subst (λ z. has_char b'.' z ≡ true) same (not-false _ (fail_if_ok _ _ dotted)),
      )),
  (λ h. rw (
    sym h.0,
    IsDottedName-is_nil d h.1,
    validate_complete d value (codes "public DNS zone") h.1,
    h.2,
  )),
)
