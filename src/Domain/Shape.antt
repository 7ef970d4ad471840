-- ===== src/Domain/Shape.antt =====
-- What a normalised name looks like, said without the code's tests.
use sandcastle_incus.Prelude.{
  ℕ, ◌≤◌, ◌≡◌, ◌≢◌, ◌⊎◌, inl, inr, refl, false, [], ◌∷◌, ◌++◌, arith, All, All-imp,
  All-of_exists_false, exists_false_of_All, ||-eq-false, Bool-cases, ◌==◌, ==_iff, ap,
}
use sandcastle_incus.Prelude.Text.{
  Text, has_prefix, has_suffix, split, no_suffix, has_suffix-false, lower_char, is_space,
}
use sandcastle_incus.Domain.Names.{is_nil, bad_rune, bad_label}

-- Lower-case letters, digits and dashes.
abbrev pub IsNameChar : ℕ → Type 0
IsNameChar c = ((b'a' ≤ c) × (c ≤ b'z')) ⊎ ((b'0' ≤ c) × (c ≤ b'9')) ⊎ (c ≡ b'-')

-- A label: not empty and of any length, of those characters, with no dash at either end.
abbrev pub IsLabel : Text → Type 0
IsLabel l =
    (l ≢ []) × All IsNameChar l × ((t : Text) → l ≢ b'-' ∷ t) × ((r : Text) → l ≢ r ++ b'-' ∷ [])

-- Labels between dots. Unlike in a DNS name, neither a label nor the whole has a greatest length.
abbrev pub IsDottedName : Text → Type 0
IsDottedName d = All IsLabel (split b'.' d)

bad_rune-false : (c : ℕ) → bad_rune c ≡ false → IsNameChar c
bad_rune-false c h = ground arith

bad_rune_of_char : (c : ℕ) → IsNameChar c → bad_rune c ≡ false
bad_rune_of_char c h = ground arith

not_nil : (l : Text) → is_nil l ≡ false → l ≢ []
not_nil [] h = cc
not_nil (c ∷ l) h = cc

is_nil_of_ne : (l : Text) → l ≢ [] → is_nil l ≡ false
is_nil_of_ne [] h = absurd (h refl)
is_nil_of_ne (c ∷ l) h = refl

no_dash_first : (l : Text) → has_prefix l (b'-' ∷ []) ≡ false → (t : Text) → l ≢ b'-' ∷ t
unfolding has_prefix
no_dash_first [] h t = cc
no_dash_first (c ∷ l) h t = ground arith

first_not_dash : (l : Text) → ((t : Text) → l ≢ b'-' ∷ t) → has_prefix l (b'-' ∷ []) ≡ false
unfolding has_prefix
first_not_dash [] h = refl
first_not_dash (c ∷ l) h = elim (Bool-cases (c == b'-')) [
  | inl e ↦ absurd (h l (ap (λ t. t ∷ l) ((==_iff c b'-').0 e)))
  | inr e ↦ rw e
]

pub IsLabel-of_bad_label : (l : Text) → bad_label l ≡ false → IsLabel l
unfolding bad_label
IsLabel-of_bad_label l h =
    let (h₀, h₁) = ||-eq-false (is_nil l) _ h in
    let (h₂, h₃) = ||-eq-false (has_prefix l (b'-' ∷ [])) _ h₁ in
    let (h₄, h₅) = ||-eq-false (has_suffix l (b'-' ∷ [])) _ h₃ in
    (
      not_nil l h₀,
      All-imp _ _ l bad_rune-false (All-of_exists_false bad_rune l h₅),
      no_dash_first l h₂,
      no_suffix l (b'-' ∷ []) h₄,
    )

pub bad_label_of_IsLabel : (l : Text) → IsLabel l → bad_label l ≡ false
unfolding bad_label
bad_label_of_IsLabel l (ne, chars, first, last) = rw (
  is_nil_of_ne l ne,
  first_not_dash l first,
  has_suffix-false l (b'-' ∷ []) last,
  exists_false_of_All bad_rune l (All-imp _ _ l bad_rune_of_char chars),
)

pub IsNameChar-lower : (c : ℕ) → IsNameChar c → lower_char c ≡ c
IsNameChar-lower c h = ground arith

pub IsNameChar-not_space : (c : ℕ) → IsNameChar c → is_space c ≡ false
IsNameChar-not_space c h = ground arith
