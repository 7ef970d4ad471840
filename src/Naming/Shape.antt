-- ===== src/Naming/Shape.antt =====
-- internal/naming/naming.go: what the patterns accept.
use sandcastle_incus.Prelude.{
  ℕ, ◌≤◌, ◌≡◌, refl, arith, Bool, true, false, ◌&&◌, [], ◌∷◌, ◌++◌, All, length, length-append, leb,
  &&-eq-true,
}
use sandcastle_incus.Prelude.Text.{Text, is_space, trim_space, trim_space_fixed}
use sandcastle_incus.Domain.{is_nil}
use sandcastle_incus.Naming.Defs.{
  is_letter, is_letter_or_digit, is_name_char, every, safe_name, project_name,
}

pub every-append :
    (p : ℕ → Bool) (a b : Text) → every p a ≡ true → every p b ≡ true → every p (a ++ b) ≡ true
unfolding every
every-append p [] b ha hb = hb
every-append p (c ∷ a) b ha hb =
    let (hc, hs) = &&-eq-true (p c) (every p a) ha in rw (hc, every-append p a b hs hb)

-- The characters and the length of a name.
abbrev pub IsName : Text → Type 0
IsName s = (every is_name_char s ≡ true) × (2 ≤ length s) × (length s ≤ 63)

leb_elim : (m n : ℕ) → leb m n ≡ true → m ≤ n
leb_elim m n h = ground arith

leb_intro : (m n : ℕ) → m ≤ n → leb m n ≡ true
leb_intro m n h = ground arith

letter-name_char : (c : ℕ) → is_letter c ≡ true → is_name_char c ≡ true
letter-name_char c h = ground arith

letter_or_digit-name_char : (c : ℕ) → is_letter_or_digit c ≡ true → is_name_char c ≡ true
letter_or_digit-name_char c h = ground arith

IsName-of_parts :
    (c : ℕ) (s : Text)
    → is_name_char c ≡ true
    → every is_name_char s && (leb 1 (length s) && leb (length s) 62) ≡ true
    → IsName (c ∷ s)
unfolding every
IsName-of_parts c s hc h =
    let (chars, sizes) = &&-eq-true (every is_name_char s) _ h in
    let (least, most) = &&-eq-true (leb 1 (length s)) _ sizes in
    (rw hc chars, omega (arith, leb_elim _ _ least), omega (arith, leb_elim _ _ most))

pub safe_name-IsName : (s : Text) → safe_name s ≡ true → IsName s
unfolding safe_name
safe_name-IsName [] h = cc
safe_name-IsName (c ∷ s) h =
    let (first, rest) = &&-eq-true (is_letter c) _ h in
    IsName-of_parts c s (letter-name_char c first) rest

pub project_name-IsName : (s : Text) → project_name s ≡ true → IsName s
unfolding project_name
project_name-IsName [] h = cc
project_name-IsName (c ∷ s) h =
    let (first, rest) = &&-eq-true (is_letter_or_digit c) _ h in
    IsName-of_parts c s (letter_or_digit-name_char c first) rest

-- A safe name stays one when name characters are put behind it, up to the length.
pub safe_name-append :
    (a b : Text)
    → safe_name a ≡ true
    → every is_name_char b ≡ true
    → length (a ++ b) ≤ 63
    → safe_name (a ++ b) ≡ true
unfolding safe_name
safe_name-append [] b h chars short = cc
safe_name-append (c ∷ a) b h chars short =
    let (first, rest) = &&-eq-true (is_letter c) _ h in
    let (chars_a, sizes) = &&-eq-true (every is_name_char a) _ rest in
    let (least, _) = &&-eq-true (leb 1 (length a)) _ sizes in
    rw (
      first,
      every-append is_name_char a b chars_a chars,
      leb_intro 1 (length (a ++ b)) (omega (arith, leb_elim _ _ least, length-append a b)),
      leb_intro (length (a ++ b)) 62 (omega (arith, short)),
    )

not_space : (c : ℕ) → is_name_char c ≡ true → is_space c ≡ false
not_space c h = ground arith

name_chars_not_space : (s : Text) → every is_name_char s ≡ true → All (λ c. is_space c ≡ false) s
unfolding every
name_chars_not_space [] h = tt
name_chars_not_space (c ∷ s) h =
    let (hc, hs) = &&-eq-true (is_name_char c) (every is_name_char s) h in
    (not_space c hc, name_chars_not_space s hs)

-- There is no space around a name.
pub IsName-trim_space : (s : Text) → IsName s → trim_space s ≡ s
IsName-trim_space s (chars, _, _) = trim_space_fixed s (name_chars_not_space s chars)

pub IsName-is_nil : (s : Text) → IsName s → is_nil s ≡ false
IsName-is_nil [] (_, least, _) = absurd (omega (arith, least))
IsName-is_nil (c ∷ s) h = refl
