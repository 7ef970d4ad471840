-- ===== src/Share/Ids.antt =====
-- internal/share/share.go: the id of a share tells its source tenant, project and name apart when none
-- of them has a slash.
use sandcastle_incus.Prelude.{
  ◌≡◌, ◌≢◌, refl, sym, ◌∙◌, ap, List, ℕ, [], ◌∷◌, ◌++◌, true, false, ||-eq-false, &&-eq-true, ◌==◌,
  arith,
}
use sandcastle_incus.Prelude.Text.{Text, has_char, split, split-append, split-ne-nil}
use sandcastle_incus.Naming.{every, is_name_char}
use sandcastle_incus.Share.Paths.{join}
use sandcastle_incus.Share.Lists.{share_id}
use sandcastle_incus.Share.Below.{join-split}

-- The text has no slash.
abbrev pub IsWhole : Text → Type 0
IsWhole s = split b'/' s ≡ s ∷ []

pub IsWhole-of_has_char : (s : Text) → has_char b'/' s ≡ false → IsWhole s
unfolding has_char split
IsWhole-of_has_char [] h = refl
IsWhole-of_has_char (c ∷ s) h =
    let (here, rest) = ||-eq-false (b'/' == c) (has_char b'/' s) h in
    rw (flip c here, IsWhole-of_has_char s rest) refl
  where
    flip : (d : ℕ) → (b'/' == d) ≡ false → (d == b'/') ≡ false
    flip d e = ground arith

-- A name has no slash.
pub IsWhole-of_name : (s : Text) → every is_name_char s ≡ true → IsWhole s
unfolding every has_char
IsWhole-of_name s h = IsWhole-of_has_char s (none_in s h)
  where
    none_in : (t : Text) → every is_name_char t ≡ true → has_char b'/' t ≡ false
    none_in [] e = refl
    none_in (c ∷ t) e =
        let (here, rest) = &&-eq-true (is_name_char c) (every is_name_char t) e in
        rw (other c here) (none_in t rest)
      where
        other : (d : ℕ) → is_name_char d ≡ true → (b'/' == d) ≡ false
        other d e = ground arith

split_id :
    (a b c : Text) → split b'/' (share_id a b c) ≡ split b'/' a ++ (split b'/' b ++ split b'/' c)
unfolding share_id
split_id a b c =
    split-append b'/' a (b ++ b'/' ∷ c) ∙ ap (λ t. split b'/' a ++ t) (split-append b'/' b c)

-- Three lists that are not empty make up a list of three.
three :
    (xs ys zs : List Text) (a b c : Text)
    → xs ≢ []
    → ys ≢ []
    → zs ≢ []
    → xs ++ (ys ++ zs) ≡ a ∷ b ∷ c ∷ []
    → (xs ≡ a ∷ []) × (ys ≡ b ∷ []) × (zs ≡ c ∷ [])
three [] ys zs a b c hx hy hz e = absurd (hx refl)
three (x ∷ xs) [] zs a b c hx hy hz e = absurd (hy refl)
three (x ∷ xs) (y ∷ ys) [] a b c hx hy hz e = absurd (hz refl)
three (x ∷ []) (y ∷ []) (z ∷ []) a b c hx hy hz e = (cc, cc, cc)
three (x ∷ []) (y ∷ []) (z ∷ z' ∷ zs) a b c hx hy hz e = cc
three (x ∷ []) (y ∷ y' ∷ []) (z ∷ zs) a b c hx hy hz e = cc
three (x ∷ []) (y ∷ y' ∷ y'' ∷ ys) (z ∷ zs) a b c hx hy hz e = cc
three (x ∷ x' ∷ []) (y ∷ []) (z ∷ zs) a b c hx hy hz e = cc
three (x ∷ x' ∷ []) (y ∷ y' ∷ ys) (z ∷ zs) a b c hx hy hz e = cc
three (x ∷ x' ∷ x'' ∷ []) (y ∷ ys) (z ∷ zs) a b c hx hy hz e = cc
three (x ∷ x' ∷ x'' ∷ x''' ∷ xs) (y ∷ ys) (z ∷ zs) a b c hx hy hz e = cc

of_segment : (s a : Text) → split b'/' s ≡ a ∷ [] → s ≡ a
unfolding join
of_segment s a e = sym (join-split s) ∙ ap join e

pub share_id-inj :
    (t p n a b c : Text)
    → IsWhole a
    → IsWhole b
    → IsWhole c
    → share_id t p n ≡ share_id a b c
    → (t ≡ a) × (p ≡ b) × (n ≡ c)
share_id-inj t p n a b c ha hb hc e =
    let parts : split b'/' a ++ (split b'/' b ++ split b'/' c) ≡ a ∷ b ∷ c ∷ [] =
      rw (ha, hb, hc) refl in
    let (et, ep, en) =
      three (split b'/' t) (split b'/' p) (split b'/' n) a b c (split-ne-nil b'/' t)
        (split-ne-nil b'/' p) (split-ne-nil b'/' n)
        (sym (split_id t p n) ∙ ap (split b'/') e ∙ split_id a b c ∙ parts) in
    (of_segment t a et, of_segment p b ep, of_segment n c en)
