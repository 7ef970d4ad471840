-- ===== src/Prelude/Text/Trim.antt =====
-- When the trimming and lower-casing functions leave a text as it is.
use Prim.Native.Nat.{ℕ}
use mathlib.Core.Path.{◌≡◌, refl}
use mathlib.Core.Logic.{inl, inr}
use mathlib.Core.Bool.{Bool, false}
use mathlib.Core.List.{[], ◌∷◌}
use sandcastle_incus.Prelude.Lists.{All}
use sandcastle_incus.Prelude.Tests.{if◌then◌else◌, Bool-cases}
use sandcastle_incus.Prelude.Text.Defs.{
  Text, lower_char, to_lower, is_space, trim_left, trim_right, trim_space, trim_suffix, has_suffix,
}

pub to_lower_fixed : (s : Text) → All (λ c. lower_char c ≡ c) s → to_lower s ≡ s
unfolding to_lower
to_lower_fixed [] h = refl
to_lower_fixed (c ∷ s) h = cc (to_lower_fixed s h.1, h.0)

trim_left_fixed : (p : ℕ → Bool) (s : Text) → All (λ c. p c ≡ false) s → trim_left p s ≡ s
unfolding trim_left
trim_left_fixed p [] h = refl
trim_left_fixed p (c ∷ s) h = rw h.0

trim_right_fixed : (p : ℕ → Bool) (s : Text) → All (λ c. p c ≡ false) s → trim_right p s ≡ s
unfolding trim_right
trim_right_fixed p [] h = refl
trim_right_fixed p (c ∷ []) h = rw h.0
trim_right_fixed p (c ∷ d ∷ s) h = rw (trim_right_fixed p (d ∷ s) h.1)

pub trim_space_fixed : (s : Text) → All (λ c. is_space c ≡ false) s → trim_space s ≡ s
unfolding trim_space
trim_space_fixed s h = rw (trim_left_fixed is_space s h) (trim_right_fixed is_space s h)

pub trim_suffix_fixed : (s suffix : Text) → has_suffix s suffix ≡ false → trim_suffix s suffix ≡ s
unfolding trim_suffix
trim_suffix_fixed s suffix h = rw h

-- One step of `trim_right`, on what is left of the rest.
abbrev extend : (ℕ → Bool) → ℕ → Text → Text
extend p c [] = if p c then [] else c ∷ []
extend p c (d ∷ r) = c ∷ d ∷ r

trim_right_step :
    (p : ℕ → Bool) (c : ℕ) (s : Text) → trim_right p (c ∷ s) ≡ extend p c (trim_right p s)
unfolding trim_right
trim_right_step p c s = go (trim_right p s) refl
  where
    go : (t : Text) → trim_right p s ≡ t → trim_right p (c ∷ s) ≡ extend p c t
    go [] e = rw (e, trim_right)
    go (d ∷ r) e = rw (e, trim_right)

trim_right-extend :
    (p : ℕ → Bool) (c : ℕ) (t : Text)
    → trim_right p t ≡ t
    → trim_right p (extend p c t) ≡ extend p c t
unfolding trim_right
trim_right-extend p c [] h = elim (Bool-cases (p c)) [ inl e ↦ rw e | inr e ↦ rw (e, e) ]
trim_right-extend p c (d ∷ r) h = rw (trim_right_step p c (d ∷ r)) (rw h)

trim_right_idem : (p : ℕ → Bool) (s : Text) → trim_right p (trim_right p s) ≡ trim_right p s
trim_right_idem p [] = unfold trim_right in refl
trim_right_idem p (c ∷ s) =
    rw (trim_right_step p c s) (trim_right-extend p c (trim_right p s) (trim_right_idem p s))

trim_left_right :
    (p : ℕ → Bool) (s : Text)
    → trim_left p (trim_right p (trim_left p s)) ≡ trim_right p (trim_left p s)
unfolding trim_left
trim_left_right p [] = unfold trim_right in refl
trim_left_right p (c ∷ s) = elim (Bool-cases (p c)) [
  | inl e ↦ rw e (trim_left_right p s)
  | inr e ↦ rw (e, trim_right_step p c s) (stays (trim_right p s) e)
]
  where
    stays : (t : Text) → p c ≡ false → trim_left p (extend p c t) ≡ extend p c t
    stays [] e = rw (e, e)
    stays (d ∷ r) e = rw e

-- Trimming twice is trimming once.
pub trim_space_idem : (s : Text) → trim_space (trim_space s) ≡ trim_space s
unfolding trim_space
trim_space_idem s =
    rw (trim_left_right is_space s) (trim_right_idem is_space (trim_left is_space s))
