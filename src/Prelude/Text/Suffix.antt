-- ===== src/Prelude/Text/Suffix.antt =====
-- Equality and the suffix test, as statements.
use Prim.Native.Nat.{◌-◌}
use mathlib.Core.Path.{◌≡◌, refl, sym, ap, ◌∙◌}
use mathlib.Core.Logic.{◌↔◌, ◌≢◌, inl, inr}
use mathlib.Core.Bool.{true, false}
use mathlib.Core.List.{[], ◌∷◌, ◌++◌}
use native.Mathlib.Omega.{arith}
use sandcastle_incus.Prelude.Lists.{
  length, take, drop, length-append, drop-append, take-append-drop, take-append,
}
use sandcastle_incus.Prelude.Tests.{leb, le→leb, &&-eq-true, Bool-cases}
use sandcastle_incus.Prelude.Text.Defs.{Text, teq, has_suffix, trim_suffix}

pub eq_of_teq : (s t : Text) → teq s t ≡ true → s ≡ t
unfolding teq
eq_of_teq [] [] h = refl
eq_of_teq [] (b ∷ t) h = cc
eq_of_teq (a ∷ s) [] h = cc
eq_of_teq (a ∷ s) (b ∷ t) h = ground (arith, eq_of_teq s t)

pub teq_refl : (s : Text) → teq s s ≡ true
unfolding teq
teq_refl [] = refl
teq_refl (a ∷ s) = ground (arith, teq_refl s)

pub teq_iff : (s t : Text) → (teq s t ≡ true) ↔ (s ≡ t)
teq_iff s t = (eq_of_teq s t, λ e. rw e (teq_refl t))

pub teq_comm : (s t : Text) → teq s t ≡ teq t s
unfolding teq
teq_comm [] [] = refl
teq_comm [] (b ∷ t) = refl
teq_comm (a ∷ s) [] = refl
teq_comm (a ∷ s) (b ∷ t) = ground (arith, teq_comm s t)

-- The part in front of a suffix.
pub has_suffix_elim :
    (s suffix : Text) → has_suffix s suffix ≡ true → (r : Text) × (s ≡ r ++ suffix)
unfolding has_suffix
has_suffix_elim s suffix h =
    let n = length s - length suffix in
    let (_, e) = &&-eq-true (leb (length suffix) (length s)) (teq (drop n s) suffix) h in
    (take n s, sym (take-append-drop n s) ∙ ap (λ t. take n s ++ t) (eq_of_teq (drop n s) suffix e))

pub has_suffix_intro : (r suffix : Text) → has_suffix (r ++ suffix) suffix ≡ true
unfolding has_suffix
has_suffix_intro r suffix =
    let n : length (r ++ suffix) - length suffix ≡ length r =
      omega (arith, length-append r suffix) in
    rw (n, drop-append r suffix, teq_refl suffix)
      (rw (le→leb (length suffix) (length (r ++ suffix)) (omega (arith, length-append r suffix)))
        refl)

pub has_suffix-false :
    (s suffix : Text) → ((r : Text) → s ≢ r ++ suffix) → has_suffix s suffix ≡ false
has_suffix-false s suffix h = elim (Bool-cases (has_suffix s suffix)) [
  | inl e ↦ let (r, eq) = has_suffix_elim s suffix e in absurd (h r eq)
  | inr e ↦ e
]

pub no_suffix : (s suffix : Text) → has_suffix s suffix ≡ false → (r : Text) → s ≢ r ++ suffix
no_suffix s suffix h r e =
    let t : has_suffix s suffix ≡ true = rw e (has_suffix_intro r suffix) in cc

pub trim_suffix-append : (r suffix : Text) → trim_suffix (r ++ suffix) suffix ≡ r
unfolding trim_suffix
trim_suffix-append r suffix =
    let n : length (r ++ suffix) - length suffix ≡ length r =
      omega (arith, length-append r suffix) in
    rw (has_suffix_intro r suffix, n) (take-append r suffix)
