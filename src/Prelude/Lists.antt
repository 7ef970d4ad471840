-- ===== src/Prelude/Lists.antt =====
-- Lists measured by native numbers, and predicates on their items.
use Prim.Native.Nat.{ℕ, zero, suc, ◌+◌}
use mathlib.Core.Path.{◌≡◌, refl, ap}
use mathlib.Core.Logic.{inl, inr}
use mathlib.Core.List.{List, [], ◌∷◌, ◌++◌, map}
use mathlib.Core.Bool.{Bool, true, false, ◌||◌}
use mathlib.Core.Option.{Option, none, some}
use native.Mathlib.Omega.{arith}
use sandcastle_incus.Prelude.Tests.{if◌then◌else◌, ||-eq-false, Bool-cases}

module _ {ℓ} {A : Type ℓ} where
  abbrev pub length : List A → ℕ
  length [] = 0
  length (x ∷ xs) = suc (length xs)

  abbrev pub take : ℕ → List A → List A
  take zero xs = []
  take (suc n) [] = []
  take (suc n) (x ∷ xs) = x ∷ take n xs

  abbrev pub drop : ℕ → List A → List A
  drop zero xs = xs
  drop (suc n) [] = []
  drop (suc n) (x ∷ xs) = drop n xs

  pub length-append : (xs ys : List A) → length (xs ++ ys) ≡ length xs + length ys
  length-append [] ys = omega arith
  length-append (x ∷ xs) ys = omega (arith, length-append xs ys)

  pub drop-append : (xs ys : List A) → drop (length xs) (xs ++ ys) ≡ ys
  drop-append [] ys = refl
  drop-append (x ∷ xs) ys = drop-append xs ys

  pub take-append : (xs ys : List A) → take (length xs) (xs ++ ys) ≡ xs
  take-append [] ys = refl
  take-append (x ∷ xs) ys = ap (λ t. x ∷ t) (take-append xs ys)

  pub take-append-drop : (n : ℕ) (xs : List A) → take n xs ++ drop n xs ≡ xs
  take-append-drop zero xs = refl
  take-append-drop (suc n) [] = refl
  take-append-drop (suc n) (x ∷ xs) = rw (take-append-drop n xs)

  -- The items that pass a test, in their order.
  abbrev pub keep : (A → Bool) → List A → List A
  keep p [] = []
  keep p (x ∷ xs) = if p x then x ∷ keep p xs else keep p xs

  -- The first item that passes a test.
  abbrev pub find_first : (A → Bool) → List A → Option A
  find_first p [] = none
  find_first p (x ∷ xs) = if p x then some x else find_first p xs

  abbrev pub exists : (A → Bool) → List A → Bool
  exists p [] = false
  exists p (x ∷ xs) = p x || exists p xs

true_not_false : (b : Bool) → b ≡ true → ¬ (b ≡ false)
true_not_false b h k = cc

some_not_none {ℓ} : {A : Type ℓ} (x : A) → ¬ (some x ≡ none)
some_not_none x h = cc

module _ {ℓ κ} {A : Type ℓ} where
  abbrev pub All : (A → Type κ) → List A → Type κ
  All P [] = Unit
  All P (x ∷ xs) = P x × All P xs

  pub All-append : (P : A → Type κ) (xs ys : List A) → All P xs → All P ys → All P (xs ++ ys)
  All-append P [] ys hx hy = hy
  All-append P (x ∷ xs) ys (px, hx) hy = (px, All-append P xs ys hx hy)

  pub All-keep : (P : A → Type κ) (p : A → Bool) (xs : List A) → All P xs → All P (keep p xs)
  All-keep P p [] h = tt
  All-keep P p (x ∷ xs) (px, h) =
      elim (p x) as (λ b. All P (if b then x ∷ keep p xs else keep p xs)) [
        | true ↦ (px, All-keep P p xs h)
        | false ↦ All-keep P p xs h
      ]

module _ {ℓ κ μ} {A : Type ℓ} where
  pub All-imp :
      (P : A → Type κ) (Q : A → Type μ) (xs : List A) → ((x : A) → P x → Q x) → All P xs → All Q xs
  All-imp P Q [] f h = tt
  All-imp P Q (x ∷ xs) f (px, h) = (f x px, All-imp P Q xs f h)

module _ {ℓ κ} {A : Type ℓ} where
  -- Each item is related to every later one.
  abbrev pub Pairwise : (A → A → Type κ) → List A → Type κ
  Pairwise R [] = Unit
  Pairwise R (x ∷ xs) = All (R x) xs × Pairwise R xs

  pub Pairwise-keep :
      (R : A → A → Type κ) (p : A → Bool) (xs : List A) → Pairwise R xs → Pairwise R (keep p xs)
  Pairwise-keep R p [] h = tt
  Pairwise-keep R p (x ∷ xs) (hx, h) =
      elim (p x) as (λ b. Pairwise R (if b then x ∷ keep p xs else keep p xs)) [
        | true ↦ (All-keep (R x) p xs hx, Pairwise-keep R p xs h)
        | false ↦ Pairwise-keep R p xs h
      ]

module _ {ℓ} {A : Type ℓ} (p : A → Bool) where
  pub All-of_exists_false : (xs : List A) → exists p xs ≡ false → All (λ x. p x ≡ false) xs
  All-of_exists_false [] h = tt
  All-of_exists_false (x ∷ xs) h =
      let (hx, hxs) = ||-eq-false (p x) (exists p xs) h in (hx, All-of_exists_false xs hxs)

  pub exists_false_of_All : (xs : List A) → All (λ x. p x ≡ false) xs → exists p xs ≡ false
  exists_false_of_All [] h = refl
  exists_false_of_All (x ∷ xs) (hx, h) = rw hx (exists_false_of_All xs h)

  pub All-of_find_first-none : (xs : List A) → find_first p xs ≡ none → All (λ x. p x ≡ false) xs
  All-of_find_first-none [] h = tt
  All-of_find_first-none (x ∷ xs) h = elim (Bool-cases (p x)) [
    | inl e ↦ absurd (some_not_none x (rw e at h))
    | inr e ↦ (e, All-of_find_first-none xs (rw e at h))
  ]

  pub find_first-none_of_All : (xs : List A) → All (λ x. p x ≡ false) xs → find_first p xs ≡ none
  find_first-none_of_All [] h = refl
  find_first-none_of_All (x ∷ xs) (hx, h) = rw hx (find_first-none_of_All xs h)

module _ {ℓ κ} {A : Type ℓ} where
  -- What a filter keeps has what the test promises.
  pub All-keep_of :
      (Q : A → Type κ) (p : A → Bool) (xs : List A)
      → All (λ x. p x ≡ true → Q x) xs
      → All Q (keep p xs)
  All-keep_of Q p [] h = tt
  All-keep_of Q p (x ∷ xs) (hx, h) = elim (Bool-cases (p x)) [
    | inl e ↦ rw e (hx e, All-keep_of Q p xs h)
    | inr e ↦ rw e (All-keep_of Q p xs h)
  ]

  -- What held of the kept items held where the test passed.
  pub All-of_keep :
      (Q : A → Type κ) (p : A → Bool) (xs : List A)
      → All Q (keep p xs)
      → All (λ x. p x ≡ true → Q x) xs
  All-of_keep Q p [] h = tt
  All-of_keep Q p (x ∷ xs) h = elim (Bool-cases (p x)) [
    | inl e ↦ let h' : Q x × All Q (keep p xs) = rw e at h in ((λ _. h'.0), All-of_keep Q p xs h'.1)
    | inr e ↦ ((λ t. absurd (true_not_false (p x) t e)), All-of_keep Q p xs (rw e at h))
  ]

  pub Pairwise-snoc :
      (R : A → A → Type κ) (xs : List A) (x : A)
      → Pairwise R xs
      → All (λ y. R y x) xs
      → Pairwise R (xs ++ x ∷ [])
  Pairwise-snoc R [] x h g = (tt, tt)
  Pairwise-snoc R (y ∷ xs) x (hy, h) (gy, g) =
      (All-append (R y) xs (x ∷ []) hy (gy, tt), Pairwise-snoc R xs x h g)

module _ {ℓ κ μ} {A : Type ℓ} where
  pub All-zip :
      (P : A → Type κ) (Q : A → Type μ) (xs : List A)
      → All P xs
      → All Q xs
      → All (λ x. P x × Q x) xs
  All-zip P Q [] p q = tt
  All-zip P Q (x ∷ xs) (px, p) (qx, q) = ((px, qx), All-zip P Q xs p q)

module _ {ℓ κ μ} {A : Type ℓ} {B : Type κ} where
  pub All-map :
      (P : B → Type μ) (f : A → B) (xs : List A) → All P (map f xs) → All (λ x. P (f x)) xs
  All-map P f [] h = tt
  All-map P f (x ∷ xs) (hx, h) = (hx, All-map P f xs h)

module _ {ℓ} {A : Type ℓ} where
  pub keep-All : (p : A → Bool) (xs : List A) → All (λ x. p x ≡ true) xs → keep p xs ≡ xs
  keep-All p [] h = refl
  keep-All p (x ∷ xs) (hx, h) = rw hx (ap (λ t. x ∷ t) (keep-All p xs h))
