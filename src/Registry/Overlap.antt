-- ===== src/Registry/Overlap.antt =====
-- When two names share a part of the name space: one is the other, or lies below it.
use sandcastle_incus.Prelude.{
  ℕ, ◌≡◌, sym, ap, ◌∙◌, Bool, true, ◌||◌, [], ◌∷◌, ◌++◌, ◌⊎◌, inl, inr, arith, Bool-cases,
}
use sandcastle_incus.Prelude.Text.{
  Text, teq, teq_refl, teq_comm, eq_of_teq, has_suffix_elim, has_suffix_intro,
}
use sandcastle_incus.Registry.Tables.{under}
use sandcastle_incus.Registry.Scan.{meets}

unfoldable pub overlaps : Text → Text → Bool
overlaps a b = teq a b || (under a b || under b a)

pub overlaps_comm : (a b : Text) → overlaps a b ≡ overlaps b a
unfolding overlaps
overlaps_comm a b = rw (teq_comm a b) (ground arith)

under_intro : (r d : Text) → under (r ++ b'.' ∷ d) d ≡ true
unfolding under
under_intro r d = has_suffix_intro r (b'.' ∷ d)

-- A name is a domain or lies below it.
Below : Text → Text → Type 0
Below n d = (n ≡ d) ⊎ ((r : Text) × (n ≡ r ++ b'.' ∷ d))

Below-of_meets : (n d : Text) → meets n d ≡ true → Below n d
unfolding Below under
Below-of_meets n d h = elim (Bool-cases (teq n d)) [
  | inl e ↦ inl (eq_of_teq n d e)
  | inr e ↦ inr (has_suffix_elim n (b'.' ∷ d) (rw e at h))
]

overlaps_same : (a b : Text) → a ≡ b → overlaps a b ≡ true
unfolding overlaps
overlaps_same a b e = rw e (ground (arith, teq_refl b))

overlaps_below : (a b r : Text) → a ≡ r ++ b'.' ∷ b → overlaps a b ≡ true
unfolding overlaps
overlaps_below a b r e = ground (arith, ap (λ t. under t b) e ∙ under_intro r b)

overlaps_above : (a b r : Text) → b ≡ r ++ b'.' ∷ a → overlaps a b ≡ true
overlaps_above a b r e = overlaps_comm a b ∙ overlaps_below b a r e

tail_eq : (c d : ℕ) (s t : Text) → ◌≡◌ {A = Text} (c ∷ s) (d ∷ t) → s ≡ t
tail_eq c d s t h = cc

below_both : (r q a b : Text) → r ++ b'.' ∷ a ≡ q ++ b'.' ∷ b → overlaps a b ≡ true
below_both [] [] a b h = overlaps_same a b (tail_eq _ _ _ _ h)
below_both [] (c ∷ q) a b h = overlaps_below a b q (tail_eq _ _ _ _ h)
below_both (c ∷ r) [] a b h = overlaps_above a b r (sym (tail_eq _ _ _ _ h))
below_both (c ∷ r) (d ∷ q) a b h = below_both r q a b (tail_eq _ _ _ _ h)

overlaps_of_Below : (n a b : Text) → Below n a → Below n b → overlaps a b ≡ true
unfolding Below
overlaps_of_Below n a b (inl p) (inl q) = overlaps_same a b (sym p ∙ q)
overlaps_of_Below n a b (inl p) (inr (r, q)) = overlaps_below a b r (sym p ∙ q)
overlaps_of_Below n a b (inr (r, p)) (inl q) = overlaps_above a b r (sym q ∙ p)
overlaps_of_Below n a b (inr (r, p)) (inr (s, q)) = below_both r s a b (sym p ∙ q)

-- Two names that cover a third one overlap.
pub overlaps_of_meets : (n a b : Text) → meets n a ≡ true → meets n b ≡ true → overlaps a b ≡ true
overlaps_of_meets n a b p q = overlaps_of_Below n a b (Below-of_meets n a p) (Below-of_meets n b q)
