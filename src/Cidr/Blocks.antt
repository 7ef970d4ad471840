-- ===== src/Cidr/Blocks.antt =====
-- Prefixes as blocks of addresses: two of them are disjoint or one holds the other.
use sandcastle_incus.Prelude.{
  ℕ, zero, suc, ◌+◌, ◌-◌, ◌*◌, ◌/◌, ◌^◌, ◌≤◌, ◌<◌, ◌≡◌, refl, sym, ◌∙◌, ap, subst, arith, Bool,
  true, false, ◌⊎◌, inl, inr, &&-eq-true, ||-eq-false, ◌==◌,
}
use native.Mathlib.Nat.{
  one-le-pow, pow-suc, pow-zero, add-zero, mul-one, add-suc, mul_assoc, div-div-eq-div-mul,
}
use sandcastle_incus.Cidr.Defs.{
  Family, ip4, ip6, Prefix, width, same_family, size, contains, prefixes_overlap,
}

pub pow_pos : (k : ℕ) → zero < 2 ^ k
pow_pos k = one-le-pow k 2 (omega arith)

pub pow_add : (m n : ℕ) → 2 ^ (m + n) ≡ 2 ^ m * 2 ^ n
pow_add m zero = rw (add-zero, pow-zero, mul-one)
pow_add m (suc n) = rw (add-suc, pow-suc 2 (m + n), pow_add m n, pow-suc 2 n, mul_assoc)

-- A power of two is the smaller one times the quotient.
pub pow_split : (i j : ℕ) → i ≤ j → 2 ^ j ≡ 2 ^ i * 2 ^ (j - i)
pow_split i j h = ap (λ k. 2 ^ k) same ∙ pow_add i (j - i)
  where
    same : j ≡ i + (j - i)
    same = omega (arith, h)

-- What shares a small block shares the larger one.
pub coarser : (i j x y : ℕ) → i ≤ j → x / 2 ^ i ≡ y / 2 ^ i → x / 2 ^ j ≡ y / 2 ^ j
coarser i j x y h e =
    ap (λ s. x / s) (pow_split i j h)
    ∙ sym (div-div-eq-div-mul x (2 ^ i) (2 ^ (j - i)))
    ∙ ap (λ q. q / 2 ^ (j - i)) e
    ∙ div-div-eq-div-mul y (2 ^ i) (2 ^ (j - i))
    ∙ ap (λ s. y / s) (sym (pow_split i j h))

eq_of_== : (m n : ℕ) → (m == n) ≡ true → m ≡ n
eq_of_== m n h = ground arith

==_of_eq : (m n : ℕ) → m ≡ n → (m == n) ≡ true
==_of_eq m n h = ground arith

same_family_eq : (f g : Family) → same_family f g ≡ true → f ≡ g
same_family_eq ip4 ip4 h = refl
same_family_eq ip6 ip6 h = refl
same_family_eq ip4 ip6 h = cc
same_family_eq ip6 ip4 h = cc

same_family_refl : (f : Family) → same_family f f ≡ true
same_family_refl ip4 = refl
same_family_refl ip6 = refl

pub contains_elim :
    (p : Prefix) (f : Family) (x : ℕ)
    → contains p f x ≡ true
    → (p.family ≡ f) × (x / size p ≡ p.addr / size p)
unfolding contains
contains_elim p f x h =
    let (same, block) = &&-eq-true (same_family p.family f) _ h in
    (same_family_eq p.family f same, eq_of_== _ _ block)

pub contains_intro :
    (p : Prefix) (f : Family) (x : ℕ)
    → p.family ≡ f
    → x / size p ≡ p.addr / size p
    → contains p f x ≡ true
unfolding contains
contains_intro p f x same block = rw (
  subst (λ g. same_family p.family g ≡ true) same (same_family_refl p.family),
  ==_of_eq _ _ block,
)

-- A prefix that shares an address with one of no fewer bits holds that one's own address.
holds_addr :
    (p q : Prefix) (x : ℕ)
    → p.family ≡ q.family
    → width q.family - q.bits ≤ width p.family - p.bits
    → x / size p ≡ p.addr / size p
    → x / size q ≡ q.addr / size q
    → contains p q.family q.addr ≡ true
holds_addr p q x same le hp hq =
    contains_intro p q.family q.addr same
      (sym (coarser (width q.family - q.bits) (width p.family - p.bits) x q.addr le hq) ∙ hp)

contradiction : (b : Bool) → b ≡ true → b ≡ false → ⊥
contradiction b p q = cc

le_or_le : (m n : ℕ) → (m ≤ n) ⊎ (n ≤ m)
le_or_le m n = ground arith

-- Two prefixes that `prefixesOverlap` lets pass have no address in common.
pub prefixes_disjoint :
    (a b : Prefix) (f : Family) (x : ℕ)
    → prefixes_overlap a b ≡ false
    → contains a f x ≡ true
    → contains b f x ≡ true
    → ⊥
unfolding prefixes_overlap
prefixes_disjoint a b f x apart ha hb =
    let (fa, xa) = contains_elim a f x ha in
    let (fb, xb) = contains_elim b f x hb in
    let (no_b, no_a) =
      ||-eq-false (contains a b.family b.addr) (contains b a.family a.addr) apart in
    elim (le_or_le (width a.family - a.bits) (width b.family - b.bits)) [
      | inl le ↦ contradiction _ (holds_addr b a x (fb ∙ sym fa) le xb xa) no_a
      | inr le ↦ contradiction _ (holds_addr a b x (fa ∙ sym fb) le xa xb) no_b
    ]
