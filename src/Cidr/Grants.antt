-- ===== src/Cidr/Grants.antt =====
-- What `Allocate` grants, and when it grants nothing.
use sandcastle_incus.Prelude.{
  ℕ, zero, suc, ◌≡◌, refl, subst, arith, Bool, true, false, not, ◌⊎◌, inl, inr, &&-eq-true, List,
  Option, some, if◌then◌else◌, ltb, All, All-imp, All-of_exists_false, ok, >>=-eq-ok,
}
use sandcastle_incus.Prelude.Text.{Text}
use sandcastle_incus.Cidr.Blocks.{prefixes_disjoint}
use sandcastle_incus.Cidr.Defs.{
  Family, Prefix, contains, Search, found, no_block, out_of_fuel, candidate_at, suits,
  search_blocks, search_pool, prefixes_overlap, overlaps_any, prefix_contains_prefix, outcome,
  allocate, check_pool, parse_occupied,
}

-- No address is in both.
abbrev pub AreDisjoint : Prefix → Prefix → Type 0
AreDisjoint p q = (f : Family) (x : ℕ) → contains p f x ≡ true → contains q f x ≡ true → ⊥

no_overlap_disjoint :
    (p : Prefix) (qs : List Prefix) → overlaps_any p qs ≡ false → All (AreDisjoint p) qs
unfolding overlaps_any
no_overlap_disjoint p qs h =
    All-imp _ _ qs (λ q apart f x. prefixes_disjoint p q f x apart)
      (All-of_exists_false (prefixes_overlap p) qs h)

not-true : (b : Bool) → not b ≡ true → b ≡ false
not-true b h = ground arith

-- What a granted block is: of the size asked for, at a multiple of its size, inside the pool, and
-- disjoint from everything occupied.
pub record IsGrant (pool : Prefix) (bits : ℕ) (occupied : List Prefix) (p : Prefix) : Type 0 where
  pub is_block : (current : ℕ) × (p ≡ candidate_at bits current)
  pub inside : prefix_contains_prefix pool p ≡ true
  pub disjoint : All (AreDisjoint p) occupied

suits-IsGrant :
    (pool : Prefix) (bits : ℕ) (occupied : List Prefix) (current : ℕ)
    → suits pool occupied (candidate_at bits current) ≡ true
    → IsGrant pool bits occupied (candidate_at bits current)
unfolding suits
suits-IsGrant pool bits occupied current h =
    let (inside, free) = &&-eq-true (prefix_contains_prefix pool (candidate_at bits current)) _ h in
    record {
      is_block = (current, refl);
      inside = inside;
      disjoint = no_overlap_disjoint _ occupied (not-true _ free);
    }

round_found :
    (go fits : Bool) (candidate p : Prefix) (rest : Search)
    → (if go then (if fits then found candidate else rest) else no_block) ≡ found p
    → ((candidate ≡ p) × (fits ≡ true)) ⊎ (rest ≡ found p)
round_found true true candidate p rest h = inl (found_eq candidate p h, refl)
  where
    found_eq : (a b : Prefix) → found a ≡ found b → a ≡ b
    found_eq a b q = cc
round_found true false candidate p rest h = inr h
round_found false fits candidate p rest h = cc

search_blocks_found :
    (pool : Prefix) (occupied : List Prefix) (bits end fuel current : ℕ) (p : Prefix)
    → search_blocks pool occupied bits end fuel current ≡ found p
    → IsGrant pool bits occupied p
unfolding search_blocks
search_blocks_found pool occupied bits end zero current p h = cc
search_blocks_found pool occupied bits end (suc fuel) current p h =
    elim (round_found (ltb current end) (suits pool occupied (candidate_at bits current))
      (candidate_at bits current) p _ h) [
        | inl (same, fits) ↦
            subst (IsGrant pool bits occupied) same (suits-IsGrant pool bits occupied current fits)
        | inr later ↦ search_blocks_found pool occupied bits end fuel _ p later
      ]

outcome_found :
    (pool : Prefix) (bits : ℕ) (s : Search) (p : Prefix)
    → outcome pool bits s ≡ ok (some p)
    → s ≡ found p
outcome_found pool bits (found q) p h = cc
outcome_found pool bits no_block p h = cc
outcome_found pool bits out_of_fuel p h = cc

module _ (parse_prefix : Text → Option Prefix) where
  -- When Allocate grants a block, the pool and the occupied prefixes passed the checks, the block
  -- is one of the size asked for, its first and last addresses lie in the pool, and no occupied
  -- prefix has an address of it.
  pub allocate_sound :
      (pool : Text) (tenant_prefix_bits : ℕ) (occupied : List Text) (p : Prefix)
      → allocate parse_prefix pool tenant_prefix_bits occupied ≡ ok (some p)
      → (q : Prefix) × (bits : ℕ) × (taken : List Prefix) × (check_pool parse_prefix pool
            tenant_prefix_bits
          ≡ ok (q, bits))
        × (parse_occupied parse_prefix occupied ≡ ok taken)
        × IsGrant q bits taken p
  unfolding allocate search_pool
  allocate_sound pool tenant_prefix_bits occupied p h =
      let ((q, bits), checked, h₁) =
        >>=-eq-ok (check_pool parse_prefix pool tenant_prefix_bits) _ h in
      let (taken, parsed, h₂) = >>=-eq-ok (parse_occupied parse_prefix occupied) _ h₁ in
      (
        q,
        bits,
        taken,
        checked,
        parsed,
        search_blocks_found q taken bits _ _ _ p (outcome_found q bits _ p h₂),
      )
