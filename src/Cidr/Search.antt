-- ===== src/Cidr/Search.antt =====
-- The loop of `Allocate` on machine words finds what a search over plain numbers finds.
use sandcastle_incus.Prelude.{
  ℕ, zero, suc, ◌+◌, ◌-◌, ◌*◌, ◌%◌, ◌^◌, ◌≤◌, ◌<◌, ◌≡◌, sym, ◌∙◌, ap, arith, Bool, true, false,
  List, Option, none, some, if◌then◌else◌, ltb,
}
use native.Mathlib.Nat.{mod-eq_of_lt, suc-mul}
use sandcastle_incus.Cidr.Blocks.{pow_pos}
use sandcastle_incus.Cidr.Defs.{
  Prefix, Search, found, no_block, u32_mod, shl_one, candidate_at, suits, search_blocks,
}

-- The first of `n` blocks from `current` on that passes.
unfoldable pub first_fit : (Prefix → Bool) → ℕ → ℕ → ℕ → Option Prefix
first_fit ok_block bits zero current = none
first_fit ok_block bits (suc n) current =
    let rest = first_fit ok_block bits n (current + 2 ^ (32 - bits)) in
    if ok_block (candidate_at bits current) then some (candidate_at bits current) else rest

abbrev pub as_search : Option Prefix → Search
as_search none = no_block
as_search (some p) = found p

pub shl_one_small : (k : ℕ) → 2 ^ k < u32_mod → shl_one k ≡ 2 ^ k
unfolding shl_one
shl_one_small k h = mod-eq_of_lt h

ltb-true : (m n : ℕ) → m < n → ltb m n ≡ true
ltb-true m n h = ground arith

ltb_self : (m : ℕ) → ltb m m ≡ false
ltb_self m = ground arith

-- One round of the loop, over any rest.
round_lem :
    (current end : ℕ) (fits : Bool) (candidate : Prefix) (rest : Search) (o : Option Prefix)
    → current < end
    → rest ≡ as_search o
    → (if ltb current end then (if fits then found candidate else rest) else no_block)
      ≡ as_search (if fits then some candidate else o)
round_lem current end true candidate rest o before h = rw (ltb-true current end before)
round_lem current end false candidate rest o before h = rw (ltb-true current end before) h

-- The next block starts before the end or at it.
next_block :
    (n d current end : ℕ)
    → zero < d
    → current + suc n * d ≡ end
    → (current < end) × (current + d ≤ end) × (current + d + n * d ≡ end)
next_block n d current end pos e = (omega (arith, later, pos), omega (arith, later), later)
  where
    later : current + d + n * d ≡ end
    later = omega (arith, suc-mul n d, e)

-- Where `end` lies `n` blocks after `current` and is a machine word, one step for each block and one
-- more are enough, and the result is that of the plain search.
pub search_blocks_lem :
    (pool : Prefix) (occupied : List Prefix) (bits end n current : ℕ)
    → end < u32_mod
    → 2 ^ (32 - bits) < u32_mod
    → current + n * 2 ^ (32 - bits) ≡ end
    → search_blocks pool occupied bits end (suc n) current
      ≡ as_search (first_fit (suits pool occupied) bits n current)
unfolding search_blocks first_fit
search_blocks_lem pool occupied bits end zero current small step e =
    rw (sym at_end, ltb_self current)
  where
    at_end : current ≡ end
    at_end = omega (arith, e)
search_blocks_lem pool occupied bits end (suc n) current small step e =
    let d = 2 ^ (32 - bits) in
    let (before, within, later) = next_block n d current end (pow_pos (32 - bits)) e in
    round_lem current end (suits pool occupied (candidate_at bits current))
      (candidate_at bits current) _ (first_fit (suits pool occupied) bits n (current + d)) before
      (ap (search_blocks pool occupied bits end (suc n)) (
          ap (λ k. (current + k) % u32_mod) (shl_one_small (32 - bits) step)
          ∙ mod-eq_of_lt (omega (arith, within, small)))
        ∙ search_blocks_lem pool occupied bits end n (current + d) small step later)
