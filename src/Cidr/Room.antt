-- ===== src/Cidr/Room.antt =====
-- When the loop of `Allocate` finds a block: it looks at every block of the pool, but of a pool that
-- ends at the last address it looks at none.
use sandcastle_incus.Prelude.{
  ℕ, zero, suc, ◌+◌, ◌-◌, ◌*◌, ◌/◌, ◌%◌, ◌^◌, ◌≤◌, ◌<◌, ◌≡◌, refl, sym, ◌∙◌, ap, subst, arith, Bool,
  true, false, not, ◌&&◌, inl, inr, Bool-cases, List, Option, none, some, ltb,
}
use native.Mathlib.Nat.{
  mod-eq_of_lt, mul-le-mul_right, add-mod-mod, zero-mul, add-zero, suc-mul, div-eq_of_lt-le,
  mod_self, add-mod_right, mul-div_cancel, pow-le-pow_right, add-mul, mul_assoc, mul_comm,
}
use sandcastle_incus.Cidr.Blocks.{pow_pos, pow_split, contains_intro}
use sandcastle_incus.Cidr.Search.{first_fit, as_search, search_blocks_lem, shl_one_small}
use sandcastle_incus.Cidr.Defs.{
  ip4, Prefix, width, size, masked, contains, u32_mod, shl_one, no_block, candidate_at, suits,
  search_blocks, search_pool, overlaps_any, prefix_contains_prefix, search_fuel,
}

-- A pool as `check_pool` returns it.
pub record IsPool (pool : Prefix) (bits : ℕ) : Type 0 where
  pub four : pool.family ≡ ip4
  pub block : ℕ
  pub aligned : pool.addr ≡ block * 2 ^ (32 - pool.bits)
  pub fits : pool.bits ≤ bits
  pub hosts : bits ≤ 30

block_div : (a s r : ℕ) → r < s → (a * s + r) / s ≡ a
block_div a s r h = div-eq_of_lt-le s (omega arith) (rw (add-mul a 1 s) (omega (arith, h)))

-- The blocks of a pool fill it.
pool_size :
    (pool : Prefix) (bits : ℕ)
    → IsPool pool bits
    → 2 ^ (32 - pool.bits) ≡ 2 ^ (bits - pool.bits) * 2 ^ (32 - bits)
pool_size pool bits w =
    pow_split (32 - bits) (32 - pool.bits) (omega (arith, w.fits))
    ∙ ap (λ k. 2 ^ (32 - bits) * 2 ^ k) (omega (arith, w.fits, w.hosts))
    ∙ mul_comm _ _

-- One block is no larger than its pool.
block_le : (pool : Prefix) (bits : ℕ) → IsPool pool bits → 2 ^ (32 - bits) ≤ 2 ^ (32 - pool.bits)
block_le pool bits w = pow-le-pow_right (omega arith) (omega (arith, w.fits))

-- In a checked pool that does not reach the last address, the loop on 32-bit words computes a
-- plain first-fit search over the blocks of the pool.
pub search_pool_lem :
    (pool : Prefix) (bits : ℕ) (occupied : List Prefix)
    → IsPool pool bits
    → pool.addr + 2 ^ (32 - pool.bits) < u32_mod
    → search_pool pool occupied bits
      ≡ as_search (first_fit (suits pool occupied) bits (2 ^ (bits - pool.bits)) pool.addr)
unfolding search_pool
search_pool_lem pool bits occupied w room =
    ap (λ e. search_blocks pool occupied bits e (search_fuel pool bits) pool.addr)
      (ap (λ s. (pool.addr + s) % u32_mod) (shl_one_small (32 - pool.bits) (omega (arith, room)))
        ∙ mod-eq_of_lt room)
    ∙ search_blocks_lem pool occupied bits (pool.addr + 2 ^ (32 - pool.bits))
        (2 ^ (bits - pool.bits)) pool.addr room (omega (arith, room, block_le pool bits w))
        (ap (λ s. pool.addr + s) (sym (pool_size pool bits w)))

wrap_to_zero : (k addr : ℕ) → addr + 2 ^ k ≡ u32_mod → (addr + shl_one k) % u32_mod ≡ 0
unfolding shl_one
wrap_to_zero k addr e =
    add-mod-mod addr (2 ^ k) u32_mod ∙ ap (λ s. s % u32_mod) e ∙ mod_self u32_mod

ltb_zero : (m : ℕ) → ltb m 0 ≡ false
ltb_zero m = ground arith

never_starts :
    (pool : Prefix) (occupied : List Prefix) (bits fuel current : ℕ)
    → search_blocks pool occupied bits 0 (suc fuel) current ≡ no_block
unfolding search_blocks
never_starts pool occupied bits fuel current = rw (ltb_zero current)

-- In a pool that ends at 255.255.255.255 no block is found, whatever is occupied.
pub search_pool_top :
    (pool : Prefix) (bits : ℕ) (occupied : List Prefix)
    → pool.addr + 2 ^ (32 - pool.bits) ≡ u32_mod
    → search_pool pool occupied bits ≡ no_block
unfolding search_pool
search_pool_top pool bits occupied top =
    ap (λ e. search_blocks pool occupied bits e (search_fuel pool bits) pool.addr)
      (wrap_to_zero (32 - pool.bits) pool.addr top)
    ∙ never_starts pool occupied bits (2 ^ (bits - pool.bits)) pool.addr

first_fit-none :
    (p : Prefix → Bool) (bits n current : ℕ)
    → first_fit p bits n current ≡ none
    → (j : ℕ) → j < n
    → p (candidate_at bits (current + j * 2 ^ (32 - bits))) ≡ false
unfolding first_fit
first_fit-none p bits zero current h j less = absurd (omega (arith, less))
first_fit-none p bits (suc n) current h j less = elim (Bool-cases (p (candidate_at bits current))) [
  | inl e ↦ absurd (some_not_none _ (rw e at h))
  | inr e ↦ skipped j less e (first_fit-none p bits n (current + 2 ^ (32 - bits)) (rw e at h))
]
  where
    some_not_none : (a : Prefix) → ¬ (some a ≡ none)
    some_not_none a q = cc

    shifted : (i d : ℕ) → current + suc i * d ≡ current + d + i * d
    shifted i d = omega (arith, suc-mul i d)

    skipped :
        (i : ℕ)
        → i < suc n
        → p (candidate_at bits current) ≡ false
        → ((k : ℕ)
            → k < n
            → p (candidate_at bits (current + 2 ^ (32 - bits) + k * 2 ^ (32 - bits))) ≡ false)
        → p (candidate_at bits (current + i * 2 ^ (32 - bits))) ≡ false
    skipped zero small e rest = rw (zero-mul (2 ^ (32 - bits)), add-zero current) e
    skipped (suc i) small e rest = rw (shifted i (2 ^ (32 - bits))) (rest i (omega (arith, small)))

-- The address of a block of the pool: it is at a multiple of its size, and its last one is in the pool.
block_at :
    (pool : Prefix) (bits : ℕ) (w : IsPool pool bits) (j : ℕ)
    → (pool.addr + j * 2 ^ (32 - bits)) / 2 ^ (32 - bits) * 2 ^ (32 - bits)
      ≡ pool.addr + j * 2 ^ (32 - bits)
block_at pool bits w j =
    ap (λ x. x / d * d) multiple
    ∙ ap (λ q. q * d) (mul-div_cancel (w.block * n + j) (pow_pos (32 - bits)))
    ∙ sym multiple
  where
    d : ℕ
    d = 2 ^ (32 - bits)

    n : ℕ
    n = 2 ^ (bits - pool.bits)

    multiple : pool.addr + j * d ≡ (w.block * n + j) * d
    multiple =
        ap (λ a. a + j * d)
          (w.aligned ∙ ap (λ s. w.block * s) (pool_size pool bits w) ∙ sym (mul_assoc w.block n d))
        ∙ sym (add-mul (w.block * n) j d)

within : (n d j r : ℕ) → j < n → r < d → j * d + r < n * d
within n d j r less small = omega (arith, small, suc-mul j d, mul-le-mul_right d less)

-- An address of the pool, by its distance from the pool's first one.
pub pool_contains :
    (pool : Prefix) (bits : ℕ) (w : IsPool pool bits) (x : ℕ)
    → x < 2 ^ (32 - pool.bits)
    → contains pool ip4 (pool.addr + x) ≡ true
pool_contains pool bits w x small = contains_intro pool ip4 (pool.addr + x) w.four (
    ap (λ k. (pool.addr + x) / k) sized
    ∙ ap (λ a. (a + x) / s) w.aligned
    ∙ block_div w.block s x small
    ∙ sym (
        ap (λ k. pool.addr / k) sized
        ∙ ap (λ a. a / s) w.aligned
        ∙ mul-div_cancel w.block (pow_pos (32 - pool.bits))))
  where
    s : ℕ
    s = 2 ^ (32 - pool.bits)

    sized : size pool ≡ s
    sized = ap (λ f. 2 ^ (width f - pool.bits)) w.four

last_addr : (x d : ℕ) → zero < d → x + d < u32_mod → (x + d + (u32_mod - 1)) % u32_mod ≡ x + (d - 1)
last_addr x d pos room =
    ap (λ k. k % u32_mod) split_off
    ∙ add-mod_right (x + (d - 1)) u32_mod
    ∙ mod-eq_of_lt (omega (arith, pos, room))
  where
    split_off : x + d + (u32_mod - 1) ≡ x + (d - 1) + u32_mod
    split_off = omega (arith, pos)

-- Every block of the pool passes the test that it lies in the pool.
pool_holds_block :
    (pool : Prefix) (bits : ℕ) (w : IsPool pool bits)
    → pool.addr + 2 ^ (32 - pool.bits) < u32_mod
    → (j : ℕ) → j < 2 ^ (bits - pool.bits)
    → prefix_contains_prefix pool (candidate_at bits (pool.addr + j * 2 ^ (32 - bits))) ≡ true
unfolding prefix_contains_prefix candidate_at masked
pool_holds_block pool bits w room j less =
    rw
      (
        block_at pool bits w j,
        shl_one_small (32 - bits) (omega (arith, room, block_le pool bits w)),
        last_addr (pool.addr + j * d) d (pow_pos (32 - bits)) ends,
        pool_contains pool bits w (j * d) starts,
      )
      (subst (λ a. contains pool ip4 a ≡ true) (sym reassoc)
        (pool_contains pool bits w (j * d + (d - 1)) last))
  where
    d : ℕ
    d = 2 ^ (32 - bits)

    last : j * d + (d - 1) < 2 ^ (32 - pool.bits)
    last =
        subst (λ k. j * d + (d - 1) < k) (sym (pool_size pool bits w))
          (within (2 ^ (bits - pool.bits)) d j (d - 1) less (omega (arith, pow_pos (32 - bits))))

    starts : j * d < 2 ^ (32 - pool.bits)
    starts = omega (arith, last)

    ends : pool.addr + j * d + d < u32_mod
    ends = omega (arith, last, room, pow_pos (32 - bits))

    reassoc : pool.addr + j * d + (d - 1) ≡ pool.addr + (j * d + (d - 1))
    reassoc = omega arith

as_search-none : (o : Option Prefix) → as_search o ≡ no_block → o ≡ none
as_search-none none h = refl
as_search-none (some p) h = cc

all_but_one : (a b : Bool) → a && not b ≡ false → a ≡ true → b ≡ true
all_but_one a b h e = ground arith

-- A pool below the last address that has no block left: each of its blocks overlaps an occupied prefix.
pub search_pool_full :
    (pool : Prefix) (bits : ℕ) (occupied : List Prefix)
    → IsPool pool bits
    → pool.addr + 2 ^ (32 - pool.bits) < u32_mod
    → search_pool pool occupied bits ≡ no_block
    → (j : ℕ) → j < 2 ^ (bits - pool.bits)
    → overlaps_any (candidate_at bits (pool.addr + j * 2 ^ (32 - bits))) occupied ≡ true
unfolding suits
search_pool_full pool bits occupied w room h j less =
    all_but_one _ _
      (first_fit-none (suits pool occupied) bits (2 ^ (bits - pool.bits)) pool.addr
        (as_search-none _ (sym (search_pool_lem pool bits occupied w room) ∙ h)) j less)
      (pool_holds_block pool bits w room j less)
