-- ===== src/Cidr/Total.antt =====
-- `Allocate` as a whole: it ends, and when it reports an exhausted pool there is a reason.
use sandcastle_incus.Prelude.{
  ℕ, ◌+◌, ◌-◌, ◌*◌, ◌/◌, ◌^◌, ◌≤◌, ◌<◌, ◌≡◌, refl, sym, ◌∙◌, ap, subst, arith, Bool, true, false,
  not, ◌⊎◌, inl, inr, List, Option, none, some, ltb, Result, ok, >>=-eq-ok, fail_if-eq-ok, ◌≢◌,
}
use sandcastle_incus.Prelude.Text.{Text}
use native.Mathlib.Nat.{div-lt_iff_lt-mul, suc-mul, mul-le-mul_right, mul_comm}
use sandcastle_incus.Cidr.Blocks.{pow_pos, pow_split}
use sandcastle_incus.Cidr.Search.{as_search}
use sandcastle_incus.Cidr.Room.{IsPool, search_pool_lem, search_pool_top, search_pool_full}
use sandcastle_incus.Cidr.Defs.{
  ip4, ip6, Prefix, width, is4, size, masked, u32_mod, CidrError, Search, found, no_block,
  out_of_fuel, candidate_at, search_pool, overlaps_any, outcome, allocate, check_pool,
  parse_occupied, check_sizes, effective_bits, bad_pool, or_error, Family, same_family,
}

-- What `netip.ParsePrefix` returns: an address of its family's width, and no more bits than it has.
abbrev pub ParsesWell : (Text → Option Prefix) → Type 0
ParsesWell parse_prefix =
    (t : Text) (p : Prefix)
    → parse_prefix t ≡ some p
    → (p.addr < 2 ^ width p.family) × (p.bits ≤ width p.family)

masked_end :
    (a b : ℕ) → a < u32_mod → b ≤ 32 → a / 2 ^ (32 - b) * 2 ^ (32 - b) + 2 ^ (32 - b) ≤ u32_mod
masked_end a b small le =
    let s = 2 ^ (32 - b) in
    let k = 2 ^ (32 - (32 - b)) in
    let whole : u32_mod ≡ k * s = pow_split (32 - b) 32 (omega arith) ∙ mul_comm s k in
    let quotient : a / s < k =
      (div-lt_iff_lt-mul (pow_pos (32 - b))).1 (omega (arith, small, whole)) in
    omega (arith, suc-mul (a / s) s, mul-le-mul_right s quotient, whole)

is4_family : (p : Prefix) → is4 p ≡ true → p.family ≡ ip4
is4_family p h = family_of p.family h
  where
    family_of : (f : Family) → same_family ip4 f ≡ true → f ≡ ip4
    family_of ip4 e = refl
    family_of ip6 e = cc

or_error_ok : (e : CidrError) (o : Option Prefix) {p : Prefix} → or_error e o ≡ ok p → o ≡ some p
or_error_ok e none h = cc
or_error_ok e (some q) h = cc

ok_inner : (x y : Prefix × ℕ) → ◌≡◌ {A = Result CidrError (Prefix × ℕ)} (ok x) (ok y) → x ≡ y
ok_inner x y h = cc

ltb-false : (m n : ℕ) → ltb m n ≡ false → n ≤ m
ltb-false m n h = ground arith

not-false : (b : Bool) → not b ≡ false → b ≡ true
not-false b h = ground arith

check_sizes_ok :
    (pool q : Prefix) (b bits : ℕ)
    → check_sizes pool b ≡ ok (q, bits)
    → (pool ≡ q) × (b ≡ bits) × (pool.family ≡ ip4) × (pool.bits ≤ b) × (b ≤ 30)
unfolding check_sizes
check_sizes_ok pool q b bits h =
    let (four, h₁) = fail_if-eq-ok (not (is4 pool)) _ _ h in
    let (fits, h₂) = fail_if-eq-ok (ltb b pool.bits) _ _ h₁ in
    let (hosts, h₃) = fail_if-eq-ok (ltb 30 b) _ _ h₂ in
    let same = ok_inner (pool, b) (q, bits) h₃ in
    (
      ap (λ x. x.0) same,
      ap (λ x. x.1) same,
      is4_family pool (not-false _ four),
      ltb-false _ _ fits,
      ltb-false _ _ hosts,
    )

-- A masked IPv4 prefix lies at a multiple of its size and inside the address space.
pub masked-IsPool :
    (p : Prefix) (bits : ℕ)
    → p.addr < 2 ^ width p.family
    → p.family ≡ ip4
    → p.bits ≤ bits
    → bits ≤ 30
    → IsPool (masked p) bits × ((masked p).addr + 2 ^ (32 - p.bits) ≤ u32_mod)
unfolding masked
masked-IsPool p bits small four fits hosts = (
  record {
    four = four;
    block = p.addr / size p;
    aligned = ap (λ s. p.addr / size p * s) sized;
    fits = fits;
    hosts = hosts;
  },
  subst (λ s. p.addr / s * s + 2 ^ (32 - p.bits) ≤ u32_mod) (sym sized)
      (masked_end p.addr p.bits (subst (λ f. p.addr < 2 ^ width f) four small)
        (omega (arith, fits, hosts))),
)
  where
    sized : size p ≡ 2 ^ (32 - p.bits)
    sized = ap (λ f. 2 ^ (width f - p.bits)) four

as_search_ends : (o : Option Prefix) → as_search o ≢ out_of_fuel
as_search_ends none h = cc
as_search_ends (some p) h = cc

no_block_ends : no_block ≢ out_of_fuel
no_block_ends h = cc

below_or_at : (m n : ℕ) → m ≤ n → (m < n) ⊎ (m ≡ n)
below_or_at m n h = ground arith

-- The loop ends in every pool.
search_pool_ends :
    (pool : Prefix) (bits : ℕ) (occupied : List Prefix)
    → IsPool pool bits
    → pool.addr + 2 ^ (32 - pool.bits) ≤ u32_mod
    → search_pool pool occupied bits ≢ out_of_fuel
search_pool_ends pool bits occupied w le h = elim (below_or_at _ _ le) [
  | inl room ↦ as_search_ends _ (sym (search_pool_lem pool bits occupied w room) ∙ h)
  | inr top ↦ no_block_ends (sym (search_pool_top pool bits occupied top) ∙ h)
]

outcome-none :
    (pool : Prefix) (bits : ℕ) (s : Search) → outcome pool bits s ≡ ok none → s ≡ out_of_fuel
outcome-none pool bits (found p) h = cc
outcome-none pool bits no_block h = cc
outcome-none pool bits out_of_fuel h = refl

module _ (parse_prefix : Text → Option Prefix) (parses : ParsesWell parse_prefix) where
  -- The pool that passes the checks: aligned, IPv4, and inside the address space.
  pub check_pool_ok :
      (pool : Text) (tenant_prefix_bits : ℕ) (q : Prefix) (bits : ℕ)
      → check_pool parse_prefix pool tenant_prefix_bits ≡ ok (q, bits)
      → IsPool q bits × (q.addr + 2 ^ (32 - q.bits) ≤ u32_mod)
  unfolding check_pool masked
  check_pool_ok pool tenant_prefix_bits q bits h =
      let (p, parsed, h₁) = >>=-eq-ok (or_error (bad_pool pool) (parse_prefix pool)) _ h in
      let b = effective_bits tenant_prefix_bits in
      let (same, same_bits, four, fits, hosts) = check_sizes_ok (masked p) q b bits h₁ in
      let pool_of = masked-IsPool p b (parses pool p (or_error_ok _ _ parsed)).0 four fits hosts in
      subst (λ r. IsPool r bits × (r.addr + 2 ^ (32 - r.bits) ≤ u32_mod)) same
        (subst (λ k. IsPool (masked p) k × ((masked p).addr + 2 ^ (32 - p.bits) ≤ u32_mod))
          same_bits pool_of)

  -- With a parser that returns addresses of their width, the loop of Allocate always ends: with a
  -- block, or with one of the errors.
  pub allocate_ends :
      (pool : Text) (tenant_prefix_bits : ℕ) (occupied : List Text)
      → allocate parse_prefix pool tenant_prefix_bits occupied ≢ ok none
  unfolding allocate
  allocate_ends pool tenant_prefix_bits occupied h =
      let ((q, bits), checked, h₁) =
        >>=-eq-ok (check_pool parse_prefix pool tenant_prefix_bits) _ h in
      let (taken, parsed, h₂) = >>=-eq-ok (parse_occupied parse_prefix occupied) _ h₁ in
      let (w, le) = check_pool_ok pool tenant_prefix_bits q bits checked in
      search_pool_ends q bits taken w le (outcome-none q bits _ h₂)

  -- With such a parser, a pool that passes the checks and occupied prefixes among which no block
  -- is found, the pool ends at the last address or every one of its blocks overlaps an occupied
  -- prefix.
  pub search_pool_none :
      (pool : Text) (tenant_prefix_bits : ℕ) (q : Prefix) (bits : ℕ) (taken : List Prefix)
      → check_pool parse_prefix pool tenant_prefix_bits ≡ ok (q, bits)
      → search_pool q taken bits ≡ no_block
      → (q.addr + 2 ^ (32 - q.bits) ≡ u32_mod)
        ⊎ ((j : ℕ)
            → j < 2 ^ (bits - q.bits)
            → overlaps_any (candidate_at bits (q.addr + j * 2 ^ (32 - bits))) taken ≡ true)
  search_pool_none pool tenant_prefix_bits q bits taken checked h =
      let (w, le) = check_pool_ok pool tenant_prefix_bits q bits checked in
      elim (below_or_at _ _ le) [
        | inl room ↦ inr (search_pool_full q bits taken w room h)
        | inr top ↦ inl top
      ]
