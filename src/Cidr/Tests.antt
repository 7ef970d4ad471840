-- ===== src/Cidr/Tests.antt =====
-- The allocator on a small pool.
use sandcastle_incus.Prelude.{
  ℕ, ◌+◌, ◌-◌, ◌*◌, ◌^◌, ◌≤◌, ◌<◌, ◌≡◌, ◌≢◌, refl, subst, arith, true, false, ◌⊎◌, inl, inr,
  Bool-cases, List, [], ◌∷◌, Option, none, some, if◌then◌else◌, ok,
}
use sandcastle_incus.Prelude.Text.{Text, codes, teq}
use sandcastle_incus.Cidr.Defs.{
  ip4, Prefix, width, masked, contains, u32_mod, shl_one, no_block, candidate_at, suits,
  search_blocks, search_pool, overlaps_any, prefixes_overlap, prefix_contains_prefix, allocate,
  check_pool, check_sizes, parse_occupied, role_address,
}
use sandcastle_incus.Cidr.Search.{first_fit, as_search}
use sandcastle_incus.Cidr.Grants.{IsGrant, allocate_sound}
use sandcastle_incus.Cidr.Room.{IsPool, search_pool_lem, search_pool_top}
use sandcastle_incus.Cidr.Total.{ParsesWell, allocate_ends, search_pool_none}
use sandcastle_incus.Cidr.Roles.{
  role_address_total, role_address_apart, dns_host_octet, gateway_host_octet,
}

abbrev ten : ℕ
ten = 10 * 2 ^ 24

-- 10.0.0.0/22
abbrev pool : Prefix
pool = record { family = ip4; addr = ten; bits = 22 }

-- 10.0.0.0/24
abbrev first_block : Prefix
first_block = record { family = ip4; addr = ten; bits = 24 }

abbrev second_block : Prefix
second_block = record { family = ip4; addr = ten + 256; bits = 24 }

-- A parser that knows two prefixes.
parse_sample : Text → Option Prefix
parse_sample t =
    if teq t (codes "10.0.0.0/22")
    then some pool
    else if teq t (codes "10.0.0.0/24")
    then some first_block
    else none

fits_pool :
    (p : Prefix) → some pool ≡ some p → (p.addr < 2 ^ width p.family) × (p.bits ≤ width p.family)
fits_pool p h =
    subst (λ q. (q.addr < 2 ^ width q.family) × (q.bits ≤ width q.family)) same
      (omega arith, omega arith)
  where
    same : pool ≡ p
    same = cc

fits_block :
    (p : Prefix)
    → some first_block ≡ some p
    → (p.addr < 2 ^ width p.family) × (p.bits ≤ width p.family)
fits_block p h =
    subst (λ q. (q.addr < 2 ^ width q.family) × (q.bits ≤ width q.family)) same
      (omega arith, omega arith)
  where
    same : first_block ≡ p
    same = cc

none_not_some : (p : Prefix) → ¬ (none ≡ some p)
none_not_some p h = cc

parse_sample-ParsesWell : ParsesWell parse_sample
unfolding parse_sample
parse_sample-ParsesWell t p h = elim (Bool-cases (teq t (codes "10.0.0.0/22"))) [
  | inl e ↦ fits_pool p (rw e at h)
  | inr e ↦ elim (Bool-cases (teq t (codes "10.0.0.0/24"))) [
    | inl e' ↦ fits_block p (rw (e, e') at h)
    | inr e' ↦ absurd (none_not_some p (rw (e, e') at h))
  ]
]

second_run :
    allocate parse_sample (codes "10.0.0.0/22") 0 (codes "10.0.0.0/24" ∷ [])
    ≡ ok (some second_block)
unfolding allocate check_pool check_sizes parse_occupied parse_sample search_pool search_blocks
    suits candidate_at overlaps_any prefixes_overlap prefix_contains_prefix contains masked shl_one
    teq
second_run = refl

checked_run : check_pool parse_sample (codes "10.0.0.0/22") 24 ≡ ok (pool, 24)
unfolding check_pool check_sizes parse_sample masked teq
checked_run = refl

allocate_sound_example :
    (q : Prefix) × (bits : ℕ) × (taken : List Prefix) × (check_pool parse_sample
        (codes "10.0.0.0/22")
        0
      ≡ ok (q, bits))
    × (parse_occupied parse_sample (codes "10.0.0.0/24" ∷ []) ≡ ok taken)
    × IsGrant q bits taken second_block
allocate_sound_example =
    allocate_sound parse_sample (codes "10.0.0.0/22") 0 (codes "10.0.0.0/24" ∷ []) second_block
      second_run

allocate_ends_example :
    allocate parse_sample (codes "10.0.0.0/22") 0 (codes "10.0.0.0/24" ∷ []) ≢ ok none
allocate_ends_example =
    allocate_ends parse_sample parse_sample-ParsesWell (codes "10.0.0.0/22") 0
      (codes "10.0.0.0/24" ∷ [])

full_run : search_pool pool (pool ∷ []) 24 ≡ no_block
unfolding search_pool search_blocks suits candidate_at overlaps_any prefixes_overlap
    prefix_contains_prefix contains masked shl_one
full_run = refl

search_pool_none_example :
    (ten + 2 ^ 10 ≡ u32_mod)
    ⊎ ((j : ℕ) → j < 4 → overlaps_any (candidate_at 24 (ten + j * 2 ^ 8)) (pool ∷ []) ≡ true)
search_pool_none_example =
    search_pool_none parse_sample parse_sample-ParsesWell (codes "10.0.0.0/22") 24 pool 24
      (pool ∷ []) checked_run full_run

pool-IsPool : IsPool pool 24
pool-IsPool = record {
  four = refl;
  block = 10 * 2 ^ 14;
  aligned = refl;
  fits = omega arith;
  hosts = omega arith;
}

search_pool_lem_example :
    search_pool pool (first_block ∷ []) 24
    ≡ as_search (first_fit (suits pool (first_block ∷ [])) 24 4 ten)
search_pool_lem_example = search_pool_lem pool 24 (first_block ∷ []) pool-IsPool (omega arith)

-- 255.255.252.0/22
abbrev top_pool : Prefix
top_pool = record { family = ip4; addr = 2 ^ 32 - 2 ^ 10; bits = 22 }

search_pool_top_example : search_pool top_pool [] 24 ≡ no_block
search_pool_top_example = search_pool_top top_pool 24 [] refl

role_address_total_example : role_address pool dns_host_octet ≡ ok ((masked pool).addr + 3)
role_address_total_example =
    role_address_total pool dns_host_octet refl (omega arith) (omega arith) (omega arith)

dns_run : role_address first_block dns_host_octet ≡ ok (ten + 3)
unfolding role_address masked contains
dns_run = refl

gateway_run : role_address second_block gateway_host_octet ≡ ok (ten + 257)
unfolding role_address masked contains
gateway_run = refl

apart_run : prefixes_overlap first_block second_block ≡ false
unfolding prefixes_overlap contains
apart_run = refl

role_address_apart_example : ten + 3 ≢ ten + 257
role_address_apart_example =
    role_address_apart first_block second_block dns_host_octet gateway_host_octet (ten + 3)
      (ten + 257) apart_run dns_run gateway_run
