-- ===== src/Cidr/Defs.antt =====
-- internal/cidr/allocator.go. An address is its number, and a `uint32` wraps at 2 ^ 32. The parser of
-- prefixes, `netip.ParsePrefix`, is an argument; it may return IPv6 prefixes too. The sizes of a prefix
-- are natural numbers: a negative one, which Go's int has, is refused like one below the pool's.
use sandcastle_incus.Prelude.{
  ℕ, zero, suc, ◌+◌, ◌-◌, ◌*◌, ◌/◌, ◌%◌, ◌^◌, Bool, true, false, not, ◌&&◌, ◌||◌, List, [], ◌∷◌,
  Option, none, some, if◌then◌else◌, exists, ltb, ◌==◌, Result, ok, err, ◌>>=◌, ◌>>◌, fail_if,
}
use sandcastle_incus.Prelude.Text.{Text}

pub data Family : Type 0 where
  ip4 ip6 : Family

-- `netip.Prefix`, as the allocator uses it.
pub record Prefix : Type 0 where
  pub family : Family
  pub addr : ℕ
  pub bits : ℕ

abbrev pub width : Family → ℕ
width ip4 = 32
width ip6 = 128

abbrev pub same_family : Family → Family → Bool
same_family ip4 ip4 = true
same_family ip6 ip6 = true
same_family _ _ = false

abbrev pub is4 : Prefix → Bool
is4 p = same_family ip4 p.family

-- The number of addresses of a prefix.
abbrev pub size : Prefix → ℕ
size p = 2 ^ (width p.family - p.bits)

-- `Masked`
unfoldable pub masked : Prefix → Prefix
masked p = record p { addr = p.addr / size p * size p }

-- `Contains`, at an address of the given family.
unfoldable pub contains : Prefix → Family → ℕ → Bool
contains p f a = same_family p.family f && (a / size p == p.addr / size p)

abbrev pub u32_mod : ℕ
u32_mod = 2 ^ 32

-- `uint32(1) << k`
unfoldable pub shl_one : ℕ → ℕ
shl_one k = 2 ^ k % u32_mod

pub data CidrError : Type 0 where
  bad_pool : Text → CidrError
  not_ipv4 : CidrError
  too_large : ℕ → Prefix → CidrError
  too_few_hosts : ℕ → CidrError
  bad_occupied : Text → CidrError
  exhausted : Prefix → ℕ → CidrError
  too_narrow : CidrError
  outside : ℕ → Prefix → CidrError

abbrev pub default_tenant_prefix_bits : ℕ
default_tenant_prefix_bits = 24

-- `prefixesOverlap`
unfoldable pub prefixes_overlap : Prefix → Prefix → Bool
prefixes_overlap a b = contains a b.family b.addr || contains b a.family a.addr

unfoldable pub overlaps_any : Prefix → List Prefix → Bool
overlaps_any candidate occupied = exists (prefixes_overlap candidate) occupied

-- `prefixContainsPrefix`
unfoldable pub prefix_contains_prefix : Prefix → Prefix → Bool
prefix_contains_prefix parent child =
    let last_child = (child.addr + shl_one (32 - child.bits) + (u32_mod - 1)) % u32_mod in
    contains parent child.family child.addr && contains parent ip4 last_child

-- `netip.PrefixFrom(uint32ToAddr(current), bits).Masked()`
unfoldable pub candidate_at : ℕ → ℕ → Prefix
candidate_at bits current = masked (record { family = ip4; addr = current; bits = bits })

-- Neither of the loop's two tests skips the candidate.
unfoldable pub suits : Prefix → List Prefix → Prefix → Bool
suits pool occupied candidate =
    prefix_contains_prefix pool candidate && not (overlaps_any candidate occupied)

pub data Search : Type 0 where
  found : Prefix → Search
  no_block : Search
  out_of_fuel : Search

-- The loop of `Allocate`.
unfoldable pub search_blocks : Prefix → List Prefix → ℕ → ℕ → ℕ → ℕ → Search
search_blocks pool occupied bits end zero current = out_of_fuel
search_blocks pool occupied bits end (suc fuel) current =
    let rest =
      search_blocks pool occupied bits end fuel ((current + shl_one (32 - bits)) % u32_mod) in
    if ltb current end
    then (if suits pool occupied (candidate_at bits current)
        then found (candidate_at bits current)
        else rest)
    else no_block

-- One step for every block of the pool, and one to leave the loop.
abbrev pub search_fuel : Prefix → ℕ → ℕ
search_fuel pool bits = suc (2 ^ (bits - pool.bits))

unfoldable pub search_pool : Prefix → List Prefix → ℕ → Search
search_pool pool occupied bits =
    search_blocks pool occupied bits ((pool.addr + shl_one (32 - pool.bits)) % u32_mod)
      (search_fuel pool bits) pool.addr

abbrev pub or_error {ℓ} : {A : Type ℓ} → CidrError → Option A → Result CidrError A
or_error e none = err e
or_error e (some a) = ok a

-- What the loop's end is reported as.
abbrev pub outcome : Prefix → ℕ → Search → Result CidrError (Option Prefix)
outcome pool bits (found p) = ok (some p)
outcome pool bits no_block = err (exhausted pool bits)
outcome pool bits out_of_fuel = ok none

-- The size of a block: 0 asks for the default.
abbrev pub effective_bits : ℕ → ℕ
effective_bits tenant_prefix_bits =
    if tenant_prefix_bits == 0 then default_tenant_prefix_bits else tenant_prefix_bits

-- The three checks of a pool and a size.
unfoldable pub check_sizes : Prefix → ℕ → Result CidrError (Prefix × ℕ)
check_sizes pool bits = do
  fail_if (not (is4 pool)) not_ipv4
  fail_if (ltb bits pool.bits) (too_large bits pool)
  fail_if (ltb 30 bits) (too_few_hosts bits)
  ok (pool, bits)

module _ (parse_prefix : Text → Option Prefix) where
  -- `parseOccupied`
  unfoldable pub parse_occupied : List Text → Result CidrError (List Prefix)
  parse_occupied [] = ok []
  parse_occupied (value ∷ values) = do
    p ← or_error (bad_occupied value) (parse_prefix value)
    ps ← parse_occupied values
    ok (masked p ∷ ps)

  -- The pool and the size of a block, behind the checks of `Allocate`.
  unfoldable pub check_pool : Text → ℕ → Result CidrError (Prefix × ℕ)
  check_pool pool tenant_prefix_bits = do
    p ← or_error (bad_pool pool) (parse_prefix pool)
    check_sizes (masked p) (effective_bits tenant_prefix_bits)

  -- `Allocate`; `none` is a loop without end.
  unfoldable pub allocate : Text → ℕ → List Text → Result CidrError (Option Prefix)
  allocate pool tenant_prefix_bits occupied = do
    (q, bits) ← check_pool pool tenant_prefix_bits
    taken ← parse_occupied occupied
    outcome q bits (search_pool q taken bits)

-- `RoleAddress`; the octet is a byte.
unfoldable pub role_address : Prefix → ℕ → Result CidrError ℕ
role_address tenant host_octet =
    let addr = ((masked tenant).addr + host_octet) % u32_mod in
    if not (is4 tenant) || ltb 24 tenant.bits
    then err too_narrow
    else if not (contains tenant ip4 addr)
    then err (outside host_octet tenant)
    else ok addr
