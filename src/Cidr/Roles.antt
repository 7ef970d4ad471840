-- ===== src/Cidr/Roles.antt =====
-- internal/cidr/allocator.go, `RoleAddress`, and roles.go: the addresses of a tenant's own services.
use sandcastle_incus.Prelude.{
  ℕ, ◌+◌, ◌-◌, ◌/◌, ◌%◌, ◌^◌, ◌≤◌, ◌<◌, ◌≡◌, ◌≢◌, sym, ap, subst, arith, true, false, not, ◌||◌,
  ltb, Bool-cases, inl, inr, Result, ok, err,
}
use native.Mathlib.Nat.{mod-eq_of_lt, mul-div_cancel, pow-le-pow_right}
use sandcastle_incus.Cidr.Blocks.{pow_pos, prefixes_disjoint}
use sandcastle_incus.Cidr.Room.{pool_contains}
use sandcastle_incus.Cidr.Total.{masked-IsPool}
use sandcastle_incus.Cidr.Defs.{
  Family, ip4, Prefix, width, is4, same_family, size, masked, contains, u32_mod, CidrError,
  prefixes_overlap, role_address,
}

abbrev pub gateway_host_octet : ℕ
gateway_host_octet = 1

abbrev pub tailscale_host_octet : ℕ
tailscale_host_octet = 2

abbrev pub dns_host_octet : ℕ
dns_host_octet = 3

-- A /24 or larger has an address for each octet.
octet_small : (bits octet : ℕ) → bits ≤ 24 → octet < 256 → octet < 2 ^ (32 - bits)
octet_small bits octet le small = omega (arith, small, grows)
  where
    grows : 2 ^ 8 ≤ 2 ^ (32 - bits)
    grows = pow-le-pow_right (omega arith) {i = 8} {j = 32 - bits} (omega (arith, le))

wide : (bits : ℕ) → bits ≤ 24 → ltb 24 bits ≡ false
wide bits le = ground arith

same_masked :
    (p : Prefix) (f : Family) (x : ℕ) → contains (masked p) f x ≡ true → contains p f x ≡ true
unfolding contains masked
same_masked p f x h = rw (mul-div_cancel (p.addr / size p) (pow_pos (width p.family - p.bits))) at h

-- The first address and the octet make an address of the prefix, without wrapping around.
role_in_block :
    (tenant : Prefix) (host_octet : ℕ)
    → tenant.family ≡ ip4
    → tenant.addr < u32_mod
    → tenant.bits ≤ 24
    → host_octet < 256
    → (((masked tenant).addr + host_octet) % u32_mod ≡ (masked tenant).addr + host_octet)
      × (contains tenant ip4 ((masked tenant).addr + host_octet) ≡ true)
unfolding masked
role_in_block tenant host_octet four small le octet =
    let (w, ends) =
      masked-IsPool tenant 24 (subst (λ f. tenant.addr < 2 ^ width f) (sym four) small) four le
        (omega arith) in
    let in_block = octet_small tenant.bits host_octet le octet in
    (
      mod-eq_of_lt (omega (arith, ends, in_block)),
      same_masked tenant ip4 ((masked tenant).addr + host_octet)
          (pool_contains (masked tenant) 24 w host_octet in_block),
    )

-- In an IPv4 prefix of a /24 or larger every octet below 256 has an address, the masked first one
-- plus the octet, without wrapping around.
pub role_address_total :
    (tenant : Prefix) (host_octet : ℕ)
    → tenant.family ≡ ip4
    → tenant.addr < u32_mod
    → tenant.bits ≤ 24
    → host_octet < 256
    → role_address tenant host_octet ≡ ok ((masked tenant).addr + host_octet)
unfolding role_address
role_address_total tenant host_octet four small le octet =
    let (word, held) = role_in_block tenant host_octet four small le octet in
    let v4 : is4 tenant ≡ true = ap (same_family ip4) four in
    rw (v4, wide tenant.bits le, word, held)

err_not_ok : (e : CidrError) (x : ℕ) → ¬ (◌≡◌ {A = Result CidrError ℕ} (err e) (ok x))
err_not_ok e x h = cc

ok_eq : (x y : ℕ) → ◌≡◌ {A = Result CidrError ℕ} (ok x) (ok y) → x ≡ y
ok_eq x y h = cc

-- A role address is an address of the prefix.
pub role_address_inside :
    (tenant : Prefix) (host_octet x : ℕ)
    → role_address tenant host_octet ≡ ok x
    → contains tenant ip4 x ≡ true
unfolding role_address
role_address_inside tenant host_octet x h =
    let addr = ((masked tenant).addr + host_octet) % u32_mod in
    elim (Bool-cases (not (is4 tenant) || ltb 24 tenant.bits)) [
      | inl e ↦ absurd (err_not_ok _ _ (rw e at h))
      | inr e ↦ elim (Bool-cases (contains tenant ip4 addr)) [
        | inl e' ↦ subst (λ a. contains tenant ip4 a ≡ true) (ok_eq addr x (rw (e, e') at h)) e'
        | inr e' ↦ absurd (err_not_ok _ _ (rw (e, e') at h))
      ]
    ]

-- Role addresses of two prefixes that do not overlap are different.
pub role_address_apart :
    (a b : Prefix) (octet octet' x y : ℕ)
    → prefixes_overlap a b ≡ false
    → role_address a octet ≡ ok x
    → role_address b octet' ≡ ok y
    → x ≢ y
role_address_apart a b octet octet' x y apart ha hb same =
    prefixes_disjoint a b ip4 x apart (role_address_inside a octet x ha)
      (subst (λ z. contains b ip4 z ≡ true) (sym same) (role_address_inside b octet' y hb))
