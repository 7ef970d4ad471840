-- ===== src/Registry/Suffixes/Defs.antt =====
-- internal/authapp/dns_suffix_claims.go: the operations on `dns_suffix_claims`. The two time stamps
-- of a row are left out: nothing reads them.
use sandcastle_incus.Prelude.{
  ℕ, Bool, not, ◌||◌, List, [], ◌∷◌, ◌++◌, if◌then◌else◌, Option, none, some, map, keep, find_first,
  exists, length, Result, ok, err,
}
use sandcastle_incus.Prelude.Text.{Text, teq, trim_space, to_lower}
use sandcastle_incus.Domain.{is_nil}
use sandcastle_incus.Registry.Tables.{SuffixClaim, Db}

-- `SuffixClaimError`: a foreign suffix, or another one of the tenant's own.
pub data SuffixError : Type 0 where
  suffix_required tenant_required : SuffixError
  taken : Text → SuffixError
  immutable : Text → SuffixError

unfoldable pub normalize_dns_suffix : Text → Text
normalize_dns_suffix suffix = to_lower (trim_space suffix)

-- PRIMARY KEY (suffix), UNIQUE (tenant)
unfoldable pub suffix_collides : SuffixClaim → SuffixClaim → Bool
suffix_collides row c = teq c.suffix row.suffix || teq c.tenant row.tenant

unfoldable pub insert_suffix : SuffixClaim → Db → Option Db
insert_suffix row db =
    if exists (suffix_collides row) db.suffixes
    then none
    else some (record db { suffixes = db.suffixes ++ row ∷ [] })

unfoldable pub suffix_found : Option SuffixClaim → Option Text
suffix_found none = none
suffix_found (some c) = some c.suffix

-- `GetDNSSuffixClaimByTenant`
unfoldable pub get_dns_suffix_claim_by_tenant : Text → Db → Option Text
get_dns_suffix_claim_by_tenant tenant db =
    suffix_found (find_first (λ (c : SuffixClaim). teq c.tenant (trim_space tenant)) db.suffixes)

-- What a refused INSERT is reported as.
unfoldable pub classify_collision : Text → Option Text → Result SuffixError Text
classify_collision norm none = err (taken norm)
classify_collision norm (some existing) =
    if teq existing norm then ok norm else err (immutable existing)

-- What the INSERT came to.
unfoldable pub claim_inserted : Text → Text → Option Db → Db → Result SuffixError Text × Db
claim_inserted norm owner (some db') db = (ok norm, db')
claim_inserted norm owner none db =
    (classify_collision norm (get_dns_suffix_claim_by_tenant owner db), db)

-- `ClaimDNSSuffix`
unfoldable pub claim_dns_suffix : Text → Text → Text → Db → Result SuffixError Text × Db
claim_dns_suffix suffix tenant user_key db =
    let norm = normalize_dns_suffix suffix in
    let owner = trim_space tenant in
    if is_nil norm
    then (err suffix_required, db)
    else if is_nil owner
    then (err tenant_required, db)
    else claim_inserted norm owner
        (insert_suffix (record { suffix = norm; tenant = owner; user_key = trim_space user_key })
          db)
        db

-- `ReleaseDNSSuffixClaim`
unfoldable pub release_dns_suffix_claim : Text → Db → Db
release_dns_suffix_claim tenant db = record db {
  suffixes = keep (λ c. not (teq c.tenant (trim_space tenant))) db.suffixes;
}

unfoldable pub release_each : List Text → Db → Db
release_each [] db = db
release_each (tenant ∷ tenants) db = release_each tenants (release_dns_suffix_claim tenant db)

-- `ReconcileDNSSuffixClaims`: the number of claims pruned.
unfoldable pub reconcile_dns_suffix_claims : List Text → Db → ℕ × Db
reconcile_dns_suffix_claims live_tenants db =
    let orphans =
      keep (λ (t : Text). not (exists (λ l. teq (trim_space l) t) live_tenants))
        (map (λ (c : SuffixClaim). c.tenant) db.suffixes) in
    (length orphans, release_each orphans db)
