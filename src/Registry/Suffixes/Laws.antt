-- ===== src/Registry/Suffixes/Laws.antt =====
-- What claiming a Tenant DNS Suffix promises.
use sandcastle_incus.Prelude.{
  ◌≡◌, refl, sym, ◌∙◌, ap, subst, Bool, true, false, inl, inr, List, [], ◌∷◌, ◌++◌, All, All-imp,
  All-of_exists_false, Pairwise, Pairwise-keep, Pairwise-snoc, find_first, exists, Bool-cases,
  Option, none, some, Result, ok, err, ||-eq-false,
}
use sandcastle_incus.Prelude.Text.{Text, teq, teq_refl, eq_of_teq, trim_space, trim_space_idem}
use sandcastle_incus.Domain.{is_nil}
use sandcastle_incus.Registry.Tables.{SuffixClaim, Db}
use sandcastle_incus.Registry.Suffixes.Defs.{
  SuffixError, suffix_collides, insert_suffix, normalize_dns_suffix, claim_dns_suffix,
  classify_collision, claim_inserted, suffix_found, get_dns_suffix_claim_by_tenant,
  release_dns_suffix_claim, release_each, reconcile_dns_suffix_claims,
}

-- Two claims: two suffixes and two tenants.
abbrev pub SuffixesApart : SuffixClaim → SuffixClaim → Type 0
SuffixesApart c e = (teq c.suffix e.suffix ≡ false) × (teq c.tenant e.tenant ≡ false)

-- One suffix has one tenant, and one tenant has one suffix.
abbrev pub IsInjective : Db → Type 0
IsInjective db = Pairwise SuffixesApart db.suffixes

some_eq {ℓ} : {A : Type ℓ} (x y : A) → some x ≡ some y → x ≡ y
some_eq x y h = cc

none_not_some {ℓ} : {A : Type ℓ} (x : A) → ¬ (none ≡ some x)
none_not_some x h = cc

insert_suffix-some :
    (row : SuffixClaim) (db : Db) {db' : Db}
    → insert_suffix row db ≡ some db'
    → (db' ≡ record db { suffixes = db.suffixes ++ row ∷ [] })
      × All (λ c. suffix_collides row c ≡ false) db.suffixes
unfolding insert_suffix
insert_suffix-some row db h = elim (Bool-cases (exists (suffix_collides row) db.suffixes)) [
  | inl e ↦ absurd (none_not_some _ (rw e at h))
  | inr e ↦ (sym (some_eq _ _ (rw e at h)), All-of_exists_false (suffix_collides row) db.suffixes e)
]

-- An operation that writes `dns_suffix_claims` alone and keeps it one-to-one.
abbrev pub KeepsSuffixes : Db → Db → Type 0
KeepsSuffixes db db' =
    (db' ≡ record db { suffixes = db'.suffixes }) × (IsInjective db → IsInjective db')

KeepsSuffixes-refl : (db : Db) → KeepsSuffixes db db
KeepsSuffixes-refl db = (refl, λ h. h)

insert_suffix-Keeps :
    (row : SuffixClaim) (db : Db) {db' : Db}
    → insert_suffix row db ≡ some db'
    → KeepsSuffixes db db'
unfolding suffix_collides
insert_suffix-Keeps row db h =
    let (written, free) = insert_suffix-some row db h in
    subst (KeepsSuffixes db) (sym written) (
      refl,
      λ apart. Pairwise-snoc SuffixesApart db.suffixes row apart (
          All-imp _ _ db.suffixes
            (λ c e. ||-eq-false (teq c.suffix row.suffix) (teq c.tenant row.tenant) e) free),
    )

claim_inserted-Keeps :
    (norm owner : Text) (row : SuffixClaim) (o : Option Db) (db : Db)
    → insert_suffix row db ≡ o
    → KeepsSuffixes db (claim_inserted norm owner o db).1
unfolding claim_inserted
claim_inserted-Keeps norm owner row (some db') db h = insert_suffix-Keeps row db h
claim_inserted-Keeps norm owner row none db h = KeepsSuffixes-refl db

-- ClaimDNSSuffix writes no other table, and where suffixes and tenants were one to one they still
-- are.
pub claim_dns_suffix-Keeps :
    (suffix tenant user_key : Text) (db : Db)
    → KeepsSuffixes db (claim_dns_suffix suffix tenant user_key db).1
unfolding claim_dns_suffix
claim_dns_suffix-Keeps suffix tenant user_key db =
    elim (Bool-cases (is_nil (normalize_dns_suffix suffix))) [
      | inl e ↦ rw e (KeepsSuffixes-refl db)
      | inr e ↦ elim (Bool-cases (is_nil (trim_space tenant))) [
        | inl e' ↦ rw (e, e') (KeepsSuffixes-refl db)
        | inr e' ↦
            rw (e, e')
              (claim_inserted-Keeps (normalize_dns_suffix suffix) (trim_space tenant) _ _ db refl)
      ]
    ]

pub release_dns_suffix_claim-Keeps :
    (tenant : Text) (db : Db) → KeepsSuffixes db (release_dns_suffix_claim tenant db)
unfolding release_dns_suffix_claim
release_dns_suffix_claim-Keeps tenant db =
    (refl, λ apart. Pairwise-keep SuffixesApart _ db.suffixes apart)

KeepsSuffixes-trans : (a b c : Db) → KeepsSuffixes a b → KeepsSuffixes b c → KeepsSuffixes a c
KeepsSuffixes-trans a b c (p, f) (q, g) =
    (q ∙ ap (λ (d : Db). record d { suffixes = c.suffixes }) p, λ h. g (f h))

release_each-Keeps : (tenants : List Text) (db : Db) → KeepsSuffixes db (release_each tenants db)
unfolding release_each
release_each-Keeps [] db = KeepsSuffixes-refl db
release_each-Keeps (tenant ∷ tenants) db =
    KeepsSuffixes-trans db (release_dns_suffix_claim tenant db) _
      (release_dns_suffix_claim-Keeps tenant db)
      (release_each-Keeps tenants (release_dns_suffix_claim tenant db))

-- ReconcileDNSSuffixClaims writes no other table, and where suffixes and tenants were one to one
-- they still are.
pub reconcile_dns_suffix_claims-Keeps :
    (live : List Text) (db : Db) → KeepsSuffixes db (reconcile_dns_suffix_claims live db).1
unfolding reconcile_dns_suffix_claims
reconcile_dns_suffix_claims-Keeps live db = release_each-Keeps _ db

find_first-snoc {ℓ} :
    {A : Type ℓ} (p : A → Bool) (xs : List A) (x : A)
    → All (λ y. p y ≡ false) xs
    → p x ≡ true
    → find_first p (xs ++ x ∷ []) ≡ some x
find_first-snoc p [] x h e = rw e
find_first-snoc p (y ∷ xs) x (hy, h) e = rw hy (find_first-snoc p xs x h e)

get_by_tenant_lem :
    (tenant : Text) (db : Db)
    → get_dns_suffix_claim_by_tenant tenant db
      ≡ suffix_found
          (find_first (λ (c : SuffixClaim). teq c.tenant (trim_space tenant)) db.suffixes)
unfolding get_dns_suffix_claim_by_tenant
get_by_tenant_lem tenant db = refl

-- Space around a tenant does not count.
get_by_tenant-trim :
    (tenant : Text) (db : Db)
    → get_dns_suffix_claim_by_tenant (trim_space tenant) db
      ≡ get_dns_suffix_claim_by_tenant tenant db
get_by_tenant-trim tenant db =
    get_by_tenant_lem (trim_space tenant) db
    ∙ ap (λ t. suffix_found (find_first (λ (c : SuffixClaim). teq c.tenant t) db.suffixes))
        (trim_space_idem tenant)
    ∙ sym (get_by_tenant_lem tenant db)

-- A fresh row is found by its tenant.
inserted_found :
    (row : SuffixClaim) (db : Db) {db' : Db}
    → trim_space row.tenant ≡ row.tenant
    → insert_suffix row db ≡ some db'
    → get_dns_suffix_claim_by_tenant row.tenant db' ≡ some row.suffix
unfolding suffix_collides suffix_found
inserted_found row db clean h =
    let (written, free) = insert_suffix-some row db h in
    ap (get_dns_suffix_claim_by_tenant row.tenant) written
    ∙ get_by_tenant_lem row.tenant (record db { suffixes = db.suffixes ++ row ∷ [] })
    ∙ ap
        (λ t.
          suffix_found (find_first (λ (c : SuffixClaim). teq c.tenant t) (db.suffixes ++ row ∷ [])))
        clean
    ∙ ap suffix_found (
        find_first-snoc (λ (c : SuffixClaim). teq c.tenant row.tenant) db.suffixes row
          (All-imp _ _ db.suffixes
            (λ c e. (||-eq-false (teq c.suffix row.suffix) (teq c.tenant row.tenant) e).1) free)
          (teq_refl row.tenant))

classify_held :
    (norm : Text) (held : Option Text) {s : Text}
    → classify_collision norm held ≡ ok s
    → (s ≡ norm) × (held ≡ some s)
unfolding classify_collision
classify_held norm none h = cc
classify_held norm (some existing) {s} h = elim (Bool-cases (teq existing norm)) [
  | inl e ↦
      let same : norm ≡ s = ok_eq _ _ (rw e at h) in
      (sym same, ap some (eq_of_teq existing norm e ∙ same))
  | inr e ↦ absurd (err_not_ok _ _ (rw e at h))
]
  where
    ok_eq : (a b : Text) → ◌≡◌ {A = Result SuffixError Text} (ok a) (ok b) → a ≡ b
    ok_eq a b q = cc

    err_not_ok : (a : SuffixError) (b : Text) → ¬ (◌≡◌ {A = Result SuffixError Text} (err a) (ok b))
    err_not_ok a b q = cc

claim_inserted_holds :
    (row : SuffixClaim) (o : Option Db) (db : Db) (s : Text)
    → trim_space row.tenant ≡ row.tenant
    → insert_suffix row db ≡ o
    → (claim_inserted row.suffix row.tenant o db).0 ≡ ok s
    → (s ≡ row.suffix)
      × (get_dns_suffix_claim_by_tenant row.tenant (claim_inserted row.suffix row.tenant o db).1
          ≡ some s)
unfolding claim_inserted
claim_inserted_holds row none db s clean h e = classify_held row.suffix _ e
claim_inserted_holds row (some db') db s clean h e =
    let same : s ≡ row.suffix = cc in (same, inserted_found row db clean h ∙ ap some (sym same))

err_not_ok : (a : SuffixError) (b : Text) → ¬ (◌≡◌ {A = Result SuffixError Text} (err a) (ok b))
err_not_ok a b q = cc

-- A suffix claim that succeeds, a new one or a repeated one, returns the lower-case suffix without
-- outer spaces, and the tenant then holds that suffix.
pub claim_dns_suffix_holds :
    (suffix tenant user_key : Text) (db : Db) (s : Text)
    → (claim_dns_suffix suffix tenant user_key db).0 ≡ ok s
    → (s ≡ normalize_dns_suffix suffix)
      × (get_dns_suffix_claim_by_tenant tenant (claim_dns_suffix suffix tenant user_key db).1
          ≡ some s)
unfolding claim_dns_suffix
claim_dns_suffix_holds suffix tenant user_key db s h =
    elim (Bool-cases (is_nil (normalize_dns_suffix suffix))) [
      | inl e ↦ absurd (err_not_ok _ _ (rw e at h))
      | inr e ↦ elim (Bool-cases (is_nil (trim_space tenant))) [
        | inl e' ↦ absurd (err_not_ok _ _ (rw (e, e') at h))
        | inr e' ↦
            let row : SuffixClaim = record {
              suffix = normalize_dns_suffix suffix;
              tenant = trim_space tenant;
              user_key = trim_space user_key;
            } in
            let (same, found) =
              claim_inserted_holds row (insert_suffix row db) db s (trim_space_idem tenant) refl
                (rw (e, e') at h) in
            rw (e, e') (same, sym (get_by_tenant-trim tenant _) ∙ found)
      ]
    ]
