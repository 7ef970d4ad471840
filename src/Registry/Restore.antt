-- ===== src/Registry/Restore.antt =====
-- internal/authapp/project_domain_claims.go, `restoreProjectDomainClaim`: the compensation of a failed
-- write inserts without a scan.
use sandcastle_incus.Prelude.{
  ◌≡◌, true, false, List, [], ◌∷◌, ◌++◌, All, Pairwise, exists, Bool-cases, inl, inr, arith, ◌⊎◌,
  All-imp, All-zip, All-append, All-of_exists_false, Pairwise-snoc,
}
use sandcastle_incus.Registry.Tables.{
  ProjectDomainClaim, MachineHostname, Route, Db, claim_collides, insert_claim, under,
}
use sandcastle_incus.Registry.Claims.{restore_project_domain_claim}
use sandcastle_incus.Registry.Overlap.{overlaps}
use sandcastle_incus.Registry.Invariant.{IsConsistent, ClaimsApart, Outside, RouteOutside}

apart_from_last :
    (claim : ProjectDomainClaim) (xs : List ProjectDomainClaim)
    → exists (λ (c : ProjectDomainClaim). under c.domain claim.domain) xs ≡ true
    → ¬ Pairwise ClaimsApart (xs ++ claim ∷ [])
unfolding overlaps
apart_from_last claim [] below h = cc
apart_from_last claim (c ∷ xs) below (hc, h) = elim (Bool-cases (under c.domain claim.domain)) [
  | inl e ↦ clash (last xs hc).0 e
  | inr e ↦ apart_from_last claim xs (rw e at below) h
]
  where
    last :
        (ys : List ProjectDomainClaim)
        → All (ClaimsApart c) (ys ++ claim ∷ [])
        → ClaimsApart c claim
    last [] g = g.0
    last (y ∷ ys) g = last ys g.1

    clash : overlaps c.domain claim.domain ≡ false → ¬ (under c.domain claim.domain ≡ true)
    clash p q = ground arith

-- Where the old domain and its project are free but a name below the domain was claimed meanwhile,
-- restoring the old claim leaves the registry inconsistent.
pub restore_breaks :
    (claim : ProjectDomainClaim) (db : Db)
    → exists (claim_collides claim) db.claims ≡ false
    → exists (λ (c : ProjectDomainClaim). under c.domain claim.domain) db.claims ≡ true
    → ¬ IsConsistent (restore_project_domain_claim claim db)
unfolding restore_project_domain_claim insert_claim
restore_breaks claim db free below safe =
    let inserted : IsConsistent (record db { claims = db.claims ++ claim ∷ [] }) =
      rw (free, restore_project_domain_claim, insert_claim) at safe in
    apart_from_last claim db.claims below inserted.claims_apart

-- Nothing is reserved against the claim: every other claim that does not make the INSERT fail has a
-- domain apart from its own, every hostname lies apart from it or belongs to its project, and no route
-- lies in it.
pub record IsFreeFor (claim : ProjectDomainClaim) (db : Db) : Type 0 where
  pub claims :
      All
        (λ (c : ProjectDomainClaim).
          (overlaps c.domain claim.domain ≡ false) ⊎ (claim_collides claim c ≡ true))
        db.claims
  pub hostnames : All (λ (h : MachineHostname). Outside h claim) db.hostnames
  pub routes : All (λ (r : Route). RouteOutside r claim.domain) db.routes

apart_unless_collides :
    (claim : ProjectDomainClaim) (c : ProjectDomainClaim)
    → (overlaps c.domain claim.domain ≡ false) ⊎ (claim_collides claim c ≡ true)
    → claim_collides claim c ≡ false
    → ClaimsApart c claim
unfolding claim_collides
apart_unless_collides claim c either alone = elim either [
  | inl e ↦ (e, ground arith)
  | inr e ↦ absurd cc
]

-- Putting an old claim back keeps the registry consistent where nothing is reserved against it.
pub restore_project_domain_claim-IsConsistent :
    (claim : ProjectDomainClaim) (db : Db)
    → IsFreeFor claim db
    → IsConsistent db
    → IsConsistent (restore_project_domain_claim claim db)
unfolding restore_project_domain_claim insert_claim
restore_project_domain_claim-IsConsistent claim db free safe =
    elim (Bool-cases (exists (claim_collides claim) db.claims)) [
      | inl e ↦ rw (e, restore_project_domain_claim, insert_claim) safe
      | inr e ↦
          rw (e, restore_project_domain_claim, insert_claim)
            (record {
              claims_apart = Pairwise-snoc ClaimsApart db.claims claim safe.claims_apart (
                  All-imp _ _ db.claims (λ c p. apart_unless_collides claim c p.0 p.1)
                    (All-zip _ _ db.claims free.claims
                      (All-of_exists_false (claim_collides claim) db.claims e)));
              hostnames_apart = safe.hostnames_apart;
              outside =
                  All-imp _ _ db.hostnames
                    (λ h p. All-append (Outside h) db.claims (claim ∷ []) p.0 (p.1, tt))
                    (All-zip _ _ db.hostnames safe.outside free.hostnames);
              routes_claims =
                  All-imp _ _ db.routes
                    (λ r p.
                      All-append (λ (c : ProjectDomainClaim). RouteOutside r c.domain) db.claims
                        (claim ∷ []) p.0 (p.1, tt))
                    (All-zip _ _ db.routes safe.routes_claims free.routes);
              routes_hostnames = safe.routes_hostnames;
            })
    ]
