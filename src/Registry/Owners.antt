-- ===== src/Registry/Owners.antt =====
-- Who owns a public name: the project whose domain it lies under, or the machine that holds it.
use sandcastle_incus.Prelude.{
  ◌≤◌, ◌≡◌, refl, Bool, true, false, inl, inr, List, [], ◌∷◌, All, All-imp, Pairwise, keep, length,
  Bool-cases, arith,
}
use sandcastle_incus.Prelude.Text.{Text}
use sandcastle_incus.Registry.Tables.{
  ProjectDomainClaim, MachineHostname, Db, bare, holds_claim, holds_hostname,
}
use sandcastle_incus.Registry.Scan.{meets}
use sandcastle_incus.Registry.Hostnames.{below_own_domain, may_coexist}
use sandcastle_incus.Registry.Overlap.{overlaps_of_meets}
use sandcastle_incus.Registry.Invariant.{IsConsistent, ClaimsApart}
use sandcastle_incus.Registry.Reach.{Reach, AlwaysRestoresFree, empty_db, Reach-IsConsistent}

-- The claims whose domain is the name or lies above it.
abbrev pub claims_over : Text → Db → List ProjectDomainClaim
claims_over n db = keep (λ c. meets n c.domain) db.claims

-- At most one claim is over a name; a hostname over it belongs to that claim's project, and two
-- hostnames over it belong to one machine.
pub record OneOwner (n : Text) (db : Db) : Type 0 where
  pub one_claim : length (claims_over n db) ≤ 1
  pub same_project :
      All
        (λ (h : MachineHostname).
          All
            (λ (c : ProjectDomainClaim).
              meets n c.domain ≡ true
              → meets n (bare h.hostname) ≡ true
              → holds_claim h.tenant h.project c ≡ true)
            db.claims)
        db.hostnames
  pub same_machine :
      Pairwise
        (λ (h e : MachineHostname).
          meets n (bare h.hostname) ≡ true
          → meets n (bare e.hostname) ≡ true
          → holds_hostname e.tenant e.project e.machine h ≡ true)
        db.hostnames

contradiction : (b : Bool) → b ≡ true → b ≡ false → ⊥
contradiction b p q = cc

not_over :
    (n : Text) (x : ProjectDomainClaim) (xs : List ProjectDomainClaim)
    → meets n x.domain ≡ true
    → All (ClaimsApart x) xs
    → keep (λ c. meets n c.domain) xs ≡ []
not_over n x [] over h = refl
not_over n x (c ∷ xs) over (apart, h) = elim (Bool-cases (meets n c.domain)) [
  | inl e ↦ absurd (contradiction _ (overlaps_of_meets n x.domain c.domain over e) apart.0)
  | inr e ↦ rw e (not_over n x xs over h)
]

one_claim_of :
    (n : Text) (xs : List ProjectDomainClaim)
    → Pairwise ClaimsApart xs
    → length (keep (λ c. meets n c.domain) xs) ≤ 1
one_claim_of n [] h = omega arith
one_claim_of n (x ∷ xs) (hx, h) = elim (Bool-cases (meets n x.domain)) [
  | inl e ↦ rw (e, not_over n x xs e hx) (omega arith)
  | inr e ↦ rw e (one_claim_of n xs h)
]

Pairwise-imp {ℓ κ μ} :
    {A : Type ℓ} (R : A → A → Type κ) (S : A → A → Type μ) (xs : List A)
    → ((x y : A) → R x y → S x y)
    → Pairwise R xs
    → Pairwise S xs
Pairwise-imp R S [] f h = tt
Pairwise-imp R S (x ∷ xs) f (hx, h) = (All-imp _ _ xs (f x) hx, Pairwise-imp R S xs f h)

below_own_holder :
    (h : MachineHostname) (c : ProjectDomainClaim)
    → below_own_domain h c ≡ true
    → holds_claim h.tenant h.project c ≡ true
unfolding below_own_domain
below_own_holder h c e = ground arith

coexist_holder :
    (e h : MachineHostname)
    → may_coexist e h ≡ true
    → holds_hostname e.tenant e.project e.machine h ≡ true
unfolding may_coexist
coexist_holder e h q = ground arith

-- In every database that these operations reach from an empty one, where every restored Project
-- Domain claim found nothing reserved against it when it was put back, and for each name, at most
-- one Project Domain lies over the name, every Machine Public Hostname over it belongs to the
-- project of that domain, and all those hostnames belong to one machine.
pub one_owner :
    {db : Db} (reach : Reach empty_db db) → AlwaysRestoresFree reach → (n : Text) → OneOwner n db
one_owner {db} reach free n =
    let safe : IsConsistent db = Reach-IsConsistent reach free in
    record {
      one_claim = one_claim_of n db.claims safe.claims_apart;
      same_project =
          All-imp _ _ db.hostnames
            (λ h out.
              All-imp _ _ db.claims
                (λ c either over_c over_h. elim either [
                  | inl apart ↦ absurd (
                      contradiction _ (overlaps_of_meets n c.domain (bare h.hostname) over_c over_h)
                        apart)
                  | inr own ↦ below_own_holder h c own
                ])
                out)
            safe.outside;
      same_machine =
          Pairwise-imp _ _ db.hostnames
            (λ h e apart over_h over_e. elim apart.1 [
              | inl clear ↦ absurd (
                  contradiction _
                    (overlaps_of_meets n (bare h.hostname) (bare e.hostname) over_h over_e) clear)
              | inr both ↦ coexist_holder e h both
            ])
            safe.hostnames_apart;
    }
