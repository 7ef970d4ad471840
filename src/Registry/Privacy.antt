-- ===== src/Registry/Privacy.antt =====
-- A refusal of a claim never tells one tenant about another's reservations.
use sandcastle_incus.Prelude.{
  ◌≡◌, subst, arith, Bool, true, false, ◌&&◌, ◌||◌, ◌⊎◌, inl, inr, List, [], ◌∷◌, some, exists,
  Bool-cases,
}
use sandcastle_incus.Prelude.Text.{Text, teq, teq_refl}
use sandcastle_incus.Registry.Tables.{ProjectDomainClaim, under, holds_claim}
use sandcastle_incus.Registry.Scan.{
  DomainConflict, DomainClaimError, claim_refusal, scan_project_domain_claim_conflicts,
}
use sandcastle_incus.Registry.Claims.Texts.{show_domain_claim_error, anonymous_text}

-- The text names nobody, or one of the claims is the asking tenant's and is the one that is named.
abbrev pub IsDiscreet : Text → Text → List ProjectDomainClaim → DomainClaimError → Type 0
IsDiscreet d tenant claims e =
    (show_domain_claim_error e ≡ anonymous_text d)
    ⊎ (exists
          (λ (c : ProjectDomainClaim).
            teq c.tenant tenant && (teq c.domain e.existing && teq c.project e.project))
          claims
        ≡ true)

some_eq : (x y : DomainClaimError) → some x ≡ some y → x ≡ y
some_eq x y h = cc

or_right : (a b : Bool) → b ≡ true → a || b ≡ true
or_right a b h = ground arith

-- A class whose text names nobody where the tenants differ.
abbrev IsAnonymous : Text → Text → ProjectDomainClaim → DomainConflict → Type 0
IsAnonymous d tenant c class =
    teq c.tenant tenant ≡ false
    → show_domain_claim_error (claim_refusal d tenant c class) ≡ anonymous_text d

refused_by :
    (d tenant : Text) (c : ProjectDomainClaim) (claims : List ProjectDomainClaim)
    (class : DomainConflict) (e : DomainClaimError)
    → IsAnonymous d tenant c class
    → some (claim_refusal d tenant c class) ≡ some e
    → IsDiscreet d tenant (c ∷ claims) e
refused_by d tenant c claims class e anonymous h =
    subst (IsDiscreet d tenant (c ∷ claims)) (some_eq _ e h)
      (elim (Bool-cases (teq c.tenant tenant)) [
        | inl own ↦ inr (rw (own, teq_refl c.domain, teq_refl c.project))
        | inr other ↦ inl (anonymous other)
      ])

later :
    (d tenant : Text) (c : ProjectDomainClaim) (claims : List ProjectDomainClaim)
    (e : DomainClaimError)
    → IsDiscreet d tenant claims e
    → IsDiscreet d tenant (c ∷ claims) e
later d tenant c claims e (inl text) = inl text
later d tenant c claims e (inr own) = inr (or_right _ _ own)

-- The refusal of a Project Domain by another one either has the text that names nobody, or names a
-- claim of the very tenant that asks.
pub scan_claims-IsDiscreet :
    (d tenant project : Text) (claims : List ProjectDomainClaim) (e : DomainClaimError)
    → scan_project_domain_claim_conflicts d tenant project claims ≡ some e
    → IsDiscreet d tenant claims e
unfolding scan_project_domain_claim_conflicts show_domain_claim_error
scan_claims-IsDiscreet d tenant project [] e h = cc
scan_claims-IsDiscreet d tenant project (c ∷ claims) e h =
    let next = λ (k : scan_project_domain_claim_conflicts d tenant project claims ≡ some e).
      later d tenant c claims e (scan_claims-IsDiscreet d tenant project claims e k) in
    elim (Bool-cases (holds_claim tenant project c)) [
      | inl own ↦ next (rw own at h)
      | inr own ↦ elim (Bool-cases (teq c.domain d)) [
        | inl q ↦
            refused_by d tenant c claims DomainConflict.exact e (λ other. rw other)
              (rw (own, q) at h)
        | inr q ↦ elim (Bool-cases (under c.domain d)) [
          | inl r ↦
              refused_by d tenant c claims DomainConflict.ancestor e (λ other. rw other)
                (rw (own, q, r) at h)
          | inr r ↦ elim (Bool-cases (under d c.domain)) [
            | inl t ↦
                refused_by d tenant c claims DomainConflict.descendant e (λ other. rw other)
                  (rw (own, q, r, t) at h)
            | inr t ↦ next (rw (own, q, r, t) at h)
          ]
        ]
      ]
    ]
