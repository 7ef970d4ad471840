-- ===== src/Share/Withheld.antt =====
-- internal/share/share.go: when a list offers a share to nobody of a name.
use sandcastle_incus.Prelude.{
  ◌≡◌, refl, sym, ◌∙◌, subst, Bool, true, false, not, List, [], ◌∷◌, inl, inr, All, All-imp, keep,
  exists, Bool-cases, some,
}
use sandcastle_incus.Prelude.Text.{Text, teq, teq_comm, eq_of_teq}
use sandcastle_incus.Share.Types.{TenantStorageShare, TenantStorageShareRecipient}
use sandcastle_incus.Share.Lists.{
  id_of, find_share, replace_share, share_offered_to, remove_recipient,
}
use sandcastle_incus.Share.Withdraw.{without_recipient}
use sandcastle_incus.Share.Distinct.{IsDistinct}

pub clash : (b : Bool) → b ≡ true → ¬ (b ≡ false)
clash b p q = cc

-- No share of the list with this id is offered to the tenant.
abbrev pub NotOffered : Text → Text → List TenantStorageShare → Type 0
NotOffered id tenant shares =
    All (λ (s : TenantStorageShare). teq (id_of s) id ≡ true → share_offered_to s tenant ≡ false)
      shares

none_kept :
    (tenant : Text) (recipients : List TenantStorageShareRecipient)
    → exists
        (λ (r : TenantStorageShareRecipient). teq r.tenant tenant)
        (keep (λ (r : TenantStorageShareRecipient). not (teq r.tenant tenant)) recipients)
      ≡ false
none_kept tenant [] = refl
none_kept tenant (r ∷ recipients) = elim (Bool-cases (teq r.tenant tenant)) [
  | inl e ↦ rw e (none_kept tenant recipients)
  | inr e ↦ rw (e, e) (none_kept tenant recipients)
]

without_recipient-not_offered :
    (s : TenantStorageShare) (tenant : Text)
    → share_offered_to (without_recipient s tenant) tenant ≡ false
unfolding share_offered_to remove_recipient
without_recipient-not_offered s tenant = none_kept tenant s.recipients

pub replace_share-NotOffered :
    (id tenant : Text) (found : TenantStorageShare) (shares : List TenantStorageShare)
    → IsDistinct shares
    → NotOffered id tenant (replace_share id (without_recipient found tenant) shares)
unfolding replace_share
replace_share-NotOffered id tenant found [] distinct = tt
replace_share-NotOffered id tenant found (s ∷ shares) (hs, distinct) =
    elim (Bool-cases (teq (id_of s) id)) [
      | inl e ↦ rw e (
        (λ _. without_recipient-not_offered found tenant),
        All-imp _ _ shares
            (λ t apart same. absurd (
              clash _
                (subst (λ x. teq x (id_of t) ≡ true) (sym (eq_of_teq _ _ e))
                  (teq_comm id (id_of t) ∙ same))
                apart))
            hs,
      )
      | inr e ↦ rw e (
        (λ same. absurd (clash _ same e)),
        replace_share-NotOffered id tenant found shares distinct,
      )
    ]

pub find_share-NotOffered :
    (id tenant : Text) (shares : List TenantStorageShare) (found : TenantStorageShare)
    → NotOffered id tenant shares
    → find_share shares id ≡ some found
    → share_offered_to found tenant ≡ false
unfolding find_share
find_share-NotOffered id tenant [] found h first = absurd cc
find_share-NotOffered id tenant (s ∷ shares) found h first = elim (Bool-cases (teq (id_of s) id)) [
  | inl e ↦ subst (λ x. share_offered_to x tenant ≡ false) (some_eq s found (rw e at first)) (h.0 e)
  | inr e ↦ find_share-NotOffered id tenant shares found h.1 (rw e at first)
]
  where
    some_eq : (a b : TenantStorageShare) → some a ≡ some b → a ≡ b
    some_eq a b g = cc
