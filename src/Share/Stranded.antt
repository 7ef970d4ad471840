-- ===== src/Share/Stranded.antt =====
-- internal/share/share.go: a revocation that fails, and what a second one can do about it.
use sandcastle_incus.Prelude.{
  ◌≡◌, refl, sym, ap, subst, Bool, true, false, not, List, ◌⊎◌, inl, inr, Result, err, ok, arith,
}
use sandcastle_incus.Prelude.Text.{Text, teq, teq_refl, trim_space}
use sandcastle_incus.Share.Types.{
  TenantStorageShare, Summary, ShareError, World, with_shares, unless, set_tenant_shares,
}
use sandcastle_incus.Share.Names.{resolve_tenant}
use sandcastle_incus.Share.Lists.{share_id, share_lt, sort_shares, replace_share}
use sandcastle_incus.Share.Withdraw.{RevokeRequest, revoke_recipient, without_recipient}
use sandcastle_incus.Share.Distinct.{IsDistinct, All-sort_with}
use sandcastle_incus.Share.Outcome.{
  Outcome, Outcome-then_run, Outcome-lift, Outcome-get_tenant_shares, Outcome-unless,
  Outcome-set_tenant_shares, Outcome-set_tenant_shares_to, Outcome-read, Outcome-done, of_returned,
}
use sandcastle_incus.Share.Invariant.{HasDistinctIds, FoundIn, find_outbound-FoundIn}
use sandcastle_incus.Share.Fresh.{passed}
use sandcastle_incus.Share.Gone.{Anything, same_summary}
use sandcastle_incus.Share.Withheld.{
  NotOffered, replace_share-NotOffered, find_share-NotOffered, clash,
}

subst2 {ℓ} : {A : Type ℓ} {a a' b b' : A} (P : A → A → Type 0) → a ≡ a' → b ≡ b' → P a b → P a' b'
subst2 {a' = a'} {b = b} P p q h = subst (P a') q (subst (λ x. P x b) p h)

not-false : (b : Bool) → not b ≡ false → b ≡ true
not-false b g = ground arith

-- A last write may fail or not.
second_write :
    (I : World → Type 0) (dry_run : Bool) (n : Text) (list : List TenantStorageShare) (w : World)
    → I w
    → Outcome I (λ _. Anything) (unless dry_run (set_tenant_shares n list) w)
unfolding unless Outcome
second_write I true n list w h = tt
second_write I false n list w h = Outcome-set_tenant_shares_to I Anything n list w h tt

of_failed :
    (I : World → Type 0) (Q : TenantStorageShare → World → Type 0)
    (out : Result ShareError TenantStorageShare × World) (e : ShareError) (w : World)
    → Outcome I Q out
    → out ≡ (err e, w)
    → I w
unfolding Outcome
of_failed I Q (err e₁, w₁) e w h same = subst I (ap (λ out. out.1) same) h
of_failed I Q (ok a, w₁) e w h same = absurd (ok_not_err a e (ap (λ out. out.0) same))
  where
    ok_not_err :
        (x : TenantStorageShare) (f : ShareError)
        → ¬ (◌≡◌ {A = Result ShareError TenantStorageShare} (ok x) (err f))
    ok_not_err x f g = cc

module _ (summaries : List Summary) (request : RevokeRequest) (source recipient : Summary) where
  abbrev revoked_id : Text
  revoked_id = share_id source.tenant (trim_space request.source_project) (trim_space request.name)

  -- The source no longer offers the share, and the list of the recipient is as it was.
  abbrev pub IsStranded : World → World → Type 0
  IsStranded w w' =
      NotOffered revoked_id recipient.tenant (w'.shares source.incus_name)
      × (w'.shares recipient.incus_name ≡ w.shares recipient.incus_name)

  -- A revocation of a share that is not offered does not return.
  NotOffered-refused :
      resolve_tenant summaries request.source_tenant ≡ ok source
      → resolve_tenant summaries request.recipient_tenant ≡ ok recipient
      → (w : World) → NotOffered revoked_id recipient.tenant (w.shares source.incus_name)
      → Outcome Anything (λ _ _. ⊥) (revoke_recipient summaries request w)
  unfolding revoke_recipient
  NotOffered-refused of_source of_recipient w stranded =
      Outcome-lift Anything _ _ w _ tt λ (s : Summary) hs.
        Outcome-lift Anything _ _ w _ tt λ (r : Summary) hr.
          Outcome-read Anything _
            (FoundIn w s (trim_space request.source_project) (trim_space request.name)) _ w _
            (find_outbound-FoundIn s (trim_space request.source_project) (trim_space request.name)
              w)
            tt
            λ (pair : TenantStorageShare × List TenantStorageShare) f.
              Outcome-lift Anything _ _ w _ tt λ (_ : Unit {0}) offered. absurd (
                clash _ (not-false _ (passed _ _ offered)) (
                  find_share-NotOffered _ _ pair.1 pair.0
                    (subst
                      (λ (x : Summary).
                        NotOffered
                          (share_id s.tenant (trim_space request.source_project)
                            (trim_space request.name))
                          x.tenant pair.1)
                      (same_summary r recipient _ hr of_recipient)
                      (subst (NotOffered _ recipient.tenant) (sym f.0) (
                        subst
                          (λ (x : Summary).
                            NotOffered
                              (share_id x.tenant (trim_space request.source_project)
                                (trim_space request.name))
                              recipient.tenant (w.shares x.incus_name))
                          (same_summary s source _ hs of_source) stranded)))
                    f.1))

  -- The first write takes the offer back, and leaves the list of another tenant.
  write-IsStranded :
      teq recipient.incus_name source.incus_name ≡ false
      → (w : World) (found : TenantStorageShare) (shares : List TenantStorageShare)
      → IsDistinct shares
      → IsStranded w (
          with_shares source.incus_name
            (sort_shares
              (replace_share revoked_id (without_recipient found recipient.tenant) shares))
            w)
  unfolding sort_shares
  write-IsStranded apart w found shares distinct =
      rw (teq_refl source.incus_name, apart)
        (
          All-sort_with _ share_lt _
              (replace_share-NotOffered revoked_id recipient.tenant found shares distinct),
          refl,
        )

  revoke_recipient-Outcome :
      resolve_tenant summaries request.source_tenant ≡ ok source
      → resolve_tenant summaries request.recipient_tenant ≡ ok recipient
      → teq recipient.incus_name source.incus_name ≡ false
      → (w : World) → HasDistinctIds w
      → Outcome
          (λ w'. (w' ≡ w) ⊎ IsStranded w w')
          (λ _. Anything)
          (revoke_recipient summaries request w)
  unfolding revoke_recipient
  revoke_recipient-Outcome of_source of_recipient apart w distinct =
      let I = λ (w' : World). (w' ≡ w) ⊎ IsStranded w w' in
      let project = trim_space request.source_project in
      let name = trim_space request.name in
      Outcome-lift I _ _ w _ (inl refl) λ (s : Summary) hs.
        Outcome-lift I _ _ w _ (inl refl) λ (r : Summary) hr.
          Outcome-read I _ (FoundIn w s project name) _ w _ (find_outbound-FoundIn s project name w)
            (inl refl)
            λ (pair : TenantStorageShare × List TenantStorageShare) f.
              let written =
                subst2
                  (λ (x y : Summary). IsStranded w (
                    with_shares x.incus_name
                      (sort_shares (
                        replace_share (share_id x.tenant project name)
                          (without_recipient pair.0 y.tenant) pair.1))
                      w))
                  (same_summary s source _ hs of_source)
                  (same_summary r recipient _ hr of_recipient)
                  (write-IsStranded apart w pair.0 pair.1
                    (subst IsDistinct (sym f.0) (distinct s.incus_name))) in
              Outcome-lift I _ _ w _ (inl refl) λ (_ : Unit {0}) _.
                Outcome-lift I _ _ w _ (inl refl) λ (_ : Unit {0}) _.
                  Outcome-get_tenant_shares I _ r.incus_name w _ (inl refl) (
                    Outcome-then_run I (λ _. I) _ _ _
                      (Outcome-unless I request.dry_run _ w (inl refl)
                        (Outcome-set_tenant_shares I s.incus_name _ w (inl refl) (inr written)))
                      λ (_ : Unit {0}) w₁ before.
                        Outcome-then_run I (λ _. Anything) _ _ _
                          (second_write I request.dry_run r.incus_name _ w₁ before)
                          λ (_ : Unit {0}) w' _. Outcome-done I _ _ w' tt)

-- Where no list has two shares with one id, and the recipient and the source have lists of their
-- own, a revocation that ends with an error has changed nothing, or the source no longer offers
-- the share to the recipient, the list of the recipient is as it was, and the same revocation
-- never returns from the store that is left.
pub revoke_recipient_failed :
    (summaries : List Summary) (request : RevokeRequest) (source recipient : Summary) (w w' : World)
    (e : ShareError)
    → resolve_tenant summaries request.source_tenant ≡ ok source
    → resolve_tenant summaries request.recipient_tenant ≡ ok recipient
    → teq recipient.incus_name source.incus_name ≡ false
    → HasDistinctIds w
    → revoke_recipient summaries request w ≡ (err e, w')
    → (w' ≡ w)
      ⊎ (IsStranded summaries request source recipient w w'
          × ((out : TenantStorageShare) (w'' : World)
              → ¬ (revoke_recipient summaries request w' ≡ (ok out, w''))))
revoke_recipient_failed summaries request source recipient w w' e hs hr apart distinct h =
    let left =
      of_failed _ _ _ e w'
        (revoke_recipient-Outcome summaries request source recipient hs hr apart w distinct) h in
    elim left [
      | inl same ↦ inl same
      | inr stranded ↦ inr (
        stranded,
        λ out w'' again.
            of_returned Anything (λ _ _. ⊥) _ out w''
              (NotOffered-refused summaries request source recipient hs hr w' stranded.0) again,
      )
    ]
