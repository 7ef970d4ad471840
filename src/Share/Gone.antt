-- ===== src/Share/Gone.antt =====
-- internal/share/share.go: what a recipient is left with after a share was revoked or deleted.
use sandcastle_incus.Prelude.{
  ◌≡◌, subst, arith, Bool, true, false, not, List, [], ◌∷◌, All, All-keep, All-keep_of, All-of_keep,
  All-imp, All-map, Bool-cases, inl, inr, Result, ok,
}
use sandcastle_incus.Prelude.Text.{Text, teq, eq_of_teq, teq_refl, trim_space, text_lt}
use sandcastle_incus.Domain.{is_nil}
use sandcastle_incus.Share.Copies.{All-of_sort_with}
use sandcastle_incus.Share.Types.{
  TenantStorageShare, TenantStorageShareRecipient, Summary, ShareError, World, with_shares,
}
use sandcastle_incus.Share.Names.{resolve_tenant}
use sandcastle_incus.Share.Lists.{
  share_id, id_of, share_lt, sort_shares, remove_share, share_recipients,
}
use sandcastle_incus.Share.Withdraw.{
  RevokeRequest, DeleteRequest, revoke_recipient, remove_copies, delete_outbound,
}
use sandcastle_incus.Share.Distinct.{All-sort_with}
use sandcastle_incus.Share.Outcome.{
  Outcome, Outcome-then_run, Outcome-lift, Outcome-get_tenant_shares, Outcome-set_tenant_shares,
  Outcome-unless, Outcome-unless_wet, Outcome-set_tenant_shares_to, of_returned, Outcome-read,
  Outcome-done, Outcome-both, Outcome-imp,
}
use sandcastle_incus.Share.Invariant.{FoundIn, find_outbound-FoundIn}

-- No share of the list kept under this name has the id.
abbrev pub IsGone : Text → Text → World → Type 0
IsGone id n w = All (λ (s : TenantStorageShare). teq (id_of s) id ≡ false) (w.shares n)

not-of : (b : Bool) → not b ≡ true → b ≡ false
not-of b h = ground arith

remove_share-gone :
    (shares : List TenantStorageShare) (t p n : Text)
    → All
        (λ (s : TenantStorageShare). teq (id_of s) (share_id t p n) ≡ false)
        (remove_share shares t p n)
unfolding remove_share sort_shares
remove_share-gone shares t p n =
    All-sort_with _ share_lt _
      (All-keep_of _ (λ s. not (teq (id_of s) (share_id t p n))) shares (each shares))
  where
    each :
        (xs : List TenantStorageShare)
        → All
            (λ (s : TenantStorageShare).
              not (teq (id_of s) (share_id t p n)) ≡ true → teq (id_of s) (share_id t p n) ≡ false)
            xs
    each [] = tt
    each (s ∷ xs) = (not-of (teq (id_of s) (share_id t p n)), each xs)

All-remove_share :
    (P : TenantStorageShare → Type 0) (shares : List TenantStorageShare) (t p n : Text)
    → All P shares
    → All P (remove_share shares t p n)
unfolding remove_share sort_shares
All-remove_share P shares t p n h = All-sort_with _ share_lt _ (All-keep _ _ shares h)

with_shares-here :
    (id n : Text) (list : List TenantStorageShare) (w : World)
    → All (λ (s : TenantStorageShare). teq (id_of s) id ≡ false) list
    → IsGone id n (with_shares n list w)
with_shares-here id n list w h = rw (teq_refl n) h

-- Removing more copies brings none back.
with_shares-IsGone :
    (id m n t p nm : Text) (w : World)
    → IsGone id m w
    → IsGone id m (with_shares n (remove_share (w.shares n) t p nm) w)
with_shares-IsGone id m n t p nm w h = elim (Bool-cases (teq m n)) [
  | inl e ↦ rw e (
      All-remove_share (λ s. teq (id_of s) id ≡ false) (w.shares n) t p nm
        (subst (λ x. IsGone id x w) (eq_of_teq m n e) h))
  | inr e ↦ rw e h
]

abbrev pub Anything : World → Type 0
Anything w = Unit {0}

pub same_summary : (s t : Summary) (r : Result ShareError Summary) → r ≡ ok s → r ≡ ok t → t ≡ s
same_summary s t r hs ht = cc

module _ (summaries : List Summary) (request : RevokeRequest) (source recipient : Summary)
    (of_source : resolve_tenant summaries request.source_tenant ≡ ok source)
    (of_recipient : resolve_tenant summaries request.recipient_tenant ≡ ok recipient)
    (wet : request.dry_run ≡ false) where
  revoked :
      (w : World)
      → Outcome Anything
          (λ _.
            IsGone
              (share_id source.tenant (trim_space request.source_project) (trim_space request.name))
              recipient.incus_name)
          (revoke_recipient summaries request w)
  unfolding revoke_recipient
  revoked w =
      let project = trim_space request.source_project in
      let name = trim_space request.name in
      let Q = λ (s r : Summary). IsGone (share_id s.tenant project name) r.incus_name in
      Outcome-lift Anything _ _ w _ tt λ (s : Summary) hs.
        Outcome-lift Anything _ _ w _ tt λ (r : Summary) hr.
          Outcome-read Anything _ (FoundIn w s project name) _ w _
            (find_outbound-FoundIn s project name w) tt
            λ (pair : TenantStorageShare × List TenantStorageShare) f.
              Outcome-lift Anything _ _ w _ tt λ (_ : Unit {0}) _.
                Outcome-lift Anything _ _ w _ tt λ (_ : Unit {0}) _.
                  Outcome-get_tenant_shares Anything _ r.incus_name w _ tt (
                    Outcome-then_run Anything (λ _. Anything) _ _ _
                      (Outcome-unless Anything request.dry_run _ w tt
                        (Outcome-set_tenant_shares Anything s.incus_name _ w tt tt))
                      λ (_ : Unit {0}) w₁ _.
                        Outcome-then_run Anything (λ _. Q s r) _ _ _
                          (Outcome-unless_wet Anything (λ _. Q s r) request.dry_run _ w₁ wet
                            (Outcome-set_tenant_shares_to Anything (Q s r) r.incus_name _ w₁ tt (
                              with_shares-here (share_id s.tenant project name) r.incus_name _ w₁
                                (remove_share-gone (w.shares r.incus_name) s.tenant project name))))
                          λ (_ : Unit {0}) w' gone. Outcome-done Anything _ _ w' (
                            subst (λ x. Q x recipient w') (same_summary source s _ of_source hs)
                              (subst (λ x. Q s x w') (same_summary recipient r _ of_recipient hr)
                                gone)))

-- After a revocation that is no dry run and returned, the list of the recipient has no share with
-- the id of the revoked one.
pub revoke_recipient-IsGone :
    (summaries : List Summary) (request : RevokeRequest) (source recipient : Summary) (w w' : World)
    (out : TenantStorageShare)
    → resolve_tenant summaries request.source_tenant ≡ ok source
    → resolve_tenant summaries request.recipient_tenant ≡ ok recipient
    → request.dry_run ≡ false
    → revoke_recipient summaries request w ≡ (ok out, w')
    → IsGone
        (share_id source.tenant (trim_space request.source_project) (trim_space request.name))
        recipient.incus_name
        w'
revoke_recipient-IsGone summaries request source recipient w w' out hs hr wet h =
    of_returned Anything _ _ out w' (revoked summaries request source recipient hs hr wet w) h

module _ (summaries : List Summary) (t p n : Text) where
  -- What is gone stays gone while the copies are removed.
  remove_copies-IsGone_before :
      (m : Text) (tenants : List Text) (w : World)
      → IsGone (share_id t p n) m w
      → Outcome Anything (λ _. IsGone (share_id t p n) m) (remove_copies summaries t p n tenants w)
  unfolding remove_copies
  remove_copies-IsGone_before m [] w h = Outcome-done Anything _ tt w h
  remove_copies-IsGone_before m (tenant ∷ tenants) w h =
      Outcome-lift Anything _ _ w _ tt λ (r : Summary) _.
        Outcome-get_tenant_shares Anything _ r.incus_name w _ tt (
          Outcome-then_run Anything (λ _. IsGone (share_id t p n) m) _ _ _
            (Outcome-set_tenant_shares_to Anything (IsGone (share_id t p n) m) r.incus_name _ w tt
              (with_shares-IsGone (share_id t p n) m r.incus_name t p n w h))
            λ (_ : Unit {0}) w' h'. remove_copies-IsGone_before m tenants w' h')

  -- The list of this tenant has no copy.
  abbrev pub LostBy : World → Text → Type 0
  LostBy w tenant =
      (r : Summary) × (resolve_tenant summaries tenant ≡ ok r)
      × IsGone (share_id t p n) r.incus_name w

  remove_copies-gone :
      (tenants : List Text) (w : World)
      → Outcome Anything (λ _ w'. All (LostBy w') tenants) (remove_copies summaries t p n tenants w)
  unfolding remove_copies
  remove_copies-gone [] w = Outcome-done Anything _ tt w tt
  remove_copies-gone (tenant ∷ tenants) w = Outcome-lift Anything _ _ w _ tt λ (r : Summary) hr.
      Outcome-get_tenant_shares Anything _ r.incus_name w _ tt (
        Outcome-then_run Anything (λ _. IsGone (share_id t p n) r.incus_name) _ _ _
          (Outcome-set_tenant_shares_to Anything (IsGone (share_id t p n) r.incus_name) r.incus_name
            _ w tt
            (with_shares-here (share_id t p n) r.incus_name _ w
              (remove_share-gone (w.shares r.incus_name) t p n)))
          λ (_ : Unit {0}) w₁ gone.
            Outcome-imp Anything _ _ _
              (Outcome-both Anything (λ _. IsGone (share_id t p n) r.incus_name)
                (λ _ w'. All (LostBy w') tenants) _
                (remove_copies-IsGone_before r.incus_name tenants w₁ gone)
                (remove_copies-gone tenants w₁))
              λ _ w' both. ((r, hr, both.0), both.1))

module _ (summaries : List Summary) (request : DeleteRequest) (source : Summary)
    (of_source : resolve_tenant summaries request.source_tenant ≡ ok source)
    (wet : request.dry_run ≡ false) where
  deleted :
      (w : World)
      → Outcome Anything
          (λ out w'.
            All
              (LostBy summaries source.tenant
                (trim_space request.source_project)
                (trim_space request.name)
                w')
              (share_recipients out))
          (delete_outbound summaries request w)
  unfolding delete_outbound
  deleted w =
      let project = trim_space request.source_project in
      let name = trim_space request.name in
      Outcome-lift Anything _ _ w _ tt λ (s : Summary) hs.
        Outcome-read Anything _ (FoundIn w s project name) _ w _
          (find_outbound-FoundIn s project name w) tt
          λ (pair : TenantStorageShare × List TenantStorageShare) f.
            Outcome-then_run Anything (λ _. Anything) _ _ _
              (Outcome-unless Anything request.dry_run _ w tt
                (Outcome-set_tenant_shares Anything s.incus_name _ w tt tt))
              λ (_ : Unit {0}) w₁ _.
                Outcome-then_run Anything
                  (λ _ w'.
                    All (LostBy summaries s.tenant project name w') (share_recipients pair.0))
                  _ _ _
                  (Outcome-unless_wet Anything _ request.dry_run _ w₁ wet (
                    remove_copies-gone summaries s.tenant project name (share_recipients pair.0)
                      w₁))
                  λ (_ : Unit {0}) w' lost. Outcome-done Anything _ _ w' (
                    subst
                      (λ (x : Summary).
                        All (LostBy summaries x.tenant project name w') (share_recipients pair.0))
                      (same_summary source s _ of_source hs) lost)

-- What holds of the named recipients of a share holds of each recipient with a name.
each_recipient :
    (P : Text → Type 0) (s : TenantStorageShare)
    → All P (share_recipients s)
    → All
        (λ (r : TenantStorageShareRecipient). is_nil (trim_space r.tenant) ≡ false → P r.tenant)
        s.recipients
unfolding share_recipients
each_recipient P s h =
    All-imp _ _ s.recipients (λ r g named. g (not-false_of _ named))
      (All-of_keep _ (λ (r : TenantStorageShareRecipient). not (is_nil (trim_space r.tenant)))
        s.recipients
        (All-map P (λ (r : TenantStorageShareRecipient). r.tenant) _
          (All-of_sort_with P text_lt _ h)))
  where
    not-false_of : (b : Bool) → b ≡ false → not b ≡ true
    not-false_of b e = ground arith

-- After a deletion that is no dry run and returned, each recipient of the deleted share whose name
-- is not blank names an existing tenant, and the list of that tenant has no share with the id of
-- the deleted one.
pub delete_outbound-gone :
    (summaries : List Summary) (request : DeleteRequest) (source : Summary) (w w' : World)
    (out : TenantStorageShare)
    → resolve_tenant summaries request.source_tenant ≡ ok source
    → request.dry_run ≡ false
    → delete_outbound summaries request w ≡ (ok out, w')
    → All
        (λ (r : TenantStorageShareRecipient).
          is_nil (trim_space r.tenant) ≡ false
          → LostBy summaries source.tenant
              (trim_space request.source_project)
              (trim_space request.name)
              w'
              r.tenant)
        out.recipients
delete_outbound-gone summaries request source w w' out hs wet h =
    each_recipient _ out
      (of_returned Anything _ _ out w' (deleted summaries request source hs wet w) h)
