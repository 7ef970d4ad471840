-- ===== src/Share/History.antt =====
-- internal/share/share.go: the requests of the share store, one after another.
use sandcastle_incus.Prelude.{
  ◌≡◌, Bool, true, false, ◌&&◌, List, [], ◌∷◌, if◌then◌else◌, Option, none, some, All, exists,
  length, ◌==◌,
}
use sandcastle_incus.Prelude.Text.{Text, teq}
use sandcastle_incus.Share.Types.{TenantStorageShare, TenantStorageShareRecipient, Summary, World}
use sandcastle_incus.Share.Names.{find_tenant}
use sandcastle_incus.Share.Lists.{id_of, remove_recipient}
use sandcastle_incus.Share.Create.{CreateRequest, plan_create}
use sandcastle_incus.Share.Answer.{RecipientRequest, set_recipient_state}
use sandcastle_incus.Share.Withdraw.{
  RevokeRequest, DeleteRequest, revoke_recipient, delete_outbound, without_recipient,
}
use sandcastle_incus.Share.Cleanup.{
  drop_copy, clean_recipient, clean_recipients, clean_own_shares, loses_recipient, drop_recipient,
  clean_source, clean_sources, cleanup_tenant_deletion,
}
use sandcastle_incus.Share.Distinct.{IsDistinct, IsDistinct-sort_shares, IsDistinct-remove_share}
use sandcastle_incus.Share.Outcome.{
  Outcome, Outcome-then_run, Outcome-lift, Outcome-get_tenant_shares, Outcome-unless,
  Outcome-return, Outcome-choose, left_behind,
}
use sandcastle_incus.Share.Invariant.{
  HasDistinctIds, set-Kept, set_recipient_state-Kept, revoke_recipient-Kept, delete_outbound-Kept,
}
use sandcastle_incus.Share.Fresh.{plan_create-Kept}

module _ (tenant : Text) where
  All-drop_recipient :
      (id : Text) (shares : List TenantStorageShare)
      → All (λ (s : TenantStorageShare). teq id (id_of s) ≡ false) shares
      → All (λ (s : TenantStorageShare). teq id (id_of s) ≡ false) (drop_recipient tenant shares)
  unfolding drop_recipient
  All-drop_recipient id [] h = tt
  All-drop_recipient id (s ∷ shares) (hs, h) =
      elim (length (remove_recipient s.recipients tenant) == 0 && loses_recipient tenant s)
        as (λ b.
          All (λ (t : TenantStorageShare). teq id (id_of t) ≡ false)
            (if b
              then drop_recipient tenant shares
              else without_recipient s tenant ∷ drop_recipient tenant shares)) [
                | true ↦ All-drop_recipient id shares h
                | false ↦ (hs, All-drop_recipient id shares h)
              ]

  IsDistinct-drop_recipient :
      (shares : List TenantStorageShare)
      → IsDistinct shares
      → IsDistinct (drop_recipient tenant shares)
  unfolding drop_recipient
  IsDistinct-drop_recipient [] h = tt
  IsDistinct-drop_recipient (s ∷ shares) (hs, h) =
      elim (length (remove_recipient s.recipients tenant) == 0 && loses_recipient tenant s)
        as (λ b. IsDistinct (
          if b
          then drop_recipient tenant shares
          else without_recipient s tenant ∷ drop_recipient tenant shares)) [
            | true ↦ IsDistinct-drop_recipient shares h
            | false ↦ (All-drop_recipient (id_of s) shares hs, IsDistinct-drop_recipient shares h)
          ]

module _ (summaries : List Summary) (dry_run : Bool) (deleting : Summary) where
  clean_recipient-Kept :
      (s : TenantStorageShare) (affected : List Text) (found : Option Summary) (w : World)
      → HasDistinctIds w
      → Outcome HasDistinctIds
          (λ _. HasDistinctIds)
          (clean_recipient dry_run deleting s affected found w)
  unfolding clean_recipient drop_copy
  clean_recipient-Kept s affected none w h = Outcome-return HasDistinctIds affected w h
  clean_recipient-Kept s affected (some recipient) w h =
      Outcome-choose HasDistinctIds _ (teq recipient.tenant deleting.tenant) _ _ w
        (Outcome-return HasDistinctIds affected w h)
        (Outcome-get_tenant_shares HasDistinctIds _ recipient.incus_name w _ h (
          Outcome-then_run HasDistinctIds (λ _. HasDistinctIds) _ _ _
            (Outcome-unless HasDistinctIds dry_run _ w h (
              set-Kept recipient.incus_name _ w h (
                IsDistinct-remove_share (w.shares recipient.incus_name) deleting.tenant
                  s.source_project s.name (h recipient.incus_name))))
            λ (_ : Unit {0}) w' h'. Outcome-return HasDistinctIds _ w' h'))

  clean_recipients-Kept :
      (s : TenantStorageShare) (recipients : List TenantStorageShareRecipient)
      (affected : List Text) (w : World)
      → HasDistinctIds w
      → Outcome HasDistinctIds
          (λ _. HasDistinctIds)
          (clean_recipients summaries dry_run deleting s recipients affected w)
  unfolding clean_recipients
  clean_recipients-Kept s [] affected w h = Outcome-return HasDistinctIds affected w h
  clean_recipients-Kept s (r ∷ recipients) affected w h =
      Outcome-then_run HasDistinctIds (λ _. HasDistinctIds) _ _ _
        (clean_recipient-Kept s affected (find_tenant summaries r.tenant) w h)
        λ (affected' : List Text) w' h'. clean_recipients-Kept s recipients affected' w' h'

  clean_own_shares-Kept :
      (shares : List TenantStorageShare) (affected : List Text) (w : World)
      → HasDistinctIds w
      → Outcome HasDistinctIds
          (λ _. HasDistinctIds)
          (clean_own_shares summaries dry_run deleting shares affected w)
  unfolding clean_own_shares
  clean_own_shares-Kept [] affected w h = Outcome-return HasDistinctIds affected w h
  clean_own_shares-Kept (s ∷ shares) affected w h =
      Outcome-choose HasDistinctIds _ (teq s.source_tenant deleting.tenant) _ _ w
        (Outcome-then_run HasDistinctIds (λ _. HasDistinctIds) _ _ _
          (clean_recipients-Kept s s.recipients affected w h)
          λ (affected' : List Text) w' h'. clean_own_shares-Kept shares affected' w' h')
        (clean_own_shares-Kept shares affected w h)

  clean_source-Kept :
      (affected : List Text) (source : Summary) (w : World)
      → HasDistinctIds w
      → Outcome HasDistinctIds
          (λ _. HasDistinctIds)
          (clean_source dry_run deleting affected source w)
  unfolding clean_source
  clean_source-Kept affected source w h =
      Outcome-get_tenant_shares HasDistinctIds _ source.incus_name w _ h (
        Outcome-choose HasDistinctIds _
          (exists (loses_recipient deleting.tenant) (w.shares source.incus_name)) _ _ w
          (Outcome-then_run HasDistinctIds (λ _. HasDistinctIds) _ _ _
            (Outcome-unless HasDistinctIds dry_run _ w h (
              set-Kept source.incus_name _ w h (
                IsDistinct-sort_shares _ (
                  IsDistinct-drop_recipient deleting.tenant (w.shares source.incus_name)
                    (h source.incus_name)))))
            λ (_ : Unit {0}) w' h'. Outcome-return HasDistinctIds _ w' h')
          (Outcome-return HasDistinctIds affected w h))

  clean_sources-Kept :
      (sources : List Summary) (affected : List Text) (w : World)
      → HasDistinctIds w
      → Outcome HasDistinctIds
          (λ _. HasDistinctIds)
          (clean_sources dry_run deleting sources affected w)
  unfolding clean_sources
  clean_sources-Kept [] affected w h = Outcome-return HasDistinctIds affected w h
  clean_sources-Kept (source ∷ sources) affected w h =
      Outcome-choose HasDistinctIds _ (teq source.tenant deleting.tenant) _ _ w
        (clean_sources-Kept sources affected w h)
        (Outcome-then_run HasDistinctIds (λ _. HasDistinctIds) _ _ _
          (clean_source-Kept affected source w h)
          λ (affected' : List Text) w' h'. clean_sources-Kept sources affected' w' h')

cleanup_tenant_deletion-Kept :
    (summaries : List Summary) (tenant : Text) (dry_run : Bool) (w : World)
    → HasDistinctIds w
    → Outcome HasDistinctIds
        (λ _. HasDistinctIds)
        (cleanup_tenant_deletion summaries tenant dry_run w)
unfolding cleanup_tenant_deletion
cleanup_tenant_deletion-Kept summaries tenant dry_run w h =
    Outcome-lift HasDistinctIds _ _ w _ h λ (deleting : Summary) _.
      Outcome-get_tenant_shares HasDistinctIds _ deleting.incus_name w _ h (
        Outcome-then_run HasDistinctIds (λ _. HasDistinctIds) _ _ _
          (clean_own_shares-Kept summaries dry_run deleting (w.shares deleting.incus_name) [] w h)
          λ (recipients : List Text) w₁ h₁.
            Outcome-then_run HasDistinctIds (λ _. HasDistinctIds) _ _ _
              (clean_sources-Kept summaries dry_run deleting summaries [] w₁ h₁)
              λ (sources : List Text) w' h'. Outcome-return HasDistinctIds _ w' h')

-- What may be asked of the store.
pub data Request : Type 0 where
  create : CreateRequest → Request
  answer : RecipientRequest → Request
  revoke : RevokeRequest → Request
  delete : DeleteRequest → Request
  cleanup : Text → Bool → Request

-- The store after one request, whether it was refused, failed half-way or returned.
unfoldable pub handle : List Summary → Request → World → World
unfolding plan_create set_recipient_state revoke_recipient delete_outbound cleanup_tenant_deletion
handle summaries (create r) w = (plan_create summaries r w).1
handle summaries (answer r) w = (set_recipient_state summaries r w).1
handle summaries (revoke r) w = (revoke_recipient summaries r w).1
handle summaries (delete r) w = (delete_outbound summaries r w).1
handle summaries (cleanup tenant dry_run) w = (cleanup_tenant_deletion summaries tenant dry_run w).1

-- Requests in their order; the tenants may be others at each.
unfoldable pub handle_all : List (List Summary × Request) → World → World
unfolding handle
handle_all [] w = w
handle_all ((summaries, r) ∷ rest) w = handle_all rest (handle summaries r w)

handle-Kept :
    (summaries : List Summary) (r : Request) (w : World)
    → HasDistinctIds w
    → HasDistinctIds (handle summaries r w)
unfolding handle
handle-Kept summaries (create r) w h =
    left_behind HasDistinctIds _ (plan_create-Kept summaries r w h)
handle-Kept summaries (answer r) w h =
    left_behind HasDistinctIds _ (set_recipient_state-Kept summaries r w h)
handle-Kept summaries (revoke r) w h =
    left_behind HasDistinctIds _ (revoke_recipient-Kept summaries r w h)
handle-Kept summaries (delete r) w h =
    left_behind HasDistinctIds _ (delete_outbound-Kept summaries r w h)
handle-Kept summaries (cleanup tenant dry_run) w h =
    left_behind HasDistinctIds _ (cleanup_tenant_deletion-Kept summaries tenant dry_run w h)

-- Where no list of the store has two shares with one id, none has after any sequence of create,
-- answer, revoke, delete and cleanup requests, each for any tenants, refused, failed half-way or
-- returned.
pub handle_all-HasDistinctIds :
    (requests : List (List Summary × Request)) (w : World)
    → HasDistinctIds w
    → HasDistinctIds (handle_all requests w)
unfolding handle_all
handle_all-HasDistinctIds [] w h = h
handle_all-HasDistinctIds ((summaries, r) ∷ rest) w h =
    handle_all-HasDistinctIds rest (handle summaries r w) (handle-Kept summaries r w h)
