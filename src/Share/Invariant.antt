-- ===== src/Share/Invariant.antt =====
-- internal/share/share.go: whatever is asked of the share store, and wherever it fails, no list of it
-- ever has two shares with the same id.
use sandcastle_incus.Prelude.{
  ◌≡◌, refl, sym, ◌∙◌, ap, subst, true, false, List, [], ◌∷◌, if◌then◌else◌, Option, none, some,
  Bool-cases, inl, inr, ok,
}
use sandcastle_incus.Prelude.Text.{Text, teq, eq_of_teq, trim_space}
use sandcastle_incus.Share.Types.{
  TenantStorageShare, Summary, ShareError, World, with_shares, set_tenant_shares,
}
use sandcastle_incus.Share.Lists.{
  share_id, id_of, sort_shares, find_share, replace_share, share_recipients,
}
use sandcastle_incus.Share.Create.{or_clock}
use sandcastle_incus.Share.Answer.{or_not_found, RecipientRequest, set_recipient_state}
use sandcastle_incus.Share.Withdraw.{
  RevokeRequest, DeleteRequest, find_outbound, revoke_recipient, remove_copies, delete_outbound,
  without_recipient,
}
use sandcastle_incus.Share.Distinct.{
  IsDistinct, IsDistinct-sort_shares, IsDistinct-remove_share, IsDistinct-cut_share,
  IsDistinct-replace_share, IsDistinct-upsert_recipient_share,
}
use sandcastle_incus.Share.Outcome.{
  Outcome, Outcome-then_run, Outcome-lift, Outcome-get_tenant_shares, Outcome-set_tenant_shares,
  Outcome-unless, Outcome-return, Outcome-read, Outcome-same, Outcome-done,
}

abbrev pub HasDistinctIds : World → Type 0
HasDistinctIds w = (n : Text) → IsDistinct (w.shares n)

with_shares-HasDistinctIds :
    (n : Text) (list : List TenantStorageShare) (w : World)
    → HasDistinctIds w
    → IsDistinct list
    → HasDistinctIds (with_shares n list w)
with_shares-HasDistinctIds n list w h hl m =
    elim (teq m n) as (λ b. IsDistinct (if b then list else w.shares m)) [ true ↦ hl | false ↦ h m ]

pub or_clock-same : (now : Text) (w : World) → (or_clock now w).1 ≡ w
unfolding or_clock
or_clock-same now w = refl

-- Writing a list whose ids differ.
pub set-Kept :
    (n : Text) (list : List TenantStorageShare) (w : World)
    → HasDistinctIds w
    → IsDistinct list
    → Outcome HasDistinctIds (λ _. HasDistinctIds) (set_tenant_shares n list w)
set-Kept n list w h hl =
    Outcome-set_tenant_shares HasDistinctIds n list w h (with_shares-HasDistinctIds n list w h hl)

pub set_recipient_state-Kept :
    (summaries : List Summary) (request : RecipientRequest) (w : World)
    → HasDistinctIds w
    → Outcome HasDistinctIds (λ _. HasDistinctIds) (set_recipient_state summaries request w)
unfolding set_recipient_state
set_recipient_state-Kept summaries request w h =
    Outcome-lift HasDistinctIds _ _ w _ h λ (_ : Unit {0}) _.
      Outcome-lift HasDistinctIds _ _ w _ h λ (recipient : Summary) _.
        Outcome-lift HasDistinctIds _ _ w _ h λ (source : Summary) _.
          Outcome-get_tenant_shares HasDistinctIds _ source.incus_name w _ h (
            Outcome-lift HasDistinctIds _ _ w _ h λ (offered : TenantStorageShare) _.
              Outcome-lift HasDistinctIds _ _ w _ h λ (_ : Unit {0}) _.
                Outcome-read HasDistinctIds _ (λ _. Unit {0}) (or_clock request.now w) w _
                  (Outcome-same _ w (or_clock-same request.now w)) h
                  λ (now : Text) _.
                    Outcome-get_tenant_shares HasDistinctIds _ recipient.incus_name w _ h (
                      Outcome-then_run HasDistinctIds (λ _. HasDistinctIds) _ _ _
                        (Outcome-unless HasDistinctIds request.dry_run _ w h (
                          set-Kept recipient.incus_name _ w h (
                            IsDistinct-sort_shares _ (
                              IsDistinct-upsert_recipient_share (w.shares recipient.incus_name)
                                offered recipient.tenant request.state request.actor now
                                (h recipient.incus_name)))))
                        λ (_ : Unit {0}) w' h'. Outcome-return HasDistinctIds _ w' h'))

-- What `find_outbound` found, and where.
abbrev pub FoundIn :
    World → Summary → Text → Text → TenantStorageShare × List TenantStorageShare → Type 0
FoundIn w source project name (found, shares) =
    (shares ≡ w.shares source.incus_name)
    × (find_share shares (share_id source.tenant project name) ≡ some found)

pub found_some :
    (e : ShareError) (o : Option TenantStorageShare) (found : TenantStorageShare)
    → or_not_found e o ≡ ok found
    → o ≡ some found
found_some e none found h = cc
found_some e (some s) found h = cc

some_eq : (s t : TenantStorageShare) → some s ≡ some t → s ≡ t
some_eq s t h = cc

found_id :
    (shares : List TenantStorageShare) (id : Text) (found : TenantStorageShare)
    → find_share shares id ≡ some found
    → id_of found ≡ id
unfolding find_share
found_id [] id found h = cc
found_id (s ∷ shares) id found h = elim (Bool-cases (teq (id_of s) id)) [
  | inl e ↦ sym (ap id_of (some_eq s found (rw e at h))) ∙ eq_of_teq _ _ e
  | inr e ↦ found_id shares id found (rw e at h)
]

pub find_outbound-FoundIn :
    (source : Summary) (project name : Text) (w : World)
    → Outcome
        (λ w'. w' ≡ w)
        (λ a w'. (w' ≡ w) × FoundIn w source project name a)
        (find_outbound source project name w)
unfolding find_outbound
find_outbound-FoundIn source project name w =
    let I = λ (w' : World). w' ≡ w in
    Outcome-lift I _ _ w _ refl λ (_ : Unit {0}) _. Outcome-lift I _ _ w _ refl λ (_ : Unit {0}) _.
      Outcome-get_tenant_shares I _ source.incus_name w _ refl (
        Outcome-lift I _ _ w _ refl λ (found : TenantStorageShare) e.
          Outcome-done I _ (found, w.shares source.incus_name) w
            (refl, (refl, found_some _ _ found e)))

-- The source's list after one of its shares lost a recipient.
source_kept :
    (w : World) (source : Summary) (project name tenant : Text)
    (pair : TenantStorageShare × List TenantStorageShare)
    → FoundIn w source project name pair
    → HasDistinctIds w
    → IsDistinct (
        sort_shares (
          replace_share
            (share_id source.tenant project name)
            (without_recipient pair.0 tenant)
            pair.1))
source_kept w source project name tenant (found, shares) (here, first) h =
    IsDistinct-sort_shares _ (
      subst (λ id. IsDistinct (replace_share id (without_recipient found tenant) shares))
        (found_id shares _ found first)
        (IsDistinct-replace_share (without_recipient found tenant) shares
          (subst IsDistinct (sym here) (h source.incus_name))))

pub revoke_recipient-Kept :
    (summaries : List Summary) (request : RevokeRequest) (w : World)
    → HasDistinctIds w
    → Outcome HasDistinctIds (λ _. HasDistinctIds) (revoke_recipient summaries request w)
unfolding revoke_recipient
revoke_recipient-Kept summaries request w h =
    let project = trim_space request.source_project in
    let name = trim_space request.name in
    Outcome-lift HasDistinctIds _ _ w _ h λ (source : Summary) _.
      Outcome-lift HasDistinctIds _ _ w _ h λ (recipient : Summary) _.
        Outcome-read HasDistinctIds _ (FoundIn w source project name) _ w _
          (find_outbound-FoundIn source project name w) h
          λ (pair : TenantStorageShare × List TenantStorageShare) f.
            Outcome-lift HasDistinctIds _ _ w _ h λ (_ : Unit {0}) _.
              Outcome-lift HasDistinctIds _ _ w _ h λ (_ : Unit {0}) _.
                Outcome-get_tenant_shares HasDistinctIds _ recipient.incus_name w _ h (
                  Outcome-then_run HasDistinctIds (λ _. HasDistinctIds) _ _ _
                    (Outcome-unless HasDistinctIds request.dry_run _ w h (
                      set-Kept source.incus_name _ w h
                        (source_kept w source project name recipient.tenant pair f h)))
                    λ (_ : Unit {0}) w₁ h₁.
                      Outcome-then_run HasDistinctIds (λ _. HasDistinctIds) _ _ _
                        (Outcome-unless HasDistinctIds request.dry_run _ w₁ h₁ (
                          set-Kept recipient.incus_name _ w₁ h₁ (
                            IsDistinct-remove_share (w.shares recipient.incus_name) source.tenant
                              project name (h recipient.incus_name))))
                        λ (_ : Unit {0}) w' h'. Outcome-return HasDistinctIds _ w' h')

pub remove_copies-Kept :
    (summaries : List Summary) (source project name : Text) (tenants : List Text) (w : World)
    → HasDistinctIds w
    → Outcome HasDistinctIds
        (λ _. HasDistinctIds)
        (remove_copies summaries source project name tenants w)
unfolding remove_copies
remove_copies-Kept summaries source project name [] w h = Outcome-return HasDistinctIds tt w h
remove_copies-Kept summaries source project name (tenant ∷ tenants) w h =
    Outcome-lift HasDistinctIds _ _ w _ h λ (recipient : Summary) _.
      Outcome-get_tenant_shares HasDistinctIds _ recipient.incus_name w _ h (
        Outcome-then_run HasDistinctIds (λ _. HasDistinctIds) _ _ _
          (set-Kept recipient.incus_name _ w h (
            IsDistinct-remove_share (w.shares recipient.incus_name) source project name
              (h recipient.incus_name)))
          λ (_ : Unit {0}) w' h'. remove_copies-Kept summaries source project name tenants w' h')

pub delete_outbound-Kept :
    (summaries : List Summary) (request : DeleteRequest) (w : World)
    → HasDistinctIds w
    → Outcome HasDistinctIds (λ _. HasDistinctIds) (delete_outbound summaries request w)
unfolding delete_outbound
delete_outbound-Kept summaries request w h =
    let project = trim_space request.source_project in
    let name = trim_space request.name in
    Outcome-lift HasDistinctIds _ _ w _ h λ (source : Summary) _.
      Outcome-read HasDistinctIds _ (FoundIn w source project name) _ w _
        (find_outbound-FoundIn source project name w) h
        λ (pair : TenantStorageShare × List TenantStorageShare) f.
          Outcome-then_run HasDistinctIds (λ _. HasDistinctIds) _ _ _
            (Outcome-unless HasDistinctIds request.dry_run _ w h (
              set-Kept source.incus_name _ w h (
                IsDistinct-sort_shares _ (
                  IsDistinct-cut_share (share_id source.tenant project name) pair.1
                    (subst IsDistinct (sym f.0) (h source.incus_name))))))
            λ (_ : Unit {0}) w₁ h₁.
              Outcome-then_run HasDistinctIds (λ _. HasDistinctIds) _ _ _
                (Outcome-unless HasDistinctIds request.dry_run _ w₁ h₁ (
                  remove_copies-Kept summaries source.tenant project name (share_recipients pair.0)
                    w₁ h₁))
                λ (_ : Unit {0}) w' h'. Outcome-return HasDistinctIds _ w' h'
