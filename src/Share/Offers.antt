-- ===== src/Share/Offers.antt =====
-- internal/share/share.go: what the two lists of ListInbound, the open offers and the answered ones,
-- show of an offer after it was answered.
use sandcastle_incus.Prelude.{
  ◌≡◌, refl, ◌∙◌, ap, subst, true, false, List, [], ◌∷◌, All, some, find_first, ok,
}
use sandcastle_incus.Prelude.Text.{teq, teq_refl}
use sandcastle_incus.Share.Types.{TenantStorageShare, Summary, World, recipient_state_pending}
use sandcastle_incus.Share.Lists.{
  id_of, sort_shares, recipient_entry, upsert_copy, upsert_recipient_share,
}
use sandcastle_incus.Share.Names.{resolve_tenant}
use sandcastle_incus.Share.Create.{same_name}
use sandcastle_incus.Share.Answer.{RecipientRequest, set_recipient_state}
use sandcastle_incus.Share.Views.{inbound_of, answer_to, shown_as}
use sandcastle_incus.Share.Invariant.{HasDistinctIds}
use sandcastle_incus.Share.Copies.{Any, Has-of_find_first}
use sandcastle_incus.Share.Answered.{IsAnswered, set_recipient_state-IsAnswered}
use sandcastle_incus.Share.Seen.{
  answer_to-written, inbound_of-closed, inbound_of-answered, given, not_pending, answer_to_id,
}

-- The recipient no longer sees the share of the source among the open offers, and sees it among the
-- answered ones with the state of the request.
pub record IsShown (summaries : List Summary) (request : RecipientRequest) (w w' : World)
    : Type 0 where
  pub recipient : Summary
  pub source : Summary
  pub offered : TenantStorageShare
  pub of_recipient : resolve_tenant summaries request.tenant ≡ ok recipient
  pub of_source : resolve_tenant summaries request.source_tenant ≡ ok source
  pub found :
      find_first (same_name request.source_project request.name) (w.shares source.incus_name)
      ≡ some offered
  pub closed :
      All
        (λ (s : TenantStorageShare). teq (id_of s) (id_of offered) ≡ false)
        (inbound_of recipient.tenant true
          (w'.shares recipient.incus_name)
          (w.shares source.incus_name))
  pub answered :
      Any
        (λ (s : TenantStorageShare).
          (id_of s ≡ id_of offered) × (s.recipients ≡ shown_as recipient.tenant request.state ∷ []))
        (inbound_of recipient.tenant false
          (w'.shares recipient.incus_name)
          (w.shares source.incus_name))

-- Where no list has two shares with one id, and an answer that is no dry run returned, the share
-- that was answered is no longer among the open offers that the recipient sees of the list of the
-- source, and it is among the answered ones with the state of the request.
pub set_recipient_state-IsShown :
    (summaries : List Summary) (request : RecipientRequest) (w w' : World)
    (out : TenantStorageShare)
    → HasDistinctIds w
    → request.dry_run ≡ false
    → set_recipient_state summaries request w ≡ (ok out, w')
    → IsShown summaries request w w'
unfolding upsert_recipient_share recipient_entry
set_recipient_state-IsShown summaries request w w' out distinct wet h =
    let done : IsAnswered summaries request w w' =
      set_recipient_state-IsAnswered summaries request w w' out wet h in
    let tenant = done.recipient.tenant in
    let n = done.recipient.incus_name in
    let entry = recipient_entry tenant request.state request.actor done.written.now in
    let written : w'.shares n ≡ sort_shares (upsert_copy done.offered entry (w.shares n)) =
      ap (λ (v : World). v.shares n) done.written.stored ∙ rw (teq_refl n) refl in
    let seen : answer_to tenant (w'.shares n) done.offered ≡ request.state =
      ap (λ own. answer_to tenant own done.offered) written
      ∙ answer_to-written tenant request.state done.offered entry (w.shares n) (distinct n) refl
          refl (given request.state done.is_answer) in
    let not_open : teq (answer_to tenant (w'.shares n) done.offered) recipient_state_pending
        ≡ false =
      rw seen (not_pending request.state done.is_answer) in
    record {
      recipient = done.recipient;
      source = done.source;
      offered = done.offered;
      of_recipient = done.of_recipient;
      of_source = done.of_source;
      found = done.found;
      closed =
          inbound_of-closed tenant (id_of done.offered) (w'.shares n)
            (w.shares done.source.incus_name)
            λ s same. answer_to_id tenant (w'.shares n) s done.offered same ∙ not_open;
      answered =
          subst
            (λ state.
              Any
                (λ (s : TenantStorageShare).
                  (id_of s ≡ id_of done.offered) × (s.recipients ≡ shown_as tenant state ∷ []))
                (inbound_of tenant false (w'.shares n) (w.shares done.source.incus_name)))
            seen
            (inbound_of-answered tenant (w'.shares n) done.offered _
              (Has-of_find_first _ _ done.offered done.found) done.to_recipient not_open);
    }
