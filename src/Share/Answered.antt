-- ===== src/Share/Answered.antt =====
-- internal/share/share.go: what an answer has done when it returns.
use sandcastle_incus.Prelude.{
  ◌≡◌, refl, sym, subst, arith, Bool, true, false, not, ◌&&◌, ◌⊎◌, inl, inr, List, some, find_first,
  ok,
}
use sandcastle_incus.Prelude.Text.{Text, teq, teq_refl, eq_of_teq}
use sandcastle_incus.Share.Types.{
  TenantStorageShare, TenantStorageShareRecipient, Summary, World, with_shares,
  recipient_state_accepted, recipient_state_declined,
}
use sandcastle_incus.Share.Names.{resolve_tenant}
use sandcastle_incus.Share.Lists.{
  sort_shares, share_offered_to, upsert_recipient_share, recipient_entry,
}
use sandcastle_incus.Share.Copies.{Any, IsCopy, KeptIn, sort_upsert-has, sort_upsert-keeps}
use sandcastle_incus.Share.Create.{same_name, or_clock}
use sandcastle_incus.Share.Answer.{RecipientRequest, set_recipient_state}
use sandcastle_incus.Share.Outcome.{
  Outcome, Outcome-then_run, Outcome-lift, Outcome-get_tenant_shares, Outcome-unless_wet,
  Outcome-set_tenant_shares_to, Outcome-read, Outcome-same, Outcome-done, of_returned,
}
use sandcastle_incus.Share.Fresh.{passed}
use sandcastle_incus.Share.Invariant.{or_clock-same, found_some}
use sandcastle_incus.Share.Gone.{Anything}

-- The recipient and the state of an entry are those of the request.
abbrev pub Answers : Text → RecipientRequest → TenantStorageShareRecipient → Type 0
Answers tenant request entry = (entry.tenant ≡ tenant) × (entry.state ≡ request.state)

-- The answer of this recipient to this offer was written: the recipient's list has the copy with the
-- answer and the other shares that it had, and no other list changed.
pub record IsWritten (recipient : Summary) (offered : TenantStorageShare)
    (request : RecipientRequest) (w w' : World) : Type 0 where
  pub now : Text
  pub stored :
      w'
      ≡ with_shares recipient.incus_name
          (sort_shares (
            upsert_recipient_share
              (w.shares recipient.incus_name)
              offered
              recipient.tenant
              request.state
              request.actor
              now))
          w
  pub entry : TenantStorageShareRecipient
  pub answers : Answers recipient.tenant request entry
  pub has_copy : Any (IsCopy offered entry) (w'.shares recipient.incus_name)
  pub keeps : KeptIn offered entry (w'.shares recipient.incus_name) (w.shares recipient.incus_name)
  pub others : (n : Text) → teq n recipient.incus_name ≡ false → w'.shares n ≡ w.shares n

-- The share is the one that the request names in the list of its source, it is offered to the
-- recipient, and the answer was written.
pub record IsAnswered (summaries : List Summary) (request : RecipientRequest) (w w' : World)
    : Type 0 where
  pub recipient : Summary
  pub source : Summary
  pub offered : TenantStorageShare
  pub of_recipient : resolve_tenant summaries request.tenant ≡ ok recipient
  pub of_source : resolve_tenant summaries request.source_tenant ≡ ok source
  pub found :
      find_first (same_name request.source_project request.name) (w.shares source.incus_name)
      ≡ some offered
  pub to_recipient : share_offered_to offered recipient.tenant ≡ true
  pub is_answer :
      (request.state ≡ recipient_state_accepted) ⊎ (request.state ≡ recipient_state_declined)
  pub written : IsWritten recipient offered request w w'

not-false : (b : Bool) → not b ≡ false → b ≡ true
not-false b g = ground arith

one_of : (a b : Bool) → (not a && not b) ≡ false → (a ≡ true) ⊎ (b ≡ true)
one_of a b g = ground arith

answer_of :
    (state : Text)
    → (not (teq state recipient_state_accepted) && not (teq state recipient_state_declined)) ≡ false
    → (state ≡ recipient_state_accepted) ⊎ (state ≡ recipient_state_declined)
answer_of state h =
    elim (one_of (teq state recipient_state_accepted) (teq state recipient_state_declined) h) [
      | inl e ↦ inl (eq_of_teq _ _ e)
      | inr e ↦ inr (eq_of_teq _ _ e)
    ]

-- What the write of the answer leaves.
write-IsWritten :
    (recipient : Summary) (offered : TenantStorageShare) (request : RecipientRequest) (now : Text)
    (w : World)
    → IsWritten recipient offered request w (
        with_shares recipient.incus_name
          (sort_shares (
            upsert_recipient_share
              (w.shares recipient.incus_name)
              offered
              recipient.tenant
              request.state
              request.actor
              now))
          w)
unfolding upsert_recipient_share recipient_entry
write-IsWritten recipient offered request now w =
    let entry = recipient_entry recipient.tenant request.state request.actor now in
    let own = w.shares recipient.incus_name in
    record {
      now = now;
      stored = refl;
      entry = entry;
      answers = (refl, refl);
      has_copy = rw (teq_refl recipient.incus_name) (sort_upsert-has offered entry own);
      keeps = rw (teq_refl recipient.incus_name) (sort_upsert-keeps offered entry own);
      others = λ n e. rw e refl;
    }

IsAnswered-Outcome :
    (summaries : List Summary) (request : RecipientRequest) (w : World)
    → request.dry_run ≡ false
    → Outcome Anything
        (λ _. IsAnswered summaries request w)
        (set_recipient_state summaries request w)
unfolding set_recipient_state
IsAnswered-Outcome summaries request w wet =
    Outcome-lift Anything _ _ w _ tt λ (_ : Unit {0}) of_state.
      Outcome-lift Anything _ _ w _ tt λ (recipient : Summary) of_recipient.
        Outcome-lift Anything _ _ w _ tt λ (source : Summary) of_source.
          Outcome-get_tenant_shares Anything _ source.incus_name w _ tt (
            Outcome-lift Anything _ _ w _ tt λ (offered : TenantStorageShare) found.
              Outcome-lift Anything _ _ w _ tt λ (_ : Unit {0}) to_recipient.
                Outcome-read Anything _ (λ _. Unit {0}) (or_clock request.now w) w _
                  (Outcome-same _ w (or_clock-same request.now w)) tt
                  λ (now : Text) _.
                    Outcome-get_tenant_shares Anything _ recipient.incus_name w _ tt (
                      let after =
                        with_shares recipient.incus_name
                          (sort_shares (
                            upsert_recipient_share (w.shares recipient.incus_name) offered
                              recipient.tenant request.state request.actor now))
                          w in
                      Outcome-then_run Anything (λ _ w'. w' ≡ after) _ _ _
                        (Outcome-unless_wet Anything (λ _ w'. w' ≡ after) request.dry_run _ w wet
                          (Outcome-set_tenant_shares_to Anything (λ w'. w' ≡ after)
                            recipient.incus_name _ w tt refl))
                        λ (_ : Unit {0}) w' same. Outcome-done Anything _ _ w' (record {
                          recipient = recipient;
                          source = source;
                          offered = offered;
                          of_recipient = of_recipient;
                          of_source = of_source;
                          found = found_some _ _ offered found;
                          to_recipient = not-false _ (passed _ _ to_recipient);
                          is_answer = answer_of request.state (passed _ _ of_state);
                          written =
                              subst (IsWritten recipient offered request w) (sym same)
                                (write-IsWritten recipient offered request now w);
                        })))

-- For an answer that is no dry run and returns, the share is the first in the list of the named
-- source tenant with the requested project and name, it is offered to the recipient, and the state
-- is accepted or declined. Then the list of the recipient has a share with the id, the directory
-- and the availability of the offer whose one recipient has the name of the tenant that answered
-- and the state of the request, it has every share with another id that it had before, and no
-- other list changed.
pub set_recipient_state-IsAnswered :
    (summaries : List Summary) (request : RecipientRequest) (w w' : World)
    (out : TenantStorageShare)
    → request.dry_run ≡ false
    → set_recipient_state summaries request w ≡ (ok out, w')
    → IsAnswered summaries request w w'
set_recipient_state-IsAnswered summaries request w w' out wet h =
    of_returned Anything _ _ out w' (IsAnswered-Outcome summaries request w wet) h
