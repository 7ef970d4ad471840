-- ===== src/Share/Answer.antt =====
-- internal/share/share.go: the answer of a recipient, SetRecipientState.
use sandcastle_incus.Prelude.{
  Bool, not, ◌&&◌, List, [], ◌∷◌, Option, none, some, find_first, Result, err, ok, fail_if,
}
use sandcastle_incus.Prelude.Text.{Text, teq}
use sandcastle_incus.Share.Types.{
  TenantStorageShare, Summary, ShareError, Action, ◌>>=◌, ◌>>◌, lift, unless, get_tenant_shares,
  set_tenant_shares, recipient_state_accepted, recipient_state_declined, unsupported_state,
  not_found, not_offered,
}
use sandcastle_incus.Share.Names.{resolve_tenant}
use sandcastle_incus.Share.Lists.{
  sort_shares, share_offered_to, upsert_recipient_share, recipient_entry,
}
use sandcastle_incus.Share.Create.{same_name, or_clock}

pub record RecipientRequest : Type 0 where
  pub tenant : Text
  pub source_tenant : Text
  pub source_project : Text
  pub name : Text
  pub actor : Text
  pub state : Text
  pub dry_run : Bool
  pub now : Text

abbrev pub or_not_found :
    ShareError → Option TenantStorageShare → Result ShareError TenantStorageShare
or_not_found e none = err e
or_not_found e (some s) = ok s

unfoldable pub set_recipient_state : List Summary → RecipientRequest → Action TenantStorageShare
unfolding resolve_tenant get_tenant_shares set_tenant_shares share_offered_to or_clock sort_shares
    upsert_recipient_share recipient_entry
set_recipient_state summaries request = do
  lift (
      fail_if
        (not (teq request.state recipient_state_accepted)
          && not (teq request.state recipient_state_declined))
        (unsupported_state request.state))
  recipient ← lift (resolve_tenant summaries request.tenant)
  source ← lift (resolve_tenant summaries request.source_tenant)
  source_shares ← get_tenant_shares source.incus_name
  offered ← lift (
      or_not_found (not_found request.source_project request.name source.tenant)
        (find_first (same_name request.source_project request.name) source_shares))
  lift (
      fail_if (not (share_offered_to offered recipient.tenant))
        (not_offered request.source_project request.name recipient.tenant))
  now ← or_clock request.now
  local_shares ← get_tenant_shares recipient.incus_name
  let updated =
      upsert_recipient_share local_shares offered recipient.tenant request.state request.actor now
  unless request.dry_run (set_tenant_shares recipient.incus_name (sort_shares updated))
  lift (
      ok (record offered {
        recipients = recipient_entry recipient.tenant request.state request.actor now ∷ [];
      }))
