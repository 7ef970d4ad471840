-- ===== src/Share/Withdraw.antt =====
-- internal/share/share.go: the source takes an offer back from one recipient, RevokeRecipient, or from
-- all, DeleteOutbound.
use sandcastle_incus.Prelude.{Bool, not, List, [], ◌∷◌, length, leb, ok, fail_if, map_err}
use sandcastle_incus.Prelude.Text.{Text, trim_space}
use sandcastle_incus.Naming.{validate_project_name}
use sandcastle_incus.Share.Types.{
  TenantStorageShare, Summary, Action, ◌>>=◌, ◌>>◌, lift, skip, unless, get_tenant_shares,
  set_tenant_shares, bad_name, not_found, not_offered, last_recipient,
}
use sandcastle_incus.Share.Names.{resolve_tenant, validate_share_name}
use sandcastle_incus.Share.Lists.{
  share_id, sort_shares, find_share, replace_share, cut_share, remove_share, remove_recipient,
  share_offered_to, share_recipients,
}
use sandcastle_incus.Share.Answer.{or_not_found}

pub record RevokeRequest : Type 0 where
  pub source_tenant : Text
  pub source_project : Text
  pub name : Text
  pub recipient_tenant : Text
  pub dry_run : Bool

pub record DeleteRequest : Type 0 where
  pub source_tenant : Text
  pub source_project : Text
  pub name : Text
  pub dry_run : Bool

-- The share of a source by project and name, with the source's list.
unfoldable pub find_outbound :
    Summary → Text → Text → Action (TenantStorageShare × List TenantStorageShare)
unfolding validate_project_name validate_share_name get_tenant_shares find_share share_id
find_outbound source project name = do
  lift (map_err bad_name (validate_project_name project))
  lift (validate_share_name name)
  shares ← get_tenant_shares source.incus_name
  found ← lift (
      or_not_found (not_found project name source.tenant)
        (find_share shares (share_id source.tenant project name)))
  lift (ok (found, shares))

abbrev pub without_recipient : TenantStorageShare → Text → TenantStorageShare
without_recipient s tenant = record s { recipients = remove_recipient s.recipients tenant }

unfoldable pub revoke_recipient : List Summary → RevokeRequest → Action TenantStorageShare
unfolding resolve_tenant find_outbound share_offered_to remove_recipient replace_share share_id
    sort_shares remove_share get_tenant_shares set_tenant_shares
revoke_recipient summaries request = do
  source ← lift (resolve_tenant summaries request.source_tenant)
  recipient ← lift (resolve_tenant summaries request.recipient_tenant)
  let project = trim_space request.source_project
  let name = trim_space request.name
  (found, source_shares) ← find_outbound source project name
  lift (
      fail_if (not (share_offered_to found recipient.tenant))
        (not_offered project name recipient.tenant))
  lift (fail_if (leb (length found.recipients) 1) (last_recipient project name))
  let updated = without_recipient found recipient.tenant
  local_shares ← get_tenant_shares recipient.incus_name
  unless request.dry_run (
      set_tenant_shares source.incus_name
        (sort_shares (replace_share (share_id source.tenant project name) updated source_shares)))
  unless request.dry_run (
      set_tenant_shares recipient.incus_name (remove_share local_shares source.tenant project name))
  lift (ok updated)

-- The copy of the share goes from the list of every named tenant.
unfoldable pub remove_copies : List Summary → Text → Text → Text → List Text → Action (Unit {0})
unfolding resolve_tenant get_tenant_shares set_tenant_shares remove_share
remove_copies summaries source_tenant project name [] = skip
remove_copies summaries source_tenant project name (tenant ∷ tenants) = do
  recipient ← lift (resolve_tenant summaries tenant)
  local_shares ← get_tenant_shares recipient.incus_name
  set_tenant_shares recipient.incus_name (remove_share local_shares source_tenant project name)
  remove_copies summaries source_tenant project name tenants

unfoldable pub delete_outbound : List Summary → DeleteRequest → Action TenantStorageShare
unfolding resolve_tenant find_outbound cut_share share_id sort_shares share_recipients remove_copies
    set_tenant_shares
delete_outbound summaries request = do
  source ← lift (resolve_tenant summaries request.source_tenant)
  let project = trim_space request.source_project
  let name = trim_space request.name
  (found, source_shares) ← find_outbound source project name
  unless request.dry_run (
      set_tenant_shares source.incus_name
        (sort_shares (cut_share (share_id source.tenant project name) source_shares)))
  unless request.dry_run
      (remove_copies summaries source.tenant project name (share_recipients found))
  lift (ok found)
