-- ===== src/Share/Views.antt =====
-- internal/share/share.go: ListOutbound, ListInbound and GetOutbound, which only read.
use sandcastle_incus.Prelude.{
  Bool, not, ◌&&◌, List, [], ◌∷◌, ◌++◌, if◌then◌else◌, Option, none, some, find_first, ok, map_err,
}
use sandcastle_incus.Prelude.Text.{Text, teq, trim_space}
use sandcastle_incus.Naming.{validate_project_name}
use sandcastle_incus.Share.Types.{
  TenantStorageShare, TenantStorageShareRecipient, Summary, Action, ◌>>=◌, ◌>>◌, lift, choose,
  get_tenant_shares, recipient_state_pending, bad_name, not_found,
}
use sandcastle_incus.Share.Names.{resolve_tenant, validate_share_name}
use sandcastle_incus.Share.Lists.{
  share_id, id_of, sort_shares, share_offered_to, recipient_state, mark_availability,
}
use sandcastle_incus.Share.Create.{source_directory_status, v2_incus_project_name, same_name}
use sandcastle_incus.Share.Answer.{or_not_found}

-- The tenant's own shares with the present status of their directories; the others as they are.
unfoldable pub with_availability :
    Summary → List TenantStorageShare → Action (List TenantStorageShare)
unfolding choose source_directory_status v2_incus_project_name mark_availability
with_availability source [] = lift (ok [])
with_availability source (s ∷ shares) =
    choose (teq s.source_tenant source.tenant)
      (source_directory_status (v2_incus_project_name source s.source_project) s.source_dir
        >>= λ status. with_availability source shares >>= λ rest.
            lift (ok (mark_availability s status ∷ rest)))
      (with_availability source shares >>= λ rest. lift (ok (s ∷ rest)))

unfoldable pub list_outbound : List Summary → Text → Action (List TenantStorageShare)
unfolding resolve_tenant get_tenant_shares with_availability sort_shares
list_outbound summaries tenant = do
  summary ← lift (resolve_tenant summaries tenant)
  stored ← get_tenant_shares summary.incus_name
  shares ← with_availability summary stored
  lift (ok (sort_shares shares))

unfoldable pub get_outbound : List Summary → Text → Text → Text → Action TenantStorageShare
unfolding resolve_tenant validate_project_name validate_share_name get_tenant_shares
    with_availability
get_outbound summaries tenant project_text name_text = do
  summary ← lift (resolve_tenant summaries tenant)
  let project = trim_space project_text
  lift (map_err bad_name (validate_project_name project))
  let name = trim_space name_text
  lift (validate_share_name name)
  stored ← get_tenant_shares summary.incus_name
  shares ← with_availability summary stored
  lift (
      or_not_found (not_found project name summary.tenant)
        (find_first (same_name project name) shares))

-- `localByID[id]`: the last copy with this id.
abbrev pub find_last : Text → List TenantStorageShare → Option TenantStorageShare
find_last id [] = none
find_last id (s ∷ shares) = later (find_last id shares)
  where
    later : Option TenantStorageShare → Option TenantStorageShare
    later (some found) = some found
    later none = if teq (id_of s) id then some s else none

abbrev pub state_in : Text → Option TenantStorageShare → Text
state_in tenant none = recipient_state_pending
state_in tenant (some s) = recipient_state s tenant recipient_state_pending

-- How the recipient has answered the offer.
unfoldable pub answer_to : Text → List TenantStorageShare → TenantStorageShare → Text
unfolding recipient_state share_id
answer_to recipient own offered = state_in recipient (find_last (id_of offered) own)

abbrev pub shown_as : Text → Text → TenantStorageShareRecipient
shown_as recipient state = record {
  tenant = recipient;
  state = state;
  offered_by = [];
  offered_at = [];
  accepted_by = [];
  accepted_at = [];
  declined_by = [];
  declined_at = [];
}

-- The offers of one source that the recipient sees: the open ones, or the answered ones.
unfoldable pub inbound_of :
    Text → Bool → List TenantStorageShare → List TenantStorageShare → List TenantStorageShare
unfolding share_offered_to answer_to
inbound_of recipient offers own [] = []
inbound_of recipient offers own (s ∷ shares) =
    let rest = inbound_of recipient offers own shares in
    let state = answer_to recipient own s in
    let pending = teq state recipient_state_pending in
    if share_offered_to s recipient && (if offers then pending else not pending)
    then record s { recipients = shown_as recipient state ∷ [] } ∷ rest
    else rest

unfoldable pub collect_inbound :
    Summary → Bool → List TenantStorageShare → List Summary → Action (List TenantStorageShare)
unfolding choose get_tenant_shares with_availability inbound_of
collect_inbound recipient offers own [] = lift (ok [])
collect_inbound recipient offers own (source ∷ sources) =
    choose (teq source.tenant recipient.tenant) (collect_inbound recipient offers own sources) (
      get_tenant_shares source.incus_name >>= λ stored.
      with_availability source stored >>= λ shares.
      collect_inbound recipient offers own sources >>= λ rest.
      lift (ok (inbound_of recipient.tenant offers own shares ++ rest)))

unfoldable pub list_inbound : List Summary → Text → Bool → Action (List TenantStorageShare)
unfolding resolve_tenant get_tenant_shares collect_inbound sort_shares
list_inbound summaries tenant offers = do
  recipient ← lift (resolve_tenant summaries tenant)
  own ← get_tenant_shares recipient.incus_name
  output ← collect_inbound recipient offers own summaries
  lift (ok (sort_shares output))
