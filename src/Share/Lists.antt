-- ===== src/Share/Lists.antt =====
-- internal/share/share.go: the lists of shares and of their recipients, and what is read from them.
use sandcastle_incus.Prelude.{
  Bool, false, not, ◌&&◌, List, [], ◌∷◌, ◌++◌, map, if◌then◌else◌, Option, none, some, keep,
  find_first, exists,
}
use sandcastle_incus.Prelude.Text.{Text, teq, text_lt, trim_space}
use sandcastle_incus.Domain.{is_nil}
use sandcastle_incus.Share.Types.{
  TenantStorageShare, TenantStorageShareRecipient, SourceStatus, recipient_state_accepted,
  recipient_state_declined, availability_available, availability_unavailable,
}
use sandcastle_incus.Share.Names.{sort_with}

unfoldable pub share_id : Text → Text → Text → Text
share_id source_tenant source_project name = source_tenant ++ b'/' ∷ (source_project ++ b'/' ∷ name)

-- `shareID(s.SourceTenant, s.SourceProject, s.Name)`
abbrev pub id_of : TenantStorageShare → Text
id_of s = share_id s.source_tenant s.source_project s.name

abbrev pub share_lt : TenantStorageShare → TenantStorageShare → Bool
share_lt a b =
    if teq a.source_project b.source_project
    then text_lt a.name b.name
    else text_lt a.source_project b.source_project

unfoldable pub sort_shares : List TenantStorageShare → List TenantStorageShare
unfolding sort_with
sort_shares shares = sort_with share_lt shares

-- `none` for the index -1.
unfoldable pub find_share : List TenantStorageShare → Text → Option TenantStorageShare
find_share shares id = find_first (λ s. teq (id_of s) id) shares

-- The first share with this id replaced: `list[index] = updated`.
unfoldable pub replace_share :
    Text → TenantStorageShare → List TenantStorageShare → List TenantStorageShare
replace_share id updated [] = []
replace_share id updated (s ∷ shares) =
    if teq (id_of s) id then updated ∷ shares else s ∷ replace_share id updated shares

-- The first share with this id taken out: `append(list[:index], list[index+1:]...)`.
unfoldable pub cut_share : Text → List TenantStorageShare → List TenantStorageShare
cut_share id [] = []
cut_share id (s ∷ shares) = if teq (id_of s) id then shares else s ∷ cut_share id shares

unfoldable pub remove_share : List TenantStorageShare → Text → Text → Text → List TenantStorageShare
unfolding sort_shares share_id
remove_share shares source_tenant source_project name =
    sort_shares
      (keep (λ s. not (teq (id_of s) (share_id source_tenant source_project name))) shares)

unfoldable pub share_recipients : TenantStorageShare → List Text
unfolding sort_with
share_recipients s = sort_with text_lt (
    map (λ (r : TenantStorageShareRecipient). r.tenant)
      (keep (λ (r : TenantStorageShareRecipient). not (is_nil (trim_space r.tenant))) s.recipients))

unfoldable pub remove_recipient :
    List TenantStorageShareRecipient → Text → List TenantStorageShareRecipient
remove_recipient recipients tenant =
    keep (λ (r : TenantStorageShareRecipient). not (teq r.tenant tenant)) recipients

unfoldable pub share_offered_to : TenantStorageShare → Text → Bool
share_offered_to s tenant =
    exists (λ (r : TenantStorageShareRecipient). teq r.tenant tenant) s.recipients

abbrev state_or : Text → Option TenantStorageShareRecipient → Text
state_or fallback none = fallback
state_or fallback (some r) = r.state

unfoldable pub recipient_state : TenantStorageShare → Text → Text → Text
recipient_state s tenant fallback = state_or fallback (
    find_first (λ (r : TenantStorageShareRecipient). teq r.tenant tenant && not (is_nil r.state))
      s.recipients)

unfoldable pub recipient_entry : Text → Text → Text → Text → TenantStorageShareRecipient
recipient_entry tenant state actor now =
    let accepted = teq state recipient_state_accepted in
    let declined = teq state recipient_state_declined in
    record {
      tenant = tenant;
      state = state;
      offered_by = [];
      offered_at = [];
      accepted_by = if accepted then trim_space actor else [];
      accepted_at = if accepted then now else [];
      declined_by = if declined then trim_space actor else [];
      declined_at = if declined then now else [];
    }

-- The recipient's own copy of an offered share, written over an older one.
unfoldable pub upsert_copy :
    TenantStorageShare
    → TenantStorageShareRecipient
    → List TenantStorageShare
    → List TenantStorageShare
unfolding share_id
upsert_copy offered entry [] = record offered { recipients = entry ∷ [] } ∷ []
upsert_copy offered entry (s ∷ shares) =
    if teq (id_of s) (id_of offered)
    then record s {
      source_dir = offered.source_dir;
      availability = offered.availability;
      recipients = entry ∷ [];
    }
      ∷ shares
    else s ∷ upsert_copy offered entry shares

unfoldable pub upsert_recipient_share :
    List TenantStorageShare
    → TenantStorageShare
    → Text
    → Text
    → Text
    → Text
    → List TenantStorageShare
unfolding upsert_copy recipient_entry
upsert_recipient_share shares offered tenant state actor now =
    upsert_copy offered (recipient_entry tenant state actor now) shares

unfoldable pub is_accepted_available : TenantStorageShare → Text → Bool
is_accepted_available s recipient_tenant =
    if not (is_nil s.availability) && not (teq s.availability availability_available)
    then false
    else exists
        (λ (r : TenantStorageShareRecipient).
          teq r.tenant recipient_tenant && teq r.state recipient_state_accepted)
        s.recipients

unfoldable pub mark_availability : TenantStorageShare → SourceStatus → TenantStorageShare
mark_availability s status = record s {
  availability =
      if status.is_there && status.safe then availability_available else availability_unavailable;
}
