-- ===== src/Share/Create.antt =====
-- internal/share/share.go: the offer of a directory, PlanCreate.
use sandcastle_incus.Prelude.{
  Bool, not, ◌&&◌, List, [], ◌∷◌, ◌++◌, map, if◌then◌else◌, exists, Result, err, ok, fail_if,
  map_err,
}
use sandcastle_incus.Prelude.Text.{Text, codes, teq, trim_space}
use sandcastle_incus.Domain.{is_nil}
use sandcastle_incus.Naming.{validate_tenant_name, default_project_name}
use sandcastle_incus.Share.Types.{
  TenantStorageShare, TenantStorageShareRecipient, Summary, SourceStatus, ShareError, Action, ◌>>=◌,
  ◌>>◌, lift, unless, get_tenant_shares, set_tenant_shares, recipient_state_pending,
  availability_available, source_tenant_required, bad_name, bad_basename, source_not_found,
  project_not_found, missing_directory, unsafe_directory, already_exists,
}
use sandcastle_incus.Share.Paths.{base}
use sandcastle_incus.Share.Names.{
  find_tenant, or_missing, parse_source, tenant_has_project, validate_share_name,
  normalize_recipients,
}
use sandcastle_incus.Share.Lists.{sort_shares}

pub record CreateRequest : Type 0 where
  pub source_tenant : Text
  pub source : Text
  pub recipients : List Text
  pub name : Text
  pub actor : Text
  pub dry_run : Bool
  pub now : Text

-- internal/tenant/list.go
unfoldable pub v2_incus_project_name : Summary → Text → Text
v2_incus_project_name s project =
    let name = trim_space project in
    s.infra_project ++ b'-' ∷ (if is_nil name then default_project_name else name)

-- A status that says only that the boundary is unsafe gets a reason.
abbrev with_reason : SourceStatus → SourceStatus
with_reason status =
    if status.is_there && (not status.safe && is_nil status.reason)
    then record status { reason = codes "source boundary is unsafe" }
    else status

unfoldable pub source_directory_status : Text → Text → Action SourceStatus
source_directory_status incus_project_name dir w = (give (w.directory incus_project_name dir), w)
  where
    give : Result ShareError SourceStatus → Result ShareError SourceStatus
    give (err e) = err e
    give (ok status) = ok (with_reason status)

-- `strings.TrimSpace(request.Now)`, or the clock's time.
unfoldable pub or_clock : Text → Action Text
or_clock now w = (ok (if is_nil (trim_space now) then w.clock else trim_space now), w)

abbrev pub named : Text → Result ShareError (Unit {0}) → Result ShareError Text
named chosen (err e) = err e
named chosen (ok u) = ok chosen

-- The name of the request, or the last part of the directory.
unfoldable pub share_name : Text → Text → Result ShareError Text
unfolding base validate_share_name
share_name wanted dir =
    let name = trim_space wanted in
    let chosen = if is_nil name then base dir else name in
    named chosen (
      if is_nil name
      then map_err (λ _. bad_basename chosen) (validate_share_name chosen)
      else validate_share_name chosen)

abbrev pub offer_to : Text → Text → Text → TenantStorageShareRecipient
offer_to actor now recipient = record {
  tenant = recipient;
  state = recipient_state_pending;
  offered_by = actor;
  offered_at = now;
  accepted_by = [];
  accepted_at = [];
  declined_by = [];
  declined_at = [];
}

-- What of the request is settled before the store is asked for the source's list.
pub record Offer : Type 0 where
  pub source : Summary
  pub project : Text
  pub dir : Text
  pub name : Text
  pub recipients : List Text

unfoldable pub check_create : List Summary → CreateRequest → Action Offer
unfolding find_tenant parse_source tenant_has_project share_name normalize_recipients
    source_directory_status v2_incus_project_name validate_tenant_name
check_create summaries request = do
  let source_tenant = trim_space request.source_tenant
  lift (fail_if (is_nil source_tenant) source_tenant_required)
  lift (map_err bad_name (validate_tenant_name source_tenant))
  source ← lift (or_missing (source_not_found source_tenant) (find_tenant summaries source_tenant))
  (project, dir) ← lift (parse_source request.source)
  lift (fail_if (not (tenant_has_project source project)) (project_not_found project source.tenant))
  name ← lift (share_name request.name dir)
  recipients ← lift (normalize_recipients request.recipients source_tenant summaries)
  status ← source_directory_status (v2_incus_project_name source project) dir
  lift (fail_if (not status.is_there) (missing_directory project dir))
  lift (fail_if (not status.safe) (unsafe_directory project dir status.reason))
  lift (
      ok (record {
        source = source;
        project = project;
        dir = dir;
        name = name;
        recipients = recipients;
      }))

abbrev pub share_of_offer : Offer → Text → Text → TenantStorageShare
share_of_offer offer actor now = record {
  source_tenant = offer.source.tenant;
  source_project = offer.project;
  source_dir = offer.dir;
  name = offer.name;
  availability = availability_available;
  created_by = actor;
  created_at = now;
  recipients = map (offer_to actor now) offer.recipients;
}

-- A share with the same project and name stands in the list.
abbrev pub same_name : Text → Text → TenantStorageShare → Bool
same_name project name s = teq s.source_project project && teq s.name name

unfoldable pub plan_create : List Summary → CreateRequest → Action TenantStorageShare
unfolding check_create get_tenant_shares set_tenant_shares or_clock sort_shares
plan_create summaries request = do
  offer ← check_create summaries request
  existing ← get_tenant_shares offer.source.incus_name
  lift (
      fail_if (exists (same_name offer.project offer.name) existing)
        (already_exists offer.project offer.name offer.source.tenant))
  now ← or_clock request.now
  let created = share_of_offer offer (trim_space request.actor) now
  unless request.dry_run
      (set_tenant_shares offer.source.incus_name (sort_shares (existing ++ created ∷ [])))
  lift (ok created)
