-- ===== src/Share/Tests/Grants.antt =====
-- The theorems on an offer and an answer.
use sandcastle_incus.Prelude.{◌≡◌, refl, false, [], ◌∷◌, ok}
use sandcastle_incus.Prelude.Text.{
  codes, teq, text_lt, trim_space, trim_left, trim_right, has_char, has_prefix, trim_prefix, cut,
  split,
}
use sandcastle_incus.Naming.{
  validate_tenant_name, validate_project_name, safe_name, project_name, every,
}
use sandcastle_incus.Share.Types.{
  TenantStorageShare, then_run, get_tenant_shares, set_tenant_shares, unless,
  recipient_state_accepted,
}
use sandcastle_incus.Share.Paths.{clean, clean_all, clean_step, turn, join}
use sandcastle_incus.Share.Names.{
  parse_source, parse_dir, find_tenant, resolve_tenant, validate_share_name, sort_with, insert_with,
  tenant_has_project, normalize_recipients, collect_recipients,
}
use sandcastle_incus.Share.Lists.{share_offered_to, recipient_entry}
use sandcastle_incus.Share.Create.{
  CreateRequest, plan_create, check_create, share_name, source_directory_status,
  v2_incus_project_name, or_clock,
}
use sandcastle_incus.Share.Answer.{RecipientRequest, set_recipient_state}
use sandcastle_incus.Share.Granted.{IsCreated, plan_create-IsCreated}
use sandcastle_incus.Share.Answered.{IsAnswered, set_recipient_state-IsAnswered}
use sandcastle_incus.Share.Tests.Sample.{tenants, photos, stored, world_of, stored-HasDistinctIds}
use sandcastle_incus.Share.Offers.{IsShown, set_recipient_state-IsShown}

abbrev create_photos : CreateRequest
create_photos = record {
  source_tenant = codes "ann";
  source = codes "web:/workspace/photos/2026";
  recipients = codes "bob" ∷ codes "eve" ∷ [];
  name = codes "photos";
  actor = codes "ann";
  dry_run = false;
  now = codes "2026-01-02T03:04:05Z";
}

create_run :
    plan_create tenants create_photos (world_of (λ n. []))
    ≡ (ok photos, (plan_create tenants create_photos (world_of (λ n. []))).1)
unfolding plan_create check_create find_tenant validate_tenant_name safe_name every parse_source
    parse_dir cut trim_space trim_left trim_right trim_prefix has_prefix has_char split clean
    clean_all clean_step turn join teq text_lt validate_project_name project_name tenant_has_project
    share_name validate_share_name normalize_recipients collect_recipients sort_with insert_with
    source_directory_status v2_incus_project_name get_tenant_shares set_tenant_shares or_clock
    unless then_run
create_run = refl

plan_create-IsCreated_example :
    IsCreated tenants create_photos
      (world_of (λ n. []))
      photos
      (plan_create tenants create_photos (world_of (λ n. []))).1
plan_create-IsCreated_example =
    plan_create-IsCreated tenants create_photos (world_of (λ n. []))
      (plan_create tenants create_photos (world_of (λ n. []))).1 photos refl create_run

abbrev accept_photos : RecipientRequest
accept_photos = record {
  tenant = codes "eve";
  source_tenant = codes "ann";
  source_project = codes "web";
  name = codes "photos";
  actor = codes "eve";
  state = recipient_state_accepted;
  dry_run = false;
  now = codes "2026-01-03T03:04:05Z";
}

abbrev copy_of_eve : TenantStorageShare
copy_of_eve = record photos {
  recipients =
      recipient_entry (codes "eve") recipient_state_accepted (codes "eve")
        (codes "2026-01-03T03:04:05Z")
      ∷ [];
}

accept_run :
    set_recipient_state tenants accept_photos (world_of stored)
    ≡ (ok copy_of_eve, (set_recipient_state tenants accept_photos (world_of stored)).1)
unfolding set_recipient_state resolve_tenant find_tenant validate_tenant_name safe_name every teq
    trim_space trim_left trim_right share_offered_to get_tenant_shares set_tenant_shares or_clock
    unless then_run
accept_run = refl

set_recipient_state-IsAnswered_example :
    IsAnswered tenants accept_photos
      (world_of stored)
      (set_recipient_state tenants accept_photos (world_of stored)).1
set_recipient_state-IsAnswered_example =
    set_recipient_state-IsAnswered tenants accept_photos (world_of stored)
      (set_recipient_state tenants accept_photos (world_of stored)).1 copy_of_eve refl accept_run

set_recipient_state-IsShown_example :
    IsShown tenants accept_photos
      (world_of stored)
      (set_recipient_state tenants accept_photos (world_of stored)).1
set_recipient_state-IsShown_example =
    set_recipient_state-IsShown tenants accept_photos (world_of stored)
      (set_recipient_state tenants accept_photos (world_of stored)).1 copy_of_eve
      stored-HasDistinctIds refl accept_run
