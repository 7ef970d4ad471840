-- ===== src/Share/Tests/Withdrawals.antt =====
-- The theorems on revocations and deletions.
use sandcastle_incus.Prelude.{◌≡◌, refl, false, All, ok, err, ◌⊎◌}
use sandcastle_incus.Prelude.Text.{codes, teq, text_lt, trim_space, trim_left, trim_right, has_char}
use sandcastle_incus.Domain.{is_nil}
use sandcastle_incus.Naming.{
  validate_tenant_name, validate_project_name, safe_name, project_name, every,
}
use sandcastle_incus.Share.Types.{
  TenantStorageShare, TenantStorageShareRecipient, World, then_run, get_tenant_shares,
  set_tenant_shares, unless, unwritable,
}
use sandcastle_incus.Share.Names.{
  find_tenant, resolve_tenant, validate_share_name, sort_with, insert_with,
}
use sandcastle_incus.Share.Lists.{share_id, find_share, share_recipients, share_offered_to}
use sandcastle_incus.Share.Withdraw.{
  RevokeRequest, DeleteRequest, find_outbound, revoke_recipient, remove_copies, delete_outbound,
  without_recipient,
}
use sandcastle_incus.Share.Gone.{IsGone, LostBy, revoke_recipient-IsGone, delete_outbound-gone}
use sandcastle_incus.Share.Stranded.{IsStranded, revoke_recipient_failed}
use sandcastle_incus.Share.Tests.Sample.{
  tenant_named, tenants, photos, stored, world_of, stored-HasDistinctIds,
}

abbrev revoke_bob : RevokeRequest
revoke_bob = record {
  source_tenant = codes "ann";
  source_project = codes "web";
  name = codes "photos";
  recipient_tenant = codes "bob";
  dry_run = false;
}

ann_found : resolve_tenant tenants (codes "ann") ≡ ok (tenant_named (codes "ann"))
unfolding resolve_tenant find_tenant validate_tenant_name safe_name every trim_space trim_left
    trim_right teq
ann_found = refl

bob_found : resolve_tenant tenants (codes "bob") ≡ ok (tenant_named (codes "bob"))
unfolding resolve_tenant find_tenant validate_tenant_name safe_name every trim_space trim_left
    trim_right teq
bob_found = refl

revoke_run : revoke_recipient tenants revoke_bob (world_of stored) ≡ (
  ok (without_recipient photos (codes "bob")),
  (revoke_recipient tenants revoke_bob (world_of stored)).1,
)
unfolding revoke_recipient resolve_tenant find_tenant validate_tenant_name safe_name every
    trim_space trim_left trim_right teq find_outbound validate_project_name project_name
    validate_share_name has_char find_share share_id share_offered_to get_tenant_shares
    set_tenant_shares unless then_run
revoke_run = refl

revoke_recipient-IsGone_example :
    IsGone
      (share_id (codes "ann") (trim_space (codes "web")) (trim_space (codes "photos")))
      (codes "sc2-bob")
      (revoke_recipient tenants revoke_bob (world_of stored)).1
revoke_recipient-IsGone_example =
    revoke_recipient-IsGone tenants revoke_bob (tenant_named (codes "ann"))
      (tenant_named (codes "bob")) (world_of stored)
      (revoke_recipient tenants revoke_bob (world_of stored)).1
      (without_recipient photos (codes "bob")) ann_found bob_found refl revoke_run

abbrev delete_photos : DeleteRequest
delete_photos = record {
  source_tenant = codes "ann";
  source_project = codes "web";
  name = codes "photos";
  dry_run = false;
}

delete_run :
    delete_outbound tenants delete_photos (world_of stored)
    ≡ (ok photos, (delete_outbound tenants delete_photos (world_of stored)).1)
unfolding delete_outbound resolve_tenant find_tenant validate_tenant_name safe_name every trim_space
    trim_left trim_right teq text_lt find_outbound validate_project_name project_name
    validate_share_name has_char find_share share_id share_recipients sort_with insert_with
    remove_copies get_tenant_shares set_tenant_shares unless then_run
delete_run = refl

delete_outbound-gone_example :
    All
      (λ (r : TenantStorageShareRecipient).
        is_nil (trim_space r.tenant) ≡ false
        → LostBy tenants
            (codes "ann")
            (trim_space (codes "web"))
            (trim_space (codes "photos"))
            (delete_outbound tenants delete_photos (world_of stored)).1
            r.tenant)
      photos.recipients
delete_outbound-gone_example =
    delete_outbound-gone tenants delete_photos (tenant_named (codes "ann")) (world_of stored)
      (delete_outbound tenants delete_photos (world_of stored)).1 photos ann_found refl delete_run

-- The list of the recipient cannot be written.
abbrev half_broken : World
half_broken = record (world_of stored) { write_fails = λ n. teq n (codes "sc2-bob") }

apart_run : teq (codes "sc2-bob") (codes "sc2-ann") ≡ false
unfolding teq
apart_run = refl

broken_run :
    revoke_recipient tenants revoke_bob half_broken
    ≡ (err (unwritable (codes "sc2-bob")), (revoke_recipient tenants revoke_bob half_broken).1)
unfolding revoke_recipient resolve_tenant find_tenant validate_tenant_name safe_name every
    trim_space trim_left trim_right teq find_outbound validate_project_name project_name
    validate_share_name has_char find_share share_id share_offered_to get_tenant_shares
    set_tenant_shares unless then_run
broken_run = refl

revoke_recipient_failed_example :
    let w' = (revoke_recipient tenants revoke_bob half_broken).1 in
    (w' ≡ half_broken)
    ⊎ (IsStranded tenants revoke_bob
          (tenant_named (codes "ann"))
          (tenant_named (codes "bob"))
          half_broken
          w'
        × ((out : TenantStorageShare) (w'' : World)
            → ¬ (revoke_recipient tenants revoke_bob w' ≡ (ok out, w''))))
revoke_recipient_failed_example =
    revoke_recipient_failed tenants revoke_bob (tenant_named (codes "ann"))
      (tenant_named (codes "bob")) half_broken (revoke_recipient tenants revoke_bob half_broken).1
      (unwritable (codes "sc2-bob")) ann_found bob_found apart_run stored-HasDistinctIds broken_run
