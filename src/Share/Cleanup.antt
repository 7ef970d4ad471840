-- ===== src/Share/Cleanup.antt =====
-- internal/share/share.go: what is left of a tenant's shares when it is deleted,
-- CleanupTenantDeletion.
use sandcastle_incus.Prelude.{
  Bool, not, ◌&&◌, List, [], ◌∷◌, ◌++◌, if◌then◌else◌, Option, none, some, exists, length, ◌==◌, ok,
}
use sandcastle_incus.Prelude.Text.{Text, teq, text_lt}
use sandcastle_incus.Share.Types.{
  TenantStorageShare, TenantStorageShareRecipient, Summary, Action, ◌>>=◌, ◌>>◌, lift, unless,
  choose, get_tenant_shares, set_tenant_shares,
}
use sandcastle_incus.Share.Names.{resolve_tenant, find_tenant, sort_with}
use sandcastle_incus.Share.Lists.{sort_shares, remove_share, remove_recipient}
use sandcastle_incus.Share.Withdraw.{without_recipient}

-- The tenants whose lists were changed.
pub record TenantCleanupResult : Type 0 where
  pub tenant : Text
  pub affected_recipients : List Text
  pub affected_sources : List Text

unfoldable pub append_unique : List Text → Text → List Text
append_unique values value = if exists (teq value) values then values else values ++ value ∷ []

-- The copy of the share goes from the list of one recipient; the result is the affected tenants.
unfoldable pub drop_copy :
    Bool → Summary → TenantStorageShare → List Text → Summary → Action (List Text)
unfolding get_tenant_shares set_tenant_shares remove_share append_unique
drop_copy dry_run deleting s affected recipient = do
  own ← get_tenant_shares recipient.incus_name
  unless dry_run (
      set_tenant_shares recipient.incus_name
        (remove_share own deleting.tenant s.source_project s.name))
  lift (ok (append_unique affected recipient.tenant))

-- A recipient that is gone, or is the deleted tenant itself, is passed over.
unfoldable pub clean_recipient :
    Bool → Summary → TenantStorageShare → List Text → Option Summary → Action (List Text)
unfolding choose drop_copy
clean_recipient dry_run deleting s affected none = lift (ok affected)
clean_recipient dry_run deleting s affected (some recipient) =
    choose (teq recipient.tenant deleting.tenant) (lift (ok affected))
      (drop_copy dry_run deleting s affected recipient)

unfoldable pub clean_recipients :
    List Summary
    → Bool
    → Summary
    → TenantStorageShare
    → List TenantStorageShareRecipient
    → List Text
    → Action (List Text)
unfolding find_tenant clean_recipient
clean_recipients summaries dry_run deleting s [] affected = lift (ok affected)
clean_recipients summaries dry_run deleting s (r ∷ recipients) affected =
    clean_recipient dry_run deleting s affected (find_tenant summaries r.tenant)
    >>= clean_recipients summaries dry_run deleting s recipients

-- The copies of all that the tenant had offered.
unfoldable pub clean_own_shares :
    List Summary → Bool → Summary → List TenantStorageShare → List Text → Action (List Text)
unfolding choose clean_recipients
clean_own_shares summaries dry_run deleting [] affected = lift (ok affected)
clean_own_shares summaries dry_run deleting (s ∷ shares) affected =
    choose (teq s.source_tenant deleting.tenant)
      (clean_recipients summaries dry_run deleting s s.recipients affected
        >>= clean_own_shares summaries dry_run deleting shares)
      (clean_own_shares summaries dry_run deleting shares affected)

abbrev pub loses_recipient : Text → TenantStorageShare → Bool
loses_recipient tenant s =
    not (length (remove_recipient s.recipients tenant) == length s.recipients)

-- The tenant goes from the recipients; a share that had no other goes with it.
unfoldable pub drop_recipient : Text → List TenantStorageShare → List TenantStorageShare
unfolding remove_recipient
drop_recipient tenant [] = []
drop_recipient tenant (s ∷ shares) =
    let rest = drop_recipient tenant shares in
    if length (remove_recipient s.recipients tenant) == 0 && loses_recipient tenant s
    then rest
    else without_recipient s tenant ∷ rest

-- The list of one other tenant, if it names the deleted one.
unfoldable pub clean_source : Bool → Summary → List Text → Summary → Action (List Text)
unfolding choose get_tenant_shares set_tenant_shares drop_recipient sort_shares append_unique
    remove_recipient
clean_source dry_run deleting affected source = do
  shares ← get_tenant_shares source.incus_name
  choose (exists (loses_recipient deleting.tenant) shares)
      (unless dry_run (
          set_tenant_shares source.incus_name (sort_shares (drop_recipient deleting.tenant shares)))
        >> lift (ok (append_unique affected source.tenant)))
      (lift (ok affected))

unfoldable pub clean_sources : Bool → Summary → List Summary → List Text → Action (List Text)
unfolding choose clean_source
clean_sources dry_run deleting [] affected = lift (ok affected)
clean_sources dry_run deleting (source ∷ sources) affected =
    choose (teq source.tenant deleting.tenant) (clean_sources dry_run deleting sources affected)
      (clean_source dry_run deleting affected source >>= clean_sources dry_run deleting sources)

unfoldable pub cleanup_tenant_deletion : List Summary → Text → Bool → Action TenantCleanupResult
unfolding resolve_tenant get_tenant_shares clean_own_shares clean_sources sort_with
cleanup_tenant_deletion summaries tenant dry_run = do
  deleting ← lift (resolve_tenant summaries tenant)
  own ← get_tenant_shares deleting.incus_name
  recipients ← clean_own_shares summaries dry_run deleting own []
  sources ← clean_sources dry_run deleting summaries []
  lift (
      ok (record {
        tenant = deleting.tenant;
        affected_recipients = sort_with text_lt recipients;
        affected_sources = sort_with text_lt sources;
      }))
