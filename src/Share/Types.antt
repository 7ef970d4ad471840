-- ===== src/Share/Types.antt =====
-- internal/share/share.go and internal/meta/meta.go: the records of Tenant Storage Shares, the store
-- that keeps a list of them for each tenant, and the actions on it.
use sandcastle_incus.Prelude.{Bool, true, false, List, if◌then◌else◌, Result, err, ok}
use sandcastle_incus.Prelude.Text.{Text, codes, teq}
use sandcastle_incus.Naming.{NamingError}

abbrev pub recipient_state_pending : Text
recipient_state_pending = codes "pending"

abbrev pub recipient_state_accepted : Text
recipient_state_accepted = codes "accepted"

abbrev pub recipient_state_declined : Text
recipient_state_declined = codes "declined"

abbrev pub availability_available : Text
availability_available = codes "available"

abbrev pub availability_unavailable : Text
availability_unavailable = codes "unavailable"

pub record TenantStorageShareRecipient : Type 0 where
  pub tenant : Text
  pub state : Text
  pub offered_by : Text
  pub offered_at : Text
  pub accepted_by : Text
  pub accepted_at : Text
  pub declined_by : Text
  pub declined_at : Text

pub record TenantStorageShare : Type 0 where
  pub source_tenant : Text
  pub source_project : Text
  pub source_dir : Text
  pub name : Text
  pub availability : Text
  pub created_by : Text
  pub created_at : Text
  pub recipients : List TenantStorageShareRecipient

-- internal/tenant/list.go: what sharing reads of a tenant, with the names of its projects.
pub record Summary : Type 0 where
  pub incus_name : Text
  pub infra_project : Text
  pub tenant : Text
  pub projects : List Text

pub record SourceStatus : Type 0 where
  pub is_there : Bool
  pub safe : Bool
  pub reason : Text

pub data ShareError : Type 0 where
  source_tenant_required no_colon no_slash not_below_workspace not_relative : ShareError
  self_offer recipients_required : ShareError
  bad_name : NamingError → ShareError
  bad_share_name bad_basename bad_segments unsupported_state : Text → ShareError
  source_not_found recipient_not_found tenant_not_found : Text → ShareError
  project_not_found missing_directory last_recipient : Text → Text → ShareError
  unsafe_directory already_exists not_found not_offered : Text → Text → Text → ShareError
  unreadable unwritable unchecked : Text → ShareError

-- The store, by the names of the tenants' Incus projects. It may fail to read or write a list or to
-- look at a directory. `clock` is the time that a request without one gets.
pub record World : Type 0 where
  pub shares : Text → List TenantStorageShare
  pub read_fails : Text → Bool
  pub write_fails : Text → Bool
  pub directory : Text → Text → Result ShareError SourceStatus
  pub clock : Text

-- What a function of the store returns, and the store it leaves, also on an error.
abbrev pub Action {ℓ} : Type ℓ → Type ℓ
Action A = World → Result ShareError A × World

unfoldable pub then_run {ℓ κ} :
    {A : Type ℓ} {B : Type κ}
    → Result ShareError A × World
    → (A → Action B)
    → Result ShareError B × World
then_run (err e, w) rest = (err e, w)
then_run (ok a, w) rest = rest a w

infixl 5 ◌>>=◌
abbrev pub ◌>>=◌ {ℓ κ} : {A : Type ℓ} {B : Type κ} → Action A → (A → Action B) → Action B
(first >>= rest) w = then_run (first w) rest

infixl 5 ◌>>◌
abbrev pub ◌>>◌ {ℓ} : {B : Type ℓ} → Action (Unit {0}) → Action B → Action B
first >> next = first >>= λ _. next

-- A step that neither reads nor writes the store.
abbrev pub lift {ℓ} : {A : Type ℓ} → Result ShareError A → Action A
lift r w = (r, w)

abbrev pub skip : Action (Unit {0})
skip w = (ok tt, w)

unfoldable pub get_tenant_shares : Text → Action (List TenantStorageShare)
get_tenant_shares name w =
    (if w.read_fails name then err (unreadable name) else ok (w.shares name), w)

abbrev pub with_shares : Text → List TenantStorageShare → World → World
with_shares name list w = record w { shares = λ n. if teq n name then list else w.shares n }

unfoldable pub set_tenant_shares : Text → List TenantStorageShare → Action (Unit {0})
set_tenant_shares name list w =
    if w.write_fails name then (err (unwritable name), w) else (ok tt, with_shares name list w)

-- `if !request.DryRun { ... }`
unfoldable pub unless : Bool → Action (Unit {0}) → Action (Unit {0})
unless dry_run action = if dry_run then skip else action

-- The first action if the test holds, else the second.
unfoldable pub choose {ℓ} : {A : Type ℓ} → Bool → Action A → Action A → Action A
choose true one other w = one w
choose false one other w = other w
