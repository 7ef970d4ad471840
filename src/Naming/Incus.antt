-- ===== src/Naming/Incus.antt =====
-- internal/naming/naming.go and v2.go: the names of Incus projects and bridges.
use sandcastle_incus.Prelude.{
  ℕ, ◌||◌, ◌∷◌, ◌++◌, if◌then◌else◌, length, take, leb, ltb, Result, ok, ◌>>=◌, ◌>>◌, fail_if,
}
use sandcastle_incus.Prelude.Text.{Text, codes, teq, trim_space}
use sandcastle_incus.Domain.{is_nil}
use sandcastle_incus.Naming.Defs.{
  NamingError, too_long, TenantRef, default_incus_project_prefix, validate_tenant_name,
  validate_project_name, validate_incus_project_prefix, validate_git_hub_username_tenant_name,
}

-- `tenantIncusProjectNameWithPrefix`; `validated` is what the caller's check came to.
unfoldable pub tenant_incus_project_name_checked :
    Text → Text → Result NamingError (Unit {0}) → Result NamingError Text
tenant_incus_project_name_checked prefix tenant validated = do
  validate_incus_project_prefix (trim_space prefix)
  validated
  let name = trim_space prefix ++ b'-' ∷ tenant
  fail_if (ltb 56 (length name)) (too_long name)
  ok name

unfoldable pub tenant_incus_project_name_with_prefix : Text → TenantRef → Result NamingError Text
tenant_incus_project_name_with_prefix prefix ref =
    tenant_incus_project_name_checked prefix ref.tenant (validate_tenant_name ref.tenant)

unfoldable pub tenant_incus_project_name : TenantRef → Result NamingError Text
tenant_incus_project_name ref =
    tenant_incus_project_name_with_prefix default_incus_project_prefix ref

unfoldable pub personal_tenant_incus_project_name_with_prefix :
    Text → Text → Result NamingError Text
personal_tenant_incus_project_name_with_prefix prefix tenant =
    tenant_incus_project_name_checked prefix tenant (validate_git_hub_username_tenant_name tenant)

abbrev pub v2_incus_project_prefix : Text
v2_incus_project_prefix = codes "sc2"

abbrev pub max_incus_project_name_len : ℕ
max_incus_project_name_len = 63

unfoldable pub normalize_v2_prefix : Text → Text
normalize_v2_prefix prefix =
    if is_nil (trim_space prefix) || teq (trim_space prefix) default_incus_project_prefix
    then v2_incus_project_prefix
    else trim_space prefix

unfoldable pub v2_tenant_infra_project_name : Text → Text → Result NamingError Text
v2_tenant_infra_project_name prefix tenant = do
  validate_incus_project_prefix (trim_space prefix)
  validate_tenant_name tenant
  let name = trim_space prefix ++ b'-' ∷ tenant
  fail_if (ltb max_incus_project_name_len (length name)) (too_long name)
  ok name

unfoldable pub v2_project_name : Text → Text → Text → Result NamingError Text
v2_project_name prefix tenant project = do
  infra ← v2_tenant_infra_project_name prefix tenant
  validate_project_name project
  let name = infra ++ b'-' ∷ project
  fail_if (ltb max_incus_project_name_len (length name)) (too_long name)
  ok name

-- `sha1_hex` stands for the forty hexadecimal digits of a SHA-1 sum.
unfoldable pub v2_bridge_name : (Text → Text) → Text → Text → Result NamingError Text
v2_bridge_name sha1_hex prefix tenant = do
  infra ← v2_tenant_infra_project_name prefix tenant
  ok (if leb (length infra) 15 then infra else codes "sc2-" ++ take 11 (sha1_hex infra))
