-- ===== src/Naming/Defs.antt =====
-- internal/naming/naming.go: validators, reserved names and references. A regular expression of the
-- source is written out as a test of the first character, the rest and the length.
use sandcastle_incus.Prelude.{
  ℕ, Bool, true, false, not, ◌&&◌, ◌||◌, List, [], ◌∷◌, ◌++◌, Option, none, some, if◌then◌else◌,
  exists, length, leb, ◌==◌, Result, ok, err, ◌>>◌, fail_if,
}
use sandcastle_incus.Prelude.Text.{Text, codes, teq, trim_space, to_lower, cut}
use sandcastle_incus.Domain.{is_nil}

abbrev pub default_incus_project_prefix : Text
default_incus_project_prefix = codes "sc"

abbrev pub default_project_name : Text
default_project_name = codes "default"

pub data NamingError : Type 0 where
  no_slash : NamingError
  invalid_tenant invalid_project invalid_machine invalid_github invalid_suffix : Text → NamingError
  invalid_unix invalid_prefix invalid_incus_project : Text → NamingError
  github_required unix_required prefix_required incus_project_required : NamingError
  reserved_project reserved_machine : Text → NamingError
  too_long : Text → NamingError

pub record TenantRef : Type 0 where
  pub tenant : Text

pub record ProjectRef : Type 0 where
  pub tenant : Text
  pub project : Text

pub record MachineRef : Type 0 where
  pub tenant : Text
  pub project : Text
  pub machine : Text

-- [a-z], [a-z0-9], [a-z0-9-]
abbrev pub is_letter : ℕ → Bool
is_letter c = leb b'a' c && leb c b'z'

abbrev pub is_letter_or_digit : ℕ → Bool
is_letter_or_digit c = is_letter c || (leb b'0' c && leb c b'9')

abbrev pub is_name_char : ℕ → Bool
is_name_char c = is_letter_or_digit c || c == b'-'

unfoldable pub every : (ℕ → Bool) → Text → Bool
every p [] = true
every p (c ∷ s) = p c && every p s

-- `^[a-z][a-z0-9-]{1,62}$`
unfoldable pub safe_name : Text → Bool
safe_name [] = false
safe_name (c ∷ s) = is_letter c && (every is_name_char s && (leb 1 (length s) && leb (length s) 62))

-- `^[a-z0-9][a-z0-9-]{1,62}$`
unfoldable pub project_name : Text → Bool
project_name [] = false
project_name (c ∷ s) =
    is_letter_or_digit c && (every is_name_char s && (leb 1 (length s) && leb (length s) 62))

-- The last character of `c ∷ s` passes.
abbrev pub last_is : (ℕ → Bool) → ℕ → Text → Bool
last_is p c [] = p c
last_is p c (d ∷ s) = last_is p d s

-- `^[a-z0-9](?:[a-z0-9-]{0,37}[a-z0-9])?$`
unfoldable pub github_name : Text → Bool
github_name [] = false
github_name (c ∷ s) =
    is_letter_or_digit c
    && (every is_name_char s && (leb (length s) 38 && last_is is_letter_or_digit c s))

-- `^[a-z_][a-z0-9_-]{0,31}$`
unfoldable pub unix_name : Text → Bool
unix_name [] = false
unix_name (c ∷ s) =
    (is_letter c || c == b'_') && (every (λ d. is_name_char d || d == b'_') s && leb (length s) 31)

-- `strings.Contains(s, "--")`
unfoldable pub has_double_dash : Text → Bool
has_double_dash [] = false
has_double_dash (c ∷ []) = false
has_double_dash (c ∷ d ∷ s) = (c == b'-' && d == b'-') || has_double_dash (d ∷ s)

unfoldable pub validate_tenant_name : Text → Result NamingError (Unit {0})
validate_tenant_name name = fail_if (not (safe_name name)) (invalid_tenant name)

unfoldable pub validate_git_hub_username_tenant_name : Text → Result NamingError (Unit {0})
validate_git_hub_username_tenant_name name = do
  let normalized = to_lower (trim_space name)
  fail_if (is_nil normalized) github_required
  fail_if (not (github_name normalized) || has_double_dash normalized) (invalid_github name)

unfoldable pub validate_project_name : Text → Result NamingError (Unit {0})
validate_project_name name = fail_if (not (project_name name)) (invalid_project name)

abbrev pub infrastructure_names : List Text
infrastructure_names =
    codes "admin"
    ∷ codes "ca"
    ∷ codes "dns"
    ∷ codes "infra"
    ∷ codes "route"
    ∷ codes "tailscale"
    ∷ codes "sc-ca"
    ∷ codes "sc-dns"
    ∷ []

unfoldable pub is_reserved_infrastructure_name : Text → Bool
is_reserved_infrastructure_name name = exists (teq name) infrastructure_names

unfoldable pub is_reserved_project_name : Text → Bool
is_reserved_project_name name =
    if teq name default_project_name then true else is_reserved_infrastructure_name name

unfoldable pub validate_new_project_name : Text → Result NamingError (Unit {0})
validate_new_project_name name = do
  validate_project_name name
  fail_if (is_reserved_project_name name) (reserved_project name)

unfoldable pub validate_machine_name : Text → Result NamingError (Unit {0})
validate_machine_name name = do
  fail_if (not (safe_name name)) (invalid_machine name)
  fail_if (is_reserved_infrastructure_name name) (reserved_machine name)

unfoldable pub validate_install_suffix : Text → Result NamingError (Unit {0})
validate_install_suffix name = fail_if (not (safe_name name)) (invalid_suffix name)

unfoldable pub validate_unix_username : Text → Result NamingError (Unit {0})
validate_unix_username value = do
  let name = trim_space value
  fail_if (is_nil name) unix_required
  fail_if (not (unix_name name)) (invalid_unix name)

unfoldable pub validate_incus_project_prefix : Text → Result NamingError (Unit {0})
validate_incus_project_prefix prefix = do
  fail_if (is_nil (trim_space prefix)) prefix_required
  fail_if (not (safe_name prefix)) (invalid_prefix prefix)

unfoldable pub validate_incus_project_name : Text → Result NamingError (Unit {0})
validate_incus_project_name name = do
  fail_if (is_nil (trim_space name)) incus_project_required
  fail_if (not (safe_name name)) (invalid_incus_project name)

-- `ProjectRef.Validate`: the tenant may be blank.
unfoldable pub validate_project_ref : ProjectRef → Result NamingError (Unit {0})
validate_project_ref r = do
  if is_nil (trim_space r.tenant) then ok tt else validate_tenant_name r.tenant
  validate_project_name r.project

-- `MachineRef.Validate`
unfoldable pub validate_machine_ref : MachineRef → Result NamingError (Unit {0})
validate_machine_ref r = do
  validate_tenant_name r.tenant
  validate_project_name r.project
  validate_machine_name r.machine

unfoldable pub parse_tenant_ref : Text → Result NamingError TenantRef
parse_tenant_ref value = do
  validate_tenant_name (trim_space value)
  ok (record { tenant = trim_space value })

unfoldable pub check_project_ref : Option (Text × Text) → Result NamingError ProjectRef
check_project_ref none = err no_slash
check_project_ref (some (tenant, project)) = do
  validate_project_ref (record { tenant = tenant; project = project })
  ok (record { tenant = tenant; project = project })

unfoldable pub parse_project_ref : Text → Result NamingError ProjectRef
parse_project_ref value = check_project_ref (cut b'/' value)

-- `ProjectRef.String` and `MachineRef.String`
unfoldable pub show_project_ref : ProjectRef → Text
show_project_ref r =
    if is_nil (trim_space r.tenant) then r.project else r.tenant ++ b'/' ∷ r.project

unfoldable pub show_machine_ref : MachineRef → Text
show_machine_ref r = r.tenant ++ b'/' ∷ (r.project ++ b'/' ∷ r.machine)
