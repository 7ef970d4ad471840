-- ===== src/Registry/Tables.antt =====
-- The rows and tables of the registry (internal/authapp/app.go and the files named below), and what
-- SQLite does with them. A table lists its rows in the order of insertion.
use sandcastle_incus.Prelude.{
  ℕ, Bool, ◌&&◌, ◌||◌, List, [], ◌∷◌, ◌++◌, if◌then◌else◌, Option, none, some, exists,
}
use sandcastle_incus.Prelude.Text.{
  Text, codes, teq, text_lt, has_suffix, trim_prefix, trim_suffix, trim_space, to_lower,
}

-- internal/authapp/project_domain_claims.go
pub record ProjectDomainClaim : Type 0 where
  pub domain : Text
  pub tenant : Text
  pub project : Text
  pub zone : Text
  pub user_key : Text
  pub created_at : Text

-- internal/authapp/machine_hostnames.go
pub record MachineHostname : Type 0 where
  pub hostname : Text
  pub tenant : Text
  pub project : Text
  pub machine : Text
  pub zone : Text
  pub user_key : Text
  pub created_at : Text

-- internal/authapp/routes.go
pub record Route : Type 0 where
  pub hostname : Text
  pub tenant : Text
  pub project : Text
  pub machine : Text
  pub backend_port : ℕ
  pub local_port : ℕ
  pub created_at : Text

-- internal/authapp/dns_suffix_claims.go
pub record SuffixClaim : Type 0 where
  pub suffix : Text
  pub tenant : Text
  pub user_key : Text

-- The tables that the registry reads and writes. `tunnels` has the hostnames of
-- `machine_tunnel_publications`, which the registry only reads.
pub record Db : Type 0 where
  pub zones : List Text
  pub claims : List ProjectDomainClaim
  pub hostnames : List MachineHostname
  pub routes : List Route
  pub tunnels : List Text
  pub suffixes : List SuffixClaim

module _ {ℓ} {A : Type ℓ} (key : A → Text) where
  -- `ORDER BY key`
  unfoldable pub insert_by : A → List A → List A
  insert_by x [] = x ∷ []
  insert_by x (y ∷ ys) = if text_lt (key y) (key x) then y ∷ insert_by x ys else x ∷ y ∷ ys

  unfoldable pub order_by : List A → List A
  unfolding insert_by
  order_by [] = []
  order_by (x ∷ xs) = insert_by x (order_by xs)

-- `name == parent || strings.HasSuffix(name, "."+parent)`, split into its two tests.
unfoldable pub under : Text → Text → Bool
under name parent = has_suffix name (b'.' ∷ parent)

-- The row belongs to this project.
abbrev pub holds_claim : Text → Text → ProjectDomainClaim → Bool
holds_claim tenant project c = teq c.tenant tenant && teq c.project project

abbrev pub holds_hostname : Text → Text → Text → MachineHostname → Bool
holds_hostname tenant project machine h =
    teq h.tenant tenant && (teq h.project project && teq h.machine machine)

-- The two constraints of `project_domain_claims`: PRIMARY KEY (domain), UNIQUE (tenant, project).
unfoldable pub claim_collides : ProjectDomainClaim → ProjectDomainClaim → Bool
claim_collides row c = teq c.domain row.domain || holds_claim row.tenant row.project c

unfoldable pub insert_claim : ProjectDomainClaim → Db → Option Db
insert_claim row db =
    if exists (claim_collides row) db.claims
    then none
    else some (record db { claims = db.claims ++ row ∷ [] })

unfoldable pub insert_hostname : MachineHostname → Db → Option Db
insert_hostname row db =
    if exists (λ h. teq h.hostname row.hostname) db.hostnames
    then none
    else some (record db { hostnames = db.hostnames ++ row ∷ [] })

-- `strings.TrimPrefix(name, "*.")`
abbrev pub bare : Text → Text
bare name = trim_prefix name (codes "*.")

-- internal/authapp/routes.go
unfoldable pub normalize_hostname : Text → Text
normalize_hostname hostname = to_lower (trim_space (trim_suffix (trim_space hostname) (codes ".")))

-- The snapshot that every conflict scan runs against.
pub record InstallReservations : Type 0 where
  pub claims : List ProjectDomainClaim
  pub hostnames : List MachineHostname
  pub routes : List Text
  pub auth_hostname : Text
  pub route_base_domain : Text
