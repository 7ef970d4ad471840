-- ===== src/Registry/Suffixes.antt =====
-- internal/authapp/dns_suffix_claims.go: the registry of Tenant DNS Suffixes.
mod Defs
pub mod Laws
unfoldable pub use Defs.*
