-- ===== src/Registry/Claims.antt =====
-- internal/authapp/project_domain_claims.go: claiming and releasing Project Domains.
mod Defs
pub mod Texts
unfoldable pub use Defs.*
