-- ===== src/Registry/Hostnames.antt =====
-- internal/authapp/machine_hostnames.go: claiming and releasing Machine Public Hostnames.
mod Defs
mod Release
pub mod Texts
unfoldable pub use Defs.*
unfoldable pub use Release.*
