-- ===== src/Registry/Routes.antt =====
-- internal/authapp/routes.go: the registry of Public Routes.
mod Defs
unfoldable pub use Defs.*
