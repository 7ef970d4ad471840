-- ===== src/Naming.antt =====
-- internal/naming: the names of tenants, projects and machines, and of what stands for them in Incus.
mod Defs
mod Incus
pub mod Shape
pub mod Projects
pub mod Limits
pub mod Refs
mod Tests
unfoldable pub use Defs.*
unfoldable pub use Incus.*
