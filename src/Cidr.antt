-- ===== src/Cidr.antt =====
-- internal/cidr: the blocks of addresses that tenants get out of a pool.
mod Defs
pub mod Blocks
pub mod Search
pub mod Grants
pub mod Room
pub mod Total
pub mod Roles
mod Tests
unfoldable pub use Defs.*
