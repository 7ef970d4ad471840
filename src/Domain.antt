-- ===== src/Domain.antt =====
-- internal/domain/validate.go and project_certificate.go: how DNS names are normalised and refused.
-- The two snapshot tables of the package (special-use names, public top-level domains) are arguments.
mod Names
mod Policy
pub mod Shape
pub mod Normal
pub mod Wildcard
mod Tests
unfoldable pub use Names.*
unfoldable pub use Policy.*
