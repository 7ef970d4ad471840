-- ===== src/Registry/Preserve.antt =====
-- The operations keep the tables consistent.
pub mod Claim
pub mod Hostname
pub mod Route
pub mod Remove
