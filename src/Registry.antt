-- ===== src/Registry.antt =====
-- The Auth App's reservation registry (internal/authapp): Project Domains, Machine Public Hostnames,
-- Public Routes and Tenant DNS Suffixes, in the tables of one database.
pub mod Tables
pub mod Scan
pub mod Claims
pub mod Hostnames
pub mod Routes
pub mod Suffixes
pub mod Overlap
pub mod Sound
pub mod Invariant
pub mod Preserve
pub mod Reach
pub mod Owners
pub mod Restore
pub mod Privacy
mod Tests
