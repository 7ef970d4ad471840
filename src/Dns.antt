-- ===== src/Dns.antt =====
-- internal/dns: the name server of a tenant.
pub mod Render
pub mod Owners
mod Tests
