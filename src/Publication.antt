-- ===== src/Publication.antt =====
-- internal/authapp: publications of machines over tunnels, and the cooldown of their names.
pub mod Defs
pub mod Laws
mod Tests
