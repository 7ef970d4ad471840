-- ===== src/Registry/Tests.antt =====
-- Concrete runs of the registry, and its theorems on them.
mod Sample
mod Safety
mod Runs
mod Discretion
