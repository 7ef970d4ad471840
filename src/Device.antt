-- ===== src/Device.antt =====
-- internal/authapp/device.go: the login of a device, from the code that it shows to the answer of its
-- polls.
pub mod Logins
pub mod Moves
pub mod Runs
pub mod Keyed
pub mod Settled
pub mod Polls
pub mod Tokens
mod Tests
