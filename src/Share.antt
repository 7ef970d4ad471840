-- ===== src/Share.antt =====
-- internal/share: Tenant Storage Shares, from the offer to the cleanup when a tenant goes.
pub mod Types
pub mod Paths
pub mod Names
pub mod Lists
pub mod Create
pub mod Answer
pub mod Withdraw
pub mod Views
pub mod Cleanup
pub mod Below
pub mod Distinct
pub mod Outcome
pub mod Ids
pub mod Invariant
pub mod Fresh
pub mod History
pub mod Gone
pub mod Granted
pub mod Copies
pub mod Answered
pub mod Withheld
pub mod Stranded
pub mod Seen
pub mod Offers
mod Tests
