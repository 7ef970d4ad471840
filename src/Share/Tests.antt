-- ===== src/Share/Tests.antt =====
-- The theorems on Tenant Storage Shares, at three tenants and one share.
mod Sample
mod Requests
mod Withdrawals
mod Grants
