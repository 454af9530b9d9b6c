-- ===== src/Examples.antt =====
-- The theorems at concrete inputs.
pub mod World
mod Workers
mod Access
mod Accounts
mod Chains
mod Numbers
mod Secrets
mod Texts
mod Mails
mod Streams
mod Stores
mod Clients
