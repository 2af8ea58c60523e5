-- ===== src/Vault.antt =====
-- packages/vault-client/src/mock.ts: the in-memory vault that stands in for the contract.
pub mod State
pub mod Operations
pub mod Submit
pub mod Arithmetic
pub mod Outcome
pub mod Balances
pub mod Solvency
pub mod Reachable
pub mod Price
pub mod RoundTrip
pub mod Guards
pub mod Exits
mod Tests
pub mod Commit
pub mod Imperative
