-- ===== src/Chain.antt =====
-- backend/src/chain: the vault's contract events, how they are collected and decoded.
pub mod Reader
pub mod Store
pub mod Poller
pub mod Once
pub mod Collect
pub mod Decode
mod Tests
