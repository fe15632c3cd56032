-- ===== src/Keystore.antt =====
-- The off-chain secret stores (write-path-integration/keystore).
pub mod Interface
pub mod Memory
pub mod Decimal
pub mod File
pub mod Handoff
