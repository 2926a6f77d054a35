-- ===== src/Contracts.antt =====
-- packages/ts-sdk/src/contracts: which leaf of a contract's script a wallet can spend with.
pub mod Handlers
