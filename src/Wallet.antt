-- ===== src/Wallet.antt =====
-- packages/ts-sdk/src/wallet: the choice of coins, ramps, and the checks of a batch.
pub mod Asset
pub mod Ramps
pub mod Validation
pub mod VtxoManager
