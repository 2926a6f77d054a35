-- ===== src/Utils.antt =====
-- packages/ts-sdk/src/utils: helpers of the wallet, one module to a file.
pub mod TxSizeEstimator
pub mod SyncCursors
pub mod TransactionHistory
