-- ===== src/Tree.antt =====
-- packages/ts-sdk/src/tree: the trees of transactions of a batch.
pub mod TxTree
pub mod Validation
