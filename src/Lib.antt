-- ===== src/Lib.antt =====
-- Verification of packages/ts-sdk and packages/boltz-swap, the Ark SDK and its swap library.
--
-- Parts, each with the file that models it and the code it is about; without another path, the code
-- is under packages/ts-sdk/src:
--   Extension/Bytes.antt: extension/asset/utils.ts, the byte writer and reader (Bytes/Cursor.antt has
--     the reader's view and offset; the rest reads from the unread bytes);
--   Extension/Asset/*.antt: the classes of extension/asset, one module to a class, with `validate`,
--     `serializeTo`, `fromReader` and the rest as functions of their names; Metadata/Merkle.antt is
--     the Merkle tree of metadata.ts, AssetGroup/Leaf.antt the leaf group;
--   Extension/Envelope.antt: extension/index.ts and packet.ts, typed packets in an OP_RETURN output;
--     it writes with its own integer encoder and reads with the byte reader;
--   ArkNote.antt: arknote/index.ts, the codec of notes; Scripts/Address.antt: script/address.ts;
--     Scripts/Vhtlc.antt: the check of options in script/vhtlc.ts;
--   Tree/TxTree.antt: tree/txTree.ts, a tree of transactions, with the tree and its map of children as
--     two data types; Tree/Validation.antt: tree/validation.ts, which calls it and the aggregation of
--     keys of musig2/keys.ts (Musig2.antt);
--   Wallet/Validation.antt: wallet/validation.ts, whether the leaves of such a tree and the commitment
--     pay the recipients, with the asset packets of the extension (Validation/Assets.antt has what
--     that ensures); Wallet/Asset.antt: wallet/asset.ts,
--     the selection of coins; Wallet/Ramps.antt: wallet/ramps.ts, on the fees of arkfee (Arkfee.antt);
--   Wallet/VtxoManager.antt: wallet/vtxo-manager.ts, recovery and renewal, which settle as the ramps do;
--     below it Boarding.antt has the settling and the sweep of boarding coins, and Polling.antt
--     the polls that call both, with their timers, as steps of one relation. A poll's body is one
--     step, which the code keeps apart from other polls, but not from a sweep that a client calls;
--   Contracts/Handlers.antt and Handlers/Vhtlc.antt: contracts/handlers/helpers.ts and vhtlc.ts;
--   Utils/SyncCursors.antt: utils/syncCursors.ts, with the lock of the wallet state as a step relation
--     in SyncCursors/Lock.antt; Utils/TxSizeEstimator.antt: utils/txSizeEstimator.ts;
--     Utils/TransactionHistory.antt: utils/transactionHistory.ts;
--   Boltz/Status.antt and Boltz/Swap.antt: the states of packages/boltz-swap/src/boltz-swap-provider.ts
--     and the tests on swaps; Boltz/SwapHelpers.antt: packages/boltz-swap/src/utils/swap-helpers.ts;
--   Boltz/SwapManager.antt: packages/boltz-swap/src/swap-manager.ts, its state; Connection.antt below
--     it has the socket and the timers, Updates.antt what a new status sets off, Monitoring.antt what
--     clients call, and Steps.antt all of these as steps of one relation. A swap is a reference to a
--     shared object, and a call that awaits a save or an action stands in a list until it ends.
-- Common.antt and its children hold the shared names and lemmas, Examples the runs on concrete data.
--
-- A byte array is the list of its bytes, a string the list of its code units, a bigint or a number
-- with an integer value an ℤ (or an ℕ where the code keeps it from being negative), and what throws
-- a result with the exception. `setUint16`, `setUint32`, `& 0xff` and `>>>` keep their wrap-around.
--
-- Fuel: `var_uint_loop` has one round more than its value and `encode_loop` five, since a round takes
-- seven bits; the loop over the packets of a payload has a round for every byte, since a packet takes
-- a byte at least.
--
-- Parameters: `hex`, `base58` and bech32m of @scure/base, the codec of scripts and the transactions of
-- @scure/btc-signer, musig2, bip68, the tagged hash and the comparison of bytes behind the Merkle tree,
-- `sha256`, the decoder of invoices, CEL, floating-point numbers and calendar years. Each comes with the laws that a
-- result needs, and a file of Examples has an instance. The clock, the socket and the server are the
-- steps of the environment.
--
-- Not modelled: network clients, databases and workers (input and output); signatures and taproot
-- (packages); the wallet's calls of its providers, the contract manager and watcher, the building of
-- a tree from its chunks, and the registration of listeners.
pub mod Common
pub mod Extension
pub mod Utils
pub mod ArkNote
pub mod Boltz
pub mod Musig2
pub mod Arkfee
pub mod Tree
pub mod Wallet
pub mod Scripts
pub mod Contracts
pub mod Examples
