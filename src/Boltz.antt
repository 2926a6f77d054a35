-- ===== src/Boltz.antt =====
-- packages/boltz-swap/src: swaps between Ark, Lightning and the chain.
pub mod Status
pub mod Swap
pub mod SwapHelpers
pub mod SwapManager
