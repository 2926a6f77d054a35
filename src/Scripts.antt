-- ===== src/Scripts.antt =====
-- packages/ts-sdk/src/script: scripts and addresses.
pub mod Address
pub mod Vhtlc
