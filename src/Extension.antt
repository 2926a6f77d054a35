-- ===== src/Extension.antt =====
-- packages/ts-sdk/src/extension: data packets in an OP_RETURN output.
pub mod Errors
pub mod Bytes
pub mod Asset
pub mod Script
pub mod Envelope
