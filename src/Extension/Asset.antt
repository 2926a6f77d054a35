-- ===== src/Extension/Asset.antt =====
-- packages/ts-sdk/src/extension/asset: the asset packet and its parts, one module to a class.
pub mod Hex
pub mod AssetId
pub mod AssetRef
pub mod Metadata
pub mod AssetInput
pub mod AssetInputs
pub mod AssetOutput
pub mod AssetOutputs
pub mod AssetGroup
pub mod Packet
