-- ===== src/Extension/Errors.antt =====
-- The exceptions of packages/ts-sdk/src/extension, one constructor to a message, with the values
-- that the message prints.
use congenial_giggle.Common.{ℕ, List, Result}
use congenial_giggle.Common.Int.{ℤ}

pub data Error : Type 0 where
  -- utils.ts
  unexpected_end : Error
  negative_var_uint : Error
  -- assetId.ts
  missing_txid invalid_txid_format : Error
  invalid_txid_length : ℕ → Error
  invalid_asset_id_format missing_asset_id : Error
  invalid_asset_id_length : ℕ → Error
  empty_txid : Error
  invalid_group_index : ℤ → Error
  -- assetRef.ts
  invalid_asset_ref_format missing_asset_ref invalid_asset_ref_length : Error
  asset_ref_unspecified : Error
  asset_ref_unknown : ℕ → Error
  -- assetInput.ts
  missing_intent_txid invalid_intent_txid_format invalid_intent_txid_length : Error
  invalid_input_format input_unspecified : Error
  input_unknown : ℕ → Error
  missing_inputs invalid_inputs_format mixed_inputs : Error
  duplicated_vin : ℤ → Error
  -- assetOutput.ts
  invalid_output_format missing_output vout_out_of_range amount_not_positive : Error
  invalid_vout_length output_unspecified output_unknown : Error
  missing_outputs invalid_outputs_format : Error
  duplicated_vout : ℤ → Error
  -- metadata.ts
  invalid_metadata_format missing_metadata missing_key missing_value : Error
  invalid_metadata_length invalid_metadata_list_format missing_metadata_list : Error
  invalid_array_length : Error
  -- assetGroup.ts
  invalid_group_format missing_group empty_group issuance_with_inputs : Error
  control_without_issuance : Error
  -- packet.ts
  missing_packet_data invalid_packet_format missing_assets : Error
  duplicate_asset : List ℕ → Error
  control_out_of_range : ℤ → ℕ → Error
  unknown_bytes_left : ℕ → Error
  -- index.ts
  missing_packets : Error
  duplicate_packet_type : ℕ → Error
  missing_op_return expected_op_return missing_magic expected_magic : Error
  extension_not_found : Error

-- A computation that returns a value or throws.
abbrev pub Throws {ℓ} : Type ℓ → Type ℓ
Throws A = Result Error A
