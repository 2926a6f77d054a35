-- ===== src/Extension/Asset/AssetGroup.antt =====
-- packages/ts-sdk/src/extension/asset/assetGroup.ts
pub mod Laws
pub mod Leaf
use congenial_giggle.Common.{
  is_some, ℕ, Bool, true, false, ◌&&◌, List, [], ◌∷◌, Option, none, some, ◌==◌, if◌then◌else◌,
  length, is_empty, ok, err, map, not, bit_and, bit_or,
}
use congenial_giggle.Common.Int.{ℤ, pos, ltb_ℤ, ◌+ℤ◌}
use congenial_giggle.Extension.Errors.{
  Throws, invalid_group_format, missing_group, empty_group, issuance_with_inputs,
  control_without_issuance,
}
use congenial_giggle.Extension.Bytes.{
  Writer, ◌>>◌, skip, write_each, to_bytes, write_byte, write_var_uint, Parser, ◌>>=◌, return,
  check, run, read_byte, validated,
}
use congenial_giggle.Extension.Asset.Hex.{Text, Hex, with_decoded, hex_of}
use congenial_giggle.Extension.Asset.AssetId
use congenial_giggle.Extension.Asset.AssetId.{AssetId}
use congenial_giggle.Extension.Asset.AssetRef
use congenial_giggle.Extension.Asset.AssetRef.{AssetRef}
use congenial_giggle.Extension.Asset.AssetInput
use congenial_giggle.Extension.Asset.AssetInput.{AssetInput, local, intent}
use congenial_giggle.Extension.Asset.AssetInputs
use congenial_giggle.Extension.Asset.AssetOutput
use congenial_giggle.Extension.Asset.AssetOutput.{AssetOutput}
use congenial_giggle.Extension.Asset.AssetOutputs
use congenial_giggle.Extension.Asset.Metadata
use congenial_giggle.Extension.Asset.Metadata.{Metadata}

abbrev pub mask_asset_id : ℕ
mask_asset_id = 0x01

abbrev pub mask_control_asset : ℕ
mask_control_asset = 0x02

abbrev pub mask_metadata : ℕ
mask_metadata = 0x04

-- `null` is `none`.
pub record AssetGroup : Type 0 where
  pub asset_id : Option AssetId
  pub control_asset : Option AssetRef
  pub inputs : List AssetInput
  pub outputs : List AssetOutput
  pub metadata : List Metadata

unfoldable pub is_issuance : AssetGroup → Bool
is_issuance group = not (is_some group.asset_id)

-- `reduce((s, { amount }) => s + amount, 0n)`
unfoldable pub sum_from : ℤ → List ℤ → ℤ
sum_from s [] = s
sum_from s (amount ∷ amounts) = sum_from (s +ℤ amount) amounts

-- Only a Local input counts.
unfoldable pub local_amount : AssetInput → ℤ
local_amount (local v a) = a
local_amount (intent txid v a) = pos 0

unfoldable pub is_reissuance : AssetGroup → Bool
is_reissuance group =
    let sum_outputs = sum_from (pos 0) (map (λ o. o.amount) group.outputs) in
    let sum_inputs = sum_from (pos 0) (map local_amount group.inputs) in
    not (is_issuance group) && ltb_ℤ sum_inputs sum_outputs

unfoldable pub validate : AssetGroup → Throws (Unit {0})
validate group =
    if is_empty group.inputs && is_empty group.outputs
    then err empty_group
    else if is_issuance group
    then if is_empty group.inputs then ok tt else err issuance_with_inputs
    else if is_some group.control_asset
    then err control_without_issuance
    else ok tt

unfoldable pub create :
    Option AssetId
    → Option AssetRef
    → List AssetInput
    → List AssetOutput
    → List Metadata
    → Throws AssetGroup
create asset_id control_asset inputs outputs metadata = validated validate (record {
  asset_id = asset_id;
  control_asset = control_asset;
  inputs = inputs;
  outputs = outputs;
  metadata = metadata;
})

-- `if (presence & MASK) { x = X.fromReader(reader) }`, with x null before.
unfoldable pub read_if {ℓ} : {A : Type ℓ} → Bool → Parser A → Parser (Option A)
read_if true p = do a ← p; return (some a)
read_if false p = return none

unfoldable pub read_metadata : Bool → Parser (List Metadata)
read_metadata true = Metadata.list_from_reader
read_metadata false = return []

unfoldable pub has_mask : ℕ → ℕ → Bool
has_mask presence mask = not (bit_and presence mask == 0)

unfoldable pub from_reader : Parser AssetGroup
from_reader = do
  presence ← read_byte
  asset_id ← read_if (has_mask presence mask_asset_id) AssetId.from_reader
  control_asset ← read_if (has_mask presence mask_control_asset) AssetRef.from_reader
  metadata ← read_metadata (has_mask presence mask_metadata)
  inputs ← AssetInputs.from_reader
  outputs ← AssetOutputs.from_reader
  check (create asset_id control_asset inputs outputs metadata)

unfoldable pub from_bytes : List ℕ → Throws AssetGroup
from_bytes buf = if is_empty buf then err missing_group else run from_reader buf

-- `if (x) { presence |= MASK }`
unfoldable pub set_mask : Bool → ℕ → ℕ → ℕ
set_mask x mask presence = if x then bit_or presence mask else presence

unfoldable pub presence_of : AssetGroup → ℕ
presence_of group = set_mask (not (is_empty group.metadata)) mask_metadata (
    set_mask (is_some group.control_asset) mask_control_asset
      (set_mask (is_some group.asset_id) mask_asset_id 0))

-- `x!.serializeTo(writer)` behind a test that x is not null.
unfoldable pub write_option {ℓ} : {A : Type ℓ} → (A → Writer) → Option A → Writer
write_option w none = skip
write_option w (some a) = w a

unfoldable pub write_metadata : List Metadata → Writer
write_metadata [] = skip
write_metadata (md ∷ metadata) = Metadata.list_serialize_to (md ∷ metadata)

unfoldable pub serialize_to : AssetGroup → Writer
serialize_to group = do
  write_byte (presence_of group)
  write_option AssetId.serialize_to group.asset_id
  write_option AssetRef.serialize_to group.control_asset
  write_metadata group.metadata
  write_var_uint (pos (length group.inputs))
  write_each AssetInput.serialize_to group.inputs
  write_var_uint (pos (length group.outputs))
  write_each AssetOutput.serialize_to group.outputs

unfoldable pub serialize : AssetGroup → Throws (List ℕ)
serialize group = to_bytes (AssetOutputs.if_valid (validate group) (serialize_to group))

-- The group with other inputs.
abbrev pub with_inputs : AssetGroup → List AssetInput → AssetGroup
with_inputs group inputs = record group { inputs = inputs }

module _ (hex : Hex) where
  unfoldable pub from_string : Text → Throws AssetGroup
  from_string s = with_decoded hex invalid_group_format s from_bytes

  unfoldable pub to_string : AssetGroup → Throws Text
  to_string group = hex_of hex (serialize group)

  unfoldable pub to_batch_leaf_asset_group : List ℕ → AssetGroup → Throws AssetGroup
  to_batch_leaf_asset_group intent_txid group =
      elim (AssetInput.create_intent hex (hex.encode intent_txid) (pos 0) (pos 0)) [
        | ok leaf_input ↦ ok (with_inputs group (leaf_input ∷ []))
        | err e ↦ err e
      ]
