-- ===== src/Extension/Asset/Packet.antt =====
-- packages/ts-sdk/src/extension/asset/packet.ts. A packet is the list of its asset groups.
pub mod Laws
use congenial_giggle.Common.{
  ℕ, ◌-◌, Bool, true, false, ◌&&◌, List, [], ◌∷◌, Option, none, some, ltb, leb, ◌==◌, if◌then◌else◌,
  length, is_empty, any, all, ok, err,
}
use congenial_giggle.Common.Int.{ℤ, pos, ltb_ℤ}
use congenial_giggle.Extension.Errors.{
  Error, Throws, missing_packet_data, invalid_packet_format, missing_assets, duplicate_asset,
  control_out_of_range, unknown_bytes_left,
}
use congenial_giggle.Extension.Bytes.{
  Writer, ◌>>◌, write_each, to_bytes, write_var_uint, Parser, ◌>>=◌, return, throw, check, run,
  read_var_uint, read_times, remaining, validated,
}
use congenial_giggle.Extension.Asset.Hex.{Text, Hex, with_decoded, hex_of}
use congenial_giggle.Extension.Asset.AssetId
use congenial_giggle.Extension.Asset.AssetId.{AssetId}
use congenial_giggle.Extension.Asset.AssetRef.{AssetRef, by_id, by_group}
use congenial_giggle.Extension.Asset.AssetGroup
use congenial_giggle.Extension.Asset.AssetGroup.{AssetGroup}

abbrev pub Packet : Type 0
Packet = List AssetGroup

abbrev pub packet_type : ℕ
packet_type = 0

unfoldable pub same_text : Text → Text → Bool
same_text [] [] = true
same_text (a ∷ s) (b ∷ t) = a == b && same_text s t
same_text _ _ = false

-- The check that a control asset given by its group lies in the packet.
unfoldable pub check_control : ℕ → Option AssetRef → Throws (Unit {0})
check_control count (some (by_group group_index)) =
    if ltb_ℤ group_index (pos count) then ok tt else err (control_out_of_range group_index count)
check_control count _ = ok tt

unfoldable pub serialize : Packet → Throws (List ℕ)
serialize groups =
    if is_empty groups
    then ok []
    else to_bytes
        (do write_var_uint (pos (length groups)); write_each AssetGroup.serialize_to groups)

module _ (hex : Hex) where
  -- The set of asset ids seen, with one more. A key is the id in hexadecimal.
  unfoldable pub add_key : List Text → Option AssetId → Throws (List Text)
  add_key seen none = ok seen
  add_key seen (some id) = elim (AssetId.to_string hex id) [
    | ok key ↦ if any (same_text key) seen then err (duplicate_asset key) else ok (key ∷ seen)
    | err e ↦ err e
  ]

  unfoldable pub validate_from : ℕ → List Text → List AssetGroup → Throws (Unit {0})
  validate_from count seen [] = ok tt
  validate_from count seen (group ∷ groups) = elim (add_key seen group.asset_id) [
    | ok seen' ↦ elim (check_control count group.control_asset) [
      | ok _ ↦ validate_from count seen' groups
      | err e ↦ err e
    ]
    | err e ↦ err e
  ]

  unfoldable pub validate : Packet → Throws (Unit {0})
  validate groups =
      if is_empty groups then err missing_assets else validate_from (length groups) [] groups

  unfoldable pub create : List AssetGroup → Throws Packet
  create groups = validated validate groups

  -- `if (reader.remaining() > 0) throw`, and the check of the packet.
  unfoldable pub finish : List AssetGroup → ℕ → Parser Packet
  finish groups left = if ltb 0 left then throw (unknown_bytes_left left) else check (create groups)

  unfoldable pub from_reader : Parser Packet
  from_reader = do
    count ← read_var_uint
    groups ← read_times AssetGroup.from_reader count
    left ← remaining
    finish groups left

  unfoldable pub from_bytes : List ℕ → Throws Packet
  from_bytes buf = run from_reader buf

  unfoldable pub from_string : Text → Throws Packet
  from_string s =
      if is_empty s
      then err missing_packet_data
      else with_decoded hex invalid_packet_format s from_bytes

  unfoldable pub to_string : Packet → Throws Text
  to_string groups = hex_of hex (serialize groups)

  -- `groups.map(…)`: the first exception ends it.
  unfoldable pub leaf_tx_packet : List ℕ → Packet → Throws Packet
  leaf_tx_packet intent_txid [] = ok []
  leaf_tx_packet intent_txid (group ∷ groups) =
      elim (AssetGroup.to_batch_leaf_asset_group hex intent_txid group) [
        | ok leaf ↦ elim (leaf_tx_packet intent_txid groups) [
          | ok leaves ↦ ok (leaf ∷ leaves)
          | err e ↦ err e
        ]
        | err e ↦ err e
      ]
