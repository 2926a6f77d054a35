-- ===== src/Extension/Asset/AssetId.antt =====
-- packages/ts-sdk/src/extension/asset/assetId.ts
pub mod Laws
use congenial_giggle.Common.{
  ℕ, Bool, true, false, ◌||◌, List, [], ok, err, ltb, ◌==◌, if◌then◌else◌, length, is_empty,
}
use congenial_giggle.Common.Int.{ℤ, pos, ltb_ℤ}
use congenial_giggle.Extension.Errors.{
  Throws, missing_txid, invalid_txid_format, invalid_txid_length, invalid_asset_id_format,
  missing_asset_id, invalid_asset_id_length, empty_txid, invalid_group_index,
}
use congenial_giggle.Extension.Bytes.{
  Writer, ◌>>◌, to_bytes, write, write_uint16_le, Parser, ◌>>=◌, check, run, read_slice,
  read_uint16_le, at_least, validated, is_zero_bytes,
}
use congenial_giggle.Extension.Asset.Hex.{Text, Hex, with_decoded, hex_of}

abbrev pub tx_hash_size : ℕ
tx_hash_size = 32

abbrev pub asset_id_size : ℕ
asset_id_size = 34

pub record AssetId : Type 0 where
  pub txid : List ℕ
  pub group_index : ℤ

unfoldable pub validate : AssetId → Throws (Unit {0})
validate id =
    if is_zero_bytes id.txid
    then err empty_txid
    else if ltb_ℤ id.group_index (pos 0) || ltb_ℤ (pos 0xffff) id.group_index
    then err (invalid_group_index id.group_index)
    else ok tt

unfoldable pub from_reader : Parser AssetId
from_reader = at_least asset_id_size invalid_asset_id_length do
  txid ← read_slice tx_hash_size
  index ← read_uint16_le
  check (validated validate (record { txid = txid; group_index = index }))

unfoldable pub from_bytes : List ℕ → Throws AssetId
from_bytes buf =
    if is_empty buf
    then err missing_asset_id
    else if length buf == asset_id_size
    then run from_reader buf
    else err (invalid_asset_id_length (length buf))

unfoldable pub serialize_to : AssetId → Writer
serialize_to id = do write id.txid; write_uint16_le id.group_index

unfoldable pub serialize : AssetId → Throws (List ℕ)
serialize id = to_bytes (serialize_to id)

module _ (hex : Hex) where
  unfoldable pub create : Text → ℤ → Throws AssetId
  create txid group_index =
      if is_empty txid
      then err missing_txid
      else with_decoded hex invalid_txid_format txid λ buf.
        if length buf == tx_hash_size
        then validated validate (record { txid = buf; group_index = group_index })
        else err (invalid_txid_length (length buf))

  unfoldable pub from_string : Text → Throws AssetId
  from_string s = with_decoded hex invalid_asset_id_format s from_bytes

  unfoldable pub to_string : AssetId → Throws Text
  to_string id = hex_of hex (serialize id)
