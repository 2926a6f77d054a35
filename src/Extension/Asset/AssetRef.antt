-- ===== src/Extension/Asset/AssetRef.antt =====
-- packages/ts-sdk/src/extension/asset/assetRef.ts
pub mod Laws
use congenial_giggle.Common.{ℕ, List, ltb, ◌==◌, if◌then◌else◌, is_empty, err}
use congenial_giggle.Common.Int.{ℤ}
use congenial_giggle.Extension.Errors.{
  Throws, invalid_asset_ref_format, missing_asset_ref, invalid_asset_ref_length,
  asset_ref_unspecified, asset_ref_unknown,
}
use congenial_giggle.Extension.Bytes.{
  Writer, ◌>>◌, to_bytes, write_byte, write_uint16_le, Parser, ◌>>=◌, return, throw, run, read_byte,
  read_uint16_le, at_least,
}
use congenial_giggle.Extension.Asset.Hex.{Text, Hex, with_decoded, hex_of}
use congenial_giggle.Extension.Asset.AssetId
use congenial_giggle.Extension.Asset.AssetId.{AssetId}

-- AssetRefType: 0 is Unspecified, 1 is ByID and 2 is ByGroup.
pub data AssetRef : Type 0 where
  by_id : AssetId → AssetRef
  by_group : ℤ → AssetRef

abbrev pub ref_type : AssetRef → ℕ
ref_type (by_id id) = 1
ref_type (by_group group_index) = 2

unfoldable pub from_id : AssetId → AssetRef
from_id id = by_id id

unfoldable pub from_group_index : ℤ → AssetRef
from_group_index group_index = by_group group_index

-- The cases of `switch (type)`.
unfoldable pub read_id : Parser AssetRef
read_id = do id ← AssetId.from_reader; return (by_id id)

unfoldable pub read_group : Parser AssetRef
read_group =
    at_least 2 (λ _. invalid_asset_ref_length)
      do group_index ← read_uint16_le; return (by_group group_index)

unfoldable pub read_ref : ℕ → Parser AssetRef
read_ref type =
    if type == 1
    then read_id
    else if type == 2
    then read_group
    else if type == 0
    then throw asset_ref_unspecified
    else throw (asset_ref_unknown type)

unfoldable pub from_reader : Parser AssetRef
from_reader = do type ← read_byte; read_ref type

unfoldable pub from_bytes : List ℕ → Throws AssetRef
from_bytes buf = if is_empty buf then err missing_asset_ref else run from_reader buf

unfoldable pub write_ref : AssetRef → Writer
write_ref (by_id id) = AssetId.serialize_to id
write_ref (by_group group_index) = write_uint16_le group_index

unfoldable pub serialize_to : AssetRef → Writer
serialize_to ref = do write_byte (ref_type ref); write_ref ref

unfoldable pub serialize : AssetRef → Throws (List ℕ)
serialize ref = to_bytes (serialize_to ref)

module _ (hex : Hex) where
  unfoldable pub from_string : Text → Throws AssetRef
  from_string s = with_decoded hex invalid_asset_ref_format s from_bytes

  unfoldable pub to_string : AssetRef → Throws Text
  to_string ref = hex_of hex (serialize ref)
