-- ===== src/Extension/Asset/Metadata.antt =====
-- packages/ts-sdk/src/extension/asset/metadata.ts: Metadata and MetadataList.
pub mod Laws
pub mod Merkle
pub mod Tree
use congenial_giggle.Common.{ℕ, List, ltb, ◌^◌, if◌then◌else◌, length, is_empty, ok, err}
use congenial_giggle.Common.Int.{pos}
use congenial_giggle.Extension.Errors.{
  Throws, invalid_metadata_format, missing_metadata, missing_key, missing_value,
  invalid_metadata_length, invalid_metadata_list_format, missing_metadata_list,
  invalid_array_length,
}
use congenial_giggle.Extension.Bytes.{
  Writer, ◌>>◌, write_each, to_bytes, write_var_uint, write_var_slice, Parser, ◌>>=◌, throw,
  catch_as, check, run, read_var_uint, read_var_slice, read_times, validated,
}
use congenial_giggle.Extension.Asset.Hex.{Text, Hex, with_decoded, hex_of}

pub record Metadata : Type 0 where
  pub key : List ℕ
  pub value : List ℕ

unfoldable pub validate : Metadata → Throws (Unit {0})
validate md =
    if is_empty md.key
    then err missing_key
    else if is_empty md.value
    then err missing_value
    else ok tt

unfoldable pub create : List ℕ → List ℕ → Throws Metadata
create key value = validated validate (record { key = key; value = value })

unfoldable pub from_reader : Parser Metadata
from_reader = do
  key ← catch_as invalid_metadata_length read_var_slice
  value ← catch_as invalid_metadata_length read_var_slice
  check (validated validate (record { key = key; value = value }))

unfoldable pub from_bytes : List ℕ → Throws Metadata
from_bytes buf = if is_empty buf then err missing_metadata else run from_reader buf

unfoldable pub serialize_to : Metadata → Writer
serialize_to md = do write_var_slice md.key; write_var_slice md.value

unfoldable pub serialize : Metadata → Throws (List ℕ)
serialize md = to_bytes (serialize_to md)

-- `Array.from({ length: count }, …)` throws a RangeError where an array cannot be that long.
unfoldable pub list_from_reader : Parser (List Metadata)
list_from_reader = do
  count ← read_var_uint
  if ltb count (2 ^ 32) then read_times from_reader count else throw invalid_array_length

unfoldable pub list_from_bytes : List ℕ → Throws (List Metadata)
list_from_bytes buf = if is_empty buf then err missing_metadata_list else run list_from_reader buf

unfoldable pub list_serialize_to : List Metadata → Writer
list_serialize_to items = do write_var_uint (pos (length items)); write_each serialize_to items

unfoldable pub list_serialize : List Metadata → Throws (List ℕ)
list_serialize items = to_bytes (list_serialize_to items)

module _ (hex : Hex) where
  unfoldable pub from_string : Text → Throws Metadata
  from_string s = with_decoded hex invalid_metadata_format s from_bytes

  unfoldable pub to_string : Metadata → Throws Text
  to_string md = hex_of hex (serialize md)

  unfoldable pub list_from_string : Text → Throws (List Metadata)
  list_from_string s = with_decoded hex invalid_metadata_list_format s list_from_bytes
