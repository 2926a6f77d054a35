-- ===== src/Extension/Asset/AssetOutput.antt =====
-- packages/ts-sdk/src/extension/asset/assetOutput.ts: AssetOutput.
pub mod Laws
use congenial_giggle.Common.{ℕ, ◌||◌, List, [], ltb, ◌==◌, if◌then◌else◌, is_empty, ok, err}
use congenial_giggle.Common.Int.{ℤ, pos, ltb_ℤ}
use congenial_giggle.Extension.Errors.{
  Throws, invalid_output_format, missing_output, vout_out_of_range, amount_not_positive,
  invalid_vout_length, output_unspecified, output_unknown,
}
use congenial_giggle.Extension.Bytes.{
  Writer, ◌>>◌, to_bytes, write_byte, write_uint16_le, write_var_uint, Parser, ◌>>=◌, return, throw,
  catch_as, check, run, read_byte, read_uint16_le, read_amount, at_least, validated,
}
use congenial_giggle.Extension.Asset.Hex.{Text, Hex, with_decoded, hex_of}

abbrev pub type_local : ℕ
type_local = 1

pub record AssetOutput : Type 0 where
  pub vout : ℤ
  pub amount : ℤ

unfoldable pub validate : AssetOutput → Throws (Unit {0})
validate output =
    if ltb_ℤ output.vout (pos 0) || ltb_ℤ (pos 0xffff) output.vout
    then err vout_out_of_range
    else if ltb_ℤ (pos 0) output.amount
    then ok tt
    else err amount_not_positive

unfoldable pub create : ℤ → ℤ → Throws AssetOutput
create vout amount = validated validate (record { vout = vout; amount = amount })

-- What follows a type byte that is `type_local`.
unfoldable pub read_local : Parser AssetOutput
read_local = do
  vout ← catch_as invalid_vout_length read_uint16_le
  amount ← read_amount
  return (record { vout = vout; amount = amount })

unfoldable pub read_output : ℕ → Parser AssetOutput
read_output type =
    if type == type_local
    then read_local
    else if type == 0
    then throw output_unspecified
    else throw output_unknown

unfoldable pub from_reader : Parser AssetOutput
from_reader = at_least 2 (λ _. invalid_vout_length) do type ← read_byte; read_output type

unfoldable pub read_valid : Parser AssetOutput
read_valid = do output ← from_reader; check (validated validate output)

unfoldable pub from_bytes : List ℕ → Throws AssetOutput
from_bytes buf = if is_empty buf then err missing_output else run read_valid buf

unfoldable pub serialize_to : AssetOutput → Writer
serialize_to output = do write_byte 0x01; write_uint16_le output.vout; write_var_uint output.amount

unfoldable pub serialize : AssetOutput → Throws (List ℕ)
serialize output = to_bytes (serialize_to output)

module _ (hex : Hex) where
  unfoldable pub from_string : Text → Throws AssetOutput
  from_string s = with_decoded hex invalid_output_format s from_bytes

  unfoldable pub to_string : AssetOutput → Throws Text
  to_string output = hex_of hex (serialize output)
