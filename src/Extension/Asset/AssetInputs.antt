-- ===== src/Extension/Asset/AssetInputs.antt =====
-- packages/ts-sdk/src/extension/asset/assetInput.ts: AssetInputs, the list of a group's inputs.
pub mod Laws
use congenial_giggle.Common.{
  ℕ, Bool, ◌&&◌, List, [], ◌∷◌, ◌==◌, if◌then◌else◌, length, is_empty, any, ok, err, not,
}
use congenial_giggle.Common.Int.{ℤ, pos, eq_ℤ}
use congenial_giggle.Extension.Errors.{
  Throws, missing_inputs, invalid_inputs_format, mixed_inputs, duplicated_vin,
}
use congenial_giggle.Extension.Bytes.{
  Writer, ◌>>◌, write_each, to_bytes, write_var_uint, Parser, ◌>>=◌, check, run, read_var_uint,
  read_times, validated,
}
use congenial_giggle.Extension.Asset.Hex.{Text, Hex, with_decoded, hex_of}
use congenial_giggle.Extension.Asset.AssetInput
use congenial_giggle.Extension.Asset.AssetInput.{AssetInput, local, intent}

-- What the loop of `validate` carries: the set of vins seen and the type of the list.
pub record Seen : Type 0 where
  pub vins : List ℤ
  pub list_type : ℕ

-- The last part of a round: a Local input's vin must be new.
unfoldable pub add_vin : Seen → AssetInput → Throws Seen
add_vin seen (local vin amount) =
    if any (eq_ℤ vin) seen.vins
    then err (duplicated_vin vin)
    else ok (record seen { vins = vin ∷ seen.vins })
add_vin seen (intent txid vin amount) = ok seen

unfoldable pub check_type : Seen → AssetInput → Throws Seen
check_type seen input =
    if seen.list_type == 0
    then add_vin (record seen { list_type = AssetInput.input_type input }) input
    else if seen.list_type == AssetInput.input_type input
    then add_vin seen input
    else err mixed_inputs

unfoldable pub validate_round : Seen → AssetInput → Throws Seen
validate_round seen input = elim (AssetInput.validate input) [
  | ok _ ↦ check_type seen input
  | err e ↦ err e
]

unfoldable pub validate_from : Seen → List AssetInput → Throws (Unit {0})
validate_from seen [] = ok tt
validate_from seen (input ∷ inputs) = elim (validate_round seen input) [
  | ok s ↦ validate_from s inputs
  | err e ↦ err e
]

unfoldable pub validate : List AssetInput → Throws (Unit {0})
validate inputs = validate_from (record { vins = []; list_type = 0 }) inputs

unfoldable pub create : List AssetInput → Throws (List AssetInput)
create inputs = validated validate inputs

unfoldable pub from_reader : Parser (List AssetInput)
from_reader = do
  count ← read_var_uint
  inputs ← read_times AssetInput.from_reader count
  check (create inputs)

unfoldable pub serialize_to : List AssetInput → Writer
serialize_to inputs = do
  write_var_uint (pos (length inputs))
  write_each AssetInput.serialize_to inputs

unfoldable pub serialize : List AssetInput → Throws (List ℕ)
serialize inputs = to_bytes (serialize_to inputs)

module _ (hex : Hex) where
  unfoldable pub from_string : Text → Throws (List AssetInput)
  from_string s =
      if is_empty s
      then err missing_inputs
      else with_decoded hex invalid_inputs_format s (run from_reader)

  unfoldable pub to_string : List AssetInput → Throws Text
  to_string inputs = hex_of hex (serialize inputs)
