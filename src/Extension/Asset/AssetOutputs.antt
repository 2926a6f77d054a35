-- ===== src/Extension/Asset/AssetOutputs.antt =====
-- packages/ts-sdk/src/extension/asset/assetOutput.ts: AssetOutputs, the list of a group's outputs.
pub mod Laws
use congenial_giggle.Common.{ℕ, List, [], ◌∷◌, ◌==◌, if◌then◌else◌, length, is_empty, any, ok, err}
use congenial_giggle.Common.Int.{ℤ, pos, eq_ℤ}
use congenial_giggle.Extension.Errors.{
  Error, Throws, missing_outputs, invalid_outputs_format, duplicated_vout,
}
use congenial_giggle.Extension.Bytes.{
  Writer, ◌>>◌, write_each, to_bytes, write_var_uint, Parser, ◌>>=◌, return, check, run,
  read_var_uint, read_times, validated,
}
use congenial_giggle.Extension.Asset.Hex.{Text, Hex, with_decoded, hex_of}
use congenial_giggle.Extension.Asset.AssetOutput
use congenial_giggle.Extension.Asset.AssetOutput.{AssetOutput}

unfoldable pub validate_round : List ℤ → AssetOutput → Throws (List ℤ)
validate_round seen output = elim (AssetOutput.validate output) [
  | ok _ ↦
      if any (eq_ℤ output.vout) seen
      then err (duplicated_vout output.vout)
      else ok (output.vout ∷ seen)
  | err e ↦ err e
]

unfoldable pub validate_from : List ℤ → List AssetOutput → Throws (Unit {0})
validate_from seen [] = ok tt
validate_from seen (output ∷ outputs) = elim (validate_round seen output) [
  | ok s ↦ validate_from s outputs
  | err e ↦ err e
]

unfoldable pub validate : List AssetOutput → Throws (Unit {0})
validate outputs = validate_from [] outputs

unfoldable pub create : List AssetOutput → Throws (List AssetOutput)
create outputs = validated validate outputs

unfoldable pub read_outputs : ℕ → Parser (List AssetOutput)
read_outputs count = do
  outputs ← read_times AssetOutput.from_reader count
  check (validated validate outputs)

unfoldable pub from_reader : Parser (List AssetOutput)
from_reader = do count ← read_var_uint; if count == 0 then return [] else read_outputs count

-- `this.validate()` before the first write.
unfoldable pub if_valid : Throws (Unit {0}) → Writer → Writer
if_valid r w buffer = elim r [ ok _ ↦ w buffer | err e ↦ err e ]

unfoldable pub serialize_to : List AssetOutput → Writer
serialize_to outputs =
    if_valid (validate outputs)
      (do write_var_uint (pos (length outputs)); write_each AssetOutput.serialize_to outputs)

unfoldable pub serialize : List AssetOutput → Throws (List ℕ)
serialize outputs = to_bytes (serialize_to outputs)

module _ (hex : Hex) where
  unfoldable pub from_string : Text → Throws (List AssetOutput)
  from_string s =
      if is_empty s
      then err missing_outputs
      else with_decoded hex invalid_outputs_format s (run from_reader)

  unfoldable pub to_string : List AssetOutput → Throws Text
  to_string outputs = hex_of hex (serialize outputs)
