-- ===== src/Extension/Asset/AssetInput.antt =====
-- packages/ts-sdk/src/extension/asset/assetInput.ts: AssetInput.
pub mod Laws
use congenial_giggle.Common.{ℕ, List, [], ltb, ◌==◌, if◌then◌else◌, length, is_empty, ok, err}
use congenial_giggle.Common.Int.{ℤ}
use congenial_giggle.Extension.Errors.{
  Throws, missing_intent_txid, invalid_intent_txid_format, invalid_intent_txid_length,
  invalid_input_format, input_unspecified, input_unknown,
}
use congenial_giggle.Extension.Bytes.{
  Writer, ◌>>◌, skip, to_bytes, write, write_byte, write_uint16_le, write_var_uint, Parser, ◌>>=◌,
  return, throw, check, run, read_byte, read_slice, read_uint16_le, read_amount, at_least,
  validated, is_zero_bytes,
}
use congenial_giggle.Extension.Asset.Hex.{Text, Hex, with_decoded, hex_of}
use congenial_giggle.Extension.Asset.AssetId.{tx_hash_size}

-- `local` has a vin and an amount; `intent` has a transaction id before them.
pub data AssetInput : Type 0 where
  local : ℤ → ℤ → AssetInput
  intent : List ℕ → ℤ → ℤ → AssetInput

-- AssetInputType: 0 is Unspecified, 1 is Local and 2 is Intent.
abbrev pub input_type : AssetInput → ℕ
input_type (local v a) = 1
input_type (intent txid v a) = 2

unfoldable pub vin : AssetInput → ℤ
vin (local v a) = v
vin (intent txid v a) = v

unfoldable pub amount : AssetInput → ℤ
amount (local v a) = a
amount (intent txid v a) = a

unfoldable pub validate : AssetInput → Throws (Unit {0})
validate (local v a) = ok tt
validate (intent txid v a) = if is_zero_bytes txid then err missing_intent_txid else ok tt

unfoldable pub create : ℤ → ℤ → Throws AssetInput
create v a = validated validate (local v a)

-- The cases of `switch (type)`.
unfoldable pub read_local : Parser AssetInput
read_local = do v ← read_uint16_le; a ← read_amount; return (local v a)

unfoldable pub read_intent : Parser AssetInput
read_intent =
    at_least tx_hash_size (λ _. invalid_intent_txid_length)
      do
        txid ← read_slice tx_hash_size
        v ← read_uint16_le
        a ← read_amount
        return (intent txid v a)

unfoldable pub read_input : ℕ → Parser AssetInput
read_input type =
    if type == 1
    then read_local
    else if type == 2
    then read_intent
    else if type == 0
    then throw input_unspecified
    else throw (input_unknown type)

unfoldable pub from_reader : Parser AssetInput
from_reader = do type ← read_byte; input ← read_input type; check (validated validate input)

unfoldable pub from_bytes : List ℕ → Throws AssetInput
from_bytes buf = run from_reader buf

unfoldable pub write_txid : AssetInput → Writer
write_txid (local v a) = skip
write_txid (intent txid v a) = write txid

unfoldable pub serialize_to : AssetInput → Writer
serialize_to input = do
  write_byte (input_type input)
  write_txid input
  write_uint16_le (vin input)
  write_var_uint (amount input)

unfoldable pub serialize : AssetInput → Throws (List ℕ)
serialize input = to_bytes (serialize_to input)

module _ (hex : Hex) where
  unfoldable pub create_intent : Text → ℤ → ℤ → Throws AssetInput
  create_intent txid v a =
      if is_empty txid
      then err missing_intent_txid
      else with_decoded hex invalid_intent_txid_format txid λ buf.
        if length buf == tx_hash_size
        then validated validate (intent buf v a)
        else err invalid_intent_txid_length

  unfoldable pub from_string : Text → Throws AssetInput
  from_string s = with_decoded hex invalid_input_format s from_bytes

  unfoldable pub to_string : AssetInput → Throws Text
  to_string input = hex_of hex (serialize input)
