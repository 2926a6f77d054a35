-- ===== src/Extension/Asset/AssetInput/Laws.antt =====
-- AssetInput on the wire: the type byte, the transaction id of an intent, the vin and the amount.
use congenial_giggle.Common.{
  ℕ, ◌≡◌, ◌↔◌, arith, Bool-cases, inl, inr, List, [], ◌∷◌, ◌++◌, ok, All, All-append, length,
  length-append, ◌==◌, false, subst,
}
use congenial_giggle.Common.Int.{IsUint16, IsNatural}
use congenial_giggle.Common.Results.{◌>>=◌}
use congenial_giggle.Extension.Errors.{invalid_input_format}
use congenial_giggle.Extension.Bytes.{IsByte, uint16_le, is_zero_bytes, validated}
use congenial_giggle.Extension.Bytes.Laws.{
  Writes, Reads, Writes-then, Writes-skip, Writes-write, Writes-write_byte, Writes-write_uint16_le,
  to_bytes-Writes, Reads-bind, Reads-last, Reads-return, Reads-check, Reads-read_byte,
  Reads-read_slice, Reads-read_uint16_le, Reads-at_least, run-Reads, uint16_le-IsByte,
  validated-eq-ok,
}
use congenial_giggle.Extension.Bytes.VarUint.{
  amount_wire, Writes-amount, Reads-read_amount, amount_wire-IsByte,
}
use congenial_giggle.Extension.Bytes.Inversion.{
  Yields, Yields-bind, Yields-return, Yields-throw, Yields-check, Yields-at_least, Yields-read_byte,
  Yields-read_slice, Yields-read_uint16_le, Yields-read_amount, validated-eq-ok_inv,
}
use congenial_giggle.Extension.Asset.Hex.{Hex}
use congenial_giggle.Extension.Asset.Hex.Laws.{with_decoded-encode, hex_of-ok}
use congenial_giggle.Extension.Asset.AssetInput.{
  AssetInput, local, intent, input_type, vin, amount, validate, read_local, read_intent, read_input,
  from_reader, from_bytes, write_txid, serialize_to, serialize, from_string, to_string,
}

-- What the type of an input promises, and the range of what fits the wire.
abbrev pub Fits : AssetInput → Type 0
Fits (local v a) = IsUint16 v × IsNatural a
Fits (intent txid v a) = (length txid ≡ 32) × All IsByte txid × IsUint16 v × IsNatural a

abbrev pub IsNonzero : AssetInput → Type 0
IsNonzero (local v a) = Unit
IsNonzero (intent txid v a) = is_zero_bytes txid ≡ false

abbrev pub IsValid : AssetInput → Type 0
IsValid input = Fits input × IsNonzero input

-- The wire format, behind the type byte.
abbrev pub body : AssetInput → List ℕ
body (local v a) = uint16_le v ++ amount_wire a
body (intent txid v a) = txid ++ (uint16_le v ++ amount_wire a)

abbrev pub wire : AssetInput → List ℕ
wire input = (input_type input ∷ []) ++ body input

pub validate_iff : (input : AssetInput) → (validate input ≡ ok tt) ↔ IsNonzero input
unfolding validate
validate_iff (local v a) = ground arith
validate_iff (intent txid v a) = ground arith

input_type-IsByte : (input : AssetInput) → IsByte (input_type input)
input_type-IsByte (local v a) = omega arith
input_type-IsByte (intent txid v a) = omega arith

pub Writes-serialize_to :
    (input : AssetInput) → IsValid input → Writes (serialize_to input) (wire input)
unfolding serialize_to write_txid vin amount
Writes-serialize_to (local v a) (f, _) =
    Writes-then (Writes-write_byte 1 (omega arith))
      (Writes-then Writes-skip (Writes-then (Writes-write_uint16_le v) (Writes-amount a f.1)))
Writes-serialize_to (intent txid v a) (f, _) =
    Writes-then (Writes-write_byte 2 (omega arith)) (
      Writes-then (Writes-write txid)
        (Writes-then (Writes-write_uint16_le v) (Writes-amount a f.3)))

pub wire-IsByte : (input : AssetInput) → IsValid input → All IsByte (wire input)
wire-IsByte (local v a) (f, _) = (
  input_type-IsByte (local v a),
  All-append IsByte (uint16_le v) (amount_wire a) (uint16_le-IsByte v) (amount_wire-IsByte a),
)
wire-IsByte (intent txid v a) (f, _) = (
  input_type-IsByte (intent txid v a),
  All-append IsByte txid _ f.1
      (All-append IsByte (uint16_le v) (amount_wire a) (uint16_le-IsByte v) (amount_wire-IsByte a)),
)

Reads-read_input :
    (input : AssetInput) → IsValid input → Reads (read_input (input_type input)) (body input) input
unfolding read_input read_local read_intent
Reads-read_input (local v a) (f, _) =
    Reads-bind _ (Reads-read_uint16_le v f.0)
      (Reads-last _ (Reads-read_amount a f.1) (Reads-return (local v a)))
Reads-read_input (intent txid v a) (f, _) =
    Reads-at_least 32 _ (omega (arith, length-append txid (uint16_le v ++ amount_wire a), f.0)) (
      Reads-bind _ (Reads-read_slice 32 txid f.0) (
        Reads-bind _ (Reads-read_uint16_le v f.2)
          (Reads-last _ (Reads-read_amount a f.3) (Reads-return (intent txid v a)))))

pub Reads-from_reader : (input : AssetInput) → IsValid input → Reads from_reader (wire input) input
unfolding from_reader
Reads-from_reader input v = Reads-bind _ (Reads-read_byte (input_type input)) (
    Reads-last _ (Reads-read_input input v)
      (Reads-check (validated-eq-ok validate input ((validate_iff input).1 v.1))))

Yields-read_input : (type : ℕ) → Yields (read_input type) Fits
unfolding read_input read_local read_intent
Yields-read_input type = elim (Bool-cases (type == 1)) [
  | inl one ↦ rw one (
      Yields-bind _ Yields-read_uint16_le
        λ v p. Yields-bind _ Yields-read_amount λ a q. Yields-return Fits (local v a) (p, q))
  | inr more ↦ rw more (elim (Bool-cases (type == 2)) [
    | inl two ↦ rw two (
        Yields-at_least 32 _ (
          Yields-bind _ (Yields-read_slice 32) λ txid t. Yields-bind _ Yields-read_uint16_le λ v p.
            Yields-bind _ Yields-read_amount
              λ a q. Yields-return Fits (intent txid v a) (t.0, t.1, p, q)))
    | inr other ↦ rw other (elim (Bool-cases (type == 0)) [
      | inl none ↦ rw none (Yields-throw Fits _)
      | inr unknown ↦ rw unknown (Yields-throw Fits _)
    ])
  ])
]

validated_input_inv :
    (input : AssetInput) {made : AssetInput}
    → Fits input
    → validated validate input ≡ ok made
    → IsValid made
validated_input_inv input f h =
    let (valid, same) = validated-eq-ok_inv validate input h in
    subst IsValid same (f, (validate_iff input).0 valid)

-- Every input that is read is valid.
pub Yields-from_reader : Yields from_reader IsValid
unfolding from_reader
Yields-from_reader = Yields-bind _ Yields-read_byte λ type _.
    Yields-bind _ (Yields-read_input type)
      λ input f. Yields-check IsValid _ λ made h. validated_input_inv input f h

pub serialize-wire : (input : AssetInput) → IsValid input → serialize input ≡ ok (wire input)
unfolding serialize
serialize-wire input v = to_bytes-Writes (Writes-serialize_to input v)

pub from_bytes-wire : (input : AssetInput) → IsValid input → from_bytes (wire input) ≡ ok input
unfolding from_bytes
from_bytes-wire input v = run-Reads (Reads-from_reader input v)

-- A valid input printed in hexadecimal is read back from the text.
pub AssetInput-round_trip :
    (hex : Hex) (input : AssetInput)
    → IsValid input
    → (to_string hex input >>= from_string hex) ≡ ok input
unfolding to_string from_string
AssetInput-round_trip hex input v =
    rw
      (
        hex_of-ok hex (serialize input) (wire input) (serialize-wire input v),
        with_decoded-encode hex invalid_input_format (wire input) from_bytes (wire-IsByte input v),
      )
      (from_bytes-wire input v)
