-- ===== src/Extension/Asset/AssetOutput/Laws.antt =====
-- AssetOutput on the wire: the type byte, the vout and the amount.
use congenial_giggle.Common.{
  ℕ, ◌<◌, ◌≡◌, ◌↔◌, arith, Bool-cases, inl, inr, List, [], ◌∷◌, ◌++◌, ok, All, All-append, ◌==◌,
}
use congenial_giggle.Common.Int.{ℤ, pos, negsuc, IsUint16, IsNatural}
use congenial_giggle.Common.Results.{◌>>=◌}
use congenial_giggle.Extension.Errors.{invalid_output_format}
use congenial_giggle.Extension.Bytes.{IsByte, uint16_le}
use congenial_giggle.Extension.Bytes.Laws.{
  Writes, Reads, Writes-then, Writes-write_byte, Writes-write_uint16_le, to_bytes-Writes,
  Reads-bind, Reads-last, Reads-return, Reads-check, Reads-catch_as, Reads-read_byte,
  Reads-read_uint16_le, Reads-at_least, run-Reads, uint16_le-IsByte, validated-eq-ok,
}
use congenial_giggle.Extension.Bytes.VarUint.{
  amount_wire, Writes-amount, Reads-read_amount, amount_wire-IsByte,
}
use congenial_giggle.Extension.Bytes.Inversion.{
  Yields, Yields-bind, Yields-return, Yields-throw, Yields-catch_as, Yields-at_least,
  Yields-read_byte, Yields-read_uint16_le, Yields-read_amount,
}
use congenial_giggle.Extension.Asset.Hex.{Hex}
use congenial_giggle.Extension.Asset.Hex.Laws.{with_decoded-encode, hex_of-ok}
use congenial_giggle.Extension.Asset.AssetOutput.{
  AssetOutput, validate, read_local, read_output, from_reader, read_valid, from_bytes, serialize_to,
  serialize, from_string, to_string,
}

abbrev pub IsPositive : ℤ → Type 0
IsPositive (pos n) = 0 < n
IsPositive (negsuc n) = ⊥

-- What `validate` asks for.
pub record IsValid (output : AssetOutput) : Type 0 where
  pub fits : IsUint16 output.vout
  pub positive : IsPositive output.amount

-- What fits the wire.
pub record Fits (output : AssetOutput) : Type 0 where
  pub fits : IsUint16 output.vout
  pub natural : IsNatural output.amount

abbrev pub wire : AssetOutput → List ℕ
wire output = (1 ∷ []) ++ (uint16_le output.vout ++ amount_wire output.amount)

-- `validate` accepts exactly a vout from 0 to 65535 with an amount above zero.
pub validate_iff : (output : AssetOutput) → (validate output ≡ ok tt) ↔ IsValid output
unfolding validate
validate_iff output = ground arith

IsNatural-of_positive : (z : ℤ) → IsPositive z → IsNatural z
IsNatural-of_positive (pos n) h = tt
IsNatural-of_positive (negsuc n) h = h

pub Fits-of_valid : (output : AssetOutput) → IsValid output → Fits output
Fits-of_valid output v = record {
  fits = v.fits;
  natural = IsNatural-of_positive output.amount v.positive;
}

pub Writes-serialize_to :
    (output : AssetOutput) → Fits output → Writes (serialize_to output) (wire output)
unfolding serialize_to
Writes-serialize_to output f =
    Writes-then (Writes-write_byte 1 (omega arith))
      (Writes-then (Writes-write_uint16_le output.vout) (Writes-amount output.amount f.natural))

pub Reads-from_reader :
    (output : AssetOutput) → Fits output → Reads from_reader (wire output) output
unfolding from_reader read_output read_local
Reads-from_reader output f = Reads-at_least 2 _ (omega arith) (
    Reads-bind _ (Reads-read_byte 1) (
      Reads-bind _ (Reads-catch_as _ (Reads-read_uint16_le output.vout f.fits))
        (Reads-last _ (Reads-read_amount output.amount f.natural) (Reads-return output))))

pub wire-IsByte : (output : AssetOutput) → Fits output → All IsByte (wire output)
wire-IsByte output f = (
  omega arith,
  All-append IsByte (uint16_le output.vout) (amount_wire output.amount)
      (uint16_le-IsByte output.vout) (amount_wire-IsByte output.amount),
)

Yields-read_output : (type : ℕ) → Yields (read_output type) Fits
unfolding read_output read_local
Yields-read_output type = elim (Bool-cases (type == 1)) [
  | inl one ↦ rw one (
      Yields-bind _ (Yields-catch_as _ Yields-read_uint16_le) λ vout p.
        Yields-bind _ Yields-read_amount
          λ amount q. Yields-return Fits _ (record { fits = p; natural = q }))
  | inr more ↦ rw more (elim (Bool-cases (type == 0)) [
    | inl none ↦ rw none (Yields-throw Fits _)
    | inr unknown ↦ rw unknown (Yields-throw Fits _)
  ])
]

-- Every output that is read fits the wire. Its amount may be zero.
pub Yields-from_reader : Yields from_reader Fits
unfolding from_reader
Yields-from_reader =
    Yields-at_least 2 _ (Yields-bind _ Yields-read_byte (λ type _. Yields-read_output type))

pub serialize-wire : (output : AssetOutput) → Fits output → serialize output ≡ ok (wire output)
unfolding serialize
serialize-wire output f = to_bytes-Writes (Writes-serialize_to output f)

pub from_bytes-wire : (output : AssetOutput) → IsValid output → from_bytes (wire output) ≡ ok output
unfolding from_bytes read_valid
from_bytes-wire output v = run-Reads (
    Reads-last _ (Reads-from_reader output (Fits-of_valid output v))
      (Reads-check (validated-eq-ok validate output ((validate_iff output).1 v))))

-- A valid output printed in hexadecimal is read back from the text.
pub AssetOutput-round_trip :
    (hex : Hex) (output : AssetOutput)
    → IsValid output
    → (to_string hex output >>= from_string hex) ≡ ok output
unfolding to_string from_string
AssetOutput-round_trip hex output v =
    let f = Fits-of_valid output v in
    rw
      (
        hex_of-ok hex (serialize output) (wire output) (serialize-wire output f),
        with_decoded-encode hex invalid_output_format (wire output) from_bytes
            (wire-IsByte output f),
      )
      (from_bytes-wire output v)
