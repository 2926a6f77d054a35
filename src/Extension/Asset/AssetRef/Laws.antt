-- ===== src/Extension/Asset/AssetRef/Laws.antt =====
-- AssetRef on the wire: the type byte, and an id or a group index.
use congenial_giggle.Common.{
  ℕ, ◌≡◌, arith, Bool-cases, inl, inr, List, [], ◌∷◌, ◌++◌, ok, All, ◌==◌,
}
use congenial_giggle.Common.Int.{IsUint16}
use congenial_giggle.Common.Results.{◌>>=◌}
use congenial_giggle.Extension.Errors.{invalid_asset_ref_format}
use congenial_giggle.Extension.Bytes.{IsByte, uint16_le}
use congenial_giggle.Extension.Bytes.Laws.{
  Writes, Reads, Writes-then, Writes-write_byte, Writes-write_uint16_le, to_bytes-Writes,
  Reads-bind, Reads-last, Reads-return, Reads-read_byte, Reads-read_uint16_le, Reads-at_least,
  run-Reads, uint16_le-IsByte,
}
use congenial_giggle.Extension.Bytes.Inversion.{
  Yields, Yields-bind, Yields-return, Yields-throw, Yields-at_least, Yields-read_byte,
  Yields-read_uint16_le,
}
use congenial_giggle.Extension.Asset.Hex.{Hex}
use congenial_giggle.Extension.Asset.Hex.Laws.{with_decoded-encode, hex_of-ok}
use congenial_giggle.Extension.Asset.AssetId.Laws as IdLaws
use congenial_giggle.Extension.Asset.AssetRef.{
  AssetRef, by_id, by_group, ref_type, read_id, read_group, read_ref, from_reader, from_bytes,
  write_ref, serialize_to, serialize, from_string, to_string,
}

abbrev pub IsValid : AssetRef → Type 0
IsValid (by_id id) = IdLaws.IsValid id
IsValid (by_group group_index) = IsUint16 group_index

-- The wire format.
abbrev pub body : AssetRef → List ℕ
body (by_id id) = IdLaws.wire id
body (by_group group_index) = uint16_le group_index

abbrev pub wire : AssetRef → List ℕ
wire ref = (ref_type ref ∷ []) ++ body ref

ref_type-IsByte : (ref : AssetRef) → IsByte (ref_type ref)
ref_type-IsByte (by_id id) = omega arith
ref_type-IsByte (by_group z) = omega arith

Writes-write_ref : (ref : AssetRef) → Writes (write_ref ref) (body ref)
unfolding write_ref
Writes-write_ref (by_id id) = IdLaws.Writes-serialize_to id
Writes-write_ref (by_group z) = Writes-write_uint16_le z

pub Writes-serialize_to : (ref : AssetRef) → Writes (serialize_to ref) (wire ref)
unfolding serialize_to
Writes-serialize_to ref =
    Writes-then (Writes-write_byte (ref_type ref) (ref_type-IsByte ref)) (Writes-write_ref ref)

pub serialize-wire : (ref : AssetRef) → serialize ref ≡ ok (wire ref)
unfolding serialize
serialize-wire ref = to_bytes-Writes (Writes-serialize_to ref)

pub wire-IsByte : (ref : AssetRef) → IsValid ref → All IsByte (wire ref)
wire-IsByte (by_id id) v = (ref_type-IsByte (by_id id), IdLaws.wire-IsByte id v)
wire-IsByte (by_group z) v = (ref_type-IsByte (by_group z), uint16_le-IsByte z)

Reads-read_ref : (ref : AssetRef) → IsValid ref → Reads (read_ref (ref_type ref)) (body ref) ref
unfolding read_ref read_id read_group
Reads-read_ref (by_id id) v = Reads-last _ (IdLaws.Reads-from_reader id v) (Reads-return (by_id id))
Reads-read_ref (by_group z) v =
    Reads-at_least 2 _ (omega arith)
      (Reads-last _ (Reads-read_uint16_le z v) (Reads-return (by_group z)))

pub Reads-from_reader : (ref : AssetRef) → IsValid ref → Reads from_reader (wire ref) ref
unfolding from_reader
Reads-from_reader ref v = Reads-bind _ (Reads-read_byte (ref_type ref)) (Reads-read_ref ref v)

pub from_bytes-wire : (ref : AssetRef) → IsValid ref → from_bytes (wire ref) ≡ ok ref
unfolding from_bytes
from_bytes-wire ref v = run-Reads (Reads-from_reader ref v)

Yields-read_ref : (type : ℕ) → Yields (read_ref type) IsValid
unfolding read_ref read_id read_group
Yields-read_ref type = elim (Bool-cases (type == 1)) [
  | inl one ↦
      rw one (Yields-bind _ IdLaws.Yields-from_reader (λ id v. Yields-return IsValid (by_id id) v))
  | inr more ↦ rw more (elim (Bool-cases (type == 2)) [
    | inl two ↦ rw two (
        Yields-at_least 2 _
          (Yields-bind _ Yields-read_uint16_le (λ z v. Yields-return IsValid (by_group z) v)))
    | inr other ↦ rw other (elim (Bool-cases (type == 0)) [
      | inl none ↦ rw none (Yields-throw IsValid _)
      | inr unknown ↦ rw unknown (Yields-throw IsValid _)
    ])
  ])
]

-- Every reference that is read is valid.
pub Yields-from_reader : Yields from_reader IsValid
unfolding from_reader
Yields-from_reader = Yields-bind _ Yields-read_byte (λ type _. Yields-read_ref type)

-- A valid reference printed in hexadecimal is read back from the text.
pub AssetRef-round_trip :
    (hex : Hex) (ref : AssetRef) → IsValid ref → (to_string hex ref >>= from_string hex) ≡ ok ref
unfolding to_string from_string
AssetRef-round_trip hex ref v =
    rw
      (
        hex_of-ok hex (serialize ref) (wire ref) (serialize-wire ref),
        with_decoded-encode hex invalid_asset_ref_format (wire ref) from_bytes (wire-IsByte ref v),
      )
      (from_bytes-wire ref v)
