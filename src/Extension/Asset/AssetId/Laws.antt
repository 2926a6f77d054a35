-- ===== src/Extension/Asset/AssetId/Laws.antt =====
-- AssetId on the wire: 32 bytes of transaction id, and the group index in two.
use congenial_giggle.Common.{
  ℕ, ◌≡◌, ◌↔◌, arith, false, List, ◌++◌, ok, length, length-append, All, All-append, subst,
}
use congenial_giggle.Common.Int.{IsUint16}
use congenial_giggle.Common.Results.{◌>>=◌}
use congenial_giggle.Extension.Errors.{invalid_asset_id_format}
use congenial_giggle.Extension.Bytes.{IsByte, uint16_le, is_zero_bytes, validated}
use congenial_giggle.Extension.Bytes.Laws.{
  Writes, Reads, Writes-then, Writes-write, Writes-write_uint16_le, to_bytes-Writes, Reads-bind,
  Reads-last, Reads-check, Reads-read_slice, Reads-read_uint16_le, Reads-at_least, run-Reads,
  validated-eq-ok, uint16_le-IsByte,
}
use congenial_giggle.Extension.Bytes.Inversion.{
  Yields, Yields-bind, Yields-at_least, Yields-read_slice, Yields-read_uint16_le, Yields-check,
  validated-eq-ok_inv,
}
use congenial_giggle.Extension.Asset.Hex.{Hex}
use congenial_giggle.Extension.Asset.Hex.Laws.{with_decoded-encode, hex_of-ok}
use congenial_giggle.Extension.Asset.AssetId.{
  AssetId, validate, from_reader, from_bytes, serialize_to, serialize, from_string, to_string,
}

-- What a well-formed id is, apart from the code.
pub record IsValid (id : AssetId) : Type 0 where
  pub bytes : All IsByte id.txid
  pub hash_size : length id.txid ≡ 32
  pub not_zero : is_zero_bytes id.txid ≡ false
  pub fits : IsUint16 id.group_index

-- The wire format.
abbrev pub wire : AssetId → List ℕ
wire id = id.txid ++ uint16_le id.group_index

-- `validate` accepts exactly the ids with a non-zero hash and an index from 0 to 65535.
pub validate_iff :
    (id : AssetId)
    → (validate id ≡ ok tt) ↔ ((is_zero_bytes id.txid ≡ false) × IsUint16 id.group_index)
unfolding validate
validate_iff id = ground arith

pub Writes-serialize_to : (id : AssetId) → Writes (serialize_to id) (wire id)
unfolding serialize_to
Writes-serialize_to id = Writes-then (Writes-write id.txid) (Writes-write_uint16_le id.group_index)

pub serialize-wire : (id : AssetId) → serialize id ≡ ok (wire id)
unfolding serialize
serialize-wire id = to_bytes-Writes (Writes-serialize_to id)

pub wire-IsByte : (id : AssetId) → IsValid id → All IsByte (wire id)
wire-IsByte id v = All-append IsByte id.txid _ v.bytes (uint16_le-IsByte id.group_index)

pub length-wire : (id : AssetId) → IsValid id → length (wire id) ≡ 34
length-wire id v = omega (arith, length-append id.txid (uint16_le id.group_index), v.hash_size)

validated_id : (id : AssetId) → IsValid id → validated validate id ≡ ok id
validated_id id v = validated-eq-ok validate id ((validate_iff id).1 (v.not_zero, v.fits))

pub Reads-from_reader : (id : AssetId) → IsValid id → Reads from_reader (wire id) id
unfolding from_reader
Reads-from_reader id v = Reads-at_least 34 _ (omega (arith, length-wire id v)) (
    Reads-bind _ (Reads-read_slice 32 id.txid v.hash_size)
      (Reads-last _ (Reads-read_uint16_le id.group_index v.fits) (Reads-check (validated_id id v))))

pub from_bytes-wire : (id : AssetId) → IsValid id → from_bytes (wire id) ≡ ok id
unfolding from_bytes
from_bytes-wire id v = ground (arith, length-wire id v, run-Reads (Reads-from_reader id v))

validated_id_inv :
    (id : AssetId) {made : AssetId}
    → (length id.txid ≡ 32) × All IsByte id.txid
    → validated validate id ≡ ok made
    → IsValid made
validated_id_inv id (size, bytes) h =
    let (valid, same) = validated-eq-ok_inv validate id h in
    let (not_zero, fits) = (validate_iff id).0 valid in
    subst IsValid same
      (record { bytes = bytes; hash_size = size; not_zero = not_zero; fits = fits })

-- Every id that is read is valid.
pub Yields-from_reader : Yields from_reader IsValid
unfolding from_reader
Yields-from_reader = Yields-at_least 34 _ (
    Yields-bind _ (Yields-read_slice 32) λ txid t. Yields-bind _ Yields-read_uint16_le λ index w.
      Yields-check IsValid _
        λ made h. validated_id_inv (record { txid = txid; group_index = index }) t h)

-- A valid id printed in hexadecimal is read back from the text.
pub AssetId-round_trip :
    (hex : Hex) (id : AssetId) → IsValid id → (to_string hex id >>= from_string hex) ≡ ok id
unfolding to_string from_string
AssetId-round_trip hex id v =
    rw
      (
        hex_of-ok hex (serialize id) (wire id) (serialize-wire id),
        with_decoded-encode hex invalid_asset_id_format (wire id) from_bytes (wire-IsByte id v),
      )
      (from_bytes-wire id v)
