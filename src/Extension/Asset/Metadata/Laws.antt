-- ===== src/Extension/Asset/Metadata/Laws.antt =====
-- Metadata on the wire: key and value, each behind its length; a list behind its count.
use congenial_giggle.Common.{
  ℕ, ◌<◌, ◌^◌, ◌≡◌, ◌↔◌, arith, Bool-cases, inl, inr, List, ◌++◌, ok, All, All-append, length,
  is_empty, ltb, lt→ltb, subst, false,
}
use congenial_giggle.Extension.Bytes.{IsByte, var_uint, validated}
use congenial_giggle.Extension.Bytes.Laws.{
  Writes, Reads, Writes-then, Writes-each, concat_map, concat_map-IsByte, Reads-bind, Reads-last,
  Reads-check, Reads-catch_as, Reads-times, validated-eq-ok,
}
use congenial_giggle.Extension.Bytes.VarUint.{
  var_slice, Writes-write_var_slice, Reads-read_var_slice, Writes-write_var_uint,
  Reads-read_var_uint, var_uint-IsByte,
}
use congenial_giggle.Extension.Bytes.Inversion.{
  Yields, Yields-bind, Yields-throw, Yields-check, Yields-catch_as, Yields-times,
  Yields-read_var_slice, Yields-read_var_uint, Yields-weaken, validated-eq-ok_inv,
}
use congenial_giggle.Extension.Asset.Metadata.{
  Metadata, validate, from_reader, serialize_to, list_from_reader, list_serialize_to,
}

pub record IsValid (md : Metadata) : Type 0 where
  pub key_bytes : All IsByte md.key
  pub value_bytes : All IsByte md.value
  pub has_key : is_empty md.key ≡ false
  pub has_value : is_empty md.value ≡ false

abbrev pub wire : Metadata → List ℕ
wire md = var_slice md.key ++ var_slice md.value

-- The list, behind the count of its items.
abbrev pub list_wire : List Metadata → List ℕ
list_wire items = var_uint (length items) ++ concat_map wire items

pub validate_iff :
    (md : Metadata)
    → (validate md ≡ ok tt) ↔ ((is_empty md.key ≡ false) × (is_empty md.value ≡ false))
unfolding validate
validate_iff md = ground arith

pub Writes-serialize_to : (md : Metadata) → Writes (serialize_to md) (wire md)
unfolding serialize_to
Writes-serialize_to md =
    Writes-then (Writes-write_var_slice md.key) (Writes-write_var_slice md.value)

pub Reads-from_reader : (md : Metadata) → IsValid md → Reads from_reader (wire md) md
unfolding from_reader
Reads-from_reader md v = Reads-bind _ (Reads-catch_as _ (Reads-read_var_slice md.key)) (
    Reads-last _ (Reads-catch_as _ (Reads-read_var_slice md.value))
      (Reads-check (validated-eq-ok validate md ((validate_iff md).1 (v.has_key, v.has_value)))))

var_slice-IsByte : (bytes : List ℕ) → All IsByte bytes → All IsByte (var_slice bytes)
var_slice-IsByte bytes h = All-append IsByte (var_uint (length bytes)) bytes (var_uint-IsByte _) h

pub wire-IsByte : (md : Metadata) → IsValid md → All IsByte (wire md)
wire-IsByte md v =
    All-append IsByte (var_slice md.key) (var_slice md.value) (var_slice-IsByte md.key v.key_bytes)
      (var_slice-IsByte md.value v.value_bytes)

-- Every entry that is read is valid.
pub Yields-from_reader : Yields from_reader IsValid
unfolding from_reader
Yields-from_reader = Yields-bind _ (Yields-catch_as _ Yields-read_var_slice) λ key k.
    Yields-bind _ (Yields-catch_as _ Yields-read_var_slice)
      λ value w. Yields-check IsValid _ λ md h. made key value k w md h
  where
    made :
        (key value : List ℕ)
        → All IsByte key
        → All IsByte value
        → (md : Metadata) → validated validate (record { key = key; value = value }) ≡ ok md
        → IsValid md
    made key value k w md h =
        let (valid, same) = validated-eq-ok_inv validate (record { key = key; value = value }) h in
        let (has_key, has_value) = (validate_iff _).0 valid in
        subst IsValid same
          (record { key_bytes = k; value_bytes = w; has_key = has_key; has_value = has_value })

pub Writes-list :
    (items : List Metadata) → All IsValid items → Writes (list_serialize_to items) (list_wire items)
unfolding list_serialize_to
Writes-list items h =
    Writes-then (Writes-write_var_uint (length items))
      (Writes-each IsValid serialize_to wire (λ md _. Writes-serialize_to md) items h)

pub Reads-list :
    (items : List Metadata)
    → All IsValid items
    → length items < 2 ^ 32
    → Reads list_from_reader (list_wire items) items
unfolding list_from_reader
Reads-list items h fits = Reads-bind _ (Reads-read_var_uint (length items)) (
    rw (lt→ltb (length items) (2 ^ 32) fits)
      (Reads-times IsValid from_reader wire Reads-from_reader items h))

pub Yields-list : Yields list_from_reader (λ items. (length items < 2 ^ 32) × All IsValid items)
unfolding list_from_reader
Yields-list = Yields-bind _ Yields-read_var_uint λ count _. elim (Bool-cases (ltb count (2 ^ 32))) [
  | inl fits ↦ rw fits (
      Yields-weaken (λ items h. (ground (arith, h.0), h.1))
        (Yields-times IsValid from_reader Yields-from_reader count))
  | inr long ↦ rw long (Yields-throw (λ items. (length items < 2 ^ 32) × All IsValid items) _)
]

pub list_wire-IsByte : (items : List Metadata) → All IsValid items → All IsByte (list_wire items)
list_wire-IsByte items h =
    All-append IsByte (var_uint (length items)) (concat_map wire items) (var_uint-IsByte _)
      (concat_map-IsByte IsValid wire wire-IsByte items h)
