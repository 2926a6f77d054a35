-- ===== src/Extension/Asset/Packet/Laws.antt =====
-- Which packets `validate` accepts, and the packet as bytes.
use congenial_giggle.Common.{
  ℕ, ◌<◌, ◌≡◌, refl, ap, ◌↔◌, arith, inl, inr, true, false, List, [], ◌∷◌, ◌++◌, Option, none, some,
  ok, All, length, is_empty, map, subst, ltb, Bool-cases,
}
use congenial_giggle.Common.Int.{ℤ, pos, negsuc}
use congenial_giggle.Common.Sets.{IsDistinct, AreNew, any-eq_iff, AreNew-IsDistinct, IsDistinct-map}
use congenial_giggle.Common.Results.{◌>>=◌}
use congenial_giggle.Extension.Bytes.{IsByte, var_uint, check}
use congenial_giggle.Extension.Bytes.Laws.{
  Writes-then, Writes-each, to_bytes-Writes, concat_map, Reads-times, validated-eq-ok, ReadsAll,
  ReadsAll-bind, ReadsAll-nil, ReadsAll-remaining, run-ReadsAll,
}
use congenial_giggle.Extension.Bytes.VarUint.{Writes-write_var_uint, Reads-read_var_uint}
use congenial_giggle.Extension.Bytes.Inversion.{
  Yields, Yields-bind, Yields-throw, Yields-check, Yields-times, Yields-read_var_uint,
  Yields-remaining, validated-eq-ok_inv, run-eq-ok,
}
use congenial_giggle.Extension.Asset.Hex.{Hex, Text}
use congenial_giggle.Extension.Asset.Hex.Laws.{hex_of-ok, encode_injective}
use congenial_giggle.Extension.Asset.AssetId
use congenial_giggle.Extension.Asset.AssetId.{AssetId}
use congenial_giggle.Extension.Asset.AssetId.Laws as IdLaws
use congenial_giggle.Extension.Asset.AssetRef.{AssetRef, by_id, by_group}
use congenial_giggle.Extension.Asset.AssetGroup
use congenial_giggle.Extension.Asset.AssetGroup.{AssetGroup}
use congenial_giggle.Extension.Asset.AssetGroup.Laws as GroupLaws
use congenial_giggle.Extension.Asset.AssetGroup.Laws.{IfSome}
use congenial_giggle.Extension.Asset.Packet.{
  Packet, same_text, check_control, serialize, add_key, validate_from, validate, create, finish,
  from_reader, from_bytes,
}

pub same_text_iff : (s t : Text) → (same_text s t ≡ true) ↔ (s ≡ t)
unfolding same_text
same_text_iff [] [] = ground arith
same_text_iff [] (b ∷ t) = ground arith
same_text_iff (a ∷ s) [] = ground arith
same_text_iff (a ∷ s) (b ∷ t) = ground (arith, same_text_iff s t)

-- The ids of the groups that have one.
abbrev pub cons_id : Option AssetId → List AssetId → List AssetId
cons_id none ids = ids
cons_id (some id) ids = id ∷ ids

abbrev pub ids_of : List AssetGroup → List AssetId
ids_of [] = []
ids_of (group ∷ groups) = cons_id group.asset_id (ids_of groups)

abbrev pub IsBelow : ℤ → ℕ → Type 0
IsBelow (pos n) count = n < count
IsBelow (negsuc n) count = Unit {0}

-- A control asset given by its group lies in the packet.
abbrev pub IsInRange : ℕ → Option AssetRef → Type 0
IsInRange count none = Unit {0}
IsInRange count (some (by_id id)) = Unit {0}
IsInRange count (some (by_group z)) = IsBelow z count

-- No asset has two groups, and control assets lie in the packet, which is not empty.
pub record IsConsistent (groups : Packet) : Type 0 where
  pub not_empty : is_empty groups ≡ false
  pub distinct : IsDistinct (ids_of groups)
  pub in_range : All (λ group. IsInRange (length groups) group.control_asset) groups

pub record IsValid (groups : Packet) : Type 0 where
  pub each : All GroupLaws.IsValid groups
  pub consistent : IsConsistent groups

check_control_iff :
    (count : ℕ) (o : Option AssetRef) → (check_control count o ≡ ok tt) ↔ IsInRange count o
unfolding check_control
check_control_iff count none = (λ _. tt, λ _. refl)
check_control_iff count (some (by_id id)) = (λ _. tt, λ _. refl)
check_control_iff count (some (by_group (pos n))) = ground arith
check_control_iff count (some (by_group (negsuc n))) = ground arith

-- The packet as bytes: the count, and the groups.
unfoldable pub wire : Packet → List ℕ
wire groups = var_uint (length groups) ++ concat_map GroupLaws.wire groups

pub serialize-wire : (groups : Packet) → IsValid groups → serialize groups ≡ ok (wire groups)
unfolding serialize wire
serialize-wire groups v = rw v.consistent.not_empty (
    to_bytes-Writes (
      Writes-then (Writes-write_var_uint (length groups)) (
        Writes-each GroupLaws.IsValid AssetGroup.serialize_to GroupLaws.wire
          GroupLaws.Writes-serialize_to groups v.each)))

IsValid-cons :
    (o : Option AssetId) (ids : List AssetId)
    → IfSome IdLaws.IsValid o
    → All IdLaws.IsValid ids
    → All IdLaws.IsValid (cons_id o ids)
IsValid-cons none ids v h = h
IsValid-cons (some id) ids v h = (v, h)

IsValid-ids :
    (groups : List AssetGroup) → All GroupLaws.IsValid groups → All IdLaws.IsValid (ids_of groups)
IsValid-ids [] h = tt
IsValid-ids (group ∷ groups) (v, h) =
    IsValid-cons group.asset_id (ids_of groups) v.id (IsValid-ids groups h)

module _ (hex : Hex) where
  ReadsAll-finish :
      (groups : Packet) {made : Packet}
      → create hex groups ≡ ok made
      → ReadsAll (finish hex groups 0) [] made
  unfolding finish check
  ReadsAll-finish groups h = record { takes = rw (finish, check, h) }

  abbrev key_of : AssetId → Text
  key_of id = hex.encode (IdLaws.wire id)

  to_string-key : (id : AssetId) → AssetId.to_string hex id ≡ ok (key_of id)
  unfolding AssetId.to_string
  to_string-key id =
      hex_of-ok hex (AssetId.serialize id) (IdLaws.wire id) (IdLaws.serialize-wire id)

  -- One round, for a group with the id `o` and the control asset `c`.
  round_iff :
      (count : ℕ) (seen : List Text) (group : AssetGroup) (groups : List AssetGroup)
      (o : Option AssetId) (c : Option AssetRef) (rest : Type 0)
      → ((s : List Text)
          → (validate_from hex count s groups ≡ ok tt)
            ↔ (AreNew (map key_of (ids_of groups)) s × rest))
      → (validate_from hex count seen (record group { asset_id = o; control_asset = c } ∷ groups)
          ≡ ok tt)
        ↔ (AreNew (map key_of (cons_id o (ids_of groups))) seen × (IsInRange count c × rest))
  unfolding validate_from add_key
  round_iff count seen group groups none c rest ih =
      ground (arith, check_control_iff count c, ih seen)
  round_iff count seen group groups (some id) c rest ih = ground (
    arith,
    to_string-key id,
    any-eq_iff same_text same_text_iff (key_of id) seen,
    check_control_iff count c,
    ih (key_of id ∷ seen),
  )

  validate_from_iff :
      (count : ℕ) (seen : List Text) (groups : List AssetGroup)
      → (validate_from hex count seen groups ≡ ok tt) ↔ (
          AreNew (map key_of (ids_of groups)) seen
          × All (λ group. IsInRange count group.control_asset) groups)
  validate_from_iff count seen [] = unfold validate_from in (λ _. (tt, tt), λ _. refl)
  validate_from_iff count seen (group ∷ groups) =
      round_iff count seen group groups group.asset_id group.control_asset _
        (λ s. validate_from_iff count s groups)

  key_of_injective :
      (a b : AssetId) → IdLaws.IsValid a → IdLaws.IsValid b → key_of a ≡ key_of b → a ≡ b
  key_of_injective a b va vb h =
      let same =
        encode_injective hex (IdLaws.wire a) (IdLaws.wire b) (IdLaws.wire-IsByte a va)
          (IdLaws.wire-IsByte b vb) h in
      cc (IdLaws.from_bytes-wire a va, IdLaws.from_bytes-wire b vb, ap AssetId.from_bytes same)

  validate_from-consistent :
      (groups : Packet)
      → All GroupLaws.IsValid groups
      → (validate_from hex (length groups) [] groups ≡ ok tt) ↔ (
          IsDistinct (ids_of groups)
          × All (λ group. IsInRange (length groups) group.control_asset) groups)
  validate_from-consistent groups h =
      let (to, from) = validate_from_iff (length groups) [] groups in
      let (apart, new) = AreNew-IsDistinct (map key_of (ids_of groups)) in
      let (back, forth) =
        IsDistinct-map IdLaws.IsValid key_of key_of_injective (ids_of groups)
          (IsValid-ids groups h) in
      (λ e. (back (apart (to e).0), (to e).1), λ (d, r). from (new (forth d), r))

  -- `validate` accepts exactly the consistent packets, if the groups are valid.
  pub Packet-validate_iff :
      (groups : Packet)
      → All GroupLaws.IsValid groups
      → (validate hex groups ≡ ok tt) ↔ IsConsistent groups
  unfolding validate
  Packet-validate_iff [] h = (λ e. cc, λ c. let no = c.not_empty in cc)
  Packet-validate_iff (group ∷ groups) h =
      let (to, from) = validate_from-consistent (group ∷ groups) h in
      (
        λ e. record { not_empty = refl; distinct = (to e).0; in_range = (to e).1 },
        λ c. from (c.distinct, c.in_range),
      )

  create_valid : (groups : Packet) → IsValid groups → create hex groups ≡ ok groups
  unfolding create
  create_valid groups v =
      validated-eq-ok (validate hex) groups ((Packet-validate_iff groups v.each).1 v.consistent)

  pub from_bytes-wire :
      (groups : Packet) → IsValid groups → from_bytes hex (wire groups) ≡ ok groups
  unfolding from_bytes from_reader wire
  from_bytes-wire groups v = run-ReadsAll (
      ReadsAll-bind _ (Reads-read_var_uint (length groups)) (
        ReadsAll-nil _
          (Reads-times GroupLaws.IsValid AssetGroup.from_reader GroupLaws.wire
            GroupLaws.Reads-from_reader groups v.each)
          (ReadsAll-remaining _ (ReadsAll-finish groups (create_valid groups v)))))

  -- A valid packet is read back from its bytes.
  pub Packet-round_trip :
      (groups : Packet) → IsValid groups → (serialize groups >>= from_bytes hex) ≡ ok groups
  Packet-round_trip groups v = rw (serialize-wire groups v) (from_bytes-wire groups v)

  create_inv :
      (groups made : Packet)
      → All GroupLaws.IsValid groups
      → create hex groups ≡ ok made
      → IsValid made
  unfolding create
  create_inv groups made h e =
      let (valid, same) = validated-eq-ok_inv (validate hex) groups e in
      subst IsValid same (record { each = h; consistent = (Packet-validate_iff groups h).0 valid })

  Yields-finish :
      (groups : Packet) (left : ℕ)
      → All GroupLaws.IsValid groups
      → Yields (finish hex groups left) IsValid
  unfolding finish
  Yields-finish groups left h = elim (Bool-cases (ltb 0 left)) [
    | inl more ↦ rw more (Yields-throw IsValid _)
    | inr done ↦ rw done (Yields-check IsValid _ (λ made e. create_inv groups made h e))
  ]

  Yields-from_reader : Yields (from_reader hex) IsValid
  unfolding from_reader
  Yields-from_reader = Yields-bind _ Yields-read_var_uint λ count _.
      Yields-bind _ (Yields-times GroupLaws.IsValid _ GroupLaws.Yields-from_reader count)
        λ groups h. Yields-bind _ Yields-remaining λ left _. Yields-finish groups left h.1

  -- Whatever bytes a packet is read from, the packet is valid, and its own bytes are read back as
  -- the same packet.
  pub Packet-from_bytes-IsValid :
      (bytes : List ℕ) (groups : Packet)
      → All IsByte bytes
      → from_bytes hex bytes ≡ ok groups
      → IsValid groups × ((serialize groups >>= from_bytes hex) ≡ ok groups)
  unfolding from_bytes
  Packet-from_bytes-IsValid bytes groups h e =
      let v : IsValid groups = run-eq-ok bytes Yields-from_reader h e in
      (v, Packet-round_trip groups v)
