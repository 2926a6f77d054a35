-- ===== src/Extension/Asset/AssetGroup/Laws.antt =====
-- AssetGroup on the wire: a presence byte, the parts that it announces, inputs and outputs.
use congenial_giggle.Common.{
  is_some, ℕ, ◌<◌, ◌^◌, ◌≡◌, refl, sym, ◌↔◌, arith, Bool, true, false, not, ◌&&◌, List, [], ◌∷◌,
  ◌++◌, Option, none, some, ok, All, length, is_empty, subst, append_assoc,
}
use congenial_giggle.Common.Results.{◌>>=◌}
use congenial_giggle.Extension.Bytes.{IsByte, var_uint, Parser, Writer, validated}
use congenial_giggle.Extension.Bytes.Laws.{
  Writes, Reads, Writes-then, Writes-skip, Writes-each, Writes-write_byte, Writes-bytes,
  to_bytes-Writes, Reads-bind, Reads-last, Reads-return, Reads-check, Reads-read_byte, run-Reads,
  validated-eq-ok,
}
use congenial_giggle.Extension.Bytes.VarUint.{Writes-write_var_uint}
use congenial_giggle.Extension.Bytes.Inversion.{
  Yields, Yields-bind, Yields-return, Yields-check, Yields-read_byte, validated-eq-ok_inv,
}
use congenial_giggle.Extension.Asset.AssetId
use congenial_giggle.Extension.Asset.AssetId.{AssetId}
use congenial_giggle.Extension.Asset.AssetId.Laws as IdLaws
use congenial_giggle.Extension.Asset.AssetRef
use congenial_giggle.Extension.Asset.AssetRef.{AssetRef}
use congenial_giggle.Extension.Asset.AssetRef.Laws as RefLaws
use congenial_giggle.Extension.Asset.AssetInput
use congenial_giggle.Extension.Asset.AssetInput.Laws as InputLaws
use congenial_giggle.Extension.Asset.AssetInputs.Laws as InputsLaws
use congenial_giggle.Extension.Asset.AssetOutputs.Laws as OutputsLaws
use congenial_giggle.Extension.Asset.Metadata.{Metadata}
use congenial_giggle.Extension.Asset.Metadata.Laws as MetadataLaws
use congenial_giggle.Extension.Asset.AssetGroup.{
  AssetGroup, is_issuance, validate, create, read_if, read_metadata, has_mask, from_reader,
  from_bytes, set_mask, presence_of, write_option, write_metadata, serialize_to, serialize,
  mask_asset_id, mask_control_asset, mask_metadata,
}

-- What holds of the value, if there is one.
abbrev pub IfSome {ℓ} : {A : Type ℓ} → (A → Type 0) → Option A → Type 0
IfSome P none = Unit {0}
IfSome P (some a) = P a

-- An issuance has no inputs, any other group has no control asset, and no group is empty.
pub record IsShaped (group : AssetGroup) : Type 0 where
  pub not_empty : (is_empty group.inputs && is_empty group.outputs) ≡ false
  pub issuance : (is_some group.asset_id ≡ false) → is_empty group.inputs ≡ true
  pub other : (is_some group.asset_id ≡ true) → is_some group.control_asset ≡ false

pub record IsValid (group : AssetGroup) : Type 0 where
  pub id : IfSome IdLaws.IsValid group.asset_id
  pub control : IfSome RefLaws.IsValid group.control_asset
  pub inputs : InputsLaws.IsValid group.inputs
  pub outputs : OutputsLaws.IsValid group.outputs
  pub metadata : All MetadataLaws.IsValid group.metadata
  pub metadata_fits : length group.metadata < 2 ^ 32
  pub shaped : IsShaped group

-- `validate` accepts exactly the groups of such a shape.
pub AssetGroup-validate_iff : (group : AssetGroup) → (validate group ≡ ok tt) ↔ IsShaped group
unfolding validate is_issuance
AssetGroup-validate_iff group = ground arith

abbrev pub option_wire {ℓ} : {A : Type ℓ} → (A → List ℕ) → Option A → List ℕ
option_wire f none = []
option_wire f (some a) = f a

abbrev pub metadata_wire : List Metadata → List ℕ
metadata_wire [] = []
metadata_wire (md ∷ metadata) = MetadataLaws.list_wire (md ∷ metadata)

-- What follows the presence byte.
abbrev pub body : AssetGroup → List ℕ
body group =
    option_wire IdLaws.wire group.asset_id
    ++ (option_wire RefLaws.wire group.control_asset
        ++ (metadata_wire group.metadata
            ++ (InputsLaws.wire group.inputs ++ OutputsLaws.wire group.outputs)))

unfoldable pub wire : AssetGroup → List ℕ
wire group = (presence_of group ∷ []) ++ body group

-- The presence byte of three tests, and its bits.
abbrev presence : Bool → Bool → Bool → ℕ
unfolding set_mask
presence id control metadata =
    set_mask metadata mask_metadata
      (set_mask control mask_control_asset (set_mask id mask_asset_id 0))

presence_bits :
    (id control metadata : Bool)
    → (has_mask (presence id control metadata) mask_asset_id ≡ id)
      × (has_mask (presence id control metadata) mask_control_asset ≡ control)
      × (has_mask (presence id control metadata) mask_metadata ≡ metadata)
      × IsByte (presence id control metadata)
unfolding has_mask presence
presence_bits false false false = (refl, refl, refl, omega arith)
presence_bits false false true = (refl, refl, refl, omega arith)
presence_bits false true false = (refl, refl, refl, omega arith)
presence_bits false true true = (refl, refl, refl, omega arith)
presence_bits true false false = (refl, refl, refl, omega arith)
presence_bits true false true = (refl, refl, refl, omega arith)
presence_bits true true false = (refl, refl, refl, omega arith)
presence_bits true true true = (refl, refl, refl, omega arith)

pub presence_of_bits :
    (group : AssetGroup)
    → (has_mask (presence_of group) mask_asset_id ≡ is_some group.asset_id)
      × (has_mask (presence_of group) mask_control_asset ≡ is_some group.control_asset)
      × (has_mask (presence_of group) mask_metadata ≡ not (is_empty group.metadata))
      × IsByte (presence_of group)
unfolding presence_of presence
presence_of_bits group =
    presence_bits (is_some group.asset_id) (is_some group.control_asset)
      (not (is_empty group.metadata))

Writes-option {ℓ} :
    {A : Type ℓ} (w : A → Writer) (f : A → List ℕ)
    → ((a : A) → Writes (w a) (f a))
    → (o : Option A) → Writes (write_option w o) (option_wire f o)
unfolding write_option
Writes-option w f h none = Writes-skip
Writes-option w f h (some a) = h a

Writes-metadata :
    (items : List Metadata)
    → All MetadataLaws.IsValid items
    → Writes (write_metadata items) (metadata_wire items)
unfolding write_metadata
Writes-metadata [] h = Writes-skip
Writes-metadata (md ∷ items) h = MetadataLaws.Writes-list (md ∷ items) h

pub Writes-serialize_to :
    (group : AssetGroup) → IsValid group → Writes (serialize_to group) (wire group)
unfolding serialize_to wire
Writes-serialize_to group v =
    Writes-then (Writes-write_byte (presence_of group) (presence_of_bits group).3) (
      Writes-then
        (Writes-option AssetId.serialize_to IdLaws.wire IdLaws.Writes-serialize_to group.asset_id)
        (Writes-then
          (Writes-option AssetRef.serialize_to RefLaws.wire RefLaws.Writes-serialize_to
            group.control_asset)
          (Writes-then (Writes-metadata group.metadata v.metadata) (
            Writes-bytes (sym (append_assoc (var_uint (length group.inputs)) _ _)) (
              Writes-then (Writes-write_var_uint (length group.inputs)) (
                Writes-then
                  (Writes-each InputLaws.IsValid AssetInput.serialize_to InputLaws.wire
                    InputLaws.Writes-serialize_to group.inputs v.inputs.0)
                  (Writes-then (Writes-write_var_uint (length group.outputs)) (
                    OutputsLaws.Writes-outputs group.outputs
                      (OutputsLaws.All-Fits group.outputs v.outputs.0)))))))))

Reads-if {ℓ} :
    {A : Type ℓ} (P : A → Type 0) (p : Parser A) (f : A → List ℕ)
    → ((a : A) → P a → Reads p (f a) a)
    → (o : Option A) → IfSome P o
    → Reads (read_if (is_some o) p) (option_wire f o) o
unfolding read_if
Reads-if P p f h none v = Reads-return none
Reads-if P p f h (some a) v = Reads-last _ (h a v) (Reads-return (some a))

Reads-metadata :
    (items : List Metadata)
    → All MetadataLaws.IsValid items
    → length items < 2 ^ 32
    → Reads (read_metadata (not (is_empty items))) (metadata_wire items) items
unfolding read_metadata
Reads-metadata [] h fits = Reads-return []
Reads-metadata (md ∷ items) h fits = MetadataLaws.Reads-list (md ∷ items) h fits

pub Reads-from_reader : (group : AssetGroup) → IsValid group → Reads from_reader (wire group) group
unfolding from_reader wire create
Reads-from_reader group v =
    let (id, control, metadata, _) = presence_of_bits group in
    Reads-bind _ (Reads-read_byte (presence_of group)) (
      rw (id, control, metadata)
        (Reads-bind _
          (Reads-if IdLaws.IsValid AssetId.from_reader IdLaws.wire IdLaws.Reads-from_reader
            group.asset_id v.id)
          (Reads-bind _
            (Reads-if RefLaws.IsValid AssetRef.from_reader RefLaws.wire RefLaws.Reads-from_reader
              group.control_asset v.control)
            (Reads-bind _ (Reads-metadata group.metadata v.metadata v.metadata_fits) (
              Reads-bind _ (InputsLaws.Reads-from_reader group.inputs v.inputs) (
                Reads-last _ (OutputsLaws.Reads-from_reader group.outputs v.outputs) (
                  Reads-check (
                    validated-eq-ok validate group
                      ((AssetGroup-validate_iff group).1 v.shaped)))))))))

Yields-if {ℓ} :
    {A : Type ℓ} (P : A → Type 0) (p : Parser A)
    → Yields p P
    → (present : Bool) → Yields (read_if present p) (IfSome P)
unfolding read_if
Yields-if P p h false = Yields-return (IfSome P) none tt
Yields-if P p h true = Yields-bind _ h (λ a q. Yields-return (IfSome P) (some a) q)

Yields-metadata :
    (present : Bool)
    → Yields
        (read_metadata present)
        (λ items. (length items < 2 ^ 32) × All MetadataLaws.IsValid items)
unfolding read_metadata
Yields-metadata false = Yields-return _ [] (omega arith, tt)
Yields-metadata true = MetadataLaws.Yields-list

IsValid-group :
    (group made : AssetGroup)
    → IfSome IdLaws.IsValid group.asset_id
    → IfSome RefLaws.IsValid group.control_asset
    → (length group.metadata < 2 ^ 32) × All MetadataLaws.IsValid group.metadata
    → InputsLaws.IsValid group.inputs
    → OutputsLaws.IsValid group.outputs
    → validated validate group ≡ ok made
    → IsValid made
IsValid-group group made id control metadata inputs outputs h =
    let (valid, same) = validated-eq-ok_inv validate group h in
    subst IsValid same (record {
      id = id;
      control = control;
      inputs = inputs;
      outputs = outputs;
      metadata = metadata.1;
      metadata_fits = metadata.0;
      shaped = (AssetGroup-validate_iff group).0 valid;
    })

-- Every group that is read is valid.
pub Yields-from_reader : Yields from_reader IsValid
unfolding from_reader create
Yields-from_reader = Yields-bind _ Yields-read_byte λ presence _.
    Yields-bind _ (Yields-if IdLaws.IsValid _ IdLaws.Yields-from_reader _) λ id a.
      Yields-bind _ (Yields-if RefLaws.IsValid _ RefLaws.Yields-from_reader _) λ control b.
        Yields-bind _ (Yields-metadata _) λ metadata c.
          Yields-bind _ InputsLaws.Yields-from_reader λ inputs d.
            Yields-bind _ OutputsLaws.Yields-from_reader
              λ outputs e. Yields-check IsValid _ λ made h. IsValid-group _ made a b c d e h

-- A valid group is read back from its bytes.
pub AssetGroup-round_trip :
    (group : AssetGroup) → IsValid group → (serialize group >>= from_bytes) ≡ ok group
unfolding serialize from_bytes wire
AssetGroup-round_trip group v =
    let written = to_bytes-Writes (
      OutputsLaws.Writes-if_valid ((AssetGroup-validate_iff group).1 v.shaped)
        (Writes-serialize_to group v)) in
    rw written (run-Reads (Reads-from_reader group v))
