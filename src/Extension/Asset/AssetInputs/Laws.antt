-- ===== src/Extension/Asset/AssetInputs/Laws.antt =====
-- Which lists of inputs `validate` accepts, and the list on the wire.
use congenial_giggle.Common.{
  ℕ, ◌≡◌, refl, ◌↔◌, arith, inr, ◌⊎◌, List, [], ◌∷◌, ◌++◌, ok, All, All-append, length, map, subst,
}
use congenial_giggle.Common.Int.{ℤ, eq_ℤ, eq_ℤ_iff}
use congenial_giggle.Common.Sets.{IsDistinct, AreNew, any-eq_iff, AreNew-IsDistinct}
use congenial_giggle.Extension.Bytes.{IsByte, var_uint}
use congenial_giggle.Extension.Bytes.Laws.{
  Writes, Reads, Writes-then, Writes-each, concat_map, concat_map-IsByte, Reads-bind, Reads-last,
  Reads-check, Reads-times, validated-eq-ok,
}
use congenial_giggle.Extension.Bytes.VarUint.{
  Writes-write_var_uint, Reads-read_var_uint, var_uint-IsByte,
}
use congenial_giggle.Extension.Bytes.Inversion.{
  Yields, Yields-bind, Yields-check, Yields-times, Yields-read_var_uint, validated-eq-ok_inv,
}
use congenial_giggle.Extension.Asset.AssetInput
use congenial_giggle.Extension.Asset.AssetInput.{AssetInput, local, intent}
use congenial_giggle.Extension.Asset.AssetInput.Laws as InputLaws
use congenial_giggle.Extension.Asset.AssetInputs.{
  add_vin, check_type, validate_round, validate_from, validate, create, from_reader, serialize_to,
}

abbrev pub IsLocal : AssetInput → Type 0
IsLocal (local v a) = Unit
IsLocal (intent txid v a) = ⊥

abbrev pub IsIntent : AssetInput → Type 0
IsIntent (local v a) = ⊥
IsIntent (intent txid v a) = InputLaws.IsNonzero (intent txid v a)

abbrev vins_of : List AssetInput → List ℤ
vins_of = map AssetInput.vin

-- Local inputs with distinct vins, or intents with a transaction id that is not zero.
abbrev pub IsConsistent : List AssetInput → Type 0
IsConsistent inputs =
    (All IsLocal inputs × IsDistinct (map AssetInput.vin inputs)) ⊎ All IsIntent inputs

validate_from-IsLocal :
    (seen : List ℤ) (inputs : List AssetInput)
    → (validate_from (record { vins = seen; list_type = 1 }) inputs ≡ ok tt)
      ↔ (All IsLocal inputs × AreNew (vins_of inputs) seen)
unfolding validate_from validate_round check_type add_vin AssetInput.validate AssetInput.vin
validate_from-IsLocal seen [] = (λ _. (tt, tt), λ _. refl)
validate_from-IsLocal seen (local v a ∷ inputs) =
    ground (arith, any-eq_iff eq_ℤ eq_ℤ_iff v seen, validate_from-IsLocal (v ∷ seen) inputs)
validate_from-IsLocal seen (intent txid v a ∷ inputs) = ground arith

validate_from-IsIntent :
    (seen : List ℤ) (inputs : List AssetInput)
    → (validate_from (record { vins = seen; list_type = 2 }) inputs ≡ ok tt) ↔ All IsIntent inputs
unfolding validate_from validate_round check_type add_vin AssetInput.validate
validate_from-IsIntent seen [] = (λ _. tt, λ _. refl)
validate_from-IsIntent seen (local v a ∷ inputs) = ground arith
validate_from-IsIntent seen (intent txid v a ∷ inputs) =
    ground (arith, validate_from-IsIntent seen inputs)

-- `validate` accepts exactly the lists of Local inputs with distinct vins and the lists of intents
-- with a transaction id that is not zero.
pub AssetInputs-validate_iff :
    (inputs : List AssetInput) → (validate inputs ≡ ok tt) ↔ IsConsistent inputs
unfolding validate validate_from validate_round check_type add_vin AssetInput.validate
    AssetInput.vin
AssetInputs-validate_iff [] = (λ _. inr tt, λ _. refl)
AssetInputs-validate_iff (local v a ∷ inputs) =
    ground (arith, validate_from-IsLocal (v ∷ []) inputs, AreNew-IsDistinct (v ∷ vins_of inputs))
AssetInputs-validate_iff (intent txid v a ∷ inputs) =
    ground (arith, validate_from-IsIntent [] inputs)

-- The list, behind the count of its items.
abbrev pub wire : List AssetInput → List ℕ
wire inputs = var_uint (length inputs) ++ concat_map InputLaws.wire inputs

abbrev pub IsValid : List AssetInput → Type 0
IsValid inputs = All InputLaws.IsValid inputs × IsConsistent inputs

pub Writes-serialize_to :
    (inputs : List AssetInput)
    → All InputLaws.IsValid inputs
    → Writes (serialize_to inputs) (wire inputs)
unfolding serialize_to
Writes-serialize_to inputs h = Writes-then (Writes-write_var_uint (length inputs)) (
    Writes-each InputLaws.IsValid AssetInput.serialize_to InputLaws.wire
      InputLaws.Writes-serialize_to inputs h)

pub Reads-from_reader :
    (inputs : List AssetInput) → IsValid inputs → Reads from_reader (wire inputs) inputs
unfolding from_reader create
Reads-from_reader inputs (h, c) = Reads-bind _ (Reads-read_var_uint (length inputs)) (
    Reads-last _
      (Reads-times InputLaws.IsValid AssetInput.from_reader InputLaws.wire
        InputLaws.Reads-from_reader inputs h)
      (Reads-check (validated-eq-ok validate inputs ((AssetInputs-validate_iff inputs).1 c))))

pub wire-IsByte :
    (inputs : List AssetInput) → All InputLaws.IsValid inputs → All IsByte (wire inputs)
wire-IsByte inputs h =
    All-append IsByte (var_uint (length inputs)) _ (var_uint-IsByte _)
      (concat_map-IsByte InputLaws.IsValid InputLaws.wire InputLaws.wire-IsByte inputs h)

create_inv :
    (inputs : List AssetInput) {made : List AssetInput}
    → All InputLaws.IsValid inputs
    → create inputs ≡ ok made
    → IsValid made
unfolding create
create_inv inputs f h =
    let (valid, same) = validated-eq-ok_inv validate inputs h in
    subst IsValid same (f, (AssetInputs-validate_iff inputs).0 valid)

-- Every list that is read is valid.
pub Yields-from_reader : Yields from_reader IsValid
unfolding from_reader
Yields-from_reader = Yields-bind _ Yields-read_var_uint λ count _.
    Yields-bind _ (Yields-times InputLaws.IsValid _ InputLaws.Yields-from_reader count)
      λ inputs h. Yields-check IsValid _ λ made e. create_inv inputs h.1 e
