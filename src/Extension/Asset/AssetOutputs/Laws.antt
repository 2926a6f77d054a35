-- ===== src/Extension/Asset/AssetOutputs/Laws.antt =====
-- Which lists of outputs `validate` accepts, and the list on the wire.
use congenial_giggle.Common.{
  ℕ, suc, ◌≡◌, refl, ◌↔◌, arith, Bool-cases, inl, inr, List, [], ◌∷◌, ◌++◌, ok, All, All-append,
  length, ◌==◌, false, map, subst,
}
use congenial_giggle.Common.Int.{ℤ, eq_ℤ, eq_ℤ_iff}
use congenial_giggle.Common.Sets.{IsDistinct, AreNew, any-eq_iff, AreNew-IsDistinct}
use congenial_giggle.Extension.Errors.{Throws}
use congenial_giggle.Extension.Bytes.{IsByte, var_uint, Writer, write_each, validated}
use congenial_giggle.Extension.Bytes.Laws.{
  Writes, Reads, Writes-then, Writes-each, concat_map, concat_map-IsByte, Reads-bind, Reads-last,
  Reads-return, Reads-check, Reads-times, validated-eq-ok,
}
use congenial_giggle.Extension.Bytes.VarUint.{
  Writes-write_var_uint, Reads-read_var_uint, var_uint-IsByte,
}
use congenial_giggle.Extension.Bytes.Inversion.{
  Yields, Yields-bind, Yields-return, Yields-check, Yields-times, Yields-read_var_uint,
  validated-eq-ok_inv,
}
use congenial_giggle.Extension.Asset.AssetOutput
use congenial_giggle.Extension.Asset.AssetOutput.{AssetOutput}
use congenial_giggle.Extension.Asset.AssetOutput.Laws as OutputLaws
use congenial_giggle.Extension.Asset.AssetOutputs.{
  validate_round, validate_from, validate, read_outputs, from_reader, if_valid, serialize_to,
}

abbrev pub vouts_of : List AssetOutput → List ℤ
vouts_of = map (λ output. output.vout)

-- Valid outputs with distinct vouts.
abbrev pub IsValid : List AssetOutput → Type 0
IsValid outputs = All OutputLaws.IsValid outputs × IsDistinct (vouts_of outputs)

validate_from_iff :
    (seen : List ℤ) (outputs : List AssetOutput)
    → (validate_from seen outputs ≡ ok tt)
      ↔ (All OutputLaws.IsValid outputs × AreNew (vouts_of outputs) seen)
unfolding validate_from validate_round
validate_from_iff seen [] = (λ _. (tt, tt), λ _. refl)
validate_from_iff seen (output ∷ outputs) = ground (
  arith,
  OutputLaws.validate_iff output,
  any-eq_iff eq_ℤ eq_ℤ_iff output.vout seen,
  validate_from_iff (output.vout ∷ seen) outputs,
)

-- `validate` accepts exactly the lists of valid outputs with distinct vouts.
pub AssetOutputs-validate_iff :
    (outputs : List AssetOutput) → (validate outputs ≡ ok tt) ↔ IsValid outputs
unfolding validate
AssetOutputs-validate_iff outputs =
    let (to, from) = validate_from_iff [] outputs in
    let (distinct, new) = AreNew-IsDistinct (vouts_of outputs) in
    (λ e. ((to e).0, distinct (to e).1), λ (h, d). from (h, new d))

abbrev pub wire : List AssetOutput → List ℕ
wire outputs = var_uint (length outputs) ++ concat_map OutputLaws.wire outputs

pub All-Fits :
    (outputs : List AssetOutput) → All OutputLaws.IsValid outputs → All OutputLaws.Fits outputs
All-Fits [] h = tt
All-Fits (output ∷ outputs) (v, h) = (OutputLaws.Fits-of_valid output v, All-Fits outputs h)

-- The writes of a list that is not checked, as those of a group's outputs.
pub Writes-outputs :
    (outputs : List AssetOutput)
    → All OutputLaws.Fits outputs
    → Writes (write_each AssetOutput.serialize_to outputs) (concat_map OutputLaws.wire outputs)
Writes-outputs outputs h =
    Writes-each OutputLaws.Fits AssetOutput.serialize_to OutputLaws.wire
      OutputLaws.Writes-serialize_to outputs h

pub Writes-if_valid :
    {r : Throws (Unit {0})} {w : Writer} {bytes : List ℕ}
    → r ≡ ok tt
    → Writes w bytes
    → Writes (if_valid r w) bytes
unfolding if_valid
Writes-if_valid h hw = record { appends = λ buffer. rw (if_valid, h) (hw.appends buffer) }

pub Writes-serialize_to :
    (outputs : List AssetOutput) → IsValid outputs → Writes (serialize_to outputs) (wire outputs)
unfolding serialize_to
Writes-serialize_to outputs v = Writes-if_valid ((AssetOutputs-validate_iff outputs).1 v) (
    Writes-then (Writes-write_var_uint (length outputs))
      (Writes-outputs outputs (All-Fits outputs v.0)))

Reads-read_outputs :
    (outputs : List AssetOutput)
    → IsValid outputs
    → Reads (read_outputs (length outputs)) (concat_map OutputLaws.wire outputs) outputs
unfolding read_outputs
Reads-read_outputs outputs v =
    Reads-last _
      (Reads-times OutputLaws.Fits AssetOutput.from_reader OutputLaws.wire
        OutputLaws.Reads-from_reader outputs (All-Fits outputs v.0))
      (Reads-check (validated-eq-ok validate outputs ((AssetOutputs-validate_iff outputs).1 v)))

pub Reads-from_reader :
    (outputs : List AssetOutput) → IsValid outputs → Reads from_reader (wire outputs) outputs
unfolding from_reader
Reads-from_reader [] v = Reads-bind _ (Reads-read_var_uint 0) (Reads-return [])
Reads-from_reader (output ∷ outputs) v =
    let some : (suc (length outputs) == 0) ≡ false = ground arith in
    Reads-bind _ (Reads-read_var_uint (length (output ∷ outputs)))
      (rw some (Reads-read_outputs (output ∷ outputs) v))

pub wire-IsByte : (outputs : List AssetOutput) → IsValid outputs → All IsByte (wire outputs)
wire-IsByte outputs v = All-append IsByte (var_uint (length outputs)) _ (var_uint-IsByte _) (
    concat_map-IsByte OutputLaws.Fits OutputLaws.wire OutputLaws.wire-IsByte outputs
      (All-Fits outputs v.0))

IsValid-outputs :
    (outputs made : List AssetOutput) → validated validate outputs ≡ ok made → IsValid made
IsValid-outputs outputs made h =
    let (valid, same) = validated-eq-ok_inv validate outputs h in
    subst IsValid same ((AssetOutputs-validate_iff outputs).0 valid)

-- Every list that is read is valid.
pub Yields-from_reader : Yields from_reader IsValid
unfolding from_reader read_outputs
Yields-from_reader = Yields-bind _ Yields-read_var_uint λ count _. elim (Bool-cases (count == 0)) [
  | inl none ↦ rw none (Yields-return IsValid [] (tt, tt))
  | inr some ↦ rw some (
      Yields-bind _ (Yields-times OutputLaws.Fits _ OutputLaws.Yields-from_reader count)
        λ outputs _. Yields-check IsValid _ (λ made h. IsValid-outputs outputs made h))
]
