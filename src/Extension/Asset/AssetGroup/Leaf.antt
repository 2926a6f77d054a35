-- ===== src/Extension/Asset/AssetGroup/Leaf.antt =====
-- The group of a batch leaf: one intent input in place of the inputs.
use congenial_giggle.Common.{
  is_some, ℕ, ◌≡◌, refl, arith, inl, inr, ◌⊎◌, Bool-cases, true, false, List, [], ◌∷◌, ok, err, All,
  length, is_empty, ◌==◌,
}
use congenial_giggle.Common.Int.{pos}
use congenial_giggle.Extension.Errors.{issuance_with_inputs, invalid_intent_txid_format}
use congenial_giggle.Extension.Bytes.{IsByte, is_zero_bytes, validated}
use congenial_giggle.Extension.Asset.Hex.{Hex}
use congenial_giggle.Extension.Asset.Hex.Laws.{with_decoded-encode}
use congenial_giggle.Extension.Asset.AssetInput
use congenial_giggle.Extension.Asset.AssetInput.{AssetInput, intent}
use congenial_giggle.Extension.Asset.AssetGroup.{
  AssetGroup, is_issuance, validate, with_inputs, to_batch_leaf_asset_group,
}
use congenial_giggle.Extension.Asset.AssetGroup.Laws.{IsValid}

-- A transaction id whose encoding is not the empty text.
pub record IsTxid (hex : Hex) (txid : List ℕ) : Type 0 where
  pub bytes : All IsByte txid
  pub size : length txid ≡ 32
  pub not_zero : is_zero_bytes txid ≡ false
  pub printed : is_empty (hex.encode txid) ≡ false

abbrev pub leaf_of : List ℕ → AssetGroup → AssetGroup
leaf_of txid group = with_inputs group (intent txid (pos 0) (pos 0) ∷ [])

module _ (hex : Hex) (txid : List ℕ) (t : IsTxid hex txid) where
  create_leaf :
      AssetInput.create_intent hex (hex.encode txid) (pos 0) (pos 0)
      ≡ ok (intent txid (pos 0) (pos 0))
  unfolding AssetInput.create_intent AssetInput.validate validated
  create_leaf =
      let size : (length txid == 32) ≡ true = ground (arith, t.size) in
      rw (
        t.printed,
        with_decoded-encode hex invalid_intent_txid_format txid _ t.bytes,
        size,
        validated,
        AssetInput.validate,
        t.not_zero,
      )

  to_batch_leaf-leaf_of :
      (group : AssetGroup) → to_batch_leaf_asset_group hex txid group ≡ ok (leaf_of txid group)
  unfolding to_batch_leaf_asset_group
  to_batch_leaf-leaf_of group = rw (to_batch_leaf_asset_group, create_leaf)

  leaf-IsValid :
      (group : AssetGroup)
      → IsValid group
      → is_some group.asset_id ≡ true
      → IsValid (leaf_of txid group)
  leaf-IsValid group v issued = record {
    id = v.id;
    control = v.control;
    inputs = ((((t.size, t.bytes, omega arith, tt), t.not_zero), tt), inr (t.not_zero, tt));
    outputs = v.outputs;
    metadata = v.metadata;
    metadata_fits = v.metadata_fits;
    shaped = record { not_empty = refl; issuance = λ missing. cc; other = v.shaped.other };
  }

  -- The leaf of a valid group exists, with one intent input of amount 0 and all else unchanged. It
  -- is a valid group again if the group has an asset id; the leaf of an issuance is a group that
  -- `validate` rejects.
  pub leaf-cases :
      (group : AssetGroup)
      → IsValid group
      → (to_batch_leaf_asset_group hex txid group ≡ ok (leaf_of txid group))
        × (((is_some group.asset_id ≡ true) × IsValid (leaf_of txid group))
            ⊎ ((is_some group.asset_id ≡ false)
                × (validate (leaf_of txid group) ≡ err issuance_with_inputs)))
  unfolding validate is_issuance
  leaf-cases group v = (
    to_batch_leaf-leaf_of group,
    elim (Bool-cases (is_some group.asset_id)) [
      | inl issued ↦ inl (issued, leaf-IsValid group v issued)
      | inr issuance ↦ inr (issuance, rw (validate, is_issuance, issuance))
    ],
  )
