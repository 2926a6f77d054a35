-- ===== src/Wallet/Validation.antt =====
-- packages/ts-sdk/src/wallet/validation.ts: whether a batch pays the recipients. Bech32m, the
-- decoder of onchain addresses, the encoder of scripts and `Extension.fromTx` on a transaction's
-- scripts, with what it takes, are parameters.
pub mod Laws
pub mod Assets
use congenial_giggle.Common.{
  ℕ, suc, Bool, true, false, ◌&&◌, ◌||◌, not, List, [], ◌∷◌, Option, none, some, Result, ok, err,
  ◌==◌, if◌then◌else◌, is_empty, any, map,
}
use congenial_giggle.Common.Int.{ℤ, pos, eq_ℤ}
use congenial_giggle.Common.Results.{◌>>=◌}
use congenial_giggle.Extension.Errors
use congenial_giggle.Extension.Script.{ScriptDecoder, ScriptEncoder}
use congenial_giggle.Extension.Envelope.{ExtensionPacket, get_asset_packet, from_tx}
use congenial_giggle.Extension.Asset.Hex.{Text, Hex}
use congenial_giggle.Extension.Asset.AssetId
use congenial_giggle.Extension.Asset.AssetGroup.{AssetGroup}
use congenial_giggle.Extension.Asset.AssetOutput.{AssetOutput}
use congenial_giggle.Extension.Asset.Packet.{Packet, same_text}
use congenial_giggle.Scripts.Address
use congenial_giggle.Scripts.Address.{Bech32m, ArkAddress, pk_script}
use congenial_giggle.Tree.TxTree.{TxOutput, Transaction}
use congenial_giggle.Utils.TransactionHistory.{Asset}

pub record Recipient : Type 0 where
  pub address : Text
  pub amount : Option ℕ
  pub assets : List Asset

pub data Error : Type 0 where
  offchain_output_not_found onchain_output_not_found : Text → Error
  invalid_offchain_output_amount invalid_onchain_output_amount : Text → Error
  invalid_onchain_output_assets : Text → Error
  asset_group_not_found : Text → Error
  asset_output_not_found : Text → ℕ → Error
  invalid_asset_output_amount : ℤ → ℤ → Text → Error
  no_asset_packet : Error
  extension : Errors.Error → Error
  -- thrown by the package
  not_an_address : Error

-- The two sets `usedOutputs`: pairs of a leaf and an output, and outputs of the commitment.
pub record Used : Type 0 where
  pub offchain : List (ℕ × ℕ)
  pub onchain : List ℕ

abbrev pub has_key : ℕ → ℕ → List (ℕ × ℕ) → Bool
has_key leaf output [] = false
has_key leaf output ((l, o) ∷ used) = (l == leaf && o == output) || has_key leaf output used

abbrev pub has_index : ℕ → List ℕ → Bool
has_index i used = any (λ j. j == i) used

abbrev pub has_script : Option (List ℕ) → List ℕ → Bool
has_script none expected = false
has_script (some script) expected = not (is_empty script) && same_text script expected

abbrev pub has_amount : Option ℕ → ℕ → Bool
has_amount none expected = false
has_amount (some amount) expected = amount == expected

abbrev pub pays : TxOutput → List ℕ → ℕ → Bool
pays output expected_script expected_amount =
    has_script output.script expected_script && has_amount output.amount expected_amount

-- The first unused output from the index on with the script and the amount.
unfoldable pub find_output : (ℕ → Bool) → List ℕ → ℕ → ℕ → List TxOutput → Option ℕ
find_output is_used expected_script expected_amount i [] = none
find_output is_used expected_script expected_amount i (output ∷ outputs) =
    let rest = find_output is_used expected_script expected_amount (suc i) outputs in
    if pays output expected_script expected_amount && not (is_used i) then some i else rest

-- The first leaf with such an output, its index and that of the output.
unfoldable pub find_leaf :
    List (ℕ × ℕ) → List ℕ → ℕ → ℕ → List Transaction → Option (Transaction × ℕ × ℕ)
find_leaf used expected_script expected_amount i [] = none
find_leaf used expected_script expected_amount i (leaf ∷ leaves) =
    let rest = find_leaf used expected_script expected_amount (suc i) leaves in
    elim (find_output (λ o. has_key i o used) expected_script expected_amount 0 leaf.outputs) [
      | none ↦ rest
      | some o ↦ some (leaf, i, o)
    ]

-- `0` counts as no amount.
abbrev pub amount_or : Option ℕ → Error → Result Error ℕ
amount_or none e = err e
amount_or (some amount) e = if amount == 0 then err e else ok amount

-- `group.outputs.find((output) => output.vout === outputIndex)`
unfoldable pub find_asset_output : ℕ → List AssetOutput → Option AssetOutput
find_asset_output index [] = none
find_asset_output index (o ∷ outputs) =
    let rest = find_asset_output index outputs in if eq_ℤ o.vout (pos index) then some o else rest

module _ (hex : Hex) where
  abbrev pub is_key : Text → Errors.Throws Text → Errors.Throws Bool
  is_key asset_id (err e) = err e
  is_key asset_id (ok key) = ok (same_text key asset_id)

  abbrev pub is_id : Text → Option AssetId.AssetId → Errors.Throws Bool
  is_id asset_id none = ok false
  is_id asset_id (some id) = is_key asset_id (AssetId.to_string hex id)

  -- `group.assetId!.toString() === assetId`, for a group that has an id.
  abbrev pub is_group : Text → AssetGroup → Errors.Throws Bool
  is_group asset_id group = is_id asset_id group.asset_id

  abbrev pub found_or :
      AssetGroup
      → Errors.Throws (Option AssetGroup)
      → Errors.Throws Bool
      → Errors.Throws (Option AssetGroup)
  found_or group rest (err e) = err e
  found_or group rest (ok found) = if found then ok (some group) else rest

  unfoldable pub find_group : Text → Packet → Errors.Throws (Option AssetGroup)
  find_group asset_id [] = ok none
  find_group asset_id (group ∷ groups) =
      let rest = find_group asset_id groups in found_or group rest (is_group asset_id group)

  abbrev pub check_asset_output : Text → ℕ → ℤ → Option AssetOutput → Result Error (Unit {0})
  check_asset_output asset_id index expected none = err (asset_output_not_found asset_id index)
  check_asset_output asset_id index expected (some o) =
      if eq_ℤ o.amount expected
      then ok tt
      else err (invalid_asset_output_amount o.amount expected asset_id)

  abbrev pub check_group :
      Text → ℕ → ℤ → Errors.Throws (Option AssetGroup) → Result Error (Unit {0})
  check_group asset_id index expected (err e) = err (extension e)
  check_group asset_id index expected (ok none) = err (asset_group_not_found asset_id)
  check_group asset_id index expected (ok (some group)) =
      check_asset_output asset_id index expected (find_asset_output index group.outputs)

  unfoldable pub validate_asset_group_output : Packet → ℕ → Text → ℤ → Result Error (Unit {0})
  validate_asset_group_output packet index asset_id expected =
      check_group asset_id index expected (find_group asset_id packet)

  unfoldable pub validate_assets : Packet → ℕ → List Asset → Result Error (Unit {0})
  validate_assets packet index [] = ok tt
  validate_assets packet index (asset ∷ assets) =
      let rest = validate_assets packet index assets in
      validate_asset_group_output packet index asset.asset_id asset.amount >>= λ _. rest

  module _ (script_decoder : ScriptDecoder) where
    abbrev pub packet_or : Option Packet → Result Error Packet
    packet_or none = err no_asset_packet
    packet_or (some packet) = ok packet

    abbrev pub packet_of : Errors.Throws (List ExtensionPacket) → Result Error Packet
    packet_of (err e) = err (extension e)
    packet_of (ok packets) = packet_or (get_asset_packet packets)

    unfoldable pub validate_asset_outputs : Transaction → ℕ → List Asset → Result Error (Unit {0})
    validate_asset_outputs leaf index assets =
        packet_of (from_tx hex script_decoder (map (λ o. o.script) leaf.outputs)) >>= λ packet.
        validate_assets packet index assets

    -- The output is marked as used, then its assets are checked where there are some.
    abbrev pub take_leaf : Recipient → Used → Option (Transaction × ℕ × ℕ) → Result Error Used
    take_leaf recipient used none = err (offchain_output_not_found recipient.address)
    take_leaf recipient used (some (leaf, l, o)) =
        let used' : Used = record used { offchain = (l, o) ∷ used.offchain } in
        if is_empty recipient.assets
        then ok used'
        else validate_asset_outputs leaf o recipient.assets >>= λ _. ok used'

    module _ (encoder : ScriptEncoder) where
      unfoldable pub validate_offchain_recipient :
          List Transaction → ArkAddress → Recipient → Used → Result Error Used
      validate_offchain_recipient leaves address recipient used =
          amount_or recipient.amount (invalid_offchain_output_amount recipient.address)
          >>= λ amount.
              take_leaf recipient used
                (find_leaf used.offchain (pk_script encoder address) amount 0 leaves)

      abbrev pub take_output : Recipient → Used → Option ℕ → Result Error Used
      take_output recipient used none = err (onchain_output_not_found recipient.address)
      take_output recipient used (some i) = ok (record used { onchain = i ∷ used.onchain })

      -- With the script of the address, `none` where it does not decode.
      unfoldable pub validate_onchain_recipient :
          Transaction → Option (List ℕ) → Recipient → Used → Result Error Used
      validate_onchain_recipient commitment_tx none recipient used = err not_an_address
      validate_onchain_recipient commitment_tx (some script) recipient used =
          amount_or recipient.amount (invalid_onchain_output_amount recipient.address) >>= λ amount.
          if is_empty recipient.assets
          then take_output recipient used
              (find_output (λ i. has_index i used.onchain) script amount 0 commitment_tx.outputs)
          else err (invalid_onchain_output_assets recipient.address)

      module _ (bech32m : Bech32m) (decode_onchain : Text → Option (List ℕ)) where
        abbrev pub validate_at :
            Transaction
            → List Transaction
            → Recipient
            → Used
            → Result Address.Error ArkAddress
            → Result Error Used
        validate_at commitment_tx leaves recipient used (ok address) =
            validate_offchain_recipient leaves address recipient used
        validate_at commitment_tx leaves recipient used (err e) =
            validate_onchain_recipient commitment_tx (decode_onchain recipient.address) recipient
              used

        unfoldable pub validate_recipients :
            Transaction → List Transaction → Used → List Recipient → Result Error (Unit {0})
        validate_recipients commitment_tx leaves used [] = ok tt
        validate_recipients commitment_tx leaves used (recipient ∷ recipients) =
            validate_at commitment_tx leaves recipient used
              (Address.decode bech32m recipient.address)
            >>= λ used'. validate_recipients commitment_tx leaves used' recipients

        unfoldable pub validate_batch_recipients :
            Transaction → List Transaction → List Recipient → Result Error (Unit {0})
        validate_batch_recipients commitment_tx leaves recipients =
            validate_recipients commitment_tx leaves (record { offchain = []; onchain = [] })
              recipients
