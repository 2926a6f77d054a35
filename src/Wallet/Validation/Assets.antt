-- ===== src/Wallet/Validation/Assets.antt =====
-- What the check of a recipient's assets ensures.
use congenial_giggle.Common.{
  ℕ, zero, suc, ◌≡◌, refl, subst, ap, arith, Bool, true, false, List, [], ◌∷◌, Option, none, some,
  ok, err, All, map, Bool-cases, inl, inr,
}
use congenial_giggle.Common.Results.{parts_ok, thrown}
use congenial_giggle.Common.Int.{ℤ, pos, eq_ℤ, eq_ℤ_iff}
use congenial_giggle.Extension.Errors
use congenial_giggle.Extension.Script.{ScriptDecoder}
use congenial_giggle.Extension.Envelope.{ExtensionPacket, get_asset_packet, from_tx}
use congenial_giggle.Extension.Asset.Hex.{Text, Hex}
use congenial_giggle.Extension.Asset.AssetId
use congenial_giggle.Extension.Asset.AssetGroup.{AssetGroup}
use congenial_giggle.Extension.Asset.AssetOutput.{AssetOutput}
use congenial_giggle.Extension.Asset.Packet.{Packet}
use congenial_giggle.Extension.Asset.Packet.Laws.{same_text_iff}
use congenial_giggle.Tree.TxTree.{Transaction, get_elem}
use congenial_giggle.Utils.TransactionHistory.{Asset}
use congenial_giggle.Wallet.Validation.{
  find_asset_output, is_group, find_group, check_asset_output, check_group,
  validate_asset_group_output, validate_assets, is_key, is_id, found_or, packet_or, packet_of,
  validate_asset_outputs,
}

module _ (hex : Hex) where
  -- A group of the asset has an output at the index with the amount.
  pub record Carries (packet : Packet) (index : ℕ) (asset : Asset) : Type 0 where
    pub group_at : ℕ
    pub group : AssetGroup
    pub id : AssetId.AssetId
    pub output_at : ℕ
    pub output : AssetOutput
    pub of_packet : get_elem packet group_at ≡ some group
    pub has_id : group.asset_id ≡ some id
    pub named : AssetId.to_string hex id ≡ ok asset.asset_id
    pub of_group : get_elem group.outputs output_at ≡ some output
    pub at_index : output.vout ≡ pos index
    pub has_amount : output.amount ≡ asset.amount

  here_at :
      (index : ℤ) (a b : AssetOutput)
      → ◌≡◌ {A = Option AssetOutput} (some a) (some b)
      → a.vout ≡ index
      → b.vout ≡ index
  here_at index a b e h = cc

  find_asset_output_lem :
      (index : ℕ) (outputs : List AssetOutput) (o : AssetOutput)
      → find_asset_output index outputs ≡ some o
      → (k : ℕ) × (get_elem outputs k ≡ some o) × (o.vout ≡ pos index)
  unfolding find_asset_output
  find_asset_output_lem index [] o h = absurd cc
  find_asset_output_lem index (output ∷ outputs) o h =
      elim (Bool-cases (eq_ℤ output.vout (pos index))) [
        | inl here ↦
            let e : ◌≡◌ {A = Option AssetOutput} (some output) (some o) = ground (arith, here, h) in
            (
              zero,
              e,
              here_at (pos index) output o e (ground (arith, eq_ℤ_iff output.vout (pos index))),
            )
        | inr there ↦
            let (k, at, e) = find_asset_output_lem index outputs o (ground (arith, there, h)) in
            (suc k, at, e)
      ]

  is_key-eq :
      (asset_id : Text) (r : Errors.Throws Text) → is_key hex asset_id r ≡ ok true → r ≡ ok asset_id
  is_key-eq asset_id (err e) h = absurd (thrown h)
  is_key-eq asset_id (ok key) h = ground (arith, same_text_iff key asset_id, h)

  is_id-named :
      (asset_id : Text) (o : Option AssetId.AssetId)
      → is_id hex asset_id o ≡ ok true
      → (id : AssetId.AssetId) × (o ≡ some id) × (AssetId.to_string hex id ≡ ok asset_id)
  is_id-named asset_id none h = absurd cc
  is_id-named asset_id (some id) h = (id, refl, is_key-eq asset_id _ h)

  abbrev Found : Text → Packet → AssetGroup → Type 0
  Found asset_id packet group =
      (k : ℕ) × (get_elem packet k ≡ some group) × (is_group hex asset_id group ≡ ok true)

  found_or-Found :
      (asset_id : Text) (first group : AssetGroup) (groups : Packet) (r : Errors.Throws Bool)
      → is_group hex asset_id first ≡ r
      → (find_group hex asset_id groups ≡ ok (some group) → Found asset_id groups group)
      → found_or hex first (find_group hex asset_id groups) r ≡ ok (some group)
      → Found asset_id (first ∷ groups) group
  found_or-Found asset_id first group groups (err e) named below h = absurd (thrown h)
  found_or-Found asset_id first group groups (ok true) named below h =
      let e : first ≡ group = cc in
      (zero, ap some e, subst (λ g. is_group hex asset_id g ≡ ok true) e named)
  found_or-Found asset_id first group groups (ok false) named below h =
      let (k, at, is_it) = below h in (suc k, at, is_it)

  find_group-Found :
      (asset_id : Text) (packet : Packet) (group : AssetGroup)
      → find_group hex asset_id packet ≡ ok (some group)
      → Found asset_id packet group
  unfolding find_group
  find_group-Found asset_id [] group h = absurd cc
  find_group-Found asset_id (first ∷ groups) group h =
      found_or-Found asset_id first group groups _ refl (find_group-Found asset_id groups group) h

  check_asset_output-ok :
      (asset_id : Text) (index : ℕ) (expected : ℤ) (o : Option AssetOutput)
      → check_asset_output hex asset_id index expected o ≡ ok tt
      → (output : AssetOutput) × (o ≡ some output) × (output.amount ≡ expected)
  check_asset_output-ok asset_id index expected none h = absurd (thrown h)
  check_asset_output-ok asset_id index expected (some o) h =
      (o, refl, ground (arith, eq_ℤ_iff o.amount expected, h))

  check_group-Carries :
      (packet : Packet) (index : ℕ) (asset : Asset) (r : Errors.Throws (Option AssetGroup))
      → find_group hex asset.asset_id packet ≡ r
      → check_group hex asset.asset_id index asset.amount r ≡ ok tt
      → Carries packet index asset
  check_group-Carries packet index asset (err e) found h = absurd (thrown h)
  check_group-Carries packet index asset (ok none) found h = absurd (thrown h)
  check_group-Carries packet index asset (ok (some group)) found h =
      let (output, here, amount) =
        check_asset_output-ok asset.asset_id index asset.amount
          (find_asset_output index group.outputs) h in
      let (k, of_group, at_index) = find_asset_output_lem index group.outputs output here in
      let (j, of_packet, is_it) = find_group-Found asset.asset_id packet group found in
      let (id, has_id, named) = is_id-named asset.asset_id group.asset_id is_it in
      record {
        group_at = j;
        group = group;
        id = id;
        output_at = k;
        output = output;
        of_packet = of_packet;
        has_id = has_id;
        named = named;
        of_group = of_group;
        at_index = at_index;
        has_amount = amount;
      }

  validate_assets-Carries :
      (packet : Packet) (index : ℕ) (assets : List Asset)
      → validate_assets hex packet index assets ≡ ok tt
      → All (Carries packet index) assets
  unfolding validate_assets validate_asset_group_output
  validate_assets-Carries packet index [] h = tt
  validate_assets-Carries packet index (asset ∷ assets) h =
      let (u, here, rest) =
        parts_ok
          (check_group hex asset.asset_id index asset.amount (find_group hex asset.asset_id packet))
          _ h in
      (
        check_group-Carries packet index asset _ refl here,
        validate_assets-Carries packet index assets rest,
      )

  -- The scripts of a transaction have an extension with an asset packet, which carries the assets.
  pub record HasAssets (script_decoder : ScriptDecoder) (leaf : Transaction) (index : ℕ)
      (assets : List Asset) : Type 0 where
    pub packets : List ExtensionPacket
    pub packet : Packet
    pub of_scripts : from_tx hex script_decoder (map (λ o. o.script) leaf.outputs) ≡ ok packets
    pub of_extension : get_asset_packet packets ≡ some packet
    pub carried : All (Carries packet index) assets

  packet_or-some :
      (script_decoder : ScriptDecoder) (o : Option Packet) (packet : Packet)
      → packet_or hex script_decoder o ≡ ok packet
      → o ≡ some packet
  packet_or-some script_decoder none packet h = absurd (thrown h)
  packet_or-some script_decoder (some p) packet h = cc

  packet_of-HasAssets :
      (script_decoder : ScriptDecoder) (leaf : Transaction) (index : ℕ) (assets : List Asset)
      (packet : Packet) (r : Errors.Throws (List ExtensionPacket))
      → from_tx hex script_decoder (map (λ o. o.script) leaf.outputs) ≡ r
      → packet_of hex script_decoder r ≡ ok packet
      → validate_assets hex packet index assets ≡ ok tt
      → HasAssets script_decoder leaf index assets
  packet_of-HasAssets script_decoder leaf index assets packet (err e) read h valid =
      absurd (thrown h)
  packet_of-HasAssets script_decoder leaf index assets packet (ok packets) read h valid = record {
    packets = packets;
    packet = packet;
    of_scripts = read;
    of_extension = packet_or-some script_decoder (get_asset_packet packets) packet h;
    carried = validate_assets-Carries packet index assets valid;
  }

  pub validate_asset_outputs-HasAssets :
      (script_decoder : ScriptDecoder) (leaf : Transaction) (index : ℕ) (assets : List Asset)
      → validate_asset_outputs hex script_decoder leaf index assets ≡ ok tt
      → HasAssets script_decoder leaf index assets
  unfolding validate_asset_outputs
  validate_asset_outputs-HasAssets script_decoder leaf index assets h =
      let (packet, read, valid) =
        parts_ok
          (packet_of hex script_decoder
            (from_tx hex script_decoder (map (λ o. o.script) leaf.outputs)))
          _ h in
      packet_of-HasAssets script_decoder leaf index assets packet _ refl read valid
