-- ===== src/Examples/Coins.antt =====
-- Coins, contracts and their options: the theorems at concrete inputs.
use congenial_giggle.Common.{
  All, filter, ℕ, ◌≡◌, refl, ◌⊎◌, ◌↔◌, true, false, List, [], ◌∷◌, Option, none, some, ok, err,
}
use congenial_giggle.Common.Int.{ℤ, pos, ◌-ℤ◌, ltb_ℤ}
use congenial_giggle.Extension.Asset.Hex.{Text}
use congenial_giggle.Examples.Codecs.{hex}
use congenial_giggle.Utils.TransactionHistory.{
  collect_assets, subtract_assets, VirtualCoin, add_all,
}
use congenial_giggle.Utils.TransactionHistory.Laws as HistoryLaws
use congenial_giggle.Utils.TransactionHistory.Assets as AssetLaws
use congenial_giggle.Contracts.Handlers.{
  Bip68, RelativeTimelock, blocks, seconds, Params, PathContext, sender, resolve_role,
  is_cltv_satisfied,
}
use congenial_giggle.Contracts.Handlers.Vhtlc.{
  PathSelection, refund_without_receiver, refund_path, select_collaborative, select_path,
}
use congenial_giggle.Contracts.Handlers.Vhtlc.Laws as PathLaws
use congenial_giggle.Contracts.Handlers.Vhtlc.Needs as PathNeeds
use congenial_giggle.Scripts.Vhtlc as VhtlcScript
use congenial_giggle.Wallet.Asset.{Selection, insufficient, has_asset, select_coins_with_asset}
use congenial_giggle.Wallet.Asset.Laws as CoinLaws

abbrev coin_id : Text
coin_id = 97 ∷ []

-- Two coins that the transaction "b" has spent, and its change.
abbrev spent_coin : Text → ℕ → VirtualCoin
spent_coin txid value = record {
  txid = txid;
  value = value;
  created_at = value;
  is_leaf = false;
  is_spent = true;
  settled_by = none;
  ark_tx_id = some (98 ∷ []);
  commitment_tx_ids = [];
  assets = record { asset_id = coin_id; amount = pos value } ∷ [];
}

abbrev change_coin : VirtualCoin
change_coin = record (spent_coin (98 ∷ []) 30) { is_spent = false; ark_tx_id = none }

abbrev coins : List VirtualCoin
coins = change_coin ∷ spent_coin (120 ∷ []) 20 ∷ spent_coin (121 ∷ []) 15 ∷ []

add_all-once_example :
    let history = add_all coins [] none coins (record { sent_txs = []; received_txs = [] }) in
    HistoryLaws.AreDistinct history.sent_txs
    × All (λ v. HistoryLaws.is_listed history.sent_txs v ≡ true) coins
add_all-once_example = HistoryLaws.add_all-once coins [] none

abbrev two_spent : List VirtualCoin
two_spent = spent_coin (120 ∷ []) 20 ∷ spent_coin (121 ∷ []) 15 ∷ []

listed-subtract_assets_example :
    (AssetLaws.listed coin_id (collect_assets two_spent) ≡ AssetLaws.amount_of coin_id two_spent)
    × (AssetLaws.listed coin_id (subtract_assets two_spent (change_coin ∷ []))
        ≡ AssetLaws.amount_of coin_id (change_coin ∷ []) -ℤ AssetLaws.amount_of coin_id two_spent)
listed-subtract_assets_example =
    AssetLaws.listed-subtract_assets coin_id two_spent (change_coin ∷ [])

select_coins_with_asset-cases_example :
    ((s : Selection) × (select_coins_with_asset coins coin_id (pos 40) ≡ ok s)
      × (s.total_asset_amount ≡ CoinLaws.sum_of coin_id s.selected)
      × (ltb_ℤ s.total_asset_amount (pos 40) ≡ false))
    ⊎ ((have : ℤ) × (select_coins_with_asset coins coin_id (pos 40)
          ≡ err (insufficient have (pos 40)))
        × (have ≡ CoinLaws.sum_of coin_id (filter (has_asset coin_id) coins))
        × (ltb_ℤ have (pos 40) ≡ true))
select_coins_with_asset-cases_example =
    CoinLaws.select_coins_with_asset-cases coins coin_id (pos 40)

-- A sequence for seconds alone, which it is.
encode_timelock : RelativeTimelock → Option ℕ
encode_timelock (blocks n) = none
encode_timelock (seconds n) = some n

decode-encode_timelock :
    (timelock : RelativeTimelock) (sequence : ℕ)
    → encode_timelock timelock ≡ some sequence
    → some (seconds sequence) ≡ some timelock
unfolding encode_timelock
decode-encode_timelock (blocks n) sequence h = absurd (cc)
decode-encode_timelock (seconds n) sequence h = cc

abbrev bip68 : Bip68
bip68 = record {
  encode = encode_timelock;
  decode = λ sequence. some (seconds sequence);
  decode-encode = decode-encode_timelock;
}

abbrev params : Params
params = record {
  sender_key = 1 ∷ [];
  receiver_key = 2 ∷ [];
  preimage = none;
  refund_locktime = some 800;
  claim_delay = 512;
  refund_no_receiver_delay = 1024;
}

abbrev context : PathContext
context = record {
  role = some sender;
  wallet_pub_key = none;
  collaborative = true;
  block_height = some 801;
  current_time = 0;
  vtxo = none;
}

abbrev refund_selection : PathSelection
refund_selection = record { leaf = refund_without_receiver; extra_witness = none; sequence = none }

refund_is_selected : select_path hex bip68 params context ≡ ok (some refund_selection)
unfolding select_path resolve_role select_collaborative is_cltv_satisfied refund_path
refund_is_selected = refl

select_path-needs_example : PathNeeds.NeedsPath bip68 params context refund_without_receiver
select_path-needs_example =
    PathNeeds.select_path-needs hex bip68 params context refund_selection refund_is_selected

abbrev key : List ℕ
key =
    1 ∷ 2 ∷ 3 ∷ 4 ∷ 5 ∷ 6 ∷ 7 ∷ 8 ∷ 9 ∷ 10 ∷ 11 ∷ 12 ∷ 13 ∷ 14 ∷ 15 ∷ 16 ∷ 17 ∷ 18 ∷ 19 ∷ 20 ∷ 21
    ∷ 22 ∷ 23 ∷ 24 ∷ 25 ∷ 26 ∷ 27 ∷ 28 ∷ 29 ∷ 30 ∷ 31 ∷ 32 ∷ []

abbrev options : VhtlcScript.Options
options = record {
  sender = key;
  receiver = key;
  server = key;
  preimage_hash =
      1 ∷ 2 ∷ 3 ∷ 4 ∷ 5 ∷ 6 ∷ 7 ∷ 8 ∷ 9 ∷ 10 ∷ 11 ∷ 12 ∷ 13 ∷ 14 ∷ 15 ∷ 16 ∷ 17 ∷ 18 ∷ 19 ∷ 20 ∷ [];
  refund_locktime = pos 800;
  unilateral_claim_delay = record { delay_type = VhtlcScript.blocks; value = pos 100 };
  unilateral_refund_delay = record { delay_type = VhtlcScript.seconds; value = pos 1024 };
  unilateral_refund_without_receiver_delay = record {
    delay_type = VhtlcScript.seconds;
    value = pos 100;
  };
}

validate_options_iff_example :
    (VhtlcScript.validate_options options ≡ ok tt) ↔ VhtlcScript.IsValid options
validate_options_iff_example = VhtlcScript.validate_options_iff options
