-- ===== src/Wallet/Asset.antt =====
-- packages/ts-sdk/src/wallet/asset.ts: choosing the coins that pay an asset, and its change.
pub mod Laws
use congenial_giggle.Common.{
  filter, ℕ, suc, Bool, true, false, not, List, [], ◌∷◌, Option, none, some, Result, ok, err,
  if◌then◌else◌, is_empty, any,
}
use congenial_giggle.Common.Int.{ℤ, pos, ◌+ℤ◌, ◌-ℤ◌, ltb_ℤ}
use congenial_giggle.Common.Dict.{Dict, get, set}
use congenial_giggle.Common.Sorting.{sort}
use congenial_giggle.Extension.Asset.Hex.{Text}
use congenial_giggle.Extension.Asset.Packet.{same_text}
use congenial_giggle.Utils.TransactionHistory.{Asset, VirtualCoin, or_zero}

-- "Insufficient asset balance", with what there is and what is needed.
pub data Error : Type 0 where
  insufficient : ℤ → ℤ → Error

-- `assets?.find((a) => a.assetId === assetId)?.amount ?? 0`
abbrev pub find_amount : Text → List Asset → ℤ
find_amount id [] = pos 0
find_amount id (a ∷ assets) =
    let rest = find_amount id assets in if same_text a.asset_id id then a.amount else rest

abbrev pub has_asset : Text → VirtualCoin → Bool
has_asset id coin = any (λ a. same_text a.asset_id id) coin.assets

abbrev pub amount_of_coin : Text → VirtualCoin → ℤ
amount_of_coin id coin = find_amount id coin.assets

-- `(a, b) => amountA - amountB`
abbrev pub is_smaller : Text → VirtualCoin → VirtualCoin → Bool
is_smaller id a b = ltb_ℤ (amount_of_coin id a) (amount_of_coin id b)

pub record Selection : Type 0 where
  pub selected : List VirtualCoin
  pub total_asset_amount : ℤ

-- The loop, from a total on: it stops at the first coin for which the total is enough.
unfoldable pub select_loop : Text → ℤ → List VirtualCoin → ℤ → Selection
select_loop id required [] total = record { selected = []; total_asset_amount = total }
select_loop id required (coin ∷ coins) total =
    let rest = select_loop id required coins (total +ℤ amount_of_coin id coin) in
    if ltb_ℤ total required
    then record { selected = coin ∷ rest.selected; total_asset_amount = rest.total_asset_amount }
    else record { selected = []; total_asset_amount = total }

unfoldable pub coins_with_asset : Text → List VirtualCoin → List VirtualCoin
coins_with_asset id coins = sort (is_smaller id) (filter (has_asset id) coins)

unfoldable pub select_coins_with_asset : List VirtualCoin → Text → ℤ → Result Error Selection
select_coins_with_asset coins id required =
    let selection = select_loop id required (coins_with_asset id coins) (pos 0) in
    if ltb_ℤ selection.total_asset_amount required
    then err (insufficient selection.total_asset_amount required)
    else ok selection

-- The loop of `computeAssetChange`.
unfoldable pub change_loop : Dict Text ℤ → Dict Text ℤ → Dict Text ℤ → Dict Text ℤ
change_loop output_assets [] change = change
change_loop output_assets ((id, input_amount) ∷ inputs) change =
    let change_amount = input_amount -ℤ or_zero (get same_text id output_assets) in
    let more = set same_text id change_amount change in
    change_loop output_assets inputs (if ltb_ℤ (pos 0) change_amount then more else change)

unfoldable pub compute_asset_change : Dict Text ℤ → Dict Text ℤ → Dict Text ℤ
compute_asset_change input_assets output_assets = change_loop output_assets input_assets []

-- The assets of the coins that have some, each under its input's index.
unfoldable pub inputs_from : ℕ → List VirtualCoin → Dict ℕ (List Asset)
inputs_from index [] = []
inputs_from index (coin ∷ coins) =
    let rest = inputs_from (suc index) coins in
    if is_empty coin.assets then rest else (index, coin.assets) ∷ rest

unfoldable pub selected_coins_to_asset_inputs : List VirtualCoin → Dict ℕ (List Asset)
selected_coins_to_asset_inputs coins = inputs_from 0 coins
