-- ===== src/Utils/TransactionHistory/Assets.antt =====
-- The amounts of an asset that a transaction moves.
use congenial_giggle.Common.{
  ◌≡◌, refl, arith, List, [], ◌∷◌, map, Option, none, some, if◌then◌else◌,
}
use congenial_giggle.Common.Int.{ℤ, pos, ◌+ℤ◌, ◌-ℤ◌, eq_ℤ_iff, int_laws}
use congenial_giggle.Common.Dict.{Dict, get, set, delete}
use congenial_giggle.Extension.Asset.Hex.{Text}
use congenial_giggle.Extension.Asset.Packet.{same_text}
use congenial_giggle.Extension.Asset.Packet.Laws.{same_text_iff}
use congenial_giggle.Utils.TransactionHistory.{
  Asset, VirtualCoin, or_zero, add_assets, add_coins, assets_of, collect_assets, subtract_assets,
  remove_asset, remove_assets, remove_coins,
}

-- The amount of one asset among assets, and among the assets of coins.
abbrev pub amount_in : Text → List Asset → ℤ
amount_in id [] = pos 0
amount_in id (a ∷ assets) =
    (if same_text id a.asset_id then a.amount else pos 0) +ℤ amount_in id assets

abbrev pub amount_of : Text → List VirtualCoin → ℤ
amount_of id [] = pos 0
amount_of id (v ∷ coins) = amount_in id v.assets +ℤ amount_of id coins

-- What a map says of an asset.
abbrev pub balance : Text → Dict Text ℤ → ℤ
balance id amounts = or_zero (get same_text id amounts)

pub get-set :
    (id k : Text) (v : ℤ) (d : Dict Text ℤ)
    → get same_text id (set same_text k v d)
      ≡ (if same_text id k then some v else get same_text id d)
get-set id k v [] = refl
get-set id k v ((j, w) ∷ d) =
    ground (arith, get-set id k v d, same_text_iff id k, same_text_iff id j, same_text_iff k j)

get-delete :
    (id k : Text) (d : Dict Text ℤ)
    → get same_text id (delete same_text k d)
      ≡ (if same_text id k then none else get same_text id d)
get-delete id k [] = ground arith
get-delete id k ((j, w) ∷ d) =
    ground (arith, get-delete id k d, same_text_iff id k, same_text_iff id j, same_text_iff k j)

balance-add_assets :
    (id : Text) (assets : List Asset) (amounts : Dict Text ℤ)
    → balance id (add_assets assets amounts) ≡ amount_in id assets +ℤ balance id amounts
unfolding add_assets
balance-add_assets id [] amounts = grind int_laws
balance-add_assets id (a ∷ assets) amounts =
    let rest =
      balance-add_assets id assets
        (set same_text a.asset_id (balance a.asset_id amounts +ℤ a.amount) amounts) in
    let here = get-set id a.asset_id (balance a.asset_id amounts +ℤ a.amount) amounts in
    grind (int_laws, same_text_iff id a.asset_id)

balance-add_coins :
    (id : Text) (coins : List VirtualCoin) (amounts : Dict Text ℤ)
    → balance id (add_coins coins amounts) ≡ amount_of id coins +ℤ balance id amounts
unfolding add_coins
balance-add_coins id [] amounts = grind int_laws
balance-add_coins id (v ∷ coins) amounts =
    let rest = balance-add_coins id coins (add_assets v.assets amounts) in
    let here = balance-add_assets id v.assets amounts in grind int_laws

balance-remove_asset :
    (id : Text) (a : Asset) (amounts : Dict Text ℤ)
    → balance id (remove_asset a amounts)
      ≡ balance id amounts -ℤ (if same_text id a.asset_id then a.amount else pos 0)
unfolding remove_asset
balance-remove_asset id a amounts =
    let remaining = balance a.asset_id amounts -ℤ a.amount in
    let gone = get-delete id a.asset_id amounts in
    let left = get-set id a.asset_id remaining amounts in
    grind (int_laws, same_text_iff id a.asset_id, eq_ℤ_iff remaining (pos 0))

balance-remove_assets :
    (id : Text) (assets : List Asset) (amounts : Dict Text ℤ)
    → balance id (remove_assets assets amounts) ≡ balance id amounts -ℤ amount_in id assets
unfolding remove_assets
balance-remove_assets id [] amounts = grind int_laws
balance-remove_assets id (a ∷ assets) amounts =
    let rest = balance-remove_assets id assets (remove_asset a amounts) in
    let here = balance-remove_asset id a amounts in grind int_laws

balance-remove_coins :
    (id : Text) (coins : List VirtualCoin) (amounts : Dict Text ℤ)
    → balance id (remove_coins coins amounts) ≡ balance id amounts -ℤ amount_of id coins
unfolding remove_coins
balance-remove_coins id [] amounts = grind int_laws
balance-remove_coins id (v ∷ coins) amounts =
    let rest = balance-remove_coins id coins (remove_assets v.assets amounts) in
    let here = balance-remove_assets id v.assets amounts in grind int_laws

-- What a result says of an asset: the amount of its first entry with the id.
abbrev pub listed_in : Text → List Asset → ℤ
listed_in id [] = pos 0
listed_in id (a ∷ assets) =
    let rest = listed_in id assets in if same_text id a.asset_id then a.amount else rest

abbrev pub listed : Text → Option (List Asset) → ℤ
listed id none = pos 0
listed id (some assets) = listed_in id assets

listed_in-map :
    (id : Text) (amounts : Dict Text ℤ)
    → listed_in id (map (λ x. record { asset_id = x.0; amount = x.1 }) amounts) ≡ balance id amounts
listed_in-map id [] = refl
listed_in-map id ((k, v) ∷ amounts) = ground (arith, listed_in-map id amounts)

listed-assets_of :
    (id : Text) (amounts : Dict Text ℤ) → listed id (assets_of amounts) ≡ balance id amounts
unfolding assets_of
listed-assets_of id [] = refl
listed-assets_of id (e ∷ amounts) = listed_in-map id (e ∷ amounts)

-- For every asset, `collectAssets` lists the amount in the coins, and `subtractAssets` the amount in
-- the change less the amount in the coins spent, whatever assets occur how often; an asset that is
-- not listed counts as 0.
pub listed-subtract_assets :
    (id : Text) (spent change : List VirtualCoin)
    → (listed id (collect_assets spent) ≡ amount_of id spent)
      × (listed id (subtract_assets spent change) ≡ amount_of id change -ℤ amount_of id spent)
unfolding subtract_assets collect_assets
listed-subtract_assets id spent change =
    let collected = balance-add_coins id spent [] in
    let added = balance-add_coins id change [] in
    let removed = balance-remove_coins id spent (add_coins change []) in
    let one = listed-assets_of id (add_coins spent []) in
    let both = listed-assets_of id (remove_coins spent (add_coins change [])) in
    (grind int_laws, grind int_laws)
