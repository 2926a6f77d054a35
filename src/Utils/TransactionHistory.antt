-- ===== src/Utils/TransactionHistory.antt =====
-- packages/ts-sdk/src/utils/transactionHistory.ts: the history of a wallet, from its coins. Values
-- and times are natural numbers; amounts, which are differences, are integers.
pub mod Laws
pub mod Assets
use congenial_giggle.Common.{
  filter, ℕ, ◌+◌, ◌==◌, suc, Bool, true, false, ◌&&◌, ◌||◌, not, List, [], ◌∷◌, ◌++◌, map, Option,
  none, some, if◌then◌else◌, is_empty, any, all, ltb,
}
use congenial_giggle.Common.Int.{ℤ, pos, ◌+ℤ◌, ◌-ℤ◌, eq_ℤ, ltb_ℤ}
use congenial_giggle.Common.Dict.{Dict, get, set, delete}
use congenial_giggle.Common.Sorting.{sort}
use congenial_giggle.Extension.Asset.Hex.{Text}
use congenial_giggle.Extension.Asset.Packet.{same_text}

pub record Asset : Type 0 where
  pub asset_id : Text
  pub amount : ℤ

-- A coin; `assets` is empty where the code has none, and `commitment_tx_ids` where a coin that is no
-- leaf has none. At a leaf without them the code throws.
pub record VirtualCoin : Type 0 where
  pub txid : Text
  pub value : ℕ
  pub created_at : ℕ
  pub is_leaf : Bool
  pub is_spent : Bool
  pub settled_by : Option Text
  pub ark_tx_id : Option Text
  pub commitment_tx_ids : List Text
  pub assets : List Asset

pub data TxType : Type 0 where
  sent received : TxType

pub data Tag : Type 0 where
  offchain boarding exit batch : Tag

pub record TxKey : Type 0 where
  pub commitment_txid : Text
  pub boarding_txid : Text
  pub ark_txid : Text

pub record ArkTransaction : Type 0 where
  pub key : TxKey
  pub tag : Tag
  pub tx_type : TxType
  pub amount : ℤ
  pub settled : Bool
  pub created_at : ℕ
  pub assets : Option (List Asset)

abbrev pub tx_key : TxKey
tx_key = record { commitment_txid = []; boarding_txid = []; ark_txid = [] }

-- `map.get(id) ?? 0`
abbrev pub or_zero : Option ℤ → ℤ
or_zero none = pos 0
or_zero (some amount) = amount

unfoldable pub add_assets : List Asset → Dict Text ℤ → Dict Text ℤ
add_assets [] amounts = amounts
add_assets (a ∷ assets) amounts =
    add_assets assets
      (set same_text a.asset_id (or_zero (get same_text a.asset_id amounts) +ℤ a.amount) amounts)

unfoldable pub add_coins : List VirtualCoin → Dict Text ℤ → Dict Text ℤ
add_coins [] amounts = amounts
add_coins (v ∷ coins) amounts = add_coins coins (add_assets v.assets amounts)

unfoldable pub remove_asset : Asset → Dict Text ℤ → Dict Text ℤ
remove_asset a amounts =
    let remaining = or_zero (get same_text a.asset_id amounts) -ℤ a.amount in
    if eq_ℤ remaining (pos 0)
    then delete same_text a.asset_id amounts
    else set same_text a.asset_id remaining amounts

unfoldable pub remove_assets : List Asset → Dict Text ℤ → Dict Text ℤ
remove_assets [] amounts = amounts
remove_assets (a ∷ assets) amounts = remove_assets assets (remove_asset a amounts)

unfoldable pub remove_coins : List VirtualCoin → Dict Text ℤ → Dict Text ℤ
remove_coins [] amounts = amounts
remove_coins (v ∷ coins) amounts = remove_coins coins (remove_assets v.assets amounts)

unfoldable pub assets_of : Dict Text ℤ → Option (List Asset)
assets_of [] = none
assets_of (e ∷ amounts) = some (map (λ x. record { asset_id = x.0; amount = x.1 }) (e ∷ amounts))

unfoldable pub collect_assets : List VirtualCoin → Option (List Asset)
collect_assets coins = assets_of (add_coins coins [])

unfoldable pub subtract_assets : List VirtualCoin → List VirtualCoin → Option (List Asset)
subtract_assets spent change = assets_of (remove_coins spent (add_coins change []))

-- `===` on strings that may be undefined.
unfoldable pub same_option : Option Text → Option Text → Bool
same_option none none = true
same_option (some s) (some t) = same_text s t
same_option _ _ = false

-- `commitmentTxIds![0]`
abbrev pub first : List Text → Option Text
first [] = none
first (s ∷ texts) = some s

abbrev pub has : List Text → Option Text → Bool
has texts none = false
has texts (some s) = any (same_text s) texts

-- `coins.reduce((acc, v) => acc + v.value, 0)`
abbrev pub sum_values : List VirtualCoin → ℕ
sum_values [] = 0
sum_values (v ∷ coins) = v.value + sum_values coins

-- The two lists that the loop fills.
pub record History : Type 0 where
  pub sent_txs : List ArkTransaction
  pub received_txs : List ArkTransaction

module _ (coins : List VirtualCoin) (commitments_to_ignore : List Text)
    (get_tx_created_at : Option (Text → Option ℕ)) where
  -- A coin that is received from a batch: it neither comes of a boarding nor refreshes another.
  unfoldable pub is_received_batch : VirtualCoin → Bool
  is_received_batch v =
      not (has commitments_to_ignore (first v.commitment_tx_ids))
      && is_empty (filter (λ c. same_option c.settled_by (first v.commitment_tx_ids)) coins)

  unfoldable pub is_received_offchain : VirtualCoin → Bool
  is_received_offchain v = is_empty (filter (λ c. same_option c.ark_tx_id (some v.txid)) coins)

  unfoldable pub received_tx : TxKey → Tag → VirtualCoin → ArkTransaction
  received_tx key tag v = record {
    key = key;
    tag = tag;
    tx_type = received;
    amount = pos v.value;
    settled = v.is_leaf || v.is_spent;
    created_at = v.created_at;
    assets = collect_assets (v ∷ []);
  }

  abbrev pub text_of : Option Text → Text
  text_of none = []
  text_of (some s) = s

  unfoldable pub received_of : VirtualCoin → List ArkTransaction
  received_of v =
      if v.is_leaf
      then if is_received_batch v
        then received_tx (record tx_key { commitment_txid = text_of (first v.commitment_tx_ids) })
            batch v
          ∷ []
        else []
      else if is_received_offchain v
      then received_tx (record tx_key { ark_txid = v.txid }) offchain v ∷ []
      else []

  -- When a transaction without change was made.
  unfoldable pub tx_time : Text → VirtualCoin → ℕ
  tx_time ark_tx_id v = elim get_tx_created_at [
    | none ↦ suc v.created_at
    | some ask ↦ elim (ask ark_tx_id) [ none ↦ suc v.created_at | some time ↦ time ]
  ]

  unfoldable pub time_of : List VirtualCoin → ℕ → ℕ
  time_of [] default = default
  time_of (change ∷ changes) default = change.created_at

  unfoldable pub sent_offchain : Text → VirtualCoin → ArkTransaction
  sent_offchain ark_tx_id v =
      let changes = filter (λ c. same_text c.txid ark_tx_id) coins in
      let all_spent = filter (λ c. same_option c.ark_tx_id (some ark_tx_id)) coins in
      record {
        key = record tx_key { ark_txid = ark_tx_id };
        tag = offchain;
        tx_type = sent;
        amount = pos (sum_values all_spent) -ℤ pos (sum_values changes);
        settled = true;
        created_at = time_of changes (tx_time ark_tx_id v);
        assets = subtract_assets all_spent changes;
      }

  -- The first `if` of a spent coin.
  unfoldable pub add_offchain :
      Option Text → VirtualCoin → List ArkTransaction → List ArkTransaction
  add_offchain none v txs = txs
  add_offchain (some ark_tx_id) v txs =
      if is_empty ark_tx_id || any (λ t. same_text t.key.ark_txid ark_tx_id) txs
      then txs
      else txs ++ (sent_offchain ark_tx_id v ∷ [])

  unfoldable pub exit_tx : Text → List VirtualCoin → List VirtualCoin → ℕ → ArkTransaction
  exit_tx settled_by forfeits changes created_at = record {
    key = record tx_key { commitment_txid = settled_by };
    tag = exit;
    tx_type = sent;
    amount = pos (sum_values forfeits) -ℤ pos (sum_values changes);
    settled = true;
    created_at = created_at;
    assets = subtract_assets forfeits changes;
  }

  -- A collaborative exit, with change or without.
  unfoldable pub exit_of : Text → List VirtualCoin → VirtualCoin → List ArkTransaction
  exit_of settled_by [] v =
      let forfeits = filter (λ c. same_option c.settled_by (some settled_by)) coins in
      exit_tx settled_by forfeits [] (suc v.created_at) ∷ []
  exit_of settled_by (change ∷ changes) v =
      let forfeits = filter (λ c. same_option c.settled_by (some settled_by)) coins in
      if ltb (sum_values (change ∷ changes)) (sum_values forfeits)
      then exit_tx settled_by forfeits (change ∷ changes) change.created_at ∷ []
      else []

  -- The second `if` of a spent coin.
  unfoldable pub add_exit : Option Text → VirtualCoin → List ArkTransaction → List ArkTransaction
  add_exit none v txs = txs
  add_exit (some settled_by) v txs =
      if is_empty settled_by
        || (has commitments_to_ignore (some settled_by)
            || any (λ t. same_text t.key.commitment_txid settled_by) txs)
      then txs
      else txs
        ++ exit_of settled_by
            (filter (λ c. c.is_leaf && all (same_text settled_by) c.commitment_tx_ids) coins) v

  unfoldable pub add_sent : VirtualCoin → List ArkTransaction → List ArkTransaction
  add_sent v txs =
      let with_exit = add_exit v.settled_by v (add_offchain v.ark_tx_id v txs) in
      if v.is_spent then with_exit else txs

  -- The loop.
  unfoldable pub add_all : List VirtualCoin → History → History
  add_all [] h = h
  add_all (v ∷ rest) h =
      add_all rest (record {
        sent_txs = add_sent v h.sent_txs;
        received_txs = h.received_txs ++ received_of v;
      })

-- `(a, b) => a.createdAt - b.createdAt`, and the other way round.
abbrev pub is_older : VirtualCoin → VirtualCoin → Bool
is_older a b = ltb a.created_at b.created_at

abbrev pub is_newer : ArkTransaction → ArkTransaction → Bool
is_newer a b = ltb b.created_at a.created_at

unfoldable pub boarding_tx : ArkTransaction → ArkTransaction
boarding_tx tx = record tx { tag = boarding }

unfoldable pub build_transaction_history :
    List VirtualCoin
    → List ArkTransaction
    → List Text
    → Option (Text → Option ℕ)
    → List ArkTransaction
build_transaction_history vtxos all_boarding_txs commitments_to_ignore get_tx_created_at =
    let from_oldest_vtxo = sort is_older vtxos in
    let history =
      add_all from_oldest_vtxo commitments_to_ignore get_tx_created_at from_oldest_vtxo
        (record { sent_txs = []; received_txs = [] }) in
    sort is_newer (map boarding_tx all_boarding_txs ++ (history.sent_txs ++ history.received_txs))
