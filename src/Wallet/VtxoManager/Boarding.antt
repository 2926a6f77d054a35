-- ===== src/Wallet/VtxoManager/Boarding.antt =====
-- packages/ts-sdk/src/wallet/vtxo-manager.ts: the polling of the boarding coins, which settles the new
-- ones and sweeps the expired ones.
pub mod Laws
use congenial_giggle.Common.{
  filter, ℕ, ◌+◌, ◌/◌, Bool, true, false, ◌&&◌, ◌||◌, not, List, [], ◌∷◌, ◌++◌, Option, none, some,
  Result, ok, err, ltb, leb, ◌==◌, if◌then◌else◌, is_empty, any, map,
}
use congenial_giggle.Common.Int.{ℤ, pos, ◌-ℤ◌, ltb_ℤ}
use congenial_giggle.Extension.Asset.Hex.{Text}
use congenial_giggle.Extension.Asset.Packet.{same_text}
use congenial_giggle.Utils.TxSizeEstimator.{
  TxWeightEstimator, create, add_tapscript_input, add_output_script, vsize,
}

-- The items of the sets are the strings `${txid}:${vout}`.
abbrev pub Outpoint : Type 0
Outpoint = Text × ℕ

abbrev pub same_outpoint : Outpoint → Outpoint → Bool
same_outpoint a b = same_text a.0 b.0 && (a.1 == b.1)

abbrev pub has : List Outpoint → Outpoint → Bool
has items z = any (same_outpoint z) items

-- A coin, with `status.block_time` and `status.block_height`.
pub record Utxo : Type 0 where
  pub txid : Text
  pub vout : ℕ
  pub value : ℕ
  pub block_time : Option ℕ
  pub block_height : Option ℕ

abbrev pub outpoint : Utxo → Outpoint
outpoint u = (u.txid, u.vout)

abbrev pub sum_values : List Utxo → ℕ
sum_values [] = 0
sum_values (u ∷ utxos) = u.value + sum_values utxos

pub data RelativeTimelock : Type 0 where
  blocks seconds : ℕ → RelativeTimelock

abbrev pub lock_value : RelativeTimelock → ℕ
lock_value (blocks value) = value
lock_value (seconds value) = value

pub data Error : Type 0 where
  sweep_disabled nothing_expired : Error
  not_economical : ℤ → ℕ → ℕ → Error
  failed : ℕ → Error

abbrev pub is_confirmed : Option ℕ → Bool
is_confirmed none = false
is_confirmed (some t) = not (t == 0)

abbrev pub deep_enough : ℕ → Option ℕ → Option ℕ → Bool
deep_enough value none height = false
deep_enough value (some tip) none = false
deep_enough value (some tip) (some height) =
    if height == 0 then false else not (ltb_ℤ (pos tip -ℤ pos height) (pos value))

abbrev pub old_enough : ℕ → ℕ → Option ℕ → Bool
old_enough value now_ms none = false
old_enough value now_ms (some block_time) = leb (block_time + value) (now_ms / 1000)

abbrev pub lock_passed : RelativeTimelock → Option ℕ → ℕ → Utxo → Bool
lock_passed (blocks value) tip now_ms coin = deep_enough value tip coin.block_height
lock_passed (seconds value) tip now_ms coin = old_enough value now_ms coin.block_time

unfoldable pub has_boarding_tx_expired : RelativeTimelock → Option ℕ → ℕ → Utxo → Bool
has_boarding_tx_expired lock tip now_ms coin =
    if not (is_confirmed coin.block_time)
    then false
    else if lock_value lock == 0
    then true
    else lock_passed lock tip now_ms coin

-- The chain tip is asked for where the lock counts blocks.
abbrev pub chain_tip : RelativeTimelock → Result Error ℕ → Result Error (Option ℕ)
chain_tip (seconds value) tip = ok none
chain_tip (blocks value) (ok height) = ok (some height)
chain_tip (blocks value) (err e) = err e

abbrev pub expired_at :
    RelativeTimelock → ℕ → List Utxo → Result Error (Option ℕ) → Result Error (List Utxo)
expired_at lock now_ms utxos (err e) = err e
expired_at lock now_ms utxos (ok height) =
    ok (filter (has_boarding_tx_expired lock height now_ms) utxos)

unfoldable pub get_expired_boarding_utxos :
    RelativeTimelock → Result Error ℕ → ℕ → List Utxo → Result Error (List Utxo)
get_expired_boarding_utxos lock tip now_ms utxos = expired_at lock now_ms utxos (chain_tip lock tip)

-- The bytes of the exit leaf's script and of its control block.
pub record ExitLeaf : Type 0 where
  pub leaf_script_size : ℕ
  pub control_block_size : ℕ

abbrev pub add_inputs : ExitLeaf → List Utxo → TxWeightEstimator → TxWeightEstimator
add_inputs leaf [] e = e
add_inputs leaf (u ∷ utxos) e =
    add_inputs leaf utxos (add_tapscript_input 64 leaf.leaf_script_size leaf.control_block_size e)

-- The size of the sweep of some coins to an output with the script of the boarding address.
unfoldable pub sweep_vsize : ExitLeaf → List ℕ → List Utxo → ℕ
sweep_vsize leaf boarding_script utxos =
    vsize (add_output_script boarding_script (add_inputs leaf utxos create))

-- What a poll reads: the wallet's and the providers' answers. `settle` says for inputs and an amount
-- whether the wallet settles them, `broadcast` for inputs and an amount the id of the transaction that
-- is broadcast, or the failure of a call before it, and `fee_of_size` is the rounded product of a size
-- and the fee rate.
pub record Answers : Type 0 where
  pub boarding_utxos : Result Error (List Utxo)
  pub settle_tip : Result Error ℕ
  pub settle_now : ℕ
  pub settle : List Utxo → ℕ → Result Error Text
  pub sweep_tip : Result Error ℕ
  pub sweep_now : ℕ
  pub exit_leaf : ExitLeaf
  pub boarding_script : List ℕ
  pub fee_of_size : Result Error (ℕ → ℕ)
  pub broadcast : List Utxo → ℤ → Result Error Text

-- `settled` and `broadcasts` record the coins that the calls that succeeded have spent.
pub record Manager : Type 0 where
  pub known_boarding_utxos : List Outpoint
  pub swept_boarding_utxos : List Outpoint
  pub settled : List Outpoint
  pub broadcasts : List Outpoint

abbrev pub Outcome : Type 0
Outcome = Option Error × Manager

abbrev pub mark_settled : List Utxo → Manager → Manager
mark_settled utxos m = record m {
  known_boarding_utxos = map outpoint utxos ++ m.known_boarding_utxos;
  settled = map outpoint utxos ++ m.settled;
}

abbrev pub mark_swept : List Utxo → Text → Manager → Manager
mark_swept utxos txid m = record m {
  known_boarding_utxos = (txid, 0) ∷ m.known_boarding_utxos;
  swept_boarding_utxos = map outpoint utxos ++ m.swept_boarding_utxos;
  broadcasts = map outpoint utxos ++ m.broadcasts;
}

module _ (lock : RelativeTimelock) (dust : ℕ) (answers : Answers) where
  unfoldable pub unsettled_utxos : List Outpoint → List Outpoint → List Utxo → List Utxo
  unsettled_utxos known expired utxos =
      filter (λ u. not (has known (outpoint u)) && not (has expired (outpoint u))) utxos

  abbrev pub after_settle : Result Error Text → List Utxo → Manager → Outcome
  after_settle (err e) utxos m = (some e, m)
  after_settle (ok txid) utxos m = (none, mark_settled utxos m)

  -- From `if (unsettledUtxos.length === 0)` on.
  unfoldable pub settle_unsettled : List Utxo → Manager → Outcome
  settle_unsettled utxos m =
      let amount = sum_values utxos in
      if is_empty utxos
      then (none, m)
      else if ltb amount dust
      then (none, m)
      else after_settle (answers.settle utxos amount) utxos m

  abbrev pub settle_unexpired : Result Error (List Utxo) → List Utxo → Manager → Outcome
  settle_unexpired (err e) utxos m = (some e, m)
  settle_unexpired (ok expired) utxos m =
      settle_unsettled (unsettled_utxos m.known_boarding_utxos (map outpoint expired) utxos) m

  unfoldable pub settle_boarding_utxos : List Utxo → Manager → Outcome
  settle_boarding_utxos utxos m =
      settle_unexpired (get_expired_boarding_utxos lock answers.settle_tip answers.settle_now utxos)
        utxos m

  unfoldable pub unswept_utxos : List Outpoint → List Utxo → List Utxo
  unswept_utxos swept utxos = filter (λ u. not (has swept (outpoint u))) utxos

  abbrev pub after_broadcast : Result Error Text → List Utxo → Manager → Outcome
  after_broadcast (err e) utxos m = (some e, m)
  after_broadcast (ok txid) utxos m = (none, mark_swept utxos txid m)

  -- From the fee on.
  abbrev pub sweep_utxos : Result Error (ℕ → ℕ) → List Utxo → Manager → Outcome
  sweep_utxos (err e) utxos m = (some e, m)
  sweep_utxos (ok fee_of_size) utxos m =
      let fee = fee_of_size (sweep_vsize answers.exit_leaf answers.boarding_script utxos) in
      let output_amount = pos (sum_values utxos) -ℤ pos fee in
      if ltb_ℤ output_amount (pos dust)
      then (some (not_economical output_amount fee dust), m)
      else after_broadcast (answers.broadcast utxos output_amount) utxos m

  abbrev pub sweep_unswept : List Utxo → Manager → Outcome
  sweep_unswept utxos m =
      if is_empty utxos then (some nothing_expired, m) else sweep_utxos answers.fee_of_size utxos m

  abbrev pub sweep_expired : Result Error (List Utxo) → Manager → Outcome
  sweep_expired (err e) m = (some e, m)
  sweep_expired (ok expired) m = sweep_unswept (unswept_utxos m.swept_boarding_utxos expired) m

  -- A call with no other between its test of the marks and its own.
  unfoldable pub sweep_expired_boarding_utxos : Bool → List Utxo → Manager → Outcome
  sweep_expired_boarding_utxos enabled utxos m =
      if not enabled
      then (some sweep_disabled, m)
      else sweep_expired (get_expired_boarding_utxos lock answers.sweep_tip answers.sweep_now utxos)
          m
