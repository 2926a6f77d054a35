-- ===== src/Wallet/Ramps.antt =====
-- packages/ts-sdk/src/wallet/ramps.ts: what `onboard` and `offboard` hand to the wallet's `settle`.
-- The decoders of addresses are parameters, and so are the fees' numbers.
pub mod Laws
use congenial_giggle.Common.{
  ℕ, ◌*◌, Bool, true, false, List, [], ◌∷◌, Option, none, some, Result, ok, err, ◌==◌,
  if◌then◌else◌, is_empty, bind,
}
use congenial_giggle.Common.Int.{ℤ, pos, ◌+ℤ◌, ◌-ℤ◌, eq_ℤ, ltb_ℤ}
use congenial_giggle.Common.Results.{◌>>=◌}
use congenial_giggle.Extension.Asset.Hex.{Text}
use congenial_giggle.Arkfee.{
  Floats, Estimator, recoverable, vtxo, satoshis, eval_offchain_input, eval_onchain_input,
  eval_offchain_output, eval_onchain_output,
}

pub record Output : Type 0 where
  pub address : Text
  pub amount : ℤ

pub record SettleParams {ℓ} (Coin : Type ℓ) : Type ℓ where
  pub inputs : List Coin
  pub outputs : List Output

pub data Error : Type 0 where
  nothing_left_after_fees amount_above_total : Error
  cannot_deduct_fees : ℤ → ℤ → Error
  undecodable_destination : Error

pub record ExtendedCoin : Type 0 where
  pub txid : Text
  pub vout : ℕ
  pub value : ℤ

-- `created_at` is in milliseconds. `offboard` takes `batch_expiry` for seconds.
pub record ExtendedVirtualCoin : Type 0 where
  pub txid : Text
  pub vout : ℕ
  pub value : ℤ
  pub is_swept : Bool
  pub created_at : ℕ
  pub batch_expiry : Option ℕ

-- `batchExpiry ? new Date(batchExpiry * 1000) : undefined`
abbrev pub expiry_date : Option ℕ → Option ℕ
expiry_date none = none
expiry_date (some seconds) = if seconds == 0 then none else some (seconds * 1000)

module _ {ℓ} {Coin : Type ℓ} (value : Coin → ℤ) (fee : Coin → ℤ) where
  -- The coins that are worth more than their fee.
  unfoldable pub filter_paying : List Coin → List Coin
  filter_paying [] = []
  filter_paying (coin ∷ coins) =
      let rest = filter_paying coins in if ltb_ℤ (fee coin) (value coin) then coin ∷ rest else rest

  -- `totalAmount` after the coins, from what it was before.
  unfoldable pub total_amount : ℤ → List Coin → ℤ
  total_amount total [] = total
  total_amount total (coin ∷ coins) =
      total_amount
        (if ltb_ℤ (fee coin) (value coin) then total +ℤ (value coin -ℤ fee coin) else total) coins

-- `if (amount) …`: an amount of zero counts as none.
unfoldable pub change_of : Option ℤ → ℤ → Result Error ℤ
change_of none total = ok (pos 0)
change_of (some amount) total =
    if eq_ℤ amount (pos 0)
    then ok (pos 0)
    else if ltb_ℤ total amount
    then err amount_above_total
    else ok (total -ℤ amount)

-- `amount ?? totalAmount`
abbrev pub amount_or : Option ℤ → ℤ → ℤ
amount_or none total = total
amount_or (some amount) total = amount

abbrev pub outputs_with : Text → ℤ → Text → ℤ → List Output
outputs_with address amount change_address change =
    record { address = address; amount = amount }
    ∷ (if ltb_ℤ (pos 0) change
        then record { address = change_address; amount = change } ∷ []
        else [])

-- What follows the choice of coins: the fee of the output is taken from the amount.
abbrev pub deduct_fee {ℓ} :
    {Coin : Type ℓ} → (ℤ → ℤ) → List Coin → Text → Text → ℤ → ℤ → Result Error (SettleParams Coin)
deduct_fee output_fee coins address change_address amount change =
    if ltb_ℤ amount (output_fee amount)
    then err (cannot_deduct_fees (output_fee amount) amount)
    else ok (record {
      inputs = coins;
      outputs = outputs_with address (amount -ℤ output_fee amount) change_address change;
    })

module _ (floats : Floats) (estimator : Estimator floats) where
  unfoldable pub boarding_fee : ExtendedCoin → ℤ
  boarding_fee utxo =
      satoshis floats (eval_onchain_input floats estimator (record { amount = utxo.value }))

  unfoldable pub vtxo_fee : ExtendedVirtualCoin → ℤ
  vtxo_fee coin = satoshis floats (
      eval_offchain_input floats estimator (record {
        amount = coin.value;
        input_type = if coin.is_swept then recoverable else vtxo;
        weight = 0;
        birth = some coin.created_at;
        expiry = expiry_date coin.batch_expiry;
      }))

  unfoldable pub onboard_fee : Text → ℤ → ℤ
  onboard_fee script amount =
      satoshis floats
        (eval_offchain_output floats estimator (record { amount = amount; script = script }))

  unfoldable pub offboard_fee : Text → ℤ → ℤ
  offboard_fee script amount =
      satoshis floats
        (eval_onchain_output floats estimator (record { amount = amount; script = script }))

  -- With the wallet's address, the script of that in hexadecimal, and its boarding address.
  unfoldable pub onboard :
      Text → Text → Text → List ExtendedCoin → Option ℤ → Result Error (SettleParams ExtendedCoin)
  onboard address script boarding_address utxos amount =
      let coins = filter_paying (λ u. u.value) boarding_fee utxos in
      let total = total_amount (λ u. u.value) boarding_fee (pos 0) utxos in
      if is_empty coins
      then err nothing_left_after_fees
      else change_of amount total >>= λ change.
          deduct_fee (onboard_fee script) coins address boarding_address (amount_or amount total)
            change

  -- The script of the first network in which the address decodes.
  unfoldable pub destination_script : (ℕ → Text → Option Text) → List ℕ → Text → Option Text
  destination_script decode [] address = none
  destination_script decode (network ∷ networks) address =
      let rest = destination_script decode networks address in
      elim (decode network address) [ none ↦ rest | some script ↦ some script ]

  -- bitcoin, regtest, testnet, signet, mutinynet
  abbrev pub network_names : List ℕ
  network_names = 0 ∷ 1 ∷ 2 ∷ 3 ∷ 4 ∷ []

  abbrev pub script_or_throw : Option Text → Result Error Text
  script_or_throw none = err undecodable_destination
  script_or_throw (some script) = ok script

  -- With the decoder of addresses, which gives the script in hexadecimal, the wallet's own address,
  -- and its coins.
  unfoldable pub offboard :
      (ℕ → Text → Option Text)
      → Text
      → Text
      → List ExtendedVirtualCoin
      → Option ℤ
      → Result Error (SettleParams ExtendedVirtualCoin)
  offboard decode destination own_address vtxos amount =
      let coins = filter_paying (λ c. c.value) vtxo_fee vtxos in
      let total = total_amount (λ c. c.value) vtxo_fee (pos 0) vtxos in
      if is_empty coins
      then err nothing_left_after_fees
      else change_of amount total >>= λ change.
          script_or_throw (destination_script decode network_names destination) >>= λ script.
          deduct_fee (offboard_fee script) coins destination own_address (amount_or amount total)
            change
