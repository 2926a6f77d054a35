-- ===== src/Wallet/VtxoManager.antt =====
-- packages/ts-sdk/src/wallet/vtxo-manager.ts, and the tests on coins of wallet/index.ts: which coins
-- are recovered and renewed. `now` is `Date.now()`, and `before_2025` says of a time whether its year,
-- in the zone of the runtime, is before 2025.
pub mod Laws
pub mod Boarding
pub mod Polling
use congenial_giggle.Common.{
  filter, ℕ, ◌+◌, ◌-◌, ◌*◌, Bool, true, false, ◌&&◌, ◌||◌, not, List, [], ◌∷◌, Option, none, some,
  Result, ok, err, ltb, leb, ◌==◌, if◌then◌else◌, length, is_empty,
}
use congenial_giggle.Common.Int.{pos}
use congenial_giggle.Extension.Asset.Hex.{Text}
use congenial_giggle.Wallet.Ramps.{SettleParams, Output}

pub data State : Type 0 where
  preconfirmed settled swept spent : State

pub record Vtxo : Type 0 where
  pub txid : Text
  pub vout : ℕ
  pub value : ℕ
  pub state : State
  pub batch_expiry : Option ℕ
  pub is_spent : Bool

abbrev pub is_swept : State → Bool
is_swept swept = true
is_swept _ = false

abbrev pub is_preconfirmed : State → Bool
is_preconfirmed preconfirmed = true
is_preconfirmed _ = false

unfoldable pub is_spendable : Vtxo → Bool
is_spendable vtxo = not vtxo.is_spent

unfoldable pub is_recoverable : Vtxo → Bool
unfolding is_spendable
is_recoverable vtxo = is_swept vtxo.state && is_spendable vtxo

unfoldable pub is_subdust : ℕ → Vtxo → Bool
is_subdust dust vtxo = ltb vtxo.value dust

-- 3 days, in milliseconds
abbrev pub default_threshold_ms : ℕ
default_threshold_ms = 259_200_000

abbrev pub sum_values : List Vtxo → ℕ
sum_values [] = 0
sum_values (vtxo ∷ vtxos) = vtxo.value + sum_values vtxos

pub record Recovery : Type 0 where
  pub vtxos_to_recover : List Vtxo
  pub includes_subdust : Bool
  pub total_amount : ℕ

pub record Balance : Type 0 where
  pub recoverable : ℕ
  pub subdust : ℕ
  pub includes_subdust : Bool
  pub vtxo_count : ℕ

pub data Error : Type 0 where
  nothing_to_recover nothing_to_renew renewal_in_progress : Error
  below_dust : ℕ → ℕ → Error

-- `settlementConfig` where it is not `false`, and `renewalConfig?.thresholdMs`.
pub record SettlementConfig : Type 0 where
  pub vtxo_threshold : Option ℕ
  pub boarding_utxo_sweep : Option Bool
  pub poll_interval_ms : Option ℕ

-- Everything goes to one output.
abbrev pub settle_all : Text → List Vtxo → ℕ → SettleParams Vtxo
settle_all address vtxos amount = record {
  inputs = vtxos;
  outputs = record { address = address; amount = pos amount } ∷ [];
}

-- The threshold of a call without one, with `renewalConfig?.thresholdMs`.
abbrev pub threshold_of : SettlementConfig → Option ℕ → ℕ
threshold_of config renewal = elim config.vtxo_threshold [
  | some seconds ↦ seconds * 1000
  | none ↦ elim renewal [ none ↦ default_threshold_ms | some threshold_ms ↦ threshold_ms ]
]

-- The threshold that `renewVtxos` passes.
abbrev pub renewal_threshold : Option SettlementConfig → ℕ
renewal_threshold none = default_threshold_ms
renewal_threshold (some config) = elim config.vtxo_threshold [
  | some seconds ↦ seconds * 1000
  | none ↦ default_threshold_ms
]

module _ (before_2025 : ℕ → Bool) (now : ℕ) where
  abbrev pub is_past : Option ℕ → Bool
  is_past none = false
  is_past (some expiry) =
      if expiry == 0 then false else if before_2025 expiry then false else leb expiry now

  unfoldable pub is_expired : Vtxo → Bool
  is_expired vtxo = if is_swept vtxo.state then true else is_past vtxo.batch_expiry

  -- The test of `getRecoverableVtxos`.
  unfoldable pub should_recover : ℕ → Vtxo → Bool
  should_recover dust vtxo =
      if is_recoverable vtxo
      then true
      else if is_spendable vtxo && is_expired vtxo
      then true
      else is_preconfirmed vtxo.state && is_subdust dust vtxo

  unfoldable pub get_recoverable_vtxos : List Vtxo → ℕ → List Vtxo
  get_recoverable_vtxos vtxos dust = filter (should_recover dust) vtxos

  unfoldable pub get_recoverable_with_subdust : List Vtxo → ℕ → Recovery
  get_recoverable_with_subdust vtxos dust =
      let recoverable = get_recoverable_vtxos vtxos dust in
      let subdust = filter (is_subdust dust) recoverable in
      let regular = filter (λ v. not (is_subdust dust v)) recoverable in
      let should_include = leb dust (sum_values regular + sum_values subdust) in
      let to_recover = if should_include then recoverable else regular in
      record {
        vtxos_to_recover = to_recover;
        includes_subdust = should_include;
        total_amount = sum_values to_recover;
      }

  -- What is left of the time until the expiry, where that is to come.
  abbrev pub expires_within : Option ℕ → ℕ → Bool
  expires_within none threshold = false
  expires_within (some expiry) threshold =
      if expiry == 0
      then false
      else if before_2025 expiry
      then false
      else if leb expiry now
      then false
      else leb (expiry - now) threshold

  unfoldable pub is_vtxo_expiring_soon : Vtxo → ℕ → Bool
  is_vtxo_expiring_soon vtxo threshold_ms =
      expires_within vtxo.batch_expiry
        (if leb threshold_ms 100 then default_threshold_ms else threshold_ms)

  -- The test of `getExpiringAndRecoverableVtxos`.
  unfoldable pub should_renew : ℕ → ℕ → Vtxo → Bool
  should_renew threshold_ms dust vtxo =
      is_vtxo_expiring_soon vtxo threshold_ms
      || (is_recoverable vtxo || (is_spendable vtxo && is_expired vtxo || is_subdust dust vtxo))

  unfoldable pub get_expiring_and_recoverable_vtxos : List Vtxo → ℕ → ℕ → List Vtxo
  get_expiring_and_recoverable_vtxos vtxos threshold_ms dust =
      filter (should_renew threshold_ms dust) vtxos

  -- What `recoverVtxos` hands to `settle`, with the wallet's address and its coins.
  unfoldable pub recover_vtxos : Text → List Vtxo → ℕ → Result Error (SettleParams Vtxo)
  recover_vtxos address vtxos dust =
      let recovery = get_recoverable_with_subdust vtxos dust in
      if is_empty recovery.vtxos_to_recover
      then err nothing_to_recover
      else ok (settle_all address recovery.vtxos_to_recover recovery.total_amount)

  unfoldable pub get_recoverable_balance : List Vtxo → ℕ → Balance
  get_recoverable_balance vtxos dust =
      let recovery = get_recoverable_with_subdust vtxos dust in
      record {
        recoverable = recovery.total_amount;
        subdust = sum_values (filter (λ v. ltb v.value dust) recovery.vtxos_to_recover);
        includes_subdust = recovery.includes_subdust;
        vtxo_count = length recovery.vtxos_to_recover;
      }

  unfoldable pub get_expiring_vtxos :
      Option SettlementConfig → Option ℕ → Option ℕ → List Vtxo → ℕ → List Vtxo
  get_expiring_vtxos config renewal (some threshold_ms) vtxos dust =
      get_expiring_and_recoverable_vtxos vtxos threshold_ms dust
  get_expiring_vtxos none renewal none vtxos dust = []
  get_expiring_vtxos (some config) renewal none vtxos dust =
      get_expiring_and_recoverable_vtxos vtxos (threshold_of config renewal) dust

  -- What `renewVtxos` hands to `settle`, from `renewalInProgress` on. Its threshold makes the one of
  -- `renewalConfig` irrelevant.
  unfoldable pub renew_vtxos :
      Text → Option SettlementConfig → Bool → List Vtxo → ℕ → Result Error (SettleParams Vtxo)
  renew_vtxos address config renewing all_vtxos dust =
      let threshold_ms = renewal_threshold config in
      let vtxos = get_expiring_vtxos config none (some threshold_ms) all_vtxos dust in
      if renewing
      then err renewal_in_progress
      else if is_empty vtxos
      then err nothing_to_renew
      else if ltb (sum_values vtxos) dust
      then err (below_dust (sum_values vtxos) dust)
      else ok (settle_all address vtxos (sum_values vtxos))
