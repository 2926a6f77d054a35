-- ===== src/Wallet/VtxoManager/Polling.antt =====
-- packages/ts-sdk/src/wallet/vtxo-manager.ts: a poll, its timers, and `dispose`.
pub mod Laws
pub mod Marks
use congenial_giggle.Common.{
  ◌≡◌, ℕ, suc, ◌*◌, ◌^◌, Bool, true, false, ◌||◌, not, List, [], ◌∷◌, Option, none, some, Result,
  ok, err, leb, ◌==◌, if◌then◌else◌, is_some,
}
use congenial_giggle.Wallet.VtxoManager.{SettlementConfig}
use congenial_giggle.Wallet.VtxoManager.Boarding.{
  Utxo, RelativeTimelock, Error, nothing_expired, Answers, Manager, settle_boarding_utxos,
  sweep_expired_boarding_utxos,
}

abbrev pub max_backoff_ms : ℕ
max_backoff_ms = 300_000

abbrev pub poll_interval : SettlementConfig → ℕ
poll_interval config = elim config.poll_interval_ms [
  | some interval_ms ↦ interval_ms
  | none ↦ 60_000
]

unfoldable pub get_next_poll_delay : Option SettlementConfig → ℕ → ℕ
get_next_poll_delay none consecutive_poll_failures = 0
get_next_poll_delay (some config) consecutive_poll_failures =
    let base_ms = poll_interval config in
    let backed_off = base_ms * 2 ^ consecutive_poll_failures in
    if consecutive_poll_failures == 0
    then base_ms
    else if leb backed_off max_backoff_ms
    then backed_off
    else max_backoff_ms

abbrev pub sweep_enabled : Option SettlementConfig → Bool
sweep_enabled none = false
sweep_enabled (some config) = elim config.boarding_utxo_sweep [
  | some enabled ↦ enabled
  | none ↦ true
]

-- An error of the sweep counts but for the message "No expired boarding UTXOs".
abbrev pub sweep_failed : Option Error → Bool
sweep_failed none = false
sweep_failed (some nothing_expired) = false
sweep_failed (some _) = true

module _ (config : Option SettlementConfig) (lock : RelativeTimelock) (dust : ℕ) where
  unfoldable pub poll_coins : Answers → List Utxo → Manager → Bool × Manager
  poll_coins answers utxos m =
      let (settle_error, m1) = settle_boarding_utxos lock dust answers utxos m in
      let enabled = sweep_enabled config in
      let (sweep_error, m2) = sweep_expired_boarding_utxos lock dust answers enabled utxos m1 in
      if enabled
      then (is_some settle_error || sweep_failed sweep_error, m2)
      else (is_some settle_error, m1)

  abbrev pub poll_found : Result Error (List Utxo) → Answers → Manager → Bool × Manager
  poll_found (err e) answers m = (true, m)
  poll_found (ok utxos) answers m = poll_coins answers utxos m

  -- The body of `pollBoardingUtxos` up to `finally`: `hadError`, and what it has marked.
  unfoldable pub poll_body : Answers → Manager → Bool × Manager
  poll_body answers m = poll_found answers.boarding_utxos answers m

-- The polling of a manager: the marks, and the timers that are set, `poll_timer` with its delay.
pub record Poller : Type 0 where
  pub manager : Manager
  pub poll_in_progress : Bool
  pub disposed : Bool
  pub consecutive_poll_failures : ℕ
  pub startup_timer : Bool
  pub poll_timer : Option ℕ

-- The state after the constructor, where `settlementConfig` is not `false`.
abbrev pub constructed : Poller
constructed = record {
  manager = record {
    known_boarding_utxos = [];
    swept_boarding_utxos = [];
    settled = [];
    broadcasts = [];
  };
  poll_in_progress = false;
  disposed = false;
  consecutive_poll_failures = 0;
  startup_timer = true;
  poll_timer = none;
}

unfoldable pub schedule_poll : Option SettlementConfig → Poller → Poller
schedule_poll none p = p
schedule_poll (some config) p = if p.disposed then p else record p {
  poll_timer = some (get_next_poll_delay (some config) p.consecutive_poll_failures);
}

-- `pollBoardingUtxos` up to its first `await`. The wallet may not be one that can sweep.
unfoldable pub begin_poll : Bool → Poller → Poller
begin_poll sweep_capable p =
    if not sweep_capable
    then p
    else if p.disposed
    then p
    else if p.poll_in_progress
    then p
    else record p { poll_in_progress = true }

-- The rest of it.
unfoldable pub finish_poll :
    Option SettlementConfig → RelativeTimelock → ℕ → Answers → Poller → Poller
finish_poll config lock dust answers p =
    let (had_error, m) = poll_body config lock dust answers p.manager in
    schedule_poll config (record p {
      manager = m;
      consecutive_poll_failures = if had_error then suc p.consecutive_poll_failures else 0;
      poll_in_progress = false;
    })

-- The timer of `initializeSubscription`.
unfoldable pub startup_timer_fires : Bool → Poller → Poller
startup_timer_fires sweep_capable p =
    let fired = record p { startup_timer = false } in
    if p.disposed then fired else begin_poll sweep_capable fired

unfoldable pub poll_timer_fires : Bool → Poller → Poller
poll_timer_fires sweep_capable p = begin_poll sweep_capable (record p { poll_timer = none })

-- `dispose` up to its first `await`.
unfoldable pub dispose : Poller → Poller
dispose p = record p { disposed = true; startup_timer = false; poll_timer = none }

-- What happens to a manager, in the order in which it happens. A timer fires only when it is set, and
-- a poll finishes only when it has begun. `pollInProgress` keeps polls apart, and only they read and
-- write the marks, so that the body of a poll is one step. A client that calls the public
-- `sweepExpiredBoardingUtxos` itself does so outside of this: nothing keeps such calls apart.
module _ (config : Option SettlementConfig) (lock : RelativeTimelock) (dust : ℕ)
    (sweep_capable : Bool) where
  pub data Steps : Poller → Type 0 where
    done : Steps constructed
    startup_fired :
        {p : Poller}
        → Steps p
        → p.startup_timer ≡ true
        → Steps (startup_timer_fires sweep_capable p)
    poll_fired :
        {p : Poller} (delay : ℕ)
        → Steps p
        → p.poll_timer ≡ some delay
        → Steps (poll_timer_fires sweep_capable p)
    finished :
        {p : Poller} (answers : Answers)
        → Steps p
        → p.poll_in_progress ≡ true
        → Steps (finish_poll config lock dust answers p)
    disposes : {p : Poller} → Steps p → Steps (dispose p)
