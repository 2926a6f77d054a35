-- ===== src/Wallet/VtxoManager/Polling/Marks.antt =====
-- No boarding coin is settled or swept twice, in whatever order things happen.
use congenial_giggle.Common.{
  ℕ, Bool-cases, inl, inr, ◌≡◌, refl, Bool, true, false, List, Option, none, some, ok, err, map,
  Result,
}
use congenial_giggle.Wallet.VtxoManager.{SettlementConfig}
use congenial_giggle.Common.Sets.{IsDistinct}
use congenial_giggle.Wallet.VtxoManager.Boarding.{
  Error, RelativeTimelock, Answers, Manager, Utxo, outpoint, settle_boarding_utxos,
}
use congenial_giggle.Wallet.VtxoManager.Boarding.Laws.{
  IsMarked, either, settle_boarding_utxos-IsMarked, sweep_expired_boarding_utxos-IsMarked,
}
use congenial_giggle.Wallet.VtxoManager.Polling.{
  poll_coins, poll_found, sweep_enabled, Poller, schedule_poll, begin_poll, finish_poll,
  startup_timer_fires, poll_timer_fires, dispose, Steps, done, startup_fired, poll_fired, finished,
  disposes, poll_body,
}

-- The coins of every answer are told apart by their outpoints.
abbrev pub AreDistinct :
    {config : Option SettlementConfig} {lock : RelativeTimelock} {dust : ℕ} {capable : Bool}
    {p : Poller}
    → Steps config lock dust capable p
    → Type 0
AreDistinct done = Unit {0}
AreDistinct (startup_fired steps set) = AreDistinct steps
AreDistinct (poll_fired delay steps set) = AreDistinct steps
AreDistinct (finished answers steps running) =
    AreDistinct steps
    × ((utxos : List Utxo) → answers.boarding_utxos ≡ ok utxos → IsDistinct (map outpoint utxos))
AreDistinct (disposes steps) = AreDistinct steps

poll_coins-IsMarked :
    (config : Option SettlementConfig) (lock : RelativeTimelock) (dust : ℕ) (answers : Answers)
    (utxos : List Utxo) (m : Manager)
    → IsDistinct (map outpoint utxos)
    → IsMarked m
    → IsMarked (poll_coins config lock dust answers utxos m).1
unfolding poll_coins
poll_coins-IsMarked config lock dust answers utxos m distinct marked =
    let settled = settle_boarding_utxos-IsMarked lock dust answers utxos m distinct marked in
    let enabled = sweep_enabled config in
    let m1 = (settle_boarding_utxos lock dust answers utxos m).1 in
    either enabled _ (_, m1)
      (sweep_expired_boarding_utxos-IsMarked lock dust answers enabled utxos m1 distinct settled)
      settled

poll_found-IsMarked :
    (config : Option SettlementConfig) (lock : RelativeTimelock) (dust : ℕ)
    (found : Result Error (List Utxo)) (answers : Answers) (m : Manager)
    → ((utxos : List Utxo) → found ≡ ok utxos → IsDistinct (map outpoint utxos))
    → IsMarked m
    → IsMarked (poll_found config lock dust found answers m).1
poll_found-IsMarked config lock dust (err e) answers m distinct marked = marked
poll_found-IsMarked config lock dust (ok utxos) answers m distinct marked =
    poll_coins-IsMarked config lock dust answers utxos m (distinct utxos refl) marked

finish_poll-IsMarked :
    (config : Option SettlementConfig) (lock : RelativeTimelock) (dust : ℕ) (answers : Answers)
    (p : Poller)
    → ((utxos : List Utxo) → answers.boarding_utxos ≡ ok utxos → IsDistinct (map outpoint utxos))
    → IsMarked p.manager
    → IsMarked (finish_poll config lock dust answers p).manager
unfolding finish_poll schedule_poll poll_body
finish_poll-IsMarked none lock dust answers p distinct marked =
    poll_found-IsMarked none lock dust answers.boarding_utxos answers p.manager distinct marked
finish_poll-IsMarked (some config) lock dust answers p distinct marked =
    let after =
      poll_found-IsMarked (some config) lock dust answers.boarding_utxos answers p.manager distinct
        marked in
    elim (Bool-cases p.disposed) [ inl disposed ↦ rw disposed after | inr in_use ↦ rw in_use after ]

begin_poll-manager : (capable : Bool) (p : Poller) → (begin_poll capable p).manager ≡ p.manager
unfolding begin_poll
begin_poll-manager false p = refl
begin_poll-manager true p = elim (Bool-cases p.disposed) [
  | inl disposed ↦ rw disposed refl
  | inr in_use ↦ elim (Bool-cases p.poll_in_progress) [
    | inl running ↦ rw (in_use, running) refl
    | inr idle ↦ rw (in_use, idle) refl
  ]
]

startup_timer_fires-manager :
    (capable : Bool) (p : Poller) → (startup_timer_fires capable p).manager ≡ p.manager
unfolding startup_timer_fires
startup_timer_fires-manager capable p = elim (Bool-cases p.disposed) [
  | inl disposed ↦ rw disposed refl
  | inr in_use ↦
      rw in_use (begin_poll-manager capable (record p { disposed = false; startup_timer = false }))
]

-- Whatever the timers do and whatever call of a poll fails: of the boarding coins the polls of a
-- manager settle none twice and sweep none twice, where each list of coins that a poll reads names
-- every coin once, and no client calls `sweepExpiredBoardingUtxos` itself. All that was settled is in
-- `knownBoardingUtxos`, and all that was swept in `sweptBoardingUtxos`.
pub Steps-IsMarked :
    (config : Option SettlementConfig) (lock : RelativeTimelock) (dust : ℕ) (capable : Bool)
    (p : Poller) (steps : Steps config lock dust capable p)
    → AreDistinct steps
    → IsMarked p.manager
unfolding dispose poll_timer_fires
Steps-IsMarked config lock dust capable p done distinct = ((tt, λ z h. tt), (tt, λ z h. tt))
Steps-IsMarked config lock dust capable _ (startup_fired {p = p} steps set) distinct =
    rw (startup_timer_fires-manager capable p)
      (Steps-IsMarked config lock dust capable p steps distinct)
Steps-IsMarked config lock dust capable _ (poll_fired {p = p} delay steps set) distinct =
    let marked = Steps-IsMarked config lock dust capable p steps distinct in
    rw (begin_poll-manager capable (record p { poll_timer = none })) marked
Steps-IsMarked config lock dust capable _ (finished {p = p} answers steps running) (distinct, new) =
    finish_poll-IsMarked config lock dust answers p new
      (Steps-IsMarked config lock dust capable p steps distinct)
Steps-IsMarked config lock dust capable _ (disposes {p = p} steps) distinct =
    Steps-IsMarked config lock dust capable p steps distinct
