-- ===== src/Wallet/VtxoManager/Polling/Laws.antt =====
-- The timers of the polling, and its delay.
use congenial_giggle.Common.{
  ℕ, zero, suc, Bool-cases, inl, inr, ◌+◌, ◌*◌, ◌^◌, ◌≤◌, ◌<◌, ◌≡◌, refl, arith, Bool, true, false,
  none, some, is_some,
}
use congenial_giggle.Wallet.VtxoManager.{SettlementConfig}
use congenial_giggle.Wallet.VtxoManager.Boarding.{RelativeTimelock, Answers}
use congenial_giggle.Wallet.VtxoManager.Polling.{
  max_backoff_ms, poll_interval, get_next_poll_delay, Poller, schedule_poll, begin_poll,
  finish_poll, startup_timer_fires, poll_timer_fires, dispose, Steps, done, startup_fired,
  poll_fired, finished, disposes,
}

-- A positive number of times.
times-ge : (n k : ℕ) → 0 < k → n ≤ n * k
times-ge n zero positive = ground arith
times-ge n (suc k) positive = ground arith

two_pow-IsPositive : (n : ℕ) → 0 < 2 ^ n
two_pow-IsPositive zero = ground arith
two_pow-IsPositive (suc n) = ground (arith, two_pow-IsPositive n)

-- The delay before the next poll: without failures it is the interval of the settings. After
-- failures it is at most 5 minutes, and no shorter than the interval where that is at most 5
-- minutes; a longer interval is cut to 5 minutes, so that a poll that fails comes back sooner.
pub get_next_poll_delay-bounds :
    (config : SettlementConfig) (failures : ℕ)
    → let delay = get_next_poll_delay (some config) failures in
      let interval = poll_interval config in
      (failures ≡ 0 → delay ≡ interval)
      × (0 < failures → delay ≤ max_backoff_ms)
      × (interval ≤ max_backoff_ms → interval ≤ delay)
      × (max_backoff_ms < interval → 0 < failures → delay ≡ max_backoff_ms)
unfolding get_next_poll_delay
get_next_poll_delay-bounds config failures =
    let longer = times-ge (poll_interval config) (2 ^ failures) (two_pow-IsPositive failures) in
    (ground arith, ground arith, ground (arith, longer), ground (arith, longer))

abbrev pub count : Bool → ℕ
count true = 1
count false = 0

-- What brings the next poll about: a timer, or a poll that runs.
abbrev pub pending : Poller → ℕ
pending p = count p.startup_timer + count p.poll_in_progress + count (is_some p.poll_timer)

-- A timer or a poll is pending until `dispose`, after which no timer is set.
abbrev pub IsAlive : Poller → Type 0
IsAlive p =
    (p.disposed ≡ false → pending p ≡ 1)
    × (p.disposed ≡ true → (p.startup_timer ≡ false) × (p.poll_timer ≡ none))

startup_timer_fires-IsAlive :
    (p : Poller) → p.startup_timer ≡ true → IsAlive p → IsAlive (startup_timer_fires true p)
unfolding startup_timer_fires begin_poll
startup_timer_fires-IsAlive p set (alive, cleared) = elim (Bool-cases p.disposed) [
  | inl disposed ↦ let off = (cleared disposed).0 in ground (arith, set, off)
  | inr in_use ↦
      let one = alive in_use in
      elim (Bool-cases p.poll_in_progress) [
        | inl running ↦ ground (arith, set, running, one)
        | inr idle ↦ rw (in_use, idle) (λ _. ground (arith, set, idle, one), λ h. absurd cc)
      ]
]

poll_timer_fires-IsAlive :
    (p : Poller) (delay : ℕ)
    → p.poll_timer ≡ some delay
    → IsAlive p
    → IsAlive (poll_timer_fires true p)
unfolding poll_timer_fires begin_poll
poll_timer_fires-IsAlive p delay set (alive, cleared) = elim (Bool-cases p.disposed) [
  | inl disposed ↦ let off = (cleared disposed).1 in absurd cc
  | inr in_use ↦
      let one : count p.startup_timer + count p.poll_in_progress + 1 ≡ 1 = rw set at alive in_use in
      elim (Bool-cases p.poll_in_progress) [
        | inl running ↦ ground (arith, running, one)
        | inr idle ↦ rw (in_use, idle) (λ _. ground (arith, idle, one), λ h. absurd cc)
      ]
]

finish_poll-IsAlive :
    (config : SettlementConfig) (lock : RelativeTimelock) (dust : ℕ) (answers : Answers)
    (p : Poller)
    → p.poll_in_progress ≡ true
    → IsAlive p
    → IsAlive (finish_poll (some config) lock dust answers p)
unfolding finish_poll schedule_poll
finish_poll-IsAlive config lock dust answers p running (alive, cleared) =
    elim (Bool-cases p.disposed) [
      | inl disposed ↦ rw disposed (λ h. absurd cc, λ _. cleared disposed)
      | inr in_use ↦
          let one : count p.startup_timer + 1 + count (is_some p.poll_timer) ≡ 1 =
            rw running at alive in_use in
          rw in_use (λ _. ground (arith, one), λ h. absurd cc)
    ]

-- However its timers fire, its polls end and it is disposed of, a manager with settings, of a wallet
-- that can sweep, has exactly one thing pending until it is disposed of: the timer of the start, a
-- poll that runs, or the timer of the next poll. So the polling neither stops by itself nor runs
-- twice at a time; and after `dispose` no timer is set, also when the poll that ran has ended.
pub Steps-IsAlive :
    (config : SettlementConfig) (lock : RelativeTimelock) (dust : ℕ) (p : Poller)
    → Steps (some config) lock dust true p
    → IsAlive p
unfolding dispose
Steps-IsAlive config lock dust p done = (λ _. refl, λ h. absurd cc)
Steps-IsAlive config lock dust _ (startup_fired {p = p} steps set) =
    startup_timer_fires-IsAlive p set (Steps-IsAlive config lock dust p steps)
Steps-IsAlive config lock dust _ (poll_fired {p = p} delay steps set) =
    poll_timer_fires-IsAlive p delay set (Steps-IsAlive config lock dust p steps)
Steps-IsAlive config lock dust _ (finished {p = p} answers steps running) =
    finish_poll-IsAlive config lock dust answers p running (Steps-IsAlive config lock dust p steps)
Steps-IsAlive config lock dust _ (disposes {p = p} steps) = (λ h. absurd cc, λ _. (refl, refl))
