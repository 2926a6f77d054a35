-- ===== src/Boltz/SwapManager/Steps/Listening.antt =====
-- A manager that has been started and not stopped has a way to hear of its swaps.
use Prim.Native.Nat.{min}
use congenial_giggle.Common.{
  zero, suc, ◌≡◌, refl, sym, subst, arith, Bool, true, false, ◌||◌, ◌&&◌, List, ◌++◌, none, some,
  is_some, any, [], ◌∷◌, Option, ◌⊎◌, inr, ok,
}
use congenial_giggle.Common.Results.{thrown, ok_injective}
use congenial_giggle.Common.Int.{ℤ, pos, negsuc}
use congenial_giggle.Boltz.Swap.{BoltzSwap}
use congenial_giggle.Boltz.SwapManager.{
  Manager, Ref, PollTimer, regular, fallback, connecting, opened, emit, create, SwapManagerConfig,
}
use congenial_giggle.Boltz.SwapManager.Connection.{
  start_polling, start_polling_fallback, poll_timer_fires, after_poll, enter_polling_fallback,
  restart_timer, set_poll_interval, subscribe_to_swap, on_open, on_error, on_timeout,
  on_initial_poll, try_connect_web_socket, schedule_reconnect, on_reconnect, on_close,
}
use congenial_giggle.Boltz.SwapManager.Monitoring.{
  start, add_swap, remove_swap, subscribe_to_swap_updates, unsubscribe,
}
use congenial_giggle.Boltz.SwapManager.Steps.{
  Step, started, added, removed, interval_set, subscribed, unsubscribed, socket_opened, poll_fired,
  socket_failed, socket_timed_out, socket_closed, reconnected, initially_polled, polled, messaged,
  poll_ended, retried, resumed, saved, save_failed, acted, Runs, constructed, then_step,
}
use congenial_giggle.Boltz.SwapManager.Steps.Connected.{
  polling, connection-subscribe_to_all, Connection, connection, connection-after_save,
  connection-resume, connection-end_action, connection-handle_web_socket_message,
  connection-handle_poll, connection-handle_retry,
}

-- Whether a poll sets the next timer when it ends.
abbrev pub reschedules : Bool → PollTimer → Bool
reschedules use_polling_fallback (regular delay) = true
reschedules use_polling_fallback (fallback delay) = use_polling_fallback

-- Whether the timer sets off such a poll.
abbrev pub goes_on : Bool → Option PollTimer → Bool
goes_on use_polling_fallback none = false
goes_on use_polling_fallback (some timer) = reschedules use_polling_fallback timer

any-append_cons :
    (p : PollTimer → Bool) (before after : List PollTimer) (timer : PollTimer)
    → any p (before ++ (timer ∷ after)) ≡ (p timer || any p (before ++ after))
any-append_cons p [] after timer = refl
any-append_cons p (t ∷ before) after timer = ground (arith, any-append_cons p before after timer)

module _ (supported : Bool) where
  -- A running manager has a timer for the next poll, or a poll that will set one; or it can use sockets, and has one or a timer to
  -- make one. One that does not run has nothing.
  abbrev pub IsListening : Connection → Type 0
  IsListening c =
      ((c.is_running ≡ true)
        × ((((c.poll_pending && goes_on c.use_polling_fallback c.poll_timer)
                || any (reschedules c.use_polling_fallback) c.polls)
              ≡ true)
            ⊎ ((supported ≡ true)
                × (c.web_socket_unavailable ≡ false)
                × ((is_some c.web_socket || is_some c.reconnect_timer) ≡ true))))
      ⊎ ((c.is_running ≡ false)
          × (c.is_reconnecting ≡ false)
          × (c.web_socket_unavailable ≡ false)
          × (c.web_socket ≡ none)
          × (c.reconnect_timer ≡ none))

  start-IsListening :
      (made : Bool) (refs : List Ref) (m : Manager)
      → IsListening (connection m)
      → IsListening (connection (start supported made refs m))
  unfolding start try_connect_web_socket enter_polling_fallback emit start_polling_fallback
  start-IsListening made refs m v = ground arith

  add_swap-IsListening :
      (r : Ref) (m : Manager) → IsListening (connection m) → IsListening (connection (add_swap r m))
  unfolding add_swap subscribe_to_swap emit start_polling_fallback
  add_swap-IsListening r m v = ground arith

  restart_timer-IsListening :
      (m : Manager) → IsListening (connection m) → IsListening (connection (restart_timer m))
  unfolding restart_timer start_polling start_polling_fallback
  restart_timer-IsListening m v = ground arith

  on_error-IsListening :
      (m : Manager) → IsListening (connection m) → IsListening (connection (on_error m))
  unfolding on_error enter_polling_fallback emit start_polling_fallback
  on_error-IsListening m v = ground arith

  on_timeout-IsListening :
      (m : Manager) → IsListening (connection m) → IsListening (connection (on_timeout m))
  unfolding on_timeout enter_polling_fallback emit start_polling_fallback
  on_timeout-IsListening m v = ground arith

  on_close-IsListening :
      (m : Manager) → IsListening (connection m) → IsListening (connection (on_close supported m))
  unfolding on_close schedule_reconnect emit
  on_close-IsListening m v = ground arith

  on_reconnect-IsListening :
      (made : Bool) (m : Manager)
      → is_some m.reconnect_timer ≡ true
      → IsListening (connection m)
      → IsListening (connection (on_reconnect supported made m))
  unfolding on_reconnect try_connect_web_socket enter_polling_fallback emit start_polling_fallback
  on_reconnect-IsListening made m e v = ground arith

  set_poll_interval-IsListening :
      (ms : ℤ) (m m' : Manager)
      → set_poll_interval ms m ≡ ok m'
      → IsListening (connection m)
      → IsListening (connection m')
  unfolding set_poll_interval
  set_poll_interval-IsListening (pos zero) m m' e v = absurd (thrown e)
  set_poll_interval-IsListening (pos (suc n)) m m' e v =
      subst (λ x. IsListening (connection x)) (ok_injective e)
        (restart_timer-IsListening
          (record m {
            config = record m.config { poll_interval = min (suc n) m.config.max_poll_interval_ms };
            current_poll_retry_delay =
                min (min (suc n) m.config.max_poll_interval_ms) m.config.poll_retry_delay_ms;
          })
          (ground arith))
  set_poll_interval-IsListening (negsuc n) m m' e v = absurd (thrown e)

  poll_timer_fires-IsListening :
      (timer : PollTimer) (m : Manager)
      → m.poll_timer ≡ some timer
      → m.poll_pending ≡ true
      → IsListening (connection m)
      → IsListening (connection (poll_timer_fires timer m))
  unfolding poll_timer_fires
  poll_timer_fires-IsListening timer m e pending v = ground (arith, e, pending, v)

  after_poll-IsListening :
      (timer : PollTimer) (m : Manager) (before after : List PollTimer)
      → m.polls ≡ before ++ (timer ∷ after)
      → IsListening (connection m)
      → IsListening (connection (after_poll timer (record m { polls = before ++ after })))
  unfolding after_poll start_polling start_polling_fallback
  after_poll-IsListening (regular delay) m before after e v =
      let split =
        any-append_cons (reschedules m.use_polling_fallback) before after (regular delay) in
      ground (arith, split, e, v)
  after_poll-IsListening (fallback delay) m before after e v =
      let split =
        any-append_cons (reschedules m.use_polling_fallback) before after (fallback delay) in
      ground (arith, split, e, v)

  kept-IsListening : {c d : Connection} → d ≡ c → IsListening c → IsListening d
  kept-IsListening e v = subst IsListening (sym e) v

  -- `on_open` after the subscriptions, which leave the connection as it is.
  opened-IsListening :
      (m : Manager)
      → m.web_socket ≡ some connecting
      → IsListening (connection m)
      → IsListening (
          polling (record (connection m) {
            web_socket = some opened;
            current_reconnect_delay = m.config.reconnect_delay_ms;
            use_polling_fallback = false;
            is_reconnecting = false;
          }))
  opened-IsListening m e v = ground arith

  on_open-IsListening :
      (m : Manager)
      → m.web_socket ≡ some connecting
      → IsListening (connection m)
      → IsListening (connection (on_open m))
  unfolding on_open start_polling emit
  on_open-IsListening m e v =
      subst (λ c. IsListening (polling c)) (sym (connection-subscribe_to_all _ _))
        (opened-IsListening m e v)

  Step-IsListening :
      (m : Manager) {m' : Manager}
      → Step supported m m'
      → IsListening (connection m)
      → IsListening (connection m')
  unfolding remove_swap subscribe_to_swap_updates unsubscribe on_initial_poll
  Step-IsListening m (started made refs) v = start-IsListening made refs m v
  Step-IsListening m (added r) v = add_swap-IsListening r m v
  Step-IsListening m (removed id) v = v
  Step-IsListening m (interval_set ms m' e) v = set_poll_interval-IsListening ms m m' e v
  Step-IsListening m (subscribed id callback) v = v
  Step-IsListening m (unsubscribed id callback) v = v
  Step-IsListening m (socket_opened e) v = on_open-IsListening m e v
  Step-IsListening m (socket_failed) v = on_error-IsListening m v
  Step-IsListening m (socket_timed_out) v = on_timeout-IsListening m v
  Step-IsListening m (socket_closed) v = on_close-IsListening m v
  Step-IsListening m (reconnected made e) v = on_reconnect-IsListening made m e v
  Step-IsListening m (initially_polled) v = v
  Step-IsListening m (poll_fired timer e pending) v =
      poll_timer_fires-IsListening timer m e pending v
  Step-IsListening m (polled timer before after e) v =
      after_poll-IsListening timer m before after e v
  Step-IsListening m (messaged msg) v =
      kept-IsListening (connection-handle_web_socket_message msg m) v
  Step-IsListening m (poll_ended r poll) v = kept-IsListening (connection-handle_poll r poll m) v
  Step-IsListening m (retried r poll) v = kept-IsListening (connection-handle_retry r poll m) v
  Step-IsListening m (resumed r) v = kept-IsListening (connection-resume r m) v
  Step-IsListening m (saved r before after e) v =
      kept-IsListening (connection-after_save r (record m { saving = before ++ after })) v
  Step-IsListening m (save_failed r before after e) v = v
  Step-IsListening m (acted a outcome before after e) v =
      kept-IsListening (connection-end_action a outcome (record m { acting = before ++ after })) v

  -- A manager that is never stopped always has a way to hear of its swaps once it is started: a timer
  -- for a poll that is yet to fire, or a poll that runs, with the next timer set when it ends; or it
  -- can use sockets, and has one or a timer to make one. This holds with sockets and without,
  -- whatever fails, while polls end in any order.
  pub Runs-IsListening :
      {config : SwapManagerConfig} {objects : Ref → BoltzSwap} {m : Manager}
      → Runs supported config objects m
      → IsListening (connection m)
  unfolding create
  Runs-IsListening constructed = inr (refl, refl, refl, refl, refl)
  Runs-IsListening (then_step {m} run step) = Step-IsListening m step (Runs-IsListening run)
