-- ===== src/Boltz/SwapManager/Steps/Delays.antt =====
-- The delays of the reconnection and of the fallback polls grow, but not past their maxima.
use Prim.Native.Nat.{min}
use congenial_giggle.Common.{
  ℕ, zero, suc, ◌≤◌, ◌≡◌, sym, subst, arith, Bool, false, List, ◌++◌, Option, none, some, if_elim,
  ok,
}
use congenial_giggle.Common.Results.{thrown, ok_injective}
use congenial_giggle.Common.Int.{ℤ, pos, negsuc}
use congenial_giggle.Boltz.Swap.{BoltzSwap}
use congenial_giggle.Boltz.SwapManager.{
  Manager, Ref, PollTimer, regular, fallback, opened, emit, create, resolve, SwapManagerConfig,
}
use congenial_giggle.Boltz.SwapManager.Connection.{
  start_polling, start_polling_fallback, poll_timer_fires, after_poll, enter_polling_fallback,
  restart_timer, set_poll_interval, subscribe_to_swap, on_open, on_error, on_timeout,
  on_initial_poll, try_connect_web_socket, schedule_reconnect, on_reconnect, on_close,
}
use congenial_giggle.Boltz.SwapManager.Monitoring.{
  start, stop, add_swap, remove_swap, subscribe_to_swap_updates, unsubscribe,
}
use congenial_giggle.Boltz.SwapManager.Steps.{
  Step, started, added, removed, interval_set, subscribed, unsubscribed, socket_opened, poll_fired,
  socket_failed, socket_timed_out, socket_closed, reconnected, initially_polled, polled, messaged,
  poll_ended, retried, resumed, saved, save_failed, acted, Reaches, constructed, then_step,
  then_stop,
}
use congenial_giggle.Boltz.SwapManager.Steps.Connected.{
  polling, connection-subscribe_to_all, Connection, connection, connection-after_save,
  connection-resume, connection-end_action, connection-handle_web_socket_message,
  connection-handle_poll, connection-handle_retry,
}

abbrev FitsReconnect : Option ℕ → ℕ → Type 0
FitsReconnect none most = Unit {0}
FitsReconnect (some delay) most = delay ≤ most

abbrev FitsPoll : Option PollTimer → ℕ → Type 0
FitsPoll (some (fallback delay)) most = delay ≤ most
FitsPoll _ most = Unit {0}

-- The configured delays do not exceed the maxima, and neither do the present ones nor those of the
-- timers of a reconnection and of a fallback poll.
abbrev pub IsBounded : Connection → Type 0
IsBounded c =
    (c.config.reconnect_delay_ms ≤ c.config.max_reconnect_delay_ms)
    × (c.config.poll_retry_delay_ms ≤ c.config.max_poll_retry_delay_ms)
    × (c.current_reconnect_delay ≤ c.config.max_reconnect_delay_ms)
    × (c.current_poll_retry_delay ≤ c.config.max_poll_retry_delay_ms)
    × FitsReconnect c.reconnect_timer c.config.max_reconnect_delay_ms
    × FitsPoll c.poll_timer c.config.max_poll_retry_delay_ms

try_connect_web_socket-IsBounded :
    (supported made : Bool) (m : Manager)
    → IsBounded (connection m)
    → IsBounded (connection (try_connect_web_socket supported made m))
unfolding try_connect_web_socket enter_polling_fallback emit start_polling_fallback
try_connect_web_socket-IsBounded supported made m v = ground arith

start-IsBounded :
    (supported made : Bool) (refs : List Ref) (m : Manager)
    → IsBounded (connection m)
    → IsBounded (connection (start supported made refs m))
unfolding start
start-IsBounded supported made refs m v =
    if_elim (λ x. IsBounded (connection x)) m.is_running (λ running. v)
      (λ idle. try_connect_web_socket-IsBounded supported made _ v)

add_swap-IsBounded :
    (r : Ref) (m : Manager) → IsBounded (connection m) → IsBounded (connection (add_swap r m))
unfolding add_swap subscribe_to_swap emit start_polling_fallback
add_swap-IsBounded r m v = ground arith

restart_timer-IsBounded :
    (m : Manager) → IsBounded (connection m) → IsBounded (connection (restart_timer m))
unfolding restart_timer start_polling start_polling_fallback
restart_timer-IsBounded m v = ground arith

on_error-IsBounded : (m : Manager) → IsBounded (connection m) → IsBounded (connection (on_error m))
unfolding on_error enter_polling_fallback emit start_polling_fallback
on_error-IsBounded m v = ground arith

on_timeout-IsBounded :
    (m : Manager) → IsBounded (connection m) → IsBounded (connection (on_timeout m))
unfolding on_timeout enter_polling_fallback emit start_polling_fallback
on_timeout-IsBounded m v = ground arith

on_close-IsBounded :
    (supported : Bool) (m : Manager)
    → IsBounded (connection m)
    → IsBounded (connection (on_close supported m))
unfolding on_close schedule_reconnect emit
on_close-IsBounded supported m v = ground arith

on_reconnect-IsBounded :
    (supported made : Bool) (m : Manager)
    → IsBounded (connection m)
    → IsBounded (connection (on_reconnect supported made m))
unfolding on_reconnect try_connect_web_socket enter_polling_fallback emit start_polling_fallback
on_reconnect-IsBounded supported made m v = ground arith

set_poll_interval-IsBounded :
    (ms : ℤ) (m m' : Manager)
    → set_poll_interval ms m ≡ ok m'
    → IsBounded (connection m)
    → IsBounded (connection m')
unfolding set_poll_interval
set_poll_interval-IsBounded (pos zero) m m' e v = absurd (thrown e)
set_poll_interval-IsBounded (pos (suc n)) m m' e v =
    subst (λ x. IsBounded (connection x)) (ok_injective e)
      (restart_timer-IsBounded
        (record m {
          config = record m.config { poll_interval = min (suc n) m.config.max_poll_interval_ms };
          current_poll_retry_delay =
              min (min (suc n) m.config.max_poll_interval_ms) m.config.poll_retry_delay_ms;
        })
        (ground arith))
set_poll_interval-IsBounded (negsuc n) m m' e v = absurd (thrown e)

after_poll-IsBounded :
    (timer : PollTimer) (m : Manager)
    → IsBounded (connection m)
    → IsBounded (connection (after_poll timer m))
unfolding after_poll start_polling start_polling_fallback
after_poll-IsBounded (regular delay) m v = ground arith
after_poll-IsBounded (fallback delay) m v = ground arith

kept-IsBounded : {c d : Connection} → d ≡ c → IsBounded c → IsBounded d
kept-IsBounded e v = subst IsBounded (sym e) v

-- `on_open` after the subscriptions, which leave the connection as it is.
opened-IsBounded :
    (m : Manager)
    → IsBounded (connection m)
    → IsBounded (
        polling (record (connection m) {
          web_socket = some opened;
          current_reconnect_delay = m.config.reconnect_delay_ms;
          use_polling_fallback = false;
          is_reconnecting = false;
        }))
opened-IsBounded m v = ground arith

on_open-IsBounded : (m : Manager) → IsBounded (connection m) → IsBounded (connection (on_open m))
unfolding on_open start_polling emit
on_open-IsBounded m v =
    subst (λ c. IsBounded (polling c)) (sym (connection-subscribe_to_all _ _))
      (opened-IsBounded m v)

Step-IsBounded :
    (supported : Bool) (m : Manager) {m' : Manager}
    → Step supported m m'
    → IsBounded (connection m)
    → IsBounded (connection m')
unfolding remove_swap subscribe_to_swap_updates unsubscribe on_initial_poll poll_timer_fires
Step-IsBounded supported m (started made refs) v = start-IsBounded supported made refs m v
Step-IsBounded supported m (added r) v = add_swap-IsBounded r m v
Step-IsBounded supported m (removed id) v = v
Step-IsBounded supported m (interval_set ms m' e) v = set_poll_interval-IsBounded ms m m' e v
Step-IsBounded supported m (subscribed id callback) v = v
Step-IsBounded supported m (unsubscribed id callback) v = v
Step-IsBounded supported m (socket_opened e) v = on_open-IsBounded m v
Step-IsBounded supported m (socket_failed) v = on_error-IsBounded m v
Step-IsBounded supported m (socket_timed_out) v = on_timeout-IsBounded m v
Step-IsBounded supported m (socket_closed) v = on_close-IsBounded supported m v
Step-IsBounded supported m (reconnected made e) v = on_reconnect-IsBounded supported made m v
Step-IsBounded supported m (initially_polled) v = v
Step-IsBounded supported m (poll_fired timer e pending) v = v
Step-IsBounded supported m (polled timer before after e) v =
    after_poll-IsBounded timer (record m { polls = before ++ after }) v
Step-IsBounded supported m (messaged msg) v =
    kept-IsBounded (connection-handle_web_socket_message msg m) v
Step-IsBounded supported m (poll_ended r poll) v =
    kept-IsBounded (connection-handle_poll r poll m) v
Step-IsBounded supported m (retried r poll) v = kept-IsBounded (connection-handle_retry r poll m) v
Step-IsBounded supported m (resumed r) v = kept-IsBounded (connection-resume r m) v
Step-IsBounded supported m (saved r before after e) v =
    kept-IsBounded (connection-after_save r (record m { saving = before ++ after })) v
Step-IsBounded supported m (save_failed r before after e) v = v
Step-IsBounded supported m (acted a outcome before after e) v =
    kept-IsBounded (connection-end_action a outcome (record m { acting = before ++ after })) v

stop-IsBounded : (m : Manager) → IsBounded (connection m) → IsBounded (connection (stop m))
unfolding stop
stop-IsBounded m v = ground arith

-- If the configured delays do not exceed their maxima, then at any time, whatever happens, neither
-- does the present delay of the reconnection or of the fallback polls, nor that of the timer of a
-- reconnection or of a fallback poll. The interval of regular polls is not bounded so.
pub Reaches-IsBounded :
    {supported : Bool} {config : SwapManagerConfig} {objects : Ref → BoltzSwap} {m : Manager}
    → (resolve config).reconnect_delay_ms ≤ (resolve config).max_reconnect_delay_ms
    → (resolve config).poll_retry_delay_ms ≤ (resolve config).max_poll_retry_delay_ms
    → Reaches supported config objects m
    → IsBounded (connection m)
unfolding create
Reaches-IsBounded h k constructed = (h, k, h, k, tt, tt)
Reaches-IsBounded {supported} h k (then_step {m} reached step) =
    Step-IsBounded supported m step (Reaches-IsBounded h k reached)
Reaches-IsBounded h k (then_stop {m} reached) = stop-IsBounded m (Reaches-IsBounded h k reached)
