-- ===== src/Boltz/SwapManager/Connection.antt =====
-- packages/boltz-swap/src/swap-manager.ts: the socket, the timers and their delays.
use Prim.Native.Nat.{min}
use congenial_giggle.Common.{
  ◌*◌, Bool, true, false, ◌&&◌, ◌||◌, not, List, [], ◌∷◌, none, some, if◌then◌else◌, Result, ok,
  err, suc, is_some,
}
use congenial_giggle.Common.Int.{ℤ, pos}
use congenial_giggle.Common.Dict.{keys}
use congenial_giggle.Extension.Asset.Hex.{Text}
use congenial_giggle.Boltz.SwapManager.{
  Manager, subscribe_sent, ws_connected, ws_disconnected, PollTimer, regular, fallback, connecting,
  opened, closing, emit,
}

unfoldable pub start_polling : Manager → Manager
start_polling m = record m {
  poll_timer = some (regular m.config.poll_interval);
  poll_pending = true;
}

unfoldable pub start_polling_fallback : Manager → Manager
start_polling_fallback m = record m {
  poll_timer = some (fallback m.current_poll_retry_delay);
  poll_pending = true;
}

-- The callback of the poll timer up to the end of the poll. `pollTimer` stays set.
unfoldable pub poll_timer_fires : PollTimer → Manager → Manager
poll_timer_fires timer m = record m { poll_pending = false; polls = timer ∷ m.polls }

-- What the callback does when the poll has ended.
unfoldable pub after_poll : PollTimer → Manager → Manager
after_poll (regular delay) m = if m.is_running then start_polling m else m
after_poll (fallback delay) m =
    let slower = record m {
      current_poll_retry_delay =
          min (m.current_poll_retry_delay * 2) m.config.max_poll_retry_delay_ms;
    } in
    if m.is_running && m.use_polling_fallback then start_polling_fallback slower else slower

unfoldable pub enter_polling_fallback : Manager → Manager
enter_polling_fallback m =
    if m.is_running
    then emit (ws_disconnected ∷ []) (
        start_polling_fallback (record m {
          initial_poll_timer = false;
          is_reconnecting = false;
          web_socket = none;
          use_polling_fallback = true;
          current_poll_retry_delay = min m.config.poll_retry_delay_ms m.config.max_poll_interval_ms;
        }))
    else m

pub data RangeError : Type 0 where
  not_positive : RangeError

unfoldable pub restart_timer : Manager → Manager
restart_timer m =
    if m.is_running
    then if m.use_polling_fallback
      then start_polling_fallback m
      else if is_some m.poll_timer
      then start_polling m
      else m
    else m

unfoldable pub set_poll_interval : ℤ → Manager → Result RangeError Manager
set_poll_interval (pos (suc n)) m =
    let capped_interval = min (suc n) m.config.max_poll_interval_ms in
    ok (
      restart_timer (record m {
        config = record m.config { poll_interval = capped_interval };
        current_poll_retry_delay = min capped_interval m.config.poll_retry_delay_ms;
      }))
set_poll_interval _ m = err not_positive

unfoldable pub is_open : Manager → Bool
is_open m = elim m.web_socket [ some opened ↦ true | _ ↦ false ]

unfoldable pub subscribe_to_swap : Text → Manager → Manager
subscribe_to_swap id m = if is_open m then emit (subscribe_sent id ∷ []) m else m

unfoldable pub subscribe_to_all : List Text → Manager → Manager
subscribe_to_all [] m = m
subscribe_to_all (id ∷ ids) m = subscribe_to_all ids (subscribe_to_swap id m)

-- The handlers of the socket and of the timer that waits for it.
unfoldable pub on_open : Manager → Manager
on_open m =
    let ready = record m {
      web_socket = some opened;
      current_reconnect_delay = m.config.reconnect_delay_ms;
      use_polling_fallback = false;
      is_reconnecting = false;
    } in
    let subscribed = subscribe_to_all (keys m.monitored_swaps) ready in
    emit (ws_connected ∷ []) (start_polling (record subscribed { initial_poll_timer = true }))

unfoldable pub on_error : Manager → Manager
on_error m = enter_polling_fallback m

unfoldable pub on_timeout : Manager → Manager
on_timeout m =
    enter_polling_fallback
      (record m { web_socket = elim m.web_socket [ none ↦ none | some _ ↦ some closing ] })

-- The initial poll, two seconds after the socket has opened.
unfoldable pub on_initial_poll : Manager → Manager
on_initial_poll m = record m { initial_poll_timer = false }

-- `supported` is the runtime's support of sockets, and `created` that the constructor did not throw.
module _ (supported : Bool) where
  unfoldable pub try_connect_web_socket : Bool → Manager → Manager
  try_connect_web_socket created m =
      if m.is_reconnecting || m.web_socket_unavailable
      then m
      else if not supported
      then enter_polling_fallback (record m { web_socket_unavailable = true })
      else if created
      then record m { is_reconnecting = true; web_socket = some connecting }
      else enter_polling_fallback (record m { is_reconnecting = true })

  unfoldable pub schedule_reconnect : Manager → Manager
  schedule_reconnect m =
      if is_some m.reconnect_timer || (m.web_socket_unavailable || not supported)
      then m
      else record m {
        reconnect_timer = some m.current_reconnect_delay;
        current_reconnect_delay =
            min (m.current_reconnect_delay * 2) m.config.max_reconnect_delay_ms;
      }

  -- The callback of the reconnect timer.
  unfoldable pub on_reconnect : Bool → Manager → Manager
  on_reconnect created m =
      try_connect_web_socket created (record m { reconnect_timer = none; is_reconnecting = false })

  unfoldable pub on_close : Manager → Manager
  on_close m =
      let closed = record m { initial_poll_timer = false; web_socket = none } in
      emit (ws_disconnected ∷ []) (if m.is_running then schedule_reconnect closed else closed)
