-- ===== src/Boltz/SwapManager/Steps.antt =====
-- The manager over time: the calls of its clients, the events of the socket, the timers and the
-- server, and the ends of the calls that wait, in any order. This allows more than the code does:
-- an answer may come for any swap, and a swap may be resumed at any time.
pub mod Locks
pub mod Connected
pub mod Delays
pub mod Listening
use congenial_giggle.Common.{ℕ, ◌≡◌, Bool, List, ◌∷◌, ◌++◌, Option, some, is_some, true, ok}
use congenial_giggle.Common.Int.{ℤ}
use congenial_giggle.Extension.Asset.Hex.{Text}
use congenial_giggle.Boltz.Swap.{BoltzSwap}
use congenial_giggle.Boltz.SwapManager.{
  Manager, Ref, connecting, PollTimer, Acting, SwapManagerConfig, create,
}
use congenial_giggle.Boltz.SwapManager.Connection.{
  poll_timer_fires, after_poll, set_poll_interval, on_open, on_error, on_timeout, on_initial_poll,
  on_reconnect, on_close,
}
use congenial_giggle.Boltz.SwapManager.Updates.{
  Outcome, end_action, after_save, resume, Message, handle_web_socket_message, Poll, handle_poll,
  handle_retry,
}
use congenial_giggle.Boltz.SwapManager.Monitoring.{
  start, stop, add_swap, remove_swap, subscribe_to_swap_updates, unsubscribe,
}

-- A step that no client asks to stop the manager with. `supported` is the runtime's support of
-- sockets.
pub data Step (supported : Bool) (m : Manager) : Manager → Type 0 where
  started :
      (created : Bool) (pending_swaps : List Ref)
      → Step supported m (start supported created pending_swaps m)
  added : (r : Ref) → Step supported m (add_swap r m)
  removed : (id : Text) → Step supported m (remove_swap id m)
  interval_set : (ms : ℤ) (m' : Manager) → set_poll_interval ms m ≡ ok m' → Step supported m m'
  subscribed :
      (id : Text) (callback : ℕ) → Step supported m (subscribe_to_swap_updates id callback m)
  unsubscribed : (id : Text) (callback : ℕ) → Step supported m (unsubscribe id callback m)
  socket_opened : m.web_socket ≡ some connecting → Step supported m (on_open m)
  socket_failed : Step supported m (on_error m)
  socket_timed_out : Step supported m (on_timeout m)
  socket_closed : Step supported m (on_close supported m)
  reconnected :
      (created : Bool)
      → is_some m.reconnect_timer ≡ true
      → Step supported m (on_reconnect supported created m)
  initially_polled : Step supported m (on_initial_poll m)
  poll_fired :
      (timer : PollTimer)
      → m.poll_timer ≡ some timer
      → m.poll_pending ≡ true
      → Step supported m (poll_timer_fires timer m)
  polled :
      (timer : PollTimer) (before after : List PollTimer)
      → m.polls ≡ before ++ (timer ∷ after)
      → Step supported m (after_poll timer (record m { polls = before ++ after }))
  messaged : (msg : Option Message) → Step supported m (handle_web_socket_message msg m)
  poll_ended : (r : Ref) (poll : Poll) → Step supported m (handle_poll r poll m)
  retried : (r : Ref) (poll : Poll) → Step supported m (handle_retry r poll m)
  resumed : (r : Ref) → Step supported m (resume r m)
  saved :
      (r : Ref) (before after : List Ref)
      → m.saving ≡ before ++ (r ∷ after)
      → Step supported m (after_save r (record m { saving = before ++ after }))
  save_failed :
      (r : Ref) (before after : List Ref)
      → m.saving ≡ before ++ (r ∷ after)
      → Step supported m (record m { saving = before ++ after })
  acted :
      (a : Acting) (outcome : Outcome) (before after : List Acting)
      → m.acting ≡ before ++ (a ∷ after)
      → Step supported m (end_action a outcome (record m { acting = before ++ after }))

-- What can be reached from a new manager, without and with calls of `stop`.
pub data Runs (supported : Bool) (config : SwapManagerConfig) (objects : Ref → BoltzSwap)
    : Manager → Type 0 where
  constructed : Runs supported config objects (create config objects)
  then_step :
      {m m' : Manager}
      → Runs supported config objects m
      → Step supported m m'
      → Runs supported config objects m'

pub data Reaches (supported : Bool) (config : SwapManagerConfig) (objects : Ref → BoltzSwap)
    : Manager → Type 0 where
  constructed : Reaches supported config objects (create config objects)
  then_step :
      {m m' : Manager}
      → Reaches supported config objects m
      → Step supported m m'
      → Reaches supported config objects m'
  then_stop :
      {m : Manager} → Reaches supported config objects m → Reaches supported config objects (stop m)
