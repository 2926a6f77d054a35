-- ===== src/Boltz/SwapManager/Steps/Connected.antt =====
-- The part of the manager that is about the connection; the status of a swap does not touch it.
use congenial_giggle.Common.{
  ℕ, ◌≡◌, refl, ◌∙◌, Bool, true, false, ◌&&◌, ◌||◌, not, List, [], ◌∷◌, Option, none, some,
  is_empty, if_elim,
}
use congenial_giggle.Common.Dict.{has_item, delete_item}
use congenial_giggle.Extension.Asset.Packet.{same_text}
use congenial_giggle.Boltz.Status.{BoltzSwapStatus, same}
use congenial_giggle.Boltz.Swap.{id_of, status_of}
use congenial_giggle.Boltz.SwapManager.{
  Manager, Config, Ref, Acting, Actions, PollTimer, regular, Socket, emit, is_final_status,
}
use congenial_giggle.Extension.Asset.Hex.{Text}
use congenial_giggle.Boltz.SwapManager.Connection.{is_open, subscribe_to_swap, subscribe_to_all}
use congenial_giggle.Boltz.SwapManager.Updates.{
  action_of, finish_update, finish_if, lock, unlock, start_action, execute_autonomous_action,
  Outcome, end_action, handle_swap_status_update, after_save, should_resume, resume, Message,
  handle_swap_message, handle_web_socket_message, Poll, answered, rate_limited, poll_failed,
  handle_poll, handle_retry,
}

pub record Connection : Type 0 where
  pub config : Config
  pub web_socket : Option Socket
  pub poll_timer : Option PollTimer
  pub poll_pending : Bool
  pub polls : List PollTimer
  pub reconnect_timer : Option ℕ
  pub is_running : Bool
  pub current_reconnect_delay : ℕ
  pub current_poll_retry_delay : ℕ
  pub use_polling_fallback : Bool
  pub is_reconnecting : Bool
  pub web_socket_unavailable : Bool

abbrev pub connection : Manager → Connection
connection m = record {
  config = m.config;
  web_socket = m.web_socket;
  poll_timer = m.poll_timer;
  poll_pending = m.poll_pending;
  polls = m.polls;
  reconnect_timer = m.reconnect_timer;
  is_running = m.is_running;
  current_reconnect_delay = m.current_reconnect_delay;
  current_poll_retry_delay = m.current_poll_retry_delay;
  use_polling_fallback = m.use_polling_fallback;
  is_reconnecting = m.is_reconnecting;
  web_socket_unavailable = m.web_socket_unavailable;
}

-- The connection with the regular poll timer.
abbrev pub polling : Connection → Connection
polling c = record c { poll_timer = some (regular c.config.poll_interval); poll_pending = true }

abbrev pub Keeps : Manager → Manager → Type 0
Keeps m m' = connection m' ≡ connection m

pub connection-finish_if :
    (updating : Bool) (r : Ref) (m : Manager) → Keeps m (finish_if updating r m)
unfolding finish_if finish_update emit
connection-finish_if updating r m =
    if_elim (Keeps m) updating
      (λ yes_case.
        if_elim (Keeps m) (is_final_status (m.objects r)) (λ final. refl) (λ pending. refl))
      (λ no_case. refl)

connection-start_action :
    (action : Option Actions) (updating : Bool) (r : Ref) (m : Manager)
    → Keeps m (start_action action updating r m)
unfolding start_action unlock
connection-start_action none updating r m =
    connection-finish_if updating r (unlock (id_of (m.objects r)) m)
connection-start_action (some action) updating r m = refl

connection-execute_autonomous_action :
    (updating : Bool) (r : Ref) (m : Manager) → Keeps m (execute_autonomous_action updating r m)
unfolding execute_autonomous_action lock
connection-execute_autonomous_action updating r m =
    if_elim (Keeps m) (has_item same_text (id_of (m.objects r)) m.swaps_in_progress)
      (λ held. connection-finish_if updating r m)
      (λ free.
        connection-start_action (action_of (m.objects r)) updating r (lock (id_of (m.objects r)) m))

pub connection-after_save : (r : Ref) (m : Manager) → Keeps m (after_save r m)
unfolding after_save finish_if
connection-after_save r m =
    if_elim (Keeps m) m.config.enable_auto_actions
      (λ auto. connection-execute_autonomous_action true r m) (λ off. connection-finish_if true r m)

pub connection-resume : (r : Ref) (m : Manager) → Keeps m (resume r m)
unfolding resume
connection-resume r m =
    if_elim (Keeps m) (m.config.enable_auto_actions && should_resume (m.objects r))
      (λ due. connection-execute_autonomous_action false r m) (λ idle. refl)

pub connection-end_action :
    (a : Acting) (outcome : Outcome) (m : Manager) → Keeps m (end_action a outcome m)
unfolding end_action emit unlock
connection-end_action a outcome m = connection-finish_if a.updating a.target _

connection-handle_swap_status_update :
    (r : Ref) (status : BoltzSwapStatus) (m : Manager)
    → Keeps m (handle_swap_status_update r status m)
unfolding handle_swap_status_update emit
connection-handle_swap_status_update r status m =
    if_elim (Keeps m) (same (status_of (m.objects r)) status) (λ equal. refl) (λ changed. refl)

connection-handle_swap_message :
    (found : Option Ref) (msg : Message) (m : Manager) → Keeps m (handle_swap_message found msg m)
unfolding handle_swap_message emit
connection-handle_swap_message none msg m = refl
connection-handle_swap_message (some r) msg m =
    if_elim (Keeps m) (is_empty msg.error)
      (λ fine. connection-handle_swap_status_update r msg.status m) (λ failed. refl)

pub connection-handle_web_socket_message :
    (msg : Option Message) (m : Manager) → Keeps m (handle_web_socket_message msg m)
unfolding handle_web_socket_message
connection-handle_web_socket_message none m = refl
connection-handle_web_socket_message (some msg) m =
    if_elim (Keeps m) (not msg.is_update || is_empty msg.id) (λ skipped. refl)
      (λ taken. connection-handle_swap_message _ msg m)

pub connection-handle_poll : (r : Ref) (poll : Poll) (m : Manager) → Keeps m (handle_poll r poll m)
unfolding handle_poll
connection-handle_poll r (answered status) m =
    if_elim (Keeps m) (same status (status_of (m.objects r))) (λ unchanged. refl)
      (λ changed. connection-handle_swap_status_update r status m)
connection-handle_poll r rate_limited m = refl
connection-handle_poll r poll_failed m = refl

pub connection-handle_retry :
    (r : Ref) (poll : Poll) (m : Manager) → Keeps m (handle_retry r poll m)
unfolding handle_retry
connection-handle_retry r (answered status) m =
    connection-handle_poll r (answered status) (record m {
      poll_retry_timers = delete_item same_text (id_of (m.objects r)) m.poll_retry_timers;
    })
connection-handle_retry r rate_limited m = refl
connection-handle_retry r poll_failed m = refl

pub connection-subscribe_to_swap : (id : Text) (m : Manager) → Keeps m (subscribe_to_swap id m)
unfolding subscribe_to_swap emit
connection-subscribe_to_swap id m = if_elim (Keeps m) (is_open m) (λ ready. refl) (λ closed. refl)

pub connection-subscribe_to_all : (ids : List Text) (m : Manager) → Keeps m (subscribe_to_all ids m)
unfolding subscribe_to_all
connection-subscribe_to_all [] m = refl
connection-subscribe_to_all (id ∷ ids) m =
    connection-subscribe_to_all ids (subscribe_to_swap id m) ∙ connection-subscribe_to_swap id m
