-- ===== src/Boltz/SwapManager.antt =====
-- packages/boltz-swap/src/swap-manager.ts: SwapManager, its state. A swap is an object that the
-- manager, its callers and its pending calls share: maps hold references, and `objects` has what a
-- reference stands for. Each event is logged once, whatever the number of listeners, and the clock,
-- the socket and the server are the environment.
pub mod Connection
pub mod Updates
pub mod Monitoring
pub mod Steps
use congenial_giggle.Common.{
  ℕ, ◌==◌, Bool, true, false, ◌&&◌, ◌||◌, List, [], ◌∷◌, ◌++◌, Option, none, some, if◌then◌else◌,
}
use congenial_giggle.Common.Dict.{Dict}
use congenial_giggle.Extension.Asset.Hex.{Text}
use congenial_giggle.Boltz.Status.{
  BoltzSwapStatus, is_reverse_final_status, is_submarine_final_status, is_chain_final_status,
}
use congenial_giggle.Boltz.Swap.{
  BoltzSwap, status_of, is_pending_reverse_swap, is_pending_submarine_swap, is_pending_chain_swap,
}

pub data Actions : Type 0 where
  claim refund claim_ark claim_btc refund_ark sign_server_claim : Actions

-- The configuration as it is given.
pub record SwapManagerConfig : Type 0 where
  pub enable_auto_actions : Option Bool
  pub poll_interval : Option ℕ
  pub reconnect_delay_ms : Option ℕ
  pub max_reconnect_delay_ms : Option ℕ
  pub poll_retry_delay_ms : Option ℕ
  pub max_poll_retry_delay_ms : Option ℕ
  pub max_poll_interval_ms : Option ℕ

-- The configuration with its defaults.
pub record Config : Type 0 where
  pub enable_auto_actions : Bool
  pub poll_interval : ℕ
  pub reconnect_delay_ms : ℕ
  pub max_reconnect_delay_ms : ℕ
  pub poll_retry_delay_ms : ℕ
  pub max_poll_retry_delay_ms : ℕ
  pub max_poll_interval_ms : ℕ

abbrev pub Ref : Type 0
Ref = ℕ

pub data Event : Type 0 where
  swap_update : BoltzSwap → BoltzSwapStatus → Event
  -- a callback of `subscribeToSwapUpdates`
  subscriber_update : ℕ → BoltzSwap → BoltzSwapStatus → Event
  swap_completed swap_failed : BoltzSwap → Event
  action_executed : BoltzSwap → Actions → Event
  ws_connected ws_disconnected : Event
  -- a subscription sent over the socket
  subscribe_sent : Text → Event

-- `pollTimer`: the timer of `startPolling` or of `startPollingFallback`, with its delay.
pub data PollTimer : Type 0 where
  regular fallback : ℕ → PollTimer

pub data Socket : Type 0 where
  connecting opened closing : Socket

-- A call of `executeAutonomousAction` that awaits its callback: the swap, the action, and whether a
-- status update called it.
pub record Acting : Type 0 where
  pub target : Ref
  pub action : Actions
  pub updating : Bool

pub record Manager : Type 0 where
  pub config : Config
  pub objects : Ref → BoltzSwap
  pub web_socket : Option Socket
  pub monitored_swaps : Dict Text Ref
  pub initial_swaps : Dict Text Ref
  -- the timer that was set last, whether it has yet to fire, and the callbacks that await a poll
  pub poll_timer : Option PollTimer
  pub poll_pending : Bool
  pub polls : List PollTimer
  pub reconnect_timer : Option ℕ
  pub initial_poll_timer : Bool
  pub poll_retry_timers : List Text
  pub is_running : Bool
  pub current_reconnect_delay : ℕ
  pub current_poll_retry_delay : ℕ
  pub use_polling_fallback : Bool
  pub is_reconnecting : Bool
  pub web_socket_unavailable : Bool
  pub swaps_in_progress : List Text
  pub swap_subscriptions : Dict Text (List ℕ)
  -- calls that await the save of a swap, and calls that await an action
  pub saving : List Ref
  pub acting : List Acting
  pub events : List Event

abbrev pub or_default {ℓ} : {A : Type ℓ} → Option A → A → A
or_default none a = a
or_default (some b) a = b

unfoldable pub resolve : SwapManagerConfig → Config
resolve config = record {
  enable_auto_actions = or_default config.enable_auto_actions true;
  poll_interval = or_default config.poll_interval 30000;
  reconnect_delay_ms = or_default config.reconnect_delay_ms 1000;
  max_reconnect_delay_ms = or_default config.max_reconnect_delay_ms 60000;
  poll_retry_delay_ms = or_default config.poll_retry_delay_ms 5000;
  max_poll_retry_delay_ms = or_default config.max_poll_retry_delay_ms 300000;
  max_poll_interval_ms = or_default config.max_poll_interval_ms 300000;
}

-- The constructor.
unfoldable pub create : SwapManagerConfig → (Ref → BoltzSwap) → Manager
create config objects = record {
  config = resolve config;
  objects = objects;
  web_socket = none;
  monitored_swaps = [];
  initial_swaps = [];
  poll_timer = none;
  poll_pending = false;
  polls = [];
  reconnect_timer = none;
  initial_poll_timer = false;
  poll_retry_timers = [];
  is_running = false;
  current_reconnect_delay = (resolve config).reconnect_delay_ms;
  current_poll_retry_delay = (resolve config).poll_retry_delay_ms;
  use_polling_fallback = false;
  is_reconnecting = false;
  web_socket_unavailable = false;
  swaps_in_progress = [];
  swap_subscriptions = [];
  saving = [];
  acting = [];
  events = [];
}

unfoldable pub emit : List Event → Manager → Manager
emit events m = record m { events = m.events ++ events }

unfoldable pub is_final_status : BoltzSwap → Bool
is_final_status swap =
    (is_pending_reverse_swap swap && is_reverse_final_status (status_of swap))
    || (is_pending_submarine_swap swap && is_submarine_final_status (status_of swap))
    || (is_pending_chain_swap swap && is_chain_final_status (status_of swap))
