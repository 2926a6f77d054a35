-- ===== src/Boltz/SwapManager/Monitoring.antt =====
-- packages/boltz-swap/src/swap-manager.ts: what its clients call.
pub mod Laws
use Prim.Native.Nat.{min}
use congenial_giggle.Common.{
  ℕ, Bool, true, false, ◌&&◌, not, List, [], ◌∷◌, Option, none, some, Result, ok, err,
  if◌then◌else◌, is_empty, length, ◌==◌,
}
use congenial_giggle.Common.Dict.{Dict, has_item, add_item, delete_item, get, set, delete, values}
use congenial_giggle.Extension.Asset.Hex.{Text}
use congenial_giggle.Extension.Asset.Packet.{same_text}
use congenial_giggle.Boltz.Status.{BoltzSwapStatus, same, invoice_settled, transaction_claimed}
use congenial_giggle.Boltz.Swap.{BoltzSwap, reverse, submarine, chain, id_of, status_of}
use congenial_giggle.Boltz.SwapManager.{Manager, Ref, Event, is_final_status, or_default}
use congenial_giggle.Boltz.SwapManager.Connection.{
  start_polling_fallback, try_connect_web_socket, subscribe_to_swap, is_open,
}

unfoldable pub set_all : (Ref → BoltzSwap) → List Ref → Dict Text Ref → Dict Text Ref
set_all objects [] swaps = swaps
set_all objects (r ∷ refs) swaps = set_all objects refs (set same_text (id_of (objects r)) r swaps)

-- `if (!this.isFinalStatus(swap)) this.monitoredSwaps.set(swap.id, swap)`
unfoldable pub monitor : (Ref → BoltzSwap) → List Ref → Dict Text Ref → Dict Text Ref
monitor objects [] swaps = swaps
monitor objects (r ∷ refs) swaps =
    let more = set same_text (id_of (objects r)) r swaps in
    monitor objects refs (if is_final_status (objects r) then swaps else more)

-- `start`, up to the resumption of the swaps.
unfoldable pub start : Bool → Bool → List Ref → Manager → Manager
start supported created pending_swaps m =
    if m.is_running
    then m
    else try_connect_web_socket supported created (record m {
      is_running = true;
      initial_swaps = set_all m.objects pending_swaps [];
      monitored_swaps = monitor m.objects pending_swaps m.monitored_swaps;
    })

unfoldable pub stop : Manager → Manager
stop m =
    if m.is_running
    then record m {
      is_running = false;
      web_socket = none;
      poll_timer = none;
      poll_pending = false;
      reconnect_timer = none;
      initial_poll_timer = false;
      poll_retry_timers = [];
    }
    else m

-- `pollAllSwaps` sends requests, whose answers `handle_poll` takes.
unfoldable pub add_swap : Ref → Manager → Manager
add_swap r m =
    let id = id_of (m.objects r) in
    let added =
      subscribe_to_swap id (record m { monitored_swaps = set same_text id r m.monitored_swaps }) in
    if added.use_polling_fallback && added.is_running
    then start_polling_fallback (record added {
      current_poll_retry_delay = min m.config.poll_interval m.config.poll_retry_delay_ms;
    })
    else added

unfoldable pub remove_swap : Text → Manager → Manager
remove_swap id m = record m {
  monitored_swaps = delete same_text id m.monitored_swaps;
  swap_subscriptions = delete same_text id m.swap_subscriptions;
  poll_retry_timers = delete_item same_text id m.poll_retry_timers;
}

unfoldable pub get_pending_swaps : Manager → List Ref
get_pending_swaps m = values m.monitored_swaps

unfoldable pub subscribe_to_swap_updates : Text → ℕ → Manager → Manager
subscribe_to_swap_updates id callback m =
    let subscribers = or_default (get same_text id m.swap_subscriptions) [] in
    record m {
      swap_subscriptions =
          set same_text id (add_item ◌==◌ callback subscribers) m.swap_subscriptions;
    }

-- The function that `subscribeToSwapUpdates` returns, as long as the set of subscribers is the one
-- that it was created with.
unfoldable pub unsubscribe : Text → ℕ → Manager → Manager
unsubscribe id callback m =
    let subscribers =
      delete_item ◌==◌ callback (or_default (get same_text id m.swap_subscriptions) []) in
    record m {
      swap_subscriptions =
          if is_empty subscribers
          then delete same_text id m.swap_subscriptions
          else set same_text id subscribers m.swap_subscriptions;
    }

unfoldable pub is_processing : Text → Manager → Bool
is_processing id m = has_item same_text id m.swaps_in_progress

unfoldable pub has_swap : Text → Manager → Bool
has_swap id m = elim (get same_text id m.monitored_swaps) [ none ↦ false | some _ ↦ true ]

-- `waitForSwapCompletion`: what it does at once, and what the promise becomes with a later status.
pub data Wait : Type 0 where
  fetch_txid : Text → Wait
  subscribed : Wait

pub data WaitError : Type 0 where
  not_found submarine_completed chain_completed : WaitError

unfoldable pub wait_final : BoltzSwap → Result WaitError Wait
wait_final (reverse swap) = ok (fetch_txid swap.id)
wait_final (submarine swap) = err submarine_completed
wait_final (chain swap) = err chain_completed

unfoldable pub known_swap : Text → Manager → Option Ref
known_swap id m = elim (get same_text id m.monitored_swaps) [
  | some r ↦ some r
  | none ↦ get same_text id m.initial_swaps
]

unfoldable pub wait_for_swap_completion : Text → Manager → Result WaitError Wait
wait_for_swap_completion id m = elim (known_swap id m) [
  | none ↦ err not_found
  | some r ↦ if is_final_status (m.objects r) then wait_final (m.objects r) else ok subscribed
]

-- How the promise is settled: with the txid that the provider has, with the swap's id, or not.
pub data Settled : Type 0 where
  resolve_fetched resolve_id : Text → Settled
  reject : BoltzSwapStatus → Settled

unfoldable pub settle : BoltzSwap → Settled
settle (reverse swap) =
    if same swap.status invoice_settled then resolve_fetched swap.id else reject swap.status
settle (submarine swap) =
    if same swap.status transaction_claimed then resolve_id swap.id else reject swap.status
settle (chain swap) =
    if same swap.status transaction_claimed then resolve_id swap.id else reject swap.status

-- The subscriber of the promise; `none` leaves the promise as it is.
unfoldable pub handle_update : BoltzSwap → Option Settled
handle_update swap = if is_final_status swap then some (settle swap) else none

pub record Stats : Type 0 where
  pub is_running : Bool
  pub monitored_swaps : ℕ
  pub websocket_connected : Bool
  pub use_polling_fallback : Bool
  pub current_reconnect_delay : ℕ
  pub current_poll_retry_delay : ℕ

unfoldable pub get_stats : Manager → Stats
get_stats m = record {
  is_running = m.is_running;
  monitored_swaps = length m.monitored_swaps;
  websocket_connected = is_open m;
  use_polling_fallback = m.use_polling_fallback;
  current_reconnect_delay = m.current_reconnect_delay;
  current_poll_retry_delay = m.current_poll_retry_delay;
}
