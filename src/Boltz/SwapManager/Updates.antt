-- ===== src/Boltz/SwapManager/Updates.antt =====
-- packages/boltz-swap/src/swap-manager.ts: what a new status of a swap sets off. The code awaits the
-- save and the action; here each part up to the next `await` is a function, `saving` and `acting`
-- hold the calls that wait, and Steps.antt lets them end in any order.
pub mod Laws
use congenial_giggle.Common.{
  ℕ, ◌==◌, Bool, true, false, ◌&&◌, ◌||◌, not, List, [], ◌∷◌, ◌++◌, map, Option, none, some,
  if◌then◌else◌, is_empty,
}
use congenial_giggle.Common.Dict.{has_item, add_item, delete_item, get, delete}
use congenial_giggle.Extension.Asset.Hex.{Text}
use congenial_giggle.Extension.Asset.Packet.{same_text}
use congenial_giggle.Boltz.Status.{
  BoltzSwapStatus, same, is_reverse_claimable_status, is_submarine_refundable_status,
  is_chain_claimable_status, is_chain_refundable_status, is_chain_signable_status,
}
use congenial_giggle.Boltz.Swap.{
  BoltzSwap, reverse, submarine, chain, Chain, ark, btc, status_of, id_of, with_status,
  is_pending_reverse_swap, is_pending_submarine_swap, is_pending_chain_swap,
}
use congenial_giggle.Boltz.SwapManager.{
  Manager, Ref, Actions, claim, refund, claim_ark, claim_btc, refund_ark, sign_server_claim, Event,
  swap_update, subscriber_update, swap_completed, swap_failed, action_executed, Acting, emit,
  is_final_status, or_default,
}

-- The object of a reference after an assignment to it.
unfoldable pub assign : Ref → BoltzSwap → (Ref → BoltzSwap) → Ref → BoltzSwap
assign r swap objects q = if r == q then swap else objects q

unfoldable pub is_ark : Chain → Bool
is_ark ark = true
is_ark btc = false

unfoldable pub claim_of : Chain → Actions
claim_of ark = claim_ark
claim_of btc = claim_btc

-- The action that `executeAutonomousAction` takes for a swap.
unfoldable pub action_of : BoltzSwap → Option Actions
action_of (reverse swap) =
    if is_empty swap.preimage
    then none
    else if is_reverse_claimable_status swap.status
    then some claim
    else none
action_of (submarine swap) =
    if is_empty swap.request_invoice
    then none
    else if is_submarine_refundable_status swap.status
    then some refund
    else none
action_of (chain swap) =
    if is_chain_claimable_status swap.status
    then some (claim_of swap.request_to)
    else if is_chain_refundable_status swap.status
    then if is_ark swap.request_from then some refund_ark else none
    else if is_ark swap.request_to && is_chain_signable_status swap.status
    then some sign_server_claim
    else none

-- The end of `handleSwapStatusUpdate`.
unfoldable pub finish_update : Ref → Manager → Manager
finish_update r m =
    let swap = m.objects r in
    if is_final_status swap
    then emit (swap_completed swap ∷ []) (record m {
      monitored_swaps = delete same_text (id_of swap) m.monitored_swaps;
      swap_subscriptions = delete same_text (id_of swap) m.swap_subscriptions;
      poll_retry_timers = delete_item same_text (id_of swap) m.poll_retry_timers;
    })
    else m

unfoldable pub finish_if : Bool → Ref → Manager → Manager
finish_if updating r m = if updating then finish_update r m else m

unfoldable pub lock : Text → Manager → Manager
lock id m = record m { swaps_in_progress = add_item same_text id m.swaps_in_progress }

unfoldable pub unlock : Text → Manager → Manager
unlock id m = record m { swaps_in_progress = delete_item same_text id m.swaps_in_progress }

-- The locked part of `executeAutonomousAction`, up to the call of the action.
unfoldable pub start_action : Option Actions → Bool → Ref → Manager → Manager
start_action none updating r m = finish_if updating r (unlock (id_of (m.objects r)) m)
start_action (some action) updating r m = record m {
  acting = record { target = r; action = action; updating = updating } ∷ m.acting;
}

-- `executeAutonomousAction`, from a status update or when the manager starts.
unfoldable pub execute_autonomous_action : Bool → Ref → Manager → Manager
execute_autonomous_action updating r m =
    let id = id_of (m.objects r) in
    if has_item same_text id m.swaps_in_progress
    then finish_if updating r m
    else start_action (action_of (m.objects r)) updating r (lock id m)

-- How the callback of an action ends. The manager may have none: the calls then return at once, but
-- only the one that signs says so.
pub data Outcome : Type 0 where
  called not_set thrown : Outcome

unfoldable pub outcome_events : BoltzSwap → Actions → Outcome → List Event
outcome_events swap action called = action_executed swap action ∷ []
outcome_events swap sign_server_claim _ = []
outcome_events swap action not_set = action_executed swap action ∷ []
outcome_events swap action thrown = swap_failed swap ∷ []

-- What follows the callback: the event, the lock, and the rest of the update. The call itself has
-- left `acting`.
unfoldable pub end_action : Acting → Outcome → Manager → Manager
end_action a outcome m =
    let swap = m.objects a.target in
    finish_if a.updating a.target
      (unlock (id_of swap) (emit (outcome_events swap a.action outcome) m))

-- The first part of `handleSwapStatusUpdate`, up to the save.
unfoldable pub handle_swap_status_update : Ref → BoltzSwapStatus → Manager → Manager
handle_swap_status_update r new_status m =
    let old_status = status_of (m.objects r) in
    let swap = with_status new_status (m.objects r) in
    if same old_status new_status
    then m
    else emit
        (swap_update swap old_status
          ∷ map (λ callback. subscriber_update callback swap old_status)
              (or_default (get same_text (id_of swap) m.swap_subscriptions) []))
        (record m { objects = assign r swap m.objects; saving = r ∷ m.saving })

-- The part after the save; the call has left `saving`.
unfoldable pub after_save : Ref → Manager → Manager
after_save r m =
    if m.config.enable_auto_actions then execute_autonomous_action true r m else finish_update r m

-- `resumeActionableSwaps`: the test, and the call for one swap.
unfoldable pub should_resume : BoltzSwap → Bool
should_resume (reverse swap) = is_reverse_claimable_status swap.status
should_resume (submarine swap) = is_submarine_refundable_status swap.status
should_resume (chain swap) =
    is_chain_claimable_status swap.status
    || (is_chain_refundable_status swap.status
        || (is_ark swap.request_to && is_chain_signable_status swap.status))

unfoldable pub resume : Ref → Manager → Manager
resume r m =
    if m.config.enable_auto_actions && should_resume (m.objects r)
    then execute_autonomous_action false r m
    else m

-- A message of the socket that is JSON: whether its event is "update", and the first argument.
pub record Message : Type 0 where
  pub is_update : Bool
  pub id : Text
  pub error : Text
  pub status : BoltzSwapStatus

unfoldable pub handle_swap_message : Option Ref → Message → Manager → Manager
handle_swap_message none msg m = m
handle_swap_message (some r) msg m =
    if is_empty msg.error
    then handle_swap_status_update r msg.status m
    else emit (swap_failed (m.objects r) ∷ []) m

-- `none` is a message that is no JSON; a missing id or error is an empty text.
unfoldable pub handle_web_socket_message : Option Message → Manager → Manager
handle_web_socket_message none m = m
handle_web_socket_message (some msg) m =
    if not msg.is_update || is_empty msg.id
    then m
    else handle_swap_message (get same_text msg.id m.monitored_swaps) msg m

-- The answer to the poll of one swap; `rate_limited` is a network error with code 429.
pub data Poll : Type 0 where
  answered : BoltzSwapStatus → Poll
  rate_limited poll_failed : Poll

unfoldable pub handle_poll : Ref → Poll → Manager → Manager
handle_poll r (answered status) m =
    if same status (status_of (m.objects r)) then m else handle_swap_status_update r status m
handle_poll r rate_limited m = record m {
  poll_retry_timers = add_item same_text (id_of (m.objects r)) m.poll_retry_timers;
}
handle_poll r poll_failed m = m

-- The retry after two seconds; a second error is only logged.
unfoldable pub handle_retry : Ref → Poll → Manager → Manager
handle_retry r poll m =
    let retried = record m {
      poll_retry_timers = delete_item same_text (id_of (m.objects r)) m.poll_retry_timers;
    } in
    elim poll [ answered status ↦ handle_poll r (answered status) retried | _ ↦ retried ]
