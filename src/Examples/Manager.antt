-- ===== src/Examples/Manager.antt =====
-- The swap manager: the theorems at concrete inputs.
use congenial_giggle.Common.{
  zero, suc, ◌≤◌, ◌≡◌, refl, arith, true, false, [], ◌∷◌, none, some, if◌then◌else◌,
}
use congenial_giggle.Boltz.Status.{
  invoice_failed_to_pay, transaction_mempool, same, includes, is_submarine_refundable_status,
}
use congenial_giggle.Boltz.Swap.{BoltzSwap, submarine, status_of}
use congenial_giggle.Boltz.SwapManager.{
  Manager, SwapManagerConfig, Ref, refund, connecting, create, resolve,
}
use congenial_giggle.Boltz.SwapManager.Connection.{on_error, try_connect_web_socket}
use congenial_giggle.Boltz.SwapManager.Monitoring.{start, stop}
use congenial_giggle.Boltz.SwapManager.Monitoring.Laws as MonitoringLaws
use congenial_giggle.Boltz.SwapManager.Updates.{
  action_of, handle_swap_status_update, handle_poll, answered, resume,
}
use congenial_giggle.Boltz.SwapManager.Updates.Laws as UpdateLaws
use congenial_giggle.Boltz.SwapManager.Steps.{
  Runs, Reaches, constructed, then_step, started, socket_failed, resumed,
}
use congenial_giggle.Boltz.SwapManager.Steps.Connected.{connection}
use congenial_giggle.Boltz.SwapManager.Steps.Locks.{IsLocked, Reaches-IsLocked}
use congenial_giggle.Boltz.SwapManager.Steps.Delays.{IsBounded, Reaches-IsBounded}
use congenial_giggle.Boltz.SwapManager.Steps.Listening.{IsListening, Runs-IsListening}

-- A submarine swap that can be refunded, and one that waits.
abbrev failed_swap : BoltzSwap
failed_swap = submarine (record {
  id = 49 ∷ [];
  status = invoice_failed_to_pay;
  refundable = none;
  refunded = none;
  preimage_hash = none;
  request_invoice = 108 ∷ 110 ∷ [];
})

abbrev waiting_swap : BoltzSwap
waiting_swap = submarine (record {
  id = 50 ∷ [];
  status = transaction_mempool;
  refundable = none;
  refunded = none;
  preimage_hash = none;
  request_invoice = 108 ∷ 110 ∷ [];
})

abbrev objects : Ref → BoltzSwap
objects ref = elim ref [ zero ↦ failed_swap | suc n ↦ waiting_swap ]

abbrev defaults : SwapManagerConfig
defaults = record {
  enable_auto_actions = none;
  poll_interval = none;
  reconnect_delay_ms = none;
  max_reconnect_delay_ms = none;
  poll_retry_delay_ms = none;
  max_poll_retry_delay_ms = none;
  max_poll_interval_ms = none;
}

abbrev running : Manager
running = start true true (0 ∷ 1 ∷ []) (create defaults objects)

abbrev refunding : Manager
refunding = resume 0 running

running_run : Runs true defaults objects running
running_run = then_step constructed (started true (0 ∷ 1 ∷ []))

refunding_reached : Reaches true defaults objects refunding
refunding_reached = then_step (then_step constructed (started true (0 ∷ 1 ∷ []))) (resumed 0)

Reaches-IsLocked_example : IsLocked refunding
Reaches-IsLocked_example = Reaches-IsLocked refunding_reached

Runs-IsListening_example : IsListening true (connection (on_error running))
Runs-IsListening_example = Runs-IsListening true (then_step running_run socket_failed)

reconnect_fits : (resolve defaults).reconnect_delay_ms ≤ (resolve defaults).max_reconnect_delay_ms
unfolding resolve
reconnect_fits = omega arith

retry_fits : (resolve defaults).poll_retry_delay_ms ≤ (resolve defaults).max_poll_retry_delay_ms
unfolding resolve
retry_fits = omega arith

Reaches-IsBounded_example : IsBounded (connection refunding)
Reaches-IsBounded_example = Reaches-IsBounded reconnect_fits retry_fits refunding_reached

failed_action : action_of failed_swap ≡ some refund
unfolding action_of is_submarine_refundable_status includes same
failed_action = refl

is_new_status : same (status_of ((create defaults objects).objects 1)) invoice_failed_to_pay ≡ false
unfolding create same status_of
is_new_status = refl

handle_poll-save_failed_example :
    let m = create defaults objects in
    let failed = record (handle_swap_status_update 1 invoice_failed_to_pay m) {
      saving = m.saving;
    } in
    (status_of (failed.objects 1) ≡ invoice_failed_to_pay)
    × (failed.acting ≡ m.acting)
    × (handle_poll 1 (answered invoice_failed_to_pay) failed ≡ failed)
handle_poll-save_failed_example =
    UpdateLaws.handle_poll-save_failed 1 invoice_failed_to_pay (create defaults objects)
      is_new_status

is_started : running.is_running ≡ true
unfolding start create try_connect_web_socket
is_started = refl

has_sockets : running.web_socket_unavailable ≡ false
unfolding start create try_connect_web_socket
has_sockets = refl

start-stop_example :
    let restarted = start true true [] (stop running) in
    (restarted.is_running ≡ true)
    × (restarted.poll_timer ≡ none)
    × (restarted.reconnect_timer ≡ none)
    × (restarted.web_socket ≡ (if running.is_reconnecting then none else some connecting))
start-stop_example = MonitoringLaws.start-stop [] running is_started has_sockets
