-- ===== src/Boltz/SwapManager/Monitoring/Laws.antt =====
-- What starts and what a stop leaves.
use congenial_giggle.Common.{
  ◌≡◌, arith, true, false, List, [], ◌∷◌, none, some, if◌then◌else◌, All, if_elim,
}
use congenial_giggle.Common.Dict.{Dict, set}
use congenial_giggle.Extension.Asset.Hex.{Text}
use congenial_giggle.Extension.Asset.Packet.{same_text}
use congenial_giggle.Boltz.Swap.{BoltzSwap, id_of}
use congenial_giggle.Boltz.SwapManager.{Manager, Ref, connecting, is_final_status}
use congenial_giggle.Boltz.SwapManager.Connection.{try_connect_web_socket}
use congenial_giggle.Boltz.SwapManager.Monitoring.{monitor, start, stop}

-- A manager that is stopped while it connects does not connect when it is started again: it runs
-- with neither a socket nor a timer. If it was not connecting, it makes a socket.
pub start-stop :
    (pending_swaps : List Ref) (m : Manager)
    → m.is_running ≡ true
    → m.web_socket_unavailable ≡ false
    → let restarted = start true true pending_swaps (stop m) in
      (restarted.is_running ≡ true)
      × (restarted.poll_timer ≡ none)
      × (restarted.reconnect_timer ≡ none)
      × (restarted.web_socket ≡ (if m.is_reconnecting then none else some connecting))
unfolding start stop try_connect_web_socket
start-stop pending_swaps m running available = ground arith

module _ (objects : Ref → BoltzSwap) where
  abbrev ArePending : Dict Text Ref → Type 0
  ArePending = All (λ e. is_final_status (objects e.1) ≡ false)

  set-ArePending :
      (id : Text) (r : Ref) (swaps : Dict Text Ref)
      → is_final_status (objects r) ≡ false
      → ArePending swaps
      → ArePending (set same_text id r swaps)
  set-ArePending id r [] p h = (p, tt)
  set-ArePending id r ((j, q) ∷ swaps) p h = ground (arith, set-ArePending id r swaps p h.1)

  -- The manager begins to monitor only swaps that are not final.
  pub monitor-ArePending :
      (pending_swaps : List Ref) (swaps : Dict Text Ref)
      → ArePending swaps
      → ArePending (monitor objects pending_swaps swaps)
  unfolding monitor
  monitor-ArePending [] swaps h = h
  monitor-ArePending (r ∷ refs) swaps h =
      if_elim (λ known. ArePending (monitor objects refs known)) (is_final_status (objects r))
        (λ final. monitor-ArePending refs swaps h)
        (λ pending.
          monitor-ArePending refs (set same_text (id_of (objects r)) r swaps)
            (set-ArePending (id_of (objects r)) r swaps pending h))
