-- ===== src/Boltz/SwapManager/Updates/Laws.antt =====
-- What a failed save does.
use congenial_giggle.Common.{◌≡◌, refl, ap, ◌∙◌, arith, true, false, ==_iff}
use congenial_giggle.Boltz.Status.{BoltzSwapStatus, same, invoice_expired}
use congenial_giggle.Boltz.Swap.{BoltzSwap, reverse, submarine, chain, status_of, with_status}
use congenial_giggle.Boltz.SwapManager.{Manager, Ref, emit}
use congenial_giggle.Boltz.SwapManager.Updates.{
  assign, handle_swap_status_update, answered, handle_poll,
}

same_refl : (s : BoltzSwapStatus) → same s s ≡ true
unfolding same
same_refl invoice_expired = refl
same_refl _ = refl

status_of-with_status :
    (s : BoltzSwapStatus) (swap : BoltzSwap) → status_of (with_status s swap) ≡ s
unfolding status_of with_status
status_of-with_status s (reverse swap) = refl
status_of-with_status s (submarine swap) = refl
status_of-with_status s (chain swap) = refl

assigned : (r : Ref) (swap : BoltzSwap) (objects : Ref → BoltzSwap) → assign r swap objects r ≡ swap
unfolding assign
assigned r swap objects = rw ((==_iff r r).1 refl) refl

-- A new status is written before it is saved. If the save fails, the update has ended: no action
-- runs for it, and the same status, when the server reports it again, changes nothing.
pub handle_poll-save_failed :
    (r : Ref) (s : BoltzSwapStatus) (m : Manager)
    → same (status_of (m.objects r)) s ≡ false
    → let failed = record (handle_swap_status_update r s m) { saving = m.saving } in
      (status_of (failed.objects r) ≡ s)
      × (failed.acting ≡ m.acting)
      × (handle_poll r (answered s) failed ≡ failed)
unfolding handle_poll handle_swap_status_update emit
handle_poll-save_failed r s m changed =
    let written : status_of (assign r (with_status s (m.objects r)) m.objects r) ≡ s =
      ap status_of (assigned r (with_status s (m.objects r)) m.objects)
      ∙ status_of-with_status s (m.objects r) in
    let seen : same s (status_of (assign r (with_status s (m.objects r)) m.objects r)) ≡ true =
      ap (same s) written ∙ same_refl s in
    ground (arith, written, seen)
