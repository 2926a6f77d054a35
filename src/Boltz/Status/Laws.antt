-- ===== src/Boltz/Status/Laws.antt =====
-- How the classes of states lie to each other.
use congenial_giggle.Common.{◌≡◌, refl, false, ◌&&◌, ◌||◌, not}
use congenial_giggle.Boltz.Status.{
  BoltzSwapStatus, invoice_expired, transaction_lockup_failed, transaction_refunded, same, includes,
  is_submarine_failed_status, is_submarine_final_status, is_submarine_pending_status,
  is_submarine_refundable_status, is_submarine_success_status, is_reverse_failed_status,
  is_reverse_final_status, is_reverse_pending_status, is_reverse_claimable_status,
  is_reverse_success_status, is_chain_failed_status, is_chain_claimable_status,
  is_chain_final_status, is_chain_pending_status, is_chain_refundable_status,
  is_chain_signable_status, is_chain_success_status,
}

-- A submarine swap is never pending and final at once; it succeeds exactly in the final states that are
-- no failure; it can be refunded exactly where it has failed; and the one failure that is not final
-- is a failed lockup.
pub submarine-classes :
    (s : BoltzSwapStatus)
    → ((is_submarine_pending_status s && is_submarine_final_status s) ≡ false)
      × (is_submarine_success_status s
          ≡ (is_submarine_final_status s && not (is_submarine_failed_status s)))
      × (is_submarine_refundable_status s ≡ is_submarine_failed_status s)
      × ((is_submarine_failed_status s && not (is_submarine_final_status s))
          ≡ same s transaction_lockup_failed)
unfolding same is_submarine_failed_status is_submarine_final_status is_submarine_pending_status
    is_submarine_refundable_status is_submarine_success_status includes
submarine-classes invoice_expired = (refl, refl, refl, refl)
submarine-classes _ = (refl, refl, refl, refl)

-- A reverse swap is never pending and final at once; the final states are those of failure and of
-- success, which exclude each other; and what can be claimed is pending.
pub reverse-classes :
    (s : BoltzSwapStatus)
    → ((is_reverse_pending_status s && is_reverse_final_status s) ≡ false)
      × (is_reverse_final_status s ≡ (is_reverse_failed_status s || is_reverse_success_status s))
      × ((is_reverse_failed_status s && is_reverse_success_status s) ≡ false)
      × ((is_reverse_claimable_status s && not (is_reverse_pending_status s)) ≡ false)
unfolding is_reverse_failed_status is_reverse_final_status is_reverse_pending_status
    is_reverse_claimable_status is_reverse_success_status includes same
reverse-classes invoice_expired = (refl, refl, refl, refl)
reverse-classes _ = (refl, refl, refl, refl)

-- A chain swap is never pending and final at once; the final states are those of failure and of
-- success, which exclude each other, and the refunded one; what can be claimed is pending, what can
-- be refunded has failed, and a swap that waits for a signature is neither pending nor final.
pub chain-classes :
    (s : BoltzSwapStatus)
    → ((is_chain_pending_status s && is_chain_final_status s) ≡ false)
      × (is_chain_final_status s ≡ (
          is_chain_failed_status s || (is_chain_success_status s || same s transaction_refunded)))
      × ((is_chain_failed_status s && is_chain_success_status s) ≡ false)
      × ((is_chain_claimable_status s && not (is_chain_pending_status s)) ≡ false)
      × ((is_chain_refundable_status s && not (is_chain_failed_status s)) ≡ false)
      × ((is_chain_signable_status s && (is_chain_pending_status s || is_chain_final_status s))
          ≡ false)
unfolding same is_chain_failed_status is_chain_claimable_status is_chain_final_status
    is_chain_pending_status is_chain_refundable_status is_chain_signable_status
    is_chain_success_status includes
chain-classes invoice_expired = (refl, refl, refl, refl, refl, refl)
chain-classes _ = (refl, refl, refl, refl, refl, refl)
