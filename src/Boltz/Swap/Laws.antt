-- ===== src/Boltz/Swap/Laws.antt =====
-- Refund and claim exclude each other.
use congenial_giggle.Common.{◌≡◌, refl, Bool, arith, true, false, ◌&&◌, ◌||◌}
use congenial_giggle.Boltz.Status.{
  BoltzSwapStatus, same, includes, is_chain_refundable_status, is_chain_claimable_status,
  invoice_expired,
}
use congenial_giggle.Boltz.Swap.{
  BoltzSwap, reverse, submarine, chain, status_of, is_pending_reverse_swap,
  is_pending_submarine_swap, is_pending_chain_swap, is_from_ark, is_submarine_swap_refundable,
  is_chain_swap_refundable, is_reverse_swap_claimable, is_chain_swap_claimable,
}

and_false : (b : Bool) → (b && false) ≡ false
and_false true = refl
and_false false = refl

chain_apart :
    (s : BoltzSwapStatus) (b : Bool)
    → (is_chain_claimable_status s && (is_chain_refundable_status s && b)) ≡ false
unfolding is_chain_claimable_status is_chain_refundable_status same includes
chain_apart invoice_expired b = refl
chain_apart _ b = refl

-- Whatever its kind and state, no swap can be both claimed and refunded.
pub claimable-refundable :
    (swap : BoltzSwap)
    → ((is_reverse_swap_claimable swap || is_chain_swap_claimable swap)
        && (is_submarine_swap_refundable swap || is_chain_swap_refundable swap))
      ≡ false
unfolding is_reverse_swap_claimable is_chain_swap_claimable is_submarine_swap_refundable
    is_chain_swap_refundable is_pending_reverse_swap is_pending_submarine_swap is_pending_chain_swap
    status_of
claimable-refundable (reverse swap) = ground arith
claimable-refundable (submarine swap) = ground arith
claimable-refundable (chain swap) =
    ground (arith, chain_apart swap.status (is_from_ark (chain swap)))
