-- ===== src/Boltz/Swap.antt =====
-- packages/boltz-swap/src/boltz-swap-provider.ts: which swaps can be refunded or claimed. Of a swap
-- there are the fields that the code of this model reads or writes.
pub mod Laws
use congenial_giggle.Common.{Bool, true, false, ◌&&◌, not, Option, none, some}
use congenial_giggle.Extension.Asset.Hex.{Text}
use congenial_giggle.Boltz.Status.{
  BoltzSwapStatus, is_submarine_refundable_status, is_chain_refundable_status,
  is_reverse_claimable_status, is_chain_claimable_status,
}

pub record BoltzReverseSwap : Type 0 where
  pub id : Text
  pub status : BoltzSwapStatus
  pub preimage : Text
  pub request_preimage_hash : Text

pub record BoltzSubmarineSwap : Type 0 where
  pub id : Text
  pub status : BoltzSwapStatus
  pub refundable : Option Bool
  pub refunded : Option Bool
  pub preimage_hash : Option Text
  pub request_invoice : Text

-- The sides of a chain swap.
pub data Chain : Type 0 where
  ark btc : Chain

pub record BoltzChainSwap : Type 0 where
  pub id : Text
  pub status : BoltzSwapStatus
  pub request_from : Chain
  pub request_to : Chain

-- The union, told apart by the field `type`.
pub data BoltzSwap : Type 0 where
  reverse : BoltzReverseSwap → BoltzSwap
  submarine : BoltzSubmarineSwap → BoltzSwap
  chain : BoltzChainSwap → BoltzSwap

unfoldable pub status_of : BoltzSwap → BoltzSwapStatus
status_of (reverse swap) = swap.status
status_of (submarine swap) = swap.status
status_of (chain swap) = swap.status

unfoldable pub id_of : BoltzSwap → Text
id_of (reverse swap) = swap.id
id_of (submarine swap) = swap.id
id_of (chain swap) = swap.id

-- `swap.status = status`
unfoldable pub with_status : BoltzSwapStatus → BoltzSwap → BoltzSwap
with_status status (reverse swap) = reverse (record swap { status = status })
with_status status (submarine swap) = submarine (record swap { status = status })
with_status status (chain swap) = chain (record swap { status = status })

unfoldable pub is_pending_reverse_swap : BoltzSwap → Bool
is_pending_reverse_swap (reverse swap) = true
is_pending_reverse_swap _ = false

unfoldable pub is_pending_submarine_swap : BoltzSwap → Bool
is_pending_submarine_swap (submarine swap) = true
is_pending_submarine_swap _ = false

unfoldable pub is_pending_chain_swap : BoltzSwap → Bool
is_pending_chain_swap (chain swap) = true
is_pending_chain_swap _ = false

-- `flag !== false` and `flag !== true`
abbrev pub is_not_false : Option Bool → Bool
is_not_false (some false) = false
is_not_false _ = true

abbrev pub is_not_true : Option Bool → Bool
is_not_true (some true) = false
is_not_true _ = true

unfoldable pub refund_is_open : BoltzSwap → Bool
refund_is_open (submarine swap) = is_not_false swap.refundable && is_not_true swap.refunded
refund_is_open _ = false

unfoldable pub is_from_ark : BoltzSwap → Bool
is_from_ark (chain swap) = elim swap.request_from [ ark ↦ true | btc ↦ false ]
is_from_ark _ = false

unfoldable pub is_submarine_swap_refundable : BoltzSwap → Bool
is_submarine_swap_refundable swap =
    is_submarine_refundable_status (status_of swap)
    && (is_pending_submarine_swap swap && refund_is_open swap)

unfoldable pub is_chain_swap_refundable : BoltzSwap → Bool
is_chain_swap_refundable swap =
    is_chain_refundable_status (status_of swap) && (is_pending_chain_swap swap && is_from_ark swap)

unfoldable pub is_reverse_swap_claimable : BoltzSwap → Bool
is_reverse_swap_claimable swap =
    is_reverse_claimable_status (status_of swap) && is_pending_reverse_swap swap

unfoldable pub is_chain_swap_claimable : BoltzSwap → Bool
is_chain_swap_claimable swap =
    is_chain_claimable_status (status_of swap) && is_pending_chain_swap swap
