-- ===== src/Boltz/Status.antt =====
-- packages/boltz-swap/src/boltz-swap-provider.ts: the states of a swap, and the classes that the
-- three kinds of swaps put them into.
pub mod Laws
use congenial_giggle.Common.{Bool, true, false, List, [], ◌∷◌, any}

pub data BoltzSwapStatus : Type 0 where
  invoice_expired invoice_failed_to_pay invoice_paid invoice_pending : BoltzSwapStatus
  invoice_set invoice_settled swap_created swap_expired : BoltzSwapStatus
  transaction_claim_pending transaction_claimed transaction_confirmed : BoltzSwapStatus
  transaction_failed transaction_lockup_failed transaction_mempool : BoltzSwapStatus
  transaction_refunded transaction_server_mempool transaction_server_confirmed : BoltzSwapStatus

-- `===` on states.
unfoldable pub same : BoltzSwapStatus → BoltzSwapStatus → Bool
same invoice_expired invoice_expired = true
same invoice_failed_to_pay invoice_failed_to_pay = true
same invoice_paid invoice_paid = true
same invoice_pending invoice_pending = true
same invoice_set invoice_set = true
same invoice_settled invoice_settled = true
same swap_created swap_created = true
same swap_expired swap_expired = true
same transaction_claim_pending transaction_claim_pending = true
same transaction_claimed transaction_claimed = true
same transaction_confirmed transaction_confirmed = true
same transaction_failed transaction_failed = true
same transaction_lockup_failed transaction_lockup_failed = true
same transaction_mempool transaction_mempool = true
same transaction_refunded transaction_refunded = true
same transaction_server_mempool transaction_server_mempool = true
same transaction_server_confirmed transaction_server_confirmed = true
same _ _ = false

-- `statuses.includes(status)`
unfoldable pub includes : List BoltzSwapStatus → BoltzSwapStatus → Bool
includes statuses status = any (same status) statuses

unfoldable pub is_submarine_failed_status : BoltzSwapStatus → Bool
is_submarine_failed_status status =
    includes (invoice_failed_to_pay ∷ transaction_lockup_failed ∷ swap_expired ∷ []) status

unfoldable pub is_submarine_final_status : BoltzSwapStatus → Bool
is_submarine_final_status status =
    includes (invoice_failed_to_pay ∷ transaction_claimed ∷ swap_expired ∷ []) status

unfoldable pub is_submarine_pending_status : BoltzSwapStatus → Bool
is_submarine_pending_status status =
    includes
      (swap_created ∷ transaction_mempool ∷ transaction_confirmed ∷ invoice_set ∷ invoice_pending
        ∷ invoice_paid ∷ transaction_claim_pending ∷ [])
      status

unfoldable pub is_submarine_refundable_status : BoltzSwapStatus → Bool
is_submarine_refundable_status status =
    includes (invoice_failed_to_pay ∷ transaction_lockup_failed ∷ swap_expired ∷ []) status

unfoldable pub is_submarine_success_status : BoltzSwapStatus → Bool
is_submarine_success_status status = same status transaction_claimed

unfoldable pub is_reverse_failed_status : BoltzSwapStatus → Bool
is_reverse_failed_status status =
    includes (invoice_expired ∷ transaction_failed ∷ transaction_refunded ∷ swap_expired ∷ [])
      status

unfoldable pub is_reverse_final_status : BoltzSwapStatus → Bool
is_reverse_final_status status =
    includes
      (transaction_refunded ∷ transaction_failed ∷ invoice_settled ∷ invoice_expired ∷ swap_expired
        ∷ [])
      status

unfoldable pub is_reverse_pending_status : BoltzSwapStatus → Bool
is_reverse_pending_status status =
    includes (swap_created ∷ transaction_mempool ∷ transaction_confirmed ∷ []) status

unfoldable pub is_reverse_claimable_status : BoltzSwapStatus → Bool
is_reverse_claimable_status status =
    includes (transaction_mempool ∷ transaction_confirmed ∷ []) status

unfoldable pub is_reverse_success_status : BoltzSwapStatus → Bool
is_reverse_success_status status = same status invoice_settled

unfoldable pub is_chain_failed_status : BoltzSwapStatus → Bool
is_chain_failed_status status = includes (transaction_failed ∷ swap_expired ∷ []) status

unfoldable pub is_chain_claimable_status : BoltzSwapStatus → Bool
is_chain_claimable_status status =
    includes (transaction_server_mempool ∷ transaction_server_confirmed ∷ []) status

unfoldable pub is_chain_final_status : BoltzSwapStatus → Bool
is_chain_final_status status =
    includes (transaction_refunded ∷ transaction_failed ∷ transaction_claimed ∷ swap_expired ∷ [])
      status

unfoldable pub is_chain_pending_status : BoltzSwapStatus → Bool
is_chain_pending_status status =
    includes
      (swap_created ∷ transaction_mempool ∷ transaction_confirmed ∷ transaction_lockup_failed
        ∷ transaction_server_mempool ∷ transaction_server_confirmed ∷ [])
      status

unfoldable pub is_chain_refundable_status : BoltzSwapStatus → Bool
is_chain_refundable_status status = includes (swap_expired ∷ []) status

unfoldable pub is_chain_signable_status : BoltzSwapStatus → Bool
is_chain_signable_status status = includes (transaction_claim_pending ∷ []) status

unfoldable pub is_chain_success_status : BoltzSwapStatus → Bool
is_chain_success_status status = same status transaction_claimed
