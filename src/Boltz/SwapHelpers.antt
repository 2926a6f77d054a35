-- ===== src/Boltz/SwapHelpers.antt =====
-- packages/boltz-swap/src/utils/swap-helpers.ts: saving a swap of any kind, and adding the preimage
-- or the invoice that a restored swap lacks. `sha256` and `hex` of their packages and the decoder of
-- invoices are parameters.
pub mod Laws
use congenial_giggle.Common.{
  ℕ, Bool, true, false, ◌&&◌, not, List, [], ◌∷◌, Option, none, some, Result, ok, err,
  if◌then◌else◌, is_empty,
}
use congenial_giggle.Extension.Asset.Hex.{Text, Hex}
use congenial_giggle.Extension.Asset.Packet.{same_text}
use congenial_giggle.Boltz.Swap.{
  BoltzReverseSwap, BoltzSubmarineSwap, BoltzChainSwap, BoltzSwap, reverse, submarine, chain,
}

-- A function that saves changes the store, or rejects.
module _ (Store Failure : Type 0) where
  pub record SwapSaver : Type 0 where
    pub save_chain_swap : Option (BoltzChainSwap → Store → Result Failure Store)
    pub save_reverse_swap : Option (BoltzReverseSwap → Store → Result Failure Store)
    pub save_submarine_swap : Option (BoltzSubmarineSwap → Store → Result Failure Store)

module _ {Store Failure : Type 0} where
  -- Without the function, a warning is all.
  unfoldable pub save_with :
      {S : Type 0} → Option (S → Store → Result Failure Store) → S → Store → Result Failure Store
  save_with none swap store = ok store
  save_with (some save) swap store = save swap store

  unfoldable pub save_swap : BoltzSwap → SwapSaver Store Failure → Store → Result Failure Store
  save_swap (reverse swap) saver store = save_with saver.save_reverse_swap swap store
  save_swap (submarine swap) saver store = save_with saver.save_submarine_swap swap store
  save_swap (chain swap) saver store = save_with saver.save_chain_swap swap store

pub data Error : Type 0 where
  -- thrown by `hex.decode`
  invalid_hex : Error
  preimage_mismatch : Text → Text → Error
  -- "Invalid Lightning invoice: …"
  invalid_invoice missing_payment_hash : Error
  invoice_mismatch : Text → Text → Error

-- The check of the hash, and the write.
unfoldable pub set_preimage :
    Hex
    → (List ℕ → List ℕ)
    → BoltzReverseSwap
    → Text
    → Option (List ℕ)
    → Result Error BoltzReverseSwap
set_preimage hex sha256 swap preimage none = err invalid_hex
set_preimage hex sha256 swap preimage (some bytes) =
    let computed_hash = hex.encode (sha256 bytes) in
    if same_text computed_hash swap.request_preimage_hash
    then ok (record swap { preimage = preimage })
    else err (preimage_mismatch swap.request_preimage_hash computed_hash)

unfoldable pub enrich_reverse_swap_preimage :
    Hex → (List ℕ → List ℕ) → BoltzReverseSwap → Text → Result Error BoltzReverseSwap
enrich_reverse_swap_preimage hex sha256 swap preimage =
    set_preimage hex sha256 swap preimage (hex.decode preimage)

-- `swap.preimageHash && paymentHash !== swap.preimageHash`: an empty hash counts as none.
unfoldable pub is_mismatch : Option Text → Text → Bool
is_mismatch none payment_hash = false
is_mismatch (some expected) payment_hash =
    not (is_empty expected) && not (same_text payment_hash expected)

abbrev pub text_or_empty : Option Text → Text
text_or_empty none = []
text_or_empty (some s) = s

-- The check of a decoded invoice, and the write.
unfoldable pub set_invoice :
    BoltzSubmarineSwap → Text → Option Text → Result Error BoltzSubmarineSwap
set_invoice swap invoice none = err invalid_invoice
set_invoice swap invoice (some []) = err missing_payment_hash
set_invoice swap invoice (some (c ∷ hash)) =
    if not (is_mismatch swap.preimage_hash (c ∷ hash))
    then ok (record swap { request_invoice = invoice })
    else err (invoice_mismatch (text_or_empty swap.preimage_hash) (c ∷ hash))

-- `decode` gives the payment hash of an invoice, empty where it has none; `none` is an exception.
unfoldable pub enrich_submarine_swap_invoice :
    (Text → Option Text) → BoltzSubmarineSwap → Text → Result Error BoltzSubmarineSwap
enrich_submarine_swap_invoice decode swap invoice = set_invoice swap invoice (decode invoice)
