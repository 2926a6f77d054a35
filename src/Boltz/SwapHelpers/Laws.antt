-- ===== src/Boltz/SwapHelpers/Laws.antt =====
-- The checks before a swap is enriched.
use congenial_giggle.Common.{
  ℕ, ◌≡◌, refl, sym, ap, subst, ◌∙◌, ◌↔◌, arith, Bool, true, false, not, List, [], ◌∷◌, Option,
  none, some, ok, is_empty,
}
use congenial_giggle.Common.Results.{thrown, if_ok}
use congenial_giggle.Extension.Asset.Hex.{Text, Hex}
use congenial_giggle.Extension.Asset.Packet.{same_text}
use congenial_giggle.Extension.Asset.Packet.Laws.{same_text_iff}
use congenial_giggle.Boltz.Swap.{BoltzReverseSwap, BoltzSubmarineSwap}
use congenial_giggle.Boltz.SwapHelpers.{
  set_preimage, set_invoice, enrich_reverse_swap_preimage, is_mismatch,
  enrich_submarine_swap_invoice,
}

set_preimage_iff :
    (hex : Hex) (sha256 : List ℕ → List ℕ) (swap new : BoltzReverseSwap) (preimage : Text)
    (decoded : Option (List ℕ))
    → (set_preimage hex sha256 swap preimage decoded ≡ ok new) ↔ (
        ((bytes : List ℕ) × (decoded ≡ some bytes)
          × (hex.encode (sha256 bytes) ≡ swap.request_preimage_hash))
        × (record swap { preimage = preimage } ≡ new))
unfolding set_preimage
set_preimage_iff hex sha256 swap new preimage none =
    (λ e. absurd (thrown e), λ ((bytes, e, h), same). absurd (cc))
set_preimage_iff hex sha256 swap new preimage (some bytes) =
    let (to, from) = same_text_iff (hex.encode (sha256 bytes)) swap.request_preimage_hash in
    (
      λ e.
          let (equal, same) =
            if_ok (same_text (hex.encode (sha256 bytes)) swap.request_preimage_hash) _ _ e in
          ((bytes, refl, to equal), same),
      λ ((bytes', e, h), same).
          let one : bytes ≡ bytes' = cc in
          rw (from (ap (λ b. hex.encode (sha256 b)) one ∙ h)) (ap ok same),
    )

-- A reverse swap takes exactly the texts that are the hexadecimal of a preimage of its hash, and
-- nothing of it changes but the preimage.
pub enrich_reverse_swap_preimage_iff :
    (hex : Hex) (sha256 : List ℕ → List ℕ) (swap new : BoltzReverseSwap) (preimage : Text)
    → (enrich_reverse_swap_preimage hex sha256 swap preimage ≡ ok new) ↔ (
        ((bytes : List ℕ) × (hex.decode preimage ≡ some bytes)
          × (hex.encode (sha256 bytes) ≡ swap.request_preimage_hash))
        × (record swap { preimage = preimage } ≡ new))
unfolding enrich_reverse_swap_preimage
enrich_reverse_swap_preimage_iff hex sha256 swap new preimage =
    set_preimage_iff hex sha256 swap new preimage (hex.decode preimage)

-- What the hash of an accepted invoice must be.
abbrev pub Agrees : Option Text → Text → Type 0
Agrees none payment_hash = Unit
Agrees (some []) payment_hash = Unit
Agrees (some (c ∷ expected)) payment_hash = payment_hash ≡ (c ∷ expected)

is_mismatch_iff :
    (expected : Option Text) (payment_hash : Text)
    → (is_mismatch expected payment_hash ≡ false) ↔ Agrees expected payment_hash
unfolding is_mismatch
is_mismatch_iff none payment_hash = ground arith
is_mismatch_iff (some []) payment_hash = ground arith
is_mismatch_iff (some (c ∷ expected)) payment_hash =
    ground (arith, same_text_iff payment_hash (c ∷ expected))

not-true : (b : Bool) → not b ≡ true → b ≡ false
not-true true e = sym e
not-true false e = refl

true_ne_false : true ≡ false → ⊥
true_ne_false e = cc

set_invoice_iff :
    (swap new : BoltzSubmarineSwap) (invoice : Text) (decoded : Option Text)
    → (set_invoice swap invoice decoded ≡ ok new) ↔ (
        ((payment_hash : Text) × (decoded ≡ some payment_hash)
          × (is_empty payment_hash ≡ false)
          × Agrees swap.preimage_hash payment_hash)
        × (record swap { request_invoice = invoice } ≡ new))
unfolding set_invoice
set_invoice_iff swap new invoice none =
    (λ e. absurd (thrown e), λ ((hash, e, ne, h), same). absurd (cc))
set_invoice_iff swap new invoice (some []) = (
  λ e. absurd (thrown e),
  λ ((hash, e, ne, h), same).
      let one : [] ≡ hash = cc in absurd (true_ne_false (ap is_empty one ∙ ne)),
)
set_invoice_iff swap new invoice (some (c ∷ hash)) =
    let (to, from) = is_mismatch_iff swap.preimage_hash (c ∷ hash) in
    (
      λ e.
          let (agrees, same) = if_ok (not (is_mismatch swap.preimage_hash (c ∷ hash))) _ _ e in
          (
            (
              c ∷ hash,
              refl,
              refl,
              to (not-true (is_mismatch swap.preimage_hash (c ∷ hash)) agrees),
            ),
            same,
          ),
      λ ((hash', e, ne, h), same).
          let one : hash' ≡ c ∷ hash = cc in
          rw (from (subst (Agrees swap.preimage_hash) one h)) (ap ok same),
    )

-- A submarine swap takes exactly the invoices that have a payment hash, the swap's own where it has
-- one that is not empty, and nothing of it changes but the invoice.
pub enrich_submarine_swap_invoice_iff :
    (decode : Text → Option Text) (swap new : BoltzSubmarineSwap) (invoice : Text)
    → (enrich_submarine_swap_invoice decode swap invoice ≡ ok new) ↔ (
        ((payment_hash : Text) × (decode invoice ≡ some payment_hash)
          × (is_empty payment_hash ≡ false)
          × Agrees swap.preimage_hash payment_hash)
        × (record swap { request_invoice = invoice } ≡ new))
unfolding enrich_submarine_swap_invoice
enrich_submarine_swap_invoice_iff decode swap new invoice =
    set_invoice_iff swap new invoice (decode invoice)
