-- ===== src/Extension/Asset/Hex/Laws.antt =====
-- A decoder behind `hex.decode` sees the bytes that `hex.encode` was given.
use congenial_giggle.Common.{ℕ, ◌≡◌, sym, ap, ◌∙◌, List, some, ok, All}
use congenial_giggle.Extension.Errors.{Error, Throws}
use congenial_giggle.Extension.Bytes.{IsByte}
use congenial_giggle.Extension.Asset.Hex.{Hex, with_decoded, hex_of}

pub with_decoded-encode {ℓ} :
    {A : Type ℓ} (hex : Hex) (e : Error) (bytes : List ℕ) (next : List ℕ → Throws A)
    → All IsByte bytes
    → with_decoded hex e (hex.encode bytes) next ≡ next bytes
unfolding with_decoded
with_decoded-encode hex e bytes next h = rw (with_decoded, hex.decode-encode bytes h)

pub hex_of-ok :
    (hex : Hex) (r : Throws (List ℕ)) (bytes : List ℕ)
    → r ≡ ok bytes
    → hex_of hex r ≡ ok (hex.encode bytes)
unfolding hex_of
hex_of-ok hex r bytes h = rw (h, hex_of)

-- Two byte strings with one encoding are the same.
pub encode_injective :
    (hex : Hex) (a b : List ℕ) → All IsByte a → All IsByte b → hex.encode a ≡ hex.encode b → a ≡ b
encode_injective hex a b ha hb h =
    let same : some a ≡ some b =
      sym (hex.decode-encode a ha) ∙ ap hex.decode h ∙ hex.decode-encode b hb in
    cc
