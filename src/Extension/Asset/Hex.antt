-- ===== src/Extension/Asset/Hex.antt =====
-- JavaScript strings, and `hex` of the package @scure/base, which is not part of the repository.
pub mod Laws
use congenial_giggle.Common.{ℕ, ◌≡◌, List, Option, none, some, ok, err, All}
use congenial_giggle.Extension.Errors.{Error, Throws}
use congenial_giggle.Extension.Bytes.{IsByte}

-- A string as its UTF-16 code units.
abbrev pub Text : Type 0
Text = List ℕ

-- `hex.decode` throws on what is not hexadecimal: `none`. Decoding an encoding gives the bytes.
pub record Hex : Type 0 where
  pub encode : List ℕ → Text
  pub decode : Text → Option (List ℕ)
  pub decode-encode : (bytes : List ℕ) → All IsByte bytes → decode (encode bytes) ≡ some bytes

-- `try { buf = hex.decode(s) } catch { throw e }`, and what follows.
unfoldable pub with_decoded {ℓ} : {A : Type ℓ} → Hex → Error → Text → (List ℕ → Throws A) → Throws A
with_decoded hex e s next = elim (hex.decode s) [ none ↦ err e | some buf ↦ next buf ]

-- `hex.encode(x.serialize())`
unfoldable pub hex_of : Hex → Throws (List ℕ) → Throws Text
hex_of hex r = elim r [ ok bytes ↦ ok (hex.encode bytes) | err e ↦ err e ]
