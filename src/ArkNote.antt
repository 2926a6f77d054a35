-- ===== src/ArkNote.antt =====
-- packages/ts-sdk/src/arknote/index.ts: a note is a preimage and a value, printed in base58 behind
-- a prefix. `base58` of the package @scure/base is a parameter; the script and the hash of the note
-- are not modelled.
pub mod Laws
use congenial_giggle.Common.{
  ℕ, zero, suc, ◌+◌, ◌-◌, ◌*◌, ◌/◌, ◌%◌, ◌^◌, ◌<◌, ◌≤◌, ◌≡◌, Bool, true, false, ◌&&◌, ◌||◌, List,
  [], ◌∷◌, ◌++◌, Option, none, some, Result, ok, err, ltb, leb, ◌==◌, if◌then◌else◌, length,
  is_empty, take, drop, All,
}
use congenial_giggle.Extension.Bytes.{IsByte}
use congenial_giggle.Extension.Asset.Hex.{Text}

pub data Error : Type 0 where
  -- `set` and `DataView` beyond the end of the array
  range_error : Error
  invalid_data_length : ℕ → Error
  invalid_prefix : Error
  -- thrown by `base58.decode`
  invalid_base58 : Error
  empty_note : Error

-- The white space that `trim` removes.
unfoldable pub is_space : ℕ → Bool
is_space c =
    (leb 9 c && leb c 13)
    || (c == 0x20)
    || (c == 0xa0)
    || (c == 0x1680)
    || (leb 0x2000 c && leb c 0x200a)
    || (c == 0x2028)
    || (c == 0x2029)
    || (c == 0x202f)
    || (c == 0x205f)
    || (c == 0x3000)
    || (c == 0xfeff)

-- `decode` throws on what is not base58: `none`. Decoding an encoding gives the bytes, and an
-- encoding has no white space.
pub record Base58 : Type 0 where
  pub encode : List ℕ → Text
  pub decode : Text → Option (List ℕ)
  pub decode-encode : (bytes : List ℕ) → All IsByte bytes → decode (encode bytes) ≡ some bytes
  pub plain : (bytes : List ℕ) → All IsByte bytes → All (λ c. is_space c ≡ false) (encode bytes)

-- "arknote"
abbrev pub default_hrp : Text
default_hrp = 97 ∷ 114 ∷ 107 ∷ 110 ∷ 111 ∷ 116 ∷ 101 ∷ []

abbrev pub preimage_length : ℕ
preimage_length = 32

abbrev pub value_length : ℕ
value_length = 4

abbrev pub note_length : ℕ
note_length = preimage_length + value_length

-- The arguments of the constructor; the value is a number that is not negative.
pub record ArkNote : Type 0 where
  pub preimage : List ℕ
  pub value : ℕ
  pub hrp : Text

abbrev pub zeros : ℕ → List ℕ
zeros zero = []
zeros (suc n) = 0 ∷ zeros n

-- `setUint32(0, value, false)`, which takes the value modulo 2^32.
unfoldable pub write_uint32_be : ℕ → List ℕ
write_uint32_be value =
    (value % 2 ^ 32 / 256 ^ 3)
    ∷ (value % 2 ^ 32 / 256 ^ 2 % 256)
    ∷ (value % 2 ^ 32 / 256 % 256)
    ∷ (value % 256)
    ∷ []

-- `getUint32(0, false)`
unfoldable pub read_uint32_be : List ℕ → ℕ → ℕ
read_uint32_be array offset = elim (drop offset array) [
  | a ∷ b ∷ c ∷ d ∷ _ ↦ ((a * 256 + b) * 256 + c) * 256 + d
  | _ ↦ 0
]

-- The value stands behind the preimage; what is left of the 36 bytes stays 0.
unfoldable pub encode : ArkNote → Result Error (List ℕ)
encode note =
    if leb (length note.preimage) preimage_length
    then ok (
        note.preimage
        ++ (write_uint32_be note.value ++ zeros (preimage_length - length note.preimage)))
    else err range_error

unfoldable pub decode : List ℕ → Text → Result Error ArkNote
decode bytes hrp =
    if length bytes == note_length
    then ok (record {
      preimage = take preimage_length bytes;
      value = read_uint32_be bytes preimage_length;
      hrp = hrp;
    })
    else err (invalid_data_length (length bytes))

unfoldable pub trim_start : Text → Text
trim_start [] = []
trim_start (c ∷ s) = let rest = trim_start s in if is_space c then rest else c ∷ s

unfoldable pub trim_end : Text → Text
trim_end [] = []
trim_end (c ∷ s) = let rest = trim_end s in if is_empty rest && is_space c then [] else c ∷ rest

unfoldable pub trim : Text → Text
trim s = trim_end (trim_start s)

-- The text behind a prefix, if it starts with that.
unfoldable pub after_prefix : Text → Text → Option Text
after_prefix [] s = some s
after_prefix (a ∷ hrp) [] = none
after_prefix (a ∷ hrp) (b ∷ s) = let rest = after_prefix hrp s in if a == b then rest else none

module _ (base58 : Base58) where
  unfoldable pub to_string : ArkNote → Result Error Text
  to_string note = elim (encode note) [
    | ok bytes ↦ ok (note.hrp ++ base58.encode bytes)
    | err e ↦ err e
  ]

  unfoldable pub decode_text : Option Text → Text → Result Error ArkNote
  decode_text none hrp = err invalid_prefix
  decode_text (some encoded) hrp = elim (base58.decode encoded) [
    | none ↦ err invalid_base58
    | some bytes ↦ if is_empty bytes then err empty_note else decode bytes hrp
  ]

  unfoldable pub from_string : Text → Text → Result Error ArkNote
  from_string note_str hrp = decode_text (after_prefix hrp (trim note_str)) hrp
