-- ===== src/Examples/Codecs.antt =====
-- Concrete codecs for what the repository takes from packages.
use congenial_giggle.Common.{
  ℕ, ◌+◌, ◌-◌, ◌*◌, ◌/◌, ◌%◌, ◌^◌, ◌≤◌, ◌<◌, ◌≡◌, refl, ◌≢◌, arith, ◌&&◌, List, [], ◌∷◌, ◌++◌,
  Option, none, some, leb, ltb, ◌==◌, if◌then◌else◌, drop, All, length,
}
use congenial_giggle.Common.Int.{ℤ, pos, negsuc}
use congenial_giggle.Extension.Bytes.{IsByte}
use congenial_giggle.Extension.Asset.Hex.{Hex, Text}
use congenial_giggle.Extension.Envelope.{concat}
use congenial_giggle.Extension.Script.{Item, op_return, pushed, push_prefix, ScriptDecoder}
use congenial_giggle.Extension.Asset.Metadata.Merkle.{Hashing}

digit : ℕ → ℕ
digit d = if ltb d 10 then 48 + d else 87 + d

value_of : ℕ → Option ℕ
value_of c =
    if leb 48 c && leb c 57
    then some (c - 48)
    else if leb 97 c && leb c 102
    then some (c - 87)
    else none

unfoldable pub encode : List ℕ → Text
unfolding digit
encode [] = []
encode (b ∷ bytes) = digit (b / 16) ∷ digit (b % 16) ∷ encode bytes

join : Option ℕ → Option ℕ → Option (List ℕ) → Option (List ℕ)
join (some x) (some y) (some bytes) = some ((16 * x + y) ∷ bytes)
join _ _ _ = none

unfoldable pub decode : Text → Option (List ℕ)
unfolding value_of join
decode [] = some []
decode (a ∷ []) = none
decode (a ∷ b ∷ s) = join (value_of a) (value_of b) (decode s)

value_of-digit : (d : ℕ) → d < 16 → value_of (digit d) ≡ some d
unfolding value_of digit
value_of-digit d h = ground arith

pub decode-encode : (bytes : List ℕ) → All IsByte bytes → decode (encode bytes) ≡ some bytes
unfolding decode encode join
decode-encode [] h = refl
decode-encode (b ∷ bytes) (p, h) =
    let whole : 16 * (b / 16) + b % 16 ≡ b = omega arith in
    rw (
      value_of-digit (b / 16) (omega arith),
      value_of-digit (b % 16) (omega arith),
      decode-encode bytes h,
      whole,
    )

abbrev pub hex : Hex
hex = record { encode = encode; decode = decode; decode-encode = decode-encode }

-- A decoder of scripts of OP_RETURN and one push to the end.
unfoldable pub decode_script : List ℕ → Option (List Item)
decode_script (op ∷ n ∷ bytes) =
    if op == 0x6a
    then some (
        op_return
        ∷ pushed (
            if leb n 75
            then bytes
            else if n == 76
            then drop 1 bytes
            else if n == 77
            then drop 2 bytes
            else drop 4 bytes)
        ∷ [])
    else none
decode_script _ = none

pub decode_script-op_return :
    (bytes : List ℕ)
    → 1 ≤ length bytes
    → length bytes < 2 ^ 32
    → decode_script (0x6a ∷ (push_prefix (length bytes) ++ bytes))
      ≡ some (op_return ∷ pushed bytes ∷ [])
unfolding decode_script
decode_script-op_return bytes h k = ground arith

abbrev pub decoder : ScriptDecoder
decoder = record { decode = decode_script; decode-op_return = decode_script-op_return }

-- Byte strings in the order of their digits, shorter ones first.
abbrev pub compare_bytes : List ℕ → List ℕ → ℤ
compare_bytes [] [] = pos 0
compare_bytes [] (b ∷ t) = negsuc 0
compare_bytes (a ∷ s) [] = pos 1
compare_bytes (a ∷ s) (b ∷ t) =
    let rest = compare_bytes s t in if ltb a b then negsuc 0 else if ltb b a then pos 1 else rest

pub compare_asymmetric :
    (a b : List ℕ) → compare_bytes a b ≡ negsuc 0 → compare_bytes b a ≢ negsuc 0
compare_asymmetric [] [] = λ e _. cc
compare_asymmetric [] (b ∷ t) = λ _ e. cc
compare_asymmetric (a ∷ s) [] = λ e _. cc
compare_asymmetric (a ∷ s) (b ∷ t) = ground (arith, compare_asymmetric s t)

pub compare_total :
    (a b : List ℕ) → compare_bytes a b ≢ negsuc 0 → compare_bytes b a ≢ negsuc 0 → a ≡ b
compare_total [] [] = λ _ _. refl
compare_total [] (b ∷ t) = λ h _. absurd (h refl)
compare_total (a ∷ s) [] = λ _ h. absurd (h refl)
compare_total (a ∷ s) (b ∷ t) = ground (arith, compare_total s t)

abbrev pub hashing : Hashing
hashing = record {
  tagged_hash = λ _ parts. concat parts;
  compare_bytes = compare_bytes;
  compare_asymmetric = compare_asymmetric;
  compare_total = compare_total;
}
