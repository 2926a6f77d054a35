-- ===== src/ArkNote/Laws.antt =====
-- A note as bytes and as text, and back.
use congenial_giggle.Common.{
  ℕ, zero, suc, ◌^◌, ◌<◌, ◌≡◌, refl, sym, ap, ◌∙◌, subst, arith, false, List, [], ◌∷◌, ◌++◌, some,
  ok, ◌==◌, length, is_empty, take, drop, All, All-append, length-append, take-append,
  take-append-drop, drop-append, length-take, length-drop, ==_iff, append-nil,
}
use congenial_giggle.Common.Results.{◌>>=◌, if_ok}
use congenial_giggle.Extension.Bytes.{IsByte}
use congenial_giggle.Extension.Asset.Hex.{Text}
use congenial_giggle.ArkNote.{
  is_space, Base58, ArkNote, write_uint32_be, read_uint32_be, encode, decode, trim_start, trim_end,
  trim, after_prefix, to_string, from_string, decode_text,
}

-- A preimage of 32 bytes, a value of four, and a prefix without white space.
pub record IsValid (note : ArkNote) : Type 0 where
  pub bytes : All IsByte note.preimage
  pub size : length note.preimage ≡ 32
  pub value_fits : note.value < 2 ^ 32
  pub plain : All (λ c. is_space c ≡ false) note.hrp

trim_start-plain : (s : Text) → All (λ c. is_space c ≡ false) s → trim_start s ≡ s
unfolding trim_start
trim_start-plain [] h = refl
trim_start-plain (c ∷ s) (p, h) = rw p

trim_end-plain : (s : Text) → All (λ c. is_space c ≡ false) s → trim_end s ≡ s
unfolding trim_end
trim_end-plain [] h = refl
trim_end-plain (c ∷ s) (p, h) = ground (arith, trim_end-plain s h)

trim-plain : (s : Text) → All (λ c. is_space c ≡ false) s → trim s ≡ s
unfolding trim
trim-plain s h = rw (trim_start-plain s h) (trim_end-plain s h)

after_prefix-append : (hrp s : Text) → after_prefix hrp (hrp ++ s) ≡ some s
unfolding after_prefix
after_prefix-append [] s = refl
after_prefix-append (a ∷ hrp) s = ground (arith, after_prefix-append hrp s)

write_uint32_be-IsByte : (value : ℕ) → All IsByte (write_uint32_be value)
unfolding write_uint32_be
write_uint32_be-IsByte value = omega arith

read-write :
    (xs : List ℕ) (value : ℕ)
    → value < 2 ^ 32
    → read_uint32_be (xs ++ write_uint32_be value) (length xs) ≡ value
unfolding read_uint32_be write_uint32_be
read-write xs value h = rw (read_uint32_be, drop-append xs (write_uint32_be value)) (omega arith)

encode-valid :
    (note : ArkNote) → IsValid note → encode note ≡ ok (note.preimage ++ write_uint32_be note.value)
unfolding encode
encode-valid note v = rw (v.size, append-nil (write_uint32_be note.value)) refl

decode-valid :
    (note : ArkNote)
    → IsValid note
    → decode (note.preimage ++ write_uint32_be note.value) note.hrp ≡ ok note
unfolding decode write_uint32_be
decode-valid note v =
    let whole = note.preimage ++ write_uint32_be note.value in
    let long : length whole ≡ 36 =
      omega (arith, length-append note.preimage (write_uint32_be note.value), v.size) in
    let front : take 32 whole ≡ note.preimage =
      ap (λ n. take n whole) (sym v.size)
      ∙ take-append note.preimage (write_uint32_be note.value) in
    let back : read_uint32_be whole 32 ≡ note.value =
      ap (read_uint32_be whole) (sym v.size) ∙ read-write note.preimage note.value v.value_fits in
    rw (decode, long, front, back) refl

not_empty-append : (xs : List ℕ) (y : ℕ) (ys : List ℕ) → is_empty (xs ++ (y ∷ ys)) ≡ false
not_empty-append [] y ys = refl
not_empty-append (x ∷ xs) y ys = refl

whole_not_empty :
    (note : ArkNote) → IsValid note → is_empty (note.preimage ++ write_uint32_be note.value) ≡ false
unfolding write_uint32_be
whole_not_empty note v = not_empty-append note.preimage _ _

-- What is printed for a valid note is read back as the note, under the note's prefix.
pub ArkNote-round_trip :
    (base58 : Base58) (note : ArkNote)
    → IsValid note
    → (to_string base58 note >>= λ s. from_string base58 s note.hrp) ≡ ok note
unfolding to_string from_string decode_text
ArkNote-round_trip base58 note v =
    let whole = note.preimage ++ write_uint32_be note.value in
    let bytes = All-append IsByte note.preimage _ v.bytes (write_uint32_be-IsByte note.value) in
    rw
      (
        to_string,
        encode-valid note v,
        from_string,
        trim-plain (note.hrp ++ base58.encode whole)
            (All-append _ note.hrp _ v.plain (base58.plain whole bytes)),
        after_prefix-append note.hrp (base58.encode whole),
        decode_text,
        base58.decode-encode whole bytes,
        whole_not_empty note v,
      )
      (decode-valid note v)

decoded_of : List ℕ → Text → ArkNote
decoded_of bytes hrp = record {
  preimage = take 32 bytes;
  value = read_uint32_be (drop 32 bytes) 0;
  hrp = hrp;
}

All-drop : (n : ℕ) (xs : List ℕ) → All IsByte xs → All IsByte (drop n xs)
All-drop zero xs h = h
All-drop (suc n) [] h = tt
All-drop (suc n) (x ∷ xs) (p, h) = All-drop n xs h

decode_inv :
    (bytes : List ℕ) (hrp : Text) (note : ArkNote)
    → decode bytes hrp ≡ ok note
    → (length bytes ≡ 36) × (decoded_of bytes hrp ≡ note)
unfolding decode decoded_of read_uint32_be
decode_inv bytes hrp note e =
    let (long, same) = if_ok (length bytes == 36) _ _ e in ((==_iff (length bytes) 36).0 long, same)

four :
    {a a' b b' c c' d d' : ℕ}
    → a ≡ a'
    → b ≡ b'
    → c ≡ c'
    → d ≡ d'
    → ◌≡◌ {A = List ℕ} (a ∷ b ∷ c ∷ d ∷ []) (a' ∷ b' ∷ c' ∷ d' ∷ [])
four p q r s = λ i. p i ∷ q i ∷ r i ∷ s i ∷ []

write-read :
    (bytes : List ℕ)
    → length bytes ≡ 4
    → All IsByte bytes
    → write_uint32_be (read_uint32_be bytes 0) ≡ bytes
unfolding write_uint32_be read_uint32_be
write-read (a ∷ b ∷ c ∷ d ∷ []) e h = four (omega arith) (omega arith) (omega arith) (omega arith)
write-read [] e h = absurd (omega (arith, e))
write-read (a ∷ []) e h = absurd (omega (arith, e))
write-read (a ∷ b ∷ []) e h = absurd (omega (arith, e))
write-read (a ∷ b ∷ c ∷ []) e h = absurd (omega (arith, e))
write-read (a ∷ b ∷ c ∷ d ∷ x ∷ bytes) e h = absurd (omega (arith, e))

-- Whatever bytes a note is decoded from, it encodes to these bytes.
pub ArkNote_decode-encode :
    (bytes : List ℕ) (hrp : Text) (note : ArkNote)
    → All IsByte bytes
    → decode bytes hrp ≡ ok note
    → encode note ≡ ok bytes
unfolding decode encode decoded_of
ArkNote_decode-encode bytes hrp note h e =
    let (long, same) = decode_inv bytes hrp note e in
    let front : length (take 32 bytes) ≡ 32 = omega (arith, length-take 32 bytes) in
    let back : length (drop 32 bytes) ≡ 4 = omega (arith, length-drop 32 bytes) in
    subst (λ n. encode n ≡ ok bytes) same
      (rw
        (
          encode,
          front,
          append-nil (write_uint32_be (read_uint32_be (drop 32 bytes) 0)),
          write-read (drop 32 bytes) back (All-drop 32 bytes h),
        )
        (ap ok (take-append-drop 32 bytes)))
