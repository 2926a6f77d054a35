-- ===== src/Extension/Bytes/Cursor/Refines.antt =====
-- On the unread part of the view, the readers of Bytes.antt do what the class does.
use congenial_giggle.Common.{
  ℕ, zero, suc, ◌+◌, ◌/◌, ◌%◌, ◌≤◌, ◌<◌, ◌≡◌, refl, sym, subst, ◌∙◌, arith, List, [], ◌∷◌, ok, err,
  ltb, leb, ◌==◌, length, drop, length-drop, Bool-cases, inl, inr, true, false,
}
use congenial_giggle.Extension.Errors.{Error, Throws, unexpected_end}
use congenial_giggle.Extension.Bytes
use congenial_giggle.Extension.Bytes.Cursor.{
  Cursor, remaining, get_uint8, advance, read_byte, read_slice, read_uint16_le, var_uint_rounds,
  read_var_uint, read_var_slice,
}

-- The offset lies in the view or at its end.
abbrev pub IsValid : Cursor → Type 0
IsValid c = c.offset ≤ length c.view

abbrev pub unread : Cursor → List ℕ
unread c = drop c.offset c.view

-- The same outcome: one error, or one value with the unread bytes of a valid reader of the view.
pub data Same {ℓ} {A : Type ℓ} (view : List ℕ)
    : Throws (A × Cursor) → Throws (A × List ℕ) → Type ℓ where
  threw : {e : Error} → Same view (err e) (err e)
  returned :
      {a : A} {c : Cursor} {rest : List ℕ}
      → c.view ≡ view
      → IsValid c
      → unread c ≡ rest
      → Same view (ok (a, c)) (ok (a, rest))

drop-cons :
    (view : List ℕ) (i : ℕ) → i < length view → drop i view ≡ get_uint8 view i ∷ drop (i + 1) view
unfolding get_uint8
drop-cons [] i h = absurd (omega arith)
drop-cons (b ∷ view) zero h = refl
drop-cons (b ∷ view) (suc i) h =
    let next : suc i + 1 ≡ suc (i + 1) = omega arith in rw next (drop-cons view i (omega arith))

drop-end : (view : List ℕ) (i : ℕ) → length view ≤ i → drop i view ≡ []
drop-end [] zero h = refl
drop-end [] (suc i) h = refl
drop-end (b ∷ view) zero h = absurd (omega arith)
drop-end (b ∷ view) (suc i) h = drop-end view i (omega arith)

drop-nil : (n : ℕ) → drop {A = ℕ} n [] ≡ []
drop-nil zero = refl
drop-nil (suc n) = refl

drop-drop : (view : List ℕ) (i j : ℕ) → drop j (drop i view) ≡ drop (i + j) view
drop-drop view zero j = let e : 0 + j ≡ j = omega arith in rw e
drop-drop [] (suc i) j = drop-nil j ∙ sym (drop-nil (suc i + j))
drop-drop (b ∷ view) (suc i) j =
    let e : suc i + j ≡ suc (i + j) = omega arith in rw e (drop-drop view i j)

pub remaining-length : (c : Cursor) → remaining c ≡ length (unread c)
unfolding remaining
remaining-length c = sym (length-drop c.offset c.view)

pub read_byte-Same :
    (c : Cursor) → IsValid c → Same c.view (read_byte c) (Bytes.read_byte (unread c))
unfolding read_byte Bytes.read_byte
read_byte-Same c v = elim (Bool-cases (leb (length c.view) c.offset)) [
  | inl done ↦ rw (done, drop-end c.view c.offset (ground arith)) threw
  | inr more ↦
      rw (more, drop-cons c.view c.offset (ground arith)) (returned refl (ground arith) refl)
]

pub read_slice-Same :
    (size : ℕ) (c : Cursor)
    → IsValid c
    → Same c.view (read_slice size c) (Bytes.read_slice size (unread c))
unfolding read_slice Bytes.read_slice
read_slice-Same size c v = elim (Bool-cases (ltb (length c.view) (c.offset + size))) [
  | inl long ↦
      let long' : ltb (length (unread c)) size ≡ true =
        ground (arith, length-drop c.offset c.view) in
      rw (long, long') threw
  | inr fits ↦
      let fits' : ltb (length (unread c)) size ≡ false =
        ground (arith, length-drop c.offset c.view) in
      rw (fits, fits') (returned refl (ground arith) (sym (drop-drop c.view c.offset size)))
]

-- Fewer than two bytes are too few.
short_word :
    {view : List ℕ} (bytes : List ℕ)
    → length bytes < 2
    → Same view (err unexpected_end) (Bytes.read_uint16_le bytes)
unfolding Bytes.read_uint16_le
short_word [] h = threw
short_word (b ∷ []) h = threw
short_word (a ∷ b ∷ bytes) h = absurd (omega arith)

pub read_uint16_le-Same :
    (c : Cursor) → IsValid c → Same c.view (read_uint16_le c) (Bytes.read_uint16_le (unread c))
unfolding read_uint16_le Bytes.read_uint16_le
read_uint16_le-Same c v = elim (Bool-cases (ltb (length c.view) (c.offset + 2))) [
  | inl long ↦ rw long (short_word (unread c) (ground (arith, length-drop c.offset c.view)))
  | inr fits ↦
      let e : c.offset + 1 + 1 ≡ c.offset + 2 = omega arith in
      rw
        (
          fits,
          drop-cons c.view c.offset (ground arith),
          drop-cons c.view (c.offset + 1) (ground arith),
          e,
        )
        (returned refl (ground arith) refl)
]

var_uint_rounds-Same :
    (fuel result shift : ℕ) (c : Cursor)
    → IsValid c
    → length c.view < fuel + c.offset
    → Same c.view
        (var_uint_rounds fuel result shift c)
        (Bytes.var_uint_rounds result shift (unread c))
unfolding var_uint_rounds Bytes.var_uint_rounds
var_uint_rounds-Same zero result shift c v h = absurd (omega arith)
var_uint_rounds-Same (suc fuel) result shift c v h =
    elim (Bool-cases (leb (length c.view) c.offset)) [
      | inl done ↦ rw (done, drop-end c.view c.offset (ground arith)) threw
      | inr more ↦
          rw (more, drop-cons c.view c.offset (ground arith))
            (elim (Bool-cases (get_uint8 c.view c.offset / 128 % 2 == 1)) [
              | inl high ↦ rw high (
                  var_uint_rounds-Same fuel _ (shift + 7) (advance 1 c) (ground arith)
                    (ground arith))
              | inr low ↦ rw low (returned refl (ground arith) refl)
            ])
    ]

pub read_var_uint-Same :
    (c : Cursor) → IsValid c → Same c.view (read_var_uint c) (Bytes.read_var_uint (unread c))
unfolding read_var_uint Bytes.read_var_uint remaining
read_var_uint-Same c v = var_uint_rounds-Same (suc (remaining c)) 0 0 c v (omega arith)

slice_of :
    {view : List ℕ} {r : Throws (ℕ × Cursor)} {r' : Throws (ℕ × List ℕ)}
    → Same view r r'
    → Same view
        (elim r [ ok (size, c) ↦ read_slice size c | err e ↦ err e ])
        (elim r' [ ok (size, rest) ↦ Bytes.read_slice size rest | err e ↦ err e ])
slice_of threw = threw
slice_of (returned {a} {c} {rest = left} e v u) =
    subst (λ w. Same w (read_slice a c) (Bytes.read_slice a left)) e
      (subst (λ rest. Same c.view (read_slice a c) (Bytes.read_slice a rest)) u
        (read_slice-Same a c v))

pub read_var_slice-Same :
    (c : Cursor) → IsValid c → Same c.view (read_var_slice c) (Bytes.read_var_slice (unread c))
unfolding read_var_slice Bytes.read_var_slice Bytes.◌>>=◌
read_var_slice-Same c v = slice_of (read_var_uint-Same c v)

-- Whatever the reader's offset in its view, each method ends as the one on the unread bytes does:
-- with the same error, or with the same value and the same bytes left in the same view.
pub methods-Same :
    (c : Cursor)
    → IsValid c
    → (remaining c ≡ length (unread c))
      × Same c.view (read_byte c) (Bytes.read_byte (unread c))
      × ((size : ℕ) → Same c.view (read_slice size c) (Bytes.read_slice size (unread c)))
      × Same c.view (read_uint16_le c) (Bytes.read_uint16_le (unread c))
      × Same c.view (read_var_uint c) (Bytes.read_var_uint (unread c))
      × Same c.view (read_var_slice c) (Bytes.read_var_slice (unread c))
methods-Same c v = (
  remaining-length c,
  read_byte-Same c v,
  λ size. read_slice-Same size c v,
  read_uint16_le-Same c v,
  read_var_uint-Same c v,
  read_var_slice-Same c v,
)
