-- ===== src/Extension/Bytes/Laws.antt =====
-- Calls of a writer append a fixed block of bytes; a reader takes such a block back, whatever
-- follows it. Both compose, so a format is proved one field at a time.
use congenial_giggle.Common.{
  ℕ, ◌+◌, ◌*◌, ◌/◌, ◌%◌, ◌<◌, ◌≤◌, ◌≡◌, refl, ap, subst, arith, List, [], ◌∷◌, ◌++◌, append_assoc,
  append-nil, ok, length, length-append, take-append, drop-append, All-append, All, All-append, ltb,
  false,
}
use congenial_giggle.Common.Int.{ℤ, pos, negsuc, to_uint16, IsUint16}
use congenial_giggle.Extension.Bytes.{
  IsByte, Writer, ◌>>◌, skip, write_each, to_bytes, write, write_byte, uint16_le, write_uint16_le,
  Parser, ◌>>=◌, return, catch_as, check, run, read_byte, read_slice, read_uint16_le, read_times,
  remaining, at_least, validated,
}
use congenial_giggle.Extension.Errors.{Error, Throws}

pub record Writes (w : Writer) (bytes : List ℕ) : Type 0 where
  pub appends : (buffer : List ℕ) → w buffer ≡ ok (buffer ++ bytes)

pub record Reads {ℓ} {A : Type ℓ} (p : Parser A) (bytes : List ℕ) (a : A) : Type ℓ where
  pub takes : (rest : List ℕ) → p (bytes ++ rest) ≡ ok (a, rest)

pub Writes-then :
    {w v : Writer} {xs ys : List ℕ} → Writes w xs → Writes v ys → Writes (w >> v) (xs ++ ys)
unfolding ◌>>◌
Writes-then {w} {v} {xs} {ys} hw hv = record {
  appends =
      λ buffer. rw (◌>>◌, hw.appends buffer, hv.appends (buffer ++ xs), append_assoc buffer xs ys);
}

pub Writes-skip : Writes skip []
unfolding skip
Writes-skip = record { appends = λ buffer. rw (append-nil buffer) }

-- The bytes of all items, one after the other.
abbrev pub concat_map {ℓ} : {A : Type ℓ} → (A → List ℕ) → List A → List ℕ
concat_map f [] = []
concat_map f (x ∷ xs) = f x ++ concat_map f xs

pub Writes-each {ℓ κ} :
    {A : Type ℓ} (P : A → Type κ) (w : A → Writer) (f : A → List ℕ)
    → ((x : A) → P x → Writes (w x) (f x))
    → (xs : List A) → All P xs
    → Writes (write_each w xs) (concat_map f xs)
unfolding write_each
Writes-each P w f h [] all = Writes-skip
Writes-each P w f h (x ∷ xs) (p, all) = Writes-then (h x p) (Writes-each P w f h xs all)

pub Writes-write : (bytes : List ℕ) → Writes (write bytes) bytes
unfolding write
Writes-write bytes = record { appends = λ buffer. refl }

pub Writes-write_byte : (b : ℕ) → b < 256 → Writes (write_byte b) (b ∷ [])
unfolding write_byte
Writes-write_byte b h = record {
  appends = λ buffer. let e : b % 256 ≡ b = omega arith in rw e refl;
}

pub Writes-write_uint16_le : (z : ℤ) → Writes (write_uint16_le z) (uint16_le z)
unfolding write_uint16_le
Writes-write_uint16_le z = Writes-write (uint16_le z)

pub to_bytes-Writes : {w : Writer} {bytes : List ℕ} → Writes w bytes → to_bytes w ≡ ok bytes
unfolding to_bytes
to_bytes-Writes h = h.appends []

pub Reads-bind {ℓ κ} :
    {A : Type ℓ} {B : Type κ} {p : Parser A} {xs ys : List ℕ} {a : A} {b : B} (k : A → Parser B)
    → Reads p xs a
    → Reads (k a) ys b
    → Reads (p >>= k) (xs ++ ys) b
unfolding ◌>>=◌
Reads-bind {p} {xs} {ys} k hp hk = record {
  takes = λ rest. rw (◌>>=◌, append_assoc xs ys rest, hp.takes (ys ++ rest), hk.takes rest);
}

pub Reads-return {ℓ} : {A : Type ℓ} (a : A) → Reads (return a) [] a
unfolding return
Reads-return a = record { takes = λ rest. refl }

pub Reads-check {ℓ} : {A : Type ℓ} {r : Throws A} {a : A} → r ≡ ok a → Reads (check r) [] a
unfolding check
Reads-check h = record { takes = λ rest. rw h }

pub Reads-catch_as {ℓ} :
    {A : Type ℓ} {p : Parser A} {xs : List ℕ} {a : A} (e : Error)
    → Reads p xs a
    → Reads (catch_as e p) xs a
unfolding catch_as
Reads-catch_as e h = record { takes = λ rest. rw (catch_as, h.takes rest) }

pub Reads-read_byte : (b : ℕ) → Reads read_byte (b ∷ []) b
unfolding read_byte
Reads-read_byte b = record { takes = λ rest. refl }

read_slice-append :
    (n : ℕ) (bytes rest : List ℕ)
    → length bytes ≡ n
    → read_slice n (bytes ++ rest) ≡ ok (bytes, rest)
unfolding read_slice
read_slice-append n bytes rest h =
    let fits : ltb (length (bytes ++ rest)) (length bytes) ≡ false =
      ground (arith, length-append bytes rest) in
    rw (← h, fits, take-append bytes rest, drop-append bytes rest)

pub Reads-read_slice :
    (n : ℕ) (bytes : List ℕ) → length bytes ≡ n → Reads (read_slice n) bytes bytes
Reads-read_slice n bytes h = record { takes = λ rest. read_slice-append n bytes rest h }

read_uint16-of_uint16 :
    (z : ℤ) → IsUint16 z → pos (to_uint16 z % 256 + 256 * (to_uint16 z / 256)) ≡ z
read_uint16-of_uint16 (pos n) h = ap pos (omega arith)
read_uint16-of_uint16 (negsuc n) h = absurd h

pub Reads-read_uint16_le : (z : ℤ) → IsUint16 z → Reads read_uint16_le (uint16_le z) z
unfolding read_uint16_le
Reads-read_uint16_le z h = record {
  takes = λ rest. ap (λ y. ok (y, rest)) (read_uint16-of_uint16 z h);
}

-- The same block, written another way.
pub Reads-bytes {ℓ} :
    {A : Type ℓ} {p : Parser A} {xs ys : List ℕ} {a : A} → xs ≡ ys → Reads p xs a → Reads p ys a
Reads-bytes {p} {a} e h = subst (λ bytes. Reads p bytes a) e h

pub Writes-bytes : {w : Writer} {xs ys : List ℕ} → xs ≡ ys → Writes w xs → Writes w ys
Writes-bytes {w} e h = subst (λ bytes. Writes w bytes) e h

-- A last step that reads nothing.
pub Reads-last {ℓ κ} :
    {A : Type ℓ} {B : Type κ} {p : Parser A} {xs : List ℕ} {a : A} {b : B} (k : A → Parser B)
    → Reads p xs a
    → Reads (k a) [] b
    → Reads (p >>= k) xs b
Reads-last {xs} k hp hk = Reads-bytes (append-nil xs) (Reads-bind k hp hk)

pub Reads-times {ℓ κ} :
    {A : Type ℓ} (P : A → Type κ) (p : Parser A) (f : A → List ℕ)
    → ((x : A) → P x → Reads p (f x) x)
    → (xs : List A) → All P xs
    → Reads (read_times p (length xs)) (concat_map f xs) xs
unfolding read_times
Reads-times P p f h [] all = Reads-return []
Reads-times P p f h (x ∷ xs) (px, all) =
    Reads-bind _ (h x px) (Reads-last _ (Reads-times P p f h xs all) (Reads-return (x ∷ xs)))

pub run-Reads {ℓ} :
    {A : Type ℓ} {p : Parser A} {bytes : List ℕ} {a : A} → Reads p bytes a → run p bytes ≡ ok a
unfolding run
run-Reads {p} {bytes} {a} h =
    let e : p bytes ≡ ok (a, []) = rw (append-nil bytes) at (h.takes []) in rw (run, e)

pub Reads-at_least {ℓ} :
    {A : Type ℓ} {p : Parser A} {bytes : List ℕ} {a : A} (size : ℕ) (e : ℕ → Error)
    → size ≤ length bytes
    → Reads p bytes a
    → Reads (at_least size e p) bytes a
unfolding at_least
Reads-at_least {bytes} size e enough h = record {
  takes = λ rest.
      let passes : ltb (length (bytes ++ rest)) size ≡ false =
        ground (arith, length-append bytes rest) in
      rw passes (h.takes rest);
}

pub validated-eq-ok {ℓ} :
    {A : Type ℓ} (validate : A → Throws (Unit {0})) (x : A)
    → validate x ≡ ok tt
    → validated validate x ≡ ok x
unfolding validated
validated-eq-ok validate x h = rw (validated, h)

pub uint16_le-IsByte : (z : ℤ) → All IsByte (uint16_le z)
uint16_le-IsByte (pos n) = omega arith
uint16_le-IsByte (negsuc n) = omega arith

pub concat_map-IsByte {ℓ κ} :
    {A : Type ℓ} (P : A → Type κ) (f : A → List ℕ)
    → ((x : A) → P x → All IsByte (f x))
    → (xs : List A) → All P xs
    → All IsByte (concat_map f xs)
concat_map-IsByte P f h [] all = tt
concat_map-IsByte P f h (x ∷ xs) (p, all) =
    All-append IsByte (f x) (concat_map f xs) (h x p) (concat_map-IsByte P f h xs all)

-- A reader takes a block that nothing follows.
pub record ReadsAll {ℓ} {A : Type ℓ} (p : Parser A) (bytes : List ℕ) (a : A) : Type ℓ where
  pub takes : p bytes ≡ ok (a, [])

pub ReadsAll-bind {ℓ κ} :
    {A : Type ℓ} {B : Type κ} {p : Parser A} {xs ys : List ℕ} {a : A} {b : B} (k : A → Parser B)
    → Reads p xs a
    → ReadsAll (k a) ys b
    → ReadsAll (p >>= k) (xs ++ ys) b
unfolding ◌>>=◌
ReadsAll-bind {ys} k hp hk = record { takes = rw (◌>>=◌, hp.takes ys) hk.takes }

-- The next step reads nothing.
pub ReadsAll-nil {ℓ κ} :
    {A : Type ℓ} {B : Type κ} {p : Parser A} {xs : List ℕ} {a : A} {b : B} (k : A → Parser B)
    → Reads p xs a
    → ReadsAll (k a) [] b
    → ReadsAll (p >>= k) xs b
ReadsAll-nil {p} {xs} {b} k hp hk =
    subst (λ bytes. ReadsAll (p >>= k) bytes b) (append-nil xs) (ReadsAll-bind k hp hk)

-- At the end nothing remains.
pub ReadsAll-remaining {ℓ} :
    {B : Type ℓ} {b : B} (k : ℕ → Parser B) → ReadsAll (k 0) [] b → ReadsAll (remaining >>= k) [] b
unfolding ◌>>=◌ remaining
ReadsAll-remaining k hk = record { takes = hk.takes }

pub run-ReadsAll {ℓ} :
    {A : Type ℓ} {p : Parser A} {bytes : List ℕ} {a : A} → ReadsAll p bytes a → run p bytes ≡ ok a
unfolding run
run-ReadsAll h = rw (run, h.takes)
