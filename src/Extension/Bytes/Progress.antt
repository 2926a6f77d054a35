-- ===== src/Extension/Bytes/Progress.antt =====
-- A reader never gives back more bytes than it was given.
use congenial_giggle.Common.{
  ℕ, ◌+◌, ◌*◌, ◌%◌, ◌^◌, ◌≤◌, ◌≡◌, arith, List, [], ◌∷◌, ok, length, length-drop,
}
use congenial_giggle.Extension.Errors.{Error, Throws}
use congenial_giggle.Extension.Bytes.{
  Parser, ◌>>=◌, catch_as, check, read_byte, read_slice, var_uint_rounds, read_var_uint,
  read_var_slice,
}
use congenial_giggle.Extension.Bytes.Inversion.{bind-eq-ok, catch_as-eq-ok}

-- At least `n` bytes are taken.
pub record Takes {ℓ} {A : Type ℓ} (n : ℕ) (p : Parser A) : Type ℓ where
  pub fewer :
      (bytes : List ℕ) (a : A) (rest : List ℕ)
      → p bytes ≡ ok (a, rest)
      → length rest + n ≤ length bytes

pub Takes-bind {ℓ κ} :
    {A : Type ℓ} {B : Type κ} (m n : ℕ) {p : Parser A} (k : A → Parser B)
    → Takes m p
    → ((a : A) → Takes n (k a))
    → Takes (m + n) (p >>= k)
Takes-bind m n {p} k hp hk = record {
  fewer = λ bytes b rest e.
      let (a, mid, e₁, e₂) = bind-eq-ok p k bytes e in
      omega (arith, hp.fewer bytes a mid e₁, (hk a).fewer mid b rest e₂);
}

pub Takes-catch_as {ℓ} :
    {A : Type ℓ} (n : ℕ) {p : Parser A} (x : Error) → Takes n p → Takes n (catch_as x p)
Takes-catch_as n {p} x hp = record {
  fewer = λ bytes a rest e. hp.fewer bytes a rest (catch_as-eq-ok x p bytes e);
}

pub Takes-check {ℓ} : {A : Type ℓ} (r : Throws A) → Takes 0 (check r)
unfolding check
Takes-check r = record { fewer = λ bytes a rest e. ground arith }

read_byte-fewer :
    (bytes : List ℕ) (a : ℕ) (rest : List ℕ)
    → read_byte bytes ≡ ok (a, rest)
    → length rest + 1 ≤ length bytes
unfolding read_byte
read_byte-fewer [] a rest e = cc
read_byte-fewer (b ∷ bytes) a rest e = ground arith

pub Takes-read_byte : Takes 1 read_byte
Takes-read_byte = record { fewer = read_byte-fewer }

pub Takes-read_slice : (size : ℕ) → Takes 0 (read_slice size)
unfolding read_slice
Takes-read_slice size = record { fewer = λ bytes a rest e. ground (arith, length-drop size bytes) }

var_uint_rounds-fewer :
    (bytes : List ℕ) (result shift n : ℕ) (rest : List ℕ)
    → var_uint_rounds result shift bytes ≡ ok (n, rest)
    → length rest + 1 ≤ length bytes
unfolding var_uint_rounds
var_uint_rounds-fewer [] result shift n rest e = cc
var_uint_rounds-fewer (b ∷ bytes) result shift n rest e =
    ground (arith, var_uint_rounds-fewer bytes (result + b % 128 * 2 ^ shift) (shift + 7) n rest)

pub Takes-read_var_uint : Takes 1 read_var_uint
unfolding read_var_uint
Takes-read_var_uint = record { fewer = λ bytes. var_uint_rounds-fewer bytes 0 0 }

pub Takes-read_var_slice : Takes (1 + 0) read_var_slice
unfolding read_var_slice
Takes-read_var_slice = Takes-bind 1 0 _ Takes-read_var_uint Takes-read_slice
