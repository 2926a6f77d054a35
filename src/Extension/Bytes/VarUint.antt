-- ===== src/Extension/Bytes/VarUint.antt =====
-- `writeVarUint` and `readVarUint`: little-endian base 128, with bit 7 on every byte but the last.
use congenial_giggle.Common.{
  ℕ, zero, suc, ◌+◌, ◌*◌, ◌/◌, ◌%◌, ◌^◌, ◌<◌, ◌≡◌, refl, ap, ◌∙◌, arith, List, [], ◌∷◌, ◌++◌, ok,
  length, All, Bool-cases, inl, inr, ltb, if◌then◌else◌,
}
use congenial_giggle.Common.Int.{ℤ, pos, negsuc, IsNatural}
use congenial_giggle.Extension.Bytes.{
  IsByte, var_uint_loop, var_uint, write_var_uint, write_var_slice, var_uint_rounds, read_var_uint,
  read_var_slice, read_amount,
}
use congenial_giggle.Extension.Bytes.Laws.{
  Writes, Reads, Writes-write, Writes-then, Reads-bind, Reads-read_slice, Reads-last, Reads-return,
}
use native.Mathlib.Numerals.{towards_suc}
use native.Mathlib.Nat.{div-add-mod}

-- Fuel above the value is enough: more changes nothing.
var_uint_loop_fuel : (f g n : ℕ) → n < f → n < g → var_uint_loop f n ≡ var_uint_loop g n
unfolding var_uint_loop
var_uint_loop_fuel zero g n hf hg = absurd (omega arith)
var_uint_loop_fuel (suc f) zero n hf hg = absurd (omega arith)
var_uint_loop_fuel (suc f) (suc g) n hf hg = ground (arith, var_uint_loop_fuel f g (n / 128))

-- The encoding without fuel: one digit, and the rest if there is one.
pub var_uint_step :
    (n : ℕ)
    → var_uint n
      ≡ (if ltb 0 (n / 128) then (n % 128 + 128) ∷ var_uint (n / 128) else (n % 128) ∷ [])
unfolding var_uint var_uint_loop
var_uint_step n = ground (arith, var_uint_loop_fuel n (suc (n / 128)) (n / 128))

var_uint_loop-IsByte : (f n : ℕ) → All IsByte (var_uint_loop f n)
unfolding var_uint_loop
var_uint_loop-IsByte zero n = tt
var_uint_loop-IsByte (suc f) n = ground (arith, var_uint_loop-IsByte f (n / 128))

pub var_uint-IsByte : (n : ℕ) → All IsByte (var_uint n)
unfolding var_uint
var_uint-IsByte n = var_uint_loop-IsByte (suc n) n

shift_seven : (s : ℕ) → 2 ^ (s + 7) ≡ 128 * 2 ^ s
shift_seven s = simp towards_suc (omega arith)

-- A number shifted by `s` is its lowest digit and the others, shifted by 7 more.
lowest_digit : (n s : ℕ) → n * 2 ^ s ≡ n % 128 * 2 ^ s + n / 128 * 2 ^ (s + 7)
lowest_digit n s = omega (
  arith,
  ap (λ (t : ℕ). t * 2 ^ s) (div-add-mod n 128),
  ap (λ (t : ℕ). n / 128 * t) (shift_seven s),
)

var_uint_rounds-loop :
    (f n result shift : ℕ) (rest : List ℕ)
    → n < f
    → var_uint_rounds result shift (var_uint_loop f n ++ rest) ≡ ok (result + n * 2 ^ shift, rest)
unfolding var_uint_loop var_uint_rounds
var_uint_rounds-loop zero n result shift rest h = absurd (omega arith)
var_uint_rounds-loop (suc f) n result shift rest h = elim (Bool-cases (ltb 0 (n / 128))) [
  | inl more ↦ rw more (
      ground (
        arith,
        lowest_digit n shift,
        var_uint_rounds-loop f (n / 128) (result + n % 128 * 2 ^ shift) (shift + 7) rest
            (ground arith),
      ))
  | inr last ↦ rw last (ground arith)
]

pub Reads-read_var_uint : (n : ℕ) → Reads read_var_uint (var_uint n) n
unfolding read_var_uint var_uint
Reads-read_var_uint n = record {
  takes = λ rest.
      var_uint_rounds-loop (suc n) n 0 0 rest (omega arith)
      ∙ ap (λ (m : ℕ). ok (m, rest)) (omega arith);
}

pub Writes-write_var_uint : (n : ℕ) → Writes (write_var_uint (pos n)) (var_uint n)
unfolding write_var_uint
Writes-write_var_uint n = Writes-write (var_uint n)

-- A slice behind its length.
abbrev pub var_slice : List ℕ → List ℕ
var_slice bytes = var_uint (length bytes) ++ bytes

pub Writes-write_var_slice : (bytes : List ℕ) → Writes (write_var_slice bytes) (var_slice bytes)
unfolding write_var_slice
Writes-write_var_slice bytes =
    Writes-then (Writes-write_var_uint (length bytes)) (Writes-write bytes)

pub Reads-read_var_slice : (bytes : List ℕ) → Reads read_var_slice (var_slice bytes) bytes
unfolding read_var_slice
Reads-read_var_slice bytes =
    Reads-bind _ (Reads-read_var_uint (length bytes)) (Reads-read_slice (length bytes) bytes refl)

-- An amount, which is not negative.
abbrev pub amount_wire : ℤ → List ℕ
amount_wire (pos n) = var_uint n
amount_wire (negsuc n) = []

pub Writes-amount : (z : ℤ) → IsNatural z → Writes (write_var_uint z) (amount_wire z)
Writes-amount (pos n) h = Writes-write_var_uint n
Writes-amount (negsuc n) h = absurd h

pub Reads-read_amount : (z : ℤ) → IsNatural z → Reads read_amount (amount_wire z) z
unfolding read_amount
Reads-read_amount (pos n) h = Reads-last _ (Reads-read_var_uint n) (Reads-return (pos n))
Reads-read_amount (negsuc n) h = absurd h

pub amount_wire-IsByte : (z : ℤ) → All IsByte (amount_wire z)
amount_wire-IsByte (pos n) = var_uint-IsByte n
amount_wire-IsByte (negsuc n) = tt
