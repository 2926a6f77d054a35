-- ===== src/Extension/Bytes.antt =====
-- packages/ts-sdk/src/extension/asset/utils.ts: BufferWriter and BufferReader.
-- A Uint8Array is the list of its bytes. A writer's state is its buffer, and a method takes the
-- buffer to the next one or throws. A reader's state is the part of its view that lies behind the
-- offset (Bytes/Cursor.antt keeps the view and the offset apart and shows that this is the same).
pub mod Laws
pub mod Cursor
pub mod VarUint
pub mod Inversion
pub mod Progress
use congenial_giggle.Common.{
  ℕ, zero, suc, ◌+◌, ◌*◌, ◌/◌, ◌%◌, ◌^◌, Bool, true, false, ◌&&◌, List, [], ◌∷◌, ◌++◌, Result, ok,
  err, ltb, ◌<◌, ◌==◌, if◌then◌else◌, length, take, drop, all,
}
use congenial_giggle.Common.Int.{ℤ, pos, negsuc, to_uint16}
use congenial_giggle.Extension.Errors.{Error, unexpected_end, negative_var_uint, Throws}

abbrev pub IsByte : ℕ → Type 0
IsByte b = b < 256

-- A method of BufferWriter: the buffer before it, and the buffer after it.
abbrev pub Writer : Type 0
Writer = List ℕ → Throws (List ℕ)

-- Two calls, one after the other.
infixl 5 ◌>>◌
unfoldable pub ◌>>◌ : Writer → Writer → Writer
◌>>◌ first second buffer = elim (first buffer) [ ok b ↦ second b | err e ↦ err e ]

-- No call.
unfoldable pub skip : Writer
skip buffer = ok buffer

-- A loop that makes one call for each item.
unfoldable pub write_each {ℓ} : {A : Type ℓ} → (A → Writer) → List A → Writer
write_each w [] = skip
write_each w (x ∷ xs) = w x >> write_each w xs

-- `new BufferWriter()`, the calls, `toBytes()`.
unfoldable pub to_bytes : Writer → Throws (List ℕ)
to_bytes w = w []

unfoldable pub write : List ℕ → Writer
write bytes buffer = ok (buffer ++ bytes)

-- `byte & 0xff`
unfoldable pub write_byte : ℕ → Writer
write_byte byte buffer = ok (buffer ++ ((byte % 256) ∷ []))

-- The two bytes of `setUint16(0, value, true)`.
abbrev pub uint16_le : ℤ → List ℕ
uint16_le value = (to_uint16 value % 256) ∷ (to_uint16 value / 256) ∷ []

unfoldable pub write_uint16_le : ℤ → Writer
write_uint16_le value = write (uint16_le value)

-- The do-while loop of `writeVarUint`: `& 0x7f` is `% 128`, `>>= 7` is `/ 128`, and `|= 0x80` adds
-- 128 to a number below 128. One round takes a digit to base 128, so `value + 1` rounds are enough
-- (`var_uint_step`).
unfoldable pub var_uint_loop : ℕ → ℕ → List ℕ
var_uint_loop zero remaining = []
var_uint_loop (suc fuel) remaining =
    let rest = var_uint_loop fuel (remaining / 128) in
    let more : List ℕ = (remaining % 128 + 128) ∷ rest in
    if ltb 0 (remaining / 128) then more else (remaining % 128) ∷ []

unfoldable pub var_uint : ℕ → List ℕ
var_uint value = var_uint_loop (suc value) value

unfoldable pub write_var_uint : ℤ → Writer
write_var_uint (pos value) = write (var_uint value)
write_var_uint (negsuc value) = λ _. err negative_var_uint

unfoldable pub write_var_slice : List ℕ → Writer
write_var_slice bytes = do write_var_uint (pos (length bytes)); write bytes

-- A method of BufferReader: the unread bytes before it, and the result with those after it. What
-- remains after an exception is not kept, since no caller reads on.
abbrev pub Parser {ℓ} : Type ℓ → Type ℓ
Parser A = List ℕ → Throws (A × List ℕ)

infixl 5 ◌>>=◌
unfoldable pub ◌>>=◌ {ℓ κ} : {A : Type ℓ} {B : Type κ} → Parser A → (A → Parser B) → Parser B
◌>>=◌ p k bytes = elim (p bytes) [ ok (a, rest) ↦ k a rest | err e ↦ err e ]

unfoldable pub return {ℓ} : {A : Type ℓ} → A → Parser A
return a rest = ok (a, rest)

unfoldable pub throw {ℓ} : {A : Type ℓ} → Error → Parser A
throw e rest = err e

-- `try { … } catch { throw e }`
unfoldable pub catch_as {ℓ} : {A : Type ℓ} → Error → Parser A → Parser A
catch_as e p bytes = elim (p bytes) [ ok r ↦ ok r | err _ ↦ err e ]

-- A check that reads nothing.
unfoldable pub check {ℓ} : {A : Type ℓ} → Throws A → Parser A
check r bytes = elim r [ ok a ↦ ok (a, bytes) | err e ↦ err e ]

-- A reader over the bytes, one method, and its result.
unfoldable pub run {ℓ} : {A : Type ℓ} → Parser A → List ℕ → Throws A
run p bytes = elim (p bytes) [ ok (a, rest) ↦ ok a | err e ↦ err e ]

unfoldable pub remaining : Parser ℕ
remaining bytes = ok (length bytes, bytes)

unfoldable pub read_byte : Parser ℕ
read_byte [] = err unexpected_end
read_byte (b ∷ bs) = ok (b, bs)

unfoldable pub read_slice : ℕ → Parser (List ℕ)
read_slice size bytes =
    if ltb (length bytes) size then err unexpected_end else ok (take size bytes, drop size bytes)

unfoldable pub read_uint16_le : Parser ℤ
read_uint16_le [] = err unexpected_end
read_uint16_le (lo ∷ []) = err unexpected_end
read_uint16_le (lo ∷ hi ∷ bs) = ok (pos (lo + 256 * hi), bs)

-- The do-while loop of `readVarUint`: `byte & 0x80` tests bit 7, and `result |= … << shift` adds,
-- since `result` is below `2 ^ shift`.
unfoldable pub var_uint_rounds : ℕ → ℕ → Parser ℕ
var_uint_rounds result shift [] = err unexpected_end
var_uint_rounds result shift (byte ∷ bs) =
    let result' = result + byte % 128 * 2 ^ shift in
    let more = var_uint_rounds result' (shift + 7) bs in
    if byte / 128 % 2 == 1 then more else ok (result', bs)

unfoldable pub read_var_uint : Parser ℕ
read_var_uint = var_uint_rounds 0 0

-- The same number as the value of a bigint variable.
unfoldable pub read_amount : Parser ℤ
read_amount = do amount ← read_var_uint; return (pos amount)

unfoldable pub read_var_slice : Parser (List ℕ)
read_var_slice = do size ← read_var_uint; read_slice size

-- A loop that calls the method `count` times.
unfoldable pub read_times {ℓ} : {A : Type ℓ} → Parser A → ℕ → Parser (List A)
read_times p zero = return []
read_times p (suc count) = do x ← p; xs ← read_times p count; return (x ∷ xs)

unfoldable pub is_zero_bytes : List ℕ → Bool
is_zero_bytes = all (λ byte. byte == 0)

-- A guard on `remaining()` before a method: `size` bytes at least must be left.
unfoldable pub at_least {ℓ} : {A : Type ℓ} → ℕ → (ℕ → Error) → Parser A → Parser A
at_least size e p bytes = if ltb (length bytes) size then err (e (length bytes)) else p bytes

-- `x.validate(); return x`
unfoldable pub validated {ℓ} : {A : Type ℓ} → (A → Throws (Unit {0})) → A → Throws A
validated validate x = elim (validate x) [ ok _ ↦ ok x | err e ↦ err e ]

-- For tests: what unfolds this unfolds every method.
unfoldable pub methods : Unit {0}
unfolding ◌>>◌ skip write_each to_bytes write write_byte write_uint16_le var_uint_loop var_uint
    write_var_uint write_var_slice ◌>>=◌ return throw catch_as check run remaining read_byte
    read_slice read_uint16_le var_uint_rounds read_var_uint read_amount read_var_slice read_times
    is_zero_bytes at_least validated
methods = tt
