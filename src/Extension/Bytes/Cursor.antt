-- ===== src/Extension/Bytes/Cursor.antt =====
-- packages/ts-sdk/src/extension/asset/utils.ts: BufferReader with its fields, a view and an offset.
pub mod Refines
use congenial_giggle.Common.{
  ℕ, zero, suc, ◌+◌, ◌-◌, ◌*◌, ◌/◌, ◌%◌, ◌^◌, List, [], ◌∷◌, ok, err, ltb, leb, ◌==◌, if◌then◌else◌,
  length, take, drop,
}
use congenial_giggle.Common.Int.{ℤ, pos}
use congenial_giggle.Extension.Errors.{Throws, unexpected_end}

pub record Cursor : Type 0 where
  pub view : List ℕ
  pub offset : ℕ

-- A method that returns a value, and the reader after it.
abbrev pub Method {ℓ} : Type ℓ → Type ℓ
Method A = Cursor → Throws (A × Cursor)

unfoldable pub new_reader : List ℕ → Cursor
new_reader bytes = record { view = bytes; offset = 0 }

unfoldable pub remaining : Cursor → ℕ
remaining c = length c.view - c.offset

-- `getUint8(i)`, which no method calls past the end.
unfoldable pub get_uint8 : List ℕ → ℕ → ℕ
get_uint8 [] i = 0
get_uint8 (b ∷ bytes) zero = b
get_uint8 (b ∷ bytes) (suc i) = get_uint8 bytes i

abbrev pub advance : ℕ → Cursor → Cursor
advance n c = record c { offset = c.offset + n }

unfoldable pub read_byte : Method ℕ
read_byte c =
    if leb (length c.view) c.offset
    then err unexpected_end
    else ok (get_uint8 c.view c.offset, advance 1 c)

unfoldable pub read_slice : ℕ → Method (List ℕ)
read_slice size c =
    if ltb (length c.view) (c.offset + size)
    then err unexpected_end
    else ok (take size (drop c.offset c.view), advance size c)

unfoldable pub read_uint16_le : Method ℤ
read_uint16_le c =
    if ltb (length c.view) (c.offset + 2)
    then err unexpected_end
    else ok (pos (get_uint8 c.view c.offset + 256 * get_uint8 c.view (c.offset + 1)), advance 2 c)

-- The do-while loop. A round moves the offset on or throws at the end, so one round more than there
-- are bytes left is enough.
unfoldable pub var_uint_rounds : ℕ → ℕ → ℕ → Method ℕ
var_uint_rounds zero result shift c = err unexpected_end
var_uint_rounds (suc fuel) result shift c =
    let byte = get_uint8 c.view c.offset in
    let result' = result + byte % 128 * 2 ^ shift in
    let more = var_uint_rounds fuel result' (shift + 7) (advance 1 c) in
    if leb (length c.view) c.offset
    then err unexpected_end
    else if byte / 128 % 2 == 1
    then more
    else ok (result', advance 1 c)

unfoldable pub read_var_uint : Method ℕ
read_var_uint c = var_uint_rounds (suc (remaining c)) 0 0 c

unfoldable pub read_var_slice : Method (List ℕ)
read_var_slice c = elim (read_var_uint c) [ ok (size, c') ↦ read_slice size c' | err e ↦ err e ]
