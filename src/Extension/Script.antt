-- ===== src/Extension/Script.antt =====
-- `Script.decode` of the package @scure/btc-signer, which is not part of the repository.
use congenial_giggle.Common.{
  ℕ, ◌/◌, ◌%◌, ◌^◌, ◌≤◌, ◌<◌, ◌≡◌, List, [], ◌∷◌, ◌++◌, Option, some, leb, if◌then◌else◌, length,
}

-- An item of a decoded script: an opcode by name, with RETURN told apart, a number, or pushed data.
pub data Item : Type 0 where
  op_return : Item
  op : List ℕ → Item
  number : ℕ → Item
  pushed : List ℕ → Item

-- How Bitcoin script announces a push of `n` bytes: by `n` itself up to 75, else by OP_PUSHDATA1, 2
-- or 4 with the length in little-endian order.
abbrev pub push_prefix : ℕ → List ℕ
push_prefix n =
    if leb n 75
    then n ∷ []
    else if leb n 255
    then 76 ∷ n ∷ []
    else if leb n 65535
    then 77 ∷ (n % 256) ∷ (n / 256) ∷ []
    else 78 ∷ (n % 256) ∷ (n / 256 % 256) ∷ (n / 256 ^ 2 % 256) ∷ (n / 256 ^ 3 % 256) ∷ []

-- `none` is an exception. A script of OP_RETURN and one push is read as such.
pub record ScriptDecoder : Type 0 where
  pub decode : List ℕ → Option (List Item)
  pub decode-op_return :
      (bytes : List ℕ)
      → 1 ≤ length bytes
      → length bytes < 2 ^ 32
      → decode (0x6a ∷ (push_prefix (length bytes) ++ bytes)) ≡ some (op_return ∷ pushed bytes ∷ [])

-- `Script.encode` of the same package, on items that it takes.
pub record ScriptEncoder : Type 0 where
  pub encode : List Item → List ℕ
