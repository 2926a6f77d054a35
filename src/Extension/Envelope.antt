-- ===== src/Extension/Envelope.antt =====
-- packages/ts-sdk/src/extension/index.ts and packet.ts: the class Extension, a set of typed packets
-- in an OP_RETURN output.
pub mod Laws
pub mod Reading
use congenial_giggle.Common.{
  ℕ, zero, suc, ◌+◌, ◌*◌, ◌/◌, ◌%◌, ◌^◌, Bool, true, false, ◌&&◌, List, [], ◌∷◌, ◌++◌, Option, none,
  some, ok, err, ltb, leb, ◌==◌, if◌then◌else◌, length, is_empty, take, drop, any,
}
use congenial_giggle.Extension.Errors.{
  Error, Throws, missing_packets, duplicate_packet_type, missing_op_return, expected_op_return,
  missing_magic, expected_magic, extension_not_found, missing_packet_data,
}
use congenial_giggle.Extension.Bytes.{
  Parser, ◌>>=◌, return, catch_as, check, run, read_byte, read_var_slice,
}
use congenial_giggle.Extension.Asset.Hex.{Hex}
use congenial_giggle.Extension.Asset.Packet
use congenial_giggle.Extension.Asset.Packet.{Packet}
use congenial_giggle.Extension.Script.{Item, op_return, op, number, pushed, ScriptDecoder}

-- "ARK"
abbrev pub arkade_magic : List ℕ
arkade_magic = 0x41 ∷ 0x52 ∷ 0x4b ∷ []

-- The implementations of the interface ExtensionPacket.
pub data ExtensionPacket : Type 0 where
  asset : Packet → ExtensionPacket
  unknown : ℕ → List ℕ → ExtensionPacket

unfoldable pub type_of : ExtensionPacket → ℕ
type_of (asset groups) = Packet.packet_type
type_of (unknown packet_type bytes) = packet_type

unfoldable pub serialize_packet : ExtensionPacket → Throws (List ℕ)
serialize_packet (asset groups) = Packet.serialize groups
serialize_packet (unknown packet_type bytes) = ok bytes

-- The loop that looks for a type seen before.
unfoldable pub check_types : List ℕ → List ExtensionPacket → Throws (Unit {0})
check_types seen [] = ok tt
check_types seen (p ∷ packets) =
    let rest = check_types (type_of p ∷ seen) packets in
    if any (λ t. type_of p == t) seen then err (duplicate_packet_type (type_of p)) else rest

-- An extension is the list of its packets.
unfoldable pub create : List ExtensionPacket → Throws (List ExtensionPacket)
create packets =
    if is_empty packets
    then err missing_packets
    else elim (check_types [] packets) [ ok _ ↦ ok packets | err e ↦ err e ]

unfoldable pub equal_bytes : List ℕ → List ℕ → Bool
equal_bytes [] [] = true
equal_bytes (a ∷ s) (b ∷ t) = a == b && equal_bytes s t
equal_bytes _ _ = false

-- `payload.length >= 3 && equalBytes(payload.slice(0, 3), ARKADE_MAGIC)`
unfoldable pub has_magic : List ℕ → Bool
has_magic payload = leb 3 (length payload) && equal_bytes (take 3 payload) arkade_magic

unfoldable pub is_extension_script : Option (List Item) → Bool
is_extension_script (some (op_return ∷ pushed bytes ∷ _)) = has_magic bytes
is_extension_script _ = false

-- The data pushes among the items, one after the other.
unfoldable pub data_pushes : List Item → List (List ℕ)
data_pushes [] = []
data_pushes (pushed bytes ∷ items) = bytes ∷ data_pushes items
data_pushes (op_return ∷ items) = data_pushes items
data_pushes (op name ∷ items) = data_pushes items
data_pushes (number n ∷ items) = data_pushes items

unfoldable pub concat : List (List ℕ) → List ℕ
concat [] = []
concat (part ∷ parts) = part ++ concat parts

-- `encodeVarUint`: `remaining & 0x7f` and `remaining >>>= 7` take the number modulo 2^32 first. One
-- round takes a digit to base 128, so five rounds are enough.
unfoldable pub encode_loop : ℕ → ℕ → List ℕ
encode_loop zero remaining = []
encode_loop (suc fuel) remaining =
    let next = remaining % 2 ^ 32 / 128 in
    let rest = encode_loop fuel next in
    let more : List ℕ = (remaining % 128 + 128) ∷ rest in
    if ltb 0 next then more else (remaining % 128) ∷ []

unfoldable pub encode_var_uint : ℕ → List ℕ
encode_var_uint value = encode_loop 5 value

-- The two cases of `setUint16` and `setUint32` take the length modulo 2^16 and 2^32.
unfoldable pub build_op_return_script : List ℕ → List ℕ
build_op_return_script bytes =
    let n = length bytes in
    if leb n 75
    then 0x6a ∷ n ∷ bytes
    else if leb n 255
    then 0x6a ∷ 0x4c ∷ n ∷ bytes
    else if leb n 65535
    then 0x6a ∷ 0x4d ∷ (n % 256) ∷ (n / 256 % 256) ∷ bytes
    else 0x6a
      ∷ 0x4e
      ∷ (n % 256)
      ∷ (n / 256 % 256)
      ∷ (n / 256 ^ 2 % 256)
      ∷ (n / 256 ^ 3 % 256)
      ∷ bytes

-- One TLV record: `new Uint8Array([p.type()])` keeps the low byte of the type.
unfoldable pub tlv : ExtensionPacket → Throws (List ℕ)
tlv p = elim (serialize_packet p) [
  | ok bytes ↦ ok ((type_of p % 256) ∷ (encode_var_uint (length bytes) ++ bytes))
  | err e ↦ err e
]

unfoldable pub tlvs : List ExtensionPacket → Throws (List ℕ)
tlvs [] = ok []
tlvs (p ∷ packets) = elim (tlv p) [
  | ok part ↦ elim (tlvs packets) [ ok parts ↦ ok (part ++ parts) | err e ↦ err e ]
  | err e ↦ err e
]

unfoldable pub serialize : List ExtensionPacket → Throws (List ℕ)
serialize packets = elim (tlvs packets) [
  | ok parts ↦ ok (build_op_return_script (arkade_magic ++ parts))
  | err e ↦ err e
]

pub record TxOut : Type 0 where
  pub script : List ℕ
  pub amount : ℕ

unfoldable pub tx_out : List ExtensionPacket → Throws TxOut
tx_out packets = elim (serialize packets) [
  | ok script ↦ ok (record { script = script; amount = 0 })
  | err e ↦ err e
]

unfoldable pub get_asset_packet : List ExtensionPacket → Option Packet
get_asset_packet [] = none
get_asset_packet (asset groups ∷ packets) = some groups
get_asset_packet (unknown packet_type bytes ∷ packets) = get_asset_packet packets

module _ (hex : Hex) where
  unfoldable pub parse_packet : ℕ → List ℕ → Throws ExtensionPacket
  parse_packet packet_type bytes =
      if packet_type == Packet.packet_type
      then elim (Packet.from_bytes hex bytes) [ ok groups ↦ ok (asset groups) | err e ↦ err e ]
      else ok (unknown packet_type bytes)

  unfoldable pub read_packet : Parser ExtensionPacket
  read_packet = do
    packet_type ← read_byte
    bytes ← catch_as missing_packet_data read_var_slice
    check (parse_packet packet_type bytes)

  -- `while (reader.remaining() > 0)`. A round takes a byte at least, so as many rounds as there are
  -- bytes are enough.
  unfoldable pub read_packets : ℕ → List ℕ → Throws (List ExtensionPacket)
  read_packets fuel [] = ok []
  read_packets zero (b ∷ bytes) = err missing_packets
  read_packets (suc fuel) (b ∷ bytes) = elim (read_packet (b ∷ bytes)) [
    | ok (p, rest) ↦ elim (read_packets fuel rest) [ ok packets ↦ ok (p ∷ packets) | err e ↦ err e ]
    | err e ↦ err e
  ]

  unfoldable pub from_payload : List ℕ → Throws (List ExtensionPacket)
  from_payload payload =
      if has_magic payload
      then elim (read_packets (length payload) (drop 3 payload)) [
        | ok packets ↦ create packets
        | err e ↦ err e
      ]
      else err expected_magic

  unfoldable pub from_pushes : List (List ℕ) → Throws (List ExtensionPacket)
  from_pushes pushes = if is_empty pushes then err missing_magic else from_payload (concat pushes)

  unfoldable pub from_items : Option (List Item) → Throws (List ExtensionPacket)
  from_items (some (op_return ∷ items)) = from_pushes (data_pushes items)
  from_items _ = err expected_op_return

  module _ (decoder : ScriptDecoder) where
    unfoldable pub is_extension : List ℕ → Bool
    is_extension script = is_extension_script (decoder.decode script)

    unfoldable pub from_bytes : List ℕ → Throws (List ExtensionPacket)
    from_bytes script =
        if is_empty script then err missing_op_return else from_items (decoder.decode script)

    -- The outputs of the transaction in order; an output may have no script.
    unfoldable pub from_tx : List (Option (List ℕ)) → Throws (List ExtensionPacket)
    from_tx [] = err extension_not_found
    from_tx (none ∷ outputs) = from_tx outputs
    from_tx (some script ∷ outputs) =
        if is_extension script then from_bytes script else from_tx outputs
