-- ===== src/Extension/Envelope/Laws.antt =====
-- The envelope of valid packets as a script, and the way back.
use congenial_giggle.Common.{
  ℕ, zero, suc, ◌/◌, ◌%◌, ◌^◌, ◌≤◌, ◌<◌, ◌≡◌, refl, ◌↔◌, arith, true, false, List, [], ◌∷◌, ◌++◌,
  ok, All, length, length-append, is_empty, map, append-nil, leb, ◌==◌, ==_iff,
}
use congenial_giggle.Common.Sets.{IsDistinct, AreNew, any-eq_iff, AreNew-IsDistinct}
use congenial_giggle.Common.Results.{◌>>=◌}
use congenial_giggle.Extension.Bytes.{var_uint}
use congenial_giggle.Extension.Bytes.Laws.{
  Reads, concat_map, Reads-bind, Reads-last, Reads-check, Reads-catch_as, Reads-read_byte,
}
use congenial_giggle.Extension.Bytes.VarUint.{var_uint_step, var_slice, Reads-read_var_slice}
use congenial_giggle.Extension.Asset.Hex.{Hex}
use congenial_giggle.Extension.Asset.Packet.Laws as PacketLaws
use congenial_giggle.Extension.Script.{push_prefix, ScriptDecoder}
use congenial_giggle.Extension.Envelope.{
  arkade_magic, ExtensionPacket, asset, unknown, type_of, serialize_packet, check_types, create,
  equal_bytes, has_magic, data_pushes, concat, encode_loop, encode_var_uint, build_op_return_script,
  tlv, tlvs, serialize, parse_packet, read_packet, read_packets, from_payload, from_pushes,
  from_items, from_bytes,
}

encode_loop-var_uint : (f n : ℕ) → n < 2 ^ 32 → n < 128 ^ suc f → encode_loop (suc f) n ≡ var_uint n
unfolding encode_loop
encode_loop-var_uint zero n h k = ground (arith, var_uint_step n)
encode_loop-var_uint (suc f) n h k =
    ground (arith, var_uint_step n, encode_loop-var_uint f (n / 128) (omega arith) (omega arith))

-- Below 2^32 both encoders of the repository write the same bytes.
pub encode_var_uint-var_uint : (n : ℕ) → n < 2 ^ 32 → encode_var_uint n ≡ var_uint n
unfolding encode_var_uint
encode_var_uint-var_uint n h = encode_loop-var_uint 4 n h (omega arith)

-- Below 2^32 the script is OP_RETURN and one push in Bitcoin's encoding.
pub build_op_return_script-push :
    (bytes : List ℕ)
    → length bytes < 2 ^ 32
    → build_op_return_script bytes ≡ 0x6a ∷ (push_prefix (length bytes) ++ bytes)
unfolding build_op_return_script
build_op_return_script-push bytes h = ground arith

pub check_types_iff :
    (seen : List ℕ) (packets : List ExtensionPacket)
    → (check_types seen packets ≡ ok tt) ↔ AreNew (map type_of packets) seen
unfolding check_types
check_types_iff seen [] = (λ _. tt, λ _. refl)
check_types_iff seen (p ∷ packets) =
    ground
      (arith, any-eq_iff ◌==◌ ==_iff (type_of p) seen, check_types_iff (type_of p ∷ seen) packets)

-- The bytes of a packet.
abbrev pub bytes_of : ExtensionPacket → List ℕ
bytes_of (asset groups) = PacketLaws.wire groups
bytes_of (unknown packet_type bytes) = bytes

abbrev pub IsValidPacket : ExtensionPacket → Type 0
IsValidPacket (asset groups) =
    PacketLaws.IsValid groups × (length (PacketLaws.wire groups) < 2 ^ 32)
IsValidPacket (unknown packet_type bytes) =
    (0 < packet_type) × (packet_type < 256) × (length bytes < 2 ^ 32)

-- A TLV record: type, length, bytes.
abbrev pub record_wire : ExtensionPacket → List ℕ
record_wire p = (type_of p ∷ []) ++ var_slice (bytes_of p)

abbrev pub payload : List ExtensionPacket → List ℕ
payload packets = arkade_magic ++ concat_map record_wire packets

pub record IsValid (packets : List ExtensionPacket) : Type 0 where
  pub each : All IsValidPacket packets
  pub not_empty : is_empty packets ≡ false
  pub distinct : IsDistinct (map type_of packets)
  pub short : length (payload packets) < 2 ^ 32

tlv-wire : (p : ExtensionPacket) → IsValidPacket p → tlv p ≡ ok (record_wire p)
unfolding tlv type_of serialize_packet
tlv-wire (asset groups) (v, short) = rw (
  tlv,
  serialize_packet,
  PacketLaws.serialize-wire groups v,
  encode_var_uint-var_uint (length (PacketLaws.wire groups)) short,
)
tlv-wire (unknown t bytes) (lo, hi, short) =
    let low : t % 256 ≡ t = omega arith in rw (encode_var_uint-var_uint (length bytes) short, low)

tlvs-wire :
    (packets : List ExtensionPacket)
    → All IsValidPacket packets
    → tlvs packets ≡ ok (concat_map record_wire packets)
unfolding tlvs
tlvs-wire [] h = refl
tlvs-wire (p ∷ packets) (v, h) = rw (tlvs, tlv-wire p v, tlvs-wire packets h)

serialize-wire :
    (packets : List ExtensionPacket)
    → All IsValidPacket packets
    → serialize packets ≡ ok (build_op_return_script (payload packets))
unfolding serialize
serialize-wire packets h = rw (serialize, tlvs-wire packets h)

pub create-valid :
    (packets : List ExtensionPacket)
    → is_empty packets ≡ false
    → IsDistinct (map type_of packets)
    → create packets ≡ ok packets
unfolding create
create-valid packets not_empty distinct =
    let (to, from) = AreNew-IsDistinct (map type_of packets) in
    rw (not_empty, create, (check_types_iff [] packets).1 (from distinct))

module _ (hex : Hex) where
  parse_packet-valid :
      (p : ExtensionPacket) → IsValidPacket p → parse_packet hex (type_of p) (bytes_of p) ≡ ok p
  unfolding parse_packet type_of
  parse_packet-valid (asset groups) (v, short) =
      rw (parse_packet, PacketLaws.from_bytes-wire hex groups v)
  parse_packet-valid (unknown t bytes) (lo, hi, short) = ground arith

  Reads-read_packet :
      (p : ExtensionPacket) → IsValidPacket p → Reads (read_packet hex) (record_wire p) p
  unfolding read_packet
  Reads-read_packet p v = Reads-bind _ (Reads-read_byte (type_of p)) (
      Reads-last _ (Reads-catch_as _ (Reads-read_var_slice (bytes_of p)))
        (Reads-check (parse_packet-valid p v)))

  read_packets-wire :
      (fuel : ℕ) (packets : List ExtensionPacket)
      → All IsValidPacket packets
      → length (concat_map record_wire packets) ≤ fuel
      → read_packets hex fuel (concat_map record_wire packets) ≡ ok packets
  unfolding read_packets
  read_packets-wire fuel [] h enough = refl
  read_packets-wire zero (p ∷ packets) h enough = absurd (omega arith)
  read_packets-wire (suc fuel) (p ∷ packets) (v, h) enough =
      let tail = concat_map record_wire packets in
      let shorter : length tail ≤ fuel = omega (arith, length-append (record_wire p) tail) in
      rw
        (read_packets, (Reads-read_packet p v).takes tail, read_packets-wire fuel packets h shorter)

  from_payload-valid :
      (packets : List ExtensionPacket)
      → IsValid packets
      → from_payload hex (payload packets) ≡ ok packets
  unfolding from_payload has_magic equal_bytes
  from_payload-valid packets v =
      let rest = concat_map record_wire packets in
      let magic : leb 3 (length (payload packets)) ≡ true = ground arith in
      rw (
        magic,
        read_packets-wire (length (payload packets)) packets v.each (omega arith),
        create-valid packets v.not_empty v.distinct,
      )

  module _ (decoder : ScriptDecoder) where
    from_bytes-payload :
        (packets : List ExtensionPacket)
        → IsValid packets
        → from_bytes hex decoder (build_op_return_script (payload packets)) ≡ ok packets
    unfolding from_bytes from_items from_pushes data_pushes concat
    from_bytes-payload packets v =
        rw
          (
            build_op_return_script-push (payload packets) v.short,
            decoder.decode-op_return (payload packets) (omega arith) v.short,
            append-nil (payload packets),
          )
          (from_payload-valid packets v)

    -- A valid extension is read back from its script.
    pub Extension-round_trip :
        (packets : List ExtensionPacket)
        → IsValid packets
        → (serialize packets >>= from_bytes hex decoder) ≡ ok packets
    Extension-round_trip packets v =
        rw (serialize-wire packets v.each) (from_bytes-payload packets v)
