-- ===== src/Extension/Envelope/Reading.antt =====
-- What the loop of `fromBytes` reads: it ends, and the packets are sound.
use congenial_giggle.Common.{
  ℕ, zero, suc, ◌+◌, ◌≤◌, ◌<◌, ◌≡◌, refl, ◌≢◌, arith, inl, inr, false, true, List, [], ◌∷◌, ok, All,
  length, drop, is_empty, map, subst, Bool-cases,
}
use congenial_giggle.Common.Sets.{IsDistinct, AreNew-IsDistinct}
use congenial_giggle.Common.Results.{Result-cases, thrown, ok_injective}
use congenial_giggle.Extension.Bytes.{IsByte}
use congenial_giggle.Extension.Bytes.Progress.{
  Takes, Takes-bind, Takes-catch_as, Takes-check, Takes-read_byte, Takes-read_var_slice,
}
use congenial_giggle.Extension.Bytes.Inversion.{
  Yields, Yields-bind, Yields-check, Yields-catch_as, Yields-read_byte, Yields-read_var_slice,
  All-drop,
}
use congenial_giggle.Extension.Asset.Hex.{Hex}
use congenial_giggle.Extension.Asset.Packet
use congenial_giggle.Extension.Asset.Packet.Laws as PacketLaws
use congenial_giggle.Extension.Envelope.{
  ExtensionPacket, asset, unknown, type_of, check_types, create, parse_packet, read_packet,
  read_packets, from_payload, has_magic,
}
use congenial_giggle.Extension.Envelope.Laws.{check_types_iff}

read_packet-Takes : (hex : Hex) → Takes (1 + (1 + 0 + 0)) (read_packet hex)
unfolding read_packet
read_packet-Takes hex = Takes-bind 1 (1 + 0 + 0) _ Takes-read_byte λ t.
    Takes-bind (1 + 0) 0 _ (Takes-catch_as (1 + 0) _ Takes-read_var_slice) λ bytes. Takes-check _

-- Fuel for every byte is enough: with more, the loop of `fromBytes` gives the same result.
pub read_packets_fuel :
    (hex : Hex) (f g : ℕ) (bytes : List ℕ)
    → length bytes ≤ f
    → length bytes ≤ g
    → read_packets hex f bytes ≡ read_packets hex g bytes
unfolding read_packets
read_packets_fuel hex f g [] hf hg = refl
read_packets_fuel hex zero g (b ∷ bytes) hf hg = absurd (omega arith)
read_packets_fuel hex (suc f) zero (b ∷ bytes) hf hg = absurd (omega arith)
read_packets_fuel hex (suc f) (suc g) (b ∷ bytes) hf hg =
    elim (Result-cases (read_packet hex (b ∷ bytes))) [
      | inl (x, e) ↦ rw (read_packets, e)
      | inr ((p, rest), e) ↦
          let less = (read_packet-Takes hex).fewer (b ∷ bytes) p rest e in
          rw (
            read_packets,
            e,
            read_packets_fuel hex f g rest (omega (arith, less)) (omega (arith, less)),
          )
    ]

-- What a packet that was read satisfies.
abbrev pub IsSound : ExtensionPacket → Type 0
IsSound (asset groups) = PacketLaws.IsValid groups
IsSound (unknown packet_type bytes) = (packet_type ≢ 0) × (packet_type < 256) × All IsByte bytes

module _ (hex : Hex) where
  parse_packet-IsSound :
      (packet_type : ℕ) (bytes : List ℕ) (p : ExtensionPacket)
      → packet_type < 256
      → All IsByte bytes
      → parse_packet hex packet_type bytes ≡ ok p
      → IsSound p
  unfolding parse_packet
  parse_packet-IsSound packet_type bytes (asset groups) t h e =
      let read : Packet.from_bytes hex bytes ≡ ok groups = ground arith in
      (PacketLaws.Packet-from_bytes-IsValid hex bytes groups h read).0
  parse_packet-IsSound packet_type bytes (unknown u content) t h e =
      let same : bytes ≡ content = ground arith in
      (ground arith, ground arith, subst (All IsByte) same h)

  Yields-read_packet : Yields (read_packet hex) IsSound
  unfolding read_packet
  Yields-read_packet = Yields-bind _ Yields-read_byte λ packet_type t.
      Yields-bind _ (Yields-catch_as _ Yields-read_var_slice)
        λ bytes h. Yields-check IsSound _ (λ p e. parse_packet-IsSound packet_type bytes p t h e)

  read_packets-IsSound :
      (fuel : ℕ) (bytes : List ℕ) (packets : List ExtensionPacket)
      → All IsByte bytes
      → read_packets hex fuel bytes ≡ ok packets
      → All IsSound packets
  unfolding read_packets
  read_packets-IsSound fuel [] packets h e =
      let none : [] ≡ packets = cc in subst (All IsSound) none tt
  read_packets-IsSound zero (b ∷ bytes) packets h e = cc
  read_packets-IsSound (suc fuel) (b ∷ bytes) packets h e =
      elim (Result-cases (read_packet hex (b ∷ bytes))) [
        | inl (x, e₁) ↦ absurd (thrown (rw (read_packets, e₁) at e))
        | inr ((p, rest), e₁) ↦
            let (sound, h') = (Yields-read_packet).sound (b ∷ bytes) p rest h e₁ in
            elim (Result-cases (read_packets hex fuel rest)) [
              | inl (x, e₂) ↦ absurd (thrown (rw (read_packets, e₁, e₂) at e))
              | inr (ps, e₂) ↦
                  subst (All IsSound) (ok_injective (rw (read_packets, e₁, e₂) at e))
                    (sound, read_packets-IsSound fuel rest ps h' e₂)
            ]
      ]

create_inv :
    (packets : List ExtensionPacket) {made : List ExtensionPacket}
    → create packets ≡ ok made
    → (packets ≡ made) × (is_empty packets ≡ false) × IsDistinct (map type_of packets)
unfolding create
create_inv [] e = cc
create_inv (p ∷ packets) e = elim (Result-cases (check_types [] (p ∷ packets))) [
  | inl (x, e₁) ↦ absurd (thrown (rw (create, e₁) at e))
  | inr (tt, e₁) ↦ (
    ok_injective (rw (create, e₁) at e),
    refl,
    (AreNew-IsDistinct (map type_of (p ∷ packets))).0 ((check_types_iff [] (p ∷ packets)).0 e₁),
  )
]

-- Whatever payload `fromBytes` accepts, it starts with the magic bytes, and the result has a
-- packet, no two of one type, an asset packet that is valid wherever there is one, and otherwise
-- only types from 1 to 255.
pub from_payload-IsSound :
    (hex : Hex) (payload : List ℕ) (packets : List ExtensionPacket)
    → All IsByte payload
    → from_payload hex payload ≡ ok packets
    → (has_magic payload ≡ true)
      × (is_empty packets ≡ false)
      × IsDistinct (map type_of packets)
      × All IsSound packets
unfolding from_payload
from_payload-IsSound hex payload packets h e = elim (Bool-cases (has_magic payload)) [
  | inr absent ↦ absurd (thrown (rw (from_payload, absent) at e))
  | inl magic ↦ elim (Result-cases (read_packets hex (length payload) (drop 3 payload))) [
    | inl (x, e₁) ↦ absurd (thrown (rw (from_payload, magic, e₁) at e))
    | inr (ps, e₁) ↦
        let (same, some, distinct) = create_inv ps (rw (from_payload, magic, e₁) at e) in
        let sound =
          read_packets-IsSound hex (length payload) (drop 3 payload) ps
            (All-drop IsByte 3 payload h) e₁ in
        subst
          (λ (qs : List ExtensionPacket).
            (has_magic payload ≡ true)
            × (is_empty qs ≡ false)
            × IsDistinct (map type_of qs)
            × All IsSound qs)
          same (magic, some, distinct, sound)
  ]
]
