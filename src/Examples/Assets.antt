-- ===== src/Examples/Assets.antt =====
-- Asset packets: runs on the bytes of test/fixtures, and the theorems at concrete inputs.
use congenial_giggle.Common.{
  is_some, ℕ, ◌≡◌, refl, ◌↔◌, ◌⊎◌, arith, true, false, List, [], ◌∷◌, ◌++◌, none, some, ok, err,
  All, length, map, is_empty,
}
use congenial_giggle.Common.Int.{pos}
use congenial_giggle.Common.Sets.{IsDistinct}
use congenial_giggle.Common.Results.{◌>>=◌}
use congenial_giggle.Extension.Errors.{issuance_with_inputs}
use congenial_giggle.Extension.Bytes
use congenial_giggle.Extension.Bytes.{IsByte, methods, var_uint}
use congenial_giggle.Extension.Bytes.Cursor
use congenial_giggle.Extension.Bytes.Cursor.{Cursor}
use congenial_giggle.Extension.Bytes.Cursor.Refines as Refines
use congenial_giggle.Extension.Asset.Hex.{hex_of}
use congenial_giggle.Extension.Asset.AssetId
use congenial_giggle.Extension.Asset.AssetId.{AssetId}
use congenial_giggle.Extension.Asset.AssetId.Laws as IdLaws
use congenial_giggle.Extension.Asset.AssetRef
use congenial_giggle.Extension.Asset.AssetRef.{AssetRef, by_id, by_group}
use congenial_giggle.Extension.Asset.AssetInput
use congenial_giggle.Extension.Asset.AssetInput.{AssetInput, local, intent}
use congenial_giggle.Extension.Asset.AssetInputs
use congenial_giggle.Extension.Asset.AssetInputs.Laws as InputsLaws
use congenial_giggle.Extension.Asset.AssetOutput
use congenial_giggle.Extension.Asset.AssetOutput.{AssetOutput}
use congenial_giggle.Extension.Asset.AssetOutputs
use congenial_giggle.Extension.Asset.Metadata.{Metadata}
use congenial_giggle.Extension.Asset.Metadata.Merkle
use congenial_giggle.Extension.Asset.Metadata.Tree as Tree
use congenial_giggle.Extension.Asset.AssetGroup
use congenial_giggle.Extension.Asset.AssetGroup.{AssetGroup}
use congenial_giggle.Extension.Asset.AssetGroup.Laws as GroupLaws
use congenial_giggle.Extension.Asset.AssetGroup.Leaf as Leaf
use congenial_giggle.Extension.Asset.Packet
use congenial_giggle.Extension.Asset.Packet.{Packet}
use congenial_giggle.Extension.Asset.Packet.Laws as PacketLaws
use congenial_giggle.Extension.Envelope
use congenial_giggle.Extension.Envelope.{ExtensionPacket, asset, unknown}
use congenial_giggle.Extension.Envelope.Laws as EnvelopeLaws
use congenial_giggle.Extension.Envelope.Reading as Reading
use congenial_giggle.Examples.Codecs.{hex, decoder, hashing, encode}

abbrev txid_a : List ℕ
txid_a =
    0xaa ∷ 0xaa ∷ 0xaa ∷ 0xaa ∷ 0xaa ∷ 0xaa ∷ 0xaa ∷ 0xaa ∷ 0xaa ∷ 0xaa ∷ 0xaa ∷ 0xaa ∷ 0xaa ∷ 0xaa
    ∷ 0xaa ∷ 0xaa ∷ 0xaa ∷ 0xaa ∷ 0xaa ∷ 0xaa ∷ 0xaa ∷ 0xaa ∷ 0xaa ∷ 0xaa ∷ 0xaa ∷ 0xaa ∷ 0xaa
    ∷ 0xaa ∷ 0xaa ∷ 0xaa ∷ 0xaa ∷ 0xa1 ∷ []

abbrev id_a : AssetId
id_a = record { txid = txid_a; group_index = pos 0 }

-- "send (with local inputs and outputs)" of asset_group_fixtures.json
abbrev send_group : AssetGroup
send_group = record {
  asset_id = some id_a;
  control_asset = none;
  inputs = local (pos 0) (pos 100) ∷ [];
  outputs =
      record { vout = pos 0; amount = pos 60 } ∷ record { vout = pos 1; amount = pos 40 } ∷ [];
  metadata = [];
}

abbrev send_bytes : List ℕ
send_bytes =
    (0x01 ∷ txid_a)
    ++ (0x00 ∷ 0x00 ∷ 0x01 ∷ 0x01 ∷ 0x00 ∷ 0x00 ∷ 0x64 ∷ 0x02 ∷ 0x01 ∷ 0x00 ∷ 0x00 ∷ 0x3c ∷ 0x01
        ∷ 0x01 ∷ 0x00 ∷ 0x28 ∷ [])

-- "issuance (simple)"
abbrev issuance_group : AssetGroup
issuance_group = record {
  asset_id = none;
  control_asset = none;
  inputs = [];
  outputs = record { vout = pos 2; amount = pos 100 } ∷ [];
  metadata = [];
}

abbrev issuance_bytes : List ℕ
issuance_bytes = 0x00 ∷ 0x00 ∷ 0x01 ∷ 0x01 ∷ 0x02 ∷ 0x00 ∷ 0x64 ∷ []

-- All that the runs below unfold.
group_runs : Unit {0}
unfolding methods AssetId.validate AssetId.from_reader AssetId.serialize_to AssetRef.from_reader
    AssetRef.serialize_to AssetInput.validate AssetInput.read_local AssetInput.read_intent
    AssetInput.read_input AssetInput.from_reader AssetInput.write_txid AssetInput.vin
    AssetInput.amount AssetInput.serialize_to AssetInputs.add_vin AssetInputs.check_type
    AssetInputs.validate_round AssetInputs.validate_from AssetInputs.validate AssetInputs.create
    AssetInputs.from_reader AssetOutput.validate AssetOutput.read_local AssetOutput.read_output
    AssetOutput.from_reader AssetOutput.serialize_to AssetOutputs.validate_round
    AssetOutputs.validate_from AssetOutputs.validate AssetOutputs.read_outputs
    AssetOutputs.from_reader AssetOutputs.if_valid AssetGroup.is_issuance AssetGroup.validate
    AssetGroup.create AssetGroup.read_if AssetGroup.read_metadata AssetGroup.has_mask
    AssetGroup.from_reader AssetGroup.from_bytes AssetGroup.set_mask AssetGroup.presence_of
    AssetGroup.write_option AssetGroup.write_metadata AssetGroup.serialize_to AssetGroup.serialize
group_runs = tt

send_group_bytes : AssetGroup.serialize send_group ≡ ok send_bytes
unfolding group_runs
send_group_bytes = refl

issuance_group_bytes : AssetGroup.serialize issuance_group ≡ ok issuance_bytes
unfolding group_runs
issuance_group_bytes = refl

send_bytes_group : AssetGroup.from_bytes send_bytes ≡ ok send_group
unfolding group_runs
send_bytes_group = refl

abbrev sample_packet : Packet
sample_packet = send_group ∷ issuance_group ∷ []

abbrev sample_packet_bytes : List ℕ
sample_packet_bytes = 0x02 ∷ (send_bytes ++ issuance_bytes)

packet_runs : Unit {0}
unfolding group_runs hex_of encode AssetId.serialize AssetId.to_string Packet.same_text
    Packet.check_control Packet.serialize Packet.add_key Packet.validate_from Packet.validate
    Packet.create Packet.finish Packet.from_reader Packet.from_bytes
packet_runs = tt

sample_packet_read : Packet.from_bytes hex sample_packet_bytes ≡ ok sample_packet
unfolding packet_runs
sample_packet_read = refl

Packet-from_bytes-IsValid_example :
    PacketLaws.IsValid sample_packet
    × ((Packet.serialize sample_packet >>= Packet.from_bytes hex) ≡ ok sample_packet)
Packet-from_bytes-IsValid_example =
    PacketLaws.Packet-from_bytes-IsValid hex sample_packet_bytes sample_packet (omega arith)
      sample_packet_read

sample_packet-IsValid : PacketLaws.IsValid sample_packet
sample_packet-IsValid =
    (PacketLaws.Packet-from_bytes-IsValid hex sample_packet_bytes sample_packet (omega arith)
      sample_packet_read).0

Packet-round_trip_example :
    (Packet.serialize sample_packet >>= Packet.from_bytes hex) ≡ ok sample_packet
Packet-round_trip_example = PacketLaws.Packet-round_trip hex sample_packet sample_packet-IsValid

Packet-validate_iff_example :
    (Packet.validate hex sample_packet ≡ ok tt) ↔ PacketLaws.IsConsistent sample_packet
Packet-validate_iff_example =
    PacketLaws.Packet-validate_iff hex sample_packet sample_packet-IsValid.each

AssetGroup-round_trip_example :
    (AssetGroup.serialize send_group >>= AssetGroup.from_bytes) ≡ ok send_group
AssetGroup-round_trip_example =
    GroupLaws.AssetGroup-round_trip send_group sample_packet-IsValid.each.0

AssetInputs-validate_iff_example :
    (AssetInputs.validate send_group.inputs ≡ ok tt) ↔ InputsLaws.IsConsistent send_group.inputs
AssetInputs-validate_iff_example = InputsLaws.AssetInputs-validate_iff send_group.inputs

leaf-IsTxid : Leaf.IsTxid hex txid_a
unfolding Bytes.is_zero_bytes encode
leaf-IsTxid = record { bytes = omega arith; size = refl; not_zero = refl; printed = refl }

leaf-cases_example :
    (AssetGroup.to_batch_leaf_asset_group hex txid_a issuance_group
      ≡ ok (Leaf.leaf_of txid_a issuance_group))
    × (((is_some issuance_group.asset_id ≡ true)
          × GroupLaws.IsValid (Leaf.leaf_of txid_a issuance_group))
        ⊎ ((is_some issuance_group.asset_id ≡ false)
            × (AssetGroup.validate (Leaf.leaf_of txid_a issuance_group)
                ≡ err issuance_with_inputs)))
leaf-cases_example =
    Leaf.leaf-cases hex txid_a leaf-IsTxid issuance_group sample_packet-IsValid.each.1.0

id_a-IsValid : IdLaws.IsValid id_a
id_a-IsValid = sample_packet-IsValid.each.0.id

abbrev output_b : AssetOutput
output_b = record { vout = pos 7; amount = pos 300 }

abbrev sample_extension : List ExtensionPacket
sample_extension = asset sample_packet ∷ unknown 3 (0x01 ∷ 0x02 ∷ []) ∷ []

sample_extension-IsValid : EnvelopeLaws.IsValid sample_extension
unfolding PacketLaws.wire GroupLaws.wire Envelope.type_of packet_runs
sample_extension-IsValid = record {
  each = ((sample_packet-IsValid, omega arith), omega arith);
  not_empty = refl;
  distinct = omega arith;
  short = omega arith;
}

Extension-round_trip_example :
    (Envelope.serialize sample_extension >>= Envelope.from_bytes hex decoder) ≡ ok sample_extension
Extension-round_trip_example =
    EnvelopeLaws.Extension-round_trip hex decoder sample_extension sample_extension-IsValid

abbrev small_payload : List ℕ
small_payload = 0x41 ∷ 0x52 ∷ 0x4b ∷ 0x03 ∷ 0x02 ∷ 0x01 ∷ 0x02 ∷ []

small_payload_read :
    Envelope.from_payload hex small_payload ≡ ok (unknown 3 (0x01 ∷ 0x02 ∷ []) ∷ [])
unfolding packet_runs Envelope.from_payload Envelope.has_magic Envelope.equal_bytes
    Envelope.read_packets Envelope.read_packet Envelope.parse_packet Envelope.create
    Envelope.check_types Envelope.type_of
small_payload_read = refl

from_payload-IsSound_example :
    (Envelope.has_magic small_payload ≡ true)
    × (is_empty (unknown 3 (0x01 ∷ 0x02 ∷ []) ∷ []) ≡ false)
    × IsDistinct (map Envelope.type_of (unknown 3 (0x01 ∷ 0x02 ∷ []) ∷ []))
    × All Reading.IsSound (unknown 3 (0x01 ∷ 0x02 ∷ []) ∷ [])
from_payload-IsSound_example =
    Reading.from_payload-IsSound hex small_payload _ (omega arith) small_payload_read

read_packets_fuel_example :
    Envelope.read_packets hex 4 (0x03 ∷ 0x02 ∷ 0x01 ∷ 0x02 ∷ [])
    ≡ Envelope.read_packets hex 9 (0x03 ∷ 0x02 ∷ 0x01 ∷ 0x02 ∷ [])
read_packets_fuel_example =
    Reading.read_packets_fuel hex 4 9 (0x03 ∷ 0x02 ∷ 0x01 ∷ 0x02 ∷ []) (omega arith) (omega arith)

abbrev cursor : Cursor
cursor = record { view = 0xff ∷ 0x82 ∷ 0x01 ∷ 0x05 ∷ []; offset = 1 }

methods-Same_example :
    (Cursor.remaining cursor ≡ length (Refines.unread cursor))
    × Refines.Same cursor.view (Cursor.read_byte cursor) (Bytes.read_byte (Refines.unread cursor))
    × ((size : ℕ)
        → Refines.Same cursor.view
            (Cursor.read_slice size cursor)
            (Bytes.read_slice size (Refines.unread cursor)))
    × Refines.Same cursor.view
        (Cursor.read_uint16_le cursor)
        (Bytes.read_uint16_le (Refines.unread cursor))
    × Refines.Same cursor.view
        (Cursor.read_var_uint cursor)
        (Bytes.read_var_uint (Refines.unread cursor))
    × Refines.Same cursor.view
        (Cursor.read_var_slice cursor)
        (Bytes.read_var_slice (Refines.unread cursor))
methods-Same_example = Refines.methods-Same cursor (omega arith)

abbrev entry : ℕ → Metadata
entry n = record { key = n ∷ []; value = 0x01 ∷ [] }

hash-tree_example :
    (t : Tree.Tree) × (Tree.leaves_of t
      ≡ map (Tree.entry_hash hashing) (entry 1 ∷ entry 2 ∷ entry 3 ∷ []))
    × (Merkle.hash hashing (entry 1 ∷ entry 2 ∷ entry 3 ∷ [])
        ≡ ok (some (Tree.tree_hash hashing t)))
hash-tree_example = Tree.hash-tree hashing (entry 1) (entry 2 ∷ entry 3 ∷ [])
