-- ===== src/Dgmessage/Tests.antt =====
-- A TCP packet, and a packet that is cut short.
use liberator_node_go.Prelude.{
  ℕ, ◌+◌, ◌*◌, ◌^◌, ◌≤◌, ◌≡◌, ◌≢◌, [], ◌∷◌, arith, Bytes, codes, length, nat_eq, bytes_eq,
}
use liberator_node_go.Prelude.{◌<◌, ◌⊎◌}
use liberator_node_go.Dgmessage.{Message, ok, panic, new_message_copy_from}
use liberator_node_go.Dgmessage.Bounds.{IsBytes, new_message_copy_from-bounds}
use liberator_node_go.Dgmessage.Parse.{
  tcp, packet, least, packet-parses, new_message_copy_from-ne-panic,
}

abbrev payload : Bytes
payload = 0 ∷ 0 ∷ 0 ∷ 1 ∷ 0 ∷ 0 ∷ 0 ∷ 0 ∷ 80 ∷ 2 ∷ 0 ∷ 0 ∷ 0 ∷ 0 ∷ 0 ∷ 0 ∷ []

abbrev source : ℕ
source = 10 * 2 ^ 24 + 2

abbrev target : ℕ
target = 10 * 2 ^ 24 + 1

abbrev segment : Bytes
segment = packet 0 40 7 0 64 0 source target 5555 80 2048 payload tcp

long_enough : least tcp ≤ 4 + length payload
long_enough = omega arith

short_enough : 24 + length payload ≤ 2048
short_enough = omega arith

packet-parses_example :
    new_message_copy_from 2048 segment
    ≡ ok (record {
      payload = segment;
      ip_version = 4;
      hole_info = record {
        src_ip = source;
        dst_ip = target;
        src_port = 5555;
        dst_port = 80;
        protocol = codes "tcp";
      };
    })
packet-parses_example =
    packet-parses 0 40 7 0 64 0 source target 5555 80 2048 payload tcp long_enough short_enough

-- A header that claims fifteen words, of which only some are there.
abbrev cut_short : Bytes
cut_short = 0x4f ∷ 0 ∷ 0 ∷ 40 ∷ 0 ∷ 7 ∷ 0 ∷ 0 ∷ 64 ∷ 6 ∷ payload

new_message_copy_from-ne-panic_example : new_message_copy_from 2048 cut_short ≢ panic
new_message_copy_from-ne-panic_example = new_message_copy_from-ne-panic 2048 cut_short

abbrev message : Message
message = record {
  payload = segment;
  ip_version = 4;
  hole_info = record {
    src_ip = source;
    dst_ip = target;
    src_port = 5555;
    dst_port = 80;
    protocol = codes "tcp";
  };
}

segment-IsBytes : IsBytes segment
segment-IsBytes = ground arith

new_message_copy_from-bounds_example :
    (message.payload ≡ segment)
    × (20 ≤ length message.payload)
    × (length message.payload ≤ 2048)
    × (message.hole_info.src_ip < 2 ^ 32)
    × (message.hole_info.dst_ip < 2 ^ 32)
    × (message.hole_info.src_port < 2 ^ 16)
    × (message.hole_info.dst_port < 2 ^ 16)
    × ((message.hole_info.protocol ≡ codes "tcp")
        ⊎ (message.hole_info.protocol ≡ codes "udp")
        ⊎ (message.hole_info.protocol ≡ codes "icmp"))
new_message_copy_from-bounds_example =
    new_message_copy_from-bounds 2048 segment message segment-IsBytes
      (packet-parses 0 40 7 0 64 0 source target 5555 80 2048 payload tcp long_enough short_enough)
