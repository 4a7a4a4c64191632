-- ===== src/Protocol/Runs.antt =====
-- Concrete runs of packet numbers and stream IDs, and a theorem at a concrete input.
use uquic.Shared.{◌≡◌, refl, ◌↔◌, some, ◌+◌, ◌^◌, arith}
use uquic.Wire.Frame.{bidi, uni}
use uquic.Protocol.PacketNumber.{decode_packet_number, packet_number_length_for_header, num_unacked}
use uquic.Protocol.StreamId.{
  stream_id, stream_num, stream_type_of, initiated_by, server, client, is_negative, stream_id_iff,
}

-- The example of RFC 9000, appendix A.3.
decode_rfc : decode_packet_number 2 (some 0xa82f30ea) 0x9b32 ≡ 0xa82f9b32
unfolding decode_packet_number
decode_rfc = refl

length_rfc : packet_number_length_for_header 0xac5c02 (some 0xabe8b3) ≡ 2
unfolding packet_number_length_for_header num_unacked
length_rfc = refl

third_stream : stream_id 3 bidi server ≡ 9
unfolding stream_id
third_stream = refl

no_stream : stream_type_of (stream_id 0 uni client) ≡ bidi
unfolding stream_id stream_type_of is_negative
no_stream = refl

id_turns_negative : stream_id (2 ^ 61 + 1) bidi client ≡ 2 ^ 63
unfolding stream_id
id_turns_negative = refl

id_comes_again : stream_id (2 ^ 62 + 1) bidi client ≡ stream_id 1 bidi client
unfolding stream_id
id_comes_again = refl

stream_id_iff_example :
    (stream_id 3 bidi server ≡ 9)
    ↔ ((stream_num 9 ≡ 3) × (stream_type_of 9 ≡ bidi) × (initiated_by 9 ≡ server))
stream_id_iff_example = stream_id_iff 3 bidi server 9 (omega arith) (omega arith)
