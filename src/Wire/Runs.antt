-- ===== src/Wire/Runs.antt =====
-- Concrete runs of the frame code, and its theorems at concrete inputs.
use uquic.Protocol.PacketNumber.{decode_packet_number, packet_number_length_for_header}
use uquic.Wire.ShortHeader.{
  ShortHeader, zero_phase, append_short_header, parse_short_header, decode-parse_short_header,
}
use uquic.Shared.{
  some, ℕ, ◌+◌, ◌*◌, ◌^◌, ◌≤◌, ◌≡◌, refl, ◌≢◌, ◌↔◌, true, false, List, [], ◌∷◌, ◌++◌, arith, ◌==◌,
  if◌then◌else◌, ok, err, panic, length,
}
use uquic.Varint.{parse, append, len}
use uquic.Wire.Codec.{next, advance}
use uquic.Wire.AckFrame.{
  AckFrame, decode_delay, encode_ack_delay, parse_ranges, all_ordered, all_apart,
  validate_ack_ranges, parse_ecn, parse_ack_frame, encode_ack_range, num_encodable_loop,
  num_encodable_of, num_encodable_ack_ranges, append_ranges, has_ecn, append_ecn, append_of,
  append_ack_frame, ack_delay_exponent,
}
use uquic.Wire.AckFrame.Ranges.{IsGapped, validate_ack_ranges_iff, parse_ack_frame-IsGapped}
use uquic.Wire.AckFrame.Encode.{IsEncodable, type_byte as ack_type}
use uquic.Wire.AckFrame.RoundTrip.{received, parse-append_ack_frame}
use uquic.Wire.AckFrame.Query.{covers, acks_packet, acks_packet-covers}
use uquic.Wire.AckFrame.Delay.{decode_delay_wraps}
use uquic.Wire.Frame.{stream, StreamFrame, one_rtt, initial}
use uquic.Wire.Payload.RoundTrip.{IsStream}
use uquic.Wire.Parser.{
  FrameParser, new_frame_parser, set_ack_delay_exponent, is_allowed_at_enc_level, found, stuck,
  parse_next,
}
use uquic.Wire.Parser.Append.{append_frame}
use uquic.Wire.Parser.RoundTrip.{parse_next-append_frame}
use uquic.Wire.Parser.Total.{parse_next-ne-stuck}

-- Packets 5 and 8 to 9, after 20 microseconds.
abbrev an_ack : AckFrame
an_ack = record {
  ack_ranges = record { smallest = 8; largest = 9 } ∷ record { smallest = 5; largest = 5 } ∷ [];
  delay_time = 20_000;
  ect0 = 0;
  ect1 = 1;
  ecnce = 0;
}

abbrev ack_bytes : List ℕ
ack_bytes = 9 ∷ 2 ∷ 1 ∷ 1 ∷ 1 ∷ 0 ∷ 0 ∷ 1 ∷ 0 ∷ []

append_an_ack : append_ack_frame [] an_ack ≡ ok (3 ∷ ack_bytes)
unfolding append_ack_frame append_of append num_encodable_ack_ranges num_encodable_of
    num_encodable_loop encode_ack_range append_ranges has_ecn append_ecn encode_ack_delay len
append_an_ack = refl

parse_an_ack : parse_ack_frame ack_bytes 3 3 ≡ ok (record an_ack { delay_time = 16_000 }, 9)
unfolding parse_ack_frame next advance parse parse_ranges validate_ack_ranges all_ordered all_apart
    parse_ecn decode_delay
parse_an_ack = refl

an_ack-IsEncodable :
    IsEncodable an_ack
      (record { smallest = 8; largest = 9 })
      (record { smallest = 5; largest = 5 } ∷ [])
an_ack-IsEncodable = record {
  ranges = refl;
  ordered = omega arith;
  under = omega arith;
  gapped = omega arith;
  fits = omega arith;
  delay = omega arith;
  ect0_fits = omega arith;
  ect1_fits = omega arith;
  ecnce_fits = omega arith;
  count = omega arith;
}

parse-append_ack_frame_example :
    (n : ℕ) × (e : List ℕ) × (num_encodable_ack_ranges an_ack ≡ ok n)
    × (1 ≤ n)
    × (append_ack_frame [] an_ack ≡ ok (ack_type an_ack ∷ e))
    × (parse_ack_frame (e ++ (7 ∷ [])) (ack_type an_ack) ack_delay_exponent
        ≡ ok (received an_ack n, length e))
parse-append_ack_frame_example =
    parse-append_ack_frame [] an_ack (record { smallest = 8; largest = 9 })
      (record { smallest = 5; largest = 5 } ∷ []) (7 ∷ []) an_ack-IsEncodable

validate_ack_ranges_iff_example :
    (validate_ack_ranges an_ack.ack_ranges ≡ true)
    ↔ ((an_ack.ack_ranges ≢ []) × IsGapped an_ack.ack_ranges)
validate_ack_ranges_iff_example = validate_ack_ranges_iff an_ack.ack_ranges

parse_ack_frame-IsGapped_example : (an_ack.ack_ranges ≢ []) × IsGapped an_ack.ack_ranges
parse_ack_frame-IsGapped_example =
    parse_ack_frame-IsGapped ack_bytes 3 3 (record an_ack { delay_time = 16_000 }) 9 parse_an_ack

acks_packet-covers_example :
    acks_packet an_ack 8
    ≡ (if length an_ack.ack_ranges == 0 then err panic else ok (covers an_ack.ack_ranges 8))
acks_packet-covers_example = acks_packet-covers an_ack 8 (omega arith)

decode_delay_wraps_example : decode_delay 3 (2 ^ 61 + 5) ≡ 5 * 8000
decode_delay_wraps_example = decode_delay_wraps 5 (omega arith)

abbrev a_parser : FrameParser
a_parser = set_ack_delay_exponent (new_frame_parser false) 3

abbrev a_stream_frame : StreamFrame
a_stream_frame = record {
  stream_id = 4;
  offset = 100;
  payload = 1 ∷ 2 ∷ 3 ∷ [];
  fin = true;
  data_len_present = true;
}

a_stream_frame-IsStream : IsStream a_stream_frame (9 ∷ [])
a_stream_frame-IsStream = record {
  id = omega arith;
  within = omega arith;
  fits = omega arith;
  not_empty = λ e. refl;
  last = λ e. cc;
}

parse_next-append_frame_example :
    (e : List ℕ) × (append_frame [] (stream a_stream_frame) ≡ ok e)
    × (parse_next a_parser (0 ∷ 0 ∷ (e ++ (9 ∷ []))) one_rtt
        ≡ found (stream a_stream_frame) (2 + length e))
parse_next-append_frame_example =
    parse_next-append_frame a_parser one_rtt [] (stream a_stream_frame) 2 (9 ∷ [])
      a_stream_frame-IsStream tt (unfold is_allowed_at_enc_level in refl)

parse_next-ne-stuck_example : parse_next a_parser (0 ∷ 0 ∷ 6 ∷ 0 ∷ []) initial ≢ stuck
parse_next-ne-stuck_example =
    parse_next-ne-stuck a_parser (0 ∷ 0 ∷ 6 ∷ 0 ∷ []) initial (omega arith)

abbrev a_conn_id : List ℕ
a_conn_id = 1 ∷ 2 ∷ 3 ∷ []

decode-parse_short_header_example :
    (e : List ℕ) × (h : ShortHeader) × (append_short_header [] a_conn_id 70000
        (packet_number_length_for_header 70000 (some 20000))
        zero_phase
      ≡ ok e)
    × (parse_short_header (e ++ (9 ∷ [])) 3 ≡ ok h)
    × (decode_packet_number h.packet_number_len (some 69000) h.packet_number ≡ 70000)
decode-parse_short_header_example =
    decode-parse_short_header [] a_conn_id 70000 (some 20000) (some 69000) zero_phase (9 ∷ [])
      (λ e. cc) (omega arith) (omega arith) (omega arith) (omega arith) (omega arith)
