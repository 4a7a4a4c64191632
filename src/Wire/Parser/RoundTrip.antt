-- ===== src/Wire/Parser/RoundTrip.antt =====
-- The frame parser on what the frames' `Append` wrote, behind any padding.
use uquic.Shared.{
  bind_step, ℕ, zero, suc, ◌+◌, ◌≤◌, ◌<◌, bit_and, ◌≡◌, refl, ap, ◌∙◌, ◌≢◌, Bool, true, false, List,
  ◌∷◌, ◌++◌, arith, ◌==◌, if◌then◌else◌, ok, err, length, replicate, length-append,
  length-replicate,
}
use Prim.Native.Nat.{bit_xor}
use uquic.Varint.RoundTrip.{parse_one}
use uquic.Wire.Codec.{not_allowed_at_enc_level, lift_panic}
use uquic.Wire.AckFrame.{AckFrame, AckRange, parse_ack_frame, ack_delay_exponent, has_ecn}
use uquic.Wire.AckFrame.Encode.{type_byte as ack_type}
use uquic.Wire.AckFrame.Encode.{IsEncodable}
use uquic.Wire.AckFrame.RoundTrip.{received, parse-append_ack_frame}
use uquic.Wire.Frame.{
  Frame, ping, ack, reset_stream, stop_sending, crypto, new_token, stream, max_data,
  max_stream_data, max_streams, data_blocked, stream_data_blocked, streams_blocked,
  new_connection_id, retire_connection_id, path_challenge, path_response, connection_close,
  handshake_done, datagram, uni, bidi, StreamFrame, EncryptionLevel, initial, handshake, zero_rtt,
  one_rtt,
}
use uquic.Wire.Control.{parse_connection_close_frame}
use uquic.Wire.Control.RoundTrip.{
  parse_reset_stream, parse_stop_sending, parse_max_data, parse_max_stream_data, parse_max_streams,
  parse_data_blocked, parse_stream_data_blocked, parse_streams_blocked, parse_retire_connection_id,
  parse_path_challenge, parse_path_response,
}
use uquic.Wire.Control.Composite.{parse_new_connection_id, parse_connection_close}
use uquic.Wire.Payload.{parse_stream_frame, parse_datagram_frame, type_bits, stream_type}
use uquic.Wire.Payload.RoundTrip.{parse_crypto, parse_token, parse_stream, parse_datagram}
use uquic.Wire.Parser.{
  FrameParser, parse_ack, delay_exponent, parse_control, parse_typed, check_level, with_level,
  report, parse_frame, is_allowed_at_enc_level, is_handshake_frame, found, after_type,
  parse_next_loop, parse_next,
}
use uquic.Wire.Parser.Append.{append_frame, IsWritable, type_byte, body, append_frame_lem}

-- A DATAGRAM frame is read only by a parser that supports it.
abbrev pub IsSupported : FrameParser → Frame → Type 0
IsSupported p (datagram f) = p.supports_datagrams ≡ true
IsSupported p _ = Unit {0}

-- Every frame type is one byte, and not that of padding.
abbrev IsType : ℕ → Type 0
IsType t = (0 < t) × (t < 64)

type_bits-IsType : (fin present at_start : Bool) → IsType (type_bits fin present at_start)
type_bits-IsType true true true = omega arith
type_bits-IsType true true false = omega arith
type_bits-IsType true false true = omega arith
type_bits-IsType true false false = omega arith
type_bits-IsType false true true = omega arith
type_bits-IsType false true false = omega arith
type_bits-IsType false false true = omega arith
type_bits-IsType false false false = omega arith

if-IsType : (c : Bool) (s t : ℕ) → IsType s → IsType t → IsType (if c then s else t)
if-IsType true s t h k = h
if-IsType false s t h k = k

type_byte-IsType : (f : Frame) → IsType (type_byte f)
type_byte-IsType (stream f) = type_bits-IsType f.fin f.data_len_present (f.offset == 0)
type_byte-IsType (connection_close f) =
    if-IsType f.is_application_error 0x1d 0x1c (omega arith) (omega arith)
type_byte-IsType (datagram f) = if-IsType f.data_len_present 0x31 0x30 (omega arith) (omega arith)
type_byte-IsType (max_streams bidi n) = omega arith
type_byte-IsType (max_streams uni n) = omega arith
type_byte-IsType (streams_blocked bidi n) = omega arith
type_byte-IsType (streams_blocked uni n) = omega arith
type_byte-IsType f = omega arith

stream_test :
    (fin present at_start : Bool) → (bit_and (type_bits fin present at_start) 0xf8 == 0x8) ≡ true
stream_test true true true = refl
stream_test true true false = refl
stream_test true false true = refl
stream_test true false false = refl
stream_test false true true = refl
stream_test false true false = refl
stream_test false false true = refl
stream_test false false false = refl

module _ (p : FrameParser) (level : EncryptionLevel) where
  typed_stream :
      (f : StreamFrame) (b : List ℕ)
      → parse_typed p b (stream_type f) level ≡ parse_stream_frame b (stream_type f)
  unfolding parse_typed
  typed_stream f b = rw (stream_test f.fin f.data_len_present (f.offset == 0))

  typed_close :
      (app : Bool) (b : List ℕ)
      → let t : ℕ = if app then 0x1d else 0x1c in
        parse_typed p b t level ≡ parse_connection_close_frame b t
  unfolding parse_typed parse_control
  typed_close true b = refl
  typed_close false b = refl

  typed_datagram :
      (c : Bool) (b : List ℕ)
      → p.supports_datagrams ≡ true
      → let t : ℕ = if c then bit_xor 0x30 0x1 else 0x30 in
        parse_typed p b t level ≡ parse_datagram_frame b t
  unfolding parse_typed parse_control
  typed_datagram true b s = rw s
  typed_datagram false b s = rw s

  -- What follows the type byte of a frame is read as that frame.
  parse_typed_lem :
      (f : Frame) (more : List ℕ)
      → IsWritable f more
      → IsSupported p f
      → parse_typed p (body f ++ more) (type_byte f) level ≡ ok (f, length (body f))
  parse_typed_lem ping more h s = unfold parse_typed parse_control in refl
  parse_typed_lem (ack f) more h s = absurd h
  parse_typed_lem (reset_stream i c n) more (hs, hc, hn) s =
      unfold parse_typed parse_control in parse_reset_stream more i c n hs hc hn
  parse_typed_lem (stop_sending i c) more (hs, hc) s =
      unfold parse_typed parse_control in parse_stop_sending more i c hs hc
  parse_typed_lem (crypto f) more (ho, hl) s =
      unfold parse_typed parse_control in parse_crypto f more ho hl
  parse_typed_lem (new_token t) more (h, pos) s =
      unfold parse_typed parse_control in parse_token t more h pos
  parse_typed_lem (stream f) more v s = typed_stream f _ ∙ parse_stream f more v
  parse_typed_lem (max_data n) more h s =
      unfold parse_typed parse_control in parse_max_data more n h
  parse_typed_lem (max_stream_data i n) more (hs, hn) s =
      unfold parse_typed parse_control in parse_max_stream_data more i n hs hn
  parse_typed_lem (max_streams bidi n) more h s =
      unfold parse_typed parse_control in parse_max_streams more bidi n h
  parse_typed_lem (max_streams uni n) more h s =
      unfold parse_typed parse_control in parse_max_streams more uni n h
  parse_typed_lem (data_blocked n) more h s =
      unfold parse_typed parse_control in parse_data_blocked more n h
  parse_typed_lem (stream_data_blocked i n) more (hs, hn) s =
      unfold parse_typed parse_control in parse_stream_data_blocked more i n hs hn
  parse_typed_lem (streams_blocked bidi n) more h s =
      unfold parse_typed parse_control in parse_streams_blocked more bidi n h
  parse_typed_lem (streams_blocked uni n) more h s =
      unfold parse_typed parse_control in parse_streams_blocked more uni n h
  parse_typed_lem (new_connection_id f) more v s =
      unfold parse_typed parse_control in parse_new_connection_id f v more
  parse_typed_lem (retire_connection_id n) more h s =
      unfold parse_typed parse_control in parse_retire_connection_id more n h
  parse_typed_lem (path_challenge d) more h s =
      unfold parse_typed parse_control in parse_path_challenge more d h
  parse_typed_lem (path_response d) more h s =
      unfold parse_typed parse_control in parse_path_response more d h
  parse_typed_lem (connection_close f) more v s =
      typed_close f.is_application_error _ ∙ parse_connection_close f v more
  parse_typed_lem handshake_done more h s = unfold parse_typed parse_control in refl
  parse_typed_lem (datagram f) more (h, last) s =
      typed_datagram f.data_len_present _ s ∙ parse_datagram f h more last

  -- Padding is skipped, and the byte behind it is the frame type.
  skip_padding :
      (k fuel typ : ℕ) (b : List ℕ) (parsed : ℕ)
      → k < fuel
      → 0 < typ
      → typ < 64
      → parse_next_loop fuel p (replicate k 0 ++ (typ ∷ b)) parsed level
        ≡ after_type p b typ (parsed + k + 1) level
  unfolding parse_next_loop
  skip_padding k zero typ b parsed h lo hi = absurd (omega arith)
  skip_padding zero (suc fuel) typ b parsed h lo hi =
      let not_zero : (typ == 0) ≡ false = ground arith in
      rw (parse_one typ b hi, not_zero, parse_next_loop)
        (ap (λ n. after_type p b typ n level) (omega arith))
  skip_padding (suc k) (suc fuel) typ b parsed h lo hi =
      rw (parse_one 0 (replicate k 0 ++ (typ ∷ b)) (omega arith), parse_next_loop)
        (skip_padding k fuel typ b (parsed + 1) (omega arith) lo hi
          ∙ ap (λ n. after_type p b typ n level) (omega arith))

  after_type_lem :
      (b : List ℕ) (typ parsed : ℕ) (f : Frame) (l : ℕ)
      → parse_typed p b typ level ≡ ok (f, l)
      → is_allowed_at_enc_level f level ≡ true
      → after_type p b typ parsed level ≡ found f (parsed + l)
  unfolding after_type report parse_frame with_level check_level
  after_type_lem b typ parsed f l e a =
      ap (λ r. report typ parsed (with_level level r)) e
      ∙ ap (λ c. report typ parsed (if c then ok (f, l) else err (not_allowed_at_enc_level, l))) a

  parse_next_padded :
      (k typ : ℕ) (b : List ℕ) (f : Frame) (l : ℕ)
      → 0 < typ
      → typ < 64
      → parse_typed p b typ level ≡ ok (f, l)
      → is_allowed_at_enc_level f level ≡ true
      → parse_next p (replicate k 0 ++ (typ ∷ b)) level ≡ found f (k + 1 + l)
  unfolding parse_next
  parse_next_padded k typ b f l lo hi e a =
      skip_padding k (length (replicate k 0 ++ (typ ∷ b))) typ b 0
        (omega (arith, length-append (replicate k 0) (typ ∷ b), length-replicate {A = ℕ} k 0)) lo hi
      ∙ ap (λ n. after_type p b typ n level) (omega arith)
      ∙ after_type_lem b typ (k + 1) f l e a

-- Whatever frame that can be written (but an ACK frame) `Append` writes, `ParseNext` reads it back
-- behind `k` bytes of padding and in front of any `more`, and takes the padding and the frame: if
-- the encryption level allows the frame, and for a DATAGRAM frame if the parser supports it.
pub parse_next-append_frame :
    (p : FrameParser) (level : EncryptionLevel) (b : List ℕ) (f : Frame) (k : ℕ) (more : List ℕ)
    → IsWritable f more
    → IsSupported p f
    → is_allowed_at_enc_level f level ≡ true
    → (e : List ℕ) × (append_frame b f ≡ ok (b ++ e))
      × (parse_next p (replicate k 0 ++ (e ++ more)) level ≡ found f (k + length e))
parse_next-append_frame p level b f k more w s a =
    let (lo, hi) = type_byte-IsType f in
    (
      type_byte f ∷ body f,
      append_frame_lem b f more w,
      parse_next_padded p level k (type_byte f) (body f ++ more) f (length (body f)) lo hi
            (parse_typed_lem p level f more w s) a
          ∙ ap (found f) (omega arith),
    )

parse_ack_lem :
    (b : List ℕ) (typ x : ℕ) (f : AckFrame) (l : ℕ)
    → parse_ack_frame b typ x ≡ ok (f, l)
    → parse_ack b typ x ≡ ok (ack f, l)
unfolding parse_ack
parse_ack_lem b typ x f l e = bind_step (parse_ack_frame b typ x) (f, l) _ e

module _ (p : FrameParser) (level : EncryptionLevel) where
  typed_ack :
      (ecn : Bool) (b : List ℕ)
      → let t : ℕ = if ecn then 0x3 else 0x2 in
        parse_typed p b t level ≡ parse_ack b t (delay_exponent p level)
  unfolding parse_typed parse_control
  typed_ack true b = refl
  typed_ack false b = refl

  ack_allowed : (f : AckFrame) → level ≢ zero_rtt → is_allowed_at_enc_level (ack f) level ≡ true
  ack_allowed f h = allowed level h
    where
      allowed : (l : EncryptionLevel) → l ≢ zero_rtt → is_allowed_at_enc_level (ack f) l ≡ true
      allowed initial h = unfold is_allowed_at_enc_level is_handshake_frame in refl
      allowed handshake h = unfold is_allowed_at_enc_level is_handshake_frame in refl
      allowed zero_rtt h = absurd (h refl)
      allowed one_rtt h = unfold is_allowed_at_enc_level in refl

-- An ACK frame that `Append` writes comes back from `ParseNext` at every level but 0-RTT, if the
-- parser uses this implementation's exponent for the delay: with at least its first range, the
-- delay rounded down to a multiple of 8 microseconds, and the ECN counts.
parse_next-append_ack :
    (p : FrameParser) (level : EncryptionLevel) (b : List ℕ) (f : AckFrame) (r : AckRange)
    (rest : List AckRange) (k : ℕ) (more : List ℕ)
    → IsEncodable f r rest
    → level ≢ zero_rtt
    → delay_exponent p level ≡ ack_delay_exponent
    → (e : List ℕ) × (n : ℕ) × (1 ≤ n)
      × (append_frame b (ack f) ≡ ok (b ++ e))
      × (parse_next p (replicate k 0 ++ (e ++ more)) level
          ≡ found (ack (received f n)) (k + length e))
unfolding append_frame lift_panic
parse_next-append_ack p level b f r rest k more v h x =
    let (n, e, q, lo, wrote, back) = parse-append_ack_frame b f r rest more v in
    let (tlo, thi) = if-IsType (has_ecn f) 0x3 0x2 (omega arith) (omega arith) in
    (
      ack_type f ∷ e,
      n,
      lo,
      ap lift_panic wrote,
      parse_next_padded p level k (ack_type f) (e ++ more) (ack (received f n)) (length e) tlo thi
            (typed_ack p level (has_ecn f) (e ++ more)
              ∙ parse_ack_lem (e ++ more) (ack_type f) (delay_exponent p level) (received f n)
                  (length e) (ap (parse_ack_frame (e ++ more) (ack_type f)) x ∙ back))
            (ack_allowed p level (received f n) h)
          ∙ ap (found (ack (received f n))) (omega arith),
    )
