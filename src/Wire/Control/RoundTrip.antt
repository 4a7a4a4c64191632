-- ===== src/Wire/Control/RoundTrip.antt =====
-- The control frames: parsing after writing.
use uquic.Shared.{
  guard_step, bind_step, ℕ, ◌-◌, ◌≤◌, ◌≡◌, sym, ap, ◌∙◌, false, List, ◌++◌, arith, ltb, leb, ◌==◌,
  if◌then◌else◌, Result, ok, ◌>>=◌, le→leb, length, take, drop, length-append, take_append,
  drop_append,
}
use uquic.Varint.Encode.{encoding}
use uquic.Wire.Codec.{Error, IsVarint, next, next_at, next_step, consumed}
use uquic.Wire.Frame.{
  Frame, reset_stream, stop_sending, max_data, max_stream_data, max_streams, data_blocked,
  stream_data_blocked, streams_blocked, retire_connection_id, path_challenge, path_response,
  StreamType, uni, bidi, max_stream_count,
}
use uquic.Wire.Control.{
  next_bytes, parse_reset_stream_frame, parse_stop_sending_frame, parse_max_data_frame,
  parse_max_stream_data_frame, parse_max_streams_frame, parse_data_blocked_frame,
  parse_stream_data_blocked_frame, parse_streams_blocked_frame, parse_retire_connection_id_frame,
  parse_path_challenge_frame, parse_path_response_frame,
}
use mathlib.Core.List.{append_assoc}
use mathlib.Core.Path.{ap₂}

-- The frame, and the bytes taken off `b0` to leave `b`.
abbrev taken : List ℕ → Frame → List ℕ → Result Error (Frame × ℕ)
taken b0 f b = ok (f, length b0 - length b)

-- The frame type of a frame about one of the two types of streams.
abbrev pub tag : ℕ → ℕ → StreamType → ℕ
tag for_bidi for_uni bidi = for_bidi
tag for_bidi for_uni uni = for_uni

-- A frame of one, two or three varints.
module _ (more : List ℕ) where
  read_one :
      (frame : ℕ → Frame) (u : ℕ)
      → IsVarint u
      → (next (encoding u ++ more) >>= λ p. taken (encoding u ++ more) (frame p.0) p.1)
        ≡ ok (frame u, length (encoding u))
  read_one frame u hu =
      next_step u more _ hu ∙ ap (λ n. ok (frame u, n)) (consumed (encoding u) more)

  read_two :
      (frame : ℕ → ℕ → Frame) (u v : ℕ)
      → IsVarint u
      → IsVarint v
      → let e = encoding u ++ encoding v in
        (next (e ++ more) >>= λ p. next p.1 >>= λ q. taken (e ++ more) (frame p.0 q.0) q.1)
        ≡ ok (frame u v, length e)
  read_two frame u v hu hv =
      next_at u (encoding v ++ more) _ hu (append_assoc (encoding u) (encoding v) more)
      ∙ next_step v more _ hv
      ∙ ap (λ n. ok (frame u v, n)) (consumed (encoding u ++ encoding v) more)

  read_three :
      (frame : ℕ → ℕ → ℕ → Frame) (u v w : ℕ)
      → IsVarint u
      → IsVarint v
      → IsVarint w
      → let e = encoding u ++ (encoding v ++ encoding w) in
        (next (e ++ more) >>= λ p.
        next p.1 >>= λ q. next q.1 >>= λ r. taken (e ++ more) (frame p.0 q.0 r.0) r.1)
        ≡ ok (frame u v w, length e)
  read_three frame u v w hu hv hw =
      next_at u ((encoding v ++ encoding w) ++ more) _ hu
        (append_assoc (encoding u) (encoding v ++ encoding w) more)
      ∙ next_at v (encoding w ++ more) _ hv (append_assoc (encoding v) (encoding w) more)
      ∙ next_step w more _ hw
      ∙ ap (λ n. ok (frame u v w, n)) (consumed (encoding u ++ (encoding v ++ encoding w)) more)

  pub parse_reset_stream :
      (s c f : ℕ)
      → IsVarint s
      → IsVarint c
      → IsVarint f
      → let e = encoding s ++ (encoding c ++ encoding f) in
        parse_reset_stream_frame (e ++ more) ≡ ok (reset_stream s c f, length e)
  unfolding parse_reset_stream_frame
  parse_reset_stream s c f = read_three reset_stream s c f

  pub parse_stop_sending :
      (s c : ℕ)
      → IsVarint s
      → IsVarint c
      → let e = encoding s ++ encoding c in
        parse_stop_sending_frame (e ++ more) ≡ ok (stop_sending s c, length e)
  unfolding parse_stop_sending_frame
  parse_stop_sending s c = read_two stop_sending s c

  pub parse_max_stream_data :
      (s c : ℕ)
      → IsVarint s
      → IsVarint c
      → let e = encoding s ++ encoding c in
        parse_max_stream_data_frame (e ++ more) ≡ ok (max_stream_data s c, length e)
  unfolding parse_max_stream_data_frame
  parse_max_stream_data s c = read_two max_stream_data s c

  pub parse_stream_data_blocked :
      (s c : ℕ)
      → IsVarint s
      → IsVarint c
      → let e = encoding s ++ encoding c in
        parse_stream_data_blocked_frame (e ++ more) ≡ ok (stream_data_blocked s c, length e)
  unfolding parse_stream_data_blocked_frame
  parse_stream_data_blocked s c = read_two stream_data_blocked s c

  pub parse_max_data :
      (u : ℕ)
      → IsVarint u
      → parse_max_data_frame (encoding u ++ more) ≡ ok (max_data u, length (encoding u))
  unfolding parse_max_data_frame
  parse_max_data u = read_one max_data u

  pub parse_data_blocked :
      (u : ℕ)
      → IsVarint u
      → parse_data_blocked_frame (encoding u ++ more) ≡ ok (data_blocked u, length (encoding u))
  unfolding parse_data_blocked_frame
  parse_data_blocked u = read_one data_blocked u

  pub parse_retire_connection_id :
      (u : ℕ)
      → IsVarint u
      → parse_retire_connection_id_frame (encoding u ++ more)
        ≡ ok (retire_connection_id u, length (encoding u))
  unfolding parse_retire_connection_id_frame
  parse_retire_connection_id u = read_one retire_connection_id u

  pub parse_max_streams :
      (t : StreamType) (u : ℕ)
      → u ≤ max_stream_count
      → parse_max_streams_frame (encoding u ++ more) (tag 0x12 0x13 t)
        ≡ ok (max_streams t u, length (encoding u))
  unfolding parse_max_streams_frame
  parse_max_streams t u h =
      next_step u more _ (omega arith)
      ∙ guard_step (leb u max_stream_count) _ _ (le→leb u max_stream_count h)
      ∙ limited t
    where
      limited :
          (t : StreamType)
          → taken
              (encoding u ++ more)
              (max_streams (if tag 0x12 0x13 t == 0x12 then bidi else uni) u)
              more
            ≡ ok (max_streams t u, length (encoding u))
      limited bidi = ap (λ n. ok (max_streams bidi u, n)) (consumed (encoding u) more)
      limited uni = ap (λ n. ok (max_streams uni u, n)) (consumed (encoding u) more)

  pub parse_streams_blocked :
      (t : StreamType) (u : ℕ)
      → u ≤ max_stream_count
      → parse_streams_blocked_frame (encoding u ++ more) (tag 0x16 0x17 t)
        ≡ ok (streams_blocked t u, length (encoding u))
  unfolding parse_streams_blocked_frame
  parse_streams_blocked t u h =
      next_step u more _ (omega arith)
      ∙ guard_step (leb u max_stream_count) _ _ (le→leb u max_stream_count h)
      ∙ limited t
    where
      limited :
          (t : StreamType)
          → taken
              (encoding u ++ more)
              (streams_blocked (if tag 0x16 0x17 t == 0x16 then bidi else uni) u)
              more
            ≡ ok (streams_blocked t u, length (encoding u))
      limited bidi = ap (λ n. ok (streams_blocked bidi u, n)) (consumed (encoding u) more)
      limited uni = ap (λ n. ok (streams_blocked uni u, n)) (consumed (encoding u) more)

-- Bytes that are announced by their count.
pub next_bytes_lem :
    (n : ℕ) (d more : List ℕ) → length d ≡ n → next_bytes n (d ++ more) ≡ ok (d, more)
unfolding next_bytes
next_bytes_lem n d more h =
    let f : ltb (length (d ++ more)) n ≡ false = ground (arith, length-append d more) in
    rw f (
      ap₂ (λ x y. ok (x, y)) (ap (λ k. take k (d ++ more)) (sym h) ∙ take_append d more)
        (ap (λ k. drop k (d ++ more)) (sym h) ∙ drop_append d more))

module _ (more : List ℕ) where
  pub parse_path_challenge :
      (d : List ℕ)
      → length d ≡ 8
      → parse_path_challenge_frame (d ++ more) ≡ ok (path_challenge d, length d)
  unfolding parse_path_challenge_frame
  parse_path_challenge d h =
      bind_step _ _ _ (next_bytes_lem 8 d more h) ∙ ap (λ n. ok (path_challenge d, n)) (sym h)

  pub parse_path_response :
      (d : List ℕ)
      → length d ≡ 8
      → parse_path_response_frame (d ++ more) ≡ ok (path_response d, length d)
  unfolding parse_path_response_frame
  parse_path_response d h =
      bind_step _ _ _ (next_bytes_lem 8 d more h) ∙ ap (λ n. ok (path_response d, n)) (sym h)
