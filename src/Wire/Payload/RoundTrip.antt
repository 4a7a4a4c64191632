-- ===== src/Wire/Payload/RoundTrip.antt =====
-- The frames that carry bytes: parsing after writing. A frame without a length field ends
-- its packet, so nothing follows it.
use uquic.Shared.{
  guard_step, bind_step, ℕ, ◌+◌, ◌≤◌, bit_and, ◌≡◌, refl, sym, ap, ◌∙◌, inl, inr, Bool, true, false,
  not, ◌&&◌, List, [], ◌∷◌, ◌++◌, arith, ltb, leb, ◌==◌, if◌then◌else◌, Bool-cases, ok, lt→ltb,
  le→leb, ==_iff, length,
}
use Prim.Native.Nat.{bit_xor}
use uquic.Varint.Encode.{encoding}
use uquic.Wire.Codec.{
  IsVarint, next_at, next_step, put_step, put-encoding, next-encoding, consumed, put_one,
}
use uquic.Wire.Frame.{
  crypto, new_token, stream, datagram, StreamFrame, CryptoFrame, DatagramFrame,
  max_packet_buffer_size, max_byte_count,
}
use uquic.Wire.Control.RoundTrip.{next_bytes_lem}
use uquic.Wire.Payload.{
  parse_crypto_frame, append_crypto_frame, parse_new_token_frame, append_new_token_frame, next_if,
  next_payload, fits_buffer, parse_stream_frame, type_bits, stream_type, put_if,
  append_stream_frame, parse_datagram_frame, datagram_type, append_datagram_frame,
}
use mathlib.Core.Bool.{false≢true}
use mathlib.Core.List.{append_assoc, append-nil}

-- A payload behind its length.
abbrev pub counted : List ℕ → List ℕ
counted d = encoding (length d) ++ d

pub append_crypto :
    (b : List ℕ) (f : CryptoFrame)
    → IsVarint f.offset
    → IsVarint (length f.payload)
    → append_crypto_frame b f ≡ ok (b ++ (0x6 ∷ (encoding f.offset ++ counted f.payload)))
unfolding append_crypto_frame
append_crypto b f ho hl =
    bind_step _ _ _ (put_one b 0x6 f.offset ho)
    ∙ put_step (b ++ (0x6 ∷ encoding f.offset)) (length f.payload) _ hl
    ∙ ap ok (simp append_assoc)

pub parse_crypto :
    (f : CryptoFrame) (more : List ℕ)
    → IsVarint f.offset
    → IsVarint (length f.payload)
    → let e = encoding f.offset ++ counted f.payload in
      parse_crypto_frame (e ++ more) ≡ ok (crypto f, length e)
unfolding parse_crypto_frame
parse_crypto f more ho hl =
    let d = f.payload in
    next_at f.offset (encoding (length d) ++ (d ++ more)) _ ho (simp append_assoc)
    ∙ next_step (length d) (d ++ more) _ hl
    ∙ bind_step _ _ _ (next_bytes_lem (length d) d more refl)
    ∙ ap (λ n. ok (crypto f, n)) (consumed (encoding f.offset ++ counted d) more)

pub append_new_token :
    (b t : List ℕ) → IsVarint (length t) → append_new_token_frame b t ≡ ok (b ++ (0x7 ∷ counted t))
unfolding append_new_token_frame
append_new_token b t h =
    bind_step _ _ _ (put_one b 0x7 (length t) h)
    ∙ ap ok (append_assoc b (0x7 ∷ encoding (length t)) t)

pub parse_token :
    (t more : List ℕ)
    → IsVarint (length t)
    → 1 ≤ length t
    → parse_new_token_frame (counted t ++ more) ≡ ok (new_token t, length (counted t))
unfolding parse_new_token_frame
parse_token t more h pos =
    next_at (length t) (t ++ more) _ h (append_assoc (encoding (length t)) t more)
    ∙ guard_step (ltb 0 (length t)) _ _ (lt→ltb 0 (length t) pos)
    ∙ bind_step _ _ _ (next_bytes_lem (length t) t more refl)
    ∙ ap (λ n. ok (new_token t, n)) (consumed (counted t) more)

-- The payload with its length, if the flag is set.
abbrev pub counted_if : Bool → List ℕ → List ℕ
counted_if true d = counted d
counted_if false d = d

abbrev varint_if : Bool → ℕ → List ℕ
varint_if true v = encoding v
varint_if false v = []

put_if_lem : (c : Bool) (b : List ℕ) (v : ℕ) → IsVarint v → put_if c b v ≡ ok (b ++ varint_if c v)
unfolding put_if
put_if_lem true b v h = put-encoding b v h
put_if_lem false b v h = ap ok (sym (append-nil b))

varint_if-counted_if : (c : Bool) (d : List ℕ) → varint_if c (length d) ++ d ≡ counted_if c d
varint_if-counted_if true d = refl
varint_if-counted_if false d = refl

next_if_lem :
    (c : Bool) (v : ℕ) (more : List ℕ)
    → IsVarint v
    → (c ≡ false → v ≡ 0)
    → next_if c (varint_if c v ++ more) ≡ ok (v, more)
unfolding next_if
next_if_lem true v more h z = next-encoding v more h
next_if_lem false v more h z = ap (λ n. ok (n, more)) (sym (z refl))

next_payload_lem :
    (c : Bool) (d more : List ℕ)
    → IsVarint (length d)
    → (c ≡ false → more ≡ [])
    → next_payload c (counted_if c d ++ more) ≡ ok (d, more)
unfolding next_payload
next_payload_lem true d more h z =
    next_at (length d) (d ++ more) _ h (append_assoc (encoding (length d)) d more)
    ∙ next_bytes_lem (length d) d more refl
next_payload_lem false d more h z =
    ap (λ m. ok (d ++ m, [])) (z refl)
    ∙ ap (λ e. ok (e, [])) (append-nil d)
    ∙ ap (λ m. ok (d, m)) (sym (z refl))

-- The flags come back out of the frame type.
abbrev Flags : Bool → Bool → Bool → Type 0
Flags fin present at_start =
    let t = type_bits fin present at_start in
    (ltb 0 (bit_and t 0x4) ≡ not at_start)
    × (ltb 0 (bit_and t 0x1) ≡ fin)
    × (ltb 0 (bit_and t 0x2) ≡ present)

type-Flags : (fin present at_start : Bool) → Flags fin present at_start
type-Flags true true true = (refl, refl, refl)
type-Flags true true false = (refl, refl, refl)
type-Flags true false true = (refl, refl, refl)
type-Flags true false false = (refl, refl, refl)
type-Flags false true true = (refl, refl, refl)
type-Flags false true false = (refl, refl, refl)
type-Flags false false true = (refl, refl, refl)
type-Flags false false false = (refl, refl, refl)

-- A STREAM frame that can be written and read, with what follows it in the packet.
pub record IsStream (f : StreamFrame) (more : List ℕ) : Type 0 where
  pub id : IsVarint f.stream_id
  pub within : f.offset + length f.payload ≤ max_byte_count
  pub fits : length f.payload ≤ max_packet_buffer_size
  pub not_empty : length f.payload ≡ 0 → f.fin ≡ true
  pub last : f.data_len_present ≡ false → more ≡ []

allowed : (n : ℕ) (fin : Bool) → (n ≡ 0 → fin ≡ true) → not (n == 0 && not fin) ≡ true
allowed n true h = ground arith
allowed n false h = elim (Bool-cases (n == 0)) [
  | inl z ↦ absurd (false≢true (h ((==_iff n 0).0 z)))
  | inr e ↦ rw e
]

unfoldable pub stream_body : StreamFrame → List ℕ
stream_body f =
    encoding f.stream_id
    ++ (varint_if (not (f.offset == 0)) f.offset ++ counted_if f.data_len_present f.payload)

module _ (f : StreamFrame) (more : List ℕ) (v : IsStream f more) where
  pub append_stream :
      (b : List ℕ) → append_stream_frame b f ≡ ok (b ++ (stream_type f ∷ stream_body f))
  unfolding append_stream_frame stream_body
  append_stream b =
      let d = f.payload in
      let b1 = b ++ (stream_type f ∷ encoding f.stream_id) in
      let o = varint_if (not (f.offset == 0)) f.offset in
      let l = varint_if f.data_len_present (length d) in
      guard_step (not (length d == 0 && not f.fin)) _ _ (allowed (length d) f.fin v.not_empty)
      ∙ bind_step _ _ _ (put_one b (stream_type f) f.stream_id v.id)
      ∙ bind_step _ _ _ (put_if_lem (not (f.offset == 0)) b1 f.offset (omega arith))
      ∙ bind_step _ _ _ (put_if_lem f.data_len_present (b1 ++ o) (length d) (omega arith))
      ∙ ap ok (simp (append_assoc, varint_if-counted_if))

  pub parse_stream :
      parse_stream_frame (stream_body f ++ more) (stream_type f)
      ≡ ok (stream f, length (stream_body f))
  unfolding parse_stream_frame
  parse_stream =
      let d = f.payload in
      let (has_offset, is_fin, has_len) = type-Flags f.fin f.data_len_present (f.offset == 0) in
      let after2 = counted_if f.data_len_present d ++ more in
      let o = varint_if (not (f.offset == 0)) f.offset in
      next_at f.stream_id (o ++ after2) _ v.id (unfold stream_body in simp append_assoc)
      ∙ rw (has_offset, is_fin, has_len)
          (bind_step _ _ _
              (next_if_lem (not (f.offset == 0)) f.offset after2 (omega arith) (λ e. ground arith))
            ∙ bind_step _ _ _ (next_payload_lem f.data_len_present d more (omega arith) v.last)
            ∙ guard_step (fits_buffer (length d)) _ _ (unfold fits_buffer in ground arith)
            ∙ guard_step (leb (f.offset + length d) max_byte_count) _ _
                (le→leb (f.offset + length d) max_byte_count v.within)
            ∙ ap (λ n. ok (stream f, n)) (consumed (stream_body f) more))

datagram_flag : (c : Bool) → ltb 0 (bit_and (if c then bit_xor 0x30 0x1 else 0x30) 0x1) ≡ c
datagram_flag true = refl
datagram_flag false = refl

module _ (f : DatagramFrame) (h : IsVarint (length f.payload)) where
  pub append_datagram :
      (b : List ℕ)
      → append_datagram_frame b f
        ≡ ok (b ++ (datagram_type f ∷ counted_if f.data_len_present f.payload))
  unfolding append_datagram_frame
  append_datagram b =
      bind_step _ _ _
        (put_if_lem f.data_len_present (b ++ (datagram_type f ∷ [])) (length f.payload) h)
      ∙ ap ok (simp (append_assoc, varint_if-counted_if))

  pub parse_datagram :
      (more : List ℕ)
      → (f.data_len_present ≡ false → more ≡ [])
      → let e = counted_if f.data_len_present f.payload in
        parse_datagram_frame (e ++ more) (datagram_type f) ≡ ok (datagram f, length e)
  unfolding parse_datagram_frame
  parse_datagram more last =
      let e = counted_if f.data_len_present f.payload in
      rw (datagram_flag f.data_len_present) (
        bind_step _ _ _ (next_payload_lem f.data_len_present f.payload more h last)
        ∙ ap (λ n. ok (datagram f, n)) (consumed e more))
