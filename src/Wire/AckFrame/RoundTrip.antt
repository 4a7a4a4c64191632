-- ===== src/Wire/AckFrame/RoundTrip.antt =====
-- `parseAckFrame` after `AckFrame.Append`.
use uquic.Shared.{
  take_cons, guard_step, bind_step, length-take_le, ℕ, suc, ◌+◌, ◌-◌, ◌*◌, ◌/◌, ◌^◌, ◌≤◌, ◌<◌, ◌≡◌,
  refl, sym, ap, ◌∙◌, inl, inr, Bool, true, false, List, [], ◌∷◌, ◌++◌, arith, leb, ◌==◌,
  if◌then◌else◌, Bool-cases, ok, le→leb, length, take, length-append,
}
use uquic.Varint.Encode.{encoding}
use uquic.Wire.Codec.{IsVarint, next_step}
use uquic.Wire.AckFrame.{
  AckRange, AckFrame, decode_delay, encode_ack_delay, parse_ranges, parse_ecn, parse_ack_frame,
  validate_ack_ranges, num_encodable_ack_ranges, has_ecn, append_ack_frame, ack_ecn_frame_type,
  ack_delay_exponent,
}
use uquic.Wire.AckFrame.Ranges.{Under, IsGapped, validate_ack_ranges_iff}
use uquic.Wire.AckFrame.Encode.{
  IsEncodable, range_bytes, ecn_bytes, type_byte, body, append_ack_frame_lem,
  num_encodable_ack_ranges_lem, take-Under, take-IsGapped, encode_ack_delay-IsVarint,
}
use mathlib.Core.List.{append_assoc}

-- One round of the loop, on what stands on the wire for the range `r`.
parse_ranges_step :
    (prev r : AckRange) (n : ℕ) (rest : List AckRange) (tail more : List ℕ)
    → r.smallest ≤ r.largest
    → r.largest + 1 < prev.smallest
    → IsVarint prev.smallest
    → parse_ranges n r.smallest tail ≡ ok (rest, more)
    → parse_ranges
        (suc n)
        prev.smallest
        (encoding (prev.smallest - r.largest - 2) ++ (encoding (r.largest - r.smallest) ++ tail))
      ≡ ok (r ∷ rest, more)
unfolding parse_ranges
parse_ranges_step prev r n rest tail more h u v ih =
    let gap = prev.smallest - r.largest - 2 in
    let block = r.largest - r.smallest in
    let top : prev.smallest - gap - 2 ≡ r.largest = omega arith in
    let bottom : r.largest - block ≡ r.smallest = omega arith in
    next_step gap (encoding block ++ tail) _ (omega arith)
    ∙ guard_step (leb (gap + 2) prev.smallest) _ _ (le→leb (gap + 2) prev.smallest (omega arith))
    ∙ next_step block tail _ (omega arith)
    ∙ guard_step (leb block (prev.smallest - gap - 2)) _ _
        (le→leb block (prev.smallest - gap - 2) (omega arith))
    ∙ rw (top, bottom, ih)

parse_ranges-range_bytes :
    (prev : AckRange) (rest : List AckRange) (more : List ℕ)
    → Under prev.smallest rest
    → IsGapped rest
    → IsVarint prev.smallest
    → parse_ranges (length rest) prev.smallest (range_bytes prev rest ++ more) ≡ ok (rest, more)
parse_ranges-range_bytes prev [] more u g v = unfold parse_ranges in refl
parse_ranges-range_bytes prev (r ∷ rest) more u (h, w, g) v =
    let gap = encoding (prev.smallest - r.largest - 2) in
    let block = encoding (r.largest - r.smallest) in
    let tail = range_bytes r rest in
    ap (parse_ranges (suc (length rest)) prev.smallest)
      (append_assoc gap (block ++ tail) more ∙ ap (◌++◌ gap) (append_assoc block tail more))
    ∙ parse_ranges_step prev r (length rest) rest (tail ++ more) more h u v
        (parse_ranges-range_bytes r rest more w g (omega arith))

parse_ecn_lem :
    (t : Bool) (e0 e1 e2 : ℕ) (more : List ℕ)
    → IsVarint e0
    → IsVarint e1
    → IsVarint e2
    → (t ≡ false → (e0 ≡ 0) × (e1 ≡ 0) × (e2 ≡ 0))
    → parse_ecn t ((if t then encoding e0 ++ (encoding e1 ++ encoding e2) else []) ++ more)
      ≡ ok ((e0, e1, e2), more)
unfolding parse_ecn
parse_ecn_lem true e0 e1 e2 more h0 h1 h2 z =
    ap (parse_ecn true) (
      append_assoc (encoding e0) _ more
      ∙ ap (◌++◌ (encoding e0)) (append_assoc (encoding e1) (encoding e2) more))
    ∙ next_step e0 (encoding e1 ++ (encoding e2 ++ more)) _ h0
    ∙ next_step e1 (encoding e2 ++ more) _ h1
    ∙ next_step e2 more _ h2
parse_ecn_lem false e0 e1 e2 more h0 h1 h2 z = let (z0, z1, z2) = z refl in rw (z0, z1, z2)

-- The frame that comes back: `n` ranges, and the delay in steps of 8 microseconds.
abbrev pub received : AckFrame → ℕ → AckFrame
received f n = record f {
  ack_ranges = take n f.ack_ranges;
  delay_time = f.delay_time / 8000 * 8000;
}

decode-encode_ack_delay :
    (d : ℕ) → d < 2 ^ 63 → decode_delay ack_delay_exponent (encode_ack_delay d) ≡ d / 8000 * 8000
unfolding decode_delay encode_ack_delay
decode-encode_ack_delay d h = ground arith

has_ecn-false : (f : AckFrame) → has_ecn f ≡ false → (f.ect0 ≡ 0) × (f.ect1 ≡ 0) × (f.ecnce ≡ 0)
unfolding has_ecn
has_ecn-false f e = ground arith

type_byte_test : (f : AckFrame) → (type_byte f == ack_ecn_frame_type) ≡ has_ecn f
type_byte_test f = elim (Bool-cases (has_ecn f)) [ inl e ↦ rw e | inr e ↦ rw e ]

module _ (f : AckFrame) (r : AckRange) (rest : List AckRange) (v : IsEncodable f r rest) where
  -- Behind the first range.
  parse_tail :
      (n : ℕ) (more : List ℕ)
      → n ≤ length rest
      → parse_ranges n r.smallest (range_bytes r (take n rest) ++ (ecn_bytes f ++ more))
        ≡ ok (take n rest, ecn_bytes f ++ more)
  parse_tail n more h =
      ap (λ k. parse_ranges k r.smallest (range_bytes r (take n rest) ++ (ecn_bytes f ++ more)))
        (sym (length-take_le n rest h))
      ∙ parse_ranges-range_bytes r (take n rest) (ecn_bytes f ++ more)
          (take-Under n r.smallest rest v.under) (take-IsGapped n rest v.gapped) (omega arith)

  first_ranges : (n : ℕ) → 1 ≤ n → r ∷ take (n - 1) rest ≡ take n f.ack_ranges
  first_ranges n h = take_cons n r rest h ∙ ap (take n) (sym v.ranges)

  first_IsValid : (n : ℕ) → validate_ack_ranges (r ∷ take n rest) ≡ true
  first_IsValid n =
      (validate_ack_ranges_iff (r ∷ take n rest)).1 (
        (λ e. cc),
        (v.ordered, take-Under n r.smallest rest v.under, take-IsGapped n rest v.gapped),
      )

  flat : ℕ → List ℕ → List ℕ
  flat n more =
      encoding r.largest
      ++ (encoding (encode_ack_delay f.delay_time)
          ++ (encoding (n - 1)
              ++ (encoding (r.largest - r.smallest)
                  ++ (range_bytes r (take (n - 1) rest) ++ (ecn_bytes f ++ more)))))

  body-flat : (n : ℕ) (more : List ℕ) → body f r rest n ++ more ≡ flat n more
  unfolding body flat
  body-flat n more = simp append_assoc

  parse_body :
      (n : ℕ) (more : List ℕ)
      → 1 ≤ n
      → n ≤ 1 + length rest
      → parse_ack_frame (body f r rest n ++ more) (type_byte f) ack_delay_exponent
        ≡ ok (received f n, length (body f r rest n ++ more) - length more)
  unfolding parse_ack_frame flat
  parse_body n more lo hi =
      let delay = encode_ack_delay f.delay_time in
      let rs = range_bytes r (take (n - 1) rest) in
      let after5 = rs ++ (ecn_bytes f ++ more) in
      let after4 = encoding (r.largest - r.smallest) ++ after5 in
      let after3 = encoding (n - 1) ++ after4 in
      let after2 = encoding delay ++ after3 in
      let size = length (body f r rest n ++ more) in
      let smallest : r.largest - (r.largest - r.smallest) ≡ r.smallest = omega arith in
      ap (λ b. parse_ack_frame b (type_byte f) ack_delay_exponent) (body-flat n more)
      ∙ next_step r.largest after2 _ v.fits
      ∙ next_step delay after3 _ (encode_ack_delay-IsVarint f.delay_time v.delay)
      ∙ next_step (n - 1) after4 _ (omega arith)
      ∙ next_step (r.largest - r.smallest) after5 _ (omega arith)
      ∙ guard_step (leb (r.largest - r.smallest) r.largest) _ _
          (le→leb (r.largest - r.smallest) r.largest (omega arith))
      ∙ rw
          (smallest, parse_tail (n - 1) more (omega arith), first_IsValid (n - 1), type_byte_test f)
          (bind_step (parse_ecn (has_ecn f) (ecn_bytes f ++ more)) _ _ (
              parse_ecn_lem (has_ecn f) f.ect0 f.ect1 f.ecnce more v.ect0_fits v.ect1_fits
                v.ecnce_fits (has_ecn-false f))
            ∙ rw
                (first_ranges n lo, decode-encode_ack_delay f.delay_time v.delay, body-flat n more))

-- `Append` writes the type and a body, with the first `n` ranges, `n` being what
-- `numEncodableAckRanges` answers, and that is at least one. `parseAckFrame` reads from the body,
-- whatever follows it, the frame with those ranges, the delay rounded down to a multiple of 8
-- microseconds, and the ECN counts; it consumes the body.
pub parse-append_ack_frame :
    (b : List ℕ) (f : AckFrame) (r : AckRange) (rest : List AckRange) (more : List ℕ)
    → IsEncodable f r rest
    → (n : ℕ) × (e : List ℕ) × (num_encodable_ack_ranges f ≡ ok n)
      × (1 ≤ n)
      × (append_ack_frame b f ≡ ok (b ++ (type_byte f ∷ e)))
      × (parse_ack_frame (e ++ more) (type_byte f) ack_delay_exponent ≡ ok (received f n, length e))
parse-append_ack_frame b f r rest more v =
    let (n, q, lo, hi) = num_encodable_ack_ranges_lem f r rest v in
    (
      n,
      body f r rest n,
      q,
      lo,
      append_ack_frame_lem f r rest v b n q lo hi,
      parse_body f r rest v n more lo hi
          ∙ ap (λ k. ok (received f n, k)) (omega (arith, length-append (body f r rest n) more)),
    )
