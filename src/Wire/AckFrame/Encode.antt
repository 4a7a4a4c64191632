-- ===== src/Wire/AckFrame/Encode.antt =====
-- What `AckFrame.Append` writes, for a frame whose ranges are in order and whose numbers fit varints.
use uquic.Shared.{
  ℕ, zero, suc, ◌+◌, ◌-◌, ◌^◌, ◌≤◌, ◌<◌, ◌≡◌, refl, sym, ap, ◌∙◌, inl, inr, Bool, true, false, List,
  [], ◌∷◌, ◌++◌, arith, ltb, if◌then◌else◌, Bool-cases, ok, ◌>>=◌, length, take,
}
use uquic.Varint.Encode.{width, encoding, append-encoding}
use uquic.Wire.Codec.{IsVarint, append_step, len_step}
use uquic.Wire.AckFrame.{
  AckRange, AckFrame, sub64, encode_ack_range, encode_ack_delay, num_encodable_loop,
  num_encodable_of, num_encodable_ack_ranges, append_ranges, has_ecn, append_ecn, append_of,
  append_ack_frame, ack_frame_type, ack_ecn_frame_type, max_ack_frame_size,
}
use uquic.Wire.AckFrame.Ranges.{Under, IsGapped}
use mathlib.Core.List.{append_assoc, append-nil}

pub sub64_lem : (a b : ℕ) → b ≤ a → a < 2 ^ 64 → sub64 a b ≡ a - b
sub64_lem a b h k = omega arith

-- The ranges behind `prev` as they stand on the wire.
abbrev pub range_bytes : AckRange → List AckRange → List ℕ
range_bytes prev [] = []
range_bytes prev (r ∷ rest) =
    encoding (prev.smallest - r.largest - 2)
    ++ (encoding (r.largest - r.smallest) ++ range_bytes r rest)

pub encode_ack_range_lem :
    (prev r : AckRange)
    → r.smallest ≤ r.largest
    → r.largest + 1 < prev.smallest
    → IsVarint prev.smallest
    → encode_ack_range prev r ≡ (prev.smallest - r.largest - 2, r.largest - r.smallest)
unfolding encode_ack_range
encode_ack_range_lem prev r h k v =
    ground (arith, sub64_lem prev.smallest (r.largest + 2), sub64_lem r.largest r.smallest)

abbrev range_width : AckRange → AckRange → ℕ
range_width prev r = width (prev.smallest - r.largest - 2) + width (r.largest - r.smallest)

num_encodable_step :
    (i size : ℕ) (prev r : AckRange) (rest : List AckRange)
    → r.smallest ≤ r.largest
    → r.largest + 1 < prev.smallest
    → IsVarint prev.smallest
    → num_encodable_loop i size prev (r ∷ rest) ≡ (
        if ltb max_ack_frame_size (size + range_width prev r)
        then ok (i - 1)
        else num_encodable_loop (i + 1) (size + range_width prev r) r rest)
unfolding num_encodable_loop
num_encodable_step i size prev r rest h u v = rw (encode_ack_range_lem prev r h u v) (
    len_step (prev.smallest - r.largest - 2) _ (omega arith)
    ∙ len_step (r.largest - r.smallest) _ (omega arith))

width_le : (v : ℕ) → width v ≤ 8
width_le v = ground arith

-- Numbering from `i`, the loop of `numEncodableAckRanges` ends between `i - 1` and the count.
num_encodable_loop_bounds :
    (i size : ℕ) (prev : AckRange) (rest : List AckRange)
    → Under prev.smallest rest
    → IsGapped rest
    → IsVarint prev.smallest
    → (n : ℕ) × (num_encodable_loop i size prev rest ≡ ok n) × (i ≤ n + 1) × (n ≤ i + length rest)
num_encodable_loop_bounds i size prev [] u g v =
    (i, unfold num_encodable_loop in refl, omega arith, omega arith)
num_encodable_loop_bounds i size prev (r ∷ rest) u (h, w, g) v =
    let step = num_encodable_step i size prev r rest h u v in
    elim (Bool-cases (ltb max_ack_frame_size (size + range_width prev r))) [
      | inl full ↦ (i - 1, step ∙ rw full, omega arith, omega arith)
      | inr fits ↦
          let (n, e, lo, hi) =
            num_encodable_loop_bounds (i + 1) (size + range_width prev r) r rest w g
              (omega arith) in
          (n, step ∙ rw fits e, omega arith, omega arith)
    ]

-- The first range is always encodable: the header and one more range stay far below the limit.
num_encodable_first :
    (size : ℕ) (prev : AckRange) (rest : List AckRange)
    → size ≤ 19
    → Under prev.smallest rest
    → IsGapped rest
    → IsVarint prev.smallest
    → (n : ℕ) × (num_encodable_loop 1 size prev rest ≡ ok n) × (1 ≤ n) × (n ≤ 1 + length rest)
num_encodable_first size prev [] l u g v =
    (1, unfold num_encodable_loop in refl, omega arith, omega arith)
num_encodable_first size prev (r ∷ rest) l u (h, w, g) v =
    let step = num_encodable_step 1 size prev r rest h u v in
    let (n, e, lo, hi) =
      num_encodable_loop_bounds 2 (size + range_width prev r) r rest w g (omega arith) in
    (n, step ∙ rw small e, omega arith, omega arith)
  where
    small : ltb max_ack_frame_size (size + range_width prev r) ≡ false
    small =
        grind (arith, width_le (prev.smallest - r.largest - 2), width_le (r.largest - r.smallest))

append_ranges_lem :
    (b : List ℕ) (prev : AckRange) (rest : List AckRange)
    → Under prev.smallest rest
    → IsGapped rest
    → IsVarint prev.smallest
    → append_ranges b prev rest ≡ ok (b ++ range_bytes prev rest)
unfolding append_ranges
append_ranges_lem b prev [] u g v = ap ok (sym (append-nil b))
append_ranges_lem b prev (r ∷ rest) u (h, w, g) v =
    let gap = encoding (prev.smallest - r.largest - 2) in
    let block = encoding (r.largest - r.smallest) in
    rw (encode_ack_range_lem prev r h u v) (
      append_step b (prev.smallest - r.largest - 2) _ (omega arith)
      ∙ append_step (b ++ gap) (r.largest - r.smallest) _ (omega arith)
      ∙ append_ranges_lem ((b ++ gap) ++ block) r rest w g (omega arith)
      ∙ ap ok (
          append_assoc (b ++ gap) block (range_bytes r rest)
          ∙ append_assoc b gap (block ++ range_bytes r rest)))

pub encode_ack_delay-IsVarint : (d : ℕ) → d < 2 ^ 63 → IsVarint (encode_ack_delay d)
unfolding encode_ack_delay
encode_ack_delay-IsVarint d h = omega arith

-- A frame that can be written: its ranges are in order, and its numbers fit varints.
pub record IsEncodable (f : AckFrame) (r : AckRange) (rest : List AckRange) : Type 0 where
  pub ranges : f.ack_ranges ≡ r ∷ rest
  pub ordered : r.smallest ≤ r.largest
  pub under : Under r.smallest rest
  pub gapped : IsGapped rest
  pub fits : IsVarint r.largest
  pub delay : f.delay_time < 2 ^ 63
  pub ect0_fits : IsVarint f.ect0
  pub ect1_fits : IsVarint f.ect1
  pub ecnce_fits : IsVarint f.ecnce
  pub count : IsVarint (length rest)

abbrev pub ecn_bytes : AckFrame → List ℕ
ecn_bytes f = if has_ecn f then encoding f.ect0 ++ (encoding f.ect1 ++ encoding f.ecnce) else []

abbrev pub type_byte : AckFrame → ℕ
type_byte f = if has_ecn f then ack_ecn_frame_type else ack_frame_type

-- The frame behind its type, with `n` ranges.
unfoldable pub body : AckFrame → AckRange → List AckRange → ℕ → List ℕ
body f r rest n =
    encoding r.largest
    ++ (encoding (encode_ack_delay f.delay_time)
        ++ (encoding (n - 1)
            ++ (encoding (r.largest - r.smallest)
                ++ (range_bytes r (take (n - 1) rest) ++ ecn_bytes f))))

pub take-Under : (k n : ℕ) (rs : List AckRange) → Under n rs → Under n (take k rs)
take-Under zero n rs u = tt
take-Under (suc k) n [] u = u
take-Under (suc k) n (s ∷ rs) u = u

pub take-IsGapped : (k : ℕ) (rs : List AckRange) → IsGapped rs → IsGapped (take k rs)
take-IsGapped zero rs g = tt
take-IsGapped (suc k) [] g = tt
take-IsGapped (suc k) (r ∷ rs) (h, u, g) = (h, take-Under k r.smallest rs u, take-IsGapped k rs g)

append_ecn_lem :
    (b : List ℕ) (f : AckFrame)
    → IsVarint f.ect0
    → IsVarint f.ect1
    → IsVarint f.ecnce
    → append_ecn b f ≡ ok (b ++ (encoding f.ect0 ++ (encoding f.ect1 ++ encoding f.ecnce)))
unfolding append_ecn
append_ecn_lem b f h0 h1 h2 =
    let e0 = encoding f.ect0 in
    let e1 = encoding f.ect1 in
    append_step b f.ect0 _ h0
    ∙ append_step (b ++ e0) f.ect1 _ h1
    ∙ append-encoding ((b ++ e0) ++ e1) f.ecnce h2
    ∙ ap ok
        (append_assoc (b ++ e0) e1 (encoding f.ecnce) ∙ append_assoc b e0 (e1 ++ encoding f.ecnce))

append_tail :
    (t : Bool) (b : List ℕ) (f : AckFrame)
    → IsVarint f.ect0
    → IsVarint f.ect1
    → IsVarint f.ecnce
    → (if t then append_ecn b f else ok b)
      ≡ ok (b ++ (if t then encoding f.ect0 ++ (encoding f.ect1 ++ encoding f.ecnce) else []))
append_tail true b f h0 h1 h2 = append_ecn_lem b f h0 h1 h2
append_tail false b f h0 h1 h2 = ap ok (sym (append-nil b))

module _ (f : AckFrame) (r : AckRange) (rest : List AckRange) (v : IsEncodable f r rest) where
  pub num_encodable_ack_ranges_lem :
      (n : ℕ) × (num_encodable_ack_ranges f ≡ ok n) × (1 ≤ n) × (n ≤ 1 + length rest)
  unfolding num_encodable_ack_ranges num_encodable_of
  num_encodable_ack_ranges_lem =
      let size = 1 + width r.largest + width (encode_ack_delay f.delay_time) + 2 in
      let (n, e, lo, hi) =
        num_encodable_first size r rest
          (omega (arith, width_le r.largest, width_le (encode_ack_delay f.delay_time))) v.under
          v.gapped (omega arith) in
      (
        n,
        ap (num_encodable_of f) v.ranges
            ∙ len_step r.largest _ v.fits
            ∙ len_step (encode_ack_delay f.delay_time) _
                (encode_ack_delay-IsVarint f.delay_time v.delay)
            ∙ e,
        lo,
        hi,
      )

  -- The tail of `Append`: the ranges and the ECN counts, behind `b`.
  append_end :
      (b : List ℕ) (n : ℕ)
      → (append_ranges b r (take (n - 1) rest) >>= λ b6.
          if has_ecn f then append_ecn b6 f else ok b6)
        ≡ ok (b ++ (range_bytes r (take (n - 1) rest) ++ ecn_bytes f))
  append_end b n =
      let rs = range_bytes r (take (n - 1) rest) in
      ap (λ m. m >>= λ b6. if has_ecn f then append_ecn b6 f else ok b6)
        (append_ranges_lem b r (take (n - 1) rest) (take-Under (n - 1) r.smallest rest v.under)
          (take-IsGapped (n - 1) rest v.gapped) (omega arith))
      ∙ append_tail (has_ecn f) (b ++ rs) f v.ect0_fits v.ect1_fits v.ecnce_fits
      ∙ ap ok (append_assoc b rs (ecn_bytes f))

  -- `Append` writes the type and the body, with as many ranges as are encodable.
  pub append_ack_frame_lem :
      (b : List ℕ) (n : ℕ)
      → num_encodable_ack_ranges f ≡ ok n
      → 1 ≤ n
      → n ≤ 1 + length rest
      → append_ack_frame b f ≡ ok (b ++ (type_byte f ∷ body f r rest n))
  unfolding append_ack_frame append_of body
  append_ack_frame_lem b n e lo hi =
      let b1 = b ++ (type_byte f ∷ []) in
      let e2 = encoding r.largest in
      let e3 = encoding (encode_ack_delay f.delay_time) in
      let e4 = encoding (n - 1) in
      let e5 = encoding (r.largest - r.smallest) in
      let end = range_bytes r (take (n - 1) rest) ++ ecn_bytes f in
      ap (append_of b f) v.ranges
      ∙ append_step b1 r.largest _ v.fits
      ∙ append_step (b1 ++ e2) (encode_ack_delay f.delay_time) _
          (encode_ack_delay-IsVarint f.delay_time v.delay)
      ∙ rw
          (
            e,
            sub64_lem n 1 lo (omega arith),
            sub64_lem r.largest r.smallest v.ordered (omega arith),
          )
          (append_step ((b1 ++ e2) ++ e3) (n - 1) _ (omega arith)
            ∙ append_step (((b1 ++ e2) ++ e3) ++ e4) (r.largest - r.smallest) _ (omega arith)
            ∙ append_end ((((b1 ++ e2) ++ e3) ++ e4) ++ e5) n
            ∙ ap ok (simp append_assoc))
