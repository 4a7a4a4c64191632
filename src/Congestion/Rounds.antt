-- ===== src/Congestion/Rounds.antt =====
-- A round of slow start: the round-trip times of its ACKs.
use uquic.Shared.{
  ℕ, ◌+◌, ◌*◌, ◌/◌, ◌%◌, ◌^◌, ◌≤◌, ◌<◌, min, max, ◌≡◌, refl, ap, ◌∙◌, inl, inr, Bool, true, false,
  ◌&&◌, ◌||◌, List, [], ◌∷◌, ◌++◌, map, arith, ltb, leb, ◌==◌, if◌then◌else◌, if_of_false,
  Bool-cases, le→leb, length, replicate, All,
}
use uquic.Congestion.{
  HybridSlowStart, note_sample, detect, increase_threshold, should_exit_slow_start,
  start_receive_round, restart, hybrid_start_min_samples, hybrid_start_low_window,
}

-- The state in a round after some samples.
abbrev sampled : ℕ → ℕ → HybridSlowStart → HybridSlowStart
sampled count lowest_rtt s = record s {
  started = true;
  hystart_found = false;
  rtt_sample_count = count;
  current_min_rtt = lowest_rtt;
}

abbrev lower : ℕ → ℕ → ℕ
lower current rtt = if current == 0 || ltb rtt current then rtt else current

if_sampled :
    (b : Bool) (s : HybridSlowStart) (count x y : ℕ)
    → (if b then sampled count x s else sampled count y s) ≡ sampled count (if b then x else y) s
if_sampled true s count x y = refl
if_sampled false s count x y = refl

note_sample-sampled :
    (s : HybridSlowStart) (count current rtt : ℕ)
    → count < hybrid_start_min_samples
    → note_sample (sampled count current s) rtt ≡ sampled (count + 1) (lower current rtt) s
unfolding note_sample
note_sample-sampled s count current rtt few =
    let small : (count + 1) % 2 ^ 32 ≡ count + 1 = omega arith in
    rw (small, le→leb (count + 1) hybrid_start_min_samples (omega arith))
      (if_sampled (current == 0 || ltb rtt current) s (count + 1) rtt current)

detect-sampled :
    (s : HybridSlowStart) (count current m : ℕ)
    → count < hybrid_start_min_samples
    → detect (sampled count current s) m ≡ sampled count current s
unfolding detect
detect-sampled s count current m few =
    if_of_false (count == hybrid_start_min_samples) _ _ (grind arith)

-- What is known of a sample: the round-trip time, the least one of the session, and the congestion window.
abbrev pub Sample : Type 0
Sample = ℕ × (ℕ × ℕ)

-- What ShouldExitSlowStart answers to each sample.
unfoldable pub answers : List Sample → HybridSlowStart → List Bool
answers [] s = []
answers ((rtt, (m, w)) ∷ samples) s =
    let (answer, s') = should_exit_slow_start s rtt m w in answer ∷ answers samples s'

abbrev pub rtts_of : List Sample → List ℕ
rtts_of samples = map (λ (x : Sample). x.0) samples

and_false : (b : Bool) → (b && false) ≡ false
and_false true = refl
and_false false = refl

sample-sampled :
    (s : HybridSlowStart) (count current rtt m w : ℕ)
    → count + 1 < hybrid_start_min_samples
    → should_exit_slow_start (sampled count current s) rtt m w
      ≡ (false, sampled (count + 1) (lower current rtt) s)
unfolding should_exit_slow_start
sample-sampled s count current rtt m w few =
    ap
      (λ (x : HybridSlowStart).
        let y = detect x m in (leb hybrid_start_low_window w && y.hystart_found, y))
      (note_sample-sampled s count current rtt (omega arith))
    ∙ (ap (λ (y : HybridSlowStart). (leb hybrid_start_low_window w && y.hystart_found, y))
          (detect-sampled s (count + 1) (lower current rtt) m few)
        ∙ ap (λ b. (b, sampled (count + 1) (lower current rtt) s))
            (and_false (leb hybrid_start_low_window w)))

-- The least of some numbers.
unfoldable pub least : ℕ → List ℕ → ℕ
least a [] = a
least a (b ∷ bs) = min a (least b bs)

lower-min : (current rtt : ℕ) → 0 < current → lower current rtt ≡ min current rtt
lower-min current rtt some_current = grind arith

threshold_lem : (m : ℕ) → increase_threshold m ≡ max (min (m / 8000) 16000) 4000 * 1000
unfolding increase_threshold
threshold_lem m = omega arith

least-min : (a b : ℕ) (bs : List ℕ) → least (min a b) bs ≡ min a (least b bs)
unfolding least
least-min a b [] = refl
least-min a b (c ∷ cs) = omega arith

least-pos : (a : ℕ) (bs : List ℕ) → 0 < a → All (λ b. 0 < b) bs → 0 < least a bs
unfolding least
least-pos a [] some_a all = some_a
least-pos a (b ∷ bs) some_a (some_b, all) = omega (arith, some_a, least-pos b bs some_b all)

-- Up to the seventh sample of a round.
answers-sampled :
    (s : HybridSlowStart) (before : List Sample) (later : List Sample) (count current : ℕ)
    → 0 < current
    → All (λ r. 0 < r) (rtts_of before)
    → count + length before ≡ 7
    → answers (before ++ later) (sampled count current s)
      ≡ replicate (length before) false
        ++ answers later (sampled 7 (least current (rtts_of before)) s)
unfolding answers least
answers-sampled s [] later count current some_current positive all =
    ap (λ c. answers later (sampled c current s)) (omega arith)
answers-sampled s ((rtt, (m, w)) ∷ before) later count current some_current positive all =
    ap (λ ((b, x) : Bool × HybridSlowStart). b ∷ answers (before ++ later) x)
      (sample-sampled s count current rtt m w (omega arith)
        ∙ ap (λ l. (false, sampled (count + 1) l s)) (lower-min current rtt some_current))
    ∙ (ap (λ bs. false ∷ bs)
          (answers-sampled s before later (count + 1) (min current rtt) (omega (arith, positive.0))
            positive.1 (omega arith))
        ∙ ap (λ l. false ∷ (replicate (length before) false ++ answers later (sampled 7 l s)))
            (least-min current rtt (rtts_of before)))

-- From the ninth sample on, nothing is found any more.
late-sampled :
    (s : HybridSlowStart) (later : List Sample) (count current : ℕ)
    → 8 ≤ count
    → count + length later < 2 ^ 32
    → answers later (sampled count current s) ≡ replicate (length later) false
unfolding answers should_exit_slow_start note_sample detect
late-sampled s [] count current many few = refl
late-sampled s ((rtt, (m, w)) ∷ later) count current many few =
    let small : (count + 1) % 2 ^ 32 ≡ count + 1 = omega arith in
    let over : leb (count + 1) hybrid_start_min_samples ≡ false = grind arith in
    let other : (count + 1 == hybrid_start_min_samples) ≡ false = grind arith in
    rw (small, over, other, and_false (leb hybrid_start_low_window w))
      (ap (λ bs. false ∷ bs) (late-sampled s later (count + 1) current (omega arith) (omega arith)))

-- The round in which the increase was found.
abbrev with_increase : ℕ → ℕ → HybridSlowStart → HybridSlowStart
with_increase count lowest_rtt s = record (sampled count lowest_rtt s) { hystart_found = true }

late-found :
    (s : HybridSlowStart) (later : List Sample) (count current : ℕ)
    → answers later (with_increase count current s) ≡ replicate (length later) true
unfolding answers should_exit_slow_start
late-found s [] count current = refl
late-found s ((rtt, (m, w)) ∷ later) count current =
    ap (λ bs. true ∷ bs) (late-found s later count current)

abbrev is_found : ℕ → ℕ → Bool
is_found m lowest_rtt = ltb (m + increase_threshold m) lowest_rtt

eighth-sampled :
    (s : HybridSlowStart) (current rtt m w : ℕ)
    → should_exit_slow_start (sampled 7 current s) rtt m w ≡ (
      leb hybrid_start_low_window w && is_found m (lower current rtt),
      if is_found m (lower current rtt)
          then with_increase 8 (lower current rtt) s
          else sampled 8 (lower current rtt) s,
    )
unfolding should_exit_slow_start detect
eighth-sampled s current rtt m w =
    ap
      (λ (x : HybridSlowStart).
        let y = detect x m in (leb hybrid_start_low_window w && y.hystart_found, y))
      (note_sample-sampled s 7 current rtt (omega arith))
    ∙ elim (Bool-cases (is_found m (lower current rtt))) [
      | inl found ↦ rw found refl
      | inr kept ↦ rw kept refl
    ]

-- From the eighth sample on.
eighth-answers :
    (s : HybridSlowStart) (later : List Sample) (current rtt m w : ℕ)
    → 8 + length later < 2 ^ 32
    → answers ((rtt, (m, w)) ∷ later) (sampled 7 current s)
      ≡ (leb hybrid_start_low_window w && is_found m (lower current rtt))
        ∷ replicate (length later) (is_found m (lower current rtt))
unfolding answers
eighth-answers s later current rtt m w few =
    ap (λ ((b, x) : Bool × HybridSlowStart). b ∷ answers later x) (eighth-sampled s current rtt m w)
    ∙ ap (λ bs. (leb hybrid_start_low_window w && is_found m (lower current rtt)) ∷ bs)
        (elim (Bool-cases (is_found m (lower current rtt))) [
          | inl found ↦ rw found (late-found s later 8 (lower current rtt))
          | inr kept ↦ rw kept (late-sampled s later 8 (lower current rtt) (omega arith) few)
        ])

first_sample :
    (s : HybridSlowStart) (rtt m w : ℕ)
    → should_exit_slow_start (restart s) rtt m w
      ≡ (false, sampled 1 rtt (record s { end_packet_number = s.last_sent_packet_number }))
unfolding should_exit_slow_start restart start_receive_round note_sample detect
first_sample s rtt m w =
    ap (λ b. (b, sampled 1 rtt (record s { end_packet_number = s.last_sent_packet_number })))
      (and_false (leb hybrid_start_low_window w))

-- The least round-trip time of a round against the least of the session.
abbrev pub is_increase : ℕ → ℕ → Bool
is_increase m lowest = ltb (m + max (min (m / 8000) 16000) 4000 * 1000) lowest

-- In the round that the first sample after Restart starts, with round-trip times that are not zero,
-- ShouldExitSlowStart answers no to the first seven. At the eighth, the increase is found exactly if the least
-- round-trip time of the eight is above the least of the session, as it is then, by more than an eighth of that
-- in microseconds, but at least 4 and at most 16 milliseconds. The answer to the eighth is yes exactly if
-- the increase is found and the congestion window is 16 or more, the answer to all that follow, as far as the count
-- of samples does not wrap, exactly if the increase was found, with any congestion window.
pub answers-restart :
    (s : HybridSlowStart) (first : Sample) (six : List Sample) (rtt m w : ℕ) (later : List Sample)
    → All (λ r. 0 < r) (rtts_of (first ∷ six))
    → 0 < rtt
    → length six ≡ 6
    → 8 + length later < 2 ^ 32
    → answers ((first ∷ six) ++ ((rtt, (m, w)) ∷ later)) (restart s)
      ≡ replicate 7 false
        ++ ((leb 16 w && is_increase m (min (least first.0 (rtts_of six)) rtt))
            ∷ replicate (length later) (is_increase m (min (least first.0 (rtts_of six)) rtt)))
unfolding answers
answers-restart s (rtt1, (m1, w1)) six rtt m w later (some_first, positive) some_rtt six_more few =
    let s1 = record s { end_packet_number = s.last_sent_packet_number } in
    let lowest = least rtt1 (rtts_of six) in
    ap (λ ((b, x) : Bool × HybridSlowStart). b ∷ answers (six ++ ((rtt, (m, w)) ∷ later)) x)
      (first_sample s rtt1 m1 w1)
    ∙ (ap (λ bs. false ∷ bs)
          (answers-sampled s1 six ((rtt, (m, w)) ∷ later) 1 rtt1 some_first positive
            (omega (arith, six_more)))
        ∙ (ap
              (λ n.
                false
                ∷ (replicate n false ++ answers ((rtt, (m, w)) ∷ later) (sampled 7 lowest s1)))
              six_more
            ∙ (ap (λ bs. replicate 7 false ++ bs) (eighth-answers s1 later lowest rtt m w few)
                ∙ ap
                    (λ found.
                      replicate 7 false ++ ((leb 16 w && found) ∷ replicate (length later) found))
                    (ap (ltb (m + increase_threshold m))
                        (lower-min lowest rtt (least-pos rtt1 (rtts_of six) some_first positive))
                      ∙ ap (λ k. ltb (m + k) (min lowest rtt)) (threshold_lem m)))))
