-- ===== src/AckHandler/Sender/Covered.antt =====
-- detectAndRemoveAckedPackets against AcksPacket.
use uquic.Shared.{
  ℕ, ◌+◌, ◌≤◌, ◌<◌, ◌≡◌, refl, sym, ap, ◌∙◌, ◌⊎◌, inl, inr, Bool, true, false, not, ◌&&◌, List, [],
  ◌∷◌, arith, ltb, leb, if◌then◌else◌, if_of_false, if_intro_known, Bool-cases, ok, err, ltb→lt,
  lt→ltb, le→leb,
}
use uquic.Wire.AckFrame.{AckRange}
use uquic.Wire.AckFrame.Query.{covers}
use uquic.AckHandler.Sent.{Packet, remove_probe}
use uquic.AckHandler.Sent.Yield.{IsRising}
use uquic.AckHandler.Sender.{ack_for_skipped_packet}
use uquic.AckHandler.Sender.Acks.{
  advance, Verdict, passes, stops, takes, takes_probe, fails, judge, ranges_for, Collected,
  add_acked, add_probe, follow, take_probe, collect,
}

-- The packets that a test selects, in order. A skipped one is an error, and a path probe is taken from the probes.
unfoldable pub select : (ℕ → Bool) → List Packet → List Packet → Collected
select test [] probes = ok ([], probes)
select test (p ∷ ps) probes =
    let (found, left) = remove_probe probes p.packet_number in
    let with_probe = add_probe found (select test ps left) in
    let rest = select test ps probes in
    if not (test p.packet_number)
    then rest
    else if p.skipped_packet
    then err (ack_for_skipped_packet p.packet_number)
    else if p.is_path_probe_packet
    then with_probe
    else add_acked p rest

-- Ranges from the lowest up, each above the one before.
abbrev pub Climbs : AckRange → List AckRange → Type 0
Climbs r [] = r.smallest ≤ r.largest
Climbs r (s ∷ rest) = (r.smallest ≤ r.largest) × ((r.largest < s.smallest) × Climbs s rest)

abbrev pub top_of : AckRange → List AckRange → ℕ
top_of r [] = r.largest
top_of r (s ∷ rest) = top_of s rest

Climbs-covers_below :
    (r : AckRange) (rest : List AckRange) (q : ℕ)
    → Climbs r rest
    → q < r.smallest
    → covers (r ∷ rest) q ≡ false
Climbs-covers_below r [] q climbs below = ground arith
Climbs-covers_below r (s ∷ rest) q (h, (up, climbs)) below =
    let later = Climbs-covers_below s rest q climbs (omega arith) in ground arith

Climbs-head : (r : AckRange) (rest : List AckRange) → Climbs r rest → r.smallest ≤ r.largest
Climbs-head r [] climbs = climbs
Climbs-head r (s ∷ rest) climbs = climbs.0

-- A range that ends below a packet number does not hold it.
covers_skip :
    (r : AckRange) (rest : List AckRange) (q : ℕ)
    → r.largest < q
    → covers (r ∷ rest) q ≡ covers rest q
covers_skip r rest q below = ground arith

top-le : (r : AckRange) (rest : List AckRange) → Climbs r rest → r.largest ≤ top_of r rest
top-le r [] climbs = omega arith
top-le r (s ∷ rest) (h, (up, climbs)) =
    omega (arith, up, Climbs-head s rest climbs, top-le s rest climbs)

Climbs-covers_above :
    (r : AckRange) (rest : List AckRange) (q : ℕ)
    → Climbs r rest
    → top_of r rest < q
    → covers (r ∷ rest) q ≡ false
Climbs-covers_above r [] q climbs above = ground arith
Climbs-covers_above r (s ∷ rest) q (h, (up, climbs)) above =
    covers_skip r (s ∷ rest) q
      (omega (arith, up, Climbs-head s rest climbs, top-le s rest climbs, above))
    ∙ Climbs-covers_above s rest q climbs above

pub record IsAdvanced (pn : ℕ) (cur : AckRange) (more : List AckRange)
    (r : AckRange × List AckRange) : Type 0 where
  pub climbs : Climbs r.0 r.1
  pub top : top_of r.0 r.1 ≡ top_of cur more
  pub low : cur.smallest ≤ r.0.smallest
  pub reaches : pn ≤ r.0.largest
  pub same : (q : ℕ) → pn ≤ q → covers (r.0 ∷ r.1) q ≡ covers (cur ∷ more) q

advance-IsAdvanced :
    (pn : ℕ) (cur : AckRange) (more : List AckRange)
    → Climbs cur more
    → pn ≤ top_of cur more
    → IsAdvanced pn cur more (advance pn cur more)
unfolding advance
advance-IsAdvanced pn cur [] climbs reach = record {
  climbs = climbs;
  top = refl;
  low = omega arith;
  reaches = reach;
  same = λ q h. refl;
}
advance-IsAdvanced pn cur (r ∷ rest) (h, (up, climbs)) reach =
    let ih = advance-IsAdvanced pn r rest climbs reach in
    if_intro_known (IsAdvanced pn cur (r ∷ rest)) (ltb cur.largest pn)
      (λ beyond. record {
        climbs = ih.climbs;
        top = ih.top;
        low = omega (arith, ih.low);
        reaches = ih.reaches;
        same = λ q at. ih.same q at ∙ sym (covers_skip cur (r ∷ rest) q (ground arith));
      })
      (λ within. record {
        climbs = (h, (up, climbs));
        top = refl;
        low = omega arith;
        reaches = ground arith;
        same = λ q at. refl;
      })

pub select_none :
    (test : ℕ → Bool) (n : ℕ) (ps probes : List Packet)
    → IsRising n ps
    → ((q : ℕ) → n ≤ q → test q ≡ false)
    → select test ps probes ≡ ok ([], probes)
unfolding select
select_none test n [] probes rising none_holds = refl
select_none test n (p ∷ ps) probes (from, rising) none_holds =
    rw (none_holds p.packet_number from)
      (select_none test (p.packet_number + 1) ps probes rising (λ q h. none_holds q (omega arith)))

-- What `select` does with a packet, by the test.
pub select_not :
    (test : ℕ → Bool) (p : Packet) (ps probes : List Packet)
    → test p.packet_number ≡ false
    → select test (p ∷ ps) probes ≡ select test ps probes
unfolding select
select_not test p ps probes e = rw e

-- The verdict on a packet that is acknowledged.
abbrev pub verdict_on : Packet → Verdict
verdict_on p =
    if p.skipped_packet
    then fails (ack_for_skipped_packet p.packet_number)
    else if p.is_path_probe_packet
    then takes_probe
    else takes

pub select_held :
    (test : ℕ → Bool) (p : Packet) (ps probes : List Packet)
    → test p.packet_number ≡ true
    → select test (p ∷ ps) probes
      ≡ follow
          (verdict_on p)
          p
          (take_probe (verdict_on p) probes p.packet_number).0
          probes
          (select test ps (take_probe (verdict_on p) probes p.packet_number).1)
unfolding select
select_held test p ps probes e = elim (Bool-cases p.skipped_packet) [
  | inl skipped ↦ rw (e, skipped)
  | inr not_skipped ↦ elim (Bool-cases p.is_path_probe_packet) [
    | inl probe ↦ rw (e, not_skipped, probe)
    | inr not_probe ↦ rw (e, not_skipped, not_probe)
  ]
]

and_false : (m b : Bool) → b ≡ false → (m && b) ≡ false
and_false true b e = e
and_false false b e = refl

module _ (lo hi : ℕ) (p : Packet) where
  pub judge_below : (m : Bool) (r : AckRange) → p.packet_number < lo → judge m lo hi r p ≡ passes
  unfolding judge
  judge_below m r below = rw (lt→ltb _ _ below)

  pub judge_above :
      (m : Bool) (r : AckRange)
      → lo ≤ p.packet_number
      → hi < p.packet_number
      → judge m lo hi r p ≡ stops
  unfolding judge
  judge_above m r from above =
      let e : ltb p.packet_number lo ≡ false = ground arith in rw (e, lt→ltb _ _ above)

  judge_gap :
      (r : AckRange)
      → lo ≤ p.packet_number
      → p.packet_number ≤ hi
      → p.packet_number < r.smallest
      → judge true lo hi r p ≡ passes
  unfolding judge
  judge_gap r from to gap =
      let e : ltb p.packet_number lo ≡ false = ground arith in
      let f : ltb hi p.packet_number ≡ false = ground arith in rw (e, f, lt→ltb _ _ gap)

  pub judge_in :
      (m : Bool) (r : AckRange)
      → lo ≤ p.packet_number
      → p.packet_number ≤ hi
      → r.smallest ≤ p.packet_number
      → p.packet_number ≤ r.largest
      → judge m lo hi r p ≡ verdict_on p
  unfolding judge
  judge_in m r from to above below =
      let e : ltb p.packet_number lo ≡ false = ground arith in
      let f : ltb hi p.packet_number ≡ false = ground arith in
      let g : (m && ltb p.packet_number r.smallest) ≡ false = and_false m _ (ground arith) in
      let k : (m && ltb r.largest p.packet_number) ≡ false = and_false m _ (ground arith) in
      rw (e, f, g, k)

  ranges_out :
      (m : Bool) (cur : AckRange) (more : List AckRange)
      → (p.packet_number < lo) ⊎ (hi < p.packet_number)
      → ranges_for m lo hi p cur more ≡ (cur, more)
  unfolding ranges_for
  ranges_out m cur more (inl below) =
      let e : leb lo p.packet_number ≡ false = ground arith in
      if_of_false _ _ _ (and_false m _ (ap (λ b. b && leb p.packet_number hi) e))
  ranges_out m cur more (inr above) =
      let e : leb p.packet_number hi ≡ false = ground arith in
      if_of_false _ _ _ (and_false m _ (and_false (leb lo p.packet_number) _ e))

  ranges_in :
      (cur : AckRange) (more : List AckRange)
      → lo ≤ p.packet_number
      → p.packet_number ≤ hi
      → ranges_for true lo hi p cur more ≡ advance p.packet_number cur more
  unfolding ranges_for
  ranges_in cur more from to = rw (le→leb _ _ from, le→leb _ _ to)

pub covers_here :
    (r : AckRange) (rest : List AckRange) (q : ℕ)
    → r.smallest ≤ q
    → q ≤ r.largest
    → covers (r ∷ rest) q ≡ true
covers_here r rest q low high = rw (le→leb _ _ low, le→leb _ _ high)

-- The loop from a range and a packet number on, with more than one range in the frame.
pub collect-select :
    (test : ℕ → Bool) (n lo hi : ℕ) (cur : AckRange) (more : List AckRange)
    (ps probes : List Packet)
    → Climbs cur more
    → lo ≤ cur.smallest
    → hi ≡ top_of cur more
    → IsRising n ps
    → ((q : ℕ) → n ≤ q → test q ≡ covers (cur ∷ more) q)
    → collect true lo hi cur more ps probes ≡ select test ps probes
unfolding collect
collect-select test n lo hi cur more [] probes climbs low high rising same = unfold select in refl
collect-select test n lo hi cur more (p ∷ ps) probes climbs low high (from, rising) same =
    elim (Bool-cases (ltb p.packet_number lo)) [
      | inl below_lo ↦
          let below = ltb→lt _ _ below_lo in
          rw (ranges_out lo hi p true cur more (inl below), judge_below lo hi p true cur below)
            (collect-select test (p.packet_number + 1) lo hi cur more ps probes climbs low high
                rising (λ q h. same q (omega arith))
              ∙ sym (
                  select_not test p ps probes (
                    same p.packet_number from
                    ∙ Climbs-covers_below cur more p.packet_number climbs (omega arith))))
      | inr not_below ↦
          let above_lo : lo ≤ p.packet_number = ground arith in
          elim (Bool-cases (ltb hi p.packet_number)) [
            | inl above_hi ↦
                let above = ltb→lt _ _ above_hi in
                rw
                  (
                    ranges_out lo hi p true cur more (inr above),
                    judge_above lo hi p true cur above_lo above,
                  )
                  (sym (
                    select_none test p.packet_number (p ∷ ps) probes (omega arith, rising)
                      (λ q h.
                        same q (omega arith)
                        ∙ Climbs-covers_above cur more q climbs (omega arith))))
            | inr not_above ↦
                let below_hi : p.packet_number ≤ hi = ground arith in
                let r = advance p.packet_number cur more in
                let a = advance-IsAdvanced p.packet_number cur more climbs (omega arith) in
                let from_here = λ (probes1 : List Packet).
                  collect-select test (p.packet_number + 1) lo hi r.0 r.1 ps probes1 a.climbs
                    (omega (arith, a.low)) (high ∙ sym a.top) rising
                    (λ q h. same q (omega arith) ∙ sym (a.same q (omega arith))) in
                let here = same p.packet_number from ∙ sym (a.same p.packet_number (omega arith)) in
                elim (Bool-cases (ltb p.packet_number r.0.smallest)) [
                  | inl gap ↦
                      let below = ltb→lt _ _ gap in
                      rw
                        (
                          ranges_in lo hi p cur more above_lo below_hi,
                          judge_gap lo hi p r.0 above_lo below_hi below,
                        )
                        (from_here probes
                          ∙ sym (
                              select_not test p ps probes (
                                here ∙ Climbs-covers_below r.0 r.1 p.packet_number a.climbs below)))
                  | inr not_gap ↦
                      let within : r.0.smallest ≤ p.packet_number = ground arith in
                      rw
                        (
                          ranges_in lo hi p cur more above_lo below_hi,
                          judge_in lo hi p true r.0 above_lo below_hi within a.reaches,
                        )
                        (ap
                            (follow (verdict_on p) p
                              (take_probe (verdict_on p) probes p.packet_number).0 probes)
                            (from_here (take_probe (verdict_on p) probes p.packet_number).1)
                          ∙ sym (
                              select_held test p ps probes
                                (here ∙ covers_here r.0 r.1 p.packet_number within a.reaches)))
                ]
          ]
    ]
