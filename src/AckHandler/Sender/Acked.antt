-- ===== src/AckHandler/Sender/Acked.antt =====
-- What an ACK frame acknowledges, on the whole frame and the whole history.
use uquic.Shared.{
  ℕ, ◌+◌, ◌≤◌, ◌<◌, ◌≡◌, refl, sym, ap, ◌∙◌, subst, ◌≢◌, inl, inr, Bool, true, false, ◌||◌, some,
  List, [], ◌∷◌, ◌++◌, reverse, arith, ltb, ◌==◌, Bool-cases, Result, ok, err, Panic, ◌>>=◌, ltb→lt,
  length,
}
use mathlib.Core.List.{reverse-cons}
use mathlib.Core.Path.{fun_ext}
use uquic.Wire.AckFrame.{AckRange, AckFrame}
use uquic.Wire.AckFrame.Ranges.{IsGapped}
use uquic.Wire.AckFrame.Query.{
  largest_acked, lowest_acked, has_missing_ranges, covers, last_smallest, acks_packet,
  acks_packet-covers,
}
use uquic.Wire.Frame.{EncryptionLevel}
use uquic.AckHandler.Sent.{Packet, yielded}
use uquic.AckHandler.Sent.Yield.{IsRising, tracked-IsRising}
use uquic.AckHandler.Sent.State.{IsTracked}
use uquic.AckHandler.Space.{PacketNumberSpace}
use uquic.AckHandler.Sender.{Sender, get_packet_number_space, put_space}
use uquic.AckHandler.Sender.Acks.{
  collect, collect_from, acknowledge_all, detect_and_remove_acked_packets, ranges_for, follow,
  take_probe,
}
use uquic.AckHandler.Sender.Covered.{
  Climbs, top_of, select, collect-select, select_not, select_held, select_none, verdict_on,
  judge_below, judge_above, judge_in, covers_here,
}

Climbs-append :
    (r : AckRange) (rest : List AckRange) (s : AckRange)
    → Climbs r rest
    → top_of r rest < s.smallest
    → s.smallest ≤ s.largest
    → Climbs r (rest ++ (s ∷ [])) × (top_of r (rest ++ (s ∷ [])) ≡ s.largest)
Climbs-append r [] s climbs above fits = ((climbs, (above, fits)), refl)
Climbs-append r (t ∷ rest) s (h, (up, climbs)) above fits =
    let (later, top) = Climbs-append t rest s climbs above fits in ((h, (up, later)), top)

-- The ranges of a frame, from the lowest up.
abbrev IsUpward : AckRange → List AckRange → AckRange → List AckRange → Type 0
IsUpward r rest c m =
    (reverse (r ∷ rest) ≡ c ∷ m)
    × (Climbs c m × ((top_of c m ≡ r.largest) × (c.smallest ≡ last_smallest r rest)))

upward :
    (r : AckRange) (rest : List AckRange)
    → IsGapped (r ∷ rest)
    → (c : AckRange) × ((m : List AckRange) × IsUpward r rest c m)
upward r [] (h, u, g) = (r, ([], (refl, (h, (refl, refl)))))
upward r (s ∷ rest) (h, u, g) =
    let (c, (m, (rev, (climbs, (top, low))))) = upward s rest g in
    let (climbs', top') = Climbs-append c m r climbs (omega (arith, top)) h in
    (
      c,
      (
        m ++ (r ∷ []),
        (
          reverse-cons r (s ∷ rest) ∙ ap (λ (l : List AckRange). l ++ (r ∷ [])) rev,
          (climbs', (top', low)),
        ),
      ),
    )

covers-append : (xs ys : List AckRange) (q : ℕ) → covers (xs ++ ys) q ≡ (covers xs q || covers ys q)
covers-append [] ys q = refl
covers-append (x ∷ xs) ys q = let ih = covers-append xs ys q in ground arith

covers-reverse : (xs : List AckRange) (q : ℕ) → covers (reverse xs) q ≡ covers xs q
covers-reverse [] q = refl
covers-reverse (x ∷ xs) q =
    ap (λ l. covers l q) (reverse-cons x xs)
    ∙ (covers-append (reverse xs) (x ∷ []) q ∙ let ih = covers-reverse xs q in ground arith)

-- The loop on a frame with one range.
collect_one :
    (n : ℕ) (r : AckRange) (ps probes : List Packet)
    → IsRising n ps
    → r.smallest ≤ r.largest
    → collect false r.smallest r.largest r [] ps probes ≡ select (covers (r ∷ [])) ps probes
unfolding collect ranges_for
collect_one n r [] probes rising fits = unfold select in refl
collect_one n r (p ∷ ps) probes (from, rising) fits =
    let lo = r.smallest in
    let hi = r.largest in
    let rest =
      λ (probes1 : List Packet). collect_one (p.packet_number + 1) r ps probes1 rising fits in
    elim (Bool-cases (ltb p.packet_number lo)) [
      | inl below_lo ↦
          rw (judge_below lo hi p false r (ltb→lt _ _ below_lo))
            (rest probes ∙ sym (select_not (covers (r ∷ [])) p ps probes (ground arith)))
      | inr not_below ↦
          let above_lo : lo ≤ p.packet_number = ground arith in
          elim (Bool-cases (ltb hi p.packet_number)) [
            | inl above_hi ↦ rw (judge_above lo hi p false r above_lo (ltb→lt _ _ above_hi)) (
                sym (
                  select_none (covers (r ∷ [])) p.packet_number (p ∷ ps) probes
                    (omega arith, rising) (λ q h. let above = ltb→lt _ _ above_hi in ground arith)))
            | inr not_above ↦
                let below_hi : p.packet_number ≤ hi = ground arith in
                rw (judge_in lo hi p false r above_lo below_hi above_lo below_hi) (
                  ap
                    (follow (verdict_on p) p (take_probe (verdict_on p) probes p.packet_number).0
                      probes)
                    (rest (take_probe (verdict_on p) probes p.packet_number).1)
                  ∙ sym (
                      select_held (covers (r ∷ [])) p ps probes
                        (covers_here r [] p.packet_number above_lo below_hi)))
          ]
    ]

abbrev pub is_yes : Result Panic Bool → Bool
is_yes (ok b) = b
is_yes (err e) = false

collect_all :
    (r : AckRange) (rest : List AckRange) (ps probes : List Packet)
    → IsGapped (r ∷ rest)
    → IsRising 0 ps
    → collect_from
        (ltb 1 (length (r ∷ rest)))
        (last_smallest r rest)
        r.largest
        (reverse (r ∷ rest))
        ps
        probes
      ≡ select (covers (r ∷ rest)) ps probes
collect_all r [] ps probes gapped rising = collect_one 0 r ps probes rising gapped.0
collect_all r (s ∷ rest) ps probes gapped rising =
    let (c, (m, (rev, (climbs, (top, low))))) = upward r (s ∷ rest) gapped in
    let several : ltb 1 (length (r ∷ s ∷ rest)) ≡ true = ground arith in
    rw (several, rev)
      (collect-select (covers (r ∷ s ∷ rest)) 0 (last_smallest s rest) r.largest c m ps probes
        climbs (omega arith) (sym top) rising
        (λ q h. sym (covers-reverse (r ∷ s ∷ rest) q) ∙ ap (λ l. covers l q) rev))

-- The bounds that the loop reads off a frame, and what it finds with them.
record IsRead (ack : AckFrame) (ps probes : List Packet) : Type 0 where
  lowest : ℕ
  largest : ℕ
  lowest_is : lowest_acked ack ≡ ok lowest
  largest_is : largest_acked ack ≡ ok largest
  found :
      collect_from (has_missing_ranges ack) lowest largest (reverse ack.ack_ranges) ps probes
      ≡ select (covers ack.ack_ranges) ps probes

length-nonzero : (rs : List AckRange) → rs ≢ [] → (length rs == 0) ≡ false
length-nonzero [] some_range = absurd (some_range refl)
length-nonzero (r ∷ rs) some_range = ground arith

covers_is :
    (ack : AckFrame)
    → ack.ack_ranges ≢ []
    → IsGapped ack.ack_ranges
    → covers ack.ack_ranges ≡ (λ q. is_yes (acks_packet ack q))
covers_is ack some_range gapped =
    fun_ext λ q. rw (acks_packet-covers ack q gapped, length-nonzero ack.ack_ranges some_range) refl

reads :
    (ack : AckFrame) (rs : List AckRange) (ps probes : List Packet)
    → ack.ack_ranges ≡ rs
    → rs ≢ []
    → IsGapped ack.ack_ranges
    → IsRising 0 ps
    → IsRead ack ps probes
reads ack [] ps probes e some_range gapped rising = absurd (some_range refl)
reads ack (r ∷ rest) ps probes e some_range gapped rising = record {
  lowest = last_smallest r rest;
  largest = r.largest;
  lowest_is = unfold lowest_acked in rw e refl;
  largest_is = unfold largest_acked in rw e refl;
  found =
      unfold has_missing_ranges in
      rw e (collect_all r rest ps probes (subst IsGapped e gapped) rising);
}

module _ {C : Type 0} where
  -- In a space that is there, the packets of a tracked history that an ACK frame with at least one range and
  -- its ranges in order acknowledges are exactly those that `AcksPacket` selects, from the lowest up: they are
  -- acknowledged one after the other and handed on. A skipped packet among them is an error, and a path
  -- probe is taken from the path probes, if it is still there.
  pub detect_and_remove_acked_packets-select :
      (h : Sender C) (ack : AckFrame) (level : EncryptionLevel) (space : PacketNumberSpace)
      → get_packet_number_space h level ≡ some space
      → IsTracked space.history
      → ack.ack_ranges ≢ []
      → IsGapped ack.ack_ranges
      → detect_and_remove_acked_packets h ack level ≡ (
          select
            (λ q. is_yes (acks_packet ack q))
            (yielded space.history.packets)
            space.history.path_probe_packets
          >>= λ (acked, probes).
              let history = record space.history { path_probe_packets = probes } in
              acknowledge_all (put_space h level (record space { history = history })) level acked
              >>= λ h1. ok (acked, h1))
  unfolding detect_and_remove_acked_packets
  detect_and_remove_acked_packets-select h ack level space is tracked some_range gapped =
      let read =
        reads ack ack.ack_ranges (yielded space.history.packets) space.history.path_probe_packets
          refl some_range gapped (tracked-IsRising space.history tracked) in
      rw (is, read.lowest_is, read.largest_is, read.found, covers_is ack some_range gapped) refl
