-- ===== src/AckHandler/Sender/Flight.antt =====
-- Bytes in flight when packets are declared lost.
use uquic.Shared.{
  ℕ, ◌+◌, ◌-◌, ◌≤◌, ◌<◌, ◌≡◌, refl, sym, ap, ◌∙◌, subst, inl, inr, false, Option, some, List, [],
  ◌∷◌, ◌++◌, arith, ◌==◌, if◌then◌else◌, if_intro, Result, ok, ◌>>=◌,
}
use uquic.Wire.Frame.{EncryptionLevel}
use uquic.AckHandler.Ecn.{EcnTracker}
use uquic.AckHandler.Sent.{Packet, SentHistory, yielded}
use uquic.AckHandler.Sent.Entries.{lookup}
use uquic.AckHandler.Sent.Calls.{Forgets}
use uquic.AckHandler.Sent.Yield.{IsRising, AllFound, tracked-IsRising, tracked-AllFound}
use uquic.AckHandler.Sent.Flight.{
  charge, AllProbes, AllSent-at, charge-le, is_empty_frames, declare_lost-LosesOne,
}
use uquic.AckHandler.Space.{PacketNumberSpace}
use uquic.AckHandler.Sender.{
  SendAlgorithm, Sender, SenderError, Notice, on_lost, notices_of, get_packet_number_space,
  put_space, queue_frames_for_retransmission,
}
use uquic.AckHandler.Sender.Losses.{
  tell_ecn, is_lost, is_above, lose_regular, lose, consider, consider_all, detect_lost_packets,
  loss_delay_of,
}
use uquic.AckHandler.Sender.Spaces.{
  IsBalanced, get-put, put-bytes, rest_of, get-rest_of, put-total, get-IsFine, put-AllFine,
  flight-le, remove_from_bytes_in_flight_lem,
}

pub Forgets-AllFound :
    (pn n : ℕ) (h h' : SentHistory) (ps : List Packet)
    → Forgets pn h h'
    → pn < n
    → IsRising n ps
    → AllFound h.packets ps
    → AllFound h'.packets ps
Forgets-AllFound pn n h h' [] forgets below rising found = tt
Forgets-AllFound pn n h h' (p ∷ ps) forgets below (from, rising) (first, found) = (
  elim (forgets.1 p.packet_number) [
    | inl same ↦ absurd (omega arith)
    | inr (inl kept) ↦ kept ∙ first
    | inr (inr skipped) ↦ absurd (omega (arith, skipped.0))
  ],
  Forgets-AllFound pn (p.packet_number + 1) h h' ps forgets (omega arith) rising found,
)

module _ {C : Type 0} (algorithm : SendAlgorithm C) (owed : ℕ) where
  lose_regular_lem :
      (h : Sender C) (level : EncryptionLevel) (prior : ℕ) (p : Packet)
      → charge p ≤ h.bytes_in_flight
      → is_empty_frames p ≡ false
      → (c : C) × ((t : Option EcnTracker) × ((ns : List Notice) × (lose_regular algorithm h level
                prior p
              ≡ ok (rest_of h (h.bytes_in_flight - charge p) c t ns))))
  unfolding lose_regular queue_frames_for_retransmission
  lose_regular_lem h level prior p enough frames =
      let c =
        if p.is_path_mtu_probe_packet
        then h.congestion
        else algorithm.on_congestion_event h.congestion p.packet_number p.length prior in
      (
        c,
        (
          tell_ecn level p.packet_number h.ecn_tracker,
          (
            h.notices ++ notices_of on_lost p,
            rw (remove_from_bytes_in_flight_lem h p enough, frames) refl,
          ),
        ),
      )

  -- What is kept of packets with higher numbers.
  abbrev KeepsAbove : ℕ → PacketNumberSpace → PacketNumberSpace → Type 0
  KeepsAbove n space space' =
      (ps : List Packet)
      → IsRising n ps
      → AllFound space.history.packets ps
      → AllFound space'.history.packets ps

  abbrev StaysBalanced :
      EncryptionLevel → ℕ → PacketNumberSpace → Result SenderError (Sender C) → Type 0
  StaysBalanced level n space r =
      (h' : Sender C) × ((space' : PacketNumberSpace) × ((r ≡ ok h')
          × (IsBalanced owed h'
              × ((get_packet_number_space h' level ≡ some space') × KeepsAbove n space space'))))

  timed-IsBalanced :
      (h : Sender C) (level : EncryptionLevel) (space : PacketNumberSpace) (time : ℕ)
      → IsBalanced owed h
      → get_packet_number_space h level ≡ some space
      → IsBalanced owed (put_space h level (record space { loss_time = time }))
  timed-IsBalanced h level space time (fine, balance) is =
      let space' = record space { loss_time = time } in
      (
        put-AllFine h level space' fine (get-IsFine h level space is fine),
        omega (arith, put-bytes h level space', put-total h level space space' is, balance),
      )

  timed-StaysBalanced :
      (h : Sender C) (level : EncryptionLevel) (space : PacketNumberSpace) (time n : ℕ)
      → IsBalanced owed h
      → get_packet_number_space h level ≡ some space
      → StaysBalanced level n space (ok (put_space h level (record space { loss_time = time })))
  timed-StaysBalanced h level space time n balanced is =
      let space' = record space { loss_time = time } in
      (
        put_space h level space',
        (
          space',
          (
            refl,
            (
              timed-IsBalanced h level space time balanced is,
              (get-put h level space', λ ps rising kept. kept),
            ),
          ),
        ),
      )

  lose-StaysBalanced :
      (h : Sender C) (level : EncryptionLevel) (prior : ℕ) (space : PacketNumberSpace) (p : Packet)
      → IsBalanced owed h
      → get_packet_number_space h level ≡ some space
      → lookup space.history.packets p.packet_number ≡ some p
      → StaysBalanced level (p.packet_number + 1) space (lose algorithm h level prior space p)
  unfolding lose
  lose-StaysBalanced h level prior space p (fine, balance) is found =
      let (tracked, (sent, probes)) = get-IsFine h level space is fine in
      let (history, (lost, (tracked', (forgets, less)))) =
        declare_lost-LosesOne space.history p.packet_number p tracked found in
      let space' = record space { history = history } in
      let h1 = put_space h level space' in
      let fine1 =
        put-AllFine h level space' fine
          (tracked', (less.1.0 sent, subst AllProbes (sym less.1.1) probes)) in
      let bytes = put-bytes h level space' in
      let sum = put-total h level space space' is in
      let below = charge-le space.history.packets p.packet_number p found in
      let whole = flight-le h level space is in
      let above : KeepsAbove (p.packet_number + 1) space space' = λ ps rising.
        Forgets-AllFound p.packet_number (p.packet_number + 1) space.history history ps forgets
          (omega arith) rising in
      elim (AllSent-at space.history.packets p.packet_number p sent found) [
        | inl (regular, frames) ↦
            let (c, (t, (ns, done))) =
              lose_regular_lem h1 level prior p (omega (arith, bytes, below, whole, balance))
                frames in
            (
              rest_of h1 (h1.bytes_in_flight - charge p) c t ns,
              (
                space',
                (
                  rw (lost, regular) done,
                  (
                    (fine1, omega (arith, bytes, sum, below, less.0, balance)),
                    (
                      get-rest_of h1 (h1.bytes_in_flight - charge p) c t ns level
                          ∙ get-put h level space',
                      above,
                    ),
                  ),
                ),
              ),
            )
        | inr (irregular, free) ↦ (
          h1,
          (
            space',
            (
              rw (lost, irregular) refl,
              (
                (fine1, omega (arith, bytes, sum, free, less.0, balance)),
                (get-put h level space', above),
              ),
            ),
          ),
        )
      ]

  consider-StaysBalanced :
      (h : Sender C) (level : EncryptionLevel) (now delay prior : ℕ) (space : PacketNumberSpace)
      (p : Packet)
      → IsBalanced owed h
      → get_packet_number_space h level ≡ some space
      → lookup space.history.packets p.packet_number ≡ some p
      → StaysBalanced level
          (p.packet_number + 1)
          space
          (consider algorithm h level now delay prior space p)
  unfolding consider
  consider-StaysBalanced h level now delay prior space p balanced is found =
      if_intro (StaysBalanced level (p.packet_number + 1) space)
        (is_lost (now - delay) space.largest_acked p)
        (lose-StaysBalanced h level prior space p balanced is found)
        (if_intro (StaysBalanced level (p.packet_number + 1) space) (space.loss_time == 0)
          (timed-StaysBalanced h level space (p.send_time + delay) (p.packet_number + 1) balanced
            is)
          (h, (space, (refl, (balanced, (is, λ ps rising kept. kept))))))

  consider_all-IsBalanced :
      (h : Sender C) (level : EncryptionLevel) (now delay prior : ℕ) (space : PacketNumberSpace)
      (n : ℕ) (ps : List Packet)
      → IsBalanced owed h
      → get_packet_number_space h level ≡ some space
      → IsRising n ps
      → AllFound space.history.packets ps
      → (h' : Sender C) × ((consider_all algorithm h level now delay prior ps ≡ ok h')
          × IsBalanced owed h')
  unfolding consider_all
  consider_all-IsBalanced h level now delay prior space n [] balanced is rising found =
      (h, (refl, balanced))
  consider_all-IsBalanced h level now delay prior space n (p ∷ ps) balanced is (from, rising)
        (first, found) =
      let (h1, (space1, (done, (balanced1, (is1, keeps))))) =
        consider-StaysBalanced h level now delay prior space p balanced is first in
      let (h2, (done2, balanced2)) =
        consider_all-IsBalanced h1 level now delay prior space1 (p.packet_number + 1) ps balanced1
          is1 rising (keeps ps rising found) in
      rw is (
        if_intro (λ r. (h' : Sender C) × ((r ≡ ok h') × IsBalanced owed h'))
          (is_above p.packet_number space.largest_acked) (h, (refl, balanced))
          (
            h2,
            (
              ap (λ r. r >>= λ x. consider_all algorithm x level now delay prior ps) done ∙ done2,
              balanced2,
            ),
          ))

  -- Detecting lost packets in a space that is there, from a sender whose histories are tracked and hold packets
  -- as they are sent, and whose bytes in flight are the sum of the packets in them that count and of a
  -- number owed, does not panic and gives such a sender again, with the same number owed.
  pub detect_lost_packets-IsBalanced :
      (h : Sender C) (now : ℕ) (level : EncryptionLevel) (space : PacketNumberSpace)
      → IsBalanced owed h
      → get_packet_number_space h level ≡ some space
      → (h' : Sender C) × ((detect_lost_packets algorithm h now level ≡ ok h') × IsBalanced owed h')
  unfolding detect_lost_packets
  detect_lost_packets-IsBalanced h now level space balanced is =
      let space1 = record space { loss_time = 0 } in
      let tracked = (get-IsFine h level space is balanced.0).0 in
      rw is (
        consider_all-IsBalanced (put_space h level space1) level now (loss_delay_of h.rtt_stats)
          h.bytes_in_flight space1 0 (yielded space.history.packets)
          (timed-IsBalanced h level space 0 balanced is) (get-put h level space1)
          (tracked-IsRising space.history tracked) (tracked-AllFound space.history tracked))
