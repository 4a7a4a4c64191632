-- ===== src/AckHandler/Sender/Settled.antt =====
-- Bytes in flight when an ACK frame arrives.
use uquic.Shared.{
  ℕ, ◌+◌, ◌-◌, ◌≡◌, refl, sym, ap, ◌∙◌, subst, ◌≢◌, inl, inr, Bool, true, not, ◌&&◌, Option, some,
  List, [], ◌∷◌, arith, ◌==◌, if◌then◌else◌, if_intro, Bool-cases, Result, ok, err, ◌>>=◌,
}
use uquic.Wire.AckFrame.{AckFrame, AckRange}
use uquic.Wire.AckFrame.Ranges.{IsGapped}
use uquic.Wire.AckFrame.Query.{acks_packet, largest_acked}
use uquic.Wire.Frame.{EncryptionLevel, initial, handshake, zero_rtt, one_rtt}
use uquic.AckHandler.Rtt.{RttStats}
use uquic.AckHandler.Ecn.{EcnTracker}
use uquic.AckHandler.Sent.{Packet, yielded}
use uquic.AckHandler.Sent.State.{IsTracked}
use uquic.AckHandler.Sent.Yield.{tracked-IsRising, tracked-AllFound}
use uquic.AckHandler.Sent.Flight.{charge}
use uquic.AckHandler.Space.{PacketNumberSpace}
use uquic.AckHandler.Sender.{
  SendAlgorithm, Sender, SenderError, is_one_rtt, get_packet_number_space, put_space,
}
use uquic.AckHandler.Sender.Acks.{Collected, acknowledge_all, detect_and_remove_acked_packets}
use uquic.AckHandler.Sender.Covered.{select}
use uquic.AckHandler.Sender.Acked.{is_yes, detect_and_remove_acked_packets-select}
use uquic.AckHandler.Sender.Losses.{is_above, detect_lost_path_probes}
use uquic.AckHandler.Sender.Alarm.{set_loss_detection_timer}
use uquic.AckHandler.Sender.Calls.{
  settle, sample_rtt, inform_ecn, process_acked, after_acked, completes_validation, receive_ack,
  later_of, last_of,
}
use uquic.AckHandler.Sender.Spaces.{
  IsBalanced, get-put, put-bytes, put-total, get-IsFine, put-AllFine,
  remove_from_bytes_in_flight_lem,
}
use uquic.AckHandler.Sender.Flight.{detect_lost_packets-IsBalanced}
use uquic.AckHandler.Sender.Picked.{charges, IsRefusal, IsPicked, select-IsPicked}
use uquic.AckHandler.Sender.Paid.{Leaves, acknowledge_all-Leaves, detect_lost_path_probes-Leaves}

largest_of :
    (ack : AckFrame) (rs : List AckRange)
    → ack.ack_ranges ≡ rs
    → rs ≢ []
    → (l : ℕ) × (largest_acked ack ≡ ok l)
unfolding largest_acked
largest_of ack [] e some_range = absurd (some_range refl)
largest_of ack (r ∷ rest) e some_range = (r.largest, rw e refl)

module _ {C : Type 0} (algorithm : SendAlgorithm C) where
  settle-Leaves :
      (h : Sender C) (owed prior now : ℕ) (ps : List Packet)
      → IsBalanced (charges ps + owed) h
      → Leaves owed (settle algorithm h prior now ps)
  unfolding settle charges
  settle-Leaves h owed prior now [] (fine, balance) = (h, (refl, (fine, omega (arith, balance))))
  settle-Leaves h owed prior now (p ∷ ps) (fine, balance) =
      let h1 : Sender C = record h {
        congestion =
            if p.included_in_bytes_in_flight && not p.declared_lost
            then algorithm.on_packet_acked h.congestion p.packet_number p.length prior now
            else h.congestion;
      } in
      let paid = remove_from_bytes_in_flight_lem h1 p (omega (arith, balance)) in
      let h2 : Sender C = record h1 { bytes_in_flight = h1.bytes_in_flight - charge p } in
      let (h3, (done, balanced3)) =
        settle-Leaves h2 owed prior now ps (fine, omega (arith, balance)) in
      (h3, (ap (λ r. r >>= λ x. settle algorithm x prior now ps) paid ∙ done, balanced3))

  -- The same spaces and bytes in flight.
  abbrev fresh_of : Sender C → RttStats → C → Option EcnTracker → Sender C
  fresh_of h r c t = record h { rtt_stats = r; congestion = c; ecn_tracker = t }

  get-fresh_of :
      (h : Sender C) (r : RttStats) (c : C) (t : Option EcnTracker) (level : EncryptionLevel)
      → get_packet_number_space (fresh_of h r c t) level ≡ get_packet_number_space h level
  get-fresh_of h r c t initial = refl
  get-fresh_of h r c t handshake = refl
  get-fresh_of h r c t zero_rtt = refl
  get-fresh_of h r c t one_rtt = refl

  sample_rtt-fresh :
      (f g : ℕ → ℕ → ℕ) (h : Sender C) (ack : AckFrame) (level : EncryptionLevel) (now largest : ℕ)
      (last : Packet)
      → (r : RttStats) × ((c : C) × (sample_rtt algorithm f g h ack level now largest last
            ≡ fresh_of h r c h.ecn_tracker))
  unfolding sample_rtt
  sample_rtt-fresh f g h ack level now largest last =
      if_intro (λ x. (r : RttStats) × ((c : C) × (x ≡ fresh_of h r c h.ecn_tracker)))
        (last.packet_number == largest && not last.is_path_probe_packet) (_, (_, refl))
        (h.rtt_stats, (h.congestion, refl))

  inform_ecn-fresh :
      (h : Sender C) (ack : AckFrame) (level : EncryptionLevel) (space : PacketNumberSpace)
      (largest prior : ℕ) (acked : List Packet)
      → (c : C) × ((t : Option EcnTracker) × (inform_ecn algorithm h ack level space largest prior
              acked
            ≡ fresh_of h h.rtt_stats c t))
  unfolding inform_ecn
  inform_ecn-fresh h ack level space largest prior acked = (_, (_, refl))

  put-IsBalanced :
      (h : Sender C) (level : EncryptionLevel) (owed : ℕ) (space : PacketNumberSpace)
      (largest : Option ℕ)
      → IsBalanced owed h
      → get_packet_number_space h level ≡ some space
      → IsBalanced owed (put_space h level (record space { largest_acked = largest }))
  put-IsBalanced h level owed space largest (fine, balance) is =
      let space' = record space { largest_acked = largest } in
      (
        put-AllFine h level space' fine (get-IsFine h level space is fine),
        omega (arith, put-bytes h level space', put-total h level space space' is, balance),
      )

  probes-Leaves :
      (level : EncryptionLevel) (h : Sender C) (owed now : ℕ)
      → IsBalanced owed h
      → Leaves owed (if is_one_rtt level then detect_lost_path_probes h now else ok h)
  probes-Leaves level h owed now balanced =
      if_intro (Leaves owed) (is_one_rtt level) (detect_lost_path_probes-Leaves h owed now balanced)
        (h, (refl, balanced))

  abbrev pub Answers : Result SenderError (Bool × Sender C) → Type 0
  Answers (ok (one, h')) = IsBalanced 0 h'
  Answers (err e) = IsRefusal e

  process_acked-Answers :
      (f g : ℕ → ℕ → ℕ) (h : Sender C) (ack : AckFrame) (level : EncryptionLevel)
      (now largest prior : ℕ) (p : Packet) (ps : List Packet) (space : PacketNumberSpace)
      → IsBalanced (charges (p ∷ ps) + 0) h
      → get_packet_number_space h level ≡ some space
      → Answers (process_acked algorithm f g h ack level now largest prior p ps)
  unfolding process_acked set_loss_detection_timer
  process_acked-Answers f g h ack level now largest prior p ps space balanced is =
      let (r, (c, sampled)) = sample_rtt-fresh f g h ack level now largest (last_of p ps) in
      let owed = charges (p ∷ ps) + 0 in
      let h1 = sample_rtt algorithm f g h ack level now largest (last_of p ps) in
      let balanced1 : IsBalanced owed h1 = subst (IsBalanced owed) (sym sampled) balanced in
      let is1 : get_packet_number_space h1 level ≡ some space =
        ap (λ x. get_packet_number_space x level) sampled
        ∙ (get-fresh_of h r c h.ecn_tracker level ∙ is) in
      let (c2, (t2, informed)) = inform_ecn-fresh h1 ack level space largest prior (p ∷ ps) in
      let h2 = inform_ecn algorithm h1 ack level space largest prior (p ∷ ps) in
      let balanced2 : IsBalanced owed h2 = subst (IsBalanced owed) (sym informed) balanced1 in
      let is2 : get_packet_number_space h2 level ≡ some space =
        ap (λ x. get_packet_number_space x level) informed
        ∙ (get-fresh_of h1 h1.rtt_stats c2 t2 level ∙ is1) in
      let space3 = record space { largest_acked = later_of space.largest_acked largest } in
      let balanced3 =
        put-IsBalanced h2 level owed space (later_of space.largest_acked largest) balanced2 is2 in
      let (h4, (done4, balanced4)) =
        detect_lost_packets-IsBalanced algorithm owed (put_space h2 level space3) now level space3
          balanced3 (get-put h2 level space3) in
      let (h5, (done5, balanced5)) = probes-Leaves level h4 owed now balanced4 in
      let (h6, (done6, balanced6)) = settle-Leaves h5 0 prior now (p ∷ ps) balanced5 in
      rw (is1, done4, done5, done6) balanced6

  after_acked-Answers :
      (f g : ℕ → ℕ → ℕ) (h : Sender C) (ack : AckFrame) (level : EncryptionLevel)
      (now largest prior : ℕ) (ps : List Packet) (space : PacketNumberSpace)
      → IsBalanced (charges ps + 0) h
      → get_packet_number_space h level ≡ some space
      → Answers (after_acked algorithm f g ack level now largest prior ps h)
  unfolding charges
  after_acked-Answers f g h ack level now largest prior [] space (fine, balance) is =
      (fine, omega (arith, balance))
  after_acked-Answers f g h ack level now largest prior (p ∷ ps) space balanced is =
      process_acked-Answers f g h ack level now largest prior p ps space balanced is

  -- From the packets selected on.
  picked-Answers :
      (f g : ℕ → ℕ → ℕ) (h : Sender C) (ack : AckFrame) (level : EncryptionLevel)
      (now largest prior n : ℕ) (space : PacketNumberSpace) (picked : Collected)
      → IsBalanced 0 h
      → get_packet_number_space h level ≡ some space
      → IsPicked n space.history.packets picked
      → Answers (
          ◌>>=◌ {B = List Packet × Sender C} picked (λ (acked, probes).
            let history = record space.history { path_probe_packets = probes } in
            acknowledge_all (put_space h level (record space { history = history })) level acked
            >>= λ h1. ok (acked, h1))
          >>= λ (acked, h2). after_acked algorithm f g ack level now largest prior acked h2)
  picked-Answers f g h ack level now largest prior n space (err e) balanced is refused = refused
  picked-Answers f g h ack level now largest prior n space (ok (acked, probes)) (fine, balance) is
        (rising, (all_owed, left)) =
      let history = record space.history { path_probe_packets = probes } in
      let space1 = record space { history = history } in
      let (tracked, (sent, old)) = get-IsFine h level space is fine in
      let tracked1 : IsTracked history = record {
        numbered = tracked.numbered;
        counted = tracked.counted;
        starts = tracked.starts;
      } in
      let h1 = put_space h level space1 in
      let balanced1 : IsBalanced 0 h1 = (
        put-AllFine h level space1 fine (tracked1, (sent, left)),
        omega (arith, put-bytes h level space1, put-total h level space space1 is, balance),
      ) in
      let (h2, (space2, (done, (balanced2, is2)))) =
        acknowledge_all-Leaves h1 level 0 n space1 acked balanced1 (get-put h level space1) rising
          all_owed in
      rw done (after_acked-Answers f g h2 ack level now largest prior acked space2 balanced2 is2)

  detected-Answers :
      (f g : ℕ → ℕ → ℕ) (h : Sender C) (ack : AckFrame) (level : EncryptionLevel)
      (now largest prior : ℕ) (space : PacketNumberSpace)
      → IsBalanced 0 h
      → get_packet_number_space h level ≡ some space
      → ack.ack_ranges ≢ []
      → IsGapped ack.ack_ranges
      → Answers (
          detect_and_remove_acked_packets h ack level >>= λ (acked, h2).
          after_acked algorithm f g ack level now largest prior acked h2)
  detected-Answers f g h ack level now largest prior space balanced is some_range gapped =
      let (tracked, (sent, probes)) = get-IsFine h level space is balanced.0 in
      rw (detect_and_remove_acked_packets-select h ack level space is tracked some_range gapped) (
        picked-Answers f g h ack level now largest prior 0 space
          (select (λ q. is_yes (acks_packet ack q)) (yielded space.history.packets)
            space.history.path_probe_packets)
          balanced is
          (select-IsPicked (λ q. is_yes (acks_packet ack q)) 0 space.history.packets
            (yielded space.history.packets) space.history.path_probe_packets
            (tracked-IsRising space.history tracked) (tracked-AllFound space.history tracked) sent
            probes))

  -- The spaces stay when the alarm is set.
  abbrev alarmed : Sender C → ℕ → Sender C
  alarmed h now =
      set_loss_detection_timer (record h { peer_completed_address_validation = true }) now

  get-alarmed :
      (h : Sender C) (now : ℕ) (level : EncryptionLevel)
      → get_packet_number_space (alarmed h now) level ≡ get_packet_number_space h level
  unfolding set_loss_detection_timer
  get-alarmed h now initial = refl
  get-alarmed h now handshake = refl
  get-alarmed h now zero_rtt = refl
  get-alarmed h now one_rtt = refl

  -- An ACK frame with at least one range and its ranges in order, for a space that is there, on a sender whose
  -- histories are tracked and hold packets and path probes as they are sent, and whose bytes in flight are the
  -- sum of the packets in them that count: it is refused, for acknowledging a packet that was not sent or one
  -- that was skipped, or it gives such a sender again. It does not panic.
  pub receive_ack-Answers :
      (f g : ℕ → ℕ → ℕ) (h : Sender C) (ack : AckFrame) (level : EncryptionLevel) (now : ℕ)
      (space : PacketNumberSpace)
      → IsBalanced 0 h
      → get_packet_number_space h level ≡ some space
      → ack.ack_ranges ≢ []
      → IsGapped ack.ack_ranges
      → Answers (receive_ack algorithm f g h ack level now)
  unfolding receive_ack set_loss_detection_timer
  receive_ack-Answers f g h ack level now space balanced is some_range gapped =
      let (largest, largest_is) = largest_of ack ack.ack_ranges refl some_range in
      let detected =
        λ (x : Sender C) (b : IsBalanced 0 x) (e : get_packet_number_space x level ≡ some space).
          detected-Answers f g x ack level now largest h.bytes_in_flight space b e some_range
            gapped in
      rw (is, largest_is)
        (elim (Bool-cases (is_above largest space.largest_sent)) [
          | inl unsent ↦ rw unsent (inl refl)
          | inr known ↦ rw known (
              if_intro
                (λ x. Answers (
                  detect_and_remove_acked_packets x ack level >>= λ (acked, h2).
                  after_acked algorithm f g ack level now largest h.bytes_in_flight acked h2))
                (completes_validation algorithm h level)
                (detected (alarmed h now) balanced (get-alarmed h now level ∙ is))
                (detected h balanced is))
        ])
