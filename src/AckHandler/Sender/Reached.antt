-- ===== src/AckHandler/Sender/Reached.antt =====
-- What a sender goes through: packet numbers are popped, and skipped, packets are sent, ACK frames arrive, the
-- alarm goes off, probe packets are queued, spaces are dropped, and the path changes.
use uquic.Shared.{
  ℕ, ◌≡◌, refl, ◌≢◌, ◌⊎◌, inl, inr, Bool, true, List, [], ◌∷◌, if_intro, Option-cases, Ensures,
  Ensures-ok, Result, ok, err,
}
use uquic.Wire.AckFrame.{AckFrame}
use uquic.Wire.AckFrame.Query.{largest_acked}
use uquic.Wire.AckFrame.Ranges.{IsGapped}
use uquic.Wire.Frame.{EncryptionLevel}
use uquic.Protocol.StreamId.{Perspective}
use uquic.AckHandler.Rtt.{RttStats}
use uquic.AckHandler.Tracker.{Ecn}
use uquic.AckHandler.Sent.Entries.{tally}
use uquic.AckHandler.Sent.State.{IsTracked}
use uquic.AckHandler.Sent.Flight.{AllHandled, flight}
use uquic.AckHandler.Sent.{new_sent_packet_history}
use uquic.AckHandler.Space.{new_packet_number_space}
use uquic.AckHandler.Sender.{SendAlgorithm, Sender, SenderError, get_packet_number_space}
use uquic.AckHandler.Sender.Alarm.{set_loss_detection_timer}
use uquic.AckHandler.Sender.Calls.{
  SentInfo, send_packet, receive_ack, received_bytes, received_packet_at,
}
use uquic.AckHandler.Sender.Control.{
  pop_number, on_loss_detection_timeout, queue_probe_packet, drop_packets, ecn_mode,
  set_max_datagram_size,
}
use uquic.AckHandler.Sender.Restart.{new_sent_packet_handler, migrated_path, reset_for_retry}
use uquic.AckHandler.Sender.Spaces.{IsBalanced, flight_of}
use uquic.AckHandler.Sender.Settled.{Answers, receive_ack-Answers}
use uquic.AckHandler.Sender.Kept.{send_packet-Keeps, pop_number-Keeps}
use uquic.AckHandler.Sender.TimedOut.{on_loss_detection_timeout-Keeps, queue_probe_packet-Keeps}
use uquic.AckHandler.Sender.Dropped.{drop_packets-Keeps}
use uquic.AckHandler.Sender.Restarted.{migrated_path-Keeps, reset_for_retry-Keeps}

List-cases : {A : Type 0} (xs : List A) → (xs ≡ []) ⊎ (xs ≢ [])
List-cases [] = inl refl
List-cases (x ∷ xs) = inr (λ e. absurd (cc e))

module _ {C : Type 0} (algorithm : SendAlgorithm C) (f g : ℕ → ℕ → ℕ) where
  -- A call on the handler that succeeds, of any of its operations that change the state: from
  -- PopPacketNumber, which may skip a number, to MigratedPath. `drawn` is what the packet number generator
  -- draws. The frames of a path probe have handlers, the ranges of an ACK frame are in order, as those of every
  -- frame that is parsed, and when a Retry comes nothing of the handshake space is in flight.
  pub data Step (h : Sender C) : Sender C → Type 0 where
    pops :
        (level : EncryptionLevel) (drawn pn : ℕ) {h' : Sender C}
        → pop_number h level drawn ≡ ok (pn, h')
        → Step h h'
    sends :
        (level : EncryptionLevel) (i : SentInfo) {h' : Sender C}
        → (i.is_path_probe_packet ≡ true → AllHandled i.frames)
        → send_packet algorithm h level i ≡ ok h'
        → Step h h'
    acks :
        (ack : AckFrame) (level : EncryptionLevel) (now : ℕ) (one : Bool) {h' : Sender C}
        → IsGapped ack.ack_ranges
        → receive_ack algorithm f g h ack level now ≡ ok (one, h')
        → Step h h'
    times_out :
        (now drawn : ℕ) {h' : Sender C}
        → on_loss_detection_timeout algorithm h now drawn ≡ ok h'
        → Step h h'
    probes :
        (level : EncryptionLevel) (found : Bool) {h' : Sender C}
        → queue_probe_packet h level ≡ ok (found, h')
        → Step h h'
    drops :
        (level : EncryptionLevel) (now : ℕ) {h' : Sender C}
        → drop_packets h level now ≡ ok h'
        → Step h h'
    marks :
        (is_short_header_packet : Bool) (ecn : Ecn) {h' : Sender C}
        → ecn_mode h is_short_header_packet ≡ ok (ecn, h')
        → Step h h'
    resizes : (size : ℕ) → Step h (set_max_datagram_size algorithm h size)
    migrates :
        (now size : ℕ) {h' : Sender C} → migrated_path algorithm h now size ≡ ok h' → Step h h'
    retries :
        (now drawn : ℕ) {h' : Sender C}
        → flight_of h.handshake_packets ≡ 0
        → reset_for_retry f g h now drawn ≡ ok h'
        → Step h h'
    gets_bytes : (n now : ℕ) → Step h (received_bytes h n now)
    gets_packet : (level : EncryptionLevel) (now : ℕ) → Step h (received_packet_at h level now)

  pub data Reaches (start : Sender C) : Sender C → Type 0 where
    here : Reaches start start
    later : {s t : Sender C} → Reaches start s → Step s t → Reaches start t

  Answers-Ensures :
      (r : Result SenderError (Bool × Sender C))
      → Answers algorithm r
      → Ensures (λ (x : Bool × Sender C). IsBalanced 0 x.1) r
  Answers-Ensures (ok (one, h')) balanced = balanced
  Answers-Ensures (err e) refused = tt

  -- An ACK frame without ranges panics, and one for a space that was dropped does too.
  receive_ack-Ensures :
      (h : Sender C) (ack : AckFrame) (level : EncryptionLevel) (now : ℕ)
      → IsBalanced 0 h
      → IsGapped ack.ack_ranges
      → Ensures
          (λ (r : Bool × Sender C). IsBalanced 0 r.1)
          (receive_ack algorithm f g h ack level now)
  receive_ack-Ensures h ack level now balanced gapped =
      elim (Option-cases (get_packet_number_space h level)) [
        | inl gone ↦ unfold receive_ack in rw gone tt
        | inr (space, at) ↦ elim (List-cases ack.ack_ranges) [
          | inl nothing ↦ unfold receive_ack largest_acked in rw (at, nothing) tt
          | inr some_range ↦ Answers-Ensures (receive_ack algorithm f g h ack level now) (
              receive_ack-Answers algorithm f g h ack level now space balanced at some_range gapped)
        ]
      ]

  ecn_mode-Ensures :
      (h : Sender C) (is_short_header_packet : Bool)
      → IsBalanced 0 h
      → Ensures (λ (r : Ecn × Sender C). IsBalanced 0 r.1) (ecn_mode h is_short_header_packet)
  unfolding ecn_mode
  ecn_mode-Ensures h is_short_header_packet balanced = elim (Option-cases h.ecn_tracker) [
    | inl nothing ↦ rw nothing balanced
    | inr (e, enabled) ↦ rw enabled (
        if_intro (Ensures (λ (r : Ecn × Sender C). IsBalanced 0 r.1)) is_short_header_packet
          balanced balanced)
  ]

  Step-IsBalanced : (h h' : Sender C) → Step h h' → IsBalanced 0 h → IsBalanced 0 h'
  unfolding received_bytes received_packet_at set_max_datagram_size set_loss_detection_timer
  Step-IsBalanced h h' (pops level drawn pn is) balanced =
      Ensures-ok (λ (r : ℕ × Sender C). IsBalanced 0 r.1) (pop_number h level drawn) (pn, h')
        (pop_number-Keeps algorithm h level drawn balanced) is
  Step-IsBalanced h h' (sends level i handled is) balanced =
      Ensures-ok (IsBalanced 0) (send_packet algorithm h level i) h'
        (send_packet-Keeps algorithm h level i balanced handled) is
  Step-IsBalanced h h' (acks ack level now one gapped is) balanced =
      Ensures-ok (λ (r : Bool × Sender C). IsBalanced 0 r.1)
        (receive_ack algorithm f g h ack level now) (one, h')
        (receive_ack-Ensures h ack level now balanced gapped) is
  Step-IsBalanced h h' (times_out now drawn is) balanced =
      Ensures-ok (IsBalanced 0) (on_loss_detection_timeout algorithm h now drawn) h'
        (on_loss_detection_timeout-Keeps algorithm h now drawn balanced) is
  Step-IsBalanced h h' (probes level found is) balanced =
      Ensures-ok (λ (r : Bool × Sender C). IsBalanced 0 r.1) (queue_probe_packet h level)
        (found, h') (queue_probe_packet-Keeps h level balanced) is
  Step-IsBalanced h h' (drops level now is) balanced =
      Ensures-ok (IsBalanced 0) (drop_packets h level now) h'
        (drop_packets-Keeps h level now balanced) is
  Step-IsBalanced h h' (marks is_short_header_packet ecn is) balanced =
      Ensures-ok (λ (r : Ecn × Sender C). IsBalanced 0 r.1) (ecn_mode h is_short_header_packet)
        (ecn, h') (ecn_mode-Ensures h is_short_header_packet balanced) is
  Step-IsBalanced h _ (resizes size) balanced = balanced
  Step-IsBalanced h h' (migrates now size is) balanced =
      Ensures-ok (IsBalanced 0) (migrated_path algorithm h now size) h'
        (migrated_path-Keeps algorithm h now size balanced) is
  Step-IsBalanced h h' (retries now drawn quiet is) balanced =
      Ensures-ok (IsBalanced 0) (reset_for_retry f g h now drawn) h'
        (reset_for_retry-Keeps f g h now drawn balanced quiet) is
  Step-IsBalanced h _ (gets_bytes n now) balanced = if_intro (IsBalanced 0) _ balanced balanced
  Step-IsBalanced h _ (gets_packet level now) balanced = if_intro (IsBalanced 0) _ balanced balanced

  new_sent_packet_handler-IsBalanced :
      (pn size : ℕ) (rtt : RttStats) (validated ecn : Bool) (pers : Perspective) (drawn : ℕ)
      → IsBalanced 0 (new_sent_packet_handler algorithm pn size rtt validated ecn pers drawn)
  unfolding new_sent_packet_handler new_packet_number_space new_sent_packet_history tally flight
  new_sent_packet_handler-IsBalanced pn size rtt validated ecn pers drawn =
      let empty : IsTracked new_sent_packet_history = record {
        numbered = refl;
        counted = refl;
        starts = refl;
      } in
      (((empty, (tt, tt)), ((empty, (tt, tt)), (empty, (tt, tt)))), refl)

  Reaches-IsBalanced_from :
      (start h : Sender C) → IsBalanced 0 start → Reaches start h → IsBalanced 0 h
  Reaches-IsBalanced_from start _ balanced here = balanced
  Reaches-IsBalanced_from start _ balanced (later {s} {t} so_far step) =
      Step-IsBalanced s t step (Reaches-IsBalanced_from start s balanced so_far)

  -- Whatever calls of PopPacketNumber, SentPacket, ReceivedAck, OnLossDetectionTimeout, QueueProbePacket,
  -- DropPackets, ECNMode, SetMaxDatagramSize, MigratedPath, ResetForRetry, ReceivedBytes and ReceivedPacket
  -- succeed one after another on a new handler, at any levels and with any packet numbers skipped, all
  -- histories stay tracked, and bytes in flight are the sum of the packets in them that count: if the frames of
  -- path probes have handlers, the ranges of ACK frames are in order, and nothing of the handshake
  -- space is in flight when a Retry comes.
  pub Reaches-IsBalanced :
      (pn size : ℕ) (rtt : RttStats) (validated ecn : Bool) (pers : Perspective) (drawn : ℕ)
      (h : Sender C)
      → Reaches (new_sent_packet_handler algorithm pn size rtt validated ecn pers drawn) h
      → IsBalanced 0 h
  Reaches-IsBalanced pn size rtt validated ecn pers drawn h reached =
      Reaches-IsBalanced_from
        (new_sent_packet_handler algorithm pn size rtt validated ecn pers drawn) h
        (new_sent_packet_handler-IsBalanced pn size rtt validated ecn pers drawn) reached
