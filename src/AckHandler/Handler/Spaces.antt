-- ===== src/AckHandler/Handler/Spaces.antt =====
-- The handler of received packets against its trackers.
use uquic.Shared.{
  ℕ, ◌≤◌, ◌<◌, ◌≡◌, refl, sym, ap, ◌∙◌, subst, inl, inr, true, false, Option, none, some, List,
  arith, Bool-cases, Result, ok, err, Panic, panic, ◌>>=◌,
}
use uquic.AckHandler.History
use uquic.AckHandler.History.{History, max_num_ack_ranges, add_to_ranges}
use uquic.AckHandler.History.State.{holds, received_packet_sound}
use uquic.Wire.AckFrame.{AckFrame, append_ack_frame}
use uquic.Wire.Frame.{one_rtt}
use uquic.AckHandler.Tracker.{
  Ecn, Tracker, TrackerError, AppTracker, track_packet, observe, track_app_packet,
  ignore_packets_below,
}
use uquic.AckHandler.Tracker.Queue.{
  IsConsistent, track_app_packet-IsElicited, track_app_packet-IsConsistent, track_packet_lem,
  observe_lem,
}
use uquic.AckHandler.Tracker.Acks.{take_app_ack-ignore_packets_below}
use uquic.AckHandler.Handler.{
  Handler, lower, receive_app_data, ignore_confirmed, receive_packet, get_ack_frame,
}

deleted_below-received_packet :
    (h : History) (p : ℕ) → (History.received_packet h p).0.deleted_below ≡ h.deleted_below
unfolding History.received_packet add_to_ranges
deleted_below-received_packet h p = ground arith

ignore_below-observe :
    (h : AppTracker) (pn rcv : ℕ) → (observe h pn rcv).ignore_below ≡ h.ignore_below
unfolding observe
ignore_below-observe h pn rcv = ground arith

-- The two steps of a 1-RTT packet that is accepted.
receive_one_rtt :
    (h : Handler) (r : Result Panic (Option TrackerError × AppTracker)) (lowest : ℕ) (h' : Handler)
    → ((r >>= λ x. ok (x.0, record h { app_data_packets = x.1 })) >>= λ x.
        ok (ignore_confirmed lowest x))
      ≡ ok (none, h')
    → (app : AppTracker) × (r ≡ ok (none, app))
      × (h'.app_data_packets ≡ ignore_packets_below app lowest)
unfolding ignore_confirmed
receive_one_rtt h (ok (none, app)) lowest h' e = (app, refl, cc)
receive_one_rtt h (ok (some x, app)) lowest h' e = absurd (cc)
receive_one_rtt h (err x) lowest h' e = absurd (cc)

-- A 1-RTT packet that is ack-eliciting, accepted, and below the packets whose ACKs the peer has
-- confirmed, which the consistent tracker did not ignore up to there yet, as it can be if the packet
-- carries that confirmation itself: if the history holds nothing from there on and has not deleted past
-- it, the handler has an ACK frame to send, and writing the frame panics.
pub get_ack_frame-receive_packet :
    (h : Handler) (pn : ℕ) (ecn : Ecn) (rcv lowest : ℕ) (h' : Handler) (now : ℕ) (b : List ℕ)
    → IsConsistent h.app_data_packets
    → h.app_data_packets.ignore_below < lowest
    → h.app_data_packets.base.packet_history.deleted_below ≤ lowest
    → pn < lowest
    → ((q : ℕ) → lowest ≤ q → holds h.app_data_packets.base.packet_history q ≡ false)
    → receive_packet h pn ecn one_rtt rcv true lowest ≡ ok (none, h')
    → (ack : AckFrame) × ((get_ack_frame h' one_rtt now false).0 ≡ some ack)
      × (append_ack_frame b ack ≡ err panic)
unfolding receive_packet receive_app_data get_ack_frame
get_ack_frame-receive_packet h pn ecn rcv lowest h' now b c above del low all e =
    let app = h.app_data_packets in
    let (app', tracked, ignored) =
      receive_one_rtt (record h { lowest_one_rtt = lower h.lowest_one_rtt pn })
        (track_app_packet app pn ecn rcv true) lowest h' e in
    let (new, (base, count, queue, ignore)) =
      track_app_packet-IsElicited app pn ecn rcv app' tracked in
    let (l1, l2, l3, l4) = track_packet_lem app.base pn ecn true in
    let seen = record app { base = (track_packet app.base pn ecn true).1 } in
    let (o1, o2, o3, o4, o5) = observe_lem seen pn rcv in
    let c' = track_app_packet-IsConsistent app pn ecn rcv true none app' c tracked in
    let history : app'.base.packet_history
        ≡ (History.received_packet app.base.packet_history pn).0 =
      ap (λ (t : Tracker). t.packet_history) (base ∙ o1) ∙ l1 in
    let below : app'.ignore_below < lowest =
      omega (arith, ignore ∙ ignore_below-observe seen pn rcv) in
    let deleted : app'.base.packet_history.deleted_below ≤ lowest = omega (
      arith,
      ap (λ (x : History). x.deleted_below) history
          ∙ deleted_below-received_packet app.base.packet_history pn,
    ) in
    rw ignored (
      take_app_ack-ignore_packets_below app' lowest now b c'.valid (c'.ready (inr (omega arith)))
        below deleted
        (λ q l.
          subst (λ (x : History). holds x q ≡ false) (sym history)
            (elim (Bool-cases (holds (History.received_packet app.base.packet_history pn).0 q)) [
              | inl t ↦ elim (received_packet_sound app.base.packet_history pn q c.valid t) [
                | inl eq ↦ absurd (omega arith)
                | inr held ↦ let n = all q l in cc
              ]
              | inr f ↦ f
            ])))
