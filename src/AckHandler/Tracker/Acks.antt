-- ===== src/AckHandler/Tracker/Acks.antt =====
-- The ACK frames that the tracker of application data hands out, and sequences of calls on it.
use uquic.Shared.{
  ℕ, zero, suc, ◌+◌, ◌-◌, ◌≤◌, ◌<◌, ◌≡◌, refl, sym, ap, ◌∙◌, subst, ◌≢◌, ◌⊎◌, inl, inr, Bool, true,
  false, not, ◌&&◌, Option, none, some, List, [], ◌∷◌, arith, ltb, leb, Bool-cases, if_of_false,
  some-injective, Result, ok, err, Panic, panic, take,
}
use uquic.AckHandler.History
use uquic.AckHandler.History.{
  Interval, History, add_loop, merge_before, max_num_ack_ranges, add_to_ranges, delete_below,
  delete_loop,
}
use uquic.AckHandler.History.Ranges.{covers, IsGapped}
use uquic.AckHandler.History.Acks.{append_ack_ranges, append_loop, acks_packet-append_ack_ranges}
use uquic.AckHandler.History.State.{
  holds, IsValid, delete_below-IsValid, holds-delete_below, received_packet_ranges,
  received_packet_new,
}
use uquic.Wire.AckFrame.{AckFrame, append_ack_frame, append_of}
use uquic.Wire.AckFrame.Query.{acks_packet}
use uquic.AckHandler.Tracker.{
  Ecn, Tracker, TrackerError, AppTracker, track_packet, take_ack, make_ack, new_app_tracker,
  with_delay, is_waiting, ignore_packets_below, track_app_packet, take_app_ack, finish_ack,
}
use uquic.AckHandler.Tracker.Queue.{
  IsConsistent, track_app_packet-IsConsistent, track_app_packet-IsElicited, track_packet_lem,
  observe_lem, new_app_tracker-IsConsistent,
}

take_ack_idle : (t : Tracker) → t.has_new_ack ≡ false → take_ack t ≡ (none, t)
unfolding take_ack
take_ack_idle t e = if_of_false t.has_new_ack _ _ e

take_app_ack-IsConsistent :
    (h : AppTracker) (now : ℕ) (only : Bool)
    → IsConsistent h
    → IsConsistent (take_app_ack h now only).1
unfolding take_app_ack finish_ack take_ack
take_app_ack-IsConsistent h now only c =
    elim (Bool-cases (only && not h.ack_queued && is_waiting h.ack_alarm now)) [
      | inl t ↦ rw t c
      | inr f ↦ elim (Bool-cases h.base.has_new_ack) [
        | inl ready ↦
            rw (f, ready)
              (record {
                valid = c.valid;
                few = λ q. omega arith;
                ready = λ q. ground arith;
                alarmed = λ q l. absurd (omega arith);
              })
        | inr idle ↦ rw (f, take_ack_idle h.base idle) c
      ]
    ]

ignore_packets_below-IsConsistent :
    (h : AppTracker) (p : ℕ) → IsConsistent h → IsConsistent (ignore_packets_below h p)
unfolding ignore_packets_below
ignore_packets_below-IsConsistent h p c = elim (Bool-cases (leb p h.ignore_below)) [
  | inl t ↦ rw t c
  | inr f ↦ rw f (record {
    valid = delete_below-IsValid h.base.packet_history p c.valid;
    few = c.few;
    ready = c.ready;
    alarmed = c.alarmed;
  })
]

-- A call on the tracker. `acked` asks for an ACK frame.
pub data Call : Type 0 where
  received : (pn : ℕ) → (ecn : Ecn) → (rcv_time : ℕ) → (ack_eliciting : Bool) → Call
  ignored : (pn : ℕ) → Call
  acked : (now : ℕ) → (only_if_queued : Bool) → Call

-- The state after a call, or none after a panic.
abbrev pub state_of : Result Panic (Option TrackerError × AppTracker) → Option AppTracker
state_of (ok (e, h)) = some h
state_of (err x) = none

unfoldable pub after_call : Call → AppTracker → Option AppTracker
after_call (received pn ecn rcv elic) h = state_of (track_app_packet h pn ecn rcv elic)
after_call (ignored pn) h = some (ignore_packets_below h pn)
after_call (acked now only) h = some (take_app_ack h now only).1

abbrev pub and_then : Option AppTracker → (AppTracker → Option AppTracker) → Option AppTracker
and_then none f = none
and_then (some h) f = f h

unfoldable pub after_calls : List Call → AppTracker → Option AppTracker
after_calls [] h = some h
after_calls (c ∷ cs) h = and_then (after_call c h) (after_calls cs)

state_of-some :
    (r : Result Panic (Option TrackerError × AppTracker)) (h : AppTracker)
    → state_of r ≡ some h
    → (e : Option TrackerError) × (r ≡ ok (e, h))
state_of-some (ok (e, h')) h q = (e, cc)
state_of-some (err x) h q = cc

after_call-IsConsistent :
    (c : Call) (h h' : AppTracker) → IsConsistent h → after_call c h ≡ some h' → IsConsistent h'
unfolding after_call
after_call-IsConsistent (received pn ecn rcv elic) h h' v q =
    let (e, r) = state_of-some (track_app_packet h pn ecn rcv elic) h' q in
    track_app_packet-IsConsistent h pn ecn rcv elic e h' v r
after_call-IsConsistent (ignored pn) h h' v q =
    subst IsConsistent (some-injective q) (ignore_packets_below-IsConsistent h pn v)
after_call-IsConsistent (acked now only) h h' v q =
    subst IsConsistent (some-injective q) (take_app_ack-IsConsistent h now only v)

and_then-IsConsistent :
    (r : Option AppTracker) (f : AppTracker → Option AppTracker) (h' : AppTracker)
    → ((h : AppTracker) → r ≡ some h → IsConsistent h)
    → ((h : AppTracker) → IsConsistent h → f h ≡ some h' → IsConsistent h')
    → and_then r f ≡ some h'
    → IsConsistent h'
and_then-IsConsistent none f h' a b q = cc
and_then-IsConsistent (some h) f h' a b q = b h (a h refl) q

after_calls_from :
    (cs : List Call) (h h' : AppTracker)
    → IsConsistent h
    → after_calls cs h ≡ some h'
    → IsConsistent h'
unfolding after_calls
after_calls_from [] h h' v q = subst IsConsistent (some-injective q) v
after_calls_from (c ∷ cs) h h' v q =
    and_then-IsConsistent (after_call c h) (after_calls cs) h'
      (λ x e. after_call-IsConsistent c h x v e) (λ x w e. after_calls_from cs x h' w e) q

-- After any calls on a new tracker, unless one panicked: the ranges of the history are in order and at
-- most 32; as long as no ACK is queued at most one ack-eliciting packet waits for one, and an alarm is
-- set for it; and if an ACK is queued or a packet waits, there is an ACK to send.
pub after_calls-IsConsistent :
    (cs : List Call) (h : AppTracker) → after_calls cs new_app_tracker ≡ some h → IsConsistent h
after_calls-IsConsistent cs h q =
    after_calls_from cs new_app_tracker h new_app_tracker-IsConsistent q

add_loop-ne-nil : (p : ℕ) (rs : List Interval) → (add_loop p rs).0 ≢ []
unfolding add_loop merge_before
add_loop-ne-nil p [] = λ e. cc
add_loop-ne-nil p (r ∷ []) = λ e. ground arith
add_loop-ne-nil p (r ∷ s ∷ rest) = λ e. ground arith

take-ne-nil : (n : ℕ) (rs : List Interval) → 0 < n → rs ≢ [] → take n rs ≢ []
take-ne-nil zero rs l ne = absurd (omega arith)
take-ne-nil (suc n) [] l ne = absurd (ne refl)
take-ne-nil (suc n) (r ∷ rs) l ne = λ e. cc

-- A history that has accepted a packet is not empty.
received-ne-nil :
    (h : History) (p : ℕ)
    → (History.received_packet h p).1 ≡ true
    → (History.received_packet h p).0.ranges ≢ []
received-ne-nil h p new = rw (received_packet_ranges h p) (
    subst (λ (rs : List Interval). rs ≢ [])
      (sym
        (if_of_false (ltb p h.deleted_below) _ _ (let n = received_packet_new h p in ground arith)))
      (take-ne-nil max_num_ack_ranges (add_loop p h.ranges).0 (omega arith)
        (add_loop-ne-nil p h.ranges)))

ack_ranges_lem :
    (t : Tracker) (d : ℕ)
    → (with_delay (make_ack t) d).ack_ranges ≡ append_ack_ranges [] t.packet_history
unfolding with_delay make_ack
ack_ranges_lem t d = refl

take_ready :
    (h : AppTracker) (now : ℕ)
    → h.base.has_new_ack ≡ true
    → is_waiting h.ack_alarm now ≡ false ⊎ (h.ack_queued ≡ true)
    → (take_app_ack h now true).0
      ≡ some (with_delay (make_ack h.base) (now - h.largest_observed_rcvd_time))
unfolding take_app_ack finish_ack take_ack
take_ready h now r (inl w) = ground arith
take_ready h now r (inr q) = ground arith

-- After a consistent tracker has accepted an ack-eliciting packet, an ACK goes out in time: from
-- `max_ack_delay` after the packet's arrival on, and at once if an ACK is queued, the tracker hands out an
-- ACK frame when asked for a due one, and the frame acknowledges exactly the packets that the history
-- then holds.
pub take_app_ack-track_app_packet :
    (h : AppTracker) (pn : ℕ) (ecn : Ecn) (rcv : ℕ) (h' : AppTracker) (now : ℕ)
    → IsConsistent h
    → track_app_packet h pn ecn rcv true ≡ ok (none, h')
    → (rcv + h.max_ack_delay ≤ now) ⊎ (h'.ack_queued ≡ true)
    → (ack : AckFrame) × ((take_app_ack h' now true).0 ≡ some ack)
      × ((q : ℕ) → acks_packet ack q ≡ ok (holds h'.base.packet_history q))
take_app_ack-track_app_packet h pn ecn rcv h' now c q due =
    let (new, (base, count, queue, ignore)) = track_app_packet-IsElicited h pn ecn rcv h' q in
    let (l1, l2, l3, l4) = track_packet_lem h.base pn ecn true in
    let (o1, o2, o3, o4, o5) =
      observe_lem (record h { base = (track_packet h.base pn ecn true).1 }) pn rcv in
    let c' = track_app_packet-IsConsistent h pn ecn rcv true none h' c q in
    let ready : h'.base.has_new_ack ≡ true = c'.ready (inr (omega arith)) in
    let history : h'.base.packet_history ≡ (History.received_packet h.base.packet_history pn).0 =
      ap (λ (t : Tracker). t.packet_history) (base ∙ o1) ∙ l1 in
    let waits : (is_waiting h'.ack_alarm now ≡ false) ⊎ (h'.ack_queued ≡ true) = elim due [
      | inl late ↦ elim queue [ inl t ↦ inr t | inr (f, m, a) ↦ inl (ground arith) ]
      | inr t ↦ inr t
    ] in
    let ack = with_delay (make_ack h'.base) (now - h'.largest_observed_rcvd_time) in
    (
      ack,
      take_ready h' now ready waits,
      λ p.
          (acks_packet-append_ack_ranges h'.base.packet_history ack p c'.valid
            (subst (λ (x : History). x.ranges ≢ []) (sym history)
              (received-ne-nil h.base.packet_history pn (l4.0 new)))
            (ack_ranges_lem h'.base (now - h'.largest_observed_rcvd_time))).0,
    )

covers-nil : (rs : List Interval) → IsGapped rs → ((q : ℕ) → covers rs q ≡ false) → rs ≡ []
covers-nil [] g none_held = refl
covers-nil (r ∷ rest) (le, u, g) none_held = let n = none_held r.start in ground arith

deleted-nil :
    (h : History) (p : ℕ)
    → IsValid h
    → h.deleted_below ≤ p
    → ((q : ℕ) → p ≤ q → holds h q ≡ false)
    → (delete_below h p).ranges ≡ []
deleted-nil h p v del all =
    covers-nil (delete_below h p).ranges (delete_below-IsValid h p v).gapped (λ q.
      unfold holds in
      elim (Bool-cases (leb p q)) [
        | inl above ↦
            let l = (holds-delete_below h p q v).0 in let n = all q (ground arith) in ground arith
        | inr below ↦ let l = (holds-delete_below h p q v).0 in ground arith
      ])

append_no_ranges :
    (b : List ℕ) (f : AckFrame) → f.ack_ranges ≡ [] → append_ack_frame b f ≡ err panic
unfolding append_ack_frame append_of
append_no_ranges b f e = rw e

ignored_history :
    (h : AppTracker) (p : ℕ)
    → h.ignore_below < p
    → ignore_packets_below h p ≡ record h {
      ignore_below = p;
      base = record h.base { packet_history = delete_below h.base.packet_history p };
    }
unfolding ignore_packets_below
ignored_history h p l = if_of_false (leb p h.ignore_below) _ _ (ground arith)

take_unqueued :
    (h : AppTracker) (now : ℕ)
    → h.base.has_new_ack ≡ true
    → (take_app_ack h now false).0
      ≡ some (with_delay (make_ack h.base) (now - h.largest_observed_rcvd_time))
unfolding take_app_ack finish_ack take_ack
take_unqueued h now r = ground arith

no_ranges : (h : History) → h.ranges ≡ [] → append_ack_ranges [] h ≡ []
unfolding append_ack_ranges append_loop
no_ranges h e = rw e

-- If the peer confirms ACKs up to a packet number above all that the history holds while an
-- ack-eliciting packet waits, the tracker hands out a frame without ranges, and writing it panics.
pub take_app_ack-ignore_packets_below :
    (h : AppTracker) (p now : ℕ) (b : List ℕ)
    → IsValid h.base.packet_history
    → h.base.has_new_ack ≡ true
    → h.ignore_below < p
    → h.base.packet_history.deleted_below ≤ p
    → ((q : ℕ) → p ≤ q → holds h.base.packet_history q ≡ false)
    → (ack : AckFrame) × ((take_app_ack (ignore_packets_below h p) now false).0 ≡ some ack)
      × (append_ack_frame b ack ≡ err panic)
take_app_ack-ignore_packets_below h p now b v ready above del all =
    let base = record h.base { packet_history = delete_below h.base.packet_history p } in
    let ack = with_delay (make_ack base) (now - h.largest_observed_rcvd_time) in
    (
      ack,
      rw (ignored_history h p above)
          (take_unqueued (record h { ignore_below = p; base = base }) now ready),
      append_no_ranges b ack (
          ack_ranges_lem base (now - h.largest_observed_rcvd_time)
          ∙ no_ranges base.packet_history (deleted-nil h.base.packet_history p v del all)),
    )
