-- ===== src/AckHandler/Tracker/Queue.antt =====
-- What the tracker of application data keeps between calls: how many packets wait for an ACK.
use uquic.Shared.{
  ok-injective, ℕ, ◌+◌, ◌≤◌, ◌≡◌, refl, sym, ap, ◌∙◌, subst, ◌↔◌, ◌⊎◌, inl, inr, Bool, true, false,
  ◌&&◌, ◌||◌, Option, none, some, arith, leb, if◌then◌else◌, Bool-cases, if_of_false, Option-cases,
  Result-cases, Result, ok, err, Panic, ◌>>=◌,
}
use uquic.AckHandler.History
use uquic.AckHandler.History.{History}
use uquic.AckHandler.History.State.{IsValid, received_packet-IsValid, new_history-IsValid}
use uquic.AckHandler.Tracker.{
  Ecn, ect0, ect1, ce, unsupported, not_ect, Tracker, TrackerError, AppTracker, track_packet,
  count_ecn, new_tracker, new_app_tracker, is_missing, should_queue_ack, queue_ack, observe, elicit,
  track_app_packet, finish_packet,
}

-- The packets that were counted since the last ACK make the tracker ready to send one; as long as none
-- is queued there is at most one, and an alarm is set for it.
pub record IsConsistent (h : AppTracker) : Type 0 where
  pub valid : IsValid h.base.packet_history
  pub few : h.ack_queued ≡ false → h.ack_eliciting_since_last_ack ≤ 1
  pub ready :
      (h.ack_queued ≡ true) ⊎ (1 ≤ h.ack_eliciting_since_last_ack) → h.base.has_new_ack ≡ true
  pub alarmed :
      h.ack_queued ≡ false → 1 ≤ h.ack_eliciting_since_last_ack → (a : ℕ) × (h.ack_alarm ≡ some a)

pub new_app_tracker-IsConsistent : IsConsistent new_app_tracker
unfolding new_app_tracker new_tracker
new_app_tracker-IsConsistent = record {
  valid = new_history-IsValid;
  few = λ e. omega arith;
  ready = λ e. ground arith;
  alarmed = λ e l. absurd (omega arith);
}

count_ecn_lem :
    (ecn : Ecn) (t : Tracker)
    → ((count_ecn ecn t).packet_history ≡ t.packet_history)
      × ((count_ecn ecn t).has_new_ack ≡ t.has_new_ack)
      × ((count_ecn ecn t).last_ack ≡ t.last_ack)
unfolding count_ecn
count_ecn_lem ect0 t = (refl, refl, refl)
count_ecn_lem ect1 t = (refl, refl, refl)
count_ecn_lem ce t = (refl, refl, refl)
count_ecn_lem unsupported t = (refl, refl, refl)
count_ecn_lem not_ect t = (refl, refl, refl)

pub track_packet_lem :
    (t : Tracker) (pn : ℕ) (ecn : Ecn) (elic : Bool)
    → ((track_packet t pn ecn elic).1.packet_history
        ≡ (History.received_packet t.packet_history pn).0)
      × ((track_packet t pn ecn elic).1.last_ack ≡ t.last_ack)
      × ((track_packet t pn ecn elic).1.has_new_ack
          ≡ ((elic && (History.received_packet t.packet_history pn).1) || t.has_new_ack))
      × (((track_packet t pn ecn elic).0 ≡ none)
          ↔ ((History.received_packet t.packet_history pn).1 ≡ true))
unfolding track_packet
track_packet_lem t pn ecn elic =
    let l =
      count_ecn_lem ecn
        (record t { packet_history = (History.received_packet t.packet_history pn).0 }) in
    ground arith

-- An ACK is not queued only if at most one packet was counted.
should_queue_ack-false :
    (h : AppTracker) (ecn : Ecn) (m : Bool)
    → should_queue_ack h ecn m ≡ ok false
    → h.ack_eliciting_since_last_ack ≤ 1
unfolding should_queue_ack
should_queue_ack-false h ecn m e = elim (Option-cases h.base.last_ack) [
  | inl n ↦ ground arith
  | inr (ack, s) ↦ ground arith
]

pub observe_lem :
    (h : AppTracker) (pn rcv : ℕ)
    → ((observe h pn rcv).base ≡ h.base)
      × ((observe h pn rcv).ack_queued ≡ h.ack_queued)
      × ((observe h pn rcv).ack_eliciting_since_last_ack ≡ h.ack_eliciting_since_last_ack)
      × ((observe h pn rcv).ack_alarm ≡ h.ack_alarm)
      × ((observe h pn rcv).max_ack_delay ≡ h.max_ack_delay)
unfolding observe
observe_lem h pn rcv = ground arith

-- What `elicit` leaves: the counts as they were, and an ACK queued or an alarm.
abbrev pub IsElicited : AppTracker → ℕ → AppTracker → Type 0
IsElicited h rcv h' =
    (h'.base ≡ h.base)
    × (h'.ack_eliciting_since_last_ack ≡ h.ack_eliciting_since_last_ack)
    × ((h'.ack_queued ≡ true)
        ⊎ ((h'.ack_queued ≡ false)
            × (h.ack_eliciting_since_last_ack ≤ 1)
            × (h'.ack_alarm ≡ some (rcv + h.max_ack_delay))))
    × (h'.ignore_below ≡ h.ignore_below)

queue_ack-IsElicited :
    (h : AppTracker) (rcv : ℕ) (should : Bool)
    → (h.ack_queued ≡ false → should ≡ false → h.ack_eliciting_since_last_ack ≤ 1)
    → IsElicited h rcv (queue_ack h rcv should)
unfolding queue_ack
queue_ack-IsElicited h rcv should few = elim (Bool-cases (h.ack_queued || should)) [
  | inl t ↦ ground arith
  | inr f ↦ let l = few (ground arith) (ground arith) in ground arith
]

elicit_decided :
    (h : AppTracker) (rcv : ℕ) (r : Result Panic Bool) (h' : AppTracker)
    → (h.ack_queued ≡ false → r ≡ ok false → h.ack_eliciting_since_last_ack ≤ 1)
    → (r >>= λ should. ok (queue_ack h rcv should)) ≡ ok h'
    → IsElicited h rcv h'
elicit_decided h rcv (err x) h' few e = cc
elicit_decided h rcv (ok should) h' few e =
    subst (λ x. IsElicited h rcv x) (ok-injective e)
      (queue_ack-IsElicited h rcv should (λ q f. few q (ap ok f)))

elicit_missing :
    (h : AppTracker) (ecn : Ecn) (rcv : ℕ) (m : Result Panic Bool) (h' : AppTracker)
    → (m >>= λ was_missing.
        (if h.ack_queued then ok false else should_queue_ack h ecn was_missing) >>= λ should.
        ok (queue_ack h rcv should))
      ≡ ok h'
    → IsElicited h rcv h'
elicit_missing h ecn rcv (err x) h' e = cc
elicit_missing h ecn rcv (ok m) h' e =
    elicit_decided h rcv (if h.ack_queued then ok false else should_queue_ack h ecn m) h'
      (λ q f. should_queue_ack-false h ecn m (sym (if_of_false h.ack_queued _ _ q) ∙ f)) e

pub elicit-IsElicited :
    (h : AppTracker) (pn : ℕ) (ecn : Ecn) (rcv : ℕ) (h' : AppTracker)
    → elicit h pn ecn rcv ≡ ok h'
    → IsElicited h rcv h'
unfolding elicit
elicit-IsElicited h pn ecn rcv h' e =
    elicit_missing h ecn rcv (is_missing h.base.last_ack h.ignore_below pn) h' e

module _ (refused : AppTracker) (rest : Result Panic AppTracker) (h' : AppTracker) where
  finish_packet-none :
      (e : Option TrackerError)
      → finish_packet e refused rest ≡ ok (none, h')
      → (e ≡ none) × (rest ≡ ok h')
  unfolding finish_packet
  finish_packet-none (some x) q = cc
  finish_packet-none none q = elim (Result-cases rest) [
    | inl (h, r) ↦ ground arith
    | inr (x, r) ↦ ground arith
  ]

  finish_packet-some :
      (e : Option TrackerError) (x : TrackerError)
      → finish_packet e refused rest ≡ ok (some x, h')
      → h' ≡ refused
  unfolding finish_packet
  finish_packet-some (some y) x q = cc
  finish_packet-some none x q = elim (Result-cases rest) [
    | inl (h, r) ↦ ground arith
    | inr (y, r) ↦ ground arith
  ]

-- The state before the queueing of an ACK: the packet is tracked and counted.
abbrev pub counted : AppTracker → ℕ → Ecn → ℕ → AppTracker
counted h pn ecn rcv =
    let h1 = observe (record h { base = (track_packet h.base pn ecn true).1 }) pn rcv in
    record h1 { ack_eliciting_since_last_ack = h1.ack_eliciting_since_last_ack + 1 }

-- An ack-eliciting packet that is accepted was new, and has an ACK queued or an alarm set.
pub track_app_packet-IsElicited :
    (h : AppTracker) (pn : ℕ) (ecn : Ecn) (rcv : ℕ) (h' : AppTracker)
    → track_app_packet h pn ecn rcv true ≡ ok (none, h')
    → ((track_packet h.base pn ecn true).0 ≡ none) × IsElicited (counted h pn ecn rcv) rcv h'
unfolding track_app_packet
track_app_packet-IsElicited h pn ecn rcv h' e =
    let (new, rest) =
      finish_packet-none (record h { base = (track_packet h.base pn ecn true).1 })
        (elicit (counted h pn ecn rcv) pn ecn rcv) h' (track_packet h.base pn ecn true).0 e in
    (new, elicit-IsElicited (counted h pn ecn rcv) pn ecn rcv h' rest)

module _ (h : AppTracker) (pn : ℕ) (ecn : Ecn) (rcv : ℕ) (h' : AppTracker)
    (c : IsConsistent h) where
  track_packet-IsValid : (elic : Bool) → IsValid (track_packet h.base pn ecn elic).1.packet_history
  track_packet-IsValid elic =
      subst IsValid (sym (track_packet_lem h.base pn ecn elic).0)
        (received_packet-IsValid h.base.packet_history pn c.valid)

  refused-IsConsistent :
      (elic : Bool) → IsConsistent (record h { base = (track_packet h.base pn ecn elic).1 })
  refused-IsConsistent elic = record {
    valid = track_packet-IsValid elic;
    few = c.few;
    ready = λ q.
        let r = c.ready q in
        let (l1, l2, l3, l4) = track_packet_lem h.base pn ecn elic in ground arith;
    alarmed = c.alarmed;
  }

  observed-IsConsistent :
      (elic : Bool)
      → IsConsistent (observe (record h { base = (track_packet h.base pn ecn elic).1 }) pn rcv)
  unfolding observe
  observed-IsConsistent elic = elim (Bool-cases (leb h.largest_observed pn)) [
    | inl t ↦ rw t (
        let r = refused-IsConsistent elic in
        record { valid = r.valid; few = r.few; ready = r.ready; alarmed = r.alarmed })
    | inr f ↦ rw f (refused-IsConsistent elic)
  ]

  elicited-IsConsistent :
      (track_packet h.base pn ecn true).0 ≡ none
      → IsElicited (counted h pn ecn rcv) rcv h'
      → IsConsistent h'
  elicited-IsConsistent new (base, count, queue, ignore) =
      let (l1, l2, l3, l4) = track_packet_lem h.base pn ecn true in
      let (o1, o2, o3, o4, o5) =
        observe_lem (record h { base = (track_packet h.base pn ecn true).1 }) pn rcv in
      record {
        valid =
            subst (λ (t : Tracker). IsValid t.packet_history) (sym (base ∙ o1))
              (track_packet-IsValid true);
        few = λ q. ground arith;
        ready = λ q.
            let n = l4.0 new in ap (λ (t : Tracker). t.has_new_ack) (base ∙ o1) ∙ l3 ∙ ground arith;
        alarmed = λ q l. elim queue [ inl t ↦ cc | inr (f, m, a) ↦ (_, a) ];
      }

-- Every call that does not panic keeps the tracker consistent.
pub track_app_packet-IsConsistent :
    (h : AppTracker) (pn : ℕ) (ecn : Ecn) (rcv : ℕ) (elic : Bool) (e : Option TrackerError)
    (h' : AppTracker)
    → IsConsistent h
    → track_app_packet h pn ecn rcv elic ≡ ok (e, h')
    → IsConsistent h'
track_app_packet-IsConsistent h pn ecn rcv true none h' c q =
    let (new, el) = track_app_packet-IsElicited h pn ecn rcv h' q in
    elicited-IsConsistent h pn ecn rcv h' c new el
track_app_packet-IsConsistent h pn ecn rcv false none h' c q =
    unfold track_app_packet in
    subst IsConsistent
      (ok-injective
        (finish_packet-none (record h { base = (track_packet h.base pn ecn false).1 })
          (ok (observe (record h { base = (track_packet h.base pn ecn false).1 }) pn rcv)) h'
          (track_packet h.base pn ecn false).0 q).1)
      (observed-IsConsistent h pn ecn rcv h' c false)
track_app_packet-IsConsistent h pn ecn rcv elic (some x) h' c q =
    unfold track_app_packet in
    subst IsConsistent
      (sym (
        finish_packet-some (record h { base = (track_packet h.base pn ecn elic).1 }) _ h'
          (track_packet h.base pn ecn elic).0 x q))
      (refused-IsConsistent h pn ecn rcv h' c elic)
