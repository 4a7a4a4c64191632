-- ===== src/AckHandler/Sent/Added.antt =====
-- The bytes in flight of a history to which a packet is added.
use uquic.Shared.{
  ℕ, ◌+◌, ◌≡◌, refl, sym, ◌∙◌, subst, inr, true, Option, none, some, List, [], ◌∷◌, ◌++◌, arith,
  if◌then◌else◌, if_intro, if_of_false, Bool-cases, inl, Ensures, ok-injective, Result, ok, err,
  Panic, panic, false,
}
use mathlib.Core.List.{append-nil}
use uquic.AckHandler.Sent.{
  Packet, probe_at, skipped_at, skipped_packet_number, check_sequential_packet_number_use,
  SentHistory, follows, push, is_empty, outstanding, sent_ack_eliciting_packet,
  sent_non_ack_eliciting_packet, sent_path_probe_packet,
}
use uquic.AckHandler.Sent.State.{IsTracked}
use uquic.AckHandler.Sent.Sends.{
  sequential, after_call, is_allowed, skips, sends_non_eliciting, sends_eliciting, sends_probe,
  after_call-IsTracked,
}
use uquic.AckHandler.Sent.Flight.{charge, flight, IsSent, AllSent}

flight-append :
    (entries : List (Option Packet)) (entry : Option Packet)
    → flight (entries ++ (entry ∷ [])) ≡ flight entries + flight (entry ∷ [])
unfolding flight
flight-append [] none = refl
flight-append [] (some p) = omega arith
flight-append (none ∷ entries) entry = flight-append entries entry
flight-append (some p ∷ entries) entry = omega (arith, flight-append entries entry)

AllSent-append :
    (entries : List (Option Packet)) (entry : Option Packet)
    → AllSent entries
    → AllSent (entry ∷ [])
    → AllSent (entries ++ (entry ∷ []))
AllSent-append [] entry sent last = last
AllSent-append (none ∷ entries) entry sent last = AllSent-append entries entry sent last
AllSent-append (some p ∷ entries) entry (first, sent) last =
    (first, AllSent-append entries entry sent last)

-- A history with one more entry at most, which counts `bytes`.
abbrev pub IsMore : ℕ → List Packet → SentHistory → SentHistory → Type 0
IsMore bytes probes h h' =
    (flight h'.packets ≡ flight h.packets + bytes)
    × ((AllSent h.packets → AllSent h'.packets)
        × (h'.path_probe_packets ≡ h.path_probe_packets ++ probes))

abbrev pub Adds : ℕ → List Packet → SentHistory → Result Panic SentHistory → Type 0
Adds bytes probes h r =
    (h' : SentHistory) × ((r ≡ ok h') × (IsTracked h' × IsMore bytes probes h h'))

-- From what the operation computes to, to what it is known to give.
Adds-of :
    (bytes : ℕ) (probes : List Packet) (h h1 : SentHistory) (r : Result Panic SentHistory)
    → r ≡ ok h1
    → (h' : SentHistory) × ((r ≡ ok h') × IsTracked h')
    → IsMore bytes probes h h1
    → Adds bytes probes h r
Adds-of bytes probes h h1 r computed (h', (is, tracked)) more =
    (h', (is, (tracked, subst (IsMore bytes probes h) (ok-injective (sym computed ∙ is)) more)))

pushed :
    (h : SentHistory) (p : Packet)
    → IsSent p
    → (flight (h.packets ++ (some p ∷ [])) ≡ flight h.packets + charge p)
      × ((AllSent h.packets → AllSent (h.packets ++ (some p ∷ [])))
          × (h.path_probe_packets ≡ h.path_probe_packets ++ []))
unfolding flight
pushed h p is_sent = (
  omega (arith, flight-append h.packets (some p)),
  (
    (λ sent. AllSent-append h.packets (some p) sent (is_sent, tt)),
    sym (append-nil h.path_probe_packets),
  ),
)

pub eliciting-Adds :
    (h : SentHistory) (p : Packet)
    → IsTracked h
    → follows h.highest_packet_number p.packet_number ≡ true
    → IsSent p
    → Adds (charge p) [] h (sent_ack_eliciting_packet h p)
unfolding sent_ack_eliciting_packet
eliciting-Adds h p tracked next is_sent =
    let h2 = push (some p) (record h { highest_packet_number = some p.packet_number }) in
    Adds-of (charge p) [] h
      (if outstanding p then record h2 { num_outstanding = h2.num_outstanding + 1 } else h2)
      (sent_ack_eliciting_packet h p) (rw (sequential h p.packet_number next) refl)
      (unfold after_call is_allowed in after_call-IsTracked (sends_eliciting p) h tracked next)
      (if_intro (IsMore (charge p) [] h) (outstanding p) (pushed h p is_sent) (pushed h p is_sent))

pub non_eliciting-Adds :
    (h : SentHistory) (pn : ℕ)
    → IsTracked h
    → follows h.highest_packet_number pn ≡ true
    → Adds 0 [] h (sent_non_ack_eliciting_packet h pn)
unfolding sent_non_ack_eliciting_packet flight
non_eliciting-Adds h pn tracked next =
    let h1 = record h { highest_packet_number = some pn } in
    Adds-of 0 [] h (if is_empty h1.packets then h1 else push none h1)
      (sent_non_ack_eliciting_packet h pn) (rw (sequential h pn next) refl)
      (unfold after_call is_allowed in after_call-IsTracked (sends_non_eliciting pn) h tracked next)
      (if_intro (IsMore 0 [] h) (is_empty h.packets)
        (omega arith, ((λ sent. sent), sym (append-nil h.path_probe_packets)))
        (
          flight-append h.packets none,
          ((λ sent. AllSent-append h.packets none sent tt), sym (append-nil h.path_probe_packets)),
        ))

pub skip-Adds :
    (h : SentHistory) (pn : ℕ)
    → IsTracked h
    → follows h.highest_packet_number pn ≡ true
    → Adds 0 [] h (skipped_packet_number h pn)
unfolding skipped_packet_number
skip-Adds h pn tracked next =
    Adds-of 0 [] h (push (some (skipped_at pn)) (record h { highest_packet_number = some pn }))
      (skipped_packet_number h pn) (rw (sequential h pn next) refl)
      (unfold after_call is_allowed in after_call-IsTracked (skips pn) h tracked next)
      (pushed h (skipped_at pn) (inr (refl, refl)))

-- A packet number other than the next one is refused.
pub refused :
    (h : SentHistory) (pn : ℕ)
    → follows h.highest_packet_number pn ≡ false
    → check_sequential_packet_number_use h pn ≡ err panic
unfolding check_sequential_packet_number_use
refused h pn other = if_of_false (follows h.highest_packet_number pn) _ _ other

pub skip-Ensures :
    (h : SentHistory) (pn : ℕ)
    → IsTracked h
    → Ensures (λ h'. IsTracked h' × IsMore 0 [] h h') (skipped_packet_number h pn)
unfolding skipped_packet_number
skip-Ensures h pn tracked = elim (Bool-cases (follows h.highest_packet_number pn)) [
  | inl next ↦
      let (h', (done, kept)) = skip-Adds h pn tracked next in
      subst (Ensures (λ x. IsTracked x × IsMore 0 [] h x)) (sym done) kept
  | inr other ↦ rw (refused h pn other) tt
]

pub probe-Adds :
    (h : SentHistory) (p : Packet)
    → IsTracked h
    → follows h.highest_packet_number p.packet_number ≡ true
    → Adds 0 (p ∷ []) h (sent_path_probe_packet h p)
unfolding sent_path_probe_packet flight
probe-Adds h p tracked next =
    let h2 =
      push (some (probe_at p.packet_number))
        (record h { highest_packet_number = some p.packet_number }) in
    Adds-of 0 (p ∷ []) h (record h2 { path_probe_packets = h2.path_probe_packets ++ (p ∷ []) })
      (sent_path_probe_packet h p) (rw (sequential h p.packet_number next) refl)
      (unfold after_call is_allowed in after_call-IsTracked (sends_probe p) h tracked next)
      (
        flight-append h.packets (some (probe_at p.packet_number)),
        (
          (λ sent.
              AllSent-append h.packets (some (probe_at p.packet_number)) sent
                (inr (refl, refl), tt)),
          refl,
        ),
      )
