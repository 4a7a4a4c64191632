-- ===== src/AckHandler/Sent/Sends.antt =====
-- Sending packets, and any operation of the history.
use uquic.Shared.{
  ℕ, ◌+◌, ◌≡◌, refl, sym, ap, subst, inl, inr, Bool, true, false, Option, none, some, List, [], ◌∷◌,
  ◌++◌, arith, if◌then◌else◌, if_of_true, if_intro, if_intro_known, Option-cases, Result, ok, Panic,
  ◌>>=◌, ==_iff,
}
use uquic.AckHandler.Sent.{
  Packet, outstanding, SentHistory, check_sequential_packet_number_use, follows, skipped_at,
  probe_at, push, skipped_packet_number, sent_non_ack_eliciting_packet, sent_ack_eliciting_packet,
  sent_path_probe_packet, is_empty, starts_with_nil, remove, declare_lost,
}
use uquic.AckHandler.Sent.Entries.{
  bit, tally, IsNumbered, lookup, tally-append, IsNumbered-append, is_some,
}
use uquic.AckHandler.Sent.State.{Numbering, IsTracked}
use uquic.AckHandler.Sent.Calls.{remove_lem, declare_lost_lem}

pub sequential :
    (h : SentHistory) (pn : ℕ)
    → follows h.highest_packet_number pn ≡ true
    → check_sequential_packet_number_use h pn ≡ ok (record h { highest_packet_number = some pn })
unfolding check_sequential_packet_number_use
sequential h pn next = if_of_true (follows h.highest_packet_number pn) _ _ next

Numbering-push :
    (o : Option ℕ) (entries : List (Option Packet)) (pn : ℕ) (entry : Option Packet)
    → follows o pn ≡ true
    → Numbering o entries
    → IsNumbered (pn + 1) (entry ∷ [])
    → IsNumbered (pn + 1) (entries ++ (entry ∷ []))
Numbering-push none entries pn entry next numbered last =
    subst (λ es. IsNumbered (pn + 1) (es ++ (entry ∷ []))) (sym numbered) last
Numbering-push (some highest) entries pn entry next numbered last =
    let e = (==_iff pn (highest + 1)).0 next in
    subst (λ m. IsNumbered (m + 1) (entries ++ (entry ∷ []))) (sym e)
      (IsNumbered-append (highest + 1) entries entry numbered
        (subst (λ m. IsNumbered (m + 1) (entry ∷ [])) e last))

starts-append :
    (entries : List (Option Packet)) (p : Packet)
    → starts_with_nil entries ≡ false
    → starts_with_nil (entries ++ (some p ∷ [])) ≡ false
starts-append [] p starts = refl
starts-append (none ∷ entries) p starts = starts
starts-append (some r ∷ entries) p starts = refl

-- A packet is put at the end of the slice, and counted if it is outstanding.
IsTracked-push :
    (h : SentHistory) (p : Packet) (probes : List Packet) (n : ℕ)
    → IsTracked h
    → follows h.highest_packet_number p.packet_number ≡ true
    → n ≡ h.num_outstanding + bit (outstanding p)
    → IsTracked record {
      packets = h.packets ++ (some p ∷ []);
      path_probe_packets = probes;
      num_outstanding = n;
      highest_packet_number = some p.packet_number;
    }
unfolding tally
IsTracked-push h p probes n tracked next count = record {
  numbered =
      Numbering-push h.highest_packet_number h.packets p.packet_number (some p) next
        tracked.numbered (omega arith, tt);
  counted = omega (arith, tally-append h.packets (some p), tracked.counted, count);
  starts = starts-append h.packets p tracked.starts;
}

-- The operations, with what they are given.
pub data Call : Type 0 where
  skips : (pn : ℕ) → Call
  sends_non_eliciting : (pn : ℕ) → Call
  sends_eliciting : (p : Packet) → Call
  sends_probe : (p : Packet) → Call
  removes : (pn : ℕ) → Call
  loses : (pn : ℕ) → Call

without_flag : Bool × SentHistory → Result Panic SentHistory
without_flag r = ok r.1

unfoldable pub after_call : Call → SentHistory → Result Panic SentHistory
unfolding without_flag
after_call (skips pn) h = skipped_packet_number h pn
after_call (sends_non_eliciting pn) h = sent_non_ack_eliciting_packet h pn
after_call (sends_eliciting p) h = sent_ack_eliciting_packet h p
after_call (sends_probe p) h = sent_path_probe_packet h p
after_call (removes pn) h = remove h pn >>= without_flag
after_call (loses pn) h = declare_lost h pn

-- A packet number that is sent or skipped is the next one, one that is removed or lost has a packet.
unfoldable pub is_allowed : Call → SentHistory → Bool
is_allowed (skips pn) h = follows h.highest_packet_number pn
is_allowed (sends_non_eliciting pn) h = follows h.highest_packet_number pn
is_allowed (sends_eliciting p) h = follows h.highest_packet_number p.packet_number
is_allowed (sends_probe p) h = follows h.highest_packet_number p.packet_number
is_allowed (removes pn) h = is_some (lookup h.packets pn)
is_allowed (loses pn) h = is_some (lookup h.packets pn)

abbrev Succeeds : Result Panic SentHistory → Type 0
Succeeds r = (h' : SentHistory) × ((r ≡ ok h') × IsTracked h')

-- It succeeds, and the packet number is the highest.
abbrev pub SendsAt : ℕ → Result Panic SentHistory → Type 0
SendsAt pn r =
    (h' : SentHistory) × ((r ≡ ok h') × (IsTracked h' × (h'.highest_packet_number ≡ some pn)))

pub skips-SendsAt :
    (h : SentHistory) (pn : ℕ)
    → IsTracked h
    → follows h.highest_packet_number pn ≡ true
    → SendsAt pn (skipped_packet_number h pn)
unfolding skipped_packet_number outstanding
skips-SendsAt h pn tracked next = (
  _,
  (
    ap (λ r. r >>= λ h1. ok (push (some (skipped_at pn)) h1)) (sequential h pn next),
    (
      IsTracked-push h (skipped_at pn) h.path_probe_packets h.num_outstanding tracked next
          (omega arith),
      refl,
    ),
  ),
)

probe-Succeeds :
    (h : SentHistory) (p : Packet)
    → IsTracked h
    → follows h.highest_packet_number p.packet_number ≡ true
    → Succeeds (sent_path_probe_packet h p)
unfolding sent_path_probe_packet outstanding
probe-Succeeds h p tracked next = (
  _,
  (
    ap
        (λ r. r >>= λ h1.
          let h2 = push (some (probe_at p.packet_number)) h1 in
          ok (record h2 { path_probe_packets = h2.path_probe_packets ++ (p ∷ []) }))
        (sequential h p.packet_number next),
    IsTracked-push h (probe_at p.packet_number) (h.path_probe_packets ++ (p ∷ [])) h.num_outstanding
        tracked next (omega arith),
  ),
)

-- The history after a packet was put at its end, with a count.
appended : SentHistory → Packet → ℕ → SentHistory
appended h p n = record {
  packets = h.packets ++ (some p ∷ []);
  path_probe_packets = h.path_probe_packets;
  num_outstanding = n;
  highest_packet_number = some p.packet_number;
}

pub eliciting-SendsAt :
    (h : SentHistory) (p : Packet)
    → IsTracked h
    → follows h.highest_packet_number p.packet_number ≡ true
    → SendsAt p.packet_number (sent_ack_eliciting_packet h p)
unfolding sent_ack_eliciting_packet appended
eliciting-SendsAt h p tracked next = (
  if outstanding p then appended h p (h.num_outstanding + 1) else appended h p h.num_outstanding,
  (
    ap
        (λ r. r >>= λ h1.
          let h2 = push (some p) h1 in
          ok (if outstanding p then record h2 { num_outstanding = h2.num_outstanding + 1 } else h2))
        (sequential h p.packet_number next),
    (
      if_intro_known IsTracked (outstanding p)
          (λ out.
            IsTracked-push h p h.path_probe_packets (h.num_outstanding + 1) tracked next
              (grind arith))
          (λ not_out.
            IsTracked-push h p h.path_probe_packets h.num_outstanding tracked next (grind arith)),
      if_intro (λ (x : SentHistory). x.highest_packet_number ≡ some p.packet_number) (outstanding p)
          refl refl,
    ),
  ),
)

IsNumbered-empty :
    (next : ℕ) (entries : List (Option Packet)) → is_empty entries ≡ true → IsNumbered next entries
IsNumbered-empty next [] empty = tt
IsNumbered-empty next (entry ∷ entries) empty = absurd (cc empty)

starts-append_full :
    (entries : List (Option Packet)) (entry : Option Packet)
    → is_empty entries ≡ false
    → starts_with_nil entries ≡ false
    → starts_with_nil (entries ++ (entry ∷ [])) ≡ false
starts-append_full [] entry full starts = absurd (cc full)
starts-append_full (none ∷ entries) entry full starts = starts
starts-append_full (some p ∷ entries) entry full starts = refl

skip_entry :
    (h : SentHistory) (pn : ℕ)
    → IsTracked h
    → follows h.highest_packet_number pn ≡ true
    → IsTracked (
        if is_empty h.packets
        then record h { highest_packet_number = some pn }
        else push none (record h { highest_packet_number = some pn }))
unfolding tally
skip_entry h pn tracked next =
    let numbered =
      Numbering-push h.highest_packet_number h.packets pn none next tracked.numbered tt in
    if_intro_known IsTracked (is_empty h.packets)
      (λ empty. record {
        numbered = IsNumbered-empty (pn + 1) h.packets empty;
        counted = tracked.counted;
        starts = tracked.starts;
      })
      (λ full. record {
        numbered = numbered;
        counted = omega (arith, tally-append h.packets none, tracked.counted);
        starts = starts-append_full h.packets none full tracked.starts;
      })

non_eliciting-Succeeds :
    (h : SentHistory) (pn : ℕ)
    → IsTracked h
    → follows h.highest_packet_number pn ≡ true
    → Succeeds (sent_non_ack_eliciting_packet h pn)
unfolding sent_non_ack_eliciting_packet
non_eliciting-Succeeds h pn tracked next = (
  _,
  (
    ap (λ r. r >>= λ h1. ok (if is_empty h1.packets then h1 else push none h1))
        (sequential h pn next),
    skip_entry h pn tracked next,
  ),
)

removes-Succeeds :
    (h : SentHistory) (pn : ℕ)
    → IsTracked h
    → is_some (lookup h.packets pn) ≡ true
    → Succeeds (remove h pn >>= without_flag) × Succeeds (declare_lost h pn)
unfolding without_flag
removes-Succeeds h pn tracked has = elim (Option-cases (lookup h.packets pn)) [
  | inl nothing ↦ absurd (cc (has, ap is_some nothing))
  | inr (p, found) ↦
      let (h', (removed, (tracked', gone))) = remove_lem h pn p tracked found in
      let (h2, (lost, (tracked2, gone2))) = declare_lost_lem h pn p tracked found in
      ((h', (ap (λ r. r >>= without_flag) removed, tracked')), (h2, (lost, tracked2)))
]

-- On a tracked history, sending or skipping the next packet number, and removing or declaring lost a
-- packet that the history has, do not panic and leave the history tracked: its packets are numbered up
-- to the highest packet number, the first entry is not nil, and the outstanding packets are counted.
pub after_call-IsTracked :
    (c : Call) (h : SentHistory)
    → IsTracked h
    → is_allowed c h ≡ true
    → (h' : SentHistory) × ((after_call c h ≡ ok h') × IsTracked h')
unfolding after_call is_allowed
after_call-IsTracked (skips pn) h tracked allowed =
    let (h', (sent, (tracked', is))) = skips-SendsAt h pn tracked allowed in (h', (sent, tracked'))
after_call-IsTracked (sends_non_eliciting pn) h tracked allowed =
    non_eliciting-Succeeds h pn tracked allowed
after_call-IsTracked (sends_eliciting p) h tracked allowed =
    let (h', (sent, (tracked', is))) = eliciting-SendsAt h p tracked allowed in
    (h', (sent, tracked'))
after_call-IsTracked (sends_probe p) h tracked allowed = probe-Succeeds h p tracked allowed
after_call-IsTracked (removes pn) h tracked allowed = (removes-Succeeds h pn tracked allowed).0
after_call-IsTracked (loses pn) h tracked allowed = (removes-Succeeds h pn tracked allowed).1
