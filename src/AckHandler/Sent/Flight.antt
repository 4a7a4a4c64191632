-- ===== src/AckHandler/Sent/Flight.antt =====
-- The bytes in flight of the packets in a history, and what the operations that take a packet out do to them.
use uquic.Shared.{
  ℕ, zero, suc, ◌+◌, ◌≤◌, ◌≡◌, refl, sym, ap, ◌∙◌, subst, ◌⊎◌, inl, inr, Bool, true, false, not,
  ◌&&◌, Option, none, some, List, [], ◌∷◌, arith, ◌==◌, if◌then◌else◌, if_of_true, if_of_false,
  if_intro, if_intro_known, Bool-cases, some-injective, ok-injective, Result, ok, err, Panic, panic,
  ◌>>=◌, get_elem?, All,
}
use uquic.AckHandler.Sent.{
  is_skipped, clear_skipped, remove, remove_found, remove_at, starts_with_nil, is_empty_list,
  HandledFrame, Packet, SentHistory, clear, cleanup_start, discount_entry, declare_lost_at,
  declare_lost,
}
use uquic.AckHandler.Sent.Entries.{lookup}
use uquic.AckHandler.Sent.State.{IsTracked, with_packets}
use uquic.AckHandler.Sent.Calls.{indexed, Forgets, declare_lost_lem, remove_lem}

-- What a packet counts in bytes in flight.
abbrev pub charge : Packet → ℕ
charge p = if p.included_in_bytes_in_flight then p.length else 0

unfoldable pub flight : List (Option Packet) → ℕ
flight [] = 0
flight (none ∷ entries) = flight entries
flight (some p ∷ entries) = charge p + flight entries

abbrev pub is_empty_frames : Packet → Bool
is_empty_frames p = is_empty_list p.frames && is_empty_list p.stream_frames

-- A packet that was sent has frames; a skipped one, or a placeholder, is not in flight.
abbrev pub IsSent : Packet → Type 0
IsSent p =
    (((not p.skipped_packet && not p.is_path_probe_packet) ≡ true) × (is_empty_frames p ≡ false))
    ⊎ (((not p.skipped_packet && not p.is_path_probe_packet) ≡ false) × (charge p ≡ 0))

abbrev pub AllSent : List (Option Packet) → Type 0
AllSent [] = Unit
AllSent (none ∷ entries) = AllSent entries
AllSent (some p ∷ entries) = IsSent p × AllSent entries

flight-clear :
    (i : ℕ) (entries : List (Option Packet)) (p : Packet)
    → get_elem? entries i ≡ some (some p)
    → charge p + flight (clear i entries) ≡ flight entries
unfolding clear flight
flight-clear i [] p q = absurd (cc q)
flight-clear zero (none ∷ entries) p q = absurd (cc q)
flight-clear zero (some r ∷ entries) p q =
    ap (λ (x : Packet). charge x + flight entries) (sym (some-injective (some-injective q)))
flight-clear (suc i) (none ∷ entries) p q = flight-clear i entries p q
flight-clear (suc i) (some r ∷ entries) p q =
    let ih = flight-clear i entries p q in omega (arith, ih)

flight-cleanup_start :
    (entries : List (Option Packet)) → flight (cleanup_start entries) ≡ flight entries
unfolding cleanup_start flight
flight-cleanup_start [] = refl
flight-cleanup_start (none ∷ entries) = flight-cleanup_start entries
flight-cleanup_start (some p ∷ entries) = refl

AllSent-clear :
    (i : ℕ) (entries : List (Option Packet)) → AllSent entries → AllSent (clear i entries)
unfolding clear
AllSent-clear i [] sent = sent
AllSent-clear zero (none ∷ entries) sent = sent
AllSent-clear zero (some p ∷ entries) sent = sent.1
AllSent-clear (suc i) (none ∷ entries) sent = AllSent-clear i entries sent
AllSent-clear (suc i) (some p ∷ entries) sent = (sent.0, AllSent-clear i entries sent.1)

AllSent-cleanup_start :
    (entries : List (Option Packet)) → AllSent entries → AllSent (cleanup_start entries)
unfolding cleanup_start
AllSent-cleanup_start [] sent = sent
AllSent-cleanup_start (none ∷ entries) sent = AllSent-cleanup_start entries sent
AllSent-cleanup_start (some p ∷ entries) sent = sent

-- Every frame has a handler.
abbrev pub AllHandled : List HandledFrame → Type 0
AllHandled fs = All (λ (f : HandledFrame). f.has_handler ≡ true) fs

-- The path probes do not count in bytes in flight, and their frames have handlers.
abbrev pub AllProbes : List Packet → Type 0
AllProbes ps = All (λ (p : Packet). (charge p ≡ 0) × AllHandled p.frames) ps

pub AllSent-at :
    (entries : List (Option Packet)) (pn : ℕ) (p : Packet)
    → AllSent entries
    → lookup entries pn ≡ some p
    → IsSent p
unfolding lookup
AllSent-at [] pn p sent found = absurd (cc found)
AllSent-at (none ∷ entries) pn p sent found = AllSent-at entries pn p sent found
AllSent-at (some r ∷ entries) pn p sent found = elim (Bool-cases (r.packet_number == pn)) [
  | inl same ↦ subst IsSent (some-injective (sym (if_of_true _ _ _ same) ∙ found)) sent.0
  | inr other ↦ AllSent-at entries pn p sent.1 (sym (if_of_false _ _ _ other) ∙ found)
]

pub charge-le :
    (entries : List (Option Packet)) (pn : ℕ) (p : Packet)
    → lookup entries pn ≡ some p
    → charge p ≤ flight entries
unfolding lookup flight
charge-le [] pn p found = absurd (cc found)
charge-le (none ∷ entries) pn p found = charge-le entries pn p found
charge-le (some r ∷ entries) pn p found = elim (Bool-cases (r.packet_number == pn)) [
  | inl same ↦
      let e = ap charge (some-injective (sym (if_of_true _ _ _ same) ∙ found)) in omega (arith, e)
  | inr other ↦ omega (arith, charge-le entries pn p (sym (if_of_false _ _ _ other) ∙ found))
]

-- What declaring a packet lost leaves.
abbrev lost_entries : ℕ → List (Option Packet) → List (Option Packet)
lost_entries i entries = if i == 0 then cleanup_start (clear i entries) else clear i entries

abbrev IsLess : Packet → SentHistory → SentHistory → Type 0
IsLess p h h' =
    (charge p + flight h'.packets ≡ flight h.packets)
    × ((AllSent h.packets → AllSent h'.packets) × (h'.path_probe_packets ≡ h.path_probe_packets))

lost_entries-IsLess :
    (i : ℕ) (entries : List (Option Packet)) (p : Packet)
    → get_elem? entries i ≡ some (some p)
    → (charge p + flight (lost_entries i entries) ≡ flight entries)
      × (AllSent entries → AllSent (lost_entries i entries))
lost_entries-IsLess i entries p here =
    if_intro (λ es. (charge p + flight es ≡ flight entries) × (AllSent entries → AllSent es))
      (i == 0)
      (
        ap (λ n. charge p + n) (flight-cleanup_start (clear i entries))
            ∙ flight-clear i entries p here,
        λ sent. AllSent-cleanup_start (clear i entries) (AllSent-clear i entries sent),
      )
      (flight-clear i entries p here, AllSent-clear i entries)

after_discount :
    (h h' : SentHistory) (i : ℕ) (p : Packet) (r : Result Panic ℕ)
    → get_elem? h.packets i ≡ some (some p)
    → (r >>= λ n. ok (with_packets h (lost_entries i h.packets) n)) ≡ ok h'
    → IsLess p h h'
after_discount h h' i p (ok n) here is =
    let (less, sent) = lost_entries-IsLess i h.packets p here in
    subst (IsLess p h) (ok-injective is) (less, (sent, refl))
after_discount h h' i p (err e) here is = absurd (cc is)

-- Declaring a packet lost that the history has succeeds, takes it out, and takes its bytes from those in flight.
abbrev pub LosesOne : SentHistory → ℕ → Packet → Type 0
LosesOne h pn p =
    (h' : SentHistory) × ((declare_lost h pn ≡ ok h')
      × (IsTracked h' × (Forgets pn h h' × IsLess p h h')))

pub declare_lost-LosesOne :
    (h : SentHistory) (pn : ℕ) (p : Packet)
    → IsTracked h
    → lookup h.packets pn ≡ some p
    → LosesOne h pn p
unfolding declare_lost declare_lost_at
declare_lost-LosesOne h pn p tracked found =
    let (h', (lost, (tracked', forgets))) = declare_lost_lem h pn p tracked found in
    let (highest, (i, (is, (numbered, (here, index))))) = indexed h pn p tracked found in
    let at : declare_lost_at h (some i) ≡ ok h' =
      sym (ap (λ r. r >>= declare_lost_at h) index) ∙ lost in
    (
      h',
      (
        lost,
        (
          tracked',
          (
            forgets,
            after_discount h h' i p (discount_entry (get_elem? h.packets i) h.num_outstanding) here
                at,
          ),
        ),
      ),
    )

-- A packet that was skipped does not count.
clear_one :
    (i : ℕ) (entries : List (Option Packet))
    → AllSent entries
    → is_skipped (get_elem? entries i) ≡ true
    → (flight (clear i entries) ≡ flight entries) × AllSent (clear i entries)
unfolding clear flight
clear_one i [] sent skipped = (refl, tt)
clear_one zero (none ∷ entries) sent skipped = (refl, sent)
clear_one zero (some p ∷ entries) (inl (regular, frames), sent) skipped = absurd (ground arith)
clear_one zero (some p ∷ entries) (inr (irregular, free), sent) skipped =
    (omega (arith, free), sent)
clear_one (suc i) (none ∷ entries) sent skipped = clear_one i entries sent skipped
clear_one (suc i) (some p ∷ entries) (first, sent) skipped =
    let (same, rest) = clear_one i entries sent skipped in (omega (arith, same), (first, rest))

clear_skipped-flight :
    (i : ℕ) (entries : List (Option Packet))
    → AllSent entries
    → (flight (clear_skipped i entries).1 ≡ flight entries) × AllSent (clear_skipped i entries).1
unfolding clear_skipped
clear_skipped-flight zero entries sent = (refl, sent)
clear_skipped-flight (suc i) entries sent =
    if_intro_known (λ (r : ℕ × List (Option Packet)). (flight r.1 ≡ flight entries) × AllSent r.1)
      (is_skipped (get_elem? entries i))
      (λ skipped.
        let (same, sent1) = clear_one i entries sent skipped in
        let (same2, sent2) = clear_skipped-flight i (clear i entries) sent1 in
        (same2 ∙ same, sent2))
      (λ kept. (refl, sent))

-- The slice when `remove_at` is through with it.
abbrev removed_entries : ℕ → List (Option Packet) → List (Option Packet)
removed_entries i entries =
    let (at, left) = clear_skipped i (clear i entries) in
    if at == 0 then cleanup_start left else left

removed_entries-flight :
    (i : ℕ) (entries : List (Option Packet)) (p : Packet)
    → get_elem? entries i ≡ some (some p)
    → AllSent entries
    → (charge p + flight (removed_entries i entries) ≡ flight entries)
      × AllSent (removed_entries i entries)
removed_entries-flight i entries p here sent =
    let r = clear_skipped i (clear i entries) in
    let (same, sent1) = clear_skipped-flight i (clear i entries) (AllSent-clear i entries sent) in
    let less = flight-clear i entries p here in
    if_intro (λ es. (charge p + flight es ≡ flight entries) × AllSent es) (r.0 == 0)
      (omega (arith, same, less, flight-cleanup_start r.1), AllSent-cleanup_start r.1 sent1)
      (omega (arith, same, less), sent1)

after_removal :
    (h h' : SentHistory) (i : ℕ) (p : Packet) (r : Result Panic ℕ)
    → get_elem? h.packets i ≡ some (some p)
    → AllSent h.packets
    → (r >>= λ n.
        if starts_with_nil (removed_entries i h.packets)
        then err panic
        else ok (with_packets h (removed_entries i h.packets) n))
      ≡ ok h'
    → IsLess p h h'
after_removal h h' i p (ok n) here sent is =
    elim (Bool-cases (starts_with_nil (removed_entries i h.packets))) [
      | inl nil ↦ absurd (
          cc (
            is,
            if_of_true (starts_with_nil (removed_entries i h.packets)) (err panic)
                (ok (with_packets h (removed_entries i h.packets) n)) nil,
          ))
      | inr fine ↦
          let (less, sent1) = removed_entries-flight i h.packets p here sent in
          subst (IsLess p h) (ok-injective (sym (if_of_false _ _ _ fine) ∙ is))
            (less, ((λ x. sent1), refl))
    ]
after_removal h h' i p (err e) here sent is = absurd (cc is)

without_true :
    (r : Result Panic SentHistory) (h' : SentHistory)
    → ◌>>=◌ {B = Bool × SentHistory} r (λ h1. ok (true, h1)) ≡ ok (true, h')
    → r ≡ ok h'
without_true (ok h1) h' is = ap (λ h. ok h) (ap (λ (x : Bool × SentHistory). x.1) (ok-injective is))
without_true (err e) h' is = absurd (cc is)

-- Removing a packet that the history has succeeds, takes it out, and takes its bytes from those in flight.
abbrev pub RemovesOne : SentHistory → ℕ → Packet → Type 0
RemovesOne h pn p =
    (h' : SentHistory) × ((remove h pn ≡ ok (true, h'))
      × (IsTracked h' × (Forgets pn h h' × IsLess p h h')))

pub remove-RemovesOne :
    (h : SentHistory) (pn : ℕ) (p : Packet)
    → IsTracked h
    → AllSent h.packets
    → lookup h.packets pn ≡ some p
    → RemovesOne h pn p
unfolding remove remove_found remove_at
remove-RemovesOne h pn p tracked sent found =
    let (h', (removed, (tracked', forgets))) = remove_lem h pn p tracked found in
    let (highest, (i, (is, (numbered, (here, index))))) = indexed h pn p tracked found in
    let at : remove_found h (some i) ≡ ok (true, h') =
      sym (ap (λ r. r >>= remove_found h) index) ∙ removed in
    (
      h',
      (
        removed,
        (
          tracked',
          (
            forgets,
            after_removal h h' i p (discount_entry (get_elem? h.packets i) h.num_outstanding) here
                sent (without_true _ h' at),
          ),
        ),
      ),
    )
