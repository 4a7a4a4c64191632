-- ===== src/AckHandler/Sender/Picked.antt =====
-- The packets that an ACK frame picks, as packets of the history.
use uquic.Shared.{
  ℕ, ◌+◌, ◌≤◌, ◌<◌, ◌≡◌, refl, sym, ap, ◌∙◌, subst, ◌⊎◌, inl, inr, Bool, not, Option, none, some,
  List, [], ◌∷◌, arith, ◌==◌, if_intro, if_intro_known, ok, err, ==_iff, All,
}
use uquic.AckHandler.Sent.{Packet, SentHistory, remove_probe}
use uquic.AckHandler.Sent.Entries.{lookup}
use uquic.AckHandler.Sent.Calls.{Forgets}
use uquic.AckHandler.Sent.Yield.{IsRising, AllFound}
use uquic.AckHandler.Sent.Flight.{charge, AllSent, AllSent-at, AllProbes, AllHandled}
use uquic.AckHandler.Sender.{SenderError, ack_for_unsent_packet, ack_for_skipped_packet}
use uquic.AckHandler.Sender.Acks.{Collected, add_acked, add_probe}
use uquic.AckHandler.Sender.Covered.{select}

-- What packets count in bytes in flight.
unfoldable pub charges : List Packet → ℕ
charges [] = 0
charges (p ∷ ps) = charge p + charges ps

-- The history has a packet with the number of each, that counts the same.
abbrev pub AllOwed : List (Option Packet) → List Packet → Type 0
AllOwed entries ps =
    All
      (λ (p : Packet).
        (q : Packet) × ((lookup entries p.packet_number ≡ some q) × (charge q ≡ charge p)))
      ps

-- The errors that an ACK frame may give.
abbrev pub IsRefusal : SenderError → Type 0
IsRefusal e = (e ≡ ack_for_unsent_packet) ⊎ ((pn : ℕ) × (e ≡ ack_for_skipped_packet pn))

abbrev pub IsPicked : ℕ → List (Option Packet) → Collected → Type 0
IsPicked n entries (ok (acked, probes)) =
    IsRising n acked × (AllOwed entries acked × AllProbes probes)
IsPicked n entries (err e) = IsRefusal e

IsRising-mono : (m n : ℕ) (ps : List Packet) → m ≤ n → IsRising n ps → IsRising m ps
IsRising-mono m n [] h rising = tt
IsRising-mono m n (p ∷ ps) h (from, rising) = (omega arith, rising)

IsPicked-mono :
    (m n : ℕ) (entries : List (Option Packet)) (c : Collected)
    → m ≤ n
    → IsPicked n entries c
    → IsPicked m entries c
IsPicked-mono m n entries (ok (acked, probes)) h (rising, rest) =
    (IsRising-mono m n acked h rising, rest)
IsPicked-mono m n entries (err e) h refused = refused

add_acked-IsPicked :
    (n : ℕ) (entries : List (Option Packet)) (p q : Packet) (c : Collected)
    → n ≤ p.packet_number
    → lookup entries p.packet_number ≡ some q
    → charge q ≡ charge p
    → IsPicked (p.packet_number + 1) entries c
    → IsPicked n entries (add_acked p c)
add_acked-IsPicked n entries p q (ok (acked, probes)) from found same (rising, (owed, fine)) =
    ((from, rising), (((q, (found, same)), owed), fine))
add_acked-IsPicked n entries p q (err e) from found same refused = refused

-- A path probe that is taken has the number, and does not count; the others stay.
abbrev pub IsProbe : ℕ → Option Packet × List Packet → Type 0
IsProbe pn (none, left) = AllProbes left
IsProbe pn (some p, left) = (p.packet_number ≡ pn) × ((charge p ≡ 0) × AllProbes left)

IsProbe-cons :
    (p : Packet) (pn : ℕ) (r : Option Packet × List Packet)
    → (charge p ≡ 0) × AllHandled p.frames
    → IsProbe pn r
    → IsProbe pn (r.0, p ∷ r.1)
IsProbe-cons p pn (none, left) here fine = (here, fine)
IsProbe-cons p pn (some q, left) here (same, (free, fine)) = (same, (free, (here, fine)))

pub remove_probe-IsProbe :
    (probes : List Packet) (pn : ℕ) → AllProbes probes → IsProbe pn (remove_probe probes pn)
unfolding remove_probe
remove_probe-IsProbe [] pn fine = tt
remove_probe-IsProbe (p ∷ probes) pn (here, fine) =
    if_intro_known (IsProbe pn) (p.packet_number == pn)
      (λ same. ((==_iff p.packet_number pn).0 same, (here.0, fine)))
      (λ other.
        IsProbe-cons p pn (remove_probe probes pn) here (remove_probe-IsProbe probes pn fine))

add_probe-IsPicked :
    (n : ℕ) (entries : List (Option Packet)) (p : Packet) (r : Option Packet × List Packet)
    (c : Collected)
    → n ≤ p.packet_number
    → lookup entries p.packet_number ≡ some p
    → charge p ≡ 0
    → IsProbe p.packet_number r
    → IsPicked (p.packet_number + 1) entries c
    → IsPicked n entries (add_probe r.0 c)
add_probe-IsPicked n entries p (none, left) c from found free fine picked =
    IsPicked-mono n (p.packet_number + 1) entries c (omega arith) picked
add_probe-IsPicked n entries p (some q, left) c from found free (same, (free_q, fine)) picked =
    add_acked-IsPicked n entries q p c (omega arith) (ap (lookup entries) same ∙ found)
      (free ∙ sym free_q) (subst (λ k. IsPicked (k + 1) entries c) (sym same) picked)

pub IsProbe-left : (pn : ℕ) (r : Option Packet × List Packet) → IsProbe pn r → AllProbes r.1
IsProbe-left pn (none, left) fine = fine
IsProbe-left pn (some q, left) (same, (free, fine)) = fine

-- What is selected is in the history, and path probes that stay are path probes.
pub select-IsPicked :
    (test : ℕ → Bool) (n : ℕ) (entries : List (Option Packet)) (ps probes : List Packet)
    → IsRising n ps
    → AllFound entries ps
    → AllSent entries
    → AllProbes probes
    → IsPicked n entries (select test ps probes)
unfolding select
select-IsPicked test n entries [] probes rising found sent fine = (tt, (tt, fine))
select-IsPicked test n entries (p ∷ ps) probes (from, rising) (first, found) sent fine =
    let r = remove_probe probes p.packet_number in
    let probe = remove_probe-IsProbe probes p.packet_number fine in
    let rest =
      select-IsPicked test (p.packet_number + 1) entries ps probes rising found sent fine in
    let later =
      select-IsPicked test (p.packet_number + 1) entries ps r.1 rising found sent
        (IsProbe-left p.packet_number r probe) in
    let sent_here = AllSent-at entries p.packet_number p sent first in
    if_intro (IsPicked n entries) (not (test p.packet_number))
      (IsPicked-mono n (p.packet_number + 1) entries (select test ps probes) (omega arith) rest)
      (if_intro (IsPicked n entries) p.skipped_packet (inr (p.packet_number, refl)) (
        if_intro_known (IsPicked n entries) p.is_path_probe_packet
          (λ is_probe. elim sent_here [
            | inl (regular, frames) ↦ absurd (ground arith)
            | inr (irregular, free) ↦
                add_probe-IsPicked n entries p r (select test ps r.1) from first free probe later
          ])
          (λ is_data.
            add_acked-IsPicked n entries p p (select test ps probes) from first refl rest)))

pub Forgets-AllOwed :
    (pn n : ℕ) (h h' : SentHistory) (ps : List Packet)
    → Forgets pn h h'
    → pn < n
    → IsRising n ps
    → AllOwed h.packets ps
    → AllOwed h'.packets ps
Forgets-AllOwed pn n h h' [] forgets below rising owed = tt
Forgets-AllOwed pn n h h' (p ∷ ps) forgets below (from, rising) ((q, (found, same)), owed) = (
  (
    q,
    (
      elim (forgets.1 p.packet_number) [
        | inl equal ↦ absurd (omega arith)
        | inr (inl kept) ↦ kept ∙ found
        | inr (inr skipped) ↦ absurd (omega (arith, skipped.0))
      ],
      same,
    ),
  ),
  Forgets-AllOwed pn (p.packet_number + 1) h h' ps forgets (omega arith) rising owed,
)
