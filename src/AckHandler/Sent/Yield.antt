-- ===== src/AckHandler/Sent/Yield.antt =====
-- What iterating over the packets of a history yields.
use uquic.Shared.{
  ℕ, ◌+◌, ◌≤◌, ◌<◌, ◌≡◌, sym, ◌∙◌, subst, inl, inr, false, Option, none, some, List, [], ◌∷◌, arith,
  ◌==◌, if_of_true, if_of_false, Option-cases, length, All,
}
use uquic.AckHandler.Sent.{Packet, SentHistory, yielded, starts_with_nil}
use uquic.AckHandler.Sent.Entries.{IsNumbered, lookup}
use uquic.AckHandler.Sent.State.{IsTracked, Numbering}

-- The packet numbers rise.
abbrev pub IsRising : ℕ → List Packet → Type 0
IsRising from [] = Unit
IsRising from (p ∷ ps) = (from ≤ p.packet_number) × IsRising (p.packet_number + 1) ps

IsNumbered-IsRising :
    (next n : ℕ) (entries : List (Option Packet))
    → IsNumbered next entries
    → n + length entries ≤ next
    → IsRising n (yielded entries)
unfolding yielded
IsNumbered-IsRising next n [] numbered fits = tt
IsNumbered-IsRising next n (none ∷ entries) numbered fits =
    IsNumbered-IsRising next n entries numbered (omega arith)
IsNumbered-IsRising next n (some p ∷ entries) numbered fits = (
  omega (arith, numbered.0),
  IsNumbered-IsRising next (p.packet_number + 1) entries numbered.1 (omega (arith, numbered.0)),
)

-- The packets of a numbered slice are found under their numbers.
abbrev pub AllFound : List (Option Packet) → List Packet → Type 0
AllFound entries ps = All (λ (p : Packet). lookup entries p.packet_number ≡ some p) ps

AllFound-cons :
    (n : ℕ) (r : Packet) (entries : List (Option Packet)) (ps : List Packet)
    → r.packet_number < n
    → IsRising n ps
    → AllFound entries ps
    → AllFound (some r ∷ entries) ps
unfolding lookup
AllFound-cons n r entries [] below rising found = tt
AllFound-cons n r entries (p ∷ ps) below (from, rising) (first, found) = (
  if_of_false (r.packet_number == p.packet_number) _ _ (ground arith) ∙ first,
  AllFound-cons (p.packet_number + 1) r entries ps (omega arith) rising found,
)

yielded-AllFound :
    (next n : ℕ) (entries : List (Option Packet))
    → IsNumbered next entries
    → n + length entries ≤ next
    → AllFound entries (yielded entries)
unfolding yielded lookup
yielded-AllFound next n [] numbered fits = tt
yielded-AllFound next n (none ∷ entries) numbered fits =
    yielded-AllFound next n entries numbered (omega arith)
yielded-AllFound next n (some p ∷ entries) (here, numbered) fits = (
  if_of_true (p.packet_number == p.packet_number) _ _ (ground arith),
  AllFound-cons (p.packet_number + 1) p entries (yielded entries) (omega arith)
      (IsNumbered-IsRising next (p.packet_number + 1) entries numbered (omega arith))
      (yielded-AllFound next (p.packet_number + 1) entries numbered (omega arith)),
)

fits :
    (next : ℕ) (entries : List (Option Packet))
    → IsNumbered next entries
    → starts_with_nil entries ≡ false
    → 0 + length entries ≤ next
fits next [] numbered starts = omega arith
fits next (none ∷ entries) numbered starts = absurd (cc starts)
fits next (some p ∷ entries) numbered starts = omega (arith, numbered.0)

pub tracked-IsRising : (h : SentHistory) → IsTracked h → IsRising 0 (yielded h.packets)
tracked-IsRising h tracked = elim (Option-cases h.highest_packet_number) [
  | inl nothing ↦
      let empty = subst (λ o. Numbering o h.packets) nothing tracked.numbered in
      subst (λ es. IsRising 0 (yielded es)) (sym empty) (unfold yielded in tt)
  | inr (highest, is) ↦
      let numbered = subst (λ o. Numbering o h.packets) is tracked.numbered in
      IsNumbered-IsRising (highest + 1) 0 h.packets numbered
        (fits (highest + 1) h.packets numbered tracked.starts)
]

pub tracked-AllFound : (h : SentHistory) → IsTracked h → AllFound h.packets (yielded h.packets)
tracked-AllFound h tracked = elim (Option-cases h.highest_packet_number) [
  | inl nothing ↦
      let empty = subst (λ o. Numbering o h.packets) nothing tracked.numbered in
      subst (λ es. AllFound es (yielded es)) (sym empty) (unfold yielded in tt)
  | inr (highest, is) ↦
      let numbered = subst (λ o. Numbering o h.packets) is tracked.numbered in
      yielded-AllFound (highest + 1) 0 h.packets numbered
        (fits (highest + 1) h.packets numbered tracked.starts)
]
