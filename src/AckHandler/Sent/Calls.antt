-- ===== src/AckHandler/Sent/Calls.antt =====
-- Removing a packet by its number.
use uquic.Shared.{
  ℕ, zero, suc, ◌+◌, ◌<◌, ◌≡◌, refl, sym, ap, ◌∙◌, subst, ◌⊎◌, inl, inr, true, false, Option, none,
  some, List, [], ◌∷◌, arith, ◌==◌, if◌then◌else◌, if_of_true, if_of_false, Bool-cases,
  Option-cases, some-injective, Result, ok, err, Panic, panic, ◌>>=◌, ==_iff, length, get_elem?,
}
use uquic.AckHandler.Sent.{
  Packet, SentHistory, index_in, get_index, clear, clear_skipped, starts_with_nil, remove_at,
  remove_found, remove, declare_lost_at, declare_lost,
}
use uquic.AckHandler.Sent.Entries.{tally, IsNumbered, lookup, IsNumbered-clear, lookup_at}
use uquic.AckHandler.Sent.Removal.{IsCleared, clear_skipped-IsCleared}
use uquic.AckHandler.Sent.State.{
  Numbering, IsTracked, IsGone, cleaned, with_packets, discount_entry_lem, left_over,
  left_over_starts, left_over-IsTracked,
}

-- What an operation that removes a packet promises.
abbrev Removes : SentHistory → ℕ → Result Panic SentHistory → Type 0
Removes h pn r = (h' : SentHistory) × ((r ≡ ok h') × (IsTracked h' × IsGone pn h h'))

remove_at-Removes :
    (h : SentHistory) (highest i : ℕ) (p : Packet)
    → h.highest_packet_number ≡ some highest
    → IsNumbered (highest + 1) h.packets
    → tally h.packets ≡ h.num_outstanding
    → starts_with_nil h.packets ≡ false
    → get_elem? h.packets i ≡ some (some p)
    → Removes h p.packet_number (remove_at h i)
unfolding remove_at cleaned left_over
remove_at-Removes h highest i p is_highest numbered counted starts here =
    let r = clear_skipped i (clear i h.packets) in
    let cleared =
      clear_skipped-IsCleared (highest + 1) i (clear i h.packets)
        (IsNumbered-clear (highest + 1) i h.packets numbered) in
    (
      left_over h highest i r.0 p r.1 is_highest numbered starts here cleared,
      (
        ap
              (λ x. x >>= λ m.
                if starts_with_nil (cleaned r.0 r.1)
                then err panic
                else ok (with_packets h (cleaned r.0 r.1) m))
              (discount_entry_lem i h.num_outstanding h.packets p here counted)
            ∙ if_of_false (starts_with_nil (cleaned r.0 r.1)) _ _
                (left_over_starts h highest i r.0 p r.1 is_highest numbered starts here cleared),
        left_over-IsTracked h highest i r.0 p r.1 is_highest numbered starts here cleared,
      ),
    )

declare_lost_at-Removes :
    (h : SentHistory) (highest i : ℕ) (p : Packet)
    → h.highest_packet_number ≡ some highest
    → IsNumbered (highest + 1) h.packets
    → tally h.packets ≡ h.num_outstanding
    → starts_with_nil h.packets ≡ false
    → get_elem? h.packets i ≡ some (some p)
    → Removes h p.packet_number (declare_lost_at h (some i))
unfolding declare_lost_at cleaned left_over
declare_lost_at-Removes h highest i p is_highest numbered counted starts here =
    let one_less = clear i h.packets in
    let cleared : IsCleared (highest + 1) i one_less i one_less = record {
      numbered = IsNumbered-clear (highest + 1) i h.packets numbered;
      counted = refl;
      down = omega arith;
      starts = inr refl;
      kept = λ q. inl refl;
    } in
    (
      left_over h highest i i p one_less is_highest numbered starts here cleared,
      (
        ap (λ x. x >>= λ m. ok (with_packets h (cleaned i one_less) m))
            (discount_entry_lem i h.num_outstanding h.packets p here counted),
        left_over-IsTracked h highest i i p one_less is_highest numbered starts here cleared,
      ),
    )

index_in_lem :
    (next i pn : ℕ) (entries : List (Option Packet))
    → IsNumbered next entries
    → starts_with_nil entries ≡ false
    → i < length entries
    → pn + length entries ≡ next + i
    → index_in entries pn ≡ ok (some i)
unfolding index_in
index_in_lem next i pn [] numbered starts inside at = absurd (omega arith)
index_in_lem next i pn (none ∷ entries) numbered starts inside at = absurd (cc starts)
index_in_lem next i pn (some first ∷ entries) numbered starts inside at = grind (arith, numbered.0)

-- A numbered slice with a packet has a highest packet number.
known_highest :
    (h : SentHistory) (pn : ℕ) (p : Packet)
    → IsTracked h
    → lookup h.packets pn ≡ some p
    → (highest : ℕ) × ((h.highest_packet_number ≡ some highest)
        × IsNumbered (highest + 1) h.packets)
unfolding lookup
known_highest h pn p tracked found = elim (Option-cases h.highest_packet_number) [
  | inl nothing ↦ absurd (
      cc (
        ap (λ es. lookup es pn) (sym (subst (λ o. Numbering o h.packets) nothing tracked.numbered))
        ∙ found))
  | inr (highest, is) ↦ (highest, (is, subst (λ o. Numbering o h.packets) is tracked.numbered))
]

lookup-number :
    (entries : List (Option Packet)) (pn : ℕ) (p : Packet)
    → lookup entries pn ≡ some p
    → p.packet_number ≡ pn
unfolding lookup
lookup-number [] pn p found = absurd (cc found)
lookup-number (none ∷ entries) pn p found = lookup-number entries pn p found
lookup-number (some r ∷ entries) pn p found = elim (Bool-cases (r.packet_number == pn)) [
  | inl same ↦
      ap (λ (x : Packet). x.packet_number)
        (sym (some-injective (sym (if_of_true _ _ _ same) ∙ found)))
      ∙ (==_iff r.packet_number pn).0 same
  | inr other ↦ lookup-number entries pn p (sym (if_of_false _ _ _ other) ∙ found)
]

inside_of :
    (i : ℕ) (entries : List (Option Packet)) (p : Packet)
    → get_elem? entries i ≡ some (some p)
    → i < length entries
inside_of i [] p here = absurd (cc here)
inside_of zero (entry ∷ entries) p here = omega arith
inside_of (suc i) (entry ∷ entries) p here = omega (arith, inside_of i entries p here)

-- The index of a packet of a tracked history, by its number.
abbrev pub IsIndexed : SentHistory → ℕ → Packet → Type 0
IsIndexed h pn p =
    (highest : ℕ) × ((i : ℕ) × ((h.highest_packet_number ≡ some highest)
        × (IsNumbered (highest + 1) h.packets
            × ((get_elem? h.packets i ≡ some (some p)) × (get_index h pn ≡ ok (some i))))))

pub indexed :
    (h : SentHistory) (pn : ℕ) (p : Packet)
    → IsTracked h
    → lookup h.packets pn ≡ some p
    → IsIndexed h pn p
unfolding get_index
indexed h pn p tracked found =
    let (highest, (is, numbered)) = known_highest h pn p tracked found in
    let (i, (here, at)) = lookup_at (highest + 1) h.packets pn p numbered found in
    (
      highest,
      (
        i,
        (
          is,
          (
            numbered,
            (
              here,
              index_in_lem (highest + 1) i pn h.packets numbered tracked.starts
                  (inside_of i h.packets p here) at,
            ),
          ),
        ),
      ),
    )

-- `pn` has no packet any more, and any other number has the packet it had, but for skipped packets below `pn`.
abbrev pub Forgets : ℕ → SentHistory → SentHistory → Type 0
Forgets pn h h' =
    (lookup h'.packets pn ≡ none)
    × ((q : ℕ)
        → (q ≡ pn)
          ⊎ ((lookup h'.packets q ≡ lookup h.packets q)
              ⊎ ((q < pn)
                  × ((p : Packet) × ((lookup h.packets q ≡ some p) × (p.skipped_packet ≡ true))))))

IsGone-Forgets : (n pn : ℕ) (h h' : SentHistory) → n ≡ pn → IsGone n h h' → Forgets pn h h'
IsGone-Forgets n pn h h' same gone =
    let (nothing, others) = subst (λ m. IsGone m h h') same gone in
    (
      nothing,
      λ q. elim (Bool-cases (q == pn)) [
        | inl e ↦ inl ((==_iff q pn).0 e)
        | inr other ↦ inr (others q (λ e. absurd (grind arith)))
      ],
    )

-- Removing a packet that the history has succeeds. Afterwards the history is tracked and has no
-- packet with that number, and any other number has the packet it had, unless that was a skipped
-- packet below the one removed.
pub remove_lem :
    (h : SentHistory) (pn : ℕ) (p : Packet)
    → IsTracked h
    → lookup h.packets pn ≡ some p
    → (h' : SentHistory) × ((remove h pn ≡ ok (true, h')) × (IsTracked h' × Forgets pn h h'))
unfolding remove remove_found
remove_lem h pn p tracked found =
    let (highest, (i, (is, (numbered, (here, index))))) = indexed h pn p tracked found in
    let (h', (removed, (tracked', gone))) =
      remove_at-Removes h highest i p is numbered tracked.counted tracked.starts here in
    (
      h',
      (
        ap (λ r. r >>= remove_found h) index ∙ ap (λ r. r >>= λ h1. ok (true, h1)) removed,
        (
          tracked',
          IsGone-Forgets p.packet_number pn h h' (lookup-number h.packets pn p found) gone,
        ),
      ),
    )

-- Declaring a packet lost that the history has succeeds, and removes it in the same way.
pub declare_lost_lem :
    (h : SentHistory) (pn : ℕ) (p : Packet)
    → IsTracked h
    → lookup h.packets pn ≡ some p
    → (h' : SentHistory) × ((declare_lost h pn ≡ ok h') × (IsTracked h' × Forgets pn h h'))
unfolding declare_lost
declare_lost_lem h pn p tracked found =
    let (highest, (i, (is, (numbered, (here, index))))) = indexed h pn p tracked found in
    let (h', (lost, (tracked', gone))) =
      declare_lost_at-Removes h highest i p is numbered tracked.counted tracked.starts here in
    (
      h',
      (
        ap (λ r. r >>= declare_lost_at h) index ∙ lost,
        (
          tracked',
          IsGone-Forgets p.packet_number pn h h' (lookup-number h.packets pn p found) gone,
        ),
      ),
    )
