-- ===== src/AckHandler/Sent/State.antt =====
-- The history of sent packets between its operations.
use uquic.Shared.{
  ℕ, zero, suc, ◌+◌, ◌<◌, ◌≡◌, refl, sym, ap, ◌∙◌, subst, ◌≢◌, ◌⊎◌, inl, inr, true, false, Option,
  none, some, List, [], arith, ◌==◌, if◌then◌else◌, if_of_true, if_of_false, if_intro,
  if_intro_known, Bool-cases, ok, length, get_elem?,
}
use uquic.AckHandler.Sent.{
  Packet, outstanding, SentHistory, clear, cleanup_start, discount, discount_entry, starts_with_nil,
}
use uquic.AckHandler.Sent.Entries.{
  bit, tally, IsNumbered, lookup, length-clear, tally-clear, lookup-clear_same, lookup-clear_other,
  IsNumbered-cleanup_start, tally-cleanup_start, lookup-cleanup_start, starts-cleanup_start,
  starts-clear, number_at,
}
use uquic.AckHandler.Sent.Removal.{IsCleared}

-- The packets are numbered up to the highest packet number sent.
abbrev pub Numbering : Option ℕ → List (Option Packet) → Type 0
Numbering none entries = entries ≡ []
Numbering (some highest) entries = IsNumbered (highest + 1) entries

-- The slice is numbered and does not start with a nil pointer, and the outstanding packets are counted.
pub record IsTracked (h : SentHistory) : Type 0 where
  pub numbered : Numbering h.highest_packet_number h.packets
  pub counted : tally h.packets ≡ h.num_outstanding
  pub starts : starts_with_nil h.packets ≡ false

discount_lem : (p : Packet) (n t : ℕ) → bit (outstanding p) + t ≡ n → discount p n ≡ ok t
unfolding discount
discount_lem p n t sum = elim (Bool-cases (outstanding p)) [
  | inl out ↦ if_of_true (outstanding p) _ _ out ∙ grind arith
  | inr not_out ↦ if_of_false (outstanding p) _ _ not_out ∙ grind arith
]

-- A packet goes, and of the others at most skipped packets below it.
abbrev pub IsGone : ℕ → SentHistory → SentHistory → Type 0
IsGone pn h h' =
    (lookup h'.packets pn ≡ none)
    × ((q : ℕ)
        → q ≢ pn
        → (lookup h'.packets q ≡ lookup h.packets q)
          ⊎ ((q < pn)
              × ((p : Packet) × ((lookup h.packets q ≡ some p) × (p.skipped_packet ≡ true)))))

unfoldable pub cleaned : ℕ → List (Option Packet) → List (Option Packet)
cleaned at entries = if at == 0 then cleanup_start entries else entries

cleaned-lookup :
    (at : ℕ) (entries : List (Option Packet)) (q : ℕ)
    → lookup (cleaned at entries) q ≡ lookup entries q
unfolding cleaned
cleaned-lookup at entries q =
    if_intro (λ es. lookup es q ≡ lookup entries q) (at == 0) (lookup-cleanup_start entries q) refl

cleaned-tally :
    (at : ℕ) (entries : List (Option Packet)) → tally (cleaned at entries) ≡ tally entries
unfolding cleaned
cleaned-tally at entries =
    if_intro (λ es. tally es ≡ tally entries) (at == 0) (tally-cleanup_start entries) refl

cleaned-IsNumbered :
    (next at : ℕ) (entries : List (Option Packet))
    → IsNumbered next entries
    → IsNumbered next (cleaned at entries)
unfolding cleaned
cleaned-IsNumbered next at entries h =
    if_intro (IsNumbered next) (at == 0) (IsNumbered-cleanup_start next entries h) h

cleaned-starts :
    (at : ℕ) (entries : List (Option Packet))
    → (at ≢ 0 → starts_with_nil entries ≡ false)
    → starts_with_nil (cleaned at entries) ≡ false
unfolding cleaned
cleaned-starts at entries h =
    if_intro_known (λ es. starts_with_nil es ≡ false) (at == 0) (λ _. starts-cleanup_start entries)
      (λ not_zero. h (grind arith))

starts-clear_inside :
    (i : ℕ) (entries : List (Option Packet))
    → i ≢ 0
    → starts_with_nil (clear i entries) ≡ starts_with_nil entries
starts-clear_inside zero entries inside = absurd (inside refl)
starts-clear_inside (suc i) entries inside = starts-clear i entries

module _ (next i pn at : ℕ) (entries left : List (Option Packet))
    (numbered : IsNumbered next entries) (here : pn + length entries ≡ next + i)
    (cleared : IsCleared next i (clear i entries) at left) where
  left_same : lookup left pn ≡ none
  left_same =
      let gone = lookup-clear_same next i pn entries numbered here in
      elim (cleared.kept pn) [
        | inl e ↦ e ∙ gone
        | inr (below, (p, (found, is))) ↦
            absurd (omega (arith, below, here, length-clear i entries))
      ]

  left_other :
      (q : ℕ)
      → q ≢ pn
      → (lookup left q ≡ lookup entries q)
        ⊎ ((q < pn) × ((p : Packet) × ((lookup entries q ≡ some p) × (p.skipped_packet ≡ true))))
  left_other q other =
      let e =
        lookup-clear_other next i q entries numbered (λ same. other (omega (arith, same, here))) in
      elim (cleared.kept q) [
        | inl f ↦ inl (f ∙ e)
        | inr (below, (p, (found, is))) ↦
            inr (omega (arith, below, here, length-clear i entries), (p, (sym e ∙ found, is)))
      ]

  left_starts : starts_with_nil entries ≡ false → at ≢ 0 → starts_with_nil left ≡ false
  left_starts starts inside = elim cleared.starts [
    | inl zero_at ↦ absurd (inside zero_at)
    | inr e ↦
        e ∙ (starts-clear_inside i entries (λ z. inside (omega (arith, cleared.down, z))) ∙ starts)
  ]

-- What is left of a history whose slice and count change.
abbrev pub with_packets : SentHistory → List (Option Packet) → ℕ → SentHistory
with_packets h entries n = record h { packets = entries; num_outstanding = n }

IsTracked-with_packets :
    (h : SentHistory) (highest n : ℕ) (entries : List (Option Packet))
    → h.highest_packet_number ≡ some highest
    → IsNumbered (highest + 1) entries
    → tally entries ≡ n
    → starts_with_nil entries ≡ false
    → IsTracked (with_packets h entries n)
IsTracked-with_packets h highest n entries is_highest numbered counted starts = record {
  numbered = subst (λ o. Numbering o entries) (sym is_highest) numbered;
  counted = counted;
  starts = starts;
}

pub discount_entry_lem :
    (i n : ℕ) (entries : List (Option Packet)) (p : Packet)
    → get_elem? entries i ≡ some (some p)
    → tally entries ≡ n
    → discount_entry (get_elem? entries i) n ≡ ok (tally (clear i entries))
unfolding discount_entry
discount_entry_lem i n entries p here counted =
    ap (λ x. discount_entry x n) here
    ∙ discount_lem p n (tally (clear i entries)) (tally-clear i entries p here ∙ counted)

-- A slice with one packet cleared, and at most skipped ones below it, cleaned up.
module _ (h : SentHistory) (highest i at : ℕ) (p : Packet) (left : List (Option Packet))
    (is_highest : h.highest_packet_number ≡ some highest)
    (numbered : IsNumbered (highest + 1) h.packets) (starts : starts_with_nil h.packets ≡ false)
    (here : get_elem? h.packets i ≡ some (some p))
    (cleared : IsCleared (highest + 1) i (clear i h.packets) at left) where
  unfoldable pub left_over : SentHistory
  left_over = with_packets h (cleaned at left) (tally (clear i h.packets))

  pub left_over_starts : starts_with_nil (cleaned at left) ≡ false
  left_over_starts = cleaned-starts at left (
      left_starts (highest + 1) i p.packet_number at h.packets left numbered
        (number_at (highest + 1) i h.packets p numbered here).0 cleared starts)

  pub left_over-IsTracked : IsTracked left_over × IsGone p.packet_number h left_over
  unfolding left_over
  left_over-IsTracked =
      let at_index = (number_at (highest + 1) i h.packets p numbered here).0 in
      (
        IsTracked-with_packets h highest (tally (clear i h.packets)) (cleaned at left) is_highest
            (cleaned-IsNumbered (highest + 1) at left cleared.numbered)
            (cleaned-tally at left ∙ cleared.counted) left_over_starts,
        (
          cleaned-lookup at left p.packet_number
              ∙ left_same (highest + 1) i p.packet_number at h.packets left numbered at_index
                  cleared,
          λ q other.
              elim (left_other (highest + 1) i p.packet_number at h.packets left numbered at_index
                cleared q other) [
                  | inl e ↦ inl (cleaned-lookup at left q ∙ e)
                  | inr skipped ↦ inr skipped
                ],
        ),
      )
