-- ===== src/AckHandler/Sent/First.antt =====
-- The first outstanding packet.
use uquic.Shared.{
  ℕ, ◌+◌, ◌≤◌, ◌≡◌, refl, sym, ap, ◌∙◌, subst, ◌⊎◌, inl, inr, Bool, true, false, not, Option, none,
  some, List, [], ◌∷◌, arith, ltb, ◌==◌, if_of_true, if_of_false, if_intro, Bool-cases,
  Option-cases, some-injective, lt→ltb,
}
use uquic.AckHandler.Sent.{
  Packet, outstanding, SentHistory, find_outstanding, first_outstanding, has_outstanding_packets,
}
use uquic.AckHandler.Sent.Entries.{bit, tally, IsNumbered, lookup, lookup_range, is_some}
use uquic.AckHandler.Sent.State.{Numbering, IsTracked}

tally_lem :
    (entries : List (Option Packet)) → ltb 0 (tally entries) ≡ is_some (find_outstanding entries)
unfolding tally find_outstanding
tally_lem [] = refl
tally_lem (none ∷ entries) = tally_lem entries
tally_lem (some p ∷ entries) = elim (Bool-cases (outstanding p)) [
  | inl out ↦ lt→ltb _ _ (grind arith) ∙ sym (ap is_some (if_of_true _ _ _ out))
  | inr not_out ↦
      ap (λ b. ltb 0 (bit b + tally entries)) not_out
      ∙ (ap (ltb 0) (omega arith)
          ∙ (tally_lem entries ∙ sym (ap is_some (if_of_false _ _ _ not_out))))
]

abbrev IsLeast : List (Option Packet) → Packet → Type 0
IsLeast entries p =
    (lookup entries p.packet_number ≡ some p)
    × ((outstanding p ≡ true)
        × ((pn : ℕ) (q : Packet)
            → lookup entries pn ≡ some q
            → outstanding q ≡ true
            → p.packet_number ≤ pn))

skip_first :
    (r : Packet) (entries : List (Option Packet)) (pn : ℕ) (q : Packet)
    → outstanding r ≡ false
    → lookup (some r ∷ entries) pn ≡ some q
    → outstanding q ≡ true
    → lookup entries pn ≡ some q
unfolding lookup
skip_first r entries pn q not_out has out = elim (Bool-cases (r.packet_number == pn)) [
  | inl same ↦
      absurd
        (cc (not_out, out, ap outstanding (some-injective (sym (if_of_true _ _ _ same) ∙ has))))
  | inr other ↦ sym (if_of_false _ _ _ other) ∙ has
]

find_outstanding_lem :
    (next : ℕ) (entries : List (Option Packet)) (p : Packet)
    → IsNumbered next entries
    → find_outstanding entries ≡ some p
    → IsLeast entries p
unfolding find_outstanding lookup
find_outstanding_lem next [] p h found = absurd (cc found)
find_outstanding_lem next (none ∷ entries) p h found = find_outstanding_lem next entries p h found
find_outstanding_lem next (some r ∷ entries) p h found = elim (Bool-cases (outstanding r)) [
  | inl out ↦
      subst (IsLeast (some r ∷ entries)) (some-injective (sym (if_of_true _ _ _ out) ∙ found)) (
        if_of_true (r.packet_number == r.packet_number) _ _ (grind arith),
        (out, λ pn q has _. omega (arith, h.0, lookup_range next (some r ∷ entries) pn q h has)),
      )
  | inr not_out ↦
      let (has, (out, lowest)) =
        find_outstanding_lem next entries p h.1 (sym (if_of_false _ _ _ not_out) ∙ found) in
      (
        if_of_false (r.packet_number == p.packet_number) _ _
              (grind (arith, h.0, lookup_range next entries p.packet_number p h.1 has))
            ∙ has,
        (
          out,
          λ pn q has_q out_q. lowest pn q (skip_first r entries pn q not_out has_q out_q) out_q,
        ),
      )
]

abbrev pub is_outstanding : Option Packet → Bool
is_outstanding none = false
is_outstanding (some p) = outstanding p

-- No packet, where none is outstanding, and otherwise the outstanding packet with the lowest number.
unfoldable pub IsLowest : List (Option Packet) → Option Packet → Type 0
IsLowest entries none = (pn : ℕ) → is_outstanding (lookup entries pn) ≡ false
IsLowest entries (some p) =
    (lookup entries p.packet_number ≡ some p)
    × ((outstanding p ≡ true)
        × ((pn : ℕ) → (is_outstanding (lookup entries pn) ≡ false) ⊎ (p.packet_number ≤ pn)))

found_none :
    (entries : List (Option Packet)) (pn : ℕ)
    → find_outstanding entries ≡ none
    → is_outstanding (lookup entries pn) ≡ false
unfolding find_outstanding lookup
found_none [] pn found = refl
found_none (none ∷ entries) pn found = found_none entries pn found
found_none (some r ∷ entries) pn found = elim (Bool-cases (outstanding r)) [
  | inl out ↦
      absurd (cc (found, if_of_true (outstanding r) (some r) (find_outstanding entries) out))
  | inr not_out ↦
      if_intro (λ o. is_outstanding o ≡ false) (r.packet_number == pn) not_out
        (found_none entries pn (sym (if_of_false _ _ _ not_out) ∙ found))
]

find_outstanding-IsLowest :
    (next : ℕ) (entries : List (Option Packet)) (found : Option Packet)
    → IsNumbered next entries
    → find_outstanding entries ≡ found
    → IsLowest entries found
unfolding IsLowest
find_outstanding-IsLowest next entries none h e = λ pn. found_none entries pn e
find_outstanding-IsLowest next entries (some p) h e =
    let (has, (out, least)) = find_outstanding_lem next entries p h e in
    (
      has,
      (
        out,
        λ pn. elim (Option-cases (lookup entries pn)) [
          | inl nothing ↦ inl (ap is_outstanding nothing)
          | inr (q, has_q) ↦ elim (Bool-cases (outstanding q)) [
            | inl out_q ↦ inr (least pn q has_q out_q)
            | inr not_out ↦ inl (ap is_outstanding has_q ∙ not_out)
          ]
        ],
      ),
    )

tracked-IsNumbered : (h : SentHistory) → IsTracked h → (next : ℕ) × IsNumbered next h.packets
tracked-IsNumbered h tracked = elim (Option-cases h.highest_packet_number) [
  | inl nothing ↦
      let empty = subst (λ o. Numbering o h.packets) nothing tracked.numbered in
      (0, subst (IsNumbered 0) (sym empty) tt)
  | inr (highest, is) ↦ (highest + 1, subst (λ o. Numbering o h.packets) is tracked.numbered)
]

first_outstanding_lem :
    (h : SentHistory) → IsTracked h → first_outstanding h ≡ find_outstanding h.packets
unfolding first_outstanding has_outstanding_packets
first_outstanding_lem h tracked =
    let counts : ltb 0 h.num_outstanding ≡ is_some (find_outstanding h.packets) =
      ap (ltb 0) (sym tracked.counted) ∙ tally_lem h.packets in
    elim (Option-cases (find_outstanding h.packets)) [
      | inl nothing ↦
          if_of_true (not (ltb 0 h.num_outstanding)) _ _ (ap not (counts ∙ ap is_some nothing))
          ∙ sym nothing
      | inr (p, found) ↦
          if_of_false (not (ltb 0 h.num_outstanding)) _ _ (ap not (counts ∙ ap is_some found))
    ]

-- FirstOutstanding of a tracked history answers nil where no packet that the history has is outstanding,
-- and otherwise the outstanding packet with the lowest number.
pub first_outstanding-IsLowest :
    (h : SentHistory) → IsTracked h → IsLowest h.packets (first_outstanding h)
first_outstanding-IsLowest h tracked =
    let (next, numbered) = tracked-IsNumbered h tracked in
    find_outstanding-IsLowest next h.packets (first_outstanding h) numbered
      (sym (first_outstanding_lem h tracked))
