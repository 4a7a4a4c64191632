-- ===== src/AckHandler/Sent/Removal.antt =====
-- Removing a packet and the skipped packets directly before it.
use uquic.Shared.{
  ℕ, zero, suc, ◌+◌, ◌≤◌, ◌<◌, ◌≡◌, refl, sym, ap, ◌∙◌, ◌⊎◌, inl, inr, true, Option, none, some,
  List, arith, ◌==◌, if_intro_known, Bool-cases, ==_iff, length, get_elem?,
}
use uquic.AckHandler.Sent.{Packet, outstanding, clear, is_skipped, clear_skipped, starts_with_nil}
use uquic.AckHandler.Sent.Entries.{
  bit, tally, IsNumbered, lookup, length-clear, IsNumbered-clear, tally-clear, lookup-clear_other,
  starts-clear, number_at,
}

-- What the slice is left with when skipped packets below an index are cleared.
pub record IsCleared (next i : ℕ) (entries : List (Option Packet)) (at : ℕ)
    (left : List (Option Packet)) : Type 0 where
  pub numbered : IsNumbered next left
  pub counted : tally left ≡ tally entries
  pub down : at ≤ i
  pub starts : (at ≡ 0) ⊎ (starts_with_nil left ≡ starts_with_nil entries)
  pub kept :
      (pn : ℕ)
      → (lookup left pn ≡ lookup entries pn)
        ⊎ ((pn + length entries < next + i)
            × ((p : Packet) × ((lookup entries pn ≡ some p) × (p.skipped_packet ≡ true))))

is_skipped_lem :
    (entry : Option (Option Packet))
    → is_skipped entry ≡ true
    → (p : Packet) × ((entry ≡ some (some p))
        × ((p.skipped_packet ≡ true) × (bit (outstanding p) ≡ 0)))
unfolding outstanding
is_skipped_lem none q = absurd (cc q)
is_skipped_lem (some none) q = absurd (cc q)
is_skipped_lem (some (some p)) q = (p, (refl, (q, grind arith)))

starts-clear_or :
    (i : ℕ) (entries : List (Option Packet))
    → (i ≡ 0) ⊎ (starts_with_nil (clear i entries) ≡ starts_with_nil entries)
starts-clear_or zero entries = inl refl
starts-clear_or (suc i) entries = inr (starts-clear i entries)

clear_one-IsCleared :
    (next i : ℕ) (entries : List (Option Packet))
    → IsNumbered next entries
    → is_skipped (get_elem? entries i) ≡ true
    → IsCleared next (suc i) entries i (clear i entries)
clear_one-IsCleared next i entries h skipped =
    let (p, (here, (is, zero_bit))) = is_skipped_lem (get_elem? entries i) skipped in
    let (at, found) = number_at next i entries p h here in
    record {
      numbered = IsNumbered-clear next i entries h;
      counted = omega (arith, tally-clear i entries p here, zero_bit);
      down = omega arith;
      starts = starts-clear_or i entries;
      kept = λ pn. elim (Bool-cases (p.packet_number == pn)) [
        | inl same ↦ inr (
          grind arith,
          (p, (ap (lookup entries) (sym ((==_iff p.packet_number pn).0 same)) ∙ found, is)),
        )
        | inr other ↦ inl (lookup-clear_other next i pn entries h (λ same. absurd (grind arith)))
      ];
    }

clear-IsCleared :
    (next i at : ℕ) (entries mid left : List (Option Packet))
    → length mid ≡ length entries
    → IsCleared next (suc i) entries i mid
    → IsCleared next i mid at left
    → IsCleared next (suc i) entries at left
clear-IsCleared next i at entries mid left same first second = record {
  numbered = second.numbered;
  counted = second.counted ∙ first.counted;
  down = omega (arith, second.down);
  starts = elim first.starts [
    | inl zero_index ↦ inl (omega (arith, second.down))
    | inr kept ↦ elim second.starts [ inl e ↦ inl e | inr e ↦ inr (e ∙ kept) ]
  ];
  kept = λ pn. elim (second.kept pn) [
    | inl e ↦ elim (first.kept pn) [ inl f ↦ inl (e ∙ f) | inr f ↦ inr f ]
    | inr (below, (p, (found, is))) ↦ elim (first.kept pn) [
      | inl f ↦ inr (omega (arith, below, same), (p, (sym f ∙ found, is)))
      | inr f ↦ inr f
    ]
  ];
}

pub clear_skipped-IsCleared :
    (next i : ℕ) (entries : List (Option Packet))
    → IsNumbered next entries
    → IsCleared next i entries (clear_skipped i entries).0 (clear_skipped i entries).1
unfolding clear_skipped
clear_skipped-IsCleared next zero entries h = record {
  numbered = h;
  counted = refl;
  down = omega arith;
  starts = inl refl;
  kept = λ pn. inl refl;
}
clear_skipped-IsCleared next (suc i) entries h =
    if_intro_known (λ (r : ℕ × List (Option Packet)). IsCleared next (suc i) entries r.0 r.1)
      (is_skipped (get_elem? entries i))
      (λ skipped.
        clear-IsCleared next i _ entries (clear i entries) _ (length-clear i entries)
          (clear_one-IsCleared next i entries h skipped)
          (clear_skipped-IsCleared next i (clear i entries) (IsNumbered-clear next i entries h)))
      (λ _. record {
        numbered = h;
        counted = refl;
        down = omega arith;
        starts = inr refl;
        kept = λ pn. inl refl;
      })
