-- ===== src/AckHandler/Sent/Entries.antt =====
-- The slice of sent packets: its numbering, its outstanding packets, and the packet with a number.
use uquic.Shared.{
  ℕ, zero, suc, ◌+◌, ◌≤◌, ◌<◌, ◌≡◌, refl, sym, ap, ◌∙◌, subst, ◌≢◌, inl, inr, Bool, true, false,
  Option, none, some, List, [], ◌∷◌, ◌++◌, arith, ◌==◌, if◌then◌else◌, if_of_true, if_of_false,
  if_intro_known, Bool-cases, Option-cases, some-injective, length, get_elem?, length-append,
}
use uquic.AckHandler.Sent.{Packet, outstanding, clear, cleanup_start, starts_with_nil}

abbrev pub bit : Bool → ℕ
bit b = if b then 1 else 0

abbrev pub is_some : Option Packet → Bool
is_some none = false
is_some (some p) = true

-- How many packets are outstanding.
unfoldable pub tally : List (Option Packet) → ℕ
tally [] = 0
tally (none ∷ entries) = tally entries
tally (some p ∷ entries) = bit (outstanding p) + tally entries

-- The packet numbers count up to the one before `next`.
abbrev pub IsNumbered : ℕ → List (Option Packet) → Type 0
IsNumbered next [] = Unit
IsNumbered next (none ∷ entries) = IsNumbered next entries
IsNumbered next (some p ∷ entries) =
    (p.packet_number + 1 + length entries ≡ next) × IsNumbered next entries

-- The packet with a number.
unfoldable pub lookup : List (Option Packet) → ℕ → Option Packet
lookup [] pn = none
lookup (none ∷ entries) pn = lookup entries pn
lookup (some p ∷ entries) pn = if p.packet_number == pn then some p else lookup entries pn

pub tally-append :
    (entries : List (Option Packet)) (entry : Option Packet)
    → tally (entries ++ (entry ∷ [])) ≡ tally entries + tally (entry ∷ [])
unfolding tally
tally-append [] none = refl
tally-append [] (some p) = omega arith
tally-append (none ∷ entries) entry = tally-append entries entry
tally-append (some p ∷ entries) entry = omega (arith, tally-append entries entry)

pub IsNumbered-append :
    (next : ℕ) (entries : List (Option Packet)) (entry : Option Packet)
    → IsNumbered next entries
    → IsNumbered (next + 1) (entry ∷ [])
    → IsNumbered (next + 1) (entries ++ (entry ∷ []))
IsNumbered-append next [] entry h last = last
IsNumbered-append next (none ∷ entries) entry h last = IsNumbered-append next entries entry h last
IsNumbered-append next (some p ∷ entries) entry h last = (
  omega (arith, h.0, length-append entries (entry ∷ [])),
  IsNumbered-append next entries entry h.1 last,
)

pub length-clear :
    (i : ℕ) (entries : List (Option Packet)) → length (clear i entries) ≡ length entries
unfolding clear
length-clear i [] = refl
length-clear zero (entry ∷ entries) = refl
length-clear (suc i) (entry ∷ entries) = ap suc (length-clear i entries)

pub IsNumbered-clear :
    (next i : ℕ) (entries : List (Option Packet))
    → IsNumbered next entries
    → IsNumbered next (clear i entries)
unfolding clear
IsNumbered-clear next i [] h = h
IsNumbered-clear next zero (none ∷ entries) h = h
IsNumbered-clear next zero (some p ∷ entries) h = h.1
IsNumbered-clear next (suc i) (none ∷ entries) h = IsNumbered-clear next i entries h
IsNumbered-clear next (suc i) (some p ∷ entries) h =
    (omega (arith, h.0, length-clear i entries), IsNumbered-clear next i entries h.1)

pub tally-clear :
    (i : ℕ) (entries : List (Option Packet)) (p : Packet)
    → get_elem? entries i ≡ some (some p)
    → bit (outstanding p) + tally (clear i entries) ≡ tally entries
unfolding clear tally
tally-clear i [] p q = absurd (cc q)
tally-clear zero (none ∷ entries) p q = absurd (cc q)
tally-clear zero (some r ∷ entries) p q =
    ap (λ (x : Packet). bit (outstanding x) + tally entries)
      (sym (some-injective (some-injective q)))
tally-clear (suc i) (none ∷ entries) p q = tally-clear i entries p q
tally-clear (suc i) (some r ∷ entries) p q = omega (arith, tally-clear i entries p q)

-- The index of the packet with a number.
pub lookup_at :
    (next : ℕ) (entries : List (Option Packet)) (pn : ℕ) (p : Packet)
    → IsNumbered next entries
    → lookup entries pn ≡ some p
    → (i : ℕ) × ((get_elem? entries i ≡ some (some p)) × (pn + length entries ≡ next + i))
unfolding lookup
lookup_at next [] pn p h q = absurd (cc q)
lookup_at next (none ∷ entries) pn p h q =
    let (i, (found, at)) = lookup_at next entries pn p h q in (suc i, (found, omega arith))
lookup_at next (some r ∷ entries) pn p h q = elim (Bool-cases (r.packet_number == pn)) [
  | inl same ↦ (0, (ap some (sym (if_of_true _ _ _ same) ∙ q), grind (arith, h.0)))
  | inr different ↦
      let (i, (found, at)) =
        lookup_at next entries pn p h.1 (sym (if_of_false _ _ _ different) ∙ q) in
      (suc i, (found, omega arith))
]

-- Every packet number is one of the last that were given out.
pub lookup_range :
    (next : ℕ) (entries : List (Option Packet)) (pn : ℕ) (p : Packet)
    → IsNumbered next entries
    → lookup entries pn ≡ some p
    → next ≤ pn + length entries
lookup_range next entries pn p h q =
    let (i, (found, at)) = lookup_at next entries pn p h q in omega arith

pub lookup_out :
    (next : ℕ) (entries : List (Option Packet)) (pn : ℕ)
    → IsNumbered next entries
    → pn + length entries < next
    → lookup entries pn ≡ none
lookup_out next entries pn h below = elim (Option-cases (lookup entries pn)) [
  | inl nothing ↦ nothing
  | inr (p, found) ↦ absurd (omega (arith, lookup_range next entries pn p h found))
]

pub lookup-clear_same :
    (next i pn : ℕ) (entries : List (Option Packet))
    → IsNumbered next entries
    → pn + length entries ≡ next + i
    → lookup (clear i entries) pn ≡ none
unfolding lookup clear
lookup-clear_same next i pn [] h at = refl
lookup-clear_same next zero pn (none ∷ entries) h at = lookup_out next entries pn h (omega arith)
lookup-clear_same next zero pn (some r ∷ entries) h at =
    lookup_out next entries pn h.1 (omega arith)
lookup-clear_same next (suc i) pn (none ∷ entries) h at =
    lookup-clear_same next i pn entries h (omega arith)
lookup-clear_same next (suc i) pn (some r ∷ entries) h at =
    if_intro_known (λ x. x ≡ none) (r.packet_number == pn) (λ same. absurd (grind (arith, h.0, at)))
      (λ _. lookup-clear_same next i pn entries h.1 (omega arith))

pub lookup-clear_other :
    (next i pn : ℕ) (entries : List (Option Packet))
    → IsNumbered next entries
    → pn + length entries ≢ next + i
    → lookup (clear i entries) pn ≡ lookup entries pn
unfolding lookup clear
lookup-clear_other next i pn [] h other = refl
lookup-clear_other next zero pn (none ∷ entries) h other = refl
lookup-clear_other next zero pn (some r ∷ entries) h other =
    sym (if_of_false (r.packet_number == pn) _ _ (grind (arith, h.0)))
lookup-clear_other next (suc i) pn (none ∷ entries) h other =
    lookup-clear_other next i pn entries h (λ at. other (omega arith))
lookup-clear_other next (suc i) pn (some r ∷ entries) h other =
    ap (λ x. if r.packet_number == pn then some r else x)
      (lookup-clear_other next i pn entries h.1 (λ at. other (omega arith)))

pub IsNumbered-cleanup_start :
    (next : ℕ) (entries : List (Option Packet))
    → IsNumbered next entries
    → IsNumbered next (cleanup_start entries)
unfolding cleanup_start
IsNumbered-cleanup_start next [] h = h
IsNumbered-cleanup_start next (none ∷ entries) h = IsNumbered-cleanup_start next entries h
IsNumbered-cleanup_start next (some p ∷ entries) h = h

pub tally-cleanup_start :
    (entries : List (Option Packet)) → tally (cleanup_start entries) ≡ tally entries
unfolding cleanup_start tally
tally-cleanup_start [] = refl
tally-cleanup_start (none ∷ entries) = tally-cleanup_start entries
tally-cleanup_start (some p ∷ entries) = refl

pub lookup-cleanup_start :
    (entries : List (Option Packet)) (pn : ℕ)
    → lookup (cleanup_start entries) pn ≡ lookup entries pn
unfolding cleanup_start lookup
lookup-cleanup_start [] pn = refl
lookup-cleanup_start (none ∷ entries) pn = lookup-cleanup_start entries pn
lookup-cleanup_start (some p ∷ entries) pn = refl

pub starts-cleanup_start :
    (entries : List (Option Packet)) → starts_with_nil (cleanup_start entries) ≡ false
unfolding cleanup_start
starts-cleanup_start [] = refl
starts-cleanup_start (none ∷ entries) = starts-cleanup_start entries
starts-cleanup_start (some p ∷ entries) = refl

pub starts-clear :
    (i : ℕ) (entries : List (Option Packet))
    → starts_with_nil (clear (suc i) entries) ≡ starts_with_nil entries
unfolding clear
starts-clear i [] = refl
starts-clear i (none ∷ entries) = refl
starts-clear i (some p ∷ entries) = refl

-- The packet at an index has the number of the index.
pub number_at :
    (next i : ℕ) (entries : List (Option Packet)) (p : Packet)
    → IsNumbered next entries
    → get_elem? entries i ≡ some (some p)
    → (p.packet_number + length entries ≡ next + i) × (lookup entries p.packet_number ≡ some p)
unfolding lookup
number_at next i [] p h q = absurd (cc q)
number_at next zero (none ∷ entries) p h q = absurd (cc q)
number_at next zero (some r ∷ entries) p h q =
    subst
      (λ (x : Packet).
        (x.packet_number + suc (length entries) ≡ next + 0)
        × (lookup (some r ∷ entries) x.packet_number ≡ some x))
      (some-injective (some-injective q))
      (omega (arith, h.0), if_of_true (r.packet_number == r.packet_number) _ _ (grind arith))
number_at next (suc i) (none ∷ entries) p h q =
    let (at, found) = number_at next i entries p h q in (omega arith, found)
number_at next (suc i) (some r ∷ entries) p h q =
    let (at, found) = number_at next i entries p h.1 q in
    (
      omega arith,
      if_of_false (r.packet_number == p.packet_number) _ _ (grind (arith, h.0, at)) ∙ found,
    )
