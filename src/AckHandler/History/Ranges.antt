-- ===== src/AckHandler/History/Ranges.antt =====
-- The set of packet numbers that the history stands for, and the order of its ranges.
use uquic.Shared.{
  ℕ, ◌+◌, ◌≤◌, ◌<◌, ◌≡◌, refl, subst, ◌⊎◌, inl, inr, Bool, true, false, not, ◌&&◌, ◌||◌, List, [],
  ◌∷◌, arith, ltb, leb, ◌==◌, Bool-cases,
}
use uquic.AckHandler.History.{Interval, merge_before, add_loop, is_potentially_duplicate_loop}

-- One of the ranges holds `q`.
abbrev pub covers : List Interval → ℕ → Bool
covers [] q = false
covers (r ∷ rest) q = (leb r.start q && leb q r.end) || covers rest q

-- Every range ends at least two below `n`.
abbrev pub Under : ℕ → List Interval → Type 0
Under n [] = Unit {0}
Under n (r ∷ rest) = r.end + 1 < n

-- The ranges are not empty, they fall, and a packet number is missing between any two.
abbrev pub IsGapped : List Interval → Type 0
IsGapped [] = Unit {0}
IsGapped (r ∷ rest) = (r.start ≤ r.end) × Under r.start rest × IsGapped rest

merge_before-IsGapped :
    (r : Interval) (rest : List Interval) (p : ℕ)
    → r.start ≤ r.end
    → Under (r.start + 1) rest
    → IsGapped rest
    → IsGapped (merge_before r rest)
unfolding merge_before
merge_before-IsGapped r [] p h u g = ground arith
merge_before-IsGapped r (s ∷ []) p h u g = ground arith
merge_before-IsGapped r (s ∷ t ∷ rest) p h u g = ground arith

add_loop-Under :
    (p n : ℕ) (rs : List Interval)
    → IsGapped rs
    → Under n rs
    → p + 1 < n
    → Under n (add_loop p rs).0
unfolding add_loop merge_before
add_loop-Under p n [] g u h = ground arith
add_loop-Under p n (r ∷ []) g u h = ground arith
add_loop-Under p n (r ∷ s ∷ rest) g u h = ground arith

-- Where `p` lies with respect to a range.
abbrev Place : ℕ → Interval → Type 0
Place p r =
    ((r.start ≤ p) × (p ≤ r.end))
    ⊎ (r.end + 1 ≡ p)
    ⊎ (r.start ≡ p + 1)
    ⊎ (r.end + 1 < p)
    ⊎ (p + 1 < r.start)

place : (p : ℕ) (r : Interval) → r.start ≤ r.end → Place p r
place p r h = grind arith

module _ (p : ℕ) (r : Interval) (rest : List Interval) where
  add_inside : r.start ≤ p → p ≤ r.end → add_loop p (r ∷ rest) ≡ (r ∷ rest, false)
  unfolding add_loop
  add_inside h k = ground arith

  add_at_end :
      r.start ≤ r.end → r.end + 1 ≡ p → add_loop p (r ∷ rest) ≡ (record r { end = p } ∷ rest, true)
  unfolding add_loop
  add_at_end h e = ground arith

  add_at_start :
      r.start ≤ r.end
      → r.start ≡ p + 1
      → add_loop p (r ∷ rest) ≡ (merge_before (record r { start = p }) rest, true)
  unfolding add_loop
  add_at_start h e = ground arith

  add_above :
      r.start ≤ r.end
      → r.end + 1 < p
      → add_loop p (r ∷ rest) ≡ (record { start = p; end = p } ∷ r ∷ rest, true)
  unfolding add_loop
  add_above h e = ground arith

  add_under :
      r.start ≤ r.end
      → p + 1 < r.start
      → add_loop p (r ∷ rest) ≡ (r ∷ (add_loop p rest).0, (add_loop p rest).1)
  unfolding add_loop
  add_under h e = ground arith

pub add_loop-IsGapped : (p : ℕ) (rs : List Interval) → IsGapped rs → IsGapped (add_loop p rs).0
add_loop-IsGapped p [] g = unfold add_loop in ground arith
add_loop-IsGapped p (r ∷ rest) (h, u, g) = elim (place p r h) [
  | inl (a, b) ↦ rw (add_inside p r rest a b) (h, u, g)
  | inr (inl e) ↦ rw (add_at_end p r rest h e) (omega arith, u, g)
  | inr (inr (inl e)) ↦
      rw (add_at_start p r rest h e)
        (merge_before-IsGapped _ rest p (omega arith) (subst (λ n. Under n rest) e u) g)
  | inr (inr (inr (inl e))) ↦ rw (add_above p r rest h e) (omega arith, omega arith, (h, u, g))
  | inr (inr (inr (inr e))) ↦
      rw (add_under p r rest h e)
        (h, add_loop-Under p r.start rest g u e, add_loop-IsGapped p rest g)
]

covers-merge_before :
    (r : Interval) (rest : List Interval) (q : ℕ)
    → r.start ≤ r.end
    → Under (r.start + 1) rest
    → IsGapped rest
    → covers (merge_before r rest) q ≡ covers (r ∷ rest) q
unfolding merge_before
covers-merge_before r [] q h u g = refl
covers-merge_before r (s ∷ rest) q h u g = ground arith

-- What is above all ranges is in none.
covers_above :
    (n q : ℕ) (rs : List Interval) → IsGapped rs → Under n rs → n ≤ q + 1 → covers rs q ≡ false
covers_above n q [] g u h = refl
covers_above n q (r ∷ rest) g u h = ground (arith, covers_above r.start q rest)

-- The loop adds `p` and nothing else, and says whether it was new.
abbrev Adds : ℕ → List Interval → ℕ → Type 0
Adds p rs q =
    (covers (add_loop p rs).0 q ≡ (q == p || covers rs q)) × ((add_loop p rs).1 ≡ not (covers rs p))

pub covers-add_loop : (p q : ℕ) (rs : List Interval) → IsGapped rs → Adds p rs q
covers-add_loop p q [] g = unfold add_loop in ground arith
covers-add_loop p q (r ∷ rest) (h, u, g) = elim (place p r h) [
  | inl (a, b) ↦ rw (add_inside p r rest a b) (ground arith, ground arith)
  | inr (inl e) ↦
      let fresh = covers_above r.start p rest g u (omega arith) in
      rw (add_at_end p r rest h e) (ground arith, ground arith)
  | inr (inr (inl e)) ↦
      let fresh = covers_above r.start p rest g u (omega arith) in
      let merged =
        covers-merge_before (record r { start = p }) rest q (omega arith)
          (subst (λ n. Under n rest) e u) g in
      rw (add_at_start p r rest h e) (ground arith, ground arith)
  | inr (inr (inr (inl e))) ↦
      let fresh = covers_above r.start p rest g u (omega arith) in
      rw (add_above p r rest h e) (ground arith, ground arith)
  | inr (inr (inr (inr e))) ↦
      let ih = covers-add_loop p q rest g in
      rw (add_under p r rest h e) (ground arith, ground arith)
]

-- `IsPotentiallyDuplicate` may stop at the first range that ends below the packet number.
pub is_potentially_duplicate_loop-covers :
    (p : ℕ) (rs : List Interval) → IsGapped rs → is_potentially_duplicate_loop p rs ≡ covers rs p
unfolding is_potentially_duplicate_loop
is_potentially_duplicate_loop-covers p [] g = refl
is_potentially_duplicate_loop-covers p (r ∷ rest) (h, u, g) = elim (Bool-cases (ltb r.end p)) [
  | inl above ↦ let lower = covers_above r.start p rest g u (ground arith) in ground arith
  | inr other ↦ let ih = is_potentially_duplicate_loop-covers p rest g in ground arith
]
