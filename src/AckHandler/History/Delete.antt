-- ===== src/AckHandler/History/Delete.antt =====
-- `DeleteBelow`: its loop runs over the slice from the lowest range; here is the same from the
-- highest, and what it keeps.
use uquic.Shared.{
  ℕ, ◌+◌, ◌≤◌, ◌<◌, ◌≡◌, refl, ap, ◌∙◌, subst, ◌⊎◌, inl, inr, Bool, true, false, ◌&&◌, ◌||◌, List,
  [], ◌∷◌, ◌++◌, reverse, arith, ltb, leb, if◌then◌else◌, Bool-cases, length,
}
use mathlib.Core.List.{reverse-cons, reverse-append}
use mathlib.Core.Bool.{false≢true}
use uquic.AckHandler.History.{Interval, delete_loop}
use uquic.AckHandler.History.Ranges.{covers, Under, IsGapped}

-- What is left of the ranges, from the highest downwards.
unfoldable pub trim : ℕ → List Interval → List Interval
trim p [] = []
trim p (r ∷ rest) =
    if ltb r.end p
    then []
    else if ltb r.start p
    then record r { start = p } ∷ []
    else r ∷ trim p rest

all_before : ℕ → List Interval → Bool
all_before p [] = true
all_before p (r ∷ rest) = ltb r.end p && all_before p rest

delete_loop-append :
    (p : ℕ) (xs ys : List Interval)
    → delete_loop p (xs ++ ys)
      ≡ (if all_before p xs then delete_loop p ys else delete_loop p xs ++ ys)
unfolding delete_loop all_before
delete_loop-append p [] ys = refl
delete_loop-append p (r ∷ xs) ys = ground (arith, delete_loop-append p xs ys)

all_before-append :
    (p : ℕ) (xs ys : List Interval) → all_before p (xs ++ ys) ≡ (all_before p xs && all_before p ys)
unfolding all_before
all_before-append p [] ys = refl
all_before-append p (r ∷ xs) ys = ground (arith, all_before-append p xs ys)

all_before-reverse : (p : ℕ) (xs : List Interval) → all_before p (reverse xs) ≡ all_before p xs
unfolding all_before
all_before-reverse p [] = refl
all_before-reverse p (r ∷ xs) =
    ground
      (arith, reverse-cons r xs, all_before-append p (reverse xs) (r ∷ []), all_before-reverse p xs)

-- Under a range that starts at `p` or below, all end below `p`.
Under-all_before :
    (p n : ℕ) (rs : List Interval) → IsGapped rs → Under n rs → n ≤ p + 1 → all_before p rs ≡ true
unfolding all_before
Under-all_before p n [] g u h = refl
Under-all_before p n (r ∷ rest) (k, v, g) u h =
    let ih = Under-all_before p r.start rest g v (omega arith) in ground arith

trim-nil : (p : ℕ) (rs : List Interval) → all_before p rs ≡ true → trim p rs ≡ []
unfolding trim all_before
trim-nil p [] h = refl
trim-nil p (r ∷ rest) h = ground arith

loop_backwards :
    (p : ℕ) (r : Interval) (rest : List Interval)
    → delete_loop p (reverse (r ∷ rest)) ≡ (
        if all_before p rest
        then delete_loop p (r ∷ [])
        else delete_loop p (reverse rest) ++ (r ∷ []))
loop_backwards p r rest =
    ap (delete_loop p) (reverse-cons r rest)
    ∙ delete_loop-append p (reverse rest) (r ∷ [])
    ∙ rw (all_before-reverse p rest)

reverse_last : (xs : List Interval) (r : Interval) → reverse (xs ++ (r ∷ [])) ≡ r ∷ reverse xs
reverse_last xs r = reverse-append xs (r ∷ [])

reverse_if :
    (b : Bool) (r : Interval) (xs ys : List Interval)
    → b ≡ false
    → reverse (if b then xs else ys ++ (r ∷ [])) ≡ r ∷ reverse ys
reverse_if b r xs ys e = rw e (reverse_last ys r)

reverse_then :
    (b : Bool) (xs ys zs : List Interval)
    → b ≡ true
    → reverse xs ≡ zs
    → reverse (if b then xs else ys) ≡ zs
reverse_then b xs ys zs e f = rw e f

module _ (p : ℕ) (r : Interval) (rest : List Interval) where
  trim_last : trim p rest ≡ [] → reverse (delete_loop p (r ∷ [])) ≡ trim p (r ∷ rest)
  unfolding trim delete_loop
  trim_last e = ground arith

  trim_keeps : p ≤ r.start → r.start ≤ r.end → r ∷ trim p rest ≡ trim p (r ∷ rest)
  unfolding trim
  trim_keeps h k = ground arith

  trim_cut : r.start < p → p ≤ r.end → trim p (r ∷ rest) ≡ record r { start = p } ∷ []
  unfolding trim
  trim_cut h k = ground arith

  trim_gone : r.end < p → trim p (r ∷ rest) ≡ []
  unfolding trim
  trim_gone h = ground arith

  delete_loop-trim_step :
      IsGapped (r ∷ rest)
      → reverse (delete_loop p (reverse rest)) ≡ trim p rest
      → (all_before p rest ≡ true) ⊎ (all_before p rest ≡ false)
      → reverse (delete_loop p (reverse (r ∷ rest))) ≡ trim p (r ∷ rest)
  delete_loop-trim_step (h, u, g) ih (inl e) =
      ap reverse (loop_backwards p r rest)
      ∙ reverse_then (all_before p rest) _ _ _ e (trim_last (trim-nil p rest e))
  delete_loop-trim_step (h, u, g) ih (inr e) =
      ap reverse (loop_backwards p r rest)
      ∙ reverse_if (all_before p rest) r _ _ e
      ∙ ap (◌∷◌ r) ih
      ∙ trim_keeps
          (elim (Bool-cases (leb p r.start)) [
            | inl low ↦ ground arith
            | inr high ↦ let f = Under-all_before p r.start rest g u (ground arith) in cc
          ])
          h

-- On ranges in order the loop leaves what `trim` does.
pub delete_loop-trim :
    (p : ℕ) (rs : List Interval) → IsGapped rs → reverse (delete_loop p (reverse rs)) ≡ trim p rs
delete_loop-trim p [] g = unfold delete_loop trim in refl
delete_loop-trim p (r ∷ rest) g =
    delete_loop-trim_step p r rest g (delete_loop-trim p rest g.2) (Bool-cases (all_before p rest))

trim-Under : (p n : ℕ) (rs : List Interval) → Under n rs → Under n (trim p rs)
unfolding trim
trim-Under p n [] u = u
trim-Under p n (r ∷ rest) u = ground arith

abbrev Cut : ℕ → Interval → Type 0
Cut p r = (p ≤ r.start) ⊎ ((r.start < p) × (p ≤ r.end)) ⊎ (r.end < p)

cut : (p : ℕ) (r : Interval) → Cut p r
cut p r = grind arith

pub trim-IsGapped : (p : ℕ) (rs : List Interval) → IsGapped rs → IsGapped (trim p rs)
trim-IsGapped p [] g = unfold trim in g
trim-IsGapped p (r ∷ rest) (h, u, g) = elim (cut p r) [
  | inl low ↦
      subst IsGapped (trim_keeps p r rest low h)
        (h, trim-Under p r.start rest u, trim-IsGapped p rest g)
  | inr (inl (a, b)) ↦ rw (trim_cut p r rest a b) (b, tt, tt)
  | inr (inr gone) ↦ rw (trim_gone p r rest gone) tt
]

covers_before :
    (p q : ℕ) (rs : List Interval) → all_before p rs ≡ true → p ≤ q → covers rs q ≡ false
unfolding all_before
covers_before p q [] e h = refl
covers_before p q (r ∷ rest) e h = ground (arith, covers_before p q rest)

-- A range that starts at `p` or above holds nothing below `p`.
keeps_test :
    (c a b d : Bool) → (a ≡ true → c ≡ true) → (((a && b) || (c && d)) ≡ (c && ((a && b) || d)))
keeps_test true a b d h = refl
keeps_test false true b d h = absurd (false≢true (h refl))
keeps_test false false b d h = refl

module _ (p q : ℕ) (r : Interval) (rest : List Interval) where
  keeps :
      covers (trim p rest) q ≡ (leb p q && covers rest q)
      → p ≤ r.start
      → covers (r ∷ trim p rest) q ≡ (leb p q && covers (r ∷ rest) q)
  keeps e low =
      rw e (keeps_test (leb p q) (leb r.start q) (leb q r.end) (covers rest q) (λ h. ground arith))

  cuts :
      r.start < p
      → p ≤ r.end
      → all_before p rest ≡ true
      → covers (record r { start = p } ∷ []) q ≡ (leb p q && covers (r ∷ rest) q)
  cuts a b e = ground (arith, covers_before p q rest e)

  goes : r.end < p → all_before p rest ≡ true → false ≡ (leb p q && covers (r ∷ rest) q)
  goes a e = ground (arith, covers_before p q rest e)

-- What is kept: the packet numbers from `p` on.
pub covers-trim :
    (p q : ℕ) (rs : List Interval) → IsGapped rs → covers (trim p rs) q ≡ (leb p q && covers rs q)
covers-trim p q [] g = unfold trim in ground arith
covers-trim p q (r ∷ rest) (h, u, g) = elim (cut p r) [
  | inl low ↦ rw (← trim_keeps p r rest low h) (keeps p q r rest (covers-trim p q rest g) low)
  | inr (inl (a, b)) ↦
      rw (trim_cut p r rest a b)
        (cuts p q r rest a b (Under-all_before p r.start rest g u (omega arith)))
  | inr (inr gone) ↦
      rw (trim_gone p r rest gone)
        (goes p q r rest gone (Under-all_before p r.start rest g u (omega arith)))
]

pub length-trim : (p : ℕ) (rs : List Interval) → length (trim p rs) ≤ length rs
unfolding trim
length-trim p [] = omega arith
length-trim p (r ∷ rest) = ground (arith, length-trim p rest)
