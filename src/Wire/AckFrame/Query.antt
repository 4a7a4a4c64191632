-- ===== src/Wire/AckFrame/Query.antt =====
-- `LargestAcked`, `LowestAcked`, `HasMissingRanges` and `AcksPacket` of ack_frame.go, with the
-- binary search of Go's `sort.Search`. Indexing a slice out of range panics.
use uquic.Shared.{
  ℕ, zero, suc, ◌+◌, ◌/◌, ◌≤◌, ◌<◌, ◌≡◌, refl, sym, ap, ◌∙◌, inl, inr, Bool, true, false, ◌&&◌,
  ◌||◌, List, [], ◌∷◌, arith, ltb, leb, ◌==◌, if◌then◌else◌, Bool-cases, Result, ok, err, Panic,
  panic, ltb→lt, leb→le, le→leb, length, get_or,
}
use uquic.Wire.AckFrame.{AckRange, AckFrame}
use mathlib.Core.Bool.{false≢true}
use uquic.Wire.AckFrame.Ranges.{Under, IsGapped}

-- `sort.Search`: `i` and `j` close in on the first index at which `test` holds. The gap halves in
-- each round, so `n` rounds are enough.
unfoldable pub search_loop : ℕ → (ℕ → Bool) → ℕ → ℕ → ℕ
search_loop zero test i j = i
search_loop (suc fuel) test i j =
    let h = (i + j) / 2 in
    let upper = search_loop fuel test (h + 1) j in
    let lower = search_loop fuel test i h in
    if ltb i j then (if test h then lower else upper) else i

unfoldable pub sort_search : ℕ → (ℕ → Bool) → ℕ
sort_search n test = search_loop n test 0 n

abbrev pub no_range : AckRange
no_range = record { smallest = 0; largest = 0 }

unfoldable pub largest_acked : AckFrame → Result Panic ℕ
largest_acked f = elim f.ack_ranges [ [] ↦ err panic | r ∷ rest ↦ ok r.largest ]

abbrev pub last_smallest : AckRange → List AckRange → ℕ
last_smallest r [] = r.smallest
last_smallest r (s ∷ rest) = last_smallest s rest

unfoldable pub lowest_acked : AckFrame → Result Panic ℕ
lowest_acked f = elim f.ack_ranges [ [] ↦ err panic | r ∷ rest ↦ ok (last_smallest r rest) ]

unfoldable pub has_missing_ranges : AckFrame → Bool
has_missing_ranges f = ltb 1 (length f.ack_ranges)

-- `AcksPacket` on the ranges `r ∷ rest`. The index that the search answers is in range.
unfoldable pub acks_packet_of : AckRange → List AckRange → ℕ → Bool
acks_packet_of r rest p =
    if ltb p (last_smallest r rest) || ltb r.largest p
    then false
    else let i =
        sort_search (length (r ∷ rest)) (λ i. leb (get_or (r ∷ rest) i no_range).smallest p) in
      leb p (get_or (r ∷ rest) i no_range).largest

unfoldable pub acks_packet : AckFrame → ℕ → Result Panic Bool
acks_packet f p = elim f.ack_ranges [ [] ↦ err panic | r ∷ rest ↦ ok (acks_packet_of r rest p) ]

-- One of the ranges holds `p`.
abbrev pub covers : List AckRange → ℕ → Bool
covers [] p = false
covers (r ∷ rest) p = (leb r.smallest p && leb p r.largest) || covers rest p

-- `k` is the first index below `n` at which the test holds, or `n`.
record IsBorder (test : ℕ → Bool) (n k : ℕ) : Type 0 where
  before : (i : ℕ) → i < k → test i ≡ false
  after : (i : ℕ) → k ≤ i → i < n → test i ≡ true

abbrev IsMonotone : (ℕ → Bool) → ℕ → Type 0
IsMonotone test n = (k l : ℕ) → k ≤ l → l < n → test k ≡ true → test l ≡ true

below_false :
    (test : ℕ → Bool) (n h : ℕ)
    → IsMonotone test n
    → h < n
    → test h ≡ false
    → (k : ℕ) → k < h + 1
    → test k ≡ false
below_false test n h mono hn e k l = elim (Bool-cases (test k)) [
  | inl t ↦ let c = mono k h (omega arith) hn t in cc
  | inr f ↦ f
]

-- On a test that stays true once it is true, the loop finds the border between `i` and `j`.
search_loop_lem :
    (fuel : ℕ) (test : ℕ → Bool) (i j n : ℕ)
    → IsMonotone test n
    → j ≤ i + fuel
    → i ≤ j
    → j ≤ n
    → ((k : ℕ) → k < i → test k ≡ false)
    → ((k : ℕ) → j ≤ k → k < n → test k ≡ true)
    → (search_loop fuel test i j ≤ j) × IsBorder test n (search_loop fuel test i j)
unfolding search_loop
search_loop_lem zero test i j n mono f ij jn lo hi =
    (ij, record { before = lo; after = λ k h l. hi k (omega arith) l })
search_loop_lem (suc fuel) test i j n mono f ij jn lo hi = elim (Bool-cases (ltb i j)) [
  | inl more ↦
      let ij' = ltb→lt i j more in
      elim (Bool-cases (test ((i + j) / 2))) [
        | inl low ↦
            let (le, border) =
              search_loop_lem fuel test i ((i + j) / 2) n mono (omega arith) (omega arith)
                (omega arith) lo (λ k h l. mono ((i + j) / 2) k h l low) in
            rw (more, low) (omega arith, border)
        | inr high ↦
            rw (more, high)
              (search_loop_lem fuel test ((i + j) / 2 + 1) j n mono (omega arith) (omega arith) jn
                (below_false test n ((i + j) / 2) mono (omega arith) high) hi)
      ]
  | inr done ↦ rw done (ij, record { before = lo; after = λ k h l. hi k (ground arith) l })
]

sort_search-IsBorder :
    (n : ℕ) (test : ℕ → Bool)
    → IsMonotone test n
    → (sort_search n test ≤ n) × IsBorder test n (sort_search n test)
unfolding sort_search
sort_search-IsBorder n test mono =
    search_loop_lem n test 0 n n mono (omega arith) (omega arith) (omega arith)
      (λ k h. absurd (omega arith)) (λ k h l. absurd (omega arith))

smallest_falls :
    (rs : List AckRange) (n k : ℕ)
    → IsGapped rs
    → Under n rs
    → k < length rs
    → (get_or rs k no_range).smallest < n
smallest_falls [] n k g u h = absurd (omega arith)
smallest_falls (r ∷ rest) n zero (le, v, g) u h = omega arith
smallest_falls (r ∷ rest) n (suc k) (le, v, g) u h =
    omega (arith, smallest_falls rest r.smallest k g v (omega arith))

smallest-IsMonotone :
    (rs : List AckRange) (p : ℕ)
    → IsGapped rs
    → IsMonotone (λ i. leb (get_or rs i no_range).smallest p) (length rs)
smallest-IsMonotone [] p g k l kl ln t = absurd (omega arith)
smallest-IsMonotone (r ∷ rest) p g zero zero kl ln t = t
smallest-IsMonotone (r ∷ rest) p (le, u, g) zero (suc l) kl ln t =
    let f = smallest_falls rest r.smallest l g u (omega arith) in
    le→leb (get_or rest l no_range).smallest p (omega (arith, leb→le r.smallest p t))
smallest-IsMonotone (r ∷ rest) p g (suc k) zero kl ln t = absurd (omega arith)
smallest-IsMonotone (r ∷ rest) p g (suc k) (suc l) kl ln t =
    smallest-IsMonotone rest p g.2 k l (omega arith) (omega arith) t

covers_above :
    (p n : ℕ) (rs : List AckRange) → IsGapped rs → Under n rs → n ≤ p + 1 → covers rs p ≡ false
covers_above p n [] g u h = refl
covers_above p n (r ∷ rest) (le, v, g) u h =
    let ih = covers_above p r.smallest rest g v (omega arith) in ground arith

covers_at :
    (rs : List AckRange) (p k : ℕ)
    → IsGapped rs
    → k < length rs
    → ((i : ℕ) → i < k → leb (get_or rs i no_range).smallest p ≡ false)
    → leb (get_or rs k no_range).smallest p ≡ true
    → covers rs p ≡ leb p (get_or rs k no_range).largest
covers_at [] p k g h lo e = absurd (omega arith)
covers_at (r ∷ rest) p zero (le, u, g) h lo e =
    let lower = covers_above p r.smallest rest g u (ground arith) in rw lower (ground arith)
covers_at (r ∷ rest) p (suc k) (le, u, g) h lo e =
    let first = lo 0 (omega arith) in
    rw first (covers_at rest p k g (omega arith) (λ i l. lo (suc i) (omega arith)) e)

last_smallest_lem :
    (r : AckRange) (rest : List AckRange)
    → (get_or (r ∷ rest) (length rest) no_range).smallest ≡ last_smallest r rest
last_smallest_lem r [] = refl
last_smallest_lem r (s ∷ rest) = last_smallest_lem s rest

last_smallest_le :
    (r : AckRange) (rest : List AckRange) → IsGapped (r ∷ rest) → last_smallest r rest ≤ r.smallest
last_smallest_le r [] g = omega arith
last_smallest_le r (s ∷ rest) (le, u, g) = omega (arith, last_smallest_le s rest g)

covers_low :
    (r : AckRange) (rest : List AckRange) (p : ℕ)
    → IsGapped (r ∷ rest)
    → p < last_smallest r rest
    → covers (r ∷ rest) p ≡ false
covers_low r [] p g h = ground arith
covers_low r (s ∷ rest) p (le, u, g) h =
    let ih = covers_low s rest p g h in
    let lower = last_smallest_le s rest g in rw ih (ground arith)

-- Between the lowest and the largest packet number the search ends on an index in range, and the
-- range there is the only one that can hold `p`.
acks_packet_between :
    (r : AckRange) (rest : List AckRange) (p : ℕ)
    → IsGapped (r ∷ rest)
    → last_smallest r rest ≤ p
    → let k =
        sort_search (length (r ∷ rest)) (λ i. leb (get_or (r ∷ rest) i no_range).smallest p) in
      leb p (get_or (r ∷ rest) k no_range).largest ≡ covers (r ∷ rest) p
acks_packet_between r rest p g low =
    let n = length (r ∷ rest) in
    let test : ℕ → Bool = λ i. leb (get_or (r ∷ rest) i no_range).smallest p in
    let k = sort_search n test in
    let (le, border) = sort_search-IsBorder n test (smallest-IsMonotone (r ∷ rest) p g) in
    let reached : test (length rest) ≡ true = le→leb _ p (rw (last_smallest_lem r rest) low) in
    let inside : k < n = elim (Bool-cases (ltb k n)) [
      | inl y ↦ ltb→lt k n y
      | inr z ↦ absurd (false≢true (sym (border.before (length rest) (ground arith)) ∙ reached))
    ] in
    sym (covers_at (r ∷ rest) p k g inside border.before (border.after k (omega arith) inside))

acks_packet_of-covers :
    (r : AckRange) (rest : List AckRange) (p : ℕ)
    → IsGapped (r ∷ rest)
    → acks_packet_of r rest p ≡ covers (r ∷ rest) p
unfolding acks_packet_of
acks_packet_of-covers r rest p g = elim (Bool-cases (ltb p (last_smallest r rest))) [
  | inl low ↦ rw low (sym (covers_low r rest p g (ltb→lt p (last_smallest r rest) low)))
  | inr high ↦ elim (Bool-cases (ltb r.largest p)) [
    | inl above ↦
        rw (high, above)
          (sym (
            covers_above p (r.largest + 2) (r ∷ rest) g (omega arith)
              (omega (arith, ltb→lt r.largest p above))))
    | inr within ↦ rw (high, within) (acks_packet_between r rest p g (ground arith))
  ]
]

-- On a frame whose ranges are in order, and of which there is at least one, `AcksPacket` does not
-- panic, and answers whether one of the ranges holds `p`. It panics on a frame without ranges.
pub acks_packet-covers :
    (f : AckFrame) (p : ℕ)
    → IsGapped f.ack_ranges
    → acks_packet f p ≡ (if length f.ack_ranges == 0 then err panic else ok (covers f.ack_ranges p))
unfolding acks_packet
acks_packet-covers f p g = on f.ack_ranges g
  where
    on :
        (rs : List AckRange)
        → IsGapped rs
        → (elim rs as (λ _. Result Panic Bool) [
          | [] ↦ err panic
          | r ∷ rest ↦ ok (acks_packet_of r rest p)
        ])
          ≡ (if length rs == 0 then err panic else ok (covers rs p))
    on [] g = refl
    on (r ∷ rest) g = ap ok (acks_packet_of-covers r rest p g) ∙ ground arith
