-- ===== src/AckHandler/History.antt =====
-- internal/ackhandler/received_packet_history.go: which packet numbers have been received.
-- `ranges` lists the slice `h.ranges` backwards, the highest range first: the loops of
-- `addToRanges`, `AppendAckRanges` and `IsPotentiallyDuplicate` run from the end of the slice.
-- A packet number is a natural number, and `x == p-1` is written `x + 1 == p`.
pub mod Ranges
pub mod Delete
pub mod State
pub mod Acks
pub mod Forget
mod Runs
use uquic.Shared.{
  ℕ, ◌+◌, Bool, true, false, ◌&&◌, List, [], ◌∷◌, reverse, ltb, leb, ◌==◌, if◌then◌else◌, length,
  take,
}

pub record Interval : Type 0 where
  pub start : ℕ
  pub end : ℕ

pub record History : Type 0 where
  pub ranges : List Interval
  pub deleted_below : ℕ

-- protocol.MaxNumAckRanges
abbrev pub max_num_ack_ranges : ℕ
max_num_ack_ranges = 32

unfoldable pub new_history : History
new_history = record { ranges = []; deleted_below = 0 }

-- The ranges from index `i` on downwards, `i` first: range `i` starts at `p` now, and joins the
-- range before it if they touch.
unfoldable pub merge_before : Interval → List Interval → List Interval
merge_before r [] = r ∷ []
merge_before r (s ∷ rest) =
    if s.end + 1 == r.start then record s { end = r.end } ∷ rest else r ∷ s ∷ rest

-- The loop of `addToRanges`, with the ranges that it has not reached.
unfoldable pub add_loop : ℕ → List Interval → List Interval × Bool
add_loop p [] = (record { start = p; end = p } ∷ [], true)
add_loop p (r ∷ rest) =
    let (rest', is_new) = add_loop p rest in
    if leb r.start p && leb p r.end
    then (r ∷ rest, false)
    else if r.end + 1 == p
    then (record r { end = p } ∷ rest, true)
    else if r.start == p + 1
    then (merge_before (record r { start = p }) rest, true)
    else if ltb r.end p
    then (record { start = p; end = p } ∷ r ∷ rest, true)
    else (r ∷ rest', is_new)

-- With no ranges the loop's last step, a new range at the beginning, is what the code does.
unfoldable pub add_to_ranges : History → ℕ → History × Bool
add_to_ranges h p = let (rs, is_new) = add_loop p h.ranges in (record h { ranges = rs }, is_new)

unfoldable pub received_packet : History → ℕ → History × Bool
received_packet h p =
    if ltb p h.deleted_below
    then (h, false)
    else let (h', is_new) = add_to_ranges h p in
      (
        (if ltb max_num_ack_ranges (length h'.ranges)
            then record h' { ranges = take max_num_ack_ranges h'.ranges }
            else h'),
        is_new,
      )

-- The loop of `DeleteBelow` over the slice in its own order, with the deletion of the ranges up to
-- `idx` done on the way.
unfoldable pub delete_loop : ℕ → List Interval → List Interval
delete_loop p [] = []
delete_loop p (r ∷ rest) =
    if ltb r.end p
    then delete_loop p rest
    else if ltb r.start p && leb p r.end
    then record r { start = p } ∷ rest
    else r ∷ rest

unfoldable pub delete_below : History → ℕ → History
delete_below h p =
    if ltb p h.deleted_below
    then h
    else record { ranges = reverse (delete_loop p (reverse h.ranges)); deleted_below = p }

unfoldable pub is_potentially_duplicate_loop : ℕ → List Interval → Bool
is_potentially_duplicate_loop p [] = false
is_potentially_duplicate_loop p (r ∷ rest) =
    if ltb r.end p
    then false
    else if leb p r.end && leb r.start p
    then true
    else is_potentially_duplicate_loop p rest

unfoldable pub is_potentially_duplicate : History → ℕ → Bool
is_potentially_duplicate h p =
    if ltb p h.deleted_below then true else is_potentially_duplicate_loop p h.ranges
