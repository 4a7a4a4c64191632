-- ===== src/FlowControl/Balance.antt =====
-- What the streams' controllers and the connection's say about each other.
use uquic.Shared.{
  ℕ, ◌+◌, ◌-◌, ◌*◌, ◌/◌, ◌≤◌, min, ◌≡◌, refl, inl, inr, Bool, true, false, ltb, leb, ◌==◌, arith,
  not, ◌&&◌, ◌||◌, Option, none, some, Result, Panic, ok, err, subst, Option-cases, some-injective,
  Bool-cases, ◌↔◌,
}
use uquic.FlowControl.Base
use uquic.FlowControl.Base.{
  BaseFlowController, Tuning, check_flow_control_violation, start_new_auto_tuning_epoch,
}
use uquic.FlowControl.Connection.{
  FlowError, start_tuning, raise_highest, increment_highest_received, ensure_minimum_window_size,
  grow_window, restart,
}
use uquic.FlowControl.Connection
use uquic.FlowControl.Stream
use uquic.FlowControl.Stream.{
  StreamFlowController, Controllers, update_highest_received, abandon, contradicts_final_offset,
  raise_offset, follow_growth, finish_update, set_base,
}
use uquic.FlowControl.Session.{
  Call, received, read, abandoned, sent, max_stream_data, stream_update, call, unless_failed,
  unless_panic,
}
use uquic.FlowControl.Window.{get_window_update_bounds, get_window_update_keeps}

-- What RFC 9000 asks of an offset: once a final size is known no data lies beyond it and it does not
-- change, a final size is not below what was received, and new data fits both windows.
abbrev pub is_acceptable : Controllers → ℕ → Bool → Bool
is_acceptable c offset final =
    (not c.stream.received_final_offset
      || (leb offset c.stream.base.highest_received
          && (not final || offset == c.stream.base.highest_received)))
    && (not final || leb c.stream.base.highest_received offset)
    && (leb offset c.stream.base.highest_received
        || (leb offset c.stream.base.receive_window
            && leb (c.connection.highest_received + (offset - c.stream.base.highest_received))
                c.connection.receive_window))

-- `UpdateHighestReceived` answers no error exactly on an acceptable offset.
pub update_highest_received_iff :
    (c : Controllers) (offset : ℕ) (final : Bool) (now : ℕ)
    → ((update_highest_received c offset final now).0 ≡ none)
      ↔ (is_acceptable c offset final ≡ true)
unfolding update_highest_received raise_offset increment_highest_received
    check_flow_control_violation start_tuning start_new_auto_tuning_epoch contradicts_final_offset
update_highest_received_iff c offset final now = ground arith

-- From one state to the other the connection's counts move by as much as the stream's.
abbrev pub IsMoved : Controllers → Controllers → Type 0
IsMoved c c' =
    (c'.stream.base.highest_received + c.connection.highest_received
      ≡ c.stream.base.highest_received + c'.connection.highest_received)
    × (c'.stream.base.bytes_read + c.connection.bytes_read
        ≡ c.stream.base.bytes_read + c'.connection.bytes_read)
    × (c'.stream.base.bytes_sent + c.connection.bytes_sent
        ≡ c.stream.base.bytes_sent + c'.connection.bytes_sent)

-- Nothing is read that was not received, and nothing received beyond the window.
abbrev pub IsInside : BaseFlowController → Type 0
IsInside c = (c.bytes_read ≤ c.highest_received) × (c.highest_received ≤ c.receive_window)

-- The connection's highest offset is within its window.
abbrev pub IsMove : Controllers → Controllers → Type 0
IsMove c c' =
    IsMoved c c'
    × IsInside c'.stream.base
    × (c'.connection.highest_received ≤ c'.connection.receive_window)

received-IsMove :
    (c : Controllers) (offset : ℕ) (final : Bool) (now : ℕ)
    → IsInside c.stream.base
    → c.connection.highest_received ≤ c.connection.receive_window
    → (update_highest_received c offset final now).0 ≡ none
    → IsMove c (update_highest_received c offset final now).1
unfolding update_highest_received raise_offset increment_highest_received
    check_flow_control_violation start_tuning start_new_auto_tuning_epoch contradicts_final_offset
received-IsMove c offset final now i le e = ground arith

simple-IsMove :
    (c : Controllers) (n : ℕ)
    → IsInside c.stream.base
    → c.connection.highest_received ≤ c.connection.receive_window
    → IsMove c
        (Stream.add_bytes_read c
          (min n (c.stream.base.highest_received - c.stream.base.bytes_read))).1
      × IsMove c (abandon c)
      × IsMove c (Stream.add_bytes_sent c n)
unfolding abandon Stream.add_bytes_read Stream.add_bytes_sent Connection.add_bytes_read
simple-IsMove c n i le = ground arith

-- `EnsureMinimumWindowSize` changes the size of the window, and none of the counts or the window.
ensure_minimum_window_size_lem :
    (inc now : ℕ) (c c' : BaseFlowController)
    → ensure_minimum_window_size inc now c ≡ ok c'
    → (c'.highest_received ≡ c.highest_received)
      × (c'.bytes_read ≡ c.bytes_read)
      × (c'.bytes_sent ≡ c.bytes_sent)
      × (c'.receive_window ≡ c.receive_window)
unfolding ensure_minimum_window_size grow_window restart start_new_auto_tuning_epoch
ensure_minimum_window_size_lem inc now c c' e = elim (Option-cases c.allow_window_increase) [
  | inl n ↦ ground arith
  | inr (f, n) ↦ ground arith
]

follow_growth_lem :
    (old new now : ℕ) (c c' : BaseFlowController)
    → follow_growth old new now c ≡ ok c'
    → (c'.highest_received ≡ c.highest_received)
      × (c'.bytes_read ≡ c.bytes_read)
      × (c'.bytes_sent ≡ c.bytes_sent)
      × (c'.receive_window ≡ c.receive_window)
unfolding follow_growth
follow_growth_lem old new now c c' e = elim (Bool-cases (ltb old new)) [
  | inl t ↦ ensure_minimum_window_size_lem (new * 3 / 2) now c c' (ground arith)
  | inr f ↦ ground arith
]

finish_update-IsMove :
    (c : Controllers) (base : BaseFlowController) (final : Bool) (offset : ℕ) (c' : Controllers)
    → IsInside c.stream.base
    → c.connection.highest_received ≤ c.connection.receive_window
    → base.highest_received ≡ c.stream.base.highest_received
    → base.bytes_read ≡ c.stream.base.bytes_read
    → base.bytes_sent ≡ c.stream.base.bytes_sent
    → c.stream.base.receive_window ≤ base.receive_window
    → (g : Result Panic BaseFlowController)
    → ((d : BaseFlowController)
        → g ≡ ok d
        → (d.highest_received ≡ c.connection.highest_received)
          × (d.bytes_read ≡ c.connection.bytes_read)
          × (d.bytes_sent ≡ c.connection.bytes_sent)
          × (d.receive_window ≡ c.connection.receive_window))
    → unless_panic (finish_update (record { base = base; received_final_offset = final }) offset g)
      ≡ some c'
    → IsMove c c'
unfolding finish_update
finish_update-IsMove c base final offset c' i le h1 h2 h3 h4 (ok d) l e =
    let (l1, l2, l3, l4) = l d refl in ground arith
finish_update-IsMove c base final offset c' i le h1 h2 h3 h4 (err x) l e = cc

stream_update-IsMove :
    (t : Tuning) (now : ℕ) (c c' : Controllers)
    → IsInside c.stream.base
    → c.connection.highest_received ≤ c.connection.receive_window
    → unless_panic (Stream.get_window_update t now c) ≡ some c'
    → IsMove c c'
unfolding Stream.get_window_update
stream_update-IsMove t now c c' i le e = elim (Bool-cases c.stream.received_final_offset) [
  | inl final ↦ ground arith
  | inr unknown ↦
      let (x1, x2, x3, x4, x5, x6) = get_window_update_bounds t now c.stream.base in
      let (y1, y2) = get_window_update_keeps t now c.stream.base in
      let c1 = (Base.get_window_update t now c.stream.base).1 in
      finish_update-IsMove c c1 false (Base.get_window_update t now c.stream.base).0 c' i le y1 x5
        y2 x6
        (follow_growth c.stream.base.receive_window_size c1.receive_window_size now c.connection)
        (follow_growth_lem c.stream.base.receive_window_size c1.receive_window_size now
          c.connection)
        (rw unknown at e)
]

max_stream_data-IsMove :
    (c : Controllers) (offset : ℕ)
    → IsInside c.stream.base
    → c.connection.highest_received ≤ c.connection.receive_window
    → IsMove c
        (record c { stream = set_base c.stream (Base.update_send_window c.stream.base offset).1 })
unfolding Base.update_send_window
max_stream_data-IsMove c offset i le = ground arith

-- A call on a stream moves the connection's counts by as much as the stream's, and leaves both
-- inside their windows.
pub call-IsMove :
    (a : Call) (c c' : Controllers)
    → IsInside c.stream.base
    → c.connection.highest_received ≤ c.connection.receive_window
    → call a c ≡ some c'
    → IsMove c c'
unfolding call
call-IsMove (received offset final now) c c' i le e =
    accepted (update_highest_received c offset final now) (received-IsMove c offset final now i le)
      e
  where
    accepted :
        (r : Option FlowError × Controllers)
        → (r.0 ≡ none → IsMove c r.1)
        → unless_failed r ≡ some c'
        → IsMove c c'
    accepted (none, d) m e = subst (λ x. IsMove c x) (some-injective e) (m refl)
    accepted (some x, d) m e = cc
call-IsMove (read n) c c' i le e =
    subst (λ x. IsMove c x) (some-injective e) (simple-IsMove c n i le).0
call-IsMove abandoned c c' i le e =
    subst (λ x. IsMove c x) (some-injective e) (simple-IsMove c 0 i le).1
call-IsMove (sent n) c c' i le e =
    subst (λ x. IsMove c x) (some-injective e) (simple-IsMove c n i le).2
call-IsMove (max_stream_data offset) c c' i le e =
    subst (λ x. IsMove c x) (some-injective e) (max_stream_data-IsMove c offset i le)
call-IsMove (stream_update t now) c c' i le e = stream_update-IsMove t now c c' i le e
