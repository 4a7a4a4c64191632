-- ===== src/FlowControl/Totals.antt =====
-- The streams of a connection together, against the connection's own controller.
use uquic.Shared.{
  ℕ, Bool, zero, suc, ◌+◌, ◌≤◌, ◌≡◌, refl, subst, Option, none, some, List, [], ◌∷◌, All, arith,
  some-injective,
}
use uquic.FlowControl.Base
use uquic.FlowControl.Base.{BaseFlowController}
use uquic.FlowControl.Connection.{new_connection_flow_controller}
use uquic.FlowControl.Stream.{StreamFlowController, Controllers}
use uquic.FlowControl.Session.{
  Session, Call, Event, opened, called, max_data, connection_update, call, call_at, step, run,
  put_first, put_back, and_then,
}
use uquic.FlowControl.Window.{get_window_update_bounds, get_window_update_keeps}
use uquic.FlowControl.Balance.{IsInside, IsMove, call-IsMove}

abbrev pub total : (BaseFlowController → ℕ) → List StreamFlowController → ℕ
total f [] = 0
total f (s ∷ ss) = f s.base + total f ss

abbrev pub highest : BaseFlowController → ℕ
highest c = c.highest_received

abbrev pub consumed : BaseFlowController → ℕ
consumed c = c.bytes_read

abbrev pub emitted : BaseFlowController → ℕ
emitted c = c.bytes_sent

abbrev pub AllInside : List StreamFlowController → Type 0
AllInside ss = All (λ s. IsInside s.base) ss

-- The totals of the streams move by as much as the connection's counts.
abbrev pub IsShift : List StreamFlowController → BaseFlowController → Session → Type 0
IsShift ss c x =
    (total highest x.streams + c.highest_received
      ≡ total highest ss + x.connection.highest_received)
    × (total consumed x.streams + c.bytes_read ≡ total consumed ss + x.connection.bytes_read)
    × (total emitted x.streams + c.bytes_sent ≡ total emitted ss + x.connection.bytes_sent)
    × AllInside x.streams
    × (x.connection.highest_received ≤ x.connection.receive_window)

put_first-IsShift :
    (s : StreamFlowController) (ss : List StreamFlowController) (c : BaseFlowController)
    (r : Option Controllers) (x : Session)
    → AllInside ss
    → ((d : Controllers) → r ≡ some d → IsMove (record { stream = s; connection = c }) d)
    → put_first r ss ≡ some x
    → IsShift (s ∷ ss) c x
put_first-IsShift s ss c none x h m e = cc
put_first-IsShift s ss c (some d) x h m e =
    let ((m1, m2, m3), m4, m5) = m d refl in
    subst (λ y. IsShift (s ∷ ss) c y) (some-injective e)
      (omega arith, omega arith, omega arith, (m4, h), m5)

put_back-IsShift :
    (s : StreamFlowController) (ss : List StreamFlowController) (c : BaseFlowController)
    (r : Option Session) (x : Session)
    → IsInside s.base
    → ((y : Session) → r ≡ some y → IsShift ss c y)
    → put_back s r ≡ some x
    → IsShift (s ∷ ss) c x
put_back-IsShift s ss c none x h m e = cc
put_back-IsShift s ss c (some y) x h m e =
    let (m1, m2, m3, m4, m5) = m y refl in
    subst (λ z. IsShift (s ∷ ss) c z) (some-injective e)
      (omega arith, omega arith, omega arith, (h, m4), m5)

call_at-IsShift :
    (a : Call) (i : ℕ) (ss : List StreamFlowController) (c : BaseFlowController) (x : Session)
    → AllInside ss
    → c.highest_received ≤ c.receive_window
    → call_at a i ss c ≡ some x
    → IsShift ss c x
unfolding call_at
call_at-IsShift a i [] c x h le e =
    subst (λ y. IsShift [] c y) (some-injective e) (refl, refl, refl, h, le)
call_at-IsShift a zero (s ∷ ss) c x (i, h) le e =
    put_first-IsShift s ss c (call a (record { stream = s; connection = c })) x h
      (λ d eq. call-IsMove a (record { stream = s; connection = c }) d i le eq) e
call_at-IsShift a (suc n) (s ∷ ss) c x (i, h) le e =
    put_back-IsShift s ss c (call_at a n ss c) x i (λ y eq. call_at-IsShift a n ss c y h le eq) e

-- The connection's counts are the totals of its streams'; every stream, and the connection, is
-- within the window it granted.
abbrev pub IsBalanced : Session → Type 0
IsBalanced x =
    (total highest x.streams ≡ x.connection.highest_received)
    × (total consumed x.streams ≡ x.connection.bytes_read)
    × (total emitted x.streams ≡ x.connection.bytes_sent)
    × AllInside x.streams
    × (x.connection.highest_received ≤ x.connection.receive_window)

raise_window-IsBalanced :
    (c : BaseFlowController) (offset : ℕ) (ss : List StreamFlowController)
    → IsBalanced (record { streams = ss; connection = c })
    → IsBalanced (record { streams = ss; connection = (Base.update_send_window c offset).1 })
unfolding Base.update_send_window
raise_window-IsBalanced c offset ss h = ground arith

step-IsBalanced : (e : Event) (x y : Session) → IsBalanced x → step e x ≡ some y → IsBalanced y
unfolding step
step-IsBalanced (opened w m i) x y (h1, h2, h3, h4, h5) e =
    subst IsBalanced (some-injective e)
      (omega arith, omega arith, omega arith, ((omega arith, omega arith), h4), h5)
step-IsBalanced (called i a) x y (h1, h2, h3, h4, h5) e =
    let (m1, m2, m3, m4, m5) = call_at-IsShift a i x.streams x.connection y h4 h5 e in
    (omega arith, omega arith, omega arith, m4, m5)
step-IsBalanced (max_data offset) x y h e =
    subst IsBalanced (some-injective e) (raise_window-IsBalanced x.connection offset x.streams h)
step-IsBalanced (connection_update t now) x y (h1, h2, h3, h4, h5) e =
    let (x1, x2, x3, x4, x5, x6) = get_window_update_bounds t now x.connection in
    let (y1, y2) = get_window_update_keeps t now x.connection in
    subst IsBalanced (some-injective e) (omega arith, omega arith, omega arith, h4, omega arith)

and_then-IsBalanced :
    (r : Option Session) (f : Session → Option Session) (y : Session)
    → ((z : Session) → r ≡ some z → IsBalanced z)
    → ((z : Session) → IsBalanced z → f z ≡ some y → IsBalanced y)
    → and_then r f ≡ some y
    → IsBalanced y
and_then-IsBalanced none f y h k e = cc
and_then-IsBalanced (some z) f y h k e = k z (h z refl) e

run-IsBalanced : (es : List Event) (x y : Session) → IsBalanced x → run es x ≡ some y → IsBalanced y
unfolding run
run-IsBalanced [] x y h e = subst IsBalanced (some-injective e) h
run-IsBalanced (e ∷ es) x y h eq =
    and_then-IsBalanced (step e x) (run es) y (λ z s. step-IsBalanced e x z h s)
      (λ z b q. run-IsBalanced es z y b q) eq

-- From a new connection, whatever streams are opened and whatever is called on them, as long as no
-- call fails: the connection's highest offset, its bytes read and its bytes sent are the totals of
-- the streams'. On every stream no more is read than was received, and no more received than its
-- window; and all streams together have received no more than the connection's window.
pub run-new_connection-IsBalanced :
    (window max_window : ℕ) (allow : Option (ℕ → Bool)) (es : List Event) (x : Session)
    → run es (record {
      streams = [];
      connection = new_connection_flow_controller window max_window allow;
    })
      ≡ some x
    → IsBalanced x
run-new_connection-IsBalanced window max_window allow es x e =
    run-IsBalanced es _ x (refl, refl, refl, tt, omega arith) e
