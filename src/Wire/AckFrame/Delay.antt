-- ===== src/Wire/AckFrame/Delay.antt =====
-- The delay of an ACK frame on the wire and in the frame.
use uquic.Shared.{ℕ, ◌+◌, ◌*◌, ◌^◌, ◌<◌, ◌≡◌, arith}
use uquic.Wire.AckFrame.{decode_delay}

-- When the delay, scaled by the exponent and counted in nanoseconds, is below 2^63, the decoding
-- is exactly that many nanoseconds.
decode_delay_exact :
    (exponent delay : ℕ)
    → delay * 2 ^ exponent * 1000 < 2 ^ 63
    → decode_delay exponent delay ≡ delay * 2 ^ exponent * 1000
unfolding decode_delay
decode_delay_exact exponent delay h = grind arith

-- With the exponent 3, a delay field of 2^61 + d, where d is below 2^50, is decoded as if it were d:
-- the product wraps to a small positive value, which the test for a negative one does not see.
pub decode_delay_wraps : (d : ℕ) → d < 2 ^ 50 → decode_delay 3 (2 ^ 61 + d) ≡ d * 8000
unfolding decode_delay
decode_delay_wraps d h = ground arith
