-- ===== src/Shared/Fields.antt =====
-- `|` of a multiple of a power of two and a number below that power is their sum.
use Prim.Native.Nat.{
  ℕ, zero, suc, ◌+◌, ◌*◌, ◌/◌, ◌%◌, ◌^◌, ◌≤◌, ◌<◌, max, bit_or, digits, bit_or-bitwise,
}
use mathlib.Core.Path.{◌≡◌, refl, ap}
use native.Mathlib.Nat.{pow-suc}
use native.Mathlib.Omega.{arith}

-- What `bit_or` stands for: a recursion on the digits of `a`, which takes at most `a` rounds.
abbrev or_digits : ℕ → ℕ → ℕ → ℕ
or_digits rounds a b = digits (λ x. x) max rounds a b

or_digits_rounds : (k n a b : ℕ) → a ≤ k → k ≤ n → or_digits n a b ≡ or_digits k a b
or_digits_rounds zero zero a b h l = refl
or_digits_rounds zero (suc n) zero b h l = refl
or_digits_rounds zero (suc n) (suc a) b h l = absurd (omega arith)
or_digits_rounds (suc k) zero a b h l = absurd (omega arith)
or_digits_rounds (suc k) (suc n) zero b h l = refl
or_digits_rounds (suc k) (suc n) (suc a) b h l =
    omega (arith, or_digits_rounds k n (suc a / 2) (b / 2) (omega arith) (omega arith))

bit_or_digit : (a b : ℕ) → bit_or a b ≡ bit_or (a / 2) (b / 2) * 2 + max (a % 2) (b % 2)
bit_or_digit zero b = omega (arith, bit_or-bitwise 0 b, bit_or-bitwise 0 (b / 2))
bit_or_digit (suc a) b = omega (
  arith,
  bit_or-bitwise (suc a) b,
  bit_or-bitwise (suc a / 2) (b / 2),
  or_digits_rounds (suc a / 2) a (suc a / 2) (b / 2) (omega arith) (omega arith),
)

bit_or_no_digits : (n a : ℕ) → a ≤ n → bit_or a 0 ≡ a
bit_or_no_digits n zero h = refl
bit_or_no_digits zero (suc a) h = absurd (omega arith)
bit_or_no_digits (suc n) (suc a) h =
    omega (arith, bit_or_digit (suc a) 0, bit_or_no_digits n (suc a / 2) (omega arith))

pub bit_or_sum : (k q r : ℕ) → r < 2 ^ k → bit_or (q * 2 ^ k) r ≡ q * 2 ^ k + r
bit_or_sum zero q r h = ground (arith, bit_or_no_digits q q)
bit_or_sum (suc k) q r h =
    let doubled : q * 2 ^ suc k ≡ 2 * (q * 2 ^ k) =
      omega (arith, ap (λ (t : ℕ). q * t) (pow-suc 2 k)) in
    ground (
      arith,
      doubled,
      bit_or_digit (q * 2 ^ suc k) r,
      bit_or_sum k q (r / 2) (omega (arith, pow-suc 2 k)),
    )
