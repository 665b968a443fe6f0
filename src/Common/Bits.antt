-- ===== src/Common/Bits.antt =====
-- The laws of `&` and `|` that page table entries and environment ids rest on: one binary digit
-- at a time, then for a number whose low digits are free.
use Prim.Native.Nat.{
  ℕ, zero, suc, ◌+◌, ◌-◌, ◌*◌, ◌/◌, ◌%◌, ◌≤◌, min, max, bit_and, bit_or, digits, bit_and-bitwise,
  bit_or-bitwise,
}
use mathlib.Core.Path.{◌≡◌, refl, ◌∙◌}
use native.Mathlib.Omega.{arith}

-- The recursion that the native operations stand for, which counts the digits it looks at: beyond
-- those of the first number, a further one makes no difference.
module _ (rest : ℕ → ℕ) (digit : ℕ → ℕ → ℕ) where
  one_more_digit : (n x y : ℕ) → x ≤ n → digits rest digit (suc n) x y ≡ digits rest digit n x y
  one_more_digit zero zero y below = refl
  one_more_digit (suc n) zero y below = refl
  one_more_digit zero (suc x) y below = absurd (omega arith)
  one_more_digit (suc n) (suc x) y below =
      omega (arith, one_more_digit n (suc x / 2) (y / 2) (omega arith))

  more_digits :
      (extra n m x y : ℕ)
      → m ≡ extra + n
      → x ≤ n
      → digits rest digit m x y ≡ digits rest digit n x y
  more_digits zero n m x y sum below = let same_count : m ≡ n = omega arith in rw same_count refl
  more_digits (suc extra) n zero x y sum below = absurd (omega arith)
  more_digits (suc extra) n (suc m) x y sum below =
      one_more_digit m x y (omega arith) ∙ more_digits extra n m x y (omega arith) below

  -- The recursion at a number and at its half.
  half_digits :
      (x y : ℕ)
      → digits rest digit x (suc x / 2) (y / 2) ≡ digits rest digit (suc x / 2) (suc x / 2) (y / 2)
  half_digits x y =
      more_digits (x - suc x / 2) (suc x / 2) x (suc x / 2) (y / 2) (omega arith) (omega arith)

-- The lowest digit of `x | y`, and the rest of it.
pub bit_or_step : (x y : ℕ) → bit_or x y ≡ bit_or (x / 2) (y / 2) * 2 + max (x % 2) (y % 2)
bit_or_step zero y = omega (arith, bit_or-bitwise 0 y, bit_or-bitwise 0 (y / 2))
bit_or_step (suc x) y = omega (
  arith,
  half_digits (λ d. d) max x y,
  bit_or-bitwise (suc x / 2) (y / 2),
  bit_or-bitwise (suc x) y,
)

pub bit_and_step : (x y : ℕ) → bit_and x y ≡ bit_and (x / 2) (y / 2) * 2 + min (x % 2) (y % 2)
bit_and_step zero y = omega (arith, bit_and-bitwise 0 y, bit_and-bitwise 0 (y / 2))
bit_and_step (suc x) y = omega (
  arith,
  half_digits (λ _. zero) min x y,
  bit_and-bitwise (suc x / 2) (y / 2),
  bit_and-bitwise (suc x) y,
)

-- `x | 0` and `x & 0`, up to a bound on x.
or_and_zero : (bound x : ℕ) → x ≤ bound → (bit_or x 0 ≡ x) × (bit_and x 0 ≡ 0)
or_and_zero bound zero below = (refl, refl)
or_and_zero zero (suc x) below = absurd (omega arith)
or_and_zero (suc bound) (suc x) below =
    let (or_half, and_half) = or_and_zero bound (suc x / 2) (omega arith) in
    (omega (arith, or_half, bit_or_step (suc x) 0), omega (arith, and_half, bit_and_step (suc x) 0))

pub bit_or-zero : (x : ℕ) → bit_or x 0 ≡ x
bit_or-zero x = (or_and_zero x x (omega arith)).0

pub bit_and-zero : (x : ℕ) → bit_and x 0 ≡ 0
bit_and-zero x = (or_and_zero x x (omega arith)).1

pub bit_and-one : (x : ℕ) → bit_and x 1 ≡ x % 2
bit_and-one x = omega (bit_and-zero (x / 2), arith, bit_and_step x 1)

pub bit_and_two : (a : ℕ) → bit_and a 2 ≡ a / 2 % 2 * 2
bit_and_two a = omega (arith, bit_and_step a 2, bit_and-one (a / 2))

pub bit_and_four : (a : ℕ) → bit_and a 4 ≡ a / 4 % 2 * 4
bit_and_four a = omega (arith, bit_and_step a 4, bit_and_two (a / 2))

-- `|` digit by digit: the digits above a place are those of the two numbers above it.
pub bit_or-div_two : (a b : ℕ) → bit_or a b / 2 ≡ bit_or (a / 2) (b / 2)
bit_or-div_two a b = omega (arith, bit_or_step a b)

pub bit_or-mod_two : (a b : ℕ) → bit_or a b % 2 ≡ max (a % 2) (b % 2)
bit_or-mod_two a b = omega (arith, bit_or_step a b)
