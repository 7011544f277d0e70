-- ===== src/Common/Bits.antt =====
-- Laws of `bit_and` at variables, from the digits that the native operation stands for.
use Prim.Native.Nat.{
  ℕ, zero, suc, ◌+◌, ◌-◌, ◌*◌, ◌/◌, ◌%◌, ◌≤◌, min, bit_and, digits, bit_and-bitwise,
}
use mathlib.Core.Path.{◌≡◌, refl, ap, sym}
use native.Mathlib.Omega.{arith}

pub zero-bit_and : (y : ℕ) → bit_and 0 y ≡ 0
zero-bit_and y = bit_and-bitwise 0 y

-- The native operation runs with its first argument for fuel. With any fuel `n` that is enough it is
-- the same; the recursion is on a bound of the fuel.
enough_fuel : (bound n x y : ℕ) → n ≤ bound → x ≤ n → digits (λ rest. zero) min n x y ≡ bit_and x y
enough_fuel bound zero zero y small fuel = sym (zero-bit_and y)
enough_fuel bound zero (suc x) y small fuel = absurd (omega arith)
enough_fuel bound (suc n) zero y small fuel = sym (zero-bit_and y)
enough_fuel zero (suc n) (suc x) y small fuel = absurd (omega arith)
enough_fuel (suc bound) (suc n) (suc x) y small fuel = omega (
  arith,
  enough_fuel bound n (suc x / 2) (y / 2) (omega arith) (omega arith),
  enough_fuel bound x (suc x / 2) (y / 2) (omega arith) (omega arith),
  bit_and-bitwise (suc x) y,
)

-- The lowest digit and the others.
pub bit_and_step : (x y : ℕ) → bit_and x y ≡ bit_and (x / 2) (y / 2) * 2 + min (x % 2) (y % 2)
bit_and_step zero y = omega (arith, zero-bit_and y, zero-bit_and (y / 2))
bit_and_step (suc x) y =
    let rest = enough_fuel x x (suc x / 2) (y / 2) (omega arith) (omega arith) in
    omega (arith, bit_and-bitwise (suc x) y, rest)

-- The number whose lowest `k` bits are ones: 2 ^ k - 1.
unfoldable pub ones : ℕ → ℕ
ones zero = 0
ones (suc k) = 2 * ones k + 1

-- A number that fits `k` bits.
pub bit_and-fits : (k a b : ℕ) → a ≤ ones k → bit_and a b ≤ a
unfolding ones
bit_and-fits zero zero b h = omega (arith, zero-bit_and b)
bit_and-fits zero (suc a) b h = absurd (omega arith)
bit_and-fits (suc k) a b h =
    omega (arith, bit_and_step a b, bit_and-fits k (a / 2) (b / 2) (omega arith))

pub bit_and_comm_of_fits : (k a b : ℕ) → a ≤ ones k → b ≤ ones k → bit_and a b ≡ bit_and b a
unfolding ones
bit_and_comm_of_fits zero zero zero h g = refl
bit_and_comm_of_fits zero (suc a) b h g = absurd (omega arith)
bit_and_comm_of_fits zero zero (suc b) h g = absurd (omega arith)
bit_and_comm_of_fits (suc k) a b h g = omega (
  arith,
  bit_and_step a b,
  bit_and_step b a,
  bit_and_comm_of_fits k (a / 2) (b / 2) (omega arith) (omega arith),
)

-- a & a = a.
pub bit_and_self : (k a : ℕ) → a ≤ ones k → bit_and a a ≡ a
unfolding ones
bit_and_self zero zero h = omega (arith, zero-bit_and 0)
bit_and_self zero (suc a) h = absurd (omega arith)
bit_and_self (suc k) a h = omega (arith, bit_and_step a a, bit_and_self k (a / 2) (omega arith))

-- Where every bit of `b` is set in `a`, clearing them subtracts `b`.
pub bit_and_not : (k a b : ℕ) → a ≤ ones k → bit_and a b ≡ b → bit_and a (ones k - b) + b ≡ a
unfolding ones
bit_and_not zero zero b h e = omega (arith, zero-bit_and b, zero-bit_and (0 - b))
bit_and_not zero (suc a) b h e = absurd (omega arith)
bit_and_not (suc k) a b h e =
    let low : b ≤ a = omega (arith, e, bit_and-fits (suc k) a b h) in
    let half : bit_and (a / 2) (b / 2) ≡ b / 2 = omega (arith, e, bit_and_step a b) in
    let rest : (2 * ones k + 1 - b) / 2 ≡ ones k - b / 2 = omega arith in
    omega (
      arith,
      e,
      bit_and_step a b,
      bit_and_step a (2 * ones k + 1 - b),
      ap (bit_and (a / 2)) rest,
      bit_and_not k (a / 2) (b / 2) (omega arith) half,
    )

-- Cleared bits are not set.
pub bit_and_cleared : (k a b : ℕ) → a ≤ ones k → b ≤ ones k → bit_and (bit_and a (ones k - b)) b ≡ 0
unfolding ones
bit_and_cleared zero zero b h g =
    omega (arith, ap (λ x. bit_and x b) (zero-bit_and (0 - b)), zero-bit_and b)
bit_and_cleared zero (suc a) b h g = absurd (omega arith)
bit_and_cleared (suc k) a b h g =
    let rest : (2 * ones k + 1 - b) / 2 ≡ ones k - b / 2 = omega arith in
    let step = bit_and_step a (2 * ones k + 1 - b) in
    let half : bit_and a (2 * ones k + 1 - b) / 2 ≡ bit_and (a / 2) (ones k - b / 2) =
      omega (arith, step, ap (bit_and (a / 2)) rest) in
    omega (
      arith,
      step,
      bit_and_step (bit_and a (2 * ones k + 1 - b)) b,
      ap (λ x. bit_and x (b / 2)) half,
      bit_and_cleared k (a / 2) (b / 2) (omega arith) (omega arith),
    )

-- What is set in a part of `a` is set in `a`.
pub bit_and_of_part : (k a m b : ℕ) → a ≤ ones k → bit_and (bit_and a m) b ≡ b → bit_and a b ≡ b
unfolding ones
bit_and_of_part zero zero m b h e = omega (arith, e, ap (λ x. bit_and x b) (zero-bit_and m))
bit_and_of_part zero (suc a) m b h e = absurd (omega arith)
bit_and_of_part (suc k) a m b h e =
    let step = bit_and_step a m in
    let half : bit_and a m / 2 ≡ bit_and (a / 2) (m / 2) = omega (arith, step) in
    let rest : bit_and (bit_and (a / 2) (m / 2)) (b / 2) ≡ b / 2 =
      omega (arith, e, bit_and_step (bit_and a m) b, ap (λ x. bit_and x (b / 2)) half) in
    omega (
      arith,
      e,
      step,
      bit_and_step (bit_and a m) b,
      bit_and_step a b,
      ap (λ x. bit_and x (b / 2)) half,
      bit_and_of_part k (a / 2) (m / 2) (b / 2) (omega arith) rest,
    )
