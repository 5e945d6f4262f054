-- ===== src/Prelude/Bits/Step.antt =====
-- `bit_and` unrolled by one binary digit: the fuel of the native definition is dropped.
use Prim.Native.Nat.{ℕ, zero, suc, ◌+◌, ◌*◌, ◌/◌, ◌%◌, ◌≤◌, min, bit_and, digits, bit_and-bitwise}
use mathlib.Core.Path.{◌≡◌, refl}
use native.Mathlib.Omega.{arith}

abbrev and_fuel : ℕ → ℕ → ℕ → ℕ
and_fuel n a b = digits (λ y. zero) min n a b

-- Fuel past the first operand changes nothing.
and_fuel-enough : (x y n m : ℕ) → x ≤ n → x ≤ m → and_fuel n x y ≡ and_fuel m x y
and_fuel-enough (suc x) y (suc n) (suc m) below below' =
    let half = and_fuel-enough (suc x / 2) (y / 2) n m (omega arith) (omega arith) in
    omega (arith, half)
and_fuel-enough (suc x) y (suc n) zero below below' = absurd (omega arith)
and_fuel-enough (suc x) y zero m below below' = absurd (omega arith)
and_fuel-enough zero y zero zero below below' = refl
and_fuel-enough zero y zero (suc m) below below' = refl
and_fuel-enough zero y (suc n) zero below below' = refl
and_fuel-enough zero y (suc n) (suc m) below below' = refl

bit_and-of_zero : (b : ℕ) → bit_and 0 b ≡ 0
bit_and-of_zero b = bit_and-bitwise 0 b

pub bit_and_step : (x y : ℕ) → bit_and x y ≡ bit_and (x / 2) (y / 2) * 2 + min (x % 2) (y % 2)
bit_and_step zero y = omega (arith, bit_and-of_zero (y / 2), bit_and-of_zero y)
bit_and_step (suc x) y =
    let whole = bit_and-bitwise (suc x) y in
    let halves = bit_and-bitwise (suc x / 2) (y / 2) in
    let fuel = and_fuel-enough (suc x / 2) (y / 2) x (suc x / 2) (omega arith) (omega arith) in
    omega (arith, whole, halves, fuel)
