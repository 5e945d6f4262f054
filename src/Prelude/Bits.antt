-- ===== src/Prelude/Bits.antt =====
-- Laws of `bit_and` at variables: a mask of low ones, a mask of high ones.
mod Step
pub mod Network
use Prim.Native.Nat.{ℕ, zero, suc, ◌+◌, ◌-◌, ◌*◌, ◌/◌, ◌%◌, ◌^◌, ◌≤◌, ◌<◌, min, bit_and}
use mathlib.Core.Path.{◌≡◌, refl, ap}
use native.Mathlib.Nat.{pow-suc, one-le-pow, div-div-eq-div-mul}
use native.Mathlib.Omega.{arith}
use Step.{bit_and_step}

bit_and-zero_below : (bound a : ℕ) → a ≤ bound → bit_and a 0 ≡ 0
bit_and-zero_below bound zero below = refl
bit_and-zero_below zero (suc a) below = absurd (omega arith)
bit_and-zero_below (suc bound) (suc a) below =
    let half = bit_and-zero_below bound (suc a / 2) (omega arith) in
    omega (arith, half, bit_and_step (suc a) 0)

pub bit_and-zero : (a : ℕ) → bit_and a 0 ≡ 0
bit_and-zero a = bit_and-zero_below a a (omega arith)

double_pow : (q k : ℕ) → q * 2 ^ suc k ≡ 2 * (q * 2 ^ k)
double_pow q k = omega (arith, ap (λ (t : ℕ). q * t) (pow-suc 2 k))

keep_low : (k q r : ℕ) → r < 2 ^ k → bit_and (q * 2 ^ k + r) (2 ^ k - 1) ≡ r
keep_low zero q r fits = rw bit_and-zero (omega arith)
keep_low (suc k) q r fits = ground (
  arith,
  bit_and_step (q * 2 ^ suc k + r) (2 ^ suc k - 1),
  double_pow q k,
  pow-suc 2 k,
  keep_low k q (r / 2) (omega (arith, pow-suc 2 k)),
)

-- `x & (2^k - 1)` is the remainder by `2^k`.
pub bit_and_low : (k a : ℕ) → bit_and a (2 ^ k - 1) ≡ a % 2 ^ k
bit_and_low k a = ground (arith, one-le-pow k 2, keep_low k (a / 2 ^ k) (a % 2 ^ k))

-- A mask of high ones keeps the multiple of `2^k` below: `x & (m * 2^k)` is `(x / 2^k & m) * 2^k`.
pub bit_and_shifted : (k a m : ℕ) → bit_and a (m * 2 ^ k) ≡ bit_and (a / 2 ^ k) m * 2 ^ k
bit_and_shifted zero a m = ground arith
bit_and_shifted (suc k) a m = ground (
  arith,
  bit_and_step a (m * 2 ^ suc k),
  double_pow m k,
  double_pow (bit_and (a / 2 ^ suc k) m) k,
  bit_and_shifted k (a / 2) m,
  div-div-eq-div-mul a 2 (2 ^ k),
  pow-suc 2 k,
)
