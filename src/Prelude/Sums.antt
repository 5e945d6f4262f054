-- ===== src/Prelude/Sums.antt =====
-- The sum of a function over the numbers below `n`.
use Prim.Native.Nat.{ℕ, zero, suc, ◌+◌, ◌≤◌, ◌<◌}
use mathlib.Core.Path.{◌≡◌, refl}
use mathlib.Core.Logic.{inl, inr}
use bpf2socks.Prelude.Tests.{◌==◌, Bool-cases}
use bpf2socks.Prelude.Lists.{write}
use native.Mathlib.Omega.{arith}

abbrev pub total : ℕ → (ℕ → ℕ) → ℕ
total zero f = 0
total (suc n) f = f n + total n f

pub total-zero : (n : ℕ) → total n (λ _. 0) ≡ 0
total-zero zero = refl
total-zero (suc n) = omega (arith, total-zero n)

total-write_above : (n : ℕ) (f : ℕ → ℕ) (i v : ℕ) → n ≤ i → total n (write f i v) ≡ total n f
total-write_above zero f i v h = refl
total-write_above (suc n) f i v h = let e = total-write_above n f i v (omega arith) in ground arith

pub total-write :
    (n : ℕ) (f : ℕ → ℕ) (i v : ℕ) → i < n → total n (write f i v) + f i ≡ total n f + v
total-write zero f i v h = absurd (omega arith)
total-write (suc n) f i v h = elim (Bool-cases (i == n)) [
  | inl same ↦ let e = total-write_above n f i v (ground arith) in ground arith
  | inr other ↦ let e = total-write n f i v (ground arith) in ground arith
]

pub total_ge : (n : ℕ) (f : ℕ → ℕ) (i : ℕ) → i < n → f i ≤ total n f
total_ge zero f i h = absurd (omega arith)
total_ge (suc n) f i h = elim (Bool-cases (i == n)) [
  | inl same ↦ ground arith
  | inr other ↦ let e = total_ge n f i (ground arith) in omega arith
]
