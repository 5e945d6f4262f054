-- ===== src/Prelude/Bits/Network.antt =====
-- The network mask of a 32-bit address: it keeps the leading bits.
use Prim.Native.Nat.{ℕ, ◌-◌, ◌*◌, ◌/◌, ◌^◌, ◌≤◌, ◌<◌, bit_and}
use mathlib.Core.Path.{◌≡◌, refl, ap, ◌∙◌}
use native.Mathlib.Nat.{div-lt_iff_lt-mul, one-le-pow, mod-eq_of_lt}
use native.Mathlib.Omega.{arith}
use bpf2socks.Prelude.Tests.{◌==◌, all_below_at}
use bpf2socks.Prelude.Bits.{bit_and_low, bit_and_shifted}

word_split : (p : ℕ) → p ≤ 32 → 2 ^ p * 2 ^ (32 - p) ≡ 2 ^ 32
word_split p h =
    ground (arith, all_below_at 33 (λ p. 2 ^ p * 2 ^ (32 - p) == 2 ^ 32) p refl (omega arith))

-- A mask of `p` leading ones keeps the leading bits of a word, and clears the others.
pub bit_and_network :
    (addr mask p : ℕ)
    → p ≤ 32
    → addr < 2 ^ 32
    → mask ≡ (2 ^ p - 1) * 2 ^ (32 - p)
    → bit_and addr mask ≡ addr / 2 ^ (32 - p) * 2 ^ (32 - p)
bit_and_network addr mask p h word e =
    let k = 32 - p in
    let top : addr / 2 ^ k < 2 ^ p =
      (div-lt_iff_lt-mul (one-le-pow k 2 (omega arith))).1 (rw (word_split p h) word) in
    ap (bit_and addr) e
    ∙ bit_and_shifted k addr (2 ^ p - 1)
    ∙ ap (λ t. t * 2 ^ k) (bit_and_low p (addr / 2 ^ k) ∙ mod-eq_of_lt top)
