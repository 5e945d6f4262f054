-- ===== src/Token/Prefix.antt =====
-- An address matches an IPv4 token prefix when the prefix's leading bits are its own.
use bpf2socks.Prelude.{
  ℕ, ◌-◌, ◌*◌, ◌/◌, ◌^◌, ◌≤◌, ◌<◌, ◌≡◌, ◌↔◌, refl, sym, ◌∙◌, ap, arith, true, false, ◌==◌, ltb,
  all_below_at, ==_iff,
}
use bpf2socks.Prelude.Bits.Network.{bit_and_network}
use native.Mathlib.Nat.{one-le-pow, eq_of_mul-eq-mul_right}
use bpf2socks.Token.{complement32, host_mask4, imm4, match4, masked4}

-- The network mask has `prefix_bits` leading ones, as a table of the 33 prefixes says.
network_mask : (p : ℕ) → p ≤ 32 → complement32 (host_mask4 p) ≡ (2 ^ p - 1) * 2 ^ (32 - p)
network_mask p h = ground (
  arith,
  all_below_at 33 (λ p. complement32 (host_mask4 p) == (2 ^ p - 1) * 2 ^ (32 - p)) p refl
      (omega arith),
)

-- A masked address keeps its leading bits, and loses the others.
masked : (addr p : ℕ) → p ≤ 32 → addr < 2 ^ 32 → masked4 addr p ≡ addr / 2 ^ (32 - p) * 2 ^ (32 - p)
unfolding masked4
masked addr p h word =
    bit_and_network addr (complement32 (host_mask4 p)) p h word (network_mask p h)

-- An address and a prefix of at most 32 bits match exactly when their leading bits are the same.
pub match4_iff :
    (addr prefix p : ℕ)
    → p ≤ 32
    → addr < 2 ^ 32
    → prefix < 2 ^ 32
    → (match4 addr prefix p ≡ true) ↔ (addr / 2 ^ (32 - p) ≡ prefix / 2 ^ (32 - p))
unfolding match4
match4_iff addr prefix p h wa wp =
    let fits : ltb 32 p ≡ false = ground arith in
    let positive : 0 < 2 ^ (32 - p) = one-le-pow (32 - p) 2 (omega arith) in
    let same =
      eq_of_mul-eq-mul_right (2 ^ (32 - p)) positive (addr / 2 ^ (32 - p))
        (prefix / 2 ^ (32 - p)) in
    let ea = masked addr p h wa in
    let ep = masked prefix p h wp in
    let tested = ==_iff (masked4 addr p) (masked4 prefix p) in
    rw fits (
      λ e. same (sym ea ∙ tested.0 e ∙ ep),
      λ e. tested.1 (ea ∙ ap (λ t. t * 2 ^ (32 - p)) e ∙ sym ep),
    )

-- The immediate of a prefix has the prefix's leading bits and no others, so it matches the prefix.
pub imm4_lem :
    (prefix p : ℕ) → p ≤ 32 → prefix < 2 ^ 32 → imm4 prefix p ≡ prefix / 2 ^ (32 - p) * 2 ^ (32 - p)
unfolding imm4
imm4_lem prefix p h w = let fits : ltb 32 p ≡ false = ground arith in rw fits (masked prefix p h w)
