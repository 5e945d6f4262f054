-- ===== src/Prelude/Outcome.antt =====
-- What a routine over a C buffer comes to: a value, an errno, a read outside the buffer, or no end
-- within the fuel.
use bpf2socks.Prelude.Errors.{Errno}
use bpf2socks.Prelude.Lists.{length, get_elem?, get_elem?_lt, take, drop}
use bpf2socks.Prelude.Tests.{leb, if◌then◌else◌}
use Prim.Native.Nat.{ℕ, ◌+◌, ◌*◌, ◌≤◌, ◌<◌}
use mathlib.Core.Option.{Option, none, some}
use mathlib.Core.List.{List}
use mathlib.Core.Bool.{Bool, true, false}
use mathlib.Core.Path.{◌≡◌, refl}
use mathlib.Core.Logic.{◌⊎◌, inl, inr}
use native.Mathlib.Omega.{arith}

pub data Outcome {ℓ} (A : Type ℓ) : Type ℓ where
  done : A → Outcome A
  fail : Errno → Outcome A
  out_of_bounds : Outcome A
  out_of_fuel : Outcome A

infixl 5 ◌>>=◌
abbrev pub ◌>>=◌ {ℓ κ} : {A : Type ℓ} {B : Type κ} → Outcome A → (A → Outcome B) → Outcome B
done a >>= f = f a
fail e >>= f = fail e
out_of_bounds >>= f = out_of_bounds
out_of_fuel >>= f = out_of_fuel

-- The value of a read, or a fault.
abbrev pub read {ℓ} : {A : Type ℓ} → Option A → Outcome A
read none = out_of_bounds
read (some a) = done a

-- The routine ends, and stays inside its buffers.
abbrev pub is_settled {ℓ} : {A : Type ℓ} → Outcome A → Bool
is_settled (done a) = true
is_settled (fail e) = true
is_settled out_of_bounds = false
is_settled out_of_fuel = false

abbrev pub Settled {ℓ} : {A : Type ℓ} → Outcome A → Type 0
Settled o = is_settled o ≡ true

pub Outcome-cases :
    {A : Type 0} (o : Outcome A)
    → Settled o
    → ((a : A) × (o ≡ done a)) ⊎ ((e : Errno) × (o ≡ fail e))
Outcome-cases (done a) h = inl (a, refl)
Outcome-cases (fail e) h = inr (e, refl)
Outcome-cases out_of_bounds h = cc
Outcome-cases out_of_fuel h = cc

-- Two bytes in network order.
abbrev pub read_be16 : List ℕ → ℕ → Outcome ℕ
read_be16 packet offset = do
  high ← read (get_elem? packet offset)
  low ← read (get_elem? packet (offset + 1))
  done (high * 256 + low)

-- A `memcpy` of `n` bytes at `pos`.
abbrev pub slice : List ℕ → ℕ → ℕ → Outcome (List ℕ)
slice buf pos n = if leb (pos + n) (length buf) then done (take n (drop pos buf)) else out_of_bounds

pub read_be16_lt :
    (packet : List ℕ) (i : ℕ) → i + 1 < length packet → (w : ℕ) × (read_be16 packet i ≡ done w)
read_be16_lt packet i h =
    let (high, eh) = get_elem?_lt packet i (omega arith) in
    let (low, el) = get_elem?_lt packet (i + 1) h in (high * 256 + low, rw (eh, el))

pub slice_le :
    (buf : List ℕ) (pos n : ℕ)
    → pos + n ≤ length buf
    → slice buf pos n ≡ done (take n (drop pos buf))
slice_le buf pos n h = ground arith
