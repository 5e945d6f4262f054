-- ===== src/Budget/Steps.antt =====
-- Workers that share a budget: their interleaved steps, with the bytes each one holds.
use bpf2socks.Prelude.{ℕ, ◌+◌, ◌-◌, ◌≤◌, ◌<◌, ◌≡◌, Bool, Option, none, write, Errno}
use bpf2socks.Budget.{
  Budget, init, wait, set_wake_fd, Phase, reserving, releasing, loading_peak, waking, returned,
  advance,
}

-- `held` is the bytes that a worker has reserved and not released.
pub record System : Type 0 where
  pub budget : Budget
  pub phase : ℕ → Phase
  pub held : ℕ → ℕ

abbrev pub start : ℕ → System
start cap_bytes = record { budget = init cap_bytes; phase = λ _. returned none; held = λ _. 0 }

-- What the worker holds after a step: the exchange of `used_bytes` is what reserves or releases.
abbrev pub held_after : ℕ → Phase → Phase → ℕ
held_after held (reserving bytes used) (loading_peak next) = held + bytes
held_after held (releasing bytes used) waking = held - bytes
held_after held before after = held

abbrev pub run : Bool → System → ℕ → System
run exchanged s i =
    let next = advance exchanged s.budget (s.phase i) in
    record {
      budget = next.0;
      phase = write s.phase i next.1;
      held = write s.held i (held_after (s.held i) (s.phase i) next.1);
    }

-- A step of one of `n` workers. A worker calls `reserve` and `release` between calls, and releases
-- only bytes that it holds; registering to be woken is atomic.
pub data Step (n : ℕ) : System → System → Type 0 where
  reserve :
      (s : System) (i bytes : ℕ) (e : Option Errno)
      → i < n
      → s.phase i ≡ returned e
      → Step n s (record s { phase = write s.phase i (reserving bytes s.budget.used_bytes) })
  release :
      (s : System) (i bytes : ℕ) (e : Option Errno)
      → i < n
      → s.phase i ≡ returned e
      → bytes ≤ s.held i
      → Step n s (record s { phase = write s.phase i (releasing bytes s.budget.used_bytes) })
  register : (s : System) (i : ℕ) → i < n → Step n s (record s { budget = wait s.budget i })
  set_fd :
      (s : System) (i : ℕ) (fd : Option ℕ)
      → i < n
      → Step n s (record s { budget = set_wake_fd s.budget i fd })
  proceed : (s : System) (i : ℕ) (exchanged : Bool) → i < n → Step n s (run exchanged s i)

pub data Reachable (n cap_bytes : ℕ) : System → Type 0 where
  begin : Reachable n cap_bytes (start cap_bytes)
  step : {s s' : System} → Reachable n cap_bytes s → Step n s s' → Reachable n cap_bytes s'
