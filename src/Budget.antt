-- ===== src/Budget.antt =====
-- The shared byte budget of bridge/udp_budget.c. Every atomic operation is one step of one worker,
-- and the compare-and-exchange may fail for no reason, as the weak one may.
pub mod Steps
pub mod Inv
mod Tests
use bpf2socks.Prelude.{
  ℕ, zero, suc, ◌+◌, ◌-◌, Bool, true, false, ◌&&◌, ◌||◌, not, Option, none, some, ltb, leb, ◌==◌,
  if◌then◌else◌, write, Errno, enobufs, erange,
}

-- BPF2SOCKS_MAX_WORKER_COUNT.
abbrev pub max_workers : ℕ
max_workers = 8

-- `struct bpf2socks_udp_budget`; a negative fd is `none`, and `events` counts the writes to an fd.
pub record Budget : Type 0 where
  pub cap_bytes : ℕ
  pub used_bytes : ℕ
  pub peak_bytes : ℕ
  pub waiting_workers : ℕ → Bool
  pub wake_fds : ℕ → Option ℕ
  pub events : ℕ → ℕ

abbrev pub init : ℕ → Budget
init cap_bytes = record {
  cap_bytes = cap_bytes;
  used_bytes = 0;
  peak_bytes = 0;
  waiting_workers = λ _. false;
  wake_fds = λ _. none;
  events = λ _. 0;
}

abbrev pub set_wake_fd : Budget → ℕ → Option ℕ → Budget
set_wake_fd budget worker_id fd =
    if leb max_workers worker_id
    then budget
    else record budget { wake_fds = write budget.wake_fds worker_id fd }

abbrev pub wait : Budget → ℕ → Budget
wait budget worker_id =
    if leb max_workers worker_id
    then budget
    else record budget { waiting_workers = write budget.waiting_workers worker_id true }

-- Where a worker stands: in `reserve` or `release`, with the bytes asked for and the used bytes it
-- has seen; before and in `update_pending_budget_peak`, with the used bytes and the peak it has
-- seen; in `wake_pending_budget_waiters`; or after a call, with its errno.
pub data Phase : Type 0 where
  reserving releasing raising : ℕ → ℕ → Phase
  loading_peak : ℕ → Phase
  waking taking : Phase
  notifying : (ℕ → Bool) → ℕ → Phase
  returned : Option Errno → Phase

pub any_waiting : ℕ → (ℕ → Bool) → Bool
any_waiting zero waiters = false
any_waiting (suc n) waiters = waiters n || any_waiting n waiters

-- The write of 1 to a worker's eventfd.
abbrev pub signal : Budget → Option ℕ → Budget
signal budget none = budget
signal budget (some fd) = record budget { events = write budget.events fd (budget.events fd + 1) }

abbrev pub try_reserve : Bool → Budget → ℕ → ℕ → Budget × Phase
try_reserve exchanged budget bytes used =
    if exchanged && used == budget.used_bytes
    then (record budget { used_bytes = used + bytes }, loading_peak (used + bytes))
    else (budget, reserving bytes budget.used_bytes)

abbrev pub try_release : Bool → Budget → ℕ → ℕ → Budget × Phase
try_release exchanged budget bytes used =
    if exchanged && used == budget.used_bytes
    then (record budget { used_bytes = used - bytes }, waking)
    else (budget, releasing bytes budget.used_bytes)

abbrev pub try_raise : Bool → Budget → ℕ → ℕ → Budget × Phase
try_raise exchanged budget used_bytes peak =
    if exchanged && peak == budget.peak_bytes
    then (record budget { peak_bytes = used_bytes }, returned none)
    else (budget, raising used_bytes budget.peak_bytes)

-- One step: the exchange fails when `exchanged` is false or the value has changed.
pub advance : Bool → Budget → Phase → Budget × Phase
advance exchanged budget (reserving bytes used) =
    if ltb budget.cap_bytes bytes || ltb (budget.cap_bytes - bytes) used
    then (budget, returned (some enobufs))
    else try_reserve exchanged budget bytes used
advance exchanged budget (releasing bytes used) =
    if ltb used bytes
    then (budget, returned (some erange))
    else try_release exchanged budget bytes used
advance exchanged budget (loading_peak used_bytes) = (budget, raising used_bytes budget.peak_bytes)
advance exchanged budget (raising used_bytes peak) =
    if ltb peak used_bytes
    then try_raise exchanged budget used_bytes peak
    else (budget, returned none)
advance exchanged budget waking =
    (budget, if any_waiting max_workers budget.waiting_workers then taking else returned none)
advance exchanged budget taking =
    (record budget { waiting_workers = λ _. false }, notifying budget.waiting_workers 0)
advance exchanged budget (notifying waiters i) =
    if ltb i max_workers && any_waiting max_workers waiters
    then (if waiters i
        then (signal budget (budget.wake_fds i), notifying (write waiters i false) (i + 1))
        else (budget, notifying waiters (i + 1)))
    else (budget, returned none)
advance exchanged budget (returned e) = (budget, returned e)
