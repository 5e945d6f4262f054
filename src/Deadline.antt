-- ===== src/Deadline.antt =====
-- The timers of bridge/deadline.c. Times are milliseconds; the timeout -1 of `epoll_wait` is `none`.
pub mod Wakeups
mod Tests
use bpf2socks.Prelude.{
  ℕ, ◌-◌, ◌^◌, Bool, true, false, ◌&&◌, ◌||◌, not, Option, none, some, ltb, leb, ◌==◌,
  if◌then◌else◌,
}

-- UINT64_MAX and INT_MAX.
abbrev pub no_deadline : ℕ
no_deadline = 2 ^ 64 - 1

abbrev pub int_max : ℕ
int_max = 2 ^ 31 - 1

pub tcp_expired : ℕ → ℕ → ℕ → Bool → ℕ → ℕ → Bool
tcp_expired now created_at last_activity relay_established connect_timeout idle_timeout =
    if now == 0
    then false
    else (if not relay_established
        then (if created_at == 0
            then false
            else not (connect_timeout == 0)
              && (leb created_at now && leb connect_timeout (now - created_at)))
        else (if last_activity == 0
            then false
            else not (idle_timeout == 0)
              && (leb last_activity now && leb idle_timeout (now - last_activity))))

abbrev pub note : ℕ → ℕ → ℕ
note next_deadline deadline = if ltb deadline next_deadline then deadline else next_deadline

pub deadline_wait_timeout : ℕ → ℕ → Option ℕ
deadline_wait_timeout next_deadline now =
    if next_deadline == no_deadline
    then none
    else (if now == 0 || leb next_deadline now
        then some 0
        else (if ltb int_max (next_deadline - now)
            then some int_max
            else some (next_deadline - now)))

abbrev pub min_wait_timeout : Option ℕ → ℕ → Option ℕ
min_wait_timeout none cap = some cap
min_wait_timeout (some timeout) cap = if ltb cap timeout then some cap else some timeout

abbrev pub cap_wait : Bool → Option ℕ → Option ℕ
cap_wait true timeout = min_wait_timeout timeout 1000
cap_wait false timeout = timeout

pub tcp_wait_timeout : Bool → ℕ → ℕ → Bool → Option ℕ
unfolding deadline_wait_timeout
tcp_wait_timeout listeners_paused next_deadline now debug_stats =
    cap_wait debug_stats (cap_wait listeners_paused (deadline_wait_timeout next_deadline now))

pub udp_wait_timeout : ℕ → ℕ → Bool → Option ℕ
unfolding deadline_wait_timeout
udp_wait_timeout next_deadline now debug_stats =
    cap_wait debug_stats (deadline_wait_timeout next_deadline now)
