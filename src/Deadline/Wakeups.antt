-- ===== src/Deadline/Wakeups.antt =====
-- A worker wakes up by its next deadline, and does not spin before it.
use bpf2socks.Prelude.{
  ℕ, ◌+◌, ◌≤◌, ◌<◌, ◌≡◌, ◌≢◌, ◌↔◌, arith, Bool, true, false, Option, none, some, ltb, ◌||◌,
  Bool-cases, inl, inr,
}
use bpf2socks.Deadline.{
  no_deadline, int_max, tcp_expired, deadline_wait_timeout, cap_wait, tcp_wait_timeout,
  udp_wait_timeout,
}

-- A timeout that suits a deadline: it ends by a deadline ahead and is not 0 before it, and it is 0
-- once the deadline is reached.
abbrev pub Suits : ℕ → ℕ → Option ℕ → Type 0
Suits next_deadline now none = next_deadline ≡ no_deadline
Suits next_deadline now (some t) =
    (next_deadline ≢ no_deadline → now ≤ next_deadline → now + t ≤ next_deadline)
    × (now < next_deadline → now ≢ 0 → 0 < t)
    × (next_deadline ≢ no_deadline → next_deadline ≤ now → t ≡ 0)
    × (t ≤ int_max)

deadline_wait_timeout-Suits :
    (next_deadline now : ℕ)
    → now ≢ 0
    → Suits next_deadline now (deadline_wait_timeout next_deadline now)
unfolding deadline_wait_timeout
deadline_wait_timeout-Suits next_deadline now clock = ground arith

cap_wait-Suits :
    (next_deadline now : ℕ) (b : Bool) (timeout : Option ℕ)
    → Suits next_deadline now timeout
    → Suits next_deadline now (cap_wait b timeout)
cap_wait-Suits d now false timeout h = h
cap_wait-Suits d now true none h = ground arith
cap_wait-Suits d now true (some t) h = ground arith

-- A worker that has to look again within a second does.
abbrev pub IsCapped : Bool → Option ℕ → Type 0
IsCapped false timeout = Unit {0}
IsCapped true none = ⊥
IsCapped true (some t) = t ≤ 1000

cap_wait-IsCapped : (b : Bool) (timeout : Option ℕ) → IsCapped b (cap_wait b timeout)
cap_wait-IsCapped false timeout = tt
cap_wait-IsCapped true none = omega arith
cap_wait-IsCapped true (some t) = elim (Bool-cases (ltb 1000 t)) [
  | inl over ↦ rw over (omega arith)
  | inr fits ↦ rw fits (ground (arith, fits))
]

cap_wait-keeps :
    (a b : Bool) (timeout : Option ℕ) → IsCapped a timeout → IsCapped (a || b) (cap_wait b timeout)
cap_wait-keeps true true timeout h = cap_wait-IsCapped true timeout
cap_wait-keeps true false timeout h = h
cap_wait-keeps false b timeout h = cap_wait-IsCapped b timeout

-- While the clock works, a TCP worker waits without an end only if it has no deadline; otherwise it
-- wakes up by a deadline ahead and does not poll before it, returns at once from a deadline that is
-- reached, and its timeout is an `int`. It waits at most a second while its listeners are paused or
-- it publishes statistics.
pub tcp_wait_timeout-Suits :
    (paused : Bool) (next_deadline now : ℕ) (debug_stats : Bool)
    → now ≢ 0
    → Suits next_deadline now (tcp_wait_timeout paused next_deadline now debug_stats)
      × IsCapped (paused || debug_stats) (tcp_wait_timeout paused next_deadline now debug_stats)
unfolding tcp_wait_timeout
tcp_wait_timeout-Suits paused d now debug_stats clock =
    let first = cap_wait paused (deadline_wait_timeout d now) in
    (
      cap_wait-Suits d now debug_stats first (
          cap_wait-Suits d now paused (deadline_wait_timeout d now)
            (deadline_wait_timeout-Suits d now clock)),
      cap_wait-keeps paused debug_stats first
          (cap_wait-IsCapped paused (deadline_wait_timeout d now)),
    )

-- The same of a UDP worker.
pub udp_wait_timeout-Suits :
    (next_deadline now : ℕ) (debug_stats : Bool)
    → now ≢ 0
    → Suits next_deadline now (udp_wait_timeout next_deadline now debug_stats)
unfolding udp_wait_timeout
udp_wait_timeout-Suits d now debug_stats clock =
    cap_wait-Suits d now debug_stats (deadline_wait_timeout d now)
      (deadline_wait_timeout-Suits d now clock)

-- The deadline of a connection: from its creation until the relay stands, then from its last
-- activity.
abbrev pub base_of : ℕ → ℕ → Bool → ℕ
base_of created_at last_activity true = last_activity
base_of created_at last_activity false = created_at

abbrev pub timeout_of : ℕ → ℕ → Bool → ℕ
timeout_of connect_timeout idle_timeout true = idle_timeout
timeout_of connect_timeout idle_timeout false = connect_timeout

-- A connection has expired exactly when its timeout is enabled, its start is known, and the clock,
-- which works, has reached start plus timeout.
pub tcp_expired_iff :
    (now created_at last_activity : ℕ) (established : Bool) (connect_timeout idle_timeout : ℕ)
    → (tcp_expired now created_at last_activity established connect_timeout idle_timeout ≡ true) ↔ (
        (now ≢ 0)
        × (base_of created_at last_activity established ≢ 0)
        × (timeout_of connect_timeout idle_timeout established ≢ 0)
        × (base_of created_at last_activity established
              + timeout_of connect_timeout idle_timeout established
            ≤ now))
unfolding tcp_expired
tcp_expired_iff now created last true connect idle = ground arith
tcp_expired_iff now created last false connect idle = ground arith
