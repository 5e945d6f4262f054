-- ===== src/Udp/Life/Expire.antt =====
-- The expiry of sessions in bridge/udp_session.c: handshakes that take too long, and idle sessions.
pub mod Handshakes
pub mod Idle
use bpf2socks.Prelude.{
  ℕ, zero, suc, ◌+◌, ◌-◌, ◌%◌, ◌^◌, ◌==◌, Bool, true, false, ◌&&◌, ◌||◌, not, Option, none, some,
  List, [], ◌∷◌, if◌then◌else◌, ltb, leb,
}
use bpf2socks.Prelude.Outcome.{Outcome, done, out_of_fuel}
use bpf2socks.Udp.{State, Stats, Session}
use bpf2socks.Udp.Reply.{destroy_binding}
use bpf2socks.Udp.Life.{session_drop}
use bpf2socks.Udp.Life.Victim.{is_draining}

-- `now - then` of two `uint64_t`.
abbrev pub elapsed : ℕ → ℕ → ℕ
elapsed now since = (now + 2 ^ 64 - since) % 2 ^ 64

-- The handshake of the session has had its time.
abbrev pub is_late : ℕ → ℕ → Session → Bool
is_late timeout now v = not (now == 0) && leb timeout (elapsed now v.handshake_started_ms)

-- One round of the loop: `again` is the rest of it.
abbrev pub expire_head : (State → Outcome State) → ℕ → ℕ → State → List ℕ → Outcome State
expire_head again timeout now s [] = done s
expire_head again timeout now s (i ∷ is) =
    if is_late timeout now (s.sessions i)
    then again (
        session_drop
          (record s {
            stats = record s.stats { associate_timeouts = s.stats.associate_timeouts + 1 };
          })
          i)
    else done s

-- `bpf2socks_udp_session_expire_handshakes`.
unfoldable pub expire_handshakes : ℕ → ℕ → ℕ → State → Outcome State
expire_handshakes zero timeout now s = out_of_fuel
expire_handshakes (suc fuel) timeout now s =
    expire_head (expire_handshakes fuel timeout now) timeout now s s.handshakes

-- Where the walk over the LRU list ends: a session that is not in use, or was seen lately.
abbrev pub is_fresh : ℕ → ℕ → Session → Bool
is_fresh timeout now v = not v.used || ltb (elapsed now v.last_seen_ms) timeout

unfoldable pub expire_walk : ℕ → ℕ → State → List ℕ → State
expire_walk timeout now s [] = s
expire_walk timeout now s (i ∷ is) =
    if is_fresh timeout now (s.sessions i)
    then s
    else expire_walk timeout now (if is_draining (s.sessions i) then s else session_drop s i) is

-- `bpf2socks_udp_session_expire_idle` at the time `now`.
unfoldable pub session_expire_idle : ℕ → State → State
session_expire_idle now s = if now == 0 then s else expire_walk s.idle_timeout_ms now s s.lru

abbrev count_eviction : State → State
count_eviction s = record s {
  stats = record s.stats { binding_evictions = s.stats.binding_evictions + 1 };
}

-- `destroy_binding` with the owner of a binding; without an owner it does nothing.
abbrev destroy_owned : State → ℕ → Option ℕ → State
destroy_owned s b none = s
destroy_owned s b (some i) = destroy_binding s i b

unfoldable pub binding_expire_walk : ℕ → ℕ → State → List ℕ → State
binding_expire_walk timeout now s [] = s
binding_expire_walk timeout now s (b ∷ bs) =
    if not (s.bindings b).used || ltb (elapsed now (s.bindings b).last_seen_ms) timeout
    then s
    else binding_expire_walk timeout now
        (if ltb 0 (s.bindings b).downlink_pending_count
          then s
          else count_eviction (destroy_owned s b (s.bindings b).owner))
        bs

-- `bpf2socks_udp_binding_expire_idle`.
pub binding_expire_idle : ℕ → State → State
binding_expire_idle now s =
    if now == 0 then s else binding_expire_walk s.idle_timeout_ms now s s.binding_lru

-- What `recv` with MSG_PEEK comes to on a control connection.
pub data Peek : Type 0 where
  bytes closed again interrupted broken : Peek

-- `bpf2socks_udp_control_fd_is_healthy`: nothing to read is the only good answer.
pub control_fd_is_healthy : Peek → Bool
control_fd_is_healthy again = true
control_fd_is_healthy interrupted = true
control_fd_is_healthy _ = false

-- The bits of an epoll event that the code tests.
pub record Events : Type 0 where
  pub err_or_hup : Bool
  pub rdhup : Bool
  pub readable : Bool
  pub writable : Bool

pub control_event_is_failure : Peek → Events → Bool
control_event_is_failure peek e =
    e.err_or_hup || e.rdhup || (e.readable && not (control_fd_is_healthy peek))

abbrev drop_failed : State → ℕ → Bool → Option ℕ → State
drop_failed s i failed none = s
drop_failed s i failed (some fd) = if failed then session_drop s i else s

-- `bpf2socks_udp_session_control_event`.
pub session_control_event : State → ℕ → Peek → Events → State
session_control_event s i peek e =
    drop_failed s i (control_event_is_failure peek e) (s.sessions i).tcp_fd
