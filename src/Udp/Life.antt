-- ===== src/Udp/Life.antt =====
-- The life of a client session in bridge/udp_session.c: the datagrams that wait for its association,
-- its end, the table of sessions by client address, and the choice of a session to evict.
pub mod Frame
pub mod Drop
pub mod Victim
pub mod Memory
pub mod Cleared
pub mod Expire
use bpf2socks.Prelude.{
  ℕ, zero, suc, ◌+◌, ◌-◌, ◌≤◌, ◌^◌, ◌==◌, Bool, true, false, ◌&&◌, ◌||◌, not, Option, none, some,
  List, [], ◌∷◌, ◌++◌, if◌then◌else◌, ltb, leb, length, Result, ok, err, Errno, einval, enobufs,
  enomem, write,
}
use bpf2socks.Prelude.Outcome.{Outcome, done, fail, out_of_fuel}
use bpf2socks.Bindings.{Sockaddr, unlink}
use bpf2socks.Udp.{
  State, Stats, Session, Pending, Stage, ready, Address, no_session, set_session, to_tail,
  lru_touch, close_fd, decrement, budget_release,
}
use bpf2socks.Udp.Client.{same_sockaddr, session_bucket, is_loopback}
use bpf2socks.Udp.Reply.{destroy_binding}
use bpf2socks.Udp.Queue.{budget_reserve, size_max}
use bpf2socks.Udp.Channels.{release_session}

-- sizeof(struct bpf2socks_udp_pending_packet).
abbrev pub pending_size : ℕ
pending_size = 56

abbrev pub pending_from : Bool → State → Option State → ℕ → State × Result ℕ
pending_from malloc s none bytes = (s, err enobufs)
pending_from true s (some t) bytes = (t, ok bytes)
pending_from false s (some t) bytes = (budget_release t bytes, err enomem)

-- `alloc_pending_packet`: its allocation bytes.
unfoldable pub alloc_pending_packet : Bool → State → ℕ → State × Result ℕ
alloc_pending_packet malloc s payload_len =
    let bytes = pending_size + payload_len in
    if ltb (size_max - pending_size) payload_len
    then (s, err enobufs)
    else pending_from malloc s (budget_reserve s bytes) bytes

abbrev pub append_pending : State → ℕ → Sockaddr → List ℕ → ℕ → Result ℕ → State × Bool
append_pending s i original_dst payload now (err e) = (s, false)
append_pending s i original_dst payload now (ok bytes) =
    let v = s.sessions i in
    let packet : Pending = record {
      original_dst = original_dst;
      payload = payload;
      allocation_bytes = bytes;
    } in
    let s1 = set_session s i (record v {
      pending = v.pending ++ packet ∷ [];
      pending_count = v.pending_count + 1;
      last_seen_ms = now;
    }) in
    (lru_touch s1 i, true)

-- `bpf2socks_udp_session_queue_pending` at the time `now`.
unfoldable pub queue_pending : Bool → State → ℕ → Sockaddr → List ℕ → ℕ → ℕ → State × Bool
queue_pending malloc s i original_dst payload payload_cap now =
    if ltb payload_cap (length payload)
    then (s, false)
    else (let (t, bytes) = alloc_pending_packet malloc s (length payload) in
        append_pending t i original_dst payload now bytes)

-- The loop of `release_session_pending_packets`.
unfoldable pub release_each : State → List Pending → State
release_each s [] = s
release_each s (p ∷ ps) = release_each (budget_release s p.allocation_bytes) ps

unfoldable pub release_pending : State → ℕ → State
unfolding release_each
release_pending s i =
    let s1 = release_each s (s.sessions i).pending in
    set_session s1 i (record (s1.sessions i) { pending = []; pending_count = 0 })

-- The loop of `session_close` over the bindings.
unfoldable pub destroy_all : ℕ → State → ℕ → State
destroy_all zero s i = s
destroy_all (suc fuel) s i = elim (s.sessions i).bindings [
  | [] ↦ s
  | b ∷ bs ↦ destroy_all fuel (destroy_binding s i b) i
]

-- The part of `session_close` before the bindings.
unfoldable pub close_ends : State → ℕ → State
close_ends s i =
    let s1 = record s {
      relay_ports =
          if (s.sessions i).relay_port_claimed
          then write s.relay_ports (s.sessions i).relay_port false
          else s.relay_ports;
    } in
    let s2 = release_session (release_pending s1 i) i in
    close_fd (close_fd s2 (s2.sessions i).tcp_fd) (s2.sessions i).udp_fd

-- `bpf2socks_udp_session_close`.
unfoldable pub session_close : State → ℕ → State
session_close s i =
    let s1 = close_ends s i in
    let s2 = destroy_all (length (s1.sessions i).bindings) s1 i in
    if (s.sessions i).used then set_session s2 i no_session else s

-- The walk of `bpf2socks_udp_session_find`.
unfoldable pub find_client : State → Address → List ℕ → Option ℕ
find_client s client [] = none
find_client s client (i ∷ is) =
    if (s.sessions i).used && same_sockaddr (s.sessions i).client_addr client
    then some i
    else find_client s client is

unfoldable pub session_find : State → Address → Option ℕ
session_find s client = find_client s client (s.session_buckets (session_bucket client))

-- `bpf2socks_udp_handshake_add_tail`.
unfoldable pub handshake_add_tail : State → ℕ → ℕ → State
handshake_add_tail s i now =
    record (set_session s i
      (record (s.sessions i) { handshake_started_ms = now; handshake_linked = true })) {
        handshakes = s.handshakes ++ i ∷ [];
      }

-- `bpf2socks_udp_handshake_remove`.
unfoldable pub handshake_remove : State → ℕ → State
handshake_remove s i =
    if (s.sessions i).handshake_linked
    then record (set_session s i (record (s.sessions i) { handshake_linked = false })) {
      handshakes = unlink i s.handshakes;
    }
    else s

abbrev pub unlink_session_from_hash : State → ℕ → State
unlink_session_from_hash s i =
    let bucket = session_bucket (s.sessions i).client_addr in
    record s {
      session_buckets = write s.session_buckets bucket (unlink i (s.session_buckets bucket));
    }

-- `bpf2socks_udp_session_drop` of a session in use, before the session is closed.
unfoldable pub session_unlink : State → ℕ → State
unfolding handshake_remove
session_unlink s i =
    let s1 = unlink_session_from_hash s i in
    let s2 = handshake_remove (record s1 { lru = unlink i s1.lru }) i in
    record s2 {
      local_session_count =
          if is_loopback (s2.sessions i).client_addr
          then decrement s2.local_session_count
          else s2.local_session_count;
    }

-- `bpf2socks_udp_session_drop`.
unfoldable pub session_drop : State → ℕ → State
session_drop s i =
    let s1 = session_close (session_unlink s i) i in
    if (s.sessions i).used
    then record s1 {
      session_count = decrement s1.session_count;
      free_sessions = i ∷ s1.free_sessions;
    }
    else s
