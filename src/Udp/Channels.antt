-- ===== src/Udp/Channels.antt =====
-- The channels of queued datagrams of bridge/udp_downlink.c: retiring them, and sending what waits.
pub mod Drain
use bpf2socks.Prelude.{
  ℕ, zero, suc, ◌+◌, ◌==◌, Bool, true, false, ◌&&◌, ◌||◌, not, Option, none, some, List, [], ◌∷◌,
  ◌++◌, if◌then◌else◌, length, Result, ok, err, Errno, einval, write,
}
use bpf2socks.Prelude.Outcome.{Outcome, done, fail, out_of_fuel}
use bpf2socks.Bindings.{unlink}
use bpf2socks.Downlink.{mark_ready, SendResult, complete, retry, fatal}
use bpf2socks.Udp.{
  State, Stats, Session, Channel, Packet, set_session, set_binding, lru_touch, close_fd,
}
use bpf2socks.Udp.Reply.{binding_lru_touch}
use bpf2socks.Udp.Queue.{alloc_downlink_packet, release_packet, find_channel, set_paused}

abbrev pub set_channel : State → ℕ → Channel → State
set_channel s c v = record s { channels = write s.channels c v }

-- The loop over the queue of a channel that is retired.
unfoldable pub drain : State → ℕ → ℕ → List Packet → State
drain s i c [] = s
drain s i c (p ∷ ps) =
    drain (release_packet (set_channel s c (record (s.channels c) { queue = ps })) i p) i c ps

-- A channel that leaves its session, with its descriptor closed.
unfoldable pub detach : State → ℕ → ℕ → State
detach s i c =
    let s1 =
      set_session s i (record (s.sessions i) { channels = unlink c (s.sessions i).channels }) in
    let s2 = close_fd s1 (s1.channels c).fd in
    set_channel s2 c (record (s2.channels c) { fd = none })

-- `retire_downlink_channel` but for its last statement.
unfoldable pub retire : State → ℕ → ℕ → State
retire s i c =
    let s1 = detach s i c in
    let s2 = drain s1 i c (s1.channels c).queue in
    let s3 = set_channel s2 c (record (s2.channels c) { session = none }) in
    record s3 { retired_channels = c ∷ s3.retired_channels }

-- Its last statement, where it may resume the session.
pub resume_drained : Bool → State → ℕ → State
resume_drained modify s i =
    let v = s.sessions i in
    if v.used && (v.downlink_pending_count == 0) && not v.waiting_budget && v.downlink_paused
    then (set_paused modify s i false).0
    else s

-- The loop of `bpf2socks_udp_downlink_release_session`.
unfoldable pub retire_all : ℕ → State → ℕ → State
retire_all zero s i = s
retire_all (suc fuel) s i = elim (s.sessions i).channels [
  | [] ↦ s
  | c ∷ cs ↦ retire_all fuel (retire s i c) i
]

-- `bpf2socks_udp_downlink_release_session`.
unfoldable pub release_session : State → ℕ → State
release_session s i =
    let s1 = retire_all (length (s.sessions i).channels) s i in
    let v = s1.sessions i in
    let (count, waiting) = mark_ready s1.budget_waiters v.waiting_budget in
    record (set_session s1 i (record v {
      downlink_pending_count = 0;
      downlink_paused = false;
      waiting_budget = waiting;
    })) { budget_waiters = count }

-- What the kernel answers while a datagram is queued: the copy of the descriptor and the address of
-- the new channel, memory for the packet, and whether epoll takes the two changes.
pub record Answers : Type 0 where
  pub dup : Option ℕ
  pub calloc : Option ℕ
  pub add : Bool
  pub malloc : Bool
  pub modify : Bool

abbrev source_of : Option ℕ → ℕ → ℕ → Option ℕ
source_of none source_fd b = none
source_of (some fd) source_fd b = if fd == source_fd then some b else none

-- `create_downlink_channel`: what it returns, and the state.
abbrev pub create_with :
    State → ℕ → ℕ → ℕ → Bool → Bool → Bool → Option ℕ → Option ℕ → State × Option ℕ
create_with s i b source_fd use_pktinfo raw add none c = (s, none)
create_with s i b source_fd use_pktinfo raw add (some fd) none = (close_fd s (some fd), none)
create_with s i b source_fd use_pktinfo raw false (some fd) (some c) = (close_fd s (some fd), none)
create_with s i b source_fd use_pktinfo raw true (some fd) (some c) =
    let source = source_of (s.bindings b).reply_fd source_fd b in
    let channel : Channel = record {
      session = some i;
      queue = [];
      source_binding = source;
      fd = some fd;
      source_fd = source_fd;
      source_binding_generation = elim source [
        | none ↦ 0
        | some b' ↦ (s.bindings b).reply_fd_generation
      ];
      use_pktinfo = use_pktinfo;
      raw = raw;
    } in
    let v = s.sessions i in
    (set_session (set_channel s c channel) i (record v { channels = c ∷ v.channels }), some c)

unfoldable pub create_channel : Answers → State → ℕ → ℕ → ℕ → Bool → Bool → State × Option ℕ
create_channel kernel s i b source_fd use_pktinfo raw =
    create_with s i b source_fd use_pktinfo raw kernel.add kernel.dup kernel.calloc

-- The part of `bpf2socks_udp_downlink_queue_packet` after the packet is there.
unfoldable pub push_packet : Bool → State → ℕ → ℕ → ℕ → Packet → ℕ → State × Bool
push_packet modify s i b c packet now =
    let s1 =
      set_channel s c (record (s.channels c) { queue = (s.channels c).queue ++ packet ∷ [] }) in
    let v = s1.sessions i in
    let (count, waiting) = mark_ready s1.budget_waiters v.waiting_budget in
    let s2 =
      record (set_session s1 i (record v {
        downlink_pending_count = v.downlink_pending_count + 1;
        waiting_budget = waiting;
        last_seen_ms = now;
      })) { budget_waiters = count } in
    let w = s2.bindings b in
    let s3 =
      set_binding s2 b
        (record w { downlink_pending_count = w.downlink_pending_count + 1; last_seen_ms = now }) in
    set_paused modify (binding_lru_touch (lru_touch s3 i) i b) i true

abbrev pub queue_allocated : Bool → Bool → State → ℕ → ℕ → ℕ → List ℕ → ℕ → Result ℕ → State × Bool
queue_allocated modify created s i b c payload now (ok bytes) =
    push_packet modify s i b c (record { binding = b; payload = payload; allocation_bytes = bytes })
      now
queue_allocated modify created s i b c payload now (err e) =
    ((if created then retire s i c else s), false)

abbrev pub queue_in : Answers → Bool → State → ℕ → ℕ → Option ℕ → List ℕ → ℕ → State × Bool
queue_in kernel created s i b none payload now = (s, false)
queue_in kernel created s i b (some c) payload now =
    let (t, bytes) = alloc_downlink_packet kernel.malloc s (length payload) in
    queue_allocated kernel.modify created t i b c payload now bytes

abbrev pub queue_found :
    Answers → State → ℕ → ℕ → List ℕ → ℕ → Bool → Bool → ℕ → Option ℕ → State × Bool
queue_found kernel s i b payload source_fd use_pktinfo raw now (some c) =
    queue_in kernel false s i b (some c) payload now
queue_found kernel s i b payload source_fd use_pktinfo raw now none =
    let (t, c) = create_channel kernel s i b source_fd use_pktinfo raw in
    queue_in kernel true t i b c payload now

-- `bpf2socks_udp_downlink_queue_packet` at the time `now`: the state, and whether it returns 0.
unfoldable pub queue_packet : Answers → State → ℕ → ℕ → List ℕ → ℕ → Bool → Bool → ℕ → State × Bool
queue_packet kernel s i b payload source_fd use_pktinfo raw now =
    queue_found kernel s i b payload source_fd use_pktinfo raw now
      (find_channel s i b source_fd use_pktinfo raw)

-- A packet that was sent leaves the queue.
abbrev pub sent_packet : State → ℕ → ℕ → Packet → List Packet → ℕ → State
sent_packet s i c p ps now =
    let s1 = set_session s i (record (s.sessions i) { last_seen_ms = now }) in
    let s2 = set_binding s1 p.binding (record (s1.bindings p.binding) { last_seen_ms = now }) in
    let s3 = lru_touch s2 i in
    let s4 = record s3 {
      stats = record s3.stats {
        packets_to_client = s3.stats.packets_to_client + 1;
        copy_sends = s3.stats.copy_sends + 1;
      };
    } in
    release_packet (set_channel s4 c (record (s4.channels c) { queue = ps })) i p

-- `bpf2socks_udp_downlink_flush_channel`: false is the result -1. `send` is what a send of the
-- packet comes to, at the time `now`.
unfoldable pub flush_queue :
    (Packet → SendResult) → Bool → ℕ → State → ℕ → ℕ → List Packet → State × Bool
flush_queue send modify now s i c [] = (resume_drained modify (retire s i c) i, true)
flush_queue send modify now s i c (p ∷ ps) = elim (send p) [
  | retry ↦ (s, true)
  | fatal ↦ (s, false)
  | complete ↦ flush_queue send modify now (sent_packet s i c p ps now) i c ps
]
