-- ===== src/Udp.antt =====
-- The state that the modules of a UDP worker share (bridge/udp_internal.h): its sessions, reply
-- bindings and downlink channels. Sessions, bindings and channels are numbers, with their fields in
-- the stores of `State`. The intrusive lists are lists from head to tail: `Udp.Lists` shows that
-- the pointer code does to its nodes what `unlink` and `to_tail` do to the list.
pub mod Client
pub mod Lists
pub mod Reply
pub mod Queue
pub mod Channels
pub mod Life
pub mod Associate
mod Fixtures
mod Tests
use bpf2socks.Prelude.{
  ℕ, ◌+◌, ◌-◌, ◌<◌, ◌==◌, Bool, true, false, Option, none, some, List, [], ◌∷◌, ◌++◌, if◌then◌else◌,
  write, ltb, replicate,
}
use bpf2socks.Bindings.{Sockaddr, Binding, Index, unlink}
use bpf2socks.Token.{Mode}

-- struct sockaddr_storage, by its bytes, with a length.
pub record Address : Type 0 where
  pub bytes : List ℕ
  pub length : ℕ

pub data Stage : Type 0 where
  unused connecting assoc_write read_hello read_response ready : Stage

-- struct bpf2socks_udp_pending_packet.
pub record Pending : Type 0 where
  pub original_dst : Sockaddr
  pub payload : List ℕ
  pub allocation_bytes : ℕ

-- struct bpf2socks_udp_downlink_packet.
pub record Packet : Type 0 where
  pub binding : ℕ
  pub payload : List ℕ
  pub allocation_bytes : ℕ

-- struct bpf2socks_udp_downlink_channel; `session` is `ref.session`.
pub record Channel : Type 0 where
  pub session : Option ℕ
  pub queue : List Packet
  pub source_binding : Option ℕ
  pub fd : Option ℕ
  pub source_fd : ℕ
  pub source_binding_generation : ℕ
  pub use_pktinfo : Bool
  pub raw : Bool

-- struct bpf2socks_udp_client_session. The buffers hold the bytes that are written or read.
pub record Session : Type 0 where
  pub used : Bool
  pub stage : Stage
  pub token_lookup_mode : Mode
  pub client_addr : Address
  pub tcp_fd : Option ℕ
  pub udp_fd : Option ℕ
  pub relay_addr : Address
  pub relay_connected : Bool
  pub last_seen_ms : ℕ
  pub relay_port : ℕ
  pub relay_port_claimed : Bool
  pub associate_retries : ℕ
  pub release_retry_ms : ℕ
  pub write_buf : List ℕ
  pub write_offset : ℕ
  pub read_buf : List ℕ
  pub read_expected : ℕ
  pub pending : List Pending
  pub pending_count : ℕ
  pub channels : List ℕ
  pub downlink_pending_count : ℕ
  pub downlink_paused : Bool
  pub waiting_budget : Bool
  pub bindings : List ℕ
  pub binding_lru : List ℕ
  pub binding_count : ℕ
  pub handshake_started_ms : ℕ
  pub handshake_linked : Bool

-- Counters of a UDP worker: those of its sessions, bindings, sends and releases.
pub record Stats : Type 0 where
  pub session_hits : ℕ
  pub session_misses : ℕ
  pub session_evictions : ℕ
  pub associate_reuses : ℕ
  pub associate_creates : ℕ
  pub associate_timeouts : ℕ
  pub relay_port_collisions : ℕ
  pub binding_evictions : ℕ
  pub binding_creates : ℕ
  pub fullcone_binding_creates : ℕ
  pub hash_lookups : ℕ
  pub hash_collision_steps : ℕ
  pub packets_to_client : ℕ
  pub packets_to_upstream : ℕ
  pub copy_sends : ℕ
  pub drops_send_busy : ℕ
  pub drops_oversized : ℕ
  pub release_confirm_queries : ℕ
  pub closed_client_releases : ℕ
  pub release_events : ℕ
  pub release_events_lost : ℕ

-- struct bpf2socks_udp_state, with the statistics of its worker, the ports of the relay registry,
-- the byte budget as the worker sees it between two operations of the others, and the descriptors
-- that were closed, the latest first.
pub record State : Type 0 where
  pub sessions : ℕ → Session
  pub bindings : ℕ → Binding
  pub channels : ℕ → Channel
  pub free_sessions : List ℕ
  pub free_bindings : List ℕ
  pub retired_channels : List ℕ
  pub session_buckets : ℕ → List ℕ
  pub lru : List ℕ
  pub handshakes : List ℕ
  pub binding_lru : List ℕ
  pub binding_index : Index
  pub session_cap : ℕ
  pub session_count : ℕ
  pub binding_cap : ℕ
  pub binding_count : ℕ
  pub local_session_count : ℕ
  pub budget_cap : ℕ
  pub budget_used : ℕ
  pub read_reservation : ℕ
  pub budget_waiters : ℕ
  pub idle_timeout_ms : ℕ
  pub relay_ports : ℕ → Bool
  pub released_ports : ℕ → Bool
  pub release_retry_due_ms : ℕ
  pub port_destroyed_ms : ℕ → ℕ
  pub check_new_sessions_until_ms : ℕ
  pub destroy_events_armed : Bool
  pub closed : List ℕ
  pub stats : Stats

abbrev pub no_address : Address
no_address = record { bytes = replicate 128 0; length = 0 }

-- A cleared session, with the descriptors at -1.
abbrev pub no_session : Session
no_session = record {
  used = false;
  stage = unused;
  token_lookup_mode = Mode.unknown;
  client_addr = no_address;
  tcp_fd = none;
  udp_fd = none;
  relay_addr = no_address;
  relay_connected = false;
  last_seen_ms = 0;
  relay_port = 0;
  relay_port_claimed = false;
  associate_retries = 0;
  release_retry_ms = 0;
  write_buf = [];
  write_offset = 0;
  read_buf = [];
  read_expected = 0;
  pending = [];
  pending_count = 0;
  channels = [];
  downlink_pending_count = 0;
  downlink_paused = false;
  waiting_budget = false;
  bindings = [];
  binding_lru = [];
  binding_count = 0;
  handshake_started_ms = 0;
  handshake_linked = false;
}

-- A cleared binding, with the descriptor at -1.
abbrev pub no_binding : Binding
no_binding = record {
  used = false;
  original_dst = record { family = 0; port = 0; addr = replicate 16 0 };
  token_addr = replicate 16 0;
  connected_udp_token = false;
  reply_fd = none;
  reply_raw = false;
  reply_fd_generation = 0;
  last_seen_ms = 0;
  downlink_pending_count = 0;
  owner = none;
}

abbrev pub set_session : State → ℕ → Session → State
set_session s i v = record s { sessions = write s.sessions i v }

abbrev pub set_binding : State → ℕ → Binding → State
set_binding s b v = record s { bindings = write s.bindings b v }

abbrev pub is_last : List ℕ → ℕ → Bool
is_last [] x = false
is_last (y ∷ []) x = y == x
is_last (y ∷ z ∷ zs) x = is_last (z ∷ zs) x

-- A node of an LRU list moves to the tail.
abbrev pub to_tail : ℕ → List ℕ → List ℕ
to_tail x xs = if is_last xs x then xs else unlink x xs ++ x ∷ []

-- `bpf2socks_udp_lru_touch`.
abbrev pub lru_touch : State → ℕ → State
lru_touch s i = record s { lru = to_tail i s.lru }

abbrev pub closing : Option ℕ → List ℕ → List ℕ
closing none fds = fds
closing (some fd) fds = fd ∷ fds

-- `close` of a descriptor that is not -1.
abbrev pub close_fd : State → Option ℕ → State
close_fd s fd = record s { closed = closing fd s.closed }

-- `--n` where `n > 0`.
abbrev pub decrement : ℕ → ℕ
decrement n = if ltb 0 n then n - 1 else n

-- `bpf2socks_udp_budget_release`: more bytes than are in use are refused.
abbrev pub budget_release : State → ℕ → State
budget_release s bytes = record s {
  budget_used = if ltb s.budget_used bytes then s.budget_used else s.budget_used - bytes;
}
