-- ===== src/Udp/Fixtures.antt =====
-- A worker with three slots for sessions and one binding, for the tests: the session 0 relays, the
-- session 1 is in its handshake, and the slot 2 is free.
use bpf2socks.Prelude.{ℕ, true, false, none, some, [], ◌∷◌, replicate, write}
use bpf2socks.Bindings.{Sockaddr, Binding, Index}
use bpf2socks.Udp.{Address, Stage, Channel, Session, Stats, State, ready, no_session, no_binding}

abbrev pub client : ℕ → Address
client n = record { bytes = 2 ∷ 0 ∷ 4 ∷ 1 ∷ 10 ∷ 0 ∷ 0 ∷ n ∷ replicate 120 0; length = 16 }

abbrev pub server : Sockaddr
server = record { family = 2; port = 443; addr = 192 ∷ 0 ∷ 2 ∷ 1 ∷ replicate 12 0 }

abbrev pub relaying : Session
relaying = record no_session {
  used = true;
  stage = ready;
  client_addr = client 1;
  last_seen_ms = 1000;
  bindings = 0 ∷ [];
  binding_lru = 0 ∷ [];
  binding_count = 1;
  channels = 0 ∷ [];
}

abbrev pub shaking : Session
shaking = record no_session {
  used = true;
  stage = Stage.read_hello;
  client_addr = client 2;
  last_seen_ms = 2000;
  handshake_started_ms = 2000;
  handshake_linked = true;
  pending = record { original_dst = server; payload = 1 ∷ 2 ∷ []; allocation_bytes = 58 } ∷ [];
  pending_count = 1;
}

abbrev pub stats : Stats
stats = record {
  session_hits = 0;
  session_misses = 0;
  session_evictions = 0;
  associate_reuses = 0;
  associate_creates = 0;
  associate_timeouts = 0;
  relay_port_collisions = 0;
  binding_evictions = 0;
  binding_creates = 0;
  fullcone_binding_creates = 0;
  hash_lookups = 0;
  hash_collision_steps = 0;
  packets_to_client = 0;
  packets_to_upstream = 0;
  copy_sends = 0;
  drops_send_busy = 0;
  drops_oversized = 0;
  release_confirm_queries = 0;
  closed_client_releases = 0;
  release_events = 0;
  release_events_lost = 0;
}

abbrev pub answering : Binding
answering = record no_binding {
  used = true;
  original_dst = server;
  token_addr = 127 ∷ 8 ∷ 0 ∷ 1 ∷ replicate 12 0;
  last_seen_ms = 1000;
  owner = some 0;
}

abbrev pub quiet : Channel
quiet = record {
  session = some 0;
  queue = [];
  source_binding = none;
  fd = none;
  source_fd = 9;
  source_binding_generation = 0;
  use_pktinfo = false;
  raw = false;
}

abbrev pub index : Index
index = record { buckets = λ _. 0 ∷ []; bucket_count = 1 }

abbrev pub worker : State
worker = record {
  sessions = write (write (λ _. no_session) 0 relaying) 1 shaking;
  bindings = write (λ _. no_binding) 0 answering;
  channels = λ _. quiet;
  free_sessions = 2 ∷ [];
  free_bindings = [];
  retired_channels = [];
  session_buckets = λ _. 0 ∷ 1 ∷ [];
  lru = 0 ∷ 1 ∷ [];
  handshakes = 1 ∷ [];
  binding_lru = 0 ∷ [];
  binding_index = index;
  session_cap = 3;
  session_count = 2;
  binding_cap = 1;
  binding_count = 1;
  local_session_count = 0;
  budget_cap = 100000;
  budget_used = 58;
  read_reservation = 0;
  budget_waiters = 0;
  idle_timeout_ms = 60000;
  relay_ports = λ _. false;
  released_ports = λ _. false;
  release_retry_due_ms = 0;
  port_destroyed_ms = λ _. 0;
  check_new_sessions_until_ms = 0;
  destroy_events_armed = false;
  closed = [];
  stats = stats;
}
