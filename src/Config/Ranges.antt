-- ===== src/Config/Ranges.antt =====
-- Normalised tunables are in their documented ranges, and normalisation leaves such tunables alone.
use bpf2socks.Prelude.{ℕ, ◌≤◌, ◌≡◌, ◌⊎◌, Option, none, some, arith}
use bpf2socks.Config.{Tunables, auto_worker_count, normalize_runtime_tunables}

-- What the rest of the program may rely on.
pub record InRange (c : Tunables) : Type 0 where
  pub workers : 1 ≤ c.worker_count × c.worker_count ≤ 8
  pub workers_fit :
      c.worker_count ≤ c.max_tcp_sessions
      × c.worker_count ≤ c.max_udp_sessions
      × c.worker_count ≤ c.max_udp_bindings
  pub tcp_sessions : 1 ≤ c.max_tcp_sessions × c.max_tcp_sessions ≤ 8192
  pub connect_timeout :
      1000 ≤ c.connect_timeout_milliseconds × c.connect_timeout_milliseconds ≤ 60000
  pub tcp_idle :
      (c.tcp_idle_timeout_milliseconds ≡ 0)
      ⊎ (1000 ≤ c.tcp_idle_timeout_milliseconds × c.tcp_idle_timeout_milliseconds ≤ 3600000)
  pub socket_buffer : 1 ≤ c.udp_socket_buffer_size
  pub batch : 1 ≤ c.udp_batch_size
  pub sessions : 1 ≤ c.max_udp_sessions
  pub bindings : c.max_udp_sessions ≤ c.max_udp_bindings
  pub udp_idle : 1000 ≤ c.udp_idle_timeout_milliseconds × c.udp_idle_timeout_milliseconds ≤ 86400000
  pub pending : 131072 ≤ c.max_udp_pending_bytes × c.max_udp_pending_bytes ≤ 134217728
  pub dns_timeout :
      1000 ≤ c.dns_transaction_timeout_milliseconds
      × c.dns_transaction_timeout_milliseconds ≤ 600000

auto_worker_count_bounds :
    (cpus : Option ℕ) → 2 ≤ auto_worker_count cpus × auto_worker_count cpus ≤ 4
auto_worker_count_bounds none = (omega arith, omega arith)
auto_worker_count_bounds (some n) = ground arith

-- Whatever the file says, the normalised tunables are in range.
pub normalize_runtime_tunables-InRange :
    (cpus : Option ℕ) (c : Tunables) → InRange (normalize_runtime_tunables cpus c)
unfolding normalize_runtime_tunables
normalize_runtime_tunables-InRange cpus c =
    let (low, high) = auto_worker_count_bounds cpus in
    record {
      workers = ground arith;
      workers_fit = ground arith;
      tcp_sessions = ground arith;
      connect_timeout = ground arith;
      tcp_idle = ground arith;
      socket_buffer = ground arith;
      batch = ground arith;
      sessions = ground arith;
      bindings = ground arith;
      udp_idle = ground arith;
      pending = ground arith;
      dns_timeout = ground arith;
    }

-- Records are equal when their fields are.
Tunables_ext :
    (c d : Tunables)
    → c.worker_count ≡ d.worker_count
    → c.max_tcp_sessions ≡ d.max_tcp_sessions
    → c.connect_timeout_milliseconds ≡ d.connect_timeout_milliseconds
    → c.tcp_idle_timeout_milliseconds ≡ d.tcp_idle_timeout_milliseconds
    → c.udp_socket_buffer_size ≡ d.udp_socket_buffer_size
    → c.udp_batch_size ≡ d.udp_batch_size
    → c.max_udp_sessions ≡ d.max_udp_sessions
    → c.max_udp_bindings ≡ d.max_udp_bindings
    → c.udp_idle_timeout_milliseconds ≡ d.udp_idle_timeout_milliseconds
    → c.max_udp_pending_bytes ≡ d.max_udp_pending_bytes
    → c.dns_transaction_timeout_milliseconds ≡ d.dns_transaction_timeout_milliseconds
    → c ≡ d
Tunables_ext c d e0 e1 e2 e3 e4 e5 e6 e7 e8 e9 e10 = λ i. record {
  worker_count = e0 i;
  max_tcp_sessions = e1 i;
  connect_timeout_milliseconds = e2 i;
  tcp_idle_timeout_milliseconds = e3 i;
  udp_socket_buffer_size = e4 i;
  udp_batch_size = e5 i;
  max_udp_sessions = e6 i;
  max_udp_bindings = e7 i;
  udp_idle_timeout_milliseconds = e8 i;
  max_udp_pending_bytes = e9 i;
  dns_transaction_timeout_milliseconds = e10 i;
}

-- Tunables that are in range are kept as they are.
pub normalize_runtime_tunables_fixed :
    (cpus : Option ℕ) (c : Tunables) → InRange c → normalize_runtime_tunables cpus c ≡ c
unfolding normalize_runtime_tunables
normalize_runtime_tunables_fixed cpus c r =
    Tunables_ext (normalize_runtime_tunables cpus c) c (ground arith) (ground arith) (ground arith)
      (ground arith) (ground arith) (ground arith) (ground arith) (ground arith) (ground arith)
      (ground arith) (ground arith)

-- Normalising twice is normalising once.
pub normalize_runtime_tunables_idempotent :
    (cpus cpus' : Option ℕ) (c : Tunables)
    → normalize_runtime_tunables cpus' (normalize_runtime_tunables cpus c)
      ≡ normalize_runtime_tunables cpus c
normalize_runtime_tunables_idempotent cpus cpus' c =
    normalize_runtime_tunables_fixed cpus' (normalize_runtime_tunables cpus c)
      (normalize_runtime_tunables-InRange cpus c)
