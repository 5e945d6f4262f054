-- ===== src/Config.antt =====
-- The runtime tunables of core/config.c and their normalisation.
pub mod Ranges
pub mod Keys
pub mod Load
mod Tests
use bpf2socks.Prelude.{
  ℕ, Option, none, some, Bool, true, false, ◌&&◌, not, ltb, leb, ◌==◌, if◌then◌else◌,
}

-- The fields of `struct bpf2socks_runtime_config` that are normalised.
pub record Tunables : Type 0 where
  pub worker_count : ℕ
  pub max_tcp_sessions : ℕ
  pub connect_timeout_milliseconds : ℕ
  pub tcp_idle_timeout_milliseconds : ℕ
  pub udp_socket_buffer_size : ℕ
  pub udp_batch_size : ℕ
  pub max_udp_sessions : ℕ
  pub max_udp_bindings : ℕ
  pub udp_idle_timeout_milliseconds : ℕ
  pub max_udp_pending_bytes : ℕ
  pub dns_transaction_timeout_milliseconds : ℕ

abbrev pub default_tunables : Tunables
default_tunables = record {
  worker_count = 0;
  max_tcp_sessions = 4096;
  connect_timeout_milliseconds = 10000;
  tcp_idle_timeout_milliseconds = 0;
  udp_socket_buffer_size = 524288;
  udp_batch_size = 32;
  max_udp_sessions = 4096;
  max_udp_bindings = 16384;
  udp_idle_timeout_milliseconds = 60000;
  max_udp_pending_bytes = 67108864;
  dns_transaction_timeout_milliseconds = 60000;
}

-- `sysconf` answers a number of processors, or fails.
abbrev pub auto_worker_count : Option ℕ → ℕ
auto_worker_count none = 2
auto_worker_count (some cpu_count) = if leb 8 cpu_count then 4 else 2

-- The three tests that the fields share.
abbrev pub default_to : ℕ → ℕ → ℕ
default_to d x = if x == 0 then d else x

abbrev pub at_least : ℕ → ℕ → ℕ
at_least low x = if ltb x low then low else x

abbrev pub at_most : ℕ → ℕ → ℕ
at_most high x = if ltb high x then high else x

abbrev pub idle_range : ℕ → ℕ
idle_range x = at_most 3600000 (if not (x == 0) && ltb x 1000 then 1000 else x)

pub normalize_runtime_tunables : Option ℕ → Tunables → Tunables
normalize_runtime_tunables cpus c =
    let workers = at_most 8 (default_to (auto_worker_count cpus) c.worker_count) in
    let tcp = at_most 8192 (default_to 4096 c.max_tcp_sessions) in
    let udp = default_to 4096 c.max_udp_sessions in
    let bindings = at_least udp (default_to 16384 c.max_udp_bindings) in
    record {
      worker_count = at_most bindings (at_most udp (at_most tcp workers));
      max_tcp_sessions = tcp;
      connect_timeout_milliseconds =
          at_most 60000 (at_least 1000 (default_to 10000 c.connect_timeout_milliseconds));
      tcp_idle_timeout_milliseconds = idle_range c.tcp_idle_timeout_milliseconds;
      udp_socket_buffer_size = default_to 524288 c.udp_socket_buffer_size;
      udp_batch_size = default_to 32 c.udp_batch_size;
      max_udp_sessions = udp;
      max_udp_bindings = bindings;
      udp_idle_timeout_milliseconds =
          at_most 86400000 (at_least 1000 (default_to 60000 c.udp_idle_timeout_milliseconds));
      max_udp_pending_bytes =
          at_most 134217728 (at_least 131072 (default_to 67108864 c.max_udp_pending_bytes));
      dns_transaction_timeout_milliseconds =
          at_most 600000 (at_least 1000 (default_to 60000 c.dns_transaction_timeout_milliseconds));
    }
