-- ===== src/Config/Tests.antt =====
-- The normalisation of tunables that a file leaves at 0 or sets too high.
use bpf2socks.Prelude.{◌≡◌, refl, none, some}
use bpf2socks.Config.{Tunables, default_tunables, normalize_runtime_tunables}
use bpf2socks.Config.Ranges.{
  InRange, normalize_runtime_tunables-InRange, normalize_runtime_tunables_idempotent,
}

abbrev extreme : Tunables
extreme = record default_tunables {
  worker_count = 64;
  max_tcp_sessions = 3;
  tcp_idle_timeout_milliseconds = 1;
  max_udp_bindings = 5;
  connect_timeout_milliseconds = 0;
  max_udp_pending_bytes = 1;
}

normalize_runtime_tunables-InRange_example : InRange (normalize_runtime_tunables none extreme)
normalize_runtime_tunables-InRange_example = normalize_runtime_tunables-InRange none extreme

fewer_workers : (normalize_runtime_tunables none extreme).worker_count ≡ 3
unfolding normalize_runtime_tunables
fewer_workers = refl

-- Without a number of workers in the file, the processors decide.
workers_of_eight : (normalize_runtime_tunables (some 8) default_tunables).worker_count ≡ 4
unfolding normalize_runtime_tunables
workers_of_eight = refl

workers_of_two : (normalize_runtime_tunables (some 2) default_tunables).worker_count ≡ 2
unfolding normalize_runtime_tunables
workers_of_two = refl

normalize_runtime_tunables_idempotent_example :
    normalize_runtime_tunables (some 8) (normalize_runtime_tunables none extreme)
    ≡ normalize_runtime_tunables none extreme
normalize_runtime_tunables_idempotent_example =
    normalize_runtime_tunables_idempotent none (some 8) extreme
