-- ===== src/Config/Load.antt =====
-- `bpf2socks_config_load` of core/config.c over the text of the file. The environment's wish for
-- debug statistics, the processors that `sysconf` counts and the C library are parameters. A rejected
-- file is `none`.
pub mod Fields
pub mod Accepted
mod Tests
use bpf2socks.Prelude.{
  ℕ, ◌-◌, ◌^◌, Bool, true, false, ◌&&◌, ◌||◌, not, Option, none, some, List, [], ◌∷◌, ◌==◌,
  if◌then◌else◌, length,
}
use bpf2socks.Json.{
  uint_field, json_bool, json_string, has_key, json_object, uint_array, string_array,
}
use bpf2socks.Token.Text.{Libc, parse4, parse6}
use bpf2socks.Selector.{selector_valid}
use bpf2socks.Config.{Tunables, default_tunables, normalize_runtime_tunables}
use bpf2socks.Config.Keys.{
  default_cgroup_path, key_socks_host, key_socks_port, key_bridge_listen_address, key_bridge_port,
  key_pinned_object_dir, key_cgroup_path, key_enable_ipv6, key_enable_dns_hijack, key_debug_stats,
  key_token_ipv4_prefix, key_token_ipv6_prefix, key_worker_count, key_tcp_buffer_size,
  key_max_tcp_sessions, key_connect_timeout_milliseconds, key_tcp_idle_timeout_milliseconds,
  key_udp_socket_buffer_size, key_udp_batch_size, key_max_udp_sessions, key_max_udp_bindings,
  key_udp_idle_timeout_milliseconds, key_max_udp_pending_bytes,
  key_dns_transaction_timeout_milliseconds, key_policy, key_mode, key_bypass_direct_cidrs,
  key_direct_cidr_path_v4, key_direct_cidr_path_v6, key_uids, key_bypass_uids,
  key_hotspot_interfaces, key_ignored_interfaces, key_proxy_private_cidrs_v4,
  key_bypass_private_cidrs_v4, key_proxy_private_cidrs_v6, key_bypass_private_cidrs_v6,
}

-- What the file sets of `struct bpf2socks_runtime_config`.
pub record Runtime : Type 0 where
  pub socks_host : List ℕ
  pub socks_port : ℕ
  pub listen_host : List ℕ
  pub listen_port : ℕ
  pub pinned_object_dir : List ℕ
  pub cgroup_path : List ℕ
  pub enable_ipv6 : Bool
  pub enable_dns_hijack : Bool
  pub debug_stats : Bool
  pub token_ipv4_prefix : List ℕ × ℕ
  pub token_ipv6_prefix : List ℕ × ℕ
  pub tcp_buffer_size : ℕ
  pub tunables : Tunables

-- What the file sets of `struct bpf2socks_policy_config`.
pub record Policy : Type 0 where
  pub mode : ℕ
  pub bypass_direct_cidrs : Bool
  pub enable_ipv6 : Bool
  pub enable_dns_hijack : Bool
  pub enable_dns_enhancement : Bool
  pub direct_cidr_path_v4 : List ℕ
  pub direct_cidr_path_v6 : List ℕ
  pub uids : List ℕ
  pub bypass_uids : List ℕ
  pub hotspot_interface_count : ℕ
  pub ignored_interfaces : List (List ℕ)
  pub proxy_private_cidrs_v4 : List (List ℕ)
  pub bypass_private_cidrs_v4 : List (List ℕ)
  pub proxy_private_cidrs_v6 : List (List ℕ)
  pub bypass_private_cidrs_v6 : List (List ℕ)

-- A value with whether it was read: a field that is not accepted keeps the value that it had.
abbrev pub checked : {A : Type 0} → A → Option A → A × Bool
checked old none = (old, false)
checked old (some v) = (v, true)

abbrev pub read_uint_field : List ℕ → List ℕ → ℕ → ℕ → ℕ × Bool
read_uint_field json key max_value value = checked value (uint_field json key max_value value)

abbrev pub read_string_field : List ℕ → List ℕ → Bool → ℕ → List ℕ → List ℕ × Bool
read_string_field json key required out_size old =
    if not required && not (has_key json key)
    then (old, true)
    else checked old (json_string json key out_size)

abbrev pub read_uints : List ℕ → List ℕ → List ℕ × Bool
read_uints json key = checked [] (uint_array json key 8192)

abbrev pub read_rows : List ℕ → List ℕ → ℕ → ℕ → List (List ℕ) × Bool
read_rows json key row_size max_count = checked [] (string_array json key row_size max_count)

-- A token prefix is parsed where its key is there.
abbrev pub read_prefix :
    (List ℕ → Option (List ℕ × ℕ)) → Bool → List ℕ → List ℕ × ℕ → (List ℕ × ℕ) × Bool
read_prefix parse present text old = if present then checked old (parse text) else (old, true)

pub selectors_valid : List (List ℕ) → Bool
selectors_valid [] = true
selectors_valid (s ∷ ss) = selector_valid s && selectors_valid ss

abbrev pub policy_text : List ℕ → Option (List ℕ) → List ℕ
policy_text json none = json
policy_text json (some object) = object

abbrev pub or_default_path : List ℕ → List ℕ
or_default_path [] = default_cgroup_path
or_default_path (c ∷ cs) = c ∷ cs

abbrev pub accepted : {A : Type 0} → Bool → A → Option A
accepted true a = some a
accepted false a = none

abbrev pub uint32_max : ℕ
uint32_max = 2 ^ 32 - 1

-- The tunables as the file gives them, and whether their fields were accepted.
pub read_tunables : List ℕ → Tunables × Bool
read_tunables json =
    let r0 = read_uint_field json key_worker_count uint32_max default_tunables.worker_count in
    let r1 =
      read_uint_field json key_max_tcp_sessions uint32_max default_tunables.max_tcp_sessions in
    let r2 =
      read_uint_field json key_connect_timeout_milliseconds uint32_max
        default_tunables.connect_timeout_milliseconds in
    let r3 =
      read_uint_field json key_tcp_idle_timeout_milliseconds uint32_max
        default_tunables.tcp_idle_timeout_milliseconds in
    let r4 =
      read_uint_field json key_udp_socket_buffer_size uint32_max
        default_tunables.udp_socket_buffer_size in
    let r5 = read_uint_field json key_udp_batch_size uint32_max default_tunables.udp_batch_size in
    let r6 =
      read_uint_field json key_max_udp_sessions uint32_max default_tunables.max_udp_sessions in
    let r7 =
      read_uint_field json key_max_udp_bindings uint32_max default_tunables.max_udp_bindings in
    let r8 =
      read_uint_field json key_udp_idle_timeout_milliseconds uint32_max
        default_tunables.udp_idle_timeout_milliseconds in
    let r9 =
      read_uint_field json key_max_udp_pending_bytes uint32_max
        default_tunables.max_udp_pending_bytes in
    let r10 =
      read_uint_field json key_dns_transaction_timeout_milliseconds uint32_max
        default_tunables.dns_transaction_timeout_milliseconds in
    (
      record {
        worker_count = r0.0;
        max_tcp_sessions = r1.0;
        connect_timeout_milliseconds = r2.0;
        tcp_idle_timeout_milliseconds = r3.0;
        udp_socket_buffer_size = r4.0;
        udp_batch_size = r5.0;
        max_udp_sessions = r6.0;
        max_udp_bindings = r7.0;
        udp_idle_timeout_milliseconds = r8.0;
        max_udp_pending_bytes = r9.0;
        dns_transaction_timeout_milliseconds = r10.0;
      },
      r0.1
          && (r1.1
              && (r2.1
                  && (r3.1
                      && (r4.1 && (r5.1 && (r6.1 && (r7.1 && (r8.1 && (r9.1 && (r10.1)))))))))),
    )

-- The policy part, and whether its fields were accepted.
pub load_policy : List ℕ → Bool → Runtime → Policy × Bool
unfolding selectors_valid
load_policy json dns_enhancement config =
    let policy_json = policy_text json (json_object json key_policy) in
    let mode = read_uint_field policy_json key_mode 2 2 in
    let path4 = read_string_field policy_json key_direct_cidr_path_v4 false 512 [] in
    let path6 = read_string_field policy_json key_direct_cidr_path_v6 false 512 [] in
    let uids = read_uints policy_json key_uids in
    let bypass_uids = read_uints policy_json key_bypass_uids in
    let hotspot = read_rows json key_hotspot_interfaces 32 64 in
    let ignored = read_rows json key_ignored_interfaces 32 64 in
    let proxy4 = read_rows json key_proxy_private_cidrs_v4 64 512 in
    let bypass4 = read_rows json key_bypass_private_cidrs_v4 64 512 in
    let proxy6 = read_rows json key_proxy_private_cidrs_v6 64 512 in
    let bypass6 = read_rows json key_bypass_private_cidrs_v6 64 512 in
    (
      record {
        mode = mode.0;
        bypass_direct_cidrs = json_bool policy_json key_bypass_direct_cidrs false;
        enable_ipv6 = config.enable_ipv6;
        enable_dns_hijack = config.enable_dns_hijack;
        enable_dns_enhancement = dns_enhancement;
        direct_cidr_path_v4 = path4.0;
        direct_cidr_path_v6 = path6.0;
        uids = uids.0;
        bypass_uids = bypass_uids.0;
        hotspot_interface_count = length hotspot.0;
        ignored_interfaces = ignored.0;
        proxy_private_cidrs_v4 = proxy4.0;
        bypass_private_cidrs_v4 = bypass4.0;
        proxy_private_cidrs_v6 = proxy6.0;
        bypass_private_cidrs_v6 = bypass6.0;
      },
      not (dns_enhancement && not config.enable_dns_hijack)
          && (selectors_valid ignored.0
              && (selectors_valid hotspot.0
                  && (mode.1
                      && (path4.1
                          && (path6.1
                              && (uids.1
                                  && (bypass_uids.1
                                      && (hotspot.1
                                          && (ignored.1
                                              && (proxy4.1
                                                  && (bypass4.1
                                                      && (proxy6.1 && bypass6.1)))))))))))),
    )

module _ (libc : Libc) (cpus : Option ℕ) (env_debug_stats : Bool)
    (default_prefix4 default_prefix6 : List ℕ × ℕ) where
  -- The runtime part, and whether its fields were accepted.
  pub load_runtime : List ℕ → Runtime × Bool
  load_runtime json =
      let socks_host = read_string_field json key_socks_host true 128 [] in
      let socks_port = read_uint_field json key_socks_port 65535 0 in
      let listen_host = read_string_field json key_bridge_listen_address true 64 [] in
      let listen_port = read_uint_field json key_bridge_port 65535 0 in
      let object_dir = read_string_field json key_pinned_object_dir true 512 [] in
      let cgroup_path = read_string_field json key_cgroup_path false 512 default_cgroup_path in
      let text4 = read_string_field json key_token_ipv4_prefix false 20 [] in
      let prefix4 =
        read_prefix (parse4 libc) (has_key json key_token_ipv4_prefix) text4.0 default_prefix4 in
      let text6 = read_string_field json key_token_ipv6_prefix false 128 [] in
      let prefix6 =
        read_prefix (parse6 libc) (has_key json key_token_ipv6_prefix) text6.0 default_prefix6 in
      let buffer = read_uint_field json key_tcp_buffer_size uint32_max 0 in
      let tunables = read_tunables json in
      (
        record {
          socks_host = socks_host.0;
          socks_port = socks_port.0;
          listen_host = listen_host.0;
          listen_port = listen_port.0;
          pinned_object_dir = object_dir.0;
          cgroup_path = or_default_path cgroup_path.0;
          enable_ipv6 = json_bool json key_enable_ipv6 false;
          enable_dns_hijack = json_bool json key_enable_dns_hijack false;
          debug_stats = json_bool json key_debug_stats false || env_debug_stats;
          token_ipv4_prefix = prefix4.0;
          token_ipv6_prefix = prefix6.0;
          tcp_buffer_size = buffer.0;
          tunables = normalize_runtime_tunables cpus tunables.0;
        },
        socks_host.1
            && (socks_port.1
                && (listen_host.1
                    && (listen_port.1
                        && (object_dir.1
                            && (cgroup_path.1
                                && (text4.1
                                    && (prefix4.1
                                        && (text6.1
                                            && (prefix6.1 && (buffer.1 && tunables.1)))))))))),
      )

  pub config_load : List ℕ → Bool → Option (Runtime × Policy)
  unfolding load_runtime load_policy
  config_load json dns_enhancement =
      let runtime = load_runtime json in
      let policy = load_policy json dns_enhancement runtime.0 in
      accepted
        (policy.1
          && (runtime.1 && (not (runtime.0.socks_port == 0) && not (runtime.0.listen_port == 0))))
        (runtime.0, policy.0)
