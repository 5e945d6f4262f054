-- ===== src/Config/Keys.antt =====
-- The keys of the configuration file that core/config.c reads.
use bpf2socks.Prelude.{ℕ, List, [], ◌∷◌}

-- "/sys/fs/cgroup".
abbrev pub default_cgroup_path : List ℕ
default_cgroup_path =
    b'/' ∷ b's' ∷ b'y' ∷ b's' ∷ b'/' ∷ b'f' ∷ b's' ∷ b'/' ∷ b'c' ∷ b'g' ∷ b'r' ∷ b'o' ∷ b'u' ∷ b'p'
    ∷ []

abbrev pub key_socks_host : List ℕ
key_socks_host = b's' ∷ b'o' ∷ b'c' ∷ b'k' ∷ b's' ∷ b'H' ∷ b'o' ∷ b's' ∷ b't' ∷ []

abbrev pub key_socks_port : List ℕ
key_socks_port = b's' ∷ b'o' ∷ b'c' ∷ b'k' ∷ b's' ∷ b'P' ∷ b'o' ∷ b'r' ∷ b't' ∷ []

abbrev pub key_bridge_listen_address : List ℕ
key_bridge_listen_address =
    b'b' ∷ b'r' ∷ b'i' ∷ b'd' ∷ b'g' ∷ b'e' ∷ b'L' ∷ b'i' ∷ b's' ∷ b't' ∷ b'e' ∷ b'n' ∷ b'A' ∷ b'd'
    ∷ b'd' ∷ b'r' ∷ b'e' ∷ b's' ∷ b's' ∷ []

abbrev pub key_bridge_port : List ℕ
key_bridge_port = b'b' ∷ b'r' ∷ b'i' ∷ b'd' ∷ b'g' ∷ b'e' ∷ b'P' ∷ b'o' ∷ b'r' ∷ b't' ∷ []

abbrev pub key_pinned_object_dir : List ℕ
key_pinned_object_dir =
    b'p' ∷ b'i' ∷ b'n' ∷ b'n' ∷ b'e' ∷ b'd' ∷ b'O' ∷ b'b' ∷ b'j' ∷ b'e' ∷ b'c' ∷ b't' ∷ b'D' ∷ b'i'
    ∷ b'r' ∷ []

abbrev pub key_cgroup_path : List ℕ
key_cgroup_path = b'c' ∷ b'g' ∷ b'r' ∷ b'o' ∷ b'u' ∷ b'p' ∷ b'P' ∷ b'a' ∷ b't' ∷ b'h' ∷ []

abbrev pub key_enable_ipv6 : List ℕ
key_enable_ipv6 = b'e' ∷ b'n' ∷ b'a' ∷ b'b' ∷ b'l' ∷ b'e' ∷ b'I' ∷ b'p' ∷ b'v' ∷ b'6' ∷ []

abbrev pub key_enable_dns_hijack : List ℕ
key_enable_dns_hijack =
    b'e' ∷ b'n' ∷ b'a' ∷ b'b' ∷ b'l' ∷ b'e' ∷ b'D' ∷ b'n' ∷ b's' ∷ b'H' ∷ b'i' ∷ b'j' ∷ b'a' ∷ b'c'
    ∷ b'k' ∷ []

abbrev pub key_debug_stats : List ℕ
key_debug_stats = b'd' ∷ b'e' ∷ b'b' ∷ b'u' ∷ b'g' ∷ b'S' ∷ b't' ∷ b'a' ∷ b't' ∷ b's' ∷ []

abbrev pub key_token_ipv4_prefix : List ℕ
key_token_ipv4_prefix =
    b't' ∷ b'o' ∷ b'k' ∷ b'e' ∷ b'n' ∷ b'I' ∷ b'p' ∷ b'v' ∷ b'4' ∷ b'P' ∷ b'r' ∷ b'e' ∷ b'f' ∷ b'i'
    ∷ b'x' ∷ []

abbrev pub key_token_ipv6_prefix : List ℕ
key_token_ipv6_prefix =
    b't' ∷ b'o' ∷ b'k' ∷ b'e' ∷ b'n' ∷ b'I' ∷ b'p' ∷ b'v' ∷ b'6' ∷ b'P' ∷ b'r' ∷ b'e' ∷ b'f' ∷ b'i'
    ∷ b'x' ∷ []

abbrev pub key_worker_count : List ℕ
key_worker_count = b'w' ∷ b'o' ∷ b'r' ∷ b'k' ∷ b'e' ∷ b'r' ∷ b'C' ∷ b'o' ∷ b'u' ∷ b'n' ∷ b't' ∷ []

abbrev pub key_tcp_buffer_size : List ℕ
key_tcp_buffer_size =
    b't' ∷ b'c' ∷ b'p' ∷ b'B' ∷ b'u' ∷ b'f' ∷ b'f' ∷ b'e' ∷ b'r' ∷ b'S' ∷ b'i' ∷ b'z' ∷ b'e' ∷ []

abbrev pub key_max_tcp_sessions : List ℕ
key_max_tcp_sessions =
    b'm' ∷ b'a' ∷ b'x' ∷ b'T' ∷ b'c' ∷ b'p' ∷ b'S' ∷ b'e' ∷ b's' ∷ b's' ∷ b'i' ∷ b'o' ∷ b'n' ∷ b's'
    ∷ []

abbrev pub key_connect_timeout_milliseconds : List ℕ
key_connect_timeout_milliseconds =
    b'c' ∷ b'o' ∷ b'n' ∷ b'n' ∷ b'e' ∷ b'c' ∷ b't' ∷ b'T' ∷ b'i' ∷ b'm' ∷ b'e' ∷ b'o' ∷ b'u' ∷ b't'
    ∷ b'M' ∷ b'i' ∷ b'l' ∷ b'l' ∷ b'i' ∷ b's' ∷ b'e' ∷ b'c' ∷ b'o' ∷ b'n' ∷ b'd' ∷ b's' ∷ []

abbrev pub key_tcp_idle_timeout_milliseconds : List ℕ
key_tcp_idle_timeout_milliseconds =
    b't' ∷ b'c' ∷ b'p' ∷ b'I' ∷ b'd' ∷ b'l' ∷ b'e' ∷ b'T' ∷ b'i' ∷ b'm' ∷ b'e' ∷ b'o' ∷ b'u' ∷ b't'
    ∷ b'M' ∷ b'i' ∷ b'l' ∷ b'l' ∷ b'i' ∷ b's' ∷ b'e' ∷ b'c' ∷ b'o' ∷ b'n' ∷ b'd' ∷ b's' ∷ []

abbrev pub key_udp_socket_buffer_size : List ℕ
key_udp_socket_buffer_size =
    b'u' ∷ b'd' ∷ b'p' ∷ b'S' ∷ b'o' ∷ b'c' ∷ b'k' ∷ b'e' ∷ b't' ∷ b'B' ∷ b'u' ∷ b'f' ∷ b'f' ∷ b'e'
    ∷ b'r' ∷ b'S' ∷ b'i' ∷ b'z' ∷ b'e' ∷ []

abbrev pub key_udp_batch_size : List ℕ
key_udp_batch_size =
    b'u' ∷ b'd' ∷ b'p' ∷ b'B' ∷ b'a' ∷ b't' ∷ b'c' ∷ b'h' ∷ b'S' ∷ b'i' ∷ b'z' ∷ b'e' ∷ []

abbrev pub key_max_udp_sessions : List ℕ
key_max_udp_sessions =
    b'm' ∷ b'a' ∷ b'x' ∷ b'U' ∷ b'd' ∷ b'p' ∷ b'S' ∷ b'e' ∷ b's' ∷ b's' ∷ b'i' ∷ b'o' ∷ b'n' ∷ b's'
    ∷ []

abbrev pub key_max_udp_bindings : List ℕ
key_max_udp_bindings =
    b'm' ∷ b'a' ∷ b'x' ∷ b'U' ∷ b'd' ∷ b'p' ∷ b'B' ∷ b'i' ∷ b'n' ∷ b'd' ∷ b'i' ∷ b'n' ∷ b'g' ∷ b's'
    ∷ []

abbrev pub key_udp_idle_timeout_milliseconds : List ℕ
key_udp_idle_timeout_milliseconds =
    b'u' ∷ b'd' ∷ b'p' ∷ b'I' ∷ b'd' ∷ b'l' ∷ b'e' ∷ b'T' ∷ b'i' ∷ b'm' ∷ b'e' ∷ b'o' ∷ b'u' ∷ b't'
    ∷ b'M' ∷ b'i' ∷ b'l' ∷ b'l' ∷ b'i' ∷ b's' ∷ b'e' ∷ b'c' ∷ b'o' ∷ b'n' ∷ b'd' ∷ b's' ∷ []

abbrev pub key_max_udp_pending_bytes : List ℕ
key_max_udp_pending_bytes =
    b'm' ∷ b'a' ∷ b'x' ∷ b'U' ∷ b'd' ∷ b'p' ∷ b'P' ∷ b'e' ∷ b'n' ∷ b'd' ∷ b'i' ∷ b'n' ∷ b'g' ∷ b'B'
    ∷ b'y' ∷ b't' ∷ b'e' ∷ b's' ∷ []

abbrev pub key_dns_transaction_timeout_milliseconds : List ℕ
key_dns_transaction_timeout_milliseconds =
    b'd' ∷ b'n' ∷ b's' ∷ b'T' ∷ b'r' ∷ b'a' ∷ b'n' ∷ b's' ∷ b'a' ∷ b'c' ∷ b't' ∷ b'i' ∷ b'o' ∷ b'n'
    ∷ b'T' ∷ b'i' ∷ b'm' ∷ b'e' ∷ b'o' ∷ b'u' ∷ b't' ∷ b'M' ∷ b'i' ∷ b'l' ∷ b'l' ∷ b'i' ∷ b's'
    ∷ b'e' ∷ b'c' ∷ b'o' ∷ b'n' ∷ b'd' ∷ b's' ∷ []

abbrev pub key_policy : List ℕ
key_policy = b'p' ∷ b'o' ∷ b'l' ∷ b'i' ∷ b'c' ∷ b'y' ∷ []

abbrev pub key_mode : List ℕ
key_mode = b'm' ∷ b'o' ∷ b'd' ∷ b'e' ∷ []

abbrev pub key_bypass_direct_cidrs : List ℕ
key_bypass_direct_cidrs =
    b'b' ∷ b'y' ∷ b'p' ∷ b'a' ∷ b's' ∷ b's' ∷ b'D' ∷ b'i' ∷ b'r' ∷ b'e' ∷ b'c' ∷ b't' ∷ b'C' ∷ b'i'
    ∷ b'd' ∷ b'r' ∷ b's' ∷ []

abbrev pub key_direct_cidr_path_v4 : List ℕ
key_direct_cidr_path_v4 =
    b'd' ∷ b'i' ∷ b'r' ∷ b'e' ∷ b'c' ∷ b't' ∷ b'C' ∷ b'i' ∷ b'd' ∷ b'r' ∷ b'P' ∷ b'a' ∷ b't' ∷ b'h'
    ∷ b'V' ∷ b'4' ∷ []

abbrev pub key_direct_cidr_path_v6 : List ℕ
key_direct_cidr_path_v6 =
    b'd' ∷ b'i' ∷ b'r' ∷ b'e' ∷ b'c' ∷ b't' ∷ b'C' ∷ b'i' ∷ b'd' ∷ b'r' ∷ b'P' ∷ b'a' ∷ b't' ∷ b'h'
    ∷ b'V' ∷ b'6' ∷ []

abbrev pub key_uids : List ℕ
key_uids = b'u' ∷ b'i' ∷ b'd' ∷ b's' ∷ []

abbrev pub key_bypass_uids : List ℕ
key_bypass_uids = b'b' ∷ b'y' ∷ b'p' ∷ b'a' ∷ b's' ∷ b's' ∷ b'U' ∷ b'i' ∷ b'd' ∷ b's' ∷ []

abbrev pub key_hotspot_interfaces : List ℕ
key_hotspot_interfaces =
    b'h' ∷ b'o' ∷ b't' ∷ b's' ∷ b'p' ∷ b'o' ∷ b't' ∷ b'I' ∷ b'n' ∷ b't' ∷ b'e' ∷ b'r' ∷ b'f' ∷ b'a'
    ∷ b'c' ∷ b'e' ∷ b's' ∷ []

abbrev pub key_ignored_interfaces : List ℕ
key_ignored_interfaces =
    b'i' ∷ b'g' ∷ b'n' ∷ b'o' ∷ b'r' ∷ b'e' ∷ b'd' ∷ b'I' ∷ b'n' ∷ b't' ∷ b'e' ∷ b'r' ∷ b'f' ∷ b'a'
    ∷ b'c' ∷ b'e' ∷ b's' ∷ []

abbrev pub key_proxy_private_cidrs_v4 : List ℕ
key_proxy_private_cidrs_v4 =
    b'p' ∷ b'r' ∷ b'o' ∷ b'x' ∷ b'y' ∷ b'P' ∷ b'r' ∷ b'i' ∷ b'v' ∷ b'a' ∷ b't' ∷ b'e' ∷ b'C' ∷ b'i'
    ∷ b'd' ∷ b'r' ∷ b's' ∷ b'V' ∷ b'4' ∷ []

abbrev pub key_bypass_private_cidrs_v4 : List ℕ
key_bypass_private_cidrs_v4 =
    b'b' ∷ b'y' ∷ b'p' ∷ b'a' ∷ b's' ∷ b's' ∷ b'P' ∷ b'r' ∷ b'i' ∷ b'v' ∷ b'a' ∷ b't' ∷ b'e' ∷ b'C'
    ∷ b'i' ∷ b'd' ∷ b'r' ∷ b's' ∷ b'V' ∷ b'4' ∷ []

abbrev pub key_proxy_private_cidrs_v6 : List ℕ
key_proxy_private_cidrs_v6 =
    b'p' ∷ b'r' ∷ b'o' ∷ b'x' ∷ b'y' ∷ b'P' ∷ b'r' ∷ b'i' ∷ b'v' ∷ b'a' ∷ b't' ∷ b'e' ∷ b'C' ∷ b'i'
    ∷ b'd' ∷ b'r' ∷ b's' ∷ b'V' ∷ b'6' ∷ []

abbrev pub key_bypass_private_cidrs_v6 : List ℕ
key_bypass_private_cidrs_v6 =
    b'b' ∷ b'y' ∷ b'p' ∷ b'a' ∷ b's' ∷ b's' ∷ b'P' ∷ b'r' ∷ b'i' ∷ b'v' ∷ b'a' ∷ b't' ∷ b'e' ∷ b'C'
    ∷ b'i' ∷ b'd' ∷ b'r' ∷ b's' ∷ b'V' ∷ b'6' ∷ []
