-- ===== src/Config/Load/Accepted.antt =====
-- What a configuration that `bpf2socks_config_load` accepts is sure to satisfy.
use bpf2socks.Prelude.{
  ℕ, ◌≤◌, ◌<◌, ◌≡◌, refl, arith, Bool, true, false, ◌&&◌, not, Option, none, some, List, [], All,
  length, ◌==◌,
}
use bpf2socks.Json.{json_object, string_array}
use bpf2socks.Selector.Valid.{IsSelector}
use bpf2socks.Json.Arrays.{string_array-Fits}
use bpf2socks.Token.Text.{Libc}
use bpf2socks.Config.Ranges.{InRange, normalize_runtime_tunables-InRange}
use bpf2socks.Config.Keys.{
  key_socks_port, key_bridge_port, key_ignored_interfaces, key_proxy_private_cidrs_v4, key_mode,
  key_policy, default_cgroup_path, key_socks_host, key_bridge_listen_address, key_pinned_object_dir,
  key_cgroup_path, key_direct_cidr_path_v4, key_direct_cidr_path_v6, key_uids, key_bypass_uids,
  key_hotspot_interfaces, key_bypass_private_cidrs_v4, key_proxy_private_cidrs_v6,
  key_bypass_private_cidrs_v6,
}
use bpf2socks.Config.Load.{
  Runtime, Policy, read_uint_field, read_rows, selectors_valid, accepted, load_runtime, load_policy,
  config_load, read_tunables, policy_text, read_string_field, read_uints,
}
use bpf2socks.Config.Load.Fields.{
  RowsFit, read_uint_field-le, read_rows-RowsFit, read_string_field-fits, or_default_path-fits,
  read_uints-fit, selectors_valid-All, hotspots_of, both,
}

-- An accepted configuration of the file `json`. The selectors of `hotspotInterfaces` are checked and
-- counted, but not kept.
pub record Accepted (json : List ℕ) (runtime : Runtime) (policy : Policy) (dns_enhancement : Bool)
    : Type 0 where
  pub tunables : InRange runtime.tunables
  pub socks_port : 1 ≤ runtime.socks_port × runtime.socks_port ≤ 65535
  pub listen_port : 1 ≤ runtime.listen_port × runtime.listen_port ≤ 65535
  pub mode : policy.mode ≤ 2
  pub dns : dns_enhancement ≡ true → runtime.enable_dns_hijack ≡ true
  pub selectors : All IsSelector policy.ignored_interfaces
  pub hotspots :
      (rows : List (List ℕ)) × (string_array json key_hotspot_interfaces 32 64 ≡ some rows)
      × (policy.hotspot_interface_count ≡ length rows)
      × (length rows ≤ 64)
      × All IsSelector rows
  pub interfaces : RowsFit 32 64 policy.ignored_interfaces
  pub proxy4 : RowsFit 64 512 policy.proxy_private_cidrs_v4
  pub bypass4 : RowsFit 64 512 policy.bypass_private_cidrs_v4
  pub proxy6 : RowsFit 64 512 policy.proxy_private_cidrs_v6
  pub bypass6 : RowsFit 64 512 policy.bypass_private_cidrs_v6
  pub uids : length policy.uids ≤ 8192
  pub bypass_uids : length policy.bypass_uids ≤ 8192
  pub socks_host : length runtime.socks_host < 128
  pub listen_host : length runtime.listen_host < 64
  pub pinned_object_dir : length runtime.pinned_object_dir < 512
  pub cgroup_path : length runtime.cgroup_path < 512
  pub direct_cidr_path_v4 : length policy.direct_cidr_path_v4 < 512
  pub direct_cidr_path_v6 : length policy.direct_cidr_path_v6 < 512

-- Nothing is claimed of a rejected file.
abbrev pub IfAccepted : List ℕ → Bool → Option (Runtime × Policy) → Type 0
IfAccepted json dns_enhancement none = Unit
IfAccepted json dns_enhancement (some (runtime, policy)) =
    Accepted json runtime policy dns_enhancement

accepted-IfAccepted :
    (json : List ℕ) (ok dns_enhancement : Bool) (runtime : Runtime) (policy : Policy)
    → (ok ≡ true → Accepted json runtime policy dns_enhancement)
    → IfAccepted json dns_enhancement (accepted ok (runtime, policy))
accepted-IfAccepted json true dns_enhancement runtime policy h = h refl
accepted-IfAccepted json false dns_enhancement runtime policy h = tt

nonzero : (a b : ℕ) → not (a == 0) && not (b == 0) ≡ true → (1 ≤ a) × (1 ≤ b)
nonzero a b h = ground arith

-- The sixth of the tests behind the selectors.
hotspot_read :
    (a b c d e f : Bool) (rest : Bool)
    → a && (b && (c && (d && (e && (f && rest))))) ≡ true
    → f ≡ true
hotspot_read a b c d e f rest h =
    (both f rest (both e _ (both d _ (both c _ (both b _ (both a _ h).1).1).1).1).1).0

requires : (a b : Bool) → not (a && not b) ≡ true → a ≡ true → b ≡ true
requires true true h e = refl
requires true false h e = cc
requires false b h e = cc

module _ (libc : Libc) (cpus : Option ℕ) (env_debug_stats : Bool)
    (default_prefix4 default_prefix6 : List ℕ × ℕ) where
  -- A configuration that is accepted has tunables in their ranges, ports from 1 to 65535, a known
  -- mode, and DNS enhancement only with DNS interception. The selectors of both lists of interfaces
  -- are names of at most 15 bytes, or the beginning of one and a plus sign. The hosts, the
  -- directory of objects, the cgroup path, the paths of direct CIDRs, the texts of interfaces and of
  -- CIDRs, and the lists of user ids fit their memory.
  pub config_load-IfAccepted :
      (json : List ℕ) (dns_enhancement : Bool)
      → IfAccepted json dns_enhancement (
          config_load libc cpus env_debug_stats default_prefix4 default_prefix6 json
            dns_enhancement)
  unfolding config_load load_runtime load_policy
  config_load-IfAccepted json dns_enhancement =
      let runtime = load_runtime libc cpus env_debug_stats default_prefix4 default_prefix6 json in
      let policy = load_policy json dns_enhancement runtime.0 in
      let policy_json = policy_text json (json_object json key_policy) in
      accepted-IfAccepted json
        (policy.1
          && (runtime.1 && (not (runtime.0.socks_port == 0) && not (runtime.0.listen_port == 0))))
        dns_enhancement runtime.0 policy.0
        (λ ok.
          let (policy_ok, runtime_ok) = both policy.1 _ ok in
          let (dns_ok, others) =
            both (not (dns_enhancement && not runtime.0.enable_dns_hijack)) _ policy_ok in
          let (selectors_ok, more) = both (selectors_valid policy.0.ignored_interfaces) _ others in
          let hotspot = read_rows json key_hotspot_interfaces 32 64 in
          let (hotspots_ok, read) = both (selectors_valid hotspot.0) _ more in
          let (fields, ports) = both runtime.1 _ runtime_ok in
          let (socks, listen) = nonzero runtime.0.socks_port runtime.0.listen_port ports in
          record {
            tunables = normalize_runtime_tunables-InRange cpus (read_tunables json).0;
            socks_port = (socks, read_uint_field-le json key_socks_port 65535 0 (omega arith));
            listen_port = (listen, read_uint_field-le json key_bridge_port 65535 0 (omega arith));
            mode = read_uint_field-le policy_json key_mode 2 2 (omega arith);
            dns = requires dns_enhancement runtime.0.enable_dns_hijack dns_ok;
            selectors = selectors_valid-All policy.0.ignored_interfaces selectors_ok;
            hotspots =
                hotspots_of (string_array json key_hotspot_interfaces 32 64)
                  (string_array-Fits json key_hotspot_interfaces 32 64)
                  (hotspot_read (read_uint_field policy_json key_mode 2 2).1
                    (read_string_field policy_json key_direct_cidr_path_v4 false 512 []).1
                    (read_string_field policy_json key_direct_cidr_path_v6 false 512 []).1
                    (read_uints policy_json key_uids).1 (read_uints policy_json key_bypass_uids).1
                    hotspot.1 _ read)
                  hotspots_ok;
            interfaces = read_rows-RowsFit json key_ignored_interfaces 32 64;
            proxy4 = read_rows-RowsFit json key_proxy_private_cidrs_v4 64 512;
            bypass4 = read_rows-RowsFit json key_bypass_private_cidrs_v4 64 512;
            proxy6 = read_rows-RowsFit json key_proxy_private_cidrs_v6 64 512;
            bypass6 = read_rows-RowsFit json key_bypass_private_cidrs_v6 64 512;
            uids = read_uints-fit policy_json key_uids;
            bypass_uids = read_uints-fit policy_json key_bypass_uids;
            socks_host = read_string_field-fits json key_socks_host true 128 [] (omega arith);
            listen_host =
                read_string_field-fits json key_bridge_listen_address true 64 [] (omega arith);
            pinned_object_dir =
                read_string_field-fits json key_pinned_object_dir true 512 [] (omega arith);
            cgroup_path = or_default_path-fits _ (
                read_string_field-fits json key_cgroup_path false 512 default_cgroup_path
                  (omega arith));
            direct_cidr_path_v4 =
                read_string_field-fits policy_json key_direct_cidr_path_v4 false 512 []
                  (omega arith);
            direct_cidr_path_v6 =
                read_string_field-fits policy_json key_direct_cidr_path_v6 false 512 []
                  (omega arith);
          })
