-- ===== src/Checksum.antt =====
-- The checksums and the raw reply packets of bridge/udp_downlink.c: `checksum_add_bytes` and
-- `checksum_fold`, the two UDP checksums, and the packets of `raw_send4` and `raw_send6`. Packets are
-- byte lists; addresses are their bytes in network order.
pub mod Fold
pub mod Receiver
pub mod Verify
mod Tests
use bpf2socks.Prelude.{
  ℕ, zero, suc, ◌+◌, ◌-◌, ◌*◌, ◌/◌, ◌%◌, ◌^◌, ◌==◌, Bool, true, false, ◌&&◌, ◌||◌, not, List, [],
  ◌∷◌, ◌++◌, if◌then◌else◌, ltb, length, take, replicate, Result, ok, err, eafnosupport, emsgsize,
}
use bpf2socks.Bindings.{Sockaddr, af_inet, af_inet6}
use bpf2socks.Udp.{Address}
use bpf2socks.Udp.Client.{family_of, port_bytes, addr4_bytes, addr6_bytes}

-- `bpf2socks_udp_checksum_add_bytes`, on a `uint32_t`.
unfoldable pub add_bytes : ℕ → List ℕ → ℕ
add_bytes sum [] = sum
add_bytes sum (a ∷ []) = (sum + a * 256) % 2 ^ 32
add_bytes sum (a ∷ b ∷ rest) = add_bytes ((sum + (a * 256 + b)) % 2 ^ 32) rest

-- The loop of `bpf2socks_udp_checksum_fold`.
unfoldable pub fold_loop : ℕ → ℕ → ℕ
fold_loop zero sum = sum
fold_loop (suc fuel) sum =
    if sum / 65536 == 0 then sum else fold_loop fuel (sum % 65536 + sum / 65536)

-- `(uint16_t)~sum` of what the loop leaves.
unfoldable pub fold : ℕ → ℕ
fold sum = (2 ^ 32 - 1 - fold_loop 2 sum) % 65536

-- `htons`, and `htonl`, in memory.
abbrev pub be16 : ℕ → List ℕ
be16 n = n / 256 % 256 ∷ n % 256 ∷ []

abbrev pub be32 : ℕ → List ℕ
be32 n = n / 16777216 % 256 ∷ n / 65536 % 256 ∷ n / 256 % 256 ∷ n % 256 ∷ []

abbrev pub nonzero : ℕ → ℕ
nonzero result = if result == 0 then 65535 else result

-- struct bpf2socks_udp_header.
abbrev pub udp_header : ℕ → List ℕ → ℕ → ℕ → List ℕ
udp_header source dest len check = be16 source ++ dest ++ be16 len ++ be16 check

abbrev pub pseudo4 : List ℕ → List ℕ → ℕ → List ℕ
pseudo4 source_addr destination_addr len = source_addr ++ destination_addr ++ 0 ∷ 17 ∷ be16 len

abbrev pub pseudo6 : List ℕ → List ℕ → ℕ → List ℕ
pseudo6 source_addr destination_addr len =
    source_addr ++ destination_addr ++ be32 len ++ 0 ∷ 0 ∷ 0 ∷ 17 ∷ []

-- `udp_ipv4_checksum` and `udp_ipv6_checksum`, of a pseudo header and a UDP header.
unfoldable pub udp_checksum : List ℕ → List ℕ → List ℕ → ℕ
udp_checksum pseudo udp payload =
    nonzero (fold (add_bytes (add_bytes (add_bytes 0 pseudo) udp) payload))

-- The IPv4 header, with its checksum.
abbrev pub ip_header : ℕ → ℕ → List ℕ → List ℕ → ℕ → List ℕ
ip_header tot_len id saddr daddr check =
    69 ∷ 0 ∷ be16 tot_len ++ be16 id ++ 0 ∷ 0 ∷ 64 ∷ 17 ∷ be16 check ++ saddr ++ daddr

unfoldable pub ip_checksum : ℕ → ℕ → List ℕ → List ℕ → ℕ
ip_checksum tot_len id saddr daddr = fold (add_bytes 0 (ip_header tot_len id saddr daddr 0))

abbrev pub ip6_header : ℕ → List ℕ → List ℕ → List ℕ
ip6_header payload_len saddr daddr = 96 ∷ 0 ∷ 0 ∷ 0 ∷ be16 payload_len ++ 17 ∷ 64 ∷ saddr ++ daddr

-- BPF2SOCKS_UDP_BUFFER_SIZE.
abbrev pub buffer_size : ℕ
buffer_size = 65535

-- The packet of `bpf2socks_udp_raw_send4` at the time `now` in seconds, or its errno.
pub raw_packet4 : ℕ → Address → Sockaddr → List ℕ → Result (List ℕ)
raw_packet4 now client original payload =
    let udp_len = 8 + length payload in
    let ip_len = 20 + udp_len in
    let saddr = take 4 original.addr in
    let daddr = addr4_bytes client in
    let check =
      udp_checksum (pseudo4 saddr daddr udp_len)
        (udp_header original.port (port_bytes client) udp_len 0) payload in
    if not (family_of client == af_inet) || not (original.family == af_inet)
    then err eafnosupport
    else (if ltb 65535 ip_len || ltb buffer_size (length payload)
        then err emsgsize
        else ok (
            ip_header ip_len (now % 65536) saddr daddr
              (ip_checksum ip_len (now % 65536) saddr daddr)
            ++ udp_header original.port (port_bytes client) udp_len check
            ++ payload))

-- The packet of `bpf2socks_udp_raw_send6`, or its errno.
pub raw_packet6 : Address → Sockaddr → List ℕ → Result (List ℕ)
raw_packet6 client original payload =
    let udp_len = 8 + length payload in
    let saddr = take 16 original.addr in
    let daddr = addr6_bytes client in
    let check =
      udp_checksum (pseudo6 saddr daddr udp_len)
        (udp_header original.port (port_bytes client) udp_len 0) payload in
    if not (family_of client == af_inet6) || not (original.family == af_inet6)
    then err eafnosupport
    else (if ltb 65535 udp_len || ltb buffer_size (length payload)
        then err emsgsize
        else ok (
            ip6_header udp_len saddr daddr
            ++ udp_header original.port (port_bytes client) udp_len check
            ++ payload))
