-- ===== src/Udp/Client.antt =====
-- The socket addresses of clients: `same_sockaddr` and `sockaddr_hash` of bridge/udp_session.c, the
-- hash of core/util.c, and `bpf2socks_sockaddr_is_loopback` of core/socket_util.c. In the memory of
-- an address the family takes the bytes 0 and 1, the port 2 and 3; the IPv4 address begins at 4 and
-- the IPv6 address at 8.
use bpf2socks.Prelude.{
  ℕ, ◌+◌, ◌*◌, ◌%◌, ◌^◌, ◌==◌, Bool, true, false, ◌&&◌, ◌||◌, not, List, [], ◌∷◌, ◌++◌,
  if◌then◌else◌, bit_xor, take, drop, get_or, bytes_equal, bytes_equal_iff, replicate, ◌≡◌, arith,
  Bool-cases, inl, inr,
}
use bpf2socks.Bindings.{memory, af_inet, af_inet6}
use bpf2socks.Udp.{Address}

-- `bpf2socks_hash_bytes` of core/util.c.
unfoldable pub hash_from : ℕ → List ℕ → ℕ
hash_from hash [] = hash
hash_from hash (b ∷ bs) = hash_from (bit_xor hash b * 16777619 % 2 ^ 32) bs

abbrev pub hash_bytes : List ℕ → ℕ
hash_bytes bytes = hash_from 2166136261 bytes

abbrev pub family_of : Address → ℕ
family_of a = get_or a.bytes 0 0 + 256 * get_or a.bytes 1 0

abbrev pub port_bytes : Address → List ℕ
port_bytes a = take 2 (drop 2 a.bytes)

abbrev pub addr4_bytes : Address → List ℕ
addr4_bytes a = take 4 (drop 4 a.bytes)

abbrev pub addr6_bytes : Address → List ℕ
addr6_bytes a = take 16 (drop 8 a.bytes)

pub same_sockaddr : Address → Address → Bool
same_sockaddr a b =
    if not (family_of a == family_of b) || not (a.length == b.length)
    then false
    else (if family_of a == af_inet
        then bytes_equal (port_bytes a) (port_bytes b)
          && bytes_equal (addr4_bytes a) (addr4_bytes b)
        else bytes_equal (take a.length a.bytes) (take a.length b.bytes))

pub sockaddr_hash : Address → ℕ
sockaddr_hash a =
    if family_of a == af_inet
    then hash_bytes (memory 2 af_inet ++ port_bytes a ++ addr4_bytes a)
    else hash_bytes (take a.length a.bytes)

-- `session_bucket`, of BPF2SOCKS_SESSION_HASH_BUCKETS.
abbrev pub session_bucket : Address → ℕ
session_bucket a = sockaddr_hash a % 4096

-- `bpf2socks_udp_sockaddr_port` of bridge/udp_associate.c: the IPv6 port stands at the same place.
abbrev pub port_of : Address → ℕ
port_of a = get_or a.bytes 2 0 * 256 + get_or a.bytes 3 0

abbrev pub loopback6 : List ℕ
loopback6 = replicate 15 0 ++ 1 ∷ []

pub is_loopback : Address → Bool
is_loopback a =
    if family_of a == af_inet
    then get_or a.bytes 4 0 == 127
    else (if family_of a == af_inet6
        then bytes_equal (addr6_bytes a) loopback6
          || (bytes_equal (take 12 (addr6_bytes a)) (replicate 10 0 ++ 255 ∷ 255 ∷ [])
              && get_or (addr6_bytes a) 12 0 == 127)
        else false)

-- Equal addresses fall into the same bucket, so the lookup may walk one chain.
pub session_bucket-same_sockaddr :
    (a b : Address) → same_sockaddr a b ≡ true → session_bucket a ≡ session_bucket b
unfolding same_sockaddr sockaddr_hash
session_bucket-same_sockaddr a b h = elim (Bool-cases (family_of a == af_inet)) [
  | inl inet ↦ ground (
    arith,
    inet,
    bytes_equal_iff (port_bytes a) (port_bytes b),
    bytes_equal_iff (addr4_bytes a) (addr4_bytes b),
  )
  | inr other ↦
      ground (arith, other, bytes_equal_iff (take a.length a.bytes) (take a.length b.bytes))
]
