-- ===== src/Socks.antt =====
-- The SOCKS5 codec of bridge/socks5.c. A buffer is the list of its bytes, every read of it is
-- checked, and a builder returns the bytes it writes to the front of its output buffer, whose
-- capacity it is given.
pub mod Reply
pub mod Datagram
mod Tests
use bpf2socks.Prelude.{
  ℕ, zero, suc, ◌+◌, ◌-◌, ◌*◌, ◌/◌, ◌%◌, Bool, true, false, ◌&&◌, ◌||◌, not, Option, none, some,
  List, [], ◌∷◌, ◌++◌, ltb, leb, ◌==◌, if◌then◌else◌, Result, ok, err, enoent, length, get_elem?,
  take, drop, replicate, Errno, Result, ok, err, einval, eproto, eafnosupport, enobufs, emsgsize,
}
use bpf2socks.Prelude.Outcome.{
  Outcome, done, fail, out_of_bounds, out_of_fuel, ◌>>=◌, read, read_be16, slice,
}

pub data Family : Type 0 where
  inet inet6 unspec : Family

-- `struct bpf2socks_sockaddr`: the address field has 16 bytes.
pub record Sockaddr : Type 0 where
  pub family : Family
  pub port : ℕ
  pub addr : List ℕ

abbrev pub be16 : ℕ → List ℕ
be16 port = (port / 256 % 256) ∷ (port % 256) ∷ []

abbrev pub address_length : Family → ℕ
address_length inet = 4
address_length inet6 = 16
address_length unspec = 0

abbrev pub address_type : Family → ℕ
address_type inet = 1
address_type inet6 = 4
address_type unspec = 4

pub write_addr : ℕ → Sockaddr → Outcome (List ℕ)
write_addr out_cap a =
    let addr_len = address_length a.family in
    if addr_len == 0
    then fail eafnosupport
    else (if ltb out_cap (1 + addr_len + 2) then fail enobufs else (do
      bytes ← slice a.addr 0 addr_len
      done (address_type a.family ∷ (bytes ++ be16 a.port))))

-- What `bpf2socks_socks5_reply_length` answers: 0, SIZE_MAX, or the length.
pub data ReplyLength : Type 0 where
  more_needed malformed : ReplyLength
  total : ℕ → ReplyLength

unfoldable pub reply_length : List ℕ → ReplyLength
reply_length (v ∷ r ∷ rest) = if not (v == 5) || not (r == 0) then malformed else elim rest [
  | s ∷ t ∷ address ↦
      if t == 1
      then total (4 + 4 + 2)
      else (if t == 4
          then total (4 + 16 + 2)
          else (if t == 3
              then elim address [ [] ↦ more_needed | n ∷ more ↦ total (4 + 1 + n + 2) ]
              else malformed))
  | _ ↦ more_needed
]
reply_length _ = more_needed

-- `none` is the return value 0.
abbrev pub build_hello : ℕ → Option (List ℕ)
build_hello out_cap = if ltb out_cap 3 then none else some (5 ∷ 1 ∷ 0 ∷ [])

-- The return values 0, 1 and -1 of the parsers.
pub data Parsed {ℓ} (A : Type ℓ) : Type ℓ where
  parsed : A → Parsed A
  again refused : Parsed A

abbrev pub parse_hello_reply : List ℕ → Parsed (Unit {0})
parse_hello_reply (v ∷ r ∷ rest) = if not (v == 5) || not (r == 0) then refused else parsed tt
parse_hello_reply _ = again

abbrev pub any_addr : Sockaddr
any_addr = record { family = inet; port = 0; addr = replicate 16 0 }

-- A return value of 0 is `none`.
pub build_udp_associate_request : ℕ → Option (List ℕ)
unfolding write_addr
build_udp_associate_request out_cap =
    if ltb out_cap (4 + 16 + 2) then none else elim (write_addr (out_cap - 3) any_addr) [
      | done bytes ↦ some (5 ∷ 3 ∷ 0 ∷ bytes)
      | _ ↦ none
    ]

pub build_connect_request : ℕ → Sockaddr → Outcome (List ℕ)
unfolding write_addr
build_connect_request out_cap dst =
    if ltb out_cap 3
    then fail einval
    else (do bytes ← write_addr (out_cap - 3) dst; done (5 ∷ 1 ∷ 0 ∷ bytes))

-- The socket address that a reply names: the address and port bytes as they are copied, or the
-- result of `getaddrinfo`, which is a parameter.
pub data Bound : Type 0 where
  bound4 bound6 : List ℕ → List ℕ → Bound
  resolved : List ℕ → Bound

-- What is made of the answer of `getaddrinfo`, whose address must fit the 128 bytes of a
-- `sockaddr_storage`.
abbrev pub take_resolved : ℕ → Option (List ℕ) → Parsed (ℕ × Bound)
take_resolved consumed none = refused
take_resolved consumed (some sa) =
    if ltb 128 (length sa) then refused else parsed (consumed, resolved sa)

-- An address of `n` bytes and its port, as both families have them.
pub parse_fixed : List ℕ → ℕ → (List ℕ → List ℕ → Bound) → Outcome (Parsed (ℕ × Bound))
parse_fixed buf n make =
    if ltb (length buf) (4 + n + 2)
    then done again
    else (do a ← slice buf 4 n; p ← slice buf (4 + n) 2; done (parsed (4 + n + 2, make a p)))

module _ (getaddrinfo : List ℕ → ℕ → Option (List ℕ)) where
  -- The address of a domain reply.
  pub parse_domain : List ℕ → Outcome (Parsed (ℕ × Bound))
  parse_domain buf = if ltb (length buf) (4 + 1) then done again else (do
    n ← read (get_elem? buf 4)
    if n == 0
        then done refused
        else (if ltb (length buf) (4 + 1 + n + 2) then done again else (do
          host ← slice buf 5 n
          reply_port ← read_be16 buf (5 + n)
          done (take_resolved (4 + 1 + n + 2) (getaddrinfo host reply_port)))))

  -- The consumed length and the bound address.
  pub parse_bound_addr : List ℕ → Outcome (Parsed (ℕ × Bound))
  unfolding parse_domain parse_fixed
  parse_bound_addr buf = if ltb (length buf) 4 then done again else (do
    v ← read (get_elem? buf 0)
    r ← read (get_elem? buf 1)
    t ← read (get_elem? buf 3)
    if not (v == 5) || not (r == 0)
        then done refused
        else (if t == 1
            then parse_fixed buf 4 bound4
            else (if t == 4
                then parse_fixed buf 16 bound6
                else (if t == 3 then parse_domain buf else done refused))))

abbrev pub is_zero_bytes : List ℕ → Bool
is_zero_bytes [] = true
is_zero_bytes (b ∷ bs) = if b == 0 then is_zero_bytes bs else false

-- A relay that names the unspecified address gets the SOCKS server's, of the same family. The
-- socket addresses hold their family's bytes; the number is the length of the relay's.
pub replace_unspecified_relay : Sockaddr → Sockaddr → ℕ → Sockaddr × ℕ
replace_unspecified_relay socks relay relay_addr_len = elim relay.family [
  | inet ↦ elim socks.family [
    | inet ↦
        if is_zero_bytes relay.addr
        then (record relay { addr = socks.addr }, 16)
        else (relay, relay_addr_len)
    | _ ↦ (relay, relay_addr_len)
  ]
  | inet6 ↦ elim socks.family [
    | inet6 ↦
        if is_zero_bytes relay.addr
        then (record relay { addr = socks.addr }, 28)
        else (relay, relay_addr_len)
    | _ ↦ (relay, relay_addr_len)
  ]
  | unspec ↦ (relay, relay_addr_len)
]

-- One datagram of `bpf2socks_socks5_udp_sendmmsg`: the header, in its 22 bytes, and the payload.
pub record Message : Type 0 where
  pub addr : Sockaddr
  pub payload : List ℕ

abbrev pub with_header : Outcome (List ℕ) → List ℕ → Outcome (List ℕ)
with_header (done bytes) payload = done (0 ∷ 0 ∷ 0 ∷ (bytes ++ payload))
with_header (fail e) payload = fail eafnosupport
with_header out_of_bounds payload = out_of_bounds
with_header out_of_fuel payload = out_of_fuel

pub udp_datagram : Message → Outcome (List ℕ)
unfolding write_addr
udp_datagram m = with_header (write_addr (22 - 3) m.addr) m.payload

-- The batch that is handed to `sendmmsg`: an unsupported address fails it all.
pub udp_batch : List Message → Outcome (List (List ℕ))
unfolding udp_datagram
udp_batch [] = done []
udp_batch (m ∷ ms) = do d ← udp_datagram m; ds ← udp_batch ms; done (d ∷ ds)

-- The end of `parse_socks5_udp_datagram`: the port at `pos`, and the payload behind it.
pub parse_port : List ℕ → Family → List ℕ → ℕ → Outcome Message
parse_port packet family addr pos = do
  port ← read_be16 packet pos
  done (record {
    addr = record { family = family; port = port; addr = addr };
    payload = drop (pos + 2) packet;
  })

pub parse_domain_datagram : List ℕ → Outcome Message
unfolding parse_port
parse_domain_datagram packet = if ltb (length packet) (4 + 1) then fail eproto else (do
  n ← read (get_elem? packet 4)
  if ltb (length packet) (4 + 1 + n + 2)
      then fail eproto
      else parse_port packet unspec (replicate 16 0) (4 + (1 + n)))

-- An address of `n` bytes; the message was cleared.
pub parse_address_datagram : List ℕ → Family → ℕ → Outcome Message
unfolding parse_port
parse_address_datagram packet family n =
    if ltb (length packet) (3 + 1 + n + 2) then fail eproto else (do
      bytes ← slice packet 4 n
      parse_port packet family (bytes ++ replicate (16 - n) 0) (4 + n))

pub parse_socks5_udp_datagram : List ℕ → Outcome Message
unfolding parse_domain_datagram parse_address_datagram
parse_socks5_udp_datagram packet = if ltb (length packet) 4 then fail eproto else (do
  a ← read (get_elem? packet 0)
  b ← read (get_elem? packet 1)
  c ← read (get_elem? packet 2)
  t ← read (get_elem? packet 3)
  if not (a == 0) || (not (b == 0) || not (c == 0))
      then fail eproto
      else (if t == 1
          then parse_address_datagram packet inet 4
          else (if t == 4
              then parse_address_datagram packet inet6 16
              else (if t == 3 then parse_domain_datagram packet else fail eafnosupport))))

-- What `recvmmsg` delivers: the bytes in the slot, and the MSG_TRUNC flag.
pub record Received : Type 0 where
  pub bytes : List ℕ
  pub truncated : Bool

abbrev pub receive : ℕ → Received → Outcome Message
unfolding parse_socks5_udp_datagram
receive packet_stride r =
    if r.truncated || ltb packet_stride (length r.bytes)
    then fail emsgsize
    else parse_socks5_udp_datagram r.bytes

-- The result of `getaddrinfo` in `bpf2socks_socks5_resolve_server`, `none` for its failure: the first
-- address that fits the 128 bytes of a `sockaddr_storage`, and ENOENT if there is none.
pub first_fitting : List (List ℕ) → Result (List ℕ)
first_fitting [] = err enoent
first_fitting (sa ∷ rest) =
    let later = first_fitting rest in if ltb 128 (length sa) then later else ok sa

pub resolve_server : Option (List (List ℕ)) → Option (Result (List ℕ))
unfolding first_fitting
resolve_server none = none
resolve_server (some found) = some (first_fitting found)
