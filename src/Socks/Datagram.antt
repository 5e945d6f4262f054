-- ===== src/Socks/Datagram.antt =====
-- The UDP datagrams of the SOCKS5 relay: what is built is parsed back, and the parser stays in the
-- datagram.
use bpf2socks.Prelude.{
  ℕ, ◌+◌, ◌-◌, ◌*◌, ◌/◌, ◌%◌, ◌<◌, ◌≡◌, ◌≢◌, refl, ap, arith, false, some, List, [], ◌∷◌, ◌++◌, ltb,
  length, get_elem?, get_elem?_lt, take, drop, Bool-cases, inl, inr, replicate, map, All,
  length-append, length-take, take-append_length, drop-append_right, get_elem?-append_right,
  append_assoc, subst, ◌∙◌,
}
use bpf2socks.Prelude.Outcome.{done, Settled, slice, slice_le, read_be16_lt}
use bpf2socks.Socks.{
  Family, inet, inet6, unspec, Sockaddr, Message, write_addr, udp_datagram, with_header, udp_batch,
  parse_port, parse_domain_datagram, parse_address_datagram, parse_socks5_udp_datagram,
  address_length, address_type, be16,
}

-- An address that a datagram can carry.
pub record Sendable (a : Sockaddr) : Type 0 where
  pub supported : a.family ≢ unspec
  pub bytes : length a.addr ≡ 16
  pub port : a.port < 65536

-- The message as it arrives: the bytes behind the family's address are 0.
abbrev pub delivered : Message → Message
delivered m =
    let n = address_length m.addr.family in
    record {
      addr = record {
        family = m.addr.family;
        port = m.addr.port;
        addr = take n m.addr.addr ++ replicate (16 - n) 0;
      };
      payload = m.payload;
    }

be16_join : (port : ℕ) → port < 65536 → port / 256 % 256 * 256 + port % 256 ≡ port
be16_join port h = omega arith

parse_port_at :
    (front payload addr : List ℕ) (family : Family) (port pos : ℕ)
    → port < 65536
    → pos ≡ length front
    → parse_port (front ++ (be16 port ++ payload)) family addr pos
      ≡ done (record {
        addr = record { family = family; port = port; addr = addr };
        payload = payload;
      })
unfolding parse_port
parse_port_at front payload addr family port pos h e =
    let tail = be16 port ++ payload in
    let packet = front ++ tail in
    let e0 : pos ≡ length front + 0 = omega arith in
    let e1 : pos + 1 ≡ length front + 1 = omega arith in
    let e2 : pos + 2 ≡ length front + 2 = omega arith in
    let high : get_elem? packet pos ≡ some (port / 256 % 256) =
      rw e0 (get_elem?-append_right front tail 0) in
    let low : get_elem? packet (pos + 1) ≡ some (port % 256) =
      rw e1 (get_elem?-append_right front tail 1) in
    let rest : drop (pos + 2) packet ≡ payload = rw e2 (drop-append_right front tail 2) in
    rw (high, low, rest, be16_join port h)

-- An address of either family, as it is written, is read back.
parse_address_datagram_at :
    (a b c t port : ℕ) (bytes payload : List ℕ) (family : Family)
    → port < 65536
    → parse_address_datagram
        (a ∷ b ∷ c ∷ t ∷ (bytes ++ (be16 port ++ payload)))
        family
        (length bytes)
      ≡ done (record {
        addr = record {
          family = family;
          port = port;
          addr = bytes ++ replicate (16 - length bytes) 0;
        };
        payload = payload;
      })
unfolding parse_address_datagram
parse_address_datagram_at a b c t port bytes payload family h =
    let front = a ∷ b ∷ c ∷ t ∷ bytes in
    let packet = front ++ (be16 port ++ payload) in
    let n = length bytes in
    let len : length packet ≡ 4 + n + 2 + length payload =
      omega (arith, length-append bytes (be16 port ++ payload)) in
    let fits : ltb (length packet) (3 + 1 + n + 2) ≡ false = ground arith in
    let copied : slice packet 4 n ≡ done bytes =
      rw (slice_le packet 4 n (omega arith), take-append_length bytes (be16 port ++ payload)) in
    rw (fits, copied)
      (parse_port_at front payload (bytes ++ replicate (16 - n) 0) family port (4 + n) h
        (omega arith))

-- What a supported address is written as.
write_addr_at :
    (family : Family) (port : ℕ) (addr : List ℕ)
    → family ≢ unspec
    → length addr ≡ 16
    → write_addr 19 (record { family = family; port = port; addr = addr })
      ≡ done (address_type family ∷ (take (address_length family) addr ++ be16 port))
unfolding write_addr
write_addr_at inet port addr s e = rw (slice_le addr 0 4 (omega (arith, e)))
write_addr_at inet6 port addr s e = rw (slice_le addr 0 16 (omega (arith, e)))
write_addr_at unspec port addr s e = absurd (s refl)

parse_address_datagram_of :
    (a b c t port n : ℕ) (bytes payload : List ℕ) (family : Family)
    → port < 65536
    → length bytes ≡ n
    → parse_address_datagram (a ∷ b ∷ c ∷ t ∷ (bytes ++ (be16 port ++ payload))) family n
      ≡ done (record {
        addr = record { family = family; port = port; addr = bytes ++ replicate (16 - n) 0 };
        payload = payload;
      })
parse_address_datagram_of a b c t port n bytes payload family h e =
    subst
      (λ k.
        parse_address_datagram (a ∷ b ∷ c ∷ t ∷ (bytes ++ (be16 port ++ payload))) family k
        ≡ done (record {
          addr = record { family = family; port = port; addr = bytes ++ replicate (16 - k) 0 };
          payload = payload;
        }))
      e (parse_address_datagram_at a b c t port bytes payload family h)

-- The parser undoes the header.
parsed_back :
    (family : Family) (port : ℕ) (addr payload : List ℕ)
    → family ≢ unspec
    → length addr ≡ 16
    → port < 65536
    → parse_socks5_udp_datagram (
        0
        ∷ 0
        ∷ 0
        ∷ address_type family
        ∷ (take (address_length family) addr ++ (be16 port ++ payload)))
      ≡ done (
          delivered (record {
            addr = record { family = family; port = port; addr = addr };
            payload = payload;
          }))
unfolding parse_socks5_udp_datagram
parsed_back inet port addr payload f e h =
    let packet = 0 ∷ 0 ∷ 0 ∷ 1 ∷ (take 4 addr ++ (be16 port ++ payload)) in
    let there : ltb (length packet) 4 ≡ false = ground arith in
    let n : length (take 4 addr) ≡ 4 = omega (arith, length-take 4 addr) in
    rw there (parse_address_datagram_of 0 0 0 1 port 4 (take 4 addr) payload inet h n)
parsed_back inet6 port addr payload f e h =
    let packet = 0 ∷ 0 ∷ 0 ∷ 4 ∷ (take 16 addr ++ (be16 port ++ payload)) in
    let there : ltb (length packet) 4 ≡ false = ground arith in
    let n : length (take 16 addr) ≡ 16 = omega (arith, length-take 16 addr) in
    rw there (parse_address_datagram_of 0 0 0 4 port 16 (take 16 addr) payload inet6 h n)
parsed_back unspec port addr payload f e h = absurd (f refl)

-- A datagram for a supported address is built, and the other end reads the same address, port and
-- payload from it.
pub parse_socks5_udp_datagram-udp_datagram :
    (m : Message)
    → Sendable m.addr
    → (d : List ℕ) × (udp_datagram m ≡ done d) × (parse_socks5_udp_datagram d ≡ done (delivered m))
unfolding udp_datagram
parse_socks5_udp_datagram-udp_datagram m s =
    let a = m.addr in
    let bytes = take (address_length a.family) a.addr in
    let assoc : (bytes ++ be16 a.port) ++ m.payload ≡ bytes ++ (be16 a.port ++ m.payload) =
      append_assoc bytes (be16 a.port) m.payload in
    (
      0 ∷ 0 ∷ 0 ∷ address_type a.family ∷ (bytes ++ (be16 a.port ++ m.payload)),
      ap (λ o. with_header o m.payload) (write_addr_at a.family a.port a.addr s.supported s.bytes)
          ∙ ap (λ bs. done (0 ∷ 0 ∷ 0 ∷ address_type a.family ∷ bs)) assoc,
      parsed_back a.family a.port a.addr m.payload s.supported s.bytes s.port,
    )

-- A batch for supported addresses is built whole, in order, and each of its datagrams is read back.
pub udp_batch-delivered :
    (ms : List Message)
    → All (λ m. Sendable m.addr) ms
    → (ds : List (List ℕ)) × (udp_batch ms ≡ done ds)
      × (map parse_socks5_udp_datagram ds ≡ map (λ m. done (delivered m)) ms)
unfolding udp_batch
udp_batch-delivered [] h = ([], refl, refl)
udp_batch-delivered (m ∷ ms) h =
    let (d, built, back) = parse_socks5_udp_datagram-udp_datagram m h.0 in
    let (ds, all_built, all_back) = udp_batch-delivered ms h.1 in
    (d ∷ ds, rw (built, all_built), λ i. back i ∷ all_back i)

parse_port-Settled :
    (packet addr : List ℕ) (family : Family) (pos : ℕ)
    → pos + 1 < length packet
    → Settled (parse_port packet family addr pos)
unfolding parse_port
parse_port-Settled packet addr family pos h = let (port, e) = read_be16_lt packet pos h in rw e

parse_address_datagram-Settled :
    (packet : List ℕ) (family : Family) (n : ℕ) → Settled (parse_address_datagram packet family n)
unfolding parse_address_datagram
parse_address_datagram-Settled packet family n =
    elim (Bool-cases (ltb (length packet) (3 + 1 + n + 2))) [
      | inl short ↦ rw short
      | inr long ↦
          let bytes = take n (drop 4 packet) in
          rw (long, slice_le packet 4 n (ground arith))
            (parse_port-Settled packet (bytes ++ replicate (16 - n) 0) family (4 + n)
              (ground arith))
    ]

parse_domain_datagram-Settled : (packet : List ℕ) → Settled (parse_domain_datagram packet)
unfolding parse_domain_datagram
parse_domain_datagram-Settled packet = elim (Bool-cases (ltb (length packet) (4 + 1))) [
  | inl short ↦ rw short
  | inr some_length ↦
      let (n, e) = get_elem?_lt packet 4 (ground arith) in
      elim (Bool-cases (ltb (length packet) (4 + 1 + n + 2))) [
        | inl short ↦ rw (some_length, e, short)
        | inr long ↦
            rw (some_length, e, long)
              (parse_port-Settled packet (replicate 16 0) unspec (4 + (1 + n)) (ground arith))
      ]
]

-- The parser of a datagram ends on every datagram, and reads only bytes of it.
pub parse_socks5_udp_datagram-Settled :
    (packet : List ℕ) → Settled (parse_socks5_udp_datagram packet)
unfolding parse_socks5_udp_datagram
parse_socks5_udp_datagram-Settled packet = elim (Bool-cases (ltb (length packet) 4)) [
  | inl short ↦ rw short
  | inr long ↦
      let (a, ea) = get_elem?_lt packet 0 (ground arith) in
      let (b, eb) = get_elem?_lt packet 1 (ground arith) in
      let (c, ec) = get_elem?_lt packet 2 (ground arith) in
      let (t, et) = get_elem?_lt packet 3 (ground arith) in
      rw (long, ea, eb, ec, et)
        (ground (
          arith,
          parse_domain_datagram-Settled packet,
          parse_address_datagram-Settled packet inet 4,
          parse_address_datagram-Settled packet inet6 16,
        ))
]
