-- ===== src/Socks/Tests.antt =====
-- The SOCKS5 codec at concrete messages.
use bpf2socks.Prelude.{
  ℕ, ◌≡◌, refl, arith, Option, none, some, List, [], ◌∷◌, ◌++◌, map, replicate, false, emsgsize,
}
use bpf2socks.Prelude.Outcome.{done, fail, Settled}
use bpf2socks.Socks.{
  inet, inet6, Sockaddr, Message, udp_batch, parse_socks5_udp_datagram, parse_bound_addr,
  build_connect_request, build_udp_associate_request, write_addr, receive,
}
use bpf2socks.Socks.Reply.{Agrees, parse_bound_addr-Agrees}
use bpf2socks.Socks.Datagram.{
  Sendable, delivered, udp_batch-delivered, parse_socks5_udp_datagram-Settled,
}

abbrev dns_server : Sockaddr
dns_server = record { family = inet; port = 53; addr = 8 ∷ 8 ∷ 4 ∷ 4 ∷ replicate 12 0 }

abbrev server6 : Sockaddr
server6 = record { family = inet6; port = 443; addr = 0x20 ∷ 1 ∷ replicate 13 0 ++ 9 ∷ [] }

abbrev hello : Message
hello = record { addr = dns_server; payload = 104 ∷ 105 ∷ [] }

abbrev hello6 : Message
hello6 = record { addr = server6; payload = 104 ∷ [] }

dns_server-Sendable : Sendable dns_server
dns_server-Sendable = record { supported = λ e. cc; bytes = refl; port = omega arith }

server6-Sendable : Sendable server6
server6-Sendable = record { supported = λ e. cc; bytes = refl; port = omega arith }

udp_batch-delivered_example :
    (ds : List (List ℕ)) × (udp_batch (hello ∷ hello6 ∷ []) ≡ done ds)
    × (map parse_socks5_udp_datagram ds ≡ done (delivered hello) ∷ done (delivered hello6) ∷ [])
udp_batch-delivered_example =
    udp_batch-delivered (hello ∷ hello6 ∷ []) (dns_server-Sendable, (server6-Sendable, tt))

-- A reply that names the domain `a`, cut before its port.
abbrev domain_reply : List ℕ
domain_reply = 5 ∷ 0 ∷ 0 ∷ 3 ∷ 1 ∷ b'a' ∷ 4 ∷ []

abbrev never : List ℕ → ℕ → Option (List ℕ)
never host port = none

parse_bound_addr-Agrees_example : Agrees domain_reply (parse_bound_addr never domain_reply)
parse_bound_addr-Agrees_example = parse_bound_addr-Agrees never domain_reply

parse_socks5_udp_datagram-Settled_example : Settled (parse_socks5_udp_datagram domain_reply)
parse_socks5_udp_datagram-Settled_example = parse_socks5_udp_datagram-Settled domain_reply

connect_request :
    build_connect_request 32 dns_server ≡ done (5 ∷ 1 ∷ 0 ∷ 1 ∷ 8 ∷ 8 ∷ 4 ∷ 4 ∷ 0 ∷ 53 ∷ [])
unfolding build_connect_request write_addr
connect_request = refl

associate_request :
    build_udp_associate_request 22 ≡ some (5 ∷ 3 ∷ 0 ∷ 1 ∷ 0 ∷ 0 ∷ 0 ∷ 0 ∷ 0 ∷ 0 ∷ [])
unfolding build_udp_associate_request write_addr
associate_request = refl

too_long : receive 2 (record { bytes = 0 ∷ 0 ∷ 0 ∷ []; truncated = false }) ≡ fail emsgsize
unfolding receive
too_long = refl
