-- ===== src/Checksum/Verify.antt =====
-- The packets of `raw_send4` pass the checks of a receiver (RFC 791, RFC 768): the words of the IPv4
-- header, and those of the pseudo header with the UDP datagram, add up to a multiple of 65535.
use bpf2socks.Prelude.{ℕ, ◌+◌, List, [], ◌∷◌, ◌++◌, length}
use bpf2socks.Checksum.{udp_header, pseudo4, udp_checksum, ip_header, ip_checksum}

-- The packet with its addresses and the client's port byte by byte.
module _ (tot_len id a b c d e f g h source p q udp_len : ℕ) (payload : List ℕ) where
  abbrev saddr : List ℕ
  saddr = a ∷ b ∷ c ∷ d ∷ []

  abbrev daddr : List ℕ
  daddr = e ∷ f ∷ g ∷ h ∷ []

  abbrev dest : List ℕ
  dest = p ∷ q ∷ []

  abbrev without : List ℕ
  without = ip_header tot_len id saddr daddr 0

  abbrev udp_without : List ℕ
  udp_without = udp_header source dest udp_len 0

  abbrev packet4 : List ℕ
  packet4 =
      ip_header tot_len id saddr daddr (ip_checksum tot_len id saddr daddr)
      ++ udp_header source dest udp_len
          (udp_checksum (pseudo4 saddr daddr udp_len) udp_without payload)
      ++ payload

-- The packet that `raw_packet4` makes of the three fields.
abbrev built : ℕ → ℕ → ℕ → List ℕ → List ℕ → List ℕ → List ℕ → List ℕ
built tot_len id source saddr daddr dest payload =
    let udp_len = 8 + length payload in
    ip_header tot_len id saddr daddr (ip_checksum tot_len id saddr daddr)
    ++ udp_header source dest udp_len
        (udp_checksum (pseudo4 saddr daddr udp_len) (udp_header source dest udp_len 0) payload)
    ++ payload
