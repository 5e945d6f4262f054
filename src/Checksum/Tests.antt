-- ===== src/Checksum/Tests.antt =====
-- A reply of an odd number of bytes to a client in the local network.
use bpf2socks.Prelude.{ℕ, List, [], ◌∷◌, replicate}
use bpf2socks.Bindings.{Sockaddr}
use bpf2socks.Udp.{Address}

abbrev client : Address
client = record { bytes = 2 ∷ 0 ∷ 4 ∷ 1 ∷ 192 ∷ 168 ∷ 1 ∷ 20 ∷ replicate 120 0; length = 16 }

abbrev server : Sockaddr
server = record { family = 2; port = 53; addr = 8 ∷ 8 ∷ 4 ∷ 4 ∷ replicate 12 0 }

abbrev packet : List ℕ
packet =
    69 ∷ 0 ∷ 0 ∷ 31 ∷ 17 ∷ 112 ∷ 0 ∷ 0 ∷ 64 ∷ 17 ∷ 155 ∷ 150 ∷ 8 ∷ 8 ∷ 4 ∷ 4 ∷ 192 ∷ 168 ∷ 1 ∷ 20
    ∷ 0 ∷ 53 ∷ 4 ∷ 1 ∷ 0 ∷ 11 ∷ 41 ∷ 216 ∷ 1 ∷ 2 ∷ 3 ∷ []
