-- ===== src/Config/Load/Tests.antt =====
-- The loading of a configuration file with the required fields.
use bpf2socks.Prelude.{ℕ, none, some, List, [], ◌∷◌, false, replicate}
use bpf2socks.Token.Text.{Libc}
use bpf2socks.Config.Load.{config_load}
use bpf2socks.Config.Load.Accepted.{IfAccepted, config_load-IfAccepted}

-- {'socksHost':'h','socksPort':1080,'bridgeListenAddress':'b','bridgePort':99,'pinnedObjectDir':'/p'}
abbrev text : List ℕ
text =
    b'{' ∷ 34 ∷ b's' ∷ b'o' ∷ b'c' ∷ b'k' ∷ b's' ∷ b'H' ∷ b'o' ∷ b's' ∷ b't' ∷ 34 ∷ b':' ∷ 34 ∷ b'h'
    ∷ 34 ∷ b',' ∷ 34 ∷ b's' ∷ b'o' ∷ b'c' ∷ b'k' ∷ b's' ∷ b'P' ∷ b'o' ∷ b'r' ∷ b't' ∷ 34 ∷ b':'
    ∷ b'1' ∷ b'0' ∷ b'8' ∷ b'0' ∷ b',' ∷ 34 ∷ b'b' ∷ b'r' ∷ b'i' ∷ b'd' ∷ b'g' ∷ b'e' ∷ b'L' ∷ b'i'
    ∷ b's' ∷ b't' ∷ b'e' ∷ b'n' ∷ b'A' ∷ b'd' ∷ b'd' ∷ b'r' ∷ b'e' ∷ b's' ∷ b's' ∷ 34 ∷ b':' ∷ 34
    ∷ b'b' ∷ 34 ∷ b',' ∷ 34 ∷ b'b' ∷ b'r' ∷ b'i' ∷ b'd' ∷ b'g' ∷ b'e' ∷ b'P' ∷ b'o' ∷ b'r' ∷ b't'
    ∷ 34 ∷ b':' ∷ b'9' ∷ b'9' ∷ b',' ∷ 34 ∷ b'p' ∷ b'i' ∷ b'n' ∷ b'n' ∷ b'e' ∷ b'd' ∷ b'O' ∷ b'b'
    ∷ b'j' ∷ b'e' ∷ b'c' ∷ b't' ∷ b'D' ∷ b'i' ∷ b'r' ∷ 34 ∷ b':' ∷ 34 ∷ b'/' ∷ b'p' ∷ 34 ∷ b'}' ∷ []

-- A C library that parses no address and no number.
abbrev libc : Libc
libc = record { inet_pton4 = λ _. none; inet_pton6 = λ _. none; strtoul = λ _. none }

config_load-IfAccepted_example :
    IfAccepted text false
      (config_load libc (some 8) false (127 ∷ 128 ∷ 0 ∷ 0 ∷ [], 9) (replicate 16 0, 64) text false)
config_load-IfAccepted_example =
    config_load-IfAccepted libc (some 8) false (127 ∷ 128 ∷ 0 ∷ 0 ∷ [], 9) (replicate 16 0, 64) text
      false
