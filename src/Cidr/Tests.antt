-- ===== src/Cidr/Tests.antt =====
-- CIDR keys at concrete texts.
use bpf2socks.Prelude.{ℕ, ◌≡◌, refl, arith, List, [], ◌∷◌, ◌<◌, All, length, none, some, true}
use mathlib.Core.Option.{some-injective}
use bpf2socks.Prelude.{subst}
use bpf2socks.Token.Text.{Libc}
use bpf2socks.Cidr.{lpm4, parse_cidr, parse_cidr_text, parse_line, nothing, masked4}
use bpf2socks.Cidr.Masks.{WritesFourBytes, HasKey4, parse_cidr-HasKey4}

abbrev libc : Libc
libc = record { inet_pton4 = λ _. none; inet_pton6 = λ _. none; strtoul = λ _. none }

a_comment : parse_cidr_text libc true (32 ∷ b'#' ∷ b'x' ∷ []) ≡ nothing
unfolding parse_cidr_text parse_line
a_comment = refl

-- A C library that reads every address as 192.168.1.7 and every number as 24.
abbrev one_address : Libc
one_address = record {
  inet_pton4 = λ _. some (192 ∷ 168 ∷ 1 ∷ 7 ∷ []);
  inet_pton6 = λ _. none;
  strtoul = λ _. some (24, []);
}

one_address-WritesFourBytes : WritesFourBytes one_address
one_address-WritesFourBytes text bytes e =
    subst (λ bs. (length bs ≡ 4) × All (λ b. b < 256) bs)
      (some-injective (192 ∷ 168 ∷ 1 ∷ 7 ∷ []) bytes e) (refl, ground arith)

abbrev text : List ℕ
text = b'x' ∷ b'/' ∷ b'2' ∷ []

-- 192.168.1.0 with 24 bits.
its_key : parse_cidr one_address true text ≡ some (lpm4 24 3232235776)
unfolding parse_cidr masked4
its_key = refl

parse_cidr-HasKey4_example : HasKey4 one_address text (parse_cidr one_address true text)
parse_cidr-HasKey4_example = parse_cidr-HasKey4 one_address one_address-WritesFourBytes text
