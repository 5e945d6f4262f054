-- ===== src/Token/Text.antt =====
-- The texts of token prefixes, as core/token_prefix.c reads them. `inet_pton` and `strtoul` are
-- parameters: the bytes of an address, and the number with the rest of the text.
use bpf2socks.Prelude.{
  ℕ, ◌||◌, not, Option, none, some, List, [], ◌∷◌, ◌++◌, leb, ◌==◌, if◌then◌else◌, length, take,
  replicate, bytes_equal,
}

-- The functions of the C library that the parsers call.
pub record Libc : Type 0 where
  pub inet_pton4 : List ℕ → Option (List ℕ)
  pub inet_pton6 : List ℕ → Option (List ℕ)
  pub strtoul : List ℕ → Option (ℕ × List ℕ)

-- The text before and after the first slash.
abbrev pub split_slash : List ℕ → Option (List ℕ × List ℕ)
split_slash [] = none
split_slash (c ∷ cs) =
    let rest = split_slash cs in
    if c == b'/'
    then some ([], cs)
    else elim rest [ none ↦ none | some (before, after) ↦ some (c ∷ before, after) ]

abbrev pub check4 : Option (List ℕ) → Option (List ℕ × ℕ)
check4 none = none
check4 (some parsed) =
    if bytes_equal parsed (127 ∷ 128 ∷ 0 ∷ 0 ∷ []) then some (parsed, 9) else none

abbrev pub address4 : Libc → Option (List ℕ × List ℕ) → Option (List ℕ × ℕ)
address4 libc none = none
address4 libc (some (address, bits)) =
    if not (bytes_equal bits (b'9' ∷ [])) || (length address == 0 || leb 16 (length address))
    then none
    else check4 (libc.inet_pton4 address)

pub parse4 : Libc → List ℕ → Option (List ℕ × ℕ)
parse4 libc text = address4 libc (split_slash text)

-- The prefix keeps its first eight bytes.
abbrev pub check6 : ℕ → Option (List ℕ) → Option (List ℕ × ℕ)
check6 bits none = none
check6 bits (some out) = some (take 8 out ++ replicate 8 0, bits)

abbrev pub bits6 : Libc → List ℕ → Option (ℕ × List ℕ) → Option (List ℕ × ℕ)
bits6 libc address none = none
bits6 libc address (some (bits, rest)) =
    if not (length rest == 0) || not (bits == 64)
    then none
    else check6 bits (libc.inet_pton6 address)

abbrev pub address6 : Libc → Option (List ℕ × List ℕ) → Option (List ℕ × ℕ)
address6 libc none = none
address6 libc (some (address, bits)) = bits6 libc address (libc.strtoul bits)

-- The buffer has INET6_ADDRSTRLEN + 5 bytes.
pub parse6 : Libc → List ℕ → Option (List ℕ × ℕ)
parse6 libc text = if leb 51 (length text) then none else address6 libc (split_slash text)
