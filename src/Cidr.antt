-- ===== src/Cidr.antt =====
-- The CIDR texts of bpf/policy.c, as keys of the LPM maps. A text is the list of its bytes before the
-- terminating NUL; `strtoul` and `inet_pton` are the parameters of `Token.Text`, and an IPv4 address
-- is the number that `ntohl` makes of it.
pub mod Masks
mod Tests
use bpf2socks.Prelude.{
  ℕ, ◌+◌, ◌-◌, ◌*◌, ◌/◌, ◌%◌, ◌^◌, bit_and, Bool, true, false, ◌&&◌, ◌||◌, not, Option, none, some,
  List, [], ◌∷◌, ◌++◌, ltb, leb, ◌==◌, if◌then◌else◌, length, take, replicate, get_or,
}
use bpf2socks.Token.Text.{Libc, split_slash}

abbrev pub is_space : ℕ → Bool
is_space c = c == 32 || (leb 9 c && leb c 13)

abbrev pub trim_front : List ℕ → List ℕ
trim_front [] = []
trim_front (c ∷ cs) = if is_space c then trim_front cs else c ∷ cs

-- A space goes with the spaces behind it, if nothing else is left.
abbrev pub drop_space : ℕ → List ℕ → List ℕ
drop_space c [] = if is_space c then [] else c ∷ []
drop_space c (d ∷ ds) = c ∷ d ∷ ds

abbrev pub trim_back : List ℕ → List ℕ
trim_back [] = []
trim_back (c ∷ cs) = drop_space c (trim_back cs)

abbrev pub trim_line : List ℕ → List ℕ
trim_line line = trim_back (trim_front line)

-- A key: the prefix length and the address, four bytes as a number or sixteen bytes.
pub data Key : Type 0 where
  lpm4 : ℕ → ℕ → Key
  lpm6 : ℕ → List ℕ → Key

abbrev pub be32 : List ℕ → ℕ
be32 (a ∷ b ∷ c ∷ d ∷ rest) = ((a * 256 + b) * 256 + c) * 256 + d
be32 _ = 0

-- `0xffffffffU << (32UL - prefix)`.
abbrev pub mask4 : ℕ → ℕ
mask4 prefix = if prefix == 0 then 0 else (2 ^ 32 - 1) * 2 ^ (32 - prefix) % 2 ^ 32

pub masked4 : ℕ → ℕ → ℕ
masked4 addr prefix = bit_and addr (mask4 prefix)

-- The bytes behind the prefix are cleared, and the low bits of the byte that it ends in.
pub masked6 : List ℕ → ℕ → List ℕ
masked6 addr prefix =
    let full_bytes = prefix / 8 in
    let rest_bits = prefix % 8 in
    let mask = 255 * 2 ^ (8 - rest_bits) % 256 in
    if leb 128 prefix
    then addr
    else (if rest_bits == 0
        then take full_bytes addr ++ replicate (16 - full_bytes) 0
        else take full_bytes addr
          ++ bit_and (get_or addr full_bytes 0) mask ∷ replicate (16 - full_bytes - 1) 0)

abbrev pub key4 : ℕ → Option (List ℕ) → Option Key
key4 prefix none = none
key4 prefix (some addr) = some (lpm4 prefix (masked4 (be32 addr) prefix))

abbrev pub key6 : ℕ → Option (List ℕ) → Option Key
key6 prefix none = none
key6 prefix (some addr) = some (lpm6 prefix (masked6 addr prefix))

-- AF_INET or AF_INET6 is the Boolean.
abbrev pub key_of : Libc → Bool → List ℕ → Option (ℕ × List ℕ) → Option Key
key_of libc is_inet address none = none
key_of libc is_inet address (some (prefix, rest)) =
    if not (length rest == 0)
    then none
    else (if is_inet
        then (if ltb 32 prefix then none else key4 prefix (libc.inet_pton4 address))
        else (if ltb 128 prefix then none else key6 prefix (libc.inet_pton6 address)))

abbrev pub split_key : Libc → Bool → Option (List ℕ × List ℕ) → Option Key
split_key libc is_inet none = none
split_key libc is_inet (some (address, bits)) = key_of libc is_inet address (libc.strtoul bits)

pub parse_cidr : Libc → Bool → List ℕ → Option Key
parse_cidr libc is_inet line = split_key libc is_inet (split_slash line)

abbrev pub before_hash : List ℕ → List ℕ
before_hash [] = []
before_hash (c ∷ cs) = if c == b'#' then [] else c ∷ before_hash cs

-- What `parse_cidr_text` answers: 0, 1 with the key, or -1.
pub data Parsed : Type 0 where
  nothing malformed : Parsed
  key : Key → Parsed

abbrev pub parsed_key : Option Key → Parsed
parsed_key none = malformed
parsed_key (some k) = key k

-- An empty line and a comment hold nothing; a comment behind a text is cut off.
abbrev pub parse_line : Libc → Bool → List ℕ → Parsed
unfolding parse_cidr
parse_line libc is_inet [] = nothing
parse_line libc is_inet (c ∷ cs) = parsed_key (parse_cidr libc is_inet (c ∷ cs))

-- The buffer of the line has 256 bytes.
pub parse_cidr_text : Libc → Bool → List ℕ → Parsed
parse_cidr_text libc is_inet [] = malformed
parse_cidr_text libc is_inet (c ∷ cs) =
    parse_line libc is_inet (trim_line (before_hash (trim_line (take 255 (c ∷ cs)))))
