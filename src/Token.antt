-- ===== src/Token.antt =====
-- The token prefixes of core/token_prefix.c and the token map of core/token.c.
pub mod Prefix
pub mod Lookup
pub mod Text
mod Tests
use bpf2socks.Prelude.{
  ℕ, zero, suc, ◌+◌, ◌-◌, ◌*◌, ◌/◌, ◌%◌, ◌^◌, bit_and, Bool, true, false, ◌&&◌, not, Option, none,
  some, List, [], ◌∷◌, ltb, ◌==◌, if◌then◌else◌, replicate, bytes_equal, get_or,
}

-- `~x` of a `uint32_t`.
abbrev pub complement32 : ℕ → ℕ
complement32 x = 2 ^ 32 - 1 - x

abbrev pub host_mask4 : ℕ → ℕ
host_mask4 prefix_bits =
    if ltb 32 prefix_bits
    then 0
    else (if prefix_bits == 0
        then 2 ^ 32 - 1
        else (if prefix_bits == 32 then 0 else (2 ^ 32 - 1) / 2 ^ prefix_bits))

-- An address under the network mask. The four bytes of a prefix or an address are the number that `ntohl` makes of them.
pub masked4 : ℕ → ℕ → ℕ
masked4 addr prefix_bits = bit_and addr (complement32 (host_mask4 prefix_bits))

pub imm4 : ℕ → ℕ → ℕ
imm4 prefix prefix_bits = if ltb 32 prefix_bits then 0 else masked4 prefix prefix_bits

pub match4 : ℕ → ℕ → ℕ → Bool
match4 addr prefix prefix_bits =
    if ltb 32 prefix_bits then false else (masked4 addr prefix_bits == masked4 prefix prefix_bits)

abbrev pub firsts : ℕ → List ℕ → List ℕ
firsts zero xs = []
firsts (suc n) [] = []
firsts (suc n) (x ∷ xs) = x ∷ firsts n xs

-- The leading bytes as they are, and the leading bits of the next one.
pub match6 : List ℕ → List ℕ → ℕ → Bool
match6 addr prefix prefix_bits =
    let full_bytes = prefix_bits / 8 in
    let remaining_bits = prefix_bits % 8 in
    let mask = 255 * 2 ^ (8 - remaining_bits) % 256 in
    if ltb 128 prefix_bits
    then false
    else (if prefix_bits == 0
        then true
        else (if not (bytes_equal (firsts full_bytes addr) (firsts full_bytes prefix))
            then false
            else (if remaining_bits == 0
                then true
                else bit_and (get_or addr full_bytes 0) mask
                  == bit_and (get_or prefix full_bytes 0) mask)))

pub data Family : Type 0 where
  inet inet6 : Family

pub record Key : Type 0 where
  pub family : Family
  pub protocol : ℕ
  pub token_port : ℕ
  pub token_addr : List ℕ
  pub client_port : ℕ
  pub client_addr : List ℕ

abbrev pub loopback6 : List ℕ
loopback6 = 0 ∷ 0 ∷ 0 ∷ 0 ∷ 0 ∷ 0 ∷ 0 ∷ 0 ∷ 0 ∷ 0 ∷ 0 ∷ 0 ∷ 0 ∷ 0 ∷ 0 ∷ 1 ∷ []

abbrev pub first_is : List ℕ → ℕ → Bool
first_is [] n = false
first_is (a ∷ as') n = a == n

pub key_is_loopback : Key → Bool
key_is_loopback key = elim key.family [
  | inet ↦ first_is key.client_addr 127
  | inet6 ↦ bytes_equal key.client_addr loopback6
]

pub data Mode : Type 0 where
  unknown full_client zero_client : Mode

pub record Trace : Type 0 where
  pub matched_mode : Mode
  pub full_client_attempts : ℕ
  pub zero_client_attempts : ℕ

abbrev pub blank_trace : Trace
blank_trace = record { matched_mode = unknown; full_client_attempts = 0; zero_client_attempts = 0 }

abbrev pub zero_key : Key → Key
zero_key key = record key { client_port = 0; client_addr = replicate 16 0 }

-- The result of one lookup, noted in the trace.
abbrev pub note_full : {D : Type 0} → Trace → Option D → Option D × Trace
note_full t none = (none, record t { full_client_attempts = t.full_client_attempts + 1 })
note_full t (some d) = (
  some d,
  record t { full_client_attempts = t.full_client_attempts + 1; matched_mode = full_client },
)

abbrev pub note_zero : {D : Type 0} → Trace → Option D → Option D × Trace
note_zero t none = (none, record t { zero_client_attempts = t.zero_client_attempts + 1 })
note_zero t (some d) = (
  some d,
  record t { zero_client_attempts = t.zero_client_attempts + 1; matched_mode = zero_client },
)

-- The second lookup, unless the first one has found the token.
abbrev pub or_else : {D : Type 0} → Option D × Trace → (Trace → Option D × Trace) → Option D × Trace
or_else (some d, trace) next = (some d, trace)
or_else (none, trace) next = next trace

abbrev pub prefers_zero : Key → Mode → Bool
unfolding key_is_loopback
prefers_zero key unknown = key_is_loopback key
prefers_zero key full_client = false
prefers_zero key zero_client = true

-- What `bpf_map_lookup_and_delete` answers: the value and the map without it, ENOENT, or another
-- errno.
pub data Taken (M D : Type 0) : Type 0 where
  taken : D → M → Taken M D
  missing unsupported : Taken M D

-- The map of the kernel, behind bpf/syscall.c. `M` is its content and `D` the original destinations.
pub record TokenMap (M D : Type 0) : Type 0 where
  pub lookup : M → Key → Option D
  pub lookup_and_delete : M → Key → Taken M D
  pub delete : M → Key → Option M

module _ {M D : Type 0} (map : TokenMap M D) where
  abbrev pub lookup_full_client : M → Key → Trace → Option D × Trace
  lookup_full_client m key trace = note_full trace (map.lookup m key)

  abbrev pub lookup_zero_client : M → Key → Trace → Option D × Trace
  lookup_zero_client m key trace = note_zero trace (map.lookup m (zero_key key))

  pub lookup_udp : M → Key → Mode → Option D × Trace
  lookup_udp m key preference =
      if prefers_zero key preference
      then or_else (lookup_zero_client m key blank_trace) (lookup_full_client m key)
      else or_else (lookup_full_client m key blank_trace) (lookup_zero_client m key)

  -- The deletion after a lookup; the flag says that it failed.
  abbrev pub delete_found : M → Option D → Option M → Option (D × M × Bool)
  delete_found m none deleted = none
  delete_found m (some d) none = some (d, m, true)
  delete_found m (some d) (some m') = some (d, m', false)

  abbrev pub take_in_two : M → Key → Option (D × M × Bool)
  take_in_two m key = delete_found m (map.lookup m key) (map.delete m key)

  abbrev pub after_atomic : M → Key → Taken M D → Bool × Option (D × M × Bool)
  after_atomic m key (taken d m') = (false, some (d, m', false))
  after_atomic m key missing = (false, none)
  after_atomic m key unsupported = (true, take_in_two m key)

  -- `token_take`, from the process's flag that the atomic call is not supported: the flag after it,
  -- and the value with the map and whether the deletion failed.
  pub take : Bool → M → Key → Bool × Option (D × M × Bool)
  take true m key = (true, take_in_two m key)
  take false m key = after_atomic m key (map.lookup_and_delete m key)
