-- ===== src/Bindings.antt =====
-- bridge/udp_binding_index.c: the hash index of the reply bindings. A binding is its address, with
-- its fields in a store; the chain of a bucket (`hash_next`) is the list of its bindings. An index
-- without buckets has `bucket_count` 0: init and free set both fields together. The hash reads the
-- memory of its fields on a little-endian machine with pointers of eight bytes.
pub mod Lookup
pub mod Removal
pub mod Init
mod Tests
use bpf2socks.Prelude.{
  ℕ, zero, suc, ◌+◌, ◌-◌, ◌*◌, ◌/◌, ◌%◌, ◌^◌, ◌==◌, Bool, true, false, ◌&&◌, ◌||◌, not, Option,
  none, some, List, [], ◌∷◌, if◌then◌else◌, bit_and, bit_xor, take, bytes_equal, leb, ltb, write,
  Result, ok, err, einval, eexist,
}

-- struct bpf2socks_sockaddr: `addr` has 16 bytes.
pub record Sockaddr : Type 0 where
  pub family : ℕ
  pub port : ℕ
  pub addr : List ℕ

-- struct bpf2socks_udp_reply_binding, but for the links, which are the lists of their owners.
pub record Binding : Type 0 where
  pub used : Bool
  pub original_dst : Sockaddr
  pub token_addr : List ℕ
  pub connected_udp_token : Bool
  pub reply_fd : Option ℕ
  pub reply_raw : Bool
  pub reply_fd_generation : ℕ
  pub last_seen_ms : ℕ
  pub downlink_pending_count : ℕ
  pub owner : Option ℕ

pub record Index : Type 0 where
  pub buckets : ℕ → List ℕ
  pub bucket_count : ℕ

abbrev pub af_inet : ℕ
af_inet = 2

abbrev pub af_inet6 : ℕ
af_inet6 = 10

-- The bytes of an integer, lowest first.
abbrev pub memory : ℕ → ℕ → List ℕ
memory zero v = []
memory (suc n) v = (v % 256) ∷ memory n (v / 256)

unfoldable pub hash_bytes : ℕ → List ℕ → ℕ
hash_bytes hash [] = hash
hash_bytes hash (b ∷ bs) = hash_bytes (bit_xor hash b * 1099511628211 % 2 ^ 64) bs

abbrev pub address_length : Sockaddr → ℕ
address_length original = if original.family == af_inet6 then 16 else 4

unfoldable pub binding_hash : ℕ → Sockaddr → ℕ
binding_hash owner original =
    let h0 = hash_bytes 1469598103934665603 (memory 8 owner) in
    let h1 = hash_bytes h0 (memory 4 original.family) in
    let h2 = hash_bytes h1 (memory 2 original.port) in
    hash_bytes h2 (take (address_length original) original.addr)

abbrev pub owned_by : Option ℕ → ℕ → Bool
owned_by none owner = false
owned_by (some o) owner = o == owner

unfoldable pub same_key : Binding → ℕ → Sockaddr → Bool
same_key binding owner original =
    owned_by binding.owner owner
    && (binding.original_dst.family == original.family)
    && (binding.original_dst.port == original.port)
    && bytes_equal (take (address_length original) binding.original_dst.addr)
        (take (address_length original) original.addr)

abbrev pub valid_original : Sockaddr → Bool
valid_original original = (original.family == af_inet) || (original.family == af_inet6)

abbrev pub bucket_of : Index → ℕ → Sockaddr → ℕ
bucket_of index owner original = bit_and (binding_hash owner original) (index.bucket_count - 1)

abbrev pub contains : ℕ → List ℕ → Bool
contains binding [] = false
contains binding (b ∷ bs) = (b == binding) || contains binding bs

-- The chain without the binding, where it is in the chain.
unfoldable pub unlink : ℕ → List ℕ → List ℕ
unlink binding [] = []
unlink binding (b ∷ bs) = if b == binding then bs else b ∷ unlink binding bs

-- The store of all bindings, by address.
module _ (store : ℕ → Binding) where
  abbrev pub is_match : ℕ → Sockaddr → ℕ → Bool
  is_match owner original b = (store b).used && same_key (store b) owner original

  -- The walk along a chain, with the number of bindings passed over.
  unfoldable pub find_chain : ℕ → Sockaddr → ℕ → List ℕ → Option ℕ × ℕ
  find_chain owner original steps [] = (none, steps)
  find_chain owner original steps (b ∷ bs) =
      if is_match owner original b
      then (some b, steps)
      else find_chain owner original (steps + 1) bs

  -- `bpf2socks_udp_binding_index_find`, with the collision steps.
  unfoldable pub find : Index → ℕ → Sockaddr → Option ℕ × ℕ
  find index owner original =
      if (index.bucket_count == 0) || not (valid_original original)
      then (none, 0)
      else find_chain owner original 0 (index.buckets (bucket_of index owner original))

  -- The owner of a binding that may be in the index.
  abbrev pub insert_owned : Index → ℕ → Option ℕ → Result Index
  insert_owned index binding none = err einval
  insert_owned index binding (some owner) =
      if (index.bucket_count == 0)
        || not (store binding).used
        || not (valid_original (store binding).original_dst)
      then err einval
      else (let bucket = bucket_of index owner (store binding).original_dst in
          let chain = index.buckets bucket in
          if contains binding chain
          then err eexist
          else ok (record index { buckets = write index.buckets bucket (binding ∷ chain) }))

  -- `bpf2socks_udp_binding_index_insert`.
  unfoldable pub insert : Index → ℕ → Result Index
  insert index binding = insert_owned index binding (store binding).owner

  abbrev pub remove_owned : Index → ℕ → Option ℕ → Bool × Index
  remove_owned index binding none = (false, index)
  remove_owned index binding (some owner) =
      if (index.bucket_count == 0) || not (valid_original (store binding).original_dst)
      then (false, index)
      else (let bucket = bucket_of index owner (store binding).original_dst in
          let chain = index.buckets bucket in
          if contains binding chain
          then (true, record index { buckets = write index.buckets bucket (unlink binding chain) })
          else (false, index))

  -- `bpf2socks_udp_binding_index_remove`.
  unfoldable pub remove : Index → ℕ → Bool × Index
  remove index binding = remove_owned index binding (store binding).owner
