-- ===== src/Dns/Packet.antt =====
-- The DNS packet parser of bridge/dns.c: header, the first question's name with compression
-- pointers, and its case-insensitive fingerprint. A packet is the list of its bytes, and every read
-- of it is checked; `packet_len` is its length.
pub mod Bounds
mod Tests
use bpf2socks.Prelude.{
  ℕ, zero, suc, ◌+◌, ◌-◌, ◌*◌, ◌/◌, ◌%◌, ◌^◌, bit_and, bit_xor, Bool, true, false, ◌&&◌, ◌||◌, not,
  Option, none, some, List, [], ◌∷◌, ltb, leb, ◌==◌, if◌then◌else◌, length, get_elem?, set, einval,
  eproto,
}
use bpf2socks.Prelude.Outcome.{
  Outcome, done, fail, out_of_bounds, out_of_fuel, ◌>>=◌, read, read_be16,
}

pub record PacketInfo : Type 0 where
  pub id : ℕ
  pub question_fingerprint : ℕ
  pub has_question : Bool

pub fnv1a_update : ℕ → ℕ → ℕ
fnv1a_update hash value = bit_xor hash value * 16777619 % 2 ^ 32

abbrev pub ascii_lower : ℕ → ℕ
ascii_lower value = if leb b'A' value && leb value b'Z' then value + 32 else value

-- The inner loop of `fingerprint_name`, over `len` bytes of a label.
pub hash_label : List ℕ → ℕ → ℕ → ℕ → Outcome ℕ
hash_label packet cursor zero hash = done hash
hash_label packet cursor (suc len) hash = do
  byte ← read (get_elem? packet cursor)
  hash_label packet (cursor + 1) len (fnv1a_update hash (ascii_lower byte))

-- How the loop of `fingerprint_name` goes on: from the cursor, the end offset, whether a pointer has
-- been followed, the hops, and the hash.
abbrev pub NameLoop : Type 0
NameLoop = ℕ → ℕ → Bool → ℕ → ℕ → Outcome (ℕ × ℕ)

-- A compression pointer at the cursor.
pub follow_pointer : List ℕ → NameLoop → NameLoop
follow_pointer packet next cursor end_offset jumped hops hash =
    if leb (length packet) (cursor + 1) then fail eproto else (do
      word ← read_be16 packet cursor
      let pointer = bit_and word 0x3fff
      if leb (length packet) pointer || ltb 16 (hops + 1)
          then fail eproto
          else next pointer (if jumped then end_offset else cursor + 2) true (hops + 1) hash)

-- A label of `len` bytes, which begins at the cursor.
pub take_label : List ℕ → NameLoop → ℕ → NameLoop
take_label packet next len cursor end_offset jumped hops hash =
    if ltb 63 len || ltb (length packet) (cursor + len) then fail eproto else (do
      hash' ← hash_label packet cursor len (fnv1a_update hash len)
      next (cursor + len) end_offset jumped hops hash')

-- One round: the offset behind the name and the hash, or the next round.
pub name_step : List ℕ → NameLoop → NameLoop
name_step packet next cursor end_offset jumped hops hash =
    if leb (length packet) cursor then fail eproto else (do
      len ← read (get_elem? packet cursor)
      if bit_and len 0xc0 == 0xc0
          then follow_pointer packet next cursor end_offset jumped hops hash
          else (if not (bit_and len 0xc0 == 0)
              then fail eproto
              else (if len == 0
                  then done (if jumped then end_offset else cursor + 1, fnv1a_update hash 0)
                  else take_label packet next len (cursor + 1) end_offset jumped hops hash)))

pub name_loop : ℕ → List ℕ → NameLoop
name_loop zero packet cursor end_offset jumped hops hash = out_of_fuel
name_loop (suc fuel) packet cursor end_offset jumped hops hash =
    name_step packet (name_loop fuel packet) cursor end_offset jumped hops hash

-- At most 16 pointers are followed, with at most a packet's length of steps between them.
abbrev pub name_fuel : List ℕ → ℕ
name_fuel packet = 18 * (length packet + 1)

pub fingerprint_name : List ℕ → ℕ → ℕ → Outcome (ℕ × ℕ)
unfolding name_loop
fingerprint_name packet offset hash = name_loop (name_fuel packet) packet offset 0 false 0 hash

abbrev pub fnv_offset : ℕ
fnv_offset = 2166136261

-- The hash goes on over the type and class, and is never 0.
abbrev pub finish_hash : ℕ → ℕ → ℕ → ℕ
finish_hash hash qtype qclass =
    let h1 = fnv1a_update hash (qtype / 256 % 256) in
    let h2 = fnv1a_update h1 (qtype % 256) in
    let h3 = fnv1a_update h2 (qclass / 256 % 256) in
    let h4 = fnv1a_update h3 (qclass % 256) in if h4 == 0 then 1 else h4

-- The question of a packet: its name, type and class.
pub parse_question : List ℕ → ℕ → Outcome PacketInfo
parse_question packet id = do
  (question_end, hash) ← fingerprint_name packet 12 fnv_offset
  if ltb (length packet) (question_end + 4) then fail eproto else (do
    qtype ← read_be16 packet question_end
    qclass ← read_be16 packet (question_end + 2)
    done (record {
      id = id;
      question_fingerprint = finish_hash hash qtype qclass;
      has_question = true;
    }))

pub parse_dns_packet : List ℕ → Bool → Outcome PacketInfo
parse_dns_packet packet expect_response = if ltb (length packet) 12 then fail einval else (do
  flags ← read (get_elem? packet 2)
  let is_response = not (bit_and flags 0x80 == 0)
  if not (if is_response then expect_response else not expect_response) then fail eproto else (do
    id ← read_be16 packet 0
    qdcount ← read_be16 packet 4
    if not expect_response && qdcount == 0
        then fail eproto
        else (if qdcount == 0
            then done (record { id = id; question_fingerprint = 0; has_question = false })
            else parse_question packet id)))

pub parse_query : List ℕ → Outcome PacketInfo
unfolding parse_dns_packet
parse_query packet = parse_dns_packet packet false

pub parse_response : List ℕ → Outcome PacketInfo
unfolding parse_dns_packet
parse_response packet = parse_dns_packet packet true

pub set_id : List ℕ → ℕ → List ℕ
set_id packet id =
    if ltb (length packet) 2 then packet else set (set packet 0 (id / 256 % 256)) 1 (id % 256)
