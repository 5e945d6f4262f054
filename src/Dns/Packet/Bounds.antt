-- ===== src/Dns/Packet/Bounds.antt =====
-- The DNS parser ends on every packet and reads no byte outside it.
use bpf2socks.Prelude.{
  ℕ, zero, suc, ◌+◌, ◌-◌, ◌*◌, ◌≤◌, ◌<◌, ◌≡◌, refl, arith, Bool, true, false, bit_and, List, ltb,
  leb, if◌then◌else◌, length, get_elem?_lt, ◌||◌, Bool-cases, inl, inr,
}
use bpf2socks.Prelude.Outcome.{done, Settled, Outcome-cases, read_be16_lt}
use bpf2socks.Dns.Packet.{
  hash_label, name_loop, fingerprint_name, parse_dns_packet, parse_question, fnv1a_update,
  ascii_lower, name_fuel, fnv_offset, NameLoop, follow_pointer, take_label, name_step,
}

hash_label_lt :
    (packet : List ℕ) (cursor len hash : ℕ)
    → cursor + len ≤ length packet
    → (h : ℕ) × (hash_label packet cursor len hash ≡ done h)
unfolding hash_label
hash_label_lt packet cursor zero hash h = (hash, refl)
hash_label_lt packet cursor (suc len) hash h =
    let (byte, e) = get_elem?_lt packet cursor (omega arith) in
    let (r, er) =
      hash_label_lt packet (cursor + 1) len (fnv1a_update hash (ascii_lower byte)) (omega arith) in
    (r, rw e er)

-- What one pointer costs of the fuel.
pointer_fuel :
    (n hops cursor pointer fuel : ℕ)
    → hops < 16
    → pointer < n
    → (17 - hops) * (n + 1) + (n - cursor) < suc fuel
    → (17 - (hops + 1)) * (n + 1) + (n - pointer) < fuel
pointer_fuel n hops cursor pointer fuel h p e = omega (arith, fewer hops n h)
  where
    fewer : (hops n : ℕ) → hops < 16 → (17 - hops) * (n + 1) ≡ (17 - (hops + 1)) * (n + 1) + (n + 1)
    fewer hops n h = let e : 17 - hops ≡ suc (17 - (hops + 1)) = omega arith in rw e (omega arith)

follow_pointer-Settled :
    (packet : List ℕ) (next : NameLoop) (cursor end_offset : ℕ) (jumped : Bool) (hops hash : ℕ)
    → ((pointer from : ℕ)
        → pointer < length packet
        → hops < 16
        → Settled (next pointer from true (hops + 1) hash))
    → Settled (follow_pointer packet next cursor end_offset jumped hops hash)
unfolding follow_pointer
follow_pointer-Settled packet next cursor end_offset jumped hops hash h =
    elim (Bool-cases (leb (length packet) (cursor + 1))) [
      | inl over ↦ rw over
      | inr inside ↦
          let (word, e) = read_be16_lt packet cursor (ground arith) in
          let pointer = bit_and word 0x3fff in
          rw (inside, e) (ground (arith, h pointer (if jumped then end_offset else cursor + 2)))
    ]

take_label-Settled :
    (packet : List ℕ) (next : NameLoop) (len cursor end_offset : ℕ) (jumped : Bool) (hops hash : ℕ)
    → ((hash' : ℕ)
        → cursor + len ≤ length packet
        → Settled (next (cursor + len) end_offset jumped hops hash'))
    → Settled (take_label packet next len cursor end_offset jumped hops hash)
unfolding take_label
take_label-Settled packet next len cursor end_offset jumped hops hash h =
    elim (Bool-cases (ltb 63 len || ltb (length packet) (cursor + len))) [
      | inl over ↦ rw over
      | inr inside ↦
          let fits : cursor + len ≤ length packet = ground arith in
          let (hash', e) = hash_label_lt packet cursor len (fnv1a_update hash len) fits in
          rw (inside, e) (h hash' fits)
    ]

name_step-Settled :
    (packet : List ℕ) (next : NameLoop) (cursor end_offset : ℕ) (jumped : Bool) (hops hash : ℕ)
    → ((pointer from : ℕ)
        → cursor < length packet
        → pointer < length packet
        → hops < 16
        → Settled (next pointer from true (hops + 1) hash))
    → ((len hash' : ℕ)
        → cursor < length packet
        → cursor + 1 + len ≤ length packet
        → Settled (next (cursor + 1 + len) end_offset jumped hops hash'))
    → Settled (name_step packet next cursor end_offset jumped hops hash)
unfolding name_step
name_step-Settled packet next cursor end_offset jumped hops hash hp hl =
    elim (Bool-cases (leb (length packet) cursor)) [
      | inl over ↦ rw over
      | inr inside ↦
          let at : cursor < length packet = ground arith in
          let (len, e) = get_elem?_lt packet cursor at in
          rw (inside, e)
            (ground (
              arith,
              follow_pointer-Settled packet next cursor end_offset jumped hops hash
                  (λ pointer from. hp pointer from at),
              take_label-Settled packet next len (cursor + 1) end_offset jumped hops hash
                  (λ hash'. hl len hash' at),
            ))
    ]

-- The fuel bounds what is left: the hops first, then the bytes.
name_loop-Settled :
    (fuel : ℕ) (packet : List ℕ) (cursor end_offset : ℕ) (jumped : Bool) (hops hash : ℕ)
    → hops ≤ 16
    → (17 - hops) * (length packet + 1) + (length packet - cursor) < fuel
    → Settled (name_loop fuel packet cursor end_offset jumped hops hash)
unfolding name_loop
name_loop-Settled zero packet cursor end_offset jumped hops hash h e = absurd (omega arith)
name_loop-Settled (suc fuel) packet cursor end_offset jumped hops hash h e =
    name_step-Settled packet (name_loop fuel packet) cursor end_offset jumped hops hash
      (λ pointer from at p few.
        name_loop-Settled fuel packet pointer from true (hops + 1) hash (omega arith)
          (pointer_fuel (length packet) hops cursor pointer fuel few p e))
      (λ len hash' at fits.
        name_loop-Settled fuel packet (cursor + 1 + len) end_offset jumped hops hash' h
          (omega arith))

-- `fingerprint_name` ends on every packet, and reads only bytes of it.
pub fingerprint_name-Settled :
    (packet : List ℕ) (offset hash : ℕ) → Settled (fingerprint_name packet offset hash)
unfolding fingerprint_name
fingerprint_name-Settled packet offset hash =
    name_loop-Settled (name_fuel packet) packet offset 0 false 0 hash (omega arith) (omega arith)

parse_question-Settled : (packet : List ℕ) (id : ℕ) → Settled (parse_question packet id)
unfolding parse_question
parse_question-Settled packet id =
    elim (Outcome-cases (fingerprint_name packet 12 fnv_offset)
      (fingerprint_name-Settled packet 12 fnv_offset)) [
        | inr (e, eq) ↦ rw eq
        | inl ((question_end, hash), eq) ↦
            elim (Bool-cases (ltb (length packet) (question_end + 4))) [
              | inl short ↦ rw (eq, short)
              | inr long ↦
                  let (qtype, et) = read_be16_lt packet question_end (ground arith) in
                  let (qclass, ec) = read_be16_lt packet (question_end + 2) (ground arith) in
                  rw (eq, long, et, ec)
            ]
      ]

-- The parser of queries and responses ends on every packet, and reads only bytes of it.
pub parse_dns_packet-Settled :
    (packet : List ℕ) (expect_response : Bool) → Settled (parse_dns_packet packet expect_response)
unfolding parse_dns_packet
parse_dns_packet-Settled packet expect_response = elim (Bool-cases (ltb (length packet) 12)) [
  | inl short ↦ rw short
  | inr long ↦
      let (flags, ef) = get_elem?_lt packet 2 (ground arith) in
      let (id, ei) = read_be16_lt packet 0 (ground arith) in
      let (qdcount, eq) = read_be16_lt packet 4 (ground arith) in
      rw (long, ef, ei, eq) (ground (arith, parse_question-Settled packet id))
]
