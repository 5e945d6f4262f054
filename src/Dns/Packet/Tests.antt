-- ===== src/Dns/Packet/Tests.antt =====
-- The DNS parser on a query for `a.b`, and on a name that points to itself.
use bpf2socks.Prelude.{ℕ, ◌≡◌, refl, false, List, [], ◌∷◌, eproto, get_elem?, some}
use bpf2socks.Prelude.Outcome.{Settled, fail}
use bpf2socks.Dns.Packet.{
  fingerprint_name, parse_query, parse_dns_packet, fnv_offset, name_loop, set_id, hash_label,
  fnv1a_update, follow_pointer, take_label, name_step, parse_question,
}
use bpf2socks.Dns.Packet.Bounds.{fingerprint_name-Settled, parse_dns_packet-Settled}

abbrev header : List ℕ → List ℕ
header question = 0x12 ∷ 0x34 ∷ 1 ∷ 0 ∷ 0 ∷ 1 ∷ 0 ∷ 0 ∷ 0 ∷ 0 ∷ 0 ∷ 0 ∷ question

abbrev query : List ℕ
query = header (1 ∷ b'a' ∷ 1 ∷ b'b' ∷ 0 ∷ 0 ∷ 1 ∷ 0 ∷ 1 ∷ [])

abbrev upper_query : List ℕ
upper_query = header (1 ∷ b'A' ∷ 1 ∷ b'B' ∷ 0 ∷ 0 ∷ 1 ∷ 0 ∷ 1 ∷ [])

abbrev looping_query : List ℕ
looping_query = header (0xc0 ∷ 12 ∷ 0 ∷ 1 ∷ 0 ∷ 1 ∷ [])

same_fingerprint : parse_query query ≡ parse_query upper_query
unfolding parse_query fnv1a_update hash_label follow_pointer take_label name_step name_loop
    fingerprint_name parse_question parse_dns_packet
same_fingerprint = refl

loop_refused : parse_query looping_query ≡ fail eproto
unfolding parse_query fnv1a_update hash_label follow_pointer take_label name_step name_loop
    fingerprint_name parse_question parse_dns_packet
loop_refused = refl

renamed : get_elem? (set_id query 0xabcd) 1 ≡ some 0xcd
unfolding set_id
renamed = refl

parse_dns_packet-Settled_example : Settled (parse_dns_packet looping_query false)
parse_dns_packet-Settled_example = parse_dns_packet-Settled looping_query false

fingerprint_name-Settled_example : Settled (fingerprint_name looping_query 12 fnv_offset)
fingerprint_name-Settled_example = fingerprint_name-Settled looping_query 12 fnv_offset
