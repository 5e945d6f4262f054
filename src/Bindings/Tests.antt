-- ===== src/Bindings/Tests.antt =====
-- An index of one bucket, with the bindings 0 and 1 of the owner 7 to two ports.
use bpf2socks.Prelude.{
  ℕ, ◌+◌, write, ◌<◌, true, false, none, some, List, [], ◌∷◌, if◌then◌else◌, ok, ◌≡◌, refl, arith,
  replicate,
}
use bpf2socks.Prelude.Outcome.{done}
use bpf2socks.Bindings.{
  Sockaddr, Binding, Index, bucket_of, is_match, owned_by, insert, remove, unlink, find, find_chain,
}
use bpf2socks.Bindings.Lookup.{entry, IsIndex, insert-IsIndex, find-insert}
use bpf2socks.Bindings.Removal.{find-remove}
use bpf2socks.Bindings.Init.{init, double, IsSized, init-IsSized}

abbrev server : ℕ → Sockaddr
server port = record { family = 2; port = port; addr = 192 ∷ 0 ∷ 2 ∷ 1 ∷ replicate 12 0 }

abbrev store : ℕ → Binding
store n = record {
  used = true;
  original_dst = server (n + 80);
  token_addr = replicate 16 0;
  connected_udp_token = false;
  reply_fd = none;
  reply_raw = false;
  reply_fd_generation = 0;
  last_seen_ms = 0;
  downlink_pending_count = 0;
  owner = some 7;
}

abbrev chains : List ℕ → Index
chains bs = record { buckets = λ _. bs; bucket_count = 1 }

empty-IsIndex : IsIndex store (chains [])
empty-IsIndex k = tt

-- The index that the insertion of the binding 0 comes to.
abbrev entered : Index
entered = record {
  buckets = write (λ _. []) (bucket_of (chains []) 7 (server 80)) (0 ∷ []);
  bucket_count = 1;
}

insert_lem : insert store (chains []) 0 ≡ ok entered
unfolding insert
insert_lem = ground arith

absent : entry store (chains []) 7 (server 80) ≡ none
unfolding find find_chain
absent = ground arith

entered-IsIndex : IsIndex store entered
entered-IsIndex = insert-IsIndex store (chains []) 0 7 entered empty-IsIndex refl absent insert_lem

-- The index without the binding 0.
abbrev left : Index
left = record entered { buckets = write entered.buckets (bucket_of entered 7 (server 80)) [] }

remove_lem : remove store entered 0 ≡ (true, left)
unfolding remove unlink
remove_lem = ground arith

find-insert_example :
    entry store entered 7 (server 80)
    ≡ (if is_match store 7 (server 80) 0 then some 0 else entry store (chains []) 7 (server 80))
find-insert_example = find-insert store (chains []) 0 entered 7 (server 80) insert_lem

find-remove_example : entry store left 7 (server 80) ≡ (
    if owned_by (entry store entered 7 (server 80)) 0
    then none
    else entry store entered 7 (server 80))
find-remove_example = find-remove store entered 0 left 7 (server 80) entered-IsIndex remove_lem

-- Five bindings get eight buckets.
abbrev eight : Index
eight = record { buckets = λ _. []; bucket_count = 8 }

init_lem : init (λ _. true) 5 ≡ done eight
unfolding init double
init_lem = refl

init-IsSized_example : IsSized 5 8 × (bucket_of eight 7 (server 80) < 8)
init-IsSized_example = init-IsSized (λ _. true) 5 eight 7 (server 80) init_lem
