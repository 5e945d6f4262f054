-- ===== src/Udp/Reply/Created.antt =====
-- A created binding is found under its key, and the pool of bindings stays a pool, also where
-- `create_binding` fails on the way.
use bpf2socks.Prelude.{
  ℕ, suc, ◌+◌, ◌<◌, Bool, true, false, Option, none, some, List, [], ◌∷◌, ◌++◌, ◌≡◌, refl, subst,
  ◌∙◌, arith, length, length-append, All, All-append, Result, ok, err, take, bytes_equal,
  bytes_equal_iff, write,
}
use bpf2socks.Prelude.Outcome.{done}
use bpf2socks.Bindings.{Sockaddr, Binding, Index, insert, find, is_match, same_key, address_length}
use bpf2socks.Bindings.Lookup.{find-insert}
use bpf2socks.Lru.Chain.{Absent, Distinct, Distinct-snoc}
use bpf2socks.Udp.{State, set_binding, no_binding}
use bpf2socks.Udp.Reply.{alloc_binding, binding_set_reply, release_binding, ensure_binding_capacity}
use bpf2socks.Udp.Reply.Pool.{IsPool, has_owner, apart_after, Absent-apart}
use bpf2socks.Udp.Reply.Evict.{HasRoom, Keeps, ensure_binding_capacity-HasRoom}
use bpf2socks.Udp.Reply.Create.{
  Request, link_binding, fill_binding, own_binding, enter_binding, own_and_enter, with_reply,
  create_binding,
}

-- A pool from which `b` is taken: it is neither in the LRU list nor free.
record Taken (s : State) (b : ℕ) : Type 0 where
  counted : length s.binding_lru ≡ s.binding_count
  capped : length s.free_bindings + s.binding_count + 1 ≡ s.binding_cap
  distinct : Distinct s.binding_lru
  distinct_free : Distinct s.free_bindings
  apart : All (λ c. Absent c s.free_bindings) s.binding_lru
  out : Absent b s.binding_lru
  out_free : Absent b s.free_bindings
  owned : All (λ c. has_owner (s.bindings c) ≡ true) s.binding_lru

apart-tail :
    (b : ℕ) (free bs : List ℕ) → All (λ c. Absent c (b ∷ free)) bs → All (λ c. Absent c free) bs
apart-tail b free [] h = tt
apart-tail b free (c ∷ cs) h = (h.0.1, apart-tail b free cs h.1)

owned-write :
    (f : ℕ → Binding) (b : ℕ) (v : Binding) (bs : List ℕ)
    → Absent b bs
    → All (λ c. has_owner (f c) ≡ true) bs
    → All (λ c. has_owner (write f b v c) ≡ true) bs
owned-write f b v [] a h = tt
owned-write f b v (c ∷ cs) a h = (ground (arith, a.0, h.0), owned-write f b v cs a.1 h.1)

Taken-set_binding : (s : State) (b : ℕ) (v : Binding) → Taken s b → Taken (set_binding s b v) b
Taken-set_binding s b v k = record {
  counted = k.counted;
  capped = k.capped;
  distinct = k.distinct;
  distinct_free = k.distinct_free;
  apart = k.apart;
  out = k.out;
  out_free = k.out_free;
  owned = owned-write s.bindings b v s.binding_lru k.out k.owned;
}

Taken-index :
    (s : State) (b : ℕ) (index : Index) → Taken s b → Taken (record s { binding_index = index }) b
Taken-index s b index k = record {
  counted = k.counted;
  capped = k.capped;
  distinct = k.distinct;
  distinct_free = k.distinct_free;
  apart = k.apart;
  out = k.out;
  out_free = k.out_free;
  owned = k.owned;
}

alloc_binding-Taken :
    (s : State)
    → IsPool s
    → s.binding_count < s.binding_cap
    → (b : ℕ) × (t : State) × (alloc_binding s ≡ ok (b, t)) × Taken t b
unfolding alloc_binding
alloc_binding-Taken s p room = go s.free_bindings refl
  where
    go :
        (free : List ℕ)
        → s.free_bindings ≡ free
        → (b : ℕ) × (t : State) × (alloc_binding s ≡ ok (b, t)) × Taken t b
    go [] e = absurd (ground (arith, e, p.capped))
    go (b ∷ rest) e =
        let capped : length (b ∷ rest) + s.binding_count ≡ s.binding_cap =
          subst (λ f. length f + s.binding_count ≡ s.binding_cap) e p.capped in
        let apart : All (λ c. Absent c (b ∷ rest)) s.binding_lru =
          subst (λ f. All (λ c. Absent c f) s.binding_lru) e p.apart in
        let distinct_free : Distinct (b ∷ rest) = subst Distinct e p.distinct_free in
        let out = Absent-apart b rest s.binding_lru apart in
        (
          b,
          set_binding (record s { free_bindings = rest }) b no_binding,
          rw e refl,
          record {
            counted = p.counted;
            capped = omega (arith, capped);
            distinct = p.distinct;
            distinct_free = distinct_free.1;
            apart = apart-tail b rest s.binding_lru apart;
            out = out;
            out_free = distinct_free.0;
            owned = owned-write s.bindings b no_binding s.binding_lru out p.owned;
          },
        )

release_binding-IsPool : (s : State) (b : ℕ) → Taken s b → IsPool (release_binding s b)
unfolding release_binding
release_binding-IsPool s b k = record {
  counted = k.counted;
  capped = omega (arith, k.capped);
  distinct = k.distinct;
  distinct_free = (k.out_free, k.distinct_free);
  apart = apart_after b s.free_bindings s.binding_lru k.out k.apart;
  owned =
      owned-write _ b no_binding s.binding_lru k.out
        (owned-write s.bindings b _ s.binding_lru k.out k.owned);
}

snoc-All : (P : ℕ → Type 0) (b : ℕ) (bs : List ℕ) → All P bs → P b → All P (bs ++ b ∷ [])
snoc-All P b bs h pb = All-append P bs (b ∷ []) h (pb, tt)

link_binding-IsPool :
    (s : State) (i b : ℕ) (fullcone : Bool)
    → Taken s b
    → has_owner (s.bindings b) ≡ true
    → IsPool (link_binding s i b fullcone)
unfolding link_binding
link_binding-IsPool s i b fullcone k own = record {
  counted = omega (arith, length-append s.binding_lru (b ∷ []), k.counted);
  capped = omega (arith, k.capped);
  distinct = Distinct-snoc s.binding_lru b k.distinct k.out;
  distinct_free = k.distinct_free;
  apart = snoc-All (λ c. Absent c s.free_bindings) b s.binding_lru k.apart k.out_free;
  owned = snoc-All (λ c. has_owner (s.bindings c) ≡ true) b s.binding_lru k.owned own;
}

-- A new binding answers to the key it was made for.
abbrev Answers : State → ℕ → Sockaddr → Option ℕ → Type 0
Answers s i x none = Unit {0}
Answers s i x (some b) = (find s.bindings s.binding_index i x).0 ≡ some b

abbrev pub IsCreated : ℕ → Sockaddr → State × Option ℕ → Type 0
IsCreated i x (s, b) = IsPool s × Answers s i x b

enter_binding-IsCreated :
    (s : State) (i b : ℕ) (fullcone : Bool) (r : Result Index) (x : Sockaddr)
    → Taken s b
    → has_owner (s.bindings b) ≡ true
    → is_match s.bindings i x b ≡ true
    → insert s.bindings s.binding_index b ≡ r
    → IsCreated i x (enter_binding s i b fullcone r)
unfolding link_binding
enter_binding-IsCreated s i b fullcone (err e) x k own m h = (release_binding-IsPool s b k, tt)
enter_binding-IsCreated s i b fullcone (ok index) x k own m h = (
  link_binding-IsPool (record s { binding_index = index }) i b fullcone (Taken-index s b index k)
      own,
  find-insert s.bindings s.binding_index b index i x h ∙ rw m,
)

bytes_equal_self : (xs : List ℕ) → bytes_equal xs xs ≡ true
bytes_equal_self xs = (bytes_equal_iff xs xs).1 refl

same_key_self :
    (v : Binding) (i : ℕ) (x : Sockaddr)
    → v.owner ≡ some i
    → v.original_dst ≡ x
    → same_key v i x ≡ true
unfolding same_key
same_key_self v i x own e =
    rw (own, e) (ground (arith, bytes_equal_self (take (address_length x) x.addr)))

own_and_enter-IsCreated :
    (s : State) (i b : ℕ) (fullcone : Bool) (x : Sockaddr)
    → Taken s b
    → (s.bindings b).original_dst ≡ x
    → IsCreated i x (own_and_enter s i b fullcone)
unfolding own_and_enter
own_and_enter-IsCreated s i b fullcone x k e =
    let t = own_binding s i b in
    enter_binding-IsCreated t i b fullcone (insert t.bindings t.binding_index b) x
      (Taken-set_binding s b (record (s.bindings b) { used = true; owner = some i }) k)
      (ground arith) (ground (arith, same_key_self (t.bindings b) i x, e)) refl

set_reply-IsCreated :
    (s : State) (i b fd : ℕ) (reply_raw fullcone : Bool) (x : Sockaddr)
    → Taken s b
    → (s.bindings b).original_dst ≡ x
    → IsCreated i x (own_and_enter (binding_set_reply s b fd reply_raw) i b fullcone)
unfolding binding_set_reply
set_reply-IsCreated s i b fd reply_raw fullcone x k e =
    own_and_enter-IsCreated (binding_set_reply s b fd reply_raw) i b fullcone x
      (Taken-set_binding s b _ k) (ground (arith, e))

with_reply-IsCreated :
    (s : State) (i b : ℕ) (fullcone needs : Bool) (socket : Option (ℕ × Bool)) (x : Sockaddr)
    → Taken s b
    → (s.bindings b).original_dst ≡ x
    → IsCreated i x (with_reply s i b fullcone needs socket)
with_reply-IsCreated s i b fullcone false socket x k e =
    own_and_enter-IsCreated s i b fullcone x k e
with_reply-IsCreated s i b fullcone true none x k e = (release_binding-IsPool s b k, tt)
with_reply-IsCreated s i b fullcone true (some (fd, reply_raw)) x k e =
    set_reply-IsCreated s i b fd reply_raw fullcone x k e

-- From a well-formed pool of bindings, `create_binding` ends, at every reply socket it gets or
-- does not get: the bindings in use and the free ones still make up the pool, and where it
-- returns a binding, that one is found under its session and destination.
pub create_binding-IsCreated :
    (socket : Sockaddr → Option (ℕ × Bool)) (now : ℕ) (s : State) (i : ℕ) (r : Request)
    → IsPool s
    → (result : State × Option ℕ) × (create_binding socket now s i r ≡ done result)
      × IsCreated i r.original result
unfolding create_binding
create_binding-IsCreated socket now s i r p =
    go (ensure_binding_capacity-HasRoom (suc (length s.binding_lru)) s p (omega arith))
  where
    go :
        (t : State) × (room : Bool) × (ensure_binding_capacity (suc (length s.binding_lru)) s
            ≡ done (t, room))
          × HasRoom t room
          × IsPool t
          × Keeps s t
        → (result : State × Option ℕ) × (create_binding socket now s i r ≡ done result)
          × IsCreated i r.original result
    go (t, false, e, h, q, k) = ((t, none), rw e refl, (q, tt))
    go (t, true, e, h, q, k) =
        let (b, u, a, taken) = alloc_binding-Taken t q h in
        (
          with_reply (fill_binding u b r now) i b r.fullcone r.needs_original_reply_socket
              (socket r.original),
          rw (e, a) refl,
          with_reply-IsCreated (fill_binding u b r now) i b r.fullcone r.needs_original_reply_socket
              (socket r.original) r.original (Taken-set_binding u b _ taken) (ground arith),
        )
