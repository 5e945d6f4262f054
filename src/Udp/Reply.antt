-- ===== src/Udp/Reply.antt =====
-- The reply bindings of bridge/udp_session.c: their free list, their two LRU lists, eviction, and
-- the creation of a binding.
pub mod Create
pub mod Created
pub mod Evict
pub mod Pool
pub mod Domain
use bpf2socks.Prelude.{
  ℕ, zero, suc, ◌+◌, ◌-◌, ◌==◌, Bool, true, false, ◌&&◌, ◌||◌, not, Option, none, some, List, [],
  ◌∷◌, ◌++◌, if◌then◌else◌, ltb, leb, take, drop, length, bytes_equal, replicate, Result, ok, err,
  Errno, enomem,
}
use bpf2socks.Prelude.Outcome.{Outcome, done, fail, out_of_fuel, ◌>>=◌}
use bpf2socks.Bindings.{
  Sockaddr, Binding, Index, af_inet, af_inet6, unlink, find, insert, remove, owned_by,
}
use bpf2socks.Token.{Mode}
use bpf2socks.Udp.{
  State, Session, Stats, no_binding, set_session, set_binding, is_last, to_tail, close_fd,
  decrement,
}

-- `bpf2socks_udp_binding_lru_touch`.
unfoldable pub binding_lru_touch : State → ℕ → ℕ → State
binding_lru_touch s i b =
    let s1 =
      set_session s i
        (record (s.sessions i) { binding_lru = to_tail b (s.sessions i).binding_lru }) in
    record s1 { binding_lru = to_tail b s1.binding_lru }

-- The head of the free list, cleared.
abbrev pub pop_binding : State → List ℕ → Result (ℕ × State)
pop_binding s [] = err enomem
pop_binding s (b ∷ rest) = ok (b, set_binding (record s { free_bindings = rest }) b no_binding)

unfoldable pub alloc_binding : State → Result (ℕ × State)
alloc_binding s = pop_binding s s.free_bindings

-- `bpf2socks_udp_binding_close_reply`.
unfoldable pub binding_close_reply : State → ℕ → State
binding_close_reply s b =
    let v = s.bindings b in
    set_binding (close_fd s v.reply_fd) b (record v {
      reply_fd = none;
      reply_raw = false;
      reply_fd_generation = v.reply_fd_generation + 1;
    })

-- `bpf2socks_udp_binding_set_reply`.
unfoldable pub binding_set_reply : State → ℕ → ℕ → Bool → State
binding_set_reply s b fd reply_raw =
    let v = s.bindings b in
    set_binding s b (record v {
      reply_fd = some fd;
      reply_raw = reply_raw;
      reply_fd_generation = v.reply_fd_generation + 1;
    })

unfoldable pub release_binding : State → ℕ → State
unfolding binding_close_reply
release_binding s b =
    let s1 = set_binding (binding_close_reply s b) b no_binding in
    record s1 { free_bindings = b ∷ s1.free_bindings }

-- A session without one of its bindings.
abbrev pub without_binding : Session → ℕ → Session
without_binding v b = record v {
  bindings = unlink b v.bindings;
  binding_lru = unlink b v.binding_lru;
  binding_count = decrement v.binding_count;
}

unfoldable pub destroy_binding : State → ℕ → ℕ → State
unfolding release_binding
destroy_binding s i b =
    let s1 = record s { binding_index = (remove s.bindings s.binding_index b).1 } in
    let s2 = set_session s1 i (without_binding (s1.sessions i) b) in
    let s3 = record s2 {
      binding_lru = unlink b s2.binding_lru;
      binding_count = decrement s2.binding_count;
    } in
    release_binding s3 b

-- The first binding of an LRU list with no datagram waiting.
unfoldable pub first_idle : State → List ℕ → Option ℕ
first_idle s [] = none
first_idle s (b ∷ bs) =
    if ltb 0 (s.bindings b).downlink_pending_count then first_idle s bs else some b

abbrev pub evict_found : State → Option ℕ → Option ℕ → Result State
evict_found s none session = err enomem
evict_found s (some b) none = err enomem
evict_found s (some b) (some i) =
    let s1 = destroy_binding s i b in
    ok
      (record s1 { stats = record s1.stats { binding_evictions = s1.stats.binding_evictions + 1 } })

-- The owner of a binding that may be none.
abbrev pub owner_of : State → Option ℕ → Option ℕ
owner_of s none = none
owner_of s (some b) = (s.bindings b).owner

-- Of a session, or of all sessions where there is none.
unfoldable pub evict_binding : State → Option ℕ → Result State
evict_binding s (some i) = evict_found s (first_idle s (s.sessions i).binding_lru) (some i)
evict_binding s none = let b = first_idle s s.binding_lru in evict_found s b (owner_of s b)

-- False when no binding can go; what was evicted before stays evicted.
unfoldable pub ensure_binding_capacity : ℕ → State → Outcome (State × Bool)
ensure_binding_capacity zero s = out_of_fuel
ensure_binding_capacity (suc fuel) s =
    let more : Outcome (State × Bool) = elim (evict_binding s none) [
      | ok s1 ↦ ensure_binding_capacity fuel s1
      | err e ↦ done (s, false)
    ] in
    if leb s.binding_cap s.binding_count then more else done (s, true)

abbrev pub count_lookup : State → ℕ → State
count_lookup s steps = record s {
  stats = record s.stats {
    hash_lookups = s.stats.hash_lookups + 1;
    hash_collision_steps = s.stats.hash_collision_steps + steps;
  };
}

-- `bpf2socks_udp_binding_find`.
unfoldable pub binding_find : State → ℕ → Sockaddr → Option ℕ × State
binding_find s i original =
    let (binding, steps) = find s.bindings s.binding_index i original in
    (binding, count_lookup s steps)
