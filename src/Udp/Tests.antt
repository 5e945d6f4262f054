-- ===== src/Udp/Tests.antt =====
-- The theorems on sessions, bindings and queued replies at one worker.
use bpf2socks.Prelude.{
  ℕ, ◌+◌, Bool, true, false, Option, some, [], ◌∷◌, ◌≡◌, refl, arith, write, All, ◌⊎◌, enobufs,
}
use bpf2socks.Prelude.Outcome.{done, fail}
use bpf2socks.Lru.{Lru, empty, add_tail, touch}
use bpf2socks.Lru.Chain.{Holds, empty-Holds}
use bpf2socks.Lru.Append.{add_tail-Holds}
use bpf2socks.Udp.{State, to_tail}
use bpf2socks.Udp.Lists.{touch-to_tail}
use bpf2socks.Udp.Reply.{ensure_binding_capacity}
use bpf2socks.Udp.Reply.Create.{Request, create_binding}
use bpf2socks.Udp.Reply.Pool.{IsPool}
use bpf2socks.Udp.Reply.Evict.{HasRoom, Keeps, ensure_binding_capacity-HasRoom}
use bpf2socks.Udp.Reply.Created.{IsCreated, create_binding-IsCreated}
use bpf2socks.Udp.Reply.Domain.{find_by_domain_port, IsFound, Beats, find_by_domain_port_lem}
use bpf2socks.Udp.Queue.{reserve_slots}
use bpf2socks.Udp.Queue.Slots.{Reserved, reserve_slots-Reserved}
use bpf2socks.Udp.Life.{session_drop}
use bpf2socks.Udp.Life.Drop.{IsSessions}
use bpf2socks.Udp.Life.Victim.{alloc_session, is_eligible, IsAllocated, alloc_session-IsAllocated}
use bpf2socks.Udp.Life.Memory.{held_bytes, session_drop-bytes}
use bpf2socks.Udp.Life.Expire.{session_expire_idle}
use bpf2socks.Udp.Life.Expire.Handshakes.{IsExpired, expire_handshakes-IsExpired}
use bpf2socks.Udp.Life.Expire.Idle.{survivors, session_expire_idle-survivors}
use bpf2socks.Udp.Fixtures.{relaying, shaking, server, worker}

worker-IsPool : IsPool worker
worker-IsPool = record {
  counted = refl;
  capped = refl;
  distinct = ground arith;
  distinct_free = tt;
  apart = ground arith;
  owned = ground arith;
}

worker-IsSessions : IsSessions worker
worker-IsSessions = record {
  counted = refl;
  capped = refl;
  distinct = ground arith;
  distinct_free = ground arith;
  apart = ground arith;
  used = ground arith;
  distinct_handshakes = ground arith;
  linked = ground arith;
  handshaking = ground arith;
}

-- All sessions in use have replies waiting, and no slot is free.
abbrev draining : State
draining = record worker {
  sessions =
      write (write worker.sessions 0 (record relaying { downlink_pending_count = 1 })) 1
        (record shaking { waiting_budget = true });
  free_sessions = [];
  session_cap = 2;
}

draining-IsSessions : IsSessions draining
draining-IsSessions = record {
  counted = refl;
  capped = refl;
  distinct = ground arith;
  distinct_free = tt;
  apart = ground arith;
  used = ground arith;
  distinct_handshakes = ground arith;
  linked = ground arith;
  handshaking = ground arith;
}

abbrev request : Request
request = record {
  original = record server { port = 80 };
  token = 127 ∷ 8 ∷ 0 ∷ 2 ∷ [];
  connected_udp_token = false;
  needs_original_reply_socket = true;
  fullcone = false;
}

create_binding-IsCreated_example :
    (result : State × Option ℕ) × (create_binding (λ _. some (17, false)) 3000 worker 1 request
      ≡ done result)
    × IsCreated 1 request.original result
create_binding-IsCreated_example =
    create_binding-IsCreated (λ _. some (17, false)) 3000 worker 1 request worker-IsPool

ensure_binding_capacity-HasRoom_example :
    (t : State) × (room : Bool) × (ensure_binding_capacity 2 worker ≡ done (t, room))
    × HasRoom t room
    × IsPool t
    × Keeps worker t
ensure_binding_capacity-HasRoom_example =
    ensure_binding_capacity-HasRoom 2 worker worker-IsPool (ground arith)

alloc_session-IsAllocated_example :
    IsAllocated draining 2
    ⊎ ((alloc_session 2 draining ≡ fail enobufs)
        × (draining.free_sessions ≡ [])
        × All (λ j. is_eligible false (draining.sessions j) ≡ false) draining.lru)
alloc_session-IsAllocated_example = alloc_session-IsAllocated draining draining-IsSessions

session_drop-bytes_example :
    (session_drop worker 1).budget_used + held_bytes worker 1 ≡ worker.budget_used
session_drop-bytes_example = session_drop-bytes worker 1 (ground arith) tt (ground arith)

expire_handshakes-IsExpired_example : IsExpired 2 5000 8000 worker
expire_handshakes-IsExpired_example =
    expire_handshakes-IsExpired 2 5000 8000 worker worker-IsSessions (ground arith)

session_expire_idle-survivors_example :
    IsSessions (session_expire_idle 61500 worker)
    × ((session_expire_idle 61500 worker).lru ≡ survivors 60000 61500 worker.sessions (0 ∷ 1 ∷ []))
session_expire_idle-survivors_example =
    session_expire_idle-survivors 61500 worker worker-IsSessions (ground arith) (ground arith)

find_by_domain_port_lem_example :
    IsFound worker.bindings 443 (find_by_domain_port worker 0 443) (worker.sessions 0).bindings
    × All
        (Beats worker.bindings 443 (find_by_domain_port worker 0 443))
        (worker.sessions 0).bindings
find_by_domain_port_lem_example = find_by_domain_port_lem worker 0 443

-- Four datagrams do not fit into the budget, two neither.
reserve_slots-Reserved_example : Reserved worker 4 (reserve_slots worker 4)
reserve_slots-Reserved_example = reserve_slots-Reserved worker 4 (ground arith) (ground arith) refl

abbrev two_nodes : Lru
two_nodes = add_tail (add_tail empty 5) 6

two_nodes-Holds : Holds two_nodes (5 ∷ 6 ∷ [])
two_nodes-Holds =
    add_tail-Holds (add_tail empty 5) (5 ∷ []) 6 (add_tail-Holds empty [] 5 empty-Holds tt)
      (ground arith)

touch-to_tail_example : Holds (touch two_nodes 5) (to_tail 5 (5 ∷ 6 ∷ []))
touch-to_tail_example = touch-to_tail two_nodes 5 (5 ∷ 6 ∷ []) two_nodes-Holds (ground arith)
