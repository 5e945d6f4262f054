-- ===== src/Udp/Life/Memory.antt =====
-- The memory of a session: dropping it gives back to the budget exactly the bytes of the datagrams
-- that wait for its association and of those that wait in its channels.
use bpf2socks.Prelude.{
  ℕ, zero, suc, ◌+◌, ◌≤◌, true, false, List, [], ◌∷◌, ◌≡◌, refl, ◌∙◌, ap, arith, length,
  if◌then◌else◌, write,
}
use bpf2socks.Lru.Chain.{Distinct}
use bpf2socks.Udp.{State, Pending, budget_release}
use bpf2socks.Udp.Reply.{destroy_binding}
use bpf2socks.Udp.Channels.Drain.{channel_bytes, release_session-bytes}
use bpf2socks.Udp.Life.{
  release_each, release_pending, destroy_all, close_ends, session_close, session_unlink,
  session_drop,
}

abbrev pub pending_bytes : List Pending → ℕ
pending_bytes [] = 0
pending_bytes (p ∷ ps) = p.allocation_bytes + pending_bytes ps

-- All bytes that a session is charged.
abbrev pub held_bytes : State → ℕ → ℕ
held_bytes s i =
    pending_bytes (s.sessions i).pending + channel_bytes s.channels (s.sessions i).channels

pub release_each_lem :
    (s : State) (ps : List Pending)
    → pending_bytes ps ≤ s.budget_used
    → ((release_each s ps).budget_used + pending_bytes ps ≡ s.budget_used)
      × ((release_each s ps).channels ≡ s.channels)
      × ((release_each s ps).sessions ≡ s.sessions)
unfolding release_each
release_each_lem s [] h = (omega arith, refl, refl)
release_each_lem s (p ∷ ps) h =
    let t = budget_release s p.allocation_bytes in
    let used : t.budget_used + p.allocation_bytes ≡ s.budget_used = ground arith in
    let r = release_each_lem t ps (omega (arith, used)) in (omega (arith, r.0, used), r.1, r.2)

release_pending_lem :
    (s : State) (i : ℕ)
    → pending_bytes (s.sessions i).pending ≤ s.budget_used
    → let t = release_pending s i in
      (t.budget_used + pending_bytes (s.sessions i).pending ≡ s.budget_used)
      × (t.channels ≡ s.channels)
      × ((t.sessions i).channels ≡ (s.sessions i).channels)
unfolding release_pending
release_pending_lem s i h =
    let r = release_each_lem s (s.sessions i).pending h in
    (r.0, r.1, ground (arith, ap (λ f. (f i).channels) r.2))

destroy_binding_used : (s : State) (i b : ℕ) → (destroy_binding s i b).budget_used ≡ s.budget_used
unfolding destroy_binding
destroy_binding_used s i b = refl

destroy_all_used : (n : ℕ) (s : State) (i : ℕ) → (destroy_all n s i).budget_used ≡ s.budget_used
unfolding destroy_all
destroy_all_used zero s i = refl
destroy_all_used (suc n) s i = go (s.sessions i).bindings refl (λ t. destroy_all_used n t i)
  where
    go :
        (bs : List ℕ)
        → (s.sessions i).bindings ≡ bs
        → ((t : State) → (destroy_all n t i).budget_used ≡ t.budget_used)
        → (destroy_all (suc n) s i).budget_used ≡ s.budget_used
    go [] e ih = rw (destroy_all, e) refl
    go (b ∷ bs) e ih = rw (destroy_all, e) (ih (destroy_binding s i b) ∙ destroy_binding_used s i b)

close_ends_used :
    (s : State) (i : ℕ)
    → Distinct (s.sessions i).channels
    → held_bytes s i ≤ s.budget_used
    → (close_ends s i).budget_used + held_bytes s i ≡ s.budget_used
unfolding close_ends
close_ends_used s i d h =
    let s1 = record s {
      relay_ports =
          if (s.sessions i).relay_port_claimed
          then write s.relay_ports (s.sessions i).relay_port false
          else s.relay_ports;
    } in
    let p = release_pending_lem s1 i (omega arith) in
    let same : channel_bytes (release_pending s1 i).channels
          ((release_pending s1 i).sessions i).channels
        ≡ channel_bytes s.channels (s.sessions i).channels =
      rw (p.1, p.2) refl in
    let q = release_session-bytes (release_pending s1 i) i (rw p.2 d) (omega (arith, p.0, same)) in
    omega (arith, p.0, q.0, same)

session_unlink_kept :
    (s : State) (i : ℕ)
    → let t = session_unlink s i in
      (t.budget_used ≡ s.budget_used)
      × (t.channels ≡ s.channels)
      × ((t.sessions i).channels ≡ (s.sessions i).channels)
      × ((t.sessions i).pending ≡ (s.sessions i).pending)
      × ((t.sessions i).used ≡ (s.sessions i).used)
unfolding session_unlink
session_unlink_kept s i = ground arith

-- Dropping a session in use, whose channels are distinct and whose bytes are part of the budget,
-- gives back to the budget exactly the bytes of its waiting and its queued datagrams.
pub session_drop-bytes :
    (s : State) (i : ℕ)
    → (s.sessions i).used ≡ true
    → Distinct (s.sessions i).channels
    → held_bytes s i ≤ s.budget_used
    → (session_drop s i).budget_used + held_bytes s i ≡ s.budget_used
unfolding session_drop session_close
session_drop-bytes s i used d h =
    let u = session_unlink s i in
    let k = session_unlink_kept s i in
    let held : held_bytes u i ≡ held_bytes s i = rw (k.1, k.2, k.3) refl in
    let c = close_ends_used u i (rw k.2 d) (omega (arith, held, k.0)) in
    let t = close_ends u i in
    let b = destroy_all_used (length (t.sessions i).bindings) t i in
    rw (used, k.4 ∙ used) (omega (arith, b, c, held, k.0))
