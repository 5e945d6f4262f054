-- ===== src/Udp/Life/Frame.antt =====
-- What closing a session leaves alone: the lists of sessions, the count of timeouts, every other
-- session, and of the session itself what its place in those lists depends on.
use bpf2socks.Prelude.{
  ℕ, zero, suc, Bool, false, if◌then◌else◌, write, List, [], ◌∷◌, ◌≡◌, ◌≢◌, refl, ◌∙◌, arith,
  length,
}
use bpf2socks.Udp.{budget_release, State, Session, Stage, Address, Pending, Packet}
use bpf2socks.Udp.Reply.{destroy_binding}
use bpf2socks.Udp.Queue.{release_packet}
use bpf2socks.Udp.Channels.{drain, detach, retire, retire_all, release_session, set_channel}
use bpf2socks.Udp.Life.{release_each, release_pending, destroy_all, close_ends}

abbrev pub Shape : Type 0
Shape = List ℕ × List ℕ × List ℕ × (ℕ → List ℕ) × ℕ × ℕ × ℕ × ℕ × ℕ

abbrev pub shape : State → Shape
shape s = (
  s.lru, s.handshakes, s.free_sessions, s.session_buckets, s.session_count, s.session_cap,
  s.local_session_count, s.idle_timeout_ms, s.stats.associate_timeouts,
)

abbrev pub Identity : Type 0
Identity = Bool × Bool × ℕ × ℕ × Stage × Address

abbrev pub identity : Session → Identity
identity v =
    (v.used, v.handshake_linked, v.handshake_started_ms, v.last_seen_ms, v.stage, v.client_addr)

pub record Frame (i : ℕ) (s : State) (t : State) : Type 0 where
  pub lists : shape t ≡ shape s
  pub others : (j : ℕ) → i ≢ j → t.sessions j ≡ s.sessions j
  pub self : identity (t.sessions i) ≡ identity (s.sessions i)

Frame-refl : (i : ℕ) (s : State) → Frame i s s
Frame-refl i s = record { lists = refl; others = λ j ne. refl; self = refl }

Frame-trans : (i : ℕ) (s t u : State) → Frame i s t → Frame i t u → Frame i s u
Frame-trans i s t u f g = record {
  lists = g.lists ∙ f.lists;
  others = λ j ne. g.others j ne ∙ f.others j ne;
  self = g.self ∙ f.self;
}

release_packet-Frame : (s : State) (i : ℕ) (p : Packet) → Frame i s (release_packet s i p)
unfolding release_packet
release_packet-Frame s i p = record {
  lists = refl;
  others = λ j ne. ground (arith, ne);
  self = ground arith;
}

drain-Frame : (s : State) (i c : ℕ) (ps : List Packet) → Frame i s (drain s i c ps)
unfolding drain
drain-Frame s i c [] = Frame-refl i s
drain-Frame s i c (p ∷ ps) =
    let s1 = set_channel s c (record (s.channels c) { queue = ps }) in
    let f = release_packet-Frame s1 i p in
    Frame-trans i s (release_packet s1 i p) _
      (record { lists = f.lists; others = f.others; self = f.self })
      (drain-Frame (release_packet s1 i p) i c ps)

detach-Frame : (s : State) (i c : ℕ) → Frame i s (detach s i c)
unfolding detach
detach-Frame s i c = record {
  lists = refl;
  others = λ j ne. ground (arith, ne);
  self = ground arith;
}

retire-Frame : (s : State) (i c : ℕ) → Frame i s (retire s i c)
unfolding retire
retire-Frame s i c =
    let s1 = detach s i c in
    let f = drain-Frame s1 i c (s1.channels c).queue in
    Frame-trans i s s1 _ (detach-Frame s i c)
      (record { lists = f.lists; others = f.others; self = f.self })

retire_all-Frame : (fuel : ℕ) (s : State) (i : ℕ) → Frame i s (retire_all fuel s i)
unfolding retire_all
retire_all-Frame zero s i = Frame-refl i s
retire_all-Frame (suc fuel) s i = go (s.sessions i).channels refl (λ t. retire_all-Frame fuel t i)
  where
    go :
        (cs : List ℕ)
        → (s.sessions i).channels ≡ cs
        → ((t : State) → Frame i t (retire_all fuel t i))
        → Frame i s (retire_all (suc fuel) s i)
    go [] e ih = rw (retire_all, e) (Frame-refl i s)
    go (c ∷ cs) e ih =
        rw (retire_all, e)
          (Frame-trans i s (retire s i c) _ (retire-Frame s i c) (ih (retire s i c)))

release_session-Frame : (s : State) (i : ℕ) → Frame i s (release_session s i)
unfolding release_session
release_session-Frame s i =
    let s1 = retire_all (length (s.sessions i).channels) s i in
    Frame-trans i s s1 _ (retire_all-Frame (length (s.sessions i).channels) s i)
      (record { lists = ground arith; others = λ j ne. ground (arith, ne); self = ground arith })

release_each-Frame : (s : State) (i : ℕ) (ps : List Pending) → Frame i s (release_each s ps)
unfolding release_each
release_each-Frame s i [] = Frame-refl i s
release_each-Frame s i (p ∷ ps) =
    let f = release_each-Frame (budget_release s p.allocation_bytes) i ps in
    record { lists = f.lists; others = f.others; self = f.self }

release_pending-Frame : (s : State) (i : ℕ) → Frame i s (release_pending s i)
unfolding release_pending
release_pending-Frame s i =
    let s1 = release_each s (s.sessions i).pending in
    Frame-trans i s s1 _ (release_each-Frame s i (s.sessions i).pending)
      (record { lists = refl; others = λ j ne. ground (arith, ne); self = ground arith })

pub destroy_binding-Frame : (s : State) (i b : ℕ) → Frame i s (destroy_binding s i b)
unfolding destroy_binding
destroy_binding-Frame s i b = record {
  lists = refl;
  others = λ j ne. ground (arith, ne);
  self = ground arith;
}

destroy_all-Frame : (fuel : ℕ) (s : State) (i : ℕ) → Frame i s (destroy_all fuel s i)
unfolding destroy_all
destroy_all-Frame zero s i = Frame-refl i s
destroy_all-Frame (suc fuel) s i = go (s.sessions i).bindings refl (λ t. destroy_all-Frame fuel t i)
  where
    go :
        (bs : List ℕ)
        → (s.sessions i).bindings ≡ bs
        → ((t : State) → Frame i t (destroy_all fuel t i))
        → Frame i s (destroy_all (suc fuel) s i)
    go [] e ih = rw (destroy_all, e) (Frame-refl i s)
    go (b ∷ bs) e ih =
        rw (destroy_all, e)
          (Frame-trans i s (destroy_binding s i b) _ (destroy_binding-Frame s i b)
            (ih (destroy_binding s i b)))

-- Everything that `session_close` does before it clears the session.
abbrev pub emptied : State → ℕ → State
emptied s i = let s1 = close_ends s i in destroy_all (length (s1.sessions i).bindings) s1 i

close_ends-Frame : (s : State) (i : ℕ) → Frame i s (close_ends s i)
unfolding close_ends
close_ends-Frame s i =
    let s1 = record s {
      relay_ports =
          if (s.sessions i).relay_port_claimed
          then write s.relay_ports (s.sessions i).relay_port false
          else s.relay_ports;
    } in
    let s2 = release_pending s1 i in
    let f = release_pending-Frame s1 i in
    let g = release_session-Frame s2 i in
    record {
      lists = g.lists ∙ f.lists;
      others = λ j ne. g.others j ne ∙ f.others j ne;
      self = g.self ∙ f.self;
    }

pub emptied-Frame : (s : State) (i : ℕ) → Frame i s (emptied s i)
emptied-Frame s i =
    let s1 = close_ends s i in
    Frame-trans i s s1 (emptied s i) (close_ends-Frame s i)
      (destroy_all-Frame (length (s1.sessions i).bindings) s1 i)
