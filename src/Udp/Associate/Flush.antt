-- ===== src/Udp/Associate/Flush.antt =====
-- The flush of the datagrams that waited for an association, in bridge/udp_associate.c.
use bpf2socks.Prelude.{
  ℕ, zero, suc, ◌+◌, ◌≤◌, ◌<◌, Bool, true, false, Option, none, some, List, [], ◌∷◌, length, take,
  drop, ◌≡◌, refl, ap, ◌∙◌, arith, length-drop,
}
use bpf2socks.Prelude.Outcome.{done}
use bpf2socks.Udp.{State, Stats, Pending, set_session, lru_touch}
use bpf2socks.Udp.Life.Memory.{pending_bytes, release_each_lem}
use bpf2socks.Udp.Associate.Uplink.{
  Sending, relay_send_batch, settle_batch, max_batch, after_batch, flush_batch, flush_pending,
}

settle_batch_lem :
    (s : State) (i : ℕ) (batch later : List Pending) (stats : Stats) (now : ℕ)
    → pending_bytes batch ≤ s.budget_used
    → ((settle_batch s i batch later stats now).budget_used + pending_bytes batch ≡ s.budget_used)
      × (((settle_batch s i batch later stats now).sessions i).pending ≡ later)
settle_batch_lem s i batch later stats now h =
    let s2 =
      set_session (record s { stats = stats }) i (record (s.sessions i) { last_seen_ms = now }) in
    ((release_each_lem (lru_touch s2 i) batch h).0, ground arith)

pending_bytes-take :
    (n : ℕ) (ps : List Pending)
    → pending_bytes (take n ps) + pending_bytes (drop n ps) ≡ pending_bytes ps
pending_bytes-take zero ps = omega arith
pending_bytes-take (suc n) [] = omega arith
pending_bytes-take (suc n) (p ∷ ps) = omega (arith, pending_bytes-take n ps)

-- What the flush of the waiting datagrams comes to.
pub record IsFlushed (fuel : ℕ) (answers : ℕ → List Sending) (now : ℕ) (s : State) (i : ℕ)
    : Type 0 where
  pub state : State
  pub good : Bool
  pub result : flush_pending fuel answers now s i ≡ done (state, good)
  pub used :
      state.budget_used + pending_bytes (s.sessions i).pending
      ≡ s.budget_used + pending_bytes (state.sessions i).pending
  pub emptied : good ≡ true → (state.sessions i).pending ≡ []

-- With more rounds than datagrams wait, whose bytes are part of the budget, the flush ends.
-- Where it succeeds none is left; and it gives the budget back exactly the bytes of the
-- datagrams that no longer wait.
pub flush_pending-IsFlushed :
    (fuel : ℕ) (answers : ℕ → List Sending) (now : ℕ) (s : State) (i : ℕ)
    → length (s.sessions i).pending < fuel
    → pending_bytes (s.sessions i).pending ≤ s.budget_used
    → IsFlushed fuel answers now s i
unfolding flush_pending
flush_pending-IsFlushed zero answers now s i h b = absurd (omega arith)
flush_pending-IsFlushed (suc fuel) answers now s i h b =
    go (s.sessions i).pending refl (λ u. flush_pending-IsFlushed fuel answers now u i)
  where
    batched :
        (ps : List Pending)
        → (s.sessions i).pending ≡ ps
        → ((u : State)
            → length (u.sessions i).pending < fuel
            → pending_bytes (u.sessions i).pending ≤ u.budget_used
            → IsFlushed fuel answers now u i)
        → 0 < length ps
        → flush_pending (suc fuel) answers now s i
          ≡ after_batch
              (λ t. flush_pending fuel answers now t i)
              s
              i
              ps
              now
              (relay_send_batch (answers fuel) s.stats (length (take max_batch ps)))
        → (r : Option (Stats × ℕ))
        → relay_send_batch (answers fuel) s.stats (length (take max_batch ps)) ≡ r
        → IsFlushed (suc fuel) answers now s i
    batched ps e ih pos begin none er = record {
      state = s;
      good = false;
      result = begin ∙ ap (after_batch (λ t. flush_pending fuel answers now t i) s i ps now) er;
      used = refl;
      emptied = λ f. cc;
    }
    batched ps e ih pos begin (some (stats, n)) er =
        let u = settle_batch s i (take max_batch ps) (drop max_batch ps) stats now in
        let parts = pending_bytes-take max_batch ps in
        let whole : pending_bytes (s.sessions i).pending ≡ pending_bytes ps = ap pending_bytes e in
        let (back, later) =
          settle_batch_lem s i (take max_batch ps) (drop max_batch ps) stats now
            (omega (arith, parts, whole, b)) in
        let bytes_left = ap pending_bytes later in
        let shorter : length (u.sessions i).pending < fuel =
          omega (arith, ap length later, length-drop max_batch ps, ap length e, h, pos) in
        let r = ih u shorter (omega (arith, bytes_left, back, parts, whole, b)) in
        record {
          state = r.state;
          good = r.good;
          result =
              begin
              ∙ ap (after_batch (λ t. flush_pending fuel answers now t i) s i ps now) er
              ∙ r.result;
          used = omega (arith, r.used, bytes_left, back, parts, whole);
          emptied = r.emptied;
        }

    go :
        (ps : List Pending)
        → (s.sessions i).pending ≡ ps
        → ((u : State)
            → length (u.sessions i).pending < fuel
            → pending_bytes (u.sessions i).pending ≤ u.budget_used
            → IsFlushed fuel answers now u i)
        → IsFlushed (suc fuel) answers now s i
    go [] e ih = record {
      state = s;
      good = true;
      result = ap (flush_batch (λ t. flush_pending fuel answers now t i) (answers fuel) now s i) e;
      used = refl;
      emptied = λ f. e;
    }
    go (p ∷ ps) e ih =
        batched (p ∷ ps) e ih (omega arith)
          (ap (flush_batch (λ t. flush_pending fuel answers now t i) (answers fuel) now s i) e)
          (relay_send_batch (answers fuel) s.stats (length (take max_batch (p ∷ ps)))) refl
