-- ===== src/Udp/Life/Expire/Idle.antt =====
-- `session_expire_idle` over an LRU list that is in the order of the times: exactly the sessions
-- that have been idle for the timeout, and have nothing to send, are gone.
use bpf2socks.Prelude.{
  ℕ, ◌<◌, Bool, true, false, ◌||◌, List, [], ◌∷◌, ◌++◌, append_assoc, ◌≡◌, ◌≢◌, refl, sym, ◌∙◌,
  subst, ap, arith, All, inl, inr, Bool-cases, ◌==◌, if◌then◌else◌, leb,
}
use bpf2socks.Bindings.{contains, unlink}
use bpf2socks.Lru.Chain.{Absent, Distinct, Distinct-without, Absent-left, Absent-right}
use bpf2socks.Udp.{State, Session}
use bpf2socks.Udp.Life.{session_drop}
use bpf2socks.Udp.Life.Drop.{IsSessions, session_drop-Dropped, session_drop-IsSessions}
use bpf2socks.Udp.Reply.Pool.{All-contains}
use bpf2socks.Udp.Life.Victim.{is_draining}
use bpf2socks.Udp.Life.Expire.{elapsed, is_fresh, expire_walk, session_expire_idle}

-- A session that stays.
abbrev pub stays : ℕ → ℕ → Session → Bool
stays timeout now v = is_fresh timeout now v || is_draining v

abbrev pub survivors : ℕ → ℕ → (ℕ → Session) → List ℕ → List ℕ
survivors timeout now f [] = []
survivors timeout now f (i ∷ is) =
    if stays timeout now (f i) then i ∷ survivors timeout now f is else survivors timeout now f is

-- Every session was seen no earlier than those before it: where one is fresh, so are all behind it.
abbrev pub IsInOrder : ℕ → (ℕ → Session) → List ℕ → Type 0
IsInOrder now f [] = Unit {0}
IsInOrder now f (i ∷ is) =
    All (λ j. leb (elapsed now (f j).last_seen_ms) (elapsed now (f i).last_seen_ms) ≡ true) is
    × IsInOrder now f is

unlink-middle : (i : ℕ) (xs ys : List ℕ) → Absent i xs → unlink i (xs ++ i ∷ ys) ≡ xs ++ ys
unfolding unlink
unlink-middle i [] ys a = ground arith
unlink-middle i (x ∷ xs) ys a = ground (arith, a.0, unlink-middle i xs ys a.1)

contains-middle : (i : ℕ) (xs ys : List ℕ) → contains i (xs ++ i ∷ ys) ≡ true
contains-middle i [] ys = ground arith
contains-middle i (x ∷ xs) ys = ground (arith, contains-middle i xs ys)

module _ (timeout now : ℕ) where
  fresh_stay :
      (f : ℕ → Session) (n : ℕ) (is : List ℕ)
      → n < timeout
      → All (λ j. leb (elapsed now (f j).last_seen_ms) n ≡ true) is
      → survivors timeout now f is ≡ is
  fresh_stay f n [] lt h = refl
  fresh_stay f n (j ∷ js) lt h = ground (arith, h.0, fresh_stay f n js lt h.1)

  same_survivors :
      (f g : ℕ → Session) (i : ℕ) (is : List ℕ)
      → ((j : ℕ) → i ≢ j → g j ≡ f j)
      → Absent i is
      → survivors timeout now g is ≡ survivors timeout now f is
  same_survivors f g i [] h a = refl
  same_survivors f g i (j ∷ js) h a = rw (h j a.0, same_survivors f g i js h a.1)

  same_times :
      (f g : ℕ → Session) (i n : ℕ) (is : List ℕ)
      → ((j : ℕ) → i ≢ j → g j ≡ f j)
      → Absent i is
      → All (λ j. leb (elapsed now (f j).last_seen_ms) n ≡ true) is
      → All (λ j. leb (elapsed now (g j).last_seen_ms) n ≡ true) is
  same_times f g i n [] h a o = tt
  same_times f g i n (j ∷ js) h a o = (rw (h j a.0) o.0, same_times f g i n js h a.1 o.1)

  same_order :
      (f g : ℕ → Session) (i : ℕ) (is : List ℕ)
      → ((j : ℕ) → i ≢ j → g j ≡ f j)
      → Absent i is
      → IsInOrder now f is
      → IsInOrder now g is
  same_order f g i [] h a o = tt
  same_order f g i (j ∷ js) h a o =
      (rw (h j a.0) (same_times f g i _ js h a.1 o.0), same_order f g i js h a.1 o.1)

  expire_walk_lem :
      (s : State) (front is : List ℕ)
      → IsSessions s
      → s.lru ≡ front ++ is
      → IsInOrder now s.sessions is
      → IsSessions (expire_walk timeout now s is)
        × ((expire_walk timeout now s is).lru ≡ front ++ survivors timeout now s.sessions is)
  unfolding expire_walk
  expire_walk_lem s front [] v e o = (v, e)
  expire_walk_lem s front (i ∷ is) v e o =
      let member = subst (λ l. contains i l ≡ true) (sym e) (contains-middle i front is) in
      let used = All-contains i s.lru (λ j. (s.sessions j).used ≡ true) v.used member in
      let apart = Distinct-without front i is (subst Distinct e v.distinct) in
      elim (Bool-cases (is_fresh timeout now (s.sessions i))) [
        | inl fresh ↦
            let soon : elapsed now (s.sessions i).last_seen_ms < timeout =
              ground (arith, fresh, used) in
            let all = fresh_stay s.sessions _ is soon o.0 in
            rw fresh (v, e ∙ ap (λ l. front ++ i ∷ l) (sym all))
        | inr stale ↦ elim (Bool-cases (is_draining (s.sessions i))) [
          | inl busy ↦
              let (w, r) =
                expire_walk_lem s (front ++ i ∷ []) is v (e ∙ sym (append_assoc front (i ∷ []) is))
                  o.1 in
              rw (stale, busy) (w, r ∙ append_assoc front (i ∷ []) _)
          | inr idle ↦
              let t = session_drop s i in
              let d = session_drop-Dropped s i used in
              let out = Absent-left i front is apart.1 in
              let out' = Absent-right i front is apart.1 in
              let rest : t.lru ≡ front ++ is =
                d.lru ∙ ap (unlink i) e ∙ unlink-middle i front is out in
              let (w, r) =
                expire_walk_lem t front is (session_drop-IsSessions s i v member) rest
                  (same_order s.sessions t.sessions i is d.others out' o.1) in
              rw (stale, idle)
                (w, r ∙ ap (◌++◌ front) (same_survivors s.sessions t.sessions i is d.others out'))
        ]
      ]

-- At a time that is not 0, with consistent sessions and an LRU list in the order of the times,
-- exactly the sessions stay that were seen within the timeout or are draining, in their order;
-- and the sessions stay consistent.
pub session_expire_idle-survivors :
    (now : ℕ) (s : State)
    → IsSessions s
    → 0 < now
    → IsInOrder now s.sessions s.lru
    → IsSessions (session_expire_idle now s)
      × ((session_expire_idle now s).lru ≡ survivors s.idle_timeout_ms now s.sessions s.lru)
unfolding session_expire_idle
session_expire_idle-survivors now s v pos o =
    let later : (now == 0) ≡ false = ground arith in
    rw later (expire_walk_lem s.idle_timeout_ms now s [] s.lru v refl o)
