-- ===== src/Udp/Life/Expire/Handshakes.antt =====
-- `session_expire_handshakes` ends, and drops the late handshakes at the head of its list, and no others.
use bpf2socks.Prelude.{
  ℕ, zero, suc, ◌+◌, ◌-◌, ◌%◌, ◌^◌, ◌≤◌, ◌++◌, ◌<◌, true, false, List, [], ◌∷◌, ◌≡◌, refl, sym, ◌∙◌,
  subst, ap, arith, All, ◌≢◌, length, ◌⊎◌, inl, inr, Bool-cases, ◌==◌, if◌then◌else◌,
}
use bpf2socks.Prelude.Outcome.{Outcome, done}
use bpf2socks.Bindings.{contains, unlink}
use bpf2socks.Lru.Chain.{Absent, Distinct, Absent-left, Absent-right}
use bpf2socks.Udp.{State, Session}
use bpf2socks.Udp.Reply.Pool.{All-contains}
use bpf2socks.Udp.Life.{session_drop}
use bpf2socks.Udp.Life.Drop.{
  IsSessions, session_drop-Dropped, session_drop-IsSessions, IsSessions-stats, is_linked,
}
use bpf2socks.Udp.Life.Expire.{is_late, expire_head, expire_handshakes}

-- The time is known, and at least `timeout` has passed since the handshake began, on a 64-bit clock.
abbrev pub IsLate : ℕ → ℕ → Session → Type 0
IsLate timeout now v = (now ≢ 0) × (timeout ≤ (now + 2 ^ 64 - v.handshake_started_ms) % 2 ^ 64)

is_late-IsLate :
    (timeout now : ℕ) (v : Session) → is_late timeout now v ≡ true → IsLate timeout now v
is_late-IsLate timeout now v h = (ground (arith, h), ground (arith, h))

not-IsLate :
    (timeout now : ℕ) (v : Session) → is_late timeout now v ≡ false → ¬ IsLate timeout now v
not-IsLate timeout now v h l = ground (arith, h, l.0, l.1)

-- The oldest handshake of a list, if there is one, still has time.
abbrev pub IsTimely : ℕ → ℕ → State → List ℕ → Type 0
IsTimely timeout now s [] = Unit {0}
IsTimely timeout now s (i ∷ is) = ¬ IsLate timeout now (s.sessions i)

-- A session outside a list is as it was.
abbrev pub Spares : State → State → List ℕ → Type 0
Spares s t is = (j : ℕ) → (contains j is ≡ true) ⊎ (t.sessions j ≡ s.sessions j)

-- What the loop comes to: the handshakes of `gone` are dropped, those of `rest` are left.
pub record IsExpired (fuel timeout now : ℕ) (s : State) : Type 0 where
  pub state : State
  pub result : expire_handshakes fuel timeout now s ≡ done state
  pub gone : List ℕ
  pub rest : List ℕ
  pub parts : s.handshakes ≡ gone ++ rest
  pub left : state.handshakes ≡ rest
  pub late : All (λ i. IsLate timeout now (s.sessions i)) gone
  pub timely : IsTimely timeout now s rest
  pub dropped : All (λ i. (state.sessions i).used ≡ false) gone
  pub spares : Spares s state gone
  pub counted : state.stats.associate_timeouts ≡ s.stats.associate_timeouts + length gone
  pub sessions : IsSessions state

abbrev timed_out : State → State
timed_out s = record s {
  stats = record s.stats { associate_timeouts = s.stats.associate_timeouts + 1 };
}

-- What dropping the head of the handshake list does.
head_dropped :
    (s : State) (i : ℕ) (is : List ℕ)
    → IsSessions s
    → s.handshakes ≡ i ∷ is
    → let t = session_drop (timed_out s) i in
      IsSessions t
      × (t.handshakes ≡ is)
      × ((t.sessions i).used ≡ false)
      × (t.stats.associate_timeouts ≡ s.stats.associate_timeouts + 1)
      × ((j : ℕ) → i ≢ j → t.sessions j ≡ s.sessions j)
unfolding unlink
head_dropped s i is v e =
    let linked = (subst (All (λ j. is_linked (s.sessions j) ≡ true)) e v.linked).0 in
    let here = (subst (All (λ j. contains j s.lru ≡ true)) e v.handshaking).0 in
    let d = session_drop-Dropped (timed_out s) i (ground (arith, linked)) in
    let marked : (s.sessions i).handshake_linked ≡ true = ground (arith, linked) in
    (
      session_drop-IsSessions (timed_out s) i (IsSessions-stats s _ v) here,
      d.handshakes ∙ unlinked marked,
      ap (λ (w : Session). w.used) d.cleared,
      d.timeouts,
      d.others,
    )
  where
    unlinked :
        (s.sessions i).handshake_linked ≡ true
        → (if (s.sessions i).handshake_linked then unlink i s.handshakes else s.handshakes) ≡ is
    unlinked m = rw m (ap (unlink i) e ∙ ground arith)

-- What holds of the sessions after the head `i` was dropped, read back before that.
module _ (s t : State) (i : ℕ) (others : (j : ℕ) → i ≢ j → t.sessions j ≡ s.sessions j) where
  IsLate-back :
      (timeout now : ℕ) (js : List ℕ)
      → Absent i js
      → All (λ j. IsLate timeout now (t.sessions j)) js
      → All (λ j. IsLate timeout now (s.sessions j)) js
  IsLate-back timeout now [] a h = tt
  IsLate-back timeout now (j ∷ js) a h =
      (subst (IsLate timeout now) (others j a.0) h.0, IsLate-back timeout now js a.1 h.1)

  IsTimely-back :
      (timeout now : ℕ) (js : List ℕ)
      → Absent i js
      → IsTimely timeout now t js
      → IsTimely timeout now s js
  IsTimely-back timeout now [] a h = tt
  IsTimely-back timeout now (j ∷ js) a h = subst (λ v. ¬ IsLate timeout now v) (others j a.0) h

  Spares-back : (u : State) (js : List ℕ) → Spares t u js → Spares s u (i ∷ js)
  Spares-back u js k j = elim (Bool-cases (i == j)) [
    | inl same ↦ inl (ground (arith, same))
    | inr other ↦ elim (k j) [
      | inl m ↦ inl (ground (arith, m))
      | inr kept ↦ inr (kept ∙ others j (ground arith))
    ]
  ]

-- A session that was dropped stays so: it is dropped again, or as it was.
still_dropped :
    (t u : State) (i : ℕ) (js : List ℕ)
    → (t.sessions i).used ≡ false
    → All (λ j. (u.sessions j).used ≡ false) js
    → Spares t u js
    → (u.sessions i).used ≡ false
still_dropped t u i js free h k = elim (k i) [
  | inl m ↦ All-contains i js (λ j. (u.sessions j).used ≡ false) h m
  | inr kept ↦ ap (λ (w : Session). w.used) kept ∙ free
]

stop :
    (fuel timeout now : ℕ) (s : State)
    → IsSessions s
    → expire_handshakes fuel timeout now s ≡ done s
    → IsTimely timeout now s s.handshakes
    → IsExpired fuel timeout now s
stop fuel timeout now s v e timely = record {
  state = s;
  result = e;
  gone = [];
  rest = s.handshakes;
  parts = refl;
  left = refl;
  late = tt;
  timely = timely;
  dropped = tt;
  spares = λ j. inr refl;
  counted = omega arith;
  sessions = v;
}

-- A late head is dropped, then what the rest of the loop does.
go_on :
    (fuel timeout now : ℕ) (s : State) (i : ℕ) (is : List ℕ)
    → IsSessions s
    → s.handshakes ≡ i ∷ is
    → IsLate timeout now (s.sessions i)
    → expire_handshakes (suc fuel) timeout now s
      ≡ expire_handshakes fuel timeout now (session_drop (timed_out s) i)
    → IsExpired fuel timeout now (session_drop (timed_out s) i)
    → IsExpired (suc fuel) timeout now s
go_on fuel timeout now s i is v e late step r =
    let t = session_drop (timed_out s) i in
    let d = head_dropped s i is v e in
    let apart : Absent i (r.gone ++ r.rest) =
      subst (Absent i) (sym d.1 ∙ r.parts) (subst Distinct e v.distinct_handshakes).0 in
    record {
      state = r.state;
      result = step ∙ r.result;
      gone = i ∷ r.gone;
      rest = r.rest;
      parts = e ∙ ap (◌∷◌ i) (sym d.1 ∙ r.parts);
      left = r.left;
      late = (
        late,
        IsLate-back s t i d.4 timeout now r.gone (Absent-left i r.gone r.rest apart) r.late,
      );
      timely =
          IsTimely-back s t i d.4 timeout now r.rest (Absent-right i r.gone r.rest apart) r.timely;
      dropped = (still_dropped t r.state i r.gone d.2 r.dropped r.spares, r.dropped);
      spares = Spares-back s t i d.4 r.state r.gone r.spares;
      counted = omega (arith, r.counted, d.3);
      sessions = r.sessions;
    }

-- From consistent sessions, and with more rounds than handshakes, the loop ends. It has dropped the
-- handshakes up to the first one that still has time, each of which was late: the time is not 0,
-- and at least the timeout has passed since it began. The handshakes from there on are left, no
-- other session has changed, the statistics count one timeout for each that was dropped, and the
-- sessions are consistent.
pub expire_handshakes-IsExpired :
    (fuel timeout now : ℕ) (s : State)
    → IsSessions s
    → length s.handshakes < fuel
    → IsExpired fuel timeout now s
unfolding expire_handshakes
expire_handshakes-IsExpired zero timeout now s v f = absurd (omega arith)
expire_handshakes-IsExpired (suc fuel) timeout now s v f =
    go s.handshakes refl (expire_handshakes-IsExpired fuel timeout now)
  where
    again : State → Outcome State
    again = expire_handshakes fuel timeout now

    go :
        (hs : List ℕ)
        → s.handshakes ≡ hs
        → ((t : State) → IsSessions t → length t.handshakes < fuel → IsExpired fuel timeout now t)
        → IsExpired (suc fuel) timeout now s
    go [] e ih =
        stop (suc fuel) timeout now s v (ap (expire_head again timeout now s) e)
          (subst (IsTimely timeout now s) (sym e) tt)
    go (i ∷ is) e ih = elim (Bool-cases (is_late timeout now (s.sessions i))) [
      | inl late ↦
          let d = head_dropped s i is v e in
          go_on fuel timeout now s i is v e (is_late-IsLate timeout now (s.sessions i) late)
            (ap (expire_head again timeout now s) e ∙ rw late refl)
            (ih (session_drop (timed_out s) i) d.0 (ground (arith, e, d.1)))
      | inr timely ↦
          stop (suc fuel) timeout now s v (ap (expire_head again timeout now s) e ∙ rw timely refl)
            (subst (IsTimely timeout now s) (sym e) (not-IsLate timeout now (s.sessions i) timely))
    ]
