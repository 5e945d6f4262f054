-- ===== src/Udp/Life/Victim.antt =====
-- `alloc_session` of bridge/udp_session.c: a free session, or the place of an evicted one.
use bpf2socks.Prelude.{
  ℕ, zero, suc, ◌+◌, Bool, true, false, ◌&&◌, ◌||◌, not, Option, none, some, List, [], ◌∷◌,
  if◌then◌else◌, ltb, ◌≡◌, refl, sym, ◌∙◌, subst, ap, arith, length, All, Bool-cases, inl, inr, ◌⊎◌,
  enobufs, ◌++◌,
}
use bpf2socks.Prelude.Outcome.{Outcome, done, fail, out_of_fuel}
use bpf2socks.Bindings.{contains}
use bpf2socks.Lru.Chain.{Absent, Distinct}
use bpf2socks.Udp.{State, Session, Stage, ready}
use bpf2socks.Udp.Reply.Pool.{All-contains, Absent-apart}
use bpf2socks.Udp.Life.{session_drop}
use bpf2socks.Udp.Life.Drop.{
  IsSessions, session_drop-Dropped, session_drop-IsSessions, IsSessions-stats,
}

-- Replies wait to be sent to the session's client, or for memory.
abbrev pub is_draining : Session → Bool
is_draining v = ltb 0 v.downlink_pending_count || v.waiting_budget

abbrev pub is_ready : Stage → Bool
is_ready ready = true
is_ready _ = false

-- A candidate of a pass; the first pass takes established sessions only.
abbrev pub is_eligible : Bool → Session → Bool
is_eligible first v = not (is_draining v) && (not first || is_ready v.stage)

unfoldable pub pass_over : Bool → State → List ℕ → Option ℕ
pass_over first s [] = none
pass_over first s (i ∷ is) =
    if is_eligible first (s.sessions i) then some i else pass_over first s is

abbrev pub or_second : State → Option ℕ → Option ℕ
or_second s none = pass_over false s s.lru
or_second s (some i) = some i

unfoldable pub choose_victim : State → Option ℕ
choose_victim s = or_second s (pass_over true s s.lru)

abbrev pub pop_session : State → ℕ → List ℕ → State × ℕ
pop_session s i rest = (record s { free_sessions = rest }, i)

abbrev pub evict_session : State → ℕ → State
evict_session s i =
    let s1 = session_drop s i in
    record s1 { stats = record s1.stats { session_evictions = s1.stats.session_evictions + 1 } }

-- The call of `alloc_session` in itself, after a victim was evicted.
abbrev pub alloc_evicting : (State → Outcome (State × ℕ)) → State → Option ℕ → Outcome (State × ℕ)
alloc_evicting again s none = fail enobufs
alloc_evicting again s (some i) = again (evict_session s i)

abbrev pub alloc_from :
    (State → Outcome (State × ℕ)) → State → Option ℕ → List ℕ → Outcome (State × ℕ)
alloc_from again s victim [] = alloc_evicting again s victim
alloc_from again s victim (i ∷ rest) = done (pop_session s i rest)

-- `alloc_session`, with the depth of its recursion.
unfoldable pub alloc_session : ℕ → State → Outcome (State × ℕ)
alloc_session zero s = out_of_fuel
alloc_session (suc fuel) s = alloc_from (alloc_session fuel) s (choose_victim s) s.free_sessions

-- The first of the list that is eligible: those before it are not.
pub record IsFirst (first : Bool) (s : State) (is : List ℕ) (i : ℕ) : Type 0 where
  pub before : List ℕ
  pub after : List ℕ
  pub whole : is ≡ before ++ i ∷ after
  pub eligible : is_eligible first (s.sessions i) ≡ true
  pub passed : All (λ j. is_eligible first (s.sessions j) ≡ false) before

pass_over-IsFirst :
    (first : Bool) (s : State) (is : List ℕ) (i : ℕ)
    → pass_over first s is ≡ some i
    → IsFirst first s is i
unfolding pass_over
pass_over-IsFirst first s [] i h = cc
pass_over-IsFirst first s (j ∷ js) i h = elim (Bool-cases (is_eligible first (s.sessions j))) [
  | inl e ↦
      let same : j ≡ i = ground arith in
      record {
        before = [];
        after = js;
        whole = ap (λ k. k ∷ js) same;
        eligible = subst (λ k. is_eligible first (s.sessions k) ≡ true) same e;
        passed = tt;
      }
  | inr e ↦
      let r = pass_over-IsFirst first s js i (ground arith) in
      record {
        before = j ∷ r.before;
        after = r.after;
        whole = ap (◌∷◌ j) r.whole;
        eligible = r.eligible;
        passed = (e, r.passed);
      }
]

pass_over-none :
    (first : Bool) (s : State) (is : List ℕ)
    → pass_over first s is ≡ none
    → All (λ j. is_eligible first (s.sessions j) ≡ false) is
unfolding pass_over
pass_over-none first s [] h = tt
pass_over-none first s (j ∷ js) h = elim (Bool-cases (is_eligible first (s.sessions j))) [
  | inl e ↦ cc (h, e)
  | inr e ↦ (e, pass_over-none first s js (ground (arith, e)))
]

-- What a victim is: the least recently used of the established sessions with nothing to send, or,
-- where there is none of these, of the others with nothing to send. None: all are draining.
abbrev pub IsVictim : State → Option ℕ → Type 0
IsVictim s none = All (λ j. is_eligible false (s.sessions j) ≡ false) s.lru
IsVictim s (some i) =
    IsFirst true s s.lru i
    ⊎ (IsFirst false s s.lru i × All (λ j. is_eligible true (s.sessions j) ≡ false) s.lru)

pub choose_victim-IsVictim : (s : State) → IsVictim s (choose_victim s)
unfolding choose_victim
choose_victim-IsVictim s = first (pass_over true s s.lru) refl
  where
    second :
        (r : Option ℕ)
        → pass_over false s s.lru ≡ r
        → All (λ j. is_eligible true (s.sessions j) ≡ false) s.lru
        → IsVictim s r
    second none e h = pass_over-none false s s.lru e
    second (some i) e h = inr (pass_over-IsFirst false s s.lru i e, h)

    first : (r : Option ℕ) → pass_over true s s.lru ≡ r → IsVictim s (or_second s r)
    first none e = second (pass_over false s s.lru) refl (pass_over-none true s s.lru e)
    first (some i) e = inl (pass_over-IsFirst true s s.lru i e)

-- A slot that is neither in use nor free: the caller's.
pub record IsWithheld (s : State) (i : ℕ) : Type 0 where
  pub capped : length s.free_sessions + s.session_count + 1 ≡ s.session_cap
  pub out : Absent i s.lru
  pub out_free : Absent i s.free_sessions

-- What `alloc_session` comes to.
pub record IsAllocated (s : State) (fuel : ℕ) : Type 0 where
  pub state : State
  pub slot : ℕ
  pub result : alloc_session fuel s ≡ done (state, slot)
  pub withheld : IsWithheld state slot

pop-IsAllocated :
    (s : State) (fuel i : ℕ) (rest : List ℕ)
    → IsSessions s
    → s.free_sessions ≡ i ∷ rest
    → IsAllocated s (suc fuel)
unfolding alloc_session
pop-IsAllocated s fuel i rest v e = record {
  state = record s { free_sessions = rest };
  slot = i;
  result = ap (alloc_from (alloc_session fuel) s (choose_victim s)) e;
  withheld = record {
    capped = ground (arith, e, v.capped);
    out = Absent-apart i rest s.lru (subst (λ f. All (λ j. Absent j f) s.lru) e v.apart);
    out_free = (subst Distinct e v.distinct_free).0;
  };
}

first-contains :
    (first : Bool) (s : State) (i : ℕ) → IsFirst first s s.lru i → contains i s.lru ≡ true
first-contains first s i f = subst (λ l. contains i l ≡ true) (sym f.whole) (inside f.before)
  where
    inside : (xs : List ℕ) → contains i (xs ++ i ∷ f.after) ≡ true
    inside [] = ground arith
    inside (x ∷ xs) = ground (arith, inside xs)

victim-contains : (s : State) (i : ℕ) → IsVictim s (some i) → contains i s.lru ≡ true
victim-contains s i (inl f) = first-contains true s i f
victim-contains s i (inr (f, _)) = first-contains false s i f

evict-IsSessions :
    (s : State) (i : ℕ) → IsSessions s → contains i s.lru ≡ true → IsSessions (evict_session s i)
evict-IsSessions s i v m = IsSessions-stats (session_drop s i) _ (session_drop-IsSessions s i v m)

retried :
    (s : State) (i : ℕ)
    → s.free_sessions ≡ []
    → choose_victim s ≡ some i
    → IsAllocated (evict_session s i) 1
    → IsAllocated s 2
unfolding alloc_session
retried s i e c a = record {
  state = a.state;
  slot = a.slot;
  result = first_round ∙ a.result;
  withheld = a.withheld;
}
  where
    first_round : alloc_session 2 s ≡ alloc_session 1 (evict_session s i)
    first_round =
        ap (alloc_from (alloc_session 1) s (choose_victim s)) e
        ∙ ap (alloc_evicting (alloc_session 1) s) c

-- From consistent lists and counts of sessions (`IsSessions`), `alloc_session` ends after at
-- most one eviction. It gives a slot that is neither in use nor free; it fails only, with
-- ENOBUFS, if no session is free and all sessions in use are draining.
pub alloc_session-IsAllocated :
    (s : State)
    → IsSessions s
    → IsAllocated s 2
      ⊎ ((alloc_session 2 s ≡ fail enobufs)
          × (s.free_sessions ≡ [])
          × All (λ j. is_eligible false (s.sessions j) ≡ false) s.lru)
unfolding alloc_session
alloc_session-IsAllocated s v = go s.free_sessions refl
  where
    evicting :
        (r : Option ℕ)
        → s.free_sessions ≡ []
        → choose_victim s ≡ r
        → IsVictim s r
        → IsAllocated s 2
          ⊎ ((alloc_session 2 s ≡ fail enobufs)
              × (s.free_sessions ≡ [])
              × All (λ j. is_eligible false (s.sessions j) ≡ false) s.lru)
    evicting none e c h = inr (
      ap (alloc_from (alloc_session 1) s (choose_victim s)) e
          ∙ ap (alloc_evicting (alloc_session 1) s) c,
      e,
      h,
    )
    evicting (some i) e c h =
        let m = victim-contains s i h in
        let d =
          session_drop-Dropped s i
            (All-contains i s.lru (λ j. (s.sessions j).used ≡ true) v.used m) in
        let a =
          pop-IsAllocated (evict_session s i) 0 i [] (evict-IsSessions s i v m)
            (d.free ∙ ap (◌∷◌ i) e) in
        inl (retried s i e c a)

    go :
        (free : List ℕ)
        → s.free_sessions ≡ free
        → IsAllocated s 2
          ⊎ ((alloc_session 2 s ≡ fail enobufs)
              × (s.free_sessions ≡ [])
              × All (λ j. is_eligible false (s.sessions j) ≡ false) s.lru)
    go [] e = evicting (choose_victim s) e refl (choose_victim-IsVictim s)
    go (i ∷ rest) e = inl (pop-IsAllocated s 1 i rest v e)
