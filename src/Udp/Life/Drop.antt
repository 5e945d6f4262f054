-- ===== src/Udp/Life/Drop.antt =====
-- What `session_drop` does to the lists of sessions: the session leaves all of them and is free.
use bpf2socks.Prelude.{
  ℕ, ◌+◌, Bool, true, false, ◌&&◌, List, [], ◌∷◌, if◌then◌else◌, ◌≡◌, ◌≢◌, sym, ◌∙◌, subst, ap,
  arith, length, All, Bool-cases, inl, inr,
}
use bpf2socks.Bindings.{contains, unlink}
use bpf2socks.Lru.Chain.{Absent, Distinct}
use bpf2socks.Udp.{Stats, State, Session, no_session, decrement}
use bpf2socks.Udp.Lists.{
  length-unlink, unlink-Distinct, Absent-unlink, unlink-All, contains-unlink_ne,
}
use bpf2socks.Udp.Reply.Pool.{All-contains, apart_after}
use bpf2socks.Udp.Life.{session_unlink, session_close, session_drop}
use bpf2socks.Udp.Life.Frame.{Shape, emptied-Frame}

-- The lists after `i` was dropped.
pub record Dropped (s : State) (i : ℕ) (t : State) : Type 0 where
  pub lru : t.lru ≡ unlink i s.lru
  pub handshakes :
      t.handshakes
      ≡ (if (s.sessions i).handshake_linked then unlink i s.handshakes else s.handshakes)
  pub free : t.free_sessions ≡ i ∷ s.free_sessions
  pub count : t.session_count ≡ decrement s.session_count
  pub cap : t.session_cap ≡ s.session_cap
  pub timeouts : t.stats.associate_timeouts ≡ s.stats.associate_timeouts
  pub cleared : t.sessions i ≡ no_session
  pub others : (j : ℕ) → i ≢ j → t.sessions j ≡ s.sessions j

session_unlink_used :
    (s : State) (i : ℕ) → ((session_unlink s i).sessions i).used ≡ (s.sessions i).used
unfolding session_unlink
session_unlink_used s i = ground arith

session_unlink_lists :
    (s : State) (i : ℕ)
    → let u = session_unlink s i in
      (u.lru ≡ unlink i s.lru)
      × (u.handshakes
          ≡ (if (s.sessions i).handshake_linked then unlink i s.handshakes else s.handshakes))
      × (u.free_sessions ≡ s.free_sessions)
      × (u.session_count ≡ s.session_count)
      × (u.session_cap ≡ s.session_cap)
      × (u.stats.associate_timeouts ≡ s.stats.associate_timeouts)
unfolding session_unlink
session_unlink_lists s i = ground arith

session_unlink_others :
    (s : State) (i j : ℕ) → i ≢ j → (session_unlink s i).sessions j ≡ s.sessions j
unfolding session_unlink
session_unlink_others s i j ne = ground (arith, ne)

-- A session in use that is dropped leaves all lists.
pub session_drop-Dropped :
    (s : State) (i : ℕ) → (s.sessions i).used ≡ true → Dropped s i (session_drop s i)
unfolding session_drop session_close
session_drop-Dropped s i used =
    let u = session_unlink s i in
    let f = emptied-Frame u i in
    let l = session_unlink_lists s i in
    let in_use : (u.sessions i).used ≡ true = session_unlink_used s i ∙ used in
    rw (used, in_use)
      (record {
        lru = ap (λ (z : Shape). z.0) f.lists ∙ l.0;
        handshakes = ap (λ (z : Shape). z.1) f.lists ∙ l.1;
        free = ap (λ (z : Shape). i ∷ z.2) f.lists ∙ ap (◌∷◌ i) l.2;
        count = ap (λ (z : Shape). decrement z.4) f.lists ∙ ap decrement l.3;
        cap = ap (λ (z : Shape). z.5) f.lists ∙ l.4;
        timeouts = ap (λ (z : Shape). z.8) f.lists ∙ l.5;
        cleared = ground arith;
        others = λ j ne. ground (arith, ne, f.others j ne, session_unlink_others s i j ne);
      })

abbrev pub is_linked : Session → Bool
is_linked v = v.used && v.handshake_linked

-- The sessions in use are those of the LRU list and have the lists and counts of the free ones; the
-- sessions of the handshake list are in use and know that they are in it.
pub record IsSessions (s : State) : Type 0 where
  pub counted : length s.lru ≡ s.session_count
  pub capped : length s.free_sessions + s.session_count ≡ s.session_cap
  pub distinct : Distinct s.lru
  pub distinct_free : Distinct s.free_sessions
  pub apart : All (λ i. Absent i s.free_sessions) s.lru
  pub used : All (λ i. (s.sessions i).used ≡ true) s.lru
  pub distinct_handshakes : Distinct s.handshakes
  pub linked : All (λ i. is_linked (s.sessions i) ≡ true) s.handshakes
  pub handshaking : All (λ i. contains i s.lru ≡ true) s.handshakes

module _ (s : State) (i : ℕ) (t : State) (d : Dropped s i t) where
  kept :
      (P : Session → Type 0) (is : List ℕ)
      → Absent i is
      → All (λ j. P (s.sessions j)) is
      → All (λ j. P (t.sessions j)) is
  kept P [] a h = tt
  kept P (j ∷ js) a h = (subst P (sym (d.others j a.0)) h.0, kept P js a.1 h.1)

not_linked :
    (s : State) (i : ℕ) (is : List ℕ)
    → is_linked (s.sessions i) ≡ false
    → All (λ j. is_linked (s.sessions j) ≡ true) is
    → Absent i is
not_linked s i [] f h = tt
not_linked s i (j ∷ js) f h = (
  (λ e. cc (subst (λ k. is_linked (s.sessions k) ≡ true) (sym e) h.0, f)),
  not_linked s i js f h.1,
)

contains_after :
    (i : ℕ) (lru is : List ℕ)
    → Absent i is
    → All (λ j. contains j lru ≡ true) is
    → All (λ j. contains j (unlink i lru) ≡ true) is
contains_after i lru [] a h = tt
contains_after i lru (j ∷ js) a h =
    (contains-unlink_ne i j lru a.0 h.0, contains_after i lru js a.1 h.1)

-- The handshake list without the dropped session.
remaining :
    (s : State) (i : ℕ)
    → IsSessions s
    → let hs = if (s.sessions i).handshake_linked then unlink i s.handshakes else s.handshakes in
      Distinct hs
      × Absent i hs
      × All (λ j. is_linked (s.sessions j) ≡ true) hs
      × All (λ j. contains j s.lru ≡ true) hs
remaining s i v = elim (Bool-cases (s.sessions i).handshake_linked) [
  | inl e ↦ rw e (
    unlink-Distinct i s.handshakes v.distinct_handshakes,
    Absent-unlink i s.handshakes v.distinct_handshakes,
    unlink-All (λ j. is_linked (s.sessions j) ≡ true) i s.handshakes v.linked,
    unlink-All (λ j. contains j s.lru ≡ true) i s.handshakes v.handshaking,
  )
  | inr e ↦ rw e (
    v.distinct_handshakes,
    not_linked s i s.handshakes (ground (arith, e)) v.linked,
    v.linked,
    v.handshaking,
  )
]

pub session_drop-IsSessions :
    (s : State) (i : ℕ) → IsSessions s → contains i s.lru ≡ true → IsSessions (session_drop s i)
session_drop-IsSessions s i v m =
    let used = All-contains i s.lru (λ j. (s.sessions j).used ≡ true) v.used m in
    let t = session_drop s i in
    let d = session_drop-Dropped s i used in
    let shorter = length-unlink i s.lru m in
    let out = Absent-unlink i s.lru v.distinct in
    let h = remaining s i v in
    record {
      counted = rw (d.lru, d.count) (ground (arith, v.counted, shorter));
      capped = rw (d.free, d.count, d.cap) (ground (arith, v.counted, v.capped, shorter));
      distinct = rw d.lru (unlink-Distinct i s.lru v.distinct);
      distinct_free =
          rw d.free
            (All-contains i s.lru (λ j. Absent j s.free_sessions) v.apart m, v.distinct_free);
      apart =
          rw (d.lru, d.free)
            (apart_after i s.free_sessions (unlink i s.lru) out
              (unlink-All (λ j. Absent j s.free_sessions) i s.lru v.apart));
      used = rw d.lru (
          kept s i t d (λ w. w.used ≡ true) (unlink i s.lru) out
            (unlink-All (λ j. (s.sessions j).used ≡ true) i s.lru v.used));
      distinct_handshakes = rw d.handshakes h.0;
      linked = rw d.handshakes (kept s i t d (λ w. is_linked w ≡ true) _ h.1 h.2);
      handshaking = rw (d.handshakes, d.lru) (contains_after i s.lru _ h.1 h.3);
    }

-- The statistics are not part of the lists.
pub IsSessions-stats :
    (s : State) (stats : Stats) → IsSessions s → IsSessions (record s { stats = stats })
IsSessions-stats s stats v = record {
  counted = v.counted;
  capped = v.capped;
  distinct = v.distinct;
  distinct_free = v.distinct_free;
  apart = v.apart;
  used = v.used;
  distinct_handshakes = v.distinct_handshakes;
  linked = v.linked;
  handshaking = v.handshaking;
}
