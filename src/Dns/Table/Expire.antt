-- ===== src/Dns/Table/Expire.antt =====
-- `expire`: the transactions at the head of the LRU that have timed out are released, oldest first.
use bpf2socks.Prelude.{
  ℕ, zero, suc, ◌+◌, ◌≤◌, ◌≡◌, ◌⊎◌, ◌↔◌, ◌<◌, refl, sym, ◌∙◌, ap, arith, Bool, true, none, some,
  List, [], ◌∷◌, ◌++◌, inl, inr, subst, All, length, Bool-cases,
}
use mathlib.Core.Option.{some-injective}
use bpf2socks.Lru.Chain.{Absent, Absent-left, Absent-right, first}
use bpf2socks.Dns.Table.{Table, expire, due_at, due_head, is_due, mark_stale, release_index}
use bpf2socks.Dns.Table.Inv.{IsTable}
use bpf2socks.Dns.Table.Keep.{give-IsTable, kept, generations-release}
use bpf2socks.Dns.Table.Due.{
  IsDue, is_due-IsDue, not-IsDue, Silent, mark_stale-Marks, mark_stale_keeps, Silent-cons,
  Silent-uncons,
}

-- What `expire` with `rounds` rounds makes of a table with the slots `xs` in use, and of the marks of
-- the channels below `limit`.
pub record Expired (t : Table) (xs : List ℕ) (rounds now_ms timeout_ms limit : ℕ) (stale : ℕ → Bool)
    (r : Table × ℕ × (ℕ → Bool)) : Type 0 where
  pub gone : List ℕ
  pub rest : List ℕ
  pub parts : xs ≡ gone ++ rest
  pub valid : IsTable r.0 rest
  pub count : r.1 ≡ length gone
  pub bound : r.1 ≤ rounds
  pub due : All (λ i. IsDue (t.transactions i) now_ms timeout_ms) gone
  pub stops :
      (r.1 ≡ rounds)
      ⊎ ((i : ℕ) → first rest ≡ some i → ¬ IsDue (t.transactions i) now_ms timeout_ms)
  pub unchanged : All (λ i. r.0.transactions i ≡ t.transactions i) rest
  pub marked :
      (c : ℕ)
      → (r.2 c ≡ true)
        ↔ ((stale c ≡ true) ⊎ (Silent t gone c × (c < limit) × (c < t.channel_count)))

due_head_cases :
    (t : Table) (now_ms timeout_ms : ℕ) (xs : List ℕ)
    → IsTable t xs
    → ((due_head t now_ms timeout_ms ≡ none)
        × ((i : ℕ) → first xs ≡ some i → ¬ IsDue (t.transactions i) now_ms timeout_ms))
      ⊎ ((i : ℕ) × (ys : List ℕ) × (xs ≡ i ∷ ys)
          × (due_head t now_ms timeout_ms ≡ some i)
          × (IsDue (t.transactions i) now_ms timeout_ms))
unfolding due_head
due_head_cases t now_ms timeout_ms [] v =
    inl (ap (due_at t now_ms timeout_ms) v.order.at_head, λ i e. cc)
due_head_cases t now_ms timeout_ms (i ∷ ys) v =
    let at = ap (due_at t now_ms timeout_ms) v.order.at_head in
    elim (Bool-cases (is_due (t.transactions i) now_ms timeout_ms)) [
      | inl d ↦ inr (i, ys, refl, at ∙ (rw d), is_due-IsDue (t.transactions i) now_ms timeout_ms d)
      | inr d ↦ inl (
        at ∙ (rw d),
        λ j e.
            subst (λ k. ¬ IsDue (t.transactions k) now_ms timeout_ms) (some-injective i j e)
              (not-IsDue (t.transactions i) now_ms timeout_ms d),
      )
    ]

-- What the loop does in one more round.
abbrev once_more : Table × ℕ × (ℕ → Bool) → Table × ℕ × (ℕ → Bool)
once_more (t, n, stale) = (t, n + 1, stale)

expire_go :
    (rounds : ℕ) (t : Table) (now_ms timeout_ms count : ℕ) (stale : ℕ → Bool) (i : ℕ)
    → due_head t now_ms timeout_ms ≡ some i
    → expire (suc rounds) t now_ms timeout_ms count stale
      ≡ once_more (
          expire rounds
            (release_index t i true)
            now_ms
            timeout_ms
            count
            (mark_stale t i count stale))
unfolding expire
expire_go rounds t now_ms timeout_ms count stale i e = rw (e, expire)

expire_stop :
    (rounds : ℕ) (t : Table) (now_ms timeout_ms count : ℕ) (stale : ℕ → Bool)
    → due_head t now_ms timeout_ms ≡ none
    → expire (suc rounds) t now_ms timeout_ms count stale ≡ (t, 0, stale)
unfolding expire
expire_stop rounds t now_ms timeout_ms count stale e = rw (e, expire)

-- What holds of the table without its head, read back at the table with it.
module _ (t : Table) (i : ℕ) (ys : List ℕ) (v : IsTable t (i ∷ ys)) where
  same_slots :
      (zs : List ℕ)
      → Absent i zs
      → All (λ j. (release_index t i true).transactions j ≡ t.transactions j) zs
  same_slots [] a = tt
  same_slots (z ∷ zs) a = (kept t [] i ys v true z a.0, same_slots zs a.1)

  IsDue-back :
      (now_ms timeout_ms : ℕ) (gone : List ℕ)
      → Absent i gone
      → All (λ j. IsDue ((release_index t i true).transactions j) now_ms timeout_ms) gone
      → All (λ j. IsDue (t.transactions j) now_ms timeout_ms) gone
  IsDue-back now_ms timeout_ms [] a h = tt
  IsDue-back now_ms timeout_ms (z ∷ zs) a h =
      (rw (kept t [] i ys v true z a.0) at h.0, IsDue-back now_ms timeout_ms zs a.1 h.1)

  unchanged_back :
      (u : Table) (zs : List ℕ)
      → Absent i zs
      → All (λ j. u.transactions j ≡ (release_index t i true).transactions j) zs
      → All (λ j. u.transactions j ≡ t.transactions j) zs
  unchanged_back u [] a h = tt
  unchanged_back u (z ∷ zs) a h = (h.0 ∙ kept t [] i ys v true z a.0, unchanged_back u zs a.1 h.1)

  stops_back :
      (now_ms timeout_ms : ℕ) (zs : List ℕ)
      → Absent i zs
      → ((j : ℕ)
          → first zs ≡ some j
          → ¬ IsDue ((release_index t i true).transactions j) now_ms timeout_ms)
      → (j : ℕ) → first zs ≡ some j
      → ¬ IsDue (t.transactions j) now_ms timeout_ms
  stops_back now_ms timeout_ms [] a h j e = cc
  stops_back now_ms timeout_ms (z ∷ zs) a h j e =
      let zj = some-injective z j e in
      rw (← kept t [] i ys v true j (λ ij. a.0 (ij ∙ sym zj))) (h j e)

same_refl : (t : Table) (xs : List ℕ) → All (λ j. t.transactions j ≡ t.transactions j) xs
same_refl t [] = tt
same_refl t (x ∷ xs) = (refl, same_refl t xs)

expire-zero :
    (t : Table) (now_ms timeout_ms count : ℕ) (stale : ℕ → Bool)
    → expire zero t now_ms timeout_ms count stale ≡ (t, 0, stale)
unfolding expire
expire-zero t now_ms timeout_ms count stale = refl

nothing :
    (t : Table) (xs : List ℕ) (rounds now_ms timeout_ms limit : ℕ) (stale : ℕ → Bool)
    → IsTable t xs
    → (0 ≡ rounds) ⊎ ((i : ℕ) → first xs ≡ some i → ¬ IsDue (t.transactions i) now_ms timeout_ms)
    → Expired t xs rounds now_ms timeout_ms limit stale (t, 0, stale)
nothing t xs rounds now_ms timeout_ms limit stale v stops = record {
  gone = [];
  rest = xs;
  parts = refl;
  valid = v;
  count = refl;
  bound = omega arith;
  due = tt;
  stops = stops;
  unchanged = same_refl t xs;
  marked = λ c. (λ h. inl h, λ h. elim h [ inl before ↦ before | inr silent ↦ absurd silent.0 ]);
}

-- One round, then what the rest of the loop does on the table without its head.
more :
    (t : Table) (i : ℕ) (ys : List ℕ) (rounds now_ms timeout_ms count : ℕ) (stale : ℕ → Bool)
    (r : Table × ℕ × (ℕ → Bool))
    → IsTable t (i ∷ ys)
    → IsDue (t.transactions i) now_ms timeout_ms
    → Expired
        (release_index t i true)
        ys
        rounds
        now_ms
        timeout_ms
        count
        (mark_stale t i count stale)
        r
    → Expired t (i ∷ ys) (suc rounds) now_ms timeout_ms count stale (once_more r)
more t i ys rounds now_ms timeout_ms count stale r v d x = record {
  gone = i ∷ x.gone;
  rest = x.rest;
  parts = ap (◌∷◌ i) x.parts;
  valid = x.valid;
  count = omega (arith, x.count);
  bound = omega (arith, x.bound);
  due = (d, IsDue-back t i ys v now_ms timeout_ms x.gone (Absent-left i x.gone x.rest fresh) x.due);
  stops = elim x.stops [
    | inl all ↦ inl (omega (arith, all))
    | inr early ↦
        inr
          (stops_back t i ys v now_ms timeout_ms x.rest (Absent-right i x.gone x.rest fresh) early)
  ];
  unchanged = unchanged_back t i ys v r.0 x.rest (Absent-right i x.gone x.rest fresh) x.unchanged;
  marked = λ c. (
    λ h. elim ((x.marked c).0 h) [
      | inl now ↦ elim (mark_stale-Marks t i count c stale now) [
        | inl before ↦ inl before
        | inr m ↦ inr (inl (m.0, m.1), m.2, m.3)
      ]
      | inr later ↦ inr (
        Silent-cons t u i c x.gone same.0 slots later.0,
        later.1,
        ground (arith, later.2, same.1),
      )
    ],
    λ h. elim h [
      | inl before ↦ (x.marked c).1 (inl (mark_stale_keeps t i count c stale (inl before)))
      | inr (inl here, small, known) ↦
          (x.marked c).1
            (inl (mark_stale_keeps t i count c stale (inr (here.0, here.1, small, known))))
      | inr (inr later, small, known) ↦ (x.marked c).1 (
          inr
            (Silent-uncons t u i c x.gone same.0 slots later, small, ground (arith, known, same.1)))
    ],
  );
}
  where
    fresh : Absent i (x.gone ++ x.rest)
    fresh = subst (Absent i) x.parts v.order.distinct.0

    u : Table
    u = release_index t i true

    same : (u.response_generations ≡ t.response_generations) × (u.channel_count ≡ t.channel_count)
    same = generations-release t [] i ys v true

    slots : All (λ j. u.transactions j ≡ t.transactions j) x.gone
    slots = same_slots t i ys v x.gone (Absent-left i x.gone x.rest fresh)

-- On a well-formed table `expire` releases the oldest transactions, up to `max_expire`, exactly while they have timed out,
-- keeps the table well formed and the other transactions unchanged. A channel is marked stale
-- exactly where it was before, or where it is one of the first `count` channels of the table and
-- a released transaction was sent on it with no response there since.
pub expire-Expired :
    (rounds : ℕ) (t : Table) (xs : List ℕ) (now_ms timeout_ms count : ℕ) (stale : ℕ → Bool)
    → IsTable t xs
    → Expired t xs rounds now_ms timeout_ms count stale
        (expire rounds t now_ms timeout_ms count stale)
expire-Expired zero t xs now_ms timeout_ms count stale v =
    rw (expire-zero t now_ms timeout_ms count stale)
      (nothing t xs zero now_ms timeout_ms count stale v (inl refl))
expire-Expired (suc rounds) t xs now_ms timeout_ms count stale v =
    elim (due_head_cases t now_ms timeout_ms xs v) [
      | inl (e, early) ↦
          rw (expire_stop rounds t now_ms timeout_ms count stale e)
            (nothing t xs (suc rounds) now_ms timeout_ms count stale v (inr early))
      | inr (i, ys, parts, e, d) ↦
          let w = subst (IsTable t) parts v in
          rw (parts, expire_go rounds t now_ms timeout_ms count stale i e)
            (more t i ys rounds now_ms timeout_ms count stale _ w d (
              expire-Expired rounds (release_index t i true) ys now_ms timeout_ms count
                (mark_stale t i count stale) (give-IsTable t [] i ys w)))
    ]
