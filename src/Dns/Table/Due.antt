-- ===== src/Dns/Table/Due.antt =====
-- Which transactions `expire` releases, and the channels that it marks for them.
use bpf2socks.Prelude.{
  ℕ, ◌+◌, ◌≤◌, ◌≡◌, ◌⊎◌, ◌<◌, arith, Bool, true, false, List, [], ◌∷◌, inl, inr, All,
}
use bpf2socks.Dns.Table.{Table, Transaction, is_due, mark_stale}

-- The transaction is in use, and was sent at least `timeout_ms` before `now_ms`.
abbrev pub IsDue : Transaction → ℕ → ℕ → Type 0
IsDue tx now_ms timeout_ms = (tx.used ≡ true) × (tx.sent_at_ms + timeout_ms ≤ now_ms)

pub is_due-IsDue :
    (tx : Transaction) (now_ms timeout_ms : ℕ)
    → is_due tx now_ms timeout_ms ≡ true
    → IsDue tx now_ms timeout_ms
unfolding is_due
is_due-IsDue tx now_ms timeout_ms h = (ground (arith, h), ground (arith, h))

pub not-IsDue :
    (tx : Transaction) (now_ms timeout_ms : ℕ)
    → is_due tx now_ms timeout_ms ≡ false
    → ¬ IsDue tx now_ms timeout_ms
unfolding is_due
not-IsDue tx now_ms timeout_ms h d = ground (arith, h, d.0, d.1)

-- One of the transactions was sent on the channel, and has had no response there since.
abbrev pub Silent : Table → List ℕ → ℕ → Type 0
Silent t [] c = ⊥
Silent t (i ∷ gone) c =
    (((t.transactions i).channel_index ≡ c)
      × ((t.transactions i).response_generation ≡ t.response_generations c))
    ⊎ Silent t gone c

-- The channel of a transaction that goes is marked where it is one of the channels.
abbrev pub Marks : Table → ℕ → ℕ → ℕ → Type 0
Marks t limit i c =
    ((t.transactions i).channel_index ≡ c)
    × ((t.transactions i).response_generation ≡ t.response_generations c)
    × (c < limit)
    × (c < t.channel_count)

pub mark_stale-Marks :
    (t : Table) (i limit c : ℕ) (stale : ℕ → Bool)
    → mark_stale t i limit stale c ≡ true
    → (stale c ≡ true) ⊎ Marks t limit i c
unfolding mark_stale
mark_stale-Marks t i limit c stale h = ground arith

pub mark_stale_keeps :
    (t : Table) (i limit c : ℕ) (stale : ℕ → Bool)
    → (stale c ≡ true) ⊎ Marks t limit i c
    → mark_stale t i limit stale c ≡ true
unfolding mark_stale
mark_stale_keeps t i limit c stale h = ground (arith, h)

pub Silent-cons :
    (t u : Table) (i c : ℕ) (gone : List ℕ)
    → u.response_generations ≡ t.response_generations
    → All (λ j. u.transactions j ≡ t.transactions j) gone
    → Silent u gone c
    → Silent t (i ∷ gone) c
Silent-cons t u i c [] eg h s = absurd s
Silent-cons t u i c (j ∷ gone) eg h (inl s) = inr (inl (rw (← h.0, ← eg) s))
Silent-cons t u i c (j ∷ gone) eg h (inr s) = elim (Silent-cons t u i c gone eg h.1 s) [
  | inl here ↦ inl here
  | inr later ↦ inr (inr later)
]

pub Silent-uncons :
    (t u : Table) (i c : ℕ) (gone : List ℕ)
    → u.response_generations ≡ t.response_generations
    → All (λ j. u.transactions j ≡ t.transactions j) gone
    → Silent t gone c
    → Silent u gone c
Silent-uncons t u i c [] eg h s = s
Silent-uncons t u i c (j ∷ gone) eg h (inl s) = inl (rw (h.0, eg) s)
Silent-uncons t u i c (j ∷ gone) eg h (inr s) = inr (Silent-uncons t u i c gone eg h.1 s)
