-- ===== src/Udp/Reply/Evict.antt =====
-- Making room for a binding: `ensure_binding_capacity` of bridge/udp_session.c ends, and evicts no
-- binding that has datagrams waiting.
use bpf2socks.Prelude.{
  ℕ, zero, suc, ◌+◌, ◌≤◌, ◌<◌, Bool, true, false, ◌&&◌, ◌||◌, not, none, some, List, [], ◌∷◌, ltb,
  leb, ◌≡◌, ◌≢◌, refl, subst, arith, length, All, Bool-cases, Option-cases, inl, inr, ◌⊎◌, ◌==◌, ok,
  err, enomem,
}
use bpf2socks.Prelude.Outcome.{done}
use bpf2socks.Bindings.{contains}
use bpf2socks.Udp.{State}
use bpf2socks.Udp.Lists.{length-unlink, contains-unlink_ne}
use bpf2socks.Udp.Reply.{destroy_binding, first_idle, evict_binding, ensure_binding_capacity}
use bpf2socks.Udp.Reply.Pool.{IsPool, has_owner, All-contains, destroy_binding-IsPool}

-- Datagrams to the client wait for the binding.
abbrev pub is_busy : State → ℕ → Bool
is_busy s b = ltb 0 (s.bindings b).downlink_pending_count

first_idle-none :
    (s : State) (bs : List ℕ) → first_idle s bs ≡ none → All (λ b. is_busy s b ≡ true) bs
unfolding first_idle
first_idle-none s [] h = tt
first_idle-none s (b ∷ bs) h = elim (Bool-cases (is_busy s b)) [
  | inl busy ↦ (busy, first_idle-none s bs (ground arith))
  | inr idle ↦ cc (h, idle)
]

pub first_idle-some :
    (s : State) (bs : List ℕ) (b : ℕ)
    → first_idle s bs ≡ some b
    → (contains b bs ≡ true) × (is_busy s b ≡ false)
unfolding first_idle
first_idle-some s [] b h = cc
first_idle-some s (c ∷ cs) b h = elim (Bool-cases (is_busy s c)) [
  | inl busy ↦ let r = first_idle-some s cs b (ground arith) in (ground (arith, r.0), r.1)
  | inr idle ↦
      let same : c ≡ b = ground arith in (ground arith, subst (λ d. is_busy s d ≡ false) same idle)
]

-- Every binding in use that has datagrams waiting stays in use, and they wait there.
abbrev pub Keeps : State → State → Type 0
Keeps s t =
    (b : ℕ)
    → (not (contains b s.binding_lru && is_busy s b) || (contains b t.binding_lru && is_busy t b))
      ≡ true

Keeps-trans : (s t u : State) → Keeps s t → Keeps t u → Keeps s u
Keeps-trans s t u h k b = ground (arith, h b, k b)

-- One eviction.
abbrev evicted : State → ℕ → ℕ → State
evicted s i b =
    let s1 = destroy_binding s i b in
    record s1 { stats = record s1.stats { binding_evictions = s1.stats.binding_evictions + 1 } }

evicted-Keeps : (s : State) (i b : ℕ) → is_busy s b ≡ false → Keeps s (evicted s i b)
unfolding destroy_binding
evicted-Keeps s i b idle c = elim (Bool-cases (b == c)) [
  | inl same ↦
      let e : b ≡ c = ground arith in
      let idle' : is_busy s c ≡ false = subst (λ d. is_busy s d ≡ false) e idle in
      rw idle' (ground arith)
  | inr other ↦
      let ne : b ≢ c = ground arith in
      ground (arith, other, contains-unlink_ne b c s.binding_lru ne)
]

evicted-IsPool :
    (s : State) (i b : ℕ) → IsPool s → contains b s.binding_lru ≡ true → IsPool (evicted s i b)
evicted-IsPool s i b p m =
    let d = destroy_binding-IsPool s i b p m in
    record {
      counted = d.counted;
      capped = d.capped;
      distinct = d.distinct;
      distinct_free = d.distinct_free;
      apart = d.apart;
      owned = d.owned;
    }

evicted_shorter :
    (s : State) (i b : ℕ)
    → contains b s.binding_lru ≡ true
    → length s.binding_lru ≡ length (evicted s i b).binding_lru + 1
unfolding destroy_binding
evicted_shorter s i b m = length-unlink b s.binding_lru m

evict_cases :
    (s : State)
    → IsPool s
    → ((evict_binding s none ≡ err enomem) × All (λ b. is_busy s b ≡ true) s.binding_lru)
      ⊎ ((b : ℕ) × (i : ℕ) × (evict_binding s none ≡ ok (evicted s i b))
          × (contains b s.binding_lru ≡ true)
          × (is_busy s b ≡ false))
unfolding evict_binding
evict_cases s p = elim (Option-cases (first_idle s s.binding_lru)) [
  | inl e ↦ inl (rw e refl, first_idle-none s s.binding_lru e)
  | inr (b, e) ↦
      let (m, idle) = first_idle-some s s.binding_lru b e in
      elim (Option-cases (s.bindings b).owner) [
        | inl n ↦
            cc (n, All-contains b s.binding_lru (λ c. has_owner (s.bindings c) ≡ true) p.owned m)
        | inr (i, o) ↦ inr (b, i, rw (e, o) refl, m, idle)
      ]
]

-- What holds of the state that the loop leaves.
abbrev pub HasRoom : State → Bool → Type 0
HasRoom s true = s.binding_count < s.binding_cap
HasRoom s false = (s.binding_cap ≤ s.binding_count) × All (λ b. is_busy s b ≡ true) s.binding_lru

-- From a well-formed pool, and with more rounds than bindings in use, the loop ends. It leaves
-- room for one more binding, unless every binding in use has datagrams waiting; the pool stays
-- well formed, and all bindings that have datagrams waiting stay.
pub ensure_binding_capacity-HasRoom :
    (fuel : ℕ) (s : State)
    → IsPool s
    → length s.binding_lru < fuel
    → (t : State) × (room : Bool) × (ensure_binding_capacity fuel s ≡ done (t, room))
      × HasRoom t room
      × IsPool t
      × Keeps s t
unfolding ensure_binding_capacity
ensure_binding_capacity-HasRoom zero s p f = absurd (omega arith)
ensure_binding_capacity-HasRoom (suc fuel) s p f =
    elim (Bool-cases (leb s.binding_cap s.binding_count)) [
      | inl full ↦ elim (evict_cases s p) [
        | inl (e, busy) ↦ (s, false, rw (full, e) refl, (ground arith, busy), p, λ b. ground arith)
        | inr (b, i, e, m, idle) ↦
            let next = evicted s i b in
            let (t, room, end, r, q, k) =
              ensure_binding_capacity-HasRoom fuel next (evicted-IsPool s i b p m)
                (omega (arith, evicted_shorter s i b m)) in
            (t, room, rw (full, e) end, r, q, Keeps-trans s next t (evicted-Keeps s i b idle) k)
      ]
      | inr room ↦ (s, true, rw room refl, ground arith, p, λ b. ground arith)
    ]
