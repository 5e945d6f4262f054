-- ===== src/Udp/Reply/Pool.antt =====
-- The bindings of a worker are either in its LRU list or free, and the counts are the lengths.
use bpf2socks.Prelude.{
  ℕ, ◌+◌, Bool, true, false, none, some, List, [], ◌∷◌, ◌≡◌, ◌≢◌, sym, subst, arith, length, All,
  Bool-cases, inl, inr, ◌==◌,
}
use bpf2socks.Bindings.{Binding, contains, unlink}
use bpf2socks.Lru.Chain.{Absent, Distinct}
use bpf2socks.Udp.{State}
use bpf2socks.Udp.Lists.{length-unlink, unlink-Distinct, Absent-unlink, unlink-All}
use bpf2socks.Udp.Reply.{destroy_binding}

abbrev pub has_owner : Binding → Bool
has_owner v = elim v.owner [ none ↦ false | some i ↦ true ]

pub record IsPool (s : State) : Type 0 where
  pub counted : length s.binding_lru ≡ s.binding_count
  pub capped : length s.free_bindings + s.binding_count ≡ s.binding_cap
  pub distinct : Distinct s.binding_lru
  pub distinct_free : Distinct s.free_bindings
  pub apart : All (λ b. Absent b s.free_bindings) s.binding_lru
  pub owned : All (λ b. has_owner (s.bindings b) ≡ true) s.binding_lru

pub All-contains : (b : ℕ) (xs : List ℕ) (P : ℕ → Type 0) → All P xs → contains b xs ≡ true → P b
All-contains b [] P h m = cc
All-contains b (x ∷ xs) P h m = elim (Bool-cases (x == b)) [
  | inl same ↦ let e : x ≡ b = ground arith in subst P e h.0
  | inr other ↦ All-contains b xs P h.1 (ground arith)
]

pub destroy_binding_store :
    (s : State) (i b c : ℕ) → b ≢ c → (destroy_binding s i b).bindings c ≡ s.bindings c
unfolding destroy_binding
destroy_binding_store s i b c ne = ground arith

owned_after :
    (s : State) (i b : ℕ) (bs : List ℕ)
    → Absent b bs
    → All (λ c. has_owner (s.bindings c) ≡ true) bs
    → All (λ c. has_owner ((destroy_binding s i b).bindings c) ≡ true) bs
owned_after s i b [] a h = tt
owned_after s i b (c ∷ cs) a h =
    (rw (destroy_binding_store s i b c a.0) h.0, owned_after s i b cs a.1 h.1)

pub apart_after :
    (b : ℕ) (free bs : List ℕ)
    → Absent b bs
    → All (λ c. Absent c free) bs
    → All (λ c. Absent c (b ∷ free)) bs
apart_after b free [] a h = tt
apart_after b free (c ∷ cs) a h = (((λ e. a.0 (sym e)), h.0), apart_after b free cs a.1 h.1)

pub Absent-apart : (b : ℕ) (free bs : List ℕ) → All (λ c. Absent c (b ∷ free)) bs → Absent b bs
Absent-apart b free [] h = tt
Absent-apart b free (c ∷ cs) h = ((λ e. h.0.0 (sym e)), Absent-apart b free cs h.1)

-- Destroying a binding of the LRU list makes it free.
pub destroy_binding-IsPool :
    (s : State) (i b : ℕ)
    → IsPool s
    → contains b s.binding_lru ≡ true
    → IsPool (destroy_binding s i b)
unfolding destroy_binding
destroy_binding-IsPool s i b p m =
    let shorter = length-unlink b s.binding_lru m in
    let out = Absent-unlink b s.binding_lru p.distinct in
    record {
      counted = ground (arith, p.counted, shorter);
      capped = ground (arith, p.counted, p.capped, shorter);
      distinct = unlink-Distinct b s.binding_lru p.distinct;
      distinct_free =
          (All-contains b s.binding_lru (λ c. Absent c s.free_bindings) p.apart m, p.distinct_free);
      apart =
          apart_after b s.free_bindings (unlink b s.binding_lru) out
            (unlink-All (λ c. Absent c s.free_bindings) b s.binding_lru p.apart);
      owned =
          owned_after s i b (unlink b s.binding_lru) out
            (unlink-All (λ c. has_owner (s.bindings c) ≡ true) b s.binding_lru p.owned);
    }
