-- ===== src/Udp/Reply/Domain.antt =====
-- `bpf2socks_udp_binding_find_by_domain_port` of bridge/udp_session.c: a reply that names a domain
-- goes to the binding of the session, with the port and a token, that was used last.
use bpf2socks.Prelude.{
  ℕ, ◌==◌, Bool, true, false, ◌&&◌, ◌||◌, not, Option, none, some, List, [], ◌∷◌, if◌then◌else◌,
  ltb, leb, bytes_equal, replicate, ◌≡◌, refl, subst, arith, All, ◌⊎◌, inl, inr, Bool-cases,
}
use bpf2socks.Bindings.{Binding, contains}
use bpf2socks.Udp.{State}

unfoldable pub binding_has_token : Binding → Bool
binding_has_token binding = not (bytes_equal binding.token_addr (replicate 16 0))

module _ (store : ℕ → Binding) (port : ℕ) where
  -- A binding that the client created, with the port.
  abbrev pub is_candidate : ℕ → Bool
  is_candidate b =
      (store b).used && ((store b).original_dst.port == port) && binding_has_token (store b)

  abbrev pub is_later : Option ℕ → ℕ → Bool
  is_later none b = true
  is_later (some best) b = ltb (store best).last_seen_ms (store b).last_seen_ms

  -- The loop over the bindings, with the best one so far.
  unfoldable pub best_from : Option ℕ → List ℕ → Option ℕ
  best_from best [] = best
  best_from best (b ∷ bs) =
      best_from (if is_candidate b && is_later best b then some b else best) bs

unfoldable pub find_by_domain_port : State → ℕ → ℕ → Option ℕ
find_by_domain_port s i port = best_from s.bindings port none (s.sessions i).bindings

module _ (store : ℕ → Binding) (port : ℕ) where
  -- Nothing in `best`'s place would be used later: a candidate is not later than `best`.
  abbrev pub Beats : Option ℕ → ℕ → Type 0
  Beats none c = is_candidate store port c ≡ false
  Beats (some b) c =
      (not (is_candidate store port c) || leb (store c).last_seen_ms (store b).last_seen_ms) ≡ true

  abbrev next_best : Option ℕ → ℕ → Option ℕ
  next_best best b =
      if is_candidate store port b && is_later store port best b then some b else best

  next_best-Beats_new : (best : Option ℕ) (b : ℕ) → Beats (next_best best b) b
  next_best-Beats_new none b = elim (Bool-cases (is_candidate store port b)) [
    | inl e ↦ rw (e, e) (ground arith)
    | inr e ↦ rw e e
  ]
  next_best-Beats_new (some best) b = elim (Bool-cases (is_candidate store port b)) [
    | inl e ↦ elim (Bool-cases (ltb (store best).last_seen_ms (store b).last_seen_ms)) [
      | inl l ↦ rw (e, l) (rw e (ground arith))
      | inr l ↦ rw (e, l) (rw e (ground arith))
    ]
    | inr e ↦ rw e (rw e refl)
  ]

  next_best-Beats : (best : Option ℕ) (b c : ℕ) → Beats best c → Beats (next_best best b) c
  next_best-Beats none b c h = elim (Bool-cases (is_candidate store port b)) [
    | inl e ↦ rw e (rw h refl)
    | inr e ↦ rw e h
  ]
  next_best-Beats (some best) b c h = elim (Bool-cases (is_candidate store port b)) [
    | inl e ↦ elim (Bool-cases (ltb (store best).last_seen_ms (store b).last_seen_ms)) [
      | inl l ↦ rw (e, l) (ground (arith, h, l))
      | inr l ↦ rw (e, l) h
    ]
    | inr e ↦ rw e h
  ]

  best_from-Beats :
      (best : Option ℕ) (bs : List ℕ) (c : ℕ)
      → Beats best c
      → Beats (best_from store port best bs) c
  unfolding best_from
  best_from-Beats best [] c h = h
  best_from-Beats best (b ∷ bs) c h =
      best_from-Beats (next_best best b) bs c (next_best-Beats best b c h)

  best_from-All : (best : Option ℕ) (bs : List ℕ) → All (Beats (best_from store port best bs)) bs
  unfolding best_from
  best_from-All best [] = tt
  best_from-All best (b ∷ bs) = (
    best_from-Beats (next_best best b) bs b (next_best-Beats_new best b),
    best_from-All (next_best best b) bs,
  )

  -- What is found is a candidate of the list.
  best_from-found :
      (best : Option ℕ) (bs : List ℕ) (r : ℕ)
      → best_from store port best bs ≡ some r
      → (best ≡ some r) ⊎ ((contains r bs ≡ true) × (is_candidate store port r ≡ true))
  unfolding best_from
  best_from-found best [] r h = inl h
  best_from-found best (b ∷ bs) r h = elim (best_from-found (next_best best b) bs r h) [
    | inl e ↦ elim (Bool-cases (is_candidate store port b && is_later store port best b)) [
      | inl t ↦
          let same : b ≡ r = ground arith in
          inr (ground arith, subst (λ d. is_candidate store port d ≡ true) same (ground arith))
      | inr f ↦ inl (ground arith)
    ]
    | inr (m, k) ↦ inr (ground (arith, m), k)
  ]

  -- What is found is a candidate of the list.
  abbrev pub IsFound : Option ℕ → List ℕ → Type 0
  IsFound none bs = Unit {0}
  IsFound (some r) bs = (contains r bs ≡ true) × (is_candidate store port r ≡ true)

  best_from-IsFound :
      (bs : List ℕ) (found : Option ℕ) → best_from store port none bs ≡ found → IsFound found bs
  best_from-IsFound bs none e = tt
  best_from-IsFound bs (some r) e = elim (best_from-found none bs r e) [
    | inl absent ↦ cc
    | inr member ↦ member
  ]

-- A reply by domain goes to a binding of its session that has the port and a token. Of all such
-- bindings it is one that was used last, and where none is found there is none.
pub find_by_domain_port_lem :
    (s : State) (i port : ℕ)
    → IsFound s.bindings port (find_by_domain_port s i port) (s.sessions i).bindings
      × All (Beats s.bindings port (find_by_domain_port s i port)) (s.sessions i).bindings
unfolding find_by_domain_port
find_by_domain_port_lem s i port =
    let bs = (s.sessions i).bindings in
    (
      best_from-IsFound s.bindings port bs (best_from s.bindings port none bs) refl,
      best_from-All s.bindings port none bs,
    )
