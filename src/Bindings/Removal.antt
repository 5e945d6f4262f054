-- ===== src/Bindings/Removal.antt =====
-- Removal from the index, as a map from an owner and a destination to a binding.
use bpf2socks.Prelude.{
  ℕ, ◌==◌, true, false, Option, none, some, List, [], ◌∷◌, if◌then◌else◌, write, ◌≡◌, refl, sym,
  ◌∙◌, inl, inr, arith, Bool-cases, Option-cases, subst, write_all,
}
use bpf2socks.Bindings.{
  Sockaddr, Binding, Index, bucket_of, is_match, unlink, remove, owned_by, remove_owned,
}
use bpf2socks.Bindings.Lookup.{
  binding_hash-SameKey, is_match-SameKey, first_match, entry, entry_lem, Separate, IsIndex,
}

module _ (store : ℕ → Binding) where
  first_match-is_match :
      (o : ℕ) (x : Sockaddr) (b : ℕ) (bs : List ℕ)
      → first_match store o x bs ≡ some b
      → is_match store o x b ≡ true
  first_match-is_match o x b [] h = cc
  first_match-is_match o x b (c ∷ cs) h = elim (Bool-cases (is_match store o x c)) [
    | inl m ↦ let same : c ≡ b = ground arith in subst (λ d. is_match store o x d ≡ true) same m
    | inr m ↦ first_match-is_match o x b cs (ground arith)
  ]

  first_match-unlink :
      (b o : ℕ) (x : Sockaddr) (bs : List ℕ)
      → Separate store bs
      → first_match store o x (unlink b bs)
        ≡ (if owned_by (first_match store o x bs) b then none else first_match store o x bs)
  unfolding unlink
  first_match-unlink b o x [] s = refl
  first_match-unlink b o x (c ∷ cs) s = elim (Bool-cases (c == b)) [
    | inl same ↦ elim (Bool-cases (is_match store o x c)) [
      | inl m ↦ rw (same, m) (ground (arith, s.0 o x m))
      | inr m ↦ elim (Option-cases (first_match store o x cs)) [
        | inl e ↦ rw (same, m, e)
        | inr (d, e) ↦ ground (arith, same, m, e, first_match-is_match o x d cs e)
      ]
    ]
    | inr other ↦ elim (Bool-cases (is_match store o x c)) [
      | inl m ↦ rw (other, m) (ground arith)
      | inr m ↦ rw (other, m) (first_match-unlink b o x cs s.1)
    ]
  ]

  unlink-Separate : (b : ℕ) (bs : List ℕ) → Separate store bs → Separate store (unlink b bs)
  unfolding unlink
  unlink-Separate b [] s = tt
  unlink-Separate b (c ∷ cs) s = elim (Bool-cases (c == b)) [
    | inl same ↦ rw same s.1
    | inr other ↦
        let kept = λ (o : ℕ) (x : Sockaddr) (m : is_match store o x c ≡ true).
          first_match-unlink b o x cs s.1 ∙ rw (s.0 o x m) in
        rw other (kept, unlink-Separate b cs s.1)
  ]

  -- What a successful `remove` did.
  record Removed (index : Index) (b : ℕ) (next : Index) : Type 0 where
    owner : ℕ
    owned : (store b).owner ≡ some owner
    result : next ≡ (
        let k = bucket_of index owner (store b).original_dst in
        record index { buckets = write index.buckets k (unlink b (index.buckets k)) })

  remove-Removed :
      (index : Index) (b : ℕ) (next : Index)
      → remove store index b ≡ (true, next)
      → Removed index b next
  unfolding remove
  remove-Removed index b next e = go (store b).owner refl e
    where
      go :
          (own : Option ℕ)
          → (store b).owner ≡ own
          → remove_owned store index b own ≡ (true, next)
          → Removed index b next
      go none own h = cc
      go (some a) own h = record { owner = a; owned = own; result = ground arith }

  -- A binding is found in the bucket of its own key alone.
  other_bucket :
      (index : Index) (b a o : ℕ) (x : Sockaddr)
      → (store b).owner ≡ some a
      → (bucket_of index a (store b).original_dst == bucket_of index o x) ≡ false
      → owned_by (first_match store o x (index.buckets (bucket_of index o x))) b ≡ false
  other_bucket index b a o x own far =
      elim (Option-cases (first_match store o x (index.buckets (bucket_of index o x)))) [
        | inl e ↦ rw e
        | inr (d, e) ↦ elim (Bool-cases (d == b)) [
          | inl same ↦
              let same' : d ≡ b = ground arith in
              let m = first_match-is_match o x d (index.buckets (bucket_of index o x)) e in
              let k =
                is_match-SameKey store b a o x own
                  (subst (λ c. is_match store o x c ≡ true) same' m) in
              ground (arith, far, binding_hash-SameKey a o (store b).original_dst x k)
          | inr other ↦ rw e other
        ]
      ]

  -- Looking up after a removal that found its binding, from an index that keeps the keys apart:
  -- what was found as this binding is not found any more, and every other key finds what it
  -- found before.
  pub find-remove :
      (index : Index) (b : ℕ) (next : Index) (o : ℕ) (x : Sockaddr)
      → IsIndex store index
      → remove store index b ≡ (true, next)
      → entry store next o x
        ≡ (if owned_by (entry store index o x) b then none else entry store index o x)
  find-remove index b next o x s e =
      let r = remove-Removed index b next e in
      let y = (store b).original_dst in
      let at = bucket_of index r.owner y in
      let shorter = first_match-unlink b o x (index.buckets at) (s at) in
      elim (Bool-cases (at == bucket_of index o x)) [
        | inl here ↦
            ground
              (arith, here, r.result, entry_lem store next o x, entry_lem store index o x, shorter)
        | inr there ↦
            let elsewhere = other_bucket index b r.owner o x r.owned there in
            ground (
              arith,
              there,
              r.result,
              entry_lem store next o x,
              entry_lem store index o x,
              elsewhere,
            )
      ]

  -- Removal keeps the keys apart.
  pub remove-IsIndex :
      (index : Index) (b : ℕ) (next : Index)
      → IsIndex store index
      → remove store index b ≡ (true, next)
      → IsIndex store next
  remove-IsIndex index b next s e =
      let r = remove-Removed index b next e in
      let at = bucket_of index r.owner (store b).original_dst in
      subst (IsIndex store) (sym r.result) (
        write_all (λ j chain. Separate store chain) index.buckets at (unlink b (index.buckets at))
          (unlink-Separate b (index.buckets at) (s at)) s)
