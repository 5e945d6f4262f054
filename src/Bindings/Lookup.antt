-- ===== src/Bindings/Lookup.antt =====
-- The index as a map from an owner and a destination to a binding.
use bpf2socks.Prelude.{
  ℕ, ◌+◌, ◌==◌, true, false, ◌||◌, not, Option, none, some, List, [], ◌∷◌, if◌then◌else◌, take,
  bytes_equal_iff, write, ok, ◌≡◌, refl, sym, ◌∙◌, inl, inr, arith, Bool-cases, subst, write_all,
}
use bpf2socks.Bindings.{
  Sockaddr, Binding, Index, binding_hash, same_key, valid_original, bucket_of, is_match, find_chain,
  find, insert, address_length, insert_owned,
}

-- What `same_key` compares.
pub record SameKey (a : ℕ) (x : Sockaddr) (b : ℕ) (y : Sockaddr) : Type 0 where
  pub owner : a ≡ b
  pub family : x.family ≡ y.family
  pub port : x.port ≡ y.port
  pub addr : take (address_length y) x.addr ≡ take (address_length y) y.addr

pub binding_hash-SameKey :
    (a b : ℕ) (x y : Sockaddr) → SameKey a x b y → binding_hash a x ≡ binding_hash b y
unfolding binding_hash
binding_hash-SameKey a b x y k = rw (k.owner, k.family, k.port, k.addr)

pub valid-SameKey :
    (a b : ℕ) (x y : Sockaddr) → SameKey a x b y → valid_original x ≡ valid_original y
valid-SameKey a b x y k = rw k.family

module _ (store : ℕ → Binding) where
  -- A binding is found under its own key alone.
  pub is_match-SameKey :
      (b a o : ℕ) (x : Sockaddr)
      → (store b).owner ≡ some a
      → is_match store o x b ≡ true
      → SameKey a (store b).original_dst o x
  unfolding same_key
  is_match-SameKey b a o x own h = ground (
    arith,
    own,
    bytes_equal_iff (take (address_length x) (store b).original_dst.addr)
        (take (address_length x) x.addr),
  )

  -- The first binding of a chain that fits a key.
  abbrev pub first_match : ℕ → Sockaddr → List ℕ → Option ℕ
  first_match o x [] = none
  first_match o x (b ∷ bs) = if is_match store o x b then some b else first_match o x bs

  find_chain-first_match :
      (o : ℕ) (x : Sockaddr) (n : ℕ) (bs : List ℕ)
      → (find_chain store o x n bs).0 ≡ first_match o x bs
  unfolding find_chain
  find_chain-first_match o x n [] = refl
  find_chain-first_match o x n (b ∷ bs) = elim (Bool-cases (is_match store o x b)) [
    | inl e ↦ rw e
    | inr e ↦ rw e (find_chain-first_match o x (n + 1) bs)
  ]

  -- The index as a map.
  abbrev pub entry : Index → ℕ → Sockaddr → Option ℕ
  entry index o x = (find store index o x).0

  pub entry_lem :
      (index : Index) (o : ℕ) (x : Sockaddr)
      → entry index o x ≡ (
          if (index.bucket_count == 0) || not (valid_original x)
          then none
          else first_match o x (index.buckets (bucket_of index o x)))
  unfolding find
  entry_lem index o x =
      ground (arith, find_chain-first_match o x 0 (index.buckets (bucket_of index o x)))

  -- What a successful `insert` did.
  record Inserted (index : Index) (b : ℕ) (next : Index) : Type 0 where
    owner : ℕ
    owned : (store b).owner ≡ some owner
    allocated : (index.bucket_count == 0) ≡ false
    used : (store b).used ≡ true
    valid : valid_original (store b).original_dst ≡ true
    result : next ≡ (
        let k = bucket_of index owner (store b).original_dst in
        record index { buckets = write index.buckets k (b ∷ index.buckets k) })

  insert-Inserted :
      (index : Index) (b : ℕ) (next : Index)
      → insert store index b ≡ ok next
      → Inserted index b next
  unfolding insert
  insert-Inserted index b next e = go (store b).owner refl e
    where
      go :
          (own : Option ℕ)
          → (store b).owner ≡ own
          → insert_owned store index b own ≡ ok next
          → Inserted index b next
      go none own h = cc
      go (some a) own h = record {
        owner = a;
        owned = own;
        allocated = ground arith;
        used = ground arith;
        valid = ground arith;
        result = ground arith;
      }

  -- Looking up after an insertion that succeeded: the new binding under its key, and under every
  -- other key what was found before.
  pub find-insert :
      (index : Index) (b : ℕ) (next : Index) (o : ℕ) (x : Sockaddr)
      → insert store index b ≡ ok next
      → entry next o x ≡ (if is_match store o x b then some b else entry index o x)
  find-insert index b next o x e =
      let i = insert-Inserted index b next e in
      elim (Bool-cases (is_match store o x b)) [
        | inl m ↦
            let k = is_match-SameKey b i.owner o x i.owned m in
            ground (
              arith,
              entry_lem next o x,
              i.result,
              i.valid,
              i.allocated,
              binding_hash-SameKey i.owner o (store b).original_dst x k,
              valid-SameKey i.owner o (store b).original_dst x k,
            )
        | inr m ↦ ground (arith, m, entry_lem next o x, entry_lem index o x, i.result)
      ]

  -- At most one binding of a chain fits a key.
  abbrev pub Separate : List ℕ → Type 0
  Separate [] = Unit {0}
  Separate (b ∷ bs) =
      ((o : ℕ) (x : Sockaddr) → is_match store o x b ≡ true → first_match o x bs ≡ none)
      × Separate bs

  abbrev pub IsIndex : Index → Type 0
  IsIndex index = (k : ℕ) → Separate (index.buckets k)

  pub is_match-cong :
      (a o : ℕ) (y x : Sockaddr) (c : ℕ)
      → SameKey a y o x
      → is_match store a y c ≡ is_match store o x c
  unfolding same_key
  is_match-cong a o y x c k = rw (k.owner, k.family, k.port, k.addr)

  pub first_match-cong :
      (a o : ℕ) (y x : Sockaddr) (cs : List ℕ)
      → SameKey a y o x
      → first_match a y cs ≡ first_match o x cs
  first_match-cong a o y x [] k = refl
  first_match-cong a o y x (c ∷ cs) k =
      rw (is_match-cong a o y x c k, first_match-cong a o y x cs k)

  -- A new binding, under a key that was not found before, keeps the keys apart.
  pub insert-IsIndex :
      (index : Index) (b a : ℕ) (next : Index)
      → IsIndex index
      → (store b).owner ≡ some a
      → entry index a (store b).original_dst ≡ none
      → insert store index b ≡ ok next
      → IsIndex next
  insert-IsIndex index b a next s own new e =
      let i = insert-Inserted index b next e in
      let y = (store b).original_dst in
      let at = bucket_of index i.owner y in
      let same : a ≡ i.owner = ground (arith, i.owned) in
      let absent : first_match i.owner y (index.buckets at) ≡ none =
        ground (arith, same, i.valid, i.allocated, entry_lem index i.owner y) in
      let apart = λ (o : ℕ) (x : Sockaddr) (m : is_match store o x b ≡ true).
        sym (
          first_match-cong i.owner o y x (index.buckets at)
            (is_match-SameKey b i.owner o x i.owned m))
        ∙ absent in
      subst IsIndex (sym i.result) (
        write_all (λ j chain. Separate chain) index.buckets at (b ∷ index.buckets at) (apart, s at)
          s)
