-- ===== src/Token/Lookup.antt =====
-- What the two lookups of the token map find, and what `token_take` leaves of it.
use bpf2socks.Prelude.{
  ◌≡◌, ◌≢◌, ◌⊎◌, inl, inr, refl, sym, Bool, if◌then◌else◌, true, false, Option, none, some,
}
use bpf2socks.Token.{
  Key, zero_key, Mode, full_client, zero_client, Trace, Taken, taken, missing, unsupported,
  TokenMap, prefers_zero, or_else, lookup_udp, take_in_two, take, note_full, note_zero,
  after_atomic, delete_found, blank_trace,
}

module _ {M D : Type 0} (map : TokenMap M D) where
  -- The map without a key: no other entry is touched.
  pub record Without (m m' : M) (key : Key) : Type 0 where
    pub gone : map.lookup m' key ≡ none
    pub others : (k : Key) → k ≢ key → map.lookup m' k ≡ map.lookup m k

  -- What the kernel documents of a hash map.
  pub record IsTokenMap : Type 0 where
    pub taken_found :
        (m m' : M) (key : Key) (d : D)
        → map.lookup_and_delete m key ≡ taken d m'
        → (map.lookup m key ≡ some d) × Without m m' key
    pub missing_absent :
        (m : M) (key : Key) → map.lookup_and_delete m key ≡ missing → map.lookup m key ≡ none
    pub deleted : (m m' : M) (key : Key) → map.delete m key ≡ some m' → Without m m' key

  -- What a take may answer.
  abbrev pub Took : M → Key → Option (D × M × Bool) → Type 0
  Took m key none = map.lookup m key ≡ none
  Took m key (some (d, m', true)) = (map.lookup m key ≡ some d) × (m' ≡ m)
  Took m key (some (d, m', false)) = (map.lookup m key ≡ some d) × Without m m' key

  take_in_two-Took : IsTokenMap → (m : M) (key : Key) → Took m key (take_in_two map m key)
  take_in_two-Took laws m key = deleted_after (map.lookup m key) (map.delete m key) refl refl
    where
      deleted_after :
          (o : Option D) (x : Option M)
          → map.lookup m key ≡ o
          → map.delete m key ≡ x
          → Took m key (delete_found map m o x)
      deleted_after none x found gone = found
      deleted_after (some d) none found gone = (found, refl)
      deleted_after (some d) (some m') found gone = (found, laws.deleted m m' key gone)

  -- A take answers the value of the key, or that there is none; after it the key alone is gone from
  -- the map, unless the deletion failed, which it says and which leaves the map.
  pub take-Took :
      IsTokenMap → (flag : Bool) (m : M) (key : Key) → Took m key (take map flag m key).1
  unfolding take
  take-Took laws true m key = take_in_two-Took laws m key
  take-Took laws false m key = atomic (map.lookup_and_delete m key) refl
    where
      atomic :
          (t : Taken M D)
          → map.lookup_and_delete m key ≡ t
          → Took m key (after_atomic map m key t).1
      atomic (taken d m') e = laws.taken_found m m' key d e
      atomic missing e = laws.missing_absent m key e
      atomic unsupported e = take_in_two-Took laws m key

module _ {D : Type 0} where
  -- What a lookup of a client's token may answer, by what the full key and the key without a client
  -- have in the map.
  abbrev pub LookedUp : Option D → Option D → Option D × Trace → Type 0
  LookedUp full zero (none, t) = (full ≡ none) × (zero ≡ none)
  LookedUp full zero (some d, t) =
      ((t.matched_mode ≡ full_client) × (full ≡ some d))
      ⊎ ((t.matched_mode ≡ zero_client) × (zero ≡ some d))

  full_first :
      (full zero : Option D)
      → LookedUp full zero (or_else (note_full blank_trace full) (λ t. note_zero t zero))
  full_first none none = (refl, refl)
  full_first none (some z) = inr (refl, refl)
  full_first (some f) zero = inl (refl, refl)

  zero_first :
      (full zero : Option D)
      → LookedUp full zero (or_else (note_zero blank_trace zero) (λ t. note_full t full))
  zero_first none none = (refl, refl)
  zero_first full (some z) = inr (refl, refl)
  zero_first (some f) none = inl (refl, refl)

  -- With at most one of the two entries, the order of the lookups does not matter.
  same_either_way :
      (full zero : Option D)
      → (full ≡ none) ⊎ (zero ≡ none)
      → (or_else (note_zero blank_trace zero) (λ t. note_full t full)).0
        ≡ (or_else (note_full blank_trace full) (λ t. note_zero t zero)).0
  same_either_way none none h = refl
  same_either_way none (some z) h = refl
  same_either_way (some f) none h = refl
  same_either_way (some f) (some z) (inl e) = cc
  same_either_way (some f) (some z) (inr e) = cc

module _ {M D : Type 0} (map : TokenMap M D) where
  -- A lookup finds a token whenever the full key or the key without a client has one, and its trace
  -- names the key that it was found under.
  pub lookup_udp-LookedUp :
      (m : M) (key : Key) (p : Mode)
      → LookedUp (map.lookup m key) (map.lookup m (zero_key key)) (lookup_udp map m key p)
  unfolding lookup_udp
  lookup_udp-LookedUp m key p = by_order (prefers_zero key p)
    where
      full : Option D
      full = map.lookup m key

      zero : Option D
      zero = map.lookup m (zero_key key)

      by_order :
          (b : Bool)
          → LookedUp full zero (
              if b
              then or_else (note_zero blank_trace zero) (λ t. note_full t full)
              else or_else (note_full blank_trace full) (λ t. note_zero t zero))
      by_order true = zero_first full zero
      by_order false = full_first full zero

  -- When not both keys are in the map, the preference does not change what is found.
  pub lookup_udp_preference :
      (m : M) (key : Key) (p q : Mode)
      → (map.lookup m key ≡ none) ⊎ (map.lookup m (zero_key key) ≡ none)
      → (lookup_udp map m key p).0 ≡ (lookup_udp map m key q).0
  unfolding lookup_udp
  lookup_udp_preference m key p q h = by_orders (prefers_zero key p) (prefers_zero key q)
    where
      full : Option D
      full = map.lookup m key

      zero : Option D
      zero = map.lookup m (zero_key key)

      found : Bool → Option D
      found b =
          (if b
            then or_else (note_zero blank_trace zero) (λ t. note_full t full)
            else or_else (note_full blank_trace full) (λ t. note_zero t zero)).0

      by_orders : (b c : Bool) → found b ≡ found c
      by_orders true true = refl
      by_orders true false = same_either_way full zero h
      by_orders false true = sym (same_either_way full zero h)
      by_orders false false = refl
