-- ===== src/Dns/Table/Inv.antt =====
-- The well-formedness of the transaction table, and the two moves of a slot that keep it: a slot in
-- use becomes spare (`unlist`), a spare slot becomes in use (`register`).
use bpf2socks.Prelude.{
  ℕ, ◌+◌, ◌<◌, ◌≡◌, ◌≢◌, ◌⊎◌, refl, sym, ◌∙◌, subst, ap, arith, true, false, none, some, List, [],
  ◌∷◌, ◌++◌, length, length-append, write, All, All-append, inl, inr,
}
use bpf2socks.Lru.Chain.{Holds, Distinct, Absent, Distinct-without}
use bpf2socks.Lru.Remove.{detach-Holds}
use bpf2socks.Lru.Append.{attach_tail-Holds}
use bpf2socks.Dns.Table.{Table, lookup_offset, unlist, register}

-- `x` stands somewhere in the list.
abbrev pub In : ℕ → List ℕ → Type 0
In x [] = ⊥
In x (y ∷ ys) = (x ≡ y) ⊎ In x ys

abbrev pub offset_of : Table → ℕ → ℕ
offset_of t i = lookup_offset (t.transactions i).channel_index (t.transactions i).rewritten_id

-- A slot in use is listed once, by its channel and id.
pub record IsKeyed (t : Table) (i : ℕ) : Type 0 where
  pub channel : (t.transactions i).channel_index < t.channel_count
  pub id : (t.transactions i).rewritten_id < 65536
  pub found : t.lookup (offset_of t i) ≡ some i

-- `xs` are the slots in use, least recent first; `pool` are the spare ones.
pub record Inv (t : Table) (xs pool : List ℕ) : Type 0 where
  pub order : Holds t.lru xs
  pub used_in : (i : ℕ) → (t.transactions i).used ≡ true → In i xs
  pub in_used : All (λ i. (i < t.capacity) × ((t.transactions i).used ≡ true)) xs
  pub keyed : (i : ℕ) → (t.transactions i).used ≡ true → IsKeyed t i
  pub backed :
      (o i : ℕ) → t.lookup o ≡ some i → ((t.transactions i).used ≡ true) × (offset_of t i ≡ o)
  pub spare : All (λ i. (i < t.capacity) × ((t.transactions i).used ≡ false)) pool
  pub apart : Distinct pool
  pub total : length xs + length pool ≡ t.capacity
  pub ids : (c : ℕ) → t.next_ids c < 65536

-- The table is well formed: what is not in use is on the stack of free slots.
abbrev pub IsTable : Table → List ℕ → Type 0
IsTable t xs = Inv t xs t.free_indices

pub All_at {ℓ} : (P : ℕ → Type ℓ) (ys : List ℕ) (x : ℕ) (zs : List ℕ) → All P (ys ++ x ∷ zs) → P x
All_at P [] x zs h = h.0
All_at P (y ∷ ys) x zs h = All_at P ys x zs h.1

All-without {ℓ} :
    (P : ℕ → Type ℓ) (ys : List ℕ) (x : ℕ) (zs : List ℕ) → All P (ys ++ x ∷ zs) → All P (ys ++ zs)
All-without P [] x zs h = h.1
All-without P (y ∷ ys) x zs h = (h.0, All-without P ys x zs h.1)

-- A property of all nodes passes to another that follows from it off `x`.
pub All-off {ℓ κ} :
    (P : ℕ → Type ℓ) (Q : ℕ → Type κ) (x : ℕ) (xs : List ℕ)
    → ((i : ℕ) → x ≢ i → P i → Q i)
    → Absent x xs
    → All P xs
    → All Q xs
All-off P Q x [] f a h = tt
All-off P Q x (y ∷ ys) f a h = (f y a.0 h.0, All-off P Q x ys f a.1 h.1)

Absent-All :
    {P : ℕ → Type 0} (x : ℕ) (xs : List ℕ) → ((i : ℕ) → P i → x ≢ i) → All P xs → Absent x xs
Absent-All x [] f h = tt
Absent-All x (y ∷ ys) f h = (f y h.0, Absent-All x ys f h.1)

pub In-All {ℓ} : (P : ℕ → Type ℓ) (j : ℕ) (xs : List ℕ) → In j xs → All P xs → P j
In-All P j [] h p = absurd h
In-All P j (x ∷ xs) (inl e) p = subst P (sym e) p.0
In-All P j (x ∷ xs) (inr h) p = In-All P j xs h p.1

-- Where a member stands.
pub In-split : (x : ℕ) (xs : List ℕ) → In x xs → (ys : List ℕ) × (zs : List ℕ) × (xs ≡ ys ++ x ∷ zs)
In-split x [] h = absurd h
In-split x (y ∷ ys) (inl e) = ([], ys, rw e)
In-split x (y ∷ ys) (inr h) =
    let (before, after, e) = In-split x ys h in (y ∷ before, after, ap (◌∷◌ y) e)

In-left : (x : ℕ) (xs ys : List ℕ) → In x xs → In x (xs ++ ys)
In-left x [] ys h = absurd h
In-left x (z ∷ xs) ys (inl e) = inl e
In-left x (z ∷ xs) ys (inr h) = inr (In-left x xs ys h)

In-snoc : (x : ℕ) (xs : List ℕ) → In x (xs ++ x ∷ [])
In-snoc x [] = inl refl
In-snoc x (y ∷ ys) = inr (In-snoc x ys)

pub In-without : (x i : ℕ) (ys zs : List ℕ) → x ≢ i → In x (ys ++ i ∷ zs) → In x (ys ++ zs)
In-without x i [] zs ne (inl e) = absurd (ne e)
In-without x i [] zs ne (inr h) = h
In-without x i (y ∷ ys) zs ne (inl e) = inl e
In-without x i (y ∷ ys) zs ne (inr h) = inr (In-without x i ys zs ne h)

pub In-widen : (x i : ℕ) (ys zs : List ℕ) → In x (ys ++ zs) → In x (ys ++ i ∷ zs)
In-widen x i [] zs h = inr h
In-widen x i (y ∷ ys) zs (inl e) = inl e
In-widen x i (y ∷ ys) zs (inr h) = inr (In-widen x i ys zs h)

pub In-Absent : (x i : ℕ) (xs : List ℕ) → Absent i xs → In x xs → i ≢ x
In-Absent x i [] a h = absurd h
In-Absent x i (y ∷ ys) a (inl e) = λ ix. a.0 (ix ∙ e)
In-Absent x i (y ∷ ys) a (inr h) = In-Absent x i ys a.1 h

pub length-without :
    (ys : List ℕ) (x : ℕ) (zs : List ℕ) → length (ys ++ x ∷ zs) ≡ length (ys ++ zs) + 1
length-without [] x zs = omega arith
length-without (y ∷ ys) x zs = omega (arith, length-without ys x zs)

pub write_self {ℓ} : {A : Type ℓ} (f : ℕ → A) (i : ℕ) (v : A) → write f i v i ≡ v
write_self f i v = ground arith

write_ne {ℓ} : {A : Type ℓ} (f : ℕ → A) (i : ℕ) (v : A) (j : ℕ) → i ≢ j → write f i v j ≡ f j
write_ne f i v j ne = ground arith

-- A slot whose entry and offset are as before is keyed as before.
IsKeyed-frame :
    (t u : Table) (j : ℕ)
    → u.channel_count ≡ t.channel_count
    → u.transactions j ≡ t.transactions j
    → u.lookup (offset_of t j) ≡ t.lookup (offset_of t j)
    → IsKeyed t j
    → IsKeyed u j
IsKeyed-frame t u j ec et el k = record {
  channel = rw (et, ec) k.channel;
  id = rw et k.id;
  found = rw (et, el) k.found;
}

-- Two slots in use have two offsets.
offset_ne :
    (t : Table) (i j : ℕ) → IsKeyed t i → IsKeyed t j → i ≢ j → offset_of t i ≢ offset_of t j
offset_ne t i j ki kj ne e = ne (cc (ki.found, kj.found, ap t.lookup e))

module _ (t : Table) (ys : List ℕ) (i : ℕ) (zs pool : List ℕ) (v : Inv t (ys ++ i ∷ zs) pool) where
  i_used : (t.transactions i).used ≡ true
  i_used = (All_at _ ys i zs v.in_used).1

  -- A slot in use loses its lookup entry.
  lookup-unlist : (unlist t i).lookup ≡ write t.lookup (offset_of t i) none
  lookup-unlist = rw (v.keyed i i_used).found (ground arith)

  used-unlist :
      (j : ℕ)
      → ((unlist t i).transactions j).used ≡ true
      → (i ≢ j) × ((t.transactions j).used ≡ true)
  used-unlist j h = (λ e. ground (arith, e, h), ground arith)

  pub slot-unlist : (j : ℕ) → i ≢ j → (unlist t i).transactions j ≡ t.transactions j
  slot-unlist j ne = write_ne t.transactions i _ j ne

  IsKeyed-unlist : (j : ℕ) → ((unlist t i).transactions j).used ≡ true → IsKeyed (unlist t i) j
  IsKeyed-unlist j h =
      let (ne, used) = used-unlist j h in
      let apart = offset_ne t i j (v.keyed i i_used) (v.keyed j used) ne in
      IsKeyed-frame t (unlist t i) j refl (slot-unlist j ne)
        (rw lookup-unlist (write_ne t.lookup (offset_of t i) none (offset_of t j) apart))
        (v.keyed j used)

  backed-unlist :
      (o j : ℕ)
      → (unlist t i).lookup o ≡ some j
      → (((unlist t i).transactions j).used ≡ true) × (offset_of (unlist t i) j ≡ o)
  backed-unlist o j h =
      let before = v.backed o j (kept o j (rw lookup-unlist at h)).1 in
      let ne : i ≢ j = λ e. (kept o j (rw lookup-unlist at h)).0 (rw e before.1) in
      (rw (slot-unlist j ne) before.0, rw (slot-unlist j ne) before.1)
    where
      kept :
          (o j : ℕ)
          → write t.lookup (offset_of t i) none o ≡ some j
          → (offset_of t i ≢ o) × (t.lookup o ≡ some j)
      kept o j h = (λ e. ground (arith, e, h), ground arith)

  pub unlist-Inv : Inv (unlist t i) (ys ++ zs) (i ∷ pool)
  unlist-Inv =
      let out = Distinct-without ys i zs v.order.distinct in
      let fresh = Absent-All i pool (λ j p e. cc (i_used, p.1, e)) v.spare in
      record {
        order = detach-Holds t.lru ys i zs v.order;
        used_in = λ j h.
            In-without j i ys zs (λ e. (used-unlist j h).0 (sym e))
              (v.used_in j (used-unlist j h).1);
        in_used =
            All-off _ _ i (ys ++ zs) (λ j ne p. (p.0, rw (slot-unlist j ne) p.1)) out.1
              (All-without _ ys i zs v.in_used);
        keyed = IsKeyed-unlist;
        backed = backed-unlist;
        spare = (
          ((All_at _ ys i zs v.in_used).0, rw (write_self t.transactions i)),
          All-off _ _ i pool (λ j ne p. (p.0, rw (slot-unlist j ne) p.1)) fresh v.spare,
        );
        apart = (fresh, v.apart);
        total = omega (arith, v.total, length-without ys i zs);
        ids = v.ids;
      }

-- A spare slot registered under a free id of a channel.
module _ (t : Table) (xs : List ℕ) (slot : ℕ) (pool : List ℕ) (v : Inv t xs (slot ∷ pool))
    (channel id original_id fingerprint now_ms : ℕ) where
  abbrev u : Table
  u = register t slot channel id original_id fingerprint now_ms

  used-register :
      (j : ℕ) → (u.transactions j).used ≡ true → (slot ≡ j) ⊎ ((t.transactions j).used ≡ true)
  used-register j h = ground arith

  pub slot-register : (j : ℕ) → slot ≢ j → u.transactions j ≡ t.transactions j
  slot-register j ne = write_ne t.transactions slot _ j ne

  slot_unused : (j : ℕ) → (t.transactions j).used ≡ true → slot ≢ j
  slot_unused j h e = cc (v.spare.0.1, h, e)

  IsKeyed-slot : channel < t.channel_count → id < 65536 → (j : ℕ) → slot ≡ j → IsKeyed u j
  IsKeyed-slot hc hi j e = rw (← e) (record {
    channel = ground arith;
    id = ground arith;
    found =
        rw (write_self t.transactions slot)
          (write_self t.lookup (lookup_offset channel id) (some slot));
  })

  IsKeyed-old :
      t.lookup (lookup_offset channel id) ≡ none
      → (j : ℕ) → (t.transactions j).used ≡ true
      → IsKeyed u j
  IsKeyed-old free j h =
      let k = v.keyed j h in
      IsKeyed-frame t u j refl (slot-register j (slot_unused j h))
        (write_ne t.lookup (lookup_offset channel id) (some slot) (offset_of t j)
          (λ e. cc (free, k.found, ap t.lookup e)))
        k

  lookup-register :
      (o j : ℕ)
      → u.lookup o ≡ some j
      → ((lookup_offset channel id ≡ o) × (slot ≡ j)) ⊎ (t.lookup o ≡ some j)
  lookup-register o j h = ground arith

  backed-register :
      (o j : ℕ) → u.lookup o ≡ some j → ((u.transactions j).used ≡ true) × (offset_of u j ≡ o)
  backed-register o j h = elim (lookup-register o j h) [
    | inl e ↦ rw (← e.1) (rw (write_self t.transactions slot) (refl, e.0))
    | inr old ↦ let b = v.backed o j old in rw (slot-register j (slot_unused j b.0)) b
  ]

  pub register-Inv :
      channel < t.channel_count
      → id < 65536
      → t.lookup (lookup_offset channel id) ≡ none
      → Inv u (xs ++ slot ∷ []) pool
  register-Inv hc hi free =
      let fresh = Absent-All slot xs (λ j p e. cc (v.spare.0.1, p.1, e)) v.in_used in
      record {
        order = attach_tail-Holds t.lru xs slot v.order fresh;
        used_in = λ j h. elim (used-register j h) [
          | inl e ↦ rw (← e) (In-snoc slot xs)
          | inr old ↦ In-left j xs (slot ∷ []) (v.used_in j old)
        ];
        in_used =
            All-append _ xs (slot ∷ [])
              (All-off _ _ slot xs (λ j ne p. (p.0, rw (slot-register j ne) p.1)) fresh v.in_used)
              ((v.spare.0.0, rw (write_self t.transactions slot)), tt);
        keyed = λ j h. elim (used-register j h) [
          | inl e ↦ IsKeyed-slot hc hi j e
          | inr old ↦ IsKeyed-old free j old
        ];
        backed = backed-register;
        spare =
            All-off _ _ slot pool (λ j ne p. (p.0, rw (slot-register j ne) p.1)) v.apart.0
              v.spare.1;
        apart = v.apart.1;
        total = omega (arith, v.total, length-append xs (slot ∷ []));
        ids = λ c. ground (arith, v.ids c);
      }
