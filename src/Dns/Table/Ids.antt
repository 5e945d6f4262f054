-- ===== src/Dns/Table/Ids.antt =====
-- `allocate_id` and the search over the channels: the loop ends, an id that is found is free, and a
-- channel is given up only when all its 65536 ids are taken.
use bpf2socks.Prelude.{
  ℕ, zero, suc, ◌+◌, ◌-◌, ◌%◌, ◌^◌, ◌≤◌, ◌<◌, ◌≡◌, ◌≢◌, ◌⊎◌, refl, sym, ap, arith, Option, none,
  some, List, [], ◌∷◌, ◌++◌, length, All, inl, inr, Option-cases, subst,
}
use bpf2socks.Lru.Chain.{Distinct, Absent}
use bpf2socks.Dns.Table.{Table, lookup_offset, scan_ids, allocate_id, pick_id}
use bpf2socks.Dns.Table.Inv.{Inv, In, In-split, In-without, length-without, offset_of}

scan_found :
    (fuel : ℕ) (t : Table) (channel start id k : ℕ)
    → id < 65536
    → scan_ids fuel t channel start id ≡ some (some k)
    → (k < 65536) × (t.lookup (lookup_offset channel k) ≡ none)
unfolding scan_ids
scan_found zero t channel start id k h e = cc
scan_found (suc fuel) t channel start id k h e =
    ground (arith, scan_found fuel t channel start ((id + 1) % 65536) k)

scan_zero : (t : Table) (channel start id : ℕ) → scan_ids zero t channel start id ≡ none
unfolding scan_ids
scan_zero t channel start id = refl

-- With `d` steps left to the start, `d` rounds of fuel are enough.
scan_ids-ne-none :
    (fuel : ℕ) (t : Table) (channel start id d : ℕ)
    → start < 65536
    → (id + d) % 65536 ≡ start
    → 0 < d
    → d ≤ fuel
    → scan_ids fuel t channel start id ≢ none
unfolding scan_ids
scan_ids-ne-none zero t channel start id d hs hd pos le e = omega arith
scan_ids-ne-none (suc fuel) t channel start id d hs hd pos le e =
    ground (arith, scan_ids-ne-none fuel t channel start ((id + 1) % 65536) (d - 1))

scan_step :
    (fuel : ℕ) (t : Table) (channel start id : ℕ)
    → scan_ids (suc fuel) t channel start id ≡ some none
    → (t.lookup (lookup_offset channel id) ≢ none)
      × (((id + 1) % 65536 ≡ start)
          ⊎ (scan_ids fuel t channel start ((id + 1) % 65536) ≡ some none))
unfolding scan_ids
scan_step fuel t channel start id e = (λ free. ground (arith, free, e), ground arith)

-- A channel that is given up has every id taken, `d` steps on from where the loop stands.
scan_full :
    (fuel : ℕ) (t : Table) (channel start id d : ℕ)
    → id < 65536
    → (id + d) % 65536 ≡ start
    → d ≤ 65536
    → scan_ids fuel t channel start id ≡ some none
    → (j : ℕ) → j < d
    → t.lookup (lookup_offset channel ((id + j) % 65536)) ≢ none
scan_full zero t channel start id d hi hd le e j hj = λ free. no_fuel e
  where
    no_fuel : scan_ids zero t channel start id ≡ some none → ⊥
    no_fuel = λ e. cc (scan_zero t channel start id, e)
scan_full (suc fuel) t channel start id d hi hd le e zero hj =
    let here : (id + 0) % 65536 ≡ id = omega arith in
    rw here (scan_step fuel t channel start id e).0
scan_full (suc fuel) t channel start id d hi hd le e (suc j) hj =
    let on : (id + suc j) % 65536 ≡ ((id + 1) % 65536 + j) % 65536 = omega arith in
    elim (scan_step fuel t channel start id e).1 [
      | inl stop ↦ absurd (omega arith)
      | inr more ↦ rw on (
          scan_full fuel t channel start ((id + 1) % 65536) (d - 1) (omega arith) (omega arith)
            (omega arith) more j (omega arith))
    ]

-- The loop of `allocate_id` ends within its 65536 rounds.
pub allocate_id-ne-none :
    (t : Table) (channel : ℕ) → t.next_ids channel < 65536 → allocate_id t channel ≢ none
unfolding allocate_id
allocate_id-ne-none t channel h =
    scan_ids-ne-none 65536 t channel (t.next_ids channel) (t.next_ids channel) 65536 h (omega arith)
      (omega arith) (omega arith)

-- What it returns is an id that is free.
pub allocate_id_free :
    (t : Table) (channel k : ℕ)
    → t.next_ids channel < 65536
    → allocate_id t channel ≡ some (some k)
    → (k < 65536) × (t.lookup (lookup_offset channel k) ≡ none)
unfolding allocate_id
allocate_id_free t channel k h e = scan_found 65536 t channel (t.next_ids channel) _ k h e

-- It gives up only where every id of the channel is taken.
pub allocate_id_full :
    (t : Table) (channel : ℕ)
    → t.next_ids channel < 65536
    → allocate_id t channel ≡ some none
    → (k : ℕ) → k < 65536
    → t.lookup (lookup_offset channel k) ≢ none
unfolding allocate_id
allocate_id_full t channel h e k hk =
    let start = t.next_ids channel in
    let round : (start + (k + 65536 - start) % 65536) % 65536 ≡ k = omega arith in
    rw (← round) (
      scan_full 65536 t channel start start 65536 h (omega arith) (omega arith) e
        ((k + 65536 - start) % 65536) (omega arith))

-- More distinct numbers than a list has members do not all stand in it.
pigeonhole : (ys xs : List ℕ) → Distinct ys → All (λ y. In y xs) ys → length ys ≤ length xs
pigeonhole [] xs d h = omega arith
pigeonhole (y ∷ ys) xs d h =
    let (before, after, e) = In-split y xs h.0 in
    let rest =
      pigeonhole ys (before ++ after) d.1
        (others ys before after d.0 (subst (λ ws. All (λ z. In z ws) ys) e h.1)) in
    rw e (omega (arith, rest, length-without before y after))
  where
    others :
        (zs before after : List ℕ)
        → Absent y zs
        → All (λ z. In z (before ++ y ∷ after)) zs
        → All (λ z. In z (before ++ after)) zs
    others [] before after a h = tt
    others (z ∷ zs) before after a h =
        (In-without z y before after (λ e. a.0 (sym e)) h.0, others zs before after a.1 h.1)

-- The slots behind the first `n` ids of a channel, where these are all taken.
record Taken (t : Table) (xs : List ℕ) (channel n : ℕ) : Type 0 where
  slots : List ℕ
  count : length slots ≡ n
  distinct : Distinct slots
  members : All (λ i. In i xs) slots
  below : All (λ i. offset_of t i < lookup_offset channel n) slots

below_Absent :
    (t : Table) (i o : ℕ) (xs : List ℕ)
    → offset_of t i ≡ o
    → All (λ j. offset_of t j < o) xs
    → Absent i xs
below_Absent t i o [] e h = tt
below_Absent t i o (j ∷ xs) e h =
    ((λ ij. omega (arith, h.0, e, ap (offset_of t) ij)), below_Absent t i o xs e h.1)

below_next :
    (t : Table) (o p : ℕ) (xs : List ℕ)
    → o ≤ p
    → All (λ j. offset_of t j < o) xs
    → All (λ j. offset_of t j < p) xs
below_next t o p [] le h = tt
below_next t o p (j ∷ xs) le h = (omega arith, below_next t o p xs le h.1)

taken :
    (t : Table) (xs pool : List ℕ) (channel : ℕ)
    → Inv t xs pool
    → (n : ℕ) → ((k : ℕ) → k < n → t.lookup (lookup_offset channel k) ≢ none)
    → Taken t xs channel n
taken t xs pool channel v zero h = record {
  slots = [];
  count = refl;
  distinct = tt;
  members = tt;
  below = tt;
}
taken t xs pool channel v (suc n) h =
    let prior = taken t xs pool channel v n (λ k hk. h k (omega arith)) in
    elim (Option-cases (t.lookup (lookup_offset channel n))) [
      | inl free ↦ absurd (h n (omega arith) free)
      | inr (i, e) ↦
          let b = v.backed (lookup_offset channel n) i e in
          record {
            slots = i ∷ prior.slots;
            count = omega (arith, prior.count);
            distinct = (below_Absent t i _ prior.slots b.1 prior.below, prior.distinct);
            members = (v.used_in i b.0, prior.members);
            below = (omega (arith, b.1), below_next t _ _ prior.slots (omega arith) prior.below);
          }
    ]

-- With fewer than 65536 slots in use, `allocate_id` finds an id on every channel.
pub allocate_id_room :
    (t : Table) (xs pool : List ℕ) (channel : ℕ)
    → Inv t xs pool
    → length xs < 65536
    → (id : ℕ) × (allocate_id t channel ≡ some (some id))
allocate_id_room t xs pool channel v room = go (allocate_id t channel) refl
  where
    go :
        (r : Option (Option ℕ))
        → allocate_id t channel ≡ r
        → (id : ℕ) × (allocate_id t channel ≡ some (some id))
    go none e = absurd (allocate_id-ne-none t channel (v.ids channel) e)
    go (some none) e =
        let all = taken t xs pool channel v 65536 (allocate_id_full t channel (v.ids channel) e) in
        absurd (omega (arith, pigeonhole all.slots xs all.distinct all.members, all.count))
    go (some (some id)) e = (id, e)

-- The channel and id that the search over the channels returns are free for a new transaction.
pub pick_id_free :
    (rounds : ℕ) (t : Table) (preferred attempt channel id : ℕ)
    → ((c : ℕ) → t.next_ids c < 65536)
    → 0 < t.channel_count
    → pick_id rounds t preferred attempt ≡ some (channel, id)
    → (channel < t.channel_count) × (id < 65536) × (t.lookup (lookup_offset channel id) ≡ none)
unfolding pick_id
pick_id_free zero t preferred attempt channel id ids pos e = cc
pick_id_free (suc rounds) t preferred attempt channel id ids pos e =
    let c = (preferred + attempt) % 2 ^ 32 % t.channel_count in
    ground (
      arith,
      allocate_id_free t c id (ids c),
      pick_id_free rounds t preferred (attempt + 1) channel id ids pos,
    )

-- With room, the first channel that is tried has an id.
pub pick_id_room :
    (rounds : ℕ) (t : Table) (xs pool : List ℕ) (preferred attempt : ℕ)
    → Inv t xs pool
    → length xs < 65536
    → pick_id (suc rounds) t preferred attempt ≢ none
unfolding pick_id
pick_id_room rounds t xs pool preferred attempt v room e =
    let c = (preferred + attempt) % 2 ^ 32 % t.channel_count in
    ground (arith, (allocate_id_room t xs pool c v room).1, e)
