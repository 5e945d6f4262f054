-- ===== src/Dns/Table/Keep.antt =====
-- Every operation of the transaction table keeps it well formed.
use bpf2socks.Prelude.{
  ℕ, zero, suc, ◌+◌, ◌-◌, ◌≤◌, ◌<◌, ◌≡◌, ◌≢◌, refl, arith, Bool, true, false, List, [], ◌∷◌, ◌++◌,
  length, All, if◌then◌else◌, ok,
}
use bpf2socks.Lru.Chain.{empty-Holds, Distinct, Absent}
use bpf2socks.Dns.Table.{Table, init, release_index, release, free_stack, unlist, blank, fresh}
use bpf2socks.Dns.Table.Inv.{Inv, IsTable, All_at, unlist-Inv, length-without, slot-unlist}

-- The stack holds the numbers below `capacity`, each once.
free_stack-Absent :
    (capacity n i : ℕ) → n ≤ capacity → i + n < capacity → Absent i (free_stack capacity n)
free_stack-Absent capacity zero i h k = tt
free_stack-Absent capacity (suc n) i h k =
    (omega arith, free_stack-Absent capacity n i (omega arith) (omega arith))

free_stack-Distinct : (capacity n : ℕ) → n ≤ capacity → Distinct (free_stack capacity n)
free_stack-Distinct capacity zero h = tt
free_stack-Distinct capacity (suc n) h = (
  free_stack-Absent capacity n (capacity - 1 - n) (omega arith) (omega arith),
  free_stack-Distinct capacity n (omega arith),
)

length-free_stack : (capacity n : ℕ) → length (free_stack capacity n) ≡ n
length-free_stack capacity zero = refl
length-free_stack capacity (suc n) = omega (arith, length-free_stack capacity n)

free_stack-unused :
    (capacity n : ℕ)
    → n ≤ capacity
    → All (λ i. (i < capacity) × (blank.used ≡ false)) (free_stack capacity n)
free_stack-unused capacity zero h = tt
free_stack-unused capacity (suc n) h =
    ((omega arith, refl), free_stack-unused capacity n (omega arith))

-- `init` succeeds only with a channel, a slot and its memory, and makes the fresh table.
pub init-ok :
    (allocated : Bool) (channel_count capacity : ℕ) {t : Table}
    → init allocated channel_count capacity ≡ ok t
    → (0 < channel_count) × (0 < capacity) × (t ≡ fresh channel_count capacity)
unfolding init
init-ok allocated channel_count capacity e = ground arith

fresh-IsTable : (channel_count capacity : ℕ) → IsTable (fresh channel_count capacity) []
fresh-IsTable channel_count capacity = record {
  order = empty-Holds;
  used_in = λ i h. cc;
  in_used = tt;
  keyed = λ i h. cc;
  backed = λ o i h. cc;
  spare = free_stack-unused capacity capacity (omega arith);
  apart = free_stack-Distinct capacity capacity (omega arith);
  total = omega (arith, length-free_stack capacity capacity);
  ids = λ c. omega arith;
}

-- A table that `init` makes is well formed, and has no slot in use.
pub init-IsTable :
    (allocated : Bool) (channel_count capacity : ℕ) {t : Table}
    → init allocated channel_count capacity ≡ ok t
    → IsTable t []
init-IsTable allocated channel_count capacity e =
    rw (init-ok allocated channel_count capacity e).2 (fresh-IsTable channel_count capacity)

-- The stack itself is no part of the invariant, but its pool is.
pub restack :
    (t : Table) (xs pool fs : List ℕ) → Inv t xs pool → Inv (record t { free_indices = fs }) xs pool
restack t xs pool fs v = record {
  order = v.order;
  used_in = v.used_in;
  in_used = v.in_used;
  keyed = λ i h. record {
    channel = (v.keyed i h).channel;
    id = (v.keyed i h).id;
    found = (v.keyed i h).found;
  };
  backed = v.backed;
  spare = v.spare;
  apart = v.apart;
  total = v.total;
  ids = v.ids;
}

release_index-unlist :
    (t : Table) (i : ℕ) (give : Bool)
    → i < t.capacity
    → (t.transactions i).used ≡ true
    → length t.free_indices < t.capacity
    → release_index t i give
      ≡ (if give then record (unlist t i) { free_indices = i ∷ t.free_indices } else unlist t i)
unfolding release_index
release_index-unlist t i true h u room = ground arith
release_index-unlist t i false h u room = ground arith

in_range : (t : Table) (i : ℕ) → i < t.capacity → release t i ≡ release_index t i true
unfolding release
in_range t i h = ground arith

module _ (t : Table) (ys : List ℕ) (i : ℕ) (zs : List ℕ) (v : IsTable t (ys ++ i ∷ zs)) where
  pub released :
      (give : Bool)
      → release_index t i give
        ≡ (if give then record (unlist t i) { free_indices = i ∷ t.free_indices } else unlist t i)
  released give =
      let at = All_at _ ys i zs v.in_used in
      release_index-unlist t i give at.0 at.1 (omega (arith, v.total, length-without ys i zs))

  pub evict-Inv : Inv (release_index t i false) (ys ++ zs) (i ∷ t.free_indices)
  evict-Inv = rw (released false) (unlist-Inv t ys i zs t.free_indices v)

  pub give-IsTable : IsTable (release_index t i true) (ys ++ zs)
  give-IsTable = rw (released true) (
      restack (unlist t i) (ys ++ zs) (i ∷ t.free_indices) (i ∷ t.free_indices)
        (unlist-Inv t ys i zs t.free_indices v))

  -- Releasing a slot in use of a well-formed table keeps it well formed: the slot goes from the
  -- order of use to the stack of free slots.
  pub release-IsTable : IsTable (release t i) (ys ++ zs)
  release-IsTable = rw (in_range t i (All_at _ ys i zs v.in_used).0) give-IsTable

  -- It leaves the other slots as they are.
  pub kept :
      (give : Bool) (j : ℕ) → i ≢ j → (release_index t i give).transactions j ≡ t.transactions j
  kept true j ne = rw (released true) (slot-unlist t ys i zs t.free_indices v j ne)
  kept false j ne = rw (released false) (slot-unlist t ys i zs t.free_indices v j ne)

  pub kept_release : (j : ℕ) → i ≢ j → (release t i).transactions j ≡ t.transactions j
  kept_release j ne = rw (in_range t i (All_at _ ys i zs v.in_used).0) (kept true j ne)

  pub generations-release :
      (give : Bool)
      → ((release_index t i give).response_generations ≡ t.response_generations)
        × ((release_index t i give).channel_count ≡ t.channel_count)
  generations-release true = rw (released true) (refl, refl)
  generations-release false = rw (released false) (refl, refl)
