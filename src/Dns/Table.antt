-- ===== src/Dns/Table.antt =====
-- The DNS transaction table of bridge/dns.c: slots, the lookup by channel and rewritten id, the
-- stack of free slots, and the LRU. Arrays are functions of their index (`Inv` shows that the code
-- keeps to the indices below `capacity`); `free_indices` with `free_count` is a list, top first;
-- -1 in `lookup` is `none`. A freed table is one with no slot and no channel.
pub mod Inv
pub mod Ids
pub mod Keep
pub mod Alloc
pub mod Find
pub mod Due
pub mod Expire
mod Tests
use bpf2socks.Prelude.{
  ℕ, zero, suc, ◌+◌, ◌-◌, ◌*◌, ◌%◌, ◌^◌, Bool, true, false, ◌&&◌, ◌||◌, not, Option, none, some,
  List, [], ◌∷◌, ltb, leb, ◌==◌, if◌then◌else◌, length, write, Result, ok, err, einval, enomem,
  enospc,
}
use bpf2socks.Lru.{Lru, empty, is_ptr, detach, attach_tail}

-- What dns.c itself keeps of a transaction; the client's addresses, which the caller of `alloc`
-- fills in, are not touched here.
pub record Transaction : Type 0 where
  pub used : Bool
  pub channel_index : ℕ
  pub rewritten_id : ℕ
  pub original_id : ℕ
  pub question_fingerprint : ℕ
  pub sent_at_ms : ℕ
  pub response_generation : ℕ

pub record Table : Type 0 where
  pub transactions : ℕ → Transaction
  pub lookup : ℕ → Option ℕ
  pub next_ids : ℕ → ℕ
  pub response_generations : ℕ → ℕ
  pub free_indices : List ℕ
  pub capacity : ℕ
  pub channel_count : ℕ
  pub lru : Lru

abbrev pub blank : Transaction
blank = record {
  used = false;
  channel_index = 0;
  rewritten_id = 0;
  original_id = 0;
  question_fingerprint = 0;
  sent_at_ms = 0;
  response_generation = 0;
}

abbrev pub lookup_offset : ℕ → ℕ → ℕ
lookup_offset channel_index id = channel_index * 65536 + id

-- The first part of `release_index`, on a slot in use: out of the lookup, out of the LRU, zeroed.
abbrev pub unlist : Table → ℕ → Table
unlist t index =
    let tx = t.transactions index in
    let offset = lookup_offset tx.channel_index tx.rewritten_id in
    record t {
      lookup = if is_ptr (t.lookup offset) index then write t.lookup offset none else t.lookup;
      lru = detach t.lru index;
      transactions = write t.transactions index blank;
    }

pub release_index : Table → ℕ → Bool → Table
release_index t index return_to_free_stack =
    if leb t.capacity index || not (t.transactions index).used
    then t
    else (let t1 = unlist t index in
        if return_to_free_stack && ltb (length t1.free_indices) t1.capacity
        then record t1 { free_indices = index ∷ t1.free_indices }
        else t1)

-- The stack after `n` rounds of `free_indices[i] = capacity - 1 - i`.
abbrev pub free_stack : ℕ → ℕ → List ℕ
free_stack capacity zero = []
free_stack capacity (suc i) = (capacity - 1 - i) ∷ free_stack capacity i

-- The table after `init`'s loops.
abbrev pub fresh : ℕ → ℕ → Table
fresh channel_count capacity = record {
  transactions = λ _. blank;
  lookup = λ _. none;
  next_ids = λ _. 0;
  response_generations = λ _. 0;
  free_indices = free_stack capacity capacity;
  capacity = capacity;
  channel_count = channel_count;
  lru = empty;
}

-- The Boolean says whether the allocations succeed.
pub init : Bool → ℕ → ℕ → Result Table
init allocated channel_count capacity =
    if channel_count == 0 || capacity == 0
    then err einval
    else (if not allocated then err enomem else ok (fresh channel_count capacity))

-- The `do … while (id != start)` loop of `allocate_id`: `none` when the fuel runs out, `some none`
-- when every id of the channel is taken.
pub scan_ids : ℕ → Table → ℕ → ℕ → ℕ → Option (Option ℕ)
scan_ids zero t channel start id = none
scan_ids (suc fuel) t channel start id =
    let id' = (id + 1) % 65536 in
    let rest = scan_ids fuel t channel start id' in
    let again : Option (Option ℕ) = if id' == start then some none else rest in
    elim (t.lookup (lookup_offset channel id)) [ none ↦ some (some id) | some _ ↦ again ]

-- 65536 rounds bring the id back to the start.
pub allocate_id : Table → ℕ → Option (Option ℕ)
allocate_id t channel = scan_ids 65536 t channel (t.next_ids channel) (t.next_ids channel)

-- The loop over the channels, the preferred one first: the channel and id, or `none` if all ids of
-- all channels are taken (also, vacuously, without fuel for `allocate_id`).
pub pick_id : ℕ → Table → ℕ → ℕ → Option (ℕ × ℕ)
pick_id zero t preferred attempt = none
pick_id (suc rounds) t preferred attempt =
    let channel = (preferred + attempt) % 2 ^ 32 % t.channel_count in
    let rest = pick_id rounds t preferred (attempt + 1) in
    elim (allocate_id t channel) [ some (some id) ↦ some (channel, id) | _ ↦ rest ]

-- A slot for a new transaction: from the stack, or else the least recent one, which is evicted.
abbrev pub take_from : Table → List ℕ → Option ℕ → Result (Table × ℕ)
take_from t (slot ∷ rest) lru_head = ok (record t { free_indices = rest }, slot)
take_from t [] none = err enomem
take_from t [] (some slot) = ok (release_index t slot false, slot)

pub take_slot : Table → Result (Table × ℕ)
take_slot t = take_from t t.free_indices t.lru.head

-- The part of `alloc` behind `found_id`.
abbrev pub register : Table → ℕ → ℕ → ℕ → ℕ → ℕ → ℕ → Table
register t slot channel id original_id question_fingerprint now_ms = record t {
  next_ids = write t.next_ids channel ((id + 1) % 65536);
  transactions = write t.transactions slot (record {
    used = true;
    channel_index = channel;
    rewritten_id = id;
    original_id = original_id;
    question_fingerprint = question_fingerprint;
    sent_at_ms = now_ms;
    response_generation = t.response_generations channel;
  });
  lookup = write t.lookup (lookup_offset channel id) (some slot);
  lru = attach_tail t.lru slot;
}

-- The slot is registered under the channel and id, or goes back to the stack if there is none.
abbrev pub finish : Table → ℕ → ℕ → ℕ → ℕ → Option (ℕ × ℕ) → Table × Result ℕ
finish t slot original_id question_fingerprint now_ms (some (channel, id)) =
    (register t slot channel id original_id question_fingerprint now_ms, ok slot)
finish t slot original_id question_fingerprint now_ms none = (
  if ltb (length t.free_indices) t.capacity
      then record t { free_indices = slot ∷ t.free_indices }
      else t,
  err enospc,
)

abbrev pub place : Table → ℕ → ℕ → ℕ → ℕ → Result (Table × ℕ) → Table × Result ℕ
place t preferred original_id question_fingerprint now_ms (err e) = (t, err e)
place t preferred original_id question_fingerprint now_ms (ok (t1, slot)) =
    finish t1 slot original_id question_fingerprint now_ms (pick_id t1.channel_count t1 preferred 0)

-- `bpf2socks_dns_table_alloc`: the table, and the slot of the new transaction or the errno.
pub alloc : Table → ℕ → ℕ → ℕ → ℕ → Table × Result ℕ
alloc t preferred_channel original_id question_fingerprint now_ms =
    if leb t.channel_count preferred_channel
    then (t, err einval)
    else place t preferred_channel original_id question_fingerprint now_ms (take_slot t)

pub find : Table → ℕ → ℕ → Option ℕ
find t channel_index rewritten_id =
    if leb t.channel_count channel_index
    then none
    else (elim (t.lookup (lookup_offset channel_index rewritten_id)) [
      | none ↦ none
      | some index ↦
          if leb t.capacity index || not (t.transactions index).used then none else some index
    ])

pub note_response : Table → ℕ → Table
note_response t channel_index = if leb t.channel_count channel_index then t else record t {
  response_generations =
      write t.response_generations channel_index
        ((t.response_generations channel_index + 1) % 2 ^ 64);
}

pub release : Table → ℕ → Table
unfolding release_index
release t index = if leb t.capacity index then t else release_index t index true

-- `none` for false, else what goes to `*sent_at_ms`.
pub oldest : Table → Option ℕ
oldest t = elim t.lru.head [
  | none ↦ none
  | some index ↦
      if (t.transactions index).used then some (t.transactions index).sent_at_ms else none
]

-- The negation of the `break` condition of `expire`'s loop.
pub is_due : Transaction → ℕ → ℕ → Bool
is_due tx now_ms timeout_ms =
    not (not tx.used || ltb now_ms tx.sent_at_ms || ltb (now_ms - tx.sent_at_ms) timeout_ms)

-- The head of the LRU, if there is one and it is due: the conditions of `expire`'s loop.
abbrev pub due_at : Table → ℕ → ℕ → Option ℕ → Option ℕ
due_at t now_ms timeout_ms none = none
due_at t now_ms timeout_ms (some index) =
    if is_due (t.transactions index) now_ms timeout_ms then some index else none

pub due_head : Table → ℕ → ℕ → Option ℕ
due_head t now_ms timeout_ms = due_at t now_ms timeout_ms t.lru.head

pub mark_stale : Table → ℕ → ℕ → (ℕ → Bool) → ℕ → Bool
mark_stale t index stale_channel_count stale =
    let tx = t.transactions index in
    if ltb tx.channel_index stale_channel_count
      && ltb tx.channel_index t.channel_count
      && tx.response_generation == t.response_generations tx.channel_index
    then write stale tx.channel_index true
    else stale

-- The loop of `expire`, with `max_expire - expired` rounds left. A NULL `stale_channels` is a
-- `stale_channel_count` of 0.
pub expire : ℕ → Table → ℕ → ℕ → ℕ → (ℕ → Bool) → Table × ℕ × (ℕ → Bool)
expire zero t now_ms timeout_ms count stale = (t, 0, stale)
expire (suc rounds) t now_ms timeout_ms count stale = elim (due_head t now_ms timeout_ms) [
  | none ↦ (t, 0, stale)
  | some index ↦
      let (t', expired, stale') =
        expire rounds (release_index t index true) now_ms timeout_ms count
          (mark_stale t index count stale) in
      (t', expired + 1, stale')
]
