-- ===== src/Dns/Table/Alloc.antt =====
-- `alloc`: a slot, an id of a channel, and the transaction registered under them.
use bpf2socks.Prelude.{
  ℕ, zero, suc, ◌≤◌, ◌<◌, ◌≡◌, ◌≢◌, refl, sym, ◌∙◌, arith, Bool, false, some, List, [], ◌∷◌, ◌++◌,
  length, leb, if◌then◌else◌, ok, err, einval, subst, ap, Option-cases, inl, inr,
}
use bpf2socks.Dns.Table.{
  Table, release_index, take_slot, register, alloc, pick_id, unlist, take_from, place, finish,
}
use bpf2socks.Dns.Table.Inv.{
  Inv, IsTable, In, unlist-Inv, register-Inv, In-All, slot-unlist, slot-register, write_self,
}
use bpf2socks.Dns.Table.Keep.{restack, released}
use bpf2socks.Dns.Table.Ids.{pick_id_free, pick_id_room}

-- Who stays when a slot is taken: all, or all but the least recent if none was free.
abbrev pub survivors : List ℕ → List ℕ → List ℕ
survivors (f ∷ fs) xs = xs
survivors [] [] = []
survivors [] (x ∷ xs) = xs

record Slot (t : Table) (xs : List ℕ) (t1 : Table) (slot : ℕ) : Type 0 where
  took : take_slot t ≡ ok (t1, slot)
  inv : Inv t1 (survivors t.free_indices xs) (slot ∷ t1.free_indices)
  channels : t1.channel_count ≡ t.channel_count
  slots : t1.capacity ≡ t.capacity
  kept : (j : ℕ) → slot ≢ j → t1.transactions j ≡ t.transactions j

from_stack :
    (t : Table) (slot : ℕ) (rest : List ℕ)
    → t.free_indices ≡ slot ∷ rest
    → take_slot t ≡ ok (record t { free_indices = rest }, slot)
unfolding take_slot
from_stack t slot rest e = λ i. take_from t (e i) t.lru.head

from_lru :
    (t : Table) (slot : ℕ)
    → t.free_indices ≡ []
    → t.lru.head ≡ some slot
    → take_slot t ≡ ok (release_index t slot false, slot)
unfolding take_slot
from_lru t slot e h = λ i. take_from t (e i) (h i)

take_slot_lem :
    (t : Table) (xs : List ℕ)
    → IsTable t xs
    → 0 < t.capacity
    → (t1 : Table) × (slot : ℕ) × Slot t xs t1 slot
take_slot_lem t xs v pos = go t.free_indices xs refl v
  where
    go :
        (fs xs : List ℕ)
        → t.free_indices ≡ fs
        → IsTable t xs
        → (t1 : Table) × (slot : ℕ) × Slot t xs t1 slot
    go (slot ∷ rest) xs e v = (
      record t { free_indices = rest },
      slot,
      record {
        took = from_stack t slot rest e;
        inv = rw e (restack t xs (slot ∷ rest) rest (subst (Inv t xs) e v));
        channels = refl;
        slots = refl;
        kept = λ j ne. refl;
      },
    )
    go [] [] e v = absurd (omega (arith, v.total, ap length e))
    go [] (x ∷ xs) e v =
        let eq = released t [] x xs v false in
        (
          unlist t x,
          x,
          record {
            took = from_lru t x e v.order.at_head ∙ ap (λ u. ok (u, x)) eq;
            inv =
                subst (λ fs. Inv (unlist t x) (survivors fs (x ∷ xs)) (x ∷ t.free_indices)) (sym e)
                  (unlist-Inv t [] x xs t.free_indices v);
            channels = refl;
            slots = refl;
            kept = λ j ne. slot-unlist t [] x xs t.free_indices v j ne;
          },
        )

length-survivors :
    (t : Table) (xs : List ℕ) (t1 : Table) (slot : ℕ)
    → Slot t xs t1 slot
    → length (survivors t.free_indices xs) < t.capacity
length-survivors t xs t1 slot s = omega (arith, s.inv.total, s.slots)

-- What `alloc` promises on a table with room for ids: a new transaction in `slot`, filled in from
-- the arguments, most recent of all, with those that survive unchanged.
pub record Allocated (t : Table) (xs : List ℕ) (preferred original_id fingerprint now_ms : ℕ)
    (t' : Table) (slot : ℕ) : Type 0 where
  pub result : alloc t preferred original_id fingerprint now_ms ≡ (t', ok slot)
  pub valid : IsTable t' (survivors t.free_indices xs ++ slot ∷ [])
  pub original : (t'.transactions slot).original_id ≡ original_id
  pub question : (t'.transactions slot).question_fingerprint ≡ fingerprint
  pub sent : (t'.transactions slot).sent_at_ms ≡ now_ms
  pub kept : (j : ℕ) → In j (survivors t.free_indices xs) → t'.transactions j ≡ t.transactions j

alloc_steps :
    (t t1 : Table) (slot preferred channel id original_id fingerprint now_ms : ℕ)
    → preferred < t.channel_count
    → take_slot t ≡ ok (t1, slot)
    → pick_id t1.channel_count t1 preferred 0 ≡ some (channel, id)
    → alloc t preferred original_id fingerprint now_ms
      ≡ (register t1 slot channel id original_id fingerprint now_ms, ok slot)
unfolding alloc
alloc_steps t t1 slot preferred channel id original_id fingerprint now_ms h took picked =
    in_channels (leb t.channel_count preferred) (ground arith)
    ∙ (ap (place t preferred original_id fingerprint now_ms) took
        ∙ ap (finish t1 slot original_id fingerprint now_ms) picked)
  where
    in_channels :
        (b : Bool)
        → b ≡ false
        → (if b
            then (t, err einval)
            else place t preferred original_id fingerprint now_ms (take_slot t))
          ≡ place t preferred original_id fingerprint now_ms (take_slot t)
    in_channels b e = rw e

picked_room :
    (t1 : Table) (xs pool : List ℕ) (preferred : ℕ)
    → Inv t1 xs pool
    → length xs < 65536
    → 0 < t1.channel_count
    → (channel : ℕ) × (id : ℕ) × (pick_id t1.channel_count t1 preferred 0 ≡ some (channel, id))
picked_room t1 xs pool preferred v room pos = go t1.channel_count pos
  where
    go :
        (n : ℕ) → 0 < n → (channel : ℕ) × (id : ℕ) × (pick_id n t1 preferred 0 ≡ some (channel, id))
    go zero h = absurd (omega arith)
    go (suc n) h = elim (Option-cases (pick_id (suc n) t1 preferred 0)) [
      | inl e ↦ absurd (pick_id_room n t1 xs pool preferred 0 v room e)
      | inr ((channel, id), e) ↦ (channel, id, e)
    ]

slot_fresh :
    {t : Table} {xs pool : List ℕ} {slot : ℕ} (j : ℕ) → In j xs → Inv t xs (slot ∷ pool) → slot ≢ j
slot_fresh {xs = xs} j h v e = cc (v.spare.0.1, (In-All _ j xs h v.in_used).1, e)

-- On a well-formed table with 1 to 65536 slots, and for a channel that it has, `alloc` never fails: a
-- slot is taken, from the stack or by evicting the least recent transaction, an id is found, and the
-- table is well formed after it, with the new transaction as the most recent one.
pub alloc-Allocated :
    (t : Table) (xs : List ℕ) (preferred original_id fingerprint now_ms : ℕ)
    → IsTable t xs
    → 0 < t.capacity
    → t.capacity ≤ 65536
    → preferred < t.channel_count
    → (t' : Table) × (slot : ℕ) × Allocated t xs preferred original_id fingerprint now_ms t' slot
alloc-Allocated t xs preferred original_id fingerprint now_ms v pos small hp =
    let (t1, slot, s) = take_slot_lem t xs v pos in
    let room = length-survivors t xs t1 slot s in
    let hc : 0 < t1.channel_count = omega (arith, s.channels) in
    let (channel, id, picked) =
      picked_room t1 (survivors t.free_indices xs) (slot ∷ t1.free_indices) preferred s.inv
        (omega arith) hc in
    let open_id = pick_id_free t1.channel_count t1 preferred 0 channel id s.inv.ids hc picked in
    let at = register t1 slot channel id original_id fingerprint now_ms in
    (
      at,
      slot,
      record {
        result =
            alloc_steps t t1 slot preferred channel id original_id fingerprint now_ms hp s.took
              picked;
        valid =
            register-Inv t1 (survivors t.free_indices xs) slot t1.free_indices s.inv channel id
              original_id fingerprint now_ms open_id.0 open_id.1 open_id.2;
        original = ap (λ tx. tx.original_id) (write_self t1.transactions slot _);
        question = ap (λ tx. tx.question_fingerprint) (write_self t1.transactions slot _);
        sent = ap (λ tx. tx.sent_at_ms) (write_self t1.transactions slot _);
        kept = λ j h.
            let ne = slot_fresh j h s.inv in
            slot-register t1 (survivors t.free_indices xs) slot t1.free_indices s.inv channel id
              original_id fingerprint now_ms j ne
            ∙ s.kept j ne;
      },
    )
