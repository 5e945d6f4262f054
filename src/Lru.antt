-- ===== src/Lru.antt =====
-- The intrusive doubly linked lists of bridge/udp_session.c (the session LRU, the handshake list,
-- the two binding LRUs) and of bridge/dns.c (the transaction LRU). Nodes are numbers: an index
-- into a table, or the address of a session or binding. `none` is NULL, and in bridge/dns.c the
-- sentinel BPF2SOCKS_DNS_LRU_NONE, which is no index of a table.
pub mod Chain
pub mod Remove
pub mod Append
use bpf2socks.Prelude.{ℕ, Bool, true, false, Option, none, some, ◌==◌, if◌then◌else◌}

pub record Node : Type 0 where
  pub prev : Option ℕ
  pub next : Option ℕ

-- The links of all nodes, with the two ends of one list.
pub record Lru : Type 0 where
  pub node : ℕ → Node
  pub head : Option ℕ
  pub tail : Option ℕ

-- `p == q` on pointers that may be NULL.
abbrev pub is_ptr : Option ℕ → ℕ → Bool
is_ptr none i = false
is_ptr (some j) i = j == i

abbrev pub update : (ℕ → Node) → ℕ → Node → ℕ → Node
update f i v j = if i == j then v else f j

-- `p->next = v` where `p` is not NULL; nothing otherwise.
abbrev pub set_next : Lru → Option ℕ → Option ℕ → Lru
set_next l none v = l
set_next l (some p) v = record l { node = update l.node p (record (l.node p) { next = v }) }

abbrev pub set_prev : Lru → Option ℕ → Option ℕ → Lru
set_prev l none v = l
set_prev l (some p) v = record l { node = update l.node p (record (l.node p) { prev = v }) }

abbrev pub empty : Lru
empty = record { node = λ _. record { prev = none; next = none }; head = none; tail = none }

abbrev pub clear : Lru → ℕ → Lru
clear l i = record l { node = update l.node i (record { prev = none; next = none }) }

-- `lru_remove` of bridge/udp_session.c: the links are read again for every test.
unfoldable pub remove : Lru → ℕ → Lru
remove l i =
    let l1 = set_next l (l.node i).prev (l.node i).next in
    let l2 = set_prev l1 (l1.node i).next (l1.node i).prev in
    let l3 = if is_ptr l2.head i then record l2 { head = (l2.node i).next } else l2 in
    let l4 = if is_ptr l3.tail i then record l3 { tail = (l3.node i).prev } else l3 in clear l4 i

-- `lru_add_tail` of bridge/udp_session.c.
unfoldable pub add_tail : Lru → ℕ → Lru
add_tail l i =
    let l1 = record l { node = update l.node i (record { prev = l.tail; next = none }) } in
    let l2 = set_next l1 l1.tail (some i) in
    let l3 = record l2 { tail = some i } in
    elim l3.head [ none ↦ record l3 { head = some i } | some h ↦ l3 ]

-- `bpf2socks_udp_lru_touch`.
unfoldable pub touch : Lru → ℕ → Lru
touch l i = if is_ptr l.tail i then l else add_tail (remove l i) i

-- `lru_detach` of bridge/dns.c: an end of the list moves only where there is no neighbour.
unfoldable pub detach : Lru → ℕ → Lru
detach l i =
    let l1 : Lru = elim (l.node i).prev [
      | some p ↦ set_next l (some p) (l.node i).next
      | none ↦ if is_ptr l.head i then record l { head = (l.node i).next } else l
    ] in
    let l2 : Lru = elim (l1.node i).next [
      | some n ↦ set_prev l1 (some n) (l1.node i).prev
      | none ↦ if is_ptr l1.tail i then record l1 { tail = (l1.node i).prev } else l1
    ] in
    clear l2 i

-- `lru_attach_tail` of bridge/dns.c.
unfoldable pub attach_tail : Lru → ℕ → Lru
attach_tail l i =
    let l1 = record l { node = update l.node i (record { prev = l.tail; next = none }) } in
    let l2 : Lru = elim l1.tail [
      | some t ↦ set_next l1 (some t) (some i)
      | none ↦ record l1 { head = some i }
    ] in
    record l2 { tail = some i }
