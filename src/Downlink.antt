-- ===== src/Downlink.antt =====
-- The downlink queue of bridge/udp_downlink_queue.c: an intrusive singly linked list, the waiter
-- tracker, and what the result of a send means. Nodes are addresses, and NULL is `none`.
pub mod Fifo
pub mod Waiters
mod Tests
use bpf2socks.Prelude.{
  ℕ, ◌+◌, ◌-◌, Bool, true, false, Option, none, some, ltb, ◌==◌, if◌then◌else◌, write, Errno,
  einval, eproto, eafnosupport, enobufs, eagain, enomem, enospc, erange, eexist, enoent, emsgsize,
  eintr,
}

pub data SendResult : Type 0 where
  complete retry fatal : SendResult

abbrev pub is_transient : Errno → Bool
is_transient eagain = true
is_transient enobufs = true
is_transient eintr = true
is_transient _ = false

-- `none` is a negative number of sent datagrams. EWOULDBLOCK is EAGAIN.
pub classify_send_result : Option ℕ → ℕ → Errno → SendResult
classify_send_result none requested send_errno =
    if requested == 0 then fatal else (if is_transient send_errno then retry else fatal)
classify_send_result (some sent) requested send_errno =
    if requested == 0
    then (if sent == 0 then complete else fatal)
    else (if sent == requested then complete else (if ltb sent requested then retry else fatal))

-- A queue, with the `next` of every node.
pub record Queue : Type 0 where
  pub next : ℕ → Option ℕ
  pub head : Option ℕ
  pub tail : Option ℕ

abbrev pub init : (ℕ → Option ℕ) → Queue
init next = record { next = next; head = none; tail = none }

-- The node behind the tail, or at the head.
abbrev pub link_tail : Queue → ℕ → Option ℕ → Queue
link_tail q node none = record q { head = some node; tail = some node }
link_tail q node (some t) = record q { next = write q.next t (some node); tail = some node }

pub push : Queue → ℕ → Queue
push q node = link_tail (record q { next = write q.next node none }) node q.tail

-- The queue without its head, once the head has moved on.
abbrev pub unlink_head : Queue → ℕ → Option ℕ → Queue
unlink_head q node none = record { next = write q.next node none; head = none; tail = none }
unlink_head q node (some h) = record q { next = write q.next node none; head = some h }

abbrev pub pop_head : Queue → Option ℕ → Option ℕ × Queue
pop_head q none = (none, q)
pop_head q (some node) = (some node, unlink_head q node (q.next node))

pub pop : Queue → Option ℕ × Queue
pop q = pop_head q q.head

-- The tracker is its count, and a session has a waiting flag.
abbrev pub mark_waiting : ℕ → Bool → ℕ × Bool
mark_waiting count true = (count, true)
mark_waiting count false = (count + 1, true)

abbrev pub mark_ready : ℕ → Bool → ℕ × Bool
mark_ready count true = (if ltb 0 count then count - 1 else count, false)
mark_ready count false = (count, false)

abbrev pub has_waiters : ℕ → Bool
has_waiters count = ltb 0 count
