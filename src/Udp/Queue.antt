-- ===== src/Udp/Queue.antt =====
-- The queued downlink of bridge/udp_downlink.c: datagrams that a client's socket could not take wait
-- in a channel of the session, and their memory is charged to the byte budget.
pub mod Slots
use bpf2socks.Prelude.{
  ℕ, zero, suc, ◌+◌, ◌-◌, ◌*◌, ◌/◌, ◌%◌, ◌^◌, ◌==◌, Bool, true, false, ◌&&◌, ◌||◌, not, Option,
  none, some, List, [], ◌∷◌, ◌++◌, if◌then◌else◌, ltb, leb, length, Result, ok, err, Errno, einval,
  enobufs, enomem, eoverflow, write,
}
use bpf2socks.Prelude.Outcome.{Outcome, done, fail, out_of_fuel}
use bpf2socks.Bindings.{Binding, unlink}
use bpf2socks.Downlink.{mark_waiting, mark_ready, has_waiters}
use bpf2socks.Udp.{
  State, Session, Channel, Packet, Stage, ready, set_session, set_binding, lru_touch, close_fd,
  decrement, budget_release,
}
use bpf2socks.Udp.Reply.{binding_lru_touch}

-- sizeof(struct bpf2socks_udp_downlink_packet), BPF2SOCKS_UDP_BUFFER_SIZE and SIZE_MAX.
abbrev pub packet_size : ℕ
packet_size = 32

abbrev pub buffer_size : ℕ
buffer_size = 65535

abbrev pub size_max : ℕ
size_max = 2 ^ 64 - 1

-- `bpf2socks_udp_budget_reserve` between two operations of the other workers.
unfoldable pub budget_reserve : State → ℕ → Option State
budget_reserve s bytes =
    if ltb s.budget_cap bytes || ltb (s.budget_cap - bytes) s.budget_used
    then none
    else some (record s { budget_used = s.budget_used + bytes })

-- The memory of a packet whose bytes were taken from the reservation, or else from the budget.
abbrev pub from_reservation : Bool → State → ℕ → State × Result ℕ
from_reservation true s bytes = (s, ok bytes)
from_reservation false s bytes =
    (record s { read_reservation = s.read_reservation + bytes }, err enomem)

abbrev pub from_budget : Bool → State → Option State → ℕ → State × Result ℕ
from_budget malloc s none bytes = (s, err enobufs)
from_budget true s (some t) bytes = (t, ok bytes)
from_budget false s (some t) bytes = (budget_release t bytes, err enomem)

-- `alloc_downlink_packet`: its allocation bytes. `malloc` tells whether there is memory.
unfoldable pub alloc_downlink_packet : Bool → State → ℕ → State × Result ℕ
alloc_downlink_packet malloc s payload_len =
    let bytes = packet_size + payload_len in
    if ltb (size_max - packet_size) payload_len
    then (s, err enobufs)
    else (if leb bytes s.read_reservation
        then from_reservation malloc (record s { read_reservation = s.read_reservation - bytes })
            bytes
        else from_budget malloc s (budget_reserve s bytes) bytes)

abbrev pub max_allocation : ℕ
max_allocation = packet_size + buffer_size

-- `bpf2socks_udp_downlink_release_reservation`.
pub release_reservation : State → State
release_reservation s =
    if s.read_reservation == 0
    then s
    else budget_release (record s { read_reservation = 0 }) s.read_reservation

-- Half as many slots, unless there is one left.
abbrev pub refuse_slots : Outcome (ℕ × State) → ℕ → Outcome (ℕ × State)
refuse_slots smaller candidate =
    if candidate == 1
    then fail (if leb candidate (size_max / max_allocation) then enobufs else eoverflow)
    else smaller

abbrev pub take_slots : Outcome (ℕ × State) → ℕ → Option State → Outcome (ℕ × State)
take_slots smaller candidate none = refuse_slots smaller candidate
take_slots smaller candidate (some t) =
    done (candidate, record t { read_reservation = candidate * max_allocation })

-- The loop of `bpf2socks_udp_downlink_reserve_slots`: half as many slots until they fit. `candidate`
-- is a `uint32_t`, and so is its successor.
unfoldable pub reserve_loop : ℕ → State → ℕ → Outcome (ℕ × State)
reserve_loop zero s candidate = out_of_fuel
reserve_loop (suc fuel) s candidate =
    let smaller = reserve_loop fuel s ((candidate + 1) % 2 ^ 32 / 2) in
    if leb candidate (size_max / max_allocation)
    then take_slots smaller candidate (budget_reserve s (candidate * max_allocation))
    else refuse_slots smaller candidate

unfoldable pub reserve_slots : State → ℕ → Outcome (ℕ × State)
reserve_slots s batch =
    if (batch == 0) || not (s.read_reservation == 0) then fail einval else reserve_loop 34 s batch

-- `release_downlink_packet` of a packet of the session `i`.
unfoldable pub release_packet : State → ℕ → Packet → State
release_packet s i p =
    let v = s.sessions i in
    let s1 =
      set_session s i (record v { downlink_pending_count = decrement v.downlink_pending_count }) in
    let b = s1.bindings p.binding in
    let s2 =
      set_binding s1 p.binding
        (record b { downlink_pending_count = decrement b.downlink_pending_count }) in
    budget_release s2 p.allocation_bytes

abbrev same_fd : Option ℕ → ℕ → Bool
same_fd none n = false
same_fd (some fd) n = fd == n

abbrev no_source : Option ℕ → Bool
no_source none = true
no_source (some b) = false

-- The tests of `bpf2socks_udp_downlink_find_channel` on one channel. A binding is the source where
-- it has the source's descriptor, and then in the same generation.
abbrev pub channel_matches : State → Channel → ℕ → ℕ → Bool → Bool → Bool
channel_matches s c b source_fd use_pktinfo raw =
    let v = s.bindings b in
    (if same_fd v.reply_fd source_fd
      then same_fd c.source_binding b && (c.source_binding_generation == v.reply_fd_generation)
      else no_source c.source_binding)
    && (c.source_fd == source_fd)
    && (if use_pktinfo then c.use_pktinfo else not c.use_pktinfo)
    && (if raw then c.raw else not c.raw)

unfoldable pub find_in : State → List ℕ → ℕ → ℕ → Bool → Bool → Option ℕ
find_in s [] b source_fd use_pktinfo raw = none
find_in s (c ∷ cs) b source_fd use_pktinfo raw =
    if channel_matches s (s.channels c) b source_fd use_pktinfo raw
    then some c
    else find_in s cs b source_fd use_pktinfo raw

unfoldable pub find_channel : State → ℕ → ℕ → ℕ → Bool → Bool → Option ℕ
find_channel s i b source_fd use_pktinfo raw =
    find_in s (s.sessions i).channels b source_fd use_pktinfo raw

abbrev is_ready : Stage → Bool
is_ready ready = true
is_ready _ = false

abbrev has_fd : Option ℕ → Bool
has_fd none = false
has_fd (some fd) = true

-- `bpf2socks_udp_downlink_set_paused`; `modify` tells whether epoll takes the change.
unfoldable pub set_paused : Bool → State → ℕ → Bool → State × Bool
set_paused modify s i paused =
    let v = s.sessions i in
    if not (v.used && is_ready v.stage && has_fd v.udp_fd)
    then (s, false)
    else (if (if paused then v.downlink_paused else not v.downlink_paused)
        then (s, true)
        else (if leb s.session_cap i || not modify
            then (s, false)
            else (set_session s i (record v { downlink_paused = paused }), true)))
