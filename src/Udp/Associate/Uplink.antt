-- ===== src/Udp/Associate/Uplink.antt =====
-- What bridge/udp_associate.c sends: the request of an association, and the datagrams of a client to
-- the relay, with those that waited for it.
use bpf2socks.Prelude.{
  ℕ, zero, suc, ◌+◌, ◌-◌, ◌==◌, Bool, true, false, Option, none, some, List, [], ◌∷◌, ◌++◌,
  if◌then◌else◌, leb, length, take, drop, min,
}
use bpf2socks.Prelude.Outcome.{Outcome, done, out_of_fuel}
use bpf2socks.Udp.{State, Stats, Session, Pending, read_hello, set_session, lru_touch}
use bpf2socks.Udp.Life.{release_each}
use bpf2socks.Udp.Associate.{
  Answer, interrupted, would_block, ended, bytes, Progress, failed, waiting, complete,
}

-- `wire` is what the server has been sent.
pub record Writing : Type 0 where
  pub session : Session
  pub wire : List ℕ
  pub progress : Progress

-- The request is out: the two bytes of the method reply come next.
abbrev pub sent_whole : Session → List ℕ → Writing
sent_whole v wire = record {
  session = record v { stage = read_hello; read_buf = []; read_expected = 2 };
  wire = wire;
  progress = complete;
}

abbrev pub paused : Session → List ℕ → Progress → Writing
paused v wire progress = record { session = v; wire = wire; progress = progress }

abbrev pub sent : (Session → List ℕ → Writing) → Session → List ℕ → Answer → Writing
sent again v wire interrupted = again v wire
sent again v wire would_block = paused v wire waiting
sent again v wire ended = paused v wire failed
sent again v wire (bytes m) =
    let left = drop v.write_offset v.write_buf in
    let n = min (m + 1) (length left) in
    again (record v { write_offset = v.write_offset + n }) (wire ++ take n left)

-- `flush_udp_associate_write`.
unfoldable pub flush_write : List Answer → Session → List ℕ → Writing
flush_write [] v wire =
    if leb (length v.write_buf) v.write_offset then sent_whole v wire else paused v wire waiting
flush_write (a ∷ answers) v wire =
    if leb (length v.write_buf) v.write_offset
    then sent_whole v wire
    else sent (flush_write answers) v wire a

-- What `sendmmsg` comes to for the datagrams that are left.
pub data Sending : Type 0 where
  accepted : ℕ → Sending
  retried too_large transient broken : Sending

abbrev pub sent_some : (ℕ → ℕ → ℕ → Option (ℕ × ℕ × ℕ)) → ℕ → ℕ → ℕ → Sending → Option (ℕ × ℕ × ℕ)
sent_some again left sent_total oversized (accepted n) =
    let m = min (n + 1) left in again (left - m) (sent_total + m) oversized
sent_some again left sent_total oversized retried = again left sent_total oversized
sent_some again left sent_total oversized too_large =
    again (left - 1) (sent_total + 1) (oversized + 1)
sent_some again left sent_total oversized transient = some (sent_total, oversized, left)
sent_some again left sent_total oversized broken = none

-- The loop over a batch: `sent_total`, `oversized`, and the datagrams that a full buffer drops.
unfoldable pub send_loop : List Sending → ℕ → ℕ → ℕ → Option (ℕ × ℕ × ℕ)
send_loop [] left sent_total oversized = some (sent_total, oversized, left)
send_loop (a ∷ answers) left sent_total oversized =
    if left == 0
    then some (sent_total, oversized, 0)
    else sent_some (send_loop answers) left sent_total oversized a

abbrev pub count_batch : Stats → Option (ℕ × ℕ × ℕ) → Option (Stats × ℕ)
count_batch stats none = none
count_batch stats (some (sent_total, oversized, busy)) =
    let n = sent_total - oversized in
    some (
      record stats {
        drops_send_busy = stats.drops_send_busy + busy;
        drops_oversized = stats.drops_oversized + oversized;
        packets_to_upstream = stats.packets_to_upstream + n;
        copy_sends = stats.copy_sends + n;
      },
      n,
    )

-- `bpf2socks_udp_relay_send_batch` of `count` datagrams; `none` is -1, and the session is dropped.
unfoldable pub relay_send_batch : List Sending → Stats → ℕ → Option (Stats × ℕ)
relay_send_batch answers stats count = count_batch stats (send_loop answers count 0 0)

-- Datagrams that were sent, or dropped, leave the list of those that wait.
abbrev pub settle_batch : State → ℕ → List Pending → List Pending → Stats → ℕ → State
settle_batch s i batch later stats now =
    let s1 = record s { stats = stats } in
    let s2 = set_session s1 i (record (s1.sessions i) { last_seen_ms = now }) in
    let s3 = release_each (lru_touch s2 i) batch in
    set_session s3 i (record (s3.sessions i) {
      pending = later;
      pending_count = (s3.sessions i).pending_count - length batch;
    })

abbrev pub max_batch : ℕ
max_batch = 64

abbrev pub after_batch :
    (State → Outcome (State × Bool))
    → State
    → ℕ
    → List Pending
    → ℕ
    → Option (Stats × ℕ)
    → Outcome (State × Bool)
after_batch again s i pending now none = done (s, false)
after_batch again s i pending now (some (stats, n)) =
    again (settle_batch s i (take max_batch pending) (drop max_batch pending) stats now)

abbrev pub flush_batch :
    (State → Outcome (State × Bool))
    → List Sending
    → ℕ
    → State
    → ℕ
    → List Pending
    → Outcome (State × Bool)
flush_batch again answers now s i [] = done (s, true)
flush_batch again answers now s i (p ∷ ps) =
    after_batch again s i (p ∷ ps) now
      (relay_send_batch answers s.stats (length (take max_batch (p ∷ ps))))

-- `flush_session_pending_packets` at the time `now`: false is -1. `answers` has those to each batch.
unfoldable pub flush_pending : ℕ → (ℕ → List Sending) → ℕ → State → ℕ → Outcome (State × Bool)
flush_pending zero answers now s i = out_of_fuel
flush_pending (suc fuel) answers now s i =
    flush_batch (λ t. flush_pending fuel answers now t i) (answers fuel) now s i
      (s.sessions i).pending
