-- ===== src/Udp/Associate/Tests.antt =====
-- A reply of ten bytes that names an IPv4 relay, with one byte behind it.
use bpf2socks.Prelude.{ℕ, some, List, [], ◌∷◌, ◌++◌, true, ◌≡◌, refl, arith}
use bpf2socks.Socks.{total, reply_length}
use bpf2socks.Udp.{Session, Stats, read_response, assoc_write, no_session}
use bpf2socks.Udp.Fixtures.{worker, stats}
use bpf2socks.Udp.Associate.Uplink.{
  Sending, accepted, retried, too_large, transient, flush_write, relay_send_batch, send_loop,
}
use bpf2socks.Udp.Associate.Sent.{IsSent, flush_write-IsSent}
use bpf2socks.Udp.Associate.Fates.{
  fates, delivered, too_big, dropped, Accounted, relay_send_batch-Accounted,
}
use bpf2socks.Udp.Associate.Flush.{IsFlushed, flush_pending-IsFlushed}
use bpf2socks.Udp.Associate.{Answer, interrupted, would_block, bytes, complete, read_bytes}
use bpf2socks.Udp.Associate.Partial.{IsPartial, begun}
use bpf2socks.Udp.Associate.Whole.{IsDelivered, read_bytes-IsDelivered, read_bytes-complete}

abbrev reply : List ℕ
reply = 5 ∷ 0 ∷ 0 ∷ 1 ∷ 10 ∷ 0 ∷ 0 ∷ 1 ∷ 4 ∷ 56 ∷ []

abbrev stream : List ℕ
stream = reply ++ 7 ∷ []

abbrev reading : Session
reading = record no_session { used = true; stage = read_response; read_expected = 4 }

reply_lem : reply_length reply ≡ total 10
unfolding reply_length
reply_lem = refl

reading-IsPartial : IsPartial reply (7 ∷ []) 10 reading stream
reading-IsPartial = record {
  response = refl;
  whole = refl;
  inside = ground arith;
  phase = begun refl (ground arith);
}

abbrev cut : List Answer
cut = bytes 0 ∷ interrupted ∷ bytes 9 ∷ would_block ∷ []

read_bytes-IsDelivered_example :
    let r = read_bytes cut reading stream in
    IsDelivered reply (7 ∷ []) 10 r.progress r.session r.stream
read_bytes-IsDelivered_example =
    read_bytes-IsDelivered reply (7 ∷ []) 10 reply_lem refl (ground arith) cut reading stream
      (ground arith) reading-IsPartial

abbrev slow : List Answer
slow =
    bytes 0
    ∷ bytes 0
    ∷ bytes 0
    ∷ bytes 0
    ∷ bytes 0
    ∷ bytes 0
    ∷ bytes 0
    ∷ bytes 0
    ∷ bytes 0
    ∷ bytes 9
    ∷ []

read_bytes-complete_example : (read_bytes slow reading stream).progress ≡ complete
read_bytes-complete_example =
    read_bytes-complete reply (7 ∷ []) 10 reply_lem refl (ground arith) slow reading stream
      (ground arith) reading-IsPartial (ground arith)

-- A request of five bytes, of which `send` takes two at first.
abbrev greeting : List ℕ
greeting = 5 ∷ 1 ∷ 0 ∷ 5 ∷ 3 ∷ []

abbrev sending : Session
sending = record no_session { used = true; stage = assoc_write; write_buf = greeting }

flush_write-IsSent_example :
    let r = flush_write (bytes 1 ∷ interrupted ∷ bytes 8 ∷ []) sending [] in
    IsSent greeting [] r.progress r.session r.wire
flush_write-IsSent_example =
    flush_write-IsSent greeting [] (bytes 1 ∷ interrupted ∷ bytes 8 ∷ []) sending []
      (record { buffer = refl; behind = refl })

-- Of three datagrams one is sent, one is too large, and a full buffer drops the last.
abbrev counted : Stats
counted = record stats {
  packets_to_upstream = 1;
  copy_sends = 1;
  drops_oversized = 1;
  drops_send_busy = 1;
}

abbrev some_answers : List Sending
some_answers = accepted 0 ∷ retried ∷ too_large ∷ transient ∷ []

batch_lem : relay_send_batch some_answers stats 3 ≡ some (counted, 1)
unfolding relay_send_batch send_loop
batch_lem = refl

some_answers-fates : fates some_answers 3 ≡ some (delivered ∷ too_big ∷ dropped ∷ [])
unfolding fates
some_answers-fates = refl

relay_send_batch-Accounted_example :
    Accounted stats 3 (fates some_answers 3) (relay_send_batch some_answers stats 3)
relay_send_batch-Accounted_example = relay_send_batch-Accounted some_answers stats 3

-- The session 1 has one datagram waiting.
flush_pending-IsFlushed_example : IsFlushed 2 (λ _. accepted 0 ∷ []) 3000 worker 1
flush_pending-IsFlushed_example =
    flush_pending-IsFlushed 2 (λ _. accepted 0 ∷ []) 3000 worker 1 (ground arith) (ground arith)
