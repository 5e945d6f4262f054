-- ===== src/Udp/Associate.antt =====
-- bridge/udp_associate.c: the association of a session with the SOCKS5 server, up to the reply that
-- names the relay. The server's bytes that have not been read are a list; what `send` and `recv` come
-- to is a list of answers, and where it ends the socket would block.
pub mod Whole
pub mod Uplink
pub mod Fates
pub mod Sent
pub mod Flush
pub mod Partial
mod Tests
use bpf2socks.Prelude.{
  ℕ, ◌+◌, ◌-◌, ◌==◌, Bool, true, false, ◌||◌, not, Option, none, some, List, [], ◌∷◌, ◌++◌,
  if◌then◌else◌, ltb, leb, length, take, drop, min, get_or,
}
use bpf2socks.Socks.{
  ReplyLength, more_needed, malformed, total, reply_length, build_hello,
  build_udp_associate_request,
}
use bpf2socks.Udp.{Session, Stage, assoc_write, read_hello, read_response}

-- A `send` or `recv` of bytes moves one more than the number, unless fewer are there or asked for.
pub data Answer : Type 0 where
  interrupted would_block ended : Answer
  bytes : ℕ → Answer

-- The results -1, 0 and 1.
pub data Progress : Type 0 where
  failed waiting complete : Progress

pub record Reading : Type 0 where
  pub session : Session
  pub stream : List ℕ
  pub answers : List Answer
  pub progress : Progress

-- The sizes of the two buffers.
abbrev pub write_capacity : ℕ
write_capacity = 32

abbrev pub read_capacity : ℕ
read_capacity = 261

abbrev pub with_request : Session → List ℕ → Option (List ℕ) → Option Session
with_request v hello none = none
with_request v hello (some request) =
    some (record v { write_buf = hello ++ request; write_offset = 0 })

abbrev pub with_hello : Session → Option (List ℕ) → Option Session
with_hello v none = none
with_hello v (some hello) =
    with_request v hello (build_udp_associate_request (write_capacity - length hello))

-- `bpf2socks_udp_associate_build_request`.
pub build_request : Session → Option Session
build_request v = with_hello v (build_hello write_capacity)

-- `finish_udp_associate_connect`, where SO_ERROR is zero or not.
abbrev pub finish_connect : Bool → Session → Option Session
finish_connect good v = if good then some (record v { stage = assoc_write }) else none

abbrev pub is_response : Stage → Bool
is_response read_response = true
is_response _ = false

-- What a reply that is read in part tells about its length.
abbrev pub noted : Session → ReplyLength → Option Session
noted v malformed = none
noted v more_needed =
    some (record v { read_expected = if leb 4 (length v.read_buf) then 5 else v.read_expected })
noted v (total k) = if ltb read_capacity k then none else some (record v { read_expected = k })

abbrev pub note_length : Session → Option Session
note_length v = if is_response v.stage then noted v (reply_length v.read_buf) else some v

-- After bytes have come in: `again` is the rest of the loop.
abbrev pub resume :
    (Session → List ℕ → Reading) → List Answer → Session → List ℕ → Option Session → Reading
resume again answers v stream none = record {
  session = v;
  stream = stream;
  answers = answers;
  progress = failed;
}
resume again answers v stream (some w) = again w stream

abbrev pub stopped : Session → List ℕ → List Answer → Progress → Reading
stopped v stream answers progress = record {
  session = v;
  stream = stream;
  answers = answers;
  progress = progress;
}

abbrev pub deliver : (Session → List ℕ → Reading) → List Answer → Session → List ℕ → ℕ → Reading
deliver again answers v [] n = stopped v [] answers waiting
deliver again answers v (b ∷ bs) n =
    let stream = b ∷ bs in
    let v1 = record v { read_buf = v.read_buf ++ take n stream } in
    resume again answers v1 (drop n stream) (note_length v1)

abbrev pub received :
    (Session → List ℕ → Reading) → List Answer → Session → List ℕ → Answer → Reading
received again answers v stream interrupted = again v stream
received again answers v stream would_block = stopped v stream answers waiting
received again answers v stream ended = stopped v stream answers failed
received again answers v stream (bytes m) =
    deliver again answers v stream (min (m + 1) (v.read_expected - length v.read_buf))

-- `read_udp_associate_bytes`.
unfoldable pub read_bytes : List Answer → Session → List ℕ → Reading
read_bytes [] v stream =
    stopped v stream [] (if leb v.read_expected (length v.read_buf) then complete else waiting)
read_bytes (a ∷ answers) v stream =
    if leb v.read_expected (length v.read_buf)
    then stopped v stream (a ∷ answers) complete
    else received (read_bytes answers) answers v stream a

abbrev pub hello_progress : Reading → Progress → Reading
hello_progress r complete =
    if not (get_or r.session.read_buf 0 0 == 5) || not (get_or r.session.read_buf 1 0 == 0)
    then record r { progress = failed }
    else record r {
      session = record r.session { stage = read_response; read_buf = []; read_expected = 4 };
    }
hello_progress r failed = r
hello_progress r waiting = r

-- `read_udp_associate_hello`.
pub read_hello_reply : List Answer → Session → List ℕ → Reading
read_hello_reply answers v stream =
    let r = read_bytes answers v stream in hello_progress r r.progress
