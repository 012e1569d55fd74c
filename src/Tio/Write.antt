-- ===== src/Tio/Write.antt =====
-- common/tio.c: writing.
pub mod Stream
pub mod Drained
use nss_pam_ldapd.Prelude.{
  ℕ, zero, suc, ◌+◌, ◌-◌, ◌%◌, ◌/◌, Bool, true, false, ◌&&◌, List, [], ◌∷◌, ◌++◌, ltb, leb, ◌==◌,
  if◌then◌else◌, length, take, drop, min,
}
use nss_pam_ldapd.Bytes.{Bytes}
use nss_pam_ldapd.Tio.{Buffer, start, len, File, Result, success, failure, blocked, grow}

-- What send() answers: it takes some bytes, is interrupted, or fails.
pub data Send : Type 0 where
  accepts : ℕ → Send
  interrupted : Send
  broken : Send

-- What poll() answers in tio_wait() and tio_flush_nonblock(), and what send() does after it.
pub data Event : Type 0 where
  writable : Send → Event
  not_writable : Event
  poll_interrupted : Event
  poll_fails : Event

-- The write buffer, and the bytes that the peer was sent.
pub record Writing : Type 0 where
  pub buffer : Buffer
  pub sent : Bytes

-- move contents of the buffer to the front if it will save enough room
unfoldable pub compact : Buffer → Buffer
compact b =
    let b' = if len b == 0 then record b { before = [] } else b in
    if leb (b'.size / 4) (start b') then record b' { before = [] } else b'

unfoldable pub tio_writebuf : Send → Writing → Bool × Writing
tio_writebuf broken w = (false, w)
tio_writebuf interrupted w = (true, w)
tio_writebuf (accepts n) w =
    let b = w.buffer in
    let k = min n (len b) in
    if k == 0 then (false, w) else (
      true,
      record {
        buffer =
            compact
              (record b { before = b.before ++ take k b.content; content = drop k b.content });
        sent = w.sent ++ take k b.content;
      },
    )

-- tio_wait() and tio_writebuf() in a round of tio_flush(); a poll that is interrupted is done again
unfoldable pub flush_round : Event → Writing → Bool × Writing
flush_round (writable s) w = tio_writebuf s w
flush_round not_writable w = (false, w)
flush_round poll_interrupted w = (true, w)
flush_round poll_fails w = (false, w)

-- What a call leaves: its result, the buffer and the peer, and the events it did not use.
pub record Written : Type 0 where
  pub result : Result
  pub writing : Writing
  pub events : List Event

unfoldable pub tio_flush : List Event → Writing → Written
tio_flush [] w = record {
  result = if len w.buffer == 0 then success else blocked;
  writing = w;
  events = [];
}
tio_flush (ev ∷ evs) w =
    let next = flush_round ev w in
    let rest = tio_flush evs next.1 in
    if len w.buffer == 0
    then record { result = success; writing = w; events = ev ∷ evs }
    else if next.0
    then rest
    else record { result = failure; writing = next.1; events = evs }

unfoldable pub tio_flush_nonblock : Event → Writing → Bool × Writing
tio_flush_nonblock not_writable w = (true, w)
tio_flush_nonblock poll_interrupted w = (true, w)
tio_flush_nonblock poll_fails w = (false, w)
tio_flush_nonblock (writable s) w = tio_writebuf s w

abbrev pub free_room : Buffer → ℕ
free_room b = b.size - (start b + len b)

-- copy what fits of the data into the buffer
unfoldable pub fill : Bytes → Writing → Writing
fill bytes w =
    let b = w.buffer in
    record w { buffer = record b { content = b.content ++ take (free_room b) bytes } }

-- tio_flush() returned 0, or did not
unfoldable pub after_full_flush :
    (List Event → Bytes → Writing → Written) → Bytes → Written → Result → Written
after_full_flush loop bytes flushed success = loop flushed.events bytes flushed.writing
after_full_flush loop bytes flushed failure = flushed
after_full_flush loop bytes flushed blocked = flushed

-- the way on after the first attempt to flush: with room, after growing, or after a full flush
unfoldable pub after_flush :
    (List Event → Bytes → Writing → Written) → Bool → List Event → Bytes → Writing → Written
after_flush loop memory evs bytes w =
    let b = w.buffer in
    let g = grow memory b in
    let flushed = tio_flush evs w in
    let more = loop evs bytes w in
    let grown = loop evs bytes (record w { buffer = g }) in
    if ltb (start b + len b) b.size
    then more
    else if ltb b.size b.maxsize && memory
    then grown
    else after_full_flush loop bytes flushed flushed.result

-- one event is used by the poll of tio_flush_nonblock()
unfoldable pub write_round :
    (List Event → Bytes → Writing → Written) → Bool → List Event → Bytes → Writing → Written
write_round loop memory [] bytes w = record {
  result = blocked;
  writing = fill bytes w;
  events = [];
}
write_round loop memory (ev ∷ evs) bytes w =
    let filled = fill bytes w in
    let next = tio_flush_nonblock ev filled in
    let rest = after_flush loop memory evs (drop (free_room w.buffer) bytes) next.1 in
    if next.0 then rest else record { result = failure; writing = next.1; events = evs }

-- The loop of tio_write().  Each round but the last uses an event, so that one unit of fuel more
-- than there are events is enough.
unfoldable pub write_loop : ℕ → Bool → List Event → Bytes → Writing → Written
write_loop zero memory evs bytes w = record { result = blocked; writing = w; events = evs }
write_loop (suc fuel) memory evs [] w = record { result = success; writing = w; events = evs }
write_loop (suc fuel) memory evs (c ∷ bytes) w =
    let round = write_round (write_loop fuel memory) memory evs (c ∷ bytes) w in
    if leb (length (c ∷ bytes)) (free_room w.buffer)
    then record { result = success; writing = fill (c ∷ bytes) w; events = evs }
    else round

unfoldable pub tio_write : Bool → List Event → Bytes → Writing → Written
tio_write memory evs bytes w = write_loop (length evs + 1) memory evs bytes w
