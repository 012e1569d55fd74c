-- ===== src/Tio/Read.antt =====
-- common/tio.c: reading, and going back to a mark.

pub mod Stream
pub mod Mark
use nss_pam_ldapd.Prelude.{
  ℕ, zero, suc, ◌+◌, ◌-◌, ◌%◌, Bool, true, false, ◌&&◌, List, [], ◌∷◌, ◌++◌, ltb, leb, ◌==◌,
  if◌then◌else◌, length, take, drop, min,
}
use nss_pam_ldapd.Bytes.{Bytes}
use nss_pam_ldapd.Tio.{Buffer, start, len, File, Result, success, failure, blocked, grow, size_mod}

-- What one round of the loop in tio_read() meets in tio_wait() and read(), and whether realloc()
-- gives memory.  At `ready n` the kernel has `n` bytes for this call.
pub data Arrival : Type 0 where
  not_ready : Arrival
  closed : Arrival
  broken : Arrival
  interrupted : Arrival
  ready : ℕ → Arrival

pub record Event : Type 0 where
  pub arrival : Arrival
  pub memory : Bool

-- A call under way: the file, the bytes still to come from the peer, and those handed to the caller.
pub record Reading : Type 0 where
  pub file : File
  pub wire : Bytes
  pub out : Bytes

abbrev pub set_readbuffer : Reading → Buffer → Bool → Reading
set_readbuffer r b resettable = record r {
  file = record r.file { readbuffer = b; read_resettable = resettable };
}

-- the first branch of the loop: there is enough data in the buffer
unfoldable pub take_all : ℕ → Reading → Reading
take_all count r =
    let b = r.file.readbuffer in
    record (set_readbuffer r
      (record b { before = b.before ++ take count b.content; content = drop count b.content })
      r.file.read_resettable) { out = r.out ++ take count b.content }

-- empty what we have and continue from there
unfoldable pub drain : Reading → Reading
drain r =
    let b = r.file.readbuffer in
    record (set_readbuffer r (record b { before = b.before ++ b.content; content = [] })
      r.file.read_resettable) { out = r.out ++ b.content }

-- fp->readbuffer.start >= (fp->readbuffer.size - 4), on unsigned numbers
unfoldable pub running_empty : Buffer → Bool
running_empty b = leb ((b.size + size_mod - 4) % size_mod) (start b)

-- what happens to the buffer before the wait
unfoldable pub make_room : Bool → File → File
make_room memory f =
    let b = f.readbuffer in
    let g = grow memory b in
    if f.read_resettable
    then if running_empty b
      then if running_empty g
        then record f { readbuffer = record g { before = [] }; read_resettable = false }
        else record f { readbuffer = g }
      else f
    else record f { readbuffer = record b { before = [] } }

-- read() into the free part of the buffer, which has no content at this point
unfoldable pub receive : ℕ → Reading → Reading
receive n r =
    let b = r.file.readbuffer in
    let got = take (min n (b.size - start b)) r.wire in
    record (set_readbuffer r (record b { content = got }) r.file.read_resettable) {
      wire = drop (min n (b.size - start b)) r.wire;
    }

-- a read() that gives no byte, at the end of the file or into no room, is an error
unfoldable pub arrive : Arrival → Reading → Bool × Reading
arrive not_ready r = (false, r)
arrive closed r = (false, r)
arrive broken r = (false, r)
arrive interrupted r = (true, r)
arrive (ready n) r =
    let r' = receive n r in if len r'.file.readbuffer == 0 then (false, r) else (true, r')

-- the loop of tio_read(), with `count` bytes still to be returned
unfoldable pub read_loop : List Event → ℕ → Reading → Result × Reading
read_loop [] count r =
    if leb count (len r.file.readbuffer) then (success, take_all count r) else (blocked, r)
read_loop (ev ∷ evs) count r =
    let d = drain r in
    let next = arrive ev.arrival (record d { file = make_room ev.memory d.file }) in
    let rest = read_loop evs (count - len r.file.readbuffer) next.1 in
    if leb count (len r.file.readbuffer)
    then (success, take_all count r)
    else if next.0
    then rest
    else (failure, next.1)

unfoldable pub tio_read : List Event → File → Bytes → ℕ → Result × Reading
tio_read evs f wire count = read_loop evs count (record { file = f; wire = wire; out = [] })

-- memmove() to the start of the buffer, and the mark
unfoldable pub tio_mark : File → File
tio_mark f =
    let b = f.readbuffer in
    if ltb 0 (start b) && ltb 0 (len b)
    then record f { readbuffer = record b { before = [] }; read_resettable = true }
    else record f { read_resettable = true }

unfoldable pub tio_reset : File → Result × File
tio_reset f =
    let b = f.readbuffer in
    if f.read_resettable
    then (
      success,
      record f { readbuffer = record b { before = []; content = b.before ++ b.content } },
    )
    else (failure, f)
