-- ===== src/Tio.antt =====
-- common/tio.c: buffered I/O on a file descriptor.
-- Of a buffer's memory only the bytes before `start + len` are ever used.  Those before `start` and
-- the `len` bytes from there are two lists, so that `start` and `len` are their lengths.
pub mod Read
pub mod Write
pub mod Wait
pub mod Close
use nss_pam_ldapd.Prelude.{
  ℕ, ◌*◌, ◌%◌, ◌^◌, Bool, true, false, List, [], ◌∷◌, ltb, if◌then◌else◌, length,
}
use nss_pam_ldapd.Bytes.{Bytes}

-- struct tio_buffer
pub record Buffer : Type 0 where
  pub size : ℕ
  pub maxsize : ℕ
  pub before : Bytes
  pub content : Bytes

abbrev pub start : Buffer → ℕ
start b = length b.before

abbrev pub len : Buffer → ℕ
len b = length b.content

-- struct tio_fileinfo, less the timeouts, which only tio_wait() reads
pub record File : Type 0 where
  pub readbuffer : Buffer
  pub writebuffer : Buffer
  pub read_resettable : Bool

-- The result of a call.  `blocked` is a call that has used up the events it is given and still waits.
pub data Result : Type 0 where
  success failure blocked : Result

abbrev pub size_mod : ℕ
size_mod = 2 ^ 64

-- newsz of tio_read() and tio_write(); `allocated` is the answer of realloc()
unfoldable pub grow : Bool → Buffer → Buffer
grow allocated b =
    let twice = b.size * 2 % size_mod in
    let newsz = if ltb b.maxsize twice then b.maxsize else twice in
    if ltb b.size b.maxsize then if allocated then record b { size = newsz } else b else b

abbrev pub empty_buffer : ℕ → ℕ → Buffer
empty_buffer size maxsize = record { size = size; maxsize = maxsize; before = []; content = [] }

-- tio_fdopen(), where memory is given
unfoldable pub tio_fdopen : ℕ → ℕ → ℕ → ℕ → File
tio_fdopen initreadsize maxreadsize initwritesize maxwritesize = record {
  readbuffer = empty_buffer initreadsize maxreadsize;
  writebuffer = empty_buffer initwritesize maxwritesize;
  read_resettable = false;
}
