-- ===== src/Tio/Close.antt =====
-- common/tio.c: emptying the read buffer and the stream, and closing the file.
use nss_pam_ldapd.Prelude.{
  ℕ, ◌≡◌, sym, ap, ◌∙◌, Bool, true, false, List, [], ◌∷◌, ◌++◌, ◌==◌, if◌then◌else◌, length, take,
  drop, min, append-nil, inl, inr,
}
use nss_pam_ldapd.Bytes.{Bytes}
use nss_pam_ldapd.Tio.{File, Result, success, failure, blocked}
use nss_pam_ldapd.Tio.Write
use nss_pam_ldapd.Tio.Write.{Writing, Written, tio_flush}
use nss_pam_ldapd.Tio.Write.Stream.{tio_flush_lem}
use nss_pam_ldapd.Tio.Write.Drained.{length-zero}

-- What a round of the loop in tio_skipall() meets in tio_wait() and read().
pub data Skip : Type 0 where
  not_ready end_of_file would_block interrupted broken : Skip
  ready : ℕ → Skip

-- fp->readbuffer emptied, and not resettable
unfoldable pub clear_readbuffer : File → File
clear_readbuffer f = record f {
  readbuffer = record f.readbuffer { before = []; content = [] };
  read_resettable = false;
}

-- The result, and what the peer has still to send; at `ready n` the kernel has `n` bytes for the read.
unfoldable pub skip_loop : List Skip → ℕ → Bytes → Result × Bytes
skip_loop [] size wire = (blocked, wire)
skip_loop (not_ready ∷ evs) size wire = (failure, wire)
skip_loop (end_of_file ∷ evs) size wire = (success, wire)
skip_loop (would_block ∷ evs) size wire = (success, wire)
skip_loop (interrupted ∷ evs) size wire = skip_loop evs size wire
skip_loop (broken ∷ evs) size wire = (failure, wire)
skip_loop (ready n ∷ evs) size wire =
    let got = length (take (min n size) wire) in
    let rest = skip_loop evs size (drop (min n size) wire) in
    if got == 0 then (success, wire) else rest

unfoldable pub tio_skipall : List Skip → File → Bytes → (Result × Bytes) × File
tio_skipall evs f wire = (skip_loop evs f.readbuffer.size wire, clear_readbuffer f)

-- tio_flush() and close(); the result is that of the flush, or -1 where close() fails
unfoldable pub tio_close : List Write.Event → Bool → Writing → Result × Bytes
tio_close evs closed w =
    let flushed = tio_flush evs w in
    (if closed then flushed.result else failure, flushed.writing.sent)

-- A tio_close() that returns 0 has sent the peer every byte that was in the write buffer, behind what
-- it was sent before.
pub tio_close_lem :
    (evs : List Write.Event) (closed : Bool) (w : Writing)
    → (tio_close evs closed w).0 ≡ success
    → (tio_close evs closed w).1 ≡ w.sent ++ w.buffer.content
unfolding tio_close
tio_close_lem evs false w h = cc
tio_close_lem evs true w h =
    let f = tio_flush_lem evs w in
    let s = (tio_flush evs w).writing in
    elim f.all_sent [
      | inl broke ↦ absurd (broke h)
      | inr e ↦
          sym (ap (λ x. s.sent ++ x) (length-zero s.buffer.content e) ∙ append-nil s.sent) ∙ f.kept
    ]
