-- ===== src/Tio/Write/Drained.antt =====
-- common/tio.c: tio_flush() with a peer that takes something of each write.
use nss_pam_ldapd.Prelude.{
  append-nil, ◌<◌, ◌≤◌, ◌≡◌, refl, sym, ap, ◌∙◌, true, List, [], ◌∷◌, ◌++◌, arith, ◌==◌, length,
  take, drop, min, All, Bool-cases, inl, inr, length-drop,
}
use nss_pam_ldapd.Bytes.{Bytes}
use nss_pam_ldapd.Tio.{success, len}
use nss_pam_ldapd.Tio.Write.{
  Event, Writing, accepts, interrupted, broken, writable, not_writable, poll_interrupted,
  poll_fails, tio_writebuf, flush_round, tio_flush,
}
use nss_pam_ldapd.Tio.Write.Stream.{tio_flush_lem, compact-content}

-- The peer takes at least a byte.
abbrev pub Takes : Event → Type 0
Takes (writable (accepts n)) = 0 < n
Takes (writable interrupted) = ⊥
Takes (writable broken) = ⊥
Takes not_writable = ⊥
Takes poll_interrupted = ⊥
Takes poll_fails = ⊥

flush_round-Takes :
    (ev : Event) (w : Writing)
    → Takes ev
    → 0 < len w.buffer
    → ((flush_round ev w).0 ≡ true) × (len (flush_round ev w).1.buffer < len w.buffer)
unfolding flush_round tio_writebuf
flush_round-Takes (writable (accepts n)) w t h =
    let b = w.buffer in
    let k = min n (len b) in
    let after = record b { before = b.before ++ take k b.content; content = drop k b.content } in
    elim (Bool-cases (k == 0)) [
      | inl e ↦ absurd (ground arith)
      | inr e ↦ rw e (
        refl,
        (let c = ap length (compact-content after) in
            let d = length-drop k b.content in ground arith),
      )
    ]
flush_round-Takes (writable interrupted) w t h = absurd t
flush_round-Takes (writable broken) w t h = absurd t
flush_round-Takes not_writable w t h = absurd t
flush_round-Takes poll_interrupted w t h = absurd t
flush_round-Takes poll_fails w t h = absurd t

flush-Takes :
    (evs : List Event) (w : Writing)
    → All Takes evs
    → len w.buffer ≤ length evs
    → (tio_flush evs w).result ≡ success
unfolding tio_flush
flush-Takes [] w t h = ground arith
flush-Takes (ev ∷ evs) w t h = elim (Bool-cases (len w.buffer == 0)) [
  | inl e ↦ rw e
  | inr e ↦
      let (go, less) = flush_round-Takes ev w t.0 (ground arith) in
      rw (e, go) (flush-Takes evs (flush_round ev w).1 t.1 (omega arith))
]

pub length-zero : (s : Bytes) → length s ≡ 0 → s ≡ []
length-zero [] h = refl
length-zero (c ∷ s) h = absurd (omega arith)

-- Where each event lets the peer take at least a byte, and there are as many events as bytes in
-- the buffer, tio_flush() returns 0, and the peer was sent the whole content of the buffer.
pub tio_flush-Takes :
    (evs : List Event) (w : Writing)
    → All Takes evs
    → len w.buffer ≤ length evs
    → ((tio_flush evs w).result ≡ success)
      × ((tio_flush evs w).writing.sent ≡ w.sent ++ w.buffer.content)
tio_flush-Takes evs w t h =
    let r = tio_flush evs w in
    let s = r.writing in
    let f = tio_flush_lem evs w in
    let yes = flush-Takes evs w t h in
    elim f.all_sent [
      | inl broke ↦ absurd (broke yes)
      | inr e ↦ (
        yes,
        sym (ap (λ x. s.sent ++ x) (length-zero s.buffer.content e) ∙ append-nil s.sent) ∙ f.kept,
      )
    ]
