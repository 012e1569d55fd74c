-- ===== src/Tio/Write/Stream.antt =====
-- common/tio.c: the bytes that pass through tio_write().
use nss_pam_ldapd.Prelude.{
  ◌⊎◌, ℕ, zero, suc, ◌+◌, ◌≤◌, ◌≡◌, ◌≢◌, refl, sym, ap, ◌∙◌, Bool, ◌&&◌, List, [], ◌∷◌, ◌++◌, arith,
  ltb, leb, ◌==◌, length, take, drop, min, append_assoc, append-nil, take-append-drop, Bool-cases,
  inl, inr, tests,
}
use nss_pam_ldapd.Bytes.{Bytes}
use nss_pam_ldapd.Tio.{Buffer, Result, success, failure, blocked, grow, len, start}
use nss_pam_ldapd.Tio.Write.{
  Event, Send, accepts, interrupted, broken, writable, not_writable, poll_interrupted, poll_fails,
  Writing, Written, compact, tio_writebuf, flush_round, tio_flush, tio_flush_nonblock, free_room,
  fill, after_full_flush, after_flush, write_round, write_loop, tio_write,
}

-- What the peer was sent, followed by what is still to be sent to it.
abbrev pub stream : Writing → Bytes
stream w = w.sent ++ w.buffer.content

pub compact-content : (b : Buffer) → (compact b).content ≡ b.content
unfolding compact
compact-content b = ground arith

stream-tio_writebuf : (s : Send) (w : Writing) → stream (tio_writebuf s w).1 ≡ stream w
unfolding tio_writebuf
stream-tio_writebuf broken w = refl
stream-tio_writebuf interrupted w = refl
stream-tio_writebuf (accepts n) w =
    let b = w.buffer in
    let k = min n (len b) in
    elim (Bool-cases (k == 0)) [
      | inl e ↦ rw e
      | inr e ↦ rw e (
          ap (λ s. (w.sent ++ take k b.content) ++ s)
            (compact-content
              (record b { before = b.before ++ take k b.content; content = drop k b.content }))
          ∙ (append_assoc w.sent (take k b.content) (drop k b.content)
              ∙ ap (λ s. w.sent ++ s) (take-append-drop k b.content)))
    ]

stream-flush_round : (ev : Event) (w : Writing) → stream (flush_round ev w).1 ≡ stream w
unfolding flush_round
stream-flush_round (writable s) w = stream-tio_writebuf s w
stream-flush_round not_writable w = refl
stream-flush_round poll_interrupted w = refl
stream-flush_round poll_fails w = refl

stream-tio_flush_nonblock :
    (ev : Event) (w : Writing) → stream (tio_flush_nonblock ev w).1 ≡ stream w
unfolding tio_flush_nonblock
stream-tio_flush_nonblock (writable s) w = stream-tio_writebuf s w
stream-tio_flush_nonblock not_writable w = refl
stream-tio_flush_nonblock poll_interrupted w = refl
stream-tio_flush_nonblock poll_fails w = refl

-- tio_flush() keeps every byte in its order, and returns 0 only with all of them sent.
pub record Flushes (w : Writing) (r : Written) : Type 0 where
  pub kept : stream r.writing ≡ stream w
  pub all_sent : (r.result ≢ success) ⊎ (len r.writing.buffer ≡ 0)

pub tio_flush_lem : (evs : List Event) (w : Writing) → Flushes w (tio_flush evs w)
unfolding tio_flush
tio_flush_lem [] w = elim (Bool-cases (len w.buffer == 0)) [
  | inl e ↦ rw e (record { kept = refl; all_sent = inr (ground arith) })
  | inr e ↦ rw e (record { kept = refl; all_sent = inl (λ p. cc) })
]
tio_flush_lem (ev ∷ evs) w =
    let next = flush_round ev w in
    elim (Bool-cases (len w.buffer == 0)) [
      | inl e ↦ rw e (record { kept = refl; all_sent = inr (ground arith) })
      | inr e ↦ elim (Bool-cases next.0) [
        | inl go ↦
            let h = tio_flush_lem evs next.1 in
            rw (e, go) (record { kept = h.kept ∙ stream-flush_round ev w; all_sent = h.all_sent })
        | inr stop ↦
            rw (e, stop) (record { kept = stream-flush_round ev w; all_sent = inl (λ p. cc) })
      ]
    ]

stream-fill :
    (bytes : Bytes) (w : Writing)
    → stream (fill bytes w) ≡ stream w ++ take (free_room w.buffer) bytes
unfolding fill
stream-fill bytes w = sym (append_assoc w.sent w.buffer.content (take (free_room w.buffer) bytes))

grow-content : (m : Bool) (b : Buffer) → (grow m b).content ≡ b.content
unfolding grow
grow-content m b = ground arith

-- A call that returned 0 has taken over all of `bytes` behind what was there.
abbrev Takes : Bytes → Writing → Written → Type 0
Takes bytes w r = (r.result ≢ success) ⊎ (stream r.writing ≡ stream w ++ bytes)

module _ (loop : List Event → Bytes → Writing → Written) (memory : Bool)
    (takes : (evs : List Event) (bytes : Bytes) (w : Writing)
      → Takes bytes w (loop evs bytes w)) where
  after_full_flush-Takes :
      (bytes : Bytes) (w : Writing) (r : Written)
      → Flushes w r
      → (x : Result) → r.result ≡ x
      → Takes bytes w (after_full_flush loop bytes r x)
  unfolding after_full_flush
  after_full_flush-Takes bytes w r h failure e = inl (λ p. cc)
  after_full_flush-Takes bytes w r h blocked e = inl (λ p. cc)
  after_full_flush-Takes bytes w r h success e = elim (takes r.events bytes r.writing) [
    | inl no_success ↦ inl no_success
    | inr t ↦ inr (t ∙ ap (λ s. s ++ bytes) h.kept)
  ]

  after_flush-Takes :
      (evs : List Event) (bytes : Bytes) (w : Writing)
      → Takes bytes w (after_flush loop memory evs bytes w)
  unfolding after_flush
  after_flush-Takes evs bytes w =
      let b = w.buffer in
      elim (Bool-cases (ltb (start b + len b) b.size)) [
        | inl e ↦ rw e (takes evs bytes w)
        | inr e ↦ elim (Bool-cases (ltb b.size b.maxsize && memory)) [
          | inl g ↦ rw (e, g) (grown (takes evs bytes (record w { buffer = grow memory b })))
          | inr g ↦
              rw (e, g)
                (after_full_flush-Takes bytes w (tio_flush evs w) (tio_flush_lem evs w) _ refl)
        ]
      ]
    where
      grown :
          Takes bytes
            (record w { buffer = grow memory w.buffer })
            (loop evs bytes (record w { buffer = grow memory w.buffer }))
          → Takes bytes w (loop evs bytes (record w { buffer = grow memory w.buffer }))
      grown (inl no_success) = inl no_success
      grown (inr e) = inr (e ∙ ap (λ s. (w.sent ++ s) ++ bytes) (grow-content memory w.buffer))

  write_round-Takes :
      (evs : List Event) (bytes : Bytes) (w : Writing)
      → Takes bytes w (write_round loop memory evs bytes w)
  unfolding write_round
  write_round-Takes [] bytes w = inl (λ p. cc)
  write_round-Takes (ev ∷ evs) bytes w =
      let filled = fill bytes w in
      let next = tio_flush_nonblock ev filled in
      let n = free_room w.buffer in
      elim (Bool-cases next.0) [
        | inr stop ↦ rw stop (inl (λ p. cc))
        | inl go ↦ rw go (elim (after_flush-Takes evs (drop n bytes) next.1) [
          | inl no_success ↦ inl no_success
          | inr t ↦ inr (
              t
              ∙ (ap (λ s. s ++ drop n bytes)
                    (stream-tio_flush_nonblock ev filled ∙ stream-fill bytes w)
                  ∙ (append_assoc (stream w) (take n bytes) (drop n bytes)
                      ∙ ap (λ s. stream w ++ s) (take-append-drop n bytes))))
        ])
      ]

take-length : (n : ℕ) (s : Bytes) → length s ≤ n → take n s ≡ s
take-length zero [] h = refl
take-length zero (c ∷ s) h = absurd (omega arith)
take-length (suc n) [] h = refl
take-length (suc n) (c ∷ s) h = ap (λ t. c ∷ t) (take-length n s (omega arith))

write_loop-Takes :
    (fuel : ℕ) (memory : Bool) (evs : List Event) (bytes : Bytes) (w : Writing)
    → Takes bytes w (write_loop fuel memory evs bytes w)
unfolding write_loop
write_loop-Takes zero memory evs bytes w = inl (λ p. cc)
write_loop-Takes (suc fuel) memory evs [] w = inr (sym (append-nil (stream w)))
write_loop-Takes (suc fuel) memory evs (c ∷ bytes) w =
    elim (Bool-cases (leb (length (c ∷ bytes)) (free_room w.buffer))) [
      | inl fits ↦ rw fits (
          inr (
            stream-fill (c ∷ bytes) w
            ∙ ap (λ s. stream w ++ s) (take-length (free_room w.buffer) (c ∷ bytes) (omega tests))))
      | inr more ↦ rw more (
          write_round-Takes (write_loop fuel memory) memory (write_loop-Takes fuel memory) evs
            (c ∷ bytes) w)
    ]

-- A call of tio_write() that returns 0 has put all its bytes behind those that it found, in the
-- buffer or on the way to the peer: what was sent, followed by what the buffer holds, is what it was
-- before, followed by `bytes`.  This holds whatever poll(), send() and realloc() answer.
pub tio_write_lem :
    (memory : Bool) (evs : List Event) (bytes : Bytes) (w : Writing)
    → (tio_write memory evs bytes w).result ≡ success
    → stream (tio_write memory evs bytes w).writing ≡ stream w ++ bytes
unfolding tio_write
tio_write_lem memory evs bytes w h = elim (write_loop-Takes (length evs + 1) memory evs bytes w) [
  | inl no_success ↦ absurd (no_success h)
  | inr e ↦ e
]
