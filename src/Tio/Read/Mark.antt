-- ===== src/Tio/Read/Mark.antt =====
-- common/tio.c: tio_mark() and tio_reset().
use nss_pam_ldapd.Prelude.{
  ◌&&◌, ℕ, ◌-◌, ◌<◌, ◌≡◌, ◌⊎◌, inl, inr, refl, sym, ap, ◌∙◌, Bool, false, List, [], ◌∷◌, ◌++◌,
  arith, ltb, leb, ◌==◌, length, take, drop, append_assoc, append-nil, take-append-drop, Bool-cases,
}
use nss_pam_ldapd.Bytes.{Bytes}
use nss_pam_ldapd.Tio.{File, success, grow, len, start}
use nss_pam_ldapd.Tio.Read.{
  Event, Arrival, not_ready, closed, broken, interrupted, ready, Reading, take_all, drain,
  make_room, receive, arrive, read_loop, tio_read, tio_mark, tio_reset,
}
use nss_pam_ldapd.Tio.Read.Stream.{waiting, waiting-content}

-- The calls of tio_read() after a mark: what each meets, and how many bytes it asks for.
unfoldable pub read_many : List (List Event × ℕ) → File → Bytes → File × Bytes
read_many [] f wire = (f, wire)
read_many ((evs, count) ∷ calls) f wire =
    let r = (tio_read evs f wire count).1 in read_many calls r.file r.wire

-- While the stream can be reset, the buffer still holds all that was read since the mark.
pub record Keeps (marked : Bytes) (f : File) (wire : Bytes) : Type 0 where
  pub kept :
      (f.read_resettable ≡ false) ⊎ (f.readbuffer.before ++ (f.readbuffer.content ++ wire) ≡ marked)

module _ (marked : Bytes) where
  Keeps-take_all :
      (n : ℕ) (r : Reading)
      → Keeps marked r.file r.wire
      → Keeps marked (take_all n r).file (take_all n r).wire
  unfolding take_all
  Keeps-take_all n r k = elim k.kept [
    | inl off ↦ record { kept = inl off }
    | inr e ↦
        let b = r.file.readbuffer in
        record {
          kept = inr (
              append_assoc b.before (take n b.content) (drop n b.content ++ r.wire)
              ∙ (ap (λ s. b.before ++ s)
                    (sym (append_assoc (take n b.content) (drop n b.content) r.wire)
                      ∙ ap (λ s. s ++ r.wire) (take-append-drop n b.content))
                  ∙ e));
        }
  ]

  Keeps-drain :
      (r : Reading) → Keeps marked r.file r.wire → Keeps marked (drain r).file (drain r).wire
  unfolding drain
  Keeps-drain r k = elim k.kept [
    | inl off ↦ record { kept = inl off }
    | inr e ↦
        let b = r.file.readbuffer in
        record { kept = inr (append_assoc b.before b.content r.wire ∙ e) }
  ]

  -- Room is made by growing, or at the cost of the mark.
  Keeps-make_room :
      (m : Bool) (f : File) (wire : Bytes) → Keeps marked f wire → Keeps marked (make_room m f) wire
  unfolding make_room grow
  Keeps-make_room m f wire k = record { kept = ground (arith, k.kept) }

  Keeps-receive :
      (n : ℕ) (r : Reading)
      → r.file.readbuffer.content ≡ []
      → Keeps marked r.file r.wire
      → Keeps marked (receive n r).file (receive n r).wire
  unfolding receive
  Keeps-receive n r h k = elim k.kept [
    | inl off ↦ record { kept = inl off }
    | inr e ↦ record { kept = inr (rw take-append-drop (rw h at e)) }
  ]

  Keeps-arrive :
      (a : Arrival) (r : Reading)
      → r.file.readbuffer.content ≡ []
      → Keeps marked r.file r.wire
      → Keeps marked (arrive a r).1.file (arrive a r).1.wire
  unfolding arrive
  Keeps-arrive not_ready r h k = k
  Keeps-arrive closed r h k = k
  Keeps-arrive broken r h k = k
  Keeps-arrive interrupted r h k = k
  Keeps-arrive (ready n) r h k = elim (Bool-cases (len (receive n r).file.readbuffer == 0)) [
    | inl e ↦ rw e k
    | inr e ↦ rw e (Keeps-receive n r h k)
  ]

  Keeps-read_loop :
      (evs : List Event) (count : ℕ) (r : Reading)
      → Keeps marked r.file r.wire
      → Keeps marked (read_loop evs count r).1.file (read_loop evs count r).1.wire
  unfolding read_loop
  Keeps-read_loop [] count r k = elim (Bool-cases (leb count (len r.file.readbuffer))) [
    | inl e ↦ rw e (Keeps-take_all count r k)
    | inr e ↦ rw e k
  ]
  Keeps-read_loop (ev ∷ evs) count r k =
      let w = waiting ev.memory r in
      let once : Keeps marked (arrive ev.arrival w).1.file (arrive ev.arrival w).1.wire =
        Keeps-arrive ev.arrival w (waiting-content ev.memory r)
          (Keeps-make_room ev.memory (drain r).file (drain r).wire (Keeps-drain r k)) in
      elim (Bool-cases (leb count (len r.file.readbuffer))) [
        | inl e ↦ rw e (Keeps-take_all count r k)
        | inr e ↦ elim (Bool-cases (arrive ev.arrival w).0) [
          | inl go ↦
              rw (e, go)
                (Keeps-read_loop evs (count - len r.file.readbuffer) (arrive ev.arrival w).1 once)
          | inr stop ↦ rw (e, stop) once
        ]
      ]

  Keeps-read_many :
      (calls : List (List Event × ℕ)) (f : File) (wire : Bytes)
      → Keeps marked f wire
      → Keeps marked (read_many calls f wire).0 (read_many calls f wire).1
  unfolding read_many
  Keeps-read_many [] f wire k = k
  Keeps-read_many ((evs, count) ∷ calls) f wire k =
      let r = (tio_read evs f wire count).1 in
      Keeps-read_many calls r.file r.wire (
        unfold tio_read in Keeps-read_loop evs count (record { file = f; wire = wire; out = [] }) k)

eq-nil : (s : Bytes) → length s ≡ 0 → s ≡ []
eq-nil [] h = refl
eq-nil (c ∷ s) h = absurd (omega arith)

Keeps-tio_mark :
    (f : File) (wire : Bytes)
    → (start f.readbuffer ≡ 0) ⊎ (0 < len f.readbuffer)
    → Keeps (f.readbuffer.content ++ wire) (tio_mark f) wire
unfolding tio_mark
Keeps-tio_mark f wire h =
    let b = f.readbuffer in
    elim (Bool-cases (ltb 0 (start b) && ltb 0 (len b))) [
      | inl moved ↦ rw moved (record { kept = inr refl })
      | inr stays ↦
          let e : b.before ≡ [] = eq-nil b.before (ground arith) in
          rw stays (record { kept = inr (ap (λ s. s ++ (b.content ++ wire)) e) })
    ]

-- After tio_mark() on a buffer that is at its start or is not empty, and after any calls of
-- tio_read(), successful or not, a tio_reset() that returns 0 makes the stream stand where it stood
-- at the mark.
pub mark_reset_lem :
    (f : File) (wire : Bytes) (calls : List (List Event × ℕ))
    → (start f.readbuffer ≡ 0) ⊎ (0 < len f.readbuffer)
    → (tio_reset (read_many calls (tio_mark f) wire).0).0 ≡ success
    → (tio_reset (read_many calls (tio_mark f) wire).0).1.readbuffer.content
        ++ (read_many calls (tio_mark f) wire).1
      ≡ f.readbuffer.content ++ wire
unfolding tio_reset
mark_reset_lem f wire calls h done =
    let k =
      Keeps-read_many (f.readbuffer.content ++ wire) calls (tio_mark f) wire
        (Keeps-tio_mark f wire h) in
    let g = (read_many calls (tio_mark f) wire).0 in
    let b = g.readbuffer in
    elim (Bool-cases g.read_resettable) [
      | inr off ↦ absurd (cc (rw off at done))
      | inl on ↦ elim k.kept [
        | inl off ↦ absurd (cc (on, off))
        | inr e ↦ rw on (append_assoc b.before b.content (read_many calls (tio_mark f) wire).1 ∙ e)
      ]
    ]

-- The case that is left: at a mark on a buffer whose data is all used, the place in the buffer is
-- not moved, and a reset brings back every byte from before the mark that the buffer still holds.
pub mark_reset_stale :
    (f : File)
    → f.readbuffer.content ≡ []
    → (tio_reset (tio_mark f)).1.readbuffer.content ≡ f.readbuffer.before
unfolding tio_reset tio_mark
mark_reset_stale f h =
    let b = f.readbuffer in
    elim (Bool-cases (ltb 0 (start b) && ltb 0 (len b))) [
      | inl moved ↦ absurd (let e : len b ≡ 0 = ap length h in ground arith)
      | inr stays ↦ rw stays (rw h (append-nil b.before))
    ]
