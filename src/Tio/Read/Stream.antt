-- ===== src/Tio/Read/Stream.antt =====
-- common/tio.c: the bytes that pass through tio_read().
use nss_pam_ldapd.Prelude.{
  ℕ, ◌+◌, ◌-◌, ◌≡◌, ◌≢◌, ◌⊎◌, refl, sym, ap, ◌∙◌, Bool, true, List, [], ◌∷◌, ◌++◌, arith, leb, ◌==◌,
  length, take, drop, append_assoc, take-append-drop, length-append, length-take, Bool-cases, inl,
  inr, tests,
}
use nss_pam_ldapd.Bytes.{Bytes}
use nss_pam_ldapd.Tio.{Buffer, File, Result, success, failure, blocked, grow, len}
use nss_pam_ldapd.Tio.Read.{
  Event, Arrival, not_ready, closed, broken, interrupted, ready, Reading, take_all, drain,
  make_room, receive, arrive, read_loop, tio_read,
}

-- All that the caller was given, followed by all that it will read.
abbrev pub stream : Reading → Bytes
stream r = r.out ++ (r.file.readbuffer.content ++ r.wire)

stream-take_all : (n : ℕ) (r : Reading) → stream (take_all n r) ≡ stream r
unfolding take_all
stream-take_all n r =
    let b = r.file.readbuffer in
    append_assoc r.out (take n b.content) (drop n b.content ++ r.wire)
    ∙ ap (λ s. r.out ++ s)
        (sym (append_assoc (take n b.content) (drop n b.content) r.wire)
          ∙ ap (λ s. s ++ r.wire) (take-append-drop n b.content))

stream-drain : (r : Reading) → stream (drain r) ≡ stream r
unfolding drain
stream-drain r = append_assoc r.out r.file.readbuffer.content r.wire

grow-content : (m : Bool) (b : Buffer) → (grow m b).content ≡ b.content
unfolding grow
grow-content m b = ground arith

make_room-content :
    (m : Bool) (f : File) → (make_room m f).readbuffer.content ≡ f.readbuffer.content
unfolding make_room
make_room-content m f = ground (arith, grow-content m f.readbuffer)

stream-receive :
    (n : ℕ) (r : Reading) → r.file.readbuffer.content ≡ [] → stream (receive n r) ≡ stream r
unfolding receive
stream-receive n r h = rw (h, take-append-drop)

stream-arrive :
    (a : Arrival) (r : Reading) → r.file.readbuffer.content ≡ [] → stream (arrive a r).1 ≡ stream r
unfolding arrive
stream-arrive not_ready r h = refl
stream-arrive closed r h = refl
stream-arrive broken r h = refl
stream-arrive interrupted r h = refl
stream-arrive (ready n) r h = elim (Bool-cases (len (receive n r).file.readbuffer == 0)) [
  | inl e ↦ rw e
  | inr e ↦ rw e (stream-receive n r h)
]

-- the state that read() is called in
abbrev pub waiting : Bool → Reading → Reading
waiting m r = record (drain r) { file = make_room m (drain r).file }

pub waiting-content : (m : Bool) (r : Reading) → (waiting m r).file.readbuffer.content ≡ []
waiting-content m r = make_room-content m (drain r).file ∙ (unfold drain in refl)

stream-waiting : (m : Bool) (r : Reading) → stream (waiting m r) ≡ stream r
stream-waiting m r =
    ap (λ s. (drain r).out ++ (s ++ (drain r).wire)) (make_room-content m (drain r).file)
    ∙ stream-drain r

pub stream-read_loop :
    (evs : List Event) (count : ℕ) (r : Reading) → stream (read_loop evs count r).1 ≡ stream r
unfolding read_loop
stream-read_loop [] count r = elim (Bool-cases (leb count (len r.file.readbuffer))) [
  | inl e ↦ rw e (stream-take_all count r)
  | inr e ↦ rw e
]
stream-read_loop (ev ∷ evs) count r =
    let w = waiting ev.memory r in
    let once : stream (arrive ev.arrival w).1 ≡ stream r =
      stream-arrive ev.arrival w (waiting-content ev.memory r) ∙ stream-waiting ev.memory r in
    elim (Bool-cases (leb count (len r.file.readbuffer))) [
      | inl e ↦ rw e (stream-take_all count r)
      | inr e ↦ elim (Bool-cases (arrive ev.arrival w).0) [
        | inl go ↦
            rw (e, go)
              (stream-read_loop evs (count - len r.file.readbuffer) (arrive ev.arrival w).1 ∙ once)
        | inr stop ↦ rw (e, stop) once
      ]
    ]

out-take_all :
    (n : ℕ) (r : Reading)
    → leb n (len r.file.readbuffer) ≡ true
    → length (take_all n r).out ≡ length r.out + n
unfolding take_all
out-take_all n r h =
    let b = r.file.readbuffer in
    omega (tests, length-append r.out (take n b.content), length-take n b.content)

out-drain : (r : Reading) → length (drain r).out ≡ length r.out + len r.file.readbuffer
unfolding drain
out-drain r = length-append r.out r.file.readbuffer.content

out-arrive : (a : Arrival) (r : Reading) → length (arrive a r).1.out ≡ length r.out
unfolding arrive receive
out-arrive not_ready r = refl
out-arrive closed r = refl
out-arrive broken r = refl
out-arrive interrupted r = refl
out-arrive (ready n) r = elim (Bool-cases (len (receive n r).file.readbuffer == 0)) [
  | inl e ↦ rw e
  | inr e ↦ rw e
]

-- The bytes that the caller was given when the call began, with those asked for.
out-read_loop :
    (evs : List Event) (count : ℕ) (r : Reading)
    → (read_loop evs count r).0 ≡ success
    → length (read_loop evs count r).1.out ≡ length r.out + count
unfolding read_loop
out-read_loop [] count r h = elim (Bool-cases (leb count (len r.file.readbuffer))) [
  | inl e ↦ rw e (out-take_all count r e)
  | inr e ↦ absurd (cc (rw e at h))
]
out-read_loop (ev ∷ evs) count r h =
    let w = waiting ev.memory r in
    let c = count - len r.file.readbuffer in
    elim (Bool-cases (leb count (len r.file.readbuffer))) [
      | inl e ↦ rw e (out-take_all count r e)
      | inr e ↦ elim (Bool-cases (arrive ev.arrival w).0) [
        | inl go ↦
            rw (e, go)
              (out-read_loop evs c (arrive ev.arrival w).1 (rw (e, go) at h)
                ∙ omega (tests, out-arrive ev.arrival w, out-drain r))
        | inr stop ↦ absurd (cc (rw (e, stop) at h))
      ]
    ]

-- Whatever the peer, poll() and malloc() do, what tio_read() has handed out, followed by what is
-- still in the buffer and by what the peer has still to send, is what the buffer held and the peer
-- had to send before: no byte is lost, added or moved, on success and on failure.  A call that
-- returns 0 has handed out exactly `count` bytes.
pub tio_read_lem :
    (evs : List Event) (f : File) (wire : Bytes) (count : ℕ)
    → (stream (tio_read evs f wire count).1 ≡ f.readbuffer.content ++ wire)
      × ((tio_read evs f wire count).0 ≢ success
          ⊎ (length (tio_read evs f wire count).1.out ≡ count))
unfolding tio_read
tio_read_lem evs f wire count =
    let r : Reading = record { file = f; wire = wire; out = [] } in
    (stream-read_loop evs count r, exact (read_loop evs count r).0 refl)
  where
    exact :
        (x : Result)
        → (read_loop evs count (record { file = f; wire = wire; out = [] })).0 ≡ x
        → ((read_loop evs count (record { file = f; wire = wire; out = [] })).0 ≢ success)
          ⊎ (length (read_loop evs count (record { file = f; wire = wire; out = [] })).1.out
              ≡ count)
    exact success e =
        inr (omega (arith, out-read_loop evs count (record { file = f; wire = wire; out = [] }) e))
    exact failure e = inl (λ p. cc)
    exact blocked e = inl (λ p. cc)
