-- ===== src/Tio/Wait/Deadline.antt =====
-- common/tio.c: a tio_wait() and its deadline.
use nss_pam_ldapd.Prelude.{
  subst, suc, ℕ, ◌+◌, ◌-◌, ◌*◌, ◌/◌, ◌%◌, ◌^◌, ◌<◌, ◌≤◌, ◌≡◌, refl, sym, ap, ◌⊎◌, inl, inr, true,
  false, List, [], ◌∷◌, Option, none, some, arith, ltb, leb, ◌==◌, All, Bool-cases,
}
use nss_pam_ldapd.Prelude.Int.{ℤ, pos, negsuc, pos_part, neg_part, sub_ℕ, ◌+ℤ◌, quotient}
use nss_pam_ldapd.Tio.{success, failure, blocked}
use nss_pam_ldapd.Tio.Wait.{
  Time, Poll, activity, no_activity, interrupted, poll_error, Round, Wait, to_int,
  milliseconds_between, tio_time_remaining, at_most, after_poll, poll_for, tio_wait,
}

abbrev pub nanoseconds : Time → ℕ
nanoseconds t = t.tv_sec * 1000000000 + t.tv_nsec

-- What a clock gives is a time, about three weeks from the deadline at most, so that the milliseconds
-- between them fit in an int.
abbrev pub Near : Time → Option Time → Type 0
Near deadline none = Unit
Near deadline (some tv) =
    (tv.tv_nsec < 1000000000)
    × (tv.tv_sec < deadline.tv_sec + 2000000)
    × (deadline.tv_sec < tv.tv_sec + 2000000)

-- A difference in milliseconds that is less than one from the true one.
abbrev Close : Time → Time → ℤ → Type 0
Close deadline tv (pos t) =
    (nanoseconds tv + t * 1000000 < nanoseconds deadline + 1000000)
    × (nanoseconds deadline < nanoseconds tv + t * 1000000 + 1000000)
Close deadline tv (negsuc n) = nanoseconds deadline < nanoseconds tv

to_int-small : (v : ℤ) → pos_part v < 2 ^ 31 → neg_part v ≤ 2 ^ 31 → to_int v ≡ v
unfolding to_int
to_int-small (pos n) h k =
    let low : ltb ((n + (2 ^ 32 - 0 % 2 ^ 32)) % 2 ^ 32) (2 ^ 31) ≡ true = ground arith in
    rw low (ap pos (omega arith))
to_int-small (negsuc n) h k =
    let high : ltb ((0 + (2 ^ 32 - suc n % 2 ^ 32)) % 2 ^ 32) (2 ^ 31) ≡ false = ground arith in
    rw high (ap negsuc (omega arith))

sub-parts : (a b : ℕ) → pos_part (sub_ℕ a b) + b ≡ neg_part (sub_ℕ a b) + a
sub-parts a b = ground arith

sub-zero : (m : ℕ) → (pos_part (sub_ℕ 0 m) ≡ 0) × (neg_part (sub_ℕ 0 m) ≡ m)
sub-zero m = (ground arith, ground arith)

-- The parts of a quotient are less than one from the true one.
abbrev Rounded : ℤ → ℕ → ℕ → Type 0
Rounded q x y =
    (y + pos_part q * 1000000 < x + neg_part q * 1000000 + 1000000)
    × (x + neg_part q * 1000000 < y + pos_part q * 1000000 + 1000000)
    × (pos_part q * 1000000 ≤ x)
    × (neg_part q * 1000000 ≤ y)

quotient-Rounded :
    (z : ℤ) (x y : ℕ) → pos_part z + y ≡ neg_part z + x → Rounded (quotient z 1000000) x y
unfolding quotient
quotient-Rounded (pos n) x y h = (omega arith, omega arith, omega arith, omega arith)
quotient-Rounded (negsuc n) x y h =
    let m = suc n / 1000000 in
    let (p, q) = sub-zero m in
    (omega (arith, p, q), omega (arith, p, q), omega (arith, p, q), omega (arith, p, q))

sub-Close :
    (deadline tv : Time) (a b : ℕ)
    → nanoseconds tv + a * 1000000 < nanoseconds deadline + b * 1000000 + 1000000
    → nanoseconds deadline + b * 1000000 < nanoseconds tv + a * 1000000 + 1000000
    → Close deadline tv (sub_ℕ a b)
sub-Close deadline tv a b h k = elim (Bool-cases (leb b a)) [
  | inl e ↦ let i : b ≤ a = ground arith in rw e (omega arith, omega arith)
  | inr e ↦ let i : a < b = ground arith in rw e (omega arith)
]

add-Close :
    (deadline tv : Time) (d q : ℤ)
    → pos_part d + tv.tv_sec * 1000 ≡ neg_part d + deadline.tv_sec * 1000
    → Rounded q deadline.tv_nsec tv.tv_nsec
    → Close deadline tv (d +ℤ q)
unfolding ◌+ℤ◌
add-Close deadline tv d q h (r1, r2, r3, r4) =
    sub-Close deadline tv (pos_part d + pos_part q) (neg_part d + neg_part q) (omega arith)
      (omega arith)

-- The difference in milliseconds does not wrap.
Close-to_int :
    (deadline tv : Time) (v : ℤ)
    → deadline.tv_nsec < 2000000000
    → Near deadline (some tv)
    → Close deadline tv v
    → neg_part v < 2 ^ 31
    → to_int v ≡ v
Close-to_int deadline tv (pos n) nsec (h1, h2, h3) (k1, k2) l =
    to_int-small (pos n) (omega arith) (omega arith)
Close-to_int deadline tv (negsuc n) nsec (h1, h2, h3) k l =
    to_int-small (negsuc n) (omega arith) (omega arith)

add-neg : (d q : ℤ) (m : ℕ) → neg_part d + neg_part q ≤ m → neg_part (d +ℤ q) ≤ m
unfolding ◌+ℤ◌
add-neg d q m h = ground arith

sub-neg : (a b : ℕ) → neg_part (sub_ℕ a b) ≤ b - a
sub-neg a b = ground arith

between-Close :
    (deadline tv : Time)
    → deadline.tv_nsec < 2000000000
    → Near deadline (some tv)
    → Close deadline tv (milliseconds_between deadline tv)
unfolding milliseconds_between
between-Close deadline tv nsec (h1, h2, h3) =
    let d = sub_ℕ (deadline.tv_sec * 1000) (tv.tv_sec * 1000) in
    let z = sub_ℕ deadline.tv_nsec tv.tv_nsec in
    let q = quotient z 1000000 in
    let r =
      quotient-Rounded z deadline.tv_nsec tv.tv_nsec (sub-parts deadline.tv_nsec tv.tv_nsec) in
    let c = add-Close deadline tv d q (sub-parts (deadline.tv_sec * 1000) (tv.tv_sec * 1000)) r in
    let n = sub-neg (deadline.tv_sec * 1000) (tv.tv_sec * 1000) in
    let small = add-neg d q 2147483647 (let m = r.3 in omega (arith, n)) in
    subst (Close deadline tv)
      (sym (Close-to_int deadline tv (d +ℤ q) nsec (h1, h2, h3) c (omega (arith, small)))) c

-- A poll lasts for the time to the deadline, less than a millisecond off, but for the timeout at most,
-- and for the timeout where the clock fails.
abbrev pub Waits : ℕ → Time → Option Time → ℕ → Type 0
Waits timeout deadline none t = t ≡ timeout
Waits timeout deadline (some tv) t =
    (t ≤ timeout)
    × (nanoseconds tv + t * 1000000 < nanoseconds deadline + 1000000)
    × ((t ≡ timeout) ⊎ (nanoseconds deadline < nanoseconds tv + t * 1000000 + 1000000))

-- What a wait for a deadline does in rounds of the clock and poll(): it fails without a poll past the
-- deadline, succeeds at activity, fails where poll() ends without activity or fails, and polls again
-- where poll() was interrupted.
pub data Waited (timeout : ℕ) (deadline : Time) : List Round → Wait → Type 0 where
  no_rounds : Waited timeout deadline [] (record { result = blocked; polled = [] })
  passed :
      {r : Round} {rounds : List Round} (tv : Time)
      → r.clock ≡ some tv
      → nanoseconds deadline < nanoseconds tv
      → Waited timeout deadline (r ∷ rounds) (record { result = failure; polled = [] })
  happened :
      {r : Round} {rounds : List Round} {t : ℕ}
      → r.poll ≡ activity
      → Waits timeout deadline r.clock t
      → Waited timeout deadline (r ∷ rounds) (record { result = success; polled = t ∷ [] })
  ended :
      {r : Round} {rounds : List Round} {t : ℕ}
      → (r.poll ≡ no_activity) ⊎ (r.poll ≡ poll_error)
      → Waits timeout deadline r.clock t
      → Waited timeout deadline (r ∷ rounds) (record { result = failure; polled = t ∷ [] })
  resumed :
      {r : Round} {rounds : List Round} {t : ℕ} {w : Wait}
      → r.poll ≡ interrupted
      → Waits timeout deadline r.clock t
      → Waited timeout deadline rounds w
      → Waited timeout deadline (r ∷ rounds) (record w { polled = t ∷ w.polled })

module _ (timeout : ℕ) (deadline : Time) (nsec : deadline.tv_nsec < 2000000000) where
  after_poll-Waited :
      (r : Round) (rounds : List Round) (w : Wait) (t : ℕ) (p : Poll)
      → r.poll ≡ p
      → Waits timeout deadline r.clock t
      → Waited timeout deadline rounds w
      → Waited timeout deadline (r ∷ rounds) (after_poll t p w)
  unfolding after_poll
  after_poll-Waited r rounds w t activity e h k = happened e h
  after_poll-Waited r rounds w t no_activity e h k = ended (inl e) h
  after_poll-Waited r rounds w t interrupted e h k = resumed e h k
  after_poll-Waited r rounds w t poll_error e h k = ended (inr e) h

  clipped-Waits :
      (tv : Time) (t : ℕ)
      → Close deadline tv (pos t)
      → Waits timeout deadline (some tv) (at_most timeout t)
  unfolding at_most
  clipped-Waits tv t (h, k) = elim (Bool-cases (ltb timeout t)) [
    | inl e ↦ let i : timeout < t = ground arith in rw e (omega arith, omega arith, inl refl)
    | inr e ↦ let i : t ≤ timeout = ground arith in rw e (i, h, inr k)
  ]

  poll_for-Waited :
      (r : Round) (rounds : List Round) (w : Wait) (tv : Time) (z : ℤ)
      → r.clock ≡ some tv
      → Close deadline tv z
      → Waited timeout deadline rounds w
      → Waited timeout deadline (r ∷ rounds) (poll_for timeout z r.poll w)
  unfolding poll_for
  poll_for-Waited r rounds w tv (negsuc n) e c k = passed tv e c
  poll_for-Waited r rounds w tv (pos t) e c k =
      after_poll-Waited r rounds w (at_most timeout t) r.poll refl
        (subst (λ o. Waits timeout deadline o (at_most timeout t)) (sym e) (clipped-Waits tv t c)) k

  full-Waited :
      (r : Round) (rounds : List Round) (w : Wait)
      → Waits timeout deadline r.clock timeout
      → Waited timeout deadline rounds w
      → Waited timeout deadline (r ∷ rounds) (poll_for timeout (pos timeout) r.poll w)
  unfolding poll_for at_most
  full-Waited r rounds w h k =
      let same : ltb timeout timeout ≡ false = ground arith in
      rw same (after_poll-Waited r rounds w timeout r.poll refl h k)

  module _ (set : 0 < deadline.tv_sec) where
    round-Waited :
        (r : Round) (rounds : List Round) (w : Wait) (o : Option Time)
        → r.clock ≡ o
        → Near deadline o
        → Waited timeout deadline rounds w
        → Waited timeout deadline
            (r ∷ rounds)
            (poll_for timeout (tio_time_remaining o deadline timeout).0 r.poll w)
    unfolding tio_time_remaining
    round-Waited r rounds w none e n k =
        full-Waited r rounds w (subst (λ o. Waits timeout deadline o timeout) (sym e) refl) k
    round-Waited r rounds w (some tv) e n k =
        let is_set : (deadline.tv_sec == 0) ≡ false = ground arith in
        rw is_set (
          poll_for-Waited r rounds w tv (milliseconds_between deadline tv) e
            (between-Close deadline tv nsec n) k)

    same_deadline : (o : Option Time) → (tio_time_remaining o deadline timeout).1 ≡ deadline
    unfolding tio_time_remaining
    same_deadline none = refl
    same_deadline (some tv) =
        let is_set : (deadline.tv_sec == 0) ≡ false = ground arith in rw is_set refl

    set-Waited :
        (rounds : List Round)
        → All (λ r. Near deadline r.clock) rounds
        → Waited timeout deadline rounds (tio_wait rounds timeout deadline)
    unfolding tio_wait
    set-Waited [] h = no_rounds
    set-Waited (r ∷ rounds) (h, hs) =
        subst
          (λ d. Waited timeout deadline (r ∷ rounds) (
            poll_for timeout (tio_time_remaining r.clock deadline timeout).0 r.poll
              (tio_wait rounds timeout d)))
          (sym (same_deadline r.clock))
          (round-Waited r rounds (tio_wait rounds timeout deadline) r.clock refl h
            (set-Waited rounds hs))

abbrev pub unset : Time
unset = record { tv_sec = 0; tv_nsec = 0 }

-- The deadline that is the timeout away from a time.
abbrev pub deadline_from : Time → ℕ → Time
deadline_from tv timeout = record {
  tv_sec = tv.tv_sec + timeout / 1000;
  tv_nsec = tv.tv_nsec + timeout % 1000 * 1000000;
}

-- A tio_wait() without a deadline, whose first look at the clock gives a time after 0, sets the
-- deadline that is the timeout away from that time, and keeps it in all rounds, where the clock gives
-- times about three weeks from the deadline at most or fails.  It fails without a poll past the
-- deadline, and no poll lasts for longer than the timeout or a millisecond over the deadline; a poll
-- for less than the timeout lasts to the deadline but for a millisecond.  The result is what the last
-- poll says, and only an interrupted poll is followed by another.
pub tio_wait_lem :
    (poll : Poll) (rounds : List Round) (timeout : ℕ) (tv : Time)
    → 0 < tv.tv_sec
    → tv.tv_nsec < 1000000000
    → All (λ r. Near (deadline_from tv timeout) r.clock) rounds
    → let first : List Round = record { clock = some tv; poll = poll } ∷ rounds in
      Waited timeout (deadline_from tv timeout) first (tio_wait first timeout unset)
unfolding tio_wait tio_time_remaining
tio_wait_lem poll rounds timeout tv h n near =
    let deadline = deadline_from tv timeout in
    full-Waited timeout deadline (omega arith) (record { clock = some tv; poll = poll }) rounds
      (tio_wait rounds timeout deadline) (omega arith, omega arith, inl refl)
      (set-Waited timeout deadline (omega arith) (omega arith) rounds near)
