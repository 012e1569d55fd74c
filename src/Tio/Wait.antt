-- ===== src/Tio/Wait.antt =====
-- common/tio.c: waiting for a file descriptor until a deadline.
pub mod Deadline
use nss_pam_ldapd.Prelude.{
  ◌-◌, ◌^◌, ℕ, ◌+◌, ◌*◌, ◌/◌, ◌%◌, ◌≤◌, ◌&&◌, List, [], ◌∷◌, Option, none, some, arith, ltb, ◌==◌,
  if◌then◌else◌, All,
}
use nss_pam_ldapd.Prelude.Int.{ℤ, pos, negsuc, pos_part, neg_part, sub_ℕ, ◌+ℤ◌, quotient}
use nss_pam_ldapd.Tio.{Result, success, failure, blocked}

-- struct timespec
pub record Time : Type 0 where
  pub tv_sec : ℕ
  pub tv_nsec : ℕ

-- An int of 32 bits from a long.
unfoldable pub to_int : ℤ → ℤ
to_int v =
    let u = (pos_part v + (2 ^ 32 - neg_part v % 2 ^ 32)) % 2 ^ 32 in
    if ltb u (2 ^ 31) then pos u else negsuc (2 ^ 32 - u - 1)

-- deadline - tv, in milliseconds, returned as an int
unfoldable pub milliseconds_between : Time → Time → ℤ
unfolding to_int
milliseconds_between deadline tv = to_int (
    sub_ℕ (deadline.tv_sec * 1000) (tv.tv_sec * 1000)
    +ℤ quotient (sub_ℕ deadline.tv_nsec tv.tv_nsec) 1000000)

-- The milliseconds before the deadline, and the deadline, which the first call sets; `clock` is what
-- clock_gettime() gives.
unfoldable pub tio_time_remaining : Option Time → Time → ℕ → ℤ × Time
tio_time_remaining none deadline timeout = (pos timeout, deadline)
tio_time_remaining (some tv) deadline timeout =
    if deadline.tv_sec == 0 && deadline.tv_nsec == 0
    then (
      pos timeout,
      record {
        tv_sec = tv.tv_sec + timeout / 1000;
        tv_nsec = tv.tv_nsec + timeout % 1000 * 1000000;
      },
    )
    else (milliseconds_between deadline tv, deadline)

-- What poll() answers.
pub data Poll : Type 0 where
  activity no_activity interrupted poll_error : Poll

-- What one round of the loop in tio_wait() meets.
pub record Round : Type 0 where
  pub clock : Option Time
  pub poll : Poll

-- The result of a call, and the timeouts given to poll().
pub record Wait : Type 0 where
  pub result : Result
  pub polled : List ℕ

-- the sanity check for a moving clock
unfoldable pub at_most : ℕ → ℕ → ℕ
at_most timeout t = if ltb timeout t then timeout else t

-- what follows a poll of `t` milliseconds
unfoldable pub after_poll : ℕ → Poll → Wait → Wait
after_poll t activity again = record { result = success; polled = t ∷ [] }
after_poll t no_activity again = record { result = failure; polled = t ∷ [] }
after_poll t interrupted again = record again { polled = t ∷ again.polled }
after_poll t poll_error again = record { result = failure; polled = t ∷ [] }

unfoldable pub poll_for : ℕ → ℤ → Poll → Wait → Wait
unfolding at_most
poll_for timeout (negsuc n) poll again = record { result = failure; polled = [] }
poll_for timeout (pos t) poll again = after_poll (at_most timeout t) poll again

unfoldable pub tio_wait : List Round → ℕ → Time → Wait
tio_wait [] timeout deadline = record { result = blocked; polled = [] }
tio_wait (r ∷ rounds) timeout deadline =
    let (t, deadline') = tio_time_remaining r.clock deadline timeout in
    poll_for timeout t r.poll (tio_wait rounds timeout deadline')
