-- ===== src/Tests.antt =====
-- The theorems at concrete inputs, and the operations run on them: the code that the daemon shares with
-- its clients.
mod Lookups
mod Answers
mod Groups
use nss_pam_ldapd.Prelude.{
  ◌≤◌, false, ◌&&◌, not, ◌/◌, ◌↔◌, if◌then◌else◌, ℕ, ◌<◌, ◌≡◌, ◌≢◌, ◌⊎◌, inr, refl, true, ◌||◌,
  List, [], ◌∷◌, ◌++◌, none, some, arith, length, All,
}
use nss_pam_ldapd.Bytes.{Bytes, bytes, ◌=ₛ◌, contains}
use nss_pam_ldapd.Bytes.Number.{skip_space, is_digit, is_space}
use nss_pam_ldapd.Outcome.{advance, ok, fail, overrun, out_of_fuel}
use nss_pam_ldapd.Expr.{Expander, expr_parse, program}
use nss_pam_ldapd.Expr.Bounds.{expr_parse_bounds}
use nss_pam_ldapd.Dict.{Dict, Memory, success, dict_new, dict_get, dict_put, dict_keys}
use nss_pam_ldapd.Dict.Valid.{IsValid, dict_new_lem}
use nss_pam_ldapd.Dict.Laws.{put_status, put_answer, dict_put_lem}
use nss_pam_ldapd.Dict.Keys.{occurrences, presence, dict_keys_lem}
use nss_pam_ldapd.Set.{Set, set_add, set_pop, set_contains}
use nss_pam_ldapd.Set.Laws.{Popped, set_add_lem, set_pop_lem}
use nss_pam_ldapd.Tio
use nss_pam_ldapd.Tio.Read
use nss_pam_ldapd.Tio.Read.{tio_read, tio_mark, tio_reset}
use nss_pam_ldapd.Tio.Read.Stream.{tio_read_lem, stream as read_stream}
use nss_pam_ldapd.Tio.Read.Mark.{read_many, mark_reset_lem, mark_reset_stale}
use nss_pam_ldapd.Tio.Write
use nss_pam_ldapd.Tio.Write.{tio_write}
use nss_pam_ldapd.Tio.Write.Stream.{tio_write_lem, stream as write_stream}
use nss_pam_ldapd.Tio.Write.Drained.{tio_flush-Takes}
use nss_pam_ldapd.Attmap
use nss_pam_ldapd.Attmap.{attmap_get_value, attmap_get_var, equal_ignoring_case}
use nss_pam_ldapd.Attmap.Lookup.{Fits, attmap_get_value-Fits, attmap_get_var_lem}
use nss_pam_ldapd.Common.{binsid2id}
use nss_pam_ldapd.Common.Sid.{encode, binsid2id_lem}
use nss_pam_ldapd.Prelude.Int.{pos, ◌-ℤ◌}
use nss_pam_ldapd.Shadow.{to_date}
use nss_pam_ldapd.Shadow.Dates.{to_date_lem}
use nss_pam_ldapd.Bytes.Number.Digits.{Digits, decimal}
use nss_pam_ldapd.Tio.Wait
use nss_pam_ldapd.Tio.Wait.{tio_wait}
use nss_pam_ldapd.Tio.Wait.Deadline.{Waited, deadline_from, unset, tio_wait_lem}
use nss_pam_ldapd.Tio.Close.{tio_close, tio_close_lem}
use nss_pam_ldapd.Prelude.Int.{◌+ℤ◌, quotient}
use nss_pam_ldapd.Nsswitch.Lines.{Line, texts, any_ldap, has_line, last_ldap, shadow_uses_ldap_lem}
use nss_pam_ldapd.Nsswitch.{shadow_uses_ldap}
use nss_pam_ldapd.Nsswitch
use nss_pam_ldapd.Nsswitch.{has_service}
use nss_pam_ldapd.Nsswitch.Services.{IsWord, service_list, has_service_lem}
use nss_pam_ldapd.Usermod.{Host, Config, Request, missing, found, nslcd_usermod}
use nss_pam_ldapd.Usermod.Authority.{Permitted, usermod_authority}

-- The variable `a` has the value "xyz", and no other has one.
abbrev one_variable : Expander
one_variable name = if name =ₛ bytes "a" then some (bytes "xyz") else none

expr_parse_bounds_example :
    (expr_parse (bytes "u${a:-b}") 5 one_variable ≢ out_of_fuel)
    × ((text : Bytes) → expr_parse (bytes "u${a:-b}") 5 one_variable ≡ ok text → length text < 5)
expr_parse_bounds_example = expr_parse_bounds (bytes "u${a:-b}") 5 one_variable

default_not_used : expr_parse (bytes "u${a:-b}") 5 one_variable ≡ ok (bytes "uxyz")
unfolding program ◌=ₛ◌
default_not_used = refl

default_used : expr_parse (bytes "u${c:-b}") 5 one_variable ≡ ok (bytes "ub")
unfolding program ◌=ₛ◌
default_used = refl

no_room : expr_parse (bytes "u${a:-b}") 4 one_variable ≡ fail
unfolding program ◌=ₛ◌
no_room = refl

-- A backslash at the end makes the loop step over the NUL.
backslash_at_end : expr_parse (bytes "a\\") 9 one_variable ≡ overrun
unfolding program
backslash_at_end = refl

abbrev memory : Memory
memory = record { for_table = true; for_entry = true }

abbrev one_entry : Dict ℕ
one_entry = (dict_put memory dict_new (bytes "a") (some 1)).1

one_entry-IsValid : IsValid one_entry
one_entry-IsValid = (dict_put_lem memory dict_new (bytes "a") (some 1) (dict_new_lem.0)).0

dict_put_lem_example :
    IsValid (dict_put memory one_entry (bytes "b") (some 2)).1
    × ((dict_put memory one_entry (bytes "b") (some 2)).0
        ≡ put_status true (dict_get one_entry (bytes "b")) (some 2))
    × ((j : Bytes)
        → dict_get (dict_put memory one_entry (bytes "b") (some 2)).1 j
          ≡ put_answer
              (put_status true (dict_get one_entry (bytes "b")) (some 2))
              (bytes "b")
              (some 2)
              (dict_get one_entry)
              j)
dict_put_lem_example = dict_put_lem memory one_entry (bytes "b") (some 2) one_entry-IsValid

dict_keys_lem_example :
    ((k : Bytes) → occurrences k (dict_keys one_entry) ≡ presence (dict_get one_entry k))
    × (length (dict_keys one_entry) ≡ one_entry.num)
dict_keys_lem_example = dict_keys_lem one_entry one_entry-IsValid

abbrev one_member : Set
one_member = (set_add memory dict_new (bytes "cn")).1

one_member-IsValid : IsValid one_member
one_member-IsValid = (set_add_lem memory dict_new (bytes "cn") (dict_new_lem.0) refl).0

set_add_lem_example :
    IsValid (set_add memory one_member (bytes "uid")).1
    × ((set_add memory one_member (bytes "uid")).0 ≡ success)
    × ((j : Bytes)
        → set_contains (set_add memory one_member (bytes "uid")).1 j
          ≡ (bytes "uid" =ₛ j || set_contains one_member j))
set_add_lem_example = set_add_lem memory one_member (bytes "uid") one_member-IsValid refl

set_pop_lem_example :
    IsValid (set_pop false memory one_member).1
    × Popped false
        (set_pop false memory one_member).0
        one_member
        (set_pop false memory one_member).1
set_pop_lem_example = set_pop_lem false memory one_member one_member-IsValid

-- A read buffer of eight bytes that holds two after one that is used.
abbrev half_read : Tio.File
half_read = record (Tio.tio_fdopen 8 16 8 16) {
  readbuffer = record { size = 8; maxsize = 16; before = bytes "h"; content = bytes "el" };
}

abbrev two_more : List Read.Event
two_more = record { arrival = Read.ready 2; memory = true } ∷ []

tio_read_lem_example :
    (read_stream (tio_read two_more half_read (bytes "lo") 3).1 ≡ bytes "el" ++ bytes "lo")
    × ((tio_read two_more half_read (bytes "lo") 3).0 ≢ Tio.success
        ⊎ (length (tio_read two_more half_read (bytes "lo") 3).1.out ≡ 3))
tio_read_lem_example = tio_read_lem two_more half_read (bytes "lo") 3

mark_reset_lem_example :
    (tio_reset
        (read_many ((two_more, 3) ∷ []) (tio_mark half_read) (bytes "lo")).0).1.readbuffer.content
      ++ (read_many ((two_more, 3) ∷ []) (tio_mark half_read) (bytes "lo")).1
    ≡ bytes "el" ++ bytes "lo"
unfolding read_many tio_read tio_mark tio_reset Read.read_loop Read.take_all Read.drain
    Read.make_room Read.receive Read.arrive Read.running_empty Tio.grow
mark_reset_lem_example =
    mark_reset_lem half_read (bytes "lo") ((two_more, 3) ∷ []) (inr (omega arith)) refl

abbrev all_used : Tio.File
all_used = record half_read {
  readbuffer = record { size = 8; maxsize = 16; before = bytes "old"; content = [] };
}

mark_reset_stale_example : (tio_reset (tio_mark all_used)).1.readbuffer.content ≡ bytes "old"
mark_reset_stale_example = mark_reset_stale all_used refl

abbrev half_written : Write.Writing
half_written = record {
  buffer = record { size = 4; maxsize = 4; before = []; content = bytes "abc" };
  sent = [];
}

abbrev accepting : List Write.Event
accepting = Write.writable (Write.accepts 3) ∷ Write.writable (Write.accepts 3) ∷ []

tio_write_lem_example :
    write_stream (tio_write true accepting (bytes "def") half_written).writing
    ≡ write_stream half_written ++ bytes "def"
unfolding tio_write Write.write_loop Write.write_round Write.fill Write.tio_flush_nonblock
    Write.tio_writebuf Write.after_flush Write.compact Tio.grow Write.tio_flush Write.flush_round
    Write.after_full_flush
tio_write_lem_example = tio_write_lem true accepting (bytes "def") half_written refl

abbrev three_writes : List Write.Event
three_writes = Write.writable (Write.accepts 2) ∷ accepting

tio_flush-Takes_example :
    ((Write.tio_flush three_writes half_written).result ≡ Tio.success)
    × ((Write.tio_flush three_writes half_written).writing.sent ≡ [] ++ bytes "abc")
tio_flush-Takes_example =
    tio_flush-Takes three_writes half_written (omega arith, (omega arith, (omega arith, tt)))
      (omega arith)

tio_close_lem_example : (tio_close three_writes true half_written).1 ≡ [] ++ bytes "abc"
unfolding tio_close Write.tio_flush Write.flush_round Write.tio_writebuf Write.compact
tio_close_lem_example = tio_close_lem three_writes true half_written refl

abbrev two_rounds : List Wait.Round
two_rounds =
    record { clock = some (record { tv_sec = 5; tv_nsec = 0 }); poll = Wait.interrupted }
    ∷ record { clock = some (record { tv_sec = 6; tv_nsec = 0 }); poll = Wait.activity }
    ∷ []

tio_wait_lem_example :
    Waited 1500
      (deadline_from (record { tv_sec = 5; tv_nsec = 0 }) 1500)
      two_rounds
      (tio_wait two_rounds 1500 unset)
tio_wait_lem_example =
    tio_wait_lem Wait.interrupted
      (record { clock = some (record { tv_sec = 6; tv_nsec = 0 }); poll = Wait.activity } ∷ []) 1500
      (record { tv_sec = 5; tv_nsec = 0 }) (omega arith) (omega arith)
      ((omega arith, omega arith, omega arith), tt)

second_wait :
    (tio_wait two_rounds 1500 (record { tv_sec = 0; tv_nsec = 0 })).polled ≡ 1500 ∷ 500 ∷ []
unfolding tio_wait Wait.tio_time_remaining Wait.poll_for Wait.after_poll Wait.milliseconds_between
    ◌+ℤ◌ quotient
second_wait = refl
