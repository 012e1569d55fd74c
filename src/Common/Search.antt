-- ===== src/Common/Search.antt =====
-- nslcd/common.c: sid2search(), a security identifier as the text of a search filter.
use nss_pam_ldapd.Prelude.{
  ℕ, zero, suc, ◌+◌, ◌-◌, ◌*◌, ◌/◌, ◌%◌, ◌^◌, [], ◌∷◌, ◌++◌, ltb, ◌==◌, if◌then◌else◌, length, drop,
}
use nss_pam_ldapd.Bytes.{Bytes, bytes}
use nss_pam_ldapd.Bytes.Number.{strtoul}
use nss_pam_ldapd.Outcome.{Outcome, ok, fail, out_of_fuel, ◌>>=◌, advance}
use nss_pam_ldapd.Common.{has_prefix_ignoring_case}

unfoldable pub count_dashes : Bytes → ℕ
count_dashes [] = 0
count_dashes (c ∷ s) = if c == b'-' then suc (count_dashes s) else count_dashes s

unfoldable pub hex_digit : ℕ → ℕ
hex_digit n = if ltb n 10 then 48 + n else 87 + n

unfoldable pub hex : ℕ → ℕ → Bytes
unfolding hex_digit
hex zero n = []
hex (suc count) n =
    let front = hex count (n / 16) in
    if ltb n 16 then hex_digit n ∷ [] else front ++ hex_digit (n % 16) ∷ []

-- \%02x of an unsigned int
unfoldable pub escaped : ℕ → Bytes
unfolding hex
escaped n = b'\\' ∷ (if ltb n 16 then b'0' ∷ hex_digit n ∷ [] else hex 8 n)

-- the four bytes of the low half of an unsigned long, the lowest first and the highest first
unfoldable pub little_endian : ℕ → Bytes
unfolding escaped
little_endian l =
    escaped (l % 256)
    ++ (escaped (l / 2 ^ 8 % 256) ++ (escaped (l / 2 ^ 16 % 256) ++ escaped (l / 2 ^ 24 % 256)))

unfoldable pub big_endian : ℕ → Bytes
unfolding escaped
big_endian l =
    escaped (l / 2 ^ 24 % 256)
    ++ (escaped (l / 2 ^ 16 % 256) ++ (escaped (l / 2 ^ 8 % 256) ++ escaped (l % 256)))

-- The loop over the rest of the identifier: each round moves the cursor, also where strtoul() finds
-- no number, so that one unit of fuel more than there are bytes is enough.
unfoldable pub sid_parts : ℕ → Bytes → Outcome Bytes
unfolding little_endian strtoul
sid_parts zero tmp = out_of_fuel
sid_parts (suc fuel) [] = ok []
sid_parts (suc fuel) (c ∷ tmp) = do
  let l = strtoul tmp
  rest ← sid_parts fuel l.rest
  ok (little_endian l.value ++ rest)

-- the bytes of memory that are asked for
unfoldable pub sid_room : Bytes → ℕ
unfolding count_dashes
sid_room sid = 3 + 3 + 6 * 3 + (count_dashes sid - 1) * 4 * 3 + 1

-- What is written into the memory, and behind its end if it is too long: nothing tests that.  The
-- number of parts, one of them for the id that is added later, is what the dashes say.
unfoldable pub sid2search : Bytes → Outcome Bytes
unfolding sid_parts count_dashes big_endian has_prefix_ignoring_case
sid2search sid =
    let revision = strtoul (drop 2 sid) in
    let i = count_dashes sid - 1 in
    if has_prefix_ignoring_case (bytes "S-") sid
    then (do
      tmp ← advance revision.rest
      let authority = strtoul tmp
      rest ← sid_parts (length authority.rest + 1) authority.rest
      ok (
          (escaped (revision.value % 256) ++ escaped i)
          ++ ((escaped 0 ++ escaped 0) ++ big_endian authority.value)
          ++ rest))
    else fail
