-- ===== src/Common.antt =====
-- nslcd/common.c: passwords, security identifiers, checked conversions and the host's full name.
pub mod Sid
pub mod Search
pub mod Parts
use nss_pam_ldapd.Prelude.{
  ℕ, zero, suc, ◌+◌, ◌-◌, ◌*◌, ◌%◌, ◌^◌, Bool, true, false, not, ◌&&◌, ◌||◌, List, [], ◌∷◌, Option,
  none, some, ltb, ◌==◌, if◌then◌else◌, length, drop,
}
use nss_pam_ldapd.Bytes.{Bytes, bytes, head_byte, tail_bytes}
use nss_pam_ldapd.Bytes.Number.{Conversion, strtoul}
use nss_pam_ldapd.Outcome.{Outcome, ok, overrun, ◌>>=◌}
use nss_pam_ldapd.Attmap.{Entry, to_lower, attmap_get_value}

-- strncasecmp(s, prefix, strlen(prefix)) == 0
unfoldable pub has_prefix_ignoring_case : Bytes → Bytes → Bool
unfolding to_lower
has_prefix_ignoring_case [] s = true
has_prefix_ignoring_case (p ∷ prefix) [] = false
has_prefix_ignoring_case (p ∷ prefix) (c ∷ s) =
    to_lower p == to_lower c && has_prefix_ignoring_case prefix s

-- the value without the prefix that says how it is hashed
unfoldable pub strip_scheme : Bytes → Bytes
unfolding has_prefix_ignoring_case
strip_scheme value =
    if has_prefix_ignoring_case (bytes "{crypt}") value
    then drop 7 value
    else if has_prefix_ignoring_case (bytes "crypt$") value
    then drop 6 value
    else value

unfoldable pub get_userpassword : Entry → Bytes → ℕ → Outcome Bytes
get_userpassword entry attr buflen = do
  tmpvalue ← attmap_get_value entry attr buflen
  ok (strip_scheme tmpvalue)

abbrev pub uint_max : ℕ
uint_max = 2 ^ 32 - 1

unfoldable pub strtoui : Bytes → Conversion ℕ
strtoui nptr =
    let val = strtoul nptr in
    if ltb uint_max val.value then record val { value = uint_max; out_of_range = true } else val

-- binsid[i], inside the memory of the value
unfoldable pub byte_at : Bytes → ℕ → Outcome ℕ
byte_at [] i = overrun
byte_at (c ∷ s) zero = ok (c % 256)
byte_at (c ∷ s) (suc i) = byte_at s i

-- The four bytes from a position on, the lowest first.
unfoldable pub le32_at : Bytes → ℕ → Outcome ℕ
unfolding byte_at
le32_at s i = do
  b0 ← byte_at s i
  b1 ← byte_at s (i + 1)
  b2 ← byte_at s (i + 2)
  b3 ← byte_at s (i + 3)
  ok (b0 + b1 * 256 + b2 * 65536 + b3 * 16777216)

-- the position of the last security id, in unsigned 32-bit arithmetic
unfoldable pub last_id_position : ℕ → ℕ
last_id_position count = (2 + 6 + (count + 2 ^ 32 - 1) % 2 ^ 32 * 4) % 2 ^ 32

unfoldable pub binsid2id : Bytes → Outcome ℕ
unfolding le32_at last_id_position
binsid2id binsid = do count ← byte_at binsid 1; le32_at binsid (last_id_position count)

-- struct hostent, as gethostbyname() returns it
pub record HostEntry : Type 0 where
  pub h_name : Bytes
  pub h_aliases : List Bytes

-- the name is the host's name, a dot and more
unfoldable pub extends : Bytes → Bytes → Bool
extends hostname name =
    let rest = drop (length hostname) name in
    has_prefix_ignoring_case hostname name
    && (head_byte rest == b'.' && not (head_byte (tail_bytes rest) == 0))

-- strchr(name, '.') != NULL
unfoldable pub has_dot : Bytes → Bool
has_dot [] = false
has_dot (c ∷ s) = c == b'.' || has_dot s

unfoldable pub first_where : (Bytes → Bool) → List Bytes → Option Bytes
first_where test [] = none
first_where test (name ∷ names) = if test name then some name else first_where test names

unfoldable pub choose_name : Bytes → HostEntry → Bytes
choose_name hostname host = elim (first_where (extends hostname) (host.h_name ∷ host.h_aliases)) [
  | some name ↦ name
  | none ↦ elim (first_where has_dot (host.h_name ∷ host.h_aliases)) [
    | some name ↦ name
    | none ↦ hostname
  ]
]

-- `fqdn` is the static variable; gethostname() and gethostbyname() may fail.  NULL is `none`.
unfoldable pub getfqdn : Option Bytes → Option Bytes → (Bytes → Option HostEntry) → Option Bytes
getfqdn fqdn gethostname gethostbyname = elim fqdn [
  | some name ↦ some name
  | none ↦ elim gethostname [
    | none ↦ none
    | some hostname ↦ elim (gethostbyname hostname) [
      | none ↦ some hostname
      | some host ↦ some (choose_name hostname host)
    ]
  ]
]
