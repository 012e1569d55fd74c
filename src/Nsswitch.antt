-- ===== src/Nsswitch.antt =====
-- nslcd/nsswitch.c: whether /etc/nsswitch.conf makes shadow lookups use LDAP, and the cached answer.
pub mod Services
pub mod Lines
pub mod Freshness
use nss_pam_ldapd.Prelude.{
  ℕ, zero, suc, ◌+◌, Bool, true, false, not, ◌&&◌, ◌||◌, List, [], ◌∷◌, Option, none, some, ltb,
  leb, ◌==◌, if◌then◌else◌, length, drop, take, ◌++◌,
}
use nss_pam_ldapd.Bytes.{Bytes, bytes, head_byte, tail_bytes}
use nss_pam_ldapd.Bytes.Number.{is_digit, is_space, skip_space}
use nss_pam_ldapd.Outcome.{Outcome, ok, overrun, out_of_fuel, advance, ◌>>=◌}

unfoldable pub is_alnum : ℕ → Bool
unfolding is_digit
is_alnum c = is_digit c || (leb b'a' c && leb c b'z' || leb b'A' c && leb c b'Z')

-- strncmp(s, prefix, strlen(prefix)) == 0
unfoldable pub has_prefix : Bytes → Bytes → Bool
has_prefix [] s = true
has_prefix (p ∷ prefix) [] = false
has_prefix (p ∷ prefix) (c ∷ s) = p == c && has_prefix prefix s

-- the services of a line for the database, behind the colon and the white space after it
unfoldable pub find_db : Bytes → Bytes → Option Bytes
unfolding has_prefix skip_space
find_db line db =
    let rest = skip_space (drop (length db) line) in
    if has_prefix db line
    then if head_byte rest == b':' then some (skip_space (tail_bytes rest)) else none
    else none

unfoldable pub skip_alnum : Bytes → Bytes
skip_alnum [] = []
skip_alnum (c ∷ s) = if is_alnum c then skip_alnum s else c ∷ s

-- to the closing bracket, or the end of the text
unfoldable pub skip_to_bracket : Bytes → Bytes
skip_to_bracket [] = []
skip_to_bracket (c ∷ s) = if c == b']' then c ∷ s else skip_to_bracket s

-- the part of the loop behind the service name; the text that ends in an action is a parse error
unfoldable pub skip_action : (Bytes → Outcome Bool) → Bytes → Outcome Bool
skip_action loop s =
    let rest = skip_to_bracket (tail_bytes s) in
    if head_byte s == b'[' then elim rest [ [] ↦ ok false | c ∷ t ↦ loop t ] else loop s

-- strncmp(services + i, service, l) == 0 and no letter or digit follows
unfoldable pub is_service : Bytes → Bytes → Bool
is_service service s = has_prefix service s && not (is_alnum (head_byte (drop (length service) s)))

-- one round of the loop in has_service()
unfoldable pub service_step : (Bytes → Outcome Bool) → Bytes → Bytes → Outcome Bool
service_step loop service [] = ok false
service_step loop service (c ∷ s) =
    let here = skip_space (c ∷ s) in
    if is_service service here
    then ok true
    else do rest ← advance here; skip_action loop (skip_space (skip_alnum rest))

-- The loop in has_service(): each round moves the cursor, so that one unit of fuel more than there
-- are bytes is enough.
unfoldable pub service_loop : ℕ → Bytes → Bytes → Outcome Bool
service_loop zero service s = out_of_fuel
service_loop (suc fuel) service s = service_step (service_loop fuel service) service s

unfoldable pub has_service : Option Bytes → Bytes → Outcome Bool
has_service none service = ok false
has_service (some services) service = service_loop (length services + 1) service services

-- MODULE_NAME
abbrev pub module_name : Bytes
module_name = bytes "ldap"

-- the passwd line, read after the shadow line was not a match
unfoldable pub passwd_line : Bool → Option Bytes → Outcome Bool
passwd_line passwd_has_ldap none = ok passwd_has_ldap
passwd_line passwd_has_ldap (some services) = has_service (some services) module_name

abbrev pub is_found : Option Bytes → Bool
is_found none = false
is_found (some s) = true

-- The loop over the lines of the file.
unfoldable pub read_lines : Bool → Bool → List Bytes → Outcome Bool
read_lines shadow_found passwd_has_ldap [] = ok (if shadow_found then false else passwd_has_ldap)
read_lines shadow_found passwd_has_ldap (line ∷ lines) = do
  let shadow = find_db line (bytes "shadow")
  shadow_has_ldap ← has_service shadow module_name
  elim shadow_has_ldap [
    | true ↦ ok true
    | false ↦ do
      passwd ← passwd_line passwd_has_ldap (find_db line (bytes "passwd"))
      read_lines (shadow_found || is_found shadow) passwd lines
  ]

-- A line as fgets() gives it to a buffer of MAX_LINE_LENGTH bytes: in pieces of 4095 bytes, but for
-- the last.  No line has more pieces than bytes, so the fuel is enough.
unfoldable pub pieces : ℕ → Bytes → List Bytes
pieces zero line = []
pieces (suc fuel) line =
    let rest = pieces fuel (drop 4095 line) in
    if leb (length line) 4095 then line ∷ [] else take 4095 line ∷ rest

unfoldable pub fgets : List Bytes → List Bytes
unfolding pieces
fgets [] = []
fgets (line ∷ lines) = pieces (suc (length line)) line ++ fgets lines

-- The lines of a file, with their newlines; `none` is a file that cannot be opened.
unfoldable pub shadow_uses_ldap : Option (List Bytes) → Outcome Bool
shadow_uses_ldap none = ok false
shadow_uses_ldap (some lines) = read_lines false false (fgets lines)

-- The static variables; CACHED_UNKNOWN is `none`.
pub record Cache : Type 0 where
  pub uses_ldap : Option Bool
  pub lastcheck : ℕ
  pub mtime : ℕ

abbrev pub cached_shadow_timeout : ℕ
cached_shadow_timeout = 60

-- stat() gives the time of the last change, or fails
unfoldable pub restat : ℕ → Option ℕ → Cache → Cache
restat t none c = record c { lastcheck = t; uses_ldap = none }
restat t (some st_mtime) c =
    if st_mtime == c.mtime
    then record c { lastcheck = t }
    else record { uses_ldap = none; lastcheck = t; mtime = st_mtime }

unfoldable pub nsswitch_check_reload : ℕ → Option ℕ → Cache → Cache
nsswitch_check_reload t stat c = elim c.uses_ldap [
  | none ↦ c
  | some known ↦ if ltb (c.lastcheck + cached_shadow_timeout) t then restat t stat c else c
]

unfoldable pub nsswitch_shadow_uses_ldap : ℕ → Option (List Bytes) → Cache → Outcome (Bool × Cache)
nsswitch_shadow_uses_ldap t file c = elim c.uses_ldap [
  | some known ↦ ok (known, c)
  | none ↦ do
    answer ← shadow_uses_ldap file
    ok (answer, record c { uses_ldap = some answer; lastcheck = t })
]
