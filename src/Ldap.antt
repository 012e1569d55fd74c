-- ===== src/Ldap.antt =====
-- nslcd/myldap.c: what its functions do with strings.  The entries of a search, and the parts of a
-- DN by ldap_explode_dn() and ldap_explode_rdn(), come from the LDAP library and are parameters.
pub mod Escape
use nss_pam_ldapd.Prelude.{
  ℕ, zero, suc, ◌+◌, Bool, true, false, List, [], ◌∷◌, ◌++◌, Option, none, some, ltb, leb, ◌==◌,
  if◌then◌else◌, length, drop,
}
use nss_pam_ldapd.Bytes.{Bytes, bytes, head_byte, tail_bytes}
use nss_pam_ldapd.Bytes.Number.{skip_space}
use nss_pam_ldapd.Attmap.{Entry, equal_ignoring_case}
use nss_pam_ldapd.Common.{has_prefix_ignoring_case}

-- the cases of the switch in myldap_escape()
unfoldable pub escape_byte : ℕ → Bytes
escape_byte c =
    if c == b'*'
    then bytes "\\2a"
    else if c == b'('
    then bytes "\\28"
    else if c == b')'
    then bytes "\\29"
    else if c == b'\\'
    then bytes "\\5c"
    else c ∷ []

abbrev pub prepend : Bytes → Option Bytes → Option Bytes
prepend s none = none
prepend s (some t) = some (s ++ t)

-- the loop from a position of the buffer on
unfoldable pub escape_from : ℕ → Bytes → ℕ → Option Bytes
unfolding escape_byte
escape_from pos [] buflen = some []
escape_from pos (c ∷ src) buflen =
    if leb buflen (pos + 4)
    then none
    else prepend (escape_byte c) (escape_from (pos + length (escape_byte c)) src buflen)

unfoldable pub myldap_escape : Bytes → ℕ → Option Bytes
unfolding escape_from
myldap_escape src buflen = escape_from 0 src buflen

-- ldap_explode_dn() and ldap_explode_rdn(), where NULL is `none`
pub record Library : Type 0 where
  pub explode_dn : Bytes → Option (List Bytes)
  pub explode_rdn : Bytes → Option (List Bytes)

abbrev non_empty : Option (List Bytes) → Option (List Bytes)
non_empty none = none
non_empty (some []) = none
non_empty (some (x ∷ xs)) = some (x ∷ xs)

abbrev first_part : Library → Option (List Bytes) → Option (List Bytes)
first_part library none = none
first_part library (some []) = none
first_part library (some (rdn ∷ rest)) = non_empty (library.explode_rdn rdn)

unfoldable pub get_exploded_rdn : Library → Bytes → Option (List Bytes)
get_exploded_rdn library dn =
    if equal_ignoring_case dn (bytes "unknown")
    then none
    else first_part library (library.explode_dn dn)

abbrev value_or : Bytes → Option Bytes → Option Bytes
value_or [] other = other
value_or (c ∷ s) other = some (c ∷ s)

unfoldable pub find_rdn_value : List Bytes → Bytes → Option Bytes
find_rdn_value [] attr = none
find_rdn_value (rdn ∷ rest) attr =
    let other = find_rdn_value rest attr in
    let after = skip_space (drop (length attr) rdn) in
    if has_prefix_ignoring_case attr rdn
    then if head_byte after == b'=' then value_or (skip_space (tail_bytes after)) other else other
    else other

abbrev if_fits : ℕ → Option Bytes → Option Bytes
if_fits buflen none = none
if_fits buflen (some value) = if ltb (length value) buflen then some value else none

abbrev find_in : Option (List Bytes) → Bytes → Option Bytes
find_in none attr = none
find_in (some exploded_rdn) attr = find_rdn_value exploded_rdn attr

unfoldable pub myldap_cpy_rdn_value : Library → Bytes → Bytes → ℕ → Option Bytes
unfolding get_exploded_rdn find_rdn_value
myldap_cpy_rdn_value library dn attr buflen =
    if_fits buflen (find_in (get_exploded_rdn library dn) attr)

unfoldable pub any_equal : List Bytes → Bytes → Bool
any_equal [] objectclass = false
any_equal (v ∷ values) objectclass =
    if equal_ignoring_case v objectclass then true else any_equal values objectclass

abbrev any_value : Option (List Bytes) → Bytes → Bool
any_value none objectclass = false
any_value (some values) objectclass = any_equal values objectclass

unfoldable pub myldap_has_objectclass : Entry → Bytes → Bool
unfolding any_equal
myldap_has_objectclass entry objectclass =
    any_value (entry.values (bytes "objectClass")) objectclass

-- A search, whose entries myldap_get_entry() gives one by one; `failed` is NULL from
-- myldap_search().  `complete` is LDAP_SUCCESS as the result code at the end.
pub data Search : Type 0 where
  failed : Search
  found : List Entry → Bool → Search

-- the entries that a loop over myldap_get_entry() sees, none of them where the search failed
abbrev pub entries_of : Search → List Entry
entries_of failed = []
entries_of (found entries complete) = entries
