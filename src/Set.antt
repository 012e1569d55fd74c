-- ===== src/Set.antt =====
-- common/set.c: sets of strings.  A SET is a DICT whose values are all the pointer to the dictionary
-- itself, here the value of a type with one element.
pub mod Laws
pub mod Interface
pub mod Stored
use nss_pam_ldapd.Prelude.{Bool, true, false, List, Option, none, some, if◌then◌else◌}
use nss_pam_ldapd.Bytes.{Bytes}
use nss_pam_ldapd.Dict.{Dict, Memory, Status, dict_new, dict_put, dict_get, dict_getany, dict_keys}

abbrev pub Set : Type 0
Set = Dict (Unit {0})

unfoldable pub set_new : Set
set_new = dict_new

unfoldable pub set_add : Memory → Set → Bytes → Status × Set
set_add mem set value = dict_put mem set value (some tt)

-- The key is copied by strdup(), which may find no memory, and its entry is freed all the same.
unfoldable pub pop_key : Bool → Memory → Set → Option Bytes → Option Bytes × Set
pop_key copied mem set none = (none, set)
pop_key copied mem set (some key) =
    (if copied then some key else none, (dict_put mem set key none).1)

-- `copied` is whether strdup() finds memory
unfoldable pub set_pop : Bool → Memory → Set → Option Bytes × Set
set_pop copied mem set = pop_key copied mem set (dict_getany set)

unfoldable pub is_set : Option (Unit {0}) → Bool
is_set none = false
is_set (some v) = true

unfoldable pub set_contains : Set → Bytes → Bool
set_contains set value = is_set (dict_get set value)

unfoldable pub set_tolist : Set → List Bytes
set_tolist set = dict_keys set
