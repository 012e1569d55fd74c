-- ===== src/Ids.antt =====
-- nslcd/passwd.c and nslcd/group.c: the numbers of users and groups, as decimal text or at the end of
-- a binary security identifier.
pub mod Bounds
use nss_pam_ldapd.Prelude.{
  ℕ, zero, suc, ◌+◌, ◌-◌, ◌/◌, ◌%◌, ◌^◌, Bool, true, false, not, ◌||◌, List, [], ◌∷◌, ◌++◌, Option,
  none, some, ltb, ◌==◌, if◌then◌else◌, take,
}
use nss_pam_ldapd.Bytes.{Bytes, is_empty}
use nss_pam_ldapd.Outcome.{Outcome, ok, ◌>>=◌}
use nss_pam_ldapd.Common.{strtoui, binsid2id}

abbrev pub id_mod : ℕ
id_mod = 2 ^ 32

-- strchr(s, '-') != NULL
unfoldable pub has_dash : Bytes → Bool
has_dash [] = false
has_dash (c ∷ s) = c == b'-' || has_dash s

-- strtouid() or strtogid() of a text, where "non-numeric" and "out of range" are `none`
unfoldable pub parse_id : Bytes → Option ℕ
unfolding has_dash
parse_id value =
    let c = strtoui value in
    if is_empty value || not (is_empty c.rest)
    then none
    else if c.out_of_range || has_dash value
    then none
    else some c.value

-- the number in a value of the attribute, which is a security identifier if `sid`
unfoldable pub id_of : Bool → Bytes → Outcome (Option ℕ)
unfolding parse_id
id_of true value = do id ← binsid2id value; ok (some (id % id_mod))
id_of false value = ok (parse_id value)

abbrev pub prepend_id : ℕ → Option (List ℕ) → Option (List ℕ)
prepend_id id none = none
prepend_id id (some ids) = some (id ∷ ids)

-- The number of a value, if it is one, and those of the values behind it.
abbrev pub then_ids : ℕ → Option ℕ → Outcome (Option (List ℕ)) → Outcome (Option (List ℕ))
then_ids offset none later = ok none
then_ids offset (some n) later = do ids ← later; ok (prepend_id ((n + offset) % id_mod) ids)

-- The numbers in all of the values, with the offset; `none` where one is not a number.
unfoldable pub ids_of : Bool → ℕ → List Bytes → Outcome (Option (List ℕ))
unfolding id_of
ids_of sid offset [] = ok (some [])
ids_of sid offset (v ∷ values) = do id ← id_of sid v; then_ids offset id (ids_of sid offset values)

-- The numbers of an entry, of its first values; `none` where it has none.
unfoldable pub some_ids_of : Bool → ℕ → ℕ → List Bytes → Outcome (Option (List ℕ))
unfolding ids_of
some_ids_of sid offset max [] = ok none
some_ids_of sid offset max (v ∷ values) = ids_of sid offset (take max (v ∷ values))
