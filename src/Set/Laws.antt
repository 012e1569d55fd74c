-- ===== src/Set/Laws.antt =====
-- common/set.c: what the operations do to the members of a set.
use nss_pam_ldapd.Prelude.{
  Bool, ◌⊎◌, inl, inr, ◌≡◌, refl, true, false, not, ◌&&◌, ◌||◌, Option, none, some, arith,
}
use nss_pam_ldapd.Bytes.{Bytes, ◌=ₛ◌}
use nss_pam_ldapd.Dict.{Memory, success, dict_getany}
use nss_pam_ldapd.Dict.Valid.{IsValid}
use nss_pam_ldapd.Dict.Laws.{put_status, put_answer, dict_put_lem}
use nss_pam_ldapd.Dict.Keys.{dict_getany-none, dict_getany-some}
use nss_pam_ldapd.Set.{Set, set_add, pop_key, set_pop, is_set, set_contains}

-- Adding a string to a valid set: where memory is given for the entry, the string is a member
-- afterwards, every other string is one exactly if it was one before, and the set stays valid.
pub set_add_lem :
    (mem : Memory) (set : Set) (value : Bytes)
    → IsValid set
    → mem.for_entry ≡ true
    → IsValid (set_add mem set value).1
      × ((set_add mem set value).0 ≡ success)
      × ((j : Bytes)
          → set_contains (set_add mem set value).1 j ≡ (value =ₛ j || set_contains set j))
unfolding set_add set_contains is_set put_answer put_status
set_add_lem mem set value w m =
    let (valid, status, answer) = dict_put_lem mem set value (some tt) w in
    (valid, ground arith, λ j. ground (arith, answer j))

-- A member was removed, and every other string stays what it was.
abbrev pub Removed : Bytes → Set → Set → Type 0
Removed k before after =
    (set_contains before k ≡ true)
    × ((j : Bytes) → set_contains after j ≡ (not (k =ₛ j) && set_contains before j))

-- What set_pop() does: a string that it returns is removed, and where it returns NULL, the set was
-- empty, or a member is removed for whose copy there is no memory.
abbrev pub Popped : Bool → Option Bytes → Set → Set → Type 0
Popped copied none before after =
    ((j : Bytes) → set_contains before j ≡ false) × (before ≡ after)
    ⊎ (copied ≡ false) × ((k : Bytes) × Removed k before after)
Popped copied (some k) before after = (copied ≡ true) × Removed k before after

-- set_pop() on a valid set leaves a valid set.  A string that it returns was a member and is removed,
-- and every other string stays what it was.  Where it returns NULL, the set was empty and is not
-- changed, or strdup() found no memory and a member is removed all the same.
pub set_pop_lem :
    (copied : Bool) (mem : Memory) (set : Set)
    → IsValid set
    → IsValid (set_pop copied mem set).1
      × Popped copied (set_pop copied mem set).0 set (set_pop copied mem set).1
unfolding set_pop pop_key set_contains is_set put_status put_answer
set_pop_lem copied mem set w = at copied (dict_getany set) refl
  where
    at :
        (copied' : Bool) (o : Option Bytes)
        → dict_getany set ≡ o
        → IsValid (pop_key copied' mem set o).1
          × Popped copied' (pop_key copied' mem set o).0 set (pop_key copied' mem set o).1
    at copied' none h = (w, inl ((λ j. rw (dict_getany-none set j w h)), refl))
    at true (some k) h =
        let (valid, status, answer) = dict_put_lem mem set k none w in
        (valid, (refl, (ground (arith, dict_getany-some set k w h), λ j. ground (arith, answer j))))
    at false (some k) h =
        let (valid, status, answer) = dict_put_lem mem set k none w in
        (
          valid,
          inr (
            refl,
            (k, (ground (arith, dict_getany-some set k w h), λ j. ground (arith, answer j))),
          ),
        )
