-- ===== src/Set/Stored.antt =====
-- common/set.c: the sets as an instance of their interface, where memory is given.
use nss_pam_ldapd.Prelude.{
  inr, ◌∙◌, inl, Option-cases, ◌≡◌, refl, subst, true, false, Option, none, some, if◌then◌else◌,
}
use nss_pam_ldapd.Bytes.{Bytes}
use nss_pam_ldapd.Dict.{Memory, dict_get}
use nss_pam_ldapd.Dict.Keys.{occurrences, presence, dict_keys_lem}
use nss_pam_ldapd.Dict.Valid.{IsValid, dict_new_lem}
use nss_pam_ldapd.Set.{Set, set_new, set_add, set_contains, set_pop, set_tolist, is_set}
use nss_pam_ldapd.Set.Interface.{StringSet}
use nss_pam_ldapd.Set.Laws.{Popped, Removed, set_add_lem, set_pop_lem}

pub new-IsValid : IsValid set_new
unfolding set_new
new-IsValid = dict_new_lem.0

pub contains-set_new : (j : Bytes) → set_contains set_new j ≡ false
unfolding set_new set_contains is_set
contains-set_new j = rw (dict_new_lem.1 j) refl

pub occurrences-set_tolist :
    (set : Set) (j : Bytes)
    → IsValid set
    → occurrences j (set_tolist set) ≡ (if set_contains set j then 1 else 0)
unfolding set_tolist set_contains is_set presence
occurrences-set_tolist set j w = elim (Option-cases (dict_get set j)) [
  | inl absent ↦ (dict_keys_lem set w).0 j ∙ rw absent refl
  | inr (v, present) ↦ (dict_keys_lem set w).0 j ∙ rw present refl
]

-- A set that is a valid dictionary.
abbrev pub Stored : Type 0
Stored = (set : Set) × IsValid set

pub Popped-none :
    (o : Option Bytes) (before after : Set) (j : Bytes)
    → Popped true o before after
    → o ≡ none
    → set_contains before j ≡ false
Popped-none none before after j (inl h) e = h.0 j
Popped-none none before after j (inr h) e = let f = h.0 in cc
Popped-none (some k) before after j h e = cc

pub Popped-some :
    (o : Option Bytes) (before after : Set) (k : Bytes)
    → Popped true o before after
    → o ≡ some k
    → Removed k before after
Popped-some o before after k h e = (subst (λ p. Popped true p before after) e h).1

-- The sets, where memory is given.
abbrev pub stored_sets : (mem : Memory) → mem.for_entry ≡ true → StringSet
stored_sets mem m = record {
  Carrier = Stored;
  set_new = (set_new, new-IsValid);
  set_add = λ (s, w) v. ((set_add mem s v).1, (set_add_lem mem s v w m).0);
  set_contains = λ (s, w) j. set_contains s j;
  set_pop =
      λ (s, w). ((set_pop true mem s).0, ((set_pop true mem s).1, (set_pop_lem true mem s w).0));
  set_tolist = λ (s, w). set_tolist s;
  contains_new = contains-set_new;
  contains_add = λ (s, w) v j. (set_add_lem mem s v w m).2 j;
  pop_none = λ (s, w) j e. Popped-none _ s _ j (set_pop_lem true mem s w).1 e;
  pop_member = λ (s, w) k e. (Popped-some _ s _ k (set_pop_lem true mem s w).1 e).0;
  pop_others = λ (s, w) k j e. (Popped-some _ s _ k (set_pop_lem true mem s w).1 e).1 j;
  occurrences_tolist = λ (s, w) j. occurrences-set_tolist s j w;
}
