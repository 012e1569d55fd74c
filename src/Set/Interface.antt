-- ===== src/Set/Interface.antt =====
-- common/set.h: what a user of the sets of strings relies on, where memory is given.
use nss_pam_ldapd.Prelude.{
  ◌≡◌, Bool, true, false, not, ◌&&◌, ◌||◌, List, Option, none, some, if◌then◌else◌,
}
use nss_pam_ldapd.Bytes.{Bytes, ◌=ₛ◌}
use nss_pam_ldapd.Dict.Keys.{occurrences}

-- The operations of common/set.h and their laws.
pub record StringSet : Type 1 where
  pub Carrier : Type 0
  pub set_new : Carrier
  pub set_add : Carrier → Bytes → Carrier
  pub set_contains : Carrier → Bytes → Bool
  pub set_pop : Carrier → Option Bytes × Carrier
  pub set_tolist : Carrier → List Bytes
  pub contains_new : (j : Bytes) → set_contains set_new j ≡ false
  pub contains_add :
      (s : Carrier) (v j : Bytes) → set_contains (set_add s v) j ≡ (v =ₛ j || set_contains s j)
  pub pop_none : (s : Carrier) (j : Bytes) → (set_pop s).0 ≡ none → set_contains s j ≡ false
  pub pop_member : (s : Carrier) (k : Bytes) → (set_pop s).0 ≡ some k → set_contains s k ≡ true
  pub pop_others :
      (s : Carrier) (k j : Bytes)
      → (set_pop s).0 ≡ some k
      → set_contains (set_pop s).1 j ≡ (not (k =ₛ j) && set_contains s j)
  pub occurrences_tolist :
      (s : Carrier) (j : Bytes) → occurrences j (set_tolist s) ≡ (if set_contains s j then 1 else 0)
