-- ===== src/Dict/Keys.antt =====
-- common/dict.c: the keys that dict_keys() lists, and the one that dict_getany() gives.
use nss_pam_ldapd.Prelude.{
  ℕ, ◌+◌, ◌%◌, ◌≡◌, ◌≢◌, refl, List, [], ◌∷◌, ◌++◌, Option, none, some, arith, length,
  length-append, ◌∙◌,
}
use nss_pam_ldapd.Bytes.{Bytes, ◌=ₛ◌, =ₛ_iff}
use nss_pam_ldapd.Dict.Chain.{stringhash, count, to_nat, find-eq-none→count, find-eq-none}
use nss_pam_ldapd.Dict.Table.{Chain, total, Placed-chain, total-count}
use nss_pam_ldapd.Dict.Valid.{IsValid}
use nss_pam_ldapd.Dict.Laws.{dict_get-find}
use nss_pam_ldapd.Dict.{
  Dict, chain_at, chain_keys, table_keys, dict_keys, first_key, dict_getany, dict_get,
}

-- How often a string stands in a list.
pub occurrences : Bytes → List Bytes → ℕ
occurrences k [] = 0
occurrences k (j ∷ l) = to_nat (j =ₛ k) + occurrences k l

occurrences-append :
    (k : Bytes) (l m : List Bytes) → occurrences k (l ++ m) ≡ occurrences k l + occurrences k m
unfolding occurrences
occurrences-append k [] m = omega arith
occurrences-append k (j ∷ l) m = omega (arith, occurrences-append k l m)

abbrev first : List Bytes → Option Bytes
first [] = none
first (k ∷ l) = some k

occurrences-none : (k : Bytes) (l : List Bytes) → first l ≡ none → occurrences k l ≡ 0
unfolding occurrences
occurrences-none k [] h = refl
occurrences-none k (j ∷ l) h = cc

occurrences-some : (k : Bytes) (l : List Bytes) → first l ≡ some k → occurrences k l ≢ 0
unfolding occurrences
occurrences-some k [] h = cc
occurrences-some k (j ∷ l) h = ground (arith, =ₛ_iff j k)

-- 1 for a key that has a value, 0 for any other
unfoldable pub presence : {V : Type 0} → Option V → ℕ
presence none = 0
presence (some v) = 1

module _ {V : Type 0} where
  occurrences-chain_keys : (k : Bytes) (c : Chain V) → occurrences k (chain_keys c) ≡ count k c
  unfolding occurrences chain_keys count
  occurrences-chain_keys k [] = refl
  occurrences-chain_keys k (e ∷ c) = omega (arith, occurrences-chain_keys k c)

  occurrences-table_keys :
      (k : Bytes) (t : List (Chain V)) → occurrences k (table_keys t) ≡ total (count k) t
  unfolding occurrences table_keys total
  occurrences-table_keys k [] = refl
  occurrences-table_keys k (c ∷ t) = omega (
    arith,
    occurrences-append k (chain_keys c) (table_keys t),
    occurrences-chain_keys k c,
    occurrences-table_keys k t,
  )

  length-chain_keys : (c : Chain V) → length (chain_keys c) ≡ length c
  unfolding chain_keys
  length-chain_keys [] = refl
  length-chain_keys (e ∷ c) = omega (arith, length-chain_keys c)

  length-table_keys : (t : List (Chain V)) → length (table_keys t) ≡ total length t
  unfolding table_keys total
  length-table_keys [] = refl
  length-table_keys (c ∷ t) =
      omega (
        arith,
        length-append (chain_keys c) (table_keys t),
        length-chain_keys c,
        length-table_keys t,
      )

  total-count-eq-presence :
      (d : Dict V) (k : Bytes) → IsValid d → total (count k) d.table ≡ presence (dict_get d k)
  unfolding presence
  total-count-eq-presence d k w =
      let all = Placed-chain d.size d.table (stringhash k % d.size) w.placed in
      let c = chain_at d.table (stringhash k % d.size) in
      ground (
        arith,
        find-eq-none d.size (stringhash k % d.size) k c all,
        find-eq-none→count d.size (stringhash k % d.size) k c all,
        total-count d.size k d.table w.placed,
        w.unique k,
        dict_get-find d w k k,
      )

  -- In a valid dictionary dict_keys() lists every key that has a value once, no other string, and as
  -- many strings as the dictionary counts entries.
  pub dict_keys_lem :
      (d : Dict V)
      → IsValid d
      → ((k : Bytes) → occurrences k (dict_keys d) ≡ presence (dict_get d k))
        × (length (dict_keys d) ≡ d.num)
  unfolding dict_keys
  dict_keys_lem d w = (
    λ k. occurrences-table_keys k d.table ∙ total-count-eq-presence d k w,
    length-table_keys d.table ∙ w.counted,
  )

  first_key-table_keys : (t : List (Chain V)) → first_key t ≡ first (table_keys t)
  unfolding first_key table_keys
  first_key-table_keys [] = refl
  first_key-table_keys ([] ∷ t) = first_key-table_keys t
  first_key-table_keys ((e ∷ c) ∷ t) = refl

  pub dict_getany-none :
      (d : Dict V) (k : Bytes) → IsValid d → dict_getany d ≡ none → dict_get d k ≡ none
  unfolding dict_getany dict_keys presence
  dict_getany-none d k w h = ground (
    arith,
    first_key-table_keys d.table,
    occurrences-none k (table_keys d.table),
    (dict_keys_lem d w).0 k,
  )

  pub dict_getany-some :
      (d : Dict V) (k : Bytes) → IsValid d → dict_getany d ≡ some k → dict_get d k ≢ none
  unfolding dict_getany dict_keys presence
  dict_getany-some d k w h = ground (
    arith,
    first_key-table_keys d.table,
    occurrences-some k (table_keys d.table),
    (dict_keys_lem d w).0 k,
  )
