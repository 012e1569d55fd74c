-- ===== src/Dict/Laws.antt =====
-- common/dict.c: dict_put() and dict_get() as a map from strings to values.
use mathlib.Core.Path.{fun_ext}
use nss_pam_ldapd.Prelude.{
  ℕ, ◌+◌, ◌-◌, ◌%◌, ◌≤◌, ◌≡◌, refl, sym, Bool, true, false, ◌∷◌, Option, none, some, arith,
  if◌then◌else◌, set, ◌∙◌,
}
use nss_pam_ldapd.Bytes.{Bytes, ◌=ₛ◌, =ₛ_iff}
use nss_pam_ldapd.Dict.Chain.{
  Entry, stringhash, is_match-eq, find, count, assign, unlink, find-eq-none→count, find-assign,
  find-unlink, count-assign, count-unlink-le, length-assign, length-unlink, assign-IsAt,
  unlink-IsAt,
}
use nss_pam_ldapd.Dict.Table.{Chain, total, count-le-total, total-count}
use nss_pam_ldapd.Dict.Valid.{
  length-le-total, dict_get-replace, grow_if_full_lem, replace-IsValid, IsValid, here,
}
use nss_pam_ldapd.Dict.{
  Dict, Memory, Status, success, no_memory, chain_at, dict_get, grow_if_full, put_present,
  put_absent, put_at, dict_put,
}

-- What dict_put() is to return and to do to the map: `old` is the value that was there.
unfoldable pub put_status : {V : Type 0} → Bool → Option V → Option V → Status
put_status allocated old value = elim value [
  | none ↦ success
  | some v ↦ elim old [ some o ↦ success | none ↦ if allocated then success else no_memory ]
]

unfoldable pub put_answer :
    {V : Type 0} → Status → Bytes → Option V → (Bytes → Option V) → Bytes → Option V
put_answer success k value map j = if k =ₛ j then value else map j
put_answer no_memory k value map j = map j

module _ {V : Type 0} where
  module _ (d : Dict V) (w : IsValid d) (k : Bytes) where
    abbrev pub slot : ℕ
    slot = stringhash k % d.size

    abbrev pub chain : Chain V
    chain = chain_at d.table slot

    pub dict_get-find :
        (j : Bytes)
        → dict_get d j ≡ find (stringhash j) j (chain_at d.table (stringhash j % d.size))
    unfolding dict_get
    dict_get-find j = refl

    -- An exchange of the key's chain changes only answers for keys of this chain.
    dict_get-exchange :
        (c : Chain V) (num : ℕ) (o : Option V) (j : Bytes)
        → find (stringhash j) j c ≡ (if k =ₛ j then o else find (stringhash j) j chain)
        → dict_get (record d { num = num; table = set d.table slot c }) j
          ≡ (if k =ₛ j then o else dict_get d j)
    dict_get-exchange c num o j h =
        ground (arith, dict_get-replace d w (stringhash k) c num j, dict_get-find j, =ₛ_iff k j)

    put_present_lem :
        (value : Option V) (old : V)
        → dict_get d k ≡ some old
        → IsValid (put_present d (stringhash k) k value).1
          × ((j : Bytes)
              → dict_get (put_present d (stringhash k) k value).1 j
                ≡ (if k =ₛ j then value else dict_get d j))
    unfolding put_present
    put_present_lem (some v) old h =
        let at = here d w (stringhash k) in
        let found : find (stringhash k) k chain ≡ some old = sym (dict_get-find k) ∙ h in
        (
          replace-IsValid d w (stringhash k) (assign (stringhash k) k v chain) d.num
              (assign-IsAt d.size slot k v chain at)
              (λ q. omega (arith, count-assign k q v chain, w.unique q))
              (omega (arith, length-assign k v chain)),
          λ j.
              dict_get-exchange (assign (stringhash k) k v chain) d.num (some v) j
                (find-assign d.size slot k j v old chain at found),
        )
    put_present_lem none old h =
        let at = here d w (stringhash k) in
        let found : find (stringhash k) k chain ≡ some old = sym (dict_get-find k) ∙ h in
        let c = unlink (stringhash k) k chain in
        (
          replace-IsValid d w (stringhash k) c (d.num - 1) (unlink-IsAt d.size slot k chain at)
              (λ q. omega (arith, count-unlink-le k q chain, w.unique q))
              (let n = w.counted in
                omega (arith, length-unlink k old chain found, length-le-total d.table slot)),
          λ j. dict_get-exchange c (d.num - 1) none j (
              find-unlink d.size slot k j chain at
                (omega (arith, count-le-total k d.table slot, w.unique k))),
        )

    count-eq-zero_of_none : dict_get d k ≡ none → count k chain ≡ 0
    count-eq-zero_of_none h =
        find-eq-none→count d.size slot k chain (here d w (stringhash k)) (sym (dict_get-find k) ∙ h)

    abbrev fresh : V → Entry V
    fresh v = record { hash = stringhash k; key = k; value = v }

    find-new :
        (v : V) (j : Bytes)
        → find (stringhash j) j (fresh v ∷ chain)
          ≡ (if k =ₛ j then some v else find (stringhash j) j chain)
    unfolding find
    find-new v j = rw (is_match-eq j (fresh v) refl)

    count-new :
        (v : V)
        → dict_get d k ≡ none
        → (q : Bytes) → count q (fresh v ∷ chain) + total (count q) d.table ≤ 1 + count q chain
    unfolding count
    count-new v h q = ground (
      arith,
      =ₛ_iff k q,
      w.unique q,
      total-count d.size k d.table w.placed,
      total-count d.size q d.table w.placed,
      count-eq-zero_of_none h,
    )

    put_absent_lem :
        (a : Bool) (value : Option V)
        → dict_get d k ≡ none
        → IsValid (put_absent a d (stringhash k) k value).1
          × ((put_absent a d (stringhash k) k value).0 ≡ put_status a none value)
          × ((j : Bytes)
              → dict_get (put_absent a d (stringhash k) k value).1 j
                ≡ put_answer (put_status a none value) k value (dict_get d) j)
    unfolding put_absent put_status put_answer
    put_absent_lem a none h = (w, refl, λ j. ground (arith, =ₛ_iff k j))
    put_absent_lem false (some v) h = (w, refl, λ j. refl)
    put_absent_lem true (some v) h =
        let c = fresh v ∷ chain in
        (
          replace-IsValid d w (stringhash k) c (d.num + 1)
              (record { hashed = refl; placed = refl }, here d w (stringhash k)) (count-new v h)
              (omega arith),
          refl,
          λ j. dict_get-exchange c (d.num + 1) (some v) j (find-new v j),
        )

    put_at_lem :
        (a : Bool) (value old : Option V)
        → dict_get d k ≡ old
        → IsValid (put_at a d (stringhash k) k value old).1
          × ((put_at a d (stringhash k) k value old).0 ≡ put_status a old value)
          × ((j : Bytes)
              → dict_get (put_at a d (stringhash k) k value old).1 j
                ≡ put_answer (put_status a old value) k value (dict_get d) j)
    unfolding put_at put_status put_answer put_present
    put_at_lem a value none h = put_absent_lem a value h
    put_at_lem a (some v) (some o) h =
        let (valid, answers) = put_present_lem (some v) o h in (valid, refl, answers)
    put_at_lem a none (some o) h =
        let (valid, answers) = put_present_lem none o h in (valid, refl, answers)

  -- Every call of dict_put() on a valid dictionary leaves a valid dictionary.  It returns -1 exactly
  -- where a new entry is to be stored and malloc() gives no memory for it; then no answer of
  -- dict_get() changes.  Otherwise the key has the new value, or none after an unset, and every
  -- other key keeps its own.
  pub dict_put_lem :
      (mem : Memory) (d : Dict V) (key : Bytes) (value : Option V)
      → IsValid d
      → IsValid (dict_put mem d key value).1
        × ((dict_put mem d key value).0 ≡ put_status mem.for_entry (dict_get d key) value)
        × ((j : Bytes)
            → dict_get (dict_put mem d key value).1 j
              ≡ put_answer
                  (put_status mem.for_entry (dict_get d key) value)
                  key
                  value
                  (dict_get d)
                  j)
  unfolding dict_put
  dict_put_lem mem d key value w =
      let (valid, same) = grow_if_full_lem d w mem.for_table in
      let g = grow_if_full mem.for_table d in
      let (v', s', a') = put_at_lem g valid key mem.for_entry value (dict_get d key) (same key) in
      let e : dict_get g ≡ dict_get d = fun_ext same in rw (same key) (v', s', rw e at a')
