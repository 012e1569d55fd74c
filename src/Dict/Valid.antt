-- ===== src/Dict/Valid.antt =====
-- common/dict.c: the well-formed tables, and what growing one does to the answers.
use nss_pam_ldapd.Prelude.{
  ℕ, zero, suc, ◌+◌, ◌*◌, ◌/◌, ◌%◌, ◌≤◌, ◌<◌, ◌≡◌, refl, ap, Bool, true, false, List, [], ◌∷◌,
  Option, none, some, arith, leb, ◌==◌, if◌then◌else◌, length, All, inl, inr, Bool-cases, set,
  replicate, length-set, length-replicate, ◌∙◌,
}
use nss_pam_ldapd.Bytes.{Bytes, ◌=ₛ◌}
use nss_pam_ldapd.Dict.Chain.{Entry, IsAt, stringhash, find, count, to_nat}
use nss_pam_ldapd.Dict.Table.{
  Chain, total, Placed, total-set, chain_at-set, Placed-chain, Placed-exchange, total-replicate,
  Placed-replicate, search_table, or_else, find_last-eq-search, IsTable, move_table-IsTable,
  total-move_table, search-move_table, find_last,
}
use nss_pam_ldapd.Dict.{Dict, chain_at, move_table, growhashtable, dict_new, dict_get, grow_if_full}

-- Every entry stands once, in the chain of its hash, and is counted.
pub record IsValid {V : Type 0} (d : Dict V) : Type 0 where
  pub not_empty : 0 < d.size
  pub sized : length d.table ≡ d.size
  pub placed : Placed d.size 0 d.table
  pub unique : (k : Bytes) → total (count k) d.table ≤ 1
  pub counted : total length d.table ≡ d.num

search-replicate :
    (V : Type 0) (n m : ℕ) (k : Bytes) → search_table {V = V} n k (replicate m []) ≡ none
unfolding search_table chain_at find
search-replicate V n m k = at (stringhash k % n) m
  where
    at : (i m : ℕ) → find {V = V} (stringhash k) k (chain_at (replicate m []) i) ≡ none
    at i zero = refl
    at zero (suc m) = refl
    at (suc i) (suc m) = at i m

module _ {V : Type 0} where
  or_else-none : (o : Option V) → or_else o none ≡ o
  unfolding or_else
  or_else-none none = refl
  or_else-none (some v) = refl

  empty-IsTable : (n : ℕ) (pos : 0 < n) → IsTable {V = V} n pos (replicate n [])
  empty-IsTable n pos = record { sized = length-replicate n []; placed = Placed-replicate V n 0 n }

  module _ (d : Dict V) (w : IsValid d) where
    grown_size : 0 < d.size * 3 + 1
    grown_size = omega arith

    growhashtable-IsTable :
        IsTable
          (d.size * 3 + 1)
          grown_size
          (move_table (d.size * 3 + 1) d.table (replicate (d.size * 3 + 1) []))
    growhashtable-IsTable =
        move_table-IsTable (d.size * 3 + 1) grown_size d.size 0 d.table _ w.placed
          (empty-IsTable _ grown_size)

    total-growhashtable :
        (f : Chain V → ℕ) (k : Entry V → ℕ)
        → f [] ≡ 0
        → ((e : Entry V) (c : Chain V) → f (e ∷ c) ≡ k e + f c)
        → (a : Bool) → total f (growhashtable a d).table ≡ total f d.table
    unfolding growhashtable
    total-growhashtable f k nil add false = refl
    total-growhashtable f k nil add true =
        let n = d.size * 3 + 1 in
        omega (
          arith,
          total-move_table n grown_size f k d.size 0 d.table _ nil add w.placed
              (empty-IsTable n grown_size),
          total-replicate f n nil,
        )

    growhashtable-IsValid : (a : Bool) → IsValid (growhashtable a d)
    unfolding growhashtable count
    growhashtable-IsValid false = w
    growhashtable-IsValid true = record {
      not_empty = grown_size;
      sized = growhashtable-IsTable.sized;
      placed = growhashtable-IsTable.placed;
      unique = λ k. omega (
        arith,
        w.unique k,
        total-growhashtable (count k) (λ e. to_nat (e.key =ₛ k)) refl (λ e c. refl) true,
      );
      counted = total-growhashtable length (λ e. 1) refl (λ e c. omega arith) true ∙ w.counted;
    }

    dict_get-growhashtable : (a : Bool) (j : Bytes) → dict_get (growhashtable a d) j ≡ dict_get d j
    unfolding growhashtable dict_get search_table
    dict_get-growhashtable false j = refl
    dict_get-growhashtable true j =
        let n = d.size * 3 + 1 in
        search-move_table n grown_size d.size 0 d.table _ j w.placed (empty-IsTable n grown_size)
          (w.unique j)
        ∙ (ap (or_else (find_last j d.table)) (search-replicate V n n j)
            ∙ (or_else-none (find_last j d.table) ∙ find_last-eq-search d.size j d.table w.placed))

    -- Growing loses no entry, adds none and changes no answer, also where malloc() fails.
    pub grow_if_full_lem :
        (a : Bool)
        → IsValid (grow_if_full a d) × ((j : Bytes) → dict_get (grow_if_full a d) j ≡ dict_get d j)
    unfolding grow_if_full
    grow_if_full_lem a = elim (Bool-cases (leb (d.size * 400 / 100) d.num)) [
      | inl full ↦ rw full (growhashtable-IsValid a, dict_get-growhashtable a)
      | inr room ↦ rw room (w, λ j. refl)
    ]

  pub length-le-total : (t : List (Chain V)) (i : ℕ) → length (chain_at t i) ≤ total length t
  unfolding total chain_at
  length-le-total [] i = omega arith
  length-le-total (c ∷ t) zero = omega arith
  length-le-total (c ∷ t) (suc i) = omega (arith, length-le-total t i)

  module _ (d : Dict V) (w : IsValid d) (hash : ℕ) where
    slot-lt : hash % d.size < length d.table
    slot-lt = let s = w.sized in let p = w.not_empty in grind arith

    -- One chain is exchanged for another that repeats no key.
    pub replace-IsValid :
        (c : Chain V) (num : ℕ)
        → All (IsAt d.size (hash % d.size)) c
        → ((k : Bytes)
            → count k c + total (count k) d.table ≤ 1 + count k (chain_at d.table (hash % d.size)))
        → length c + d.num ≡ num + length (chain_at d.table (hash % d.size))
        → IsValid (record d { num = num; table = set d.table (hash % d.size) c })
    replace-IsValid c num all once len =
        let i = hash % d.size in
        record {
          not_empty = w.not_empty;
          sized = length-set d.table i c ∙ w.sized;
          placed = Placed-exchange d.size d.table i c w.placed all;
          unique = λ k. omega (arith, total-set (count k) d.table i c slot-lt, once k);
          counted = let n = w.counted in omega (arith, total-set length d.table i c slot-lt, len);
        }

    pub dict_get-replace :
        (c : Chain V) (num : ℕ) (j : Bytes)
        → dict_get (record d { num = num; table = set d.table (hash % d.size) c }) j ≡ (
            if hash % d.size == stringhash j % d.size
            then find (stringhash j) j c
            else dict_get d j)
    unfolding dict_get
    dict_get-replace c num j =
        rw (chain_at-set d.table (hash % d.size) (stringhash j % d.size) c slot-lt) (ground arith)

    pub here : All (IsAt d.size (hash % d.size)) (chain_at d.table (hash % d.size))
    here = Placed-chain d.size d.table (hash % d.size) w.placed

  pub dict_new_lem :
      IsValid (dict_new {V = V}) × ((j : Bytes) → dict_get (dict_new {V = V}) j ≡ none)
  unfolding dict_new dict_get total count search_table
  dict_new_lem = (
    record {
      not_empty = omega arith;
      sized = refl;
      placed = Placed-replicate V 7 0 7;
      unique = λ k. omega arith;
      counted = refl;
    },
    λ j. search-replicate V 7 7 j,
  )
