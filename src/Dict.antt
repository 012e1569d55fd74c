-- ===== src/Dict.antt =====
-- common/dict.c: the hash table from strings to pointers.
-- A pointer that is not NULL is a value of the type `V`, and NULL is `none`.  A linked list of
-- entries is a list, its first entry first; `malloc` enters as the answers that it gives.
pub mod Chain
pub mod Table
pub mod Valid
pub mod Laws
pub mod Keys
use nss_pam_ldapd.Prelude.{
  ℕ, ◌+◌, ◌-◌, ◌*◌, ◌/◌, ◌%◌, Bool, true, false, List, [], ◌∷◌, ◌++◌, Option, none, some, leb,
  if◌then◌else◌, length, get_or, set, replicate,
}
use nss_pam_ldapd.Bytes.{Bytes}
use nss_pam_ldapd.Dict.Chain
use nss_pam_ldapd.Dict.Chain.{Entry, stringhash}

-- DICT_INITSIZE and DICT_LOADPERCENTAGE
abbrev pub dict_initsize : ℕ
dict_initsize = 7

abbrev pub dict_loadpercentage : ℕ
dict_loadpercentage = 400

pub record Dict (V : Type 0) : Type 0 where
  pub size : ℕ
  pub num : ℕ
  pub table : List (List (Entry V))

-- What malloc() answers in a call of dict_put(): for the new table, and for the new entry.
pub record Memory : Type 0 where
  pub for_table : Bool
  pub for_entry : Bool

-- the results 0 and -1 of dict_put()
pub data Status : Type 0 where
  success no_memory : Status

module _ {V : Type 0} where
  unfoldable pub chain_at : List (List (Entry V)) → ℕ → List (Entry V)
  chain_at table i = get_or table i []

  -- tmp->next = newtable[tmp->hash % newsize]; newtable[tmp->hash % newsize] = tmp
  unfoldable pub move_entry : ℕ → Entry V → List (List (Entry V)) → List (List (Entry V))
  move_entry newsize e t = let i = e.hash % newsize in set t i (e ∷ chain_at t i)

  unfoldable pub move_chain : ℕ → List (Entry V) → List (List (Entry V)) → List (List (Entry V))
  move_chain newsize [] t = t
  move_chain newsize (e ∷ c) t = move_chain newsize c (move_entry newsize e t)

  unfoldable pub move_table :
      ℕ → List (List (Entry V)) → List (List (Entry V)) → List (List (Entry V))
  move_table newsize [] t = t
  move_table newsize (c ∷ cs) t = move_table newsize cs (move_chain newsize c t)

  unfoldable pub growhashtable : Bool → Dict V → Dict V
  growhashtable allocated d =
      let newsize = d.size * 3 + 1 in
      if allocated
      then record {
        size = newsize;
        num = d.num;
        table = move_table newsize d.table (replicate newsize []);
      }
      else d

  unfoldable pub dict_new : Dict V
  dict_new = record { size = dict_initsize; num = 0; table = replicate dict_initsize [] }

  unfoldable pub dict_get : Dict V → Bytes → Option V
  dict_get d key =
      let hash = stringhash key in Chain.find hash key (chain_at d.table (hash % d.size))

  -- the key of the first entry of the first chain that has one
  unfoldable pub first_key : List (List (Entry V)) → Option Bytes
  first_key [] = none
  first_key ([] ∷ cs) = first_key cs
  first_key ((e ∷ c) ∷ cs) = some e.key

  unfoldable pub dict_getany : Dict V → Option Bytes
  dict_getany d = first_key d.table

  unfoldable pub grow_if_full : Bool → Dict V → Dict V
  grow_if_full allocated d =
      if leb (d.size * dict_loadpercentage / 100) d.num then growhashtable allocated d else d

  -- the entry with the key is there
  unfoldable pub put_present : Dict V → ℕ → Bytes → Option V → Status × Dict V
  put_present d hash key none =
      let i = hash % d.size in
      (
        success,
        record d {
          num = d.num - 1;
          table = set d.table i (Chain.unlink hash key (chain_at d.table i));
        },
      )
  put_present d hash key (some v) =
      let i = hash % d.size in
      (success, record d { table = set d.table i (Chain.assign hash key v (chain_at d.table i)) })

  unfoldable pub put_absent : Bool → Dict V → ℕ → Bytes → Option V → Status × Dict V
  put_absent allocated d hash key none = (success, d)
  put_absent allocated d hash key (some v) =
      let i = hash % d.size in
      let e : Entry V = record { hash = hash; key = key; value = v } in
      if allocated
      then (success, record d { num = d.num + 1; table = set d.table i (e ∷ chain_at d.table i) })
      else (no_memory, d)

  unfoldable pub put_at : Bool → Dict V → ℕ → Bytes → Option V → Option V → Status × Dict V
  put_at allocated d hash key value (some old) = put_present d hash key value
  put_at allocated d hash key value none = put_absent allocated d hash key value

  unfoldable pub dict_put : Memory → Dict V → Bytes → Option V → Status × Dict V
  dict_put mem d key value =
      let g = grow_if_full mem.for_table d in
      put_at mem.for_entry g (stringhash key) key value (dict_get g key)

  unfoldable pub chain_keys : List (Entry V) → List Bytes
  chain_keys [] = []
  chain_keys (e ∷ c) = e.key ∷ chain_keys c

  unfoldable pub table_keys : List (List (Entry V)) → List Bytes
  unfolding chain_keys
  table_keys [] = []
  table_keys (c ∷ cs) = chain_keys c ++ table_keys cs

  unfoldable pub dict_keys : Dict V → List Bytes
  dict_keys d = table_keys d.table
