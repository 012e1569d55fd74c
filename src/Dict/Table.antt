-- ===== src/Dict/Table.antt =====
-- common/dict.c: the array of linked lists, and filling it anew.
use nss_pam_ldapd.Prelude.{
  ℕ, zero, suc, ◌+◌, ◌%◌, ◌≤◌, ◌<◌, ◌≡◌, refl, List, [], ◌∷◌, Option, none, some, arith, ◌==◌,
  if◌then◌else◌, length, All, set, replicate, length-set, ◌∙◌,
}
use nss_pam_ldapd.Bytes.{Bytes, ◌=ₛ◌, =ₛ_iff}
use nss_pam_ldapd.Dict.Chain.{
  Entry, IsAt, stringhash, is_match-eq, find, count, find-eq-none, find-elsewhere, count-elsewhere,
}
use nss_pam_ldapd.Dict.{chain_at, move_entry, move_chain, move_table}

abbrev pub Chain : Type 0 → Type 0
Chain V = List (Entry V)

module _ {V : Type 0} where
  -- The sum of a measure over the chains.
  unfoldable pub total : (Chain V → ℕ) → List (Chain V) → ℕ
  total f [] = 0
  total f (c ∷ cs) = f c + total f cs

  -- The chains from position `b` on hold the entries that belong there.
  abbrev pub Placed : ℕ → ℕ → List (Chain V) → Type 0
  Placed size b [] = Unit
  Placed size b (c ∷ cs) = All (IsAt size b) c × Placed size (suc b) cs

  pub total-set :
      (f : Chain V → ℕ) (t : List (Chain V)) (i : ℕ) (c : Chain V)
      → i < length t
      → total f (set t i c) + f (chain_at t i) ≡ total f t + f c
  unfolding total chain_at
  total-set f [] i c h = absurd (omega arith)
  total-set f (d ∷ t) zero c h = omega arith
  total-set f (d ∷ t) (suc i) c h = omega (arith, total-set f t i c (omega arith))

  pub chain_at-set :
      (t : List (Chain V)) (i j : ℕ) (c : Chain V)
      → i < length t
      → chain_at (set t i c) j ≡ (if i == j then c else chain_at t j)
  unfolding chain_at
  chain_at-set [] i j c h = absurd (omega arith)
  chain_at-set (d ∷ t) zero zero c h = refl
  chain_at-set (d ∷ t) zero (suc j) c h = ground arith
  chain_at-set (d ∷ t) (suc i) zero c h = ground arith
  chain_at-set (d ∷ t) (suc i) (suc j) c h = ground (arith, chain_at-set t i j c)

  pub Placed-IsAt :
      (size b : ℕ) (t : List (Chain V)) (i : ℕ)
      → Placed size b t
      → All (IsAt size (b + i)) (chain_at t i)
  unfolding chain_at
  Placed-IsAt size b [] i p = tt
  Placed-IsAt size b (c ∷ t) zero p = let e : b + 0 ≡ b = omega arith in rw e p.0
  Placed-IsAt size b (c ∷ t) (suc i) p =
      let e : b + suc i ≡ suc b + i = omega arith in rw e (Placed-IsAt size (suc b) t i p.1)

  pub Placed-set :
      (size b : ℕ) (t : List (Chain V)) (i : ℕ) (c : Chain V)
      → Placed size b t
      → All (IsAt size (b + i)) c
      → Placed size b (set t i c)
  Placed-set size b [] i c p q = tt
  Placed-set size b (d ∷ t) zero c p q = let e : b + 0 ≡ b = omega arith in (rw e at q, p.1)
  Placed-set size b (d ∷ t) (suc i) c p q =
      let e : b + suc i ≡ suc b + i = omega arith in
      (p.0, Placed-set size (suc b) t i c p.1 (rw e at q))

  pub Placed-chain :
      (size : ℕ) (t : List (Chain V)) (i : ℕ) → Placed size 0 t → All (IsAt size i) (chain_at t i)
  Placed-chain size t i p = let e : 0 + i ≡ i = omega arith in rw e at (Placed-IsAt size 0 t i p)

  pub Placed-exchange :
      (size : ℕ) (t : List (Chain V)) (i : ℕ) (c : Chain V)
      → Placed size 0 t
      → All (IsAt size i) c
      → Placed size 0 (set t i c)
  Placed-exchange size t i c p q =
      let e : i ≡ 0 + i = omega arith in Placed-set size 0 t i c p (rw e at q)

  pub count-le-total :
      (k : Bytes) (t : List (Chain V)) (i : ℕ) → count k (chain_at t i) ≤ total (count k) t
  unfolding total chain_at count
  count-le-total k [] i = omega arith
  count-le-total k (c ∷ t) zero = omega arith
  count-le-total k (c ∷ t) (suc i) = omega (arith, count-le-total k t i)

  pub total-replicate : (f : Chain V → ℕ) (n : ℕ) → f [] ≡ 0 → total f (replicate n []) ≡ 0
  unfolding total
  total-replicate f zero h = refl
  total-replicate f (suc n) h = omega (arith, total-replicate f n h)

  -- The value under a key, as dict_get() finds it.
  unfoldable pub search_table : ℕ → Bytes → List (Chain V) → Option V
  search_table size k t = find (stringhash k) k (chain_at t (stringhash k % size))

  unfoldable pub or_else : Option V → Option V → Option V
  or_else none o = o
  or_else (some v) o = some v

  -- The value under a key in the last chain that has it.
  pub find_last : Bytes → List (Chain V) → Option V
  find_last k [] = none
  find_last k (c ∷ cs) = or_else (find_last k cs) (find (stringhash k) k c)

  find_last-eq-none :
      (size b : ℕ) (k : Bytes) (cs : List (Chain V))
      → Placed size b cs
      → stringhash k % size < b
      → find_last k cs ≡ none
  unfolding find_last or_else
  find_last-eq-none size b k [] p h = refl
  find_last-eq-none size b k (c ∷ cs) p h =
      rw (find_last-eq-none size (suc b) k cs p.1 (omega arith))
        (find-elsewhere size b k c p.0 (omega arith))

  find_last-eq-at :
      (size b m : ℕ) (k : Bytes) (cs : List (Chain V))
      → Placed size b cs
      → stringhash k % size ≡ b + m
      → find_last k cs ≡ find (stringhash k) k (chain_at cs m)
  unfolding find_last or_else chain_at find
  find_last-eq-at size b m k [] p h = refl
  find_last-eq-at size b zero k (c ∷ cs) p h =
      rw (find_last-eq-none size (suc b) k cs p.1 (omega arith))
  find_last-eq-at size b (suc m) k (c ∷ cs) p h = ground (
    arith,
    find_last-eq-at size (suc b) m k cs p.1 (omega arith),
    find-elsewhere size b k c p.0 (omega arith),
  )

  -- Where the chains are well placed the order of the search does not matter.
  pub find_last-eq-search :
      (size : ℕ) (k : Bytes) (cs : List (Chain V))
      → Placed size 0 cs
      → find_last k cs ≡ search_table size k cs
  unfolding search_table
  find_last-eq-search size k cs p =
      find_last-eq-at size 0 (stringhash k % size) k cs p (omega arith)

  total-count-eq-zero :
      (size b : ℕ) (k : Bytes) (cs : List (Chain V))
      → Placed size b cs
      → stringhash k % size < b
      → total (count k) cs ≡ 0
  unfolding total
  total-count-eq-zero size b k [] p h = refl
  total-count-eq-zero size b k (c ∷ cs) p h = omega (
    arith,
    total-count-eq-zero size (suc b) k cs p.1 (omega arith),
    count-elsewhere size b k c p.0 (omega arith),
  )

  total-count-at :
      (size b m : ℕ) (k : Bytes) (cs : List (Chain V))
      → Placed size b cs
      → stringhash k % size ≡ b + m
      → total (count k) cs ≡ count k (chain_at cs m)
  unfolding total chain_at count
  total-count-at size b m k [] p h = refl
  total-count-at size b zero k (c ∷ cs) p h =
      omega (arith, total-count-eq-zero size (suc b) k cs p.1 (omega arith))
  total-count-at size b (suc m) k (c ∷ cs) p h = omega (
    arith,
    total-count-at size (suc b) m k cs p.1 (omega arith),
    count-elsewhere size b k c p.0 (omega arith),
  )

  pub total-count :
      (size : ℕ) (k : Bytes) (cs : List (Chain V))
      → Placed size 0 cs
      → total (count k) cs ≡ count k (chain_at cs (stringhash k % size))
  total-count size k cs p = total-count-at size 0 (stringhash k % size) k cs p (omega arith)

  module _ (n : ℕ) (pos : 0 < n) where
    -- A table of the new size in the course of the move.
    pub record IsTable (t : List (Chain V)) : Type 0 where
      pub sized : length t ≡ n
      pub placed : Placed n 0 t

    index-lt : (e : Entry V) (t : List (Chain V)) → IsTable t → e.hash % n < length t
    index-lt e t w = let s = w.sized in grind arith

    move_entry-IsTable :
        (e : Entry V) (t : List (Chain V))
        → e.hash ≡ stringhash e.key
        → IsTable t
        → IsTable (move_entry n e t)
    unfolding move_entry
    move_entry-IsTable e t h w =
        let i = e.hash % n in
        record {
          sized = length-set t i (e ∷ chain_at t i) ∙ w.sized;
          placed =
              Placed-set n 0 t i (e ∷ chain_at t i) w.placed
                (record { hashed = h; placed = omega arith }, Placed-IsAt n 0 t i w.placed);
        }

    search-move_entry :
        (e : Entry V) (t : List (Chain V)) (j : Bytes)
        → e.hash ≡ stringhash e.key
        → IsTable t
        → search_table n j (move_entry n e t)
          ≡ (if e.key =ₛ j then some e.value else search_table n j t)
    unfolding search_table move_entry find
    search-move_entry e t j h w = ground (
      arith,
      chain_at-set t (e.hash % n) (stringhash j % n) (e ∷ chain_at t (e.hash % n)) (index-lt e t w),
      is_match-eq j e h,
      =ₛ_iff e.key j,
    )

    total-move_entry :
        (f : Chain V → ℕ) (k : ℕ) (e : Entry V) (t : List (Chain V))
        → ((c : Chain V) → f (e ∷ c) ≡ k + f c)
        → IsTable t
        → total f (move_entry n e t) ≡ k + total f t
    unfolding move_entry
    total-move_entry f k e t add w =
        let i = e.hash % n in
        omega (arith, total-set f t i (e ∷ chain_at t i) (index-lt e t w), add (chain_at t i))

    move_chain-IsTable :
        (size i : ℕ) (c : Chain V) (t : List (Chain V))
        → All (IsAt size i) c
        → IsTable t
        → IsTable (move_chain n c t)
    unfolding move_chain
    move_chain-IsTable size i [] t all w = w
    move_chain-IsTable size i (e ∷ c) t all w =
        move_chain-IsTable size i c (move_entry n e t) all.1 (move_entry-IsTable e t all.0.hashed w)

    search-move_chain :
        (size i : ℕ) (c : Chain V) (t : List (Chain V)) (j : Bytes)
        → All (IsAt size i) c
        → IsTable t
        → count j c ≤ 1
        → search_table n j (move_chain n c t)
          ≡ or_else (find (stringhash j) j c) (search_table n j t)
    unfolding move_chain find count or_else
    search-move_chain size i [] t j all w le = refl
    search-move_chain size i (e ∷ c) t j all w le = ground (
      arith,
      search-move_chain size i c (move_entry n e t) j all.1 (move_entry-IsTable e t all.0.hashed w),
      search-move_entry e t j all.0.hashed w,
      is_match-eq j e all.0.hashed,
      find-eq-none size i j c all.1,
    )

    total-move_chain :
        (f : Chain V → ℕ) (k : Entry V → ℕ) (size i : ℕ) (c : Chain V) (t : List (Chain V))
        → f [] ≡ 0
        → ((e : Entry V) (c : Chain V) → f (e ∷ c) ≡ k e + f c)
        → All (IsAt size i) c
        → IsTable t
        → total f (move_chain n c t) ≡ f c + total f t
    unfolding move_chain
    total-move_chain f k size i [] t nil add all w = omega arith
    total-move_chain f k size i (e ∷ c) t nil add all w = omega (
      arith,
      total-move_chain f k size i c (move_entry n e t) nil add all.1
          (move_entry-IsTable e t all.0.hashed w),
      total-move_entry f (k e) e t (add e) w,
      add e c,
    )

    pub move_table-IsTable :
        (size b : ℕ) (cs t : List (Chain V))
        → Placed size b cs
        → IsTable t
        → IsTable (move_table n cs t)
    unfolding move_table
    move_table-IsTable size b [] t p w = w
    move_table-IsTable size b (c ∷ cs) t p w =
        move_table-IsTable size (suc b) cs (move_chain n c t) p.1
          (move_chain-IsTable size b c t p.0 w)

    pub total-move_table :
        (f : Chain V → ℕ) (k : Entry V → ℕ) (size b : ℕ) (cs t : List (Chain V))
        → f [] ≡ 0
        → ((e : Entry V) (c : Chain V) → f (e ∷ c) ≡ k e + f c)
        → Placed size b cs
        → IsTable t
        → total f (move_table n cs t) ≡ total f cs + total f t
    unfolding move_table total
    total-move_table f k size b [] t nil add p w = omega arith
    total-move_table f k size b (c ∷ cs) t nil add p w = omega (
      arith,
      total-move_table f k size (suc b) cs (move_chain n c t) nil add p.1
          (move_chain-IsTable size b c t p.0 w),
      total-move_chain f k size b c t nil add p.0 w,
    )

    pub search-move_table :
        (size b : ℕ) (cs t : List (Chain V)) (j : Bytes)
        → Placed size b cs
        → IsTable t
        → total (count j) cs ≤ 1
        → search_table n j (move_table n cs t) ≡ or_else (find_last j cs) (search_table n j t)
    unfolding move_table total find_last or_else
    search-move_table size b [] t j p w le = refl
    search-move_table size b (c ∷ cs) t j p w le = ground (
      arith,
      search-move_table size (suc b) cs (move_chain n c t) j p.1
          (move_chain-IsTable size b c t p.0 w),
      search-move_chain size b c t j p.0 w,
    )

pub Placed-replicate : (V : Type 0) (size b n : ℕ) → Placed {V = V} size b (replicate n [])
Placed-replicate V size b zero = tt
Placed-replicate V size b (suc n) = (tt, Placed-replicate V size (suc b) n)
