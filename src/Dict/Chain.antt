-- ===== src/Dict/Chain.antt =====
-- common/dict.c: the entries, the hash function and the loops over one linked list.
use nss_pam_ldapd.Prelude.{
  ℕ, ◌+◌, ◌-◌, ◌*◌, ◌%◌, ◌^◌, ◌≤◌, ◌≡◌, ◌≢◌, refl, ap, Bool, true, false, ◌&&◌, List, [], ◌∷◌,
  Option, none, some, arith, ltb, ◌==◌, if◌then◌else◌, length, All, inl, inr, Bool-cases,
}
use nss_pam_ldapd.Bytes.{Bytes, ◌=ₛ◌, =ₛ_iff}

pub record Entry (V : Type 0) : Type 0 where
  pub hash : ℕ
  pub key : Bytes
  pub value : V

-- A char is signed here: a byte from 128 on is extended to 32 bits with its sign.
unfoldable pub char_to_uint32 : ℕ → ℕ
char_to_uint32 c = if ltb c 128 then c else 2 ^ 32 - 256 + c

unfoldable pub hash_from : ℕ → Bytes → ℕ
unfolding char_to_uint32
hash_from hash [] = hash
hash_from hash (c ∷ s) = hash_from ((33 * hash + char_to_uint32 c) % 2 ^ 32) s

unfoldable pub stringhash : Bytes → ℕ
unfolding hash_from
stringhash str = hash_from 5381 str

abbrev pub to_nat : Bool → ℕ
to_nat true = 1
to_nat false = 0

module _ {V : Type 0} where
  -- the test on an entry in dict_get() and dict_put()
  unfoldable pub is_match : ℕ → Bytes → Entry V → Bool
  is_match hash key e = e.hash == hash && e.key =ₛ key

  unfoldable pub find : ℕ → Bytes → List (Entry V) → Option V
  find hash key [] = none
  find hash key (e ∷ c) = if is_match hash key e then some e.value else find hash key c

  -- entry->value = value
  unfoldable pub assign : ℕ → Bytes → V → List (Entry V) → List (Entry V)
  assign hash key v [] = []
  assign hash key v (e ∷ c) =
      if is_match hash key e then record e { value = v } ∷ c else e ∷ assign hash key v c

  -- The entry is taken out of the linked list.
  unfoldable pub unlink : ℕ → Bytes → List (Entry V) → List (Entry V)
  unlink hash key [] = []
  unlink hash key (e ∷ c) = if is_match hash key e then c else e ∷ unlink hash key c

  -- The entry holds the hash of its key and stands in the chain of the table's size.
  pub record IsAt (size i : ℕ) (e : Entry V) : Type 0 where
    pub hashed : e.hash ≡ stringhash e.key
    pub placed : e.hash % size ≡ i

  unfoldable pub count : Bytes → List (Entry V) → ℕ
  count key [] = 0
  count key (e ∷ c) = to_nat (e.key =ₛ key) + count key c

  pub is_match-eq :
      (key : Bytes) (e : Entry V)
      → e.hash ≡ stringhash e.key
      → is_match (stringhash key) key e ≡ (e.key =ₛ key)
  unfolding is_match
  is_match-eq key e h = elim (Bool-cases (e.key =ₛ key)) [
    | inl same ↦ ground (arith, ap stringhash ((=ₛ_iff e.key key).0 same))
    | inr other ↦ ground arith
  ]

  module _ (k : Bytes) where
    pub count-assign :
        (j : Bytes) (v : V) (c : List (Entry V)) → count j (assign (stringhash k) k v c) ≡ count j c
    unfolding assign count
    count-assign j v [] = refl
    count-assign j v (e ∷ c) = ground (arith, count-assign j v c)

    pub count-unlink-le :
        (j : Bytes) (c : List (Entry V)) → count j (unlink (stringhash k) k c) ≤ count j c
    unfolding unlink count
    count-unlink-le j [] = omega arith
    count-unlink-le j (e ∷ c) = ground (arith, count-unlink-le j c)

    pub length-assign :
        (v : V) (c : List (Entry V)) → length (assign (stringhash k) k v c) ≡ length c
    unfolding assign
    length-assign v [] = refl
    length-assign v (e ∷ c) = ground (arith, length-assign v c)

    pub length-unlink :
        (old : V) (c : List (Entry V))
        → find (stringhash k) k c ≡ some old
        → length (unlink (stringhash k) k c) + 1 ≡ length c
    unfolding unlink find
    length-unlink old [] h = cc
    length-unlink old (e ∷ c) h = ground (arith, length-unlink old c)

  module _ (size i : ℕ) (k : Bytes) where
    pub find-eq-none :
        (c : List (Entry V)) → All (IsAt size i) c → count k c ≡ 0 → find (stringhash k) k c ≡ none
    unfolding find count
    find-eq-none [] all h = refl
    find-eq-none (e ∷ c) all h = ground (arith, is_match-eq k e all.0.hashed, find-eq-none c all.1)

    -- A key that hashes elsewhere is not in this chain.
    pub find-elsewhere :
        (c : List (Entry V))
        → All (IsAt size i) c
        → stringhash k % size ≢ i
        → find (stringhash k) k c ≡ none
    unfolding find
    find-elsewhere [] all h = refl
    find-elsewhere (e ∷ c) all h = elim (Bool-cases (e.key =ₛ k)) [
      | inl same ↦ absurd (h (cc ((=ₛ_iff e.key k).0 same, all.0.hashed, all.0.placed)))
      | inr other ↦ rw (is_match-eq k e all.0.hashed, other) (find-elsewhere c all.1 h)
    ]

    pub count-elsewhere :
        (c : List (Entry V)) → All (IsAt size i) c → stringhash k % size ≢ i → count k c ≡ 0
    unfolding count
    count-elsewhere [] all h = refl
    count-elsewhere (e ∷ c) all h = elim (Bool-cases (e.key =ₛ k)) [
      | inl same ↦ absurd (h (cc ((=ₛ_iff e.key k).0 same, all.0.hashed, all.0.placed)))
      | inr other ↦ rw other (omega (arith, count-elsewhere c all.1 h))
    ]

    pub find-assign :
        (j : Bytes) (v old : V) (c : List (Entry V))
        → All (IsAt size i) c
        → find (stringhash k) k c ≡ some old
        → find (stringhash j) j (assign (stringhash k) k v c)
          ≡ (if k =ₛ j then some v else find (stringhash j) j c)
    unfolding find assign
    find-assign j v old [] all h = cc
    find-assign j v old (e ∷ c) all h = ground (
      arith,
      is_match-eq k e all.0.hashed,
      is_match-eq j e all.0.hashed,
      is_match-eq j (record e { value = v }) all.0.hashed,
      =ₛ_iff e.key k,
      =ₛ_iff e.key j,
      =ₛ_iff k j,
      find-assign j v old c all.1,
    )

    pub find-unlink :
        (j : Bytes) (c : List (Entry V))
        → All (IsAt size i) c
        → count k c ≤ 1
        → find (stringhash j) j (unlink (stringhash k) k c)
          ≡ (if k =ₛ j then none else find (stringhash j) j c)
    unfolding find unlink count
    find-unlink j [] all h = ground arith
    find-unlink j (e ∷ c) all h = ground (
      arith,
      is_match-eq k e all.0.hashed,
      is_match-eq j e all.0.hashed,
      =ₛ_iff e.key k,
      =ₛ_iff e.key j,
      =ₛ_iff k j,
      find-eq-none c all.1,
      find-unlink j c all.1,
    )

    pub assign-IsAt :
        (v : V) (c : List (Entry V))
        → All (IsAt size i) c
        → All (IsAt size i) (assign (stringhash k) k v c)
    unfolding assign
    assign-IsAt v [] all = tt
    assign-IsAt v (e ∷ c) all = elim (Bool-cases (is_match (stringhash k) k e)) [
      | inl same ↦ rw same (record { hashed = all.0.hashed; placed = all.0.placed }, all.1)
      | inr other ↦ rw other (all.0, assign-IsAt v c all.1)
    ]

    pub unlink-IsAt :
        (c : List (Entry V)) → All (IsAt size i) c → All (IsAt size i) (unlink (stringhash k) k c)
    unfolding unlink
    unlink-IsAt [] all = tt
    unlink-IsAt (e ∷ c) all = elim (Bool-cases (is_match (stringhash k) k e)) [
      | inl same ↦ rw same all.1
      | inr other ↦ rw other (all.0, unlink-IsAt c all.1)
    ]

    pub find-eq-none→count :
        (c : List (Entry V)) → All (IsAt size i) c → find (stringhash k) k c ≡ none → count k c ≡ 0
    unfolding find count
    find-eq-none→count [] all h = refl
    find-eq-none→count (e ∷ c) all h =
        ground (arith, is_match-eq k e all.0.hashed, find-eq-none→count c all.1)
