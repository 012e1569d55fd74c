-- ===== src/Passwd/Cache/Stored.antt =====
-- nslcd/passwd.c: a store in the cache, and the looks behind it.
use nss_pam_ldapd.Prelude.{
  ltb, ◌+◌, ◌≤◌, ◌⊎◌, ℕ, zero, suc, ◌<◌, ◌≡◌, ◌≢◌, refl, sym, ap, subst, ◌∙◌, true, false, List, [],
  ◌∷◌, ◌++◌, Option, none, some, if◌then◌else◌, length, set, arith, Bool-cases, Option-cases, inl,
  inr, length-append, length-set,
}
use nss_pam_ldapd.Bytes.{=ₛ_refl, Bytes, ◌=ₛ◌, =ₛ_iff}
use nss_pam_ldapd.Dict.{Memory, dict_get}
use nss_pam_ldapd.Dict.Valid.{IsValid}
use nss_pam_ldapd.Dict.Laws.{dict_put_lem, put_answer, put_status}
use nss_pam_ldapd.Passwd.Cache.{
  search_needed, answer, Look, is_fresh, look_entry, CacheEntry, Cache, Timeouts, entry_at,
  entry_of, cached, look, store, store_at, look_at,
}

-- The dictionary is valid, its addresses are those of entries, and no two DNs share an entry.
pub record WellFormed (cache : Cache) : Type 0 where
  pub valid : IsValid cache.dict
  pub allocated : (j : Bytes) (a : ℕ) → dict_get cache.dict j ≡ some a → a < length cache.entries
  pub unshared :
      (i j : Bytes) (a : ℕ)
      → dict_get cache.dict i ≡ some a
      → dict_get cache.dict j ≡ some a
      → i ≡ j

entry_at-same :
    (entries : List CacheEntry) (a : ℕ) (e : CacheEntry)
    → a < length entries
    → entry_at (set entries a e) a ≡ some e
entry_at-same [] a e h = absurd (omega arith)
entry_at-same (d ∷ entries) zero e h = refl
entry_at-same (d ∷ entries) (suc a) e h = entry_at-same entries a e (omega arith)

entry_at-other :
    (entries : List CacheEntry) (a b : ℕ) (e : CacheEntry)
    → a ≢ b
    → entry_at (set entries a e) b ≡ entry_at entries b
entry_at-other [] a b e h = refl
entry_at-other (d ∷ entries) zero zero e h = absurd (h refl)
entry_at-other (d ∷ entries) zero (suc b) e h = refl
entry_at-other (d ∷ entries) (suc a) zero e h = refl
entry_at-other (d ∷ entries) (suc a) (suc b) e h = entry_at-other entries a b e (λ k. h (ap suc k))

entry_at-new :
    (entries : List CacheEntry) (e : CacheEntry)
    → entry_at (entries ++ e ∷ []) (length entries) ≡ some e
entry_at-new [] e = refl
entry_at-new (d ∷ entries) e = entry_at-new entries e

entry_at-old :
    (entries : List CacheEntry) (e : CacheEntry) (a : ℕ)
    → a < length entries
    → entry_at (entries ++ e ∷ []) a ≡ entry_at entries a
entry_at-old [] e a h = absurd (omega arith)
entry_at-old (d ∷ entries) e zero h = refl
entry_at-old (d ∷ entries) e (suc a) h = entry_at-old entries e a (omega arith)

module _ (mem : Memory) (given : mem.for_entry ≡ true) (cache : Cache) (w : WellFormed cache)
    (dn : Bytes) (e : CacheEntry) where
  -- The entry of a DN, after a store.
  abbrev Found : Cache → Type 0
  Found after = (j : Bytes) → cached after j ≡ (if dn =ₛ j then some e else cached cache j)

  overwritten :
      (a : ℕ)
      → dict_get cache.dict dn ≡ some a
      → WellFormed (store_at mem cache dn e (some a)) × Found (store_at mem cache dn e (some a))
  unfolding cached
  overwritten a at = (
    record {
      valid = w.valid;
      allocated = λ j b h. omega (arith, w.allocated j b h, length-set cache.entries a e);
      unshared = w.unshared;
    },
    λ j. elim (Bool-cases (dn =ₛ j)) [
      | inl same ↦
          let at' : dict_get cache.dict j ≡ some a =
            subst (λ k. dict_get cache.dict k ≡ some a) ((=ₛ_iff dn j).0 same) at in
          rw (same, at') (entry_at-same cache.entries a e (w.allocated dn a at))
      | inr other ↦ rw other (untouched a at j other (dict_get cache.dict j) refl)
    ],
  )
    where
      untouched :
          (a : ℕ)
          → dict_get cache.dict dn ≡ some a
          → (j : Bytes) → (dn =ₛ j) ≡ false
          → (o : Option ℕ) → dict_get cache.dict j ≡ o
          → entry_of (set cache.entries a e) o ≡ entry_of cache.entries o
      untouched a at j other none h = refl
      untouched a at j other (some b) h = entry_at-other cache.entries a b e λ same.
          let shared = w.unshared dn j a at (h ∙ ap some (sym same)) in
          let equal = (=ₛ_iff dn j).1 shared in cc

  abbrev enlarged : Cache
  enlarged = store_at mem cache dn e none

  -- The addresses with a new one.
  addresses :
      dict_get cache.dict dn ≡ none
      → (j : Bytes)
      → dict_get enlarged.dict j
        ≡ (if dn =ₛ j then some (length cache.entries) else dict_get cache.dict j)
  unfolding put_answer put_status
  addresses at j =
      let new = (dict_put_lem mem cache.dict dn (some (length cache.entries)) w.valid).2 j in
      ground (arith, new, given, at)

  added-IsValid : IsValid enlarged.dict
  added-IsValid = (dict_put_lem mem cache.dict dn (some (length cache.entries)) w.valid).0

  -- An address is the new one, or an old one of another DN.
  data Address (j : Bytes) (a : ℕ) : Type 0 where
    new : dn ≡ j → a ≡ length cache.entries → Address j a
    old : dict_get cache.dict j ≡ some a → Address j a

  Address-cases :
      dict_get cache.dict dn ≡ none
      → (j : Bytes) (a : ℕ) → dict_get enlarged.dict j ≡ some a
      → Address j a
  Address-cases at j a h = elim (Bool-cases (dn =ₛ j)) [
    | inl same ↦
        let k : some (length cache.entries) ≡ some a = sym (addresses at j ∙ rw same refl) ∙ h in
        new ((=ₛ_iff dn j).0 same) (cc)
    | inr other ↦ old (sym (addresses at j ∙ rw other refl) ∙ h)
  ]

  added : dict_get cache.dict dn ≡ none → WellFormed enlarged × Found enlarged
  unfolding cached
  added at = (
    record {
      valid = added-IsValid;
      allocated = λ j a h. elim (Address-cases at j a h) [
        | new _ same ↦ omega (arith, length-append cache.entries (e ∷ []))
        | old k ↦ omega (arith, w.allocated j a k, length-append cache.entries (e ∷ []))
      ];
      unshared = λ i j a h k. elim (Address-cases at i a h) [
        | new p x ↦ elim (Address-cases at j a k) [
          | new q y ↦ sym p ∙ q
          | old y ↦ absurd (omega (arith, w.allocated j a y))
        ]
        | old x ↦ elim (Address-cases at j a k) [
          | new q y ↦ absurd (omega (arith, w.allocated i a x))
          | old y ↦ w.unshared i j a x y
        ]
      ];
    },
    λ j. elim (Bool-cases (dn =ₛ j)) [
      | inl same ↦
          let address : dict_get enlarged.dict j ≡ some (length cache.entries) =
            addresses at j ∙ rw same refl in
          rw (same, address) (entry_at-new cache.entries e)
      | inr other ↦
          let address : dict_get enlarged.dict j ≡ dict_get cache.dict j =
            addresses at j ∙ rw other refl in
          rw (other, address) (kept j (dict_get cache.dict j) refl)
    ],
  )
    where
      kept :
          (j : Bytes) (o : Option ℕ)
          → dict_get cache.dict j ≡ o
          → entry_of (cache.entries ++ e ∷ []) o ≡ entry_of cache.entries o
      kept j none h = refl
      kept j (some b) h = entry_at-old cache.entries e b (w.allocated j b h)

-- A store leaves a well-formed cache in which the DN has the new entry and every other DN the one that
-- it had, where memory is given.
pub store_lem :
    (mem : Memory) (now : ℕ) (uid : Option Bytes) (cache : Cache) (dn : Bytes)
    → mem.for_entry ≡ true
    → WellFormed cache
    → WellFormed (store mem now uid cache dn)
      × ((j : Bytes)
          → cached (store mem now uid cache dn) j
            ≡ (if dn =ₛ j then some (record { timestamp = now; uid = uid }) else cached cache j))
unfolding store
store_lem mem now uid cache dn given w =
    let e : CacheEntry = record { timestamp = now; uid = uid } in
    elim (Option-cases (dict_get cache.dict dn)) [
      | inl at ↦ rw at (added mem given cache w dn e at)
      | inr (a, at) ↦ rw at (overwritten mem given cache w dn e a at)
    ]

-- An entry is younger than a timeout, which is on; or it is not, or the timeout is off.
abbrev pub Within : ℕ → ℕ → ℕ → Type 0
Within timeout now later = (0 < timeout) × (later < now + timeout)

abbrev pub Past : ℕ → ℕ → ℕ → Type 0
Past timeout now later = (timeout ≡ 0) ⊎ (now + timeout ≤ later)

-- An answer that is given as long as a timeout says, and else a search.
abbrev pub Until : ℕ → ℕ → ℕ → Option Bytes → Look → Type 0
Until timeout now later uid r =
    (Within timeout now later → r ≡ answer uid) × (Past timeout now later → r ≡ search_needed)

-- What a look gives for a name that was stored, or for NULL.
abbrev pub Remembered : Timeouts → ℕ → ℕ → ℕ → Option Bytes → Look → Type 0
Remembered timeouts now later buflen none r = Until timeouts.negative now later none r
Remembered timeouts now later buflen (some name) r =
    (length name < buflen → Until timeouts.positive now later (some name) r)
    × (buflen ≤ length name → Until timeouts.negative now later none r)

fresh-Until :
    (timeout now later : ℕ) (uid : Option Bytes)
    → Until timeout now later uid (if is_fresh timeout now later then answer uid else search_needed)
fresh-Until timeout now later uid = (
  λ (on, young). let yes : is_fresh timeout now later ≡ true = ground arith in rw yes refl,
  λ past. elim past [
    | inl off ↦ let no : is_fresh timeout now later ≡ false = ground arith in rw no refl
    | inr late ↦ let no : is_fresh timeout now later ≡ false = ground arith in rw no refl
  ],
)

look_entry-Remembered :
    (timeouts : Timeouts) (now later buflen : ℕ) (uid : Option Bytes)
    → Remembered timeouts now later buflen uid (look_entry timeouts later buflen now uid)
look_entry-Remembered timeouts now later buflen none = fresh-Until timeouts.negative now later none
look_entry-Remembered timeouts now later buflen (some name) = (
  λ fits.
      let short : ltb (length name) buflen ≡ true = ground arith in
      rw short (fresh-Until timeouts.positive now later (some name)),
  λ full.
      let long : ltb (length name) buflen ≡ false = ground arith in
      rw long (fresh-Until timeouts.negative now later none),
)

-- A look for a DN behind its store gives the stored name, if it fits in the buffer, as long as it is
-- younger than cache_dn2uid_positive, and for NULL or a name that does not fit that there is none, as
-- long as the entry is younger than cache_dn2uid_negative; past the timeout, or where it is 0, a
-- search is needed.  A look for another DN is what it was.
pub look-store :
    (timeouts : Timeouts) (mem : Memory) (now later buflen : ℕ) (uid : Option Bytes) (cache : Cache)
    (dn : Bytes)
    → mem.for_entry ≡ true
    → WellFormed cache
    → Remembered timeouts now later buflen uid
        (look timeouts later buflen (store mem now uid cache dn) dn)
      × ((j : Bytes)
          → (dn =ₛ j) ≡ false
          → look timeouts later buflen (store mem now uid cache dn) j
            ≡ look timeouts later buflen cache j)
unfolding look
look-store timeouts mem now later buflen uid cache dn given w =
    let found = (store_lem mem now uid cache dn given w).1 in
    let entry : cached (store mem now uid cache dn) dn
        ≡ some (record { timestamp = now; uid = uid }) =
      found dn ∙ rw (=ₛ_refl dn) refl in
    (
      subst (λ o. Remembered timeouts now later buflen uid (look_at timeouts later buflen o))
          (sym entry) (look_entry-Remembered timeouts now later buflen uid),
      λ j other. ap (look_at timeouts later buflen) (found j ∙ rw other refl),
    )
