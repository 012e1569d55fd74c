-- ===== src/Passwd/Cache.antt =====
-- nslcd/passwd.c: dn2uid(), the name of a user by a DN, with the cache of the searches.
pub mod Stored
use nss_pam_ldapd.Prelude.{
  zero, suc, ℕ, ◌+◌, Bool, true, false, ◌&&◌, List, [], ◌∷◌, ◌++◌, Option, none, some, ltb, ◌==◌,
  if◌then◌else◌, length, set,
}
use nss_pam_ldapd.Bytes.{Bytes, is_empty}
use nss_pam_ldapd.Outcome.{Outcome, ok, ◌>>=◌}
use nss_pam_ldapd.Dict.{Dict, Memory, dict_get, dict_put}
use nss_pam_ldapd.Ldap.{Library, Search, myldap_cpy_rdn_value}
use nss_pam_ldapd.Passwd.{Settings, lookup_dn2uid}

-- struct dn2uid_cache_entry, where a uid of NULL is `none`
pub record CacheEntry : Type 0 where
  pub timestamp : ℕ
  pub uid : Option Bytes

-- The dictionary has the addresses of the entries, which are never freed.
pub record Cache : Type 0 where
  pub dict : Dict ℕ
  pub entries : List CacheEntry

-- the settings cache_dn2uid_positive and cache_dn2uid_negative, in seconds
pub record Timeouts : Type 0 where
  pub positive : ℕ
  pub negative : ℕ

abbrev pub entry_at : List CacheEntry → ℕ → Option CacheEntry
entry_at [] a = none
entry_at (e ∷ entries) zero = some e
entry_at (e ∷ entries) (suc a) = entry_at entries a

abbrev pub entry_of : List CacheEntry → Option ℕ → Option CacheEntry
entry_of entries none = none
entry_of entries (some a) = entry_at entries a

-- dict_get() and the entry at the address
unfoldable pub cached : Cache → Bytes → Option CacheEntry
cached cache dn = entry_of cache.entries (dict_get cache.dict dn)

-- What the first look in the cache gives: an answer, or that a search is needed.
pub data Look : Type 0 where
  answer : Option Bytes → Look
  search_needed : Look

-- An entry that is not too old, where the setting is on.
abbrev pub is_fresh : ℕ → ℕ → ℕ → Bool
is_fresh timeout timestamp now = ltb 0 timeout && ltb now (timestamp + timeout)

abbrev pub look_negative : Timeouts → ℕ → ℕ → Look
look_negative timeouts timestamp now =
    if is_fresh timeouts.negative timestamp now then answer none else search_needed

-- the test of an entry; a name that does not fit in the buffer is taken for a negative entry
abbrev pub look_entry : Timeouts → ℕ → ℕ → ℕ → Option Bytes → Look
look_entry timeouts now buflen timestamp none = look_negative timeouts timestamp now
look_entry timeouts now buflen timestamp (some uid) =
    if ltb (length uid) buflen
    then if is_fresh timeouts.positive timestamp now then answer (some uid) else search_needed
    else look_negative timeouts timestamp now

abbrev pub look_at : Timeouts → ℕ → ℕ → Option CacheEntry → Look
look_at timeouts now buflen none = search_needed
look_at timeouts now buflen (some e) = look_entry timeouts now buflen e.timestamp e.uid

unfoldable pub look : Timeouts → ℕ → ℕ → Cache → Bytes → Look
unfolding cached
look timeouts now buflen cache dn = look_at timeouts now buflen (cached cache dn)

-- a new entry in the dictionary, at the next address, or an entry that is overwritten in its place
abbrev pub store_at : Memory → Cache → Bytes → CacheEntry → Option ℕ → Cache
store_at mem cache dn e (some a) = record cache { entries = set cache.entries a e }
store_at mem cache dn e none = record {
  dict = (dict_put mem cache.dict dn (some (length cache.entries))).1;
  entries = cache.entries ++ e ∷ [];
}

-- The end of dn2uid(), which stores what the search gave.  malloc() and strdup() give memory.
unfoldable pub store : Memory → ℕ → Option Bytes → Cache → Bytes → Cache
store mem now uid cache dn =
    store_at mem cache dn (record { timestamp = now; uid = uid }) (dict_get cache.dict dn)

-- The times at which dn2uid() asks for the time, and what other threads do to the cache while it
-- searches without the lock.
pub record Run : Type 0 where
  pub first_time : ℕ
  pub second_time : ℕ
  pub others : Cache → Cache
  pub found : Search

module _ (settings : Settings) (timeouts : Timeouts) (mem : Memory) (run : Run) where
  abbrev after_look : Bytes → ℕ → Cache → Look → Outcome (Option Bytes × Cache)
  after_look dn buflen cache (answer uid) = ok (uid, cache)
  after_look dn buflen cache search_needed = do
    uid ← lookup_dn2uid settings run.found buflen
    ok (uid, store mem run.second_time uid (run.others cache) dn)

  abbrev without_cache : Bytes → ℕ → Cache → Outcome (Option Bytes × Cache)
  without_cache dn buflen cache = do uid ← lookup_dn2uid settings run.found buflen; ok (uid, cache)

  -- from the part of the DN that may be a name on
  abbrev after_rdn : Bytes → ℕ → Cache → Option Bytes → Outcome (Option Bytes × Cache)
  after_rdn dn buflen cache (some name) =
      ok (if settings.isvalidname name then some name else none, cache)
  after_rdn dn buflen cache none =
      if (timeouts.positive == 0) && (timeouts.negative == 0)
      then without_cache dn buflen cache
      else after_look dn buflen cache (look timeouts run.first_time buflen cache dn)

  unfoldable pub dn2uid : Library → Bytes → ℕ → Cache → Outcome (Option Bytes × Cache)
  unfolding look store
  dn2uid library dn buflen cache =
      if is_empty dn
      then ok (none, cache)
      else after_rdn dn buflen cache (myldap_cpy_rdn_value library dn settings.uid buflen)
