-- ===== src/Passwd.antt =====
-- nslcd/passwd.c: the lookup of users, and the names of users by their DNs.
pub mod Results
pub mod Answer
pub mod Requests
pub mod Lookup
pub mod Cache
pub mod Entries
use nss_pam_ldapd.Prelude.{
  ℕ, ◌+◌, ◌%◌, Bool, true, false, not, ◌&&◌, ◌||◌, List, [], ◌∷◌, ◌++◌, Option, none, some, ltb,
  leb, ◌==◌, if◌then◌else◌, length, take,
}
use nss_pam_ldapd.Bytes.{Bytes, bytes, ◌=ₛ◌}
use nss_pam_ldapd.Outcome.{Outcome, ok, fail, overrun, out_of_fuel, ◌>>=◌}
use nss_pam_ldapd.Attmap.{Entry, attmap_get_value, equal_ignoring_case}
use nss_pam_ldapd.Common.{get_userpassword}
use nss_pam_ldapd.Ids.{id_mod, id_of, some_ids_of, parse_id}
use nss_pam_ldapd.Ldap.{Search, failed, found, myldap_has_objectclass}
use nss_pam_ldapd.Protocol.{Item, int32, string, nslcd_result_begin}

-- The settings and the variables of the attribute mapping that the lookups read.  isvalidname() is a
-- regular expression of the C library.
pub record Settings : Type 0 where
  pub nss_min_uid : ℕ
  pub nss_uid_offset : ℕ
  pub nss_gid_offset : ℕ
  pub ignorecase : Bool
  pub isvalidname : Bytes → Bool
  pub uid : Bytes
  pub user_password : Bytes
  pub uid_number : Bytes
  pub gid_number : Bytes
  pub gecos : Bytes
  pub home_directory : Bytes
  pub login_shell : Bytes
  pub uid_sid : Bool
  pub gid_sid : Bool

-- STR_CMP(a, b) == 0
unfoldable pub str_equal : Bool → Bytes → Bytes → Bool
str_equal ignorecase a b = if ignorecase then equal_ignoring_case a b else a =ₛ b

-- NULL read as the empty text, which the buffer holds then
abbrev pub or_empty : Outcome Bytes → Outcome Bytes
or_empty (ok text) = ok text
or_empty fail = ok []
or_empty overrun = overrun
or_empty out_of_fuel = out_of_fuel

-- attmap_get_value() into a buffer
unfoldable pub text_of : Entry → Bytes → ℕ → Outcome Bytes
text_of entry attr buflen = or_empty (attmap_get_value entry attr buflen)

-- a name that was asked for, if any, is this one
unfoldable pub requested : Bool → Option Bytes → Bytes → Bool
unfolding str_equal
requested ignorecase none name = true
requested ignorecase (some reqname) name = str_equal ignorecase reqname name

-- the values of an attribute, where NULL and no value are alike
unfoldable pub values_of : Entry → Bytes → List Bytes
values_of entry attr = elim (entry.values attr) [ none ↦ [] | some values ↦ values ]

-- What the results of an entry share.
pub record Fields : Type 0 where
  pub passwd : Bytes
  pub gid : ℕ
  pub gecos : Bytes
  pub homedir : Bytes
  pub shell : Bytes

-- the password for root, and an unmatchable one for the others or where there is none
abbrev pub for_caller : ℕ → Outcome Bytes → Outcome Bytes
for_caller calleruid (ok passwd) = ok (if calleruid == 0 then passwd else bytes "*")
for_caller calleruid fail = ok (bytes "*")
for_caller calleruid overrun = overrun
for_caller calleruid out_of_fuel = out_of_fuel

module _ (settings : Settings) where
  abbrev pub below_min : Option ℕ → Bool
  below_min none = true
  below_min (some id) = ltb id settings.nss_min_uid

  unfoldable pub any_valid_uid : List Bytes → Outcome Bool
  unfolding id_of
  any_valid_uid [] = ok false
  any_valid_uid (v ∷ values) = do
    id ← id_of settings.uid_sid v
    if below_min id then any_valid_uid values else ok true

  unfoldable pub entry_has_valid_uid : Entry → Outcome Bool
  unfolding any_valid_uid values_of
  entry_has_valid_uid entry =
      if settings.nss_min_uid == 0
      then ok true
      else any_valid_uid (values_of entry settings.uid_number)

  -- the first name of an entry, if it is valid and fits
  unfoldable pub first_name : ℕ → List Bytes → Option Bytes
  first_name buflen [] = none
  first_name buflen (name ∷ names) =
      if settings.isvalidname name && ltb (length name) buflen then some name else none

  unfoldable pub lookup_dn2uid : Search → ℕ → Outcome (Option Bytes)
  unfolding entry_has_valid_uid first_name
  lookup_dn2uid failed buflen = ok none
  lookup_dn2uid (found [] complete) buflen = ok none
  lookup_dn2uid (found (entry ∷ entries) complete) buflen = do
    valid ← entry_has_valid_uid entry
    ok (if valid then first_name buflen (values_of entry settings.uid) else none)

  -- the value of the field for the password
  unfoldable pub passwd_field : Entry → Bool → ℕ → Outcome Bytes
  passwd_field entry shadow_uses_ldap calleruid =
      if myldap_has_objectclass entry (bytes "shadowAccount") && shadow_uses_ldap
      then ok (bytes "x")
      else for_caller calleruid (get_userpassword entry settings.user_password 256)

  -- the numbers of the answer, at most MAXUIDS_PER_ENTRY; `none` returns without an answer
  unfoldable pub passwd_uids : Entry → Option ℕ → Outcome (Option (List ℕ))
  passwd_uids entry (some requid) = ok (some (requid ∷ []))
  passwd_uids entry none =
      some_ids_of settings.uid_sid settings.nss_uid_offset 5 (values_of entry settings.uid_number)

  abbrev pub with_offset : Option ℕ → Option ℕ
  with_offset none = none
  with_offset (some gid) = some ((gid + settings.nss_gid_offset) % id_mod)

  -- the number at the end of the first value
  unfoldable pub sid_gid : List Bytes → Outcome (Option ℕ)
  sid_gid [] = ok none
  sid_gid (v ∷ values) = do gid ← id_of true v; ok (with_offset gid)

  unfoldable pub passwd_gid : Entry → Outcome (Option ℕ)
  unfolding sid_gid
  passwd_gid entry =
      if settings.gid_sid
      then sid_gid (values_of entry settings.gid_number)
      else do text ← text_of entry settings.gid_number 32; ok (with_offset (parse_id text))

  -- the last loop, for one name
  unfoldable pub write_name : Fields → Bytes → List ℕ → List Item
  write_name fields name [] = []
  write_name fields name (uid ∷ uids) =
      let rest = write_name fields name uids in
      if ltb uid settings.nss_min_uid
      then rest
      else int32 nslcd_result_begin
        ∷ string name
        ∷ string fields.passwd
        ∷ int32 uid
        ∷ int32 fields.gid
        ∷ string fields.gecos
        ∷ string fields.homedir
        ∷ string fields.shell
        ∷ rest

  -- the loop over the names
  unfoldable pub write_names : Fields → Option Bytes → List ℕ → List Bytes → List Item
  unfolding write_name requested
  write_names fields requser uids [] = []
  write_names fields requser uids (name ∷ names) =
      let rest = write_names fields requser uids names in
      if requested settings.ignorecase requser name && settings.isvalidname name
      then write_name fields name uids ++ rest
      else rest

  abbrev pub fields_with : Entry → Bytes → Option ℕ → Outcome (Option Fields)
  fields_with entry passwd none = ok none
  fields_with entry passwd (some gid) = do
    gecos ← text_of entry settings.gecos 1024
    homedir ← text_of entry settings.home_directory 256
    shell ← text_of entry settings.login_shell 64
    ok (
        some
          (record { passwd = passwd; gid = gid; gecos = gecos; homedir = homedir; shell = shell }))

  -- from the numbers on
  abbrev pub write_fields : Option Bytes → List Bytes → List ℕ → Option Fields → Outcome (List Item)
  write_fields requser names uids none = ok []
  write_fields requser names uids (some fields) = ok (write_names fields requser uids names)

  abbrev pub write_with :
      Entry → Option Bytes → List Bytes → Bytes → Option (List ℕ) → Outcome (List Item)
  write_with entry requser names passwd none = ok []
  write_with entry requser names passwd (some uids) = do
    gid ← passwd_gid entry
    fields ← fields_with entry passwd gid
    write_fields requser names uids fields

  -- from the names on
  unfoldable pub write_user :
      Entry → Option Bytes → Option ℕ → ℕ → Bool → List Bytes → Outcome (List Item)
  write_user entry requser requid calleruid shadow_uses_ldap [] = ok []
  write_user entry requser requid calleruid shadow_uses_ldap (name ∷ names) = do
    passwd ← passwd_field entry shadow_uses_ldap calleruid
    uids ← passwd_uids entry requid
    write_with entry requser (name ∷ names) passwd uids

  unfoldable pub write_passwd : Entry → Option Bytes → Option ℕ → ℕ → Bool → Outcome (List Item)
  unfolding write_user
  write_passwd entry requser requid calleruid shadow_uses_ldap =
      write_user entry requser requid calleruid shadow_uses_ldap (values_of entry settings.uid)
