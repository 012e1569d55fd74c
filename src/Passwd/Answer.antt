-- ===== src/Passwd/Answer.antt =====
-- nslcd/passwd.c: the results that write_passwd() writes.
use nss_pam_ldapd.Prelude.{
  drop, length-drop, ℕ, ◌<◌, length, refl, inl, inr, Bool, true, ◌&&◌, List, [], ◌∷◌, Option, none,
  some, ◌==◌, arith, Bool-cases, All,
}
use nss_pam_ldapd.Bytes.{Bytes, bytes}
use nss_pam_ldapd.Outcome.{Outcome, Ensures, holds, fails, overruns, Ensures-bind, Ensures-if}
use nss_pam_ldapd.Attmap.{Entry}
use nss_pam_ldapd.Ids.{parse_id}
use nss_pam_ldapd.Ids.Bounds.{some_ids_of-Ensures, Small, Smalls, AllSmall, id_of-Ensures}
use nss_pam_ldapd.Attmap.Lookup.{Fits, attmap_get_value-Ensures}
use nss_pam_ldapd.Ldap.{myldap_has_objectclass}
use nss_pam_ldapd.Common.{get_userpassword, strip_scheme, has_prefix_ignoring_case}
use nss_pam_ldapd.Nss.RoundTrip.{passwd_items}
use nss_pam_ldapd.Passwd.{
  Settings, or_empty, for_caller, text_of, with_offset, sid_gid, fields_with, write_fields,
  write_with, write_user, Fields, values_of, passwd_field, passwd_uids, passwd_gid, write_passwd,
}
use nss_pam_ldapd.Handler.Results.{Results}
use nss_pam_ldapd.Passwd.Results.{Allowed, Unreadable, Shared, write_names-Results}

or_empty-Ensures :
    {n : ℕ} {r : Outcome Bytes} → 0 < n → Ensures (Fits n) r → Ensures (Fits n) (or_empty r)
or_empty-Ensures h (holds k) = holds k
or_empty-Ensures h fails = holds h
or_empty-Ensures h overruns = overruns

-- A password field that a caller may see, and that fits in its buffer.
abbrev Password : ℕ → Bytes → Type 0
Password calleruid passwd = Unreadable calleruid passwd × (length passwd < 256)

drop-Fits : (m n : ℕ) (s : Bytes) → Fits n s → Fits n (drop m s)
drop-Fits m n s h = omega (arith, length-drop m s)

strip_scheme-Fits : (s : Bytes) → Fits 256 s → Fits 256 (strip_scheme s)
unfolding strip_scheme
strip_scheme-Fits s h = elim (Bool-cases (has_prefix_ignoring_case (bytes "{crypt}") s)) [
  | inl crypt ↦ rw crypt (drop-Fits 7 256 s h)
  | inr other ↦ elim (Bool-cases (has_prefix_ignoring_case (bytes "crypt$") s)) [
    | inl crypt ↦ rw (other, crypt) (drop-Fits 6 256 s h)
    | inr neither ↦ rw (other, neither) h
  ]
]

pub get_userpassword-Ensures :
    (entry : Entry) (attr : Bytes) → Ensures (Fits 256) (get_userpassword entry attr 256)
unfolding get_userpassword
get_userpassword-Ensures entry attr =
    Ensures-bind (attmap_get_value-Ensures entry attr 256)
      (λ text fits. holds (strip_scheme-Fits text fits))

for_caller-Ensures :
    (calleruid : ℕ) {r : Outcome Bytes}
    → Ensures (Fits 256) r
    → Ensures (Password calleruid) (for_caller calleruid r)
for_caller-Ensures calleruid (holds k) = elim (Bool-cases (calleruid == 0)) [
  | inl root ↦ rw root (holds ((λ other. absurd (ground (arith, other))), k))
  | inr user ↦ rw user (holds ((λ other. inr refl), omega arith))
]
for_caller-Ensures calleruid fails = holds ((λ other. inr refl), omega arith)
for_caller-Ensures calleruid overruns = overruns

text_of-Ensures :
    (entry : Entry) (attr : Bytes) (buflen : ℕ)
    → 0 < buflen
    → Ensures (Fits buflen) (text_of entry attr buflen)
unfolding text_of
text_of-Ensures entry attr buflen h =
    or_empty-Ensures h (attmap_get_value-Ensures entry attr buflen)

module _ (settings : Settings) (entry : Entry) where
  passwd_field-Ensures :
      (shadow_uses_ldap : Bool) (calleruid : ℕ)
      → Ensures (Password calleruid) (passwd_field settings entry shadow_uses_ldap calleruid)
  unfolding passwd_field
  passwd_field-Ensures shadow_uses_ldap calleruid =
      Ensures-if (myldap_has_objectclass entry (bytes "shadowAccount") && shadow_uses_ldap)
        (λ _. holds ((λ _. inl refl), omega arith))
        (λ _. for_caller-Ensures calleruid (get_userpassword-Ensures entry settings.user_password))

  passwd_uids-Ensures :
      (requid : Option ℕ) → Smalls requid → Ensures AllSmall (passwd_uids settings entry requid)
  unfolding passwd_uids
  passwd_uids-Ensures (some requid) h = holds (h, tt)
  passwd_uids-Ensures none h =
      some_ids_of-Ensures settings.uid_sid settings.nss_uid_offset 5
        (values_of entry settings.uid_number)

  with_offset-Smalls : (o : Option ℕ) → Smalls (with_offset settings o)
  with_offset-Smalls none = tt
  with_offset-Smalls (some gid) = omega arith

  sid_gid-Ensures : (values : List Bytes) → Ensures Smalls (sid_gid settings values)
  unfolding sid_gid
  sid_gid-Ensures [] = holds tt
  sid_gid-Ensures (v ∷ values) =
      Ensures-bind (id_of-Ensures true v) (λ gid _. holds (with_offset-Smalls gid))

  passwd_gid-Ensures : Ensures Smalls (passwd_gid settings entry)
  unfolding passwd_gid
  passwd_gid-Ensures =
      Ensures-if settings.gid_sid (λ _. sid_gid-Ensures (values_of entry settings.gid_number))
        (λ _.
          Ensures-bind (text_of-Ensures entry settings.gid_number 32 (omega arith))
            (λ text _. holds (with_offset-Smalls (parse_id text))))

  AnyShared : ℕ → Option Fields → Type 0
  AnyShared calleruid none = Unit
  AnyShared calleruid (some fields) = Shared calleruid fields

  fields_with-Ensures :
      (calleruid : ℕ) (passwd : Bytes) (gid : Option ℕ)
      → Password calleruid passwd
      → Smalls gid
      → Ensures (AnyShared calleruid) (fields_with settings entry passwd gid)
  unfolding AnyShared
  fields_with-Ensures calleruid passwd none u s = holds tt
  fields_with-Ensures calleruid passwd (some gid) u s =
      Ensures-bind (text_of-Ensures entry settings.gecos 1024 (omega arith)) (λ gecos l1.
        Ensures-bind (text_of-Ensures entry settings.home_directory 256 (omega arith))
          (λ homedir l2.
            Ensures-bind (text_of-Ensures entry settings.login_shell 64 (omega arith))
              (λ shell l3. holds (u.0, u.1, s, l1, l2, l3))))

  module _ (requser : Option Bytes) (calleruid : ℕ) where
    write_fields-Ensures :
        (names : List Bytes) (uids : List ℕ) (fields : Option Fields)
        → All Small uids
        → AnyShared calleruid fields
        → Ensures
            (Results passwd_items (Allowed settings requser calleruid))
            (write_fields settings requser names uids fields)
    unfolding AnyShared
    write_fields-Ensures names uids none s f = holds ([], refl, tt)
    write_fields-Ensures names uids (some fields) s f =
        holds (write_names-Results settings fields requser calleruid f uids names s)

    write_with-Ensures :
        (names : List Bytes) (passwd : Bytes) (uids : Option (List ℕ))
        → Password calleruid passwd
        → AllSmall uids
        → Ensures
            (Results passwd_items (Allowed settings requser calleruid))
            (write_with settings entry requser names passwd uids)
    write_with-Ensures names passwd none u s = holds ([], refl, tt)
    write_with-Ensures names passwd (some uids) u s = Ensures-bind passwd_gid-Ensures (λ gid g.
        Ensures-bind (fields_with-Ensures calleruid passwd gid u g)
          (λ fields f. write_fields-Ensures names uids fields s f))

    write_user-Ensures :
        (requid : Option ℕ) (shadow_uses_ldap : Bool) (names : List Bytes)
        → Smalls requid
        → Ensures
            (Results passwd_items (Allowed settings requser calleruid))
            (write_user settings entry requser requid calleruid shadow_uses_ldap names)
    unfolding write_user
    write_user-Ensures requid shadow_uses_ldap [] h = holds ([], refl, tt)
    write_user-Ensures requid shadow_uses_ldap (name ∷ names) h =
        Ensures-bind (passwd_field-Ensures shadow_uses_ldap calleruid) (λ passwd u.
          Ensures-bind (passwd_uids-Ensures requid h)
            (λ uids s. write_with-Ensures (name ∷ names) passwd uids u s))

-- What write_passwd() writes is a list of results.  Each is for a valid name that was asked for, with
-- a number that is not below nss_min_uid, numbers of 32 bits, texts that fit in the buffers, and, for a
-- caller other than root, a password field of "x" or "*".  The fuel for the expressions is enough;
-- nothing is said where a text is read behind its end.
pub write_passwd-Results :
    (settings : Settings) (entry : Entry) (requser : Option Bytes) (requid : Option ℕ)
    (calleruid : ℕ) (shadow_uses_ldap : Bool)
    → Smalls requid
    → Ensures
        (Results passwd_items (Allowed settings requser calleruid))
        (write_passwd settings entry requser requid calleruid shadow_uses_ldap)
unfolding write_passwd
write_passwd-Results settings entry requser requid calleruid shadow_uses_ldap h =
    write_user-Ensures settings entry requser calleruid requid shadow_uses_ldap
      (values_of entry settings.uid) h
