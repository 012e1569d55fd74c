-- ===== src/Tests/Answers.antt =====
-- The theorems at concrete inputs, and the operations run on them: the answers to lookups of users and
-- netgroups.
use nss_pam_ldapd.Prelude.{
  ◌<◌, ◌≡◌, refl, true, false, List, [], ◌∷◌, ◌++◌, Option, none, some, if◌then◌else◌, length,
  arith,
}
use nss_pam_ldapd.Bytes.{Bytes, bytes, ◌=ₛ◌}
use nss_pam_ldapd.Outcome.{Ensures, ok}
use nss_pam_ldapd.Attmap.{Entry}
use nss_pam_ldapd.Dict.{Memory, dict_new, dict_get}
use nss_pam_ldapd.Dict.Valid.{dict_new_lem}
use nss_pam_ldapd.Ldap.{Search, found, myldap_escape}
use nss_pam_ldapd.Ldap.Escape.{unescape, any_special, myldap_escape_lem}
use nss_pam_ldapd.Protocol.{int32, string, nslcd_result_begin, nslcd_result_end}
use nss_pam_ldapd.Protocol.RoundTrip.{client, fits}
use nss_pam_ldapd.Protocol.RoundTrip.Items.{sent}
use nss_pam_ldapd.Handler.{header, handle}
use nss_pam_ldapd.Handler.Results.{Results}
use nss_pam_ldapd.Handler.Contents.{reply_of, searches_of, handle_lem}
use nss_pam_ldapd.Netgroup
use nss_pam_ldapd.Netgroup.{write_netgroup}
use nss_pam_ldapd.Netgroup.Requests.{netgroup_all}
use nss_pam_ldapd.Nss.{Passwd, get_one, read_passwd}
use nss_pam_ldapd.Nss.RoundTrip.{passwd_items, passwd_room, get_passwd_lem}
use nss_pam_ldapd.Passwd.{Settings, write_passwd}
use nss_pam_ldapd.Passwd.Results.{Allowed}
use nss_pam_ldapd.Passwd.Answer.{write_passwd-Results}
use nss_pam_ldapd.Passwd.Requests.{Request, passwd_byname, answer_byname}
use nss_pam_ldapd.Shadow.Requests.{ShadowRequest, write_shadow}
use nss_pam_ldapd.Shadow.Answer.{entry_items, AllowedShadow, write_shadow-Results}
use nss_pam_ldapd.Passwd.Lookup.{Seen, answer_byname_lem}
use nss_pam_ldapd.Passwd.Cache.{Cache, Timeouts, cached, look, store}
use nss_pam_ldapd.Passwd.Cache.Stored.{Remembered, WellFormed, store_lem, look-store}
use nss_pam_ldapd.Bytes.Number.{is_space}
use nss_pam_ldapd.Netgroup.{write_netgroup_triple}
use nss_pam_ldapd.Netgroup.Triple.{strip, write_netgroup_triple_lem}

abbrev pub plain : Settings
plain = record {
  nss_min_uid = 1000;
  nss_uid_offset = 0;
  nss_gid_offset = 0;
  ignorecase = false;
  isvalidname = λ name. true;
  uid = bytes "uid";
  user_password = bytes "userPassword";
  uid_number = bytes "uidNumber";
  gid_number = bytes "gidNumber";
  gecos = bytes "cn";
  home_directory = bytes "homeDirectory";
  login_shell = bytes "loginShell";
  uid_sid = false;
  gid_sid = false;
}

abbrev one_value : Bytes → Option (List Bytes)
one_value name =
    if name =ₛ bytes "uid"
    then some (bytes "joe" ∷ [])
    else if name =ₛ bytes "uidNumber"
    then some (bytes "1001" ∷ [])
    else if name =ₛ bytes "gidNumber"
    then some (bytes "100" ∷ [])
    else if name =ₛ bytes "userPassword"
    then some (bytes "{crypt}hash" ∷ [])
    else none

abbrev joe : Entry
joe = record { dn = bytes "uid=joe"; values = one_value }

write_passwd-Results_example :
    Ensures
      (Results passwd_items (Allowed plain (some (bytes "joe")) 500))
      (write_passwd plain joe (some (bytes "joe")) none 500 false)
write_passwd-Results_example = write_passwd-Results plain joe (some (bytes "joe")) none 500 false tt

-- A user asks for joe in one search base.
abbrev pub by_user : Request
by_user = record {
  filter = bytes "(objectClass=posixAccount)";
  bases = bytes "dc=example" ∷ [];
  lookup = λ base filter. found (joe ∷ []) true;
  shadow_uses_ldap = false;
  uid_sid = [];
  calleruid = 500;
}

answer_byname_lem_example :
    Ensures
      (λ reply.
        Seen
          (Allowed plain (some (bytes "joe")) 500)
          (get_one passwd_byname read_passwd (client (sent reply.items []) 1024 0 0)))
      (answer_byname plain by_user (bytes "joe"))
answer_byname_lem_example = answer_byname_lem plain by_user (bytes "joe") 1024 0 (omega arith)

abbrev joe_passwd : Passwd
joe_passwd = record {
  pw_name = bytes "joe";
  pw_passwd = bytes "*";
  pw_uid = 1001;
  pw_gid = 100;
  pw_gecos = [];
  pw_dir = bytes "/home/joe";
  pw_shell = bytes "/bin/sh";
}

get_passwd_lem_example :
    get_one passwd_byname read_passwd (
      client
        (sent
          (header passwd_byname
            ++ int32 nslcd_result_begin ∷ passwd_items joe_passwd
            ++ int32 nslcd_result_end ∷ [])
          [])
        64
        0
        0)
    ≡ fits 64 (passwd_room joe_passwd) 0 (some joe_passwd) (sent (int32 nslcd_result_end ∷ []) [])
get_passwd_lem_example =
    get_passwd_lem passwd_byname joe_passwd (int32 nslcd_result_end ∷ []) [] 64 0 (omega arith)
      (omega arith, omega arith, omega arith, omega arith, omega arith, omega arith, omega arith)

starred : myldap_escape (bytes "a*") 300 ≡ some (bytes "a\\2a")
unfolding myldap_escape
starred = refl

myldap_escape_lem_example :
    (length (bytes "a\\2a") < 300)
    × (unescape (bytes "a\\2a") ≡ some (bytes "a*"))
    × (any_special (bytes "a\\2a") ≡ false)
myldap_escape_lem_example = myldap_escape_lem (bytes "a*") 300 (bytes "a\\2a") (omega arith) starred

abbrev enough : Memory
enough = record { for_table = true; for_entry = true }

abbrev empty_cache : Cache
empty_cache = record { dict = dict_new; entries = [] }

empty_cache-WellFormed : WellFormed empty_cache
empty_cache-WellFormed = record {
  valid = dict_new_lem.0;
  allocated = λ j a h. let absent : dict_get empty_cache.dict j ≡ none = dict_new_lem.1 j in cc;
  unshared = λ i j a h k. let absent : dict_get empty_cache.dict i ≡ none = dict_new_lem.1 i in cc;
}

abbrev minute : Timeouts
minute = record { positive = 60; negative = 60 }

store_lem_example :
    WellFormed (store enough 5 (some (bytes "joe")) empty_cache (bytes "uid=joe"))
    × ((j : Bytes)
        → cached (store enough 5 (some (bytes "joe")) empty_cache (bytes "uid=joe")) j ≡ (
            if bytes "uid=joe" =ₛ j
            then some (record { timestamp = 5; uid = some (bytes "joe") })
            else cached empty_cache j))
store_lem_example =
    store_lem enough 5 (some (bytes "joe")) empty_cache (bytes "uid=joe") refl
      empty_cache-WellFormed

look-store_example :
    Remembered minute 5 60 256 (some (bytes "joe")) (
      look minute 60 256
        (store enough 5 (some (bytes "joe")) empty_cache (bytes "uid=joe"))
        (bytes "uid=joe"))
    × ((j : Bytes)
        → (bytes "uid=joe" =ₛ j) ≡ false
        → look minute 60 256 (store enough 5 (some (bytes "joe")) empty_cache (bytes "uid=joe")) j
          ≡ look minute 60 256 empty_cache j)
look-store_example =
    look-store minute enough 5 60 256 (some (bytes "joe")) empty_cache (bytes "uid=joe") refl
      empty_cache-WellFormed

write_netgroup_triple_lem_example :
    write_netgroup_triple (
      bytes " "
      ++ (b'(' ∷ (bytes "a " ++ (b',' ∷ (bytes "" ++ (b',' ∷ (bytes "d" ++ (b')' ∷ []))))))))
    ≡ int32 2 ∷ string (strip (bytes "a ")) ∷ string (strip []) ∷ string (strip (bytes "d")) ∷ []
unfolding is_space
write_netgroup_triple_lem_example =
    write_netgroup_triple_lem (bytes " ") (bytes "a ") [] (bytes "d") [] (refl, tt)
      (refl, (refl, tt)) tt (refl, tt) tt

abbrev for_shadow : ShadowRequest
for_shadow = record {
  ignorecase = false;
  isvalidname = λ name. true;
  uid = bytes "uid";
  user_password = bytes "userPassword";
  attributes = record {
    last_change = bytes "shadowLastChange";
    min = bytes "shadowMin";
    max = bytes "shadowMax";
    warning = bytes "shadowWarning";
    inactive = bytes "shadowInactive";
    expire = bytes "shadowExpire";
    flag = bytes "shadowFlag";
  };
  filter = bytes "(objectClass=shadowAccount)";
  bases = bytes "dc=example" ∷ [];
  lookup = λ base filter. found (joe ∷ []) true;
  calleruid = 500;
}

write_shadow-Results_example :
    Ensures
      (Results entry_items (AllowedShadow for_shadow (some (bytes "joe"))))
      (write_shadow for_shadow joe (some (bytes "joe")))
write_shadow-Results_example = write_shadow-Results for_shadow joe (some (bytes "joe"))

abbrev netgroup_names : Netgroup.Settings
netgroup_names = record {
  ignorecase = false;
  cn = bytes "uid";
  nis_netgroup_triple = bytes "nisNetgroupTriple";
  member_nis_netgroup = bytes "memberNisNetgroup";
}

-- The first base has an entry, and the search of the second does not end well.
abbrev two_searches : Bytes → Bytes → Search
two_searches base filter = if base =ₛ bytes "dc=a" then found (joe ∷ []) true else found [] false

handle_lem_example :
    handle netgroup_all two_searches
      (λ entry. ok (write_netgroup netgroup_names entry none))
      (bytes "dc=a" ∷ bytes "dc=b" ∷ [])
      (some (bytes "(objectClass=nisNetgroup)"))
    ≡ ok (
        reply_of
          (λ entry. write_netgroup netgroup_names entry none)
          (header netgroup_all)
          false
          (searches_of
            (λ base. two_searches base (bytes "(objectClass=nisNetgroup)"))
            (bytes "dc=a" ∷ bytes "dc=b" ∷ [])))
handle_lem_example =
    handle_lem netgroup_all two_searches (λ entry. ok (write_netgroup netgroup_names entry none))
      (λ entry. write_netgroup netgroup_names entry none) (bytes "dc=a") (bytes "dc=b" ∷ [])
      (bytes "(objectClass=nisNetgroup)") (λ entry. refl)
