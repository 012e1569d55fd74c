-- ===== src/Tests/Lookups.antt =====
-- The theorems at concrete inputs, and the operations run on them: the daemon's lookups.
use nss_pam_ldapd.Prelude.{
  ◌<◌, ◌+◌, length, Option, false, ◌&&◌, not, ◌/◌, ◌↔◌, if◌then◌else◌, ℕ, ◌≡◌, ◌≢◌, refl, true,
  ◌||◌, List, [], ◌∷◌, ◌++◌, none, some, arith, All,
}
use nss_pam_ldapd.Bytes.{Bytes, bytes, ◌=ₛ◌, contains}
use nss_pam_ldapd.Bytes.Number.{strtoul, skip_space, is_digit, is_space}
use nss_pam_ldapd.Outcome.{advance, ok, overrun, out_of_fuel}
use nss_pam_ldapd.Expr.{program}
use nss_pam_ldapd.Attmap
use nss_pam_ldapd.Attmap.{attmap_get_value, attmap_get_var, equal_ignoring_case}
use nss_pam_ldapd.Attmap.Lookup.{
  Fits, attmap_get_value-Fits, map_of, attribute_of, attmap_get_var_lem,
}
use nss_pam_ldapd.Common.{binsid2id}
use nss_pam_ldapd.Common.Parts.{Number}
use nss_pam_ldapd.Common.Search.{sid_room, sid2search}
use nss_pam_ldapd.Common.Sid.{encode, binsid2id_lem}
use nss_pam_ldapd.Prelude.Int.{pos, ◌-ℤ◌}
use nss_pam_ldapd.Shadow.{to_date}
use nss_pam_ldapd.Shadow.Dates.{to_date_lem}
use nss_pam_ldapd.Bytes.Number.Digits.{Digits, decimal}
use nss_pam_ldapd.Nsswitch.Lines.{Line, texts, any_ldap, has_line, last_ldap, shadow_uses_ldap_lem}
use nss_pam_ldapd.Nsswitch.{shadow_uses_ldap}
use nss_pam_ldapd.Nsswitch
use nss_pam_ldapd.Nsswitch.{has_service}
use nss_pam_ldapd.Nsswitch.Services.{IsWord, service_list, has_service_lem}
use nss_pam_ldapd.Usermod.{Host, Config, Request, missing, found, nslcd_usermod}
use nss_pam_ldapd.Usermod.Authority.{Permitted, usermod_authority}
use nss_pam_ldapd.Nsswitch.{nsswitch_shadow_uses_ldap}
use nss_pam_ldapd.Nsswitch.Freshness.{
  Steps, lookup, reload, done, nsswitch_shadow_uses_ldap_lem, nsswitch_check_reload_lem,
}

ldap_word : All (λ c. Nsswitch.is_alnum c ≡ true) (bytes "ldap")
unfolding Nsswitch.is_alnum
ldap_word = (refl, (refl, (refl, (refl, tt))))

files_word : All (λ c. Nsswitch.is_alnum c ≡ true) (bytes "files")
unfolding Nsswitch.is_alnum
files_word = (refl, (refl, (refl, (refl, (refl, tt)))))

files_ldap : All IsWord (bytes "files" ∷ bytes "ldap" ∷ [])
files_ldap = (
  record { letters = files_word; not_empty = omega arith },
  (record { letters = ldap_word; not_empty = omega arith }, tt),
)

has_service_lem_example :
    has_service (some (service_list (bytes "files" ∷ bytes "ldap" ∷ []))) (bytes "ldap")
    ≡ ok (contains (bytes "files" ∷ bytes "ldap" ∷ []) (bytes "ldap"))
has_service_lem_example =
    has_service_lem (bytes "ldap") (bytes "files" ∷ bytes "ldap" ∷ []) ldap_word files_ldap

-- White space behind an action makes the loop step over the NUL.
space_behind_action :
    has_service (some (bytes "files [NOTFOUND=return]\n")) (bytes "ldap") ≡ overrun
unfolding has_service Nsswitch.service_loop Nsswitch.service_step Nsswitch.skip_action
    Nsswitch.skip_to_bracket Nsswitch.skip_alnum Nsswitch.is_service Nsswitch.has_prefix
    Nsswitch.is_alnum skip_space advance is_digit is_space Nsswitch.fgets
space_behind_action = refl

abbrev plain_host : Host
plain_host = record {
  isvalidname = λ name. true;
  uid2entry = λ name. if name =ₛ bytes "joe" then found (bytes "uid=joe") else missing 32;
  is_directory = λ path. true;
  usershells = bytes "/bin/sh" ∷ [];
  has_session = true;
  bind = λ dn pw. 0;
  modify = λ dn mods. 0;
  err2string = λ rc. bytes "error";
}

abbrev plain_config : Config
plain_config = record {
  rootpwmoddn = some (bytes "cn=admin");
  rootpwmodpw = some (bytes "secret");
  home_directory = bytes "homeDirectory";
  login_shell = bytes "loginShell";
}

-- root changes the shell of a user
abbrev by_root : Request
by_root = record {
  username = bytes "joe";
  asroot = true;
  password = [];
  params = (8, bytes "/bin/odd") ∷ [];
}

usermod_authority_example :
    All
      (Permitted plain_host plain_config 0 by_root)
      (nslcd_usermod plain_host plain_config 0 by_root).0
usermod_authority_example = usermod_authority plain_host plain_config 0 by_root

abbrev john : Attmap.Entry
john = record {
  dn = bytes "uid=john";
  values = λ name. if name =ₛ bytes "uid" then some (bytes "john" ∷ []) else none;
}

attmap_get_value-Fits_example :
    (attmap_get_value john (bytes "\"/home/$uid\"") 64 ≢ out_of_fuel)
    × ((text : Bytes) → attmap_get_value john (bytes "\"/home/$uid\"") 64 ≡ ok text → Fits 64 text)
attmap_get_value-Fits_example = attmap_get_value-Fits john (bytes "\"/home/$uid\"") 64

home_directory : attmap_get_value john (bytes "\"/home/$uid\"") 64 ≡ ok (bytes "/home/john")
unfolding program ◌=ₛ◌ attmap_get_value Attmap.strip_quote Attmap.last_byte Attmap.entry_expand
    Attmap.equal_ignoring_case Attmap.to_lower
home_directory = refl

attmap_get_var_lem_example :
    (attmap_get_var Attmap.passwd (bytes "UIDnumber") ≡ some Attmap.passwd_uid_number) ↔ (
      (map_of Attmap.passwd_uid_number ≡ Attmap.passwd)
      × (equal_ignoring_case (bytes "UIDnumber") (attribute_of Attmap.passwd_uid_number) ≡ true))
attmap_get_var_lem_example =
    attmap_get_var_lem Attmap.passwd (bytes "UIDnumber") Attmap.passwd_uid_number

abbrev passwd_only : List Line
passwd_only =
    record { database = bytes "passwd"; services = bytes "files" ∷ bytes "ldap" ∷ [] } ∷ []

passwd_word : All (λ c. Nsswitch.is_alnum c ≡ true) (bytes "passwd")
unfolding Nsswitch.is_alnum
passwd_word = (refl, (refl, (refl, (refl, (refl, (refl, tt))))))

shadow_uses_ldap_lem_example :
    shadow_uses_ldap (some (texts passwd_only))
    ≡ ok (
        any_ldap (bytes "shadow") passwd_only
        || (not (has_line (bytes "shadow") passwd_only)
            && last_ldap (bytes "passwd") false passwd_only))
shadow_uses_ldap_lem_example =
    shadow_uses_ldap_lem passwd_only
      (record { is_name = passwd_word; are_words = files_ldap; fits = omega arith }, tt)

passwd_decides :
    (any_ldap (bytes "shadow") passwd_only
      || (not (has_line (bytes "shadow") passwd_only)
          && last_ldap (bytes "passwd") false passwd_only))
    ≡ true
unfolding any_ldap has_line last_ldap ◌=ₛ◌ contains
passwd_decides = refl

abbrev authority : Bytes
authority = 0 ∷ 0 ∷ 0 ∷ 0 ∷ 0 ∷ 5 ∷ []

binsid2id_lem_example : binsid2id (encode 1 authority (21 ∷ 7 ∷ 1105 ∷ [])) ≡ ok 1105
binsid2id_lem_example =
    binsid2id_lem 1 authority (21 ∷ 7 ∷ []) 1105 refl (omega arith) (omega arith)

-- Two parts behind the authority, and a third that is counted for the id added later.
sid_of_domain :
    sid2search (bytes "S-1-5-21-7")
    ≡ ok (bytes "\\01\\03\\00\\00\\00\\00\\00\\05\\15\\00\\00\\00\\07\\00\\00\\00")
unfolding sid2search strtoul advance
sid_of_domain = refl

-- Other characters than digits and dashes are parts too, and no memory is asked for them.
sid_with_letters :
    (text : Bytes) × (sid2search (bytes "S-1-5-21xyz") ≡ ok text)
    × (sid_room (bytes "S-1-5-21xyz") < length text + 1)
unfolding sid2search strtoul sid_room advance
sid_with_letters = (_, refl, omega arith)

-- a time in the year 2012
high-Digits : Digits (bytes "130000000")
unfolding is_digit
high-Digits = (refl, (refl, (refl, (refl, (refl, (refl, (refl, (refl, (refl, tt)))))))))

low-Digits : Digits (bytes "000000000")
unfolding is_digit
low-Digits = (refl, (refl, (refl, (refl, (refl, (refl, (refl, (refl, (refl, tt)))))))))

to_date_lem_example :
    to_date (bytes "130000000" ++ bytes "000000000") (bytes "pwdLastSet")
    ≡ pos (decimal 0 (bytes "130000000" ++ bytes "000000000") / 864000000000) -ℤ pos 134774
unfolding decimal
to_date_lem_example =
    to_date_lem (bytes "130000000") (bytes "000000000") high-Digits low-Digits (omega arith)
      (omega arith) refl (omega arith)

-- a file of one line, and a cache without an answer
abbrev shadow_file : Option (List Bytes)
shadow_file = some (bytes "shadow: ldap\n" ∷ [])

abbrev no_answer : Nsswitch.Cache
no_answer = record { uses_ldap = none; lastcheck = 0; mtime = 0 }

abbrev known_answer : ℕ → Nsswitch.Cache
known_answer t = record { uses_ldap = some true; lastcheck = t; mtime = 0 }

loads : (t : ℕ) → nsswitch_shadow_uses_ldap t shadow_file no_answer ≡ ok (true, known_answer t)
unfolding nsswitch_shadow_uses_ldap shadow_uses_ldap Nsswitch.read_lines Nsswitch.find_db
    has_service Nsswitch.service_loop Nsswitch.service_step Nsswitch.is_service Nsswitch.has_prefix
    Nsswitch.is_alnum skip_space advance is_digit is_space Nsswitch.fgets
loads t = refl

load_and_wait : Steps shadow_file no_answer (known_answer 10)
unfolding Nsswitch.nsswitch_check_reload
load_and_wait = lookup 10 true (loads 10) (reload 20 none done)

keeps :
    (t : ℕ) → nsswitch_shadow_uses_ldap t shadow_file (known_answer 10) ≡ ok (true, known_answer 10)
unfolding nsswitch_shadow_uses_ldap
keeps t = refl

nsswitch_shadow_uses_ldap_lem_example : shadow_uses_ldap shadow_file ≡ ok true
nsswitch_shadow_uses_ldap_lem_example =
    nsswitch_shadow_uses_ldap_lem shadow_file no_answer (known_answer 10) (known_answer 10) 30 true
      (record { right = λ b e. absurd (cc) }) load_and_wait (keeps 30)

-- an old answer, from before the file had its line
abbrev old_answer : Nsswitch.Cache
old_answer = record { uses_ldap = some false; lastcheck = 10; mtime = 3 }

newly_loaded :
    nsswitch_shadow_uses_ldap 101 shadow_file
      (record { uses_ldap = none; lastcheck = 100; mtime = 99 })
    ≡ ok (true, record { uses_ldap = some true; lastcheck = 101; mtime = 99 })
unfolding nsswitch_shadow_uses_ldap shadow_uses_ldap Nsswitch.read_lines Nsswitch.find_db
    has_service Nsswitch.service_loop Nsswitch.service_step Nsswitch.is_service Nsswitch.has_prefix
    Nsswitch.is_alnum skip_space advance is_digit is_space Nsswitch.fgets
newly_loaded = refl

forgets :
    Nsswitch.nsswitch_check_reload 100 (some 99) old_answer
    ≡ record { uses_ldap = none; lastcheck = 100; mtime = 99 }
unfolding Nsswitch.nsswitch_check_reload Nsswitch.restat
forgets = refl

nsswitch_check_reload_lem_example : shadow_uses_ldap shadow_file ≡ ok true
unfolding Nsswitch.nsswitch_check_reload Nsswitch.restat
nsswitch_check_reload_lem_example =
    nsswitch_check_reload_lem shadow_file old_answer
      (record { uses_ldap = none; lastcheck = 100; mtime = 99 })
      (record { uses_ldap = some true; lastcheck = 101; mtime = 99 }) 100 101 (some 99) true
      (omega arith) (λ e. absurd (omega arith)) done newly_loaded
