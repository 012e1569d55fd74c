-- ===== src/Usermod.antt =====
-- nslcd/usermod.c: changing a user's home directory and shell.
-- What the request leads to is a trace: what is written to the client, and the binds and
-- modifications that the LDAP server is asked for, in their order.
pub mod Authority
use nss_pam_ldapd.Prelude.{
  ◌-◌, ℕ, ◌+◌, Bool, true, false, not, ◌&&◌, ◌||◌, List, [], ◌∷◌, ◌++◌, Option, none, some, ltb,
  leb, ◌==◌, if◌then◌else◌, length, take,
}
use nss_pam_ldapd.Bytes.{Bytes, bytes, head_byte, ◌=ₛ◌}

-- Result codes of the LDAP library, which the code compares with these two only.
abbrev pub ldap_success : ℕ
ldap_success = 0

abbrev pub ldap_no_such_object : ℕ
ldap_no_such_object = 32

abbrev pub ldap_unavailable : ℕ
ldap_unavailable = 52

abbrev pub nslcd_version : ℕ
nslcd_version = 2

abbrev pub nslcd_action_usermod : ℕ
nslcd_action_usermod = 0xe0001

abbrev pub nslcd_result_begin : ℕ
nslcd_result_begin = 1

abbrev pub nslcd_result_end : ℕ
nslcd_result_end = 2

-- NSLCD_USERMOD_*, the fields of a request and of its answer
abbrev pub usermod_end : ℕ
usermod_end = 0

abbrev pub usermod_result : ℕ
usermod_result = 1

abbrev pub usermod_homedir : ℕ
usermod_homedir = 7

abbrev pub usermod_shell : ℕ
usermod_shell = 8

-- BUFLEN_PASSWORD and BUFLEN_MESSAGE
abbrev pub buflen_password : ℕ
buflen_password = 256

abbrev pub buflen_message : ℕ
buflen_message = 1024

-- what uid2entry() answers: the DN of the entry, or the result code
pub data Lookup : Type 0 where
  found : Bytes → Lookup
  missing : ℕ → Lookup

-- What the handler asks of the rest of the program, of the system and of the LDAP server.
pub record Host : Type 0 where
  pub isvalidname : Bytes → Bool
  pub uid2entry : Bytes → Lookup
  pub is_directory : Bytes → Bool
  pub usershells : List Bytes
  pub has_session : Bool
  pub bind : Bytes → Bytes → ℕ
  pub modify : Bytes → List (Bytes × Bytes) → ℕ
  pub err2string : ℕ → Bytes

pub record Config : Type 0 where
  pub rootpwmoddn : Option Bytes
  pub rootpwmodpw : Option Bytes
  pub home_directory : Bytes
  pub login_shell : Bytes

pub record Request : Type 0 where
  pub username : Bytes
  pub asroot : Bool
  pub password : Bytes
  pub params : List (ℕ × Bytes)

pub data Action : Type 0 where
  write_int : ℕ → Action
  write_string : Bytes → Action
  bind_as : Bytes → Bytes → Action
  modify_entry : Bytes → List (Bytes × Bytes) → Action

-- the last value given for a parameter
unfoldable pub param : ℕ → List (ℕ × Bytes) → Option Bytes → Option Bytes
param key [] value = value
param key ((k, v) ∷ params) value = param key params (if k == key then some v else value)

unfoldable pub validate_user : Host → Bytes → Lookup
validate_user host username =
    if host.isvalidname username
    then elim (host.uid2entry username) [
      | found dn ↦ found dn
      | missing rc ↦ missing (if rc == ldap_success then ldap_no_such_object else rc)
    ]
    else missing ldap_no_such_object

unfoldable pub is_valid_homedir : Host → Bytes → Bool
is_valid_homedir host homedir = head_byte homedir == b'/' && host.is_directory homedir

unfoldable pub is_listed : List Bytes → Bytes → Bool
is_listed [] shell = false
is_listed (l ∷ shells) shell = l =ₛ shell || is_listed shells shell

unfoldable pub is_valid_shell : Host → Bytes → Bool
is_valid_shell host shell = is_listed host.usershells shell

-- ADD_MOD
unfoldable pub add_mod : Bytes → Option Bytes → List (Bytes × Bytes) → List (Bytes × Bytes)
add_mod attribute none mods = mods
add_mod attribute (some value) mods =
    if head_byte attribute == b'"' then mods else (attribute, value) ∷ mods

-- the list of modifications that change() builds
unfoldable pub modifications : Config → Option Bytes → Option Bytes → List (Bytes × Bytes)
unfolding add_mod
modifications config homedir shell =
    add_mod config.home_directory homedir (add_mod config.login_shell shell [])

-- Whether a value may be set, or the caller is told that it may not.
unfoldable pub check_value : Bool → (Bytes → Bool) → Option Bytes → Option Bytes
check_value isroot valid none = none
check_value isroot valid (some value) =
    if isroot then some value else if valid value then some value else none

unfoldable pub complaint : Bool → (Bytes → Bool) → ℕ → Bytes → Option Bytes → List Action
complaint isroot valid field message none = []
complaint isroot valid field message (some value) =
    if isroot then [] else if valid value then [] else write_int field ∷ write_string message ∷ []

-- the DN and the password to bind with, or `none` where the protocol is broken off
unfoldable pub credentials : Config → Request → Bool → Bytes → Option (Bytes × Bytes)
credentials config request isroot userdn =
    if request.asroot
    then elim config.rootpwmoddn [
      | none ↦ none
      | some dn ↦
          if request.password =ₛ [] && isroot
          then elim config.rootpwmodpw [
            | none ↦ some (dn, request.password)
            | some pw ↦ if leb buflen_password (length pw) then none else some (dn, pw)
          ]
          else some (dn, request.password)
    ]
    else some (userdn, request.password)

-- get_session() and change(), with the result code
unfoldable pub perform : Host → Bytes → Bytes → Bytes → List (Bytes × Bytes) → ℕ × List Action
perform host binddn password userdn mods =
    if host.has_session
    then if host.bind binddn password == ldap_success
      then (host.modify userdn mods, bind_as binddn password ∷ modify_entry userdn mods ∷ [])
      else (host.bind binddn password, bind_as binddn password ∷ [])
    else (ldap_unavailable, [])

unfoldable pub respond : Host → ℕ → List Action
respond host rc =
    if rc == ldap_success
    then write_int usermod_end ∷ write_int nslcd_result_end ∷ []
    else write_int usermod_result
      ∷ write_string (take (buflen_message - 2) (bytes "change failed: " ++ host.err2string rc))
      ∷ write_int usermod_end
      ∷ write_int nslcd_result_end
      ∷ []

-- the part behind the checks of the user and of the credentials
unfoldable pub change_user : Host → Config → Request → Bool → Bytes → Bytes × Bytes → List Action
change_user host config request isroot userdn (binddn, password) =
    let homedir = param usermod_homedir request.params none in
    let shell = param usermod_shell request.params none in
    let mods =
      modifications config (check_value isroot (is_valid_homedir host) homedir)
        (check_value isroot (is_valid_shell host) shell) in
    let (rc, actions) = perform host binddn password userdn mods in
    write_int nslcd_result_begin
    ∷ (complaint isroot (is_valid_homedir host) usermod_homedir (bytes "invalid directory") homedir
        ++ (complaint isroot (is_valid_shell host) usermod_shell (bytes "invalid shell") shell
            ++ (actions ++ respond host rc)))

abbrev header : List Action
header = write_int nslcd_version ∷ write_int nslcd_action_usermod ∷ []

-- with the credentials, or without: the protocol is broken off
unfoldable pub with_credentials :
    Host → Config → Request → Bool → Bytes → Option (Bytes × Bytes) → List Action × Bool
with_credentials host config request isroot userdn none = (header, false)
with_credentials host config request isroot userdn (some c) =
    (header ++ change_user host config request isroot userdn c, true)

-- for a user that is not found we just say no result, otherwise break the protocol
unfoldable pub with_user : Host → Config → Request → Bool → Lookup → List Action × Bool
with_user host config request isroot (missing rc) =
    (header ++ (if rc == ldap_no_such_object then write_int nslcd_result_end ∷ [] else []), false)
with_user host config request isroot (found userdn) =
    with_credentials host config request isroot userdn (credentials config request isroot userdn)

-- The trace, and whether the result is 0; otherwise it is -1.
unfoldable pub nslcd_usermod : Host → Config → ℕ → Request → List Action × Bool
nslcd_usermod host config calleruid request =
    with_user host config request (calleruid == 0 && request.asroot)
      (validate_user host request.username)
