-- ===== src/Attmap.antt =====
-- nslcd/attmap.c: which LDAP attribute or expression stands for an attribute of a map.
pub mod Lookup
use nss_pam_ldapd.Prelude.{
  ℕ, ◌+◌, Bool, true, false, not, ◌&&◌, List, [], ◌∷◌, Option, none, some, leb, ◌==◌, if◌then◌else◌,
  length,
}
use nss_pam_ldapd.Bytes.{Bytes, bytes, head_byte, tail_bytes, ◌=ₛ◌}
use nss_pam_ldapd.Outcome.{Outcome, ok, fail, overrun, ◌>>=◌}
use nss_pam_ldapd.Dict.{Memory}
use nss_pam_ldapd.Set.{Set, set_add}
use nss_pam_ldapd.Expr.{Expander, expr_parse}
use nss_pam_ldapd.Expr.Vars.{expr_vars}

unfoldable pub to_lower : ℕ → ℕ
to_lower c = if leb b'A' c && leb c b'Z' then c + 32 else c

-- strcasecmp(a, b) == 0
unfoldable pub equal_ignoring_case : Bytes → Bytes → Bool
unfolding to_lower
equal_ignoring_case [] [] = true
equal_ignoring_case [] (d ∷ t) = false
equal_ignoring_case (c ∷ s) [] = false
equal_ignoring_case (c ∷ s) (d ∷ t) = to_lower c == to_lower d && equal_ignoring_case s t

-- enum ldap_map_selector
pub data Selector : Type 0 where
  aliases ethers group hosts netgroup networks passwd protocols rpc services shadow : Selector
  nfsidmap no_map : Selector

-- the map of a variable <map>_bases, <map>_scope or <map>_filter
unfoldable pub table_of : Selector → Option Selector
table_of nfsidmap = none
table_of no_map = none
table_of map = some map

unfoldable pub base_get_var : Selector → Option Selector
unfolding table_of
base_get_var map = table_of map

unfoldable pub scope_get_var : Selector → Option Selector
unfolding table_of
scope_get_var map = table_of map

unfoldable pub filter_get_var : Selector → Option Selector
unfolding table_of
filter_get_var map = table_of map

-- The variables attmap_<map>_<attribute>.
pub data Var : Type 0 where
  alias_cn alias_rfc822mail_member : Var
  ether_cn ether_mac_address : Var
  group_cn group_user_password group_gid_number group_member_uid group_member : Var
  host_cn host_ip_host_number : Var
  netgroup_cn netgroup_nis_netgroup_triple netgroup_member_nis_netgroup : Var
  network_cn network_ip_network_number : Var
  passwd_uid passwd_user_password passwd_uid_number passwd_gid_number passwd_gecos
        passwd_home_directory passwd_login_shell :
      Var
  protocol_cn protocol_ip_protocol_number : Var
  rpc_cn rpc_onc_rpc_number : Var
  service_cn service_ip_service_port service_ip_service_protocol : Var
  shadow_uid shadow_user_password shadow_shadow_last_change shadow_shadow_min shadow_shadow_max
        shadow_shadow_warning shadow_shadow_inactive shadow_shadow_expire shadow_shadow_flag :
      Var

-- the tests in attmap_get_var(), in their order
unfoldable pub variables : Selector → List (Bytes × Var)
variables aliases =
    (bytes "cn", alias_cn) ∷ (bytes "rfc822MailMember", alias_rfc822mail_member) ∷ []
variables ethers = (bytes "cn", ether_cn) ∷ (bytes "macAddress", ether_mac_address) ∷ []
variables group =
    (bytes "cn", group_cn)
    ∷ (bytes "userPassword", group_user_password)
    ∷ (bytes "gidNumber", group_gid_number)
    ∷ (bytes "memberUid", group_member_uid)
    ∷ (bytes "member", group_member)
    ∷ []
variables hosts = (bytes "cn", host_cn) ∷ (bytes "ipHostNumber", host_ip_host_number) ∷ []
variables netgroup =
    (bytes "cn", netgroup_cn)
    ∷ (bytes "nisNetgroupTriple", netgroup_nis_netgroup_triple)
    ∷ (bytes "memberNisNetgroup", netgroup_member_nis_netgroup)
    ∷ []
variables networks =
    (bytes "cn", network_cn) ∷ (bytes "ipNetworkNumber", network_ip_network_number) ∷ []
variables passwd =
    (bytes "uid", passwd_uid)
    ∷ (bytes "userPassword", passwd_user_password)
    ∷ (bytes "uidNumber", passwd_uid_number)
    ∷ (bytes "gidNumber", passwd_gid_number)
    ∷ (bytes "gecos", passwd_gecos)
    ∷ (bytes "homeDirectory", passwd_home_directory)
    ∷ (bytes "loginShell", passwd_login_shell)
    ∷ []
variables protocols =
    (bytes "cn", protocol_cn) ∷ (bytes "ipProtocolNumber", protocol_ip_protocol_number) ∷ []
variables rpc = (bytes "cn", rpc_cn) ∷ (bytes "oncRpcNumber", rpc_onc_rpc_number) ∷ []
variables services =
    (bytes "cn", service_cn)
    ∷ (bytes "ipServicePort", service_ip_service_port)
    ∷ (bytes "ipServiceProtocol", service_ip_service_protocol)
    ∷ []
variables shadow =
    (bytes "uid", shadow_uid)
    ∷ (bytes "userPassword", shadow_user_password)
    ∷ (bytes "shadowLastChange", shadow_shadow_last_change)
    ∷ (bytes "shadowMin", shadow_shadow_min)
    ∷ (bytes "shadowMax", shadow_shadow_max)
    ∷ (bytes "shadowWarning", shadow_shadow_warning)
    ∷ (bytes "shadowInactive", shadow_shadow_inactive)
    ∷ (bytes "shadowExpire", shadow_shadow_expire)
    ∷ (bytes "shadowFlag", shadow_shadow_flag)
    ∷ []
variables nfsidmap = []
variables no_map = []

unfoldable pub find_var : Bytes → List (Bytes × Var) → Option Var
find_var name [] = none
find_var name ((a, var) ∷ rest) =
    if equal_ignoring_case name a then some var else find_var name rest

unfoldable pub attmap_get_var : Selector → Bytes → Option Var
unfolding find_var variables equal_ignoring_case
attmap_get_var map name = find_var name (variables map)

-- the variables that may be set to an expression
unfoldable pub may_be_expression : Var → Bool
may_be_expression group_user_password = true
may_be_expression group_member = true
may_be_expression passwd_user_password = true
may_be_expression passwd_gid_number = true
may_be_expression passwd_gecos = true
may_be_expression passwd_home_directory = true
may_be_expression passwd_login_shell = true
may_be_expression shadow_user_password = true
may_be_expression shadow_shadow_last_change = true
may_be_expression shadow_shadow_min = true
may_be_expression shadow_shadow_max = true
may_be_expression shadow_shadow_warning = true
may_be_expression shadow_shadow_inactive = true
may_be_expression shadow_shadow_expire = true
may_be_expression shadow_shadow_flag = true
may_be_expression _ = false

abbrev is_group_member : Var → Bool
is_group_member group_member = true
is_group_member _ = false

-- the new value of the variable, or `none` where the setting is refused
unfoldable pub attmap_set_mapping : Var → Bytes → Option Bytes
attmap_set_mapping var value =
    if head_byte value == b'"'
    then if may_be_expression var
      then if is_group_member var && not (value =ₛ b'"' ∷ b'"' ∷ []) then none else some value
      else none
    else some value

-- An LDAP entry as the lookup modules see it: its DN and myldap_get_values(), where NULL is `none`.
pub record Entry : Type 0 where
  pub dn : Bytes
  pub values : Bytes → Option (List Bytes)

-- values[0], where the list ends in NULL
abbrev pub first_value : List Bytes → Option Bytes
first_value [] = none
first_value (v ∷ vs) = some v

abbrev first_or_empty : Option (List Bytes) → Option Bytes
first_or_empty none = some []
first_or_empty (some values) = first_value values

unfoldable pub entry_expand : Entry → Expander
entry_expand entry name =
    if equal_ignoring_case name (bytes "dn")
    then some entry.dn
    else first_or_empty (entry.values name)

-- buffer[strlen(buffer) - 1] and the text without it; an empty text is read before its beginning
unfoldable pub strip_quote : Bytes → Outcome Bytes
strip_quote [] = overrun
strip_quote (c ∷ []) = if c == b'"' then ok [] else ok (c ∷ [])
strip_quote (c ∷ d ∷ s) = do t ← strip_quote (d ∷ s); ok (c ∷ t)

unfoldable pub last_byte : Bytes → ℕ
last_byte [] = 0
last_byte (c ∷ []) = c
last_byte (c ∷ d ∷ s) = last_byte (d ∷ s)

abbrev pub copy_first : ℕ → Option (List Bytes) → Outcome Bytes
copy_first buflen none = fail
copy_first buflen (some []) = fail
copy_first buflen (some (v ∷ vs)) = if leb buflen (length v) then fail else ok v

unfoldable pub attmap_get_value : Entry → Bytes → ℕ → Outcome Bytes
attmap_get_value entry attr buflen =
    if buflen == 0
    then fail
    else if head_byte attr == b'"'
    then if last_byte attr == b'"'
      then (do text ← expr_parse (tail_bytes attr) buflen (entry_expand entry); strip_quote text)
      else fail
    else copy_first buflen (entry.values attr)

unfoldable pub attmap_add_attributes : Memory → Set → Bytes → Outcome Set
attmap_add_attributes mem set attr =
    if head_byte attr == b'"' then expr_vars mem attr set else ok (set_add mem set attr).1
