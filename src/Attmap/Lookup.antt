-- ===== src/Attmap/Lookup.antt =====
-- nslcd/attmap.c: which variable a name stands for, and the size of the values.
use nss_pam_ldapd.Prelude.{
  All, subst, ◌↔◌, ◌-◌, ℕ, ◌<◌, ◌≡◌, ◌≢◌, refl, ap, ◌∙◌, true, List, [], ◌∷◌, Option, none, some,
  arith, leb, ◌==◌, length, Bool-cases, inl, inr,
}
use nss_pam_ldapd.Bytes.{bytes, Bytes, head_byte, tail_bytes}
use nss_pam_ldapd.Outcome.{
  overruns, holds, fails, ok, out_of_fuel, Ensures, Ensures-ok, Ensures-out_of_fuel, Ensures-bind,
  Ensures-if,
}
use nss_pam_ldapd.Expr.Bounds.{expr_parse-Ensures}
use nss_pam_ldapd.Attmap.{
  to_lower, Entry, Selector, Var, aliases, ethers, group, hosts, netgroup, networks, passwd,
  protocols, rpc, services, shadow, nfsidmap, no_map, alias_cn, alias_rfc822mail_member, ether_cn,
  ether_mac_address, group_cn, group_user_password, group_gid_number, group_member_uid,
  group_member, host_cn, host_ip_host_number, netgroup_cn, netgroup_nis_netgroup_triple,
  netgroup_member_nis_netgroup, network_cn, network_ip_network_number, passwd_uid,
  passwd_user_password, passwd_uid_number, passwd_gid_number, passwd_gecos, passwd_home_directory,
  passwd_login_shell, protocol_cn, protocol_ip_protocol_number, rpc_cn, rpc_onc_rpc_number,
  service_cn, service_ip_service_port, service_ip_service_protocol, shadow_uid,
  shadow_user_password, shadow_shadow_last_change, shadow_shadow_min, shadow_shadow_max,
  shadow_shadow_warning, shadow_shadow_inactive, shadow_shadow_expire, shadow_shadow_flag,
  variables, equal_ignoring_case, find_var, attmap_get_var, entry_expand, strip_quote, last_byte,
  attmap_get_value, copy_first,
}

-- A text that fits in a buffer with its NUL.
abbrev pub Fits : ℕ → Bytes → Type 0
Fits n text = length text < n

strip_quote-Fits : (n : ℕ) (text : Bytes) → Fits n text → Ensures (Fits n) (strip_quote text)
unfolding strip_quote
strip_quote-Fits n [] h = overruns
strip_quote-Fits n (c ∷ []) h = Ensures-if (c == b'"') (λ e. holds (omega arith)) (λ e. holds h)
strip_quote-Fits n (c ∷ d ∷ s) h =
    Ensures-bind (strip_quote-Fits (n - 1) (d ∷ s) (omega arith)) λ t fits. holds (omega arith)

pub attmap_get_value-Ensures :
    (entry : Entry) (attr : Bytes) (buflen : ℕ)
    → Ensures (Fits buflen) (attmap_get_value entry attr buflen)
unfolding attmap_get_value
attmap_get_value-Ensures entry attr buflen =
    Ensures-if (buflen == 0) (λ z. fails)
      λ p.
        Ensures-if (head_byte attr == b'"')
          (λ q.
            Ensures-if (last_byte attr == b'"')
              (λ r.
                Ensures-bind (expr_parse-Ensures (tail_bytes attr) buflen (entry_expand entry))
                  λ text fits. strip_quote-Fits buflen text fits)
              (λ r. fails))
          (λ q. copy_first-Fits (entry.values attr))
  where
    copy_first-Fits : (o : Option (List Bytes)) → Ensures (Fits buflen) (copy_first buflen o)
    copy_first-Fits none = fails
    copy_first-Fits (some []) = fails
    copy_first-Fits (some (v ∷ vs)) =
        Ensures-if (leb buflen (length v)) (λ e. fails) (λ e. holds (ground arith))

-- A value that attmap_get_value() returns, with its NUL, fits in the buffer, whatever the entry and
-- whether the mapping is an attribute or an expression; the fuel for the expression is enough.
pub attmap_get_value-Fits :
    (entry : Entry) (attr : Bytes) (buflen : ℕ)
    → (attmap_get_value entry attr buflen ≢ out_of_fuel)
      × ((text : Bytes) → attmap_get_value entry attr buflen ≡ ok text → Fits buflen text)
attmap_get_value-Fits entry attr buflen =
    let h = attmap_get_value-Ensures entry attr buflen in
    (Ensures-out_of_fuel h, λ text e. Ensures-ok h e)

equal_ignoring_case-eq :
    (s t u : Bytes)
    → equal_ignoring_case s t ≡ true
    → equal_ignoring_case s u ≡ equal_ignoring_case t u
unfolding equal_ignoring_case
equal_ignoring_case-eq [] [] u h = refl
equal_ignoring_case-eq [] (d ∷ t) u h = cc
equal_ignoring_case-eq (c ∷ s) [] u h = cc
equal_ignoring_case-eq (c ∷ s) (d ∷ t) [] h = refl
equal_ignoring_case-eq (c ∷ s) (d ∷ t) (e ∷ u) h = ground (arith, equal_ignoring_case-eq s t u)

-- The map and the attribute that the name of a variable says.
abbrev pub map_of : Var → Selector
map_of alias_cn = aliases
map_of alias_rfc822mail_member = aliases
map_of ether_cn = ethers
map_of ether_mac_address = ethers
map_of group_cn = group
map_of group_user_password = group
map_of group_gid_number = group
map_of group_member_uid = group
map_of group_member = group
map_of host_cn = hosts
map_of host_ip_host_number = hosts
map_of netgroup_cn = netgroup
map_of netgroup_nis_netgroup_triple = netgroup
map_of netgroup_member_nis_netgroup = netgroup
map_of network_cn = networks
map_of network_ip_network_number = networks
map_of passwd_uid = passwd
map_of passwd_user_password = passwd
map_of passwd_uid_number = passwd
map_of passwd_gid_number = passwd
map_of passwd_gecos = passwd
map_of passwd_home_directory = passwd
map_of passwd_login_shell = passwd
map_of protocol_cn = protocols
map_of protocol_ip_protocol_number = protocols
map_of rpc_cn = rpc
map_of rpc_onc_rpc_number = rpc
map_of service_cn = services
map_of service_ip_service_port = services
map_of service_ip_service_protocol = services
map_of shadow_uid = shadow
map_of shadow_user_password = shadow
map_of shadow_shadow_last_change = shadow
map_of shadow_shadow_min = shadow
map_of shadow_shadow_max = shadow
map_of shadow_shadow_warning = shadow
map_of shadow_shadow_inactive = shadow
map_of shadow_shadow_expire = shadow
map_of shadow_shadow_flag = shadow

abbrev pub attribute_of : Var → Bytes
attribute_of alias_cn = bytes "cn"
attribute_of alias_rfc822mail_member = bytes "rfc822MailMember"
attribute_of ether_cn = bytes "cn"
attribute_of ether_mac_address = bytes "macAddress"
attribute_of group_cn = bytes "cn"
attribute_of group_user_password = bytes "userPassword"
attribute_of group_gid_number = bytes "gidNumber"
attribute_of group_member_uid = bytes "memberUid"
attribute_of group_member = bytes "member"
attribute_of host_cn = bytes "cn"
attribute_of host_ip_host_number = bytes "ipHostNumber"
attribute_of netgroup_cn = bytes "cn"
attribute_of netgroup_nis_netgroup_triple = bytes "nisNetgroupTriple"
attribute_of netgroup_member_nis_netgroup = bytes "memberNisNetgroup"
attribute_of network_cn = bytes "cn"
attribute_of network_ip_network_number = bytes "ipNetworkNumber"
attribute_of passwd_uid = bytes "uid"
attribute_of passwd_user_password = bytes "userPassword"
attribute_of passwd_uid_number = bytes "uidNumber"
attribute_of passwd_gid_number = bytes "gidNumber"
attribute_of passwd_gecos = bytes "gecos"
attribute_of passwd_home_directory = bytes "homeDirectory"
attribute_of passwd_login_shell = bytes "loginShell"
attribute_of protocol_cn = bytes "cn"
attribute_of protocol_ip_protocol_number = bytes "ipProtocolNumber"
attribute_of rpc_cn = bytes "cn"
attribute_of rpc_onc_rpc_number = bytes "oncRpcNumber"
attribute_of service_cn = bytes "cn"
attribute_of service_ip_service_port = bytes "ipServicePort"
attribute_of service_ip_service_protocol = bytes "ipServiceProtocol"
attribute_of shadow_uid = bytes "uid"
attribute_of shadow_user_password = bytes "userPassword"
attribute_of shadow_shadow_last_change = bytes "shadowLastChange"
attribute_of shadow_shadow_min = bytes "shadowMin"
attribute_of shadow_shadow_max = bytes "shadowMax"
attribute_of shadow_shadow_warning = bytes "shadowWarning"
attribute_of shadow_shadow_inactive = bytes "shadowInactive"
attribute_of shadow_shadow_expire = bytes "shadowExpire"
attribute_of shadow_shadow_flag = bytes "shadowFlag"

-- The variable of an entry of a table is of that map and that attribute.
abbrev Named : Selector → Bytes × Var → Type 0
Named map e = (map_of e.1 ≡ map) × (attribute_of e.1 ≡ e.0)

variables-Named : (map : Selector) → All (Named map) (variables map)
unfolding variables
variables-Named aliases = ((refl, refl), ((refl, refl), tt))
variables-Named ethers = ((refl, refl), ((refl, refl), tt))
variables-Named group =
    ((refl, refl), ((refl, refl), ((refl, refl), ((refl, refl), ((refl, refl), tt)))))
variables-Named hosts = ((refl, refl), ((refl, refl), tt))
variables-Named netgroup = ((refl, refl), ((refl, refl), ((refl, refl), tt)))
variables-Named networks = ((refl, refl), ((refl, refl), tt))
variables-Named passwd = (
  (refl, refl),
  (
    (refl, refl),
    ((refl, refl), ((refl, refl), ((refl, refl), ((refl, refl), ((refl, refl), tt))))),
  ),
)
variables-Named protocols = ((refl, refl), ((refl, refl), tt))
variables-Named rpc = ((refl, refl), ((refl, refl), tt))
variables-Named services = ((refl, refl), ((refl, refl), ((refl, refl), tt)))
variables-Named shadow = (
  (refl, refl),
  (
    (refl, refl),
    (
      (refl, refl),
      (
        (refl, refl),
        ((refl, refl), ((refl, refl), ((refl, refl), ((refl, refl), ((refl, refl), tt))))),
      ),
    ),
  ),
)
variables-Named nfsidmap = tt
variables-Named no_map = tt

-- Every variable is found by its attribute.
attmap_get_var-attribute_of :
    (var : Var) → attmap_get_var (map_of var) (attribute_of var) ≡ some var
unfolding attmap_get_var to_lower
attmap_get_var-attribute_of alias_cn = refl
attmap_get_var-attribute_of alias_rfc822mail_member = refl
attmap_get_var-attribute_of ether_cn = refl
attmap_get_var-attribute_of ether_mac_address = refl
attmap_get_var-attribute_of group_cn = refl
attmap_get_var-attribute_of group_user_password = refl
attmap_get_var-attribute_of group_gid_number = refl
attmap_get_var-attribute_of group_member_uid = refl
attmap_get_var-attribute_of group_member = refl
attmap_get_var-attribute_of host_cn = refl
attmap_get_var-attribute_of host_ip_host_number = refl
attmap_get_var-attribute_of netgroup_cn = refl
attmap_get_var-attribute_of netgroup_nis_netgroup_triple = refl
attmap_get_var-attribute_of netgroup_member_nis_netgroup = refl
attmap_get_var-attribute_of network_cn = refl
attmap_get_var-attribute_of network_ip_network_number = refl
attmap_get_var-attribute_of passwd_uid = refl
attmap_get_var-attribute_of passwd_user_password = refl
attmap_get_var-attribute_of passwd_uid_number = refl
attmap_get_var-attribute_of passwd_gid_number = refl
attmap_get_var-attribute_of passwd_gecos = refl
attmap_get_var-attribute_of passwd_home_directory = refl
attmap_get_var-attribute_of passwd_login_shell = refl
attmap_get_var-attribute_of protocol_cn = refl
attmap_get_var-attribute_of protocol_ip_protocol_number = refl
attmap_get_var-attribute_of rpc_cn = refl
attmap_get_var-attribute_of rpc_onc_rpc_number = refl
attmap_get_var-attribute_of service_cn = refl
attmap_get_var-attribute_of service_ip_service_port = refl
attmap_get_var-attribute_of service_ip_service_protocol = refl
attmap_get_var-attribute_of shadow_uid = refl
attmap_get_var-attribute_of shadow_user_password = refl
attmap_get_var-attribute_of shadow_shadow_last_change = refl
attmap_get_var-attribute_of shadow_shadow_min = refl
attmap_get_var-attribute_of shadow_shadow_max = refl
attmap_get_var-attribute_of shadow_shadow_warning = refl
attmap_get_var-attribute_of shadow_shadow_inactive = refl
attmap_get_var-attribute_of shadow_shadow_expire = refl
attmap_get_var-attribute_of shadow_shadow_flag = refl

find_var-Named :
    (map : Selector) (name : Bytes) (var : Var) (table : List (Bytes × Var))
    → All (Named map) table
    → find_var name table ≡ some var
    → (map_of var ≡ map) × (equal_ignoring_case name (attribute_of var) ≡ true)
unfolding find_var
find_var-Named map name var [] all h = cc
find_var-Named map name var ((a, v) ∷ rest) ((m, n), all) h =
    elim (Bool-cases (equal_ignoring_case name a)) [
      | inl e ↦
          let same : v ≡ var = cc (rw e at h) in
          (
            subst (λ x. map_of x ≡ map) same m,
            subst (λ x. equal_ignoring_case name (attribute_of x) ≡ true) same
                (ap (equal_ignoring_case name) n ∙ e),
          )
      | inr e ↦ find_var-Named map name var rest all (rw e at h)
    ]

find_var-equal :
    (name other : Bytes) (table : List (Bytes × Var))
    → equal_ignoring_case name other ≡ true
    → find_var name table ≡ find_var other table
unfolding find_var
find_var-equal name other [] h = refl
find_var-equal name other ((a, v) ∷ rest) h =
    rw (equal_ignoring_case-eq name other a h, find_var-equal name other rest h) refl

-- attmap_get_var() answers a variable exactly for the map of that variable and for the name of its
-- attribute, whatever the case of letters; so each variable is found, and no other in its place.
pub attmap_get_var_lem :
    (map : Selector) (name : Bytes) (var : Var)
    → (attmap_get_var map name ≡ some var)
      ↔ ((map_of var ≡ map) × (equal_ignoring_case name (attribute_of var) ≡ true))
unfolding attmap_get_var
attmap_get_var_lem map name var = (
  find_var-Named map name var (variables map) (variables-Named map),
  λ (m, e).
      find_var-equal name (attribute_of var) (variables map) e
      ∙ subst (λ x. attmap_get_var x (attribute_of var) ≡ some var) m
          (attmap_get_var-attribute_of var),
)
