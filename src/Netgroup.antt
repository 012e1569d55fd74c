-- ===== src/Netgroup.antt =====
-- nslcd/netgroup.c: the triples and members of a netgroup.
pub mod Triple
pub mod Requests
use nss_pam_ldapd.Prelude.{
  ℕ, zero, suc, ◌+◌, ◌-◌, ◌^◌, Bool, true, false, not, ◌&&◌, ◌||◌, List, [], ◌∷◌, ◌++◌, Option,
  none, some, ltb, leb, ◌==◌, if◌then◌else◌, length, get_or, take, drop,
}
use nss_pam_ldapd.Bytes.{Bytes, bytes, head_byte, tail_bytes, is_empty}
use nss_pam_ldapd.Bytes.Number.{is_space, skip_space}
use nss_pam_ldapd.Attmap.{Entry}
use nss_pam_ldapd.Passwd.{values_of, requested}
use nss_pam_ldapd.Protocol.{Item, int32, string, nslcd_result_begin}
use nss_pam_ldapd.Nss.{netgroup_type_netgroup, netgroup_type_triple, netgroup_type_end}

-- the loop over leading spaces, which stops at the NUL
unfoldable pub count_space : Bytes → ℕ
count_space [] = 0
count_space (c ∷ s) = if is_space c then suc (count_space s) else 0

-- the loop over trailing spaces, from an end down to a beginning
unfoldable pub trim : Bytes → ℕ → ℕ → ℕ
trim str i zero = zero
trim str i (suc j) =
    let shorter = trim str i j in
    if ltb i (suc j) && is_space (get_or str j 0) then shorter else suc j

-- The string and a length of it; a length that would be negative is written alone.
unfoldable pub write_string_stripspace_len : Bytes → ℕ → Item
write_string_stripspace_len str len =
    let i = count_space str in
    let j = trim str i len in
    if leb i j then string (take (j - i) (drop i str)) else int32 (2 ^ 32 - (i - j))

-- The bytes before a byte, and the text from it or from the NUL on.
unfoldable pub find_byte : ℕ → Bytes → Bytes × Bytes
find_byte b [] = ([], [])
find_byte b (c ∷ s) =
    let rest = find_byte b s in if c == b then ([], c ∷ s) else (c ∷ rest.0, rest.1)

-- The triple behind its last part.
abbrev pub finish_triple : Bytes → Bytes → Bytes → Bytes × Bytes → ℕ → ℕ → List Item
finish_triple host user domain (part, after) host_len user_len =
    if head_byte after == b')'
    then if is_empty (skip_space (tail_bytes after))
      then int32 netgroup_type_triple
        ∷ write_string_stripspace_len host host_len
        ∷ write_string_stripspace_len user user_len
        ∷ write_string_stripspace_len domain (length part)
        ∷ []
      else []
    else []

abbrev pub triple_domain : Bytes → ℕ → Bytes → Bytes × Bytes → List Item
triple_domain host host_len user (part, after) =
    if head_byte after == b','
    then finish_triple host user (tail_bytes after) (find_byte b')' (tail_bytes after)) host_len
        (length part)
    else []

abbrev pub triple_user : Bytes → Bytes × Bytes → List Item
triple_user host (part, after) =
    if head_byte after == b','
    then triple_domain host (length part) (tail_bytes after) (find_byte b',' (tail_bytes after))
    else []

abbrev pub triple_host : Bytes → List Item
triple_host start =
    if head_byte start == b'('
    then triple_user (tail_bytes start) (find_byte b',' (tail_bytes start))
    else []

unfoldable pub write_netgroup_triple : Bytes → List Item
write_netgroup_triple triple = triple_host (skip_space triple)

unfoldable pub write_triples : List Bytes → List Item
unfolding write_netgroup_triple
write_triples [] = []
write_triples (triple ∷ triples) = write_netgroup_triple triple ++ write_triples triples

unfoldable pub write_members : List Bytes → List Item
write_members [] = []
write_members (member ∷ members) =
    int32 netgroup_type_netgroup
    ∷ write_string_stripspace_len member (length member)
    ∷ write_members members

-- the names of the attributes, and the ignorecase option
pub record Settings : Type 0 where
  pub ignorecase : Bool
  pub cn : Bytes
  pub nis_netgroup_triple : Bytes
  pub member_nis_netgroup : Bytes

unfoldable pub write_names : Bool → Option Bytes → List Item → List Bytes → List Item
write_names ignorecase reqname content [] = []
write_names ignorecase reqname content (name ∷ names) =
    let rest = write_names ignorecase reqname content names in
    if requested ignorecase reqname name
    then int32 nslcd_result_begin ∷ string name ∷ content ++ int32 netgroup_type_end ∷ rest
    else rest

unfoldable pub write_netgroup : Settings → Entry → Option Bytes → List Item
unfolding write_names write_triples write_members
write_netgroup settings entry reqname =
    write_names settings.ignorecase reqname
      (write_triples (values_of entry settings.nis_netgroup_triple)
        ++ write_members (values_of entry settings.member_nis_netgroup))
      (values_of entry settings.cn)
