-- ===== src/Tests/Groups.antt =====
-- The theorems at concrete inputs, and the operations run on them: groups.
use nss_pam_ldapd.Prelude.{
  false, ◌≡◌, refl, true, List, [], ◌∷◌, ◌++◌, none, some, if◌then◌else◌, arith, inl, inr,
  Bool-cases,
}
use nss_pam_ldapd.Bytes.{Bytes, bytes, contains, ◌=ₛ◌}
use nss_pam_ldapd.Attmap.{Entry}
use nss_pam_ldapd.Dict.{Memory}
use nss_pam_ldapd.Set.Stored.{stored_sets}
use nss_pam_ldapd.Ldap.{failed, found}
use nss_pam_ldapd.Passwd.{values_of}
use nss_pam_ldapd.Protocol.{int32, nslcd_result_begin, nslcd_result_end}
use nss_pam_ldapd.Protocol.RoundTrip.{client, fits}
use nss_pam_ldapd.Protocol.RoundTrip.Items.{sent}
use nss_pam_ldapd.Handler.{header}
use nss_pam_ldapd.Nss.{Group, get_one, read_group}
use nss_pam_ldapd.Nss.RoundTrip.{group_items, group_room, get_group_lem}
use nss_pam_ldapd.Nss.Gids.{Gids, Call, read_gids}
use nss_pam_ldapd.Nss.Gids.Collected.{Ends, kept, following, read_gids_lem}
use nss_pam_ldapd.Group.{Directory, collect_members}
use nss_pam_ldapd.Outcome.{Ensures}
use nss_pam_ldapd.Handler.Results.{Answer}
use nss_pam_ldapd.Passwd.Requests.{uid2dn}
use nss_pam_ldapd.Passwd.Entries.{uid2dn-Ends}
use nss_pam_ldapd.Group.Write.{GroupSettings}
use nss_pam_ldapd.Group.Requests.{GroupRequest, group_bymember, answer_bymember}
use nss_pam_ldapd.Group.Answer.{AllowedGroup}
use nss_pam_ldapd.Group.Parents.{Finds, answer_bymember_lem}
use nss_pam_ldapd.Tests.Answers.{plain, by_user}
use nss_pam_ldapd.Group.Members.{Closed}
use nss_pam_ldapd.Group.Members.Least.{Least, collect_members_lem}

abbrev staff : Group
staff = record {
  gr_name = bytes "staff";
  gr_passwd = bytes "*";
  gr_gid = 50;
  gr_mem = bytes "joe" ∷ bytes "sue" ∷ [];
}

get_group_lem_example :
    get_one 262145 read_group (
      client
        (sent
          (header 262145
            ++ int32 nslcd_result_begin ∷ group_items staff
            ++ int32 nslcd_result_end ∷ [])
          [])
        64
        0
        0)
    ≡ fits 64 (group_room 0 staff) 0 (some staff) (sent (int32 nslcd_result_end ∷ []) [])
get_group_lem_example =
    get_group_lem 262145 staff (int32 nslcd_result_end ∷ []) [] 64 0 (omega arith)
      (omega arith, omega arith, omega arith, (omega arith, (omega arith, (omega arith, tt))))
      (omega arith)

-- A call of initgroups() whose array has room for one group and is enlarged.
abbrev any_size : Call
any_size = record { skipgroup = 100; limit = 0; given = λ size. true }

abbrev no_gids : Gids
no_gids = record { groups = []; size = 1 }

read_gids_lem_example : Ends any_size (kept 100 (staff ∷ staff ∷ [])) (
    read_gids 3 any_size nslcd_result_begin no_gids
      (client (sent (group_items staff ++ following (staff ∷ [])) []) 0 0 0))
read_gids_lem_example =
    read_gids_lem any_size staff (staff ∷ []) no_gids [] 0 0 0 3 (λ size. refl)
      (
        (omega arith, omega arith, omega arith, (omega arith, (omega arith, (omega arith, tt)))),
        (
          (omega arith, omega arith, omega arith, (omega arith, (omega arith, (omega arith, tt)))),
          tt,
        ),
      )
      (omega arith, omega arith, inl refl) (omega arith)

abbrev memory : Memory
memory = record { for_table = true; for_entry = true }

-- Two groups that are members of one another; the second has a user.
abbrev outer : Entry
outer = record {
  dn = bytes "cn=a";
  values = λ name. if name =ₛ bytes "member" then some (bytes "cn=b" ∷ []) else none;
}

abbrev inner : Entry
inner = record {
  dn = bytes "cn=b";
  values = λ name.
      if name =ₛ bytes "member"
      then some (bytes "cn=a" ∷ [])
      else if name =ₛ bytes "memberUid"
      then some (bytes "bob" ∷ [])
      else none;
}

abbrev two_groups : Directory
two_groups = record {
  member_uid = bytes "memberUid";
  member = bytes "member";
  isvalidname = λ name. true;
  dn2uid = λ dn. none;
  deref_values = λ entry. none;
  lookup = λ dn. if dn =ₛ bytes "cn=b" then found (inner ∷ []) true else failed;
}

abbrev two_names : List Bytes
two_names = bytes "cn=a" ∷ bytes "cn=b" ∷ []

two_groups-Closed : Closed two_groups (λ u. Unit {0}) (λ dn. contains two_names dn ≡ true) outer
unfolding contains ◌=ₛ◌ values_of
two_groups-Closed = (
  (tt, λ follows. (refl, tt)),
  λ dn known. elim (Bool-cases (dn =ₛ bytes "cn=b")) [
    | inl same ↦ rw same ((((λ valid. tt), tt), λ follows. (refl, tt)), tt)
    | inr other ↦ rw other tt
  ],
)

collect_members_lem_example :
    Least
      (stored_sets memory refl)
      two_groups
      outer
      (collect_members (stored_sets memory refl) two_groups 5 true outer)
collect_members_lem_example =
    collect_members_lem (stored_sets memory refl) two_groups outer two_names 5 (λ entry. tt)
      two_groups-Closed (omega arith)

abbrev group_settings : GroupSettings
group_settings = record {
  nss_gid_offset = 0;
  ignorecase = false;
  nested = true;
  isvalidname = λ name. true;
  cn = bytes "cn";
  user_password = bytes "userPassword";
  gid_number = bytes "gidNumber";
  gid_sid = false;
}

abbrev named_group : Bytes → Bytes → Bytes → Entry
named_group dn name gid = record {
  dn = dn;
  values = λ attr.
      if attr =ₛ bytes "cn"
      then some (name ∷ [])
      else if attr =ₛ bytes "gidNumber"
      then some (gid ∷ [])
      else none;
}

-- A user of one group, which is a member of another that is a member of the first.
abbrev by_member : GroupRequest
by_member = record {
  filter = bytes "(objectClass=posixGroup)";
  bases = bytes "dc=example" ∷ [];
  lookup = λ base filter.
      found
        (named_group (bytes "cn=a") (bytes "a") (bytes "50")
          ∷ named_group (bytes "cn=b") (bytes "b") (bytes "51")
          ∷ [])
        true;
  gid_sid = [];
  builtin_sid = [];
  ignored = λ name. false;
  uid2dn = λ uid. uid2dn plain by_user uid 512;
}

by_member-Finds : Finds by_member two_names
unfolding contains ◌=ₛ◌
by_member-Finds base filter = (refl, (refl, tt))

answer_bymember_lem_example :
    Ensures
      (λ r.
        (group_settings.isvalidname (bytes "joe") ≡ false → r.items ≡ [])
        × (group_settings.isvalidname (bytes "joe") ≡ true
            → Answer group_items (AllowedGroup group_settings none) group_bymember r))
      (answer_bymember group_settings two_groups by_member
        (stored_sets memory refl)
        5
        (bytes "joe"))
answer_bymember_lem_example =
    answer_bymember_lem group_settings two_groups by_member (stored_sets memory refl) two_names 5
      (bytes "joe") by_member-Finds (λ uid. uid2dn-Ends plain by_user uid 512) (omega arith)
