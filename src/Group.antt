-- ===== src/Group.antt =====
-- nslcd/group.c: the members of a group and of the groups nested in it, and the results for a group.
pub mod Write
pub mod Requests
pub mod Answer
pub mod Parents
pub mod Members
use nss_pam_ldapd.Prelude.{
  ℕ, zero, suc, Bool, true, false, not, ◌&&◌, List, [], ◌∷◌, ◌++◌, Option, none, some,
  if◌then◌else◌,
}
use nss_pam_ldapd.Bytes.{Bytes, bytes}
use nss_pam_ldapd.Attmap.{Entry, equal_ignoring_case}
use nss_pam_ldapd.Outcome.{Outcome, ok, fail, overrun, out_of_fuel, ◌>>=◌}
use nss_pam_ldapd.Common.{get_userpassword}
use nss_pam_ldapd.Ids.{some_ids_of}
use nss_pam_ldapd.Set.Interface.{StringSet}
use nss_pam_ldapd.Ldap.{Search, entries_of}
use nss_pam_ldapd.Passwd.{values_of, requested}
use nss_pam_ldapd.Protocol.{Item, int32, string, stringlist, nslcd_result_begin}

-- The variables of the attribute mapping, what the validnames option accepts, the names of users by
-- their DNs, the values of a dereference control (uid attributes, and DNs without one), and the search
-- of a DN with the filter for groups.
pub record Directory : Type 0 where
  pub member_uid : Bytes
  pub member : Bytes
  pub isvalidname : Bytes → Bool
  pub dn2uid : Bytes → Option Bytes
  pub deref_values : Entry → Option (List Bytes × List Bytes)
  pub lookup : Bytes → Search

module _ (sets : StringSet) where
  -- The sets `seen` and `subgroups`, which are there only where nested groups are followed.
  pub record Nesting : Type 0 where
    pub seen : sets.Carrier
    pub subgroups : sets.Carrier

  -- The arguments of getmembers() that it changes.
  pub record State : Type 0 where
    pub members : sets.Carrier
    pub nesting : Option Nesting

  abbrev pub add_member : State → Bytes → State
  add_member st uid = record st { members = sets.set_add st.members uid }

  -- seen == NULL || !set_contains(seen, dn)
  abbrev pub is_new : Option Nesting → Bytes → Bool
  is_new none dn = true
  is_new (some n) dn = not (sets.set_contains n.seen dn)

  abbrev pub see : Option Nesting → Bytes → Option Nesting
  see none dn = none
  see (some n) dn = some (record n { seen = sets.set_add n.seen dn })

  abbrev pub add_subgroup : Option Nesting → Bytes → Option Nesting
  add_subgroup none dn = none
  add_subgroup (some n) dn = some (record n { subgroups = sets.set_add n.subgroups dn })

  module _ (directory : Directory) where
    unfoldable pub add_valid : State → List Bytes → State
    add_valid st [] = st
    add_valid st (v ∷ values) =
        add_valid (if directory.isvalidname v then add_member st v else st) values

    unfoldable pub add_all : State → List Bytes → State
    add_all st [] = st
    add_all st (v ∷ values) = add_all (add_member st v) values

    -- a DN without a uid attribute in the dereference control
    unfoldable pub visit_subgroup : State → Bytes → State
    visit_subgroup st dn =
        if is_new st.nesting dn
        then record st { nesting = add_subgroup (see st.nesting dn) dn }
        else st

    unfoldable pub visit_subgroups : State → List Bytes → State
    unfolding visit_subgroup
    visit_subgroups st [] = st
    visit_subgroups st (dn ∷ dns) = visit_subgroups (visit_subgroup st dn) dns

    abbrev pub classify : State → Bytes → Option Bytes → State
    classify st dn (some uid) = add_member st uid
    classify st dn none = record st { nesting = add_subgroup st.nesting dn }

    -- a value of the member attribute
    unfoldable pub visit_member : State → Bytes → State
    visit_member st dn =
        if is_new st.nesting dn
        then classify (record st { nesting = see st.nesting dn }) dn (directory.dn2uid dn)
        else st

    unfoldable pub visit_members : State → List Bytes → State
    unfolding visit_member
    visit_members st [] = st
    visit_members st (dn ∷ dns) = visit_members (visit_member st dn) dns

    abbrev pub visit_values : State → List Bytes → Option (List Bytes × List Bytes) → State
    visit_values st values none = visit_members st values
    visit_values st values (some (uids, dns)) = visit_subgroups (add_all st uids) dns

    unfoldable pub getmembers : State → Entry → State
    unfolding add_valid add_all visit_subgroups visit_members
    getmembers st entry =
        let st' = add_valid st (values_of entry directory.member_uid) in
        if equal_ignoring_case directory.member (bytes "\"\"")
        then st'
        else visit_values st' (values_of entry directory.member) (directory.deref_values entry)

    unfoldable pub getmembers_all : State → List Entry → State
    unfolding getmembers
    getmembers_all st [] = st
    getmembers_all st (entry ∷ entries) = getmembers_all (getmembers st entry) entries

    -- the loop over set_pop(subgroups); `none` where the fuel does not suffice
    abbrev pub after_pop :
        State → Nesting → Option Bytes × sets.Carrier → (State → Option State) → Option State
    after_pop st n (none, left) next =
        some (record st { nesting = some (record n { subgroups = left }) })
    after_pop st n (some dn, left) next = next (
        getmembers_all (record st { nesting = some (record n { subgroups = left }) })
          (entries_of (directory.lookup dn)))

    abbrev pub round : State → Option Nesting → (State → Option State) → Option State
    round st none next = some st
    round st (some n) next = after_pop st n (sets.set_pop n.subgroups) next

    unfoldable pub drain : ℕ → State → Option State
    unfolding getmembers_all
    drain zero st = none
    drain (suc fuel) st = round st st.nesting (λ st'. drain fuel st')

    abbrev pub initial : Bool → State
    initial true = record {
      members = sets.set_new;
      nesting = some (record { seen = sets.set_new; subgroups = sets.set_new });
    }
    initial false = record { members = sets.set_new; nesting = none }

    -- the part of write_group() for the members, with nss_nested_groups
    unfoldable pub collect_members : ℕ → Bool → Entry → Option State
    unfolding drain getmembers
    collect_members fuel nested entry = drain fuel (getmembers (initial nested) entry)
