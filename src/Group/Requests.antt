-- ===== src/Group/Requests.antt =====
-- nslcd/group.c: the handlers of the requests for groups, and the filters of their searches.
use nss_pam_ldapd.Prelude.{
  ℕ, zero, suc, ◌+◌, ◌-◌, ◌%◌, Bool, true, false, not, ◌&&◌, List, [], ◌∷◌, ◌++◌, Option, none,
  some, leb, if◌then◌else◌,
}
use nss_pam_ldapd.Bytes.{Bytes, bytes}
use nss_pam_ldapd.Bytes.Number.{put_decimal}
use nss_pam_ldapd.Outcome.{Outcome, ok, out_of_fuel, ◌>>=◌}
use nss_pam_ldapd.Attmap.{Entry, equal_ignoring_case}
use nss_pam_ldapd.Common.Search.{little_endian}
use nss_pam_ldapd.Ids.{id_mod}
use nss_pam_ldapd.Ldap.{Search, entries_of, myldap_escape}
use nss_pam_ldapd.Handler.{Reply, reply, handle, empty_reply, header, finish, with_search}
use nss_pam_ldapd.Protocol.{Item}
use nss_pam_ldapd.Protocol.Client.{Client, read_string, read_int32}
use nss_pam_ldapd.Set.Interface.{StringSet}
use nss_pam_ldapd.Passwd.Requests.{filter_text, equality, with_name, answer_read}
use nss_pam_ldapd.Group.{Directory, Nesting}
use nss_pam_ldapd.Group.Write.{GroupSettings, write_group}

abbrev pub group_byname : ℕ
group_byname = 262145

abbrev pub group_bygid : ℕ
group_bygid = 262146

abbrev pub group_bymember : ℕ
group_bymember = 262150

abbrev pub group_all : ℕ
group_all = 262152

-- group_filter, group_bases and the search in the scope, gidSid and builtinSid as escaped texts, the
-- names that nss_initgroups_ignoreusers leaves out, and uid2dn() of nslcd/passwd.c.
pub record GroupRequest : Type 0 where
  pub filter : Bytes
  pub bases : List Bytes
  pub lookup : Bytes → Bytes → Search
  pub gid_sid : Bytes
  pub builtin_sid : Bytes
  pub ignored : Bytes → Bool
  pub uid2dn : Bytes → Outcome (Option Bytes)

module _ (settings : GroupSettings) (directory : Directory) (request : GroupRequest) where
  unfoldable pub mkfilter_group_byname : Bytes → Option Bytes
  unfolding filter_text
  mkfilter_group_byname name = with_name request.filter settings.cn (myldap_escape name 300)

  -- the sid that stands before the number; the numbers 544 to 552 are of built-in groups
  abbrev sid_before : ℕ → Bytes
  sid_before id = if leb 544 id && leb id 552 then request.builtin_sid else request.gid_sid

  unfoldable pub mkfilter_group_bygid : ℕ → Option Bytes
  unfolding filter_text
  mkfilter_group_bygid gid =
      let id = (gid + id_mod - settings.nss_gid_offset % id_mod) % id_mod in
      let value = if settings.gid_sid then sid_before id ++ little_endian id else put_decimal id in
      filter_text (equality request.filter settings.gid_number value)

  unfoldable pub mkfilter_group_bymemberdn : Bytes → Option Bytes
  unfolding filter_text
  mkfilter_group_bymemberdn dn = with_name request.filter directory.member (myldap_escape dn 600)

  abbrev either : Bytes → Option Bytes → Option Bytes
  either safeuid none = none
  either safeuid (some safedn) = filter_text (
      bytes "(&"
      ++ request.filter
      ++ bytes "(|("
      ++ directory.member_uid
      ++ bytes "="
      ++ safeuid
      ++ bytes ")("
      ++ directory.member
      ++ bytes "="
      ++ safedn
      ++ bytes ")))")

  abbrev with_dn : Bytes → Option Bytes → Option Bytes
  with_dn safeuid none = filter_text (equality request.filter directory.member_uid safeuid)
  with_dn safeuid (some dn) = either safeuid (myldap_escape dn 600)

  abbrev pub member_blank : Bool
  member_blank = equal_ignoring_case directory.member (bytes "\"\"")

  abbrev pub with_uid : Bytes → Option Bytes → Outcome (Option Bytes)
  with_uid uid none = ok none
  with_uid uid (some safeuid) =
      if member_blank
      then ok (with_dn safeuid none)
      else do dn ← request.uid2dn uid; ok (with_dn safeuid dn)

  unfoldable pub mkfilter_group_bymember : Bytes → Outcome (Option Bytes)
  unfolding filter_text
  mkfilter_group_bymember uid = with_uid uid (myldap_escape uid 300)

  module _ (sets : StringSet) where
    abbrev written : ℕ → Option Bytes → Option ℕ → Bool → Entry → Outcome (List Item)
    written fuel reqname reqgid wantmembers entry =
        write_group settings sets directory fuel entry reqname reqgid wantmembers

    unfoldable pub answer_group_byname : ℕ → Bytes → Outcome Reply
    unfolding mkfilter_group_byname
    answer_group_byname fuel name =
        if settings.isvalidname name
        then handle group_byname request.lookup (written fuel (some name) none true) request.bases
            (mkfilter_group_byname name)
        else reply false []

    unfoldable pub answer_group_bygid : ℕ → ℕ → Outcome Reply
    unfolding mkfilter_group_bygid
    answer_group_bygid fuel gid =
        handle group_bygid request.lookup (written fuel none (some gid) true) request.bases
          (mkfilter_group_bygid gid)

    unfoldable pub nslcd_group_all : ℕ → Outcome Reply
    nslcd_group_all fuel =
        handle group_all request.lookup (written fuel none none true) request.bases
          (some request.filter)

    -- what a group without its members is written as
    abbrev pub write_parent : Entry → Outcome (List Item)
    write_parent entry = written 0 none none false entry

    -- A DN is put into both sets, `seen` and `tocheck`, which is `subgroups` of the record.
    abbrev pub mark : Nesting sets → Bytes → Nesting sets
    mark n dn = record n { seen = sets.set_add n.seen dn; subgroups = sets.set_add n.subgroups dn }

    -- the inner loops over the entries of a search, with the items behind those that were written
    unfoldable pub write_parents :
        Nesting sets → List Entry → List Item → Outcome (Nesting sets × List Item)
    write_parents n [] items = ok (n, items)
    write_parents n (entry ∷ entries) items =
        let skipped = write_parents n entries items in
        if sets.set_contains n.seen entry.dn
        then skipped
        else do more ← write_parent entry; write_parents (mark n entry.dn) entries (items ++ more)

    -- a search in the loop over the bases, which goes on where the search fails
    unfoldable pub search_parents :
        Bytes → Nesting sets → List Bytes → List Item → Outcome (Nesting sets × List Item)
    unfolding write_parents
    search_parents filter n [] items = ok (n, items)
    search_parents filter n (base ∷ bases) items = do
      r ← write_parents n (entries_of (request.lookup base filter)) items
      search_parents filter r.0 bases r.1

    abbrev with_filter : (Bytes → Outcome Reply) → List Item → Option Bytes → Outcome Reply
    with_filter next items none = reply false items
    with_filter next items (some filter) = next filter

    abbrev after_check :
        Nesting sets
        → List Item
        → Option Bool
        → (Nesting sets → List Item → Outcome Reply)
        → Option Bytes × sets.Carrier
        → Outcome Reply
    after_check n items rc next (none, left) = finish items rc
    after_check n items rc next (some dn, left) =
        with_filter
          (λ filter. do
            r ← search_parents filter (record n { subgroups = left }) request.bases items
            next r.0 r.1)
          items (mkfilter_group_bymemberdn dn)

    -- the loop over set_pop(tocheck)
    unfoldable pub check_parents : ℕ → Nesting sets → List Item → Option Bool → Outcome Reply
    unfolding search_parents mkfilter_group_bymemberdn
    check_parents zero n items rc = out_of_fuel
    check_parents (suc fuel) n items rc =
        after_check n items rc (λ n' items'. check_parents fuel n' items' rc)
          (sets.set_pop n.subgroups)

    -- the loop over the bases for the groups of the member itself, where nested groups are followed
    unfoldable pub search_members :
        ℕ → Bytes → Nesting sets → List Bytes → List Item → Option Bool → Outcome Reply
    unfolding write_parents check_parents
    search_members fuel filter n [] items rc = check_parents fuel n items rc
    search_members fuel filter n (base ∷ bases) items rc =
        with_search items
          (λ entries complete. do
            r ← write_parents n entries items
            search_members fuel filter r.0 bases r.1 (some complete))
          (request.lookup base filter)

    abbrev both_new : Nesting sets
    both_new = record { seen = sets.set_new; subgroups = sets.set_new }

    abbrev pub answer_filter : ℕ → Option Bytes → Outcome Reply
    answer_filter fuel none = reply false (header group_bymember)
    answer_filter fuel (some filter) =
        if settings.nested && not member_blank
        then search_members fuel filter both_new request.bases (header group_bymember) none
        else handle group_bymember request.lookup write_parent request.bases (some filter)

    -- the handler for the name of a user that was read
    unfoldable pub answer_bymember : ℕ → Bytes → Outcome Reply
    unfolding search_members mkfilter_group_bymember
    answer_bymember fuel name =
        if settings.isvalidname name
        then (if request.ignored name
            then empty_reply group_bymember
            else do filter ← mkfilter_group_bymember name; answer_filter fuel filter)
        else reply false []

    unfoldable pub nslcd_group_byname : ℕ → Client → Outcome Reply
    unfolding answer_group_byname
    nslcd_group_byname fuel c = answer_read (answer_group_byname fuel) (read_string 256 c)

    unfoldable pub nslcd_group_bygid : ℕ → Client → Outcome Reply
    unfolding answer_group_bygid
    nslcd_group_bygid fuel c = answer_read (answer_group_bygid fuel) (read_int32 c)

    unfoldable pub nslcd_group_bymember : ℕ → Client → Outcome Reply
    unfolding answer_bymember
    nslcd_group_bymember fuel c = answer_read (answer_bymember fuel) (read_string 256 c)
