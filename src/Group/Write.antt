-- ===== src/Group/Write.antt =====
-- nslcd/group.c: write_group() and do_write_group(), the results for a group.
use nss_pam_ldapd.Prelude.{
  ℕ, Bool, true, false, List, [], ◌∷◌, ◌++◌, Option, none, some, if◌then◌else◌,
}
use nss_pam_ldapd.Bytes.{Bytes, bytes}
use nss_pam_ldapd.Attmap.{Entry}
use nss_pam_ldapd.Outcome.{Outcome, ok, fail, overrun, out_of_fuel, ◌>>=◌}
use nss_pam_ldapd.Common.{get_userpassword}
use nss_pam_ldapd.Ids.{some_ids_of}
use nss_pam_ldapd.Set.Interface.{StringSet}
use nss_pam_ldapd.Passwd.{values_of, requested}
use nss_pam_ldapd.Protocol.{Item, int32, string, stringlist, nslcd_result_begin}
use nss_pam_ldapd.Group.{Directory, State, collect_members}

abbrev listed : (sets : StringSet) → Option (State sets) → Outcome (List Bytes)
listed sets none = out_of_fuel
listed sets (some st) = ok (sets.set_tolist st.members)

-- the settings and variables that write_group() reads
pub record GroupSettings : Type 0 where
  pub nss_gid_offset : ℕ
  pub ignorecase : Bool
  pub nested : Bool
  pub isvalidname : Bytes → Bool
  pub cn : Bytes
  pub user_password : Bytes
  pub gid_number : Bytes
  pub gid_sid : Bool

module _ (settings : GroupSettings) where
  -- the inner loop of do_write_group()
  unfoldable pub write_gids : Bytes → Bytes → List Bytes → List ℕ → List Item
  write_gids name passwd members [] = []
  write_gids name passwd members (gid ∷ gids) =
      int32 nslcd_result_begin
      ∷ string name
      ∷ string passwd
      ∷ int32 gid
      ∷ stringlist members
      ∷ write_gids name passwd members gids

  unfoldable pub do_write_group :
      List Bytes → List ℕ → Bytes → List Bytes → Option Bytes → List Item
  unfolding write_gids
  do_write_group [] gids passwd members reqname = []
  do_write_group (name ∷ names) gids passwd members reqname =
      let rest = do_write_group names gids passwd members reqname in
      if settings.isvalidname name
      then if requested settings.ignorecase reqname name
        then write_gids name passwd members gids ++ rest
        else rest
      else rest

  unfoldable pub group_gids : Entry → Option ℕ → Outcome (Option (List ℕ))
  group_gids entry (some reqgid) = ok (some (reqgid ∷ []))
  group_gids entry none =
      some_ids_of settings.gid_sid settings.nss_gid_offset 5 (values_of entry settings.gid_number)

  -- NULL as the password is "*"
  abbrev pub or_star : Outcome Bytes → Outcome Bytes
  or_star (ok passwd) = ok passwd
  or_star fail = ok (bytes "*")
  or_star overrun = overrun
  or_star out_of_fuel = out_of_fuel

  -- the members, or none of them where they are not wanted
  abbrev pub members_of : (sets : StringSet) → Directory → ℕ → Entry → Bool → Outcome (List Bytes)
  members_of sets directory fuel entry false = ok []
  members_of sets directory fuel entry true =
      listed sets (collect_members sets directory fuel settings.nested entry)

  abbrev pub write_gids_of :
      (sets : StringSet)
      → Directory
      → ℕ
      → Entry
      → List Bytes
      → Option Bytes
      → Bool
      → Option (List ℕ)
      → Outcome (List Item)
  write_gids_of sets directory fuel entry names reqname wantmembers none = ok []
  write_gids_of sets directory fuel entry names reqname wantmembers (some gids) = do
    passwd ← or_star (get_userpassword entry settings.user_password 256)
    members ← members_of sets directory fuel entry wantmembers
    ok (do_write_group names gids passwd members reqname)

  unfoldable pub write_group_named :
      (sets : StringSet)
      → Directory
      → ℕ
      → Entry
      → Option Bytes
      → Option ℕ
      → Bool
      → List Bytes
      → Outcome (List Item)
  unfolding do_write_group collect_members group_gids
  write_group_named sets directory fuel entry reqname reqgid wantmembers [] = ok []
  write_group_named sets directory fuel entry reqname reqgid wantmembers (name ∷ names) = do
    gids ← group_gids entry reqgid
    write_gids_of sets directory fuel entry (name ∷ names) reqname wantmembers gids

  unfoldable pub write_group :
      (sets : StringSet)
      → Directory
      → ℕ
      → Entry
      → Option Bytes
      → Option ℕ
      → Bool
      → Outcome (List Item)
  unfolding write_group_named
  write_group sets directory fuel entry reqname reqgid wantmembers =
      write_group_named sets directory fuel entry reqname reqgid wantmembers
        (values_of entry settings.cn)
