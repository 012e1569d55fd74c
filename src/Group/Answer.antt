-- ===== src/Group/Answer.antt =====
-- nslcd/group.c: the results that write_group() writes.
use nss_pam_ldapd.Prelude.{
  ℕ, ◌<◌, length, ◌≡◌, refl, sym, ap, ◌∙◌, inl, inr, Bool, true, List, [], ◌∷◌, ◌++◌, Option, none,
  some, arith, Bool-cases, All,
}
use nss_pam_ldapd.Bytes.{Bytes}
use nss_pam_ldapd.Outcome.{Outcome, Ensures, holds, fails, overruns, Ensures-bind}
use nss_pam_ldapd.Attmap.{Entry}
use nss_pam_ldapd.Attmap.Lookup.{Fits}
use nss_pam_ldapd.Ids.Bounds.{some_ids_of-Ensures, Small, Smalls, AllSmall}
use nss_pam_ldapd.Protocol.{int32, nslcd_result_begin}
use nss_pam_ldapd.Nss.{Group}
use nss_pam_ldapd.Nss.RoundTrip.{group_items}
use nss_pam_ldapd.Handler.Results.{results, Results, All-append, results-append}
use nss_pam_ldapd.Passwd.{requested, values_of}
use nss_pam_ldapd.Passwd.Answer.{get_userpassword-Ensures}
use nss_pam_ldapd.Set.Interface.{StringSet}
use nss_pam_ldapd.Group.{Directory}
use nss_pam_ldapd.Group.Write.{
  GroupSettings, write_gids, do_write_group, group_gids, or_star, members_of, write_gids_of,
  write_group_named, write_group,
}

-- A result for a group that was asked for, with a valid name, a number of 32 bits and a password that
-- fits in its buffer.
abbrev pub AllowedGroup : GroupSettings → Option Bytes → Group → Type 0
AllowedGroup settings reqname r =
    (settings.isvalidname r.gr_name ≡ true)
    × (requested settings.ignorecase reqname r.gr_name ≡ true)
    × (length r.gr_passwd < 256)
    × Small r.gr_gid

or_star-Ensures :
    (settings : GroupSettings) {r : Outcome Bytes}
    → Ensures (Fits 256) r
    → Ensures (Fits 256) (or_star settings r)
or_star-Ensures settings (holds h) = holds h
or_star-Ensures settings fails = holds (omega arith)
or_star-Ensures settings overruns = overruns

module _ (settings : GroupSettings) (reqname : Option Bytes) where
  abbrev Good : Group → Type 0
  Good = AllowedGroup settings reqname

  module _ (passwd : Bytes) (members : List Bytes) (fits : Fits 256 passwd) where
    write_gids-Results :
        (name : Bytes) (gids : List ℕ)
        → All Small gids
        → settings.isvalidname name ≡ true
        → requested settings.ignorecase reqname name ≡ true
        → Results group_items Good (write_gids settings name passwd members gids)
    unfolding write_gids
    write_gids-Results name [] small v q = ([], refl, tt)
    write_gids-Results name (gid ∷ gids) (s, small) v q =
        let (rs, e, a) = write_gids-Results name gids small v q in
        let r : Group = record {
          gr_name = name;
          gr_passwd = passwd;
          gr_gid = gid;
          gr_mem = members;
        } in
        (r ∷ rs, ap (λ l. int32 nslcd_result_begin ∷ group_items r ++ l) e, ((v, q, fits, s), a))

    do_write_group-Results :
        (names : List Bytes) (gids : List ℕ)
        → All Small gids
        → Results group_items Good (do_write_group settings names gids passwd members reqname)
    unfolding do_write_group
    do_write_group-Results [] gids small = ([], refl, tt)
    do_write_group-Results (name ∷ names) gids small =
        let (rs, e, a) = do_write_group-Results names gids small in
        elim (Bool-cases (settings.isvalidname name)) [
          | inr invalid ↦ rw invalid (rs, e, a)
          | inl valid ↦ elim (Bool-cases (requested settings.ignorecase reqname name)) [
            | inr other ↦ rw (valid, other) (rs, e, a)
            | inl asked ↦
                let (ss, f, b) = write_gids-Results name gids small valid asked in
                rw (valid, asked)
                  (
                    ss ++ rs,
                    (ap (λ l. l ++ do_write_group settings names gids passwd members reqname) f
                          ∙ ap (λ l. results group_items ss ++ l) e)
                        ∙ sym (results-append group_items ss rs),
                    All-append Good ss rs b a,
                  )
          ]
        ]

  module _ (sets : StringSet) (directory : Directory) (fuel : ℕ) (entry : Entry)
      (wantmembers : Bool)
      (enough : Ensures
        (λ m. Unit {0})
        (members_of settings sets directory fuel entry wantmembers)) where
    group_gids-Ensures :
        (reqgid : Option ℕ) → Smalls reqgid → Ensures AllSmall (group_gids settings entry reqgid)
    unfolding group_gids
    group_gids-Ensures (some reqgid) h = holds (h, tt)
    group_gids-Ensures none h =
        some_ids_of-Ensures settings.gid_sid settings.nss_gid_offset 5
          (values_of entry settings.gid_number)

    write_gids_of-Ensures :
        (names : List Bytes) (gids : Option (List ℕ))
        → AllSmall gids
        → Ensures
            (Results group_items Good)
            (write_gids_of settings sets directory fuel entry names reqname wantmembers gids)
    write_gids_of-Ensures names none s = holds ([], refl, tt)
    write_gids_of-Ensures names (some gids) s =
        Ensures-bind
          (or_star-Ensures settings (get_userpassword-Ensures entry settings.user_password))
          (λ passwd fits.
            Ensures-bind enough
              (λ members _. holds (do_write_group-Results passwd members fits names gids s)))

    write_group_named-Ensures :
        (reqgid : Option ℕ) (names : List Bytes)
        → Smalls reqgid
        → Ensures
            (Results group_items Good)
            (write_group_named settings sets directory fuel entry reqname reqgid wantmembers names)
    unfolding write_group_named
    write_group_named-Ensures reqgid [] h = holds ([], refl, tt)
    write_group_named-Ensures reqgid (name ∷ names) h =
        Ensures-bind (group_gids-Ensures reqgid h)
          (λ gids s. write_gids_of-Ensures (name ∷ names) gids s)

    pub write_group-Results :
        (reqgid : Option ℕ)
        → Smalls reqgid
        → Ensures
            (Results group_items Good)
            (write_group settings sets directory fuel entry reqname reqgid wantmembers)
    unfolding write_group
    write_group-Results reqgid h = write_group_named-Ensures reqgid (values_of entry settings.cn) h
