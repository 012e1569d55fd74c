-- ===== src/Group/Members/Least.antt =====
-- nslcd/group.c: the members that write_group() collects, against the least closed set.
use nss_pam_ldapd.Prelude.{
  ℕ, ◌*◌, ◌≤◌, ◌<◌, ◌≡◌, sym, ap, subst, ◌∙◌, inl, inr, true, List, [], ◌∷◌, Option, none, some,
  length, All, arith, Option-cases,
}
use nss_pam_ldapd.Bytes.{Bytes, contains}
use nss_pam_ldapd.Attmap.{Entry}
use nss_pam_ldapd.Passwd.{values_of}
use nss_pam_ldapd.Ldap.{entries_of}
use nss_pam_ldapd.Set.Interface.{StringSet}
use nss_pam_ldapd.Group.{Directory, State, getmembers, drain, collect_members}
use nss_pam_ldapd.Group.Members.{Kind, Values, Rules, Closed, Sets, state, In, Within, Kind-grows}
use nss_pam_ldapd.Group.Members.Visit.{
  Step, Seen, Covered, CoveredValues, Consistent, getmembers_lem,
}
use nss_pam_ldapd.Group.Members.Nested.{Done, Waits, total, total_le, Inv, drain_lem}

-- The members of a state are users that the rules give, and all of them: with some set of groups they
-- are closed under the rules, and they are in any set of users that is closed.
abbrev pub Least : (sets : StringSet) → Directory → Entry → Option (State sets) → Type 1
Least sets directory entry r =
    (st : State sets) × (R : Bytes → Type 0) × (r ≡ some st)
    × Closed directory (In sets st.members) R entry
    × ((M S : Bytes → Type 0)
        → Closed directory M S entry
        → (u : Bytes) → In sets st.members u
        → M u)

module _ (sets : StringSet) (directory : Directory) where
  module _ (entry : Entry) (universe : List Bytes)
      (consistent : (e : Entry) → Consistent sets directory (directory.deref_values e))
      (closed : Closed directory (λ u. Unit {0}) (λ dn. contains universe dn ≡ true) entry) where
    module _ (t : Sets sets)
        (settled : (dn : Bytes)
          → In sets t.seen dn
          → Kind directory (In sets t.members) (Done sets directory t) dn (directory.dn2uid dn))
        (covered : Covered sets directory entry t) where
      -- The groups that were seen.
      abbrev Group : Bytes → Type 0
      Group dn = In sets t.seen dn × (directory.dn2uid dn ≡ none)

      kind_lem :
          (dn : Bytes)
          → In sets t.seen dn
          → Kind directory (In sets t.members) Group dn (directory.dn2uid dn)
      kind_lem dn seen = elim (Option-cases (directory.dn2uid dn)) [
        | inl group ↦ subst (Kind directory (In sets t.members) Group dn) (sym group) (seen, group)
        | inr (u, user) ↦ subst (Kind directory (In sets t.members) Group dn) (sym user) (
            subst (Kind directory (In sets t.members) (Done sets directory t) dn) user
              (settled dn seen))
      ]

      kinds_lem :
          (dns : List Bytes)
          → All (λ dn. Seen sets directory dn t) dns
          → All (λ dn. Kind directory (In sets t.members) Group dn (directory.dn2uid dn)) dns
      kinds_lem [] h = tt
      kinds_lem (dn ∷ dns) (seen, h) = (kind_lem dn seen, kinds_lem dns h)

      groups_lem :
          (dns : List Bytes)
          → All (λ dn. directory.dn2uid dn ≡ none) dns
          → All (λ dn. Seen sets directory dn t) dns
          → All Group dns
      groups_lem [] g h = tt
      groups_lem (dn ∷ dns) (g, gs) (seen, h) = ((seen, g), groups_lem dns gs h)

      values_lem :
          (dns : List Bytes) (o : Option (List Bytes × List Bytes))
          → Consistent sets directory o
          → CoveredValues sets directory t dns o
          → Values directory (In sets t.members) Group dns o
      values_lem dns none c h = kinds_lem dns h
      values_lem dns (some (uids, groups)) c (h, k) = (h, groups_lem groups c k)

      rules_lem :
          (e : Entry) → Covered sets directory e t → Rules directory (In sets t.members) Group e
      rules_lem e (h, k) = (
        h,
        λ follows.
            values_lem (values_of e directory.member) (directory.deref_values e) (consistent e)
              (k follows),
      )

      all_rules_lem :
          (entries : List Entry)
          → All (λ e. Covered sets directory e t) entries
          → All (Rules directory (In sets t.members) Group) entries
      all_rules_lem [] h = tt
      all_rules_lem (e ∷ entries) (c, h) = (rules_lem e c, all_rules_lem entries h)

      closed_lem : Closed directory (In sets t.members) Group entry
      closed_lem = (
        rules_lem entry covered,
        λ dn (seen, group). all_rules_lem (entries_of (directory.lookup dn)) (
            subst (Kind directory (In sets t.members) (Done sets directory t) dn) group
              (settled dn seen)),
      )

    abbrev start : Sets sets
    start = record { members = sets.set_new; seen = sets.set_new; subgroups = sets.set_new }

    start_empty : (j : Bytes) {P : Type 0} → In sets sets.set_new j → P
    start_empty j h = let empty = sets.contains_new j in cc

    total-start : (dns : List Bytes) → total sets directory dns start ≤ 2 * length dns
    unfolding total
    total-start [] = omega arith
    total-start (dn ∷ dns) = ground (arith, total-start dns, sets.contains_new dn)

    first_step :
        Step sets directory start
          (getmembers sets directory (state sets start) entry)
          (λ M R. Rules directory M R entry)
          (Covered sets directory entry)
    first_step = getmembers_lem sets directory start entry (consistent entry)

    start-Within : (M R : Bytes → Type 0) → Within sets directory M R start
    start-Within M R = ((λ u h. start_empty u h), λ dn h. start_empty dn h)

    start_Inv : Inv sets directory entry universe consistent closed first_step.after
    start_Inv =
        let s = first_step in
        record {
          settled = λ dn seen. elim (s.ext.dealt dn seen) [
            | inl before ↦ start_empty dn before
            | inr now ↦
                Kind-grows sets directory (In sets s.after.members) (In sets s.after.members)
                  (In sets s.after.subgroups) (Waits sets directory s.after) dn
                  (directory.dn2uid dn) (λ u h. h) (λ d h. inl h) now
          ];
          covered = s.done;
          known =
              (s.sound (λ u. Unit {0}) (λ dn. contains universe dn ≡ true) closed.0
                (start-Within _ _)).1;
        }

    collected :
        (fuel : ℕ)
        → 2 * length universe < fuel
        → Least sets directory entry (collect_members sets directory fuel true entry)
    unfolding collect_members
    collected fuel h =
        let s = first_step in
        let bound = total_le sets directory universe start s.after s.ext.less in
        let end =
          drain_lem sets directory entry universe consistent closed fuel s.after start_Inv
            (omega (arith, bound, total-start universe)) in
        (
          state sets end.after,
          Group end.after end.settled end.covered,
          ap (drain sets directory fuel) s.result ∙ end.result,
          closed_lem end.after end.settled end.covered,
          λ M S c u m. end.least M S c (s.sound M S c.0 (start-Within M S)) u m,
        )

-- With nested groups, where a directory has finitely many DNs of members, and gives no user for a DN
-- that it did not dereference, the loop over the nested groups ends, and the members that it collects
-- are the least set of users that is closed under the rules.  Fuel of more than twice the DNs is enough.
pub collect_members_lem :
    (sets : StringSet) (directory : Directory) (entry : Entry) (universe : List Bytes) (fuel : ℕ)
    → ((e : Entry) → Consistent sets directory (directory.deref_values e))
    → Closed directory (λ u. Unit) (λ dn. contains universe dn ≡ true) entry
    → 2 * length universe < fuel
    → Least sets directory entry (collect_members sets directory fuel true entry)
collect_members_lem sets directory entry universe fuel consistent closed h =
    collected sets directory entry universe consistent closed fuel h
