-- ===== src/Group/Members/Visit.antt =====
-- nslcd/group.c: what getmembers() does to the three sets.
use nss_pam_ldapd.Prelude.{
  ◌≤◌, ◌≡◌, refl, sym, ap, subst, ◌∙◌, inl, inr, true, false, List, [], ◌∷◌, Option, none, some,
  if◌then◌else◌, All, arith, Bool-cases, Option-cases,
}
use nss_pam_ldapd.Bytes.{Bytes, bytes, ◌=ₛ◌, =ₛ_iff}
use nss_pam_ldapd.Attmap.{Entry, equal_ignoring_case}
use nss_pam_ldapd.Passwd.{values_of}
use nss_pam_ldapd.Set.Interface.{StringSet}
use nss_pam_ldapd.Group.{
  Directory, State, add_valid, add_all, visit_subgroup, visit_subgroups, visit_member,
  visit_members, visit_values, getmembers, getmembers_all,
}
use nss_pam_ldapd.Group.Members.{
  Follows, Kind, Values, Rules, Sets, state, In, weight, Dealt, Ext, Ext-refl, Ext-trans, Within,
  added_same, added_other, added_cases,
}

module _ (sets : StringSet) (directory : Directory) where
  -- What a call does: the sets behind it, what it assumes of a pair that the sets are within, and what
  -- it has done.
  pub record Step (t : Sets sets) (r : State sets) (Assumed : (M R : Bytes → Type 0) → Type 0)
      (Done : Sets sets → Type 0) : Type 1 where
    pub after : Sets sets
    pub result : r ≡ state sets after
    pub ext : Ext sets directory t after
    pub done : Done after
    pub sound :
        (M R : Bytes → Type 0)
        → Assumed M R
        → Within sets directory M R t
        → Within sets directory M R after

  abbrev pub Member : Bytes → Sets sets → Type 0
  Member u t = In sets t.members u

  abbrev pub Seen : Bytes → Sets sets → Type 0
  Seen dn t = In sets t.seen dn

  add_member_lem :
      (t : Sets sets) (u : Bytes)
      → Step t
          (state sets (record t { members = sets.set_add t.members u }))
          (λ M R. M u)
          (Member u)
  add_member_lem t u = record {
    after = record t { members = sets.set_add t.members u };
    result = refl;
    ext = record {
      members = λ v h. added_other sets t.members u v h;
      seen = λ dn h. h;
      subgroups = λ dn h. h;
      less = λ dn. omega arith;
      dealt = λ dn h. inl h;
    };
    done = added_same sets t.members u;
    sound = λ M R m (f, g). (
      (λ v h. elim (added_cases sets t.members u v h) [ inl e ↦ subst M e m | inr k ↦ f v k ]),
      g,
    );
  }

  weight_seen :
      (t : Sets sets) (m : sets.Carrier) (dn d : Bytes)
      → weight sets
          (record { members = m; seen = sets.set_add t.seen dn; subgroups = t.subgroups })
          d
        ≤ weight sets t d
  weight_seen t m dn d = ground (arith, sets.contains_add t.seen dn d)

  -- A DN that is seen for the first time and waits has one thing less to be done.
  pub weight_both :
      (t : Sets sets) (dn d : Bytes)
      → sets.set_contains t.seen dn ≡ false
      → weight sets
          (record t { seen = sets.set_add t.seen dn; subgroups = sets.set_add t.subgroups dn })
          d
        ≤ weight sets t d
  weight_both t dn d h = elim (Bool-cases (dn =ₛ d)) [
    | inl e ↦
        let unseen : sets.set_contains t.seen d ≡ false =
          subst (λ x. sets.set_contains t.seen x ≡ false) ((=ₛ_iff dn d).0 e) h in
        ground (arith, sets.contains_add t.seen dn d, sets.contains_add t.subgroups dn d)
    | inr e ↦ ground (arith, sets.contains_add t.seen dn d, sets.contains_add t.subgroups dn d)
  ]

  abbrev waiting : Sets sets → Bytes → Sets sets
  waiting t dn = record t { seen = sets.set_add t.seen dn; subgroups = sets.set_add t.subgroups dn }

  abbrev named : Sets sets → Bytes → Bytes → Sets sets
  named t dn u = record t { members = sets.set_add t.members u; seen = sets.set_add t.seen dn }

  waiting-Ext :
      (t : Sets sets) (dn : Bytes)
      → directory.dn2uid dn ≡ none
      → sets.set_contains t.seen dn ≡ false
      → Ext sets directory t (waiting t dn)
  waiting-Ext t dn group new = record {
    members = λ u h. h;
    seen = λ d h. added_other sets t.seen dn d h;
    subgroups = λ d h. added_other sets t.subgroups dn d h;
    less = λ d. weight_both t dn d new;
    dealt = λ d h. elim (added_cases sets t.seen dn d h) [
      | inr k ↦ inl k
      | inl e ↦ inr (
          subst (Dealt sets directory (waiting t dn)) e (
            subst (Kind directory (In sets t.members) (In sets (waiting t dn).subgroups) dn)
              (sym group) (added_same sets t.subgroups dn)))
    ];
  }

  named-Ext :
      (t : Sets sets) (dn u : Bytes)
      → directory.dn2uid dn ≡ some u
      → Ext sets directory t (named t dn u)
  named-Ext t dn u user = record {
    members = λ v h. added_other sets t.members u v h;
    seen = λ d h. added_other sets t.seen dn d h;
    subgroups = λ d h. h;
    less = λ d. weight_seen t (sets.set_add t.members u) dn d;
    dealt = λ d h. elim (added_cases sets t.seen dn d h) [
      | inr k ↦ inl k
      | inl e ↦ inr (
          subst (Dealt sets directory (named t dn u)) e (
            subst (Kind directory (In sets (named t dn u).members) (In sets t.subgroups) dn)
              (sym user) (added_same sets t.members u)))
    ];
  }

  -- A group that is new waits.
  visit_subgroup_lem :
      (t : Sets sets) (dn : Bytes)
      → directory.dn2uid dn ≡ none
      → Step t (visit_subgroup sets directory (state sets t) dn) (λ M R. R dn) (Seen dn)
  unfolding visit_subgroup
  visit_subgroup_lem t dn group = elim (Bool-cases (sets.set_contains t.seen dn)) [
    | inl old ↦ record {
      after = t;
      result = rw old refl;
      ext = Ext-refl sets directory t;
      done = old;
      sound = λ M R r w. w;
    }
    | inr new ↦ record {
      after = waiting t dn;
      result = rw new refl;
      ext = waiting-Ext t dn group new;
      done = added_same sets t.seen dn;
      sound = λ M R r (f, g). (
        f,
        λ d h. elim (added_cases sets t.subgroups dn d h) [ inl e ↦ subst R e r | inr k ↦ g d k ],
      );
    }
  ]

  -- A user that is new is a member, a group that is new waits.
  visit_member_lem :
      (t : Sets sets) (dn : Bytes)
      → Step t
          (visit_member sets directory (state sets t) dn)
          (λ M R. Kind directory M R dn (directory.dn2uid dn))
          (Seen dn)
  unfolding visit_member
  visit_member_lem t dn = elim (Bool-cases (sets.set_contains t.seen dn)) [
    | inl old ↦ record {
      after = t;
      result = rw old refl;
      ext = Ext-refl sets directory t;
      done = old;
      sound = λ M R r w. w;
    }
    | inr new ↦ elim (Option-cases (directory.dn2uid dn)) [
      | inl group ↦ record {
        after = waiting t dn;
        result = rw (new, group) refl;
        ext = waiting-Ext t dn group new;
        done = added_same sets t.seen dn;
        sound = λ M R k (f, g).
            let r : R dn = subst (Kind directory M R dn) group k in
            (
              f,
              λ d h. elim (added_cases sets t.subgroups dn d h) [
                | inl e ↦ subst R e r
                | inr k' ↦ g d k'
              ],
            );
      }
      | inr (u, user) ↦ record {
        after = named t dn u;
        result = rw (new, user) refl;
        ext = named-Ext t dn u user;
        done = added_same sets t.seen dn;
        sound = λ M R k (f, g).
            let m : M u = subst (Kind directory M R dn) user k in
            (
              (λ v h. elim (added_cases sets t.members u v h) [
                | inl e ↦ subst M e m
                | inr k' ↦ f v k'
              ]),
              g,
            );
      }
    ]
  ]

  -- A step and then another.
  chain_lem :
      {t : Sets sets} {r : State sets} {A B : (M R : Bytes → Type 0) → Type 0}
      {D E : Sets sets → Type 0} (f : State sets → State sets)
      → Step t r A D
      → ((t' : Sets sets) → Step t' (f (state sets t')) B E)
      → ((t' t'' : Sets sets) → Ext sets directory t' t'' → D t' → D t'')
      → Step t (f r) (λ M R. A M R × B M R) (λ t'. D t' × E t')
  chain_lem {t} f x k mono =
      let y = k x.after in
      record {
        after = y.after;
        result = ap f x.result ∙ y.result;
        ext = Ext-trans sets directory t x.after y.after x.ext y.ext;
        done = (mono x.after y.after y.ext x.done, y.done);
        sound = λ M R (a, b) w. y.sound M R b (x.sound M R a w);
      }

  nothing_lem : (t : Sets sets) → Step t (state sets t) (λ M R. Unit {0}) (λ t'. Unit {0})
  nothing_lem t = record {
    after = t;
    result = refl;
    ext = Ext-refl sets directory t;
    done = tt;
    sound = λ M R u w. w;
  }

  Member-grows : (u : Bytes) (t t' : Sets sets) → Ext sets directory t t' → Member u t → Member u t'
  Member-grows u t t' x h = x.members u h

  Seen-grows : (dn : Bytes) (t t' : Sets sets) → Ext sets directory t t' → Seen dn t → Seen dn t'
  Seen-grows dn t t' x h = x.seen dn h

  add_all_lem :
      (t : Sets sets) (uids : List Bytes)
      → Step t
          (add_all sets directory (state sets t) uids)
          (λ M R. All M uids)
          (λ t'. All (λ u. Member u t') uids)
  unfolding add_all
  add_all_lem t [] = nothing_lem t
  add_all_lem t (u ∷ uids) =
      chain_lem (λ st. add_all sets directory st uids) (add_member_lem t u)
        (λ t'. add_all_lem t' uids) (Member-grows u)

  -- A name is added if it is valid.
  add_checked_lem :
      (t : Sets sets) (u : Bytes)
      → Step t
          (if directory.isvalidname u
            then state sets (record t { members = sets.set_add t.members u })
            else state sets t)
          (λ M R. directory.isvalidname u ≡ true → M u)
          (λ t'. directory.isvalidname u ≡ true → Member u t')
  add_checked_lem t u = elim (Bool-cases (directory.isvalidname u)) [
    | inl valid ↦
        let x = add_member_lem t u in
        record {
          after = x.after;
          result = rw valid x.result;
          ext = x.ext;
          done = λ v. x.done;
          sound = λ M R m w. x.sound M R (m valid) w;
        }
    | inr invalid ↦ record {
      after = t;
      result = rw invalid refl;
      ext = Ext-refl sets directory t;
      done = λ v. cc;
      sound = λ M R m w. w;
    }
  ]

  add_valid_lem :
      (t : Sets sets) (values : List Bytes)
      → Step t
          (add_valid sets directory (state sets t) values)
          (λ M R. All (λ v. directory.isvalidname v ≡ true → M v) values)
          (λ t'. All (λ v. directory.isvalidname v ≡ true → Member v t') values)
  unfolding add_valid
  add_valid_lem t [] = nothing_lem t
  add_valid_lem t (v ∷ values) =
      chain_lem (λ st. add_valid sets directory st values) (add_checked_lem t v)
        (λ t'. add_valid_lem t' values) (λ t' t'' x h valid. Member-grows v t' t'' x (h valid))

  visit_subgroups_lem :
      (t : Sets sets) (dns : List Bytes)
      → All (λ dn. directory.dn2uid dn ≡ none) dns
      → Step t
          (visit_subgroups sets directory (state sets t) dns)
          (λ M R. All R dns)
          (λ t'. All (λ dn. Seen dn t') dns)
  unfolding visit_subgroups
  visit_subgroups_lem t [] a = nothing_lem t
  visit_subgroups_lem t (dn ∷ dns) (a, as') =
      chain_lem (λ st. visit_subgroups sets directory st dns) (visit_subgroup_lem t dn a)
        (λ t'. visit_subgroups_lem t' dns as') (Seen-grows dn)

  visit_members_lem :
      (t : Sets sets) (dns : List Bytes)
      → Step t
          (visit_members sets directory (state sets t) dns)
          (λ M R. All (λ dn. Kind directory M R dn (directory.dn2uid dn)) dns)
          (λ t'. All (λ dn. Seen dn t') dns)
  unfolding visit_members
  visit_members_lem t [] = nothing_lem t
  visit_members_lem t (dn ∷ dns) =
      chain_lem (λ st. visit_members sets directory st dns) (visit_member_lem t dn)
        (λ t'. visit_members_lem t' dns) (Seen-grows dn)

  -- What is done for an entry: its users are members, and the DNs of its members were seen.
  abbrev pub CoveredValues : Sets sets → List Bytes → Option (List Bytes × List Bytes) → Type 0
  CoveredValues t dns none = All (λ dn. Seen dn t) dns
  CoveredValues t dns (some (uids, groups)) =
      All (λ u. Member u t) uids × All (λ dn. Seen dn t) groups

  abbrev pub Covered : Entry → Sets sets → Type 0
  Covered e t =
      All (λ v. directory.isvalidname v ≡ true → Member v t) (values_of e directory.member_uid)
      × (Follows directory
          → CoveredValues t (values_of e directory.member) (directory.deref_values e))

  -- A DN for which the server gives no user is none of a user.
  abbrev pub Consistent : Option (List Bytes × List Bytes) → Type 0
  Consistent none = Unit
  Consistent (some (uids, groups)) = All (λ dn. directory.dn2uid dn ≡ none) groups

  All-map {ℓ} :
      {A : Type ℓ} {P Q : A → Type 0} (xs : List A) → ((a : A) → P a → Q a) → All P xs → All Q xs
  All-map [] f h = tt
  All-map (x ∷ xs) f (p, h) = (f x p, All-map xs f h)

  CoveredValues-grows :
      (dns : List Bytes) (o : Option (List Bytes × List Bytes)) (t t' : Sets sets)
      → Ext sets directory t t'
      → CoveredValues t dns o
      → CoveredValues t' dns o
  CoveredValues-grows dns none t t' x h = All-map dns (λ dn. Seen-grows dn t t' x) h
  CoveredValues-grows dns (some (uids, groups)) t t' x (h, k) =
      (All-map uids (λ u. Member-grows u t t' x) h, All-map groups (λ dn. Seen-grows dn t t' x) k)

  pub Covered-grows :
      (e : Entry) (t t' : Sets sets) → Ext sets directory t t' → Covered e t → Covered e t'
  Covered-grows e t t' x (h, k) = (
    All-map (values_of e directory.member_uid) (λ v f valid. Member-grows v t t' x (f valid)) h,
    λ follows.
        CoveredValues-grows (values_of e directory.member) (directory.deref_values e) t t' x
          (k follows),
  )

  visit_values_lem :
      (t : Sets sets) (dns : List Bytes) (o : Option (List Bytes × List Bytes))
      → Consistent o
      → Step t
          (visit_values sets directory (state sets t) dns o)
          (λ M R. Values directory M R dns o)
          (λ t'. CoveredValues t' dns o)
  visit_values_lem t dns none c = visit_members_lem t dns
  visit_values_lem t dns (some (uids, groups)) c =
      chain_lem (λ st. visit_subgroups sets directory st groups) (add_all_lem t uids)
        (λ t'. visit_subgroups_lem t' groups c)
        (λ t' t'' x h. All-map uids (λ u. Member-grows u t' t'' x) h)

  follow_lem :
      (t : Sets sets) (e : Entry)
      → Consistent (directory.deref_values e)
      → Step t
          (if equal_ignoring_case directory.member (bytes "\"\"")
            then state sets t
            else visit_values sets directory
                (state sets t)
                (values_of e directory.member)
                (directory.deref_values e))
          (λ M R.
            Follows directory
            → Values directory M R (values_of e directory.member) (directory.deref_values e))
          (λ t'.
            Follows directory
            → CoveredValues t' (values_of e directory.member) (directory.deref_values e))
  follow_lem t e c = elim (Bool-cases (equal_ignoring_case directory.member (bytes "\"\""))) [
    | inl blank ↦ record {
      after = t;
      result = rw blank refl;
      ext = Ext-refl sets directory t;
      done = λ follows. cc;
      sound = λ M R m w. w;
    }
    | inr follows ↦
        let x = visit_values_lem t (values_of e directory.member) (directory.deref_values e) c in
        record {
          after = x.after;
          result = rw follows x.result;
          ext = x.ext;
          done = λ f. x.done;
          sound = λ M R m w. x.sound M R (m follows) w;
        }
  ]

  pub getmembers_lem :
      (t : Sets sets) (e : Entry)
      → Consistent (directory.deref_values e)
      → Step t
          (getmembers sets directory (state sets t) e)
          (λ M R. Rules directory M R e)
          (Covered e)
  unfolding getmembers
  getmembers_lem t e c =
      chain_lem
        (λ st.
          if equal_ignoring_case directory.member (bytes "\"\"")
          then st
          else visit_values sets directory st (values_of e directory.member)
              (directory.deref_values e))
        (add_valid_lem t (values_of e directory.member_uid)) (λ t'. follow_lem t' e c)
        (λ t' t'' x h.
          All-map (values_of e directory.member_uid)
            (λ v f valid. Member-grows v t' t'' x (f valid)) h)

  pub getmembers_all_lem :
      (t : Sets sets) (entries : List Entry)
      → All (λ e. Consistent (directory.deref_values e)) entries
      → Step t
          (getmembers_all sets directory (state sets t) entries)
          (λ M R. All (Rules directory M R) entries)
          (λ t'. All (λ e. Covered e t') entries)
  unfolding getmembers_all
  getmembers_all_lem t [] c = nothing_lem t
  getmembers_all_lem t (e ∷ entries) (c, cs) =
      chain_lem (λ st. getmembers_all sets directory st entries) (getmembers_lem t e c)
        (λ t'. getmembers_all_lem t' entries cs) (Covered-grows e)
