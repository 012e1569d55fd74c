-- ===== src/Group/Members.antt =====
-- nslcd/group.c: when a set of members is closed under the values of a group and of those nested in
-- it.
pub mod Visit
pub mod Nested
pub mod Least
use nss_pam_ldapd.Prelude.{
  ℕ, ◌+◌, ◌≤◌, ◌≡◌, ◌≢◌, refl, sym, ◌∙◌, ◌⊎◌, inl, inr, Bool, true, false, not, ◌||◌, List, [], ◌∷◌,
  Option, none, some, if◌then◌else◌, All, arith, Bool-cases,
}
use nss_pam_ldapd.Bytes.{Bytes, bytes, ◌=ₛ◌, =ₛ_iff, =ₛ_refl}
use nss_pam_ldapd.Attmap.{Entry, equal_ignoring_case}
use nss_pam_ldapd.Passwd.{values_of}
use nss_pam_ldapd.Set.Interface.{StringSet}
use nss_pam_ldapd.Group.{Directory, State, Nesting}
use nss_pam_ldapd.Ldap.{entries_of}

module _ (directory : Directory) where
  -- The member attribute is not blank.
  abbrev pub Follows : Type 0
  Follows = equal_ignoring_case directory.member (bytes "\"\"") ≡ false

  module _ (M R : Bytes → Type 0) where
    -- A DN is that of a user in `M`, or of a group in `R`.
    abbrev pub Kind : Bytes → Option Bytes → Type 0
    Kind dn (some uid) = M uid
    Kind dn none = R dn

    abbrev pub Values : List Bytes → Option (List Bytes × List Bytes) → Type 0
    Values dns none = All (λ dn. Kind dn (directory.dn2uid dn)) dns
    Values dns (some (uids, groups)) = All M uids × All R groups

    -- The users of an entry are in `M`, and the groups nested in it are in `R`.
    abbrev pub Rules : Entry → Type 0
    Rules e =
        All (λ v. directory.isvalidname v ≡ true → M v) (values_of e directory.member_uid)
        × (Follows → Values (values_of e directory.member) (directory.deref_values e))

    -- So it is for an entry and for the entries of all groups in `R`.
    abbrev pub Closed : Entry → Type 0
    Closed e = Rules e × ((dn : Bytes) → R dn → All Rules (entries_of (directory.lookup dn)))

-- The sets `members`, `seen` and `subgroups`, where nested groups are followed.
module _ (sets : StringSet) where
  pub record Sets : Type 0 where
    pub members : sets.Carrier
    pub seen : sets.Carrier
    pub subgroups : sets.Carrier

  abbrev pub state : Sets → State sets
  state t = record {
    members = t.members;
    nesting = some (record { seen = t.seen; subgroups = t.subgroups });
  }

  abbrev pub In : sets.Carrier → Bytes → Type 0
  In s j = sets.set_contains s j ≡ true

  -- What is still to be done for a DN.
  abbrev pub weight : Sets → Bytes → ℕ
  weight t dn =
      (if sets.set_contains t.subgroups dn then 1 else 0)
      + (if sets.set_contains t.seen dn then 0 else 2)

  module _ (directory : Directory) where
    -- A DN that was seen is dealt with: its user is a member, or it waits as a group.
    abbrev pub Dealt : Sets → Bytes → Type 0
    Dealt t dn = Kind directory (In t.members) (In t.subgroups) dn (directory.dn2uid dn)

    -- The sets have grown, no DN has more to be done, and what is seen for the first time is dealt
    -- with.
    pub record Ext (t t' : Sets) : Type 0 where
      pub members : (u : Bytes) → In t.members u → In t'.members u
      pub seen : (dn : Bytes) → In t.seen dn → In t'.seen dn
      pub subgroups : (dn : Bytes) → In t.subgroups dn → In t'.subgroups dn
      pub less : (dn : Bytes) → weight t' dn ≤ weight t dn
      pub dealt : (dn : Bytes) → In t'.seen dn → In t.seen dn ⊎ Dealt t' dn

    pub Kind-grows :
        (M M' R R' : Bytes → Type 0) (dn : Bytes) (o : Option Bytes)
        → ((u : Bytes) → M u → M' u)
        → ((d : Bytes) → R d → R' d)
        → Kind directory M R dn o
        → Kind directory M' R' dn o
    Kind-grows M M' R R' dn none f g h = g dn h
    Kind-grows M M' R R' dn (some uid) f g h = f uid h

    pub Ext-refl : (t : Sets) → Ext t t
    Ext-refl t = record {
      members = λ u h. h;
      seen = λ dn h. h;
      subgroups = λ dn h. h;
      less = λ dn. omega arith;
      dealt = λ dn h. inl h;
    }

    pub Ext-trans : (t t' t'' : Sets) → Ext t t' → Ext t' t'' → Ext t t''
    Ext-trans t t' t'' x y = record {
      members = λ u h. y.members u (x.members u h);
      seen = λ dn h. y.seen dn (x.seen dn h);
      subgroups = λ dn h. y.subgroups dn (x.subgroups dn h);
      less = λ dn. omega (arith, x.less dn, y.less dn);
      dealt = λ dn h. elim (y.dealt dn h) [
        | inr d ↦ inr d
        | inl s ↦ elim (x.dealt dn s) [
          | inl s' ↦ inl s'
          | inr d ↦ inr (
              Kind-grows (In t'.members) (In t''.members) (In t'.subgroups) (In t''.subgroups) dn
                (directory.dn2uid dn) y.members y.subgroups d)
        ]
      ];
    }

    -- The members and the waiting groups are in the sets of a closed pair.
    abbrev pub Within : (M R : Bytes → Type 0) → Sets → Type 0
    Within M R t = ((u : Bytes) → In t.members u → M u) × ((dn : Bytes) → In t.subgroups dn → R dn)

  pub added_same : (s : sets.Carrier) (v : Bytes) → In (sets.set_add s v) v
  added_same s v = rw (sets.contains_add s v v, =ₛ_refl v) refl

  pub added_other : (s : sets.Carrier) (v j : Bytes) → In s j → In (sets.set_add s v) j
  added_other s v j h = ground (arith, sets.contains_add s v j, h)

  pub added_cases : (s : sets.Carrier) (v j : Bytes) → In (sets.set_add s v) j → (v ≡ j) ⊎ In s j
  added_cases s v j h = elim (Bool-cases (v =ₛ j)) [
    | inl e ↦ inl ((=ₛ_iff v j).0 e)
    | inr e ↦ inr (ground (arith, sets.contains_add s v j, h, e))
  ]
