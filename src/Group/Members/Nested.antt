-- ===== src/Group/Members/Nested.antt =====
-- nslcd/group.c: the loop over the nested groups.
use nss_pam_ldapd.Prelude.{
  ℕ, zero, suc, ◌+◌, ◌≤◌, ◌<◌, ◌≡◌, refl, sym, subst, ◌⊎◌, inl, inr, true, List, [], ◌∷◌, Option,
  none, some, if◌then◌else◌, All, arith, Bool-cases, Option-cases,
}
use nss_pam_ldapd.Bytes.{Bytes, contains, ◌=ₛ◌, =ₛ_iff, =ₛ_refl}
use nss_pam_ldapd.Attmap.{Entry}
use nss_pam_ldapd.Ldap.{entries_of}
use nss_pam_ldapd.Set.Interface.{StringSet}
use nss_pam_ldapd.Group.{Directory, State, getmembers_all, drain}
use nss_pam_ldapd.Group.Members.{
  Kind, Rules, Closed, Sets, state, In, weight, Ext, Within, Kind-grows,
}
use nss_pam_ldapd.Group.Members.Visit.{Step, Covered, Consistent, Covered-grows, getmembers_all_lem}

module _ (sets : StringSet) (directory : Directory) where
  -- The entries of a group are covered.
  abbrev pub Done : Sets sets → Bytes → Type 0
  Done t dn = All (λ e. Covered sets directory e t) (entries_of (directory.lookup dn))

  abbrev pub Waits : Sets sets → Bytes → Type 0
  Waits t d = In sets t.subgroups d ⊎ Done t d

  nothing_waits :
      (t : Sets sets) (d : Bytes)
      → (sets.set_pop t.subgroups).0 ≡ none
      → In sets t.subgroups d
      → Done t d
  nothing_waits t d e waits = let empty = sets.pop_none t.subgroups d e in cc

  -- What was seen is a user that is a member, or a group that waits or is done.
  abbrev pub Settled : Sets sets → Bytes → Type 0
  Settled t dn = Kind directory (In sets t.members) (Waits t) dn (directory.dn2uid dn)

  unfoldable pub total : List Bytes → Sets sets → ℕ
  total [] t = 0
  total (dn ∷ dns) t = weight sets t dn + total dns t

  pub total_le :
      (dns : List Bytes) (t t' : Sets sets)
      → ((dn : Bytes) → weight sets t' dn ≤ weight sets t dn)
      → total dns t' ≤ total dns t
  unfolding total
  total_le [] t t' h = omega arith
  total_le (dn ∷ dns) t t' h = omega (arith, h dn, total_le dns t t' h)

  abbrev pub left : Sets sets → sets.Carrier → Sets sets
  left t s = record t { subgroups = s }

  -- A group that is popped has less to be done, and no other has more.
  pop_weight :
      (t : Sets sets) (k d : Bytes)
      → (sets.set_pop t.subgroups).0 ≡ some k
      → weight sets (left t (sets.set_pop t.subgroups).1) d + (if k =ₛ d then 1 else 0)
        ≤ weight sets t d
  pop_weight t k d e = elim (Bool-cases (k =ₛ d)) [
    | inl same ↦
        let waits : sets.set_contains t.subgroups d ≡ true =
          subst (In sets t.subgroups) ((=ₛ_iff k d).0 same) (sets.pop_member t.subgroups k e) in
        ground (arith, sets.pop_others t.subgroups k d e)
    | inr other ↦ ground (arith, sets.pop_others t.subgroups k d e)
  ]

  pub total_pop :
      (dns : List Bytes) (t : Sets sets) (k : Bytes)
      → (sets.set_pop t.subgroups).0 ≡ some k
      → contains dns k ≡ true
      → total dns (left t (sets.set_pop t.subgroups).1) < total dns t
  unfolding total contains
  total_pop [] t k e h = cc
  total_pop (dn ∷ dns) t k e h =
      let rest =
        total_le dns t (left t (sets.set_pop t.subgroups).1)
          (λ d. omega (arith, pop_weight t k d e)) in
      elim (Bool-cases (dn =ₛ k)) [
        | inl same ↦
            let same' : (k =ₛ dn) ≡ true =
              subst (λ x. (k =ₛ x) ≡ true) (sym ((=ₛ_iff dn k).0 same)) (=ₛ_refl k) in
            ground (arith, pop_weight t k dn e, rest)
        | inr other ↦
            ground (arith, pop_weight t k dn e, total_pop dns t k e (ground (arith, h, other)))
      ]

  module _ (entry : Entry) (universe : List Bytes)
      (consistent : (e : Entry) → Consistent sets directory (directory.deref_values e))
      (closed : Closed directory (λ u. Unit {0}) (λ dn. contains universe dn ≡ true) entry) where
    -- What holds before each round of the loop.
    pub record Inv (t : Sets sets) : Type 0 where
      pub settled : (dn : Bytes) → In sets t.seen dn → Settled t dn
      pub covered : Covered sets directory entry t
      pub known : (dn : Bytes) → In sets t.subgroups dn → contains universe dn ≡ true

    -- What holds behind the loop.
    pub record Finished (t : Sets sets) (r : Option (State sets)) : Type 1 where
      pub after : Sets sets
      pub result : r ≡ some (state sets after)
      pub settled :
          (dn : Bytes)
          → In sets after.seen dn
          → Kind directory (In sets after.members) (Done after) dn (directory.dn2uid dn)
      pub covered : Covered sets directory entry after
      pub least :
          (M R : Bytes → Type 0)
          → Closed directory M R entry
          → Within sets directory M R t
          → (u : Bytes) → In sets after.members u
          → M u

    abbrev popped : Sets sets → Sets sets
    popped t = left t (sets.set_pop t.subgroups).1

    all-Consistent :
        (entries : List Entry)
        → All (λ e. Consistent sets directory (directory.deref_values e)) entries
    all-Consistent [] = tt
    all-Consistent (e ∷ entries) = (consistent e, all-Consistent entries)

    round_step :
        (t : Sets sets) (k : Bytes)
        → Step sets directory
            (popped t)
            (getmembers_all sets directory
              (state sets (popped t))
              (entries_of (directory.lookup k)))
            (λ M R. All (Rules directory M R) (entries_of (directory.lookup k)))
            (λ t'. Done t' k)
    round_step t k =
        getmembers_all_lem sets directory (popped t) (entries_of (directory.lookup k))
          (all-Consistent (entries_of (directory.lookup k)))

    Done-grows : (t t' : Sets sets) (dn : Bytes) → Ext sets directory t t' → Done t dn → Done t' dn
    Done-grows t t' dn x h = covered-all (entries_of (directory.lookup dn)) h
      where
        covered-all :
            (entries : List Entry)
            → All (λ e. Covered sets directory e t) entries
            → All (λ e. Covered sets directory e t') entries
        covered-all [] h = tt
        covered-all (e ∷ entries) (c, cs) =
            (Covered-grows sets directory e t t' x c, covered-all entries cs)

    waits_or_done :
        (t : Sets sets) (k d : Bytes)
        → (sets.set_pop t.subgroups).0 ≡ some k
        → In sets t.subgroups d ⊎ Done t d
        → In sets ((round_step t k).after).subgroups d ⊎ Done ((round_step t k).after) d
    waits_or_done t k d e (inr done) =
        inr (Done-grows (popped t) ((round_step t k).after) d ((round_step t k).ext) done)
    waits_or_done t k d e (inl waits) = elim (Bool-cases (k =ₛ d)) [
      | inl same ↦
          inr (subst (Done ((round_step t k).after)) ((=ₛ_iff k d).0 same) ((round_step t k).done))
      | inr other ↦
          inl ((round_step t k).ext.subgroups d (ground (arith, sets.pop_others t.subgroups k d e)))
    ]

    round_Inv :
        (t : Sets sets) (k : Bytes)
        → (sets.set_pop t.subgroups).0 ≡ some k
        → Inv t
        → Inv ((round_step t k).after)
    round_Inv t k e inv =
        let s = round_step t k in
        record {
          settled = λ dn seen. elim (s.ext.dealt dn seen) [
            | inl before ↦
                Kind-grows sets directory (In sets t.members) (In sets s.after.members) (Waits t)
                  (Waits s.after) dn (directory.dn2uid dn) s.ext.members
                  (λ d h. waits_or_done t k d e h) (inv.settled dn before)
            | inr now ↦
                Kind-grows sets directory (In sets s.after.members) (In sets s.after.members)
                  (In sets s.after.subgroups) (Waits s.after) dn (directory.dn2uid dn) (λ u h. h)
                  (λ d h. inl h) now
          ];
          covered = Covered-grows sets directory entry (popped t) s.after s.ext inv.covered;
          known =
              (s.sound (λ u. Unit {0}) (λ dn. contains universe dn ≡ true)
                (closed.1 k (inv.known k (sets.pop_member t.subgroups k e)))
                (
                  (λ u h. tt),
                  λ dn h. inv.known dn (ground (arith, sets.pop_others t.subgroups k dn e)),
                )).1;
        }

    -- Where nothing waits, what was seen is done.
    end_lem :
        (t : Sets sets)
        → (sets.set_pop t.subgroups).0 ≡ none
        → Inv t
        → Finished t (some (state sets (popped t)))
    end_lem t e inv = record {
      after = popped t;
      result = refl;
      settled = λ dn seen.
          Kind-grows sets directory (In sets t.members) (In sets t.members) (Waits t)
            (Done (popped t)) dn (directory.dn2uid dn) (λ u h. h)
            (λ d h. elim h [ inl waits ↦ nothing_waits t d e waits | inr done ↦ done ])
            (inv.settled dn seen);
      covered = inv.covered;
      least = λ M R c (f, g) u h. f u h;
    }

    pub drain_lem :
        (fuel : ℕ) (t : Sets sets)
        → Inv t
        → total universe t < fuel
        → Finished t (drain sets directory fuel (state sets t))
    unfolding drain
    drain_lem zero t inv h = absurd (omega arith)
    drain_lem (suc fuel) t inv h = elim (Option-cases (sets.set_pop t.subgroups).0) [
      | inl e ↦ rw e (end_lem t e inv)
      | inr (k, e) ↦
          let s = round_step t k in
          let later = drain_lem fuel s.after (round_Inv t k e inv) (
            omega (
              arith,
              total_le universe (popped t) s.after s.ext.less,
              total_pop universe t k e (inv.known k (sets.pop_member t.subgroups k e)),
            )) in
          rw (e, s.result)
            (record {
              after = later.after;
              result = later.result;
              settled = later.settled;
              covered = later.covered;
              least = λ M R c (f, g) u h.
                  later.least M R c
                    (s.sound M R (c.1 k (g k (sets.pop_member t.subgroups k e)))
                      (f, λ d w. g d (ground (arith, sets.pop_others t.subgroups k d e))))
                    u h;
            })
    ]
