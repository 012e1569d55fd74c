-- ===== src/Group/Parents.antt =====
-- nslcd/group.c: the loop over the groups of a member and their parents.
use nss_pam_ldapd.Prelude.{
  ℕ, zero, suc, ◌*◌, ◌<◌, ◌≤◌, ◌≡◌, refl, sym, ap, ◌∙◌, inl, inr, Bool, true, false, not, ◌&&◌,
  List, [], ◌∷◌, ◌++◌, Option, none, some, length, arith, Bool-cases, Option-cases, All, subst,
  append-nil,
}
use nss_pam_ldapd.Bytes.{Bytes, contains}
use nss_pam_ldapd.Outcome.{
  Outcome, Ensures, holds, overruns, Ensures-bind, Ensures-if, Ensures-weaken,
}
use nss_pam_ldapd.Attmap.{Entry}
use nss_pam_ldapd.Ldap.{Search, failed, found, entries_of}
use nss_pam_ldapd.Protocol.{Item, int32, nslcd_result_end}
use nss_pam_ldapd.Nss.{Group}
use nss_pam_ldapd.Nss.RoundTrip.{group_items}
use nss_pam_ldapd.Handler.{Reply, header, reply, finish, with_search, empty_reply}
use nss_pam_ldapd.Handler.Results.{
  results, Results, Answer, All-append, results-append, handle-Answer,
}
use nss_pam_ldapd.Set.Interface.{StringSet}
use nss_pam_ldapd.Group.{Directory, Nesting}
use nss_pam_ldapd.Group.Members.{Sets, In, added_cases}
use nss_pam_ldapd.Group.Members.Visit.{weight_both}
use nss_pam_ldapd.Group.Members.Nested.{total, total_le, total_pop}
use nss_pam_ldapd.Group.Write.{GroupSettings}
use nss_pam_ldapd.Group.Answer.{AllowedGroup, write_group-Results}
use nss_pam_ldapd.Group.Requests.{
  GroupRequest, group_bymember, write_parent, mark, write_parents, search_parents, check_parents,
  search_members, mkfilter_group_bymemberdn, mkfilter_group_bymember, answer_bymember, member_blank,
  with_uid, answer_filter,
}

-- Where only the DNs in the list are of entries that the directory finds.
abbrev pub Finds : GroupRequest → List Bytes → Type 0
Finds request universe =
    (base filter : Bytes)
    → All (λ e. contains universe e.dn ≡ true) (entries_of (request.lookup base filter))

module _ (settings : GroupSettings) (directory : Directory) (request : GroupRequest)
    (sets : StringSet) (universe : List Bytes) (finds : Finds request universe) where
  abbrev Good : Group → Type 0
  Good = AllowedGroup settings none

  -- What was written up to a point of the handler.
  abbrev Written : List Item → Type 0
  Written items =
      (rs : List Group) × (items ≡ header group_bymember ++ results group_items rs) × All Good rs

  Written-append :
      (xs ys : List Item) → Written xs → Results group_items Good ys → Written (xs ++ ys)
  Written-append xs ys (rs, e, a) (ss, f, b) = (
    rs ++ ss,
    (ap (λ l. l ++ ys) e ∙ ap (λ l. header group_bymember ++ results group_items rs ++ l) f)
        ∙ ap (λ l. header group_bymember ++ l) (sym (results-append group_items rs ss)),
    All-append Good rs ss a b,
  )

  abbrev as_sets : Nesting sets → Sets sets
  as_sets n = record { members = n.seen; seen = n.seen; subgroups = n.subgroups }

  abbrev left_to_do : Nesting sets → ℕ
  left_to_do n = total sets directory universe (as_sets n)

  -- Only DNs that the directory finds are to be checked.
  abbrev Known : Nesting sets → Type 0
  Known n = (dn : Bytes) → In sets n.subgroups dn → contains universe dn ≡ true

  -- What the loops keep, where no more is left to do than there was.
  abbrev Kept : Nesting sets → Nesting sets × List Item → Type 0
  Kept n r = Written r.1 × Known r.0 × (left_to_do r.0 ≤ left_to_do n)

  mark-Known :
      (n : Nesting sets) (dn : Bytes)
      → contains universe dn ≡ true
      → Known n
      → Known (mark settings directory request sets n dn)
  mark-Known n dn h known d w = elim (added_cases sets n.subgroups dn d w) [
    | inl e ↦ subst (λ x. contains universe x ≡ true) e h
    | inr k ↦ known d k
  ]

  mark-less :
      (n : Nesting sets) (dn : Bytes)
      → sets.set_contains n.seen dn ≡ false
      → left_to_do (mark settings directory request sets n dn) ≤ left_to_do n
  mark-less n dn new =
      total_le sets directory universe (as_sets n)
        (as_sets (mark settings directory request sets n dn))
        (λ d. weight_both sets directory (as_sets n) dn d new)

  write_parent-Results :
      (entry : Entry)
      → Ensures (Results group_items Good) (write_parent settings directory request sets entry)
  write_parent-Results entry =
      write_group-Results settings none sets directory 0 entry false (holds tt) none tt

  write_parents-Kept :
      (n : Nesting sets) (entries : List Entry) (items : List Item)
      → Written items
      → Known n
      → All (λ e. contains universe e.dn ≡ true) entries
      → Ensures (Kept n) (write_parents settings directory request sets n entries items)
  unfolding write_parents
  write_parents-Kept n [] items w known h = holds (w, known, omega arith)
  write_parents-Kept n (entry ∷ entries) items w known (h, hs) =
      elim (Bool-cases (sets.set_contains n.seen entry.dn)) [
        | inl seen ↦ rw seen (write_parents-Kept n entries items w known hs)
        | inr new ↦ rw new (
            Ensures-bind (write_parent-Results entry) (λ more good.
              let n' = mark settings directory request sets n entry.dn in
              Ensures-weaken
                (write_parents-Kept n' entries (items ++ more) (Written-append items more w good)
                  (mark-Known n entry.dn h known) hs)
                (λ r (w', known', less).
                  (w', known', omega (arith, less, mark-less n entry.dn new)))))
      ]

  search_parents-Kept :
      (filter : Bytes) (n : Nesting sets) (bases : List Bytes) (items : List Item)
      → Written items
      → Known n
      → Ensures (Kept n) (search_parents settings directory request sets filter n bases items)
  unfolding search_parents
  search_parents-Kept filter n [] items w known = holds (w, known, omega arith)
  search_parents-Kept filter n (base ∷ bases) items w known =
      Ensures-bind (write_parents-Kept n _ items w known (finds base filter))
        (λ r (w', known', less).
          Ensures-weaken (search_parents-Kept filter r.0 bases r.1 w' known')
            (λ r' (w'', known'', less'). (w'', known'', omega (arith, less, less'))))

  abbrev Answers : Reply → Type 0
  Answers = Answer group_items Good group_bymember

  -- What was written is an answer without the final code.
  stops : (items : List Item) → Written items → Ensures Answers (reply false items)
  stops items (rs, e, a) = holds (
    rs,
    [],
    e ∙ ap (λ l. header group_bymember ++ l) (sym (append-nil (results group_items rs))),
    inl refl,
    a,
  )

  ends : (items : List Item) (rc : Option Bool) → Written items → Ensures Answers (finish items rc)
  ends items none w = overruns
  ends items (some false) (rs, e, a) = holds (
    rs,
    [],
    e ∙ ap (λ l. header group_bymember ++ l) (sym (append-nil (results group_items rs))),
    inl refl,
    a,
  )
  ends items (some true) (rs, e, a) =
      holds (
        rs,
        int32 nslcd_result_end ∷ [],
        ap (λ l. l ++ (int32 nslcd_result_end ∷ [])) e,
        inr refl,
        a,
      )

  abbrev popped : Nesting sets → Nesting sets
  popped n = record n { subgroups = (sets.set_pop n.subgroups).1 }

  popped-Known :
      (n : Nesting sets) (dn : Bytes)
      → (sets.set_pop n.subgroups).0 ≡ some dn
      → Known n
      → Known (popped n)
  popped-Known n dn e known d w = known d (ground (arith, sets.pop_others n.subgroups dn d e))

  check_parents-Answers :
      (fuel : ℕ) (n : Nesting sets) (items : List Item) (rc : Option Bool)
      → Written items
      → Known n
      → left_to_do n < fuel
      → Ensures Answers (check_parents settings directory request sets fuel n items rc)
  unfolding check_parents
  check_parents-Answers zero n items rc w known h = absurd (omega arith)
  check_parents-Answers (suc fuel) n items rc w known h =
      elim (Option-cases (sets.set_pop n.subgroups).0) [
        | inl e ↦ rw e (ends items rc w)
        | inr (dn, e) ↦
            elim (Option-cases (mkfilter_group_bymemberdn settings directory request dn)) [
              | inl none_made ↦ rw (e, none_made) (stops items w)
              | inr (filter, made) ↦
                  rw (e, made)
                    (Ensures-bind
                      (search_parents-Kept filter (popped n) request.bases items w
                        (popped-Known n dn e known))
                      (λ r (w', known', less). check_parents-Answers fuel r.0 r.1 rc w' known' (
                        omega (
                          arith,
                          less,
                          total_pop sets directory universe (as_sets n) dn e
                              (known dn (sets.pop_member n.subgroups dn e)),
                        ))))
            ]
      ]

  searched :
      (items : List Item) (next : List Entry → Bool → Outcome Reply) (s : Search)
      → All (λ e. contains universe e.dn ≡ true) (entries_of s)
      → Written items
      → ((entries : List Entry) (complete : Bool)
          → All (λ e. contains universe e.dn ≡ true) entries
          → Ensures Answers (next entries complete))
      → Ensures Answers (with_search items next s)
  searched items next failed hs w k = stops items w
  searched items next (found entries complete) hs w k = k entries complete hs

  search_members-Answers :
      (fuel : ℕ) (filter : Bytes) (n : Nesting sets) (bases : List Bytes) (items : List Item)
      (rc : Option Bool)
      → Written items
      → Known n
      → left_to_do n < fuel
      → Ensures Answers
          (search_members settings directory request sets fuel filter n bases items rc)
  unfolding search_members
  search_members-Answers fuel filter n [] items rc w known h =
      check_parents-Answers fuel n items rc w known h
  search_members-Answers fuel filter n (base ∷ bases) items rc w known h =
      searched items _ (request.lookup base filter) (finds base filter) w (λ entries complete hs.
        Ensures-bind (write_parents-Kept n entries items w known hs) (λ r (w', known', less).
          search_members-Answers fuel filter r.0 bases r.1 (some complete) w' known'
            (omega (arith, less, h))))

  total-new :
      (dns : List Bytes)
      → total sets directory dns
          (as_sets (record { seen = sets.set_new; subgroups = sets.set_new }))
        ≤ 2 * length dns
  unfolding total
  total-new [] = omega arith
  total-new (dn ∷ dns) = ground (arith, total-new dns, sets.contains_new dn)

  new-Known : Known (record { seen = sets.set_new; subgroups = sets.set_new })
  new-Known dn w = let empty = sets.contains_new dn in cc

  with_uid-Ends :
      (uid : Bytes) (o : Option Bytes)
      → Ensures (λ dn. Unit {0}) (request.uid2dn uid)
      → Ensures (λ f. Unit {0}) (with_uid settings directory request uid o)
  with_uid-Ends uid none k = holds tt
  with_uid-Ends uid (some safeuid) k =
      Ensures-if (member_blank settings directory request) (λ _. holds tt)
        (λ _. Ensures-bind k (λ dn _. holds tt))

  filter_made :
      (uid : Bytes)
      → ((uid' : Bytes) → Ensures (λ dn. Unit {0}) (request.uid2dn uid'))
      → Ensures (λ f. Unit {0}) (mkfilter_group_bymember settings directory request uid)
  unfolding mkfilter_group_bymember
  filter_made uid k = with_uid-Ends uid _ (k uid)

  with_filter :
      (fuel : ℕ)
      → 2 * length universe < fuel
      → (filter : Option Bytes)
      → Ensures Answers (answer_filter settings directory request sets fuel filter)
  with_filter fuel h none = holds ([], [], refl, inl refl, tt)
  with_filter fuel h (some filter) =
      Ensures-if (settings.nested && not (member_blank settings directory request))
        (λ nested.
          search_members-Answers fuel filter _ request.bases (header group_bymember) none
            ([], refl, tt) new-Known (omega (arith, total-new universe, h)))
        (λ flat.
          handle-Answer group_items Good (write_parent settings directory request sets)
            write_parent-Results group_bymember request.lookup request.bases (some filter))

  -- The reply to a request for the groups of a member: nothing for a name that is not valid, and an
  -- answer for one that is.
  abbrev Replies : Bytes → Reply → Type 0
  Replies name r =
      (settings.isvalidname name ≡ false → r.items ≡ [])
      × (settings.isvalidname name ≡ true → Answers r)

  pub answer_bymember-Replies :
      (fuel : ℕ) (name : Bytes)
      → ((uid : Bytes) → Ensures (λ dn. Unit {0}) (request.uid2dn uid))
      → 2 * length universe < fuel
      → Ensures (Replies name) (answer_bymember settings directory request sets fuel name)
  unfolding answer_bymember empty_reply
  answer_bymember-Replies fuel name dn_found h =
      Ensures-if (settings.isvalidname name)
        (λ valid.
          Ensures-weaken
            (Ensures-if (request.ignored name)
              (λ ignored. holds ([], int32 nslcd_result_end ∷ [], refl, inr refl, tt))
              (λ other.
                Ensures-bind (filter_made name dn_found) (λ filter _. with_filter fuel h filter)))
            (λ r a. ((λ invalid. absurd (cc)), λ _. a)))
        (λ invalid. holds ((λ _. refl), λ valid. absurd (cc)))

-- Where a directory finds finitely many DNs, and uid2dn() ends, the loop over the groups of a member
-- and the groups that these are members of ends, with fuel of more than twice the DNs.  A name that is
-- not valid gets no reply; the reply to one that is valid is the header, results with valid names, numbers of 32 bits
-- and passwords that fit, and at the end the final code or nothing.
pub answer_bymember_lem :
    (settings : GroupSettings) (directory : Directory) (request : GroupRequest) (sets : StringSet)
    (universe : List Bytes) (fuel : ℕ) (name : Bytes)
    → Finds request universe
    → ((uid : Bytes) → Ensures (λ dn. Unit {0}) (request.uid2dn uid))
    → 2 * length universe < fuel
    → Ensures
        (λ r.
          (settings.isvalidname name ≡ false → r.items ≡ [])
          × (settings.isvalidname name ≡ true
              → Answer group_items (AllowedGroup settings none) group_bymember r))
        (answer_bymember settings directory request sets fuel name)
answer_bymember_lem settings directory request sets universe fuel name finds dn_found h =
    answer_bymember-Replies settings directory request sets universe finds fuel name dn_found h
