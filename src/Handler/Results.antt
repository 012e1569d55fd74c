-- ===== src/Handler/Results.antt =====
-- nslcd/common.h: the shape of the answers of handlers whose entries are written as results.
use nss_pam_ldapd.Prelude.{
  ℕ, ◌≡◌, refl, sym, ap, ◌∙◌, ◌⊎◌, inl, inr, Bool, true, false, List, [], ◌∷◌, ◌++◌, Option, none,
  some, append_assoc, append-nil, All,
}
use nss_pam_ldapd.Bytes.{Bytes}
use nss_pam_ldapd.Outcome.{Outcome, Ensures, holds, overruns, Ensures-bind}
use nss_pam_ldapd.Attmap.{Entry}
use nss_pam_ldapd.Ldap.{Search, failed, found}
use nss_pam_ldapd.Protocol.{Item, int32, nslcd_result_begin, nslcd_result_end}
use nss_pam_ldapd.Handler.{with_search, Reply, header, finish, write_entries, search_bases, handle}

pub All-append {ℓ κ} :
    {A : Type ℓ} (P : A → Type κ) (xs ys : List A) → All P xs → All P ys → All P (xs ++ ys)
All-append P [] ys h k = k
All-append P (x ∷ xs) ys (p, h) k = (p, All-append P xs ys h k)

module _ {R : Type 0} (encode : R → List Item) where
  -- Results on the stream, each behind the code that begins it.
  abbrev pub results : List R → List Item
  results [] = []
  results (r ∷ rs) = int32 nslcd_result_begin ∷ encode r ++ results rs

  pub results-append : (rs ss : List R) → results (rs ++ ss) ≡ results rs ++ results ss
  results-append [] ss = refl
  results-append (r ∷ rs) ss =
      ap (λ l. int32 nslcd_result_begin ∷ encode r ++ l) (results-append rs ss)
      ∙ ap (λ l. int32 nslcd_result_begin ∷ l)
          (sym (append_assoc (encode r) (results rs) (results ss)))

  -- Items that are results of which all satisfy a predicate.
  abbrev pub Results : (R → Type 0) → List Item → Type 0
  Results P items = (rs : List R) × (items ≡ results rs) × All P rs

  -- An answer: a header, results, and the final code or nothing.
  abbrev pub Answer : (R → Type 0) → ℕ → Reply → Type 0
  Answer P action r =
      (rs : List R) × (end : List Item) × (r.items ≡ header action ++ results rs ++ end)
      × ((end ≡ []) ⊎ (end ≡ int32 nslcd_result_end ∷ []))
      × All P rs

  module _ (P : R → Type 0) (write : Entry → Outcome (List Item))
      (good : (entry : Entry) → Ensures (Results P) (write entry)) where
    Results-append : (xs ys : List Item) → Results P xs → Results P ys → Results P (xs ++ ys)
    Results-append xs ys (rs, e, a) (ss, f, b) = (
      rs ++ ss,
      (ap (λ l. l ++ ys) e ∙ ap (λ l. results rs ++ l) f) ∙ sym (results-append rs ss),
      All-append P rs ss a b,
    )

    write_entries-Results :
        (entries : List Entry) → Ensures (Results P) (write_entries write entries)
    unfolding write_entries
    write_entries-Results [] = holds ([], refl, tt)
    write_entries-Results (entry ∷ entries) = Ensures-bind (good entry) λ items h.
        Ensures-bind (write_entries-Results entries) λ rest k. holds (Results-append items rest h k)

    module _ (action : ℕ) (lookup : Bytes → Search) where
      finish-Answer :
          (items : List Item) (rc : Option Bool) (rs : List R)
          → items ≡ header action ++ results rs
          → All P rs
          → Ensures (Answer P action) (finish items rc)
      finish-Answer items none rs e a = overruns
      finish-Answer items (some false) rs e a =
          holds
            (rs, [], e ∙ ap (λ l. header action ++ l) (sym (append-nil (results rs))), inl refl, a)
      finish-Answer items (some true) rs e a =
          let end = int32 nslcd_result_end ∷ [] in
          holds (rs, end, ap (λ l. l ++ end) e, inr refl, a)

      with_search-Answer :
          (items : List Item) (rs : List R) (next : List Entry → Bool → Outcome Reply) (s : Search)
          → items ≡ header action ++ results rs
          → All P rs
          → ((entries : List Entry) (complete : Bool)
              → Ensures (Answer P action) (next entries complete))
          → Ensures (Answer P action) (with_search items next s)
      with_search-Answer items rs next failed e a k =
          holds
            (rs, [], e ∙ ap (λ l. header action ++ l) (sym (append-nil (results rs))), inl refl, a)
      with_search-Answer items rs next (found entries complete) e a k = k entries complete

      search_bases-Answer :
          (bases : List Bytes) (items : List Item) (rc : Option Bool) (rs : List R)
          → items ≡ header action ++ results rs
          → All P rs
          → Ensures (Answer P action) (search_bases lookup write bases items rc)
      unfolding search_bases
      search_bases-Answer [] items rc rs e a = finish-Answer items rc rs e a
      search_bases-Answer (base ∷ bases) items rc rs e a =
          with_search-Answer items rs _ (lookup base) e a λ entries complete.
            Ensures-bind (write_entries-Results entries) λ more (ss, f, b).
              search_bases-Answer bases (items ++ more) (some complete) (rs ++ ss)
                ((ap (λ l. l ++ more) e ∙ ap (λ l. header action ++ results rs ++ l) f)
                  ∙ ap (λ l. header action ++ l) (sym (results-append rs ss)))
                (All-append P rs ss a b)

    -- Where every entry is written as results that satisfy `P`, a reply of the handler is its header,
    -- then results that satisfy `P`, and at the end the final code or nothing, whatever the searches,
    -- the bases and the filter are; the handler does not run out of fuel.
    pub handle-Answer :
        (action : ℕ) (lookup : Bytes → Bytes → Search) (bases : List Bytes) (filter : Option Bytes)
        → Ensures (Answer P action) (handle action lookup write bases filter)
    unfolding handle
    handle-Answer action lookup bases none = holds ([], [], refl, inl refl, tt)
    handle-Answer action lookup bases (some filter) =
        search_bases-Answer action (λ base. lookup base filter) bases (header action) none [] refl
          tt
