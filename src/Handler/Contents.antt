-- ===== src/Handler/Contents.antt =====
-- nslcd/common.h: what a handler replies, entry for entry and search for search.
use nss_pam_ldapd.Prelude.{
  ℕ, ◌≡◌, refl, sym, ap, ◌∙◌, Bool, true, false, List, [], ◌∷◌, ◌++◌, some, append_assoc,
  append-nil,
}
use nss_pam_ldapd.Bytes.{Bytes}
use nss_pam_ldapd.Outcome.{Outcome, ok, ◌>>=◌}
use nss_pam_ldapd.Attmap.{Entry}
use nss_pam_ldapd.Ldap.{Search, failed, found}
use nss_pam_ldapd.Protocol.{Item, int32, nslcd_result_end}
use nss_pam_ldapd.Handler.{with_search, Reply, header, write_entries, search_bases, handle}

-- The entries of the searches, in order, up to a search that cannot be made.
abbrev pub all_entries : List Search → List Entry
all_entries [] = []
all_entries (failed ∷ searches) = []
all_entries (found entries complete ∷ searches) = entries ++ all_entries searches

-- Whether every search was made.
abbrev pub all_made : List Search → Bool
all_made [] = true
all_made (failed ∷ searches) = false
all_made (found entries complete ∷ searches) = all_made searches

-- Whether every search was made and the last of them ended well, or what was `before` if there is none.
abbrev pub last_complete : Bool → List Search → Bool
last_complete before [] = before
last_complete before (failed ∷ searches) = false
last_complete before (found entries complete ∷ searches) = last_complete complete searches

abbrev pub searches_of : (Bytes → Search) → List Bytes → List Search
searches_of lookup [] = []
searches_of lookup (base ∷ bases) = lookup base ∷ searches_of lookup bases

abbrev pub final_code : Bool → List Item
final_code true = int32 nslcd_result_end ∷ []
final_code false = []

module _ (items_of : Entry → List Item) where
  abbrev pub results_of : List Entry → List Item
  results_of [] = []
  results_of (entry ∷ entries) = items_of entry ++ results_of entries

  results_of-append : (es fs : List Entry) → results_of (es ++ fs) ≡ results_of es ++ results_of fs
  results_of-append [] fs = refl
  results_of-append (e ∷ es) fs =
      ap (λ l. items_of e ++ l) (results_of-append es fs)
      ∙ sym (append_assoc (items_of e) (results_of es) (results_of fs))

  -- The reply to searches, behind the items that were written before them.
  abbrev pub reply_of : List Item → Bool → List Search → Reply
  reply_of items before searches = record {
    items =
        items ++ results_of (all_entries searches) ++ final_code (last_complete before searches);
    succeeded = all_made searches;
  }

module _ (write : Entry → Outcome (List Item)) (items_of : Entry → List Item)
    (written : (entry : Entry) → write entry ≡ ok (items_of entry)) where
  write_entries_lem :
      (entries : List Entry) → write_entries write entries ≡ ok (results_of items_of entries)
  unfolding write_entries
  write_entries_lem [] = refl
  write_entries_lem (entry ∷ entries) = rw (written entry, write_entries_lem entries) refl

  module _ (lookup : Bytes → Search) where
    -- The first of several searches.
    first_search :
        (complete : Bool) (bases : List Bytes) (items : List Item) (s : Search)
        → ((items' : List Item) (complete' : Bool)
            → search_bases lookup write bases items' (some complete')
              ≡ ok (reply_of items_of items' complete' (searches_of lookup bases)))
        → with_search items
            (λ entries c. write_entries write entries >>= λ more.
              search_bases lookup write bases (items ++ more) (some c))
            s
          ≡ ok (reply_of items_of items complete (s ∷ searches_of lookup bases))
    first_search complete bases items failed later =
        ap (λ l. ok (record { items = l; succeeded = false }))
          (sym (append-nil items) ∙ sym (append-nil (items ++ [])))
    first_search complete bases items (found entries c) later =
        let rest = searches_of lookup bases in
        rw (write_entries_lem entries) (
          later (items ++ results_of items_of entries) c
          ∙ ap
              (λ l. ok (record {
                items = l ++ final_code (last_complete c rest);
                succeeded = all_made rest;
              }))
              (append_assoc items (results_of items_of entries)
                  (results_of items_of (all_entries rest))
                ∙ ap (λ l. items ++ l)
                    (sym (results_of-append items_of entries (all_entries rest)))))

    search_bases_lem :
        (bases : List Bytes) (items : List Item) (complete : Bool)
        → search_bases lookup write bases items (some complete)
          ≡ ok (reply_of items_of items complete (searches_of lookup bases))
    unfolding search_bases
    search_bases_lem [] items true =
        ap (λ l. ok (record { items = l ++ final_code true; succeeded = true }))
          (sym (append-nil items))
    search_bases_lem [] items false =
        ap (λ l. ok (record { items = l; succeeded = true }))
          (sym (append-nil items) ∙ sym (append-nil (items ++ [])))
    search_bases_lem (base ∷ bases) items complete =
        first_search complete bases items (lookup base)
          (λ items' complete'. search_bases_lem bases items' complete')

-- A handler with at least one base, whose entries can all be written, replies its header, then what is
-- written for each entry of the searches, in the order of the bases and of the entries, and then the
-- final code if the last search ended well.  At a search that cannot be made it stops there, fails,
-- and sends no final code.
pub handle_lem :
    (action : ℕ) (lookup : Bytes → Bytes → Search) (write : Entry → Outcome (List Item))
    (items_of : Entry → List Item) (base : Bytes) (bases : List Bytes) (filter : Bytes)
    → ((entry : Entry) → write entry ≡ ok (items_of entry))
    → handle action lookup write (base ∷ bases) (some filter)
      ≡ ok (
          reply_of items_of
            (header action)
            false
            (searches_of (λ b. lookup b filter) (base ∷ bases)))
unfolding handle search_bases
handle_lem action lookup write items_of base bases filter written =
    first_search write items_of written (λ b. lookup b filter) false bases (header action)
      (lookup base filter) (search_bases_lem write items_of written (λ b. lookup b filter) bases)
