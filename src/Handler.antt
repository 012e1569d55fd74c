-- ===== src/Handler.antt =====
-- nslcd/common.h: NSLCD_HANDLE_BODY, the frame of a lookup in the daemon: the header of the answer,
-- a search below each base, the results of each entry, and the final code.
pub mod Results
pub mod Contents
use nss_pam_ldapd.Prelude.{Bool, true, false, List, [], ◌∷◌, ◌++◌, ℕ, Option, none, some}
use nss_pam_ldapd.Bytes.{Bytes}
use nss_pam_ldapd.Outcome.{Outcome, ok, overrun, ◌>>=◌}
use nss_pam_ldapd.Attmap.{Entry}
use nss_pam_ldapd.Ldap.{Search, failed, found}
use nss_pam_ldapd.Protocol.{Item, int32, nslcd_version, nslcd_result_end}

-- What a handler writes, and whether it returns 0.
pub record Reply : Type 0 where
  pub items : List Item
  pub succeeded : Bool

abbrev pub reply : Bool → List Item → Outcome Reply
reply succeeded items = ok (record { items = items; succeeded = succeeded })

abbrev pub header : ℕ → List Item
header action = int32 nslcd_version ∷ int32 action ∷ []

-- the inner loop, over the entries of a search
unfoldable pub write_entries : (Entry → Outcome (List Item)) → List Entry → Outcome (List Item)
write_entries write [] = ok []
write_entries write (entry ∷ entries) = do
  items ← write entry
  rest ← write_entries write entries
  ok (items ++ rest)

-- the final result code; `rc` has no value where no search was made
abbrev pub finish : List Item → Option Bool → Outcome Reply
finish items none = overrun
finish items (some false) = reply true items
finish items (some true) = reply true (items ++ int32 nslcd_result_end ∷ [])

-- a search that may fail, with what was written before it
abbrev pub with_search : List Item → (List Entry → Bool → Outcome Reply) → Search → Outcome Reply
with_search items next failed = reply false items
with_search items next (found entries complete) = next entries complete

-- the outer loop, over the bases
unfoldable pub search_bases :
    (Bytes → Search)
    → (Entry → Outcome (List Item))
    → List Bytes
    → List Item
    → Option Bool
    → Outcome Reply
unfolding write_entries
search_bases lookup write [] items rc = finish items rc
search_bases lookup write (base ∷ bases) items rc =
    with_search items
      (λ entries complete. do
        more ← write_entries write entries
        search_bases lookup write bases (items ++ more) (some complete))
      (lookup base)

abbrev pub search_with :
    ℕ
    → (Bytes → Bytes → Search)
    → (Entry → Outcome (List Item))
    → List Bytes
    → Option Bytes
    → Outcome Reply
search_with action lookup write bases none = reply false (header action)
search_with action lookup write bases (some filter) =
    search_bases (λ base. lookup base filter) write bases (header action) none

-- The handler from the header on: the search of a base by a filter, what is written for an entry,
-- the bases, and the filter, where `none` is a buffer that is too small.
unfoldable pub handle :
    ℕ
    → (Bytes → Bytes → Search)
    → (Entry → Outcome (List Item))
    → List Bytes
    → Option Bytes
    → Outcome Reply
unfolding search_bases
handle action lookup write bases filter = search_with action lookup write bases filter

-- An answer without results.
unfoldable pub empty_reply : ℕ → Outcome Reply
empty_reply action = reply true (header action ++ int32 nslcd_result_end ∷ [])
