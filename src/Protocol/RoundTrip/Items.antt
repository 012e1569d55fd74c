-- ===== src/Protocol/RoundTrip/Items.antt =====
-- common/nslcd-prot.h: each READ macro on a stream that begins with an item.
use nss_pam_ldapd.Prelude.{
  ℕ, ◌+◌, ◌^◌, ◌≤◌, ◌<◌, ◌≡◌, ap, ◌∙◌, false, List, ◌∷◌, ◌++◌, ltb, length, append_assoc, arith,
}
use nss_pam_ldapd.Bytes.{Bytes}
use nss_pam_ldapd.Protocol.{Item, int32, string, stringlist, put_item, put_items}
use nss_pam_ldapd.Protocol.Client.{
  M, Read, got, read_int32, read_buf_string, read_buf_stringlist, ◌>>=◌, return, skip_string,
  skip_stringlist,
}
use nss_pam_ldapd.Protocol.RoundTrip.{
  client, Short, fits, then_lem, seq_lem, read_int32_lem, read_buf_string_lem,
}
use nss_pam_ldapd.Protocol.RoundTrip.Lists.{ShortList, list_room, read_buf_stringlist_lem}
use nss_pam_ldapd.Protocol.RoundTrip.Skip.{Countable, skip_string_lem, skip_stringlist_lem}

-- The stream that begins with some items.
abbrev pub sent : List Item → Bytes → Bytes
sent items rest = put_items items ++ rest

module _ (items : List Item) (rest : Bytes) (n p o : ℕ) where
  with_item :
      {A : Type 0} (m : M A) (x : Item) {r : Read A}
      → m (client (put_item x ++ sent items rest) n p o) ≡ r
      → m (client (sent (x ∷ items) rest) n p o) ≡ r
  unfolding put_items
  with_item m x e =
      ap (λ s. m (client s n p o)) (append_assoc (put_item x) (put_items items) rest) ∙ e

  pub int32_item :
      (i : ℕ)
      → i < 2 ^ 32
      → read_int32 (client (sent (int32 i ∷ items) rest) n p o)
        ≡ got i (client (sent items rest) n p o)
  unfolding put_item
  int32_item i h = with_item read_int32 (int32 i) (read_int32_lem i (sent items rest) n p o h)

  pub string_item :
      (s : Bytes)
      → Short s
      → p < 2 ^ 63
      → read_buf_string (client (sent (string s ∷ items) rest) n p o)
        ≡ fits n (p + length s + 1) o s (sent items rest)
  unfolding put_item
  string_item s h b =
      with_item read_buf_string (string s) (read_buf_string_lem s (sent items rest) n p o h b)

  pub stringlist_item :
      (arr : List Bytes)
      → ShortList arr
      → p + list_room o p arr < 2 ^ 63
      → read_buf_stringlist (client (sent (stringlist arr ∷ items) rest) n p o)
        ≡ fits n (p + list_room o p arr) o arr (sent items rest)
  unfolding put_item
  stringlist_item arr h b =
      with_item read_buf_stringlist (stringlist arr)
        (read_buf_stringlist_lem arr (sent items rest) n p o h b)

  pub skipped_string :
      (s : Bytes)
      → Short s
      → skip_string (client (sent (string s ∷ items) rest) n p o)
        ≡ got tt (client (sent items rest) n p o)
  unfolding put_item
  skipped_string s h =
      with_item skip_string (string s) (skip_string_lem s (sent items rest) n p o h)

  pub skipped_stringlist :
      (arr : List Bytes)
      → Countable arr
      → skip_stringlist (client (sent (stringlist arr ∷ items) rest) n p o)
        ≡ got tt (client (sent items rest) n p o)
  unfolding put_item
  skipped_stringlist arr h =
      with_item skip_stringlist (stringlist arr) (skip_stringlist_lem arr (sent items rest) n p o h)

-- A step of a reader that takes one item, and the steps behind it, which end at the place `q` of the
-- buffer with the result `x` and what is left of the stream.
module _ {B : Type 0} (x : B) (rest left : Bytes) (n q o : ℕ) where
  pub int32_step :
      (p : ℕ) (f : ℕ → M B) (items : List Item) (i : ℕ)
      → i < 2 ^ 32
      → f i (client (sent items rest) n p o) ≡ fits n q o x left
      → (read_int32 >>= f) (client (sent (int32 i ∷ items) rest) n p o) ≡ fits n q o x left
  int32_step p f items i h next =
      then_lem read_int32 f _ false i (client (sent items rest) n p o)
        (int32_item items rest n p o i h)
      ∙ next

  pub string_step :
      (p : ℕ) (f : Bytes → M B) (items : List Item) (s : Bytes)
      → Short s
      → q < 2 ^ 63
      → p + length s + 1 ≤ q
      → (p + length s + 1 ≤ n
          → f s (client (sent items rest) n (p + length s + 1) o) ≡ fits n q o x left)
      → (read_buf_string >>= f) (client (sent (string s ∷ items) rest) n p o) ≡ fits n q o x left
  string_step p f items s h b l next =
      seq_lem read_buf_string f _ (p + length s + 1, q) s
        (client (sent items rest) n (p + length s + 1) o) x (client left n q o)
        (string_item items rest n p o s h (omega arith)) next l

  pub stringlist_step :
      (p : ℕ) (f : List Bytes → M B) (items : List Item) (arr : List Bytes)
      → ShortList arr
      → q < 2 ^ 63
      → p + list_room o p arr ≤ q
      → (p + list_room o p arr ≤ n
          → f arr (client (sent items rest) n (p + list_room o p arr) o) ≡ fits n q o x left)
      → (read_buf_stringlist >>= f) (client (sent (stringlist arr ∷ items) rest) n p o)
        ≡ fits n q o x left
  stringlist_step p f items arr h b l next =
      seq_lem read_buf_stringlist f _ (p + list_room o p arr, q) arr
        (client (sent items rest) n (p + list_room o p arr) o) x (client left n q o)
        (stringlist_item items rest n p o arr h (omega arith)) next l

  pub last_step : (p : ℕ) → p ≡ q → p ≤ n → return x (client left n p o) ≡ fits n q o x left
  last_step p e h =
      let t : ltb n q ≡ false = ground arith in rw t (ap (λ j. got x (client left n j o)) e)
