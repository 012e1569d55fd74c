-- ===== src/Protocol.antt =====
-- common/nslcd-prot.h: what the WRITE macros put on the stream.
-- An answer is a list of items, each written by one macro; its bytes go to the peer by tio_write().
pub mod Client
pub mod RoundTrip
use nss_pam_ldapd.Prelude.{
  ℕ, ◌+◌, ◌/◌, ◌%◌, ◌^◌, Bool, true, false, ◌&&◌, List, [], ◌∷◌, ◌++◌, ltb, if◌then◌else◌, length,
  take,
}
use nss_pam_ldapd.Bytes.{Bytes}

abbrev pub int32_mod : ℕ
int32_mod = 2 ^ 32

-- htonl() of a 32-bit number
unfoldable pub put_int32 : ℕ → Bytes
put_int32 i = i / 2 ^ 24 % 256 ∷ i / 2 ^ 16 % 256 ∷ i / 2 ^ 8 % 256 ∷ i % 256 ∷ []

-- WRITE_STRING: the length is an int32_t, and no byte follows one that is not positive
unfoldable pub put_string : Bytes → Bytes
unfolding put_int32
put_string str =
    let n = length str % int32_mod in
    put_int32 n ++ (if ltb 0 n && ltb n (2 ^ 31) then take n str else [])

unfoldable pub put_strings : List Bytes → Bytes
unfolding put_string
put_strings [] = []
put_strings (s ∷ arr) = put_string s ++ put_strings arr

-- WRITE_STRINGLIST
unfoldable pub put_stringlist : List Bytes → Bytes
unfolding put_strings
put_stringlist arr = put_int32 (length arr % int32_mod) ++ put_strings arr

-- An item is what one of the macros WRITE_INT32, WRITE_STRING and WRITE_STRINGLIST writes.
pub data Item : Type 0 where
  int32 : ℕ → Item
  string : Bytes → Item
  stringlist : List Bytes → Item

unfoldable pub put_item : Item → Bytes
unfolding put_stringlist
put_item (int32 i) = put_int32 i
put_item (string s) = put_string s
put_item (stringlist arr) = put_stringlist arr

unfoldable pub put_items : List Item → Bytes
unfolding put_item
put_items [] = []
put_items (x ∷ items) = put_item x ++ put_items items

abbrev pub nslcd_version : ℕ
nslcd_version = 2

abbrev pub nslcd_result_begin : ℕ
nslcd_result_begin = 1

abbrev pub nslcd_result_end : ℕ
nslcd_result_end = 2
