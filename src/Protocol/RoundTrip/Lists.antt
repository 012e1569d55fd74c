-- ===== src/Protocol/RoundTrip/Lists.antt =====
-- common/nslcd-prot.h: WRITE_STRINGLIST and READ_BUF_STRINGLIST.
use nss_pam_ldapd.Prelude.{
  inr, inl, Bool-cases, ℕ, suc, ◌+◌, ◌-◌, ◌*◌, ◌%◌, ◌^◌, ◌≤◌, ◌<◌, ◌≡◌, refl, ap, ◌∙◌, true, false,
  List, [], ◌∷◌, ◌++◌, ltb, if◌then◌else◌, length, arith, append_assoc, All,
}
use nss_pam_ldapd.Bytes.{Bytes}
use nss_pam_ldapd.Protocol.{put_int32, put_string, put_strings, put_stringlist, int32_mod}
use nss_pam_ldapd.Protocol.Client.{
  read_sized_list, buf_alloc, got, buffer_error, read_int32, buf_check, buf_skip, size_with_nul,
  read_buf_string, buf_align, read_strings, read_buf_stringlist, ◌>>=◌, return,
}
use nss_pam_ldapd.Protocol.RoundTrip.{
  client, Short, read_int32_lem, fits, then_lem, seq_lem, map_lem, read_buf_string_lem,
}

-- A list of strings that READ_BUF_STRINGLIST stands.
abbrev pub ShortList : List Bytes → Type 0
ShortList arr = (length arr < 2 ^ 31 - 1) × All Short arr

-- The room that strings take in the buffer.
abbrev pub room_of : List Bytes → ℕ
room_of [] = 0
room_of (s ∷ arr) = length s + 1 + room_of arr

-- The bytes that BUF_ALIGN skips, and the room of a list at a place of the buffer.
abbrev pub gap : ℕ → ℕ → ℕ
gap o p = (8 - (o + p) % 8) % 8

abbrev pub list_room : ℕ → ℕ → List Bytes → ℕ
list_room o p arr = gap o p + (length arr + 1) * 8 + room_of arr

pub read_strings_lem :
    (arr : List Bytes) (rest : Bytes) (n p o : ℕ)
    → All Short arr
    → p + room_of arr < 2 ^ 63
    → p ≤ n
    → read_strings (length arr) (client (put_strings arr ++ rest) n p o)
      ≡ fits n (p + room_of arr) o arr rest
unfolding read_strings put_strings
read_strings_lem [] rest n p o a b h =
    let t : ltb n (p + 0) ≡ false = ground arith in
    let e : p ≡ p + 0 = omega arith in rw t (ap (λ q. got [] (client rest n q o)) e)
read_strings_lem (s ∷ arr) rest n p o (a, as') b h =
    let q = p + length s + 1 in
    let e : p + (length s + 1 + room_of arr) ≡ q + room_of arr = omega arith in
    let next = put_strings arr ++ rest in
    ap (λ t. read_strings (suc (length arr)) (client t n p o))
      (append_assoc (put_string s) (put_strings arr) rest)
    ∙ (rw e (
        seq_lem read_buf_string (λ s'. read_strings (length arr) >>= (λ l. return (s' ∷ l)))
          (client (put_string s ++ next) n p o) (q, q + room_of arr) s (client next n q o) (s ∷ arr)
          (client rest n (q + room_of arr) o) (read_buf_string_lem s next n p o a (omega arith))
          (λ r.
            map_lem (read_strings (length arr)) (λ l. s ∷ l) (client next n q o) (q + room_of arr)
              arr (client rest n (q + room_of arr) o)
              (read_strings_lem arr rest n q o as' (omega arith) r))
          (omega arith)))

-- BUF_CHECK and BUF_SKIP of the same size.
reserve_lem :
    (sz : ℕ) (s : Bytes) (n p o : ℕ)
    → p + sz < 2 ^ 63
    → (buf_check sz >>= (λ u. buf_skip sz)) (client s n p o)
      ≡ (if ltb n (p + sz) then buffer_error else got tt (client s n (p + sz) o))
unfolding buf_check buf_skip
reserve_lem sz s n p o h =
    let e : (p + sz) % 2 ^ 64 ≡ p + sz = omega arith in
    elim (Bool-cases (ltb n (p + sz))) [
      | inl full ↦ rw (e, full) refl
      | inr room ↦ rw (e, room) refl
    ]

buf_alloc_lem :
    (num : ℕ) (s : Bytes) (n p o : ℕ)
    → p + gap o p + num * 8 < 2 ^ 63
    → buf_alloc num (client s n p o) ≡ (
        if ltb n (p + gap o p + num * 8)
        then buffer_error
        else got tt (client s n (p + gap o p + num * 8) o))
unfolding buf_alloc buf_align
buf_alloc_lem num s n p o h =
    let q = p + gap o p in
    let e : num * 8 % 2 ^ 64 ≡ num * 8 = omega arith in
    rw e (
      seq_lem buf_align (λ u. buf_check (num * 8) >>= (λ v. buf_skip (num * 8))) (client s n p o)
        (q, q + num * 8) tt (client s n q o) tt (client s n (q + num * 8) o)
        (reserve_lem (gap o p) s n p o (omega arith)) (λ r. reserve_lem (num * 8) s n q o h)
        (omega arith))

read_sized_list_lem :
    (arr : List Bytes) (rest : Bytes) (n p o : ℕ)
    → ShortList arr
    → p + list_room o p arr < 2 ^ 63
    → read_sized_list (length arr) (client (put_strings arr ++ rest) n p o)
      ≡ fits n (p + list_room o p arr) o arr rest
unfolding read_sized_list size_with_nul
read_sized_list_lem arr rest n p o (m, a) b =
    let k = length arr in
    let t1 : ltb k (2 ^ 31 - 1) ≡ true = ground arith in
    let t2 : ltb k (2 ^ 31) ≡ true = ground arith in
    let q = p + gap o p + (k + 1) * 8 in
    let e : p + list_room o p arr ≡ q + room_of arr = omega arith in
    let bytes = put_strings arr ++ rest in
    rw (t1, t2, e)
      (seq_lem (buf_alloc (k + 1)) (λ u. read_strings k) (client bytes n p o) (q, q + room_of arr)
        tt (client bytes n q o) arr (client rest n (q + room_of arr) o)
        (buf_alloc_lem (k + 1) bytes n p o (omega arith))
        (λ r. read_strings_lem arr rest n q o a (omega arith) r) (omega arith))

-- READ_BUF_STRINGLIST takes the strings and the room for the pointers, aligned.
pub read_buf_stringlist_lem :
    (arr : List Bytes) (rest : Bytes) (n p o : ℕ)
    → ShortList arr
    → p + list_room o p arr < 2 ^ 63
    → read_buf_stringlist (client (put_stringlist arr ++ rest) n p o)
      ≡ fits n (p + list_room o p arr) o arr rest
unfolding read_buf_stringlist put_stringlist
read_buf_stringlist_lem arr rest n p o (m, a) b =
    let k = length arr in
    let next = put_strings arr ++ rest in
    let small : k % int32_mod ≡ k = omega arith in
    let bytes : put_stringlist arr ++ rest ≡ put_int32 k ++ next =
      rw small (append_assoc (put_int32 k) (put_strings arr) rest) in
    ap (λ t. read_buf_stringlist (client t n p o)) bytes
    ∙ (then_lem read_int32 read_sized_list (client (put_int32 k ++ next) n p o) false k
          (client next n p o) (read_int32_lem k next n p o (omega arith))
        ∙ read_sized_list_lem arr rest n p o (m, a) b)
