-- ===== src/Protocol/RoundTrip/Skip.antt =====
-- common/nslcd-prot.h: SKIP_STRING and SKIP_STRINGLIST on what was written.
use nss_pam_ldapd.Prelude.{
  ℕ, suc, ◌%◌, ◌^◌, ◌<◌, ◌≡◌, refl, ap, ◌∙◌, true, false, List, [], ◌∷◌, ◌++◌, ltb, length, arith,
  append_assoc, All,
}
use nss_pam_ldapd.Bytes.{Bytes}
use nss_pam_ldapd.Protocol.{put_int32, put_string, put_strings, put_stringlist, int32_mod}
use nss_pam_ldapd.Protocol.Client.{
  got, read_bytes, read_int32, skip_string, skip_strings, skip_stringlist, skip_bytes, skip_list,
  return,
}
use nss_pam_ldapd.Protocol.RoundTrip.{
  client, Short, read_int32_lem, read_bytes_lem, put_string-Short, then_lem,
}

-- A list of strings whose number and lengths are ints.
abbrev pub Countable : List Bytes → Type 0
Countable arr = (length arr < 2 ^ 31) × All Short arr

pub skip_string_lem :
    (s rest : Bytes) (n p o : ℕ)
    → Short s
    → skip_string (client (put_string s ++ rest) n p o) ≡ got tt (client rest n p o)
unfolding skip_string skip_bytes
skip_string_lem s rest n p o h =
    let m = length s in
    let t : ltb m (2 ^ 31) ≡ true = ground arith in
    let bytes : put_string s ++ rest ≡ put_int32 m ++ (s ++ rest) =
      ap (λ t. t ++ rest) (put_string-Short s h) ∙ append_assoc (put_int32 m) s rest in
    ap (λ t. skip_string (client t n p o)) bytes
    ∙ (then_lem read_int32 skip_bytes (client (put_int32 m ++ (s ++ rest)) n p o) false m
          (client (s ++ rest) n p o) (read_int32_lem m (s ++ rest) n p o (omega arith))
        ∙ rw t (
            then_lem (read_bytes m) (λ u. return tt) (client (s ++ rest) n p o) false s
              (client rest n p o) (read_bytes_lem s rest n p o)))

skip_strings_lem :
    (arr : List Bytes) (rest : Bytes) (n p o : ℕ)
    → All Short arr
    → skip_strings (length arr) (client (put_strings arr ++ rest) n p o)
      ≡ got tt (client rest n p o)
unfolding skip_strings put_strings
skip_strings_lem [] rest n p o a = refl
skip_strings_lem (s ∷ arr) rest n p o (a, as') =
    let next = put_strings arr ++ rest in
    ap (λ t. skip_strings (suc (length arr)) (client t n p o))
      (append_assoc (put_string s) (put_strings arr) rest)
    ∙ (then_lem skip_string (λ u. skip_strings (length arr)) (client (put_string s ++ next) n p o)
          false tt (client next n p o) (skip_string_lem s next n p o a)
        ∙ skip_strings_lem arr rest n p o as')

pub skip_stringlist_lem :
    (arr : List Bytes) (rest : Bytes) (n p o : ℕ)
    → Countable arr
    → skip_stringlist (client (put_stringlist arr ++ rest) n p o) ≡ got tt (client rest n p o)
unfolding skip_stringlist skip_list put_stringlist
skip_stringlist_lem arr rest n p o (m, a) =
    let k = length arr in
    let next = put_strings arr ++ rest in
    let small : k % int32_mod ≡ k = omega arith in
    let t : ltb k (2 ^ 31) ≡ true = ground arith in
    let bytes : put_stringlist arr ++ rest ≡ put_int32 k ++ next =
      rw small (append_assoc (put_int32 k) (put_strings arr) rest) in
    ap (λ t. skip_stringlist (client t n p o)) bytes
    ∙ (then_lem read_int32 skip_list (client (put_int32 k ++ next) n p o) false k
          (client next n p o) (read_int32_lem k next n p o (omega arith))
        ∙ rw t (skip_strings_lem arr rest n p o a))
