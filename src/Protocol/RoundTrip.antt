-- ===== src/Protocol/RoundTrip.antt =====
-- common/nslcd-prot.h: the READ macros on what the WRITE macros put on the stream.
pub mod Lists
pub mod Skip
pub mod Items
use nss_pam_ldapd.Prelude.{
  not_ltb→le, inr, inl, Bool-cases, not, ◌&&◌, ℕ, zero, suc, ◌+◌, ◌-◌, ◌*◌, ◌%◌, ◌/◌, ◌^◌, ◌≤◌, ◌<◌,
  ◌≡◌, refl, sym, ap, ◌∙◌, Bool, true, false, List, [], ◌∷◌, ◌++◌, ltb, if◌then◌else◌, length, take,
  drop, arith, append_assoc, take-length, drop-length, take-all, length-append, All,
}
use nss_pam_ldapd.Bytes.{Bytes}
use nss_pam_ldapd.Protocol.{put_int32, put_string, put_strings, put_stringlist, int32_mod}
use nss_pam_ldapd.Protocol.Client.{
  bind_result, M, read_sized_string, Client, M, bind_result, read_sized_string, read_sized_list,
  buf_alloc, Read, got, read_error, buffer_error, corrupt, read_bytes, read_int32, buf_check,
  buf_skip, size_with_nul, read_buf_string, buf_align, read_strings, read_buf_stringlist,
  skip_string, skip_strings, skip_stringlist, ◌>>=◌, return,
}

abbrev pub client : Bytes → ℕ → ℕ → ℕ → Client
client s n p o = record { stream = s; buflen = n; bufptr = p; origin = o }

-- A string that READ_BUF_STRING stands: its length and the NUL are an int.
abbrev pub Short : Bytes → Type 0
Short s = length s < 2 ^ 31 - 1

pub read_int32_lem :
    (i : ℕ) (rest : Bytes) (n p o : ℕ)
    → i < 2 ^ 32
    → read_int32 (client (put_int32 i ++ rest) n p o) ≡ got i (client rest n p o)
unfolding read_int32 put_int32
read_int32_lem i rest n p o h = ap (λ j. got j (client rest n p o)) (omega arith)

pub read_bytes_lem :
    (s rest : Bytes) (n p o : ℕ)
    → read_bytes (length s) (client (s ++ rest) n p o) ≡ got s (client rest n p o)
unfolding read_bytes
read_bytes_lem s rest n p o =
    let h : ltb (length (s ++ rest)) (length s) ≡ false = ground (arith, length-append s rest) in
    rw (h, take-length s rest, drop-length s rest) refl

all_or_none : (s : Bytes) → (if ltb 0 (length s) && true then take (length s) s else []) ≡ s
all_or_none [] = refl
all_or_none (c ∷ s) =
    let h : ltb 0 (suc (length s)) ≡ true = ground arith in rw h (take-all (c ∷ s))

pub put_string-Short : (s : Bytes) → Short s → put_string s ≡ put_int32 (length s) ++ s
unfolding put_string
put_string-Short s h =
    let e : length s % int32_mod ≡ length s = omega arith in
    let small : ltb (length s) (2 ^ 31) ≡ true = ground arith in
    rw (e, small) (ap (λ t. put_int32 (length s) ++ t) (all_or_none s))

-- The outcome of reading `a` that ends at the place `q` of a buffer of `n` bytes.
abbrev pub fits : {A : Type 0} → ℕ → ℕ → ℕ → A → Bytes → Read A
fits n q o a rest = if ltb n q then buffer_error else got a (client rest n q o)

-- A step that succeeds unless the buffer is too small, and what follows it.
pub then_lem :
    {A B : Type 0} (m : M A) (f : A → M B) (c : Client) (b : Bool) (a : A) (c' : Client)
    → m c ≡ (if b then buffer_error else got a c')
    → (m >>= f) c ≡ (if b then buffer_error else f a c')
then_lem m f c true a c' e = ap (λ r. bind_result r f) e
then_lem m f c false a c' e = ap (λ r. bind_result r f) e

-- Two steps of which the second ends further in the buffer.
pub seq_lem :
    {A B : Type 0} (m : M A) (f : A → M B) (c : Client) (qs : ℕ × ℕ) (a : A) (c' : Client) (x : B)
    (c'' : Client)
    → m c ≡ (if ltb c'.buflen qs.0 then buffer_error else got a c')
    → (qs.0 ≤ c'.buflen → f a c' ≡ (if ltb c'.buflen qs.1 then buffer_error else got x c''))
    → qs.0 ≤ qs.1
    → (m >>= f) c ≡ (if ltb c'.buflen qs.1 then buffer_error else got x c'')
seq_lem m f c (q, r) a c' x c'' e g h = elim (Bool-cases (ltb c'.buflen q)) [
  | inl full ↦ let later : ltb c'.buflen r ≡ true = ground arith in rw (e, full, later) refl
  | inr room ↦ rw (e, room) (g (not_ltb→le c'.buflen q room))
]

pub map_lem :
    {A B : Type 0} (m : M A) (g : A → B) (c : Client) (q : ℕ) (a : A) (c' : Client)
    → m c ≡ (if ltb c'.buflen q then buffer_error else got a c')
    → (m >>= (λ y. return (g y))) c ≡ (if ltb c'.buflen q then buffer_error else got (g a) c')
map_lem m g c q a c' e = elim (Bool-cases (ltb c'.buflen q)) [
  | inl full ↦ rw (e, full) refl
  | inr room ↦ rw (e, room) refl
]

read_sized_string_lem :
    (s rest : Bytes) (n p o : ℕ)
    → Short s
    → p < 2 ^ 63
    → read_sized_string (length s) (client (s ++ rest) n p o) ≡ (
        if ltb n (p + length s + 1)
        then buffer_error
        else got s (client rest n (p + length s + 1) o))
unfolding read_sized_string read_bytes buf_skip buf_check size_with_nul
read_sized_string_lem s rest n p o h b =
    let m = length s in
    let e : (p + (m + 1)) % 2 ^ 64 ≡ p + m + 1 = omega arith in
    let f : p + (m + 1) ≡ p + m + 1 = omega arith in
    let t1 : ltb m (2 ^ 31 - 1) ≡ true = ground arith in
    let t2 : ltb m (2 ^ 31) ≡ true = ground arith in
    let ss : ltb (length (s ++ rest)) m ≡ false = ground (arith, length-append s rest) in
    rw (t1, t2, e)
      (elim (Bool-cases (ltb n (p + m + 1))) [
        | inl full ↦ rw full refl
        | inr room ↦ rw (room, ss, take-length s rest, drop-length s rest, f) refl
      ])

-- READ_BUF_STRING takes the string, its length and the place of its NUL, or runs out of buffer.
pub read_buf_string_lem :
    (s rest : Bytes) (n p o : ℕ)
    → Short s
    → p < 2 ^ 63
    → read_buf_string (client (put_string s ++ rest) n p o) ≡ (
        if ltb n (p + length s + 1)
        then buffer_error
        else got s (client rest n (p + length s + 1) o))
unfolding read_buf_string
read_buf_string_lem s rest n p o h b =
    let m = length s in
    let i = read_int32_lem m (s ++ rest) n p o (omega arith) in
    let bytes : put_string s ++ rest ≡ put_int32 m ++ (s ++ rest) =
      ap (λ t. t ++ rest) (put_string-Short s h) ∙ append_assoc (put_int32 m) s rest in
    ap (λ t. read_buf_string (client t n p o)) bytes
    ∙ (then_lem read_int32 read_sized_string (client (put_int32 m ++ (s ++ rest)) n p o) false m
          (client (s ++ rest) n p o) i
        ∙ read_sized_string_lem s rest n p o h b)
