-- ===== src/Protocol/Client.antt =====
-- common/nslcd-prot.h: what the READ macros take from the stream into the caller's buffer.
use nss_pam_ldapd.Prelude.{
  ℕ, zero, suc, ◌+◌, ◌-◌, ◌*◌, ◌%◌, ◌^◌, List, [], ◌∷◌, ltb, leb, if◌then◌else◌, length, take, drop,
}
use nss_pam_ldapd.Bytes.{Bytes}

-- What is left of the stream, the buffer's size, the part of it that is used, and the remainder of
-- its address by the size of a pointer.
pub record Client : Type 0 where
  pub stream : Bytes
  pub buflen : ℕ
  pub bufptr : ℕ
  pub origin : ℕ

-- ERROR_OUT_READERROR and ERROR_OUT_BUFERROR; `corrupt` is a length that the macro's arithmetic does
-- not stand, so that it writes outside its part of the buffer.
pub data Read {ℓ} (A : Type ℓ) : Type ℓ where
  got : A → Client → Read A
  read_error : Read A
  buffer_error : Read A
  corrupt : Read A
  out_of_fuel : Read A

abbrev pub M : Type 0 → Type 0
M A = Client → Read A

abbrev pub bind_result : {A B : Type 0} → Read A → (A → M B) → Read B
bind_result (got a c) f = f a c
bind_result read_error f = read_error
bind_result buffer_error f = buffer_error
bind_result corrupt f = corrupt
bind_result out_of_fuel f = out_of_fuel

infixl 5 ◌>>=◌
abbrev pub ◌>>=◌ : {A B : Type 0} → M A → (A → M B) → M B
◌>>=◌ m f c = bind_result (m c) f

abbrev pub return : {A : Type 0} → A → M A
return a c = got a c

-- READ: tio_read() of `n` bytes
unfoldable pub read_bytes : ℕ → M Bytes
read_bytes n c =
    if ltb (length c.stream) n
    then read_error
    else got (take n c.stream) (record c { stream = drop n c.stream })

abbrev from_bytes : Bytes → Bytes → Client → Read ℕ
from_bytes (a ∷ b ∷ d ∷ e ∷ []) rest c =
    got (a * 2 ^ 24 + b * 2 ^ 16 + d * 2 ^ 8 + e) (record c { stream = rest })
from_bytes _ rest c = read_error

-- READ_INT32
unfoldable pub read_int32 : M ℕ
read_int32 c = from_bytes (take 4 c.stream) (drop 4 c.stream) c

-- BUF_CHECK, on unsigned numbers of 64 bits, and BUF_SKIP
unfoldable pub buf_check : ℕ → M (Unit {0})
buf_check sz c = if ltb c.buflen ((c.bufptr + sz) % 2 ^ 64) then buffer_error else got tt c

unfoldable pub buf_skip : ℕ → M (Unit {0})
buf_skip sz c = got tt (record c { bufptr = c.bufptr + sz })

-- (size_t)(n + 1) of an int32_t
unfoldable pub size_with_nul : ℕ → ℕ
size_with_nul n = if ltb n (2 ^ 31) then n + 1 else (2 ^ 64 - 2 ^ 32 + n + 1) % 2 ^ 64

abbrev no_result : {A : Type 0} → M A
no_result c = corrupt

-- READ_BUF_STRING once its length is read: the largest int has no successor, and a negative length
-- moves backwards
unfoldable pub read_sized_string : ℕ → M Bytes
unfolding read_bytes buf_check buf_skip size_with_nul
read_sized_string n =
    let check = buf_check (size_with_nul n) in
    do
      u ← if ltb n (2 ^ 31 - 1) then check else if ltb (2 ^ 31 - 1) n then check else no_result
      s ← if ltb n (2 ^ 31) then read_bytes n else no_result
      v ← buf_skip (n + 1)
      return s

unfoldable pub read_buf_string : M Bytes
unfolding read_int32 read_sized_string
read_buf_string = do n ← read_int32; read_sized_string n

-- BUF_ALIGN for a pointer of 8 bytes
unfoldable pub buf_align : M (Unit {0})
unfolding buf_check buf_skip
buf_align c = let sz = (8 - (c.origin + c.bufptr) % 8) % 8 in (do u ← buf_check sz; buf_skip sz) c

unfoldable pub read_strings : ℕ → M (List Bytes)
unfolding read_buf_string
read_strings zero = return []
read_strings (suc n) = do s ← read_buf_string; l ← read_strings n; return (s ∷ l)

-- BUF_ALLOC of `num` pointers, and READ_BUF_STRINGLIST: room for the pointers and a NULL is taken
-- first, and a negative number of strings leaves the index at 0; the largest int has no successor
unfoldable pub buf_alloc : ℕ → M (Unit {0})
unfolding buf_align buf_check buf_skip
buf_alloc num = do u ← buf_align; v ← buf_check (num * 8 % 2 ^ 64); buf_skip (num * 8 % 2 ^ 64)

unfoldable pub read_sized_list : ℕ → M (List Bytes)
unfolding read_strings buf_alloc size_with_nul
read_sized_list n =
    let alloc = buf_alloc (size_with_nul n) in
    do
      u ← if ltb n (2 ^ 31 - 1) then alloc else if ltb (2 ^ 31 - 1) n then alloc else no_result
      if ltb n (2 ^ 31) then read_strings n else no_result

unfoldable pub read_buf_stringlist : M (List Bytes)
unfolding read_int32 read_sized_list
read_buf_stringlist = do n ← read_int32; read_sized_list n

-- READ_STRING into a buffer of `size` bytes; a negative length is a large size_t
unfoldable pub read_checked_string : ℕ → ℕ → M Bytes
unfolding read_bytes
read_checked_string size n = if leb size n then (λ c. buffer_error) else read_bytes n

unfoldable pub read_string : ℕ → M Bytes
unfolding read_checked_string read_int32
read_string size = do n ← read_int32; read_checked_string size n

-- SKIP_STRING and SKIP_STRINGLIST; tio_skip() of a negative length asks for more than there can be
unfoldable pub skip_bytes : ℕ → M (Unit {0})
unfolding read_bytes
skip_bytes n = do s ← read_bytes (if ltb n (2 ^ 31) then n else 2 ^ 64 - 2 ^ 32 + n); return tt

unfoldable pub skip_string : M (Unit {0})
unfolding skip_bytes read_int32
skip_string = do n ← read_int32; skip_bytes n

unfoldable pub skip_strings : ℕ → M (Unit {0})
unfolding skip_string
skip_strings zero = return tt
skip_strings (suc n) = do u ← skip_string; skip_strings n

unfoldable pub skip_list : ℕ → M (Unit {0})
unfolding skip_strings
skip_list n = if ltb n (2 ^ 31) then skip_strings n else return tt

unfoldable pub skip_stringlist : M (Unit {0})
unfolding skip_list
skip_stringlist = do n ← read_int32; skip_list n
