-- ===== src/Shadow/Dates.antt =====
-- nslcd/shadow.c: the date of a password change in Active Directory.
use nss_pam_ldapd.Prelude.{
  ltb, some, ℕ, suc, ◌+◌, ◌-◌, ◌*◌, ◌/◌, ◌%◌, ◌^◌, ◌<◌, ◌≤◌, ◌≡◌, refl, ap, ◌∙◌, false, [], ◌∷◌,
  ◌++◌, arith, length, length-append, take,
}
use nss_pam_ldapd.Prelude.Int.{pos, ◌-ℤ◌, quotient}
use native.Mathlib.Nat.{mul-le-mul_right}
use native.Mathlib.Omega.{pow_step}
use nss_pam_ldapd.Bytes.{is_empty, Bytes, bytes}
use nss_pam_ldapd.Bytes.Number.{
  is_digit, digits, numeral, unsigned, signed, skip_space, strtol, long_max,
}
use nss_pam_ldapd.Bytes.Number.Digits.{decimal, Digits, is_digit-no_space, is_digit-no_sign}
use nss_pam_ldapd.Attmap.{equal_ignoring_case}
use nss_pam_ldapd.Shadow.{to_date_ad, to_date}

digits-Digits : (acc : ℕ) (s : Bytes) → Digits s → digits acc s ≡ (decimal acc s, [])
unfolding digits decimal
digits-Digits acc [] h = refl
digits-Digits acc (c ∷ s) h = rw h.0 (digits-Digits (acc * 10 + (c - b'0')) s h.1)

decimal-append : (acc : ℕ) (s t : Bytes) → decimal acc (s ++ t) ≡ decimal (decimal acc s) t
unfolding decimal
decimal-append acc [] t = refl
decimal-append acc (c ∷ s) t = decimal-append (acc * 10 + (c - b'0')) s t

-- The digits read onto a number are the last ones.
decimal-between :
    (acc : ℕ) (s : Bytes)
    → Digits s
    → (acc * 10 ^ length s ≤ decimal acc s) × (decimal acc s < (acc + 1) * 10 ^ length s)
unfolding decimal is_digit
decimal-between acc [] h = (omega arith, omega arith)
decimal-between acc (c ∷ s) h =
    let d = c - b'0' in
    let p = 10 ^ length s in
    let (low, high) = decimal-between (acc * 10 + d) s h.1 in
    let small : d < 10 = let e = h.0 in ground arith in
    let many : (d + 1) * p ≤ 10 * p = mul-le-mul_right p (let e = small in omega arith) in
    let step : 10 ^ suc (length s) ≡ 10 * p = pow_step 10 (length s) in
    rw step (omega arith, omega arith)

numeral-Digits :
    (c : ℕ) (s : Bytes)
    → Digits (c ∷ s)
    → numeral (c ∷ s) ≡ some (record { negative = false; magnitude = decimal 0 (c ∷ s); rest = [] })
unfolding numeral signed unsigned skip_space decimal
numeral-Digits c s h =
    let e = h.0 in
    let no_space = is_digit-no_space c e in
    let no_sign = is_digit-no_sign c e in
    rw (no_space, no_sign.0, no_sign.1, e, digits-Digits (0 + (c - b'0')) s h.1) refl

strtol-Digits :
    (s : Bytes)
    → Digits s
    → 0 < length s
    → decimal 0 s ≤ long_max
    → strtol s ≡ record { value = pos (decimal 0 s); rest = []; out_of_range = false }
unfolding strtol
strtol-Digits [] h p l = absurd (omega arith)
strtol-Digits (c ∷ s) h p l =
    let r : ltb long_max (decimal 0 (c ∷ s)) ≡ false = ground arith in
    rw (numeral-Digits c s h, strtol) (rw r refl)

take-append : (s t : Bytes) → take (length s) (s ++ t) ≡ s
take-append [] [] = refl
take-append [] (c ∷ t) = refl
take-append (c ∷ s) t = ap (λ x. c ∷ x) (take-append s t)

is_empty-append : (s t : Bytes) → 0 < length s → is_empty (s ++ t) ≡ false
is_empty-append [] t h = absurd (omega arith)
is_empty-append (c ∷ s) t h = refl

-- The time of a password change in Active Directory, written in decimal digits that count units of
-- 100 nanoseconds since the year 1601, is turned into the days since the year 1970: the division by
-- the units of a day rounds down, although only the digits before the last nine are read.  There
-- are at most 31 of those, and the number that they write fits in a long.
pub to_date_lem :
    (high low : Bytes)
    → Digits high
    → Digits low
    → 0 < length high
    → length high ≤ 31
    → length low ≡ 9
    → decimal 0 high ≤ long_max
    → to_date (high ++ low) (bytes "pwdLastSet")
      ≡ pos (decimal 0 (high ++ low) / 864000000000) -ℤ pos 134774
unfolding to_date to_date_ad quotient equal_ignoring_case
to_date_lem high low h k p l n m =
    let all = length-append high low in
    let size : (length (high ++ low) + 2 ^ 64 - 9) % 2 ^ 64 ≡ length high = omega arith in
    let read = ap strtol (take-append high low) ∙ strtol-Digits high h p m in
    let room : ltb 31 (length high) ≡ false = ground arith in
    let (least, most) = decimal-between (decimal 0 high) low k in
    let nine : 10 ^ length low ≡ 10 ^ 9 = ap (λ x. 10 ^ x) n in
    let at_least = rw nine at least in
    let at_most = rw nine at most in
    let value = decimal-append 0 high low in
    let days : decimal 0 high / 864 ≡ decimal 0 (high ++ low) / 864000000000 = omega arith in
    rw (size, room, is_empty-append high low p, read) (ap (λ x. pos x -ℤ pos 134774) days)
