-- ===== src/Bytes/Number/Digits.antt =====
-- Decimal digits, and what strtoul() reads of them.
use nss_pam_ldapd.Prelude.{
  ℕ, ◌+◌, ◌-◌, ◌*◌, ◌<◌, ◌≡◌, refl, true, false, [], ◌∷◌, ◌++◌, some, arith, ltb, ◌==◌,
  if◌then◌else◌, length, All, Bool-cases, inl, inr,
}
use nss_pam_ldapd.Bytes.{Bytes}
use nss_pam_ldapd.Bytes.Number.{
  is_digit, is_space, digits, numeral, unsigned, signed, skip_space, strtoul, ulong_max,
}

-- The number that decimal digits write, read onto `acc`.
unfoldable pub decimal : ℕ → Bytes → ℕ
decimal acc [] = acc
decimal acc (c ∷ s) = decimal (acc * 10 + (c - b'0')) s

abbrev pub Digits : Bytes → Type 0
Digits s = All (λ c. is_digit c ≡ true) s

pub is_digit-no_space : (c : ℕ) → is_digit c ≡ true → is_space c ≡ false
unfolding is_digit is_space
is_digit-no_space c h = ground arith

pub is_digit-no_sign : (c : ℕ) → is_digit c ≡ true → ((c == b'-') ≡ false) × ((c == b'+') ≡ false)
unfolding is_digit
is_digit-no_sign c h = (ground arith, ground arith)

-- What follows the digits of a number.
abbrev pub NoDigit : Bytes → Type 0
NoDigit [] = Unit
NoDigit (c ∷ s) = is_digit c ≡ false

digits-append :
    (acc : ℕ) (s rest : Bytes)
    → Digits s
    → NoDigit rest
    → digits acc (s ++ rest) ≡ (decimal acc s, rest)
unfolding digits decimal
digits-append acc [] [] h k = refl
digits-append acc [] (c ∷ rest) h k = rw k refl
digits-append acc (c ∷ s) rest h k = rw h.0 (digits-append (acc * 10 + (c - b'0')) s rest h.1 k)

numeral-append :
    (c : ℕ) (s rest : Bytes)
    → Digits (c ∷ s)
    → NoDigit rest
    → numeral (c ∷ s ++ rest)
      ≡ some (record { negative = false; magnitude = decimal 0 (c ∷ s); rest = rest })
unfolding numeral signed unsigned skip_space decimal
numeral-append c s rest h k =
    let e = h.0 in
    let no_space = is_digit-no_space c e in
    let no_sign = is_digit-no_sign c e in
    rw (no_space, no_sign.0, no_sign.1, e, digits-append (0 + (c - b'0')) s rest h.1 k) refl

-- The number in an unsigned long, or the greatest one.
abbrev pub capped : ℕ → ℕ
capped n = if ltb ulong_max n then ulong_max else n

pub strtoul-append :
    (s rest : Bytes)
    → Digits s
    → 0 < length s
    → NoDigit rest
    → ((strtoul (s ++ rest)).value ≡ capped (decimal 0 s)) × ((strtoul (s ++ rest)).rest ≡ rest)
unfolding strtoul
strtoul-append [] rest h p k = absurd (omega arith)
strtoul-append (c ∷ s) rest h p k = elim (Bool-cases (ltb ulong_max (decimal 0 (c ∷ s)))) [
  | inl e ↦ rw (numeral-append c s rest h k, strtoul) (rw e (refl, refl))
  | inr e ↦ rw (numeral-append c s rest h k, strtoul) (rw e (refl, refl))
]
