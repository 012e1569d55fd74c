-- ===== src/Bytes/Number/Length.antt =====
-- The length of what strtoul() leaves of a text.
use nss_pam_ldapd.Prelude.{
  ℕ, suc, ◌+◌, ◌-◌, ◌*◌, ◌≤◌, ◌≡◌, refl, Bool, true, false, [], ◌∷◌, Option, none, some, arith,
  length,
}
use nss_pam_ldapd.Bytes.{Bytes}
use nss_pam_ldapd.Bytes.Number.{Numeral, digits, unsigned, signed, skip_space, strtoul}

length-skip_space : (s : Bytes) → length (skip_space s) ≤ length s
unfolding skip_space
length-skip_space [] = omega arith
length-skip_space (c ∷ s) = ground (arith, length-skip_space s)

abbrev rest_length : Option Numeral → ℕ
rest_length none = 0
rest_length (some n) = length n.rest

length-digits : (acc : ℕ) (s : Bytes) → length (digits acc s).1 ≤ length s
unfolding digits
length-digits acc [] = omega arith
length-digits acc (c ∷ s) = ground (arith, length-digits (acc * 10 + (c - b'0')) s)

length-unsigned :
    (neg : Bool) (s : Bytes) (x : ℕ)
    → length s ≤ x
    → (o : Option Numeral) → unsigned neg s ≡ o
    → rest_length o ≤ x
unfolding unsigned
length-unsigned neg s x h none e = omega arith
length-unsigned neg [] x h (some n) e = cc
length-unsigned neg (c ∷ s) x h (some n) e = ground (arith, length-digits 0 (c ∷ s))

length-signed : (s : Bytes) → rest_length (signed s) ≤ length s
unfolding signed
length-signed [] = omega arith
length-signed (c ∷ s) = ground (
  arith,
  length-unsigned true s (suc (length s)) (omega arith) (unsigned true s) refl,
  length-unsigned false s (suc (length s)) (omega arith) (unsigned false s) refl,
  length-unsigned false (c ∷ s) (suc (length s)) (omega arith) (unsigned false (c ∷ s)) refl,
)

pub length-strtoul : (s : Bytes) → length (strtoul s).rest ≤ length s
unfolding strtoul
length-strtoul s = ground (arith, length-signed (skip_space s), length-skip_space s)
