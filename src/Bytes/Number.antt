-- ===== src/Bytes/Number.antt =====
-- What the code uses of <ctype.h> in the C locale, and of strtoul() and strtol() in base 10 on a
-- platform with a 64-bit long.
pub mod Length
pub mod Digits
use nss_pam_ldapd.Prelude.Int.{ℤ, pos, sub_ℕ}
use nss_pam_ldapd.Prelude.{
  ◌++◌, ◌/◌, suc, ℕ, zero, ◌+◌, ◌-◌, ◌*◌, ◌^◌, ◌%◌, Bool, true, false, ◌&&◌, ◌||◌, List, [], ◌∷◌,
  Option, none, some, ltb, leb, ◌==◌, if◌then◌else◌,
}

abbrev Bytes : Type 0
Bytes = List ℕ

unfoldable pub is_digit : ℕ → Bool
is_digit c = leb b'0' c && leb c b'9'

unfoldable pub is_space : ℕ → Bool
is_space c = c == 32 || leb 9 c && leb c 13

unfoldable pub skip_space : Bytes → Bytes
unfolding is_space
skip_space [] = []
skip_space (c ∷ s) = if is_space c then skip_space s else c ∷ s

-- The digits at the front, read onto `acc`, and what follows them.
unfoldable pub digits : ℕ → Bytes → ℕ × Bytes
unfolding is_digit
digits acc [] = (acc, [])
digits acc (c ∷ s) = if is_digit c then digits (acc * 10 + (c - b'0')) s else (acc, c ∷ s)

-- A sign, a magnitude and what follows, or `none` where the text has no number.
pub record Numeral : Type 0 where
  pub negative : Bool
  pub magnitude : ℕ
  pub rest : Bytes

unfoldable pub unsigned : Bool → Bytes → Option Numeral
unfolding digits
unsigned neg [] = none
unsigned neg (c ∷ s) =
    if is_digit c
    then some
        (record { negative = neg; magnitude = (digits 0 (c ∷ s)).0; rest = (digits 0 (c ∷ s)).1 })
    else none

unfoldable pub signed : Bytes → Option Numeral
unfolding unsigned
signed [] = none
signed (c ∷ s) =
    if c == b'-'
    then unsigned true s
    else if c == b'+'
    then unsigned false s
    else unsigned false (c ∷ s)

unfoldable pub numeral : Bytes → Option Numeral
unfolding signed skip_space
numeral s = signed (skip_space s)

abbrev pub ulong_max : ℕ
ulong_max = 2 ^ 64 - 1

-- The value, where the text stops, and whether errno is ERANGE.  A negative number wraps round.
pub record Conversion (A : Type 0) : Type 0 where
  pub value : A
  pub rest : Bytes
  pub out_of_range : Bool

abbrev pub long_max : ℕ
long_max = 2 ^ 63 - 1

unfoldable pub strtol : Bytes → Conversion ℤ
strtol s = elim (numeral s) [
  | none ↦ record { value = pos 0; rest = s; out_of_range = false }
  | some n ↦
      if n.negative
      then if ltb (2 ^ 63) n.magnitude
        then record { value = sub_ℕ 0 (2 ^ 63); rest = n.rest; out_of_range = true }
        else record { value = sub_ℕ 0 n.magnitude; rest = n.rest; out_of_range = false }
      else if ltb long_max n.magnitude
      then record { value = pos long_max; rest = n.rest; out_of_range = true }
      else record { value = pos n.magnitude; rest = n.rest; out_of_range = false }
]

unfoldable pub strtoul : Bytes → Conversion ℕ
unfolding numeral
strtoul s = elim (numeral s) [
  | none ↦ record { value = 0; rest = s; out_of_range = false }
  | some n ↦
      if ltb ulong_max n.magnitude
      then record { value = ulong_max; rest = n.rest; out_of_range = true }
      else record {
        value = if n.negative then (2 ^ 64 - n.magnitude) % 2 ^ 64 else n.magnitude;
        rest = n.rest;
        out_of_range = false;
      }
]

-- %lu of a number below 10 ^ 20
unfoldable pub decimal_digits : ℕ → ℕ → Bytes
decimal_digits zero n = []
decimal_digits (suc fuel) n =
    let front = decimal_digits fuel (n / 10) in
    if ltb n 10 then (b'0' + n) ∷ [] else front ++ (b'0' + n % 10) ∷ []

unfoldable pub put_decimal : ℕ → Bytes
unfolding decimal_digits
put_decimal n = decimal_digits 20 n
