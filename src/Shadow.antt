-- ===== src/Shadow.antt =====
-- nslcd/shadow.c: the dates and limits of a shadow entry.
pub mod Dates
pub mod Requests
pub mod Answer
use nss_pam_ldapd.Prelude.Int.{ℤ, pos, negsuc, ◌-ℤ◌, quotient, pos_part, neg_part}
use nss_pam_ldapd.Prelude.{
  ℕ, ◌+◌, ◌-◌, ◌/◌, ◌%◌, ◌^◌, Bool, true, false, not, ◌||◌, [], ◌∷◌, ltb, ◌==◌, if◌then◌else◌,
  length, take,
}
use nss_pam_ldapd.Bytes.{Bytes, bytes, is_empty}
use nss_pam_ldapd.Bytes.Number.{Conversion, strtol}
use nss_pam_ldapd.Outcome.{Outcome, ok, fail, overrun, out_of_fuel, ◌>>=◌}
use nss_pam_ldapd.Attmap.{Entry, equal_ignoring_case, attmap_get_value}

abbrev pub minus_one : ℤ
minus_one = negsuc 0

-- The value, if the whole text is a number in range.
unfoldable pub checked_long : Bytes → Conversion ℤ → ℤ → ℤ
checked_long text c fallback =
    if is_empty text || not (is_empty c.rest)
    then fallback
    else if c.out_of_range
    then fallback
    else c.value

-- a Windows file time, in units of 100 nanoseconds, less its last nine digits
unfoldable pub to_date_ad : Bytes → ℤ
to_date_ad date =
    let l = (length date + 2 ^ 64 - 9) % 2 ^ 64 in
    let c = strtol (take l date) in
    if ltb 31 l
    then minus_one
    else if is_empty date || not (is_empty c.rest)
    then minus_one
    else if c.out_of_range
    then minus_one
    else quotient c.value 864 -ℤ pos 134774

unfoldable pub to_date : Bytes → Bytes → ℤ
to_date date attr =
    if equal_ignoring_case attr (bytes "pwdLastSet")
    then to_date_ad date
    else checked_long date (strtol date) minus_one

-- the variables attmap_shadow_* that get_shadow_properties() reads
pub record Attributes : Type 0 where
  pub last_change : Bytes
  pub min : Bytes
  pub max : Bytes
  pub warning : Bytes
  pub inactive : Bytes
  pub expire : Bytes
  pub flag : Bytes

pub record Properties : Type 0 where
  pub lastchangedate : ℤ
  pub mindays : ℤ
  pub maxdays : ℤ
  pub warndays : ℤ
  pub inactdays : ℤ
  pub expiredate : ℤ
  pub flag : ℕ

-- attmap_get_value() with a buffer of 64 bytes; NULL is read as the empty string
unfoldable pub get_text : Entry → Bytes → Outcome Bytes
get_text entry attr = elim (attmap_get_value entry attr 64) [
  | ok text ↦ ok text
  | fail ↦ ok []
  | overrun ↦ overrun
  | out_of_fuel ↦ out_of_fuel
]

-- GET_OPTIONAL_LONG
unfoldable pub get_optional_long : Entry → Bytes → ℤ → Outcome ℤ
get_optional_long entry attr fallback = do
  text ← get_text entry attr
  ok (checked_long text (strtol text) fallback)

-- (unsigned long) of a long
unfoldable pub to_ulong : ℤ → ℕ
to_ulong v = (pos_part v + 2 ^ 64 - neg_part v) % 2 ^ 64

abbrev pub uf_dont_expire_passwd : ℕ
uf_dont_expire_passwd = 0x10000

abbrev has_flag : ℕ → Bool
has_flag flag = flag / uf_dont_expire_passwd % 2 == 1

-- if we're using AD handle the flag specially
unfoldable pub ad_flags : Bytes → Properties → Properties
ad_flags attr p =
    if equal_ignoring_case attr (bytes "pwdLastSet")
    then record p { maxdays = if has_flag p.flag then minus_one else p.maxdays; flag = 0 }
    else p

unfoldable pub get_shadow_properties : Entry → Attributes → Outcome Properties
get_shadow_properties entry a = do
  date ← get_text entry a.last_change
  mindays ← get_optional_long entry a.min minus_one
  maxdays ← get_optional_long entry a.max minus_one
  warndays ← get_optional_long entry a.warning minus_one
  inactdays ← get_optional_long entry a.inactive minus_one
  expiredate ← get_optional_long entry a.expire minus_one
  flag ← get_optional_long entry a.flag (pos 0)
  ok (
      ad_flags a.last_change (record {
        lastchangedate = to_date date a.last_change;
        mindays = mindays;
        maxdays = maxdays;
        warndays = warndays;
        inactdays = inactdays;
        expiredate = expiredate;
        flag = to_ulong flag;
      }))
