-- ===== src/Expr/Vars.antt =====
-- common/expr.c: expr_vars(), the names that an expression may look up.
use nss_pam_ldapd.Prelude.{
  ℕ, zero, suc, ◌+◌, Bool, true, false, List, [], ◌∷◌, Option, none, some, ◌==◌, if◌then◌else◌,
  length,
}
use nss_pam_ldapd.Bytes.{Bytes, head_byte, tail_bytes}
use nss_pam_ldapd.Outcome.{Outcome, ok, overrun}
use nss_pam_ldapd.Dict.{Memory}
use nss_pam_ldapd.Set.{Set, set_add}
use nss_pam_ldapd.Expr.{parse_name, max_var_length}

-- The names found in their order, and whether the cursor has stepped over the terminating NUL.
pub record Scan : Type 0 where
  pub names : List Bytes
  pub overran : Bool

abbrev pub end_of_scan : Bool → Scan
end_of_scan o = record { names = []; overran = o }

abbrev pub found : Option Bytes → Scan → Scan
found none s = s
found (some name) s = record s { names = name ∷ s.names }

-- the position behind a `$`, after an opening brace
abbrev pub skip_brace : Bytes → Bytes
skip_brace s = if head_byte s == b'{' then tail_bytes s else s

unfoldable pub scan_name : (Bytes → Scan) → Option Bytes × Bytes → Scan
scan_name loop (name, s) = found name (loop s)

-- the case of a backslash, with the cursor behind it
unfoldable pub scan_escaped : (Bytes → Scan) → Bytes → Scan
scan_escaped loop [] = end_of_scan true
scan_escaped loop (c ∷ s) = loop s

-- one round of the loop in expr_vars()
unfoldable pub scan_step : (Bytes → Scan) → Bytes → Scan
scan_step loop [] = end_of_scan false
scan_step loop (c ∷ s) =
    if c == b'$'
    then scan_name loop (parse_name false max_var_length (skip_brace s))
    else if c == b'\\'
    then scan_escaped loop s
    else loop s

unfoldable pub scan_vars : ℕ → Bytes → Scan
scan_vars zero s = end_of_scan false
scan_vars (suc fuel) s = scan_step (scan_vars fuel) s

-- the arguments of the calls of set_add()
unfoldable pub var_names : Bytes → Scan
var_names str = scan_vars (length str + 1) str

unfoldable pub add_all : Memory → Set → List Bytes → Set
add_all mem set [] = set
add_all mem set (name ∷ names) = add_all mem (set_add mem set name).1 names

unfoldable pub expr_vars : Memory → Bytes → Set → Outcome Set
expr_vars mem str set =
    let scan = var_names str in if scan.overran then overrun else ok (add_all mem set scan.names)
