-- ===== src/Expr/Fits.antt =====
-- common/expr.c: cursor and buffer of the parts of an expression without nested ones.
use nss_pam_ldapd.Bytes.Number.Length.{length-strtoul}
use nss_pam_ldapd.Prelude.{
  ℕ, zero, suc, ◌≤◌, ◌<◌, Bool, true, false, ◌&&◌, [], ◌∷◌, Option, none, some, inl, inr, arith,
  ltb, leb, ◌==◌, if◌then◌else◌, length, take, drop, length-take, Bool-cases, tests,
}
use nss_pam_ldapd.Bytes.{Bytes, head_byte, tail_bytes}
use nss_pam_ldapd.Bytes.Number.{is_digit, strtoul}
use nss_pam_ldapd.Outcome.{
  advance, Outcome, Ensures, holds, fails, overruns, Ensures-bind, Ensures-if, Ensures-weaken,
}
use nss_pam_ldapd.Expr.{
  Expander, name_loop, parse_name, copy_value, substring, parse_dollar_substring, match_word,
  match_char, clip_offset, clip_length, var_value, parse_dollar_match, parse_simple,
}

-- The text fits in the buffer, and the cursor has not moved back behind `s`.
pub record Fits (buflen : ℕ) (s : Bytes) (r : Bytes × Bytes) : Type 0 where
  pub text : length r.0 < buflen
  pub cursor : length r.1 ≤ length s

pub length-tail_bytes : (s : Bytes) → length (tail_bytes s) ≤ length s
length-tail_bytes [] = omega arith
length-tail_bytes (c ∷ s) = omega arith

pub length-advance : (s : Bytes) → Ensures (λ t. length t < length s) (advance s)
unfolding advance
length-advance [] = overruns
length-advance (c ∷ s) = holds (omega arith)

length-name_loop : (x : Bool) (n : ℕ) (s : Bytes) → length (name_loop x n s).1 ≤ length s
unfolding name_loop
length-name_loop x zero s = omega arith
length-name_loop x (suc n) [] = omega arith
length-name_loop x (suc n) (c ∷ s) = ground (arith, length-name_loop x n s)

pub length-parse_name : (x : Bool) (n : ℕ) (s : Bytes) → length (parse_name x n s).1 ≤ length s
unfolding parse_name
length-parse_name x n s = ground (arith, length-name_loop x n s)

pub copy_value-Fits :
    (n : ℕ) (v s t : Bytes) → length s ≤ length t → Ensures (Fits n t) (copy_value n v s)
unfolding copy_value
copy_value-Fits n v s t h = elim (Bool-cases (ltb (length v) n)) [
  | inl e ↦ rw e (holds (record { text = ground arith; cursor = h }))
  | inr e ↦ rw e fails
]

length-take-le : (k : ℕ) (v : Bytes) → length (take k v) ≤ k
length-take-le k v = omega (arith, length-take k v)

substring-Fits :
    (n : ℕ) (v : Bytes) (o l : ℕ) (s t : Bytes)
    → length s ≤ length t
    → Ensures (Fits n t) (substring n v o l s)
unfolding substring
substring-Fits n v o l s t h =
    let start = clip_offset (length v) o in
    let count = clip_length (length v) start l in
    Ensures-if (leb n count) (λ _. fails)
      λ e. holds (record { text = omega (tests, length-take-le count (drop start v)); cursor = h })

pub parse_dollar_substring-Fits :
    (n : ℕ) (v s : Bytes) → Ensures (Fits n s) (parse_dollar_substring n v s)
unfolding parse_dollar_substring
parse_dollar_substring-Fits n v s =
    let t = (strtoul s).rest in
    let u = (strtoul (tail_bytes t)).rest in
    Ensures-if (is_digit (head_byte s))
      (λ _.
        Ensures-if (head_byte t == b':' && (if (strtoul s).out_of_range then false else true))
          (λ _.
            Ensures-if
              (head_byte u == b'}'
                && (if (strtoul (tail_bytes t)).out_of_range then false else true))
              (λ _. substring-Fits n v _ _ u s (
                omega
                  (arith, length-strtoul s, length-strtoul (tail_bytes t), length-tail_bytes t)))
              (λ _. fails))
          (λ _. fails))
      (λ _. fails)

match_word-Fits :
    (x : Bool) (vp : Option Bytes) (s : Bytes)
    → Ensures (λ r. length r.1 ≤ length s) (match_word x vp s)
unfolding match_word
match_word-Fits x vp [] = fails
match_word-Fits true vp (c ∷ s) =
    Ensures-weaken (match_word-Fits false (match_char c vp) s) λ r h. omega arith
match_word-Fits false vp (c ∷ s) =
    Ensures-if (c == b'}') (λ _. holds (omega arith))
      λ _. Ensures-weaken (match_word-Fits (c == b'\\') _ s) λ r h. omega arith

pub parse_dollar_match-Fits : (n : ℕ) (v s : Bytes) → Ensures (Fits n s) (parse_dollar_match n v s)
unfolding parse_dollar_match
parse_dollar_match-Fits n v s =
    Ensures-bind (match_word-Fits false (some v) s) λ r h. copy_value-Fits n _ r.1 s h

pub parse_simple-Fits :
    (e : Expander) (n : ℕ) (r : Option Bytes × Bytes) (s : Bytes)
    → length r.1 ≤ length s
    → Ensures (Fits n s) (parse_simple e n r)
unfolding parse_simple
parse_simple-Fits e n (none, t) s h = fails
parse_simple-Fits e n (some name, t) s h = copy_value-Fits n (var_value (e name)) t s h

pub widen :
    {n : ℕ} {s t : Bytes} {r : Outcome (Bytes × Bytes)}
    → Ensures (Fits n s) r
    → length s ≤ length t
    → Ensures (Fits n t) r
widen h le =
    Ensures-weaken h
      λ r fits. record { text = fits.text; cursor = let c = fits.cursor in omega arith }
