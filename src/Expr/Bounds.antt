-- ===== src/Expr/Bounds.antt =====
-- common/expr.c: fuel, cursor and buffer of the calls, nested ones included.
use nss_pam_ldapd.Expr.Fits.{
  Fits, length-tail_bytes, length-advance, length-parse_name, copy_value-Fits,
  parse_dollar_substring-Fits, parse_dollar_match-Fits, parse_simple-Fits, widen,
}
use nss_pam_ldapd.Prelude.{
  ℕ, zero, suc, ◌+◌, ◌-◌, ◌≤◌, ◌<◌, ◌≡◌, ◌≢◌, true, false, ◌&&◌, [], ◌∷◌, ◌++◌, Option, none, some,
  arith, leb, ◌==◌, length, tests,
}
use nss_pam_ldapd.Bytes.{Bytes, head_byte, tail_bytes}
use nss_pam_ldapd.Outcome.{
  Outcome, ok, out_of_fuel, Ensures, holds, fails, Ensures-bind, Ensures-if, Ensures-ok,
  Ensures-out_of_fuel,
}
use nss_pam_ldapd.Expr.{
  Expander, Word, parse_name, parse_dollar_default, parse_dollar_alternative, max_var_length,
  var_value, parse_braced, parse_brace, parse_dollar_expression, terminate, copy_char,
  expand_dollar, expression_step, parse_expression, expr_parse, empty_expander,
}

-- What a nested call may be relied on for.
abbrev IsBounded : ℕ → Word → Type 0
IsBounded k word =
    (e : Expander) (n : ℕ) (s : Bytes) → length s < k → Ensures (Fits n s) (word e n s)

module _ (word : Word) (k : ℕ) (bounded : IsBounded k word) where
  parse_dollar_default-Fits :
      (e : Expander) (n : ℕ) (v s : Bytes)
      → length s < k
      → Ensures (Fits n s) (parse_dollar_default word e n v s)
  unfolding parse_dollar_default
  parse_dollar_default-Fits e n [] s h = bounded e n s h
  parse_dollar_default-Fits e n (c ∷ v) s h =
      Ensures-bind (bounded empty_expander n s h)
        λ r fits. copy_value-Fits n (c ∷ v) r.1 s fits.cursor

  parse_dollar_alternative-Fits :
      (e : Expander) (n : ℕ) (v s : Bytes)
      → length s < k
      → Ensures (Fits n s) (parse_dollar_alternative word e n v s)
  unfolding parse_dollar_alternative
  parse_dollar_alternative-Fits e n (c ∷ v) s h = bounded e n s h
  parse_dollar_alternative-Fits e n [] s h =
      Ensures-bind (bounded empty_expander n s h)
        λ r fits. holds (record { text = let t = fits.text in omega arith; cursor = fits.cursor })

  parse_braced-Fits :
      (e : Expander) (n : ℕ) (v s : Bytes)
      → length s < k
      → Ensures (Fits n s) (parse_braced word e n v s)
  unfolding parse_braced
  parse_braced-Fits e n v s h =
      let t = tail_bytes s in
      let u = tail_bytes t in
      let here : length t ≤ length s = length-tail_bytes s in
      let there : length u ≤ length t = length-tail_bytes t in
      Ensures-if (head_byte s == b'}') (λ _. copy_value-Fits n v s s (omega arith))
        λ _.
          Ensures-if (head_byte s == b':' && head_byte t == b'-')
            (λ _. widen (parse_dollar_default-Fits e n v u (omega arith)) (omega arith))
            λ _.
              Ensures-if (head_byte s == b':' && head_byte t == b'+')
                (λ _. widen (parse_dollar_alternative-Fits e n v u (omega arith)) (omega arith))
                λ _.
                  Ensures-if (head_byte s == b':')
                    (λ _. widen (parse_dollar_substring-Fits n v t) here)
                    λ _.
                      Ensures-if (head_byte s == b'#')
                        (λ _. widen (parse_dollar_match-Fits n v t) here) λ _. fails

  parse_brace-Fits :
      (e : Expander) (n : ℕ) (r : Option Bytes × Bytes) (s : Bytes)
      → length r.1 ≤ length s
      → length s < k
      → Ensures (Fits n s) (parse_brace word e n r)
  unfolding parse_brace
  parse_brace-Fits e n (none, t) s h l = fails
  parse_brace-Fits e n (some name, t) s h l =
      Ensures-bind (parse_braced-Fits e n (var_value (e name)) t (omega arith)) λ r fits.
        Ensures-bind (length-advance r.1) λ u shorter.
          holds (record { text = fits.text; cursor = let c = fits.cursor in omega arith })

  parse_dollar_expression-Fits :
      (e : Expander) (n : ℕ) (s : Bytes)
      → length s < k
      → Ensures (Fits n s) (parse_dollar_expression word e n s)
  unfolding parse_dollar_expression
  parse_dollar_expression-Fits e n s h =
      let t = tail_bytes s in
      Ensures-if (leb n 0) (λ _. fails)
        λ _.
          Ensures-if (head_byte s == b'{')
            (λ _.
              parse_brace-Fits e n (parse_name true max_var_length t) s
                (omega (arith, length-parse_name true max_var_length t, length-tail_bytes s)) h)
            (λ _.
              parse_simple-Fits e n (parse_name false max_var_length s) s
                (length-parse_name false max_var_length s))

module _ (word : Word) (loop : Bytes → Bytes → Outcome (Bytes × Bytes)) (n k : ℕ)
    (bounded : IsBounded k word)
    (goes_on : (out s : Bytes) → length s < k → Ensures (Fits n s) (loop out s)) where
  copy_char-Fits : (out s : Bytes) → length s ≤ k → Ensures (Fits n s) (copy_char loop n out s)
  unfolding copy_char
  copy_char-Fits out s h =
      Ensures-if (leb n (length out)) (λ _. fails)
        λ _.
          Ensures-bind (length-advance s)
            λ t shorter. widen (goes_on (out ++ head_byte s ∷ []) t (omega arith)) (omega arith)

  expand_dollar-Fits :
      (e : Expander) (out s : Bytes)
      → length s < k
      → Ensures (Fits n s) (expand_dollar word loop e n out s)
  unfolding expand_dollar
  expand_dollar-Fits e out s h =
      Ensures-if (leb n (length out)) (λ _. fails)
        λ _.
          Ensures-bind (parse_dollar_expression-Fits word k bounded e (n - length out) s h)
            λ r fits.
              widen (goes_on (out ++ r.0) r.1 (let c = fits.cursor in omega arith)) fits.cursor

  terminate-Fits : (out s : Bytes) → Ensures (Fits n s) (terminate n out s)
  unfolding terminate
  terminate-Fits out s =
      Ensures-if (leb n (length out)) (λ _. fails)
        λ e. holds (record { text = omega tests; cursor = omega arith })

  expression_step-Fits :
      (e : Expander) (endat : ℕ) (out s : Bytes)
      → length s ≤ k
      → Ensures (Fits n s) (expression_step word loop e endat n out s)
  unfolding expression_step
  expression_step-Fits e endat out [] h = terminate-Fits out []
  expression_step-Fits e endat out (c ∷ s) h =
      Ensures-if (c == endat) (λ _. terminate-Fits out (c ∷ s))
        λ _.
          Ensures-if (c == b'$') (λ _. widen (expand_dollar-Fits e out s h) (omega arith))
            λ _.
              Ensures-if (c == b'\\')
                (λ _. widen (copy_char-Fits out s (omega arith)) (omega arith))
                λ _. copy_char-Fits out (c ∷ s) h

parse_expression-Fits :
    (f : ℕ) (e : Expander) (endat n : ℕ) (out s : Bytes)
    → length s < f
    → Ensures (Fits n s) (parse_expression f e endat n out s)
unfolding parse_expression
parse_expression-Fits zero e endat n out s h = absurd (omega arith)
parse_expression-Fits (suc f) e endat n out s h =
    expression_step-Fits (λ e' n' t. parse_expression f e' b'}' n' [] t)
      (parse_expression f e endat n) n f (λ e' n' t le. parse_expression-Fits f e' b'}' n' [] t le)
      (λ o t le. parse_expression-Fits f e endat n o t le) e endat out s (omega arith)

pub expr_parse-Ensures :
    (str : Bytes) (n : ℕ) (e : Expander) → Ensures (λ text. length text < n) (expr_parse str n e)
unfolding expr_parse
expr_parse-Ensures str n e =
    Ensures-bind (parse_expression-Fits (length str + 1) e 0 n [] str (omega arith))
      λ r fits. holds fits.text

-- The fuel given to `expr_parse` is enough for every string, and a result that it returns fits in
-- the buffer with its terminating NUL.
pub expr_parse_bounds :
    (str : Bytes) (buflen : ℕ) (expander : Expander)
    → (expr_parse str buflen expander ≢ out_of_fuel)
      × ((text : Bytes) → expr_parse str buflen expander ≡ ok text → length text < buflen)
expr_parse_bounds str n e =
    let h = expr_parse-Ensures str n e in (Ensures-out_of_fuel h, λ text r. Ensures-ok h r)
