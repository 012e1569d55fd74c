-- ===== src/Expr.antt =====
-- common/expr.c: expansion of $-expressions in attribute mappings.
-- The cursor `str + *ptr` is the rest of the string.  A result is the text that the call leaves in
-- its buffer and the new cursor.  The names and values are C strings, so that after a value was
-- appended `strlen(buffer)` is the length of all that was written.
pub mod Fits
pub mod Bounds
pub mod Vars
use nss_pam_ldapd.Prelude.{
  ℕ, zero, suc, ◌+◌, ◌-◌, ◌%◌, ◌^◌, Bool, true, false, ◌&&◌, ◌||◌, List, [], ◌∷◌, ◌++◌, Option,
  none, some, ltb, leb, ◌==◌, if◌then◌else◌, length, take, drop,
}
use nss_pam_ldapd.Bytes.{Bytes, head_byte, tail_bytes}
use nss_pam_ldapd.Bytes.Number.{is_digit, strtoul}
use nss_pam_ldapd.Outcome.{advance, Outcome, ok, fail, overrun, out_of_fuel, ◌>>=◌}

-- MAXVARLENGTH, the size of a name's buffer, its NUL included
abbrev pub max_var_length : ℕ
max_var_length = 30

-- NULL is `none`
abbrev pub Expander : Type 0
Expander = Bytes → Option Bytes

unfoldable pub my_isalpha : ℕ → Bool
my_isalpha c = leb b'a' c && leb c b'z' || leb b'A' c && leb c b'Z'

unfoldable pub my_isalphanum : ℕ → Bool
unfolding my_isalpha is_digit
my_isalphanum c = my_isalpha c || is_digit c

-- the test of the loop in parse_name()
unfoldable pub is_name_char : Bool → ℕ → Bool
unfolding my_isalphanum
is_name_char extra_chars c = my_isalphanum c || c == b';' || extra_chars && (c == b'-' || c == b'.')

abbrev pub prepend : ℕ → Option Bytes × Bytes → Option Bytes × Bytes
prepend c (none, s) = (none, s)
prepend c (some name, s) = (some (c ∷ name), s)

-- the loop in parse_name(), with `room` bytes left in the buffer
unfoldable pub name_loop : Bool → ℕ → Bytes → Option Bytes × Bytes
unfolding is_name_char
name_loop extra_chars zero s = (none, s)
name_loop extra_chars (suc room) [] = (some [], [])
name_loop extra_chars (suc room) (c ∷ s) =
    if is_name_char extra_chars c
    then prepend c (name_loop extra_chars room s)
    else (some [], c ∷ s)

-- The cursor moves also where the name does not fit.
unfoldable pub parse_name : Bool → ℕ → Bytes → Option Bytes × Bytes
unfolding name_loop
parse_name extra_chars buflen s =
    if my_isalpha (head_byte s) then name_loop extra_chars buflen s else (none, s)

unfoldable pub empty_expander : Expander
empty_expander name = some []

-- a call of parse_expression() up to the closing brace
abbrev pub Word : Type 0
Word = Expander → ℕ → Bytes → Outcome (Bytes × Bytes)

-- the value, if it fits in a buffer of `buflen` bytes with its NUL
unfoldable pub copy_value : ℕ → Bytes → Bytes → Outcome (Bytes × Bytes)
copy_value buflen value s = if ltb (length value) buflen then ok (value, s) else fail

unfoldable pub parse_dollar_default : Word → Expander → ℕ → Bytes → Bytes → Outcome (Bytes × Bytes)
parse_dollar_default word expander buflen [] s = word expander buflen s
parse_dollar_default word expander buflen (v ∷ value) s = do
  (_, s') ← word empty_expander buflen s
  copy_value buflen (v ∷ value) s'

unfoldable pub parse_dollar_alternative :
    Word → Expander → ℕ → Bytes → Bytes → Outcome (Bytes × Bytes)
parse_dollar_alternative word expander buflen [] s = do
  (_, s') ← word empty_expander buflen s
  ok ([], s')
parse_dollar_alternative word expander buflen (v ∷ value) s = word expander buflen s

-- the offset and the length as the checks against `varlen` leave them; the sum of two unsigned
-- longs wraps
unfoldable pub clip_offset : ℕ → ℕ → ℕ
clip_offset varlen offset = if ltb varlen offset then varlen else offset

unfoldable pub clip_length : ℕ → ℕ → ℕ → ℕ
clip_length varlen offset len =
    if ltb varlen ((offset + len) % 2 ^ 64) then varlen - offset else len

-- the last part of parse_dollar_substring()
unfoldable pub substring : ℕ → Bytes → ℕ → ℕ → Bytes → Outcome (Bytes × Bytes)
substring buflen value offset len s =
    let start = clip_offset (length value) offset in
    let count = clip_length (length value) start len in
    if leb buflen count then fail else ok (take count (drop start value), s)

unfoldable pub parse_dollar_substring : ℕ → Bytes → Bytes → Outcome (Bytes × Bytes)
parse_dollar_substring buflen value s =
    let offset = strtoul s in
    let len = strtoul (tail_bytes offset.rest) in
    if is_digit (head_byte s)
    then if head_byte offset.rest == b':' && (if offset.out_of_range then false else true)
      then if head_byte len.rest == b'}' && (if len.out_of_range then false else true)
        then substring buflen value offset.value len.value len.rest
        else fail
      else fail
    else fail

-- `vp` while `ismatch` is set, `none` once it is not
unfoldable pub match_char : ℕ → Option Bytes → Option Bytes
match_char c none = none
match_char c (some []) = none
match_char c (some (v ∷ vp)) = if v == c then some vp else none

unfoldable pub match_any : Option Bytes → Option Bytes
match_any none = none
match_any (some []) = none
match_any (some (v ∷ vp)) = some vp

-- the test `ismatch && (*vp == '\0')` before an escape
unfoldable pub match_more : Option Bytes → Option Bytes
match_more none = none
match_more (some []) = none
match_more (some (v ∷ vp)) = some (v ∷ vp)

-- the loop of parse_dollar_match(); `escaped` after a backslash
unfoldable pub match_word : Bool → Option Bytes → Bytes → Outcome (Option Bytes × Bytes)
match_word escaped vp [] = fail
match_word true vp (c ∷ s) = match_word false (match_char c vp) s
match_word false vp (c ∷ s) =
    let rest =
      match_word (c == b'\\')
        (if c == b'?' then match_any vp else if c == b'\\' then match_more vp else match_char c vp)
        s in
    if c == b'}' then ok (vp, c ∷ s) else rest

unfoldable pub parse_dollar_match : ℕ → Bytes → Bytes → Outcome (Bytes × Bytes)
parse_dollar_match buflen value s = do
  (vp, s') ← match_word false (some value) s
  copy_value buflen (elim vp [ none ↦ value | some v ↦ v ]) s'

abbrev pub var_value : Option Bytes → Bytes
var_value none = []
var_value (some v) = v

-- the part of a braced expression behind the name
unfoldable pub parse_braced : Word → Expander → ℕ → Bytes → Bytes → Outcome (Bytes × Bytes)
parse_braced word expander buflen value s =
    let next = head_byte (tail_bytes s) in
    if head_byte s == b'}'
    then copy_value buflen value s
    else if head_byte s == b':' && next == b'-'
    then parse_dollar_default word expander buflen value (tail_bytes (tail_bytes s))
    else if head_byte s == b':' && next == b'+'
    then parse_dollar_alternative word expander buflen value (tail_bytes (tail_bytes s))
    else if head_byte s == b':'
    then parse_dollar_substring buflen value (tail_bytes s)
    else if head_byte s == b'#'
    then parse_dollar_match buflen value (tail_bytes s)
    else fail

-- with the cursor behind the `{`
unfoldable pub parse_brace : Word → Expander → ℕ → Option Bytes × Bytes → Outcome (Bytes × Bytes)
parse_brace word expander buflen (none, s) = fail
parse_brace word expander buflen (some name, s) = do
  (v, s') ← parse_braced word expander buflen (var_value (expander name)) s
  s'' ← advance s'
  ok (v, s'')

unfoldable pub parse_simple : Expander → ℕ → Option Bytes × Bytes → Outcome (Bytes × Bytes)
parse_simple expander buflen (none, s) = fail
parse_simple expander buflen (some name, s) = copy_value buflen (var_value (expander name)) s

unfoldable pub parse_dollar_expression : Word → Expander → ℕ → Bytes → Outcome (Bytes × Bytes)
parse_dollar_expression word expander buflen s =
    if leb buflen 0
    then fail
    else if head_byte s == b'{'
    then parse_brace word expander buflen (parse_name true max_var_length (tail_bytes s))
    else parse_simple expander buflen (parse_name false max_var_length s)

-- the end of parse_expression()
unfoldable pub terminate : ℕ → Bytes → Bytes → Outcome (Bytes × Bytes)
terminate buflen out s = if leb buflen (length out) then fail else ok (out, s)

-- the default case of the switch, and the way back to the loop's head
unfoldable pub copy_char :
    (Bytes → Bytes → Outcome (Bytes × Bytes)) → ℕ → Bytes → Bytes → Outcome (Bytes × Bytes)
copy_char loop buflen out s =
    if leb buflen (length out) then fail else do s' ← advance s; loop (out ++ head_byte s ∷ []) s'

-- the case of a `$`, with the cursor behind it
unfoldable pub expand_dollar :
    Word
    → (Bytes → Bytes → Outcome (Bytes × Bytes))
    → Expander
    → ℕ
    → Bytes
    → Bytes
    → Outcome (Bytes × Bytes)
expand_dollar word loop expander buflen out s = if leb buflen (length out) then fail else do
  (v, s') ← parse_dollar_expression word expander (buflen - length out) s
  loop (out ++ v) s'

-- one round of the loop in parse_expression()
unfoldable pub expression_step :
    Word
    → (Bytes → Bytes → Outcome (Bytes × Bytes))
    → Expander
    → ℕ
    → ℕ
    → Bytes
    → Bytes
    → Outcome (Bytes × Bytes)
expression_step word loop expander endat buflen out [] = terminate buflen out []
expression_step word loop expander endat buflen out (c ∷ s) =
    if c == endat
    then terminate buflen out (c ∷ s)
    else if c == b'$'
    then expand_dollar word loop expander buflen out s
    else if c == b'\\'
    then copy_char loop buflen out s
    else copy_char loop buflen out (c ∷ s)

-- The loop with `out` in the buffer.
unfoldable pub parse_expression : ℕ → Expander → ℕ → ℕ → Bytes → Bytes → Outcome (Bytes × Bytes)
parse_expression zero expander endat buflen out s = out_of_fuel
parse_expression (suc fuel) expander endat buflen out s =
    expression_step (λ e n t. parse_expression fuel e b'}' n [] t)
      (parse_expression fuel expander endat buflen) expander endat buflen out s

unfoldable pub expr_parse : Bytes → ℕ → Expander → Outcome Bytes
expr_parse str buflen expander = do
  (text, _) ← parse_expression (length str + 1) expander 0 buflen [] str
  ok text

-- Opens the whole parser, for runs on concrete input.
unfoldable pub program : Unit {0}
unfolding is_digit strtoul parse_name empty_expander advance copy_value parse_dollar_default
    parse_dollar_alternative clip_offset clip_length substring parse_dollar_substring match_char
    match_any match_more match_word parse_dollar_match parse_braced parse_brace parse_simple
    parse_dollar_expression terminate copy_char expand_dollar expression_step parse_expression
    expr_parse
program = tt
