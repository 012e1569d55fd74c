-- ===== src/Ldap/Escape.antt =====
-- nslcd/myldap.c: myldap_escape(), against a reader of search filters.
use nss_pam_ldapd.Prelude.{
  ◌||◌, ℕ, ◌+◌, ◌-◌, ◌*◌, ◌<◌, ◌≤◌, ◌≡◌, refl, ap, ==_iff, sym, Bool-cases, inl, inr, if-some, ◌∙◌,
  not_leb→lt, Bool, false, [], ◌∷◌, ◌++◌, Option, none, some, leb, ◌==◌, if◌then◌else◌, length,
  arith, length-append,
}
use nss_pam_ldapd.Bytes.{Bytes}
use nss_pam_ldapd.Ldap.{prepend, escape_byte, escape_from, myldap_escape}

-- A byte that a filter does not read as itself, other than the backslash.
abbrev pub is_special : ℕ → Bool
is_special c = c == b'*' || c == b'(' || c == b')'

abbrev pub hex_value : ℕ → ℕ
hex_value c = if leb b'a' c then c - 87 else c - 48

-- How a filter's value is read: a backslash and two hexadecimal digits stand for a byte, a special
-- byte cannot stand in it.
pub data Reading : Type 0 where
  plain : Reading
  first : Reading
  second : ℕ → Reading

abbrev push : ℕ → Option Bytes → Option Bytes
push c none = none
push c (some s) = some (c ∷ s)

unfoldable pub unescape_in : Reading → Bytes → Option Bytes
unescape_in plain [] = some []
unescape_in first [] = none
unescape_in (second h) [] = none
unescape_in plain (c ∷ s) =
    if c == b'\\'
    then unescape_in first s
    else if is_special c
    then none
    else push c (unescape_in plain s)
unescape_in first (c ∷ s) = unescape_in (second (hex_value c)) s
unescape_in (second h) (c ∷ s) = push (h * 16 + hex_value c) (unescape_in plain s)

unfoldable pub unescape : Bytes → Option Bytes
unfolding unescape_in
unescape s = unescape_in plain s

unfoldable pub any_special : Bytes → Bool
any_special [] = false
any_special (c ∷ s) = is_special c || any_special s

-- The three properties of one escaped byte, before any text.
abbrev Escaped : ℕ → Bytes → Type 0
Escaped c e =
    (length e ≤ 3)
    × ((t : Bytes) → unescape (e ++ t) ≡ push c (unescape t))
    × ((t : Bytes) → any_special (e ++ t) ≡ any_special t)

escape_byte-Escaped : (c : ℕ) → Escaped c (escape_byte c)
unfolding escape_byte unescape unescape_in any_special
escape_byte-Escaped c = elim (Bool-cases (c == b'*')) [
  | inl h1 ↦
      rw h1
        (omega arith, λ t. ap (λ d. push d (unescape t)) (sym ((==_iff c b'*').0 h1)), λ t. refl)
  | inr n1 ↦ elim (Bool-cases (c == b'(')) [
    | inl h2 ↦
        rw (n1, h2)
          (omega arith, λ t. ap (λ d. push d (unescape t)) (sym ((==_iff c b'(').0 h2)), λ t. refl)
    | inr n2 ↦ elim (Bool-cases (c == b')')) [
      | inl h3 ↦
          rw (n1, n2, h3)
            (
              omega arith,
              λ t. ap (λ d. push d (unescape t)) (sym ((==_iff c b')').0 h3)),
              λ t. refl,
            )
      | inr n3 ↦ elim (Bool-cases (c == b'\\')) [
        | inl h4 ↦
            rw (n1, n2, n3, h4)
              (
                omega arith,
                λ t. ap (λ d. push d (unescape t)) (sym ((==_iff c b'\\').0 h4)),
                λ t. refl,
              )
        | inr n4 ↦
            rw (n1, n2, n3, n4)
              (omega arith, λ t. rw (n1, n2, n3, n4) refl, λ t. rw (n1, n2, n3) refl)
      ]
    ]
  ]
]

prepend-some :
    (s : Bytes) (o : Option Bytes) (t : Bytes)
    → prepend s o ≡ some t
    → (r : Bytes) × (o ≡ some r) × (s ++ r ≡ t)
prepend-some s none t e = cc
prepend-some s (some r) t e = (r, refl, cc)

escape_from_lem :
    (pos : ℕ) (src : Bytes) (buflen : ℕ) (t : Bytes)
    → pos < buflen
    → escape_from pos src buflen ≡ some t
    → (pos + length t < buflen) × (unescape t ≡ some src) × (any_special t ≡ false)
unfolding escape_from unescape unescape_in any_special
escape_from_lem pos [] buflen t h e = let z : t ≡ [] = cc in rw z (omega arith, refl, refl)
escape_from_lem pos (c ∷ src) buflen t h e =
    let (room, e') = if-some (leb buflen (pos + 4)) _ t e in
    let (r, er, et) = prepend-some (escape_byte c) _ t e' in
    let (short, read, safe) = escape_byte-Escaped c in
    let pos' = pos + length (escape_byte c) in
    let (fits, read', safe') =
      escape_from_lem pos' src buflen r (omega (arith, not_leb→lt buflen (pos + 4) room)) er in
    let size = length-append (escape_byte c) r in
    rw (sym et) (omega (arith, size), read r ∙ ap (push c) read', safe r ∙ safe')

-- A value that myldap_escape() makes fits in the buffer with its NUL, has no byte that a filter
-- reads as more than itself but the backslash, and is read back as the value that was escaped.
pub myldap_escape_lem :
    (src : Bytes) (buflen : ℕ) (t : Bytes)
    → 0 < buflen
    → myldap_escape src buflen ≡ some t
    → (length t < buflen) × (unescape t ≡ some src) × (any_special t ≡ false)
unfolding myldap_escape
myldap_escape_lem src buflen t h e =
    let (fits, read, safe) = escape_from_lem 0 src buflen t h e in (omega arith, read, safe)
