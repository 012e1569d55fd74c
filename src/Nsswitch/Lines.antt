-- ===== src/Nsswitch/Lines.antt =====
-- nslcd/nsswitch.c: the answer for a file of lines as nsswitch.conf(5) describes them.
use nss_pam_ldapd.Prelude.{
  leb, length, ◌<◌, ◌≡◌, refl, ap, ◌∙◌, Bool, true, false, not, ◌&&◌, ◌||◌, List, [], ◌∷◌, ◌++◌,
  none, some, arith, if◌then◌else◌, All, Bool-cases, inl, inr,
}
use nss_pam_ldapd.Bytes.{Bytes, bytes, ◌=ₛ◌, contains}
use nss_pam_ldapd.Bytes.Number.{is_space, skip_space, is_digit}
use nss_pam_ldapd.Outcome.{ok}
use nss_pam_ldapd.Nsswitch.{
  fgets, pieces, is_alnum, has_prefix, find_db, has_service, module_name, passwd_line, is_found,
  read_lines, shadow_uses_ldap,
}
use nss_pam_ldapd.Nsswitch.Services.{IsWord, service_list, has_service_lem, skip_space-service_list}

-- A database and its services.
pub record Line : Type 0 where
  pub database : Bytes
  pub services : List Bytes

abbrev pub text : Line → Bytes
text l = l.database ++ b':' ∷ 32 ∷ service_list l.services

abbrev pub texts : List Line → List Bytes
texts [] = []
texts (l ∷ ls) = text l ∷ texts ls

pub record IsLine (l : Line) : Type 0 where
  pub is_name : All (λ c. is_alnum c ≡ true) l.database
  pub are_words : All IsWord l.services
  pub fits : length (text l) < 4096

-- Whether a line for the database has the service `ldap`, and whether there is such a line.
unfoldable pub any_ldap : Bytes → List Line → Bool
any_ldap db [] = false
any_ldap db (l ∷ ls) = (l.database =ₛ db && contains l.services (bytes "ldap")) || any_ldap db ls

unfoldable pub has_line : Bytes → List Line → Bool
has_line db [] = false
has_line db (l ∷ ls) = l.database =ₛ db || has_line db ls

-- Whether the last line for the database has the service `ldap`, and `before` without one.
unfoldable pub last_ldap : Bytes → Bool → List Line → Bool
last_ldap db before [] = before
last_ldap db before (l ∷ ls) =
    last_ldap db (if l.database =ₛ db then contains l.services (bytes "ldap") else before) ls

module _ (services : List Bytes) (words : All IsWord services) where
  -- the rest of a line behind the name
  abbrev rest : Bytes
  rest = b':' ∷ 32 ∷ service_list services

  find_db-name :
      (db name : Bytes)
      → All (λ c. is_alnum c ≡ true) db
      → All (λ c. is_alnum c ≡ true) name
      → find_db (name ++ rest) db ≡ (if name =ₛ db then some (service_list services) else none)
  unfolding find_db has_prefix ◌=ₛ◌ is_alnum is_digit is_space skip_space
  find_db-name [] [] h k = ap some (skip_space-service_list services words)
  find_db-name [] (c ∷ name) h k = let e = k.0 in ground arith
  find_db-name (d ∷ db) [] h k = let e = h.0 in ground arith
  find_db-name (d ∷ db) (c ∷ name) h k = ground (arith, find_db-name db name h.1 k.1)

db_word :
    All (λ c. is_alnum c ≡ true) (bytes "shadow") × All (λ c. is_alnum c ≡ true) (bytes "passwd")
unfolding is_alnum is_digit
db_word = (
  (refl, (refl, (refl, (refl, (refl, (refl, tt)))))),
  (refl, (refl, (refl, (refl, (refl, (refl, tt)))))),
)

ldap_word : All (λ c. is_alnum c ≡ true) (bytes "ldap")
unfolding is_alnum is_digit
ldap_word = (refl, (refl, (refl, (refl, tt))))

-- What the loop of shadow_uses_ldap() makes of one line.
module _ (l : Line) (h : IsLine l) where
  has_ldap :
      has_service (some (service_list l.services)) module_name
      ≡ ok (contains l.services (bytes "ldap"))
  has_ldap = has_service_lem (bytes "ldap") l.services ldap_word h.are_words

  find_db-text :
      (db : Bytes)
      → All (λ c. is_alnum c ≡ true) db
      → find_db (text l) db ≡ (if l.database =ₛ db then some (service_list l.services) else none)
  find_db-text db word = find_db-name l.services h.are_words db l.database word h.is_name

  has_service-text :
      (db : Bytes)
      → All (λ c. is_alnum c ≡ true) db
      → has_service (find_db (text l) db) module_name
        ≡ ok (l.database =ₛ db && contains l.services (bytes "ldap"))
  unfolding has_service
  has_service-text db word = elim (Bool-cases (l.database =ₛ db)) [
    | inl e ↦ rw (find_db-text db word) (rw e has_ldap)
    | inr e ↦ rw (find_db-text db word) (rw e refl)
  ]

  is_found-text :
      (db : Bytes)
      → All (λ c. is_alnum c ≡ true) db
      → is_found (find_db (text l) db) ≡ (l.database =ₛ db)
  is_found-text db word = elim (Bool-cases (l.database =ₛ db)) [
    | inl e ↦ rw (find_db-text db word) (rw e refl)
    | inr e ↦ rw (find_db-text db word) (rw e refl)
  ]

  passwd_line-text :
      (before : Bool)
      → passwd_line before (find_db (text l) (bytes "passwd"))
        ≡ ok (if l.database =ₛ bytes "passwd" then contains l.services (bytes "ldap") else before)
  unfolding passwd_line
  passwd_line-text before = elim (Bool-cases (l.database =ₛ bytes "passwd")) [
    | inl e ↦ rw (find_db-text (bytes "passwd") db_word.1) (rw e has_ldap)
    | inr e ↦ rw (find_db-text (bytes "passwd") db_word.1) (rw e refl)
  ]

or_assoc : (a b c : Bool) → ((a || b) || c) ≡ (a || (b || c))
or_assoc true b c = refl
or_assoc false b c = refl

read_lines-texts :
    (found passwd : Bool) (ls : List Line)
    → All IsLine ls
    → read_lines found passwd (texts ls)
      ≡ ok (
          any_ldap (bytes "shadow") ls
          || (not (found || has_line (bytes "shadow") ls) && last_ldap (bytes "passwd") passwd ls))
unfolding read_lines any_ldap has_line last_ldap
read_lines-texts found passwd [] h = ground arith
read_lines-texts found passwd (l ∷ ls) h =
    let mine = contains l.services (bytes "ldap") in
    let is_shadow = l.database =ₛ bytes "shadow" in
    let now = if l.database =ₛ bytes "passwd" then mine else passwd in
    let s = has_service-text l h.0 (bytes "shadow") db_word.0 in
    let ih = read_lines-texts (found || is_shadow) now ls h.1 in
    elim (Bool-cases (is_shadow && mine)) [
      | inl e ↦ rw (s, e) refl
      | inr e ↦
          rw (s, e, passwd_line-text l h.0 passwd, is_found-text l h.0 (bytes "shadow") db_word.0)
            (ih
              ∙ ap
                  (λ b.
                    ok (
                      any_ldap (bytes "shadow") ls || (not b && last_ldap (bytes "passwd") now ls)))
                  (or_assoc found is_shadow (has_line (bytes "shadow") ls)))
    ]

-- Lines that fit in the buffer are read whole.
fgets-texts : (ls : List Line) → All IsLine ls → fgets (texts ls) ≡ texts ls
unfolding fgets pieces
fgets-texts [] h = refl
fgets-texts (l ∷ ls) h =
    let short : leb (length (text l)) 4095 ≡ true = let f = h.0.fits in ground arith in
    rw short (ap (λ rest. text l ∷ rest) (fgets-texts ls h.1))

-- For a file of lines that each name a database and its services, as words, and that fit in the
-- buffer of 4096 bytes: shadow lookups use LDAP
-- if a line for shadow has the service `ldap`, or if no line is for shadow and the last one for
-- passwd has it; reading such a file ends and never leaves a line.
pub shadow_uses_ldap_lem :
    (ls : List Line)
    → All IsLine ls
    → shadow_uses_ldap (some (texts ls))
      ≡ ok (
          any_ldap (bytes "shadow") ls
          || (not (has_line (bytes "shadow") ls) && last_ldap (bytes "passwd") false ls))
unfolding shadow_uses_ldap
shadow_uses_ldap_lem ls h = rw (fgets-texts ls h) (read_lines-texts false false ls h)
