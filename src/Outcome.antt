-- ===== src/Outcome.antt =====
-- What a C function that walks a string can do.
use nss_pam_ldapd.Prelude.{
  ℕ, List, [], ◌∷◌, ◌≡◌, ◌≢◌, refl, subst, Bool, true, false, if◌then◌else◌,
}

-- `fail` is the error return (NULL, or -1).  `overrun` is a read behind the terminating NUL of a
-- string, or a step of the cursor past it: undefined behaviour in C.  `out_of_fuel` has no
-- counterpart in the program.
pub data Outcome {ℓ} (A : Type ℓ) : Type ℓ where
  ok : A → Outcome A
  fail : Outcome A
  overrun : Outcome A
  out_of_fuel : Outcome A

infixl 5 ◌>>=◌
abbrev pub ◌>>=◌ {ℓ κ} : {A : Type ℓ} {B : Type κ} → Outcome A → (A → Outcome B) → Outcome B
ok a >>= f = f a
fail >>= f = fail
overrun >>= f = overrun
out_of_fuel >>= f = out_of_fuel

-- (*ptr)++ on a cursor that must not pass the NUL
unfoldable pub advance : List ℕ → Outcome (List ℕ)
advance [] = overrun
advance (c ∷ s) = ok s

-- The call stayed within its fuel, and `P` holds of its value if it returned one.
pub data Ensures {ℓ κ} {A : Type ℓ} (P : A → Type κ) : Outcome A → Type (ℓ ⊔ κ) where
  holds : {a : A} → P a → Ensures P (ok a)
  fails : Ensures P fail
  overruns : Ensures P overrun

module _ {ℓ κ} {A : Type ℓ} {P : A → Type κ} where
  pub Ensures-ok : {r : Outcome A} {a : A} → Ensures P r → r ≡ ok a → P a
  Ensures-ok (holds h) e = subst P (cc) h
  Ensures-ok fails e = cc
  Ensures-ok overruns e = cc

  pub Ensures-out_of_fuel : {r : Outcome A} → Ensures P r → r ≢ out_of_fuel
  Ensures-out_of_fuel (holds h) = cc
  Ensures-out_of_fuel fails = cc
  Ensures-out_of_fuel overruns = cc

  pub Ensures-bind {ℓ' κ'} :
      {B : Type ℓ'} {Q : B → Type κ'} {r : Outcome A} {f : A → Outcome B}
      → Ensures P r
      → ((a : A) → P a → Ensures Q (f a))
      → Ensures Q (r >>= f)
  Ensures-bind (holds {a} h) k = k a h
  Ensures-bind fails k = fails
  Ensures-bind overruns k = overruns

  pub Ensures-weaken {κ'} :
      {Q : A → Type κ'} {r : Outcome A} → Ensures P r → ((a : A) → P a → Q a) → Ensures Q r
  Ensures-weaken (holds {a} h) k = holds (k a h)
  Ensures-weaken fails k = fails
  Ensures-weaken overruns k = overruns

  pub Ensures-if :
      (b : Bool) {x y : Outcome A}
      → (b ≡ true → Ensures P x)
      → (b ≡ false → Ensures P y)
      → Ensures P (if b then x else y)
  Ensures-if true hx hy = hx refl
  Ensures-if false hx hy = hy refl
