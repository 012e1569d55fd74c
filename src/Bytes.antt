-- ===== src/Bytes.antt =====
-- C strings as lists of bytes, without the terminating NUL, and what the code uses of <string.h>,
-- <ctype.h> in the C locale.
pub mod Number
use Prim.Native.Char.{code}
use Prim.Native.String.{String}
use nss_pam_ldapd.Prelude.{
  ℕ, ◌≡◌, refl, ◌↔◌, Bool, true, false, ◌&&◌, List, [], ◌∷◌, arith, ◌==◌, ◌||◌,
}

abbrev pub Bytes : Type 0
Bytes = List ℕ

-- The bytes of an ASCII text, for literals of the source and test data.
abbrev pub bytes : String → Bytes
bytes String.[] = []
bytes (String.◌∷◌ c s) = code c ∷ bytes s

-- *s: the first byte, or the NUL.
abbrev pub head_byte : Bytes → ℕ
head_byte [] = 0
head_byte (c ∷ s) = c

abbrev pub tail_bytes : Bytes → Bytes
tail_bytes [] = []
tail_bytes (c ∷ s) = s

abbrev pub is_empty : Bytes → Bool
is_empty [] = true
is_empty (c ∷ s) = false

-- strcmp(a, b) == 0
infix 50 ◌=ₛ◌
unfoldable pub ◌=ₛ◌ : Bytes → Bytes → Bool
[] =ₛ [] = true
[] =ₛ (d ∷ t) = false
(c ∷ s) =ₛ [] = false
(c ∷ s) =ₛ (d ∷ t) = c == d && s =ₛ t

pub =ₛ_iff : (a b : Bytes) → ((a =ₛ b) ≡ true) ↔ (a ≡ b)
unfolding ◌=ₛ◌
=ₛ_iff [] [] = (λ _. refl, λ _. refl)
=ₛ_iff [] (d ∷ t) = (λ h. cc, λ h. cc)
=ₛ_iff (c ∷ s) [] = (λ h. cc, λ h. cc)
=ₛ_iff (c ∷ s) (d ∷ t) = (λ h. ground (arith, =ₛ_iff s t), λ h. ground (arith, =ₛ_iff s t))

pub =ₛ_refl : (a : Bytes) → (a =ₛ a) ≡ true
=ₛ_refl a = (=ₛ_iff a a).1 refl

-- The string is in the list.
unfoldable pub contains : List Bytes → Bytes → Bool
contains [] a = false
contains (b ∷ l) a = b =ₛ a || contains l a
