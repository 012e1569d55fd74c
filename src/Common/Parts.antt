-- ===== src/Common/Parts.antt =====
-- nslcd/common.c: sid2search() on a security identifier of numbers.
use nss_pam_ldapd.Prelude.{drop, ℕ, zero, suc, ◌+◌, ◌%◌, ◌<◌, List, [], ◌∷◌, ◌++◌, arith, length}
use nss_pam_ldapd.Bytes.{Bytes, bytes}
use nss_pam_ldapd.Bytes.Number.{strtoul}
use nss_pam_ldapd.Bytes.Number.Digits.{decimal, Digits, capped}
use nss_pam_ldapd.Outcome.{advance, Ensures, holds, fails, overruns, Ensures-bind, Ensures-if}
use nss_pam_ldapd.Bytes.Number.Length.{length-strtoul}
use nss_pam_ldapd.Common.{has_prefix_ignoring_case}
use nss_pam_ldapd.Common.Search.{escaped, little_endian, big_endian, sid_parts, sid2search}

-- A number in decimal digits.
abbrev pub Number : Bytes → Type 0
Number s = Digits s × (0 < length s)

-- The parts of an identifier, each behind its dash, and what they are written as.
unfoldable pub dashed : List Bytes → Bytes
dashed [] = []
dashed (p ∷ parts) = b'-' ∷ (p ++ dashed parts)

unfoldable pub parts_text : List Bytes → Bytes
parts_text [] = []
parts_text (p ∷ parts) = little_endian (capped (decimal 0 p)) ++ parts_text parts

abbrev pub sid_text : Bytes → Bytes → List Bytes → Bytes
sid_text revision authority parts = bytes "S-" ++ (revision ++ (b'-' ∷ (authority ++ dashed parts)))

-- The revision, the number of parts with the one that is added later, the authority, and the parts.
abbrev pub search_text : Bytes → Bytes → List Bytes → Bytes
search_text revision authority parts =
    (escaped (capped (decimal 0 revision) % 256) ++ escaped (suc (length parts)))
    ++ ((escaped 0 ++ escaped 0) ++ big_endian (capped (decimal 0 authority)))
    ++ parts_text parts

sid_parts-Ends :
    (fuel : ℕ) (tmp : Bytes) → length tmp < fuel → Ensures (λ text. Unit {0}) (sid_parts fuel tmp)
unfolding sid_parts
sid_parts-Ends zero tmp h = absurd (omega arith)
sid_parts-Ends (suc fuel) [] h = holds tt
sid_parts-Ends (suc fuel) (c ∷ tmp) h =
    Ensures-bind (sid_parts-Ends fuel (strtoul tmp).rest (omega (arith, length-strtoul tmp)))
      (λ rest k. holds tt)

-- sid2search() ends for every text.
pub sid2search-Ends : (sid : Bytes) → Ensures (λ text. Unit {0}) (sid2search sid)
unfolding sid2search advance
sid2search-Ends sid =
    Ensures-if (has_prefix_ignoring_case (bytes "S-") sid)
      (λ p. Ensures-bind (behind (strtoul (drop 2 sid)).rest) λ tmp t.
        Ensures-bind
          (sid_parts-Ends (length (strtoul tmp).rest + 1) (strtoul tmp).rest (omega arith))
          λ rest r. holds tt)
      (λ p. fails)
  where
    behind : (s : Bytes) → Ensures (λ text. Unit {0}) (advance s)
    behind [] = overruns
    behind (c ∷ s) = holds tt
