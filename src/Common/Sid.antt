-- ===== src/Common/Sid.antt =====
-- nslcd/common.c: binsid2id() on binary security identifiers.
use nss_pam_ldapd.Prelude.{
  ℕ, zero, suc, ◌+◌, ◌*◌, ◌/◌, ◌%◌, ◌^◌, ◌<◌, ◌≡◌, refl, sym, ap, ◌∙◌, List, [], ◌∷◌, ◌++◌, arith,
  length, length-append, append_assoc,
}
use nss_pam_ldapd.Bytes.{Bytes}
use nss_pam_ldapd.Outcome.{ok}
use nss_pam_ldapd.Common.{byte_at, le32_at, last_id_position, binsid2id}

-- The four bytes of a 32-bit number, the lowest first.
abbrev pub le32 : ℕ → Bytes
le32 n = n % 256 ∷ n / 256 % 256 ∷ n / 65536 % 256 ∷ n / 16777216 % 256 ∷ []

abbrev pub parts : List ℕ → Bytes
parts [] = []
parts (n ∷ ns) = le32 n ++ parts ns

-- A binary security identifier: its revision, the number of its parts, the six bytes of its
-- authority, and the parts.
abbrev pub encode : ℕ → Bytes → List ℕ → Bytes
encode revision authority ns = revision ∷ length ns ∷ authority ++ parts ns

length-parts : (ns : List ℕ) → length (parts ns) ≡ 4 * length ns
length-parts [] = refl
length-parts (n ∷ ns) = omega (arith, length-parts ns)

parts-append : (ns ms : List ℕ) → parts (ns ++ ms) ≡ parts ns ++ parts ms
parts-append [] ms = refl
parts-append (n ∷ ns) ms = ap (λ s. le32 n ++ s) (parts-append ns ms)

byte_at-append : (s t : Bytes) (j i : ℕ) → j ≡ length s + i → byte_at (s ++ t) j ≡ byte_at t i
unfolding byte_at
byte_at-append [] t j i e = ap (byte_at t) (omega arith)
byte_at-append (c ∷ s) t zero i e = absurd (omega arith)
byte_at-append (c ∷ s) t (suc j) i e = byte_at-append s t j i (omega arith)

le32_at-append : (s t : Bytes) (j i : ℕ) → j ≡ length s + i → le32_at (s ++ t) j ≡ le32_at t i
unfolding le32_at
le32_at-append s t j i e =
    rw
      (
        byte_at-append s t j i e,
        byte_at-append s t (j + 1) (i + 1) (omega arith),
        byte_at-append s t (j + 2) (i + 2) (omega arith),
        byte_at-append s t (j + 3) (i + 3) (omega arith),
      )
      refl

le32_at-le32 : (n : ℕ) → n < 2 ^ 32 → le32_at (le32 n) 0 ≡ ok n
unfolding le32_at byte_at
le32_at-le32 n h = ap ok (omega arith)

-- The last part of an encoded security identifier is what binsid2id() returns, for at most 255
-- parts, the last of 32 bits.
pub binsid2id_lem :
    (revision : ℕ) (authority : Bytes) (ns : List ℕ) (last : ℕ)
    → length authority ≡ 6
    → length ns < 255
    → last < 2 ^ 32
    → binsid2id (encode revision authority (ns ++ last ∷ [])) ≡ ok last
unfolding binsid2id last_id_position byte_at
binsid2id_lem revision authority ns last a l h =
    let count = length (ns ++ last ∷ []) in
    let before = revision ∷ count ∷ authority ++ parts ns in
    let e : authority ++ parts (ns ++ last ∷ []) ≡ (authority ++ parts ns) ++ le32 last =
      ap (λ s. authority ++ s) (parts-append ns (last ∷ []))
      ∙ sym (append_assoc authority (parts ns) (le32 last)) in
    let size = length-append authority (parts ns) in
    let many = length-append ns (last ∷ []) in
    let place : last_id_position (count % 256) ≡ length before + 0 =
      omega (arith, length-parts ns) in
    ap (λ s. le32_at (revision ∷ count ∷ s) (last_id_position (count % 256))) e
    ∙ (le32_at-append before (le32 last) (last_id_position (count % 256)) 0 place
        ∙ le32_at-le32 last h)
