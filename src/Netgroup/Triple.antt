-- ===== src/Netgroup/Triple.antt =====
-- nslcd/netgroup.c: write_netgroup_triple() on triples in brackets.
use nss_pam_ldapd.Prelude.{
  ℕ, zero, suc, ◌-◌, ◌≤◌, ◌<◌, ◌≡◌, refl, sym, ap, subst, ◌∙◌, true, false, ◌&&◌, [], ◌∷◌, ◌++◌,
  ltb, leb, ◌==◌, if◌then◌else◌, length, get_or, take, All, arith, Bool-cases, inl, inr,
  length-append, ==_iff,
}
use nss_pam_ldapd.Bytes.{Bytes, head_byte, is_empty}
use nss_pam_ldapd.Bytes.Number.{is_space, skip_space}
use nss_pam_ldapd.Protocol.{int32, string}
use nss_pam_ldapd.Nss.{netgroup_type_triple}
use nss_pam_ldapd.Netgroup.{
  count_space, trim, write_string_stripspace_len, find_byte, write_netgroup_triple, finish_triple,
  triple_host, triple_domain, triple_user,
}

-- A text without the spaces at its end, and without those at both ends.
abbrev pub strip_end : Bytes → Bytes
strip_end [] = []
strip_end (c ∷ s) = let t = strip_end s in if is_empty t && is_space c then [] else c ∷ t

abbrev pub strip : Bytes → Bytes
strip s = strip_end (skip_space s)

-- A text that is empty or does not begin with a space.
abbrev Solid : Bytes → Type 0
Solid s = is_space (head_byte s) ≡ false

trim_le : (str : Bytes) (i j : ℕ) → trim str i j ≤ j
unfolding trim
trim_le str i zero = omega arith
trim_le str i (suc j) = ground (arith, trim_le str i j)

-- A byte in front of both places moves the end.
trim_shift : (c : ℕ) (str : Bytes) (i j : ℕ) → trim (c ∷ str) (suc i) (suc j) ≡ suc (trim str i j)
unfolding trim
trim_shift c str i zero = let h : ltb (suc i) 1 ≡ false = ground arith in rw h refl
trim_shift c str i (suc j) =
    let h : ltb (suc i) (suc (suc j)) ≡ ltb i (suc j) = ground arith in
    elim (Bool-cases (ltb i (suc j) && is_space (get_or str j 0))) [
      | inl b ↦ rw (h, b) (trim_shift c str i j)
      | inr b ↦ rw (h, b) refl
    ]

trim_zero : (str : Bytes) (i : ℕ) → trim str i 0 ≡ 0
unfolding trim
trim_zero str i = refl

trim_space :
    (str : Bytes) (i j : ℕ)
    → ltb i (suc j) ≡ true
    → is_space (get_or str j 0) ≡ true
    → trim str i (suc j) ≡ trim str i j
unfolding trim
trim_space str i j h space = rw (h, space) refl

trim_other :
    (str : Bytes) (i j : ℕ) → is_space (get_or str j 0) ≡ false → trim str i (suc j) ≡ suc j
unfolding trim
trim_other str i j other = elim (Bool-cases (ltb i (suc j))) [
  | inl h ↦ rw (h, other) refl
  | inr h ↦ rw h refl
]

-- A byte in front stays, unless it is a space and nothing behind it stays.
trim_front :
    (c : ℕ) (str : Bytes) (j : ℕ)
    → trim (c ∷ str) 0 (suc j)
      ≡ (if (trim str 0 j == 0) && is_space c then 0 else suc (trim str 0 j))
trim_front c str zero =
    let positive : ltb 0 1 ≡ true = ground arith in
    elim (Bool-cases (is_space c)) [
      | inl space ↦
          rw
            (trim_space (c ∷ str) 0 0 positive space, trim_zero (c ∷ str) 0, trim_zero str 0, space)
            refl
      | inr other ↦ rw (trim_other (c ∷ str) 0 0 other, trim_zero str 0, other) refl
    ]
trim_front c str (suc j) =
    let p : ltb 0 (suc (suc j)) ≡ true = ground arith in
    let q : ltb 0 (suc j) ≡ true = ground arith in
    elim (Bool-cases (is_space (get_or str j 0))) [
      | inl space ↦
          rw (trim_space (c ∷ str) 0 (suc j) p space, trim_space str 0 j q space)
            (trim_front c str j)
      | inr other ↦
          let positive : (suc j == 0) ≡ false = ground arith in
          rw (trim_other (c ∷ str) 0 (suc j) other, trim_other str 0 j other, positive) refl
    ]

is_empty-take : (n : ℕ) (s : Bytes) → (n == 0) ≡ false → 0 < length s → is_empty (take n s) ≡ false
is_empty-take n [] h k = absurd (omega arith)
is_empty-take zero (c ∷ s) h k = absurd (ground arith)
is_empty-take (suc n) (c ∷ s) h k = refl

strip_end_lem : (s rest : Bytes) → take (trim (s ++ rest) 0 (length s)) (s ++ rest) ≡ strip_end s
strip_end_lem [] rest = rw (trim_zero rest 0) refl
strip_end_lem (c ∷ s) rest =
    let str = s ++ rest in
    let t = trim str 0 (length s) in
    let behind = strip_end_lem s rest in
    elim (Bool-cases (t == 0)) [
      | inl z ↦
          let nothing : strip_end s ≡ [] = sym behind ∙ ap (λ n. take n str) ((==_iff t 0).0 z) in
          elim (Bool-cases (is_space c)) [
            | inl space ↦ rw (trim_front c str (length s), z, space, nothing) refl
            | inr other ↦
                rw (trim_front c str (length s), z, other, nothing)
                  (ap (λ l. c ∷ l) (behind ∙ nothing))
          ]
      | inr n ↦
          let long : 0 < length str =
            ground (arith, trim_le str 0 (length s), length-append s rest) in
          let some_left : is_empty (strip_end s) ≡ false =
            subst (λ l. is_empty l ≡ false) behind (is_empty-take t str n long) in
          rw (trim_front c str (length s), n, some_left) (ap (λ l. c ∷ l) behind)
    ]

count_space-Solid : (s : Bytes) → is_space (head_byte s) ≡ false → count_space s ≡ 0
unfolding count_space
count_space-Solid [] h = refl
count_space-Solid (c ∷ s) h = rw h refl

count_space-space :
    (c : ℕ) (s : Bytes) → is_space c ≡ true → count_space (c ∷ s) ≡ suc (count_space s)
unfolding count_space
count_space-space c s h = rw h refl

write_solid :
    (s rest : Bytes)
    → count_space (s ++ rest) ≡ 0
    → write_string_stripspace_len (s ++ rest) (length s) ≡ string (strip_end s)
unfolding write_string_stripspace_len
write_solid s rest h =
    let t = trim (s ++ rest) 0 (length s) in
    let least : leb 0 t ≡ true = ground arith in
    let all : t - 0 ≡ t = omega arith in rw (h, least, all) (ap string (strip_end_lem s rest))

-- A part of a text is written without the spaces around it, where no space follows it.
pub write_string_stripspace_len_lem :
    (s rest : Bytes)
    → is_space (head_byte rest) ≡ false
    → write_string_stripspace_len (s ++ rest) (length s) ≡ string (strip s)
unfolding write_string_stripspace_len skip_space
write_string_stripspace_len_lem [] rest h = write_solid [] rest (count_space-Solid rest h)
write_string_stripspace_len_lem (c ∷ s) rest h = elim (Bool-cases (is_space c)) [
  | inl space ↦
      let i = count_space (s ++ rest) in
      let j = trim (s ++ rest) i (length s) in
      let later : leb (suc i) (suc j) ≡ leb i j = ground arith in
      let size : suc j - suc i ≡ j - i = omega arith in
      let gap : suc i - suc j ≡ i - j = omega arith in
      let counted : count_space (c ∷ s ++ rest) ≡ suc i = count_space-space c (s ++ rest) space in
      rw (counted, trim_shift c (s ++ rest) i (length s), later, size, gap, space)
        (write_string_stripspace_len_lem s rest h)
  | inr other ↦ rw other (write_solid (c ∷ s) rest (count_space-Solid (c ∷ s ++ rest) other))
]

-- No byte of the text is this one.
abbrev pub Without : ℕ → Bytes → Type 0
Without b s = All (λ c. (c == b) ≡ false) s

find_byte_lem : (b : ℕ) (s rest : Bytes) → Without b s → find_byte b (s ++ b ∷ rest) ≡ (s, b ∷ rest)
unfolding find_byte
find_byte_lem b [] rest h = let e : (b == b) ≡ true = (==_iff b b).1 refl in rw e refl
find_byte_lem b (c ∷ s) rest (h, hs) = rw (h, find_byte_lem b s rest hs) refl

abbrev pub Spaces : Bytes → Type 0
Spaces s = All (λ c. is_space c ≡ true) s

skip_space-Spaces :
    (s rest : Bytes) → Spaces s → is_space (head_byte rest) ≡ false → skip_space (s ++ rest) ≡ rest
unfolding skip_space
skip_space-Spaces [] [] h k = refl
skip_space-Spaces [] (c ∷ rest) h k = rw k refl
skip_space-Spaces (c ∷ s) rest (h, hs) k = rw h (skip_space-Spaces s rest hs k)

skip_space-all : (s : Bytes) → Spaces s → skip_space s ≡ []
unfolding skip_space
skip_space-all [] h = refl
skip_space-all (c ∷ s) (h, hs) = rw h (skip_space-all s hs)

delimiters_lem : (is_space b'(' ≡ false) × (is_space b',' ≡ false) × (is_space b')' ≡ false)
unfolding is_space
delimiters_lem = (refl, refl, refl)

-- A triple in brackets, with spaces around it, is written as its three parts without the spaces around
-- them.  The host and the user have no comma, and the domain has no closing bracket.
pub write_netgroup_triple_lem :
    (before host user domain after : Bytes)
    → Spaces before
    → Without b',' host
    → Without b',' user
    → Without b')' domain
    → Spaces after
    → write_netgroup_triple
        (before ++ (b'(' ∷ (host ++ (b',' ∷ (user ++ (b',' ∷ (domain ++ (b')' ∷ after))))))))
      ≡ int32 netgroup_type_triple
        ∷ string (strip host)
        ∷ string (strip user)
        ∷ string (strip domain)
        ∷ []
unfolding write_netgroup_triple
write_netgroup_triple_lem before host user domain after h1 h2 h3 h4 h5 =
    let (bracket, comma, closing) = delimiters_lem in
    let domain_on = domain ++ (b')' ∷ after) in
    let user_on = user ++ (b',' ∷ domain_on) in
    let host_on = host ++ (b',' ∷ user_on) in
    ap triple_host (skip_space-Spaces before (b'(' ∷ host_on) h1 bracket)
    ∙ (ap (triple_user host_on) (find_byte_lem b',' host user_on h2)
        ∙ (ap (triple_domain host_on (length host) user_on) (find_byte_lem b',' user domain_on h3)
            ∙ (ap
                  (λ found.
                    finish_triple host_on user_on domain_on found (length host) (length user))
                  (find_byte_lem b')' domain after h4)
                ∙ rw
                    (
                      skip_space-all after h5,
                      write_string_stripspace_len_lem host (b',' ∷ user_on) comma,
                      write_string_stripspace_len_lem user (b',' ∷ domain_on) comma,
                      write_string_stripspace_len_lem domain (b')' ∷ after) closing,
                    )
                    refl)))
