-- ===== src/Ids/Bounds.antt =====
-- nslcd/passwd.c and nslcd/group.c: the size of the numbers of users and groups.
use nss_pam_ldapd.Prelude.{
  ℕ, zero, suc, ◌+◌, ◌%◌, ◌<◌, Bool, true, false, not, ◌||◌, List, [], ◌∷◌, Option, none, some,
  take, ltb, if◌then◌else◌, arith, All, Bool-cases, inl, inr,
}
use nss_pam_ldapd.Bytes.{Bytes, is_empty}
use nss_pam_ldapd.Outcome.{Outcome, ok, Ensures, holds, overruns, Ensures-bind}
use nss_pam_ldapd.Bytes.Number.{strtoul}
use nss_pam_ldapd.Common.{strtoui, uint_max, binsid2id, byte_at, le32_at}
use nss_pam_ldapd.Ids.{then_ids, some_ids_of, prepend_id, id_mod, parse_id, has_dash, id_of, ids_of}

abbrev pub Small : ℕ → Type 0
Small id = id < id_mod

-- Each number that is there has 32 bits.
abbrev pub Smalls : Option ℕ → Type 0
Smalls none = Unit
Smalls (some id) = Small id

abbrev pub AllSmall : Option (List ℕ) → Type 0
AllSmall none = Unit
AllSmall (some ids) = All Small ids

strtoui-Small : (s : Bytes) → Small ((strtoui s).value)
unfolding strtoui
strtoui-Small s = elim (Bool-cases (ltb uint_max (strtoul s).value)) [
  | inl large ↦ rw large (omega arith)
  | inr within ↦ rw within (ground arith)
]

Smalls-unless : (b : Bool) (o : Option ℕ) → Smalls o → Smalls (if b then none else o)
Smalls-unless true o h = tt
Smalls-unless false o h = h

pub parse_id-Smalls : (value : Bytes) → Smalls (parse_id value)
unfolding parse_id
parse_id-Smalls value =
    let c = strtoui value in
    Smalls-unless (is_empty value || not (is_empty c.rest)) _
      (Smalls-unless (c.out_of_range || has_dash value) _ (strtoui-Small value))

byte_at-Ensures : (s : Bytes) (i : ℕ) → Ensures (λ b. b < 256) (byte_at s i)
unfolding byte_at
byte_at-Ensures [] i = overruns
byte_at-Ensures (c ∷ s) zero = holds (omega arith)
byte_at-Ensures (c ∷ s) (suc i) = byte_at-Ensures s i

binsid2id-Ensures : (s : Bytes) → Ensures (λ id. Unit {0}) (binsid2id s)
unfolding binsid2id le32_at
binsid2id-Ensures s = Ensures-bind (byte_at-Ensures s 1) (λ count _.
    Ensures-bind (byte_at-Ensures s _) (λ b0 _. Ensures-bind (byte_at-Ensures s _) (λ b1 _.
      Ensures-bind (byte_at-Ensures s _)
        (λ b2 _. Ensures-bind (byte_at-Ensures s _) (λ b3 _. holds tt)))))

pub id_of-Ensures : (sid : Bool) (value : Bytes) → Ensures Smalls (id_of sid value)
unfolding id_of
id_of-Ensures true value = Ensures-bind (binsid2id-Ensures value) (λ id _. holds (omega arith))
id_of-Ensures false value = holds (parse_id-Smalls value)

with_id :
    (id : ℕ) (ids : Option (List ℕ))
    → Small id
    → AllSmall ids
    → Ensures AllSmall (ok (prepend_id id ids))
with_id id none h hs = holds tt
with_id id (some ids) h hs = holds (h, hs)

then_ids-Ensures :
    (offset : ℕ) (id : Option ℕ) {later : Outcome (Option (List ℕ))}
    → Ensures AllSmall later
    → Ensures AllSmall (then_ids offset id later)
then_ids-Ensures offset none h = holds tt
then_ids-Ensures offset (some n) h =
    Ensures-bind h λ ids smalls. with_id ((n + offset) % id_mod) ids (omega arith) smalls

pub ids_of-Ensures :
    (sid : Bool) (offset : ℕ) (values : List Bytes) → Ensures AllSmall (ids_of sid offset values)
unfolding ids_of
ids_of-Ensures sid offset [] = holds tt
ids_of-Ensures sid offset (v ∷ values) =
    Ensures-bind (id_of-Ensures sid v)
      λ id small. then_ids-Ensures offset id (ids_of-Ensures sid offset values)

pub some_ids_of-Ensures :
    (sid : Bool) (offset max : ℕ) (values : List Bytes)
    → Ensures AllSmall (some_ids_of sid offset max values)
unfolding some_ids_of
some_ids_of-Ensures sid offset max [] = holds tt
some_ids_of-Ensures sid offset max (v ∷ values) = ids_of-Ensures sid offset (take max (v ∷ values))
