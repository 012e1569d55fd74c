-- ===== src/Shadow/Answer.antt =====
-- nslcd/shadow.c: the results that write_shadow() writes.
use nss_pam_ldapd.Prelude.{
  ℕ, ◌<◌, length, ◌≡◌, ◌≢◌, refl, ap, inl, inr, true, List, [], ◌∷◌, ◌++◌, Option, arith,
  Bool-cases, ◌==◌,
}
use nss_pam_ldapd.Prelude.Int.{ℤ}
use nss_pam_ldapd.Bytes.{Bytes, bytes}
use nss_pam_ldapd.Outcome.{
  Outcome, ok, fail, overrun, out_of_fuel, Ensures, holds, fails, overruns, Ensures-bind,
}
use nss_pam_ldapd.Attmap.{Entry}
use nss_pam_ldapd.Attmap.Lookup.{Fits, attmap_get_value-Ensures}
use nss_pam_ldapd.Protocol.{Item, int32, nslcd_result_begin}
use nss_pam_ldapd.Handler.Results.{Results}
use nss_pam_ldapd.Passwd.{values_of, requested, for_caller}
use nss_pam_ldapd.Passwd.Answer.{get_userpassword-Ensures}
use nss_pam_ldapd.Passwd.Entries.{Ends}
use nss_pam_ldapd.Shadow.{
  Attributes, Properties, get_text, get_optional_long, get_shadow_properties,
}
use nss_pam_ldapd.Shadow.Requests.{
  ShadowRequest, shadow_items, write_shadow_names, write_shadow_user, write_shadow,
}

-- What a result says.
pub record ShadowEntry : Type 0 where
  pub name : Bytes
  pub passwd : Bytes
  pub properties : Properties

abbrev pub entry_items : ShadowEntry → List Item
entry_items r = shadow_items r.name r.passwd r.properties

-- A result for a user that was asked for, with a valid name; only root sees a password.
abbrev pub AllowedShadow : ShadowRequest → Option Bytes → ShadowEntry → Type 0
AllowedShadow request requser r =
    (request.isvalidname r.name ≡ true)
    × (requested request.ignorecase requser r.name ≡ true)
    × (length r.passwd < 256)
    × (request.calleruid ≢ 0 → r.passwd ≡ bytes "*")

abbrev Secret : ℕ → Bytes → Type 0
Secret calleruid passwd = (length passwd < 256) × (calleruid ≢ 0 → passwd ≡ bytes "*")

for_caller-Secret :
    (calleruid : ℕ) {r : Outcome Bytes}
    → Ensures (Fits 256) r
    → Ensures (Secret calleruid) (for_caller calleruid r)
for_caller-Secret calleruid (holds k) = elim (Bool-cases (calleruid == 0)) [
  | inl root ↦ rw root (holds (k, (λ other. absurd (ground (arith, other)))))
  | inr user ↦ rw user (holds (omega arith, (λ other. refl)))
]
for_caller-Secret calleruid fails = holds (omega arith, (λ other. refl))
for_caller-Secret calleruid overruns = overruns

or_text-Ends :
    {r : Outcome Bytes}
    → Ensures (Fits 64) r
    → Ends {A = Bytes} (elim r [
      | ok text ↦ ok text
      | fail ↦ ok []
      | overrun ↦ overrun
      | out_of_fuel ↦ out_of_fuel
    ])
or_text-Ends (holds k) = holds tt
or_text-Ends fails = holds tt
or_text-Ends overruns = overruns

get_text-Ends : (entry : Entry) (attr : Bytes) → Ends (get_text entry attr)
unfolding get_text
get_text-Ends entry attr = or_text-Ends (attmap_get_value-Ensures entry attr 64)

get_optional_long-Ends :
    (entry : Entry) (attr : Bytes) (fallback : ℤ) → Ends (get_optional_long entry attr fallback)
unfolding get_optional_long
get_optional_long-Ends entry attr fallback =
    Ensures-bind (get_text-Ends entry attr) (λ text _. holds tt)

get_shadow_properties-Ends : (entry : Entry) (a : Attributes) → Ends (get_shadow_properties entry a)
unfolding get_shadow_properties
get_shadow_properties-Ends entry a =
    let long = get_optional_long-Ends entry in
    Ensures-bind (get_text-Ends entry a.last_change) (λ date _.
      Ensures-bind (long a.min _) (λ min _. Ensures-bind (long a.max _) (λ max _.
        Ensures-bind (long a.warning _) (λ warning _.
          Ensures-bind (long a.inactive _) (λ inactive _.
            Ensures-bind (long a.expire _)
              (λ expire _. Ensures-bind (long a.flag _) (λ flag _. holds tt)))))))

module _ (request : ShadowRequest) (requser : Option Bytes) where
  write_shadow_names-Results :
      (passwd : Bytes) (p : Properties) (names : List Bytes)
      → Secret request.calleruid passwd
      → Results entry_items
          (AllowedShadow request requser)
          (write_shadow_names request requser passwd p names)
  unfolding write_shadow_names
  write_shadow_names-Results passwd p [] s = ([], refl, tt)
  write_shadow_names-Results passwd p (name ∷ names) s =
      let (rs, e, a) = write_shadow_names-Results passwd p names s in
      elim (Bool-cases (requested request.ignorecase requser name)) [
        | inr other ↦ rw other (rs, e, a)
        | inl asked ↦ elim (Bool-cases (request.isvalidname name)) [
          | inr invalid ↦ rw (asked, invalid) (rs, e, a)
          | inl valid ↦
              let r : ShadowEntry = record { name = name; passwd = passwd; properties = p } in
              rw (asked, valid)
                (
                  r ∷ rs,
                  ap (λ l. int32 nslcd_result_begin ∷ entry_items r ++ l) e,
                  ((valid, asked, s.0, s.1), a),
                )
        ]
      ]

  write_shadow_user-Results :
      (entry : Entry) (names : List Bytes)
      → Ensures
          (Results entry_items (AllowedShadow request requser))
          (write_shadow_user request entry requser names)
  write_shadow_user-Results entry [] = holds ([], refl, tt)
  write_shadow_user-Results entry (name ∷ names) =
      Ensures-bind
        (for_caller-Secret request.calleruid (get_userpassword-Ensures entry request.user_password))
        (λ passwd s.
          Ensures-bind (get_shadow_properties-Ends entry request.attributes)
            (λ p _. holds (write_shadow_names-Results passwd p (name ∷ names) s)))

-- What write_shadow() writes is a list of results, each for a valid name that was asked for, with a
-- password that fits in its buffer and that is "*" for a caller other than root.  The fuel for the
-- expressions is enough; nothing is said where a text is read behind its end.
pub write_shadow-Results :
    (request : ShadowRequest) (entry : Entry) (requser : Option Bytes)
    → Ensures
        (Results entry_items (AllowedShadow request requser))
        (write_shadow request entry requser)
unfolding write_shadow
write_shadow-Results request entry requser =
    write_shadow_user-Results request requser entry (values_of entry request.uid)
