-- ===== src/Passwd/Entries.antt =====
-- nslcd/passwd.c: the search for the entry of a user and its DN.
use nss_pam_ldapd.Prelude.{ℕ, ◌==◌, List, [], ◌∷◌, Option, none, some, take}
use nss_pam_ldapd.Bytes.{Bytes}
use nss_pam_ldapd.Outcome.{Outcome, Ensures, holds, overruns, Ensures-bind, Ensures-if}
use nss_pam_ldapd.Attmap.{Entry}
use nss_pam_ldapd.Ids.Bounds.{id_of-Ensures}
use nss_pam_ldapd.Ldap.{Search, failed, found, myldap_escape}
use nss_pam_ldapd.Passwd.{Settings, below_min, any_valid_uid, entry_has_valid_uid, values_of}
use nss_pam_ldapd.Passwd.Requests.{
  Request, left_by, filter_left, next_base, first_entry, uid2entry, uid2dn,
}

-- Code that ends, whatever it gives.
abbrev pub Ends {ℓ} : {A : Type ℓ} → Outcome A → Type ℓ
Ends r = Ensures (λ a. Unit {0}) r

module _ (settings : Settings) where
  any_valid_uid-Ends : (values : List Bytes) → Ends (any_valid_uid settings values)
  unfolding any_valid_uid
  any_valid_uid-Ends [] = holds tt
  any_valid_uid-Ends (v ∷ values) =
      Ensures-bind (id_of-Ensures settings.uid_sid v) (λ id _.
        Ensures-if (below_min settings id) (λ _. any_valid_uid-Ends values) (λ _. holds tt))

  entry_has_valid_uid-Ends : (entry : Entry) → Ends (entry_has_valid_uid settings entry)
  unfolding entry_has_valid_uid
  entry_has_valid_uid-Ends entry =
      Ensures-if (settings.nss_min_uid == 0) (λ _. holds tt)
        (λ _. any_valid_uid-Ends (values_of entry settings.uid_number))

  next_base-Ends :
      (lookup : Bytes → Search) (rest : Outcome (Option Entry)) (s : Search)
      → Ends rest
      → Ends (next_base settings lookup rest s)
  next_base-Ends lookup rest failed h = holds tt
  next_base-Ends lookup rest (found [] complete) h = h
  next_base-Ends lookup rest (found (entry ∷ entries) complete) h =
      Ensures-bind (entry_has_valid_uid-Ends entry)
        (λ valid _. Ensures-if valid (λ _. holds tt) (λ _. h))

  first_entry-Ends :
      (lookup : Bytes → Search) (bases : List Bytes) → Ends (first_entry settings lookup bases)
  unfolding first_entry
  first_entry-Ends lookup [] = holds tt
  first_entry-Ends lookup (base ∷ bases) =
      next_base-Ends lookup _ (lookup base) (first_entry-Ends lookup bases)

  left_by-Ends : (request : Request) (o : Option Bytes) → Ends (left_by settings request o)
  left_by-Ends request none = overruns
  left_by-Ends request (some safename) = holds tt

  filter_left-Ends : (request : Request) (uid : Bytes) → Ends (filter_left settings request uid)
  unfolding filter_left
  filter_left-Ends request uid = left_by-Ends request (myldap_escape uid 300)

  pub uid2dn-Ends :
      (request : Request) (uid : Bytes) (buflen : ℕ) → Ends (uid2dn settings request uid buflen)
  unfolding uid2dn uid2entry
  uid2dn-Ends request uid buflen =
      Ensures-bind
        (Ensures-if {P = λ entry. Unit {0}} (settings.isvalidname uid)
          (λ _.
            Ensures-bind (filter_left-Ends request uid)
              (λ filter _. first_entry-Ends _ (take 31 request.bases)))
          (λ _. holds tt))
        (λ entry _. holds tt)
