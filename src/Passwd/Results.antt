-- ===== src/Passwd/Results.antt =====
-- nslcd/passwd.c: what the results for an entry are.
use nss_pam_ldapd.Prelude.{
  ℕ, ◌≤◌, ◌<◌, length, ◌≡◌, ◌≢◌, refl, sym, ap, ◌∙◌, ◌⊎◌, inl, inr, true, List, [], ◌∷◌, ◌++◌,
  Option, ltb, Bool-cases, All, not_ltb→le,
}
use nss_pam_ldapd.Bytes.{Bytes, bytes}
use nss_pam_ldapd.Ids.{id_mod}
use nss_pam_ldapd.Ids.Bounds.{Small}
use nss_pam_ldapd.Protocol.{int32, nslcd_result_begin}
use nss_pam_ldapd.Nss.{Passwd}
use nss_pam_ldapd.Nss.RoundTrip.{passwd_items}
use nss_pam_ldapd.Handler.Results.{results, Results, All-append, results-append}
use nss_pam_ldapd.Passwd.{Settings, Fields, requested, write_name, write_names}

-- A result for one of the users that were asked for, whose password is one for the caller, and whose
-- numbers and texts have the sizes of the protocol and the buffers.
abbrev pub Allowed : Settings → Option Bytes → ℕ → Passwd → Type 0
Allowed settings requser calleruid r =
    (settings.nss_min_uid ≤ r.pw_uid)
    × (settings.isvalidname r.pw_name ≡ true)
    × (requested settings.ignorecase requser r.pw_name ≡ true)
    × (calleruid ≢ 0 → (r.pw_passwd ≡ bytes "x") ⊎ (r.pw_passwd ≡ bytes "*"))
    × (length r.pw_passwd < 256)
    × (r.pw_uid < id_mod)
    × (r.pw_gid < id_mod)
    × (length r.pw_gecos < 1024)
    × (length r.pw_dir < 256)
    × (length r.pw_shell < 64)

-- The password, for a caller other than root, says nothing.
abbrev pub Unreadable : ℕ → Bytes → Type 0
Unreadable calleruid passwd = calleruid ≢ 0 → (passwd ≡ bytes "x") ⊎ (passwd ≡ bytes "*")

-- The parts of a result that all results of an entry share.
abbrev pub Shared : ℕ → Fields → Type 0
Shared calleruid fields =
    Unreadable calleruid fields.passwd
    × (length fields.passwd < 256)
    × (fields.gid < id_mod)
    × (length fields.gecos < 1024)
    × (length fields.homedir < 256)
    × (length fields.shell < 64)

module _ (settings : Settings) (fields : Fields) (requser : Option Bytes) (calleruid : ℕ)
    (shared : Shared calleruid fields) where
  abbrev Good : Passwd → Type 0
  Good = Allowed settings requser calleruid

  write_name-Results :
      (name : Bytes) (uids : List ℕ)
      → All Small uids
      → settings.isvalidname name ≡ true
      → requested settings.ignorecase requser name ≡ true
      → Results passwd_items Good (write_name settings fields name uids)
  unfolding write_name
  write_name-Results name [] small v q = ([], refl, tt)
  write_name-Results name (uid ∷ uids) (s, small) v q =
      let (secret, t0, g, t1, t2, t3) = shared in
      let (rs, e, a) = write_name-Results name uids small v q in
      elim (Bool-cases (ltb uid settings.nss_min_uid)) [
        | inl low ↦ rw low (rs, e, a)
        | inr high ↦
            let r : Passwd = record {
              pw_name = name;
              pw_passwd = fields.passwd;
              pw_uid = uid;
              pw_gid = fields.gid;
              pw_gecos = fields.gecos;
              pw_dir = fields.homedir;
              pw_shell = fields.shell;
            } in
            rw high (
              r ∷ rs,
              ap (λ l. int32 nslcd_result_begin ∷ passwd_items r ++ l) e,
              ((not_ltb→le uid settings.nss_min_uid high, v, q, secret, t0, s, g, t1, t2, t3), a),
            )
      ]

  pub write_names-Results :
      (uids : List ℕ) (names : List Bytes)
      → All Small uids
      → Results passwd_items Good (write_names settings fields requser uids names)
  unfolding write_names
  write_names-Results uids [] small = ([], refl, tt)
  write_names-Results uids (name ∷ names) small =
      let (rs, e, a) = write_names-Results uids names small in
      elim (Bool-cases (requested settings.ignorecase requser name)) [
        | inr other ↦ rw other (rs, e, a)
        | inl asked ↦ elim (Bool-cases (settings.isvalidname name)) [
          | inr invalid ↦ rw (asked, invalid) (rs, e, a)
          | inl valid ↦
              let (ss, f, b) = write_name-Results name uids small valid asked in
              rw (asked, valid)
                (
                  ss ++ rs,
                  (ap (λ l. l ++ write_names settings fields requser uids names) f
                        ∙ ap (λ l. results passwd_items ss ++ l) e)
                      ∙ sym (results-append passwd_items ss rs),
                  All-append Good ss rs b a,
                )
        ]
      ]
