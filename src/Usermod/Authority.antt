-- ===== src/Usermod/Authority.antt =====
-- nslcd/usermod.c: who may bind as whom, and what may be changed.
use nss_pam_ldapd.Prelude.{
  sym, ap, ap₂, ◌∙◌, append-nil, append_assoc, if◌then◌else◌, ℕ, ◌≡◌, ◌≢◌, ◌⊎◌, inl, inr, refl,
  Bool, true, false, ◌&&◌, List, [], ◌∷◌, ◌++◌, Option, none, some, arith, ◌==◌, All, Bool-cases,
}
use nss_pam_ldapd.Bytes.{Bytes, head_byte, =ₛ_iff}
use nss_pam_ldapd.Usermod.{
  Host, Config, Request, Action, Lookup, found, missing, write_int, write_string, bind_as,
  modify_entry, validate_user, is_valid_homedir, is_valid_shell, add_mod, modifications,
  check_value, complaint, credentials, perform, respond, change_user, nslcd_usermod, with_user,
  with_credentials, param, usermod_homedir, usermod_shell,
}

All-append {ℓ κ} :
    {A : Type ℓ} (P : A → Type κ) (xs ys : List A) → All P xs → All P ys → All P (xs ++ ys)
All-append P [] ys p q = q
All-append P (x ∷ xs) ys p q = (p.0, All-append P xs ys p.1 q)

module _ (host : Host) (config : Config) (calleruid : ℕ) (request : Request) where
  -- The caller is root and asks for it.
  abbrev pub AsRoot : Type 0
  AsRoot = (calleruid ≡ 0) × (request.asroot ≡ true)

  -- The user's own DN with the password of the request, or the configured DN, with the configured
  -- password only for root, who gave none.
  abbrev pub MayBind : Bytes → Bytes → Type 0
  MayBind dn pw =
      (request.asroot ≡ false)
        × (host.uid2entry request.username ≡ found dn)
        × (pw ≡ request.password)
      ⊎ (request.asroot ≡ true)
        × (config.rootpwmoddn ≡ some dn)
        × ((pw ≡ request.password)
            ⊎ AsRoot × (request.password ≡ []) × (config.rootpwmodpw ≡ some pw))

  -- The value is the last one that the request gives for the parameter.
  abbrev pub Asked : ℕ → Bytes → Type 0
  Asked key value =
      (before after : List (ℕ × Bytes)) × (request.params ≡ before ++ ((key, value) ∷ after))
      × All (λ p. (p.0 == key) ≡ false) after

  -- Root sets any value that the request asks for; others, of those, an absolute path of a directory,
  -- and a listed shell.
  abbrev pub MaySet : Bytes × Bytes → Type 0
  MaySet (attribute, value) =
      (head_byte attribute ≢ b'"')
      × ((attribute ≡ config.home_directory)
            × Asked usermod_homedir value
            × (AsRoot ⊎ (is_valid_homedir host value ≡ true))
          ⊎ (attribute ≡ config.login_shell)
            × Asked usermod_shell value
            × (AsRoot ⊎ (is_valid_shell host value ≡ true)))

  abbrev pub Permitted : Action → Type 0
  Permitted (write_int n) = Unit
  Permitted (write_string s) = Unit
  Permitted (bind_as dn pw) = MayBind dn pw
  Permitted (modify_entry dn mods) = (host.uid2entry request.username ≡ found dn) × All MaySet mods

  abbrev isroot : Bool
  isroot = calleruid == 0 && request.asroot

  as_root : isroot ≡ true → AsRoot
  as_root h = ground arith

  -- The value of a parameter is asked for, behind the parameters that were read before.
  param-Asked :
      (key : ℕ) (value : Bytes) (params before : List (ℕ × Bytes)) (o : Option Bytes)
      → request.params ≡ before ++ params
      → (o ≡ some value
          → (first last : List (ℕ × Bytes)) × (before ≡ first ++ ((key, value) ∷ last))
            × All (λ p. (p.0 == key) ≡ false) last)
      → param key params o ≡ some value
      → Asked key value
  unfolding param
  param-Asked key value [] before o e k h =
      let (first, last, f, a) = k h in (first, last, (e ∙ append-nil before) ∙ f, a)
  param-Asked key value ((j, v) ∷ params) before o e k h =
      param-Asked key value params (before ++ ((j, v) ∷ [])) (if j == key then some v else o)
        (e ∙ sym (append_assoc before ((j, v) ∷ []) params)) (later (j == key) refl) h
    where
      later :
          (same : Bool)
          → (j == key) ≡ same
          → (if same then some v else o) ≡ some value
          → (first last : List (ℕ × Bytes)) × (before ++ ((j, v) ∷ [])
              ≡ first ++ ((key, value) ∷ last))
            × All (λ p. (p.0 == key) ≡ false) last
      later true s q =
          let jk : j ≡ key = ground arith in
          let vv : v ≡ value = cc in (before, [], ap₂ (λ x y. before ++ ((x, y) ∷ [])) jk vv, tt)
      later false s q =
          let (first, last, f, a) = k q in
          (
            first,
            last ++ ((j, v) ∷ []),
            ap (λ l. l ++ ((j, v) ∷ [])) f ∙ append_assoc first ((key, value) ∷ last) ((j, v) ∷ []),
            All-append (λ p. (p.0 == key) ≡ false) last ((j, v) ∷ []) a (s, tt),
          )

  asked : (key : ℕ) (value : Bytes) → param key request.params none ≡ some value → Asked key value
  asked key value h = param-Asked key value request.params [] none refl (λ q. absurd (cc)) h

  check_value-some :
      (key : ℕ) (valid : Bytes → Bool) (o : Option Bytes) (v : Bytes)
      → o ≡ param key request.params none
      → check_value isroot valid o ≡ some v
      → Asked key v × (AsRoot ⊎ (valid v ≡ true))
  unfolding check_value
  check_value-some key valid none v e h = absurd (cc)
  check_value-some key valid (some w) v e h = elim (Bool-cases isroot) [
    | inl root ↦
        let same : some w ≡ some v = rw root at h in
        (asked key v (sym e ∙ same), inl (as_root root))
    | inr other ↦ elim (Bool-cases (valid w)) [
      | inl fine ↦
          let same : w ≡ v = cc (rw (other, fine) at h) in
          (asked key v (sym e ∙ ap some same), inr (ap valid (sym same) ∙ fine))
      | inr bad ↦ absurd (let q : Path (Option Bytes) none (some v) = rw (other, bad) at h in cc)
    ]
  ]

  add_mod-MaySet :
      (attribute : Bytes) (o : Option Bytes) (mods : List (Bytes × Bytes))
      → ((v : Bytes) → o ≡ some v → head_byte attribute ≢ b'"' → MaySet (attribute, v))
      → All MaySet mods
      → All MaySet (add_mod attribute o mods)
  unfolding add_mod
  add_mod-MaySet attribute none mods h all = all
  add_mod-MaySet attribute (some v) mods h all = elim (Bool-cases (head_byte attribute == b'"')) [
    | inl e ↦ rw e all
    | inr e ↦ rw e (h v refl (λ p. ground arith), all)
  ]

  modifications-MaySet :
      (homedir shell : Option Bytes)
      → homedir ≡ param usermod_homedir request.params none
      → shell ≡ param usermod_shell request.params none
      → All MaySet (
          modifications config
            (check_value isroot (is_valid_homedir host) homedir)
            (check_value isroot (is_valid_shell host) shell))
  unfolding modifications
  modifications-MaySet homedir shell eh es =
      add_mod-MaySet config.home_directory _ _
        (λ v e plain.
          let (wanted, may) =
            check_value-some usermod_homedir (is_valid_homedir host) homedir v eh e in
          (plain, inl (refl, wanted, may)))
        (add_mod-MaySet config.login_shell _ []
          (λ v e plain.
            let (wanted, may) = check_value-some usermod_shell (is_valid_shell host) shell v es e in
            (plain, inr (refl, wanted, may)))
          tt)

  complaint-Permitted :
      (valid : Bytes → Bool) (field : ℕ) (message : Bytes) (o : Option Bytes)
      → All Permitted (complaint isroot valid field message o)
  unfolding complaint
  complaint-Permitted valid field message none = tt
  complaint-Permitted valid field message (some v) = elim (Bool-cases isroot) [
    | inl e ↦ rw e tt
    | inr e ↦ elim (Bool-cases (valid v)) [
      | inl f ↦ rw (e, f) tt
      | inr f ↦ rw (e, f) (tt, (tt, tt))
    ]
  ]

  respond-Permitted : (rc : ℕ) → All Permitted (respond host rc)
  unfolding respond
  respond-Permitted rc = elim (Bool-cases (rc == 0)) [
    | inl e ↦ rw e (tt, (tt, tt))
    | inr e ↦ rw e (tt, (tt, (tt, (tt, tt))))
  ]

  perform-Permitted :
      (dn pw userdn : Bytes) (mods : List (Bytes × Bytes))
      → MayBind dn pw
      → host.uid2entry request.username ≡ found userdn
      → All MaySet mods
      → All Permitted (perform host dn pw userdn mods).1
  unfolding perform is_valid_homedir is_valid_shell
  perform-Permitted dn pw userdn mods may user all = elim (Bool-cases host.has_session) [
    | inr e ↦ rw e tt
    | inl e ↦ elim (Bool-cases (host.bind dn pw == 0)) [
      | inl f ↦ rw (e, f) (may, ((user, all), tt))
      | inr f ↦ rw (e, f) (may, tt)
    ]
  ]

  credentials-MayBind :
      (userdn dn pw : Bytes)
      → host.uid2entry request.username ≡ found userdn
      → credentials config request isroot userdn ≡ some (dn, pw)
      → MayBind dn pw
  unfolding credentials
  credentials-MayBind userdn dn pw user h = ground (arith, =ₛ_iff request.password [])

  change_user-Permitted :
      (userdn dn pw : Bytes)
      → MayBind dn pw
      → host.uid2entry request.username ≡ found userdn
      → All Permitted (change_user host config request isroot userdn (dn, pw))
  unfolding change_user
  change_user-Permitted userdn dn pw may user =
      let homedir = param usermod_homedir request.params none in
      let shell = param usermod_shell request.params none in
      let mods =
        modifications config (check_value isroot (is_valid_homedir host) homedir)
          (check_value isroot (is_valid_shell host) shell) in
      let p = perform host dn pw userdn mods in
      (
        tt,
        All-append Permitted _ _ (complaint-Permitted (is_valid_homedir host) _ _ homedir) (
            All-append Permitted _ _ (complaint-Permitted (is_valid_shell host) _ _ shell) (
              All-append Permitted p.1 _
                (perform-Permitted dn pw userdn mods may user
                  (modifications-MaySet homedir shell refl refl))
                (respond-Permitted p.0))),
      )

  validate_user-found :
      (dn : Bytes)
      → validate_user host request.username ≡ found dn
      → host.uid2entry request.username ≡ found dn
  unfolding validate_user
  validate_user-found dn h = ground arith

  with_credentials-Permitted :
      (userdn : Bytes) (c : Option (Bytes × Bytes))
      → host.uid2entry request.username ≡ found userdn
      → credentials config request isroot userdn ≡ c
      → All Permitted (with_credentials host config request isroot userdn c).0
  unfolding with_credentials
  with_credentials-Permitted userdn none user e = (tt, (tt, tt))
  with_credentials-Permitted userdn (some (dn, pw)) user e =
      (tt, (tt, change_user-Permitted userdn dn pw (credentials-MayBind userdn dn pw user e) user))

  with_user-Permitted :
      (l : Lookup)
      → validate_user host request.username ≡ l
      → All Permitted (with_user host config request isroot l).0
  unfolding with_user
  with_user-Permitted (found userdn) e =
      with_credentials-Permitted userdn _ (validate_user-found userdn e) refl
  with_user-Permitted (missing rc) e = elim (Bool-cases (rc == 32)) [
    | inl f ↦ rw f (tt, (tt, (tt, tt)))
    | inr f ↦ rw f (tt, (tt, tt))
  ]

-- Whatever the request: every bind is made with the user's own DN and the password of the request,
-- or, where the request is made as root, with the configured DN, and then with the configured
-- password only if the caller is root and gave none.  Every modification is of the entry of the
-- named user, of the attributes for the home directory and the shell, of none that is an
-- expression, and with the last value that the request gives for it; for a caller who is not root,
-- or does not ask as root, one that passed its check.
pub usermod_authority :
    (host : Host) (config : Config) (calleruid : ℕ) (request : Request)
    → All (Permitted host config calleruid request) (nslcd_usermod host config calleruid request).0
unfolding nslcd_usermod
usermod_authority host config calleruid request =
    with_user-Permitted host config calleruid request (validate_user host request.username) refl
