-- ===== src/Nsswitch/Freshness.antt =====
-- nslcd/nsswitch.c: how long the cached answer is used.
use nss_pam_ldapd.Prelude.{
  Option-cases, ◌⊎◌, ℕ, ◌+◌, ◌<◌, ◌≡◌, ◌≢◌, refl, sym, ap, ◌∙◌, Bool, true, false, List, Option,
  none, some, arith, ltb, ◌==◌, Bool-cases, inl, inr,
}
use nss_pam_ldapd.Bytes.{Bytes}
use nss_pam_ldapd.Outcome.{Outcome, ok, fail, overrun, out_of_fuel, ◌>>=◌}
use nss_pam_ldapd.Nsswitch.{
  Cache, restat, nsswitch_check_reload, nsswitch_shadow_uses_ldap, shadow_uses_ldap,
}

-- The answer in the cache, if there is one, is that of the file.
pub record Coherent (file : Option (List Bytes)) (c : Cache) : Type 0 where
  pub right : (b : Bool) → c.uses_ldap ≡ some b → shadow_uses_ldap file ≡ ok b

-- The calls while the file stays what it is.
pub data Steps (file : Option (List Bytes)) : Cache → Cache → Type 0 where
  done : {c : Cache} → Steps file c c
  reload :
      {c c' : Cache} (t : ℕ) (stat : Option ℕ)
      → Steps file (nsswitch_check_reload t stat c) c'
      → Steps file c c'
  lookup :
      {c c' c'' : Cache} (t : ℕ) (answer : Bool)
      → nsswitch_shadow_uses_ldap t file c ≡ ok (answer, c')
      → Steps file c' c''
      → Steps file c c''

-- A reload either forgets the answer or keeps it.
reload-uses_ldap :
    (t : ℕ) (stat : Option ℕ) (c : Cache)
    → ((nsswitch_check_reload t stat c).uses_ldap ≡ none)
      ⊎ ((nsswitch_check_reload t stat c).uses_ldap ≡ c.uses_ldap)
unfolding nsswitch_check_reload restat
reload-uses_ldap t none c = elim (Option-cases c.uses_ldap) [
  | inl e ↦ inl (rw (e, nsswitch_check_reload) e)
  | inr (b, e) ↦
      rw (e, nsswitch_check_reload)
        (elim (Bool-cases (ltb (c.lastcheck + 60) t)) [
          | inl late ↦ inl (rw late refl)
          | inr early ↦ inr (rw early e)
        ])
]
reload-uses_ldap t (some m) c = elim (Option-cases c.uses_ldap) [
  | inl e ↦ inl (rw (e, nsswitch_check_reload) e)
  | inr (b, e) ↦
      rw (e, nsswitch_check_reload)
        (elim (Bool-cases (ltb (c.lastcheck + 60) t)) [
          | inl late ↦ rw late (elim (Bool-cases (m == c.mtime)) [
            | inl same ↦ inr (rw same e)
            | inr other ↦ inl (rw other refl)
          ])
          | inr early ↦ inr (rw early e)
        ])
]

reload-Coherent :
    (file : Option (List Bytes)) (c : Cache) (t : ℕ) (stat : Option ℕ)
    → Coherent file c
    → Coherent file (nsswitch_check_reload t stat c)
reload-Coherent file c t stat k = elim (reload-uses_ldap t stat c) [
  | inl e ↦ record { right = λ b h. cc (e, h) }
  | inr e ↦ record { right = λ b h. k.right b (sym e ∙ h) }
]

-- what a new answer leaves
abbrev remember : Cache → ℕ → Bool → Outcome (Bool × Cache)
remember c t a = ok (a, record c { uses_ldap = some a; lastcheck = t })

abbrev first_of : Outcome (Bool × Cache) → Bool × Cache → Bool × Cache
first_of (ok p) q = p
first_of fail q = q
first_of overrun q = q
first_of out_of_fuel q = q

ok-answer :
    (a answer : Bool) (c c' : Cache)
    → Path (Outcome (Bool × Cache)) (ok (a, c)) (ok (answer, c'))
    → (a ≡ answer) × (c ≡ c')
ok-answer a answer c c' h =
    (ap (λ r. (first_of r (answer, c')).0) h, ap (λ r. (first_of r (answer, c')).1) h)

lookup-right :
    (file : Option (List Bytes)) (c c' : Cache) (t : ℕ) (answer : Bool)
    → Coherent file c
    → nsswitch_shadow_uses_ldap t file c ≡ ok (answer, c')
    → (shadow_uses_ldap file ≡ ok answer) × (c'.uses_ldap ≡ some answer)
unfolding shadow_uses_ldap nsswitch_shadow_uses_ldap
lookup-right file c c' t answer k h = elim (Option-cases c.uses_ldap) [
  | inl e ↦ at (shadow_uses_ldap file) refl (rw (e, nsswitch_shadow_uses_ldap) at h)
  | inr (b, e) ↦
      let (same, kept) = ok-answer b answer c c' (rw (e, nsswitch_shadow_uses_ldap) at h) in
      (k.right b e ∙ ap ok same, ap (λ x. x.uses_ldap) (sym kept) ∙ (e ∙ ap some same))
]
  where
    at :
        (o : Outcome Bool)
        → shadow_uses_ldap file ≡ o
        → (o >>= remember c t) ≡ ok (answer, c')
        → (shadow_uses_ldap file ≡ ok answer) × (c'.uses_ldap ≡ some answer)
    at (ok a) e h =
        let (same, kept) =
          ok-answer a answer (record c { uses_ldap = some a; lastcheck = t }) c' h in
        (e ∙ ap ok same, ap (λ x. x.uses_ldap) (sym kept) ∙ ap some same)
    at fail e h = cc
    at overrun e h = cc
    at out_of_fuel e h = cc

Steps-Coherent :
    (file : Option (List Bytes)) (c c' : Cache)
    → Steps file c c'
    → Coherent file c
    → Coherent file c'
Steps-Coherent file c c' done k = k
Steps-Coherent file c c' (reload t stat s) k =
    Steps-Coherent file _ c' s (reload-Coherent file c t stat k)
Steps-Coherent file c c'' (lookup {c' = c'} t answer e s) k =
    let (right, now) = lookup-right file c c' t answer k e in
    Steps-Coherent file c' c'' s
      (record { right = λ b h. let q : answer ≡ b = cc (sym now ∙ h) in right ∙ ap ok q })

-- From a cache without an answer, or with that of the file, and while the file stays what it is,
-- every answer after any calls of nsswitch_check_reload() and nsswitch_shadow_uses_ldap() is the
-- one that the file gives.
pub nsswitch_shadow_uses_ldap_lem :
    (file : Option (List Bytes)) (c c' c'' : Cache) (t : ℕ) (answer : Bool)
    → Coherent file c
    → Steps file c c'
    → nsswitch_shadow_uses_ldap t file c' ≡ ok (answer, c'')
    → shadow_uses_ldap file ≡ ok answer
nsswitch_shadow_uses_ldap_lem file c c' c'' t answer k s h =
    (lookup-right file c' c'' t answer (Steps-Coherent file c c' s k) h).0

-- stat() fails, or gives another time of the last change than the cache has
abbrev pub Noticed : Option ℕ → Cache → Type 0
Noticed none c = Unit
Noticed (some m) c = m ≢ c.mtime

reload-Noticed :
    (c : Cache) (now : ℕ) (stat : Option ℕ)
    → c.lastcheck + 60 < now
    → Noticed stat c
    → (nsswitch_check_reload now stat c).uses_ldap ≡ none
unfolding nsswitch_check_reload restat
reload-Noticed c now none late new =
    let due : ltb (c.lastcheck + 60) now ≡ true = ground arith in
    elim (Option-cases c.uses_ldap) [
      | inl e ↦ rw (e, nsswitch_check_reload) e
      | inr (b, e) ↦ rw (e, nsswitch_check_reload) (rw due refl)
    ]
reload-Noticed c now (some m) late new =
    let due : ltb (c.lastcheck + 60) now ≡ true = ground arith in
    let other : (m == c.mtime) ≡ false = ground arith in
    elim (Option-cases c.uses_ldap) [
      | inl e ↦ rw (e, nsswitch_check_reload) e
      | inr (b, e) ↦ rw (e, nsswitch_check_reload) (rw (due, other) refl)
    ]

-- When a reload, more than a minute after the last check, notices that the file has changed, every
-- answer from then on, while it stays what it has become, is the one that the new file gives.
pub nsswitch_check_reload_lem :
    (file : Option (List Bytes)) (c c' c'' : Cache) (now t : ℕ) (stat : Option ℕ) (answer : Bool)
    → c.lastcheck + 60 < now
    → Noticed stat c
    → Steps file (nsswitch_check_reload now stat c) c'
    → nsswitch_shadow_uses_ldap t file c' ≡ ok (answer, c'')
    → shadow_uses_ldap file ≡ ok answer
nsswitch_check_reload_lem file c c' c'' now t stat answer late new s h =
    let gone = reload-Noticed c now stat late new in
    nsswitch_shadow_uses_ldap_lem file (nsswitch_check_reload now stat c) c' c'' t answer
      (record { right = λ b e. absurd (let q : none ≡ some b = sym gone ∙ e in cc) }) s h
