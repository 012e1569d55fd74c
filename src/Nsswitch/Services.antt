-- ===== src/Nsswitch/Services.antt =====
-- nslcd/nsswitch.c: has_service() on the lists of services that nsswitch.conf(5) describes.
use nss_pam_ldapd.Prelude.{
  ap, ◌==◌, ℕ, zero, suc, ◌+◌, ◌<◌, ◌≡◌, refl, ◌∙◌, Bool, true, false, List, [], ◌∷◌, ◌++◌, some,
  arith, if◌then◌else◌, All, Bool-cases, inl, inr, length, length-append,
}
use nss_pam_ldapd.Bytes.{Bytes, ◌=ₛ◌, contains}
use nss_pam_ldapd.Bytes.Number.{is_space, skip_space}
use nss_pam_ldapd.Outcome.{Outcome, ok, advance}
use nss_pam_ldapd.Nsswitch.{
  is_alnum, has_prefix, skip_alnum, skip_action, is_service, service_step, service_loop,
  has_service,
}

-- Letters and digits only, and at least one.
pub record IsWord (w : Bytes) : Type 0 where
  pub letters : All (λ c. is_alnum c ≡ true) w
  pub not_empty : 0 < length w

-- Behind a service: a space before the next one, or the newline.
abbrev separator : List Bytes → ℕ
separator [] = 10
separator (w ∷ ws) = 32

-- The services as a line of the file has them, from the first one to the newline behind the last.
abbrev pub service_list : List Bytes → Bytes
service_list [] = []
service_list (w ∷ ws) = w ++ separator ws ∷ service_list ws

separator-space : (ws : List Bytes) → is_space (separator ws) ≡ true
unfolding is_space
separator-space [] = refl
separator-space (w ∷ ws) = refl

separator-alnum : (ws : List Bytes) → is_alnum (separator ws) ≡ false
unfolding is_alnum
separator-alnum [] = refl
separator-alnum (w ∷ ws) = refl

skip_space-alnum : (c : ℕ) (s : Bytes) → is_alnum c ≡ true → skip_space (c ∷ s) ≡ c ∷ s
unfolding skip_space is_alnum
skip_space-alnum c s h = ground arith

skip_alnum-word :
    (w s : Bytes) (c : ℕ)
    → All (λ d. is_alnum d ≡ true) w
    → is_alnum c ≡ false
    → skip_alnum (w ++ c ∷ s) ≡ c ∷ s
unfolding skip_alnum
skip_alnum-word [] s c h e = rw e
skip_alnum-word (d ∷ w) s c h e = rw h.0 (skip_alnum-word w s c h.1 e)

is_service-word :
    (service w s : Bytes) (p : ℕ)
    → All (λ c. is_alnum c ≡ true) service
    → All (λ c. is_alnum c ≡ true) w
    → is_alnum p ≡ false
    → is_service service (w ++ p ∷ s) ≡ (w =ₛ service)
unfolding is_service has_prefix ◌=ₛ◌
is_service-word [] [] s p h k e = ground arith
is_service-word [] (c ∷ w) s p h k e = ground arith
is_service-word (d ∷ service) [] s p h k e = elim (Bool-cases (d == p)) [
  | inl f ↦ absurd (let q : d ≡ p = ground arith in cc (ap is_alnum q, h.0, e))
  | inr f ↦ rw f refl
]
is_service-word (d ∷ service) (c ∷ w) s p h k e =
    ground (arith, is_service-word service w s p h.1 k.1 e)

pub skip_space-service_list :
    (ws : List Bytes) → All IsWord ws → skip_space (service_list ws) ≡ service_list ws
unfolding skip_space
skip_space-service_list [] h = refl
skip_space-service_list ([] ∷ ws) h = absurd (let e = h.0.not_empty in omega arith)
skip_space-service_list ((c ∷ w) ∷ ws) h =
    unfold skip_space in skip_space-alnum c (w ++ separator ws ∷ service_list ws) h.0.letters.0

-- What follows the name of a service.
skip_space-list :
    (ws : List Bytes)
    → All IsWord ws
    → skip_space (separator ws ∷ service_list ws) ≡ service_list ws
unfolding skip_space
skip_space-list ws h = rw (separator-space ws) (skip_space-service_list ws h)

skip_action-list :
    (loop : Bytes → Outcome Bool) (ws : List Bytes)
    → All IsWord ws
    → skip_action loop (service_list ws) ≡ loop (service_list ws)
unfolding skip_action is_alnum
skip_action-list loop [] h = refl
skip_action-list loop ([] ∷ ws) h = absurd (let e = h.0.not_empty in omega arith)
skip_action-list loop ((c ∷ w) ∷ ws) h = let e = h.0.letters.0 in ground arith

list-nonempty-lt : (c : ℕ) (w s : Bytes) (p n : ℕ) → length (c ∷ w ++ p ∷ s) < suc n → length s < n
list-nonempty-lt c w s p n h = let e = length-append w (p ∷ s) in omega arith

-- One round of the loop leaves the services behind the first.
service_step-list :
    (loop : Bytes → Outcome Bool) (service : Bytes)
    → All (λ c. is_alnum c ≡ true) service
    → (c : ℕ) (w : Bytes) (ws : List Bytes) → All IsWord ((c ∷ w) ∷ ws)
    → service_step loop service (service_list ((c ∷ w) ∷ ws))
      ≡ (if (c ∷ w) =ₛ service then ok true else loop (service_list ws))
unfolding service_step advance
service_step-list loop service word c w ws h =
    let l = h.0.letters in
    let a = skip_space-alnum c (w ++ separator ws ∷ service_list ws) l.0 in
    let b =
      is_service-word service (c ∷ w) (service_list ws) (separator ws) word l
        (separator-alnum ws) in
    let d = skip_alnum-word w (service_list ws) (separator ws) l.1 (separator-alnum ws) in
    rw (a, b, d, skip_space-list ws h.1, skip_action-list loop ws h.1)

service_loop-list :
    (service : Bytes)
    → All (λ c. is_alnum c ≡ true) service
    → (fuel : ℕ) (ws : List Bytes) → All IsWord ws
    → length (service_list ws) < fuel
    → service_loop fuel service (service_list ws) ≡ ok (contains ws service)
unfolding service_loop contains service_step
service_loop-list service word zero ws h f = absurd (omega arith)
service_loop-list service word (suc fuel) [] h f = refl
service_loop-list service word (suc fuel) ([] ∷ ws) h f =
    absurd (let e = h.0.not_empty in omega arith)
service_loop-list service word (suc fuel) ((c ∷ w) ∷ ws) h f =
    let ih =
      service_loop-list service word fuel ws h.1
        (list-nonempty-lt c w (service_list ws) (separator ws) fuel f) in
    let round = service_step-list (service_loop fuel service) service word c w ws h in
    elim (Bool-cases ((c ∷ w) =ₛ service)) [ inl e ↦ round ∙ (rw e) | inr e ↦ round ∙ (rw (e, ih)) ]

-- On services written as words, with a space before the next and a newline behind the last, has_service() ends within its fuel and
-- answers whether the service, itself a word, is one of them.
pub has_service_lem :
    (service : Bytes) (ws : List Bytes)
    → All (λ c. is_alnum c ≡ true) service
    → All IsWord ws
    → has_service (some (service_list ws)) service ≡ ok (contains ws service)
unfolding has_service
has_service_lem service ws word h =
    service_loop-list service word (length (service_list ws) + 1) ws h (omega arith)
