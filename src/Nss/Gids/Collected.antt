-- ===== src/Nss/Gids/Collected.antt =====
-- nss/group.c: what read_gids() has collected when the daemon's answer is read.
use nss_pam_ldapd.Prelude.{
  take-length, ℕ, zero, suc, ◌+◌, ◌*◌, ◌^◌, ◌≤◌, ◌<◌, ◌≡◌, refl, ap, sym, ◌∙◌, ◌⊎◌, inl, inr, true,
  false, ◌||◌, List, [], ◌∷◌, ◌++◌, ltb, leb, ◌==◌, if◌then◌else◌, length, take, append_assoc,
  append-nil, subst, arith, Bool-cases, All, length-append,
}
use nss_pam_ldapd.Bytes.{Bytes}
use nss_pam_ldapd.Protocol.{Item, int32, string, stringlist, nslcd_result_begin, nslcd_result_end}
use nss_pam_ldapd.Protocol.Client.{
  Client, Read, got, read_int32, skip_string, skip_stringlist, ◌>>=◌,
}
use nss_pam_ldapd.Protocol.RoundTrip.{client, Short, then_lem}
use nss_pam_ldapd.Protocol.RoundTrip.Skip.{Countable}
use nss_pam_ldapd.Protocol.RoundTrip.Items.{sent, int32_item, skipped_string, skipped_stringlist}
use nss_pam_ldapd.Nss.{Group}
use nss_pam_ldapd.Nss.RoundTrip.{group_items}
use nss_pam_ldapd.Nss.Gids.{
  Gids, Status, success, tryagain, Call, reached, add_gid, take_gid, read_gid, read_gids,
}

-- A group whose strings have lengths and whose number has a value of the protocol.
abbrev pub Skippable : Group → Type 0
Skippable r = Short r.gr_name × Short r.gr_passwd × (r.gr_gid < 2 ^ 32) × Countable r.gr_mem

-- What follows a result of the answer.
abbrev pub following : List Group → List Item
following [] = int32 nslcd_result_end ∷ []
following (r ∷ rs) = int32 nslcd_result_begin ∷ group_items r ++ following rs

-- The identifiers of the groups but the one to leave out.
abbrev pub kept : ℕ → List Group → List ℕ
kept skip [] = []
kept skip (r ∷ rs) = if r.gr_gid == skip then kept skip rs else r.gr_gid ∷ kept skip rs

-- What a limit leaves of the identifiers, and whether it is all of them.
abbrev pub bounded : ℕ → List ℕ → List ℕ
bounded limit ids = if limit == 0 then ids else take limit ids

abbrev pub status_of : ℕ → List ℕ → Status
status_of limit ids = if limit == 0 || leb (length ids) limit then success else tryagain

-- An array that has room for a group and does not pass the limit.
abbrev pub Ready : Call → Gids → Type 0
Ready call g =
    (0 < g.size) × (length g.groups ≤ g.size) × ((call.limit ≡ 0) ⊎ (length g.groups ≤ call.limit))

read_gid_lem :
    (r : Group) (items : List Item) (rest : Bytes) (n p o : ℕ)
    → Skippable r
    → read_gid (client (sent (group_items r ++ items) rest) n p o)
      ≡ got r.gr_gid (client (sent items rest) n p o)
unfolding read_gid
read_gid_lem r items rest n p o (h1, h2, h3, h4) =
    let at : List Item → Client = λ l. client (sent l rest) n p o in
    let l3 = stringlist r.gr_mem ∷ items in
    let l2 = int32 r.gr_gid ∷ l3 in
    let l1 = string r.gr_passwd ∷ l2 in
    then_lem skip_string _ (at (string r.gr_name ∷ l1)) false tt (at l1)
      (skipped_string l1 rest n p o r.gr_name h1)
    ∙ (then_lem skip_string _ (at l1) false tt (at l2) (skipped_string l2 rest n p o r.gr_passwd h2)
        ∙ (then_lem read_int32 _ (at l2) false r.gr_gid (at l3)
              (int32_item l3 rest n p o r.gr_gid h3)
            ∙ then_lem skip_stringlist _ (at l3) false tt (at items)
                (skipped_stringlist items rest n p o r.gr_mem h4)))

-- A group is added, unless the limit is reached.
data Added (call : Call) (gid : ℕ) (g : Gids) (c : Client) : Type 0 where
  full :
      0 < call.limit
      → length g.groups ≡ call.limit
      → add_gid call gid g c ≡ got (tryagain, g) c
      → Added call gid g c
  room :
      (size : ℕ)
      → Ready call (record { groups = g.groups ++ gid ∷ []; size = size })
      → add_gid call gid g c
        ≡ got (success, record { groups = g.groups ++ gid ∷ []; size = size }) c
      → Added call gid g c

add_gid_lem :
    (call : Call) (gid : ℕ) (g : Gids) (c : Client)
    → ((size : ℕ) → call.given size ≡ true)
    → Ready call g
    → Added call gid g c
unfolding add_gid
add_gid_lem call gid g c given (h1, h2, h3) =
    let one = length-append g.groups (gid ∷ []) in
    elim (Bool-cases (reached call g)) [
      | inl r ↦ full (ground (arith, one)) (ground (arith, one)) (rw r refl)
      | inr r ↦ elim (Bool-cases (ltb (length g.groups) g.size)) [
        | inl s ↦
            room g.size (omega arith, (ground (arith, one)), (ground (arith, one))) (rw (r, s) refl)
        | inr s ↦
            let more : ltb (length g.groups) (2 * g.size) ≡ true = ground arith in
            room (2 * g.size) (omega arith, (ground (arith, one)), (ground (arith, one)))
              (rw (r, s, given (2 * g.size), more) refl)
      ]
    ]

-- The outcome of the loop that collects all of the identifiers, up to the limit.
abbrev pub Ends : Call → List ℕ → Read (Status × Gids) → Type 0
Ends call all r =
    (size : ℕ) × (c : Client) × (r
      ≡ got (status_of call.limit all, record { groups = bounded call.limit all; size = size }) c)

take-within : (n : ℕ) (xs : List ℕ) → length xs ≤ n → take n xs ≡ xs
take-within zero [] h = refl
take-within (suc n) [] h = refl
take-within zero (x ∷ xs) h = absurd (omega arith)
take-within (suc n) (x ∷ xs) h = ap (λ l. x ∷ l) (take-within n xs (omega arith))

take-prefix : (xs ys : List ℕ) (n : ℕ) → length xs ≡ n → take n (xs ++ ys) ≡ xs
take-prefix xs ys n h = ap (λ m. take m (xs ++ ys)) (sym h) ∙ take-length xs ys

within_limit :
    (limit : ℕ) (ids : List ℕ) → (limit ≡ 0) ⊎ (length ids ≤ limit) → bounded limit ids ≡ ids
within_limit limit ids (inl h) =
    let unlimited : (limit == 0) ≡ true = ground arith in rw unlimited refl
within_limit limit ids (inr h) = elim (Bool-cases (limit == 0)) [
  | inl unlimited ↦ rw unlimited refl
  | inr limited ↦ rw limited (take-within limit ids h)
]

-- At the end nothing is cut off.
all_within :
    (call : Call) (g : Gids) (c : Client)
    → Ready call g
    → Ends call (g.groups ++ []) (got (success, g) c)
all_within call g c (h1, h2, h3) =
    let none_left = append-nil g.groups in
    let all : bounded call.limit g.groups ≡ g.groups = within_limit call.limit g.groups h3 in
    let counted : (call.limit == 0 || leb (length g.groups) call.limit) ≡ true = ground arith in
    (g.size, c, rw (none_left, counted, all) refl)

-- With the limit reached, what is left is not collected.
all_full :
    (call : Call) (g : Gids) (gid : ℕ) (more : List ℕ) (c : Client)
    → 0 < call.limit
    → length g.groups ≡ call.limit
    → Ends call (g.groups ++ gid ∷ more) (got (tryagain, g) c)
all_full call g gid more c h e =
    let limited : (call.limit == 0) ≡ false = ground arith in
    let many : leb (length (g.groups ++ gid ∷ more)) call.limit ≡ false =
      ground (arith, length-append g.groups (gid ∷ more)) in
    let cut = take-prefix g.groups (gid ∷ more) call.limit e in
    (g.size, c, rw (limited, many, cut) refl)

-- What a round does with the identifier of a group.
data Taken (call : Call) (r : Group) (rs : List Group) (g : Gids) (c : Client) : Type 0 where
  stops :
      Ends call (g.groups ++ kept call.skipgroup (r ∷ rs)) (got (tryagain, g) c)
      → take_gid call r.gr_gid g c ≡ got (tryagain, g) c
      → Taken call r rs g c
  goes_on :
      (g' : Gids)
      → Ready call g'
      → g'.groups ++ kept call.skipgroup rs ≡ g.groups ++ kept call.skipgroup (r ∷ rs)
      → take_gid call r.gr_gid g c ≡ got (success, g') c
      → Taken call r rs g c

take_gid_lem :
    (call : Call) (r : Group) (rs : List Group) (g : Gids) (c : Client)
    → ((size : ℕ) → call.given size ≡ true)
    → Ready call g
    → Taken call r rs g c
unfolding take_gid
take_gid_lem call r rs g c given ready = elim (Bool-cases (r.gr_gid == call.skipgroup)) [
  | inl skip ↦ goes_on g ready (rw skip refl) (rw skip refl)
  | inr keep ↦ elim (add_gid_lem call r.gr_gid g c given ready) [
    | full h e added ↦
        stops (rw keep (all_full call g r.gr_gid (kept call.skipgroup rs) c h e)) (rw keep added)
    | room size ready' added ↦
        goes_on (record { groups = g.groups ++ r.gr_gid ∷ []; size = size }) ready'
          (rw keep (append_assoc g.groups (r.gr_gid ∷ []) (kept call.skipgroup rs))) (rw keep added)
  ]
]

module _ (call : Call) (rest : Bytes) (n p o : ℕ)
    (given : (size : ℕ) → call.given size ≡ true) where
  abbrev at : List Item → Client
  at items = client (sent items rest) n p o

  -- From the reading of the next result code on.
  abbrev Continues : ℕ → List Group → List ℕ → Gids → Type 0
  Continues f rs all g =
      Ends call all ((read_int32 >>= (λ res. read_gids f call res g)) (at (following rs)))

  -- One round of the loop, before the next result code is read.
  round :
      (f : ℕ) (r : Group) (rs : List Group) (g : Gids)
      → Skippable r
      → Ready call g
      → ((g' : Gids) → Ready call g' → Continues f rs (g'.groups ++ kept call.skipgroup rs) g')
      → Ends call
          (g.groups ++ kept call.skipgroup (r ∷ rs))
          (read_gids (suc f) call nslcd_result_begin g (at (group_items r ++ following rs)))
  unfolding read_gids
  round f r rs g s ready next =
      let c = at (following rs) in
      let first =
        then_lem read_gid _ (at (group_items r ++ following rs)) false r.gr_gid c
          (read_gid_lem r (following rs) rest n p o s) in
      elim (take_gid_lem call r rs g c given ready) [
        | stops ends taken ↦
            subst (Ends call (g.groups ++ kept call.skipgroup (r ∷ rs)))
              (sym (first ∙ then_lem (take_gid call r.gr_gid g) _ c false (tryagain, g) c taken))
              ends
        | goes_on g' ready' same taken ↦
            subst
              (λ all.
                Ends call all (
                  read_gids (suc f) call nslcd_result_begin g (at (group_items r ++ following rs))))
              same
              (subst (Ends call (g'.groups ++ kept call.skipgroup rs))
                (sym (first ∙ then_lem (take_gid call r.gr_gid g) _ c false (success, g') c taken))
                (next g' ready'))
      ]

  last_code : (f : ℕ) (g : Gids) → Ready call g → Continues (suc f) [] (g.groups ++ []) g
  unfolding read_gids
  last_code f g ready =
      subst (Ends call (g.groups ++ []))
        (sym (
          then_lem read_int32 _ (at (following [])) false nslcd_result_end (at [])
            (int32_item [] rest n p o nslcd_result_end (omega arith))))
        (all_within call g (at []) ready)

  next_code :
      (f : ℕ) (r : Group) (rs : List Group) (g : Gids) (all : List ℕ)
      → Ends call all (read_gids f call nslcd_result_begin g (at (group_items r ++ following rs)))
      → Continues f (r ∷ rs) all g
  next_code f r rs g all ends =
      let items = group_items r ++ following rs in
      subst (Ends call all)
        (sym (
          then_lem read_int32 (λ res. read_gids f call res g) (at (following (r ∷ rs))) false
            nslcd_result_begin (at items)
            (int32_item items rest n p o nslcd_result_begin (omega arith))))
        ends

  loop :
      (f : ℕ) (r : Group) (rs : List Group) (g : Gids)
      → length rs + 2 ≤ f
      → All Skippable (r ∷ rs)
      → Ready call g
      → Ends call
          (g.groups ++ kept call.skipgroup (r ∷ rs))
          (read_gids f call nslcd_result_begin g (at (group_items r ++ following rs)))
  loop zero r rs g h s ready = absurd (omega arith)
  loop (suc zero) r rs g h s ready = absurd (omega arith)
  loop (suc (suc f)) r [] g h (s, ss) ready =
      round (suc f) r [] g s ready (λ g' ready'. last_code f g' ready')
  loop (suc (suc f)) r (r' ∷ rs) g h (s, ss) ready =
      round (suc f) r (r' ∷ rs) g s ready
        (λ g' ready'. next_code (suc f) r' rs g' _ (loop (suc f) r' rs g' (omega arith) ss ready'))

-- From an array with room that does not pass the limit, where memory is given, read_gids() on the
-- answer ends with the identifiers that were there and those of the answer's groups, in order and
-- without the one to leave out, cut off at the limit; it is NSS_STATUS_TRYAGAIN exactly if something
-- was cut off.  Fuel of two more than the groups behind the first is enough.
pub read_gids_lem :
    (call : Call) (r : Group) (rs : List Group) (g : Gids) (rest : Bytes) (n p o fuel : ℕ)
    → ((size : ℕ) → call.given size ≡ true)
    → All Skippable (r ∷ rs)
    → Ready call g
    → length rs + 2 ≤ fuel
    → Ends call (g.groups ++ kept call.skipgroup (r ∷ rs)) (
        read_gids fuel call nslcd_result_begin g
          (client (sent (group_items r ++ following rs) rest) n p o))
read_gids_lem call r rs g rest n p o fuel given s ready h =
    loop call rest n p o given fuel r rs g h s ready
