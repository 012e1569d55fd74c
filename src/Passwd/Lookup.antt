-- ===== src/Passwd/Lookup.antt =====
-- nslcd/passwd.c and nss/passwd.c: what a client learns of a user by name.
use nss_pam_ldapd.Prelude.{
  ℕ, ◌<◌, ◌≡◌, refl, sym, ap, ◌⊎◌, inl, inr, Bool, true, false, List, [], ◌∷◌, ◌++◌, Option, none,
  some, ltb, length, arith, All, Bool-cases, subst,
}
use nss_pam_ldapd.Bytes.{Bytes, =ₛ_iff}
use nss_pam_ldapd.Outcome.{Ensures, holds, Ensures-weaken, Ensures-if}
use nss_pam_ldapd.Attmap.{equal_ignoring_case}
use nss_pam_ldapd.Protocol.{put_items, Item, int32, nslcd_result_end}
use nss_pam_ldapd.Protocol.Client.{Client, Read, got, read_error, buffer_error, read_int32}
use nss_pam_ldapd.Protocol.RoundTrip.{client, fits, then_lem}
use nss_pam_ldapd.Protocol.RoundTrip.Items.{sent, int32_item}
use nss_pam_ldapd.Handler.{Reply}
use nss_pam_ldapd.Handler.Results.{Answer, results, handle-Answer}
use nss_pam_ldapd.Nss.{
  Passwd, read_passwd, read_result, read_coded, read_header, read_expected, get_one,
}
use nss_pam_ldapd.Nss.RoundTrip.{
  passwd_items, SendablePasswd, passwd_room, get_one_lem, some_result, read_passwd_lem,
}
use nss_pam_ldapd.Passwd.{Settings, requested, str_equal}
use nss_pam_ldapd.Passwd.Results.{Allowed}
use nss_pam_ldapd.Passwd.Answer.{write_passwd-Results}
use nss_pam_ldapd.Passwd.Requests.{Request, passwd_byname, mkfilter_passwd_byname, answer_byname}

-- What a client may have read: no answer, NSS_STATUS_NOTFOUND, a buffer that is too small, or a user
-- for whom `P` holds.
pub data Seen (P : Passwd → Type 0) : Read (Option Passwd) → Type 0 where
  unavailable : Seen P read_error
  not_found : (c : Client) → Seen P (got none c)
  too_small : Seen P buffer_error
  user : (u : Passwd) (c : Client) → P u → Seen P (got (some u) c)

equal_ignoring_case-length : (s t : Bytes) → equal_ignoring_case s t ≡ true → length s ≡ length t
unfolding equal_ignoring_case
equal_ignoring_case-length [] [] h = refl
equal_ignoring_case-length [] (d ∷ t) h = cc
equal_ignoring_case-length (c ∷ s) [] h = cc
equal_ignoring_case-length (c ∷ s) (d ∷ t) h = ground (arith, equal_ignoring_case-length s t)

requested-length :
    (ignorecase : Bool) (reqname name : Bytes)
    → requested ignorecase (some reqname) name ≡ true
    → length name ≡ length reqname
unfolding requested str_equal
requested-length true reqname name h = sym (equal_ignoring_case-length reqname name h)
requested-length false reqname name h = ap length (sym ((=ₛ_iff reqname name).0 h))

-- A result for a name that READ_STRING took can be sent.
Allowed-Sendable :
    (settings : Settings) (name : Bytes) (calleruid : ℕ) (r : Passwd)
    → length name < 256
    → Allowed settings (some name) calleruid r
    → SendablePasswd r
Allowed-Sendable settings name calleruid r h (a1, a2, a3, a4, a5, a6, a7, a8, a9, a10) =
    let l = requested-length settings.ignorecase name r.pw_name a3 in
    (omega (arith, l), omega arith, a6, a7, omega arith, omega arith, omega arith)

fits-Seen :
    (P : Passwd → Type 0) (n q o : ℕ) (u : Passwd) (rest : Bytes)
    → P u
    → Seen P (fits n q o (some u) rest)
fits-Seen P n q o u rest h = elim (Bool-cases (ltb n q)) [
  | inl full ↦ rw full too_small
  | inr room ↦ rw room (user u (client rest n q o) h)
]

module _ (settings : Settings) (name : Bytes) (calleruid n o : ℕ) (short : length name < 256) where
  abbrev Good : Passwd → Type 0
  Good = Allowed settings (some name) calleruid

  first-Seen :
      (rs : List Passwd) (end : List Item)
      → (end ≡ []) ⊎ (end ≡ int32 nslcd_result_end ∷ [])
      → All Good rs
      → Seen Good
          (read_result read_passwd (client (sent (results passwd_items rs ++ end) []) n 0 o))
  unfolding read_result read_int32 put_items
  first-Seen [] end (inl e) a =
      subst (λ l. Seen Good (read_result read_passwd (client (sent l []) n 0 o))) (sym e)
        unavailable
  first-Seen [] end (inr e) a =
      let c = client (sent [] []) n 0 o in
      let coded =
        then_lem read_int32 (read_coded read_passwd)
          (client (sent (int32 nslcd_result_end ∷ []) []) n 0 o) false nslcd_result_end c
          (int32_item [] [] n 0 o nslcd_result_end (omega arith)) in
      subst (λ l. Seen Good (read_result read_passwd (client (sent l []) n 0 o))) (sym e)
        (subst (Seen Good) (sym coded) (not_found c))
  first-Seen (r ∷ rs) end h (a, as') =
      let items = results passwd_items rs ++ end in
      let sendable = Allowed-Sendable settings name calleruid r short a in
      let q = passwd_room r in
      subst (Seen Good)
        (sym (
          some_result read_passwd r (passwd_items r ++ items) [] (sent items []) n q o
            (read_passwd_lem r items [] n o sendable)))
        (fits-Seen Good n q o r (sent items []) a)

  Answer-Seen :
      (reply : Reply)
      → Answer passwd_items Good passwd_byname reply
      → Seen Good (get_one passwd_byname read_passwd (client (sent reply.items []) n 0 o))
  Answer-Seen reply (rs, end, e, h, a) =
      let behind = results passwd_items rs ++ end in
      subst (λ l. Seen Good (get_one passwd_byname read_passwd (client (sent l []) n 0 o))) (sym e)
        (subst (Seen Good)
          (sym (get_one_lem passwd_byname read_passwd behind [] n 0 o (omega arith)))
          (first-Seen rs end h a))

-- Whatever the entries of the directory are, what a client reads from the answer to a request for a
-- user by a name of less than 256 bytes is no answer, NSS_STATUS_NOTFOUND, a buffer that is too small,
-- or a user.  The user has a valid name that is the one that was asked for, a number that is not below
-- nss_min_uid, and, if the caller is not root, the password "x" or "*".  The daemon does not run out
-- of fuel; nothing is said where it fails or steps out of a text.
pub answer_byname_lem :
    (settings : Settings) (request : Request) (name : Bytes) (n o : ℕ)
    → length name < 256
    → Ensures
        (λ reply.
          Seen
            (Allowed settings (some name) request.calleruid)
            (get_one passwd_byname read_passwd (client (sent reply.items []) n 0 o)))
        (answer_byname settings request name)
unfolding answer_byname get_one read_header read_expected read_int32 put_items
answer_byname_lem settings request name n o short =
    let user = request.calleruid in
    Ensures-if (settings.isvalidname name)
      (λ valid.
        Ensures-weaken
          (handle-Answer passwd_items (Allowed settings (some name) user) _
            (λ entry.
              write_passwd-Results settings entry (some name) none user request.shadow_uses_ldap tt)
            passwd_byname request.lookup request.bases
            (mkfilter_passwd_byname settings request name))
          (λ reply answer. Answer-Seen settings name user n o short reply answer))
      (λ invalid. holds unavailable)
