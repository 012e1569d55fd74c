-- ===== src/Passwd/Requests.antt =====
-- nslcd/passwd.c: the handlers of the requests for users, and the filters of their searches.
use nss_pam_ldapd.Prelude.{
  take, ◌∷◌, ℕ, ◌+◌, ◌-◌, ◌%◌, Bool, false, List, [], ◌++◌, Option, none, some, ltb, if◌then◌else◌,
  length,
}
use nss_pam_ldapd.Bytes.{Bytes, bytes}
use nss_pam_ldapd.Bytes.Number.{put_decimal}
use nss_pam_ldapd.Outcome.{Outcome, ok, overrun, ◌>>=◌}
use nss_pam_ldapd.Attmap.{Entry}
use nss_pam_ldapd.Common.Search.{little_endian}
use nss_pam_ldapd.Ids.{id_mod}
use nss_pam_ldapd.Ldap.{Search, failed, found, myldap_escape}
use nss_pam_ldapd.Handler.{Reply, reply, handle, empty_reply}
use nss_pam_ldapd.Protocol.{Item}
use nss_pam_ldapd.Protocol.Client.{
  Client, Read, got, read_error, buffer_error, corrupt, out_of_fuel, read_string, read_int32,
}
use nss_pam_ldapd.Passwd.{Settings, write_passwd, entry_has_valid_uid}

abbrev pub passwd_byname : ℕ
passwd_byname = 524289

abbrev pub passwd_byuid : ℕ
passwd_byuid = 524290

abbrev pub passwd_all : ℕ
passwd_all = 524296

-- mysnprintf() into a buffer of BUFLEN_FILTER bytes
unfoldable pub filter_text : Bytes → Option Bytes
filter_text text = if ltb (length text) 4096 then some text else none

-- The filter of the map, passwd_filter, the search bases and the scope's search, what
-- nsswitch_shadow_uses_ldap() answers, uidSid as escaped text, and who asks.
pub record Request : Type 0 where
  pub filter : Bytes
  pub bases : List Bytes
  pub lookup : Bytes → Bytes → Search
  pub shadow_uses_ldap : Bool
  pub uid_sid : Bytes
  pub calleruid : ℕ

abbrev pub equality : Bytes → Bytes → Bytes → Bytes
equality filter attr value =
    bytes "(&" ++ filter ++ bytes "(" ++ attr ++ bytes "=" ++ value ++ bytes "))"

abbrev pub with_name : Bytes → Bytes → Option Bytes → Option Bytes
with_name filter attr none = none
with_name filter attr (some safename) = filter_text (equality filter attr safename)

module _ (settings : Settings) (request : Request) where
  unfoldable pub mkfilter_passwd_byname : Bytes → Option Bytes
  unfolding filter_text
  mkfilter_passwd_byname name = with_name request.filter settings.uid (myldap_escape name 300)

  unfoldable pub mkfilter_passwd_byuid : ℕ → Option Bytes
  unfolding filter_text
  mkfilter_passwd_byuid uid =
      let id = (uid + id_mod - settings.nss_uid_offset % id_mod) % id_mod in
      let value =
        if settings.uid_sid then request.uid_sid ++ little_endian id else put_decimal id in
      filter_text (equality request.filter settings.uid_number value)

  abbrev written : Option Bytes → Option ℕ → Entry → Outcome (List Item)
  written requser requid entry =
      write_passwd settings entry requser requid request.calleruid request.shadow_uses_ldap

  -- the handler for a name that was read
  unfoldable pub answer_byname : Bytes → Outcome Reply
  unfolding mkfilter_passwd_byname
  answer_byname name =
      if settings.isvalidname name
      then handle passwd_byname request.lookup (written (some name) none) request.bases
          (mkfilter_passwd_byname name)
      else reply false []

  unfoldable pub answer_byuid : ℕ → Outcome Reply
  unfolding mkfilter_passwd_byuid
  answer_byuid uid =
      if ltb uid settings.nss_min_uid
      then empty_reply passwd_byuid
      else handle passwd_byuid request.lookup (written none (some uid)) request.bases
          (mkfilter_passwd_byuid uid)

  unfoldable pub nslcd_passwd_all : Outcome Reply
  nslcd_passwd_all =
      handle passwd_all request.lookup (written none none) request.bases (some request.filter)

-- ERROR_OUT_READERROR and ERROR_OUT_BUFERROR return -1
abbrev pub answer_read : {A : Type 0} → (A → Outcome Reply) → Read A → Outcome Reply
answer_read answer (got a c) = answer a
answer_read answer read_error = reply false []
answer_read answer buffer_error = reply false []
answer_read answer corrupt = reply false []
answer_read answer out_of_fuel = reply false []

unfoldable pub nslcd_passwd_byname : Settings → Request → Client → Outcome Reply
unfolding answer_byname
nslcd_passwd_byname settings request c =
    answer_read (answer_byname settings request) (read_string 256 c)

unfoldable pub nslcd_passwd_byuid : Settings → Request → Client → Outcome Reply
unfolding answer_byuid
nslcd_passwd_byuid settings request c = answer_read (answer_byuid settings request) (read_int32 c)

abbrev pub left_by : Settings → Request → Option Bytes → Outcome Bytes
left_by settings request none = overrun
left_by settings request (some safename) =
    ok (take 4095 (equality request.filter settings.uid safename))

-- What mkfilter_passwd_byname() leaves in the buffer of uid2entry(), which does not look at its
-- result: a text that was cut off, or, where the name is too long to be escaped, nothing.
unfoldable pub filter_left : Settings → Request → Bytes → Outcome Bytes
filter_left settings request name = left_by settings request (myldap_escape name 300)

module _ (settings : Settings) (lookup : Bytes → Search) where
  abbrev pub next_base : Outcome (Option Entry) → Search → Outcome (Option Entry)
  next_base rest failed = ok none
  next_base rest (found [] complete) = rest
  next_base rest (found (entry ∷ entries) complete) = do
    valid ← entry_has_valid_uid settings entry
    if valid then ok (some entry) else rest

  -- the loop over the bases
  unfoldable pub first_entry : List Bytes → Outcome (Option Entry)
  first_entry [] = ok none
  first_entry (base ∷ bases) = next_base (first_entry bases) (lookup base)

-- the entry of a user, without the result code in *rcp
unfoldable pub uid2entry : Settings → Request → Bytes → Outcome (Option Entry)
unfolding filter_left first_entry
uid2entry settings request uid =
    if settings.isvalidname uid
    then (do
      filter ← filter_left settings request uid
      first_entry settings (λ base. request.lookup base filter) (take 31 request.bases))
    else ok none

abbrev copy_dn : ℕ → Option Entry → Option Bytes
copy_dn buflen none = none
copy_dn buflen (some entry) = if ltb (length entry.dn) buflen then some entry.dn else none

unfoldable pub uid2dn : Settings → Request → Bytes → ℕ → Outcome (Option Bytes)
unfolding uid2entry
uid2dn settings request uid buflen = do
  entry ← uid2entry settings request uid
  ok (copy_dn buflen entry)
