-- ===== src/Shadow/Requests.antt =====
-- nslcd/shadow.c: write_shadow() and the handlers of the requests for shadow entries.
use nss_pam_ldapd.Prelude.{
  ℕ, ◌%◌, ◌^◌, Bool, ◌&&◌, List, [], ◌∷◌, ◌++◌, Option, none, some, if◌then◌else◌, false,
}
use nss_pam_ldapd.Prelude.Int.{ℤ}
use nss_pam_ldapd.Bytes.{Bytes}
use nss_pam_ldapd.Outcome.{Outcome, ok, ◌>>=◌}
use nss_pam_ldapd.Attmap.{Entry}
use nss_pam_ldapd.Common.{get_userpassword}
use nss_pam_ldapd.Ldap.{Search, myldap_escape}
use nss_pam_ldapd.Handler.{Reply, reply, handle}
use nss_pam_ldapd.Protocol.{Item, int32, string, nslcd_result_begin}
use nss_pam_ldapd.Protocol.Client.{Client, read_string}
use nss_pam_ldapd.Passwd.{values_of, requested, for_caller}
use nss_pam_ldapd.Passwd.Requests.{filter_text, with_name, answer_read}
use nss_pam_ldapd.Shadow.{Attributes, Properties, get_shadow_properties, to_ulong}

abbrev pub shadow_byname : ℕ
shadow_byname = 0xc0001

abbrev pub shadow_all : ℕ
shadow_all = 0xc0008

-- The settings and the variables of the attribute mapping, shadow_filter, shadow_bases and the search
-- in the scope, and who asks.
pub record ShadowRequest : Type 0 where
  pub ignorecase : Bool
  pub isvalidname : Bytes → Bool
  pub uid : Bytes
  pub user_password : Bytes
  pub attributes : Attributes
  pub filter : Bytes
  pub bases : List Bytes
  pub lookup : Bytes → Bytes → Search
  pub calleruid : ℕ

-- WRITE_INT32 of a long
abbrev pub put_long : ℤ → Item
put_long v = int32 (to_ulong v % 2 ^ 32)

-- what is written for a name
abbrev pub shadow_items : Bytes → Bytes → Properties → List Item
shadow_items name passwd p =
    string name
    ∷ string passwd
    ∷ put_long p.lastchangedate
    ∷ put_long p.mindays
    ∷ put_long p.maxdays
    ∷ put_long p.warndays
    ∷ put_long p.inactdays
    ∷ put_long p.expiredate
    ∷ int32 (p.flag % 2 ^ 32)
    ∷ []

module _ (request : ShadowRequest) where
  -- the loop over the names
  unfoldable pub write_shadow_names : Option Bytes → Bytes → Properties → List Bytes → List Item
  write_shadow_names requser passwd p [] = []
  write_shadow_names requser passwd p (name ∷ names) =
      let rest = write_shadow_names requser passwd p names in
      if requested request.ignorecase requser name && request.isvalidname name
      then int32 nslcd_result_begin ∷ shadow_items name passwd p ++ rest
      else rest

  abbrev pub write_shadow_user : Entry → Option Bytes → List Bytes → Outcome (List Item)
  write_shadow_user entry requser [] = ok []
  write_shadow_user entry requser (name ∷ names) = do
    passwd ← for_caller request.calleruid (get_userpassword entry request.user_password 256)
    properties ← get_shadow_properties entry request.attributes
    ok (write_shadow_names requser passwd properties (name ∷ names))

  unfoldable pub write_shadow : Entry → Option Bytes → Outcome (List Item)
  unfolding write_shadow_names
  write_shadow entry requser = write_shadow_user entry requser (values_of entry request.uid)

  unfoldable pub mkfilter_shadow_byname : Bytes → Option Bytes
  unfolding filter_text
  mkfilter_shadow_byname name = with_name request.filter request.uid (myldap_escape name 300)

  abbrev written : Option Bytes → Entry → Outcome (List Item)
  written requser entry = write_shadow entry requser

  unfoldable pub answer_shadow : Bytes → Outcome Reply
  unfolding mkfilter_shadow_byname
  answer_shadow name =
      if request.isvalidname name
      then handle shadow_byname request.lookup (written (some name)) request.bases
          (mkfilter_shadow_byname name)
      else reply false []

  unfoldable pub nslcd_shadow_byname : Client → Outcome Reply
  unfolding answer_shadow
  nslcd_shadow_byname c = answer_read answer_shadow (read_string 256 c)

  unfoldable pub nslcd_shadow_all : Outcome Reply
  nslcd_shadow_all =
      handle shadow_all request.lookup (written none) request.bases (some request.filter)
