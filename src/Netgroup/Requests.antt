-- ===== src/Netgroup/Requests.antt =====
-- nslcd/netgroup.c: the handlers of the requests for netgroups, and the filter of their searches.
use nss_pam_ldapd.Prelude.{ℕ, List, Option, none, some}
use nss_pam_ldapd.Bytes.{Bytes}
use nss_pam_ldapd.Outcome.{Outcome, ok}
use nss_pam_ldapd.Attmap.{Entry}
use nss_pam_ldapd.Ldap.{Search, myldap_escape}
use nss_pam_ldapd.Handler.{Reply, handle}
use nss_pam_ldapd.Protocol.{Item}
use nss_pam_ldapd.Protocol.Client.{Client, read_string}
use nss_pam_ldapd.Passwd.Requests.{filter_text, with_name, answer_read}
use nss_pam_ldapd.Netgroup.{Settings, write_netgroup}

abbrev pub netgroup_byname : ℕ
netgroup_byname = 0x60001

abbrev pub netgroup_all : ℕ
netgroup_all = 0x60008

-- netgroup_filter, netgroup_bases and the search in the scope
pub record NetgroupRequest : Type 0 where
  pub filter : Bytes
  pub bases : List Bytes
  pub lookup : Bytes → Bytes → Search

module _ (settings : Settings) (request : NetgroupRequest) where
  unfoldable pub mkfilter_netgroup_byname : Bytes → Option Bytes
  unfolding filter_text
  mkfilter_netgroup_byname name = with_name request.filter settings.cn (myldap_escape name 300)

  abbrev written : Option Bytes → Entry → Outcome (List Item)
  written reqname entry = ok (write_netgroup settings entry reqname)

  unfoldable pub answer_netgroup : Bytes → Outcome Reply
  unfolding mkfilter_netgroup_byname
  answer_netgroup name =
      handle netgroup_byname request.lookup (written (some name)) request.bases
        (mkfilter_netgroup_byname name)

  unfoldable pub nslcd_netgroup_byname : Client → Outcome Reply
  unfolding answer_netgroup
  nslcd_netgroup_byname c = answer_read answer_netgroup (read_string 256 c)

  unfoldable pub nslcd_netgroup_all : Outcome Reply
  nslcd_netgroup_all =
      handle netgroup_all request.lookup (written none) request.bases (some request.filter)
