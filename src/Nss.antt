-- ===== src/Nss.antt =====
-- nss/common.h, nss/passwd.c, nss/group.c, nss/shadow.c and nss/netgroup.c: the client's side of a
-- lookup, from the answer on the stream to the caller's struct and buffer.
pub mod Gids
pub mod RoundTrip
use nss_pam_ldapd.Prelude.{
  ℕ, zero, suc, ◌+◌, ◌-◌, Bool, true, false, ◌&&◌, List, [], ◌∷◌, Option, none, some, ◌==◌,
  if◌then◌else◌,
}
use nss_pam_ldapd.Bytes.{head_byte, Bytes}
use nss_pam_ldapd.Protocol.{nslcd_version, nslcd_result_begin}
use nss_pam_ldapd.Protocol.Client.{
  Client, M, Read, read_error, got, read_int32, read_buf_string, read_buf_stringlist, ◌>>=◌, return,
}

-- struct passwd
pub record Passwd : Type 0 where
  pub pw_name : Bytes
  pub pw_passwd : Bytes
  pub pw_uid : ℕ
  pub pw_gid : ℕ
  pub pw_gecos : Bytes
  pub pw_dir : Bytes
  pub pw_shell : Bytes

unfoldable pub read_passwd : M Passwd
read_passwd = do
  name ← read_buf_string
  passwd ← read_buf_string
  uid ← read_int32
  gid ← read_int32
  gecos ← read_buf_string
  dir ← read_buf_string
  shell ← read_buf_string
  return (record {
    pw_name = name;
    pw_passwd = passwd;
    pw_uid = uid;
    pw_gid = gid;
    pw_gecos = gecos;
    pw_dir = dir;
    pw_shell = shell;
  })

-- struct group
pub record Group : Type 0 where
  pub gr_name : Bytes
  pub gr_passwd : Bytes
  pub gr_gid : ℕ
  pub gr_mem : List Bytes

unfoldable pub read_group : M Group
read_group = do
  name ← read_buf_string
  passwd ← read_buf_string
  gid ← read_int32
  members ← read_buf_stringlist
  return (record { gr_name = name; gr_passwd = passwd; gr_gid = gid; gr_mem = members })

-- struct spwd, whose numbers are those of the 32 bits on the stream
pub record Spwd : Type 0 where
  pub sp_namp : Bytes
  pub sp_pwdp : Bytes
  pub sp_lstchg : ℕ
  pub sp_min : ℕ
  pub sp_max : ℕ
  pub sp_warn : ℕ
  pub sp_inact : ℕ
  pub sp_expire : ℕ
  pub sp_flag : ℕ

unfoldable pub read_spwd : M Spwd
read_spwd = do
  name ← read_buf_string
  passwd ← read_buf_string
  lstchg ← read_int32
  min ← read_int32
  max ← read_int32
  warn ← read_int32
  inact ← read_int32
  expire ← read_int32
  flag ← read_int32
  return (record {
    sp_namp = name;
    sp_pwdp = passwd;
    sp_lstchg = lstchg;
    sp_min = min;
    sp_max = max;
    sp_warn = warn;
    sp_inact = inact;
    sp_expire = expire;
    sp_flag = flag;
  })

-- struct __netgrent, where a part that is NULL is `none`
pub data Netgrent : Type 0 where
  group_val : Bytes → Netgrent
  triple_val : Option Bytes → Option Bytes → Option Bytes → Netgrent

-- NSS_STATUS_SUCCESS, NSS_STATUS_RETURN and NSS_STATUS_NOTFOUND
pub data Line : Type 0 where
  entry : Netgrent → Line
  end_of_netgroup : Line
  unexpected : Line

-- a part of a triple: an empty string becomes NULL, and gives the byte of its NUL back
abbrev pub drop_empty : Bytes → M (Option Bytes)
drop_empty s c =
    if head_byte s == 0 then got none (record c { bufptr = c.bufptr - 1 }) else got (some s) c

unfoldable pub read_triple_part : M (Option Bytes)
read_triple_part = do s ← read_buf_string; drop_empty s

abbrev pub netgroup_type_netgroup : ℕ
netgroup_type_netgroup = 1

abbrev pub netgroup_type_triple : ℕ
netgroup_type_triple = 2

abbrev pub netgroup_type_end : ℕ
netgroup_type_end = 3

unfoldable pub read_group_val : M Line
read_group_val = do group ← read_buf_string; return (entry (group_val group))

unfoldable pub read_triple_val : M Line
unfolding read_triple_part
read_triple_val = do
  host ← read_triple_part
  user ← read_triple_part
  domain ← read_triple_part
  return (entry (triple_val host user domain))

unfoldable pub read_netgrent_type : ℕ → M Line
unfolding read_group_val read_triple_val
read_netgrent_type type =
    if type == netgroup_type_netgroup
    then read_group_val
    else if type == netgroup_type_triple
    then read_triple_val
    else if type == netgroup_type_end
    then return end_of_netgroup
    else return unexpected

unfoldable pub read_netgrent_line : M Line
unfolding read_netgrent_type
read_netgrent_line = do type ← read_int32; read_netgrent_type type

abbrev read_failed : {A : Type 0} → M A
read_failed c = read_error

-- the end of NSLCD_REQUEST: the version and the action that the answer begins with
unfoldable pub read_expected : ℕ → M (Unit {0})
read_expected number = do code ← read_int32; if code == number then return tt else read_failed

unfoldable pub read_header : ℕ → M (Unit {0})
unfolding read_expected
read_header action = do u ← read_expected nslcd_version; read_expected action

-- READ_RESPONSE_CODE and the reading of a result; `none` is NSS_STATUS_NOTFOUND
unfoldable pub read_coded : {A : Type 0} → M A → ℕ → M (Option A)
read_coded readfn code =
    if code == nslcd_result_begin then (do a ← readfn; return (some a)) else return none

unfoldable pub read_result : {A : Type 0} → M A → M (Option A)
unfolding read_coded
read_result readfn = do code ← read_int32; read_coded readfn code

-- NSS_GETONE from the answer on to what the reader returns; the rest of the stream is skipped and it is
-- closed behind that
unfoldable pub get_one : {A : Type 0} → ℕ → M A → M (Option A)
unfolding read_header read_result
get_one action readfn = do u ← read_header action; read_result readfn
