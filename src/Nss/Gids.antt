-- ===== src/Nss/Gids.antt =====
-- nss/group.c: read_gids() collects the identifiers of the groups of a user.
pub mod Collected
use nss_pam_ldapd.Prelude.{
  ℕ, zero, suc, ◌+◌, ◌*◌, Bool, true, false, ◌&&◌, not, List, [], ◌∷◌, ◌++◌, ltb, leb, ◌==◌,
  if◌then◌else◌, length,
}
use nss_pam_ldapd.Bytes.{Bytes}
use nss_pam_ldapd.Protocol.{nslcd_result_begin}
use nss_pam_ldapd.Protocol.Client.{
  Client, M, Read, corrupt, out_of_fuel, got, read_int32, skip_string, skip_stringlist, ◌>>=◌,
  return,
}

-- The array of the caller up to *start, and *size.
pub record Gids : Type 0 where
  pub groups : List ℕ
  pub size : ℕ

-- NSS_STATUS_SUCCESS and NSS_STATUS_TRYAGAIN
pub data Status : Type 0 where
  success tryagain : Status

-- The arguments of a call: the group to leave out, the limit, where 0 stands for none, and whether
-- realloc() gives an array of a size.
pub record Call : Type 0 where
  pub skipgroup : ℕ
  pub limit : ℕ
  pub given : ℕ → Bool

abbrev pub reached : Call → Gids → Bool
reached call g = ltb 0 call.limit && leb call.limit (length g.groups)

-- the part of the loop for a group that is to be added; a write behind the array is `corrupt`
unfoldable pub add_gid : Call → ℕ → Gids → M (Status × Gids)
add_gid call gid g =
    let added : ℕ → Gids = λ size. record { groups = g.groups ++ gid ∷ []; size = size } in
    let newsize = if reached call g then call.limit else 2 * g.size in
    if reached call g
    then return (tryagain, g)
    else if ltb (length g.groups) g.size
    then return (success, added g.size)
    else if not (call.given newsize)
    then return (tryagain, g)
    else if ltb (length g.groups) newsize
    then return (success, added newsize)
    else λ c. corrupt

unfoldable pub take_gid : Call → ℕ → Gids → M (Status × Gids)
unfolding add_gid
take_gid call gid g = if gid == call.skipgroup then return (success, g) else add_gid call gid g

-- The identifier in a result.
unfoldable pub read_gid : M ℕ
read_gid = do
  name ← skip_string
  passwd ← skip_string
  gid ← read_int32
  members ← skip_stringlist
  return gid

abbrev unless_full : {A : Type 0} → Status → M A → M A → M A
unless_full success next full = next
unless_full tryagain next full = full

-- the loop from the test of the result code on
unfoldable pub read_gids : ℕ → Call → ℕ → Gids → M (Status × Gids)
unfolding read_gid take_gid
read_gids zero call res g = λ c. out_of_fuel
read_gids (suc fuel) call res g =
    if res == nslcd_result_begin
    then (do
      gid ← read_gid
      r ← take_gid call gid g
      unless_full r.0 (read_int32 >>= (λ res'. read_gids fuel call res' r.1)) (return r))
    else return (success, g)
