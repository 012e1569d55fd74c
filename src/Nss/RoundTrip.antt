-- ===== src/Nss/RoundTrip.antt =====
-- nss/passwd.c and nss/group.c: what the client reads of the results that the daemon writes.
use nss_pam_ldapd.Prelude.{
  ℕ, ◌+◌, ◌^◌, ◌<◌, ◌≡◌, refl, ap, ◌∙◌, ==_iff, ◌==◌, true, false, List, [], ◌∷◌, ◌++◌, some,
  length, arith,
}
use nss_pam_ldapd.Bytes.{Bytes}
use nss_pam_ldapd.Protocol.{Item, int32, string, stringlist, nslcd_version, nslcd_result_begin}
use nss_pam_ldapd.Protocol.Client.{M, got, read_int32}
use nss_pam_ldapd.Protocol.RoundTrip.{client, Short, fits, then_lem, map_lem}
use nss_pam_ldapd.Protocol.RoundTrip.Lists.{ShortList, list_room}
use nss_pam_ldapd.Protocol.RoundTrip.Items.{
  sent, int32_item, int32_step, string_step, stringlist_step, last_step,
}
use nss_pam_ldapd.Nss.{
  Passwd, Group, read_passwd, read_group, read_result, read_coded, read_header, read_expected,
  get_one,
}
use nss_pam_ldapd.Handler.{header}

-- What the daemon writes for a user, behind the code that begins a result.
abbrev pub passwd_items : Passwd → List Item
passwd_items r =
    string r.pw_name
    ∷ string r.pw_passwd
    ∷ int32 r.pw_uid
    ∷ int32 r.pw_gid
    ∷ string r.pw_gecos
    ∷ string r.pw_dir
    ∷ string r.pw_shell
    ∷ []

-- A user whose strings have lengths and whose numbers have values of the protocol.
abbrev pub SendablePasswd : Passwd → Type 0
SendablePasswd r =
    Short r.pw_name
    × Short r.pw_passwd
    × (r.pw_uid < 2 ^ 32)
    × (r.pw_gid < 2 ^ 32)
    × Short r.pw_gecos
    × Short r.pw_dir
    × Short r.pw_shell

-- The bytes that the strings take in the buffer.
abbrev pub passwd_room : Passwd → ℕ
passwd_room r =
    length r.pw_name
    + length r.pw_passwd
    + length r.pw_gecos
    + length r.pw_dir
    + length r.pw_shell
    + 5

-- A result behind the code that begins it, for the reader of an `Option`.
pub some_result :
    {A : Type 0} (m : M A) (a : A) (items : List Item) (rest left : Bytes) (n q o : ℕ)
    → m (client (sent items rest) n 0 o) ≡ fits n q o a left
    → read_result m (client (sent (int32 nslcd_result_begin ∷ items) rest) n 0 o)
      ≡ fits n q o (some a) left
unfolding read_result read_coded
some_result m a items rest left n q o e =
    int32_step (some a) rest left n q o 0 _ items nslcd_result_begin (omega arith)
      (map_lem m some (client (sent items rest) n 0 o) q a (client left n q o) e)

module _ (items : List Item) (rest : Bytes) (n p o : ℕ) where
  expected :
      (i : ℕ)
      → i < 2 ^ 32
      → read_expected i (client (sent (int32 i ∷ items) rest) n p o)
        ≡ got tt (client (sent items rest) n p o)
  unfolding read_expected
  expected i h =
      let same : (i == i) ≡ true = (==_iff i i).1 refl in
      then_lem read_int32 _ (client (sent (int32 i ∷ items) rest) n p o) false i
        (client (sent items rest) n p o) (int32_item items rest n p o i h)
      ∙ rw same refl

-- Behind the header the client reads a result.
pub get_one_lem :
    {A : Type 0} (action : ℕ) (m : M A) (items : List Item) (rest : Bytes) (n p o : ℕ)
    → action < 2 ^ 32
    → get_one action m (client (sent (header action ++ items) rest) n p o)
      ≡ read_result m (client (sent items rest) n p o)
unfolding get_one read_header
get_one_lem action m items rest n p o h =
    let c = client (sent (header action ++ items) rest) n p o in
    let c1 = client (sent (int32 action ∷ items) rest) n p o in
    let c2 = client (sent items rest) n p o in
    let version = expected (int32 action ∷ items) rest n p o nslcd_version (omega arith) in
    let code = expected items rest n p o action h in
    then_lem (read_header action) _ c false tt c2
      (then_lem (read_expected nslcd_version) _ c false tt c1 version ∙ code)

pub read_passwd_lem :
    (r : Passwd) (items : List Item) (rest : Bytes) (n o : ℕ)
    → SendablePasswd r
    → read_passwd (client (sent (passwd_items r ++ items) rest) n 0 o)
      ≡ fits n (passwd_room r) o r (sent items rest)
unfolding read_passwd
read_passwd_lem r items rest n o (h1, h2, h3, h4, h5, h6, h7) =
    let p1 = 0 + length r.pw_name + 1 in
    let p2 = p1 + length r.pw_passwd + 1 in
    let p3 = p2 + length r.pw_gecos + 1 in
    let p4 = p3 + length r.pw_dir + 1 in
    let p5 = p4 + length r.pw_shell + 1 in
    let q = passwd_room r in
    let small : q < 2 ^ 63 = omega arith in
    let left = sent items rest in
    let text = string_step r rest left n q o in
    let number = int32_step r rest left n q o in
    text 0 _ _ r.pw_name h1 small (omega arith) (λ _.
      text p1 _ _ r.pw_passwd h2 small (omega arith) (λ _. number p2 _ _ r.pw_uid h3 (
        number p2 _ _ r.pw_gid h4 (
          text p2 _ _ r.pw_gecos h5 small (omega arith) (λ _.
            text p3 _ _ r.pw_dir h6 small (omega arith) (λ _.
              text p4 _ _ r.pw_shell h7 small (omega arith)
                (λ r5. last_step r rest left n q o p5 (omega arith) r5)))))))

-- A client that asks for one user reads the first result of the answer as the daemon wrote it, and
-- its reader leaves the bytes behind it, if the strings with their NULs fit in the caller's buffer; else it
-- asks for a larger buffer.
pub get_passwd_lem :
    (action : ℕ) (r : Passwd) (items : List Item) (rest : Bytes) (n o : ℕ)
    → action < 2 ^ 32
    → SendablePasswd r
    → get_one action read_passwd (
        client
          (sent (header action ++ int32 nslcd_result_begin ∷ passwd_items r ++ items) rest)
          n
          0
          o)
      ≡ fits n (passwd_room r) o (some r) (sent items rest)
get_passwd_lem action r items rest n o h s =
    get_one_lem action read_passwd (int32 nslcd_result_begin ∷ passwd_items r ++ items) rest n 0 o h
    ∙ some_result read_passwd r (passwd_items r ++ items) rest (sent items rest) n (passwd_room r) o
        (read_passwd_lem r items rest n o s)

-- What the daemon writes for a group, behind the code that begins a result.
abbrev pub group_items : Group → List Item
group_items r = string r.gr_name ∷ string r.gr_passwd ∷ int32 r.gr_gid ∷ stringlist r.gr_mem ∷ []

abbrev pub SendableGroup : Group → Type 0
SendableGroup r = Short r.gr_name × Short r.gr_passwd × (r.gr_gid < 2 ^ 32) × ShortList r.gr_mem

-- The bytes that the name and the password take in the buffer, and then all, when the remainder of
-- the buffer's address by 8 is that of `o`.
abbrev pub names_room : Group → ℕ
names_room r = length r.gr_name + length r.gr_passwd + 2

abbrev pub group_room : ℕ → Group → ℕ
group_room o r = names_room r + list_room o (names_room r) r.gr_mem

read_group_lem :
    (r : Group) (items : List Item) (rest : Bytes) (n o : ℕ)
    → SendableGroup r
    → group_room o r < 2 ^ 63
    → read_group (client (sent (group_items r ++ items) rest) n 0 o)
      ≡ fits n (group_room o r) o r (sent items rest)
unfolding read_group
read_group_lem r items rest n o (h1, h2, h3, h4) small =
    let p1 = 0 + length r.gr_name + 1 in
    let p2 = p1 + length r.gr_passwd + 1 in
    let same : p2 ≡ names_room r = omega arith in
    let q = group_room o r in
    let e : p2 + list_room o p2 r.gr_mem ≡ q = ap (λ p. p + list_room o p r.gr_mem) same in
    let left = sent items rest in
    let text = string_step r rest left n q o in
    text 0 _ _ r.gr_name h1 small (omega arith) (λ _.
      text p1 _ _ r.gr_passwd h2 small (omega arith) (λ _.
        int32_step r rest left n q o p2 _ _ r.gr_gid h3 (
          stringlist_step r rest left n q o p2 _ _ r.gr_mem h4 small (omega (arith, e))
            (λ r5. last_step r rest left n q o (p2 + list_room o p2 r.gr_mem) e r5))))

-- A client that asks for one group reads the first result of the answer as the daemon wrote it,
-- members in order, and its reader leaves the bytes behind it, if the strings with their NULs and the
-- aligned pointers fit in the caller's buffer; else it asks for a larger buffer.
pub get_group_lem :
    (action : ℕ) (r : Group) (items : List Item) (rest : Bytes) (n o : ℕ)
    → action < 2 ^ 32
    → SendableGroup r
    → group_room o r < 2 ^ 63
    → get_one action read_group (
        client
          (sent (header action ++ int32 nslcd_result_begin ∷ group_items r ++ items) rest)
          n
          0
          o)
      ≡ fits n (group_room o r) o (some r) (sent items rest)
get_group_lem action r items rest n o h s small =
    get_one_lem action read_group (int32 nslcd_result_begin ∷ group_items r ++ items) rest n 0 o h
    ∙ some_result read_group r (group_items r ++ items) rest (sent items rest) n (group_room o r) o
        (read_group_lem r items rest n o s small)
