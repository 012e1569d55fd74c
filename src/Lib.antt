-- ===== src/Lib.antt =====
-- nss-pam-ldapd: the parts of the daemon nslcd, of its shared library and of the NSS module that
-- compute.
--
-- nslcd answers the requests of the NSS and PAM modules from an LDAP directory.  Its lookup modules
-- ask nslcd/attmap.c which attribute, or which expression over attributes, stands for a field;
-- common/expr.c expands and scans the expressions, and collects the attributes to request in a set of
-- common/set.c, which is a dictionary of common/dict.c.  A lookup writes its answer by the macros of
-- common/nslcd-prot.h, in the frame of nslcd/common.h, and the NSS module reads it by the macros of
-- the same file into its caller's buffer.  Both go through the buffers of common/tio.c.
--
--   Expr, Expr/Vars     common/expr.c: expr_parse() and expr_vars()
--   Dict, Dict/Chain    common/dict.c: the hash table and its linked lists
--   Set, Set/Interface  common/set.c, and what the users of sets rely on, where memory is given
--   Tio, Tio/Read, Tio/Write, Tio/Wait, Tio/Close
--                       common/tio.c: the buffers, reading with mark and reset, writing, waiting for
--                       a deadline, skipping and closing
--   Protocol, Protocol/Client
--                       common/nslcd-prot.h: the macros that write, and those that read
--   Nsswitch            nslcd/nsswitch.c: the reader of nsswitch.conf and its cache
--   Attmap              nslcd/attmap.c
--   Common, Common/Search
--                       nslcd/common.c: getfqdn(), get_userpassword(), binsid2id(), strtoui(), and
--                       sid2search()
--   Ldap                nslcd/myldap.c: myldap_escape(), the value of a relative DN, and
--                       myldap_has_objectclass()
--   Handler             nslcd/common.h: the body of every lookup, NSLCD_HANDLE_BODY
--   Ids                 nslcd/passwd.c and nslcd/group.c: the numbers of users and groups
--   Passwd, Passwd/Requests, Passwd/Cache
--                       nslcd/passwd.c: the results of an entry, the handlers with their filters,
--                       uid2entry() and uid2dn(), and dn2uid() with its cache
--   Group, Group/Write, Group/Requests
--                       nslcd/group.c: the members of nested groups, the results of an entry, and the
--                       handlers with their filters
--   Netgroup, Netgroup/Requests
--                       nslcd/netgroup.c: the triples and members of a netgroup, and the handlers
--   Shadow, Shadow/Requests
--                       nslcd/shadow.c: to_date() and get_shadow_properties(), the results of an
--                       entry, and the handlers
--   Usermod             nslcd/usermod.c: nslcd_usermod()
--   Nss, Nss/Gids       nss/common.h, nss/passwd.c, nss/group.c, nss/shadow.c and nss/netgroup.c:
--                       what reads a result, and the groups of a user
--   Prelude, Bytes, Bytes/Number, Outcome
--                       what they share: lists and numbers, C strings, strtol() and strtoul(), and
--                       the outcomes of code that fails
--   Bytes/Number/Length, Bytes/Number/Digits, Expr/Fits, Expr/Bounds, Dict/Table, Dict/Valid,
--   Dict/Laws, Dict/Keys, Set/Laws, Set/Stored, Tio/Read/Stream, Tio/Read/Mark, Tio/Write/Stream,
--   Tio/Write/Drained, Tio/Wait/Deadline, Protocol/RoundTrip and its children, Nsswitch/Services,
--   Nsswitch/Lines, Nsswitch/Freshness, Attmap/Lookup, Common/Sid, Common/Parts, Ldap/Escape,
--   Handler/Results, Handler/Contents, Ids/Bounds, Passwd/Results, Passwd/Answer, Passwd/Lookup,
--   Passwd/Entries, Passwd/Cache/Stored, Group/Members and its children, Group/Answer,
--   Group/Parents, Netgroup/Triple, Shadow/Dates, Shadow/Answer, Usermod/Authority, Nss/RoundTrip,
--   Nss/Gids/Collected
--                       the proofs, named for what they are about
--   Tests, Tests/Lookups, Tests/Answers, Tests/Groups
--                       the theorems at concrete inputs
--
-- A C string is the list of its bytes without the NUL, and a cursor in it is what follows it.  A
-- cursor that would step over the NUL is the outcome `overrun`, and so is the final code of a lookup
-- without a search base, which C reads from a variable that was never set; NULL for a failure is
-- `fail`.  Functions keep their names; a loop, a branch or a case of a switch that is a function of
-- its own says in its comment which it is.  What the system answers (malloc, poll, read, send, stat,
-- the LDAP library) is an argument: a Boolean for a request for memory, a list of events for a file
-- descriptor, a record of functions for a host, a `Search` for what an LDAP search gives.
-- isvalidname(), a regular expression of the C library, is a function of the settings.
--
-- An answer is a list of items, one for each macro that writes; `put_items` makes its bytes.  The
-- client is the bytes that it has still to read and the place in its buffer, with the remainder of
-- the buffer's address, which decides how pointers are aligned.
--
-- Loops that move a cursor are recursion on fuel: the length of the text and one more for
-- expr_parse(), expr_vars(), has_service() and sid2search(), since each round takes a byte at least;
-- the number of events and one more for tio_write(), since each round but the last uses an event; two
-- more than the groups behind the first for read_gids(); and more than twice the DNs of a directory
-- for the loops over nested groups and over the groups of a member, since each round takes a DN from
-- a set that a DN enters once.  Running out is the outcome `out_of_fuel` (`none` for the nested groups), or `blocked` for a call
-- that still waits when its events are used up.
--
-- A char is signed, as on x86, an int has 32 bits, and long and size_t have 64.  The counters of the
-- dictionary, whose C type is int, and times are natural numbers without a bound.  One answer of
-- realloc() stands for all requests in a call of tio_write().  A wait inside tio_read() and
-- tio_write() is one answer, whose deadline is modelled in Tio/Wait only.  In the lookups of groups
-- every request for memory is granted.  Where dn2uid() gives up the lock of its cache for a search,
-- what other threads do is a function of the cache.
--
-- A line of nsswitch.conf comes in the pieces that fgets() makes of it.  The milliseconds of a deadline
-- are truncated to an int, as C returns them.  What sid2search() writes is compared with the memory
-- that it asks for by its theorem only, since the code does not test it.
--
-- Not modelled: freeing memory, logging, and the modules that are calls of the LDAP library, of the
-- system or of macros: the sessions and searches of nslcd/myldap.c, nslcd/cfg.c, nslcd/nslcd.c,
-- nslcd/pam.c, the lookups of the other maps, the initialisation of the lookups, shadow_uid2entry(),
-- the end of a client's lookup, which skips the rest of the stream and closes it, the enumerations and
-- the other maps of nss/, pam/ and compat/.
pub mod Prelude
pub mod Bytes
pub mod Outcome
pub mod Expr
pub mod Dict
pub mod Set
pub mod Tio
pub mod Nsswitch
pub mod Attmap
pub mod Common
pub mod Shadow
pub mod Protocol
pub mod Nss
pub mod Ldap
pub mod Handler
pub mod Ids
pub mod Passwd
pub mod Group
pub mod Netgroup
pub mod Usermod
mod Tests
