-- ===== src/Lib.antt =====
-- chmpx, a process that carries messages between the servers and slaves of a RING: a verification
-- library for its core logic.
--
-- All processes of a host share one block of memory (CHMSHM), which lib/chmstructure.h lays out and
-- the "lap" classes of lib/chmstructure.tcc work on. This library models those structures and
-- operations. In all of them a 64-bit word is a natural number, a pointer into the block is an
-- address or a position, and an operation is a function from the old state to its result and the new
-- state.
--
-- Status.antt: the status word of a server (lib/chmstructure.h, CHMPXSTS_*), its tests and the
--   CHANGE_CHMPXSTS_* macros (Status/Change.antt). Status/Safe.antt enumerates the words that
--   IS_SAFE_CHMPXSTS accepts; Status/Moves.antt and Status/Hashes.antt hold what the macros and the
--   hash tests promise.
-- Ring.antt: the list of servers with the arrays of the base and the pending hash ring (CHMPX,
--   CHMPXLIST; chmpx_lap, chmpxlist_lap). Ring/Hash.antt and its children prove what UpdateHash
--   leaves behind. Ring/Walk.antt has the walks from node to node.
-- Man.antt: the choice of the servers that a hash value goes to (chmpxman_lap). Man/Route.antt is
--   about the main server, Man/Replicas.antt, Man/Complete.antt and Man/Servers.antt are about the
--   main server with its replicas. Man/Select.antt has the next server on the RING and the servers in
--   turn, Man/SetStatus.antt the changes of a server's status.
-- Msg.antt: the pool of message queues (CHMINFO, MQMSGHEADLIST; mqmsghead_lap, chminfo_lap::AssignMsg,
--   FreeMsg and SetMqFlagStatus). Msg/Invariant.antt says how its four lists share out the messages,
--   Msg/Run.antt is about histories of calls.
-- Log.antt: the history log (CHMLOG; chmlog_lap), a circular array. Log/Read.antt and Log/Write.antt
--   are about what Get returns, Log/Last.antt about what the log holds.
-- Kvp.antt: buffers of bytes and pairs of them (lib/chmkvp.cc, lib/chmkvp.h: ChmBinData,
--   ChmKVPair): set_data, load, put, overwrite and append are the methods of those names, load_pair
--   and put_pair those of a pair. Kvp/Words.antt is about the length in front of the bytes,
--   Kvp/Trip.antt about reading what was written, Kvp/Patch.antt about Overwrite. Memory is a list
--   of bytes, an offset is a number and a direction, and neither overflows.
-- IdMap.antt: the hash table from ids to nodes (chmpxlist_lap::SaveChmpxIdMap and its kin).
-- Exec.antt: programs that read and write a state and can fail; Exec/Keeps.antt has the rules by
--   which such a program keeps a property of the state, Exec/Leads.antt those by which one property
--   leads to another.
-- Merge.antt: how servers join and leave the service and merge their data (lib/chmeventsock.cc,
--   ChmEventSock; lib/chmimdata.cc). Node holds the shared memory and the members of the object that
--   the handlers use; World says what the network, the merge thread, the clock, the client processes
--   and a reload of the configuration do during a call. Merge/Status.antt has the choices of a new
--   status, Merge/Send.antt the packets, Merge/Down.antt what concerns all servers,
--   Merge/Start.antt, Merge/Complete.antt, Merge/Abort.antt and Merge/Service.antt the handlers;
--   Merge/Abort/Stored.antt is about the own status that two of them store, Merge/Down/Target.antt
--   about the servers that are down,
--   Merge/Calls.antt histories of calls. do_merge_start, do_merge_complete and do_merge_abort are
--   MergeStart, MergeComplete and MergeAbort. Merge/Receive.antt has packets that go around the
--   RING as a server receives them, Merge/Settle.antt those that start and complete a merge, whose
--   while-loop has one round of fuel more than the list has servers. The shared memory is attached,
--   memory can be allocated, and the packets of the two versions of the protocol are not told apart.
-- Deliver.antt: the receivers of a message of a client (lib/chmimdata.cc, GetReceiverChmpxids);
--   whether messages are delivered at random is an argument.
-- Util.antt: numbers as strings (lib/chmutil.cc). Strings are lists of character codes.
--
-- Loops are structural recursions over the nodes of a list, or over the number of rounds that the
-- code's for-statement fixes, so that no fuel is needed, but for the while-loop of
-- Merge/Settle.antt. Not modelled: sockets, message queues, files, locks, threads and the TLS
-- libraries, which are system calls and third-party code; the clock is an argument.
pub mod Base
pub mod Exec
pub mod Status
pub mod Ring
pub mod IdMap
pub mod Man
pub mod Msg
pub mod Log
pub mod Kvp
pub mod Merge
pub mod Deliver
pub mod Util
