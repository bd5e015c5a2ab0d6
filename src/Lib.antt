-- ===== src/Lib.antt =====
-- A verification library of vosfs, a distributed file system whose metadata is a file tree that a
-- Raft cluster replicates.
--
-- The program's core is the raft node (src/raft and include/vosfs/raft). A node keeps a log of
-- commands, agrees on it with the other members, writes it to RocksDB, and applies what is
-- committed to a tree of inodes and directory entries; every tenth entry it saves the tree as a
-- snapshot file, which a member that lags behind receives in chunks. Clients list and make
-- directories and prepare and finish uploads; the blocks themselves go to storage nodes.
--
-- The modules:
-- - Common: numbers with the wrap-around of uint64_t (Words), Boolean tests and the chaining of
--   results that may be missing (Tests), lists over native numbers (Lists), byte strings and
--   find_last_of (Text), std::to_string (Decimal), signed integers (Int), std::stoull (Parse),
--   std::unordered_map as an association list with emplace, operator[] and find (Map), and the
--   results of include/vosfs/common/error.hpp (Result). The order in which an unordered_map is
--   walked is that of the list.
-- - Api: the messages of api/raftpb/raft.proto, a record for each message and a data type for each
--   oneof. Consensus has those of the members, Files those of the clients and the tree, Blocks
--   those of the storage nodes, and Users those of api/authpb/auth.proto.
-- - StateMachine: src/raft/state_machine.cpp. Defs has the state, the constructor and snapshots,
--   Mkdir and Upload both versions of mkdir and upload_file, Queries ls, prepare_upload_file and
--   prepare_download_file, Apply the two ways to apply an entry. A coroutine handle is a number, and
--   apply_entry returns the handles that it resumes with their responses. The other children hold
--   the theorems. Consistency has the invariant of the tree.
-- - RaftLog: src/raft/log.cpp. An assertion that fails and a read outside the vector have no result.
-- - Persister: src/raft/persister.cpp. Engine has RocksDB and protobuf as parameters, with the laws
--   of a key-value store and of an encoding that can be parsed back. A write that aborts has no
--   result.
-- - Snapshotter: src/raft/snapshotter.cpp over a parameter for the file system. A wait for a mutex
--   that is never unlocked has no result.
-- - Node: src/raft/node.cpp. Defs has the state; World gathers the parameters: the database, the file
--   system, the encodings, std::hash and the check of a token. Terms has increase_term_to and
--   become_leader, Votes the election loop and the two handlers of votes, Replication the two
--   handlers of append entries, Applying apply_entry, Heartbeats the heartbeat loop, Installing the
--   transfer of snapshots, Clients the handlers of clients, Start RaftNode::create, Boot the same
--   from the file of the configuration on. A handler runs
--   with the mutex held and is one function from the node and the message to the new node and its
--   answer; what it sends is part of the result. A handler that suspends is modelled up to there.
--   The time that a handler reads from the clock is an argument. Grants has the runs of a node as a
--   relation, Restarts those with its elections and answers, Receiving those of the handler of
--   installsnapshot.
-- - Storage: src/storage/node.cpp. Defs has the handlers of uploads and downloads of blocks over a
--   parameter for the file system, with what is documented of its calls.
-- - Auth: src/auth/node.cpp. Defs has the three handlers over a parameter for SQLite, the tokens and
--   the clock; Table has the table of users as a list and what is documented of the statements.
-- - Client: src/ui/client.cpp. Defs has the state; the queue of coroutines, the signals to the user
--   interface and the remote calls are lists that only grow at the end. Slots has the entry points,
--   Splitting the loop that cuts a file into blocks, Requests the coroutines that send, Responses,
--   Transfers and Blocks the handlers of answers. A handler has no result where it throws or reads
--   outside of a container. A handler is one step: what else runs while it waits for a file or for
--   the mutex is not modelled. Numbers are read from text as std::stoull and its relatives read
--   them (Common/Parse). Saving has the file of the transfers over a parameter for
--   JSON (Json). Running has VosfsClient::create, the loop over the queue and the shutdown; what
--   other threads put into the queue while it runs is not part of it. Redirects and Auth/Sessions
--   join the client with the nodes that it calls.
-- - Json: nlohmann::json as a parameter, as far as it is used, with what is documented of it. A field
--   is named by Key.
-- - Config: include/vosfs/raft/config.hpp (Raft, RaftBuilder), include/vosfs/ui/config.hpp (Ui) and
--   include/vosfs/storage/config.hpp (Storage), over JSON and a parameter for the file (Files). The
--   other children hold the theorems.
--
-- Loops: the loops over lists are structural. apply_entry is recursion on the number of entries
-- between last_applied_ and commit_index_. The loop of truncate_entries has one round for each index
-- and one for the last test, and truncate_entries supplies that fuel itself. load_entries takes
-- fuel, one round for each entry and one more.
--
-- The loop that cuts a file into blocks takes fuel, which split_file supplies: one round for each whole
-- block, one for a rest and one for the last test. The loop over the queue of the client takes fuel,
-- one round for each coroutine in the queue and one more; it has no result while it goes on.
--
-- Not modelled: the generated protobuf code, RocksDB, SQLite, the tokens, the file system and the
-- network, which are parameters; wait and shutdown of the raft node; the interleaving of several
-- nodes; the start of the authentication node; the timer of the
-- coroutine that saves the transfers; the QML interface.
pub mod Common
pub mod Json
pub mod Api
pub mod StateMachine
pub mod RaftLog
pub mod Persister
pub mod Snapshotter
pub mod Node
pub mod Storage
pub mod Auth
pub mod Client
pub mod Config
