-- ===== src/Lib.antt =====
-- raftKV, a key-value store that is replicated by Raft. The Go packages are modelled each in a
-- tree of modules of its own; `internal/x` below is the path of a package in the repository.
--
-- The parts and how they meet. `internal/record` frames the bytes of every durable file and
-- replaces files atomically. `internal/raft` is one consensus node: a core whose methods change
-- its state, write its term, vote, log and snapshots, and leave messages in an outbox; an event
-- loop calls one method for each event. `internal/storage` is the map, its commands and their
-- write-ahead log. `internal/kvraft` puts the map behind the log: it applies committed commands
-- once for each session, takes and restores snapshots, serves requests, and spreads keys over
-- shards. `internal/server` serves requests on one node without Raft, from the durable store.
-- `internal/nemesis` checks histories of requests for linearizability.
--
-- Common holds what all share: tests on numbers, lists measured by native numbers, little-endian
-- words (Bytes), Go's maps as association lists (Assoc), and sets of ids that must meet (Sets).
--
-- Record is record.go. `checksum` is Checksum, the CRC32-C of hash/crc32 bit by bit; `frame` and
-- `parse` are Frame and Parse; `write_file_atomic` runs the steps of WriteFileAtomic up to the one
-- that fails, which is an argument.
--
-- Raft is the consensus package. Entry and Persist are the log file (log.go) and its writes, Disk
-- the files and the failures to come; StateFile is state.go; Members and Membership are
-- membership.go; Snapshot and Install are raftsnap.go; ReadIndex is readindex.go; Core is the
-- `core` struct and the messages of proto/raft/v1/raft.proto; Log is what is read off the log;
-- Replication is the leader's side of replication.go and its commit rule, Follower is
-- handleAppendEntries and truncateAndAppend, Leader is what a leader answers; Election and PreVote
-- are the elections of core.go and leadership.go and the tick; Boot is openLog, newCore and the
-- queues that are drained; Node is node.go: `dispatch` there, the state in State, `after_step` and
-- what it calls in Loop, and `step`, a round of the loop, with NewNode in Run. A function has the
-- name of its Go method in snake case, and the parts of a long method are functions of their own.
--
-- A method is a function from the core to a result and a core, `Exec`: a result is a value, one of
-- the package's errors, or a panic of the Go run time (an index out of range, a write to a nil
-- map, an empty interval for the random source). What a method changed before an error stays
-- changed, also on disk. The files are fields of the core; `faults` lists for each write to come
-- whether and where it fails, so a theorem on all cores is a theorem on all failures. The random
-- source is a list of numbers. Numbers of Go's uint64 wrap around where the code adds or
-- subtracts.
--
-- The node holds the state machine as a value of any type, given by the three functions of the Go
-- interface. A channel is a number, and what is sent on channels and to the transport is kept in
-- order in `answers` and `sent`. The answer to a message is an event like any other, which may
-- come at any time or never. A round is a step of `Reach`; the loop may go on while it is told to
-- stop, as Go's select may pick either of the stop and an event.
--
-- The proofs: Ballot is about the term and the vote, Order about the log, the commit index and the
-- entries that are delivered, Quorum about majorities, Compaction about a stop in the middle of a
-- compaction, and the other modules below Node about the loop: Apply and Reads about one entry and
-- one read, Drain and Round about a round, Restoring about the restore before it, Halting about a
-- restore that fails, Peers about the transport, Invariant about all rounds.
--
-- Storage has Command (command.go), MemStore (memstore.go and applyCommand of store.go), Wal
-- (wal.go), Snapshot (snapshot.go) and Store (store.go, with createWAL and rotate of wal.go). A
-- directory of segments or snapshots is the list of their numbers and contents in order. What
-- fails in a call is an argument of it. Below Store, View is the map a client has in mind, Durable
-- the invariant of memory and disk, Calls the runs of a store, and Snapshotting, Writes and Reopen
-- keep the invariant.
--
-- Kvraft has StateMachine and Snapshot (statemachine.go), Sharding (the hash of sharding.go) and
-- Service (service.go, the router of sharding.go and the pin of the shard count). What the node
-- answers to a proposal is an argument of the service; Replicated puts the state machine under the
-- node's loop. encoding/gob is a parameter of the snapshots, with the law that what it encodes is
-- not empty and is decoded again.
--
-- Server is server.go over an engine that is a record of operations, as the Go interface; Requests
-- fills it with the durable store. Nemesis has Checker (checker.go and the operations of
-- history.go); Porcupine, which searches for an order, is a parameter. Execution says what it
-- looks for and what happened at a key; Timing, Kept and Soundness lead from the one to the other.
--
-- Fuel. Loops over bytes (`replay` in Raft/Boot, `replay_segment` in Storage/Wal) take as many
-- rounds as there are bytes, and each round takes at least a byte. `read_entries` in
-- Storage/Snapshot takes the count of the file, as the Go loop does. Loops over a range of indices
-- (`deliver_from`, `commit_point`, `first_index_of_term`, `index_of_term_from`) run over the
-- number of rounds that the Go loop has.
--
-- Not modelled: gRPC and the routing of calls in internal/raft/transport.go and service.go; the
-- goroutines, channels and timers around the loop of node.go and the callers that wait there; the
-- start and stop of shards; cmd and proto; the workload, the faults and the processes of
-- internal/nemesis. An index out of range in sendAppend, on a log that does not start after the
-- snapshot, is no panic of the model. Logging is left out everywhere, and opening and reading a
-- file is taken to work.
pub mod Common
pub mod Record
pub mod Raft
pub mod Storage
pub mod Kvraft
pub mod Server
pub mod Nemesis
