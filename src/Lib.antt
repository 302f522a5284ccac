-- ===== src/Lib.antt =====
-- A collaborative text editor: clients send edits of one document, a cluster of servers agrees by Raft on
-- their order, and every server transforms and applies them alike.
--
-- The parts, and how they interact. A client's edit is a changeset (internal/ot), relative to the revision of the
-- document that the client had. The leader's server puts it in a log entry of Raft (internal/raft), which
-- replicates the log and hands committed entries to the document state machine (internal/fsm) of every node;
-- that machine rebases the changeset over the revisions since (Follow), applies it and records it. It then calls
-- back the server (internal/server), which tells its clients. Nodes talk over TCP (internal/raft/transport.go)
-- and keep their log in a BoltDB file (internal/store).
--
-- Files:
--   Base, Base/*: names of the library, Boolean tests and list operations on the native numbers.
--   GoInt: Go's `int`, 64 bits: a value is its two's-complement pattern, a number below 2^64.
--   Outcome: what a Go function does: a value, an error, a panic, or no return.
--   Ot/Changeset: internal/ot/changeset.go. `Op` has a constructor for each operation and one for an unknown
--     type; a length is a GoInt pattern and a text is a list of bytes. Identity, IsIdentity, TextToChangeset, MakeInsert, MakeDelete
--     and Validate keep their names.
--   Ot/Apply: ApplyChangeset of internal/ot/apply.go. Ot/TextOrder: the order of strings.
--   Ot/Cursor: opSlice, peek, consume and addOp, which Compose and Follow share.
--   Ot/Compose, Ot/Follow: internal/ot/compose.go and internal/ot/follow.go; one round of the loop is
--     `compose_step` and `follow_step`.
--   Ot/Runes, Ot/Diff: the runes of a Go string, and DiffToChangeset of internal/ot/diff.go. The prefixes that its
--     indices stand for are lists with the last rune first, and the table `dp` is the recursion that fills it.
--   Ot/Meaning: the specification that these are held to: what a list of operations does to a text.
--   Fsm, Fsm/ClientMap: internal/fsm/fsm.go and types.go. `apply_entry` is Apply on a decoded entry; JSON decoding
--     is an argument of `apply`. An answer of `none` is the code's nil.
--   Raft/Types, Raft/LogStore, Raft/Inmem: internal/raft/types.go and the InmemLogStore of inmem.go. The
--     protocol takes the log store as an argument, with laws where a theorem needs them; Raft/Inmem/Interface
--     fills the interface.
--   Raft/Node: RaftNode of internal/raft/raft.go, persistState, restoreState, stepDown and lastLogInfo.
--   Raft/Election: election.go, and the candidate of raft.go. Raft/AppendEntries: handleAppendEntries of
--     replication.go. Raft/Commit: advanceCommitIndex. Raft/Leader: the leader of raft.go and replicateOnce of
--     replication.go, split at the RPC into the request and what is done with the response. Raft/ApplyLoop:
--     applyCommitted, with the wrap of its index. Handlers hold the node's lock, so each is a function on the node's
--     state. Raft/Candidate: the loop of runCandidate over what its select takes, in order; between the test of a vote's
--     term and the change to leader, where the lock is let go, leftover replicators may step the node down.
--   Raft/Safety/*: a cluster of such nodes as a step relation over the handlers (Cluster), which also keeps the votes
--     that were cast and the elections that were won. One step of `stood` is the timeout of runFollower and
--     startElection, between which no RPC is taken. The last counted vote and the change to leader (`won`) are two steps,
--     with any others in between; that the node still stands at the second is assumed, since runCandidate lets its lock
--     go and does not test it again.
--   Raft/Future: future.go, and the pending futures of raft.go: Apply, the requests in applyCh, and who answers. Of the
--     log it keeps the last index, which the leader counts up, an RPC ends the leadership with, and other leaders move.
--   Raft/Config: config.go, randomElectionTimeout of raft.go, and the configuration that SetupRaft of
--     internal/server/cluster.go makes.
--   Raft/Rpc, Raft/Transport: handleRPC of raft.go, and transport.go: messages in frames on lists of bytes. The
--     JSON codecs are arguments, each with the hypothesis that it restores the messages in question.
--   Bolt: internal/store/boltstore.go over a bucket of bbolt, which is an argument; Bolt/Buckets says what the
--     store relies on of it, and Examples/ListBucket has a bucket that keeps to that. What Next does behind a Delete is
--     not promised by bbolt, and is a hypothesis of its own, `Repositions`.
--   Server, Server/ClientMap: internal/server/websocket.go. The state is the Node with its wsClients, by address,
--     and its connections, by number; `step` takes one event: a message, an answer of Raft, the end of a
--     connection, a committed entry, a callback, a message written out, or a change of the leader. Apply starts
--     each callback in a goroutine of its own, so a callback is an event behind its entry, in any order. A second CONNECT
--     on one connection makes a second client that writes to it; gorilla's panic on two writers is not modelled.
--   Examples/*: the theorems at concrete inputs, and runs of the definitions.
--
-- Bounds and fuel. The loops of Compose and Follow run on the weight of both lists of operations (the
-- characters and lengths in them) and one more: on operations of positive length each round takes at least
-- one of them. Where the code loops for ever, as it does on operations without length, fuel ends in `diverges`.
-- The catch-up loop of Apply has one round for each revision up to the head, and one more. The loop of a
-- connection takes a header of five bytes a round, so it has one round more than bytes, and the loop of DeleteRange
-- goes up, on a cursor that goes on behind a deleted key, through at most `max + 1` indices, with one round to stop. The
-- loop of applyCommitted returns `none` when its fuel is out; one round more than entries to apply is enough below the
-- last uint64, at which the code loops for ever. Sums of lengths
-- wrap as Go's do; a theorem that needs them not to says so. Terms and indices of Raft are `uint64`, and what the
-- code adds to them is taken modulo 2^64; the loop of the in-memory DeleteRange is that of a range that ends below the
-- last uint64, at which the code's does not end.
--
-- Not modelled: timers and channels of the Raft node, the in-memory transport and
-- stable store, sockets, deadlines and the accept loop, the opening of files, the command and the browser client.
-- A handler of the server is one step, although handleConnect reads the state machine three times under separate
-- locks. A failing LastIndex returns 0 in the code, as an empty log does. A failing write of the stable store is
-- only logged by the code; here it does not fail.
pub mod Base
pub mod GoInt
pub mod Outcome
pub mod Ot
pub mod Fsm
pub mod Raft
pub mod Server
pub mod Bolt
pub mod Examples
