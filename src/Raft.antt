-- ===== src/Raft.antt =====
-- internal/raft: the consensus protocol of one node.
pub mod Types
pub mod LogStore
pub mod Inmem
pub mod Node
pub mod Election
pub mod AppendEntries
pub mod Commit
pub mod Leader
pub mod ApplyLoop
pub mod Safety
pub mod Config
pub mod Future
pub mod Rpc
pub mod Candidate
pub mod Transport
