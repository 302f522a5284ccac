-- ===== src/Raft/Types.antt =====
-- internal/raft/types.go: server states, log entries and messages. Indices and terms are `uint64`: a
-- value is a number below 2^64, and sums wrap.
use claude_ds_project.Base.{ℕ, ◌%◌, List, Bool, true, false}
use Prim.Native.String.{String}

abbrev pub uint64 : ℕ → ℕ
uint64 n = n % 18446744073709551616

-- ServerState
pub data ServerState : Type 0 where
  follower candidate leader : ServerState

abbrev pub is_follower : ServerState → Bool
is_follower follower = true
is_follower _ = false

abbrev pub is_candidate : ServerState → Bool
is_candidate candidate = true
is_candidate _ = false

abbrev pub is_leader : ServerState → Bool
is_leader leader = true
is_leader _ = false

-- LogEntry
pub record LogEntry : Type 0 where
  pub index : ℕ
  pub term : ℕ
  pub payload : List ℕ

-- AppendEntriesRequest
pub record AppendEntriesRequest : Type 0 where
  pub term : ℕ
  pub leader_id : String
  pub prev_log_index : ℕ
  pub prev_log_term : ℕ
  pub entries : List LogEntry
  pub leader_commit : ℕ

-- AppendEntriesResponse
pub record AppendEntriesResponse : Type 0 where
  pub term : ℕ
  pub success : Bool
  pub conflict_term : ℕ
  pub conflict_index : ℕ

-- RequestVoteRequest
pub record RequestVoteRequest : Type 0 where
  pub term : ℕ
  pub candidate_id : String
  pub last_log_index : ℕ
  pub last_log_term : ℕ

-- RequestVoteResponse
pub record RequestVoteResponse : Type 0 where
  pub term : ℕ
  pub vote_granted : Bool

-- PeerConfig
pub record PeerConfig : Type 0 where
  pub id : String
  pub address : String

-- peerState of replication.go; the trigger channel carries no data.
pub record PeerState : Type 0 where
  pub id : String
  pub addr : String
  pub next_index : ℕ
  pub match_index : ℕ
