-- ===== src/Raft/Rpc.antt =====
-- RPC of internal/raft/types.go and handleRPC of internal/raft/raft.go: which handler takes a request.
use claude_ds_project.Base.{Bool}
use claude_ds_project.Raft.Types.{
  AppendEntriesRequest, AppendEntriesResponse, RequestVoteRequest, RequestVoteResponse,
}
use claude_ds_project.Raft.LogStore.{LogStore}
use claude_ds_project.Raft.Node.{Node}
use claude_ds_project.Raft.Election.{handle_request_vote}
use claude_ds_project.Raft.AppendEntries.{handle_append_entries}

-- The command of an RPC. No transport makes one of another type.
pub data Command : Type 0 where
  append_entries_command : AppendEntriesRequest → Command
  request_vote_command : RequestVoteRequest → Command

pub data Answer : Type 0 where
  append_entries_answer : AppendEntriesResponse → Answer
  request_vote_answer : RequestVoteResponse → Answer

module _ (L : LogStore) where
  -- handleRPC: the new state, the response, and whether the timer is reset.
  unfoldable pub handle_rpc : Node L.Store → Command → Node L.Store × Answer × Bool
  handle_rpc n (append_entries_command req) =
      let (m, resp, reset) = handle_append_entries L n req in (m, append_entries_answer resp, reset)
  handle_rpc n (request_vote_command req) =
      let (m, resp, reset) = handle_request_vote L n req in (m, request_vote_answer resp, reset)
