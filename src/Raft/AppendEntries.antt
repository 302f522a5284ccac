-- ===== src/Raft/AppendEntries.antt =====
-- handleAppendEntries of internal/raft/replication.go, the follower's side of replication.
pub mod Terms
pub mod Matching
pub mod Success
use claude_ds_project.Base.{
  ℕ, zero, suc, ◌+◌, ◌-◌, List, [], ◌∷◌, Option, none, some, Bool, true, false, ◌==◌, ltb,
  if◌then◌else◌, min,
}
use claude_ds_project.Raft.Types.{
  uint64, ServerState, follower, is_follower, LogEntry, AppendEntriesRequest, AppendEntriesResponse,
}
use claude_ds_project.Raft.LogStore.{LogStore}
use claude_ds_project.Raft.Node.{Node, step_down, address_of}

-- The consistency check on the entry before the new ones: it holds, or there is a conflict with a term
-- and an index for the leader.
pub data PrevCheck : Type 0 where
  agrees : PrevCheck
  conflicts : ℕ → ℕ → PrevCheck

module _ {Store : Type 0} where
  -- The node on the side of the leader of the request's term.
  unfoldable pub recognise_leader : Node Store → AppendEntriesRequest → Node Store
  unfolding step_down address_of
  recognise_leader n req =
      let stepped =
        if ltb n.current_term req.term
        then step_down n req.term
        else if is_follower n.state
        then n
        else step_down n req.term in
      record stepped {
        state = follower;
        leader_id = req.leader_id;
        leader_addr = address_of req.leader_id stepped.config_peers stepped.leader_addr;
      }

abbrev response : ℕ → Bool → ℕ → ℕ → AppendEntriesResponse
response term success conflict_term conflict_index = record {
  term = term;
  success = success;
  conflict_term = conflict_term;
  conflict_index = conflict_index;
}

module _ (L : LogStore) where
  open L use {Store, last_index, get_log, failed_get, store_logs, delete_range}

  -- The loop down from `i` to the first entry of the conflicting term.
  unfoldable pub conflict_start : Store → ℕ → ℕ → ℕ → ℕ
  conflict_start log term zero found = found
  conflict_start log term (suc i) found =
      let further = conflict_start log term i (suc i) in
      elim (get_log log (suc i)) [
        | none ↦ found
        | some e ↦ if e.term == term then further else found
      ]

  -- What is reported of a conflict, with the entry at prevLogIndex if the store returned one.
  unfoldable pub conflict_at : Store → AppendEntriesRequest → Option LogEntry → PrevCheck
  unfolding conflict_start
  conflict_at log req none = conflicts 0 req.prev_log_index
  conflict_at log req (some e) =
      conflicts e.term (conflict_start log e.term (req.prev_log_index - 1) req.prev_log_index)

  -- The entry at prevLogIndex, as it was read, against prevLogTerm; `none` is an error of the read.
  unfoldable pub check_entry : Store → AppendEntriesRequest → Option LogEntry → PrevCheck
  unfolding conflict_at
  check_entry log req none = conflict_at log req (failed_get log req.prev_log_index)
  check_entry log req (some e) =
      if e.term == req.prev_log_term then agrees else conflict_at log req (some e)

  unfoldable pub check_prev : Store → AppendEntriesRequest → PrevCheck
  unfolding check_entry
  check_prev log req =
      if ltb 0 req.prev_log_index
      then (if ltb (last_index log) req.prev_log_index
          then conflicts 0 (uint64 (last_index log + 1))
          else check_entry log req (get_log log req.prev_log_index))
      else agrees

  -- The log behind a write, and whether it succeeded.
  abbrev pub stored : Store → Option Store → Store × Bool
  stored log none = (log, false)
  stored log (some log') = (log', true)

  -- A conflicting suffix is deleted, and the entries are written.
  unfoldable pub overwrite : Store → LogEntry → List LogEntry → Option Store → Store × Bool
  overwrite log e es none = (log, false)
  overwrite log e es (some cut) = stored cut (store_logs cut (e ∷ es))

  -- What is done for one entry, on what the log holds at its index; `next` is the rest of the loop.
  unfoldable pub append_entry :
      Store → LogEntry → List LogEntry → Store × Bool → Option LogEntry → Store × Bool
  unfolding overwrite
  append_entry log e es next none = stored log (store_logs log (e ∷ es))
  append_entry log e es next (some x) =
      if x.term == e.term
      then next
      else overwrite log e es (delete_range log e.index (last_index log))

  -- The loop over the entries.
  unfoldable pub append_entries : Store → List LogEntry → Store × Bool
  unfolding append_entry
  append_entries log [] = (log, true)
  append_entries log (e ∷ es) = append_entry log e es (append_entries log es) (get_log log e.index)

  -- The commit index behind the append.
  unfoldable pub follow_commit : Node Store → AppendEntriesRequest → Node Store
  follow_commit n req =
      if ltb n.commit_index req.leader_commit
      then record n {
        commit_index =
            if ltb (last_index n.log) req.leader_commit
            then last_index n.log
            else req.leader_commit;
      }
      else n

  unfoldable pub append_checked :
      Node Store → AppendEntriesRequest → PrevCheck → Node Store × AppendEntriesResponse × Bool
  unfolding follow_commit append_entries
  append_checked n req (conflicts term index) = (n, response n.current_term false term index, true)
  append_checked n req agrees =
      let written = append_entries n.log req.entries in
      let m = record n { log = written.0 } in
      if written.1
      then (follow_commit m req, response n.current_term true 0 0, true)
      else (m, response n.current_term false 0 0, true)

  -- handleAppendEntries: the new state, the response, and whether the timer is reset.
  unfoldable pub handle_append_entries :
      Node Store → AppendEntriesRequest → Node Store × AppendEntriesResponse × Bool
  unfolding recognise_leader append_checked check_prev
  handle_append_entries n req =
      if ltb req.term n.current_term
      then (n, response n.current_term false 0 0, false)
      else append_checked (recognise_leader n req) req (check_prev n.log req)
