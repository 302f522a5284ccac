-- ===== src/Raft/Leader.antt =====
-- The leader's side: runLeader, handleApplyRequest and appendNoOp of internal/raft/raft.go, and
-- replicateOnce of internal/raft/replication.go, with the RPC in between left to the transport.
pub mod Replication
use claude_ds_project.Base.{
  ℕ, zero, suc, ◌+◌, ◌-◌, List, [], ◌∷◌, Option, none, some, ◌==◌, ltb, if◌then◌else◌,
}
use Prim.Native.String.{String}
use text.Mathlib.Text.{◌==◌ as str_eq}
use claude_ds_project.Raft.Types.{
  uint64, is_leader, LogEntry, AppendEntriesRequest, AppendEntriesResponse, PeerConfig, PeerState,
}
use claude_ds_project.Raft.LogStore.{LogStore}
use claude_ds_project.Raft.Node.{Node, step_down}
use claude_ds_project.Raft.Commit.{advance_commit_index}

-- The replication state of the other nodes, made when leadership begins.
unfoldable pub fresh_peers : String → ℕ → List PeerConfig → List PeerState
fresh_peers self last [] = []
fresh_peers self last (p ∷ ps) =
    let rest = fresh_peers self last ps in
    let peer : PeerState = record {
      id = p.id;
      addr = p.address;
      next_index = uint64 (last + 1);
      match_index = 0;
    } in
    if str_eq p.id self then rest else peer ∷ rest

-- A peer's state is written back to the map.
unfoldable pub update_peer : PeerState → List PeerState → List PeerState
update_peer p [] = []
update_peer p (q ∷ qs) =
    let rest = update_peer p qs in if str_eq q.id p.id then p ∷ qs else q ∷ rest

-- The last index of the entries that were sent, if there were any.
unfoldable pub last_sent : List LogEntry → Option ℕ
last_sent [] = none
last_sent (e ∷ []) = some e.index
last_sent (e ∷ (x ∷ es)) = last_sent (x ∷ es)

module _ (L : LogStore) where
  open L use {Store, last_index, get_log, store_logs}

  abbrev appended : Node Store → Option Store → Node Store
  appended n none = n
  appended n (some log) = record n { log = log }

  -- An entry of the current term behind the last one; a failed write leaves the log as it was.
  unfoldable pub append_entry : Node Store → List ℕ → Node Store
  append_entry n payload = appended n (
      store_logs n.log (
        record { index = uint64 (last_index n.log + 1); term = n.current_term; payload = payload }
        ∷ []))

  -- handleApplyRequest: a node that is no leader answers ErrNotLeader and changes nothing.
  unfoldable pub handle_apply_request : Node Store → List ℕ → Node Store
  unfolding append_entry
  handle_apply_request n payload = if is_leader n.state then append_entry n payload else n

  -- The start of runLeader: new replication states, and the no-op of appendNoOp.
  unfoldable pub start_leader : Node Store → Node Store
  unfolding append_entry fresh_peers
  start_leader n =
      append_entry (record n { peers = fresh_peers n.server_id (last_index n.log) n.config_peers })
        []

  -- An entry that was read stands before the rest, and an error ends the loop.
  unfoldable pub gather : Option LogEntry → List LogEntry → List LogEntry
  gather none rest = []
  gather (some e) rest = e ∷ rest

  -- The entries from `i` on, up to the first that cannot be read.
  unfoldable pub entries_from : Store → ℕ → ℕ → List LogEntry
  unfolding gather
  entries_from log i zero = []
  entries_from log i (suc k) = gather (get_log log i) (entries_from log (i + 1) k)

  term_of : Option LogEntry → ℕ
  term_of none = 0
  term_of (some e) = e.term

  -- The request that replicateOnce sends to a peer.
  unfoldable pub build_request : Node Store → PeerState → AppendEntriesRequest
  unfolding entries_from term_of
  build_request n peer =
      let prev = uint64 (peer.next_index + 18446744073709551615) in
      record {
        term = n.current_term;
        leader_id = n.server_id;
        prev_log_index = prev;
        prev_log_term = if ltb 0 prev then term_of (get_log n.log prev) else 0;
        entries = entries_from n.log peer.next_index (last_index n.log + 1 - peer.next_index);
        leader_commit = n.commit_index;
      }

  -- The start of replicateOnce: a node that is no longer the leader sends nothing.
  unfoldable pub replicate_once : Node Store → PeerState → Option AppendEntriesRequest
  unfolding build_request
  replicate_once n peer = if is_leader n.state then some (build_request n peer) else none

  -- The search down from `i` for an entry of the conflicting term; 0 if there is none.
  unfoldable pub last_of_term : Store → ℕ → ℕ → ℕ
  last_of_term log term zero = 0
  last_of_term log term (suc i) =
      let further = last_of_term log term i in
      elim (get_log log (suc i)) [ none ↦ 0 | some e ↦ if e.term == term then suc i else further ]

  -- The next index after a conflict.
  unfoldable pub backed_up : Node Store → AppendEntriesResponse → ℕ
  unfolding last_of_term
  backed_up n resp =
      let found = last_of_term n.log resp.conflict_term (last_index n.log) in
      let next =
        if ltb 0 resp.conflict_term
        then (if ltb 0 found then uint64 (found + 1) else resp.conflict_index)
        else resp.conflict_index in
      if ltb next 1 then 1 else next

  -- A successful append moves both indices of the peer.
  unfoldable pub acknowledge : Node Store → PeerState → Option ℕ → Node Store
  unfolding update_peer
  acknowledge n peer none = n
  acknowledge n peer (some index) = record n {
    peers =
        update_peer (record peer { match_index = index; next_index = uint64 (index + 1) }) n.peers;
  }

  -- What replicateOnce does with the response to the entries that it sent.
  unfoldable pub handle_append_response :
      Node Store → PeerState → List LogEntry → AppendEntriesResponse → Node Store
  unfolding backed_up acknowledge last_sent advance_commit_index step_down update_peer
  handle_append_response n peer entries resp =
      if ltb n.current_term resp.term
      then step_down n resp.term
      else if resp.success
      then advance_commit_index L (acknowledge n peer (last_sent entries))
      else record n { peers = update_peer (record peer { next_index = backed_up n resp }) n.peers }
