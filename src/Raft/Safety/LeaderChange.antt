-- ===== src/Raft/Safety/LeaderChange.antt =====
-- What the leader's side of internal/raft does to the part of a node that elections depend on: nothing, or
-- a step down.
use claude_ds_project.Base.{
  ℕ, ◌+◌, ◌≡◌, inl, inr, refl, List, [], ◌∷◌, Option, none, some, Bool-cases, Option-cases, ltb,
  ltb→lt,
}
use claude_ds_project.Raft.Types.{uint64, is_leader, LogEntry, PeerState, AppendEntriesResponse}
use claude_ds_project.Raft.LogStore.{LogStore}
use claude_ds_project.Raft.Node.{Node}
use claude_ds_project.Raft.Commit.{advance_commit_index}
use claude_ds_project.Raft.Commit.Majority.{moves, stays, advance_commit_index-Advances}
use claude_ds_project.Raft.Leader.{
  append_entry, handle_apply_request, start_leader, acknowledge, last_sent, handle_append_response,
  fresh_peers,
}
use claude_ds_project.Raft.Safety.Change.{Change, Change-refl, Change-fields, step_down-Change}

module _ (L : LogStore) where
  open L use {Store, last_index, store_logs}

  append_entry-fields :
      (n : Node Store) (payload : List ℕ)
      → (log : Store) × (append_entry L n payload ≡ record n { log = log })
  unfolding append_entry
  append_entry-fields n payload =
      let written = store_logs n.log (
        record { index = uint64 (last_index n.log + 1); term = n.current_term; payload = payload }
        ∷ []) in
      elim (Option-cases written) [
        | inl failed ↦ (n.log, rw failed refl)
        | inr (log, ok) ↦ (log, rw ok refl)
      ]

  pub handle_apply_request-Change :
      (n : Node Store) (payload : List ℕ) → Change ⊥ n (handle_apply_request L n payload)
  unfolding handle_apply_request
  handle_apply_request-Change n payload = elim (Bool-cases (is_leader n.state)) [
    | inl leads ↦
        let (log, same) = append_entry-fields n payload in
        rw (leads, same) (Change-fields n log n.commit_index n.peers)
    | inr other ↦ rw other (Change-refl n)
  ]

  pub start_leader-Change : (n : Node Store) → Change ⊥ n (start_leader L n)
  unfolding start_leader
  start_leader-Change n =
      let peers = fresh_peers n.server_id (last_index n.log) n.config_peers in
      let (log, same) = append_entry-fields (record n { peers = peers }) [] in
      rw same (Change-fields n log n.commit_index peers)

  acknowledge-fields :
      (n : Node Store) (peer : PeerState) (o : Option ℕ)
      → (peers : List PeerState) × (acknowledge L n peer o ≡ record n { peers = peers })
  unfolding acknowledge
  acknowledge-fields n peer none = (n.peers, refl)
  acknowledge-fields n peer (some index) = (_, refl)

  advance-fields :
      (n : Node Store)
      → (index : ℕ) × (advance_commit_index L n ≡ record n { commit_index = index })
  advance-fields n = elim (advance_commit_index-Advances L n) [
    | moves index _ _ _ same ↦ (index, same)
    | stays index _ _ same ↦ (n.commit_index, same)
  ]

  pub handle_append_response-Change :
      (n : Node Store) (peer : PeerState) (entries : List LogEntry) (resp : AppendEntriesResponse)
      → Change ⊥ n (handle_append_response L n peer entries resp)
  unfolding handle_append_response
  handle_append_response-Change n peer entries resp =
      elim (Bool-cases (ltb n.current_term resp.term)) [
        | inl newer ↦
            rw newer (step_down-Change n resp.term (ltb→lt n.current_term resp.term newer))
        | inr current ↦ elim (Bool-cases resp.success) [
          | inl ok ↦
              let (peers, same) = acknowledge-fields n peer (last_sent entries) in
              let (index, moved) = advance-fields (record n { peers = peers }) in
              rw (current, ok, same, moved) (Change-fields n n.log index peers)
          | inr failed ↦ rw (current, failed) (Change-fields n n.log n.commit_index _)
        ]
      ]
