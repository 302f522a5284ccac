-- ===== src/Raft/Safety/Change.antt =====
-- What the handlers of internal/raft do to the part of a node that elections depend on.
use claude_ds_project.Base.{
  ℕ, ◌≤◌, ◌<◌, ◌≡◌, ◌⊎◌, inl, inr, refl, sym, ap, List, Bool, true, false, Bool-cases, ltb,
  if◌then◌else◌, ltb→lt, arith,
}
use claude_ds_project.Raft.Types.{is_follower, PeerState, AppendEntriesRequest, RequestVoteRequest}
use claude_ds_project.Raft.LogStore.{LogStore}
use claude_ds_project.Raft.Node.{Node, persist_state, step_down, restart, last_log_info}
use claude_ds_project.Raft.Election.{
  decide_vote, handle_request_vote, has_voted_for_other, is_log_up_to_date,
}
use claude_ds_project.Raft.AppendEntries.{
  PrevCheck, agrees, conflicts, recognise_leader, append_entries, follow_commit, append_checked,
  check_prev, handle_append_entries,
}
use claude_ds_project.Raft.Election.Laws.{
  IsPersisted, compare-cases, stale_term, same_term, newer_term, other_vote-none,
}

module _ {Store : Type 0} where
  pub record HasSameConfig (n m : Node Store) : Type 0 where
    pub same_id : m.server_id ≡ n.server_id
    pub same_peers : m.config_peers ≡ n.config_peers

  HasSameConfig-refl : (n : Node Store) → HasSameConfig n n
  HasSameConfig-refl n = record { same_id = refl; same_peers = refl }

  -- The vote stays, or the term moves on, or, where `F` holds, the vote is forgotten in its own term.
  pub data Change (F : Type 0) (n m : Node Store) : Type 0 where
    kept :
        HasSameConfig n m
        → m.current_term ≡ n.current_term
        → m.voted_for ≡ n.voted_for
        → (m.state ≡ n.state) ⊎ (is_follower m.state ≡ true)
        → (IsPersisted n → IsPersisted m)
        → Change F n m
    moved :
        HasSameConfig n m
        → n.current_term < m.current_term
        → m.voted_for ≡ ""
        → is_follower m.state ≡ true
        → IsPersisted m
        → Change F n m
    forgot :
        F
        → HasSameConfig n m
        → m.current_term ≡ n.current_term
        → is_follower n.state ≡ false
        → m.voted_for ≡ ""
        → is_follower m.state ≡ true
        → IsPersisted m
        → Change F n m

  pub Change-refl : {F : Type 0} (n : Node Store) → Change F n n
  Change-refl n = kept (HasSameConfig-refl n) refl refl (inl refl) (λ h. h)

  -- The log, the commit index and the state of the peers are of no account.
  pub Change-fields :
      {F : Type 0} (n : Node Store) (log : Store) (index : ℕ) (peers : List PeerState)
      → Change F n (record n { log = log; commit_index = index; peers = peers })
  Change-fields n log index peers =
      kept (record { same_id = refl; same_peers = refl }) refl refl (inl refl) (λ h. h)

  Change-log :
      {F : Type 0} (n m : Node Store) (log : Store) (index : ℕ)
      → Change F n m
      → Change F n (record m { log = log; commit_index = index })
  Change-log n m log index (kept s t v f p) =
      kept (record { same_id = s.same_id; same_peers = s.same_peers }) t v f p
  Change-log n m log index (moved s t v f p) =
      moved (record { same_id = s.same_id; same_peers = s.same_peers }) t v f p
  Change-log n m log index (forgot a s t o v f p) =
      forgot a (record { same_id = s.same_id; same_peers = s.same_peers }) t o v f p

  pub restart-Change : {F : Type 0} (n : Node Store) → IsPersisted n → Change F n (restart n)
  unfolding restart
  restart-Change n h =
      kept (record { same_id = refl; same_peers = refl }) (ap (λ s. s.current_term) h)
        (ap (λ s. s.voted_for) h) (inr refl) (λ p. refl)

  pub step_down-Change :
      {F : Type 0} (n : Node Store) (term : ℕ)
      → n.current_term < term
      → Change F n (step_down n term)
  unfolding step_down persist_state
  step_down-Change n term h = moved (record { same_id = refl; same_peers = refl }) h refl refl refl

  recognise_leader-Change :
      (n : Node Store) (req : AppendEntriesRequest)
      → n.current_term ≤ req.term
      → Change (req.term ≡ n.current_term) n (recognise_leader n req)
  unfolding recognise_leader step_down persist_state
  recognise_leader-Change n req h = elim (Bool-cases (ltb n.current_term req.term)) [
    | inl newer ↦ rw newer (
        moved (record { same_id = refl; same_peers = refl }) (ltb→lt n.current_term req.term newer)
          refl refl refl)
    | inr same ↦ elim (Bool-cases (is_follower n.state)) [
      | inl quiet ↦
          rw (same, quiet)
            (kept (record { same_id = refl; same_peers = refl }) refl refl (inr refl) (λ p. p))
      | inr other ↦
          rw (same, other)
            (forgot (ground arith) (record { same_id = refl; same_peers = refl }) (ground arith)
              other refl refl refl)
    ]
  ]

  step_down-term : (n : Node Store) (term : ℕ) → (step_down n term).current_term ≡ term
  unfolding step_down persist_state
  step_down-term n term = refl

module _ (L : LogStore) where
  open L use {Store, last_index, store_logs}

  -- Behind the recognition of the leader only the log and the commit index change.
  follow_commit-fields :
      (n : Node Store) (req : AppendEntriesRequest)
      → (index : ℕ) × (follow_commit L n req ≡ record n { commit_index = index })
  unfolding follow_commit
  follow_commit-fields n req = elim (Bool-cases (ltb n.commit_index req.leader_commit)) [
    | inl less ↦ (
      if ltb (last_index n.log) req.leader_commit then last_index n.log else req.leader_commit,
      rw less refl,
    )
    | inr done ↦ (n.commit_index, rw done refl)
  ]

  append_checked-fields :
      (n : Node Store) (req : AppendEntriesRequest) (c : PrevCheck)
      → (log : Store) × (index : ℕ) × ((append_checked L n req c).0
          ≡ record n { log = log; commit_index = index })
  unfolding append_checked
  append_checked-fields n req (conflicts term index) = (n.log, n.commit_index, refl)
  append_checked-fields n req agrees =
      let written = append_entries L n.log req.entries in
      elim (Bool-cases written.1) [
        | inl ok ↦
            let (index, same) = follow_commit-fields (record n { log = written.0 }) req in
            (written.0, index, rw ok same)
        | inr failed ↦ (written.0, n.commit_index, rw failed refl)
      ]

  pub handle_append_entries-Change :
      (n : Node Store) (req : AppendEntriesRequest)
      → Change (req.term ≡ n.current_term) n (handle_append_entries L n req).0
  unfolding handle_append_entries
  handle_append_entries-Change n req = elim (Bool-cases (ltb req.term n.current_term)) [
    | inl stale ↦ rw stale (Change-refl n)
    | inr current ↦
        let m = recognise_leader n req in
        let (log, index, same) = append_checked-fields m req (check_prev L n.log req) in
        rw (current, same) (Change-log n m log index (recognise_leader-Change n req (ground arith)))
  ]

  -- How a vote is asked of a node: it is granted in the request's term, or the node has changed as by any message.
  pub data Asked (n : Node Store) (req : RequestVoteRequest) (m : Node Store) (granted : Bool)
      : Type 0 where
    gives :
        HasSameConfig n m
        → granted ≡ true
        → m.current_term ≡ req.term
        → m.voted_for ≡ req.candidate_id
        → ((n.current_term < req.term) × (is_follower m.state ≡ true))
          ⊎ ((n.current_term ≡ req.term)
              × ((n.voted_for ≡ "") ⊎ (n.voted_for ≡ req.candidate_id))
              × (m.state ≡ n.state))
        → IsPersisted m
        → Asked n req m granted
    denies : granted ≡ false → Change ⊥ n m → Asked n req m granted

  decide_vote-Asked :
      (n : Node Store) (req : RequestVoteRequest)
      → n.current_term ≡ req.term
      → Asked n req (decide_vote L n req).0 (decide_vote L n req).1.vote_granted
  unfolding decide_vote persist_state
  decide_vote-Asked n req t =
      let info = last_log_info L n.log in
      elim (Bool-cases (has_voted_for_other n.voted_for req.candidate_id)) [
        | inl other ↦ rw other (denies refl (Change-refl n))
        | inr free ↦
            elim (Bool-cases
              (is_log_up_to_date req.last_log_term req.last_log_index info.1 info.0)) [
                | inl good ↦
                    rw (free, good)
                      (gives (record { same_id = refl; same_peers = refl }) refl t refl
                        (inr (t, (other_vote-none n.voted_for req.candidate_id).0 free, refl)) refl)
                | inr old ↦ rw (free, old) (denies refl (Change-refl n))
              ]
      ]

  Asked-step_down :
      (n : Node Store) (req : RequestVoteRequest) (m : Node Store) (granted : Bool)
      → n.current_term < req.term
      → Asked (step_down n req.term) req m granted
      → Asked n req m granted
  unfolding step_down persist_state
  Asked-step_down n req m granted h (gives s g t v (inl later) p) = absurd (omega (arith, later.0))
  Asked-step_down n req m granted h (gives s g t v (inr same) p) =
      gives (record { same_id = s.same_id; same_peers = s.same_peers }) g t v
        (inl (h, ap is_follower same.2)) p
  Asked-step_down n req m granted h (denies g (kept s t v f p)) = denies g (
      moved (record { same_id = s.same_id; same_peers = s.same_peers }) (omega (arith, h, t)) v
        (elim f [ inl same ↦ ap is_follower same | inr down ↦ down ]) (p refl))
  Asked-step_down n req m granted h (denies g (moved s t v f p)) = denies g (
      moved (record { same_id = s.same_id; same_peers = s.same_peers }) (omega (arith, h, t)) v f p)
  Asked-step_down n req m granted h (denies g (forgot a s t o v f p)) = elim a [ ]

  pub handle_request_vote-Asked :
      (n : Node Store) (req : RequestVoteRequest)
      → Asked n req (handle_request_vote L n req).0 (handle_request_vote L n req).1.vote_granted
  handle_request_vote-Asked n req = elim (compare-cases req.term n.current_term) [
    | inl stale ↦ rw (stale_term L n req stale) (denies refl (Change-refl n))
    | inr (inl same) ↦ rw (same_term L n req (sym same)) (decide_vote-Asked n req (sym same))
    | inr (inr newer) ↦ rw (newer_term L n req newer) (
        Asked-step_down n req _ _ newer
          (decide_vote-Asked (step_down n req.term) req (step_down-term n req.term)))
  ]
