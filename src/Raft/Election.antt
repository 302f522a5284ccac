-- ===== src/Raft/Election.antt =====
-- internal/raft/election.go, and the steps of a candidate in internal/raft/raft.go.
pub mod Laws
pub mod OneVote
use claude_ds_project.Base.{
  ℕ, suc, ◌+◌, ◌/◌, List, [], ◌∷◌, Bool, true, false, not, ◌&&◌, ◌==◌, ltb, leb, if◌then◌else◌,
  length,
}
use Prim.Native.String.{String}
use text.Mathlib.Text.{◌==◌ as str_eq}
use claude_ds_project.Raft.Types.{
  uint64, ServerState, follower, candidate, leader, is_candidate, RequestVoteRequest,
  RequestVoteResponse, PeerConfig,
}
use claude_ds_project.Raft.LogStore.{LogStore}
use claude_ds_project.Raft.Node.{Node, persist_state, step_down, address_of, last_log_info}

-- isLogUpToDate
unfoldable pub is_log_up_to_date : ℕ → ℕ → ℕ → ℕ → Bool
is_log_up_to_date candidate_term candidate_index voter_term voter_index =
    if ltb voter_term candidate_term
    then true
    else candidate_term == voter_term && leb voter_index candidate_index

-- r.votedFor != "" && r.votedFor != req.CandidateID
unfoldable pub has_voted_for_other : String → String → Bool
has_voted_for_other voted_for candidate_id =
    not (str_eq voted_for "") && not (str_eq voted_for candidate_id)

module _ (L : LogStore) where
  open L use {Store}

  -- The state part of startElection, and the request for the peers.
  unfoldable pub start_election : Node Store → Node Store × RequestVoteRequest
  unfolding persist_state
  start_election n =
      let m =
        persist_state
          (record n { current_term = uint64 (n.current_term + 1); voted_for = n.server_id }) in
      let info = last_log_info L m.log in
      (
        m,
        record {
          term = m.current_term;
          candidate_id = m.server_id;
          last_log_index = info.0;
          last_log_term = info.1;
        },
      )

  -- What handleRequestVote does once the terms agree.
  unfoldable pub decide_vote :
      Node Store → RequestVoteRequest → Node Store × RequestVoteResponse × Bool
  unfolding persist_state is_log_up_to_date has_voted_for_other
  decide_vote n req =
      let refused : Node Store × RequestVoteResponse × Bool =
        (n, record { term = n.current_term; vote_granted = false }, false) in
      let info = last_log_info L n.log in
      if has_voted_for_other n.voted_for req.candidate_id
      then refused
      else if is_log_up_to_date req.last_log_term req.last_log_index info.1 info.0
      then (
        persist_state (record n { voted_for = req.candidate_id }),
        record { term = n.current_term; vote_granted = true },
        true,
      )
      else refused

  -- handleRequestVote: the new state, the response, and whether the timer is reset.
  unfoldable pub handle_request_vote :
      Node Store → RequestVoteRequest → Node Store × RequestVoteResponse × Bool
  unfolding decide_vote step_down
  handle_request_vote n req =
      if ltb req.term n.current_term
      then (n, record { term = n.current_term; vote_granted = false }, false)
      else decide_vote (if ltb n.current_term req.term then step_down n req.term else n) req

module _ {Store : Type 0} where
  -- The election timer of runFollower fires.
  unfoldable pub election_timeout : Node Store → Node Store
  election_timeout n = record n { state = candidate }

  -- A won election.
  unfoldable pub become_leader : Node Store → Node Store
  unfolding address_of
  become_leader n = record n {
    state = leader;
    leader_id = n.server_id;
    leader_addr = address_of n.server_id n.config_peers n.leader_addr;
  }

  -- totalNodes/2 + 1
  unfoldable pub quorum : Node Store → ℕ
  quorum n = length n.config_peers / 2 + 1

  -- A response on the vote channel of runCandidate: the test of its term, under the lock, and the count of the votes.
  unfoldable pub count_vote : Node Store → ℕ → RequestVoteResponse → Node Store × ℕ
  unfolding step_down
  count_vote n votes vote =
      if ltb n.current_term vote.term
      then (step_down n vote.term, votes)
      else if vote.vote_granted
      then (n, votes + 1)
      else (n, votes)
