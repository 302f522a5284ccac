-- ===== src/Raft/Candidate.antt =====
-- The candidate's loop, runCandidate of internal/raft/raft.go, over what its select takes, in the order in which it
-- is taken. The term test and the change to leader are under the lock, which is released in between: a leftover
-- replicator of an earlier leadership may then step the node down.
pub mod Voters
pub mod Winning
use claude_ds_project.Base.{
  ℕ, suc, ◌+◌, List, [], ◌∷◌, Bool, true, false, not, ◌&&◌, ltb, leb, if◌then◌else◌,
}
use Prim.Native.String.{String}
use claude_ds_project.Raft.Types.{is_candidate, RequestVoteResponse}
use claude_ds_project.Raft.LogStore.{LogStore}
use claude_ds_project.Raft.Node.{Node, step_down}
use claude_ds_project.Raft.Election.{become_leader, quorum, count_vote}
use claude_ds_project.Raft.Rpc.{Command, handle_rpc}

-- What a round of the loop takes: the response of a peer, with the terms that leftover replicators learn between the
-- two locks; a term that one of them learns between two rounds; an RPC; the election timeout; or the shutdown.
pub data Arrival : Type 0 where
  voted : String → RequestVoteResponse → List ℕ → Arrival
  learned : ℕ → Arrival
  called : Command → Arrival
  timed_out stopped : Arrival

module _ {Store : Type 0} where
  -- What replicateOnce does with the term of a response.
  unfoldable pub learn : Node Store → ℕ → Node Store
  unfolding step_down
  learn n term = if ltb n.current_term term then step_down n term else n

  unfoldable pub learn_all : Node Store → List ℕ → Node Store
  unfolding learn
  learn_all n [] = n
  learn_all n (term ∷ terms) = learn_all (learn n term) terms

-- The state, the votes so far, and whether the loop goes on.
pub record Round (Store : Type 0) : Type 0 where
  pub node : Node Store
  pub votes : ℕ
  pub goes_on : Bool

module _ (L : LogStore) where
  open L use {Store}

  -- The arms of the select; `needed` is the quorum that runCandidate has computed.
  unfoldable pub take_arrival : ℕ → Node Store → ℕ → Arrival → Round Store
  unfolding count_vote learn_all learn become_leader handle_rpc
  take_arrival needed n votes (voted p vote gap) =
      let (m, votes') = count_vote n votes vote in
      if ltb n.current_term vote.term
      then record { node = m; votes = votes'; goes_on = false }
      else if vote.vote_granted && leb needed votes'
      then record { node = become_leader (learn_all m gap); votes = votes'; goes_on = false }
      else record { node = m; votes = votes'; goes_on = true }
  take_arrival needed n votes (learned term) = record {
    node = learn n term;
    votes = votes;
    goes_on = true;
  }
  take_arrival needed n votes (called command) =
      let (m, answer, reset) = handle_rpc L n command in
      record { node = m; votes = votes; goes_on = not (reset && not (is_candidate m.state)) }
  take_arrival needed n votes timed_out = record { node = n; votes = votes; goes_on = false }
  take_arrival needed n votes stopped = record { node = n; votes = votes; goes_on = false }

  -- The loop, while the node is a candidate.
  unfoldable pub await_votes : ℕ → Node Store → ℕ → List Arrival → Node Store × ℕ
  unfolding take_arrival
  await_votes needed n votes [] = (n, votes)
  await_votes needed n votes (a ∷ arrivals) =
      let r = take_arrival needed n votes a in
      let rest = await_votes needed r.node r.votes arrivals in
      if is_candidate n.state then (if r.goes_on then rest else (r.node, r.votes)) else (n, votes)

  -- runCandidate behind startElection: one vote is the node's own, and may be enough.
  unfoldable pub run_candidate : Node Store → List Arrival → Node Store × ℕ
  unfolding await_votes
  run_candidate n arrivals =
      if leb (quorum n) 1 then (become_leader n, 1) else await_votes (quorum n) n 1 arrivals
