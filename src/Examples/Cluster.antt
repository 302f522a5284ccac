-- ===== src/Examples/Cluster.antt =====
-- The theorems on the Raft node at concrete states: a follower in term 2 with one entry of term 1, on the
-- in-memory store.
use claude_ds_project.Base.{
  ℕ, Bool, ◌≡◌, ◌≢◌, ◌≤◌, ◌⊎◌, ◌↔◌, ◌<◌, ◌*◌, ◌∙◌, sym, inl, inr, length, refl, List, [], ◌∷◌, true,
  false, ◌+◌, arith,
}
use Prim.Native.String.{String}
use claude_ds_project.Raft.Types.{
  follower, candidate, leader, is_leader, LogEntry, PeerState, RequestVoteRequest,
  RequestVoteResponse, PeerConfig, AppendEntriesRequest,
}
use claude_ds_project.Raft.Inmem.{new_store, find, get_log, store_logs, put, IsBounded}
use claude_ds_project.Raft.Inmem.Interface.{
  Bounded, stored, inmem, inmem-LogLaws, inmem-IsInfallible,
}
use claude_ds_project.Raft.Node.{Node, restart, last_log_info, step_down, persist_state}
use claude_ds_project.Raft.Election.{handle_request_vote, is_log_up_to_date, quorum, become_leader}
use claude_ds_project.Raft.Election.Laws.{
  MayVote, KeepsVote, handle_request_vote-iff-MayVote, up_to_date_preorder,
}
use claude_ds_project.Raft.Election.OneVote.{
  here, later, requested, restarted, Run-KeepsVote, one_vote_a_term,
}
use claude_ds_project.Raft.Rpc.{request_vote_command}
use claude_ds_project.Raft.Candidate.{Arrival, voted, called, run_candidate}
use claude_ds_project.Raft.Candidate.Voters.{responders, granters, IsDistinct}
use claude_ds_project.Raft.Candidate.Winning.{run_candidate-majority, run_candidate-wins}
use text.Mathlib.Text.{◌==◌ as str_eq}
use text.Mathlib.TextEquality.{eq_iff}
use claude_ds_project.Raft.AppendEntries.{handle_append_entries}
use claude_ds_project.Raft.AppendEntries.Terms.{vote_state, vote_forgotten}
use claude_ds_project.Raft.AppendEntries.Matching.{Matches, AreAbove, handle_append_entries-Matches}
use claude_ds_project.Raft.AppendEntries.Success.{PrevMatches, handle_append_entries-succeeds}
use claude_ds_project.Raft.Commit.{advance_commit_index}
use claude_ds_project.Raft.Commit.Majority.{Advances, advance_commit_index-Advances}

pub new_store-IsBounded : IsBounded new_store
unfolding new_store find
new_store-IsBounded = record { bounded = λ i e h. cc }

abbrev pub entry : ℕ → ℕ → LogEntry
entry index term = record { index = index; term = term; payload = [] }

abbrev pub log_of : List LogEntry → Bounded
log_of es = stored (record { store = new_store; bound = new_store-IsBounded }) es

abbrev pub voter : Node Bounded
voter = record {
  server_id = "s1";
  config_peers = [];
  current_term = 2;
  voted_for = "";
  log = log_of (entry 1 1 ∷ []);
  stable = record { current_term = 2; voted_for = "" };
  state = follower;
  commit_index = 0;
  last_applied = 0;
  peers = [];
  leader_id = "";
  leader_addr = "";
}

abbrev vote_request : RequestVoteRequest
vote_request = record { term = 3; candidate_id = "s2"; last_log_index = 1; last_log_term = 1 }

named : vote_request.candidate_id ≢ ""
named h = cc

-- The same candidate asks again, with a longer log.
abbrev repeated_request : RequestVoteRequest
repeated_request = record vote_request { last_log_index = 5 }

-- A vote that is granted, on the voter's state.
votes : (handle_request_vote inmem voter vote_request).1.vote_granted ≡ true
unfolding handle_request_vote last_log_info new_store get_log store_logs put find
votes = refl

again :
    (handle_request_vote inmem
      (restart (handle_request_vote inmem voter vote_request).0)
      repeated_request).1.vote_granted
    ≡ true
unfolding handle_request_vote last_log_info new_store get_log store_logs put find restart
again = refl

handle_request_vote-iff-MayVote_example :
    ((handle_request_vote inmem voter vote_request).1.vote_granted ≡ true)
    ↔ MayVote inmem voter vote_request
handle_request_vote-iff-MayVote_example = handle_request_vote-iff-MayVote inmem voter vote_request

logs_compare :
    ((is_log_up_to_date 2 4 1 9 ≡ true) ⊎ (is_log_up_to_date 1 9 2 4 ≡ true))
    × (is_log_up_to_date 2 4 1 9 ≡ true
        → is_log_up_to_date 1 9 1 7 ≡ true
        → is_log_up_to_date 2 4 1 7 ≡ true)
logs_compare = up_to_date_preorder 2 4 1 9 1 7

Run-KeepsVote_example :
    KeepsVote inmem voter (restart (handle_request_vote inmem voter vote_request).0)
Run-KeepsVote_example =
    Run-KeepsVote inmem {n = voter} refl (later (later here (requested vote_request)) restarted)

one_vote_a_term_example : repeated_request.candidate_id ≡ vote_request.candidate_id
one_vote_a_term_example =
    one_vote_a_term inmem voter vote_request repeated_request refl named votes
      (later here restarted) again refl

abbrev pub append_request : AppendEntriesRequest
append_request = record {
  term = 2;
  leader_id = "s3";
  prev_log_index = 1;
  prev_log_term = 1;
  entries = entry 2 2 ∷ [];
  leader_commit = 1;
}

appends : (handle_append_entries inmem voter append_request).1.success ≡ true
unfolding handle_append_entries new_store get_log store_logs put find
appends = refl

above : AreAbove 2 append_request.entries
above = (omega arith, tt)

handle_append_entries-Matches_example :
    (PrevMatches inmem inmem-LogLaws inmem-IsInfallible voter append_request)
    × Matches inmem inmem-LogLaws 2 voter.log
        (handle_append_entries inmem voter append_request).0.log
        append_request.entries
handle_append_entries-Matches_example =
    handle_append_entries-Matches inmem inmem-LogLaws voter append_request above appends

handle_append_entries-succeeds_example :
    ((handle_append_entries inmem voter append_request).1.success ≡ true) ↔ (
      (voter.current_term ≤ append_request.term)
      × PrevMatches inmem inmem-LogLaws inmem-IsInfallible voter append_request)
handle_append_entries-succeeds_example =
    handle_append_entries-succeeds inmem inmem-LogLaws inmem-IsInfallible voter append_request

-- The same node as a candidate of term 3, with its vote for itself.
abbrev standing : Node Bounded
standing = record voter {
  current_term = 3;
  voted_for = "s1";
  state = candidate;
  stable = record { current_term = 3; voted_for = "s1" };
}

abbrev heartbeat : AppendEntriesRequest
heartbeat = record append_request { term = 3; entries = [] }

vote_forgotten_example :
    vote_state inmem (handle_append_entries inmem standing heartbeat).0
    ≡ (3, "", record { current_term = 3; voted_for = "" })
vote_forgotten_example = vote_forgotten inmem standing heartbeat refl refl

-- Behind such a message the node votes a second time in the term.
second_vote :
    (handle_request_vote inmem
      (handle_append_entries inmem standing heartbeat).0
      vote_request).1.vote_granted
    ≡ true
unfolding handle_append_entries handle_request_vote last_log_info new_store get_log store_logs put
    find
second_vote = refl

abbrev pub peer : String → ℕ → PeerState
peer id index = record { id = id; addr = ""; next_index = 1; match_index = index }

-- A leader of term 1 whose last entry has reached one of its two peers.
abbrev leading : Node Bounded
leading = record voter { current_term = 1; state = leader; peers = peer "s2" 1 ∷ peer "s3" 0 ∷ [] }

advances : (advance_commit_index inmem leading).commit_index ≡ 1
unfolding advance_commit_index new_store get_log store_logs put find
advances = refl

advance_commit_index-Advances_example : Advances inmem leading (advance_commit_index inmem leading)
advance_commit_index-Advances_example = advance_commit_index-Advances inmem leading

abbrev server : String → PeerConfig
server id = record { id = id; address = "" }

-- The candidate in a cluster of three.
abbrev contender : Node Bounded
contender = record standing { config_peers = server "s1" ∷ server "s2" ∷ server "s3" ∷ [] }

-- The refusal of one peer, a request of the other for its vote in an older term, and then its vote.
abbrev refusal : RequestVoteResponse
refusal = record { term = 3; vote_granted = false }

abbrev vote : RequestVoteResponse
vote = record { term = 3; vote_granted = true }

abbrev old_request : RequestVoteRequest
old_request = record { term = 1; candidate_id = "s3"; last_log_index = 0; last_log_term = 0 }

abbrev arrivals : List Arrival
arrivals =
    voted "s2" refusal [] ∷ called (request_vote_command old_request) ∷ voted "s3" vote [] ∷ []

wins : (run_candidate inmem contender arrivals).0.state ≡ leader
unfolding run_candidate quorum handle_request_vote
wins = refl

apart : (p q : String) → str_eq p q ≡ false → p ≢ q
apart p q differ h = let f : true ≡ false = sym ((eq_iff p q).1 h) ∙ differ in cc

responders-IsDistinct : IsDistinct ("s1" ∷ responders arrivals)
unfolding responders
responders-IsDistinct = (
  (λ h. elim h [
    | inl e ↦ apart "s1" "s2" refl (sym e)
    | inr h' ↦ elim h' [ inl e ↦ apart "s1" "s3" refl (sym e) | inr none ↦ none ]
  ]),
  ((λ h. elim h [ inl e ↦ apart "s2" "s3" refl (sym e) | inr none ↦ none ]), ((λ none. none), tt)),
)

run_candidate-majority_example :
    (length contender.config_peers < 2 * length ("s1" ∷ granters arrivals))
    × IsDistinct ("s1" ∷ granters arrivals)
run_candidate-majority_example =
    run_candidate-majority inmem contender arrivals refl responders-IsDistinct wins

abbrev responses : List Arrival
responses = voted "s2" refusal [] ∷ voted "s3" vote [] ∷ []

run_candidate-wins_example :
    ((run_candidate inmem contender responses).0.state ≡ leader)
    ↔ (length contender.config_peers < 2 * (1 + length (granters responses)))
run_candidate-wins_example =
    run_candidate-wins inmem contender responses refl (omega arith, (omega arith, tt))

-- A leftover replicator learns of term 9 between the last vote and the change to leader: the node leads term 9.
abbrev term_led : Node Bounded → Bool × ℕ
term_led n = (is_leader n.state, n.current_term)

unwon_term : term_led (run_candidate inmem contender (voted "s3" vote (9 ∷ []) ∷ [])).0 ≡ (true, 9)
unfolding run_candidate quorum become_leader step_down persist_state
unwon_term = refl
