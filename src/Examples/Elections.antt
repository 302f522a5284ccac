-- ===== src/Examples/Elections.antt =====
-- Three nodes of which one is elected in term 1 (internal/raft).
use claude_ds_project.Base.{◌≡◌, ◌≢◌, inl, inr, refl, List, [], ◌∷◌, true, false, arith}
use Prim.Native.String.{String}
use text.Mathlib.TextEquality.{eq_iff}
use claude_ds_project.Raft.Types.{follower, leader, RequestVoteRequest, RequestVoteResponse}
use claude_ds_project.Raft.Inmem.{new_store, find, get_log, store_logs, put}
use claude_ds_project.Raft.Inmem.Interface.{Bounded, inmem}
use claude_ds_project.Raft.Node.{Node, last_log_info, persist_state}
use claude_ds_project.Raft.Election.{
  start_election, election_timeout, become_leader, quorum, count_vote, handle_request_vote,
}
use claude_ds_project.Raft.Safety.Count.{set_at}
use claude_ds_project.Raft.Safety.Cluster.{
  Cluster, only, standing, with_vote, stood, won, requested, counted, Run, here, next, IsFresh,
}
use claude_ds_project.Raft.Safety.Elections.{one_leader_a_term}
use claude_ds_project.Examples.Cluster.{log_of}

abbrev members : List String
members = "s1" ∷ "s2" ∷ "s3" ∷ []

abbrev candidate_name : String
candidate_name = "s1"

abbrev node : String → Node Bounded
node v = record {
  server_id = v;
  config_peers =
      record { id = "s1"; address = "a1" }
      ∷ record { id = "s2"; address = "a2" }
      ∷ record { id = "s3"; address = "a3" }
      ∷ [];
  current_term = 0;
  voted_for = "";
  log = log_of [];
  stable = record { current_term = 0; voted_for = "" };
  state = follower;
  commit_index = 0;
  last_applied = 0;
  peers = [];
  leader_id = "";
  leader_addr = "";
}

abbrev before : Cluster inmem
before = record { nodes = node; cast = []; heard = λ v p. false; votes = λ v. 0; reigns = [] }

before-IsFresh : IsFresh inmem members before
before-IsFresh = record {
  named = λ v. refl;
  configured = λ v. refl;
  on_disk = λ v. refl;
  quiet = λ v. refl;
  nothing_cast = refl;
  nobody_led = refl;
}

abbrev stands : Node Bounded
stands = standing inmem (node "s1")

abbrev asking : Cluster inmem
asking = record before {
  nodes = set_at "s1" stands before.nodes;
  heard = set_at "s1" (only inmem "s1") before.heard;
  votes = set_at "s1" 1 before.votes;
}

abbrev ask : RequestVoteRequest
ask = record { term = 1; candidate_id = "s1"; last_log_index = 0; last_log_term = 0 }

abbrev voting : Cluster inmem
voting = record asking {
  nodes = set_at "s2" (handle_request_vote inmem (asking.nodes "s2") ask).0 asking.nodes;
  cast =
      with_vote inmem "s2" ask (handle_request_vote inmem (asking.nodes "s2") ask).1.vote_granted
        [];
}

abbrev granted : RequestVoteResponse
granted = record { term = 1; vote_granted = true }

abbrev heard : Cluster inmem
heard = record voting {
  nodes = set_at "s1" (count_vote (voting.nodes "s1") (voting.votes "s1") granted).0 voting.nodes;
  heard = set_at "s1" (set_at "s2" true (voting.heard "s1")) voting.heard;
  votes = set_at "s1" (count_vote (voting.nodes "s1") (voting.votes "s1") granted).1 voting.votes;
}

abbrev elected : Cluster inmem
elected = record heard {
  nodes = set_at "s1" (become_leader (heard.nodes "s1")) heard.nodes;
  reigns = record { term = (heard.nodes "s1").current_term; ruler = "s1" } ∷ heard.reigns;
}

named : candidate_name ≢ ""
named h = cc

apart : candidate_name ≢ "s2"
apart h = let f : false ≡ true = (eq_iff "s1" "s2").1 h in cc

election : Run inmem members before elected
unfolding set_at start_election election_timeout handle_request_vote last_log_info new_store get_log
    store_logs put find count_vote persist_state quorum become_leader
election =
    next
      (next
        (next (next here (stood "s1" (inl refl) named (omega arith)))
          (requested "s2" ask named apart))
        (counted "s1" "s2" granted named refl (inr (inl refl)) refl refl (inl (refl, refl, refl))
          refl))
      (won "s1" named refl (omega arith))

leads : (elected.nodes "s1").state ≡ leader
unfolding set_at start_election election_timeout handle_request_vote last_log_info new_store get_log
    store_logs put find count_vote persist_state quorum become_leader
leads = refl

one_leader_a_term_example : candidate_name ≡ candidate_name
one_leader_a_term_example =
    one_leader_a_term inmem members before elected before-IsFresh election candidate_name
      candidate_name leads leads refl
