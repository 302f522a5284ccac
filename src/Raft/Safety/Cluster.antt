-- ===== src/Raft/Safety/Cluster.antt =====
-- A cluster: its nodes, the votes that were granted, what each candidate has counted, and who led which
-- term; its steps are the handlers of internal/raft at one node, on messages in any order.
use claude_ds_project.Base.{
  ℕ, suc, ◌≤◌, ◌<◌, ◌≡◌, ◌≢◌, ◌⊎◌, List, [], ◌∷◌, Bool, true, false, if◌then◌else◌, length,
}
use Prim.Native.String.{String}
use text.Mathlib.Text.{◌==◌ as str_eq}
use claude_ds_project.Raft.Types.{
  follower, candidate, LogEntry, PeerState, AppendEntriesRequest, AppendEntriesResponse,
  RequestVoteRequest, RequestVoteResponse,
}
use claude_ds_project.Raft.LogStore.{LogStore}
use claude_ds_project.Raft.Node.{Node, restart}
use claude_ds_project.Raft.Election.{
  election_timeout, start_election, handle_request_vote, become_leader, quorum, count_vote,
}
use claude_ds_project.Raft.AppendEntries.{handle_append_entries}
use claude_ds_project.Raft.Leader.{start_leader, handle_apply_request, handle_append_response}
use claude_ds_project.Raft.Safety.Count.{set_at, IsAmong}

-- A vote that was granted in answer to a request.
pub record Cast : Type 0 where
  pub voter : String
  pub term : ℕ
  pub candidate_id : String

abbrev pub WasCast : List Cast → String → ℕ → String → Type 0
WasCast [] v t c = ⊥
WasCast (x ∷ xs) v t c = ((x.voter ≡ v) × (x.term ≡ t) × (x.candidate_id ≡ c)) ⊎ WasCast xs v t c

-- An election that was won.
pub record Reign : Type 0 where
  pub term : ℕ
  pub ruler : String

abbrev pub HasLed : List Reign → ℕ → String → Type 0
HasLed [] t l = ⊥
HasLed (x ∷ xs) t l = ((x.term ≡ t) × (x.ruler ≡ l)) ⊎ HasLed xs t l

module _ (L : LogStore) where
  open L use {Store}

  -- `heard` and `votes` are of the election that a node is standing in.
  pub record Cluster : Type 0 where
    pub nodes : String → Node Store
    pub cast : List Cast
    pub heard : String → String → Bool
    pub votes : String → ℕ
    pub reigns : List Reign

  abbrev pub only : String → String → Bool
  only v p = str_eq p v

  -- The node that stands in an election behind its timeout: runFollower, and startElection of runCandidate.
  abbrev pub standing : Node Store → Node Store
  standing n = (start_election L (election_timeout n)).0

  abbrev pub with_vote : String → RequestVoteRequest → Bool → List Cast → List Cast
  with_vote v req granted cast =
      if granted
      then record { voter = v; term = req.term; candidate_id = req.candidate_id } ∷ cast
      else cast

  -- One step at node `v` of a cluster with the configured `members`.
  pub data Step (members : List String) (s : Cluster) : Cluster → Type 0 where
    -- It stands, as a member with a name; a term is below the last of 64 bits.
    stood :
        (v : String)
        → IsAmong v members
        → v ≢ ""
        → suc (s.nodes v).current_term < 18446744073709551616
        → Step members s (record s {
          nodes = set_at v (standing (s.nodes v)) s.nodes;
          heard = set_at v (only v) s.heard;
          votes = set_at v 1 s.votes;
        })
    -- A candidate that has counted enough votes takes the lead. Other steps may have come between the last vote and
    -- this one. That it still stands is no test of runCandidate: it holds unless another goroutine steps the node down
    -- in between.
    won :
        (v : String)
        → v ≢ ""
        → (s.nodes v).state ≡ candidate
        → quorum (s.nodes v) ≤ s.votes v
        → Step members s (record s {
          nodes = set_at v (become_leader (s.nodes v)) s.nodes;
          reigns = record { term = (s.nodes v).current_term; ruler = v } ∷ s.reigns;
        })
    -- A request for its vote, of any other node and any content.
    requested :
        (v : String) (req : RequestVoteRequest)
        → req.candidate_id ≢ ""
        → req.candidate_id ≢ v
        → Step members s (record s {
          nodes = set_at v (handle_request_vote L (s.nodes v) req).0 s.nodes;
          cast = with_vote v req (handle_request_vote L (s.nodes v) req).1.vote_granted s.cast;
        })
    -- A vote that was granted in the term of the candidate, and has not been counted, arrives while it stands.
    counted :
        (v p : String) (resp : RequestVoteResponse)
        → v ≢ ""
        → (s.nodes v).state ≡ candidate
        → IsAmong p members
        → resp.vote_granted ≡ true
        → resp.term ≡ (s.nodes v).current_term
        → WasCast s.cast p resp.term v
        → s.heard v p ≡ false
        → Step members s (record s {
          nodes = set_at v (count_vote (s.nodes v) (s.votes v) resp).0 s.nodes;
          heard = set_at v (set_at p true (s.heard v)) s.heard;
          votes = set_at v (count_vote (s.nodes v) (s.votes v) resp).1 s.votes;
        })
    -- A refusal, of any term, arrives.
    turned_down :
        (v : String) (resp : RequestVoteResponse)
        → resp.vote_granted ≡ false
        → Step members s
            (record s { nodes = set_at v (count_vote (s.nodes v) (s.votes v) resp).0 s.nodes })
    -- Entries, of any content, of another node that leads the term of the request.
    appended :
        (v l : String) (req : AppendEntriesRequest)
        → l ≢ v
        → HasLed s.reigns req.term l
        → Step members s
            (record s { nodes = set_at v (handle_append_entries L (s.nodes v) req).0 s.nodes })
    -- The answer of a follower, of any content.
    answered :
        (v : String) (peer : PeerState) (entries : List LogEntry) (resp : AppendEntriesResponse)
        → Step members s (record s {
          nodes = set_at v (handle_append_response L (s.nodes v) peer entries resp) s.nodes;
        })
    -- It starts to lead, or takes a command of a client.
    took_office :
        (v : String)
        → Step members s (record s { nodes = set_at v (start_leader L (s.nodes v)) s.nodes })
    commanded :
        (v : String) (command : List ℕ)
        → Step members s
            (record s { nodes = set_at v (handle_apply_request L (s.nodes v) command) s.nodes })
    -- It crashes and restarts.
    restarted :
        (v : String) → Step members s (record s { nodes = set_at v (restart (s.nodes v)) s.nodes })

  pub data Run (members : List String) (s : Cluster) : Cluster → Type 0 where
    here : Run members s s
    next : {t u : Cluster} → Run members s t → Step members t u → Run members s u

  -- A cluster before any step: every node is a follower that has not voted.
  pub record IsFresh (members : List String) (s : Cluster) : Type 0 where
    pub named : (v : String) → (s.nodes v).server_id ≡ v
    pub configured : (v : String) → length (s.nodes v).config_peers ≡ length members
    pub on_disk :
        (v : String)
        → (s.nodes v).stable
          ≡ record { current_term = (s.nodes v).current_term; voted_for = (s.nodes v).voted_for }
    pub quiet : (v : String) → (s.nodes v).state ≡ follower
    pub nothing_cast : s.cast ≡ []
    pub nobody_led : s.reigns ≡ []
