-- ===== src/Raft/Node.antt =====
-- The state of a RaftNode (internal/raft/raft.go) and the steps that its handlers share. Each handler
-- holds the node's lock, so it is a function on this state.
use claude_ds_project.Base.{ℕ, List, [], ◌∷◌, Option, none, some, ◌==◌, if◌then◌else◌}
use Prim.Native.String.{String}
use text.Mathlib.Text.{◌==◌ as str_eq}
use claude_ds_project.Raft.Types.{ServerState, follower, LogEntry, PeerConfig, PeerState}
use claude_ds_project.Raft.LogStore.{LogStore}

-- What persistState has written to the StableStore.
pub record Stable : Type 0 where
  pub current_term : ℕ
  pub voted_for : String

-- RaftNode; `""` is no vote, and no known leader. The futures of clients are not modelled.
pub record Node (Store : Type 0) : Type 0 where
  pub server_id : String
  pub config_peers : List PeerConfig
  pub current_term : ℕ
  pub voted_for : String
  pub log : Store
  pub stable : Stable
  pub state : ServerState
  pub commit_index : ℕ
  pub last_applied : ℕ
  pub peers : List PeerState
  pub leader_id : String
  pub leader_addr : String

module _ {Store : Type 0} where
  -- persistState
  unfoldable pub persist_state : Node Store → Node Store
  persist_state n = record n {
    stable = record { current_term = n.current_term; voted_for = n.voted_for };
  }

  -- restoreState: the persistent state is read back, by NewRaftNode, with the volatile state reset.
  unfoldable pub restart : Node Store → Node Store
  restart n = record n {
    current_term = n.stable.current_term;
    voted_for = n.stable.voted_for;
    state = follower;
    commit_index = 0;
    last_applied = 0;
    peers = [];
    leader_id = "";
    leader_addr = "";
  }

  -- stepDown
  unfoldable pub step_down : Node Store → ℕ → Node Store
  unfolding persist_state
  step_down n new_term = persist_state (record n {
    current_term = new_term;
    state = follower;
    voted_for = "";
    leader_id = "";
    leader_addr = "";
  })

-- The address of a peer: the loop over the configuration that stops at the first match.
unfoldable pub address_of : String → List PeerConfig → String → String
address_of id [] default = default
address_of id (p ∷ ps) default =
    let rest = address_of id ps default in if str_eq p.id id then p.address else rest

module _ (L : LogStore) where
  open L use {Store, last_index, get_log}

  abbrev info_of : Option LogEntry → ℕ × ℕ
  info_of none = (0, 0)
  info_of (some e) = (e.index, e.term)

  -- lastLogInfo
  unfoldable pub last_log_info : Store → ℕ × ℕ
  last_log_info log = if last_index log == 0 then (0, 0) else info_of (get_log log (last_index log))
