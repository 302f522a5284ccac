-- ===== src/Raft/Config.antt =====
-- internal/raft/config.go, the election timeout of internal/raft/raft.go, and the configuration that SetupRaft of
-- internal/server/cluster.go makes. A duration is an int64; for an interface only whether it is nil matters.
pub mod Laws
use claude_ds_project.Base.{
  ℕ, ◌+◌, ◌%◌, List, [], ◌∷◌, Option, none, some, Bool, true, false, not, ◌==◌, if◌then◌else◌,
}
use Prim.Native.String.{String}
use text.Mathlib.Text.{◌==◌ as str_eq}
use claude_ds_project.GoInt
use claude_ds_project.Raft.Types.{PeerConfig}

-- The argument of ErrConfigMissingField.
pub data Field : Type 0 where
  server_id peers log_store stable_store fsm heartbeat_interval election_timeout server_not_found :
      Field

-- Config, with whether LogStore, StableStore and FSM are there.
pub record Config : Type 0 where
  pub server_id : String
  pub peers : List PeerConfig
  pub heartbeat_interval : ℕ
  pub election_timeout_min : ℕ
  pub election_timeout_max : ℕ
  pub has_log_store : Bool
  pub has_stable_store : Bool
  pub has_fsm : Bool

-- DefaultConfig; 1 ms is 1000000.
abbrev pub default_config : Config
default_config = record {
  server_id = "";
  peers = [];
  heartbeat_interval = 150000000;
  election_timeout_min = 1000000000;
  election_timeout_max = 2000000000;
  has_log_store = false;
  has_stable_store = false;
  has_fsm = false;
}

-- The loop that looks for the server in the list.
unfoldable pub is_listed : String → List PeerConfig → Bool
is_listed k [] = false
is_listed k (p ∷ ps) = let rest = is_listed k ps in if str_eq p.id k then true else rest

abbrev pub is_empty : List PeerConfig → Bool
is_empty [] = true
is_empty (p ∷ ps) = false

-- validate; `none` is no error.
unfoldable pub validate : Config → Option Field
unfolding is_listed
validate c =
    if str_eq c.server_id ""
    then some server_id
    else if is_empty c.peers
    then some peers
    else if not c.has_log_store
    then some log_store
    else if not c.has_stable_store
    then some stable_store
    else if not c.has_fsm
    then some fsm
    else if GoInt.le c.heartbeat_interval 0
    then some heartbeat_interval
    else if GoInt.le c.election_timeout_min 0
    then some election_timeout
    else if GoInt.le c.election_timeout_max c.election_timeout_min
    then some election_timeout
    else if is_listed c.server_id c.peers
    then none
    else some server_not_found

-- randomElectionTimeout, with rand.Int63n as an argument, which panics at a bound that is not positive.
unfoldable pub random_election_timeout : (ℕ → ℕ) → Config → Option ℕ
random_election_timeout int63n c =
    let delta = GoInt.sub c.election_timeout_max c.election_timeout_min in
    if GoInt.le delta 0 then none else some (GoInt.add c.election_timeout_min (int63n delta))

-- RaftConfig of cluster.go: the part that SetupRaft makes the configuration of.
pub record RaftConfig : Type 0 where
  pub bind_addr : String
  pub peers : List String
  pub election_timeout_min : ℕ
  pub election_timeout_max : ℕ
  pub heartbeat_interval : ℕ

abbrev pub peer_configs : List String → List PeerConfig
peer_configs [] = []
peer_configs (p ∷ ps) = record { id = p; address = p } ∷ peer_configs ps

abbrev pub or_default : ℕ → ℕ → ℕ
or_default d fallback = if d == 0 then fallback else d

-- The configuration that SetupRaft gives to NewRaftNode.
unfoldable pub setup_config : RaftConfig → Config
setup_config c = record {
  server_id = c.bind_addr;
  peers = peer_configs c.peers;
  heartbeat_interval = or_default c.heartbeat_interval default_config.heartbeat_interval;
  election_timeout_min = or_default c.election_timeout_min default_config.election_timeout_min;
  election_timeout_max = or_default c.election_timeout_max default_config.election_timeout_max;
  has_log_store = true;
  has_stable_store = true;
  has_fsm = true;
}
