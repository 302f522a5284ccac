-- ===== src/Examples/Settings.antt =====
-- Configurations (internal/raft/config.go, internal/server/cluster.go).
use claude_ds_project.Base.{ℕ, ◌≡◌, ◌≢◌, ◌↔◌, ◌≤◌, ◌<◌, inl, refl, [], ◌∷◌, none, some, true, arith}
use claude_ds_project.GoInt
use claude_ds_project.Raft.Config.{
  Config, RaftConfig, validate, random_election_timeout, setup_config, is_listed, election_timeout,
}
use claude_ds_project.Raft.Config.Laws.{
  IsValid, HasDurations, validate-iff-IsValid, random_election_timeout-within, setup_config-IsValid,
}

abbrev plain : RaftConfig
plain = record {
  bind_addr = "a1";
  peers = "a1" ∷ "a2" ∷ "a3" ∷ [];
  election_timeout_min = 0;
  election_timeout_max = 0;
  heartbeat_interval = 0;
}

abbrev config : Config
config = record {
  server_id = "a1";
  peers =
      record { id = "a1"; address = "a1" }
      ∷ record { id = "a2"; address = "a2" }
      ∷ record { id = "a3"; address = "a3" }
      ∷ [];
  heartbeat_interval = 150000000;
  election_timeout_min = 1000000000;
  election_timeout_max = 2000000000;
  has_log_store = true;
  has_stable_store = true;
  has_fsm = true;
}

named : plain.bind_addr ≢ ""
named h = cc

durations : HasDurations config
durations = record { heartbeat = omega arith; low = omega arith; high = omega arith }

accepted : validate config ≡ none
unfolding validate GoInt.le GoInt.lt is_listed
accepted = refl

validate-iff-IsValid_example : (validate config ≡ none) ↔ IsValid config
validate-iff-IsValid_example = validate-iff-IsValid config durations

-- The lowest number below a bound.
abbrev least : ℕ → ℕ
least n = 0

random_election_timeout-within_example :
    (t : ℕ) × (random_election_timeout least config ≡ some t)
    × (config.election_timeout_min ≤ t)
    × (t < config.election_timeout_max)
random_election_timeout-within_example =
    random_election_timeout-within least config (λ n h. h) durations accepted

plain_accepted : validate (setup_config plain) ≡ none
plain_accepted = setup_config-IsValid plain named (inl refl) refl refl refl

-- A minimum of two seconds alone, which leaves the default maximum.
minimum_only :
    validate (setup_config (record plain { election_timeout_min = 2000000000 }))
    ≡ some election_timeout
unfolding setup_config validate GoInt.le GoInt.lt is_listed
minimum_only = refl

-- A heartbeat slower than every election timeout is accepted.
slow_heartbeat : validate (record config { heartbeat_interval = 9000000000 }) ≡ none
unfolding validate GoInt.le GoInt.lt is_listed
slow_heartbeat = refl
