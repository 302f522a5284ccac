-- ===== src/Raft/Config/Laws.antt =====
-- Valid configurations (internal/raft/config.go), and the timeouts that they give.
use claude_ds_project.Base.{
  ℕ, ◌+◌, ◌-◌, ◌≤◌, ◌<◌, ◌≡◌, ◌≢◌, ◌⊎◌, ◌↔◌, inl, inr, refl, sym, ◌∙◌, List, [], ◌∷◌, Option, none,
  some, Bool, true, false, Bool-cases, not, if◌then◌else◌, arith,
}
use Prim.Native.String.{String}
use text.Mathlib.Text.{◌==◌ as str_eq}
use text.Mathlib.TextEquality.{eq_iff}
use claude_ds_project.GoInt
use claude_ds_project.GoInt.{half, range}
use claude_ds_project.Raft.Types.{PeerConfig}
use claude_ds_project.Raft.Safety.Count.{IsAmong}
use claude_ds_project.Raft.Config.{
  Field, Config, RaftConfig, is_listed, is_empty, validate, random_election_timeout, peer_configs,
  setup_config,
}

abbrev pub HasMember : String → List PeerConfig → Type 0
HasMember k [] = ⊥
HasMember k (p ∷ ps) = (p.id ≡ k) ⊎ HasMember k ps

-- A duration above zero.
abbrev pub IsPositive : ℕ → Type 0
IsPositive d = (0 < d) × (d < half)

pub record IsValid (c : Config) : Type 0 where
  pub named : c.server_id ≢ ""
  pub member : HasMember c.server_id c.peers
  pub log_store : c.has_log_store ≡ true
  pub stable_store : c.has_stable_store ≡ true
  pub fsm : c.has_fsm ≡ true
  pub heartbeat : IsPositive c.heartbeat_interval
  pub timeout : IsPositive c.election_timeout_min
  pub ordered : (c.election_timeout_min < c.election_timeout_max) × (c.election_timeout_max < half)

-- The durations of a configuration are patterns of an int64.
pub record HasDurations (c : Config) : Type 0 where
  pub heartbeat : c.heartbeat_interval < range
  pub low : c.election_timeout_min < range
  pub high : c.election_timeout_max < range

is_listed-HasMember : (k : String) (ps : List PeerConfig) → HasMember k ps → is_listed k ps ≡ true
unfolding is_listed
is_listed-HasMember k [] h = absurd h
is_listed-HasMember k (p ∷ ps) (inl same) = rw ((eq_iff p.id k).1 same) refl
is_listed-HasMember k (p ∷ ps) (inr later) = ground (arith, is_listed-HasMember k ps later)

HasMember-is_listed : (k : String) (ps : List PeerConfig) → is_listed k ps ≡ true → HasMember k ps
unfolding is_listed
HasMember-is_listed k [] h = let f : false ≡ true = h in cc
HasMember-is_listed k (p ∷ ps) h = elim (Bool-cases (str_eq p.id k)) [
  | inl same ↦ inl ((eq_iff p.id k).0 same)
  | inr other ↦ inr (HasMember-is_listed k ps (rw other at h))
]

not-positive : (d : ℕ) → IsPositive d → GoInt.le d 0 ≡ false
unfolding GoInt.le GoInt.lt
not-positive d h = ground arith

positive : (d : ℕ) → d < range → GoInt.le d 0 ≡ false → IsPositive d
unfolding GoInt.le GoInt.lt
positive d small h = (ground arith, ground arith)

else_none :
    (x : Field) {b : Bool} {rest : Option Field}
    → (if b then some x else rest) ≡ none
    → (b ≡ false) × (rest ≡ none)
else_none x {b = true} h = cc
else_none x {b = false} h = (refl, h)

member-not_empty : (k : String) (ps : List PeerConfig) → HasMember k ps → is_empty ps ≡ false
member-not_empty k [] h = absurd h
member-not_empty k (p ∷ ps) h = refl

not-false : {b : Bool} → not b ≡ false → b ≡ true
not-false {b = true} h = refl
not-false {b = false} h = cc

not_named : (s : String) → s ≢ "" → str_eq s "" ≡ false
not_named s h = elim (Bool-cases (str_eq s "")) [
  | inl same ↦ absurd (h ((eq_iff s "").0 same))
  | inr other ↦ other
]

ordered-le : (a b : ℕ) → a < half → a < b → b < half → GoInt.le b a ≡ false
unfolding GoInt.le GoInt.lt
ordered-le a b h k l = ground arith

le-ordered : (a b : ℕ) → a < half → b < range → GoInt.le b a ≡ false → (a < b) × (b < half)
unfolding GoInt.le GoInt.lt
le-ordered a b h k l = (ground arith, ground arith)

-- When the durations are of 64 bits, validate accepts exactly the configurations with a named server that is
-- among the peers, the two stores, a state machine, a positive heartbeat interval, and a positive minimal
-- election timeout below the maximal one.
pub validate-iff-IsValid : (c : Config) → HasDurations c → (validate c ≡ none) ↔ IsValid c
unfolding validate
validate-iff-IsValid c d = (
  λ h.
      let (a, h1) = else_none Field.server_id h in
      let (_, h2) = else_none Field.peers h1 in
      let (log, h3) = else_none Field.log_store h2 in
      let (stable, h4) = else_none Field.stable_store h3 in
      let (machine, h5) = else_none Field.fsm h4 in
      let (beat, h6) = else_none Field.heartbeat_interval h5 in
      let (low, h7) = else_none Field.election_timeout h6 in
      let (high, h8) = else_none Field.election_timeout h7 in
      let timeout = positive c.election_timeout_min d.low low in
      record {
        named = λ e. let f = sym a ∙ (eq_iff c.server_id "").1 e in cc;
        member = HasMember-is_listed c.server_id c.peers (listed Field.server_not_found h8);
        log_store = not-false log;
        stable_store = not-false stable;
        fsm = not-false machine;
        heartbeat = positive c.heartbeat_interval d.heartbeat beat;
        timeout = timeout;
        ordered = le-ordered c.election_timeout_min c.election_timeout_max timeout.1 d.high high;
      },
  λ v.
      rw
        (
          not_named c.server_id v.named,
          member-not_empty c.server_id c.peers v.member,
          v.log_store,
          v.stable_store,
          v.fsm,
          not-positive c.heartbeat_interval v.heartbeat,
          not-positive c.election_timeout_min v.timeout,
          ordered-le c.election_timeout_min c.election_timeout_max v.timeout.1 v.ordered.0
              v.ordered.1,
          is_listed-HasMember c.server_id c.peers v.member,
        )
        refl,
)
  where
    listed : (x : Field) {b : Bool} → (if b then none else some x) ≡ none → b ≡ true
    listed x {b = true} h = refl
    listed x {b = false} h = cc

-- With a configuration that validate accepts, of durations of 64 bits, the election timeout never panics, and is
-- at least the minimum and below the maximum, when rand.Int63n returns a number below its positive bound.
pub random_election_timeout-within :
    (int63n : ℕ → ℕ) (c : Config)
    → ((n : ℕ) → 0 < n → int63n n < n)
    → HasDurations c
    → validate c ≡ none
    → (t : ℕ) × (random_election_timeout int63n c ≡ some t)
      × (c.election_timeout_min ≤ t)
      × (t < c.election_timeout_max)
unfolding random_election_timeout
random_election_timeout-within int63n c law d h =
    let v = (validate-iff-IsValid c d).0 h in
    let low = c.election_timeout_min in
    let high = c.election_timeout_max in
    let delta : GoInt.sub high low ≡ high - low =
      GoInt.sub-small high low (omega (arith, v.ordered)) v.ordered.1 in
    let drawn : int63n (high - low) < high - low = law (high - low) (omega (arith, v.ordered)) in
    let sum : GoInt.add low (int63n (high - low)) ≡ low + int63n (high - low) =
      GoInt.add-small low (int63n (high - low)) (omega (arith, v.ordered, drawn)) in
    (
      low + int63n (high - low),
      rw
          (
            delta,
            not-positive (high - low) (omega (arith, v.ordered), omega (arith, v.ordered)),
            sum,
          )
          refl,
      omega arith,
      omega (arith, drawn, v.ordered),
    )

peer_configs-HasMember :
    (k : String) (ps : List String) → IsAmong k ps → HasMember k (peer_configs ps)
peer_configs-HasMember k [] h = absurd h
peer_configs-HasMember k (p ∷ ps) (inl same) = inl same
peer_configs-HasMember k (p ∷ ps) (inr later) = inr (peer_configs-HasMember k ps later)

-- SetupRaft makes a valid configuration when it is given an address that is among the peers, and no durations.
pub setup_config-IsValid :
    (c : RaftConfig)
    → c.bind_addr ≢ ""
    → IsAmong c.bind_addr c.peers
    → c.heartbeat_interval ≡ 0
    → c.election_timeout_min ≡ 0
    → c.election_timeout_max ≡ 0
    → validate (setup_config c) ≡ none
unfolding setup_config
setup_config-IsValid c named among beat low high =
    (validate-iff-IsValid (setup_config c) (record {
      heartbeat = rw beat (omega arith);
      low = rw low (omega arith);
      high = rw high (omega arith);
    })).1
      (record {
        named = named;
        member = peer_configs-HasMember c.bind_addr c.peers among;
        log_store = refl;
        stable_store = refl;
        fsm = refl;
        heartbeat = rw beat (omega arith, omega arith);
        timeout = rw low (omega arith, omega arith);
        ordered = rw (low, high) (omega arith, omega arith);
      })
