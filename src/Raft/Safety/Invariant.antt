-- ===== src/Raft/Safety/Invariant.antt =====
-- The invariant of the election: what holds of each node, of the votes and of the reigns.
use claude_ds_project.Base.{
  ℕ, ◌+◌, ◌/◌, ◌≤◌, ◌≡◌, ◌≢◌, ◌⊎◌, inl, inr, sym, ap, ◌∙◌, List, Bool, true, false, length, arith,
}
use Prim.Native.String.{String}
use claude_ds_project.Raft.Types.{ServerState, follower, candidate, leader, is_follower}
use claude_ds_project.Raft.Node.{Node}
use claude_ds_project.Raft.Election.Laws.{IsPersisted}
use claude_ds_project.Raft.Safety.Count.{count, count_shared}
use claude_ds_project.Raft.Safety.Change.{Change, kept, moved, forgot}
use claude_ds_project.Raft.Safety.Cluster.{Cast, WasCast, Reign, HasLed}

-- The majority of a cluster with these members.
abbrev pub majority_of : List String → ℕ
majority_of members = length members / 2 + 1

-- Node `v`: `heard` and `votes` are what it has counted in the election that it stands in.
pub record NodeHolds {Store : Type 0} (members : List String) (cast : List Cast)
    (reigns : List Reign) (v : String) (n : Node Store) (heard : String → Bool) (votes : ℕ)
    : Type 0 where
  pub named : n.server_id ≡ v
  pub configured : length n.config_peers ≡ length members
  pub on_disk : IsPersisted n
  pub own_vote : is_follower n.state ≡ false → (n.voted_for ≡ v) × (v ≢ "")
  pub cast_before : (t : ℕ) (c : String) → WasCast cast v t c → t ≤ n.current_term
  pub cast_now :
      (c : String)
      → WasCast cast v n.current_term c
      → (is_follower n.state ≡ true) × (n.voted_for ≡ c)
  pub heard_cast :
      n.state ≡ candidate
      → (p : String) → heard p ≡ true
      → (p ≡ v) ⊎ WasCast cast p n.current_term v
  pub votes_heard : n.state ≡ candidate → votes ≤ count heard members
  pub led_before : (t : ℕ) → HasLed reigns t v → t ≤ n.current_term
  pub led_now : HasLed reigns n.current_term v → n.voted_for ≡ v
  pub leads : n.state ≡ leader → HasLed reigns n.current_term v

-- A reign rests on a majority of the members: its ruler, and voters for it.
pub record IsElected (members : List String) (cast : List Cast) (t : ℕ) (l : String) : Type 0 where
  pub has_name : l ≢ ""
  pub supporters : String → Bool
  pub enough : majority_of members ≤ count supporters members
  pub supported : (p : String) → supporters p ≡ true → (p ≡ l) ⊎ WasCast cast p t l
  pub loyal : (c : String) → ¬ WasCast cast l t c

pub record GhostHolds (members : List String) (cast : List Cast) (reigns : List Reign)
    : Type 0 where
  pub one_vote :
      (v : String) (t : ℕ) (c c' : String) → WasCast cast v t c → WasCast cast v t c' → c ≡ c'
  pub vote_named : (v : String) (t : ℕ) (c : String) → WasCast cast v t c → c ≢ ""
  pub elected : (t : ℕ) (l : String) → HasLed reigns t l → IsElected members cast t l

-- Two reigns in one term have one ruler: two majorities share a member.
pub one_ruler :
    (members : List String) (cast : List Cast) (reigns : List Reign) (t : ℕ) (l l' : String)
    → GhostHolds members cast reigns
    → HasLed reigns t l
    → HasLed reigns t l'
    → l ≡ l'
one_ruler members cast reigns t l l' g h k =
    let e = g.elected t l h in
    let f = g.elected t l' k in
    let (p, x, y) =
      count_shared e.supporters f.supporters members (omega (arith, e.enough, f.enough)) in
    elim (e.supported p x) [
      | inl first ↦ elim (f.supported p y) [
        | inl second ↦ sym first ∙ second
        | inr voted ↦ absurd (e.loyal l' (rw first at voted))
      ]
      | inr voted ↦ elim (f.supported p y) [
        | inl second ↦ absurd (f.loyal l (rw second at voted))
        | inr voted' ↦ g.one_vote p t l l' voted voted'
      ]
    ]

pub follower_not_candidate :
    {s : ServerState} {A : Type 0} → is_follower s ≡ true → s ≡ candidate → A
follower_not_candidate {s = follower} h k = cc
follower_not_candidate {s = candidate} h k = cc
follower_not_candidate {s = leader} h k = cc

pub follower_not_leader : {s : ServerState} {A : Type 0} → is_follower s ≡ true → s ≡ leader → A
follower_not_leader {s = follower} h k = cc
follower_not_leader {s = candidate} h k = cc
follower_not_leader {s = leader} h k = cc

pub follower_not_other : {b : Bool} {A : Type 0} → b ≡ true → b ≡ false → A
follower_not_other h k = cc

module _ {Store : Type 0} (members : List String) (cast : List Cast) (reigns : List Reign)
    (v : String) where
  -- What a node that follows has to keep.
  pub NodeHolds-follower :
      (m : Node Store) (heard : String → Bool) (votes : ℕ)
      → is_follower m.state ≡ true
      → m.server_id ≡ v
      → length m.config_peers ≡ length members
      → IsPersisted m
      → ((t : ℕ) (c : String) → WasCast cast v t c → t ≤ m.current_term)
      → ((c : String) → WasCast cast v m.current_term c → m.voted_for ≡ c)
      → ((t : ℕ) → HasLed reigns t v → t ≤ m.current_term)
      → (HasLed reigns m.current_term v → m.voted_for ≡ v)
      → NodeHolds members cast reigns v m heard votes
  NodeHolds-follower m heard votes f id conf disk before now led led' = record {
    named = id;
    configured = conf;
    on_disk = disk;
    own_vote = λ q. follower_not_other f q;
    cast_before = before;
    cast_now = λ c w. (f, now c w);
    heard_cast = λ q. follower_not_candidate f q;
    votes_heard = λ q. follower_not_candidate f q;
    led_before = led;
    led_now = led';
    leads = λ q. follower_not_leader f q;
  }

  -- A change of a node keeps what holds of it; a vote is forgotten by no ruler of the term.
  pub NodeHolds-Change :
      {F : Type 0} (n m : Node Store) (heard : String → Bool) (votes : ℕ)
      → NodeHolds members cast reigns v n heard votes
      → (F → ¬ HasLed reigns n.current_term v)
      → Change F n m
      → NodeHolds members cast reigns v m heard votes
  NodeHolds-Change n m heard votes h none (kept s t e (inl f) p) = record {
    named = s.same_id ∙ h.named;
    configured = ap length s.same_peers ∙ h.configured;
    on_disk = p h.on_disk;
    own_vote = λ q. let own = h.own_vote (rw f at q) in (e ∙ own.0, own.1);
    cast_before = λ k c w. rw t (h.cast_before k c w);
    cast_now = λ c w. let old = h.cast_now c (rw t at w) in (rw f old.0, e ∙ old.1);
    heard_cast = λ q k w. rw t (h.heard_cast (sym f ∙ q) k w);
    votes_heard = λ q. h.votes_heard (sym f ∙ q);
    led_before = λ k w. rw t (h.led_before k w);
    led_now = λ w. e ∙ h.led_now (rw t at w);
    leads = λ q. rw t (h.leads (sym f ∙ q));
  }
  NodeHolds-Change n m heard votes h none (kept s t e (inr f) p) =
      NodeHolds-follower m heard votes f (s.same_id ∙ h.named)
        (ap length s.same_peers ∙ h.configured) (p h.on_disk) (λ k c w. rw t (h.cast_before k c w))
        (λ c w. e ∙ (h.cast_now c (rw t at w)).1) (λ k w. rw t (h.led_before k w))
        (λ w. e ∙ h.led_now (rw t at w))
  NodeHolds-Change n m heard votes h none (moved s t e f p) =
      NodeHolds-follower m heard votes f (s.same_id ∙ h.named)
        (ap length s.same_peers ∙ h.configured) p (λ k c w. omega (arith, t, h.cast_before k c w))
        (λ c w. absurd (omega (arith, t, h.cast_before m.current_term c w)))
        (λ k w. omega (arith, t, h.led_before k w))
        (λ w. absurd (omega (arith, t, h.led_before m.current_term w)))
  NodeHolds-Change n m heard votes h none (forgot a s t o e f p) =
      NodeHolds-follower m heard votes f (s.same_id ∙ h.named)
        (ap length s.same_peers ∙ h.configured) p (λ k c w. rw t (h.cast_before k c w))
        (λ c w. follower_not_other (h.cast_now c (rw t at w)).0 o) (λ k w. rw t (h.led_before k w))
        (λ w. absurd (none a (rw t at w)))
