-- ===== src/Raft/Safety/Winning.antt =====
-- The invariant behind an election: standing, counting, winning.
use claude_ds_project.Base.{
  ℕ, suc, ◌+◌, ◌≤◌, ◌<◌, ◌≡◌, ◌≢◌, ◌⊎◌, inl, inr, refl, sym, ap, ◌∙◌, List, [], ◌∷◌, Bool, true,
  false, length, arith,
}
use Prim.Native.String.{String}
use text.Mathlib.Text.{◌==◌ as str_eq}
use text.Mathlib.TextEquality.{eq_iff}
use claude_ds_project.Raft.Types.{ServerState, candidate, leader, follower, is_follower}
use claude_ds_project.Raft.LogStore.{LogStore}
use claude_ds_project.Raft.Node.{Node, persist_state}
use claude_ds_project.Raft.Election.{start_election, election_timeout, become_leader, quorum}
use claude_ds_project.Raft.Election.Laws.{IsPersisted}
use claude_ds_project.Raft.Safety.Count.{count, count-set, set_at, set_at-elim, IsAmong}
use claude_ds_project.Raft.Safety.Cluster.{Cast, WasCast, Reign, standing, only}
use claude_ds_project.Raft.Safety.Invariant.{
  NodeHolds, IsElected, GhostHolds, follower_not_candidate,
}

count-only : (v : String) (ps : List String) → IsAmong v ps → 1 ≤ count (λ p. str_eq p v) ps
unfolding count
count-only v [] among = elim among [ ]
count-only v (p ∷ ps) (inl here) = ground (arith, (eq_iff p v).1 here)
count-only v (p ∷ ps) (inr there) = ground (arith, count-only v ps there)

candidate_stands : {s : ServerState} → s ≡ candidate → is_follower s ≡ false
candidate_stands {s = follower} h = cc
candidate_stands {s = candidate} h = refl
candidate_stands {s = leader} h = refl

candidate_not_leader : {s : ServerState} {A : Type 0} → s ≡ candidate → s ≡ leader → A
candidate_not_leader h k = cc

leader_not_candidate : {A : Type 0} → leader ≡ candidate → A
leader_not_candidate h = cc

module _ (L : LogStore) (members : List String) (cast : List Cast) (reigns : List Reign)
    (v : String) where
  open L use {Store}

  -- What standing in an election does.
  standing-term :
      (n : Node Store)
      → suc n.current_term < 18446744073709551616
      → (standing L n).current_term ≡ suc n.current_term
  unfolding start_election election_timeout persist_state
  standing-term n room = omega arith

  standing-fields :
      (n : Node Store)
      → ((standing L n).server_id ≡ n.server_id)
        × ((standing L n).config_peers ≡ n.config_peers)
        × ((standing L n).voted_for ≡ n.server_id)
        × ((standing L n).state ≡ candidate)
        × IsPersisted (standing L n)
  unfolding start_election election_timeout persist_state
  standing-fields n = (refl, refl, refl, refl, refl)

  pub NodeHolds-standing :
      (n : Node Store) (heard : String → Bool) (votes : ℕ)
      → NodeHolds members cast reigns v n heard votes
      → IsAmong v members
      → v ≢ ""
      → suc n.current_term < 18446744073709551616
      → NodeHolds members cast reigns v (standing L n) (only L v) 1
  NodeHolds-standing n heard votes h among name room =
      let t = standing-term n room in
      let (id, conf, voted, state, disk) = standing-fields n in
      record {
        named = id ∙ h.named;
        configured = ap length conf ∙ h.configured;
        on_disk = disk;
        own_vote = λ q. (voted ∙ h.named, name);
        cast_before = λ k c w. omega (arith, t, h.cast_before k c w);
        cast_now = λ c w. absurd (omega (arith, t, h.cast_before _ c w));
        heard_cast = λ q p k. inl ((eq_iff p v).0 k);
        votes_heard = λ q. count-only v members among;
        led_before = λ k w. omega (arith, t, h.led_before k w);
        led_now = λ w. absurd (omega (arith, t, h.led_before _ w));
        leads = λ q. candidate_not_leader state q;
      }

module _ (members : List String) (cast : List Cast) (reigns : List Reign) (v : String)
    {Store : Type 0} (n : Node Store) (heard : String → Bool) (votes : ℕ)
    (h : NodeHolds members cast reigns v n heard votes) (stands : n.state ≡ candidate) where
  -- One more vote is counted.
  pub NodeHolds-counted :
      (p : String)
      → IsAmong p members
      → heard p ≡ false
      → WasCast cast p n.current_term v
      → NodeHolds members cast reigns v n (set_at p true heard) (votes + 1)
  NodeHolds-counted p among new w = record {
    named = h.named;
    configured = h.configured;
    on_disk = h.on_disk;
    own_vote = h.own_vote;
    cast_before = h.cast_before;
    cast_now = h.cast_now;
    heard_cast = λ q k.
        set_at-elim (λ j b. b ≡ true → (j ≡ v) ⊎ WasCast cast j n.current_term v) p true heard k
          (λ _. inr w) (λ _ old. h.heard_cast q k old);
    votes_heard = λ q. omega (arith, count-set heard p members among new, h.votes_heard q);
    led_before = h.led_before;
    led_now = h.led_now;
    leads = h.leads;
  }

  -- Enough votes make a reign, and the node its ruler.
  pub IsElected-won : quorum n ≤ votes → IsElected members cast n.current_term v
  unfolding quorum
  IsElected-won enough = record {
    has_name = (h.own_vote (candidate_stands stands)).1;
    supporters = heard;
    enough = omega (arith, enough, h.votes_heard stands, h.configured);
    supported = h.heard_cast stands;
    loyal = λ c w. follower_not_candidate (h.cast_now c w).0 stands;
  }

  abbrev pub reign : Reign
  reign = record { term = n.current_term; ruler = v }

  pub NodeHolds-won : NodeHolds members cast (reign ∷ reigns) v (become_leader n) heard votes
  unfolding become_leader
  NodeHolds-won =
      let own = h.own_vote (candidate_stands stands) in
      record {
        named = h.named;
        configured = h.configured;
        on_disk = h.on_disk;
        own_vote = λ q. own;
        cast_before = h.cast_before;
        cast_now = λ c w. follower_not_candidate (h.cast_now c w).0 stands;
        heard_cast = λ q. leader_not_candidate q;
        votes_heard = λ q. leader_not_candidate q;
        led_before =
            λ k w. elim w [ inl new ↦ omega (arith, new.0) | inr old ↦ h.led_before k old ];
        led_now = λ w. own.0;
        leads = λ q. inl (refl, refl);
      }

module _ (members : List String) (cast : List Cast) (reigns : List Reign) (x : Reign) where
  -- Another node's reign leaves what holds of a node.
  pub NodeHolds-reign :
      {Store : Type 0} (w : String) (n : Node Store) (heard : String → Bool) (votes : ℕ)
      → w ≢ x.ruler
      → NodeHolds members cast reigns w n heard votes
      → NodeHolds members cast (x ∷ reigns) w n heard votes
  NodeHolds-reign w n heard votes other h = record {
    named = h.named;
    configured = h.configured;
    on_disk = h.on_disk;
    own_vote = h.own_vote;
    cast_before = h.cast_before;
    cast_now = h.cast_now;
    heard_cast = h.heard_cast;
    votes_heard = h.votes_heard;
    led_before =
        λ t k. elim k [ inl new ↦ absurd (other (sym new.1)) | inr old ↦ h.led_before t old ];
    led_now = λ k. elim k [ inl new ↦ absurd (other (sym new.1)) | inr old ↦ h.led_now old ];
    leads = λ q. inr (h.leads q);
  }

  pub GhostHolds-reign :
      GhostHolds members cast reigns
      → IsElected members cast x.term x.ruler
      → GhostHolds members cast (x ∷ reigns)
  GhostHolds-reign g e = record {
    one_vote = g.one_vote;
    vote_named = g.vote_named;
    elected = λ t l h. elim h [ inl new ↦ rw⁻¹ (new.0, new.1) e | inr old ↦ g.elected t l old ];
  }
