-- ===== src/Raft/Safety/Voting.antt =====
-- The invariant behind a vote that is granted.
use claude_ds_project.Base.{
  ℕ, ◌≤◌, ◌<◌, ◌≡◌, ◌≢◌, ◌⊎◌, inl, inr, sym, ap, ◌∙◌, List, ◌∷◌, Bool, true, Bool-cases, length,
  arith,
}
use Prim.Native.String.{String}
use claude_ds_project.Raft.Types.{is_follower, RequestVoteRequest}
use claude_ds_project.Raft.Node.{Node}
use claude_ds_project.Raft.Election.Laws.{IsPersisted}
use claude_ds_project.Raft.Safety.Change.{HasSameConfig}
use claude_ds_project.Raft.Safety.Cluster.{Cast, WasCast, Reign, HasLed}
use claude_ds_project.Raft.Safety.Invariant.{NodeHolds, NodeHolds-follower, IsElected, GhostHolds}

module _ (members : List String) (cast : List Cast) (reigns : List Reign) (x : Cast) where
  -- Another node's vote leaves what holds of a node.
  pub NodeHolds-cast :
      {Store : Type 0} (w : String) (n : Node Store) (heard : String → Bool) (votes : ℕ)
      → w ≢ x.voter
      → NodeHolds members cast reigns w n heard votes
      → NodeHolds members (x ∷ cast) reigns w n heard votes
  NodeHolds-cast w n heard votes other h = record {
    named = h.named;
    configured = h.configured;
    on_disk = h.on_disk;
    own_vote = h.own_vote;
    cast_before =
        λ t c k. elim k [ inl new ↦ absurd (other (sym new.0)) | inr old ↦ h.cast_before t c old ];
    cast_now = λ c k. elim k [ inl new ↦ absurd (other (sym new.0)) | inr old ↦ h.cast_now c old ];
    heard_cast = λ q p k. elim (h.heard_cast q p k) [ inl own ↦ inl own | inr old ↦ inr (inr old) ];
    votes_heard = h.votes_heard;
    led_before = h.led_before;
    led_now = h.led_now;
    leads = h.leads;
  }

  -- A reign stands, unless its ruler votes in its term.
  IsElected-cast :
      (t : ℕ) (l : String)
      → ((x.voter ≡ l) → (x.term ≡ t) → ⊥)
      → IsElected members cast t l
      → IsElected members (x ∷ cast) t l
  IsElected-cast t l none e = record {
    has_name = e.has_name;
    supporters = e.supporters;
    enough = e.enough;
    supported = λ p k. elim (e.supported p k) [ inl own ↦ inl own | inr old ↦ inr (inr old) ];
    loyal = λ c k. elim k [ inl new ↦ none new.0 new.1 | inr old ↦ e.loyal c old ];
  }

  pub GhostHolds-cast :
      GhostHolds members cast reigns
      → x.candidate_id ≢ ""
      → ((c : String) → WasCast cast x.voter x.term c → c ≡ x.candidate_id)
      → ¬ HasLed reigns x.term x.voter
      → GhostHolds members (x ∷ cast) reigns
  GhostHolds-cast g named same none = record {
    one_vote = λ v t c c' h k. elim h [
      | inl new ↦ elim k [
        | inl new' ↦ sym new.2 ∙ new'.2
        | inr old' ↦ sym new.2 ∙ sym (same c' (rw (new.0, new.1) old'))
      ]
      | inr old ↦ elim k [
        | inl new' ↦ same c (rw (new'.0, new'.1) old) ∙ new'.2
        | inr old' ↦ g.one_vote v t c c' old old'
      ]
    ];
    vote_named = λ v t c h. elim h [
      | inl new ↦ (λ none'. named (new.2 ∙ none'))
      | inr old ↦ g.vote_named v t c old
    ];
    elected = λ t l h. IsElected-cast t l (λ p q. none (rw (p, q) h)) (g.elected t l h);
  }

module _ (members : List String) (cast : List Cast) (reigns : List Reign) (v : String)
    {Store : Type 0} (n m : Node Store) (heard : String → Bool) (votes : ℕ)
    (req : RequestVoteRequest) (h : NodeHolds members cast reigns v n heard votes)
    (g : GhostHolds members cast reigns) (named : req.candidate_id ≢ "")
    (foreign : req.candidate_id ≢ v) where
  -- How the voter stood to the request that it grants.
  abbrev pub Given : Type 0
  Given =
      ((n.current_term < req.term) × (is_follower m.state ≡ true))
      ⊎ ((n.current_term ≡ req.term)
          × ((n.voted_for ≡ "") ⊎ (n.voted_for ≡ req.candidate_id))
          × (m.state ≡ n.state))

  -- It had voted for nobody else in the term.
  pub given-same : Given → (c : String) → WasCast cast v req.term c → c ≡ req.candidate_id
  given-same (inl newer) c w = absurd (omega (arith, newer.0, h.cast_before req.term c w))
  given-same (inr (t, inl none, _)) c w =
      absurd (g.vote_named v req.term c w (sym (h.cast_now c (rw t w)).1 ∙ none))
  given-same (inr (t, inr own, _)) c w = sym (h.cast_now c (rw t w)).1 ∙ own

  -- It does not rule the term.
  pub given-loyal : Given → ¬ HasLed reigns req.term v
  given-loyal (inl newer) w = omega (arith, newer.0, h.led_before req.term w)
  given-loyal (inr (t, inl none, _)) w =
      (g.elected req.term v w).has_name (sym (h.led_now (rw t w)) ∙ none)
  given-loyal (inr (t, inr own, _)) w = foreign (sym own ∙ h.led_now (rw t w))

  -- It follows.
  given-follows : Given → is_follower m.state ≡ true
  given-follows (inl newer) = newer.1
  given-follows (inr (t, free, same)) = elim (Bool-cases (is_follower n.state)) [
    | inl quiet ↦ rw same quiet
    | inr other ↦
        let own = h.own_vote other in
        elim free [
          | inl none ↦ absurd (own.1 (sym own.0 ∙ none))
          | inr voted ↦ absurd (foreign (sym voted ∙ own.0))
        ]
  ]

  given-term : Given → n.current_term ≤ req.term
  given-term (inl newer) = omega (arith, newer.0)
  given-term (inr (t, _, _)) = omega (arith, t)

  pub NodeHolds-given :
      Given
      → HasSameConfig n m
      → m.current_term ≡ req.term
      → m.voted_for ≡ req.candidate_id
      → IsPersisted m
      → NodeHolds members
          (record { voter = v; term = req.term; candidate_id = req.candidate_id } ∷ cast)
          reigns
          v
          m
          heard
          votes
  NodeHolds-given how s t e p =
      NodeHolds-follower members _ reigns v m heard votes (given-follows how) (s.same_id ∙ h.named)
        (ap length s.same_peers ∙ h.configured) p
        (λ k c w. elim w [
          | inl new ↦ omega (arith, new.1, t)
          | inr old ↦ omega (arith, t, given-term how, h.cast_before k c old)
        ])
        (λ c w. elim w [ inl new ↦ e ∙ new.2 | inr old ↦ e ∙ sym (given-same how c (rw t at old)) ])
        (λ k w. omega (arith, t, given-term how, h.led_before k w))
        (λ w. absurd (given-loyal how (rw t at w)))
