-- ===== src/Raft/Safety/Elections.antt =====
-- Elections in the runs of a cluster (internal/raft).
use claude_ds_project.Base.{
  ℕ, ◌+◌, ◌≤◌, Bool-cases, ltb, ltb→lt, le→ltb, ◌≡◌, ◌≢◌, inl, inr, refl, ap, List, ◌∷◌, Bool, true,
  false, arith,
}
use Prim.Native.String.{String}
use claude_ds_project.Raft.Types.{
  candidate, leader, is_follower, RequestVoteRequest, RequestVoteResponse,
}
use claude_ds_project.Raft.LogStore.{LogStore}
use claude_ds_project.Raft.Node.{Node}
use claude_ds_project.Raft.Election.{become_leader, quorum, count_vote}
use claude_ds_project.Raft.Safety.Count.{set_at, set_at-elim, set_at-same, set_at-other, name-cases}
use claude_ds_project.Raft.Safety.Change.{
  Change, Asked, gives, denies, restart-Change, handle_append_entries-Change,
  handle_request_vote-Asked, step_down-Change, Change-refl,
}
use claude_ds_project.Raft.Safety.LeaderChange.{
  handle_apply_request-Change, start_leader-Change, handle_append_response-Change,
}
use claude_ds_project.Raft.Safety.Cluster.{
  Cast, Reign, HasLed, Cluster, with_vote, Step, stood, won, requested, counted, turned_down,
  appended, answered, took_office, commanded, restarted, Run, here, next, IsFresh,
}
use claude_ds_project.Raft.Safety.Invariant.{
  NodeHolds, NodeHolds-follower, NodeHolds-Change, GhostHolds, one_ruler,
}
use claude_ds_project.Raft.Safety.Voting.{
  NodeHolds-cast, GhostHolds-cast, NodeHolds-given, given-same, given-loyal,
}
use claude_ds_project.Raft.Safety.Winning.{
  NodeHolds-standing, NodeHolds-counted, IsElected-won, NodeHolds-won, NodeHolds-reign,
  GhostHolds-reign,
}

module _ (L : LogStore) (members : List String) where
  -- The invariant of a cluster.
  pub record Holds (s : Cluster L) : Type 0 where
    pub node :
        (v : String) → NodeHolds members s.cast s.reigns v (s.nodes v) (s.heard v) (s.votes v)
    pub ghost : GhostHolds members s.cast s.reigns

  -- One node changes, and there is neither a vote nor a reign.
  changed-Holds :
      (s : Cluster L) (v : String) {m : Node L.Store} {F : Type 0}
      → Holds s
      → (F → ¬ HasLed s.reigns (s.nodes v).current_term v)
      → Change F (s.nodes v) m
      → Holds (record s { nodes = set_at v m s.nodes })
  changed-Holds s v {m = m} h none c = record {
    node = λ w.
        set_at-elim (λ j n. NodeHolds members s.cast s.reigns j n (s.heard j) (s.votes j)) v m
          s.nodes w
          (NodeHolds-Change members s.cast s.reigns v (s.nodes v) m (s.heard v) (s.votes v)
            (h.node v) none c)
          (λ _. h.node w);
    ghost = h.ghost;
  }

  stood-Holds :
      (s : Cluster L) (v : String) {m : Node L.Store} {heard : String → Bool} {votes : ℕ}
      → Holds s
      → NodeHolds members s.cast s.reigns v m heard votes
      → Holds (record s {
        nodes = set_at v m s.nodes;
        heard = set_at v heard s.heard;
        votes = set_at v votes s.votes;
      })
  stood-Holds s v {m = m} {heard = heard} {votes = votes} h k = record {
    node = λ w. elim (name-cases w v) [
      | inl same ↦
          rw
            (
              same,
              set_at-same v m s.nodes,
              set_at-same v heard s.heard,
              set_at-same v votes s.votes,
            )
            k
      | inr other ↦
          rw
            (
              set_at-other v m s.nodes w other,
              set_at-other v heard s.heard w other,
              set_at-other v votes s.votes w other,
            )
            (h.node w)
    ];
    ghost = h.ghost;
  }

  -- The node of a candidate is replaced by that of a ruler.
  won-Holds :
      (s : Cluster L) (v : String)
      → Holds s
      → (s.nodes v).state ≡ candidate
      → quorum (s.nodes v) ≤ s.votes v
      → Holds (record s {
        nodes = set_at v (become_leader (s.nodes v)) s.nodes;
        reigns = record { term = (s.nodes v).current_term; ruler = v } ∷ s.reigns;
      })
  won-Holds s v h stands enough =
      let x : Reign = record { term = (s.nodes v).current_term; ruler = v } in
      let e =
        IsElected-won members s.cast s.reigns v (s.nodes v) (s.heard v) (s.votes v) (h.node v)
          stands enough in
      record {
        node = λ w.
            set_at-elim (λ j n. NodeHolds members s.cast (x ∷ s.reigns) j n (s.heard j) (s.votes j))
              v (become_leader (s.nodes v)) s.nodes w
              (NodeHolds-won members s.cast s.reigns v (s.nodes v) (s.heard v) (s.votes v)
                (h.node v) stands)
              (λ other.
                NodeHolds-reign members s.cast s.reigns x w (s.nodes w) (s.heard w) (s.votes w)
                  other (h.node w));
        ghost = GhostHolds-reign members s.cast s.reigns x h.ghost e;
      }

  requested-Holds :
      (s : Cluster L) (v : String) (req : RequestVoteRequest) (m : Node L.Store) (g : Bool)
      → Holds s
      → req.candidate_id ≢ ""
      → req.candidate_id ≢ v
      → Asked L (s.nodes v) req m g
      → Holds (record s { nodes = set_at v m s.nodes; cast = with_vote L v req g s.cast })
  requested-Holds s v req m g h named foreign (denies p c) =
      rw p (changed-Holds s v {F = ⊥} h (λ k. absurd k) c)
  requested-Holds s v req m g h named foreign (gives c p t e how disk) =
      let x : Cast = record { voter = v; term = req.term; candidate_id = req.candidate_id } in
      let n = s.nodes v in
      let k = h.node v in
      rw p (record {
        node = λ w.
            set_at-elim
              (λ j n'. NodeHolds members (x ∷ s.cast) s.reigns j n' (s.heard j) (s.votes j)) v m
              s.nodes w
              (NodeHolds-given members s.cast s.reigns v n m (s.heard v) (s.votes v) req k h.ghost
                named foreign how c t e disk)
              (λ other.
                NodeHolds-cast members s.cast s.reigns x w (s.nodes w) (s.heard w) (s.votes w) other
                  (h.node w));
        ghost =
            GhostHolds-cast members s.cast s.reigns x h.ghost named
              (given-same members s.cast s.reigns v n m (s.heard v) (s.votes v) req k h.ghost named
                foreign how)
              (given-loyal members s.cast s.reigns v n m (s.heard v) (s.votes v) req k h.ghost named
                foreign how);
      })

  -- A vote that counts leaves the node as it is.
  count_vote-given :
      (n : Node L.Store) (votes : ℕ) (resp : RequestVoteResponse)
      → resp.vote_granted ≡ true
      → resp.term ≡ n.current_term
      → count_vote n votes resp ≡ (n, votes + 1)
  unfolding count_vote
  count_vote-given n votes resp given term =
      rw (le→ltb n.current_term resp.term (omega (arith, term)), given) refl

  -- A refusal is a change of the node: nothing, or a step down.
  count_vote-Change :
      (n : Node L.Store) (votes : ℕ) (resp : RequestVoteResponse)
      → resp.vote_granted ≡ false
      → Change ⊥ n (count_vote n votes resp).0
  unfolding count_vote
  count_vote-Change n votes resp no_vote = elim (Bool-cases (ltb n.current_term resp.term)) [
    | inl newer ↦ rw newer (step_down-Change n resp.term (ltb→lt n.current_term resp.term newer))
    | inr old ↦ rw (old, no_vote) (Change-refl n)
  ]

  Step-Holds : {s t : Cluster L} → Holds s → Step L members s t → Holds t
  Step-Holds {s = s} h (stood v among name room) = stood-Holds s v h (
      NodeHolds-standing L members s.cast s.reigns v (s.nodes v) (s.heard v) (s.votes v) (h.node v)
        among name room)
  Step-Holds {s = s} h (won v name stands enough) = won-Holds s v h stands enough
  Step-Holds {s = s} h (requested v req named foreign) =
      requested-Holds s v req _ _ h named foreign (handle_request_vote-Asked L (s.nodes v) req)
  Step-Holds {s = s} h (counted v p resp name stands among given term cast new) =
      rw (count_vote-given (s.nodes v) (s.votes v) resp given term) (
        stood-Holds s v h (
          NodeHolds-counted members s.cast s.reigns v (s.nodes v) (s.heard v) (s.votes v) (h.node v)
            stands p among new (rw term at cast)))
  Step-Holds {s = s} h (turned_down v resp no_vote) =
      changed-Holds s v {F = ⊥} h (λ k. absurd k)
        (count_vote-Change (s.nodes v) (s.votes v) resp no_vote)
  Step-Holds {s = s} h (appended v l req other led) =
      changed-Holds s v h
        (λ same led'. other (
          one_ruler members s.cast s.reigns (s.nodes v).current_term l v h.ghost (rw same at led)
            led'))
        (handle_append_entries-Change L (s.nodes v) req)
  Step-Holds {s = s} h (answered v peer entries resp) =
      changed-Holds s v {F = ⊥} h (λ k. absurd k)
        (handle_append_response-Change L (s.nodes v) peer entries resp)
  Step-Holds {s = s} h (took_office v) =
      changed-Holds s v {F = ⊥} h (λ k. absurd k) (start_leader-Change L (s.nodes v))
  Step-Holds {s = s} h (commanded v command) =
      changed-Holds s v {F = ⊥} h (λ k. absurd k)
        (handle_apply_request-Change L (s.nodes v) command)
  Step-Holds {s = s} h (restarted v) =
      changed-Holds s v {F = ⊥} h (λ k. absurd k) (restart-Change (s.nodes v) (h.node v).on_disk)

  fresh-Holds : (s : Cluster L) → IsFresh L members s → Holds s
  fresh-Holds s f = record {
    node = λ v.
        NodeHolds-follower members s.cast s.reigns v (s.nodes v) (s.heard v) (s.votes v)
          (ap is_follower (f.quiet v)) (f.named v) (f.configured v) (f.on_disk v)
          (λ t c w. elim (rw f.nothing_cast at w) [ ]) (λ c w. elim (rw f.nothing_cast at w) [ ])
          (λ t w. elim (rw f.nobody_led at w) [ ]) (λ w. elim (rw f.nobody_led at w) [ ]);
    ghost = record {
      one_vote = λ v t c c' w. elim (rw f.nothing_cast at w) [ ];
      vote_named = λ v t c w. elim (rw f.nothing_cast at w) [ ];
      elected = λ t l w. elim (rw f.nobody_led at w) [ ];
    };
  }

  Run-Holds : {s t : Cluster L} → Holds s → Run L members s t → Holds t
  Run-Holds h here = h
  Run-Holds h (next run step) = Step-Holds (Run-Holds h run) step

  -- Election safety: in every state that a cluster of fresh nodes reaches, two nodes that lead in one term are one node.
  -- The steps are the handlers in any order, with crashes and restarts. Requests for a vote and answers to a leader are of
  -- any content; a vote is counted if it was cast for the candidate in its current term and not counted before; entries
  -- come from a node that has led their term; and nothing but a step of this relation steps a candidate down between
  -- its last vote and its change to leader, which happens only while it still stands.
  pub one_leader_a_term :
      (s t : Cluster L)
      → IsFresh L members s
      → Run L members s t
      → (v w : String) → (t.nodes v).state ≡ leader
      → (t.nodes w).state ≡ leader
      → (t.nodes v).current_term ≡ (t.nodes w).current_term
      → v ≡ w
  one_leader_a_term s t fresh run v w leads leads' same =
      let h = Run-Holds (fresh-Holds s fresh) run in
      one_ruler members t.cast t.reigns (t.nodes w).current_term v w h.ghost
        (rw same at (h.node v).leads leads) ((h.node w).leads leads')
