-- ===== src/Raft/Candidate/Winning.antt =====
-- Winning an election: runCandidate of internal/raft/raft.go.
use claude_ds_project.Base.{
  ℕ, ◌+◌, ◌*◌, ◌≤◌, ◌<◌, ◌≡◌, ◌↔◌, inl, inr, refl, ap, sym, ◌∙◌, List, [], ◌∷◌, true, Bool-cases,
  ltb, leb, length, leb→le, leb→lt, le→ltb, arith,
}
use claude_ds_project.Raft.Types.{ServerState, candidate, leader, is_candidate, is_follower}
use claude_ds_project.Raft.LogStore.{LogStore}
use claude_ds_project.Raft.Node.{Node, step_down, persist_state}
use claude_ds_project.Raft.Election.{become_leader, quorum, count_vote}
use claude_ds_project.Raft.Rpc.{Command, append_entries_command, request_vote_command, handle_rpc}
use claude_ds_project.Raft.Candidate.{
  Arrival, voted, learned, called, timed_out, stopped, learn, learn_all, take_arrival, await_votes,
  run_candidate,
}
use claude_ds_project.Raft.Candidate.Voters.{
  responders, granters, IsDistinct, granters-responders, granters-IsDistinct,
}
use claude_ds_project.Raft.Safety.Change.{
  Change, kept, moved, forgot, gives, denies, handle_append_entries-Change,
  handle_request_vote-Asked,
}

follower_not_leader : {A : Type 0} (s : ServerState) → is_follower s ≡ true → s ≡ leader → A
follower_not_leader s h k = let f : is_follower leader ≡ true = rw k at h in cc

candidate_not_leader : {A : Type 0} (s : ServerState) → is_candidate s ≡ true → s ≡ leader → A
candidate_not_leader s h k = let f : is_candidate leader ≡ true = rw k at h in cc

Change-no_leader :
    {A F Store : Type 0} (n m : Node Store)
    → Change F n m
    → is_candidate n.state ≡ true
    → m.state ≡ leader
    → A
Change-no_leader n m (kept _ _ _ (inl same) _) stands leads =
    candidate_not_leader n.state stands (sym same ∙ leads)
Change-no_leader n m (kept _ _ _ (inr f) _) stands leads = follower_not_leader m.state f leads
Change-no_leader n m (moved _ _ _ f _) stands leads = follower_not_leader m.state f leads
Change-no_leader n m (forgot _ _ _ _ _ f _) stands leads = follower_not_leader m.state f leads

-- Between the quorum of the code and more than half of the nodes.
quorum_iff :
    {Store : Type 0} (n : Node Store) (votes : ℕ)
    → (quorum n ≤ votes) ↔ (length n.config_peers < 2 * votes)
unfolding quorum
quorum_iff n votes = (λ h. omega (arith, h), λ h. omega (arith, h))

step_down-no_leader :
    {A Store : Type 0} (n : Node Store) (term : ℕ) → (step_down n term).state ≡ leader → A
unfolding step_down persist_state
step_down-no_leader n term h = cc

module _ (L : LogStore) where
  open L use {Store}

  handle_rpc-no_leader :
      {A : Type 0} (n : Node Store) (command : Command)
      → is_candidate n.state ≡ true
      → (handle_rpc L n command).0.state ≡ leader
      → A
  unfolding handle_rpc
  handle_rpc-no_leader n (append_entries_command req) stands leads =
      Change-no_leader n _ (handle_append_entries-Change L n req) stands leads
  handle_rpc-no_leader n (request_vote_command req) stands leads =
      elim (handle_request_vote-Asked L n req) [
        | denies p c ↦ Change-no_leader n _ c stands leads
        | gives _ _ _ _ (inl newer) _ ↦ follower_not_leader _ newer.1 leads
        | gives _ _ _ _ (inr same) _ ↦ candidate_not_leader n.state stands (sym same.2 ∙ leads)
      ]

  -- A leader has the votes, and an arrival brings at most one.
  abbrev HasVotes : ℕ → Node Store → ℕ → Type 0
  HasVotes needed n votes = n.state ≡ leader → needed ≤ votes

  take_arrival-HasVotes :
      (needed : ℕ) (n : Node Store) (votes : ℕ) (a : Arrival) (arrivals : List Arrival)
      → is_candidate n.state ≡ true
      → HasVotes needed
          (take_arrival L needed n votes a).node
          (take_arrival L needed n votes a).votes
        × ((take_arrival L needed n votes a).votes + length (granters arrivals)
            ≤ votes + length (granters (a ∷ arrivals)))
  unfolding take_arrival count_vote granters learn
  take_arrival-HasVotes needed n votes (voted p v gap) xs stands =
      elim (Bool-cases (ltb n.current_term v.term)) [
        | inl newer ↦ rw newer (λ h. step_down-no_leader n v.term h, ground arith)
        | inr old ↦ elim (Bool-cases v.vote_granted) [
          | inr denied ↦ rw (old, denied) (λ h. candidate_not_leader n.state stands h, omega arith)
          | inl given ↦ elim (Bool-cases (leb needed (votes + 1))) [
            | inl enough ↦
                rw (old, given, enough) (λ h. leb→le needed (votes + 1) enough, omega arith)
            | inr few ↦
                rw (old, given, few) (λ h. candidate_not_leader n.state stands h, omega arith)
          ]
        ]
      ]
  take_arrival-HasVotes needed n votes (learned term) xs stands =
      elim (Bool-cases (ltb n.current_term term)) [
        | inl newer ↦ rw newer (λ h. step_down-no_leader n term h, omega arith)
        | inr old ↦ rw old (λ h. candidate_not_leader n.state stands h, omega arith)
      ]
  take_arrival-HasVotes needed n votes (called command) xs stands =
      (λ h. handle_rpc-no_leader n command stands h, omega arith)
  take_arrival-HasVotes needed n votes timed_out xs stands =
      (λ h. candidate_not_leader n.state stands h, omega arith)
  take_arrival-HasVotes needed n votes stopped xs stands =
      (λ h. candidate_not_leader n.state stands h, omega arith)

  await_votes-majority :
      (needed : ℕ) (n : Node Store) (votes : ℕ) (arrivals : List Arrival)
      → HasVotes needed n votes
      → (await_votes L needed n votes arrivals).0.state ≡ leader
      → needed ≤ votes + length (granters arrivals)
  unfolding await_votes granters
  await_votes-majority needed n votes [] has leads = omega (arith, has leads)
  await_votes-majority needed n votes (a ∷ xs) has leads =
      let r = take_arrival L needed n votes a in
      elim (Bool-cases (is_candidate n.state)) [
        | inr gone ↦ let h = has (rw gone at leads) in omega (arith, h)
        | inl stands ↦
            let (has', bound) = take_arrival-HasVotes needed n votes a xs stands in
            elim (Bool-cases r.goes_on) [
              | inl on ↦
                  let h =
                    await_votes-majority needed r.node r.votes xs has' (rw (stands, on) at leads) in
                  omega (arith, h, bound)
              | inr off ↦ let h = has' (rw (stands, off) at leads) in omega (arith, h, bound)
            ]
      ]

  -- A candidate that becomes the leader, whatever responses, RPCs, timeouts and step-downs the loop takes, has more than
  -- half of the configured nodes behind it: itself and the nodes that granted the vote, all different when no node
  -- answers twice nor the node itself.
  pub run_candidate-majority :
      (n : Node Store) (arrivals : List Arrival)
      → n.state ≡ candidate
      → IsDistinct (n.server_id ∷ responders arrivals)
      → (run_candidate L n arrivals).0.state ≡ leader
      → (length n.config_peers < 2 * length (n.server_id ∷ granters arrivals))
        × IsDistinct (n.server_id ∷ granters arrivals)
  unfolding run_candidate
  run_candidate-majority n arrivals c (new, distinct) h = (
    elim (Bool-cases (leb (quorum n) 1)) [
      | inl alone ↦
          let enough = (quorum_iff n 1).0 (leb→le (quorum n) 1 alone) in omega (arith, enough)
      | inr others ↦
          let enough =
            await_votes-majority (quorum n) n 1 arrivals
              (λ leads. candidate_not_leader n.state (ap is_candidate c) leads) (rw others at h) in
          let more = (quorum_iff n (1 + length (granters arrivals))).0 enough in omega (arith, more)
    ],
    (
      (λ among. new (granters-responders n.server_id arrivals among)),
      granters-IsDistinct arrivals distinct,
    ),
  )

  -- Nothing arrives but responses, none of a later term.
  abbrev pub AreCurrent : ℕ → List Arrival → Type 0
  AreCurrent term [] = Unit
  AreCurrent term (voted p vote gap ∷ arrivals) = (vote.term ≤ term) × AreCurrent term arrivals
  AreCurrent term (_ ∷ arrivals) = ⊥

  become_leader-state : (n : Node Store) → (become_leader n).state ≡ leader
  unfolding become_leader
  become_leader-state n = refl

  await_votes-wins :
      (needed : ℕ) (n : Node Store) (votes : ℕ) (arrivals : List Arrival)
      → is_candidate n.state ≡ true
      → AreCurrent n.current_term arrivals
      → votes < needed
      → needed ≤ votes + length (granters arrivals)
      → (await_votes L needed n votes arrivals).0.state ≡ leader
  unfolding await_votes take_arrival count_vote granters
  await_votes-wins needed n votes [] c current few h = absurd (omega arith)
  await_votes-wins needed n votes (voted p v gap ∷ xs) c current few h =
      let old = le→ltb n.current_term v.term current.0 in
      elim (Bool-cases v.vote_granted) [
        | inr denied ↦
            rw (c, old, denied)
              (await_votes-wins needed n votes xs c current.1 few (rw denied at h))
        | inl given ↦ elim (Bool-cases (leb needed (votes + 1))) [
          | inl enough ↦ rw (c, old, given, enough) (become_leader-state (learn_all n gap))
          | inr more ↦
              rw (c, old, given, more)
                (await_votes-wins needed n (votes + 1) xs c current.1
                  (leb→lt needed (votes + 1) more) (let h' = rw given at h in omega (arith, h')))
        ]
      ]
  await_votes-wins needed n votes (learned term ∷ xs) c current few h = elim current [ ]
  await_votes-wins needed n votes (called command ∷ xs) c current few h = elim current [ ]
  await_votes-wins needed n votes (timed_out ∷ xs) c current few h = elim current [ ]
  await_votes-wins needed n votes (stopped ∷ xs) c current few h = elim current [ ]

  -- When the loop takes nothing but responses, and none of a later term, a candidate becomes the leader exactly when
  -- its own vote and the granted ones are more than half of the number of configured nodes.
  pub run_candidate-wins :
      (n : Node Store) (arrivals : List Arrival)
      → n.state ≡ candidate
      → AreCurrent n.current_term arrivals
      → ((run_candidate L n arrivals).0.state ≡ leader)
        ↔ (length n.config_peers < 2 * (1 + length (granters arrivals)))
  unfolding run_candidate
  run_candidate-wins n arrivals c current = elim (Bool-cases (leb (quorum n) 1)) [
    | inl alone ↦
        let enough = (quorum_iff n 1).0 (leb→le (quorum n) 1 alone) in
        rw alone (λ h. omega (arith, enough), λ h. become_leader-state n)
    | inr others ↦
        let e = quorum_iff n (1 + length (granters arrivals)) in
        rw others (
          λ h. e.0 (
              await_votes-majority (quorum n) n 1 arrivals
                (λ leads. candidate_not_leader n.state (ap is_candidate c) leads) h),
          λ h.
              await_votes-wins (quorum n) n 1 arrivals (ap is_candidate c) current
                (leb→lt (quorum n) 1 others) (e.1 h),
        )
  ]
