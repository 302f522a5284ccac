-- ===== src/Raft/AppendEntries/Terms.antt =====
-- What handleAppendEntries does to the term and the vote of the node that receives it.
use claude_ds_project.Base.{
  ℕ, ◌≤◌, ◌<◌, ◌≡◌, ◌≢◌, ◌⊎◌, inl, inr, refl, sym, ap, ◌∙◌, true, false, Bool-cases, ltb, lt→ltb,
  le→ltb, arith,
}
use Prim.Native.String.{String}
use claude_ds_project.Raft.Types.{AppendEntriesRequest, is_follower}
use claude_ds_project.Raft.LogStore.{LogStore}
use claude_ds_project.Raft.Node.{Node, Stable, persist_state, step_down}
use claude_ds_project.Raft.AppendEntries.{
  PrevCheck, agrees, conflicts, recognise_leader, append_entries, follow_commit, append_checked,
  check_prev, handle_append_entries,
}
use claude_ds_project.Raft.Election.Laws.{KeepsVote, KeepsVote-refl, compare-cases}

module _ (L : LogStore) where
  open L use {Store}

  -- The part of the state that votes depend on.
  abbrev pub vote_state : Node Store → ℕ × String × Stable
  vote_state n = (n.current_term, n.voted_for, n.stable)

  follow_commit-vote_state :
      (n : Node Store) (req : AppendEntriesRequest)
      → vote_state (follow_commit L n req) ≡ vote_state n
  unfolding follow_commit
  follow_commit-vote_state n req = elim (Bool-cases (ltb n.commit_index req.leader_commit)) [
    | inl less ↦ rw less refl
    | inr done ↦ rw done refl
  ]

  append_checked-vote_state :
      (n : Node Store) (req : AppendEntriesRequest) (c : PrevCheck)
      → vote_state (append_checked L n req c).0 ≡ vote_state n
  unfolding append_checked
  append_checked-vote_state n req (conflicts term index) = refl
  append_checked-vote_state n req agrees =
      let written = append_entries L n.log req.entries in
      elim (Bool-cases written.1) [
        | inl ok ↦ rw ok (follow_commit-vote_state (record n { log = written.0 }) req)
        | inr failed ↦ rw failed refl
      ]

  -- A request of a current term leaves the vote as `recognise_leader` does.
  handle_append_entries-vote_state :
      (n : Node Store) (req : AppendEntriesRequest)
      → n.current_term ≤ req.term
      → vote_state (handle_append_entries L n req).0 ≡ vote_state (recognise_leader n req)
  unfolding handle_append_entries
  handle_append_entries-vote_state n req h =
      rw (le→ltb req.term n.current_term h)
        (append_checked-vote_state (recognise_leader n req) req (check_prev L n.log req))

  vote_state-KeepsVote :
      (n m m' : Node Store) → vote_state m' ≡ vote_state m → KeepsVote L n m → KeepsVote L n m'
  vote_state-KeepsVote n m m' same h =
      let term = ap (λ s. s.0) same in
      let vote = ap (λ s. s.1) same in
      let disk = ap (λ s. s.2) same in
      record {
        later = rw term h.later;
        kept = λ p q. vote ∙ h.kept (sym term ∙ p) q;
        durable = λ p. rw (term, vote, disk) (h.durable p);
      }

  recognise_leader-newer :
      (n : Node Store) (req : AppendEntriesRequest)
      → n.current_term < req.term
      → vote_state (recognise_leader n req) ≡ vote_state (step_down n req.term)
  unfolding recognise_leader
  recognise_leader-newer n req h = rw (lt→ltb n.current_term req.term h) refl

  recognise_leader-follower :
      (n : Node Store) (req : AppendEntriesRequest)
      → n.current_term ≡ req.term
      → is_follower n.state ≡ true
      → vote_state (recognise_leader n req) ≡ vote_state n
  unfolding recognise_leader
  recognise_leader-follower n req h k = rw (le→ltb n.current_term req.term (omega arith), k) refl

  recognise_leader-other :
      (n : Node Store) (req : AppendEntriesRequest)
      → n.current_term ≡ req.term
      → is_follower n.state ≡ false
      → vote_state (recognise_leader n req) ≡ vote_state (step_down n req.term)
  unfolding recognise_leader
  recognise_leader-other n req h k = rw (le→ltb n.current_term req.term (omega arith), k) refl

  -- A step to a later term keeps what there is to keep.
  pub step_down-KeepsVote :
      (n : Node Store) (term : ℕ) → n.current_term < term → KeepsVote L n (step_down n term)
  unfolding step_down persist_state
  step_down-KeepsVote n term h = record {
    later = omega arith;
    kept = λ p q. ground arith;
    durable = λ p. refl;
  }

  stale_append :
      (n : Node Store) (req : AppendEntriesRequest)
      → req.term < n.current_term
      → (handle_append_entries L n req).0 ≡ n
  unfolding handle_append_entries
  stale_append n req h = rw (lt→ltb req.term n.current_term h) refl

  -- The request reaches a follower, or the terms differ.
  abbrev pub IsOrdinary : Node Store → AppendEntriesRequest → Type 0
  IsOrdinary n req = (is_follower n.state ≡ true) ⊎ (n.current_term ≢ req.term)

  pub handle_append_entries-KeepsVote :
      (n : Node Store) (req : AppendEntriesRequest)
      → IsOrdinary n req
      → KeepsVote L n (handle_append_entries L n req).0
  handle_append_entries-KeepsVote n req h = elim (compare-cases req.term n.current_term) [
    | inl stale ↦ rw (stale_append n req stale) (KeepsVote-refl L n)
    | inr (inl same) ↦
        vote_state-KeepsVote n n (handle_append_entries L n req).0
          (handle_append_entries-vote_state n req (omega arith)
            ∙ recognise_leader-follower n req (sym same) (ground (arith, h)))
          (KeepsVote-refl L n)
    | inr (inr newer) ↦
        vote_state-KeepsVote n (step_down n req.term) (handle_append_entries L n req).0
          (handle_append_entries-vote_state n req (omega arith)
            ∙ recognise_leader-newer n req newer)
          (step_down-KeepsVote n req.term newer)
  ]

  -- A node that is not a follower and gets entries of its own term stays in that term and has no vote in it
  -- afterwards, whatever it voted before, in its state and on disk.
  pub vote_forgotten :
      (n : Node Store) (req : AppendEntriesRequest)
      → n.current_term ≡ req.term
      → is_follower n.state ≡ false
      → vote_state (handle_append_entries L n req).0
        ≡ (n.current_term, "", record { current_term = n.current_term; voted_for = "" })
  unfolding step_down persist_state
  vote_forgotten n req h k =
      handle_append_entries-vote_state n req (omega arith)
      ∙ rw (recognise_leader-other n req h k, h) refl
