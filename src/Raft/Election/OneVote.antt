-- ===== src/Raft/Election/OneVote.antt =====
-- One vote a term: the steps of a node, from the message handlers to a restart, as a relation.
use claude_ds_project.Base.{
  ℕ, suc, ◌<◌, ◌≡◌, ◌≢◌, inl, inr, refl, sym, ap, ◌∙◌, true, Bool-cases, ltb, ltb→lt, arith,
}
use claude_ds_project.Raft.Types.{RequestVoteRequest, RequestVoteResponse, AppendEntriesRequest}
use claude_ds_project.Raft.LogStore.{LogStore}
use claude_ds_project.Raft.Node.{Node, persist_state, restart}
use claude_ds_project.Raft.Election.{
  election_timeout, start_election, handle_request_vote, become_leader, count_vote,
}
use claude_ds_project.Raft.AppendEntries.{handle_append_entries}
use claude_ds_project.Raft.Election.Laws.{
  IsPersisted, KeepsVote, KeepsVote-refl, handle_request_vote-KeepsVote, granted-vote,
  handle_request_vote-iff-MayVote,
}
use claude_ds_project.Raft.AppendEntries.Terms.{
  IsOrdinary, handle_append_entries-KeepsVote, step_down-KeepsVote,
}

module _ (L : LogStore) where
  open L use {Store}

  -- A step that concerns the vote; entries of a leader are ordinary, and the term is below the last.
  pub data Step (n : Node Store) : Node Store → Type 0 where
    requested : (req : RequestVoteRequest) → Step n (handle_request_vote L n req).0
    appended :
        (req : AppendEntriesRequest) → IsOrdinary L n req → Step n (handle_append_entries L n req).0
    stood : suc n.current_term < 18446744073709551616 → Step n (start_election L n).0
    answered : (votes : ℕ) (vote : RequestVoteResponse) → Step n (count_vote n votes vote).0
    timed_out : Step n (election_timeout n)
    elected : Step n (become_leader n)
    restarted : Step n (restart n)

  pub data Run (n : Node Store) : Node Store → Type 0 where
    here : Run n n
    later : {m m' : Node Store} → Run n m → Step m m' → Run n m'

  KeepsVote-trans : {n m m' : Node Store} → KeepsVote L n m → KeepsVote L m m' → KeepsVote L n m'
  KeepsVote-trans h k = record {
    later = omega (arith, h.later, k.later);
    kept = λ p q.
        let first = h.kept (omega (arith, h.later, k.later)) q in
        k.kept (omega (arith, h.later, k.later)) (λ none. q (sym first ∙ none)) ∙ first;
    durable = λ p. k.durable (h.durable p);
  }

  start_election-KeepsVote :
      (n : Node Store)
      → suc n.current_term < 18446744073709551616
      → KeepsVote L n (start_election L n).0
  unfolding start_election persist_state
  start_election-KeepsVote n room = record {
    later = ground arith;
    kept = λ p q. ground arith;
    durable = λ h. refl;
  }

  count_vote-KeepsVote :
      (n : Node Store) (votes : ℕ) (vote : RequestVoteResponse)
      → KeepsVote L n (count_vote n votes vote).0
  unfolding count_vote
  count_vote-KeepsVote n votes vote = elim (Bool-cases (ltb n.current_term vote.term)) [
    | inl newer ↦
        rw newer (step_down-KeepsVote L n vote.term (ltb→lt n.current_term vote.term newer))
    | inr old ↦ elim (Bool-cases vote.vote_granted) [
      | inr refused ↦ rw (old, refused) (KeepsVote-refl L n)
      | inl granted ↦ rw (old, granted) (KeepsVote-refl L n)
    ]
  ]

  election_timeout-KeepsVote : (n : Node Store) → KeepsVote L n (election_timeout n)
  unfolding election_timeout
  election_timeout-KeepsVote n = record {
    later = omega arith;
    kept = λ p q. refl;
    durable = λ h. h;
  }

  become_leader-KeepsVote : (n : Node Store) → KeepsVote L n (become_leader n)
  unfolding become_leader
  become_leader-KeepsVote n = record { later = omega arith; kept = λ p q. refl; durable = λ h. h }

  restart-KeepsVote : (n : Node Store) → IsPersisted n → KeepsVote L n (restart n)
  unfolding restart
  restart-KeepsVote n h = record {
    later = omega (arith, ap (λ s. s.current_term) h);
    kept = λ p q. ap (λ s. s.voted_for) h;
    durable = λ p. refl;
  }

  Step-KeepsVote : {n m : Node Store} → IsPersisted n → Step n m → KeepsVote L n m
  Step-KeepsVote p (requested req) = handle_request_vote-KeepsVote L _ req
  Step-KeepsVote p (appended req ordinary) = handle_append_entries-KeepsVote L _ req ordinary
  Step-KeepsVote p (stood room) = start_election-KeepsVote _ room
  Step-KeepsVote p (answered votes vote) = count_vote-KeepsVote _ votes vote
  Step-KeepsVote p timed_out = election_timeout-KeepsVote _
  Step-KeepsVote p elected = become_leader-KeepsVote _
  Step-KeepsVote p restarted = restart-KeepsVote _ p

  -- Along any run of such steps from a node whose term and vote are on disk, the term never falls, a vote stays
  -- for as long as the term does, and term and vote stay on disk.
  pub Run-KeepsVote : {n m : Node Store} → IsPersisted n → Run n m → KeepsVote L n m
  Run-KeepsVote p here = KeepsVote-refl L _
  Run-KeepsVote p (later run step) =
      let before = Run-KeepsVote p run in
      KeepsVote-trans before (Step-KeepsVote (before.durable p) step)

  -- Two votes that a node grants in one term, with any such run in between, go to one candidate; the term and the vote
  -- are on disk before the first, whose candidate has an id that is not empty.
  pub one_vote_a_term :
      (n : Node Store) {m : Node Store} (req req' : RequestVoteRequest)
      → IsPersisted n
      → req.candidate_id ≢ ""
      → (handle_request_vote L n req).1.vote_granted ≡ true
      → Run (handle_request_vote L n req).0 m
      → (handle_request_vote L m req').1.vote_granted ≡ true
      → req'.term ≡ req.term
      → req'.candidate_id ≡ req.candidate_id
  one_vote_a_term n {m = m} req req' p named granted run granted' same =
      let cast = granted-vote L n req granted in
      let may = (handle_request_vote-iff-MayVote L m req').0 granted' in
      let between = Run-KeepsVote ((handle_request_vote-KeepsVote L n req).durable p) run in
      let still =
        between.kept (omega (arith, may.current, between.later, cast.0))
          (λ none. named (sym cast.1 ∙ none)) in
      elim may.free [
        | inl newer ↦ ground (arith, cast.0, between.later)
        | inr (inl none) ↦ absurd (named (sym cast.1 ∙ sym still ∙ none))
        | inr (inr own) ↦ sym own ∙ still ∙ cast.1
      ]
