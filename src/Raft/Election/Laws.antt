-- ===== src/Raft/Election/Laws.antt =====
-- What a voter promises: the conditions of a vote, one vote a term, and what survives a restart.
use claude_ds_project.Base.{
  ℕ, ◌≤◌, ◌<◌, ◌≡◌, ◌≢◌, ◌↔◌, ◌⊎◌, inl, inr, refl, ap, ◌∙◌, true, false, Bool-cases, lt→ltb, le→ltb,
  sym, arith,
}
use Prim.Native.String.{String}
use text.Mathlib.TextEquality.{eq_iff}
use claude_ds_project.Raft.Types.{RequestVoteRequest}
use claude_ds_project.Raft.LogStore.{LogStore}
use claude_ds_project.Raft.Node.{Node, persist_state, step_down, last_log_info}
use claude_ds_project.Raft.Election.{
  is_log_up_to_date, has_voted_for_other, decide_vote, handle_request_vote,
}

-- The order of logs: by the last term, then by the last index.
abbrev pub AtLeast : ℕ × ℕ → ℕ × ℕ → Type 0
AtLeast (index, term) (index', term') = (term' < term) ⊎ ((term ≡ term') × (index' ≤ index))

-- `isLogUpToDate` decides that order.
pub up_to_date-iff-AtLeast :
    (term index term' index' : ℕ)
    → (is_log_up_to_date term index term' index' ≡ true) ↔ AtLeast (index, term) (index', term')
unfolding is_log_up_to_date
up_to_date-iff-AtLeast term index term' index' = (λ h. ground arith, λ h. ground arith)

-- Of any two logs one is at least as up-to-date as the other, and the relation is transitive.
pub up_to_date_preorder :
    (t i t' i' t'' i'' : ℕ)
    → ((is_log_up_to_date t i t' i' ≡ true) ⊎ (is_log_up_to_date t' i' t i ≡ true))
      × (is_log_up_to_date t i t' i' ≡ true
          → is_log_up_to_date t' i' t'' i'' ≡ true
          → is_log_up_to_date t i t'' i'' ≡ true)
unfolding is_log_up_to_date
up_to_date_preorder t i t' i' t'' i'' = (ground arith, λ h k. ground arith)

pub compare-cases : (m n : ℕ) → (m < n) ⊎ (m ≡ n) ⊎ (n < m)
compare-cases m n = ground arith

-- What is on disk is the current term and vote.
abbrev pub IsPersisted : {Store : Type 0} → Node Store → Type 0
IsPersisted n = n.stable ≡ record { current_term = n.current_term; voted_for = n.voted_for }

pub other_vote-none : (v c : String) → (has_voted_for_other v c ≡ false) ↔ ((v ≡ "") ⊎ (v ≡ c))
unfolding has_voted_for_other
other_vote-none v c =
    (λ h. ground (arith, eq_iff v "", eq_iff v c), λ h. ground (arith, eq_iff v "", eq_iff v c))

module _ (L : LogStore) where
  open L use {Store}

  -- When a voter may grant its vote: the term is not stale, it has no other vote in that term, and the
  -- candidate's log is at least as up-to-date as its own.
  pub record MayVote (n : Node Store) (req : RequestVoteRequest) : Type 0 where
    pub current : n.current_term ≤ req.term
    pub free : (n.current_term < req.term) ⊎ (n.voted_for ≡ "") ⊎ (n.voted_for ≡ req.candidate_id)
    pub up_to_date : AtLeast (req.last_log_index, req.last_log_term) (last_log_info L n.log)

  decide_vote-granted :
      (n : Node Store) (req : RequestVoteRequest)
      → ((decide_vote L n req).1.vote_granted ≡ true) ↔ (
          (has_voted_for_other n.voted_for req.candidate_id ≡ false)
          × (is_log_up_to_date req.last_log_term req.last_log_index
                (last_log_info L n.log).1
                (last_log_info L n.log).0
              ≡ true))
  unfolding decide_vote
  decide_vote-granted n req = (λ h. ground arith, λ h. ground arith)

  decide_vote_iff :
      (n : Node Store) (req : RequestVoteRequest)
      → ((decide_vote L n req).1.vote_granted ≡ true) ↔ (
          ((n.voted_for ≡ "") ⊎ (n.voted_for ≡ req.candidate_id))
          × AtLeast (req.last_log_index, req.last_log_term) (last_log_info L n.log))
  decide_vote_iff n req =
      let info = last_log_info L n.log in
      let free = other_vote-none n.voted_for req.candidate_id in
      let order = up_to_date-iff-AtLeast req.last_log_term req.last_log_index info.1 info.0 in
      let split = decide_vote-granted n req in
      (λ h. (free.0 (split.0 h).0, order.0 (split.0 h).1), λ h. split.1 (free.1 h.0, order.1 h.1))

  pub stale_term :
      (n : Node Store) (req : RequestVoteRequest)
      → req.term < n.current_term
      → handle_request_vote L n req
        ≡ (n, record { term = n.current_term; vote_granted = false }, false)
  unfolding handle_request_vote
  stale_term n req h = rw (lt→ltb req.term n.current_term h)

  pub newer_term :
      (n : Node Store) (req : RequestVoteRequest)
      → n.current_term < req.term
      → handle_request_vote L n req ≡ decide_vote L (step_down n req.term) req
  unfolding handle_request_vote
  newer_term n req h =
      rw (le→ltb req.term n.current_term (omega arith), lt→ltb n.current_term req.term h)

  pub same_term :
      (n : Node Store) (req : RequestVoteRequest)
      → n.current_term ≡ req.term
      → handle_request_vote L n req ≡ decide_vote L n req
  unfolding handle_request_vote
  same_term n req h =
      rw
        (le→ltb n.current_term req.term (omega arith), le→ltb req.term n.current_term (omega arith))

  -- A vote is granted exactly when the term is not stale, the voter has no other vote in that term, and the
  -- candidate's log is at least as up-to-date as the voter's.
  pub handle_request_vote-iff-MayVote :
      (n : Node Store) (req : RequestVoteRequest)
      → ((handle_request_vote L n req).1.vote_granted ≡ true) ↔ MayVote n req
  unfolding step_down persist_state
  handle_request_vote-iff-MayVote n req = elim (compare-cases req.term n.current_term) [
    | inl stale ↦ (
      λ h. ground (arith, ap (λ r. r.1.vote_granted) (stale_term n req stale)),
      λ h. ground (arith, h.current),
    )
    | inr (inl same) ↦ (
      λ h.
          let d = (decide_vote_iff n req).0 (rw (same_term n req (sym same)) at h) in
          record { current = omega arith; free = inr d.0; up_to_date = d.1 },
      λ h. rw (same_term n req (sym same)) (
          (decide_vote_iff n req).1
            (elim h.free [ inl newer ↦ ground arith | inr free ↦ free ], h.up_to_date)),
    )
    | inr (inr newer) ↦ (
      λ h.
          let d =
            (decide_vote_iff (step_down n req.term) req).0 (rw (newer_term n req newer) at h) in
          record { current = omega arith; free = inl newer; up_to_date = d.1 },
      λ h.
          rw (newer_term n req newer)
            ((decide_vote_iff (step_down n req.term) req).1 (inl refl, h.up_to_date)),
    )
  ]

  -- What a node that answers requests for votes keeps to, from one state to the next.
  pub record KeepsVote (n m : Node Store) : Type 0 where
    pub later : n.current_term ≤ m.current_term
    pub kept : m.current_term ≡ n.current_term → n.voted_for ≢ "" → m.voted_for ≡ n.voted_for
    pub durable : IsPersisted n → IsPersisted m

  decide_vote-cases :
      (n : Node Store) (req : RequestVoteRequest)
      → ((decide_vote L n req).0 ≡ n)
        ⊎ (((n.voted_for ≡ "") ⊎ (n.voted_for ≡ req.candidate_id))
            × ((decide_vote L n req).0 ≡ persist_state (record n { voted_for = req.candidate_id })))
  unfolding decide_vote persist_state
  decide_vote-cases n req =
      let info = last_log_info L n.log in
      elim (Bool-cases (has_voted_for_other n.voted_for req.candidate_id)) [
        | inl other ↦ inl (rw other refl)
        | inr free ↦
            elim (Bool-cases
              (is_log_up_to_date req.last_log_term req.last_log_index info.1 info.0)) [
                | inl good ↦
                    inr
                      ((other_vote-none n.voted_for req.candidate_id).0 free, rw (free, good) refl)
                | inr old ↦ inl (rw (free, old) refl)
              ]
      ]

  pub KeepsVote-refl : (n : Node Store) → KeepsVote n n
  KeepsVote-refl n = record { later = omega arith; kept = λ p q. refl; durable = λ h. h }

  decide_vote-KeepsVote :
      (n : Node Store) (req : RequestVoteRequest) → KeepsVote n (decide_vote L n req).0
  unfolding persist_state
  decide_vote-KeepsVote n req = elim (decide_vote-cases n req) [
    | inl same ↦ rw same (KeepsVote-refl n)
    | inr changed ↦ rw changed.1 (record {
      later = omega arith;
      kept = λ p q. ground (arith, changed.0);
      durable = λ h. refl;
    })
  ]

  -- A request for a vote never lowers the voter's term; while the term stays, a vote that is cast stays; and
  -- a term and a vote that were on disk before it are on disk after it, as changed.
  pub handle_request_vote-KeepsVote :
      (n : Node Store) (req : RequestVoteRequest) → KeepsVote n (handle_request_vote L n req).0
  unfolding step_down persist_state
  handle_request_vote-KeepsVote n req = elim (compare-cases req.term n.current_term) [
    | inl stale ↦ rw (stale_term n req stale) (KeepsVote-refl n)
    | inr (inl same) ↦ rw (same_term n req (sym same)) (decide_vote-KeepsVote n req)
    | inr (inr newer) ↦
        let after = decide_vote-KeepsVote (step_down n req.term) req in
        rw (newer_term n req newer) (record {
          later = omega (arith, after.later);
          kept = λ p q. ground (arith, after.later);
          durable = λ h. after.durable refl;
        })
  ]

  decide_vote-granted_to :
      (n : Node Store) (req : RequestVoteRequest)
      → (decide_vote L n req).1.vote_granted ≡ true
      → ((decide_vote L n req).0.current_term ≡ n.current_term)
        × ((decide_vote L n req).0.voted_for ≡ req.candidate_id)
  unfolding decide_vote persist_state
  decide_vote-granted_to n req h =
      let d = (decide_vote-granted n req).0 h in rw (d.0, d.1) (refl, refl)

  -- A granted vote is the voter's vote in the request's term.
  pub granted-vote :
      (n : Node Store) (req : RequestVoteRequest)
      → (handle_request_vote L n req).1.vote_granted ≡ true
      → ((handle_request_vote L n req).0.current_term ≡ req.term)
        × ((handle_request_vote L n req).0.voted_for ≡ req.candidate_id)
  unfolding step_down persist_state
  granted-vote n req h = elim (compare-cases req.term n.current_term) [
    | inl stale ↦ ground (arith, ap (λ r. r.1.vote_granted) (stale_term n req stale))
    | inr (inl same) ↦
        let cast = decide_vote-granted_to n req (rw (same_term n req (sym same)) at h) in
        rw (same_term n req (sym same)) (cast.0 ∙ sym same, cast.1)
    | inr (inr newer) ↦
        rw (newer_term n req newer)
          (decide_vote-granted_to (step_down n req.term) req (rw (newer_term n req newer) at h))
  ]
