-- ===== src/Raft/Candidate/Voters.antt =====
-- The nodes that answer a candidate, and those that grant the vote (runCandidate of internal/raft/raft.go).
use claude_ds_project.Base.{inl, inr, List, [], ◌∷◌, Bool-cases, if◌then◌else◌}
use Prim.Native.String.{String}
use claude_ds_project.Raft.Candidate.{Arrival, voted, learned, called, timed_out, stopped}
use claude_ds_project.Raft.Safety.Count.{IsAmong}

-- The nodes whose responses arrive, and those whose response grants the vote.
unfoldable pub responders : List Arrival → List String
responders [] = []
responders (voted p vote gap ∷ arrivals) = p ∷ responders arrivals
responders (_ ∷ arrivals) = responders arrivals

unfoldable pub granters : List Arrival → List String
granters [] = []
granters (voted p vote gap ∷ arrivals) =
    let rest = granters arrivals in if vote.vote_granted then p ∷ rest else rest
granters (_ ∷ arrivals) = granters arrivals

abbrev pub IsDistinct : List String → Type 0
IsDistinct [] = Unit
IsDistinct (p ∷ ps) = ¬ IsAmong p ps × IsDistinct ps

pub granters-responders :
    (p : String) (arrivals : List Arrival)
    → IsAmong p (granters arrivals)
    → IsAmong p (responders arrivals)
unfolding granters responders
granters-responders p [] h = h
granters-responders p (voted q vote gap ∷ xs) h = elim (Bool-cases vote.vote_granted) [
  | inr denied ↦ inr (granters-responders p xs (rw denied at h))
  | inl given ↦
      let h' : IsAmong p (q ∷ granters xs) = rw given at h in
      elim h' [ inl same ↦ inl same | inr there ↦ inr (granters-responders p xs there) ]
]
granters-responders p (learned term ∷ xs) h = granters-responders p xs h
granters-responders p (called command ∷ xs) h = granters-responders p xs h
granters-responders p (timed_out ∷ xs) h = granters-responders p xs h
granters-responders p (stopped ∷ xs) h = granters-responders p xs h

pub granters-IsDistinct :
    (arrivals : List Arrival) → IsDistinct (responders arrivals) → IsDistinct (granters arrivals)
unfolding granters responders
granters-IsDistinct [] h = tt
granters-IsDistinct (voted q vote gap ∷ xs) (new, h) = elim (Bool-cases vote.vote_granted) [
  | inr denied ↦ rw denied (granters-IsDistinct xs h)
  | inl given ↦ rw given ((λ among. new (granters-responders q xs among)), granters-IsDistinct xs h)
]
granters-IsDistinct (learned term ∷ xs) h = granters-IsDistinct xs h
granters-IsDistinct (called command ∷ xs) h = granters-IsDistinct xs h
granters-IsDistinct (timed_out ∷ xs) h = granters-IsDistinct xs h
granters-IsDistinct (stopped ∷ xs) h = granters-IsDistinct xs h
