-- ===== src/Raft/Commit.antt =====
-- advanceCommitIndex of internal/raft/replication.go.
pub mod Majority
use claude_ds_project.Base.{
  ℕ, suc, ◌+◌, ◌-◌, ◌/◌, List, [], ◌∷◌, map, Option, none, some, Bool, ◌==◌, ltb, leb,
  if◌then◌else◌, length,
}
use claude_ds_project.Raft.Types.{LogEntry, PeerState}
use claude_ds_project.Raft.LogStore.{LogStore}
use claude_ds_project.Raft.Node.{Node}

-- sort.Slice in descending order.
unfoldable pub insert_down : ℕ → List ℕ → List ℕ
insert_down x [] = x ∷ []
insert_down x (y ∷ ys) = let later = y ∷ insert_down x ys in if leb y x then x ∷ (y ∷ ys) else later

unfoldable pub sort_down : List ℕ → List ℕ
unfolding insert_down
sort_down [] = []
sort_down (x ∷ xs) = insert_down x (sort_down xs)

-- The element at an index that is in range.
unfoldable pub at_index : List ℕ → ℕ → ℕ
at_index [] i = 0
at_index (x ∷ xs) ℕ.zero = x
at_index (x ∷ xs) (suc i) = at_index xs i

-- matches[majority-1], with majority = len(matches)/2 + 1
unfoldable pub majority_match : List ℕ → ℕ
unfolding sort_down at_index
majority_match matches = at_index (sort_down matches) (length matches / 2 + 1 - 1)

module _ (L : LogStore) where
  open L use {Store, last_index, get_log}

  -- The leader's own last index, and the match index of each peer.
  unfoldable pub matches_of : Node Store → List ℕ
  matches_of n = last_index n.log ∷ map (λ p. p.match_index) n.peers

  -- The entry at the new commit index has to be of the current term.
  unfoldable pub commit_entry : Node Store → ℕ → Option LogEntry → Node Store
  commit_entry n index none = n
  commit_entry n index (some e) =
      if e.term == n.current_term then record n { commit_index = index } else n

  -- advanceCommitIndex
  unfoldable pub advance_commit_index : Node Store → Node Store
  unfolding matches_of majority_match commit_entry
  advance_commit_index n =
      let index = majority_match (matches_of n) in
      if leb index n.commit_index then n else commit_entry n index (get_log n.log index)
