-- ===== src/Raft/Commit/Majority.antt =====
-- What advanceCommitIndex commits: the greatest index that a majority has, of the current term.
use claude_ds_project.Base.{
  ℕ, suc, ◌+◌, ◌-◌, ◌/◌, ◌≤◌, ◌<◌, ◌≡◌, ◌⊎◌, inl, inr, refl, ap, ◌∙◌, List, [], ◌∷◌, Option, none,
  some, Bool-cases, ◌==◌, leb, if◌then◌else◌, length, leb→lt, leb→le, ==→eq, arith,
}
use claude_ds_project.Raft.Types.{LogEntry}
use claude_ds_project.Raft.LogStore.{LogStore}
use claude_ds_project.Raft.Node.{Node}
use claude_ds_project.Raft.Commit.{
  insert_down, sort_down, at_index, majority_match, matches_of, commit_entry, advance_commit_index,
}

-- How many of the indices reach `v`.
unfoldable pub count_reached : ℕ → List ℕ → ℕ
count_reached v [] = 0
count_reached v (x ∷ xs) = let rest = count_reached v xs in if leb v x then suc rest else rest

abbrev AllAtMost : ℕ → List ℕ → Type 0
AllAtMost b [] = Unit
AllAtMost b (x ∷ xs) = (x ≤ b) × AllAtMost b xs

abbrev IsDown : List ℕ → Type 0
IsDown [] = Unit
IsDown (x ∷ xs) = AllAtMost x xs × IsDown xs

AllAtMost-weaken : (b c : ℕ) (xs : List ℕ) → b ≤ c → AllAtMost b xs → AllAtMost c xs
AllAtMost-weaken b c [] h k = tt
AllAtMost-weaken b c (x ∷ xs) h k = (omega (arith, k.0), AllAtMost-weaken b c xs h k.1)

insert_down-AllAtMost :
    (b x : ℕ) (xs : List ℕ) → x ≤ b → AllAtMost b xs → AllAtMost b (insert_down x xs)
unfolding insert_down
insert_down-AllAtMost b x [] h k = (h, tt)
insert_down-AllAtMost b x (y ∷ ys) h k = elim (Bool-cases (leb y x)) [
  | inl first ↦ rw first (h, k)
  | inr later ↦ rw later (k.0, insert_down-AllAtMost b x ys h k.1)
]

insert_down-IsDown : (x : ℕ) (xs : List ℕ) → IsDown xs → IsDown (insert_down x xs)
unfolding insert_down
insert_down-IsDown x [] h = (tt, tt)
insert_down-IsDown x (y ∷ ys) h = elim (Bool-cases (leb y x)) [
  | inl first ↦ rw first ((ground arith, AllAtMost-weaken y x ys (ground arith) h.0), h)
  | inr later ↦
      rw later (insert_down-AllAtMost y x ys (ground arith) h.0, insert_down-IsDown x ys h.1)
]

sort_down-IsDown : (xs : List ℕ) → IsDown (sort_down xs)
unfolding sort_down
sort_down-IsDown [] = tt
sort_down-IsDown (x ∷ xs) = insert_down-IsDown x (sort_down xs) (sort_down-IsDown xs)

count_reached-insert_down :
    (v x : ℕ) (xs : List ℕ) → count_reached v (insert_down x xs) ≡ count_reached v (x ∷ xs)
unfolding insert_down count_reached
count_reached-insert_down v x [] = refl
count_reached-insert_down v x (y ∷ ys) = ground (arith, count_reached-insert_down v x ys)

count_reached-sort_down :
    (v : ℕ) (xs : List ℕ) → count_reached v (sort_down xs) ≡ count_reached v xs
unfolding sort_down count_reached
count_reached-sort_down v [] = refl
count_reached-sort_down v (x ∷ xs) =
    count_reached-insert_down v x (sort_down xs) ∙ ground (arith, count_reached-sort_down v xs)

length-insert_down : (x : ℕ) (xs : List ℕ) → length (insert_down x xs) ≡ suc (length xs)
unfolding insert_down
length-insert_down x [] = refl
length-insert_down x (y ∷ ys) = ground (arith, length-insert_down x ys)

length-sort_down : (xs : List ℕ) → length (sort_down xs) ≡ length xs
unfolding sort_down
length-sort_down [] = refl
length-sort_down (x ∷ xs) = length-insert_down x (sort_down xs) ∙ ap suc (length-sort_down xs)

count_reached-none : (b v : ℕ) (xs : List ℕ) → AllAtMost b xs → b < v → count_reached v xs ≡ 0
unfolding count_reached
count_reached-none b v [] h k = refl
count_reached-none b v (x ∷ xs) h k = ground (arith, h.0, count_reached-none b v xs h.1 k)

at_index-AllAtMost : (b : ℕ) (xs : List ℕ) (k : ℕ) → AllAtMost b xs → at_index xs k ≤ b
unfolding at_index
at_index-AllAtMost b [] k h = omega arith
at_index-AllAtMost b (x ∷ xs) ℕ.zero h = h.0
at_index-AllAtMost b (x ∷ xs) (suc k) h = at_index-AllAtMost b xs k h.1

-- At position `k` of a descending list, more than `k` elements reach the value there.
at_index-reached :
    (xs : List ℕ) (k : ℕ) → IsDown xs → k < length xs → k < count_reached (at_index xs k) xs
unfolding at_index count_reached
at_index-reached [] k h l = ground arith
at_index-reached (x ∷ xs) ℕ.zero h l = ground arith
at_index-reached (x ∷ xs) (suc k) h l =
    ground (arith, at_index-reached xs k h.1 (omega arith), at_index-AllAtMost x xs k h.0)

at_index-greatest : (xs : List ℕ) (k v : ℕ) → IsDown xs → k < count_reached v xs → v ≤ at_index xs k
unfolding at_index count_reached
at_index-greatest [] k v h l = ground arith
at_index-greatest (x ∷ xs) ℕ.zero v h l = elim (Bool-cases (leb v x)) [
  | inl reached ↦ ground arith
  | inr above ↦ ground (arith, count_reached-none x v xs h.0)
]
at_index-greatest (x ∷ xs) (suc k) v h l = at_index-greatest xs k v h.1 (ground arith)

-- The number of nodes that make a majority.
abbrev pub majority : List ℕ → ℕ
majority xs = length xs / 2 + 1

-- The greatest index that a majority reaches.
pub record IsAgreed (xs : List ℕ) (v : ℕ) : Type 0 where
  pub reached : majority xs ≤ count_reached v xs
  pub greatest : (w : ℕ) → majority xs ≤ count_reached w xs → w ≤ v

-- It is the middle of the sorted indices.
pub majority_match-IsAgreed : (xs : List ℕ) → 0 < length xs → IsAgreed xs (majority_match xs)
unfolding majority_match
majority_match-IsAgreed xs some_node =
    let sorted = sort_down xs in
    let k = length xs / 2 + 1 - 1 in
    let down = sort_down-IsDown xs in
    record {
      reached = omega (
        arith,
        count_reached-sort_down (at_index sorted k) xs,
        at_index-reached sorted k down (omega (arith, length-sort_down xs)),
      );
      greatest =
          λ w h. at_index-greatest sorted k w down (omega (arith, h, count_reached-sort_down w xs));
    }

module _ (L : LogStore) where
  open L use {Store, last_index, get_log}

  abbrev pub HasTerm : Option LogEntry → ℕ → Type 0
  HasTerm none t = ⊥
  HasTerm (some e) t = e.term ≡ t

  pub data Advances (n m : Node Store) : Type 0 where
    moves :
        (index : ℕ)
        → IsAgreed (matches_of L n) index
        → n.commit_index < index
        → HasTerm (get_log n.log index) n.current_term
        → m ≡ record n { commit_index = index }
        → Advances n m
    stays :
        (index : ℕ)
        → IsAgreed (matches_of L n) index
        → (index ≤ n.commit_index) ⊎ ¬ HasTerm (get_log n.log index) n.current_term
        → m ≡ n
        → Advances n m

  commit_entry-Advances :
      (n : Node Store) (index : ℕ) (o : Option LogEntry)
      → IsAgreed (matches_of L n) index
      → n.commit_index < index
      → get_log n.log index ≡ o
      → Advances n (commit_entry L n index o)
  unfolding commit_entry
  commit_entry-Advances n index none agreed more p = stays index agreed (inr (λ h. rw p at h)) refl
  commit_entry-Advances n index (some e) agreed more p =
      elim (Bool-cases (e.term == n.current_term)) [
        | inl same ↦
            rw same (moves index agreed more (rw p (==→eq e.term n.current_term same)) refl)
        | inr other ↦ rw other (
            stays index agreed
              (inr (λ h. let q : e.term ≡ n.current_term = rw p at h in ground arith)) refl)
      ]

  -- The leader's commit index becomes the greatest index that a majority of the nodes, itself included, has reached,
  -- when that is a later index and its entry is of the current term; otherwise nothing changes.
  pub advance_commit_index-Advances : (n : Node Store) → Advances n (advance_commit_index L n)
  unfolding advance_commit_index matches_of
  advance_commit_index-Advances n =
      let index = majority_match (matches_of L n) in
      let agreed = majority_match-IsAgreed (matches_of L n) (omega arith) in
      elim (Bool-cases (leb index n.commit_index)) [
        | inl old ↦ rw old (stays index agreed (inl (leb→le index n.commit_index old)) refl)
        | inr more ↦ rw more (
            commit_entry-Advances n index (get_log n.log index) agreed
              (leb→lt index n.commit_index more) refl)
      ]
