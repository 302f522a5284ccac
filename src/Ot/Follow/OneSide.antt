-- ===== src/Ot/Follow/OneSide.antt =====
-- The loop of `Follow` on any well-formed operations: it ends with the second list rebased.
use claude_ds_project.Base.{
  ℕ, zero, suc, ◌+◌, ◌<◌, ◌≡◌, refl, ap, sym, ◌∙◌, Bool-cases, inl, inr, List, [], ◌∷◌, ◌++◌,
  length, arith,
}
use claude_ds_project.GoInt.{half}
use claude_ds_project.Outcome.{ok}
use claude_ds_project.Ot.Changeset.{Text, Op, retain, insert, delete, unknown}
use claude_ds_project.Ot.TextOrder.{le_text}
use claude_ds_project.Ot.Meaning.{consumed, produced}
use claude_ds_project.Ot.Cursor.{Cursor, weight, consume}
use claude_ds_project.Ot.Cursor.Laws.{Shows, size-pos, Shows-AllSound, consume-all}
use claude_ds_project.Ot.Follow.{Draft, add_counted, rebase, follow_loop}
use claude_ds_project.Ot.Follow.Loop.{
  extend, extend-nil, IsSource, step-tie, step-tie_after, step-a_insert, step-b_insert, step-done,
  step-both, rebase-IsMet, resume_op, resume_both, source-IsPaired, paired-IsShorter,
}
use claude_ds_project.Ot.Follow.Relation.{Rebases, done, a_insert, b_insert, both, cut_a, cut_b}

abbrev Ends : ℕ → Cursor → Cursor → Draft → List Op → List Op → Type 0
Ends fuel s t d a b = (c : List Op) × Rebases a b c × (follow_loop fuel s t d ≡ ok (extend c d))

-- What the next rounds do, whatever is left.
abbrev Rounds : ℕ → Type 0
Rounds fuel =
    (s t : Cursor) (d : Draft) (a b : List Op)
    → Shows s a
    → Shows t b
    → weight a + weight b < fuel
    → consumed a ≡ consumed b
    → d.new_len + (produced a + produced b) < half
    → Ends fuel s t d a b

module _ (fuel : ℕ) (rounds : Rounds fuel) (s t : Cursor) (d : Draft) where
  round-a_insert :
      (u : Text) (a b : List Op)
      → Shows s (insert u ∷ a)
      → Shows t b
      → weight (insert u ∷ a) + weight b < suc fuel
      → consumed a ≡ consumed b
      → d.new_len + (produced (insert u ∷ a) + produced b) < half
      → follow_loop (suc fuel) s t d
        ≡ follow_loop fuel (consume s (length u)) t (add_counted (retain (length u)) d)
      → Ends (suc fuel) s t d (insert u ∷ a) b
  unfolding extend
  round-a_insert u a b hs ht few same fits step =
      let pos = size-pos (insert u) (Shows-AllSound hs).0.0 in
      let (c, r, e) =
        rounds (consume s (length u)) t (extend (retain (length u) ∷ []) d) a b (consume-all hs) ht
          (omega arith) same (omega arith) in
      (
        retain (length u) ∷ c,
        a_insert u refl r,
        resume_op fuel s t (consume s (length u)) t d (retain (length u)) c (omega arith) step e,
      )

  round-b_insert :
      (v : Text) (a b : List Op)
      → Shows s a
      → Shows t (insert v ∷ b)
      → weight a + weight (insert v ∷ b) < suc fuel
      → consumed a ≡ consumed b
      → d.new_len + (produced a + produced (insert v ∷ b)) < half
      → follow_loop (suc fuel) s t d
        ≡ follow_loop fuel s (consume t (length v)) (add_counted (insert v) d)
      → Ends (suc fuel) s t d a (insert v ∷ b)
  unfolding extend
  round-b_insert v a b hs ht few same fits step =
      let pos = size-pos (insert v) (Shows-AllSound ht).0.0 in
      let (c, r, e) =
        rounds s (consume t (length v)) (extend (insert v ∷ []) d) a b hs (consume-all ht)
          (omega arith) same (omega arith) in
      (
        insert v ∷ c,
        b_insert v r,
        resume_op fuel s t s (consume t (length v)) d (insert v) c (omega arith) step e,
      )

  round-both :
      (x y : Op) (a b : List Op)
      → IsSource x
      → IsSource y
      → Shows s (x ∷ a)
      → Shows t (y ∷ b)
      → weight (x ∷ a) + weight (y ∷ b) < suc fuel
      → consumed (x ∷ a) ≡ consumed (y ∷ b)
      → d.new_len + (produced (x ∷ a) + produced (y ∷ b)) < half
      → Ends (suc fuel) s t d (x ∷ a) (y ∷ b)
  unfolding extend
  round-both x y a b sx sy hs ht few same fits =
      let p = source-IsPaired x y a b hs ht in
      let l = p.left in
      let r = p.right in
      let m = rebase-IsMet x y p.n sx sy in
      let shorter = paired-IsShorter x y a b p m in
      let (c, rebased, e) =
        rounds (consume s p.n) (consume t p.n) (extend m.y' d) l.left r.left l.shows r.shows
          (omega (arith, shorter.weighs)) (shorter.same same) (omega (arith, shorter.b_side)) in
      (
        m.y' ++ c,
        cut_a l.cut (cut_b r.cut (both m.meets refl rebased)),
        resume_both fuel s t (consume s p.n) (consume t p.n) d (rebase x y p.n d) m.y' c
            (m.b_side d (omega (arith, shorter.b_side)))
            (rw p.is_overlap (step-both fuel d x y hs ht sx sy)) e,
      )

-- From lists on one source the loop ends, with fuel for each character, and rebases the second.
pub follow_loop-Ends : (fuel : ℕ) → Rounds fuel
follow_loop-Ends zero s t d a b hs ht few same fits = absurd (omega arith)
follow_loop-Ends (suc fuel) s t d (insert u ∷ a) (insert v ∷ b) hs ht few same fits =
    elim (Bool-cases (le_text u v)) [
      | inl e ↦
          round-a_insert fuel (follow_loop-Ends fuel) s t d u a (insert v ∷ b) hs ht few same fits
            (step-tie fuel d hs ht e)
      | inr e ↦
          round-b_insert fuel (follow_loop-Ends fuel) s t d v (insert u ∷ a) b hs ht few same fits
            (step-tie_after fuel d hs ht e)
    ]
follow_loop-Ends (suc fuel) s t d [] [] hs ht few same fits =
    ([], done, step-done fuel d hs ht ∙ ap ok (sym (extend-nil d)))
follow_loop-Ends (suc fuel) s t d (retain n ∷ a) (retain m ∷ b) hs ht few same fits =
    round-both fuel (follow_loop-Ends fuel) s t d (retain n) (retain m) a b tt tt hs ht few same
      fits
follow_loop-Ends (suc fuel) s t d (retain n ∷ a) (delete m ∷ b) hs ht few same fits =
    round-both fuel (follow_loop-Ends fuel) s t d (retain n) (delete m) a b tt tt hs ht few same
      fits
follow_loop-Ends (suc fuel) s t d (delete n ∷ a) (retain m ∷ b) hs ht few same fits =
    round-both fuel (follow_loop-Ends fuel) s t d (delete n) (retain m) a b tt tt hs ht few same
      fits
follow_loop-Ends (suc fuel) s t d (delete n ∷ a) (delete m ∷ b) hs ht few same fits =
    round-both fuel (follow_loop-Ends fuel) s t d (delete n) (delete m) a b tt tt hs ht few same
      fits
follow_loop-Ends (suc fuel) s t d (unknown n ∷ a) b hs ht few same fits =
    absurd (Shows-AllSound hs).0.0
follow_loop-Ends (suc fuel) s t d a (unknown n ∷ b) hs ht few same fits =
    absurd (Shows-AllSound ht).0.0
follow_loop-Ends (suc fuel) s t d (retain n ∷ a) [] hs ht few same fits =
    absurd (omega (arith, Shows-AllSound hs))
follow_loop-Ends (suc fuel) s t d (delete n ∷ a) [] hs ht few same fits =
    absurd (omega (arith, Shows-AllSound hs))
follow_loop-Ends (suc fuel) s t d [] (retain n ∷ b) hs ht few same fits =
    absurd (omega (arith, Shows-AllSound ht))
follow_loop-Ends (suc fuel) s t d [] (delete n ∷ b) hs ht few same fits =
    absurd (omega (arith, Shows-AllSound ht))
follow_loop-Ends (suc fuel) s t d (insert u ∷ a) [] hs ht few same fits =
    round-a_insert fuel (follow_loop-Ends fuel) s t d u a [] hs ht few same fits
      (step-a_insert fuel d [] hs ht tt)
follow_loop-Ends (suc fuel) s t d (insert u ∷ a) (retain m ∷ b) hs ht few same fits =
    round-a_insert fuel (follow_loop-Ends fuel) s t d u a (retain m ∷ b) hs ht few same fits
      (step-a_insert fuel d (retain m ∷ b) hs ht tt)
follow_loop-Ends (suc fuel) s t d (insert u ∷ a) (delete m ∷ b) hs ht few same fits =
    round-a_insert fuel (follow_loop-Ends fuel) s t d u a (delete m ∷ b) hs ht few same fits
      (step-a_insert fuel d (delete m ∷ b) hs ht tt)
follow_loop-Ends (suc fuel) s t d [] (insert v ∷ b) hs ht few same fits =
    round-b_insert fuel (follow_loop-Ends fuel) s t d v [] b hs ht few same fits
      (step-b_insert fuel d [] hs ht tt)
follow_loop-Ends (suc fuel) s t d (retain n ∷ a) (insert v ∷ b) hs ht few same fits =
    round-b_insert fuel (follow_loop-Ends fuel) s t d v (retain n ∷ a) b hs ht few same fits
      (step-b_insert fuel d (retain n ∷ a) hs ht tt)
follow_loop-Ends (suc fuel) s t d (delete n ∷ a) (insert v ∷ b) hs ht few same fits =
    round-b_insert fuel (follow_loop-Ends fuel) s t d v (delete n ∷ a) b hs ht few same fits
      (step-b_insert fuel d (delete n ∷ a) hs ht tt)
