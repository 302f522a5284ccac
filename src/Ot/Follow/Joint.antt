-- ===== src/Ot/Follow/Joint.antt =====
-- The two runs of `Follow` on one pair of lists, side by side: they order insertions alike, if neither
-- list has two insertions in a row.
use claude_ds_project.Base.{
  ℕ, zero, suc, ◌+◌, ◌<◌, ◌≡◌, refl, ap, sym, ◌∙◌, Bool-cases, inl, inr, true, List, [], ◌∷◌, ◌++◌,
  length, arith,
}
use claude_ds_project.GoInt.{half}
use claude_ds_project.Outcome.{ok}
use claude_ds_project.Ot.Changeset.{Text, Op, retain, insert, delete, unknown}
use claude_ds_project.Ot.TextOrder.{le_text, le_text_total, le_text_antisymm}
use claude_ds_project.Ot.Meaning.{consumed, produced, split_retain, split_delete}
use claude_ds_project.Ot.Cursor.{Cursor, weight, consume}
use claude_ds_project.Ot.Cursor.Laws.{Shows, size-pos, Shows-AllSound, consume-all}
use claude_ds_project.Ot.Cursor.Cut.{Cut, whole, part}
use claude_ds_project.Ot.Follow.{Draft, add_counted, rebase, follow_loop}
use claude_ds_project.Ot.Follow.Loop.{
  extend, extend-nil, NoInsert, IsSource, step-tie, step-tie_after, step-a_insert, step-b_insert,
  step-done, step-both, rebase-IsMet, resume_op, resume_both, source-IsPaired, paired-IsShorter,
}
use claude_ds_project.Ot.Follow.Relation.{
  Diamond, done, a_insert, b_insert, tie, both, cut_a, cut_b,
}

abbrev pub NoAdjacent : List Op → Type 0
NoAdjacent [] = Unit
NoAdjacent (insert s ∷ ops) = NoInsert ops × NoAdjacent ops
NoAdjacent (_ ∷ ops) = NoAdjacent ops

Cut-NoAdjacent :
    {x p : Op} {xs ps : List Op} → IsSource x → Cut x xs p ps → NoAdjacent (x ∷ xs) → NoAdjacent ps
Cut-NoAdjacent {x = retain n} k whole h = h
Cut-NoAdjacent {x = delete n} k whole h = h
Cut-NoAdjacent {x = insert s} k c h = absurd k
Cut-NoAdjacent {x = unknown s} k c h = absurd k
Cut-NoAdjacent k (part (split_retain e) _ _) h = h
Cut-NoAdjacent k (part (split_delete e) _ _) h = h

abbrev Ends : ℕ → Cursor → Cursor → Draft → Draft → List Op → List Op → Type 0
Ends fuel s t d e a b =
    (b' a' : List Op) × Diamond a b b' a'
    × (follow_loop fuel s t d ≡ ok (extend b' d))
    × (follow_loop fuel t s e ≡ ok (extend a' e))

-- Room for both results.
abbrev Fits : Draft → Draft → List Op → List Op → Type 0
Fits d e a b =
    (d.new_len + (produced a + produced b) < half) × (e.new_len + (produced b + produced a) < half)

abbrev Rounds : ℕ → Type 0
Rounds fuel =
    (s t : Cursor) (d e : Draft) (a b : List Op)
    → Shows s a
    → Shows t b
    → NoAdjacent a
    → NoAdjacent b
    → weight a + weight b < fuel
    → consumed a ≡ consumed b
    → Fits d e a b
    → Ends fuel s t d e a b

module _ (fuel : ℕ) (rounds : Rounds fuel) (s t : Cursor) (d e : Draft) where
  -- Both runs pass an insertion of the first list.
  round-a_insert :
      (u : Text) (a b : List Op)
      → Shows s (insert u ∷ a)
      → Shows t b
      → NoAdjacent (insert u ∷ a)
      → NoAdjacent b
      → weight (insert u ∷ a) + weight b < suc fuel
      → consumed a ≡ consumed b
      → Fits d e (insert u ∷ a) b
      → follow_loop (suc fuel) s t d
        ≡ follow_loop fuel (consume s (length u)) t (add_counted (retain (length u)) d)
      → follow_loop (suc fuel) t s e
        ≡ follow_loop fuel t (consume s (length u)) (add_counted (insert u) e)
      → Ends (suc fuel) s t d e (insert u ∷ a) b
  unfolding extend
  round-a_insert u a b hs ht na nb few same fits step step' =
      let pos = size-pos (insert u) (Shows-AllSound hs).0.0 in
      let s' = consume s (length u) in
      let (b', a', r, p, q) =
        rounds s' t (extend (retain (length u) ∷ []) d) (extend (insert u ∷ []) e) a b
          (consume-all hs) ht na.1 nb (omega arith) same (omega arith, omega arith) in
      (
        retain (length u) ∷ b',
        insert u ∷ a',
        a_insert u refl r,
        resume_op fuel s t s' t d (retain (length u)) b' (omega arith) step p,
        resume_op fuel t s t s' e (insert u) a' (omega arith) step' q,
      )

  -- Both runs pass an insertion of the second list.
  round-b_insert :
      (v : Text) (a b : List Op)
      → Shows s a
      → Shows t (insert v ∷ b)
      → NoAdjacent a
      → NoAdjacent (insert v ∷ b)
      → weight a + weight (insert v ∷ b) < suc fuel
      → consumed a ≡ consumed b
      → Fits d e a (insert v ∷ b)
      → follow_loop (suc fuel) s t d
        ≡ follow_loop fuel s (consume t (length v)) (add_counted (insert v) d)
      → follow_loop (suc fuel) t s e
        ≡ follow_loop fuel (consume t (length v)) s (add_counted (retain (length v)) e)
      → Ends (suc fuel) s t d e a (insert v ∷ b)
  unfolding extend
  round-b_insert v a b hs ht na nb few same fits step step' =
      let pos = size-pos (insert v) (Shows-AllSound ht).0.0 in
      let t' = consume t (length v) in
      let (b', a', r, p, q) =
        rounds s t' (extend (insert v ∷ []) d) (extend (retain (length v) ∷ []) e) a b hs
          (consume-all ht) na nb.1 (omega arith) same (omega arith, omega arith) in
      (
        insert v ∷ b',
        retain (length v) ∷ a',
        b_insert v refl r,
        resume_op fuel s t s t' d (insert v) b' (omega arith) step p,
        resume_op fuel t s t' s e (retain (length v)) a' (omega arith) step' q,
      )

  round-both :
      (x y : Op) (a b : List Op)
      → IsSource x
      → IsSource y
      → Shows s (x ∷ a)
      → Shows t (y ∷ b)
      → NoAdjacent (x ∷ a)
      → NoAdjacent (y ∷ b)
      → weight (x ∷ a) + weight (y ∷ b) < suc fuel
      → consumed (x ∷ a) ≡ consumed (y ∷ b)
      → Fits d e (x ∷ a) (y ∷ b)
      → Ends (suc fuel) s t d e (x ∷ a) (y ∷ b)
  unfolding extend
  round-both x y a b sx sy hs ht na nb few same fits =
      let p = source-IsPaired x y a b hs ht in
      let l = p.left in
      let r = p.right in
      let m = rebase-IsMet x y p.n sx sy in
      let k = paired-IsShorter x y a b p m in
      let s' = consume s p.n in
      let t' = consume t p.n in
      let (b', a', z, f, g) =
        rounds s' t' (extend m.y' d) (extend m.x' e) l.left r.left l.shows r.shows
          (Cut-NoAdjacent sx l.cut na) (Cut-NoAdjacent sy r.cut nb) (omega (arith, k.weighs))
          (k.same same) (omega (arith, k.b_side), omega (arith, k.a_side)) in
      (
        m.y' ++ b',
        m.x' ++ a',
        cut_a l.cut (cut_b r.cut (both m.meets refl refl z)),
        resume_both fuel s t s' t' d (rebase x y p.n d) m.y' b'
            (m.b_side d (omega (arith, k.b_side)))
            (rw p.is_overlap (step-both fuel d x y hs ht sx sy)) f,
        resume_both fuel t s t' s' e (rebase y x p.n e) m.x' a'
            (m.a_side e (omega (arith, k.a_side))) (rw p.same (step-both fuel e y x ht hs sy sx)) g,
      )

-- Both lists insert one text at one place: each run passes the other side's text and then inserts.
round-tie :
    (fuel : ℕ) (rounds : Rounds fuel) (s t : Cursor) (d e : Draft) (u v : Text) (a b : List Op)
    → Shows s (insert u ∷ a)
    → Shows t (insert v ∷ b)
    → NoAdjacent (insert u ∷ a)
    → NoAdjacent (insert v ∷ b)
    → weight (insert u ∷ a) + weight (insert v ∷ b) < suc (suc fuel)
    → consumed a ≡ consumed b
    → Fits d e (insert u ∷ a) (insert v ∷ b)
    → le_text u v ≡ true
    → le_text v u ≡ true
    → Ends (suc (suc fuel)) s t d e (insert u ∷ a) (insert v ∷ b)
unfolding extend
round-tie fuel rounds s t d e u v a b hs ht na nb few same fits uv vu =
    let eq : u ≡ v = le_text_antisymm u v uv vu in
    let long : length u ≡ length v = ap length eq in
    let pos = size-pos (insert u) (Shows-AllSound hs).0.0 in
    let s' = consume s (length u) in
    let t' = consume t (length v) in
    let d' = extend (retain (length u) ∷ []) d in
    let e' = extend (retain (length v) ∷ []) e in
    let ks = consume-all hs in
    let kt = consume-all ht in
    let (b', a', r, p, q) =
      rounds s' t' (extend (insert v ∷ []) d') (extend (insert u ∷ []) e') a b ks kt na.1 nb.1
        (omega arith) same (omega arith, omega arith) in
    (
      retain (length u) ∷ insert v ∷ b',
      retain (length v) ∷ insert u ∷ a',
      tie u v eq refl refl r,
      resume_op (suc fuel) s t s' t d (retain (length u)) (insert v ∷ b') (omega arith)
          (step-tie (suc fuel) d hs ht uv)
          (resume_op fuel s' t s' t' d' (insert v) b' (omega arith)
            (step-b_insert fuel d' a ks ht na.0) p),
      resume_op (suc fuel) t s t' s e (retain (length v)) (insert u ∷ a') (omega arith)
          (step-tie (suc fuel) e ht hs vu)
          (resume_op fuel t' s t' s' e' (insert u) a' (omega arith)
            (step-b_insert fuel e' b kt hs nb.0) q),
    )

-- From lists on one source with no two insertions in a row both runs end, at a diamond.
pub follow_loop-Ends : (fuel : ℕ) → Rounds fuel
follow_loop-Ends zero s t d e a b hs ht na nb few same fits = absurd (omega arith)
follow_loop-Ends (suc zero) s t d e (insert u ∷ a) (insert v ∷ b) hs ht na nb few same fits =
    absurd (omega (arith, Shows-AllSound hs, Shows-AllSound ht))
follow_loop-Ends (suc (suc fuel)) s t d e (insert u ∷ a) (insert v ∷ b) hs ht na nb few same fits =
    elim (Bool-cases (le_text u v)) [
      | inl uv ↦ elim (Bool-cases (le_text v u)) [
        | inl vu ↦
            round-tie fuel (follow_loop-Ends fuel) s t d e u v a b hs ht na nb few same fits uv vu
        | inr vu ↦
            round-a_insert (suc fuel) (follow_loop-Ends (suc fuel)) s t d e u a (insert v ∷ b) hs ht
              na nb few same fits (step-tie (suc fuel) d hs ht uv)
              (step-tie_after (suc fuel) e ht hs vu)
      ]
      | inr uv ↦
          round-b_insert (suc fuel) (follow_loop-Ends (suc fuel)) s t d e v (insert u ∷ a) b hs ht
            na nb few same fits (step-tie_after (suc fuel) d hs ht uv)
            (step-tie (suc fuel) e ht hs (le_text_total u v uv))
    ]
follow_loop-Ends (suc fuel) s t d e [] [] hs ht na nb few same fits = (
  [],
  [],
  done,
  step-done fuel d hs ht ∙ ap ok (sym (extend-nil d)),
  step-done fuel e ht hs ∙ ap ok (sym (extend-nil e)),
)
follow_loop-Ends (suc fuel) s t d e (retain n ∷ a) (retain m ∷ b) hs ht na nb few same fits =
    round-both fuel (follow_loop-Ends fuel) s t d e (retain n) (retain m) a b tt tt hs ht na nb few
      same fits
follow_loop-Ends (suc fuel) s t d e (retain n ∷ a) (delete m ∷ b) hs ht na nb few same fits =
    round-both fuel (follow_loop-Ends fuel) s t d e (retain n) (delete m) a b tt tt hs ht na nb few
      same fits
follow_loop-Ends (suc fuel) s t d e (delete n ∷ a) (retain m ∷ b) hs ht na nb few same fits =
    round-both fuel (follow_loop-Ends fuel) s t d e (delete n) (retain m) a b tt tt hs ht na nb few
      same fits
follow_loop-Ends (suc fuel) s t d e (delete n ∷ a) (delete m ∷ b) hs ht na nb few same fits =
    round-both fuel (follow_loop-Ends fuel) s t d e (delete n) (delete m) a b tt tt hs ht na nb few
      same fits
follow_loop-Ends (suc fuel) s t d e (unknown n ∷ a) b hs ht na nb few same fits =
    absurd (Shows-AllSound hs).0.0
follow_loop-Ends (suc fuel) s t d e a (unknown n ∷ b) hs ht na nb few same fits =
    absurd (Shows-AllSound ht).0.0
follow_loop-Ends (suc fuel) s t d e (retain n ∷ a) [] hs ht na nb few same fits =
    absurd (omega (arith, Shows-AllSound hs))
follow_loop-Ends (suc fuel) s t d e [] (retain n ∷ b) hs ht na nb few same fits =
    absurd (omega (arith, Shows-AllSound ht))
follow_loop-Ends (suc fuel) s t d e (delete n ∷ a) [] hs ht na nb few same fits =
    absurd (omega (arith, Shows-AllSound hs))
follow_loop-Ends (suc fuel) s t d e [] (delete n ∷ b) hs ht na nb few same fits =
    absurd (omega (arith, Shows-AllSound ht))
follow_loop-Ends (suc fuel) s t d e (insert u ∷ a) [] hs ht na nb few same fits =
    round-a_insert fuel (follow_loop-Ends fuel) s t d e u a [] hs ht na nb few same fits
      (step-a_insert fuel d [] hs ht tt) (step-b_insert fuel e [] ht hs tt)
follow_loop-Ends (suc fuel) s t d e (insert u ∷ a) (retain m ∷ b) hs ht na nb few same fits =
    round-a_insert fuel (follow_loop-Ends fuel) s t d e u a (retain m ∷ b) hs ht na nb few same fits
      (step-a_insert fuel d (retain m ∷ b) hs ht tt) (step-b_insert fuel e (retain m ∷ b) ht hs tt)
follow_loop-Ends (suc fuel) s t d e (insert u ∷ a) (delete m ∷ b) hs ht na nb few same fits =
    round-a_insert fuel (follow_loop-Ends fuel) s t d e u a (delete m ∷ b) hs ht na nb few same fits
      (step-a_insert fuel d (delete m ∷ b) hs ht tt) (step-b_insert fuel e (delete m ∷ b) ht hs tt)
follow_loop-Ends (suc fuel) s t d e [] (insert v ∷ b) hs ht na nb few same fits =
    round-b_insert fuel (follow_loop-Ends fuel) s t d e v [] b hs ht na nb few same fits
      (step-b_insert fuel d [] hs ht tt) (step-a_insert fuel e [] ht hs tt)
follow_loop-Ends (suc fuel) s t d e (retain n ∷ a) (insert v ∷ b) hs ht na nb few same fits =
    round-b_insert fuel (follow_loop-Ends fuel) s t d e v (retain n ∷ a) b hs ht na nb few same fits
      (step-b_insert fuel d (retain n ∷ a) hs ht tt) (step-a_insert fuel e (retain n ∷ a) ht hs tt)
follow_loop-Ends (suc fuel) s t d e (delete n ∷ a) (insert v ∷ b) hs ht na nb few same fits =
    round-b_insert fuel (follow_loop-Ends fuel) s t d e v (delete n ∷ a) b hs ht na nb few same fits
      (step-b_insert fuel d (delete n ∷ a) hs ht tt) (step-a_insert fuel e (delete n ∷ a) ht hs tt)
