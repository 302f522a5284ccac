-- ===== src/Ot/Compose/Loop.antt =====
-- The loop of `Compose` follows the table of combination rules, and ends.
use claude_ds_project.Base.{
  ℕ, zero, suc, ◌+◌, ◌≤◌, ◌<◌, ◌≡◌, refl, ap, sym, ◌∙◌, List, [], ◌∷◌, ◌++◌, length, take, some,
  length-take, arith, le→leb,
}
use claude_ds_project.GoInt.{half, lt-small}
use claude_ds_project.Outcome.{Outcome, ok, ◌>>=◌}
use claude_ds_project.Ot.Changeset.{Text, Op, retain, insert, delete, unknown}
use claude_ds_project.Ot.Apply.{slice}
use claude_ds_project.Ot.Meaning.{consumed, produced, produced-append, consumed-append}
use claude_ds_project.Ot.Cursor.{Cursor, size, weight, consume, add_op}
use claude_ds_project.Ot.Cursor.Laws.{
  Shows, size-pos, peek-nil, peek-cons, Shows-AllSound, consume-all,
}
use claude_ds_project.Ot.Cursor.Merge.{add_all}
use claude_ds_project.Ot.Cursor.Cut.{front, consumed-Cut, produced-Cut, consume-front}
use claude_ds_project.Ot.Compose.{overlap, combine, compose_step, compose_loop}
use claude_ds_project.Ot.Compose.Relation.{
  Combines, keep, remove, add, forget, Composes, done, b_insert, a_delete, both, cut_a, cut_b,
  Combines-meets,
}

-- The overlap is the smaller of two lengths.
pub record IsOverlap (n k m : ℕ) : Type 0 where
  pub positive : 0 < n
  pub left : n ≤ k
  pub right : n ≤ m

pub overlap-IsOverlap :
    (k m : ℕ) → 0 < k → 0 < m → k < half → m < half → IsOverlap (overlap k m) k m
unfolding overlap
overlap-IsOverlap k m hk hm bk bm = rw (lt-small m k bm bk) (ground arith)

-- An operation on characters that the first list makes, and one on characters that the second reads.
IsWriter : Op → Type 0
IsWriter (retain n) = Unit
IsWriter (insert s) = Unit
IsWriter _ = ⊥

IsReader : Op → Type 0
IsReader (retain n) = Unit
IsReader (delete n) = Unit
IsReader _ = ⊥

slice_front : (s : Text) (n : ℕ) → n ≤ length s → slice s 0 n ≡ ok (take n s)
unfolding slice
slice_front s n h =
    rw (le→leb n (length s) h, le→leb 0 n (omega arith)) (ap (λ k. ok (take k s)) (omega arith))

combine-Combines :
    (x y : Op) (n : ℕ) (acc : List Op)
    → IsWriter x
    → IsReader y
    → n ≤ size x
    → (out : List Op) × Combines (front n x) (front n y) out
      × (combine x y n acc ≡ ok (add_all out acc))
unfolding combine front add_all IsWriter IsReader
combine-Combines (retain k) (retain m) n acc w r h = (retain n ∷ [], keep n, refl)
combine-Combines (retain k) (delete m) n acc w r h = (delete n ∷ [], remove n, refl)
combine-Combines (insert s) (retain m) n acc w r h = (
  insert (take n s) ∷ [],
  add (take n s) (omega (arith, length-take n s)),
  rw (slice_front s n h),
)
combine-Combines (insert s) (delete m) n acc w r h =
    ([], forget (take n s) (omega (arith, length-take n s)), refl)
combine-Combines (retain k) (insert t) n acc w r h = absurd r
combine-Combines (retain k) (unknown m) n acc w r h = absurd r
combine-Combines (insert s) (insert t) n acc w r h = absurd r
combine-Combines (insert s) (unknown m) n acc w r h = absurd r
combine-Combines (delete k) y n acc w r h = absurd w
combine-Combines (unknown k) y n acc w r h = absurd w

pub add_all-append : (xs ys acc : List Op) → add_all (xs ++ ys) acc ≡ add_all ys (add_all xs acc)
unfolding add_all
add_all-append [] ys acc = refl
add_all-append (x ∷ xs) ys acc = add_all-append xs ys (add_op x acc)

-- The loop ends with the operations of a composition, added to what was there.
abbrev Ends : ℕ → Cursor → Cursor → List Op → List Op → List Op → Type 0
Ends fuel s t acc a b =
    (c : List Op) × Composes a b c × (compose_loop fuel s t acc ≡ ok (add_all c acc))

-- What the next rounds do, whatever is left.
abbrev Rounds : ℕ → Type 0
Rounds fuel =
    (s t : Cursor) (acc a b : List Op)
    → Shows s a
    → Shows t b
    → weight a + weight b < fuel
    → produced a ≡ consumed b
    → Ends fuel s t acc a b

step-both :
    (next : Cursor → Cursor → List Op → Outcome (List Op)) (x y : Op) (s t : Cursor) (acc : List Op)
    → IsWriter x
    → IsReader y
    → compose_step next (some x) (some y) s t acc ≡ (
        combine x y (overlap (size x) (size y)) acc >>= λ acc'.
        next (consume s (overlap (size x) (size y))) (consume t (overlap (size x) (size y))) acc')
unfolding compose_step IsWriter IsReader
step-both next (retain k) (retain m) s t acc w r = refl
step-both next (retain k) (delete m) s t acc w r = refl
step-both next (insert u) (retain m) s t acc w r = refl
step-both next (insert u) (delete m) s t acc w r = refl
step-both next (retain k) (insert v) s t acc w r = absurd r
step-both next (retain k) (unknown m) s t acc w r = absurd r
step-both next (insert u) (insert v) s t acc w r = absurd r
step-both next (insert u) (unknown m) s t acc w r = absurd r
step-both next (delete k) y s t acc w r = absurd w
step-both next (unknown k) y s t acc w r = absurd w

-- A round on the same characters of both lists.
round-both :
    (fuel : ℕ) (s t : Cursor) (acc : List Op) (x y : Op) (a b : List Op)
    → Rounds fuel
    → IsWriter x
    → IsReader y
    → Shows s (x ∷ a)
    → Shows t (y ∷ b)
    → weight (x ∷ a) + weight (y ∷ b) < suc fuel
    → produced (x ∷ a) ≡ consumed (y ∷ b)
    → Ends (suc fuel) s t acc (x ∷ a) (y ∷ b)
unfolding compose_loop
round-both fuel s t acc x y a b rounds w r hs ht few meet =
    let sx = Shows-AllSound hs in
    let sy = Shows-AllSound ht in
    let n = overlap (size x) (size y) in
    let o =
      overlap-IsOverlap (size x) (size y) (size-pos x sx.0.0) (size-pos y sy.0.0) sx.0.1 sy.0.1 in
    let p = consume-front n hs o.positive o.left in
    let q = consume-front n ht o.positive o.right in
    let (out, m, emitted) = combine-Combines x y n acc w r o.left in
    let (c, composed, rest) =
      rounds (consume s n) (consume t n) (add_all out acc) p.left q.left p.shows q.shows
        (omega (arith, p.weighs, q.weighs, o.positive))
        (omega (
          arith,
          meet,
          produced-Cut p.cut,
          consumed-Cut q.cut,
          Combines-meets m,
          produced-append (front n x ∷ []) p.left,
          consumed-append (front n y ∷ []) q.left,
        )) in
    (
      out ++ c,
      cut_a p.cut (cut_b q.cut (both m refl composed)),
      rw (peek-cons hs, peek-cons ht, step-both (compose_loop fuel) x y s t acc w r, emitted, rest)
          (ap ok (sym (add_all-append out c acc))),
    )

round-insert :
    (fuel : ℕ) (s t : Cursor) (acc : List Op) (v : Text) (a b : List Op)
    → Rounds fuel
    → Shows s a
    → Shows t (insert v ∷ b)
    → weight a + weight (insert v ∷ b) < suc fuel
    → produced a ≡ consumed b
    → Ends (suc fuel) s t acc a (insert v ∷ b)
unfolding compose_loop compose_step add_all
round-insert fuel s t acc v a b rounds hs ht few meet =
    let pos = size-pos (insert v) (Shows-AllSound ht).0.0 in
    let (c, composed, rest) =
      rounds s (consume t (length v)) (add_op (insert v) acc) a b hs (consume-all ht) (omega arith)
        meet in
    (insert v ∷ c, b_insert v composed, rw (peek-cons ht) rest)

round-delete :
    (fuel : ℕ) (s t : Cursor) (acc : List Op) (n : ℕ) (a b : List Op)
    → Rounds fuel
    → Shows s (delete n ∷ a)
    → Shows t b
    → weight (delete n ∷ a) + weight b < suc fuel
    → produced a ≡ consumed b
    → compose_loop (suc fuel) s t acc ≡ compose_loop fuel (consume s n) t (add_op (delete n) acc)
    → Ends (suc fuel) s t acc (delete n ∷ a) b
unfolding add_all
round-delete fuel s t acc n a b rounds hs ht few meet step =
    let pos = size-pos (delete n) (Shows-AllSound hs).0.0 in
    let (c, composed, rest) =
      rounds (consume s n) t (add_op (delete n) acc) a b (consume-all hs) ht (omega arith) meet in
    (delete n ∷ c, a_delete n composed, step ∙ rest)

-- From lists that fit each other the loop ends, with fuel for each character, and composes them.
pub compose_loop-Ends : (fuel : ℕ) → Rounds fuel
unfolding compose_loop compose_step IsWriter IsReader add_all
compose_loop-Ends zero s t acc a b hs ht few meet = absurd (omega arith)
compose_loop-Ends (suc fuel) s t acc a (insert v ∷ b) hs ht few meet =
    round-insert fuel s t acc v a b (compose_loop-Ends fuel) hs ht few meet
compose_loop-Ends (suc fuel) s t acc (delete n ∷ a) [] hs ht few meet =
    round-delete fuel s t acc n a [] (compose_loop-Ends fuel) hs ht few meet
      (rw (peek-cons hs, peek-nil ht))
compose_loop-Ends (suc fuel) s t acc (delete n ∷ a) (retain m ∷ b) hs ht few meet =
    round-delete fuel s t acc n a (retain m ∷ b) (compose_loop-Ends fuel) hs ht few meet
      (rw (peek-cons hs, peek-cons ht))
compose_loop-Ends (suc fuel) s t acc (delete n ∷ a) (delete m ∷ b) hs ht few meet =
    round-delete fuel s t acc n a (delete m ∷ b) (compose_loop-Ends fuel) hs ht few meet
      (rw (peek-cons hs, peek-cons ht))
compose_loop-Ends (suc fuel) s t acc [] [] hs ht few meet =
    ([], done, rw (peek-nil hs, peek-nil ht))
compose_loop-Ends (suc fuel) s t acc [] (retain m ∷ b) hs ht few meet =
    absurd (omega (arith, Shows-AllSound ht))
compose_loop-Ends (suc fuel) s t acc [] (delete m ∷ b) hs ht few meet =
    absurd (omega (arith, Shows-AllSound ht))
compose_loop-Ends (suc fuel) s t acc (retain n ∷ a) [] hs ht few meet =
    absurd (omega (arith, Shows-AllSound hs))
compose_loop-Ends (suc fuel) s t acc (insert u ∷ a) [] hs ht few meet =
    absurd (omega (arith, Shows-AllSound hs))
compose_loop-Ends (suc fuel) s t acc (unknown n ∷ a) b hs ht few meet =
    absurd (Shows-AllSound hs).0.0
compose_loop-Ends (suc fuel) s t acc a (unknown m ∷ b) hs ht few meet =
    absurd (Shows-AllSound ht).0.0
compose_loop-Ends (suc fuel) s t acc (retain n ∷ a) (retain m ∷ b) hs ht few meet =
    round-both fuel s t acc (retain n) (retain m) a b (compose_loop-Ends fuel) tt tt hs ht few meet
compose_loop-Ends (suc fuel) s t acc (retain n ∷ a) (delete m ∷ b) hs ht few meet =
    round-both fuel s t acc (retain n) (delete m) a b (compose_loop-Ends fuel) tt tt hs ht few meet
compose_loop-Ends (suc fuel) s t acc (insert u ∷ a) (retain m ∷ b) hs ht few meet =
    round-both fuel s t acc (insert u) (retain m) a b (compose_loop-Ends fuel) tt tt hs ht few meet
compose_loop-Ends (suc fuel) s t acc (insert u ∷ a) (delete m ∷ b) hs ht few meet =
    round-both fuel s t acc (insert u) (delete m) a b (compose_loop-Ends fuel) tt tt hs ht few meet
