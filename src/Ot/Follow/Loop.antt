-- ===== src/Ot/Follow/Loop.antt =====
-- The loop of `Follow` takes one case of its table a round, and ends.
use claude_ds_project.Base.{
  ℕ, suc, ◌+◌, ◌≤◌, ◌<◌, ◌≡◌, refl, ap, sym, ◌∙◌, true, false, List, [], ◌∷◌, ◌++◌, length, arith,
}
use claude_ds_project.GoInt.{half, add-small, lt-small}
use claude_ds_project.Outcome.{ok}
use claude_ds_project.Ot.Changeset.{Text, Op, retain, insert, delete, unknown}
use claude_ds_project.Ot.TextOrder.{le_text}
use claude_ds_project.Ot.Meaning.{consumed, produced, produced-append, consumed-append}
use claude_ds_project.Ot.Cursor.{Cursor, size, weight, consume, add_op}
use claude_ds_project.Ot.Cursor.Laws.{Shows, size-pos, peek-nil, peek-cons, Shows-AllSound}
use claude_ds_project.Ot.Cursor.Merge.{add_all}
use claude_ds_project.Ot.Cursor.Cut.{front, Consumes, consume-front, consumed-Cut, produced-Cut}
use claude_ds_project.Ot.Compose.{overlap}
use claude_ds_project.Ot.Compose.Loop.{overlap-IsOverlap, add_all-append}
use claude_ds_project.Ot.Follow.{Draft, add_counted, rebase, follow_step, follow_loop}
use claude_ds_project.Ot.Follow.Relation.{
  Meets, keep, b_removes, a_removes, both_remove, Meets-same, Meets-produced,
}

-- The draft with more operations, while its length fits an `int`.
unfoldable pub extend : List Op → Draft → Draft
extend ops d = record { ops = add_all ops d.ops; new_len = d.new_len + produced ops }

pub extend-nil : (d : Draft) → extend [] d ≡ d
unfolding extend add_all
extend-nil d = λ i. record { ops = d.ops; new_len = same i }
  where
    same : d.new_len + 0 ≡ d.new_len
    same = omega arith

pub extend-append : (xs ys : List Op) (d : Draft) → extend ys (extend xs d) ≡ extend (xs ++ ys) d
unfolding extend
extend-append xs ys d = λ i. record { ops = sym (add_all-append xs ys d.ops) i; new_len = same i }
  where
    same : d.new_len + produced xs + produced ys ≡ d.new_len + produced (xs ++ ys)
    same = omega (arith, produced-append xs ys)

pub add_counted-extend :
    (op : Op) (d : Draft)
    → d.new_len + produced (op ∷ []) < half
    → add_counted op d ≡ extend (op ∷ []) d
unfolding add_counted extend add_all
add_counted-extend (retain n) d h =
    rw (add-small d.new_len n (omega arith))
      (λ i. record { ops = add_op (retain n) d.ops; new_len = same i })
  where
    same : d.new_len + n ≡ d.new_len + (n + 0)
    same = omega arith
add_counted-extend (insert s) d h =
    rw (add-small d.new_len (length s) (omega arith))
      (λ i. record { ops = add_op (insert s) d.ops; new_len = same i })
  where
    same : d.new_len + length s ≡ d.new_len + (length s + 0)
    same = omega arith
add_counted-extend (delete n) d h = λ i. record { ops = add_op (delete n) d.ops; new_len = same i }
  where
    same : d.new_len ≡ d.new_len + 0
    same = omega arith
add_counted-extend (unknown n) d h =
    λ i. record { ops = add_op (unknown n) d.ops; new_len = same i }
  where
    same : d.new_len ≡ d.new_len + 0
    same = omega arith

abbrev pub NoInsert : List Op → Type 0
NoInsert (insert s ∷ ops) = ⊥
NoInsert _ = Unit

abbrev pub IsSource : Op → Type 0
IsSource (retain n) = Unit
IsSource (delete n) = Unit
IsSource _ = ⊥

module _ (fuel : ℕ) {s t : Cursor} (d : Draft) where
  pub step-tie :
      {u v : Text} {a b : List Op}
      → Shows s (insert u ∷ a)
      → Shows t (insert v ∷ b)
      → le_text u v ≡ true
      → follow_loop (suc fuel) s t d
        ≡ follow_loop fuel (consume s (length u)) t (add_counted (retain (length u)) d)
  unfolding follow_loop follow_step
  step-tie hs ht e = rw (peek-cons hs, peek-cons ht) (rw e)

  pub step-tie_after :
      {u v : Text} {a b : List Op}
      → Shows s (insert u ∷ a)
      → Shows t (insert v ∷ b)
      → le_text u v ≡ false
      → follow_loop (suc fuel) s t d
        ≡ follow_loop fuel s (consume t (length v)) (add_counted (insert v) d)
  unfolding follow_loop follow_step
  step-tie_after hs ht e = rw (peek-cons hs, peek-cons ht) (rw e)

  pub step-a_insert :
      {u : Text} {a : List Op} (b : List Op)
      → Shows s (insert u ∷ a)
      → Shows t b
      → NoInsert b
      → follow_loop (suc fuel) s t d
        ≡ follow_loop fuel (consume s (length u)) t (add_counted (retain (length u)) d)
  unfolding follow_loop follow_step
  step-a_insert [] hs ht k = rw (peek-cons hs, peek-nil ht)
  step-a_insert (retain n ∷ b) hs ht k = rw (peek-cons hs, peek-cons ht)
  step-a_insert (delete n ∷ b) hs ht k = rw (peek-cons hs, peek-cons ht)
  step-a_insert (unknown n ∷ b) hs ht k = rw (peek-cons hs, peek-cons ht)
  step-a_insert (insert v ∷ b) hs ht k = absurd k

  pub step-b_insert :
      {v : Text} {b : List Op} (a : List Op)
      → Shows s a
      → Shows t (insert v ∷ b)
      → NoInsert a
      → follow_loop (suc fuel) s t d
        ≡ follow_loop fuel s (consume t (length v)) (add_counted (insert v) d)
  unfolding follow_loop follow_step
  step-b_insert [] hs ht k = rw (peek-nil hs, peek-cons ht)
  step-b_insert (retain n ∷ a) hs ht k = rw (peek-cons hs, peek-cons ht)
  step-b_insert (delete n ∷ a) hs ht k = rw (peek-cons hs, peek-cons ht)
  step-b_insert (unknown n ∷ a) hs ht k = rw (peek-cons hs, peek-cons ht)
  step-b_insert (insert u ∷ a) hs ht k = absurd k

  pub step-done : Shows s [] → Shows t [] → follow_loop (suc fuel) s t d ≡ ok d
  unfolding follow_loop follow_step
  step-done hs ht = rw (peek-nil hs, peek-nil ht)

  pub step-both :
      (x y : Op) {a b : List Op}
      → Shows s (x ∷ a)
      → Shows t (y ∷ b)
      → IsSource x
      → IsSource y
      → follow_loop (suc fuel) s t d
        ≡ follow_loop fuel
            (consume s (overlap (size x) (size y)))
            (consume t (overlap (size x) (size y)))
            (rebase x y (overlap (size x) (size y)) d)
  unfolding follow_loop follow_step
  step-both (retain n) (retain m) hs ht k l = rw (peek-cons hs, peek-cons ht)
  step-both (retain n) (delete m) hs ht k l = rw (peek-cons hs, peek-cons ht)
  step-both (delete n) (retain m) hs ht k l = rw (peek-cons hs, peek-cons ht)
  step-both (delete n) (delete m) hs ht k l = rw (peek-cons hs, peek-cons ht)
  step-both (retain n) (insert v) hs ht k l = absurd l
  step-both (retain n) (unknown v) hs ht k l = absurd l
  step-both (delete n) (insert v) hs ht k l = absurd l
  step-both (delete n) (unknown v) hs ht k l = absurd l
  step-both (insert u) y hs ht k l = absurd k
  step-both (unknown u) y hs ht k l = absurd k

-- What `rebase` adds on either side, for two operations on the same characters.
pub record IsMet (x y : Op) (n : ℕ) : Type 0 where
  pub y' : List Op
  pub x' : List Op
  pub meets : Meets (front n x) (front n y) y' x'
  pub b_side : (d : Draft) → d.new_len + produced y' < half → rebase x y n d ≡ extend y' d
  pub a_side : (d : Draft) → d.new_len + produced x' < half → rebase y x n d ≡ extend x' d

pub rebase-IsMet : (x y : Op) (n : ℕ) → IsSource x → IsSource y → IsMet x y n
unfolding rebase front
rebase-IsMet (retain k) (retain m) n sx sy = record {
  y' = retain n ∷ [];
  x' = retain n ∷ [];
  meets = keep n;
  b_side = add_counted-extend (retain n);
  a_side = add_counted-extend (retain n);
}
rebase-IsMet (retain k) (delete m) n sx sy = record {
  y' = delete n ∷ [];
  x' = [];
  meets = b_removes n;
  b_side = add_counted-extend (delete n);
  a_side = λ d _. sym (extend-nil d);
}
rebase-IsMet (delete k) (retain m) n sx sy = record {
  y' = [];
  x' = delete n ∷ [];
  meets = a_removes n;
  b_side = λ d _. sym (extend-nil d);
  a_side = add_counted-extend (delete n);
}
rebase-IsMet (delete k) (delete m) n sx sy = record {
  y' = [];
  x' = [];
  meets = both_remove n;
  b_side = λ d _. sym (extend-nil d);
  a_side = λ d _. sym (extend-nil d);
}
rebase-IsMet (retain n) (insert v) _ k l = absurd l
rebase-IsMet (retain n) (unknown v) _ k l = absurd l
rebase-IsMet (delete n) (insert v) _ k l = absurd l
rebase-IsMet (delete n) (unknown v) _ k l = absurd l
rebase-IsMet (insert u) y _ k l = absurd k
rebase-IsMet (unknown u) y _ k l = absurd k

module _ (fuel : ℕ) (s t s' t' : Cursor) (d : Draft) where
  -- A round that adds one operation, and the rounds behind it.
  pub resume_op :
      (op : Op) (c : List Op)
      → d.new_len + produced (op ∷ []) < half
      → follow_loop (suc fuel) s t d ≡ follow_loop fuel s' t' (add_counted op d)
      → follow_loop fuel s' t' (extend (op ∷ []) d) ≡ ok (extend c (extend (op ∷ []) d))
      → follow_loop (suc fuel) s t d ≡ ok (extend (op ∷ c) d)
  resume_op op c h step rest =
      step
      ∙ ap (follow_loop fuel s' t') (add_counted-extend op d h)
      ∙ rest
      ∙ ap ok (extend-append (op ∷ []) c d)

  -- A round on characters of the source, and the rounds behind it.
  pub resume_both :
      (e : Draft) (out c : List Op)
      → e ≡ extend out d
      → follow_loop (suc fuel) s t d ≡ follow_loop fuel s' t' e
      → follow_loop fuel s' t' (extend out d) ≡ ok (extend c (extend out d))
      → follow_loop (suc fuel) s t d ≡ ok (extend (out ++ c) d)
  resume_both e out c h step rest =
      step ∙ ap (follow_loop fuel s' t') h ∙ rest ∙ ap ok (extend-append out c d)

-- Two operations on the source cut to their overlap.
pub record IsPaired (s t : Cursor) (x y : Op) (a b : List Op) : Type 0 where
  pub n : ℕ
  pub is_overlap : n ≡ overlap (size x) (size y)
  pub same : n ≡ overlap (size y) (size x)
  pub positive : 0 < n
  pub left : Consumes s x a n
  pub right : Consumes t y b n

overlap_comm : (k m : ℕ) → k < half → m < half → overlap k m ≡ overlap m k
unfolding overlap
overlap_comm k m h l = rw (lt-small m k l h, lt-small k m h l) (ground arith)

pub source-IsPaired :
    {s t : Cursor} (x y : Op) (a b : List Op)
    → Shows s (x ∷ a)
    → Shows t (y ∷ b)
    → IsPaired s t x y a b
source-IsPaired x y a b hs ht =
    let sx = Shows-AllSound hs in
    let sy = Shows-AllSound ht in
    let o =
      overlap-IsOverlap (size x) (size y) (size-pos x sx.0.0) (size-pos y sy.0.0) sx.0.1 sy.0.1 in
    record {
      n = overlap (size x) (size y);
      is_overlap = refl;
      same = overlap_comm (size x) (size y) sx.0.1 sy.0.1;
      positive = o.positive;
      left = consume-front (overlap (size x) (size y)) hs o.positive o.left;
      right = consume-front (overlap (size x) (size y)) ht o.positive o.right;
    }

-- What such a round leaves of the lengths of the two lists.
pub record IsShorter (x y : Op) (a b left right y' x' : List Op) : Type 0 where
  pub weighs : weight left + weight right < weight (x ∷ a) + weight (y ∷ b)
  pub same : consumed (x ∷ a) ≡ consumed (y ∷ b) → consumed left ≡ consumed right
  pub b_side : produced y' + (produced left + produced right) ≤ produced (x ∷ a) + produced (y ∷ b)
  pub a_side : produced x' + (produced right + produced left) ≤ produced (y ∷ b) + produced (x ∷ a)

pub paired-IsShorter :
    {s t : Cursor} (x y : Op) (a b : List Op) (p : IsPaired s t x y a b) (m : IsMet x y p.n)
    → IsShorter x y a b p.left.left p.right.left m.y' m.x'
paired-IsShorter x y a b p m =
    let l = p.left in
    let r = p.right in
    let made = Meets-produced m.meets in
    record {
      weighs = omega (arith, l.weighs, r.weighs, p.positive);
      same = λ e. omega (
        arith,
        consumed-Cut l.cut,
        consumed-Cut r.cut,
        Meets-same m.meets,
        consumed-append (front p.n x ∷ []) l.left,
        consumed-append (front p.n y ∷ []) r.left,
      );
      b_side = omega (
        arith,
        made.2,
        produced-Cut l.cut,
        produced-Cut r.cut,
        produced-append (front p.n x ∷ []) l.left,
        produced-append (front p.n y ∷ []) r.left,
      );
      a_side = omega (
        arith,
        made.1,
        produced-Cut l.cut,
        produced-Cut r.cut,
        produced-append (front p.n x ∷ []) l.left,
        produced-append (front p.n y ∷ []) r.left,
      );
    }
