-- ===== src/Ot/Cursor/Cut.antt =====
-- An operation cut in two by a partial `consume`: the front is what a round works on, the rest stays
-- ahead of the cursor.
use claude_ds_project.Base.{
  ℕ, ◌+◌, ◌≤◌, ◌<◌, ◌≡◌, refl, ap, sym, inl, inr, List, ◌∷◌, length, take, take-all,
  take-append-drop, length-take, arith, Bool-cases, ltb, ltb→lt, ltb→le,
}
use claude_ds_project.GoInt.{sub-small}
use claude_ds_project.Ot.Changeset.{Text, Op, retain, insert, delete, unknown}
use claude_ds_project.Ot.Meaning.{
  patch, consumed, produced, IsProper, AllProper, Splits, split_retain, split_insert, split_delete,
  patch-split, consumed-split, produced-split,
}
use claude_ds_project.Ot.Cursor.{Cursor, trim, consume, size, weight}
use claude_ds_project.Ot.Cursor.Laws.{
  IsSound, AllSound, Shows, size-trim, trim-IsSound, Shows-AllSound, consume-all, consume-part,
}

-- The first `n` characters of an operation.
unfoldable pub front : ℕ → Op → Op
front n (retain k) = retain n
front n (insert s) = insert (take n s)
front n (delete k) = delete n
front n (unknown k) = unknown n

-- `Cut x xs p ps`: the operations `x ∷ xs` are `p ∷ ps`, where `p` is `x` or its front.
pub data Cut (x : Op) (xs : List Op) : Op → List Op → Type 0 where
  whole : Cut x xs x xs
  part : {p q : Op} → Splits x p q → IsProper p → IsProper q → Cut x xs p (q ∷ xs)

pub patch-Cut :
    {x p : Op} {xs ps : List Op} (doc : Text)
    → Cut x xs p ps
    → patch (x ∷ xs) doc ≡ patch (p ∷ ps) doc
patch-Cut doc whole = refl
patch-Cut {xs = xs} doc (part s _ _) = patch-split xs doc s

pub consumed-Cut :
    {x p : Op} {xs ps : List Op} → Cut x xs p ps → consumed (x ∷ xs) ≡ consumed (p ∷ ps)
consumed-Cut whole = refl
consumed-Cut {xs = xs} (part s _ _) = consumed-split xs s

pub produced-Cut :
    {x p : Op} {xs ps : List Op} → Cut x xs p ps → produced (x ∷ xs) ≡ produced (p ∷ ps)
produced-Cut whole = refl
produced-Cut {xs = xs} (part s _ _) = produced-split xs s

pub Cut-AllProper :
    {x p : Op} {xs ps : List Op} → Cut x xs p ps → AllProper (x ∷ xs) → AllProper (p ∷ ps)
Cut-AllProper whole h = h
Cut-AllProper (part s hp hq) h = (hp, (hq, h.1))

front-size : (op : Op) → front (size op) op ≡ op
unfolding front
front-size (retain k) = refl
front-size (insert s) = ap insert (take-all s (length s) (omega arith))
front-size (delete k) = refl
front-size (unknown k) = refl

front-Splits : (n : ℕ) (op : Op) → n ≤ size op → IsSound op → Splits op (front n op) (trim n op)
unfolding front trim
front-Splits n (retain k) h s = split_retain (rw (sub-small k n h s.1) (omega arith))
front-Splits n (insert t) h s = split_insert (sym (take-append-drop n t))
front-Splits n (delete k) h s = split_delete (rw (sub-small k n h s.1) (omega arith))
front-Splits n (unknown k) h s = absurd s.0

front-IsProper : (n : ℕ) (op : Op) → 0 < n → n ≤ size op → IsProper op → IsProper (front n op)
unfolding front
front-IsProper n (retain k) z h s = z
front-IsProper n (insert t) z h s = omega (arith, length-take n t)
front-IsProper n (delete k) z h s = z
front-IsProper n (unknown k) z h s = s

-- What a cursor shows after `n` characters of the first operation are consumed.
pub record Consumes (s : Cursor) (x : Op) (xs : List Op) (n : ℕ) : Type 0 where
  pub left : List Op
  pub cut : Cut x xs (front n x) left
  pub shows : Shows (consume s n) left
  pub weighs : weight left + n ≡ size x + weight xs

pub consume-front :
    {s : Cursor} {x : Op} {xs : List Op} (n : ℕ)
    → Shows s (x ∷ xs)
    → 0 < n
    → n ≤ size x
    → Consumes s x xs n
consume-front {s} {x} {xs} n h z k = elim (Bool-cases (ltb n (size x))) [
  | inl below ↦ record {
    left = trim n x ∷ xs;
    cut =
        part (front-Splits n x k sound.0) (front-IsProper n x z k sound.0.0)
          (trim-IsSound n x (ltb→lt n (size x) below) sound.0).0;
    shows = consume-part n h z (ltb→lt n (size x) below);
    weighs = omega (arith, size-trim n x k sound.0.1);
  }
  | inr above ↦
      let e : n ≡ size x = omega (arith, ltb→le n (size x) above) in
      rw e (record {
        left = xs;
        cut = rw (front-size x) whole;
        shows = consume-all h;
        weighs = omega arith;
      })
]
  where
    sound : AllSound (x ∷ xs)
    sound = Shows-AllSound h
