-- ===== src/Ot/Compose/Relation.antt =====
-- The table of combination rules at the head of internal/ot/compose.go as a relation, and what it
-- promises: the composed operations do what the first list and then the second do.
use claude_ds_project.Base.{
  ℕ, ◌≤◌, ◌≡◌, refl, ap, sym, ◌∙◌, List, [], ◌∷◌, ◌++◌, length, take, drop, length-drop, arith,
}
use claude_ds_project.Ot.Changeset.{Text, Op, retain, insert, delete}
use claude_ds_project.Ot.Meaning.{
  take_front, drop_front, seen_front, patch, consumed, produced, IsProper, AllProper,
  consumed-append, produced-append,
}
use claude_ds_project.Ot.Cursor.Cut.{Cut, patch-Cut, consumed-Cut, produced-Cut, Cut-AllProper}

-- The rules for two operations on the same characters of the text between the changesets.
pub data Combines : Op → Op → List Op → Type 0 where
  keep : (n : ℕ) → Combines (retain n) (retain n) (retain n ∷ [])
  remove : (n : ℕ) → Combines (retain n) (delete n) (delete n ∷ [])
  add : {n : ℕ} (s : Text) → n ≡ length s → Combines (insert s) (retain n) (insert s ∷ [])
  forget : {n : ℕ} (s : Text) → n ≡ length s → Combines (insert s) (delete n) []

pub data Composes : List Op → List Op → List Op → Type 0 where
  done : Composes [] [] []
  b_insert :
      {a b c : List Op} (s : Text) → Composes a b c → Composes a (insert s ∷ b) (insert s ∷ c)
  a_delete : {a b c : List Op} (n : ℕ) → Composes a b c → Composes (delete n ∷ a) b (delete n ∷ c)
  both :
      {x y : Op} {a b c out all : List Op}
      → Combines x y out
      → all ≡ out ++ c
      → Composes a b c
      → Composes (x ∷ a) (y ∷ b) all
  cut_a :
      {x p : Op} {xs ps b c : List Op}
      → Cut x xs p ps
      → Composes (p ∷ ps) b c
      → Composes (x ∷ xs) b c
  cut_b :
      {y p : Op} {ys ps a c : List Op}
      → Cut y ys p ps
      → Composes a (p ∷ ps) c
      → Composes a (y ∷ ys) c

Combines-patch :
    {x y : Op} {out : List Op} (a b c : List Op) (doc : Text)
    → Combines x y out
    → consumed (x ∷ a) ≤ length doc
    → ((d : Text) → consumed a ≤ length d → patch c d ≡ patch b (patch a d))
    → patch (out ++ c) doc ≡ patch (y ∷ b) (patch (x ∷ a) doc)
unfolding patch
Combines-patch a b c doc (keep n) h ih =
    let (t, d) = seen_front n doc (patch a (drop n doc)) (omega arith) in
    rw (t, d) (ap (take n doc ++◌) (ih (drop n doc) (omega (arith, length-drop n doc))))
Combines-patch a b c doc (remove n) h ih =
    let (t, d) = seen_front n doc (patch a (drop n doc)) (omega arith) in
    rw d (ih (drop n doc) (omega (arith, length-drop n doc)))
Combines-patch a b c doc (add {n = n} s e) h ih =
    rw (take_front n s (patch a doc) e, drop_front n s (patch a doc) e) (ap (s ++◌) (ih doc h))
Combines-patch a b c doc (forget {n = n} s e) h ih = rw (drop_front n s (patch a doc) e) (ih doc h)

pub Composes-patch :
    {a b c : List Op}
    → Composes a b c
    → (doc : Text) → consumed a ≤ length doc
    → patch c doc ≡ patch b (patch a doc)
unfolding patch
Composes-patch done doc h = refl
Composes-patch (b_insert s r) doc h = ap (s ++◌) (Composes-patch r doc h)
Composes-patch (a_delete n r) doc h =
    Composes-patch r (drop n doc) (omega (arith, length-drop n doc))
Composes-patch (both {a = a} {b = b} {c = c} m e r) doc h =
    rw e (Combines-patch a b c doc m h (Composes-patch r))
Composes-patch (cut_a {b = b} k r) doc h =
    Composes-patch r doc (omega (arith, consumed-Cut k)) ∙ ap (patch b) (sym (patch-Cut doc k))
Composes-patch (cut_b {a = a} k r) doc h = Composes-patch r doc h ∙ sym (patch-Cut (patch a doc) k)

Combines-consumed : {x y : Op} {out : List Op} → Combines x y out → consumed out ≡ consumed (x ∷ [])
Combines-consumed (keep n) = refl
Combines-consumed (remove n) = refl
Combines-consumed (add s e) = refl
Combines-consumed (forget s e) = refl

Combines-produced : {x y : Op} {out : List Op} → Combines x y out → produced out ≡ produced (y ∷ [])
Combines-produced (keep n) = refl
Combines-produced (remove n) = refl
Combines-produced (add s e) = omega arith
Combines-produced (forget s e) = refl

pub Combines-meets :
    {x y : Op} {out : List Op} → Combines x y out → produced (x ∷ []) ≡ consumed (y ∷ [])
Combines-meets (keep n) = refl
Combines-meets (remove n) = refl
Combines-meets (add s e) = omega arith
Combines-meets (forget s e) = omega arith

pub Composes-consumed : {a b c : List Op} → Composes a b c → consumed c ≡ consumed a
Composes-consumed done = refl
Composes-consumed (b_insert s r) = Composes-consumed r
Composes-consumed (a_delete n r) = omega (arith, Composes-consumed r)
Composes-consumed (both {x = x} {a = a} {c = c} {out = out} m e r) = rw e (
    omega (
      arith,
      Composes-consumed r,
      Combines-consumed m,
      consumed-append out c,
      consumed-append (x ∷ []) a,
    ))
Composes-consumed (cut_a k r) = omega (arith, Composes-consumed r, consumed-Cut k)
Composes-consumed (cut_b k r) = Composes-consumed r

pub Composes-produced : {a b c : List Op} → Composes a b c → produced c ≡ produced b
Composes-produced done = refl
Composes-produced (b_insert s r) = omega (arith, Composes-produced r)
Composes-produced (a_delete n r) = Composes-produced r
Composes-produced (both {y = y} {b = b} {c = c} {out = out} m e r) = rw e (
    omega (
      arith,
      Composes-produced r,
      Combines-produced m,
      produced-append out c,
      produced-append (y ∷ []) b,
    ))
Composes-produced (cut_a k r) = Composes-produced r
Composes-produced (cut_b k r) = omega (arith, Composes-produced r, produced-Cut k)

Combines-AllProper :
    {x y : Op} {out : List Op} (c : List Op)
    → Combines x y out
    → IsProper x
    → IsProper y
    → AllProper c
    → AllProper (out ++ c)
Combines-AllProper c (keep n) h k l = (h, l)
Combines-AllProper c (remove n) h k l = (h, l)
Combines-AllProper c (add s e) h k l = (h, l)
Combines-AllProper c (forget s e) h k l = l

pub Composes-AllProper :
    {a b c : List Op} → Composes a b c → AllProper a → AllProper b → AllProper c
Composes-AllProper done h k = tt
Composes-AllProper (b_insert s r) h k = (k.0, Composes-AllProper r h k.1)
Composes-AllProper (a_delete n r) h k = (h.0, Composes-AllProper r h.1 k)
Composes-AllProper (both {c = c} m e r) h k =
    rw e (Combines-AllProper c m h.0 k.0 (Composes-AllProper r h.1 k.1))
Composes-AllProper (cut_a c r) h k = Composes-AllProper r (Cut-AllProper c h) k
Composes-AllProper (cut_b c r) h k = Composes-AllProper r h (Cut-AllProper c k)
