-- ===== src/Ot/Follow/Relation.antt =====
-- The cases at the head of internal/ot/follow.go as relations: one side, and both sides at once.
use claude_ds_project.Base.{
  ℕ, ◌+◌, ◌≤◌, ◌≡◌, refl, ap, sym, ◌∙◌, List, [], ◌∷◌, ◌++◌, length, take, drop, length-drop, arith,
}
use claude_ds_project.Ot.Changeset.{Text, Op, retain, insert, delete}
use claude_ds_project.Ot.Meaning.{
  take_front, drop_front, seen_front, patch, consumed, produced, IsProper, AllProper,
  consumed-append, produced-append,
}
use claude_ds_project.Ot.Cursor.Cut.{Cut, patch-Cut, consumed-Cut, produced-Cut, Cut-AllProper}

-- Two operations on the same characters of the source, and what each becomes after the other:
-- `Meets x y y' x'`.
pub data Meets : Op → Op → List Op → List Op → Type 0 where
  keep : (n : ℕ) → Meets (retain n) (retain n) (retain n ∷ []) (retain n ∷ [])
  b_removes : (n : ℕ) → Meets (retain n) (delete n) (delete n ∷ []) []
  a_removes : (n : ℕ) → Meets (delete n) (retain n) [] (delete n ∷ [])
  both_remove : (n : ℕ) → Meets (delete n) (delete n) [] []

-- `Rebases a b c`: `c` is `b` after `a`.
pub data Rebases : List Op → List Op → List Op → Type 0 where
  done : Rebases [] [] []
  a_insert :
      {a b c : List Op} {n : ℕ} (s : Text)
      → n ≡ length s
      → Rebases a b c
      → Rebases (insert s ∷ a) b (retain n ∷ c)
  b_insert : {a b c : List Op} (s : Text) → Rebases a b c → Rebases a (insert s ∷ b) (insert s ∷ c)
  both :
      {x y : Op} {a b c out other all : List Op}
      → Meets x y out other
      → all ≡ out ++ c
      → Rebases a b c
      → Rebases (x ∷ a) (y ∷ b) all
  cut_a :
      {x p : Op} {xs ps b c : List Op} → Cut x xs p ps → Rebases (p ∷ ps) b c → Rebases (x ∷ xs) b c
  cut_b :
      {y p : Op} {ys ps a c : List Op} → Cut y ys p ps → Rebases a (p ∷ ps) c → Rebases a (y ∷ ys) c

-- `Diamond a b b' a'`: `b'` is `b` after `a`, and `a'` is `a` after `b`, with one order of insertions
-- at one place.
pub data Diamond : List Op → List Op → List Op → List Op → Type 0 where
  done : Diamond [] [] [] []
  a_insert :
      {a b b' a' : List Op} {n : ℕ} (s : Text)
      → n ≡ length s
      → Diamond a b b' a'
      → Diamond (insert s ∷ a) b (retain n ∷ b') (insert s ∷ a')
  b_insert :
      {a b b' a' : List Op} {n : ℕ} (s : Text)
      → n ≡ length s
      → Diamond a b b' a'
      → Diamond a (insert s ∷ b) (insert s ∷ b') (retain n ∷ a')
  tie :
      {a b b' a' : List Op} {n m : ℕ} (s t : Text)
      → s ≡ t
      → n ≡ length s
      → m ≡ length t
      → Diamond a b b' a'
      → Diamond (insert s ∷ a) (insert t ∷ b) (retain n ∷ insert t ∷ b') (retain m ∷ insert s ∷ a')
  both :
      {x y : Op} {a b b' a' y' x' all_b all_a : List Op}
      → Meets x y y' x'
      → all_b ≡ y' ++ b'
      → all_a ≡ x' ++ a'
      → Diamond a b b' a'
      → Diamond (x ∷ a) (y ∷ b) all_b all_a
  cut_a :
      {x p : Op} {xs ps b b' a' : List Op}
      → Cut x xs p ps
      → Diamond (p ∷ ps) b b' a'
      → Diamond (x ∷ xs) b b' a'
  cut_b :
      {y p : Op} {ys ps a b' a' : List Op}
      → Cut y ys p ps
      → Diamond a (p ∷ ps) b' a'
      → Diamond a (y ∷ ys) b' a'

Meets-patch :
    {x y : Op} {y' x' : List Op} (a b b' a' : List Op) (doc : Text)
    → Meets x y y' x'
    → consumed (x ∷ a) ≤ length doc
    → ((d : Text) → consumed a ≤ length d → patch b' (patch a d) ≡ patch a' (patch b d))
    → patch (y' ++ b') (patch (x ∷ a) doc) ≡ patch (x' ++ a') (patch (y ∷ b) doc)
unfolding patch
Meets-patch a b b' a' doc (keep n) h ih =
    let (t, d) = seen_front n doc (patch a (drop n doc)) (omega arith) in
    let (t', d') = seen_front n doc (patch b (drop n doc)) (omega arith) in
    rw (t, d, t', d') (ap (take n doc ++◌) (ih (drop n doc) (omega (arith, length-drop n doc))))
Meets-patch a b b' a' doc (b_removes n) h ih =
    let (t, d) = seen_front n doc (patch a (drop n doc)) (omega arith) in
    ap (patch b') d ∙ ih (drop n doc) (omega (arith, length-drop n doc))
Meets-patch a b b' a' doc (a_removes n) h ih =
    let (t, d) = seen_front n doc (patch b (drop n doc)) (omega (arith, h)) in
    ih (drop n doc) (omega (arith, length-drop n doc)) ∙ sym (ap (patch a') d)
Meets-patch a b b' a' doc (both_remove n) h ih = ih (drop n doc) (omega (arith, length-drop n doc))

-- Both ways round the diamond lead to one text.
pub Diamond-patch :
    {a b b' a' : List Op}
    → Diamond a b b' a'
    → (doc : Text) → consumed a ≤ length doc
    → patch b' (patch a doc) ≡ patch a' (patch b doc)
unfolding patch
Diamond-patch done doc h = refl
Diamond-patch (a_insert {a = a} {n = n} s e r) doc h =
    rw (take_front n s (patch a doc) e, drop_front n s (patch a doc) e)
      (ap (s ++◌) (Diamond-patch r doc h))
Diamond-patch (b_insert {b = b} {n = n} s e r) doc h =
    rw (take_front n s (patch b doc) e, drop_front n s (patch b doc) e)
      (ap (s ++◌) (Diamond-patch r doc h))
Diamond-patch (tie {a = a} {b = b} {n = n} {m = m} s t one e e' r) doc h =
    rw
      (
        take_front n s (patch a doc) e,
        drop_front n s (patch a doc) e,
        take_front m t (patch b doc) e',
        drop_front m t (patch b doc) e',
      )
      (rw one (ap (λ u. t ++ (t ++ u)) (Diamond-patch r doc h)))
Diamond-patch (both {a = a} {b = b} {b' = b'} {a' = a'} m e e' r) doc h =
    rw (e, e') (Meets-patch a b b' a' doc m h (Diamond-patch r))
Diamond-patch (cut_a {b' = b'} k r) doc h =
    ap (patch b') (patch-Cut doc k) ∙ Diamond-patch r doc (omega (arith, consumed-Cut k))
Diamond-patch (cut_b {a' = a'} k r) doc h =
    Diamond-patch r doc h ∙ ap (patch a') (sym (patch-Cut doc k))

pub Meets-same :
    {x y : Op} {y' x' : List Op} → Meets x y y' x' → consumed (x ∷ []) ≡ consumed (y ∷ [])
Meets-same (keep n) = refl
Meets-same (b_removes n) = refl
Meets-same (a_removes n) = refl
Meets-same (both_remove n) = refl

Meets-consumed : {x y : Op} {y' x' : List Op} → Meets x y y' x' → consumed y' ≡ produced (x ∷ [])
Meets-consumed (keep n) = refl
Meets-consumed (b_removes n) = refl
Meets-consumed (a_removes n) = refl
Meets-consumed (both_remove n) = refl

-- What the round gives to the results, and what it takes from the two lists.
pub Meets-produced :
    {x y : Op} {y' x' : List Op}
    → Meets x y y' x'
    → (produced y' ≤ produced (x ∷ []))
      × (produced x' ≤ produced (x ∷ []))
      × (produced y' ≤ produced (y ∷ []))
      × (produced x' ≤ produced (x ∷ []) + produced (y ∷ []))
Meets-produced (keep n) = omega arith
Meets-produced (b_removes n) = omega arith
Meets-produced (a_removes n) = omega arith
Meets-produced (both_remove n) = omega arith

-- The rebased operations read what `a` makes.
pub Rebases-consumed : {a b c : List Op} → Rebases a b c → consumed c ≡ produced a
Rebases-consumed done = refl
Rebases-consumed (a_insert s e r) = omega (arith, Rebases-consumed r)
Rebases-consumed (b_insert s r) = Rebases-consumed r
Rebases-consumed (both {x = x} {a = a} {c = c} {out = out} m e r) = rw e (
    omega (
      arith,
      Rebases-consumed r,
      Meets-consumed m,
      consumed-append out c,
      produced-append (x ∷ []) a,
    ))
Rebases-consumed (cut_a k r) = omega (arith, Rebases-consumed r, produced-Cut k)
Rebases-consumed (cut_b k r) = Rebases-consumed r

Meets-AllProper :
    {x y : Op} {out other : List Op} (c : List Op)
    → Meets x y out other
    → IsProper x
    → IsProper y
    → AllProper c
    → AllProper (out ++ c)
Meets-AllProper c (keep n) h k l = (h, l)
Meets-AllProper c (b_removes n) h k l = (k, l)
Meets-AllProper c (a_removes n) h k l = l
Meets-AllProper c (both_remove n) h k l = l

pub Rebases-AllProper : {a b c : List Op} → Rebases a b c → AllProper a → AllProper b → AllProper c
Rebases-AllProper done h k = tt
Rebases-AllProper (a_insert s e r) h k = (omega (arith, h.0), Rebases-AllProper r h.1 k)
Rebases-AllProper (b_insert s r) h k = (k.0, Rebases-AllProper r h k.1)
Rebases-AllProper (both {c = c} m e r) h k =
    rw e (Meets-AllProper c m h.0 k.0 (Rebases-AllProper r h.1 k.1))
Rebases-AllProper (cut_a c r) h k = Rebases-AllProper r (Cut-AllProper c h) k
Rebases-AllProper (cut_b c r) h k = Rebases-AllProper r h (Cut-AllProper c k)

-- The merged text is no longer than both results together.
pub Rebases-produced : {a b c : List Op} → Rebases a b c → produced c ≤ produced a + produced b
Rebases-produced done = omega arith
Rebases-produced (a_insert s e r) = omega (arith, Rebases-produced r)
Rebases-produced (b_insert s r) = omega (arith, Rebases-produced r)
Rebases-produced (both {x = x} {y = y} {a = a} {b = b} {c = c} {out = out} m e r) = rw e (
    omega (
      arith,
      Rebases-produced r,
      (Meets-produced m).2,
      produced-append out c,
      produced-append (x ∷ []) a,
      produced-append (y ∷ []) b,
    ))
Rebases-produced (cut_a k r) = omega (arith, Rebases-produced r, produced-Cut k)
Rebases-produced (cut_b k r) = omega (arith, Rebases-produced r, produced-Cut k)

Meets-swap : {x y : Op} {y' x' : List Op} → Meets x y y' x' → Meets y x x' y'
Meets-swap (keep n) = keep n
Meets-swap (b_removes n) = a_removes n
Meets-swap (a_removes n) = b_removes n
Meets-swap (both_remove n) = both_remove n

-- Each side of a diamond is the other side's list rebased.
pub Diamond-Rebases : {a b b' a' : List Op} → Diamond a b b' a' → Rebases a b b' × Rebases b a a'
Diamond-Rebases done = (done, done)
Diamond-Rebases (a_insert s e r) = let (p, q) = Diamond-Rebases r in (a_insert s e p, b_insert s q)
Diamond-Rebases (b_insert s e r) = let (p, q) = Diamond-Rebases r in (b_insert s p, a_insert s e q)
Diamond-Rebases (tie s t one e e' r) =
    let (p, q) = Diamond-Rebases r in (a_insert s e (b_insert t p), a_insert t e' (b_insert s q))
Diamond-Rebases (both m e e' r) =
    let (p, q) = Diamond-Rebases r in (both m e p, both (Meets-swap m) e' q)
Diamond-Rebases (cut_a k r) = let (p, q) = Diamond-Rebases r in (cut_a k p, cut_b k q)
Diamond-Rebases (cut_b k r) = let (p, q) = Diamond-Rebases r in (cut_b k p, cut_a k q)
