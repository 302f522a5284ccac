-- ===== src/Ot/Meaning.antt =====
-- What the operations of a changeset mean, written independently of the code in internal/ot: the text
-- that they make of a document, and how many characters they take and give.
use claude_ds_project.Base.{
  take-append, drop-append, ◌≤◌, ℕ, ◌+◌, ◌<◌, ◌≡◌, refl, ap, List, [], ◌∷◌, ◌++◌, length, take,
  drop, length-append, length-take, length-drop, take-add, drop-drop, append_assoc, arith,
}
use claude_ds_project.GoInt.{half}
use claude_ds_project.Ot.Changeset.{Text, Op, retain, insert, delete, unknown, Changeset}

pub take_front : (n : ℕ) (xs ys : Text) → n ≡ length xs → take n (xs ++ ys) ≡ xs
take_front n xs ys h = rw h (take-append xs ys)

pub drop_front : (n : ℕ) (xs ys : Text) → n ≡ length xs → drop n (xs ++ ys) ≡ ys
drop_front n xs ys h = rw h (drop-append xs ys)

length_taken : (n : ℕ) (doc : Text) → n ≤ length doc → n ≡ length (take n doc)
length_taken n doc h = omega (arith, length-take n doc)

-- What is behind the first `n` characters that the first list leaves of a document.
pub seen_front :
    (n : ℕ) (doc rest : Text)
    → n ≤ length doc
    → (take n (take n doc ++ rest) ≡ take n doc) × (drop n (take n doc ++ rest) ≡ rest)
seen_front n doc rest h =
    let e = length_taken n doc h in
    (take_front n (take n doc) rest e, drop_front n (take n doc) rest e)

-- The text that the operations make of a document.
unfoldable pub patch : List Op → Text → Text
patch [] doc = []
patch (retain n ∷ ops) doc = take n doc ++ patch ops (drop n doc)
patch (insert s ∷ ops) doc = s ++ patch ops doc
patch (delete n ∷ ops) doc = patch ops (drop n doc)
patch (unknown n ∷ ops) doc = patch ops doc

-- The characters of the document that the operations cover.
abbrev pub consumed : List Op → ℕ
consumed [] = 0
consumed (retain n ∷ ops) = n + consumed ops
consumed (insert s ∷ ops) = consumed ops
consumed (delete n ∷ ops) = n + consumed ops
consumed (unknown n ∷ ops) = consumed ops

-- The characters of the text that they make.
abbrev pub produced : List Op → ℕ
produced [] = 0
produced (retain n ∷ ops) = n + produced ops
produced (insert s ∷ ops) = length s + produced ops
produced (delete n ∷ ops) = produced ops
produced (unknown n ∷ ops) = produced ops

-- An operation of a known type with a positive length.
abbrev pub IsProper : Op → Type 0
IsProper (retain n) = 0 < n
IsProper (insert s) = 0 < length s
IsProper (delete n) = 0 < n
IsProper (unknown n) = ⊥

abbrev pub AllProper : List Op → Type 0
AllProper [] = Unit
AllProper (op ∷ ops) = IsProper op × AllProper ops

-- A changeset whose lengths are what its operations cover and make, and fit an `int`.
pub record IsWellFormed (c : Changeset) : Type 0 where
  pub proper : AllProper c.ops
  pub consumes : consumed c.ops ≡ c.old_len
  pub produces : produced c.ops ≡ c.new_len
  pub old_fits : c.old_len < half
  pub new_fits : c.new_len < half

-- A list of operations that covers a document makes a text of the length that it says.
pub length-patch :
    (ops : List Op) (doc : Text) → length doc ≡ consumed ops → length (patch ops doc) ≡ produced ops
unfolding patch
length-patch [] doc h = refl
length-patch (retain n ∷ ops) doc h = omega (
  arith,
  length-append (take n doc) (patch ops (drop n doc)),
  length-take n doc,
  length-patch ops (drop n doc) (omega (arith, length-drop n doc)),
)
length-patch (insert s ∷ ops) doc h =
    omega (arith, length-append s (patch ops doc), length-patch ops doc h)
length-patch (delete n ∷ ops) doc h =
    length-patch ops (drop n doc) (omega (arith, length-drop n doc))
length-patch (unknown n ∷ ops) doc h = length-patch ops doc h

pub consumed-append : (xs ys : List Op) → consumed (xs ++ ys) ≡ consumed xs + consumed ys
consumed-append [] ys = omega arith
consumed-append (retain n ∷ xs) ys = omega (arith, consumed-append xs ys)
consumed-append (insert s ∷ xs) ys = consumed-append xs ys
consumed-append (delete n ∷ xs) ys = omega (arith, consumed-append xs ys)
consumed-append (unknown n ∷ xs) ys = consumed-append xs ys

pub produced-append : (xs ys : List Op) → produced (xs ++ ys) ≡ produced xs + produced ys
produced-append [] ys = omega arith
produced-append (retain n ∷ xs) ys = omega (arith, produced-append xs ys)
produced-append (insert s ∷ xs) ys = omega (arith, produced-append xs ys)
produced-append (delete n ∷ xs) ys = produced-append xs ys
produced-append (unknown n ∷ xs) ys = produced-append xs ys

-- Two lists with one meaning after a common first part have one meaning.
pub patch-append :
    (xs ys zs : List Op)
    → ((doc : Text) → patch ys doc ≡ patch zs doc)
    → (doc : Text) → patch (xs ++ ys) doc ≡ patch (xs ++ zs) doc
unfolding patch
patch-append [] ys zs h doc = h doc
patch-append (retain n ∷ xs) ys zs h doc =
    ap (take n doc ++◌) (patch-append xs ys zs h (drop n doc))
patch-append (insert s ∷ xs) ys zs h doc = ap (s ++◌) (patch-append xs ys zs h doc)
patch-append (delete n ∷ xs) ys zs h doc = patch-append xs ys zs h (drop n doc)
patch-append (unknown n ∷ xs) ys zs h doc = patch-append xs ys zs h doc

-- `op` is `p` followed by `q`.
pub data Splits : Op → Op → Op → Type 0 where
  split_retain : {k n m : ℕ} → k ≡ n + m → Splits (retain k) (retain n) (retain m)
  split_insert : {u s t : Text} → u ≡ s ++ t → Splits (insert u) (insert s) (insert t)
  split_delete : {k n m : ℕ} → k ≡ n + m → Splits (delete k) (delete n) (delete m)

pub patch-split :
    {op p q : Op} (ops : List Op) (doc : Text)
    → Splits op p q
    → patch (op ∷ ops) doc ≡ patch (p ∷ q ∷ ops) doc
unfolding patch
patch-split ops doc (split_retain {n = n} {m = m} e) =
    rw e (simp (take-add, append_assoc, drop-drop))
patch-split ops doc (split_insert {s = s} {t = t} e) = rw e (append_assoc s t (patch ops doc))
patch-split ops doc (split_delete {n = n} {m = m} e) = rw e (simp drop-drop)

pub consumed-split :
    {op p q : Op} (ops : List Op) → Splits op p q → consumed (op ∷ ops) ≡ consumed (p ∷ q ∷ ops)
consumed-split ops (split_retain e) = omega arith
consumed-split ops (split_insert e) = refl
consumed-split ops (split_delete e) = omega arith

pub produced-split :
    {op p q : Op} (ops : List Op) → Splits op p q → produced (op ∷ ops) ≡ produced (p ∷ q ∷ ops)
produced-split ops (split_retain e) = omega arith
produced-split ops (split_insert {s = s} {t = t} e) = rw e (omega (arith, length-append s t))
produced-split ops (split_delete e) = refl
