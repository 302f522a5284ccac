-- ===== src/Ot/Changeset/Makers.antt =====
-- What MakeInsert and MakeDelete (internal/ot/changeset.go) make of a document.
use claude_ds_project.Base.{
  ℕ, zero, suc, ◌+◌, ◌-◌, ◌≤◌, ◌<◌, ◌≡◌, refl, ap, ◌∙◌, List, [], ◌∷◌, ◌++◌, length, take, drop,
  drop-drop, length-drop, lt→ltb, append-nil, take-all, arith,
}
use claude_ds_project.GoInt
use claude_ds_project.GoInt.{half, add-small, sub-small, lt-small}
use claude_ds_project.Outcome.{ok}
use claude_ds_project.Ot.Changeset.{
  Text, Op, retain, insert, delete, make_insert, make_delete, retain_if_positive,
}
use claude_ds_project.Ot.Meaning.{patch, consumed, produced, AllProper, IsWellFormed}
use claude_ds_project.Ot.Apply.{apply_changeset}
use claude_ds_project.Ot.Apply.Laws.{apply_changeset-patch}

retain_none : (rest : List Op) → retain_if_positive 0 rest ≡ rest
retain_none rest = rw (lt-small 0 0 (omega arith) (omega arith)) refl

retain_some :
    (n : ℕ) (rest : List Op)
    → suc n < half
    → retain_if_positive (suc n) rest ≡ retain (suc n) ∷ rest
retain_some n rest h = rw (lt-small 0 (suc n) (omega arith) h, lt→ltb 0 (suc n) (omega arith)) refl

-- A retain in front, if it has a length, is a retain.
retain_front :
    (n : ℕ) (rest : List Op)
    → n < half
    → AllProper rest
    → AllProper (retain_if_positive n rest)
      × (consumed (retain_if_positive n rest) ≡ n + consumed rest)
      × (produced (retain_if_positive n rest) ≡ n + produced rest)
      × ((doc : Text)
          → patch (retain_if_positive n rest) doc ≡ take n doc ++ patch rest (drop n doc))
unfolding patch
retain_front zero rest h p = rw (retain_none rest) (p, omega arith, omega arith, λ doc. refl)
retain_front (suc n) rest h p =
    rw (retain_some n rest h) ((omega arith, p), refl, refl, λ doc. refl)

-- A retain over all that is left changes nothing.
retain_rest :
    (n : ℕ) (doc : Text) → n < half → length doc ≤ n → patch (retain_if_positive n []) doc ≡ doc
unfolding patch
retain_rest n doc h k = (retain_front n [] h tt).3 doc ∙ append-nil (take n doc) ∙ take-all doc n k

-- Inserting into a document: MakeInsert gives a well-formed changeset, and applying it puts the text, which is not empty, at
-- the position, when the position is in the document and the new length fits an `int`.
pub make_insert-inserts :
    (doc : Text) (pos : ℕ) (text : Text)
    → pos ≤ length doc
    → 0 < length text
    → length doc + length text < half
    → IsWellFormed (make_insert (length doc) pos text)
      × (apply_changeset doc (make_insert (length doc) pos text)
          ≡ ok (take pos doc ++ (text ++ drop pos doc)))
unfolding make_insert patch
make_insert-inserts doc pos text h k room =
    let n = length doc in
    let tail = GoInt.sub n pos in
    let same : tail ≡ n - pos = sub-small n pos h (omega arith) in
    let back = retain_front tail [] (omega (arith, same)) tt in
    let front =
      retain_front pos (insert text ∷ retain_if_positive tail []) (omega arith) (k, back.0) in
    let w : IsWellFormed (make_insert n pos text) = record {
      proper = front.0;
      consumes = omega (arith, front.1, back.1, same);
      produces = omega (arith, front.2, back.2, same, add-small n (length text) (omega arith));
      old_fits = omega arith;
      new_fits = omega (arith, add-small n (length text) (omega arith));
    } in
    let behind : patch (retain_if_positive tail []) (drop pos doc) ≡ drop pos doc =
      retain_rest tail (drop pos doc) (omega (arith, same))
        (omega (arith, same, length-drop pos doc)) in
    let text' : patch (make_insert n pos text).ops doc ≡ take pos doc ++ (text ++ drop pos doc) =
      front.3 doc ∙ ap (λ r. take pos doc ++ (text ++ r)) behind in
    (w, (apply_changeset-patch doc (make_insert n pos text) w refl).0 ∙ ap ok text')

-- Deleting from a document: MakeDelete gives a well-formed changeset, and applying it takes the characters out, at least one,
-- when they are in the document and its length fits an `int`.
pub make_delete-deletes :
    (doc : Text) (pos count : ℕ)
    → pos + count ≤ length doc
    → 0 < count
    → length doc < half
    → IsWellFormed (make_delete (length doc) pos count)
      × (apply_changeset doc (make_delete (length doc) pos count)
          ≡ ok (take pos doc ++ drop (pos + count) doc))
unfolding make_delete patch
make_delete-deletes doc pos count h k room =
    let n = length doc in
    let tail = GoInt.sub (GoInt.sub n pos) count in
    let first : GoInt.sub n pos ≡ n - pos = sub-small n pos (omega arith) room in
    let same : tail ≡ n - pos - count =
      rw first (sub-small (n - pos) count (omega arith) (omega arith)) in
    let back = retain_front tail [] (omega (arith, same)) tt in
    let front =
      retain_front pos (delete count ∷ retain_if_positive tail []) (omega arith) (k, back.0) in
    let short : GoInt.sub n count ≡ n - count = sub-small n count (omega arith) room in
    let w : IsWellFormed (make_delete n pos count) = record {
      proper = front.0;
      consumes = omega (arith, front.1, back.1, same);
      produces = omega (arith, front.2, back.2, same, short);
      old_fits = room;
      new_fits = omega (arith, short);
    } in
    let behind : patch (retain_if_positive tail []) (drop count (drop pos doc))
        ≡ drop (pos + count) doc =
      retain_rest tail (drop count (drop pos doc)) (omega (arith, same))
        (omega (arith, same, length-drop pos doc, length-drop count (drop pos doc)))
      ∙ drop-drop pos count doc in
    let text' : patch (make_delete n pos count).ops doc ≡ take pos doc ++ drop (pos + count) doc =
      front.3 doc ∙ ap (λ r. take pos doc ++ r) behind in
    (w, (apply_changeset-patch doc (make_delete n pos count) w refl).0 ∙ ap ok text')
