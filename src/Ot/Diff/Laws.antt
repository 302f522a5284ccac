-- ===== src/Ot/Diff/Laws.antt =====
-- DiffToChangeset on texts in UTF-8 (internal/ot/diff.go).
use claude_ds_project.Base.{
  ℕ, ◌+◌, ◌<◌, ◌≡◌, refl, sym, ap, ◌∙◌, inl, inr, List, [], ◌∷◌, ◌++◌, Bool-cases, leb, ◌==◌,
  length, length-append, take-append, drop-append, append_assoc, append-nil, arith,
}
use mathlib.Core.List.{reverse, reverse-cons, reverse-reverse}
use claude_ds_project.GoInt.{half}
use claude_ds_project.Outcome.{ok}
use claude_ds_project.Ot.Changeset.{Text, Op}
use claude_ds_project.Ot.Apply.{apply_changeset}
use claude_ds_project.Ot.Apply.Laws.{apply_changeset-patch}
use claude_ds_project.Ot.Meaning.{patch, consumed, produced, AllProper, IsWellFormed}
use claude_ds_project.Ot.Cursor.Merge.{
  add_all, patch-add_all, consumed-add_all, produced-add_all, add_all-AllProper, consumed-reverse,
  produced-reverse, reverse-AllProper,
}
use claude_ds_project.Ot.Runes.{string_of, runes}
use claude_ds_project.Ot.Diff.{
  Seg, kept, added, dropped, dp, backtrack, op_of, merge, diff_to_changeset,
}

-- The string of a list of runes.
unfoldable pub spell : List ℕ → Text
spell [] = []
spell (r ∷ rs) = string_of r ++ spell rs

-- A text that its runes spell.
abbrev pub IsUtf8 : Text → Type 0
IsUtf8 text = spell (runes text) ≡ text

string_of-positive : (r : ℕ) → 0 < length (string_of r)
unfolding string_of
string_of-positive r = ground arith

-- Segments that take one list of runes and make another.
data Aligned : List Seg → List ℕ → List ℕ → Type 0 where
  done : Aligned [] [] []
  keeps :
      {r : ℕ} {ss : List Seg} {os ns : List ℕ}
      → Aligned ss os ns
      → Aligned (kept r ∷ ss) (r ∷ os) (r ∷ ns)
  adds :
      {r : ℕ} {ss : List Seg} {os ns : List ℕ}
      → Aligned ss os ns
      → Aligned (added r ∷ ss) os (r ∷ ns)
  drops :
      {r : ℕ} {ss : List Seg} {os ns : List ℕ}
      → Aligned ss os ns
      → Aligned (dropped r ∷ ss) (r ∷ os) ns

reverse-cons-append {ℓ} :
    {A : Type ℓ} (x : A) (xs ys : List A) → reverse (x ∷ xs) ++ ys ≡ reverse xs ++ (x ∷ ys)
reverse-cons-append x xs ys = simp (reverse-cons, append_assoc)

backtrack-Aligned :
    (os ns : List ℕ) {ss : List Seg} {ps qs : List ℕ}
    → Aligned ss ps qs
    → Aligned (reverse (backtrack os ns) ++ ss) (reverse os ++ ps) (reverse ns ++ qs)
unfolding backtrack
backtrack-Aligned [] [] h = h
backtrack-Aligned [] (b ∷ ns) {ss} {ps} {qs} h =
    rw (reverse-cons-append b ns qs, reverse-cons-append (added b) (backtrack [] ns) ss)
      (backtrack-Aligned [] ns (adds h))
backtrack-Aligned (a ∷ os) [] {ss} {ps} {qs} h =
    rw (reverse-cons-append a os ps, reverse-cons-append (dropped a) (backtrack os []) ss)
      (backtrack-Aligned os [] (drops h))
backtrack-Aligned (a ∷ os) (b ∷ ns) {ss} {ps} {qs} h = elim (Bool-cases (a == b)) [
  | inl same ↦
      let e : b ≡ a = ground arith in
      rw
        (
          same,
          reverse-cons-append a os ps,
          reverse-cons-append b ns qs,
          reverse-cons-append (kept a) (backtrack os ns) ss,
          e,
        )
        (backtrack-Aligned os ns (keeps h))
  | inr other ↦ elim (Bool-cases (leb (dp os (b ∷ ns)) (dp (a ∷ os) ns))) [
    | inl add ↦
        rw
          (
            other,
            add,
            reverse-cons-append b ns qs,
            reverse-cons-append (added b) (backtrack (a ∷ os) ns) ss,
          )
          (backtrack-Aligned (a ∷ os) ns (adds h))
    | inr drop_ ↦
        rw
          (
            other,
            drop_,
            reverse-cons-append a os ps,
            reverse-cons-append (dropped a) (backtrack os (b ∷ ns)) ss,
          )
          (backtrack-Aligned os (b ∷ ns) (drops h))
  ]
]

abbrev ops_of : List Seg → List Op
ops_of [] = []
ops_of (s ∷ ss) = op_of s ∷ ops_of ss

merge-add_all : (ss : List Seg) (acc : List Op) → merge ss acc ≡ add_all (ops_of ss) acc
unfolding merge add_all
merge-add_all [] acc = refl
merge-add_all (s ∷ ss) acc = merge-add_all ss _

-- What the operations of aligned segments mean.
record Means (ops : List Op) (os ns : List ℕ) : Type 0 where
  makes : patch ops (spell os) ≡ spell ns
  takes : consumed ops ≡ length (spell os)
  gives : produced ops ≡ length (spell ns)
  proper : AllProper ops

Aligned-Means : {ss : List Seg} {os ns : List ℕ} → Aligned ss os ns → Means (ops_of ss) os ns
unfolding op_of spell patch
Aligned-Means done = record { makes = refl; takes = refl; gives = refl; proper = tt }
Aligned-Means (keeps {r = r} {os = os} {ns = ns} h) =
    let m = Aligned-Means h in
    record {
      makes =
          rw (take-append (string_of r) (spell os), drop-append (string_of r) (spell os), m.makes)
            refl;
      takes = omega (arith, length-append (string_of r) (spell os), m.takes);
      gives = omega (arith, length-append (string_of r) (spell ns), m.gives);
      proper = (string_of-positive r, m.proper);
    }
Aligned-Means (adds {r = r} {os = os} {ns = ns} h) =
    let m = Aligned-Means h in
    record {
      makes = rw m.makes refl;
      takes = m.takes;
      gives = omega (arith, length-append (string_of r) (spell ns), m.gives);
      proper = (string_of-positive r, m.proper);
    }
Aligned-Means (drops {r = r} {os = os} {ns = ns} h) =
    let m = Aligned-Means h in
    record {
      makes = rw (drop-append (string_of r) (spell os), m.makes) refl;
      takes = omega (arith, length-append (string_of r) (spell os), m.takes);
      gives = m.gives;
      proper = (string_of-positive r, m.proper);
    }

module _ (old_text new_text : Text) (old_utf8 : IsUtf8 old_text) (new_utf8 : IsUtf8 new_text)
    (old_fits : length old_text < half) (new_fits : length new_text < half) where
  abbrev segs : List Seg
  segs = reverse (backtrack (reverse (runes old_text)) (reverse (runes new_text)))

  segs-Aligned : Aligned segs (runes old_text) (runes new_text)
  segs-Aligned =
      let h = backtrack-Aligned (reverse (runes old_text)) (reverse (runes new_text)) done in
      rw
        (
          append-nil segs,
          append-nil (reverse (reverse (runes old_text))),
          append-nil (reverse (reverse (runes new_text))),
          reverse-reverse (runes old_text),
          reverse-reverse (runes new_text),
        )
        at h

  segs-Means : Means (ops_of segs) (runes old_text) (runes new_text)
  segs-Means = Aligned-Means segs-Aligned

  fits : consumed [] + consumed (ops_of segs) < half
  fits = omega (arith, segs-Means.takes, ap length old_utf8)

  abbrev merged : List Op
  merged = reverse (add_all (ops_of segs) [])

  diff-IsWellFormed :
      IsWellFormed (record { old_len = length old_text; new_len = length new_text; ops = merged })
  diff-IsWellFormed = record {
    proper =
        reverse-AllProper (add_all (ops_of segs) [])
          (add_all-AllProper (ops_of segs) [] fits segs-Means.proper tt);
    consumes = omega (
      arith,
      consumed-reverse (add_all (ops_of segs) []),
      consumed-add_all (ops_of segs) [] fits,
      segs-Means.takes,
      ap length old_utf8,
    );
    produces = omega (
      arith,
      produced-reverse (add_all (ops_of segs) []),
      produced-add_all (ops_of segs) [] fits,
      segs-Means.gives,
      ap length new_utf8,
    );
    old_fits = old_fits;
    new_fits = new_fits;
  }

  diff_to_changeset-merged :
      diff_to_changeset old_text new_text
      ≡ record { old_len = length old_text; new_len = length new_text; ops = merged }
  unfolding diff_to_changeset
  diff_to_changeset-merged = rw (merge-add_all segs []) refl

  -- DiffToChangeset of two texts in UTF-8 whose lengths fit an int is a well-formed changeset, and applying it to the old text
  -- returns the new one.
  pub diff_to_changeset-applies :
      IsWellFormed (diff_to_changeset old_text new_text)
      × (apply_changeset old_text (diff_to_changeset old_text new_text) ≡ ok new_text)
  diff_to_changeset-applies =
      let (applies, _) =
        apply_changeset-patch old_text
          (record { old_len = length old_text; new_len = length new_text; ops = merged })
          diff-IsWellFormed refl in
      let made : patch merged old_text ≡ new_text =
        patch-add_all (ops_of segs) [] fits old_text
        ∙ ap (patch (ops_of segs)) (sym old_utf8)
        ∙ segs-Means.makes
        ∙ new_utf8 in
      rw diff_to_changeset-merged (diff-IsWellFormed, applies ∙ ap ok made)
