-- ===== src/Examples/Editing.antt =====
-- Changesets on the document "abc" (internal/ot).
use claude_ds_project.Base.{◌-◌, ◌≤◌, ◌≡◌, ◌↔◌, refl, [], ◌∷◌, length, arith}
use claude_ds_project.GoInt
use claude_ds_project.GoInt.{half, neg}
use claude_ds_project.Outcome.{Outcome, ok, err, panic, ◌>>=◌, retain_not_positive}
use claude_ds_project.Ot.Changeset.{
  Text, retain, insert, delete, Changeset, validate, make_insert, make_delete, validate_ops,
}
use claude_ds_project.Ot.Changeset.Laws.{validate-iff-IsWellFormed}
use claude_ds_project.Ot.Changeset.Makers.{make_insert-inserts, make_delete-deletes}
use claude_ds_project.Ot.Apply.{apply_changeset, slice}
use claude_ds_project.Ot.Apply.Laws.{apply_changeset-patch}
use claude_ds_project.Ot.Meaning.{patch, IsWellFormed}
use claude_ds_project.Ot.TextOrder.{le_text}
use claude_ds_project.Ot.Cursor.{peek, consume, add_op, trim}
use claude_ds_project.Ot.Compose.{compose, overlap}
use claude_ds_project.Ot.Compose.Laws.{compose-IsComposition, IsComposition}
use claude_ds_project.Ot.Follow.{follow, follow_loop, follow_step, add_counted, rebase}
use claude_ds_project.Ot.Follow.Laws.{
  AreSiblings, follow-IsWellFormed, follow-IsConvergence, IsConvergence,
}

abbrev pub abc : Text
abc = 97 ∷ 98 ∷ 99 ∷ []

-- "xabc"
abbrev pub prefixed : Changeset
prefixed = record { old_len = 3; new_len = 4; ops = insert (120 ∷ []) ∷ retain 3 ∷ [] }

-- "ay"
abbrev pub shortened : Changeset
shortened = record { old_len = 3; new_len = 2; ops = retain 1 ∷ delete 2 ∷ insert (121 ∷ []) ∷ [] }

-- "xbcz" of "xabc"
abbrev pub second_edit : Changeset
second_edit = record {
  old_len = 4;
  new_len = 4;
  ops = retain 1 ∷ delete 1 ∷ retain 2 ∷ insert (122 ∷ []) ∷ [];
}

pub prefixed-IsWellFormed : IsWellFormed prefixed
prefixed-IsWellFormed = record {
  proper = omega arith;
  consumes = refl;
  produces = refl;
  old_fits = omega arith;
  new_fits = omega arith;
}

pub shortened-IsWellFormed : IsWellFormed shortened
shortened-IsWellFormed = record {
  proper = omega arith;
  consumes = refl;
  produces = refl;
  old_fits = omega arith;
  new_fits = omega arith;
}

second_edit-IsWellFormed : IsWellFormed second_edit
second_edit-IsWellFormed = record {
  proper = omega arith;
  consumes = refl;
  produces = refl;
  old_fits = omega arith;
  new_fits = omega arith;
}

siblings : AreSiblings prefixed shortened
siblings = record {
  first = prefixed-IsWellFormed;
  second = shortened-IsWellFormed;
  same = refl;
  fits = omega arith;
}

follow-IsConvergence_example : (b' a' : Changeset) × IsConvergence prefixed shortened b' a'
follow-IsConvergence_example = follow-IsConvergence prefixed shortened siblings (tt, tt) (tt, tt)

follow-IsWellFormed_example :
    (c : Changeset) × (follow prefixed shortened ≡ ok c)
    × IsWellFormed c
    × (c.old_len ≡ 4)
    × (c.new_len ≤ 6)
follow-IsWellFormed_example = follow-IsWellFormed prefixed shortened siblings

compose-IsComposition_example :
    (c : Changeset) × (compose prefixed second_edit ≡ ok c) × IsComposition prefixed second_edit c
compose-IsComposition_example =
    compose-IsComposition prefixed second_edit prefixed-IsWellFormed second_edit-IsWellFormed refl

apply_changeset-patch_example :
    (apply_changeset abc shortened ≡ ok (patch shortened.ops abc))
    × (length (patch shortened.ops abc) ≡ 2)
apply_changeset-patch_example = apply_changeset-patch abc shortened shortened-IsWellFormed refl

validate-iff-IsWellFormed_example : (validate shortened ≡ ok tt) ↔ IsWellFormed shortened
validate-iff-IsWellFormed_example = validate-iff-IsWellFormed shortened (omega arith) (omega arith)

-- Runs.
apply_run : apply_changeset abc shortened ≡ ok (97 ∷ 121 ∷ [])
unfolding apply_changeset GoInt.lt GoInt.add
apply_run = refl

follow_run :
    follow prefixed shortened
    ≡ ok (record { old_len = 4; new_len = 3; ops = retain 2 ∷ delete 2 ∷ insert (121 ∷ []) ∷ [] })
unfolding follow follow_loop follow_step add_counted rebase overlap add_op peek consume trim le_text
    GoInt.lt GoInt.le GoInt.sub GoInt.add
follow_run = refl

-- Two insertions in a row: "b" and "a" against "b". Both lists pass `Validate`.
abbrev two_inserts : Changeset
two_inserts = record { old_len = 0; new_len = 2; ops = insert (98 ∷ []) ∷ insert (97 ∷ []) ∷ [] }

abbrev one_insert : Changeset
one_insert = record { old_len = 0; new_len = 1; ops = insert (98 ∷ []) ∷ [] }

abbrev meet_first : Outcome Text
meet_first =
    apply_changeset [] two_inserts >>= λ t. follow two_inserts one_insert >>= apply_changeset t

abbrev meet_second : Outcome Text
meet_second =
    apply_changeset [] one_insert >>= λ t. follow one_insert two_inserts >>= apply_changeset t

two_inserts_diverge :
    (validate two_inserts ≡ ok tt)
    × (meet_first ≡ ok (98 ∷ 97 ∷ 98 ∷ []))
    × (meet_second ≡ ok (98 ∷ 98 ∷ 97 ∷ []))
unfolding validate validate_ops apply_changeset follow follow_loop follow_step add_counted rebase
    overlap add_op peek consume trim le_text GoInt.lt GoInt.le GoInt.sub GoInt.add
two_inserts_diverge = (refl, refl, refl)

-- Lengths that wrap: the sums are 3 again, `Validate` accepts, and the slice panics.
abbrev wrapping : Changeset
wrapping = record {
  old_len = 3;
  new_len = 3;
  ops = retain 3 ∷ retain (half - 1) ∷ retain (half - 1) ∷ retain 2 ∷ [];
}

wrapping_panics : (validate wrapping ≡ ok tt) × (apply_changeset abc wrapping ≡ panic)
unfolding validate validate_ops apply_changeset slice GoInt.lt GoInt.le GoInt.add
wrapping_panics = (refl, refl)

-- A length of -1 is refused.
negative_length :
    validate (record { old_len = 3; new_len = 3; ops = retain (neg 1) ∷ [] })
    ≡ err retain_not_positive
unfolding validate validate_ops GoInt.lt GoInt.le GoInt.add
negative_length = refl

make_insert-inserts_example :
    IsWellFormed (make_insert 3 1 (120 ∷ []))
    × (apply_changeset abc (make_insert 3 1 (120 ∷ [])) ≡ ok (97 ∷ 120 ∷ 98 ∷ 99 ∷ []))
make_insert-inserts_example =
    make_insert-inserts abc 1 (120 ∷ []) (omega arith) (omega arith) (omega arith)

make_delete-deletes_example :
    IsWellFormed (make_delete 3 1 2) × (apply_changeset abc (make_delete 3 1 2) ≡ ok (97 ∷ []))
make_delete-deletes_example = make_delete-deletes abc 1 2 (omega arith) (omega arith) (omega arith)
