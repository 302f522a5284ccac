-- ===== src/Examples/Diffs.antt =====
-- Differences of texts (internal/ot/diff.go).
use claude_ds_project.Base.{◌≡◌, refl, [], ◌∷◌, arith}
use claude_ds_project.GoInt
use claude_ds_project.Outcome.{ok, err, delete_exceeds}
use claude_ds_project.Ot.Changeset.{Text, retain, insert, delete}
use claude_ds_project.Ot.Apply.{apply_changeset}
use claude_ds_project.Ot.Meaning.{IsWellFormed}
use claude_ds_project.Ot.Cursor.{add_op}
use claude_ds_project.Ot.Runes.{string_of, runes, runes_from, next_rune}
use claude_ds_project.Ot.Diff.{dp, backtrack, op_of, merge, diff_to_changeset}
use claude_ds_project.Ot.Diff.Laws.{spell, IsUtf8, diff_to_changeset-applies}

-- "aé", and "béc".
abbrev old_text : Text
old_text = 97 ∷ 195 ∷ 169 ∷ []

abbrev new_text : Text
new_text = 98 ∷ 195 ∷ 169 ∷ 99 ∷ []

old_text-IsUtf8 : IsUtf8 old_text
unfolding spell runes runes_from next_rune string_of
old_text-IsUtf8 = refl

new_text-IsUtf8 : IsUtf8 new_text
unfolding spell runes runes_from next_rune string_of
new_text-IsUtf8 = refl

diff_to_changeset-applies_example :
    IsWellFormed (diff_to_changeset old_text new_text)
    × (apply_changeset old_text (diff_to_changeset old_text new_text) ≡ ok new_text)
diff_to_changeset-applies_example =
    diff_to_changeset-applies old_text new_text old_text-IsUtf8 new_text-IsUtf8 (omega arith)
      (omega arith)

differs : diff_to_changeset old_text new_text ≡ record {
  old_len = 3;
  new_len = 4;
  ops = delete 1 ∷ insert (98 ∷ []) ∷ retain 2 ∷ insert (99 ∷ []) ∷ [];
}
unfolding diff_to_changeset backtrack dp merge add_op op_of runes runes_from next_rune string_of
    GoInt.add
differs = refl

-- A text of one byte that is not UTF-8 counts as three bytes.
abbrev broken : Text
broken = 255 ∷ []

broken_differs : apply_changeset broken (diff_to_changeset broken []) ≡ err delete_exceeds
unfolding apply_changeset diff_to_changeset backtrack dp merge add_op op_of runes runes_from
    next_rune string_of GoInt.add GoInt.lt
broken_differs = refl
