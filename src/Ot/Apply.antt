-- ===== src/Ot/Apply.antt =====
-- internal/ot/apply.go: `ApplyChangeset`.
pub mod Laws
use claude_ds_project.Base.{
  ℕ, ◌&&◌, List, [], ◌∷◌, ◌++◌, length, take, drop, ◌-◌, ◌==◌, if◌then◌else◌, leb,
}
use claude_ds_project.GoInt
use claude_ds_project.Outcome.{
  Outcome, ok, err, panic, ◌>>=◌, old_len_mismatch, retain_exceeds, delete_exceeds, not_consumed,
  unknown_op,
}
use claude_ds_project.Ot.Changeset.{Text, Op, retain, insert, delete, unknown, Changeset}

-- The slice `text[lo:hi]` panics outside `0 <= lo <= hi <= len(text)`. A negative bound is a pattern
-- above every length.
unfoldable pub slice : Text → ℕ → ℕ → Outcome Text
slice text lo hi =
    if leb lo hi && leb hi (length text) then ok (take (hi - lo) (drop lo text)) else panic

-- The loop over the operations, with `srcPos` and the text written so far.
unfoldable pub apply_ops : Text → List Op → ℕ → Text → Outcome Text
unfolding slice
apply_ops text [] pos out = if pos == length text then ok out else err not_consumed
apply_ops text (retain n ∷ ops) pos out =
    let rest = (do
      piece ← slice text pos (GoInt.add pos n)
      apply_ops text ops (GoInt.add pos n) (out ++ piece)) in
    if GoInt.lt (length text) (GoInt.add pos n) then err retain_exceeds else rest
apply_ops text (insert s ∷ ops) pos out = apply_ops text ops pos (out ++ s)
apply_ops text (delete n ∷ ops) pos out =
    let rest = apply_ops text ops (GoInt.add pos n) out in
    if GoInt.lt (length text) (GoInt.add pos n) then err delete_exceeds else rest
apply_ops text (unknown n ∷ ops) pos out = err unknown_op

-- ApplyChangeset
unfoldable pub apply_changeset : Text → Changeset → Outcome Text
unfolding apply_ops
apply_changeset text c =
    if c.old_len == length text then apply_ops text c.ops 0 [] else err old_len_mismatch
