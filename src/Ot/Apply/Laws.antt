-- ===== src/Ot/Apply/Laws.antt =====
-- `ApplyChangeset` computes the meaning of a well-formed changeset.
use claude_ds_project.Base.{
  ℕ, ◌+◌, ◌≤◌, ◌<◌, ◌≡◌, ◌≢◌, ap, ◌∙◌, List, [], ◌∷◌, ◌++◌, length, take, drop, drop-drop,
  append-nil, append_assoc, le→ltb, le→leb, eq→==, arith,
}
use claude_ds_project.GoInt.{half, add-small, lt-small}
use claude_ds_project.Outcome.{ok, err, old_len_mismatch}
use claude_ds_project.Ot.Changeset.{Text, Op, retain, insert, delete, unknown, Changeset}
use claude_ds_project.Ot.Meaning.{patch, consumed, AllProper, IsWellFormed, length-patch}
use claude_ds_project.Ot.Apply.{slice, apply_ops, apply_changeset}

slice_middle :
    (text : Text) (lo n : ℕ)
    → lo + n ≤ length text
    → slice text lo (lo + n) ≡ ok (take n (drop lo text))
unfolding slice
slice_middle text lo n h =
    rw (le→leb lo (lo + n) (omega arith), le→leb (lo + n) (length text) h)
      (ap (λ k. ok (take k (drop lo text))) (omega arith))

-- The loop writes the meaning of the operations behind what it has written.
apply_ops-patch :
    (text : Text) (ops : List Op) (pos : ℕ) (out : Text)
    → length text < half
    → AllProper ops
    → pos + consumed ops ≡ length text
    → apply_ops text ops pos out ≡ ok (out ++ patch ops (drop pos text))
unfolding apply_ops patch
apply_ops-patch text [] pos out f p h = rw (eq→== pos (length text) (omega arith), append-nil out)
apply_ops-patch text (retain n ∷ ops) pos out f p h =
    rw
      (
        add-small pos n (omega arith),
        lt-small (length text) (pos + n) f (omega arith),
        le→ltb (length text) (pos + n) (omega arith),
        slice_middle text pos n (omega arith),
      )
      (apply_ops-patch text ops (pos + n) (out ++ take n (drop pos text)) f p.1 (omega arith)
        ∙ simp (append_assoc, drop-drop))
apply_ops-patch text (insert s ∷ ops) pos out f p h =
    apply_ops-patch text ops pos (out ++ s) f p.1 h ∙ ap ok (append_assoc out s _)
apply_ops-patch text (delete n ∷ ops) pos out f p h =
    rw
      (
        add-small pos n (omega arith),
        lt-small (length text) (pos + n) f (omega arith),
        le→ltb (length text) (pos + n) (omega arith),
      )
      (apply_ops-patch text ops (pos + n) out f p.1 (omega arith) ∙ simp drop-drop)
apply_ops-patch text (unknown n ∷ ops) pos out f p h = absurd p.0

-- A well-formed changeset applied to a document of its old length gives the text that it means, of its
-- new length.
pub apply_changeset-patch :
    (text : Text) (c : Changeset)
    → IsWellFormed c
    → c.old_len ≡ length text
    → (apply_changeset text c ≡ ok (patch c.ops text)) × (length (patch c.ops text) ≡ c.new_len)
unfolding apply_changeset
apply_changeset-patch text c w h = (
  rw (eq→== c.old_len (length text) h) (
      apply_ops-patch text c.ops 0 [] (omega (arith, w.old_fits)) w.proper
        (omega (arith, w.consumes))),
  length-patch c.ops text (omega (arith, w.consumes)) ∙ w.produces,
)

-- A document of another length is refused.
pub apply_changeset-mismatch :
    (text : Text) (c : Changeset)
    → c.old_len ≢ length text
    → apply_changeset text c ≡ err old_len_mismatch
unfolding apply_changeset
apply_changeset-mismatch text c h = ground arith
