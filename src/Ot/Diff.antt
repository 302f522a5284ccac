-- ===== src/Ot/Diff.antt =====
-- internal/ot/diff.go: DiffToChangeset. The indices `i` and `j` of the code stand for the prefixes old[:i] and
-- nw[:j], which are lists with the last rune first; an entry of the table `dp` is the recursion that fills it.
pub mod Laws
use claude_ds_project.Base.{ℕ, suc, List, [], ◌∷◌, ◌++◌, ltb, leb, ◌==◌, if◌then◌else◌, length, map}
use mathlib.Core.List.{reverse}
use claude_ds_project.Ot.Changeset.{Text, Op, retain, insert, delete, Changeset}
use claude_ds_project.Ot.Runes.{string_of, runes}
use claude_ds_project.Ot.Cursor.{add_op}

-- seg, with its kind and its rune.
pub data Seg : Type 0 where
  kept added dropped : ℕ → Seg

-- dp[i][j]
unfoldable pub dp : List ℕ → List ℕ → ℕ
dp [] ns = 0
dp (a ∷ os) [] = 0
dp (a ∷ os) (b ∷ ns) =
    let diagonal = dp os ns in
    let up = dp os (b ∷ ns) in
    let left = dp (a ∷ os) ns in if a == b then suc diagonal else if ltb left up then up else left

-- The loop that goes back through the table, with the segments in the order in which it appends them.
unfoldable pub backtrack : List ℕ → List ℕ → List Seg
unfolding dp
backtrack [] [] = []
backtrack [] (b ∷ ns) = added b ∷ backtrack [] ns
backtrack (a ∷ os) [] = dropped a ∷ backtrack os []
backtrack (a ∷ os) (b ∷ ns) =
    let keep = kept a ∷ backtrack os ns in
    let add = added b ∷ backtrack (a ∷ os) ns in
    let drop = dropped a ∷ backtrack os (b ∷ ns) in
    if a == b then keep else if leb (dp os (b ∷ ns)) (dp (a ∷ os) ns) then add else drop

-- The operation of a segment.
unfoldable pub op_of : Seg → Op
op_of (kept r) = retain (length (string_of r))
op_of (added r) = insert (string_of r)
op_of (dropped r) = delete (length (string_of r))

-- The loop that merges the segments, with `addOp`; the operations are a stack.
unfoldable pub merge : List Seg → List Op → List Op
unfolding add_op op_of
merge [] acc = acc
merge (s ∷ segs) acc = merge segs (add_op (op_of s) acc)

-- DiffToChangeset
unfoldable pub diff_to_changeset : Text → Text → Changeset
unfolding backtrack merge
diff_to_changeset old_text new_text =
    let segs = reverse (backtrack (reverse (runes old_text)) (reverse (runes new_text))) in
    record { old_len = length old_text; new_len = length new_text; ops = reverse (merge segs []) }
