-- ===== src/Ot/Compose.antt =====
-- internal/ot/compose.go: `Compose`.
pub mod Relation
pub mod Loop
pub mod Laws
use claude_ds_project.Base.{
  ℕ, zero, suc, ◌+◌, List, [], ◌∷◌, length, Option, none, some, if◌then◌else◌,
}
use mathlib.Core.List.{reverse}
use claude_ds_project.GoInt
use claude_ds_project.Outcome.{Outcome, ok, diverges, ◌>>=◌}
use claude_ds_project.Ot.Changeset.{Op, retain, insert, delete, Changeset}
use claude_ds_project.Ot.Apply.{slice}
use claude_ds_project.Ot.Cursor.{Cursor, cursor, peek, consume, size, weight, add_op}

-- n := aLen; if bLen < n { n = bLen }
unfoldable pub overlap : ℕ → ℕ → ℕ
overlap a_len b_len = if GoInt.lt b_len a_len then b_len else a_len

-- The `switch` on the two types: what is emitted for `n` characters.
unfoldable pub combine : Op → Op → ℕ → List Op → Outcome (List Op)
unfolding slice
combine (retain _) (retain _) n acc = ok (add_op (retain n) acc)
combine (retain _) (delete _) n acc = ok (add_op (delete n) acc)
combine (insert s) (retain _) n acc = slice s 0 n >>= λ piece. ok (add_op (insert piece) acc)
combine (insert s) (delete _) n acc = ok acc
combine _ _ n acc = ok acc

-- The body of the loop, on what `peek` returned; `next` is the next round.
unfoldable pub compose_step :
    (Cursor → Cursor → List Op → Outcome (List Op))
    → Option Op
    → Option Op
    → Cursor
    → Cursor
    → List Op
    → Outcome (List Op)
compose_step next a_op (some (insert s)) a b acc =
    next a (consume b (length s)) (add_op (insert s) acc)
compose_step next (some (delete n)) b_op a b acc = next (consume a n) b (add_op (delete n) acc)
compose_step next none b_op a b acc = ok acc
compose_step next (some x) none a b acc = ok acc
compose_step next (some x) (some y) a b acc =
    let n = overlap (size x) (size y) in
    combine x y n acc >>= λ acc'. next (consume a n) (consume b n) acc'

-- The `for` loop, with fuel.
unfoldable pub compose_loop : ℕ → Cursor → Cursor → List Op → Outcome (List Op)
compose_loop zero a b acc = diverges
compose_loop (suc fuel) a b acc = compose_step (compose_loop fuel) (peek a) (peek b) a b acc

-- Compose
unfoldable pub compose : Changeset → Changeset → Outcome Changeset
compose a b =
    compose_loop (suc (weight a.ops + weight b.ops)) (cursor a.ops 0) (cursor b.ops 0) [] >>= λ acc.
    ok (record { old_len = a.old_len; new_len = b.new_len; ops = reverse acc })
