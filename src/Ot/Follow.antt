-- ===== src/Ot/Follow.antt =====
-- internal/ot/follow.go: `Follow`.
pub mod Relation
pub mod Loop
pub mod OneSide
pub mod Joint
pub mod Laws
use claude_ds_project.Base.{ℕ, zero, suc, ◌+◌, List, [], length, Option, none, some, if◌then◌else◌}
use mathlib.Core.List.{reverse}
use claude_ds_project.GoInt
use claude_ds_project.Outcome.{Outcome, ok, diverges, ◌>>=◌}
use claude_ds_project.Ot.Changeset.{Op, retain, insert, delete, Changeset}
use claude_ds_project.Ot.TextOrder.{le_text}
use claude_ds_project.Ot.Cursor.{Cursor, cursor, peek, consume, size, weight, add_op}
use claude_ds_project.Ot.Compose.{overlap}

-- The result under construction: its operations, the last one first, and its `NewLen`.
pub record Draft : Type 0 where
  pub ops : List Op
  pub new_len : ℕ

abbrev grown : Op → ℕ → ℕ
grown (retain n) new_len = GoInt.add new_len n
grown (insert s) new_len = GoInt.add new_len (length s)
grown _ new_len = new_len

-- addOp of follow.go, which also counts `NewLen`.
unfoldable pub add_counted : Op → Draft → Draft
add_counted op d = record { ops = add_op op d.ops; new_len = grown op d.new_len }

-- The `switch` on the two types, for `n` characters of the source.
unfoldable pub rebase : Op → Op → ℕ → Draft → Draft
rebase (retain _) (retain _) n d = add_counted (retain n) d
rebase (retain _) (delete _) n d = add_counted (delete n) d
rebase _ _ n d = d

-- The body of the loop, on what `peek` returned; `next` is the next round.
unfoldable pub follow_step :
    (Cursor → Cursor → Draft → Outcome Draft)
    → Option Op
    → Option Op
    → Cursor
    → Cursor
    → Draft
    → Outcome Draft
follow_step next (some (insert s)) (some (insert t)) a b d =
    if le_text s t
    then next (consume a (length s)) b (add_counted (retain (length s)) d)
    else next a (consume b (length t)) (add_counted (insert t) d)
follow_step next (some (insert s)) b_op a b d =
    next (consume a (length s)) b (add_counted (retain (length s)) d)
follow_step next a_op (some (insert t)) a b d =
    next a (consume b (length t)) (add_counted (insert t) d)
follow_step next none b_op a b d = ok d
follow_step next (some x) none a b d = ok d
follow_step next (some x) (some y) a b d =
    let n = overlap (size x) (size y) in next (consume a n) (consume b n) (rebase x y n d)

-- The `for` loop, with fuel.
unfoldable pub follow_loop : ℕ → Cursor → Cursor → Draft → Outcome Draft
follow_loop zero a b d = diverges
follow_loop (suc fuel) a b d = follow_step (follow_loop fuel) (peek a) (peek b) a b d

-- Follow
unfoldable pub follow : Changeset → Changeset → Outcome Changeset
follow a b =
    follow_loop (suc (weight a.ops + weight b.ops)) (cursor a.ops 0) (cursor b.ops 0)
      (record { ops = []; new_len = 0 })
    >>= λ d. ok (record { old_len = a.new_len; new_len = d.new_len; ops = reverse d.ops })
