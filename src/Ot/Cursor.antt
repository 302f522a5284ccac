-- ===== src/Ot/Cursor.antt =====
-- The cursor that compose.go and follow.go both declare: `opSlice` with `peek` and `consume`, and
-- `addOp`. The position is the list of the operations from it on, and the result's operations are a
-- stack, the last one first.
pub mod Laws
pub mod Merge
pub mod Cut
use claude_ds_project.Base.{
  ℕ, ◌+◌, List, [], ◌∷◌, ◌++◌, length, drop, Option, none, some, if◌then◌else◌,
}
use claude_ds_project.GoInt
use claude_ds_project.Ot.Changeset.{Op, retain, insert, delete, unknown}

-- opSlice
pub record Cursor : Type 0 where
  pub rest : List Op
  pub off : ℕ

abbrev pub cursor : List Op → ℕ → Cursor
cursor rest off = record { rest = rest; off = off }

-- What is left of an operation when `off` of it is consumed.
unfoldable pub trim : ℕ → Op → Op
trim off (retain n) = retain (GoInt.sub n off)
trim off (insert s) = insert (drop off s)
trim off (delete n) = delete (GoInt.sub n off)
trim off (unknown n) = unknown (GoInt.sub n off)

abbrev peek_list : List Op → ℕ → Option Op
peek_list [] off = none
peek_list (op ∷ ops) off = some (trim off op)

-- peek
unfoldable pub peek : Cursor → Option Op
peek s = peek_list s.rest s.off

-- `len(op.Chars)` or `op.Len`.
abbrev pub size : Op → ℕ
size (retain n) = n
size (insert s) = length s
size (delete n) = n
size (unknown n) = n

consume_list : List Op → ℕ → ℕ → Cursor
consume_list [] off n = cursor [] off
consume_list (op ∷ ops) off n =
    let rem = GoInt.sub (size op) off in
    let next = consume_list ops 0 (GoInt.sub n rem) in
    if GoInt.lt 0 n
    then (if GoInt.le rem n then next else cursor (op ∷ ops) (GoInt.add off n))
    else cursor (op ∷ ops) off

-- consume
unfoldable pub consume : Cursor → ℕ → Cursor
unfolding consume_list
consume s n = consume_list s.rest s.off n

-- addOp: an operation of the type of the last one is merged into it.
unfoldable pub add_op : Op → List Op → List Op
add_op (retain n) (retain m ∷ ops) = retain (GoInt.add m n) ∷ ops
add_op (delete n) (delete m ∷ ops) = delete (GoInt.add m n) ∷ ops
add_op (insert s) (insert t ∷ ops) = insert (t ++ s) ∷ ops
add_op op ops = op ∷ ops

-- The sizes of the operations together: a round of a loop consumes at least one character of them.
abbrev pub weight : List Op → ℕ
weight [] = 0
weight (op ∷ ops) = size op + weight ops
