-- ===== src/Ot/Changeset.antt =====
-- internal/ot/changeset.go: operations, changesets, their constructors and `Validate`. A text is the
-- list of its bytes, as `len` and slices of a Go string count them. An operation holds the field that
-- its type uses (the other is ignored by every function), and `unknown` is any other type string.
pub mod Laws
pub mod Makers
pub mod Returns
use claude_ds_project.Base.{ℕ, Bool, true, false, ◌&&◌, List, [], ◌∷◌, length, ◌==◌, if◌then◌else◌}
use claude_ds_project.GoInt
use claude_ds_project.Outcome.{
  Outcome, ok, err, ◌>>=◌, retain_not_positive, insert_empty, delete_not_positive, unknown_op,
  consumed_mismatch, produced_mismatch,
}

abbrev pub Text : Type 0
Text = List ℕ

pub data Op : Type 0 where
  retain : ℕ → Op
  insert : Text → Op
  delete : ℕ → Op
  unknown : ℕ → Op

pub record Changeset : Type 0 where
  pub old_len : ℕ
  pub new_len : ℕ
  pub ops : List Op

-- Identity
unfoldable pub identity : ℕ → Changeset
identity n =
    if n == 0
    then record { old_len = 0; new_len = 0; ops = [] }
    else record { old_len = n; new_len = n; ops = retain n ∷ [] }

abbrev is_one_retain : List Op → ℕ → Bool
is_one_retain (retain n ∷ []) m = n == m
is_one_retain _ m = false

abbrev is_empty_list : List Op → Bool
is_empty_list [] = true
is_empty_list _ = false

-- IsIdentity
unfoldable pub is_identity : Changeset → Bool
is_identity c =
    if c.old_len == c.new_len
    then (if c.old_len == 0 && is_empty_list c.ops then true else is_one_retain c.ops c.old_len)
    else false

-- TextToChangeset
unfoldable pub text_to_changeset : Text → Changeset
text_to_changeset text =
    if length text == 0
    then record { old_len = 0; new_len = 0; ops = [] }
    else record { old_len = 0; new_len = length text; ops = insert text ∷ [] }

-- The constructors put a Retain where its length is positive.
abbrev retain_if_positive : ℕ → List Op → List Op
retain_if_positive n rest = if GoInt.lt 0 n then retain n ∷ rest else rest

-- MakeInsert
unfoldable pub make_insert : ℕ → ℕ → Text → Changeset
make_insert old_len pos text = record {
  old_len = old_len;
  new_len = GoInt.add old_len (length text);
  ops = retain_if_positive pos (insert text ∷ retain_if_positive (GoInt.sub old_len pos) []);
}

-- MakeDelete
unfoldable pub make_delete : ℕ → ℕ → ℕ → Changeset
make_delete old_len pos count = record {
  old_len = old_len;
  new_len = GoInt.sub old_len count;
  ops =
      retain_if_positive pos
        (delete count ∷ retain_if_positive (GoInt.sub (GoInt.sub old_len pos) count) []);
}

-- The loop of `Validate`, on `sourceConsumed` and `newLen`.
unfoldable pub validate_ops : List Op → ℕ → ℕ → Outcome (ℕ × ℕ)
validate_ops [] consumed new_len = ok (consumed, new_len)
validate_ops (retain n ∷ ops) consumed new_len =
    let rest = validate_ops ops (GoInt.add consumed n) (GoInt.add new_len n) in
    if GoInt.le n 0 then err retain_not_positive else rest
validate_ops (insert s ∷ ops) consumed new_len =
    let rest = validate_ops ops consumed (GoInt.add new_len (length s)) in
    if length s == 0 then err insert_empty else rest
validate_ops (delete n ∷ ops) consumed new_len =
    let rest = validate_ops ops (GoInt.add consumed n) new_len in
    if GoInt.le n 0 then err delete_not_positive else rest
validate_ops (unknown n ∷ ops) consumed new_len = err unknown_op

-- The tests behind the loop.
pub check_lengths : Changeset → ℕ × ℕ → Outcome (Unit {0})
check_lengths c (consumed, new_len) =
    if consumed == c.old_len
    then (if new_len == c.new_len then ok tt else err produced_mismatch)
    else err consumed_mismatch

-- Validate
unfoldable pub validate : Changeset → Outcome (Unit {0})
unfolding check_lengths
validate c = validate_ops c.ops 0 0 >>= check_lengths c
