-- ===== src/Raft/ApplyLoop.antt =====
-- applyCommitted of internal/raft/raft.go: committed entries are handed to the state machine, a
-- parameter, in the order of the log. The loop counts in uint64; it runs on fuel, and `none` is a loop that has
-- not ended.
pub mod Order
use claude_ds_project.Base.{
  ℕ, zero, suc, ◌+◌, Option, none, some, if◌then◌else◌, length, ltb, leb, List,
}
use claude_ds_project.Raft.Types.{uint64, LogEntry}
use claude_ds_project.Raft.LogStore.{LogStore}

module _ (L : LogStore) {M : Type 0} (apply : M → List ℕ → M) where
  open L use {Store, get_log}

  -- One round: an entry that cannot be read is skipped, and a no-op only moves lastApplied.
  unfoldable pub apply_one : M → ℕ → ℕ → Option LogEntry → M × ℕ
  apply_one m applied idx none = (m, applied)
  apply_one m applied idx (some e) =
      (if ltb 0 (length e.payload) then apply m e.payload else m, idx)

  -- The loop from `idx` up to the commit index, with the machine and lastApplied.
  unfoldable pub apply_from : Store → ℕ → ℕ → ℕ → M → ℕ → Option (M × ℕ)
  unfolding apply_one
  apply_from log zero commit idx m applied = none
  apply_from log (suc fuel) commit idx m applied =
      let next = apply_one m applied idx (get_log log idx) in
      let rest = apply_from log fuel commit (uint64 (idx + 1)) next.0 next.1 in
      if leb idx commit then rest else some (m, applied)

  -- applyCommitted: the machine and the new lastApplied.
  unfoldable pub apply_committed : ℕ → Store → M → ℕ → ℕ → Option (M × ℕ)
  unfolding apply_from
  apply_committed fuel log m last_applied commit_index =
      apply_from log fuel commit_index (uint64 (last_applied + 1)) m last_applied
