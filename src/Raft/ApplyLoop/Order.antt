-- ===== src/Raft/ApplyLoop/Order.antt =====
-- applyCommitted (internal/raft/raft.go) against the commands of the log in their order.
use claude_ds_project.Base.{
  ℕ, zero, suc, ◌+◌, ◌<◌, ◌≡◌, refl, ap, ◌∙◌, List, [], ◌∷◌, some, length, ltb, le→leb, lt→leb,
  if◌then◌else◌, arith,
}
use claude_ds_project.Raft.Types.{uint64, LogEntry}
use claude_ds_project.Raft.LogStore.{LogStore}
use claude_ds_project.Raft.ApplyLoop.{apply_one, apply_from, apply_committed}

-- The commands of a list of entries: the payloads of those that are no no-ops.
unfoldable pub with_command : List ℕ → List (List ℕ) → List (List ℕ)
with_command [] cs = cs
with_command (b ∷ bs) cs = (b ∷ bs) ∷ cs

unfoldable pub commands : List LogEntry → List (List ℕ)
unfolding with_command
commands [] = []
commands (e ∷ es) = with_command e.payload (commands es)

unfoldable pub apply_all : {M : Type 0} → (M → List ℕ → M) → M → List (List ℕ) → M
apply_all apply m [] = m
apply_all apply m (c ∷ cs) = apply_all apply (apply m c) cs

module _ (L : LogStore) {M : Type 0} (apply : M → List ℕ → M) where
  open L use {Store, get_log}

  -- The log holds the entries behind an index.
  abbrev pub HoldsBehind : Store → ℕ → List LogEntry → Type 0
  HoldsBehind log idx [] = Unit
  HoldsBehind log idx (e ∷ es) = (get_log log (idx + 1) ≡ some e) × HoldsBehind log (idx + 1) es

  run_command :
      (m : M) (payload : List ℕ) (cs : List (List ℕ))
      → apply_all apply (if ltb 0 (length payload) then apply m payload else m) cs
        ≡ apply_all apply m (with_command payload cs)
  unfolding apply_all with_command
  run_command m [] cs = refl
  run_command m (b ∷ bs) cs = ground arith

  apply_from-commands :
      (log : Store) (fuel commit idx : ℕ) (m : M) (es : List LogEntry)
      → idx + length es ≡ commit
      → commit + 1 < 18446744073709551616
      → length es < fuel
      → HoldsBehind log idx es
      → apply_from L apply log fuel commit (uint64 (idx + 1)) m idx
        ≡ some (apply_all apply m (commands es), commit)
  unfolding apply_from apply_one commands apply_all
  apply_from-commands log zero commit idx m es e room few h = absurd (omega arith)
  apply_from-commands log (suc fuel) commit idx m [] e room few h =
      let w : uint64 (idx + 1) ≡ idx + 1 = omega arith in
      let here : idx ≡ commit = omega arith in
      rw (w, lt→leb (idx + 1) commit (omega arith)) (ap (λ i. some (m, i)) here)
  apply_from-commands log (suc fuel) commit idx m (x ∷ es) e room few (found, h) =
      let w : uint64 (idx + 1) ≡ idx + 1 = omega arith in
      rw (w, le→leb (idx + 1) commit (omega arith), found)
        (apply_from-commands log fuel commit (idx + 1)
            (if ltb 0 (length x.payload) then apply m x.payload else m) es (omega arith) room
            (omega arith) h
          ∙ ap (λ m'. some (m', commit)) (run_command m x.payload (commands es)))

  -- With fuel for one round more than there are entries, applyCommitted ends: when the log holds the entries from behind
  -- lastApplied up to the commit index, and that is below the last uint64, it has handed the state machine exactly the
  -- commands of those entries, in the order of the log and without the no-ops, and lastApplied is the commit index.
  pub apply_committed-commands :
      (log : Store) (fuel : ℕ) (m : M) (applied commit : ℕ) (es : List LogEntry)
      → applied + length es ≡ commit
      → commit + 1 < 18446744073709551616
      → length es < fuel
      → HoldsBehind log applied es
      → apply_committed L apply fuel log m applied commit
        ≡ some (apply_all apply m (commands es), commit)
  unfolding apply_committed
  apply_committed-commands log fuel m applied commit es e room few h =
      apply_from-commands log fuel commit applied m es e room few h
