-- ===== src/Raft/AppendEntries/Success.antt =====
-- When handleAppendEntries answers that an append succeeded.
use claude_ds_project.Base.{
  ℕ, ◌≤◌, ◌≡◌, ◌⊎◌, ◌↔◌, inl, inr, refl, List, [], ◌∷◌, Option, none, some, Bool, true, Bool-cases,
  ◌==◌, ltb, le→ltb, ltb→le, eq→==, arith,
}
use claude_ds_project.Raft.Types.{LogEntry, AppendEntriesRequest}
use claude_ds_project.Raft.LogStore.{LogStore, LogLaws, IsInfallible}
use claude_ds_project.Raft.Node.{Node}
use claude_ds_project.Raft.AppendEntries.{
  agrees, stored, overwrite, append_entry, append_entries, append_checked, check_prev, check_entry,
  recognise_leader, handle_append_entries,
}
use claude_ds_project.Raft.AppendEntries.Matching.{
  found_term, lie, check_prev-agrees, append_checked-success,
}

module _ (L : LogStore) (laws : LogLaws L) (safe : IsInfallible L) where
  open L use {Store, last_index, get_log, store_logs, delete_range}

  stored-true :
      (log : Store) (o : Option Store) (s : Store) → o ≡ some s → (stored L log o).1 ≡ true
  stored-true log none s h = cc
  stored-true log (some x) s h = refl

  overwrite-true :
      (log : Store) (e : LogEntry) (es : List LogEntry) (o : Option Store) (s : Store)
      → o ≡ some s
      → (overwrite L log e es o).1 ≡ true
  unfolding overwrite
  overwrite-true log e es none s h = cc
  overwrite-true log e es (some cut) s h =
      let put = safe.stores cut (e ∷ es) in stored-true cut (store_logs cut (e ∷ es)) put.0 put.1

  append_entry-true :
      (log : Store) (e : LogEntry) (es : List LogEntry) (next : Store × Bool) (o : Option LogEntry)
      → next.1 ≡ true
      → (append_entry L log e es next o).1 ≡ true
  unfolding append_entry
  append_entry-true log e es next none h =
      let put = safe.stores log (e ∷ es) in stored-true log (store_logs log (e ∷ es)) put.0 put.1
  append_entry-true log e es next (some x) h = elim (Bool-cases (x.term == e.term)) [
    | inl same ↦ rw same h
    | inr other ↦
        let cut = safe.deletes log e.index (last_index log) in
        rw other (overwrite-true log e es (delete_range log e.index (last_index log)) cut.0 cut.1)
  ]

  append_entries-true : (log : Store) (es : List LogEntry) → (append_entries L log es).1 ≡ true
  unfolding append_entries
  append_entries-true log [] = refl
  append_entries-true log (e ∷ es) =
      append_entry-true log e es (append_entries L log es) (get_log log e.index)
        (append_entries-true log es)

  check_entry-found :
      (log : Store) (req : AppendEntriesRequest) (o : Option LogEntry)
      → found_term o ≡ some req.prev_log_term
      → check_entry L log req o ≡ agrees
  unfolding check_entry
  check_entry-found log req none h = cc
  check_entry-found log req (some e) h =
      let same : e.term ≡ req.prev_log_term = cc h in rw (eq→== e.term req.prev_log_term same) refl

  found-in_range :
      (log : Store) (i t : ℕ) (o : Option LogEntry)
      → get_log log i ≡ o
      → found_term o ≡ some t
      → i ≤ last_index log
  found-in_range log i t none p h = cc
  found-in_range log i t (some e) p h = laws.get-last log i e p

  -- The entry before the new ones, if there is to be one, has the term that the request names.
  abbrev pub PrevMatches : Node Store → AppendEntriesRequest → Type 0
  PrevMatches n req =
      (req.prev_log_index ≡ 0)
      ⊎ (found_term (get_log n.log req.prev_log_index) ≡ some req.prev_log_term)

  check_prev-matches :
      (n : Node Store) (req : AppendEntriesRequest)
      → PrevMatches n req
      → check_prev L n.log req ≡ agrees
  unfolding check_prev
  check_prev-matches n req h = elim (Bool-cases (ltb 0 req.prev_log_index)) [
    | inr zero ↦ rw zero refl
    | inl pos ↦ elim h [
      | inl zero ↦ ground arith
      | inr found ↦
          let room =
            found-in_range n.log req.prev_log_index req.prev_log_term
              (get_log n.log req.prev_log_index) refl found in
          rw (pos, le→ltb (last_index n.log) req.prev_log_index room)
            (check_entry-found n.log req (get_log n.log req.prev_log_index) found)
    ]
  ]

  append_checked-agrees :
      (n : Node Store) (req : AppendEntriesRequest)
      → (append_checked L n req agrees).1.success ≡ true
  unfolding append_checked
  append_checked-agrees n req = rw (append_entries-true n.log req.entries) refl

  -- On a store whose writes do not fail, an append succeeds exactly when the leader's term is not stale and the entry
  -- before the new ones is in the log with the term that the request names.
  pub handle_append_entries-succeeds :
      (n : Node Store) (req : AppendEntriesRequest)
      → ((handle_append_entries L n req).1.success ≡ true)
        ↔ ((n.current_term ≤ req.term) × PrevMatches n req)
  unfolding handle_append_entries
  handle_append_entries-succeeds n req = (
    λ h. elim (Bool-cases (ltb req.term n.current_term)) [
      | inl stale ↦ lie (rw stale at h)
      | inr current ↦
          let done =
            append_checked-success L laws (recognise_leader n req) req (check_prev L n.log req)
              (rw current at h) in
          (ltb→le req.term n.current_term current, check_prev-agrees L laws n.log req done.0)
    ],
    λ h.
        rw (le→ltb req.term n.current_term h.0, check_prev-matches n req h.1)
          (append_checked-agrees (recognise_leader n req) req),
  )
