-- ===== src/Raft/AppendEntries/Matching.antt =====
-- Log matching on the follower's side: what its log holds after the entries of a leader.
use claude_ds_project.Base.{
  ℕ, suc, ◌≤◌, ◌<◌, ◌≡◌, ◌⊎◌, inl, inr, refl, ap, ◌∙◌, List, [], ◌∷◌, Option, none, some, Bool,
  true, false, Bool-cases, ◌==◌, ltb, leb, ◌&&◌, if◌then◌else◌, ==→eq, arith,
}
use claude_ds_project.Raft.Types.{LogEntry, is_follower, AppendEntriesRequest}
use claude_ds_project.Raft.LogStore.{LogStore, LogLaws, written}
use claude_ds_project.Raft.Node.{Node, step_down, persist_state}
use claude_ds_project.Raft.AppendEntries.{
  PrevCheck, agrees, conflicts, stored, overwrite, append_entry, append_entries, follow_commit,
  append_checked, check_prev, check_entry, conflict_at, recognise_leader, handle_append_entries,
}

-- The entries have rising indices, from `low` on.
abbrev pub AreAbove : ℕ → List LogEntry → Type 0
AreAbove low [] = Unit
AreAbove low (e ∷ es) = (low ≤ e.index) × AreAbove (suc e.index) es

abbrev pub found_term : Option LogEntry → Option ℕ
found_term none = none
found_term (some e) = some e.term

-- A log, as the function that reads it, has an entry of the right term at each index of the list.
abbrev pub Holds : (ℕ → Option LogEntry) → List LogEntry → Type 0
Holds get [] = Unit
Holds get (e ∷ es) = (found_term (get e.index) ≡ some e.term) × Holds get es

Holds-ext :
    (get get' : ℕ → Option LogEntry) (es : List LogEntry)
    → ((i : ℕ) → get' i ≡ get i)
    → Holds get es
    → Holds get' es
Holds-ext get get' [] same h = tt
Holds-ext get get' (e ∷ es) same h = (rw (same e.index) h.0, Holds-ext get get' es same h.1)

written-below :
    (es : List LogEntry) (low i : ℕ) (old : Option LogEntry)
    → AreAbove low es
    → i < low
    → written es i old ≡ old
written-below [] low i old h k = refl
written-below (e ∷ es) low i old h k = ground (arith, h, written-below es (suc e.index) i old h.1)

written-Holds :
    (es : List LogEntry) (low : ℕ) (get : ℕ → Option LogEntry)
    → AreAbove low es
    → Holds (λ i. written es i (get i)) es
written-Holds [] low get h = tt
written-Holds (e ∷ es) low get h = (
  ap found_term (
        written-below es (suc e.index) e.index (if e.index == e.index then some e else get e.index)
          h.1 (omega arith))
      ∙ ground arith,
  written-Holds es (suc e.index) (λ i. if e.index == i then some e else get i) h.1,
)

clash : {A : Type 0} {term index : ℕ} → conflicts term index ≡ agrees → A
clash h = cc

pub lie : {A : Type 0} → false ≡ true → A
lie h = cc

out_of_range :
    (lo hi i : ℕ) (old : Option LogEntry)
    → i < lo
    → (if leb lo i && leb i hi then none else old) ≡ old
out_of_range lo hi i old h = ground arith

module _ (L : LogStore) (laws : LogLaws L) where
  open L use {Store, last_index, get_log, store_logs, delete_range}

  -- The log holds the entries, and what is below them is as before.
  pub record Matches (low : ℕ) (before after : Store) (es : List LogEntry) : Type 0 where
    pub holds : Holds (get_log after) es
    pub below : (i : ℕ) → i < low → get_log after i ≡ get_log before i

  stored-Matches :
      (low : ℕ) (log base keep : Store) (es : List LogEntry) (o : Option Store)
      → AreAbove low es
      → ((i : ℕ) → i < low → get_log base i ≡ get_log log i)
      → store_logs base es ≡ o
      → (stored L keep o).1 ≡ true
      → Matches low log (stored L keep o).0 es
  stored-Matches low log base keep es none h k p q = cc
  stored-Matches low log base keep es (some log') h k p q = record {
    holds =
        Holds-ext (λ i. written es i (get_log base i)) (get_log log') es
          (λ i. laws.get-store base log' es i p) (written-Holds es low (get_log base) h);
    below = λ i l.
        laws.get-store base log' es i p ∙ written-below es low i (get_log base i) h l ∙ k i l;
  }

  overwrite-Matches :
      (low : ℕ) (log : Store) (e : LogEntry) (es : List LogEntry) (o : Option Store)
      → AreAbove low (e ∷ es)
      → delete_range log e.index (last_index log) ≡ o
      → (overwrite L log e es o).1 ≡ true
      → Matches low log (overwrite L log e es o).0 (e ∷ es)
  unfolding overwrite
  overwrite-Matches low log e es none h p q = cc
  overwrite-Matches low log e es (some cut) h p q =
      stored-Matches low log cut cut (e ∷ es) (store_logs cut (e ∷ es)) h
        (λ i l.
          laws.get-delete log cut e.index (last_index log) i p
          ∙ out_of_range e.index (last_index log) i _ (omega (arith, h.0)))
        refl q

  append_entry-Matches :
      (low : ℕ) (log : Store) (e : LogEntry) (es : List LogEntry) (next : Store × Bool)
      (o : Option LogEntry)
      → AreAbove low (e ∷ es)
      → get_log log e.index ≡ o
      → (next.1 ≡ true → Matches (suc e.index) log next.0 es)
      → (append_entry L log e es next o).1 ≡ true
      → Matches low log (append_entry L log e es next o).0 (e ∷ es)
  unfolding append_entry
  append_entry-Matches low log e es next none h p loop q =
      stored-Matches low log log log (e ∷ es) (store_logs log (e ∷ es)) h (λ i l. refl) refl q
  append_entry-Matches low log e es next (some x) h p loop q =
      elim (Bool-cases (x.term == e.term)) [
        | inl same ↦
            let rest = loop (rw same at q) in
            rw same (record {
              holds = (
                ap found_term (rest.below e.index (omega arith) ∙ p)
                    ∙ ap some (==→eq x.term e.term same),
                rest.holds,
              );
              below = λ i l. rest.below i (omega (arith, h.0));
            })
        | inr other ↦
            let o' = delete_range log e.index (last_index log) in
            rw other (overwrite-Matches low log e es o' h refl (rw other at q))
      ]

  -- The loop over the entries, when no write fails.
  append_entries-Matches :
      (low : ℕ) (log : Store) (es : List LogEntry)
      → AreAbove low es
      → (append_entries L log es).1 ≡ true
      → Matches low log (append_entries L log es).0 es
  unfolding append_entries
  append_entries-Matches low log [] h q = record { holds = tt; below = λ i l. refl }
  append_entries-Matches low log (e ∷ es) h q =
      append_entry-Matches low log e es (append_entries L log es) (get_log log e.index) h refl
        (append_entries-Matches (suc e.index) log es h.1) q

  conflict_at-clash :
      {A : Type 0} (log : Store) (req : AppendEntriesRequest) (o : Option LogEntry)
      → conflict_at L log req o ≡ agrees
      → A
  unfolding conflict_at
  conflict_at-clash log req none h = clash h
  conflict_at-clash log req (some e) h = clash h

  -- The entry before the new ones is there, of the term that the request names.
  check_entry-agrees :
      (log : Store) (req : AppendEntriesRequest) (o : Option LogEntry)
      → check_entry L log req o ≡ agrees
      → found_term o ≡ some req.prev_log_term
  unfolding check_entry
  check_entry-agrees log req none h = conflict_at-clash log req _ h
  check_entry-agrees log req (some e) h = elim (Bool-cases (e.term == req.prev_log_term)) [
    | inl same ↦ ap some (==→eq e.term req.prev_log_term same)
    | inr other ↦ conflict_at-clash log req (some e) (rw other at h)
  ]

  pub check_prev-agrees :
      (log : Store) (req : AppendEntriesRequest)
      → check_prev L log req ≡ agrees
      → (req.prev_log_index ≡ 0)
        ⊎ (found_term (get_log log req.prev_log_index) ≡ some req.prev_log_term)
  unfolding check_prev
  check_prev-agrees log req h = elim (Bool-cases (ltb 0 req.prev_log_index)) [
    | inr zero ↦ inl (ground arith)
    | inl pos ↦ elim (Bool-cases (ltb (last_index log) req.prev_log_index)) [
      | inl short ↦ clash (rw (pos, short) at h)
      | inr long ↦
          inr (check_entry-agrees log req (get_log log req.prev_log_index) (rw (pos, long) at h))
    ]
  ]

  pub recognise_leader-log :
      (n : Node Store) (req : AppendEntriesRequest) → (recognise_leader n req).log ≡ n.log
  unfolding recognise_leader step_down persist_state
  recognise_leader-log n req = elim (Bool-cases (ltb n.current_term req.term)) [
    | inl newer ↦ rw newer refl
    | inr same ↦ elim (Bool-cases (is_follower n.state)) [
      | inl quiet ↦ rw (same, quiet) refl
      | inr other ↦ rw (same, other) refl
    ]
  ]

  follow_commit-log :
      (n : Node Store) (req : AppendEntriesRequest) → (follow_commit L n req).log ≡ n.log
  unfolding follow_commit
  follow_commit-log n req = elim (Bool-cases (ltb n.commit_index req.leader_commit)) [
    | inl less ↦ rw less refl
    | inr done ↦ rw done refl
  ]

  pub append_checked-success :
      (n : Node Store) (req : AppendEntriesRequest) (c : PrevCheck)
      → (append_checked L n req c).1.success ≡ true
      → (c ≡ agrees)
        × ((append_entries L n.log req.entries).1 ≡ true)
        × ((append_checked L n req c).0.log ≡ (append_entries L n.log req.entries).0)
  unfolding append_checked
  append_checked-success n req (conflicts term index) h = cc
  append_checked-success n req agrees h =
      let written = append_entries L n.log req.entries in
      elim (Bool-cases written.1) [
        | inl ok ↦ (refl, ok, rw ok (follow_commit-log (record n { log = written.0 }) req))
        | inr failed ↦ lie (rw failed at h)
      ]

  -- When a follower answers that an append succeeded, its log had the entry before the new ones with the term
  -- that the request names, it now has an entry of the right term at each new index, and every entry
  -- below the new ones is as it was; the new entries have rising indices, behind the previous one.
  pub handle_append_entries-Matches :
      (n : Node Store) (req : AppendEntriesRequest)
      → AreAbove (suc req.prev_log_index) req.entries
      → (handle_append_entries L n req).1.success ≡ true
      → ((req.prev_log_index ≡ 0)
          ⊎ (found_term (get_log n.log req.prev_log_index) ≡ some req.prev_log_term))
        × Matches (suc req.prev_log_index) n.log (handle_append_entries L n req).0.log req.entries
  unfolding handle_append_entries
  handle_append_entries-Matches n req above h = elim (Bool-cases (ltb req.term n.current_term)) [
    | inl stale ↦ lie (rw stale at h)
    | inr current ↦
        let m = recognise_leader n req in
        let done = append_checked-success m req (check_prev L n.log req) (rw current at h) in
        (
          check_prev-agrees n.log req done.0,
          rw (current, done.2, recognise_leader-log n req)
              (append_entries-Matches (suc req.prev_log_index) n.log req.entries above
                (rw (recognise_leader-log n req) at done.1)),
        )
  ]
