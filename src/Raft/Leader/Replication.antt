-- ===== src/Raft/Leader/Replication.antt =====
-- A leader's request and the follower's answer together (internal/raft/replication.go).
use claude_ds_project.Base.{
  ℕ, zero, suc, ◌+◌, ◌-◌, ◌≤◌, ◌<◌, ◌≡◌, ◌⊎◌, inl, inr, refl, sym, ap, ◌∙◌, ◌∷◌, Option, some, true,
  arith,
}
use claude_ds_project.Raft.Types.{LogEntry, PeerState}
use claude_ds_project.Raft.LogStore.{LogStore, LogLaws}
use claude_ds_project.Raft.Node.{Node}
use claude_ds_project.Raft.Leader.{gather, entries_from, build_request}
use claude_ds_project.Raft.AppendEntries.{handle_append_entries}
use claude_ds_project.Raft.AppendEntries.Matching.{
  AreAbove, Holds, found_term, handle_append_entries-Matches,
}

plus_one : (i : ℕ) → suc i ≡ i + 1
plus_one i = omega arith

here_or_later : (i j : ℕ) → i ≤ j → (j ≡ i) ⊎ (i + 1 ≤ j)
here_or_later i j h = ground arith

module _ (L : LogStore) (laws : LogLaws L) where
  open L use {Store, last_index, get_log}

  -- Every index from `low` up to the last has an entry, which bears that index.
  pub record IsIndexed (log : Store) (low : ℕ) : Type 0 where
    pub entry_at :
        (i : ℕ)
        → low ≤ i
        → i ≤ last_index log
        → (e : LogEntry) × (get_log log i ≡ some e) × (e.index ≡ i)

  entries_from_found :
      (log : Store) (i k : ℕ) {e : LogEntry}
      → get_log log i ≡ some e
      → entries_from L log i (suc k) ≡ e ∷ entries_from L log (i + 1) k
  unfolding entries_from gather
  entries_from_found log i k h = rw h refl

  entries_from-AreAbove :
      (log : Store) (low i k : ℕ)
      → IsIndexed log low
      → low ≤ i
      → i + k ≤ last_index log + 1
      → AreAbove i (entries_from L log i k)
  unfolding entries_from
  entries_from-AreAbove log low i zero h p q = tt
  entries_from-AreAbove log low i (suc k) h p q =
      let found = h.entry_at i p (omega arith) in
      rw (entries_from_found log i k found.1) (
        omega (arith, found.2),
        rw (found.2, plus_one i)
            (entries_from-AreAbove log low (i + 1) k h (omega arith) (omega arith)),
      )

  -- A log that holds what was sent agrees with the sender's on every index that was sent.
  entries_from-Holds :
      (log : Store) (get : ℕ → Option LogEntry) (low i k j : ℕ)
      → IsIndexed log low
      → low ≤ i
      → i + k ≤ last_index log + 1
      → Holds get (entries_from L log i k)
      → i ≤ j
      → j < i + k
      → found_term (get j) ≡ found_term (get_log log j)
  unfolding entries_from
  entries_from-Holds log get low i zero j h p q held lo hi = absurd (omega arith)
  entries_from-Holds log get low i (suc k) j h p q held lo hi =
      let found = h.entry_at i p (omega arith) in
      let held' : Holds get (found.0 ∷ entries_from L log (i + 1) k) =
        rw (entries_from_found log i k found.1) at held in
      elim (here_or_later i j lo) [
        | inl same ↦ rw (same, found.1) (ap (λ n. found_term (get n)) (sym found.2) ∙ held'.0)
        | inr later ↦
            entries_from-Holds log get low (i + 1) k j h (omega arith) (omega arith) held'.1 later
              (omega arith)
      ]

  -- When a follower answers that it took the request that a leader built for it, its log agrees with the leader's, by
  -- index and term, on every index from the follower's next index to the leader's last. The next index is a positive 64-bit
  -- number up to one past the leader's last, and the leader's log has an entry at each index from there.
  pub replicated :
      (n m : Node Store) (peer : PeerState)
      → 0 < peer.next_index
      → peer.next_index < 18446744073709551616
      → peer.next_index ≤ last_index n.log + 1
      → IsIndexed n.log peer.next_index
      → (handle_append_entries L m (build_request L n peer)).1.success ≡ true
      → (j : ℕ) → peer.next_index ≤ j
      → j ≤ last_index n.log
      → found_term (get_log (handle_append_entries L m (build_request L n peer)).0.log j)
        ≡ found_term (get_log n.log j)
  unfolding build_request
  replicated n m peer pos small room indexed success j lo hi =
      let count = last_index n.log + 1 - peer.next_index in
      let req = build_request L n peer in
      let prev : suc req.prev_log_index ≡ peer.next_index = omega arith in
      let above : AreAbove (suc req.prev_log_index) req.entries = rw prev (
        entries_from-AreAbove n.log peer.next_index peer.next_index count indexed (omega arith)
          (omega arith)) in
      let matches = (handle_append_entries-Matches L laws m req above success).1 in
      entries_from-Holds n.log (get_log (handle_append_entries L m req).0.log) peer.next_index
        peer.next_index count j indexed (omega arith) (omega arith) matches.holds lo (omega arith)
