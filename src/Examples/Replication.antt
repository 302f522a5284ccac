-- ===== src/Examples/Replication.antt =====
-- A leader of term 2 with two entries, and a follower that has the first (internal/raft).
use claude_ds_project.Base.{ℕ, ◌+◌, ◌≡◌, ◌≤◌, refl, List, [], ◌∷◌, length, some, true, arith}
use claude_ds_project.Raft.Types.{leader, LogEntry, PeerState}
use claude_ds_project.Raft.Inmem.{new_store, find, get_log, store_logs, put}
use claude_ds_project.Raft.Inmem.Interface.{Bounded, inmem, inmem-LogLaws}
use claude_ds_project.Raft.Node.{Node}
use claude_ds_project.Raft.AppendEntries.{handle_append_entries}
use claude_ds_project.Raft.AppendEntries.Matching.{found_term}
use claude_ds_project.Raft.Leader.{build_request}
use claude_ds_project.Raft.Leader.Replication.{IsIndexed, replicated}
use claude_ds_project.Raft.ApplyLoop.{apply_committed}
use claude_ds_project.Raft.ApplyLoop.Order.{
  HoldsBehind, commands, apply_all, apply_committed-commands,
}
use claude_ds_project.Examples.Cluster.{voter, log_of, peer}

abbrev first : LogEntry
first = record { index = 1; term = 1; payload = 7 ∷ [] }

abbrev second : LogEntry
second = record { index = 2; term = 2; payload = 5 ∷ [] }

abbrev both : Bounded
both = log_of (first ∷ second ∷ [])

at_one : inmem.get_log both 1 ≡ some first
unfolding get_log store_logs new_store find put
at_one = refl

at_two : inmem.get_log both 2 ≡ some second
unfolding get_log store_logs new_store find put
at_two = refl

last_is_two : inmem.last_index both ≡ 2
unfolding store_logs new_store
last_is_two = refl

-- The machine counts the commands.
abbrev count_command : ℕ → List ℕ → ℕ
count_command m command = m + length command

held : HoldsBehind inmem count_command both 0 (first ∷ second ∷ [])
held = (at_one, (at_two, tt))

apply_committed-commands_example :
    apply_committed inmem count_command 3 both 0 0 2
    ≡ some (apply_all count_command 0 (commands (first ∷ second ∷ [])), 2)
apply_committed-commands_example =
    apply_committed-commands inmem count_command both 3 0 0 2 (first ∷ second ∷ []) (omega arith)
      (omega arith) (omega arith) held

abbrev sender : Node Bounded
sender = record voter { server_id = "s3"; state = leader; log = both }

abbrev receiver : PeerState
receiver = record (peer "s1" 1) { next_index = 2 }

indexed : IsIndexed inmem inmem-LogLaws both 2
indexed = record { entry_at = λ i h k. from_two i h (rw last_is_two at k) }
  where
    from_two :
        (i : ℕ) → 2 ≤ i → i ≤ 2 → (e : LogEntry) × (inmem.get_log both i ≡ some e) × (e.index ≡ i)
    from_two i h k = let same : i ≡ 2 = omega arith in rw same (second, at_two, refl)

accepted :
    (handle_append_entries inmem voter (build_request inmem sender receiver)).1.success ≡ true
unfolding handle_append_entries build_request get_log store_logs new_store find put
accepted = refl

replicated_example :
    found_term (
      inmem.get_log
        (handle_append_entries inmem voter (build_request inmem sender receiver)).0.log
        2)
    ≡ found_term (inmem.get_log both 2)
replicated_example =
    replicated inmem inmem-LogLaws sender voter receiver (omega arith) (omega arith)
      (rw last_is_two (omega arith)) indexed accepted 2 (omega arith) (rw last_is_two (omega arith))
