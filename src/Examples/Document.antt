-- ===== src/Examples/Document.antt =====
-- The state machine on the document "abc" (internal/fsm).
use claude_ds_project.Base.{◌≡◌, refl, List, [], ◌∷◌, some, false, take, arith}
use claude_ds_project.GoInt
use claude_ds_project.GoInt.{half, neg}
use claude_ds_project.Outcome.{ok, panic}
use claude_ds_project.Ot.Changeset.{Text, Changeset, retain, insert, delete}
use claude_ds_project.Ot.Apply.{apply_changeset}
use claude_ds_project.Ot.TextOrder.{le_text}
use claude_ds_project.Ot.Cursor.{peek, consume, add_op, trim}
use claude_ds_project.Ot.Compose.{overlap}
use claude_ds_project.Ot.Follow.{follow, follow_loop, follow_step, add_counted, rebase}
use claude_ds_project.Fsm.{
  Machine, RaftLogEntry, RevisionRecord, ApplyResult, new_machine, apply_entry, run, catch_up,
  finish, apply_transformed, is_duplicate_entry, revisions_since, duplicate_result,
}
use claude_ds_project.Fsm.ClientMap.{last_submission, record_submission}
use claude_ds_project.Fsm.Duplicates.{at_most_once, apply_entry-Ends, Ends}
use claude_ds_project.Fsm.Consistency.{
  run-IsConsistent, IsConsistent, revisions_since-reaches_head, replay,
}
use claude_ds_project.Fsm.Acceptance.{
  IsOrdered, IsAdmissible, IsCommitted, admissible-IsCommitted, negative_base-panics,
}
use claude_ds_project.Examples.Editing.{
  abc, prefixed, shortened, prefixed-IsWellFormed, shortened-IsWellFormed,
}

abbrev pub first_entry : RaftLogEntry
first_entry = record { client_id = "ann"; submission_id = 1; base_rev = 0; changeset = prefixed }

-- On the same revision, from another client.
abbrev second_entry : RaftLogEntry
second_entry = record { client_id = "bob"; submission_id = 1; base_rev = 0; changeset = shortened }

abbrev entries : List RaftLogEntry
entries = first_entry ∷ second_entry ∷ first_entry ∷ []

abbrev pub after_first : Machine
after_first = record {
  head_text = 120 ∷ abc;
  head_rev = 1;
  revision_log = record { rev_number = 0; changeset = prefixed; source = "ann" } ∷ [];
  clients = ("ann", 1) ∷ [];
}

abbrev rebased : Changeset
rebased = record { old_len = 4; new_len = 3; ops = retain 2 ∷ delete 2 ∷ insert (121 ∷ []) ∷ [] }

abbrev after_second : Machine
after_second = record {
  head_text = 120 ∷ 97 ∷ 121 ∷ [];
  head_rev = 2;
  revision_log =
      record { rev_number = 0; changeset = prefixed; source = "ann" }
      ∷ record { rev_number = 1; changeset = rebased; source = "bob" }
      ∷ [];
  clients = ("ann", 1) ∷ ("bob", 1) ∷ [];
}

abbrev pub first_result : ApplyResult
first_result = record { c_prime = prefixed; new_rev = 1; client_id = "ann"; is_duplicate = false }

pub first_run : apply_entry (new_machine abc) first_entry ≡ ok (after_first, some first_result)
unfolding apply_entry is_duplicate_entry last_submission record_submission new_machine catch_up
    apply_transformed finish apply_changeset GoInt.lt GoInt.add
first_run = refl

both_run : run (new_machine abc) entries ≡ ok after_second
unfolding run apply_entry is_duplicate_entry last_submission record_submission new_machine catch_up
    apply_transformed finish apply_changeset follow follow_loop follow_step add_counted rebase
    overlap add_op peek consume trim le_text GoInt.lt GoInt.le GoInt.sub GoInt.add
both_run = refl

second_run : run after_first (second_entry ∷ []) ≡ ok after_second
unfolding run apply_entry is_duplicate_entry last_submission record_submission new_machine catch_up
    apply_transformed finish apply_changeset follow follow_loop follow_step add_counted rebase
    overlap add_op peek consume trim le_text GoInt.lt GoInt.le GoInt.sub GoInt.add
second_run = refl

run-IsConsistent_example : IsConsistent abc after_second
run-IsConsistent_example = run-IsConsistent abc after_second entries (omega arith) both_run

at_most_once_example :
    apply_entry after_second first_entry
    ≡ ok (after_second, some (duplicate_result after_second first_entry))
at_most_once_example =
    at_most_once (new_machine abc) after_first after_second first_entry (second_entry ∷ [])
      first_result first_run second_run

apply_entry-Ends_example : Ends (new_machine abc) first_entry after_first (some first_result)
apply_entry-Ends_example = apply_entry-Ends (new_machine abc) first_entry first_run

after_second-IsConsistent : IsConsistent abc after_second
after_second-IsConsistent = run-IsConsistent abc after_second entries (omega arith) both_run

revisions_since-reaches_head_example :
    (records : List RevisionRecord) × (text : Text) × (revisions_since after_second 1 ≡ ok records)
    × (replay abc (take 1 after_second.revision_log) ≡ ok text)
    × (replay text records ≡ ok after_second.head_text)
revisions_since-reaches_head_example =
    revisions_since-reaches_head abc after_second 1 after_second-IsConsistent (omega arith)
      (omega arith)

after_first-IsOrdered : IsOrdered abc after_first
after_first-IsOrdered = record {
  counts = refl;
  chains = (prefixed-IsWellFormed, refl, refl);
  fits = omega arith;
}

second_entry-IsAdmissible : IsAdmissible abc after_first second_entry
unfolding is_duplicate_entry last_submission
second_entry-IsAdmissible = record {
  fresh = refl;
  known = omega arith;
  well_formed = shortened-IsWellFormed;
  based = refl;
  room = omega arith;
}

admissible-IsCommitted_example :
    (c : Changeset) × (text : Text) × IsCommitted abc after_first second_entry c text
admissible-IsCommitted_example =
    admissible-IsCommitted abc after_first second_entry after_first-IsOrdered
      second_entry-IsAdmissible

abbrev negative_entry : RaftLogEntry
negative_entry = record {
  client_id = "eve";
  submission_id = 1;
  base_rev = neg 1;
  changeset = prefixed;
}

negative_entry-fresh : is_duplicate_entry after_first negative_entry ≡ false
unfolding is_duplicate_entry last_submission
negative_entry-fresh = refl

negative_base-panics_example : apply_entry after_first negative_entry ≡ panic
negative_base-panics_example =
    negative_base-panics after_first negative_entry refl (omega arith) negative_entry-fresh
      (omega arith) (omega arith)
