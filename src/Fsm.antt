-- ===== src/Fsm.antt =====
-- internal/fsm: the document state machine that every node runs on the committed log. The callback and
-- the value returned by `Apply` carry one result, so one answer stands for both; the lock is not
-- modelled, since `Apply` holds it throughout.
pub mod ClientMap
pub mod CatchUp
pub mod Consistency
pub mod Duplicates
pub mod Acceptance
use claude_ds_project.Base.{
  ℕ, zero, suc, ◌+◌, List, [], ◌∷◌, ◌++◌, Option, none, some, Bool, true, false, length, get_elem?,
  drop, if◌then◌else◌, leb,
}
use Prim.Native.String.{String}
use claude_ds_project.GoInt
use claude_ds_project.Outcome.{Outcome, ok, err, panic, diverges, ◌>>=◌}
use claude_ds_project.Ot.Changeset.{Text, Changeset}
use claude_ds_project.Ot.Apply.{apply_changeset}
use claude_ds_project.Ot.Follow.{follow}
use claude_ds_project.Fsm.ClientMap.{Clients, last_submission, record_submission}

-- RaftLogEntry
pub record RaftLogEntry : Type 0 where
  pub client_id : String
  pub submission_id : ℕ
  pub base_rev : ℕ
  pub changeset : Changeset

-- RevisionRecord
pub record RevisionRecord : Type 0 where
  pub rev_number : ℕ
  pub changeset : Changeset
  pub source : String

-- ApplyResult
pub record ApplyResult : Type 0 where
  pub c_prime : Changeset
  pub new_rev : ℕ
  pub client_id : String
  pub is_duplicate : Bool

-- DocumentStateMachine
pub record Machine : Type 0 where
  pub head_text : Text
  pub head_rev : ℕ
  pub revision_log : List RevisionRecord
  pub clients : Clients

-- NewDocumentStateMachine
unfoldable pub new_machine : Text → Machine
new_machine text = record { head_text = text; head_rev = 0; revision_log = []; clients = [] }

-- The body of the loop: `fsm.revisionLog[r]` panics outside the log.
unfoldable pub visit :
    Option RevisionRecord → (Changeset → Outcome Changeset) → Changeset → Outcome Changeset
visit none next c = panic
visit (some rec) next c = follow rec.changeset c >>= next

-- The loop of `Apply` from `r` up to `headRev`, with fuel.
unfoldable pub catch_up : List RevisionRecord → ℕ → ℕ → ℕ → Changeset → Outcome Changeset
unfolding visit
catch_up log zero r head c = diverges
catch_up log (suc fuel) r head c =
    let round = visit (get_elem? log r) (catch_up log fuel (GoInt.add r 1) head) c in
    if GoInt.lt r head then round else ok c

-- seen && entry.SubmissionID <= lastSub
unfoldable pub is_repeated : Option ℕ → ℕ → Bool
is_repeated none id = false
is_repeated (some last) id = GoInt.le id last

unfoldable pub is_duplicate_entry : Machine → RaftLogEntry → Bool
unfolding is_repeated
is_duplicate_entry m e = is_repeated (last_submission e.client_id m.clients) e.submission_id

unfoldable pub duplicate_result : Machine → RaftLogEntry → ApplyResult
duplicate_result m e = record {
  c_prime = record { old_len = 0; new_len = 0; ops = [] };
  new_rev = m.head_rev;
  client_id = e.client_id;
  is_duplicate = true;
}

-- The record, the new state and the result for a transformed changeset and the text it made.
unfoldable pub commit : Machine → RaftLogEntry → Changeset → Text → Machine × ApplyResult
commit m e c text = (
  record {
    head_text = text;
    head_rev = GoInt.add m.head_rev 1;
    revision_log =
        m.revision_log
        ++ (record { rev_number = m.head_rev; changeset = c; source = e.client_id } ∷ []);
    clients = record_submission e.client_id e.submission_id m.clients;
  },
  record {
    c_prime = c;
    new_rev = GoInt.add m.head_rev 1;
    client_id = e.client_id;
    is_duplicate = false;
  },
)

-- What follows `ApplyChangeset`: an error is logged, and `Apply` returns nil.
unfoldable pub finish :
    Machine → RaftLogEntry → Changeset → Outcome Text → Outcome (Machine × Option ApplyResult)
unfolding commit
finish m e c (ok text) = ok ((commit m e c text).0, some (commit m e c text).1)
finish m e c (err x) = ok (m, none)
finish m e c panic = panic
finish m e c diverges = diverges

-- What follows the transformation: an error is logged, and `Apply` returns nil.
unfoldable pub apply_transformed :
    Machine → RaftLogEntry → Outcome Changeset → Outcome (Machine × Option ApplyResult)
apply_transformed m e (ok c) = finish m e c (apply_changeset m.head_text c)
apply_transformed m e (err x) = ok (m, none)
apply_transformed m e panic = panic
apply_transformed m e diverges = diverges

-- Apply, on an entry that was read from the log.
unfoldable pub apply_entry : Machine → RaftLogEntry → Outcome (Machine × Option ApplyResult)
unfolding duplicate_result
apply_entry m e =
    if is_duplicate_entry m e
    then ok (m, some (duplicate_result m e))
    else apply_transformed m e
        (catch_up m.revision_log (suc m.head_rev) e.base_rev m.head_rev e.changeset)

-- Apply, on the bytes of a log entry: `decode` is `json.Unmarshal` into a RaftLogEntry.
unfoldable pub apply {ℓ} :
    {Bytes : Type ℓ}
    → (Bytes → Option RaftLogEntry)
    → Machine
    → Bytes
    → Outcome (Machine × Option ApplyResult)
apply decode m bytes = elim (decode bytes) [ none ↦ ok (m, none) | some e ↦ apply_entry m e ]

-- RevisionsSince: the slice panics at a negative revision.
unfoldable pub revisions_since : Machine → ℕ → Outcome (List RevisionRecord)
revisions_since m from_rev =
    if GoInt.le (length m.revision_log) from_rev
    then ok []
    else (if leb from_rev (length m.revision_log) then ok (drop from_rev m.revision_log) else panic)

-- The committed entries, in the order of the log: every node starts from one text.
unfoldable pub run : Machine → List RaftLogEntry → Outcome Machine
run m [] = ok m
run m (e ∷ es) = apply_entry m e >>= λ (m', _). run m' es
