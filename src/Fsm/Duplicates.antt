-- ===== src/Fsm/Duplicates.antt =====
-- The idempotency guard of `Apply`: a client's submissions are applied at most once and in order.
use claude_ds_project.Base.{
  ℕ, suc, ◌≡◌, refl, ap, Option, none, some, true, false, Bool-cases, inl, inr, if◌then◌else◌, List,
  [], ◌∷◌, arith,
}
use Prim.Native.String.{String}
use text.Mathlib.Text.{◌==◌}
use text.Mathlib.TextEquality.{eq_iff}
use claude_ds_project.GoInt
use claude_ds_project.Outcome.{Outcome, ok, err, panic, diverges, >>=-eq-ok}
use claude_ds_project.Ot.Changeset.{Changeset, Text}
use claude_ds_project.Ot.Apply.{apply_changeset}
use claude_ds_project.Fsm.ClientMap.{last_submission, last_submission-record_submission}
use claude_ds_project.Fsm.{
  Machine, RaftLogEntry, ApplyResult, is_duplicate_entry, is_repeated, apply_entry,
  apply_transformed, finish, run, commit, catch_up, duplicate_result,
}

-- How an entry can end, other than by a crash: as a repeated submission, refused with nothing changed,
-- or committed with one changeset that applies to the head.
pub data Ends (m : Machine) (e : RaftLogEntry) (m' : Machine) (r : Option ApplyResult)
    : Type 0 where
  repeated :
      is_duplicate_entry m e ≡ true → m' ≡ m → r ≡ some (duplicate_result m e) → Ends m e m' r
  refused : is_duplicate_entry m e ≡ false → m' ≡ m → r ≡ none → Ends m e m' r
  committed :
      (c : Changeset) (text : Text)
      → is_duplicate_entry m e ≡ false
      → catch_up m.revision_log (suc m.head_rev) e.base_rev m.head_rev e.changeset ≡ ok c
      → apply_changeset m.head_text c ≡ ok text
      → m' ≡ (commit m e c text).0
      → r ≡ some (commit m e c text).1
      → Ends m e m' r

ok_pair : {p q : Machine × Option ApplyResult} → ok p ≡ ok q → (q.0 ≡ p.0) × (q.1 ≡ p.1)
ok_pair {p} {q} h = let e : q ≡ p = cc in (ap (λ x. x.0) e, ap (λ x. x.1) e)

module _ (m : Machine) (e : RaftLogEntry) (fresh : is_duplicate_entry m e ≡ false) where
  finish-Ends :
      (c : Changeset) (text : Outcome Text) {m' : Machine} {r : Option ApplyResult}
      → catch_up m.revision_log (suc m.head_rev) e.base_rev m.head_rev e.changeset ≡ ok c
      → apply_changeset m.head_text c ≡ text
      → finish m e c text ≡ ok (m', r)
      → Ends m e m' r
  unfolding finish
  finish-Ends c (ok text) k a h = let (p, q) = ok_pair h in committed c text fresh k a p q
  finish-Ends c (err x) k a h = let (p, q) = ok_pair h in refused fresh p q
  finish-Ends c panic k a h = cc
  finish-Ends c diverges k a h = cc

  transformed-Ends :
      (c : Outcome Changeset) {m' : Machine} {r : Option ApplyResult}
      → catch_up m.revision_log (suc m.head_rev) e.base_rev m.head_rev e.changeset ≡ c
      → apply_transformed m e c ≡ ok (m', r)
      → Ends m e m' r
  unfolding apply_transformed
  transformed-Ends (ok c) k h = finish-Ends c (apply_changeset m.head_text c) k refl h
  transformed-Ends (err x) k h = let (p, q) = ok_pair h in refused fresh p q
  transformed-Ends panic k h = cc
  transformed-Ends diverges k h = cc

-- Every return of `Apply` is one of the three.
pub apply_entry-Ends :
    (m : Machine) (e : RaftLogEntry) {m' : Machine} {r : Option ApplyResult}
    → apply_entry m e ≡ ok (m', r)
    → Ends m e m' r
unfolding apply_entry
apply_entry-Ends m e h = elim (Bool-cases (is_duplicate_entry m e)) [
  | inl dup ↦ let (p, q) = ok_pair (rw dup at h) in repeated dup p q
  | inr fresh ↦ transformed-Ends m e fresh _ refl (rw fresh at h)
]

-- What a client has submitted stays submitted, whoever commits next.
record-is_repeated :
    (k j : String) (id new : ℕ) (old : Option ℕ)
    → (k ≡ j → is_repeated old new ≡ false)
    → is_repeated old id ≡ true
    → is_repeated (if k == j then some new else old) id ≡ true
unfolding is_repeated GoInt.le
record-is_repeated k j id new none fresh h = ground arith
record-is_repeated k j id new (some last) fresh h = elim (Bool-cases (k == j)) [
  | inl same ↦ rw same (ground (arith, fresh ((eq_iff k j).0 same)))
  | inr other ↦ rw other h
]

pub duplicate_kept :
    (m : Machine) (e x : RaftLogEntry) {m' : Machine} {r : Option ApplyResult}
    → is_duplicate_entry m e ≡ true
    → apply_entry m x ≡ ok (m', r)
    → is_duplicate_entry m' e ≡ true
unfolding is_duplicate_entry commit
duplicate_kept m e x h k = go (apply_entry-Ends m x k)
  where
    go : {m' : Machine} {r : Option ApplyResult} → Ends m x m' r → is_duplicate_entry m' e ≡ true
    go (repeated d p q) = rw p h
    go (refused d p q) = rw p h
    go (committed c text fresh _ _ p q) =
        rw (p, last_submission-record_submission)
          (record-is_repeated x.client_id e.client_id e.submission_id x.submission_id
            (last_submission e.client_id m.clients) (λ same. rw (← same) fresh) h)

committed-is_duplicate :
    (m : Machine) (e : RaftLogEntry) (c : Changeset) (text : Text)
    → is_duplicate_entry (commit m e c text).0 e ≡ true
unfolding is_duplicate_entry commit GoInt.le
committed-is_duplicate m e c text =
    rw (last_submission-record_submission, (eq_iff e.client_id e.client_id).1 refl) (ground arith)

run_kept :
    (m m' : Machine) (e : RaftLogEntry) (es : List RaftLogEntry)
    → is_duplicate_entry m e ≡ true
    → run m es ≡ ok m'
    → is_duplicate_entry m' e ≡ true
unfolding run
run_kept m m' e [] h k = let same : m' ≡ m = cc in rw same h
run_kept m m' e (x ∷ es) h k =
    let ((next, r), a, b) = >>=-eq-ok (apply_entry m x) (λ p. run p.0 es) k in
    run_kept next m' e es (duplicate_kept m e x h a) b

-- An entry that `Apply` has answered is answered as a duplicate whenever it is committed again, after
-- any further entries, and the document, the log and the client table stay as they are.
pub at_most_once :
    (m m' m'' : Machine) (e : RaftLogEntry) (es : List RaftLogEntry) (r : ApplyResult)
    → apply_entry m e ≡ ok (m', some r)
    → run m' es ≡ ok m''
    → apply_entry m'' e ≡ ok (m'', some (duplicate_result m'' e))
unfolding apply_entry
at_most_once m m' m'' e es r h k = rw (run_kept m' m'' e es (go (apply_entry-Ends m e h)) k)
  where
    go : Ends m e m' (some r) → is_duplicate_entry m' e ≡ true
    go (repeated d p q) = rw p d
    go (refused d p q) = cc
    go (committed c text _ _ _ p q) = rw p (committed-is_duplicate m e c text)
