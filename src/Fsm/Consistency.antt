-- ===== src/Fsm/Consistency.antt =====
-- The first invariant at the head of internal/fsm/fsm.go: the head text is what the revision log makes
-- of the initial text. And what a client that catches up by `RevisionsSince` reaches.
use claude_ds_project.Base.{
  ℕ, ◌+◌, ◌≤◌, ◌<◌, ◌≡◌, refl, sym, ◌∙◌, Option, some, List, [], ◌∷◌, ◌++◌, length, get_elem?, take,
  drop, length-append, get_elem?-append-last, take-append-drop, inl, inr, le→leb, leb, leb→le,
  Bool-cases, drop-all, arith,
}
use claude_ds_project.GoInt.{half, add-small, le-small}
use claude_ds_project.Outcome.{Outcome, ok, ◌>>=◌, >>=-eq-ok, >>=_assoc, >>=_congr}
use claude_ds_project.Ot.Changeset.{Text, Changeset}
use claude_ds_project.Ot.Apply.{apply_changeset}
use claude_ds_project.Fsm.{
  Machine, RaftLogEntry, RevisionRecord, ApplyResult, new_machine, apply_entry, commit, run,
  revisions_since,
}
use claude_ds_project.Fsm.Duplicates.{Ends, repeated, refused, committed, apply_entry-Ends}

-- The changesets of the records, applied in order.
unfoldable pub replay : Text → List RevisionRecord → Outcome Text
replay text [] = ok text
replay text (r ∷ rs) = apply_changeset text r.changeset >>= λ text'. replay text' rs

pub replay-append :
    (text : Text) (xs ys : List RevisionRecord)
    → replay text (xs ++ ys) ≡ (replay text xs >>= λ mid. replay mid ys)
unfolding replay
replay-append text [] ys = refl
replay-append text (x ∷ xs) ys =
    >>=_congr (apply_changeset text x.changeset) (λ t. replay t (xs ++ ys))
      (λ t. replay t xs >>= λ mid. replay mid ys) (λ t. replay-append t xs ys)
    ∙ sym (>>=_assoc (apply_changeset text x.changeset) (λ t. replay t xs) (λ mid. replay mid ys))

pub record IsConsistent (init : Text) (m : Machine) : Type 0 where
  pub replays : replay init m.revision_log ≡ ok m.head_text
  pub counts : m.head_rev ≡ length m.revision_log
  pub numbered :
      (i : ℕ) (r : RevisionRecord) → get_elem? m.revision_log i ≡ some r → r.rev_number ≡ i

new_machine-IsConsistent : (text : Text) → IsConsistent text (new_machine text)
unfolding new_machine replay
new_machine-IsConsistent text = record { replays = refl; counts = refl; numbered = λ i r h. cc }

commit-IsConsistent :
    (init : Text) (m : Machine) (e : RaftLogEntry) (c : Changeset) (text : Text)
    → IsConsistent init m
    → length m.revision_log + 1 < half
    → apply_changeset m.head_text c ≡ ok text
    → IsConsistent init (commit m e c text).0
unfolding commit replay
commit-IsConsistent init m e c text k room a = record {
  replays = rw (replay-append init m.revision_log (last ∷ []), k.replays) (rw a);
  counts =
      rw
        (add-small m.head_rev 1 (omega (arith, k.counts)), length-append m.revision_log (last ∷ []))
        (omega (arith, k.counts));
  numbered = λ i r h. elim (get_elem?-append-last m.revision_log last i h) [
    | inl new ↦ rw (new.1, new.0) k.counts
    | inr old ↦ k.numbered i r old
  ];
}
  where
    last : RevisionRecord
    last = record { rev_number = m.head_rev; changeset = c; source = e.client_id }

-- Every return of `Apply` keeps the invariant, whatever the entry.
pub apply_entry-IsConsistent :
    (init : Text) (m m' : Machine) (e : RaftLogEntry) (r : Option ApplyResult)
    → IsConsistent init m
    → length m.revision_log + 1 < half
    → apply_entry m e ≡ ok (m', r)
    → IsConsistent init m'
apply_entry-IsConsistent init m m' e r k room h = go (apply_entry-Ends m e h)
  where
    go : Ends m e m' r → IsConsistent init m'
    go (repeated d p q) = rw p k
    go (refused d p q) = rw p k
    go (committed c text _ _ a p q) = rw p (commit-IsConsistent init m e c text k room a)

length-revision_log :
    (m m' : Machine) (e : RaftLogEntry) (r : Option ApplyResult)
    → apply_entry m e ≡ ok (m', r)
    → length m'.revision_log ≤ length m.revision_log + 1
unfolding commit
length-revision_log m m' e r h = go (apply_entry-Ends m e h)
  where
    go : Ends m e m' r → length m'.revision_log ≤ length m.revision_log + 1
    go (repeated d p q) = rw p (omega arith)
    go (refused d p q) = rw p (omega arith)
    go (committed c text _ _ a p q) = rw p (omega (arith, length-append {0} m.revision_log))

run-IsConsistent_from :
    (init : Text) (m m' : Machine) (es : List RaftLogEntry)
    → IsConsistent init m
    → length m.revision_log + length es < half
    → run m es ≡ ok m'
    → IsConsistent init m'
unfolding run
run-IsConsistent_from init m m' [] k room h = let same : m' ≡ m = cc in rw same k
run-IsConsistent_from init m m' (e ∷ es) k room h =
    let ((next, r), a, b) = >>=-eq-ok (apply_entry m e) (λ p. run p.0 es) h in
    run-IsConsistent_from init next m' es
      (apply_entry-IsConsistent init m next e r k (omega arith) a)
      (omega (arith, length-revision_log m next e r a)) b

-- After any committed entries, fewer than 2^63 and none of which crashes `Apply`, the head text is the replay of the revision log on the initial text, the
-- head revision is the length of the log, and each record bears its position.
pub run-IsConsistent :
    (init : Text) (m : Machine) (es : List RaftLogEntry)
    → length es < half
    → run (new_machine init) es ≡ ok m
    → IsConsistent init m
unfolding new_machine
run-IsConsistent init m es room h =
    run-IsConsistent_from init (new_machine init) m es (new_machine-IsConsistent init) (omega arith)
      h

revisions_since-drop :
    (m : Machine) (rev : ℕ)
    → rev ≤ length m.revision_log
    → length m.revision_log < half
    → revisions_since m rev ≡ ok (drop rev m.revision_log)
unfolding revisions_since
revisions_since-drop m rev h room = elim (Bool-cases (leb (length m.revision_log) rev)) [
  | inl end ↦ rw (
    le-small (length m.revision_log) rev room (omega arith),
    end,
    drop-all m.revision_log rev (leb→le (length m.revision_log) rev end),
  )
  | inr more ↦ rw (
    le-small (length m.revision_log) rev room (omega arith),
    more,
    le→leb rev (length m.revision_log) h,
  )
]

-- While the revisions are fewer than 2^63 and the head text is the replay of the log, as it is after any run,
-- a client that holds the text of a revision of the log reaches the head text by the records that
-- `RevisionsSince` returns for it.
pub revisions_since-reaches_head :
    (init : Text) (m : Machine) (rev : ℕ)
    → IsConsistent init m
    → rev ≤ length m.revision_log
    → length m.revision_log < half
    → (records : List RevisionRecord) × (text : Text) × (revisions_since m rev ≡ ok records)
      × (replay init (take rev m.revision_log) ≡ ok text)
      × (replay text records ≡ ok m.head_text)
revisions_since-reaches_head init m rev k h room =
    let split : replay init (take rev m.revision_log ++ drop rev m.revision_log) ≡ ok m.head_text =
      rw (take-append-drop rev m.revision_log) k.replays in
    let (text, before, after) =
      >>=-eq-ok (replay init (take rev m.revision_log)) (λ t. replay t (drop rev m.revision_log))
        (sym (replay-append init (take rev m.revision_log) (drop rev m.revision_log)) ∙ split) in
    (drop rev m.revision_log, text, revisions_since-drop m rev h room, before, after)
