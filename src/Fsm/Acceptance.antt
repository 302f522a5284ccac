-- ===== src/Fsm/Acceptance.antt =====
-- Which entries `Apply` commits, and which crash it.
use claude_ds_project.Base.{
  ℕ, zero, suc, ◌+◌, ◌≤◌, ◌<◌, ◌≡◌, refl, sym, ◌∙◌, some, false, List, [], ◌∷◌, ◌++◌, length, drop,
  arith,
}
use claude_ds_project.GoInt.{half, range}
use claude_ds_project.Outcome.{ok, panic}
use claude_ds_project.Ot.Changeset.{Text, Changeset}
use claude_ds_project.Ot.Apply.{apply_changeset}
use claude_ds_project.Ot.Apply.Laws.{apply_changeset-patch}
use claude_ds_project.Ot.Meaning.{patch, IsWellFormed}
use claude_ds_project.Fsm.{
  Machine, RaftLogEntry, RevisionRecord, is_duplicate_entry, catch_up, apply_entry,
  apply_transformed, finish, commit,
}
use claude_ds_project.Fsm.CatchUp.{
  rebase_all, catch_up-rebase_all, catch_up-negative, Chains, total_len, rebase_all-IsWellFormed,
}

-- The length of the text at a revision.
abbrev pub len_at : ℕ → List RevisionRecord → ℕ → ℕ
len_at n rs zero = n
len_at n [] (suc k) = n
len_at n (r ∷ rs) (suc k) = len_at r.changeset.new_len rs k

Chains-drop :
    (n last : ℕ) (rs : List RevisionRecord) (k : ℕ)
    → k ≤ length rs
    → Chains n rs last
    → Chains (len_at n rs k) (drop k rs) last
Chains-drop n last rs zero h c = c
Chains-drop n last [] (suc k) h c = elim h [ ]
Chains-drop n last (r ∷ rs) (suc k) h c =
    Chains-drop r.changeset.new_len last rs k (omega arith) c.2

-- The records lead by well-formed changesets from the initial text to the head.
pub record IsOrdered (init : Text) (m : Machine) : Type 0 where
  pub counts : m.head_rev ≡ length m.revision_log
  pub chains : Chains (length init) m.revision_log (length m.head_text)
  pub fits : length m.revision_log + 1 < half

-- An entry that a correct client sends: fresh, on a revision that exists, with a well-formed changeset
-- on the text of that revision, and with room for what is inserted since.
pub record IsAdmissible (init : Text) (m : Machine) (e : RaftLogEntry) : Type 0 where
  pub fresh : is_duplicate_entry m e ≡ false
  pub known : e.base_rev ≤ m.head_rev
  pub well_formed : IsWellFormed e.changeset
  pub based : e.changeset.old_len ≡ len_at (length init) m.revision_log e.base_rev
  pub room : e.changeset.new_len + total_len (drop e.base_rev m.revision_log) < half

-- What `Apply` has done with an entry that it commits.
pub record IsCommitted (init : Text) (m : Machine) (e : RaftLogEntry) (c : Changeset) (text : Text)
    : Type 0 where
  pub rebased : rebase_all (drop e.base_rev m.revision_log) e.changeset ≡ ok c
  pub applied : apply_changeset m.head_text c ≡ ok text
  pub returned : apply_entry m e ≡ ok ((commit m e c text).0, some (commit m e c text).1)
  pub ordered : Chains (length init) (commit m e c text).0.revision_log (length text)

Chains-append :
    (n mid : ℕ) (rs : List RevisionRecord) (r : RevisionRecord)
    → Chains n rs mid
    → IsWellFormed r.changeset
    → r.changeset.old_len ≡ mid
    → Chains n (rs ++ (r ∷ [])) r.changeset.new_len
Chains-append n mid [] r c w h = (w, h ∙ sym c, refl)
Chains-append n mid (x ∷ rs) r c w h =
    (c.0, c.1, Chains-append x.changeset.new_len mid rs r c.2 w h)

-- On a machine whose records lead by well-formed changesets to the head, every admissible entry is committed: rebased over the records since its base revision, applied to the
-- head text, recorded behind them and answered, and the records still lead to the head.
pub admissible-IsCommitted :
    (init : Text) (m : Machine) (e : RaftLogEntry)
    → IsOrdered init m
    → IsAdmissible init m e
    → (c : Changeset) × (text : Text) × IsCommitted init m e c text
unfolding apply_entry apply_transformed finish commit
admissible-IsCommitted init m e o a =
    let base : e.base_rev ≤ length m.revision_log = omega (arith, a.known, o.counts) in
    let (c, rebased, w, old) =
      rebase_all-IsWellFormed (drop e.base_rev m.revision_log)
        (len_at (length init) m.revision_log e.base_rev) (length m.head_text) e.changeset
        (Chains-drop (length init) (length m.head_text) m.revision_log e.base_rev base o.chains)
        a.well_formed a.based a.room in
    let (applied, long) = apply_changeset-patch m.head_text c w old in
    let looped : catch_up m.revision_log (suc m.head_rev) e.base_rev m.head_rev e.changeset ≡ ok c =
      rw o.counts (
        catch_up-rebase_all m.revision_log (suc (length m.revision_log)) e.base_rev e.changeset
          (omega (arith, o.fits)) base (omega arith)
        ∙ rebased) in
    (
      c,
      patch c.ops m.head_text,
      record {
        rebased = rebased;
        applied = applied;
        returned = rw (a.fresh, looped) (rw applied);
        ordered = rw long (
            Chains-append (length init) (length m.head_text) m.revision_log
              (record { rev_number = m.head_rev; changeset = c; source = e.client_id }) o.chains w
              old);
      },
    )

-- An entry that is not a repeated one and has a negative base revision crashes `Apply`, on every machine
-- whose head revision is the length of its log, below 2^63.
pub negative_base-panics :
    (m : Machine) (e : RaftLogEntry)
    → m.head_rev ≡ length m.revision_log
    → length m.revision_log < half
    → is_duplicate_entry m e ≡ false
    → half ≤ e.base_rev
    → e.base_rev < range
    → apply_entry m e ≡ panic
unfolding apply_entry apply_transformed
negative_base-panics m e k room fresh h l = rw (
  fresh,
  k,
  catch_up-negative m.revision_log (length m.revision_log) e.base_rev e.changeset room h l,
)
