-- ===== src/Ot/Compose/Laws.antt =====
-- What `Compose` promises of well-formed changesets.
use claude_ds_project.Base.{suc, ◌+◌, ◌<◌, ◌≡◌, refl, ap, sym, ◌∙◌, List, [], ◌∷◌, length, arith}
use mathlib.Core.List.{reverse}
use claude_ds_project.GoInt.{half}
use claude_ds_project.Outcome.{ok, ◌>>=◌}
use claude_ds_project.Ot.Changeset.{Text, Op, retain, insert, delete, unknown, Changeset}
use claude_ds_project.Ot.Apply.{apply_changeset}
use claude_ds_project.Ot.Apply.Laws.{apply_changeset-patch}
use claude_ds_project.Ot.Meaning.{patch, consumed, produced, AllProper, IsWellFormed}
use claude_ds_project.Ot.Cursor.{cursor, weight}
use claude_ds_project.Ot.Cursor.Laws.{AllSound, Shows-start}
use claude_ds_project.Ot.Cursor.Merge.{
  add_all, patch-add_all, consumed-add_all, produced-add_all, add_all-AllProper, consumed-reverse,
  produced-reverse, reverse-AllProper,
}
use claude_ds_project.Ot.Compose.{compose}
use claude_ds_project.Ot.Compose.Relation.{
  Composes, Composes-patch, Composes-consumed, Composes-produced, Composes-AllProper,
}
use claude_ds_project.Ot.Compose.Loop.{compose_loop-Ends}

pub AllProper-AllSound :
    (ops : List Op) → AllProper ops → consumed ops < half → produced ops < half → AllSound ops
AllProper-AllSound [] p h k = tt
AllProper-AllSound (retain n ∷ ops) p h k =
    ((p.0, omega arith), AllProper-AllSound ops p.1 (omega arith) (omega arith))
AllProper-AllSound (insert s ∷ ops) p h k =
    ((p.0, omega arith), AllProper-AllSound ops p.1 (omega arith) (omega arith))
AllProper-AllSound (delete n ∷ ops) p h k =
    ((p.0, omega arith), AllProper-AllSound ops p.1 (omega arith) (omega arith))
AllProper-AllSound (unknown n ∷ ops) p h k = absurd p.0

pub IsWellFormed-AllSound : (c : Changeset) → IsWellFormed c → AllSound c.ops
IsWellFormed-AllSound c w =
    AllProper-AllSound c.ops w.proper (omega (arith, w.consumes, w.old_fits))
      (omega (arith, w.produces, w.new_fits))

-- The result of a loop: the operations that it added, in the order of the text.
pub record IsBuilt (ops built : List Op) : Type 0 where
  pub same : (doc : Text) → patch built doc ≡ patch ops doc
  pub consumes : consumed built ≡ consumed ops
  pub produces : produced built ≡ produced ops
  pub proper : AllProper ops → AllProper built

pub add_all-IsBuilt : (ops : List Op) → consumed ops < half → IsBuilt ops (reverse (add_all ops []))
add_all-IsBuilt ops h = record {
  same = patch-add_all ops [] (omega arith);
  consumes = omega (arith, consumed-reverse (add_all ops []), consumed-add_all ops []);
  produces = omega (arith, produced-reverse (add_all ops []), produced-add_all ops []);
  proper = λ p. reverse-AllProper (add_all ops []) (add_all-AllProper ops [] (omega arith) p tt);
}

pub record IsComposition (a b c : Changeset) : Type 0 where
  pub well_formed : IsWellFormed c
  pub old_len : c.old_len ≡ a.old_len
  pub new_len : c.new_len ≡ b.new_len
  pub applies :
      (doc : Text)
      → length doc ≡ a.old_len
      → apply_changeset doc c ≡ (apply_changeset doc a >>= λ mid. apply_changeset mid b)

abbrev built : Changeset → Changeset → List Op → Changeset
built a b ops = record { old_len = a.old_len; new_len = b.new_len; ops = reverse (add_all ops []) }

module _ (a b : Changeset) (wa : IsWellFormed a) (wb : IsWellFormed b)
    (meet : a.new_len ≡ b.old_len) where
  built-IsWellFormed : (ops : List Op) → Composes a.ops b.ops ops → IsWellFormed (built a b ops)
  built-IsWellFormed ops r =
      let old : consumed ops ≡ a.old_len = Composes-consumed r ∙ wa.consumes in
      let k = add_all-IsBuilt ops (omega (arith, wa.old_fits)) in
      record {
        proper = k.proper (Composes-AllProper r wa.proper wb.proper);
        consumes = k.consumes ∙ old;
        produces = k.produces ∙ Composes-produced r ∙ wb.produces;
        old_fits = wa.old_fits;
        new_fits = wb.new_fits;
      }

  built-applies :
      (ops : List Op)
      → Composes a.ops b.ops ops
      → (doc : Text) → length doc ≡ a.old_len
      → apply_changeset doc (built a b ops)
        ≡ (apply_changeset doc a >>= λ mid. apply_changeset mid b)
  built-applies ops r doc h =
      let old : consumed ops ≡ a.old_len = Composes-consumed r ∙ wa.consumes in
      let k = add_all-IsBuilt ops (omega (arith, wa.old_fits)) in
      let first = apply_changeset-patch doc a wa (sym h) in
      let second = apply_changeset-patch (patch a.ops doc) b wb (omega (arith, first.1)) in
      let at_once = apply_changeset-patch doc (built a b ops) (built-IsWellFormed ops r) (sym h) in
      rw (first.0, second.0, at_once.0)
        (ap ok (k.same doc ∙ Composes-patch r doc (omega (arith, wa.consumes))))

  -- Of well-formed changesets that follow one another `Compose` returns one well-formed changeset, from
  -- the old length of the first to the new length of the second, that does to every document of that
  -- length what applying the two in turn does.
  pub compose-IsComposition : (c : Changeset) × (compose a b ≡ ok c) × IsComposition a b c
  unfolding compose
  compose-IsComposition =
      let (ops, r, ended) =
        compose_loop-Ends (suc (weight a.ops + weight b.ops)) (cursor a.ops 0) (cursor b.ops 0) []
          a.ops b.ops (Shows-start a.ops (IsWellFormed-AllSound a wa))
          (Shows-start b.ops (IsWellFormed-AllSound b wb)) (omega arith)
          (omega (arith, wa.produces, wb.consumes)) in
      (
        built a b ops,
        rw ended,
        record {
          well_formed = built-IsWellFormed ops r;
          old_len = refl;
          new_len = refl;
          applies = built-applies ops r;
        },
      )
