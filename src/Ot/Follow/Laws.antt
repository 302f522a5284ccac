-- ===== src/Ot/Follow/Laws.antt =====
-- What `Follow` promises of well-formed changesets on one document.
use claude_ds_project.Base.{ℕ, suc, ◌+◌, ◌≤◌, ◌<◌, ◌≡◌, refl, ap, sym, ◌∙◌, List, [], length, arith}
use mathlib.Core.List.{reverse}
use claude_ds_project.GoInt.{half}
use claude_ds_project.Outcome.{ok, ◌>>=◌}
use claude_ds_project.Ot.Changeset.{Text, Op, Changeset}
use claude_ds_project.Ot.Apply.{apply_changeset}
use claude_ds_project.Ot.Apply.Laws.{apply_changeset-patch}
use claude_ds_project.Ot.Meaning.{patch, consumed, produced, IsWellFormed}
use claude_ds_project.Ot.Cursor.{cursor, weight}
use claude_ds_project.Ot.Cursor.Laws.{Shows-start}
use claude_ds_project.Ot.Cursor.Merge.{add_all}
use claude_ds_project.Ot.Compose.Laws.{add_all-IsBuilt, IsWellFormed-AllSound}
use claude_ds_project.Ot.Follow.{follow, follow_loop, Draft}
use claude_ds_project.Ot.Follow.Loop.{extend}
use claude_ds_project.Ot.Follow.Relation.{
  Rebases, Rebases-consumed, Rebases-produced, Rebases-AllProper, Diamond-patch, Diamond-Rebases,
}
use claude_ds_project.Ot.Follow.OneSide
use claude_ds_project.Ot.Follow.Joint
use claude_ds_project.Ot.Follow.Joint.{NoAdjacent}

abbrev built : Changeset → List Op → Changeset
built a ops = record { old_len = a.new_len; new_len = produced ops; ops = reverse (add_all ops []) }

-- The changesets are well-formed, on one source, and there is room for the merged text.
pub record AreSiblings (a b : Changeset) : Type 0 where
  pub first : IsWellFormed a
  pub second : IsWellFormed b
  pub same : a.old_len ≡ b.old_len
  pub fits : a.new_len + b.new_len < half

built-IsWellFormed :
    (a b : Changeset) (ops : List Op)
    → AreSiblings a b
    → Rebases a.ops b.ops ops
    → IsWellFormed (built a ops)
built-IsWellFormed a b ops h r =
    let old : consumed ops ≡ a.new_len = Rebases-consumed r ∙ h.first.produces in
    let k = add_all-IsBuilt ops (omega (arith, h.first.new_fits)) in
    record {
      proper = k.proper (Rebases-AllProper r h.first.proper h.second.proper);
      consumes = k.consumes ∙ old;
      produces = k.produces;
      old_fits = h.first.new_fits;
      new_fits = omega (arith, Rebases-produced r, h.first.produces, h.second.produces, h.fits);
    }

abbrev start : Draft
start = record { ops = []; new_len = 0 }

follow_of_ended :
    (a b : Changeset) (ops : List Op) (fuel : ℕ)
    → suc (weight a.ops + weight b.ops) ≡ fuel
    → follow_loop fuel (cursor a.ops 0) (cursor b.ops 0) start ≡ ok (extend ops start)
    → follow a b ≡ ok (built a ops)
unfolding follow extend
follow_of_ended a b ops fuel f e =
    rw (f, e)
      (λ i.
        ok (record { old_len = a.new_len; new_len = counted i; ops = reverse (add_all ops []) }))
  where
    counted : 0 + produced ops ≡ produced ops
    counted = omega arith

-- Of well-formed changesets on documents of one length, with new lengths that together fit an `int`, `Follow`
-- returns a well-formed changeset on the text that the first makes, of a new length that is at most their sum.
pub follow-IsWellFormed :
    (a b : Changeset)
    → AreSiblings a b
    → (c : Changeset) × (follow a b ≡ ok c)
      × IsWellFormed c
      × (c.old_len ≡ a.new_len)
      × (c.new_len ≤ a.new_len + b.new_len)
follow-IsWellFormed a b h =
    let (ops, r, ended) =
      OneSide.follow_loop-Ends (suc (weight a.ops + weight b.ops)) (cursor a.ops 0) (cursor b.ops 0)
        start a.ops b.ops (Shows-start a.ops (IsWellFormed-AllSound a h.first))
        (Shows-start b.ops (IsWellFormed-AllSound b h.second)) (omega arith)
        (omega (arith, h.first.consumes, h.second.consumes, h.same))
        (omega (arith, h.first.produces, h.second.produces, h.fits)) in
    (
      built a ops,
      follow_of_ended a b ops (suc (weight a.ops + weight b.ops)) refl ended,
      built-IsWellFormed a b ops h r,
      refl,
      omega (arith, Rebases-produced r, h.first.produces, h.second.produces),
    )

-- Both orders of two changesets reach one text.
pub record IsConvergence (a b b' a' : Changeset) : Type 0 where
  pub second_after : follow a b ≡ ok b'
  pub first_after : follow b a ≡ ok a'
  pub meets :
      (doc : Text)
      → length doc ≡ a.old_len
      → (apply_changeset doc a >>= λ mid. apply_changeset mid b')
        ≡ (apply_changeset doc b >>= λ mid. apply_changeset mid a')

siblings_swap : {a b : Changeset} → AreSiblings a b → AreSiblings b a
siblings_swap h = record {
  first = h.second;
  second = h.first;
  same = sym h.same;
  fits = omega (arith, h.fits);
}

apply_twice :
    (a b : Changeset) (ops : List Op) (doc : Text)
    → AreSiblings a b
    → Rebases a.ops b.ops ops
    → length doc ≡ a.old_len
    → (apply_changeset doc a >>= λ mid. apply_changeset mid (built a ops))
      ≡ ok (patch ops (patch a.ops doc))
apply_twice a b ops doc h r e =
    let first = apply_changeset-patch doc a h.first (sym e) in
    let w = built-IsWellFormed a b ops h r in
    let second = apply_changeset-patch (patch a.ops doc) (built a ops) w (sym first.1) in
    let k =
      add_all-IsBuilt ops (omega (arith, Rebases-consumed r, h.first.produces, h.first.new_fits)) in
    rw (first.0, second.0) (ap ok (k.same (patch a.ops doc)))

-- On well-formed changesets of one old length, with no two insertions in a row and with new lengths that
-- together fit an `int`, both runs of `Follow` return, and
-- applying the first changeset and then the second rebased gives the text that the second and then the
-- first rebased give, on every document of their old length.
pub follow-IsConvergence :
    (a b : Changeset)
    → AreSiblings a b
    → NoAdjacent a.ops
    → NoAdjacent b.ops
    → (b' a' : Changeset) × IsConvergence a b b' a'
follow-IsConvergence a b h na nb =
    let (ops, ops', z, p, q) =
      Joint.follow_loop-Ends (suc (weight a.ops + weight b.ops)) (cursor a.ops 0) (cursor b.ops 0)
        start start a.ops b.ops (Shows-start a.ops (IsWellFormed-AllSound a h.first))
        (Shows-start b.ops (IsWellFormed-AllSound b h.second)) na nb (omega arith)
        (omega (arith, h.first.consumes, h.second.consumes, h.same))
        (
          omega (arith, h.first.produces, h.second.produces, h.fits),
          omega (arith, h.first.produces, h.second.produces, h.fits),
        ) in
    let (r, r') = Diamond-Rebases z in
    (
      built a ops,
      built b ops',
      record {
        second_after = follow_of_ended a b ops (suc (weight a.ops + weight b.ops)) refl p;
        first_after = follow_of_ended b a ops' (suc (weight a.ops + weight b.ops)) (omega arith) q;
        meets = λ doc e.
            apply_twice a b ops doc h r e
            ∙ ap ok (Diamond-patch z doc (omega (arith, e, h.first.consumes)))
            ∙ sym (apply_twice b a ops' doc (siblings_swap h) r' (e ∙ h.same));
      },
    )
