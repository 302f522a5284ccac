-- ===== src/Ot/Changeset/Laws.antt =====
-- The constructors of changesets and `Validate`.
use claude_ds_project.Base.{ℕ, ◌+◌, ◌<◌, ◌≡◌, ◌↔◌, ◌∙◌, List, [], ◌∷◌, length, lt→leb, arith}
use claude_ds_project.GoInt
use claude_ds_project.GoInt.{half, add-small, sub-small, lt-small, le-small}
use claude_ds_project.Outcome.{ok, >>=-eq-ok}
use claude_ds_project.Ot.Changeset.{
  Op, retain, insert, delete, unknown, Changeset, validate, validate_ops, check_lengths,
}
use claude_ds_project.Ot.Meaning.{consumed, produced, AllProper, IsWellFormed}

-- The totals of the loop, while no sum leaves the range of an `int`.
validate_ops-ok :
    (ops : List Op) (p q : ℕ)
    → p + consumed ops < half
    → q + produced ops < half
    → AllProper ops
    → validate_ops ops p q ≡ ok (p + consumed ops, q + produced ops)
unfolding validate_ops
validate_ops-ok [] p q h k a = ground arith
validate_ops-ok (retain n ∷ ops) p q h k a =
    rw
      (
        le-small n 0 (omega arith) (omega arith),
        lt→leb n 0 a.0,
        add-small p n (omega arith),
        add-small q n (omega arith),
      )
      (validate_ops-ok ops (p + n) (q + n) (omega arith) (omega arith) a.1 ∙ ground arith)
validate_ops-ok (insert s ∷ ops) p q h k a =
    rw (add-small q (length s) (omega arith))
      (ground (arith, validate_ops-ok ops p (q + length s) (omega arith) (omega arith) a.1))
validate_ops-ok (delete n ∷ ops) p q h k a =
    rw (le-small n 0 (omega arith) (omega arith), lt→leb n 0 a.0, add-small p n (omega arith))
      (validate_ops-ok ops (p + n) q (omega arith) (omega arith) a.1 ∙ ground arith)
validate_ops-ok (unknown n ∷ ops) p q h k a = absurd a.0

-- An operation that is not proper stops the loop, whatever the totals.
validate_ops-AllProper :
    (ops : List Op) (p q : ℕ) (r : ℕ × ℕ)
    → consumed ops < half
    → validate_ops ops p q ≡ ok r
    → AllProper ops
unfolding validate_ops
validate_ops-AllProper [] p q r h e = tt
validate_ops-AllProper (retain n ∷ ops) p q r h e = (
  ground (arith, le-small n 0),
  validate_ops-AllProper ops (GoInt.add p n) (GoInt.add q n) r (omega arith) (ground arith),
)
validate_ops-AllProper (insert s ∷ ops) p q r h e = (
  ground arith,
  validate_ops-AllProper ops p (GoInt.add q (length s)) r (omega arith) (ground arith),
)
validate_ops-AllProper (delete n ∷ ops) p q r h e = (
  ground (arith, le-small n 0),
  validate_ops-AllProper ops (GoInt.add p n) q r (omega arith) (ground arith),
)
validate_ops-AllProper (unknown n ∷ ops) p q r h e = cc

-- `Validate` accepts every well-formed changeset.
pub validate_complete : (c : Changeset) → IsWellFormed c → validate c ≡ ok tt
unfolding validate
validate_complete c w =
    rw
      (validate_ops-ok c.ops 0 0 (omega (arith, w.consumes, w.old_fits))
        (omega (arith, w.produces, w.new_fits)) w.proper)
      (ground (arith, w.consumes, w.produces))

validate-AllProper : (c : Changeset) → consumed c.ops < half → validate c ≡ ok tt → AllProper c.ops
unfolding validate
validate-AllProper c h e =
    let (r, f, _) = >>=-eq-ok (validate_ops c.ops 0 0) (check_lengths c) e in
    validate_ops-AllProper c.ops 0 0 r h f

validate-lengths :
    (c : Changeset)
    → consumed c.ops < half
    → produced c.ops < half
    → AllProper c.ops
    → validate c ≡ ok tt
    → (consumed c.ops ≡ c.old_len) × (produced c.ops ≡ c.new_len)
unfolding validate
validate-lengths c h k p e =
    let f = rw (validate_ops-ok c.ops 0 0 (omega arith) (omega arith) p) at e in
    (ground arith, ground arith)

-- While the totals fit an `int`, `Validate` accepts exactly the well-formed changesets.
pub validate-iff-IsWellFormed :
    (c : Changeset)
    → consumed c.ops < half
    → produced c.ops < half
    → (validate c ≡ ok tt) ↔ IsWellFormed c
validate-iff-IsWellFormed c h k = (accepted, complete)
  where
    accepted : validate c ≡ ok tt → IsWellFormed c
    accepted e =
        let p = validate-AllProper c h e in
        let (old, new) = validate-lengths c h k p e in
        record {
          proper = p;
          consumes = old;
          produces = new;
          old_fits = omega arith;
          new_fits = omega arith;
        }

    complete : IsWellFormed c → validate c ≡ ok tt
    complete w = validate_complete c w
