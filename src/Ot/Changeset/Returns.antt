-- ===== src/Ot/Changeset/Returns.antt =====
-- Validate of internal/ot/changeset.go on any changeset.
use claude_ds_project.Base.{ℕ, ◌≡◌, ◌⊎◌, inl, inr, refl, List, [], ◌∷◌, Bool-cases, ◌==◌, length}
use claude_ds_project.GoInt
use claude_ds_project.Outcome.{
  Error, retain_not_positive, insert_empty, delete_not_positive, unknown_op, consumed_mismatch,
  produced_mismatch, Outcome, ok, err,
}
use claude_ds_project.Ot.Changeset.{
  Op, retain, insert, delete, unknown, Changeset, validate, validate_ops, check_lengths,
}

abbrev pub IsReturned {ℓ} : {A : Type ℓ} → Outcome A → Type ℓ
IsReturned {A = A} o = ((x : A) × (o ≡ ok x)) ⊎ ((e : Error) × (o ≡ err e))

validate_ops-returns : (ops : List Op) (p q : ℕ) → IsReturned (validate_ops ops p q)
unfolding validate_ops
validate_ops-returns [] p q = inl ((p, q), refl)
validate_ops-returns (retain n ∷ ops) p q = elim (Bool-cases (GoInt.le n 0)) [
  | inl bad ↦ inr (retain_not_positive, rw bad refl)
  | inr good ↦ rw good (validate_ops-returns ops (GoInt.add p n) (GoInt.add q n))
]
validate_ops-returns (insert s ∷ ops) p q = elim (Bool-cases (length s == 0)) [
  | inl bad ↦ inr (insert_empty, rw bad refl)
  | inr good ↦ rw good (validate_ops-returns ops p (GoInt.add q (length s)))
]
validate_ops-returns (delete n ∷ ops) p q = elim (Bool-cases (GoInt.le n 0)) [
  | inl bad ↦ inr (delete_not_positive, rw bad refl)
  | inr good ↦ rw good (validate_ops-returns ops (GoInt.add p n) q)
]
validate_ops-returns (unknown n ∷ ops) p q = inr (unknown_op, refl)

check_lengths-returns : (c : Changeset) (n : ℕ × ℕ) → IsReturned (check_lengths c n)
unfolding check_lengths
check_lengths-returns c (p, q) = elim (Bool-cases (p == c.old_len)) [
  | inl same ↦ elim (Bool-cases (q == c.new_len)) [
    | inl same' ↦ inl (tt, rw (same, same') refl)
    | inr other ↦ inr (produced_mismatch, rw (same, other) refl)
  ]
  | inr other ↦ inr (consumed_mismatch, rw other refl)
]

-- Validate never panics.
pub validate-returns : (c : Changeset) → IsReturned (validate c)
unfolding validate
validate-returns c = elim (validate_ops-returns c.ops 0 0) [
  | inl good ↦ rw good.1 (check_lengths-returns c good.0)
  | inr bad ↦ inr (bad.0, rw bad.1 refl)
]
