-- ===== src/Base/Tables.antt =====
-- Tables by number.
use Prim.Native.Nat.{ℕ}
use mathlib.Core.Path.{◌≡◌}
use mathlib.Core.Logic.{◌≢◌, ◌⊎◌, inl, inr}
use native.Mathlib.Omega.{arith}
use claude_ds_project.Base.Tests.{◌==◌, if◌then◌else◌, Bool-cases}

-- The entry of one number is changed.
unfoldable pub set {ℓ} : {A : Type ℓ} → ℕ → A → (ℕ → A) → ℕ → A
set a x f b = if b == a then x else f b

pub set-same {ℓ} : {A : Type ℓ} (a : ℕ) (x : A) (f : ℕ → A) → set a x f a ≡ x
unfolding set
set-same a x f = ground arith

pub set-other {ℓ} : {A : Type ℓ} (a : ℕ) (x : A) (f : ℕ → A) (b : ℕ) → b ≢ a → set a x f b ≡ f b
unfolding set
set-other a x f b h = ground arith

pub number-cases : (a b : ℕ) → (a ≡ b) ⊎ (a ≢ b)
number-cases a b = elim (Bool-cases (a == b)) [
  | inl same ↦ inl (ground arith)
  | inr other ↦ inr (ground arith)
]

pub set-elim {ℓ κ} :
    {A : Type ℓ} (P : ℕ → A → Type κ) (a : ℕ) (x : A) (f : ℕ → A) (b : ℕ)
    → P a x
    → (b ≢ a → P b (f b))
    → P b (set a x f b)
set-elim P a x f b new old = elim (number-cases b a) [
  | inl same ↦ rw (same, set-same a x f) new
  | inr other ↦ rw (set-other a x f b other) (old other)
]
