-- ===== src/Raft/Safety/Count.antt =====
-- Counting the members of a list of names, and tables that are changed at one name.
use claude_ds_project.Base.{
  ℕ, suc, ◌+◌, ◌≤◌, ◌<◌, ◌≡◌, ◌≢◌, ◌⊎◌, inl, inr, refl, List, [], ◌∷◌, Bool, true, false,
  Bool-cases, if◌then◌else◌, length, arith,
}
use Prim.Native.String.{String}
use text.Mathlib.Text.{◌==◌ as str_eq}
use text.Mathlib.TextEquality.{eq_iff}

-- The entry of one name is changed.
unfoldable pub set_at {ℓ} : {A : Type ℓ} → String → A → (String → A) → String → A
set_at i x f j = if str_eq j i then x else f j

pub set_at-same {ℓ} : {A : Type ℓ} (i : String) (x : A) (f : String → A) → set_at i x f i ≡ x
unfolding set_at
set_at-same i x f = rw ((eq_iff i i).1 refl) refl

pub set_at-other {ℓ} :
    {A : Type ℓ} (i : String) (x : A) (f : String → A) (j : String) → j ≢ i → set_at i x f j ≡ f j
unfolding set_at
set_at-other i x f j h = elim (Bool-cases (str_eq j i)) [
  | inl same ↦ absurd (h ((eq_iff j i).0 same))
  | inr other ↦ rw other refl
]

pub name-cases : (j i : String) → (j ≡ i) ⊎ (j ≢ i)
name-cases j i = elim (Bool-cases (str_eq j i)) [
  | inl same ↦ inl ((eq_iff j i).0 same)
  | inr other ↦ inr (λ h. ground (arith, (eq_iff j i).1 h))
]

-- What holds of the new entry at its name, and of the old ones at the others, holds of the changed table.
pub set_at-elim {ℓ κ} :
    {A : Type ℓ} (P : String → A → Type κ) (i : String) (x : A) (f : String → A) (j : String)
    → P i x
    → (j ≢ i → P j (f j))
    → P j (set_at i x f j)
set_at-elim P i x f j new old = elim (name-cases j i) [
  | inl same ↦ rw (same, set_at-same i x f) new
  | inr other ↦ rw (set_at-other i x f j other) (old other)
]

abbrev pub IsAmong : String → List String → Type 0
IsAmong v [] = ⊥
IsAmong v (p ∷ ps) = (p ≡ v) ⊎ IsAmong v ps

-- How many members of a list a test accepts.
unfoldable pub count : (String → Bool) → List String → ℕ
count h [] = 0
count h (p ∷ ps) = let rest = count h ps in if h p then suc rest else rest

count-set-le :
    (h : String → Bool) (v : String) (ps : List String) → count h ps ≤ count (set_at v true h) ps
unfolding count set_at
count-set-le h v [] = omega arith
count-set-le h v (p ∷ ps) = ground (arith, count-set-le h v ps)

-- One more name, of the list, is accepted.
pub count-set :
    (h : String → Bool) (v : String) (ps : List String)
    → IsAmong v ps
    → h v ≡ false
    → suc (count h ps) ≤ count (set_at v true h) ps
unfolding count set_at
count-set h v [] among new = elim among [ ]
count-set h v (p ∷ ps) (inl here) new =
    rw (here, new, (eq_iff v v).1 refl) (omega (arith, count-set-le h v ps))
count-set h v (p ∷ ps) (inr there) new = ground (arith, count-set h v ps there new)

-- Two tests that accept more than the length of a list in sum accept a member in common.
pub count_shared :
    (h k : String → Bool) (ps : List String)
    → length ps < count h ps + count k ps
    → (p : String) × (h p ≡ true) × (k p ≡ true)
unfolding count
count_shared h k [] few = absurd (omega arith)
count_shared h k (p ∷ ps) few = elim (Bool-cases (h p)) [
  | inr refused ↦ count_shared h k ps (ground arith)
  | inl first ↦ elim (Bool-cases (k p)) [
    | inl second ↦ (p, first, second)
    | inr refused ↦ count_shared h k ps (ground arith)
  ]
]
