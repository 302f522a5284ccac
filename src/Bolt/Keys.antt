-- ===== src/Bolt/Keys.antt =====
-- Numbers as keys of a bucket (internal/store/boltstore.go), and the order of keys.
use claude_ds_project.Base.{
  ℕ, zero, suc, ◌+◌, ◌*◌, ◌/◌, ◌%◌, ◌<◌, ◌≡◌, inl, inr, refl, sym, ◌∙◌, ap, [], ◌∷◌, ◌++◌, Bool,
  true, false, Bool-cases, ltb, ltb→lt, ltb→le, lt→ltb, le→ltb, ◌==◌, if◌then◌else◌, length,
  length-append, arith,
}
use claude_ds_project.Raft.Transport.{Bytes}
use claude_ds_project.Bolt.{big_endian, digits, uint64_to_bytes, bytes_to_uint64}

-- The order of keys in a bucket: bytes.Compare.
unfoldable pub before : Bytes → Bytes → Bool
before [] [] = false
before [] (y ∷ ys) = true
before (x ∷ xs) [] = false
before (x ∷ xs) (y ∷ ys) =
    let rest = before xs ys in if ltb x y then true else if x == y then rest else false

-- 256 to a power.
unfoldable pub bound : ℕ → ℕ
bound zero = 1
bound (suc width) = bound width * 256

pub length-big_endian : (width v : ℕ) → length (big_endian width v) ≡ width
unfolding big_endian
length-big_endian zero v = refl
length-big_endian (suc width) v =
    length-append (big_endian width (v / 256)) (v % 256 ∷ [])
    ∙ omega (arith, length-big_endian width (v / 256))

digits-append : (v : ℕ) (bs : Bytes) (b : ℕ) → digits v (bs ++ (b ∷ [])) ≡ digits v bs * 256 + b
unfolding digits
digits-append v [] b = refl
digits-append v (x ∷ bs) b = digits-append (v * 256 + x) bs b

digits-big_endian : (width v : ℕ) → v < bound width → digits 0 (big_endian width v) ≡ v
unfolding big_endian digits bound
digits-big_endian zero v h = omega arith
digits-big_endian (suc width) v h =
    digits-append 0 (big_endian width (v / 256)) (v % 256)
    ∙ omega (arith, digits-big_endian width (v / 256) (omega arith))

pub before-irreflexive : (xs : Bytes) → before xs xs ≡ false
unfolding before
before-irreflexive [] = refl
before-irreflexive (x ∷ xs) = ground (arith, before-irreflexive xs)

module _ (a b : ℕ) where
  before-last : (xs : Bytes) → before (xs ++ (a ∷ [])) (xs ++ (b ∷ [])) ≡ ltb a b
  unfolding before
  before-last [] = ground arith
  before-last (x ∷ xs) = ground (arith, before-last xs)

  before-front :
      (xs ys : Bytes)
      → length xs ≡ length ys
      → before xs ys ≡ true
      → before (xs ++ (a ∷ [])) (ys ++ (b ∷ [])) ≡ true
  unfolding before
  before-front [] [] e h = cc
  before-front [] (y ∷ ys) e h = absurd (omega (arith, e))
  before-front (x ∷ xs) [] e h = absurd (omega (arith, e))
  before-front (x ∷ xs) (y ∷ ys) e h = ground (arith, before-front xs ys (omega (arith, e)))

  before-behind :
      (xs ys : Bytes)
      → length xs ≡ length ys
      → before ys xs ≡ true
      → before (xs ++ (a ∷ [])) (ys ++ (b ∷ [])) ≡ false
  unfolding before
  before-behind [] [] e h = cc
  before-behind [] (y ∷ ys) e h = absurd (omega (arith, e))
  before-behind (x ∷ xs) [] e h = absurd (omega (arith, e))
  before-behind (x ∷ xs) (y ∷ ys) e h = ground (arith, before-behind xs ys (omega (arith, e)))

before-big_endian :
    (width u v : ℕ)
    → u < bound width
    → v < bound width
    → before (big_endian width u) (big_endian width v) ≡ ltb u v
unfolding big_endian bound before
before-big_endian zero u v h k = sym (le→ltb u v (omega arith))
before-big_endian (suc width) u v h k =
    let here = before-big_endian width (u / 256) (v / 256) (omega arith) (omega arith) in
    let back = before-big_endian width (v / 256) (u / 256) (omega arith) (omega arith) in
    let same = length-big_endian width (u / 256) ∙ sym (length-big_endian width (v / 256)) in
    elim (Bool-cases (ltb (u / 256) (v / 256))) [
      | inl less ↦
          before-front (u % 256) (v % 256) (big_endian width (u / 256)) (big_endian width (v / 256))
            same (here ∙ less)
          ∙ sym (lt→ltb u v (let f = ltb→lt (u / 256) (v / 256) less in omega arith))
      | inr not_less ↦ elim (Bool-cases (ltb (v / 256) (u / 256))) [
        | inl more ↦
            before-behind (u % 256) (v % 256) (big_endian width (u / 256))
              (big_endian width (v / 256)) same (back ∙ more)
            ∙ sym (le→ltb u v (let f = ltb→lt (v / 256) (u / 256) more in omega arith))
        | inr not_more ↦
            let low = ltb→le (u / 256) (v / 256) not_less in
            let high = ltb→le (v / 256) (u / 256) not_more in
            let e : u / 256 ≡ v / 256 = omega arith in
            rw e (before-last (u % 256) (v % 256) (big_endian width (v / 256)) ∙ ground arith)
      ]
    ]

abbrev pub limit : ℕ
limit = 18446744073709551616

-- A uint64 is read back from its key.
pub bytes_to_uint64-uint64_to_bytes : (v : ℕ) → v < limit → bytes_to_uint64 (uint64_to_bytes v) ≡ v
unfolding bytes_to_uint64 uint64_to_bytes bound
bytes_to_uint64-uint64_to_bytes v h = digits-big_endian 8 v h

-- The keys of two uint64 are in byte order as the numbers are in theirs, and are equal only when the numbers
-- are.
pub before-uint64_to_bytes :
    (u v : ℕ)
    → u < limit
    → v < limit
    → (before (uint64_to_bytes u) (uint64_to_bytes v) ≡ ltb u v)
      × (uint64_to_bytes u ≡ uint64_to_bytes v → u ≡ v)
unfolding uint64_to_bytes bound
before-uint64_to_bytes u v h k = (
  before-big_endian 8 u v h k,
  λ e.
      sym (bytes_to_uint64-uint64_to_bytes u h)
      ∙ ap bytes_to_uint64 e
      ∙ bytes_to_uint64-uint64_to_bytes v k,
)
