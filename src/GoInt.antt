-- ===== src/GoInt.antt =====
-- Go's `int` and `int64`: a value is its 64-bit two's complement pattern, a number below `range`, and
-- the patterns from `half` up stand for the negative values. Sums wrap; orders are signed.
use claude_ds_project.Base.{ℕ, ◌+◌, ◌-◌, ◌%◌, ◌≤◌, ◌<◌, ◌≡◌, Bool, true, not, ltb, leb, arith}

abbrev pub half : ℕ
half = 9223372036854775808

abbrev pub range : ℕ
range = 18446744073709551616

-- The pattern of -k.
abbrev pub neg : ℕ → ℕ
neg k = (range - k) % range

unfoldable pub add : ℕ → ℕ → ℕ
add a b = (a + b) % range

unfoldable pub sub : ℕ → ℕ → ℕ
sub a b = (a + range - b) % range

unfoldable pub lt : ℕ → ℕ → Bool
lt a b = ltb ((a + half) % range) ((b + half) % range)

unfoldable pub le : ℕ → ℕ → Bool
unfolding lt
le a b = not (lt b a)

pub add-small : (a b : ℕ) → a + b < range → add a b ≡ a + b
unfolding add
add-small a b h = omega arith

pub sub-small : (a b : ℕ) → b ≤ a → a < half → sub a b ≡ a - b
unfolding sub
sub-small a b h k = omega arith

pub lt-small : (a b : ℕ) → a < half → b < half → lt a b ≡ ltb a b
unfolding lt
lt-small a b h k = ground arith

pub le-small : (a b : ℕ) → a < half → b < half → le a b ≡ leb a b
unfolding le
le-small a b h k = ground arith

-- A negative value is below every other.
pub lt-neg : (a b : ℕ) → half ≤ a → a < range → b < half → lt a b ≡ true
unfolding lt
lt-neg a b h k l = ground arith
