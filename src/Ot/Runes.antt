-- ===== src/Ot/Runes.antt =====
-- The conversions between a Go string and its runes, `[]rune(s)` and `string(r)`, which DiffToChangeset of
-- internal/ot/diff.go uses: UTF-8, with U+FFFD for what is not.
use claude_ds_project.Base.{
  ℕ, zero, suc, ◌+◌, ◌-◌, ◌*◌, ◌/◌, ◌%◌, List, [], ◌∷◌, Bool, ◌&&◌, ltb, leb, ◌==◌, if◌then◌else◌,
  length,
}
use claude_ds_project.Ot.Changeset.{Text}

abbrev pub replacement : ℕ
replacement = 65533

-- string(r)
unfoldable pub string_of : ℕ → Text
string_of r =
    if ltb r 128
    then r ∷ []
    else if ltb r 2048
    then (192 + r / 64) ∷ (128 + r % 64) ∷ []
    else if leb 55296 r && leb r 57343
    then 239 ∷ 191 ∷ 189 ∷ []
    else if ltb r 65536
    then (224 + r / 4096) ∷ (128 + r / 64 % 64) ∷ (128 + r % 64) ∷ []
    else if ltb r 1114112
    then (240 + r / 262144) ∷ (128 + r / 4096 % 64) ∷ (128 + r / 64 % 64) ∷ (128 + r % 64) ∷ []
    else 239 ∷ 191 ∷ 189 ∷ []

abbrev pub within : ℕ → ℕ → ℕ → Bool
within lo hi b = leb lo b && leb b hi

-- What follows the first byte of two, three and four; the second byte is in a range.
abbrev two : ℕ → Text → ℕ × Text
two a (b ∷ rest) =
    if within 128 191 b then ((a - 192) * 64 + (b - 128), rest) else (replacement, b ∷ rest)
two a [] = (replacement, [])

abbrev three : ℕ → ℕ → ℕ → Text → ℕ × Text
three a lo hi (b ∷ c ∷ rest) =
    if within lo hi b && within 128 191 c
    then ((a - 224) * 4096 + (b - 128) * 64 + (c - 128), rest)
    else (replacement, b ∷ c ∷ rest)
three a lo hi rest = (replacement, rest)

abbrev four : ℕ → ℕ → ℕ → Text → ℕ × Text
four a lo hi (b ∷ c ∷ d ∷ rest) =
    if within lo hi b && within 128 191 c && within 128 191 d
    then ((a - 240) * 262144 + (b - 128) * 4096 + (c - 128) * 64 + (d - 128), rest)
    else (replacement, b ∷ c ∷ d ∷ rest)
four a lo hi rest = (replacement, rest)

-- The first rune of a string, and what is behind it.
unfoldable pub next_rune : ℕ → Text → ℕ × Text
next_rune a rest =
    if ltb a 128
    then (a, rest)
    else if within 194 223 a
    then two a rest
    else if a == 224
    then three a 160 191 rest
    else if a == 237
    then three a 128 159 rest
    else if within 225 239 a
    then three a 128 191 rest
    else if a == 240
    then four a 144 191 rest
    else if within 241 243 a
    then four a 128 191 rest
    else if a == 244
    then four a 128 143 rest
    else (replacement, rest)

-- The loop over a string, which takes at least a byte a round.
unfoldable pub runes_from : ℕ → Text → List ℕ
unfolding next_rune
runes_from zero text = []
runes_from (suc fuel) [] = []
runes_from (suc fuel) (b ∷ text) = let (r, rest) = next_rune b text in r ∷ runes_from fuel rest

-- []rune(s)
unfoldable pub runes : Text → List ℕ
unfolding runes_from
runes text = runes_from (length text) text
