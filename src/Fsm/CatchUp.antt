-- ===== src/Fsm/CatchUp.antt =====
-- The transformation loop of `Apply`: the changeset rebased over the records from its base revision on.
use claude_ds_project.Base.{
  ℕ, zero, suc, ◌+◌, ◌≤◌, ◌<◌, ◌≡◌, refl, ap, sym, ◌∙◌, none, List, [], ◌∷◌, length, get_elem?,
  drop, drop-all, drop-get_elem?, Bool-cases, inl, inr, ltb, ltb→lt, ltb→le, arith,
}
use claude_ds_project.GoInt.{half, range, add-small, lt-small, lt-neg}
use claude_ds_project.Outcome.{Outcome, ok, panic, ◌>>=◌, >>=_congr}
use claude_ds_project.Ot.Changeset.{Changeset}
use claude_ds_project.Ot.Follow.{follow}
use claude_ds_project.Ot.Meaning.{IsWellFormed}
use claude_ds_project.Ot.Follow.Laws.{AreSiblings, follow-IsWellFormed}
use claude_ds_project.Fsm.{RevisionRecord, catch_up}

unfoldable pub rebase_all : List RevisionRecord → Changeset → Outcome Changeset
rebase_all [] c = ok c
rebase_all (r ∷ rs) c = follow r.changeset c >>= λ c'. rebase_all rs c'

-- The loop by index is the recursion on what is left of the log.
pub catch_up-rebase_all :
    (log : List RevisionRecord) (fuel r : ℕ) (c : Changeset)
    → length log < half
    → r ≤ length log
    → length log < r + fuel
    → catch_up log fuel r (length log) c ≡ rebase_all (drop r log) c
unfolding catch_up rebase_all
catch_up-rebase_all log zero r c room h few = absurd (omega arith)
catch_up-rebase_all log (suc fuel) r c room h few = elim (Bool-cases (ltb r (length log))) [
  | inl more ↦
      let below : r < length log = ltb→lt r (length log) more in
      let (x, found, rest) = drop-get_elem? log r below in
      let rest' : drop r log ≡ x ∷ drop (r + 1) log =
        rest ∙ ap (λ (k : ℕ). x ∷ drop k log) {x = suc r} {y = r + 1} (omega arith) in
      rw
        (
          lt-small r (length log) (omega arith) room,
          more,
          found,
          rest',
          add-small r 1 (omega arith),
        )
        (>>=_congr (follow x.changeset c) (catch_up log fuel (r + 1) (length log))
          (rebase_all (drop (r + 1) log))
          (λ c'. catch_up-rebase_all log fuel (r + 1) c' room (omega arith) (omega arith)))
  | inr end ↦
      rw (
        lt-small r (length log) (omega arith) room,
        end,
        drop-all log r (ltb→le r (length log) end),
      )
]

get_elem?-past {ℓ} : {A : Type ℓ} (xs : List A) (i : ℕ) → length xs ≤ i → get_elem? xs i ≡ none
get_elem?-past [] i h = refl
get_elem?-past (x ∷ xs) zero h = elim h [ ]
get_elem?-past (x ∷ xs) (suc i) h = get_elem?-past xs i (omega arith)

-- A negative base revision is an index outside the log.
pub catch_up-negative :
    (log : List RevisionRecord) (fuel r : ℕ) (c : Changeset)
    → length log < half
    → half ≤ r
    → r < range
    → catch_up log (suc fuel) r (length log) c ≡ panic
unfolding catch_up
catch_up-negative log fuel r c room h k =
    rw (lt-neg r (length log) h k room, get_elem?-past log r (omega arith))

-- The records are well-formed changesets from one text length to the next, from `n` to `last`.
abbrev pub Chains : ℕ → List RevisionRecord → ℕ → Type 0
Chains n [] last = n ≡ last
Chains n (r ∷ rs) last =
    IsWellFormed r.changeset × (r.changeset.old_len ≡ n) × Chains r.changeset.new_len rs last

-- The lengths of the texts that the records make.
abbrev pub total_len : List RevisionRecord → ℕ
total_len [] = 0
total_len (r ∷ rs) = r.changeset.new_len + total_len rs

-- A well-formed changeset on the text before the records becomes one on the text behind them.
pub rebase_all-IsWellFormed :
    (rs : List RevisionRecord) (n last : ℕ) (c : Changeset)
    → Chains n rs last
    → IsWellFormed c
    → c.old_len ≡ n
    → c.new_len + total_len rs < half
    → (c' : Changeset) × (rebase_all rs c ≡ ok c') × IsWellFormed c' × (c'.old_len ≡ last)
unfolding rebase_all
rebase_all-IsWellFormed [] n last c ch w h room = (c, refl, w, h ∙ ch)
rebase_all-IsWellFormed (r ∷ rs) n last c ch w h room =
    let siblings : AreSiblings r.changeset c = record {
      first = ch.0;
      second = w;
      same = ch.1 ∙ sym h;
      fits = omega arith;
    } in
    let (d, e, wd, old, short) = follow-IsWellFormed r.changeset c siblings in
    let (c', e', w', old') =
      rebase_all-IsWellFormed rs r.changeset.new_len last d ch.2 wd old (omega arith) in
    (c', rw e e', w', old')
