-- ===== src/Bolt/Deleting.antt =====
-- The loop of DeleteRange of internal/store/boltstore.go, by the place of its cursor.
use claude_ds_project.Base.{
  ℕ, zero, suc, ◌+◌, ◌≤◌, ◌<◌, ◌≡◌, ◌≢◌, ◌⊎◌, inl, inr, refl, sym, ◌∙◌, ap, Option, none, some,
  Option-cases, Bool-cases, ltb, ltb→lt, ltb→le, lt→ltb, le→ltb, arith,
}
use claude_ds_project.Raft.Transport.{Bytes}
use claude_ds_project.Bolt.{
  Bucket, Deletion, finished, aborted, delete_loop, delete_range, uint64_to_bytes, bytes_to_uint64,
}
use claude_ds_project.Bolt.Keys.{
  before, limit, bytes_to_uint64-uint64_to_bytes, before-uint64_to_bytes,
}
use claude_ds_project.Bolt.Buckets.{BucketLaws, Repositions, IsLog}

-- The bucket afterwards: nothing at the indices of the range, and the rest as it was.
pub record IsCleared (K : Bucket) (lo hi : ℕ) (t t' : K.State) : Type 0 where
  pub log : IsLog K t'
  pub gone : (i : ℕ) → i < limit → lo ≤ i → i ≤ hi → K.get t' (uint64_to_bytes i) ≡ none
  pub left :
      (i : ℕ)
      → i < limit
      → (i < lo) ⊎ (hi < i)
      → K.get t' (uint64_to_bytes i) ≡ K.get t (uint64_to_bytes i)

abbrev pub Ends : (K : Bucket) → ℕ → ℕ → K.State → Deletion K.State → Type 0
Ends K lo hi t d = (d ≡ aborted) ⊎ ((t' : K.State) × (d ≡ finished t') × IsCleared K lo hi t t')

module _ (K : Bucket) (laws : BucketLaws K) (moves : Repositions K) (lo hi : ℕ) where
  -- No index of the range is before `i`.
  abbrev IsBehind : K.State → ℕ → Type 0
  IsBehind t i =
      (j : ℕ) (v : Bytes) → j < limit → lo ≤ j → K.get t (uint64_to_bytes j) ≡ some v → i ≤ j

  nothing_below :
      (t : K.State) (i j : ℕ)
      → IsBehind t i
      → j < limit
      → lo ≤ j
      → j < i
      → K.get t (uint64_to_bytes j) ≡ none
  nothing_below t i j h small above below = elim (Option-cases (K.get t (uint64_to_bytes j))) [
    | inl missing ↦ missing
    | inr there ↦ absurd (let f = h j there.0 small above there.1 in omega arith)
  ]

  -- The entry at the cursor is deleted, and the rest of the range is.
  IsCleared-step :
      (t t' t'' : K.State) (i : ℕ)
      → i < limit
      → lo ≤ i
      → i ≤ hi
      → K.delete t (uint64_to_bytes i) ≡ some t'
      → IsCleared K lo hi t' t''
      → IsCleared K lo hi t t''
  IsCleared-step t t' t'' i small above within del c = record {
    log = c.log;
    gone = c.gone;
    left = λ j jsmall outside.
        c.left j jsmall outside
        ∙ laws.get-delete_other t t' (uint64_to_bytes i) (uint64_to_bytes j) del (λ e.
          let same : j ≡ i = (before-uint64_to_bytes j i jsmall small).1 e in
          elim outside [ inl low ↦ omega arith | inr high ↦ omega arith ]);
  }

  IsLog-delete :
      (t t' : K.State) (i : ℕ)
      → IsLog K t
      → K.delete t (uint64_to_bytes i) ≡ some t'
      → (j v : Bytes) → K.get t' j ≡ some v
      → (j ≢ uint64_to_bytes i) × (K.get t j ≡ some v)
  IsLog-delete t t' i log del j v found =
      let other : j ≢ uint64_to_bytes i = λ e.
        let f = sym (laws.get-delete t t' (uint64_to_bytes i) del) ∙ (rw e at found) in
        none_some f in
      (other, sym (laws.get-delete_other t t' (uint64_to_bytes i) j del other) ∙ found)
    where
      none_some : {x : Bytes} → none ≢ some x
      none_some h = cc

  -- A cursor at `i`, or at the end.
  data At (t : K.State) : Option Bytes → ℕ → Type 0 where
    past : (i : ℕ) → IsBehind t limit → At t none i
    on : (i : ℕ) → i < limit → lo ≤ i → IsBehind t i → At t (some (uint64_to_bytes i)) i

  seek-At :
      (t : K.State)
      → lo < limit
      → IsLog K t
      → (o : Option Bytes) → K.seek t (uint64_to_bytes lo) ≡ o
      → (i : ℕ) × At t o i
  seek-At t small log none e = (
    0,
    past 0 (λ j v jsmall above found.
        let f =
          sym (laws.seek-end t (uint64_to_bytes lo) (uint64_to_bytes j) v e found)
          ∙ (before-uint64_to_bytes j lo jsmall small).0 in
        absurd (let g = ltb→lt j lo (sym f) in omega arith)),
  )
  seek-At t small log (some k) e =
      let (first, there, least) = laws.seek-found t (uint64_to_bytes lo) k e in
      elim (Option-cases (K.get t k)) [
        | inl missing ↦ absurd (there missing)
        | inr (v, found) ↦
            let (i, ismall, same) = log k v found in
            let above : lo ≤ i = ltb→le i lo (
              sym (before-uint64_to_bytes i lo ismall small).0
              ∙ ap (λ x. before x (uint64_to_bytes lo)) (sym same)
              ∙ first) in
            (
              i,
              rw same (
                  on i ismall above (λ j w jsmall jabove jfound. ltb→le j i (
                    sym (before-uint64_to_bytes j i jsmall ismall).0
                    ∙ ap (before (uint64_to_bytes j)) (sym same)
                    ∙ least (uint64_to_bytes j) w jfound
                        ((before-uint64_to_bytes j lo jsmall small).0 ∙ le→ltb j lo jabove)))),
            )
      ]

  after_delete :
      (t t' : K.State) (i : ℕ)
      → IsLog K t
      → IsBehind t i
      → K.delete t (uint64_to_bytes i) ≡ some t'
      → (j : ℕ) (v : Bytes) → j < limit
      → lo ≤ j
      → K.get t' (uint64_to_bytes j) ≡ some v
      → i < j
  after_delete t t' i log behind del j v small above found =
      let (other, old) = IsLog-delete t t' i log del (uint64_to_bytes j) v found in
      let f = behind j v small above old in
      let g : j ≢ i = λ e. other (ap uint64_to_bytes e) in omega arith

  -- What is behind the deleted index is behind the cursor's next place.
  next-At :
      (t t' : K.State) (i : ℕ)
      → i < limit
      → IsLog K t
      → IsBehind t i
      → K.delete t (uint64_to_bytes i) ≡ some t'
      → (o : Option Bytes) → K.next t' (uint64_to_bytes i) ≡ o
      → lo ≤ i
      → (i' : ℕ) × (i < i') × At t' o i'
  next-At t t' i small log behind del none e low = (
    suc i,
    omega arith,
    past (suc i) (λ j v jsmall above found.
        let later = after_delete t t' i log behind del j v jsmall above found in
        let f =
          sym (before-uint64_to_bytes i j small jsmall).0
          ∙ moves.next-end t' (uint64_to_bytes i) (uint64_to_bytes j) v e found in
        absurd (let g = ltb→le i j f in omega arith)),
  )
  next-At t t' i small log behind del (some k) e low =
      let (later, there, least) = moves.next-found t' (uint64_to_bytes i) k e in
      elim (Option-cases (K.get t' k)) [
        | inl missing ↦ absurd (there missing)
        | inr (v, found) ↦
            let (i', ismall, same) = log k v (IsLog-delete t t' i log del k v found).1 in
            let up : i < i' = ltb→lt i i' (
              sym (before-uint64_to_bytes i i' small ismall).0
              ∙ ap (before (uint64_to_bytes i)) (sym same)
              ∙ later) in
            (
              i',
              up,
              rw same (
                  on i' ismall (omega arith) (λ j w jsmall jabove jfound. ltb→le j i' (
                    sym (before-uint64_to_bytes j i' jsmall ismall).0
                    ∙ ap (before (uint64_to_bytes j)) (sym same)
                    ∙ least (uint64_to_bytes j) w jfound (
                        (before-uint64_to_bytes i j small jsmall).0
                        ∙ lt→ltb i j
                            (after_delete t t' i log behind del j w jsmall jabove jfound))))),
            )
      ]

  IsCleared-already :
      (t : K.State) (i : ℕ) → IsLog K t → IsBehind t i → hi < i → IsCleared K lo hi t t
  IsCleared-already t i log behind beyond = record {
    log = log;
    gone = λ j small above within. nothing_below t i j behind small above (omega arith);
    left = λ _ _ _. refl;
  }

  delete_loop-Ends :
      (fuel : ℕ) (t : K.State) (cursor : Option Bytes) (i : ℕ)
      → hi < limit
      → IsLog K t
      → At t cursor i
      → 0 < fuel
      → hi + 2 ≤ fuel + i
      → Ends K lo hi t (delete_loop K fuel hi t cursor)
  unfolding delete_loop
  delete_loop-Ends zero t cursor i top log at_i some_fuel enough = absurd (omega arith)
  delete_loop-Ends (suc fuel) t none i top log (past j behind) some_fuel enough =
      inr (t, refl, IsCleared-already t limit log behind top)
  delete_loop-Ends (suc fuel) t (some _) i top log (on j small above behind) some_fuel enough =
      let number = bytes_to_uint64-uint64_to_bytes j small in
      elim (Bool-cases (ltb hi j)) [
        | inl beyond ↦
            inr (t, rw (number, beyond) refl, IsCleared-already t j log behind (ltb→lt hi j beyond))
        | inr inside ↦ elim (Option-cases (K.delete t (uint64_to_bytes j))) [
          | inl fails ↦ inl (rw (number, inside, fails) refl)
          | inr (t', del) ↦
              let within = ltb→le hi j inside in
              let (i', up, at_next) = next-At t t' j small log behind del _ refl above in
              let log' : IsLog K t' =
                λ k v found. log k v (IsLog-delete t t' j log del k v found).1 in
              elim (delete_loop-Ends fuel t' (K.next t' (uint64_to_bytes j)) i' top log' at_next
                (omega arith) (omega arith)) [
                  | inl aborts ↦ inl (rw (number, inside, del) aborts)
                  | inr (t'', ends, cleared) ↦ inr (
                    t'',
                    rw (number, inside, del) ends,
                    IsCleared-step t t' t'' j small above within del cleared,
                  )
                ]
        ]
      ]

  -- On a bucket whose cursor goes on behind a deleted key, which bbolt does not promise, DeleteRange ends: when the
  -- bucket holds a log, it fails, or it removes exactly the indices from `lo` to `hi` and leaves a log, when both are
  -- a uint64.
  pub delete_range-Ends :
      (t : K.State) → lo < limit → hi < limit → IsLog K t → Ends K lo hi t (delete_range K t lo hi)
  unfolding delete_range
  delete_range-Ends t low high log =
      let (i, at_i) = seek-At t low log (K.seek t (uint64_to_bytes lo)) refl in
      delete_loop-Ends (suc (suc hi)) t (K.seek t (uint64_to_bytes lo)) i high log at_i
        (omega arith) (omega arith)

-- Whatever keys the cursor returns behind a Delete, and however many rounds the loop of DeleteRange takes: when it ends,
-- every uint64 index above `hi` has the value that it had.
pub delete_loop-keeps_above :
    (K : Bucket) (laws : BucketLaws K) (fuel hi : ℕ) (t t' : K.State) (cursor : Option Bytes)
    (i : ℕ)
    → i < limit
    → hi < i
    → delete_loop K fuel hi t cursor ≡ finished t'
    → K.get t' (uint64_to_bytes i) ≡ K.get t (uint64_to_bytes i)
unfolding delete_loop
delete_loop-keeps_above K laws zero hi t t' cursor i small above ends = cc
delete_loop-keeps_above K laws (suc fuel) hi t t' none i small above ends =
    let e : t' ≡ t = cc in ap (λ x. K.get x (uint64_to_bytes i)) e
delete_loop-keeps_above K laws (suc fuel) hi t t' (some k) i small above ends =
    elim (Bool-cases (ltb hi (bytes_to_uint64 k))) [
      | inl beyond ↦
          let e : t' ≡ t = let f = rw beyond at ends in cc in
          ap (λ x. K.get x (uint64_to_bytes i)) e
      | inr inside ↦ elim (Option-cases (K.delete t k)) [
        | inl fails ↦ let f = rw (inside, fails) at ends in cc
        | inr (u, del) ↦
            let apart : uint64_to_bytes i ≢ k = λ same.
              let number : bytes_to_uint64 k ≡ i =
                ap bytes_to_uint64 (sym same) ∙ bytes_to_uint64-uint64_to_bytes i small in
              let below = ltb→le hi (bytes_to_uint64 k) inside in omega (arith, below, number) in
            delete_loop-keeps_above K laws fuel hi u t' (K.next u k) i small above
              (rw (inside, del) at ends)
            ∙ laws.get-delete_other t u k (uint64_to_bytes i) del apart
      ]
    ]
