-- ===== src/Examples/ListBucket.antt =====
-- A bucket kept as a list of its keys and values, which has the properties that the store relies on.
use claude_ds_project.Base.{
  ℕ, ◌<◌, ◌≡◌, ◌≢◌, inl, inr, refl, sym, ◌∙◌, ap, List, [], ◌∷◌, Option, none, some, Option-cases,
  Bool, true, false, not, Bool-cases, ◌==◌, if◌then◌else◌, arith,
}
use claude_ds_project.Raft.Transport.{Bytes}
use claude_ds_project.Bolt.{Bucket, uint64_to_bytes}
use claude_ds_project.Bolt.Keys.{limit, before, before-irreflexive}
use claude_ds_project.Bolt.Buckets.{BucketLaws, Repositions, IsLog}

before-asymmetric : (xs ys : Bytes) → before xs ys ≡ true → before ys xs ≡ false
unfolding before
before-asymmetric [] [] h = cc
before-asymmetric [] (y ∷ ys) h = refl
before-asymmetric (x ∷ xs) [] h = cc
before-asymmetric (x ∷ xs) (y ∷ ys) h = ground (arith, before-asymmetric xs ys)

before-transitive :
    (xs ys zs : Bytes) → before xs ys ≡ false → before ys zs ≡ false → before xs zs ≡ false
unfolding before
before-transitive [] [] zs h k = k
before-transitive [] (y ∷ ys) zs h k = cc
before-transitive (x ∷ xs) [] [] h k = refl
before-transitive (x ∷ xs) [] (z ∷ zs) h k = cc
before-transitive (x ∷ xs) (y ∷ ys) [] h k = refl
before-transitive (x ∷ xs) (y ∷ ys) (z ∷ zs) h k = ground (arith, before-transitive xs ys zs)

unfoldable pub equal : Bytes → Bytes → Bool
equal [] [] = true
equal [] (y ∷ ys) = false
equal (x ∷ xs) [] = false
equal (x ∷ xs) (y ∷ ys) = let rest = equal xs ys in if x == y then rest else false

equal→≡ : (xs ys : Bytes) → equal xs ys ≡ true → xs ≡ ys
unfolding equal
equal→≡ [] [] h = refl
equal→≡ [] (y ∷ ys) h = cc
equal→≡ (x ∷ xs) [] h = cc
equal→≡ (x ∷ xs) (y ∷ ys) h = ground (arith, equal→≡ xs ys)

equal-same : (xs : Bytes) → equal xs xs ≡ true
unfolding equal
equal-same [] = refl
equal-same (x ∷ xs) = ground (arith, equal-same xs)

equal-other : (xs ys : Bytes) → ys ≢ xs → equal xs ys ≡ false
equal-other xs ys h = elim (Bool-cases (equal xs ys)) [
  | inl same ↦ absurd (h (sym (equal→≡ xs ys same)))
  | inr other ↦ other
]

abbrev pub Entries : Type 0
Entries = List (Bytes × Bytes)

unfoldable pub find : Bytes → Entries → Option Bytes
unfolding equal
find k [] = none
find k ((j, v) ∷ m) = if equal j k then some v else find k m

unfoldable pub remove : Bytes → Entries → Entries
unfolding equal
remove k [] = []
remove k ((j, v) ∷ m) = let rest = remove k m in if equal j k then rest else (j, v) ∷ rest

find-remove : (k : Bytes) (m : Entries) → find k (remove k m) ≡ none
unfolding find remove
find-remove k [] = refl
find-remove k ((j, v) ∷ m) = ground (arith, find-remove k m)

find-remove_other : (k i : Bytes) (m : Entries) → i ≢ k → find i (remove k m) ≡ find i m
unfolding find remove
find-remove_other k i [] h = refl
find-remove_other k i ((j, v) ∷ m) h = elim (Bool-cases (equal j k)) [
  | inl same ↦ rw (same, equal→≡ j k same, equal-other k i h) (find-remove_other k i m h)
  | inr other ↦ rw other (ap (λ o. if equal j i then some v else o) (find-remove_other k i m h))
]

listed_first : (k w : Bytes) (m : Entries) → find k ((k, w) ∷ m) ≢ none
unfolding find
listed_first k w m h = let f : some w ≡ none = rw (equal-same k) at h in cc

listed_later :
    (k w : Bytes) (m : Entries) (j : Bytes) → find j m ≢ none → find j ((k, w) ∷ m) ≢ none
unfolding find
listed_later k w m j there h = elim (Bool-cases (equal k j)) [
  | inl same ↦ let f : some w ≡ none = rw same at h in cc
  | inr other ↦ there (rw other at h)
]

-- The best of the keys that a test accepts.
module _ (better : Bytes → Bytes → Bool) (accepts : Bytes → Bool) where
  abbrev choose : Bytes → Option Bytes → Bytes
  choose j none = j
  choose j (some i) = if better i j then i else j

  unfoldable pub pick : Entries → Option Bytes
  pick [] = none
  pick ((j, v) ∷ m) = let rest = pick m in if accepts j then some (choose j rest) else rest

  abbrev pub IsPicked : Entries → Bytes → Type 0
  IsPicked m j =
      (accepts j ≡ true)
      × (find j m ≢ none)
      × ((i v : Bytes) → find i m ≡ some v → accepts i ≡ true → better i j ≡ false)

  IsPicked-same : (m : Entries) (j k : Bytes) → j ≡ k → IsPicked m k → IsPicked m j
  IsPicked-same m j k e h = rw e h

  pick-none : (m : Entries) (i v : Bytes) → pick m ≡ none → find i m ≡ some v → accepts i ≡ false
  unfolding pick find
  pick-none [] i v h found = cc
  pick-none ((j, w) ∷ m) i v h found = elim (Bool-cases (accepts j)) [
    | inl good ↦ let f = rw good at h in cc
    | inr bad ↦ elim (Bool-cases (equal j i)) [
      | inl same ↦ rw (← equal→≡ j i same) bad
      | inr other ↦ pick-none m i v (rw bad at h) (rw other at found)
    ]
  ]

  module _ (irreflexive : (a : Bytes) → better a a ≡ false)
      (asymmetric : (a b : Bytes) → better a b ≡ true → better b a ≡ false)
      (transitive : (a b c : Bytes)
        → better a b ≡ false
        → better b c ≡ false
        → better a c ≡ false) where
    pick-found : (m : Entries) (j : Bytes) → pick m ≡ some j → IsPicked m j
    unfolding pick find
    pick-found [] j h = cc
    pick-found ((k, w) ∷ m) j h = elim (Bool-cases (accepts k)) [
      | inr bad ↦
          let (good, there, best) = pick-found m j (rw bad at h) in
          (
            good,
            listed_later k w m j there,
            λ i v found ok. elim (Bool-cases (equal k i)) [
              | inl same ↦ absurd (let f = sym bad ∙ (rw (← equal→≡ k i same) at ok) in cc)
              | inr other ↦ best i v (rw other at found) ok
            ],
          )
      | inl good ↦ elim (Option-cases (pick m)) [
        | inl none_ ↦
            let e : j ≡ k = let f = rw (good, none_) at h in cc in
            IsPicked-same ((k, w) ∷ m) j k e (
              good,
              listed_first k w m,
              λ i v found ok. elim (Bool-cases (equal k i)) [
                | inl same ↦ rw (← equal→≡ k i same) (irreflexive k)
                | inr other ↦
                    let f = pick-none m i v none_ (rw other at found) in
                    absurd (let g = sym f ∙ ok in cc)
              ],
            )
        | inr (r, picked) ↦
            let (good', there, best) = pick-found m r picked in
            elim (Bool-cases (better r k)) [
              | inl wins ↦
                  let e : j ≡ r = let f = rw (good, picked, wins) at h in cc in
                  IsPicked-same ((k, w) ∷ m) j r e (
                    good',
                    listed_later k w m r there,
                    λ i v found ok. elim (Bool-cases (equal k i)) [
                      | inl same ↦ rw (← equal→≡ k i same) (asymmetric r k wins)
                      | inr other ↦ best i v (rw other at found) ok
                    ],
                  )
              | inr loses ↦
                  let e : j ≡ k = let f = rw (good, picked, loses) at h in cc in
                  IsPicked-same ((k, w) ∷ m) j k e (
                    good,
                    listed_first k w m,
                    λ i v found ok. elim (Bool-cases (equal k i)) [
                      | inl same ↦ rw (← equal→≡ k i same) (irreflexive k)
                      | inr other ↦ transitive i r k (best i v (rw other at found) ok) loses
                    ],
                  )
            ]
      ]
    ]

not-true : {b : Bool} → not b ≡ true → b ≡ false
not-true {b = true} h = cc
not-true {b = false} h = refl

not-false : {b : Bool} → not b ≡ false → b ≡ true
not-false {b = true} h = refl
not-false {b = false} h = cc

abbrev pub list_bucket : Bucket
list_bucket = record {
  State = Entries;
  get = λ t k. find k t;
  put = λ t k v. some ((k, v) ∷ remove k t);
  delete = λ t k. some (remove k t);
  seek = λ t k. pick before (λ j. not (before j k)) t;
  next = λ t k. pick before (λ j. before k j) t;
  first = λ t. pick before (λ j. true) t;
  last = λ t. pick (λ a b. before b a) (λ j. true) t;
}

some-injective : {A : Type 0} {x y : A} → some x ≡ some y → y ≡ x
some-injective h = cc

pub list_bucket-BucketLaws : BucketLaws list_bucket
unfolding find
list_bucket-BucketLaws = record {
  get-put = λ t t' k v e. rw (some-injective e, equal-same k) refl;
  get-put_other = λ t t' k v j e other.
      rw (some-injective e, equal-other k j other) (find-remove_other k j t other);
  get-delete = λ t t' k e. rw (some-injective e) (find-remove k t);
  get-delete_other = λ t t' k j e other. rw (some-injective e) (find-remove_other k j t other);
  seek-found = λ t k j e.
      let (good, there, best) =
        pick-found before (λ i. not (before i k)) before-irreflexive before-asymmetric
          before-transitive t j e in
      (not-true good, there, λ i v found h. best i v found (rw h refl));
  seek-end = λ t k i v e found. not-false (pick-none before (λ i. not (before i k)) t i v e found);
  last-found = λ t j e.
      let (good, there, best) =
        pick-found (λ a b. before b a) (λ i. true) before-irreflexive
          (λ a b h. before-asymmetric b a h) (λ a b c h k. before-transitive c b a k h) t j e in
      (there, λ i v found. best i v found refl);
  last-none = λ t i e. elim (Option-cases (find i t)) [
    | inl missing ↦ missing
    | inr (v, found) ↦
        absurd (let f = pick-none (λ a b. before b a) (λ i. true) t i v e found in cc)
  ];
}

-- Its cursor goes on behind a deleted key.
pub list_bucket-Repositions : Repositions list_bucket
unfolding find
list_bucket-Repositions = record {
  next-found = λ t k j e.
      pick-found before (λ i. before k i) before-irreflexive before-asymmetric before-transitive t j
        e;
  next-end = λ t k i v e found. pick-none before (λ i. before k i) t i v e found;
}

pub nothing-IsLog : IsLog list_bucket []
unfolding find
nothing-IsLog k v h = cc

pub cons-IsLog :
    (i : ℕ) (w : Bytes) (t : Entries)
    → i < limit
    → IsLog list_bucket t
    → IsLog list_bucket ((uint64_to_bytes i, w) ∷ t)
unfolding find
cons-IsLog i w t small log k v h = elim (Bool-cases (equal (uint64_to_bytes i) k)) [
  | inl same ↦ (i, small, sym (equal→≡ (uint64_to_bytes i) k same))
  | inr other ↦ log k v (rw other at h)
]
