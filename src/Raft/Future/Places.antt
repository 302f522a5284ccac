-- ===== src/Raft/Future/Places.antt =====
-- Where a node's pending futures stand in its log (internal/raft/raft.go).
use claude_ds_project.Base.{
  ℕ, ◌+◌, ◌≤◌, ◌<◌, ◌≡◌, ◌≢◌, inl, inr, refl, sym, ◌∙◌, List, [], ◌∷◌, Option, none, some, false,
  ◌==◌, number-cases, Option-cases, Bool-cases, arith,
}
use claude_ds_project.Raft.Types.{uint64}
use claude_ds_project.Raft.Future.{
  Desk, pending_at, forget, apply, apply_refused, refuse, track, resolve, resolved_at, fail_pending,
  leave, store_request, outside, leading, closing,
}
use claude_ds_project.Raft.Future.Answers.{
  Step, called, refused, expired, rejected, tracked, noop_stored, elected, overruled, followed,
  applied_at, lost, Run, here, later,
}

pub pending_at-forget :
    (i j : ℕ) (m : List (ℕ × ℕ)) → j ≢ i → pending_at j (forget i m) ≡ pending_at j m
unfolding pending_at forget
pending_at-forget i j [] h = refl
pending_at-forget i j ((k, a) ∷ m) h = ground (arith, pending_at-forget i j m h)

pub nothing_pending : (i a : ℕ) → pending_at i [] ≢ some a
unfolding pending_at
nothing_pending i a h = cc

nothing_forgotten : (i a : ℕ) (m : List (ℕ × ℕ)) → pending_at i (forget i m) ≢ some a
unfolding pending_at forget
nothing_forgotten i a [] h = cc
nothing_forgotten i a ((k, b) ∷ m) h = elim (Bool-cases (k == i)) [
  | inl same ↦ nothing_forgotten i a m (rw same at h)
  | inr other ↦ nothing_forgotten i a m (rw (other, other) at h)
]

pending_at-before :
    (i j a : ℕ) (m : List (ℕ × ℕ)) → pending_at j (forget i m) ≡ some a → pending_at j m ≡ some a
unfolding pending_at forget
pending_at-before i j a [] h = h
pending_at-before i j a ((k, b) ∷ m) h = elim (Bool-cases (k == i)) [
  | inl same ↦ elim (number-cases j i) [
    | inl mine ↦ absurd (nothing_forgotten i a m (rw (same, mine) at h))
    | inr other ↦
        let differs : (k == j) ≡ false = ground arith in
        rw differs (pending_at-before i j a m (rw same at h))
  ]
  | inr other ↦ elim (Bool-cases (k == j)) [
    | inl hit ↦ rw hit (rw (other, hit) at h)
    | inr miss ↦ rw miss (pending_at-before i j a m (rw (other, miss) at h))
  ]
]

pending_at-behind :
    (i j a b : ℕ) (m : List (ℕ × ℕ))
    → j ≢ i
    → pending_at j ((i, b) ∷ forget i m) ≡ some a
    → pending_at j m ≡ some a
unfolding pending_at
pending_at-behind i j a b m other h =
    let differs : (i == j) ≡ false = ground arith in
    sym (pending_at-forget i j m other) ∙ (rw differs at h)

module _ {R : Type 0} where
  -- What is pending is at an index of the leader's log, and nothing is outside runLeader.
  pub record IsPlaced (d : Desk R) : Type 0 where
    pub inside : (i a : ℕ) → d.phase ≡ leading → pending_at i d.pending ≡ some a → i ≤ d.last
    pub empty : (i a : ℕ) → d.phase ≡ outside → pending_at i d.pending ≢ some a

  IsPlaced-pending :
      (d t : Desk R)
      → t.phase ≡ d.phase
      → t.last ≡ d.last
      → ((i a : ℕ) → pending_at i t.pending ≡ some a → pending_at i d.pending ≡ some a)
      → IsPlaced d
      → IsPlaced t
  IsPlaced-pending d t p l sub h = record {
    inside = λ i a leads found. rw l (h.inside i a (sym p ∙ leads) (sub i a found));
    empty = λ i a out found. h.empty i a (sym p ∙ out) (sub i a found);
  }

  resolved-IsPlaced :
      (d : Desk R) (i : ℕ) (r : R) (o : Option ℕ) → IsPlaced d → IsPlaced (resolved_at i r o d)
  resolved-IsPlaced d i r none h = h
  resolved-IsPlaced d i r (some b) h =
      IsPlaced-pending d (resolved_at i r (some b) d) refl refl
        (λ j a found. pending_at-before i j a d.pending found) h

  pub Step-IsPlaced : {d t : Desk R} → Step d t → IsPlaced d → IsPlaced t
  unfolding apply apply_refused refuse track store_request resolve fail_pending leave
  Step-IsPlaced {d} called h = IsPlaced-pending d _ refl refl (λ i a k. k) h
  Step-IsPlaced {d} (refused e) h = IsPlaced-pending d _ refl refl (λ i a k. k) h
  Step-IsPlaced {d} (expired b e low) h = IsPlaced-pending d _ refl refl (λ i a k. k) h
  Step-IsPlaced {d} (rejected b rest e q low) h = IsPlaced-pending d _ refl refl (λ i a k. k) h
  Step-IsPlaced {d} (tracked b rest leads room q) h = record {
    inside = λ j a _ found.
        let up : uint64 (d.last + 1) ≡ d.last + 1 = omega arith in
        elim (number-cases j (uint64 (d.last + 1))) [
          | inl same ↦ omega (arith, same)
          | inr other ↦
              let old = pending_at-behind (uint64 (d.last + 1)) j a b d.pending other found in
              let low = h.inside j a leads old in omega (arith, up, low)
        ];
    empty = λ j a out found. let f : leading ≡ outside = sym leads ∙ out in cc;
  }
  Step-IsPlaced {d} (noop_stored leads room) h = record {
    inside = λ j a _ found. let low = h.inside j a leads found in omega (arith, low);
    empty = λ j a out found. let f : leading ≡ outside = sym leads ∙ out in cc;
  }
  Step-IsPlaced {d} (applied_at i r) h = resolved-IsPlaced d i r (pending_at i d.pending) h
  Step-IsPlaced {d} (elected out) h = record {
    inside = λ j a _ found. absurd (h.empty j a out found);
    empty = λ j a out' found. let f : leading ≡ outside = out' in cc;
  }
  Step-IsPlaced {d} (overruled i leads) h = record {
    inside = λ j a leads' found. let f : closing ≡ leading = leads' in cc;
    empty = λ j a out found. let f : closing ≡ outside = out in cc;
  }
  Step-IsPlaced {d} lost h = record {
    inside = λ j a leads found. absurd (nothing_pending j a found);
    empty = λ j a _. nothing_pending j a;
  }
  Step-IsPlaced {d} (followed i out) h = record {
    inside = λ j a leads found. absurd (h.empty j a out found);
    empty = λ j a _. h.empty j a out;
  }

  -- The next index of a leader is free.
  pub IsPlaced-free :
      (d : Desk R)
      → IsPlaced d
      → d.phase ≡ leading
      → d.last + 1 < 18446744073709551616
      → pending_at (uint64 (d.last + 1)) d.pending ≡ none
  IsPlaced-free d h leads room = elim (Option-cases (pending_at (uint64 (d.last + 1)) d.pending)) [
    | inl free ↦ free
    | inr (a, found) ↦
        absurd (let low = h.inside (uint64 (d.last + 1)) a leads found in omega (arith, low))
  ]

  abbrev pub fresh : Desk R
  fresh = record {
    futures = λ a. none;
    next = 0;
    pending = [];
    queued = [];
    last = 0;
    phase = outside;
  }

  pub Run-IsPlaced : {t : Desk R} → Run fresh t → IsPlaced t
  Run-IsPlaced here = record {
    inside = λ j a _ found. absurd (nothing_pending j a found);
    empty = λ j a _. nothing_pending j a;
  }
  Run-IsPlaced (later run step) = Step-IsPlaced step (Run-IsPlaced run)
