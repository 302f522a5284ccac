-- ===== src/Raft/Future/Accounts.antt =====
-- Where the futures of a node are (internal/raft/future.go and raft.go).
use claude_ds_project.Base.{
  ℕ, ◌+◌, ◌<◌, ◌≡◌, ◌⊎◌, inl, inr, refl, sym, ◌∙◌, ap, List, [], ◌∷◌, ◌++◌, Option, none, some,
  false, ◌==◌, set-same, set-other, number-cases, arith,
}
use claude_ds_project.Raft.Types.{uint64}
use claude_ds_project.Raft.Future.{
  Answer, failed, applied, Desk, pending_at, forget, apply, apply_refused, refuse, track, resolve,
  resolved_at, fail_pending, leave, store_request,
}
use claude_ds_project.Raft.Future.Answers.{
  IsAnswered, answer-kept, answer-IsAnswered, fail_all-kept, fail_all-IsAnswered, Step, called,
  refused, expired, rejected, tracked, noop_stored, elected, overruled, followed, applied_at, lost,
  Run, here, later, Run-Keeps,
}
use claude_ds_project.Raft.Future.Places.{
  pending_at-forget, IsPlaced, IsPlaced-free, fresh, Run-IsPlaced,
}

abbrev pub IsQueued : ℕ → List ℕ → Type 0
IsQueued a [] = ⊥
IsQueued a (b ∷ q) = (b ≡ a) ⊎ IsQueued a q

IsQueued-append : (a : ℕ) (q r : List ℕ) → IsQueued a q ⊎ IsQueued a r → IsQueued a (q ++ r)
IsQueued-append a [] r (inr h) = h
IsQueued-append a [] r (inl h) = absurd h
IsQueued-append a (b ∷ q) r (inl (inl h)) = inl h
IsQueued-append a (b ∷ q) r (inl (inr h)) = inr (IsQueued-append a q r (inl h))
IsQueued-append a (b ∷ q) r (inr h) = inr (IsQueued-append a q r (inr h))

pending_at-head : (i b : ℕ) (m : List (ℕ × ℕ)) → pending_at i ((i, b) ∷ m) ≡ some b
unfolding pending_at
pending_at-head i b m = ground arith

pending_at-track :
    (i j a b : ℕ) (m : List (ℕ × ℕ))
    → pending_at i m ≡ none
    → pending_at j m ≡ some a
    → pending_at j ((i, b) ∷ forget i m) ≡ some a
unfolding pending_at
pending_at-track i j a b m free h = elim (number-cases i j) [
  | inl same ↦ let f = sym free ∙ ap (λ k. pending_at k m) same ∙ h in cc
  | inr other ↦
      let differs : (i == j) ≡ false = ground arith in
      rw differs (pending_at-forget i j m (λ e. other (sym e)) ∙ h)
]

module _ {R : Type 0} where
  -- A future is answered, pending, or that of a queued request.
  abbrev pub IsAccounted : Desk R → ℕ → Type 0
  IsAccounted d a =
      IsAnswered d.futures a ⊎ (((i : ℕ) × (pending_at i d.pending ≡ some a)) ⊎ IsQueued a d.queued)

  resolved-IsAccounted :
      (d : Desk R) (i : ℕ) (r : R) (o : Option ℕ) (a : ℕ)
      → pending_at i d.pending ≡ o
      → a < d.next
      → IsAccounted d a
      → IsAccounted (resolved_at i r o d) a
  resolved-IsAccounted d i r none a e low h = h
  resolved-IsAccounted d i r (some b) a e low (inl (x, done)) =
      inl (x, answer-kept b (applied r) d.futures a x done)
  resolved-IsAccounted d i r (some b) a e low (inr (inr waits)) = inr (inr waits)
  resolved-IsAccounted d i r (some b) a e low (inr (inl (j, found))) = elim (number-cases j i) [
    | inl same ↦
        let f : some b ≡ some a = sym e ∙ ap (λ k. pending_at k d.pending) (sym same) ∙ found in
        let g : a ≡ b = cc in inl (rw g (answer-IsAnswered b (applied r) d.futures))
    | inr other ↦ inr (inl (j, pending_at-forget i j d.pending other ∙ found))
  ]

  resolved-next : (d : Desk R) (i : ℕ) (r : R) (o : Option ℕ) → (resolved_at i r o d).next ≡ d.next
  resolved-next d i r none = refl
  resolved-next d i r (some b) = refl

  Step-IsAccounted :
      {d t : Desk R}
      → IsPlaced d
      → Step d t
      → ((a : ℕ) → a < d.next → IsAccounted d a)
      → (a : ℕ) → a < t.next
      → IsAccounted t a
  unfolding apply apply_refused refuse track store_request resolve fail_pending leave
  Step-IsAccounted {d} placed called h a low = elim (number-cases a d.next) [
    | inl new ↦ inr (inr (IsQueued-append a d.queued (d.next ∷ []) (inr (inl (sym new)))))
    | inr old ↦ elim (h a (omega arith)) [
      | inl done ↦ inl (done.0, set-other d.next none d.futures a old ∙ done.1)
      | inr (inl found) ↦ inr (inl found)
      | inr (inr waits) ↦ inr (inr (IsQueued-append a d.queued (d.next ∷ []) (inl waits)))
    ]
  ]
  Step-IsAccounted {d} placed (refused e) h a low = elim (number-cases a d.next) [
    | inl new ↦ inl (failed e, rw new (set-same d.next (some (failed e)) d.futures))
    | inr old ↦ elim (h a (omega arith)) [
      | inl done ↦ inl (done.0, set-other d.next (some (failed e)) d.futures a old ∙ done.1)
      | inr waits ↦ inr waits
    ]
  ]
  Step-IsAccounted {d} placed (expired b e _) h a low = elim (h a low) [
    | inl done ↦ inl (done.0, answer-kept b (failed e) d.futures a done.0 done.1)
    | inr waits ↦ inr waits
  ]
  Step-IsAccounted {d} placed (rejected b rest e q _) h a low = elim (h a low) [
    | inl done ↦ inl (done.0, answer-kept b (failed e) d.futures a done.0 done.1)
    | inr (inl found) ↦ inr (inl found)
    | inr (inr waits) ↦ elim (rw q at waits) [
      | inl mine ↦ inl (rw (← mine) (answer-IsAnswered b (failed e) d.futures))
      | inr behind ↦ inr (inr behind)
    ]
  ]
  Step-IsAccounted {d} placed (tracked b rest leads room q) h a low = elim (h a low) [
    | inl done ↦ inl done
    | inr (inl (j, found)) ↦ inr (
        inl (
          j,
          pending_at-track (uint64 (d.last + 1)) j a b d.pending (IsPlaced-free d placed leads room)
              found,
        ))
    | inr (inr waits) ↦ elim (rw q at waits) [
      | inl mine ↦ inr (
          inl (
            uint64 (d.last + 1),
            rw (← mine)
                (pending_at-head (uint64 (d.last + 1)) b (forget (uint64 (d.last + 1)) d.pending)),
          ))
      | inr behind ↦ inr (inr behind)
    ]
  ]
  Step-IsAccounted {d} placed (applied_at i r) h a low =
      let old : a < d.next = omega (arith, resolved-next d i r (pending_at i d.pending), low) in
      resolved-IsAccounted d i r (pending_at i d.pending) a refl old (h a old)
  Step-IsAccounted {d} placed lost h a low = elim (h a low) [
    | inl done ↦ inl (done.0, fail_all-kept d.pending d.futures a done.0 done.1)
    | inr (inl (j, found)) ↦ inl (fail_all-IsAnswered d.pending d.futures j a found)
    | inr (inr waits) ↦ inr (inr waits)
  ]
  Step-IsAccounted {d} placed (noop_stored leads room) h a low = h a low
  Step-IsAccounted {d} placed (elected out) h a low = h a low
  Step-IsAccounted {d} placed (overruled i leads) h a low = h a low
  Step-IsAccounted {d} placed (followed i out) h a low = h a low

  Run-IsAccounted : {t : Desk R} → Run fresh t → (a : ℕ) → a < t.next → IsAccounted t a
  Run-IsAccounted here a low = absurd (omega arith)
  Run-IsAccounted (later run step) a low =
      Step-IsAccounted (Run-IsPlaced run) step (Run-IsAccounted run) a low

  -- No future is lost, and none is answered twice: in every state that a node's futures reach, each is answered, pending,
  -- or that of a queued request, and an answer stays as it is whatever steps follow.
  pub futures-IsAccounted :
      (t u : Desk R) (a : ℕ)
      → Run fresh t
      → Run t u
      → a < t.next
      → IsAccounted t a × ((x : Answer R) → t.futures a ≡ some x → u.futures a ≡ some x)
  futures-IsAccounted t u a run run' low =
      (Run-IsAccounted run a low, λ x h. (Run-Keeps run').stays a x low h)
