-- ===== src/Raft/Future/Answers.antt =====
-- The futures of a node over any steps (internal/raft/future.go and raft.go).
use claude_ds_project.Base.{
  ℕ, ◌+◌, ◌<◌, ◌≡◌, inl, inr, refl, ◌∙◌, ap, List, [], ◌∷◌, Option, none, some, Option-cases,
  Bool-cases, ◌==◌, set-same, set-other, set-elim, arith,
}
use claude_ds_project.Raft.Types.{uint64}
use claude_ds_project.Raft.Future.{
  Failure, Answer, failed, applied, leader_lost, Future, respond, Desk, pending_at, answer, apply,
  apply_refused, refuse, track, resolve, resolved_at, fail_all, fail_pending, leave, store_request,
  outside, leading, closing,
}

module _ {R : Type 0} where
  abbrev pub IsAnswered : (ℕ → Future R) → ℕ → Type 0
  IsAnswered f a = (x : Answer R) × (f a ≡ some x)

  pub answer-kept :
      (a : ℕ) (x : Answer R) (f : ℕ → Future R) (b : ℕ) (y : Answer R)
      → f b ≡ some y
      → answer a x f b ≡ some y
  unfolding answer respond
  answer-kept a x f b y h =
      set-elim (λ c z. f c ≡ some y → z ≡ some y) a (respond x (f a)) f b (λ k. rw k refl)
        (λ _ k. k) h

  pub answer-IsAnswered : (a : ℕ) (x : Answer R) (f : ℕ → Future R) → IsAnswered (answer a x f) a
  unfolding answer respond
  answer-IsAnswered a x f = elim (Option-cases (f a)) [
    | inl open_ ↦ (x, set-same a (respond x (f a)) f ∙ ap (respond x) open_)
    | inr (y, closed) ↦ (y, set-same a (respond x (f a)) f ∙ ap (respond x) closed)
  ]

  pub fail_all-kept :
      (m : List (ℕ × ℕ)) (f : ℕ → Future R) (b : ℕ) (y : Answer R)
      → f b ≡ some y
      → fail_all m f b ≡ some y
  unfolding fail_all
  fail_all-kept [] f b y h = h
  fail_all-kept ((i, a) ∷ m) f b y h =
      fail_all-kept m (answer a (failed leader_lost) f) b y
        (answer-kept a (failed leader_lost) f b y h)

  pub fail_all-IsAnswered :
      (m : List (ℕ × ℕ)) (f : ℕ → Future R) (i a : ℕ)
      → pending_at i m ≡ some a
      → IsAnswered (fail_all m f) a
  unfolding fail_all pending_at
  fail_all-IsAnswered [] f i a h = cc
  fail_all-IsAnswered ((j, b) ∷ m) f i a h = elim (Bool-cases (j == i)) [
    | inl same ↦
        let e : a ≡ b = let k = rw same at h in cc in
        let (y, done) = answer-IsAnswered b (failed leader_lost) f in
        (y, fail_all-kept m (answer b (failed leader_lost) f) a y (rw e done))
    | inr other ↦ fail_all-IsAnswered m (answer b (failed leader_lost) f) i a (rw other at h)
  ]

  -- The steps of a node that its futures see.
  pub data Step (d : Desk R) : Desk R → Type 0 where
    called : Step d (apply d)
    refused : (e : Failure) → Step d (apply_refused e d)
    -- The timeout, or the shutdown.
    expired : (a : ℕ) (e : Failure) → a < d.next → Step d (refuse a e d)
    -- The next request is refused, or its entry not stored.
    rejected :
        (a : ℕ) (rest : List ℕ) (e : Failure)
        → d.queued ≡ a ∷ rest
        → a < d.next
        → Step d (record (refuse a e d) { queued = rest })
    -- The leader stores it behind its log, or a no-op; an index is below the last of 64 bits.
    tracked :
        (a : ℕ) (rest : List ℕ)
        → d.phase ≡ leading
        → d.last + 1 < 18446744073709551616
        → d.queued ≡ a ∷ rest
        → Step d (store_request a rest d)
    noop_stored :
        d.phase ≡ leading
        → d.last + 1 < 18446744073709551616
        → Step d (record d { last = uint64 (d.last + 1) })
    applied_at : (i : ℕ) (r : R) → Step d (resolve i r d)
    -- The node enters runLeader, or leaves it; an RPC that changes the log of a leader ends the leadership, and a node
    -- outside runLeader may change its log at any time.
    elected : d.phase ≡ outside → Step d (record d { phase = leading })
    overruled : (i : ℕ) → d.phase ≡ leading → Step d (record d { last = i; phase = closing })
    lost : Step d (leave d)
    followed : (i : ℕ) → d.phase ≡ outside → Step d (record d { last = i })

  pub data Run (d : Desk R) : Desk R → Type 0 where
    here : Run d d
    later : {t u : Desk R} → Run d t → Step t u → Run d u

  -- What a step keeps: the number of futures only grows, and an answer stays.
  pub record Keeps (d t : Desk R) : Type 0 where
    pub grows : (a : ℕ) → a < d.next → a < t.next
    pub stays : (a : ℕ) (x : Answer R) → a < d.next → d.futures a ≡ some x → t.futures a ≡ some x

  resolved-Keeps : (d : Desk R) (i : ℕ) (r : R) (o : Option ℕ) → Keeps d (resolved_at i r o d)
  resolved-Keeps d i r none = record { grows = λ a h. h; stays = λ a x _ h. h }
  resolved-Keeps d i r (some b) = record {
    grows = λ a h. h;
    stays = λ a x _ h. answer-kept b (applied r) d.futures a x h;
  }

  Step-Keeps : {d t : Desk R} → Step d t → Keeps d t
  unfolding apply apply_refused refuse track store_request resolve fail_pending leave
  Step-Keeps {d} called = record {
    grows = λ a h. omega arith;
    stays = λ a x low h. set-other d.next none d.futures a (omega arith) ∙ h;
  }
  Step-Keeps {d} (refused e) = record {
    grows = λ a h. omega arith;
    stays = λ a x low h. set-other d.next (some (failed e)) d.futures a (omega arith) ∙ h;
  }
  Step-Keeps {d} (expired b e low) = record {
    grows = λ a h. h;
    stays = λ a x _ h. answer-kept b (failed e) d.futures a x h;
  }
  Step-Keeps {d} (rejected b rest e q low) = record {
    grows = λ a h. h;
    stays = λ a x _ h. answer-kept b (failed e) d.futures a x h;
  }
  Step-Keeps {d} (tracked b rest leads room q) = record { grows = λ a h. h; stays = λ a x _ h. h }
  Step-Keeps {d} (noop_stored leads room) = record { grows = λ a h. h; stays = λ a x _ h. h }
  Step-Keeps {d} (elected out) = record { grows = λ a h. h; stays = λ a x _ h. h }
  Step-Keeps {d} (overruled i leads) = record { grows = λ a h. h; stays = λ a x _ h. h }
  Step-Keeps {d} (followed i out) = record { grows = λ a h. h; stays = λ a x _ h. h }
  Step-Keeps {d} (applied_at i r) = resolved-Keeps d i r (pending_at i d.pending)
  Step-Keeps {d} lost = record {
    grows = λ a h. h;
    stays = λ a x _ h. fail_all-kept d.pending d.futures a x h;
  }

  pub Run-Keeps : {d t : Desk R} → Run d t → Keeps d t
  Run-Keeps here = record { grows = λ a h. h; stays = λ a x _ h. h }
  Run-Keeps (later run step) =
      let k = Run-Keeps run in
      let l = Step-Keeps step in
      record {
        grows = λ a h. l.grows a (k.grows a h);
        stays = λ a x low h. l.stays a x (k.grows a low) (k.stays a x low h);
      }
