-- ===== src/Raft/Future.antt =====
-- internal/raft/future.go, and the pending futures of internal/raft/raft.go: a future is an address, since the
-- caller, the map of pending futures and the timeout's goroutine share it.
pub mod Answers
pub mod Places
pub mod Accounts
use claude_ds_project.Raft.Types.{uint64}
use claude_ds_project.Base.{
  ℕ, suc, ◌+◌, List, [], ◌∷◌, ◌++◌, Option, none, some, ◌==◌, if◌then◌else◌, set,
}

-- The errors of future.go; `store_error` is that of StoreLog.
pub data Failure : Type 0 where
  not_leader shutting_down timed_out leader_lost store_error : Failure

-- What `respond` is given: an error, or the response of the state machine.
pub data Answer (R : Type 0) : Type 0 where
  failed : Failure → Answer R
  applied : R → Answer R

-- ApplyFuture: what the first call of `respond` has put in its channel.
abbrev pub Future : Type 0 → Type 0
Future R = Option (Answer R)

-- respond: only the first call counts.
unfoldable pub respond : {R : Type 0} → Answer R → Future R → Future R
respond x none = some x
respond x (some y) = some y

-- Where the main loop is: outside runLeader, in its loop, or behind an RPC that ended the leadership and before
-- failPendingFutures.
pub data Phase : Type 0 where
  outside leading closing : Phase

-- The futures, the map pendingFutures from indices to them, those of the requests in applyCh, and the last index of
-- the log.
pub record Desk (R : Type 0) : Type 0 where
  pub futures : ℕ → Future R
  pub next : ℕ
  pub pending : List (ℕ × ℕ)
  pub queued : List ℕ
  pub last : ℕ
  pub phase : Phase

unfoldable pub pending_at : ℕ → List (ℕ × ℕ) → Option ℕ
pending_at i [] = none
pending_at i ((j, a) ∷ m) = if j == i then some a else pending_at i m

-- delete(r.pendingFutures, idx)
unfoldable pub forget : ℕ → List (ℕ × ℕ) → List (ℕ × ℕ)
forget i [] = []
forget i ((j, a) ∷ m) = let rest = forget i m in if j == i then rest else (j, a) ∷ rest

module _ {R : Type 0} where
  unfoldable pub answer : ℕ → Answer R → (ℕ → Future R) → ℕ → Future R
  unfolding respond
  answer a x futures = set a (respond x (futures a)) futures

  -- Apply on a node that leads: a new future, whose request is put in applyCh.
  unfoldable pub apply : Desk R → Desk R
  apply d = record d {
    futures = set d.next none d.futures;
    next = suc d.next;
    queued = d.queued ++ (d.next ∷ []);
  }

  -- Apply on a node that does not lead, or that does not get its request into applyCh.
  unfoldable pub apply_refused : Failure → Desk R → Desk R
  apply_refused e d = record d {
    futures = set d.next (some (failed e)) d.futures;
    next = suc d.next;
  }

  -- The error of a refused request, of the timeout or of the shutdown.
  unfoldable pub refuse : ℕ → Failure → Desk R → Desk R
  unfolding answer
  refuse a e d = record d { futures = answer a (failed e) d.futures }

  -- handleApplyRequest that has stored the entry at an index: what was pending there is overwritten.
  unfoldable pub track : ℕ → ℕ → Desk R → Desk R
  unfolding forget
  track i a d = record d { pending = (i, a) ∷ forget i d.pending }

  -- handleApplyRequest of a leader on the next request, when StoreLog succeeds.
  unfoldable pub store_request : ℕ → List ℕ → Desk R → Desk R
  unfolding track
  store_request a rest d = record (track (uint64 (d.last + 1)) a d) {
    queued = rest;
    last = uint64 (d.last + 1);
  }

  abbrev pub resolved_at : ℕ → R → Option ℕ → Desk R → Desk R
  resolved_at i r none d = d
  resolved_at i r (some a) d = record d {
    futures = answer a (applied r) d.futures;
    pending = forget i d.pending;
  }

  -- applyCommitted, behind an applied entry.
  unfoldable pub resolve : ℕ → R → Desk R → Desk R
  unfolding answer pending_at forget
  resolve i r d = resolved_at i r (pending_at i d.pending) d

  unfoldable pub fail_all : List (ℕ × ℕ) → (ℕ → Future R) → ℕ → Future R
  unfolding answer
  fail_all [] futures = futures
  fail_all ((i, a) ∷ m) futures = fail_all m (answer a (failed leader_lost) futures)

  -- failPendingFutures
  unfoldable pub fail_pending : Desk R → Desk R
  unfolding fail_all
  fail_pending d = record d { futures = fail_all d.pending d.futures; pending = [] }

  -- The end of runLeader.
  unfoldable pub leave : Desk R → Desk R
  unfolding fail_pending
  leave d = record (fail_pending d) { phase = outside }
