-- ===== src/Examples/Futures.antt =====
-- One request of a client, which the leader stores at index 1 and which is applied (internal/raft).
use claude_ds_project.Base.{ℕ, ◌<◌, ◌≡◌, refl, [], some, set, arith}
use claude_ds_project.Raft.Future.{
  Answer, applied, Desk, apply, track, resolve, pending_at, forget, answer, respond, store_request,
  leading,
}
use claude_ds_project.Raft.Future.Answers.{called, elected, tracked, applied_at, Run, here, later}
use claude_ds_project.Raft.Future.Places.{fresh}
use claude_ds_project.Raft.Future.Accounts.{IsAccounted, futures-IsAccounted}

abbrev asked : Desk ℕ
asked = record (apply fresh) { phase = leading }

abbrev stored : Desk ℕ
stored = store_request 0 [] asked

abbrev done : Desk ℕ
done = resolve 1 9 stored

storing : Run fresh stored
unfolding apply
storing = later (later (later here called) (elected refl)) (tracked 0 [] refl (omega arith) refl)

small : 0 < stored.next
unfolding apply store_request track
small = omega arith

-- The caller gets the response.
answered : done.futures 0 ≡ some (applied 9)
unfolding apply store_request track resolve pending_at forget answer respond set
answered = refl

futures-IsAccounted_example :
    IsAccounted stored 0 × ((x : Answer ℕ) → stored.futures 0 ≡ some x → done.futures 0 ≡ some x)
futures-IsAccounted_example =
    futures-IsAccounted stored done 0 storing (later here (applied_at 1 9)) small
