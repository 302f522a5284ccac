-- ===== src/Raft/Inmem/Interface.antt =====
-- InmemLogStore (internal/raft/inmem.go) as the LogStore that the protocol uses.
use claude_ds_project.Base.{ℕ, ◌≡◌, ◌∙◌, refl, ap, List, none, some}
use claude_ds_project.Raft.Types.{LogEntry}
use claude_ds_project.Raft.LogStore.{LogStore, LogLaws, IsInfallible}
use claude_ds_project.Raft.Inmem.{
  InmemLogStore, get_log, store_logs, delete_range, IsBounded, get_log-store_logs,
  get_log-delete_range, store_logs-IsBounded, delete_range-IsBounded,
}

-- A store, with the bound that its operations keep.
pub record Bounded : Type 0 where
  pub store : InmemLogStore
  pub bound : IsBounded store

abbrev pub stored : Bounded → List LogEntry → Bounded
stored s es = record {
  store = store_logs s.store es;
  bound = store_logs-IsBounded es s.store s.bound;
}

abbrev pub deleted : Bounded → ℕ → ℕ → Bounded
deleted s lo hi = record {
  store = delete_range s.store lo hi;
  bound = delete_range-IsBounded s.store lo hi;
}

abbrev pub inmem : LogStore
inmem = record {
  Store = Bounded;
  last_index = λ s. s.store.high_idx;
  get_log = λ s i. get_log s.store i;
  failed_get = λ s i. none;
  store_logs = λ s es. some (stored s es);
  delete_range = λ s lo hi. some (deleted s lo hi);
}

some-injective : {A : Type 0} {x y : A} → some x ≡ some y → y ≡ x
some-injective h = cc

-- The in-memory store keeps the laws of a log store: what is read after a write and after a deletion, and a last index
-- that is at least the index of every entry.
pub inmem-LogLaws : LogLaws inmem
unfolding get_log
inmem-LogLaws = record {
  get-store = λ s s' es i p.
      ap (λ t. get_log t.store i) (some-injective p) ∙ get_log-store_logs es s.store i;
  get-delete = λ s s' lo hi i p.
      ap (λ t. get_log t.store i) (some-injective p) ∙ get_log-delete_range s.store lo hi i;
  get-last = λ s i e p. s.bound.bounded i e p;
}

-- None of its writes fails.
pub inmem-IsInfallible : IsInfallible inmem
inmem-IsInfallible = record {
  stores = λ s es. (stored s es, refl);
  deletes = λ s lo hi. (deleted s lo hi, refl);
}
