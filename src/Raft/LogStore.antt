-- ===== src/Raft/LogStore.antt =====
-- The interface LogStore of internal/raft/types.go, and what the protocol relies on. A failing
-- `LastIndex` returns 0, as the empty log does, and every caller treats the two alike; `none` is the
-- error of the other operations.
use claude_ds_project.Base.{
  ℕ, ◌≤◌, ◌≡◌, List, [], ◌∷◌, Option, none, some, ◌==◌, leb, ◌&&◌, if◌then◌else◌,
}
use claude_ds_project.Raft.Types.{LogEntry}

pub record LogStore : Type 1 where
  pub Store : Type 0
  pub last_index : Store → ℕ
  pub get_log : Store → ℕ → Option LogEntry
  -- The entry that GetLog returns beside an error: a nil pointer of the in-memory store, and a zero or half decoded
  -- entry of the bolt store.
  pub failed_get : Store → ℕ → Option LogEntry
  pub store_logs : Store → List LogEntry → Option Store
  pub delete_range : Store → ℕ → ℕ → Option Store

-- The entry for an index after a list of entries is written over what was there.
abbrev pub written : List LogEntry → ℕ → Option LogEntry → Option LogEntry
written [] i old = old
written (e ∷ es) i old = written es i (if e.index == i then some e else old)

pub record LogLaws (L : LogStore) : Type 0 where
  pub get-store :
      (s s' : L.Store) (es : List LogEntry) (i : ℕ)
      → L.store_logs s es ≡ some s'
      → L.get_log s' i ≡ written es i (L.get_log s i)
  pub get-delete :
      (s s' : L.Store) (lo hi i : ℕ)
      → L.delete_range s lo hi ≡ some s'
      → L.get_log s' i ≡ (if leb lo i && leb i hi then none else L.get_log s i)
  pub get-last : (s : L.Store) (i : ℕ) (e : LogEntry) → L.get_log s i ≡ some e → i ≤ L.last_index s

-- A log store whose writes never fail.
pub record IsInfallible (L : LogStore) : Type 0 where
  pub stores : (s : L.Store) (es : List LogEntry) → (s' : L.Store) × (L.store_logs s es ≡ some s')
  pub deletes : (s : L.Store) (lo hi : ℕ) → (s' : L.Store) × (L.delete_range s lo hi ≡ some s')
