-- ===== src/Raft/Inmem.antt =====
-- InmemLogStore of internal/raft/inmem.go: the map from index to entry with its two bounds. It never
-- fails. (InmemStableStore is the field `stable` of a node, and InmemTransport is not modelled.)
pub mod Interface
use claude_ds_project.Base.{
  ℕ, ◌≤◌, ◌≡◌, refl, ap, ◌∙◌, List, [], ◌∷◌, Option, none, some, ◌==◌, leb, ltb, ◌&&◌, ◌||◌,
  if◌then◌else◌, Bool-cases, inl, inr, arith,
}
use claude_ds_project.Raft.Types.{LogEntry}
use claude_ds_project.Raft.LogStore.{written}

abbrev pub Entries : Type 0
Entries = List (ℕ × LogEntry)

pub record InmemLogStore : Type 0 where
  pub entries : Entries
  pub low_idx : ℕ
  pub high_idx : ℕ

-- NewInmemLogStore
unfoldable pub new_store : InmemLogStore
new_store = record { entries = []; low_idx = 0; high_idx = 0 }

-- s.entries[index]
unfoldable pub find : ℕ → Entries → Option LogEntry
find i [] = none
find i ((k, e) ∷ m) = if k == i then some e else find i m

-- GetLog
unfoldable pub get_log : InmemLogStore → ℕ → Option LogEntry
unfolding find
get_log s i = find i s.entries

-- s.entries[e.Index] = &cp
unfoldable pub put : ℕ → LogEntry → Entries → Entries
put i e [] = (i, e) ∷ []
put i e ((k, x) ∷ m) = if k == i then (i, e) ∷ m else (k, x) ∷ put i e m

widen_low : ℕ → ℕ → ℕ
widen_low low i = if low == 0 || ltb i low then i else low

widen_high : ℕ → ℕ → ℕ
widen_high high i = if ltb high i then i else high

-- StoreLogs
unfoldable pub store_logs : InmemLogStore → List LogEntry → InmemLogStore
unfolding put widen_low widen_high
store_logs s [] = s
store_logs s (e ∷ es) =
    store_logs
      (record {
        entries = put e.index e s.entries;
        low_idx = widen_low s.low_idx e.index;
        high_idx = widen_high s.high_idx e.index;
      })
      es

-- The loop of `DeleteRange`: every index from `min` to `max` is removed.
unfoldable pub remove_range : ℕ → ℕ → Entries → Entries
remove_range lo hi [] = []
remove_range lo hi ((k, e) ∷ m) =
    let rest = remove_range lo hi m in if leb lo k && leb k hi then rest else (k, e) ∷ rest

unfoldable pub lowest : ℕ → Entries → ℕ
unfolding widen_low
lowest low [] = low
lowest low ((k, e) ∷ m) = lowest (widen_low low k) m

unfoldable pub highest : ℕ → Entries → ℕ
unfolding widen_high
highest high [] = high
highest high ((k, e) ∷ m) = highest (widen_high high k) m

-- DeleteRange, of a range that ends below the last uint64: at that one, the loop `i <= max` of the code never ends.
unfoldable pub delete_range : InmemLogStore → ℕ → ℕ → InmemLogStore
unfolding remove_range lowest highest
delete_range s lo hi =
    let left = remove_range lo hi s.entries in
    record { entries = left; low_idx = lowest 0 left; high_idx = highest 0 left }

-- The bound on the indices.
pub record IsBounded (s : InmemLogStore) : Type 0 where
  pub bounded : (i : ℕ) (e : LogEntry) → find i s.entries ≡ some e → i ≤ s.high_idx

find-put :
    (i j : ℕ) (e : LogEntry) (m : Entries)
    → find j (put i e m) ≡ (if i == j then some e else find j m)
unfolding find put
find-put i j e [] = refl
find-put i j e ((k, x) ∷ m) = ground (arith, find-put i j e m)

find-remove_range :
    (lo hi i : ℕ) (m : Entries)
    → find i (remove_range lo hi m) ≡ (if leb lo i && leb i hi then none else find i m)
unfolding find remove_range
find-remove_range lo hi i [] = ground arith
find-remove_range lo hi i ((k, e) ∷ m) = ground (arith, find-remove_range lo hi i m)

-- Reading after `StoreLogs`: the last entry written for the index, or what was there.
pub get_log-store_logs :
    (es : List LogEntry) (s : InmemLogStore) (i : ℕ)
    → get_log (store_logs s es) i ≡ written es i (get_log s i)
unfolding get_log store_logs
get_log-store_logs [] s i = refl
get_log-store_logs (e ∷ es) s i =
    get_log-store_logs es
      (record {
        entries = put e.index e s.entries;
        low_idx = widen_low s.low_idx e.index;
        high_idx = widen_high s.high_idx e.index;
      })
      i
    ∙ ap (written es i) (find-put e.index i e s.entries)

-- Reading after `DeleteRange`: nothing in the range, and outside it what was there.
pub get_log-delete_range :
    (s : InmemLogStore) (lo hi i : ℕ)
    → get_log (delete_range s lo hi) i ≡ (if leb lo i && leb i hi then none else get_log s i)
unfolding get_log delete_range
get_log-delete_range s lo hi i = find-remove_range lo hi i s.entries

highest-le : (h : ℕ) (m : Entries) → h ≤ highest h m
unfolding highest
highest-le h [] = omega arith
highest-le h ((k, e) ∷ m) = ground (arith, highest-le (widen_high h k) m)

find-highest : (h i : ℕ) (m : Entries) {e : LogEntry} → find i m ≡ some e → i ≤ highest h m
unfolding find highest
find-highest h i [] f = cc
find-highest h i ((k, x) ∷ m) {e} f = elim (Bool-cases (k == i)) [
  | inl same ↦ ground (arith, highest-le (widen_high h k) m)
  | inr other ↦ find-highest (widen_high h k) i m {e = e} (rw other at f)
]

pub delete_range-IsBounded : (s : InmemLogStore) (lo hi : ℕ) → IsBounded (delete_range s lo hi)
unfolding delete_range
delete_range-IsBounded s lo hi = record {
  bounded = λ i e f. find-highest 0 i (remove_range lo hi s.entries) f;
}

pub store_logs-IsBounded :
    (es : List LogEntry) (s : InmemLogStore) → IsBounded s → IsBounded (store_logs s es)
unfolding store_logs
store_logs-IsBounded [] s h = h
store_logs-IsBounded (e ∷ es) s h =
    store_logs-IsBounded es
      (record {
        entries = put e.index e s.entries;
        low_idx = widen_low s.low_idx e.index;
        high_idx = widen_high s.high_idx e.index;
      })
      (record { bounded = λ i x f. ground (arith, find-put e.index i e s.entries, h.bounded i x) })
