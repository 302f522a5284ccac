-- ===== src/Bolt/Buckets.antt =====
-- What the store relies on of a bucket of bbolt, as its documentation has it: the keys are kept in byte
-- order.
use claude_ds_project.Base.{ℕ, ◌<◌, ◌≡◌, ◌≢◌, none, some, true, false}
use claude_ds_project.Raft.Types.{LogEntry}
use claude_ds_project.Raft.Transport.{Bytes, Codec}
use claude_ds_project.Bolt.{Bucket, uint64_to_bytes}
use claude_ds_project.Bolt.Keys.{before, limit}

pub record BucketLaws (K : Bucket) : Type 0 where
  pub get-put : (t t' : K.State) (k v : Bytes) → K.put t k v ≡ some t' → K.get t' k ≡ some v
  pub get-put_other :
      (t t' : K.State) (k v j : Bytes) → K.put t k v ≡ some t' → j ≢ k → K.get t' j ≡ K.get t j
  pub get-delete : (t t' : K.State) (k : Bytes) → K.delete t k ≡ some t' → K.get t' k ≡ none
  pub get-delete_other :
      (t t' : K.State) (k j : Bytes) → K.delete t k ≡ some t' → j ≢ k → K.get t' j ≡ K.get t j
  pub seek-found :
      (t : K.State) (k j : Bytes)
      → K.seek t k ≡ some j
      → (before j k ≡ false)
        × (K.get t j ≢ none)
        × ((i v : Bytes) → K.get t i ≡ some v → before i k ≡ false → before i j ≡ false)
  pub seek-end :
      (t : K.State) (k i v : Bytes) → K.seek t k ≡ none → K.get t i ≡ some v → before i k ≡ true
  pub last-found :
      (t : K.State) (j : Bytes)
      → K.last t ≡ some j
      → (K.get t j ≢ none) × ((i v : Bytes) → K.get t i ≡ some v → before j i ≡ false)
  pub last-none : (t : K.State) (i : Bytes) → K.last t ≡ none → K.get t i ≡ none

-- What DeleteRange would need besides: that Next behind a Delete finds the first key behind the deleted one. The
-- documentation of bbolt does not promise it: a cursor has to be positioned again after a change.
pub record Repositions (K : Bucket) : Type 0 where
  pub next-found :
      (t : K.State) (k j : Bytes)
      → K.next t k ≡ some j
      → (before k j ≡ true)
        × (K.get t j ≢ none)
        × ((i v : Bytes) → K.get t i ≡ some v → before k i ≡ true → before i j ≡ false)
  pub next-end :
      (t : K.State) (k i v : Bytes) → K.next t k ≡ none → K.get t i ≡ some v → before k i ≡ false

-- A bucket whose keys are indices, as StoreLogs makes them.
abbrev pub IsLog : (K : Bucket) → K.State → Type 0
IsLog K t = (k v : Bytes) → K.get t k ≡ some v → (i : ℕ) × (i < limit) × (k ≡ uint64_to_bytes i)

-- json.Unmarshal restores what json.Marshal wrote of a log entry.
abbrev pub Restores : Codec LogEntry → Type 0
Restores codec = (e : LogEntry) (v : Bytes) → codec.marshal e ≡ some v → codec.unmarshal v ≡ some e
