-- ===== src/Bolt.antt =====
-- internal/store/boltstore.go: the log and the stable store in two buckets of a BoltDB file. The buckets are
-- bbolt's and the codec is encoding/json's, so both are arguments; `none` is an error. A transaction that
-- fails leaves the bucket as it was.
pub mod Keys
pub mod Buckets
pub mod Deleting
pub mod Log
use claude_ds_project.Base.{
  ℕ, zero, suc, ◌+◌, ◌-◌, ◌*◌, ◌/◌, ◌%◌, List, [], ◌∷◌, ◌++◌, Option, none, some, ltb, ◌==◌,
  if◌then◌else◌, length,
}
use claude_ds_project.Raft.Types.{LogEntry}
use claude_ds_project.Raft.Transport.{Bytes, Codec}

-- binary.BigEndian.PutUint64, at a number of bytes.
unfoldable pub big_endian : ℕ → ℕ → Bytes
big_endian zero v = []
big_endian (suc width) v = big_endian width (v / 256) ++ (v % 256 ∷ [])

unfoldable pub digits : ℕ → Bytes → ℕ
digits v [] = v
digits v (b ∷ bs) = digits (v * 256 + b) bs

-- uint64ToBytes
unfoldable pub uint64_to_bytes : ℕ → Bytes
unfolding big_endian
uint64_to_bytes v = big_endian 8 v

-- bytesToUint64, of eight bytes: the callers have them from uint64ToBytes, or test the length.
unfoldable pub bytes_to_uint64 : Bytes → ℕ
unfolding digits
bytes_to_uint64 b = digits 0 b

-- A bucket: Get, Put, and the moves of a cursor, Seek to the first key that is not before another, Next to the
-- first key behind the cursor's, First, Last, and Delete at the cursor.
pub record Bucket : Type 1 where
  pub State : Type 0
  pub get : State → Bytes → Option Bytes
  pub put : State → Bytes → Bytes → Option State
  pub delete : State → Bytes → Option State
  pub seek : State → Bytes → Option Bytes
  pub next : State → Bytes → Option Bytes
  pub first : State → Option Bytes
  pub last : State → Option Bytes

abbrev pub index_of : Option Bytes → ℕ
index_of none = 0
index_of (some k) = bytes_to_uint64 k

abbrev pub unmarshalled : Codec LogEntry → Option Bytes → Option LogEntry
unmarshalled codec none = none
unmarshalled codec (some v) = codec.unmarshal v

-- What becomes of a deletion; `unfinished` is a loop that runs out of fuel.
pub data Deletion (State : Type 0) : Type 0 where
  finished : State → Deletion State
  aborted : Deletion State
  unfinished : Deletion State

module _ (K : Bucket) where
  -- FirstIndex and LastIndex
  unfoldable pub first_index : K.State → ℕ
  unfolding bytes_to_uint64
  first_index t = index_of (K.first t)

  unfoldable pub last_index : K.State → ℕ
  unfolding bytes_to_uint64
  last_index t = index_of (K.last t)

  -- GetLog
  unfoldable pub get_log : Codec LogEntry → K.State → ℕ → Option LogEntry
  unfolding uint64_to_bytes
  get_log codec t i = unmarshalled codec (K.get t (uint64_to_bytes i))

  abbrev pub put_entry : K.State → ℕ → Option Bytes → Option K.State
  put_entry t i none = none
  put_entry t i (some v) = K.put t (uint64_to_bytes i) v

  abbrev pub and_then : (K.State → Option K.State) → Option K.State → Option K.State
  and_then next none = none
  and_then next (some t) = next t

  -- StoreLogs; StoreLog is StoreLogs of one entry.
  unfoldable pub store_logs : Codec LogEntry → K.State → List LogEntry → Option K.State
  unfolding uint64_to_bytes
  store_logs codec t [] = some t
  store_logs codec t (e ∷ es) =
      and_then (λ t'. store_logs codec t' es) (put_entry t e.index (codec.marshal e))

  abbrev pub deleted : (K.State → Deletion K.State) → Option K.State → Deletion K.State
  deleted next none = aborted
  deleted next (some t) = next t

  -- The loop of DeleteRange, from where the cursor is.
  unfoldable pub delete_loop : ℕ → ℕ → K.State → Option Bytes → Deletion K.State
  unfolding bytes_to_uint64
  delete_loop zero hi t cursor = unfinished
  delete_loop (suc fuel) hi t none = finished t
  delete_loop (suc fuel) hi t (some k) =
      let after = deleted (λ t'. delete_loop fuel hi t' (K.next t' k)) (K.delete t k) in
      if ltb hi (bytes_to_uint64 k) then finished t else after

  -- DeleteRange; each round deletes an index up to `hi`.
  unfoldable pub delete_range : K.State → ℕ → ℕ → Deletion K.State
  unfolding delete_loop uint64_to_bytes
  delete_range t lo hi = delete_loop (suc (suc hi)) hi t (K.seek t (uint64_to_bytes lo))

  -- SetUint64, by Set
  unfoldable pub set_uint64 : K.State → Bytes → ℕ → Option K.State
  unfolding uint64_to_bytes
  set_uint64 t key v = K.put t key (uint64_to_bytes v)

  abbrev pub uint64_of : Option Bytes → Option ℕ
  uint64_of none = some 0
  uint64_of (some v) =
      if length v == 0 then some 0 else if length v == 8 then some (bytes_to_uint64 v) else none

  -- GetUint64, by Get
  unfoldable pub get_uint64 : K.State → Bytes → Option ℕ
  unfolding bytes_to_uint64
  get_uint64 t key = uint64_of (K.get t key)
