-- ===== src/Examples/Stores.antt =====
-- A log in a bucket (internal/store/boltstore.go).
use claude_ds_project.Base.{ℕ, ◌≡◌, ◌≤◌, refl, [], ◌∷◌, Option, none, some, ltb, arith}
use claude_ds_project.Raft.Types.{LogEntry}
use claude_ds_project.Raft.LogStore.{written}
use claude_ds_project.Raft.Transport.{Bytes, Codec}
use claude_ds_project.Bolt.{
  big_endian, uint64_to_bytes, last_index, get_log, store_logs, finished, delete_loop, delete_range,
  bytes_to_uint64, set_uint64, get_uint64,
}
use claude_ds_project.Bolt.Keys.{before, before-uint64_to_bytes}
use claude_ds_project.Bolt.Buckets.{IsLog, Restores}
use claude_ds_project.Bolt.Deleting.{Ends, delete_range-Ends, delete_loop-keeps_above}
use claude_ds_project.Bolt.Log.{get_uint64-set_uint64, get_log-store_logs, get_log-last_index}
use claude_ds_project.Examples.ListBucket.{
  Entries, list_bucket, list_bucket-BucketLaws, list_bucket-Repositions, pick, equal, find, remove,
  nothing-IsLog, cons-IsLog,
}
use claude_ds_project.Examples.Cluster.{entry}

abbrev low : ℕ
low = 255

abbrev high : ℕ
high = 256

before-uint64_to_bytes_example :
    (before (uint64_to_bytes low) (uint64_to_bytes high) ≡ ltb low high)
    × (uint64_to_bytes low ≡ uint64_to_bytes high → low ≡ high)
before-uint64_to_bytes_example = before-uint64_to_bytes low high (omega arith) (omega arith)

-- An entry is its index and its term.
abbrev marshal_entry : LogEntry → Option Bytes
marshal_entry e = some (e.index ∷ (e.term ∷ e.payload))

abbrev unmarshal_entry : Bytes → Option LogEntry
unmarshal_entry (index ∷ (term ∷ payload)) =
    some (record { index = index; term = term; payload = payload })
unmarshal_entry _ = none

abbrev codec : Codec LogEntry
codec = record { marshal = marshal_entry; unmarshal = unmarshal_entry }

restores : Restores codec
restores e v h = let f : v ≡ e.index ∷ (e.term ∷ e.payload) = cc in rw f refl

-- The indices 1 and 2 under their keys.
abbrev stored : Entries
stored = (uint64_to_bytes 2, 2 ∷ (1 ∷ [])) ∷ (uint64_to_bytes 1, 1 ∷ (1 ∷ [])) ∷ []

stores : store_logs list_bucket codec [] (entry 1 1 ∷ entry 2 1 ∷ []) ≡ some stored
unfolding store_logs remove equal uint64_to_bytes big_endian
stores = refl

get_log-store_logs_example :
    get_log list_bucket codec stored 1
    ≡ written (entry 1 1 ∷ entry 2 1 ∷ []) 1 (get_log list_bucket codec [] 1)
get_log-store_logs_example =
    get_log-store_logs list_bucket list_bucket-BucketLaws codec restores
      (entry 1 1 ∷ entry 2 1 ∷ []) [] stored 1 (omega arith, (omega arith, tt)) (omega arith) stores

stored-IsLog : IsLog list_bucket stored
stored-IsLog =
    cons-IsLog 2 (2 ∷ (1 ∷ [])) ((uint64_to_bytes 1, 1 ∷ (1 ∷ [])) ∷ []) (omega arith)
      (cons-IsLog 1 (1 ∷ (1 ∷ [])) [] (omega arith) nothing-IsLog)

found : get_log list_bucket codec stored 1 ≡ some (entry 1 1)
unfolding get_log find equal uint64_to_bytes big_endian
found = refl

get_log-last_index_example : 1 ≤ last_index list_bucket stored
get_log-last_index_example =
    get_log-last_index list_bucket list_bucket-BucketLaws codec restores stored 1 (entry 1 1)
      stored-IsLog (omega arith) found

cleared_2_to_4 : Ends list_bucket 2 4 stored (delete_range list_bucket stored 2 4)
cleared_2_to_4 =
    delete_range-Ends list_bucket list_bucket-BucketLaws list_bucket-Repositions 2 4 stored
      (omega arith) (omega arith) stored-IsLog

-- Index 1 is deleted, and index 2 stays.
abbrev second_only : Entries
second_only = (uint64_to_bytes 2, 2 ∷ (1 ∷ [])) ∷ []

deleted_first : delete_loop list_bucket 3 1 stored (some (uint64_to_bytes 1)) ≡ finished second_only
unfolding delete_loop remove pick equal uint64_to_bytes bytes_to_uint64 big_endian before
deleted_first = refl

delete_loop-keeps_above_example :
    list_bucket.get second_only (uint64_to_bytes 2) ≡ list_bucket.get stored (uint64_to_bytes 2)
delete_loop-keeps_above_example =
    delete_loop-keeps_above list_bucket list_bucket-BucketLaws 3 1 stored second_only
      (some (uint64_to_bytes 1)) 2 (omega arith) (omega arith) deleted_first

abbrev term_key : Bytes
term_key = 84 ∷ []

-- The term is read back.
term_stored : get_uint64 list_bucket ((term_key, uint64_to_bytes 7) ∷ []) term_key ≡ some 7
unfolding set_uint64 remove
term_stored =
    get_uint64-set_uint64 list_bucket list_bucket-BucketLaws [] ((term_key, uint64_to_bytes 7) ∷ [])
      term_key 7 (omega arith) sets
  where
    sets : set_uint64 list_bucket [] term_key 7 ≡ some ((term_key, uint64_to_bytes 7) ∷ [])
    sets = refl
