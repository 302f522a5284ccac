-- ===== src/Bolt/Log.antt =====
-- Reading what was written to the log and to the stable store (internal/store/boltstore.go).
use claude_ds_project.Base.{
  ℕ, ◌≤◌, ◌<◌, ◌≡◌, ◌≢◌, inl, inr, refl, sym, ◌∙◌, ap, List, [], ◌∷◌, some, Option-cases,
  Bool-cases, ◌==◌, ltb→le, if◌then◌else◌, length, arith,
}
use claude_ds_project.Raft.Types.{LogEntry}
use claude_ds_project.Raft.LogStore.{written}
use claude_ds_project.Raft.Transport.{Bytes, Codec}
use claude_ds_project.Bolt.{
  Bucket, uint64_to_bytes, bytes_to_uint64, last_index, get_log, put_entry, store_logs, set_uint64,
  get_uint64, uint64_of,
}
use claude_ds_project.Bolt.Keys.{
  before, limit, length-big_endian, bytes_to_uint64-uint64_to_bytes, before-uint64_to_bytes,
}
use claude_ds_project.Bolt.Buckets.{BucketLaws, IsLog, Restores}

abbrev pub AreIndexed : List LogEntry → Type 0
AreIndexed [] = Unit
AreIndexed (e ∷ es) = (e.index < limit) × AreIndexed es

length_key : (v : ℕ) → length (uint64_to_bytes v) ≡ 8
unfolding uint64_to_bytes
length_key v = length-big_endian 8 v

module _ (K : Bucket) (laws : BucketLaws K) where
  -- SetUint64 and GetUint64: a uint64 is read back.
  pub get_uint64-set_uint64 :
      (t t' : K.State) (key : Bytes) (v : ℕ)
      → v < limit
      → set_uint64 K t key v ≡ some t'
      → get_uint64 K t' key ≡ some v
  unfolding set_uint64 get_uint64
  get_uint64-set_uint64 t t' key v small h =
      ap (uint64_of K) (laws.get-put t t' key (uint64_to_bytes v) h)
      ∙ eight (uint64_to_bytes v) (length_key v)
      ∙ ap some (bytes_to_uint64-uint64_to_bytes v small)
    where
      eight : (b : Bytes) → length b ≡ 8 → uint64_of K (some b) ≡ some (bytes_to_uint64 b)
      eight b e = rw e refl

  module _ (codec : Codec LogEntry) (restores : Restores codec) where
    get_log-put :
        (t t' : K.State) (e : LogEntry) (i : ℕ)
        → e.index < limit
        → i < limit
        → put_entry K t e.index (codec.marshal e) ≡ some t'
        → get_log K codec t' i ≡ (if e.index == i then some e else get_log K codec t i)
    unfolding get_log
    get_log-put t t' e i small ismall h = elim (Option-cases (codec.marshal e)) [
      | inl bad ↦ let f = rw bad at h in cc
      | inr (v, good) ↦
          let puts : K.put t (uint64_to_bytes e.index) v ≡ some t' = rw good at h in
          elim (Bool-cases (e.index == i)) [
            | inl same ↦
                let e' : i ≡ e.index = ground arith in
                rw (same, e', laws.get-put t t' (uint64_to_bytes e.index) v puts)
                  (restores e v good)
            | inr other ↦
                let apart : uint64_to_bytes i ≢ uint64_to_bytes e.index = λ k.
                  let n = (before-uint64_to_bytes i e.index ismall small).1 k in ground arith in
                rw
                  (
                    other,
                    laws.get-put_other t t' (uint64_to_bytes e.index) v (uint64_to_bytes i) puts
                        apart,
                  )
                  refl
          ]
    ]

    -- On a bucket with the documented laws and with a codec that restores entries, GetLog after StoreLogs
    -- returns the last of the entries with that index, or else what it returned before, when every index is a
    -- uint64.
    pub get_log-store_logs :
        (es : List LogEntry) (t t' : K.State) (i : ℕ)
        → AreIndexed es
        → i < limit
        → store_logs K codec t es ≡ some t'
        → get_log K codec t' i ≡ written es i (get_log K codec t i)
    unfolding store_logs
    get_log-store_logs [] t t' i small ismall h =
        let e : t' ≡ t = cc in ap (λ x. get_log K codec x i) e
    get_log-store_logs (e ∷ es) t t' i (small, smalls) ismall h =
        elim (Option-cases (put_entry K t e.index (codec.marshal e))) [
          | inl fails ↦ let f = rw fails at h in cc
          | inr (t1, puts) ↦
              get_log-store_logs es t1 t' i smalls ismall (rw puts at h)
              ∙ ap (written es i) (get_log-put t t1 e i small ismall puts)
        ]

    -- On a bucket with the documented laws that holds a log, an entry that GetLog finds at a uint64 has an index
    -- up to LastIndex.
    pub get_log-last_index :
        (t : K.State) (i : ℕ) (e : LogEntry)
        → IsLog K t
        → i < limit
        → get_log K codec t i ≡ some e
        → i ≤ last_index K t
    unfolding get_log last_index
    get_log-last_index t i e log small h = elim (Option-cases (K.get t (uint64_to_bytes i))) [
      | inl missing ↦ let f = rw missing at h in cc
      | inr (v, found) ↦ elim (Option-cases (K.last t)) [
        | inl empty ↦
            absurd (let f = sym (laws.last-none t (uint64_to_bytes i) empty) ∙ found in cc)
        | inr (k, last) ↦
            let (there, greatest) = laws.last-found t k last in
            elim (Option-cases (K.get t k)) [
              | inl gone ↦ absurd (there gone)
              | inr (w, kept) ↦
                  let (j, jsmall, same) = log k w kept in
                  rw (last, same, bytes_to_uint64-uint64_to_bytes j jsmall)
                    (ltb→le j i (
                      sym (before-uint64_to_bytes j i jsmall small).0
                      ∙ ap (λ x. before x (uint64_to_bytes i)) (sym same)
                      ∙ greatest (uint64_to_bytes i) v found))
            ]
      ]
    ]
