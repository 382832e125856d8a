-- ===== src/Storage/FileStore/Segments.antt =====
-- Segments of whole frames, and the chunks that `appendFrames` cuts its batch into.
use telemetry_server.Base.{
  ℕ, ◌+◌, ◌-◌, ◌*◌, ◌/◌, ◌%◌, ◌^◌, ◌≤◌, ◌<◌, ◌≡◌, ◌≢◌, arith, true, false, length, All, ltb, ◌==◌,
  Bool-cases, min, ltb→lt, inl, inr,
}
use telemetry_server.Protocol.Words.{Bytes}
use telemetry_server.Protocol.Codec.{frame_size}
use telemetry_server.Storage.Disk.{Files}
use telemetry_server.Storage.FileStore.{FileStore, FileStoreConfig, segment_chunk, sync_chunk}

-- What `validateConfig` asks for, in the range of `std::size_t`.
pub record IsStorable (c : FileStoreConfig) : Type 0 where
  pub room : frame_size ≤ c.max_segment_bytes
  pub whole : c.max_segment_bytes % frame_size ≡ 0
  pub interval : c.sync_every_bytes ≤ c.max_segment_bytes
  pub word : c.max_segment_bytes < 2 ^ 64

-- A segment holds whole frames, and no more than the limit.
abbrev pub IsSegment : ℕ → Bytes → Type 0
IsSegment limit bytes = (length bytes ≤ limit) × (length bytes % frame_size ≡ 0)

abbrev pub AreSegments : ℕ → Files → Type 0
AreSegments limit f = All (IsSegment limit) f.archived × IsSegment limit f.active

-- An open store that agrees with its file. Fewer bytes than the interval are unsynced.
pub record IsReady (st : FileStore) (f : Files) : Type 0 where
  pub storable : IsStorable st.config
  pub fd : st.fd_open ≡ true
  pub directory : st.directory_open ≡ true
  pub size : st.current_size ≡ length f.active
  pub whole : st.current_size % frame_size ≡ 0
  pub synced_up : st.config.sync_every_bytes ≢ 0 → st.unsynced_bytes < st.config.sync_every_bytes

within_lem :
    (n size limit : ℕ)
    → size < limit
    → limit < 2 ^ 64
    → size % frame_size ≡ 0
    → limit % frame_size ≡ 0
    → n % frame_size ≡ 0
    → n ≢ 0
    → let c = min n ((limit + 2 ^ 64 - size) % 2 ^ 64) in
      (0 < c) × (c % frame_size ≡ 0) × (c ≤ n) × (size + c ≤ limit)
within_lem n size limit h w a b c ne = omega arith

-- Rounding up to whole frames stays within whole frames.
round_up :
    (c until : ℕ)
    → 0 < until
    → until < c
    → c % frame_size ≡ 0
    → let k = (1 + (until - 1) / frame_size) * frame_size in
      (0 < k) × (k % frame_size ≡ 0) × (k ≤ c)
round_up c until p h w = omega arith

-- A chunk is one or more whole frames of the batch, and fits the segment.
pub chunk_lem :
    (st : FileStore) (f : Files) (rest : Bytes)
    → IsReady st f
    → st.current_size < st.config.max_segment_bytes
    → length rest % frame_size ≡ 0
    → length rest ≢ 0
    → let c = sync_chunk st (segment_chunk st rest) in
      (0 < c)
      × (c % frame_size ≡ 0)
      × (c ≤ length rest)
      × (st.current_size + c ≤ st.config.max_segment_bytes)
chunk_lem st f rest r h w n = elim (Bool-cases (st.config.sync_every_bytes == 0)) [
  | inl never ↦ rw never within
  | inr some_interval ↦ elim (Bool-cases (ltb until c)) [
    | inr far ↦ rw (some_interval, far) within
    | inl near ↦
        let k : (0 < (1 + (until - 1) / frame_size) * frame_size)
            × ((1 + (until - 1) / frame_size) * frame_size % frame_size ≡ 0)
            × ((1 + (until - 1) / frame_size) * frame_size ≤ c) =
          round_up c until (ahead some_interval) (ltb→lt until c near) within.1 in
        rw (some_interval, near)
          (k.0, k.1, omega (arith, k.2, within.2), omega (arith, k.2, within.3))
  ]
]
  where
    c : ℕ
    c = segment_chunk st rest

    until : ℕ
    until = st.config.sync_every_bytes - st.unsynced_bytes

    within :
        (0 < c)
        × (c % frame_size ≡ 0)
        × (c ≤ length rest)
        × (st.current_size + c ≤ st.config.max_segment_bytes)
    within =
        within_lem (length rest) st.current_size st.config.max_segment_bytes h r.storable.word
          r.whole r.storable.whole w n

    ahead : (st.config.sync_every_bytes == 0) ≡ false → 0 < until
    ahead e =
        let ne : st.config.sync_every_bytes ≢ 0 = ground arith in omega (arith, r.synced_up ne)
