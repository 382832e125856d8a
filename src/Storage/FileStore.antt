-- ===== src/Storage/FileStore.antt =====
-- Storage/include/FileStore.hpp and Storage/src/FileStore.cpp. A method acts on the store and the
-- disk; `fuel` bounds the rounds of its loops. Sizes are `std::size_t`, far below 2 ^ 64 but where a
-- subtraction is unguarded.
pub mod Sync
pub mod Write
pub mod Open
pub mod Create
pub mod Names
pub mod Rotate
pub mod Segments
pub mod Append
pub mod Batch
pub mod Methods
use telemetry_server.Base.{
  ℕ, zero, suc, ◌+◌, ◌-◌, ◌*◌, ◌/◌, ◌%◌, ◌^◌, min, Bool, true, false, not, ◌&&◌, ◌||◌, Option, none,
  some, List, [], ◌∷◌, ◌++◌, length, take, drop, ltb, leb, ◌==◌, if◌then◌else◌,
}
use telemetry_server.Base.Action.{Action, pure, ◌>>=◌, ◌&&=◌}
use telemetry_server.Base.Text.{Text, codes, to_string}
use telemetry_server.Protocol.Words.{Bytes}
use telemetry_server.Protocol.Codec.{frame_size}
use telemetry_server.Storage.Disk.{Disk, Written, Synced, Created, Status}

pub record FileStoreConfig : Type 0 where
  pub max_segment_bytes : ℕ
  pub sync_every_bytes : ℕ

abbrev pub default_config : FileStoreConfig
default_config = record { max_segment_bytes = 64 * 1024 * 1024; sync_every_bytes = 1 * 1024 * 1024 }

-- `fd_open` is `m_fd != -1`, and `directory_open` is `m_directoryFd != -1`.
pub record FileStore : Type 0 where
  pub config : FileStoreConfig
  pub fd_open : Bool
  pub directory_open : Bool
  pub directory_path : Text
  pub file_name : Text
  pub current_size : ℕ
  pub unsynced_bytes : ℕ
  pub rotation_sequence : ℕ

abbrev pub new_store : FileStoreConfig → FileStore
new_store config = record {
  config = config;
  fd_open = false;
  directory_open = false;
  directory_path = [];
  file_name = [];
  current_size = 0;
  unsynced_bytes = 0;
  rotation_sequence = 0;
}

pub validate_config : FileStoreConfig → Bool
validate_config c =
    if ltb c.max_segment_bytes frame_size
    then false
    else if not (c.max_segment_bytes % frame_size == 0)
    then false
    else not (not (c.sync_every_bytes == 0) && ltb c.max_segment_bytes c.sync_every_bytes)

-- `m_fileName + "." + tv_sec + "." + tv_nsec + "." + m_rotationSequence + ".segment"`
unfoldable pub archive_name : Text → ℕ → ℕ → ℕ → Text
archive_name file_name sec nsec sequence =
    file_name
    ++ codes "."
    ++ to_string sec
    ++ codes "."
    ++ to_string nsec
    ++ codes "."
    ++ to_string sequence
    ++ codes ".segment"

pub record State (W : Type 0) : Type 0 where
  pub store : FileStore
  pub world : W

abbrev pub with_world : {W : Type 0} → State W → W → State W
with_world s w = record s { world = w }

abbrev pub with_store : {W : Type 0} → State W → FileStore → State W
with_store s st = record s { store = st }

abbrev pub Method : Disk → Type 0
Method d = Action (State (d.World)) Bool

-- `std::min(frames.size() - offset, remainingSegmentBytes)`
abbrev pub segment_chunk : FileStore → Bytes → ℕ
segment_chunk st rest =
    min (length rest) ((st.config.max_segment_bytes + 2 ^ 64 - st.current_size) % 2 ^ 64)

-- The sync threshold may be unaligned, so it is rounded up to the next complete frame.
abbrev pub sync_chunk : FileStore → ℕ → ℕ
sync_chunk st chunk =
    if st.config.sync_every_bytes == 0
    then chunk
    else (let until_sync = st.config.sync_every_bytes - st.unsynced_bytes in
        if ltb until_sync chunk then (1 + (until_sync - 1) / frame_size) * frame_size else chunk)

-- The calls that do not depend on the fuel, and the loops on the rounds left.
module _ (d : Disk) where
  open d use {World}

  -- `while (true)` in `sync`.
  pub sync_from : ℕ → Method d
  sync_from zero s = none
  sync_from (suc rounds) s =
      let (r, w) = d.fdatasync s.world in
      elim r [
        | Synced.done ↦
            some (true, record { store = record (s.store) { unsynced_bytes = 0 }; world = w })
        | Synced.interrupted ↦ sync_from rounds (with_world s w)
        | Synced.failed ↦ some (false, with_world s w)
      ]

  pub sync_directory_from : ℕ → Method d
  sync_directory_from zero s = none
  sync_directory_from (suc rounds) s =
      let (r, w) = d.fsync_directory s.world in
      elim r [
        | Synced.done ↦ some (true, with_world s w)
        | Synced.interrupted ↦ sync_directory_from rounds (with_world s w)
        | Synced.failed ↦ some (false, with_world s w)
      ]

  pub close_active_file : Method d
  close_active_file s =
      let (closed, w) = d.close_file s.world in
      if not s.store.fd_open
      then some (true, s)
      else some (closed, record { store = record (s.store) { fd_open = false }; world = w })

  -- What `makeArchiveName` returns for the time read; `none` is the empty name.
  pub name_at : State World → Option (ℕ × ℕ) → World → Option Text × State World
  unfolding archive_name
  name_at s none w = (none, with_world s w)
  name_at s (some (sec, nsec)) w = (
    some (archive_name s.store.file_name sec nsec s.store.rotation_sequence),
    record {
      store = record (s.store) { rotation_sequence = (s.store.rotation_sequence + 1) % 2 ^ 64 };
      world = w;
    },
  )

  pub make_archive_name : State World → Option Text × State World
  unfolding name_at
  make_archive_name s = let (time, w) = d.clock_gettime s.world in name_at s time w

  -- `renameat` to the name made, unless that is empty.
  pub rename_to : Option Text → Method d
  rename_to none s = some (false, s)
  rename_to (some archive) s =
      let (renamed, w) = d.rename_to archive s.world in some (renamed, with_world s w)

  abbrev pub opened : State World → World → State World
  opened s w = record { store = record (s.store) { fd_open = true }; world = w }

  pub open_directory : Text → Method d
  open_directory path s =
      let file_name = d.filename path in
      let parent = d.parent_path path in
      let directory_path = if length parent == 0 then codes "." else parent in
      let (found, w) = d.open_directory directory_path s.world in
      if length file_name == 0
      then some (false, s)
      else some (
        found,
        record {
          store = record (s.store) {
            directory_open = found;
            directory_path = directory_path;
            file_name = file_name;
          };
          world = w;
        },
      )

  pub rename_active : Method d
  unfolding make_archive_name rename_to
  rename_active s = let (name, s') = make_archive_name s in rename_to name s'

  abbrev pub reset_sizes : Method d
  reset_sizes s =
      some (true, with_store s (record (s.store) { current_size = 0; unsynced_bytes = 0 }))

  -- The inner `while` of `appendFrames`: `bytes` is what is left of the chunk.
  pub write_all : ℕ → Bytes → Method d
  write_all zero bytes s = none
  write_all (suc rounds) [] s = some (true, s)
  write_all (suc rounds) (b ∷ bs) s =
      let (r, w) = d.write (b ∷ bs) s.world in
      elim r [
        | Written.wrote n ↦ elim (n == 0) [
          | true ↦ some (false, with_world s w)
          | false ↦ write_all rounds (drop n (b ∷ bs)) (with_world s w)
        ]
        | Written.interrupted ↦ write_all rounds (b ∷ bs) (with_world s w)
        | Written.failed ↦ some (false, with_world s w)
      ]

  abbrev pub advance : ℕ → Method d
  advance chunk s = some (
    true,
    with_store s (record (s.store) {
      current_size = s.store.current_size + chunk;
      unsynced_bytes = s.store.unsynced_bytes + chunk;
    }),
  )

module _ (d : Disk) (fuel : ℕ) where
  open d use {World}

  pub sync : Method d
  unfolding sync_from
  sync s = if not s.store.fd_open then some (false, s) else sync_from d fuel s

  pub sync_directory : Method d
  unfolding sync_directory_from
  sync_directory s =
      if not s.store.directory_open then some (false, s) else sync_directory_from d fuel s

  -- The cut to whole frames, once `fstat` has said that the file has `size` bytes.
  pub truncate_partial_frame : ℕ → Method d
  unfolding sync
  truncate_partial_frame size s =
      let remainder = size % frame_size in
      let valid_size = size - remainder in
      let finish = λ (t : State World).
        some (true, with_store t (record (t.store) { current_size = valid_size })) in
      if not (remainder == 0)
      then (let (cut, w) = d.ftruncate valid_size s.world in
          if not cut then some (false, with_world s w) else (sync &&= finish) (with_world s w))
      else finish s

  pub recover_partial_frame : Method d
  unfolding truncate_partial_frame
  recover_partial_frame s =
      let (status, w) = d.fstat s.world in
      elim status [
        | Status.regular size ↦ truncate_partial_frame size (with_world s w)
        | Status.not_regular ↦ some (false, with_world s w)
        | Status.failed ↦ some (false, with_world s w)
      ]

  pub open_active_file : Method d
  unfolding sync_directory recover_partial_frame
  open_active_file s =
      let (r, w) = d.create_file s.world in
      elim r [
        | Created.created ↦ (sync_directory &&= recover_partial_frame) (opened d s w)
        | Created.already_there ↦
            let (found, w') = d.open_file w in
            if found then recover_partial_frame (opened d s w') else some (false, with_world s w')
        | Created.failed ↦ some (false, with_world s w)
      ]

  pub open_file : Text → Method d
  unfolding validate_config open_directory open_active_file
  open_file path s =
      if s.store.fd_open || s.store.directory_open
      then some (false, s)
      else if not (validate_config s.store.config)
      then some (false, s)
      else (open_directory d path &&= open_active_file) s

  pub rotate : Method d
  unfolding sync close_active_file rename_active sync_directory open_active_file
  rotate s =
      if not s.store.fd_open
      then some (false, s)
      else (sync
            &&= (close_active_file d
                &&= (rename_active d
                    &&= (sync_directory &&= (reset_sizes d &&= open_active_file)))))
          s

  pub rotate_if_full : Method d
  unfolding rotate
  rotate_if_full s =
      if leb s.store.config.max_segment_bytes s.store.current_size then rotate s else some (true, s)

  pub sync_if_due : Method d
  unfolding sync
  sync_if_due s =
      if not (s.store.config.sync_every_bytes == 0)
        && leb s.store.config.sync_every_bytes s.store.unsynced_bytes
      then sync s
      else some (true, s)

  -- One chunk of the batch whose remaining bytes are `rest`.
  pub append_chunk : ℕ → Bytes → Method d
  unfolding write_all sync_if_due
  append_chunk chunk rest = write_all d fuel (take chunk rest) &&= (advance d chunk &&= sync_if_due)

  -- The outer `while` of `appendFrames`.
  pub append_from : ℕ → Bytes → Method d
  unfolding rotate_if_full sync_if_due append_chunk
  append_from zero rest s = none
  append_from (suc rounds) rest s = elim (length rest == 0) [
    | true ↦ some (true, s)
    | false ↦
        (rotate_if_full &&= λ t.
        (let within = segment_chunk t.store rest in
            sync_if_due &&= λ u.
            (let chunk = sync_chunk u.store within in
                append_chunk chunk rest &&= append_from rounds (drop chunk rest))
              u)
          t)
          s
  ]

  pub append_frames : Bytes → Method d
  unfolding append_from
  append_frames frames s =
      if not s.store.fd_open
      then some (false, s)
      else if length frames == 0 || not (length frames % frame_size == 0)
      then some (false, s)
      else append_from fuel frames s

  pub append_frame : Bytes → Method d
  unfolding append_frames
  append_frame frame = append_frames frame
