-- ===== src/Storage/Tests.antt =====
-- Storage/src/FileStore.cpp on a disk in memory, whose `write` takes at most forty bytes at a time
-- and is interrupted while signals are under way.
use telemetry_server.Base.{
  ℕ, zero, suc, ◌≡◌, ◌≤◌, min, refl, arith, true, false, some, [], length, take, replicate,
  if◌then◌else◌, inl, inr, Bool-cases, ◌%◌, ◌↔◌, Bool, ltb, ◌==◌, ◌&&◌,
}
use telemetry_server.Base.Action.{Ensures}
use telemetry_server.Base.Text.{Text, codes}
use telemetry_server.Protocol.Words.{Bytes}
use telemetry_server.Protocol.Codec.{frame_size}
use telemetry_server.Storage.Disk.{
  Disk, DiskLaws, Files, Written, Synced, Created, Status, appended, CreateLaw, WriteLaw,
  WritePatience, RenameLaw, set_aside,
}
use telemetry_server.Storage.FileStore.{
  FileStoreConfig, State, new_store, validate_config, open_file, append_frames, rotate,
}
use telemetry_server.Storage.FileStore.Append.{Ready, Appends}
use telemetry_server.Storage.FileStore.Rotate.{Rotates, rotate_lem}
use telemetry_server.Storage.FileStore.Methods.{
  Starts, closed, open_file_lem, append_frames_lem, validate_config_iff,
}

pub record Memory : Type 0 where
  pub files : Files
  pub signals : ℕ
  -- whether all of the active file is on the disk
  pub flushed : Bool

abbrev pub create_in : Memory → Created × Memory
create_in m =
    if m.files.present
    then (Created.already_there, m)
    else (Created.created, record m { files = record (m.files) { present = true; active = [] } })

abbrev pub write_in : Memory → ℕ → Bytes → Written × Memory
write_in m zero b = (
  Written.wrote (min 40 (length b)),
  record m { files = appended m.files (take (min 40 (length b)) b); flushed = false },
)
write_in m (suc n) b = (Written.interrupted, record m { signals = n })

-- The directory has room for one hundred segments.
abbrev pub rename_in : Text → Memory → Bool × Memory
rename_in n m =
    let f = set_aside n m.flushed m.files in
    if ltb (length f.names) 100 then (true, record m { files = f }) else (false, m)

abbrev pub memory_disk : Disk
memory_disk = record {
  World = Memory;
  filename = λ path. path;
  parent_path = λ path. [];
  open_directory = λ path m. (true, m);
  create_file = create_in;
  open_file = λ m. (true, m);
  fstat = λ m. (Status.regular (length m.files.active), m);
  ftruncate =
      λ n m. (true, record m { files = record (m.files) { active = take n m.files.active } });
  write = λ b m. write_in m m.signals b;
  fdatasync = λ m. (Synced.done, record m { flushed = true });
  fsync_directory = λ m. (Synced.done, m);
  close_file = λ m. (true, m);
  clock_gettime = λ m. (some (1700000000, 5), m);
  rename_to = rename_in;
}

pub create_in-law :
    (m : Memory)
    → let (r, m') = create_in m in CreateLaw m.files r m'.files × (m'.signals ≤ m.signals)
create_in-law m = elim (Bool-cases m.files.present) [
  | inl e ↦ rw e ((refl, refl), omega arith)
  | inr e ↦ rw e ((refl, refl), omega arith)
]

pub write_in-law :
    (m : Memory) (n : ℕ) (b : Bytes)
    → n ≡ m.signals
    → let (r, m') = write_in m n b in
      WriteLaw m.files b r m'.files × WritePatience m.signals r m'.signals
write_in-law m zero b e = ((omega arith, refl), omega arith)
write_in-law m (suc n) b e = (refl, omega arith)

pub rename_in-law :
    (n : Text) (m : Memory)
    → let (r, m') = rename_in n m in RenameLaw n m.flushed m.files r m'.files
rename_in-law n m = elim (Bool-cases (ltb (length (set_aside n m.flushed m.files).names) 100)) [
  | inl e ↦ rw e (refl, ground (arith, e))
  | inr e ↦ rw e refl
]

pub rename_in-signals : (n : Text) (m : Memory) → (rename_in n m).1.signals ≤ m.signals
rename_in-signals n m = elim (Bool-cases (ltb (length (set_aside n m.flushed m.files).names) 100)) [
  | inl e ↦ rw e (omega arith)
  | inr e ↦ rw e (omega arith)
]

abbrev pub memory_laws : DiskLaws memory_disk
memory_laws = record {
  files = λ m. m.files;
  signals = λ m. m.signals;
  flushed = λ m. m.flushed;
  shows = λ sec nsec. sec == 1700000000 && nsec == 5;
  create_law = λ m. (create_in-law m).0;
  open_law = λ m. refl;
  directory_law = λ p m. refl;
  stat_law = λ m. (refl, refl);
  truncate_law = λ n m. refl;
  write_law = λ b m. (write_in-law m m.signals b refl).0;
  fdatasync_law = λ m. refl;
  fsync_law = λ m. refl;
  close_law = λ m. refl;
  clock_law = λ m. refl;
  rename_law = rename_in-law;
  fdatasync_flushed = λ m e. refl;
  close_flushed = λ m. refl;
  clock_flushed = λ m. refl;
  time_law = λ m. refl;
  create_signals = λ m. (create_in-law m).1;
  open_signals = λ m. omega arith;
  directory_signals = λ p m. omega arith;
  stat_signals = λ m. omega arith;
  truncate_signals = λ n m. omega arith;
  write_signals = λ b m. (write_in-law m m.signals b refl).1;
  fdatasync_signals = λ m. omega arith;
  fsync_signals = λ m. omega arith;
  close_signals = λ m. omega arith;
  clock_signals = λ m. omega arith;
  rename_signals = rename_in-signals;
}

abbrev pub small_segments : FileStoreConfig
small_segments = record { max_segment_bytes = 64; sync_every_bytes = 40 }

abbrev pub path : Text
path = codes "telemetry.bin"

-- A file that ends in a torn frame, and one signal under way.
abbrev pub torn : Memory
torn = record {
  files = record { present = true; active = replicate 40 9; archived = []; names = [] };
  signals = 1;
  flushed = true;
}

open_file_lem_example :
    Ensures
      (Starts memory_laws path (closed memory_laws small_segments torn))
      (open_file memory_disk 10 path (closed memory_laws small_segments torn))
open_file_lem_example =
    open_file_lem memory_laws 10 path small_segments torn (omega arith) (omega arith)

-- A store that has just filled its segment.
abbrev pub full_segment : State Memory
full_segment = record {
  store = record (new_store small_segments) {
    fd_open = true;
    directory_open = true;
    file_name = path;
    current_size = 64;
  };
  world = record {
    files = record { present = true; active = replicate 64 9; archived = []; names = [] };
    signals = 2;
    flushed = false;
  };
}

pub full_segment-Ready : Ready memory_laws full_segment
full_segment-Ready = record {
  disk = record {
    storable = record {
      room = omega arith;
      whole = refl;
      interval = omega arith;
      word = omega arith;
    };
    fd = refl;
    directory = refl;
    size = refl;
    whole = refl;
    synced_up = λ n. omega arith;
  };
  names = (omega arith, omega arith, λ sec nsec q t h low. refl);
}

append_frames_lem_example :
    Ensures
      (Appends memory_laws full_segment (replicate 96 7))
      (append_frames memory_disk 200 (replicate 96 7) full_segment)
append_frames_lem_example =
    append_frames_lem memory_laws 200 (replicate 96 7) full_segment full_segment-Ready (omega arith)
      (omega arith) (omega arith)

rotate_lem_example : Ensures (Rotates memory_laws full_segment) (rotate memory_disk 10 full_segment)
rotate_lem_example =
    rotate_lem memory_laws 10 full_segment full_segment-Ready.names (omega arith) refl refl

validate_config_iff_example :
    (validate_config small_segments ≡ true)
    ↔ ((frame_size ≤ 64) × (64 % frame_size ≡ 0) × (40 ≤ 64))
validate_config_iff_example = validate_config_iff small_segments
