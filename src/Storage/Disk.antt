-- ===== src/Storage/Disk.antt =====
-- The system calls that Storage/src/FileStore.cpp makes, as an interface, and what POSIX documents of
-- them. The descriptors are those of the active file and of its directory.
use telemetry_server.Base.Text.{Text, text_eq}
use telemetry_server.Base.{
  ℕ, ◌≤◌, ◌<◌, ◌≡◌, Bool, true, false, Option, none, some, List, [], ◌∷◌, ◌++◌, length, take, ◌||◌,
  ◌^◌, if◌then◌else◌,
}
use telemetry_server.Protocol.Words.{Bytes}

-- `write`: a count, `EINTR`, or another error.
pub data Written : Type 0 where
  wrote : ℕ → Written
  interrupted failed : Written

-- `fdatasync` and `fsync`.
pub data Synced : Type 0 where
  done interrupted failed : Synced

-- `openat` with `O_CREAT | O_EXCL`.
pub data Created : Type 0 where
  created already_there failed : Created

-- `fstat`: the size of a regular file, or its being none.
pub data Status : Type 0 where
  regular : ℕ → Status
  not_regular failed : Status

-- What is on the disk: whether the active file's name exists, its bytes, and the archived segments,
-- the oldest first, with their names. A segment that was renamed before it was synced counts as empty,
-- since a crash may lose it.
pub record Files : Type 0 where
  pub present : Bool
  pub active : Bytes
  pub archived : List Bytes
  pub names : List Text

abbrev pub has : Text → List Text → Bool
has n [] = false
has n (m ∷ ms) = text_eq n m || has n ms

-- The archived segments, and their names, without one of the name `n`.
abbrev pub names_but : Text → List Text → List Text
names_but n [] = []
names_but n (m ∷ ms) = let rest = names_but n ms in if text_eq n m then rest else m ∷ rest

abbrev pub segments_but : Text → List Text → List Bytes → List Bytes
segments_but n [] segments = segments
segments_but n (m ∷ ms) [] = []
segments_but n (m ∷ ms) (b ∷ bs) =
    let rest = segments_but n ms bs in if text_eq n m then rest else b ∷ rest

-- A rename replaces an archived segment of the same name.
abbrev pub set_aside : Text → Bool → Files → Files
set_aside n flushed f = record {
  present = false;
  active = [];
  archived = segments_but n f.names f.archived ++ (if flushed then f.active else []) ∷ [];
  names = names_but n f.names ++ n ∷ [];
}

pub record Disk : Type 1 where
  pub World : Type 0
  pub filename : Text → Text
  pub parent_path : Text → Text
  pub open_directory : Text → World → Bool × World
  pub create_file : World → Created × World
  pub open_file : World → Bool × World
  pub fstat : World → Status × World
  pub ftruncate : ℕ → World → Bool × World
  pub write : Bytes → World → Written × World
  pub fdatasync : World → Synced × World
  pub fsync_directory : World → Synced × World
  pub close_file : World → Bool × World
  pub clock_gettime : World → Option (ℕ × ℕ) × World
  pub rename_to : Text → World → Bool × World

abbrev pub appended : Files → Bytes → Files
appended f bytes = record f { active = f.active ++ bytes }

abbrev pub WriteLaw : Files → Bytes → Written → Files → Type 0
WriteLaw f bytes (Written.wrote n) f' = (n ≤ length bytes) × (f' ≡ appended f (take n bytes))
WriteLaw f bytes Written.interrupted f' = f' ≡ f
WriteLaw f bytes Written.failed f' = f' ≡ f

abbrev pub CreateLaw : Files → Created → Files → Type 0
CreateLaw f Created.created f' =
    (f.present ≡ false) × (f' ≡ record f { present = true; active = [] })
CreateLaw f Created.already_there f' = (f.present ≡ true) × (f' ≡ f)
CreateLaw f Created.failed f' = f' ≡ f

abbrev pub StatLaw : Files → Status → Files → Type 0
StatLaw f (Status.regular n) f' = (n ≡ length f.active) × (f' ≡ f)
StatLaw f Status.not_regular f' = f' ≡ f
StatLaw f Status.failed f' = f' ≡ f

abbrev pub TruncateLaw : Files → ℕ → Bool → Files → Type 0
TruncateLaw f n true f' = f' ≡ record f { active = take n f.active }
TruncateLaw f n false f' = f' ≡ f

-- A directory has fewer than 2 ^ 64 entries.
abbrev pub RenameLaw : Text → Bool → Files → Bool → Files → Type 0
RenameLaw n flushed f true f' = (f' ≡ set_aside n flushed f) × (length f'.names < 2 ^ 64)
RenameLaw n flushed f false f' = f' ≡ f

-- The clock shows one of the times given.
abbrev pub TimeLaw : (ℕ → ℕ → Bool) → Option (ℕ × ℕ) → Type 0
TimeLaw shows none = Unit
TimeLaw shows (some (sec, nsec)) = shows sec nsec ≡ true

-- An interrupted call may be made again, and only so many signals are under way.
abbrev pub SyncLaw : ℕ → Synced → ℕ → Type 0
SyncLaw p Synced.interrupted p' = p' < p
SyncLaw p Synced.done p' = p' ≤ p
SyncLaw p Synced.failed p' = p' ≤ p

abbrev pub WritePatience : ℕ → Written → ℕ → Type 0
WritePatience p Written.interrupted p' = p' < p
WritePatience p (Written.wrote n) p' = p' ≤ p
WritePatience p Written.failed p' = p' ≤ p

-- Nobody else writes to these files, and at most `signals` calls are still interrupted.
pub record DiskLaws (d : Disk) : Type 0 where
  pub files : d.World → Files
  pub signals : d.World → ℕ
  -- whether a crash keeps the active file as it is
  pub flushed : d.World → Bool
  -- the times that the clock shows
  pub shows : ℕ → ℕ → Bool
  pub create_law : (w : d.World) → let (r, w') = d.create_file w in CreateLaw (files w) r (files w')
  pub open_law : (w : d.World) → files (d.open_file w).1 ≡ files w
  pub directory_law : (p : Text) (w : d.World) → files (d.open_directory p w).1 ≡ files w
  pub stat_law : (w : d.World) → let (r, w') = d.fstat w in StatLaw (files w) r (files w')
  pub truncate_law :
      (n : ℕ) (w : d.World) → let (r, w') = d.ftruncate n w in TruncateLaw (files w) n r (files w')
  pub write_law :
      (b : Bytes) (w : d.World) → let (r, w') = d.write b w in WriteLaw (files w) b r (files w')
  pub fdatasync_law : (w : d.World) → files (d.fdatasync w).1 ≡ files w
  pub fsync_law : (w : d.World) → files (d.fsync_directory w).1 ≡ files w
  pub close_law : (w : d.World) → files (d.close_file w).1 ≡ files w
  pub clock_law : (w : d.World) → files (d.clock_gettime w).1 ≡ files w
  pub rename_law :
      (n : Text) (w : d.World)
      → let (r, w') = d.rename_to n w in RenameLaw n (flushed w) (files w) r (files w')
  pub fdatasync_flushed :
      (w : d.World) → let (r, w') = d.fdatasync w in r ≡ Synced.done → flushed w' ≡ true
  pub close_flushed : (w : d.World) → flushed (d.close_file w).1 ≡ flushed w
  pub clock_flushed : (w : d.World) → flushed (d.clock_gettime w).1 ≡ flushed w
  pub time_law : (w : d.World) → TimeLaw shows (d.clock_gettime w).0
  pub create_signals : (w : d.World) → signals (d.create_file w).1 ≤ signals w
  pub open_signals : (w : d.World) → signals (d.open_file w).1 ≤ signals w
  pub directory_signals : (p : Text) (w : d.World) → signals (d.open_directory p w).1 ≤ signals w
  pub stat_signals : (w : d.World) → signals (d.fstat w).1 ≤ signals w
  pub truncate_signals : (n : ℕ) (w : d.World) → signals (d.ftruncate n w).1 ≤ signals w
  pub write_signals :
      (b : Bytes) (w : d.World)
      → let (r, w') = d.write b w in WritePatience (signals w) r (signals w')
  pub fdatasync_signals :
      (w : d.World) → let (r, w') = d.fdatasync w in SyncLaw (signals w) r (signals w')
  pub fsync_signals :
      (w : d.World) → let (r, w') = d.fsync_directory w in SyncLaw (signals w) r (signals w')
  pub close_signals : (w : d.World) → signals (d.close_file w).1 ≤ signals w
  pub clock_signals : (w : d.World) → signals (d.clock_gettime w).1 ≤ signals w
  pub rename_signals : (n : Text) (w : d.World) → signals (d.rename_to n w).1 ≤ signals w
