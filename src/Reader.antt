-- ===== src/Reader.antt =====
-- Reader/src/Reader.cpp: the process that empties the ring into the file store. `batch` is the front of
-- the staging array that is in use, `batch.data()` up to `batchBytes`.
pub mod Batch
pub mod Pop
pub mod Drain
pub mod Run
pub mod Tests
use telemetry_server.Base.{
  ℕ, zero, suc, ◌*◌, Bool, true, false, not, Option, none, some, List, [], ◌++◌, length, take, drop,
  ◌==◌, if◌then◌else◌,
}
use telemetry_server.Base.Action.{Action, ◌&&=◌}
use telemetry_server.Protocol.Words.{Bytes}
use telemetry_server.Protocol.Codec.{frame_size, succeeded, decode}
use telemetry_server.Ipc.Ring.{SharedRingBuffer, try_pop_batch}
use telemetry_server.Storage.Disk.{Disk}
use telemetry_server.Storage.FileStore
use telemetry_server.Storage.FileStore.{append_frames}

abbrev pub write_batch_bytes : ℕ
write_batch_bytes = 64 * 1024

abbrev pub ipc_batch_bytes : ℕ
ipc_batch_bytes = 4096

pub record State (W : Type 0) : Type 0 where
  pub storage : FileStore.State W
  pub ring : SharedRingBuffer
  pub batch : Bytes
  pub consumed_any : Bool

abbrev pub Method : Disk → Type 0
Method d = Action (State (d.World)) Bool

-- The state after `appendFrames` has returned `appended`.
abbrev pub flushed :
    {W : Type 0} → State W → Option (Bool × FileStore.State W) → Option (Bool × State W)
flushed s none = none
flushed s (some (true, t)) = some (true, record s { storage = t; batch = [] })
flushed s (some (false, t)) = some (false, record s { storage = t })

module _ (d : Disk) (fuel : ℕ) where
  open d use {World}

  pub flush_batch : Method d
  flush_batch s =
      if length s.batch == 0
      then some (true, s)
      else flushed s (append_frames d fuel s.batch s.storage)

  -- A frame that `decode` accepts.
  pub stage_frame : Bytes → Method d
  unfolding flush_batch
  stage_frame frame s =
      let s' = record s { batch = s.batch ++ frame } in
      if length s'.batch == write_batch_bytes then flush_batch s' else some (true, s')

  -- A frame that is not valid: those before it are stored first.
  pub reject_frame : Method d
  unfolding flush_batch
  reject_frame = flush_batch &&= λ s. some (false, s)

  pub process_frame : Bytes → Method d
  unfolding stage_frame reject_frame
  process_frame frame s =
      if not (succeeded (decode frame)) then reject_frame s else stage_frame frame s

  -- The frames that one call of `tryPopBatch` has copied out.
  pub process_frames : ℕ → Bytes → Method d
  unfolding process_frame
  process_frames zero bytes s = some (true, s)
  process_frames (suc popped) bytes s =
      (process_frame (take frame_size bytes) &&= process_frames popped (drop frame_size bytes)) s

  -- The inner `while (true)` of `run`, on a ring that no frame is pushed to meanwhile.
  pub drain : ℕ → Method d
  unfolding process_frames
  drain zero s = none
  drain (suc rounds) s =
      let (popped, bytes, ring) = try_pop_batch s.ring ipc_batch_bytes in
      elim (popped == 0) [
        | true ↦ some (true, record s { ring = ring })
        | false ↦
            (process_frames popped bytes &&= drain rounds)
              (record s { ring = ring; consumed_any = true })
      ]

  -- One round of `run` up to its notification: the ring is emptied and the staged frames are stored.
  pub drain_and_flush : Method d
  unfolding drain flush_batch
  drain_and_flush s = (drain fuel &&= flush_batch) (record s { consumed_any = false })
