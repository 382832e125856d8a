-- ===== src/Reader/Run.antt =====
-- `Reader::run` of Reader/src/Reader.cpp as a whole: the store is opened, and rounds follow until the
-- producer has closed the ring. The producer is a process of its own: it is seen to push frames and to
-- close the ring while the reader notifies it or waits for it.
pub mod Exchange
pub mod Rounds
pub mod Laws
pub mod Stored
use telemetry_server.Base.{
  ℕ, zero, suc, ◌+◌, ◌*◌, Bool, true, false, ◌&&◌, Option, none, some, [], ◌++◌, take,
  if◌then◌else◌,
}
use telemetry_server.Base.Action.{Action, ◌>>=◌, ◌&&=◌, pure}
use telemetry_server.Base.Text.{Text}
use telemetry_server.Protocol.Words.{Bytes}
use telemetry_server.Protocol.Codec.{frame_size}
use telemetry_server.Ipc.Ring
use telemetry_server.Ipc.Ring.{SharedRingBuffer, try_push_batch, close_producer}
use telemetry_server.Ipc.EventFd.{Called, notify_event, consume_event}
use telemetry_server.Storage.Disk.{Disk}
use telemetry_server.Storage.FileStore
use telemetry_server.Storage.FileStore.{FileStoreConfig, new_store, open_file, sync}
use telemetry_server.Reader.{State, drain_and_flush}

-- The fields that `run` uses of `ReaderConfig`.
pub record ReaderConfig : Type 0 where
  pub data_file_path : Text
  pub max_segment_bytes : ℕ
  pub sync_every_bytes : ℕ

-- What the producer does during a call: it pushes `bytes`, and then may close the ring.
pub record Produced : Type 0 where
  pub bytes : Bytes
  pub closes : Bool

-- `notify` is `eventfd_write` on `spaceReadyFd`, and `wait` is `eventfd_read` on `dataReadyFd`.
pub record Peer : Type 1 where
  pub World : Type 0
  pub notify : World → Called × Produced × World
  pub wait : World → Called × Produced × World

-- The ring between the two; `pushed` is all that the producer has pushed, of which the code keeps no
-- list.
pub record Channel (P : Type 0) : Type 0 where
  pub ring : SharedRingBuffer
  pub peer : P
  pub pushed : Bytes

abbrev pub produce : {P : Type 0} → Produced → P → Channel P → Channel P
produce p w c =
    let (n, ring) = try_push_batch c.ring p.bytes in
    record {
      ring = if p.closes then close_producer ring else ring;
      peer = w;
      pushed = c.pushed ++ take (n * frame_size) p.bytes;
    }

abbrev pub act : {P : Type 0} → (P → Called × Produced × P) → Channel P → Called × Channel P
act call c = let (r, p, w) = call c.peer in (r, produce p w c)

pub record Process (W P : Type 0) : Type 0 where
  pub reader : State W
  pub peer : P
  pub pushed : Bytes

abbrev pub channel : {W P : Type 0} → Process W P → Channel P
channel s = record { ring = s.reader.ring; peer = s.peer; pushed = s.pushed }

abbrev pub with_channel : {W P : Type 0} → Process W P → Channel P → Process W P
with_channel s c = record {
  reader = record (s.reader) { ring = c.ring };
  peer = c.peer;
  pushed = c.pushed;
}

abbrev pub on_channel :
    {W P : Type 0} → Process W P → Option (Bool × Channel P) → Option (Bool × Process W P)
on_channel s none = none
on_channel s (some (ok, c)) = some (ok, with_channel s c)

abbrev pub on_reader :
    {W P : Type 0} → Process W P → Option (Bool × State W) → Option (Bool × Process W P)
on_reader s none = none
on_reader s (some (ok, t)) = some (ok, record s { reader = t })

abbrev pub on_storage :
    {W P : Type 0} → Process W P → Option (Bool × FileStore.State W) → Option (Bool × Process W P)
on_storage s none = none
on_storage s (some (ok, t)) = some (ok, record s { reader = record (s.reader) { storage = t } })

pub is_finished : {W P : Type 0} → Process W P → Bool
is_finished s = Ring.producer_closed s.reader.ring && Ring.empty s.reader.ring

module _ (d : Disk) (p : Peer) (fuel : ℕ) where
  pub notify_consumed : Action (Process (d.World) (p.World)) Bool
  notify_consumed s =
      if s.reader.consumed_any
      then on_channel s (notify_event (act p.notify) fuel (channel s))
      else some (true, s)

  pub wait_for_data : Action (Process (d.World) (p.World)) Bool
  wait_for_data s = on_channel s (consume_event (act p.wait) fuel (channel s))

  abbrev pub round : Action (Process (d.World) (p.World)) Bool
  round s = on_reader s (drain_and_flush d fuel s.reader)

  -- `while (true)`, once the store is open.
  pub loop : ℕ → Action (Process (d.World) (p.World)) Bool
  unfolding notify_consumed wait_for_data is_finished
  loop zero s = none
  loop (suc rounds) s =
      (round
          &&= (notify_consumed &&= λ t.
              (if is_finished t
                then on_storage t (sync d fuel t.reader.storage)
                else (wait_for_data &&= loop rounds) t)))
        s

  abbrev pub started :
      FileStoreConfig → SharedRingBuffer → d.World → p.World → Process (d.World) (p.World)
  started config ring w peer = record {
    reader = record {
      storage = record { store = new_store config; world = w };
      ring = ring;
      batch = [];
      consumed_any = false;
    };
    peer = peer;
    pushed = [];
  }

  pub run :
      ℕ
      → ReaderConfig
      → SharedRingBuffer
      → d.World
      → p.World
      → Option (Bool × Process (d.World) (p.World))
  unfolding loop
  run rounds c ring w peer =
      let config : FileStoreConfig = record {
        max_segment_bytes = c.max_segment_bytes;
        sync_every_bytes = c.sync_every_bytes;
      } in
      let s = started config ring w peer in
      ((λ t. on_storage t (open_file d fuel c.data_file_path t.reader.storage)) &&= loop rounds) s
