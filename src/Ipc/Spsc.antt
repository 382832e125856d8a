-- ===== src/Ipc/Spsc.antt =====
-- One producer in `tryPushBatch` and one consumer in `tryPopBatch` of Ipc/src/SharedRingBuffer.cpp,
-- at the same time: their loads, the copy of each frame and their stores in any order. The release
-- stores and acquire loads are taken to make these steps sequentially consistent.
pub mod Invariant
pub mod Conserve
use telemetry_server.Base.{
  ℕ, ◌+◌, ◌*◌, ◌/◌, ◌%◌, ◌<◌, min, ◌≡◌, List, [], ◌∷◌, ◌++◌, length, take, drop,
}
use telemetry_server.Protocol.Words.{Bytes}
use telemetry_server.Protocol.Codec.{frame_size}
use telemetry_server.Ipc.Ring.{Layout, capacity_frames, add_u64, sub_u64, write_slot, new_layout}
use telemetry_server.Ipc.Ring.Slots.{split_frames}

-- Where the producer stands: `copied` frames of a batch of `count` are in the slots.
pub data Producer : Type 0 where
  idle : Producer
  copying : (count copied : ℕ) (bytes : Bytes) → Producer

-- Where the consumer stands: the frames that it has copied out so far.
pub data Consumer : Type 0 where
  idle : Consumer
  copying : (count copied : ℕ) (frames : List Bytes) → Consumer

pub record System : Type 0 where
  pub ring : Layout
  pub producer : Producer
  pub consumer : Consumer
  -- every frame that a push has published, and every frame that a pop has returned
  pub given : List Bytes
  pub taken : List Bytes

abbrev pub started : System
started = record {
  ring = new_layout;
  producer = Producer.idle;
  consumer = Consumer.idle;
  given = [];
  taken = [];
}

-- What the producer finds room for, from the counters as it loads them.
abbrev pub push_count : Layout → Bytes → ℕ
push_count l bytes =
    min (length bytes / frame_size) (sub_u64 capacity_frames (sub_u64 l.head l.tail))

abbrev pub pop_count : Layout → ℕ → ℕ
pop_count l size = min (size / frame_size) (sub_u64 l.head l.tail)

abbrev pub frame_at : Bytes → ℕ → Bytes
frame_at bytes k = take frame_size (drop (k * frame_size) bytes)

pub data Step (s : System) : System → Type 0 where
  load_tail :
      (bytes : Bytes)
      → s.producer ≡ Producer.idle
      → s.ring.producer_closed ≡ 0
      → length bytes % frame_size ≡ 0
      → 0 < push_count s.ring bytes
      → Step s (record s { producer = Producer.copying (push_count s.ring bytes) 0 bytes })
  copy_in :
      (count copied : ℕ) (bytes : Bytes)
      → s.producer ≡ Producer.copying count copied bytes
      → copied < count
      → Step s (record s {
        ring = record (s.ring) {
          slots =
              write_slot s.ring.slots
                ((s.ring.head + copied) % capacity_frames)
                (frame_at bytes copied);
        };
        producer = Producer.copying count (copied + 1) bytes;
      })
  store_head :
      (count : ℕ) (bytes : Bytes)
      → s.producer ≡ Producer.copying count count bytes
      → Step s (record s {
        ring = record (s.ring) { head = add_u64 s.ring.head count };
        producer = Producer.idle;
        given = s.given ++ split_frames count bytes;
      })
  load_head :
      (size : ℕ)
      → s.consumer ≡ Consumer.idle
      → size % frame_size ≡ 0
      → 0 < pop_count s.ring size
      → Step s (record s { consumer = Consumer.copying (pop_count s.ring size) 0 [] })
  copy_out :
      (count copied : ℕ) (frames : List Bytes)
      → s.consumer ≡ Consumer.copying count copied frames
      → copied < count
      → Step s (record s {
        consumer =
            Consumer.copying count
              (copied + 1)
              (frames ++ s.ring.slots ((s.ring.tail + copied) % capacity_frames) ∷ []);
      })
  store_tail :
      (count : ℕ) (frames : List Bytes)
      → s.consumer ≡ Consumer.copying count count frames
      → Step s (record s {
        ring = record (s.ring) { tail = add_u64 s.ring.tail count };
        consumer = Consumer.idle;
        taken = s.taken ++ frames;
      })

pub data Reach (s : System) : System → Type 0 where
  here : Reach s s
  next : {t u : System} → Reach s t → Step t u → Reach s u
