-- ===== src/Ipc/Ring/Refine.antt =====
-- A ring seen as the queue of the frames between its counters.
use telemetry_server.Base.{
  ℕ, ◌+◌, ◌-◌, ◌^◌, ◌≤◌, ◌<◌, not, Option, some, ◌≡◌, ap, sym, ◌∙◌, arith, List, [], ◌++◌, length,
  take, drop, ◌==◌, if◌then◌else◌,
}
use telemetry_server.Protocol.Words.{Bytes}
use telemetry_server.Ipc.Queue
use telemetry_server.Ipc.Queue.{FrameQueue, Op, Reply}
use telemetry_server.Ipc.Ring.{
  Layout, capacity_frames, add_u64, sub_u64, copy_in, copy_out, try_push_batch, try_pop_batch,
}
use telemetry_server.Ipc.Ring.Slots.{
  split_frames, join_frames, window, window-store_round, window-mod, drop-window, take-window,
  length-window, copy_in-eq-round, copy_out-eq-window, store_round-mod,
}

-- The counters are 64-bit words, and `head` is ahead of `tail` by at most the capacity.
pub record IsValid (l : Layout) : Type 0 where
  pub head_word : l.head < 2 ^ 64
  pub tail_word : l.tail < 2 ^ 64
  pub pending : sub_u64 l.head l.tail ≤ capacity_frames

abbrev pub contents : Layout → List Bytes
contents l = window l.slots l.tail (sub_u64 l.head l.tail)

abbrev pub view : Layout → FrameQueue
view l = record { frames = contents l; closed = not (l.producer_closed == 0) }

-- What `tryPushBatch` publishes when it copies `count` frames.
abbrev pub published : Layout → ℕ → Bytes → Layout
published l count bytes = record l { slots = copy_in l count bytes; head = add_u64 l.head count }

-- What `tryPopBatch` releases.
abbrev pub released : Layout → ℕ → Layout
released l count = record l { tail = add_u64 l.tail count }

pub published-IsValid :
    {l : Layout} (count : ℕ) (bytes : Bytes)
    → IsValid l
    → count ≤ capacity_frames - sub_u64 l.head l.tail
    → IsValid (published l count bytes)
published-IsValid count bytes v h = omega arith

pub released-IsValid :
    {l : Layout} (count : ℕ)
    → IsValid l
    → count ≤ sub_u64 l.head l.tail
    → IsValid (released l count)
released-IsValid count v h = omega arith

pub contents-published :
    {l : Layout} (count : ℕ) (bytes : Bytes)
    → IsValid l
    → count ≤ capacity_frames - sub_u64 l.head l.tail
    → contents (published l count bytes) ≡ contents l ++ split_frames count bytes
contents-published {l} count bytes v h =
    rw
      (
        copy_in-eq-round l count bytes (omega arith),
        store_round-mod l.slots l.head (l.tail + n) count bytes (omega arith),
        e,
      )
      (window-store_round count n l.slots l.tail bytes (omega arith))
  where
    n : ℕ
    n = sub_u64 l.head l.tail

    e : sub_u64 (add_u64 l.head count) l.tail ≡ n + count
    e = omega arith

pub contents-released :
    {l : Layout} (count : ℕ)
    → IsValid l
    → count ≤ sub_u64 l.head l.tail
    → contents (released l count) ≡ drop count (contents l)
contents-released {l} count v h =
    window-mod l.slots (add_u64 l.tail count) (l.tail + count)
      (sub_u64 l.head (add_u64 l.tail count)) (omega arith)
    ∙ ap (window l.slots (l.tail + count)) (omega arith)
    ∙ sym (drop-window l.slots l.tail n count h)
  where
    n : ℕ
    n = sub_u64 l.head l.tail

-- The bytes that `tryPopBatch` copies out are those of the oldest frames.
pub copy_out-contents :
    {l : Layout} (count : ℕ)
    → IsValid l
    → count ≤ sub_u64 l.head l.tail
    → copy_out l count ≡ join_frames (take count (contents l))
copy_out-contents {l} count v h =
    copy_out-eq-window l count (omega arith)
    ∙ ap join_frames (sym (take-window l.slots l.tail (sub_u64 l.head l.tail) count h))

pub length-contents : (l : Layout) → length (contents l) ≡ sub_u64 l.head l.tail
length-contents l = length-window l.slots l.tail (sub_u64 l.head l.tail)

abbrev pub Outcome : Type 0
Outcome = Reply × Option FrameQueue

-- `tryPushBatch` pushes what the queue has room for, in order, and keeps the ring valid.
pub try_push_batch_lem :
    (l : Layout) (bytes : Bytes)
    → IsValid l
    → let n = Queue.room (view l) bytes in
      try_push_batch (some l) bytes ≡ (n, some (if n == 0 then l else published l n bytes))
unfolding try_push_batch
try_push_batch_lem l bytes v = ground (arith, length-contents l)

-- `tryPopBatch` pops what is there, up to the span's size.
pub try_pop_batch_lem :
    (l : Layout) (size : ℕ)
    → IsValid l
    → let n = Queue.wanted (view l) size in
      try_pop_batch (some l) size
      ≡ (n, (if n == 0 then [] else copy_out l n), some (if n == 0 then l else released l n))
unfolding try_pop_batch
try_pop_batch_lem l size v = ground (arith, length-contents l)
