-- ===== src/Ipc/Queue.antt =====
-- What the ring promises: a queue of at most `capacity_frames` frames, oldest first, and whether the
-- producer has closed it.
use telemetry_server.Base.{
  ℕ, ◌-◌, ◌/◌, ◌%◌, min, Bool, true, not, ◌||◌, Option, none, some, List, [], ◌∷◌, ◌++◌, length,
  take, drop, ◌==◌, if◌then◌else◌,
}
use telemetry_server.Protocol.Words.{Bytes}
use telemetry_server.Protocol.Codec.{frame_size}
use telemetry_server.Ipc.Ring.{capacity_frames}
use telemetry_server.Ipc.Ring.Slots.{split_frames, join_frames}

pub record FrameQueue : Type 0 where
  pub frames : List Bytes
  pub closed : Bool

pub data Op : Type 0 where
  push : Bytes → Op
  pop : ℕ → Op
  push_batch : Bytes → Op
  pop_batch : ℕ → Op
  close : Op
  pending_frames : Op

pub data Reply : Type 0 where
  pushed : Bool → Reply
  popped : Option Bytes → Reply
  pushed_batch : ℕ → Reply
  popped_batch : ℕ → Bytes → Reply
  closed : Reply
  counted : ℕ → Reply

-- Frames go in only whole, only before the close, and only as far as there is room.
abbrev pub room : FrameQueue → Bytes → ℕ
room q bytes =
    if q.closed || not (length bytes % frame_size == 0)
    then 0
    else min (length bytes / frame_size) (capacity_frames - length q.frames)

-- The frames that a span of `size` bytes takes.
abbrev pub wanted : FrameQueue → ℕ → ℕ
wanted q size = if size % frame_size == 0 then min (size / frame_size) (length q.frames) else 0

unfoldable pub step : FrameQueue → Op → Reply × FrameQueue
step q (push frame) =
    let accepted = length frame == frame_size in
    let n = if accepted then room q frame else 0 in
    (pushed (n == 1), record q { frames = q.frames ++ split_frames n frame })
step q (pop size) =
    if size == frame_size
    then elim q.frames [
      | [] ↦ (popped none, q)
      | x ∷ xs ↦ (popped (some x), record q { frames = xs })
    ]
    else (popped none, q)
step q (push_batch bytes) =
    let n = room q bytes in (pushed_batch n, record q { frames = q.frames ++ split_frames n bytes })
step q (pop_batch size) =
    let n = wanted q size in
    (popped_batch n (join_frames (take n q.frames)), record q { frames = drop n q.frames })
step q close = (closed, record q { closed = true })
step q pending_frames = (counted (length q.frames), q)

unfoldable pub run : FrameQueue → List Op → List Reply
run q [] = []
run q (op ∷ ops) = let (reply, q') = step q op in reply ∷ run q' ops
