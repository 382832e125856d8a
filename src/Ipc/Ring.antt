-- ===== src/Ipc/Ring.antt =====
-- Ipc/include/SharedRingBuffer.hpp and Ipc/src/SharedRingBuffer.cpp: a queue of frames in shared
-- memory. Each operation here runs alone. The counters `head` and `tail` are 64-bit words.
pub mod Slots
pub mod Refine
pub mod Run
use telemetry_server.Base.{
  ℕ, zero, suc, ◌+◌, ◌-◌, ◌*◌, ◌/◌, ◌%◌, ◌^◌, min, Bool, true, false, not, ◌||◌, Option, none, some,
  List, [], ◌++◌, length, take, drop, replicate, ltb, leb, ◌==◌, if◌then◌else◌,
}
use telemetry_server.Protocol.Words.{Bytes}
use telemetry_server.Protocol.Codec.{frame_size}

abbrev pub capacity_bytes : ℕ
capacity_bytes = 4 * 1024 * 1024

abbrev pub capacity_frames : ℕ
capacity_frames = capacity_bytes / frame_size

-- `slots[i]` for `i` below `capacity_frames`.
abbrev pub Slots : Type 0
Slots = ℕ → Bytes

pub record Layout : Type 0 where
  pub head : ℕ
  pub tail : ℕ
  pub producer_closed : ℕ
  pub slots : Slots

-- `m_layout`; `none` is `nullptr`.
abbrev pub SharedRingBuffer : Type 0
SharedRingBuffer = Option Layout

abbrev pub new_layout : Layout
new_layout = record { head = 0; tail = 0; producer_closed = 0; slots = λ i. replicate frame_size 0 }

-- `mapped` is whether `mmap` succeeds.
unfoldable pub create : Bool → SharedRingBuffer → Bool × SharedRingBuffer
create mapped (some l) = (false, some l)
create mapped none = if mapped then (true, some new_layout) else (false, none)

-- `std::uint64_t` addition and subtraction.
abbrev pub add_u64 : ℕ → ℕ → ℕ
add_u64 a b = (a + b) % 2 ^ 64

abbrev pub sub_u64 : ℕ → ℕ → ℕ
sub_u64 a b = (a + 2 ^ 64 - b) % 2 ^ 64

abbrev pub write_slot : Slots → ℕ → Bytes → Slots
write_slot slots index frame i = if i == index then frame else slots i

-- `memcpy` of `count` frames from `bytes` to `&slots[index]`.
pub store_frames : Slots → ℕ → ℕ → Bytes → Slots
store_frames slots index zero bytes = slots
store_frames slots index (suc count) bytes =
    store_frames (write_slot slots index (take frame_size bytes)) (index + 1) count
      (drop frame_size bytes)

-- `memcpy` of `count` frames from `&slots[index]`.
pub load_frames : Slots → ℕ → ℕ → Bytes
load_frames slots index zero = []
load_frames slots index (suc count) = slots index ++ load_frames slots (index + 1) count

unfoldable pub producer_closed : SharedRingBuffer → Bool
producer_closed none = true
producer_closed (some l) = not (l.producer_closed == 0)

unfoldable pub close_producer : SharedRingBuffer → SharedRingBuffer
close_producer none = none
close_producer (some l) = some (record l { producer_closed = 1 })

unfoldable pub pending_frames : SharedRingBuffer → ℕ
pending_frames none = 0
pending_frames (some l) = sub_u64 l.head l.tail

unfoldable pub pending_bytes : SharedRingBuffer → ℕ
unfolding pending_frames
pending_bytes r = pending_frames r * frame_size

unfoldable pub empty : SharedRingBuffer → Bool
unfolding pending_frames
empty r = pending_frames r == 0

pub full : SharedRingBuffer → Bool
unfolding pending_frames
full r = leb capacity_frames (pending_frames r)

pub try_push : SharedRingBuffer → Bytes → Bool × SharedRingBuffer
unfolding producer_closed
try_push none frame = (false, none)
try_push (some l) frame =
    if not (length frame == frame_size)
    then (false, some l)
    else if producer_closed (some l)
    then (false, some l)
    else if leb capacity_frames (sub_u64 l.head l.tail)
    then (false, some l)
    else (
      true,
      some (record l {
        slots = write_slot l.slots (l.head % capacity_frames) frame;
        head = add_u64 l.head 1;
      }),
    )

-- `size` is that of the span; the option is the frame copied to it.
pub try_pop : SharedRingBuffer → ℕ → Option Bytes × SharedRingBuffer
try_pop none size = (none, none)
try_pop (some l) size =
    if not (size == frame_size)
    then (none, some l)
    else if l.tail == l.head
    then (none, some l)
    else (some (l.slots (l.tail % capacity_frames)), some (record l { tail = add_u64 l.tail 1 }))

-- The slots after `count` frames are copied in from `head` on, in two parts at the end of the array.
pub copy_in : Layout → ℕ → Bytes → Slots
unfolding store_frames
copy_in l count frames =
    let index = l.head % capacity_frames in
    let first = min count (capacity_frames - index) in
    let copied = store_frames l.slots index first frames in
    if not (first == count)
    then store_frames copied 0 (count - first) (drop (first * frame_size) frames)
    else copied

pub copy_out : Layout → ℕ → Bytes
unfolding load_frames
copy_out l count =
    let index = l.tail % capacity_frames in
    let first = min count (capacity_frames - index) in
    let copied = load_frames l.slots index first in
    if not (first == count) then copied ++ load_frames l.slots 0 (count - first) else copied

abbrev pub is_empty : Bytes → Bool
is_empty frames = length frames == 0

-- The number of frames pushed.
unfoldable pub try_push_batch : SharedRingBuffer → Bytes → ℕ × SharedRingBuffer
unfolding producer_closed copy_in
try_push_batch none frames = (0, none)
try_push_batch (some l) frames =
    let free_frames = sub_u64 capacity_frames (sub_u64 l.head l.tail) in
    let count = min (length frames / frame_size) free_frames in
    if is_empty frames || not (length frames % frame_size == 0) || producer_closed (some l)
    then (0, some l)
    else if count == 0
    then (0, some l)
    else (count, some (record l { slots = copy_in l count frames; head = add_u64 l.head count }))

-- The number of frames popped, and the bytes copied to the front of a span of `size` bytes.
pub try_pop_batch : SharedRingBuffer → ℕ → ℕ × Bytes × SharedRingBuffer
unfolding copy_out
try_pop_batch none size = (0, [], none)
try_pop_batch (some l) size =
    let count = min (size / frame_size) (sub_u64 l.head l.tail) in
    if size == 0 || not (size % frame_size == 0)
    then (0, [], some l)
    else if count == 0
    then (0, [], some l)
    else (count, copy_out l count, some (record l { tail = add_u64 l.tail count }))
