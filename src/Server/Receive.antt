-- ===== src/Server/Receive.antt =====
-- `readClient` of Server/src/Server.cpp on what one call of `recv` has returned: the frames that it
-- publishes, and what becomes of the client.
pub mod Frames
pub mod Laws
pub mod Bounds
use telemetry_server.Base.{
  ℕ, zero, suc, ◌+◌, ◌*◌, ◌/◌, Bool, true, false, not, ◌&&◌, ◌||◌, List, [], ◌++◌, take, drop, ltb,
  leb, ◌==◌, if◌then◌else◌,
}
use telemetry_server.Protocol.Words.{Bytes}
use telemetry_server.Protocol.Codec.{frame_size, DecodeError, succeeded, decode}
use telemetry_server.Ipc.Ring
use telemetry_server.Ipc.Ring.{SharedRingBuffer, try_push_batch}
use telemetry_server.Server.Buffer.{Buffer, pending_bytes, compact}

abbrev pub max_client_buffer : ℕ
max_client_buffer = 64 * 1024

abbrev pub pause_ingress_bytes : ℕ
pause_ingress_bytes = 3 * 1024 * 1024

abbrev pub resume_ingress_bytes : ℕ
resume_ingress_bytes = 1 * 1024 * 1024

-- How many of the first `count` frames are valid, up to one that is not, and its error.
unfoldable pub valid_frames : ℕ → Bytes → ℕ × DecodeError
valid_frames zero bytes = (0, DecodeError.none)
valid_frames (suc count) bytes =
    let decoded = decode (take frame_size bytes) in
    let (valid, error) = valid_frames count (drop frame_size bytes) in
    if succeeded decoded then (suc valid, error) else (0, decoded.error)

-- What the round comes to. `over_limit` and `rejected` remove the client, and `ring_full` stops the
-- server.
pub data Outcome : Type 0 where
  over_limit ring_full kept : Outcome
  rejected : DecodeError → Outcome

-- `published` is whether the reader is notified.
pub record Receipt : Type 0 where
  pub buffer : Buffer
  pub ring : SharedRingBuffer
  pub published : Bool
  pub pause_requested : Bool
  pub outcome : Outcome

-- `client.inputBuffer.data.insert(…)`
abbrev pub insert : Buffer → Bytes → Buffer
insert b bytes = record b { bytes = b.bytes ++ bytes }

-- `b` is the buffer behind the frames that were pushed.
pub settle : DecodeError → Buffer → SharedRingBuffer → Bool → Bool → Receipt
unfolding compact
settle DecodeError.none b ring published pause = record {
  buffer = compact 4096 b;
  ring = ring;
  published = published;
  pause_requested = pause;
  outcome = Outcome.kept;
}
settle error b ring published pause = record {
  buffer = b;
  ring = ring;
  published = published;
  pause_requested = pause;
  outcome = Outcome.rejected error;
}

-- The push of `valid` frames, of which there is one or more.
pub publish : ℕ → DecodeError → Buffer → SharedRingBuffer → Bool → Receipt
unfolding settle
publish valid error b ring pause =
    let (pushed, ring') = try_push_batch ring (take (valid * frame_size) (drop b.offset b.bytes)) in
    let b' = record b { offset = b.offset + pushed * frame_size } in
    let published = not (pushed == 0) in
    if not (pushed == valid)
    then record {
      buffer = b';
      ring = ring';
      published = published;
      pause_requested = pause;
      outcome = Outcome.ring_full;
    }
    else settle error b' ring' published
        (pause || leb pause_ingress_bytes (Ring.pending_bytes ring'))

-- The frames of the buffer, once it is within its limit.
pub publish_frames : ℕ × DecodeError → Buffer → SharedRingBuffer → Bool → Receipt
unfolding settle publish
publish_frames (valid, error) b ring pause =
    if not (valid == 0) then publish valid error b ring pause else settle error b ring false pause

unfoldable pub receive : Buffer → SharedRingBuffer → Bool → Bytes → Receipt
unfolding valid_frames publish_frames
receive buffer ring pause received =
    let b = insert buffer received in
    if ltb max_client_buffer (pending_bytes b)
    then record {
      buffer = b;
      ring = ring;
      published = false;
      pause_requested = pause;
      outcome = Outcome.over_limit;
    }
    else publish_frames (valid_frames (pending_bytes b / frame_size) (drop b.offset b.bytes)) b ring
        pause
