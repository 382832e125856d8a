-- ===== src/Server/Receive/Bounds.antt =====
-- How large the input buffer of a client becomes in the rounds of `readClient`.
use telemetry_server.Base.{
  ◌+◌, ◌*◌, ◌/◌, ◌≤◌, ◌<◌, ap, arith, false, some, ◌++◌, length, length-append, length-drop,
}
use telemetry_server.Protocol.Words.{Bytes}
use telemetry_server.Protocol.Codec.{frame_size}
use telemetry_server.Ipc.Ring.{Layout}
use telemetry_server.Server.Buffer.{Buffer, pending, IsInOrder}
use telemetry_server.Server.Receive.{Outcome, Receipt, receive, max_client_buffer}
use telemetry_server.Server.Connections.{read_buffer_size}
use telemetry_server.Server.Receive.Laws.{IsRoomy, Deals, receive_lem}

-- A buffer between two rounds: less than a frame is pending, behind less than 4096 bytes.
pub record IsSmall (b : Buffer) : Type 0 where
  pub in_order : IsInOrder b
  pub part : length (pending b) < frame_size
  pub behind : b.offset < 4096

-- The buffer stays small, unless the client goes.
abbrev pub StaysSmall : Buffer → Outcome → Type 0
StaysSmall b Outcome.over_limit = ⊥
StaysSmall b Outcome.ring_full = ⊥
StaysSmall b (Outcome.rejected error) = Unit
StaysSmall b Outcome.kept = IsSmall b × (length b.bytes < 4096 + frame_size)

Deals-StaysSmall :
    (l : Layout) (bytes : Bytes) (r : Receipt) (o : Outcome)
    → length bytes ≤ max_client_buffer
    → Deals l bytes r o
    → StaysSmall r.buffer o
Deals-StaysSmall l bytes r Outcome.over_limit h q = omega (arith, h, q)
Deals-StaysSmall l bytes r Outcome.ring_full h q = q
Deals-StaysSmall l bytes r (Outcome.rejected error) h q = tt
Deals-StaysSmall l bytes r Outcome.kept h q =
    let rest = ap length q.1 in
    let size = length-drop (length bytes / frame_size * frame_size) bytes in
    let behind = length-drop r.buffer.offset r.buffer.bytes in
    (
      record { in_order = q.2; part = omega (arith, rest, size); behind = q.3 },
      omega (arith, rest, size, behind, q),
    )

-- A client buffer with less than a frame pending, behind fewer than 4096 bytes, meets a ring
-- below the pause threshold and at most as many bytes as one `recv` asks for. The client is not
-- over its limit and the ring is not too full; when the client stays, its buffer is as small
-- again, and holds fewer than 4096 bytes and a frame.
pub receive-StaysSmall :
    (b : Buffer) (l : Layout) (received : Bytes)
    → IsSmall b
    → IsRoomy l
    → length received ≤ read_buffer_size
    → let r = receive b (some l) false received in StaysSmall r.buffer r.outcome
receive-StaysSmall b l received s roomy h =
    let all = length-append (pending b) received in
    let part = s.part in
    Deals-StaysSmall l (pending b ++ received) (receive b (some l) false received) _
      (omega (arith, all, part)) (receive_lem b l received s.in_order roomy)
