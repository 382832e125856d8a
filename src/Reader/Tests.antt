-- ===== src/Reader/Tests.antt =====
-- A round of Reader/src/Reader.cpp on a ring with one frame and a disk in memory.
use telemetry_server.Base.{ℕ, zero, suc, refl, arith, some, inl, inr, [], true, false}
use telemetry_server.Base.Action.{Ensures}
use telemetry_server.Protocol.Codec.{encode}
use telemetry_server.Protocol.Codec.RoundTrip.{length-encode}
use telemetry_server.Protocol.Codec.Tests.{sample}
use telemetry_server.Ipc.Ring.{Layout, new_layout}
use telemetry_server.Ipc.EventFd.{Called, Patience}
use telemetry_server.Storage.Tests.{
  Memory, memory_disk, memory_laws, full_segment, full_segment-Ready, torn,
}
use telemetry_server.Reader.{State, drain_and_flush}
use telemetry_server.Reader.Batch.{IsStaging}
use telemetry_server.Reader.Pop.{IsFilled, queued}
use telemetry_server.Reader.Run.{Peer, Produced, ReaderConfig, run}
use telemetry_server.Reader.Run.Exchange.{PeerLaws, Turns}
use telemetry_server.Reader.Run.Stored.{Runs, reader_run_lem}
use telemetry_server.Reader.Drain.{Empties, drain_and_flush_lem}

abbrev one_frame : Layout
one_frame = record (new_layout) { head = 1; slots = λ i. encode sample }

abbrev before : State Memory
before = record { storage = full_segment; ring = some one_frame; batch = []; consumed_any = false }

before-IsStaging : IsStaging memory_laws 70000 before
before-IsStaging = record {
  ready = full_segment-Ready;
  whole = refl;
  size = omega arith;
  enough = omega arith;
}

one_frame-IsFilled : IsFilled one_frame
one_frame-IsFilled = (omega arith, (length-encode sample, tt))

drain_and_flush_lem_example :
    Ensures
      (Empties memory_laws 70000 before (queued one_frame))
      (drain_and_flush memory_disk 70000 before)
drain_and_flush_lem_example =
    drain_and_flush_lem memory_laws 70000 before one_frame refl one_frame-IsFilled before-IsStaging
      (omega arith)

-- Each wait brings one frame, and the last one closes the ring.
abbrev pub waits : ℕ → Called × Produced × ℕ
waits zero = (Called.done, record { bytes = []; closes = true }, zero)
waits (suc n) = (Called.done, record { bytes = encode sample; closes = false }, n)

abbrev pub waking_peer : Peer
waking_peer = record {
  World = ℕ;
  notify = λ n. (Called.done, record { bytes = []; closes = false }, n);
  wait = waits;
}

pub waits-law : (n : ℕ) → let (r, q, n') = waits n in Patience 0 r 0 × Turns n r q n'
waits-law zero = (omega arith, (omega arith, inl refl))
waits-law (suc n) = (omega arith, (omega arith, inr (omega arith)))

abbrev pub waking_laws : PeerLaws waking_peer
waking_laws = record {
  signals = λ n. 0;
  left = λ n. n;
  notify_signals = λ n. omega arith;
  wait_signals = λ n. (waits-law n).0;
  notify_left = λ n. omega arith;
  wait_left = λ n. (waits-law n).1;
}

abbrev small_config : ReaderConfig
small_config = record { data_file_path = []; max_segment_bytes = 4096; sync_every_bytes = 8192 }

reader_run_lem_example :
    Ensures
      (Runs memory_laws waking_laws 200000 one_frame torn)
      (run memory_disk waking_peer 200000 4 small_config (some one_frame) torn 2)
reader_run_lem_example =
    reader_run_lem memory_laws waking_laws 200000 4 small_config one_frame torn 2 one_frame-IsFilled
      (omega arith) (omega arith) (omega arith) (omega arith) (omega arith)
      (λ sec nsec q t h low. refl)
