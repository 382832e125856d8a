-- ===== src/Ipc/Tests.antt =====
-- Ipc/src/SharedRingBuffer.cpp on a frame or two.
use telemetry_server.Base.{
  ◌+◌, ◌-◌, ◌^◌, ◌≡◌, ◌≤◌, refl, arith, List, [], ◌∷◌, ◌++◌, length, some, replicate,
}
use telemetry_server.Protocol.Words.{Bytes}
use telemetry_server.Ipc.Queue
use telemetry_server.Ipc.Queue.{Op}
use telemetry_server.Ipc.Ring.{Layout, capacity_frames, new_layout}
use telemetry_server.Ipc.Ring.Refine.{IsValid, view, contents}
use telemetry_server.Ipc.Ring.Run.{calls, calls_refine}
use telemetry_server.Base.{ℕ, zero, suc}
use telemetry_server.Base.Action.{Ensures}
use telemetry_server.Ipc.EventFd.{
  Called, WriteLaw, ReadLaw, Patience, Notifies, Consumes, notify_event, consume_event,
  notify_event_lem, consume_event_lem,
}
use telemetry_server.Ipc.Spsc.{System, Step, Reach, Producer, started}
use telemetry_server.Ipc.Spsc.Conserve.{Reach-conserves}

abbrev two_frames : Bytes
two_frames = replicate 32 1 ++ replicate 32 2

-- A ring whose counters are about to wrap around.
abbrev late : Layout
late = record (new_layout) { head = 2 ^ 64 - 1; tail = 2 ^ 64 - 1 }

late-IsValid : IsValid late
late-IsValid = omega arith

abbrev ops : List Op
ops =
    Op.push_batch two_frames
    ∷ Op.pending_frames
    ∷ Op.pop 32
    ∷ Op.close
    ∷ Op.push (replicate 32 3)
    ∷ Op.pop_batch 64
    ∷ []

calls_refine_example : calls (some late) ops ≡ Queue.run (view late) ops
calls_refine_example = calls_refine ops late late-IsValid

abbrev copied : System
copied = record (started) { producer = Producer.copying 2 0 two_frames }

Reach-copied : Reach started copied
Reach-copied = Reach.next Reach.here (Step.load_tail two_frames refl refl refl (omega arith))

Reach-conserves_example :
    (copied.given ≡ copied.taken ++ contents copied.ring)
    × (length (contents copied.ring) ≤ capacity_frames)
Reach-conserves_example = Reach-conserves Reach-copied

-- A counter and the number of calls that are still interrupted.
abbrev patient_call : ℕ → ℕ → ℕ → Called × (ℕ × ℕ)
patient_call n zero n' = (Called.done, (n', 0))
patient_call n (suc p) n' = (Called.interrupted, (n, p))

abbrev write_call : ℕ × ℕ → Called × (ℕ × ℕ)
write_call w = patient_call w.0 w.1 (w.0 + 1)

abbrev read_call : ℕ × ℕ → Called × (ℕ × ℕ)
read_call w = patient_call w.0 w.1 0

abbrev counter : ℕ × ℕ → ℕ
counter w = w.0

abbrev signals : ℕ × ℕ → ℕ
signals w = w.1

write_lem :
    (n p : ℕ) → let (r, w') = patient_call n p (n + 1) in WriteLaw n r w'.0 × Patience p r w'.1
write_lem n zero = (refl, omega arith)
write_lem n (suc p) = (refl, omega arith)

read_lem : (n p : ℕ) → let (r, w') = patient_call n p 0 in ReadLaw n r w'.0 × Patience p r w'.1
read_lem n zero = (refl, omega arith)
read_lem n (suc p) = (omega arith, omega arith)

notify_event_lem_example :
    Ensures
      (Notifies write_call signals counter (λ w. (write_lem w.0 w.1).1) (4, 2))
      (notify_event write_call 5 (4, 2))
notify_event_lem_example =
    notify_event_lem write_call signals counter (λ w. (write_lem w.0 w.1).1)
      (λ w. (write_lem w.0 w.1).0) 5 (4, 2) (omega arith)

consume_event_lem_example :
    Ensures
      (Consumes read_call signals counter (λ w. (read_lem w.0 w.1).1) (4, 2))
      (consume_event read_call 5 (4, 2))
consume_event_lem_example =
    consume_event_lem read_call signals counter (λ w. (read_lem w.0 w.1).1)
      (λ w. (read_lem w.0 w.1).0) 5 (4, 2) (omega arith)
