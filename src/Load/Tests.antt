-- ===== src/Load/Tests.antt =====
-- The load generator on a connection that takes at most fifty bytes a call.
use telemetry_server.Base.{
  ℕ, zero, suc, ◌≤◌, ◌≡◌, refl, arith, Bool, true, false, Option, none, some, List, [], ◌∷◌, ◌++◌,
  length, take, min, Bool-cases, inl, inr, if◌then◌else◌,
}
use telemetry_server.Base.Action.{Ensures}
use telemetry_server.Base.Text.{Text, codes}
use telemetry_server.Protocol.Words.{Bytes}
use telemetry_server.Protocol.Codec.{DecodeError}
use telemetry_server.Server.Net.{set_at}
use telemetry_server.Server.Receive.{valid_frames}
use telemetry_server.Server.Startup.Laws.{OpensLaw}
use telemetry_server.Load.Options.{default_options, parse_options}
use telemetry_server.Load.Sender.{Os, SendResult, main}
use telemetry_server.Load.Sender.Batch.{telemetry, valid_frames-telemetry}
use telemetry_server.Load.Sender.Laws.{OsLaws, SendLaw, SendPatience}
use telemetry_server.Load.Sender.Main.{Loads, load_lem}

record Wire : Type 0 where
  output : Bytes
  opened : ℕ → Bool
  signals : ℕ

abbrev open_socket : Wire → Option ℕ × Wire
open_socket w =
    if w.opened 3 then (none, w) else (some 3, record w { opened = set_at w.opened 3 true })

abbrev send_on_wire : ℕ → Bytes → Wire → SendResult × Wire
send_on_wire zero b w = (
  SendResult.took (min 50 (length b)),
  record w { output = w.output ++ take (min 50 (length b)) b },
)
send_on_wire (suc n) b w = (SendResult.interrupted, record w { signals = n })

abbrev wire : Os
wire = record {
  World = Wire;
  socket = open_socket;
  connect = λ fd port w. (true, w);
  send = λ fd b w. send_on_wire w.signals b w;
  shutdown = λ fd w. (true, w);
  close = λ fd w. record w { opened = set_at w.opened fd false };
}

open_socket-law :
    (w : Wire)
    → let (r, v) = open_socket w in
      OpensLaw w.opened r v.opened × (v.output ≡ w.output) × (v.signals ≤ w.signals)
open_socket-law w = elim (Bool-cases (w.opened 3)) [
  | inl e ↦ rw e (refl, refl, omega arith)
  | inr e ↦ rw e ((e, refl), refl, omega arith)
]

send_on_wire-law :
    (b : Bytes) (n : ℕ) (w : Wire)
    → n ≡ w.signals
    → let (r, v) = send_on_wire n b w in
      SendLaw w.output r b v.output × (v.opened ≡ w.opened) × SendPatience w.signals r v.signals
send_on_wire-law b zero w e = ((omega arith, refl), refl, omega arith)
send_on_wire-law b (suc n) w e = (refl, refl, omega (arith, e))

abbrev wire_laws : OsLaws wire
wire_laws = record {
  output = λ w. w.output;
  opened = λ w. w.opened;
  signals = λ w. w.signals;
  send_law = λ fd b w. (let q = send_on_wire-law b w.signals w refl in (q.0, q.1));
  send_signals = λ fd b w. (send_on_wire-law b w.signals w refl).2;
  socket_law = open_socket-law;
  connect_law = λ fd port w. (refl, refl, omega arith);
  shutdown_law = λ fd w. (refl, refl);
  close_law = λ fd w. (refl, refl);
}

abbrev quiet_wire : Wire
quiet_wire = record { output = []; opened = λ fd. false; signals = 1 }

abbrev arguments : List Text
arguments = codes "--frames" ∷ codes "3" ∷ codes "--batch-frames" ∷ codes "2" ∷ []

load_lem_example :
    Ensures
      (Loads wire_laws (parse_options arguments default_options) quiet_wire)
      (main wire 200000 2000000 arguments quiet_wire)
load_lem_example =
    load_lem wire_laws 200000 2000000 arguments quiet_wire (omega arith) (omega arith)

valid_frames-telemetry_example : valid_frames 3 (telemetry 5 3) ≡ (3, DecodeError.none)
valid_frames-telemetry_example = valid_frames-telemetry 5 3
