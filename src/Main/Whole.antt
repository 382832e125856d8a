-- ===== src/Main/Whole.antt =====
-- `main` of src/main.cpp, in the process that it was started in and in the reader's.
use telemetry_server.Base.{ℕ}
use telemetry_server.Base.Text.{Text}
use telemetry_server.Storage.Disk.{Disk, DiskLaws}
use telemetry_server.Reader.Run.{Peer}
use telemetry_server.Reader.Run.Exchange.{PeerLaws}
use telemetry_server.Server.Net.{Net, NetLaws}
use telemetry_server.Server.Startup.{Sockets}
use telemetry_server.Main.{System, Machine}
use telemetry_server.Main.Calls.{SystemLaws}

module _ {S : Type 0} {n : Net} (net_laws : NetLaws n) (k : Sockets (n.World)) {sys : System S}
    (laws : SystemLaws sys) {d : Disk} (disk_laws : DiskLaws d) {p : Peer} (peer_laws : PeerLaws p)
    (fuel rounds : ℕ) where
  open net_laws use {budget}
  open laws use {opened, reaped, signals}

  abbrev M : Type 0
  M = Machine (n.World) S (d.World) (p.World)
