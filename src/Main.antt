-- ===== src/Main.antt =====
-- src/main.cpp: the process that starts the reader, runs the server and waits for the reader to end.
-- The calls of the operating system are an interface; `main` goes on in the parent or in the child as
-- `fork` says.
pub mod Calls
pub mod Prepare
pub mod Wake
pub mod Finish
pub mod Oversee
pub mod Branches
pub mod Whole
mod Tests
use telemetry_server.Base.{
  ℕ, zero, suc, Bool, true, false, ◌&&◌, Option, none, some, List, [], ◌∷◌, ◌==◌, if◌then◌else◌,
}
use telemetry_server.Base.Action.{Action, ◌>>=◌}
use telemetry_server.Base.Text.{Text}
use telemetry_server.Protocol.Words.{Bytes}
use telemetry_server.Ipc.Ring
use telemetry_server.Ipc.Ring.{SharedRingBuffer, close_producer}
use telemetry_server.Ipc.EventFd.{Called, notify_event}
use telemetry_server.Storage.Disk.{Disk}
use telemetry_server.Config.Parser.{AppConfig, ParseStatus, default_config, parse_arguments}
use telemetry_server.Reader.Run
use telemetry_server.Reader.Run.{ReaderConfig, Peer, Process}
use telemetry_server.Server.Net.{Net, Signo}
use telemetry_server.Server.Connections.{Server, State}
use telemetry_server.Server.Events.{Descriptors}
use telemetry_server.Server.Startup
use telemetry_server.Server.Startup.{Sockets, attempt}

-- A `sigset_t`.
abbrev pub SignalSet : Type 0
SignalSet = List Signo

-- `fork` returns in both processes.
pub data Forked : Type 0 where
  failed child : Forked
  parent : ℕ → Forked

-- A status by `WIFEXITED` and `WIFSIGNALED`.
pub data Status : Type 0 where
  exited signaled : ℕ → Status
  other : Status

pub data WaitResult : Type 0 where
  status : Status → WaitResult
  interrupted failed : WaitResult

-- `-1` is `none` and `false`; what `kill` returns is only printed.
pub record System (W : Type 0) : Type 0 where
  pub sigemptyset : Option SignalSet
  pub sigaddset : Signo → SignalSet → Option SignalSet
  pub sigprocmask : SignalSet → W → Bool × W
  pub setvbuf : W → Bool × W
  pub mmap : W → Bool × W
  pub eventfd : W → Option ℕ × W
  pub fork : W → Forked × W
  pub signalfd : SignalSet → W → Option ℕ × W
  pub eventfd_write : ℕ → W → Called × W
  pub kill : ℕ → W → W
  pub close : ℕ → W → W
  pub waitpid : ℕ → W → WaitResult × W

-- What the calls of each interface see of the machine: those of the server, of this file, and of the
-- reader.
pub record Machine (N S D P : Type 0) : Type 0 where
  pub server : N
  pub system : S
  pub disk : D
  pub peer : P

-- What is there when the reader is started.
pub record Prepared : Type 0 where
  pub mask : SignalSet
  pub ring : SharedRingBuffer
  pub data_ready_fd : ℕ
  pub space_ready_fd : ℕ

-- How a process ends: whether its exit code is `EXIT_SUCCESS`, the ring, and the frames that the
-- reader took while the server ran.
pub record Exit : Type 0 where
  pub success : Bool
  pub ring : SharedRingBuffer
  pub taken : List Bytes

abbrev pub reader_config : AppConfig → ReaderConfig
reader_config c = record {
  data_file_path = c.data_file_path;
  max_segment_bytes = c.max_segment_bytes;
  sync_every_bytes = c.sync_every_bytes;
}

-- `Server{serverConfig}`; the other variables are set when `run` starts.
abbrev pub new_server : {W : Type 0} → SharedRingBuffer → W → Server W
new_server ring w = record {
  clients = [];
  ring = ring;
  listen_fd = none;
  state = State.running;
  ingress_paused = false;
  pause_requested = false;
  world = w;
}

-- The exit code, from the server's result and what `waitpid` has said.
unfoldable pub exit_code : Bool → Option Status → Bool
exit_code ok none = false
exit_code ok (some (Status.signaled signal)) = false
exit_code ok (some Status.other) = false
exit_code ok (some (Status.exited code)) = if code == 0 then ok else false

module _ {W : Type 0} (sys : System W) where
  -- The mask, of which `none` is `false`.
  unfoldable pub add_signals : List Signo → SignalSet → Option SignalSet
  add_signals [] mask = some mask
  add_signals (s ∷ rest) mask = elim (sys.sigaddset s mask) [
    | none ↦ none
    | some mask' ↦ add_signals rest mask'
  ]

  unfoldable pub block_managed_signals : W → Option SignalSet × W
  unfolding add_signals
  block_managed_signals w = elim sys.sigemptyset [
    | none ↦ (none, w)
    | some empty_mask ↦
        elim (add_signals (Signo.sigint ∷ Signo.sigterm ∷ Signo.sigchld ∷ []) empty_mask) [
          | none ↦ (none, w)
          | some mask ↦ attempt (sys.sigprocmask mask w) (λ v. v) (λ v. (some mask, v))
        ]
  ]

  unfoldable pub open_space : SignalSet → SharedRingBuffer → ℕ → W → Option Prepared × W
  open_space mask ring data_ready_fd w =
      let (r, v) = sys.eventfd w in
      elim r [
        | none ↦ (none, sys.close data_ready_fd v)
        | some fd ↦ (
          some (record {
            mask = mask;
            ring = ring;
            data_ready_fd = data_ready_fd;
            space_ready_fd = fd;
          }),
          v,
        )
      ]

  unfoldable pub open_data : SignalSet → SharedRingBuffer → W → Option Prepared × W
  unfolding open_space
  open_data mask ring w =
      let (r, v) = sys.eventfd w in
      elim r [ none ↦ (none, v) | some fd ↦ open_space mask ring fd v ]

  -- From `setvbuf` to the second `eventfd`.
  unfoldable pub open_all : SignalSet → W → Option Prepared × W
  unfolding open_data
  open_all mask w =
      attempt (sys.setvbuf w) (λ v. v)
        λ v.
          let (mapped, u) = sys.mmap v in
          let (created, ring) = Ring.create mapped none in
          attempt (created, u) (λ x. x) (open_data mask ring)

  -- The calls before `fork`.
  unfoldable pub prepare : W → Option Prepared × W
  unfolding block_managed_signals open_all
  prepare w =
      let (r, v) = block_managed_signals w in
      elim r [ none ↦ (none, v) | some mask ↦ open_all mask v ]

  abbrev pub close_events : Prepared → W → W
  close_events p w = sys.close p.space_ready_fd (sys.close p.data_ready_fd w)

  -- `while (waitpid(…) == -1)`, which an error ends.
  unfoldable pub wait_reader : ℕ → ℕ → Action W (Option Status)
  wait_reader zero pid w = none
  wait_reader (suc fuel) pid w =
      let (r, v) = sys.waitpid pid w in
      elim r [
        | WaitResult.status s ↦ some (some s, v)
        | WaitResult.interrupted ↦ wait_reader fuel pid v
        | WaitResult.failed ↦ some (none, v)
      ]

  -- A reader that cannot be woken is killed.
  unfoldable pub tell_reader : ℕ → ℕ → ℕ → Action W Bool
  tell_reader fuel pid fd = notify_event (sys.eventfd_write fd) fuel >>= λ woken w.
      (if woken then some (true, w) else some (false, sys.kill pid w))

  -- What is left to do once the server has returned, or could not be started.
  unfoldable pub finish :
      ℕ → ℕ → Prepared → (W → W) → Bool → List Bytes → SharedRingBuffer → Action W Exit
  unfolding wait_reader tell_reader
  finish fuel pid p close_signals ok taken ring =
      let closed = close_producer ring in
      tell_reader fuel pid p.data_ready_fd >>= λ woken w.
      ((wait_reader fuel pid >>= λ s v.
      some (record { success = exit_code (ok && woken) s; ring = closed; taken = taken }, v))
        (close_events p (close_signals w)))

abbrev pub on_system :
    {N S D P : Type 0} → Machine N S D P → Option (Exit × S) → Option (Exit × Machine N S D P)
on_system m none = none
on_system m (some (e, s)) = some (e, record m { system = s })

abbrev pub early : Bool → Exit
early ok = record { success = ok; ring = none; taken = [] }

module _ {S : Type 0} (n : Net) (k : Sockets (n.World)) (sys : System S) (d : Disk) (p : Peer)
    (fuel rounds : ℕ) where
  abbrev World : Type 0
  World = Machine (n.World) S (d.World) (p.World)

  abbrev pub child_done :
      Prepared → World → Option (Bool × Process (d.World) (p.World)) → Option (Exit × World)
  child_done q m none = none
  child_done q m (some (ok, t)) = some (
    record { success = ok; ring = t.reader.ring; taken = [] },
    record m { system = close_events sys q m.system; disk = t.reader.storage.world; peer = t.peer },
  )

  -- The branch of the child.
  pub become_reader : AppConfig → Prepared → Action World Exit
  become_reader c q m =
      child_done q m (Run.run d p fuel rounds (reader_config c) q.ring m.disk m.peer)

  abbrev pub overseen :
      ℕ
      → Prepared
      → ℕ
      → World
      → Option ((Bool × List Bytes) × Server (n.World))
      → Option (Exit × World)
  overseen pid q signal_fd m none = none
  overseen pid q signal_fd m (some ((ok, taken), t)) =
      on_system (record m { server = t.world })
        (finish sys fuel pid q (sys.close signal_fd) ok taken t.ring m.system)

  abbrev pub descriptors_of : ℕ → Prepared → ℕ → Descriptors
  descriptors_of pid q signal_fd = record {
    space_ready_fd = q.space_ready_fd;
    signal_fd = signal_fd;
    reader_pid = pid;
  }

  -- The server runs, and then the reader is waited for.
  pub oversee : ℕ → Prepared → ℕ → Action World Exit
  unfolding finish
  oversee pid q signal_fd m =
      overseen pid q signal_fd m
        (Startup.run n k fuel (descriptors_of pid q signal_fd) rounds (new_server q.ring m.server))

  -- The branch of the parent.
  pub supervise : ℕ → Prepared → Action World Exit
  unfolding oversee
  supervise pid q m =
      let (r, s) = sys.signalfd q.mask m.system in
      elim r [
        | none ↦ on_system m (finish sys fuel pid q (λ u. u) false [] q.ring s)
        | some signal_fd ↦ oversee pid q signal_fd (record m { system = s })
      ]

  -- From `fork` on; `none` is where a call before it has failed.
  unfoldable pub launch : AppConfig → Option Prepared → Action World Exit
  unfolding become_reader supervise
  launch c none m = some (early false, m)
  launch c (some q) m =
      let (r, s) = sys.fork m.system in
      elim r [
        | Forked.failed ↦ some (
          early false,
          record m { system = sys.close q.space_ready_fd (sys.close q.data_ready_fd s) },
        )
        | Forked.child ↦ become_reader c q (record m { system = s })
        | Forked.parent pid ↦ supervise pid q (record m { system = s })
      ]

  unfoldable pub main : List Text → Action World Exit
  unfolding prepare launch
  main args m =
      let (parsed, c) = parse_arguments args default_config in
      elim parsed [
        | ParseStatus.help_requested ↦ some (early true, m)
        | ParseStatus.error ↦ some (early false, m)
        | ParseStatus.success ↦
            let (q, s) = prepare sys m.system in launch c q (record m { system = s })
      ]
