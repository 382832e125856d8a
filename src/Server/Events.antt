-- ===== src/Server/Events.antt =====
-- `handleEvent`, `handleSignalEvent` and `beginDraining` of Server/src/Server.cpp, and the loop of
-- `run` that calls them.
pub mod Invariant
pub mod Listen
pub mod Space
pub mod Client
pub mod Signal
pub mod Dispatch
pub mod Loop
pub mod Drain
use telemetry_server.Base.{
  ℕ, zero, suc, min, Bool, true, false, not, ◌&&◌, ◌||◌, Option, none, some, List, [], ◌∷◌, ◌++◌,
  take, leb, ◌==◌, if◌then◌else◌,
}
use telemetry_server.Base.Action.{Action, ◌>>=◌, ◌&&=◌, pure}
use telemetry_server.Protocol.Words.{Bytes}
use telemetry_server.Ipc.Ring
use telemetry_server.Ipc.Ring.{SharedRingBuffer, pending_frames}
use telemetry_server.Ipc.Ring.Refine.{contents, released}
use telemetry_server.Ipc.EventFd.{consume_event}
use telemetry_server.Server.Net.{Net, Event, Waited}
use telemetry_server.Server.Receive.{resume_ingress_bytes}
use telemetry_server.Server.Buffer.{Buffer}
use telemetry_server.Server.Clients.{find}
use telemetry_server.Server.Connections.{
  Server, State, Method, with_world, on_world, remove_client, remove_all_clients, accept_clients,
  read_client,
}
use telemetry_server.Server.Signals.{SignalState, no_signals, handle_signal_fd}
use telemetry_server.Server.Ingress.{update_ingress_interest}

abbrev pub is_running : State → Bool
is_running State.running = true
is_running State.draining = false

abbrev pub is_listener : Option ℕ → ℕ → Bool
is_listener none fd = false
is_listener (some listen_fd) fd = fd == listen_fd

abbrev pub has_client : Option Buffer → Bool
has_client none = false
has_client (some b) = true

pub can_resume : {W : Type 0} → Server W → Bool
can_resume s =
    is_running s.state && (s.ingress_paused && leb (Ring.pending_bytes s.ring) resume_ingress_bytes)

unfoldable pub is_done : {W : Type 0} → Server W → Bool
is_done s = not (is_running s.state) && Ring.empty s.ring

module _ (n : Net) where
  open n use {World}

  -- `close(listenFd)` comes after the descriptor has left the epoll set.
  pub stop_listening : Server World → Server World
  stop_listening s = elim s.listen_fd [
    | none ↦ s
    | some fd ↦ record s { listen_fd = none; world = n.close fd (n.epoll_delete fd s.world).1 }
  ]

  pub begin_draining : Server World → Server World
  unfolding stop_listening
  begin_draining s = remove_all_clients n (stop_listening s)

  -- Resuming and pausing the ingress, with the flag that says so.
  pub resume_ingress : Server World → Bool × Server World
  resume_ingress s =
      let (done, w) = update_ingress_interest n true s in
      if done
      then (true, record s { ingress_paused = false; world = w })
      else (false, with_world s w)

  pub pause_ingress : Server World → Bool × Server World
  pause_ingress s =
      let (done, w) = update_ingress_interest n false s in
      if done
      then (true, record s { ingress_paused = true; world = w })
      else (false, with_world s w)

  -- The end of `handleEvent`, for a client without a pause.
  pub hang_up : Event → Server World → Server World
  unfolding find
  hang_up event s =
      if s.ingress_paused
      then s
      else if event.epollrdhup || (event.epollhup || event.epollerr)
      then (if has_client (find event.fd s.clients) then remove_client n event.fd s else s)
      else s

  abbrev pub no_fault : Event → Method n
  no_fault event = pure (not (event.epollerr || event.epollhup))

  -- After the counter of `spaceReadyFd` is read.
  pub maybe_resume : Method n
  unfolding resume_ingress can_resume
  maybe_resume s = if can_resume s then some (resume_ingress s) else some (true, s)

  -- After `readClient`.
  pub read_done : Event → Method n
  unfolding pause_ingress hang_up
  read_done event s =
      if s.pause_requested then some (pause_ingress s) else some (true, hang_up event s)

  -- After `handleSignalFd`.
  pub note_signals : SignalState → Server World → Bool × Server World
  unfolding begin_draining
  note_signals signals s =
      if signals.reader_terminated
      then (false, s)
      else if signals.shutdown_requested && is_running s.state
      then (true, begin_draining (record s { state = State.draining }))
      else (true, s)

  abbrev pub read_noted :
      Server World → Option (Bool × (SignalState × World)) → Option (Bool × Server World)
  unfolding note_signals
  read_noted s none = none
  read_noted s (some (false, (signals, w))) = some (false, with_world s w)
  read_noted s (some (true, (signals, w))) = some (note_signals signals (with_world s w))

  -- The clients and the listening socket are closed before `run` returns.
  unfoldable pub shut_down : Server World → Server World
  shut_down s =
      let t = remove_all_clients n s in
      elim t.listen_fd [ none ↦ t | some fd ↦ with_world t (n.close fd t.world) ]

module _ (n : Net) (fuel : ℕ) where
  open n use {World}

  unfoldable pub listen_event : Event → Method n
  listen_event event s =
      ((if not s.ingress_paused && event.epollin then accept_clients n fuel event.fd else pure true)
          &&= no_fault n event)
        s

  abbrev pub consume_space : Method n
  consume_space s = on_world s (consume_event (n.space_ready_read) fuel s.world)

  pub space_event : Event → Method n
  unfolding maybe_resume
  space_event event =
      (if event.epollin then consume_space &&= maybe_resume n else pure true) &&= no_fault n event

  pub client_event : Event → Method n
  unfolding read_done hang_up
  client_event event s =
      if not s.ingress_paused && event.epollin
      then (read_client n fuel event.fd &&= read_done n event)
          (record s { pause_requested = false })
      else some (true, hang_up n event s)

  unfoldable pub handle_event : ℕ → Event → Method n
  unfolding listen_event space_event client_event
  handle_event space_ready_fd event s =
      if is_listener s.listen_fd event.fd
      then listen_event event s
      else if event.fd == space_ready_fd
      then space_event event s
      else client_event event s

  pub read_signals : ℕ → Method n
  unfolding note_signals
  read_signals reader_pid s =
      read_noted n s (handle_signal_fd n fuel reader_pid (no_signals, s.world))

  unfoldable pub handle_signal_event : ℕ → Event → Method n
  unfolding read_signals
  handle_signal_event reader_pid event =
      (if event.epollin then read_signals reader_pid else pure true) &&= no_fault n event

-- What `run` is called with.
pub record Descriptors : Type 0 where
  pub space_ready_fd : ℕ
  pub signal_fd : ℕ
  pub reader_pid : ℕ

-- The reader has taken frames in the meantime.
abbrev pub taken_from : ℕ → SharedRingBuffer → SharedRingBuffer
taken_from taken none = none
taken_from taken (some l) = some (released l (min taken (pending_frames (some l))))

abbrev pub taken_frames : ℕ → SharedRingBuffer → List Bytes
taken_frames taken none = []
taken_frames taken (some l) = take (min taken (pending_frames (some l))) (contents l)

module _ (n : Net) (fuel : ℕ) (d : Descriptors) where
  open n use {World}

  unfoldable pub handle_one : Event → Method n
  unfolding handle_signal_event handle_event
  handle_one event s =
      if event.fd == d.signal_fd
      then handle_signal_event n fuel d.reader_pid event s
      else handle_event n fuel d.space_ready_fd event s

  unfoldable pub handle_each : List Event → Method n
  unfolding handle_one
  handle_each [] = pure true
  handle_each (event ∷ rest) = handle_one event &&= handle_each rest

  -- `while (running)`; the result is whether `run` is to return `EXIT_SUCCESS`, with the frames that
  -- the reader has taken, of which the code keeps no list.
  unfoldable pub loop : ℕ → List Bytes → Action (Server World) (Bool × List Bytes)
  unfolding handle_each is_done
  loop zero log s = none
  loop (suc rounds) log s =
      let (r, count, w) = n.epoll_wait s.world in
      let t = record s { ring = taken_from count s.ring; world = w } in
      let log' = log ++ taken_frames count s.ring in
      if is_done s then some ((true, log), s) else elim r [
        | Waited.ready events ↦
            (handle_each events >>= λ ok. elim ok [
              | true ↦ loop rounds log'
              | false ↦ pure (false, log')
            ])
              t
        | Waited.interrupted ↦ loop rounds log' t
        | Waited.failed ↦ some ((false, log'), t)
      ]

  unfoldable pub serve : ℕ → Action (Server World) (Bool × List Bytes)
  unfolding loop shut_down
  serve rounds = loop rounds [] >>= λ r t. some (r, shut_down n t)
