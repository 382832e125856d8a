-- ===== src/Server/Tests.antt =====
-- Server/include/Buffer.hpp and a round of `readClient` on a few bytes.
use native.Mathlib.Decide.{ℕ_discrete}
use telemetry_server.Base.{
  ◌⊎◌, ◌<◌, ◌≤◌, ◌≡◌, ◌≢◌, refl, sym, subst, ==_of_eq, ==_of_ne, Bool, arith, ℕ, true, false,
  Option, none, some, [], ◌∷◌, ◌++◌, replicate, ◌==◌, if◌then◌else◌,
}
use telemetry_server.Protocol.Codec.{encode}
use telemetry_server.Protocol.Codec.RoundTrip.{length-encode}
use telemetry_server.Protocol.Codec.Tests.{sample}
use telemetry_server.Protocol.Words.{Bytes}
use telemetry_server.Ipc.Ring.{new_layout}
use telemetry_server.Ipc.Ring.Refine.{contents}
use telemetry_server.Server.Startup.{Sockets, set_up, run}
use telemetry_server.Server.Startup.Laws.{OpensLaw, SocketLaws, SetUp, set_up_lem}
use telemetry_server.Server.Startup.Run.{Ends, run_lem}
use telemetry_server.Server.Net.{set_at, Event, Signo, ChildCode}
use telemetry_server.Server.Script.{Script, scripted, quiet, scripted-NetLaws, quiet-NetLaws}
use telemetry_server.Server.Clients.{find}
use telemetry_server.Server.Connections.{Server, State}
use telemetry_server.Base.Action.{Ensures}
use telemetry_server.Server.Connections.{read_client}
use telemetry_server.Server.Connections.Reading.{Reads}
use telemetry_server.Server.Connections.Rounds.{read_client_lem}
use telemetry_server.Server.Signals.{no_signals, Noted, handle_signal_fd, handle_signal_fd_lem}
use telemetry_server.Server.Ingress.{Watches, update_ingress_interest, update_ingress_interest_lem}
use telemetry_server.Server.Events.{Descriptors, begin_draining, read_signals, handle_each, serve}
use telemetry_server.Server.Events.Signal.{Signalled, begin_draining_lem, read_signals_lem}
use telemetry_server.Server.Events.Drain.{serve-Succeeds}
use telemetry_server.Server.Events.Invariant.{Inv, Keeps}
use telemetry_server.Server.Events.Loop.{Returned}
use telemetry_server.Server.Events.Dispatch.{handle_each_lem}
use telemetry_server.Server.Buffer.{Buffer, new_buffer, pending, compact, compact_lem, IsInOrder}
use telemetry_server.Server.Receive.{receive}
use telemetry_server.Server.Receive.Bounds.{IsSmall, StaysSmall, receive-StaysSmall}
use telemetry_server.Server.Receive.Laws.{Deals, IsRoomy, receive_lem}

-- A buffer with the first five bytes of a frame, behind a frame that is done with.
abbrev partial : Buffer
partial = record { bytes = replicate 32 0 ++ replicate 5 0; offset = 32 }

compact_lem_example :
    (pending (compact 16 partial) ≡ pending partial)
    × IsInOrder (compact 16 partial)
    × ((compact 16 partial).offset ≢ 0 → (compact 16 partial).offset < 16)
compact_lem_example = compact_lem 16 partial (omega arith)

new_layout-IsRoomy : IsRoomy new_layout
new_layout-IsRoomy = (omega arith, refl, omega arith)

abbrev received : Bytes
received = replicate 27 0 ++ encode sample

receive_lem_example :
    let r = receive partial (some new_layout) false received in
    Deals new_layout (pending partial ++ received) r r.outcome
receive_lem_example = receive_lem partial new_layout received (omega arith) new_layout-IsRoomy

partial-IsSmall : IsSmall partial
partial-IsSmall = record { in_order = omega arith; part = omega arith; behind = omega arith }

receive-StaysSmall_example :
    let r = receive partial (some new_layout) false received in StaysSmall r.buffer r.outcome
receive-StaysSmall_example =
    receive-StaysSmall partial new_layout received partial-IsSmall new_layout-IsRoomy
      (omega (arith, length-encode sample))

-- A server that listens on descriptor 4, and a connection that waits with a frame and five bytes more.
abbrev readable : ℕ → Event
readable fd = record {
  fd = fd;
  epollin = true;
  epollrdhup = false;
  epollerr = false;
  epollhup = false;
}

abbrev descriptors : Descriptors
descriptors = record { space_ready_fd = 6; signal_fd = 7; reader_pid = 41 }

abbrev script : Script
script = record {
  kernel = record {
    unread = λ fd. if fd == 8 then encode sample else [];
    registered = λ fd. fd == 8;
    signals = record { signo = Signo.sigint; pid = 1; code = ChildCode.other } ∷ [];
    log = [];
  };
  left = 100;
  arrivals = (9, encode sample ++ replicate 5 0) ∷ [];
  waits = (readable 4 ∷ []) ∷ (readable 9 ∷ readable 8 ∷ []) ∷ (readable 7 ∷ []) ∷ [];
}

abbrev listening : Server Script
listening = record {
  clients = (8, new_buffer) ∷ [];
  ring = some new_layout;
  listen_fd = some 4;
  state = State.running;
  ingress_paused = false;
  pause_requested = false;
  world = script;
}

-- The server when it has stopped listening, with two frames in the ring.
abbrev draining : Server Script
draining = record {
  clients = [];
  ring = some (record new_layout { head = 2 });
  listen_fd = none;
  state = State.draining;
  ingress_paused = false;
  pause_requested = false;
  world = script;
}

only : (c : Bool) (b : Buffer) → (if c then some new_buffer else none) ≡ some b → IsInOrder b
only false b e = absurd (ground (arith, e))
only true b e = let same : new_buffer ≡ b = ground (arith, e) in subst IsInOrder same (omega arith)

listening-Inv : Inv scripted-NetLaws listening
unfolding scripted-NetLaws find
listening-Inv = record {
  layout = new_layout;
  ring_is = refl;
  valid_ring = record { head_word = omega arith; tail_word = omega arith; pending = omega arith };
  not_closed = refl;
  roomy = λ e. new_layout-IsRoomy;
  in_order = λ fd b e. only (8 == fd) b e;
  watched = λ fd h. elim (ℕ_discrete fd 8) [
    | yes e ↦ ==_of_eq e
    | no ne ↦ absurd (h (rw (==_of_ne (λ e. ne (sym e))) refl))
  ];
  listens = λ e. (4, refl);
  drained = λ e. absurd (ground (arith, e));
}

draining-Inv : Inv quiet-NetLaws draining
unfolding quiet-NetLaws find
draining-Inv = record {
  layout = record new_layout { head = 2 };
  ring_is = refl;
  valid_ring = record { head_word = omega arith; tail_word = omega arith; pending = omega arith };
  not_closed = refl;
  roomy = λ e. (
    record { head_word = omega arith; tail_word = omega arith; pending = omega arith },
    refl,
    omega arith,
  );
  in_order = λ fd b e. absurd (ground (arith, e));
  watched = λ fd h. absurd (h refl);
  listens = λ e. absurd (ground (arith, e));
  drained = λ e. (refl, refl);
}

serve-Succeeds_example :
    Ensures
      (λ r t. (r.0 ≡ true) × (r.1 ≡ contents (record new_layout { head = 2 })) × (t.clients ≡ []))
      (serve quiet 101 descriptors 3 draining)
unfolding draining-Inv quiet-NetLaws
serve-Succeeds_example =
    serve-Succeeds quiet-NetLaws (λ w e. absurd (ground (arith, e))) 101 descriptors
      (λ w. (tt, omega arith)) 3 draining draining-Inv refl (omega arith) (omega arith)

handle_each_lem_example :
    Ensures
      (Keeps scripted-NetLaws listening)
      (handle_each scripted 101 descriptors (readable 8 ∷ readable 7 ∷ []) listening)
unfolding scripted-NetLaws
handle_each_lem_example =
    handle_each_lem scripted-NetLaws 101 descriptors (readable 8 ∷ readable 7 ∷ []) listening
      listening-Inv (omega arith)

read_client_lem_example :
    Ensures
      (Reads scripted-NetLaws 8 new_buffer new_layout listening)
      (read_client scripted 101 8 listening)
unfolding scripted-NetLaws find
read_client_lem_example =
    read_client_lem scripted-NetLaws 101 8 new_buffer new_layout listening refl new_layout-IsRoomy
      refl (omega arith) refl (omega arith)

read_signals_lem_example :
    Ensures (Signalled scripted-NetLaws 41 listening) (read_signals scripted 101 41 listening)
unfolding scripted-NetLaws
read_signals_lem_example =
    read_signals_lem scripted-NetLaws 101 41 listening listening-Inv (omega arith)

handle_signal_fd_lem_example :
    Ensures
      (Noted scripted-NetLaws 41 no_signals script)
      (handle_signal_fd scripted 101 41 (no_signals, script))
unfolding scripted-NetLaws
handle_signal_fd_lem_example =
    handle_signal_fd_lem scripted-NetLaws 101 41 no_signals script (omega arith)

update_ingress_interest_lem_example :
    let (done, w) = update_ingress_interest scripted false listening in
    Watches scripted-NetLaws false listening.clients script done w
update_ingress_interest_lem_example =
    update_ingress_interest_lem scripted-NetLaws false listening 4 refl

begin_draining_lem_example :
    let t = begin_draining scripted listening in
    (t.clients ≡ [])
    × (t.listen_fd ≡ none)
    × (t.ring ≡ some new_layout)
    × (t.state ≡ State.running)
    × (t.ingress_paused ≡ false)
    × (t.world.left ≤ 100)
    × ((fd : ℕ)
        → (listening.listen_fd ≡ some fd) ⊎ (find fd listening.clients ≢ none)
        → t.world.kernel.registered fd ≡ false)
unfolding scripted-NetLaws
begin_draining_lem_example = begin_draining_lem scripted-NetLaws listening

-- Which descriptors are open, and which of them are in the epoll set.
abbrev Files : Type 0
Files = (ℕ → Bool) × (ℕ → Bool)

abbrev open_at : ℕ → Files → Option ℕ × Files
open_at fd w = if w.0 fd then (none, w) else (some fd, (set_at w.0 fd true, w.1))

abbrev files : Sockets Files
files = record {
  socket = open_at 4;
  set_reuse = λ fd w. (true, w);
  bind = λ fd w. (true, w);
  listen = λ fd w. (true, w);
  epoll_create = open_at 5;
  watch = λ epoll_fd fd w. (true, (w.0, set_at w.1 fd true));
  close = λ fd w. (set_at w.0 fd false, w.1);
}

open_at_lem : (fd : ℕ) (w : Files) → let (r, v) = open_at fd w in OpensLaw w.0 r v.0
open_at_lem fd w = go (w.0 fd) refl
  where
    go :
        (b : Bool)
        → w.0 fd ≡ b
        → let (r, v) =
            if◌then◌else◌ {A = Option ℕ × Files} b (none, w) (some fd, (set_at w.0 fd true, w.1)) in
          OpensLaw w.0 r v.0
    go true e = refl
    go false e = (e, refl)

files-SocketLaws : SocketLaws files
files-SocketLaws = record {
  opened = λ w. w.0;
  watched = λ w. w.1;
  socket_law = open_at_lem 4;
  epoll_law = open_at_lem 5;
  reuse_law = λ fd w. refl;
  bind_law = λ fd w. refl;
  listen_law = λ fd w. refl;
  watch_law = λ epoll_fd fd w. (refl, λ e. refl);
  close_law = λ fd w. refl;
}

set_up_lem_example :
    let w : Files = (λ fd. fd == 6, λ fd. false) in
    let (r, v) = set_up files descriptors w in SetUp files-SocketLaws descriptors w.0 r v
unfolding files-SocketLaws
set_up_lem_example = set_up_lem files-SocketLaws descriptors (λ fd. fd == 6, λ fd. false)

-- The sockets of the script, on which every call succeeds.
abbrev sockets : Sockets Script
sockets = record {
  socket = λ w. (some 4, w);
  set_reuse = λ fd w. (true, w);
  bind = λ fd w. (true, w);
  listen = λ fd w. (true, w);
  epoll_create = λ w. (some 5, w);
  watch = λ epoll_fd fd w. (true, w);
  close = λ fd w. w;
}

run_lem_example :
    Returned scripted-NetLaws
      (Ends scripted-NetLaws sockets 101 descriptors
        (set_up sockets descriptors listening.world).1
        new_layout)
      (run scripted sockets 101 descriptors 10 (record listening { clients = [] }))
unfolding set_up scripted-NetLaws
run_lem_example =
    run_lem scripted-NetLaws sockets 101 descriptors 10 new_layout
      (record listening { clients = [] }) refl new_layout-IsRoomy refl (omega arith)
