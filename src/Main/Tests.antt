-- ===== src/Main/Tests.antt =====
-- src/main.cpp where a reader is started, and a server whose waits fail.
use telemetry_server.Base.{
  All, ◌||◌, ℕ, ◌+◌, ◌≤◌, ◌≡◌, refl, ap, arith, Bool, true, false, Option, none, some, [], ◌∷◌,
  Bool-cases, inl, inr, ◌==◌, ==_of_eq, if◌then◌else◌,
}
use telemetry_server.Base.Action.{Ensures}
use telemetry_server.Ipc.EventFd.{Called}
use telemetry_server.Ipc.Ring
use telemetry_server.Ipc.Ring.{new_layout}
use telemetry_server.Storage.Tests.{Memory, memory_disk, memory_laws, torn}
use telemetry_server.Reader.Tests.{waking_peer, waking_laws}
use telemetry_server.Server.Net.{Signo, Net, Waited, set_at}
use telemetry_server.Server.Script.{Script, idle, idle-NetLaws}
use telemetry_server.Server.Events.{Descriptors, serve, loop, is_done}
use telemetry_server.Server.Startup
use telemetry_server.Server.Startup.{
  Sockets, serve_from, set_up, configure, create_epoll, watch_all,
}
use telemetry_server.Server.Startup.Laws.{OpensLaw}
use telemetry_server.Main.{
  SignalSet, Status, WaitResult, Forked, System, Machine, Prepared, new_server, prepare, finish,
  oversee,
}
use telemetry_server.Main.Finish.{Finished, Closes-close, finish_lem}
use telemetry_server.Main.Oversee.{Oversees, oversee_lem}
use telemetry_server.Main.Calls.{SystemLaws}
use telemetry_server.Main.Prepare.{Prepares, prepare_lem}
use telemetry_server.Main.Branches.{Serving}

record Table : Type 0 where
  opened : ℕ → Bool
  blocked : Signo → Bool
  counter : ℕ → ℕ
  killed : ℕ → Bool
  reaped : ℕ → Option Status

abbrev number : Signo → ℕ
number Signo.sigint = 2
number Signo.sigterm = 15
number Signo.sigchld = 17
number Signo.other = 0

abbrev has : SignalSet → Signo → Bool
has [] s = false
has (x ∷ xs) s = (number x == number s) || has xs s

mask_blocked :
    (before : Signo → Bool) (mask xs : SignalSet)
    → ((s : Signo) → has xs s ≡ true → has mask s ≡ true)
    → All (λ s. (before s || has mask s) ≡ true) xs
mask_blocked before mask [] h = tt
mask_blocked before mask (x ∷ xs) h =
    let e : (number x == number x) ≡ true = ==_of_eq refl in
    let m : has mask x ≡ true = h x (rw e refl) in
    (ground (arith, m), mask_blocked before mask xs (λ s k. h s (ground (arith, k))))

abbrev open_at : ℕ → Table → Option ℕ × Table
open_at fd w =
    if w.opened fd then (none, w) else (some fd, record w { opened = set_at w.opened fd true })

-- Process 7 exits with code 0.
abbrev table : System Table
table = record {
  sigemptyset = some [];
  sigaddset = λ s mask. some (s ∷ mask);
  sigprocmask = λ mask w. (true, record w { blocked = λ s. w.blocked s || has mask s });
  setvbuf = λ w. (true, w);
  mmap = λ w. (true, w);
  eventfd = λ w. if w.opened 20 then open_at 21 w else open_at 20 w;
  fork = λ w. (Forked.parent 7, record w { reaped = set_at w.reaped 7 none });
  signalfd = λ mask w. open_at 22 w;
  eventfd_write =
      λ fd w. (Called.done, record w { counter = set_at w.counter fd (w.counter fd + 1) });
  kill = λ pid w. record w { killed = set_at w.killed pid true };
  close = λ fd w. record w { opened = set_at w.opened fd false };
  waitpid = λ pid w. (
    WaitResult.status (Status.exited 0),
    record w { reaped = set_at w.reaped pid (some (Status.exited 0)) },
  );
}

open_at-law :
    (fd : ℕ) (w : Table)
    → let (r, v) = open_at fd w in
      OpensLaw w.opened r v.opened × (v.blocked ≡ w.blocked) × (v.reaped ≡ w.reaped)
open_at-law fd w = elim (Bool-cases (w.opened fd)) [
  | inl e ↦ rw e (refl, refl, refl)
  | inr e ↦ rw e ((e, refl), refl, refl)
]

eventfd-law :
    (w : Table)
    → let (r, v) = table.eventfd w in
      OpensLaw w.opened r v.opened × (v.blocked ≡ w.blocked) × (0 ≤ 0)
eventfd-law w = elim (Bool-cases (w.opened 20)) [
  | inl e ↦ rw e ((open_at-law 21 w).0, (open_at-law 21 w).1, omega arith)
  | inr e ↦ rw e ((e, refl), refl, omega arith)
]

set_at_self : {A : Type 0} (f : ℕ → A) (k : ℕ) (a : A) → set_at f k a k ≡ a
set_at_self f k a = let e : (k == k) ≡ true = ==_of_eq refl in rw e refl

abbrev table_laws : SystemLaws table
table_laws = record {
  opened = λ w. w.opened;
  blocked = λ w. w.blocked;
  counter = λ w. w.counter;
  killed = λ w. w.killed;
  reaped = λ w. w.reaped;
  signals = λ w. 0;
  empty_law = refl;
  add_law = λ s mask. refl;
  mask_law = λ mask w. (refl, (λ e. mask_blocked w.blocked mask mask (λ s h. h)), omega arith);
  buffer_law = λ w. (refl, refl, omega arith);
  mmap_law = λ w. (refl, refl, omega arith);
  eventfd_law = eventfd-law;
  fork_law = λ w. (refl, omega arith, refl);
  signalfd_law = λ mask w. ((open_at-law 22 w).0, omega arith, (open_at-law 22 w).2);
  write_law = λ fd w. (set_at_self w.counter fd (w.counter fd + 1), refl, refl);
  write_signals = λ fd w. omega arith;
  kill_law = λ pid w. (set_at_self w.killed pid true, refl, refl, refl, omega arith);
  close_law = λ fd w. (refl, refl, refl, refl, omega arith);
  wait_law = λ pid w. (set_at_self w.reaped pid (some (Status.exited 0)), refl, refl, refl, tt);
}

abbrev start : Table
start = record {
  opened = λ fd. false;
  blocked = λ s. false;
  counter = λ fd. 0;
  killed = λ pid. false;
  reaped = λ pid. none;
}

prepare_lem_example : let (r, v) = prepare table start in Prepares table_laws start.opened 0 r v
prepare_lem_example = prepare_lem table_laws start

abbrev sockets : Sockets Script
sockets = record {
  socket = λ w. (some 4, w);
  set_reuse = λ fd w. (true, w);
  bind = λ fd w. (true, w);
  listen = λ fd w. (true, w);
  epoll_create = λ w. (some 5, w);
  watch = λ epoll_fd fd w. (true, w);
  close = λ fd w. w;
}

abbrev script : Script
script = record {
  kernel = record { unread = λ fd. []; registered = λ fd. false; signals = []; log = [] };
  left = 9;
  arrivals = [];
  waits = [];
}

-- Each wait of the server fails.
abbrev net : Net
net = idle Waited.failed

abbrev machine : Machine Script Table Memory ℕ
machine = record { server = script; system = start; disk = torn; peer = 2 }

abbrev returned : {A : Type 0} → Option A → Bool
returned none = false
returned (some x) = true

net-returned :
    (c : Descriptors)
    → returned (Startup.run net sockets 200000 c 9 (new_server (some new_layout) script)) ≡ true
unfolding Startup.run serve_from set_up configure create_epoll watch_all serve loop is_done
    Ring.empty Ring.pending_frames
net-returned c = refl

net-Serving :
    Serving (idle-NetLaws Waited.failed) sockets table_laws memory_laws waking_laws 200000 9 machine
unfolding idle-NetLaws set_up configure create_epoll watch_all
net-Serving = record {
  enough = λ c. omega arith;
  returns = λ c e. (let x = ap returned e in let y = net-returned c in ground (arith, x, y));
}

abbrev prepared : Prepared
prepared = record {
  mask = Signo.sigchld ∷ Signo.sigterm ∷ Signo.sigint ∷ [];
  ring = some new_layout;
  data_ready_fd = 20;
  space_ready_fd = 21;
}

oversee_lem_example :
    Ensures
      (Oversees
        (idle-NetLaws Waited.failed)
        sockets
        table_laws
        memory_disk
        waking_peer
        200000
        9
        new_layout
        7
        prepared
        22
        machine)
      (oversee net sockets table memory_disk waking_peer 200000 9 7 prepared 22 machine)
unfolding idle-NetLaws set_up configure create_epoll watch_all
oversee_lem_example =
    oversee_lem (idle-NetLaws Waited.failed) sockets table_laws memory_disk waking_peer 200000 9
      new_layout 7 prepared 22 machine refl (omega arith, refl, omega arith) (omega arith)
      (omega arith) refl
      (net-Serving.returns (record { space_ready_fd = 21; signal_fd = 22; reader_pid = 7 }))

finish_lem_example :
    Ensures
      (Finished table_laws 7 prepared (λ o. set_at o 22 false) true [] (some new_layout) start)
      (finish table 9 7 prepared (table.close 22) true [] (some new_layout) start)
finish_lem_example =
    finish_lem table_laws 9 7 prepared (table.close 22) (λ o. set_at o 22 false) true []
      (some new_layout) start (Closes-close table_laws 22) (omega arith) refl
