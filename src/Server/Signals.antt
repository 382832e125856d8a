-- ===== src/Server/Signals.antt =====
-- `handleSignalFd` of Server/src/Server.cpp: all signals that wait are read and taken note of.
use telemetry_server.Base.{
  ℕ, zero, suc, ◌≤◌, ◌<◌, ◌≡◌, refl, ap, sym, ◌∙◌, arith, Bool, true, false, ◌&&◌, ◌||◌, none, some,
  List, [], ◌∷◌, ◌==◌, if◌then◌else◌,
}
use telemetry_server.Base.Action.{Action, Ensures, Ensures-mono}
use telemetry_server.Server.Net.{
  Net, NetLaws, Kernel, Signo, ChildCode, SignalInfo, SignalRead, SignalLaw, SignalBudget,
}

pub record SignalState : Type 0 where
  pub shutdown_requested : Bool
  pub reader_terminated : Bool

abbrev pub no_signals : SignalState
no_signals = record { shutdown_requested = false; reader_terminated = false }

-- The `switch` on `ssi_code`.
abbrev pub terminates : ChildCode → Bool
terminates ChildCode.exited = true
terminates ChildCode.killed = true
terminates ChildCode.dumped = true
terminates ChildCode.stopped = false
terminates ChildCode.continued = false
terminates ChildCode.other = false

abbrev pub note_signo : Signo → ℕ → SignalInfo → SignalState → SignalState
note_signo Signo.sigint reader_pid info s = record s { shutdown_requested = true }
note_signo Signo.sigterm reader_pid info s = record s { shutdown_requested = true }
note_signo Signo.sigchld reader_pid info s =
    if info.pid == reader_pid
    then (if terminates info.code then record s { reader_terminated = true } else s)
    else s
note_signo Signo.other reader_pid info s = s

pub note_signal : ℕ → SignalInfo → SignalState → SignalState
note_signal reader_pid info s = note_signo info.signo reader_pid info s

module _ (n : Net) where
  open n use {World}

  pub handle_signal_fd : ℕ → ℕ → Action (SignalState × World) Bool
  unfolding note_signal
  handle_signal_fd zero reader_pid (s, w) = none
  handle_signal_fd (suc fuel) reader_pid (s, w) =
      let (r, w') = n.signal_read w in
      elim r [
        | SignalRead.signal info ↦
            handle_signal_fd fuel reader_pid (note_signal reader_pid info s, w')
        | SignalRead.interrupted ↦ handle_signal_fd fuel reader_pid (s, w')
        | SignalRead.would_block ↦ some (true, (s, w'))
        | SignalRead.end_of_file ↦ some (false, (s, w'))
        | SignalRead.failed ↦ some (false, (s, w'))
      ]

-- Whether some signal asks for a shutdown, and whether some tells of the reader's end.
abbrev pub is_shutdown : Signo → Bool
is_shutdown Signo.sigint = true
is_shutdown Signo.sigterm = true
is_shutdown Signo.sigchld = false
is_shutdown Signo.other = false

abbrev pub is_child : Signo → Bool
is_child Signo.sigint = false
is_child Signo.sigterm = false
is_child Signo.sigchld = true
is_child Signo.other = false

abbrev pub any_shutdown : List SignalInfo → Bool
any_shutdown [] = false
any_shutdown (info ∷ rest) = is_shutdown info.signo || any_shutdown rest

-- Signals that tell of the end of a process: SIGCHLD with CLD_EXITED, CLD_KILLED or CLD_DUMPED.
abbrev pub tells_end : Signo → ChildCode → Bool
tells_end Signo.sigint code = false
tells_end Signo.sigterm code = false
tells_end Signo.sigchld ChildCode.exited = true
tells_end Signo.sigchld ChildCode.killed = true
tells_end Signo.sigchld ChildCode.dumped = true
tells_end Signo.sigchld ChildCode.stopped = false
tells_end Signo.sigchld ChildCode.continued = false
tells_end Signo.sigchld ChildCode.other = false
tells_end Signo.other code = false

abbrev pub any_end : ℕ → List SignalInfo → Bool
any_end reader_pid [] = false
any_end reader_pid (info ∷ rest) =
    (info.pid == reader_pid && tells_end info.signo info.code) || any_end reader_pid rest

or_false : (b : Bool) → b ≡ (b || false)
or_false false = refl
or_false true = refl

note_signal_lem :
    (reader_pid : ℕ) (info : SignalInfo) (s : SignalState) (rest : List SignalInfo)
    → let s' = note_signal reader_pid info s in
      ((s'.shutdown_requested || any_shutdown rest)
        ≡ (s.shutdown_requested || any_shutdown (info ∷ rest)))
      × ((s'.reader_terminated || any_end reader_pid rest)
          ≡ (s.reader_terminated || any_end reader_pid (info ∷ rest)))
unfolding note_signal
note_signal_lem reader_pid info s rest = go info.signo info.code
  where
    go :
        (signo : Signo) (code : ChildCode)
        → let s' = note_signal reader_pid (record info { signo = signo; code = code }) s in
          ((s'.shutdown_requested || any_shutdown rest)
            ≡ (s.shutdown_requested || (is_shutdown signo || any_shutdown rest)))
          × ((s'.reader_terminated || any_end reader_pid rest) ≡ (
              s.reader_terminated
              || ((info.pid == reader_pid && tells_end signo code) || any_end reader_pid rest)))
    go Signo.sigint code = ground arith
    go Signo.sigterm code = ground arith
    go Signo.sigchld ChildCode.exited = ground arith
    go Signo.sigchld ChildCode.killed = ground arith
    go Signo.sigchld ChildCode.dumped = ground arith
    go Signo.sigchld ChildCode.stopped = ground arith
    go Signo.sigchld ChildCode.continued = ground arith
    go Signo.sigchld ChildCode.other = ground arith
    go Signo.other code = ground arith

module _ {n : Net} (laws : NetLaws n) where
  open n use {World}
  open laws use {kernel, budget}

  -- After a success no signal waits, and the state tells what those that did were about.
  pub record Noted (reader_pid : ℕ) (s : SignalState) (w : World) (ok : Bool)
      (t : SignalState × World) : Type 0 where
    pub same_unread : (kernel t.1).unread ≡ (kernel w).unread
    pub same_log : (kernel t.1).log ≡ (kernel w).log
    pub same_registered : (kernel t.1).registered ≡ (kernel w).registered
    pub fewer : budget t.1 ≤ budget w
    pub none_left : ok ≡ true → (kernel t.1).signals ≡ []
    pub shutdown :
        ok ≡ true
        → t.0.shutdown_requested ≡ (s.shutdown_requested || any_shutdown (kernel w).signals)
    pub reader :
        ok ≡ true
        → t.0.reader_terminated ≡ (s.reader_terminated || any_end reader_pid (kernel w).signals)

  -- `handleSignalFd`, with fuel for the signals that wait, returns. After a success no signal
  -- waits, a shutdown is requested just if it was or some signal was SIGINT or SIGTERM, and the
  -- reader counts as terminated just if it did or some SIGCHLD told of its end; in any case
  -- descriptors and unread bytes are as they were.
  pub handle_signal_fd_lem :
      (fuel reader_pid : ℕ) (s : SignalState) (w : World)
      → budget w < fuel
      → Ensures (Noted reader_pid s w) (handle_signal_fd n fuel reader_pid (s, w))
  unfolding handle_signal_fd
  handle_signal_fd_lem zero reader_pid s w h = absurd (omega arith)
  handle_signal_fd_lem (suc fuel) reader_pid s w h =
      go (n.signal_read w).0 (n.signal_read w).1 (laws.signal_law w) (laws.signal_budget w)
        (λ s' w' x. handle_signal_fd_lem fuel reader_pid s' w' x)
    where
      Rest : Type 0
      Rest =
          (s' : SignalState) (w' : World)
          → budget w' < fuel
          → Ensures (Noted reader_pid s' w') (handle_signal_fd n fuel reader_pid (s', w'))

      stopped :
          (w' : World)
          → kernel w' ≡ kernel w
          → budget w' ≤ budget w
          → Noted reader_pid s w false (s, w')
      stopped w' e b = record {
        same_unread = ap (λ (k : Kernel). k.unread) e;
        same_log = ap (λ (k : Kernel). k.log) e;
        same_registered = ap (λ (k : Kernel). k.registered) e;
        fewer = b;
        none_left = λ x. absurd (ground (arith, x));
        shutdown = λ x. absurd (ground (arith, x));
        reader = λ x. absurd (ground (arith, x));
      }

      go :
          (r : SignalRead) (w' : World)
          → SignalLaw (kernel w) r (kernel w')
          → SignalBudget (budget w) r (budget w')
          → Rest
          → Ensures (Noted reader_pid s w) (elim r [
            | SignalRead.signal info ↦
                handle_signal_fd n fuel reader_pid (note_signal reader_pid info s, w')
            | SignalRead.interrupted ↦ handle_signal_fd n fuel reader_pid (s, w')
            | SignalRead.would_block ↦ some (true, (s, w'))
            | SignalRead.end_of_file ↦ some (false, (s, w'))
            | SignalRead.failed ↦ some (false, (s, w'))
          ])
      go SignalRead.end_of_file w' e b again = stopped w' e b
      go SignalRead.failed w' e b again = stopped w' e b
      go SignalRead.would_block w' e b again = record {
        same_unread = ap (λ (k : Kernel). k.unread) e.1;
        same_log = ap (λ (k : Kernel). k.log) e.1;
        same_registered = ap (λ (k : Kernel). k.registered) e.1;
        fewer = b;
        none_left = λ x. ap (λ (k : Kernel). k.signals) e.1 ∙ e.0;
        shutdown = λ x.
            or_false s.shutdown_requested
            ∙ ap (λ (l : List SignalInfo). s.shutdown_requested || any_shutdown l) (sym e.0);
        reader = λ x.
            or_false s.reader_terminated
            ∙ ap (λ (l : List SignalInfo). s.reader_terminated || any_end reader_pid l) (sym e.0);
      }
      go SignalRead.interrupted w' e b again =
          Ensures-mono (Noted reader_pid s w') (Noted reader_pid s w) _
            (λ ok t r. record {
              same_unread = r.same_unread ∙ ap (λ (k : Kernel). k.unread) e;
              same_log = r.same_log ∙ ap (λ (k : Kernel). k.log) e;
              same_registered = r.same_registered ∙ ap (λ (k : Kernel). k.registered) e;
              fewer = omega (arith, r.fewer, b);
              none_left = r.none_left;
              shutdown = λ x.
                  r.shutdown x
                  ∙ ap (λ (k : Kernel). s.shutdown_requested || any_shutdown k.signals) e;
              reader = λ x.
                  r.reader x
                  ∙ ap (λ (k : Kernel). s.reader_terminated || any_end reader_pid k.signals) e;
            })
            (again s w' (omega (arith, b, h)))
      go (SignalRead.signal info) w' (rest, splits, e) b again =
          let s' = note_signal reader_pid info s in
          let noted = note_signal_lem reader_pid info s rest in
          Ensures-mono (Noted reader_pid s' w') (Noted reader_pid s w) _
            (λ ok t r. record {
              same_unread = r.same_unread ∙ ap (λ (k : Kernel). k.unread) e;
              same_log = r.same_log ∙ ap (λ (k : Kernel). k.log) e;
              same_registered = r.same_registered ∙ ap (λ (k : Kernel). k.registered) e;
              fewer = omega (arith, r.fewer, b);
              none_left = r.none_left;
              shutdown = λ x.
                  r.shutdown x
                  ∙ ap (λ (k : Kernel). s'.shutdown_requested || any_shutdown k.signals) e
                  ∙ noted.0
                  ∙ ap (λ (l : List SignalInfo). s.shutdown_requested || any_shutdown l)
                      (sym splits);
              reader = λ x.
                  r.reader x
                  ∙ ap (λ (k : Kernel). s'.reader_terminated || any_end reader_pid k.signals) e
                  ∙ noted.1
                  ∙ ap (λ (l : List SignalInfo). s.reader_terminated || any_end reader_pid l)
                      (sym splits);
            })
            (again s' w' (omega (arith, b, h)))
