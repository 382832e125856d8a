-- ===== src/Server/Script.antt =====
-- A network that follows a script, on which the theorems about the server are run.
use telemetry_server.Base.{
  ℕ, ◌-◌, min, ◌≤◌, ◌≡◌, refl, ap, sym, ◌∙◌, arith, Bool, true, false, List, [], ◌∷◌, ◌++◌, length,
  take, drop, take-append-drop, length-take, ◌==◌, if◌then◌else◌,
}
use telemetry_server.Protocol.Words.{Bytes}
use telemetry_server.Ipc.EventFd.{Called}
use telemetry_server.Server.Net.{
  Net, NetLaws, Kernel, Received, RecvLaw, RecvBudget, Accepted, AcceptLaw, AcceptBudget,
  SignalRead, SignalLaw, SignalBudget, SignalInfo, Event, Waited, with_unread, with_registered,
  Input, noted,
}

-- `left` bounds what is still to come, `arrivals` are the connections that wait, and `waits` are the
-- events of the calls of `epoll_wait`.
pub record Script : Type 0 where
  pub kernel : Kernel
  pub left : ℕ
  pub arrivals : List (ℕ × Bytes)
  pub waits : List (List Event)

abbrev pub hand_over : ℕ → ℕ → Bytes → Script → Received × Script
hand_over fd size [] w = (Received.would_block, w)
hand_over fd size (x ∷ bytes) w = (
  Received.received (x ∷ bytes),
  record w {
    kernel =
        with_unread (noted w.kernel (Input.heard fd (x ∷ bytes))) fd
          (drop size (w.kernel.unread fd));
    left = w.left - length (x ∷ bytes);
  },
)

abbrev pub accept_next : List (ℕ × Bytes) → Script → Accepted × Script
accept_next [] w = (Accepted.would_block, w)
accept_next ((fd, bytes) ∷ rest) w =
    if w.kernel.registered fd
    then (Accepted.failed, w)
    else if w.left == 0
    then (Accepted.failed, w)
    else (
      Accepted.accepted fd,
      record w {
        kernel = with_unread (noted w.kernel (Input.connected fd)) fd bytes;
        left = w.left - 1;
        arrivals = rest;
      },
    )

abbrev pub next_signal : List SignalInfo → Script → SignalRead × Script
next_signal [] w = (SignalRead.would_block, w)
next_signal (info ∷ rest) w = if w.left == 0 then (SignalRead.failed, w) else (
  SignalRead.signal info,
  record w { kernel = record (w.kernel) { signals = rest }; left = w.left - 1 },
)

-- The reader takes a frame during each wait.
abbrev pub next_wait : List (List Event) → Script → Waited × ℕ × Script
next_wait [] w = (Waited.ready [], 1, w)
next_wait (events ∷ rest) w = (Waited.ready events, 1, record w { waits = rest })

abbrev pub register : ℕ → Bool → Script → Script
register fd b w = record w { kernel = with_registered w.kernel fd b }

abbrev pub scripted : Net
scripted = record {
  World = Script;
  recv =
      λ fd size w. hand_over fd (min size w.left) (take (min size w.left) (w.kernel.unread fd)) w;
  accept4 = λ fd w. accept_next w.arrivals w;
  epoll_add = λ fd w. (true, register fd true w);
  epoll_modify = λ fd b w. (true, w);
  epoll_delete = λ fd w. (true, register fd false w);
  close = λ fd w. register fd false w;
  data_ready_write = λ w. (Called.done, w);
  space_ready_read = λ w. (Called.done, w);
  signal_read = λ w. next_signal w.kernel.signals w;
  epoll_wait = λ w. next_wait w.waits w;
}

-- A network where each wait ends the same way, and the reader takes a frame during each.
abbrev pub idle : Waited → Net
idle r = record scripted { epoll_wait = λ w. (r, 1, w) }

abbrev pub quiet : Net
quiet = idle (Waited.ready [])

pub hand_over_lem :
    (fd size : ℕ) (w : Script) (bytes : Bytes)
    → bytes ≡ take (min size w.left) (w.kernel.unread fd)
    → let (r, w') = hand_over fd (min size w.left) bytes w in
      RecvLaw fd size w.kernel r w'.kernel × RecvBudget w.left r w'.left
hand_over_lem fd size w [] e = (refl, omega arith)
hand_over_lem fd size w (x ∷ bytes) e =
    let m = min size w.left in
    let all = w.kernel.unread fd in
    let h = ap length e ∙ length-take m all in
    (
      (
        drop m all,
        omega arith,
        omega (arith, h),
        sym (take-append-drop m all) ∙ ap (λ y. y ++ drop m all) (sym e),
        refl,
      ),
      omega (arith, h),
    )

pub accept_next_lem :
    (w : Script) (arrivals : List (ℕ × Bytes))
    → let (r, w') = accept_next arrivals w in
      AcceptLaw w.kernel r w'.kernel × AcceptBudget w.left r w'.left
accept_next_lem w [] = (refl, omega arith)
accept_next_lem w ((fd, bytes) ∷ rest) = go (w.kernel.registered fd) refl (w.left == 0) refl
  where
    go :
        (b : Bool)
        → w.kernel.registered fd ≡ b
        → (done : Bool) → (w.left == 0) ≡ done
        → let (r, w') =
            if◌then◌else◌ {A = Accepted × Script} b
              (Accepted.failed, w)
              (if◌then◌else◌ {A = Accepted × Script} done
                (Accepted.failed, w)
                (
                  Accepted.accepted fd,
                  record w {
                    kernel = with_unread (noted w.kernel (Input.connected fd)) fd bytes;
                    left = w.left - 1;
                    arrivals = rest;
                  },
                )) in
          AcceptLaw w.kernel r w'.kernel × AcceptBudget w.left r w'.left
    go true e done h = (refl, omega arith)
    go false e true h = (refl, omega arith)
    go false e false h = ((e, bytes, refl), ground (arith, h))

pub next_signal_lem :
    (w : Script) (signals : List SignalInfo)
    → w.kernel.signals ≡ signals
    → let (r, w') = next_signal signals w in
      SignalLaw w.kernel r w'.kernel × SignalBudget w.left r w'.left
next_signal_lem w [] e = ((e, refl), omega arith)
next_signal_lem w (info ∷ rest) e = go (w.left == 0) refl
  where
    go :
        (done : Bool)
        → (w.left == 0) ≡ done
        → let (r, w') =
            if◌then◌else◌ {A = SignalRead × Script} done
              (SignalRead.failed, w)
              (
                SignalRead.signal info,
                record w { kernel = record (w.kernel) { signals = rest }; left = w.left - 1 },
              ) in
          SignalLaw w.kernel r w'.kernel × SignalBudget w.left r w'.left
    go true h = (refl, omega arith)
    go false h = ((rest, e, refl), ground (arith, h))

pub next_wait_lem :
    (w : Script) (waits : List (List Event))
    → (((next_wait waits w).2).kernel ≡ w.kernel) × (((next_wait waits w).2).left ≤ w.left)
next_wait_lem w [] = (refl, omega arith)
next_wait_lem w (events ∷ rest) = (refl, omega arith)

unfoldable pub scripted-NetLaws : NetLaws scripted
scripted-NetLaws = record {
  kernel = λ w. w.kernel;
  budget = λ w. w.left;
  recv_law = λ fd size w. (hand_over_lem fd size w _ refl).0;
  accept_law = λ fd w. (accept_next_lem w w.arrivals).0;
  add_law = λ fd w. refl;
  delete_law = λ fd w. refl;
  modify_law = λ fd b w. refl;
  close_law = λ fd w. refl;
  data_ready_law = λ w. refl;
  space_ready_law = λ w. refl;
  signal_law = λ w. (next_signal_lem w w.kernel.signals refl).0;
  wait_law = λ w. (w.kernel.signals, (next_wait_lem w w.waits).0);
  recv_budget = λ fd size w. (hand_over_lem fd size w _ refl).1;
  accept_budget = λ fd w. (accept_next_lem w w.arrivals).1;
  add_budget = λ fd w. omega arith;
  delete_budget = λ fd w. omega arith;
  modify_budget = λ fd b w. omega arith;
  close_budget = λ fd w. omega arith;
  data_ready_budget = λ w. omega arith;
  space_ready_budget = λ w. omega arith;
  signal_budget = λ w. (next_signal_lem w w.kernel.signals refl).1;
  wait_budget = λ w. (next_wait_lem w w.waits).1;
}

unfoldable pub idle-NetLaws : (r : Waited) → NetLaws (idle r)
unfolding scripted-NetLaws
idle-NetLaws r =
    let l = scripted-NetLaws in
    record {
      kernel = λ w. w.kernel;
      budget = λ w. w.left;
      recv_law = l.recv_law;
      accept_law = l.accept_law;
      add_law = l.add_law;
      delete_law = l.delete_law;
      modify_law = l.modify_law;
      close_law = l.close_law;
      data_ready_law = l.data_ready_law;
      space_ready_law = l.space_ready_law;
      signal_law = l.signal_law;
      wait_law = λ w. (w.kernel.signals, refl);
      recv_budget = l.recv_budget;
      accept_budget = l.accept_budget;
      add_budget = l.add_budget;
      delete_budget = l.delete_budget;
      modify_budget = l.modify_budget;
      close_budget = l.close_budget;
      data_ready_budget = l.data_ready_budget;
      space_ready_budget = l.space_ready_budget;
      signal_budget = l.signal_budget;
      wait_budget = λ w. omega arith;
    }

unfoldable pub quiet-NetLaws : NetLaws quiet
unfolding idle-NetLaws
quiet-NetLaws = idle-NetLaws (Waited.ready [])
