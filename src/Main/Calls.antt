-- ===== src/Main/Calls.antt =====
-- What Linux documents of the calls of src/main.cpp.
use telemetry_server.Base.{All, ℕ, suc, Bool, true, false, Option, none, some, [], ◌∷◌, ◌≡◌, ◌≤◌}
use telemetry_server.Ipc.EventFd.{Patience, WriteLaw}
use telemetry_server.Server.Net.{Signo, set_at}
use telemetry_server.Server.Startup.Laws.{OpensLaw}
use telemetry_server.Main.{SignalSet, Forked, Status, WaitResult, System}

abbrev pub AddLaw : Signo → SignalSet → Option SignalSet → Type 0
AddLaw s mask none = Unit
AddLaw s mask (some mask') = mask' ≡ s ∷ mask

abbrev pub EmptyLaw : Option SignalSet → Type 0
EmptyLaw none = Unit
EmptyLaw (some mask) = mask ≡ []

abbrev pub ReapLaw : Option Status → WaitResult → Option Status → Type 0
ReapLaw r (WaitResult.status s) r' = r' ≡ some s
ReapLaw r WaitResult.interrupted r' = r' ≡ r
ReapLaw r WaitResult.failed r' = r' ≡ r

abbrev pub ReapPatience : ℕ → WaitResult → ℕ → Type 0
ReapPatience p (WaitResult.status s) p' = Unit
ReapPatience p WaitResult.interrupted p' = suc p' ≤ p
ReapPatience p WaitResult.failed p' = Unit

abbrev pub ForkLaw : Forked → (ℕ → Option Status) → Type 0
ForkLaw Forked.failed reaped = Unit
ForkLaw Forked.child reaped = Unit
ForkLaw (Forked.parent pid) reaped = reaped pid ≡ none

pub record SystemLaws {W : Type 0} (sys : System W) : Type 0 where
  -- the open descriptors, the blocked signals, how often each eventfd was written, the processes that
  -- `SIGKILL` was asked for, and the ends of the processes that were waited for
  pub opened : W → ℕ → Bool
  pub blocked : W → Signo → Bool
  pub counter : W → ℕ → ℕ
  pub killed : W → ℕ → Bool
  pub reaped : W → ℕ → Option Status
  -- how many of the blocking calls are still interrupted, at most
  pub signals : W → ℕ
  pub empty_law : EmptyLaw sys.sigemptyset
  pub add_law : (s : Signo) (mask : SignalSet) → AddLaw s mask (sys.sigaddset s mask)
  pub mask_law :
      (mask : SignalSet) (w : W)
      → let (ok, v) = sys.sigprocmask mask w in
        (opened v ≡ opened w)
        × (ok ≡ true → All (λ s. blocked v s ≡ true) mask)
        × (signals v ≤ signals w)
  pub buffer_law :
      (w : W)
      → let v = (sys.setvbuf w).1 in
        (opened v ≡ opened w) × (blocked v ≡ blocked w) × (signals v ≤ signals w)
  pub mmap_law :
      (w : W)
      → let v = (sys.mmap w).1 in
        (opened v ≡ opened w) × (blocked v ≡ blocked w) × (signals v ≤ signals w)
  pub eventfd_law :
      (w : W)
      → let (r, v) = sys.eventfd w in
        OpensLaw (opened w) r (opened v) × (blocked v ≡ blocked w) × (signals v ≤ signals w)
  -- a new process has not been waited for
  pub fork_law :
      (w : W)
      → let (r, v) = sys.fork w in
        (opened v ≡ opened w) × (signals v ≤ signals w) × ForkLaw r (reaped v)
  pub signalfd_law :
      (mask : SignalSet) (w : W)
      → let (r, v) = sys.signalfd mask w in
        OpensLaw (opened w) r (opened v) × (signals v ≤ signals w) × (reaped v ≡ reaped w)
  pub write_law :
      (fd : ℕ) (w : W)
      → let (r, v) = sys.eventfd_write fd w in
        WriteLaw (counter w fd) r (counter v fd) × (opened v ≡ opened w) × (reaped v ≡ reaped w)
  pub write_signals :
      (fd : ℕ) (w : W) → let (r, v) = sys.eventfd_write fd w in Patience (signals w) r (signals v)
  pub kill_law :
      (pid : ℕ) (w : W)
      → let v = sys.kill pid w in
        (killed v pid ≡ true)
        × (opened v ≡ opened w)
        × (counter v ≡ counter w)
        × (reaped v ≡ reaped w)
        × (signals v ≤ signals w)
  pub close_law :
      (fd : ℕ) (w : W)
      → let v = sys.close fd w in
        (opened v ≡ set_at (opened w) fd false)
        × (killed v ≡ killed w)
        × (counter v ≡ counter w)
        × (reaped v ≡ reaped w)
        × (signals v ≤ signals w)
  pub wait_law :
      (pid : ℕ) (w : W)
      → let (r, v) = sys.waitpid pid w in
        ReapLaw (reaped w pid) r (reaped v pid)
        × (opened v ≡ opened w)
        × (killed v ≡ killed w)
        × (counter v ≡ counter w)
        × ReapPatience (signals w) r (signals v)
