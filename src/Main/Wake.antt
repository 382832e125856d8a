-- ===== src/Main/Wake.antt =====
-- How src/main.cpp wakes the reader, or kills it, and waits for it.
use telemetry_server.Base.{
  ℕ, zero, suc, ◌+◌, ◌≤◌, ◌<◌, ◌≡◌, ◌↔◌, inl, inr, refl, ap, ◌∙◌, arith, Bool, true, false, Option,
  none, some, ◌==◌, ==_iff, Bool-cases,
}
use telemetry_server.Base.Action.{Ensures, Ensures-bind, Ensures-mono}
use telemetry_server.Ipc.EventFd.{Called, Patience, After, WriteLaw, retry_lem, notify_event}
use telemetry_server.Main.{Status, WaitResult, System, exit_code, wait_reader, tell_reader}
use telemetry_server.Main.Calls.{SystemLaws, ReapLaw, ReapPatience}

pub exit_code_iff :
    (ok : Bool) (s : Option Status)
    → (exit_code ok s ≡ true) ↔ ((ok ≡ true) × (s ≡ some (Status.exited 0)))
unfolding exit_code
exit_code_iff ok none =
    (λ e. absurd (ground (arith, e)), λ q. absurd (let z = q.1 in ground (arith, z)))
exit_code_iff ok (some (Status.signaled n)) =
    (λ e. absurd (ground (arith, e)), λ q. absurd (let z = q.1 in ground (arith, z)))
exit_code_iff ok (some Status.other) =
    (λ e. absurd (ground (arith, e)), λ q. absurd (let z = q.1 in ground (arith, z)))
exit_code_iff ok (some (Status.exited code)) = elim (Bool-cases (code == 0)) [
  | inl z ↦ rw z (λ e. (e, ap (λ c. some (Status.exited c)) ((==_iff code 0).0 z)), λ q. q.0)
  | inr z ↦
      rw z
        (λ e. absurd (ground (arith, e)), λ q. absurd (let e = code_is q.1 in ground (arith, z, e)))
]
  where
    code_of : Option Status → ℕ
    code_of none = 0
    code_of (some (Status.exited c)) = c
    code_of (some (Status.signaled c)) = c
    code_of (some Status.other) = 0

    code_is : some (Status.exited code) ≡ some (Status.exited 0) → code ≡ 0
    code_is e = ap code_of e

module _ {W : Type 0} {sys : System W} (laws : SystemLaws sys) where
  open laws use {opened, counter, killed, reaped, signals}

  -- The counter after a notification, or after one that failed.
  abbrev pub Counts : ℕ → Bool → ℕ → Type 0
  Counts c true c' = c' ≡ c + 1
  Counts c false c' = c' ≡ c

  pub record Woken (fd : ℕ) (w : W) (ok : Bool) (v : W) : Type 0 where
    pub same_open : opened v ≡ opened w
    pub same_reaped : reaped v ≡ reaped w
    pub fewer : signals v ≤ signals w
    pub counts : Counts (counter w fd) ok (counter v fd)

  notify_lem :
      (fuel fd : ℕ) (w : W)
      → signals w < fuel
      → Ensures (Woken fd w) (notify_event (sys.eventfd_write fd) fuel w)
  unfolding notify_event
  notify_lem fuel fd w h =
      retry_lem (sys.eventfd_write fd) signals (laws.write_signals fd) (Woken fd w false)
        (Woken fd w)
        (λ v p.
          called v p (sys.eventfd_write fd v).0 (sys.eventfd_write fd v).1 (laws.write_law fd v)
            (laws.write_signals fd v))
        fuel w (record { same_open = refl; same_reaped = refl; fewer = omega arith; counts = refl })
        h
    where
      called :
          (v : W)
          → Woken fd w false v
          → (r : Called) (u : W)
          → WriteLaw (counter v fd) r (counter u fd) × (opened u ≡ opened v) × (reaped u ≡ reaped v)
          → Patience (signals v) r (signals u)
          → After (Woken fd w false) (Woken fd w) r u
      called v p Called.done u l k = record {
        same_open = l.1 ∙ p.same_open;
        same_reaped = l.2 ∙ p.same_reaped;
        fewer = (let f = p.fewer in omega (arith, f, k));
        counts = l.0 ∙ ap (λ c. c + 1) p.counts;
      }
      called v p Called.interrupted u l k = record {
        same_open = l.1 ∙ p.same_open;
        same_reaped = l.2 ∙ p.same_reaped;
        fewer = (let f = p.fewer in omega (arith, f, k));
        counts = l.0 ∙ p.counts;
      }
      called v p Called.failed u l k = record {
        same_open = l.1 ∙ p.same_open;
        same_reaped = l.2 ∙ p.same_reaped;
        fewer = (let f = p.fewer in omega (arith, f, k));
        counts = l.0 ∙ p.counts;
      }

  -- The reader that could not be woken is killed.
  abbrev pub KilledUnless : ℕ → Bool → W → Type 0
  KilledUnless pid true v = Unit
  KilledUnless pid false v = killed v pid ≡ true

  abbrev pub Tells : ℕ → ℕ → W → Bool → W → Type 0
  Tells pid fd w ok v = Woken fd w ok v × KilledUnless pid ok v

  pub tell_reader_lem :
      (fuel pid fd : ℕ) (w : W)
      → signals w < fuel
      → Ensures (Tells pid fd w) (tell_reader sys fuel pid fd w)
  unfolding tell_reader
  tell_reader_lem fuel pid fd w h =
      Ensures-bind (Woken fd w) (Tells pid fd w) (notify_event (sys.eventfd_write fd) fuel) _ w
        (notify_lem fuel fd w h) (elim [ true ↦ λ v q. (q, tt) | false ↦ λ v q. kill v q ])
    where
      kill : (v : W) → Woken fd w false v → Tells pid fd w false (sys.kill pid v)
      kill v q =
          let l = laws.kill_law pid v in
          let f = q.fewer in
          (
            record {
              same_open = l.1 ∙ q.same_open;
              same_reaped = l.3 ∙ q.same_reaped;
              fewer = omega (arith, l, f);
              counts = ap (λ (c : ℕ → ℕ). c fd) l.2 ∙ q.counts;
            },
            l.0,
          )

  -- What `waitpid` has said of the reader is how it ended.
  pub record Waited (pid : ℕ) (w : W) (s : Option Status) (v : W) : Type 0 where
    pub same_open : opened v ≡ opened w
    pub same_killed : killed v ≡ killed w
    pub same_counter : counter v ≡ counter w
    pub reaped_is : reaped v pid ≡ s

  pub wait_reader_lem :
      (fuel pid : ℕ) (w : W)
      → signals w < fuel
      → reaped w pid ≡ none
      → Ensures (Waited pid w) (wait_reader sys fuel pid w)
  unfolding wait_reader
  wait_reader_lem zero pid w h n = absurd (omega arith)
  wait_reader_lem (suc fuel) pid w h n =
      go (sys.waitpid pid w).0 (sys.waitpid pid w).1 (laws.wait_law pid w)
        (λ v k m. wait_reader_lem fuel pid v k m)
    where
      go :
          (r : WaitResult) (v : W)
          → ReapLaw (reaped w pid) r (reaped v pid)
            × (opened v ≡ opened w)
            × (killed v ≡ killed w)
            × (counter v ≡ counter w)
            × ReapPatience (signals w) r (signals v)
          → ((u : W)
              → signals u < fuel
              → reaped u pid ≡ none
              → Ensures (Waited pid u) (wait_reader sys fuel pid u))
          → Ensures (Waited pid w) (elim r [
            | WaitResult.status s ↦ some (some s, v)
            | WaitResult.interrupted ↦ wait_reader sys fuel pid v
            | WaitResult.failed ↦ some (none, v)
          ])
      go (WaitResult.status s) v l again = record {
        same_open = l.1;
        same_killed = l.2;
        same_counter = l.3;
        reaped_is = l.0;
      }
      go WaitResult.failed v l again = record {
        same_open = l.1;
        same_killed = l.2;
        same_counter = l.3;
        reaped_is = l.0 ∙ n;
      }
      go WaitResult.interrupted v l again =
          Ensures-mono (Waited pid v) (Waited pid w) (wait_reader sys fuel pid v)
            (λ s u q. record {
              same_open = q.same_open ∙ l.1;
              same_killed = q.same_killed ∙ l.2;
              same_counter = q.same_counter ∙ l.3;
              reaped_is = q.reaped_is;
            })
            (again v (omega (arith, h, l)) (l.0 ∙ n))
