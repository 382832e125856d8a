-- ===== src/Main/Oversee.antt =====
-- The parent of src/main.cpp with the server that it runs.
use telemetry_server.Base.{
  ℕ, ◌+◌, ◌<◌, ◌≡◌, ◌≢◌, ◌⊎◌, refl, ap, ◌∙◌, Bool, true, false, Option, none, some, List, [], ◌++◌,
  All,
}
use telemetry_server.Base.Action.{Ensures}
use telemetry_server.Protocol.Words.{Bytes}
use telemetry_server.Ipc.Ring.{Layout, close_producer}
use telemetry_server.Ipc.Ring.Refine.{contents}
use telemetry_server.Storage.Disk.{Disk}
use telemetry_server.Reader.Run.{Peer}
use telemetry_server.Server.Net.{Net, NetLaws, Input, set_at}
use telemetry_server.Server.Connections.{Server}
use telemetry_server.Server.Receive.Frames.{IsAccepted}
use telemetry_server.Server.Receive.Laws.{IsRoomy}
use telemetry_server.Server.Events.{Descriptors}
use telemetry_server.Server.Events.Loop.{Returned}
use telemetry_server.Server.History.{Fed}
use telemetry_server.Server.Startup
use telemetry_server.Server.Startup.{Sockets, set_up}
use telemetry_server.Server.Startup.Run.{Ends, run_lem}
use telemetry_server.Main.{
  Status, System, Machine, Prepared, Exit, new_server, finish, on_system, descriptors_of, overseen,
  oversee,
}
use telemetry_server.Main.Calls.{SystemLaws}
use telemetry_server.Main.Finish.{Closes-close, Finished, finish_lem}

module _ {n : Net} (net_laws : NetLaws n) (k : Sockets (n.World)) where
  open net_laws use {kernel}

  -- What the ring and the reader have in the end: the frames of the ring `l` and those that the clients
  -- brought between the worlds `w` and `before`. After a success the reader has taken them all.
  pub record Served (w : n.World) (l : Layout) (e : Exit) (v : n.World) : Type 0 where
    pub layout : Layout
    pub more : List Bytes
    pub inputs : List Input
    pub later : ℕ → Bytes
    pub before : n.World
    pub ring_is : e.ring ≡ some layout
    pub closed : layout.producer_closed ≡ 1
    pub accepted : All IsAccepted more
    pub conserved : e.taken ++ contents layout ≡ contents l ++ more
    pub log_is : (kernel before).log ≡ (kernel w).log ++ inputs
    pub fed : Fed (λ fd. []) inputs more later
    pub closes : (v ≡ before) ⊎ ((fd : ℕ) × (v ≡ k.close fd before))
    pub all_taken : e.success ≡ true → contents layout ≡ []

module _ {S : Type 0} {n : Net} (net_laws : NetLaws n) (k : Sockets (n.World)) {sys : System S}
    (laws : SystemLaws sys) (d : Disk) (p : Peer) (fuel rounds : ℕ) where
  open net_laws use {budget}
  open laws use {opened, counter, reaped, signals}

  abbrev pub M : Type 0
  M = Machine (n.World) S (d.World) (p.World)

  -- How the parent ends.
  abbrev pub Oversees : Layout → ℕ → Prepared → ℕ → M → Exit → M → Type 0
  Oversees l pid q signal_fd m e m' =
      Served net_laws k
        (set_up k (descriptors_of n k sys d p fuel rounds pid q signal_fd) m.server).1 l e m'.server
      × ((i : ℕ)
          → opened m'.system i
            ≡ set_at (set_at (set_at (opened m.system) signal_fd false) q.data_ready_fd false)
                q.space_ready_fd false i)
      × (e.success ≡ true → reaped m'.system pid ≡ some (Status.exited 0))
      × ((counter m'.system q.data_ready_fd ≡ counter m.system q.data_ready_fd + 1)
          ⊎ (laws.killed m'.system pid ≡ true))

  abbrev Ended : Layout → ℕ → Prepared → ℕ → M → Bool × List Bytes → Server (n.World) → Type 0
  Ended l pid q signal_fd m r t =
      Ends net_laws k fuel (descriptors_of n k sys d p fuel rounds pid q signal_fd)
        (set_up k (descriptors_of n k sys d p fuel rounds pid q signal_fd) m.server).1 l r t

  ended :
      (l : Layout) (pid : ℕ) (q : Prepared) (signal_fd : ℕ) (m : M) (ok : Bool) (taken : List Bytes)
      (t : Server (n.World))
      → Ended l pid q signal_fd m (ok, taken) t
      → (e : Exit) (s : S)
      → Finished laws pid q (λ o. set_at o signal_fd false) ok taken t.ring m.system e s
      → Oversees l pid q signal_fd m e (record m { server = t.world; system = s })
  unfolding close_producer
  ended l pid q signal_fd m ok taken t r e s f = (
    record {
      layout = record (r.ran.layout) { producer_closed = 1 };
      more = r.ran.more;
      inputs = r.ran.inputs;
      later = r.ran.later;
      before = r.before;
      ring_is = f.ring_is ∙ ap close_producer r.ran.ring_is;
      closed = refl;
      accepted = r.ran.accepted;
      conserved = ap (λ b. b ++ contents r.ran.layout) f.taken_is ∙ r.ran.conserved;
      log_is = r.ran.log_is;
      fed = r.ran.fed;
      closes = r.closes;
      all_taken = λ x. (r.ran.drained (f.success_iff.0 x).0).1;
    },
    λ i. ap (λ (o : ℕ → Bool). o i) f.opened_is,
    λ x. (f.success_iff.0 x).2,
    f.told,
  )

  -- The parent with a server that returns, on a valid, open ring below the pause threshold,
  -- with fuel for the calls that are still to come, and a reader that was not waited for: it
  -- returns. The ring is closed, and what the reader has taken followed by what the ring holds
  -- are the frames of the ring at the start, in order, followed by just those that the inputs
  -- of the clients brought since the set-up of the server, all of which decode. The signal
  -- descriptor and the eventfds are closed. The reader was woken once more, or killed. After a
  -- success the ring is empty, and the reader has exited with code 0.
  pub oversee_lem :
      (l : Layout) (pid : ℕ) (q : Prepared) (signal_fd : ℕ) (m : M)
      → q.ring ≡ some l
      → IsRoomy l
      → budget (set_up k (descriptors_of n k sys d p fuel rounds pid q signal_fd) m.server).1 < fuel
      → signals m.system < fuel
      → reaped m.system pid ≡ none
      → Startup.run n k fuel
          (descriptors_of n k sys d p fuel rounds pid q signal_fd)
          rounds
          (new_server q.ring m.server)
        ≢ none
      → Ensures (Oversees l pid q signal_fd m) (oversee n k sys d p fuel rounds pid q signal_fd m)
  unfolding oversee
  oversee_lem l pid q signal_fd m e room b h z returns =
      go (Startup.run n k fuel desc rounds (new_server q.ring m.server)) returns
        (run_lem net_laws k fuel desc rounds l (new_server q.ring m.server) e room refl b)
    where
      desc : Descriptors
      desc = descriptors_of n k sys d p fuel rounds pid q signal_fd

      ends :
          (ok : Bool) (taken : List Bytes) (t : Server (n.World))
          → Ended l pid q signal_fd m (ok, taken) t
          → (r : Option (Exit × S))
          → Ensures (Finished laws pid q (λ o. set_at o signal_fd false) ok taken t.ring m.system) r
          → Ensures (Oversees l pid q signal_fd m) (on_system (record m { server = t.world }) r)
      ends ok taken t r none x = absurd x
      ends ok taken t r (some (x, s)) f = ended l pid q signal_fd m ok taken t r x s f

      go :
          (o : Option ((Bool × List Bytes) × Server (n.World)))
          → o ≢ none
          → Returned net_laws (Ended l pid q signal_fd m) o
          → Ensures
              (Oversees l pid q signal_fd m)
              (overseen n k sys d p fuel rounds pid q signal_fd m o)
      go none x y = absurd (x refl)
      go (some ((ok, taken), t)) x y =
          ends ok taken t y (finish sys fuel pid q (sys.close signal_fd) ok taken t.ring m.system) (
            finish_lem laws fuel pid q (sys.close signal_fd) (λ o. set_at o signal_fd false) ok
              taken t.ring m.system (Closes-close laws signal_fd) h z)
