-- ===== src/Main/Branches.antt =====
-- The two branches of `main` of src/main.cpp after `fork`.
use telemetry_server.Base.{
  ℕ, ◌+◌, ◌^◌, ◌≤◌, ◌<◌, ◌≡◌, ◌≢◌, ◌⊎◌, inl, inr, refl, ap, sym, subst, ◌∙◌, arith, Bool, true,
  false, Option, none, some, [], ==_of_eq, ==_of_ne,
}
use native.Mathlib.Decide.{ℕ_discrete}
use telemetry_server.Base.Action.{Ensures, Ensures-mono}
use telemetry_server.Ipc.Ring.{new_layout, capacity_frames}
use telemetry_server.Base.Text.{Text}
use telemetry_server.Storage.FileStore.Names.{IsUnused}
use telemetry_server.Storage.Disk.{Disk, DiskLaws}
use telemetry_server.Config.Parser.{AppConfig}
use telemetry_server.Reader.{write_batch_bytes}
use telemetry_server.Reader.Pop.{IsFilled}
use telemetry_server.Reader.Run
use telemetry_server.Reader.Run.{Peer, Process}
use telemetry_server.Reader.Run.Exchange.{PeerLaws}
use telemetry_server.Reader.Run.Stored.{Runs, Stores, reader_run_lem}
use telemetry_server.Server.Net.{Net, NetLaws, set_at, opened_closed}
use telemetry_server.Server.Receive.Laws.{IsRoomy}
use telemetry_server.Server.Events.{Descriptors}
use telemetry_server.Server.Startup
use telemetry_server.Server.Startup.{Sockets, set_up}
use telemetry_server.Server.Startup.Laws.{OpensLaw}
use telemetry_server.Main.{
  Status, System, Machine, Prepared, Exit, new_server, close_events, reader_config, finish,
  on_system, child_done, become_reader, descriptors_of, oversee, supervise, early,
}
use telemetry_server.Main.Calls.{SystemLaws}
use telemetry_server.Main.Finish.{Closes-nothing, Closes-events, Finished, finish_lem}
use telemetry_server.Main.Oversee.{Served, Oversees, oversee_lem}

set_at-cong :
    (f g : ℕ → Bool) (k : ℕ) (v : Bool) (i : ℕ) → f i ≡ g i → set_at f k v i ≡ set_at g k v i
set_at-cong f g k v i e = elim (ℕ_discrete i k) [
  | yes same ↦ rw (==_of_eq same) refl
  | no ne ↦ rw (==_of_ne ne) e
]

-- Two new descriptors that are both closed again.
both_closed :
    (o : ℕ → Bool) (a b : ℕ)
    → o a ≡ false
    → o b ≡ false
    → (i : ℕ) → set_at (set_at (set_at (set_at o a true) b true) a false) b false i ≡ o i
both_closed o a b x y i = elim (ℕ_discrete i b) [
  | yes same ↦ rw (==_of_eq same) (sym y ∙ ap o (sym same))
  | no ne ↦ elim (ℕ_discrete i a) [
    | yes same ↦ rw (==_of_ne ne, ==_of_eq same) (sym x ∙ ap o (sym same))
    | no other ↦ rw (==_of_ne ne, ==_of_ne other) refl
  ]
]

new_layout-IsRoomy : IsRoomy new_layout
new_layout-IsRoomy = (omega arith, refl, omega arith)

new_layout-IsFilled : IsFilled new_layout
new_layout-IsFilled = (omega arith, tt)

module _ {S : Type 0} {n : Net} (net_laws : NetLaws n) (k : Sockets (n.World)) {sys : System S}
    (laws : SystemLaws sys) {d : Disk} (disk_laws : DiskLaws d) {p : Peer} (peer_laws : PeerLaws p)
    (fuel rounds : ℕ) where
  open net_laws use {budget}
  open laws use {opened, reaped, signals}

  abbrev M : Type 0
  M = Machine (n.World) S (d.World) (p.World)

  -- The reader has stored what came through the ring.
  abbrev pub Reads : M → M → Type 0
  Reads m m' =
      (t : Process (d.World) (p.World)) × Stores disk_laws peer_laws fuel new_layout m.disk t
      × (m'.disk ≡ t.reader.storage.world)

  -- The server has handed all its frames to the reader, which has then exited with code 0.
  abbrev pub Serves : M → Exit → M → Type 0
  Serves m e m' =
      (c : Descriptors) × Served net_laws k (set_up k c m.server).1 new_layout e m'.server
      × (pid : ℕ) × (reaped m'.system pid ≡ some (Status.exited 0))

  -- What `main` has opened is closed; and what a success means, which is also that of a request for help.
  pub record Leaves (m : M) (e : Exit) (m' : M) : Type 0 where
    pub same_open : (i : ℕ) → opened m'.system i ≡ opened m.system i
    pub succeeded : e.success ≡ true → (m' ≡ m) ⊎ (Reads m m' ⊎ Serves m e m')

  -- The server's part, on its own world and a new ring.
  pub record Serving (m : M) : Type 0 where
    pub enough : (c : Descriptors) → budget (set_up k c m.server).1 < fuel
    pub returns :
        (c : Descriptors)
        → Startup.run n k fuel c rounds (new_server (some new_layout) m.server) ≢ none

  -- The reader's part.
  pub record Reading (path : Text) (m : M) : Type 0 where
    pub disk : disk_laws.signals m.disk + write_batch_bytes < fuel
    pub patient : peer_laws.signals m.peer < fuel
    pub turns : peer_laws.left m.peer + 1 < rounds
    pub new : IsUnused disk_laws.shows (d.filename path) 0 (disk_laws.files m.disk).names

  -- A failure, with the descriptors of before.
  pub failed :
      (m : M) (s : S)
      → ((i : ℕ) → opened s i ≡ opened m.system i)
      → Leaves m (early false) (record m { system = s })
  failed m s e = record { same_open = e; succeeded = λ x. absurd (ground (arith, x)) }

  -- After `prepare` and `fork`.
  pub record Started (m : M) (q : Prepared) (s : S) : Type 0 where
    pub ring_is : q.ring ≡ some new_layout
    pub new_data : opened m.system q.data_ready_fd ≡ false
    pub new_space : opened m.system q.space_ready_fd ≡ false
    pub opened_is :
        opened s ≡ set_at (set_at (opened m.system) q.data_ready_fd true) q.space_ready_fd true
    pub fewer : signals s ≤ signals m.system

  pub closed_again :
      (m : M) (q : Prepared) (s : S)
      → Started m q s
      → (i : ℕ)
      → set_at (set_at (opened s) q.data_ready_fd false) q.space_ready_fd false i
        ≡ opened m.system i
  closed_again m q s t i =
      ap (λ o. set_at (set_at o q.data_ready_fd false) q.space_ready_fd false i) t.opened_is
      ∙ both_closed (opened m.system) q.data_ready_fd q.space_ready_fd t.new_data t.new_space i

  pub become_reader_lem :
      (c : AppConfig) (m : M) (q : Prepared) (s : S)
      → Started m q s
      → c.max_segment_bytes < 2 ^ 64
      → capacity_frames < fuel
      → Reading c.data_file_path m
      → Ensures (Leaves m) (become_reader n k sys d p fuel rounds c q (record m { system = s }))
  unfolding become_reader
  become_reader_lem c m q s t word deep r =
      go (Run.run d p fuel rounds (reader_config c) q.ring m.disk m.peer) (
        subst
          (λ ring.
            Ensures (Runs disk_laws peer_laws fuel new_layout m.disk)
              (Run.run d p fuel rounds (reader_config c) ring m.disk m.peer))
          (sym t.ring_is)
          (reader_run_lem disk_laws peer_laws fuel rounds (reader_config c) new_layout m.disk m.peer
            new_layout-IsFilled word r.disk deep r.patient r.turns r.new))
    where
      closed : (i : ℕ) → opened (close_events sys q s) i ≡ opened m.system i
      closed i = ap (λ (o : ℕ → Bool). o i) (Closes-events laws q s).0 ∙ closed_again m q s t i

      go :
          (o : Option (Bool × Process (d.World) (p.World)))
          → Ensures (Runs disk_laws peer_laws fuel new_layout m.disk) o
          → Ensures (Leaves m) (child_done n k sys d p fuel rounds q (record m { system = s }) o)
      go none x = absurd x
      go (some (true, u)) x = record { same_open = closed; succeeded = λ e. inr (inl (u, x, refl)) }
      go (some (false, u)) x = record {
        same_open = closed;
        succeeded = λ e. absurd (ground (arith, e));
      }

  pub supervise_lem :
      (pid : ℕ) (m : M) (q : Prepared) (s : S)
      → Started m q s
      → signals m.system < fuel
      → reaped s pid ≡ none
      → Serving m
      → Ensures (Leaves m) (supervise n k sys d p fuel rounds pid q (record m { system = s }))
  unfolding supervise
  supervise_lem pid m q s t h z w =
      go (sys.signalfd q.mask s).0 (sys.signalfd q.mask s).1 (laws.signalfd_law q.mask s)
    where
      told :
          (u : S) (o : Option (Exit × S))
          → opened u ≡ opened s
          → Ensures (Finished laws pid q (λ f. f) false [] q.ring u) o
          → Ensures (Leaves m) (on_system (record m { system = s }) o)
      told u none e x = absurd x
      told u (some (a, v)) e x = record {
        same_open = λ i.
            ap (λ (f : ℕ → Bool). f i) x.opened_is
            ∙ ap (λ f. set_at (set_at f q.data_ready_fd false) q.space_ready_fd false i) e
            ∙ closed_again m q s t i;
        succeeded = λ y. absurd (let b = (x.success_iff.0 y).0 in ground (arith, b));
      }

      go :
          (r : Option ℕ) (u : S)
          → OpensLaw (opened s) r (opened u) × (signals u ≤ signals s) × (reaped u ≡ reaped s)
          → Ensures (Leaves m) (elim r [
            | none ↦
                on_system
                  (record m { system = s })
                  (finish sys fuel pid q (λ v. v) false [] q.ring u)
            | some fd ↦ oversee n k sys d p fuel rounds pid q fd (record m { system = u })
          ])
      go none u (e, g, x) = told u (finish sys fuel pid q (λ v. v) false [] q.ring u) e (
          finish_lem laws fuel pid q (λ v. v) (λ f. f) false [] q.ring u (Closes-nothing laws)
            (let f = t.fewer in omega (arith, f, g, h))
            (ap (λ (f : ℕ → Option Status). f pid) x ∙ z))
      go (some fd) u (e, g, x) =
          Ensures-mono
            (Oversees net_laws k laws d p fuel rounds new_layout pid q fd (record m { system = u }))
            (Leaves m) (oversee n k sys d p fuel rounds pid q fd (record m { system = u }))
            (λ a v y. record {
              same_open = λ i.
                  y.1 i
                  ∙ set_at-cong (set_at (set_at (opened u) fd false) q.data_ready_fd false)
                      (set_at (opened s) q.data_ready_fd false) q.space_ready_fd false i
                      (set_at-cong (set_at (opened u) fd false) (opened s) q.data_ready_fd false i
                        (ap (λ f. set_at f fd false i) e.1 ∙ opened_closed (opened s) fd e.0 i))
                  ∙ closed_again m q s t i;
              succeeded =
                  λ b. inr (inr (descriptors_of n k sys d p fuel rounds pid q fd, y.0, pid, y.2 b));
            })
            (oversee_lem net_laws k laws d p fuel rounds new_layout pid q fd
              (record m { system = u }) t.ring_is new_layout-IsRoomy
              (w.enough (descriptors_of n k sys d p fuel rounds pid q fd))
              (let f = t.fewer in omega (arith, f, g, h))
              (ap (λ (f : ℕ → Option Status). f pid) x ∙ z)
              (subst
                (λ ring.
                  Startup.run n k fuel (descriptors_of n k sys d p fuel rounds pid q fd) rounds
                    (new_server ring m.server)
                  ≢ none)
                (sym t.ring_is) (w.returns (descriptors_of n k sys d p fuel rounds pid q fd))))
