-- ===== src/Server/Events/Signal.antt =====
-- An event of the signal descriptor: `handleSignalEvent` and `beginDraining`.
use telemetry_server.Base.{
  ℕ, ◌≤◌, ◌<◌, ◌≡◌, ◌≢◌, ◌⊎◌, inl, inr, ==_of_eq, refl, ap, sym, ◌∙◌, arith, Bool, true, false, not,
  ◌&&◌, Option, none, some, [], ◌∷◌, ==_of_ne, if◌then◌else◌,
}
use native.Mathlib.Decide.{ℕ_discrete}
use telemetry_server.Base.Action.{Ensures, Ensures-mono, pure}
use telemetry_server.Server.Buffer.{Buffer}
use telemetry_server.Server.Net.{Net, NetLaws, Event, Kernel, EpollLaw-log}
use telemetry_server.Server.Clients.{Clients, find, find-empty}
use telemetry_server.Server.Connections.{
  Server, State, with_world, remove_client, remove_each, remove_all_clients,
}
use telemetry_server.Server.Connections.Removal.{Gone, remove_client-Gone}
use telemetry_server.Server.Signals.{
  SignalState, no_signals, any_end, any_shutdown, Noted, handle_signal_fd, handle_signal_fd_lem,
}
use telemetry_server.Server.Events.{
  is_running, stop_listening, begin_draining, note_signals, read_noted, read_signals,
  handle_signal_event,
}
use telemetry_server.Server.Events.Invariant.{
  Grows-same, Fits, Inv, Keeps, Keeps-trans, Keeps-same, Keeps-pure, Keeps-no_fault, Inv-world,
}

module _ {n : Net} (laws : NetLaws n) where
  open n use {World}
  open laws use {kernel, budget}

  -- What is left when the clients of `cs` are removed.
  pub record Removed (cs : Clients) (s t : Server World) : Type 0 where
    pub same_ring : t.ring ≡ s.ring
    pub same_state : t.state ≡ s.state
    pub same_pause : t.ingress_paused ≡ s.ingress_paused
    pub same_listener : t.listen_fd ≡ s.listen_fd
    pub same_unread : (kernel t.world).unread ≡ (kernel s.world).unread
    pub same_log : (kernel t.world).log ≡ (kernel s.world).log
    pub left :
        (fd : ℕ) → find fd t.clients ≢ none → (find fd s.clients ≢ none) × (find fd cs ≡ none)
    -- what is not watched stays so, and the clients of `cs` are not watched any more
    pub unwatched :
        (fd : ℕ) → (kernel s.world).registered fd ≡ false → (kernel t.world).registered fd ≡ false
    pub gone : (fd : ℕ) → find fd cs ≢ none → (kernel t.world).registered fd ≡ false
    pub fewer : budget t.world ≤ budget s.world

  remove_each_lem : (cs : Clients) (s : Server World) → Removed cs s (remove_each n cs s)
  unfolding remove_each find
  remove_each_lem [] s = record {
    same_ring = refl;
    same_state = refl;
    same_pause = refl;
    same_listener = refl;
    same_unread = refl;
    same_log = refl;
    left = λ fd h. (h, refl);
    unwatched = λ fd h. h;
    gone = λ fd h. absurd (h refl);
    fewer = omega arith;
  }
  remove_each_lem ((key, b) ∷ rest) s =
      let g : Gone laws key s (remove_client n key s) = remove_client-Gone laws key s in
      let r : Removed rest (remove_client n key s) (remove_each n rest (remove_client n key s)) =
        remove_each_lem rest (remove_client n key s) in
      record {
        same_ring = r.same_ring ∙ g.apart.same_ring;
        same_state = r.same_state ∙ g.apart.same_state;
        same_pause = r.same_pause ∙ g.apart.same_pause;
        same_listener = r.same_listener ∙ g.apart.same_listener;
        same_unread = r.same_unread ∙ g.apart.same_unread;
        same_log = r.same_log ∙ g.apart.same_log;
        left = λ fd h.
            let (was, e) = r.left fd h in
            elim (ℕ_discrete fd key) [
              | yes same ↦
                  absurd (was (ap (λ k. find k (remove_client n key s).clients) same ∙ g.no_client))
              | no ne ↦ (
                λ x. was (g.apart.same_clients fd ne ∙ x),
                rw (==_of_ne (λ x. ne (sym x)), find) e,
              )
            ];
        unwatched = λ fd h. elim (ℕ_discrete fd key) [
          | yes same ↦
              r.unwatched fd
                (ap (kernel (remove_client n key s).world).registered same ∙ g.unwatched)
          | no ne ↦ r.unwatched fd (g.apart.same_watch fd ne ∙ h)
        ];
        gone = λ fd h. elim (ℕ_discrete fd key) [
          | yes same ↦
              r.unwatched fd
                (ap (kernel (remove_client n key s).world).registered same ∙ g.unwatched)
          | no ne ↦ r.gone fd (λ x. h (rw (==_of_ne (λ y. ne (sym y)), find) x))
        ];
        fewer = omega (arith, r.fewer, g.apart.fewer);
      }

  -- All clients are gone.
  pub record Emptied (s t : Server World) : Type 0 where
    pub no_clients : t.clients ≡ []
    pub same_ring : t.ring ≡ s.ring
    pub same_state : t.state ≡ s.state
    pub same_pause : t.ingress_paused ≡ s.ingress_paused
    pub same_listener : t.listen_fd ≡ s.listen_fd
    pub same_log : (kernel t.world).log ≡ (kernel s.world).log
    pub unwatched :
        (fd : ℕ) → (kernel s.world).registered fd ≡ false → (kernel t.world).registered fd ≡ false
    pub gone : (fd : ℕ) → find fd s.clients ≢ none → (kernel t.world).registered fd ≡ false
    pub fewer : budget t.world ≤ budget s.world

  pub remove_all_clients_lem : (s : Server World) → Emptied s (remove_all_clients n s)
  unfolding remove_all_clients
  remove_all_clients_lem s =
      let r = remove_each_lem s.clients s in
      record {
        no_clients = find-empty _ (λ fd. go fd (find fd (remove_each n s.clients s).clients) refl);
        same_ring = r.same_ring;
        same_state = r.same_state;
        same_pause = r.same_pause;
        same_listener = r.same_listener;
        same_log = r.same_log;
        unwatched = r.unwatched;
        gone = r.gone;
        fewer = r.fewer;
      }
    where
      go :
          (fd : ℕ) (c : Option Buffer)
          → find fd (remove_each n s.clients s).clients ≡ c
          → find fd (remove_each n s.clients s).clients ≡ none
      go fd none e = e
      go fd (some b) e =
          let (was, e') =
            (remove_each_lem s.clients s).left fd (λ x. absurd (ground (arith, e, x))) in
          absurd (was e')

  stop_listening_lem :
      (s : Server World)
      → let t = stop_listening n s in
        (t.listen_fd ≡ none)
        × (t.ring ≡ s.ring)
        × (t.state ≡ s.state)
        × (t.ingress_paused ≡ s.ingress_paused)
        × (budget t.world ≤ budget s.world)
        × ((fd : ℕ) → s.listen_fd ≡ some fd → (kernel t.world).registered fd ≡ false)
        × (t.clients ≡ s.clients)
        × ((kernel t.world).log ≡ (kernel s.world).log)
  unfolding stop_listening
  stop_listening_lem s = go s.listen_fd refl
    where
      Stops : Server World → Type 0
      Stops t =
          (t.listen_fd ≡ none)
          × (t.ring ≡ s.ring)
          × (t.state ≡ s.state)
          × (t.ingress_paused ≡ s.ingress_paused)
          × (budget t.world ≤ budget s.world)
          × ((fd : ℕ) → s.listen_fd ≡ some fd → (kernel t.world).registered fd ≡ false)
          × (t.clients ≡ s.clients)
          × ((kernel t.world).log ≡ (kernel s.world).log)

      go :
          (r : Option ℕ)
          → s.listen_fd ≡ r
          → Stops (elim r [
            | none ↦ s
            | some fd ↦ record s {
              listen_fd = none;
              world = n.close fd (n.epoll_delete fd s.world).1;
            }
          ])
      go none e =
          (e, refl, refl, refl, omega arith, λ fd h. absurd (ground (arith, e, h)), refl, refl)
      go (some fd) e =
          let w = (n.epoll_delete fd s.world).1 in
          (
            refl,
            refl,
            refl,
            refl,
            omega (arith, laws.close_budget fd w, laws.delete_budget fd s.world),
            λ other h.
                let same : other ≡ fd = ground (arith, e, h) in
                ap (λ (k : Kernel). k.registered other) (laws.close_law fd w)
                ∙ rw (==_of_eq same) refl,
            refl,
            ap (λ (k : Kernel). k.log) (laws.close_law fd w)
                ∙ EpollLaw-log fd false (kernel s.world) (n.epoll_delete fd s.world).0 (kernel w)
                    (laws.delete_law fd s.world),
          )

  -- `beginDraining` leaves the server without clients and without a listening socket; the
  -- socket and the clients that it had are out of the epoll set; and the ring, the state and
  -- the pause of the ingress are as they were.
  pub begin_draining_lem :
      (s : Server World)
      → let t = begin_draining n s in
        (t.clients ≡ [])
        × (t.listen_fd ≡ none)
        × (t.ring ≡ s.ring)
        × (t.state ≡ s.state)
        × (t.ingress_paused ≡ s.ingress_paused)
        × (budget t.world ≤ budget s.world)
        × ((fd : ℕ)
            → (s.listen_fd ≡ some fd) ⊎ (find fd s.clients ≢ none)
            → (kernel t.world).registered fd ≡ false)
  unfolding begin_draining
  begin_draining_lem s =
      let (l, r, e, p, h, silent, same, log) = stop_listening_lem s in
      let c = remove_all_clients_lem (stop_listening n s) in
      (
        c.no_clients,
        c.same_listener ∙ l,
        c.same_ring ∙ r,
        c.same_state ∙ e,
        c.same_pause ∙ p,
        omega (arith, c.fewer, h),
        λ fd. elim [
          | inl x ↦ c.unwatched fd (silent fd x)
          | inr x ↦ c.gone fd (λ y. x (sym (ap (find fd) same) ∙ y))
        ],
      )

  begin_draining-log :
      (s : Server World) → (kernel (begin_draining n s).world).log ≡ (kernel s.world).log
  unfolding begin_draining
  begin_draining-log s =
      (remove_all_clients_lem (stop_listening n s)).same_log ∙ (stop_listening_lem s).7

  pub nobody_left : (fd : ℕ) (cs : Clients) → cs ≡ [] → find fd cs ≡ none
  unfolding find
  nobody_left fd cs e = ap (find fd) e

  -- A server that drains fits the invariant as soon as its clients and its socket are gone.
  drained_Fits :
      (crowded : Bool) (s t : Server World)
      → Inv laws s
      → t.clients ≡ []
      → t.listen_fd ≡ none
      → t.ring ≡ s.ring
      → t.state ≡ State.draining
      → (crowded ≡ false → s.ingress_paused ≡ false)
      → Fits laws crowded t
  unfolding find
  drained_Fits crowded s t i c l r d p = record {
    layout = i.layout;
    ring_is = r ∙ i.ring_is;
    valid_ring = i.valid_ring;
    not_closed = i.not_closed;
    roomy = λ e. i.roomy (p e);
    in_order = λ fd b f. let x = nobody fd in absurd (ground (arith, f, x));
    watched = λ fd h. absurd (h (nobody fd));
    listens = λ x. absurd (ground (arith, x, d));
    drained = λ x. (c, l);
  }
    where
      nobody : (fd : ℕ) → find fd t.clients ≡ none
      nobody fd = ap (find fd) c

  -- A shutdown that is asked for is heeded, unless the server stops.
  pub note_signals_lem :
      (signals : SignalState) (s : Server World)
      → Inv laws s
      → let (ok, t) = note_signals n signals s in
        Keeps laws s ok t
        × (ok ≡ not signals.reader_terminated)
        × (ok ≡ true → signals.shutdown_requested ≡ true → t.state ≡ State.draining)
  unfolding note_signals
  note_signals_lem signals s i =
      go signals.reader_terminated signals.shutdown_requested s.state refl
    where
      Notes : Bool → Bool → Bool × Server World → Type 0
      Notes terminated shutdown (ok, t) =
          Keeps laws s ok t
          × (ok ≡ not terminated)
          × (ok ≡ true → shutdown ≡ true → t.state ≡ State.draining)

      begun : Server World
      begun = record s { state = State.draining }

      drains : s.state ≡ State.running → Keeps laws s true (begin_draining n begun)
      drains e =
          let (c, l, r, d, p, h, gone) = begin_draining_lem begun in
          record {
            inv = λ x. drained_Fits _ s (begin_draining n begun) i c l r d (λ y. sym p ∙ y);
            grows =
                Grows-same laws s true (begin_draining n begun) r (begin_draining-log begun)
                  (λ fd b f.
                    let x : find fd (begin_draining n begun).clients ≡ none = nobody_left fd _ c in
                    absurd (ground (arith, f, x)));
            drains = λ x. (d, r);
            fewer = h;
          }

      go :
          (terminated shutdown : Bool) (state : State)
          → s.state ≡ state
          → Notes terminated shutdown (
              if◌then◌else◌ {A = Bool × Server World} terminated
                (false, s)
                (if◌then◌else◌ {A = Bool × Server World}
                  (shutdown && is_running state)
                  (true, begin_draining n begun)
                  (true, s)))
      go true shutdown state e = (Keeps-pure laws s false i, refl, λ x. absurd (ground (arith, x)))
      go false true State.running e = (drains e, refl, λ x y. (begin_draining_lem begun).3)
      go false true State.draining e = (Keeps-pure laws s true i, refl, λ x y. e)
      go false false state e = (Keeps-pure laws s true i, refl, λ x y. absurd (ground (arith, y)))

  -- The signals are those that wait when the call begins.
  pub record Signalled (reader_pid : ℕ) (s : Server World) (ok : Bool) (t : Server World)
      : Type 0 where
    pub keeps : Keeps laws s ok t
    pub reader_lives : ok ≡ true → any_end reader_pid (kernel s.world).signals ≡ false
    pub heeds : ok ≡ true → any_shutdown (kernel s.world).signals ≡ true → t.state ≡ State.draining

  -- The reading of the signals, from a server that keeps the invariant and with fuel for those
  -- that wait, returns. When it lets the server go on, no signal that waited told of the end of
  -- the reader, and the server is draining if one asked for a shutdown; what it promises of the
  -- invariant and the ring is what every event promises.
  pub read_signals_lem :
      (fuel reader_pid : ℕ) (s : Server World)
      → Inv laws s
      → budget s.world < fuel
      → Ensures (Signalled reader_pid s) (read_signals n fuel reader_pid s)
  unfolding read_signals
  read_signals_lem fuel reader_pid s i h =
      go (handle_signal_fd n fuel reader_pid (no_signals, s.world))
        (handle_signal_fd_lem laws fuel reader_pid no_signals s.world h)
    where
      read :
          (w : World)
          → (kernel w).registered ≡ (kernel s.world).registered
          → budget w ≤ budget s.world
          → (kernel w).log ≡ (kernel s.world).log
          → (ok : Bool) → Keeps laws s ok (with_world s w)
      read w e h l ok =
          Keeps-same laws s ok (with_world s w) refl refl l (λ fd b f. f)
            (λ x. Inv-world laws s w i e) h

      go :
          (r : Option (Bool × (SignalState × World)))
          → Ensures (Noted laws reader_pid no_signals s.world) r
          → Ensures (Signalled reader_pid s) (read_noted n s r)
      go none q = absurd q
      go (some (false, (signals, w))) q = record {
        keeps = read w q.same_registered q.fewer q.same_log false;
        reader_lives = λ x. absurd (ground (arith, x));
        heeds = λ x. absurd (ground (arith, x));
      }
      go (some (true, (signals, w))) q =
          let k = read w q.same_registered q.fewer q.same_log true in
          let (k', e, d) = note_signals_lem signals (with_world s w) (k.inv refl) in
          record {
            keeps = Keeps-trans laws s (with_world s w) _ _ k k';
            reader_lives = λ x. lives _ _ (sym x ∙ e) (q.reader refl);
            heeds = λ x y. d x (q.shutdown refl ∙ y);
          }
        where
          lives : (ended any : Bool) → true ≡ not ended → ended ≡ any → any ≡ false
          lives ended any x y = ground (arith, x, y)

  pub handle_signal_event_lem :
      (fuel reader_pid : ℕ) (event : Event) (s : Server World)
      → Inv laws s
      → budget s.world < fuel
      → Ensures (Keeps laws s) (handle_signal_event n fuel reader_pid event s)
  unfolding handle_signal_event
  handle_signal_event_lem fuel reader_pid event s i h =
      Keeps-no_fault laws (if event.epollin then read_signals n fuel reader_pid else pure true)
        event s (reads event.epollin)
    where
      reads :
          (input : Bool)
          → Ensures (Keeps laws s) ((if input then read_signals n fuel reader_pid else pure true) s)
      reads false = Keeps-pure laws s true i
      reads true =
          Ensures-mono (Signalled reader_pid s) (Keeps laws s) (read_signals n fuel reader_pid s)
            (λ ok t k. k.keeps) (read_signals_lem fuel reader_pid s i h)
