-- ===== src/Server/Events/Dispatch.antt =====
-- Every event keeps the invariant, and so does a wait.
use telemetry_server.Base.{
  ℕ, ◌*◌, min, ◌<◌, ◌≡◌, refl, ap, ◌∙◌, arith, Bool, true, false, Option, none, some, List, [], ◌∷◌,
  ◌==◌, if◌then◌else◌,
}
use telemetry_server.Base.Action.{Ensures, Ensures-mono, Ensures-and}
use telemetry_server.Ipc.Ring
use telemetry_server.Ipc.Ring.{SharedRingBuffer, Layout, pending_frames, sub_u64}
use telemetry_server.Ipc.Ring.Refine.{IsValid, released, released-IsValid}
use telemetry_server.Protocol.Codec.{frame_size}
use telemetry_server.Server.Receive.{pause_ingress_bytes}
use telemetry_server.Server.Receive.Laws.{IsRoomy}
use telemetry_server.Server.Net.{Net, NetLaws, Event}
use telemetry_server.Server.Connections.{Server, State}
use telemetry_server.Server.Events.{
  Descriptors, is_listener, listen_event, space_event, client_event, handle_event,
  handle_signal_event, handle_one, handle_each, taken_from,
}
use telemetry_server.Server.Events.Invariant.{Inv, Keeps, Keeps-trans, Keeps-pure}
use telemetry_server.Server.Events.Listen.{listen_event_lem}
use telemetry_server.Server.Events.Space.{space_event_lem}
use telemetry_server.Server.Events.Client.{client_event_lem}
use telemetry_server.Server.Events.Signal.{handle_signal_event_lem}

module _ {n : Net} (laws : NetLaws n) where
  open n use {World}
  open laws use {kernel, budget}

  -- Only a server that runs has a listening socket.
  has_listener :
      (s : Server World) (fd : ℕ) → Inv laws s → s.listen_fd ≡ some fd → s.state ≡ State.running
  has_listener s fd i e = go s.state refl
    where
      go : (state : State) → s.state ≡ state → s.state ≡ State.running
      go State.running x = x
      go State.draining x = let (c, l) = i.drained x in absurd (ground (arith, e, l))

  pub handle_event_lem :
      (fuel space_ready_fd : ℕ) (event : Event) (s : Server World)
      → Inv laws s
      → budget s.world < fuel
      → Ensures (Keeps laws s) (handle_event n fuel space_ready_fd event s)
  unfolding handle_event
  handle_event_lem fuel space_ready_fd event s i h =
      go s.listen_fd refl (event.fd == space_ready_fd)
    where
      others :
          (space : Bool)
          → Ensures
              (Keeps laws s)
              (if space then space_event n fuel event s else client_event n fuel event s)
      others true = space_event_lem laws fuel event s i h
      others false = client_event_lem laws fuel event s i h

      listens :
          (b : Bool) (space : Bool)
          → s.state ≡ State.running
          → Ensures (Keeps laws s) (
              if b
              then listen_event n fuel event s
              else if space
              then space_event n fuel event s
              else client_event n fuel event s)
      listens true space e = listen_event_lem laws fuel event s i e h
      listens false space e = others space

      go :
          (r : Option ℕ)
          → s.listen_fd ≡ r
          → (space : Bool)
          → Ensures (Keeps laws s) (
              if is_listener r event.fd
              then listen_event n fuel event s
              else if space
              then space_event n fuel event s
              else client_event n fuel event s)
      go none e space = others space
      go (some fd) e space = listens (event.fd == fd) space (has_listener s fd i e)

  module _ (fuel : ℕ) (d : Descriptors) where
    pub handle_one_lem :
        (event : Event) (s : Server World)
        → Inv laws s
        → budget s.world < fuel
        → Ensures (Keeps laws s) (handle_one n fuel d event s)
    unfolding handle_one
    handle_one_lem event s i h = go (event.fd == d.signal_fd)
      where
        go :
            (signal : Bool)
            → Ensures (Keeps laws s) (
                if signal
                then handle_signal_event n fuel d.reader_pid event s
                else handle_event n fuel d.space_ready_fd event s)
        go true = handle_signal_event_lem laws fuel d.reader_pid event s i h
        go false = handle_event_lem fuel d.space_ready_fd event s i h

    -- From a server that keeps the invariant, with fuel for the calls that are still to come,
    -- the handling of any events that a wait reports returns. When no event stops the server
    -- the invariant holds again: the ring is valid and open, each client buffer is in order,
    -- each client is watched exactly when the ingress is not paused, the ring has room unless
    -- it is, a running server listens, and a draining one has no clients and no socket. In
    -- any case the frames of the ring stay there in order, and what is added behind them is
    -- what the inputs that the kernel has handed over bring, one after the other: a new
    -- connection nothing, and bytes the whole frames of what that connection has pending, up
    -- to the first that is not valid, or none of a client over its limit; unless the server
    -- stops, each client keeps just the rest. A draining server stays so and leaves the ring
    -- alone.
    pub handle_each_lem :
        (events : List Event) (s : Server World)
        → Inv laws s
        → budget s.world < fuel
        → Ensures (Keeps laws s) (handle_each n fuel d events s)
    unfolding handle_each
    handle_each_lem [] s i h = Keeps-pure laws s true i
    handle_each_lem (event ∷ rest) s i h =
        Ensures-and (Keeps laws s) (Keeps laws s) (handle_one n fuel d event)
          (handle_each n fuel d rest) s (handle_one_lem event s i h) (λ t k. k)
          (λ t k.
            Ensures-mono (Keeps laws t) (Keeps laws s) (handle_each n fuel d rest t)
              (λ ok u. Keeps-trans laws s t ok u k)
              (handle_each_lem rest t (k.inv refl) (omega (arith, h, k.fewer))))

  -- The server after a wait, in which the reader has taken up to `taken` frames.
  abbrev pub waited : ℕ → World → Server World → Server World
  waited taken w s = record s { ring = taken_from taken s.ring; world = w }

  pub waited-Inv :
      (taken : ℕ) (w : World) (s : Server World)
      → (i : Inv laws s) → (kernel w).registered ≡ (kernel s.world).registered
      → (j : Inv laws (waited taken w s)) × (j.layout
          ≡ released i.layout (min taken (sub_u64 i.layout.head i.layout.tail)))
  unfolding Ring.pending_frames
  waited-Inv taken w s i e = (
    record {
      layout = released i.layout count;
      ring_is = ap (taken_from taken) i.ring_is;
      valid_ring = valid;
      not_closed = i.not_closed;
      roomy = λ p. (valid, i.not_closed, lighter (i.roomy p));
      in_order = i.in_order;
      watched = λ fd h. ap (λ (f : ℕ → Bool). f fd) e ∙ i.watched fd h;
      listens = i.listens;
      drained = i.drained;
    },
    refl,
  )
    where
      count : ℕ
      count = min taken (sub_u64 i.layout.head i.layout.tail)

      valid : IsValid (released i.layout count)
      valid = released-IsValid count i.valid_ring (omega arith)

      lighter :
          IsRoomy i.layout
          → sub_u64 (released i.layout count).head (released i.layout count).tail * frame_size
            < pause_ingress_bytes
      lighter r = let h = r.2 in let v = i.valid_ring in omega (arith, h)
