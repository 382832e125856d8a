-- ===== src/Server/Events/Space.antt =====
-- An event of the eventfd that the reader signals when it has taken frames: the ingress resumes.
use telemetry_server.Base.{
  ℕ, ◌*◌, ◌≤◌, ◌<◌, ◌≡◌, inl, refl, ap, subst, ◌∙◌, arith, Bool, true, false, ◌&&◌, leb, leb→le,
  Option, none, some, if◌then◌else◌,
}
use telemetry_server.Base.Action.{Ensures, Ensures-mono, Ensures-and, ◌&&=◌, pure}
use telemetry_server.Ipc.Ring
use telemetry_server.Ipc.Ring.{SharedRingBuffer, Layout, sub_u64}
use telemetry_server.Ipc.EventFd.{Called, After, Patience, retry_lem, consume_event}
use telemetry_server.Protocol.Codec.{frame_size}
use telemetry_server.Server.Receive.{resume_ingress_bytes}
use telemetry_server.Server.Net.{Net, NetLaws, Kernel, Event}
use telemetry_server.Server.Connections.{Server, State, with_world, on_world}
use telemetry_server.Server.Ingress.{Watches, update_ingress_interest, update_ingress_interest_lem}
use telemetry_server.Server.Events.{
  is_running, resume_ingress, can_resume, maybe_resume, consume_space, space_event,
}
use telemetry_server.Server.Events.Invariant.{
  Inv, Keeps, Keeps-trans, Keeps-same, Keeps-pure, Keeps-no_fault, Inv-world,
}

-- What the test of `handleEvent` tells.
can_resume_lem :
    {W : Type 0} (s : Server W) (l : Layout)
    → can_resume s ≡ true
    → s.ring ≡ some l
    → (s.state ≡ State.running) × (sub_u64 l.head l.tail * frame_size ≤ resume_ingress_bytes)
unfolding can_resume Ring.pending_bytes Ring.pending_frames
can_resume_lem s l e r = go s.state s.ingress_paused s.ring refl r e
  where
    go :
        (state : State) (paused : Bool) (ring : SharedRingBuffer)
        → s.state ≡ state
        → ring ≡ some l
        → (is_running state && (paused && leb (Ring.pending_bytes ring) resume_ingress_bytes))
          ≡ true
        → (s.state ≡ State.running) × (sub_u64 l.head l.tail * frame_size ≤ resume_ingress_bytes)
    go State.draining paused ring x y z = absurd (ground (arith, z))
    go State.running false ring x y z = absurd (ground (arith, z))
    go State.running true ring x y z =
        (x, leb→le _ _ (subst (λ r. leb (Ring.pending_bytes r) resume_ingress_bytes ≡ true) y z))

module _ {n : Net} (laws : NetLaws n) where
  open n use {World}
  open laws use {kernel, budget}

  consume_space_lem :
      (fuel : ℕ) (s : Server World)
      → Inv laws s
      → budget s.world < fuel
      → Ensures (Keeps laws s) (consume_space n fuel s)
  unfolding consume_event
  consume_space_lem fuel s i h = placed (consume_event n.space_ready_read fuel s.world) (
      retry_lem n.space_ready_read budget laws.space_ready_budget Same (λ ok w. Same w)
        (λ w p.
          read w p (n.space_ready_read w).0 (laws.space_ready_law w) (laws.space_ready_budget w))
        fuel s.world (refl, omega arith) h)
    where
      Same : World → Type 0
      Same w = (kernel w ≡ kernel s.world) × (budget w ≤ budget s.world)

      read :
          (w : World)
          → Same w
          → (r : Called) → kernel (n.space_ready_read w).1 ≡ kernel w
          → Patience (budget w) r (budget (n.space_ready_read w).1)
          → After Same (λ ok w'. Same w') r (n.space_ready_read w).1
      read w p Called.done e k = (e ∙ p.0, omega (arith, p.1, k))
      read w p Called.interrupted e k = (e ∙ p.0, omega (arith, p.1, k))
      read w p Called.failed e k = (e ∙ p.0, omega (arith, p.1, k))

      placed :
          (r : Option (Bool × World))
          → Ensures (λ ok w. Same w) r
          → Ensures (Keeps laws s) (on_world s r)
      placed none q = absurd q
      placed (some (ok, w)) q =
          Keeps-same laws s ok (with_world s w) refl refl (ap (λ (k : Kernel). k.log) q.0)
            (λ fd b f. f) (λ x. Inv-world laws s w i (ap (λ (k : Kernel). k.registered) q.0)) q.1

  resume_ingress_lem :
      (s : Server World) (fd : ℕ)
      → (i : Inv laws s) → s.state ≡ State.running
      → s.listen_fd ≡ some fd
      → sub_u64 i.layout.head i.layout.tail * frame_size ≤ resume_ingress_bytes
      → let (done, t) = resume_ingress n s in Keeps laws s done t
  unfolding resume_ingress
  resume_ingress_lem s fd i r e h =
      go (update_ingress_interest n true s).0 (update_ingress_interest n true s).1
        (update_ingress_interest_lem laws true s fd e)
    where
      go :
          (done : Bool) (w : World)
          → Watches laws true s.clients s.world done w
          → let (done', t) =
              if◌then◌else◌ {A = Bool × Server World} done
                (true, record s { ingress_paused = false; world = w })
                (false, with_world s w) in
            Keeps laws s done' t
      go false w k =
          Keeps-same laws s false (with_world s w) refl refl k.same_log (λ fd b f. f)
            (λ x. absurd (ground (arith, x))) k.fewer
      go true w k =
          Keeps-same laws s true (record s { ingress_paused = false; world = w }) refl refl
            k.same_log (λ fd b f. f)
            (λ x. record {
              layout = i.layout;
              ring_is = i.ring_is;
              valid_ring = i.valid_ring;
              not_closed = i.not_closed;
              roomy = λ y. (i.valid_ring, i.not_closed, omega (arith, h));
              in_order = i.in_order;
              watched = λ other f. k.watched refl other (inl f);
              listens = i.listens;
              drained = λ d. absurd (ground (arith, d, r));
            })
            k.fewer

  maybe_resume_lem : (s : Server World) → Inv laws s → Ensures (Keeps laws s) (maybe_resume n s)
  unfolding maybe_resume
  maybe_resume_lem s i = go (can_resume s) refl
    where
      go :
          (b : Bool)
          → can_resume s ≡ b
          → Ensures (Keeps laws s) (if b then some (resume_ingress n s) else some (true, s))
      go false e = Keeps-pure laws s true i
      go true e =
          let (r, h) = can_resume_lem s i.layout e i.ring_is in
          let (fd, listens) = i.listens r in resume_ingress_lem s fd i r listens h

  pub space_event_lem :
      (fuel : ℕ) (event : Event) (s : Server World)
      → Inv laws s
      → budget s.world < fuel
      → Ensures (Keeps laws s) (space_event n fuel event s)
  unfolding space_event
  space_event_lem fuel event s i h =
      Keeps-no_fault laws
        (if event.epollin then consume_space n fuel &&= maybe_resume n else pure true) event s
        (reads event.epollin)
    where
      reads :
          (input : Bool)
          → Ensures
              (Keeps laws s)
              ((if input then consume_space n fuel &&= maybe_resume n else pure true) s)
      reads false = Keeps-pure laws s true i
      reads true =
          Ensures-and (Keeps laws s) (Keeps laws s) (consume_space n fuel) (maybe_resume n) s
            (consume_space_lem fuel s i h) (λ t k. k)
            (λ t k.
              Ensures-mono (Keeps laws t) (Keeps laws s) (maybe_resume n t)
                (λ ok u. Keeps-trans laws s t ok u k) (maybe_resume_lem t (k.inv refl)))
