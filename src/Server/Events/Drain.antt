-- ===== src/Server/Events/Drain.antt =====
-- A server that drains comes to its end once the reader has taken the frames of the ring.
use telemetry_server.Base.{
  ℕ, zero, suc, min, ◌≤◌, ◌<◌, ◌≡◌, ◌≢◌, refl, ap, ap₂, sym, subst, subst₂, ◌++◌, take,
  take-append-drop, append-nil, append_assoc, ◌∙◌, arith, Bool, true, false, not, ◌&&◌, ◌||◌,
  Option, none, some, List, [], ◌∷◌, All, ◌==◌, leb, if◌then◌else◌,
}
use telemetry_server.Base.Action.{
  Ensures, Ensures-mono, ◌>>=◌, Ensures-and, Ensures-both, Ensures-bind, ◌&&=◌, pure,
}
use telemetry_server.Ipc.Ring
use telemetry_server.Ipc.Ring.{SharedRingBuffer, Layout, pending_frames, sub_u64}
use telemetry_server.Ipc.Ring.Refine.{IsValid, contents, released, contents-released}
use telemetry_server.Protocol.Words.{Bytes}
use telemetry_server.Ipc.EventFd.{Called, After, retry_lem, consume_event}
use telemetry_server.Server.Receive.{resume_ingress_bytes}
use telemetry_server.Server.Net.{Net, NetLaws, Kernel, Event, Waited}
use telemetry_server.Server.Clients.{find}
use telemetry_server.Server.Connections.{Server, State, Method, on_world, read_client}
use telemetry_server.Server.Events.{
  Descriptors, is_running, is_listener, hang_up, read_done, no_fault, can_resume, maybe_resume,
  resume_ingress, consume_space, listen_event, space_event, client_event, handle_event, handle_one,
  handle_each, is_done, loop, serve, taken_frames,
}
use telemetry_server.Server.Events.Invariant.{Inv, Keeps}
use telemetry_server.Server.Events.Dispatch.{waited, waited-Inv, handle_one_lem, handle_each_lem}
use telemetry_server.Server.Events.Signal.{nobody_left}
use telemetry_server.Server.Events.Loop.{Returned, is_done_lem, serve_lem}

-- An event that reports neither a signal nor an error.
abbrev pub IsHarmless : Descriptors → Event → Type 0
IsHarmless d event =
    ((event.fd == d.signal_fd) ≡ false) × ((event.epollerr || event.epollhup) ≡ false)

abbrev pub Harmless : Descriptors → Waited → Type 0
Harmless d (Waited.ready events) = All (IsHarmless d) events
Harmless d Waited.interrupted = Unit
Harmless d Waited.failed = ⊥

-- The reader takes at least a frame during each wait, if there is one.
abbrev pub ReaderWorks : Net → Descriptors → Type 0
ReaderWorks n d = (w : n.World) → let (r, taken, w') = n.epoll_wait w in Harmless d r × (0 < taken)

module _ {n : Net} (laws : NetLaws n) where
  open n use {World}
  open laws use {kernel, budget}

  abbrev Succeeds : Bool → Server World → Type 0
  Succeeds ok t = ok ≡ true

  module _ (reads : (w : World) → (n.space_ready_read w).0 ≢ Called.failed) where
    consume_space-Succeeds :
        (fuel : ℕ) (s : Server World)
        → budget s.world < fuel
        → Ensures (λ ok t. (ok ≡ true) × (t.state ≡ s.state)) (consume_space n fuel s)
    unfolding consume_event
    consume_space-Succeeds fuel s h = placed (consume_event n.space_ready_read fuel s.world) (
        retry_lem n.space_ready_read budget laws.space_ready_budget (λ w. Unit) (λ ok w. ok ≡ true)
          (λ w p. go w (n.space_ready_read w).0 refl) fuel s.world tt h)
      where
        go :
            (w : World) (r : Called)
            → (n.space_ready_read w).0 ≡ r
            → After (λ v. Unit) (λ ok v. ok ≡ true) r (n.space_ready_read w).1
        go w Called.done e = refl
        go w Called.interrupted e = tt
        go w Called.failed e = absurd (reads w e)

        placed :
            (r : Option (Bool × World))
            → Ensures (λ ok w. ok ≡ true) r
            → Ensures (λ ok t. (ok ≡ true) × (t.state ≡ s.state)) (on_world s r)
        placed none q = absurd q
        placed (some (ok, w)) q = (q, refl)

    cannot_resume : (s : Server World) → s.state ≡ State.draining → can_resume s ≡ false
    unfolding can_resume
    cannot_resume s e =
        ap
          (λ st.
            is_running st
            && (s.ingress_paused && leb (Ring.pending_bytes s.ring) resume_ingress_bytes))
          e

    Succeeds-no_fault :
        (m : Method n) (event : Event) (s : Server World)
        → (event.epollerr || event.epollhup) ≡ false
        → Ensures Succeeds (m s)
        → Ensures Succeeds ((m &&= no_fault n event) s)
    Succeeds-no_fault m event s e h =
        Ensures-and Succeeds Succeeds m (no_fault n event) s h (λ t k. k) (λ t k. ap not e)

    space_event-Succeeds :
        (fuel : ℕ) (event : Event) (s : Server World)
        → s.state ≡ State.draining
        → (event.epollerr || event.epollhup) ≡ false
        → budget s.world < fuel
        → Ensures Succeeds (space_event n fuel event s)
    unfolding space_event maybe_resume
    space_event-Succeeds fuel event s d e h =
        Succeeds-no_fault
          (if event.epollin then consume_space n fuel &&= maybe_resume n else pure true) event s e
          (go event.epollin)
      where
        resumes :
            (t : Server World)
            → (b : Bool) → b ≡ false
            → Ensures Succeeds (if b then some (resume_ingress n t) else some (true, t))
        resumes t false x = refl
        resumes t true x = absurd (ground (arith, x))

        go :
            (input : Bool)
            → Ensures Succeeds
                ((if input then consume_space n fuel &&= maybe_resume n else pure true) s)
        go false = refl
        go true =
            Ensures-and (λ ok t. (ok ≡ true) × (t.state ≡ s.state)) Succeeds (consume_space n fuel)
              (maybe_resume n) s (consume_space-Succeeds fuel s h) (λ t k. k.0)
              (λ t k. resumes t (can_resume t) (cannot_resume t (k.1 ∙ d)))

    client_event-Succeeds :
        (fuel : ℕ) (event : Event) (s : Server World)
        → s.clients ≡ []
        → Ensures Succeeds (client_event n fuel event s)
    unfolding client_event read_client read_done find
    client_event-Succeeds fuel event s e = go (not s.ingress_paused && event.epollin)
      where
        begun : Server World
        begun = record s { pause_requested = false }

        Idle : Bool → Server World → Type 0
        Idle ok t = (ok ≡ true) × (t.pause_requested ≡ false)

        idle : Ensures Idle (read_client n fuel event.fd begun)
        idle = rw (ap (find event.fd) e, read_client) (refl, refl)

        done :
            (t : Server World) (pause : Bool)
            → t.pause_requested ≡ pause
            → t.pause_requested ≡ false
            → Ensures Succeeds (read_done n event t)
        done t pause x y = rw (y, read_done) refl

        go :
            (b : Bool)
            → Ensures Succeeds (
                if b
                then (read_client n fuel event.fd &&= read_done n event) begun
                else some (true, hang_up n event s))
        go false = refl
        go true =
            Ensures-and Idle Succeeds (read_client n fuel event.fd) (read_done n event) begun idle
              (λ t k. k.0) (λ t k. done t t.pause_requested refl k.1)

    module _ (fuel : ℕ) (d : Descriptors) where
      handle_one-Succeeds :
          (event : Event) (s : Server World)
          → Inv laws s
          → s.state ≡ State.draining
          → IsHarmless d event
          → budget s.world < fuel
          → Ensures Succeeds (handle_one n fuel d event s)
      unfolding handle_one handle_event
      handle_one-Succeeds event s i st e h =
          let (c, l) = i.drained st in rw (e.0) (go s.listen_fd l (event.fd == d.space_ready_fd) c)
        where
          go :
              (r : Option ℕ)
              → r ≡ none
              → (space : Bool) → s.clients ≡ []
              → Ensures Succeeds (
                  if is_listener r event.fd
                  then listen_event n fuel event s
                  else if space
                  then space_event n fuel event s
                  else client_event n fuel event s)
          go (some fd) l space c = absurd (ground (arith, l))
          go none l true c = space_event-Succeeds fuel event s st e.1 h
          go none l false c = client_event-Succeeds fuel event s c

      handle_each-Succeeds :
          (events : List Event) (s : Server World)
          → Inv laws s
          → s.state ≡ State.draining
          → All (IsHarmless d) events
          → budget s.world < fuel
          → Ensures Succeeds (handle_each n fuel d events s)
      unfolding handle_each
      handle_each-Succeeds [] s i st a h = refl
      handle_each-Succeeds (event ∷ rest) s i st a h =
          Ensures-and (λ ok t. (ok ≡ true) × Keeps laws s ok t) Succeeds (handle_one n fuel d event)
            (handle_each n fuel d rest) s
            (Ensures-both Succeeds (Keeps laws s) (handle_one n fuel d event s)
              (handle_one-Succeeds event s i st a.0 h) (handle_one_lem laws fuel d event s i h))
            (λ t k. k.0)
            (λ t k.
              handle_each-Succeeds rest t (k.1.inv refl) (k.1.drains st).0 a.1
                (omega (arith, h, k.1.fewer)))

      not_done :
          (s : Server World) (l : Layout)
          → s.ring ≡ some l
          → s.state ≡ State.draining
          → is_done s ≡ false
          → sub_u64 l.head l.tail ≢ 0
      unfolding is_done Ring.empty Ring.pending_frames
      not_done s l e st h z =
          let x : (not (is_running State.draining) && Ring.empty (some l)) ≡ false =
            subst₂ (λ a r. (not (is_running a) && Ring.empty r) ≡ false) st e h in
          ground (arith, x, z)

      fewer_pending :
          (l l' : Layout) (taken : ℕ)
          → IsValid l
          → sub_u64 l.head l.tail ≢ 0
          → 0 < taken
          → l' ≡ released l (min taken (sub_u64 l.head l.tail))
          → sub_u64 l'.head l'.tail < sub_u64 l.head l.tail
      fewer_pending l l' taken v some_left h e =
          subst (λ (k : Layout). sub_u64 k.head k.tail < sub_u64 l.head l.tail) (sym e)
            (omega arith)

      -- What the reader takes and what is left are what there was.
      taken_and_left :
          (s : Server World) (l l' : Layout) (log : List Bytes) (count : ℕ)
          → s.ring ≡ some l
          → IsValid l
          → l' ≡ released l (min count (sub_u64 l.head l.tail))
          → (log ++ taken_frames count s.ring) ++ contents l' ≡ log ++ contents l
      unfolding Ring.pending_frames
      taken_and_left s l l' log count e v same =
          let m = min count (sub_u64 l.head l.tail) in
          ap₂ (λ ring k. (log ++ taken_frames count ring) ++ contents k) e same
          ∙ append_assoc log (take m (contents l)) (contents (released l m))
          ∙ ap (λ fs. log ++ (take m (contents l) ++ fs)) (contents-released m v (omega arith))
          ∙ ap (λ fs. log ++ fs) (take-append-drop m (contents l))

      -- The loop succeeds, with the reader having taken the frames of `l` after those of `log`.
      abbrev Ends : Layout → List Bytes → Bool × List Bytes → Server World → Type 0
      Ends l log r t = (r.0 ≡ true) × (r.1 ≡ log ++ contents l)

      module _ (works : ReaderWorks n d) where
        -- Every round takes a frame at least.
        drain_lem :
            (rounds : ℕ) (log : List Bytes) (s : Server World)
            → (i : Inv laws s) → s.state ≡ State.draining
            → budget s.world < fuel
            → sub_u64 i.layout.head i.layout.tail < rounds
            → Ensures (Ends i.layout log) (loop n fuel d rounds log s)
        unfolding loop
        drain_lem zero log s i st h k = absurd (omega arith)
        drain_lem (suc rounds) log s i st h k =
            go (is_done s) refl (n.epoll_wait s.world).0 (n.epoll_wait s.world).1
              (n.epoll_wait s.world).2 (works s.world)
              (ap (λ (x : Kernel). x.registered) (laws.wait_law s.world).1)
              (laws.wait_budget s.world) (λ log' t j a b c. drain_lem rounds log' t j a b c)
          where
            less :
                is_done s ≡ false
                → (l : Layout) (count : ℕ) → 0 < count
                → l ≡ released i.layout (min count (sub_u64 i.layout.head i.layout.tail))
                → sub_u64 l.head l.tail < rounds
            less f l count p e =
                let x =
                  fewer_pending i.layout l count i.valid_ring (not_done s i.layout i.ring_is st f) p
                    e in
                omega (arith, x, k)

            same_layout :
                {r r' : SharedRingBuffer} {l l' : Layout}
                → r ≡ some l
                → r ≡ r'
                → r' ≡ some l'
                → l ≡ l'
            same_layout x y z = ground (arith, x, y, z)

            later :
                (count : ℕ) (l : Layout)
                → l ≡ released i.layout (min count (sub_u64 i.layout.head i.layout.tail))
                → (r : Bool × List Bytes) (t : Server World)
                → Ends l (log ++ taken_frames count s.ring) r t
                → Ends i.layout log r t
            later count l e r t p =
                (p.0, p.1 ∙ taken_and_left s i.layout l log count i.ring_is i.valid_ring e)

            go :
                (done : Bool)
                → is_done s ≡ done
                → (r : Waited) (count : ℕ) (w : World) → Harmless d r × (0 < count)
                → (kernel w).registered ≡ (kernel s.world).registered
                → budget w ≤ budget s.world
                → ((log' : List Bytes) (t : Server World)
                    → (j : Inv laws t) → t.state ≡ State.draining
                    → budget t.world < fuel
                    → sub_u64 j.layout.head j.layout.tail < rounds
                    → Ensures (Ends j.layout log') (loop n fuel d rounds log' t))
                → Ensures (Ends i.layout log) (
                    if done then some ((true, log), s) else elim r [
                      | Waited.ready events ↦
                          (handle_each n fuel d events >>= λ ok. elim ok [
                            | true ↦ loop n fuel d rounds (log ++ taken_frames count s.ring)
                            | false ↦ pure (false, log ++ taken_frames count s.ring)
                          ])
                            (waited laws count w s)
                      | Waited.interrupted ↦
                          loop n fuel d rounds
                            (log ++ taken_frames count s.ring)
                            (waited laws count w s)
                      | Waited.failed ↦
                          some ((false, log ++ taken_frames count s.ring), waited laws count w s)
                    ])
            go true f r count w q e b again = (
              refl,
              sym (
                  ap (λ fs. log ++ fs) (is_done_lem laws s i.layout i.ring_is f).1
                  ∙ append-nil log),
            )
            go false f Waited.failed count w q e b again = absurd q.0
            go false f Waited.interrupted count w q e b again =
                let (j, same) = waited-Inv laws count w s i e in
                Ensures-mono _ (Ends i.layout log) (loop n fuel d rounds _ (waited laws count w s))
                  (later count j.layout same)
                  (again (log ++ taken_frames count s.ring) (waited laws count w s) j st
                    (omega arith) (less f j.layout count q.1 same))
            go false f (Waited.ready events) count w q e b again =
                let (j, same) = waited-Inv laws count w s i e in
                let t = waited laws count w s in
                Ensures-bind (λ ok u. (ok ≡ true) × Keeps laws t ok u) (Ends i.layout log)
                  (handle_each n fuel d events) _ t
                  (Ensures-both Succeeds (Keeps laws t) (handle_each n fuel d events t)
                    (handle_each-Succeeds events t j st q.0 (omega arith))
                    (handle_each_lem laws fuel d events t j (omega arith)))
                  (elim [
                    | false ↦ λ u p. absurd (let x = p.0 in ground (arith, x))
                    | true ↦ λ u p.
                        let (st', ring) = p.1.drains st in
                        let v = p.1.inv refl in
                        let here = same_layout v.ring_is ring j.ring_is ∙ same in
                        Ensures-mono _ (Ends i.layout log) (loop n fuel d rounds _ u)
                          (later count v.layout here)
                          (again (log ++ taken_frames count s.ring) u v st'
                            (omega (arith, p.1.fewer)) (less f v.layout count q.1 here))
                  ])

        Ensures-Returned :
            (P Q : Bool × List Bytes → Server World → Type 0)
            (o : Option ((Bool × List Bytes) × Server World))
            → Ensures P o
            → Returned laws Q o
            → Ensures (λ r t. P r t × Q r t) o
        Ensures-Returned P Q none h k = h
        Ensures-Returned P Q (some (r, t)) h k = (h, k)

        -- A draining server that keeps the invariant, with fuel for the calls that are
        -- still to come and more rounds than frames in the ring, returns success, if the
        -- reader takes at least a frame during each wait, no wait fails or reports a
        -- signal or an error, and no read of the space counter fails. Then the reader has
        -- taken just the frames that the ring held, in order, and no client is left.
        pub serve-Succeeds :
            (rounds : ℕ) (s : Server World)
            → (i : Inv laws s) → s.state ≡ State.draining
            → budget s.world < fuel
            → sub_u64 i.layout.head i.layout.tail < rounds
            → Ensures
                (λ r t. (r.0 ≡ true) × (r.1 ≡ contents i.layout) × (t.clients ≡ []))
                (serve n fuel d rounds s)
        unfolding serve
        serve-Succeeds rounds s i st h k =
            Ensures-mono _ _ (serve n fuel d rounds s) (λ r t p. (p.0.0, p.0.1, p.1.1))
              (Ensures-Returned (Ends i.layout []) _ (serve n fuel d rounds s)
                (Ensures-bind (Ends i.layout []) (Ends i.layout []) (loop n fuel d rounds []) _ s
                  (drain_lem rounds [] s i st h k) (λ r t p. p))
                (serve_lem laws fuel d rounds (λ fd. []) s i
                  (λ fd b f.
                    let x : find fd s.clients ≡ none =
                      nobody_left laws fd s.clients (i.drained st).0 in
                    absurd (ground (arith, f, x)))
                  h))
