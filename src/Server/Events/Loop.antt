-- ===== src/Server/Events/Loop.antt =====
-- The loop of `run`: what holds when the server returns.
use telemetry_server.Base.{
  ℕ, zero, suc, min, ◌≤◌, ◌<◌, ◌≡◌, refl, ap, sym, subst, subst₂, ◌∙◌, arith, Bool, true, false,
  not, ◌&&◌, Option, none, some, List, [], ◌++◌, take, drop, take-append-drop, All, All-append,
  append-nil, append_assoc, if◌then◌else◌,
}
use telemetry_server.Base.Action.{Action, Ensures, ◌>>=◌, pure}
use telemetry_server.Ipc.Ring
use telemetry_server.Ipc.Ring.{SharedRingBuffer, Layout, pending_frames, sub_u64}
use telemetry_server.Ipc.Ring.Refine.{IsValid, contents, released, contents-released}
use telemetry_server.Protocol.Words.{Bytes}
use telemetry_server.Server.Receive.Frames.{IsAccepted}
use telemetry_server.Server.Net.{Net, NetLaws, Kernel, Waited, Input}
use telemetry_server.Server.History.{Fed, Fed-append}
use telemetry_server.Server.Connections.{Server, State, Method, with_world, remove_all_clients}
use telemetry_server.Server.Events.{
  Descriptors, is_running, handle_each, taken_frames, is_done, loop, shut_down, serve,
}
use telemetry_server.Server.Events.Invariant.{Inv, Keeps, Agrees}
use telemetry_server.Server.Events.Dispatch.{waited, waited-Inv, handle_each_lem}
use telemetry_server.Server.Events.Signal.{remove_all_clients_lem}

module _ {n : Net} (laws : NetLaws n) where
  open n use {World}
  open laws use {kernel, budget}

  -- From the ring `l` on, when the reader has already taken the frames of `log`: what it has taken in
  -- the end and what the ring then holds are those frames, those of the ring, and those that the
  -- clients' inputs have brought since the log was `start`, where `h` was not yet published.
  pub record Ran (h : ℕ → Bytes) (start : List Input) (l : Layout) (log : List Bytes)
      (r : Bool × List Bytes) (t : Server World) : Type 0 where
    pub layout : Layout
    pub more : List Bytes
    pub ring_is : t.ring ≡ some layout
    pub accepted : All IsAccepted more
    pub inputs : List Input
    pub later : ℕ → Bytes
    pub log_is : (kernel t.world).log ≡ start ++ inputs
    pub fed : Fed h inputs more later
    pub conserved : r.1 ++ contents layout ≡ (log ++ contents l) ++ more
    pub drained : r.0 ≡ true → (t.state ≡ State.draining) × (contents layout ≡ [])

  abbrev pub Result : Type 0
  Result = Bool × List Bytes

  -- What holds when the code returns before its rounds are out.
  abbrev pub Returned : (Result → Server World → Type 0) → Option (Result × Server World) → Type 0
  Returned P none = Unit
  Returned P (some (r, t)) = P r t

  Returned-mono :
      (P Q : Result → Server World → Type 0) (o : Option (Result × Server World))
      → ((r : Result) (t : Server World) → P r t → Q r t)
      → Returned P o
      → Returned Q o
  Returned-mono P Q none k h = h
  Returned-mono P Q (some (r, t)) k h = k r t h

  Ran-stop :
      (h : ℕ → Bytes) (l : Layout) (log : List Bytes) (t : Server World)
      → t.ring ≡ some l
      → Ran h (kernel t.world).log l log (false, log) t
  Ran-stop h l log t e = record {
    layout = l;
    more = [];
    ring_is = e;
    accepted = tt;
    inputs = [];
    later = h;
    log_is = sym (append-nil (kernel t.world).log);
    fed = (refl, refl);
    conserved = sym (append-nil (log ++ contents l));
    drained = λ x. absurd (ground (arith, x));
  }

  -- The reader takes the first frames.
  Ran-wait :
      (g : ℕ → Bytes) (start : List Input) (l : Layout) (log : List Bytes) (count : ℕ)
      → IsValid l
      → count ≤ sub_u64 l.head l.tail
      → (r : Result) (t : Server World)
      → Ran g start (released l count) (log ++ take count (contents l)) r t
      → Ran g start l log r t
  Ran-wait g start l log count v h r t p = record {
    inputs = p.inputs;
    later = p.later;
    log_is = p.log_is;
    fed = p.fed;
    layout = p.layout;
    more = p.more;
    ring_is = p.ring_is;
    accepted = p.accepted;
    conserved =
        p.conserved
        ∙ ap (λ fs. fs ++ p.more)
            (ap (λ fs. (log ++ take count (contents l)) ++ fs) (contents-released count v h)
              ∙ append_assoc log (take count (contents l)) (drop count (contents l))
              ∙ ap (λ fs. log ++ fs) (take-append-drop count (contents l)));
    drained = p.drained;
  }

  Ran-grow :
      (g g' : ℕ → Bytes) (start new : List Input) (l l' : Layout) (log added : List Bytes)
      → All IsAccepted added
      → contents l' ≡ contents l ++ added
      → Fed g new added g'
      → (r : Result) (t : Server World) → Ran g' (start ++ new) l' log r t
      → Ran g start l log r t
  Ran-grow g g' start new l l' log added a e f r t p = record {
    inputs = new ++ p.inputs;
    later = p.later;
    log_is = p.log_is ∙ append_assoc start new p.inputs;
    fed = Fed-append g g' p.later new p.inputs added p.more f p.fed;
    layout = p.layout;
    more = added ++ p.more;
    ring_is = p.ring_is;
    accepted = All-append IsAccepted added p.more a p.accepted;
    conserved =
        p.conserved
        ∙ ap (λ fs. (log ++ fs) ++ p.more) e
        ∙ ap (λ fs. fs ++ p.more) (sym (append_assoc log (contents l) added))
        ∙ append_assoc (log ++ contents l) added p.more;
    drained = p.drained;
  }

  pub is_done_lem :
      (s : Server World) (l : Layout)
      → s.ring ≡ some l
      → is_done s ≡ true
      → (s.state ≡ State.draining) × (contents l ≡ [])
  unfolding is_done Ring.empty Ring.pending_frames
  is_done_lem s l e h = go s.state s.ring refl e h
    where
      go :
          (state : State) (ring : SharedRingBuffer)
          → s.state ≡ state
          → ring ≡ some l
          → (not (is_running state) && Ring.empty ring) ≡ true
          → (s.state ≡ State.draining) × (contents l ≡ [])
      go State.running ring x y z = absurd (ground (arith, z))
      go State.draining ring x y z =
          let z' : Ring.empty (some l) ≡ true = subst (λ r. Ring.empty r ≡ true) y z in
          let none_left : sub_u64 l.head l.tail ≡ 0 = ground (arith, z') in (x, rw none_left refl)

  shut_down_lem :
      (s : Server World)
      → let t = shut_down n s in
        (t.clients ≡ [])
        × (t.ring ≡ s.ring)
        × (t.state ≡ s.state)
        × ((kernel t.world).log ≡ (kernel s.world).log)
  unfolding shut_down
  shut_down_lem s =
      let c = remove_all_clients_lem laws s in
      go (remove_all_clients n s).listen_fd (c.no_clients, c.same_ring, c.same_state, c.same_log)
    where
      t : Server World
      t = remove_all_clients n s

      Closed : Server World → Type 0
      Closed u =
          (u.clients ≡ [])
          × (u.ring ≡ s.ring)
          × (u.state ≡ s.state)
          × ((kernel u.world).log ≡ (kernel s.world).log)

      go :
          (r : Option ℕ)
          → Closed t
          → Closed (elim r [ none ↦ t | some fd ↦ with_world t (n.close fd t.world) ])
      go none c = c
      go (some fd) c = (c.0, c.1, c.2, ap (λ (x : Kernel). x.log) (laws.close_law fd t.world) ∙ c.3)

  module _ (fuel : ℕ) (d : Descriptors) where
    -- What follows the events of a round.
    abbrev go_on : ℕ → List Bytes → Bool → Action (Server World) Result
    go_on rounds log ok = elim ok [ true ↦ loop n fuel d rounds log | false ↦ pure (false, log) ]

    -- From `s`, which keeps the invariant, the next round.
    module _ (g : ℕ → Bytes) (s : Server World) (i : Inv laws s) (log : List Bytes) (count : ℕ)
        (w : World) where
      abbrev next : Server World
      next = waited laws count w s

      abbrev next_log : List Bytes
      next_log = log ++ taken_frames count s.ring

      module _ (e : (kernel w).registered ≡ (kernel s.world).registered)
          (same_log : (kernel w).log ≡ (kernel s.world).log) (agrees : Agrees laws g s)
          (h : budget w ≤ budget s.world) (enough : budget s.world < fuel) where
        abbrev inv : Inv laws next
        inv = (waited-Inv laws count w s i e).0

        Ran-next :
            (r : Result) (t : Server World)
            → Ran g (kernel w).log inv.layout next_log r t
            → Ran g (kernel s.world).log i.layout log r t
        unfolding Ring.pending_frames
        Ran-next r t p =
            Ran-wait g (kernel s.world).log i.layout log
              (min count (sub_u64 i.layout.head i.layout.tail)) i.valid_ring (omega arith) r t
              (subst
                (λ start.
                  Ran g start (released i.layout (min count (sub_u64 i.layout.head i.layout.tail)))
                    (log
                      ++ take (min count (sub_u64 i.layout.head i.layout.tail)) (contents i.layout))
                    r t)
                same_log
                (subst₂ (λ l ring. Ran g (kernel w).log l (log ++ taken_frames count ring) r t)
                  (waited-Inv laws count w s i e).1 i.ring_is p))

        Ran-events :
            (rounds : ℕ)
            → ((g' : ℕ → Bytes) (t : Server World)
                → (j : Inv laws t) → Agrees laws g' t
                → budget t.world < fuel
                → Returned
                    (Ran g' (kernel t.world).log j.layout next_log)
                    (loop n fuel d rounds next_log t))
            → (ok : Bool) (t : Server World) → Keeps laws next ok t
            → Returned (Ran g (kernel w).log inv.layout next_log) (go_on rounds next_log ok t)
        Ran-events rounds again false t k =
            let x = k.grows g inv.layout agrees inv.ring_is in
            Ran-grow g x.later (kernel w).log x.inputs inv.layout x.layout next_log x.more
              x.accepted x.contents_are x.fed (false, next_log) t
              (subst (λ start. Ran x.later start x.layout next_log (false, next_log) t) x.log_is
                (Ran-stop x.later x.layout next_log t x.ring_is))
        Ran-events rounds again true t k =
            let x = k.grows g inv.layout agrees inv.ring_is in
            let j = k.inv refl in
            let same : x.layout ≡ j.layout =
              (let q = j.ring_is in let r = x.ring_is in ground (arith, r, q)) in
            Returned-mono (Ran x.later (kernel t.world).log j.layout next_log)
              (Ran g (kernel w).log inv.layout next_log) (loop n fuel d rounds next_log t)
              (λ r u p.
                Ran-grow g x.later (kernel w).log x.inputs inv.layout j.layout next_log x.more
                  x.accepted (ap contents (sym same) ∙ x.contents_are) x.fed r u
                  (subst (λ start. Ran x.later start j.layout next_log r u) x.log_is p))
              (again x.later t j (x.agrees refl) (omega (arith, k.fewer)))

    Returned-bind :
        (P : Bool → Server World → Type 0) (R : Result → Server World → Type 0) (m : Method n)
        (f : Bool → Action (Server World) Result) (s : Server World)
        → Ensures P (m s)
        → ((ok : Bool) (t : Server World) → P ok t → Returned R (f ok t))
        → Returned R ((m >>= f) s)
    Returned-bind P R m f s h k = go (m s) h
      where
        go :
            (o : Option (Bool × Server World))
            → Ensures P o
            → Returned R (elim o [ none ↦ none | some (ok, t) ↦ f ok t ])
        go none q = absurd q
        go (some (ok, t)) q = k ok t q

    -- `rounds` bounds the calls of `epoll_wait`.
    pub loop_lem :
        (rounds : ℕ) (g : ℕ → Bytes) (log : List Bytes) (s : Server World)
        → (i : Inv laws s) → Agrees laws g s
        → budget s.world < fuel
        → Returned (Ran g (kernel s.world).log i.layout log) (loop n fuel d rounds log s)
    unfolding loop
    loop_lem zero g log s i a h = tt
    loop_lem (suc rounds) g log s i a h =
        let (signals, k) = laws.wait_law s.world in
        go (is_done s) refl (n.epoll_wait s.world).0 (n.epoll_wait s.world).1
          (n.epoll_wait s.world).2 (ap (λ (x : Kernel). x.registered) k)
          (ap (λ (x : Kernel). x.log) k) (laws.wait_budget s.world)
          (λ g' log' t j b x. loop_lem rounds g' log' t j b x)
      where
        go :
            (done : Bool)
            → is_done s ≡ done
            → (r : Waited) (count : ℕ) (w : World)
            → (kernel w).registered ≡ (kernel s.world).registered
            → (kernel w).log ≡ (kernel s.world).log
            → budget w ≤ budget s.world
            → ((g' : ℕ → Bytes) (log' : List Bytes) (t : Server World)
                → (j : Inv laws t) → Agrees laws g' t
                → budget t.world < fuel
                → Returned
                    (Ran g' (kernel t.world).log j.layout log')
                    (loop n fuel d rounds log' t))
            → Returned (Ran g (kernel s.world).log i.layout log) (
                if done then some ((true, log), s) else elim r [
                  | Waited.ready events ↦
                      (handle_each n fuel d events
                          >>= go_on rounds (log ++ taken_frames count s.ring))
                        (waited laws count w s)
                  | Waited.interrupted ↦
                      loop n fuel d rounds
                        (log ++ taken_frames count s.ring)
                        (waited laws count w s)
                  | Waited.failed ↦
                      some ((false, log ++ taken_frames count s.ring), waited laws count w s)
                ])
        go true f r count w e m b again = record {
          inputs = [];
          later = g;
          log_is = sym (append-nil (kernel s.world).log);
          fed = (refl, refl);
          layout = i.layout;
          more = [];
          ring_is = i.ring_is;
          accepted = tt;
          conserved = sym (append-nil (log ++ contents i.layout));
          drained = λ x. is_done_lem s i.layout i.ring_is f;
        }
        go false f Waited.failed count w e m b again =
            Ran-next g s i log count w e m a b h (false, next_log g s i log count w)
              (waited laws count w s)
              (Ran-stop g (inv g s i log count w e m a b h).layout (next_log g s i log count w)
                (waited laws count w s) (inv g s i log count w e m a b h).ring_is)
        go false f Waited.interrupted count w e m b again =
            Returned-mono _ (Ran g (kernel s.world).log i.layout log)
              (loop n fuel d rounds _ (waited laws count w s))
              (Ran-next g s i log count w e m a b h)
              (again g (next_log g s i log count w) (waited laws count w s)
                (inv g s i log count w e m a b h) a (omega arith))
        go false f (Waited.ready events) count w e m b again =
            Returned-mono _ (Ran g (kernel s.world).log i.layout log) _
              (Ran-next g s i log count w e m a b h)
              (Returned-bind (Keeps laws (waited laws count w s)) _ (handle_each n fuel d events) _
                (waited laws count w s)
                (handle_each_lem laws fuel d events (waited laws count w s)
                  (inv g s i log count w e m a b h) (omega arith))
                (Ran-events g s i log count w e m a b h rounds
                  (λ g' t j x y. again g' (next_log g s i log count w) t j x y)))

    pub serve_lem :
        (rounds : ℕ) (g : ℕ → Bytes) (s : Server World)
        → (i : Inv laws s) → Agrees laws g s
        → budget s.world < fuel
        → Returned
            (λ r t. Ran g (kernel s.world).log i.layout [] r t × (t.clients ≡ []))
            (serve n fuel d rounds s)
    unfolding serve
    serve_lem rounds g s i a h = go (loop n fuel d rounds [] s) (loop_lem rounds g [] s i a h)
      where
        go :
            (o : Option (Result × Server World))
            → Returned (Ran g (kernel s.world).log i.layout []) o
            → Returned
                (λ r t. Ran g (kernel s.world).log i.layout [] r t × (t.clients ≡ []))
                (elim o [ none ↦ none | some (r, t) ↦ some (r, shut_down n t) ])
        go none q = q
        go (some (r, t)) q =
            let (c, e, st, l) = shut_down_lem t in
            (
              record {
                layout = q.layout;
                more = q.more;
                inputs = q.inputs;
                later = q.later;
                log_is = l ∙ q.log_is;
                fed = q.fed;
                ring_is = e ∙ q.ring_is;
                accepted = q.accepted;
                conserved = q.conserved;
                drained = λ x. (st ∙ (q.drained x).0, (q.drained x).1);
              },
              c,
            )
