-- ===== src/Server/Events/Client.antt =====
-- An event of a client: reading from it, pausing the ingress, and closing it when it has hung up.
use native.Mathlib.Decide.{ℕ_discrete}
use telemetry_server.Base.{
  ℕ, ◌<◌, ◌≡◌, ◌≢◌, inl, refl, ap, sym, subst, ◌∙◌, arith, Bool, true, false, not, ◌&&◌, ◌||◌,
  Option, none, some, [], ◌++◌, if◌then◌else◌,
}
use telemetry_server.Base.Action.{Ensures, Ensures-mono, Ensures-and, ◌&&=◌}
use telemetry_server.Ipc.Ring.Slots.{split_frames}
use telemetry_server.Ipc.Ring.Refine.{contents}
use telemetry_server.Server.Buffer.{Buffer}
use telemetry_server.Server.Net.{Net, NetLaws, Event}
use telemetry_server.Server.Clients.{Clients, find, find-empty}
use telemetry_server.Server.Ingress.{Watches, update_ingress_interest, update_ingress_interest_lem}
use telemetry_server.Server.Connections.{Server, State, with_world, remove_client, read_client}
use telemetry_server.Server.Connections.Removal.{Gone, remove_client-Gone}
use telemetry_server.Server.Connections.Reading.{Reads, unpublished}
use telemetry_server.Server.Connections.Rounds.{read_client_lem}
use telemetry_server.Server.Events.{has_client, hang_up, pause_ingress, read_done, client_event}
use telemetry_server.Server.Events.Invariant.{
  Grows, Grows-trans, Fits, Inv, Keeps, Keeps-trans, Keeps-same, Keeps-pure,
}

module _ {n : Net} (laws : NetLaws n) where
  open n use {World}
  open laws use {kernel, budget}

  -- A table without clients has none after one is removed.
  still_empty :
      (cs cs' : Clients) → cs ≡ [] → ((fd : ℕ) → find fd cs' ≢ none → find fd cs ≢ none) → cs' ≡ []
  unfolding find
  still_empty cs cs' e h = find-empty cs' λ fd. go fd (find fd cs') refl
    where
      go : (fd : ℕ) (r : Option Buffer) → find fd cs' ≡ r → find fd cs' ≡ none
      go fd none x = x
      go fd (some b) x = absurd (h fd (λ y. absurd (ground (arith, x, y))) (ap (find fd) e))

  pub Gone-Fits :
      (fd : ℕ) (crowded : Bool) (s t : Server World)
      → Fits laws crowded s
      → Gone laws fd s t
      → Fits laws crowded t
  Gone-Fits fd crowded s t i g = record {
    layout = i.layout;
    ring_is = g.apart.same_ring ∙ i.ring_is;
    valid_ring = i.valid_ring;
    not_closed = i.not_closed;
    roomy = i.roomy;
    in_order = λ other b f. elim (ℕ_discrete other fd) [
      | yes same ↦ absurd (nobody other same (λ x. absurd (ground (arith, f, x))))
      | no ne ↦ i.in_order other b (sym (g.apart.same_clients other ne) ∙ f)
    ];
    watched = λ other h. elim (ℕ_discrete other fd) [
      | yes same ↦ absurd (nobody other same h)
      | no ne ↦
          g.apart.same_watch other ne
          ∙ i.watched other (λ x. h (g.apart.same_clients other ne ∙ x))
          ∙ ap not (sym g.apart.same_pause)
    ];
    listens = λ r.
        let (listen_fd, e) = i.listens (sym g.apart.same_state ∙ r) in
        (listen_fd, g.apart.same_listener ∙ e);
    drained = λ d.
        let (c, e) = i.drained (sym g.apart.same_state ∙ d) in
        (still_empty s.clients t.clients c was, g.apart.same_listener ∙ e);
  }
    where
      nobody : (other : ℕ) → other ≡ fd → ¬ find other t.clients ≢ none
      nobody other same h = h (ap (λ k. find k t.clients) same ∙ g.no_client)

      was : (other : ℕ) → find other t.clients ≢ none → find other s.clients ≢ none
      was other h x = elim (ℕ_discrete other fd) [
        | yes same ↦ nobody other same h
        | no ne ↦ h (g.apart.same_clients other ne ∙ x)
      ]

  Gone-was :
      (fd : ℕ) (s t : Server World)
      → Gone laws fd s t
      → (other : ℕ) (b : Buffer) → find other t.clients ≡ some b
      → find other s.clients ≡ some b
  Gone-was fd s t g other b f = elim (ℕ_discrete other fd) [
    | yes same ↦
        let x : find other t.clients ≡ none = ap (λ k. find k t.clients) same ∙ g.no_client in
        absurd (ground (arith, f, x))
    | no ne ↦ sym (g.apart.same_clients other ne) ∙ f
  ]

  hang_up_lem :
      (event : Event) (s : Server World) → Inv laws s → Keeps laws s true (hang_up n event s)
  unfolding hang_up
  hang_up_lem event s i =
      go s.ingress_paused (event.epollrdhup || (event.epollhup || event.epollerr))
        (has_client (find event.fd s.clients))
    where
      removed : Gone laws event.fd s (remove_client n event.fd s)
      removed = remove_client-Gone laws event.fd s

      go :
          (paused hung there : Bool)
          → Keeps laws s true (
              if paused
              then s
              else if hung
              then (if there then remove_client n event.fd s else s)
              else s)
      go true hung there = Keeps-pure laws s true i
      go false false there = Keeps-pure laws s true i
      go false true false = Keeps-pure laws s true i
      go false true true =
          Keeps-same laws s true (remove_client n event.fd s) removed.apart.same_ring
            removed.apart.same_state removed.apart.same_log (Gone-was event.fd s _ removed)
            (λ x.
              subst (λ b. Fits laws b (remove_client n event.fd s)) (sym removed.apart.same_pause)
                (Gone-Fits event.fd s.ingress_paused s _ i removed))
            removed.apart.fewer

  pause_ingress_lem :
      (s : Server World) (fd : ℕ)
      → (i : Fits laws true s) → s.state ≡ State.running
      → s.listen_fd ≡ some fd
      → let (done, t) = pause_ingress n s in Keeps laws s done t
  unfolding pause_ingress
  pause_ingress_lem s fd i r e =
      go (update_ingress_interest n false s).0 (update_ingress_interest n false s).1
        (update_ingress_interest_lem laws false s fd e)
    where
      go :
          (done : Bool) (w : World)
          → Watches laws false s.clients s.world done w
          → let (done', t) =
              if◌then◌else◌ {A = Bool × Server World} done
                (true, record s { ingress_paused = true; world = w })
                (false, with_world s w) in
            Keeps laws s done' t
      go false w k =
          Keeps-same laws s false (with_world s w) refl refl k.same_log (λ fd b f. f)
            (λ x. absurd (ground (arith, x))) k.fewer
      go true w k =
          Keeps-same laws s true (record s { ingress_paused = true; world = w }) refl refl
            k.same_log (λ fd b f. f)
            (λ x. record {
              layout = i.layout;
              ring_is = i.ring_is;
              valid_ring = i.valid_ring;
              not_closed = i.not_closed;
              roomy = λ y. absurd (ground (arith, y));
              in_order = i.in_order;
              watched = λ other f. k.watched refl other (inl f);
              listens = i.listens;
              drained = λ d. absurd (ground (arith, d, r));
            })
            k.fewer

  -- After a reading that did not stop the server.
  read_done_lem :
      (event : Event) (s : Server World)
      → Fits laws s.pause_requested s
      → s.state ≡ State.running
      → s.ingress_paused ≡ false
      → Ensures (Keeps laws s) (read_done n event s)
  unfolding read_done
  read_done_lem event s i r p = go s.pause_requested i
    where
      go :
          (pause : Bool)
          → Fits laws pause s
          → Ensures
              (Keeps laws s)
              (if pause then some (pause_ingress n s) else some (true, hang_up n event s))
      go false i = hang_up_lem event s (subst (λ b. Fits laws b s) (sym p) i)
      go true i = let (fd, e) = i.listens r in pause_ingress_lem s fd i r e

  -- `l` and `b` are the ring and the client before the reading.
  module _ (fd : ℕ) (b : Buffer) (s : Server World) (i : Inv laws s)
      (f : find fd s.clients ≡ some b) where
    reading : State.running ≡ s.state
    unfolding find
    reading = go s.state refl
      where
        go : (state : State) → s.state ≡ state → State.running ≡ state
        go State.running e = refl
        go State.draining e =
            let (c, l) = i.drained e in
            let x : find fd s.clients ≡ none = ap (find fd) c in absurd (ground (arith, f, x))

    module _ (ok : Bool) (t : Server World) (r : Reads laws fd b i.layout s ok t) where
      Reads-Fits : ok ≡ true → Fits laws t.pause_requested t
      Reads-Fits e = record {
        layout = r.layout;
        ring_is = r.ring_is;
        valid_ring = r.valid_ring;
        not_closed = r.not_closed;
        roomy = r.roomy e;
        in_order = λ other c g. elim (ℕ_discrete other fd) [
          | yes same ↦ (r.rest c (subst (λ k. find k t.clients ≡ some c) same g) e).0
          | no ne ↦ i.in_order other c (sym (r.frame.same_clients other ne) ∙ g)
        ];
        watched = λ other h. elim (ℕ_discrete other fd) [
          | yes same ↦
              subst (λ k. (kernel t.world).registered k ≡ not t.ingress_paused) (sym same)
                (watched_still (subst (λ k. find k t.clients ≢ none) same h))
          | no ne ↦
              r.frame.same_watch other ne
              ∙ i.watched other (λ x. h (r.frame.same_clients other ne ∙ x))
              ∙ ap not (sym r.frame.same_pause)
        ];
        listens = λ x.
            let (listen_fd, y) = i.listens (sym reading) in (listen_fd, r.frame.same_listener ∙ y);
        drained = λ d.
            let x : State.running ≡ State.draining = reading ∙ sym r.frame.same_state ∙ d in
            absurd (ground (arith, x));
      }
        where
          watched_still :
              find fd t.clients ≢ none → (kernel t.world).registered fd ≡ not t.ingress_paused
          watched_still h =
              r.frame.still_watched h
              ∙ i.watched fd (r.frame.was_there h)
              ∙ ap not (sym r.frame.same_pause)

      Reads-Grows : Grows laws s ok t
      Reads-Grows h l a e =
          let same : i.layout ≡ l = ground (arith, i.ring_is, e) in
          let (later, told, left) = r.history h (a fd b f) in
          record {
            layout = r.layout;
            more = split_frames r.count (unpublished laws fd b s);
            inputs = told.inputs;
            later = later;
            ring_is = r.ring_is;
            accepted = r.accepted;
            contents_are =
                r.contents_are
                ∙ ap (λ k. contents k ++ split_frames r.count (unpublished laws fd b s)) same;
            log_is = told.log_is;
            fed = told.fed;
            agrees = λ x other c g. elim (ℕ_discrete other fd) [
              | yes other_is ↦
                  ap later other_is ∙ left c (subst (λ k. find k t.clients ≡ some c) other_is g) x
              | no ne ↦ told.others other ne ∙ a other c (sym (r.frame.same_clients other ne) ∙ g)
            ];
          }

    reads_lem :
        (event : Event) (fuel : ℕ)
        → s.pause_requested ≡ false
        → s.ingress_paused ≡ false
        → budget s.world < fuel
        → Ensures (Keeps laws s) ((read_client n fuel fd &&= read_done n event) s)
    reads_lem event fuel q p h =
        Ensures-and (Reads laws fd b i.layout s) (Keeps laws s) (read_client n fuel fd)
          (read_done n event) s
          (read_client_lem laws fuel fd b i.layout s i.ring_is (i.roomy p) f (i.in_order fd b f) q
            h)
          (λ t r. after false t r (λ e. absurd (ground (arith, e))))
          (λ t r.
            Ensures-mono (Keeps laws t) (Keeps laws s) (read_done n event t)
              (λ ok u k. Keeps-after t r ok u k)
              (read_done_lem event t (Reads-Fits true t r refl) (r.frame.same_state ∙ sym reading)
                (r.frame.same_pause ∙ p)))
      where
        drains : {A : Type 0} → s.state ≡ State.draining → A
        drains d =
            let x : State.running ≡ State.draining = reading ∙ d in absurd (ground (arith, x))

        after :
            (ok : Bool) (t : Server World)
            → Reads laws fd b i.layout s ok t
            → (ok ≡ true → Inv laws t)
            → Keeps laws s ok t
        after ok t r k = record {
          inv = k;
          grows = Reads-Grows ok t r;
          drains = λ d. drains d;
          fewer = r.frame.fewer;
        }

        Keeps-after :
            (t : Server World)
            → Reads laws fd b i.layout s true t
            → (ok : Bool) (u : Server World) → Keeps laws t ok u
            → Keeps laws s ok u
        Keeps-after t r ok u k = record {
          inv = k.inv;
          grows = Grows-trans laws s t ok u (Reads-Grows true t r) k.grows;
          drains = λ d. drains d;
          fewer = omega (arith, r.frame.fewer, k.fewer);
        }

  pub client_event_lem :
      (fuel : ℕ) (event : Event) (s : Server World)
      → Inv laws s
      → budget s.world < fuel
      → Ensures (Keeps laws s) (client_event n fuel event s)
  unfolding client_event read_client read_done
  client_event_lem fuel event s i h = go s.ingress_paused event.epollin refl
    where
      begun : Server World
      begun = record s { pause_requested = false }

      begun_Inv : Inv laws begun
      begun_Inv = record {
        layout = i.layout;
        ring_is = i.ring_is;
        valid_ring = i.valid_ring;
        not_closed = i.not_closed;
        roomy = i.roomy;
        in_order = i.in_order;
        watched = i.watched;
        listens = i.listens;
        drained = i.drained;
      }

      begun_Keeps : Keeps laws s true begun
      begun_Keeps =
          Keeps-same laws s true begun refl refl refl (λ fd b f. f) (λ x. begun_Inv) (omega arith)

      Idle : Bool → Server World → Type 0
      Idle ok t = (ok ≡ true) × (t ≡ begun)

      idle : find event.fd s.clients ≡ none → Ensures Idle (read_client n fuel event.fd begun)
      idle e = rw (e, read_client) (refl, refl)

      found :
          (r : Option Buffer)
          → find event.fd s.clients ≡ r
          → s.ingress_paused ≡ false
          → Ensures (Keeps laws begun) ((read_client n fuel event.fd &&= read_done n event) begun)
      found (some b) e p = reads_lem event.fd b begun begun_Inv e event fuel refl p h
      found none e p =
          Ensures-and Idle (Keeps laws begun) (read_client n fuel event.fd) (read_done n event)
            begun (idle e) (λ t q. absurd (let x = q.0 in ground (arith, x)))
            (λ t q.
              subst (λ u. Ensures (Keeps laws begun) (read_done n event u)) (sym q.1)
                (hang_up_lem event begun begun_Inv))

      go :
          (paused input : Bool)
          → s.ingress_paused ≡ paused
          → Ensures (Keeps laws s) (
              if not paused && input
              then (read_client n fuel event.fd &&= read_done n event) begun
              else some (true, hang_up n event s))
      go true input e = hang_up_lem event s i
      go false false e = hang_up_lem event s i
      go false true e =
          Ensures-mono (Keeps laws begun) (Keeps laws s)
            ((read_client n fuel event.fd &&= read_done n event) begun)
            (λ ok u. Keeps-trans laws s begun ok u begun_Keeps)
            (found (find event.fd s.clients) refl e)
