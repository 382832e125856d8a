-- ===== src/Server/Connections/Removal.antt =====
-- What a removed client and a notification leave alone.
use telemetry_server.Base.{
  ℕ, ◌≤◌, ◌<◌, ◌≡◌, ◌≢◌, ◌⊎◌, inl, inr, refl, ap, ◌∙◌, arith, Bool, true, false, Option, none, some,
  ==_of_ne, ==_of_eq, ◌==◌, if◌then◌else◌,
}
use telemetry_server.Base.Action.{Ensures, Ensures-bind}
use telemetry_server.Ipc.EventFd.{Called, After, Patience, retry_lem, notify_event}
use telemetry_server.Server.Receive.{Outcome}
use telemetry_server.Server.Net.{Net, NetLaws, Kernel, EpollLaw, with_registered}
use telemetry_server.Server.Clients.{find, find-erase, find-erase_self}
use telemetry_server.Server.Connections.{
  Server, Next, with_world, on_world, remove_client, notify_published, conclude,
}

-- Some call of `eventfd_write` on the data descriptor fails.
abbrev pub CannotNotify : Net → Type 0
CannotNotify n = (w : n.World) × ((n.data_ready_write w).0 ≡ Called.failed)

module _ {n : Net} (laws : NetLaws n) where
  open n use {World}
  open laws use {kernel, budget}

  -- The client `fd` may be gone; all else but its place in the table is as it was.
  pub record Apart (fd : ℕ) (s t : Server World) : Type 0 where
    pub same_ring : t.ring ≡ s.ring
    pub same_request : t.pause_requested ≡ s.pause_requested
    pub same_listener : t.listen_fd ≡ s.listen_fd
    pub same_state : t.state ≡ s.state
    pub same_pause : t.ingress_paused ≡ s.ingress_paused
    pub same_unread : (kernel t.world).unread ≡ (kernel s.world).unread
    pub same_log : (kernel t.world).log ≡ (kernel s.world).log
    pub same_signals : (kernel t.world).signals ≡ (kernel s.world).signals
    pub same_watch :
        (other : ℕ)
        → other ≢ fd
        → (kernel t.world).registered other ≡ (kernel s.world).registered other
    pub same_clients : (other : ℕ) → other ≢ fd → find other t.clients ≡ find other s.clients
    pub fewer : budget t.world ≤ budget s.world

  -- The client is still there, and watched as before.
  pub record Stays (fd : ℕ) (s t : Server World) : Type 0 where
    pub apart : Apart fd s t
    pub same_client : find fd t.clients ≡ find fd s.clients
    pub same_registered : (kernel t.world).registered fd ≡ (kernel s.world).registered fd

  pub record Gone (fd : ℕ) (s t : Server World) : Type 0 where
    pub apart : Apart fd s t
    pub no_client : find fd t.clients ≡ none
    pub unwatched : (kernel t.world).registered fd ≡ false

  -- After a call that observes nothing.
  pub Stays-world :
      (fd : ℕ) (s : Server World) (w : World)
      → kernel w ≡ kernel s.world
      → budget w ≤ budget s.world
      → Stays fd s (with_world s w)
  Stays-world fd s w e b = record {
    apart = record {
      same_ring = refl;
      same_request = refl;
      same_listener = refl;
      same_state = refl;
      same_pause = refl;
      same_unread = ap (λ (k : Kernel). k.unread) e;
      same_log = ap (λ (k : Kernel). k.log) e;
      same_signals = ap (λ (k : Kernel). k.signals) e;
      same_watch = λ other ne. ap (λ (k : Kernel). k.registered other) e;
      same_clients = λ other ne. refl;
      fewer = b;
    };
    same_client = refl;
    same_registered = ap (λ (k : Kernel). k.registered fd) e;
  }

  pub remove_client-Gone : (fd : ℕ) (s : Server World) → Gone fd s (remove_client n fd s)
  unfolding remove_client
  remove_client-Gone fd s = record {
    apart = record {
      same_ring = refl;
      same_request = refl;
      same_listener = refl;
      same_state = refl;
      same_pause = refl;
      same_unread =
          ap (λ (k : Kernel). k.unread) closes
          ∙ (deletes (n.epoll_delete fd s.world).0 (laws.delete_law fd s.world)).0;
      same_log =
          ap (λ (k : Kernel). k.log) closes
          ∙ (deletes (n.epoll_delete fd s.world).0 (laws.delete_law fd s.world)).1;
      same_signals =
          ap (λ (k : Kernel). k.signals) closes
          ∙ (deletes (n.epoll_delete fd s.world).0 (laws.delete_law fd s.world)).2;
      same_watch = λ other ne.
          ap (λ (k : Kernel). k.registered other) closes
          ∙ rw (==_of_ne ne)
              ((deletes (n.epoll_delete fd s.world).0 (laws.delete_law fd s.world)).3 other ne);
      same_clients = λ other ne. find-erase fd other s.clients ne;
      fewer = omega (arith, laws.close_budget fd w, laws.delete_budget fd s.world);
    };
    no_client = find-erase_self fd s.clients;
    unwatched =
        let same : (fd == fd) ≡ true = ==_of_eq refl in
        ap (λ (k : Kernel). k.registered fd) closes ∙ rw same refl;
  }
    where
      w : World
      w = (n.epoll_delete fd s.world).1

      closes : kernel (n.close fd w) ≡ with_registered (kernel w) fd false
      closes = laws.close_law fd w

      deletes :
          (deleted : Bool)
          → EpollLaw fd false (kernel s.world) deleted (kernel w)
          → ((kernel w).unread ≡ (kernel s.world).unread)
            × ((kernel w).log ≡ (kernel s.world).log)
            × ((kernel w).signals ≡ (kernel s.world).signals)
            × ((other : ℕ)
                → other ≢ fd
                → (kernel w).registered other ≡ (kernel s.world).registered other)
      deletes true e = (
        ap (λ (k : Kernel). k.unread) e,
        ap (λ (k : Kernel). k.log) e,
        ap (λ (k : Kernel). k.signals) e,
        λ other ne. ap (λ (k : Kernel). k.registered other) e ∙ rw (==_of_ne ne) refl,
      )
      deletes false e = (
        ap (λ (k : Kernel). k.unread) e,
        ap (λ (k : Kernel). k.log) e,
        ap (λ (k : Kernel). k.signals) e,
        λ other ne. ap (λ (k : Kernel). k.registered other) e,
      )

  abbrev Same : World → World → Type 0
  Same v w = (kernel w ≡ kernel v) × (budget w ≤ budget v)

  -- When a notification fails, so does a call of `eventfd_write`.
  abbrev Notified : World → Bool → World → Type 0
  Notified v ok w = Same v w × (ok ≡ false → CannotNotify n)

  notify_lem :
      (fuel : ℕ) (v : World)
      → budget v < fuel
      → Ensures (Notified v) (notify_event n.data_ready_write fuel v)
  unfolding notify_event
  notify_lem fuel v h =
      retry_lem n.data_ready_write budget laws.data_ready_budget (Same v) (Notified v)
        (λ w p.
          written w p (n.data_ready_write w).0 refl (laws.data_ready_law w)
            (laws.data_ready_budget w))
        fuel v (refl, omega arith) h
    where
      written :
          (w : World)
          → Same v w
          → (r : Called) → (n.data_ready_write w).0 ≡ r
          → kernel (n.data_ready_write w).1 ≡ kernel w
          → Patience (budget w) r (budget (n.data_ready_write w).1)
          → After (Same v) (Notified v) r (n.data_ready_write w).1
      written w p Called.done e k b =
          ((k ∙ p.0, omega (arith, p.1, b)), λ f. absurd (ground (arith, f)))
      written w p Called.interrupted e k b = (k ∙ p.0, omega (arith, p.1, b))
      written w p Called.failed e k b = ((k ∙ p.0, omega (arith, p.1, b)), λ f. (w, e))

  pub notify_published_lem :
      (fuel fd : ℕ) (published : Bool) (s : Server World)
      → budget s.world < fuel
      → Ensures
          (λ ok t. Stays fd s t × (ok ≡ false → CannotNotify n))
          (notify_published n fuel published s)
  unfolding notify_published
  notify_published_lem fuel fd false s h =
      (Stays-world fd s s.world refl (omega arith), λ e. absurd (ground (arith, e)))
  notify_published_lem fuel fd true s h =
      placed (notify_event n.data_ready_write fuel s.world) (notify_lem fuel s.world h)
    where
      placed :
          (r : Option (Bool × World))
          → Ensures (Notified s.world) r
          → Ensures (λ ok t. Stays fd s t × (ok ≡ false → CannotNotify n)) (on_world s r)
      placed none q = absurd q
      placed (some (ok, w)) q = (Stays-world fd s w q.0.0 q.0.1, q.1)

  -- The client is gone after another one of its states.
  pub Stays-Gone : (fd : ℕ) (s t u : Server World) → Stays fd s t → Gone fd t u → Gone fd s u
  Stays-Gone fd s t u p q = record {
    apart = record {
      same_ring = q.apart.same_ring ∙ p.apart.same_ring;
      same_request = q.apart.same_request ∙ p.apart.same_request;
      same_listener = q.apart.same_listener ∙ p.apart.same_listener;
      same_state = q.apart.same_state ∙ p.apart.same_state;
      same_pause = q.apart.same_pause ∙ p.apart.same_pause;
      same_unread = q.apart.same_unread ∙ p.apart.same_unread;
      same_log = q.apart.same_log ∙ p.apart.same_log;
      same_signals = q.apart.same_signals ∙ p.apart.same_signals;
      same_watch = λ other ne. q.apart.same_watch other ne ∙ p.apart.same_watch other ne;
      same_clients = λ other ne. q.apart.same_clients other ne ∙ p.apart.same_clients other ne;
      fewer = omega (arith, q.apart.fewer, p.apart.fewer);
    };
    no_client = q.no_client;
    unwatched = q.unwatched;
  }

  -- The three ways on from a round.
  abbrev pub Concludes : ℕ → Outcome → Server World → Next → Server World → Type 0
  Concludes fd o s Next.continue t = Stays fd s t × (o ≡ Outcome.kept) × (t.pause_requested ≡ false)
  Concludes fd o s (Next.return true) t =
      (Stays fd s t × (o ≡ Outcome.kept) × (t.pause_requested ≡ true))
      ⊎ (Gone fd s t × (o ≢ Outcome.ring_full))
  Concludes fd o s (Next.return false) t = Stays fd s t × ((o ≡ Outcome.ring_full) ⊎ CannotNotify n)

  pub conclude_lem :
      (fuel fd : ℕ) (o : Outcome) (published : Bool) (s : Server World)
      → budget s.world < fuel
      → Ensures (Concludes fd o s) (conclude n fuel fd o published s)
  unfolding conclude
  conclude_lem fuel fd Outcome.over_limit published s h =
      inr (remove_client-Gone fd s, λ e. absurd (ground (arith, e)))
  conclude_lem fuel fd Outcome.ring_full published s h =
      Ensures-bind _ _ (notify_published n fuel published) _ s
        (notify_published_lem fuel fd published s h) λ ok t p. (p.0, inl refl)
  conclude_lem fuel fd (Outcome.rejected error) published s h =
      Ensures-bind _ _ (notify_published n fuel published) _ s
        (notify_published_lem fuel fd published s h)
        (elim [
          | true ↦ λ t p.
              inr
                (Stays-Gone fd s t _ p.0 (remove_client-Gone fd t), λ e. absurd (ground (arith, e)))
          | false ↦ λ t p. (p.0, inr (p.1 refl))
        ])
  conclude_lem fuel fd Outcome.kept published s h =
      Ensures-bind _ _ (notify_published n fuel published) _ s
        (notify_published_lem fuel fd published s h)
        (elim [
          | true ↦ λ t p. kept t p.0 t.pause_requested refl
          | false ↦ λ t p. (p.0, inr (p.1 refl))
        ])
    where
      kept :
          (t : Server World)
          → Stays fd s t
          → (b : Bool) → t.pause_requested ≡ b
          → Concludes fd Outcome.kept s (if b then Next.return true else Next.continue) t
      kept t p true e = inl (p, refl, e)
      kept t p false e = (p, refl, e)
