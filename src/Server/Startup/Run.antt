-- ===== src/Server/Startup/Run.antt =====
-- `Server::run` from its first call to its return.
use telemetry_server.Base.{
  ℕ, ◌⊎◌, inl, inr, Bool, Option, none, some, List, [], append-nil, ◌≡◌, ◌<◌, refl, ap, sym, subst,
  arith,
}
use telemetry_server.Protocol.Words.{Bytes}
use telemetry_server.Ipc.Ring.{Layout}
use telemetry_server.Ipc.Ring.Refine.{contents}
use telemetry_server.Server.Receive.Laws.{IsRoomy}
use telemetry_server.Server.Clients.{find}
use telemetry_server.Server.Net.{Net, NetLaws}
use telemetry_server.Server.Connections.{Server, with_world}
use telemetry_server.Server.Events.{Descriptors, serve}
use telemetry_server.Server.Events.Invariant.{Inv}
use telemetry_server.Server.Events.Loop.{Ran, Returned, serve_lem}
use telemetry_server.Server.Startup.{Sockets, started, set_up, serve_from, run}

module _ {n : Net} (laws : NetLaws n) (k : Sockets (n.World)) (fuel : ℕ) (d : Descriptors) where
  open n use {World}
  open laws use {kernel, budget}

  started-Inv :
      (fd : ℕ) (l : Layout) (s : Server World)
      → s.ring ≡ some l
      → IsRoomy l
      → s.clients ≡ []
      → (i : Inv laws (started fd s)) × (i.layout ≡ l)
  unfolding find
  started-Inv fd l s e room c = (
    record {
      layout = l;
      ring_is = e;
      valid_ring = room.0;
      not_closed = room.1;
      roomy = λ p. room;
      in_order = λ other b f. let x = nobody other in absurd (ground (arith, f, x));
      watched = λ other h. absurd (h (nobody other));
      listens = λ p. (fd, refl);
      drained = λ p. absurd (ground (arith, p));
    },
    refl,
  )
    where
      nobody : (other : ℕ) → find other s.clients ≡ none
      nobody other = ap (find other) c

  -- From the world `w` after the set-up, the server has run up to `before`; the epoll instance is closed
  -- last.
  pub record Ends (w : World) (l : Layout) (r : Bool × List Bytes) (t : Server World) : Type 0 where
    pub before : World
    pub ran : Ran laws (λ fd. []) (kernel w).log l [] r (with_world t before)
    pub no_clients : t.clients ≡ []
    pub closes : (t.world ≡ before) ⊎ ((fd : ℕ) × (t.world ≡ k.close fd before))

  no_client : (s : Server World) → s.clients ≡ [] → (fd : ℕ) → find fd s.clients ≡ none
  unfolding find
  no_client s e fd = ap (find fd) e

  serve_from_lem :
      (rounds : ℕ) (l : Layout) (r : Option (ℕ × ℕ)) (s : Server World)
      → s.ring ≡ some l
      → IsRoomy l
      → s.clients ≡ []
      → budget s.world < fuel
      → Returned laws (Ends s.world l) (serve_from n k fuel d rounds r s)
  unfolding serve_from
  serve_from_lem rounds l none s e room c h = record {
    before = s.world;
    ran = record {
      layout = l;
      more = [];
      inputs = [];
      later = λ fd. [];
      log_is = sym (append-nil (kernel s.world).log);
      fed = (refl, refl);
      ring_is = e;
      accepted = tt;
      conserved = sym (append-nil (contents l));
      drained = λ x. absurd (ground (arith, x));
    };
    no_clients = c;
    closes = inl refl;
  }
  serve_from_lem rounds l (some (fd, epoll_fd)) s e room c h =
      let (i, same) = started-Inv fd l s e room c in
      go (serve n fuel d rounds (started fd s)) (
        subst (λ x. Returned laws (Served x) (serve n fuel d rounds (started fd s))) same
          (serve_lem laws fuel d rounds (λ other. []) (started fd s) i
            (λ other b f. let x = no_client s c other in absurd (ground (arith, f, x))) h))
    where
      Served : Layout → Bool × List Bytes → Server World → Type 0
      Served x r t = Ran laws (λ other. []) (kernel s.world).log x [] r t × (t.clients ≡ [])

      go :
          (o : Option ((Bool × List Bytes) × Server World))
          → Returned laws (Served l) o
          → Returned laws (Ends s.world l) (elim o [
            | none ↦ none
            | some (r, t) ↦ some (r, with_world t (k.close epoll_fd t.world))
          ])
      go none q = q
      go (some (r, t)) q = record {
        before = t.world;
        ran = q.0;
        no_clients = q.1;
        closes = inr (epoll_fd, refl);
      }

  -- What holds when `run`, called on a server without clients and a valid, open ring below the
  -- pause threshold, with fuel for the calls that are still to come after the set-up, returns
  -- within its rounds of waiting. The frames that the reader has taken, followed by those still
  -- in the ring, are the frames of the ring at the start, in order, followed by just those that
  -- the inputs bring, all of which decode: for each piece of bytes that the kernel has handed
  -- over between the set-up and the last close, in order, the whole frames of what that
  -- connection has pending, up to the first that is not valid, or none of a client over its
  -- limit. No client is left. After a success the server was draining and the ring is empty.
  pub run_lem :
      (rounds : ℕ) (l : Layout) (s : Server World)
      → s.ring ≡ some l
      → IsRoomy l
      → s.clients ≡ []
      → budget (set_up k d s.world).1 < fuel
      → Returned laws (Ends (set_up k d s.world).1 l) (run n k fuel d rounds s)
  unfolding run
  run_lem rounds l s e room c h =
      serve_from_lem rounds l (set_up k d s.world).0 (with_world s (set_up k d s.world).1) e room c
        h
