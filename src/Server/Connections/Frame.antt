-- ===== src/Server/Connections/Frame.antt =====
-- What `readClient` of one client leaves alone.
use telemetry_server.Base.{ℕ, ◌≤◌, ◌≡◌, ◌≢◌, refl, ap, ◌∙◌, arith, none, some, ==_of_ne}
use telemetry_server.Protocol.Words.{Bytes}
use telemetry_server.Server.Net.{Net, NetLaws, Kernel, Input, noted, with_unread}
use telemetry_server.Server.Receive.{Receipt}
use telemetry_server.Server.Clients.{find, find-update}
use telemetry_server.Server.Buffer.{Buffer}
use telemetry_server.Server.Connections.{Server, with_world, settled}
use telemetry_server.Server.Connections.Removal.{Apart, Stays, Gone}

module _ {n : Net} (laws : NetLaws n) where
  open n use {World}
  open laws use {kernel, budget}

  pub record Frame (fd : ℕ) (s t : Server World) : Type 0 where
    pub same_listener : t.listen_fd ≡ s.listen_fd
    pub same_state : t.state ≡ s.state
    pub same_pause : t.ingress_paused ≡ s.ingress_paused
    pub same_signals : (kernel t.world).signals ≡ (kernel s.world).signals
    pub same_unread :
        (other : ℕ) → other ≢ fd → (kernel t.world).unread other ≡ (kernel s.world).unread other
    pub same_watch :
        (other : ℕ)
        → other ≢ fd
        → (kernel t.world).registered other ≡ (kernel s.world).registered other
    pub same_clients : (other : ℕ) → other ≢ fd → find other t.clients ≡ find other s.clients
    pub was_there : find fd t.clients ≢ none → find fd s.clients ≢ none
    pub still_watched :
        find fd t.clients ≢ none → (kernel t.world).registered fd ≡ (kernel s.world).registered fd
    pub fewer : budget t.world ≤ budget s.world

  pub Frame-refl : (fd : ℕ) (s : Server World) → Frame fd s s
  Frame-refl fd s = record {
    same_listener = refl;
    same_state = refl;
    same_pause = refl;
    same_signals = refl;
    same_unread = λ other ne. refl;
    same_watch = λ other ne. refl;
    same_clients = λ other ne. refl;
    was_there = λ h. h;
    still_watched = λ h. refl;
    fewer = omega arith;
  }

  pub Frame-trans : {fd : ℕ} {s t u : Server World} → Frame fd s t → Frame fd t u → Frame fd s u
  Frame-trans p q = record {
    same_listener = q.same_listener ∙ p.same_listener;
    same_state = q.same_state ∙ p.same_state;
    same_pause = q.same_pause ∙ p.same_pause;
    same_signals = q.same_signals ∙ p.same_signals;
    same_unread = λ other ne. q.same_unread other ne ∙ p.same_unread other ne;
    same_watch = λ other ne. q.same_watch other ne ∙ p.same_watch other ne;
    same_clients = λ other ne. q.same_clients other ne ∙ p.same_clients other ne;
    was_there = λ h. p.was_there (q.was_there h);
    still_watched = λ h. q.still_watched h ∙ p.still_watched (q.was_there h);
    fewer = omega (arith, p.fewer, q.fewer);
  }

  Apart-Frame :
      (fd : ℕ) (s t : Server World)
      → Apart laws fd s t
      → (find fd t.clients ≢ none → find fd s.clients ≢ none)
      → (find fd t.clients ≢ none → (kernel t.world).registered fd ≡ (kernel s.world).registered fd)
      → Frame fd s t
  Apart-Frame fd s t p was still = record {
    same_listener = p.same_listener;
    same_state = p.same_state;
    same_pause = p.same_pause;
    same_signals = p.same_signals;
    same_unread = λ other ne. ap (λ (f : ℕ → Bytes). f other) p.same_unread;
    same_watch = p.same_watch;
    same_clients = p.same_clients;
    was_there = was;
    still_watched = still;
    fewer = p.fewer;
  }

  pub Stays-Frame : (fd : ℕ) (s t : Server World) → Stays laws fd s t → Frame fd s t
  Stays-Frame fd s t p =
      Apart-Frame fd s t p.apart (λ h e. h (p.same_client ∙ e)) (λ h. p.same_registered)

  pub Gone-Frame : (fd : ℕ) (s t : Server World) → Gone laws fd s t → Frame fd s t
  Gone-Frame fd s t p =
      Apart-Frame fd s t p.apart (λ h. absurd (h p.no_client)) (λ h. absurd (h p.no_client))

  -- A round that has received bytes and written to the client's buffer.
  pub settled-Frame :
      (fd : ℕ) (b : Buffer) (r : Receipt) (s : Server World) (w : World) (rest : Bytes)
      (input : Input)
      → find fd s.clients ≡ some b
      → kernel w ≡ with_unread (noted (kernel s.world) input) fd rest
      → budget w ≤ budget s.world
      → Frame fd s (settled fd r (with_world s w))
  settled-Frame fd b r s w rest input f e h = record {
    same_listener = refl;
    same_state = refl;
    same_pause = refl;
    same_signals = ap (λ (k : Kernel). k.signals) e;
    same_unread = λ other ne. ap (λ (k : Kernel). k.unread other) e ∙ rw (==_of_ne ne) refl;
    same_watch = λ other ne. ap (λ (k : Kernel). k.registered other) e;
    same_clients = λ other ne. find-update fd r.buffer other s.clients ne;
    was_there = λ g x. absurd (ground (arith, f, x));
    still_watched = λ g. ap (λ (k : Kernel). k.registered fd) e;
    fewer = h;
  }
