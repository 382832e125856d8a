-- ===== src/Server/Events/Listen.antt =====
-- An event of the listening socket: `acceptClients` keeps the invariant.
use native.Mathlib.Decide.{ℕ_discrete}
use telemetry_server.Base.{
  ℕ, zero, suc, ◌≤◌, ◌<◌, ◌≡◌, ◌≢◌, refl, ap, sym, subst, ◌∙◌, fun_ext, arith, Bool, true, false,
  not, ◌&&◌, ◌⊎◌, inl, inr, [], ◌∷◌, append-nil, Option, none, some, ==_of_eq, ==_of_ne,
  if◌then◌else◌,
}
use telemetry_server.Base.Action.{Ensures, Ensures-mono, pure}
use telemetry_server.Protocol.Words.{Bytes}
use telemetry_server.Server.Buffer.{Buffer, IsInOrder, new_buffer, pending}
use telemetry_server.Server.History.{Fed-one}
use telemetry_server.Ipc.Ring.Refine.{contents}
use telemetry_server.Server.Net.{
  Net, NetLaws, Kernel, Event, Accepted, AcceptLaw, AcceptBudget, EpollLaw, Input, noted, set_at,
  with_unread, with_registered,
}
use telemetry_server.Server.Clients.{find, emplace, find-emplace, find-emplace_self}
use telemetry_server.Server.Connections.{Server, State, with_world, add_client, accept_clients}
use telemetry_server.Server.Events.{listen_event}
use telemetry_server.Server.Events.Invariant.{
  Inv, Keeps, Keeps-trans, Keeps-same, Keeps-pure, Keeps-no_fault, Inv-world,
}

module _ {n : Net} (laws : NetLaws n) where
  open n use {World}
  open laws use {kernel, budget}

  -- A server that may accept.
  pub record Accepts (s : Server World) : Type 0 where
    pub inv : Inv laws s
    pub runs : s.state ≡ State.running
    pub not_paused : s.ingress_paused ≡ false

  -- `fd` is a new descriptor, so that no client has it.
  module _ (s : Server World) (fd : ℕ) (bytes : Bytes) (w : World) (a : Accepts s)
      (fresh : (kernel s.world).registered fd ≡ false)
      (reads : kernel w ≡ with_unread (noted (kernel s.world) (Input.connected fd)) fd bytes) where
    nobody : find fd s.clients ≡ none
    nobody = go (find fd s.clients) refl
      where
        go : (r : Option Buffer) → find fd s.clients ≡ r → find fd s.clients ≡ none
        go none e = e
        go (some b) e =
            let watched = a.inv.watched fd (λ x. absurd (ground (arith, e, x))) in
            let p = a.not_paused in absurd (ground (arith, watched, p, fresh))

    others_watched :
        (v : World) (b : Bool)
        → kernel v ≡ with_registered (kernel w) fd b
        → (other : ℕ) → other ≢ fd
        → (kernel v).registered other ≡ (kernel s.world).registered other
    others_watched v b e other ne =
        ap (λ (k : Kernel). k.registered other) e
        ∙ rw (==_of_ne ne) (ap (λ (k : Kernel). k.registered other) reads)

    added_Accepts :
        (v : World)
        → kernel v ≡ with_registered (kernel w) fd true
        → Accepts (record s { clients = emplace fd new_buffer s.clients; world = v })
    added_Accepts v e = record {
      inv = record {
        layout = a.inv.layout;
        ring_is = a.inv.ring_is;
        valid_ring = a.inv.valid_ring;
        not_closed = a.inv.not_closed;
        roomy = a.inv.roomy;
        in_order = λ other b f. elim (ℕ_discrete other fd) [
          | yes same ↦ new_in_order b (
              sym (find-emplace_self fd new_buffer s.clients nobody)
              ∙ subst (λ k. find k (emplace fd new_buffer s.clients) ≡ some b) same f)
          | no ne ↦ a.inv.in_order other b (sym (find-emplace fd new_buffer other s.clients ne) ∙ f)
        ];
        watched = λ other h. elim (ℕ_discrete other fd) [
          | yes same ↦
              ap (λ (k : Kernel). k.registered other) e
              ∙ rw (==_of_eq same) (sym (ap not a.not_paused))
          | no ne ↦
              others_watched v true e other ne
              ∙ a.inv.watched other (λ x. h (find-emplace fd new_buffer other s.clients ne ∙ x))
        ];
        listens = a.inv.listens;
        drained = λ d. let r = a.runs in absurd (ground (arith, d, r));
      };
      runs = a.runs;
      not_paused = a.not_paused;
    }
      where
        new_in_order : (b : Buffer) → some new_buffer ≡ some b → IsInOrder b
        new_in_order b e =
            let same : new_buffer ≡ b = ground (arith, e) in subst IsInOrder same (omega arith)

    -- The connection is closed where it cannot be watched.
    closed_Accepts :
        (v : World) → kernel v ≡ with_registered (kernel w) fd false → Accepts (with_world s v)
    closed_Accepts v e = record {
      inv = Inv-world laws s v a.inv (
          fun_ext λ other. elim (ℕ_discrete other fd) [
            | yes same ↦
                ap (λ (k : Kernel). k.registered other) e
                ∙ rw (==_of_eq same) (sym fresh ∙ ap (kernel s.world).registered (sym same))
            | no ne ↦ others_watched v false e other ne
          ]);
      runs = a.runs;
      not_paused = a.not_paused;
    }

    -- Who is there then: the new client, with nothing pending, and those of before.
    abbrev Joins : Server World → Type 0
    Joins t =
        (other : ℕ) (b : Buffer)
        → find other t.clients ≡ some b
        → ((other ≡ fd) × (pending b ≡ [])) ⊎ ((other ≢ fd) × (find other s.clients ≡ some b))

    added_Joins :
        (v : World) → Joins (record s { clients = emplace fd new_buffer s.clients; world = v })
    added_Joins v other b f = elim (ℕ_discrete other fd) [
      | yes same ↦
          let x : some new_buffer ≡ some b =
            sym (find-emplace_self fd new_buffer s.clients nobody)
            ∙ subst (λ k. find k (emplace fd new_buffer s.clients) ≡ some b) same f in
          let y : new_buffer ≡ b = ground (arith, x) in inl (same, ap pending (sym y))
      | no ne ↦ inr (ne, sym (find-emplace fd new_buffer other s.clients ne) ∙ f)
    ]

    closed_Joins : (v : World) → Joins (with_world s v)
    closed_Joins v other b f = elim (ℕ_discrete other fd) [
      | yes same ↦
          let x : find other s.clients ≡ none = ap (λ k. find k s.clients) same ∙ nobody in
          absurd (ground (arith, f, x))
      | no ne ↦ inr (ne, f)
    ]

    joined_Keeps :
        (t : Server World)
        → Accepts t
          × (t.ring ≡ s.ring)
          × (t.state ≡ s.state)
          × (budget t.world ≤ budget w)
          × ((kernel t.world).log ≡ (kernel w).log)
          × Joins t
        → budget w ≤ budget s.world
        → Keeps laws s true t
    joined_Keeps t (b, r, e, k, log, joins) h = record {
      inv = λ x. b.inv;
      grows = λ g l x y. record {
        layout = l;
        more = [];
        inputs = Input.connected fd ∷ [];
        later = set_at g fd [];
        ring_is = r ∙ y;
        accepted = tt;
        contents_are = sym (append-nil (contents l));
        log_is = log ∙ ap (λ (z : Kernel). z.log) reads;
        fed = Fed-one g (set_at g fd []) (Input.connected fd) [] (refl, refl);
        agrees = λ z other c f. elim (joins other c f) [
          | inl new ↦ rw (==_of_eq new.0) (sym new.1)
          | inr old ↦ rw (==_of_ne old.0) (x other c old.1)
        ];
      };
      drains = λ d. (e ∙ d, r);
      fewer = omega (arith, k, h);
    }

    add_client_lem :
        let t = add_client n fd (with_world s w) in
        Accepts t
        × (t.ring ≡ s.ring)
        × (t.state ≡ s.state)
        × (budget t.world ≤ budget w)
        × ((kernel t.world).log ≡ (kernel w).log)
        × Joins t
    unfolding add_client
    add_client_lem =
        go (n.epoll_add fd w).0 (n.epoll_add fd w).1 (laws.add_law fd w) (laws.add_budget fd w)
      where
        go :
            (added : Bool) (v : World)
            → EpollLaw fd true (kernel w) added (kernel v)
            → budget v ≤ budget w
            → let t =
                if added
                then record s { clients = emplace fd new_buffer s.clients; world = v }
                else with_world s (n.close fd v) in
              Accepts t
              × (t.ring ≡ s.ring)
              × (t.state ≡ s.state)
              × (budget t.world ≤ budget w)
              × ((kernel t.world).log ≡ (kernel w).log)
              × Joins t
        go true v e h =
            (added_Accepts v e, refl, refl, h, ap (λ (k : Kernel). k.log) e, added_Joins v)
        go false v e h = (
          closed_Accepts (n.close fd v)
              (laws.close_law fd v ∙ ap (λ k. with_registered k fd false) e),
          refl,
          refl,
          omega (arith, h, laws.close_budget fd v),
          ap (λ (k : Kernel). k.log) (laws.close_law fd v) ∙ ap (λ (k : Kernel). k.log) e,
          closed_Joins (n.close fd v),
        )

  -- A step from `s` on the way, and then the rest.
  pub accept_clients_lem :
      (fuel listen_fd : ℕ) (s : Server World)
      → Accepts s
      → budget s.world < fuel
      → Ensures (Keeps laws s) (accept_clients n fuel listen_fd s)
  unfolding accept_clients
  accept_clients_lem zero listen_fd s a h = absurd (omega arith)
  accept_clients_lem (suc fuel) listen_fd s a h =
      go (n.accept4 listen_fd s.world).0 (n.accept4 listen_fd s.world).1
        (laws.accept_law listen_fd s.world) (laws.accept_budget listen_fd s.world)
        (λ t b k. accept_clients_lem fuel listen_fd t b k)
    where
      idle : (w : World) → kernel w ≡ kernel s.world → Accepts (with_world s w)
      idle w e = record {
        inv = Inv-world laws s w a.inv (ap (λ (k : Kernel). k.registered) e);
        runs = a.runs;
        not_paused = a.not_paused;
      }

      kept :
          (w : World)
          → kernel w ≡ kernel s.world
          → budget w ≤ budget s.world
          → (ok : Bool) → Keeps laws s ok (with_world s w)
      kept w e k ok =
          Keeps-same laws s ok (with_world s w) refl refl (ap (λ (x : Kernel). x.log) e)
            (λ fd b f. f) (λ x. (idle w e).inv) k

      go :
          (r : Accepted) (w : World)
          → AcceptLaw (kernel s.world) r (kernel w)
          → AcceptBudget (budget s.world) r (budget w)
          → ((t : Server World)
              → Accepts t
              → budget t.world < fuel
              → Ensures (Keeps laws t) (accept_clients n fuel listen_fd t))
          → Ensures (Keeps laws s) (elim r [
            | Accepted.accepted fd ↦
                accept_clients n fuel listen_fd (add_client n fd (with_world s w))
            | Accepted.would_block ↦ some (true, with_world s w)
            | Accepted.interrupted ↦ accept_clients n fuel listen_fd (with_world s w)
            | Accepted.failed ↦ some (false, with_world s w)
          ])
      go Accepted.would_block w e k again = kept w e k true
      go Accepted.failed w e k again = kept w e k false
      go Accepted.interrupted w e k again =
          Ensures-mono (Keeps laws (with_world s w)) (Keeps laws s) _
            (λ ok u. Keeps-trans laws s (with_world s w) ok u (kept w e (omega (arith, k)) true))
            (again (with_world s w) (idle w e) (omega (arith, k, h)))
      go (Accepted.accepted fd) w (fresh, bytes, e) k again =
          let t = add_client n fd (with_world s w) in
          let joined = add_client_lem s fd bytes w a fresh e in
          let f = joined.3 in
          Ensures-mono (Keeps laws t) (Keeps laws s) _
            (λ ok u.
              Keeps-trans laws s t ok u
                (joined_Keeps s fd bytes w a fresh e t joined (omega (arith, k))))
            (again t joined.0 (omega (arith, k, h, f)))

  pub listen_event_lem :
      (fuel : ℕ) (event : Event) (s : Server World)
      → Inv laws s
      → s.state ≡ State.running
      → budget s.world < fuel
      → Ensures (Keeps laws s) (listen_event n fuel event s)
  unfolding listen_event
  listen_event_lem fuel event s i r h =
      Keeps-no_fault laws
        (if not s.ingress_paused && event.epollin
          then accept_clients n fuel event.fd
          else pure true)
        event s (accepts s.ingress_paused event.epollin refl)
    where
      accepts :
          (paused input : Bool)
          → s.ingress_paused ≡ paused
          → Ensures
              (Keeps laws s)
              ((if not paused && input then accept_clients n fuel event.fd else pure true) s)
      accepts true input e = Keeps-pure laws s true i
      accepts false false e = Keeps-pure laws s true i
      accepts false true e =
          accept_clients_lem fuel event.fd s (record { inv = i; runs = r; not_paused = e }) h
