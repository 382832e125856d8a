-- ===== src/Server/Events/Invariant.antt =====
-- The invariant of the server between two events, and what an event may change.
use telemetry_server.Base.{
  ℕ, ◌≤◌, ◌≡◌, ◌≢◌, refl, ap, sym, ◌∙◌, arith, Bool, true, false, not, ◌||◌, none, some, List, [],
  ◌++◌, All, All-append, append-nil, append_assoc,
}
use telemetry_server.Protocol.Words.{Bytes}
use telemetry_server.Ipc.Ring.{Layout}
use telemetry_server.Ipc.Ring.Refine.{IsValid, contents}
use telemetry_server.Server.Buffer.{Buffer, IsInOrder, pending}
use telemetry_server.Server.Receive.Laws.{IsRoomy}
use telemetry_server.Server.Receive.Frames.{IsAccepted}
use telemetry_server.Server.Net.{Net, NetLaws, Event, Input}
use telemetry_server.Server.History.{Fed, Fed-append}
use telemetry_server.Server.Clients.{find}
use telemetry_server.Server.Connections.{Server, State, Method, with_world}
use telemetry_server.Server.Events.{no_fault}
use telemetry_server.Base.Action.{Ensures, Ensures-and, ◌&&=◌}

module _ {n : Net} (laws : NetLaws n) where
  open n use {World}
  open laws use {kernel, budget}

  -- `h` holds what each client has sent and the server has not published.
  abbrev pub Agrees : (ℕ → Bytes) → Server World → Type 0
  Agrees h s = (fd : ℕ) (b : Buffer) → find fd s.clients ≡ some b → h fd ≡ pending b

  -- The frames that the inputs brought are put behind those of the ring `l`, and none is dropped.
  pub record Grown (h : ℕ → Bytes) (l : Layout) (s : Server World) (ok : Bool) (t : Server World)
      : Type 0 where
    pub layout : Layout
    pub more : List Bytes
    pub inputs : List Input
    pub later : ℕ → Bytes
    pub ring_is : t.ring ≡ some layout
    pub accepted : All IsAccepted more
    pub contents_are : contents layout ≡ contents l ++ more
    pub log_is : (kernel t.world).log ≡ (kernel s.world).log ++ inputs
    pub fed : Fed h inputs more later
    pub agrees : ok ≡ true → Agrees later t

  abbrev pub Grows : Server World → Bool → Server World → Type 0
  Grows s ok t = (h : ℕ → Bytes) (l : Layout) → Agrees h s → s.ring ≡ some l → Grown h l s ok t

  pub Grows-same :
      (s : Server World) (ok : Bool) (t : Server World)
      → t.ring ≡ s.ring
      → (kernel t.world).log ≡ (kernel s.world).log
      → ((fd : ℕ) (b : Buffer) → find fd t.clients ≡ some b → find fd s.clients ≡ some b)
      → Grows s ok t
  Grows-same s ok t same log was h l a e = record {
    layout = l;
    more = [];
    inputs = [];
    later = h;
    ring_is = same ∙ e;
    accepted = tt;
    contents_are = sym (append-nil (contents l));
    log_is = log ∙ sym (append-nil (kernel s.world).log);
    fed = (refl, refl);
    agrees = λ x fd b f. a fd b (was fd b f);
  }

  pub Grows-trans :
      (s t : Server World) (ok : Bool) (u : Server World)
      → Grows s true t
      → Grows t ok u
      → Grows s ok u
  Grows-trans s t ok u p q h l a e =
      let g = p h l a e in
      let g' = q g.later g.layout (g.agrees refl) g.ring_is in
      record {
        layout = g'.layout;
        more = g.more ++ g'.more;
        inputs = g.inputs ++ g'.inputs;
        later = g'.later;
        ring_is = g'.ring_is;
        accepted = All-append IsAccepted g.more g'.more g.accepted g'.accepted;
        contents_are =
            g'.contents_are
            ∙ ap (λ fs. fs ++ g'.more) g.contents_are
            ∙ append_assoc (contents l) g.more g'.more;
        log_is =
            g'.log_is
            ∙ ap (λ x. x ++ g'.inputs) g.log_is
            ∙ append_assoc (kernel s.world).log g.inputs g'.inputs;
        fed = Fed-append h g.later g'.later g.inputs g'.inputs g.more g'.more g.fed g'.fed;
        agrees = g'.agrees;
      }

  -- The clients are watched unless the ingress is paused, and there is room in the ring unless it is
  -- `crowded`. A server that drains has no clients and does not listen.
  pub record Fits (crowded : Bool) (s : Server World) : Type 0 where
    pub layout : Layout
    pub ring_is : s.ring ≡ some layout
    pub valid_ring : IsValid layout
    pub not_closed : layout.producer_closed ≡ 0
    pub roomy : crowded ≡ false → IsRoomy layout
    pub in_order : (fd : ℕ) (b : Buffer) → find fd s.clients ≡ some b → IsInOrder b
    pub watched :
        (fd : ℕ) → find fd s.clients ≢ none → (kernel s.world).registered fd ≡ not s.ingress_paused
    pub listens : s.state ≡ State.running → (fd : ℕ) × (s.listen_fd ≡ some fd)
    pub drained : s.state ≡ State.draining → (s.clients ≡ []) × (s.listen_fd ≡ none)

  abbrev pub Inv : Server World → Type 0
  Inv s = Fits s.ingress_paused s

  -- What a step from `s` to `t` promises; `ok` is false when it stops the server.
  pub record Keeps (s : Server World) (ok : Bool) (t : Server World) : Type 0 where
    pub inv : ok ≡ true → Inv t
    pub grows : Grows s ok t
    pub drains : s.state ≡ State.draining → (t.state ≡ State.draining) × (t.ring ≡ s.ring)
    pub fewer : budget t.world ≤ budget s.world

  pub Keeps-trans :
      (s t : Server World) (ok : Bool) (u : Server World)
      → Keeps s true t
      → Keeps t ok u
      → Keeps s ok u
  Keeps-trans s t ok u p q = record {
    inv = q.inv;
    grows = Grows-trans s t ok u p.grows q.grows;
    drains = λ e. let (e', r) = p.drains e in let (e'', r') = q.drains e' in (e'', r' ∙ r);
    fewer = omega (arith, p.fewer, q.fewer);
  }

  -- A step that hears nothing, adds no client, and leaves the ring and the state of the server as
  -- they are.
  pub Keeps-same :
      (s : Server World) (ok : Bool) (t : Server World)
      → t.ring ≡ s.ring
      → t.state ≡ s.state
      → (kernel t.world).log ≡ (kernel s.world).log
      → ((fd : ℕ) (b : Buffer) → find fd t.clients ≡ some b → find fd s.clients ≡ some b)
      → (ok ≡ true → Inv t)
      → budget t.world ≤ budget s.world
      → Keeps s ok t
  Keeps-same s ok t r e log was i h = record {
    inv = i;
    grows = Grows-same s ok t r log was;
    drains = λ d. (e ∙ d, r);
    fewer = h;
  }

  -- The server after calls that observe nothing of the clients.
  pub Inv-world :
      (s : Server World) (w : World)
      → Inv s
      → (kernel w).registered ≡ (kernel s.world).registered
      → Inv (with_world s w)
  Inv-world s w i e = record {
    layout = i.layout;
    ring_is = i.ring_is;
    valid_ring = i.valid_ring;
    not_closed = i.not_closed;
    roomy = i.roomy;
    in_order = i.in_order;
    watched = λ fd h. ap (λ (f : ℕ → Bool). f fd) e ∙ i.watched fd h;
    listens = i.listens;
    drained = i.drained;
  }

  -- A pure decision at the end of a step.
  pub Keeps-pure : (s : Server World) (ok : Bool) → Inv s → Keeps s ok s
  Keeps-pure s ok i = Keeps-same s ok s refl refl refl (λ fd b f. f) (λ e. i) (omega arith)

  -- A step whose last condition is that the event reports no error.
  pub Keeps-no_fault :
      (m : Method n) (event : Event) (s : Server World)
      → Ensures (Keeps s) (m s)
      → Ensures (Keeps s) ((m &&= no_fault n event) s)
  Keeps-no_fault m event s h =
      Ensures-and (Keeps s) (Keeps s) m (no_fault n event) s h (λ t k. k)
        (λ t k.
          Keeps-trans s t (not (event.epollerr || event.epollhup)) t k
            (Keeps-pure t _ (k.inv refl)))
