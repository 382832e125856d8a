-- ===== src/Server/Ingress.antt =====
-- `updateIngressInterest` of Server/src/Server.cpp: whether the epoll instance reports input on the
-- listening socket and on the clients.
use telemetry_server.Base.{
  ℕ, ◌≤◌, ◌≡◌, ◌≢◌, ◌⊎◌, inl, inr, refl, ap, sym, ◌∙◌, arith, Bool, true, false, none, some, [],
  ◌∷◌, ==_of_eq, ==_of_ne, if◌then◌else◌,
}
use native.Mathlib.Decide.{ℕ_discrete}
use telemetry_server.Server.Net.{Net, NetLaws, Kernel, EpollLaw}
use telemetry_server.Server.Clients.{Clients, find}
use telemetry_server.Server.Connections.{Server}

module _ (n : Net) where
  open n use {World}

  abbrev pub watch : Bool → ℕ → World → Bool × World
  watch true fd w = n.epoll_add fd w
  watch false fd w = n.epoll_delete fd w

  pub watch_each : Bool → Clients → World → Bool × World
  watch_each enabled [] w = (true, w)
  watch_each enabled ((fd, b) ∷ rest) w =
      let (done, w') = watch enabled fd w in
      if done then watch_each enabled rest w' else (false, w')

  -- A descriptor of -1 is a bad one, which `epoll_ctl` refuses.
  pub update_ingress_interest : Bool → Server World → Bool × World
  unfolding watch_each
  update_ingress_interest enabled s = elim s.listen_fd [
    | none ↦ (false, s.world)
    | some fd ↦
        (let (modified, w) = n.epoll_modify fd enabled s.world in
          if modified then watch_each enabled s.clients w else (false, w))
  ]

module _ {n : Net} (laws : NetLaws n) where
  open n use {World}
  open laws use {kernel, budget}

  -- After a success the clients of `cs` are watched as `enabled` says, and so is who was before.
  pub record Watches (enabled : Bool) (cs : Clients) (v : World) (done : Bool) (w : World)
      : Type 0 where
    pub same_unread : (kernel w).unread ≡ (kernel v).unread
    pub same_log : (kernel w).log ≡ (kernel v).log
    pub same_signals : (kernel w).signals ≡ (kernel v).signals
    pub watched :
        done ≡ true
        → (fd : ℕ) → ((find fd cs ≢ none) ⊎ ((kernel v).registered fd ≡ enabled))
        → (kernel w).registered fd ≡ enabled
    pub fewer : budget w ≤ budget v

  abbrev Watched : Bool → ℕ → World → Bool → World → Type 0
  Watched enabled key v done w =
      EpollLaw key enabled (kernel v) done (kernel w) × (budget w ≤ budget v)

  watch_lem :
      (enabled : Bool) (key : ℕ) (w : World)
      → let (done, w') = watch n enabled key w in Watched enabled key w done w'
  watch_lem true key w = (laws.add_law key w, laws.add_budget key w)
  watch_lem false key w = (laws.delete_law key w, laws.delete_budget key w)

  pub watch_each_lem :
      (enabled : Bool) (cs : Clients) (w : World)
      → let (done, w') = watch_each n enabled cs w in Watches enabled cs w done w'
  unfolding watch_each find
  watch_each_lem enabled [] w = record {
    same_unread = refl;
    same_log = refl;
    same_signals = refl;
    watched = λ x fd. elim [ inl h ↦ absurd (h refl) | inr h ↦ h ];
    fewer = omega arith;
  }
  watch_each_lem enabled ((key, b) ∷ rest) w =
      go (watch n enabled key w).0 (watch n enabled key w).1 (watch_lem enabled key w)
        (watch_each_lem enabled rest (watch n enabled key w).1)
    where
      go :
          (done : Bool) (w' : World)
          → Watched enabled key w done w'
          → (let (done', w'') = watch_each n enabled rest w' in Watches enabled rest w' done' w'')
          → let (done', w'') = if done then watch_each n enabled rest w' else (false, w') in
            Watches enabled ((key, b) ∷ rest) w done' w''
      go false w' (e, h) r = record {
        same_unread = ap (λ (k : Kernel). k.unread) e;
        same_log = ap (λ (k : Kernel). k.log) e;
        same_signals = ap (λ (k : Kernel). k.signals) e;
        watched = λ x. absurd (ground (arith, x));
        fewer = h;
      }
      go true w' (e, h) r = record {
        same_unread = r.same_unread ∙ ap (λ (k : Kernel). k.unread) e;
        same_log = r.same_log ∙ ap (λ (k : Kernel). k.log) e;
        same_signals = r.same_signals ∙ ap (λ (k : Kernel). k.signals) e;
        watched = λ x fd p. elim (ℕ_discrete key fd) [
          | yes same ↦
              r.watched x fd
                (inr (ap (λ (k : Kernel). k.registered fd) e ∙ rw (==_of_eq (sym same)) refl))
          | no other ↦ r.watched x fd (others fd other p)
        ];
        fewer = omega (arith, h, r.fewer);
      }
        where
          others :
              (fd : ℕ)
              → key ≢ fd
              → ((find fd ((key, b) ∷ rest) ≢ none) ⊎ ((kernel w).registered fd ≡ enabled))
              → (find fd rest ≢ none) ⊎ ((kernel w').registered fd ≡ enabled)
          others fd ne (inl p) = inl (λ e. p (rw (==_of_ne ne, find) e))
          others fd ne (inr p) =
              inr (ap (λ (k : Kernel). k.registered fd) e ∙ rw (==_of_ne (λ x. ne (sym x))) p)

  -- `updateIngressInterest` with an open listening socket leaves unread bytes and signals
  -- alone. After a success every client is in the epoll set just if the ingress is enabled, and
  -- so is each descriptor for which that held before.
  pub update_ingress_interest_lem :
      (enabled : Bool) (s : Server World) (fd : ℕ)
      → s.listen_fd ≡ some fd
      → let (done, w) = update_ingress_interest n enabled s in
        Watches enabled s.clients s.world done w
  unfolding update_ingress_interest
  update_ingress_interest_lem enabled s fd e = rw e (
      go (n.epoll_modify fd enabled s.world).0 (n.epoll_modify fd enabled s.world).1
        (laws.modify_law fd enabled s.world) (laws.modify_budget fd enabled s.world))
    where
      go :
          (modified : Bool) (w : World)
          → kernel w ≡ kernel s.world
          → budget w ≤ budget s.world
          → let (done, w') = if modified then watch_each n enabled s.clients w else (false, w) in
            Watches enabled s.clients s.world done w'
      go false w k h = record {
        same_unread = ap (λ (k : Kernel). k.unread) k;
        same_log = ap (λ (k : Kernel). k.log) k;
        same_signals = ap (λ (k : Kernel). k.signals) k;
        watched = λ x. absurd (ground (arith, x));
        fewer = h;
      }
      go true w k h =
          let r = watch_each_lem enabled s.clients w in
          record {
            same_unread = r.same_unread ∙ ap (λ (k : Kernel). k.unread) k;
            same_log = r.same_log ∙ ap (λ (k : Kernel). k.log) k;
            same_signals = r.same_signals ∙ ap (λ (k : Kernel). k.signals) k;
            watched = λ x fd p. r.watched x fd (elim p [
              | inl q ↦ inl q
              | inr q ↦ inr (ap (λ (k : Kernel). k.registered fd) k ∙ q)
            ]);
            fewer = omega (arith, h, r.fewer);
          }
