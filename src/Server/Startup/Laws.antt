-- ===== src/Server/Startup/Laws.antt =====
-- The set-up of `Server::run`: what is open after it, and `run` as a whole.
use native.Mathlib.Decide.{ℕ_discrete}
use telemetry_server.Base.{
  ℕ, Bool, true, false, Option, none, some, ◌≡◌, ◌≢◌, refl, ap, sym, subst, ◌∙◌, arith, ==_of_eq,
  ==_of_ne,
}
use telemetry_server.Server.Net.{set_at}
use telemetry_server.Server.Events.{Descriptors}
use telemetry_server.Server.Startup.{Sockets, attempt, watch_all, create_epoll, configure, set_up}

-- A new descriptor is one that was not open.
abbrev pub OpensLaw : (ℕ → Bool) → Option ℕ → (ℕ → Bool) → Type 0
OpensLaw o none o' = o' ≡ o
OpensLaw o (some fd) o' = (o fd ≡ false) × (o' ≡ set_at o fd true)

pub record SocketLaws {W : Type 0} (k : Sockets W) : Type 0 where
  pub opened : W → ℕ → Bool
  -- whether a descriptor is in the epoll set
  pub watched : W → ℕ → Bool
  pub socket_law : (w : W) → let (r, v) = k.socket w in OpensLaw (opened w) r (opened v)
  pub epoll_law : (w : W) → let (r, v) = k.epoll_create w in OpensLaw (opened w) r (opened v)
  pub reuse_law : (fd : ℕ) (w : W) → opened (k.set_reuse fd w).1 ≡ opened w
  pub bind_law : (fd : ℕ) (w : W) → opened (k.bind fd w).1 ≡ opened w
  pub listen_law : (fd : ℕ) (w : W) → opened (k.listen fd w).1 ≡ opened w
  pub watch_law :
      (epoll_fd fd : ℕ) (w : W)
      → let (done, v) = k.watch epoll_fd fd w in
        (opened v ≡ opened w) × (done ≡ true → watched v ≡ set_at (watched w) fd true)
  pub close_law : (fd : ℕ) (w : W) → opened (k.close fd w) ≡ set_at (opened w) fd false

pub attempt_lem :
    {W A : Type 0} (P : Option A → W → Type 0) (r : Bool × W) (undo : W → W)
    (rest : W → Option A × W)
    → (r.0 ≡ false → P none (undo r.1))
    → (r.0 ≡ true → let (a, v) = rest r.1 in P a v)
    → let (a, v) = attempt r undo rest in P a v
attempt_lem P (true, w) undo rest stop go = go refl
attempt_lem P (false, w) undo rest stop go = stop refl

module _ {W : Type 0} {k : Sockets W} (laws : SocketLaws k) (d : Descriptors) where
  open laws use {opened, watched}

  -- The three descriptors that `run` waits for are in the epoll set.
  abbrev pub IsWatching : ℕ → W → Type 0
  IsWatching fd w =
      (watched w fd ≡ true) × (watched w d.space_ready_fd ≡ true) × (watched w d.signal_fd ≡ true)

  -- After a failure all that was opened is closed again.
  abbrev pub SetUp : (ℕ → Bool) → Option (ℕ × ℕ) → W → Type 0
  SetUp o none w = (i : ℕ) → opened w i ≡ o i
  SetUp o (some (fd, epoll_fd)) w =
      (o fd ≡ false)
      × (o epoll_fd ≡ false)
      × (fd ≢ epoll_fd)
      × (opened w ≡ set_at (set_at o fd true) epoll_fd true)
      × IsWatching fd w

  close_undoes :
      (o : ℕ → Bool) (fd : ℕ)
      → o fd ≡ false
      → (w : W) → ((i : ℕ) → opened w i ≡ set_at o fd true i)
      → (i : ℕ) → opened (k.close fd w) i ≡ o i
  close_undoes o fd fresh w e i =
      ap (λ (f : ℕ → Bool). f i) (laws.close_law fd w) ∙ elim (ℕ_discrete i fd) [
        | yes same ↦ rw (==_of_eq same) (sym fresh ∙ ap o (sym same))
        | no ne ↦ rw (==_of_ne ne) (e i ∙ rw (==_of_ne ne) refl)
      ]

  module _ (o : ℕ → Bool) (fd : ℕ) (fresh : o fd ≡ false) where
    -- `fd` alone is closed.
    closed : (w : W) → opened w ≡ set_at o fd true → SetUp o none (k.close fd w)
    closed w e = close_undoes o fd fresh w (λ i. ap (λ (f : ℕ → Bool). f i) e)

    module _ (epoll_fd : ℕ) (new : set_at o fd true epoll_fd ≡ false) where
      different : fd ≢ epoll_fd
      different e = let x = subst (λ i. set_at o fd true i ≡ false) (sym e) new in ground (arith, x)

      new_before : o epoll_fd ≡ false
      new_before = let ne = different in ground (arith, new, ne)

      abbrev Both : W → Type 0
      Both w = opened w ≡ set_at (set_at o fd true) epoll_fd true

      both_closed : (w : W) → Both w → SetUp o none (k.close fd (k.close epoll_fd w))
      both_closed w e =
          close_undoes o fd fresh (k.close epoll_fd w)
            (close_undoes (set_at o fd true) epoll_fd new w (λ i. ap (λ (f : ℕ → Bool). f i) e))

      three :
          (before after : ℕ → Bool)
          → after
            ≡ set_at (set_at (set_at before fd true) (d.space_ready_fd) true) (d.signal_fd) true
          → (after fd ≡ true) × (after d.space_ready_fd ≡ true) × (after d.signal_fd ≡ true)
      three before after e = (
        ap (λ (f : ℕ → Bool). f fd) e ∙ ground arith,
        ap (λ (f : ℕ → Bool). f d.space_ready_fd) e ∙ ground arith,
        ap (λ (f : ℕ → Bool). f d.signal_fd) e ∙ ground arith,
      )

      watch_all_lem : (w : W) → Both w → let (r, v) = watch_all k d fd epoll_fd w in SetUp o r v
      unfolding watch_all
      watch_all_lem w e =
          let v = (k.watch epoll_fd fd w).1 in
          let l = laws.watch_law epoll_fd fd w in
          let v' = (k.watch epoll_fd d.space_ready_fd v).1 in
          let l' = laws.watch_law epoll_fd d.space_ready_fd v in
          let v'' = (k.watch epoll_fd d.signal_fd v').1 in
          let l'' = laws.watch_law epoll_fd d.signal_fd v' in
          attempt_lem (SetUp o) (k.watch epoll_fd fd w) undo _ (λ x. both_closed v (l.0 ∙ e))
            (λ x.
              attempt_lem (SetUp o) (k.watch epoll_fd d.space_ready_fd v) undo _
                (λ y. both_closed v' (l'.0 ∙ l.0 ∙ e))
                (λ y.
                  attempt_lem (SetUp o) (k.watch epoll_fd d.signal_fd v') undo _
                    (λ z. both_closed v'' (l''.0 ∙ l'.0 ∙ l.0 ∙ e))
                    (λ z. (
                      fresh,
                      new_before,
                      different,
                      l''.0 ∙ l'.0 ∙ l.0 ∙ e,
                      three (watched w) (watched v'') (
                          l''.1 z
                          ∙ ap (λ f. set_at f (d.signal_fd) true)
                              (l'.1 y ∙ ap (λ f. set_at f (d.space_ready_fd) true) (l.1 x))),
                    ))))
        where
          undo : W → W
          undo u = k.close fd (k.close epoll_fd u)

    create_epoll_lem :
        (w : W) → opened w ≡ set_at o fd true → let (r, v) = create_epoll k d fd w in SetUp o r v
    unfolding create_epoll
    create_epoll_lem w e = go (k.epoll_create w).0 (k.epoll_create w).1 (laws.epoll_law w)
      where
        go :
            (r : Option ℕ) (v : W)
            → OpensLaw (opened w) r (opened v)
            → let (r', v') = elim r as (λ x. Option (ℕ × ℕ) × W) [
              | none ↦ (none, k.close fd v)
              | some epoll_fd ↦ watch_all k d fd epoll_fd v
            ] in
              SetUp o r' v'
        go none v l = closed v (l ∙ e)
        go (some epoll_fd) v l =
            watch_all_lem epoll_fd (sym (ap (λ (f : ℕ → Bool). f epoll_fd) e) ∙ l.0) v
              (l.1 ∙ ap (λ f. set_at f epoll_fd true) e)

    configure_lem :
        (w : W) → opened w ≡ set_at o fd true → let (r, v) = configure k d fd w in SetUp o r v
    unfolding configure
    configure_lem w e =
        let v = (k.set_reuse fd w).1 in
        let l = laws.reuse_law fd w in
        let v' = (k.bind fd v).1 in
        let l' = laws.bind_law fd v in
        let v'' = (k.listen fd v').1 in
        let l'' = laws.listen_law fd v' in
        attempt_lem (SetUp o) (k.set_reuse fd w) (k.close fd) _ (λ x. closed v (l ∙ e))
          (λ x.
            attempt_lem (SetUp o) (k.bind fd v) (k.close fd) _ (λ y. closed v' (l' ∙ l ∙ e))
              (λ y.
                attempt_lem (SetUp o) (k.listen fd v') (k.close fd) _
                  (λ z. closed v'' (l'' ∙ l' ∙ l ∙ e))
                  (λ z. create_epoll_lem v'' (l'' ∙ l' ∙ l ∙ e))))

  -- The set-up of `run`. When some call of it fails, the descriptors that are open afterwards
  -- are those that were open before. When all succeed, two new descriptors are open besides,
  -- the listening socket and the epoll instance, and the listening socket, the space counter
  -- and the signal descriptor are in the epoll set.
  pub set_up_lem : (w : W) → let (r, v) = set_up k d w in SetUp (opened w) r v
  unfolding set_up
  set_up_lem w = go (k.socket w).0 (k.socket w).1 (laws.socket_law w)
    where
      go :
          (r : Option ℕ) (v : W)
          → OpensLaw (opened w) r (opened v)
          → let (r', v') = elim r as (λ x. Option (ℕ × ℕ) × W) [
            | none ↦ (none, v)
            | some fd ↦ configure k d fd v
          ] in
            SetUp (opened w) r' v'
      go none v l = λ i. ap (λ (f : ℕ → Bool). f i) l
      go (some fd) v l = configure_lem (opened w) fd l.0 v l.1
