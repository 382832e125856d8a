-- ===== src/Main/Prepare.antt =====
-- The calls of src/main.cpp before `fork`, and what is open after them.
use telemetry_server.Base.{
  All, ℕ, Bool, true, false, Option, none, some, List, [], ◌∷◌, ◌≡◌, ◌≢◌, ◌≤◌, refl, ap, sym, subst,
  ◌∙◌, arith,
}
use telemetry_server.Ipc.Ring
use telemetry_server.Ipc.Ring.{SharedRingBuffer, new_layout}
use telemetry_server.Server.Net.{Signo, set_at, opened_closed}
use telemetry_server.Server.Startup.{attempt}
use telemetry_server.Server.Startup.Laws.{OpensLaw, attempt_lem}
use telemetry_server.Main.{
  SignalSet, System, Prepared, add_signals, block_managed_signals, open_space, open_data, open_all,
  prepare,
}
use telemetry_server.Main.Calls.{SystemLaws, EmptyLaw, AddLaw}

-- The set when the signals have been added one by one.
abbrev all_of : List Signo → SignalSet → SignalSet
all_of [] mask = mask
all_of (s ∷ ss) mask = all_of ss (s ∷ mask)

module _ {W : Type 0} {sys : System W} (laws : SystemLaws sys) where
  open laws use {opened, blocked, signals}

  abbrev pub AreBlocked : SignalSet → W → Type 0
  AreBlocked mask w = All (λ s. blocked w s ≡ true) mask

  still :
      (mask : SignalSet) (w v : W) → blocked v ≡ blocked w → AreBlocked mask w → AreBlocked mask v
  still mask w v e = subst (λ f. All (λ s. f s ≡ true) mask) (sym e)

  -- After a failure nothing more is open than before. After a success the signals that `signalfd`
  -- reports are blocked, the ring is new, and the two eventfds are open.
  abbrev pub Prepares : (ℕ → Bool) → ℕ → Option Prepared → W → Type 0
  Prepares o c none v = (i : ℕ) → opened v i ≡ o i
  Prepares o c (some p) v =
      (p.mask ≡ Signo.sigchld ∷ Signo.sigterm ∷ Signo.sigint ∷ [])
      × AreBlocked p.mask v
      × (p.ring ≡ some new_layout)
      × (o p.data_ready_fd ≡ false)
      × (o p.space_ready_fd ≡ false)
      × (p.data_ready_fd ≢ p.space_ready_fd)
      × (opened v ≡ set_at (set_at o p.data_ready_fd true) p.space_ready_fd true)
      × (signals v ≤ c)

  open_space_lem :
      (o : ℕ → Bool) (c : ℕ) (mask : SignalSet) (fd : ℕ) (w : W)
      → mask ≡ Signo.sigchld ∷ Signo.sigterm ∷ Signo.sigint ∷ []
      → AreBlocked mask w
      → o fd ≡ false
      → opened w ≡ set_at o fd true
      → signals w ≤ c
      → let (r, v) = open_space sys mask (some new_layout) fd w in Prepares o c r v
  unfolding open_space
  open_space_lem o c mask fd w m b fresh e h =
      go (sys.eventfd w).0 (sys.eventfd w).1 (laws.eventfd_law w)
    where
      go :
          (r : Option ℕ) (v : W)
          → OpensLaw (opened w) r (opened v) × (blocked v ≡ blocked w) × (signals v ≤ signals w)
          → let (r', v') = elim r as (λ x. Option Prepared × W) [
            | none ↦ (none, sys.close fd v)
            | some fd' ↦ (
              some (record {
                mask = mask;
                ring = some new_layout;
                data_ready_fd = fd;
                space_ready_fd = fd';
              }),
              v,
            )
          ] in
            Prepares o c r' v'
      go none v (q, s, g) = λ i.
          ap (λ (f : ℕ → Bool). f i) ((laws.close_law fd v).0 ∙ ap (λ f. set_at f fd false) (q ∙ e))
          ∙ opened_closed o fd fresh i
      go (some fd') v (q, s, g) =
          let new : set_at o fd true fd' ≡ false = sym (ap (λ (f : ℕ → Bool). f fd') e) ∙ q.0 in
          let ne : fd ≢ fd' = λ x.
            (let y = subst (λ i. set_at o fd true i ≡ false) (sym x) new in ground (arith, y)) in
          (
            m,
            still mask w v s b,
            refl,
            fresh,
            ground (arith, new, ne),
            ne,
            q.1 ∙ ap (λ f. set_at f fd' true) e,
            omega (arith, g, h),
          )

  open_data_lem :
      (c : ℕ) (mask : SignalSet) (w : W)
      → mask ≡ Signo.sigchld ∷ Signo.sigterm ∷ Signo.sigint ∷ []
      → AreBlocked mask w
      → signals w ≤ c
      → let (r, v) = open_data sys mask (some new_layout) w in Prepares (opened w) c r v
  unfolding open_data
  open_data_lem c mask w m b h = go (sys.eventfd w).0 (sys.eventfd w).1 (laws.eventfd_law w)
    where
      go :
          (r : Option ℕ) (v : W)
          → OpensLaw (opened w) r (opened v) × (blocked v ≡ blocked w) × (signals v ≤ signals w)
          → let (r', v') = elim r as (λ x. Option Prepared × W) [
            | none ↦ (none, v)
            | some fd ↦ open_space sys mask (some new_layout) fd v
          ] in
            Prepares (opened w) c r' v'
      go none v (q, s, g) = λ i. ap (λ (f : ℕ → Bool). f i) q
      go (some fd) v (q, s, g) =
          open_space_lem (opened w) c mask fd v m (still mask w v s b) q.0 q.1 (omega (arith, g, h))

  Prepares-same :
      (o o' : ℕ → Bool) (c : ℕ) (r : Option Prepared) (v : W)
      → o' ≡ o
      → Prepares o' c r v
      → Prepares o c r v
  Prepares-same o o' c r v e = subst (λ f. Prepares f c r v) e

  open_all_lem :
      (c : ℕ) (mask : SignalSet) (w : W)
      → mask ≡ Signo.sigchld ∷ Signo.sigterm ∷ Signo.sigint ∷ []
      → AreBlocked mask w
      → signals w ≤ c
      → let (r, v) = open_all sys mask w in Prepares (opened w) c r v
  unfolding open_all Ring.create
  open_all_lem c mask w m b h =
      let s = laws.buffer_law w in
      let v = (sys.setvbuf w).1 in
      let t = laws.mmap_law v in
      attempt_lem (Prepares (opened w) c) (sys.setvbuf w) (λ u. u) _
        (λ f i. ap (λ (o : ℕ → Bool). o i) s.0)
        (λ f.
          mapped_lem (sys.mmap v).0 (sys.mmap v).1 (t.0 ∙ s.0)
            (still mask w (sys.mmap v).1 (t.1 ∙ s.1) b) (omega (arith, s, t, h)))
    where
      mapped_lem :
          (mapped : Bool) (u : W)
          → opened u ≡ opened w
          → AreBlocked mask u
          → signals u ≤ c
          → let (created, ring) = Ring.create mapped none in
            let (r, v) = attempt (created, u) (λ x. x) (open_data sys mask ring) in
            Prepares (opened w) c r v
      mapped_lem true u e b' h' =
          Prepares-same (opened w) (opened u) c _ _ e (open_data_lem c mask u m b' h')
      mapped_lem false u e b' h' = λ i. ap (λ (o : ℕ → Bool). o i) e

  abbrev Added : List Signo → SignalSet → Option SignalSet → Type 0
  Added ss mask none = Unit
  Added ss mask (some m) = m ≡ all_of ss mask

  add_signals_lem : (ss : List Signo) (mask : SignalSet) → Added ss mask (add_signals sys ss mask)
  unfolding add_signals
  add_signals_lem [] mask = refl
  add_signals_lem (s ∷ ss) mask =
      go (sys.sigaddset s mask) (laws.add_law s mask) (λ m. add_signals_lem ss m)
    where
      go :
          (r : Option SignalSet)
          → AddLaw s mask r
          → ((m : SignalSet) → Added ss m (add_signals sys ss m))
          → Added (s ∷ ss) mask (elim r [ none ↦ none | some m ↦ add_signals sys ss m ])
      go none q again = tt
      go (some m) q again = subst (λ x. Added ss x (add_signals sys ss m)) q (again m)

  abbrev Blocks : (ℕ → Bool) → ℕ → Option SignalSet → W → Type 0
  Blocks o c none v = opened v ≡ o
  Blocks o c (some m) v =
      (m ≡ Signo.sigchld ∷ Signo.sigterm ∷ Signo.sigint ∷ [])
      × AreBlocked m v
      × (opened v ≡ o)
      × (signals v ≤ c)

  block_managed_signals_lem :
      (w : W) → let (r, v) = block_managed_signals sys w in Blocks (opened w) (signals w) r v
  unfolding block_managed_signals
  block_managed_signals_lem w = go sys.sigemptyset laws.empty_law
    where
      set_mask :
          (r : Option SignalSet)
          → Added (Signo.sigint ∷ Signo.sigterm ∷ Signo.sigchld ∷ []) [] r
          → let (r', v) = elim r as (λ x. Option SignalSet × W) [
            | none ↦ (none, w)
            | some mask ↦ attempt (sys.sigprocmask mask w) (λ v. v) (λ v. (some mask, v))
          ] in
            Blocks (opened w) (signals w) r' v
      set_mask none q = refl
      set_mask (some mask) q =
          let l = laws.mask_law mask w in
          attempt_lem (Blocks (opened w) (signals w)) (sys.sigprocmask mask w) (λ v. v)
            (λ v. (some mask, v)) (λ f. l.0) (λ t. (q, l.1 t, l.0, l.2))

      go :
          (r : Option SignalSet)
          → EmptyLaw r
          → let (r', v) = elim r as (λ x. Option SignalSet × W) [
            | none ↦ (none, w)
            | some empty_mask ↦
                elim (add_signals sys
                  (Signo.sigint ∷ Signo.sigterm ∷ Signo.sigchld ∷ [])
                  empty_mask) [
                    | none ↦ (none, w)
                    | some mask ↦ attempt (sys.sigprocmask mask w) (λ v. v) (λ v. (some mask, v))
                  ]
          ] in
            Blocks (opened w) (signals w) r' v
      go none q = refl
      go (some m) q =
          set_mask (add_signals sys (Signo.sigint ∷ Signo.sigterm ∷ Signo.sigchld ∷ []) m) (
            subst
              (λ x.
                Added (Signo.sigint ∷ Signo.sigterm ∷ Signo.sigchld ∷ []) x
                  (add_signals sys (Signo.sigint ∷ Signo.sigterm ∷ Signo.sigchld ∷ []) m))
              q (add_signals_lem (Signo.sigint ∷ Signo.sigterm ∷ Signo.sigchld ∷ []) m))

  -- The calls of `main` before `fork`. When one of them fails, the descriptors that are open
  -- afterwards are those that were open before. When all succeed, SIGINT, SIGTERM and SIGCHLD
  -- are blocked and are the set for `signalfd`, the ring is new, two new eventfds are open
  -- besides, and no more calls are still interrupted than before.
  pub prepare_lem : (w : W) → let (r, v) = prepare sys w in Prepares (opened w) (signals w) r v
  unfolding prepare
  prepare_lem w =
      go (block_managed_signals sys w).0 (block_managed_signals sys w).1
        (block_managed_signals_lem w)
    where
      go :
          (r : Option SignalSet) (v : W)
          → Blocks (opened w) (signals w) r v
          → let (r', v') = elim r as (λ x. Option Prepared × W) [
            | none ↦ (none, v)
            | some mask ↦ open_all sys mask v
          ] in
            Prepares (opened w) (signals w) r' v'
      go none v q = λ i. ap (λ (o : ℕ → Bool). o i) q
      go (some mask) v q =
          Prepares-same (opened w) (opened v) (signals w) _ _ q.2
            (open_all_lem (signals w) mask v q.0 q.1 q.3)
