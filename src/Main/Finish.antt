-- ===== src/Main/Finish.antt =====
-- The end of src/main.cpp, from the close of the ring to the exit code.
use telemetry_server.Base.{
  ℕ, ◌+◌, ◌≤◌, ◌<◌, ◌≡◌, ◌↔◌, ◌⊎◌, inl, inr, refl, ap, sym, ◌∙◌, arith, Bool, true, false, ◌&&◌,
  Option, none, some, List,
}
use telemetry_server.Base.Action.{Ensures, Ensures-bind}
use telemetry_server.Protocol.Words.{Bytes}
use telemetry_server.Ipc.Ring.{SharedRingBuffer, close_producer}
use telemetry_server.Server.Net.{set_at}
use telemetry_server.Main.{
  Status, System, Prepared, Exit, exit_code, close_events, wait_reader, tell_reader, finish,
}
use telemetry_server.Main.Calls.{SystemLaws}
use telemetry_server.Main.Wake.{
  exit_code_iff, Counts, KilledUnless, Tells, tell_reader_lem, Waited, wait_reader_lem,
}

module _ {W : Type 0} {sys : System W} (laws : SystemLaws sys) where
  open laws use {opened, counter, killed, reaped, signals}

  -- `f` closes descriptors, and does nothing else that is observed.
  abbrev pub Closes : (W → W) → ((ℕ → Bool) → ℕ → Bool) → Type 0
  Closes f g =
      (w : W)
      → (opened (f w) ≡ g (opened w))
        × (killed (f w) ≡ killed w)
        × (counter (f w) ≡ counter w)
        × (reaped (f w) ≡ reaped w)
        × (signals (f w) ≤ signals w)

  pub Closes-close : (fd : ℕ) → Closes (sys.close fd) (λ o. set_at o fd false)
  Closes-close fd w = laws.close_law fd w

  pub Closes-nothing : Closes (λ w. w) (λ o. o)
  Closes-nothing w = (refl, refl, refl, refl, omega arith)

  Closes-then :
      (f f' : W → W) (g g' : (ℕ → Bool) → ℕ → Bool)
      → Closes f g
      → Closes f' g'
      → Closes (λ w. f' (f w)) (λ o. g' (g o))
  Closes-then f f' g g' c c' w =
      let l = c w in
      let l' = c' (f w) in
      (l'.0 ∙ ap g' l.0, l'.1 ∙ l.1, l'.2 ∙ l.2, l'.3 ∙ l.3, omega (arith, l, l'))

  abbrev pub closed_events : Prepared → (ℕ → Bool) → ℕ → Bool
  closed_events p o = set_at (set_at o p.data_ready_fd false) p.space_ready_fd false

  pub Closes-events : (p : Prepared) → Closes (close_events sys p) (closed_events p)
  Closes-events p =
      Closes-then (sys.close p.data_ready_fd) (sys.close p.space_ready_fd)
        (λ o. set_at o p.data_ready_fd false) (λ o. set_at o p.space_ready_fd false)
        (Closes-close p.data_ready_fd) (Closes-close p.space_ready_fd)

  all :
      (p : Prepared) (f : W → W) (g : (ℕ → Bool) → ℕ → Bool)
      → Closes f g
      → Closes (λ x. close_events sys p (f x)) (λ o. closed_events p (g o))
  all p f g c = Closes-then f (close_events sys p) g (closed_events p) c (Closes-events p)

  -- The reader was woken once more, or killed; what was opened is closed; and the exit code is that of
  -- a success just if the server succeeded, the reader was woken, and it has exited with code 0.
  pub record Finished (pid : ℕ) (p : Prepared) (g : (ℕ → Bool) → ℕ → Bool) (ok : Bool)
      (taken : List Bytes) (ring : SharedRingBuffer) (w : W) (e : Exit) (v : W) : Type 0 where
    pub opened_is : opened v ≡ closed_events p (g (opened w))
    pub ring_is : e.ring ≡ close_producer ring
    pub taken_is : e.taken ≡ taken
    pub told : (counter v p.data_ready_fd ≡ counter w p.data_ready_fd + 1) ⊎ (killed v pid ≡ true)
    pub success_iff : (e.success ≡ true) ↔ (
        (ok ≡ true)
        × (counter v p.data_ready_fd ≡ counter w p.data_ready_fd + 1)
        × (reaped v pid ≡ some (Status.exited 0)))

  and_iff : (a b : Bool) → ((a && b) ≡ true) ↔ ((a ≡ true) × (b ≡ true))
  and_iff true b = (λ e. (refl, e), λ q. q.1)
  and_iff false b =
      (λ e. absurd (ground (arith, e)), λ q. absurd (let z = q.0 in ground (arith, z)))

  Counts-iff : (woken : Bool) (c c' : ℕ) → Counts laws c woken c' → (woken ≡ true) ↔ (c' ≡ c + 1)
  Counts-iff true c c' h = (λ e. h, λ e. refl)
  Counts-iff false c c' h = (λ e. absurd (ground (arith, e)), λ e. absurd (omega (arith, e, h)))

  ended :
      (pid : ℕ) (p : Prepared) (f : W → W) (g : (ℕ → Bool) → ℕ → Bool) (ok : Bool)
      (taken : List Bytes) (ring : SharedRingBuffer) (w u v : W) (woken : Bool) (s : Option Status)
      → Closes f g
      → Tells laws pid p.data_ready_fd w woken u
      → Waited laws pid (close_events sys p (f u)) s v
      → Finished pid p g ok taken ring w
          (record {
            success = exit_code (ok && woken) s;
            ring = close_producer ring;
            taken = taken;
          })
          v
  ended pid p f g ok taken ring w u v woken s c t q = record {
    opened_is = q.same_open ∙ (all p f g c u).0 ∙ ap (λ o. closed_events p (g o)) t.0.same_open;
    ring_is = refl;
    taken_is = refl;
    told = told woken t.1 (Counts-iff woken _ _ t.0.counts);
    success_iff = (
      λ e.
          let x = (exit_code_iff (ok && woken) s).0 e in
          let y = (and_iff ok woken).0 x.0 in
          (y.0, count_is ∙ (Counts-iff woken _ _ t.0.counts).0 y.1, q.reaped_is ∙ x.1),
      λ x. (exit_code_iff (ok && woken) s).1 (
        (and_iff ok woken).1 (x.0, (Counts-iff woken _ _ t.0.counts).1 (sym count_is ∙ x.1)),
        sym q.reaped_is ∙ x.2,
      ),
    );
  }
    where
      count_is : counter v p.data_ready_fd ≡ counter u p.data_ready_fd
      count_is = ap (λ (x : ℕ → ℕ). x p.data_ready_fd) (q.same_counter ∙ (all p f g c u).2)

      told :
          (b : Bool)
          → KilledUnless laws pid b u
          → ((b ≡ true) ↔ (counter u p.data_ready_fd ≡ counter w p.data_ready_fd + 1))
          → (counter v p.data_ready_fd ≡ counter w p.data_ready_fd + 1) ⊎ (killed v pid ≡ true)
      told true k i = inl (count_is ∙ i.0 refl)
      told false k i = inr (ap (λ (x : ℕ → Bool). x pid) (q.same_killed ∙ (all p f g c u).1) ∙ k)

  -- The end of `main`, with fuel for the interrupted calls and a reader that was not waited
  -- for, returns. The ring is closed, and so are the descriptors; the reader was woken once
  -- more, or killed; and the exit code is that of a success just if the server succeeded, the
  -- reader was woken, and it has exited with code 0.
  pub finish_lem :
      (fuel pid : ℕ) (p : Prepared) (f : W → W) (g : (ℕ → Bool) → ℕ → Bool) (ok : Bool)
      (taken : List Bytes) (ring : SharedRingBuffer) (w : W)
      → Closes f g
      → signals w < fuel
      → reaped w pid ≡ none
      → Ensures (Finished pid p g ok taken ring w) (finish sys fuel pid p f ok taken ring w)
  unfolding finish
  finish_lem fuel pid p f g ok taken ring w c h n =
      Ensures-bind (Tells laws pid p.data_ready_fd w) (Finished pid p g ok taken ring w)
        (tell_reader sys fuel pid p.data_ready_fd) _ w
        (tell_reader_lem laws fuel pid p.data_ready_fd w h)
        (λ woken u t.
          let fewer = t.0.fewer in
          Ensures-bind (Waited laws pid (close_events sys p (f u)))
            (Finished pid p g ok taken ring w) (wait_reader sys fuel pid) _
            (close_events sys p (f u))
            (wait_reader_lem laws fuel pid (close_events sys p (f u)) (less u fewer)
              (nothing u t.0.same_reaped))
            (λ s v q. ended pid p f g ok taken ring w u v woken s c t q))
    where
      less : (u : W) → signals u ≤ signals w → signals (close_events sys p (f u)) < fuel
      less u k = (let l = (all p f g c u).4 in omega (arith, l, k, h))

      nothing : (u : W) → reaped u ≡ reaped w → reaped (close_events sys p (f u)) pid ≡ none
      nothing u e = ap (λ (x : ℕ → Option Status). x pid) ((all p f g c u).3 ∙ e) ∙ n
