-- ===== src/Load/Sender/Main.antt =====
-- `main` of the load generator.
use telemetry_server.Base.{
  ℕ, ◌+◌, ◌-◌, ◌*◌, ◌≤◌, ◌<◌, ◌≡◌, refl, ap, sym, subst, ◌∙◌, arith, Bool, true, false, Option,
  none, some, List, ◌++◌, length, take, replicate, length-replicate, append-nil, take_all,
}
use telemetry_server.Base.Action.{Ensures, Ensures-mono}
use telemetry_server.Base.Text.{Text}
use telemetry_server.Protocol.Words.{Bytes}
use telemetry_server.Protocol.Codec.{frame_size}
use telemetry_server.Server.Net.{set_at, opened_closed}
use telemetry_server.Server.Startup.Laws.{OpensLaw}
use telemetry_server.Load.Options.{LoadOptions, default_options, ParsedOptions, parse_options}
use telemetry_server.Load.Options.Laws.{IsInRange, Yields, parse_options_lem}
use telemetry_server.Load.Sender.{Os, send_frames, finish, send_on, main}
use telemetry_server.Load.Sender.Batch.{telemetry}
use telemetry_server.Load.Sender.Laws.{OsLaws, Sends}
use telemetry_server.Load.Sender.Frames.{send_frames_lem}

module _ {os : Os} (laws : OsLaws os) where
  open os use {World}
  open laws use {output, opened, signals}

  -- The descriptors that are open are those of before.
  abbrev pub AllClosed : World → World → Type 0
  AllClosed w v = (i : ℕ) → opened v i ≡ opened w i

  -- What has gone out when the frames were asked for.
  abbrev pub Outputs : World → ℕ → Bool → World → Type 0
  Outputs w n true v = output v ≡ output w ++ telemetry 0 n
  Outputs w n false v = (k : ℕ) × (output v ≡ output w ++ take k (telemetry 0 n))

  abbrev pub Loads : ParsedOptions → World → Bool → World → Type 0
  Loads ParsedOptions.helped w ok v = (ok ≡ true) × (v ≡ w)
  Loads ParsedOptions.refused w ok v = (ok ≡ false) × (v ≡ w)
  Loads (ParsedOptions.parsed o) w ok v = IsInRange o × Outputs w o.frames ok v × AllClosed w v

  abbrev Ran : World → ℕ → Bool → World → Type 0
  Ran w n ok v = Outputs w n ok v × AllClosed w v

  module _ (w : World) (o : LoadOptions) (fd : ℕ) (fresh : opened w fd ≡ false) where
    abbrev IsOpen : World → Type 0
    IsOpen v = opened v ≡ set_at (opened w) fd true

    closed : (v : World) → IsOpen v → AllClosed w (os.close fd v)
    closed v e i =
        ap (λ (f : ℕ → Bool). f i) ((laws.close_law fd v).0 ∙ ap (λ f. set_at f fd false) e)
        ∙ opened_closed (opened w) fd fresh i

    finish_lem :
        (v : World)
        → IsOpen v
        → output v ≡ output w
        → (r : Option (Bool × World)) → Ensures (Sends laws v (telemetry 0 o.frames)) r
        → Ensures (Ran w o.frames) (finish os fd r)
    finish_lem v e same none q = absurd q
    finish_lem v e same (some (false, u)) (k, q) = (
      (
        k,
        (laws.close_law fd u).1 ∙ q.output_is ∙ ap (λ b. b ++ take k (telemetry 0 o.frames)) same,
      ),
      closed u (q.same_open ∙ e),
    )
    finish_lem v e same (some (true, u)) q = go (os.shutdown fd u).0
      where
        u' : World
        u' = (os.shutdown fd u).1

        all : output (os.close fd u') ≡ output w ++ telemetry 0 o.frames
        all =
            (laws.close_law fd u').1
            ∙ (laws.shutdown_law fd u).1
            ∙ q.output_is
            ∙ ap (λ b. b ++ telemetry 0 o.frames) same

        open_still : IsOpen u'
        open_still = (laws.shutdown_law fd u).0 ∙ q.same_open ∙ e

        go : (ok : Bool) → Ran w o.frames ok (os.close fd u')
        go true = (all, closed u' open_still)
        go false = (
          (
            length (telemetry 0 o.frames),
            all
                ∙ ap (λ b. output w ++ b)
                    (sym (
                      take_all (length (telemetry 0 o.frames)) (telemetry 0 o.frames)
                        (omega arith))),
          ),
          closed u' open_still,
        )

  send_on_lem :
      (fuel rounds : ℕ) (o : LoadOptions) (w : World)
      → IsInRange o
      → signals w + o.batch_frames * frame_size < fuel
      → o.frames < rounds
      → (fd : Option ℕ) (v : World)
      → OpensLaw (opened w) fd (opened v) × (output v ≡ output w) × (signals v ≤ signals w)
      → Ensures (Ran w o.frames) (send_on os fuel rounds o fd v)
  unfolding send_on
  send_on_lem fuel rounds o w g h m none v (e, same, fewer) =
      ((0, same ∙ sym (append-nil (output w))), λ i. ap (λ (f : ℕ → Bool). f i) e)
  send_on_lem fuel rounds o w g h m (some fd) v ((fresh, e), same, fewer) =
      go (os.connect fd o.port v).0 (os.connect fd o.port v).1 (laws.connect_law fd o.port v)
    where
      buffer : Bytes
      buffer = replicate (o.batch_frames * frame_size) 0

      from_first : o.frames - 0 ≡ o.frames
      from_first = omega arith

      go :
          (ok : Bool) (u : World)
          → (opened u ≡ opened v) × (output u ≡ output v) × (signals u ≤ signals v)
          → Ensures (Ran w o.frames) (elim ok [
            | false ↦ some (false, os.close fd u)
            | true ↦ finish os fd (send_frames os fuel rounds fd o buffer 0 u)
          ])
      go false u q = (
        (0, (laws.close_law fd u).1 ∙ q.1 ∙ same ∙ sym (append-nil (output w))),
        closed w o fd fresh u (q.0 ∙ e),
      )
      go true u q =
          finish_lem w o fd fresh u (q.0 ∙ e) (q.1 ∙ same)
            (send_frames os fuel rounds fd o buffer 0 u)
            (subst
              (λ n.
                Ensures (Sends laws u (telemetry 0 n)) (send_frames os fuel rounds fd o buffer 0 u))
              from_first
              (send_frames_lem laws fuel rounds fd o buffer 0 u g.some_batch
                (length-replicate (o.batch_frames * frame_size) 0) (omega (arith, h, q, fewer))
                (omega (arith, m))))

  -- `main` of the load generator returns, with fuel for the interrupted calls and the bytes of
  -- the largest batch and with more rounds than frames can be asked for. When its options are
  -- refused, or ask for help, it does nothing, and fails or succeeds. Else the options are in
  -- the ranges of its usage text, and after a success the frames of as many records as were
  -- asked for, numbered from 1, have gone out in order, and after a failure a front of these
  -- bytes; each descriptor that it opened is closed again.
  pub load_lem :
      (fuel rounds : ℕ) (args : List Text) (w : World)
      → signals w + 4096 * frame_size < fuel
      → 1000000 < rounds
      → Ensures (Loads (parse_options args default_options) w) (main os fuel rounds args w)
  unfolding main
  load_lem fuel rounds args w h m =
      go (parse_options args default_options) (parse_options_lem args default_options (omega arith))
    where
      go :
          (r : ParsedOptions)
          → Yields r
          → Ensures (Loads r w) (elim r [
            | ParsedOptions.helped ↦ some (true, w)
            | ParsedOptions.refused ↦ some (false, w)
            | ParsedOptions.parsed o ↦ let (fd, v) = os.socket w in send_on os fuel rounds o fd v
          ])
      go ParsedOptions.helped y = (refl, refl)
      go ParsedOptions.refused y = (refl, refl)
      go (ParsedOptions.parsed o) y =
          Ensures-mono _ _ (send_on os fuel rounds o (os.socket w).0 (os.socket w).1)
            (λ ok v q. (y, q.0, q.1))
            (send_on_lem fuel rounds o w y (omega (arith, h, y.batch_bound))
              (omega (arith, m, y.frames_bound)) (os.socket w).0 (os.socket w).1
              (laws.socket_law w))
