-- ===== src/Load/Sender/Laws.antt =====
-- The socket of the load generator, and the bytes that reach it.
use telemetry_server.Base.{
  ℕ, zero, suc, ◌+◌, ◌≤◌, ◌<◌, ◌≡◌, refl, ap, sym, subst, ◌∙◌, arith, Bool, true, false, some, [],
  ◌∷◌, ◌++◌, length, take, drop, append-nil, append_assoc, length-drop, take-add, take-append-drop,
}
use telemetry_server.Base.Action.{Ensures, Ensures-mono}
use telemetry_server.Protocol.Words.{Bytes}
use telemetry_server.Server.Net.{set_at}
use telemetry_server.Server.Startup.Laws.{OpensLaw}
use telemetry_server.Load.Sender.{Os, SendResult, send_all}

-- The bytes that a call takes go out behind those before, and fewer calls are interrupted still.
abbrev pub SendLaw : Bytes → SendResult → Bytes → Bytes → Type 0
SendLaw before (SendResult.took n) bytes after =
    (n ≤ length bytes) × (after ≡ before ++ take n bytes)
SendLaw before SendResult.interrupted bytes after = after ≡ before
SendLaw before SendResult.failed bytes after = after ≡ before

abbrev pub SendPatience : ℕ → SendResult → ℕ → Type 0
SendPatience p (SendResult.took n) p' = p' ≤ p
SendPatience p SendResult.interrupted p' = p' < p
SendPatience p SendResult.failed p' = p' ≤ p

pub record OsLaws (os : Os) : Type 0 where
  -- what has gone out, and which descriptors are open
  pub output : os.World → Bytes
  pub opened : os.World → ℕ → Bool
  -- how many calls are still interrupted, at most
  pub signals : os.World → ℕ
  pub send_law :
      (fd : ℕ) (b : Bytes) (w : os.World)
      → let (r, v) = os.send fd b w in SendLaw (output w) r b (output v) × (opened v ≡ opened w)
  pub send_signals :
      (fd : ℕ) (b : Bytes) (w : os.World)
      → let (r, v) = os.send fd b w in SendPatience (signals w) r (signals v)
  pub socket_law :
      (w : os.World)
      → let (r, v) = os.socket w in
        OpensLaw (opened w) r (opened v) × (output v ≡ output w) × (signals v ≤ signals w)
  pub connect_law :
      (fd port : ℕ) (w : os.World)
      → let v = (os.connect fd port w).1 in
        (opened v ≡ opened w) × (output v ≡ output w) × (signals v ≤ signals w)
  pub shutdown_law :
      (fd : ℕ) (w : os.World)
      → let v = (os.shutdown fd w).1 in (opened v ≡ opened w) × (output v ≡ output w)
  pub close_law :
      (fd : ℕ) (w : os.World)
      → let v = os.close fd w in (opened v ≡ set_at (opened w) fd false) × (output v ≡ output w)

module _ {os : Os} (laws : OsLaws os) where
  open os use {World}
  open laws use {output, opened, signals}

  -- These bytes have gone out, and nothing was opened or closed.
  pub record Sent (w : World) (bytes : Bytes) (v : World) : Type 0 where
    pub output_is : output v ≡ output w ++ bytes
    pub same_open : opened v ≡ opened w
    pub fewer_signals : signals v ≤ signals w

  pub Sent-nothing : (w : World) → Sent w [] w
  Sent-nothing w = record {
    output_is = sym (append-nil (output w));
    same_open = refl;
    fewer_signals = omega arith;
  }

  pub Sent-Sent : (w v u : World) (a b : Bytes) → Sent w a v → Sent v b u → Sent w (a ++ b) u
  Sent-Sent w v u a b p q = record {
    output_is = q.output_is ∙ ap (λ x. x ++ b) p.output_is ∙ append_assoc (output w) a b;
    same_open = q.same_open ∙ p.same_open;
    fewer_signals = omega (arith, p.fewer_signals, q.fewer_signals);
  }

  -- After a failure the front of the bytes has gone out.
  abbrev pub Sends : World → Bytes → Bool → World → Type 0
  Sends w bytes true v = Sent w bytes v
  Sends w bytes false v = (k : ℕ) × Sent w (take k bytes) v

  Sends-after :
      (w v : World) (bytes : Bytes) (n : ℕ)
      → Sent w (take n bytes) v
      → (ok : Bool) (u : World) → Sends v (drop n bytes) ok u
      → Sends w bytes ok u
  Sends-after w v bytes n p true u q =
      subst (λ b. Sent w b u) (take-append-drop n bytes) (Sent-Sent w v u _ _ p q)
  Sends-after w v bytes n p false u (k, q) =
      (n + k, subst (λ b. Sent w b u) (sym (take-add n k bytes)) (Sent-Sent w v u _ _ p q))

  pub send_all_lem :
      (fuel fd : ℕ) (bytes : Bytes) (w : World)
      → signals w + length bytes < fuel
      → Ensures (Sends w bytes) (send_all os fuel fd bytes w)
  unfolding send_all
  send_all_lem zero fd bytes w h = absurd (omega arith)
  send_all_lem (suc fuel) fd [] w h = Sent-nothing w
  send_all_lem (suc fuel) fd (b ∷ bs) w h =
      go (os.send fd (b ∷ bs) w).0 (os.send fd (b ∷ bs) w).1 (laws.send_law fd (b ∷ bs) w)
        (laws.send_signals fd (b ∷ bs) w) (λ c v k. send_all_lem fuel fd c v k)
    where
      go :
          (r : SendResult) (v : World)
          → SendLaw (output w) r (b ∷ bs) (output v) × (opened v ≡ opened w)
          → SendPatience (signals w) r (signals v)
          → ((c : Bytes) (u : World)
              → signals u + length c < fuel
              → Ensures (Sends u c) (send_all os fuel fd c u))
          → Ensures (Sends w (b ∷ bs)) (elim r [
            | SendResult.took zero ↦ some (false, v)
            | SendResult.took (suc n) ↦ send_all os fuel fd (drop n bs) v
            | SendResult.interrupted ↦ send_all os fuel fd (b ∷ bs) v
            | SendResult.failed ↦ some (false, v)
          ])
      go (SendResult.took zero) v l p again =
          (0, record { output_is = l.0.1; same_open = l.1; fewer_signals = p })
      go (SendResult.took (suc n)) v l p again =
          Ensures-mono _ _ (send_all os fuel fd (drop n bs) v)
            (Sends-after w v (b ∷ bs) (suc n)
              (record { output_is = l.0.1; same_open = l.1; fewer_signals = p }))
            (again (drop n bs) v (omega (arith, h, p, l.0.0, length-drop n bs)))
      go SendResult.interrupted v l p again =
          Ensures-mono _ _ (send_all os fuel fd (b ∷ bs) v)
            (Sends-after w v (b ∷ bs) 0 (record {
              output_is = l.0 ∙ sym (append-nil (output w));
              same_open = l.1;
              fewer_signals = omega (arith, p);
            }))
            (again (b ∷ bs) v (omega (arith, h, p)))
      go SendResult.failed v l p again = (
        0,
        record {
          output_is = l.0 ∙ sym (append-nil (output w));
          same_open = l.1;
          fewer_signals = p;
        },
      )
