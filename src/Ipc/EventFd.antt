-- ===== src/Ipc/EventFd.antt =====
-- Ipc/src/EventFd.cpp: adding one to the counter of an eventfd, and taking what it holds. The system
-- call on the descriptor is a parameter, and `fuel` bounds how often it is made.
use telemetry_server.Base.{
  ℕ, zero, suc, ◌+◌, ◌≤◌, ◌<◌, ◌≡◌, refl, arith, Bool, true, false, none, some,
}
use telemetry_server.Base.Action.{Action, Ensures}

-- `eventfd_write` and `eventfd_read`, which block: done, `EINTR`, or another error.
pub data Called : Type 0 where
  done interrupted failed : Called

module _ {W : Type 0} where
  -- `while (call(fd) == -1)`
  pub retry : (W → Called × W) → ℕ → Action W Bool
  retry call zero w = none
  retry call (suc fuel) w =
      let (r, w') = call w in
      elim r [
        | Called.done ↦ some (true, w')
        | Called.interrupted ↦ retry call fuel w'
        | Called.failed ↦ some (false, w')
      ]

  unfoldable pub notify_event : (W → Called × W) → ℕ → Action W Bool
  unfolding retry
  notify_event eventfd_write = retry eventfd_write

  unfoldable pub consume_event : (W → Called × W) → ℕ → Action W Bool
  unfolding retry
  consume_event eventfd_read = retry eventfd_read

-- At most so many calls are still interrupted.
abbrev pub Patience : ℕ → Called → ℕ → Type 0
Patience p Called.interrupted p' = p' < p
Patience p Called.done p' = p' ≤ p
Patience p Called.failed p' = p' ≤ p

-- What a call makes of a state with `P`, which an interrupted call keeps.
abbrev pub After : {W : Type 0} → (W → Type 0) → (Bool → W → Type 0) → Called → W → Type 0
After P Q Called.done w = Q true w
After P Q Called.interrupted w = P w
After P Q Called.failed w = Q false w

module _ {W : Type 0} (call : W → Called × W) (signals : W → ℕ)
    (patience : (w : W) → let (r, w') = call w in Patience (signals w) r (signals w')) where
  pub retry_lem :
      (P : W → Type 0) (Q : Bool → W → Type 0)
      → ((w : W) → P w → let (r, w') = call w in After P Q r w')
      → (fuel : ℕ) (w : W) → P w
      → signals w < fuel
      → Ensures Q (retry call fuel w)
  unfolding retry
  retry_lem P Q law zero w p h = absurd (omega arith)
  retry_lem P Q law (suc fuel) w p h =
      go (call w).0 (call w).1 (law w p) (patience w) (λ v q k. retry_lem P Q law fuel v q k)
    where
      go :
          (r : Called) (w' : W)
          → After P Q r w'
          → Patience (signals w) r (signals w')
          → ((v : W) → P v → signals v < fuel → Ensures Q (retry call fuel v))
          → Ensures Q (elim r [
            | Called.done ↦ some (true, w')
            | Called.interrupted ↦ retry call fuel w'
            | Called.failed ↦ some (false, w')
          ])
      go Called.done w' q t again = q
      go Called.failed w' q t again = q
      go Called.interrupted w' q t again = again w' q (omega (arith, t, h))

abbrev pub WriteLaw : ℕ → Called → ℕ → Type 0
WriteLaw n Called.done n' = n' ≡ n + 1
WriteLaw n Called.interrupted n' = n' ≡ n
WriteLaw n Called.failed n' = n' ≡ n

-- Others may add to the counter while a read waits.
abbrev pub ReadLaw : ℕ → Called → ℕ → Type 0
ReadLaw n Called.done n' = n' ≡ 0
ReadLaw n Called.interrupted n' = n ≤ n'
ReadLaw n Called.failed n' = n ≤ n'

module _ {W : Type 0} (call : W → Called × W) (signals counter : W → ℕ)
    (patience : (w : W) → let (r, w') = call w in Patience (signals w) r (signals w')) where
  -- A notification adds one just once, and nothing when it fails.
  abbrev pub Notifies : W → Bool → W → Type 0
  Notifies w true w' = counter w' ≡ counter w + 1
  Notifies w false w' = counter w' ≡ counter w

  -- A wait that succeeds has taken all that was there, and one that fails has taken nothing.
  abbrev pub Consumes : W → Bool → W → Type 0
  Consumes w true w' = counter w' ≡ 0
  Consumes w false w' = counter w ≤ counter w'

  -- `notifyEvent`, with fuel for the calls that are still interrupted, returns. When it
  -- succeeds it has added one to the counter, and when it fails the counter is as it was.
  pub notify_event_lem :
      ((w : W) → let (r, w') = call w in WriteLaw (counter w) r (counter w'))
      → (fuel : ℕ) (w : W) → signals w < fuel
      → Ensures (Notifies w) (notify_event call fuel w)
  unfolding notify_event
  notify_event_lem law fuel w h =
      retry_lem call signals patience (λ v. counter v ≡ counter w) (Notifies w)
        (λ v p. written v p (call v).0 (call v).1 (law v)) fuel w refl h
    where
      written :
          (v : W)
          → counter v ≡ counter w
          → (r : Called) (v' : W) → WriteLaw (counter v) r (counter v')
          → After (λ u. counter u ≡ counter w) (Notifies w) r v'
      written v p Called.done v' q = omega (arith, p, q)
      written v p Called.interrupted v' q = omega (arith, p, q)
      written v p Called.failed v' q = omega (arith, p, q)

  -- `consumeEvent`, with fuel for the calls that are still interrupted, returns. When it
  -- succeeds the counter is empty, and when it fails nothing was taken from it.
  pub consume_event_lem :
      ((w : W) → let (r, w') = call w in ReadLaw (counter w) r (counter w'))
      → (fuel : ℕ) (w : W) → signals w < fuel
      → Ensures (Consumes w) (consume_event call fuel w)
  unfolding consume_event
  consume_event_lem law fuel w h =
      retry_lem call signals patience (λ v. counter w ≤ counter v) (Consumes w)
        (λ v p. read v p (call v).0 (call v).1 (law v)) fuel w (omega arith) h
    where
      read :
          (v : W)
          → counter w ≤ counter v
          → (r : Called) (v' : W) → ReadLaw (counter v) r (counter v')
          → After (λ u. counter w ≤ counter u) (Consumes w) r v'
      read v p Called.done v' q = q
      read v p Called.interrupted v' q = omega (arith, p, q)
      read v p Called.failed v' q = omega (arith, p, q)
