-- ===== src/Load/Sender/Frames.antt =====
-- `while (sent < o.frames)` of the load generator.
use telemetry_server.Base.{
  ℕ, zero, suc, ◌+◌, ◌-◌, ◌*◌, ◌≤◌, ◌<◌, ◌≡◌, ap, sym, subst, ◌∙◌, arith, min, Bool, true, false,
  ◌++◌, length, take, length-take, take-append_add, take-append_le, take_all, take-take-min,
  Bool-cases, ltb, ltb→lt, inl, inr,
}
use telemetry_server.Base.Action.{Ensures, Ensures-mono, Ensures-and, ◌&&=◌}
use telemetry_server.Protocol.Words.{Bytes}
use telemetry_server.Protocol.Codec.{frame_size}
use telemetry_server.Load.Options.{LoadOptions}
use telemetry_server.Load.Sender.{Os, fill, send_all, send_frames}
use telemetry_server.Load.Sender.Batch.{
  telemetry, length-telemetry, telemetry-add, length-fill, take-fill,
}
use telemetry_server.Load.Sender.Laws.{OsLaws, Sent, Sent-nothing, Sent-Sent, Sends, send_all_lem}

take_cut : (k : ℕ) (xs : Bytes) → take k xs ≡ take (min k (length xs)) xs
take_cut k xs =
    ap (take k) (sym (take_all (length xs) xs (omega arith))) ∙ take-take-min k (length xs) xs

take-telemetry :
    (sent m n k : ℕ)
    → m ≤ n
    → k ≤ m * frame_size
    → take k (telemetry sent m) ≡ take k (telemetry sent n)
take-telemetry sent m n k h le =
    let size = length-telemetry sent m in
    sym
      (take-append_le k (telemetry sent m) (telemetry (sent + m) (n - m)) (omega (arith, size, le)))
    ∙ ap (take k) (sym (telemetry-add sent m (n - m)))
    ∙ ap (λ i. take k (telemetry sent i)) {x = m + (n - m)} {y = n} (omega (arith, h))

module _ {os : Os} (laws : OsLaws os) where
  open os use {World}
  open laws use {signals}

  -- After a batch of `count` out of `left` frames.
  module _ (sent count left : ℕ) (h : count ≤ left) where
    all_is : telemetry sent left ≡ telemetry sent count ++ telemetry (sent + count) (left - count)
    all_is =
        ap (telemetry sent) {x = left} {y = count + (left - count)} (omega (arith, h))
        ∙ telemetry-add sent count (left - count)

    after :
        (w v : World)
        → Sent laws w (telemetry sent count) v
        → (ok : Bool) (u : World) → Sends laws v (telemetry (sent + count) (left - count)) ok u
        → Sends laws w (telemetry sent left) ok u
    after w v p true u q = subst (λ x. Sent laws w x u) (sym all_is) (Sent-Sent laws w v u _ _ p q)
    after w v p false u (k, q) = (
      length (telemetry sent count) + k,
      subst (λ x. Sent laws w x u)
          (sym (
            ap (take (length (telemetry sent count) + k)) all_is
            ∙ take-append_add (telemetry sent count) _ k))
          (Sent-Sent laws w v u _ _ p q),
    )

    stopped :
        (w v : World)
        → Sends laws w (telemetry sent count) false v
        → Sends laws w (telemetry sent left) false v
    stopped w v (k, q) =
        let m = min k (length (telemetry sent count)) in
        (
          m,
          subst (λ x. Sent laws w x v)
              (take_cut k (telemetry sent count)
                ∙ take-telemetry sent count left m h (omega (arith, length-telemetry sent count)))
              q,
        )

  pub send_frames_lem :
      (fuel rounds fd : ℕ) (o : LoadOptions) (buffer : Bytes) (sent : ℕ) (w : World)
      → 1 ≤ o.batch_frames
      → length buffer ≡ o.batch_frames * frame_size
      → signals w + o.batch_frames * frame_size < fuel
      → o.frames - sent < rounds
      → Ensures
          (Sends laws w (telemetry sent (o.frames - sent)))
          (send_frames os fuel rounds fd o buffer sent w)
  unfolding send_frames
  send_frames_lem fuel zero fd o buffer sent w b size h more = absurd (omega (arith, more))
  send_frames_lem fuel (suc rounds) fd o buffer sent w b size h more =
      elim (Bool-cases (ltb sent o.frames)) [
        | inl e ↦ rw e (
            batch (ltb→lt sent o.frames e)
              (send_frames_lem fuel rounds fd o buffer' (sent + count)))
        | inr e ↦ rw e (done (ground (arith, e)))
      ]
    where
      count : ℕ
      count = min o.batch_frames (o.frames - sent)

      buffer' : Bytes
      buffer' = fill count 0 sent buffer

      data_is : take (count * frame_size) buffer' ≡ telemetry sent count
      data_is =
          ap (λ k. take (k * frame_size) buffer') {x = count} {y = 0 + count} (omega arith)
          ∙ take-fill count 0 sent buffer (omega (arith, size))
          ∙ ap (λ k. telemetry k count) {x = sent + 0} {y = sent} (omega arith)

      done : o.frames - sent ≡ 0 → Sent laws w (telemetry sent (o.frames - sent)) w
      done z = rw z (Sent-nothing laws w)

      rest_is : o.frames - (sent + count) ≡ o.frames - sent - count
      rest_is = omega arith

      batch :
          sent < o.frames
          → ((v : World)
              → 1 ≤ o.batch_frames
              → length buffer' ≡ o.batch_frames * frame_size
              → signals v + o.batch_frames * frame_size < fuel
              → o.frames - (sent + count) < rounds
              → Ensures
                  (Sends laws v (telemetry (sent + count) (o.frames - (sent + count))))
                  (send_frames os fuel rounds fd o buffer' (sent + count) v))
          → Ensures (Sends laws w (telemetry sent (o.frames - sent))) (
              (send_all os fuel fd (take (count * frame_size) buffer')
                  &&= send_frames os fuel rounds fd o buffer' (sent + count))
                w)
      batch less again =
          let bound = length-take (count * frame_size) buffer' in
          Ensures-and (Sends laws w (telemetry sent count))
            (Sends laws w (telemetry sent (o.frames - sent)))
            (send_all os fuel fd (take (count * frame_size) buffer'))
            (send_frames os fuel rounds fd o buffer' (sent + count)) w
            (subst
              (λ x.
                Ensures (Sends laws w x)
                  (send_all os fuel fd (take (count * frame_size) buffer') w))
              data_is
              (send_all_lem laws fuel fd (take (count * frame_size) buffer') w
                (omega (arith, h, bound))))
            (λ v p. stopped sent count (o.frames - sent) (omega arith) w v p)
            (λ v p.
              let f = p.fewer_signals in
              Ensures-mono _ _ (send_frames os fuel rounds fd o buffer' (sent + count) v)
                (after sent count (o.frames - sent) (omega arith) w v p)
                (subst
                  (λ k.
                    Ensures (Sends laws v (telemetry (sent + count) k))
                      (send_frames os fuel rounds fd o buffer' (sent + count) v))
                  rest_is
                  (again v b (length-fill count 0 sent buffer (omega (arith, size)) ∙ size)
                    (omega (arith, h, f)) (omega (arith, more, less, b)))))
