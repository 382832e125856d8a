-- ===== src/Server/Receive/Frames.antt =====
-- The frames at the front of the bytes that a client has sent.
use telemetry_server.Base.{
  length-drop, drop-append_le, take-append_le, length, ◌+◌, ◌++◌, ℕ, zero, suc, ◌+◌, ◌*◌, ◌≤◌, ◌≡◌,
  ◌≢◌, refl, ap, ap₂, sym, ◌∙◌, arith, true, ◌∷◌, take, drop, All, Bool-cases, inl, inr, drop-drop,
  take-take, drop-take_add,
}
use telemetry_server.Protocol.Words.{Bytes}
use telemetry_server.Protocol.Codec.{frame_size, DecodeError, succeeded, decode}
use telemetry_server.Ipc.Ring.Slots.{split_frames}
use telemetry_server.Ipc.Spsc.{frame_at}
use telemetry_server.Server.Receive.{valid_frames}

abbrev pub IsAccepted : Bytes → Type 0
IsAccepted frame = succeeded (decode frame) ≡ true

-- What `valid_frames` finds in the first `count` frames.
pub record Checked (count : ℕ) (bytes : Bytes) (valid : ℕ) (error : DecodeError) : Type 0 where
  pub within : valid ≤ count
  pub accepted : All IsAccepted (split_frames valid bytes)
  pub complete : error ≡ DecodeError.none → valid ≡ count
  pub invalid : error ≢ DecodeError.none → (decode (frame_at bytes valid)).error ≡ error

drop_frame :
    (n : ℕ) (bytes : Bytes)
    → drop (suc n * frame_size) bytes ≡ drop (n * frame_size) (drop frame_size bytes)
drop_frame n bytes =
    ap (λ k. drop k bytes) {x = suc n * frame_size} {y = frame_size + n * frame_size} (omega arith)
    ∙ sym (drop-drop (n * frame_size) frame_size bytes)

pub valid_frames_lem :
    (count : ℕ) (bytes : Bytes)
    → let (valid, error) = valid_frames count bytes in Checked count bytes valid error
unfolding valid_frames
valid_frames_lem zero bytes = record {
  within = omega arith;
  accepted = tt;
  complete = λ e. refl;
  invalid = λ n. absurd (n refl);
}
valid_frames_lem (suc count) bytes =
    elim (Bool-cases (succeeded (decode (take frame_size bytes)))) [
      | inl good ↦
          let ih : Checked count (drop frame_size bytes) _ _ =
            valid_frames_lem count (drop frame_size bytes) in
          rw good (record {
            within = omega (arith, ih.within);
            accepted = (good, ih.accepted);
            complete = λ e. ap suc (ih.complete e);
            invalid = λ n.
                ap (λ b. (decode (take frame_size b)).error) (drop_frame _ bytes) ∙ ih.invalid n;
          })
      | inr bad ↦ rw bad (record {
        within = omega arith;
        accepted = tt;
        complete = λ e. absurd (ground (arith, e, bad));
        invalid = λ n. refl;
      })
    ]

pub split_frames-take :
    (n : ℕ) (bytes : Bytes) → split_frames n (take (n * frame_size) bytes) ≡ split_frames n bytes
split_frames-take zero bytes = refl
split_frames-take (suc n) bytes =
    ap₂ (λ f fs. f ∷ fs) (take-take frame_size (suc n * frame_size) bytes (omega arith))
      (ap (split_frames n) (
          ap (λ k. drop frame_size (take k bytes)) {x = suc n * frame_size}
            {y = frame_size + n * frame_size} (omega arith)
          ∙ drop-take_add frame_size (n * frame_size) bytes)
        ∙ split_frames-take n (drop frame_size bytes))

-- Frames that are there are not changed by what comes behind them.
pub split_frames-append :
    (n : ℕ) (xs ys : Bytes)
    → n * frame_size ≤ length xs
    → split_frames n (xs ++ ys) ≡ split_frames n xs
split_frames-append zero xs ys h = refl
split_frames-append (suc n) xs ys h =
    ap₂ (λ f fs. f ∷ fs) (take-append_le frame_size xs ys (omega arith))
      (ap (split_frames n) (drop-append_le frame_size xs ys (omega arith))
        ∙ split_frames-append n (drop frame_size xs) ys (omega (arith, length-drop frame_size xs)))

pub split_frames-add :
    (m n : ℕ) (bytes : Bytes)
    → split_frames (m + n) bytes
      ≡ split_frames m bytes ++ split_frames n (drop (m * frame_size) bytes)
split_frames-add zero n bytes = ap (λ k. split_frames k bytes) {x = 0 + n} {y = n} (omega arith)
split_frames-add (suc m) n bytes =
    ap (λ k. split_frames k bytes) {x = suc m + n} {y = suc (m + n)} (omega arith)
    ∙ ap (λ fs. take frame_size bytes ∷ fs)
        (split_frames-add m n (drop frame_size bytes)
          ∙ ap (λ b. split_frames m (drop frame_size bytes) ++ split_frames n b)
              (sym (drop_frame m bytes)))
