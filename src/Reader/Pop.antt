-- ===== src/Reader/Pop.antt =====
-- One `tryPopBatch` of the reader.
use telemetry_server.Base.{
  ℕ, ◌+◌, ◌*◌, ◌≤◌, ◌≡◌, refl, ap, sym, subst, ◌∙◌, arith, some, List, [], ◌∷◌, ◌++◌, length, take,
  drop, Bool-cases, inl, inr, ==_iff, All, All-take, All-drop, ap₂, length-append, length-take,
  take-append-drop, take_all, length-drop, ◌==◌,
}
use telemetry_server.Protocol.Words.{Bytes}
use telemetry_server.Protocol.Codec.{frame_size}
use telemetry_server.Ipc.Queue
use telemetry_server.Ipc.Ring.{Layout, sub_u64, try_pop_batch, copy_out}
use telemetry_server.Ipc.Ring.Slots.{join_frames, join_frames-append}
use telemetry_server.Ipc.Ring.Refine.{
  IsValid, contents, view, released, released-IsValid, contents-released, copy_out-contents,
  length-contents, try_pop_batch_lem,
}
use telemetry_server.Reader.{ipc_batch_bytes}

-- The bytes of the frames in the ring.
abbrev pub queued : Layout → Bytes
queued l = join_frames (contents l)

-- Each slot holds a `Frame`.
abbrev pub IsFrame : Bytes → Type 0
IsFrame frame = length frame ≡ frame_size

pub length-join_frames :
    (frames : List Bytes)
    → All IsFrame frames
    → length (join_frames frames) ≡ length frames * frame_size
length-join_frames [] h = refl
length-join_frames (f ∷ fs) h =
    omega (arith, length-append f (join_frames fs), h.0, length-join_frames fs h.1)

-- A valid ring of frames.
abbrev pub IsFilled : Layout → Type 0
IsFilled l = IsValid l × All IsFrame (contents l)

-- One pop of the drain: the frames that it takes, and the ring behind them.
pub record Popped (l : Layout) (n : ℕ) (bytes : Bytes) (l' : Layout) : Type 0 where
  pub call : try_pop_batch (some l) ipc_batch_bytes ≡ (n, bytes, some l')
  pub filled : IsFilled l'
  pub size : n * frame_size ≤ length bytes
  pub split : take (n * frame_size) bytes ++ queued l' ≡ queued l
  pub fewer : length (contents l') + n ≡ length (contents l)
  pub last : n ≡ 0 → contents l ≡ []
  pub same_closed : l'.producer_closed ≡ l.producer_closed

pub pop_lem :
    (l : Layout) → IsFilled l → (n : ℕ) × (bytes : Bytes) × (l' : Layout) × Popped l n bytes l'
pop_lem l v = elim (Bool-cases (n == 0)) [
  | inl z ↦
      let n_zero : n ≡ 0 = (==_iff n 0).0 z in
      (
        n,
        [],
        l,
        record {
          call = try_pop_batch_lem l ipc_batch_bytes v.0 ∙ rw z refl;
          filled = v;
          size = omega (arith, n_zero);
          split = ap (λ k. take (k * frame_size) [] ++ queued l) n_zero;
          fewer = omega (arith, n_zero);
          last = λ e. sym (take_all 0 (contents l) (omega (arith, n_zero)));
          same_closed = refl;
        },
      )
  | inr p ↦ (
    n,
    copy_out l n,
    released l n,
    record {
      call = try_pop_batch_lem l ipc_batch_bytes v.0 ∙ rw p refl;
      filled = (
        released-IsValid n v.0 within,
        subst (All IsFrame) (sym (contents-released n v.0 within))
            (All-drop IsFrame n (contents l) v.1),
      );
      size = omega (arith, copied_size);
      split =
          ap (λ b. b ++ queued (released l n))
            (take_all (n * frame_size) (copy_out l n) (omega (arith, copied_size)))
          ∙ ap₂ (λ b c. b ++ join_frames c) (copy_out-contents n v.0 within)
              (contents-released n v.0 within)
          ∙ sym (join_frames-append (take n (contents l)) (drop n (contents l)))
          ∙ ap join_frames (take-append-drop n (contents l));
      fewer =
          ap (λ (c : List Bytes). length c + n) (contents-released n v.0 within)
          ∙ omega (arith, length-drop n (contents l), within, length-contents l);
      last = λ e. absurd (ground (arith, e, p));
      same_closed = refl;
    },
  )
]
  where
    n : ℕ
    n = Queue.wanted (view l) ipc_batch_bytes

    within : n ≤ sub_u64 l.head l.tail
    within = omega (arith, length-contents l)

    copied_size : length (copy_out l n) ≡ n * frame_size
    copied_size =
        ap length (copy_out-contents n v.0 within)
        ∙ length-join_frames (take n (contents l)) (All-take IsFrame n (contents l) v.1)
        ∙ ap (λ k. k * frame_size)
            (length-take n (contents l) ∙ omega (arith, within, length-contents l))
