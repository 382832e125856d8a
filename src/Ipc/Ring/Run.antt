-- ===== src/Ipc/Ring/Run.antt =====
-- A client's calls, one after the other, on the ring and on the queue.
use telemetry_server.Base.{
  ℕ, suc, ◌-◌, ◌%◌, ◌≤◌, true, false, some, ◌≡◌, ◌≢◌, refl, ap, sym, ◌∙◌, arith, List, [], ◌∷◌,
  ◌++◌, length, take, drop, Bool-cases, ==_iff, ==_of_eq, ==_of_ne, subst, ◌⊎◌, ◌==◌, if◌then◌else◌,
  inl, inr, append-nil, take_all,
}
use native.Mathlib.Decide.{ℕ_discrete}
use telemetry_server.Protocol.Words.{Bytes}
use telemetry_server.Protocol.Codec.{frame_size}
use telemetry_server.Ipc.Queue
use telemetry_server.Ipc.Queue.{FrameQueue, Op, Reply}
use telemetry_server.Ipc.Ring.{
  SharedRingBuffer, Layout, capacity_frames, sub_u64, write_slot, copy_in, try_push, try_pop,
  try_push_batch, try_pop_batch, close_producer, pending_frames,
}
use telemetry_server.Ipc.Ring.Slots.{split_frames, join_frames, window, copy_in-eq-round}
use telemetry_server.Ipc.Ring.Refine.{
  IsValid, contents, view, published, released, published-IsValid, released-IsValid,
  contents-published, contents-released, copy_out-contents, length-contents, try_push_batch_lem,
  try_pop_batch_lem,
}

-- One call of the class.
unfoldable pub call : SharedRingBuffer → Op → Reply × SharedRingBuffer
call r (Op.push frame) = let (done, r') = try_push r frame in (Reply.pushed done, r')
call r (Op.pop size) = let (frame, r') = try_pop r size in (Reply.popped frame, r')
call r (Op.push_batch bytes) = let (n, r') = try_push_batch r bytes in (Reply.pushed_batch n, r')
call r (Op.pop_batch size) =
    let (n, bytes, r') = try_pop_batch r size in (Reply.popped_batch n bytes, r')
call r Op.close = (Reply.closed, close_producer r)
call r Op.pending_frames = (Reply.counted (pending_frames r), r)

unfoldable pub calls : SharedRingBuffer → List Op → List Reply
calls r [] = []
calls r (op ∷ ops) = let (reply, r') = call r op in reply ∷ calls r' ops

-- The call answers as the queue does, and the ring that it leaves stands for the queue's next state.
abbrev pub Agrees : Layout → Op → Type 0
Agrees l op =
    let (reply, q) = Queue.step (view l) op in
    (l' : Layout) × (call (some l) op ≡ (reply, some l')) × IsValid l' × (view l' ≡ q)

module _ (l : Layout) (v : IsValid l) where
  frames_path :
      {xs ys : List Bytes}
      → xs ≡ ys
      → ◌≡◌ {A = FrameQueue} (record (view l) { frames = xs }) (record (view l) { frames = ys })
  frames_path e = ap (λ fs. record (view l) { frames = fs }) e

  room-le : (bytes : Bytes) → Queue.room (view l) bytes ≤ capacity_frames - sub_u64 l.head l.tail
  room-le bytes = ground (arith, length-contents l)

  wanted-le : (size : ℕ) → Queue.wanted (view l) size ≤ sub_u64 l.head l.tail
  wanted-le size = ground (arith, length-contents l)

  push_batch-Agrees : (bytes : Bytes) → Agrees l (Op.push_batch bytes)
  unfolding call Queue.step
  push_batch-Agrees bytes = elim (Bool-cases (n == 0)) [
    | inl z ↦ (l, rw (try_push_batch_lem l bytes v, z), v, same z)
    | inr p ↦ (
      published l n bytes,
      rw (try_push_batch_lem l bytes v, p),
      published-IsValid n bytes v (room-le bytes),
      frames_path (contents-published n bytes v (room-le bytes)),
    )
  ]
    where
      n : ℕ
      n = Queue.room (view l) bytes

      same :
          (n == 0) ≡ true → view l ≡ record (view l) { frames = contents l ++ split_frames n bytes }
      same z = frames_path (
          sym (append-nil (contents l))
          ∙ ap (λ k. contents l ++ split_frames k bytes) (sym ((==_iff n 0).0 z)))

  pop_batch-Agrees : (size : ℕ) → Agrees l (Op.pop_batch size)
  unfolding call Queue.step
  pop_batch-Agrees size = elim (Bool-cases (n == 0)) [
    | inl z ↦ (l, rw (try_pop_batch_lem l size v, z) (none_popped z), v, same z)
    | inr p ↦ (
      released l n,
      rw (try_pop_batch_lem l size v, p)
          (ap (λ bytes. (Reply.popped_batch n bytes, some (released l n)))
            (copy_out-contents n v (wanted-le size))),
      released-IsValid n v (wanted-le size),
      frames_path (contents-released n v (wanted-le size)),
    )
  ]
    where
      n : ℕ
      n = Queue.wanted (view l) size

      same : (n == 0) ≡ true → view l ≡ record (view l) { frames = drop n (contents l) }
      same z = ap (λ k. record (view l) { frames = drop k (contents l) }) (sym ((==_iff n 0).0 z))

      none_popped :
          (n == 0) ≡ true
          → ◌≡◌ {A = Reply × SharedRingBuffer}
              (Reply.popped_batch n [], some l)
              (Reply.popped_batch n (join_frames (take n (contents l))), some l)
      none_popped z =
          ap (λ k. (Reply.popped_batch n (join_frames (take k (contents l))), some l))
            (sym ((==_iff n 0).0 z))

  -- The single-frame calls are batches of one.
  copy_in_one :
      (frame : Bytes)
      → length frame ≡ frame_size
      → copy_in l 1 frame ≡ write_slot l.slots (l.head % capacity_frames) frame
  copy_in_one frame e =
      copy_in-eq-round l 1 frame (omega arith)
      ∙ ap (write_slot l.slots (l.head % capacity_frames)) (take_all frame_size frame (omega arith))

  try_push-cases :
      (frame : Bytes)
      → let n = if length frame == frame_size then Queue.room (view l) frame else 0 in
        ((try_push (some l) frame ≡ (false, some l)) × (n ≡ 0))
        ⊎ ((try_push (some l) frame ≡ (true, some (published l 1 frame)))
            × (n ≡ 1)
            × (1 ≤ capacity_frames - sub_u64 l.head l.tail))
  unfolding try_push
  try_push-cases frame = ground (arith, length-contents l, copy_in_one frame)

  push-Agrees : (frame : Bytes) → Agrees l (Op.push frame)
  unfolding call Queue.step
  push-Agrees frame = elim (try_push-cases frame) [
    | inl (same, none_in) ↦
        (l, rw (same, none_in), v, rw none_in (frames_path (sym (append-nil (contents l)))))
    | inr (done, one_in, free) ↦ (
      published l 1 frame,
      rw (done, one_in),
      published-IsValid 1 frame v free,
      rw one_in (frames_path (contents-published 1 frame v free)),
    )
  ]

  contents-cases :
      ((l.tail ≡ l.head) × (contents l ≡ []))
      ⊎ ((l.tail ≢ l.head)
          × (1 ≤ sub_u64 l.head l.tail)
          × (contents l ≡ l.slots (l.tail % capacity_frames) ∷ drop 1 (contents l)))
  contents-cases = elim (ℕ_discrete l.tail l.head) [
    | yes e ↦ inl (e, ap (window l.slots l.tail) {y = 0} (omega arith))
    | no n ↦ inr (n, omega arith, cons n)
  ]
    where
      cons : l.tail ≢ l.head → contents l ≡ l.slots (l.tail % capacity_frames) ∷ drop 1 (contents l)
      cons n =
          let e : sub_u64 l.head l.tail ≡ suc (sub_u64 l.head l.tail - 1) = omega arith in
          subst
            (λ k.
              window l.slots l.tail k
              ≡ l.slots (l.tail % capacity_frames) ∷ drop 1 (window l.slots l.tail k))
            (sym e) refl

  pop-Agrees : (size : ℕ) → Agrees l (Op.pop size)
  unfolding call Queue.step try_pop
  pop-Agrees size = elim (Bool-cases (size == frame_size)) [
    | inr bad ↦ (l, rw bad, v, rw bad)
    | inl good ↦ elim contents-cases [
      | inl (e, nil) ↦ (l, rw (good, ==_of_eq e, nil), v, rw (good, nil) (frames_path (sym nil)))
      | inr (n, one_in, cons) ↦ (
        released l 1,
        rw (good, ==_of_ne n, cons),
        released-IsValid 1 v one_in,
        rw (good, cons) (frames_path (contents-released 1 v one_in)),
      )
    ]
  ]

  pub call-Agrees : (op : Op) → Agrees l op
  unfolding call Queue.step close_producer pending_frames
  call-Agrees (Op.push frame) = push-Agrees frame
  call-Agrees (Op.pop size) = pop-Agrees size
  call-Agrees (Op.push_batch bytes) = push_batch-Agrees bytes
  call-Agrees (Op.pop_batch size) = pop_batch-Agrees size
  call-Agrees Op.close = (record l { producer_closed = 1 }, refl, omega arith, refl)
  call-Agrees Op.pending_frames =
      (l, ap (λ n. (Reply.counted n, some l)) (sym (length-contents l)), v, refl)

-- No sequence of calls tells a ring whose counters are in order from the bounded queue of its
-- frames.
pub calls_refine :
    (ops : List Op) (l : Layout) → IsValid l → calls (some l) ops ≡ Queue.run (view l) ops
unfolding calls Queue.run
calls_refine [] l v = refl
calls_refine (op ∷ ops) l v =
    let (l', replied, v', viewed) = call-Agrees l v op in
    rw replied (
      ap (λ rest. (Queue.step (view l) op).0 ∷ rest)
        (calls_refine ops l' v' ∙ ap (λ q. Queue.run q ops) viewed))
