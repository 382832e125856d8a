-- ===== src/Server/Receive/Laws.antt =====
-- A round of `readClient`, from the client's bytes to the ring.
use telemetry_server.Base.{
  ℕ, zero, suc, ◌+◌, ◌*◌, ◌/◌, ◌≤◌, ◌<◌, ◌≡◌, ◌≢◌, refl, ap, sym, subst, ◌∙◌, arith, Bool, true,
  false, not, some, ◌++◌, length, take, drop, All, Bool-cases, inl, inr, length-append, length-take,
  length-drop, drop-append_le, drop-drop, ltb, leb, ltb→lt, ltb_of_le, ◌==◌, append-nil, ==_of_eq,
  ==_of_ne, ==_iff,
}
use telemetry_server.Protocol.Words.{Bytes}
use telemetry_server.Protocol.Codec.{frame_size, DecodeError, decode}
use telemetry_server.Ipc.Ring
use telemetry_server.Ipc.Ring.{SharedRingBuffer, Layout, capacity_frames, sub_u64, try_push_batch}
use telemetry_server.Ipc.Ring.Slots.{split_frames}
use telemetry_server.Ipc.Ring.Refine.{
  IsValid, contents, view, published, published-IsValid, contents-published, length-contents,
  try_push_batch_lem,
}
use telemetry_server.Ipc.Spsc.{frame_at}
use telemetry_server.Ipc.Queue
use telemetry_server.Server.Buffer.{
  Buffer, pending_bytes, pending, length-pending, IsInOrder, compact, compact_lem,
}
use telemetry_server.Server.Receive.{
  Outcome, Receipt, insert, valid_frames, settle, publish, publish_frames, receive,
  max_client_buffer, pause_ingress_bytes,
}
use telemetry_server.Server.Receive.Frames.{
  IsAccepted, Checked, valid_frames_lem, split_frames-take,
}

-- What a client has sent and the server has not yet dealt with.
abbrev pub stream : Buffer → Bytes → Bytes
stream b received = pending b ++ received

-- Below the threshold there is room for all that one client may have waiting.
abbrev pub IsRoomy : Layout → Type 0
IsRoomy l =
    IsValid l × (l.producer_closed ≡ 0) × (sub_u64 l.head l.tail * frame_size < pause_ingress_bytes)

push_lem :
    (l : Layout) (n : ℕ) (bytes : Bytes)
    → IsRoomy l
    → n * frame_size ≤ length bytes
    → n * frame_size ≤ max_client_buffer
    → n ≢ 0
    → try_push_batch (some l) (take (n * frame_size) bytes)
      ≡ (n, some (published l n (take (n * frame_size) bytes)))
push_lem l n bytes r h m ne =
    let size : length (take (n * frame_size) bytes) ≡ n * frame_size =
      omega (arith, length-take (n * frame_size) bytes) in
    let room : Queue.room (view l) (take (n * frame_size) bytes) ≡ n =
      ground (arith, length-contents l) in
    try_push_batch_lem l (take (n * frame_size) bytes) r.0 ∙ rw (room, ==_of_ne ne) refl

-- A round that has put the first `valid` frames of `bytes` behind those of `l`, and leaves the ring
-- roomy unless it asks for a pause.
pub record Published (l : Layout) (bytes : Bytes) (valid : ℕ) (r : Receipt) : Type 0 where
  pub layout : Layout
  pub ring_is : r.ring ≡ some layout
  pub valid_ring : IsValid layout
  pub not_closed : layout.producer_closed ≡ 0
  pub contents_are : contents layout ≡ contents l ++ split_frames valid bytes
  pub accepted : All IsAccepted (split_frames valid bytes)
  pub notifies : r.published ≡ not (valid == 0)
  pub within : valid * frame_size ≤ length bytes
  pub roomy : r.pause_requested ≡ false → IsRoomy layout

-- The outcome of a round on the bytes that were waiting and those that came.
abbrev pub Deals : Layout → Bytes → Receipt → Outcome → Type 0
Deals l bytes r Outcome.over_limit = (r.ring ≡ some l) × (max_client_buffer < length bytes)
Deals l bytes r Outcome.ring_full = ⊥
Deals l bytes r (Outcome.rejected error) =
    (valid : ℕ) × Published l bytes valid r
    × ((decode (frame_at bytes valid)).error ≡ error)
    × (error ≢ DecodeError.none)
Deals l bytes r Outcome.kept =
    Published l bytes (length bytes / frame_size) r
    × (pending r.buffer ≡ drop (length bytes / frame_size * frame_size) bytes)
    × IsInOrder r.buffer
    × (r.buffer.offset < 4096)

-- What `settle` is told of the round.
record Settles (l : Layout) (bytes : Bytes) (valid : ℕ) (b : Buffer) (l' : Layout)
    (published pause : Bool) : Type 0 where
  valid_ring : IsValid l'
  not_closed : l'.producer_closed ≡ 0
  contents_are : contents l' ≡ contents l ++ split_frames valid bytes
  notifies : published ≡ not (valid == 0)
  within : valid * frame_size ≤ length bytes
  roomy : pause ≡ false → IsRoomy l'
  rest : pending b ≡ drop (valid * frame_size) bytes
  in_order : IsInOrder b

module _ {l l' : Layout} {bytes : Bytes} {valid : ℕ} {b : Buffer} {published pause : Bool}
    (q : Settles l bytes valid b l' published pause) where
  Settles-Published :
      (r : Receipt)
      → All IsAccepted (split_frames valid bytes)
      → r.ring ≡ some l'
      → r.published ≡ published
      → r.pause_requested ≡ pause
      → Published l bytes valid r
  Settles-Published r a e n p = record {
    layout = l';
    ring_is = e;
    valid_ring = q.valid_ring;
    not_closed = q.not_closed;
    contents_are = q.contents_are;
    accepted = a;
    notifies = n ∙ q.notifies;
    within = q.within;
    roomy = λ f. q.roomy (sym p ∙ f);
  }

  settle-Deals :
      (error : DecodeError)
      → Checked (length bytes / frame_size) bytes valid error
      → let r = settle error b (some l') published pause in Deals l bytes r r.outcome
  unfolding settle
  settle-Deals DecodeError.none c =
      let k : valid ≡ length bytes / frame_size = c.complete refl in
      let m : (pending (compact 4096 b) ≡ pending b)
          × IsInOrder (compact 4096 b)
          × ((compact 4096 b).offset ≢ 0 → (compact 4096 b).offset < 4096) =
        compact_lem 4096 b q.in_order in
      (
        subst (λ v. Published l bytes v r) k (Settles-Published r c.accepted refl refl refl),
        m.0 ∙ q.rest ∙ ap (λ v. drop (v * frame_size) bytes) k,
        m.1,
        below m.2,
      )
    where
      r : Receipt
      r = settle DecodeError.none b (some l') published pause

      below :
          ((compact 4096 b).offset ≢ 0 → (compact 4096 b).offset < 4096)
          → (compact 4096 b).offset < 4096
      below h = elim (Bool-cases ((compact 4096 b).offset == 0)) [
        | inl z ↦ (let e = (==_iff (compact 4096 b).offset 0).0 z in omega (arith, e))
        | inr n ↦ h (λ e. ground (arith, e, n))
      ]
  settle-Deals DecodeError.invalid_size c = (
    valid,
    Settles-Published _ c.accepted refl refl refl,
    c.invalid (λ e. absurd (ground (arith, e))),
    λ e. absurd (ground (arith, e)),
  )
  settle-Deals DecodeError.invalid_magic c = (
    valid,
    Settles-Published _ c.accepted refl refl refl,
    c.invalid (λ e. absurd (ground (arith, e))),
    λ e. absurd (ground (arith, e)),
  )
  settle-Deals DecodeError.unsupported_version c = (
    valid,
    Settles-Published _ c.accepted refl refl refl,
    c.invalid (λ e. absurd (ground (arith, e))),
    λ e. absurd (ground (arith, e)),
  )
  settle-Deals DecodeError.invalid_declared_frame_size c = (
    valid,
    Settles-Published _ c.accepted refl refl refl,
    c.invalid (λ e. absurd (ground (arith, e))),
    λ e. absurd (ground (arith, e)),
  )

publish_round :
    (b : Buffer) (l : Layout) (n : ℕ) (error : DecodeError)
    → IsRoomy l
    → n * frame_size ≤ length (pending b)
    → length (pending b) ≤ max_client_buffer
    → n ≢ 0
    → let l' = published l n (take (n * frame_size) (pending b)) in
      publish_frames (n, error) b (some l) false
      ≡ settle error
          (record b { offset = b.offset + n * frame_size })
          (some l')
          true
          (leb pause_ingress_bytes (sub_u64 l'.head l'.tail * frame_size))
unfolding publish_frames publish Ring.pending_bytes Ring.pending_frames
publish_round b l n error r h m ne =
    rw
      (
        push_lem l n (pending b) r h (omega arith) ne,
        ==_of_ne ne,
        ==_of_eq {a = n} refl,
        publish,
        publish_frames,
      )
      refl

publish_frames-Deals :
    (b : Buffer) (l : Layout) (valid : ℕ) (error : DecodeError)
    → IsRoomy l
    → IsInOrder b
    → length (pending b) ≤ max_client_buffer
    → Checked (length (pending b) / frame_size) (pending b) valid error
    → let r = publish_frames (valid, error) b (some l) false in Deals l (pending b) r r.outcome
unfolding publish_frames publish Ring.pending_bytes Ring.pending_frames
publish_frames-Deals b l zero error r o m c =
    settle-Deals
      (record {
        valid_ring = r.0;
        not_closed = r.1;
        contents_are = sym (append-nil (contents l));
        notifies = refl;
        within = omega arith;
        roomy = λ e. r;
        rest = refl;
        in_order = o;
      })
      error c
publish_frames-Deals b l (suc valid) error r o m c =
    subst (λ (x : Receipt). Deals l (pending b) x x.outcome)
      (sym (publish_round b l (suc valid) error r (omega (arith, c.within)) m (omega arith)))
      (settle-Deals told error c)
  where
    l' : Layout
    l' = published l (suc valid) (take (suc valid * frame_size) (pending b))

    l'-IsValid : IsValid l'
    l'-IsValid = published-IsValid (suc valid) _ r.0 (omega (arith, c.within, r.2))

    told :
        Settles l
          (pending b)
          (suc valid)
          (record b { offset = b.offset + suc valid * frame_size })
          l'
          true
          (leb pause_ingress_bytes (sub_u64 l'.head l'.tail * frame_size))
    told = record {
      valid_ring = l'-IsValid;
      not_closed = r.1;
      contents_are =
          contents-published (suc valid) _ r.0 (omega (arith, c.within, r.2))
          ∙ ap (λ fs. contents l ++ fs) (split_frames-take (suc valid) (pending b));
      notifies = ground arith;
      within = omega (arith, c.within);
      roomy = λ e. (l'-IsValid, r.1, ground (arith, e));
      rest = sym (drop-drop (suc valid * frame_size) b.offset b.bytes);
      in_order = omega (arith, c.within, length-drop b.offset b.bytes);
    }

receive_round :
    (b : Buffer) (l : Layout) (received : Bytes)
    → let b' = insert b received in
      length (pending b') ≤ max_client_buffer
      → receive b (some l) false received
        ≡ publish_frames
            (valid_frames (length (pending b') / frame_size) (pending b'))
            b'
            (some l)
            false
unfolding receive
receive_round b l received m =
    rw
      (
        ltb_of_le max_client_buffer (pending_bytes (insert b received))
            (omega (arith, length-pending (insert b received))),
        receive,
        length-pending (insert b received),
      )
      refl

receive_over :
    (b : Buffer) (l : Layout) (received : Bytes)
    → ltb max_client_buffer (pending_bytes (insert b received)) ≡ true
    → receive b (some l) false received ≡ record {
      buffer = insert b received;
      ring = some l;
      published = false;
      pause_requested = false;
      outcome = Outcome.over_limit;
    }
unfolding receive
receive_over b l received e = rw (e, receive) refl

-- What `readClient` does with the bytes of one `recv`, for a client buffer in order and a valid,
-- open ring below the pause threshold. The ring is never too full. A client within its limit has
-- all whole frames published, in order, and keeps the rest pending, behind fewer than 4096 bytes
-- that are done with, or is rejected with the error of its first frame that is not valid, and
-- just the frames before that are published. Only accepted frames are published, the reader is
-- notified when there are any, and the ring stays below the threshold unless a pause is asked
-- for. A client over its limit changes nothing in the ring.
pub receive_lem :
    (b : Buffer) (l : Layout) (received : Bytes)
    → IsInOrder b
    → IsRoomy l
    → let r = receive b (some l) false received in Deals l (pending b ++ received) r r.outcome
unfolding receive
receive_lem b l received o r = elim (Bool-cases (ltb max_client_buffer (pending_bytes b'))) [
  | inl big ↦
      subst (λ (x : Receipt). Deals l (pending b ++ received) x x.outcome)
        (sym (receive_over b l received big))
        (
          refl,
          omega (
            arith,
            ltb→lt max_client_buffer (pending_bytes b') big,
            length-pending b',
            ap length all,
          ),
        )
  | inr small ↦
      subst
        (λ bytes.
          Deals l bytes (receive b (some l) false received)
            (receive b (some l) false received).outcome)
        all
        (subst (λ (x : Receipt). Deals l (pending b') x x.outcome)
          (sym (receive_round b l received (within small)))
          (publish_frames-Deals b' l _ _ r (omega (arith, length-append b.bytes received))
            (within small) (valid_frames_lem (length (pending b') / frame_size) (pending b'))))
]
  where
    b' : Buffer
    b' = insert b received

    all : pending b' ≡ pending b ++ received
    all = drop-append_le b.offset b.bytes received o

    within :
        ltb max_client_buffer (pending_bytes b') ≡ false → length (pending b') ≤ max_client_buffer
    within e =
        let p : pending_bytes b' ≡ length (pending b') = length-pending b' in ground (arith, e, p)
