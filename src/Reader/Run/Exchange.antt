-- ===== src/Reader/Run/Exchange.antt =====
-- The ring under what the producer does while the reader notifies it or waits for it.
use telemetry_server.Base.{
  ℕ, zero, suc, ◌+◌, ◌-◌, ◌*◌, ◌≤◌, ◌<◌, ◌≡◌, ◌≢◌, ◌⊎◌, inl, inr, refl, ap, sym, subst, ◌∙◌, arith,
  Bool, true, false, some, [], ◌++◌, length, take, drop, append-nil, append_assoc, All, All-append,
  length-take, length-drop, take-add, Bool-cases, ==_iff, ◌==◌, if◌then◌else◌,
}
use telemetry_server.Base.Action.{Ensures}
use telemetry_server.Protocol.Words.{Bytes}
use telemetry_server.Protocol.Codec.{frame_size}
use telemetry_server.Ipc.Queue
use telemetry_server.Ipc.Ring.{
  Layout, SharedRingBuffer, capacity_frames, sub_u64, try_push_batch, close_producer,
}
use telemetry_server.Ipc.Ring.Slots.{split_frames, join_frames, join_frames-append}
use telemetry_server.Ipc.Ring.Refine.{
  contents, view, published, published-IsValid, contents-published, length-contents,
  try_push_batch_lem,
}
use telemetry_server.Ipc.EventFd.{Called, Patience, After, retry_lem, notify_event, consume_event}
use telemetry_server.Reader.Pop.{queued, IsFrame, IsFilled}
use telemetry_server.Reader.Run.{Peer, Produced, Channel, produce, act}

abbrev pub IsClosed : Layout → Type 0
IsClosed l = l.producer_closed ≢ 0

split_frames-All :
    (n : ℕ) (bytes : Bytes) → n * frame_size ≤ length bytes → All IsFrame (split_frames n bytes)
split_frames-All zero bytes h = tt
split_frames-All (suc n) bytes h = (
  omega (arith, length-take frame_size bytes),
  split_frames-All n (drop frame_size bytes) (omega (arith, length-drop frame_size bytes)),
)

join_frames-split_frames :
    (n : ℕ) (bytes : Bytes) → join_frames (split_frames n bytes) ≡ take (n * frame_size) bytes
join_frames-split_frames zero bytes = refl
join_frames-split_frames (suc n) bytes =
    ap (λ b. take frame_size bytes ++ b) (join_frames-split_frames n (drop frame_size bytes))
    ∙ sym (take-add frame_size (n * frame_size) bytes)
    ∙ ap (λ k. take k bytes) {x = frame_size + n * frame_size} {y = suc n * frame_size}
        (omega arith)

-- What a ring that holds `l` becomes: `fresh` is pushed behind its frames, and a closed ring stays as
-- it is.
pub record Grown (l : Layout) (fresh : Bytes) (l' : Layout) : Type 0 where
  pub filled : IsFilled l'
  pub queued_is : queued l' ≡ queued l ++ fresh
  pub stays_closed : IsClosed l → IsClosed l' × (fresh ≡ [])

pub Grown-refl : (l : Layout) → IsFilled l → Grown l [] l
Grown-refl l v = record {
  filled = v;
  queued_is = sym (append-nil (queued l));
  stays_closed = λ c. (c, refl);
}

pub Grown-trans :
    (l l' l'' : Layout) (a b : Bytes) → Grown l a l' → Grown l' b l'' → Grown l (a ++ b) l''
Grown-trans l l' l'' a b p q = record {
  filled = q.filled;
  queued_is = q.queued_is ∙ ap (λ x. x ++ b) p.queued_is ∙ append_assoc (queued l) a b;
  stays_closed = λ c.
      let (c', e) = p.stays_closed c in
      let (c'', e') = q.stays_closed c' in (c'', ap (λ x. x ++ b) e ∙ e');
}

push_lem :
    (l : Layout) (bytes : Bytes)
    → IsFilled l
    → let (n, ring) = try_push_batch (some l) bytes in
      (l' : Layout) × (ring ≡ some l') × Grown l (take (n * frame_size) bytes) l'
push_lem l bytes v =
    subst
      (λ (r : ℕ × SharedRingBuffer).
        (l' : Layout) × (r.1 ≡ some l') × Grown l (take (r.0 * frame_size) bytes) l')
      (sym (try_push_batch_lem l bytes v.0))
      (elim (Bool-cases (n == 0)) [
        | inl z ↦ rw z (
          l,
          refl,
          subst (λ k. Grown l (take (k * frame_size) bytes) l) (sym ((==_iff n 0).0 z))
              (Grown-refl l v),
        )
        | inr p ↦ rw p (published l n bytes, refl, pushed p)
      ])
  where
    n : ℕ
    n = Queue.room (view l) bytes

    room : n ≤ capacity_frames - sub_u64 l.head l.tail
    room = ground (arith, length-contents l)

    whole : n * frame_size ≤ length bytes
    whole = ground arith

    pushed : (n == 0) ≡ false → Grown l (take (n * frame_size) bytes) (published l n bytes)
    pushed p = record {
      filled = (
        published-IsValid n bytes v.0 room,
        subst (All IsFrame) (sym (contents-published n bytes v.0 room)) (
            All-append IsFrame (contents l) (split_frames n bytes) v.1
              (split_frames-All n bytes whole)),
      );
      queued_is =
          ap join_frames (contents-published n bytes v.0 room)
          ∙ join_frames-append (contents l) (split_frames n bytes)
          ∙ ap (λ b. queued l ++ b) (join_frames-split_frames n bytes);
      stays_closed = λ c. absurd (let z : n ≡ 0 = ground (arith, c) in ground (arith, z, p));
    }

closed_Grown :
    (l : Layout) (b : Bytes) (l' : Layout) (closes : Bool)
    → Grown l b l'
    → (l'' : Layout) × ((if closes then close_producer (some l') else some l') ≡ some l'')
      × Grown l b l''
      × (closes ≡ true → IsClosed l'')
      × (IsClosed l' → IsClosed l'')
unfolding close_producer
closed_Grown l b l' false g = (l', refl, g, (λ e. absurd (ground (arith, e))), λ c. c)
closed_Grown l b l' true g = (
  record l' { producer_closed = 1 },
  refl,
  record {
    filled = (
      record {
        head_word = g.filled.0.head_word;
        tail_word = g.filled.0.tail_word;
        pending = g.filled.0.pending;
      },
      g.filled.1,
    );
    queued_is = g.queued_is;
    stays_closed = λ c. (omega arith, (g.stays_closed c).1);
  },
  (λ e. omega arith),
  λ c. omega arith,
)

module _ {P : Type 0} where
  -- From the ring `l` on: what the producer has pushed is what came into the ring.
  pub record Flow (l : Layout) (c c' : Channel P) : Type 0 where
    pub layout : Layout
    pub fresh : Bytes
    pub ring_is : c'.ring ≡ some layout
    pub grown : Grown l fresh layout
    pub pushed_is : c'.pushed ≡ c.pushed ++ fresh

  pub Flow-refl : (l : Layout) (c : Channel P) → c.ring ≡ some l → IsFilled l → Flow l c c
  Flow-refl l c e v = record {
    layout = l;
    fresh = [];
    ring_is = e;
    grown = Grown-refl l v;
    pushed_is = sym (append-nil c.pushed);
  }

  pub Flow-produce :
      (l : Layout) (c c' : Channel P) (q : Produced) (w : P)
      → (f : Flow l c c')
      → (g : Flow l c (produce q w c')) × (q.closes ≡ true → IsClosed g.layout)
        × (IsClosed f.layout → IsClosed g.layout)
  Flow-produce l c c' q w f =
      let n = (try_push_batch c'.ring q.bytes).0 in
      let b = take (n * frame_size) q.bytes in
      let (l', e, grown) =
        subst
          (λ r.
            let (k, ring) = try_push_batch r q.bytes in
            (l' : Layout) × (ring ≡ some l') × Grown f.layout (take (k * frame_size) q.bytes) l')
          (sym f.ring_is) (push_lem f.layout q.bytes f.grown.filled) in
      let (l'', e', grown', closes, stays) = closed_Grown f.layout b l' q.closes grown in
      (
        record {
          layout = l'';
          fresh = f.fresh ++ b;
          ring_is = ap (λ r. if q.closes then close_producer r else r) e ∙ e';
          grown = Grown-trans l f.layout l'' f.fresh b f.grown grown';
          pushed_is = ap (λ x. x ++ b) f.pushed_is ∙ append_assoc c.pushed f.fresh b;
        },
        closes,
        λ h. stays (grown.stays_closed h).0,
      )

-- At most so many calls are still interrupted, and the producer closes the ring before it has woken the
-- reader `left` times more.
abbrev pub Turns : ℕ → Called → Produced → ℕ → Type 0
Turns left Called.done q left' = (left' ≤ left) × ((q.closes ≡ true) ⊎ (left' < left))
Turns left Called.interrupted q left' = left' ≤ left
Turns left Called.failed q left' = left' ≤ left

pub record PeerLaws (p : Peer) : Type 0 where
  pub signals : p.World → ℕ
  pub left : p.World → ℕ
  pub notify_signals :
      (w : p.World) → let (r, q, w') = p.notify w in Patience (signals w) r (signals w')
  pub wait_signals :
      (w : p.World) → let (r, q, w') = p.wait w in Patience (signals w) r (signals w')
  pub notify_left : (w : p.World) → left (p.notify w).2 ≤ left w
  pub wait_left : (w : p.World) → let (r, q, w') = p.wait w in Turns (left w) r q (left w')

module _ {p : Peer} (laws : PeerLaws p) where
  open p use {World}
  open laws use {signals, left}

  abbrev pub Sent : Layout → Channel World → Channel World → Type 0
  Sent l c c' = Flow l c c' × (signals c'.peer ≤ signals c.peer) × (left c'.peer ≤ left c.peer)

  pub notify_lem :
      (fuel : ℕ) (l : Layout) (c : Channel World)
      → c.ring ≡ some l
      → IsFilled l
      → signals c.peer < fuel
      → Ensures (λ ok c'. Sent l c c') (notify_event (act p.notify) fuel c)
  unfolding notify_event
  notify_lem fuel l c e v h =
      retry_lem (act p.notify) (λ x. signals x.peer) (λ x. laws.notify_signals x.peer) (Sent l c)
        (λ ok x. Sent l c x)
        (λ x s.
          called x s (p.notify x.peer).0 (p.notify x.peer).1 (p.notify x.peer).2
            (laws.notify_signals x.peer) (laws.notify_left x.peer))
        fuel c (Flow-refl l c e v, omega arith, omega arith) h
    where
      called :
          (x : Channel World)
          → Sent l c x
          → (r : Called) (q : Produced) (w : World) → Patience (signals x.peer) r (signals w)
          → left w ≤ left x.peer
          → After (Sent l c) (λ ok y. Sent l c y) r (produce q w x)
      called x s Called.done q w k m =
          ((Flow-produce l c x q w s.0).0, omega (arith, s, k), omega (arith, s, m))
      called x s Called.interrupted q w k m =
          ((Flow-produce l c x q w s.0).0, omega (arith, s, k), omega (arith, s, m))
      called x s Called.failed q w k m =
          ((Flow-produce l c x q w s.0).0, omega (arith, s, k), omega (arith, s, m))

  -- After a wait that succeeds the ring is closed or one turn is over.
  pub record Waits (l : Layout) (c : Channel World) (ok : Bool) (c' : Channel World) : Type 0 where
    pub flow : Flow l c c'
    pub fewer : signals c'.peer ≤ signals c.peer
    pub later : left c'.peer ≤ left c.peer
    pub turn : ok ≡ true → IsClosed flow.layout ⊎ (left c'.peer < left c.peer)

  pub wait_lem :
      (fuel : ℕ) (l : Layout) (c : Channel World)
      → c.ring ≡ some l
      → IsFilled l
      → signals c.peer < fuel
      → Ensures (Waits l c) (consume_event (act p.wait) fuel c)
  unfolding consume_event
  wait_lem fuel l c e v h =
      retry_lem (act p.wait) (λ x. signals x.peer) (λ x. laws.wait_signals x.peer) (Sent l c)
        (Waits l c)
        (λ x s.
          called x s (p.wait x.peer).0 (p.wait x.peer).1 (p.wait x.peer).2
            (laws.wait_signals x.peer) (laws.wait_left x.peer))
        fuel c (Flow-refl l c e v, omega arith, omega arith) h
    where
      called :
          (x : Channel World)
          → Sent l c x
          → (r : Called) (q : Produced) (w : World) → Patience (signals x.peer) r (signals w)
          → Turns (left x.peer) r q (left w)
          → After (Sent l c) (Waits l c) r (produce q w x)
      called x s Called.done q w k (m, inl closes) =
          let (g, now, stays) = Flow-produce l c x q w s.0 in
          record {
            flow = g;
            fewer = omega (arith, s, k);
            later = omega (arith, s, m);
            turn = λ o. inl (now closes);
          }
      called x s Called.done q w k (m', inr m) = record {
        flow = (Flow-produce l c x q w s.0).0;
        fewer = omega (arith, s, k);
        later = omega (arith, s, m);
        turn = λ o. inr (omega (arith, s, m));
      }
      called x s Called.interrupted q w k m =
          ((Flow-produce l c x q w s.0).0, omega (arith, s, k), omega (arith, s, m))
      called x s Called.failed q w k m = record {
        flow = (Flow-produce l c x q w s.0).0;
        fewer = omega (arith, s, k);
        later = omega (arith, s, m);
        turn = λ o. absurd (ground (arith, o));
      }
