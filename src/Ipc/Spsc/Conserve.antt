-- ===== src/Ipc/Spsc/Conserve.antt =====
-- The steps of the producer and of the consumer, each with the invariant.
use telemetry_server.Base.{
  ℕ, suc, ◌+◌, ◌%◌, ◌≤◌, ◌<◌, ◌≡◌, refl, ap, ap₂, sym, ◌∙◌, take-append-drop, arith, List, [], ◌∷◌,
  ◌++◌, append_assoc, length,
}
use telemetry_server.Protocol.Words.{Bytes}
use telemetry_server.Ipc.Ring.{Layout, capacity_frames, add_u64, sub_u64, write_slot}
use telemetry_server.Ipc.Ring.Slots.{
  split_frames, window, window-write_slot_end, window-mod, window-add, take-window,
}
use telemetry_server.Ipc.Ring.Refine.{
  IsValid, contents, contents-released, published, published-IsValid, length-contents,
  released-IsValid,
}
use telemetry_server.Ipc.Spsc.{Producer, Consumer, System, Step, Reach, started, frame_at}
use telemetry_server.Ipc.Spsc.Invariant.{
  ProducerInv, ConsumerInv, Inv, split_frames-suc, window-suc, window-write_slot_below,
  producing_at, consuming_at, consumer_keep, producer_keep, pending_grows, pending_shrinks,
}

module _ {s : System} (i : Inv s) where
  -- The producer's copy of one more frame.
  copy_in-Inv :
      (count copied : ℕ) (bytes : Bytes)
      → s.producer ≡ Producer.copying count copied bytes
      → copied < count
      → Inv (record s {
        ring = record (s.ring) {
          slots =
              write_slot s.ring.slots
                ((s.ring.head + copied) % capacity_frames)
                (frame_at bytes copied);
        };
        producer = Producer.copying count (copied + 1) bytes;
      })
  copy_in-Inv count copied bytes e h = record {
    valid = record { head_word = v.head_word; tail_word = v.tail_word; pending = v.pending };
    producing = (omega arith, p.1, more);
    consuming = consumer_keep l l' s.consumer refl (omega arith) (λ n r. same n r) i.consuming;
    conserved =
        i.conserved ∙ ap (λ w. s.taken ++ w) (sym (same (sub_u64 l.head l.tail) (omega arith)));
  }
    where
      l : Layout
      l = s.ring

      v : IsValid l
      v = i.valid

      frame : Bytes
      frame = frame_at bytes copied

      l' : Layout
      l' = record l { slots = write_slot l.slots ((l.head + copied) % capacity_frames) frame }

      p : ProducerInv l (Producer.copying count copied bytes)
      p = producing_at i e

      same :
          (n : ℕ) → n ≤ sub_u64 l.head l.tail → window l'.slots l.tail n ≡ window l.slots l.tail n
      same n r = window-write_slot_below l.slots l n copied frame v r (omega (arith, p.1))

      more : window l'.slots l.head (copied + 1) ≡ split_frames (copied + 1) bytes
      more =
          ap (window l'.slots l.head) {x = copied + 1} {y = suc copied} (omega arith)
          ∙ window-write_slot_end l.slots l.head copied frame (omega (arith, p.1))
          ∙ ap (λ w. w ++ frame ∷ []) p.2
          ∙ sym (split_frames-suc copied bytes)
          ∙ ap (λ k. split_frames k bytes) {x = suc copied} {y = copied + 1} (omega arith)

  -- The producer's store to `head`.
  store_head-Inv :
      (count : ℕ) (bytes : Bytes)
      → s.producer ≡ Producer.copying count count bytes
      → Inv (record s {
        ring = record (s.ring) { head = add_u64 s.ring.head count };
        producer = Producer.idle;
        given = s.given ++ split_frames count bytes;
      })
  store_head-Inv count bytes e = record {
    valid = record { head_word = q.head_word; tail_word = q.tail_word; pending = q.pending };
    producing = tt;
    consuming =
        consumer_keep l l' s.consumer refl (omega (arith, pending_grows l count v p.1))
          (λ n r. refl) i.consuming;
    conserved =
        ap (λ g. g ++ split_frames count bytes) i.conserved
        ∙ append_assoc s.taken (contents l) (split_frames count bytes)
        ∙ ap (λ w. s.taken ++ w) (sym grown);
  }
    where
      l : Layout
      l = s.ring

      v : IsValid l
      v = i.valid

      l' : Layout
      l' = record l { head = add_u64 l.head count }

      p : ProducerInv l (Producer.copying count count bytes)
      p = producing_at i e

      n : ℕ
      n = sub_u64 l.head l.tail

      q : IsValid (published l count bytes)
      q = published-IsValid count bytes v p.1

      grown : contents l' ≡ contents l ++ split_frames count bytes
      grown =
          ap (window l.slots l.tail) {x = sub_u64 (add_u64 l.head count) l.tail} {y = n + count}
            (pending_grows l count v p.1)
          ∙ window-add l.slots l.tail n count
          ∙ ap (λ w. contents l ++ w)
              (window-mod l.slots (l.tail + n) l.head count (omega arith) ∙ p.2)

  -- The consumer's store to `tail`.
  store_tail-Inv :
      (count : ℕ) (frames : List Bytes)
      → s.consumer ≡ Consumer.copying count count frames
      → Inv (record s {
        ring = record (s.ring) { tail = add_u64 s.ring.tail count };
        consumer = Consumer.idle;
        taken = s.taken ++ frames;
      })
  store_tail-Inv count frames e = record {
    valid = released-IsValid count v c.1;
    producing =
        producer_keep l l' s.producer refl refl (omega (arith, pending_shrinks l count v c.1))
          i.producing;
    consuming = tt;
    conserved =
        i.conserved ∙ ap (λ w. s.taken ++ w) cut ∙ sym (append_assoc s.taken frames (contents l'));
  }
    where
      l : Layout
      l = s.ring

      v : IsValid l
      v = i.valid

      l' : Layout
      l' = record l { tail = add_u64 l.tail count }

      c : ConsumerInv l (Consumer.copying count count frames)
      c = consuming_at i e

      cut : contents l ≡ frames ++ contents l'
      cut =
          sym (take-append-drop count (contents l))
          ∙ ap₂ ◌++◌ (take-window l.slots l.tail (sub_u64 l.head l.tail) count c.1 ∙ sym c.2)
              (sym (contents-released count v c.1))

  -- The consumer's copy of one more frame.
  copy_out-Inv :
      (count copied : ℕ) (frames : List Bytes)
      → s.consumer ≡ Consumer.copying count copied frames
      → copied < count
      → Inv (record s {
        consumer =
            Consumer.copying count
              (copied + 1)
              (frames ++ s.ring.slots ((s.ring.tail + copied) % capacity_frames) ∷ []);
      })
  copy_out-Inv count copied frames e h = record {
    valid = i.valid;
    producing = i.producing;
    consuming = (omega arith, c.1, more);
    conserved = i.conserved;
  }
    where
      c : ConsumerInv s.ring (Consumer.copying count copied frames)
      c = consuming_at i e

      more :
          frames ++ s.ring.slots ((s.ring.tail + copied) % capacity_frames) ∷ []
          ≡ window s.ring.slots s.ring.tail (copied + 1)
      more =
          ap (λ w. w ++ s.ring.slots ((s.ring.tail + copied) % capacity_frames) ∷ []) c.2
          ∙ sym (window-suc s.ring.slots s.ring.tail copied)
          ∙ ap (window s.ring.slots s.ring.tail) {x = suc copied} {y = copied + 1} (omega arith)

Step-Inv : {s t : System} → Step s t → Inv s → Inv t
Step-Inv (Step.load_tail bytes e closed whole some_in) i = record {
  valid = i.valid;
  producing = (omega arith, omega arith, refl);
  consuming = i.consuming;
  conserved = i.conserved;
}
Step-Inv (Step.copy_in count copied bytes e h) i = copy_in-Inv i count copied bytes e h
Step-Inv (Step.store_head count bytes e) i = store_head-Inv i count bytes e
Step-Inv (Step.load_head size e whole some_out) i = record {
  valid = i.valid;
  producing = i.producing;
  consuming = (omega arith, omega arith, refl);
  conserved = i.conserved;
}
Step-Inv (Step.copy_out count copied frames e h) i = copy_out-Inv i count copied frames e h
Step-Inv (Step.store_tail count frames e) i = store_tail-Inv i count frames e

started-Inv : Inv started
started-Inv = record { valid = omega arith; producing = tt; consuming = tt; conserved = refl }

Reach-Inv : {s : System} → Reach started s → Inv s
Reach-Inv Reach.here = started-Inv
Reach-Inv (Reach.next r st) = Step-Inv st (Reach-Inv r)

-- In every state that one producer and one consumer reach from an empty ring, the frames
-- published so far are those that the consumer has taken, in order, followed by those that the
-- ring holds, and these are at most the capacity.
pub Reach-conserves :
    {s : System}
    → Reach started s
    → (s.given ≡ s.taken ++ contents s.ring) × (length (contents s.ring) ≤ capacity_frames)
Reach-conserves {s} r =
    let i : Inv s = Reach-Inv r in (i.conserved, rw (length-contents s.ring) (i.valid.pending))
