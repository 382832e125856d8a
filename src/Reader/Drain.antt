-- ===== src/Reader/Drain.antt =====
-- The drain of the ring in a round of the reader, and the flush after it.
use native.Mathlib.Decide.{ℕ_discrete}
use telemetry_server.Base.{
  ℕ, zero, suc, ◌*◌, ◌≤◌, ◌<◌, ◌≡◌, refl, ap, sym, subst, ◌∙◌, arith, Bool, true, false, not,
  Option, some, List, [], ◌++◌, length, take, ==_of_ne, ==_of_eq, append-nil, take_all, ◌==◌,
}
use telemetry_server.Base.Action.{Ensures, Ensures-mono, Ensures-and, ◌&&=◌}
use telemetry_server.Protocol.Words.{Bytes}
use telemetry_server.Protocol.Codec.{frame_size}
use telemetry_server.Ipc.Ring
use telemetry_server.Ipc.Ring.{SharedRingBuffer, Layout, try_pop_batch}
use telemetry_server.Ipc.Ring.Slots.{join_frames}
use telemetry_server.Ipc.Ring.Refine.{contents}
use telemetry_server.Storage.Disk.{Disk, DiskLaws}
use telemetry_server.Reader.{
  State, drain, drain_and_flush, flush_batch, process_frames, ipc_batch_bytes,
}
use telemetry_server.Reader.Batch.{
  stored, IsStaging, Took, Takes, Took-Takes, Takes-more, flush_lem, process_frames_lem,
}
use telemetry_server.Reader.Pop.{queued, IsFilled, Popped, pop_lem}

-- Where a drain that succeeds leaves the reader: the ring is empty, and its frames are behind those
-- that were staged.
module _ {d : Disk} (laws : DiskLaws d) where
  open d use {World}

  pub record Drained (fuel : ℕ) (s : State World) (bytes : Bytes) (t : State World) : Type 0 where
    pub staging : IsStaging laws fuel t
    pub in_order : stored laws t ++ t.batch ≡ stored laws s ++ (s.batch ++ bytes)
    pub grows : length (stored laws s) ≤ length (stored laws t)
    pub layout : Layout
    pub ring_is : t.ring ≡ some layout
    pub no_frames : contents layout ≡ []
    pub filled : IsFilled layout
    pub same_closed : Ring.producer_closed t.ring ≡ Ring.producer_closed s.ring

  abbrev pub Drains : ℕ → State World → Bytes → Bool → State World → Type 0
  Drains fuel s bytes true t = Drained fuel s bytes t
  Drains fuel s bytes false t = Takes laws fuel s bytes false t

  -- Staging does not look at the ring.
  IsStaging-of :
      {fuel : ℕ} {s : State World} (ring : SharedRingBuffer) (consumed : Bool)
      → IsStaging laws fuel s
      → IsStaging laws fuel (record s { ring = ring; consumed_any = consumed })
  IsStaging-of ring consumed q = record {
    ready = q.ready;
    whole = q.whole;
    size = q.size;
    enough = q.enough;
  }

  Drained-Took :
      {fuel : ℕ} {s t : State World} {bytes : Bytes}
      → Drained fuel s bytes t
      → Took laws fuel s bytes (record t { ring = s.ring })
  Drained-Took {fuel} {s} {t} q = record {
    staging = IsStaging-of s.ring t.consumed_any q.staging;
    in_order = q.in_order;
    grows = q.grows;
    same_ring = refl;
  }

  module _ (fuel : ℕ) where
    -- The body of the drain's loop after its pop e.
    abbrev after_pop : ℕ → State World → ℕ × Bytes × SharedRingBuffer → Option (Bool × State World)
    after_pop rounds s (n, bytes, ring) = elim (n == 0) [
      | true ↦ some (true, record s { ring = ring })
      | false ↦
          (process_frames d fuel n bytes &&= drain d fuel rounds)
            (record s { ring = ring; consumed_any = true })
    ]

    drain_round :
        (rounds : ℕ) (s : State World)
        → drain d fuel (suc rounds) s ≡ after_pop rounds s (try_pop_batch s.ring ipc_batch_bytes)
    unfolding drain
    drain_round rounds s = refl

    module _ {l l' : Layout} {n : ℕ} {bytes : Bytes} (s : State World) (pop : Popped l n bytes l')
        (e : s.ring ≡ some l) where
      abbrev popped : Bytes
      popped = take (n * frame_size) bytes

      -- The state in which the frames pop eped are taken in.
      abbrev begun : State World
      begun = record s { ring = some l'; consumed_any = true }

      popped_closed : Ring.producer_closed (some l') ≡ Ring.producer_closed s.ring
      unfolding Ring.producer_closed
      popped_closed = ap (λ c. not (c == 0)) pop.same_closed ∙ ap Ring.producer_closed (sym e)

      Drains-after :
          (t : State World)
          → Took laws fuel begun popped t
          → (ok : Bool) (u : State World) → Drains fuel t (queued l') ok u
          → Drains fuel s (queued l) ok u
      Drains-after t q true u r =
          let both : Took laws fuel begun (popped ++ queued l') (record u { ring = t.ring }) =
            Took-Takes laws fuel begun t popped (queued l') q true (record u { ring = t.ring })
              (Drained-Took r) in
          record {
            staging = r.staging;
            in_order = both.in_order ∙ ap (λ b. stored laws s ++ (s.batch ++ b)) pop.split;
            grows = both.grows;
            layout = r.layout;
            ring_is = r.ring_is;
            no_frames = r.no_frames;
            filled = r.filled;
            same_closed = r.same_closed ∙ ap Ring.producer_closed q.same_ring ∙ popped_closed;
          }
      Drains-after t q false u r =
          subst (λ b. Takes laws fuel s b false u) pop.split
            (Took-Takes laws fuel begun t popped (queued l') q false u r)

      Drains-failed :
          (t : State World)
          → Takes laws fuel begun popped false t
          → Drains fuel s (queued l) false t
      Drains-failed t q =
          subst (λ b. Takes laws fuel s b false t) pop.split
            (Takes-more laws fuel begun t popped (queued l') q)

      Drained-nothing :
          n ≡ 0 → IsStaging laws fuel s → Drained fuel s (queued l) (record s { ring = some l' })
      Drained-nothing z q = record {
        staging = IsStaging-of (some l') s.consumed_any q;
        in_order =
            ap (λ b. stored laws s ++ b)
              (sym (append-nil s.batch)
                ∙ ap (λ (c : List Bytes). s.batch ++ join_frames c) (sym (pop.last z)));
        grows = omega arith;
        layout = l';
        ring_is = refl;
        no_frames =
            sym (take_all 0 (contents l') (omega (arith, pop.fewer, ap length (pop.last z))));
        filled = pop.filled;
        same_closed = popped_closed;
      }

    drain_lem :
        (rounds : ℕ) (s : State World) (l : Layout)
        → s.ring ≡ some l
        → IsFilled l
        → IsStaging laws fuel s
        → length (contents l) < rounds
        → Ensures (Drains fuel s (queued l)) (drain d fuel rounds s)
    drain_lem zero s l e v q h = absurd (omega arith)
    drain_lem (suc rounds) s l e v q h =
        let (n, bytes, l', pop) = pop_lem l v in
        let called : try_pop_batch s.ring ipc_batch_bytes ≡ (n, bytes, some l') =
          ap (λ r. try_pop_batch r ipc_batch_bytes) e ∙ pop.call in
        subst (Ensures (Drains fuel s (queued l)))
          (sym (drain_round rounds s ∙ ap (after_pop rounds s) called))
          (elim (ℕ_discrete n 0) [
            | yes z ↦
                subst
                  (λ b. Ensures (Drains fuel s (queued l)) (elim b [
                    | true ↦ some (true, record s { ring = some l' })
                    | false ↦
                        (process_frames d fuel n bytes &&= drain d fuel rounds) (begun s pop e)
                  ]))
                  (sym (==_of_eq z)) (Drained-nothing s pop e z q)
            | no ne ↦
                subst
                  (λ b. Ensures (Drains fuel s (queued l)) (elim b [
                    | true ↦ some (true, record s { ring = some l' })
                    | false ↦
                        (process_frames d fuel n bytes &&= drain d fuel rounds) (begun s pop e)
                  ]))
                  (sym (==_of_ne ne))
                  (Ensures-and (Takes laws fuel (begun s pop e) (popped s pop e)) _
                    (process_frames d fuel n bytes) _ (begun s pop e)
                    (process_frames_lem laws fuel n bytes (begun s pop e)
                      (IsStaging-of (some l') true q) pop.size)
                    (λ t p. Drains-failed s pop e t p)
                    λ t p.
                      Ensures-mono _ _ (drain d fuel rounds t)
                        (λ ok u r. Drains-after s pop e t p ok u r)
                        (drain_lem rounds t l' p.same_ring pop.filled p.staging
                          (omega (arith, pop.fewer))))
          ])

    -- Where a round that succeeds leaves the reader.
    pub record Emptied (s : State World) (bytes : Bytes) (t : State World) : Type 0 where
      pub staging : IsStaging laws fuel t
      pub stored_are : stored laws t ≡ stored laws s ++ (s.batch ++ bytes)
      pub nothing_staged : t.batch ≡ []
      pub layout : Layout
      pub ring_is : t.ring ≡ some layout
      pub no_frames : contents layout ≡ []
      pub filled : IsFilled layout
      pub same_closed : Ring.producer_closed t.ring ≡ Ring.producer_closed s.ring

    abbrev pub Empties : State World → Bytes → Bool → State World → Type 0
    Empties s bytes true t = Emptied s bytes t
    Empties s bytes false t = Takes laws fuel s bytes false t

    Emptied-after :
        (s t : State World) (bytes : Bytes)
        → Drained fuel s bytes t
        → (ok : Bool) (u : State World) → (ok ≡ true → u.batch ≡ []) × Takes laws fuel t [] ok u
        → Empties s bytes ok u
    Emptied-after s t bytes r true u p = record {
      staging = p.1.staging;
      stored_are =
          sym (append-nil (stored laws u))
          ∙ ap (λ b. stored laws u ++ b) (sym (p.0 refl))
          ∙ p.1.in_order
          ∙ ap (λ b. stored laws t ++ b) (append-nil t.batch)
          ∙ r.in_order;
      nothing_staged = p.0 refl;
      layout = r.layout;
      ring_is = p.1.same_ring ∙ r.ring_is;
      no_frames = r.no_frames;
      filled = r.filled;
      same_closed = ap Ring.producer_closed p.1.same_ring ∙ r.same_closed;
    }
    Emptied-after s t bytes r false u p =
        subst (λ b. Takes laws fuel s b false u) (append-nil bytes)
          (Took-Takes laws fuel s (record t { ring = s.ring }) bytes [] (Drained-Took r) false u
            p.1)

    -- A round of the reader, with a ready store that makes names no archive has, whole frames
    -- staged, a valid ring of frames and fuel for the signals under way, the staging array
    -- and the frames in the ring, returns. After a success the ring is empty, nothing is
    -- staged, and the file has grown by just the staged bytes and the frames of the ring, in
    -- order. After a failure it has grown by a prefix of these.
    pub drain_and_flush_lem :
        (s : State World) (l : Layout)
        → s.ring ≡ some l
        → IsFilled l
        → IsStaging laws fuel s
        → length (contents l) < fuel
        → Ensures (Empties s (queued l)) (drain_and_flush d fuel s)
    unfolding drain_and_flush
    drain_and_flush_lem s l e v q h =
        Ensures-and (Drains fuel s' (queued l)) (Empties s (queued l)) (drain d fuel fuel)
          (flush_batch d fuel) s' (drain_lem fuel s' l e v (IsStaging-of s.ring false q) h)
          (λ t p. p)
          λ t p.
            Ensures-mono _ _ (flush_batch d fuel t) (Emptied-after s t (queued l) (narrow t p)) (
              flush_lem laws fuel t p.staging.ready p.staging.whole (omega (arith, p.staging.size))
                p.staging.enough)
      where
        s' : State World
        s' = record s { consumed_any = false }

        narrow : (t : State World) → Drained fuel s' (queued l) t → Drained fuel s (queued l) t
        narrow t r = record {
          staging = r.staging;
          in_order = r.in_order;
          grows = r.grows;
          layout = r.layout;
          ring_is = r.ring_is;
          no_frames = r.no_frames;
          filled = r.filled;
          same_closed = r.same_closed;
        }
