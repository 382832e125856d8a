-- ===== src/Reader/Batch.antt =====
-- The staging batch of the reader, and the frames that come to it.
use telemetry_server.Base.{
  ℕ, zero, suc, ◌+◌, ◌-◌, ◌*◌, ◌%◌, ◌≤◌, ◌<◌, ◌≡◌, ◌≢◌, refl, ap, sym, subst, ◌∙◌, arith, Bool,
  true, false, Option, none, some, [], ◌++◌, length, take, drop, Bool-cases, inl, inr, ==_iff,
  length-append, length-take, length-drop, take_all, append_assoc, append-nil, take-append_le,
  take-append_self, take-take-min, take-add, min, take-append_add, ◌==◌,
}
use telemetry_server.Base.Action.{Ensures, Ensures-mono, Ensures-and}
use telemetry_server.Protocol.Words.{Bytes}
use telemetry_server.Protocol.Codec.{frame_size, succeeded, decode}
use telemetry_server.Storage.Disk.{Disk, DiskLaws}
use telemetry_server.Storage.FileStore
use telemetry_server.Storage.FileStore.{append_frames}
use telemetry_server.Storage.FileStore.Append.{Ready, Appends}
use telemetry_server.Storage.FileStore.Rotate.{content}
use telemetry_server.Storage.FileStore.Methods.{append_frames_lem}
use telemetry_server.Reader.{
  State, flushed, flush_batch, stage_frame, reject_frame, process_frame, process_frames,
  write_batch_bytes,
}

-- A prefix of a list is one of a longer list.
prefix_lem : (k : ℕ) (xs ys : Bytes) → (j : ℕ) × (take k xs ≡ take j (xs ++ ys))
prefix_lem k xs ys = (
  min k (length xs),
  ap (take k) (sym (take_all (length xs) xs (omega arith)))
      ∙ take-take-min k (length xs) xs
      ∙ sym (take-append_le (min k (length xs)) xs ys (omega arith)),
)

-- What is behind a longer front is also behind a shorter one.
front_lem :
    (a b xs ys : Bytes) (k : ℕ)
    → a ++ xs ≡ b ++ ys
    → length b ≤ length a
    → a ++ take k xs ≡ b ++ take (length a + k - length b) ys
front_lem a b xs ys k e h =
    sym (take-append_add a xs k)
    ∙ ap (take (length a + k)) e
    ∙ ap (λ n. take n (b ++ ys)) {x = length a + k} {y = length b + (length a + k - length b)}
        (omega arith)
    ∙ take-append_add b ys (length a + k - length b)

module _ {d : Disk} (laws : DiskLaws d) where
  open d use {World}
  open laws use {files, signals}

  -- All bytes stored.
  abbrev pub stored : State World → Bytes
  stored s = content (files s.storage.world)

  -- A ready store, whole frames staged and fuel for what is still interrupted.
  pub record IsStaging (fuel : ℕ) (s : State World) : Type 0 where
    pub ready : Ready laws s.storage
    pub whole : length s.batch % frame_size ≡ 0
    pub size : length s.batch < write_batch_bytes
    pub enough : signals s.storage.world + write_batch_bytes < fuel

  -- `bytes` have been taken in behind those stored and staged.
  pub record Took (fuel : ℕ) (s : State World) (bytes : Bytes) (t : State World) : Type 0 where
    pub staging : IsStaging fuel t
    pub in_order : stored t ++ t.batch ≡ stored s ++ (s.batch ++ bytes)
    pub grows : length (stored s) ≤ length (stored t)
    pub same_ring : t.ring ≡ s.ring

  -- After a failure a prefix of what was staged or came is stored.
  abbrev pub Takes : ℕ → State World → Bytes → Bool → State World → Type 0
  Takes fuel s bytes true t = Took fuel s bytes t
  Takes fuel s bytes false t = (k : ℕ) × (stored t ≡ stored s ++ take k (s.batch ++ bytes))

  module _ (fuel : ℕ) where
    pub Took-nothing : (s : State World) → IsStaging fuel s → Took fuel s [] s
    Took-nothing s q = record {
      staging = q;
      in_order = ap (λ b. stored s ++ b) (sym (append-nil s.batch));
      grows = omega arith;
      same_ring = refl;
    }

    -- A batch of up to the whole array is stored and emptied.
    pub flush_lem :
        (s : State World)
        → Ready laws s.storage
        → length s.batch % frame_size ≡ 0
        → length s.batch ≤ write_batch_bytes
        → signals s.storage.world + write_batch_bytes < fuel
        → Ensures (λ ok t. (ok ≡ true → t.batch ≡ []) × Takes fuel s [] ok t) (flush_batch d fuel s)
    unfolding flush_batch
    flush_lem s r w z h = elim (Bool-cases (length s.batch == 0)) [
      | inl e ↦ rw e (
        λ t. sym (take_all 0 s.batch (omega (arith, (==_iff (length s.batch) 0).0 e))),
        Took-nothing s (record {
          ready = r;
          whole = w;
          size = omega (arith, (==_iff (length s.batch) 0).0 e);
          enough = h;
        }),
      )
      | inr n ↦ rw n (
          stores (append_frames d fuel s.batch s.storage)
            (append_frames_lem laws fuel s.batch s.storage r (ground (arith, n)) w (omega arith)))
    ]
      where
        stores :
            (x : Option (Bool × FileStore.State World))
            → Ensures (Appends laws s.storage s.batch) x
            → Ensures (λ ok t. (ok ≡ true → t.batch ≡ []) × Takes fuel s [] ok t) (flushed s x)
        stores none q = absurd q
        stores (some (true, t)) q = (
          λ e. refl,
          record {
            staging = record {
              ready = q.ready;
              whole = refl;
              size = omega arith;
              enough = omega (arith, q.fewer_signals);
            };
            in_order =
                append-nil _ ∙ q.content_is ∙ ap (λ b. stored s ++ b) (sym (append-nil s.batch));
            grows = omega (arith, ap length q.content_is, length-append (stored s) s.batch);
            same_ring = refl;
          },
        )
        stores (some (false, t)) q = (
          λ e. absurd (ground (arith, e)),
          (q.0, q.1 ∙ ap (λ b. stored s ++ take q.0 b) (sym (append-nil s.batch))),
        )

    stage_lem :
        (frame : Bytes) (s : State World)
        → IsStaging fuel s
        → length frame ≡ frame_size
        → Ensures (Takes fuel s frame) (stage_frame d fuel frame s)
    unfolding stage_frame
    stage_lem frame s q l = elim (Bool-cases (length (s.batch ++ frame) == write_batch_bytes)) [
      | inl full ↦ rw full (
          Ensures-mono _ _ (flush_batch d fuel s') weaken (
            flush_lem s' q.ready (omega (arith, size, q.whole))
              (omega (arith, (==_iff (length s'.batch) write_batch_bytes).0 full)) q.enough))
      | inr room ↦ rw room (record {
        staging = record {
          ready = q.ready;
          whole = omega (arith, size, q.whole);
          size =
              (let ne : length (s.batch ++ frame) ≢ write_batch_bytes = ground (arith, room) in
                omega (arith, ne, size, q.whole, q.size));
          enough = q.enough;
        };
        in_order = refl;
        grows = omega arith;
        same_ring = refl;
      })
    ]
      where
        s' : State World
        s' = record s { batch = s.batch ++ frame }

        size : length (s.batch ++ frame) ≡ length s.batch + 32
        size = length-append s.batch frame ∙ ap (λ n. length s.batch + n) l

        weaken :
            (ok : Bool) (t : State World)
            → (ok ≡ true → t.batch ≡ []) × Takes fuel s' [] ok t
            → Takes fuel s frame ok t
        weaken true t p = record {
          staging = p.1.staging;
          in_order = p.1.in_order ∙ ap (λ b. stored s ++ b) (append-nil (s.batch ++ frame));
          grows = p.1.grows;
          same_ring = p.1.same_ring;
        }
        weaken false t p =
            (p.1.0, p.1.1 ∙ ap (λ b. stored s ++ take p.1.0 b) (append-nil (s.batch ++ frame)))

    -- Nothing of a frame that is not valid is stored.
    reject_lem :
        (s : State World)
        → IsStaging fuel s
        → Ensures (λ ok t. (ok ≡ false) × Takes fuel s [] false t) (reject_frame d fuel s)
    unfolding reject_frame
    reject_lem s q =
        Ensures-and (λ ok t. (ok ≡ true → t.batch ≡ []) × Takes fuel s [] ok t) _
          (flush_batch d fuel) _ s (flush_lem s q.ready q.whole (omega (arith, q.size)) q.enough)
          (λ t p. (refl, p.1))
          λ t p. (
            refl,
            (
              length s.batch,
              sym (append-nil (stored t))
                  ∙ ap (λ b. stored t ++ b) (sym (p.0 refl))
                  ∙ p.1.in_order
                  ∙ ap (λ b. stored s ++ b)
                      (append-nil s.batch ∙ sym (take-append_self s.batch [])),
            ),
          )

    process_lem :
        (frame : Bytes) (s : State World)
        → IsStaging fuel s
        → length frame ≡ frame_size
        → Ensures (Takes fuel s frame) (process_frame d fuel frame s)
    unfolding process_frame
    process_lem frame s q l = elim (Bool-cases (succeeded (decode frame))) [
      | inl good ↦ rw good (stage_lem frame s q l)
      | inr bad ↦ rw bad (Ensures-mono _ _ (reject_frame d fuel s) weaken (reject_lem s q))
    ]
      where
        weaken :
            (ok : Bool) (t : State World)
            → (ok ≡ false) × Takes fuel s [] false t
            → Takes fuel s frame ok t
        weaken true t p = absurd (ground (arith, p.0))
        weaken false t p =
            let (j, e) = prefix_lem p.1.0 (s.batch ++ []) frame in
            (
              j,
              p.1.1
                  ∙ ap (λ b. stored s ++ b)
                      (e ∙ ap (λ b. take j (b ++ frame)) (append-nil s.batch)),
            )

    pub Took-Takes :
        (s t : State World) (xs ys : Bytes)
        → Took fuel s xs t
        → (ok : Bool) (u : State World) → Takes fuel t ys ok u
        → Takes fuel s (xs ++ ys) ok u
    Took-Takes s t xs ys q = go
      where
        all : stored t ++ (t.batch ++ ys) ≡ stored s ++ (s.batch ++ (xs ++ ys))
        all =
            sym (append_assoc (stored t) t.batch ys)
            ∙ ap (λ b. b ++ ys) q.in_order
            ∙ append_assoc (stored s) (s.batch ++ xs) ys
            ∙ ap (λ b. stored s ++ b) (append_assoc s.batch xs ys)

        go : (ok : Bool) (u : State World) → Takes fuel t ys ok u → Takes fuel s (xs ++ ys) ok u
        go true u p = record {
          staging = p.staging;
          in_order = p.in_order ∙ all;
          grows = omega (arith, p.grows, q.grows);
          same_ring = p.same_ring ∙ q.same_ring;
        }
        go false u p = (
          length (stored t) + p.0 - length (stored s),
          p.1
              ∙ front_lem (stored t) (stored s) (t.batch ++ ys) (s.batch ++ (xs ++ ys)) p.0 all
                  q.grows,
        )

    pub Takes-more :
        (s t : State World) (xs ys : Bytes)
        → Takes fuel s xs false t
        → Takes fuel s (xs ++ ys) false t
    Takes-more s t xs ys p =
        let (j, e) = prefix_lem p.0 (s.batch ++ xs) ys in
        (j, p.1 ∙ ap (λ b. stored s ++ b) (e ∙ ap (take j) (append_assoc s.batch xs ys)))

    -- The frames popped are taken in, up to one that is not valid.
    pub process_frames_lem :
        (n : ℕ) (bytes : Bytes) (s : State World)
        → IsStaging fuel s
        → n * frame_size ≤ length bytes
        → Ensures (Takes fuel s (take (n * frame_size) bytes)) (process_frames d fuel n bytes s)
    unfolding process_frames
    process_frames_lem zero bytes s q h = Took-nothing s q
    process_frames_lem (suc n) bytes s q h =
        subst (λ b. Ensures (Takes fuel s b) (process_frames d fuel (suc n) bytes s)) split
          (Ensures-and (Takes fuel s first) _ (process_frame d fuel first) _ s
            (process_lem first s q (omega (arith, length-take frame_size bytes)))
            (λ t p. Takes-more s t first rest p)
            λ t p.
              Ensures-mono _ _ (process_frames d fuel n (drop frame_size bytes) t)
                (λ ok u r. Took-Takes s t first rest p ok u r)
                (process_frames_lem n (drop frame_size bytes) t p.staging
                  (omega (arith, length-drop frame_size bytes))))
      where
        first : Bytes
        first = take frame_size bytes

        rest : Bytes
        rest = take (n * frame_size) (drop frame_size bytes)

        split : first ++ rest ≡ take (suc n * frame_size) bytes
        split =
            sym (take-add frame_size (n * frame_size) bytes)
            ∙ ap (λ k. take k bytes) {x = frame_size + n * frame_size} {y = suc n * frame_size}
                (omega arith)
