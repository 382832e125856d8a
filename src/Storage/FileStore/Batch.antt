-- ===== src/Storage/FileStore/Batch.antt =====
-- The chunks of `appendFrames`, one after the other.
use telemetry_server.Base.{
  ℕ, zero, suc, ◌+◌, ◌-◌, ◌%◌, ◌≤◌, ◌<◌, ◌≡◌, ◌≢◌, ap, sym, subst, subst₂, take_all, take-take-min,
  ==_of_ne, take-append_add, ◌∙◌, arith, Bool, true, false, not, ◌&&◌, Option, [], ◌∷◌, ◌++◌,
  length, take, drop, append-nil, append_assoc, length-append, length-take, take-append-drop,
  length-drop, leb, ◌==◌, Bool-cases, min, inl, inr,
}
use telemetry_server.Base.Action.{Ensures, Ensures-mono, Ensures-and, and_done, ◌&&=◌}
use telemetry_server.Protocol.Words.{Bytes}
use telemetry_server.Protocol.Codec.{frame_size}
use telemetry_server.Ipc.Ring.Slots.{join_frames}
use telemetry_server.Storage.Disk.{Disk, DiskLaws, appended}
use telemetry_server.Storage.FileStore.{
  FileStore, FileStoreConfig, State, sync, sync_if_due, rotate_if_full, write_all, append_chunk,
  append_from, segment_chunk, sync_chunk, advance,
}
use telemetry_server.Storage.FileStore.Segments.{AreSegments, IsReady, chunk_lem}
use telemetry_server.Storage.FileStore.Append.{
  Ready, limit, Extended, Appends, sync_if_due-Ready, Extended-nothing, Roomy,
  rotate_if_full-Extended,
}
use telemetry_server.Storage.FileStore.Sync.{Leaves, sync-Leaves, synced}
use telemetry_server.Storage.FileStore.Write.{Grew, Writes, write_all_lem}
use telemetry_server.Storage.FileStore.Rotate.{content}
use telemetry_server.Storage.FileStore.Names.{CanName}

module _ {d : Disk} (laws : DiskLaws d) where
  open d use {World}
  open laws use {files, signals, shows}

  -- The store after a chunk of `c` bytes, with `k` bytes unsynced.
  abbrev after_chunk : FileStore → ℕ → ℕ → FileStore
  after_chunk st c k = record st { current_size = st.current_size + c; unsynced_bytes = k }

  module _ (s : State World) (r : Ready laws s) (bytes : Bytes)
      (fits : s.store.current_size + length bytes ≤ limit laws s)
      (whole : length bytes % frame_size ≡ 0) where
    chunk-Extended :
        (k : ℕ) (t : State World)
        → (s.store.config.sync_every_bytes ≢ 0 → k < s.store.config.sync_every_bytes)
        → files t.world ≡ appended (files s.world) bytes
        → signals t.world ≤ signals s.world
        → t.store ≡ after_chunk s.store (length bytes) k
        → Extended laws s bytes t
    chunk-Extended k t up f p e = record {
      ready = record {
        disk = subst₂ IsReady (sym e) (sym f) (record {
          storable = r.disk.storable;
          fd = r.disk.fd;
          directory = r.disk.directory;
          size = omega (arith, r.disk.size, length-append (files s.world).active bytes);
          whole = omega (arith, r.disk.whole);
          synced_up = up;
        });
        names = subst₂ (CanName shows) (sym e) (sym f) r.names;
      };
      content_is = ap content f ∙ sym (append_assoc (join_frames (files s.world).archived) _ bytes);
      fewer_signals = p;
      same_config = ap (λ (x : FileStore). x.config) e;
      segments = λ g. subst (AreSegments (limit laws s)) (sym f) (
        g.0,
        (
          omega (arith, r.disk.size, length-append (files s.world).active bytes),
          omega (arith, g.1.1, length-append (files s.world).active bytes),
        ),
      );
    }

    stored_all :
        (t : State World)
        → files t.world ≡ appended (files s.world) bytes
        → Appends laws s bytes false t
    stored_all t f = (
      length bytes,
      ap content f
          ∙ sym (append_assoc (join_frames (files s.world).archived) _ bytes)
          ∙ ap (λ b. content (files s.world) ++ b)
              (sym (take_all (length bytes) bytes (omega arith))),
    )

    -- The sizes are counted up, and a sync that has come due is made.
    count-Appends :
        (fuel : ℕ) (t : State World)
        → signals s.world < fuel
        → Grew laws s bytes t
        → Ensures (Appends laws s bytes) ((advance d (length bytes) &&= sync_if_due d fuel) t)
    unfolding sync_if_due
    count-Appends fuel t h g = elim (Bool-cases due) [
      | inr not_due ↦ rw not_due (
          chunk-Extended (t.store.unsynced_bytes + length bytes) v (up not_due) g.grown
            g.fewer_signals
            (ap
              (λ (x : FileStore). record x {
                current_size = x.current_size + length bytes;
                unsynced_bytes = t.store.unsynced_bytes + length bytes;
              })
              g.store_is))
      | inl is_due ↦ rw is_due (
          Ensures-mono (Leaves laws v (synced v.store)) _ (sync d fuel v)
            (elim [
              | true ↦ λ u q.
                  chunk-Extended 0 u (λ n. omega arith) (q.same_files ∙ g.grown)
                    (omega (arith, q.fewer_signals))
                    (q.store_is
                      ∙ ap
                          (λ (x : FileStore). record x {
                            current_size = x.current_size + length bytes;
                            unsynced_bytes = 0;
                          })
                          g.store_is)
              | false ↦ λ u q. stored_all u (q.same_files ∙ g.grown)
            ])
            (sync-Leaves laws fuel v (omega (arith, g.fewer_signals))
              (ap (λ (x : FileStore). x.fd_open) g.store_is ∙ r.disk.fd)))
    ]
      where
        v : State World
        v = record t {
          store = record (t.store) {
            current_size = t.store.current_size + length bytes;
            unsynced_bytes = t.store.unsynced_bytes + length bytes;
          };
        }

        due : Bool
        due =
            not (v.store.config.sync_every_bytes == 0)
            && leb v.store.config.sync_every_bytes v.store.unsynced_bytes

        same_config : t.store.config ≡ s.store.config
        same_config = ap (λ (x : FileStore). x.config) g.store_is

        up :
            due ≡ false
            → s.store.config.sync_every_bytes ≢ 0
            → t.store.unsynced_bytes + length bytes < s.store.config.sync_every_bytes
        up e n =
            let c : t.store.config.sync_every_bytes ≡ s.store.config.sync_every_bytes =
              ap (λ (x : FileStoreConfig). x.sync_every_bytes) same_config in
            ground (arith, e, c)

  append_chunk_lem :
      (fuel c : ℕ) (rest : Bytes) (s : State World)
      → Ready laws s
      → signals s.world + length rest < fuel
      → c ≤ length rest
      → c % frame_size ≡ 0
      → s.store.current_size + c ≤ limit laws s
      → Ensures (Appends laws s (take c rest)) (append_chunk d fuel c rest s)
  unfolding append_chunk
  append_chunk_lem fuel c rest s r h le w fits =
      Ensures-and (Writes laws s bytes) (Appends laws s bytes) (write_all d fuel bytes) _ s
        (write_all_lem laws fuel bytes s (omega (arith, size)))
        (λ t (k, g). (
          k,
          ap content g.grown
              ∙ sym (append_assoc (join_frames (files s.world).archived) _ (take k bytes)),
        ))
        (λ t g.
          subst (λ n. Ensures (Appends laws s bytes) ((advance d n &&= sync_if_due d fuel) t)) size
            (count-Appends s r bytes (omega (arith, size)) (size_whole) fuel t (omega arith) g))
    where
      bytes : Bytes
      bytes = take c rest

      size : length bytes ≡ c
      size = omega (arith, length-take c rest)

      size_whole : length bytes % frame_size ≡ 0
      size_whole = omega (arith, size)

  -- A step that has stored `xs` comes before one that stores `ys`.
  Appends-after :
      (s t : State World) (xs ys : Bytes)
      → Extended laws s xs t
      → (ok : Bool) (u : State World) → Appends laws t ys ok u
      → Appends laws s (xs ++ ys) ok u
  Appends-after s t xs ys e true u q = record {
    ready = q.ready;
    content_is =
        q.content_is
        ∙ ap (λ b. b ++ ys) e.content_is
        ∙ append_assoc (content (files s.world)) xs ys;
    fewer_signals = omega arith;
    same_config = q.same_config ∙ e.same_config;
    segments = λ g.
        let m : limit laws t ≡ limit laws s =
          ap (λ (c : FileStoreConfig). c.max_segment_bytes) e.same_config in
        subst (λ n. AreSegments n (files u.world)) m
          (q.segments (subst (λ n. AreSegments n (files t.world)) (sym m) (e.segments g)));
  }
  Appends-after s t xs ys e false u (k, q) = (
    length xs + k,
    q
        ∙ ap (λ b. b ++ take k ys) e.content_is
        ∙ append_assoc (content (files s.world)) xs (take k ys)
        ∙ ap (λ b. content (files s.world) ++ b) (sym (take-append_add xs ys k)),
  )

  -- One round, from a state with room: a chunk, and what `next` does with the rest.
  chunk_round :
      (fuel : ℕ) (rest : Bytes) (s : State World)
      (next : Bytes → State World → Option (Bool × State World))
      → Ready laws s
      → s.store.current_size < limit laws s
      → length rest % frame_size ≡ 0
      → length rest ≢ 0
      → signals s.world + length rest < fuel
      → ((r : Bytes) (t : State World)
          → Ready laws t
          → length r % frame_size ≡ 0
          → length r < length rest
          → signals t.world ≤ signals s.world
          → Ensures (Appends laws t r) (next r t))
      → let c = sync_chunk s.store (segment_chunk s.store rest) in
        Ensures (Appends laws s rest) ((append_chunk d fuel c rest &&= next (drop c rest)) s)
  chunk_round fuel rest s next r room w n h again =
      Ensures-and (Appends laws s (take c rest)) (Appends laws s rest) (append_chunk d fuel c rest)
        _ s (append_chunk_lem fuel c rest s r h k.2 k.1 k.3)
        (λ t (j, q). (min j c, q ∙ ap (λ b. content (files s.world) ++ b) (take-take-min j c rest)))
        (λ t e.
          Ensures-mono (Appends laws t (drop c rest)) _ (next (drop c rest) t)
            (λ ok u q.
              subst (λ b. Appends laws s b ok u) (take-append-drop c rest)
                (Appends-after s t (take c rest) (drop c rest) e ok u q))
            (again (drop c rest) t e.ready (omega (arith, left, k.1, k.2))
              (omega (arith, left, k.0, k.2)) e.fewer_signals))
    where
      c : ℕ
      c = sync_chunk s.store (segment_chunk s.store rest)

      k :
          (0 < c)
          × (c % frame_size ≡ 0)
          × (c ≤ length rest)
          × (s.store.current_size + c ≤ limit laws s)
      k = chunk_lem s.store (files s.world) rest r.disk room w n

      left : length (drop c rest) ≡ length rest - c
      left = length-drop c rest

  -- The loop of `appendFrames`, from a state with `rest` still to be stored.
  pub append_from_lem :
      (fuel n : ℕ) (rest : Bytes) (s : State World)
      → Ready laws s
      → length rest % frame_size ≡ 0
      → signals s.world + length rest < fuel
      → length rest < n
      → Ensures (Appends laws s rest) (append_from d fuel n rest s)
  unfolding append_from
  append_from_lem fuel zero rest s r w h m = absurd (omega arith)
  append_from_lem fuel (suc n) [] s r w h m = Extended-nothing laws s r
  append_from_lem fuel (suc n) (x ∷ xs) s r w h m =
      let ne : (length (x ∷ xs) == 0) ≡ false = ==_of_ne (omega arith) in
      rw (ne, append_from)
        (Ensures-and (Roomy laws s) (Appends laws s (x ∷ xs)) (rotate_if_full d fuel) _ s
          (rotate_if_full-Extended laws fuel s r (omega arith))
          (λ t q. (0, q ∙ sym (append-nil (content (files s.world)))))
          (λ t (e, room).
            Ensures-mono (Appends laws t (x ∷ xs)) _ _ (Appends-after s t [] (x ∷ xs) e) (
              rw (and_done (sync_if_due d fuel) _ t t (sync_if_due-Ready laws fuel t e.ready)) (
                chunk_round fuel (x ∷ xs) t (append_from d fuel n) e.ready room w (omega arith)
                  (omega (arith, e.fewer_signals))
                  (λ b u ru wu lu su.
                    append_from_lem fuel n b u ru wu (omega (arith, e.fewer_signals))
                      (omega arith))))))
