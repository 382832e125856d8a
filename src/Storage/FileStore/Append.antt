-- ===== src/Storage/FileStore/Append.antt =====
-- The rotation and the syncs before a chunk of `appendFrames`.
use telemetry_server.Base.{
  ℕ, ◌≤◌, ◌<◌, ◌≡◌, refl, ap, sym, subst, ◌∙◌, arith, Bool, true, false, some, [], ◌∷◌, ◌++◌,
  length, take, append-nil, leb, Bool-cases, All-snoc, inl, inr,
}
use telemetry_server.Base.Action.{Ensures, Ensures-mono}
use telemetry_server.Protocol.Words.{Bytes}
use telemetry_server.Storage.Disk.{Disk, DiskLaws, Files}
use telemetry_server.Storage.FileStore.{State, sync_if_due, rotate, rotate_if_full}
use telemetry_server.Storage.FileStore.Segments.{IsStorable, IsSegment, AreSegments, IsReady}
use telemetry_server.Storage.FileStore.Rotate.{content, Rotated, Rotates, rotate_lem}
use telemetry_server.Storage.FileStore.Names.{CanName}
use telemetry_server.Ipc.Ring.Slots.{join_frames, join_frames-append}

module _ {d : Disk} (laws : DiskLaws d) where
  open d use {World}
  open laws use {files, signals, shows}

  -- The store agrees with its file, and no archive has a name that it can still make.
  pub record Ready (s : State World) : Type 0 where
    pub disk : IsReady s.store (files s.world)
    pub names : CanName shows s.store (files s.world)

  abbrev pub limit : State World → ℕ
  limit s = s.store.config.max_segment_bytes

  pub record Extended (s : State World) (bytes : Bytes) (t : State World) : Type 0 where
    pub ready : Ready t
    pub content_is : content (files t.world) ≡ content (files s.world) ++ bytes
    pub fewer_signals : signals t.world ≤ signals s.world
    pub same_config : t.store.config ≡ s.store.config
    pub segments : AreSegments (limit s) (files s.world) → AreSegments (limit s) (files t.world)

  -- After a failure a prefix of the batch is stored.
  abbrev pub Appends : State World → Bytes → Bool → State World → Type 0
  Appends s bytes true t = Extended s bytes t
  Appends s bytes false t =
      (k : ℕ) × (content (files t.world) ≡ content (files s.world) ++ take k bytes)

  -- `sync_if_due` finds nothing due while fewer bytes than the interval are unsynced.
  pub sync_if_due-Ready :
      (fuel : ℕ) (s : State World) → Ready s → sync_if_due d fuel s ≡ some (true, s)
  unfolding sync_if_due
  sync_if_due-Ready fuel s r = let k = r.disk in ground (arith, k)

  Rotated-Extended : (s t : State World) → Ready s → Rotated laws s t → Extended s [] t
  Rotated-Extended s t r q = record {
    ready = record {
      disk = record {
        storable = subst IsStorable (sym q.same_config) r.disk.storable;
        fd = q.fd;
        directory = q.directory;
        size = q.size ∙ ap (λ (f : Files). length f.active) (sym q.files_are);
        whole = omega (arith, q.size);
        synced_up = λ n. omega (arith, q.unsynced);
      };
      names = q.names;
    };
    content_is =
        ap content q.files_are
        ∙ append-nil _
        ∙ join_frames-append (files s.world).archived ((files s.world).active ∷ [])
        ∙ ap (λ b. join_frames (files s.world).archived ++ b) (append-nil (files s.world).active)
        ∙ sym (append-nil (content (files s.world)));
    fewer_signals = q.fewer_signals;
    same_config = q.same_config;
    segments = λ g. subst (AreSegments (limit s)) (sym q.files_are) (
      All-snoc (IsSegment (limit s)) (files s.world).archived (files s.world).active g.0 g.1,
      (omega arith, refl),
    );
  }

  pub Extended-nothing : (s : State World) → Ready s → Extended s [] s
  Extended-nothing s r = record {
    ready = r;
    content_is = sym (append-nil (content (files s.world)));
    fewer_signals = omega arith;
    same_config = refl;
    segments = λ g. g;
  }

  abbrev pub Roomy : State World → Bool → State World → Type 0
  Roomy s true t = Extended s [] t × (t.store.current_size < limit t)
  Roomy s false t = content (files t.world) ≡ content (files s.world)

  -- `rotate_if_full` leaves room for a frame.
  pub rotate_if_full-Extended :
      (fuel : ℕ) (s : State World)
      → Ready s
      → signals s.world < fuel
      → Ensures (Roomy s) (rotate_if_full d fuel s)
  unfolding rotate_if_full
  rotate_if_full-Extended fuel s r h = elim (Bool-cases (leb (limit s) s.store.current_size)) [
    | inr room ↦ rw room (Extended-nothing s r, ground arith)
    | inl due ↦ rw due (
        Ensures-mono (Rotates laws s) _ (rotate d fuel s)
          (elim [
            | true ↦ λ t q. (
              Rotated-Extended s t r q,
              omega (arith, q.size, (Rotated-Extended s t r q).ready.disk.storable.room),
            )
            | false ↦ λ t q. q
          ])
          (rotate_lem laws fuel s r.names h r.disk.fd r.disk.directory))
  ]
