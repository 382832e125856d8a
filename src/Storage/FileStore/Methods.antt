-- ===== src/Storage/FileStore/Methods.antt =====
-- The public methods of `FileStore`: `openFile`, `appendFrames` and `sync`.
use telemetry_server.Base.{
  ℕ, ◌+◌, ◌%◌, ◌^◌, ◌≤◌, ◌<◌, ◌≡◌, ◌≢◌, ◌↔◌, refl, ap, sym, subst, ◌∙◌, arith, Bool, true, false,
  some, length, if◌then◌else◌, ◌==◌, Bool-cases, inl, inr,
}
use telemetry_server.Base.Action.{Ensures, Ensures-mono, Ensures-and}
use telemetry_server.Base.Text.{Text, codes}
use telemetry_server.Protocol.Words.{Bytes}
use telemetry_server.Protocol.Codec.{frame_size}
use telemetry_server.Storage.Disk.{Disk, DiskLaws, Files}
use telemetry_server.Storage.FileStore.{
  FileStore, FileStoreConfig, State, new_store, validate_config, open_directory, open_active_file,
  open_file, append_from, append_frames,
}
use telemetry_server.Storage.FileStore.Segments.{IsStorable, IsReady}
use telemetry_server.Storage.FileStore.Open.{whole_frames, length-whole_frames}
use telemetry_server.Storage.FileStore.Create.{made, Opens, open_active_file_lem}
use telemetry_server.Storage.FileStore.Append.{Ready, Appends}
use telemetry_server.Storage.FileStore.Batch.{append_from_lem}

-- `validateConfig` accepts just the limits that hold a frame, are a multiple of a frame and are
-- no smaller than the sync interval.
pub validate_config_iff :
    (c : FileStoreConfig)
    → (validate_config c ≡ true) ↔ (
        (frame_size ≤ c.max_segment_bytes)
        × (c.max_segment_bytes % frame_size ≡ 0)
        × (c.sync_every_bytes ≤ c.max_segment_bytes))
unfolding validate_config
validate_config_iff c = (λ e. ground arith, λ h. ground arith)

module _ {d : Disk} (laws : DiskLaws d) where
  open d use {World}
  open laws use {files, signals}

  -- On a ready store that makes names no archive has, with fuel for the signals under way and
  -- the batch, `append_frames` of a batch of one or more whole frames returns. After a success
  -- the stored bytes are the old ones followed by the batch, where a segment that was archived
  -- before it was flushed, or replaced by another, would be missed; the store is ready again,
  -- its next names are new again, and segments within the limit stay so. After a failure a
  -- prefix of the batch is stored behind the old bytes.
  pub append_frames_lem :
      (fuel : ℕ) (frames : Bytes) (s : State World)
      → Ready laws s
      → length frames ≢ 0
      → length frames % frame_size ≡ 0
      → signals s.world + length frames < fuel
      → Ensures (Appends laws s frames) (append_frames d fuel frames s)
  unfolding append_frames
  append_frames_lem fuel frames s r n w h =
      subst (Ensures (Appends laws s frames)) (sym loop)
        (append_from_lem laws fuel fuel frames s r w h (omega arith))
    where
      loop : append_frames d fuel frames s ≡ append_from d fuel fuel frames s
      loop = let k = r.disk.fd in ground (arith, k)

  -- After `openFile` has succeeded.
  pub record Started (path : Text) (s t : State World) : Type 0 where
    pub ready : IsReady t.store (files t.world)
    pub file_is : t.store.file_name ≡ d.filename path
    pub sequence_is : t.store.rotation_sequence ≡ 0
    pub cut :
        files t.world
        ≡ record (made (files s.world)) { active = whole_frames (made (files s.world)).active }
    pub fewer_signals : signals t.world ≤ signals s.world
    pub same_config : t.store.config ≡ s.store.config

  abbrev pub Starts : Text → State World → Bool → State World → Type 0
  Starts path s true t = Started path s t
  Starts path s false t = (files t.world).archived ≡ (files s.world).archived

  -- A store that has not been opened.
  abbrev pub closed : FileStoreConfig → World → State World
  closed c w = record { store = new_store c; world = w }

  record Found (path : Text) (c : FileStoreConfig) (w : World) (t : State World) : Type 0 where
    same_files : files t.world ≡ files w
    fewer_signals : signals t.world ≤ signals w
    config_is : t.store.config ≡ c
    directory_is : t.store.directory_open ≡ true
    unsynced_is : t.store.unsynced_bytes ≡ 0
    name_is : t.store.file_name ≡ d.filename path
    first : t.store.rotation_sequence ≡ 0

  abbrev Finds : Text → FileStoreConfig → World → Bool → State World → Type 0
  Finds path c w true t = Found path c w t
  Finds path c w false t = files t.world ≡ files w

  open_directory_lem :
      (path : Text) (c : FileStoreConfig) (w : World)
      → Ensures (Finds path c w) (open_directory d path (closed c w))
  unfolding open_directory
  open_directory_lem path c w = go (length (d.filename path) == 0) (d.open_directory parent w).0
    where
      parent : Text
      parent = if length (d.parent_path path) == 0 then codes "." else d.parent_path path

      w' : World
      w' = (d.open_directory parent w).1

      go :
          (empty found : Bool)
          → Ensures (Finds path c w) (
              if empty
              then some (false, closed c w)
              else some (
                found,
                record {
                  store = record (new_store c) {
                    directory_open = found;
                    directory_path = parent;
                    file_name = d.filename path;
                  };
                  world = w';
                },
              ))
      go true found = refl
      go false false = laws.directory_law parent w
      go false true = record {
        same_files = laws.directory_law parent w;
        fewer_signals = laws.directory_signals parent w;
        config_is = refl;
        directory_is = refl;
        unsynced_is = refl;
        name_is = refl;
        first = refl;
      }

  Started_of_Opens :
      (path : Text) (c : FileStoreConfig) (w : World) (t : State World)
      → IsStorable c
      → Found path c w t
      → (ok : Bool) (u : State World) → Opens laws t ok u
      → Starts path (closed c w) ok u
  Started_of_Opens path c w t v f false u q = q.0 ∙ ap (λ (x : Files). x.archived) f.same_files
  Started_of_Opens path c w t v f true u q =
      let cfg : u.store.config ≡ c = ap (λ (x : FileStore). x.config) q.store_is ∙ f.config_is in
      let size : u.store.current_size ≡ length (files u.world).active =
        ap (λ (x : FileStore). x.current_size) q.store_is in
      let cut_size : length (files u.world).active
          ≡ length (whole_frames (made (files t.world)).active) =
        ap (λ (x : Files). length x.active) q.cut in
      record {
        ready = record {
          storable = subst IsStorable (sym cfg) v;
          fd = ap (λ (x : FileStore). x.fd_open) q.store_is;
          directory = ap (λ (x : FileStore). x.directory_open) q.store_is ∙ f.directory_is;
          size = size;
          whole = omega (arith, size, cut_size, length-whole_frames (made (files t.world)).active);
          synced_up = λ n. omega (arith, q.unsynced, f.unsynced_is);
        };
        file_is = ap (λ (x : FileStore). x.file_name) q.store_is ∙ f.name_is;
        sequence_is = ap (λ (x : FileStore). x.rotation_sequence) q.store_is ∙ f.first;
        cut =
            q.cut
            ∙ ap (λ (x : Files). record (made x) { active = whole_frames (made x).active })
                f.same_files;
        fewer_signals = omega (arith, q.fewer_signals, f.fewer_signals);
        same_config = cfg;
      }

  -- `openFile` on a new store whose segment limit is a 64-bit word, with fuel for the signals
  -- under way, returns. After a success the store is ready, the active file holds the whole
  -- frames that it held, and is empty if it was not there. After a failure the archive is as it
  -- was.
  pub open_file_lem :
      (fuel : ℕ) (path : Text) (c : FileStoreConfig) (w : World)
      → c.max_segment_bytes < 2 ^ 64
      → signals w < fuel
      → Ensures (Starts path (closed c w)) (open_file d fuel path (closed c w))
  unfolding open_file
  open_file_lem fuel path c w word h = elim (Bool-cases (validate_config c)) [
    | inr bad ↦ rw bad refl
    | inl good ↦
        let v : (frame_size ≤ c.max_segment_bytes)
            × (c.max_segment_bytes % frame_size ≡ 0)
            × (c.sync_every_bytes ≤ c.max_segment_bytes) =
          (validate_config_iff c).0 good in
        rw good (
          Ensures-and (Finds path c w) (Starts path (closed c w)) (open_directory d path) _
            (closed c w) (open_directory_lem path c w) (λ t q. ap (λ (x : Files). x.archived) q)
            (λ t f.
              Ensures-mono (Opens laws t) _ (open_active_file d fuel t)
                (Started_of_Opens path c w t
                  (record { room = v.0; whole = v.1; interval = v.2; word = word }) f)
                (open_active_file_lem laws fuel t (omega (arith, f.fewer_signals)) f.directory_is)))
  ]
