-- ===== src/Storage/FileStore/Rotate.antt =====
-- `rotate` archives the active file and starts an empty one.
use telemetry_server.Base.{
  ℕ, ◌≤◌, ◌<◌, ◌≡◌, ap, ap₂, sym, subst, subst₂, ◌∙◌, ◌+◌, ◌%◌, ◌^◌, arith, Bool, true, false, not,
  Option, none, some, [], ◌∷◌, ◌++◌, length, if◌then◌else◌, append-nil,
}
use telemetry_server.Base.Action.{Ensures, Ensures-mono, Ensures-and, ◌&&=◌}
use telemetry_server.Base.Text.{Text}
use telemetry_server.Protocol.Words.{Bytes}
use telemetry_server.Ipc.Ring.Slots.{join_frames, join_frames-append}
use telemetry_server.Storage.Disk.{Disk, DiskLaws, Files, RenameLaw, TimeLaw, has, set_aside}
use telemetry_server.Storage.FileStore.{
  FileStore, State, open_active_file, sync_directory, sync, close_active_file, rename_active,
  reset_sizes, rotate, name_at, rename_to, archive_name,
}
use telemetry_server.Storage.FileStore.Sync.{Leaves, Syncs, sync_lem, sync_directory_lem}
use telemetry_server.Storage.FileStore.Names.{
  CanName, CanName-next, has_new, segments_but_new, names_but_new,
}
use telemetry_server.Storage.FileStore.Open.{whole_frames}
use telemetry_server.Storage.FileStore.Create.{Opens, open_active_file_lem, made}

-- All bytes stored, the oldest first.
abbrev pub content : Files → Bytes
content f = join_frames f.archived ++ f.active

-- A rename to a new name keeps all bytes of a segment that is flushed.
pub content-set_aside :
    (n : Text) (f : Files) → has n f.names ≡ false → content (set_aside n true f) ≡ content f
content-set_aside n f new =
    append-nil _
    ∙ ap (λ segments. join_frames (segments ++ f.active ∷ []))
        (segments_but_new n f.names f.archived new)
    ∙ join_frames-append f.archived (f.active ∷ [])
    ∙ ap (λ b. join_frames f.archived ++ b) (append-nil f.active)

module _ {d : Disk} (laws : DiskLaws d) where
  open d use {World}
  open laws use {files, signals, flushed, shows}

  -- A step of `rotate` has left the files as `f`, and the store can still make new names.
  record Stage (s : State World) (f : Files) (t : State World) : Type 0 where
    files_are : files t.world ≡ f
    names : CanName shows t.store f
    fewer_signals : signals t.world ≤ signals s.world
    same_config : t.store.config ≡ s.store.config
    same_directory : t.store.directory_open ≡ s.store.directory_open

  abbrev pub Keeps : State World → State World → Type 0
  Keeps s t = content (files t.world) ≡ content (files s.world)

  abbrev Stages : State World → Files → Bool → State World → Type 0
  Stages s f true t = Stage s f t
  Stages s f false t = Keeps s t

  Keeps-of_files :
      (s t : State World) (f : Files)
      → content f ≡ content (files s.world)
      → files t.world ≡ f
      → Keeps s t
  Keeps-of_files s t f c e = ap content e ∙ c

  -- Before the rename the files are as they were, and the active one is flushed.
  record Flushed (s t : State World) : Type 0 where
    stage : Stage s (files s.world) t
    kept : flushed t.world ≡ true

  abbrev Flushes : State World → Bool → State World → Type 0
  Flushes s true t = Flushed s t
  Flushes s false t = Keeps s t

  sync-Flushes :
      (fuel : ℕ) (s : State World)
      → CanName shows s.store (files s.world)
      → signals s.world < fuel
      → s.store.fd_open ≡ true
      → Ensures (Flushes s) (sync d fuel s)
  sync-Flushes fuel s c h o =
      Ensures-mono (Syncs laws s) _ (sync d fuel s) weaken (sync_lem laws fuel s h o)
    where
      weaken : (ok : Bool) (t : State World) → Syncs laws s ok t → Flushes s ok t
      weaken true t (q, kept) = record {
        stage = record {
          files_are = q.same_files;
          names = subst (λ st. CanName shows st (files s.world)) (sym q.store_is) c;
          fewer_signals = q.fewer_signals;
          same_config = ap (λ (x : FileStore). x.config) q.store_is;
          same_directory = ap (λ (x : FileStore). x.directory_open) q.store_is;
        };
        kept = kept;
      }
      weaken false t q = ap content q.same_files

  close-Flushes : (s t : State World) → Flushed s t → Ensures (Flushes s) (close_active_file d t)
  unfolding close_active_file
  close-Flushes s t q = go t.store.fd_open (d.close_file t.world).0
    where
      w : World
      w = (d.close_file t.world).1

      closed_files : files w ≡ files s.world
      closed_files = laws.close_law t.world ∙ q.stage.files_are

      go :
          (open? closed : Bool)
          → Ensures (Flushes s) (
              if not open?
              then some (true, t)
              else some
                  (closed, record { store = record (t.store) { fd_open = false }; world = w }))
      go false closed = q
      go true false = ap content closed_files
      go true true = record {
        stage = record {
          files_are = closed_files;
          names = q.stage.names;
          fewer_signals =
              (let k = q.stage.fewer_signals in omega (arith, k, laws.close_signals t.world));
          same_config = q.stage.same_config;
          same_directory = q.stage.same_directory;
        };
        kept = laws.close_flushed t.world ∙ q.kept;
      }

  -- The archive has got a name that no other has.
  record Named (s t : State World) : Type 0 where
    name : Text
    new : has name (files s.world).names ≡ false
    stage : Stage s (set_aside name true (files s.world)) t

  abbrev Names : State World → Bool → State World → Type 0
  Names s true t = Named s t
  Names s false t = Keeps s t

  rename_round :
      (s t : State World) (sec nsec : ℕ) (ok : Bool) (w : World)
      → Stage s (files s.world) t
      → shows sec nsec ≡ true
      → signals w ≤ signals t.world
      → RenameLaw
          (archive_name t.store.file_name sec nsec t.store.rotation_sequence)
          true
          (files s.world)
          ok
          (files w)
      → Ensures (Names s) (
          some (
            ok,
            record {
              store = record (t.store) {
                rotation_sequence = (t.store.rotation_sequence + 1) % 2 ^ 64;
              };
              world = w;
            },
          ))
  rename_round s t sec nsec true w q e p l =
      let new = has_new shows t.store (files s.world) sec nsec q.names e in
      record {
        name = archive_name t.store.file_name sec nsec t.store.rotation_sequence;
        new = new;
        stage = record {
          files_are = l.0;
          names =
              CanName-next shows t.store (files s.world) sec nsec q.names new
                (subst (λ (f : Files). length f.names < 2 ^ 64) l.0 l.1);
          fewer_signals = omega (arith, q.fewer_signals);
          same_config = q.same_config;
          same_directory = q.same_directory;
        };
      }
  rename_round s t sec nsec false w q e p l = ap content l

  rename-Names : (s t : State World) → Flushed s t → Ensures (Names s) (rename_active d t)
  unfolding rename_active name_at rename_to
  rename-Names s t q =
      go (d.clock_gettime t.world).0 (d.clock_gettime t.world).1 (laws.time_law t.world)
        (laws.clock_law t.world ∙ q.stage.files_are) (let k = laws.clock_signals t.world in k)
        (laws.clock_flushed t.world ∙ q.kept)
    where
      go :
          (time : Option (ℕ × ℕ)) (w : World)
          → TimeLaw shows time
          → files w ≡ files s.world
          → signals w ≤ signals t.world
          → flushed w ≡ true
          → Ensures (Names s) (rename_to d (name_at d t time w).0 (name_at d t time w).1)
      go none w x f h k = ap content f
      go (some (sec, nsec)) w x f h k =
          let n = archive_name t.store.file_name sec nsec t.store.rotation_sequence in
          rename_round s t sec nsec (d.rename_to n w).0 (d.rename_to n w).1 q.stage x
            (let m = laws.rename_signals n w in omega (arith, m, h))
            (subst₂ (λ b g. RenameLaw n b g (d.rename_to n w).0 (files (d.rename_to n w).1)) k f
              (laws.rename_law n w))

  -- The directory is synced after the rename.
  directory-Stages :
      (fuel : ℕ) (s t : State World) (f : Files)
      → signals s.world < fuel
      → s.store.directory_open ≡ true
      → content f ≡ content (files s.world)
      → Stage s f t
      → Ensures (Stages s f) (sync_directory d fuel t)
  directory-Stages fuel s t f h o c q =
      Ensures-mono (Leaves laws t t.store) _ (sync_directory d fuel t) weaken
        (sync_directory_lem laws fuel t (omega (arith, q.fewer_signals)) (q.same_directory ∙ o))
    where
      weaken : (ok : Bool) (u : State World) → Leaves laws t t.store ok u → Stages s f ok u
      weaken true u r = record {
        files_are = r.same_files ∙ q.files_are;
        names = subst (λ st. CanName shows st f) (sym r.store_is) q.names;
        fewer_signals = omega (arith, q.fewer_signals, r.fewer_signals);
        same_config = ap (λ (x : FileStore). x.config) r.store_is ∙ q.same_config;
        same_directory = ap (λ (x : FileStore). x.directory_open) r.store_is ∙ q.same_directory;
      }
      weaken false u r = ap content (r.same_files ∙ q.files_are) ∙ c

  -- After a rotation the active file is empty and open, and what it held is the newest archived
  -- segment, under a new name.
  pub record Rotated (s t : State World) : Type 0 where
    pub name : Text
    pub new : has name (files s.world).names ≡ false
    pub files_are : files t.world ≡ record {
      present = true;
      active = [];
      archived = (files s.world).archived ++ (files s.world).active ∷ [];
      names = (files s.world).names ++ name ∷ [];
    }
    pub names : CanName shows t.store (files t.world)
    pub fewer_signals : signals t.world ≤ signals s.world
    pub same_config : t.store.config ≡ s.store.config
    pub fd : t.store.fd_open ≡ true
    pub directory : t.store.directory_open ≡ true
    pub size : t.store.current_size ≡ 0
    pub unsynced : t.store.unsynced_bytes ≡ 0

  abbrev pub Rotates : State World → Bool → State World → Type 0
  Rotates s true t = Rotated s t
  Rotates s false t = Keeps s t

  open-Rotates :
      (fuel : ℕ) (s t : State World) (name : Text)
      → has name (files s.world).names ≡ false
      → signals s.world < fuel
      → s.store.directory_open ≡ true
      → Stage s (set_aside name true (files s.world)) t
      → Ensures (Rotates s) ((reset_sizes d &&= open_active_file d fuel) t)
  open-Rotates fuel s t name new h o q =
      Ensures-mono (Opens laws t') _ (open_active_file d fuel t') weaken
        (open_active_file_lem laws fuel t' (omega (arith, q.fewer_signals)) (q.same_directory ∙ o))
    where
      t' : State World
      t' = record t { store = record (t.store) { current_size = 0; unsynced_bytes = 0 } }

      f : Files
      f = set_aside name true (files s.world)

      weaken : (ok : Bool) (u : State World) → Opens laws t' ok u → Rotates s ok u
      weaken true u r =
          let g : files u.world ≡ record f { present = true } =
            r.cut
            ∙ ap (λ (x : Files). record (made x) { active = whole_frames (made x).active })
                q.files_are in
          record {
            name = name;
            new = new;
            files_are =
                g
                ∙ ap₂
                    (λ bs ns. record {
                      present = true;
                      active = [];
                      archived = bs ++ (files s.world).active ∷ [];
                      names = ns ++ name ∷ [];
                    })
                    (segments_but_new name (files s.world).names (files s.world).archived new)
                    (names_but_new name (files s.world).names new);
            names = subst₂ (CanName shows) (sym r.store_is) (sym g) q.names;
            fewer_signals = omega (arith, q.fewer_signals, r.fewer_signals);
            same_config = ap (λ (x : FileStore). x.config) r.store_is ∙ q.same_config;
            fd = ap (λ (x : FileStore). x.fd_open) r.store_is;
            directory = ap (λ (x : FileStore). x.directory_open) r.store_is ∙ q.same_directory ∙ o;
            size =
                ap (λ (x : FileStore). x.current_size) r.store_is
                ∙ ap (λ (x : Files). length x.active) g;
            unsynced = omega (arith, r.unsynced);
          }
      weaken false u r =
          ap₂ (λ xs b. join_frames xs ++ b) (r.0 ∙ ap (λ (x : Files). x.archived) q.files_are)
            (r.1 (ap (λ (x : Files). x.active) q.files_are))
          ∙ content-set_aside name (files s.world) new

  -- `rotate` on an open store that makes names no archive has, with fuel for the signals under
  -- way, returns. After a success the active file, flushed, is the newest archived segment
  -- under a new name, the older ones are as they were, the next names are new again, and an
  -- empty file is active, open and known to be empty. After a failure the stored bytes are the
  -- same.
  pub rotate_lem :
      (fuel : ℕ) (s : State World)
      → CanName shows s.store (files s.world)
      → signals s.world < fuel
      → s.store.fd_open ≡ true
      → s.store.directory_open ≡ true
      → Ensures (Rotates s) (rotate d fuel s)
  unfolding rotate
  rotate_lem fuel s c h o dir =
      subst (λ b. Ensures (Rotates s) (if not b then some (false, s) else steps s)) (sym o)
        (Ensures-and (Flushes s) (Rotates s) (sync d fuel) _ s (sync-Flushes fuel s c h o)
          (λ t q. q)
          λ t q.
            Ensures-and (Flushes s) (Rotates s) (close_active_file d) _ t (close-Flushes s t q)
              (λ t q. q)
              λ t q.
                Ensures-and (Names s) (Rotates s) (rename_active d) _ t (rename-Names s t q)
                  (λ t q. q)
                  λ t n.
                    let f = set_aside n.name true (files s.world) in
                    Ensures-and (Stages s f) (Rotates s) (sync_directory d fuel) _ t
                      (directory-Stages fuel s t f h dir
                        (content-set_aside n.name (files s.world) n.new) n.stage)
                      (λ t q. q) λ t q. open-Rotates fuel s t n.name n.new h dir q)
    where
      steps : State World → Option (Bool × State World)
      steps =
          sync d fuel
          &&= (close_active_file d
              &&= (rename_active d
                  &&= (sync_directory d fuel &&= (reset_sizes d &&= open_active_file d fuel))))
