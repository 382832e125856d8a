-- ===== src/Reader/Run/Stored.antt =====
-- `Reader::run` of Reader/src/Reader.cpp, from the opening of the store on.
use telemetry_server.Base.{
  ℕ, ◌+◌, ◌^◌, ◌<◌, ◌≡◌, ◌⊎◌, inl, inr, refl, ap, ap₂, sym, subst, subst₂, ◌≤◌, length, ◌∙◌, arith,
  Bool, true, false, Option, none, some, [], ◌++◌, take,
}
use telemetry_server.Base.Action.{Ensures, Ensures-mono, Ensures-and}
use telemetry_server.Ipc.Ring.{Layout, capacity_frames}
use telemetry_server.Ipc.Ring.Refine.{contents}
use telemetry_server.Storage.Disk.{Disk, DiskLaws, Files}
use telemetry_server.Storage.FileStore
use telemetry_server.Storage.FileStore.{FileStoreConfig, open_file, sync}
use telemetry_server.Storage.FileStore.Open.{whole_frames}
use telemetry_server.Storage.FileStore.Create.{made}
use telemetry_server.Storage.FileStore.Rotate.{content}
use telemetry_server.Storage.FileStore.Methods.{Started, Starts, open_file_lem}
use telemetry_server.Storage.FileStore.Names.{IsUnused, CanName}
use telemetry_server.Reader.{write_batch_bytes}
use telemetry_server.Reader.Pop.{queued, IsFilled}
use telemetry_server.Reader.Run.{Peer, Process, ReaderConfig, on_storage, loop, started, run}
use telemetry_server.Reader.Run.Exchange.{IsClosed, PeerLaws}
use telemetry_server.Reader.Run.Rounds.{Works, Ends}
use telemetry_server.Reader.Run.Laws.{loop_lem}

module _ {d : Disk} {p : Peer} (disk_laws : DiskLaws d) (peer_laws : PeerLaws p) (fuel : ℕ) where
  abbrev P : Type 0
  P = Process (d.World) (p.World)

  -- What a restart makes of the files: the active one is there, and cut to whole frames.
  abbrev pub recovered : Files → Files
  recovered f = record (made f) { active = whole_frames (made f).active }

  abbrev files_of : P → Files
  files_of t = disk_laws.files t.reader.storage.world

  -- The files hold what they did, all that was in the ring `l`, and all that the producer has pushed.
  pub record Stores (l : Layout) (w : d.World) (t : P) : Type 0 where
    pub stored_is :
        content (files_of t) ≡ content (recovered (disk_laws.files w)) ++ (queued l ++ t.pushed)
    pub synced_up : t.reader.storage.store.unsynced_bytes ≡ 0
    pub durable : disk_laws.flushed t.reader.storage.world ≡ true
    pub layout : Layout
    pub ring_is : t.reader.ring ≡ some layout
    pub closed : IsClosed layout
    pub no_frames : contents layout ≡ []

  abbrev pub Runs : Layout → d.World → Bool → P → Type 0
  Runs l w true t = Stores l w t
  Runs l w false t =
      ((files_of t).archived ≡ (disk_laws.files w).archived)
      ⊎ ((count : ℕ) × (content (files_of t)
            ≡ content (recovered (disk_laws.files w)) ++ take count (queued l ++ t.pushed)))

  Ends-Runs :
      (l : Layout) (w : d.World) (s : P)
      → files_of s ≡ recovered (disk_laws.files w)
      → s.pushed ≡ []
      → (ok : Bool) (t : P) → Ends disk_laws peer_laws fuel l s ok t
      → Runs l w ok t
  Ends-Runs l w s e n true t q = record {
    stored_is =
        q.stored_is
        ∙ ap₂ (λ f b. content f ++ (queued l ++ b)) e
            (sym (q.pushed_is ∙ ap (λ b. b ++ q.fresh) n));
    synced_up = q.synced_up;
    durable = q.durable;
    layout = q.layout;
    ring_is = q.ring_is;
    closed = q.closed;
    no_frames = q.no_frames;
  }
  Ends-Runs l w s e n false t q = inr (
    q.count,
    q.stored_is
        ∙ ap₂ (λ f b. content f ++ take q.count (queued l ++ b)) e
            (sym (q.pushed_is ∙ ap (λ b. b ++ q.fresh) n)),
  )

  -- `Reader::run` on a valid ring of frames returns, with fuel for the signals under way, the
  -- staging array and the frames in the ring, with a round more than the times that the
  -- producer wakes it before the close, and when no archive has a name that the store can make
  -- at a time that the clock shows. After a success the stored bytes are those that were stored
  -- before, cut to whole frames, followed by the frames of the ring and by all that the
  -- producer has pushed, in order; the store counts no byte as unsynced, the active file has
  -- been flushed, as each segment archived by the run was, and the ring is closed and empty.
  -- After a failure the archived segments are the old ones, or the stored bytes are the old
  -- ones followed by the front of these frames.
  pub reader_run_lem :
      (rounds : ℕ) (c : ReaderConfig) (l : Layout) (w : d.World) (peer : p.World)
      → IsFilled l
      → c.max_segment_bytes < 2 ^ 64
      → disk_laws.signals w + write_batch_bytes < fuel
      → capacity_frames < fuel
      → peer_laws.signals peer < fuel
      → peer_laws.left peer + 1 < rounds
      → IsUnused disk_laws.shows (d.filename c.data_file_path) 0 (disk_laws.files w).names
      → Ensures (Runs l w) (run d p fuel rounds c (some l) w peer)
  unfolding run
  reader_run_lem rounds c l w peer v word disk deep patient turns new =
      Ensures-and Opens (Runs l w)
        (λ t. on_storage t (open_file d fuel c.data_file_path t.reader.storage))
        (loop d p fuel rounds) begun
        (opens (open_file d fuel c.data_file_path begun.reader.storage)
          (open_file_lem disk_laws fuel c.data_file_path config w word (omega (arith, disk))))
        (λ t q. inl q)
        (λ t q.
          Ensures-mono (Ends disk_laws peer_laws fuel l t) (Runs l w) (loop d p fuel rounds t)
            (Ends-Runs l w t q.1 q.2)
            (loop_lem disk_laws peer_laws fuel rounds l t q.0
              (inr (subst (λ x. peer_laws.left x + 1 < rounds) (sym q.3) turns))))
    where
      config : FileStoreConfig
      config = record {
        max_segment_bytes = c.max_segment_bytes;
        sync_every_bytes = c.sync_every_bytes;
      }

      begun : P
      begun = started d p fuel config (some l) w peer

      Opens : Bool → P → Type 0
      Opens true t =
          Works disk_laws peer_laws fuel l t
          × (files_of t ≡ recovered (disk_laws.files w))
          × (t.pushed ≡ [])
          × (t.peer ≡ peer)
      Opens false t = (files_of t).archived ≡ (disk_laws.files w).archived

      can_name :
          (t : FileStore.State (d.World))
          → Started disk_laws c.data_file_path begun.reader.storage t
          → CanName disk_laws.shows t.store (disk_laws.files t.world)
      can_name t q =
          subst₂
            (λ n file.
              (n < 2 ^ 64)
              × (n ≤ length (disk_laws.files t.world).names)
              × IsUnused disk_laws.shows file n (disk_laws.files t.world).names)
            (sym q.sequence_is) (sym q.file_is)
            (
              omega arith,
              omega arith,
              subst
                  (λ (f : Files). IsUnused disk_laws.shows (d.filename c.data_file_path) 0 f.names)
                  (sym q.cut) new,
            )

      opens :
          (r : Option (Bool × FileStore.State (d.World)))
          → Ensures (Starts disk_laws c.data_file_path begun.reader.storage) r
          → Ensures Opens (on_storage begun r)
      opens none q = absurd q
      opens (some (false, t)) q = q
      opens (some (true, t)) q = (
        record {
          ring_is = refl;
          filled = v;
          staging = record {
            ready = record { disk = q.ready; names = can_name t q };
            whole = refl;
            size = omega arith;
            enough = (let k = q.fewer_signals in omega (arith, disk, k));
          };
          nothing_staged = refl;
          patient = patient;
          deep = deep;
        },
        q.cut,
        refl,
        refl,
      )
