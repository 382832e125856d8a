-- ===== src/Storage/FileStore/Sync.antt =====
-- What `sync`, `syncDirectory` and `closeActiveFile` do, and that they return.
use telemetry_server.Base.{
  ℕ, zero, suc, ◌≤◌, ◌<◌, ◌≡◌, refl, subst, sym, ◌∙◌, arith, Bool, true, false, not, some,
  if◌then◌else◌,
}
use telemetry_server.Base.Action.{Ensures, Ensures-mono}
use telemetry_server.Storage.Disk.{Disk, DiskLaws, Synced, SyncLaw}
use telemetry_server.Storage.FileStore.{
  FileStore, State, sync_from, sync, sync_directory_from, sync_directory,
}

abbrev pub synced : FileStore → FileStore
synced st = record st { unsynced_bytes = 0 }

module _ {d : Disk} (laws : DiskLaws d) where
  open d use {World}
  open laws use {files, signals, flushed}

  -- The files are as before, no signal was sent, and the store is the one given.
  pub record Same (s : State World) (st : FileStore) (t : State World) : Type 0 where
    pub same_files : files t.world ≡ files s.world
    pub fewer_signals : signals t.world ≤ signals s.world
    pub store_is : t.store ≡ st

  -- After a success the store is `st`, and after a failure it is as before.
  abbrev pub Leaves : State World → FileStore → Bool → State World → Type 0
  Leaves s st true t = Same s st t
  Leaves s st false t = Same s s.store t

  -- A call that only used up signals came before.
  pub Leaves-after :
      (s : State World) (w : World) (st : FileStore)
      → files w ≡ files s.world
      → signals w ≤ signals s.world
      → (ok : Bool) (t : State World) → Leaves (record s { world = w }) st ok t
      → Leaves s st ok t
  Leaves-after s w st f p true t q = record {
    same_files = q.same_files ∙ f;
    fewer_signals = omega arith;
    store_is = q.store_is;
  }
  Leaves-after s w st f p false t q = record {
    same_files = q.same_files ∙ f;
    fewer_signals = omega arith;
    store_is = q.store_is;
  }

  -- After a sync the store counts no unsynced byte, and a crash keeps the active file.
  abbrev pub Syncs : State World → Bool → State World → Type 0
  Syncs s true t = Same s (synced s.store) t × (flushed t.world ≡ true)
  Syncs s false t = Same s s.store t

  Syncs-after :
      (s : State World) (w : World)
      → files w ≡ files s.world
      → signals w ≤ signals s.world
      → (ok : Bool) (t : State World) → Syncs (record s { world = w }) ok t
      → Syncs s ok t
  Syncs-after s w f p true t q = (Leaves-after s w (synced s.store) f p true t q.0, q.1)
  Syncs-after s w f p false t q = Leaves-after s w (synced s.store) f p false t q

  sync_round :
      (s : State World) (n : ℕ) (r : Synced) (w : World)
      → signals s.world < suc n
      → files w ≡ files s.world
      → SyncLaw (signals s.world) r (signals w)
      → (r ≡ Synced.done → flushed w ≡ true)
      → ((t : State World) → signals t.world < n → Ensures (Syncs t) (sync_from d n t))
      → Ensures (Syncs s) (elim r [
        | Synced.done ↦
            some (true, record { store = record (s.store) { unsynced_bytes = 0 }; world = w })
        | Synced.interrupted ↦ sync_from d n (record s { world = w })
        | Synced.failed ↦ some (false, record s { world = w })
      ])
  sync_round s n Synced.done w h f p k again =
      (record { same_files = f; fewer_signals = p; store_is = refl }, k refl)
  sync_round s n Synced.failed w h f p k again = record {
    same_files = f;
    fewer_signals = p;
    store_is = refl;
  }
  sync_round s n Synced.interrupted w h f p k again =
      Ensures-mono _ _ (sync_from d n (record s { world = w })) (Syncs-after s w f (omega arith))
        (again (record s { world = w }) (omega arith))

  sync_from_lem :
      (n : ℕ) (s : State World) → signals s.world < n → Ensures (Syncs s) (sync_from d n s)
  unfolding sync_from
  sync_from_lem zero s h = absurd (omega arith)
  sync_from_lem (suc n) s h =
      sync_round s n (d.fdatasync s.world).0 (d.fdatasync s.world).1 h (laws.fdatasync_law s.world)
        (laws.fdatasync_signals s.world) (laws.fdatasync_flushed s.world) (sync_from_lem n)

  pub sync_lem :
      (fuel : ℕ) (s : State World)
      → signals s.world < fuel
      → s.store.fd_open ≡ true
      → Ensures (Syncs s) (sync d fuel s)
  unfolding sync
  sync_lem fuel s h o =
      subst (λ b. Ensures (Syncs s) (if not b then some (false, s) else sync_from d fuel s)) (sym o)
        (sync_from_lem fuel s h)

  pub sync-Leaves :
      (fuel : ℕ) (s : State World)
      → signals s.world < fuel
      → s.store.fd_open ≡ true
      → Ensures (Leaves s (synced s.store)) (sync d fuel s)
  sync-Leaves fuel s h o =
      Ensures-mono (Syncs s) _ (sync d fuel s) (elim [ true ↦ λ t q. q.0 | false ↦ λ t q. q ])
        (sync_lem fuel s h o)

  directory_round :
      (s : State World) (n : ℕ) (r : Synced) (w : World)
      → signals s.world < suc n
      → files w ≡ files s.world
      → SyncLaw (signals s.world) r (signals w)
      → ((t : State World)
          → signals t.world < n
          → Ensures (Leaves t t.store) (sync_directory_from d n t))
      → Ensures (Leaves s s.store) (elim r [
        | Synced.done ↦ some (true, record s { world = w })
        | Synced.interrupted ↦ sync_directory_from d n (record s { world = w })
        | Synced.failed ↦ some (false, record s { world = w })
      ])
  directory_round s n Synced.done w h f p again = record {
    same_files = f;
    fewer_signals = p;
    store_is = refl;
  }
  directory_round s n Synced.failed w h f p again = record {
    same_files = f;
    fewer_signals = p;
    store_is = refl;
  }
  directory_round s n Synced.interrupted w h f p again =
      Ensures-mono _ _ (sync_directory_from d n (record s { world = w }))
        (Leaves-after s w s.store f (omega arith)) (again (record s { world = w }) (omega arith))

  sync_directory_from_lem :
      (n : ℕ) (s : State World)
      → signals s.world < n
      → Ensures (Leaves s s.store) (sync_directory_from d n s)
  unfolding sync_directory_from
  sync_directory_from_lem zero s h = absurd (omega arith)
  sync_directory_from_lem (suc n) s h =
      directory_round s n (d.fsync_directory s.world).0 (d.fsync_directory s.world).1 h
        (laws.fsync_law s.world) (laws.fsync_signals s.world) (sync_directory_from_lem n)

  pub sync_directory_lem :
      (fuel : ℕ) (s : State World)
      → signals s.world < fuel
      → s.store.directory_open ≡ true
      → Ensures (Leaves s s.store) (sync_directory d fuel s)
  unfolding sync_directory
  sync_directory_lem fuel s h o =
      subst
        (λ b.
          Ensures (Leaves s s.store)
            (if not b then some (false, s) else sync_directory_from d fuel s))
        (sym o) (sync_directory_from_lem fuel s h)
