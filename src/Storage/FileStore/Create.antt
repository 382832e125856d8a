-- ===== src/Storage/FileStore/Create.antt =====
-- `openActiveFile`: a new file is empty, and one that is there is recovered.
use telemetry_server.Base.{
  ℕ, ◌≤◌, ◌<◌, ◌≡◌, refl, ap, sym, subst, ◌∙◌, arith, Bool, true, false, some, [], length, inl, inr,
  if◌then◌else◌,
}
use telemetry_server.Base.Action.{Ensures, Ensures-mono, Ensures-and, ◌&&=◌}
use telemetry_server.Storage.Disk.{Disk, DiskLaws, Files, Created, CreateLaw}
use telemetry_server.Storage.FileStore.{
  State, recover_partial_frame, open_active_file, sync_directory, opened,
}
use telemetry_server.Storage.FileStore.Sync.{Same, Leaves, sync_directory_lem}
use telemetry_server.Storage.FileStore.Open.{Recovers, recover_partial_frame_lem, whole_frames}

-- The files with the active one there, empty if it was not.
abbrev pub made : Files → Files
made f = record f { present = true; active = if f.present then f.active else [] }

made_new : (f : Files) → f.present ≡ false → made f ≡ record f { present = true; active = [] }
made_new f e = ap (λ b. record f { present = true; active = if b then f.active else [] }) e

made_old : (f : Files) → f.present ≡ true → made f ≡ f
made_old f e =
    ap (λ b. record f { present = true; active = if b then f.active else [] }) e
    ∙ ap (λ b. record f { present = b }) (sym e)

made_empty : (f : Files) → f.active ≡ [] → (made f).active ≡ []
made_empty f e = ground arith

module _ {d : Disk} (laws : DiskLaws d) where
  open d use {World}
  open laws use {files, signals}

  pub record OpenedAt (s t : State World) : Type 0 where
    pub cut :
        files t.world
        ≡ record (made (files s.world)) { active = whole_frames (made (files s.world)).active }
    pub fewer_signals : signals t.world ≤ signals s.world
    pub unsynced : t.store.unsynced_bytes ≤ s.store.unsynced_bytes
    pub store_is : t.store ≡ record (s.store) {
      fd_open = true;
      current_size = length (files t.world).active;
      unsynced_bytes = t.store.unsynced_bytes;
    }

  -- A failure to open leaves the archive alone, and makes nothing out of an empty file.
  abbrev pub Opens : State World → Bool → State World → Type 0
  Opens s true t = OpenedAt s t
  Opens s false t =
      ((files t.world).archived ≡ (files s.world).archived)
      × ((files s.world).active ≡ [] → (files t.world).active ≡ [])

  Opens-of_Recovers :
      (s : State World) (w : World)
      → files w ≡ made (files s.world)
      → signals w ≤ signals s.world
      → (ok : Bool) (t : State World) → Recovers laws (opened d s w) ok t
      → Opens s ok t
  Opens-of_Recovers s w f p true t r = record {
    cut = r.cut ∙ ap (λ (g : Files). record g { active = whole_frames g.active }) f;
    fewer_signals = omega arith;
    unsynced = r.unsynced;
    store_is = r.store_is;
  }
  Opens-of_Recovers s w f p false t (inl e) =
      let g : files t.world ≡ made (files s.world) = e ∙ f in
      (
        ap (λ (x : Files). x.archived) g,
        λ n. ap (λ (x : Files). x.active) g ∙ made_empty (files s.world) n,
      )
  Opens-of_Recovers s w f p false t (inr e) =
      let g : files t.world
          ≡ record (made (files s.world)) { active = whole_frames (made (files s.world)).active } =
        e ∙ ap (λ (x : Files). record x { active = whole_frames x.active }) f in
      (
        ap (λ (x : Files). x.archived) g,
        λ n. ap (λ (x : Files). x.active) g ∙ ap whole_frames (made_empty (files s.world) n),
      )

  -- Recovery, once the file is open.
  recovered_from :
      (fuel : ℕ) (s : State World) (w : World)
      → signals s.world < fuel
      → files w ≡ made (files s.world)
      → signals w ≤ signals s.world
      → Ensures (Opens s) (recover_partial_frame d fuel (opened d s w))
  recovered_from fuel s w h f p =
      Ensures-mono _ _ (recover_partial_frame d fuel (opened d s w)) (Opens-of_Recovers s w f p)
        (recover_partial_frame_lem laws fuel (opened d s w) (omega arith) refl)

  create_round :
      (fuel : ℕ) (s : State World) (r : Created) (w : World)
      → signals s.world < fuel
      → s.store.directory_open ≡ true
      → signals w ≤ signals s.world
      → CreateLaw (files s.world) r (files w)
      → Ensures (Opens s) (elim r [
        | Created.created ↦ (sync_directory d fuel &&= recover_partial_frame d fuel) (opened d s w)
        | Created.already_there ↦
            let (found, w') = d.open_file w in
            if found
            then recover_partial_frame d fuel (opened d s w')
            else some (false, record s { world = w' })
        | Created.failed ↦ some (false, record s { world = w })
      ])
  create_round fuel s Created.failed w h o p l =
      (ap (λ (x : Files). x.archived) l, λ n. ap (λ (x : Files). x.active) l ∙ n)
  create_round fuel s Created.already_there w h o p l = go (d.open_file w).0
    where
      w' : World
      w' = (d.open_file w).1

      same : files w' ≡ files s.world
      same = laws.open_law w ∙ l.1

      go :
          (found : Bool)
          → Ensures (Opens s) (
              if found
              then recover_partial_frame d fuel (opened d s w')
              else some (false, record s { world = w' }))
      go true =
          recovered_from fuel s w' h (same ∙ sym (made_old (files s.world) l.0))
            (omega (arith, laws.open_signals w))
      go false = (ap (λ (x : Files). x.archived) same, λ n. ap (λ (x : Files). x.active) same ∙ n)
  create_round fuel s Created.created w h o p l =
      Ensures-and (Leaves laws s' s'.store) (Opens s) (sync_directory d fuel)
        (recover_partial_frame d fuel) s' (sync_directory_lem laws fuel s' (omega arith) o)
        (λ t q. (
          ap (λ (x : Files). x.archived) (q.same_files ∙ l.1),
          λ n. ap (λ (x : Files). x.active) (q.same_files ∙ l.1),
        ))
        (λ t q.
          subst (λ x. Ensures (Opens s) (recover_partial_frame d fuel x)) (sym (at_opened t q))
            (recovered_from fuel s t.world h
              (q.same_files ∙ l.1 ∙ sym (made_new (files s.world) l.0))
              (omega (arith, q.fewer_signals))))
    where
      s' : State World
      s' = opened d s w

      at_opened : (t : State World) → Same laws s' s'.store t → t ≡ opened d s t.world
      at_opened t q = ap (λ st. record t { store = st }) q.store_is

  pub open_active_file_lem :
      (fuel : ℕ) (s : State World)
      → signals s.world < fuel
      → s.store.directory_open ≡ true
      → Ensures (Opens s) (open_active_file d fuel s)
  unfolding open_active_file
  open_active_file_lem fuel s h o =
      create_round fuel s (d.create_file s.world).0 (d.create_file s.world).1 h o
        (laws.create_signals s.world) (laws.create_law s.world)
