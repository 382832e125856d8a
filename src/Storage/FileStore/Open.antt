-- ===== src/Storage/FileStore/Open.antt =====
-- Opening the active file: it is created empty, or cut to whole frames.
use native.Mathlib.Decide.{ℕ_discrete}
use telemetry_server.Base.{
  ℕ, ◌-◌, ◌%◌, ◌≤◌, ◌<◌, ◌≡◌, ap, sym, ◌∙◌, arith, Bool, true, false, not, some, length, take,
  take_all, length-take, ◌⊎◌, inl, inr, ap₂, ==_of_eq, ==_of_ne, if◌then◌else◌,
}
use telemetry_server.Base.Action.{Ensures, Ensures-mono, Ensures-and, ◌&&=◌}
use telemetry_server.Protocol.Words.{Bytes}
use telemetry_server.Protocol.Codec.{frame_size}
use telemetry_server.Storage.Disk.{Disk, DiskLaws, Files, Status, StatLaw, TruncateLaw}
use telemetry_server.Storage.FileStore.{
  FileStore, State, truncate_partial_frame, recover_partial_frame, sync,
}
use telemetry_server.Storage.FileStore.Sync.{Leaves, sync-Leaves, synced}

-- The whole frames at the front of a file.
abbrev pub whole_frames : Bytes → Bytes
whole_frames bytes = take (length bytes - length bytes % frame_size) bytes

pub length-whole_frames : (b : Bytes) → length (whole_frames b) ≡ length b - length b % frame_size
length-whole_frames b = omega (arith, length-take (length b - length b % frame_size) b)

whole_frames_all : (b : Bytes) → length b % frame_size ≡ 0 → whole_frames b ≡ b
whole_frames_all b e = take_all _ b (omega arith)

module _ {d : Disk} (laws : DiskLaws d) where
  open d use {World}
  open laws use {files, signals}

  -- The active file holds the whole frames that it held, its size is known, and unsynced bytes can
  -- only have been synced.
  pub record Recovered (s t : State World) : Type 0 where
    pub cut :
        files t.world ≡ record (files s.world) { active = whole_frames (files s.world).active }
    pub fewer_signals : signals t.world ≤ signals s.world
    pub unsynced : t.store.unsynced_bytes ≤ s.store.unsynced_bytes
    pub store_is : t.store ≡ record (s.store) {
      current_size = length (files t.world).active;
      unsynced_bytes = t.store.unsynced_bytes;
    }

  -- A failed recovery has cut the file or left it.
  abbrev pub Recovers : State World → Bool → State World → Type 0
  Recovers s true t = Recovered s t
  Recovers s false t =
      (files t.world ≡ files s.world)
      ⊎ (files t.world ≡ record (files s.world) { active = whole_frames (files s.world).active })

  truncate_round :
      (fuel : ℕ) (s : State World) (cut : Bool) (w : World) (size : ℕ)
      → size ≡ length (files s.world).active
      → signals s.world < fuel
      → s.store.fd_open ≡ true
      → signals w ≤ signals s.world
      → TruncateLaw (files s.world) (size - size % frame_size) cut (files w)
      → Ensures (Recovers s) (
          if not cut
          then some (false, record s { world = w })
          else (sync d fuel &&= λ t. some (
            true,
            record t { store = record (t.store) { current_size = size - size % frame_size } },
          ))
              (record s { world = w }))
  truncate_round fuel s false w size e h o p l = inl l
  truncate_round fuel s true w size e h o p l =
      Ensures-and (Leaves laws s' (synced s.store)) (Recovers s) (sync d fuel) _ s'
        (sync-Leaves laws fuel s' (omega arith) o) (λ t q. inr (q.same_files ∙ l ∙ cut))
        (λ t q. record {
          cut = q.same_files ∙ l ∙ cut;
          fewer_signals = omega (arith, q.fewer_signals);
          unsynced = omega (arith, ap (λ (st : FileStore). st.unsynced_bytes) q.store_is);
          store_is =
              ap (λ (st : FileStore). record st { current_size = valid }) q.store_is
              ∙ ap₂ (λ n u. record (s.store) { current_size = n; unsynced_bytes = u })
                  (sizes ∙ ap (λ (f : Files). length f.active) (sym (q.same_files ∙ l ∙ cut)))
                  (sym (ap (λ (st : FileStore). st.unsynced_bytes) q.store_is));
        })
    where
      valid : ℕ
      valid = size - size % frame_size

      sizes : valid ≡ length (whole_frames (files s.world).active)
      sizes = ap (λ n. n - n % frame_size) e ∙ sym (length-whole_frames (files s.world).active)

      s' : State World
      s' = record s { world = w }

      cut :
          record (files s.world) { active = take (size - size % frame_size) (files s.world).active }
          ≡ record (files s.world) { active = whole_frames (files s.world).active }
      cut =
          ap
            (λ n. record (files s.world) {
              active = take (n - n % frame_size) (files s.world).active;
            })
            e

  truncate_partial_frame_lem :
      (fuel size : ℕ) (s : State World)
      → size ≡ length (files s.world).active
      → signals s.world < fuel
      → s.store.fd_open ≡ true
      → Ensures (Recovers s) (truncate_partial_frame d fuel size s)
  unfolding truncate_partial_frame
  truncate_partial_frame_lem fuel size s e h o = elim (ℕ_discrete (size % frame_size) 0) [
    | yes z ↦ rw (==_of_eq z) (record {
      cut =
          ap (λ b. record (files s.world) { active = b })
            (sym (whole_frames_all (files s.world).active (aligned z)));
      fewer_signals = omega arith;
      unsynced = omega arith;
      store_is = ap (λ n. record (s.store) { current_size = n }) (omega arith);
    })
    | no z ↦ rw (==_of_ne z) (
        truncate_round fuel s (d.ftruncate (size - size % frame_size) s.world).0
          (d.ftruncate (size - size % frame_size) s.world).1 size e h o
          (laws.truncate_signals (size - size % frame_size) s.world)
          (laws.truncate_law (size - size % frame_size) s.world))
  ]
    where
      aligned : size % frame_size ≡ 0 → length (files s.world).active % frame_size ≡ 0
      aligned z = sym (ap (λ n. n % frame_size) e) ∙ z

  -- What holds of a state holds of one before it that has the same files and store.
  Recovers-after :
      (s : State World) (w : World)
      → files w ≡ files s.world
      → signals w ≤ signals s.world
      → (ok : Bool) (t : State World) → Recovers (record s { world = w }) ok t
      → Recovers s ok t
  Recovers-after s w f p true t r = record {
    cut = r.cut ∙ ap (λ (g : Files). record g { active = whole_frames g.active }) f;
    fewer_signals = omega arith;
    unsynced = r.unsynced;
    store_is = r.store_is;
  }
  Recovers-after s w f p false t (inl e) = inl (e ∙ f)
  Recovers-after s w f p false t (inr e) =
      inr (e ∙ ap (λ (g : Files). record g { active = whole_frames g.active }) f)

  stat_round :
      (fuel : ℕ) (s : State World) (r : Status) (w : World)
      → signals s.world < fuel
      → s.store.fd_open ≡ true
      → signals w ≤ signals s.world
      → StatLaw (files s.world) r (files w)
      → Ensures (Recovers s) (elim r [
        | Status.regular size ↦ truncate_partial_frame d fuel size (record s { world = w })
        | Status.not_regular ↦ some (false, record s { world = w })
        | Status.failed ↦ some (false, record s { world = w })
      ])
  stat_round fuel s (Status.regular size) w h o p l =
      Ensures-mono _ _ (truncate_partial_frame d fuel size (record s { world = w }))
        (Recovers-after s w l.1 p)
        (truncate_partial_frame_lem fuel size (record s { world = w })
          (l.0 ∙ ap (λ (g : Files). length g.active) (sym l.1)) (omega arith) o)
  stat_round fuel s Status.not_regular w h o p l = inl l
  stat_round fuel s Status.failed w h o p l = inl l

  pub recover_partial_frame_lem :
      (fuel : ℕ) (s : State World)
      → signals s.world < fuel
      → s.store.fd_open ≡ true
      → Ensures (Recovers s) (recover_partial_frame d fuel s)
  unfolding recover_partial_frame
  recover_partial_frame_lem fuel s h o =
      stat_round fuel s (d.fstat s.world).0 (d.fstat s.world).1 h o (laws.stat_signals s.world)
        (laws.stat_law s.world)
