-- ===== src/Reader/Run/Laws.antt =====
-- The `while (true)` of `Reader::run`.
use telemetry_server.Base.{
  ℕ, zero, suc, ◌+◌, ◌<◌, ◌≡◌, ◌≢◌, ◌⊎◌, inl, inr, refl, ap, sym, subst, ◌∙◌, arith, Bool, true,
  false, ◌&&◌, Option, none, some, [], ◌++◌, length, append-nil, if◌then◌else◌,
}
use telemetry_server.Base.Action.{Ensures, Ensures-mono, Ensures-and, ◌&&=◌}
use telemetry_server.Ipc.Ring
use telemetry_server.Ipc.Ring.{Layout, SharedRingBuffer, capacity_frames, sub_u64}
use telemetry_server.Ipc.Ring.Slots.{join_frames}
use telemetry_server.Ipc.Ring.Refine.{contents, length-contents}
use telemetry_server.Ipc.EventFd.{consume_event}
use telemetry_server.Storage.Disk.{Disk, DiskLaws}
use telemetry_server.Storage.FileStore
use telemetry_server.Storage.FileStore.{FileStoreConfig, open_file, sync}
use telemetry_server.Storage.FileStore.Rotate.{content}
use telemetry_server.Storage.FileStore.Sync.{Syncs, sync_lem}
use telemetry_server.Reader.Pop.{queued, IsFilled, length-join_frames}
use telemetry_server.Reader.Run.{
  Peer, Channel, Process, act, channel, on_channel, on_storage, notify_consumed, wait_for_data,
  is_finished, round, loop,
}
use telemetry_server.Reader.Run.Exchange.{IsClosed, PeerLaws, Waits, wait_lem}
use telemetry_server.Reader.Run.Rounds.{
  stored_by, Works, Ends, Drained, Drains, Drained-Stopped, Drained-Ends, Flow-Drained, round_lem,
  notify_consumed_lem,
}

is_finished_lem :
    {W P : Type 0} (t : Process W P) (l : Layout)
    → t.reader.ring ≡ some l
    → IsFilled l
    → (is_finished t ≡ true → IsClosed l × (contents l ≡ []))
      × (is_finished t ≡ false → IsClosed l → queued l ≢ [])
unfolding is_finished Ring.producer_closed Ring.empty Ring.pending_frames
is_finished_lem t l e v =
    subst
      (λ r.
        ((Ring.producer_closed r && Ring.empty r) ≡ true → IsClosed l × (contents l ≡ []))
        × ((Ring.producer_closed r && Ring.empty r) ≡ false → IsClosed l → queued l ≢ []))
      (sym e)
      (
        (λ f. ((λ z. absurd (ground (arith, f, z))), none_left (ground (arith, f)))),
        λ f c q.
            let size = ap length q in
            let frames = length-join_frames (contents l) v.1 in
            let count = length-contents l in
            let z : sub_u64 l.head l.tail ≡ 0 = omega (arith, size, frames, count) in
            absurd (ground (arith, f, c, z)),
      )
  where
    none_left : sub_u64 l.head l.tail ≡ 0 → contents l ≡ []
    none_left z = rw z refl

module _ {d : Disk} {p : Peer} (disk_laws : DiskLaws d) (peer_laws : PeerLaws p) (fuel : ℕ) where
  abbrev P : Type 0
  P = Process (d.World) (p.World)

  -- The rounds that are left are enough: one on a closed ring, and one more than the turns of the
  -- producer on an open one.
  abbrev pub Enough : ℕ → Layout → P → Type 0
  Enough rounds l s = (IsClosed l × (0 < rounds)) ⊎ (peer_laws.left s.peer + 1 < rounds)

  abbrev finish : ℕ → P → Option (Bool × P)
  finish rounds t =
      if is_finished t
      then on_storage t (sync d fuel t.reader.storage)
      else (wait_for_data d p fuel &&= loop d p fuel rounds) t

  sync_all_lem :
      (l : Layout) (s : P) (l' : Layout) (t : P)
      → Drained disk_laws peer_laws fuel l s l' t
      → IsClosed l'
      → contents l' ≡ []
      → Ensures (Ends disk_laws peer_laws fuel l s) (on_storage t (sync d fuel t.reader.storage))
  sync_all_lem l s l' t q c e = go (sync d fuel t.reader.storage) (
      sync_lem disk_laws fuel t.reader.storage (let k = q.works.staging.enough in omega (arith, k))
        q.works.staging.ready.disk.fd)
    where
      go :
          (r : Option (Bool × FileStore.State (d.World)))
          → Ensures (Syncs disk_laws t.reader.storage) r
          → Ensures (Ends disk_laws peer_laws fuel l s) (on_storage t r)
      go none x = absurd x
      go (some (true, u)) x = record {
        fresh = queued l';
        pushed_is = q.pushed_is;
        stored_is =
            ap content x.0.same_files
            ∙ q.stored_is
            ∙ ap (λ b. stored_by disk_laws peer_laws fuel s ++ b)
                (sym (append-nil (queued l)) ∙ ap (λ f. queued l ++ join_frames f) (sym e));
        synced_up = ap (λ (st : FileStore.FileStore). st.unsynced_bytes) x.0.store_is;
        durable = x.1;
        layout = l';
        ring_is = q.works.ring_is;
        closed = c;
        no_frames = e;
      }
      go (some (false, u)) x =
          let y = Drained-Stopped disk_laws peer_laws fuel l s l' t q in
          record {
            fresh = y.fresh;
            count = y.count;
            pushed_is = y.pushed_is;
            stored_is = ap content x.same_files ∙ y.stored_is;
          }

  -- A round is behind, and the ring is not finished with.
  abbrev Waited : ℕ → Layout → P → Bool → P → Type 0
  Waited rounds l s ok u =
      (l' : Layout) × Drained disk_laws peer_laws fuel l s l' u × (ok ≡ true → Enough rounds l' u)

  wait_for_data_lem :
      (rounds : ℕ) (l : Layout) (s : P) (l' : Layout) (t : P)
      → Drained disk_laws peer_laws fuel l s l' t
      → Enough (suc rounds) l s
      → (IsClosed l' → queued l' ≢ [])
      → Ensures (Waited rounds l s) (wait_for_data d p fuel t)
  unfolding wait_for_data
  wait_for_data_lem rounds l s l' t q m f =
      go (consume_event (act p.wait) fuel (channel t))
        (wait_lem peer_laws fuel l' (channel t) q.works.ring_is q.works.filled q.works.patient)
    where
      turns_left : peer_laws.left s.peer + 1 < suc rounds
      turns_left = elim m [
        | inl c ↦ (let (c', e) = q.stays_closed c.0 in absurd (f c' e))
        | inr h ↦ h
      ]

      go :
          (r : Option (Bool × Channel (p.World)))
          → Ensures (Waits peer_laws l' (channel t)) r
          → Ensures (Waited rounds l s) (on_channel t r)
      go none x = absurd x
      go (some (ok, c)) x = (
        x.flow.layout,
        Flow-Drained disk_laws peer_laws fuel l s l' t c q x.flow x.fewer x.later,
        λ o. elim (x.turn o) [
          | inl closed ↦ inl (closed, omega (arith, turns_left))
          | inr less ↦ inr (let k = q.turns in omega (arith, turns_left, less, k))
        ],
      )

  pub loop_lem :
      (rounds : ℕ) (l : Layout) (s : P)
      → Works disk_laws peer_laws fuel l s
      → Enough rounds l s
      → Ensures (Ends disk_laws peer_laws fuel l s) (loop d p fuel rounds s)
  unfolding loop
  loop_lem zero l s w m =
      absurd (elim m [ inl c ↦ (let k = c.1 in omega (arith, k)) | inr h ↦ omega (arith, h) ])
  loop_lem (suc rounds) l s w m =
      Ensures-and (Drains disk_laws peer_laws fuel l s) (Ends disk_laws peer_laws fuel l s)
        (round d p fuel) _ s (round_lem disk_laws peer_laws fuel l s w) (λ t q. q)
        (λ t q.
          Ensures-and (Drains disk_laws peer_laws fuel l s) (Ends disk_laws peer_laws fuel l s)
            (notify_consumed d p fuel) (finish rounds) t
            (notify_consumed_lem disk_laws peer_laws fuel l s q.0 t q.1) (λ u r. r)
            (λ u r. go u r.0 r.1 (is_finished u) refl (λ l' v w' m'. loop_lem rounds l' v w' m')))
    where
      go :
          (u : P) (l' : Layout)
          → Drained disk_laws peer_laws fuel l s l' u
          → (done : Bool) → is_finished u ≡ done
          → ((l'' : Layout) (v : P)
              → Works disk_laws peer_laws fuel l'' v
              → Enough rounds l'' v
              → Ensures (Ends disk_laws peer_laws fuel l'' v) (loop d p fuel rounds v))
          → Ensures (Ends disk_laws peer_laws fuel l s) (
              if done
              then on_storage u (sync d fuel u.reader.storage)
              else (wait_for_data d p fuel &&= loop d p fuel rounds) u)
      go u l' q true e again =
          let (c, nothing) = (is_finished_lem u l' q.works.ring_is q.works.filled).0 e in
          sync_all_lem l s l' u q c nothing
      go u l' q false e again =
          Ensures-and (Waited rounds l s) (Ends disk_laws peer_laws fuel l s)
            (wait_for_data d p fuel) (loop d p fuel rounds) u
            (wait_for_data_lem rounds l s l' u q m
              ((is_finished_lem u l' q.works.ring_is q.works.filled).1 e))
            (λ v r. Drained-Stopped disk_laws peer_laws fuel l s r.0 v r.1)
            (λ v r.
              Ensures-mono (Ends disk_laws peer_laws fuel r.0 v) (Ends disk_laws peer_laws fuel l s)
                (loop d p fuel rounds v) (Drained-Ends disk_laws peer_laws fuel l s r.0 v r.1)
                (again r.0 v r.1.works (r.2 refl)))
