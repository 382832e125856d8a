-- ===== src/Reader/Run/Rounds.antt =====
-- The rounds of `Reader::run`: all that the producer pushes is stored, in order, and the loop ends.
use telemetry_server.Base.{
  ℕ, ◌+◌, ◌≤◌, ◌<◌, ◌≡◌, ap, ap₂, sym, ◌∙◌, arith, Bool, true, false, Option, none, some, [], ◌++◌,
  length, take, append-nil, append_assoc, take-append_self, take-append_add, if◌then◌else◌,
}
use telemetry_server.Base.Action.{Ensures}
use telemetry_server.Protocol.Words.{Bytes}
use telemetry_server.Ipc.Ring
use telemetry_server.Ipc.Ring.{Layout, SharedRingBuffer, capacity_frames, sub_u64}
use telemetry_server.Ipc.Ring.Slots.{join_frames}
use telemetry_server.Ipc.Ring.Refine.{contents, length-contents}
use telemetry_server.Ipc.EventFd.{notify_event}
use telemetry_server.Storage.Disk.{Disk, DiskLaws}
use telemetry_server.Reader.{State, drain_and_flush}
use telemetry_server.Reader.Batch.{stored, IsStaging}
use telemetry_server.Reader.Pop.{queued, IsFilled}
use telemetry_server.Reader.Drain.{Empties, drain_and_flush_lem}
use telemetry_server.Reader.Run.{
  Peer, Channel, Process, act, channel, with_channel, on_channel, on_reader, notify_consumed, round,
}
use telemetry_server.Reader.Run.Exchange.{IsClosed, PeerLaws, Flow, Sent, notify_lem}

module _ {d : Disk} {p : Peer} (disk_laws : DiskLaws d) (peer_laws : PeerLaws p) (fuel : ℕ) where
  abbrev pub Proc : Type 0
  Proc = Process (d.World) (p.World)

  abbrev pub stored_by : Proc → Bytes
  stored_by s = stored disk_laws s.reader

  -- Before a round, with the ring `l`: nothing is staged, and there is fuel for what is to come.
  pub record Works (l : Layout) (s : Proc) : Type 0 where
    pub ring_is : s.reader.ring ≡ some l
    pub filled : IsFilled l
    pub staging : IsStaging disk_laws fuel s.reader
    pub nothing_staged : s.reader.batch ≡ []
    pub patient : peer_laws.signals s.peer < fuel
    pub deep : capacity_frames < fuel

  -- All that was in the ring `l` and all that was pushed since is stored, and the ring is closed and
  -- empty.
  pub record Finished (l : Layout) (s t : Proc) : Type 0 where
    pub fresh : Bytes
    pub pushed_is : t.pushed ≡ s.pushed ++ fresh
    pub stored_is : stored_by t ≡ stored_by s ++ (queued l ++ fresh)
    pub synced_up : t.reader.storage.store.unsynced_bytes ≡ 0
    pub durable : disk_laws.flushed t.reader.storage.world ≡ true
    pub layout : Layout
    pub ring_is : t.reader.ring ≡ some layout
    pub closed : IsClosed layout
    pub no_frames : contents layout ≡ []

  -- A prefix of it is stored.
  pub record Stopped (l : Layout) (s t : Proc) : Type 0 where
    pub fresh : Bytes
    pub count : ℕ
    pub pushed_is : t.pushed ≡ s.pushed ++ fresh
    pub stored_is : stored_by t ≡ stored_by s ++ take count (queued l ++ fresh)

  abbrev pub Ends : Layout → Proc → Bool → Proc → Type 0
  Ends l s true t = Finished l s t
  Ends l s false t = Stopped l s t

  -- After the drain of a round, the ring `l'` holds what has been pushed since.
  pub record Drained (l : Layout) (s : Proc) (l' : Layout) (t : Proc) : Type 0 where
    pub works : Works l' t
    pub stored_is : stored_by t ≡ stored_by s ++ queued l
    pub pushed_is : t.pushed ≡ s.pushed ++ queued l'
    pub stays_closed : IsClosed l → IsClosed l' × (queued l' ≡ [])
    pub turns : peer_laws.left t.peer ≤ peer_laws.left s.peer

  pub Drained-Stopped :
      (l : Layout) (s : Proc) (l' : Layout) (t : Proc) → Drained l s l' t → Stopped l s t
  Drained-Stopped l s l' t q = record {
    fresh = queued l';
    count = length (queued l);
    pushed_is = q.pushed_is;
    stored_is =
        q.stored_is ∙ ap (λ b. stored_by s ++ b) (sym (take-append_self (queued l) (queued l')));
  }

  pub Drained-Ends :
      (l : Layout) (s : Proc) (l' : Layout) (t : Proc)
      → Drained l s l' t
      → (ok : Bool) (u : Proc) → Ends l' t ok u
      → Ends l s ok u
  Drained-Ends l s l' t q true u r = record {
    fresh = queued l' ++ r.fresh;
    pushed_is =
        r.pushed_is
        ∙ ap (λ b. b ++ r.fresh) q.pushed_is
        ∙ append_assoc s.pushed (queued l') r.fresh;
    stored_is =
        r.stored_is
        ∙ ap (λ b. b ++ (queued l' ++ r.fresh)) q.stored_is
        ∙ append_assoc (stored_by s) (queued l) (queued l' ++ r.fresh);
    synced_up = r.synced_up;
    durable = r.durable;
    layout = r.layout;
    ring_is = r.ring_is;
    closed = r.closed;
    no_frames = r.no_frames;
  }
  Drained-Ends l s l' t q false u r = record {
    fresh = queued l' ++ r.fresh;
    count = length (queued l) + r.count;
    pushed_is =
        r.pushed_is
        ∙ ap (λ b. b ++ r.fresh) q.pushed_is
        ∙ append_assoc s.pushed (queued l') r.fresh;
    stored_is =
        r.stored_is
        ∙ ap (λ b. b ++ take r.count (queued l' ++ r.fresh)) q.stored_is
        ∙ append_assoc (stored_by s) (queued l) (take r.count (queued l' ++ r.fresh))
        ∙ ap (λ b. stored_by s ++ b)
            (sym (take-append_add (queued l) (queued l' ++ r.fresh) r.count));
  }

  abbrev pub Drains : Layout → Proc → Bool → Proc → Type 0
  Drains l s true t = (l' : Layout) × Drained l s l' t
  Drains l s false t = Stopped l s t

  IsClosed-same :
      (l l' : Layout)
      → Ring.producer_closed (some l') ≡ Ring.producer_closed (some l)
      → IsClosed l
      → IsClosed l'
  unfolding Ring.producer_closed
  IsClosed-same l l' e c = ground (arith, e, c)

  pub round_lem : (l : Layout) (s : Proc) → Works l s → Ensures (Drains l s) (round d p fuel s)
  round_lem l s w = go (drain_and_flush d fuel s.reader) (
      drain_and_flush_lem disk_laws fuel s.reader l w.ring_is w.filled w.staging
        (let v = w.filled.0 in omega (arith, length-contents l, v.pending, w.deep)))
    where
      go :
          (r : Option (Bool × State (d.World)))
          → Ensures (Empties disk_laws fuel s.reader (queued l)) r
          → Ensures (Drains l s) (on_reader s r)
      go none q = absurd q
      go (some (false, t)) (k, e) = record {
        fresh = [];
        count = k;
        pushed_is = sym (append-nil s.pushed);
        stored_is =
            e
            ∙ ap (λ b. stored_by s ++ take k (b ++ queued l)) w.nothing_staged
            ∙ ap (λ b. stored_by s ++ take k b) (sym (append-nil (queued l)));
      }
      go (some (true, t)) q =
          let empty : queued q.layout ≡ [] = ap join_frames q.no_frames in
          (
            q.layout,
            record {
              works = record {
                ring_is = q.ring_is;
                filled = q.filled;
                staging = q.staging;
                nothing_staged = q.nothing_staged;
                patient = w.patient;
                deep = w.deep;
              };
              stored_is = q.stored_are ∙ ap (λ b. stored_by s ++ (b ++ queued l)) w.nothing_staged;
              pushed_is = sym (append-nil s.pushed) ∙ ap (λ b. s.pushed ++ b) (sym empty);
              stays_closed = λ c. (
                IsClosed-same l q.layout
                    (ap Ring.producer_closed (sym q.ring_is)
                      ∙ q.same_closed
                      ∙ ap Ring.producer_closed w.ring_is)
                    c,
                empty,
              );
              turns = omega arith;
            },
          )

  -- What the producer has done meanwhile.
  Flow-Works :
      (l' : Layout) (t : Proc) (c : Channel (p.World))
      → Works l' t
      → (f : Flow l' (channel t) c) → peer_laws.signals c.peer ≤ peer_laws.signals t.peer
      → Works f.layout (with_channel t c)
  Flow-Works l' t c w f h = record {
    ring_is = f.ring_is;
    filled = f.grown.filled;
    staging = record {
      ready = w.staging.ready;
      whole = w.staging.whole;
      size = w.staging.size;
      enough = w.staging.enough;
    };
    nothing_staged = w.nothing_staged;
    patient = (let k = w.patient in omega (arith, k, h));
    deep = w.deep;
  }

  pub Flow-Drained :
      (l : Layout) (s : Proc) (l' : Layout) (t : Proc) (c : Channel (p.World))
      → Drained l s l' t
      → (f : Flow l' (channel t) c) → peer_laws.signals c.peer ≤ peer_laws.signals t.peer
      → peer_laws.left c.peer ≤ peer_laws.left t.peer
      → Drained l s f.layout (with_channel t c)
  Flow-Drained l s l' t c q f h k = record {
    works = Flow-Works l' t c q.works f h;
    stored_is = q.stored_is;
    pushed_is =
        f.pushed_is
        ∙ ap (λ b. b ++ f.fresh) q.pushed_is
        ∙ append_assoc s.pushed (queued l') f.fresh
        ∙ ap (λ b. s.pushed ++ b) (sym f.grown.queued_is);
    stays_closed = λ c.
        let (c', e) = q.stays_closed c in
        let (c'', e') = f.grown.stays_closed c' in
        (c'', f.grown.queued_is ∙ ap₂ (λ a b. a ++ b) e e');
    turns = (let m = q.turns in omega (arith, m, k));
  }

  pub notify_consumed_lem :
      (l : Layout) (s : Proc) (l' : Layout) (t : Proc)
      → Drained l s l' t
      → Ensures (Drains l s) (notify_consumed d p fuel t)
  unfolding notify_consumed
  notify_consumed_lem l s l' t q = go t.reader.consumed_any
    where
      placed :
          (r : Option (Bool × Channel (p.World)))
          → Ensures (λ ok c. Sent peer_laws l' (channel t) c) r
          → Ensures (Drains l s) (on_channel t r)
      placed none x = absurd x
      placed (some (true, c)) (f, h, k) = (f.layout, Flow-Drained l s l' t c q f h k)
      placed (some (false, c)) (f, h, k) =
          Drained-Stopped l s f.layout (with_channel t c) (Flow-Drained l s l' t c q f h k)

      go :
          (consumed : Bool)
          → Ensures (Drains l s) (
              if consumed
              then on_channel t (notify_event (act p.notify) fuel (channel t))
              else some (true, t))
      go false = (l', q)
      go true =
          placed (notify_event (act p.notify) fuel (channel t)) (
            notify_lem peer_laws fuel l' (channel t) q.works.ring_is q.works.filled q.works.patient)
