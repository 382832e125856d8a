-- ===== src/Server/Connections/Reading.antt =====
-- `readClient`: the bytes of one connection on their way into the ring.
use telemetry_server.Base.{
  ℕ, ◌+◌, ◌*◌, ◌≤◌, ◌≡◌, refl, ap, ap₂, sym, subst, ◌∙◌, arith, Bool, true, false, some, ◌++◌,
  length, drop, drop-drop, length-drop, All, All-append, append_assoc, append-nil,
}
use telemetry_server.Protocol.Words.{Bytes}
use telemetry_server.Protocol.Codec.{frame_size}
use telemetry_server.Ipc.Ring.{Layout}
use telemetry_server.Ipc.Ring.Slots.{split_frames}
use telemetry_server.Ipc.Ring.Refine.{IsValid, contents}
use telemetry_server.Server.Buffer.{Buffer, pending, IsInOrder}
use telemetry_server.Server.Receive.Frames.{IsAccepted, split_frames-add}
use telemetry_server.Server.Receive.Laws.{IsRoomy}
use telemetry_server.Server.Net.{Net, NetLaws}
use telemetry_server.Server.Clients.{find}
use telemetry_server.Server.Connections.{Server}
use telemetry_server.Server.Connections.Removal.{CannotNotify}
use telemetry_server.Server.History.{Told, Told-nothing, Told-trans}
use telemetry_server.Server.Connections.Frame.{Frame, Frame-trans}

module _ {n : Net} (laws : NetLaws n) where
  open n use {World}
  open laws use {kernel, budget}

  -- What a client has sent and the server has not published: the bytes of its buffer and those that
  -- are still to be read.
  abbrev pub unpublished : ℕ → Buffer → Server World → Bytes
  unpublished fd b s = pending b ++ (kernel s.world).unread fd

  -- From the client `b` and the ring `l` in `s`, `count` frames have gone into the ring.
  pub record Reads (fd : ℕ) (b : Buffer) (l : Layout) (s : Server World) (ok : Bool)
      (t : Server World) : Type 0 where
    pub count : ℕ
    pub layout : Layout
    pub ring_is : t.ring ≡ some layout
    pub valid_ring : IsValid layout
    pub not_closed : layout.producer_closed ≡ 0
    pub contents_are : contents layout ≡ contents l ++ split_frames count (unpublished fd b s)
    pub within : count * frame_size ≤ length (unpublished fd b s)
    pub accepted : All IsAccepted (split_frames count (unpublished fd b s))
    pub roomy : ok ≡ true → t.pause_requested ≡ false → IsRoomy layout
    pub rest :
        (c : Buffer)
        → find fd t.clients ≡ some c
        → ok ≡ true
        → IsInOrder c × (unpublished fd c t ≡ drop (count * frame_size) (unpublished fd b s))
    -- the bytes that came brought just these frames, and what they left is what the client has
    pub history :
        (h : ℕ → Bytes)
        → h fd ≡ pending b
        → (h' : ℕ → Bytes) × Told laws fd h s (split_frames count (unpublished fd b s)) t h'
          × ((c : Buffer) → find fd t.clients ≡ some c → ok ≡ true → h' fd ≡ pending c)
    pub faultless : ok ≡ false → CannotNotify n
    pub frame : Frame laws fd s t

  -- A step that puts `m` frames into the ring, and then the rest of the reading.
  pub Reads-after :
      (fd : ℕ) (b b' : Buffer) (l l' : Layout) (s t : Server World) (m : ℕ)
      → contents l' ≡ contents l ++ split_frames m (unpublished fd b s)
      → m * frame_size ≤ length (unpublished fd b s)
      → All IsAccepted (split_frames m (unpublished fd b s))
      → unpublished fd b' t ≡ drop (m * frame_size) (unpublished fd b s)
      → Frame laws fd s t
      → ((h : ℕ → Bytes)
          → h fd ≡ pending b
          → (h' : ℕ → Bytes) × Told laws fd h s (split_frames m (unpublished fd b s)) t h'
            × (h' fd ≡ pending b'))
      → (ok : Bool) (u : Server World) → Reads fd b' l' t ok u
      → Reads fd b l s ok u
  Reads-after fd b b' l l' s t m c h a e f told ok u r = record {
    count = m + r.count;
    layout = r.layout;
    ring_is = r.ring_is;
    valid_ring = r.valid_ring;
    not_closed = r.not_closed;
    contents_are =
        r.contents_are
        ∙ ap₂ (λ fs bytes. fs ++ split_frames r.count bytes) c e
        ∙ append_assoc (contents l) _ _
        ∙ ap (λ fs. contents l ++ fs) (sym split);
    within =
        omega (arith, r.within, ap length e, length-drop (m * frame_size) (unpublished fd b s), h);
    accepted = subst (All IsAccepted) (sym split) (All-append IsAccepted _ _ a more);
    roomy = r.roomy;
    rest = λ x g o. (
      (r.rest x g o).0,
      (r.rest x g o).1
          ∙ ap (drop (r.count * frame_size)) e
          ∙ drop-drop (r.count * frame_size) (m * frame_size) (unpublished fd b s)
          ∙ ap (λ k. drop k (unpublished fd b s)) {x = m * frame_size + r.count * frame_size}
              {y = (m + r.count) * frame_size} (omega arith),
    );
    history = λ g g0.
        let (g', x, p) = told g g0 in
        let (g'', y, q) = r.history g' p in
        (
          g'',
          subst (λ fs. Told laws fd g s fs u g'')
              (sym (
                split
                ∙ ap (λ bytes. split_frames m (unpublished fd b s) ++ split_frames r.count bytes)
                    (sym e)))
              (Told-trans laws fd g g' g'' s t u _ _ x y),
          q,
        );
    faultless = r.faultless;
    frame = Frame-trans laws f r.frame;
  }
    where
      split :
          split_frames (m + r.count) (unpublished fd b s)
          ≡ split_frames m (unpublished fd b s)
            ++ split_frames r.count (drop (m * frame_size) (unpublished fd b s))
      split = split_frames-add m r.count (unpublished fd b s)

      more : All IsAccepted (split_frames r.count (drop (m * frame_size) (unpublished fd b s)))
      more = subst (λ bytes. All IsAccepted (split_frames r.count bytes)) e r.accepted

  -- The end of the reading, with the client as it was or gone.
  pub Reads-end :
      (fd : ℕ) (b : Buffer) (l : Layout) (s t : Server World) (ok : Bool)
      → t.ring ≡ some l
      → IsValid l
      → l.producer_closed ≡ 0
      → (ok ≡ true → t.pause_requested ≡ false → IsRoomy l)
      → ((c : Buffer)
          → find fd t.clients ≡ some c
          → ok ≡ true
          → IsInOrder c × (unpublished fd c t ≡ unpublished fd b s) × (pending c ≡ pending b))
      → (kernel t.world).log ≡ (kernel s.world).log
      → (ok ≡ false → CannotNotify n)
      → Frame laws fd s t
      → Reads fd b l s ok t
  Reads-end fd b l s t ok e v p roomy rest same fault f = record {
    count = 0;
    layout = l;
    ring_is = e;
    valid_ring = v;
    not_closed = p;
    contents_are = sym (append-nil (contents l));
    within = omega arith;
    accepted = tt;
    roomy = roomy;
    rest = λ c x y. ((rest c x y).0, (rest c x y).1);
    history = λ h h0. (h, Told-nothing laws fd h s t same, λ c x y. h0 ∙ sym (rest c x y).2);
    faultless = fault;
    frame = f;
  }

  -- The client that is found is the one that was there.
  pub same_rest :
      (fd : ℕ) (b : Buffer) (t : Server World)
      → find fd t.clients ≡ some b
      → IsInOrder b
      → (c : Buffer) → find fd t.clients ≡ some c
      → IsInOrder c × (unpublished fd c t ≡ unpublished fd b t) × (pending c ≡ pending b)
  same_rest fd b t e o c x =
      let same : b ≡ c = ground (arith, e, x) in
      subst (λ y. IsInOrder y × (unpublished fd y t ≡ unpublished fd b t) × (pending y ≡ pending b))
        same (o, refl, refl)
