-- ===== src/Server/Connections/Rounds.antt =====
-- The rounds of `readClient`, each with one call of `recv`.
use telemetry_server.Base.{
  ℕ, zero, suc, ◌*◌, ◌/◌, ◌≤◌, ◌<◌, ◌≡◌, inl, inr, refl, ap, ap₂, sym, subst, subst₂, ◌∙◌, arith,
  Bool, true, false, none, some, [], ◌∷◌, ◌++◌, length, drop, drop-append_le, length-append, All,
  append_assoc, append-nil, ==_of_eq,
}
use telemetry_server.Base.Action.{Action, Ensures, Ensures-mono, Ensures-bind, ◌>>=◌, pure}
use telemetry_server.Protocol.Words.{Bytes}
use telemetry_server.Protocol.Codec.{frame_size}
use telemetry_server.Ipc.Ring.{Layout}
use telemetry_server.Ipc.Ring.Slots.{split_frames}
use telemetry_server.Ipc.Ring.Refine.{contents}
use telemetry_server.Server.Buffer.{Buffer, pending, IsInOrder}
use telemetry_server.Server.Receive.{Outcome, Receipt, receive}
use telemetry_server.Server.Receive.Frames.{IsAccepted, split_frames-append}
use telemetry_server.Server.Receive.Laws.{IsRoomy, Published, Deals, receive_lem}
use telemetry_server.Server.Net.{
  Net, NetLaws, Kernel, Received, Input, noted, set_at, RecvLaw, RecvBudget, with_unread,
}
use telemetry_server.Server.History.{Ending, Told, Told-nothing, Told-heard, set_at_self}
use telemetry_server.Server.Clients.{find, find-update_self}
use telemetry_server.Server.Connections.{
  Server, Next, with_world, settled, remove_client, conclude, read_from, read_client,
  read_buffer_size,
}
use telemetry_server.Server.Connections.Removal.{
  CannotNotify, Apart, Stays, Gone, Stays-world, remove_client-Gone, Concludes, conclude_lem,
}
use telemetry_server.Server.Connections.Frame.{
  Frame, Frame-refl, Frame-trans, Stays-Frame, Gone-Frame, settled-Frame,
}
use telemetry_server.Server.Connections.Reading.{
  Reads, unpublished, Reads-after, Reads-end, same_rest,
}

module _ {n : Net} (laws : NetLaws n) where
  open n use {World}
  open laws use {kernel, budget}

  -- A round that has received `bytes`, with `later` still to be read.
  module _ (fuel rounds fd : ℕ) (b : Buffer) (l : Layout) (s : Server World) (bytes later : Bytes)
      (w : World) (splits : (kernel s.world).unread fd ≡ bytes ++ later)
      (reads : kernel w
        ≡ with_unread (noted (kernel s.world) (Input.heard fd bytes)) fd later) where
    abbrev stream : Bytes
    stream = pending b ++ bytes

    all : unpublished laws fd b s ≡ stream ++ later
    all = ap (λ x. pending b ++ x) splits ∙ sym (append_assoc (pending b) bytes later)

    -- The bytes are told of, and bring the frames that are published.
    heard :
        (m : ℕ) (b' : Buffer) (t : Server World)
        → m * frame_size ≤ length stream
        → Ending stream m
        → pending b' ≡ drop (m * frame_size) stream
        → (kernel t.world).log ≡ (kernel s.world).log ++ Input.heard fd bytes ∷ []
        → (h : ℕ → Bytes) → h fd ≡ pending b
        → (h' : ℕ → Bytes) × Told laws fd h s (split_frames m (unpublished laws fd b s)) t h'
          × (h' fd ≡ pending b')
    heard m b' t within ends e log h h0 = (
      set_at h fd (drop (m * frame_size) stream),
      Told-heard laws fd h s t bytes stream m _ (ap (λ x. x ++ bytes) h0) within ends
          (ap (split_frames m) all ∙ split_frames-append m stream later within) log,
      set_at_self h fd (drop (m * frame_size) stream) ∙ sym e,
    )

    Published-after :
        (r : Receipt) (m : ℕ) (p : Published l stream m r) (b' : Buffer) (t : Server World)
        → pending b' ≡ drop (m * frame_size) stream
        → (kernel t.world).unread fd ≡ later
        → (kernel t.world).log ≡ (kernel s.world).log ++ Input.heard fd bytes ∷ []
        → Ending stream m
        → Frame laws fd s t
        → (ok : Bool) (u : Server World) → Reads laws fd b' p.layout t ok u
        → Reads laws fd b l s ok u
    Published-after r m p b' t e v log ends f ok u q =
        Reads-after laws fd b b' l p.layout s t m
          (p.contents_are ∙ ap (λ fs. contents l ++ fs) (sym same))
          (omega (arith, p.within, ap length all, length-append stream later))
          (subst (All IsAccepted) (sym same) p.accepted)
          (ap₂ (λ x y. x ++ y) e v
            ∙ sym (drop-append_le (m * frame_size) stream later p.within)
            ∙ ap (drop (m * frame_size)) (sym all))
          f (heard m b' t p.within ends e log) ok u q
      where
        same : split_frames m (unpublished laws fd b s) ≡ split_frames m stream
        same = ap (split_frames m) all ∙ split_frames-append m stream later p.within

    module _ (e : s.ring ≡ some l) (room : IsRoomy l) (o : IsInOrder b)
        (f : find fd s.clients ≡ some b) (q : s.pause_requested ≡ false)
        (h : budget w ≤ budget s.world) (enough : budget s.world < fuel) where
      abbrev receipt : Receipt
      receipt = receive b s.ring s.pause_requested bytes

      abbrev begun : Server World
      begun = settled fd receipt (with_world s w)

      deals : Deals l stream receipt receipt.outcome
      deals =
          subst₂ (λ r p. let x = receive b r p bytes in Deals l stream x x.outcome) (sym e) (sym q)
            (receive_lem b l bytes o room)

      begun-Frame : Frame laws fd s begun
      begun-Frame = settled-Frame laws fd b receipt s w later (Input.heard fd bytes) f reads h

      unread_is : (t : Server World) → Apart laws fd begun t → (kernel t.world).unread fd ≡ later
      unread_is t p =
          ap (λ (g : ℕ → Bytes). g fd) p.same_unread
          ∙ ap (λ (k : Kernel). k.unread fd) reads
          ∙ rw (==_of_eq {a = fd} refl) refl

      log_is :
          (t : Server World)
          → Apart laws fd begun t
          → (kernel t.world).log ≡ (kernel s.world).log ++ Input.heard fd bytes ∷ []
      log_is t p = p.same_log ∙ ap (λ (k : Kernel). k.log) reads

      -- The reading ends, with the client gone or a notification that has failed.
      module _ (t : Server World) (ok : Bool) (p : Apart laws fd begun t)
          (step : Frame laws fd begun t) (gone : ok ≡ true → find fd t.clients ≡ none)
          (fault : ok ≡ false → CannotNotify n) where
        nobody : (c : Buffer) → find fd t.clients ≡ some c → ok ≡ true → ⊥
        nobody c x y = let z : find fd t.clients ≡ none = gone y in ground (arith, x, z)

        ended-Published :
            (m : ℕ) → Published l stream m receipt → Ending stream m → Reads laws fd b l s ok t
        ended-Published m d ends =
            Published-after receipt m d left t refl (unread_is t p) (log_is t p) ends
              (Frame-trans laws begun-Frame step) ok t
              (Reads-end laws fd left d.layout t t ok (p.same_ring ∙ d.ring_is) d.valid_ring
                d.not_closed (λ x y. d.roomy (sym p.same_request ∙ y))
                (λ c x y. absurd (nobody c x y)) refl fault (Frame-refl laws fd t))
          where
            left : Buffer
            left = record { bytes = drop (m * frame_size) stream; offset = 0 }

        ended : (out : Outcome) → Deals l stream receipt out → Reads laws fd b l s ok t
        ended Outcome.over_limit d =
            Reads-after laws fd b left l l s t 0 (sym (append-nil (contents l))) (omega arith) tt
              (ap (λ x. stream ++ x) (unread_is t p) ∙ sym all) (Frame-trans laws begun-Frame step)
              (heard 0 left t (omega arith) (inr (inr (refl, d.1))) refl (log_is t p)) ok t
              (Reads-end laws fd left l t t ok (p.same_ring ∙ d.0) room.0 room.1 (λ x y. room)
                (λ c x y. absurd (nobody c x y)) refl fault (Frame-refl laws fd t))
          where
            left : Buffer
            left = record { bytes = stream; offset = 0 }
        ended Outcome.ring_full d = absurd d
        ended (Outcome.rejected error) d =
            ended-Published d.0 d.1 (inr (inl (λ e. d.3 (sym d.2 ∙ e))))
        ended Outcome.kept d = ended-Published _ d.0 (inl refl)

      -- The client is kept, and `u` is where the reading ends.
      kept_on :
          (t : Server World)
          → (p : Published l stream (length stream / frame_size) receipt)
          → pending receipt.buffer ≡ drop (length stream / frame_size * frame_size) stream
          → Stays laws fd begun t
          → (ok : Bool) (u : Server World) → Reads laws fd receipt.buffer p.layout t ok u
          → Reads laws fd b l s ok u
      kept_on t p rest g ok u r =
          Published-after receipt (length stream / frame_size) p receipt.buffer t rest
            (unread_is t g.apart) (log_is t g.apart) (inl refl)
            (Frame-trans laws begun-Frame (Stays-Frame laws fd begun t g)) ok u r

      kept_deals :
          receipt.outcome ≡ Outcome.kept
          → Published l stream (length stream / frame_size) receipt
            × (pending receipt.buffer ≡ drop (length stream / frame_size * frame_size) stream)
            × IsInOrder receipt.buffer
            × (receipt.buffer.offset < 4096)
      kept_deals k = subst (Deals l stream receipt) k deals

      still_there :
          (t : Server World) → Stays laws fd begun t → find fd t.clients ≡ some receipt.buffer
      still_there t g = g.same_client ∙ find-update_self fd receipt.buffer b s.clients f

      -- The next round, from where the client and the ring are now.
      abbrev Again : Type 0
      Again =
          (t : Server World) (l' : Layout) (b' : Buffer)
          → t.ring ≡ some l'
          → IsRoomy l'
          → IsInOrder b'
          → find fd t.clients ≡ some b'
          → t.pause_requested ≡ false
          → budget t.world ≤ budget w
          → Ensures (Reads laws fd b' l' t) (read_from n fuel rounds fd b' t)

      abbrev go_on : Next → Action (Server World) Bool
      go_on next = elim next [
        | Next.continue ↦ read_from n fuel rounds fd receipt.buffer
        | Next.return done ↦ pure done
      ]

      concluded :
          Again
          → (next : Next) (t : Server World) → Concludes laws fd receipt.outcome begun next t
          → Ensures (Reads laws fd b l s) (go_on next t)
      concluded again Next.continue t c =
          let (p, rest, order, behind) = kept_deals c.1 in
          Ensures-mono _ _ (read_from n fuel rounds fd receipt.buffer t) (kept_on t p rest c.0) (
            again t p.layout receipt.buffer (c.0.apart.same_ring ∙ p.ring_is)
              (p.roomy (sym c.0.apart.same_request ∙ c.2)) order (still_there t c.0) c.2
              c.0.apart.fewer)
      concluded again (Next.return true) t (inl (g, k, paused)) =
          let (p, rest, order, behind) = kept_deals k in
          kept_on t p rest g true t (
            Reads-end laws fd receipt.buffer p.layout t t true (g.apart.same_ring ∙ p.ring_is)
              p.valid_ring p.not_closed (λ x y. absurd (ground (arith, y, paused)))
              (λ c x y. same_rest laws fd receipt.buffer t (still_there t g) order c x) refl
              (λ x. absurd (ground (arith, x))) (Frame-refl laws fd t))
      concluded again (Next.return true) t (inr (g, ne)) =
          ended t true g.apart (Gone-Frame laws fd begun t g) (λ x. g.no_client)
            (λ x. absurd (ground (arith, x))) receipt.outcome deals
      concluded again (Next.return false) t (g, inl full) =
          absurd (subst (Deals l stream receipt) full deals)
      concluded again (Next.return false) t (g, inr fault) =
          ended t false g.apart (Stays-Frame laws fd begun t g) (λ x. absurd (ground (arith, x)))
            (λ x. fault) receipt.outcome deals

  read_from_lem :
      (fuel rounds fd : ℕ) (b : Buffer) (l : Layout) (s : Server World)
      → s.ring ≡ some l
      → IsRoomy l
      → IsInOrder b
      → find fd s.clients ≡ some b
      → s.pause_requested ≡ false
      → budget s.world < fuel
      → budget s.world < rounds
      → Ensures (Reads laws fd b l s) (read_from n fuel rounds fd b s)
  unfolding read_from
  read_from_lem fuel zero fd b l s e room o f q h k = absurd (omega arith)
  read_from_lem fuel (suc rounds) fd b l s e room o f q h k =
      go (n.recv fd read_buffer_size s.world).0 (n.recv fd read_buffer_size s.world).1
        (laws.recv_law fd read_buffer_size s.world) (laws.recv_budget fd read_buffer_size s.world)
        (λ b' l' t e' room' o' f' q' x y.
          read_from_lem fuel rounds fd b' l' t e' room' o' f' q' x y)
    where
      Rest : Type 0
      Rest =
          (b' : Buffer) (l' : Layout) (t : Server World)
          → t.ring ≡ some l'
          → IsRoomy l'
          → IsInOrder b'
          → find fd t.clients ≡ some b'
          → t.pause_requested ≡ false
          → budget t.world < fuel
          → budget t.world < rounds
          → Ensures (Reads laws fd b' l' t) (read_from n fuel rounds fd b' t)

      -- The round has seen nothing.
      idle :
          (w : World)
          → kernel w ≡ kernel s.world
          → budget w ≤ budget s.world
          → Frame laws fd s (with_world s w)
      idle w x y = Stays-Frame laws fd s (with_world s w) (Stays-world laws fd s w x y)

      same_stream :
          (w : World)
          → kernel w ≡ kernel s.world
          → unpublished laws fd b (with_world s w) ≡ unpublished laws fd b s
      same_stream w x = ap (λ (y : Kernel). pending b ++ y.unread fd) x

      stop :
          (w : World)
          → kernel w ≡ kernel s.world
          → budget w ≤ budget s.world
          → Reads laws fd b l s true (remove_client n fd (with_world s w))
      stop w x y =
          let g : Gone laws fd (with_world s w) (remove_client n fd (with_world s w)) =
            remove_client-Gone laws fd (with_world s w) in
          Reads-end laws fd b l s (remove_client n fd (with_world s w)) true (g.apart.same_ring ∙ e)
            room.0 room.1 (λ i j. room)
            (λ c i j. let z = g.no_client in absurd (ground (arith, i, z)))
            (g.apart.same_log ∙ ap (λ (k : Kernel). k.log) x) (λ i. absurd (ground (arith, i)))
            (Frame-trans laws (idle w x y) (Gone-Frame laws fd (with_world s w) _ g))

      go :
          (r : Received) (w : World)
          → RecvLaw fd read_buffer_size (kernel s.world) r (kernel w)
          → RecvBudget (budget s.world) r (budget w)
          → Rest
          → Ensures (Reads laws fd b l s) (elim r [
            | Received.received bytes ↦
                let receipt = receive b s.ring s.pause_requested bytes in
                (conclude n fuel fd receipt.outcome receipt.published >>= λ next. elim next [
                  | Next.continue ↦ read_from n fuel rounds fd receipt.buffer
                  | Next.return done ↦ pure done
                ])
                  (settled fd receipt (with_world s w))
            | Received.end_of_stream ↦ some (true, remove_client n fd (with_world s w))
            | Received.interrupted ↦ read_from n fuel rounds fd b (with_world s w)
            | Received.would_block ↦ some (true, with_world s w)
            | Received.failed ↦ some (true, remove_client n fd (with_world s w))
          ])
      go (Received.received bytes) w v x again =
          let (later, some_bytes, size, splits, reads) = v in
          let receipt = receive b s.ring s.pause_requested bytes in
          let begun = settled fd receipt (with_world s w) in
          Ensures-bind (Concludes laws fd receipt.outcome begun) (Reads laws fd b l s)
            (conclude n fuel fd receipt.outcome receipt.published) _ begun
            (conclude_lem laws fuel fd receipt.outcome receipt.published begun (omega (arith, x)))
            (concluded fuel rounds fd b l s bytes later w splits reads e room o f q
              (omega (arith, x)) h
              (λ t l' b' e' room' o' f' q' y.
                again b' l' t e' room' o' f' q' (omega (arith, x, y))
                  (omega (arith, x, y, some_bytes))))
      go Received.end_of_stream w v x again = stop w v.1 x
      go Received.failed w v x again = stop w v x
      go Received.would_block w v x again =
          Reads-end laws fd b l s (with_world s w) true e room.0 room.1 (λ i j. room)
            (λ c i j.
              let r : IsInOrder c
                  × (unpublished laws fd c (with_world s w)
                      ≡ unpublished laws fd b (with_world s w))
                  × (pending c ≡ pending b) =
                same_rest laws fd b (with_world s w) f o c i in
              (r.0, r.1 ∙ same_stream w v, r.2))
            (ap (λ (k : Kernel). k.log) v) (λ i. absurd (ground (arith, i))) (idle w v x)
      go Received.interrupted w v x again =
          Ensures-mono (Reads laws fd b l (with_world s w)) (Reads laws fd b l s) _
            (Reads-after laws fd b b l l s (with_world s w) 0 (sym (append-nil (contents l)))
              (omega arith) tt (same_stream w v) (idle w v (omega (arith, x)))
              (λ h h0.
                (h, Told-nothing laws fd h s (with_world s w) (ap (λ (k : Kernel). k.log) v), h0)))
            (again b l (with_world s w) e room o f q (omega (arith, x)) (omega (arith, x)))

  -- `readClient` of a client with a buffer in order, with a ring below the pause threshold, no
  -- pause asked for and fuel for the calls that are still to come, returns. Some number of
  -- whole frames, from the front of what the client has sent and the server has not published,
  -- are all accepted and go into the ring in order; these are just the frames that the bytes
  -- handed over bring, up to the first that is not valid, or none once the client is over its
  -- limit; a client that is still there after a success has just the rest, in order; the ring
  -- stays below the threshold unless a pause is asked for; a failure means that a notification
  -- failed; and other clients are left alone.
  pub read_client_lem :
      (fuel fd : ℕ) (b : Buffer) (l : Layout) (s : Server World)
      → s.ring ≡ some l
      → IsRoomy l
      → find fd s.clients ≡ some b
      → IsInOrder b
      → s.pause_requested ≡ false
      → budget s.world < fuel
      → Ensures (Reads laws fd b l s) (read_client n fuel fd s)
  unfolding read_client
  read_client_lem fuel fd b l s e room f o q h =
      rw (f, read_client) (read_from_lem fuel fuel fd b l s e room o f q h h)
