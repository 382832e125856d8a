-- ===== src/Server/History.antt =====
-- How the frames in the ring come from what the clients have sent.
use telemetry_server.Base.{
  ℕ, ◌*◌, ◌/◌, ◌≤◌, ◌<◌, ◌≡◌, ◌≢◌, ◌⊎◌, refl, ap, sym, subst, subst₂, ◌∙◌, ==_of_eq, ==_of_ne, ◌==◌,
  true, List, [], ◌∷◌, ◌++◌, length, drop, append-nil, append_assoc,
}
use telemetry_server.Protocol.Words.{Bytes}
use telemetry_server.Protocol.Codec.{frame_size, decode, DecodeError}
use telemetry_server.Ipc.Ring.Slots.{split_frames}
use telemetry_server.Ipc.Spsc.{frame_at}
use telemetry_server.Server.Net.{Net, NetLaws, Input, set_at}
use telemetry_server.Server.Receive.{max_client_buffer}
use telemetry_server.Server.Connections.{Server}

-- Why no more than `count` frames of `all` are published: these are all whole ones, the next one is not
-- valid, or the client is over its limit.
abbrev pub Ending : Bytes → ℕ → Type 0
Ending all count =
    (count ≡ length all / frame_size)
    ⊎ (((decode (frame_at all count)).error ≢ DecodeError.none)
        ⊎ ((count ≡ 0) × (max_client_buffer < length all)))

-- `h` holds what each client has sent and the server has not published. One input, and the frames that
-- it brings.
abbrev pub Feeds : (ℕ → Bytes) → Input → List Bytes → (ℕ → Bytes) → Type 0
Feeds h (Input.connected fd) fs h' = (fs ≡ []) × (h' ≡ set_at h fd [])
Feeds h (Input.heard fd bytes) fs h' =
    (count : ℕ) × (count * frame_size ≤ length (h fd ++ bytes))
    × Ending (h fd ++ bytes) count
    × (fs ≡ split_frames count (h fd ++ bytes))
    × (h' ≡ set_at h fd (drop (count * frame_size) (h fd ++ bytes)))

-- The inputs in order, and the frames that they bring.
abbrev pub Fed : (ℕ → Bytes) → List Input → List Bytes → (ℕ → Bytes) → Type 0
Fed h [] fs h' = (fs ≡ []) × (h' ≡ h)
Fed h (i ∷ is) fs h' =
    (first : List Bytes) × (rest : List Bytes) × (mid : ℕ → Bytes) × Feeds h i first mid
    × Fed mid is rest h'
    × (fs ≡ first ++ rest)

pub Fed-append :
    (h h' h'' : ℕ → Bytes) (is js : List Input) (fs gs : List Bytes)
    → Fed h is fs h'
    → Fed h' js gs h''
    → Fed h (is ++ js) (fs ++ gs) h''
Fed-append h h' h'' [] js fs gs (e, e') q = subst₂ (λ x k. Fed k js (x ++ gs) h'') (sym e) e' q
Fed-append h h' h'' (i ∷ is) js fs gs (first, rest, mid, x, y, e) q = (
  first,
  rest ++ gs,
  mid,
  x,
  Fed-append mid h' h'' is js rest gs y q,
  ap (λ z. z ++ gs) e ∙ append_assoc first rest gs,
)

pub Fed-one :
    (h h' : ℕ → Bytes) (i : Input) (fs : List Bytes) → Feeds h i fs h' → Fed h (i ∷ []) fs h'
Fed-one h h' i fs x = (fs, [], h', x, (refl, refl), sym (append-nil fs))

pub Feeds-heard :
    (h : ℕ → Bytes) (fd : ℕ) (bytes stream : Bytes) (m : ℕ) (fs : List Bytes)
    → h fd ++ bytes ≡ stream
    → m * frame_size ≤ length stream
    → Ending stream m
    → fs ≡ split_frames m stream
    → Feeds h (Input.heard fd bytes) fs (set_at h fd (drop (m * frame_size) stream))
Feeds-heard h fd bytes stream m fs e le ends f =
    subst
      (λ x.
        (count : ℕ) × (count * frame_size ≤ length x)
        × Ending x count
        × (fs ≡ split_frames count x)
        × (set_at h fd (drop (m * frame_size) stream) ≡ set_at h fd (drop (count * frame_size) x)))
      (sym e) (m, le, ends, f, refl)

pub set_at_self : (h : ℕ → Bytes) (fd : ℕ) (v : Bytes) → set_at h fd v fd ≡ v
set_at_self h fd v = let same : (fd == fd) ≡ true = ==_of_eq refl in rw same refl

module _ {n : Net} (laws : NetLaws n) where
  open n use {World}
  open laws use {kernel}

  -- From `s` to `t` only the client `fd` was heard, and brought the frames `fs`.
  pub record Told (fd : ℕ) (h : ℕ → Bytes) (s : Server World) (fs : List Bytes) (t : Server World)
      (h' : ℕ → Bytes) : Type 0 where
    pub inputs : List Input
    pub log_is : (kernel t.world).log ≡ (kernel s.world).log ++ inputs
    pub fed : Fed h inputs fs h'
    pub others : (other : ℕ) → other ≢ fd → h' other ≡ h other

  pub Told-nothing :
      (fd : ℕ) (h : ℕ → Bytes) (s t : Server World)
      → (kernel t.world).log ≡ (kernel s.world).log
      → Told fd h s [] t h
  Told-nothing fd h s t e = record {
    inputs = [];
    log_is = e ∙ sym (append-nil (kernel s.world).log);
    fed = (refl, refl);
    others = λ other ne. refl;
  }

  pub Told-trans :
      (fd : ℕ) (h h' h'' : ℕ → Bytes) (s t u : Server World) (fs gs : List Bytes)
      → Told fd h s fs t h'
      → Told fd h' t gs u h''
      → Told fd h s (fs ++ gs) u h''
  Told-trans fd h h' h'' s t u fs gs p q = record {
    inputs = p.inputs ++ q.inputs;
    log_is =
        q.log_is
        ∙ ap (λ x. x ++ q.inputs) p.log_is
        ∙ append_assoc (kernel s.world).log p.inputs q.inputs;
    fed = Fed-append h h' h'' p.inputs q.inputs fs gs p.fed q.fed;
    others = λ other ne. q.others other ne ∙ p.others other ne;
  }

  pub Told-heard :
      (fd : ℕ) (h : ℕ → Bytes) (s t : Server World) (bytes stream : Bytes) (m : ℕ) (fs : List Bytes)
      → h fd ++ bytes ≡ stream
      → m * frame_size ≤ length stream
      → Ending stream m
      → fs ≡ split_frames m stream
      → (kernel t.world).log ≡ (kernel s.world).log ++ Input.heard fd bytes ∷ []
      → Told fd h s fs t (set_at h fd (drop (m * frame_size) stream))
  Told-heard fd h s t bytes stream m fs e le ends f log = record {
    inputs = Input.heard fd bytes ∷ [];
    log_is = log;
    fed =
        Fed-one h (set_at h fd (drop (m * frame_size) stream)) (Input.heard fd bytes) fs
          (Feeds-heard h fd bytes stream m fs e le ends f);
    others = λ other ne. rw (==_of_ne ne) refl;
  }
