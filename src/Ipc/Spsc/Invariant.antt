-- ===== src/Ipc/Spsc/Invariant.antt =====
-- What holds in every state of the producer and the consumer.
use telemetry_server.Base.{
  ℕ, zero, suc, ◌+◌, ◌-◌, ◌*◌, ◌%◌, ◌≤◌, ◌<◌, ◌≡◌, refl, ap, sym, subst, ◌∙◌, arith, [], ◌∷◌, ◌++◌,
  take, drop, drop-drop,
}
use telemetry_server.Protocol.Words.{Bytes}
use telemetry_server.Protocol.Codec.{frame_size}
use telemetry_server.Ipc.Ring.{Layout, Slots, capacity_frames, add_u64, sub_u64, write_slot}
use telemetry_server.Ipc.Ring.Slots.{split_frames, window, window-write_slot, window-add}
use telemetry_server.Ipc.Ring.Refine.{IsValid, contents}
use telemetry_server.Ipc.Spsc.{Producer, Consumer, System, frame_at}

-- The frames copied so far stand behind `head`, in slots that the consumer has released.
abbrev pub ProducerInv : Layout → Producer → Type 0
ProducerInv l Producer.idle = Unit
ProducerInv l (Producer.copying count copied bytes) =
    (copied ≤ count)
    × (count ≤ capacity_frames - sub_u64 l.head l.tail)
    × (window l.slots l.head copied ≡ split_frames copied bytes)

-- The frames copied out are the oldest of the ring.
abbrev pub ConsumerInv : Layout → Consumer → Type 0
ConsumerInv l Consumer.idle = Unit
ConsumerInv l (Consumer.copying count copied frames) =
    (copied ≤ count) × (count ≤ sub_u64 l.head l.tail) × (frames ≡ window l.slots l.tail copied)

pub record Inv (s : System) : Type 0 where
  pub valid : IsValid s.ring
  pub producing : ProducerInv s.ring s.producer
  pub consuming : ConsumerInv s.ring s.consumer
  pub conserved : s.given ≡ s.taken ++ contents s.ring

pub split_frames-suc :
    (k : ℕ) (bytes : Bytes)
    → split_frames (suc k) bytes ≡ split_frames k bytes ++ frame_at bytes k ∷ []
split_frames-suc zero bytes = refl
split_frames-suc (suc k) bytes =
    ap (λ fs. take frame_size bytes ∷ fs)
      (split_frames-suc k (drop frame_size bytes)
        ∙ ap (λ b. split_frames k (drop frame_size bytes) ++ take frame_size b ∷ [])
            (drop-drop (k * frame_size) frame_size bytes
              ∙ ap (λ n. drop n bytes) {x = frame_size + k * frame_size} {y = suc k * frame_size}
                  (omega arith)))

pub window-suc :
    (slots : Slots) (pos k : ℕ)
    → window slots pos (suc k) ≡ window slots pos k ++ slots ((pos + k) % capacity_frames) ∷ []
window-suc slots pos k =
    ap (window slots pos) {x = suc k} {y = k + 1} (omega arith) ∙ window-add slots pos k 1

pub window-write_slot_below :
    (slots : Slots) (l : Layout) (n q : ℕ) (frame : Bytes)
    → IsValid l
    → n ≤ sub_u64 l.head l.tail
    → q < capacity_frames - sub_u64 l.head l.tail
    → window (write_slot slots ((l.head + q) % capacity_frames) frame) l.tail n
      ≡ window slots l.tail n
window-write_slot_below slots l n q frame v h r =
    ap (λ k. window (write_slot slots k frame) l.tail n) {x = (l.head + q) % capacity_frames}
      {y = (l.tail + sub_u64 l.head l.tail + q) % capacity_frames} (omega arith)
    ∙ window-write_slot slots l.tail n (l.tail + sub_u64 l.head l.tail + q) frame (omega arith)
        (omega arith)

-- Taking the invariant of a program counter along an equation.
pub producing_at : {s : System} {p : Producer} → Inv s → s.producer ≡ p → ProducerInv s.ring p
producing_at {s} i e = subst (ProducerInv s.ring) e i.producing

pub consuming_at : {s : System} {c : Consumer} → Inv s → s.consumer ≡ c → ConsumerInv s.ring c
consuming_at {s} i e = subst (ConsumerInv s.ring) e i.consuming

pub consumer_keep :
    (l l' : Layout) (c : Consumer)
    → l'.tail ≡ l.tail
    → sub_u64 l.head l.tail ≤ sub_u64 l'.head l'.tail
    → ((n : ℕ) → n ≤ sub_u64 l.head l.tail → window l'.slots l.tail n ≡ window l.slots l.tail n)
    → ConsumerInv l c
    → ConsumerInv l' c
consumer_keep l l' Consumer.idle e p w i = tt
consumer_keep l l' (Consumer.copying count copied frames) e p w (k, r, f) =
    (k, omega arith, f ∙ sym (w copied (omega arith)) ∙ ap (λ t. window l'.slots t copied) (sym e))

pub producer_keep :
    (l l' : Layout) (c : Producer)
    → l'.head ≡ l.head
    → l'.slots ≡ l.slots
    → sub_u64 l'.head l'.tail ≤ sub_u64 l.head l.tail
    → ProducerInv l c
    → ProducerInv l' c
producer_keep l l' Producer.idle e w p i = tt
producer_keep l l' (Producer.copying count copied bytes) e w p (k, r, f) =
    (k, omega arith, rw (e, w) f)

pub pending_grows :
    (l : Layout) (count : ℕ)
    → IsValid l
    → count ≤ capacity_frames - sub_u64 l.head l.tail
    → sub_u64 (add_u64 l.head count) l.tail ≡ sub_u64 l.head l.tail + count
pending_grows l count v h = omega arith

pub pending_shrinks :
    (l : Layout) (count : ℕ)
    → IsValid l
    → count ≤ sub_u64 l.head l.tail
    → sub_u64 l.head (add_u64 l.tail count) ≡ sub_u64 l.head l.tail - count
pending_shrinks l count v h = omega arith
