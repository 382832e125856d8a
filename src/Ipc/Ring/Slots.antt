-- ===== src/Ipc/Ring/Slots.antt =====
-- The slot array read and written round its end.
use telemetry_server.Base.{
  take-append_self, drop-append_self, ℕ, zero, suc, ◌+◌, ◌-◌, ◌*◌, ◌%◌, ◌≤◌, ◌<◌, min, ◌≡◌, ◌≢◌,
  refl, ap, ap₂, sym, ◌∙◌, arith, List, [], ◌∷◌, ◌++◌, length, take, drop, append_assoc, append-nil,
  drop-drop, ==_of_ne, ==_of_eq,
}
use native.Mathlib.Decide.{ℕ_discrete}
use telemetry_server.Protocol.Words.{Bytes}
use telemetry_server.Protocol.Codec.{frame_size}
use telemetry_server.Ipc.Ring.{
  Slots, capacity_frames, write_slot, store_frames, load_frames, Layout, copy_in, copy_out,
}

-- The first `count` frames of a run of bytes.
abbrev pub split_frames : ℕ → Bytes → List Bytes
split_frames zero bytes = []
split_frames (suc count) bytes = take frame_size bytes ∷ split_frames count (drop frame_size bytes)

-- `count` frames from position `pos` on, where positions go round the array.
abbrev pub window : Slots → ℕ → ℕ → List Bytes
window slots pos zero = []
window slots pos (suc count) = slots (pos % capacity_frames) ∷ window slots (pos + 1) count

-- Frame by frame, with the position taken modulo the capacity each time.
abbrev pub store_round : Slots → ℕ → ℕ → Bytes → Slots
store_round slots pos zero bytes = slots
store_round slots pos (suc count) bytes =
    store_round (write_slot slots (pos % capacity_frames) (take frame_size bytes)) (pos + 1) count
      (drop frame_size bytes)

-- A copy that ends within the array goes round nowhere.
store_frames-eq-round :
    (slots : Slots) (index pos count : ℕ) (bytes : Bytes)
    → (count ≢ 0 → index ≡ pos % capacity_frames)
    → index + count ≤ capacity_frames
    → store_frames slots index count bytes ≡ store_round slots pos count bytes
unfolding store_frames
store_frames-eq-round slots index pos zero bytes e h = refl
store_frames-eq-round slots index pos (suc count) bytes e h = rw (sym (e (omega arith))) (
    store_frames-eq-round (write_slot slots index (take frame_size bytes)) (index + 1) (pos + 1)
      count (drop frame_size bytes) (λ n. omega (arith, e (omega arith))) (omega arith))

store_round-add :
    (slots : Slots) (pos n m : ℕ) (bytes : Bytes)
    → store_round slots pos (n + m) bytes
      ≡ store_round (store_round slots pos n bytes) (pos + n) m (drop (n * frame_size) bytes)
store_round-add slots pos zero m bytes =
    let e : zero + m ≡ m = omega arith in let p : pos + zero ≡ pos = omega arith in rw (e, p)
store_round-add slots pos (suc n) m bytes =
    let e : suc n + m ≡ suc (n + m) = omega arith in
    let p : pos + suc n ≡ pos + 1 + n = omega arith in
    let d : drop (suc n * frame_size) bytes ≡ drop (n * frame_size) (drop frame_size bytes) =
      ap (λ k. drop k bytes) (omega arith) ∙ sym (drop-drop (n * frame_size) frame_size bytes) in
    rw (e, p, d)
      (store_round-add (write_slot slots (pos % capacity_frames) (take frame_size bytes)) (pos + 1)
        n m (drop frame_size bytes))

pub store_round-mod :
    (slots : Slots) (pos pos' n : ℕ) (bytes : Bytes)
    → pos % capacity_frames ≡ pos' % capacity_frames
    → store_round slots pos n bytes ≡ store_round slots pos' n bytes
store_round-mod slots pos pos' zero bytes e = refl
store_round-mod slots pos pos' (suc n) bytes e = rw e (
    store_round-mod (write_slot slots (pos' % capacity_frames) (take frame_size bytes)) (pos + 1)
      (pos' + 1) n (drop frame_size bytes) (omega arith))

-- The two copies of `tryPushBatch` write the frames round the array.
pub copy_in-eq-round :
    (l : Layout) (count : ℕ) (frames : Bytes)
    → count ≤ capacity_frames
    → copy_in l count frames ≡ store_round l.slots l.head count frames
unfolding copy_in
copy_in-eq-round l count frames h = elim (ℕ_discrete first count) [
  | yes e ↦ rw (==_of_eq e) (one ∙ ap (λ n. store_round l.slots l.head n frames) e)
  | no n ↦ rw (==_of_ne n) (
      ap (λ s. store_frames s 0 (count - first) (drop (first * frame_size) frames)) one
      ∙ store_frames-eq-round (store_round l.slots l.head first frames) 0 (l.head + first)
          (count - first) (drop (first * frame_size) frames) (λ _. omega arith) (omega arith)
      ∙ sym (store_round-add l.slots l.head first (count - first) frames)
      ∙ ap (λ n. store_round l.slots l.head n frames) {x = first + (count - first)} {y = count}
          (omega arith))
]
  where
    index : ℕ
    index = l.head % capacity_frames

    first : ℕ
    first = min count (capacity_frames - index)

    one : store_frames l.slots index first frames ≡ store_round l.slots l.head first frames
    one = store_frames-eq-round l.slots index l.head first frames (λ _. refl) (omega arith)

-- A write outside of a window leaves it alone.
pub window-write_slot :
    (slots : Slots) (pos n q : ℕ) (frame : Bytes)
    → pos + n ≤ q
    → q < pos + capacity_frames
    → window (write_slot slots (q % capacity_frames) frame) pos n ≡ window slots pos n
window-write_slot slots pos zero q frame lo hi = refl
window-write_slot slots pos (suc n) q frame lo hi = rw (==_of_ne apart) (
    ap (λ w. slots (pos % capacity_frames) ∷ w)
      (window-write_slot slots (pos + 1) n q frame (omega arith) (omega arith)))
  where
    apart : pos % capacity_frames ≢ q % capacity_frames
    apart = omega arith

-- A write at the end of a window extends it.
pub window-write_slot_end :
    (slots : Slots) (pos n : ℕ) (frame : Bytes)
    → n < capacity_frames
    → window (write_slot slots ((pos + n) % capacity_frames) frame) pos (suc n)
      ≡ window slots pos n ++ (frame ∷ [])
window-write_slot_end slots pos zero frame h =
    let p : pos + zero ≡ pos = omega arith in rw (p, ==_of_eq {a = pos % capacity_frames} refl)
window-write_slot_end slots pos (suc n) frame h =
    ap (λ q. window (write_slot slots (q % capacity_frames) frame) pos (suc (suc n))) p
    ∙ rw (==_of_ne apart) (
        ap (λ w. slots (pos % capacity_frames) ∷ w)
          (window-write_slot_end slots (pos + 1) n frame (omega arith)))
  where
    p : pos + suc n ≡ pos + 1 + n
    p = omega arith

    apart : pos % capacity_frames ≢ (pos + 1 + n) % capacity_frames
    apart = omega arith

pub window-store_round :
    (m n : ℕ) (slots : Slots) (pos : ℕ) (bytes : Bytes)
    → n + m ≤ capacity_frames
    → window (store_round slots (pos + n) m bytes) pos (n + m)
      ≡ window slots pos n ++ split_frames m bytes
window-store_round zero n slots pos bytes h =
    let e : n + zero ≡ n = omega arith in rw (e, append-nil)
window-store_round (suc m) n slots pos bytes h =
    let e : n + suc m ≡ suc n + m = omega arith in
    let p : pos + n + 1 ≡ pos + suc n = omega arith in
    rw (e, p)
      (window-store_round m (suc n)
          (write_slot slots ((pos + n) % capacity_frames) (take frame_size bytes)) pos
          (drop frame_size bytes) (omega arith)
        ∙ ap (λ w. w ++ split_frames m (drop frame_size bytes))
            (window-write_slot_end slots pos n (take frame_size bytes) (omega arith))
        ∙ append_assoc (window slots pos n) _ _)

abbrev pub join_frames : List Bytes → Bytes
join_frames [] = []
join_frames (frame ∷ frames) = frame ++ join_frames frames

pub join_frames-append :
    (xs ys : List Bytes) → join_frames (xs ++ ys) ≡ join_frames xs ++ join_frames ys
join_frames-append [] ys = refl
join_frames-append (x ∷ xs) ys =
    ap (λ z. x ++ z) (join_frames-append xs ys)
    ∙ sym (append_assoc x (join_frames xs) (join_frames ys))

load_frames-eq-window :
    (slots : Slots) (index pos count : ℕ)
    → (count ≢ 0 → index ≡ pos % capacity_frames)
    → index + count ≤ capacity_frames
    → load_frames slots index count ≡ join_frames (window slots pos count)
unfolding load_frames
load_frames-eq-window slots index pos zero e h = refl
load_frames-eq-window slots index pos (suc count) e h = rw (sym (e (omega arith))) (
    ap (λ z. slots index ++ z)
      (load_frames-eq-window slots (index + 1) (pos + 1) count (λ n. omega (arith, e (omega arith)))
        (omega arith)))

pub window-add :
    (slots : Slots) (pos n m : ℕ)
    → window slots pos (n + m) ≡ window slots pos n ++ window slots (pos + n) m
window-add slots pos zero m =
    let e : zero + m ≡ m = omega arith in let p : pos + zero ≡ pos = omega arith in rw (e, p)
window-add slots pos (suc n) m =
    let e : suc n + m ≡ suc (n + m) = omega arith in
    let p : pos + suc n ≡ pos + 1 + n = omega arith in
    rw (e, p) (ap (λ w. slots (pos % capacity_frames) ∷ w) (window-add slots (pos + 1) n m))

pub window-mod :
    (slots : Slots) (pos pos' n : ℕ)
    → pos % capacity_frames ≡ pos' % capacity_frames
    → window slots pos n ≡ window slots pos' n
window-mod slots pos pos' zero e = refl
window-mod slots pos pos' (suc n) e = rw e (
    ap (λ w. slots (pos' % capacity_frames) ∷ w)
      (window-mod slots (pos + 1) (pos' + 1) n (omega arith)))

pub length-window : (slots : Slots) (pos n : ℕ) → length (window slots pos n) ≡ n
length-window slots pos zero = refl
length-window slots pos (suc n) = ap suc (length-window slots (pos + 1) n)

-- The two copies of `tryPopBatch` read the frames round the array.
pub copy_out-eq-window :
    (l : Layout) (count : ℕ)
    → count ≤ capacity_frames
    → copy_out l count ≡ join_frames (window l.slots l.tail count)
unfolding copy_out
copy_out-eq-window l count h = elim (ℕ_discrete first count) [
  | yes e ↦ rw (==_of_eq e) (one ∙ ap (λ n. join_frames (window l.slots l.tail n)) e)
  | no n ↦ rw (==_of_ne n) (
      ap₂ ◌++◌ one (
        load_frames-eq-window l.slots 0 (l.tail + first) (count - first) (λ _. omega arith)
          (omega arith))
      ∙ sym (join_frames-append (window l.slots l.tail first) _)
      ∙ ap join_frames (sym (window-add l.slots l.tail first (count - first)))
      ∙ ap (λ n. join_frames (window l.slots l.tail n)) {x = first + (count - first)} {y = count}
          (omega arith))
]
  where
    index : ℕ
    index = l.tail % capacity_frames

    first : ℕ
    first = min count (capacity_frames - index)

    one : load_frames l.slots index first ≡ join_frames (window l.slots l.tail first)
    one = load_frames-eq-window l.slots index l.tail first (λ _. refl) (omega arith)

pub drop-window :
    (slots : Slots) (pos n k : ℕ)
    → k ≤ n
    → drop k (window slots pos n) ≡ window slots (pos + k) (n - k)
drop-window slots pos n k h =
    ap (λ w. drop k (window slots pos w)) {x = n} {y = k + (n - k)} (omega arith)
    ∙ ap (drop k) (window-add slots pos k (n - k))
    ∙ ap (λ w. drop w (window slots pos k ++ window slots (pos + k) (n - k)))
        (sym (length-window slots pos k))
    ∙ drop-append_self (window slots pos k) (window slots (pos + k) (n - k))

pub take-window :
    (slots : Slots) (pos n k : ℕ) → k ≤ n → take k (window slots pos n) ≡ window slots pos k
take-window slots pos n k h =
    ap (λ w. take k (window slots pos w)) {x = n} {y = k + (n - k)} (omega arith)
    ∙ ap (take k) (window-add slots pos k (n - k))
    ∙ ap (λ w. take w (window slots pos k ++ window slots (pos + k) (n - k)))
        (sym (length-window slots pos k))
    ∙ take-append_self (window slots pos k) (window slots (pos + k) (n - k))
