-- ===== src/Protocol/Words/Laws.antt =====
-- What the reads of Protocol/src/TelemetryCodec.cpp return, as sums of bytes.
use telemetry_server.Base.{
  ℕ, zero, suc, ◌+◌, ◌*◌, ◌^◌, ◌≤◌, ◌<◌, ◌≡◌, refl, ap, ◌∙◌, arith, [], ◌∷◌, All, get_or, bit_or,
}
use native.Mathlib.Nat.{pow-succ', one-le-pow}
use telemetry_server.Base.Bits.{bit_or-eq-add}
use telemetry_server.Protocol.Words.{Bytes, shl, read_u16, read_u32, read_u64, read_u64_from}

abbrev pub IsByte : ℕ → Type 0
IsByte b = b < 256

pub get_or-IsByte : (xs : Bytes) (i : ℕ) → All IsByte xs → get_or xs i 0 < 256
get_or-IsByte [] i h = omega arith
get_or-IsByte (x ∷ xs) zero h = h.0
get_or-IsByte (x ∷ xs) (suc i) h = get_or-IsByte xs i h.1

-- The number that bytes stand for, the first one highest.
abbrev pub big_endian : ℕ → Bytes → ℕ
big_endian acc [] = acc
big_endian acc (b ∷ bs) = big_endian (acc * 256 + b) bs

pub or_byte : (acc b : ℕ) → b < 256 → bit_or (acc * 256) b ≡ acc * 256 + b
or_byte acc b h = bit_or-eq-add 8 acc b h

bit_or-add : (k hi a b : ℕ) → a ≡ hi * 2 ^ k → b < 2 ^ k → bit_or a b ≡ a + b
bit_or-add k hi a b e h = rw e (bit_or-eq-add k hi b h)

pub read_u16-eq :
    (f : Bytes) (o : ℕ) → All IsByte f → read_u16 f o ≡ get_or f o 0 * 256 + get_or f (o + 1) 0
unfolding read_u16
read_u16-eq f o h =
    let h0 : get_or f o 0 < 256 = get_or-IsByte f o h in
    let h1 : get_or f (o + 1) 0 < 256 = get_or-IsByte f (o + 1) h in
    let e : bit_or (shl 32 (get_or f o 0) 8) (get_or f (o + 1) 0)
        ≡ shl 32 (get_or f o 0) 8 + get_or f (o + 1) 0 =
      bit_or-add 8 (get_or f o 0) _ _ (omega arith) h1 in
    omega arith

pub read_u32-eq :
    (f : Bytes) (o : ℕ)
    → All IsByte f
    → read_u32 f o
      ≡ big_endian 0
          (get_or f o 0 ∷ get_or f (o + 1) 0 ∷ get_or f (o + 2) 0 ∷ get_or f (o + 3) 0 ∷ [])
unfolding read_u32
read_u32-eq f o h =
    words (get_or f o 0) (get_or f (o + 1) 0) (get_or f (o + 2) 0) (get_or f (o + 3) 0)
      (get_or-IsByte f o h) (get_or-IsByte f (o + 1) h) (get_or-IsByte f (o + 2) h)
      (get_or-IsByte f (o + 3) h)
  where
    words :
        (b0 b1 b2 b3 : ℕ)
        → b0 < 256
        → b1 < 256
        → b2 < 256
        → b3 < 256
        → bit_or (bit_or (bit_or (shl 32 b0 24) (shl 32 b1 16)) (shl 32 b2 8)) b3
          ≡ big_endian 0 (b0 ∷ b1 ∷ b2 ∷ b3 ∷ [])
    words b0 b1 b2 b3 h0 h1 h2 h3 =
        let e1 : bit_or (shl 32 b0 24) (shl 32 b1 16) ≡ shl 32 b0 24 + shl 32 b1 16 =
          bit_or-add 24 b0 _ _ (omega arith) (omega arith) in
        let e2 : bit_or (bit_or (shl 32 b0 24) (shl 32 b1 16)) (shl 32 b2 8)
            ≡ bit_or (shl 32 b0 24) (shl 32 b1 16) + shl 32 b2 8 =
          bit_or-add 16 (b0 * 256 + b1) _ _ (omega arith) (omega arith) in
        let e3 : bit_or (bit_or (bit_or (shl 32 b0 24) (shl 32 b1 16)) (shl 32 b2 8)) b3
            ≡ bit_or (bit_or (shl 32 b0 24) (shl 32 b1 16)) (shl 32 b2 8) + b3 =
          bit_or-add 8 (b0 * 256 * 256 + b1 * 256 + b2) _ _ (omega arith) (omega arith) in
        omega arith

-- The bytes at an offset and after it.
abbrev pub bytes_from : ℕ → ℕ → Bytes → ℕ → Bytes
bytes_from zero index f o = []
bytes_from (suc n) index f o = get_or f (o + index) 0 ∷ bytes_from n (index + 1) f o

room :
    (v b t : ℕ)
    → b < 256
    → 0 < t
    → (v + 1) * (256 * t) ≤ 2 ^ 64
    → (v * 256 < 2 ^ 64) × ((v * 256 + b + 1) * t ≤ 2 ^ 64)
room v b t hb ht h = (grind arith, grind arith)

-- While the value read so far leaves room for the rounds left, no shift loses a bit.
read_u64_from-eq :
    (n i : ℕ) (f : Bytes) (o v : ℕ)
    → All IsByte f
    → (v + 1) * 256 ^ n ≤ 2 ^ 64
    → read_u64_from n i f o v ≡ big_endian v (bytes_from n i f o)
unfolding read_u64_from
read_u64_from-eq zero i f o v h m = refl
read_u64_from-eq (suc n) i f o v h m =
    let b : ℕ = get_or f (o + i) 0 in
    let hb : b < 256 = get_or-IsByte f (o + i) h in
    let r : (v * 256 < 2 ^ 64) × ((v * 256 + b + 1) * 256 ^ n ≤ 2 ^ 64) =
      room v b (256 ^ n) hb (one-le-pow n 256 (omega arith)) (rw pow-succ' at m) in
    let e : bit_or (shl 64 v 8) b ≡ v * 256 + b =
      bit_or-add 8 v (shl 64 v 8) b (omega (arith, r.0)) hb
      ∙ ap (λ t. t + b) (omega (arith, r.0)) in
    rw e (read_u64_from-eq n (i + 1) f o (v * 256 + b) h r.1)

pub read_u64-eq :
    (f : Bytes) (o : ℕ) → All IsByte f → read_u64 f o ≡ big_endian 0 (bytes_from 8 0 f o)
unfolding read_u64
read_u64-eq f o h = read_u64_from-eq 8 0 f o 0 h (omega arith)
