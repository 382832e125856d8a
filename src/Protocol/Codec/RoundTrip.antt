-- ===== src/Protocol/Codec/RoundTrip.antt =====
-- `encode` and `decode`, one after the other.
use telemetry_server.Base.{
  take-take, subst, ◌⊎◌, inl, inr, take-eq-tabulate, ℕ, ◌^◌, ◌+◌, ◌<◌, ◌≡◌, ◌≢◌, refl, ap, ◌∙◌, sym,
  arith, [], ◌∷◌, length, take, All, get_or, tabulate, tabulate-get_or, true,
}
use telemetry_server.Protocol.Words.{Bytes, read_u32, read_u64, byte_at}
use telemetry_server.Protocol.Words.Laws.{
  IsByte, get_or-IsByte, read_u32-eq, read_u64-eq, big_endian,
}
use telemetry_server.Protocol.Codec.{
  TelemetryRecord, DecodeError, DecodeResult, encode, decode, read_record, succeeded,
}
use telemetry_server.Protocol.Codec.Header.{header, IsError, decode-IsError}

-- The fields are those of the C++ types: `uint32_t`, `uint64_t` and 64 bits of a `double`.
pub record IsRepresentable (r : TelemetryRecord) : Type 0 where
  pub sensor : r.sensor_id < 2 ^ 32
  pub metric : r.metric_id < 2 ^ 32
  pub timestamp : r.timestamp_ns < 2 ^ 64
  pub value : r.value.bits < 2 ^ 64

pub encode-IsByte : (r : TelemetryRecord) → All IsByte (encode r)
unfolding encode
encode-IsByte r = omega arith

pub length-encode : (r : TelemetryRecord) → length (encode r) ≡ 32
unfolding encode
length-encode r = refl

word_of_bytes :
    (v : ℕ)
    → v < 2 ^ 32
    → big_endian 0 (byte_at v 24 ∷ byte_at v 16 ∷ byte_at v 8 ∷ byte_at v 0 ∷ []) ≡ v
word_of_bytes v h = omega arith

long_of_bytes :
    (v : ℕ)
    → v < 2 ^ 64
    → big_endian 0 (
        byte_at v 56
        ∷ byte_at v 48
        ∷ byte_at v 40
        ∷ byte_at v 32
        ∷ byte_at v 24
        ∷ byte_at v 16
        ∷ byte_at v 8
        ∷ byte_at v 0
        ∷ [])
      ≡ v
long_of_bytes v h = omega arith

module _ (r : TelemetryRecord) (h : IsRepresentable r) where
  sensor-encode : read_u32 (encode r) 8 ≡ r.sensor_id
  unfolding encode
  sensor-encode = read_u32-eq (encode r) 8 (encode-IsByte r) ∙ word_of_bytes r.sensor_id h.sensor

  metric-encode : read_u32 (encode r) 12 ≡ r.metric_id
  unfolding encode
  metric-encode = read_u32-eq (encode r) 12 (encode-IsByte r) ∙ word_of_bytes r.metric_id h.metric

  timestamp-encode : read_u64 (encode r) 16 ≡ r.timestamp_ns
  unfolding encode
  timestamp-encode =
      read_u64-eq (encode r) 16 (encode-IsByte r) ∙ long_of_bytes r.timestamp_ns h.timestamp

  value-encode : read_u64 (encode r) 24 ≡ r.value.bits
  unfolding encode
  value-encode = read_u64-eq (encode r) 24 (encode-IsByte r) ∙ long_of_bytes r.value.bits h.value

  read_record-encode : read_record (encode r) ≡ r
  unfolding read_record
  read_record-encode = rw (sensor-encode, metric-encode, timestamp-encode, value-encode)

header-encode : (r : TelemetryRecord) → take 8 (encode r) ≡ header
unfolding encode
header-encode r = refl

decode-cases :
    (f : Bytes)
    → ((decode f).error ≢ DecodeError.none)
      ⊎ (decode f ≡ record { telemetry = read_record f; error = DecodeError.none })
unfolding decode
decode-cases f = grind arith

none_of_header :
    (e : DecodeError) (f : Bytes)
    → IsError e f
    → length f ≡ 32
    → take 8 f ≡ header
    → e ≡ DecodeError.none
none_of_header DecodeError.none f h l t = refl
none_of_header DecodeError.invalid_size f h l t = absurd (h l)
none_of_header DecodeError.invalid_magic f h l t =
    absurd (h.1 (sym (take-take 4 8 f (omega arith)) ∙ ap (take 4) t))
none_of_header DecodeError.unsupported_version f h l t =
    absurd (h.2 (sym (take-take 6 8 f (omega arith)) ∙ ap (take 6) t))
none_of_header DecodeError.invalid_declared_frame_size f h l t = absurd (h.2 t)

pub decode_of_header :
    (f : Bytes)
    → All IsByte f
    → length f ≡ 32
    → take 8 f ≡ header
    → decode f ≡ record { telemetry = read_record f; error = DecodeError.none }
decode_of_header f b l t = elim (decode-cases f) [
  | inl bad ↦ absurd (bad (none_of_header (decode f).error f (decode-IsError f b) l t))
  | inr good ↦ good
]

-- A record whose fields fit their widths is what `decode` reads from its encoding, without an
-- error.
pub decode-encode :
    (r : TelemetryRecord)
    → IsRepresentable r
    → decode (encode r) ≡ record { telemetry = r; error = DecodeError.none }
decode-encode r h =
    decode_of_header (encode r) (encode-IsByte r) (length-encode r) (header-encode r)
    ∙ ap (λ (t : TelemetryRecord). record { telemetry = t; error = DecodeError.none })
        (read_record-encode r h)

-- The four bytes of a word that was read.
bytes_of_word :
    (b0 b1 b2 b3 v : ℕ)
    → b0 < 256
    → b1 < 256
    → b2 < 256
    → b3 < 256
    → v ≡ big_endian 0 (b0 ∷ b1 ∷ b2 ∷ b3 ∷ [])
    → (byte_at v 24 ≡ b0) × (byte_at v 16 ≡ b1) × (byte_at v 8 ≡ b2) × (byte_at v 0 ≡ b3)
bytes_of_word b0 b1 b2 b3 v h0 h1 h2 h3 e = omega arith

bytes_of_long :
    (b0 b1 b2 b3 b4 b5 b6 b7 v : ℕ)
    → b0 < 256
    → b1 < 256
    → b2 < 256
    → b3 < 256
    → b4 < 256
    → b5 < 256
    → b6 < 256
    → b7 < 256
    → v ≡ big_endian 0 (b0 ∷ b1 ∷ b2 ∷ b3 ∷ b4 ∷ b5 ∷ b6 ∷ b7 ∷ [])
    → (byte_at v 56 ≡ b0)
      × (byte_at v 48 ≡ b1)
      × (byte_at v 40 ≡ b2)
      × (byte_at v 32 ≡ b3)
      × (byte_at v 24 ≡ b4)
      × (byte_at v 16 ≡ b5)
      × (byte_at v 8 ≡ b6)
      × (byte_at v 0 ≡ b7)
bytes_of_long b0 b1 b2 b3 b4 b5 b6 b7 v h0 h1 h2 h3 h4 h5 h6 h7 e = omega arith

none_of_succeeded : (d : DecodeResult) → succeeded d ≡ true → d.error ≡ DecodeError.none
none_of_succeeded d s = ground arith

module _ (f : Bytes) (h : All IsByte f) where
  sensor_bytes :
      (o : ℕ)
      → let v = read_u32 f o in
        (byte_at v 24 ≡ get_or f o 0)
        × (byte_at v 16 ≡ get_or f (o + 1) 0)
        × (byte_at v 8 ≡ get_or f (o + 2) 0)
        × (byte_at v 0 ≡ get_or f (o + 3) 0)
  sensor_bytes o =
      bytes_of_word _ _ _ _ (read_u32 f o) (get_or-IsByte f o h) (get_or-IsByte f (o + 1) h)
        (get_or-IsByte f (o + 2) h) (get_or-IsByte f (o + 3) h) (read_u32-eq f o h)

  long_bytes :
      (o : ℕ)
      → let v = read_u64 f o in
        (byte_at v 56 ≡ get_or f (o + 0) 0)
        × (byte_at v 48 ≡ get_or f (o + 1) 0)
        × (byte_at v 40 ≡ get_or f (o + 2) 0)
        × (byte_at v 32 ≡ get_or f (o + 3) 0)
        × (byte_at v 24 ≡ get_or f (o + 4) 0)
        × (byte_at v 16 ≡ get_or f (o + 5) 0)
        × (byte_at v 8 ≡ get_or f (o + 6) 0)
        × (byte_at v 0 ≡ get_or f (o + 7) 0)
  long_bytes o =
      bytes_of_long _ _ _ _ _ _ _ _ (read_u64 f o) (byte 0) (byte 1) (byte 2) (byte 3) (byte 4)
        (byte 5) (byte 6) (byte 7) (read_u64-eq f o h)
    where
      byte : (i : ℕ) → get_or f (o + i) 0 < 256
      byte i = get_or-IsByte f (o + i) h

  header_bytes : length f ≡ 32 → take 8 f ≡ header → tabulate 8 (λ i. get_or f i 0) ≡ header
  header_bytes l t = sym (take-eq-tabulate 8 f 0 (omega arith)) ∙ t

  encode-read_record :
      length f ≡ 32 → take 8 f ≡ header → encode (read_record f) ≡ tabulate 32 (λ i. get_or f i 0)
  unfolding encode read_record
  encode-read_record l t =
      ground
        (arith, header_bytes l t, sensor_bytes 8, sensor_bytes 12, long_bytes 16, long_bytes 24)

  -- A frame of bytes that `decode` accepts is the encoding of the record that it returns.
  pub encode-decode : succeeded (decode f) ≡ true → encode (decode f).telemetry ≡ f
  encode-decode s = rw (decode_of_header f h ok.0 ok.1) (encode-read_record ok.0 ok.1 ∙ all)
    where
      ok : (length f ≡ 32) × (take 8 f ≡ header)
      ok = subst (λ e. IsError e f) (none_of_succeeded (decode f) s) (decode-IsError f h)

      all : tabulate 32 (λ i. get_or f i 0) ≡ f
      all = subst (λ n. tabulate n (λ i. get_or f i 0) ≡ f) ok.0 (tabulate-get_or f 0)
