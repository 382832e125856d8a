-- ===== src/Protocol/Words.antt =====
-- The big-endian reads and writes of Protocol/src/TelemetryCodec.cpp. A byte is a number below 256,
-- and a word of w bits a number below 2 ^ w; `>> k` is `/ 2 ^ k`, `& 0xFF` is `% 256`.
pub mod Laws
use telemetry_server.Base.{ℕ, zero, suc, ◌+◌, ◌-◌, ◌*◌, ◌/◌, ◌%◌, ◌^◌, List, bit_or, get_or, set}

abbrev pub Bytes : Type 0
Bytes = List ℕ

-- `static_cast<unsigned char>((value >> shift) & 0xFF)`
abbrev pub byte_at : ℕ → ℕ → ℕ
byte_at value shift = value / 2 ^ shift % 256

unfoldable pub write_u16 : Bytes → ℕ → ℕ → Bytes
write_u16 frame offset value =
    let frame1 = set frame offset (byte_at value 8) in set frame1 (offset + 1) (byte_at value 0)

unfoldable pub write_u32 : Bytes → ℕ → ℕ → Bytes
write_u32 frame offset value =
    let frame1 = set frame offset (byte_at value 24) in
    let frame2 = set frame1 (offset + 1) (byte_at value 16) in
    let frame3 = set frame2 (offset + 2) (byte_at value 8) in
    set frame3 (offset + 3) (byte_at value 0)

-- The loop of `writeU64` from `index` on, for the rounds that are left.
write_u64_from : ℕ → ℕ → Bytes → ℕ → ℕ → Bytes
write_u64_from zero index frame offset value = frame
write_u64_from (suc rounds) index frame offset value =
    let shift = (7 - index) * 8 in
    write_u64_from rounds (index + 1) (set frame (offset + index) (byte_at value shift)) offset
      value

unfoldable pub write_u64 : Bytes → ℕ → ℕ → Bytes
unfolding write_u64_from
write_u64 frame offset value = write_u64_from 8 0 frame offset value

-- `<<` on a word of `width` bits.
abbrev pub shl : ℕ → ℕ → ℕ → ℕ
shl width value shift = value * 2 ^ shift % 2 ^ width

-- `byte0 << 8U` is an `int`, and the cast brings the result back to 16 bits.
unfoldable pub read_u16 : Bytes → ℕ → ℕ
read_u16 frame offset =
    bit_or (shl 32 (get_or frame offset 0) 8) (get_or frame (offset + 1) 0) % 2 ^ 16

unfoldable pub read_u32 : Bytes → ℕ → ℕ
read_u32 frame offset =
    let byte0 = get_or frame offset 0 in
    let byte1 = get_or frame (offset + 1) 0 in
    let byte2 = get_or frame (offset + 2) 0 in
    let byte3 = get_or frame (offset + 3) 0 in
    bit_or (bit_or (bit_or (shl 32 byte0 24) (shl 32 byte1 16)) (shl 32 byte2 8)) byte3

read_u64_from : ℕ → ℕ → Bytes → ℕ → ℕ → ℕ
read_u64_from zero index frame offset value = value
read_u64_from (suc rounds) index frame offset value =
    read_u64_from rounds (index + 1) frame offset
      (bit_or (shl 64 value 8) (get_or frame (offset + index) 0))

unfoldable pub read_u64 : Bytes → ℕ → ℕ
unfolding read_u64_from
read_u64 frame offset = read_u64_from 8 0 frame offset 0
