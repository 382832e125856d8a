-- ===== src/Protocol/Codec.antt =====
-- Protocol/include/TelemetryCodec.hpp, Protocol/include/TelemetryRecord.hpp and
-- Protocol/src/TelemetryCodec.cpp. A `double` is known by its 64 bits, which `std::bit_cast` reads
-- and sets.
pub mod RoundTrip
pub mod Header
pub mod Tests
use Prim.Native.String.{String}
use mathlib.Core.Bool.{not}
use telemetry_server.Base.{
  ℕ, ◌%◌, ◌^◌, Bool, true, false, List, length, replicate, if◌then◌else◌, ◌==◌,
}
use telemetry_server.Protocol.Words.{
  Bytes, write_u16, write_u32, write_u64, read_u16, read_u32, read_u64,
}

abbrev pub magic : ℕ
magic = 0x544C5259

abbrev pub version : ℕ
version = 1

abbrev pub frame_size : ℕ
frame_size = 32

pub record Double : Type 0 where
  pub bits : ℕ

pub record TelemetryRecord : Type 0 where
  pub sensor_id : ℕ
  pub metric_id : ℕ
  pub timestamp_ns : ℕ
  pub value : Double

abbrev pub default_record : TelemetryRecord
default_record = record {
  sensor_id = 0;
  metric_id = 0;
  timestamp_ns = 0;
  value = record { bits = 0 };
}

pub data DecodeError : Type 0 where
  none invalid_size invalid_magic unsupported_version invalid_declared_frame_size : DecodeError

pub record DecodeResult : Type 0 where
  pub telemetry : TelemetryRecord
  pub error : DecodeError

-- `DecodeResult::operator bool`
abbrev pub succeeded : DecodeResult → Bool
succeeded r = elim r.error [ none ↦ true | _ ↦ false ]

unfoldable pub encode : TelemetryRecord → Bytes
unfolding write_u16 write_u32 write_u64
encode r =
    let frame0 = replicate frame_size 0 in
    let frame1 = write_u32 frame0 0 magic in
    let frame2 = write_u16 frame1 4 version in
    let frame3 = write_u16 frame2 6 (frame_size % 2 ^ 16) in
    let frame4 = write_u32 frame3 8 r.sensor_id in
    let frame5 = write_u32 frame4 12 r.metric_id in
    let frame6 = write_u64 frame5 16 r.timestamp_ns in write_u64 frame6 24 r.value.bits

abbrev pub failed : DecodeError → DecodeResult
failed e = record { telemetry = default_record; error = e }

-- The fields of a frame that passed the checks.
unfoldable pub read_record : Bytes → TelemetryRecord
read_record frame = record {
  sensor_id = read_u32 frame 8;
  metric_id = read_u32 frame 12;
  timestamp_ns = read_u64 frame 16;
  value = record { bits = read_u64 frame 24 };
}

unfoldable pub decode : Bytes → DecodeResult
unfolding read_record
decode frame =
    if not (length frame == frame_size)
    then failed invalid_size
    else if not (read_u32 frame 0 == magic)
    then failed invalid_magic
    else if not (read_u16 frame 4 == version)
    then failed unsupported_version
    else if not (read_u16 frame 6 == frame_size % 2 ^ 16)
    then failed invalid_declared_frame_size
    else record { telemetry = read_record frame; error = none }

pub to_string : DecodeError → String
to_string none = "none"
to_string invalid_size = "invalid frame size"
to_string invalid_magic = "invalid magic"
to_string unsupported_version = "unsupported version"
to_string invalid_declared_frame_size = "invalid declared frame size"
