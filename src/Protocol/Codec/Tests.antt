-- ===== src/Protocol/Codec/Tests.antt =====
-- Protocol/src/TelemetryCodec.cpp on one record.
use telemetry_server.Base.{◌≡◌, refl, arith, true, ap, take, ◌∷◌, []}
use telemetry_server.Protocol.Codec.{TelemetryRecord, DecodeError, encode, decode, succeeded}
use telemetry_server.Protocol.Codec.Header.{IsError, decode-IsError}
use telemetry_server.Protocol.Codec.RoundTrip.{
  IsRepresentable, decode-encode, encode-decode, encode-IsByte,
}

abbrev pub sample : TelemetryRecord
sample = record {
  sensor_id = 7;
  metric_id = 300;
  timestamp_ns = 1700000000000000000;
  value = record { bits = 0x4045000000000000 };
}

sample-IsRepresentable : IsRepresentable sample
sample-IsRepresentable = record {
  sensor = omega arith;
  metric = omega arith;
  timestamp = omega arith;
  value = omega arith;
}

first_word : take 4 (encode sample) ≡ take 4 (0x54 ∷ 0x4C ∷ 0x52 ∷ 0x59 ∷ [])
unfolding encode
first_word = refl

decode-encode_example :
    decode (encode sample) ≡ record { telemetry = sample; error = DecodeError.none }
decode-encode_example = decode-encode sample sample-IsRepresentable

sample-succeeded : succeeded (decode (encode sample)) ≡ true
sample-succeeded = ap succeeded (decode-encode sample sample-IsRepresentable)

encode-decode_example : encode (decode (encode sample)).telemetry ≡ encode sample
encode-decode_example = encode-decode (encode sample) (encode-IsByte sample) sample-succeeded

decode-IsError_example : IsError (decode (encode sample)).error (encode sample)
decode-IsError_example = decode-IsError (encode sample) (encode-IsByte sample)
