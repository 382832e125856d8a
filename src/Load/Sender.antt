-- ===== src/Load/Sender.antt =====
-- `sendAll` and `main` of bench/telemetry_load.cpp, on an interface of the socket calls. `fuel` bounds
-- the calls of `send` for a batch, and `rounds` the batches.
pub mod Batch
pub mod Laws
pub mod Frames
pub mod Main
use telemetry_server.Base.{
  ℕ, zero, suc, ◌+◌, ◌-◌, ◌*◌, ◌%◌, ◌^◌, min, Bool, true, false, Option, none, some, List, [], ◌∷◌,
  ◌++◌, length, take, drop, replicate, ltb, if◌then◌else◌,
}
use telemetry_server.Base.Action.{Action, ◌&&=◌}
use telemetry_server.Base.Text.{Text}
use telemetry_server.Protocol.Words.{Bytes}
use telemetry_server.Protocol.Codec.{TelemetryRecord, encode, frame_size}
use telemetry_server.Load.Options.{LoadOptions, default_options, ParsedOptions, parse_options}

-- What `send` returns: a count, -1 with `EINTR`, or -1 with another error.
pub data SendResult : Type 0 where
  took : ℕ → SendResult
  interrupted failed : SendResult

-- `-1` is `none` and `false`.
pub record Os : Type 1 where
  pub World : Type 0
  pub socket : World → Option ℕ × World
  pub connect : ℕ → ℕ → World → Bool × World
  pub send : ℕ → Bytes → World → SendResult × World
  pub shutdown : ℕ → World → Bool × World
  pub close : ℕ → World → World

-- The record behind `k` others; 1.0 by its bits.
abbrev pub load_record : ℕ → TelemetryRecord
load_record k = record {
  sensor_id = 1;
  metric_id = 2;
  timestamp_ns = (k + 1) % 2 ^ 64;
  value = record { bits = 0x3FF0000000000000 };
}

-- `std::copy` to a place in the buffer.
abbrev pub copy_to : Bytes → ℕ → Bytes → Bytes
copy_to buffer offset frame = take offset buffer ++ (frame ++ drop (offset + length frame) buffer)

-- The loop that encodes a batch, from frame `i` on.
unfoldable pub fill : ℕ → ℕ → ℕ → Bytes → Bytes
fill zero i sent buffer = buffer
fill (suc left) i sent buffer =
    fill left (suc i) sent (copy_to buffer (i * frame_size) (encode (load_record (sent + i))))

module _ (os : Os) where
  open os use {World}

  -- `sendAll` of the bytes from `offset` on.
  unfoldable pub send_all : ℕ → ℕ → Bytes → Action World Bool
  send_all zero fd bytes w = none
  send_all (suc fuel) fd [] w = some (true, w)
  send_all (suc fuel) fd (b ∷ bs) w =
      let (r, v) = os.send fd (b ∷ bs) w in
      elim r [
        | SendResult.took zero ↦ some (false, v)
        | SendResult.took (suc n) ↦ send_all fuel fd (drop n bs) v
        | SendResult.interrupted ↦ send_all fuel fd (b ∷ bs) v
        | SendResult.failed ↦ some (false, v)
      ]

  -- `while (sent < o.frames)`
  unfoldable pub send_frames : ℕ → ℕ → ℕ → LoadOptions → Bytes → ℕ → Action World Bool
  unfolding send_all fill
  send_frames fuel zero fd o buffer sent w = none
  send_frames fuel (suc rounds) fd o buffer sent w =
      let count = min o.batch_frames (o.frames - sent) in
      let buffer' = fill count 0 sent buffer in
      let rest =
        (send_all fuel fd (take (count * frame_size) buffer')
            &&= send_frames fuel rounds fd o buffer' (sent + count))
          w in
      if ltb sent o.frames then rest else some (true, w)

  -- The end of `main`, after the frames were sent or not.
  abbrev pub finish : ℕ → Option (Bool × World) → Option (Bool × World)
  finish fd none = none
  finish fd (some (false, w)) = some (false, os.close fd w)
  finish fd (some (true, w)) = let (ok, v) = os.shutdown fd w in some (ok, os.close fd v)

  unfoldable pub send_on : ℕ → ℕ → LoadOptions → Option ℕ → Action World Bool
  unfolding send_frames
  send_on fuel rounds o none w = some (false, w)
  send_on fuel rounds o (some fd) w =
      let (ok, v) = os.connect fd o.port w in
      elim ok [
        | false ↦ some (false, os.close fd v)
        | true ↦
            finish fd (send_frames fuel rounds fd o (replicate (o.batch_frames * frame_size) 0) 0 v)
      ]

  -- Whether the exit code is `EXIT_SUCCESS`.
  unfoldable pub main : ℕ → ℕ → List Text → Action World Bool
  unfolding send_on
  main fuel rounds args w = elim (parse_options args default_options) [
    | ParsedOptions.helped ↦ some (true, w)
    | ParsedOptions.refused ↦ some (false, w)
    | ParsedOptions.parsed o ↦ let (fd, v) = os.socket w in send_on fuel rounds o fd v
  ]
