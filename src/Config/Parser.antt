-- ===== src/Config/Parser.antt =====
-- Config/src/ConfigParser.cpp and Config/include/: `parseArguments` on the arguments after the
-- program's name. The messages for the error stream are left out.
pub mod Laws
use telemetry_server.Base.{
  ℕ, ◌*◌, ◌%◌, Bool, true, false, not, ◌&&◌, ◌||◌, Option, none, some, List, [], ◌∷◌, ◌++◌, length,
  ltb, ◌==◌, if◌then◌else◌,
}
use telemetry_server.Base.Text.{Text, codes, text_eq, to_string}
use telemetry_server.Protocol.Codec.{frame_size}
use telemetry_server.Config.Numbers.{parse_unsigned}

pub record AppConfig : Type 0 where
  pub port : ℕ
  pub data_file_path : Text
  pub max_segment_bytes : ℕ
  pub sync_every_bytes : ℕ
  pub quiet : Bool

abbrev pub default_config : AppConfig
default_config = record {
  port = 9000;
  data_file_path = codes "telemetry.bin";
  max_segment_bytes = 64 * 1024 * 1024;
  sync_every_bytes = 1 * 1024 * 1024;
  quiet = false;
}

pub data ParseStatus : Type 0 where
  success help_requested error : ParseStatus

unfoldable pub validate : AppConfig → Bool
validate c =
    if c.port == 0
    then false
    else if length c.data_file_path == 0
    then false
    else if ltb c.max_segment_bytes frame_size
    then false
    else if not (c.max_segment_bytes % frame_size == 0)
    then false
    else not (not (c.sync_every_bytes == 0) && ltb c.max_segment_bytes c.sync_every_bytes)

-- An option that takes a value.
pub data Setting : Type 0 where
  port data_file segment_bytes sync_bytes : Setting

-- What the text of an argument asks for.
pub data Argument : Type 0 where
  help quiet unknown : Argument
  setting : Setting → Argument

unfoldable pub argument : Text → Argument
argument text =
    if text_eq text (codes "--help") || text_eq text (codes "-h")
    then Argument.help
    else if text_eq text (codes "--quiet")
    then Argument.quiet
    else if text_eq text (codes "--port")
    then Argument.setting Setting.port
    else if text_eq text (codes "--data-file")
    then Argument.setting Setting.data_file
    else if text_eq text (codes "--segment-bytes")
    then Argument.setting Setting.segment_bytes
    else if text_eq text (codes "--sync-bytes")
    then Argument.setting Setting.sync_bytes
    else Argument.unknown

-- Whether the value is one for the option, and the configuration then.
unfoldable pub set_value : Setting → Text → AppConfig → Bool × AppConfig
set_value Setting.port value c = elim (parse_unsigned 16 value) [
  | none ↦ (false, c)
  | some n ↦ (not (n == 0), record c { port = n })
]
set_value Setting.data_file value c =
    if length value == 0 then (false, c) else (true, record c { data_file_path = value })
set_value Setting.segment_bytes value c = elim (parse_unsigned 64 value) [
  | none ↦ (false, c)
  | some n ↦ (true, record c { max_segment_bytes = n })
]
set_value Setting.sync_bytes value c = elim (parse_unsigned 64 value) [
  | none ↦ (false, c)
  | some n ↦ (true, record c { sync_every_bytes = n })
]

unfoldable pub parse_arguments : List Text → AppConfig → ParseStatus × AppConfig
unfolding validate argument set_value
parse_arguments [] c = if validate c then (ParseStatus.success, c) else (ParseStatus.error, c)
parse_arguments (text ∷ []) c = elim (argument text) [
  | Argument.help ↦ (ParseStatus.help_requested, c)
  | Argument.quiet ↦ parse_arguments [] (record c { quiet = true })
  | Argument.setting s ↦ (ParseStatus.error, c)
  | Argument.unknown ↦ (ParseStatus.error, c)
]
parse_arguments (text ∷ value ∷ rest) c = elim (argument text) [
  | Argument.help ↦ (ParseStatus.help_requested, c)
  | Argument.quiet ↦ parse_arguments (value ∷ rest) (record c { quiet = true })
  | Argument.setting s ↦
      let (valid, c') = set_value s value c in
      elim valid [ true ↦ parse_arguments rest c' | false ↦ (ParseStatus.error, c') ]
  | Argument.unknown ↦ (ParseStatus.error, c)
]
