-- ===== src/Load/Options.antt =====
-- The command line of bench/telemetry_load.cpp. The messages that it prints are left out.
pub mod Laws
use telemetry_server.Base.{
  ℕ, Bool, true, false, not, ◌&&◌, Option, none, some, List, [], ◌∷◌, length, leb, ◌==◌,
  if◌then◌else◌,
}
use telemetry_server.Base.Text.{Text, codes, text_eq}
use telemetry_server.Config.Numbers.{from_chars, is_ok}

-- `Options`
pub record LoadOptions : Type 0 where
  pub frames : ℕ
  pub batch_frames : ℕ
  pub port : ℕ

abbrev pub default_options : LoadOptions
default_options = record { frames = 100000; batch_frames = 128; port = 19000 }

unfoldable pub parse_number : Text → Option ℕ
parse_number text =
    let r = from_chars 64 text in
    if length text == 0
    then none
    else if is_ok r.error && length r.rest == 0
    then some r.parsed
    else none

-- An option that takes a number.
pub data Key : Type 0 where
  frames batch_frames port : Key

-- What the text of an argument is.
pub data Flag : Type 0 where
  help unknown : Flag
  key : Key → Flag

unfoldable pub flag : Text → Flag
flag text =
    if text_eq text (codes "--help")
    then Flag.help
    else if text_eq text (codes "--frames")
    then Flag.key Key.frames
    else if text_eq text (codes "--batch-frames")
    then Flag.key Key.batch_frames
    else if text_eq text (codes "--port")
    then Flag.key Key.port
    else Flag.unknown

unfoldable pub set_option : Key → ℕ → LoadOptions → Option LoadOptions
set_option Key.frames n o = some (record o { frames = n })
set_option Key.batch_frames n o = some (record o { batch_frames = n })
set_option Key.port n o = if leb n 65535 then some (record o { port = n }) else none

unfoldable pub are_in_range : LoadOptions → Bool
are_in_range o =
    leb 1 o.frames
    && (leb o.frames 1000000 && (leb 1 o.batch_frames && (leb o.batch_frames 4096 && leb 1 o.port)))

-- `helped` is where the code exits, and `refused` is `false`.
pub data ParsedOptions : Type 0 where
  helped refused : ParsedOptions
  parsed : LoadOptions → ParsedOptions

-- The options of the arguments after the program's name.
unfoldable pub parse_options : List Text → LoadOptions → ParsedOptions
unfolding flag parse_number set_option are_in_range
parse_options [] o = if are_in_range o then ParsedOptions.parsed o else ParsedOptions.refused
parse_options (text ∷ []) o = elim (flag text) [
  | Flag.help ↦ ParsedOptions.helped
  | Flag.unknown ↦ ParsedOptions.refused
  | Flag.key k ↦ ParsedOptions.refused
]
parse_options (text ∷ value ∷ rest) o = elim (flag text) [
  | Flag.help ↦ ParsedOptions.helped
  | Flag.unknown ↦ ParsedOptions.refused
  | Flag.key k ↦ elim (parse_number value) [
    | none ↦ ParsedOptions.refused
    | some n ↦ elim (set_option k n o) [
      | none ↦ ParsedOptions.refused
      | some o' ↦ parse_options rest o'
    ]
  ]
]
