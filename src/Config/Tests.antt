-- ===== src/Config/Tests.antt =====
-- Config/src/ConfigParser.cpp on a command line.
use telemetry_server.Base.{◌^◌, ◌<◌, ◌≡◌, ◌≢◌, ◌↔◌, refl, arith, true, some, List, [], ◌∷◌, All}
use telemetry_server.Base.Text.{Text, codes, to_string}
use telemetry_server.Storage.FileStore.Methods.{validate_config_iff}
use telemetry_server.Config.Numbers.{
  parse_unsigned, IsDigit, value_from, parse_unsigned_iff, parse_unsigned-to_string,
}
use telemetry_server.Config.Parser.{AppConfig, ParseStatus, default_config, parse_arguments}
use telemetry_server.Config.Parser.Laws.{
  IsBounded, IsUsable, store_config, arguments_of, success-IsUsable, parse_arguments-arguments_of,
}

abbrev chosen : AppConfig
chosen = record {
  port = 7000;
  data_file_path = codes "records.bin";
  max_segment_bytes = 128;
  sync_every_bytes = 40;
  quiet = true;
}

chosen-IsBounded : IsBounded chosen
chosen-IsBounded = record {
  port = omega arith;
  max_segment = omega arith;
  sync_every = omega arith;
}

default_config-IsBounded : IsBounded default_config
default_config-IsBounded = record {
  port = omega arith;
  max_segment = omega arith;
  sync_every = omega arith;
}

chosen-IsUsable : IsUsable chosen
chosen-IsUsable = record {
  bounded = chosen-IsBounded;
  listens = omega arith;
  has_path = omega arith;
  storable = (validate_config_iff (store_config chosen)).1 (omega arith, refl, omega arith);
}

parse_arguments-arguments_of_example :
    parse_arguments (arguments_of chosen) default_config ≡ (ParseStatus.success, chosen)
parse_arguments-arguments_of_example =
    parse_arguments-arguments_of chosen default_config chosen-IsUsable refl

abbrev two_options : List Text
two_options = codes "--quiet" ∷ codes "--data-file" ∷ codes "a" ∷ []

two_options-success : (parse_arguments two_options default_config).0 ≡ ParseStatus.success
unfolding parse_arguments
two_options-success = refl

success-IsUsable_example : IsUsable (parse_arguments two_options default_config).1
success-IsUsable_example =
    success-IsUsable two_options default_config default_config-IsBounded two_options-success

parse_unsigned_iff_example : (parse_unsigned 16 (codes "065") ≡ some 65) ↔ (
    (codes "065" ≢ [])
    × All IsDigit (codes "065")
    × (value_from 0 (codes "065") ≡ 65)
    × (65 < 2 ^ 16))
parse_unsigned_iff_example = parse_unsigned_iff 16 (codes "065") 65

parse_unsigned-to_string_example : parse_unsigned 16 (to_string 9000) ≡ some 9000
parse_unsigned-to_string_example = parse_unsigned-to_string 16 9000 (omega arith)
