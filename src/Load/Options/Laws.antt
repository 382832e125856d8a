-- ===== src/Load/Options/Laws.antt =====
-- What the options of bench/telemetry_load.cpp are once they are parsed.
use telemetry_server.Base.{
  ℕ, ◌^◌, ◌≤◌, ◌<◌, ◌≡◌, refl, arith, true, Option, none, some, List, [], ◌∷◌, Bool-cases, inl, inr,
}
use telemetry_server.Base.Text.{Text}
use telemetry_server.Load.Options.{
  LoadOptions, Key, Flag, flag, parse_number, set_option, are_in_range, ParsedOptions,
  parse_options,
}

-- The ranges of the usage text.
pub record IsInRange (o : LoadOptions) : Type 0 where
  pub some_frames : 1 ≤ o.frames
  pub frames_bound : o.frames ≤ 1000000
  pub some_batch : 1 ≤ o.batch_frames
  pub batch_bound : o.batch_frames ≤ 4096
  pub some_port : 1 ≤ o.port
  pub port_bound : o.port < 2 ^ 16

abbrev pub Yields : ParsedOptions → Type 0
Yields ParsedOptions.helped = Unit
Yields ParsedOptions.refused = Unit
Yields (ParsedOptions.parsed o) = IsInRange o

set_option-port :
    (k : Key) (n : ℕ) (o o' : LoadOptions)
    → o.port < 2 ^ 16
    → set_option k n o ≡ some o'
    → o'.port < 2 ^ 16
unfolding set_option
set_option-port Key.frames n o o' h e = ground (arith, e)
set_option-port Key.batch_frames n o o' h e = ground (arith, e)
set_option-port Key.port n o o' h e = ground (arith, e)

ranges : (o : LoadOptions) → o.port < 2 ^ 16 → are_in_range o ≡ true → IsInRange o
unfolding are_in_range
ranges o h e = record {
  some_frames = ground (arith, e);
  frames_bound = ground (arith, e);
  some_batch = ground (arith, e);
  batch_bound = ground (arith, e);
  some_port = ground (arith, e);
  port_bound = h;
}

pub parse_options_lem :
    (args : List Text) (o : LoadOptions) → o.port < 2 ^ 16 → Yields (parse_options args o)
unfolding parse_options
parse_options_lem [] o h = elim (Bool-cases (are_in_range o)) [
  | inl e ↦ rw e (ranges o h e)
  | inr e ↦ rw e tt
]
parse_options_lem (text ∷ []) o h = go (flag text)
  where
    go :
        (f : Flag)
        → Yields (elim f [
          | Flag.help ↦ ParsedOptions.helped
          | Flag.unknown ↦ ParsedOptions.refused
          | Flag.key k ↦ ParsedOptions.refused
        ])
    go Flag.help = tt
    go Flag.unknown = tt
    go (Flag.key k) = tt
parse_options_lem (text ∷ value ∷ rest) o h =
    go (flag text) (parse_number value) (λ o' k. parse_options_lem rest o' k)
  where
    set :
        (r : Option LoadOptions)
        → ((o' : LoadOptions) → r ≡ some o' → o'.port < 2 ^ 16)
        → ((o' : LoadOptions) → o'.port < 2 ^ 16 → Yields (parse_options rest o'))
        → Yields (elim r [ none ↦ ParsedOptions.refused | some o' ↦ parse_options rest o' ])
    set none p again = tt
    set (some o') p again = again o' (p o' refl)

    go :
        (f : Flag) (n : Option ℕ)
        → ((o' : LoadOptions) → o'.port < 2 ^ 16 → Yields (parse_options rest o'))
        → Yields (elim f [
          | Flag.help ↦ ParsedOptions.helped
          | Flag.unknown ↦ ParsedOptions.refused
          | Flag.key k ↦ elim n [
            | none ↦ ParsedOptions.refused
            | some m ↦ elim (set_option k m o) [
              | none ↦ ParsedOptions.refused
              | some o' ↦ parse_options rest o'
            ]
          ]
        ])
    go Flag.help n again = tt
    go Flag.unknown n again = tt
    go (Flag.key k) none again = tt
    go (Flag.key k) (some m) again =
        set (set_option k m o) (λ o' e. set_option-port k m o o' h e) again
