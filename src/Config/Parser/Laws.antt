-- ===== src/Config/Parser/Laws.antt =====
-- What a successful `parseArguments` guarantees, and the arguments that set every option.
use telemetry_server.Base.{
  ℕ, ◌%◌, ◌^◌, ◌≤◌, ◌<◌, ◌≡◌, ◌≢◌, refl, ap, ◌∙◌, arith, Bool, true, false, some, List, [], ◌∷◌,
  length, Option-cases, Bool-cases, ==_of_ne, inl, inr, ◌==◌, if◌then◌else◌,
}
use telemetry_server.Base.Text.{Text, codes, to_string}
use telemetry_server.Protocol.Codec.{frame_size}
use telemetry_server.Storage.FileStore.{FileStoreConfig}
use telemetry_server.Storage.FileStore
use telemetry_server.Storage.FileStore.Methods.{validate_config_iff}
use telemetry_server.Config.Numbers.{parse_unsigned, parse_unsigned_iff, parse_unsigned-to_string}
use telemetry_server.Config.Parser.{
  AppConfig, ParseStatus, Setting, Argument, argument, set_value, parse_arguments, validate,
}

-- The widths of the fields.
pub record IsBounded (c : AppConfig) : Type 0 where
  pub port : c.port < 2 ^ 16
  pub max_segment : c.max_segment_bytes < 2 ^ 64
  pub sync_every : c.sync_every_bytes < 2 ^ 64

-- The limits that the reader gives to its store.
abbrev pub store_config : AppConfig → FileStoreConfig
store_config c = record {
  max_segment_bytes = c.max_segment_bytes;
  sync_every_bytes = c.sync_every_bytes;
}

-- A configuration that the server and the store can start with.
pub record IsUsable (c : AppConfig) : Type 0 where
  pub bounded : IsBounded c
  pub listens : c.port ≢ 0
  pub has_path : length c.data_file_path ≢ 0
  pub storable : FileStore.validate_config (store_config c) ≡ true

validate-IsUsable : (c : AppConfig) → IsBounded c → validate c ≡ true → IsUsable c
unfolding validate
validate-IsUsable c b e = record {
  bounded = b;
  listens = ground arith;
  has_path = ground arith;
  storable = (validate_config_iff (store_config c)).1 (ground arith, ground arith, ground arith);
}

parse_unsigned-lt : (width : ℕ) (v : Text) (n : ℕ) → parse_unsigned width v ≡ some n → n < 2 ^ width
parse_unsigned-lt width v n e = ((parse_unsigned_iff width v n).0 e).3

set_value-IsBounded :
    (s : Setting) (v : Text) (c : AppConfig) → IsBounded c → IsBounded (set_value s v c).1
unfolding set_value
set_value-IsBounded Setting.port v c b = elim (Option-cases (parse_unsigned 16 v)) [
  | inl e ↦ rw (e, set_value) b
  | inr (n, e) ↦
      rw (e, set_value)
        (record {
          port = parse_unsigned-lt 16 v n e;
          max_segment = b.max_segment;
          sync_every = b.sync_every;
        })
]
set_value-IsBounded Setting.data_file v c b = elim (Bool-cases (length v == 0)) [
  | inl e ↦ rw (e, set_value) b
  | inr e ↦
      rw (e, set_value)
        (record { port = b.port; max_segment = b.max_segment; sync_every = b.sync_every })
]
set_value-IsBounded Setting.segment_bytes v c b = elim (Option-cases (parse_unsigned 64 v)) [
  | inl e ↦ rw (e, set_value) b
  | inr (n, e) ↦
      rw (e, set_value)
        (record {
          port = b.port;
          max_segment = parse_unsigned-lt 64 v n e;
          sync_every = b.sync_every;
        })
]
set_value-IsBounded Setting.sync_bytes v c b = elim (Option-cases (parse_unsigned 64 v)) [
  | inl e ↦ rw (e, set_value) b
  | inr (n, e) ↦
      rw (e, set_value)
        (record {
          port = b.port;
          max_segment = b.max_segment;
          sync_every = parse_unsigned-lt 64 v n e;
        })
]

abbrev Accepts : ParseStatus × AppConfig → Type 0
Accepts (status, c) = status ≡ ParseStatus.success → IsUsable c

abbrev quieten : AppConfig → AppConfig
quieten c = record c { quiet = true }

quieten-IsBounded : (c : AppConfig) → IsBounded c → IsBounded (quieten c)
quieten-IsBounded c b = record {
  port = b.port;
  max_segment = b.max_segment;
  sync_every = b.sync_every;
}

-- From a configuration whose fields fit their widths, a success of `parseArguments` gives one
-- that the server and the file store can start with: a port other than 0, a path, and segment
-- limits that the store accepts, each within its width.
pub success-IsUsable :
    (args : List Text) (c : AppConfig)
    → IsBounded c
    → (parse_arguments args c).0 ≡ ParseStatus.success
    → IsUsable (parse_arguments args c).1
unfolding parse_arguments
success-IsUsable [] c b = elim (Bool-cases (validate c)) [
  | inl e ↦ rw e (λ s. validate-IsUsable c b e)
  | inr e ↦ rw e (λ s. absurd (ground (arith, s)))
]
success-IsUsable (text ∷ []) c b =
    go (argument text) (success-IsUsable [] (quieten c) (quieten-IsBounded c b))
  where
    go :
        (a : Argument)
        → Accepts (parse_arguments [] (quieten c))
        → Accepts (elim a [
          | Argument.help ↦ (ParseStatus.help_requested, c)
          | Argument.quiet ↦ parse_arguments [] (quieten c)
          | Argument.setting s ↦ (ParseStatus.error, c)
          | Argument.unknown ↦ (ParseStatus.error, c)
        ])
    go Argument.help h s = absurd (ground (arith, s))
    go Argument.quiet h s = h s
    go (Argument.setting k) h s = absurd (ground (arith, s))
    go Argument.unknown h s = absurd (ground (arith, s))
success-IsUsable (text ∷ value ∷ rest) c b =
    go (argument text) (success-IsUsable (value ∷ rest) (quieten c) (quieten-IsBounded c b))
      (λ c' b'. success-IsUsable rest c' b')
  where
    set :
        (valid : Bool) (c' : AppConfig)
        → Accepts (parse_arguments rest c')
        → Accepts (elim valid [ true ↦ parse_arguments rest c' | false ↦ (ParseStatus.error, c') ])
    set true c' h s = h s
    set false c' h s = absurd (ground (arith, s))

    go :
        (a : Argument)
        → Accepts (parse_arguments (value ∷ rest) (quieten c))
        → ((c' : AppConfig) → IsBounded c' → Accepts (parse_arguments rest c'))
        → Accepts (elim a [
          | Argument.help ↦ (ParseStatus.help_requested, c)
          | Argument.quiet ↦ parse_arguments (value ∷ rest) (quieten c)
          | Argument.setting k ↦
              let (valid, c') = set_value k value c in
              elim valid [ true ↦ parse_arguments rest c' | false ↦ (ParseStatus.error, c') ]
          | Argument.unknown ↦ (ParseStatus.error, c)
        ])
    go Argument.help h r s = absurd (ground (arith, s))
    go Argument.quiet h r s = h s
    go (Argument.setting k) h r s =
        let c' : AppConfig = (set_value k value c).1 in
        set (set_value k value c).0 c' (r c' (set_value-IsBounded k value c b)) s
    go Argument.unknown h r s = absurd (ground (arith, s))

-- An option whose value is one for it.
parse_setting :
    (text value : Text) (k : Setting) (rest : List Text) (c c' : AppConfig)
    → argument text ≡ Argument.setting k
    → set_value k value c ≡ (true, c')
    → parse_arguments (text ∷ value ∷ rest) c ≡ parse_arguments rest c'
unfolding parse_arguments
parse_setting text value k rest c c' a v =
    rw (a, v, parse_arguments) (ap (λ (p : Bool × AppConfig). parse_arguments rest p.1) v)

set_port :
    (n : ℕ) (c : AppConfig)
    → n < 2 ^ 16
    → n ≢ 0
    → set_value Setting.port (to_string n) c ≡ (true, record c { port = n })
unfolding set_value
set_port n c h ne = rw (parse_unsigned-to_string 16 n h, ==_of_ne ne, set_value) refl

set_data_file :
    (path : Text) (c : AppConfig)
    → length path ≢ 0
    → set_value Setting.data_file path c ≡ (true, record c { data_file_path = path })
unfolding set_value
set_data_file path c ne = rw (==_of_ne ne, set_value) refl

set_segment_bytes :
    (n : ℕ) (c : AppConfig)
    → n < 2 ^ 64
    → set_value Setting.segment_bytes (to_string n) c ≡ (true, record c { max_segment_bytes = n })
unfolding set_value
set_segment_bytes n c h = rw (parse_unsigned-to_string 64 n h, set_value) refl

set_sync_bytes :
    (n : ℕ) (c : AppConfig)
    → n < 2 ^ 64
    → set_value Setting.sync_bytes (to_string n) c ≡ (true, record c { sync_every_bytes = n })
unfolding set_value
set_sync_bytes n c h = rw (parse_unsigned-to_string 64 n h, set_value) refl

IsUsable-validate : (c : AppConfig) → IsUsable c → validate c ≡ true
unfolding validate
IsUsable-validate c u =
    let s : (frame_size ≤ c.max_segment_bytes)
        × (c.max_segment_bytes % frame_size ≡ 0)
        × (c.sync_every_bytes ≤ c.max_segment_bytes) =
      (validate_config_iff (store_config c)).0 u.storable in
    ground (arith, u.listens, u.has_path)

-- The arguments that set every option to its value in `c`.
pub arguments_of : AppConfig → List Text
arguments_of c =
    codes "--port"
    ∷ to_string c.port
    ∷ codes "--data-file"
    ∷ c.data_file_path
    ∷ codes "--segment-bytes"
    ∷ to_string c.max_segment_bytes
    ∷ codes "--sync-bytes"
    ∷ to_string c.sync_every_bytes
    ∷ (if c.quiet then codes "--quiet" ∷ [] else [])

quiet_rest :
    (c : AppConfig) (quiet : Bool)
    → validate c ≡ true
    → parse_arguments (if quiet then codes "--quiet" ∷ [] else []) (record c { quiet = false })
      ≡ (ParseStatus.success, record c { quiet = quiet })
unfolding parse_arguments argument validate
quiet_rest c true v = rw v refl
quiet_rest c false v = rw v refl

-- When every option is set to the value of a usable configuration, on top of one that is not
-- quiet, `parseArguments` succeeds with that configuration.
pub parse_arguments-arguments_of :
    (c d : AppConfig)
    → IsUsable c
    → d.quiet ≡ false
    → parse_arguments (arguments_of c) d ≡ (ParseStatus.success, c)
unfolding argument arguments_of
parse_arguments-arguments_of c d u q =
    parse_setting _ _ Setting.port _ d d1 refl (set_port c.port d u.bounded.port u.listens)
    ∙ parse_setting _ _ Setting.data_file _ d1 d2 refl
        (set_data_file c.data_file_path d1 u.has_path)
    ∙ parse_setting _ _ Setting.segment_bytes _ d2 d3 refl
        (set_segment_bytes c.max_segment_bytes d2 u.bounded.max_segment)
    ∙ parse_setting _ _ Setting.sync_bytes _ d3 d4 refl
        (set_sync_bytes c.sync_every_bytes d3 u.bounded.sync_every)
    ∙ ap (λ b. parse_arguments flags (record c { quiet = b })) q
    ∙ quiet_rest c c.quiet (IsUsable-validate c u)
  where
    flags : List Text
    flags = if c.quiet then codes "--quiet" ∷ [] else []

    d1 : AppConfig
    d1 = record d { port = c.port }

    d2 : AppConfig
    d2 = record (d1) { data_file_path = c.data_file_path }

    d3 : AppConfig
    d3 = record (d2) { max_segment_bytes = c.max_segment_bytes }

    d4 : AppConfig
    d4 = record (d3) { sync_every_bytes = c.sync_every_bytes }
