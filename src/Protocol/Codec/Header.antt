-- ===== src/Protocol/Codec/Header.antt =====
-- Which frames `decode` accepts, by their first eight bytes.
use telemetry_server.Base.{
  ==_of_eq, ==_of_ne, take-eq-tabulate, ℕ, ◌≡◌, ◌≢◌, zero, suc, ◌↔◌, arith, [], ◌∷◌, length, take,
  All, get_or, tabulate,
}
use native.Mathlib.Decide.{ℕ_discrete}
use telemetry_server.Protocol.Words.{Bytes, read_u16, read_u32}
use telemetry_server.Protocol.Words.Laws.{IsByte, get_or-IsByte, read_u16-eq, read_u32-eq}
use telemetry_server.Protocol.Codec.{DecodeError, decode, frame_size, magic, version}

-- "TLRY", version 1, 32 bytes, each number with its highest byte first.
abbrev pub header : Bytes
header = 0x54 ∷ 0x4C ∷ 0x52 ∷ 0x59 ∷ 0 ∷ 1 ∷ 0 ∷ 32 ∷ []

-- The first `DecodeError` whose condition a frame meets, read off its bytes.
abbrev pub IsError : DecodeError → Bytes → Type 0
IsError DecodeError.none f = (length f ≡ 32) × (take 8 f ≡ header)
IsError DecodeError.invalid_size f = length f ≢ 32
IsError DecodeError.invalid_magic f = (length f ≡ 32) × (take 4 f ≢ take 4 header)
IsError DecodeError.unsupported_version f =
    (length f ≡ 32) × (take 4 f ≡ take 4 header) × (take 6 f ≢ take 6 header)
IsError DecodeError.invalid_declared_frame_size f =
    (length f ≡ 32) × (take 6 f ≡ take 6 header) × (take 8 f ≢ header)

-- The first `n` bytes are those of the header.
abbrev Starts : ℕ → Bytes → Type 0
Starts zero f = Unit
Starts (suc n) f = Starts n f × (get_or f n 0 ≡ get_or header n 0)

abbrev StartsWithHeader : ℕ → Bytes → Type 0
StartsWithHeader n f = (tabulate n (λ i. get_or f i 0) ≡ take n header) ↔ Starts n f

starts_four : (f : Bytes) → StartsWithHeader 4 f
starts_four f = (λ e. ground arith, λ s. ground arith)

starts_six : (f : Bytes) → StartsWithHeader 6 f
starts_six f = (λ e. ground arith, λ s. ground arith)

starts_eight : (f : Bytes) → StartsWithHeader 8 f
starts_eight f = (λ e. ground arith, λ s. ground arith)

module _ (f : Bytes) (h : All IsByte f) where
  magic_iff : (read_u32 f 0 ≡ magic) ↔ Starts 4 f
  magic_iff = grind (
    arith,
    read_u32-eq f 0 h,
    get_or-IsByte f 0 h,
    get_or-IsByte f 1 h,
    get_or-IsByte f 2 h,
    get_or-IsByte f 3 h,
  )

  version_iff : (read_u16 f 4 ≡ version) ↔ ((get_or f 4 0 ≡ 0) × (get_or f 5 0 ≡ 1))
  version_iff = grind (arith, read_u16-eq f 4 h, get_or-IsByte f 4 h, get_or-IsByte f 5 h)

  size_iff : (read_u16 f 6 ≡ frame_size) ↔ ((get_or f 6 0 ≡ 0) × (get_or f 7 0 ≡ 32))
  size_iff = grind (arith, read_u16-eq f 6 h, get_or-IsByte f 6 h, get_or-IsByte f 7 h)

  module _ (len : length f ≡ 32) where
    take_four : (take 4 f ≡ take 4 header) ↔ Starts 4 f
    take_four = rw (take-eq-tabulate 4 f 0 (omega arith)) (starts_four f)

    take_six : (take 6 f ≡ take 6 header) ↔ Starts 6 f
    take_six = rw (take-eq-tabulate 6 f 0 (omega arith)) (starts_six f)

    take_eight : (take 8 f ≡ header) ↔ Starts 8 f
    take_eight = rw (take-eq-tabulate 8 f 0 (omega arith)) (starts_eight f)

    bad_magic : read_u32 f 0 ≢ magic → take 4 f ≢ take 4 header
    bad_magic n e = n (magic_iff.1 (take_four.0 e))

    bad_version : read_u16 f 4 ≢ version → take 6 f ≢ take 6 header
    bad_version n e = let s : Starts 6 f = take_six.0 e in n (version_iff.1 (s.0.1, s.1))

    bad_size : read_u16 f 6 ≢ frame_size → take 8 f ≢ header
    bad_size n e = let s : Starts 8 f = take_eight.0 e in n (size_iff.1 (s.0.1, s.1))

    good_magic : read_u32 f 0 ≡ magic → take 4 f ≡ take 4 header
    good_magic e = take_four.1 (magic_iff.0 e)

    good_version : read_u32 f 0 ≡ magic → read_u16 f 4 ≡ version → take 6 f ≡ take 6 header
    good_version e v =
        let p : (get_or f 4 0 ≡ 0) × (get_or f 5 0 ≡ 1) = version_iff.0 v in
        take_six.1 ((magic_iff.0 e, p.0), p.1)

    good_size :
        read_u32 f 0 ≡ magic
        → read_u16 f 4 ≡ version
        → read_u16 f 6 ≡ frame_size
        → take 8 f ≡ header
    good_size e v z =
        let p : (get_or f 4 0 ≡ 0) × (get_or f 5 0 ≡ 1) = version_iff.0 v in
        let q : (get_or f 6 0 ≡ 0) × (get_or f 7 0 ≡ 32) = size_iff.0 z in
        take_eight.1 ((((magic_iff.0 e, p.0), p.1), q.0), q.1)

  -- For a frame of bytes, the error that `decode` returns is the one that the length and the
  -- header call for.
  pub decode-IsError : IsError (decode f).error f
  unfolding decode
  decode-IsError = elim (ℕ_discrete (length f) 32) [
    | no n ↦ rw (==_of_ne n) n
    | yes len ↦ elim (ℕ_discrete (read_u32 f 0) magic) [
      | no n ↦ rw (==_of_eq len, ==_of_ne n) (len, bad_magic len n)
      | yes m ↦ elim (ℕ_discrete (read_u16 f 4) version) [
        | no n ↦
            rw (==_of_eq len, ==_of_eq m, ==_of_ne n) (len, good_magic len m, bad_version len n)
        | yes v ↦ elim (ℕ_discrete (read_u16 f 6) frame_size) [
          | no n ↦
              rw (==_of_eq len, ==_of_eq m, ==_of_eq v, ==_of_ne n)
                (len, good_version len m v, bad_size len n)
          | yes z ↦ rw (==_of_eq len, ==_of_eq m, ==_of_eq v, ==_of_eq z) (len, good_size len m v z)
        ]
      ]
    ]
  ]
