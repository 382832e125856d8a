-- ===== src/Config/Numbers.antt =====
-- `parseUnsigned` of Config/src/ConfigParser.cpp, and what it uses of `std::from_chars`.
use telemetry_server.Base.{
  ℕ, zero, suc, ◌+◌, ◌-◌, ◌*◌, ◌/◌, ◌%◌, ◌^◌, ◌≤◌, ◌<◌, ◌≡◌, ◌≢◌, ◌↔◌, refl, ap, sym, ◌∙◌, arith,
  Bool, true, false, not, ◌&&◌, ◌||◌, Option, none, some, [], ◌∷◌, length, All, leb, ltb, ◌==◌,
  if◌then◌else◌, Bool-cases, ltb→lt, inl, inr,
}
use telemetry_server.Base.Text.{Text, digits, to_string}

pub data Errc : Type 0 where
  ok invalid_argument result_out_of_range : Errc

-- The parsed value, the text from `ptr` on, and the error.
pub record FromCharsResult : Type 0 where
  pub parsed : ℕ
  pub rest : Text
  pub error : Errc

abbrev pub is_digit : ℕ → Bool
is_digit c = leb b'0' c && leb c b'9'

-- The digits that a text starts with, and what follows them.
pub span_digits : Text → Text × Text
span_digits [] = ([], [])
span_digits (c ∷ cs) =
    let (ds, rest) = span_digits cs in if is_digit c then (c ∷ ds, rest) else ([], c ∷ cs)

-- The number that the digits after those of `n` make.
pub value_from : ℕ → Text → ℕ
value_from n [] = n
value_from n (c ∷ cs) = value_from (10 * n + (c - b'0')) cs

-- For an unsigned type of `width` bits.
pub from_chars : ℕ → Text → FromCharsResult
unfolding span_digits value_from
from_chars width text =
    let (ds, rest) = span_digits text in
    if length ds == 0
    then record { parsed = 0; rest = text; error = Errc.invalid_argument }
    else if leb (2 ^ width) (value_from 0 ds)
    then record { parsed = 0; rest = rest; error = Errc.result_out_of_range }
    else record { parsed = value_from 0 ds; rest = rest; error = Errc.ok }

abbrev pub is_ok : Errc → Bool
is_ok e = elim e [ Errc.ok ↦ true | _ ↦ false ]

-- `result` is left alone unless there is a number.
pub parse_unsigned : ℕ → Text → Option ℕ
unfolding from_chars
parse_unsigned width text =
    let r = from_chars width text in
    if length text == 0
    then none
    else if not (is_ok r.error) || not (length r.rest == 0)
    then none
    else some r.parsed

abbrev pub IsDigit : ℕ → Type 0
IsDigit c = (b'0' ≤ c) × (c ≤ b'9')

span_digits-All : (t : Text) → All IsDigit t → span_digits t ≡ (t, [])
unfolding span_digits
span_digits-All [] h = refl
span_digits-All (c ∷ cs) h = rw (span_digits-All cs h.1) (ground arith)

span_digits-rest :
    (t : Text) → length (span_digits t).1 ≡ 0 → All IsDigit t × ((span_digits t).0 ≡ t)
unfolding span_digits
span_digits-rest [] h = (tt, refl)
span_digits-rest (c ∷ cs) h = elim (Bool-cases (is_digit c)) [
  | inl e ↦
      let ih : All IsDigit cs × ((span_digits cs).0 ≡ cs) = span_digits-rest cs (ground arith) in
      ((ground arith, ih.0), rw (e, ih.1) refl)
  | inr e ↦ absurd (ground arith)
]

length-ne-zero : (t : Text) → t ≢ [] → length t ≢ 0
length-ne-zero [] h = absurd (h refl)
length-ne-zero (c ∷ cs) h = omega arith

parse_unsigned-reads :
    (width : ℕ) (text : Text) (n : ℕ)
    → parse_unsigned width text ≡ some n
    → (length text ≢ 0)
      × (length (span_digits text).1 ≡ 0)
      × (value_from 0 (span_digits text).0 ≡ n)
      × (n < 2 ^ width)
unfolding parse_unsigned from_chars
parse_unsigned-reads width text n e = ground arith

-- `parseUnsigned` reads just the decimal numerals, leading zeros included, that fit the type.
pub parse_unsigned_iff :
    (width : ℕ) (text : Text) (n : ℕ)
    → (parse_unsigned width text ≡ some n)
      ↔ ((text ≢ []) × All IsDigit text × (value_from 0 text ≡ n) × (n < 2 ^ width))
unfolding parse_unsigned from_chars
parse_unsigned_iff width text n = (reads, reads_all)
  where
    reads :
        parse_unsigned width text ≡ some n
        → (text ≢ []) × All IsDigit text × (value_from 0 text ≡ n) × (n < 2 ^ width)
    reads e =
        let f : (length text ≢ 0)
            × (length (span_digits text).1 ≡ 0)
            × (value_from 0 (span_digits text).0 ≡ n)
            × (n < 2 ^ width) =
          parse_unsigned-reads width text n e in
        let d : All IsDigit text × ((span_digits text).0 ≡ text) = span_digits-rest text f.1 in
        (λ z. f.0 (ap length z), d.0, ap (value_from 0) (sym d.1) ∙ f.2, f.3)

    reads_all :
        (text ≢ []) × All IsDigit text × (value_from 0 text ≡ n) × (n < 2 ^ width)
        → parse_unsigned width text ≡ some n
    reads_all h =
        let ne : length text ≢ 0 = length-ne-zero text h.0 in
        rw (span_digits-All text h.1) (ground arith)

-- Reading the digits that `std::to_string` writes.
digits-value :
    (fuel n : ℕ) (out : Text)
    → n < fuel
    → All IsDigit out
    → (digits fuel n out ≢ [])
      × All IsDigit (digits fuel n out)
      × (value_from 0 (digits fuel n out) ≡ value_from n out)
unfolding digits value_from
digits-value zero n out h a = absurd (omega arith)
digits-value (suc fuel) n out h a = elim (Bool-cases (ltb n 10)) [
  | inl small ↦ rw small (
    λ e. omega (arith, ap length e),
    (omega arith, a),
    ap (λ k. value_from k out) {x = 10 * 0 + (b'0' + n % 10 - b'0')} {y = n}
        (omega (arith, ltb→lt n 10 small)),
  )
  | inr big ↦
      let q : 10 * (n / 10) + (b'0' + n % 10 - b'0') ≡ n = omega arith in
      let ih : (digits fuel (n / 10) ((b'0' + n % 10) ∷ out) ≢ [])
          × All IsDigit (digits fuel (n / 10) ((b'0' + n % 10) ∷ out))
          × (value_from 0 (digits fuel (n / 10) ((b'0' + n % 10) ∷ out))
              ≡ value_from (n / 10) ((b'0' + n % 10) ∷ out)) =
        digits-value fuel (n / 10) ((b'0' + n % 10) ∷ out) (ground arith) (omega arith, a) in
      rw big (ih.0, ih.1, ih.2 ∙ ap (λ k. value_from k out) q)
]

-- What `std::to_string` writes of a number that fits the type is what `parseUnsigned` reads as
-- that number.
pub parse_unsigned-to_string :
    (width n : ℕ) → n < 2 ^ width → parse_unsigned width (to_string n) ≡ some n
unfolding to_string value_from
parse_unsigned-to_string width n h =
    let d : (to_string n ≢ []) × All IsDigit (to_string n) × (value_from 0 (to_string n) ≡ n) =
      digits-value (suc n) n [] (omega arith) tt in
    (parse_unsigned_iff width (to_string n) n).1 (d.0, d.1, d.2, h)
