-- ===== src/Storage/FileStore/Names.antt =====
-- The names of archived segments: none is made twice.
use telemetry_server.Base.{
  ℕ, ◌+◌, ◌%◌, ◌^◌, ◌≤◌, ◌<◌, ◌≡◌, ◌≢◌, refl, ap, sym, subst, ◌∙◌, arith, Bool, true, false, ◌||◌,
  some, List, [], ◌∷◌, ◌++◌, length, All, append_assoc, length-append, Bool-cases, inl, inr,
  if◌then◌else◌, ◌==◌, ==_of_ne,
}
use telemetry_server.Base.Text.{Text, codes, to_string, text_eq, text_eq_iff}
use telemetry_server.Protocol.Words.{Bytes}
use telemetry_server.Config.Numbers.{
  IsDigit, parse_unsigned, parse_unsigned_iff, parse_unsigned-to_string,
}
use telemetry_server.Storage.Disk.{Files, has, names_but, segments_but, set_aside}
use telemetry_server.Storage.FileStore.{FileStore, archive_name}

-- The parts of a text between its dots.
abbrev push : ℕ → List Text → List Text
push c [] = (c ∷ []) ∷ []
push c (t ∷ ts) = (c ∷ t) ∷ ts

abbrev parts : Text → List Text
parts [] = [] ∷ []
parts (c ∷ cs) = let rest = parts cs in if c == b'.' then [] ∷ rest else push c rest

push-append : (c : ℕ) (xs ys : List Text) → xs ≢ [] → push c (xs ++ ys) ≡ push c xs ++ ys
push-append c [] ys h = absurd (h refl)
push-append c (x ∷ xs) ys h = refl

push-some : (c : ℕ) (xs : List Text) → push c xs ≢ []
push-some c [] e = (let x = ap length e in omega (arith, x))
push-some c (x ∷ xs) e = (let y = ap length e in omega (arith, y))

parts-some : (t : Text) → parts t ≢ []
parts-some [] = λ e. (let x = ap length e in omega (arith, x))
parts-some (c ∷ cs) = elim (Bool-cases (c == b'.')) [
  | inl z ↦ rw z (λ e. (let x = ap length e in omega (arith, x)))
  | inr z ↦ rw z (push-some c (parts cs))
]

parts-append : (a b : Text) → parts (a ++ b'.' ∷ b) ≡ parts a ++ parts b
parts-append [] b = refl
parts-append (c ∷ cs) b = elim (Bool-cases (c == b'.')) [
  | inl z ↦ rw z (ap (λ ts. [] ∷ ts) (parts-append cs b))
  | inr z ↦
      rw z (ap (push c) (parts-append cs b) ∙ push-append c (parts cs) (parts b) (parts-some cs))
]

parts-digits : (t : Text) → All IsDigit t → parts t ≡ t ∷ []
parts-digits [] h = refl
parts-digits (c ∷ cs) h =
    let ne : (c == b'.') ≡ false = ==_of_ne (λ e. (let d = h.0 in omega (arith, d, e))) in
    rw ne (ap (push c) (parts-digits cs h.1))

-- The part before the last.
abbrev last_but_one : List Text → Text
last_but_one [] = []
last_but_one (x ∷ []) = []
last_but_one (x ∷ y ∷ []) = x
last_but_one (x ∷ y ∷ z ∷ rest) = last_but_one (y ∷ z ∷ rest)

last_but_one-append : (xs : List Text) (u v : Text) → last_but_one (xs ++ u ∷ v ∷ []) ≡ u
last_but_one-append [] u v = refl
last_but_one-append (x ∷ []) u v = refl
last_but_one-append (x ∷ y ∷ []) u v = refl
last_but_one-append (x ∷ y ∷ z ∷ rest) u v = last_but_one-append (y ∷ z ∷ rest) u v

to_string-All : (n : ℕ) → n < 2 ^ 64 → All IsDigit (to_string n)
to_string-All n h = ((parse_unsigned_iff 64 (to_string n) n).0 (parse_unsigned-to_string 64 n h)).1

sequence_of :
    (front : Text) (q : ℕ)
    → q < 2 ^ 64
    → last_but_one (parts (front ++ b'.' ∷ (to_string q ++ codes ".segment"))) ≡ to_string q
sequence_of front q h =
    ap last_but_one (
      parts-append front (to_string q ++ codes ".segment")
      ∙ ap (λ ts. parts front ++ ts)
          (parts-append (to_string q) (codes "segment")
            ∙ ap (λ ts. ts ++ (codes "segment" ∷ []))
                (parts-digits (to_string q) (to_string-All q h))))
    ∙ last_but_one-append (parts front) (to_string q) (codes "segment")

abbrev front_of : Text → ℕ → ℕ → Text
front_of file sec nsec = file ++ codes "." ++ to_string sec ++ codes "." ++ to_string nsec

archive_name-split :
    (file : Text) (sec nsec q : ℕ)
    → archive_name file sec nsec q
      ≡ front_of file sec nsec ++ b'.' ∷ (to_string q ++ codes ".segment")
unfolding archive_name
archive_name-split file sec nsec q =
    append_assoc (front_of file sec nsec ++ codes ".") (to_string q) (codes ".segment")
    ∙ append_assoc (front_of file sec nsec) (codes ".") (to_string q ++ codes ".segment")

archive_name-sequence :
    (file : Text) (sec nsec q sec' nsec' q' : ℕ)
    → q < 2 ^ 64
    → q' < 2 ^ 64
    → archive_name file sec nsec q ≡ archive_name file sec' nsec' q'
    → q ≡ q'
archive_name-sequence file sec nsec q sec' nsec' q' h h' e =
    let same : to_string q ≡ to_string q' =
      sym (
        ap (λ t. last_but_one (parts t)) (archive_name-split file sec nsec q)
        ∙ sequence_of (front_of file sec nsec) q h)
      ∙ ap (λ t. last_but_one (parts t)) e
      ∙ ap (λ t. last_but_one (parts t)) (archive_name-split file sec' nsec' q')
      ∙ sequence_of (front_of file sec' nsec') q' h' in
    let read : some q ≡ some q' =
      sym (parse_unsigned-to_string 64 q h)
      ∙ ap (parse_unsigned 64) same
      ∙ parse_unsigned-to_string 64 q' h' in
    ground (arith, read)

-- No archive has a name that the store can still make at a time of `shows`.
abbrev pub IsUnused : (ℕ → ℕ → Bool) → Text → ℕ → List Text → Type 0
IsUnused shows file sequence names =
    (sec nsec q : ℕ)
    → shows sec nsec ≡ true
    → sequence ≤ q
    → q < 2 ^ 64
    → has (archive_name file sec nsec q) names ≡ false

abbrev pub CanName : (ℕ → ℕ → Bool) → FileStore → Files → Type 0
CanName shows st f =
    (st.rotation_sequence < 2 ^ 64)
    × (st.rotation_sequence ≤ length f.names)
    × IsUnused shows st.file_name st.rotation_sequence f.names

has-snoc : (n m : Text) (ms : List Text) → has n (ms ++ m ∷ []) ≡ (has n ms || text_eq n m)
has-snoc n m [] = ground arith
has-snoc n m (x ∷ xs) = let ih = has-snoc n m xs in ground (arith, ih)

pub names_but_new : (n : Text) (ms : List Text) → has n ms ≡ false → names_but n ms ≡ ms
names_but_new n [] h = refl
names_but_new n (m ∷ ms) h =
    let e : text_eq n m ≡ false = ground (arith, h) in
    rw e (ap (λ xs. m ∷ xs) (names_but_new n ms (ground (arith, h))))

pub segments_but_new :
    (n : Text) (ms : List Text) (bs : List Bytes) → has n ms ≡ false → segments_but n ms bs ≡ bs
segments_but_new n [] bs h = refl
segments_but_new n (m ∷ ms) [] h = refl
segments_but_new n (m ∷ ms) (b ∷ bs) h =
    let e : text_eq n m ≡ false = ground (arith, h) in
    rw e (ap (λ xs. b ∷ xs) (segments_but_new n ms bs (ground (arith, h))))

pub has_new :
    (shows : ℕ → ℕ → Bool) (st : FileStore) (f : Files) (sec nsec : ℕ)
    → CanName shows st f
    → shows sec nsec ≡ true
    → has (archive_name st.file_name sec nsec st.rotation_sequence) f.names ≡ false
has_new shows st f sec nsec (low, few, unused) t =
    unused sec nsec st.rotation_sequence t (omega arith) low

has-archive_name :
    (file : Text) (names : List Text) (sec nsec q sec' nsec' q' : ℕ)
    → q < q'
    → q' < 2 ^ 64
    → has (archive_name file sec' nsec' q') names ≡ false
    → has (archive_name file sec' nsec' q') (names ++ archive_name file sec nsec q ∷ []) ≡ false
has-archive_name file names sec nsec q sec' nsec' q' h h' e =
    has-snoc (archive_name file sec' nsec' q') (archive_name file sec nsec q) names
    ∙ (elim (Bool-cases
        (text_eq (archive_name file sec' nsec' q') (archive_name file sec nsec q))) [
          | inl same ↦
              let eq : q' ≡ q =
                archive_name-sequence file sec' nsec' q' sec nsec q h' (omega arith) (
                  (text_eq_iff (archive_name file sec' nsec' q') (archive_name file sec nsec q)).0
                    same) in
              absurd (omega arith)
          | inr other ↦ rw (e, other) refl
        ])

-- After an archive of a new name, the next names are new again.
pub CanName-next :
    (shows : ℕ → ℕ → Bool) (st : FileStore) (f : Files) (sec nsec : ℕ)
    → CanName shows st f
    → has (archive_name st.file_name sec nsec st.rotation_sequence) f.names ≡ false
    → let n = archive_name st.file_name sec nsec st.rotation_sequence in
      length (names_but n f.names ++ n ∷ []) < 2 ^ 64
      → CanName shows
          (record st { rotation_sequence = (st.rotation_sequence + 1) % 2 ^ 64 })
          (set_aside n true f)
CanName-next shows st f sec nsec (low, few, unused) new room =
    subst
      (λ ms.
        (next < 2 ^ 64)
        × (next ≤ length (ms ++ n ∷ []))
        × IsUnused shows st.file_name next (ms ++ n ∷ []))
      (sym same)
      (
        omega arith,
        (let l = length-append f.names (n ∷ []) in omega (arith, l, few)),
        λ sec' nsec' q t h h'.
            has-archive_name st.file_name f.names sec nsec st.rotation_sequence sec' nsec' q
              (omega (arith, h, counted)) h' (unused sec' nsec' q t (omega (arith, h, counted)) h'),
      )
  where
    n : Text
    n = archive_name st.file_name sec nsec st.rotation_sequence

    next : ℕ
    next = (st.rotation_sequence + 1) % 2 ^ 64

    same : names_but n f.names ≡ f.names
    same = names_but_new n f.names new

    counted : next ≡ st.rotation_sequence + 1
    counted =
        let l = length-append f.names (n ∷ []) in
        let r = subst (λ ms. length (ms ++ n ∷ []) < 2 ^ 64) same room in omega (arith, l, r, few)
