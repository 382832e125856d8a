-- ===== src/Load/Sender/Batch.antt =====
-- What the load generator puts into its buffer.
use telemetry_server.Base.{
  ℕ, zero, suc, ◌+◌, ◌*◌, ◌≤◌, ◌≡◌, refl, ap, sym, ◌∙◌, arith, [], ◌++◌, length, take, drop,
  append-nil, append_assoc, length-append, length-take, length-drop, take-append_self,
  take-append_add, drop-append_self,
}
use telemetry_server.Protocol.Words.{Bytes}
use telemetry_server.Protocol.Codec.{frame_size, encode, DecodeError, succeeded, decode}
use telemetry_server.Protocol.Codec.RoundTrip.{IsRepresentable, length-encode, decode-encode}
use telemetry_server.Server.Receive.{valid_frames}
use telemetry_server.Load.Sender.{load_record, copy_to, fill}

-- The frames of `count` records, behind `sent` others.
abbrev pub telemetry : ℕ → ℕ → Bytes
telemetry sent zero = []
telemetry sent (suc count) = encode (load_record sent) ++ telemetry (suc sent) count

pub length-telemetry : (sent count : ℕ) → length (telemetry sent count) ≡ count * frame_size
length-telemetry sent zero = refl
length-telemetry sent (suc count) =
    let size = length-append (encode (load_record sent)) (telemetry (suc sent) count) in
    let frame = length-encode (load_record sent) in
    let rest = length-telemetry (suc sent) count in omega (arith, size, frame, rest)

pub telemetry-add :
    (sent m n : ℕ) → telemetry sent (m + n) ≡ telemetry sent m ++ telemetry (sent + m) n
telemetry-add sent zero n =
    let e : zero + n ≡ n = omega arith in let p : sent + zero ≡ sent = omega arith in rw (e, p) refl
telemetry-add sent (suc m) n =
    let e : suc m + n ≡ suc (m + n) = omega arith in
    let p : sent + suc m ≡ suc sent + m = omega arith in
    rw (e, p)
      (ap (λ b. encode (load_record sent) ++ b) (telemetry-add (suc sent) m n)
        ∙ sym (append_assoc (encode (load_record sent)) (telemetry (suc sent) m) _))

length-copy_to :
    (buffer : Bytes) (offset : ℕ) (frame : Bytes)
    → offset + length frame ≤ length buffer
    → length (copy_to buffer offset frame) ≡ length buffer
length-copy_to buffer offset frame h =
    let all = length-append (take offset buffer) (frame ++ drop (offset + length frame) buffer) in
    let behind = length-append frame (drop (offset + length frame) buffer) in
    let front = length-take offset buffer in
    let back = length-drop (offset + length frame) buffer in omega (arith, all, behind, front, back)

take-copy_to :
    (buffer : Bytes) (offset : ℕ) (frame : Bytes)
    → offset ≤ length buffer
    → take (offset + length frame) (copy_to buffer offset frame) ≡ take offset buffer ++ frame
take-copy_to buffer offset frame h =
    let front = length-take offset buffer in
    ap (λ k. take k (copy_to buffer offset frame)) {x = offset + length frame}
      {y = length (take offset buffer) + length frame} (omega (arith, front))
    ∙ take-append_add (take offset buffer) (frame ++ drop (offset + length frame) buffer)
        (length frame)
    ∙ ap (λ b. take offset buffer ++ b) (take-append_self frame _)

pub length-fill :
    (left i sent : ℕ) (buffer : Bytes)
    → (i + left) * frame_size ≤ length buffer
    → length (fill left i sent buffer) ≡ length buffer
unfolding fill
length-fill zero i sent buffer h = refl
length-fill (suc left) i sent buffer h =
    let frame = length-encode (load_record (sent + i)) in
    let same =
      length-copy_to buffer (i * frame_size) (encode (load_record (sent + i)))
        (omega (arith, h, frame)) in
    length-fill left (suc i) sent _ (omega (arith, h, same)) ∙ same

pub take-fill :
    (left i sent : ℕ) (buffer : Bytes)
    → (i + left) * frame_size ≤ length buffer
    → take ((i + left) * frame_size) (fill left i sent buffer)
      ≡ take (i * frame_size) buffer ++ telemetry (sent + i) left
unfolding fill
take-fill zero i sent buffer h =
    ap (λ k. take k buffer) {x = (i + zero) * frame_size} {y = i * frame_size} (omega arith)
    ∙ sym (append-nil _)
take-fill (suc left) i sent buffer h =
    let frame = length-encode (load_record (sent + i)) in
    let same =
      length-copy_to buffer (i * frame_size) (encode (load_record (sent + i)))
        (omega (arith, h, frame)) in
    ap (λ k. take (k * frame_size) (fill (suc left) i sent buffer)) {x = i + suc left}
      {y = suc i + left} (omega arith)
    ∙ take-fill left (suc i) sent _ (omega (arith, h, same))
    ∙ ap (λ b. b ++ telemetry (sent + suc i) left)
        (ap (λ k. take k (copy_to buffer (i * frame_size) (encode (load_record (sent + i)))))
            {x = suc i * frame_size} {y = i * frame_size + length (encode (load_record (sent + i)))}
            (omega (arith, frame))
          ∙ take-copy_to buffer (i * frame_size) (encode (load_record (sent + i)))
              (omega (arith, h)))
    ∙ append_assoc (take (i * frame_size) buffer) (encode (load_record (sent + i)))
        (telemetry (sent + suc i) left)
    ∙ ap
        (λ k. take (i * frame_size) buffer ++ (encode (load_record (sent + i)) ++ telemetry k left))
        {x = sent + suc i} {y = suc (sent + i)} (omega arith)

load_record-IsRepresentable : (k : ℕ) → IsRepresentable (load_record k)
load_record-IsRepresentable k = record {
  sensor = omega arith;
  metric = omega arith;
  timestamp = omega arith;
  value = omega arith;
}

take-encode :
    (k : ℕ) (rest : Bytes)
    → take frame_size (encode (load_record k) ++ rest) ≡ encode (load_record k)
take-encode k rest =
    ap (λ n. take n (encode (load_record k) ++ rest)) (sym (length-encode (load_record k)))
    ∙ take-append_self (encode (load_record k)) rest

drop-encode : (k : ℕ) (rest : Bytes) → drop frame_size (encode (load_record k) ++ rest) ≡ rest
drop-encode k rest =
    ap (λ n. drop n (encode (load_record k) ++ rest)) (sym (length-encode (load_record k)))
    ∙ drop-append_self (encode (load_record k)) rest

-- The server finds each frame of the records that the load generator sends valid.
pub valid_frames-telemetry :
    (sent count : ℕ) → valid_frames count (telemetry sent count) ≡ (count, DecodeError.none)
unfolding valid_frames
valid_frames-telemetry sent zero = refl
valid_frames-telemetry sent (suc count) =
    let good : succeeded (decode (encode (load_record sent)))
        ≡ succeeded (record { telemetry = load_record sent; error = DecodeError.none }) =
      ap succeeded (decode-encode (load_record sent) (load_record-IsRepresentable sent)) in
    rw
      (
        take-encode sent (telemetry (suc sent) count),
        drop-encode sent (telemetry (suc sent) count),
        good,
        valid_frames-telemetry (suc sent) count,
      )
      refl
