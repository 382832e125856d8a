-- ===== src/Server/Buffer.antt =====
-- Server/include/Buffer.hpp: the bytes that a client has sent, of which those before `offset` are done
-- with.
use telemetry_server.Base.{
  ℕ, ◌-◌, ◌≤◌, ◌<◌, ◌≡◌, ◌≢◌, inl, inr, refl, sym, arith, Bool, [], length, drop, drop_all,
  length-drop, leb, ◌==◌, if◌then◌else◌, Bool-cases, leb→le, ==_iff,
}
use telemetry_server.Protocol.Words.{Bytes}

pub record Buffer : Type 0 where
  pub bytes : Bytes
  pub offset : ℕ

abbrev pub new_buffer : Buffer
new_buffer = record { bytes = []; offset = 0 }

abbrev pub empty : Buffer → Bool
empty b = leb (length b.bytes) b.offset

abbrev pub pending_bytes : Buffer → ℕ
pending_bytes b = if empty b then 0 else length b.bytes - b.offset

unfoldable pub compact : ℕ → Buffer → Buffer
compact threshold b =
    if b.offset == 0
    then b
    else if empty b
    then new_buffer
    else if leb threshold b.offset
    then record { bytes = drop b.offset b.bytes; offset = 0 }
    else b

-- The bytes that are still to be read.
abbrev pub pending : Buffer → Bytes
pending b = drop b.offset b.bytes

pub length-pending : (b : Buffer) → pending_bytes b ≡ length (pending b)
length-pending b = grind (arith, length-drop b.offset b.bytes)

abbrev pub IsInOrder : Buffer → Type 0
IsInOrder b = b.offset ≤ length b.bytes

-- `compact` of a buffer in order keeps the bytes that are still to be read and leaves the buffer
-- in order, and after it none, or fewer than `threshold`, bytes are done with.
pub compact_lem :
    (threshold : ℕ) (b : Buffer)
    → IsInOrder b
    → (pending (compact threshold b) ≡ pending b)
      × IsInOrder (compact threshold b)
      × ((compact threshold b).offset ≢ 0 → (compact threshold b).offset < threshold)
unfolding compact
compact_lem threshold b o = elim (Bool-cases (b.offset == 0)) [
  | inl z ↦ rw z (refl, o, λ h. absurd (h ((==_iff b.offset 0).0 z)))
  | inr n ↦ elim (Bool-cases (empty b)) [
    | inl e ↦
        rw (n, e)
          (sym (drop_all b.offset b.bytes (leb→le _ _ e)), omega arith, λ h. absurd (h refl))
    | inr s ↦ elim (Bool-cases (leb threshold b.offset)) [
      | inl d ↦ rw (n, s, d) (refl, omega arith, λ h. absurd (h refl))
      | inr k ↦ rw (n, s, k) (refl, o, λ h. ground arith)
    ]
  ]
]
