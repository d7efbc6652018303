-- ===== src/Resp/Sendable.antt =====
-- The frames that the decoder of lib.rs accepts from the encoder, and what one costs in memory.
use seedstone.Base.{
  ℕ, suc, ◌+◌, ◌*◌, ◌≤◌, ◌<◌, ◌≡◌, true, length, arith, is_utf8, length-append, decimal,
}
use seedstone.Resp.{
  Frame, Frames, simple, error, integer, bulk, null, array, nil, cons, list_of, line, crlf, size,
  sizes,
}
use seedstone.Resp.Encoding.{encoded, encoded_all}
use seedstone.Resp.Decoder.{max_bulk_len, max_array_len, max_array_depth, payload_bytes}
use seedstone.Resp.Number.{InRange}
use seedstone.Resp.Line.{IsLine}

-- A frame within so many arrays that keeps the ceilings: its texts are UTF-8 without CRLF.
unfoldable mutual
  unfolding list_of

  pub Sendable : ℕ → Frame → Type 0
  Sendable depth (simple s) = IsLine s × (is_utf8 s ≡ true)
  Sendable depth (error e) = IsLine e × (is_utf8 e ≡ true)
  Sendable depth (integer i) = InRange i
  Sendable depth (bulk b) = length b ≤ max_bulk_len
  Sendable depth null = Unit {0}
  Sendable depth (array fs) =
      (depth < max_array_depth) × (length (list_of fs) ≤ max_array_len) × SendableAll (suc depth) fs

  pub SendableAll : ℕ → Frames → Type 0
  SendableAll depth nil = Unit {0}
  SendableAll depth (cons f fs) = Sendable depth f × SendableAll depth fs

-- What the frames within a frame cost, and what a list of frames costs.
unfoldable mutual
  unfolding payload_bytes

  pub inner : ℕ → Frame → ℕ
  inner unit (simple s) = 0
  inner unit (error e) = 0
  inner unit (integer i) = 0
  inner unit (bulk b) = 0
  inner unit null = 0
  inner unit (array fs) = costs unit fs

  pub costs : ℕ → Frames → ℕ
  costs unit nil = 0
  costs unit (cons f fs) = unit + payload_bytes f + inner unit f + costs unit fs

abbrev pub whole_cost : ℕ → Frame → ℕ
whole_cost unit f = unit + payload_bytes f + inner unit f

pub count-costs : (unit : ℕ) (fs : Frames) → length (list_of fs) * unit ≤ costs unit fs
unfolding costs list_of
count-costs unit nil = omega arith
count-costs unit (cons f fs) = grind (arith, count-costs unit fs)

pub size-encoded : (f : Frame) → size f ≤ length (encoded f)
unfolding size encoded
size-encoded f =
    elim f as (λ f. size f ≤ length (encoded f)) (λ fs. sizes fs ≤ length (encoded_all fs)) [
      | simple s ↦ omega arith
      | error s ↦ omega arith
      | integer i ↦ omega arith
      | bulk b ↦ omega arith
      | null ↦ omega arith
      | array (fs → ih) ↦ omega (
        arith,
        length-append (line b'*' (decimal (length (list_of fs)))) (encoded_all fs),
        length-append (decimal (length (list_of fs))) crlf,
      )
      | nil ↦ omega arith
      | cons (g → ih) (gs → ihs) ↦ omega (arith, length-append (encoded g) (encoded_all gs))
    ]
